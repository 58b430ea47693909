-- ===== src/Ipc/Fifo/Laws.antt =====
-- What is found under a path after a FIFO is made.
use theory_os.Base.{
  ℕ, zero, suc, ◌≤◌, ◌≡◌, refl, ap, ◌∙◌, arith, true, false, none, some, List, [], ◌∷◌,
  if◌then◌else◌, length, min, set, Bool-cases, inl, inr,
}
use theory_os.Base.Slots.{position, is_free}
use theory_os.Base.Bytes.{take_all}
use theory_os.Fs.Vfs.Dentry.Laws.{same_bytes_self}
use theory_os.Ipc.Pipe.Table.{Pipes, create, reached, missing}
use theory_os.Ipc.Fifo.{FifoEntry, Fifos, new_entry, is_at, lookup, add_entry, mkfifo, with_pipe}

-- The entry in the first free slot is found under its path, if no other was.
lookup-set_self :
    (path : List ℕ) (e : FifoEntry) (fifos : Fifos) (i : ℕ)
    → position is_free fifos ≡ some i
    → lookup path fifos ≡ none
    → is_at path e ≡ true
    → lookup path (set fifos i (some e)) ≡ some e.pipe
unfolding lookup position
lookup-set_self path e [] i free absent at = absurd (ground arith)
lookup-set_self path e (none ∷ fifos) zero free absent at = rw at refl
lookup-set_self path e (none ∷ fifos) (suc i) free absent at = absurd (ground (arith, free))
lookup-set_self path e (some other ∷ fifos) zero free absent at = absurd (ground (arith, free))
lookup-set_self path e (some other ∷ fifos) (suc i) free absent at =
    elim (Bool-cases (is_at path other)) [
      | inl hit ↦ let whole : some other.pipe ≡ none = rw hit at absent in absurd (cc)
      | inr miss ↦
          let absent' : lookup path fifos ≡ none = rw miss at absent in
          rw miss (lookup-set_self path e fifos i (ground (arith, free)) absent' at)
    ]

lookup-set_ne :
    (path : List ℕ) (e : FifoEntry) (fifos : Fifos) (i : ℕ)
    → position is_free fifos ≡ some i
    → is_at path e ≡ false
    → lookup path (set fifos i (some e)) ≡ lookup path fifos
unfolding lookup position
lookup-set_ne path e [] i free at = absurd (ground arith)
lookup-set_ne path e (none ∷ fifos) zero free at = rw at refl
lookup-set_ne path e (none ∷ fifos) (suc i) free at = absurd (ground (arith, free))
lookup-set_ne path e (some other ∷ fifos) zero free at = absurd (ground (arith, free))
lookup-set_ne path e (some other ∷ fifos) (suc i) free at =
    let rest : lookup path (set fifos i (some e)) ≡ lookup path fifos =
      lookup-set_ne path e fifos i (ground (arith, free)) at in
    ap (λ r. if is_at path other then some other.pipe else r) rest

-- A FIFO made under a path of at most 256 bytes that has none, where the table has a free slot and
-- a pipe is to be had, is found there as that pipe; every other path finds what it found. Where the
-- table is full, the call fails, and its pipe stays in the table of pipes.
pub lookup-mkfifo :
    (path : List ℕ) (fifos : Fifos) (pipes pipes' : Pipes) (id : ℕ)
    → create pipes ≡ (reached id, pipes')
    → length path ≤ 256
    → lookup path fifos ≡ none
    → ((i : ℕ)
        → position is_free fifos ≡ some i
        → (fifos' : Fifos) × (mkfifo path fifos pipes ≡ (reached id, fifos', pipes'))
          × (lookup path fifos' ≡ some id)
          × ((other : List ℕ)
              → is_at other (new_entry path id) ≡ false
              → lookup other fifos' ≡ lookup other fifos))
      × (position is_free fifos ≡ none → mkfifo path fifos pipes ≡ (missing, fifos, pipes'))
unfolding mkfifo add_entry
lookup-mkfifo path fifos pipes pipes' id made short absent = (
  λ i free.
      let whole : (new_entry path id).path ≡ path =
        take_all (min (length path) 256) path (omega (arith, short)) in
      let at : is_at path (new_entry path id) ≡ true =
        rw whole (ground (arith, same_bytes_self path)) in
      (
        set fifos i (some (new_entry path id)),
        ap (with_pipe path fifos) made ∙ rw (free, with_pipe, add_entry) refl,
        lookup-set_self path (new_entry path id) fifos i free absent at,
        λ other ne. lookup-set_ne other (new_entry path id) fifos i free ne,
      ),
  λ full. ap (with_pipe path fifos) made ∙ rw (full, with_pipe, add_entry) refl,
)
