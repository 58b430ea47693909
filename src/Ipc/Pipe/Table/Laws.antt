-- ===== src/Ipc/Pipe/Table/Laws.antt =====
-- What the calls on the table of pipes guarantee.
use theory_os.Base.{
  ℕ, ◌≤◌, ◌<◌, ◌≡◌, ◌≢◌, refl, sym, ap, ◌∙◌, none, some, true, false, List, [], ◌∷◌, arith, leb,
  ltb, length, set, length-set,
}
use mathlib.Core.Path.{subst}
use native.Mathlib.Decide.{ℕ_discrete}
use theory_os.Base.Slots.{entry, entry-set_self, entry-set_ne}
use theory_os.Ipc.Pipe.{
  PipeInner, Result, read_status, read_wait, err, would_block, max_pipes, new_inner,
}
use theory_os.Ipc.Pipe.Ring.{IsValid, new_inner-IsValid}
use theory_os.Ipc.Pipe.Table.{
  Pipes, reached, missing, locked_out, asleep, spinning, with_pipe, create, close_read, close_write,
  resume, write_round, write, read_round, read,
}

-- 64 slots, those from `next` on free, and a well-formed pipe in every other that is in use.
pub record IsWellFormed (t : Pipes) : Type 0 where
  pub size : length t.slots ≡ 64
  pub unused : (i : ℕ) → t.next ≤ i → entry t.slots i ≡ none
  pub pipes : (i : ℕ) (p : PipeInner) → entry t.slots i ≡ some p → IsValid p

len-new_inner : new_inner.len ≡ 0
unfolding new_inner
len-new_inner = refl

-- `create` on an unlocked table gives the next number while it is below 64: its slot was free and
-- now holds an empty pipe with one reader and one writer, every other slot is as it was, and the
-- table stays well formed.
pub create_lem :
    (t : Pipes)
    → IsWellFormed t
    → t.locked ≡ false
    → t.next < 64
    → ((create t).0 ≡ reached t.next)
      × (entry t.slots t.next ≡ none)
      × ((p : PipeInner)
          → entry (create t).1.slots t.next ≡ some p
          → (p.read_refs ≡ 1) × (p.write_refs ≡ 1) × (p.len ≡ 0))
      × ((i : ℕ) → i ≢ t.next → entry (create t).1.slots i ≡ entry t.slots i)
      × IsWellFormed (create t).1
unfolding create
create_lem t w free lt =
    let small : leb max_pipes t.next ≡ false = ground arith in
    rw (small, free)
      (
        refl,
        w.unused t.next (omega arith),
        λ p e.
            let same : fresh ≡ p = made p e in
            (
              sym (ap (λ (q : PipeInner). q.read_refs) same),
              sym (ap (λ (q : PipeInner). q.write_refs) same),
              sym (ap (λ (q : PipeInner). q.len) same) ∙ len-new_inner,
            ),
        λ i ne. entry-set_ne t.slots t.next i (some fresh) (λ q. ne (sym q)),
        record {
          size = length-set t.slots t.next (some fresh) ∙ w.size;
          unused = λ i le.
              entry-set_ne t.slots t.next i (some fresh) (omega arith) ∙ w.unused i (omega arith);
          pipes = λ i p e. elim (ℕ_discrete t.next i) [
            | yes same ↦
                subst IsValid (made p (ap (entry (set t.slots t.next (some fresh))) same ∙ e))
                  fresh-IsValid
            | no ne ↦ w.pipes i p (sym (entry-set_ne t.slots t.next i (some fresh) ne) ∙ e)
          ];
        },
      )
  where
    fresh : PipeInner
    fresh = record new_inner { read_refs = 1; write_refs = 1 }

    fresh-IsValid : IsValid fresh
    fresh-IsValid = record {
      storage = new_inner-IsValid.storage;
      head_in = new_inner-IsValid.head_in;
      len_in = new_inner-IsValid.len_in;
      in_step = new_inner-IsValid.in_step;
    }

    made : (p : PipeInner) → entry (set t.slots t.next (some fresh)) t.next ≡ some p → fresh ≡ p
    made p e =
        let same : some fresh ≡ some p =
          sym (entry-set_self t.slots t.next (some fresh) (omega (arith, w.size))) ∙ e in
        cc

-- Both ends of each pipe of the list are closed.
pub close_all : List ℕ → Pipes → Pipes
close_all [] t = t
close_all (id ∷ ids) t = close_all ids (close_write id (close_read id t).1).1

next-with_pipe :
    {A : Type 0} (id : ℕ) (f : PipeInner → A × PipeInner) (t : Pipes)
    → (with_pipe id f t).1.next ≡ t.next
unfolding with_pipe
next-with_pipe id f t = ground arith

next-close_all : (ids : List ℕ) (t : Pipes) → (close_all ids t).next ≡ t.next
unfolding close_all close_read close_write
next-close_all [] t = refl
next-close_all (id ∷ ids) t =
    next-close_all ids (close_write id (close_read id t).1).1
    ∙ next-with_pipe id _ (close_read id t).1
    ∙ next-with_pipe id _ t

-- Numbers are never given back: once 64 pipes have been created, `create` fails, whichever pipes
-- have been closed at both ends since.
pub create-close_all :
    (ids : List ℕ) (t : Pipes) → 64 ≤ t.next → (create (close_all ids t)).0 ≡ missing
unfolding create
create-close_all ids t h = ground (arith, next-close_all ids t)

-- Other threads at a table that a sleeping one has locked: whatever they call, they spin.
pub with_pipe-locked :
    {A : Type 0} (id : ℕ) (f : PipeInner → A × PipeInner) (t : Pipes)
    → t.locked ≡ true
    → with_pipe id f t ≡ (locked_out, t)
unfolding with_pipe
with_pipe-locked id f t taken = rw taken refl

with_pipe-reached :
    {A : Type 0} (id : ℕ) (f : PipeInner → A × PipeInner) (p : PipeInner) (t : Pipes)
    → t.locked ≡ false
    → id < length t.slots
    → entry t.slots id ≡ some p
    → with_pipe id f t ≡ (reached (f p).0, record t { slots = set t.slots id (some (f p).1) })
unfolding with_pipe
with_pipe-reached id f p t free lt there =
    let inside : ltb id (length t.slots) ≡ true = ground (arith, lt) in simp (free, inside, there)

write-locked :
    (later : List (Pipes → Pipes)) (others : Pipes → Pipes) (id tid : ℕ) (bytes : List ℕ)
    (t : Pipes)
    → t.locked ≡ true
    → write later others id tid bytes t ≡ (spinning, t)
unfolding write write_round with_pipe resume
write-locked [] others id tid bytes t taken = rw taken refl
write-locked (after ∷ later) others id tid bytes t taken = rw taken refl

-- A read of an open pipe with no bytes, on an unlocked table and with no other thread in between,
-- sleeps with the table locked: from then on every write and every close of the other end, on any
-- pipe, spins without end.
pub write-read_asleep :
    (id tid room : ℕ) (p : PipeInner) (t : Pipes)
    → t.locked ≡ false
    → id < length t.slots
    → entry t.slots id ≡ some p
    → p.len ≡ 0
    → 0 < p.write_refs
    → (t' : Pipes) × (read [] (λ s. s) id tid room t ≡ (asleep, t'))
      × ((later : List (Pipes → Pipes)) (others : Pipes → Pipes) (other tid' : ℕ) (bytes : List ℕ)
          → write later others other tid' bytes t' ≡ (spinning, t'))
      × ((other : ℕ) → close_write other t' ≡ (locked_out, t'))
unfolding read read_round read_status read_wait close_write
write-read_asleep id tid room p t free lt there empty opened =
    let status : read_status p room ≡ (err would_block, p, []) = ground (arith, empty, opened) in
    let sleeps : (read_wait p tid).0 ≡ true = ground (arith, empty, opened) in
    let once : Pipes = record t { slots = set t.slots id (some p) } in
    let first : with_pipe id (λ q. let (r, q', woken) = read_status q room in (r, q')) t
        ≡ (reached (err would_block), once) =
      with_pipe-reached id _ p t free lt there
      ∙ ap
          (λ (r : Result (List ℕ) × PipeInner × List ℕ).
            (reached r.0, record t { slots = set t.slots id (some r.1) }))
          status in
    let second =
      with_pipe-reached id (λ q. read_wait q tid) p once free
        (omega (arith, lt, length-set t.slots id (some p)))
        (entry-set_self t.slots id (some p) lt) in
    let t' : Pipes = record t {
      slots = set once.slots id (some (read_wait p tid).1);
      locked = true;
    } in
    (
      t',
      rw (first, second, sleeps) refl,
      (λ later others other tid' bytes. write-locked later others other tid' bytes t' refl),
      (λ other. with_pipe-locked other _ t' refl),
    )
