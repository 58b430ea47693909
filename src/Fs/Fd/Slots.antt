-- ===== src/Fs/Fd/Slots.antt =====
-- Which descriptors the calls give, close and copy.
use theory_os.Base.{
  ℕ, ◌≤◌, ◌<◌, ◌≡◌, ◌≢◌, refl, ap, ◌∙◌, none, some, length, get_or, set, arith, length-set,
  Option-cases, inl, inr, ◌⊎◌, get_or-set_self,
}
use theory_os.Base.Slots.{
  entry, position, is_free, position-some, position-none, position-first, entry-set_self,
  entry-set_ne, entry_beyond,
}
use theory_os.Fs.Fd.{FdEntry, FdTable, ok, err, alloc, get, close, dup2, get_fd_flags}

-- Both arrays have 256 entries.
pub record IsValid (t : FdTable) : Type 0 where
  pub entries : length t.entries ≡ 256
  pub flags : length t.fd_flags ≡ 256

alloc-ok :
    (e : FdEntry) (t : FdTable) {fd : ℕ}
    → (alloc e t).0 ≡ ok fd
    → (position is_free t.entries ≡ some fd)
      × ((alloc e t).1 ≡ record t { entries = set t.entries fd (some e) })
unfolding alloc
alloc-ok e t h = elim (Option-cases (position is_free t.entries)) [
  | inl full ↦ absurd (ground (arith, full, h))
  | inr (i, free) ↦ ground (arith, free, h)
]

-- A descriptor that `alloc` gives is the lowest free one: it was free, all below it are in use,
-- and it now holds the new entry while every other descriptor keeps its own. No flag changes.
pub alloc_lem :
    (e : FdEntry) (t : FdTable) {fd : ℕ}
    → IsValid t
    → (alloc e t).0 ≡ ok fd
    → (fd < 256)
      × (get t fd ≡ none)
      × ((j : ℕ) → j < fd → get t j ≢ none)
      × (get (alloc e t).1 fd ≡ some e)
      × ((j : ℕ) → fd ≢ j → get (alloc e t).1 j ≡ get t j)
      × ((alloc e t).1.fd_flags ≡ t.fd_flags)
      × IsValid (alloc e t).1
unfolding get
alloc_lem e t {fd} v h =
    let (free, after) = alloc-ok e t h in
    let (lt, vacant) = position-some is_free t.entries fd free in
    let lt' : fd < length t.entries = lt in
    (
      omega (arith, lt, v.entries),
      ground (arith, vacant),
      λ j below gone. ground (arith, position-first is_free t.entries fd j free below, gone),
      rw after (entry-set_self t.entries fd (some e) lt'),
      λ j ne. rw after (entry-set_ne t.entries fd j (some e) ne),
      rw after,
      rw after (record { entries = length-set t.entries fd (some e) ∙ v.entries; flags = v.flags }),
    )

-- `alloc` fails, and then changes nothing, only with all 256 descriptors in use.
pub alloc-full :
    (e : FdEntry) (t : FdTable)
    → IsValid t
    → (alloc e t).0 ≡ err
    → ((alloc e t).1 ≡ t) × ((j : ℕ) → j < 256 → get t j ≢ none)
unfolding alloc get
alloc-full e t v h = elim (Option-cases (position is_free t.entries)) [
  | inl full ↦ (
    ground (arith, full),
    λ j lt gone.
        ground (arith, position-none is_free t.entries j full (omega (arith, v.entries)), gone),
  )
  | inr (i, free) ↦ absurd (ground (arith, free, h))
]

-- `close` refuses the three standard descriptors and those that are not open, changing nothing;
-- any other it frees, keeping every other entry and, its own included, every flag.
pub close_lem :
    (fd : ℕ) (t : FdTable)
    → (fd < 3 ⊎ (get t fd ≡ none) → close fd t ≡ (err, t))
      × (3 ≤ fd
          → get t fd ≢ none
          → ((close fd t).0 ≡ ok tt)
            × (get (close fd t).1 fd ≡ none)
            × ((j : ℕ) → fd ≢ j → get (close fd t).1 j ≡ get t j)
            × ((close fd t).1.fd_flags ≡ t.fd_flags))
unfolding close get
close_lem fd t = elim (Option-cases (entry t.entries fd)) [
  | inl gone ↦ (λ refused. ground (arith, gone), λ le opened. absurd (opened gone))
  | inr (e, held) ↦ (
    λ refused. ground (arith, held),
    λ le opened.
        let lt : fd < length t.entries = entry_beyond t.entries fd held in
        let after : close fd t ≡ (ok tt, record t { entries = set t.entries fd none }) =
          ground (arith, held) in
        (
          rw after,
          rw after (entry-set_self t.entries fd none lt),
          λ j ne. rw after (entry-set_ne t.entries fd j none ne),
          rw after,
        ),
  )
]

-- A closed descriptor that is given out again keeps the flags of the file that was closed, FD_CLOEXEC
-- among them.
pub get_fd_flags-alloc-close :
    (e : FdEntry) (fd : ℕ) (t : FdTable)
    → (alloc e (close fd t).1).0 ≡ ok fd
    → get_fd_flags (alloc e (close fd t).1).1 fd ≡ get_fd_flags t fd
unfolding get_fd_flags close
get_fd_flags-alloc-close e fd t h =
    let (free, after) = alloc-ok e (close fd t).1 h in rw after (ground arith)

-- `dup2` onto a descriptor of the table copies the entry and, FD_CLOEXEC included, the flags; it
-- fails and changes nothing if the old one is not open or the new one is out of the table.
pub dup2_lem :
    (oldfd newfd : ℕ) (t : FdTable)
    → IsValid t
    → (get t oldfd ≡ none ⊎ 256 ≤ newfd → dup2 oldfd newfd t ≡ (err, t))
      × ((e : FdEntry)
          → get t oldfd ≡ some e
          → newfd < 256
          → ((dup2 oldfd newfd t).0 ≡ ok newfd)
            × (get (dup2 oldfd newfd t).1 newfd ≡ some e)
            × (get_fd_flags (dup2 oldfd newfd t).1 newfd ≡ get_fd_flags t oldfd)
            × ((j : ℕ) → newfd ≢ j → get (dup2 oldfd newfd t).1 j ≡ get t j))
unfolding dup2 get_fd_flags
dup2_lem oldfd newfd t v = elim (Option-cases (get t oldfd)) [
  | inl gone ↦ (λ refused. ground (arith, gone), λ e held lt. absurd (ground (arith, gone, held)))
  | inr (e, held) ↦ (
    λ refused. ground (arith, held),
    λ e' held' lt.
        let same : e ≡ e' = ground (arith, held, held') in
        let after : dup2 oldfd newfd t ≡ (
          ok newfd,
          record t {
            entries = set t.entries newfd (some e);
            fd_flags = set t.fd_flags newfd (get_or t.fd_flags oldfd 0);
          },
        ) =
          ground (arith, held) in
        rw after (
          refl,
          entry-set_self t.entries newfd (some e) (omega (arith, v.entries)) ∙ ap some same,
          get_or-set_self t.fd_flags newfd (get_or t.fd_flags oldfd 0) 0 (omega (arith, v.flags)),
          λ j ne. entry-set_ne t.entries newfd j (some e) ne,
        ),
  )
]
