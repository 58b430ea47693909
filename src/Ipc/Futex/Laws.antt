-- ===== src/Ipc/Futex/Laws.antt =====
-- What a sleeping thread keeps from the others.
use theory_os.Base.{
  ℕ, ◌<◌, ◌≡◌, ◌≢◌, refl, sym, ap, ◌∙◌, arith, true, false, Option, some, List, [], ◌∷◌, ◌==◌,
  length, set, Option-cases, inl, inr,
}
use theory_os.Base.Slots.{
  entry, position, holds, is_free, position-some, position-none, entry-set_self,
}
use theory_os.Ipc.Wait.{block_on}
use theory_os.Ipc.Futex.{
  FutexEntry, Futexes, Word, done, spinning, ok, returned, asleep, is_at, new_entry, slot_for,
  find_or_create, queued, block, lock, wait_loop, futex_wait, futex_wake,
}

-- The slot for an address has an entry.
slot_for-some :
    (addr : ℕ) (slots : List (Option FutexEntry))
    → 0 < length slots
    → (e : FutexEntry) × (entry (slot_for addr slots).1 (slot_for addr slots).0 ≡ some e)
unfolding slot_for
slot_for-some addr slots some_slot = elim (Option-cases (position (holds (is_at addr)) slots)) [
  | inr (i, found) ↦ elim (Option-cases (entry slots i)) [
    | inr (e, there) ↦ (e, rw (found, slot_for) there)
    | inl nothing ↦
        let held = (position-some (holds (is_at addr)) slots i found).1 in
        let bad : false ≡ true = ap (holds (is_at addr)) (sym nothing) ∙ held in absurd (cc)
  ]
  | inl absent ↦ elim (Option-cases (position is_free slots)) [
    | inr (i, free) ↦ (
      new_entry addr,
      rw (absent, free, slot_for)
          (entry-set_self slots i (some (new_entry addr)) (position-some is_free slots i free).0),
    )
    | inl full ↦ elim (Option-cases (entry slots 0)) [
      | inr (e, there) ↦ (e, rw (absent, full, slot_for) there)
      | inl nothing ↦
          let bad : true ≡ false =
            ap is_free (sym nothing) ∙ position-none is_free slots 0 full some_slot in
          absurd (cc)
    ]
  ]
]

lock-free : (t : Futexes) → t.locked ≡ false → lock t ≡ done (record t { locked = true })
lock-free t free = rw free refl

lock-taken : (t : Futexes) → t.locked ≡ true → lock t ≡ spinning
lock-taken t taken = rw taken refl

futex_wake-taken :
    (uaddr count : ℕ) (t : Futexes) → t.locked ≡ true → futex_wake uaddr count t ≡ spinning
unfolding futex_wake
futex_wake-taken uaddr count t taken = rw taken refl

futex_wait-taken :
    (tid uaddr expected : ℕ) (words : List (Word × Word)) (first : Word) (t : Futexes)
    → t.locked ≡ true
    → futex_wait tid uaddr expected words (some expected) first t ≡ spinning
unfolding futex_wait find_or_create
futex_wait-taken tid uaddr expected words first t taken =
    let same : (expected == expected) ≡ true = ground arith in rw (same, taken) refl

block-done :
    (tid i : ℕ) (e : FutexEntry) (t : Futexes)
    → t.locked ≡ false
    → entry t.slots i ≡ some e
    → block tid i t
      ≡ done (record {
        slots = set t.slots i (some (record e { waiters = block_on e.waiters tid }));
        locked = true;
      })
unfolding block queued
block-done tid i e t free there = rw free (rw (there, queued) refl)

-- On a table with a slot and with its lock free, a `futex_wait` that finds the word as expected goes
-- to sleep, and keeps the lock: every `futex_wake` by another thread, whatever address and count,
-- and every `futex_wait` that finds its word as expected, spins without end. The sleeping thread
-- gives the lock back when it goes on by other means: it returns if it finds the word changed.
pub futex_wake-futex_wait :
    (tid uaddr expected changed : ℕ) (next : Word) (t : Futexes)
    → 0 < length t.slots
    → t.locked ≡ false
    → changed ≢ expected
    → (t' : Futexes) × (futex_wait tid uaddr expected [] (some expected) (some expected) t
        ≡ done (asleep, t'))
      × ((other count : ℕ) → futex_wake other count t' ≡ spinning)
      × ((tid' other value : ℕ) (words : List (Word × Word)) (first : Word)
          → futex_wait tid' other value words (some value) first t' ≡ spinning)
      × (futex_wait tid uaddr expected ((some changed, next) ∷ []) (some expected) (some expected) t
          ≡ done (returned (ok 0), record t' { locked = false }))
unfolding futex_wait find_or_create wait_loop
futex_wake-futex_wait tid uaddr expected changed next t some_slot free ne =
    let (e, there) = slot_for-some uaddr t.slots some_slot in
    let same : (expected == expected) ≡ true = ground arith in
    let other : (changed == expected) ≡ false = ground (arith, ne) in
    let slots : List (Option FutexEntry) = (slot_for uaddr t.slots).1 in
    let i : ℕ = (slot_for uaddr t.slots).0 in
    let blocks = block-done tid i e (record { slots = slots; locked = false }) refl there in
    let t' : Futexes = record {
      slots = set slots i (some (record e { waiters = block_on e.waiters tid }));
      locked = true;
    } in
    (
      t',
      rw (same, free, blocks) refl,
      (λ u count. futex_wake-taken u count t' refl),
      (λ tid' u value words first. futex_wait-taken tid' u value words first t' refl),
      rw (same, free, blocks, other) refl,
    )
