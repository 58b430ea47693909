-- ===== src/Ipc/Futex/Tests.antt =====
-- Futexes at a concrete table.
use theory_os.Base.{ℕ, ◌≡◌, refl, arith, false, List, [], ◌∷◌, none, some}
use theory_os.Ipc.Futex.{
  Futexes, Word, done, spinning, ok, returned, asleep, new_entry, futex_wait, futex_wake,
}
use theory_os.Ipc.Futex.Laws.{futex_wake-futex_wait}

-- An entry for one address, and a free slot.
abbrev table : Futexes
table = record { slots = some (new_entry 0x20000) ∷ none ∷ []; locked = false }

futex_wake-futex_wait_example :
    (t' : Futexes) × (futex_wait 7 0x30000 5 [] (some 5) (some 5) table ≡ done (asleep, t'))
    × ((other count : ℕ) → futex_wake other count t' ≡ spinning)
    × ((tid' other value : ℕ) (words : List (Word × Word)) (first : Word)
        → futex_wait tid' other value words (some value) first t' ≡ spinning)
    × (futex_wait 7 0x30000 5 ((some 6, none) ∷ []) (some 5) (some 5) table
        ≡ done (returned (ok 0), record t' { locked = false }))
futex_wake-futex_wait_example =
    futex_wake-futex_wait 7 0x30000 5 6 none table (omega arith) refl (omega arith)
