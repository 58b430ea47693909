-- ===== src/Syscall/Uaccess/Tests.antt =====
-- The theorems on user pointers at a concrete memory.
use theory_os.Base.{
  ℕ, ◌+◌, ◌≤◌, ◌<◌, ◌≡◌, ◌≢◌, ◌↔◌, refl, arith, true, List, [], ◌∷◌, length, get_or, min, ◌==◌,
  if◌then◌else◌,
}
use theory_os.Syscall.Uaccess.{Memory, ok, access_ok, is_user_address, str_from_user}
use theory_os.Syscall.Uaccess.Laws.{access_ok_lem, str_from_user_lem}

-- The last page of user memory and the byte behind it.
access_ok_lem_example :
    (access_ok 0x7fff_ffff_f000 0x1001 ≡ true)
    ↔ ((i : ℕ) → i < 0x1001 → is_user_address (0x7fff_ffff_f000 + i) ≡ true)
access_ok_lem_example = access_ok_lem 0x7fff_ffff_f000 0x1001 (omega arith)

-- "/x" at 0x20000, in front of zeros.
abbrev memory : Memory
memory = λ a. if a == 0x20000 then 0x2f else if a == 0x20001 then 0x78 else 0

abbrev buffer : List ℕ
buffer = 9 ∷ 9 ∷ 9 ∷ 9 ∷ []

run : str_from_user memory buffer 0x20000 8 ≡ (ok 2, 0x2f ∷ 0x78 ∷ 0 ∷ 9 ∷ [])
unfolding str_from_user
run = refl

str_from_user_lem_example :
    (((str_from_user memory buffer 0x20000 8).0 ≡ ok 2) ↔ (
      (2 < min 8 (length buffer))
      × ((j : ℕ) → j ≤ 2 → is_user_address (0x20000 + j) ≡ true)
      × ((j : ℕ) → j < 2 → memory (0x20000 + j) ≢ 0)
      × (memory (0x20000 + 2) ≡ 0)))
    × ((str_from_user memory buffer 0x20000 8).0 ≡ ok 2
        → (j : ℕ) → j ≤ 2
        → get_or (str_from_user memory buffer 0x20000 8).1 j 0 ≡ memory (0x20000 + j))
str_from_user_lem_example = str_from_user_lem memory buffer 0x20000 8 2
