-- ===== src/Sched/Cfs.antt =====
-- kernel/src/sched/cfs.rs: weights and virtual run time. Times are 64-bit and saturate.
pub mod Fairness
pub mod Tests
use theory_os.Base.{
  ℕ, zero, suc, ◌+◌, ◌-◌, ◌*◌, ◌/◌, ◌^◌, ◌≤◌, ◌<◌, min, max, Bool, true, false, List, [], ◌∷◌, leb,
  ◌==◌, if◌then◌else◌, get_or, ◌≡◌, refl, arith,
}

abbrev pub nice_0_load : ℕ
nice_0_load = 1024

-- `u64::MAX`.
abbrev pub max_u64 : ℕ
max_u64 = 2 ^ 64 - 1

abbrev pub saturating_add : ℕ → ℕ → ℕ
saturating_add a b = min (a + b) max_u64

abbrev pub saturating_mul : ℕ → ℕ → ℕ
saturating_mul a b = min (a * b) max_u64

abbrev pub nice_weight : List ℕ
nice_weight =
    88761 ∷ 71755 ∷ 56483 ∷ 46273 ∷ 36291 ∷ 29154 ∷ 23254 ∷ 18705 ∷ 14949 ∷ 11916 ∷ 9548 ∷ 7620
    ∷ 6100 ∷ 4904 ∷ 3906 ∷ 3121 ∷ 2501 ∷ 1991 ∷ 1586 ∷ 1277 ∷ 1024 ∷ 820 ∷ 655 ∷ 526 ∷ 423 ∷ 335
    ∷ 272 ∷ 215 ∷ 172 ∷ 137 ∷ 110 ∷ 87 ∷ 70 ∷ 56 ∷ 45 ∷ 36 ∷ 29 ∷ 23 ∷ 18 ∷ 15 ∷ []

-- A nice value, an `i8`.
pub data Nice : Type 0 where
  up : ℕ → Nice
  down : ℕ → Nice

-- `(nice + 20).clamp(0, 39)`, for `up n` that stands for `n` and `down n` that stands for `-n`.
abbrev pub nice_index : Nice → ℕ
nice_index (up n) = min (n + 20) 39
nice_index (down n) = 20 - n

unfoldable pub weight_for_nice : Nice → ℕ
weight_for_nice nice = get_or nice_weight (nice_index nice) 0

unfoldable pub calc_delta_fair : ℕ → ℕ → ℕ
calc_delta_fair delta weight =
    if weight == nice_0_load then delta else saturating_mul delta nice_0_load / max weight 1

unfoldable pub update_vruntime : ℕ → ℕ → ℕ → ℕ
unfolding calc_delta_fair
update_vruntime vruntime delta_exec weight =
    saturating_add vruntime (calc_delta_fair delta_exec weight)

unfoldable pub place_entity : ℕ → ℕ → ℕ
place_entity min_vruntime vruntime = if leb min_vruntime vruntime then vruntime else min_vruntime
