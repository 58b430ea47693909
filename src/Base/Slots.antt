-- ===== src/Base/Slots.antt =====
-- A table of optional entries: the `[Option<T>; N]` arrays that the kernel keeps its objects in,
-- and the scans over them for a free slot and for the first entry that passes a test.
use theory_os.Base.Tests.{if◌then◌else◌}
use theory_os.Base.Lists.{length, set, replicate}
use Prim.Native.Nat.{ℕ, zero, suc, ◌+◌, ◌*◌, ◌≤◌, ◌<◌}
use mathlib.Core.Path.{◌≡◌, refl, ap}
use mathlib.Core.Logic.{◌≢◌, ◌⊎◌, inl, inr}
use mathlib.Core.Bool.{Bool, true, false}
use mathlib.Core.Option.{Option, none, some}
use mathlib.Core.List.{List, [], ◌∷◌}
use native.Mathlib.Nat.{mul-suc}
use native.Mathlib.Omega.{arith}

abbrev pub next_index : Option ℕ → Option ℕ
next_index none = none
next_index (some i) = some (suc i)

module _ {ℓ} {A : Type ℓ} where
  -- The value at a slot, if there is such a slot and it is occupied.
  abbrev pub entry : List (Option A) → ℕ → Option A
  entry [] i = none
  entry (x ∷ xs) zero = x
  entry (x ∷ xs) (suc i) = entry xs i

  abbrev pub is_free : Option A → Bool
  is_free none = true
  is_free (some a) = false

  abbrev pub holds : (A → Bool) → Option A → Bool
  holds test none = false
  holds test (some a) = test a

  -- The index of the first slot that passes.
  unfoldable pub position : (Option A → Bool) → List (Option A) → Option ℕ
  position test [] = none
  position test (x ∷ xs) =
      let rest = next_index (position test xs) in if test x then some 0 else rest

  -- The sum of a measure over the occupied slots.
  abbrev pub weigh : (A → ℕ) → Option A → ℕ
  weigh f none = 0
  weigh f (some a) = f a

  abbrev pub total : (A → ℕ) → List (Option A) → ℕ
  total f [] = 0
  total f (x ∷ xs) = weigh f x + total f xs

module _ {ℓ} {A : Type ℓ} where
  -- What a successful scan has found.
  pub position-some :
      (test : Option A → Bool) (xs : List (Option A)) (i : ℕ)
      → position test xs ≡ some i
      → (i < length xs) × (test (entry xs i) ≡ true)
  unfolding position
  position-some test [] i h = absurd (ground arith)
  position-some test (x ∷ xs) zero h = ground arith
  position-some test (x ∷ xs) (suc i) h = ground (arith, position-some test xs i)

  pub position-first :
      (test : Option A → Bool) (xs : List (Option A)) (i j : ℕ)
      → position test xs ≡ some i
      → j < i
      → test (entry xs j) ≡ false
  unfolding position
  position-first test [] i j h lt = absurd (ground arith)
  position-first test (x ∷ xs) zero j h lt = absurd (omega arith)
  position-first test (x ∷ xs) (suc i) zero h lt = ground arith
  position-first test (x ∷ xs) (suc i) (suc j) h lt = ground (arith, position-first test xs i j)

  pub position-none :
      (test : Option A → Bool) (xs : List (Option A)) (i : ℕ)
      → position test xs ≡ none
      → i < length xs
      → test (entry xs i) ≡ false
  unfolding position
  position-none test [] i h lt = absurd (omega arith)
  position-none test (x ∷ xs) zero h lt = ground arith
  position-none test (x ∷ xs) (suc i) h lt = ground (arith, position-none test xs i)

  -- A slot that passes, with none before it, is what the scan returns.
  pub position_of_first :
      (test : Option A → Bool) (xs : List (Option A)) (i : ℕ)
      → i < length xs
      → test (entry xs i) ≡ true
      → ((j : ℕ) → j < i → test (entry xs j) ≡ false)
      → position test xs ≡ some i
  unfolding position
  position_of_first test [] i lt h f = absurd (omega arith)
  position_of_first test (x ∷ xs) zero lt h f = ground arith
  position_of_first test (x ∷ xs) (suc i) lt h f =
      let rest = position_of_first test xs i (omega arith) h (λ j p. f (suc j) (omega arith)) in
      ground (arith, rest, f 0 (omega arith))

  pub entry-set_self :
      (xs : List (Option A)) (i : ℕ) (v : Option A) → i < length xs → entry (set xs i v) i ≡ v
  entry-set_self [] i v h = absurd (omega arith)
  entry-set_self (x ∷ xs) zero v h = refl
  entry-set_self (x ∷ xs) (suc i) v h = entry-set_self xs i v (omega arith)

  pub entry-set_ne :
      (xs : List (Option A)) (i j : ℕ) (v : Option A) → i ≢ j → entry (set xs i v) j ≡ entry xs j
  entry-set_ne [] i j v h = refl
  entry-set_ne (x ∷ xs) zero zero v h = absurd (h refl)
  entry-set_ne (x ∷ xs) zero (suc j) v h = refl
  entry-set_ne (x ∷ xs) (suc i) zero v h = refl
  entry-set_ne (x ∷ xs) (suc i) (suc j) v h = entry-set_ne xs i j v (λ e. h (ap suc e))

  pub entry_beyond : (xs : List (Option A)) (i : ℕ) {a : A} → entry xs i ≡ some a → i < length xs
  entry_beyond [] i h = absurd (ground arith)
  entry_beyond (x ∷ xs) zero h = omega arith
  entry_beyond (x ∷ xs) (suc i) h = omega (arith, entry_beyond xs i h)

  -- Overwriting a slot exchanges what it weighs.
  pub total-set :
      (f : A → ℕ) (xs : List (Option A)) (i : ℕ) (v : Option A)
      → i < length xs
      → total f (set xs i v) + weigh f (entry xs i) ≡ total f xs + weigh f v
  total-set f [] i v h = absurd (omega arith)
  total-set f (x ∷ xs) zero v h = omega arith
  total-set f (x ∷ xs) (suc i) v h = omega (arith, total-set f xs i v (omega arith))

  pub total-replicate : (f : A → ℕ) (n : ℕ) → total f (replicate n none) ≡ 0
  total-replicate f zero = refl
  total-replicate f (suc n) = omega (arith, total-replicate f n)

  -- A count cannot exceed the number of slots.
  pub total_le :
      (f : A → ℕ) (k : ℕ) (xs : List (Option A)) → ((a : A) → f a ≤ k) → total f xs ≤ k * length xs
  total_le f k [] h = omega arith
  total_le f k (none ∷ xs) h = omega (arith, total_le f k xs h, mul-suc k (length xs))
  total_le f k (some a ∷ xs) h = omega (arith, h a, total_le f k xs h, mul-suc k (length xs))

  -- What a slot of a changed table holds: the new value, or what it held.
  pub entry-set_cases :
      (xs : List (Option A)) (i j : ℕ) (v : Option A) (a : A)
      → entry (set xs i v) j ≡ some a
      → ((i ≡ j) × (v ≡ some a)) ⊎ ((i ≢ j) × (entry xs j ≡ some a))
  entry-set_cases [] i j v a h = absurd (ground arith)
  entry-set_cases (x ∷ xs) zero zero v a h = inl (refl, h)
  entry-set_cases (x ∷ xs) zero (suc j) v a h = inr (omega arith, h)
  entry-set_cases (x ∷ xs) (suc i) zero v a h = inr (omega arith, h)
  entry-set_cases (x ∷ xs) (suc i) (suc j) v a h = elim (entry-set_cases xs i j v a h) [
    | inl (same, new) ↦ inl (ap suc same, new)
    | inr (other, old) ↦ inr (omega arith, old)
  ]
