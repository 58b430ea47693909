-- ===== src/Base/Bits.antt =====
-- Single bits of a machine word under `|`, `&`, `!` and shifts, at variables: a word's bit `i` is
-- read from the top of the recursion on its binary digits.
use theory_os.Base.Tests.{◌==◌, if◌then◌else◌}
use Prim.Native.Nat.{
  ℕ, zero, suc, ◌+◌, ◌-◌, ◌*◌, ◌/◌, ◌%◌, ◌^◌, ◌≤◌, ◌<◌, min, max, bit_and, bit_or, digits, bitwise,
  bit_and-bitwise, bit_or-bitwise,
}
use mathlib.Core.Path.{◌≡◌, refl, sym, ap, ◌∙◌}
use native.Mathlib.Nat.{pow-suc, pow-succ', le_refl, one-le-pow, div-div-eq-div-mul, div-one}
use native.Mathlib.Omega.{arith}

-- Bit `i` of `a`, as 0 or 1.
unfoldable pub testbit : ℕ → ℕ → ℕ
testbit a zero = a % 2
testbit a (suc i) = testbit (a / 2) i

-- `!a` on a word of `w` bits.
abbrev pub complement : ℕ → ℕ → ℕ
complement w a = 2 ^ w - 1 - a

module _ (left_out : ℕ → ℕ) (op : ℕ → ℕ → ℕ) where
  -- Fuel beyond the first operand changes nothing.
  enough_digits :
      (n m a b : ℕ) → a ≤ n → a ≤ m → digits left_out op n a b ≡ digits left_out op m a b
  enough_digits zero zero a b p q = refl
  enough_digits zero (suc m) zero b p q = refl
  enough_digits (suc n) zero zero b p q = refl
  enough_digits (suc n) (suc m) zero b p q = refl
  enough_digits zero (suc m) (suc a) b p q = absurd (omega arith)
  enough_digits (suc n) zero (suc a) b p q = absurd (omega arith)
  enough_digits (suc n) (suc m) (suc a) b p q =
      rw (enough_digits n m (suc a / 2) (b / 2) (omega arith) (omega arith))

  bitwise-digit :
      (a b : ℕ)
      → bitwise left_out op (suc a) b
        ≡ bitwise left_out op (suc a / 2) (b / 2) * 2 + op (suc a % 2) (b % 2)
  bitwise-digit a b =
      omega (arith, enough_digits a (suc a / 2) (suc a / 2) (b / 2) (omega arith) (le_refl _))

bit_or-digit : (a b : ℕ) → bit_or a b ≡ bit_or (a / 2) (b / 2) * 2 + max (a % 2) (b % 2)
bit_or-digit zero b = simp bit_or-bitwise (omega arith)
bit_or-digit (suc a) b = simp bit_or-bitwise (bitwise-digit (λ y. y) max a b)

bit_and-digit : (a b : ℕ) → bit_and a b ≡ bit_and (a / 2) (b / 2) * 2 + min (a % 2) (b % 2)
bit_and-digit zero b = simp bit_and-bitwise (omega arith)
bit_and-digit (suc a) b = simp bit_and-bitwise (bitwise-digit (λ y. 0) min a b)

pub testbit_le : (a i : ℕ) → testbit a i ≤ 1
unfolding testbit
testbit_le a zero = omega arith
testbit_le a (suc i) = testbit_le (a / 2) i

pub testbit-bit_or : (a b i : ℕ) → testbit (bit_or a b) i ≡ max (testbit a i) (testbit b i)
unfolding testbit
testbit-bit_or a b zero = omega (arith, bit_or-digit a b)
testbit-bit_or a b (suc i) =
    let half : bit_or a b / 2 ≡ bit_or (a / 2) (b / 2) = omega (arith, bit_or-digit a b) in
    rw half (testbit-bit_or (a / 2) (b / 2) i)

pub testbit-bit_and : (a b i : ℕ) → testbit (bit_and a b) i ≡ min (testbit a i) (testbit b i)
unfolding testbit
testbit-bit_and a b zero = omega (arith, bit_and-digit a b)
testbit-bit_and a b (suc i) =
    let half : bit_and a b / 2 ≡ bit_and (a / 2) (b / 2) = omega (arith, bit_and-digit a b) in
    rw half (testbit-bit_and (a / 2) (b / 2) i)

pub testbit-zero : (i : ℕ) → testbit 0 i ≡ 0
unfolding testbit
testbit-zero zero = refl
testbit-zero (suc i) = testbit-zero i

-- A word below `2 ^ k` has no bit from `k` on.
pub testbit_of_lt : (k i a : ℕ) → a < 2 ^ k → k ≤ i → testbit a i ≡ 0
unfolding testbit
testbit_of_lt zero i a h le = let e : a ≡ 0 = omega arith in rw e (testbit-zero i)
testbit_of_lt (suc k) zero a h le = absurd (omega arith)
testbit_of_lt (suc k) (suc i) a h le =
    testbit_of_lt k i (a / 2) (omega (arith, pow-suc 2 k)) (omega arith)

-- `1 << j` has the bit `j` alone.
pub testbit-pow : (j i : ℕ) → testbit (2 ^ j) i ≡ (if i == j then 1 else 0)
unfolding testbit
testbit-pow zero zero = refl
testbit-pow zero (suc i) = ground (arith, testbit-zero i)
testbit-pow (suc j) zero = ground (arith, pow-suc 2 j)
testbit-pow (suc j) (suc i) =
    let half : 2 ^ suc j / 2 ≡ 2 ^ j = omega (arith, pow-suc 2 j) in
    rw half (testbit-pow j i ∙ ground arith)

-- `!a` flips each bit of the word.
pub testbit-complement :
    (w i a : ℕ) → a < 2 ^ w → i < w → testbit (complement w a) i ≡ 1 - testbit a i
unfolding testbit
testbit-complement zero i a h lt = absurd (omega arith)
testbit-complement (suc w) zero a h lt = omega (arith, pow-suc 2 w)
testbit-complement (suc w) (suc i) a h lt =
    let half : complement (suc w) a / 2 ≡ complement w (a / 2) = omega (arith, pow-suc 2 w) in
    rw half (testbit-complement w i (a / 2) (omega (arith, pow-suc 2 w)) (omega arith))

-- `(a >> i) & 1`.
pub shift-testbit : (i a : ℕ) → a / 2 ^ i % 2 ≡ testbit a i
unfolding testbit
shift-testbit zero a = rw (div-one a)
shift-testbit (suc i) a =
    ap (λ n. n % 2) (ap (λ n. a / n) (pow-succ' 2 i) ∙ sym (div-div-eq-div-mul a 2 (2 ^ i)))
    ∙ shift-testbit i (a / 2)

pub pow-lt-pow : (i w : ℕ) → i < w → 2 ^ i < 2 ^ w
pow-lt-pow i zero h = absurd (omega arith)
pow-lt-pow zero (suc w) h = omega (arith, pow-suc 2 w, one-le-pow w 2)
pow-lt-pow (suc i) (suc w) h = omega (arith, pow-suc 2 w, pow-suc 2 i, pow-lt-pow i w (omega arith))

bit_and-zero_below : (n a : ℕ) → a ≤ n → bit_and a 0 ≡ 0
bit_and-zero_below n zero h = refl
bit_and-zero_below zero (suc a) h = absurd (omega arith)
bit_and-zero_below (suc n) (suc a) h =
    omega (arith, bit_and-digit (suc a) 0, bit_and-zero_below n (suc a / 2) (omega arith))

-- `a & (1 << i)`.
pub bit_and-pow : (i a : ℕ) → bit_and a (2 ^ i) ≡ testbit a i * 2 ^ i
unfolding testbit
bit_and-pow zero a =
    omega (arith, bit_and-digit a 1, bit_and-zero_below (a / 2) (a / 2) (le_refl _))
bit_and-pow (suc i) a =
    let half : 2 ^ suc i / 2 ≡ 2 ^ i = omega (arith, pow-suc 2 i) in
    let even : 2 ^ suc i % 2 ≡ 0 = omega (arith, pow-suc 2 i) in
    let below : bit_and (a / 2) (2 ^ suc i / 2) ≡ testbit (a / 2) i * 2 ^ i =
      rw half (bit_and-pow i (a / 2)) in
    omega (
      arith,
      bit_and-digit a (2 ^ suc i),
      even,
      below,
      ap (λ (t : ℕ). testbit (a / 2) i * t) (pow-suc 2 i),
    )

-- `a & (1 << i) != 0` reads bit `i`.
pub bit_and-pow_test : (i a : ℕ) → (bit_and a (2 ^ i) == 0) ≡ (testbit a i == 0)
bit_and-pow_test i a = ground (arith, bit_and-pow i a, one-le-pow i 2, testbit_le a i)
