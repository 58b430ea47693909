-- ===== src/Base/Bytes.antt =====
-- Bytes, the big-endian and little-endian words that the wire and file formats use, and slices.
use theory_os.Base.Tests.{if◌then◌else◌}
use theory_os.Base.Lists.{length, take, drop}
use Prim.Native.Nat.{ℕ, zero, suc, ◌+◌, ◌-◌, ◌*◌, ◌/◌, ◌%◌, ◌^◌, ◌≤◌, ◌<◌}
use mathlib.Core.Path.{◌≡◌, refl, ap}
use mathlib.Core.Bool.{Bool, true, false}
use mathlib.Core.List.{List, [], ◌∷◌, ◌++◌}
use mathlib.Core.Option.{Option, none, some}
use native.Mathlib.Nat.{pow-suc}
use native.Mathlib.Omega.{arith}

abbrev pub IsByte : ℕ → Type 0
IsByte b = b < 256

abbrev pub u16_from_be_bytes : ℕ → ℕ → ℕ
u16_from_be_bytes a b = a * 256 + b

abbrev pub u32_from_be_bytes : ℕ → ℕ → ℕ → ℕ → ℕ
u32_from_be_bytes a b c d = ((a * 256 + b) * 256 + c) * 256 + d

-- `v as u16` in two bytes.
abbrev pub u16_to_be_bytes : ℕ → List ℕ
u16_to_be_bytes v = v / 256 % 256 ∷ v % 256 ∷ []

-- The number whose digits to the base 256, the least first, are the bytes.
abbrev pub from_le_bytes : List ℕ → ℕ
from_le_bytes [] = 0
from_le_bytes (b ∷ bs) = b + 256 * from_le_bytes bs

-- The `n` lowest digits of `v` to the base 256.
abbrev pub to_le_bytes : ℕ → ℕ → List ℕ
to_le_bytes zero v = []
to_le_bytes (suc n) v = v % 256 ∷ to_le_bytes n (v / 256)

-- `&bytes[start..end]`, where the range lies inside.
abbrev pub slice : List ℕ → ℕ → ℕ → List ℕ
slice bytes start end = take (end - start) (drop start bytes)

-- `n <= xs.len()`, counted along the list.
abbrev pub reaches {ℓ} : {A : Type ℓ} → ℕ → List A → Bool
reaches zero xs = true
reaches (suc n) [] = false
reaches (suc n) (x ∷ xs) = reaches n xs

-- `buf[start..start + bytes.len()].copy_from_slice(bytes)`, which panics out of range.
abbrev pub copy_into : List ℕ → ℕ → List ℕ → Option (List ℕ)
copy_into buf start bytes =
    if reaches (start + length bytes) buf
    then some (take start buf ++ (bytes ++ drop (start + length bytes) buf))
    else none

module _ {ℓ} {A : Type ℓ} where
  pub reaches_of_le : (n : ℕ) (xs : List A) → n ≤ length xs → reaches n xs ≡ true
  reaches_of_le zero xs h = refl
  reaches_of_le (suc n) [] h = absurd (omega arith)
  reaches_of_le (suc n) (x ∷ xs) h = reaches_of_le n xs (omega arith)

  pub reaches_of_lt : (n : ℕ) (xs : List A) → length xs < n → reaches n xs ≡ false
  reaches_of_lt zero xs h = absurd (omega arith)
  reaches_of_lt (suc n) [] h = refl
  reaches_of_lt (suc n) (x ∷ xs) h = reaches_of_lt n xs (omega arith)

  drop-nil : (n : ℕ) → drop {A = A} n [] ≡ []
  drop-nil zero = refl
  drop-nil (suc n) = refl

  pub drop_add : (m n : ℕ) (xs : List A) → drop (m + n) xs ≡ drop n (drop m xs)
  drop_add zero n xs = let e : zero + n ≡ n = omega arith in rw e refl
  drop_add (suc m) n [] = rw (drop-nil (suc m + n), drop-nil n) refl
  drop_add (suc m) n (x ∷ xs) =
      let e : suc m + n ≡ suc (m + n) = omega arith in rw e (drop_add m n xs)

  pub take-append : (xs ys : List A) → take (length xs) (xs ++ ys) ≡ xs
  take-append [] ys = refl
  take-append (x ∷ xs) ys = ap (λ l. x ∷ l) (take-append xs ys)

  pub drop-append : (xs ys : List A) → drop (length xs) (xs ++ ys) ≡ ys
  drop-append [] ys = refl
  drop-append (x ∷ xs) ys = drop-append xs ys

  pub take_front : (n : ℕ) (xs ys : List A) → length xs ≡ n → take n (xs ++ ys) ≡ xs
  take_front zero [] ys e = refl
  take_front zero (x ∷ xs) ys e = absurd (omega arith)
  take_front (suc n) [] ys e = absurd (omega arith)
  take_front (suc n) (x ∷ xs) ys e = ap (λ l. x ∷ l) (take_front n xs ys (omega arith))

  pub drop_all : (n : ℕ) (xs : List A) → length xs ≤ n → drop n xs ≡ []
  drop_all zero [] h = refl
  drop_all zero (x ∷ xs) h = absurd (omega arith)
  drop_all (suc n) [] h = refl
  drop_all (suc n) (x ∷ xs) h = drop_all n xs (omega arith)

  pub take_all : (n : ℕ) (xs : List A) → length xs ≤ n → take n xs ≡ xs
  take_all zero [] h = refl
  take_all zero (x ∷ xs) h = absurd (omega arith)
  take_all (suc n) [] h = refl
  take_all (suc n) (x ∷ xs) h = ap (λ l. x ∷ l) (take_all n xs (omega arith))

pub copy_into_lem :
    (buf : List ℕ) (start : ℕ) (bytes : List ℕ)
    → start + length bytes ≤ length buf
    → copy_into buf start bytes
      ≡ some (take start buf ++ (bytes ++ drop (start + length bytes) buf))
copy_into_lem buf start bytes h = rw (reaches_of_le (start + length bytes) buf h) refl

pub copy_into-none :
    (buf : List ℕ) (start : ℕ) (bytes : List ℕ)
    → length buf < start + length bytes
    → copy_into buf start bytes ≡ none
copy_into-none buf start bytes h = rw (reaches_of_lt (start + length bytes) buf h) refl

pub from_le_bytes-to_le_bytes : (n v : ℕ) → v < 256 ^ n → from_le_bytes (to_le_bytes n v) ≡ v
from_le_bytes-to_le_bytes zero v h = omega arith
from_le_bytes-to_le_bytes (suc n) v h =
    omega (arith, from_le_bytes-to_le_bytes n (v / 256) (omega (arith, pow-suc 256 n)))

module _ {ℓ} where
  -- What holds of every list with `n` first elements, named one by one.
  abbrev pub Cells : ℕ → (List ℕ → Type ℓ) → Type ℓ
  Cells zero P = (rest : List ℕ) → P rest
  Cells (suc n) P = (b : ℕ) → Cells n (λ l. P (b ∷ l))

  pub on_cells :
      (n : ℕ) (P : List ℕ → Type ℓ) → Cells n P → (bytes : List ℕ) → n ≤ length bytes → P bytes
  on_cells zero P f bytes h = f bytes
  on_cells (suc n) P f [] h = absurd (omega arith)
  on_cells (suc n) P f (b ∷ bytes) h = on_cells n (λ l. P (b ∷ l)) (f b) bytes (omega arith)
