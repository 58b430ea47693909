-- ===== src/Net/Checksum/Laws.antt =====
-- The checksum as a number: the complement of the sum of the words in ones' complement.
use theory_os.Base.{
  ℕ, zero, suc, ◌+◌, ◌-◌, ◌*◌, ◌/◌, ◌%◌, ◌^◌, ◌≤◌, ◌<◌, ◌≡◌, refl, List, [], ◌∷◌, ◌++◌, arith, ◌==◌,
  if◌then◌else◌, length, length-append, All, Bool-cases, inl, inr, sym, ◌∙◌, ap,
}
use theory_os.Base.Bytes.{IsByte, u16_to_be_bytes}
use theory_os.Net.Checksum.{sum_words, fold_carries, checksum}

-- The sum of the words.
abbrev pub total : List ℕ → ℕ
total [] = 0
total (a ∷ []) = a * 256
total (a ∷ b ∷ rest) = a * 256 + b + total rest

pub total-lt : (bytes : List ℕ) → All IsByte bytes → total bytes ≤ length bytes * 65535
total-lt [] h = omega arith
total-lt (a ∷ []) (ha, h) = omega arith
total-lt (a ∷ b ∷ rest) (ha, (hb, h)) = omega (arith, total-lt rest h)

-- Below 2^16 bytes the sum does not reach 2^32.
pub sum_words-total :
    (bytes : List ℕ) (sum : ℕ)
    → sum + total bytes < 2 ^ 32
    → sum_words bytes sum ≡ sum + total bytes
unfolding sum_words
sum_words-total [] sum h = omega arith
sum_words-total (a ∷ []) sum h = omega arith
sum_words-total (a ∷ b ∷ rest) sum h =
    let e : (sum + (a * 256 + b)) % 2 ^ 32 ≡ sum + (a * 256 + b) = omega arith in
    rw e (rw (sum_words-total rest (sum + (a * 256 + b)) (omega arith)) (omega arith))

-- The representative from 1 to 65535 of a number that is not 0.
abbrev pub residue : ℕ → ℕ
residue n = if n == 0 then 0 else (n - 1) % 65535 + 1

residue-carry : (n : ℕ) → residue (n % 2 ^ 16 + n / 2 ^ 16) ≡ residue n
residue-carry n = ground arith

residue_small : (n : ℕ) → n < 2 ^ 16 → residue n ≡ n
residue_small n h = ground arith

fold_carries_small : (fuel n : ℕ) → n < 2 ^ 16 → fold_carries fuel n ≡ n
unfolding fold_carries
fold_carries_small zero n h = refl
fold_carries_small (suc fuel) n h = ground arith

fold_carries_round :
    (fuel n : ℕ)
    → fold_carries fuel (n % 2 ^ 16 + n / 2 ^ 16) ≡ residue (n % 2 ^ 16 + n / 2 ^ 16)
    → fold_carries (suc fuel) n ≡ residue n
unfolding fold_carries
fold_carries_round fuel n h = elim (Bool-cases (n / 2 ^ 16 == 0)) [
  | inl small ↦ rw small (sym (residue_small n (ground arith)))
  | inr large ↦ rw large (h ∙ residue-carry n)
]

-- The loop that adds the carries ends on every u32 within two rounds.
pub fold_carries_lem :
    (fuel sum : ℕ) → sum < 2 ^ 32 → fold_carries (suc (suc fuel)) sum ≡ residue sum
fold_carries_lem fuel sum h = fold_carries_round (suc fuel) sum (
    fold_carries_round fuel once
      (fold_carries_small fuel twice (omega arith) ∙ sym (residue_small twice (omega arith))))
  where
    once : ℕ
    once = sum % 2 ^ 16 + sum / 2 ^ 16

    twice : ℕ
    twice = once % 2 ^ 16 + once / 2 ^ 16

-- The checksum of bytes shorter than 2^17 is the complement of the sum of their words, where the
-- sum counts modulo 65535, with 65535 in place of 0 unless every byte is 0.
pub checksum_lem :
    (bytes : List ℕ)
    → All IsByte bytes
    → length bytes ≤ 2 ^ 16
    → checksum bytes ≡ 65535 - residue (total bytes)
unfolding checksum
checksum_lem bytes are short =
    let e : sum_words bytes 0 ≡ total bytes =
      omega (arith, sum_words-total bytes 0 (omega (arith, total-lt bytes are))) in
    rw (e, fold_carries_lem 0 (total bytes) (omega (arith, total-lt bytes are))) (ground arith)

pub checksum-lt : (bytes : List ℕ) → checksum bytes < 2 ^ 16
unfolding checksum
checksum-lt bytes = omega arith

total-append : (k : ℕ) (xs ys : List ℕ) → length xs ≡ 2 * k → total (xs ++ ys) ≡ total xs + total ys
total-append zero [] ys e = omega arith
total-append zero (a ∷ xs) ys e = absurd (omega arith)
total-append (suc k) [] ys e = absurd (omega arith)
total-append (suc k) (a ∷ []) ys e = absurd (omega arith)
total-append (suc k) (a ∷ b ∷ xs) ys e = omega (arith, total-append k xs ys (omega arith))

pub All-append : (xs ys : List ℕ) → All IsByte xs → All IsByte ys → All IsByte (xs ++ ys)
All-append [] ys h k = k
All-append (x ∷ xs) ys (hx, h) k = (hx, All-append xs ys h k)

residue-complement : (n : ℕ) → residue (n + (65535 - residue n)) ≡ 65535
residue-complement n = ground arith

-- Bytes with their checksum stored at an even place, which held 0 when it was computed, have the
-- checksum 0: what a receiver tests.
pub checksum-checksum :
    (k : ℕ) (front back : List ℕ)
    → length front ≡ 2 * k
    → All IsByte front
    → All IsByte back
    → length front + length back ≤ 65000
    → checksum (front ++ (u16_to_be_bytes (checksum (front ++ 0 ∷ 0 ∷ back)) ++ back)) ≡ 0
checksum-checksum k front back even fs bs short =
    rw (checksum_lem whole whole_are whole_short, sum, residue-complement t) (omega arith)
  where
    zeroed : List ℕ
    zeroed = front ++ 0 ∷ 0 ∷ back

    c : ℕ
    c = checksum zeroed

    whole : List ℕ
    whole = front ++ (u16_to_be_bytes c ++ back)

    t : ℕ
    t = total front + total back

    zeroed_are : All IsByte zeroed
    zeroed_are = All-append front (0 ∷ 0 ∷ back) fs (omega arith, (omega arith, bs))

    zeroed_short : length zeroed ≤ 2 ^ 16
    zeroed_short = omega (arith, length-append front (0 ∷ 0 ∷ back))

    whole_are : All IsByte whole
    whole_are = All-append front (u16_to_be_bytes c ++ back) fs (omega arith, (omega arith, bs))

    whole_short : length whole ≤ 2 ^ 16
    whole_short = omega (arith, length-append front (u16_to_be_bytes c ++ back))

    c_lem : c ≡ 65535 - residue t
    c_lem =
        checksum_lem zeroed zeroed_are zeroed_short
        ∙ ap (λ n. 65535 - residue n) (omega (arith, total-append k front (0 ∷ 0 ∷ back) even))

    sum : total whole ≡ t + (65535 - residue t)
    sum = rw (total-append k front (u16_to_be_bytes c ++ back) even) (omega (arith, c_lem))
