-- ===== src/Sched/Cfs/Fairness.antt =====
-- What the weights of kernel/src/sched/cfs.rs do to the virtual run time.
use theory_os.Base.{
  ℕ, zero, suc, ◌*◌, ◌/◌, ◌^◌, ◌≤◌, ◌<◌, max, Bool, true, List, [], ◌∷◌, ltb, leb, ◌==◌, ◌&&◌,
  length, Bool-cases, get_or, ◌≡◌, refl, arith, inl, inr, ◌∙◌, ap,
}
use theory_os.Sched.Cfs.{
  Nice, up, down, nice_0_load, nice_index, max_u64, nice_weight, weight_for_nice, calc_delta_fair,
  update_vruntime, saturating_mul,
}
use native.Mathlib.Nat.{div-mul-le_self, le-div_iff_mul-le, mul-le-mul_left}

-- `x / b ≤ x / a` where `a ≤ b`.
div_anti : (x a b : ℕ) → 0 < a → a ≤ b → x / b ≤ x / a
div_anti x a b pos h =
    let below : x / b * a ≤ x / b * b = mul-le-mul_left (x / b) h in
    (le-div_iff_mul-le pos).1 (omega (arith, below, div-mul-le_self x b))

-- Each member is less than the one before, and at least `low`.
abbrev pub falls : ℕ → List ℕ → Bool
falls low [] = true
falls low (x ∷ []) = leb low x
falls low (x ∷ y ∷ ys) = leb low x && ltb y x && falls low (y ∷ ys)

falls_bound :
    (low : ℕ) (xs : List ℕ) (i : ℕ) → falls low xs ≡ true → i < length xs → low ≤ get_or xs i 0
falls_bound low [] i h lt = absurd (omega arith)
falls_bound low (x ∷ []) zero h lt = ground arith
falls_bound low (x ∷ []) (suc i) h lt = absurd (omega arith)
falls_bound low (x ∷ y ∷ ys) zero h lt = ground arith
falls_bound low (x ∷ y ∷ ys) (suc i) h lt = ground (arith, falls_bound low (y ∷ ys) i)

falls_head :
    (low x : ℕ) (xs : List ℕ) (i : ℕ)
    → falls low (x ∷ xs) ≡ true
    → i < length xs
    → get_or xs i 0 < x
falls_head low x [] i h lt = absurd (omega arith)
falls_head low x (y ∷ ys) zero h lt = ground arith
falls_head low x (y ∷ ys) (suc i) h lt = ground (arith, falls_head low y ys i)

falls_pair :
    (low : ℕ) (xs : List ℕ) (i j : ℕ)
    → falls low xs ≡ true
    → i < j
    → j < length xs
    → get_or xs j 0 < get_or xs i 0
falls_pair low [] i j h p q = absurd (omega arith)
falls_pair low (x ∷ xs) i zero h p q = absurd (omega arith)
falls_pair low (x ∷ xs) zero (suc j) h p q = falls_head low x xs j h (omega arith)
falls_pair low (x ∷ []) (suc i) (suc j) h p q = absurd (omega arith)
falls_pair low (x ∷ y ∷ ys) (suc i) (suc j) h p q = ground (arith, falls_pair low (y ∷ ys) i j)

index_lt : (n : Nice) → nice_index n < 40
index_lt (up n) = ground arith
index_lt (down n) = omega arith

-- Of two nice values, of which the first has the lower index (is the more favoured one of those
-- that the clamp tells apart), the first has the greater weight, and both weigh at least 15.
pub weight_for_nice_lem :
    (m n : Nice)
    → nice_index m < nice_index n
    → (weight_for_nice n < weight_for_nice m) × (15 ≤ weight_for_nice n)
unfolding weight_for_nice
weight_for_nice_lem m n h = (
  falls_pair 15 nice_weight (nice_index m) (nice_index n) refl h (index_lt n),
  falls_bound 15 nice_weight (nice_index n) refl (index_lt n),
)

-- The charge, where the product does not saturate.
calc_delta_fair_exact :
    (delta weight : ℕ)
    → delta < 2 ^ 54
    → 0 < weight
    → calc_delta_fair delta weight ≡ delta * 1024 / weight
unfolding calc_delta_fair
calc_delta_fair_exact delta weight h pos =
    let fits : saturating_mul delta nice_0_load ≡ delta * 1024 = omega arith in
    let divisor : max weight 1 ≡ weight = omega arith in
    elim (Bool-cases (weight == nice_0_load)) [
      | inl same ↦
          let e : weight ≡ 1024 = ground arith in
          let exact : delta ≡ delta * 1024 / 1024 = omega arith in rw same (exact ∙ rw e refl)
      | inr other ↦ rw other (rw divisor (ap (λ (n : ℕ). n / weight) fits))
    ]

-- For times below `2 ^ 54` ns, of two threads with the same virtual run time, the one with the
-- greater weight (at least 1) does not come out behind; the clock never runs back and stays in 64
-- bits.
pub update_vruntime_lem :
    (v delta w1 w2 : ℕ)
    → v ≤ max_u64
    → delta < 2 ^ 54
    → 0 < w1
    → w1 ≤ w2
    → (v ≤ update_vruntime v delta w2)
      × (update_vruntime v delta w2 ≤ update_vruntime v delta w1)
      × (update_vruntime v delta w1 ≤ max_u64)
unfolding update_vruntime
update_vruntime_lem v delta w1 w2 hv h pos le =
    let e1 = calc_delta_fair_exact delta w1 h pos in
    let e2 = calc_delta_fair_exact delta w2 h (omega arith) in
    let anti = div_anti (delta * 1024) w1 w2 pos le in
    rw e1 (rw e2 (omega (arith, anti), omega (arith, anti), omega arith))
