-- ===== src/Mm/Bitmap/Search.antt =====
-- `find_free` of kernel/src/mm/phys/bitmap.rs is a first fit.
use theory_os.Base.{
  ℕ, zero, suc, ◌+◌, ◌-◌, ◌/◌, ◌%◌, ◌^◌, ◌≤◌, ◌<◌, Bool, true, false, not, ◌&&◌, Option, none, some,
  length, get_or, ltb, leb, ◌==◌, if◌then◌else◌, Bool-cases, ◌≡◌, ◌⊎◌, inl, inr, refl, sym, ap, ◌∙◌,
  arith,
}
use theory_os.Base.Bits.{testbit, shift-testbit}
use theory_os.Mm.Checked.{◌>>=◌}
use theory_os.Mm.Bitmap.{
  FrameBitmap, trailing_ones, candidate, jumps, probe, find_loop, find_free_from, find_free,
}
use theory_os.Mm.Bitmap.Frames.{IsSized, taken, get_elem_some, test_lem}

trailing_ones_le : (n i w : ℕ) → testbit w i ≡ 0 → trailing_ones n w ≤ i
unfolding trailing_ones testbit
trailing_ones_le zero i w h = omega arith
trailing_ones_le (suc n) zero w h = ground arith
trailing_ones_le (suc n) (suc i) w h = ground (arith, trailing_ones_le n i (w / 2) h)

trailing_ones-testbit : (n w : ℕ) → trailing_ones n w < n → testbit w (trailing_ones n w) ≡ 0
unfolding trailing_ones testbit
trailing_ones-testbit zero w h = absurd (omega arith)
trailing_ones-testbit (suc n) w h = elim (Bool-cases (w % 2 == 1)) [
  | inl odd ↦ rw odd (trailing_ones-testbit n (w / 2) (ground (arith, h)))
  | inr even ↦ rw even (ground arith)
]

-- With every earlier frame taken, a jump from a word that ends in zeros stays where it is.
candidate_lem :
    (b : FrameBitmap) (f : ℕ)
    → ((g : ℕ) → g < f → taken b g ≡ true)
    → get_or b.bits (f / 64) 0 / 2 ^ (f % 64) ≡ 0
    → (taken b f ≡ false) × (candidate f (get_or b.bits (f / 64) 0) ≡ f)
unfolding taken candidate
candidate_lem b f before clear =
    let word = get_or b.bits (f / 64) 0 in
    let bit : testbit word (f % 64) ≡ 0 =
      sym (shift-testbit (f % 64) word) ∙ ap (λ (n : ℕ). n % 2) clear in
    let low : trailing_ones 64 word ≤ f % 64 = trailing_ones_le 64 (f % 64) word bit in
    let zero_bit = trailing_ones-testbit 64 word (omega arith) in
    let c = candidate f word in
    let same_word : c / 64 ≡ f / 64 = omega arith in
    let same_bit : c % 64 ≡ trailing_ones 64 word = omega arith in
    let free : (testbit (get_or b.bits (c / 64) 0) (c % 64) == 1) ≡ false =
      rw same_word (rw same_bit (rw zero_bit refl)) in
    (ground (arith, bit), ground (arith, before c, free))

jumps_lem :
    (b : FrameBitmap) (f : ℕ)
    → IsSized b
    → ((g : ℕ) → g < f → taken b g ≡ true)
    → (j : Bool) × (jumps b f (get_or b.bits (f / 64) 0) ≡ some j)
      × (j ≡ true → (taken b f ≡ false) × (candidate f (get_or b.bits (f / 64) 0) ≡ f))
unfolding jumps
jumps_lem b f sized before =
    let word = get_or b.bits (f / 64) 0 in
    elim (Bool-cases ((word / 2 ^ (f % 64) == 0) && ltb (candidate f word) b.frame_count)) [
      | inl go ↦
          let clear : word / 2 ^ (f % 64) ≡ 0 = ground arith in
          let inside : candidate f word / 64 < length b.bits = ground arith in
          (
            not (taken b (candidate f word)),
            rw go (
                ap (λ (o : Option Bool). ◌>>=◌ {B = Bool} o (λ used. some (not used)))
                  (test_lem b (candidate f word) inside)),
            λ _. candidate_lem b f before clear,
          )
      | inr stay ↦ (false, rw stay refl, λ h. absurd (ground arith))
    ]

probe_lem :
    (b : FrameBitmap) (f : ℕ)
    → IsSized b
    → f < b.frame_count
    → ((g : ℕ) → g < f → taken b g ≡ true)
    → probe b f ≡ some (if taken b f then none else some f)
unfolding probe
probe_lem b f sized lt before =
    let inside : f / 64 < length b.bits = omega arith in
    let (j, jump, meaning) = jumps_lem b f sized before in
    rw (get_elem_some b.bits (f / 64) inside) (
      rw jump (elim (Bool-cases j) [
        | inl moved ↦
            let (free, here) = meaning moved in
            rw moved (rw free (ap (λ (n : ℕ). some (some n)) here))
        | inr kept ↦ rw kept (rw (test_lem b f inside) refl)
      ]))

-- The first of the frames `f`, …, `f + n - 1` that is free, with those before `f` taken.
find_loop_lem :
    (b : FrameBitmap) (n f : ℕ)
    → IsSized b
    → f + n ≡ b.frame_count
    → ((g : ℕ) → g < f → taken b g ≡ true)
    → ((find_loop b f n ≡ some none) × ((g : ℕ) → g < b.frame_count → taken b g ≡ true))
      ⊎ ((h : ℕ) × (find_loop b f n ≡ some (some h))
          × (h < b.frame_count)
          × (taken b h ≡ false)
          × ((g : ℕ) → g < h → taken b g ≡ true))
unfolding find_loop
find_loop_lem b zero f sized e before = inl (refl, λ g lt. before g (omega arith))
find_loop_lem b (suc n) f sized e before =
    let step = probe_lem b f sized (omega arith) before in
    elim (Bool-cases (taken b f)) [
      | inl used ↦
          let onward : probe b f ≡ some none = step ∙ rw used refl in
          let before' : (g : ℕ) → g < suc f → taken b g ≡ true = λ g lt.
            elim (Bool-cases (g == f)) [
              | inl same ↦ let e : g ≡ f = ground arith in rw e used
              | inr other ↦ before g (ground arith)
            ] in
          rw onward (find_loop_lem b n (suc f) sized (omega arith) before')
      | inr unused ↦
          let found : probe b f ≡ some (some f) = step ∙ rw unused refl in
          inr (f, rw found refl, omega arith, unused, before)
    ]

-- On a bitmap whose words reach every frame, `find_free` ends, and either every frame is taken and
-- it says so, or it gives a frame below the count that is free and before which every frame is taken.
pub find_free_lem :
    (b : FrameBitmap)
    → IsSized b
    → ((find_free b ≡ some none) × ((g : ℕ) → g < b.frame_count → taken b g ≡ true))
      ⊎ ((h : ℕ) × (find_free b ≡ some (some h))
          × (h < b.frame_count)
          × (taken b h ≡ false)
          × ((g : ℕ) → g < h → taken b g ≡ true))
unfolding find_free find_free_from
find_free_lem b sized = elim (Bool-cases (leb b.frame_count 0)) [
  | inl empty ↦ inl (rw empty refl, λ g lt. absurd (ground arith))
  | inr some_frames ↦
      let all : b.frame_count - 0 ≡ b.frame_count = omega arith in
      rw some_frames (
        rw all (find_loop_lem b b.frame_count 0 sized (omega arith) (λ g lt. absurd (omega arith))))
]
