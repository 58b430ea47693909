-- ===== src/Mm/Bitmap/Count.antt =====
-- `count_free` of kernel/src/mm/phys/bitmap.rs, on bitmaps without a partial word.
use theory_os.Base.{
  ℕ, zero, suc, ◌+◌, ◌-◌, ◌*◌, ◌/◌, ◌%◌, ◌≤◌, true, List, [], ◌∷◌, some, length, get_or, ◌==◌,
  if◌then◌else◌, ◌≡◌, refl, sym, ap, ◌∙◌, arith,
}
use theory_os.Base.Bits.{testbit, testbit_le}
use theory_os.Mm.Bitmap.{FrameBitmap, count_zeros, zeros_in, count_free}
use theory_os.Mm.Bitmap.Frames.{IsSized, taken}

-- The frames below `n` that are free.
unfoldable pub free_below : FrameBitmap → ℕ → ℕ
free_below b zero = 0
free_below b (suc n) = (if taken b n then 0 else 1) + free_below b n

-- The zero bits below `n`, counted from the top.
unfoldable zeros_below : ℕ → ℕ → ℕ
zeros_below w zero = 0
zeros_below w (suc n) = (1 - testbit w n) + zeros_below w n

zeros_below_step : (n w : ℕ) → zeros_below w (suc n) ≡ (1 - w % 2) + zeros_below (w / 2) n
unfolding zeros_below testbit
zeros_below_step zero w = refl
zeros_below_step (suc n) w = omega (arith, zeros_below_step n w)

count_zeros_lem : (n w : ℕ) → count_zeros n w ≡ zeros_below w n
unfolding count_zeros zeros_below
count_zeros_lem zero w = refl
count_zeros_lem (suc n) w = omega (arith, zeros_below_step n w, count_zeros_lem n (w / 2))

-- The zero bits of the first `k` words.
unfoldable zeros_of : List ℕ → ℕ → ℕ
zeros_of bits zero = 0
zeros_of bits (suc k) = count_zeros 64 (get_or bits k 0) + zeros_of bits k

zeros_of_step :
    (w : ℕ) (bits : List ℕ) (k : ℕ)
    → zeros_of (w ∷ bits) (suc k) ≡ count_zeros 64 w + zeros_of bits k
unfolding zeros_of
zeros_of_step w bits zero = refl
zeros_of_step w bits (suc k) = omega (arith, zeros_of_step w bits k)

zeros_in_lem : (k : ℕ) (bits : List ℕ) → k ≤ length bits → zeros_in bits k ≡ some (zeros_of bits k)
unfolding zeros_in zeros_of
zeros_in_lem zero [] h = refl
zeros_in_lem zero (w ∷ bits) h = refl
zeros_in_lem (suc k) [] h = absurd (omega arith)
zeros_in_lem (suc k) (w ∷ bits) h =
    rw (zeros_in_lem k bits (omega arith)) (ap some (sym (zeros_of_step w bits k)))

free_in_word :
    (b : FrameBitmap) (k j : ℕ)
    → j ≤ 64
    → free_below b (64 * k + j) ≡ free_below b (64 * k) + zeros_below (get_or b.bits k 0) j
unfolding free_below zeros_below taken
free_in_word b k zero h = let e : 64 * k + 0 ≡ 64 * k = omega arith in rw e (omega arith)
free_in_word b k (suc j) h =
    let e : 64 * k + suc j ≡ suc (64 * k + j) = omega arith in
    let word : (64 * k + j) / 64 ≡ k = omega arith in
    let bit : (64 * k + j) % 64 ≡ j = omega arith in
    rw e (
      rw word (
        rw bit
          (ground (arith, free_in_word b k j (omega arith), testbit_le (get_or b.bits k 0) j))))

free_in_words : (b : FrameBitmap) (k : ℕ) → free_below b (64 * k) ≡ zeros_of b.bits k
unfolding zeros_of free_below
free_in_words b zero = refl
free_in_words b (suc k) =
    let e : 64 * suc k ≡ 64 * k + 64 = omega arith in
    rw e (
      omega (
        arith,
        free_in_word b k 64 (omega arith),
        count_zeros_lem 64 (get_or b.bits k 0),
        free_in_words b k,
      ))

-- On a bitmap whose words reach every frame and whose count is a multiple of 64, `count_free` gives
-- the number of free frames.
pub count_free_lem :
    (b : FrameBitmap)
    → IsSized b
    → b.frame_count % 64 ≡ 0
    → count_free b ≡ some (free_below b b.frame_count)
unfolding count_free
count_free_lem b sized whole =
    let words : b.frame_count / 64 ≤ length b.bits = omega arith in
    let exact : 64 * (b.frame_count / 64) ≡ b.frame_count = omega arith in
    let no_tail : (b.frame_count % 64 == 0) ≡ true = ground arith in
    let counted : zeros_of b.bits (b.frame_count / 64) ≡ free_below b b.frame_count =
      sym (free_in_words b (b.frame_count / 64)) ∙ ap (λ (n : ℕ). free_below b n) exact in
    rw (zeros_in_lem (b.frame_count / 64) b.bits words) (rw no_tail (ap some counted))
