-- ===== src/Mm/Bitmap/Tests.antt =====
-- Runs of kernel/src/mm/phys/bitmap.rs.
use theory_os.Base.{ℕ, ◌<◌, true, false, none, some, [], ◌∷◌, ◌≡◌, ◌⊎◌, refl, arith}
use theory_os.Mm.Bitmap.{
  FrameBitmap, find_free, find_free_from, count_free, trailing_ones, candidate, jumps, probe, test,
  find_loop,
}
use theory_os.Mm.Bitmap.Frames.{taken}
use theory_os.Mm.Bitmap.Search.{find_free_lem}

-- 100 frames; 0, 1 and 3 are taken.
abbrev hundred : FrameBitmap
hundred = record { bits = 11 ∷ 0 ∷ []; frame_count = 100 }

find_free_lem_example :
    ((find_free hundred ≡ some none) × ((g : ℕ) → g < 100 → taken hundred g ≡ true))
    ⊎ ((h : ℕ) × (find_free hundred ≡ some (some h))
        × (h < 100)
        × (taken hundred h ≡ false)
        × ((g : ℕ) → g < h → taken hundred g ≡ true))
find_free_lem_example = find_free_lem hundred (omega arith)

first : find_free hundred ≡ some (some 2)
unfolding find_free find_free_from find_loop probe jumps candidate trailing_ones test
first = refl

-- The rest of the word from frame 10 on is zero, and the search goes back to its lowest zero.
before_start : find_free_from hundred 10 ≡ some (some 2)
unfolding find_free_from find_loop probe jumps candidate trailing_ones test
before_start = refl

-- Of 100 frames with 97 free, the tail word gives 28 for its 36.
tail_count : count_free hundred ≡ some 89
unfolding count_free
tail_count = refl

-- Two whole words with four frames taken.
abbrev whole : FrameBitmap
whole = record { bits = 11 ∷ 1 ∷ []; frame_count = 128 }

whole_count : count_free whole ≡ some 124
unfolding count_free
whole_count = refl
