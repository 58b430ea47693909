-- ===== src/Mm/Bitmap.antt =====
-- kernel/src/mm/phys/bitmap.rs: a bit for each frame, set where the frame is taken. An access beyond
-- the words panics.
pub mod Frames
pub mod Search
pub mod Count
pub mod Tests
use theory_os.Base.{
  ℕ, zero, suc, ◌+◌, ◌-◌, ◌*◌, ◌/◌, ◌%◌, ◌^◌, ◌≤◌, ◌<◌, Bool, true, false, not, ◌&&◌, List, [], ◌∷◌,
  Option, none, some, length, get_elem?, set, map, take, ltb, leb, ◌==◌, if◌then◌else◌, min,
}
use theory_os.Base.Bits.{complement, testbit}
use theory_os.Mm.Checked.{◌>>=◌}
use Prim.Native.Nat.{bit_and, bit_or}

pub record FrameBitmap : Type 0 where
  pub bits : List ℕ
  pub frame_count : ℕ

unfoldable pub new : List ℕ → ℕ → FrameBitmap
new storage frame_count = record { bits = map (λ _. 0) storage; frame_count = frame_count }

unfoldable pub mark_all_used : FrameBitmap → FrameBitmap
mark_all_used b = record b { bits = map (λ _. 2 ^ 64 - 1) b.bits }

unfoldable pub test : FrameBitmap → ℕ → Option Bool
test b frame = do word ← get_elem? b.bits (frame / 64); some (word / 2 ^ (frame % 64) % 2 == 1)

-- The private `set`.
unfoldable pub set_bit : FrameBitmap → ℕ → Bool → Option FrameBitmap
set_bit b frame used = do
  word ← get_elem? b.bits (frame / 64)
  let bit = 2 ^ (frame % 64)
  some (record b {
    bits =
        set b.bits (frame / 64)
          (if used then bit_or word bit else bit_and word (complement 64 bit));
  })

unfoldable pub is_free : FrameBitmap → ℕ → Option Bool
unfolding test
is_free b frame =
    if leb b.frame_count frame then some false else do used ← test b frame; some (not used)

abbrev pub is_used : FrameBitmap → ℕ → Option Bool
is_used b frame = test b frame

unfoldable pub set_used : FrameBitmap → ℕ → Option FrameBitmap
unfolding set_bit
set_used b frame = set_bit b frame true

unfoldable pub set_free : FrameBitmap → ℕ → Option FrameBitmap
unfolding set_bit
set_free b frame = set_bit b frame false

unfoldable pub reserve : FrameBitmap → ℕ → ℕ → Option FrameBitmap
unfolding set_used
reserve b start zero = some b
reserve b start (suc count) = do b' ← set_used b start; reserve b' (suc start) count

-- `(!word).trailing_zeros()` of a word of `n` bits.
unfoldable pub trailing_ones : ℕ → ℕ → ℕ
trailing_ones zero word = 0
trailing_ones (suc n) word =
    let rest = suc (trailing_ones n (word / 2)) in if word % 2 == 1 then rest else 0

-- The frame to which a round of `find_free_from` jumps.
unfoldable pub candidate : ℕ → ℕ → ℕ
candidate frame word = frame + trailing_ones 64 word - frame % 64

-- Whether it does.
unfoldable pub jumps : FrameBitmap → ℕ → ℕ → Option Bool
jumps b frame word =
    if (word / 2 ^ (frame % 64) == 0) && ltb (candidate frame word) b.frame_count
    then (do used ← test b (candidate frame word); some (not used))
    else some false

-- What a round of the loop of `find_free_from` returns, if it returns.
unfoldable pub probe : FrameBitmap → ℕ → Option (Option ℕ)
probe b frame = do
  word ← get_elem? b.bits (frame / 64)
  jump ← jumps b frame word
  if jump
      then some (some (candidate frame word))
      else (do used ← test b frame; some (if used then none else some frame))

-- The loop, for the `n` frames from `frame` on.
unfoldable pub find_loop : FrameBitmap → ℕ → ℕ → Option (Option ℕ)
find_loop b frame zero = some none
find_loop b frame (suc n) = do
  found ← probe b frame
  elim found [ none ↦ find_loop b (suc frame) n | some f ↦ some (some f) ]

unfoldable pub find_free_from : FrameBitmap → ℕ → Option (Option ℕ)
find_free_from b start =
    if leb b.frame_count start then some none else find_loop b start (b.frame_count - start)

unfoldable pub find_free : FrameBitmap → Option (Option ℕ)
find_free b = find_free_from b 0

-- `count_zeros` of a word of `n` bits.
unfoldable pub count_zeros : ℕ → ℕ → ℕ
count_zeros zero word = 0
count_zeros (suc n) word = (1 - word % 2) + count_zeros n (word / 2)

-- The loop of `count_free` over the first `full_words`; a slice beyond the words panics.
unfoldable pub zeros_in : List ℕ → ℕ → Option ℕ
unfolding count_zeros
zeros_in bits zero = some 0
zeros_in [] (suc n) = none
zeros_in (word ∷ bits) (suc n) = do rest ← zeros_in bits n; some (count_zeros 64 word + rest)

unfoldable pub count_free : FrameBitmap → Option ℕ
unfolding zeros_in
count_free b = do
  free ← zeros_in b.bits (b.frame_count / 64)
  let tail = b.frame_count % 64
  if tail == 0 then some free else (do
    word ← get_elem? b.bits (b.frame_count / 64)
    some (free + count_zeros 64 (bit_and (2 ^ tail - 1) (complement 64 word))))

unfoldable pub words_for_frames : ℕ → ℕ
words_for_frames frame_count = (frame_count + 63) / 64

unfoldable pub bytes_for_frames : ℕ → ℕ
unfolding words_for_frames
bytes_for_frames frame_count = words_for_frames frame_count * 8

abbrev pub page_size : ℕ
page_size = 4096

unfoldable pub phys_from_frame : ℕ → ℕ
phys_from_frame frame = frame * page_size

unfoldable pub frame_from_phys : ℕ → ℕ
frame_from_phys phys = phys / page_size
