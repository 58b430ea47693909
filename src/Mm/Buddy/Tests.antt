-- ===== src/Mm/Buddy/Tests.antt =====
-- Runs of kernel/src/mm/phys/buddy.rs.
use theory_os.Base.{ℕ, Option, none, some, [], ◌∷◌, replicate, set, ◌≡◌, refl}
use theory_os.Mm.Bitmap.{FrameBitmap}
use theory_os.Mm.Buddy.{BuddyAllocator, add_region, alloc, free, new}

abbrev small : FrameBitmap
small = record { bits = 0 ∷ []; frame_count = 64 }

-- Frames 4 to 7 become one block of order 2, which a request for order 0 splits.
abbrev frame_of : Option (Option ℕ × FrameBitmap × BuddyAllocator) → Option ℕ
frame_of none = none
frame_of (some (found, bitmap, a)) = found

abbrev after_region : Option ℕ
after_region = elim (add_region (new 8) small 4 4 0) [
  | none ↦ none
  | some (bitmap, a) ↦ frame_of (alloc bitmap a 0 0)
]

splits : after_region ≡ some 4
unfolding add_region alloc new
splits = refl

-- The merge of two blocks of order 10 has order 11, for which there is no list.
abbrev last_pair : BuddyAllocator
last_pair = record {
  free_lists = set (replicate 8 (replicate 11 none)) 0 (set (replicate 11 none) 10 (some 0));
  blocks = some (record { frame = 1024; order = 10; next = none }) ∷ none ∷ [];
  next_block = 1;
}

merge_beyond : free (record { bits = replicate 32 0; frame_count = 2048 }) last_pair 0 10 0 ≡ none
unfolding free
merge_beyond = refl

-- The block of order 2 at frame 4, all of whose frames are taken, in halves.
abbrev full : FrameBitmap
full = record { bits = 0xffff_ffff_ffff_ffff ∷ []; frame_count = 64 }
