-- ===== src/Mm/Frame/Tests.antt =====
-- Runs of kernel/src/mm/phys/frame.rs.
use theory_os.Base.{
  ℕ, ◌≤◌, true, false, Option, none, some, [], ◌∷◌, replicate, set, ◌≡◌, refl, arith,
}
use theory_os.Mm.Checked.{◌>>=◌}
use theory_os.Mm.Bitmap.{is_free, find_free_from, find_loop, probe, jumps, test}
use theory_os.Mm.Bitmap.Frames.{taken}
use theory_os.Base.Bits.{testbit}
use theory_os.Mm.Buddy as Buddy
use theory_os.Mm.Buddy.{BuddyAllocator}
use theory_os.Mm.Frame.{FrameAllocator, FrameDescriptor, alloc_one, alloc_order, free}
use theory_os.Mm.Frame.Laws.{alloc_one-free}

-- 100 frames; 0, 1 and 3 are taken.
abbrev machine : FrameAllocator
machine = record {
  bitmap = record { bits = 11 ∷ 0 ∷ []; frame_count = 100 };
  buddy = Buddy.new 16;
  total_frames = 100;
}

alloc_one-free_example :
    (h : ℕ) × (a' : FrameAllocator) × (a'' : FrameAllocator) × (alloc_one machine 0
      ≡ some (some (record { frame = h; order = 0; node = 0 }), a'))
    × (h ≤ 5)
    × (is_free machine.bitmap h ≡ some true)
    × (is_free a'.bitmap h ≡ some false)
    × (a'.buddy ≡ machine.buddy)
    × (free a' (record { frame = h; order = 0; node = 0 }) ≡ some a'')
    × ((g : ℕ) → is_free a''.bitmap g ≡ is_free machine.bitmap g)
unfolding taken testbit
alloc_one-free_example = alloc_one-free machine 0 5 (omega arith) (omega arith) refl

-- A block of order 2 at frame 4, all of whose frames are taken, as `add_region` leaves it.
abbrev one_block : FrameAllocator
one_block = record {
  bitmap = record { bits = 0xffff_ffff_ffff_ffff ∷ []; frame_count = 64 };
  buddy = record {
    free_lists = set (replicate 8 (replicate 11 none)) 0 (set (replicate 11 none) 2 (some 0));
    blocks = some (record { frame = 4; order = 2; next = none }) ∷ none ∷ none ∷ [];
    next_block = 1;
  };
  total_frames = 64;
}

abbrev frame_of : Option FrameDescriptor → Option ℕ
frame_of none = none
frame_of (some d) = some d.frame

-- The upper half of a split block is both on a list and free in the bitmap, so that the frame 6 is
-- given out twice.
abbrev three : Option (Option ℕ × Option ℕ × Option ℕ)
three = alloc_order one_block 1 0 >>= λ p. alloc_one p.1 0 >>= λ q.
    alloc_order q.1 1 0 >>= λ r. some (frame_of p.0, frame_of q.0, frame_of r.0)

twice : three ≡ some (some 4, some 6, some 6)
unfolding alloc_order alloc_one find_free_from find_loop probe jumps test
twice = refl
