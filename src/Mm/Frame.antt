-- ===== src/Mm/Frame.antt =====
-- kernel/src/mm/phys/frame.rs: the frame allocator, single frames from the bitmap and larger blocks
-- from the buddy lists. A result of none is a panic.
pub mod Laws
pub mod Tests
use theory_os.Base.{
  ℕ, zero, suc, ◌+◌, ◌-◌, ◌*◌, ◌/◌, ◌^◌, Bool, true, false, List, [], ◌∷◌, Option, none, some,
  replicate, leb, ltb, ◌==◌, if◌then◌else◌, min, max,
}
use theory_os.Base.Bits.{complement}
use theory_os.Mm.Checked.{◌>>=◌}
use theory_os.Mm.Bitmap as Bitmap
use theory_os.Mm.Bitmap.{FrameBitmap, find_free, set_used, set_free, count_free, page_size}
use theory_os.Mm.Buddy as Buddy
use theory_os.Mm.Buddy.{BuddyAllocator, max_order, max_nodes}
use Prim.Native.Nat.{bit_and}

pub record FrameDescriptor : Type 0 where
  pub frame : ℕ
  pub order : ℕ
  pub node : ℕ

abbrev pub page_count : FrameDescriptor → ℕ
page_count d = 2 ^ d.order

pub record PhysicalMemoryStats : Type 0 where
  pub total_frames : ℕ
  pub free_frames : ℕ
  pub free_bytes : ℕ

pub record FrameAllocator : Type 0 where
  pub bitmap : FrameBitmap
  pub buddy : BuddyAllocator
  pub total_frames : ℕ

pub data MemoryKind : Type 0 where
  usable reserved acpi_reclaimable acpi_nvs bad_memory bootloader_reclaimable unknown : MemoryKind

pub record MemoryRegion : Type 0 where
  pub start : ℕ
  pub length : ℕ
  pub kind : MemoryKind

abbrev pub max_bitmap_words : ℕ
max_bitmap_words = 65536

abbrev pub max_buddy_blocks : ℕ
max_buddy_blocks = 8192

abbrev pub is_allocatable : MemoryKind → Bool
is_allocatable usable = true
is_allocatable bootloader_reclaimable = true
is_allocatable acpi_reclaimable = true
is_allocatable other = false

-- `layout::align_up`, on 64 bits.
unfoldable pub align_up : ℕ → ℕ → ℕ
align_up addr align = bit_and (addr + align - 1) (complement 64 (align - 1))

-- The greatest end of a region, `256 MiB` where there is none.
unfoldable pub max_phys : List MemoryRegion → ℕ
max_phys [] = 256 * 1024 * 1024
max_phys (r ∷ []) = r.start + r.length
max_phys (r ∷ s ∷ regions) = max (r.start + r.length) (max_phys (s ∷ regions))

unfoldable pub release : FrameBitmap → ℕ → ℕ → Option FrameBitmap
unfolding set_free
release bitmap frame zero = some bitmap
release bitmap frame (suc n) = do bitmap' ← set_free bitmap frame; release bitmap' (suc frame) n

-- The loop of `new` over the memory map.
unfoldable pub release_regions : FrameBitmap → List MemoryRegion → Option FrameBitmap
unfolding release Bitmap.frame_from_phys
release_regions bitmap [] = some bitmap
release_regions bitmap (r ∷ regions) =
    let start_frame = Bitmap.frame_from_phys r.start in
    let end_frame =
      min (min (start_frame + r.length / page_size) (2 ^ 64 - 1)) bitmap.frame_count in
    elim (is_allocatable r.kind) [
      | false ↦ release_regions bitmap regions
      | true ↦ elim (leb bitmap.frame_count start_frame) [
        | true ↦ release_regions bitmap regions
        | false ↦ do
          bitmap' ← release bitmap start_frame (end_frame - start_frame)
          release_regions bitmap' regions
      ]
    ]

unfoldable pub reserve_kernel : FrameBitmap → ℕ → Option FrameBitmap
unfolding Bitmap.frame_from_phys Bitmap.reserve
reserve_kernel bitmap kernel_base =
    Bitmap.reserve bitmap
      (Bitmap.frame_from_phys (bit_and kernel_base (complement 64 (page_size - 1)))) 4096

-- `new`, for a boot memory map and the kernel's physical base.
unfoldable pub new : List MemoryRegion → ℕ → Option FrameAllocator
unfolding align_up max_phys Bitmap.words_for_frames Bitmap.new Bitmap.mark_all_used reserve_kernel
    release_regions Buddy.new
new memory_map kernel_base =
    let frame_count = align_up (max_phys memory_map) page_size / page_size in
    let words = min (Bitmap.words_for_frames frame_count) max_bitmap_words in
    do
      kept ←
          reserve_kernel (Bitmap.mark_all_used (Bitmap.new (replicate words 0) (words * 64)))
            kernel_base
      bitmap ← release_regions kept memory_map
      some (record {
        bitmap = bitmap;
        buddy = Buddy.new max_buddy_blocks;
        total_frames = bitmap.frame_count;
      })

unfoldable pub stats : FrameAllocator → Option PhysicalMemoryStats
unfolding count_free
stats a = do
  free_frames ← count_free a.bitmap
  some (record {
    total_frames = a.total_frames;
    free_frames = free_frames;
    free_bytes = free_frames * page_size;
  })

-- The `if let Some(frame) = self.bitmap.find_free()` block, which `alloc_one` and `alloc_order` share.
unfoldable pub take_frame : FrameAllocator → ℕ → Option (Option FrameDescriptor × FrameAllocator)
unfolding find_free set_used
take_frame a node = do
  found ← find_free a.bitmap
  elim found [
    | none ↦ some (none, a)
    | some frame ↦ do
      bitmap ← set_used a.bitmap frame
      some (some (record { frame = frame; order = 0; node = node }), record a { bitmap = bitmap })
  ]

-- The call of the buddy lists at the end of `alloc_order`.
unfoldable pub take_block :
    FrameAllocator → ℕ → ℕ → Option (Option FrameDescriptor × FrameAllocator)
unfolding Buddy.alloc
take_block a order node = do
  (found, bitmap, buddy) ← Buddy.alloc a.bitmap a.buddy order (min node (max_nodes - 1))
  let a' : FrameAllocator = record a { bitmap = bitmap; buddy = buddy } in
      elim found [
        | none ↦ some (none, a')
        | some frame ↦ some (some (record { frame = frame; order = order; node = node }), a')
      ]

unfoldable pub alloc_order :
    FrameAllocator → ℕ → ℕ → Option (Option FrameDescriptor × FrameAllocator)
unfolding take_frame take_block
alloc_order a order node =
    if min order max_order == 0
    then (do
      (found, a') ← take_frame a node
      elim found [ none ↦ take_block a' 0 node | some d ↦ some (some d, a') ])
    else take_block a (min order max_order) node

unfoldable pub alloc_one : FrameAllocator → ℕ → Option (Option FrameDescriptor × FrameAllocator)
unfolding take_frame alloc_order
alloc_one a node = do
  (found, a') ← take_frame a node
  elim found [ none ↦ alloc_order a' 0 node | some d ↦ some (some d, a') ]

unfoldable pub free : FrameAllocator → FrameDescriptor → Option FrameAllocator
unfolding set_free Buddy.free
free a desc =
    if desc.order == 0
    then (do bitmap ← set_free a.bitmap desc.frame; some (record a { bitmap = bitmap }))
    else do
      (bitmap, buddy) ←
          Buddy.free a.bitmap a.buddy desc.frame desc.order (min desc.node (max_nodes - 1))
      some (record a { bitmap = bitmap; buddy = buddy })

unfoldable pub reserve : FrameAllocator → ℕ → ℕ → Option FrameAllocator
unfolding Bitmap.frame_from_phys Bitmap.reserve
reserve a start frames = do
  bitmap ← Bitmap.reserve a.bitmap (Bitmap.frame_from_phys start) frames
  some (record a { bitmap = bitmap })

unfoldable pub mark_used : FrameAllocator → ℕ → Option FrameAllocator
unfolding set_used
mark_used a frame = do bitmap ← set_used a.bitmap frame; some (record a { bitmap = bitmap })

unfoldable pub mark_free : FrameAllocator → ℕ → Option FrameAllocator
unfolding set_free
mark_free a frame = do bitmap ← set_free a.bitmap frame; some (record a { bitmap = bitmap })

abbrev pub is_free : FrameAllocator → ℕ → Option Bool
is_free a frame = Bitmap.is_free a.bitmap frame
