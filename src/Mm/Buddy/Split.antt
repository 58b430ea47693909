-- ===== src/Mm/Buddy/Split.antt =====
-- What a split of a block leaves, in kernel/src/mm/phys/buddy.rs.
use theory_os.Base.{
  ℕ, zero, suc, ◌+◌, ◌^◌, ◌<◌, true, false, Option, some, List, [], ◌∷◌, length, get_elem?, set,
  length-set, ltb, ◌≡◌, refl, arith,
}
use theory_os.Mm.Bitmap.{FrameBitmap, set_free, is_free}
use theory_os.Mm.Bitmap.Frames.{IsSized, set_bit_lem}
use theory_os.Mm.Buddy.{BuddyAllocator, FreeBlock, head_of, block, push_block, split}

get_elem-set_self :
    {A : Type 0} (xs : List A) (i : ℕ) (v : A) → i < length xs → get_elem? (set xs i v) i ≡ some v
get_elem-set_self [] i v h = absurd (omega arith)
get_elem-set_self (x ∷ xs) zero v h = refl
get_elem-set_self (x ∷ xs) (suc i) v h = get_elem-set_self xs i v (omega arith)

get_elem_length :
    {A : Type 0} (xs : List A) (i : ℕ) {v : A} → get_elem? xs i ≡ some v → i < length xs
get_elem_length [] i h = absurd (ground arith)
get_elem_length (x ∷ xs) zero h = omega arith
get_elem_length (x ∷ xs) (suc i) h = omega (arith, get_elem_length xs i h)

-- On a list that exists and with a block left in the pool, `push_block` puts the block at the head
-- of its list, before what the list had.
pub push_block_lem :
    (a : BuddyAllocator) (node frame order : ℕ) (lists : List (Option ℕ)) (head : Option ℕ)
    → a.next_block < length a.blocks
    → get_elem? a.free_lists node ≡ some lists
    → get_elem? lists order ≡ some head
    → (a' : BuddyAllocator) × (push_block a node frame order ≡ some a')
      × (head_of a' node order ≡ some (some a.next_block))
      × (block a' a.next_block ≡ some (record { frame = frame; order = order; next = head }))
      × (a'.next_block ≡ suc a.next_block)
      × (length a'.blocks ≡ length a.blocks)
unfolding push_block
push_block_lem a node frame order lists head room row col =
    let spare : ltb a.next_block (length a.blocks) ≡ true = ground arith in
    let new : FreeBlock = record { frame = frame; order = order; next = head } in
    let a' : BuddyAllocator = record {
      free_lists = set a.free_lists node (set lists order (some a.next_block));
      blocks = set a.blocks a.next_block (some new);
      next_block = a.next_block + 1;
    } in
    (
      a',
      rw spare (rw row (rw col refl)),
      rw
          (get_elem-set_self a.free_lists node (set lists order (some a.next_block))
            (get_elem_length a.free_lists node row))
          (get_elem-set_self lists order (some a.next_block) (get_elem_length lists order col)),
      rw (get_elem-set_self a.blocks a.next_block (some new) room) refl,
      omega arith,
      length-set a.blocks a.next_block (some new),
    )

-- On a bitmap whose words reach every frame, for a block of order `order + 1` within the count, with
-- a list for the order and a block left in the pool: one halving ends, and its upper half is then
-- both the first block of its list and free in the bitmap.
pub split_lem :
    (bitmap : FrameBitmap) (a : BuddyAllocator) (node frame order : ℕ) (lists : List (Option ℕ))
    (head : Option ℕ)
    → IsSized bitmap
    → frame + 2 ^ order < bitmap.frame_count
    → a.next_block < length a.blocks
    → get_elem? a.free_lists node ≡ some lists
    → get_elem? lists order ≡ some head
    → (bitmap' : FrameBitmap) × (a' : BuddyAllocator) × (split 1 bitmap a node frame order
        ≡ some (bitmap', a'))
      × (head_of a' node order ≡ some (some a.next_block))
      × (block a' a.next_block
          ≡ some (record { frame = frame + 2 ^ order; order = order; next = head }))
      × (is_free bitmap' (frame + 2 ^ order) ≡ some true)
unfolding split set_free
split_lem bitmap a node frame order lists head sized within room row col =
    let e : order + 0 ≡ order = omega arith in
    let (bitmap', freed, free_now, others, sized', count) =
      set_bit_lem bitmap (frame + 2 ^ order) false sized within in
    let (a', pushed, first, is, next, pool) =
      push_block_lem a node (frame + 2 ^ order) order lists head room row col in
    (bitmap', a', rw e (rw freed (rw pushed refl)), first, is, free_now)
