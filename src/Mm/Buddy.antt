-- ===== src/Mm/Buddy.antt =====
-- kernel/src/mm/phys/buddy.rs: free lists of blocks of `2 ^ order` frames, one for each memory node
-- and order, linked through a pool of blocks that only grows. Every operation works on the frame
-- bitmap too. A result of none is a panic, or a walk over more links than the pool has blocks.
pub mod Orders
pub mod Split
pub mod Tests
use theory_os.Base.{
  ℕ, zero, suc, ◌+◌, ◌-◌, ◌*◌, ◌/◌, ◌%◌, ◌^◌, Bool, true, false, not, ◌&&◌, ◌||◌, List, [], ◌∷◌,
  Option, none, some, length, get_elem?, set, replicate, ltb, leb, ◌==◌, if◌then◌else◌, min, max,
}
use theory_os.Mm.Checked.{◌>>=◌}
use theory_os.Mm.Bitmap.{FrameBitmap, is_free, set_used, set_free}
use Prim.Native.Nat.{bit_xor}

abbrev pub max_order : ℕ
max_order = 10

abbrev pub max_nodes : ℕ
max_nodes = 8

pub record FreeBlock : Type 0 where
  pub frame : ℕ
  pub order : ℕ
  pub next : Option ℕ

-- `blocks` holds none where no block has been written.
pub record BuddyAllocator : Type 0 where
  pub free_lists : List (List (Option ℕ))
  pub blocks : List (Option FreeBlock)
  pub next_block : ℕ

-- `new`, on a pool of `block_count` blocks.
unfoldable pub new : ℕ → BuddyAllocator
new block_count = record {
  free_lists = replicate max_nodes (replicate (max_order + 1) none);
  blocks = replicate block_count none;
  next_block = 0;
}

-- `free_lists[node][order]`.
abbrev pub head_of : BuddyAllocator → ℕ → ℕ → Option (Option ℕ)
head_of a node order = do lists ← get_elem? a.free_lists node; get_elem? lists order

-- An assignment to it.
abbrev pub set_head : BuddyAllocator → ℕ → ℕ → Option ℕ → Option BuddyAllocator
set_head a node order head = do
  lists ← get_elem? a.free_lists node
  old ← get_elem? lists order
  some (record a { free_lists = set a.free_lists node (set lists order head) })

abbrev pub block : BuddyAllocator → ℕ → Option FreeBlock
block a idx = do slot ← get_elem? a.blocks idx; slot

unfoldable pub push_block : BuddyAllocator → ℕ → ℕ → ℕ → Option BuddyAllocator
push_block a node frame order =
    if ltb a.next_block (length a.blocks)
    then (do
      head ← head_of a node order
      let written : FreeBlock = record { frame = frame; order = order; next = head } in
          set_head
            (record a {
              blocks = set a.blocks a.next_block (some written);
              next_block = a.next_block + 1;
            })
            node order (some a.next_block))
    else none

-- The walk of `take_buddy`, with the block before the current one.
unfoldable pub walk :
    ℕ → BuddyAllocator → ℕ → ℕ → ℕ → Option ℕ → Option ℕ → Option (Bool × BuddyAllocator)
walk zero a node buddy order prev current = none
walk (suc fuel) a node buddy order prev none = some (false, a)
walk (suc fuel) a node buddy order prev (some idx) = do
  b ← block a idx
  elim ((b.frame == buddy) && (b.order == order)) [
    | false ↦ walk fuel a node buddy order (some idx) b.next
    | true ↦ elim prev [
      | none ↦ do a' ← set_head a node order b.next; some (true, a')
      | some p ↦ do
        before ← block a p
        some (true, record a { blocks = set a.blocks p (some (record before { next = b.next })) })
    ]
  ]

unfoldable pub take_buddy :
    FrameBitmap → BuddyAllocator → ℕ → ℕ → ℕ → Option (Bool × BuddyAllocator)
unfolding walk is_free
take_buddy bitmap a node buddy order = do
  unused ← is_free bitmap buddy
  if unused
      then (do head ← head_of a node order; walk (length a.blocks + 1) a node buddy order none head)
      else some (false, a)

-- The splitting loop of `alloc`: `n` halvings of the block at `frame`, whose upper halves are freed.
unfoldable pub split :
    ℕ → FrameBitmap → BuddyAllocator → ℕ → ℕ → ℕ → Option (FrameBitmap × BuddyAllocator)
unfolding set_free push_block
split zero bitmap a node frame order = some (bitmap, a)
split (suc n) bitmap a node frame order = do
  let buddy = frame + 2 ^ (order + n)
  bitmap' ← set_free bitmap buddy
  a' ← push_block a node buddy (order + n)
  split n bitmap' a' node frame order

-- The search of one node's lists, from order `order + n - 1` down to `order`.
unfoldable pub alloc_on :
    ℕ → FrameBitmap → BuddyAllocator → ℕ → ℕ → Option (Option ℕ × FrameBitmap × BuddyAllocator)
unfolding split set_used
alloc_on zero bitmap a node order = some (none, bitmap, a)
alloc_on (suc n) bitmap a node order = do
  head ← head_of a node (order + n)
  elim head [
    | none ↦ alloc_on n bitmap a node order
    | some idx ↦ do
      b ← block a idx
      a' ← set_head a node (order + n) b.next
      (bitmap', a'') ← split n bitmap a' node b.frame order
      bitmap'' ← set_used bitmap' b.frame
      some (some b.frame, bitmap'', a'')
  ]

-- The search of the other nodes, the last `n` of them.
unfoldable pub alloc_others :
    ℕ → FrameBitmap → BuddyAllocator → ℕ → ℕ → Option (Option ℕ × FrameBitmap × BuddyAllocator)
unfolding alloc_on
alloc_others zero bitmap a node order = some (none, bitmap, a)
alloc_others (suc n) bitmap a node order = elim (max_nodes - suc n == node) [
  | true ↦ alloc_others n bitmap a node order
  | false ↦ do
    (found, bitmap', a') ← alloc_on (11 - order) bitmap a (max_nodes - suc n) order
    elim found [
      | none ↦ alloc_others n bitmap' a' node order
      | some frame ↦ some (some frame, bitmap', a')
    ]
]

unfoldable pub alloc :
    FrameBitmap → BuddyAllocator → ℕ → ℕ → Option (Option ℕ × FrameBitmap × BuddyAllocator)
unfolding alloc_on alloc_others
alloc bitmap a order node = do
  (found, bitmap', a') ← alloc_on (11 - min order max_order) bitmap a node (min order max_order)
  elim found [
    | none ↦ alloc_others max_nodes bitmap' a' node (min order max_order)
    | some frame ↦ some (some frame, bitmap', a')
  ]

-- The merging loop of `free`, for at most `n` orders from `order` on: the frame and the order of the
-- merged block.
unfoldable pub merge :
    ℕ → FrameBitmap → BuddyAllocator → ℕ → ℕ → ℕ → Option (ℕ × ℕ × FrameBitmap × BuddyAllocator)
unfolding take_buddy set_free
merge zero bitmap a node frame order = some (frame, order, bitmap, a)
merge (suc n) bitmap a node frame order =
    let buddy = bit_xor frame (2 ^ order) in
    elim (leb bitmap.frame_count buddy) [
      | true ↦ some (frame, order, bitmap, a)
      | false ↦ do
        (taken, a') ← take_buddy bitmap a node buddy order
        elim taken [
          | false ↦ some (frame, order, bitmap, a')
          | true ↦ do
            bitmap' ← set_free bitmap (min frame buddy)
            merge n bitmap' a' node (min frame buddy) (suc order)
        ]
    ]

unfoldable pub free :
    FrameBitmap → BuddyAllocator → ℕ → ℕ → ℕ → Option (FrameBitmap × BuddyAllocator)
unfolding set_free merge push_block
free bitmap a frame order node = do
  bitmap' ← set_free bitmap frame
  (frame', order', bitmap'', a') ←
      merge (11 - min order max_order) bitmap' a node frame (min order max_order)
  a'' ← push_block a' node frame' order'
  some (bitmap'', a'')

-- The choice of the block order in `add_region`, `order` or less: the greatest that divides the
-- frame's number, fits, and whose frames are all free.
unfoldable pub all_free : FrameBitmap → ℕ → ℕ → Option Bool
unfolding is_free
all_free bitmap frame zero = some true
all_free bitmap frame (suc n) = do
  unused ← is_free bitmap frame
  elim unused [ true ↦ all_free bitmap (suc frame) n | false ↦ some false ]

unfoldable pub fit_order : ℕ → FrameBitmap → ℕ → ℕ → Option ℕ
unfolding all_free
fit_order zero bitmap frame end = some 0
fit_order (suc order) bitmap frame end =
    let size = 2 ^ suc order in
    elim (not (frame % size == 0) || ltb end (frame + size)) [
      | true ↦ fit_order order bitmap frame end
      | false ↦ do
        unused ← all_free bitmap frame size
        elim unused [ true ↦ some (suc order) | false ↦ fit_order order bitmap frame end ]
    ]

unfoldable pub use_frames : FrameBitmap → ℕ → ℕ → Option FrameBitmap
unfolding set_used
use_frames bitmap frame zero = some bitmap
use_frames bitmap frame (suc n) = do
  bitmap' ← set_used bitmap frame
  use_frames bitmap' (suc frame) n

-- The loop of `add_region`; each round takes at least one of the frames that are left.
unfoldable pub add_blocks :
    ℕ → FrameBitmap → BuddyAllocator → ℕ → ℕ → ℕ → Option (FrameBitmap × BuddyAllocator)
unfolding fit_order use_frames push_block
add_blocks zero bitmap a node frame end = some (bitmap, a)
add_blocks (suc n) bitmap a node frame end = elim (ltb frame end) [
  | false ↦ some (bitmap, a)
  | true ↦ do
    order ← fit_order max_order bitmap frame end
    bitmap' ← use_frames bitmap frame (2 ^ order)
    a' ← push_block a node frame order
    add_blocks n bitmap' a' node (frame + 2 ^ order) end
]

unfoldable pub add_region :
    BuddyAllocator → FrameBitmap → ℕ → ℕ → ℕ → Option (FrameBitmap × BuddyAllocator)
unfolding add_blocks
add_region a bitmap start_frame frame_count node =
    if (frame_count == 0) || leb max_nodes node
    then some (bitmap, a)
    else add_blocks frame_count bitmap a node start_frame (start_frame + frame_count)

-- `pages.next_power_of_two()` on a word: the least power from `2 ^ k` on, of the next `n`.
unfoldable pub power_from : ℕ → ℕ → ℕ → ℕ
power_from zero k pages = 2 ^ k
power_from (suc n) k pages =
    let rest = power_from n (suc k) pages in if leb pages (2 ^ k) then 2 ^ k else rest

unfoldable pub next_power_of_two : ℕ → ℕ
unfolding power_from
next_power_of_two pages = power_from 63 0 pages

-- The loop of `order_for_count`, which raises the order at most `n` times.
unfoldable pub raise_order : ℕ → ℕ → ℕ → ℕ
raise_order zero order need = order
raise_order (suc n) order need =
    let rest = raise_order n (suc order) need in
    if ltb (2 ^ order) need && ltb order max_order then rest else order

unfoldable pub order_for_count : ℕ → ℕ
unfolding raise_order next_power_of_two
order_for_count pages = raise_order max_order 0 (max (next_power_of_two pages) 1)
