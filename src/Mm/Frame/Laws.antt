-- ===== src/Mm/Frame/Laws.antt =====
-- What the allocator of kernel/src/mm/phys/frame.rs gives out, single frames and blocks.
use theory_os.Base.{
  ℕ, zero, suc, ◌+◌, ◌-◌, ◌≤◌, ◌<◌, true, false, Option, none, some, List, get_elem?, replicate,
  ◌==◌, min, Bool-cases, ◌≡◌, ◌≢◌, inl, inr, refl, sym, ap, ◌∙◌, arith,
}
use theory_os.Mm.Checked.{◌>>=◌}
use theory_os.Mm.Bitmap.{FrameBitmap, find_free, set_used, set_free, is_free}
use theory_os.Mm.Bitmap.Frames.{IsSized, taken, free_now, is_free_sized, set_bit_lem}
use theory_os.Mm.Bitmap.Search.{find_free_lem}
use theory_os.Mm.Buddy.{
  BuddyAllocator, alloc_on, alloc_others, alloc, head_of, max_nodes, max_order,
}
use theory_os.Mm.Buddy as Buddy
use theory_os.Mm.Frame.{FrameAllocator, take_frame, take_block, alloc_order, alloc_one, free}

-- Every free list is there and empty.
abbrev pub IsEmpty : BuddyAllocator → Type 0
IsEmpty a = (node order : ℕ) → node < 8 → order < 11 → head_of a node order ≡ some none

get_elem-replicate : {A : Type 0} (n i : ℕ) (v : A) → i < n → get_elem? (replicate n v) i ≡ some v
get_elem-replicate zero i v h = absurd (omega arith)
get_elem-replicate (suc n) zero v h = refl
get_elem-replicate (suc n) (suc i) v h = get_elem-replicate n i v (omega arith)

pub new-IsEmpty : (k : ℕ) → IsEmpty (Buddy.new k)
unfolding Buddy.new
new-IsEmpty k node order hn ho =
    ap (λ (o : Option (List (Option ℕ))). ◌>>=◌ {B = Option ℕ} o (λ lists. get_elem? lists order))
      (get_elem-replicate 8 node (replicate 11 none) hn)
    ∙ get_elem-replicate 11 order none ho

alloc_on_empty :
    (n : ℕ) (bitmap : FrameBitmap) (a : BuddyAllocator) (node order : ℕ)
    → IsEmpty a
    → node < 8
    → order + n ≤ 11
    → alloc_on n bitmap a node order ≡ some (none, bitmap, a)
unfolding alloc_on
alloc_on_empty zero bitmap a node order e hn h = refl
alloc_on_empty (suc n) bitmap a node order e hn h =
    rw (e node (order + n) hn (omega arith))
      (alloc_on_empty n bitmap a node order e hn (omega arith))

alloc_others_empty :
    (n : ℕ) (bitmap : FrameBitmap) (a : BuddyAllocator) (node order : ℕ)
    → IsEmpty a
    → n ≤ 8
    → order ≤ 10
    → alloc_others n bitmap a node order ≡ some (none, bitmap, a)
unfolding alloc_others
alloc_others_empty zero bitmap a node order e hn h = refl
alloc_others_empty (suc n) bitmap a node order e hn h = elim (Bool-cases (8 - suc n == node)) [
  | inl own ↦ rw (own, alloc_others) (alloc_others_empty n bitmap a node order e (omega arith) h)
  | inr other ↦
      rw (other, alloc_others)
        (rw (alloc_on_empty (11 - order) bitmap a (8 - suc n) order e (omega arith) (omega arith))
          (alloc_others_empty n bitmap a node order e (omega arith) h))
]

alloc_empty :
    (bitmap : FrameBitmap) (a : BuddyAllocator) (order node : ℕ)
    → IsEmpty a
    → node < 8
    → alloc bitmap a order node ≡ some (none, bitmap, a)
unfolding alloc
alloc_empty bitmap a order node e hn =
    rw (alloc_on_empty (11 - min order 10) bitmap a node (min order 10) e hn (omega arith))
      (alloc_others_empty 8 bitmap a node (min order 10) e (omega arith) (omega arith))

-- While the buddy lists are empty, as `new` leaves them, a request for more than one frame is
-- refused, whatever frames the bitmap has free, and changes nothing.
pub alloc_order-IsEmpty :
    (a : FrameAllocator) (order node : ℕ)
    → IsEmpty a.buddy
    → 0 < order
    → alloc_order a order node ≡ some (none, a)
unfolding alloc_order take_block
alloc_order-IsEmpty a order node e pos =
    let large : (min order 10 == 0) ≡ false = ground arith in
    rw large (rw (alloc_empty a.bitmap a.buddy (min order 10) (min node 7) e (omega arith)) refl)

take_frame-some :
    (a : FrameAllocator) (node h : ℕ) (b : FrameBitmap)
    → find_free a.bitmap ≡ some (some h)
    → set_used a.bitmap h ≡ some b
    → take_frame a node
      ≡ some (some (record { frame = h; order = 0; node = node }), record a { bitmap = b })
unfolding take_frame
take_frame-some a node h b found used = rw found (rw used refl)

-- On a bitmap whose words reach every frame and with a free frame below the count, `alloc_one` gives
-- the least free frame, as a block of order 0, which is then taken; it leaves the buddy lists as they
-- are; and to free the descriptor makes every frame again what it was.
pub alloc_one-free :
    (a : FrameAllocator) (node f : ℕ)
    → IsSized a.bitmap
    → f < a.bitmap.frame_count
    → taken a.bitmap f ≡ false
    → (h : ℕ) × (a' : FrameAllocator) × (a'' : FrameAllocator) × (alloc_one a node
        ≡ some (some (record { frame = h; order = 0; node = node }), a'))
      × (h ≤ f)
      × (is_free a.bitmap h ≡ some true)
      × (is_free a'.bitmap h ≡ some false)
      × (a'.buddy ≡ a.buddy)
      × (free a' (record { frame = h; order = 0; node = node }) ≡ some a'')
      × ((g : ℕ) → is_free a''.bitmap g ≡ is_free a.bitmap g)
unfolding alloc_one free set_used set_free free_now
alloc_one-free a node f sized lt unused = elim (find_free_lem a.bitmap sized) [
  | inl (full, every) ↦ absurd (ground (arith, every f lt))
  | inr (h, found, bound, free_h, first) ↦
      let (b, used, own, others, sized_b, count) = set_bit_lem a.bitmap h true sized bound in
      let (b', freed, own', others', sized_b', count') =
        set_bit_lem b h false sized_b (omega (arith, count)) in
      let was : is_free a.bitmap h ≡ some true =
        is_free_sized a.bitmap h sized ∙ ground (arith, free_h) in
      (
        h,
        record a { bitmap = b },
        record a { bitmap = b' },
        rw (take_frame-some a node h b found used) refl,
        ground (arith, first f),
        was,
        own,
        refl,
        rw freed refl,
        λ g. elim (Bool-cases (g == h)) [
          | inl same ↦ let e : g ≡ h = ground arith in rw e (own' ∙ sym was)
          | inr other ↦ let ne : g ≢ h = ground arith in others' g ne ∙ others g ne
        ],
      )
]
