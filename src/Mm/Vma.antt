-- ===== src/Mm/Vma.antt =====
-- kernel/src/mm/vma.rs: the areas of an address space. The table keeps its entries in its first `len`
-- slots; the list holds those, in order.
pub mod Sinking
pub mod Order
pub mod Tests
use theory_os.Base.{
  ℕ, zero, suc, ◌+◌, ◌-◌, ◌/◌, ◌%◌, ◌^◌, Bool, true, false, ◌&&◌, ◌||◌, List, [], ◌∷◌, ◌++◌, Option,
  none, some, length, ltb, leb, ◌==◌, if◌then◌else◌,
}
use theory_os.Mm.Bitmap.{page_size}
use theory_os.Mm.Frame.{align_up}

pub data VmaKind : Type 0 where
  anonymous file stack heap mmap framebuffer : VmaKind

-- Protection and flags are the bits of their sets.
pub record Vma : Type 0 where
  pub start : ℕ
  pub end : ℕ
  pub prot : ℕ
  pub flags : ℕ
  pub kind : VmaKind
  pub file_offset : ℕ
  pub shared : Bool
  pub populated : Bool

pub data VmaError : Type 0 where
  no_space not_found overlap : VmaError

pub data Result (A : Type 0) : Type 0 where
  ok : A → Result A
  err : VmaError → Result A

abbrev pub max_vmas : ℕ
max_vmas = 256

abbrev pub VmaTree : Type 0
VmaTree = List Vma

-- `Vma::length`, `contains` and `page_count`.
abbrev pub size : Vma → ℕ
size v = v.end - v.start

abbrev pub contains : Vma → ℕ → Bool
contains v addr = leb v.start addr && ltb addr v.end

unfoldable pub page_count : Vma → ℕ
unfolding align_up
page_count v = align_up (size v) page_size / page_size

unfoldable pub overlaps : VmaTree → ℕ → ℕ → Bool
overlaps [] start end = false
overlaps (v ∷ vs) start end = (ltb start v.end && ltb v.start end) || overlaps vs start end

-- The inner loop of `sort_entries`: the entry sinks to its place in the entries before it, which
-- stand in reverse.
unfoldable pub sink : Vma → List Vma → List Vma
sink v [] = v ∷ []
sink v (u ∷ us) = let rest = sink v us in if leb u.start v.start then v ∷ u ∷ us else u ∷ rest

-- The outer loop; the entries that are in order stand in reverse.
unfoldable pub sort_loop : List Vma → List Vma → List Vma
unfolding sink
sort_loop sorted [] = sorted
sort_loop sorted (v ∷ vs) = sort_loop (sink v sorted) vs

unfoldable pub reverse_onto : List Vma → List Vma → List Vma
reverse_onto acc [] = acc
reverse_onto acc (v ∷ vs) = reverse_onto (v ∷ acc) vs

unfoldable pub sort_entries : VmaTree → VmaTree
unfolding sort_loop reverse_onto
sort_entries tree = reverse_onto [] (sort_loop [] tree)

unfoldable pub insert : VmaTree → Vma → Result VmaTree
unfolding overlaps sort_entries
insert tree vma =
    if leb max_vmas (length tree) || overlaps tree vma.start vma.end
    then err no_space
    else ok (sort_entries (tree ++ vma ∷ []))

-- `remove`: the area and the entries that are left.
unfoldable pub remove : VmaTree → ℕ → ℕ → Result (Vma × VmaTree)
remove [] start size = err not_found
remove (v ∷ vs) start size =
    let rest : Result (Vma × VmaTree) = elim (remove vs start size) [
      | ok (removed, left) ↦ ok (removed, v ∷ left)
      | err e ↦ err e
    ] in
    if (v.start == start) && (v.end == start + size) then ok (v, vs) else rest

unfoldable pub find : VmaTree → ℕ → Option Vma
find [] addr = none
find (v ∷ vs) addr = let rest = find vs addr in if contains v addr then some v else rest

-- The loop of `find_gap`, on fuel: none is the end of the fuel.
unfoldable pub gap_loop : ℕ → VmaTree → ℕ → ℕ → ℕ → Option (Option ℕ)
unfolding overlaps align_up
gap_loop zero tree cursor size limit = none
gap_loop (suc fuel) tree cursor size limit = elim (leb (cursor + size) limit) [
  | false ↦ some none
  | true ↦ elim (overlaps tree cursor (cursor + size)) [
    | false ↦ some (some cursor)
    | true ↦ gap_loop fuel tree (align_up (cursor + 1) page_size) size limit
  ]
]

unfoldable pub update_prot : VmaTree → ℕ → ℕ → ℕ → Result VmaTree
update_prot [] start size prot = err not_found
update_prot (v ∷ vs) start size prot =
    let rest : Result VmaTree = elim (update_prot vs start size prot) [
      | ok left ↦ ok (v ∷ left)
      | err e ↦ err e
    ] in
    if (v.start == start) && (v.end == start + size)
    then ok (record v { prot = prot } ∷ vs)
    else rest

-- `find_gap`. The cursor goes up by at least one in each round, so that the rounds up to the limit
-- are enough below the top of the address range, where the rounding does not wrap.
unfoldable pub find_gap : VmaTree → ℕ → ℕ → ℕ → Option (Option ℕ)
unfolding gap_loop
find_gap tree hint size limit = gap_loop (limit - hint + 1) tree hint size limit

-- `Vma::new`; SHARED is the bit 0 of the flags and POPULATE the bit 5.
unfoldable pub new_vma : ℕ → ℕ → ℕ → ℕ → VmaKind → Vma
new_vma start size prot flags kind = record {
  start = start;
  end = start + size;
  prot = prot;
  flags = flags;
  kind = kind;
  file_offset = 0;
  shared = flags % 2 == 1;
  populated = flags / 2 ^ 5 % 2 == 1;
}
