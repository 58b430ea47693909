-- ===== src/Mm/Vma/Tests.antt =====
-- Runs of kernel/src/mm/vma.rs.
use theory_os.Base.{◌≤◌, ◌<◌, ℕ, false, [], ◌∷◌, none, some, ◌≡◌, ◌⊎◌, refl, arith}
use theory_os.Mm.Vma.{
  Vma, VmaTree, anonymous, ok, err, no_space, insert, find, gap_loop, find_gap, new_vma,
}
use theory_os.Mm.Vma.Sinking.{IsOrdered}
use theory_os.Mm.Vma.Order.{insert-IsOrdered, HasAddress, IsMapped}

abbrev area : ℕ → ℕ → Vma
area start end = record {
  start = start;
  end = end;
  prot = 1;
  flags = 2;
  kind = anonymous;
  file_offset = 0;
  shared = false;
  populated = false;
}

abbrev two_areas : VmaTree
two_areas = area 0x1000 0x3000 ∷ area 0x8000 0x9000 ∷ []

two_areas-IsOrdered : IsOrdered two_areas
two_areas-IsOrdered = (omega arith, (omega arith, tt), (omega arith, tt, tt))

insert-IsOrdered_example :
    ((256 ≤ 2) ⊎ ((addr : ℕ) × HasAddress (area 0x3000 0x8000) addr × IsMapped two_areas addr)
      → insert two_areas (area 0x3000 0x8000) ≡ err no_space)
    × (2 < 256
        → ((addr : ℕ) → HasAddress (area 0x3000 0x8000) addr → IsMapped two_areas addr → ⊥)
        → (tree' : VmaTree) × (insert two_areas (area 0x3000 0x8000) ≡ ok tree')
          × IsOrdered tree'
          × ((addr : ℕ)
              → HasAddress (area 0x3000 0x8000) addr
              → find tree' addr ≡ some (area 0x3000 0x8000))
          × ((addr : ℕ)
              → (HasAddress (area 0x3000 0x8000) addr → ⊥)
              → find tree' addr ≡ find two_areas addr))
insert-IsOrdered_example =
    insert-IsOrdered two_areas (area 0x3000 0x8000) two_areas-IsOrdered (omega arith)

-- The area between the two, up to both of them.
adjacent :
    insert two_areas (area 0x3000 0x8000)
    ≡ ok (area 0x1000 0x3000 ∷ area 0x3000 0x8000 ∷ area 0x8000 0x9000 ∷ [])
unfolding insert
adjacent = refl

in_the_middle :
    insert two_areas (area 0x4000 0x6000)
    ≡ ok (area 0x1000 0x3000 ∷ area 0x4000 0x6000 ∷ area 0x8000 0x9000 ∷ [])
unfolding insert
in_the_middle = refl

gap : gap_loop 16 two_areas 0x2000 0x2000 0x10000 ≡ some (some 0x3000)
unfolding gap_loop
gap = refl

found_gap : find_gap two_areas 0x2000 0x2000 0x3000 ≡ some none
unfolding find_gap
found_gap = refl

private_area : (new_vma 0x1000 0x2000 3 2 anonymous).end ≡ 0x3000
unfolding new_vma
private_area = refl
