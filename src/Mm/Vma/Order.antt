-- ===== src/Mm/Vma/Order.antt =====
-- The areas of kernel/src/mm/vma.rs stay in order and apart.
use theory_os.Base.{
  ℕ, ◌≤◌, ◌<◌, true, false, ◌&&◌, ◌||◌, List, [], ◌∷◌, ◌++◌, Option, none, some, length, ltb, leb,
  All, if◌then◌else◌, Bool-cases, ◌≡◌, refl, ◌∙◌, sym, ◌⊎◌, inl, inr, arith, max,
}
use theory_os.Mm.Vma.{
  Vma, VmaTree, ok, err, no_space, overlaps, sink, sort_loop, reverse_onto, sort_entries, insert,
  find, contains, max_vmas,
}
use theory_os.Mm.Vma.Sinking.{
  IsOrdered, IsReversed, IsClear, or_else, overlaps-IsClear, All-sink, All-map, sink-IsReversed,
  find-IsClear, find-sink,
}

or_else-none : (o : Option Vma) → or_else o none ≡ o
or_else-none none = refl
or_else-none (some v) = refl

-- Each area, as it comes, has room and is clear of those before it.
abbrev IsFresh : List Vma → List Vma → Type 0
IsFresh acc [] = Unit {0}
IsFresh acc (v ∷ vs) = (v.start < v.end) × IsClear v acc × IsFresh (sink v acc) vs

sort_loop_lem :
    (acc vs : List Vma)
    → IsReversed acc
    → IsFresh acc vs
    → IsReversed (sort_loop acc vs)
      × ((addr : ℕ) → find (sort_loop acc vs) addr ≡ or_else (find acc addr) (find vs addr))
unfolding sort_loop find
sort_loop_lem acc [] o fresh = (o, λ addr. sym (or_else-none (find acc addr)))
sort_loop_lem acc (v ∷ vs) o (room, clear, fresh) =
    let (o', found) = sort_loop_lem (sink v acc) vs (sink-IsReversed v acc room clear o) fresh in
    (
      o',
      λ addr.
          found addr
          ∙ rw (find-sink v acc addr clear) (elim (Bool-cases (contains v addr)) [
            | inl here ↦
                let nowhere = find-IsClear v acc addr here clear in rw here (rw nowhere refl)
            | inr not_here ↦ rw not_here refl
          ]),
    )

All-append : (P : Vma → Type 0) (us : List Vma) (v : Vma) → All P us → P v → All P (us ++ v ∷ [])
All-append P [] v h p = (p, tt)
All-append P (u ∷ us) v (q, h) p = (q, All-append P us v h p)

-- A table in order, with one area at its end that is clear of it.
append-IsFresh :
    (acc tree : List Vma) (v : Vma)
    → IsOrdered tree
    → All (λ (w : Vma). IsClear w acc) tree
    → v.start < v.end
    → IsClear v acc
    → IsClear v tree
    → IsFresh acc (tree ++ v ∷ [])
append-IsFresh acc [] v o apart room clear_acc clear = (room, clear_acc, tt)
append-IsFresh acc (w ∷ ws) v (roomy, above, o) (apart_w, apart) room clear_acc (clear_w, clear) = (
  roomy,
  apart_w,
  append-IsFresh (sink w acc) ws v o (both ws above apart) room
      (All-sink (λ (u : Vma). (ltb v.start u.end && ltb u.start v.end) ≡ false) w acc clear_w
        clear_acc)
      clear,
)
  where
    both :
        (us : List Vma)
        → All (λ (u : Vma). w.end ≤ u.start) us
        → All (λ (u : Vma). IsClear u acc) us
        → All (λ (u : Vma). IsClear u (sink w acc)) us
    both [] a b = tt
    both (u ∷ us) (a, more_a) (b, more_b) = (
      All-sink (λ (x : Vma). (ltb u.start x.end && ltb x.start u.end) ≡ false) w acc (ground arith)
          b,
      both us more_a more_b,
    )

reverse_onto_lem :
    (acc vs : List Vma)
    → IsOrdered acc
    → IsReversed vs
    → All (λ (v : Vma). All (λ (w : Vma). v.end ≤ w.start) acc) vs
    → IsOrdered (reverse_onto acc vs)
      × ((addr : ℕ) → find (reverse_onto acc vs) addr ≡ or_else (find vs addr) (find acc addr))
unfolding reverse_onto find
reverse_onto_lem acc [] o r below = (o, λ addr. refl)
reverse_onto_lem acc (v ∷ vs) o (room, before, r) (first, below) =
    let (o', found) = reverse_onto_lem (v ∷ acc) vs (room, first, o) r (pair vs before below) in
    (
      o',
      λ addr. found addr ∙ elim (Bool-cases (contains v addr)) [
        | inl here ↦
            let nowhere =
              find-IsClear v vs addr here
                (All-map vs (λ w (h : w.end ≤ v.start). ground arith) before) in
            rw here (rw nowhere refl)
        | inr not_here ↦ rw not_here refl
      ],
    )
  where
    pair :
        (us : List Vma)
        → All (λ (u : Vma). u.end ≤ v.start) us
        → All (λ (u : Vma). All (λ (w : Vma). u.end ≤ w.start) acc) us
        → All (λ (u : Vma). All (λ (w : Vma). u.end ≤ w.start) (v ∷ acc)) us
    pair [] a b = tt
    pair (u ∷ us) (a, more_a) (b, more_b) = ((a, b), pair us more_a more_b)

find-append :
    (tree : List Vma) (v : Vma) (addr : ℕ)
    → IsClear v tree
    → find (tree ++ v ∷ []) addr ≡ (if contains v addr then some v else find tree addr)
unfolding find
find-append [] v addr clear = refl
find-append (u ∷ us) v addr (apart, clear) = elim (Bool-cases (contains u addr)) [
  | inl here ↦ let elsewhere : contains v addr ≡ false = ground arith in rw here (rw elsewhere refl)
  | inr not_here ↦ rw not_here (find-append us v addr clear)
]

every : (P : Vma → Type 0) (us : List Vma) → ((u : Vma) → P u) → All P us
every P [] f = tt
every P (u ∷ us) f = (f u, every P us f)

-- The test of `insert`, and what becomes of the table.
insert_cases :
    (tree : VmaTree) (v : Vma)
    → IsOrdered tree
    → v.start < v.end
    → (((leb max_vmas (length tree) || overlaps tree v.start v.end) ≡ true)
        × (insert tree v ≡ err no_space))
      ⊎ (((leb max_vmas (length tree) || overlaps tree v.start v.end) ≡ false)
          × ((tree' : VmaTree) × (insert tree v ≡ ok tree')
              × IsOrdered tree'
              × ((addr : ℕ)
                  → find tree' addr ≡ (if contains v addr then some v else find tree addr))))
unfolding insert sort_entries find
insert_cases tree v o room =
    elim (Bool-cases (leb max_vmas (length tree) || overlaps tree v.start v.end)) [
      | inl blocked ↦ inl (blocked, rw blocked refl)
      | inr fits ↦
          let meets_none : overlaps tree v.start v.end ≡ false = ground (arith, fits) in
          let clear = overlaps-IsClear v tree meets_none in
          let fresh =
            append-IsFresh [] tree v o (every (λ (w : Vma). IsClear w []) tree (λ u. tt)) room tt
              clear in
          let (reversed, found) = sort_loop_lem [] (tree ++ v ∷ []) tt fresh in
          let (ordered, found') = reverse_onto_lem [] (sort_loop [] (tree ++ v ∷ [])) tt reversed (
            every (λ (u : Vma). All (λ (w : Vma). u.end ≤ w.start) [])
              (sort_loop [] (tree ++ v ∷ [])) (λ u. tt)) in
          inr (
            fits,
            (
              sort_entries (tree ++ v ∷ []),
              rw fits refl,
              ordered,
              λ addr.
                  found' addr
                  ∙ or_else-none (find (sort_loop [] (tree ++ v ∷ [])) addr)
                  ∙ found addr
                  ∙ find-append tree v addr clear,
            ),
          )
    ]

abbrev pub HasAddress : Vma → ℕ → Type 0
HasAddress v addr = (v.start ≤ addr) × (addr < v.end)

-- Some area of the table has the address.
abbrev pub IsMapped : VmaTree → ℕ → Type 0
IsMapped [] addr = ⊥
IsMapped (u ∷ us) addr = HasAddress u addr ⊎ IsMapped us addr

shared-overlaps :
    (v : Vma) (tree : VmaTree) (addr : ℕ)
    → HasAddress v addr
    → IsMapped tree addr
    → overlaps tree v.start v.end ≡ true
unfolding overlaps
shared-overlaps v [] addr has mapped = absurd mapped
shared-overlaps v (u ∷ us) addr (lo, hi) (inl (lo', hi')) =
    let meets : (ltb v.start u.end && ltb u.start v.end) ≡ true =
      ground (arith, lo, hi, lo', hi') in
    rw meets refl
shared-overlaps v (u ∷ us) addr has (inr mapped) =
    let later : overlaps us v.start v.end ≡ true = shared-overlaps v us addr has mapped in
    ground (arith, later)

apart-overlaps :
    (v : Vma) (tree : VmaTree)
    → IsOrdered tree
    → v.start < v.end
    → ((addr : ℕ) → HasAddress v addr → IsMapped tree addr → ⊥)
    → overlaps tree v.start v.end ≡ false
unfolding overlaps
apart-overlaps v [] o room apart = refl
apart-overlaps v (u ∷ us) (roomy, _, o) room apart =
    let later : overlaps us v.start v.end ≡ false =
      apart-overlaps v us o room (λ addr has mapped. apart addr has (inr mapped)) in
    elim (Bool-cases (ltb v.start u.end && ltb u.start v.end)) [
      | inl meets ↦
          let lo : v.start < u.end = ground (arith, meets) in
          let hi : u.start < v.end = ground (arith, meets) in
          absurd (
            apart (max v.start u.start) (omega arith, omega (arith, room, hi))
              (inl (omega arith, omega (arith, roomy, lo))))
      | inr clear ↦ rw clear later
    ]

-- In a table in order, for an area with room: where 256 areas are there, or an area of the table has
-- an address in common with the new one, `insert` reports that there is no space. Otherwise it gives
-- a table in order in which an address of the new area finds it and every other address finds what
-- it found.
pub insert-IsOrdered :
    (tree : VmaTree) (v : Vma)
    → IsOrdered tree
    → v.start < v.end
    → ((256 ≤ length tree) ⊎ ((addr : ℕ) × HasAddress v addr × IsMapped tree addr)
        → insert tree v ≡ err no_space)
      × (length tree < 256
          → ((addr : ℕ) → HasAddress v addr → IsMapped tree addr → ⊥)
          → (tree' : VmaTree) × (insert tree v ≡ ok tree')
            × IsOrdered tree'
            × ((addr : ℕ) → HasAddress v addr → find tree' addr ≡ some v)
            × ((addr : ℕ) → (HasAddress v addr → ⊥) → find tree' addr ≡ find tree addr))
insert-IsOrdered tree v o room = (
  λ blocked. elim (insert_cases tree v o room) [
    | inl (_, refused) ↦ refused
    | inr (fits, _) ↦ elim blocked [
      | inl full ↦ absurd (ground (arith, full, fits))
      | inr (addr, has, mapped) ↦
          let meets : overlaps tree v.start v.end ≡ true = shared-overlaps v tree addr has mapped in
          absurd (ground (arith, meets, fits))
    ]
  ],
  λ few apart.
      let clear : overlaps tree v.start v.end ≡ false = apart-overlaps v tree o room apart in
      elim (insert_cases tree v o room) [
        | inl (blocked, _) ↦ absurd (ground (arith, blocked, few, clear))
        | inr (_, (tree', done, ordered, found)) ↦ (
          tree',
          done,
          ordered,
          (λ addr (lo, hi).
              let in_area : contains v addr ≡ true = ground (arith, lo, hi) in
              found addr ∙ rw in_area refl),
          λ addr out.
              let elsewhere : contains v addr ≡ false = elim (Bool-cases (contains v addr)) [
                | inl in_area ↦ absurd (out (ground (arith, in_area), ground (arith, in_area)))
                | inr off ↦ off
              ] in
              found addr ∙ rw elsewhere refl,
        )
      ],
)
