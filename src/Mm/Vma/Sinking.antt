-- ===== src/Mm/Vma/Sinking.antt =====
-- How an area sinks to its place in kernel/src/mm/vma.rs.
use theory_os.Base.{
  ℕ, ◌≤◌, ◌<◌, true, false, ◌&&◌, List, [], ◌∷◌, Option, none, some, ltb, leb, All, if◌then◌else◌,
  Bool-cases, ◌≡◌, refl, inl, inr, arith,
}
use theory_os.Mm.Vma.{Vma, VmaTree, overlaps, sink, find, contains}

-- The table: each area has room and ends before those behind it start.
abbrev pub IsOrdered : VmaTree → Type 0
IsOrdered [] = Unit {0}
IsOrdered (v ∷ vs) = (v.start < v.end) × All (λ (w : Vma). v.end ≤ w.start) vs × IsOrdered vs

-- The same of the reversed list that sorting works on.
abbrev pub IsReversed : List Vma → Type 0
IsReversed [] = Unit {0}
IsReversed (v ∷ vs) = (v.start < v.end) × All (λ (w : Vma). w.end ≤ v.start) vs × IsReversed vs

-- The area meets none of the list.
abbrev pub IsClear : Vma → List Vma → Type 0
IsClear v vs = All (λ (u : Vma). (ltb v.start u.end && ltb u.start v.end) ≡ false) vs

abbrev pub or_else : Option Vma → Option Vma → Option Vma
or_else none o = o
or_else (some v) o = some v

pub overlaps-IsClear : (v : Vma) (vs : List Vma) → overlaps vs v.start v.end ≡ false → IsClear v vs
unfolding overlaps
overlaps-IsClear v [] h = tt
overlaps-IsClear v (u ∷ us) h = elim (Bool-cases (ltb v.start u.end && ltb u.start v.end)) [
  | inl meets ↦ absurd (ground (arith, h, meets))
  | inr apart ↦ (apart, overlaps-IsClear v us (ground (arith, h, apart)))
]

pub All-sink : (P : Vma → Type 0) (v : Vma) (us : List Vma) → P v → All P us → All P (sink v us)
unfolding sink
All-sink P v [] p h = (p, tt)
All-sink P v (u ∷ us) p (hu, h) = elim (Bool-cases (leb u.start v.start)) [
  | inl stays ↦ rw stays (p, (hu, h))
  | inr sinks ↦ rw sinks (hu, All-sink P v us p h)
]

pub All-map : {P Q : Vma → Type 0} (us : List Vma) → ((u : Vma) → P u → Q u) → All P us → All Q us
All-map [] f h = tt
All-map (u ∷ us) f (p, h) = (f u p, All-map us f h)

pub sink-IsReversed :
    (v : Vma) (us : List Vma)
    → v.start < v.end
    → IsClear v us
    → IsReversed us
    → IsReversed (sink v us)
unfolding sink
sink-IsReversed v [] room clear o = (room, tt, tt)
sink-IsReversed v (u ∷ us) room (apart, clear) (roomy, below, o) =
    elim (Bool-cases (leb u.start v.start)) [
      | inl stays ↦
          let start : u.start ≤ v.start = ground arith in
          let after : u.end ≤ v.start = ground arith in
          rw stays (
            room,
            (after, All-map us (λ w (h : w.end ≤ u.start). omega (arith, start)) below),
            (roomy, below, o),
          )
      | inr sinks ↦
          let before : v.end ≤ u.start = ground arith in
          rw sinks (
            roomy,
            All-sink (λ (w : Vma). w.end ≤ u.start) v us before below,
            sink-IsReversed v us room clear o,
          )
    ]

-- Where the area has the address, none that is clear of it does.
pub find-IsClear :
    (v : Vma) (us : List Vma) (addr : ℕ)
    → contains v addr ≡ true
    → IsClear v us
    → find us addr ≡ none
unfolding find
find-IsClear v [] addr h clear = refl
find-IsClear v (u ∷ us) addr h (apart, clear) =
    let elsewhere : contains u addr ≡ false = ground arith in
    rw elsewhere (find-IsClear v us addr h clear)

pub find-sink :
    (v : Vma) (us : List Vma) (addr : ℕ)
    → IsClear v us
    → find (sink v us) addr ≡ (if contains v addr then some v else find us addr)
unfolding find sink
find-sink v [] addr clear = refl
find-sink v (u ∷ us) addr (apart, clear) = elim (Bool-cases (leb u.start v.start)) [
  | inl stays ↦ rw stays refl
  | inr sinks ↦ rw sinks (elim (Bool-cases (contains u addr)) [
    | inl here ↦
        let elsewhere : contains v addr ≡ false = ground arith in rw here (rw elsewhere refl)
    | inr not_here ↦ rw not_here (find-sink v us addr clear)
  ])
]
