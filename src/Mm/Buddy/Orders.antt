-- ===== src/Mm/Buddy/Orders.antt =====
-- `order_for_count` in kernel/src/mm/phys/buddy.rs gives the least block that holds the pages.
use theory_os.Base.{
  ℕ, zero, suc, ◌+◌, ◌^◌, ◌≤◌, ◌<◌, true, false, ltb, leb, ◌&&◌, Bool-cases, ◌≡◌, ◌⊎◌, inl, inr,
  refl, ap, ◌==◌, arith, max,
}
use theory_os.Mm.Buddy.{power_from, next_power_of_two, raise_order, order_for_count}
use theory_os.Base.Bits.{pow-lt-pow}
use native.Mathlib.Nat.{one-le-pow}

-- The search returns the first power that is large enough.
power_from_lem :
    (n k pages : ℕ)
    → pages ≤ 2 ^ (k + n)
    → ((k ≡ 0) ⊎ ((j : ℕ) × (k ≡ suc j) × (2 ^ j < pages)))
    → (o : ℕ) × (power_from n k pages ≡ 2 ^ o)
      × (o ≤ k + n)
      × (pages ≤ 2 ^ o)
      × ((o ≡ 0) ⊎ ((j : ℕ) × (o ≡ suc j) × (2 ^ j < pages)))
unfolding power_from
power_from_lem zero k pages h low =
    let e : k + 0 ≡ k = omega arith in (k, refl, omega arith, rw⁻¹ e h, low)
power_from_lem (suc n) k pages h low = elim (Bool-cases (leb pages (2 ^ k))) [
  | inl fits ↦ (k, rw fits refl, omega arith, ground arith, low)
  | inr over ↦
      let shift : k + suc n ≡ suc k + n = omega arith in
      let h' : pages ≤ 2 ^ (suc k + n) = rw⁻¹ shift h in
      let (o, value, bound, enough, least) =
        power_from_lem n (suc k) pages h' (inr (k, refl, ground arith)) in
      (o, rw over value, omega arith, enough, least)
]

raise_order_lem : (n k o : ℕ) → k ≤ o → o ≤ k + n → o ≤ 10 → raise_order n k (2 ^ o) ≡ o
unfolding raise_order
raise_order_lem zero k o low high cap = omega arith
raise_order_lem (suc n) k o low high cap = elim (Bool-cases (k == o)) [
  | inl same ↦
      let e : k ≡ o = ground arith in
      let stop : (ltb (2 ^ k) (2 ^ o) && ltb k 10) ≡ false =
        ground (arith, ap (λ (x : ℕ). 2 ^ x) e) in
      rw stop e
  | inr less ↦
      let go : (ltb (2 ^ k) (2 ^ o) && ltb k 10) ≡ true =
        ground (arith, pow-lt-pow k o (ground arith)) in
      rw go (raise_order_lem n (suc k) o (ground arith) (omega arith) cap)
]

lt_of_pow-lt-pow : (j k : ℕ) → 2 ^ j < 2 ^ k → j < k
lt_of_pow-lt-pow j k h = elim (Bool-cases (ltb k j)) [
  | inl more ↦ absurd (omega (arith, pow-lt-pow k j (ground arith)))
  | inr fine ↦ elim (Bool-cases (j == k)) [
    | inl same ↦ let e : j ≡ k = ground arith in absurd (omega (arith, ap (λ (x : ℕ). 2 ^ x) e))
    | inr other ↦ ground arith
  ]
]

-- For at most 1024 pages, `order_for_count` gives an order, at most 10, whose blocks hold the pages,
-- and no smaller order's blocks do.
pub order_for_count_lem :
    (pages : ℕ)
    → pages ≤ 1024
    → (order_for_count pages ≤ 10)
      × (pages ≤ 2 ^ order_for_count pages)
      × ((j : ℕ) → j < order_for_count pages → 2 ^ j < pages)
unfolding order_for_count next_power_of_two
order_for_count_lem pages h =
    let (o, value, bound, enough, least) = power_from_lem 63 0 pages (omega arith) (inl refl) in
    let some_page : max (next_power_of_two pages) 1 ≡ 2 ^ o =
      omega (arith, value, one-le-pow o 2) in
    let cap : o ≤ 10 = elim least [
      | inl none_needed ↦ omega arith
      | inr (j, e, below) ↦ omega (arith, lt_of_pow-lt-pow j 10 (omega arith))
    ] in
    let is : order_for_count pages ≡ o =
      rw some_page (raise_order_lem 10 0 o (omega arith) (omega arith) cap) in
    rw is (
      cap,
      enough,
      λ j lt. elim least [
        | inl e ↦ absurd (omega arith)
        | inr (i, e, below) ↦ elim (Bool-cases (j == i)) [
          | inl same ↦ let e' : j ≡ i = ground arith in rw e' below
          | inr other ↦ omega (arith, pow-lt-pow j i (ground arith))
        ]
      ],
    )
