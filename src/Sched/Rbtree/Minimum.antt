-- ===== src/Sched/Rbtree/Minimum.antt =====
-- `min` in kernel/src/sched/rbtree.rs, against the ordered tree that the links stand for.
use Prim.Native.Nat.{compare, Ordering}
use theory_os.Base.{
  if◌then◌else◌, not, ℕ, zero, suc, ◌≤◌, ◌<◌, Bool, true, false, none, some, ◌≡◌, refl, ap, ◌∙◌,
  arith,
}
use theory_os.Sched.Rbtree.Store.{
  RbNode, RedBlackTree, invalid, is_valid, max_rb_nodes, M, load, return, ◌>>=◌, Outcome, done,
  panic, diverged,
}
use theory_os.Sched.Rbtree.Insert.{leftmost, min}

-- The shape of a tree, with the numbers of its nodes.
pub data Shape : Type 0 where
  leaf : Shape
  branch : Shape → ℕ → Shape → Shape

-- The links from `id` on have the shape.
abbrev pub Represents : (ℕ → RbNode) → ℕ → Shape → Type 0
Represents nodes id leaf = id ≡ invalid
Represents nodes id (branch l i r) =
    (id ≡ i) × (i < 1024) × Represents nodes (nodes i).left l × Represents nodes (nodes i).right r

-- Every node of the shape has the property.
abbrev pub Everywhere : (ℕ → Type 0) → Shape → Type 0
Everywhere P leaf = Unit {0}
Everywhere P (branch l i r) = Everywhere P l × P i × Everywhere P r

-- A search tree by key; equal keys stand on either side.
abbrev pub IsOrdered : (ℕ → RbNode) → Shape → Type 0
IsOrdered nodes leaf = Unit {0}
IsOrdered nodes (branch l i r) =
    Everywhere (λ j. (nodes j).key ≤ (nodes i).key) l
    × Everywhere (λ j. (nodes i).key ≤ (nodes j).key) r
    × IsOrdered nodes l
    × IsOrdered nodes r

-- The length of the walk down the left links.
abbrev pub left_depth : Shape → ℕ
left_depth leaf = 0
left_depth (branch l i r) = suc (left_depth l)

abbrev pub least : Shape → ℕ → ℕ
least leaf i = i
least (branch l i r) j = least l i

pub Everywhere-map :
    {P Q : ℕ → Type 0} (s : Shape) → ((i : ℕ) → P i → Q i) → Everywhere P s → Everywhere Q s
Everywhere-map leaf f h = tt
Everywhere-map (branch l i r) f (a, b, c) = (Everywhere-map l f a, f i b, Everywhere-map r f c)

pub load_lem :
    {A : Type 0} (i : ℕ) (t : RedBlackTree) (k : RbNode → M A)
    → i < 1024
    → (load i >>= k) t ≡ k (t.nodes i) t
load_lem i t k h =
    let here : compare i max_rb_nodes ≡ Ordering.lt = ground arith in
    ap
      (λ (o : Ordering).
        elim (if elim o [ Ordering.lt ↦ true | _ ↦ false ] then done (t.nodes i) t else panic) [
          | done a t' ↦ k a t'
          | panic ↦ panic
          | diverged ↦ diverged
        ])
      here

-- A round of the walk.
unfoldable round : ℕ → RbNode → ℕ → Bool → M (ℕ × ℕ × ℕ)
round fuel node i b = elim b [
  | true ↦ leftmost fuel node.left
  | false ↦ return (i, node.tid, node.key)
]

leftmost_step :
    (fuel i : ℕ) (t : RedBlackTree)
    → i < 1024
    → leftmost (suc fuel) i t ≡ round fuel (t.nodes i) i (is_valid (t.nodes i).left) t
unfolding leftmost round
leftmost_step fuel i t h = load_lem i t (λ node. round fuel node i (is_valid node.left)) h

leftmost_lem :
    (fuel : ℕ) (t : RedBlackTree) (l : Shape) (i : ℕ) (r : Shape)
    → Represents t.nodes i (branch l i r)
    → left_depth (branch l i r) ≤ fuel
    → leftmost fuel i t ≡ done (least l i, (t.nodes (least l i)).tid, (t.nodes (least l i)).key) t
unfolding round
leftmost_lem zero t l i r rep h = absurd (omega arith)
leftmost_lem (suc fuel) t leaf i r (same, bound, left, right) h =
    let stop : is_valid (t.nodes i).left ≡ false = ground arith in
    leftmost_step fuel i t bound ∙ ap (λ (b : Bool). round fuel (t.nodes i) i b t) stop
leftmost_lem (suc fuel) t (branch l j r') i r (same, bound, (at, below, rest, rest'), right) h =
    let walk : is_valid (t.nodes i).left ≡ true = ground arith in
    leftmost_step fuel i t bound
    ∙ ap (λ (b : Bool). round fuel (t.nodes i) i b t) walk
    ∙ rw at (leftmost_lem fuel t l j r' (refl, below, rest, rest') (omega arith))

-- The walk ends at a key that bounds the whole tree from below.
least_lem :
    (nodes : ℕ → RbNode) (s : Shape) (i : ℕ)
    → IsOrdered nodes s
    → Everywhere (λ j. (nodes j).key ≤ (nodes i).key) s
    → Everywhere (λ j. (nodes (least s i)).key ≤ (nodes j).key) s
      × ((nodes (least s i)).key ≤ (nodes i).key)
least_lem nodes leaf i o h = (tt, omega arith)
least_lem nodes (branch l j r) i (low, high, ol, or) (hl, hj, hr) =
    let below = least_lem nodes l j ol low in
    let top : (nodes (least l j)).key ≤ (nodes j).key = below.1 in
    (
      (below.0, top, Everywhere-map r (λ k (p : (nodes j).key ≤ (nodes k).key). omega arith) high),
      omega arith,
    )

-- For a tree whose links stand for an ordered shape with a root and with at most 1025 nodes down its
-- left edge, `min` ends, leaves the tree as it is, and gives a node of the least key.
pub min-IsOrdered :
    (t : RedBlackTree) (l : Shape) (i : ℕ) (r : Shape)
    → Represents t.nodes t.root (branch l i r)
    → IsOrdered t.nodes (branch l i r)
    → left_depth (branch l i r) ≤ 1025
    → (min t ≡ done (some (least l i, (t.nodes (least l i)).tid, (t.nodes (least l i)).key)) t)
      × Everywhere (λ j. (t.nodes (least l i)).key ≤ (t.nodes j).key) (branch l i r)
unfolding min
min-IsOrdered t l i r (same, bound, left, right) (low, high, ol, or) h =
    let there : is_valid t.root ≡ true = ground arith in
    let walk : leftmost 1025 t.root t
        ≡ done (least l i, (t.nodes (least l i)).tid, (t.nodes (least l i)).key) t =
      ap (λ (c : ℕ). leftmost 1025 c t) same
      ∙ leftmost_lem 1025 t l i r (refl, bound, left, right) h in
    let bounds = least_lem t.nodes l i ol low in
    (
      ap
            (λ (b : Bool).
              (if not b
                  then return none
                  else (do found ← leftmost 1025 t.root; return (some found)))
                t)
            there
          ∙ ap
              (λ (o : Outcome (ℕ × ℕ × ℕ)). elim o [
                | done a t' ↦ done (some a) t'
                | panic ↦ panic
                | diverged ↦ diverged
              ])
              walk,
      (
        bounds.0,
        bounds.1,
        Everywhere-map r (λ k (p : (t.nodes i).key ≤ (t.nodes k).key). omega (arith, bounds.1))
            high,
      ),
    )
