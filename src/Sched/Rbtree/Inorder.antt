-- ===== src/Sched/Rbtree/Inorder.antt =====
-- A rotation of kernel/src/sched/rbtree.rs keeps the order of the tree.
use theory_os.Base.{
  ℕ, ◌≤◌, ◌<◌, Bool, true, false, ◌==◌, if◌then◌else◌, ◌≡◌, ◌≢◌, refl, ap, ◌∙◌, arith,
}
use theory_os.Sched.Rbtree.Store.{RbNode, RedBlackTree, is_valid}
use theory_os.Sched.Rbtree.Insert.{rotate_left}
use theory_os.Sched.Rbtree.Minimum.{
  Shape, leaf, branch, Represents, Everywhere, IsOrdered, Everywhere-map,
}
use theory_os.Sched.Rbtree.Rotation.{Ends, Off, with_link, rotate_left-Off}

-- The nodes of a shape are none of the three.
abbrev pub IsApart : ℕ → ℕ → ℕ → Shape → Type 0
IsApart x y p s = Everywhere (λ j. ((j == x) ≡ false) × ((j == y) ≡ false) × ((j == p) ≡ false)) s

reframe :
    (n n' : ℕ → RbNode) (id : ℕ) (s : Shape)
    → Everywhere (λ j. ((n' j).left ≡ (n j).left) × ((n' j).right ≡ (n j).right)) s
    → Represents n id s
    → Represents n' id s
reframe n n' id leaf same rep = rep
reframe n n' id (branch l i r) (sl, (left, right), sr) (e, bound, rl, rr) = (
  e,
  bound,
  reframe n n' (n' i).left l sl (rw left rl),
  reframe n n' (n' i).right r sr (rw right rr),
)

same_keys :
    (n n' : ℕ → RbNode) (s : Shape)
    → ((j : ℕ) → (n' j).key ≡ (n j).key)
    → IsOrdered n s
    → IsOrdered n' s
same_keys n n' leaf k o = tt
same_keys n n' (branch l i r) k (low, high, ol, or) = (
  Everywhere-map l (λ j (h : (n j).key ≤ (n i).key). omega (arith, k j, k i)) low,
  Everywhere-map r (λ j (h : (n i).key ≤ (n j).key). omega (arith, k j, k i)) high,
  same_keys n n' l k ol,
  same_keys n n' r k or,
)

-- The number at which a shape apart from `x` starts.
start_lem :
    (n : ℕ → RbNode) (x y p id : ℕ) (s : Shape)
    → x < 1024
    → Represents n id s
    → IsApart x y p s
    → ((x == id) ≡ false) × (is_valid id ≡ true → id < 1024)
start_lem n x y p id leaf h rep apart = (ground arith, λ valid. absurd (ground arith))
start_lem n x y p id (branch l i r) h (e, bound, rl, rr) (al, (nx, ny, np), ar) =
    (ground arith, λ valid. omega arith)

rotate_left-Off_at :
    (x y : ℕ) (t : RedBlackTree)
    → (t.nodes x).right ≡ y
    → x < 1024
    → y < 1024
    → (x == (t.nodes y).left) ≡ false
    → (is_valid (t.nodes y).left ≡ true → (t.nodes y).left < 1024)
    → (is_valid (t.nodes x).parent ≡ true → (t.nodes x).parent < 1024)
    → Ends (rotate_left x) t (
        Off
          (t.nodes x).parent
          (with_link (λ j. (t.nodes j).left) y x)
          (with_link (λ j. (t.nodes j).right) x (t.nodes y).left)
          (λ j. (t.nodes j).key))
rotate_left-Off_at x y t e hx hy xb hb hp =
    rw⁻¹ e (rotate_left-Off x t hx (rw e hy) (rw e xb) (rw e hb) hp)

-- For a node `x` with a right child `y`, whose subtrees do not have `x`, `y` or the parent of `x`
-- among their nodes, in an ordered tree: `rotate_left x` ends, and from `y` on the links then stand
-- for the rotated shape, which is ordered.
pub rotate_left-IsOrdered :
    (t : RedBlackTree) (x y : ℕ) (a b c : Shape)
    → Represents t.nodes x (branch a x (branch b y c))
    → IsOrdered t.nodes (branch a x (branch b y c))
    → IsApart x y (t.nodes x).parent a
    → IsApart x y (t.nodes x).parent b
    → IsApart x y (t.nodes x).parent c
    → x ≢ y
    → x ≢ (t.nodes x).parent
    → y ≢ (t.nodes x).parent
    → (is_valid (t.nodes x).parent ≡ true → (t.nodes x).parent < 1024)
    → Ends (rotate_left x) t (λ t'.
      Represents t'.nodes y (branch (branch a x b) y c)
      × IsOrdered t'.nodes (branch (branch a x b) y c))
rotate_left-IsOrdered t x y a b c (_, hx, rep_a, (e, hy, rep_b, rep_c))
      (low_x, (high_b, xy, high_c), oa, (low_y, high_y, ob, oc)) apart_a apart_b apart_c x≠y x≠p y≠p
      hp =
    let p = (t.nodes x).parent in
    let L : ℕ → ℕ = λ j. (t.nodes j).left in
    let R : ℕ → ℕ = λ j. (t.nodes j).right in
    let (xb, hb) = start_lem t.nodes x y p (t.nodes y).left b hx rep_b apart_b in
    let (t', ends, (left, right, key)) = rotate_left-Off_at x y t e hx hy xb hb hp in
    let b1 : (x == y) ≡ false = ground arith in
    let b2 : (x == p) ≡ false = ground arith in
    let b3 : (y == p) ≡ false = ground arith in
    let b4 : (y == x) ≡ false = ground arith in
    let b5 : (x == x) ≡ true = ground arith in
    let b6 : (y == y) ≡ true = ground arith in
    let left_x : (t'.nodes x).left ≡ L x = left x b2 ∙ rw b1 refl in
    let right_x : (t'.nodes x).right ≡ L y = right x b2 ∙ rw b5 refl in
    let left_y : (t'.nodes y).left ≡ x = left y b3 ∙ rw b6 refl in
    let right_y : (t'.nodes y).right ≡ R y = right y b3 ∙ rw b4 refl in
    let frame : (s : Shape) (id : ℕ)
        → IsApart x y p s
        → Represents t.nodes id s
        → Represents t'.nodes id s =
      λ s id apart rep.
        reframe t.nodes t'.nodes id s
          (Everywhere-map s
            (λ j (q : ((j == x) ≡ false) × ((j == y) ≡ false) × ((j == p) ≡ false)). (
              left j q.2 ∙ ap (λ (z : Bool). if z then x else L j) q.1,
              right j q.2 ∙ ap (λ (z : Bool). if z then L y else R j) q.0,
            ))
            apart)
          rep in
    let rotated : IsOrdered t.nodes (branch (branch a x b) y c) = (
      (
        Everywhere-map a (λ j (q : (t.nodes j).key ≤ (t.nodes x).key). omega (arith, xy)) low_x,
        xy,
        low_y,
      ),
      high_y,
      (low_x, high_b, oa, ob),
      oc,
    ) in
    (
      t',
      ends,
      (
        (
          refl,
          hy,
          (
            left_y,
            hx,
            rw left_x (frame a (L x) apart_a rep_a),
            rw right_x (frame b (L y) apart_b rep_b),
          ),
          rw right_y (frame c (R y) apart_c rep_c),
        ),
        same_keys t.nodes t'.nodes (branch (branch a x b) y c) key rotated,
      ),
    )
