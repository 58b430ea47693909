-- ===== src/Sched/Rbtree/Rotation.antt =====
-- `rotate_left` of kernel/src/sched/rbtree.rs on the ordered tree that the links stand for.
use theory_os.Base.{
  ℕ, ◌<◌, true, false, not, ltb, ◌==◌, if◌then◌else◌, Bool-cases, ◌≡◌, refl, ap, ◌∙◌, inl, inr,
  arith,
}
use theory_os.Sched.Rbtree.Store.{
  RbNode, RedBlackTree, is_valid, max_rb_nodes, M, Outcome, done, panic, diverged, ◌>>=◌, ◌>>◌,
  load, modify, update, when, set_parent, set_left, set_right,
}
use theory_os.Sched.Rbtree.Insert.{rotate_left, relink_left_first}
use theory_os.Sched.Rbtree.Minimum.{load_lem}

-- The program ends, in a tree with the property.
abbrev pub Ends : M (Unit {0}) → RedBlackTree → (RedBlackTree → Type 0) → Type 0
Ends m t P = (t' : RedBlackTree) × (m t ≡ done tt t') × P t'

sequence :
    {P Q : RedBlackTree → Type 0} (m k : M (Unit {0})) (t : RedBlackTree)
    → Ends m t P
    → ((t' : RedBlackTree) → P t' → Ends k t' Q)
    → Ends (m >> k) t Q
sequence m k t (t', e, p) f =
    let (t'', e', q) = f t' p in
    (
      t'',
      ap
            (λ (o : Outcome (Unit {0})). elim o [
              | done a s ↦ k s
              | panic ↦ panic
              | diverged ↦ diverged
            ])
            e
          ∙ e',
      q,
    )

loading :
    {Q : RedBlackTree → Type 0} (i : ℕ) (t : RedBlackTree) (k : RbNode → M (Unit {0}))
    → i < 1024
    → Ends (k (t.nodes i)) t Q
    → Ends (load i >>= k) t Q
loading i t k h (t', e, q) = (t', load_lem i t k h ∙ e, q)

modify_lem :
    (i : ℕ) (f : RbNode → RbNode) (t : RedBlackTree)
    → i < 1024
    → modify i f t ≡ done tt (record t { nodes = update t.nodes i (f (t.nodes i)) })
modify_lem i f t h = let here : ltb i max_rb_nodes ≡ true = ground arith in rw here refl

-- What a field is after an assignment that keeps it.
kept :
    {A : Type 0} (g : RbNode → A) (n : ℕ → RbNode) (i j : ℕ) (w : RbNode)
    → g w ≡ g (n i)
    → g (update n i w j) ≡ g (n j)
kept g n i j w h = elim (Bool-cases (j == i)) [
  | inl same ↦ let e : i ≡ j = ground arith in rw same (h ∙ ap (λ (a : ℕ). g (n a)) e)
  | inr other ↦ rw other refl
]

-- What it is after one that sets it.
assigned :
    {A : Type 0} (g : RbNode → A) (n : ℕ → RbNode) (i j : ℕ) (w : RbNode)
    → g (update n i w j) ≡ (if j == i then g w else g (n j))
assigned g n i j w = elim (Bool-cases (j == i)) [
  | inl same ↦ rw same refl
  | inr other ↦ rw other refl
]

-- The left and the right links, the keys, and the parent of `x`.
abbrev pub Links : (ℕ → ℕ) → (ℕ → ℕ) → (ℕ → ℕ) → RedBlackTree → Type 0
Links L R K t =
    ((j : ℕ) → (t.nodes j).left ≡ L j)
    × ((j : ℕ) → (t.nodes j).right ≡ R j)
    × ((j : ℕ) → (t.nodes j).key ≡ K j)

abbrev pub with_link : (ℕ → ℕ) → ℕ → ℕ → ℕ → ℕ
with_link f i v j = if j == i then v else f j

set_parent-Links :
    (L R K : ℕ → ℕ) (x p i v : ℕ) (t : RedBlackTree)
    → i < 1024
    → (x == i) ≡ false
    → Links L R K t × ((t.nodes x).parent ≡ p)
    → Ends (set_parent i v) t (λ t'. Links L R K t' × ((t'.nodes x).parent ≡ p))
set_parent-Links L R K x p i v t h ne ((l, r, k), up) =
    let w : RbNode = record (t.nodes i) { parent = v } in
    (
      record t { nodes = update t.nodes i w },
      modify_lem i (λ n. record n { parent = v }) t h,
      (
        (
          λ j. kept (λ n. n.left) t.nodes i j w refl ∙ l j,
          λ j. kept (λ n. n.right) t.nodes i j w refl ∙ r j,
          λ j. kept (λ n. n.key) t.nodes i j w refl ∙ k j,
        ),
        assigned (λ n. n.parent) t.nodes i x w ∙ rw ne up,
      ),
    )

set_parent-Links_only :
    (L R K : ℕ → ℕ) (i v : ℕ) (t : RedBlackTree)
    → i < 1024
    → Links L R K t
    → Ends (set_parent i v) t (Links L R K)
set_parent-Links_only L R K i v t h (l, r, k) =
    let w : RbNode = record (t.nodes i) { parent = v } in
    (
      record t { nodes = update t.nodes i w },
      modify_lem i (λ n. record n { parent = v }) t h,
      (
        λ j. kept (λ n. n.left) t.nodes i j w refl ∙ l j,
        λ j. kept (λ n. n.right) t.nodes i j w refl ∙ r j,
        λ j. kept (λ n. n.key) t.nodes i j w refl ∙ k j,
      ),
    )

set_left-Links :
    (L R K : ℕ → ℕ) (i v : ℕ) (t : RedBlackTree)
    → i < 1024
    → Links L R K t
    → Ends (set_left i v) t (Links (with_link L i v) R K)
set_left-Links L R K i v t h (l, r, k) =
    let w : RbNode = record (t.nodes i) { left = v } in
    (
      record t { nodes = update t.nodes i w },
      modify_lem i (λ n. record n { left = v }) t h,
      (
        λ j. assigned (λ n. n.left) t.nodes i j w ∙ ap (λ (a : ℕ). if j == i then v else a) (l j),
        λ j. kept (λ n. n.right) t.nodes i j w refl ∙ r j,
        λ j. kept (λ n. n.key) t.nodes i j w refl ∙ k j,
      ),
    )

set_right-Links :
    (L R K : ℕ → ℕ) (i v : ℕ) (t : RedBlackTree)
    → i < 1024
    → Links L R K t
    → Ends (set_right i v) t (λ t'.
      Links L (with_link R i v) K t' × ((j : ℕ) → (t'.nodes j).parent ≡ (t.nodes j).parent))
set_right-Links L R K i v t h (l, r, k) =
    let w : RbNode = record (t.nodes i) { right = v } in
    (
      record t { nodes = update t.nodes i w },
      modify_lem i (λ n. record n { right = v }) t h,
      (
        (
          λ j. kept (λ n. n.left) t.nodes i j w refl ∙ l j,
          λ j.
              assigned (λ n. n.right) t.nodes i j w ∙ ap (λ (a : ℕ). if j == i then v else a) (r j),
          λ j. kept (λ n. n.key) t.nodes i j w refl ∙ k j,
        ),
        λ j. kept (λ n. n.parent) t.nodes i j w refl,
      ),
    )

-- The same with a node `p` left out.
abbrev pub Off : ℕ → (ℕ → ℕ) → (ℕ → ℕ) → (ℕ → ℕ) → RedBlackTree → Type 0
Off p L R K t =
    ((j : ℕ) → (j == p) ≡ false → (t.nodes j).left ≡ L j)
    × ((j : ℕ) → (j == p) ≡ false → (t.nodes j).right ≡ R j)
    × ((j : ℕ) → (t.nodes j).key ≡ K j)

relink-Off :
    (L R K : ℕ → ℕ) (p old new : ℕ) (t : RedBlackTree)
    → (is_valid p ≡ true → p < 1024)
    → Links L R K t
    → Ends (relink_left_first p old new) t (Off p L R K)
unfolding relink_left_first
relink-Off L R K p old new t bound (l, r, k) = elim (Bool-cases (is_valid p)) [
  | inr root ↦ (record t { root = new }, rw root refl, (λ j _. l j, λ j _. r j, k))
  | inl valid ↦
      let rewrite : not (is_valid p) ≡ false = rw valid refl in
      let (t', e, q) =
        loading {Q = Off p L R K} p t
          (λ n. if n.left == old then set_left p new else set_right p new) (bound valid)
          (elim (Bool-cases ((t.nodes p).left == old)) [
            | inl here ↦
                let (s, f, (l', r', k')) = set_left-Links L R K p new t (bound valid) (l, r, k) in
                (s, rw here f, (λ j ne. l' j ∙ rw ne refl, λ j _. r' j, k'))
            | inr there ↦
                let (s, f, ((l', r', k'), _)) =
                  set_right-Links L R K p new t (bound valid) (l, r, k) in
                (s, rw there f, (λ j _. l' j, λ j ne. r' j ∙ rw ne refl, k'))
          ]) in
      (t', rw rewrite e, q)
]

set_left-Off :
    (L R K : ℕ → ℕ) (p i v : ℕ) (t : RedBlackTree)
    → i < 1024
    → Off p L R K t
    → Ends (set_left i v) t (Off p (with_link L i v) R K)
set_left-Off L R K p i v t h (l, r, k) =
    let w : RbNode = record (t.nodes i) { left = v } in
    (
      record t { nodes = update t.nodes i w },
      modify_lem i (λ n. record n { left = v }) t h,
      (
        λ j ne.
            assigned (λ n. n.left) t.nodes i j w ∙ ap (λ (a : ℕ). if j == i then v else a) (l j ne),
        λ j ne. kept (λ n. n.right) t.nodes i j w refl ∙ r j ne,
        λ j. kept (λ n. n.key) t.nodes i j w refl ∙ k j,
      ),
    )

set_parent-Off :
    (L R K : ℕ → ℕ) (p i v : ℕ) (t : RedBlackTree)
    → i < 1024
    → Off p L R K t
    → Ends (set_parent i v) t (Off p L R K)
set_parent-Off L R K p i v t h (l, r, k) =
    let w : RbNode = record (t.nodes i) { parent = v } in
    (
      record t { nodes = update t.nodes i w },
      modify_lem i (λ n. record n { parent = v }) t h,
      (
        λ j ne. kept (λ n. n.left) t.nodes i j w refl ∙ l j ne,
        λ j ne. kept (λ n. n.right) t.nodes i j w refl ∙ r j ne,
        λ j. kept (λ n. n.key) t.nodes i j w refl ∙ k j,
      ),
    )

-- The end of `rotate_left`: the right child `y` takes the place of `x` below `p`.
abbrev climb : ℕ → ℕ → ℕ → M (Unit {0})
climb x y p = set_parent y p >> (relink_left_first p x y >> (set_left y x >> set_parent x y))

climb-Off :
    (L R K : ℕ → ℕ) (x y p : ℕ) (t : RedBlackTree)
    → x < 1024
    → y < 1024
    → (is_valid p ≡ true → p < 1024)
    → Links L R K t
    → Ends (climb x y p) t (Off p (with_link L y x) R K)
climb-Off L R K x y p t hx hy hp links =
    sequence {P = Links L R K} {Q = Off p (with_link L y x) R K} (set_parent y p)
      (relink_left_first p x y >> (set_left y x >> set_parent x y)) t
      (set_parent-Links_only L R K y p t hy links)
      (λ t1 l1.
        sequence {P = Off p L R K} {Q = Off p (with_link L y x) R K} (relink_left_first p x y)
          (set_left y x >> set_parent x y) t1 (relink-Off L R K p x y t1 hp l1)
          (λ t2 o2.
            sequence {P = Off p (with_link L y x) R K} {Q = Off p (with_link L y x) R K}
              (set_left y x) (set_parent x y) t2 (set_left-Off L R K p y x t2 hy o2)
              (λ t3 o3. set_parent-Off (with_link L y x) R K p x y t3 hx o3)))

-- The links and keys that `rotate_left x` leaves, off the parent of `x`.
pub rotate_left-Off :
    (x : ℕ) (t : RedBlackTree)
    → x < 1024
    → (t.nodes x).right < 1024
    → (x == (t.nodes (t.nodes x).right).left) ≡ false
    → (is_valid (t.nodes (t.nodes x).right).left ≡ true → (t.nodes (t.nodes x).right).left < 1024)
    → (is_valid (t.nodes x).parent ≡ true → (t.nodes x).parent < 1024)
    → Ends (rotate_left x) t (
        Off
          (t.nodes x).parent
          (with_link (λ j. (t.nodes j).left) (t.nodes x).right x)
          (with_link (λ j. (t.nodes j).right) x (t.nodes (t.nodes x).right).left)
          (λ j. (t.nodes j).key))
unfolding rotate_left
rotate_left-Off x t hx hy xb hb hp =
    let y = (t.nodes x).right in
    let b = (t.nodes y).left in
    let p = (t.nodes x).parent in
    let L : ℕ → ℕ = λ j. (t.nodes j).left in
    let R : ℕ → ℕ = with_link (λ j. (t.nodes j).right) x b in
    let K : ℕ → ℕ = λ j. (t.nodes j).key in
    let Q : RedBlackTree → Type 0 = Off p (with_link L y x) R K in
    let P : RedBlackTree → Type 0 = λ t'. Links L R K t' × ((t'.nodes x).parent ≡ p) in
    let last : M (Unit {0}) = load x >>= λ x'. climb x y x'.parent in
    loading {Q = Q} x t _ hx (
      loading {Q = Q} y t _ hy (
        sequence {P = P} {Q = Q} (set_right x b) (when (is_valid b) (set_parent b x) >> last) t
          (let (t1, e, (links, par)) =
              set_right-Links L (λ j. (t.nodes j).right) K x b t hx
                (λ j. refl, λ j. refl, λ j. refl) in
            (t1, e, (links, par x)))
          (λ t1 p1.
            sequence {P = P} {Q = Q} (when (is_valid b) (set_parent b x)) last t1
              (elim (Bool-cases (is_valid b)) [
                | inl valid ↦
                    let (t2, e, q) = set_parent-Links L R K x p b x t1 (hb valid) xb p1 in
                    (t2, rw valid e, q)
                | inr missing ↦ (t1, rw missing refl, p1)
              ])
              (λ t2 p2.
                let (links, up) = p2 in
                loading {Q = Q} x t2 (λ x'. climb x y x'.parent) hx
                  (rw up (climb-Off L R K x y p t2 hx hy hp links))))))
