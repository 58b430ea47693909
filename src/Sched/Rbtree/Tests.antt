-- ===== src/Sched/Rbtree/Tests.antt =====
-- Runs of the tree in kernel/src/sched/rbtree.rs.
use theory_os.Base.{ℕ, ◌≤◌, Option, none, some, if◌then◌else◌, ◌==◌, ◌≡◌, refl, arith}
use theory_os.Sched.Rbtree.Store.{
  M, RedBlackTree, red, empty_node, invalid, invalid_tid, Outcome, done, panic, diverged, ◌>>=◌,
  return, new, init,
}
use theory_os.Sched.Rbtree.Insert.{insert, min, rotate_left}
use theory_os.Sched.Rbtree.Rotation.{Ends}
use theory_os.Sched.Rbtree.Inorder.{rotate_left-IsOrdered}
use theory_os.Sched.Rbtree.Delete.{remove}
use theory_os.Sched.Rbtree.Minimum.{Represents, IsOrdered, leaf, branch, min-IsOrdered}

abbrev value : {A : Type 0} → Outcome A → Option A
value (done a t) = some a
value panic = none
value diverged = none

abbrev Minimum : Type 0
Minimum = Option (ℕ × ℕ × ℕ)

-- The minimum, its removal, and the minimum that is left.
unfoldable drain_one : M (Minimum × Option ℕ × Minimum)
unfolding min remove
drain_one = do
  least ← min
  elim least [
    | none ↦ return (none, none, none)
    | some (id, tid, key) ↦ do
      removed ← remove id
      next ← min
      return (some (id, tid, key), removed, next)
  ]

unfoldable fill : ℕ → ℕ → ℕ → M (Minimum × Option ℕ × Minimum)
unfolding insert drain_one
fill k1 k2 k3 = do a ← insert k1 1; b ← insert k2 2; c ← insert k3 3; drain_one

-- In ascending order the second key follows the first.
ascending : value (fill 10 20 30 (init new)) ≡ some (some (0, 1, 10), some 1, some (1, 2, 20))
unfolding fill init new
ascending = refl

-- In descending order the rotation leaves the parent link of node 2 at node 0, the removal does not
-- unlink it, and the walk then follows the free list to its end.
descending :
    value (fill 30 20 10 (init new)) ≡ some (some (2, 3, 10), some 3, some (1023, invalid_tid, 0))
unfolding fill init new
descending = refl

-- A root with a lesser child.
abbrev small : RedBlackTree
small = record {
  nodes = λ i.
      if i == 4
      then record empty_node { key = 7; tid = 70; left = 9 }
      else (if i == 9 then record empty_node { key = 3; tid = 30; color = red } else empty_node);
  root = 4;
  free_head = invalid;
}

min-IsOrdered_example :
    (min small ≡ done (some (9, 30, 3)) small)
    × ((Unit {0} × (3 ≤ 3) × Unit {0}) × (3 ≤ 7) × Unit {0})
min-IsOrdered_example =
    min-IsOrdered small (branch leaf 9 leaf) 4 leaf
      (refl, omega arith, (refl, omega arith, refl, refl), refl)
      ((tt, omega arith, tt), tt, (tt, tt, tt, tt), tt) (omega arith)

-- A root with a greater child, below which a key lies between the two.
abbrev lean : RedBlackTree
lean = record {
  nodes = λ i.
      if i == 4
      then record empty_node { key = 7; right = 9 }
      else (if i == 9
          then record empty_node { key = 12; left = 2; parent = 4 }
          else (if i == 2 then record empty_node { key = 8; parent = 9 } else empty_node));
  root = 4;
  free_head = invalid;
}

rotate_left-IsOrdered_example : Ends (rotate_left 4) lean (λ t'.
    Represents t'.nodes 9 (branch (branch leaf 4 (branch leaf 2 leaf)) 9 leaf)
    × IsOrdered t'.nodes (branch (branch leaf 4 (branch leaf 2 leaf)) 9 leaf))
rotate_left-IsOrdered_example =
    rotate_left-IsOrdered lean 4 9 leaf (branch leaf 2 leaf) leaf
      (refl, omega arith, refl, (refl, omega arith, (refl, omega arith, refl, refl), refl))
      (
        tt,
        ((tt, omega arith, tt), omega arith, tt),
        tt,
        ((tt, omega arith, tt), tt, (tt, tt, tt, tt), tt),
      )
      tt (tt, (refl, refl, refl), tt) tt (omega arith) (omega arith) (omega arith)
      (λ valid. absurd (ground arith))
