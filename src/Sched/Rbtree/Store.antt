-- ===== src/Sched/Rbtree/Store.antt =====
-- The nodes and the fields of the tree in kernel/src/sched/rbtree.rs, and programs over them. Each
-- statement of the source is one line of a `do` block: `load` reads a node and `modify` assigns to
-- its fields, both a panic out of the array; a loop that runs out of fuel is `diverged`.
use theory_os.Base.{ℕ, zero, suc, ◌+◌, Bool, true, false, not, ltb, ◌==◌, if◌then◌else◌}

abbrev pub max_rb_nodes : ℕ
max_rb_nodes = 1024

-- `RbNodeId::INVALID`, `u16::MAX`.
abbrev pub invalid : ℕ
invalid = 0xffff

abbrev pub is_valid : ℕ → Bool
is_valid id = not (id == invalid)

abbrev pub invalid_tid : ℕ
invalid_tid = 0xffff_ffff

pub data Color : Type 0 where
  red black : Color

abbrev pub is_red : Color → Bool
is_red red = true
is_red black = false

pub record RbNode : Type 0 where
  pub key : ℕ
  pub tid : ℕ
  pub parent : ℕ
  pub left : ℕ
  pub right : ℕ
  pub color : Color
  pub in_use : Bool

abbrev pub empty_node : RbNode
empty_node = record {
  key = 0;
  tid = invalid_tid;
  parent = invalid;
  left = invalid;
  right = invalid;
  color = black;
  in_use = false;
}

-- The array is a function on its indices, below `max_rb_nodes`.
pub record RedBlackTree : Type 0 where
  pub nodes : ℕ → RbNode
  pub root : ℕ
  pub free_head : ℕ

-- `RedBlackTree::new`.
unfoldable pub new : RedBlackTree
new = record { nodes = λ _. empty_node; root = invalid; free_head = invalid }

unfoldable pub init : RedBlackTree → RedBlackTree
init t = record {
  nodes = λ i. record (t.nodes i) {
    in_use = false;
    left = if ltb (i + 1) max_rb_nodes then i + 1 else invalid;
  };
  root = invalid;
  free_head = 0;
}

unfoldable pub is_empty : RedBlackTree → Bool
is_empty t = not (is_valid t.root)

-- The nodes in use among the first `n`.
unfoldable pub count_used : ℕ → (ℕ → RbNode) → ℕ
count_used zero nodes = 0
count_used (suc n) nodes = (if (nodes n).in_use then 1 else 0) + count_used n nodes

unfoldable pub len : RedBlackTree → ℕ
unfolding count_used
len t = count_used max_rb_nodes t.nodes

pub data Outcome (A : Type 0) : Type 0 where
  done : A → RedBlackTree → Outcome A
  panic : Outcome A
  diverged : Outcome A

-- A program that works on the tree.
abbrev pub M : Type 0 → Type 0
M A = RedBlackTree → Outcome A

infixl 5 ◌>>=◌ ◌>>◌
abbrev pub ◌>>=◌ : {A B : Type 0} → M A → (A → M B) → M B
◌>>=◌ m f t = elim (m t) [ done a t' ↦ f a t' | panic ↦ panic | diverged ↦ diverged ]

abbrev pub ◌>>◌ : {B : Type 0} → M (Unit {0}) → M B → M B
m >> k = m >>= λ _. k

abbrev pub return : {A : Type 0} → A → M A
return a t = done a t

abbrev pub out_of_fuel : {A : Type 0} → M A
out_of_fuel t = diverged

abbrev pub when : Bool → M (Unit {0}) → M (Unit {0})
when true m = m
when false m = return tt

abbrev pub load : ℕ → M RbNode
load id t = if ltb id max_rb_nodes then done (t.nodes id) t else panic

-- A function, changed at one index.
abbrev pub update : (ℕ → RbNode) → ℕ → RbNode → ℕ → RbNode
update f i v j = if j == i then v else f j

abbrev pub modify : ℕ → (RbNode → RbNode) → M (Unit {0})
modify id f t =
    if ltb id max_rb_nodes
    then done tt (record t { nodes = update t.nodes id (f (t.nodes id)) })
    else panic

abbrev pub get_root : M ℕ
get_root t = done t.root t

abbrev pub set_root : ℕ → M (Unit {0})
set_root id t = done tt (record t { root = id })

abbrev pub get_free_head : M ℕ
get_free_head t = done t.free_head t

abbrev pub set_free_head : ℕ → M (Unit {0})
set_free_head id t = done tt (record t { free_head = id })

-- Assignments to one field.
abbrev pub set_parent : ℕ → ℕ → M (Unit {0})
set_parent id p = modify id (λ n. record n { parent = p })

abbrev pub set_left : ℕ → ℕ → M (Unit {0})
set_left id l = modify id (λ n. record n { left = l })

abbrev pub set_right : ℕ → ℕ → M (Unit {0})
set_right id r = modify id (λ n. record n { right = r })

abbrev pub set_color : ℕ → Color → M (Unit {0})
set_color id c = modify id (λ n. record n { color = c })
