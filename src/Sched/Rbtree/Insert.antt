-- ===== src/Sched/Rbtree/Insert.antt =====
-- Allocation, insertion, the minimum and the rotations of kernel/src/sched/rbtree.rs.
use theory_os.Base.{
  ℕ, zero, suc, ◌+◌, true, false, not, Option, none, some, ltb, ◌==◌, if◌then◌else◌,
}
use theory_os.Sched.Rbtree.Store.{
  red, black, is_red, empty_node, invalid, is_valid, max_rb_nodes, M, ◌>>=◌, ◌>>◌, return,
  out_of_fuel, when, load, modify, get_root, set_root, get_free_head, set_free_head, set_parent,
  set_left, set_right, set_color,
}

unfoldable pub alloc_node : M (Option ℕ)
alloc_node = do
  id ← get_free_head
  if not (is_valid id) then return none else (do
    node ← load id
    modify id (λ _. empty_node)
    modify id (λ n. record n { in_use = true })
    set_free_head node.left
    return (some id))

unfoldable pub free_node : ℕ → M (Unit {0})
free_node id = do
  head ← get_free_head
  modify id (λ n. record n { in_use = false })
  set_left id head
  set_free_head id

-- The descent of `insert_node`: the node is linked below a leaf position, whose parent is returned.
unfoldable pub descend : ℕ → ℕ → ℕ → ℕ → M ℕ
descend zero key current node_id = out_of_fuel
descend (suc fuel) key current node_id = do
  cur ← load current
  elim (ltb key cur.key) [
    | true ↦ elim (is_valid cur.left) [
      | true ↦ descend fuel key cur.left node_id
      | false ↦ (do set_left current node_id; return current)
    ]
    | false ↦ elim (is_valid cur.right) [
      | true ↦ descend fuel key cur.right node_id
      | false ↦ (do set_right current node_id; return current)
    ]
  ]

-- Where `rotate_left` and `rotate_right` hang the node that has come up.
unfoldable pub relink_left_first : ℕ → ℕ → ℕ → M (Unit {0})
relink_left_first parent old new =
    if not (is_valid parent)
    then set_root new
    else do p ← load parent; if p.left == old then set_left parent new else set_right parent new

unfoldable pub relink_right_first : ℕ → ℕ → ℕ → M (Unit {0})
relink_right_first parent old new =
    if not (is_valid parent)
    then set_root new
    else do p ← load parent; if p.right == old then set_right parent new else set_left parent new

unfoldable pub rotate_left : ℕ → M (Unit {0})
unfolding relink_left_first
rotate_left x_id = do
  x ← load x_id
  let y_id = x.right
  y ← load y_id
  set_right x_id y.left
  when (is_valid y.left) (set_parent y.left x_id)
  x' ← load x_id
  set_parent y_id x'.parent
  relink_left_first x'.parent x_id y_id
  set_left y_id x_id
  set_parent x_id y_id

unfoldable pub rotate_right : ℕ → M (Unit {0})
unfolding relink_right_first
rotate_right y_id = do
  y ← load y_id
  let x_id = y.left
  x ← load x_id
  set_left y_id x.right
  when (is_valid x.right) (set_parent x.right y_id)
  y' ← load y_id
  set_parent x_id y'.parent
  relink_right_first y'.parent y_id x_id
  set_right x_id y_id
  set_parent y_id x_id

-- The tail of a round of `fix_insert` in which the uncle is not red.
unfoldable pub turn_left_side : ℕ → ℕ → ℕ → M (Unit {0})
unfolding rotate_left rotate_right
turn_left_side node_id parent_id grandparent = do
  p ← load parent_id
  let inner = p.right == node_id
  when inner (rotate_left parent_id)
  set_parent (if inner then parent_id else node_id) grandparent
  rotate_right grandparent
  g ← load grandparent
  set_color g.parent black
  set_color grandparent red

unfoldable pub turn_right_side : ℕ → ℕ → ℕ → M (Unit {0})
unfolding rotate_left rotate_right
turn_right_side node_id parent_id grandparent = do
  p ← load parent_id
  let inner = p.left == node_id
  when inner (rotate_right parent_id)
  set_parent (if inner then parent_id else node_id) grandparent
  rotate_left grandparent
  g ← load grandparent
  set_color g.parent black
  set_color grandparent red

-- The loop of `fix_insert`.
unfoldable pub fix_insert_loop : ℕ → ℕ → M (Unit {0})
unfolding turn_left_side turn_right_side
fix_insert_loop zero node_id = out_of_fuel
fix_insert_loop (suc fuel) node_id = do
  root ← get_root
  elim (node_id == root) [
    | true ↦ return tt
    | false ↦ do
      node ← load node_id
      let parent_id = node.parent
      elim (is_valid parent_id) [
        | false ↦ return tt
        | true ↦ do
          parent ← load parent_id
          elim (is_red parent.color) [
            | false ↦ return tt
            | true ↦ do
              let grandparent = parent.parent
              elim (is_valid grandparent) [
                | false ↦ return tt
                | true ↦ do
                  g ← load grandparent
                  let parent_is_left = g.left == parent_id
                  let uncle_id = if parent_is_left then g.right else g.left
                  uncle_red ←
                      if is_valid uncle_id
                      then (do u ← load uncle_id; return (is_red u.color))
                      else return false
                  elim uncle_red [
                    | true ↦ do
                      set_color parent_id black
                      set_color uncle_id black
                      set_color grandparent red
                      fix_insert_loop fuel grandparent
                    | false ↦
                        if parent_is_left
                        then turn_left_side node_id parent_id grandparent
                        else turn_right_side node_id parent_id grandparent
                  ]
              ]
          ]
      ]
  ]

unfoldable pub fix_insert : ℕ → ℕ → M (Unit {0})
unfolding fix_insert_loop
fix_insert fuel node_id = do fix_insert_loop fuel node_id; root ← get_root; set_color root black

unfoldable pub insert_node : ℕ → ℕ → M (Unit {0})
unfolding descend fix_insert
insert_node fuel node_id = do
  root ← get_root
  if not (is_valid root) then (do set_root node_id; set_color node_id black) else (do
    node ← load node_id
    parent ← descend fuel node.key root node_id
    set_parent node_id parent
    fix_insert fuel node_id)

-- `insert`. A path in the tree has at most `max_rb_nodes` nodes, which is the fuel of its loops.
unfoldable pub insert_fuel : ℕ → ℕ → ℕ → M (Option ℕ)
unfolding alloc_node insert_node
insert_fuel fuel key tid = do
  slot ← alloc_node
  elim slot [
    | none ↦ return none
    | some node_id ↦ do
      modify node_id (λ n. record n {
        key = key;
        tid = tid;
        color = red;
        parent = invalid;
        left = invalid;
        right = invalid;
      })
      insert_node fuel node_id
      return (some node_id)
  ]

unfoldable pub insert : ℕ → ℕ → M (Option ℕ)
unfolding insert_fuel
insert key tid = insert_fuel (max_rb_nodes + 1) key tid

-- The loop of `min`.
unfoldable pub leftmost : ℕ → ℕ → M (ℕ × ℕ × ℕ)
leftmost zero current = out_of_fuel
leftmost (suc fuel) current = do
  node ← load current
  elim (is_valid node.left) [
    | true ↦ leftmost fuel node.left
    | false ↦ return (current, node.tid, node.key)
  ]

-- The node, thread and key of the least entry.
unfoldable pub min : M (Option (ℕ × ℕ × ℕ))
unfolding leftmost
min = do
  root ← get_root
  if not (is_valid root)
      then return none
      else (do found ← leftmost (max_rb_nodes + 1) root; return (some found))

unfoldable pub peek_min_key : M (Option ℕ)
unfolding min
peek_min_key = do found ← min; return (elim found [ none ↦ none | some (id, tid, key) ↦ some key ])
