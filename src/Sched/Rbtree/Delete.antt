-- ===== src/Sched/Rbtree/Delete.antt =====
-- Removal in kernel/src/sched/rbtree.rs: `delete_node`, `transplant`, `fix_delete`, `remove`.
use theory_os.Base.{
  ℕ, zero, suc, Bool, true, false, ◌&&◌, ◌||◌, not, Option, none, some, ◌==◌, if◌then◌else◌,
}
use theory_os.Sched.Rbtree.Store.{
  Color, red, black, is_red, RbNode, is_valid, M, ◌>>=◌, ◌>>◌, return, out_of_fuel, when, load,
  modify, get_root, set_parent, set_color,
}
use theory_os.Sched.Rbtree.Insert.{free_node, rotate_left, rotate_right, relink_left_first}

-- `y` from `z.right` down the left links.
unfoldable pub successor : ℕ → ℕ → M ℕ
successor zero y = out_of_fuel
successor (suc fuel) y = do
  node ← load y
  elim (is_valid node.left) [ true ↦ successor fuel node.left | false ↦ return y ]

-- `transplant`: the copy of `u` over `v` that keeps `v`'s own children, colour, thread and key.
unfoldable pub transplant : ℕ → ℕ → M (Unit {0})
unfolding relink_left_first
transplant u_id v_id = do
  u ← load u_id
  v_node ← load v_id
  modify v_id (λ _. u)
  modify v_id (λ n. record n {
    left = v_node.left;
    right = v_node.right;
    color = v_node.color;
    tid = v_node.tid;
    key = v_node.key;
  })
  v ← load v_id
  when (is_valid v.left) (set_parent v.left v_id)
  when (is_valid v.right) (set_parent v.right v_id)
  relink_left_first u.parent u_id v_id
  set_parent v_id u.parent

unfoldable pub node_color : ℕ → M Color
node_color id = if is_valid id then (do n ← load id; return n.color) else return black

-- `self.nodes[id].color == Color::Red`, for an id that may be invalid.
unfoldable pub red_and_valid : ℕ → M Bool
red_and_valid id = if is_valid id then (do n ← load id; return (is_red n.color)) else return false

-- The sibling `w_id` and the last two cases of a round of `fix_delete`, with the sides as
-- functions: `near` is the side of `x`. The result is the new `x`, or none for `break`.
unfoldable pub fix_sibling :
    (RbNode → ℕ) → (RbNode → ℕ) → (ℕ → M (Unit {0})) → (ℕ → M (Unit {0})) → ℕ → ℕ → ℕ → M (Option ℕ)
unfolding node_color
fix_sibling near far rotate_near rotate_far x_id parent w_id =
    if not (is_valid w_id) then return none else do
      w ← load w_id
      near_color ← node_color (near w)
      far_color ← node_color (far w)
      if not (is_red near_color) && not (is_red far_color)
          then (do set_color w_id red; return (some parent))
          else (do
            w_id' ←
                if not (is_red far_color)
                then (do
                  when (is_valid (near w)) (set_color (near w) black)
                  set_color w_id red
                  rotate_far w_id
                  p ← load parent
                  return (far p))
                else return w_id
            if not (is_valid w_id') then return (some x_id) else (do
              p ← load parent
              set_color w_id' p.color
              set_color parent black
              w' ← load w_id'
              when (is_valid (far w')) (set_color (far w') black)
              rotate_near parent
              root ← get_root
              return (some root)))

-- A round of `fix_delete` on one side: a red sibling is first turned away.
unfoldable pub fix_side :
    (RbNode → ℕ) → (RbNode → ℕ) → (ℕ → M (Unit {0})) → (ℕ → M (Unit {0})) → ℕ → ℕ → M (Option ℕ)
unfolding red_and_valid fix_sibling
fix_side near far rotate_near rotate_far x_id parent = do
  p ← load parent
  let w_id = far p
  w_red ← red_and_valid w_id
  w_id' ←
      if w_red
      then (do
        set_color w_id black
        set_color parent red
        rotate_near parent
        p' ← load parent
        return (far p'))
      else return w_id
  fix_sibling near far rotate_near rotate_far x_id parent w_id'

-- The loop of `fix_delete`; it returns the last `x`.
unfoldable pub fix_delete_loop : ℕ → ℕ → M ℕ
unfolding fix_side node_color rotate_left rotate_right
fix_delete_loop zero x_id = out_of_fuel
fix_delete_loop (suc fuel) x_id = do
  root ← get_root
  x_color ← node_color x_id
  elim (not (x_id == root) && (not (is_valid x_id) || not (is_red x_color))) [
    | false ↦ return x_id
    | true ↦ elim (is_valid x_id) [
      | false ↦ return x_id
      | true ↦ do
        x ← load x_id
        let parent = x.parent
        elim (is_valid parent) [
          | false ↦ return x_id
          | true ↦ do
            p ← load parent
            next ←
                if p.left == x_id
                then fix_side (λ n. n.left) (λ n. n.right) rotate_left rotate_right x_id parent
                else fix_side (λ n. n.right) (λ n. n.left) rotate_right rotate_left x_id parent
            elim next [ none ↦ return x_id | some x_id' ↦ fix_delete_loop fuel x_id' ]
        ]
    ]
  ]

unfoldable pub fix_delete : ℕ → ℕ → M (Unit {0})
unfolding fix_delete_loop
fix_delete fuel x_id = do
  last ← fix_delete_loop fuel x_id
  when (is_valid last) (set_color last black)

-- The choice of `y` at the head of `delete_node`.
unfoldable pub choose : ℕ → ℕ → M ℕ
unfolding successor
choose fuel z_id = do
  z ← load z_id
  if not (is_valid z.left) || not (is_valid z.right) then return z_id else successor fuel z.right

unfoldable pub delete_node : ℕ → ℕ → M (Unit {0})
unfolding choose relink_left_first transplant fix_delete
delete_node fuel z_id = do
  y_id ← choose fuel z_id
  y ← load y_id
  let y_original_black = not (is_red y.color)
  let x_id = if not (is_valid y.left) then y.right else y.left
  when (is_valid x_id) (set_parent x_id y.parent)
  y' ← load y_id
  relink_left_first y'.parent y_id x_id
  when (not (y_id == z_id)) (transplant z_id y_id)
  when y_original_black (fix_delete fuel x_id)

-- `remove`, with the fuel of its loops.
unfoldable pub remove_fuel : ℕ → ℕ → M (Option ℕ)
unfolding delete_node free_node
remove_fuel fuel node_id = if not (is_valid node_id) then return none else do
  node ← load node_id
  if not node.in_use
      then return none
      else (do delete_node fuel node_id; free_node node_id; return (some node.tid))

unfoldable pub remove : ℕ → M (Option ℕ)
unfolding remove_fuel
remove node_id = remove_fuel 1025 node_id
