-- ===== src/Avl.antt =====
-- The AVL tree of kernel/x86_64/common/ds/avl.c, pointer write by pointer write.
-- The comparison and the update callback are parameters. A loop or recursion runs on fuel.
-- The -1 that avl_update takes as the depth of a missing child, and the 0 of
-- avl_get_balance_factor, are both 0 here: the model counts levels, one more than the depth.
pub mod Nodes
pub mod Tree
pub mod Rep
pub mod Update
pub mod Focus
pub mod Relink
pub mod Rotate
pub mod Child
pub mod Shape
pub mod Rebalance
pub mod Cases
pub mod Grown
pub mod Insert
pub mod Balanced
pub mod Growth
pub mod Order
pub mod Calls
pub mod Extremes
pub mod Search
pub mod Remove
mod Tests
use fesos.Prelude.{
  ℕ, zero, suc, ◌+◌, ◌-◌, ◌≤◌, Bool, true, false, not, ◌&&◌, Option, none, some, ◌==◌, leb, ltb,
  if◌then◌else◌, max,
}
use Nodes.{
  AvlNode, null, Store, Outcome, done, fault, out_of_fuel, Cmd, pure, after, ◌>>=◌, ◌>>◌, put, load,
  modify, set_parent, set_left, set_right, set_depth,
}

-- The result of a comparison, an `int` of which only the sign is read.
pub data Comparison : Type 0 where
  negative equal positive : Comparison

-- The test `comp_res > 0`.
pub above : Comparison → Bool
above positive = true
above _ = false

-- The difference of two numbers of levels, by sign.
pub data Balance : Type 0 where
  left_heavy : ℕ → Balance
  right_heavy : ℕ → Balance

pub balance_of : ℕ → ℕ → Balance
balance_of l r = if leb r l then left_heavy (l - r) else right_heavy (r - l)

-- The tests that avl_check_and_balance makes of a difference: between -2 and 2, above 0, below 0.
pub within_one : Balance → Bool
within_one (left_heavy n) = ltb n 2
within_one (right_heavy n) = ltb n 2

pub is_positive : Balance → Bool
is_positive (left_heavy n) = ltb 0 n
is_positive (right_heavy n) = false

pub is_negative : Balance → Bool
is_negative (left_heavy n) = false
is_negative (right_heavy n) = ltb 0 n

-- avl_tree_t. No function changes the size.
pub record AvlTree : Type 0 where
  pub root : ℕ
  pub size : ℕ

module _ {Item : Type 0} where
  pub avl_init : ℕ → Bool → Cmd Item (Unit {0})
  avl_init node update_callback = if node == null then pure tt else do
    set_parent node null
    set_left node null
    set_right node null
    set_depth node 0
    modify node (λ n. record n { update = update_callback })

  -- `while (current_node->left) current_node = current_node->left`.
  pub go_left : ℕ → ℕ → Cmd Item ℕ
  go_left zero current_node = λ s. out_of_fuel
  go_left (suc fuel) current_node = do
    n ← load current_node
    elim (n.left == null) [ true ↦ pure current_node | false ↦ go_left fuel n.left ]

  pub go_right : ℕ → ℕ → Cmd Item ℕ
  go_right zero current_node = λ s. out_of_fuel
  go_right (suc fuel) current_node = do
    n ← load current_node
    elim (n.right == null) [ true ↦ pure current_node | false ↦ go_right fuel n.right ]

  pub avl_first : ℕ → AvlTree → Cmd Item ℕ
  unfolding go_left
  avl_first fuel tree = if tree.root == null then pure null else go_left fuel tree.root

  pub avl_last : ℕ → AvlTree → Cmd Item ℕ
  unfolding go_right
  avl_last fuel tree = if tree.root == null then pure null else go_right fuel tree.root

module _ {Item : Type 0} (callback : ℕ → Cmd Item (Unit {0})) where
  pub levels : ℕ → Cmd Item ℕ
  levels p = if p == null then pure 0 else do n ← load p; pure (n.subtree_max_depth + 1)

  pub avl_update : ℕ → Cmd Item (Unit {0})
  unfolding levels
  avl_update node = if node == null then pure tt else do
    n ← load node
    l ← levels n.left
    r ← levels n.right
    set_depth node (max l r)
    if n.update then callback node else pure tt

  pub avl_get_balance_factor : ℕ → Cmd Item Balance
  unfolding levels balance_of
  avl_get_balance_factor node = do
    n ← load node
    l ← levels n.left
    r ← levels n.right
    pure (balance_of l r)

  pub avl_rotate_right : ℕ → Cmd Item ℕ
  avl_rotate_right node = do
    n ← load node
    let new_subtree_root = n.left
    let subtree_parent = n.parent
    child ← load new_subtree_root
    set_left node child.right
    if child.right == null then pure tt else set_parent child.right node
    set_right new_subtree_root node
    set_parent new_subtree_root subtree_parent
    set_parent node new_subtree_root
    top ← load new_subtree_root
    avl_update top.left
    top' ← load new_subtree_root
    avl_update top'.right
    avl_update new_subtree_root
    pure new_subtree_root

  pub avl_rotate_left : ℕ → Cmd Item ℕ
  avl_rotate_left node = do
    n ← load node
    let new_subtree_root = n.right
    let subtree_parent = n.parent
    child ← load new_subtree_root
    set_right node child.left
    if child.left == null then pure tt else set_parent child.left node
    set_left new_subtree_root node
    set_parent new_subtree_root subtree_parent
    set_parent node new_subtree_root
    top ← load new_subtree_root
    avl_update top.left
    top' ← load new_subtree_root
    avl_update top'.right
    avl_update new_subtree_root
    pure new_subtree_root

  pub avl_check_and_balance : ℕ → Cmd Item ℕ
  unfolding within_one is_positive is_negative
  avl_check_and_balance node = do
    balance ← avl_get_balance_factor node
    if within_one balance then pure node else do
      n ← load node
      if is_positive balance
          then (do
            left_balance ← avl_get_balance_factor n.left
            if is_positive left_balance then avl_rotate_right node else do
              turned ← avl_rotate_left n.left
              set_left node turned
              avl_rotate_right node)
          else (do
            right_balance ← avl_get_balance_factor n.right
            if is_negative right_balance then avl_rotate_left node else do
              turned ← avl_rotate_right n.right
              set_right node turned
              avl_rotate_left node)

  pub avl_bubble_loop : ℕ → ℕ → Cmd Item ℕ
  avl_bubble_loop zero node = λ s. out_of_fuel
  avl_bubble_loop (suc fuel) node = do
    avl_update node
    top ← avl_check_and_balance node
    t ← load top
    elim (t.parent == null) [
      | true ↦ pure top
      | false ↦ do
        p ← load t.parent
        if node == p.left then set_left t.parent top else set_right t.parent top
        avl_bubble_loop fuel t.parent
    ]

  pub avl_bubble_update_and_balance : ℕ → ℕ → Cmd Item ℕ
  unfolding avl_bubble_loop
  avl_bubble_update_and_balance fuel node =
      if node == null then pure null else avl_bubble_loop fuel node

  module _ (comp : ℕ → ℕ → Cmd Item Comparison) where
    pub avl_insert_rec : ℕ → ℕ → ℕ → Cmd Item ℕ
    avl_insert_rec zero root node_to_insert = λ s. out_of_fuel
    avl_insert_rec (suc fuel) root node_to_insert = do
      set_parent node_to_insert root
      comp_res ← comp root node_to_insert
      r ← load root
      elim (above comp_res) [
        | true ↦ elim (r.left == null) [
          | true ↦ do set_left root node_to_insert; set_parent node_to_insert root
          | false ↦ do below ← avl_insert_rec fuel r.left node_to_insert; set_left root below
        ]
        | false ↦ elim (r.right == null) [
          | true ↦ do set_right root node_to_insert; set_parent node_to_insert root
          | false ↦ do below ← avl_insert_rec fuel r.right node_to_insert; set_right root below
        ]
      ]
      avl_update root
      avl_check_and_balance root

    pub avl_insert : ℕ → AvlTree → ℕ → Cmd Item AvlTree
    unfolding avl_insert_rec
    avl_insert fuel tree node_to_insert =
        if tree.root == null then pure (record tree { root = node_to_insert }) else do
          new_root ← avl_insert_rec fuel tree.root node_to_insert
          pure (record tree { root = new_root })

    unfoldable pub avl_get_node_rec : ℕ → ℕ → ℕ → Cmd Item ℕ
    avl_get_node_rec zero root key = λ s. out_of_fuel
    avl_get_node_rec (suc fuel) root key = if root == null then pure null else do
      comp_ans ← comp root key
      r ← load root
      elim comp_ans [
        | equal ↦ pure root
        | positive ↦ avl_get_node_rec fuel r.left key
        | negative ↦ avl_get_node_rec fuel r.right key
      ]

    unfoldable pub avl_get_node : ℕ → AvlTree → ℕ → Cmd Item ℕ
    unfolding avl_get_node_rec
    avl_get_node fuel tree key =
        if tree.root == null then pure null else avl_get_node_rec fuel tree.root key
