-- ===== src/Avl/Remove.antt =====
-- avl_get_predecessor, avl_get_successor, avl_next, avl_prev and avl_remove of
-- kernel/x86_64/common/ds/avl.c, on the nodes of Avl/Nodes.
pub mod Root
mod Tests
use fesos.Prelude.{ℕ, zero, suc, Bool, true, false, ◌&&◌, ◌==◌, if◌then◌else◌}
use fesos.Avl.{AvlTree, go_left, go_right, avl_bubble_update_and_balance}
use fesos.Avl.Nodes.{
  AvlNode, null, Store, Outcome, done, fault, out_of_fuel, Cmd, pure, after, ◌>>=◌, ◌>>◌, put, load,
  modify, set_parent, set_left, set_right,
}

module _ {Item : Type 0} where
  -- `while (p != NULL && curr == p->child)`, which goes up and gives the last `p`.
  pub climb : (AvlNode Item → ℕ) → ℕ → ℕ → ℕ → Cmd Item ℕ
  climb child zero curr p = λ s. out_of_fuel
  climb child (suc fuel) curr p = elim (p == null) [
    | true ↦ pure null
    | false ↦ do
      n ← load p
      elim (curr == child n) [ true ↦ climb child fuel p n.parent | false ↦ pure p ]
  ]

  pub avl_get_predecessor : ℕ → ℕ → Cmd Item ℕ
  unfolding go_right climb
  avl_get_predecessor fuel node = do
    n ← load node
    if n.left == null then climb (λ p. p.left) fuel node n.parent else go_right fuel n.left

  pub avl_get_successor : ℕ → ℕ → Cmd Item ℕ
  unfolding go_left climb
  avl_get_successor fuel node = do
    n ← load node
    if n.right == null then climb (λ p. p.right) fuel node n.parent else go_left fuel n.right

  pub avl_next : ℕ → ℕ → Cmd Item ℕ
  unfolding avl_get_successor
  avl_next fuel node = if node == null then pure null else avl_get_successor fuel node

  pub avl_prev : ℕ → ℕ → Cmd Item ℕ
  unfolding avl_get_predecessor
  avl_prev fuel node = if node == null then pure null else avl_get_predecessor fuel node

  -- The child link of `parent` that leads to `node` now leads to `child`.
  pub replace_child : ℕ → ℕ → ℕ → Cmd Item (Unit {0})
  replace_child parent node child = do
    p ← load parent
    if p.left == node then set_left parent child else set_right parent child

  -- The three types of deletion give the tree and the node to update from.
  pub remove_leaf : AvlTree → ℕ → Cmd Item (AvlTree × ℕ)
  unfolding replace_child
  remove_leaf tree node_to_remove = do
    n ← load node_to_remove
    if n.parent == null
        then pure (record tree { root = null }, null)
        else (do replace_child n.parent node_to_remove null; pure (tree, n.parent))

  pub remove_one_child : AvlTree → ℕ → Cmd Item (AvlTree × ℕ)
  unfolding replace_child
  remove_one_child tree node_to_remove = do
    n ← load node_to_remove
    let child = if n.left == null then n.right else n.left
    set_parent child n.parent
    let tree' = if n.parent == null then record tree { root = child } else tree
    replace_child n.parent node_to_remove child
    pure (tree', n.parent)

  -- The victim takes the place of the node.
  pub replace_node : ℕ → ℕ → Cmd Item (Unit {0})
  replace_node node_to_remove victim_node = do
    n ← load node_to_remove
    set_left victim_node n.left
    set_parent n.left victim_node
    n' ← load node_to_remove
    set_right victim_node n'.right
    set_parent n'.right victim_node
    n'' ← load node_to_remove
    set_parent victim_node n''.parent

module _ {Item : Type 0} (callback : ℕ → Cmd Item (Unit {0})) where
  pub avl_remove : ℕ → AvlTree → ℕ → Cmd Item AvlTree
  unfolding remove_leaf remove_one_child replace_node avl_get_successor
      avl_bubble_update_and_balance
  avl_remove zero tree node_to_remove = λ s. out_of_fuel
  avl_remove (suc fuel) tree node_to_remove = if tree.root == null then pure tree else do
    n ← load node_to_remove
    (tree', node_to_update) ← elim (n.left == null && n.right == null) [
      | true ↦ remove_leaf tree node_to_remove
      | false ↦ elim (n.left == null) [
        | true ↦ remove_one_child tree node_to_remove
        | false ↦ elim (n.right == null) [
          | true ↦ remove_one_child tree node_to_remove
          | false ↦ do
            victim_node ← avl_get_successor fuel node_to_remove
            below ← avl_remove fuel tree victim_node
            replace_node node_to_remove victim_node
            pure (below, victim_node)
        ]
      ]
    ]
    new_root ← avl_bubble_update_and_balance callback fuel node_to_update
    pure (record tree' { root = new_root })
