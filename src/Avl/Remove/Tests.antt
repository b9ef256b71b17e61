-- ===== src/Avl/Remove/Tests.antt =====
-- Steps and removals in the tree of the nodes 1 to 3, with 2 at the root.
use fesos.Prelude.{ℕ, ◌≡◌, refl, arith, false, ◌==◌, if◌then◌else◌, inr}
use fesos.Avl.{
  AvlTree, go_left, go_right, levels, balance_of, within_one, avl_update, avl_get_balance_factor,
  avl_check_and_balance, avl_bubble_loop, avl_bubble_update_and_balance,
}
use fesos.Avl.Nodes.{AvlNode, Store, Outcome, done, fault, out_of_fuel, Cmd, put, load, modify}
use fesos.Avl.Remove.{
  climb, avl_get_predecessor, avl_get_successor, avl_next, avl_prev, replace_child, remove_leaf,
  replace_node, avl_remove,
}
use fesos.Avl.Remove.Root.{avl_remove_faults}

abbrev leaf_of : ℕ → AvlNode ℕ
leaf_of p = record {
  parent = p;
  left = 0;
  right = 0;
  subtree_max_depth = 0;
  update = false;
  item = 0;
}

abbrev store : Store ℕ
store p =
    if p == 2
    then record { parent = 0; left = 1; right = 3; subtree_max_depth = 1; update = false; item = 0 }
    else leaf_of 2

-- The root 2 with the child 1 only.
abbrev short_store : Store ℕ
short_store p =
    if p == 2
    then record { parent = 0; left = 1; right = 0; subtree_max_depth = 1; update = false; item = 0 }
    else leaf_of 2

abbrev tree : AvlTree
tree = record { root = 2; size = 0 }

abbrev callback : ℕ → Cmd ℕ (Unit {0})
callback a s = done tt s

value_of : Outcome ℕ ℕ → ℕ
value_of (done a s) = a
value_of fault = 100
value_of out_of_fuel = 101

root_of : Outcome ℕ AvlTree → ℕ
root_of (done t s) = t.root
root_of fault = 100
root_of out_of_fuel = 101

next_of_first : value_of (avl_next 5 1 store) ≡ 2
unfolding value_of avl_next avl_get_successor climb load
next_of_first = refl

previous_of_root : value_of (avl_prev 5 2 store) ≡ 1
unfolding value_of avl_prev avl_get_predecessor go_right climb load
previous_of_root = refl

next_of_last : value_of (avl_next 5 3 store) ≡ 0
unfolding value_of avl_next avl_get_successor climb load
next_of_last = refl

remove_last : root_of (avl_remove callback 9 tree 3 store) ≡ 2
unfolding root_of avl_remove remove_leaf replace_child load modify put avl_bubble_update_and_balance
    avl_bubble_loop avl_update levels avl_check_and_balance avl_get_balance_factor balance_of
    within_one
remove_last = refl

-- A root with two leaves: the removal of its successor leaves it without a right child, and the
-- write to the parent of that child is through NULL.
remove_root : root_of (avl_remove callback 9 tree 2 store) ≡ 100
unfolding root_of avl_remove remove_leaf replace_node avl_get_successor go_left replace_child load
    modify put avl_bubble_update_and_balance avl_bubble_loop avl_update levels avl_check_and_balance
    avl_get_balance_factor balance_of within_one
remove_root = refl

avl_remove_faults_example : avl_remove callback 9 tree 2 short_store ≡ fault
avl_remove_faults_example =
    avl_remove_faults callback 8 tree 2 short_store (λ e. absurd (omega arith))
      (λ e. absurd (omega arith)) refl (inr ((λ e. absurd (omega arith)), refl))
