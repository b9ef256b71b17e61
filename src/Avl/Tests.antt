-- ===== src/Avl/Tests.antt =====
-- Areas of memory in a tree, each with the largest size in its subtree: node 1 with key 10, its
-- right child 2 with key 20, and outside the tree node 3 with key 30 and node 4 with key 30.
use fesos.Prelude.{
  ℕ, ◌≡◌, ◌≢◌, refl, true, false, ◌==◌, if◌then◌else◌, max, arith, Option, none, some,
}
use fesos.Avl.{
  AvlTree, Comparison, above, avl_init, avl_insert, avl_get_node, avl_update, avl_check_and_balance,
  avl_get_balance_factor, avl_rotate_left, avl_first, avl_last,
}
use fesos.Avl.Nodes.{Store, Outcome, done, fault, out_of_fuel, Cmd, put, load, modify, ◌>>◌}
use fesos.Avl.Tree.{Tree, leaf, node}
use fesos.Avl.Rep.{Ends}
use fesos.Avl.Update.{child_item}
use fesos.Avl.Order.{by_order}
use fesos.Avl.Search.{Found}
use fesos.Avl.Extremes.{avl_first-avl_last}
use fesos.Avl.Calls.{
  IsTree, Client, Inserted, insert_and_get, avl_insert-Inserted, avl_get_node-Found,
  avl_get_node-avl_insert,
}

record Area : Type 0 where
  start : ℕ
  size : ℕ
  largest : ℕ

largest_of : Option Area → ℕ
largest_of none = 0
largest_of (some x) = x.largest

recompute : Option Area → Area → Option Area → Area
recompute l x r = record x { largest = max x.size (max (largest_of l) (largest_of r)) }

callback : ℕ → Cmd Area (Unit {0})
callback a s = done tt (
    put s a (record (s a) {
      item = recompute (child_item s (s a).left) (s a).item (child_item s (s a).right);
    }))

comp : ℕ → ℕ → Cmd Area Comparison
comp a b s = done (by_order (s a).item.start (s b).item.start) s

area : ℕ → ℕ → Area
area a n = record { start = a; size = n; largest = n }

abbrev store : Store Area
store p =
    if p == 1
    then record {
      parent = 0;
      left = 0;
      right = 2;
      subtree_max_depth = 1;
      update = true;
      item = record { start = 10; size = 5; largest = 6 };
    }
    else if p == 2
    then record {
      parent = 1;
      left = 0;
      right = 0;
      subtree_max_depth = 0;
      update = true;
      item = record { start = 20; size = 6; largest = 6 };
    }
    else record {
      parent = 9;
      left = 9;
      right = 9;
      subtree_max_depth = 9;
      update = false;
      item = record { start = 30; size = 7; largest = 0 };
    }

abbrev areas : AvlTree
areas = record { root = 1; size = 0 }

abbrev two_areas : Tree Area
two_areas =
    node leaf 1 1 true (record { start = 10; size = 5; largest = 6 })
      (node leaf 2 0 true (record { start = 20; size = 6; largest = 6 }) leaf)

client_of : Client Area.start callback recompute comp (λ x y. by_order x.start y.start)
unfolding callback recompute comp
client_of = record {
  local = λ s a ne. refl;
  same_key = λ l x r. refl;
  comparison = λ s a b na nb. refl;
  by_key = λ x y. refl;
}

two_areas-IsTree : IsTree Area.start store areas two_areas
two_areas-IsTree = record {
  top = refl;
  rep = ((λ q. omega arith), refl, tt, ((λ q. omega arith), refl, tt, tt));
  distinct = (refl, refl, (λ p h. absurd (false_true h)), tt, (refl, refl, (λ p h. refl), tt, tt));
  measured = (refl, tt, (refl, tt, tt));
  balanced = (omega arith, omega arith, tt, (omega arith, omega arith, tt, tt));
  sorted = ((omega arith, tt), (tt, tt));
}
  where
    false_true : false ≡ true → ⊥
    false_true h = ground arith

root_of : Outcome Area AvlTree → ℕ
root_of (done tree s) = tree.root
root_of fault = 90
root_of out_of_fuel = 91

largest_at : Outcome Area AvlTree → ℕ → ℕ
largest_at (done tree s) p = (s p).item.largest
largest_at fault p = 90
largest_at out_of_fuel p = 91

-- The third node is right of the right child, so that the tree turns to the left.
inserted : Outcome Area AvlTree
inserted = (do avl_init 3 true; avl_insert callback comp 2 areas 3) store

insert_turns : root_of inserted ≡ 2
unfolding root_of inserted avl_init avl_insert callback comp recompute by_order modify load above
    put avl_update avl_check_and_balance avl_get_balance_factor avl_rotate_left
insert_turns = refl

insert_updates : largest_at inserted 2 ≡ 7
unfolding largest_at largest_of inserted avl_init avl_insert callback comp recompute by_order modify
    load above put avl_update avl_check_and_balance avl_get_balance_factor avl_rotate_left
insert_updates = refl

avl_insert-Inserted_example :
    Ends
      (Inserted Area.start callback recompute comp
        (λ x y. by_order x.start y.start)
        client_of
        store
        0
        two_areas
        3)
      ((do avl_init 3 true; avl_insert callback comp 2 areas 3) store)
avl_insert-Inserted_example =
    avl_insert-Inserted Area.start callback recompute comp (λ x y. by_order x.start y.start)
      client_of 2 store areas two_areas 3 true two_areas-IsTree (λ q. omega arith) refl
      (omega arith)

avl_get_node-Found_example :
    Found Area.start callback comp
      (λ x y. by_order x.start y.start)
      client_of.comparison
      client_of.by_key
      store
      30
      two_areas
      (avl_get_node callback comp 3 areas 3 store)
avl_get_node-Found_example =
    avl_get_node-Found Area.start callback recompute comp (λ x y. by_order x.start y.start)
      client_of 3 store areas two_areas 3 two_areas-IsTree (λ q. omega arith) (omega arith)

avl_get_node-avl_insert_example :
    Ends
      (λ (p : ℕ) (s' : Store Area). (p ≢ 0) × ((s' p).item.start ≡ 30))
      (insert_and_get Area.start callback recompute comp
        (λ x y. by_order x.start y.start)
        client_of
        2
        areas
        3
        true
        4
        store)
avl_get_node-avl_insert_example =
    avl_get_node-avl_insert Area.start callback recompute comp (λ x y. by_order x.start y.start)
      client_of 2 store areas two_areas 3 true 4 two_areas-IsTree (λ q. omega arith) refl
      (omega arith) (λ q. omega arith) (λ q. omega arith) refl refl

avl_first-avl_last_example :
    (avl_first 2 areas store ≡ done 1 store) × (avl_last 2 areas store ≡ done 2 store)
avl_first-avl_last_example =
    avl_first-avl_last Area.start 2 store areas two_areas two_areas-IsTree (omega arith)
