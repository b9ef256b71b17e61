-- ===== src/Avl/Tree.antt =====
-- Trees as values: what a linked AVL tree stands for, and what the functions of avl.c make of it.
use fesos.Prelude.{
  ℕ, ◌+◌, ◌≡◌, Bool, true, false, ◌||◌, ◌==◌, if◌then◌else◌, max, Option, none, some,
}
use fesos.Avl.{
  Comparison, above, Balance, left_heavy, balance_of, within_one, is_positive, is_negative,
}

-- A node has its address, its depth field, whether it has a callback, and its item.
pub data Tree (Item : Type 0) : Type 0 where
  leaf : Tree Item
  node : Tree Item → ℕ → ℕ → Bool → Item → Tree Item → Tree Item

module _ {Item : Type 0} where
  abbrev pub root : Tree Item → ℕ
  root leaf = 0
  root (node l a d u x r) = a

  -- The number of levels, as the depth field of the root says.
  abbrev pub height : Tree Item → ℕ
  height leaf = 0
  height (node l a d u x r) = d + 1

  abbrev pub item? : Tree Item → Option Item
  item? leaf = none
  item? (node l a d u x r) = some x

  abbrev pub has : ℕ → Tree Item → Bool
  has p leaf = false
  has p (node l a d u x r) = p == a || (has p l || has p r)

  -- No address stands in two places.
  abbrev pub Distinct : Tree Item → Type 0
  Distinct leaf = Unit {0}
  Distinct (node l a d u x r) =
      (has a l ≡ false)
      × (has a r ≡ false)
      × ((p : ℕ) → has p l ≡ true → has p r ≡ false)
      × Distinct l
      × Distinct r

  -- The left height over the right one.
  unfoldable pub tilt : Tree Item → Balance
  unfolding balance_of
  tilt leaf = left_heavy 0
  tilt (node l a d u x r) = balance_of (height l) (height r)

-- `recompute` is what the callback makes of an item and the items of its children.
module _ {Item : Type 0} (recompute : Option Item → Item → Option Item → Item) where
  unfoldable pub refresh : Tree Item → Tree Item
  refresh leaf = leaf
  refresh (node l a d u x r) =
      node l a (max (height l) (height r)) u (if u then recompute (item? l) x (item? r) else x) r

  unfoldable pub rotate_right : Tree Item → Tree Item
  unfolding refresh
  rotate_right leaf = leaf
  rotate_right (node leaf a d u x r) = node leaf a d u x r
  rotate_right (node (node ll b e v y lr) a d u x r) =
      refresh (node (refresh ll) b e v y (refresh (node lr a d u x r)))

  unfoldable pub rotate_left : Tree Item → Tree Item
  unfolding refresh
  rotate_left leaf = leaf
  rotate_left (node l a d u x leaf) = node l a d u x leaf
  rotate_left (node l a d u x (node rl b e v y rr)) =
      refresh (node (refresh (node l a d u x rl)) b e v y (refresh rr))

  unfoldable pub rebalance : Tree Item → Tree Item
  unfolding rotate_right rotate_left tilt within_one is_positive is_negative
  rebalance leaf = leaf
  rebalance (node l a d u x r) =
      let t = node l a d u x r in
      if within_one (tilt t)
      then t
      else if is_positive (tilt t)
      then if is_positive (tilt l)
        then rotate_right t
        else rotate_right (node (rotate_left l) a d u x r)
      else if is_negative (tilt r)
      then rotate_left t
      else rotate_left (node l a d u x (rotate_right r))

  module _ (compare_items : Item → Item → Comparison) where
    -- `new` is the node to insert, a tree of one node.
    unfoldable pub insert : Tree Item → Item → Tree Item → Tree Item
    unfolding rebalance
    insert new y leaf = new
    insert new y (node l a d u x r) = rebalance (
        refresh (elim (above (compare_items x y)) [
          | true ↦ node (insert new y l) a d u x r
          | false ↦ node l a d u x (insert new y r)
        ]))
