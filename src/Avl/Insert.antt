-- ===== src/Avl/Insert.antt =====
-- avl_insert refines insert.
mod Place
use fesos.Prelude.{
  ℕ, zero, suc, ◌≤◌, ◌≡◌, ◌≢◌, refl, Bool, true, false, ◌==◌, arith, Option, ◌∙◌, ne→==_false, sym,
  ap, max, Bool-cases, inl, inr, or_intro, or_false, exclude_sym, ==_false→ne,
}
use fesos.Avl.{Comparison, above, avl_update, avl_check_and_balance, avl_insert_rec}
use fesos.Avl.Nodes.{
  AvlNode, Store, done, Cmd, put, modify, null, set_left, set_right, set_parent, ◌>>=◌, ◌>>◌,
}
use fesos.Avl.Tree.{Tree, leaf, node, root, height, has, Distinct, refresh, rebalance, insert}
use fesos.Avl.Rep.{
  linked, Rep, SameOutside, Leaves, Becomes, frame, out_of_node, Ends, ends, then-Ends, weaken,
}
use fesos.Avl.Update.{IsLocal, load-Rep, put_same, put_other, put_id, frame_put, avl_update-refresh}
use fesos.Avl.Focus.{Distinct-refresh}
use fesos.Avl.Child.{attach_left, attach_right}
use fesos.Avl.Shape.{Measured}
use fesos.Avl.Cases.{has-rebalance-refresh}
use fesos.Avl.Rebalance.{avl_check_and_balance-rebalance}
use fesos.Avl.Grown.{
  single, insert-left, insert-right, has-insert, Distinct-insert, Distinct-insert_left,
  Distinct-insert_right, Measured-insert,
}
use Place.{inserted, place_left, place_right}

module _ {Item : Type 0} where
  -- The comparison reads the items of two nodes and changes nothing.
  abbrev pub IsComparison : (ℕ → ℕ → Cmd Item Comparison) → (Item → Item → Comparison) → Type 0
  IsComparison comp compare_items =
      (s : Store Item) (a b : ℕ)
      → a ≢ 0
      → b ≢ 0
      → comp a b s ≡ done (compare_items (s a).item (s b).item) s

module _ {Item : Type 0} (callback : ℕ → Cmd Item (Unit {0}))
    (recompute : Option Item → Item → Option Item → Item) (local : IsLocal callback recompute) where
  -- A node whose children are right is updated and balanced.
  pub update_and_balance :
      (s : Store Item) (par : ℕ) (l : Tree Item) (a d : ℕ) (u : Bool) (x : Item) (r : Tree Item)
      → let t = node l a d u x r in
        Rep s par t
        → Distinct t
        → Measured l
        → Measured r
        → Becomes s par t
            (rebalance recompute (refresh recompute t))
            ((avl_update callback a >> avl_check_and_balance callback a) s)
  unfolding refresh
  update_and_balance s par l a d u x r rep distinct ml mr =
      let t = node l a d u x r in
      then-Ends (avl_update-refresh callback recompute local s par t rep distinct)
        λ _ s1 (rep1, same1).
          weaken
            (avl_check_and_balance-rebalance callback recompute local s1 par l a _ u _ r rep1
              (Distinct-refresh recompute t distinct) ml mr)
            λ p s2 (top, rep2, same2). (top, rep2, λ k h. same2 k h ∙ same1 k h)

  module _ (comp : ℕ → ℕ → Cmd Item Comparison) (compare_items : Item → Item → Comparison) where
    -- The rest of a call, after the child is set.
    finish_left :
        (s s1 : Store Item) (par : ℕ) (l : Tree Item) (a d : ℕ) (u : Bool) (x : Item)
        (r : Tree Item) (n : ℕ) (v : Bool) (y : Item)
        → Distinct (node l a d u x r)
        → Measured (node l a d u x r)
        → has n (node l a d u x r) ≡ false
        → above (compare_items x y) ≡ true
        → let t = node (inserted recompute compare_items n v y l) a d u x r in
          Rep s1 par t
          → SameOutside t (put s n (record (s n) { parent = a })) s1
          → Leaves s par
              (inserted recompute compare_items n v y (node l a d u x r))
              ((avl_update callback a >> avl_check_and_balance callback a) s1)
    finish_left s s1 par l a d u x r n v y distinct (m, ml, mr) out h rep1 same1 =
        let l' = inserted recompute compare_items n v y l in
        let out_l = (out_of_node n l a d u x r out).1 in
        let distinct' =
          Distinct-insert_left recompute compare_items n 0 v y l a d u x r out
            (Distinct-insert recompute compare_items n 0 v y l out_l (distinct.3)) distinct in
        rw (insert-left recompute compare_items n 0 v y l a d u x r h) (
          weaken
            (update_and_balance s1 par l' a d u x r rep1 distinct'
              (Measured-insert recompute compare_items n 0 v y l refl ml) mr)
            λ p s2 (top, rep2, same2). (
              top,
              rep2,
              λ k g.
                  let g' : has k (node l' a d u x r) ≡ false =
                    sym (has-rebalance-refresh recompute l' a d u x r k) ∙ g in
                  let k_l = (out_of_node k l' a d u x r g').1 in
                  let k_n =
                    (or_false (k == n) (has k l)
                      (sym (has-insert recompute compare_items n 0 v y k l) ∙ k_l)).0 in
                  same2 k g' ∙ same1 k g' ∙ put_other s n k _ (==_false→ne k n k_n),
            ))

    finish_right :
        (s s1 : Store Item) (par : ℕ) (l : Tree Item) (a d : ℕ) (u : Bool) (x : Item)
        (r : Tree Item) (n : ℕ) (v : Bool) (y : Item)
        → Distinct (node l a d u x r)
        → Measured (node l a d u x r)
        → has n (node l a d u x r) ≡ false
        → above (compare_items x y) ≡ false
        → let t = node l a d u x (inserted recompute compare_items n v y r) in
          Rep s1 par t
          → SameOutside t (put s n (record (s n) { parent = a })) s1
          → Leaves s par
              (inserted recompute compare_items n v y (node l a d u x r))
              ((avl_update callback a >> avl_check_and_balance callback a) s1)
    finish_right s s1 par l a d u x r n v y distinct (m, ml, mr) out h rep1 same1 =
        let r' = inserted recompute compare_items n v y r in
        let out_r = (out_of_node n l a d u x r out).2 in
        let distinct' =
          Distinct-insert_right recompute compare_items n 0 v y l a d u x r out
            (Distinct-insert recompute compare_items n 0 v y r out_r (distinct.4)) distinct in
        rw (insert-right recompute compare_items n 0 v y l a d u x r h) (
          weaken
            (update_and_balance s1 par l a d u x r' rep1 distinct' ml
              (Measured-insert recompute compare_items n 0 v y r refl mr))
            λ p s2 (top, rep2, same2). (
              top,
              rep2,
              λ k g.
                  let g' : has k (node l a d u x r') ≡ false =
                    sym (has-rebalance-refresh recompute l a d u x r' k) ∙ g in
                  let k_r = (out_of_node k l a d u x r' g').2 in
                  let k_n =
                    (or_false (k == n) (has k r)
                      (sym (has-insert recompute compare_items n 0 v y k r) ∙ k_r)).0 in
                  same2 k g' ∙ same1 k g' ∙ put_other s n k _ (==_false→ne k n k_n),
            ))

    pub avl_insert_rec-insert :
        IsComparison comp compare_items
        → (fuel : ℕ) (s : Store Item) (par : ℕ) (t : Tree Item) (n old : ℕ) (v : Bool) (y : Item)
        → Rep s par t
        → Distinct t
        → Measured t
        → root t ≢ 0
        → n ≢ 0
        → has n t ≡ false
        → s n ≡ linked old leaf 0 v y leaf
        → height t ≤ fuel
        → Leaves s par
            (inserted recompute compare_items n v y t)
            (avl_insert_rec callback comp fuel (root t) n s)
    unfolding avl_insert_rec modify
    avl_insert_rec-insert comparison fuel s par leaf n old v y rep distinct m nr nn out here_n
          enough =
        absurd (nr refl)
    avl_insert_rec-insert comparison zero s par (node l a d u x r) n old v y rep distinct m nr nn
          out here_n enough =
        absurd (omega arith)
    avl_insert_rec-insert comparison (suc fuel) s par (node l a d u x r) n old v y rep distinct m nr
          nn out here_n enough =
        let t = node l a d u x r in
        let s0 = put s n (record (s n) { parent = a }) in
        let rep0 = frame_put s par n (record (s n) { parent = a }) t out rep in
        let here0 : s0 n ≡ linked a leaf 0 v y leaf =
          put_same s n (record (s n) { parent = a })
          ∙ ap (λ (k : AvlNode Item). record k { parent = a }) here_n in
        let (n_a, n_l, n_r) = out_of_node n l a d u x r out in
        let depth : d ≡ max (height l) (height r) = m.0 in
        let enough_l : height l ≤ fuel = grind arith in
        let enough_r : height r ≤ fuel = grind arith in
        rw (ne→==_false n 0 nn, comparison s0 a n nr nn)
          (rw (load-Rep s0 par l a d u x r rep0, rep0.1, here0)
            (elim (Bool-cases (above (compare_items x y))) [
              | inl h ↦ rw h (
                  then-Ends
                    (place_left callback recompute comp compare_items fuel s0 par l a d u x r n v y
                      rep0 distinct nn out here0
                      (λ ne.
                        avl_insert_rec-insert comparison fuel s0 a l n a v y (rep0.2) (distinct.3)
                          (m.1) ne nn n_l here0 enough_l))
                    λ _ s1 (rep1, same1).
                      finish_left s s1 par l a d u x r n v y distinct m out h rep1 same1)
              | inr h ↦ rw h (
                  then-Ends
                    (place_right callback recompute comp compare_items fuel s0 par l a d u x r n v y
                      rep0 distinct nn out here0
                      (λ ne.
                        avl_insert_rec-insert comparison fuel s0 a r n a v y (rep0.3) (distinct.4)
                          (m.2) ne nn n_r here0 enough_r))
                    λ _ s1 (rep1, same1).
                      finish_right s s1 par l a d u x r n v y distinct m out h rep1 same1)
            ]))
