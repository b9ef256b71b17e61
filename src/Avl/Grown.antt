-- ===== src/Avl/Grown.antt =====
-- The shape of a tree after an insertion.
use fesos.Prelude.{
  ℕ, ◌≡◌, refl, Bool, true, false, ◌||◌, ◌==◌, ◌∙◌, sym, Option, Bool-cases, inl, inr, or_intro,
  exclude_sym, ne→==_false,
}
use fesos.Avl.{Comparison, above}
use fesos.Avl.Tree.{Tree, leaf, node, has, Distinct, refresh, rebalance, insert}
use fesos.Avl.Rep.{has-ne, out_of_node}
use fesos.Avl.Shape.{Measured}
use fesos.Avl.Cases.{has-rebalance, Distinct-rebalance, Measured-rebalance}

or_under_left : (a n l r : Bool) → a || ((n || l) || r) ≡ n || (a || (l || r))
or_under_left true true l r = refl
or_under_left true false l r = refl
or_under_left false true l r = refl
or_under_left false false l r = refl

or_under_right : (a n l r : Bool) → a || (l || (n || r)) ≡ n || (a || (l || r))
or_under_right true true l r = refl
or_under_right true false l r = refl
or_under_right false true true r = refl
or_under_right false true false r = refl
or_under_right false false l r = refl

module _ {Item : Type 0} (recompute : Option Item → Item → Option Item → Item)
    (compare_items : Item → Item → Comparison) where
  -- A tree of one node.
  abbrev pub single : ℕ → ℕ → Bool → Item → Tree Item
  single n e v y = node leaf n e v y leaf

  module _ (n e : ℕ) (v : Bool) (y : Item) where
    pub insert-left :
        (l : Tree Item) (a d : ℕ) (u : Bool) (x : Item) (r : Tree Item)
        → above (compare_items x y) ≡ true
        → insert recompute compare_items (single n e v y) y (node l a d u x r)
          ≡ rebalance recompute (
              refresh recompute
                (node (insert recompute compare_items (single n e v y) y l) a d u x r))
    unfolding insert
    insert-left l a d u x r h = rw h

    pub insert-right :
        (l : Tree Item) (a d : ℕ) (u : Bool) (x : Item) (r : Tree Item)
        → above (compare_items x y) ≡ false
        → insert recompute compare_items (single n e v y) y (node l a d u x r)
          ≡ rebalance recompute (
              refresh recompute
                (node l a d u x (insert recompute compare_items (single n e v y) y r)))
    unfolding insert
    insert-right l a d u x r h = rw h

    pub has-insert :
        (p : ℕ) (t : Tree Item)
        → has p (insert recompute compare_items (single n e v y) y t) ≡ p == n || has p t
    unfolding insert refresh
    has-insert p leaf = refl
    has-insert p (node l a d u x r) = elim (Bool-cases (above (compare_items x y))) [
      | inl h ↦
          let l' = insert recompute compare_items (single n e v y) y l in
          rw h (
            has-rebalance recompute l' a _ u _ r p
            ∙ rw (has-insert p l) (or_under_left (p == a) (p == n) (has p l) (has p r)))
      | inr h ↦
          let r' = insert recompute compare_items (single n e v y) y r in
          rw h (
            has-rebalance recompute l a _ u _ r' p
            ∙ rw (has-insert p r) (or_under_right (p == a) (p == n) (has p l) (has p r)))
    ]

    pub Measured-insert :
        (t : Tree Item)
        → e ≡ 0
        → Measured t
        → Measured (insert recompute compare_items (single n e v y) y t)
    unfolding insert refresh
    Measured-insert leaf zero_depth m = (zero_depth, tt, tt)
    Measured-insert (node l a d u x r) zero_depth (m, ml, mr) =
        elim (Bool-cases (above (compare_items x y))) [
          | inl h ↦
              rw h (
                Measured-rebalance recompute _ a _ u _ r
                  (refl, Measured-insert l zero_depth ml, mr))
          | inr h ↦
              rw h (
                Measured-rebalance recompute l a _ u _ _
                  (refl, ml, Measured-insert r zero_depth mr))
        ]

    -- One child of a node gets a new address.
    pub Distinct-insert_left :
        (l : Tree Item) (a d : ℕ) (u : Bool) (x : Item) (r : Tree Item)
        → has n (node l a d u x r) ≡ false
        → Distinct (insert recompute compare_items (single n e v y) y l)
        → Distinct (node l a d u x r)
        → Distinct (node (insert recompute compare_items (single n e v y) y l) a d u x r)
    Distinct-insert_left l a d u x r out dl' (a_l, a_r, apart, dl, dr) =
        let (n_a, n_l, n_r) = out_of_node n l a d u x r out in
        let a_n = ne→==_false a n (λ q. n_a (sym q)) in
        (
          has-insert a l ∙ or_intro a_n a_l,
          a_r,
          (λ p k.
              exclude_sym (has p r) (has p (insert recompute compare_items (single n e v y) y l))
                (λ q.
                  has-insert p l
                  ∙ or_intro (ne→==_false p n (has-ne r p n q n_r))
                      (exclude_sym (has p l) (has p r) (apart p) q))
                k),
          dl',
          dr,
        )

    pub Distinct-insert_right :
        (l : Tree Item) (a d : ℕ) (u : Bool) (x : Item) (r : Tree Item)
        → has n (node l a d u x r) ≡ false
        → Distinct (insert recompute compare_items (single n e v y) y r)
        → Distinct (node l a d u x r)
        → Distinct (node l a d u x (insert recompute compare_items (single n e v y) y r))
    Distinct-insert_right l a d u x r out dr' (a_l, a_r, apart, dl, dr) =
        let (n_a, n_l, n_r) = out_of_node n l a d u x r out in
        let a_n = ne→==_false a n (λ q. n_a (sym q)) in
        (
          a_l,
          has-insert a r ∙ or_intro a_n a_r,
          (λ p k. has-insert p r ∙ or_intro (ne→==_false p n (has-ne l p n k n_l)) (apart p k)),
          dl,
          dr',
        )

    pub Distinct-insert :
        (t : Tree Item)
        → has n t ≡ false
        → Distinct t
        → Distinct (insert recompute compare_items (single n e v y) y t)
    unfolding insert refresh
    Distinct-insert leaf out distinct = (refl, refl, (λ p h. refl), tt, tt)
    Distinct-insert (node l a d u x r) out distinct =
        let (n_a, n_l, n_r) = out_of_node n l a d u x r out in
        elim (Bool-cases (above (compare_items x y))) [
          | inl h ↦ rw h (
              Distinct-rebalance recompute _ a _ u _ r (
                Distinct-insert_left l a d u x r out (Distinct-insert l n_l (distinct.3)) distinct))
          | inr h ↦ rw h (
              Distinct-rebalance recompute l a _ u _ _ (
                Distinct-insert_right l a d u x r out (Distinct-insert r n_r (distinct.4))
                  distinct))
        ]
