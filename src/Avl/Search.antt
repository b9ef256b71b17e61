-- ===== src/Avl/Search.antt =====
-- avl_get_node finds a node with the key, or there is none.
use fesos.Prelude.{
  ℕ, zero, suc, ◌<◌, ◌≡◌, ◌≢◌, refl, Bool, true, ◌||◌, ◌==◌, arith, ◌∷◌, ◌⊎◌, ne→==_false, max, inl,
  inr, or_left, or_right, ==_refl,
}
use fesos.Avl.{Comparison, avl_get_node_rec}
use fesos.Avl.Nodes.{Store, Outcome, Cmd}
use fesos.Avl.Tree.{Tree, leaf, node, root, height, has}
use fesos.Avl.Rep.{Rep, Ends, ends, weaken}
use fesos.Avl.Update.{load-Rep}
use fesos.Avl.Shape.{Measured}
use fesos.Avl.Insert.{IsComparison}
use fesos.Avl.Order.{keys, by_order, by_order-cases}
use fesos.Avl.Order.Lists.{
  IsSorted, IsSorted-first, IsSorted-second, Absent, Absent-left, Absent-right,
}

module _ {Item : Type 0} (key : Item → ℕ) (callback : ℕ → Cmd Item (Unit {0}))
    (comp : ℕ → ℕ → Cmd Item Comparison) (compare_items : Item → Item → Comparison)
    (comparison : IsComparison comp compare_items)
    (by_key : (x y : Item) → compare_items x y ≡ by_order (key x) (key y)) where
  -- A search returns a node of the tree that has the key, or NULL if no node has it, and changes
  -- nothing.
  abbrev pub Found : Store Item → ℕ → Tree Item → Outcome Item ℕ → Type 0
  Found s k t o =
      Ends
        (λ p s'.
          (s' ≡ s)
          × (((p ≡ 0) × Absent k (keys key t)) ⊎ ((has p t ≡ true) × (key (s p).item ≡ k))))
        o

  Found-left :
      (s : Store Item) (k : ℕ) (l : Tree Item) (a d : ℕ) (u : Bool) (x : Item) (r : Tree Item)
      (o : Outcome Item ℕ)
      → k < key x
      → IsSorted (keys key (node l a d u x r))
      → Found s k l o
      → Found s k (node l a d u x r) o
  Found-left s k l a d u x r o lt sorted found = weaken found (λ p s' (same, result). (
    same,
    elim result [
      | inl (none_found, absent) ↦
          inl (none_found, Absent-left k (key x) (keys key l) (keys key r) lt sorted absent)
      | inr (here, e) ↦ inr (or_right (p == a) (or_left (has p r) here), e)
    ],
  ))

  Found-right :
      (s : Store Item) (k : ℕ) (l : Tree Item) (a d : ℕ) (u : Bool) (x : Item) (r : Tree Item)
      (o : Outcome Item ℕ)
      → key x < k
      → IsSorted (keys key (node l a d u x r))
      → Found s k r o
      → Found s k (node l a d u x r) o
  Found-right s k l a d u x r o lt sorted found = weaken found (λ p s' (same, result). (
    same,
    elim result [
      | inl (none_found, absent) ↦
          inl (none_found, Absent-right k (key x) (keys key l) (keys key r) lt sorted absent)
      | inr (here, e) ↦ inr (or_right (p == a) (or_right (has p l) here), e)
    ],
  ))

  pub avl_get_node_rec-Found :
      (fuel : ℕ) (s : Store Item) (par : ℕ) (t : Tree Item) (n : ℕ)
      → Rep s par t
      → Measured t
      → IsSorted (keys key t)
      → n ≢ 0
      → height t < fuel
      → Found s (key (s n).item) t (avl_get_node_rec callback comp fuel (root t) n s)
  unfolding avl_get_node_rec
  avl_get_node_rec-Found zero s par t n rep m sorted nn enough = absurd (omega arith)
  avl_get_node_rec-Found (suc fuel) s par leaf n rep m sorted nn enough =
      ends (refl, inl (refl, tt))
  avl_get_node_rec-Found (suc fuel) s par (node l a d u x r) n rep m sorted nn enough =
      let y = (s n).item in
      let depth : d ≡ max (height l) (height r) = m.0 in
      let enough_l : height l < fuel = grind arith in
      let enough_r : height r < fuel = grind arith in
      rw (ne→==_false a 0 (rep.0), comparison s a n (rep.0) nn)
        (rw (load-Rep s par l a d u x r rep, rep.1, by_key x y)
          (elim (by_order-cases (key x) (key y)) [
            | inl (lt, c) ↦ rw c (
                Found-left s (key y) l a d u x r _ lt sorted (
                  avl_get_node_rec-Found fuel s a l n (rep.2) (m.1)
                    (IsSorted-first (keys key l) (key x ∷ keys key r) sorted) nn enough_l))
            | inr (inl (lt, c)) ↦ rw c (
                Found-right s (key y) l a d u x r _ lt sorted (
                  avl_get_node_rec-Found fuel s a r n (rep.3) (m.2)
                    ((IsSorted-second (keys key l) (key x ∷ keys key r) sorted).1) nn enough_r))
            | inr (inr (e, c)) ↦
                rw c (ends (refl, inr (or_left (has a l || has a r) (==_refl a), rw rep.1 e)))
          ]))
