-- ===== src/Avl/Cases.antt =====
-- The five results of rebalance, and what they leave as it is.
use fesos.Prelude.{ℕ, ◌≡◌, refl, Bool, true, false, ◌∙◌, Option, arith, Bool-cases, inl, inr}
use fesos.Avl.{within_one, is_positive, is_negative}
use fesos.Avl.Tree.{Tree, node, Distinct, refresh, rotate_right, rotate_left, rebalance, tilt}
use fesos.Avl.Child.{SameAddresses, Distinct-left, Distinct-right}
use fesos.Avl.Shape.{
  Measured, tall_left, tall_right, has-rotate_right, has-rotate_left, Distinct-rotate_right,
  Distinct-rotate_left, Measured-rotate_right, Measured-rotate_left, Measured-rotate_right_whole,
  Measured-rotate_left_whole, height-rotate_left, height-rotate_right,
}

module _ {Item : Type 0} (recompute : Option Item → Item → Option Item → Item) where
  module _ (l : Tree Item) (a d : ℕ) (u : Bool) (x : Item) (r : Tree Item) where
    pub data Case : Tree Item → Type 0 where
      unchanged : within_one (tilt (node l a d u x r)) ≡ true → Case (node l a d u x r)
      single_right :
          within_one (tilt (node l a d u x r)) ≡ false
          → is_positive (tilt (node l a d u x r)) ≡ true
          → is_positive (tilt l) ≡ true
          → Case (rotate_right recompute (node l a d u x r))
      double_right :
          within_one (tilt (node l a d u x r)) ≡ false
          → is_positive (tilt (node l a d u x r)) ≡ true
          → is_positive (tilt l) ≡ false
          → Case (rotate_right recompute (node (rotate_left recompute l) a d u x r))
      single_left :
          within_one (tilt (node l a d u x r)) ≡ false
          → is_positive (tilt (node l a d u x r)) ≡ false
          → is_negative (tilt r) ≡ true
          → Case (rotate_left recompute (node l a d u x r))
      double_left :
          within_one (tilt (node l a d u x r)) ≡ false
          → is_positive (tilt (node l a d u x r)) ≡ false
          → is_negative (tilt r) ≡ false
          → Case (rotate_left recompute (node l a d u x (rotate_right recompute r)))

    pub rebalance-Case : Case (rebalance recompute (node l a d u x r))
    unfolding rebalance
    rebalance-Case = elim (Bool-cases (within_one (tilt (node l a d u x r)))) [
      | inl h ↦ rw h (unchanged h)
      | inr h ↦ rw h (elim (Bool-cases (is_positive (tilt (node l a d u x r)))) [
        | inl k ↦ rw k (elim (Bool-cases (is_positive (tilt l))) [
          | inl q ↦ rw q (single_right h k q)
          | inr q ↦ rw q (double_right h k q)
        ])
        | inr k ↦ rw k (elim (Bool-cases (is_negative (tilt r))) [
          | inl q ↦ rw q (single_left h k q)
          | inr q ↦ rw q (double_left h k q)
        ])
      ])
    ]

    has-Case : {t : Tree Item} → Case t → SameAddresses (node l a d u x r) t
    has-Case (unchanged h) p = refl
    has-Case (single_right h k q) p = has-rotate_right recompute (node l a d u x r) p
    has-Case (double_right h k q) p =
        has-rotate_right recompute (node (rotate_left recompute l) a d u x r) p
        ∙ rw (has-rotate_left recompute l p)
    has-Case (single_left h k q) p = has-rotate_left recompute (node l a d u x r) p
    has-Case (double_left h k q) p =
        has-rotate_left recompute (node l a d u x (rotate_right recompute r)) p
        ∙ rw (has-rotate_right recompute r p)

    Distinct-Case : {t : Tree Item} → Case t → Distinct (node l a d u x r) → Distinct t
    Distinct-Case (unchanged h) distinct = distinct
    Distinct-Case (single_right h k q) distinct =
        Distinct-rotate_right recompute (node l a d u x r) distinct
    Distinct-Case (double_right h k q) distinct =
        Distinct-rotate_right recompute (node (rotate_left recompute l) a d u x r) (
          Distinct-left l (rotate_left recompute l) a d d u u x x r r (has-rotate_left recompute l)
            (Distinct-rotate_left recompute l (distinct.3)) distinct)
    Distinct-Case (single_left h k q) distinct =
        Distinct-rotate_left recompute (node l a d u x r) distinct
    Distinct-Case (double_left h k q) distinct =
        Distinct-rotate_left recompute (node l a d u x (rotate_right recompute r)) (
          Distinct-right l l a d d u u x x r (rotate_right recompute r)
            (has-rotate_right recompute r) (Distinct-rotate_right recompute r (distinct.4))
            distinct)

    Measured-Case : {t : Tree Item} → Case t → Measured (node l a d u x r) → Measured t
    Measured-Case (unchanged h) m = m
    Measured-Case (single_right h k q) (m, ml, mr) =
        let tall = tall_left l a d u x r h k in
        Measured-rotate_right recompute l a d u x r (omega arith) ml mr
    Measured-Case (double_right h k q) (m, ml, mr) =
        let tall = tall_left l a d u x r h k in
        Measured-rotate_right recompute (rotate_left recompute l) a d u x r
          (height-rotate_left recompute l (omega arith)) (Measured-rotate_left_whole recompute l ml)
          mr
    Measured-Case (single_left h k q) (m, ml, mr) =
        let tall = tall_right l a d u x r h k in
        Measured-rotate_left recompute l a d u x r (omega arith) ml mr
    Measured-Case (double_left h k q) (m, ml, mr) =
        let tall = tall_right l a d u x r h k in
        Measured-rotate_left recompute l a d u x (rotate_right recompute r)
          (height-rotate_right recompute r (omega arith)) ml
          (Measured-rotate_right_whole recompute r mr)

    pub has-rebalance : SameAddresses (node l a d u x r) (rebalance recompute (node l a d u x r))
    has-rebalance = has-Case rebalance-Case

    pub Distinct-rebalance :
        Distinct (node l a d u x r) → Distinct (rebalance recompute (node l a d u x r))
    Distinct-rebalance = Distinct-Case rebalance-Case

    pub Measured-rebalance :
        Measured (node l a d u x r) → Measured (rebalance recompute (node l a d u x r))
    Measured-rebalance = Measured-Case rebalance-Case

  pub has-rebalance-refresh :
      (l : Tree Item) (a d : ℕ) (u : Bool) (x : Item) (r : Tree Item)
      → SameAddresses
          (node l a d u x r)
          (rebalance recompute (refresh recompute (node l a d u x r)))
  unfolding refresh
  has-rebalance-refresh l a d u x r p = has-rebalance l a _ u _ r p
