-- ===== src/Avl/Order.antt =====
-- The keys of a tree, from left to right: insertion keeps them sorted.
pub mod Lists
use fesos.Prelude.{
  ℕ, zero, ◌≡◌, refl, Bool, true, false, if◌then◌else◌, List, [], ◌∷◌, ◌++◌, ltb, ltb→lt, ◌<◌, ◌⊎◌,
  arith, Option, ◌∙◌, sym, ap, Bool-cases, inl, inr,
}
use fesos.Avl.{Comparison, negative, equal, positive, above}
use fesos.Avl.Tree.{Tree, leaf, node, refresh, rotate_right, rotate_left, rebalance, insert}
use fesos.Avl.Cases.{
  Case, unchanged, single_right, double_right, single_left, double_left, rebalance-Case,
}
use fesos.Avl.Grown.{single}
use Lists.{
  insert_sorted, IsSorted, IsSorted-first, IsSorted-second, insert_sorted_left, insert_sorted_right,
  middle_assoc,
}

-- The comparison of two numbers.
unfoldable pub by_order : ℕ → ℕ → Comparison
by_order m n = if ltb n m then positive else if ltb m n then negative else equal

pub by_order-cases :
    (m n : ℕ)
    → ((n < m) × (by_order m n ≡ positive))
      ⊎ (((m < n) × (by_order m n ≡ negative)) ⊎ ((m ≡ n) × (by_order m n ≡ equal)))
unfolding by_order
by_order-cases m n = elim (Bool-cases (ltb n m)) [
  | inl h ↦ inl (ltb→lt n m h, rw h)
  | inr h ↦ elim (Bool-cases (ltb m n)) [
    | inl k ↦ inr (inl (ltb→lt m n k, rw (h, k)))
    | inr k ↦ let e : m ≡ n = ground arith in inr (inr (e, rw (h, k)))
  ]
]

above-by_order : (m n : ℕ) → above (by_order m n) ≡ ltb n m
unfolding above by_order
above-by_order m n = elim (Bool-cases (ltb n m)) [
  | inl h ↦ rw h
  | inr h ↦ rw h (elim (Bool-cases (ltb m n)) [ inl k ↦ rw k | inr k ↦ rw k ])
]

module _ {Item : Type 0} (key : Item → ℕ) where
  abbrev pub keys : Tree Item → List ℕ
  keys leaf = []
  keys (node l a d u x r) = keys l ++ key x ∷ keys r

  module _ (recompute : Option Item → Item → Option Item → Item)
      (same_key : (l : Option Item) (x : Item) (r : Option Item)
        → key (recompute l x r) ≡ key x) where
    keys-refresh : (t : Tree Item) → keys (refresh recompute t) ≡ keys t
    unfolding refresh
    keys-refresh leaf = refl
    keys-refresh (node l a d true x r) = rw (same_key _ x _)
    keys-refresh (node l a d false x r) = refl

    keys-rotate_right : (t : Tree Item) → keys (rotate_right recompute t) ≡ keys t
    unfolding rotate_right
    keys-rotate_right leaf = refl
    keys-rotate_right (node leaf a d u x r) = refl
    keys-rotate_right (node (node ll b e v y lr) a d u x r) =
        keys-refresh (node (refresh recompute ll) b e v y (refresh recompute (node lr a d u x r)))
        ∙ rw (keys-refresh ll, keys-refresh (node lr a d u x r))
            (sym (middle_assoc (keys ll) (key y) (keys lr) (key x ∷ keys r)))

    keys-rotate_left : (t : Tree Item) → keys (rotate_left recompute t) ≡ keys t
    unfolding rotate_left
    keys-rotate_left leaf = refl
    keys-rotate_left (node l a d u x leaf) = refl
    keys-rotate_left (node l a d u x (node rl b e v y rr)) =
        keys-refresh (node (refresh recompute (node l a d u x rl)) b e v y (refresh recompute rr))
        ∙ rw (keys-refresh rr, keys-refresh (node l a d u x rl))
            (middle_assoc (keys l) (key x) (keys rl) (key y ∷ keys rr))

    keys-Case :
        (l : Tree Item) (a d : ℕ) (u : Bool) (x : Item) (r : Tree Item) {t : Tree Item}
        → Case recompute l a d u x r t
        → keys t ≡ keys (node l a d u x r)
    keys-Case l a d u x r (unchanged h) = refl
    keys-Case l a d u x r (single_right h k q) = keys-rotate_right (node l a d u x r)
    keys-Case l a d u x r (double_right h k q) =
        keys-rotate_right (node (rotate_left recompute l) a d u x r) ∙ rw (keys-rotate_left l)
    keys-Case l a d u x r (single_left h k q) = keys-rotate_left (node l a d u x r)
    keys-Case l a d u x r (double_left h k q) =
        keys-rotate_left (node l a d u x (rotate_right recompute r)) ∙ rw (keys-rotate_right r)

    keys-rebalance-refresh :
        (l : Tree Item) (a d : ℕ) (u : Bool) (x : Item) (r : Tree Item)
        → keys (rebalance recompute (refresh recompute (node l a d u x r)))
          ≡ keys (node l a d u x r)
    unfolding refresh
    keys-rebalance-refresh l a d u x r =
        keys-Case l a _ u _ r (rebalance-Case recompute l a _ u _ r)
        ∙ keys-refresh (node l a d u x r)

    module _ (compare_items : Item → Item → Comparison)
        (by_key : (x y : Item) → compare_items x y ≡ by_order (key x) (key y)) where
      pub above-key : (x y : Item) → above (compare_items x y) ≡ ltb (key y) (key x)
      above-key x y = ap above (by_key x y) ∙ above-by_order (key x) (key y)

      pub keys-insert :
          (n : ℕ) (v : Bool) (y : Item) (t : Tree Item)
          → IsSorted (keys t)
          → keys (insert recompute compare_items (single recompute compare_items n 0 v y) y t)
            ≡ insert_sorted (key y) (keys t)
      unfolding insert insert_sorted
      keys-insert n v y leaf sorted = refl
      keys-insert n v y (node l a d u x r) sorted = elim (Bool-cases (above (compare_items x y))) [
        | inl h ↦ rw h (
            keys-rebalance-refresh _ a d u x r
            ∙ ap (λ ks. ks ++ key x ∷ keys r)
                (keys-insert n v y l (IsSorted-first (keys l) (key x ∷ keys r) sorted))
            ∙ sym (insert_sorted_left (key y) (key x) (keys l) (keys r) (sym (above-key x y) ∙ h)))
        | inr h ↦ rw h (
            keys-rebalance-refresh l a d u x _
            ∙ ap (λ ks. keys l ++ key x ∷ ks)
                (keys-insert n v y r ((IsSorted-second (keys l) (key x ∷ keys r) sorted).1))
            ∙ sym (
                insert_sorted_right (key y) (key x) (keys l) (keys r) (sym (above-key x y) ∙ h)
                  sorted))
      ]
