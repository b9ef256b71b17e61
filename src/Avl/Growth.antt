-- ===== src/Avl/Growth.antt =====
-- An insertion keeps a tree balanced.
use fesos.Prelude.{
  ℕ, ◌+◌, ◌≤◌, ◌≡◌, ◌≢◌, refl, Bool, false, ◌∙◌, max, Option, arith, ◌⊎◌, inl, inr, Bool-cases, ltb,
  ltb→lt,
}
use fesos.Avl.{Comparison, above, is_positive, is_negative}
use fesos.Avl.Tree.{Tree, leaf, node, height, refresh, rotate_right, rotate_left, tilt, insert}
use fesos.Avl.Shape.{Measured, heavy_left, heavy_right, near, not_positive-le, not_negative-le}
use fesos.Avl.Cases.{
  Case, unchanged, single_right, double_right, single_left, double_left, rebalance-Case,
}
use fesos.Avl.Grown.{single, Measured-insert}
use fesos.Avl.Balanced.{
  IsBalanced, single_right-IsBalanced, single_left-IsBalanced, double_right-IsBalanced,
  double_left-IsBalanced,
}

module _ {Item : Type 0} where
  -- One child is taller, or there are no children.
  abbrev pub Leans : Tree Item → Type 0
  Leans leaf = Unit {0}
  Leans (node l a d u x r) = (height l ≢ height r) ⊎ (d ≡ 0)

  -- A tree of this height, or of one level more that leans.
  abbrev pub Grows : ℕ → Tree Item → Type 0
  Grows h t = IsBalanced t × ((height t ≡ h) ⊎ ((height t ≡ h + 1) × Leans t))

  pub Grows-tall : (h : ℕ) (t : Tree Item) → Grows h t → height t ≤ h + 1
  Grows-tall h t (b, inl e) = omega arith
  Grows-tall h t (b, inr (e, leans)) = omega arith

  Grows-le : (h : ℕ) (t : Tree Item) → Grows h t → h ≤ height t
  Grows-le h t (b, inl e) = omega arith
  Grows-le h t (b, inr (e, leans)) = omega arith

-- The height of a node whose one child has grown, and whether it leans.
taller :
    (h m n d : ℕ)
    → m ≡ h + 1
    → d ≡ max m n
    → m ≤ n + 1
    → (d + 1 ≡ max h n + 1) ⊎ ((d + 1 ≡ max h n + 1 + 1) × ((m ≢ n) ⊎ (d ≡ 0)))
taller h m n d e depth le = elim (Bool-cases (ltb h n)) [
  | inl q ↦ let lt = ltb→lt h n q in inl (grind arith)
  | inr q ↦ let ge : n ≤ h = ground arith in inr (grind arith, inl (λ k. absurd (omega arith)))
]

taller_right :
    (h m n d : ℕ)
    → m ≡ h + 1
    → d ≡ max n m
    → m ≤ n + 1
    → (d + 1 ≡ max n h + 1) ⊎ ((d + 1 ≡ max n h + 1 + 1) × ((n ≢ m) ⊎ (d ≡ 0)))
taller_right h m n d e depth le = elim (Bool-cases (ltb h n)) [
  | inl q ↦ let lt = ltb→lt h n q in inl (grind arith)
  | inr q ↦ let ge : n ≤ h = ground arith in inr (grind arith, inl (λ k. absurd (omega arith)))
]

module _ {Item : Type 0} (recompute : Option Item → Item → Option Item → Item) where
  double_right-Grows :
      (l : Tree Item) (a d : ℕ) (u : Bool) (x : Item) (r : Tree Item)
      → IsBalanced l
      → IsBalanced r
      → Measured l
      → Leans l
      → height l ≡ height r + 2
      → is_positive (tilt l) ≡ false
      → let t = rotate_right recompute (node (rotate_left recompute l) a d u x r) in
        IsBalanced t × (height t ≡ height r + 2)
  unfolding tilt
  double_right-Grows leaf a d u x r bl br ml leans tall h = absurd (omega arith)
  double_right-Grows (node ll b e v y lr) a d u x r bl br ml (inr q) tall h = absurd (omega arith)
  double_right-Grows (node ll b e v y lr) a d u x r bl br ml (inl q) tall h =
      let le = not_positive-le (height ll) (height lr) h in
      double_right-IsBalanced recompute ll b e v y lr a d u x r bl br ml tall (grind arith)

  double_left-Grows :
      (l : Tree Item) (a d : ℕ) (u : Bool) (x : Item) (r : Tree Item)
      → IsBalanced l
      → IsBalanced r
      → Measured r
      → Leans r
      → height r ≡ height l + 2
      → is_negative (tilt r) ≡ false
      → let t = rotate_left recompute (node l a d u x (rotate_right recompute r)) in
        IsBalanced t × (height t ≡ height l + 2)
  unfolding tilt
  double_left-Grows l a d u x leaf bl br mr leans tall h = absurd (omega arith)
  double_left-Grows l a d u x (node rl b e v y rr) bl br mr (inr q) tall h = absurd (omega arith)
  double_left-Grows l a d u x (node rl b e v y rr) bl br mr (inl q) tall h =
      let le = not_negative-le (height rl) (height rr) h in
      double_left-IsBalanced recompute l a d u x rl b e v y rr bl br mr tall (grind arith)

  -- The left child had `h` levels.
  grown_left :
      (h : ℕ) (l : Tree Item) (a d : ℕ) (u : Bool) (x : Item) (r : Tree Item) {t : Tree Item}
      → Case recompute l a d u x r t
      → Grows h l
      → Measured l
      → IsBalanced r
      → d ≡ max (height l) (height r)
      → h ≤ height r + 1
      → height r ≤ h + 1
      → Grows (max h (height r) + 1) t
  unfolding tilt
  grown_left h l a d u x r (unchanged w) (bl, inl e) ml br depth le ge =
      ((omega arith, omega arith, bl, br), inl (grind arith))
  grown_left h l a d u x r (unchanged w) (bl, inr (e, leans)) ml br depth le ge =
      let (b1, b2) = near (height l) (height r) w in
      ((b1, b2, bl, br), taller h (height l) (height r) d e depth b1)
  grown_left h l a d u x r (single_right w p q) (bl, inl e) ml br depth le ge =
      let tall = heavy_left (height l) (height r) w p in absurd (omega arith)
  grown_left h l a d u x r (single_right w p q) (bl, inr (e, leans)) ml br depth le ge =
      let tall = heavy_left (height l) (height r) w p in
      let (b, k) = single_right-IsBalanced recompute l a d u x r bl br ml (omega arith) q in
      (b, inl (k ∙ grind arith))
  grown_left h l a d u x r (double_right w p q) (bl, inl e) ml br depth le ge =
      let tall = heavy_left (height l) (height r) w p in absurd (omega arith)
  grown_left h l a d u x r (double_right w p q) (bl, inr (e, leans)) ml br depth le ge =
      let tall = heavy_left (height l) (height r) w p in
      let (b, k) = double_right-Grows l a d u x r bl br ml leans (omega arith) q in
      (b, inl (k ∙ grind arith))
  grown_left h l a d u x r (single_left w p q) (bl, e) ml br depth le ge =
      let tall = heavy_right (height l) (height r) w p in
      let low = Grows-le h l (bl, e) in absurd (omega arith)
  grown_left h l a d u x r (double_left w p q) (bl, e) ml br depth le ge =
      let tall = heavy_right (height l) (height r) w p in
      let low = Grows-le h l (bl, e) in absurd (omega arith)

  -- The right child had `h` levels.
  grown_right :
      (h : ℕ) (l : Tree Item) (a d : ℕ) (u : Bool) (x : Item) (r : Tree Item) {t : Tree Item}
      → Case recompute l a d u x r t
      → Grows h r
      → Measured r
      → IsBalanced l
      → d ≡ max (height l) (height r)
      → h ≤ height l + 1
      → height l ≤ h + 1
      → Grows (max (height l) h + 1) t
  unfolding tilt
  grown_right h l a d u x r (unchanged w) (br, inl e) mr bl depth le ge =
      ((omega arith, omega arith, bl, br), inl (grind arith))
  grown_right h l a d u x r (unchanged w) (br, inr (e, leans)) mr bl depth le ge =
      let (b1, b2) = near (height l) (height r) w in
      ((b1, b2, bl, br), taller_right h (height r) (height l) d e depth b2)
  grown_right h l a d u x r (single_right w p q) (br, e) mr bl depth le ge =
      let tall = heavy_left (height l) (height r) w p in
      let low = Grows-le h r (br, e) in absurd (omega arith)
  grown_right h l a d u x r (double_right w p q) (br, e) mr bl depth le ge =
      let tall = heavy_left (height l) (height r) w p in
      let low = Grows-le h r (br, e) in absurd (omega arith)
  grown_right h l a d u x r (single_left w p q) (br, inl e) mr bl depth le ge =
      let tall = heavy_right (height l) (height r) w p in absurd (omega arith)
  grown_right h l a d u x r (single_left w p q) (br, inr (e, leans)) mr bl depth le ge =
      let tall = heavy_right (height l) (height r) w p in
      let (b, k) = single_left-IsBalanced recompute l a d u x r bl br mr (omega arith) q in
      (b, inl (k ∙ grind arith))
  grown_right h l a d u x r (double_left w p q) (br, inl e) mr bl depth le ge =
      let tall = heavy_right (height l) (height r) w p in absurd (omega arith)
  grown_right h l a d u x r (double_left w p q) (br, inr (e, leans)) mr bl depth le ge =
      let tall = heavy_right (height l) (height r) w p in
      let (b, k) = double_left-Grows l a d u x r bl br mr leans (omega arith) q in
      (b, inl (k ∙ grind arith))

  module _ (compare_items : Item → Item → Comparison) where
    pub insert-Grows :
        (n : ℕ) (v : Bool) (y : Item) (t : Tree Item)
        → IsBalanced t
        → Measured t
        → Grows
            (height t)
            (insert recompute compare_items (single recompute compare_items n 0 v y) y t)
    unfolding insert refresh
    insert-Grows n v y leaf b m = ((omega arith, omega arith, tt, tt), inr (refl, inr refl))
    insert-Grows n v y (node l a d u x r) (le, ge, bl, br) (m, ml, mr) =
        elim (Bool-cases (above (compare_items x y))) [
          | inl h ↦
              rw (h, m)
                (grown_left (height l) _ a _ u _ r (rebalance-Case recompute _ a _ u _ r)
                  (insert-Grows n v y l bl ml)
                  (Measured-insert recompute compare_items n 0 v y l refl ml) br refl le ge)
          | inr h ↦
              rw (h, m)
                (grown_right (height r) l a _ u _ _ (rebalance-Case recompute l a _ u _ _)
                  (insert-Grows n v y r br mr)
                  (Measured-insert recompute compare_items n 0 v y r refl mr) bl refl ge le)
        ]
