-- ===== src/Avl/Shape.antt =====
-- What rotations of trees leave as it is: the addresses, that they are distinct, and that the depth
-- fields are right.
use fesos.Prelude.{
  ℕ, ◌+◌, ◌≤◌, ◌<◌, ◌≡◌, ◌≢◌, refl, Bool, true, false, ◌∙◌, sym, max, Option, arith,
}
use fesos.Avl.{balance_of, within_one, is_positive, is_negative}
use fesos.Avl.Tree.{
  Tree, leaf, node, root, height, Distinct, refresh, rotate_right, rotate_left, tilt,
}
use fesos.Avl.Focus.{has-refresh, Distinct-refresh, root-refresh}
use fesos.Avl.Rotate.Turn.{has_turn, Distinct-turn_right, Distinct-turn_left}
use fesos.Avl.Child.{SameAddresses}

-- The tests of a balance as comparisons of heights.
module _ (m n : ℕ) where
  pub heavy_left :
      within_one (balance_of m n) ≡ false → is_positive (balance_of m n) ≡ true → n + 2 ≤ m
  unfolding balance_of within_one is_positive
  heavy_left h k = ground arith

  pub heavy_right :
      within_one (balance_of m n) ≡ false → is_positive (balance_of m n) ≡ false → m + 2 ≤ n
  unfolding balance_of within_one is_positive
  heavy_right h k = ground arith

  pub near : within_one (balance_of m n) ≡ true → (m ≤ n + 1) × (n ≤ m + 1)
  unfolding balance_of within_one
  near h = ground arith

  pub positive-lt : is_positive (balance_of m n) ≡ true → n < m
  unfolding balance_of is_positive
  positive-lt h = ground arith

  pub not_positive-le : is_positive (balance_of m n) ≡ false → m ≤ n
  unfolding balance_of is_positive
  not_positive-le h = ground arith

  pub negative-lt : is_negative (balance_of m n) ≡ true → m < n
  unfolding balance_of is_negative
  negative-lt h = ground arith

  pub not_negative-le : is_negative (balance_of m n) ≡ false → n ≤ m
  unfolding balance_of is_negative
  not_negative-le h = ground arith

module _ {Item : Type 0} where
  -- The depth fields of a tree are right.
  abbrev pub Measured : Tree Item → Type 0
  Measured leaf = Unit {0}
  Measured (node l a d u x r) = (d ≡ max (height l) (height r)) × Measured l × Measured r

  module _ (l : Tree Item) (a d : ℕ) (u : Bool) (x : Item) (r : Tree Item) where
    pub tall_left :
        within_one (tilt (node l a d u x r)) ≡ false
        → is_positive (tilt (node l a d u x r)) ≡ true
        → 2 ≤ height l
    unfolding tilt
    tall_left h k = let le = heavy_left (height l) (height r) h k in omega arith

    pub tall_right :
        within_one (tilt (node l a d u x r)) ≡ false
        → is_positive (tilt (node l a d u x r)) ≡ false
        → 2 ≤ height r
    unfolding tilt
    tall_right h k = let le = heavy_right (height l) (height r) h k in omega arith

module _ {Item : Type 0} (recompute : Option Item → Item → Option Item → Item) where
  pub height-refresh :
      (l : Tree Item) (a d : ℕ) (u : Bool) (x : Item) (r : Tree Item)
      → height (refresh recompute (node l a d u x r)) ≡ max (height l) (height r) + 1
  unfolding refresh
  height-refresh l a d u x r = refl

  pub Measured-refresh :
      (l : Tree Item) (a d : ℕ) (u : Bool) (x : Item) (r : Tree Item)
      → Measured l
      → Measured r
      → Measured (refresh recompute (node l a d u x r))
  unfolding refresh
  Measured-refresh l a d u x r ml mr = (refl, ml, mr)

  Measured-refresh_again : (t : Tree Item) → Measured t → Measured (refresh recompute t)
  unfolding refresh
  Measured-refresh_again leaf h = h
  Measured-refresh_again (node l a d u x r) (h, hl, hr) = (refl, hl, hr)

  -- A rotation makes the depth fields right, or leaves the tree.
  pub Measured-rotate_right :
      (l : Tree Item) (a d : ℕ) (u : Bool) (x : Item) (r : Tree Item)
      → 1 ≤ height l
      → Measured l
      → Measured r
      → Measured (rotate_right recompute (node l a d u x r))
  unfolding rotate_right
  Measured-rotate_right leaf a d u x r ne ml mr = absurd (omega arith)
  Measured-rotate_right (node ll b e v y lr) a d u x r ne ml mr =
      Measured-refresh (refresh recompute ll) b e v y (refresh recompute (node lr a d u x r))
        (Measured-refresh_again ll (ml.1)) (Measured-refresh lr a d u x r (ml.2) mr)

  pub Measured-rotate_left :
      (l : Tree Item) (a d : ℕ) (u : Bool) (x : Item) (r : Tree Item)
      → 1 ≤ height r
      → Measured l
      → Measured r
      → Measured (rotate_left recompute (node l a d u x r))
  unfolding rotate_left
  Measured-rotate_left l a d u x leaf ne ml mr = absurd (omega arith)
  Measured-rotate_left l a d u x (node rl b e v y rr) ne ml mr =
      Measured-refresh (refresh recompute (node l a d u x rl)) b e v y (refresh recompute rr)
        (Measured-refresh l a d u x rl ml (mr.1)) (Measured-refresh_again rr (mr.2))

  -- The same for a tree whose depth field is right too.
  pub Measured-rotate_right_whole :
      (t : Tree Item) → Measured t → Measured (rotate_right recompute t)
  unfolding rotate_right
  Measured-rotate_right_whole leaf m = m
  Measured-rotate_right_whole (node leaf a d u x r) m = m
  Measured-rotate_right_whole (node (node ll b e v y lr) a d u x r) m =
      Measured-rotate_right (node ll b e v y lr) a d u x r (omega arith) (m.1) (m.2)

  pub Measured-rotate_left_whole : (t : Tree Item) → Measured t → Measured (rotate_left recompute t)
  unfolding rotate_left
  Measured-rotate_left_whole leaf m = m
  Measured-rotate_left_whole (node l a d u x leaf) m = m
  Measured-rotate_left_whole (node l a d u x (node rl b e v y rr)) m =
      Measured-rotate_left l a d u x (node rl b e v y rr) (omega arith) (m.1) (m.2)

  pub height-rotate_right : (t : Tree Item) → 1 ≤ height t → 1 ≤ height (rotate_right recompute t)
  unfolding rotate_right refresh
  height-rotate_right leaf h = h
  height-rotate_right (node leaf a d u x r) h = h
  height-rotate_right (node (node ll b e v y lr) a d u x r) h = omega arith

  pub height-rotate_left : (t : Tree Item) → 1 ≤ height t → 1 ≤ height (rotate_left recompute t)
  unfolding rotate_left refresh
  height-rotate_left leaf h = h
  height-rotate_left (node l a d u x leaf) h = h
  height-rotate_left (node l a d u x (node rl b e v y rr)) h = omega arith

  pub root-rotate_right :
      (ll : Tree Item) (b e : ℕ) (v : Bool) (y : Item) (lr : Tree Item) (a d : ℕ) (u : Bool)
      (x : Item) (r : Tree Item)
      → root (rotate_right recompute (node (node ll b e v y lr) a d u x r)) ≡ b
  unfolding rotate_right
  root-rotate_right ll b e v y lr a d u x r =
      root-refresh recompute
        (node (refresh recompute ll) b e v y (refresh recompute (node lr a d u x r)))

  pub root-rotate_left :
      (l : Tree Item) (a d : ℕ) (u : Bool) (x : Item) (rl : Tree Item) (b e : ℕ) (v : Bool)
      (y : Item) (rr : Tree Item)
      → root (rotate_left recompute (node l a d u x (node rl b e v y rr))) ≡ b
  unfolding rotate_left
  root-rotate_left l a d u x rl b e v y rr =
      root-refresh recompute
        (node (refresh recompute (node l a d u x rl)) b e v y (refresh recompute rr))

  pub root-rotate_right_ne :
      (l : Tree Item) (a d : ℕ) (u : Bool) (x : Item) (r : Tree Item)
      → root l ≢ 0
      → root (rotate_right recompute (node l a d u x r)) ≢ 0
  root-rotate_right_ne leaf a d u x r ne = absurd (ne refl)
  root-rotate_right_ne (node ll b e v y lr) a d u x r ne =
      λ q. ne (sym (root-rotate_right ll b e v y lr a d u x r) ∙ q)

  pub root-rotate_left_ne :
      (l : Tree Item) (a d : ℕ) (u : Bool) (x : Item) (r : Tree Item)
      → root r ≢ 0
      → root (rotate_left recompute (node l a d u x r)) ≢ 0
  root-rotate_left_ne l a d u x leaf ne = absurd (ne refl)
  root-rotate_left_ne l a d u x (node rl b e v y rr) ne =
      λ q. ne (sym (root-rotate_left l a d u x rl b e v y rr) ∙ q)

  pub has-rotate_right : (t : Tree Item) → SameAddresses t (rotate_right recompute t)
  unfolding rotate_right
  has-rotate_right leaf p = refl
  has-rotate_right (node leaf a d u x r) p = refl
  has-rotate_right (node (node ll b e v y lr) a d u x r) p =
      rw
        (has-refresh recompute p
          (node (refresh recompute ll) b e v y (refresh recompute (node lr a d u x r))))
        (rw (has-refresh recompute p ll, has-refresh recompute p (node lr a d u x r))
          (sym (has_turn p ll b e v y lr a d u x r)))

  pub has-rotate_left : (t : Tree Item) → SameAddresses t (rotate_left recompute t)
  unfolding rotate_left
  has-rotate_left leaf p = refl
  has-rotate_left (node l a d u x leaf) p = refl
  has-rotate_left (node l a d u x (node rl b e v y rr)) p =
      rw
        (has-refresh recompute p
          (node (refresh recompute (node l a d u x rl)) b e v y (refresh recompute rr)))
        (rw (has-refresh recompute p rr, has-refresh recompute p (node l a d u x rl))
          (has_turn p l a d u x rl b e v y rr))

  -- A node with both children refreshed, then refreshed.
  Distinct-refresh_all :
      (l : Tree Item) (a d : ℕ) (u : Bool) (x : Item) (r : Tree Item)
      → Distinct (node l a d u x r)
      → Distinct (refresh recompute (node (refresh recompute l) a d u x (refresh recompute r)))
  Distinct-refresh_all l a d u x r (h0, h1, apart, dl, dr) =
      Distinct-refresh recompute (node (refresh recompute l) a d u x (refresh recompute r)) (
        has-refresh recompute a l ∙ h0,
        has-refresh recompute a r ∙ h1,
        (λ p h. has-refresh recompute p r ∙ apart p (sym (has-refresh recompute p l) ∙ h)),
        Distinct-refresh recompute l dl,
        Distinct-refresh recompute r dr,
      )

  pub Distinct-rotate_right : (t : Tree Item) → Distinct t → Distinct (rotate_right recompute t)
  unfolding rotate_right
  Distinct-rotate_right leaf h = h
  Distinct-rotate_right (node leaf a d u x r) h = h
  Distinct-rotate_right (node (node ll b e v y lr) a d u x r) h =
      Distinct-refresh_all ll b e v y (node lr a d u x r)
        (Distinct-turn_right ll b e v y lr a d u x r h)

  pub Distinct-rotate_left : (t : Tree Item) → Distinct t → Distinct (rotate_left recompute t)
  unfolding rotate_left
  Distinct-rotate_left leaf h = h
  Distinct-rotate_left (node l a d u x leaf) h = h
  Distinct-rotate_left (node l a d u x (node rl b e v y rr)) h =
      Distinct-refresh_all (node l a d u x rl) b e v y rr
        (Distinct-turn_left l a d u x rl b e v y rr h)
