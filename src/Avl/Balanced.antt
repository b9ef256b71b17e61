-- ===== src/Avl/Balanced.antt =====
-- Rotations at a node that is two levels too tall on one side balance it.
use fesos.Prelude.{ℕ, ◌+◌, ◌≤◌, ◌<◌, ◌≡◌, refl, Bool, true, ◌∙◌, max, Option, arith}
use fesos.Avl.{is_positive, is_negative}
use fesos.Avl.Tree.{Tree, leaf, node, height, refresh, rotate_right, rotate_left, tilt}
use fesos.Avl.Shape.{Measured, positive-lt, negative-lt}

module _ {Item : Type 0} where
  -- The heights of the children differ by one at most, at every node.
  abbrev pub IsBalanced : Tree Item → Type 0
  IsBalanced leaf = Unit {0}
  IsBalanced (node l a d u x r) =
      (height l ≤ height r + 1) × (height r ≤ height l + 1) × IsBalanced l × IsBalanced r

module _ {Item : Type 0} (recompute : Option Item → Item → Option Item → Item) where
  height-refresh-Measured : (t : Tree Item) → Measured t → height (refresh recompute t) ≡ height t
  unfolding refresh
  height-refresh-Measured leaf m = refl
  height-refresh-Measured (node l a d u x r) m =
      let e : d ≡ max (height l) (height r) = m.0 in grind arith

  IsBalanced-refresh : (t : Tree Item) → IsBalanced t → IsBalanced (refresh recompute t)
  unfolding refresh
  IsBalanced-refresh leaf b = b
  IsBalanced-refresh (node l a d u x r) b = b

  node_of :
      (l : Tree Item) (a d : ℕ) (u : Bool) (x : Item) (r : Tree Item) (hl hr h : ℕ)
      → IsBalanced l
      → IsBalanced r
      → height l ≡ hl
      → height r ≡ hr
      → hl ≤ hr + 1
      → hr ≤ hl + 1
      → max hl hr + 1 ≡ h
      → IsBalanced (refresh recompute (node l a d u x r))
        × (height (refresh recompute (node l a d u x r)) ≡ h)
  unfolding refresh
  node_of l a d u x r hl hr h bl br el er le ge e =
      ((rw (el, er) le, rw (el, er) ge, bl, br), rw (el, er) e)

  pub single_right-IsBalanced :
      (l : Tree Item) (a d : ℕ) (u : Bool) (x : Item) (r : Tree Item)
      → IsBalanced l
      → IsBalanced r
      → Measured l
      → height l ≡ height r + 2
      → is_positive (tilt l) ≡ true
      → IsBalanced (rotate_right recompute (node l a d u x r))
        × (height (rotate_right recompute (node l a d u x r)) ≡ height r + 2)
  unfolding rotate_right tilt
  single_right-IsBalanced leaf a d u x r bl br ml tall lean = absurd (omega arith)
  single_right-IsBalanced (node ll b e v y lr) a d u x r (le, ge, bll, blr) br (m, mll, mlr) tall
        lean =
      let lt = positive-lt (height ll) (height lr) lean in
      let low =
        node_of lr a d u x r (height r) (height r) (height r + 1) blr br (grind arith) refl
          (omega arith) (omega arith) (grind arith) in
      node_of (refresh recompute ll) b e v y (refresh recompute (node lr a d u x r)) (height r + 1)
        (height r + 1) (height r + 2) (IsBalanced-refresh ll bll) (low.0)
        (height-refresh-Measured ll mll ∙ grind arith) (low.1) (omega arith) (omega arith)
        (grind arith)

  pub single_left-IsBalanced :
      (l : Tree Item) (a d : ℕ) (u : Bool) (x : Item) (r : Tree Item)
      → IsBalanced l
      → IsBalanced r
      → Measured r
      → height r ≡ height l + 2
      → is_negative (tilt r) ≡ true
      → IsBalanced (rotate_left recompute (node l a d u x r))
        × (height (rotate_left recompute (node l a d u x r)) ≡ height l + 2)
  unfolding rotate_left tilt
  single_left-IsBalanced l a d u x leaf bl br mr tall lean = absurd (omega arith)
  single_left-IsBalanced l a d u x (node rl b e v y rr) bl (le, ge, brl, brr) (m, mrl, mrr) tall
        lean =
      let lt = negative-lt (height rl) (height rr) lean in
      let low =
        node_of l a d u x rl (height l) (height l) (height l + 1) bl brl refl (grind arith)
          (omega arith) (omega arith) (grind arith) in
      node_of (refresh recompute (node l a d u x rl)) b e v y (refresh recompute rr) (height l + 1)
        (height l + 1) (height l + 2) (low.0) (IsBalanced-refresh rr brr) (low.1)
        (height-refresh-Measured rr mrr ∙ grind arith) (omega arith) (omega arith) (grind arith)

  -- The inner child of the tall child is the taller one.
  pub double_right-IsBalanced :
      (ll : Tree Item) (b e : ℕ) (v : Bool) (y : Item) (lr : Tree Item) (a d : ℕ) (u : Bool)
      (x : Item) (r : Tree Item)
      → IsBalanced (node ll b e v y lr)
      → IsBalanced r
      → Measured (node ll b e v y lr)
      → e + 1 ≡ height r + 2
      → height ll < height lr
      → let t =
          rotate_right recompute (node (rotate_left recompute (node ll b e v y lr)) a d u x r) in
        IsBalanced t × (height t ≡ height r + 2)
  unfolding rotate_right rotate_left
  double_right-IsBalanced ll b e v y leaf a d u x r bl br ml tall lt = absurd (omega arith)
  double_right-IsBalanced ll b e v y (node ml c f w z mr) a d u x r
        (le, ge, bll, (mle, mge, bml, bmr)) br (m, mll, (mm, mml, mmr)) tall lt =
      let h_ll : height ll ≡ height r = grind arith in
      let inner =
        node_of ll b e v y ml (height r) (height ml) (height r + 1) bll bml h_ll refl (grind arith)
          (grind arith) (grind arith) in
      let right =
        node_of (refresh recompute mr) a d u x r (height mr) (height r) (height r + 1)
          (IsBalanced-refresh mr bmr) br (height-refresh-Measured mr mmr) refl (grind arith)
          (grind arith) (grind arith) in
      node_of (refresh recompute (refresh recompute (node ll b e v y ml))) c f w z
        (refresh recompute (node (refresh recompute mr) a d u x r)) (height r + 1) (height r + 1)
        (height r + 2) (inner.0) (right.0) (inner.1) (right.1) (omega arith) (omega arith)
        (grind arith)

  pub double_left-IsBalanced :
      (l : Tree Item) (a d : ℕ) (u : Bool) (x : Item) (rl : Tree Item) (b e : ℕ) (v : Bool)
      (y : Item) (rr : Tree Item)
      → IsBalanced l
      → IsBalanced (node rl b e v y rr)
      → Measured (node rl b e v y rr)
      → e + 1 ≡ height l + 2
      → height rr < height rl
      → let t =
          rotate_left recompute (node l a d u x (rotate_right recompute (node rl b e v y rr))) in
        IsBalanced t × (height t ≡ height l + 2)
  unfolding rotate_right rotate_left
  double_left-IsBalanced l a d u x leaf b e v y rr bl br ml tall lt = absurd (omega arith)
  double_left-IsBalanced l a d u x (node ml c f w z mr) b e v y rr bl
        (le, ge, (mle, mge, bml, bmr), brr) (m, (mm, mml, mmr), mrr) tall lt =
      let h_rr : height rr ≡ height l = grind arith in
      let inner =
        node_of mr b e v y rr (height mr) (height l) (height l + 1) bmr brr refl h_rr (grind arith)
          (grind arith) (grind arith) in
      let left =
        node_of l a d u x (refresh recompute ml) (height l) (height ml) (height l + 1) bl
          (IsBalanced-refresh ml bml) refl (height-refresh-Measured ml mml) (grind arith)
          (grind arith) (grind arith) in
      node_of (refresh recompute (node l a d u x (refresh recompute ml))) c f w z
        (refresh recompute (refresh recompute (node mr b e v y rr))) (height l + 1) (height l + 1)
        (height l + 2) (left.0) (inner.0) (left.1) (inner.1) (omega arith) (omega arith)
        (grind arith)
