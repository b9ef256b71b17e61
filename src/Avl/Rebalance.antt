-- ===== src/Avl/Rebalance.antt =====
-- avl_check_and_balance refines rebalance.
use fesos.Prelude.{
  ℕ, ◌+◌, ◌≤◌, ◌≡◌, ◌≢◌, refl, Bool, false, if◌then◌else◌, arith, Option, ◌∙◌, ne→==_false, sym,
  max, Bool-cases, inl, inr,
}
use fesos.Avl.{
  within_one, is_positive, is_negative, avl_get_balance_factor, avl_check_and_balance,
  avl_rotate_right, avl_rotate_left,
}
use fesos.Avl.Nodes.{Store, done, Cmd, put, load, modify, set_left, set_right, ◌>>=◌, ◌>>◌}
use fesos.Avl.Tree.{
  Tree, leaf, node, root, height, Distinct, rotate_right, rotate_left, tilt, rebalance,
}
use fesos.Avl.Rep.{Rep, Becomes, ends, then-Ends, weaken}
use fesos.Avl.Update.{IsLocal, levels-height}
use fesos.Avl.Rotate.Right.{avl_rotate_right-rotate_right}
use fesos.Avl.Rotate.Left.{avl_rotate_left-rotate_left}
use fesos.Avl.Child.{Distinct-left, Distinct-right, replace_left, replace_right}
use fesos.Avl.Shape.{
  Measured, not_positive-le, not_negative-le, has-rotate_left, has-rotate_right,
  root-rotate_left_ne, root-rotate_right_ne, tall_left, tall_right, root-rotate_left,
  root-rotate_right, Distinct-rotate_left, Distinct-rotate_right,
}

module _ {Item : Type 0} (callback : ℕ → Cmd Item (Unit {0}))
    (recompute : Option Item → Item → Option Item → Item) (local : IsLocal callback recompute) where
  avl_get_balance_factor-tilt :
      (s : Store Item) (par : ℕ) (l : Tree Item) (a d : ℕ) (u : Bool) (x : Item) (r : Tree Item)
      → Rep s par (node l a d u x r)
      → avl_get_balance_factor callback a s ≡ done (tilt (node l a d u x r)) s
  unfolding avl_get_balance_factor tilt load
  avl_get_balance_factor-tilt s par l a d u x r (na, here, left, right) =
      rw (ne→==_false a 0 na, here)
        (rw (levels-height callback recompute local s a l left)
          (rw (levels-height callback recompute local s a r right)))

  -- A child of two levels that does not lean outwards has a child on the inside.
  inner_right :
      (s : Store Item) (par : ℕ) (l : Tree Item) (a d : ℕ) (u : Bool) (x : Item) (r : Tree Item)
      → Rep s par (node l a d u x r)
      → Measured (node l a d u x r)
      → 2 ≤ d + 1
      → is_positive (tilt (node l a d u x r)) ≡ false
      → root r ≢ 0
  unfolding tilt
  inner_right s par l a d u x leaf rep measured tall h =
      let le = not_positive-le (height l) 0 h in
      let e : d ≡ max (height l) 0 = measured.0 in absurd (grind arith)
  inner_right s par l a d u x (node rl b e v y rr) rep measured tall h = rep.3.0

  inner_left :
      (s : Store Item) (par : ℕ) (l : Tree Item) (a d : ℕ) (u : Bool) (x : Item) (r : Tree Item)
      → Rep s par (node l a d u x r)
      → Measured (node l a d u x r)
      → 2 ≤ d + 1
      → is_negative (tilt (node l a d u x r)) ≡ false
      → root l ≢ 0
  unfolding tilt
  inner_left s par leaf a d u x r rep measured tall h =
      let le = not_negative-le 0 (height r) h in
      let e : d ≡ max 0 (height r) = measured.0 in absurd (grind arith)
  inner_left s par (node ll b e v y lr) a d u x r rep measured tall h = rep.2.0

  rotate_right-Becomes :
      (s : Store Item) (par : ℕ) (l : Tree Item) (a d : ℕ) (u : Bool) (x : Item) (r : Tree Item)
      → root l ≢ 0
      → let t = node l a d u x r in
        Rep s par t
        → Distinct t
        → Becomes s par t (rotate_right recompute t) (avl_rotate_right callback a s)
  rotate_right-Becomes s par leaf a d u x r ne rep distinct = absurd (ne refl)
  rotate_right-Becomes s par (node ll b e v y lr) a d u x r ne rep distinct =
      weaken
        (avl_rotate_right-rotate_right callback recompute local s par ll b e v y lr a d u x r rep
          distinct)
        (λ p s' (top, rep', same).
          (top ∙ sym (root-rotate_right recompute ll b e v y lr a d u x r), rep', same))

  rotate_left-Becomes :
      (s : Store Item) (par : ℕ) (l : Tree Item) (a d : ℕ) (u : Bool) (x : Item) (r : Tree Item)
      → root r ≢ 0
      → let t = node l a d u x r in
        Rep s par t
        → Distinct t
        → Becomes s par t (rotate_left recompute t) (avl_rotate_left callback a s)
  rotate_left-Becomes s par l a d u x leaf ne rep distinct = absurd (ne refl)
  rotate_left-Becomes s par l a d u x (node rl b e v y rr) ne rep distinct =
      weaken
        (avl_rotate_left-rotate_left callback recompute local s par l a d u x rl b e v y rr rep
          distinct)
        (λ p s' (top, rep', same).
          (top ∙ sym (root-rotate_left recompute l a d u x rl b e v y rr), rep', same))

  -- The double rotations.
  double_right :
      (s : Store Item) (par : ℕ) (l : Tree Item) (a d : ℕ) (u : Bool) (x : Item) (r : Tree Item)
      → root (rotate_left recompute l) ≢ 0
      → let t = node l a d u x r in
        Rep s par t
        → Distinct t
        → Becomes s a l (rotate_left recompute l) (avl_rotate_left callback (root l) s)
        → Becomes s par t (rotate_right recompute (node (rotate_left recompute l) a d u x r)) (
            (do
              turned ← avl_rotate_left callback (root l)
              set_left a turned
              avl_rotate_right callback a)
              s)
  unfolding modify
  double_right s par l a d u x r ne rep distinct turn =
      let l' = rotate_left recompute l in
      let addresses = has-rotate_left recompute l in
      then-Ends turn λ q s1 (top, rep1, same1).
        let (rep2, same2) =
          replace_left s s1 par l l' a d u x r r addresses rep distinct rep1 same1 in
        let distinct2 =
          Distinct-left l l' a d d u u x x r r addresses
            (Distinct-rotate_left recompute l (distinct.3)) distinct in
        rw (ne→==_false a 0 (rep.0), top)
          (weaken
            (rotate_right-Becomes (put s1 a (record (s1 a) { left = root l' })) par l' a d u x r ne
              rep2 distinct2)
            λ p s' (top', rep', same').
              (top', rep', λ k h. same' k (rw (addresses k) h) ∙ same2 k h))

  double_left :
      (s : Store Item) (par : ℕ) (l : Tree Item) (a d : ℕ) (u : Bool) (x : Item) (r : Tree Item)
      → root (rotate_right recompute r) ≢ 0
      → let t = node l a d u x r in
        Rep s par t
        → Distinct t
        → Becomes s a r (rotate_right recompute r) (avl_rotate_right callback (root r) s)
        → Becomes s par t (rotate_left recompute (node l a d u x (rotate_right recompute r))) (
            (do
              turned ← avl_rotate_right callback (root r)
              set_right a turned
              avl_rotate_left callback a)
              s)
  unfolding modify
  double_left s par l a d u x r ne rep distinct turn =
      let r' = rotate_right recompute r in
      let addresses = has-rotate_right recompute r in
      then-Ends turn λ q s1 (top, rep1, same1).
        let (rep2, same2) =
          replace_right s s1 par l l a d u x r r' addresses rep distinct rep1 same1 in
        let distinct2 =
          Distinct-right l l a d d u u x x r r' addresses
            (Distinct-rotate_right recompute r (distinct.4)) distinct in
        rw (ne→==_false a 0 (rep.0), top)
          (weaken
            (rotate_left-Becomes (put s1 a (record (s1 a) { right = root r' })) par l a d u x r' ne
              rep2 distinct2)
            λ p s' (top', rep', same').
              (top', rep', λ k h. same' k (rw (addresses k) h) ∙ same2 k h))

  balance_left :
      (s : Store Item) (par : ℕ) (l : Tree Item) (a d : ℕ) (u : Bool) (x : Item) (r : Tree Item)
      → let t = node l a d u x r in
        Rep s par t
        → Distinct t
        → Measured l
        → 2 ≤ height l
        → Becomes s par t
            (if is_positive (tilt l)
              then rotate_right recompute t
              else rotate_right recompute (node (rotate_left recompute l) a d u x r))
            ((do
              left_balance ← avl_get_balance_factor callback (root l)
              if is_positive left_balance then avl_rotate_right callback a else do
                turned ← avl_rotate_left callback (root l)
                set_left a turned
                avl_rotate_right callback a)
              s)
  balance_left s par leaf a d u x r rep distinct measured tall = absurd (omega arith)
  balance_left s par (node ll b e v y lr) a d u x r rep distinct measured tall =
      let l = node ll b e v y lr in
      rw (avl_get_balance_factor-tilt s a ll b e v y lr (rep.2))
        (elim (Bool-cases (is_positive (tilt l))) [
          | inl h ↦ rw h (rotate_right-Becomes s par l a d u x r (rep.2.0) rep distinct)
          | inr h ↦
              let inner = inner_right s a ll b e v y lr (rep.2) measured tall h in
              rw h (
                double_right s par l a d u x r (root-rotate_left_ne recompute ll b e v y lr inner)
                  rep distinct (rotate_left-Becomes s a ll b e v y lr inner (rep.2) (distinct.3)))
        ])

  balance_right :
      (s : Store Item) (par : ℕ) (l : Tree Item) (a d : ℕ) (u : Bool) (x : Item) (r : Tree Item)
      → let t = node l a d u x r in
        Rep s par t
        → Distinct t
        → Measured r
        → 2 ≤ height r
        → Becomes s par t
            (if is_negative (tilt r)
              then rotate_left recompute t
              else rotate_left recompute (node l a d u x (rotate_right recompute r)))
            ((do
              right_balance ← avl_get_balance_factor callback (root r)
              if is_negative right_balance then avl_rotate_left callback a else do
                turned ← avl_rotate_right callback (root r)
                set_right a turned
                avl_rotate_left callback a)
              s)
  balance_right s par l a d u x leaf rep distinct measured tall = absurd (omega arith)
  balance_right s par l a d u x (node rl b e v y rr) rep distinct measured tall =
      let r = node rl b e v y rr in
      rw (avl_get_balance_factor-tilt s a rl b e v y rr (rep.3))
        (elim (Bool-cases (is_negative (tilt r))) [
          | inl h ↦ rw h (rotate_left-Becomes s par l a d u x r (rep.3.0) rep distinct)
          | inr h ↦
              let inner = inner_left s a rl b e v y rr (rep.3) measured tall h in
              rw h (
                double_left s par l a d u x r (root-rotate_right_ne recompute rl b e v y rr inner)
                  rep distinct (rotate_right-Becomes s a rl b e v y rr inner (rep.3) (distinct.4)))
        ])

  pub avl_check_and_balance-rebalance :
      (s : Store Item) (par : ℕ) (l : Tree Item) (a d : ℕ) (u : Bool) (x : Item) (r : Tree Item)
      → let t = node l a d u x r in
        Rep s par t
        → Distinct t
        → Measured l
        → Measured r
        → Becomes s par t (rebalance recompute t) (avl_check_and_balance callback a s)
  unfolding avl_check_and_balance rebalance load
  avl_check_and_balance-rebalance s par l a d u x r rep distinct ml mr =
      let t = node l a d u x r in
      rw (avl_get_balance_factor-tilt s par l a d u x r rep)
        (elim (Bool-cases (within_one (tilt t))) [
          | inl h ↦ rw h (ends (refl, rep, λ p k. refl))
          | inr h ↦
              rw (h, ne→==_false a 0 (rep.0), rep.1)
                (elim (Bool-cases (is_positive (tilt t))) [
                  | inl k ↦
                      rw k
                        (balance_left s par l a d u x r rep distinct ml (tall_left l a d u x r h k))
                  | inr k ↦
                      rw k (
                        balance_right s par l a d u x r rep distinct mr
                          (tall_right l a d u x r h k))
                ])
        ])
