-- ===== src/Avl/Rotate/Turn.antt =====
-- A rotation keeps the set of addresses, and keeps them distinct.
use fesos.Prelude.{
  ℕ, ◌≡◌, refl, Bool, true, false, ◌||◌, ◌==◌, or_left, or_right, or_intro, ==_refl, ne→==_false,
  sym, exclude_sym,
}
use fesos.Avl.Tree.{Tree, node, has, Distinct}
use fesos.Avl.Rep.{has-ne, out_of_node}

or_turn : (a b c d e : Bool) → a || ((b || (c || d)) || e) ≡ b || (c || (a || (d || e)))
or_turn false false false d e = refl
or_turn false false true d e = refl
or_turn false true c d e = refl
or_turn true false false d e = refl
or_turn true false true d e = refl
or_turn true true c d e = refl

module _ {Item : Type 0} where
  pub has_turn :
      (p : ℕ) (ll : Tree Item) (b e : ℕ) (v : Bool) (y : Item) (lr : Tree Item) (a d : ℕ) (u : Bool)
      (x : Item) (r : Tree Item)
      → has p (node (node ll b e v y lr) a d u x r) ≡ has p (node ll b e v y (node lr a d u x r))
  has_turn p ll b e v y lr a d u x r = or_turn (p == a) (p == b) (has p ll) (has p lr) (has p r)

  pub Distinct-turn_right :
      (ll : Tree Item) (b e : ℕ) (v : Bool) (y : Item) (lr : Tree Item) (a d : ℕ) (u : Bool)
      (x : Item) (r : Tree Item)
      → Distinct (node (node ll b e v y lr) a d u x r)
      → Distinct (node ll b e v y (node lr a d u x r))
  Distinct-turn_right ll b e v y lr a d u x r
        (out_l, out_r, apart, (b_ll, b_lr, apart_l, dll, dlr), dr) =
      let (ab, a_ll, a_lr) = out_of_node a ll b e v y lr out_l in
      (
        b_ll,
        or_intro (ne→==_false b a (λ q. ab (sym q)))
            (or_intro b_lr (apart b (or_left (has b ll || has b lr) (==_refl b)))),
        (λ p h.
            or_intro (ne→==_false p a (has-ne ll p a h a_ll))
              (or_intro (apart_l p h) (apart p (or_right _ (or_left _ h))))),
        dll,
        (a_lr, out_r, (λ p h. apart p (or_right _ (or_right _ h))), dlr, dr),
      )

  pub Distinct-turn_left :
      (ll : Tree Item) (b e : ℕ) (v : Bool) (y : Item) (lr : Tree Item) (a d : ℕ) (u : Bool)
      (x : Item) (r : Tree Item)
      → Distinct (node ll b e v y (node lr a d u x r))
      → Distinct (node (node ll b e v y lr) a d u x r)
  Distinct-turn_left ll b e v y lr a d u x r
        (b_ll, out_b, apart, dll, (a_lr, a_r, apart_r, dlr, dr)) =
      let (ba, b_lr, b_r) = out_of_node b lr a d u x r out_b in
      (
        or_intro (ne→==_false a b (λ q. ba (sym q))) (
            or_intro
              (exclude_sym (has a ll) (has a (node lr a d u x r)) (apart a)
                (or_left (has a lr || has a r) (==_refl a)))
              a_lr),
        a_r,
        (λ p h.
            exclude_sym (has p r) (has p (node ll b e v y lr))
              (λ k. or_intro (ne→==_false p b (has-ne r p b k b_r)) (
                or_intro
                  (exclude_sym (has p ll) (has p (node lr a d u x r)) (apart p)
                    (or_right (p == a) (or_right (has p lr) k)))
                  (exclude_sym (has p lr) (has p r) (apart_r p) k)))
              h),
        (b_ll, b_lr, (λ p h. (out_of_node p lr a d u x r (apart p h)).1), dll, dlr),
        dr,
      )
