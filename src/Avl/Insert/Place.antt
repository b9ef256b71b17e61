-- ===== src/Avl/Insert/Place.antt =====
-- The writes of avl_insert_rec that set a child.
use fesos.Prelude.{
  ℕ, ◌≡◌, ◌≢◌, refl, Bool, true, false, ◌==◌, Option, ◌∙◌, ne→==_false, sym, ap, or_intro,
  exclude_sym,
}
use fesos.Avl.{Comparison, avl_insert_rec}
use fesos.Avl.Nodes.{
  AvlNode, Store, Cmd, put, modify, null, set_left, set_right, set_parent, ◌>>=◌, ◌>>◌,
}
use fesos.Avl.Tree.{Tree, leaf, node, root, has, Distinct, insert}
use fesos.Avl.Rep.{linked, Rep, SameOutside, Leaves, frame, out_of_node, Ends, ends, then-Ends}
use fesos.Avl.Update.{put_other, put_id}
use fesos.Avl.Child.{attach_left, attach_right}
use fesos.Avl.Grown.{single, Distinct-insert, Distinct-insert_left, Distinct-insert_right}

module _ {Item : Type 0} (recompute : Option Item → Item → Option Item → Item)
    (compare_items : Item → Item → Comparison) where
  abbrev pub inserted : ℕ → Bool → Item → Tree Item → Tree Item
  inserted n v y t = insert recompute compare_items (single recompute compare_items n 0 v y) y t

module _ {Item : Type 0} (callback : ℕ → Cmd Item (Unit {0}))
    (recompute : Option Item → Item → Option Item → Item) (comp : ℕ → ℕ → Cmd Item Comparison)
    (compare_items : Item → Item → Comparison) where
  hang_left :
      (s : Store Item) (par a d : ℕ) (u : Bool) (x : Item) (r : Tree Item) (n : ℕ) (v : Bool)
      (y : Item)
      → Rep s par (node leaf a d u x r)
      → Distinct (node leaf a d u x r)
      → n ≢ 0
      → n ≢ a
      → s n ≡ linked a leaf 0 v y leaf
      → let t = node (single recompute compare_items n 0 v y) a d u x r in
        Ends (λ _ s'. Rep s' par t × SameOutside t s s') ((do set_left a n; set_parent n a) s)
  unfolding modify
  hang_left s par a d u x r n v y (na, here, tt, right) distinct nn apart here_n =
      let new = single recompute compare_items n 0 v y in
      let t = node new a d u x r in
      let a_new = or_intro (ne→==_false a n (λ q. apart (sym q))) refl in
      let m = record (s a) { left = n } in
      let s1 = put s a m in
      let rep1 =
        attach_left s par leaf new a d u x r r na here a_new (distinct.1) (nn, here_n, tt, tt)
          right in
      let here1 = put_other s a n m apart ∙ here_n in
      let same1 : (p : ℕ) → put s1 n (record (s1 n) { parent = a }) p ≡ s1 p = λ p.
        put_id s1 n p (record (s1 n) { parent = a })
          (here1 ∙ sym (ap (λ (k : AvlNode Item). record k { parent = a }) here1)) in
      rw (ne→==_false a 0 na) (
        rw (ne→==_false n 0 nn) (
          ends (
            frame s1 (put s1 n (record (s1 n) { parent = a })) par t (λ p h. same1 p) rep1,
            λ p h. same1 p ∙ put_other s a p m ((out_of_node p new a d u x r h).0),
          )))

  set_left_child :
      (s s1 : Store Item) (par : ℕ) (l : Tree Item) (a d : ℕ) (u : Bool) (x : Item) (r : Tree Item)
      (n : ℕ) (v : Bool) (y : Item) (q : ℕ)
      → Rep s par (node l a d u x r)
      → Distinct (node l a d u x r)
      → has n (node l a d u x r) ≡ false
      → q ≡ root (inserted recompute compare_items n v y l)
      → Rep s1 a (inserted recompute compare_items n v y l)
      → SameOutside (inserted recompute compare_items n v y l) s s1
      → let t = node (inserted recompute compare_items n v y l) a d u x r in
        Ends (λ _ s'. Rep s' par t × SameOutside t s s') (set_left a q s1)
  unfolding modify
  set_left_child s s1 par l a d u x r n v y q (na, here, left, right) distinct out top rep1 same1 =
      let l' = inserted recompute compare_items n v y l in
      let out_l = (out_of_node n l a d u x r out).1 in
      let (a_l, a_r, apart, dl', dr) =
        Distinct-insert_left recompute compare_items n 0 v y l a d u x r out
          (Distinct-insert recompute compare_items n 0 v y l out_l (distinct.3)) distinct in
      rw (ne→==_false a 0 na, top)
        (ends (
          attach_left s1 par l l' a d u x r r na (same1 a a_l ∙ here) a_l a_r rep1 (
              frame s s1 a r (λ p h. same1 p (exclude_sym (has p l') (has p r) (apart p) h)) right),
          λ p h.
              let (pa, p_l, p_r) = out_of_node p l' a d u x r h in
              put_other s1 a p (record (s1 a) { left = root l' }) pa ∙ same1 p p_l,
        ))

  pub place_left :
      (fuel : ℕ) (s : Store Item) (par : ℕ) (l : Tree Item) (a d : ℕ) (u : Bool) (x : Item)
      (r : Tree Item) (n : ℕ) (v : Bool) (y : Item)
      → Rep s par (node l a d u x r)
      → Distinct (node l a d u x r)
      → n ≢ 0
      → has n (node l a d u x r) ≡ false
      → s n ≡ linked a leaf 0 v y leaf
      → (root l ≢ 0
          → Leaves s a
              (inserted recompute compare_items n v y l)
              (avl_insert_rec callback comp fuel (root l) n s))
      → let t = node (inserted recompute compare_items n v y l) a d u x r in
        Ends
          (λ _ s'. Rep s' par t × SameOutside t s s')
          (elim (root l == null) as (λ _. Cmd Item (Unit {0})) [
            | true ↦ do set_left a n; set_parent n a
            | false ↦ do below ← avl_insert_rec callback comp fuel (root l) n; set_left a below
          ]
            s)
  unfolding insert
  place_left fuel s par leaf a d u x r n v y rep distinct nn out here_n below =
      hang_left s par a d u x r n v y rep distinct nn ((out_of_node n leaf a d u x r out).0) here_n
  place_left fuel s par (node ll b e w z lr) a d u x r n v y rep distinct nn out here_n below =
      rw (ne→==_false b 0 (rep.2.0)) (
        then-Ends (below (rep.2.0)) λ q s1 (top, rep1, same1).
          set_left_child s s1 par (node ll b e w z lr) a d u x r n v y q rep distinct out top rep1
            same1)

  hang_right :
      (s : Store Item) (par : ℕ) (l : Tree Item) (a d : ℕ) (u : Bool) (x : Item) (n : ℕ) (v : Bool)
      (y : Item)
      → Rep s par (node l a d u x leaf)
      → Distinct (node l a d u x leaf)
      → n ≢ 0
      → n ≢ a
      → s n ≡ linked a leaf 0 v y leaf
      → let t = node l a d u x (single recompute compare_items n 0 v y) in
        Ends (λ _ s'. Rep s' par t × SameOutside t s s') ((do set_right a n; set_parent n a) s)
  unfolding modify
  hang_right s par l a d u x n v y (na, here, left, tt) distinct nn apart here_n =
      let new = single recompute compare_items n 0 v y in
      let t = node l a d u x new in
      let a_new = or_intro (ne→==_false a n (λ q. apart (sym q))) refl in
      let m = record (s a) { right = n } in
      let s1 = put s a m in
      let rep1 =
        attach_right s par l l a d u x leaf new na here (distinct.0) a_new left
          (nn, here_n, tt, tt) in
      let here1 = put_other s a n m apart ∙ here_n in
      let same1 : (p : ℕ) → put s1 n (record (s1 n) { parent = a }) p ≡ s1 p = λ p.
        put_id s1 n p (record (s1 n) { parent = a })
          (here1 ∙ sym (ap (λ (k : AvlNode Item). record k { parent = a }) here1)) in
      rw (ne→==_false a 0 na) (
        rw (ne→==_false n 0 nn) (
          ends (
            frame s1 (put s1 n (record (s1 n) { parent = a })) par t (λ p h. same1 p) rep1,
            λ p h. same1 p ∙ put_other s a p m ((out_of_node p l a d u x new h).0),
          )))

  set_right_child :
      (s s1 : Store Item) (par : ℕ) (l : Tree Item) (a d : ℕ) (u : Bool) (x : Item) (r : Tree Item)
      (n : ℕ) (v : Bool) (y : Item) (q : ℕ)
      → Rep s par (node l a d u x r)
      → Distinct (node l a d u x r)
      → has n (node l a d u x r) ≡ false
      → q ≡ root (inserted recompute compare_items n v y r)
      → Rep s1 a (inserted recompute compare_items n v y r)
      → SameOutside (inserted recompute compare_items n v y r) s s1
      → let t = node l a d u x (inserted recompute compare_items n v y r) in
        Ends (λ _ s'. Rep s' par t × SameOutside t s s') (set_right a q s1)
  unfolding modify
  set_right_child s s1 par l a d u x r n v y q (na, here, left, right) distinct out top rep1 same1 =
      let r' = inserted recompute compare_items n v y r in
      let out_r = (out_of_node n l a d u x r out).2 in
      let (a_l, a_r, apart, dl, dr') =
        Distinct-insert_right recompute compare_items n 0 v y l a d u x r out
          (Distinct-insert recompute compare_items n 0 v y r out_r (distinct.4)) distinct in
      rw (ne→==_false a 0 na, top)
        (ends (
          attach_right s1 par l l a d u x r r' na (same1 a a_r ∙ here) a_l a_r
              (frame s s1 a l (λ p h. same1 p (apart p h)) left) rep1,
          λ p h.
              let (pa, p_l, p_r) = out_of_node p l a d u x r' h in
              put_other s1 a p (record (s1 a) { right = root r' }) pa ∙ same1 p p_r,
        ))

  pub place_right :
      (fuel : ℕ) (s : Store Item) (par : ℕ) (l : Tree Item) (a d : ℕ) (u : Bool) (x : Item)
      (r : Tree Item) (n : ℕ) (v : Bool) (y : Item)
      → Rep s par (node l a d u x r)
      → Distinct (node l a d u x r)
      → n ≢ 0
      → has n (node l a d u x r) ≡ false
      → s n ≡ linked a leaf 0 v y leaf
      → (root r ≢ 0
          → Leaves s a
              (inserted recompute compare_items n v y r)
              (avl_insert_rec callback comp fuel (root r) n s))
      → let t = node l a d u x (inserted recompute compare_items n v y r) in
        Ends
          (λ _ s'. Rep s' par t × SameOutside t s s')
          (elim (root r == null) as (λ _. Cmd Item (Unit {0})) [
            | true ↦ do set_right a n; set_parent n a
            | false ↦ do below ← avl_insert_rec callback comp fuel (root r) n; set_right a below
          ]
            s)
  unfolding insert
  place_right fuel s par l a d u x leaf n v y rep distinct nn out here_n below =
      hang_right s par l a d u x n v y rep distinct nn ((out_of_node n l a d u x leaf out).0) here_n
  place_right fuel s par l a d u x (node rl b e w z rr) n v y rep distinct nn out here_n below =
      rw (ne→==_false b 0 (rep.3.0)) (
        then-Ends (below (rep.3.0)) λ q s1 (top, rep1, same1).
          set_right_child s s1 par l a d u x (node rl b e w z rr) n v y q rep distinct out top rep1
            same1)
