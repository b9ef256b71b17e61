-- ===== src/Avl/Child.antt =====
-- A node gets a new child: a tree of the same addresses.
use fesos.Prelude.{ℕ, ◌≡◌, ◌≢◌, Bool, false, ◌∙◌, ap, sym, exclude_sym}
use fesos.Avl.Nodes.{AvlNode, Store, put}
use fesos.Avl.Tree.{Tree, node, root, has, Distinct}
use fesos.Avl.Rep.{linked, Rep, SameOutside, frame, out_of_node}
use fesos.Avl.Update.{put_same, put_other, frame_put}

module _ {Item : Type 0} where
  abbrev pub SameAddresses : Tree Item → Tree Item → Type 0
  SameAddresses t t' = (p : ℕ) → has p t' ≡ has p t

  module _ (l l' : Tree Item) (a d d' : ℕ) (u u' : Bool) (x x' : Item) (r r' : Tree Item) where
    pub Distinct-left :
        SameAddresses l l'
        → Distinct l'
        → Distinct (node l a d u x r)
        → Distinct (node l' a d' u' x' r)
    Distinct-left same dl' (a_l, a_r, apart, dl, dr) =
        (same a ∙ a_l, a_r, (λ p h. apart p (sym (same p) ∙ h)), dl', dr)

    pub Distinct-right :
        SameAddresses r r'
        → Distinct r'
        → Distinct (node l a d u x r)
        → Distinct (node l a d' u' x' r')
    Distinct-right same dr' (a_l, a_r, apart, dl, dr) =
        (a_l, same a ∙ a_r, (λ p h. same p ∙ apart p h), dl, dr')

  module _ (s1 : Store Item) (par : ℕ) (l l' : Tree Item) (a d : ℕ) (u : Bool) (x : Item)
      (r r' : Tree Item) where
    pub attach_left :
        a ≢ 0
        → s1 a ≡ linked par l d u x r
        → has a l' ≡ false
        → has a r ≡ false
        → Rep s1 a l'
        → Rep s1 a r
        → Rep (put s1 a (record (s1 a) { left = root l' })) par (node l' a d u x r)
    attach_left na here a_l a_r rep right =
        let n = record (s1 a) { left = root l' } in
        (
          na,
          put_same s1 a n ∙ ap (λ (m : AvlNode Item). record m { left = root l' }) here,
          frame_put s1 a a n l' a_l rep,
          frame_put s1 a a n r a_r right,
        )

    pub attach_right :
        a ≢ 0
        → s1 a ≡ linked par l d u x r
        → has a l ≡ false
        → has a r' ≡ false
        → Rep s1 a l
        → Rep s1 a r'
        → Rep (put s1 a (record (s1 a) { right = root r' })) par (node l a d u x r')
    attach_right na here a_l a_r left rep =
        let n = record (s1 a) { right = root r' } in
        (
          na,
          put_same s1 a n ∙ ap (λ (m : AvlNode Item). record m { right = root r' }) here,
          frame_put s1 a a n l a_l left,
          frame_put s1 a a n r' a_r rep,
        )

  module _ (s s1 : Store Item) (par : ℕ) (l l' : Tree Item) (a d : ℕ) (u : Bool) (x : Item)
      (r r' : Tree Item) where
    pub replace_left :
        SameAddresses l l'
        → Rep s par (node l a d u x r)
        → Distinct (node l a d u x r)
        → Rep s1 a l'
        → SameOutside l s s1
        → let s2 = put s1 a (record (s1 a) { left = root l' }) in
          Rep s2 par (node l' a d u x r) × SameOutside (node l a d u x r) s s2
    replace_left addresses (na, here, left, right) (a_l, a_r, apart, dl, dr) rep same =
        let n = record (s1 a) { left = root l' } in
        (
          attach_left s1 par l l' a d u x r r' na (same a a_l ∙ here) (addresses a ∙ a_l) a_r rep
              (frame s s1 a r (λ p h. same p (exclude_sym (has p l) (has p r) (apart p) h)) right),
          λ p h.
              let (pa, p_l, p_r) = out_of_node p l a d u x r h in
              put_other s1 a p n pa ∙ same p p_l,
        )

    pub replace_right :
        SameAddresses r r'
        → Rep s par (node l a d u x r)
        → Distinct (node l a d u x r)
        → Rep s1 a r'
        → SameOutside r s s1
        → let s2 = put s1 a (record (s1 a) { right = root r' }) in
          Rep s2 par (node l a d u x r') × SameOutside (node l a d u x r) s s2
    replace_right addresses (na, here, left, right) (a_l, a_r, apart, dl, dr) rep same =
        let n = record (s1 a) { right = root r' } in
        (
          attach_right s1 par l l' a d u x r r' na (same a a_r ∙ here) a_l (addresses a ∙ a_r)
              (frame s s1 a l (λ p h. same p (apart p h)) left) rep,
          λ p h.
              let (pa, p_l, p_r) = out_of_node p l a d u x r h in
              put_other s1 a p n pa ∙ same p p_r,
        )
