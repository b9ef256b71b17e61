-- ===== src/Avl/Focus.antt =====
-- A change inside one subtree, and the three updates that end a rotation.
use fesos.Prelude.{ℕ, ◌≡◌, refl, Bool, Option, ◌∙◌, ne→==_false, sym, exclude_sym, ap}
use fesos.Avl.{avl_update}
use fesos.Avl.Nodes.{Store, Cmd, pure, load, ◌>>=◌, ◌>>◌}
use fesos.Avl.Tree.{Tree, leaf, node, root, has, Distinct, refresh}
use fesos.Avl.Rep.{linked, Rep, SameOutside, frame, out_of_node, Ends, ends, then-Ends}
use fesos.Avl.Update.{IsLocal, avl_update-refresh}

module _ {Item : Type 0} where
  -- A subtree is replaced by one that is in its place.
  pub change_left :
      {s : Store Item} (s' : Store Item) (par : ℕ) (l l' : Tree Item) (a d : ℕ) (u : Bool)
      (x : Item) (r : Tree Item)
      → Rep s par (node l a d u x r)
      → Distinct (node l a d u x r)
      → root l' ≡ root l
      → Rep s' a l'
      → SameOutside l s s'
      → Rep s' par (node l' a d u x r) × SameOutside (node l a d u x r) s s'
  change_left {s} s' par l l' a d u x r (ne, here, left, right) distinct top rep same = (
    (
      ne,
      same a (distinct.0)
          ∙ here
          ∙ ap (λ (p : ℕ). record (linked par l d u x r) { left = p }) (sym top),
      rep,
      frame s s' a r (λ p h. same p (exclude_sym (has p l) (has p r) (distinct.2 p) h)) right,
    ),
    λ p h. same p ((out_of_node p l a d u x r h).1),
  )

  pub change_right :
      {s : Store Item} (s' : Store Item) (par : ℕ) (l : Tree Item) (a d : ℕ) (u : Bool) (x : Item)
      (r r' : Tree Item)
      → Rep s par (node l a d u x r)
      → Distinct (node l a d u x r)
      → root r' ≡ root r
      → Rep s' a r'
      → SameOutside r s s'
      → Rep s' par (node l a d u x r') × SameOutside (node l a d u x r) s s'
  change_right {s} s' par l a d u x r r' (ne, here, left, right) distinct top rep same = (
    (
      ne,
      same a (distinct.1)
          ∙ here
          ∙ ap (λ (p : ℕ). record (linked par l d u x r) { right = p }) (sym top),
      frame s s' a l (λ p h. same p (distinct.2 p h)) left,
      rep,
    ),
    λ p h. same p ((out_of_node p l a d u x r h).2),
  )

module _ {Item : Type 0} (recompute : Option Item → Item → Option Item → Item) where
  pub root-refresh : (t : Tree Item) → root (refresh recompute t) ≡ root t
  unfolding refresh
  root-refresh leaf = refl
  root-refresh (node l a d u x r) = refl

  pub has-refresh : (p : ℕ) (t : Tree Item) → has p (refresh recompute t) ≡ has p t
  unfolding refresh
  has-refresh p leaf = refl
  has-refresh p (node l a d u x r) = refl

  pub Distinct-refresh : (t : Tree Item) → Distinct t → Distinct (refresh recompute t)
  unfolding refresh
  Distinct-refresh leaf h = h
  Distinct-refresh (node l a d u x r) h = h

  -- A subtree in a node with distinct addresses may be refreshed.
  pub Distinct-refresh_left :
      (l : Tree Item) (a d : ℕ) (u : Bool) (x : Item) (r : Tree Item)
      → Distinct (node l a d u x r)
      → Distinct (node (refresh recompute l) a d u x r)
  Distinct-refresh_left l a d u x r (nl, nr, apart, dl, dr) = (
    has-refresh a l ∙ nl,
    nr,
    λ p h. apart p (sym (has-refresh p l) ∙ h),
    Distinct-refresh l dl,
    dr,
  )

  pub Distinct-refresh_right :
      (l : Tree Item) (a d : ℕ) (u : Bool) (x : Item) (r : Tree Item)
      → Distinct (node l a d u x r)
      → Distinct (node l a d u x (refresh recompute r))
  Distinct-refresh_right l a d u x r (nl, nr, apart, dl, dr) =
      (nl, has-refresh a r ∙ nr, λ p h. has-refresh p r ∙ apart p h, dl, Distinct-refresh r dr)

module _ {Item : Type 0} (callback : ℕ → Cmd Item (Unit {0}))
    (recompute : Option Item → Item → Option Item → Item) (local : IsLocal callback recompute) where
  -- The end of both rotations: the children of the new root are updated, then the new root.
  pub update_children_and_root :
      (s : Store Item) (par : ℕ) (l : Tree Item) (b e : ℕ) (v : Bool) (y : Item) (r : Tree Item)
      → Rep s par (node l b e v y r)
      → Distinct (node l b e v y r)
      → Ends
          (λ p s'.
            (p ≡ b)
            × Rep s' par
                (refresh recompute (node (refresh recompute l) b e v y (refresh recompute r)))
            × SameOutside (node l b e v y r) s s')
          ((do
            top ← load b
            avl_update callback top.left
            top' ← load b
            avl_update callback top'.right
            avl_update callback b
            pure b)
            s)
  unfolding load
  update_children_and_root s par l b e v y r rep distinct =
      let not_null = ne→==_false b 0 (rep.0) in
      let l1 = refresh recompute l in
      let r1 = refresh recompute r in
      rw (not_null, rep.1)
        (then-Ends (avl_update-refresh callback recompute local s b l (rep.2) (distinct.3))
          λ _ s1 (rep_l, same_l).
            let (rep1, out1) =
              change_left s1 par l l1 b e v y r rep distinct (root-refresh recompute l) rep_l
                same_l in
            let distinct1 = Distinct-refresh_left recompute l b e v y r distinct in
            rw (not_null, rep1.1)
              (then-Ends (avl_update-refresh callback recompute local s1 b r (rep1.3) (distinct.4))
                λ _ s2 (rep_r, same_r).
                  let (rep2, out2) =
                    change_right s2 par l1 b e v y r r1 rep1 distinct1 (root-refresh recompute r)
                      rep_r same_r in
                  let distinct2 = Distinct-refresh_right recompute l1 b e v y r distinct1 in
                  then-Ends
                    (avl_update-refresh callback recompute local s2 par (node l1 b e v y r1) rep2
                      distinct2)
                    λ _ s3 (rep3, out3). ends (
                      refl,
                      rep3,
                      λ p h.
                          out3 p (rw (has-refresh recompute p l, has-refresh recompute p r) h)
                          ∙ out2 p (rw (has-refresh recompute p l) h)
                          ∙ out1 p h,
                    )))
