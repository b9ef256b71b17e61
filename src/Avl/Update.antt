-- ===== src/Avl/Update.antt =====
-- avl_update refreshes the fields that a node computes from its children.
use fesos.Prelude.{
  ℕ, ◌≡◌, ◌≢◌, refl, Bool, true, false, ◌==◌, if◌then◌else◌, Option, none, some, ◌∙◌, Bool-cases,
  inl, inr, ==_iff, ==_refl, ne→==_false, sym, max, ap,
}
use fesos.Avl.{levels, avl_update}
use fesos.Avl.Nodes.{AvlNode, Store, done, Cmd, pure, put, load, modify, null}
use fesos.Avl.Tree.{Tree, leaf, node, root, height, item?, has, Distinct, refresh}
use fesos.Avl.Rep.{linked, Rep, SameOutside, frame, has-ne, out_of_node, Ends, ends}

module _ {Item : Type 0} where
  abbrev pub child_item : Store Item → ℕ → Option Item
  child_item s p = if p == null then none else some ((s p).item)

  -- The callback sets the item of its node to what `recompute` makes of it and of the items of the
  -- children, and does nothing else.
  abbrev pub IsLocal :
      (ℕ → Cmd Item (Unit {0})) → (Option Item → Item → Option Item → Item) → Type 0
  IsLocal callback recompute =
      (s : Store Item) (a : ℕ)
      → a ≢ 0
      → callback a s
        ≡ done tt (
            put s a (record (s a) {
              item = recompute (child_item s (s a).left) (s a).item (child_item s (s a).right);
            }))

  pub put_same : (s : Store Item) (a : ℕ) (n : AvlNode Item) → put s a n a ≡ n
  unfolding put
  put_same s a n = rw (==_refl a)

  pub put_other : (s : Store Item) (a p : ℕ) (n : AvlNode Item) → p ≢ a → put s a n p ≡ s p
  unfolding put
  put_other s a p n ne = rw (ne→==_false p a ne)

  pub load-Rep :
      (s : Store Item) (par : ℕ) (l : Tree Item) (a d : ℕ) (u : Bool) (x : Item) (r : Tree Item)
      → Rep s par (node l a d u x r)
      → load a s ≡ done (linked par l d u x r) s
  unfolding load
  load-Rep s par l a d u x r rep = rw (ne→==_false a 0 (rep.0), rep.1)

  -- A write of what is there already.
  pub put_id : (s : Store Item) (a p : ℕ) (n : AvlNode Item) → s a ≡ n → put s a n p ≡ s p
  unfolding put
  put_id s a p n here = elim (Bool-cases (p == a)) [
    | inl h ↦ rw h (sym (ap s ((==_iff p a).0 h) ∙ here))
    | inr h ↦ rw h
  ]

  -- A store with one node changed forms the same subtrees elsewhere.
  pub frame_put :
      (s : Store Item) (par a : ℕ) (n : AvlNode Item) (t : Tree Item)
      → has a t ≡ false
      → Rep s par t
      → Rep (put s a n) par t
  frame_put s par a n t out rep =
      frame s (put s a n) par t (λ p h. put_other s a p n (has-ne t p a h out)) rep

  child_item-Rep :
      (s : Store Item) (par : ℕ) (t : Tree Item) → Rep s par t → child_item s (root t) ≡ item? t
  child_item-Rep s par leaf rep = refl
  child_item-Rep s par (node l a d u x r) (ne, here, left, right) = rw (ne→==_false a 0 ne, here)

  -- Where a store differs from `s` at the root only, the tree is the same below the root.
  pub new_root :
      {s : Store Item} (s' : Store Item) (par par' a d d' : ℕ) (u u' : Bool) (x x' : Item)
      (l r : Tree Item)
      → a ≢ 0
      → Rep s a l
      → Rep s a r
      → Distinct (node l a d u x r)
      → s' a ≡ linked par' l d' u' x' r
      → ((p : ℕ) → p ≢ a → s' p ≡ s p)
      → Rep s' par' (node l a d' u' x' r) × SameOutside (node l a d u x r) s s'
  new_root {s} s' par par' a d d' u u' x x' l r ne left right distinct here same = (
    (
      ne,
      here,
      frame s s' a l (λ p h. same p (has-ne l p a h distinct.0)) left,
      frame s s' a r (λ p h. same p (has-ne r p a h distinct.1)) right,
    ),
    λ p h. same p ((out_of_node p l a d u x r h).0),
  )

module _ {Item : Type 0} (callback : ℕ → Cmd Item (Unit {0}))
    (recompute : Option Item → Item → Option Item → Item) (local : IsLocal callback recompute) where
  pub levels-height :
      (s : Store Item) (par : ℕ) (t : Tree Item)
      → Rep s par t
      → levels callback (root t) s ≡ done (height t) s
  unfolding levels load
  levels-height s par leaf rep = refl
  levels-height s par (node l a d u x r) (ne, here, left, right) =
      rw (ne→==_false a 0 ne) (rw (ne→==_false a 0 ne, here))

  -- The last step of avl_update, after the write of the depth.
  call-refresh :
      (s : Store Item) (par : ℕ) (l : Tree Item) (a d : ℕ) (u : Bool) (x : Item) (r : Tree Item)
      → a ≢ 0
      → Rep s a l
      → Rep s a r
      → Distinct (node l a d u x r)
      → let s1 = put s a (linked par l (max (height l) (height r)) u x r) in
        Ends
          (λ _ s'.
            Rep s' par (refresh recompute (node l a d u x r)) × SameOutside (node l a d u x r) s s')
          ((if u then callback a else pure tt) s1)
  unfolding refresh
  call-refresh s par l a d false x r ne left right distinct =
      let n = linked par l (max (height l) (height r)) false x r in
      ends (
        new_root (put s a n) par par a d (max (height l) (height r)) false false x x l r ne left
          right distinct (put_same s a n) (λ p h. put_other s a p n h))
  call-refresh s par l a d true x r ne left right distinct =
      let n = linked par l (max (height l) (height r)) true x r in
      let s1 = put s a n in
      let left1 = frame_put s a a n l (distinct.0) left in
      let right1 = frame_put s a a n r (distinct.1) right in
      let x' = recompute (item? l) x (item? r) in
      let n' = linked par l (max (height l) (height r)) true x' r in
      let called : callback a s1 ≡ done tt (put s1 a n') =
        rw (put_same s a n, child_item-Rep s1 a l left1, child_item-Rep s1 a r right1) at
          (local s1 a ne) in
      rw called (
        ends (
          new_root (put s1 a n') par par a d (max (height l) (height r)) true true x x' l r ne left
            right distinct (put_same s1 a n') (λ p h. put_other s1 a p n' h ∙ put_other s a p n h)))

  pub avl_update-refresh :
      (s : Store Item) (par : ℕ) (t : Tree Item)
      → Rep s par t
      → Distinct t
      → Ends
          (λ _ s'. Rep s' par (refresh recompute t) × SameOutside t s s')
          (avl_update callback (root t) s)
  unfolding avl_update refresh load modify
  avl_update-refresh s par leaf rep distinct = ends (tt, λ p h. refl)
  avl_update-refresh s par (node l a d u x r) (ne, here, left, right) distinct =
      let not_null = ne→==_false a 0 ne in
      rw not_null (
        rw (not_null, here, levels-height s a l left, levels-height s a r right)
          (rw (not_null, here) (call-refresh s par l a d u x r ne left right distinct)))
