-- ===== src/Avl/Relink.antt =====
-- The pointer writes that a rotation makes before it updates the nodes.
use fesos.Prelude.{ℕ, ◌≡◌, ◌≢◌, refl, false, ◌==◌, if◌then◌else◌, ◌∙◌, ne→==_false, sym, ap}
use fesos.Avl.Nodes.{AvlNode, Store, done, put, modify, null, pure, set_parent}
use fesos.Avl.Tree.{Tree, leaf, node, root, has, Distinct}
use fesos.Avl.Rep.{Rep, frame, has-ne, out_of_node}
use fesos.Avl.Update.{put_same, put_other, frame_put}

module _ {Item : Type 0} where
  -- The root of a subtree gets another parent.
  abbrev pub rehang : ℕ → Tree Item → Store Item → Store Item
  rehang par leaf s = s
  rehang par (node l a d u x r) s = put s a (record (s a) { parent = par })

  pub rehang-runs :
      (s : Store Item) (old par : ℕ) (t : Tree Item)
      → Rep s old t
      → (if root t == null then pure tt else set_parent (root t) par) s ≡ done tt (rehang par t s)
  unfolding modify
  rehang-runs s old par leaf rep = refl
  rehang-runs s old par (node l a d u x r) (ne, here, left, right) =
      let not_null = ne→==_false a 0 ne in rw not_null (rw not_null)

  pub rehang-other :
      (s : Store Item) (par p : ℕ) (t : Tree Item) → has p t ≡ false → rehang par t s p ≡ s p
  rehang-other s par p leaf h = refl
  rehang-other s par p (node l a d u x r) h =
      put_other s a p (record (s a) { parent = par }) ((out_of_node p l a d u x r h).0)

  pub rehang-Rep :
      (s : Store Item) (old par : ℕ) (t : Tree Item)
      → Rep s old t
      → Distinct t
      → Rep (rehang par t s) par t
  rehang-Rep s old par leaf rep distinct = tt
  rehang-Rep s old par (node l a d u x r) (ne, here, left, right) distinct = (
    ne,
    put_same s a (record (s a) { parent = par })
        ∙ ap (λ (n : AvlNode Item). record n { parent = par }) here,
    frame_put s a a _ l (distinct.0) left,
    frame_put s a a _ r (distinct.1) right,
  )

  -- `b` gets its new child and its new parent, and `a` the parent `b`.
  abbrev pub settle : (AvlNode Item → AvlNode Item) → ℕ → ℕ → ℕ → Store Item → Store Item
  settle f par a b s =
      let s1 = put s b (f (s b)) in
      let s2 = put s1 b (record (s1 b) { parent = par }) in put s2 a (record (s2 a) { parent = b })

  module _ (f : AvlNode Item → AvlNode Item) (par a b : ℕ) (s : Store Item) where
    pub settle-top : a ≢ b → settle f par a b s b ≡ record (f (s b)) { parent = par }
    settle-top ne =
        let s1 = put s b (f (s b)) in
        let s2 = put s1 b (record (s1 b) { parent = par }) in
        put_other s2 a b (record (s2 a) { parent = b }) (λ e. ne (sym e))
        ∙ put_same s1 b (record (s1 b) { parent = par })
        ∙ ap (λ (n : AvlNode Item). record n { parent = par }) (put_same s b (f (s b)))

    pub settle-low : a ≢ b → settle f par a b s a ≡ record (s a) { parent = b }
    settle-low ne =
        let s1 = put s b (f (s b)) in
        let s2 = put s1 b (record (s1 b) { parent = par }) in
        put_same s2 a (record (s2 a) { parent = b })
        ∙ ap (λ (n : AvlNode Item). record n { parent = b })
            (put_other s1 b a (record (s1 b) { parent = par }) ne ∙ put_other s b a (f (s b)) ne)

    pub settle-other : (p : ℕ) → p ≢ a → p ≢ b → settle f par a b s p ≡ s p
    settle-other p na nb =
        let s1 = put s b (f (s b)) in
        let s2 = put s1 b (record (s1 b) { parent = par }) in
        put_other s2 a p (record (s2 a) { parent = b }) na
        ∙ put_other s1 b p (record (s1 b) { parent = par }) nb
        ∙ put_other s b p (f (s b)) nb

    pub settle-Rep :
        (old : ℕ) (t : Tree Item)
        → has a t ≡ false
        → has b t ≡ false
        → Rep s old t
        → Rep (settle f par a b s) old t
    settle-Rep old t out_a out_b rep =
        frame s (settle f par a b s) old t
          (λ p h. settle-other p (has-ne t p a h out_a) (has-ne t p b h out_b)) rep
