-- ===== src/Avl/Rotate/Left.antt =====
-- The left rotation refines the rotation of trees.
use fesos.Prelude.{
  ℕ, ◌≡◌, ◌≢◌, refl, Bool, true, false, ◌||◌, Option, ◌∙◌, or_left, ne→==_false, sym, exclude_sym,
  ap, subst, ==_refl,
}
use fesos.Avl.{avl_update, avl_rotate_left}
use fesos.Avl.Nodes.{AvlNode, Store, Cmd, put, load, modify, pure, ◌>>=◌, ◌>>◌}
use fesos.Avl.Tree.{Tree, leaf, node, root, has, Distinct, refresh, rotate_left}
use fesos.Avl.Rep.{linked, Rep, SameOutside, frame, has-ne, out_of_node, Ends, weaken}
use fesos.Avl.Update.{IsLocal, put_same, put_other, frame_put}
use fesos.Avl.Focus.{update_children_and_root}
use fesos.Avl.Relink.{
  rehang, rehang-runs, rehang-other, rehang-Rep, settle, settle-top, settle-low, settle-other,
  settle-Rep,
}
use fesos.Avl.Rotate.Turn.{has_turn, Distinct-turn_left}

module _ {Item : Type 0} where
  root-out : (t : Tree Item) (p : ℕ) → p ≢ 0 → has p t ≡ false → p ≢ root t
  root-out leaf p ne h = ne
  root-out (node l a d u x r) p ne h = (out_of_node p l a d u x r h).0

  -- The store after the pointer writes of a left rotation at `a`.
  abbrev relinked_left :
      ℕ → Tree Item → ℕ → ℕ → Bool → Item → Tree Item → ℕ → Store Item → Store Item
  relinked_left par l a d u x rl b s =
      settle (λ n. record n { left = a }) par a b (rehang a rl (put s a (linked par l d u x rl)))

  relinked_left-Rep :
      (s : Store Item) (par : ℕ) (l : Tree Item) (a d : ℕ) (u : Bool) (x : Item) (rl : Tree Item)
      (b e : ℕ) (v : Bool) (y : Item) (rr : Tree Item)
      → Rep s par (node l a d u x (node rl b e v y rr))
      → Distinct (node l a d u x (node rl b e v y rr))
      → let s' = relinked_left par l a d u x rl b s in
        Rep s' par (node (node l a d u x rl) b e v y rr)
        × SameOutside (node l a d u x (node rl b e v y rr)) s s'
  relinked_left-Rep s par l a d u x rl b e v y rr (na, here_a, rep_l, (nb, here_b, rep_rl, rep_rr))
        (a_l, out_r, apart, dl, (b_rl, b_rr, apart_r, drl, drr)) =
      let (ab, a_rl, a_rr) = out_of_node a rl b e v y rr out_r in
      let b_l : has b l ≡ false =
        exclude_sym (has b l) (has b (node rl b e v y rr)) (apart b)
          (or_left (has b rl || has b rr) (==_refl b)) in
      let n = linked par l d u x rl in
      let s1 = put s a n in
      let s2 = rehang a rl s1 in
      let f = λ (n : AvlNode Item). record n { left = a } in
      let same2 : (p : ℕ) → p ≢ a → has p rl ≡ false → s2 p ≡ s p =
        λ p h k. rehang-other s1 a p rl k ∙ put_other s a p n h in
      let stays : (old : ℕ) (t : Tree Item)
          → has a t ≡ false
          → has b t ≡ false
          → ((p : ℕ) → has p t ≡ true → has p rl ≡ false)
          → Rep s old t
          → Rep (settle f par a b s2) old t =
        λ old t out_a out_b out_rl rep.
          settle-Rep f par a b s2 old t out_a out_b
            (frame s s2 old t (λ p h. same2 p (has-ne t p a h out_a) (out_rl p h)) rep) in
      (
        (
          nb,
          settle-top f par a b s2 ab
              ∙ ap (λ (n : AvlNode Item). record (f n) { parent = par })
                  (same2 b (λ q. ab (sym q)) b_rl ∙ here_b),
          (
            na,
            settle-low f par a b s2 ab
                ∙ ap (λ (n : AvlNode Item). record n { parent = b })
                    (rehang-other s1 a a rl a_rl ∙ put_same s a n),
            stays a l a_l b_l (λ p h. (out_of_node p rl b e v y rr (apart p h)).1) rep_l,
            settle-Rep f par a b s2 a rl a_rl b_rl
                (rehang-Rep s1 b a rl (frame_put s b a n rl a_rl rep_rl) drl),
          ),
          stays b rr a_rr b_rr (λ p h. exclude_sym (has p rl) (has p rr) (apart_r p) h) rep_rr,
        ),
        λ p h.
            let (pa, p_l, p_r) = out_of_node p l a d u x (node rl b e v y rr) h in
            let (pb, p_rl, p_rr) = out_of_node p rl b e v y rr p_r in
            settle-other f par a b s2 p pa pb ∙ same2 p pa p_rl,
      )

module _ {Item : Type 0} (callback : ℕ → Cmd Item (Unit {0}))
    (recompute : Option Item → Item → Option Item → Item) (local : IsLocal callback recompute) where
  -- The updates that end both rotations.
  abbrev updates : ℕ → Cmd Item ℕ
  updates b = do
    top ← load b
    avl_update callback top.left
    top' ← load b
    avl_update callback top'.right
    avl_update callback b
    pure b

  avl_rotate_left-relinks :
      (s : Store Item) (par : ℕ) (l : Tree Item) (a d : ℕ) (u : Bool) (x : Item) (rl : Tree Item)
      (b e : ℕ) (v : Bool) (y : Item) (rr : Tree Item)
      → Rep s par (node l a d u x (node rl b e v y rr))
      → Distinct (node l a d u x (node rl b e v y rr))
      → avl_rotate_left callback a s ≡ updates b (relinked_left par l a d u x rl b s)
  unfolding avl_rotate_left load modify
  avl_rotate_left-relinks s par l a d u x rl b e v y rr
        (na, here_a, rep_l, (nb, here_b, rep_rl, rep_rr)) distinct =
      let (ab, a_rl, a_rr) = out_of_node a rl b e v y rr distinct.1 in
      let rep1 = frame_put s b a (linked par l d u x rl) rl a_rl rep_rl in
      let a0 = ne→==_false a 0 na in
      let b0 = ne→==_false b 0 nb in
      rw (a0, here_a)
        (rw (b0, here_b)
          (rw (a0, here_a)
            (rw (rehang-runs (put s a (linked par l d u x rl)) b a rl rep1)
              (rw b0 (rw b0 (rw a0 (rw b0 refl)))))))

  pub avl_rotate_left-rotate_left :
      (s : Store Item) (par : ℕ) (l : Tree Item) (a d : ℕ) (u : Bool) (x : Item) (rl : Tree Item)
      (b e : ℕ) (v : Bool) (y : Item) (rr : Tree Item)
      → let t = node l a d u x (node rl b e v y rr) in
        Rep s par t
        → Distinct t
        → Ends
            (λ p s'. (p ≡ b) × Rep s' par (rotate_left recompute t) × SameOutside t s s')
            (avl_rotate_left callback a s)
  unfolding rotate_left
  avl_rotate_left-rotate_left s par l a d u x rl b e v y rr rep distinct =
      let (rep', same) = relinked_left-Rep s par l a d u x rl b e v y rr rep distinct in
      let s' = relinked_left par l a d u x rl b s in
      subst
        (Ends (λ p s'.
          (p ≡ b)
          × Rep s' par (
              refresh recompute
                (node (refresh recompute (node l a d u x rl)) b e v y (refresh recompute rr)))
          × SameOutside (node l a d u x (node rl b e v y rr)) s s'))
        (sym (avl_rotate_left-relinks s par l a d u x rl b e v y rr rep distinct))
        (weaken
          (update_children_and_root callback recompute local s' par (node l a d u x rl) b e v y rr
            rep' (Distinct-turn_left l a d u x rl b e v y rr distinct))
          (λ p s'' (top, rep'', same'').
            (top, rep'', λ q h. same'' q (has_turn q l a d u x rl b e v y rr ∙ h) ∙ same q h)))
