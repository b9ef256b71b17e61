-- ===== src/Avl/Rotate/Right.antt =====
-- The right rotation refines the rotation of trees.
use fesos.Prelude.{
  ℕ, ◌≡◌, ◌≢◌, refl, Bool, true, false, ◌||◌, ◌==◌, Option, ◌∙◌, or_left, or_right, ne→==_false,
  sym, exclude_sym, ap, subst, ==_refl,
}
use fesos.Avl.{avl_update, avl_rotate_right}
use fesos.Avl.Nodes.{AvlNode, Store, Cmd, put, load, modify, pure, ◌>>=◌, ◌>>◌}
use fesos.Avl.Tree.{Tree, leaf, node, root, has, Distinct, refresh, rotate_right}
use fesos.Avl.Rep.{linked, Rep, SameOutside, frame, has-ne, out_of_node, Ends, weaken}
use fesos.Avl.Update.{IsLocal, put_same, put_other, frame_put}
use fesos.Avl.Focus.{update_children_and_root}
use fesos.Avl.Relink.{
  rehang, rehang-runs, rehang-other, rehang-Rep, settle, settle-top, settle-low, settle-other,
  settle-Rep,
}
use fesos.Avl.Rotate.Turn.{has_turn, Distinct-turn_right}

module _ {Item : Type 0} where
  root-out : (t : Tree Item) (p : ℕ) → p ≢ 0 → has p t ≡ false → p ≢ root t
  root-out leaf p ne h = ne
  root-out (node l a d u x r) p ne h = (out_of_node p l a d u x r h).0

  -- The store after the pointer writes of a right rotation at `a`.
  abbrev relinked_right :
      ℕ → Tree Item → ℕ → ℕ → Bool → Item → Tree Item → ℕ → Store Item → Store Item
  relinked_right par lr a d u x r b s =
      settle (λ n. record n { right = a }) par a b (rehang a lr (put s a (linked par lr d u x r)))

  relinked_right-Rep :
      (s : Store Item) (par : ℕ) (ll : Tree Item) (b e : ℕ) (v : Bool) (y : Item) (lr : Tree Item)
      (a d : ℕ) (u : Bool) (x : Item) (r : Tree Item)
      → Rep s par (node (node ll b e v y lr) a d u x r)
      → Distinct (node (node ll b e v y lr) a d u x r)
      → let s' = relinked_right par lr a d u x r b s in
        Rep s' par (node ll b e v y (node lr a d u x r))
        × SameOutside (node (node ll b e v y lr) a d u x r) s s'
  relinked_right-Rep s par ll b e v y lr a d u x r (na, here_a, (nb, here_b, rep_ll, rep_lr), rep_r)
        (out_l, out_r, apart, (b_ll, b_lr, apart_l, dll, dlr), dr) =
      let (ab, a_ll, a_lr) = out_of_node a ll b e v y lr out_l in
      let b_r = apart b (or_left (has b ll || has b lr) (==_refl b)) in
      let n = linked par lr d u x r in
      let s1 = put s a n in
      let s2 = rehang a lr s1 in
      let f = λ (n : AvlNode Item). record n { right = a } in
      let same2 : (p : ℕ) → p ≢ a → has p lr ≡ false → s2 p ≡ s p =
        λ p h k. rehang-other s1 a p lr k ∙ put_other s a p n h in
      let stays : (old : ℕ) (t : Tree Item)
          → has a t ≡ false
          → has b t ≡ false
          → ((p : ℕ) → has p t ≡ true → has p lr ≡ false)
          → Rep s old t
          → Rep (settle f par a b s2) old t =
        λ old t out_a out_b out_lr rep.
          settle-Rep f par a b s2 old t out_a out_b
            (frame s s2 old t (λ p h. same2 p (has-ne t p a h out_a) (out_lr p h)) rep) in
      (
        (
          nb,
          settle-top f par a b s2 ab
              ∙ ap (λ (n : AvlNode Item). record (f n) { parent = par })
                  (same2 b (λ q. ab (sym q)) b_lr ∙ here_b),
          stays b ll a_ll b_ll apart_l rep_ll,
          (
            na,
            settle-low f par a b s2 ab
                ∙ ap (λ (n : AvlNode Item). record n { parent = b })
                    (rehang-other s1 a a lr a_lr ∙ put_same s a n),
            settle-Rep f par a b s2 a lr a_lr b_lr
                (rehang-Rep s1 b a lr (frame_put s b a n lr a_lr rep_lr) dlr),
            stays a r out_r b_r
                (λ p h.
                  exclude_sym (has p lr) (has p r)
                    (λ k. apart p (or_right (p == b) (or_right (has p ll) k))) h)
                rep_r,
          ),
        ),
        λ p h.
            let (pa, p_l, p_r) = out_of_node p (node ll b e v y lr) a d u x r h in
            let (pb, p_ll, p_lr) = out_of_node p ll b e v y lr p_l in
            settle-other f par a b s2 p pa pb ∙ same2 p pa p_lr,
      )

module _ {Item : Type 0} (callback : ℕ → Cmd Item (Unit {0}))
    (recompute : Option Item → Item → Option Item → Item) (local : IsLocal callback recompute) where
  -- The updates that end both rotations.
  abbrev updates : ℕ → Cmd Item ℕ
  updates b = do
    top ← load b
    avl_update callback top.left
    top' ← load b
    avl_update callback top'.right
    avl_update callback b
    pure b

  avl_rotate_right-relinks :
      (s : Store Item) (par : ℕ) (ll : Tree Item) (b e : ℕ) (v : Bool) (y : Item) (lr : Tree Item)
      (a d : ℕ) (u : Bool) (x : Item) (r : Tree Item)
      → Rep s par (node (node ll b e v y lr) a d u x r)
      → Distinct (node (node ll b e v y lr) a d u x r)
      → avl_rotate_right callback a s ≡ updates b (relinked_right par lr a d u x r b s)
  unfolding avl_rotate_right load modify
  avl_rotate_right-relinks s par ll b e v y lr a d u x r
        (na, here_a, (nb, here_b, rep_ll, rep_lr), rep_r) distinct =
      let (ab, a_ll, a_lr) = out_of_node a ll b e v y lr distinct.0 in
      let rep1 = frame_put s b a (linked par lr d u x r) lr a_lr rep_lr in
      let a0 = ne→==_false a 0 na in
      let b0 = ne→==_false b 0 nb in
      rw (a0, here_a)
        (rw (b0, here_b)
          (rw (a0, here_a)
            (rw (rehang-runs (put s a (linked par lr d u x r)) b a lr rep1)
              (rw b0 (rw b0 (rw a0 (rw b0 refl)))))))

  pub avl_rotate_right-rotate_right :
      (s : Store Item) (par : ℕ) (ll : Tree Item) (b e : ℕ) (v : Bool) (y : Item) (lr : Tree Item)
      (a d : ℕ) (u : Bool) (x : Item) (r : Tree Item)
      → let t = node (node ll b e v y lr) a d u x r in
        Rep s par t
        → Distinct t
        → Ends
            (λ p s'. (p ≡ b) × Rep s' par (rotate_right recompute t) × SameOutside t s s')
            (avl_rotate_right callback a s)
  unfolding rotate_right
  avl_rotate_right-rotate_right s par ll b e v y lr a d u x r rep distinct =
      let (rep', same) = relinked_right-Rep s par ll b e v y lr a d u x r rep distinct in
      let s' = relinked_right par lr a d u x r b s in
      subst
        (Ends (λ p s'.
          (p ≡ b)
          × Rep s' par (
              refresh recompute
                (node (refresh recompute ll) b e v y (refresh recompute (node lr a d u x r))))
          × SameOutside (node (node ll b e v y lr) a d u x r) s s'))
        (sym (avl_rotate_right-relinks s par ll b e v y lr a d u x r rep distinct))
        (weaken
          (update_children_and_root callback recompute local s' par ll b e v y (node lr a d u x r)
            rep' (Distinct-turn_right ll b e v y lr a d u x r distinct))
          (λ p s'' (top, rep'', same''). (
            top,
            rep'',
            λ q h. same'' q (sym (has_turn q ll b e v y lr a d u x r) ∙ h) ∙ same q h,
          )))
