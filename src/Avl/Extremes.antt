-- ===== src/Avl/Extremes.antt =====
-- avl_first and avl_last return the nodes at the two ends of the order.
use fesos.Prelude.{
  ℕ, zero, suc, ◌+◌, ◌≤◌, ◌<◌, ◌≡◌, refl, Bool, arith, List, [], ◌∷◌, ◌++◌, ◌∙◌, ne→==_false, sym,
  ap, max,
}
use fesos.Avl.{AvlTree, go_left, go_right, avl_first, avl_last}
use fesos.Avl.Nodes.{Store, done, after, null}
use fesos.Avl.Tree.{Tree, leaf, node, height}
use fesos.Avl.Rep.{Rep}
use fesos.Avl.Update.{load-Rep}
use fesos.Avl.Shape.{Measured}
use fesos.Avl.Calls.{IsTree}

-- The first and the last address of a list, NULL if there is none.
abbrev pub first_of : List ℕ → ℕ
first_of [] = null
first_of (x ∷ xs) = x

abbrev pub last_from : ℕ → List ℕ → ℕ
last_from p [] = p
last_from p (x ∷ xs) = last_from x xs

last_middle :
    (p : ℕ) (xs : List ℕ) (a : ℕ) (ys : List ℕ) → last_from p (xs ++ a ∷ ys) ≡ last_from a ys
last_middle p [] a ys = refl
last_middle p (x ∷ xs) a ys = last_middle x xs a ys

module _ {Item : Type 0} where
  -- The addresses of the nodes, from left to right.
  abbrev pub addresses : Tree Item → List ℕ
  addresses leaf = []
  addresses (node l a d u x r) = addresses l ++ a ∷ addresses r

  first_under :
      (l : Tree Item) (a d : ℕ) (u : Bool) (x : Item) (r : Tree Item) (ys : List ℕ)
      → first_of (addresses (node l a d u x r) ++ ys) ≡ first_of (addresses (node l a d u x r))
  first_under leaf a d u x r ys = refl
  first_under (node ll b e v y lr) a d u x r ys =
      first_of_twice (addresses (node ll b e v y lr)) a (addresses r) ys
    where
      first_of_twice :
          (xs : List ℕ) (a : ℕ) (ys zs : List ℕ)
          → first_of ((xs ++ a ∷ ys) ++ zs) ≡ first_of (xs ++ a ∷ ys)
      first_of_twice [] a ys zs = refl
      first_of_twice (x ∷ xs) a ys zs = refl

  go_left-first_of :
      (fuel : ℕ) (s : Store Item) (par : ℕ) (l : Tree Item) (a d : ℕ) (u : Bool) (x : Item)
      (r : Tree Item)
      → Rep s par (node l a d u x r)
      → Measured (node l a d u x r)
      → d < fuel
      → go_left fuel a s ≡ done (first_of (addresses (node l a d u x r))) s
  unfolding go_left
  go_left-first_of zero s par l a d u x r rep m enough = absurd (omega arith)
  go_left-first_of (suc fuel) s par leaf a d u x r rep m enough =
      rw (load-Rep s par leaf a d u x r rep)
  go_left-first_of (suc fuel) s par (node ll b e v y lr) a d u x r rep m enough =
      let depth : d ≡ max (e + 1) (height r) = m.0 in
      rw (load-Rep s par (node ll b e v y lr) a d u x r rep) (
        rw (after, ne→==_false b 0 (rep.2.0))
          (go_left-first_of fuel s a ll b e v y lr (rep.2) (m.1) (grind arith)
            ∙ ap (λ p. done p s) (sym (first_under ll b e v y lr (a ∷ addresses r)))))

  go_right-last_from :
      (fuel : ℕ) (s : Store Item) (par : ℕ) (l : Tree Item) (a d : ℕ) (u : Bool) (x : Item)
      (r : Tree Item)
      → Rep s par (node l a d u x r)
      → Measured (node l a d u x r)
      → d < fuel
      → go_right fuel a s ≡ done (last_from null (addresses (node l a d u x r))) s
  unfolding go_right
  go_right-last_from zero s par l a d u x r rep m enough = absurd (omega arith)
  go_right-last_from (suc fuel) s par l a d u x leaf rep m enough =
      rw (load-Rep s par l a d u x leaf rep)
        (ap (λ p. done p s) (sym (last_middle null (addresses l) a [])))
  go_right-last_from (suc fuel) s par l a d u x (node rl b e v y rr) rep m enough =
      let depth : d ≡ max (height l) (e + 1) = m.0 in
      rw (load-Rep s par l a d u x (node rl b e v y rr) rep) (
        rw (after, ne→==_false b 0 (rep.3.0))
          (go_right-last_from fuel s a rl b e v y rr (rep.3) (m.2) (grind arith)
            ∙ ap (λ p. done p s)
                (last_middle null (addresses rl) b (addresses rr)
                  ∙ sym (last_middle a (addresses rl) b (addresses rr))
                  ∙ sym (last_middle null (addresses l) a (addresses (node rl b e v y rr))))))

  -- On a tree that IsTree and fuel of at least the height, avl_first and avl_last return the first
  -- and the last address of its nodes in order, NULL where it has none, and change nothing.
  pub avl_first-avl_last :
      (key : Item → ℕ) (fuel : ℕ) (s : Store Item) (tree : AvlTree) (t : Tree Item)
      → IsTree key s tree t
      → height t ≤ fuel
      → (avl_first fuel tree s ≡ done (first_of (addresses t)) s)
        × (avl_last fuel tree s ≡ done (last_from null (addresses t)) s)
  unfolding avl_first avl_last
  avl_first-avl_last key fuel s tree leaf h enough = (rw h.top, rw h.top)
  avl_first-avl_last key fuel s tree (node l a d u x r) h enough =
      let a0 = ne→==_false a 0 (h.rep.0) in
      (
        rw (h.top, a0) (go_left-first_of fuel s 0 l a d u x r h.rep h.measured (omega arith)),
        rw (h.top, a0) (go_right-last_from fuel s 0 l a d u x r h.rep h.measured (omega arith)),
      )
