-- ===== src/Avl/Rep.antt =====
-- When the nodes of a store form a tree, and what leaves them alone.
use fesos.Prelude.{
  ℕ, ◌≡◌, ◌≢◌, refl, Bool, true, false, ◌||◌, ◌==◌, ◌∙◌, ==_refl, or_left, or_right, or_intro,
  or_false, ne→==_false, ==_false→ne, sym,
}
use fesos.Avl.Nodes.{AvlNode, Store, Outcome, done, Cmd, after}
use fesos.Avl.Tree.{Tree, leaf, node, root, has}

module _ {Item : Type 0} where
  -- The node that a tree with parent `par` has at its root.
  abbrev pub linked : ℕ → Tree Item → ℕ → Bool → Item → Tree Item → AvlNode Item
  linked par l d u x r = record {
    parent = par;
    left = root l;
    right = root r;
    subtree_max_depth = d;
    update = u;
    item = x;
  }

  abbrev pub Rep : Store Item → ℕ → Tree Item → Type 0
  Rep s par leaf = Unit {0}
  Rep s par (node l a d u x r) = (a ≢ 0) × (s a ≡ linked par l d u x r) × Rep s a l × Rep s a r

  abbrev pub SameOutside : Tree Item → Store Item → Store Item → Type 0
  SameOutside t s s' = (p : ℕ) → has p t ≡ false → s' p ≡ s p

  pub has-ne : (t : Tree Item) (p a : ℕ) → has p t ≡ true → has a t ≡ false → p ≢ a
  has-ne t p a h out e = let h' : has a t ≡ true = rw e at h in cc

  pub out_of_node :
      (p : ℕ) (l : Tree Item) (a d : ℕ) (u : Bool) (x : Item) (r : Tree Item)
      → has p (node l a d u x r) ≡ false
      → (p ≢ a) × (has p l ≡ false) × (has p r ≡ false)
  out_of_node p l a d u x r h =
      let (here, below) = or_false (p == a) (has p l || has p r) h in
      let (left, right) = or_false (has p l) (has p r) below in (==_false→ne p a here, left, right)

  pub frame :
      (s s' : Store Item) (par : ℕ) (t : Tree Item)
      → ((p : ℕ) → has p t ≡ true → s' p ≡ s p)
      → Rep s par t
      → Rep s' par t
  frame s s' par leaf same rep = tt
  frame s s' par (node l a d u x r) same (ne, here, left, right) = (
    ne,
    same a (or_left _ (==_refl a)) ∙ here,
    frame s s' a l (λ p h. same p (or_right _ (or_left _ h))) left,
    frame s s' a r (λ p h. same p (or_right _ (or_right _ h))) right,
  )

  -- The root of a tree gets another parent.
  abbrev pub adopt : Store Item → ℕ → Tree Item → AvlNode Item → AvlNode Item
  adopt s par leaf n = n
  adopt s par (node l a d u x r) n = record n { parent = par }

  pub root-has : (t : Tree Item) → root t ≢ 0 → has (root t) t ≡ true
  root-has leaf h = absurd (h refl)
  root-has (node l a d u x r) h = or_left _ (==_refl a)

  pub Rep-has : (s : Store Item) (par : ℕ) (t : Tree Item) → Rep s par t → has 0 t ≡ false
  Rep-has s par leaf rep = refl
  Rep-has s par (node l a d u x r) (ne, here, left, right) =
      or_intro (ne→==_false 0 a (λ e. ne (sym e)))
        (or_intro (Rep-has s a l left) (Rep-has s a r right))

-- A run that returns, with a fact about its value and the store that it leaves.
pub data Ends {Item A : Type 0} (Q : A → Store Item → Type 0) : Outcome Item A → Type 0 where
  ends : {a : A} {s : Store Item} → Q a s → Ends Q (done a s)

module _ {Item A B : Type 0} {P : A → Store Item → Type 0} where
  pub then-Ends :
      {Q : B → Store Item → Type 0} {o : Outcome Item A} {k : A → Cmd Item B}
      → Ends P o
      → ((a : A) (s : Store Item) → P a s → Ends Q (k a s))
      → Ends Q (after o k)
  then-Ends (ends p) next = next _ _ p

module _ {Item A : Type 0} {P : A → Store Item → Type 0} where
  pub weaken :
      {Q : A → Store Item → Type 0} {o : Outcome Item A}
      → Ends P o
      → ((a : A) (s : Store Item) → P a s → Q a s)
      → Ends Q o
  weaken (ends p) f = ends (f _ _ p)

module _ {Item : Type 0} where
  -- A run returns the root of a tree that it leaves in place, and changes no node outside it.
  abbrev pub Leaves : Store Item → ℕ → Tree Item → Outcome Item ℕ → Type 0
  Leaves s par t o = Ends (λ p s'. (p ≡ root t) × Rep s' par t × SameOutside t s s') o

  -- A run puts one tree in the place of another.
  abbrev pub Becomes : Store Item → ℕ → Tree Item → Tree Item → Outcome Item ℕ → Type 0
  Becomes s par t t' o = Ends (λ p s'. (p ≡ root t') × Rep s' par t' × SameOutside t s s') o
