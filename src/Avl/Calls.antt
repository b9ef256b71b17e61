-- ===== src/Avl/Calls.antt =====
-- The functions that avl.h declares: avl_init, avl_insert and avl_get_node on a whole tree.
use fesos.Prelude.{
  ℕ, ◌+◌, ◌≤◌, ◌<◌, ◌≡◌, ◌≢◌, refl, Bool, true, false, ◌||◌, ◌==◌, arith, Option, ◌∙◌, ◌⊎◌,
  ne→==_false, ==_false→ne, or_false, or_intro, sym, ap, subst, inl, inr, ==_refl,
}
use fesos.Avl.{AvlTree, Comparison, avl_init, avl_insert, avl_get_node}
use fesos.Avl.Nodes.{AvlNode, Store, Cmd, put, modify, ◌>>=◌, ◌>>◌}
use fesos.Avl.Tree.{Tree, leaf, node, root, height, has, Distinct, insert}
use fesos.Avl.Rep.{linked, Rep, SameOutside, frame, Rep-has, has-ne, Ends, ends, then-Ends, weaken}
use fesos.Avl.Update.{IsLocal}
use fesos.Avl.Shape.{Measured}
use fesos.Avl.Grown.{single, has-insert, Distinct-insert, Measured-insert}
use fesos.Avl.Insert.{IsComparison, avl_insert_rec-insert}
use fesos.Avl.Balanced.{IsBalanced}
use fesos.Avl.Growth.{insert-Grows, Grows-tall}
use fesos.Avl.Order.{keys, by_order, keys-insert}
use fesos.Avl.Order.Lists.{
  insert_sorted, IsSorted, insert_sorted-IsSorted, Absent, insert_sorted_present,
}
use fesos.Avl.Search.{Found, avl_get_node_rec-Found}

-- What avl.c promises of a tree: its nodes are linked both ways, have their depth, are balanced
-- and are sorted by key.
pub record IsTree {Item : Type 0} (key : Item → ℕ) (s : Store Item) (tree : AvlTree) (t : Tree Item)
    : Type 0 where
  pub top : tree.root ≡ root t
  pub rep : Rep s 0 t
  pub distinct : Distinct t
  pub measured : Measured t
  pub balanced : IsBalanced t
  pub sorted : IsSorted (keys key t)

module _ {Item : Type 0} where
  abbrev Fresh : Store Item → Store Item → ℕ → Bool → Type 0
  Fresh s s' n v = (s' n ≡ linked 0 leaf 0 v (s n).item leaf) × ((p : ℕ) → p ≢ n → s' p ≡ s p)

  avl_init-Fresh :
      (s : Store Item) (n : ℕ) (v : Bool) → n ≢ 0 → Ends (λ _ s'. Fresh s s' n v) (avl_init n v s)
  unfolding avl_init modify put
  avl_init-Fresh s n v nn =
      let n0 = ne→==_false n 0 nn in
      rw n0 (
        rw n0
          (rw n0 (rw n0 (rw n0 (rw n0 (ends (rw (==_refl n), λ p h. rw (ne→==_false p n h))))))))

  IsTree-Fresh :
      (key : Item → ℕ) (s s' : Store Item) (tree : AvlTree) (t : Tree Item) (n : ℕ)
      → ((p : ℕ) → p ≢ n → s' p ≡ s p)
      → has n t ≡ false
      → IsTree key s tree t
      → IsTree key s' tree t
  IsTree-Fresh key s s' tree t n same out h = record {
    top = h.top;
    rep = frame s s' 0 t (λ p k. same p (has-ne t p n k out)) h.rep;
    distinct = h.distinct;
    measured = h.measured;
    balanced = h.balanced;
    sorted = h.sorted;
  }

-- What the code that uses a tree promises: its callback changes the item of its node only, and
-- not the key; its comparison compares keys.
pub record Client {Item : Type 0} (key : Item → ℕ) (callback : ℕ → Cmd Item (Unit {0}))
    (recompute : Option Item → Item → Option Item → Item) (comp : ℕ → ℕ → Cmd Item Comparison)
    (compare_items : Item → Item → Comparison) : Type 0 where
  pub local : IsLocal callback recompute
  pub same_key : (l : Option Item) (x : Item) (r : Option Item) → key (recompute l x r) ≡ key x
  pub comparison : IsComparison comp compare_items
  pub by_key : (x y : Item) → compare_items x y ≡ by_order (key x) (key y)

module _ {Item : Type 0} (key : Item → ℕ) (callback : ℕ → Cmd Item (Unit {0}))
    (recompute : Option Item → Item → Option Item → Item) (comp : ℕ → ℕ → Cmd Item Comparison)
    (compare_items : Item → Item → Comparison)
    (client : Client key callback recompute comp compare_items) where
  abbrev grown : ℕ → Bool → Item → Tree Item → Tree Item
  grown n v y t = insert recompute compare_items (single recompute compare_items n 0 v y) y t

  -- The tree after the insertion of the node `n`.
  pub record Inserted (s : Store Item) (size : ℕ) (t : Tree Item) (n : ℕ) (tree' : AvlTree)
      (s' : Store Item) : Type 0 where
    pub t' : Tree Item
    pub is_tree : IsTree key s' tree' t'
    pub tall : height t' ≤ height t + 1
    pub keys_of : keys key t' ≡ insert_sorted (key (s n).item) (keys key t)
    pub nodes : (p : ℕ) → has p t' ≡ p == n || has p t
    pub others : SameOutside t' s s'
    pub size_of : tree'.size ≡ size

  grown-Inserted :
      (s s0 s' : Store Item) (tree tree' : AvlTree) (t : Tree Item) (n : ℕ) (v : Bool)
      → IsTree key s tree t
      → has n t ≡ false
      → Fresh s s0 n v
      → tree'.size ≡ tree.size
      → tree'.root ≡ root (grown n v (s n).item t)
      → Rep s' 0 (grown n v (s n).item t)
      → SameOutside (grown n v (s n).item t) s0 s'
      → Inserted s tree.size t n tree' s'
  grown-Inserted s s0 s' tree tree' t n v h out fresh size top rep same =
      let y = (s n).item in
      let ks =
        keys-insert key recompute client.same_key compare_items client.by_key n v y t h.sorted in
      let nodes : (p : ℕ) → has p (grown n v y t) ≡ p == n || has p t =
        λ p. has-insert recompute compare_items n 0 v y p t in
      record {
        t' = grown n v y t;
        is_tree = record {
          top = top;
          rep = rep;
          distinct = Distinct-insert recompute compare_items n 0 v y t out h.distinct;
          measured = Measured-insert recompute compare_items n 0 v y t refl h.measured;
          balanced = (insert-Grows recompute compare_items n v y t h.balanced h.measured).0;
          sorted = subst IsSorted (sym ks) (insert_sorted-IsSorted (key y) (keys key t) h.sorted);
        };
        tall =
            Grows-tall (height t) (grown n v y t)
              (insert-Grows recompute compare_items n v y t h.balanced h.measured);
        keys_of = ks;
        nodes = nodes;
        others = λ p k.
            same p k
            ∙ fresh.1 p (==_false→ne p n ((or_false (p == n) (has p t) (sym (nodes p) ∙ k)).0));
        size_of = size;
      }

  avl_insert-Inserted-Fresh :
      (fuel : ℕ) (s s0 : Store Item) (tree : AvlTree) (t : Tree Item) (n : ℕ) (v : Bool)
      → IsTree key s tree t
      → n ≢ 0
      → has n t ≡ false
      → height t ≤ fuel
      → Fresh s s0 n v
      → Ends (Inserted s tree.size t n) (avl_insert callback comp fuel tree n s0)
  unfolding avl_insert insert
  avl_insert-Inserted-Fresh fuel s s0 tree leaf n v h nn out enough fresh = rw h.top (
      ends (
        grown-Inserted s s0 s0 tree (record tree { root = n }) leaf n v h out fresh refl refl
          (nn, fresh.0, tt, tt) (λ p k. refl)))
  avl_insert-Inserted-Fresh fuel s s0 tree (node l a d u x r) n v h nn out enough fresh =
      let t = node l a d u x r in
      let h0 = IsTree-Fresh key s s0 tree t n (fresh.1) out h in
      let na = h.rep.0 in
      rw (h.top, ne→==_false a 0 na)
        (then-Ends
          (avl_insert_rec-insert callback recompute client.local comp compare_items
            client.comparison fuel s0 0 t n 0 v (s n).item h0.rep h.distinct h.measured na nn out
            (fresh.0) enough)
          (λ q s' (top, rep, same). ends (
            grown-Inserted s s0 s' tree (record tree { root = q }) t n v h out fresh refl top rep
              same)))

  -- For a tree that IsTree, a non-NULL node outside it and fuel of at least the height, where the
  -- client keeps its promises: avl_init then avl_insert return, and leave a tree that IsTree, whose
  -- keys are the old ones with the new key inserted, whose nodes are the old ones and the new one,
  -- and at most one level taller; no node outside it and not the size field are changed.
  pub avl_insert-Inserted :
      (fuel : ℕ) (s : Store Item) (tree : AvlTree) (t : Tree Item) (n : ℕ) (v : Bool)
      → IsTree key s tree t
      → n ≢ 0
      → has n t ≡ false
      → height t ≤ fuel
      → Ends (Inserted s tree.size t n) ((do avl_init n v; avl_insert callback comp fuel tree n) s)
  avl_insert-Inserted fuel s tree t n v h nn out enough =
      then-Ends (avl_init-Fresh s n v nn)
        (λ _ s0 fresh. avl_insert-Inserted-Fresh fuel s s0 tree t n v h nn out enough fresh)

  -- For a tree that IsTree, a non-NULL key node and fuel above the height, where the client keeps
  -- its promises: avl_get_node returns, changes nothing, and returns NULL where no node has the key
  -- of the key node, and else a node of the tree that has it.
  pub avl_get_node-Found :
      (fuel : ℕ) (s : Store Item) (tree : AvlTree) (t : Tree Item) (m : ℕ)
      → IsTree key s tree t
      → m ≢ 0
      → height t < fuel
      → Found key callback comp compare_items client.comparison client.by_key s
          (key (s m).item)
          t
          (avl_get_node callback comp fuel tree m s)
  unfolding avl_get_node
  avl_get_node-Found fuel s tree leaf m h mn enough = rw h.top (ends (refl, inl (refl, tt)))
  avl_get_node-Found fuel s tree (node l a d u x r) m h mn enough =
      rw (h.top, ne→==_false a 0 (h.rep.0))
        (avl_get_node_rec-Found key callback comp compare_items client.comparison client.by_key fuel
          s 0 (node l a d u x r) m h.rep h.measured h.sorted mn enough)

  abbrev pub insert_and_get : ℕ → AvlTree → ℕ → Bool → ℕ → Cmd Item ℕ
  insert_and_get fuel tree n v m = do
    avl_init n v
    tree' ← avl_insert callback comp fuel tree n
    avl_get_node callback comp (fuel + 2) tree' m

  present :
      (s s1 s2 : Store Item) {size : ℕ} {tree' : AvlTree} (t : Tree Item) (n p : ℕ)
      (i : Inserted s size t n tree' s1) (k : ℕ)
      → k ≡ key (s n).item
      → s2 ≡ s1
      → ((p ≡ 0) × Absent k (keys key i.t')) ⊎ ((has p i.t' ≡ true) × (key (s1 p).item ≡ k))
      → (p ≢ 0) × (key (s2 p).item ≡ key (s n).item)
  present s s1 s2 t n p i k same unchanged (inl (q, absent)) =
      let absent' : Absent (key (s n).item) (insert_sorted (key (s n).item) (keys key t)) =
        subst (λ xs. Absent (key (s n).item) xs) i.keys_of
          (subst (λ j. Absent j (keys key i.t')) same absent) in
      absurd (insert_sorted_present (key (s n).item) (keys key t) absent')
  present s s1 s2 t n p i k same unchanged (inr (here, e)) =
      (has-ne i.t' p 0 here (Rep-has s1 0 i.t' i.is_tree.rep), rw unchanged (e ∙ same))

  -- Under the conditions of the insertion, a search right after it, by a key node that is neither in
  -- the tree nor the new one and has the key of the new one, returns a non-NULL node with that key.
  pub avl_get_node-avl_insert :
      (fuel : ℕ) (s : Store Item) (tree : AvlTree) (t : Tree Item) (n : ℕ) (v : Bool) (m : ℕ)
      → IsTree key s tree t
      → n ≢ 0
      → has n t ≡ false
      → height t ≤ fuel
      → m ≢ 0
      → m ≢ n
      → has m t ≡ false
      → key (s m).item ≡ key (s n).item
      → Ends
          (λ p s'. (p ≢ 0) × (key (s' p).item ≡ key (s n).item))
          (insert_and_get fuel tree n v m s)
  avl_get_node-avl_insert fuel s tree t n v m h nn out enough mn mne out_m same_key =
      then-Ends (avl_init-Fresh s n v nn) λ _ s0 fresh.
        then-Ends (avl_insert-Inserted-Fresh fuel s s0 tree t n v h nn out enough fresh)
          λ tree' s1 i.
            let tall = i.tall in
            let same =
              ap (λ (k : AvlNode Item). key k.item)
                (i.others m (i.nodes m ∙ or_intro (ne→==_false m n mne) out_m))
              ∙ same_key in
            weaken (avl_get_node-Found (fuel + 2) s1 tree' i.t' m i.is_tree mn (omega arith))
              (λ p s2 (unchanged, result).
                present s s1 s2 t n p i (key (s1 m).item) same unchanged result)
