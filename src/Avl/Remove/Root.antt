-- ===== src/Avl/Remove/Root.antt =====
-- The removal of a root with one child.
use fesos.Prelude.{
  ℕ, suc, ◌≡◌, ◌≢◌, ◌⊎◌, inl, inr, refl, ◌==◌, if◌then◌else◌, ne→==_false, Bool-cases,
}
use fesos.Avl.{AvlTree}
use fesos.Avl.Nodes.{null, Store, fault, Cmd, load, modify}
use fesos.Avl.Remove.{replace_child, remove_one_child, avl_remove}

one_child_faults :
    {Item : Type 0} (tree : AvlTree) (node : ℕ) (s : Store Item)
    → node ≢ null
    → (s node).parent ≡ null
    → remove_one_child tree node s ≡ fault
unfolding remove_one_child replace_child load modify
one_child_faults tree node s there top =
    let child = if (s node).left == null then (s node).right else (s node).left in
    rw (ne→==_false node null there, top)
      (elim (Bool-cases (child == null)) [ inl none ↦ rw none refl | inr some ↦ rw some refl ])

-- In a tree that is not empty, avl_remove of a node without a parent that has exactly one child
-- reads through NULL, whatever the rest of the store is.
pub avl_remove_faults :
    {Item : Type 0} (callback : ℕ → Cmd Item (Unit {0})) (fuel : ℕ) (tree : AvlTree) (node : ℕ)
    (s : Store Item)
    → tree.root ≢ null
    → node ≢ null
    → (s node).parent ≡ null
    → (((s node).left ≡ null) × ((s node).right ≢ null))
      ⊎ (((s node).left ≢ null) × ((s node).right ≡ null))
    → avl_remove callback (suc fuel) tree node s ≡ fault
unfolding avl_remove load
avl_remove_faults callback fuel tree node s some there top (inl (no_left, right)) =
    let no_right = ne→==_false (s node).right null right in
    rw (ne→==_false tree.root null some, ne→==_false node null there, no_left, no_right)
      (rw (no_left, one_child_faults tree node s there top) refl)
avl_remove_faults callback fuel tree node s some there top (inr (left, no_right)) =
    let has_left = ne→==_false (s node).left null left in
    rw (ne→==_false tree.root null some, ne→==_false node null there, no_right, has_left)
      (rw has_left (rw (no_right, one_child_faults tree node s there top) refl))
