-- ===== src/Vfs/Path/Keeps.antt =====
-- What a lookup leaves alone: where kmalloc, kfree and the drivers' finddir leave the characters of a
-- path alone, entering a directory does.
use fesos.Prelude.{
  ℕ, ◌+◌, ◌≤◌, ◌≡◌, refl, ◌∙◌, Bool, true, false, not, Bool-cases, inl, inr, ◌==◌, Option, none,
  some, ltb, if◌then◌else◌, arith,
}
use fesos.Machine.Memory.{Bytes}
use fesos.Avl.{AvlTree}
use fesos.Avl.Nodes.{null, Outcome, done, fault, out_of_fuel}
use fesos.Vfs.State.{
  NodeData, VfsNode, Vfs, VfsRun, returned, faulted, stuck, VfsM, pure, followed_by, ◌>>=◌, ◌>>◌,
  lifted, get, change, Outside,
}
use fesos.Vfs.{
  finddir_of, operations_of, redirect, insert_node, cached_node, new_vfs_node, is_directory,
  vfs_finddir,
}
use fesos.Vfs.Path.{enter}

-- Two memories with the same text up to index n.
unfoldable pub Same : ℕ → ℕ → Bytes → Bytes → Type 0
Same path n m m' = (i : ℕ) → i ≤ n → m' (path + i) ≡ m (path + i)

-- The text up to index n stays where a run returns.
pub record Keeps {A : Type 0} (path n : ℕ) (c : VfsM A) : Type 0 where
  pub text : (s : Vfs) (a : A) (s' : Vfs) → c s ≡ returned a s' → Same path n s.mem s'.mem

-- A finddir of a driver, where it has one, leaves the text alone.
pub data KeepsIn (path n : ℕ) : Option (ℕ → ℕ → ℕ → VfsM NodeData) → Type 0 where
  no_finddir : KeepsIn path n none
  present :
      {finddir : ℕ → ℕ → ℕ → VfsM NodeData}
      → ((node name len : ℕ) → Keeps path n (finddir node name len))
      → KeepsIn path n (some finddir)

-- The promise of the code that vfs.c calls: it leaves the text alone.
pub record KeepsText (w : Outside) (path n : ℕ) : Type 0 where
  pub kmalloc : (size : ℕ) → Keeps path n (w.kmalloc size)
  pub kfree : (node : ℕ) → Keeps path n (w.kfree node)
  pub finddir : (operations : ℕ) → KeepsIn path n (w.ops operations).finddir

lifted-Same :
    {A : Type 0} (path n : ℕ) (o : Outcome VfsNode A) (s : Vfs) (a : A) (s' : Vfs)
    → lifted s o ≡ returned a s'
    → Same path n s.mem s'.mem
unfolding Same
lifted-Same path n (done x nodes) s a s' e i le = ground arith
lifted-Same path n fault s a s' e i le = absurd (cc)
lifted-Same path n out_of_fuel s a s' e i le = absurd (cc)

module _ {path n : ℕ} where
  pub pure-Keeps : {A : Type 0} (a : A) → Keeps path n (pure a)
  unfolding Same
  pure-Keeps a = record { text = λ s b s' e i le. ground arith }

  -- The second of two calls, on the result of the first.
  second-Keeps :
      {A B : Type 0} (r : VfsRun A) (f : A → VfsM B) (s : Vfs)
      → ((a : A) (s' : Vfs) → r ≡ returned a s' → Same path n s.mem s'.mem)
      → ((a : A) → Keeps path n (f a))
      → (b : B) (s' : Vfs) → followed_by r f ≡ returned b s'
      → Same path n s.mem s'.mem
  unfolding Same
  second-Keeps (returned a s1) f s kr kf b s' e i le =
      (kf a).text s1 b s' e i le ∙ kr a s1 refl i le
  second-Keeps faulted f s kr kf b s' e i le = absurd (cc)
  second-Keeps stuck f s kr kf b s' e i le = absurd (cc)

  faulted-Keeps : {A : Type 0} → Keeps {A = A} path n (λ s. faulted)
  faulted-Keeps = record { text = λ s a s' e. absurd (cc) }

  bind-Keeps :
      {A B : Type 0} {c : VfsM A} {f : A → VfsM B}
      → Keeps path n c
      → ((a : A) → Keeps path n (f a))
      → Keeps path n (c >>= f)
  bind-Keeps {A} {B} {c} {f} kc kf = record {
    text = λ s b s' e. second-Keeps (c s) f s (kc.text s) kf b s' e;
  }

  if-Keeps :
      {A : Type 0} (b : Bool) {c d : VfsM A}
      → Keeps path n c
      → Keeps path n d
      → Keeps path n (if b then c else d)
  if-Keeps true kc kd = kc
  if-Keeps false kc kd = kd

  get-Keeps : (node : ℕ) → Keeps path n (get node)
  unfolding Same get
  get-Keeps node = record { text = λ s a s' e i le. ground arith }

  change-Keeps : (node : ℕ) (f : VfsNode → VfsNode) → Keeps path n (change node f)
  unfolding Same change
  change-Keeps node f = record { text = λ s a s' e i le. ground arith }

  -- A command that reads the state first.
  at-Keeps :
      {A : Type 0} (c : Vfs → VfsM A) → ((s : Vfs) → Keeps path n (c s)) → Keeps path n (λ s. c s s)
  at-Keeps c kc = record { text = λ s. (kc s).text s }

  set_tree-Keeps :
      (tree : AvlTree) → Keeps path n (λ s. returned (tt {0}) (record s { vfs_tree = tree }))
  unfolding Same
  set_tree-Keeps tree = record { text = λ s a s' e i le. ground arith }

  insert_node-Keeps : (w : Outside) (node : ℕ) → Keeps path n (insert_node w node)
  unfolding insert_node
  insert_node-Keeps w node = record {
    text = λ s.
        second-Keeps _ (λ tree s1. returned tt (record s1 { vfs_tree = tree })) s
          (lifted-Same path n _ s) set_tree-Keeps;
  }

  cached_node-Keeps : (w : Outside) (key : ℕ) → Keeps path n (cached_node w key)
  unfolding cached_node
  cached_node-Keeps w key = record { text = λ s. lifted-Same path n _ s }

module _ (w : Outside) (path n : ℕ) (k : KeepsText w path n) where
  new_vfs_node-Keeps :
      (node name len : ℕ) (d : NodeData) → Keeps path n (new_vfs_node w node name len d)
  unfolding new_vfs_node
  new_vfs_node-Keeps node name len d = bind-Keeps (k.kmalloc 208) (λ new_node.
      bind-Keeps (change-Keeps new_node _) (λ _.
        bind-Keeps
          (if-Keeps (ltb 128 len) faulted-Keeps (
            at-Keeps
              (λ s0.
                change new_node
                  (λ m. record m { name = λ i. if ltb i len then s0.mem (name + i) else m.name i }))
              (λ s0. change-Keeps new_node _)))
          (λ _. bind-Keeps (change-Keeps new_node _) (λ _.
            bind-Keeps (change-Keeps new_node _) (λ _. bind-Keeps (get-Keeps node) (λ m.
              bind-Keeps (change-Keeps new_node _) (λ _.
                bind-Keeps (change-Keeps new_node _)
                  (λ _. bind-Keeps (insert_node-Keeps w new_node) (λ _. pure-Keeps new_node)))))))))

  finddir_of-Keeps : (m : VfsNode) → KeepsIn path n (finddir_of w m)
  unfolding finddir_of operations_of
  finddir_of-Keeps m = elim (Bool-cases (m.operations == null)) [
    | inl none_there ↦ rw (finddir_of, none_there) no_finddir
    | inr there ↦ rw (finddir_of, there) (k.finddir m.operations)
  ]

  -- What comes after the driver's answer.
  answered-Keeps :
      (dir name len : ℕ) (node_data : NodeData)
      → Keeps path n (do
        d ← get dir
        change w.key_node (λ m. record m { mountpoint = d.mountpoint; inode = node_data.inode })
        found_node ← cached_node w w.key_node
        if found_node == null then new_vfs_node w dir name len node_data else pure found_node)
  answered-Keeps dir name len node_data = bind-Keeps (get-Keeps dir) (λ d.
      bind-Keeps (change-Keeps w.key_node _) (λ _.
        bind-Keeps (cached_node-Keeps w w.key_node) (λ found_node.
          if-Keeps (found_node == null) (new_vfs_node-Keeps dir name len node_data)
            (pure-Keeps found_node))))

  driver-Keeps :
      (dir name len : ℕ) (o : Option (ℕ → ℕ → ℕ → VfsM NodeData))
      → KeepsIn path n o
      → Keeps path n (elim o [
        | none ↦ pure null
        | some finddir ↦ do
          node_data ← finddir dir name len
          if node_data.operations == null then pure null else (do
            d ← get dir
            change w.key_node (λ k. record k { mountpoint = d.mountpoint; inode = node_data.inode })
            found_node ← cached_node w w.key_node
            if found_node == null then new_vfs_node w dir name len node_data else pure found_node)
      ])
  driver-Keeps dir name len none no_finddir = pure-Keeps null
  driver-Keeps dir name len (some f) (present kf) = bind-Keeps (kf dir name len) (λ node_data.
      if-Keeps (node_data.operations == null) (pure-Keeps null)
        (answered-Keeps dir name len node_data))

  vfs_finddir-Keeps : (node name len : ℕ) → Keeps path n (vfs_finddir w node name len)
  unfolding vfs_finddir redirect
  vfs_finddir-Keeps node name len = if-Keeps _ (pure-Keeps null) (
      bind-Keeps (bind-Keeps (get-Keeps node) (λ m. pure-Keeps _)) (λ dir.
        bind-Keeps (get-Keeps dir) (λ m.
          if-Keeps (not (is_directory m.node_type)) (pure-Keeps null)
            (driver-Keeps dir name len (finddir_of w m) (finddir_of-Keeps m)))))

  pub enter-Keeps : (node name len : ℕ) → Keeps path n (enter w node name len)
  unfolding enter
  enter-Keeps node name len = bind-Keeps (vfs_finddir-Keeps node name len) (λ new_node.
      bind-Keeps (get-Keeps node) (λ c.
        bind-Keeps (if-Keeps (c.ref_count == 0) (k.kfree node) (pure-Keeps tt))
          (λ _. pure-Keeps new_node)))
