-- ===== src/Vfs.antt =====
-- The virtual file system, kernel/x86_64/kernel/vfs.c: the checks around the calls of a driver, the
-- counts of references, paths, and mounts. An int is its 32-bit pattern. The log messages are left
-- out. The compiler keeps a NULL check where the source has one. The copy of a name that is longer
-- than the 128 bytes of the field is undefined, and is a fault here.
pub mod State
pub mod Path
pub mod Counts
pub mod Order
mod Tests
use fesos.Prelude.{
  ℕ, zero, suc, ◌+◌, ◌-◌, ◌%◌, ◌^◌, Bool, true, false, not, ◌&&◌, ◌||◌, Option, none, some, ◌==◌,
  ltb, if◌then◌else◌,
}
use fesos.Machine.{error}
use fesos.Machine.Memory.{Bytes}
use fesos.Strings.{str_len}
use fesos.Avl.{AvlTree, Comparison, negative, equal, positive, avl_insert, avl_get_node}
use fesos.Avl.Nodes.{AvlNode, null, Store, Outcome, done, fault, Cmd, load}
use State.{
  NodeType, node_file, node_directory, node_mountpoint, VfsNode, NodeData, Vfs, VfsRun, returned,
  faulted, stuck, VfsM, pure, followed_by, ◌>>=◌, ◌>>◌, on_nodes, get, change, VfsOps, Outside,
}

pub is_directory : NodeType → Bool
is_directory node_directory = true
is_directory _ = false

pub is_mountpoint : NodeType → Bool
is_mountpoint node_mountpoint = true
is_mountpoint _ = false

-- `ref_count++` and `ref_count--`
pub more_refs : VfsNode → VfsNode
more_refs n = record n { ref_count = (n.ref_count + 1) % 2 ^ 32 }

pub fewer_refs : VfsNode → VfsNode
fewer_refs n = record n { ref_count = (n.ref_count + 2 ^ 32 - 1) % 2 ^ 32 }

pub vfs_compare : ℕ → ℕ → Cmd VfsNode Comparison
vfs_compare node_a node_b s =
    let a = (s node_a).item in
    let b = (s node_b).item in
    if node_a == null || node_b == null
    then fault
    else done
        (if ltb b.mountpoint a.mountpoint
          then positive
          else if ltb a.mountpoint b.mountpoint
          then negative
          else if ltb b.inode a.inode
          then positive
          else if ltb a.inode b.inode
          then negative
          else equal)
        s

module _ (w : Outside) where
  -- `node->operations && node->operations->…`
  pub operations_of : VfsNode → Option VfsOps
  operations_of n = if n.operations == null then none else some (w.ops n.operations)

  pub read_of : VfsNode → Option (ℕ → ℕ → ℕ → ℕ → VfsM ℕ)
  unfolding operations_of
  read_of n = elim (operations_of n) [ none ↦ none | some o ↦ o.read ]

  pub write_of : VfsNode → Option (ℕ → ℕ → ℕ → ℕ → VfsM ℕ)
  unfolding operations_of
  write_of n = elim (operations_of n) [ none ↦ none | some o ↦ o.write ]

  pub close_of : VfsNode → Option (ℕ → VfsM ℕ)
  unfolding operations_of
  close_of n = elim (operations_of n) [ none ↦ none | some o ↦ o.close ]

  pub open_of : VfsNode → Option (ℕ → VfsM ℕ)
  unfolding operations_of
  open_of n = elim (operations_of n) [ none ↦ none | some o ↦ o.open_file ]

  pub finddir_of : VfsNode → Option (ℕ → ℕ → ℕ → VfsM NodeData)
  unfolding operations_of
  finddir_of n = elim (operations_of n) [ none ↦ none | some o ↦ o.finddir ]

  pub readdir_of : VfsNode → Option (ℕ → ℕ → ℕ → VfsM ℕ)
  unfolding operations_of
  readdir_of n = elim (operations_of n) [ none ↦ none | some o ↦ o.readdir ]

  pub create_of : VfsNode → Option (ℕ → ℕ → NodeType → VfsM ℕ)
  unfolding operations_of
  create_of n = elim (operations_of n) [ none ↦ none | some o ↦ o.create ]

  pub ioctl_of : VfsNode → Option (ℕ → ℕ → ℕ → VfsM ℕ)
  unfolding operations_of
  ioctl_of n = elim (operations_of n) [ none ↦ none | some o ↦ o.ioctl ]

  pub vfs_read : ℕ → ℕ → ℕ → ℕ → VfsM ℕ
  unfolding is_directory read_of error
  vfs_read node offset size buffer =
      if node == null then pure (error 22) else if size == 0 then pure 0 else do
        n ← get node
        if is_directory n.node_type then pure (error 21) else (elim (read_of n) [
          | none ↦ pure (error 1)
          | some read ↦ read node offset size buffer
        ])

  pub vfs_write : ℕ → ℕ → ℕ → ℕ → VfsM ℕ
  unfolding is_directory write_of error
  vfs_write node offset size buffer =
      if node == null then pure (error 22) else if size == 0 then pure 0 else do
        n ← get node
        if is_directory n.node_type then pure (error 21) else (elim (write_of n) [
          | none ↦ pure (error 1)
          | some write ↦ write node offset size buffer
        ])

  pub vfs_close : ℕ → VfsM ℕ
  unfolding fewer_refs close_of error
  vfs_close node = if node == null then pure (error 22) else do
    change node fewer_refs
    n ← get node
    change n.mountpoint fewer_refs
    n' ← get node
    if n'.ref_count == 0
        then (do
          driver_status ← elim (close_of n') [ none ↦ pure 0 | some close ↦ close node ]
          w.kfree node
          pure driver_status)
        else pure w.no_value

  pub vfs_open : ℕ → VfsM ℕ
  unfolding more_refs fewer_refs open_of error
  vfs_open node = if node == null then pure (error 22) else do
    change node more_refs
    n ← get node
    change n.mountpoint more_refs
    n' ← get node
    elim (open_of n') [
      | none ↦ pure 0
      | some open_file ↦ do
        driver_status ← open_file node
        if driver_status == 0 then pure 0 else (do
          change node fewer_refs
          n'' ← get node
          change n''.mountpoint fewer_refs
          pure driver_status)
    ]

  -- The node that stands for a mounted directory.
  pub redirect : ℕ → VfsM ℕ
  unfolding is_mountpoint
  redirect node = do
    n ← get node
    pure (if is_mountpoint n.node_type && not (n.mountpoint == null) then n.mountpoint else node)

  pub insert_node : ℕ → VfsM (Unit {0})
  unfolding vfs_compare
  insert_node new_node s =
      followed_by (on_nodes (avl_insert (λ _ _. fault) vfs_compare w.fuel s.vfs_tree new_node) s)
        (λ tree s'. returned tt (record s' { vfs_tree = tree }))

  pub cached_node : ℕ → VfsM ℕ
  unfolding vfs_compare
  cached_node key s = on_nodes (avl_get_node (λ _ _. fault) vfs_compare w.fuel s.vfs_tree key) s

  -- A new node for what the driver found, inserted into the tree.
  pub new_vfs_node : ℕ → ℕ → ℕ → NodeData → VfsM ℕ
  unfolding insert_node
  new_vfs_node node name len node_data = do
    new_node ← w.kmalloc 208
    change new_node (λ n. record n { inode = node_data.inode })
    if ltb 128 len then (λ s. faulted) else (λ s.
        change new_node
          (λ n. record n { name = λ i. if ltb i len then s.mem (name + i) else n.name i }) s)
    change new_node (λ n. record n { operations = node_data.operations })
    change new_node (λ n. record n { mount_ptr = null })
    n ← get node
    change new_node (λ m. record m { mountpoint = n.mountpoint })
    change new_node (λ m. record m { node_type = node_data.node_type })
    insert_node new_node
    pure new_node

  pub vfs_finddir : ℕ → ℕ → ℕ → VfsM ℕ
  unfolding redirect finddir_of new_vfs_node cached_node is_directory
  vfs_finddir node name len = if node == null || name == null || len == 0 then pure null else do
    dir ← redirect node
    n ← get dir
    if not (is_directory n.node_type) then pure null else (elim (finddir_of n) [
      | none ↦ pure null
      | some finddir ↦ do
        node_data ← finddir dir name len
        if node_data.operations == null then pure null else (do
          d ← get dir
          change w.key_node (λ k. record k { mountpoint = d.mountpoint; inode = node_data.inode })
          found_node ← cached_node w.key_node
          if found_node == null then new_vfs_node dir name len node_data else pure found_node)
    ])

  pub vfs_readdir : ℕ → ℕ → ℕ → VfsM ℕ
  unfolding redirect readdir_of is_directory
  vfs_readdir node index dirent = if node == null || dirent == null then pure 0 else do
    dir ← redirect node
    n ← get dir
    if not (is_directory n.node_type)
        then pure 0
        else (elim (readdir_of n) [ none ↦ pure 0 | some readdir ↦ readdir dir index dirent ])

  pub vfs_create : ℕ → ℕ → NodeType → VfsM ℕ
  unfolding create_of is_directory error
  vfs_create parent name kind = if parent == null || name == null then pure (error 22) else do
    n ← get parent
    if not (is_directory n.node_type)
        then pure 0
        else (elim (create_of n) [ none ↦ pure 0 | some create ↦ create parent name kind ])

  pub vfs_ioctl : ℕ → ℕ → ℕ → VfsM ℕ
  unfolding ioctl_of is_directory error
  vfs_ioctl node command_id args = if node == null then pure (error 22) else do
    n ← get node
    if is_directory n.node_type then pure (error 25) else (elim (ioctl_of n) [
      | none ↦ pure (error 25)
      | some ioctl ↦ ioctl node command_id args
    ])
