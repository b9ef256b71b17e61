-- ===== src/Vfs/Path.antt =====
-- vfs_lookup, vfs_mount, vfs_unmount and vfs_init of kernel/x86_64/kernel/vfs.c.
pub mod Keeps
pub mod Lookup
pub mod Mount
pub mod Missing
mod Tests
use fesos.Prelude.{
  ℕ, zero, suc, ◌+◌, ◌-◌, ◌%◌, ◌^◌, Bool, true, false, not, ◌&&◌, ◌||◌, Option, none, some, ◌==◌,
  ltb, if◌then◌else◌,
}
use fesos.Machine.{error}
use fesos.Machine.Memory.{Bytes}
use fesos.Strings.{str_len}
use fesos.Avl.Nodes.{null}
use fesos.Vfs.State.{
  NodeType, node_mountpoint, VfsNode, Vfs, VfsRun, returned, faulted, stuck, VfsM, pure,
  followed_by, ◌>>=◌, ◌>>◌, get, change, VfsOps, Outside,
}
use fesos.Vfs.{
  is_directory, is_mountpoint, more_refs, fewer_refs, operations_of, vfs_close, vfs_finddir,
}

-- `while (path[right_ptr] != '/' && path[right_ptr] != 0) right_ptr++;`
pub name_end : ℕ → Bytes → ℕ → ℕ → Option ℕ
name_end zero m path right_ptr = none
name_end (suc fuel) m path right_ptr =
    let rest = name_end fuel m path ((right_ptr + 1) % 2 ^ 32) in
    if m (path + right_ptr) == 0x2F || m (path + right_ptr) == 0 then some right_ptr else rest

-- The difference of two pointers of type uint32_t.
pub sub32 : ℕ → ℕ → ℕ
sub32 a b = (a + 2 ^ 32 - b) % 2 ^ 32

module _ (w : Outside) where
  -- One step into a directory.
  pub enter : ℕ → ℕ → ℕ → VfsM ℕ
  unfolding vfs_finddir
  enter current_node name len = do
    new_node ← vfs_finddir w current_node name len
    c ← get current_node
    if c.ref_count == 0 then w.kfree current_node else pure tt
    pure new_node

  -- The part of one round before its tests: the name from `left_ptr` to `right_ptr` is entered.
  pub enter_name : ℕ → ℕ → ℕ → ℕ → VfsM ℕ
  unfolding enter sub32
  enter_name path current_node left_ptr right_ptr =
      if ltb 1 (sub32 left_ptr right_ptr)
      then enter current_node (path + left_ptr) (sub32 right_ptr left_ptr)
      else pure current_node

  pub lookup_loop : ℕ → ℕ → ℕ → ℕ → ℕ → VfsM ℕ
  unfolding name_end enter_name
  lookup_loop zero path current_node left_ptr right_ptr s = stuck
  lookup_loop (suc fuel) path current_node left_ptr right_ptr s =
      elim (name_end w.fuel s.mem path right_ptr) [
        | none ↦ stuck
        | some right_ptr' ↦
            followed_by (enter_name path current_node left_ptr right_ptr' s) (λ node s'.
              let next = (right_ptr' + 1) % 2 ^ 32 in
              let rest = lookup_loop fuel path node next next s' in
              if node == null
              then returned null s'
              else if s'.mem (path + right_ptr') == 0
              then returned node s'
              else rest)
      ]

  pub vfs_lookup : ℕ → VfsM ℕ
  unfolding lookup_loop
  vfs_lookup path s = if path == null then returned null s else elim (str_len w.fuel s.mem path) [
    | none ↦ stuck
    | some path_len ↦
        if path_len == 0
        then returned null s
        else if s.mem path == 0x2F
        then lookup_loop w.fuel path s.vfs_root_node 1 1 s
        else returned null s
  ]

  -- `fs_root->operations->open(fs_root);`
  pub open_root : ℕ → VfsM (Unit {0})
  unfolding operations_of
  open_root fs_root = do
    r ← get fs_root
    elim (operations_of w r) [
      | none ↦ λ s. faulted
      | some o ↦ elim o.open_file [
        | none ↦ λ s. faulted
        | some open_file ↦ do open_file fs_root; pure tt
      ]
    ]

  pub vfs_mount : ℕ → ℕ → VfsM ℕ
  unfolding vfs_lookup open_root is_directory more_refs error
  vfs_mount mount_path fs_root =
      if fs_root == null || mount_path == null then pure (error 22) else do
        mount_stub ← vfs_lookup mount_path
        m ← get mount_stub
        if not (is_directory m.node_type) then pure (error 20) else (do
          change mount_stub (λ n. record n { node_type = node_mountpoint })
          change mount_stub (λ n. record n { mount_ptr = fs_root })
          change fs_root (λ n. record n { mount_ptr = mount_stub })
          change mount_stub more_refs
          m' ← get mount_stub
          change m'.mountpoint more_refs
          change fs_root more_refs
          open_root fs_root
          pure 0)

  -- From the node that the path leads to on.
  pub unmount_root : ℕ → VfsM ℕ
  unfolding vfs_close is_mountpoint fewer_refs error
  unmount_root fs_root = do
    r ← get fs_root
    if r.mount_ptr == null then pure (error 22) else (do
      m ← get r.mount_ptr
      if not (is_mountpoint m.node_type)
          then pure (error 22)
          else if ltb 1 r.ref_count
          then pure (error 16)
          else (do
            change r.mount_ptr fewer_refs
            m' ← get r.mount_ptr
            change m'.mountpoint fewer_refs
            w.kfree r.mount_ptr
            vfs_close w fs_root))

  pub vfs_unmount : ℕ → VfsM ℕ
  unfolding vfs_lookup unmount_root error
  vfs_unmount path = if path == null then pure (error 22) else do
    fs_root ← vfs_lookup path
    if fs_root == null then pure (error 2) else unmount_root fs_root

pub vfs_init : ℕ → VfsM (Unit {0})
unfolding more_refs
vfs_init root_node s = change root_node more_refs (record s { vfs_root_node = root_node })
