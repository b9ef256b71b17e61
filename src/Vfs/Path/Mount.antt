-- ===== src/Vfs/Path/Mount.antt =====
-- vfs_mount and vfs_unmount of kernel/x86_64/kernel/vfs.c.
use fesos.Prelude.{ℕ, ◌+◌, ◌%◌, ◌^◌, ◌≢◌, ◌≡◌, refl, true, false, none, some, arith}
use fesos.Machine.{error}
use fesos.Avl.Nodes.{null, put}
use fesos.Vfs.State.{
  node_mountpoint, VfsNode, Vfs, returned, faulted, VfsM, pure, followed_by, get, Outside, Ends,
  ends,
}
use fesos.Vfs.{
  is_directory, is_mountpoint, more_refs, open_of, operations_of, redirect, vfs_finddir,
  vfs_readdir,
}
use fesos.Vfs.Counts.{changed, get_lem, change_lem}
use fesos.Vfs.Path.{vfs_lookup, open_root, vfs_mount, unmount_root, vfs_unmount}

to_mountpoint : VfsNode → VfsNode
to_mountpoint n = record n { node_type = node_mountpoint }

to_root : ℕ → VfsNode → VfsNode
to_root fs_root n = record n { mount_ptr = fs_root }

-- The state in which vfs_mount calls the root's open.
unfoldable pub mounted : ℕ → ℕ → Vfs → Vfs
unfolding to_root to_mountpoint
mounted stub fs_root s = changed fs_root more_refs (
    changed (s.nodes stub).item.mountpoint more_refs (
      changed stub more_refs (
        changed fs_root (to_root stub)
          (changed stub (to_root fs_root) (changed stub to_mountpoint s)))))

same_mountpoint :
    (stub fs_root : ℕ) (s : Vfs)
    → ((changed stub more_refs (
          changed fs_root
            (to_root stub)
            (changed stub (to_root fs_root) (changed stub to_mountpoint s)))).nodes
        stub).item.mountpoint
      ≡ (s.nodes stub).item.mountpoint
unfolding changed put more_refs to_root to_mountpoint
same_mountpoint stub fs_root s = ground arith

same_operations :
    (stub fs_root : ℕ) (s : Vfs)
    → ((mounted stub fs_root s).nodes fs_root).item.operations ≡ (s.nodes fs_root).item.operations
unfolding mounted changed put more_refs to_root to_mountpoint
same_operations stub fs_root s = ground arith

-- What a mount does to the state after the lookup: three nodes change, and no other.
pub record Mounted (stub fs_root : ℕ) (s s' : Vfs) : Type 0 where
  pub stub_type : (s'.nodes stub).item.node_type ≡ node_mountpoint
  pub stub_ptr : (s'.nodes stub).item.mount_ptr ≡ fs_root
  pub root_ptr : (s'.nodes fs_root).item.mount_ptr ≡ stub
  pub stub_count : (s'.nodes stub).item.ref_count ≡ ((s.nodes stub).item.ref_count + 1) % 2 ^ 32
  pub root_count :
      (s'.nodes fs_root).item.ref_count ≡ ((s.nodes fs_root).item.ref_count + 1) % 2 ^ 32
  pub root_type : (s'.nodes fs_root).item.node_type ≡ (s.nodes fs_root).item.node_type
  pub mountpoint_count :
      (s'.nodes (s.nodes stub).item.mountpoint).item.ref_count
      ≡ ((s.nodes (s.nodes stub).item.mountpoint).item.ref_count + 1) % 2 ^ 32
  pub others :
      (x : ℕ) → x ≢ stub → x ≢ fs_root → x ≢ (s.nodes stub).item.mountpoint → s'.nodes x ≡ s.nodes x

-- The directory operations on a node do what they do on another one.
pub record GoesOn (w : Outside) (node other : ℕ) (s : Vfs) : Type 0 where
  pub finddir : (name len : ℕ) → vfs_finddir w node name len s ≡ vfs_finddir w other name len s
  pub readdir :
      (index dirent : ℕ) → vfs_readdir w node index dirent s ≡ vfs_readdir w other index dirent s

-- They do so where the node is a mountpoint that redirects to the other, which does not redirect.
redirect-GoesOn :
    (w : Outside) (node other : ℕ) (s : Vfs)
    → node ≢ null
    → other ≢ null
    → redirect w node s ≡ returned other s
    → redirect w other s ≡ returned other s
    → GoesOn w node other s
unfolding vfs_finddir vfs_readdir
redirect-GoesOn w node other s nn on from to = record {
  finddir = λ name len. ground (arith, from, to);
  readdir = λ index dirent. ground (arith, from, to);
}

module _ (stub fs_root : ℕ) (s : Vfs) (sn : stub ≢ null) (apart : stub ≢ fs_root)
    (mn : (s.nodes stub).item.mountpoint ≢ null) (stub_mp : (s.nodes stub).item.mountpoint ≢ stub)
    (root_mp : (s.nodes stub).item.mountpoint ≢ fs_root) where
  pub mounted-Mounted : Mounted stub fs_root s (mounted stub fs_root s)
  unfolding mounted changed put more_refs to_root to_mountpoint
  mounted-Mounted = record {
    stub_type = ground arith;
    stub_ptr = ground arith;
    root_ptr = ground arith;
    stub_count = ground arith;
    root_count = ground arith;
    root_type = ground arith;
    mountpoint_count = ground arith;
    others = λ x xs xr xm. ground arith;
  }

  mounted-GoesOn :
      (w : Outside)
      → is_mountpoint (s.nodes (s.nodes stub).item.mountpoint).item.node_type ≡ false
      → GoesOn w stub (s.nodes stub).item.mountpoint (mounted stub fs_root s)
  mounted-GoesOn w plain =
      redirect-GoesOn w stub (s.nodes stub).item.mountpoint (mounted stub fs_root s) sn mn
        (unfold mounted changed put more_refs to_root to_mountpoint redirect is_mountpoint get in
          (ground arith))
        (unfold mounted changed put more_refs to_root to_mountpoint redirect get in
          (ground (arith, plain)))

module _ (w : Outside) (path fs_root stub : ℕ) (s s1 : Vfs) (pn : path ≢ null) (rn : fs_root ≢ null)
    (sn : stub ≢ null) (found : vfs_lookup w path s ≡ returned stub s1)
    (mn : (s1.nodes stub).item.mountpoint ≢ null)
    (dir : is_directory (s1.nodes stub).item.node_type ≡ true) where
  mount_start :
      vfs_mount w path fs_root s
      ≡ followed_by (open_root w fs_root (mounted stub fs_root s1)) (λ _. pure 0)
  unfolding vfs_mount mounted to_root to_mountpoint
  mount_start =
      let s2 = changed stub to_mountpoint s1 in
      let s3 = changed stub (to_root fs_root) s2 in
      let s4 = changed fs_root (to_root stub) s3 in
      let s5 = changed stub more_refs s4 in
      let mp = (s1.nodes stub).item.mountpoint in
      let s6 = changed mp more_refs s5 in
      ground (
        arith,
        found,
        get_lem stub s1 sn,
        change_lem stub to_mountpoint s1 sn,
        change_lem stub (to_root fs_root) s2 sn,
        change_lem fs_root (to_root stub) s3 rn,
        change_lem stub more_refs s4 sn,
        get_lem stub s5 sn,
        same_mountpoint stub fs_root s1,
        change_lem mp more_refs s5 mn,
        change_lem fs_root more_refs s6 rn,
      )

module _ (w : Outside) (fs_root : ℕ) (rn : fs_root ≢ null) (n : VfsNode) (t : Vfs)
    (same : (t.nodes fs_root).item.operations ≡ n.operations) where
  open_root_lem :
      (open_file : ℕ → VfsM ℕ) (status : ℕ)
      → open_of w n ≡ some open_file
      → ((u : Vfs) → open_file fs_root u ≡ returned status u)
      → open_root w fs_root t ≡ returned tt t
  unfolding open_root open_of operations_of
  open_root_lem open_file status some_open answer =
      ground (arith, get_lem fs_root t rn, same, some_open, answer t)

  open_root-none : open_of w n ≡ none → open_root w fs_root t ≡ faulted
  unfolding open_root open_of operations_of
  open_root-none no_open = ground (arith, get_lem fs_root t rn, same, no_open)

-- For a path whose lookup gives a directory, a root that is not NULL, and the node of the directory's
-- own mountpoint, which is not mounted over, all three of them different: where the driver of the root has an open, whatever
-- status it answers, leaving the state alone, vfs_mount returns 0; the directory has become a
-- mountpoint, it and the root point to each other, the counts of references of all three are one up,
-- no other node changes, and vfs_finddir and vfs_readdir on the directory do all that they do on the
-- node of its own mountpoint.
pub vfs_mount-Mounted :
    (w : Outside) (path fs_root stub : ℕ) (s s1 : Vfs) (open_file : ℕ → VfsM ℕ) (status : ℕ)
    → path ≢ null
    → fs_root ≢ null
    → stub ≢ null
    → (s1.nodes stub).item.mountpoint ≢ null
    → stub ≢ fs_root
    → (s1.nodes stub).item.mountpoint ≢ stub
    → (s1.nodes stub).item.mountpoint ≢ fs_root
    → vfs_lookup w path s ≡ returned stub s1
    → is_directory (s1.nodes stub).item.node_type ≡ true
    → open_of w (s1.nodes fs_root).item ≡ some open_file
    → ((u : Vfs) → open_file fs_root u ≡ returned status u)
    → is_mountpoint (s1.nodes (s1.nodes stub).item.mountpoint).item.node_type ≡ false
    → Ends
        (λ result s'.
          (result ≡ 0)
          × Mounted stub fs_root s1 s'
          × GoesOn w stub (s1.nodes stub).item.mountpoint s')
        (vfs_mount w path fs_root s)
vfs_mount-Mounted w path fs_root stub s s1 f status pn rn sn mn apart stub_mp root_mp found dir o a
      plain =
    let opened =
      open_root_lem w fs_root rn (s1.nodes fs_root).item (mounted stub fs_root s1)
        (same_operations stub fs_root s1) f status o a in
    rw (mount_start w path fs_root stub s s1 pn rn sn found mn dir, opened)
      (ends (
        refl,
        mounted-Mounted stub fs_root s1 sn apart mn stub_mp root_mp,
        mounted-GoesOn stub fs_root s1 sn apart mn stub_mp root_mp w plain,
      ))

-- After a mount of a directory as root, an unmount whose lookup gives the mounted directory returns
-- EINVAL.
pub vfs_unmount-Mounted :
    (w : Outside) (path fs_root stub : ℕ) (s s' t : Vfs)
    → path ≢ null
    → fs_root ≢ null
    → stub ≢ null
    → Mounted stub fs_root s s'
    → is_directory (s.nodes fs_root).item.node_type ≡ true
    → vfs_lookup w path t ≡ returned stub s'
    → vfs_unmount w path t ≡ returned (error 22) s'
unfolding vfs_unmount unmount_root is_directory is_mountpoint get
vfs_unmount-Mounted w path fs_root stub s s' t pn rn sn m dir found =
    ground (arith, found, m.stub_ptr, m.root_type)

-- For a path whose lookup gives a directory whose mountpoint is not NULL, and a root that is not NULL
-- and whose driver has no open, vfs_mount calls through NULL.
pub vfs_mount_without_open :
    (w : Outside) (path fs_root stub : ℕ) (s s1 : Vfs)
    → path ≢ null
    → fs_root ≢ null
    → stub ≢ null
    → (s1.nodes stub).item.mountpoint ≢ null
    → vfs_lookup w path s ≡ returned stub s1
    → is_directory (s1.nodes stub).item.node_type ≡ true
    → open_of w (s1.nodes fs_root).item ≡ none
    → vfs_mount w path fs_root s ≡ faulted
vfs_mount_without_open w path fs_root stub s s1 pn rn sn mn found dir o =
    let opened =
      open_root-none w fs_root rn (s1.nodes fs_root).item (mounted stub fs_root s1)
        (same_operations stub fs_root s1) o in
    rw (mount_start w path fs_root stub s s1 pn rn sn found mn dir, opened) refl
