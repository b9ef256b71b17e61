-- ===== src/Vfs/Counts.antt =====
-- The counts of references over vfs_open and vfs_close of kernel/x86_64/kernel/vfs.c.
use fesos.Prelude.{
  ℕ, ◌+◌, ◌-◌, ◌%◌, ◌^◌, ◌<◌, ◌≢◌, ◌≡◌, refl, ap, ◌∙◌, Option, none, some, ◌==◌, if◌then◌else◌,
  arith,
}
use mathlib.Core.Path.{fun_ext}
use fesos.Avl.Nodes.{null, Store, put}
use fesos.Vfs.State.{VfsNode, Vfs, returned, VfsM, pure, ◌>>=◌, ◌>>◌, get, change, Outside}
use fesos.Vfs.{more_refs, fewer_refs, open_of, close_of, operations_of, vfs_open, vfs_close}

-- The state after `change`.
unfoldable pub changed : ℕ → (VfsNode → VfsNode) → Vfs → Vfs
changed node f s = record s {
  nodes = put s.nodes node (record (s.nodes node) { item = f (s.nodes node).item });
}

pub get_lem : (node : ℕ) (s : Vfs) → node ≢ null → get node s ≡ returned (s.nodes node).item s
unfolding get
get_lem node s h = ground arith

pub change_lem :
    (node : ℕ) (f : VfsNode → VfsNode) (s : Vfs)
    → node ≢ null
    → change node f s ≡ returned tt (changed node f s)
unfolding change changed
change_lem node f s h = ground arith

fewer_refs-more_refs : (n : VfsNode) → n.ref_count < 2 ^ 32 → fewer_refs (more_refs n) ≡ n
unfolding fewer_refs more_refs
fewer_refs-more_refs n h =
    ap (λ (c : ℕ). record n { ref_count = c })
      (let e : ((n.ref_count + 1) % 2 ^ 32 + 2 ^ 32 - 1) % 2 ^ 32 ≡ n.ref_count = omega arith in e)

refs_comm : (n : VfsNode) → fewer_refs (more_refs n) ≡ more_refs (fewer_refs n)
unfolding fewer_refs more_refs
refs_comm n =
    ap (λ (c : ℕ). record n { ref_count = c })
      (let e : ((n.ref_count + 1) % 2 ^ 32 + 2 ^ 32 - 1) % 2 ^ 32
            ≡ ((n.ref_count + 2 ^ 32 - 1) % 2 ^ 32 + 1) % 2 ^ 32 =
          omega arith in
        e)

module _ (a b : ℕ) (f g : VfsNode → VfsNode) (comm : (n : VfsNode) → f (g n) ≡ g (f n)) where
  changed_comm : (s : Vfs) → changed a f (changed b g s) ≡ changed b g (changed a f s)
  unfolding changed put
  changed_comm s =
      ap (λ (m : Store VfsNode). record s { nodes = m })
        (fun_ext (λ x. ground (arith, comm (s.nodes x).item, comm (s.nodes a).item)))

changed_back :
    (a : ℕ) (s : Vfs)
    → (s.nodes a).item.ref_count < 2 ^ 32
    → changed a fewer_refs (changed a more_refs s) ≡ s
unfolding changed put
changed_back a s h =
    ap (λ (m : Store VfsNode). record s { nodes = m })
      (fun_ext (λ x. ground (arith, fewer_refs-more_refs (s.nodes a).item h)))

-- The fields that the counting leaves alone.
mountpoint-changed :
    (a : ℕ) (s : Vfs) (x : ℕ)
    → ((changed a more_refs s).nodes x).item.mountpoint ≡ (s.nodes x).item.mountpoint
unfolding changed put more_refs
mountpoint-changed a s x = ground arith

open_of-changed :
    (w : Outside) (a : ℕ) (s : Vfs) (x : ℕ)
    → open_of w ((changed a more_refs s).nodes x).item ≡ open_of w (s.nodes x).item
unfolding changed put more_refs open_of operations_of
open_of-changed w a s x = ground arith

mountpoint-changed_fewer :
    (a : ℕ) (s : Vfs) (x : ℕ)
    → ((changed a fewer_refs s).nodes x).item.mountpoint ≡ (s.nodes x).item.mountpoint
unfolding changed put fewer_refs
mountpoint-changed_fewer a s x = ground arith

-- Both counts, of a node and of the node of its mountpoint.
pub counted : ℕ → (VfsNode → VfsNode) → Vfs → Vfs
counted node f s = changed (s.nodes node).item.mountpoint f (changed node f s)

-- The driver's open of a node, where there is one, returns `status` and leaves the state alone.
pub data Opens (node status : ℕ) : Option (ℕ → VfsM ℕ) → Type 0 where
  absent : status ≡ 0 → Opens node status none
  answers :
      {open_file : ℕ → VfsM ℕ}
      → ((s : Vfs) → open_file node s ≡ returned status s)
      → Opens node status (some open_file)

-- The last close: the driver's close, where there is one, and then kfree.
pub last_close : Outside → ℕ → VfsNode → VfsM ℕ
last_close w node n = do
  driver_status ← elim (close_of w n) [ none ↦ pure 0 | some close ↦ close node ]
  w.kfree node
  pure driver_status

module _ (w : Outside) (node : ℕ) (s : Vfs) (nn : node ≢ null)
    (mn : (s.nodes node).item.mountpoint ≢ null) where
  -- The end of vfs_open.
  opening : ℕ → Option (ℕ → VfsM ℕ) → VfsM ℕ
  opening node' none = pure 0
  opening node' (some open_file) = do
    driver_status ← open_file node'
    if driver_status == 0 then pure 0 else (do
      change node' fewer_refs
      n'' ← get node'
      change n''.mountpoint fewer_refs
      pure driver_status)

  vfs_open_start :
      vfs_open w node s ≡ opening node (open_of w (s.nodes node).item) (counted node more_refs s)
  unfolding vfs_open counted opening
  vfs_open_start =
      let s1 = changed node more_refs s in
      let mp = (s.nodes node).item.mountpoint in
      let s2 = changed mp more_refs s1 in
      ground (
        arith,
        change_lem node more_refs s nn,
        get_lem node s1 nn,
        mountpoint-changed node s node,
        change_lem mp more_refs s1 mn,
        get_lem node s2 nn,
        open_of-changed w node s node,
        open_of-changed w mp s1 node,
      )

  counted_mountpoint :
      ((counted node more_refs s).nodes node).item.mountpoint ≡ (s.nodes node).item.mountpoint
  unfolding counted
  counted_mountpoint =
      mountpoint-changed (s.nodes node).item.mountpoint (changed node more_refs s) node
      ∙ mountpoint-changed node s node

  -- Counts that fit are as before after one up and one down.
  counted_back :
      (s.nodes node).item.ref_count < 2 ^ 32
      → (s.nodes (s.nodes node).item.mountpoint).item.ref_count < 2 ^ 32
      → changed
          (s.nodes node).item.mountpoint
          fewer_refs
          (changed node fewer_refs (counted node more_refs s))
        ≡ s
  unfolding counted
  counted_back h hm =
      let mp = (s.nodes node).item.mountpoint in
      rw
        (
          changed_comm node mp fewer_refs more_refs refs_comm (changed node more_refs s),
          changed_back node s h,
        )
        (changed_back mp s hm)

  opening-Opens_zero :
      (o : Option (ℕ → VfsM ℕ)) (t : Vfs) → Opens node 0 o → opening node o t ≡ returned 0 t
  unfolding opening
  opening-Opens_zero none t (absent e) = refl
  opening-Opens_zero (some f) t (answers h) = ground (arith, h t)

  opening-Opens_error :
      (status : ℕ) (o : Option (ℕ → VfsM ℕ))
      → status ≢ 0
      → (s.nodes node).item.ref_count < 2 ^ 32
      → (s.nodes (s.nodes node).item.mountpoint).item.ref_count < 2 ^ 32
      → Opens node status o
      → opening node o (counted node more_refs s) ≡ returned status s
  unfolding opening
  opening-Opens_error status none ne h hm (absent e) = ground arith
  opening-Opens_error status (some f) ne h hm (answers a) =
      let t = counted node more_refs s in
      let t1 = changed node fewer_refs t in
      let mp = (s.nodes node).item.mountpoint in
      ground (
        arith,
        a t,
        change_lem node fewer_refs t nn,
        get_lem node t1 nn,
        mountpoint-changed_fewer node t node,
        counted_mountpoint,
        change_lem mp fewer_refs t1 mn,
        counted_back h hm,
      )

  vfs_close_lem :
      (s.nodes node).item.ref_count < 2 ^ 32
      → (s.nodes (s.nodes node).item.mountpoint).item.ref_count < 2 ^ 32
      → vfs_close w node (counted node more_refs s) ≡ (
          if (s.nodes node).item.ref_count == 0
          then last_close w node (s.nodes node).item s
          else returned w.no_value s)
  unfolding vfs_close last_close
  vfs_close_lem h hm =
      let t = counted node more_refs s in
      let t1 = changed node fewer_refs t in
      let mp = (s.nodes node).item.mountpoint in
      ground (
        arith,
        change_lem node fewer_refs t nn,
        get_lem node t1 nn,
        mountpoint-changed_fewer node t node,
        counted_mountpoint,
        change_lem mp fewer_refs t1 mn,
        counted_back h hm,
        get_lem node s nn,
      )

-- For a node that is not NULL, whose mountpoint is not NULL either, with counts of references below
-- 2 ^ 32, and a driver whose open, where it has one, answers 0 and changes nothing: vfs_open and then
-- vfs_close have no effect where the count of the node is above 0, and else come to the driver's
-- close, where it has one, and kfree of the node, in the state that there was before; the close that
-- is not the last returns no value.
pub vfs_close-vfs_open :
    (w : Outside) (node : ℕ) (s : Vfs) (nn : node ≢ null)
    (mn : (s.nodes node).item.mountpoint ≢ null)
    → (s.nodes node).item.ref_count < 2 ^ 32
    → (s.nodes (s.nodes node).item.mountpoint).item.ref_count < 2 ^ 32
    → Opens node 0 (open_of w (s.nodes node).item)
    → (vfs_open w node >>= (λ _. vfs_close w node)) s ≡ (
        if (s.nodes node).item.ref_count == 0
        then last_close w node (s.nodes node).item s
        else returned w.no_value s)
vfs_close-vfs_open w node s nn mn h hm o =
    rw
      (
        vfs_open_start w node s nn mn,
        opening-Opens_zero w node s nn mn (open_of w (s.nodes node).item) (counted node more_refs s)
            o,
      )
      (vfs_close_lem w node s nn mn h hm)

-- For a node that is not NULL, whose mountpoint is not NULL either, with counts of references below
-- 2 ^ 32, and a driver whose open answers an error and changes nothing: vfs_open returns the error,
-- and both counts and everything else are as before.
pub vfs_open_rolls_back :
    (w : Outside) (node : ℕ) (s : Vfs) (status : ℕ) (nn : node ≢ null)
    (mn : (s.nodes node).item.mountpoint ≢ null)
    → status ≢ 0
    → (s.nodes node).item.ref_count < 2 ^ 32
    → (s.nodes (s.nodes node).item.mountpoint).item.ref_count < 2 ^ 32
    → Opens node status (open_of w (s.nodes node).item)
    → vfs_open w node s ≡ returned status s
vfs_open_rolls_back w node s status nn mn ne h hm o =
    vfs_open_start w node s nn mn
    ∙ opening-Opens_error w node s nn mn status (open_of w (s.nodes node).item) ne h hm o
