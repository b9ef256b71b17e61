-- ===== src/Vfs/Path/Tests.antt =====
-- A lookup of /mnt, and mounts there, in the file system of Vfs/Tests.antt.
use fesos.Prelude.{ℕ, ◌≡◌, refl, Bool-cases, inl, inr, [], ◌∷◌, ◌==◌, arith}
use fesos.Machine.{error}
use fesos.Strings.{str_len, str_len_loop}
use fesos.Avl.{avl_get_node, avl_get_node_rec}
use fesos.Avl.Nodes.{load, put}
use fesos.Vfs.State.{Vfs, returned, faulted, get, change, Ends}
use fesos.Vfs.{
  is_directory, is_mountpoint, finddir_of, open_of, operations_of, redirect, cached_node,
  vfs_finddir,
}
use fesos.Vfs.Counts.{changed}
use fesos.Vfs.Path.{
  name_end, sub32, enter, enter_name, lookup_loop, vfs_lookup, vfs_mount, vfs_unmount,
}
use fesos.Vfs.Path.Keeps.{KeepsIn, KeepsText, no_finddir, present, pure-Keeps}
use fesos.Vfs.Path.Lookup.{
  ShortNames, Text, add_name, char, end, length, resolve, components, vfs_lookup_resolves,
}
use fesos.Vfs.Path.Missing.{absent, vfs_mount-Missing}
use fesos.Vfs.Path.Mount.{
  Mounted, GoesOn, mounted, mounted-Mounted, vfs_mount-Mounted, vfs_unmount-Mounted,
}
use fesos.Vfs.Tests.{outside, files}

-- The state after the lookup of /mnt.
abbrev found_files : Vfs
found_files = changed 99 (λ k. record k { mountpoint = 1; inode = 7 }) files

mnt_path : vfs_lookup outside 200 files ≡ returned 2 found_files
unfolding vfs_lookup str_len str_len_loop lookup_loop name_end enter_name enter sub32 vfs_finddir
    redirect is_mountpoint is_directory get change cached_node avl_get_node avl_get_node_rec changed
    load put
mnt_path = refl

vfs_mount-Mounted_example :
    Ends
      (λ result s'. (result ≡ 0) × Mounted 2 3 found_files s' × GoesOn outside 2 1 s')
      (vfs_mount outside 200 3 files)
unfolding changed put is_directory is_mountpoint open_of operations_of
vfs_mount-Mounted_example =
    vfs_mount-Mounted outside 200 3 2 files found_files (λ node. returned 5) 5 (omega arith)
      (omega arith) (omega arith) (omega arith) (omega arith) (omega arith) (omega arith) mnt_path
      refl refl (λ u. refl) refl

-- A file system that is mounted over /.
abbrev over_root : Vfs
over_root = mounted 2 3 (record files { vfs_root_node = 2 })

root_path : vfs_lookup outside 400 over_root ≡ returned 2 over_root
unfolding vfs_lookup str_len str_len_loop lookup_loop name_end enter_name sub32 mounted changed
root_path = refl

vfs_unmount-Mounted_example : vfs_unmount outside 400 over_root ≡ returned (error 22) over_root
unfolding is_directory
vfs_unmount-Mounted_example =
    vfs_unmount-Mounted outside 400 3 2 (record files { vfs_root_node = 2 }) over_root over_root
      (omega arith) (omega arith) (omega arith)
      (mounted-Mounted 2 3 (record files { vfs_root_node = 2 }) (omega arith) (omega arith)
        (omega arith) (omega arith) (omega arith))
      refl root_path

driver-KeepsIn : (operations : ℕ) → KeepsIn 200 4 (outside.ops operations).finddir
driver-KeepsIn operations = elim (Bool-cases (operations == 10)) [
  | inl first ↦ rw first (present (λ node name len. pure-Keeps _))
  | inr other ↦ elim (Bool-cases (operations == 11)) [
    | inl second ↦ rw (other, second) no_finddir
    | inr third ↦ rw (other, third) no_finddir
  ]
]

outside-KeepsText : KeepsText outside 200 4
outside-KeepsText = record {
  kmalloc = λ size. pure-Keeps 50;
  kfree = λ node. pure-Keeps tt;
  finddir = driver-KeepsIn;
}

mnt-Text : Text files.mem 200 0 (0x2F ∷ 109 ∷ 110 ∷ 116 ∷ [])
mnt-Text =
    char refl (omega arith)
      (char refl (omega arith) (char refl (omega arith) (char refl (omega arith) (end refl))))

vfs_lookup_resolves_example :
    vfs_lookup outside 200 files
    ≡ resolve outside 200 (components 1 1 (109 ∷ 110 ∷ 116 ∷ [])) 1 files
unfolding length components add_name ShortNames
vfs_lookup_resolves_example =
    vfs_lookup_resolves outside 200 (109 ∷ 110 ∷ 116 ∷ []) files (omega arith) mnt-Text
      (omega arith) (omega arith) (omega arith) (omega arith, tt) outside-KeepsText

-- From node 3, whose driver has no finddir, /mnt leads nowhere.
abbrev without_finddir : Vfs
without_finddir = record files { vfs_root_node = 3 }

vfs_mount-Missing_example :
    (vfs_unmount outside 200 without_finddir ≡ returned (error 2) without_finddir)
    × (vfs_mount outside 200 3 without_finddir ≡ faulted)
unfolding ShortNames length resolve components add_name enter vfs_finddir redirect is_mountpoint
    is_directory get finddir_of operations_of
vfs_mount-Missing_example =
    vfs_mount-Missing outside 200 3 (0x2F ∷ 109 ∷ 110 ∷ 116 ∷ []) without_finddir without_finddir
      (omega arith) (omega arith) mnt-Text (omega arith) (omega arith) (omega arith)
      outside-KeepsText (absent (omega arith, tt) refl)
