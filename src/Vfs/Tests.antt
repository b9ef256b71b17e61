-- ===== src/Vfs/Tests.antt =====
-- Runs over four nodes: 1 is the directory /, 2 is the directory /mnt, and 3 and 4 are the roots of
-- other file systems.
use fesos.Prelude.{ℕ, ◌≡◌, refl, false, none, some, ◌==◌, if◌then◌else◌, arith}
use fesos.Avl.Nodes.{AvlNode}
use fesos.Vfs.State.{node_directory, VfsNode, Vfs, returned, pure, ◌>>=◌, VfsOps, Outside}
use fesos.Vfs.{open_of, operations_of, vfs_open, vfs_close}
use fesos.Vfs.Counts.{answers, vfs_close-vfs_open, vfs_open_rolls_back}

abbrev no_operations : VfsOps
no_operations = record {
  read = none;
  write = none;
  close = none;
  open_file = none;
  finddir = none;
  readdir = none;
  create = none;
  ioctl = none;
}

-- The driver at 10 has a finddir that finds inode 7, and an open that answers 0; the driver at 11
-- has an open that answers 5.
abbrev driver : ℕ → VfsOps
driver a =
    if a == 10
    then record no_operations {
      open_file = some (λ node. pure 0);
      finddir = some (λ node name len.
          pure (record { inode = 7; node_type = node_directory; operations = 10 }));
    }
    else if a == 11
    then record no_operations { open_file = some (λ node. pure 5) }
    else no_operations

abbrev pub outside : Outside
outside = record {
  ops = driver;
  kmalloc = λ size. pure 50;
  kfree = λ node. pure tt;
  key_node = 99;
  no_value = 77;
  fuel = 8;
}

abbrev directory : ℕ → ℕ → AvlNode VfsNode
directory i ops = record {
  parent = 0;
  left = 0;
  right = 0;
  subtree_max_depth = 0;
  update = false;
  item = record {
    name = λ k. 0;
    inode = i;
    node_type = node_directory;
    ref_count = 1;
    mountpoint = 1;
    mount_ptr = 0;
    operations = ops;
  };
}

-- The text /mnt is at 200, the text a at 300, and the text / at 400.
abbrev pub files : Vfs
files = record {
  nodes = λ a.
      if a == 2
      then directory 7 10
      else if a == 3
      then directory 2 11
      else if a == 4
      then directory 2 12
      else directory 1 10;
  vfs_tree = record { root = 2; size = 1 };
  vfs_root_node = 1;
  mem = λ a.
      if a == 200
      then 0x2F
      else if a == 201
      then 109
      else if a == 202
      then 110
      else if a == 203
      then 116
      else if a == 300
      then 97
      else if a == 400
      then 0x2F
      else 0;
}

vfs_close-vfs_open_example :
    (vfs_open outside 2 >>= (λ _. vfs_close outside 2)) files ≡ returned 77 files
unfolding open_of operations_of
vfs_close-vfs_open_example =
    vfs_close-vfs_open outside 2 files (omega arith) (omega arith) (omega arith) (omega arith)
      (answers (λ s. refl))

vfs_open_rolls_back_example : vfs_open outside 3 files ≡ returned 5 files
unfolding open_of operations_of
vfs_open_rolls_back_example =
    vfs_open_rolls_back outside 3 files 5 (omega arith) (omega arith) (omega arith) (omega arith)
      (omega arith) (answers (λ s. refl))
