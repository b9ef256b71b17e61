-- ===== src/Vfs/State.antt =====
-- The state of the virtual file system: nodes at addresses, which are nodes of an AVL tree too, and
-- runs over it, which return, fault (at an access through NULL or a copy past the end of a name), or
-- use up the fuel of the model.
use fesos.Prelude.{ℕ, Option, ◌==◌, if◌then◌else◌}
use fesos.Machine.Memory.{Bytes}
use fesos.Avl.{AvlTree}
use fesos.Avl.Nodes.{null, Store, Outcome, done, fault, out_of_fuel, Cmd, put}

-- vfs_node_type_t
pub data NodeType : Type 0 where
  node_file node_directory node_mountpoint : NodeType

-- vfs_node_t, less its avl_node_t. `name` has the indices below 128, and nothing writes another.
-- `operations` is the address of a vfs_ops_t.
pub record VfsNode : Type 0 where
  pub name : ℕ → ℕ
  pub inode : ℕ
  pub node_type : NodeType
  pub ref_count : ℕ
  pub mountpoint : ℕ
  pub mount_ptr : ℕ
  pub operations : ℕ

-- vfs_node_data_t
pub record NodeData : Type 0 where
  pub inode : ℕ
  pub node_type : NodeType
  pub operations : ℕ

-- The nodes, the static variables, and the bytes of memory, where names and buffers are.
pub record Vfs : Type 0 where
  pub nodes : Store VfsNode
  pub vfs_tree : AvlTree
  pub vfs_root_node : ℕ
  pub mem : Bytes

pub data VfsRun (A : Type 0) : Type 0 where
  returned : A → Vfs → VfsRun A
  faulted stuck : VfsRun A

abbrev pub VfsM : Type 0 → Type 0
VfsM A = Vfs → VfsRun A

abbrev pub pure : {A : Type 0} → A → VfsM A
pure a s = returned a s

abbrev pub followed_by : {A B : Type 0} → VfsRun A → (A → VfsM B) → VfsRun B
followed_by (returned a s) f = f a s
followed_by faulted f = faulted
followed_by stuck f = stuck

infixl 5 ◌>>=◌ ◌>>◌
abbrev pub ◌>>=◌ : {A B : Type 0} → VfsM A → (A → VfsM B) → VfsM B
◌>>=◌ m f s = followed_by (m s) f

abbrev pub ◌>>◌ : {A B : Type 0} → VfsM A → VfsM B → VfsM B
◌>>◌ m c s = followed_by (m s) (λ _. c)

-- A run of the tree's code on the nodes.
abbrev pub lifted : {A : Type 0} → Vfs → Outcome VfsNode A → VfsRun A
lifted s (done a nodes) = returned a (record s { nodes = nodes })
lifted s fault = faulted
lifted s out_of_fuel = stuck

abbrev pub on_nodes : {A : Type 0} → Cmd VfsNode A → VfsM A
on_nodes c s = lifted s (c s.nodes)

-- `*node`, and an assignment to its fields.
unfoldable pub get : ℕ → VfsM VfsNode
get node s = if node == null then faulted else returned (s.nodes node).item s

unfoldable pub change : ℕ → (VfsNode → VfsNode) → VfsM (Unit {0})
change node f s =
    if node == null
    then faulted
    else returned tt (record s {
      nodes = put s.nodes node (record (s.nodes node) { item = f (s.nodes node).item });
    })

-- vfs_ops_t, with `none` for a NULL. The arguments are those of the source.
pub record VfsOps : Type 0 where
  pub read : Option (ℕ → ℕ → ℕ → ℕ → VfsM ℕ)
  pub write : Option (ℕ → ℕ → ℕ → ℕ → VfsM ℕ)
  pub close : Option (ℕ → VfsM ℕ)
  pub open_file : Option (ℕ → VfsM ℕ)
  pub finddir : Option (ℕ → ℕ → ℕ → VfsM NodeData)
  pub readdir : Option (ℕ → ℕ → ℕ → VfsM ℕ)
  pub create : Option (ℕ → ℕ → NodeType → VfsM ℕ)
  pub ioctl : Option (ℕ → ℕ → ℕ → VfsM ℕ)

-- What vfs.c uses of others: the tables of operations of the drivers, kmalloc and kfree; the address
-- of the local variable key_node; what a caller reads where a function returns no value; and the
-- rounds that the model gives to loops.
pub record Outside : Type 0 where
  pub ops : ℕ → VfsOps
  pub kmalloc : ℕ → VfsM ℕ
  pub kfree : ℕ → VfsM (Unit {0})
  pub key_node : ℕ
  pub no_value : ℕ
  pub fuel : ℕ

-- A run that returns, with a fact about its result and the state it leaves.
pub data Ends {A : Type 0} (P : A → Vfs → Type 0) : VfsRun A → Type 0 where
  ends : {a : A} {s : Vfs} → P a s → Ends P (returned a s)
