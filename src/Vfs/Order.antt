-- ===== src/Vfs/Order.antt =====
-- vfs_compare of kernel/x86_64/kernel/vfs.c, the order of the tree of nodes.
use fesos.Prelude.{ℕ, ◌<◌, ◌≢◌, ◌≡◌, subst, dec_lt, ltb, if◌then◌else◌, arith}
use fesos.Avl.{Comparison, negative, equal, positive}
use fesos.Avl.Nodes.{null, Store, Outcome, done}
use fesos.Vfs.State.{VfsNode}
use fesos.Vfs.{vfs_compare}

-- By mountpoint, and then by inode.
pub data Before (a b : VfsNode) : Type 0 where
  by_mountpoint : a.mountpoint < b.mountpoint → Before a b
  by_inode : a.mountpoint ≡ b.mountpoint → a.inode < b.inode → Before a b

-- What a result says of two nodes.
pub data Says (a b : VfsNode) : Comparison → Type 0 where
  first : Before a b → Says a b negative
  second : Before b a → Says a b positive
  same : a.mountpoint ≡ b.mountpoint → a.inode ≡ b.inode → Says a b equal

pub data Answers (a b : VfsNode) (s : Store VfsNode) : Outcome VfsNode Comparison → Type 0 where
  answers : {c : Comparison} → Says a b c → Answers a b s (done c s)

of_items : VfsNode → VfsNode → Comparison
of_items a b =
    if ltb b.mountpoint a.mountpoint
    then positive
    else if ltb a.mountpoint b.mountpoint
    then negative
    else if ltb b.inode a.inode
    then positive
    else if ltb a.inode b.inode
    then negative
    else equal

of_items-Says : (a b : VfsNode) → Says a b (of_items a b)
unfolding of_items
of_items-Says a b = elim (dec_lt b.mountpoint a.mountpoint) [
  | yes more ↦ subst (Says a b) (ground arith) (second (by_mountpoint more))
  | no le ↦ elim (dec_lt a.mountpoint b.mountpoint) [
    | yes less ↦ subst (Says a b) (ground arith) (first (by_mountpoint less))
    | no ge ↦ elim (dec_lt b.inode a.inode) [
      | yes more ↦ subst (Says a b) (ground arith) (second (by_inode (omega arith) more))
      | no le' ↦ elim (dec_lt a.inode b.inode) [
        | yes less ↦ subst (Says a b) (ground arith) (first (by_inode (omega arith) less))
        | no ge' ↦ subst (Says a b) (ground arith) (same (omega arith) (omega arith))
      ]
    ]
  ]
]

-- For two nodes that are not NULL, vfs_compare changes nothing and returns a negative number only
-- where the first is before the second, by mountpoint and then by inode, a positive one only where
-- the second is before the first, and 0 only where both are the same.
pub vfs_compare-Before :
    (a b : ℕ) (s : Store VfsNode)
    → a ≢ null
    → b ≢ null
    → Answers (s a).item (s b).item s (vfs_compare a b s)
unfolding vfs_compare of_items
vfs_compare-Before a b s an bn =
    let run : done (of_items (s a).item (s b).item) s ≡ vfs_compare a b s = ground arith in
    subst (Answers (s a).item (s b).item s) run (answers (of_items-Says (s a).item (s b).item))
