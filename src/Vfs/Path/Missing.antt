-- ===== src/Vfs/Path/Missing.antt =====
-- What vfs_mount and vfs_unmount of kernel/x86_64/kernel/vfs.c make of a path that leads nowhere.
use fesos.Prelude.{ℕ, ◌+◌, ◌-◌, ◌∙◌, ◌^◌, ◌<◌, ◌≢◌, ◌≡◌, List, [], ◌∷◌, some, arith}
use fesos.Machine.{error}
use fesos.Strings.{str_len}
use fesos.Strings.Reverse.{str_len_lem}
use fesos.Avl.Nodes.{null}
use fesos.Vfs.State.{Vfs, returned, faulted, get, Outside}
use fesos.Vfs.Path.Keeps.{KeepsText}
use fesos.Vfs.Path.Lookup.{
  length, Text, char, Text-before, Text-end, ShortNames, components, resolve, vfs_lookup_resolves,
}
use fesos.Vfs.Path.{vfs_lookup, vfs_mount, vfs_unmount}

-- A text that leads to no node, and the state in which that is known: it does not start with a
-- slash, or its names, one after another from the root, come to one that is not found.
pub data Missing (w : Outside) (path : ℕ) (s : Vfs) : List ℕ → Vfs → Type 0 where
  empty : Missing w path s [] s
  relative : {c : ℕ} {cs : List ℕ} → c ≢ 0x2F → Missing w path s (c ∷ cs) s
  absent :
      {cs : List ℕ} {s' : Vfs}
      → ShortNames (components 1 1 cs)
      → resolve w path (components 1 1 cs) s.vfs_root_node s ≡ returned null s'
      → Missing w path s (0x2F ∷ cs) s'

str_len-Text :
    (fuel : ℕ) (path : ℕ) (cs : List ℕ) (s : Vfs)
    → Text s.mem path 0 cs
    → length cs < fuel
    → length cs < 2 ^ 32
    → str_len fuel s.mem path ≡ some (length cs)
str_len-Text fuel path cs s t f small =
    let at : (i : ℕ) → 0 + i ≡ i = λ i. omega arith in
    str_len_lem (length cs) fuel s.mem path f (omega arith)
      (λ i lt. rw at at (Text-before 0 i cs t lt)) (rw at at (Text-end 0 cs t))

vfs_lookup-Missing :
    (w : Outside) (path : ℕ) (cs : List ℕ) (s s' : Vfs)
    → path ≢ null
    → Text s.mem path 0 cs
    → length cs + 1 < w.fuel
    → length cs < 2 ^ 32 - 1
    → s.vfs_root_node ≢ null
    → KeepsText w path (length cs)
    → Missing w path s cs s'
    → vfs_lookup w path s ≡ returned null s'
unfolding vfs_lookup length
vfs_lookup-Missing w path [] s s' pn t f small rn keeps empty =
    let len = str_len-Text w.fuel path [] s t (omega arith) (omega arith) in ground (arith, len)
vfs_lookup-Missing w path (c ∷ cs) s s' pn (char e n t) f small rn keeps (relative ne) =
    let len = str_len-Text w.fuel path (c ∷ cs) s (char e n t) (omega arith) (omega arith) in
    let start : path + 0 ≡ path = omega arith in
    let first : s.mem path ≡ c = rw start at e in ground (arith, len, first)
vfs_lookup-Missing w path (c ∷ cs) s s' pn t f small rn keeps (absent short e) =
    vfs_lookup_resolves w path cs s pn t (omega arith) (omega arith) rn short keeps ∙ e

-- For a path that is not NULL and has fewer than 2 ^ 32 - 1 characters, which is empty, does not
-- start with a slash, or whose names, of at most 128 characters, come to one that is not found on the
-- way from the root; a root that is not NULL, in the table and as an argument; fuel above the number
-- of characters by two; and kmalloc, kfree and drivers that leave the characters of the path alone:
-- vfs_unmount returns ENOENT, but vfs_mount reads through NULL.
pub vfs_mount-Missing :
    (w : Outside) (path fs_root : ℕ) (cs : List ℕ) (s s' : Vfs)
    → path ≢ null
    → fs_root ≢ null
    → Text s.mem path 0 cs
    → length cs + 1 < w.fuel
    → length cs < 2 ^ 32 - 1
    → s.vfs_root_node ≢ null
    → KeepsText w path (length cs)
    → Missing w path s cs s'
    → (vfs_unmount w path s ≡ returned (error 2) s') × (vfs_mount w path fs_root s ≡ faulted)
unfolding vfs_unmount vfs_mount get
vfs_mount-Missing w path fs_root cs s s' pn fn t f small rn keeps m =
    let e = vfs_lookup-Missing w path cs s s' pn t f small rn keeps m in
    (ground (arith, e), ground (arith, e))
