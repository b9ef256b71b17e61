-- ===== src/Kmalloc/State.antt =====
-- The state of the kernel heap: the memory and frames of the kernel, with the descriptors at the start
-- of pages and the links in free blocks, and the buckets; and runs over it.
use fesos.Prelude.{ℕ, ◌+◌, ◌*◌, ◌/◌, ◌^◌, ◌==◌, if◌then◌else◌}
use fesos.Machine.{Kernel, Run, ok, halted, Halt}
use fesos.Machine.Memory.{Bytes, store8, load64, store64}

-- kmalloc_page_descriptor_t
pub record PageDescriptor : Type 0 where
  pub bucket_index : ℕ
  pub blocks_in_use : ℕ
  pub total_blocks : ℕ
  pub free_list : ℕ
  pub next_page_descriptor : ℕ
  pub prev_page_descriptor : ℕ

-- A uint16_t.
unfoldable pub load16 : Bytes → ℕ → ℕ
load16 m a = m a + 2 ^ 8 * m (a + 1)

unfoldable pub store16 : Bytes → ℕ → ℕ → Bytes
unfolding store8
store16 m a v = store8 (store8 m a v) (a + 1) (v / 2 ^ 8)

-- The 32 bytes of a descriptor at an address: bytes 1, 6 and 7 are padding.
unfoldable pub load_descriptor : Bytes → ℕ → PageDescriptor
load_descriptor m p = record {
  bucket_index = m p;
  blocks_in_use = load16 m (p + 2);
  total_blocks = load16 m (p + 4);
  free_list = load64 m (p + 8);
  next_page_descriptor = load64 m (p + 16);
  prev_page_descriptor = load64 m (p + 24);
}

unfoldable pub store_descriptor : Bytes → ℕ → PageDescriptor → Bytes
unfolding store16
store_descriptor m p d =
    let m1 = store8 m p d.bucket_index in
    let m2 = store16 m1 (p + 2) d.blocks_in_use in
    let m3 = store16 m2 (p + 4) d.total_blocks in
    let m4 = store64 m3 (p + 8) d.free_list in
    let m5 = store64 m4 (p + 16) d.next_page_descriptor in
    store64 m5 (p + 24) d.prev_page_descriptor

-- kmalloc_bucket_t
pub record Bucket : Type 0 where
  pub bucket_size : ℕ
  pub free_page_list : ℕ
  pub full_page_list : ℕ

pub record Heap : Type 0 where
  pub kernel : Kernel
  pub buckets : ℕ → Bucket

-- `faulted` is an access through NULL.
pub data HeapRun (A : Type 0) : Type 0 where
  returned : A → Heap → HeapRun A
  stopped : Halt → HeapRun A
  faulted : HeapRun A

abbrev pub HeapM : Type 0 → Type 0
HeapM A = Heap → HeapRun A

abbrev pub pure : {A : Type 0} → A → HeapM A
pure a h = returned a h

abbrev pub followed_by : {A B : Type 0} → HeapRun A → (A → HeapM B) → HeapRun B
followed_by (returned a h) f = f a h
followed_by (stopped x) f = stopped x
followed_by faulted f = faulted

infixl 5 ◌>>=◌ ◌>>◌
abbrev pub ◌>>=◌ : {A B : Type 0} → HeapM A → (A → HeapM B) → HeapM B
◌>>=◌ m f h = followed_by (m h) f

abbrev pub ◌>>◌ : {A B : Type 0} → HeapM A → HeapM B → HeapM B
◌>>◌ m c h = followed_by (m h) (λ _. c)

-- A run of the frame allocator or of the page tables.
abbrev pub lifted : {A : Type 0} → Heap → Run A → HeapRun A
lifted h (ok a k) = returned a (record h { kernel = k })
lifted h (halted x) = stopped x

abbrev pub on_kernel : {A : Type 0} → (Kernel → Run A) → HeapM A
on_kernel c h = lifted h (c h.kernel)

abbrev pub null : ℕ
null = 0

unfoldable pub bucket : ℕ → HeapM Bucket
bucket i h = returned (h.buckets i) h

unfoldable pub set_bucket : ℕ → (Bucket → Bucket) → HeapM (Unit {0})
set_bucket i f h =
    returned tt (record h { buckets = λ j. if j == i then f (h.buckets i) else h.buckets j })

-- `*p`, and an assignment to its fields: the bytes of the others are written back as they are.
unfoldable pub pages : Heap → ℕ → PageDescriptor
unfolding load_descriptor
pages h p = load_descriptor h.kernel.mem p

unfoldable pub page : ℕ → HeapM PageDescriptor
unfolding pages
page p h = if p == null then faulted else returned (pages h p) h

-- The heap with a descriptor at a page.
unfoldable pub put_page : ℕ → PageDescriptor → Heap → Heap
unfolding store_descriptor
put_page p d h = record h { kernel = record h.kernel { mem = store_descriptor h.kernel.mem p d } }

unfoldable pub set_page : ℕ → (PageDescriptor → PageDescriptor) → HeapM (Unit {0})
unfolding pages put_page
set_page p f h = if p == null then faulted else returned tt (put_page p (f (pages h p)) h)

-- `*(uint64_t*)address`
unfoldable pub load_word : ℕ → HeapM ℕ
load_word address h = if address == null then faulted else returned (load64 h.kernel.mem address) h

unfoldable pub store_word : ℕ → ℕ → HeapM (Unit {0})
store_word address value h =
    if address == null
    then faulted
    else returned tt
        (record h { kernel = record h.kernel { mem = store64 h.kernel.mem address value } })

-- vm_node_type, vma_unmanaged_tree_t and vma_backing of include/memory/vma.h, with a NULL backing.
pub data VmNodeType : Type 0 where
  vma_free vma_regular vma_file_backed vma_hardware_mmio vma_unmanaged_mapping : VmNodeType

pub data UnmanagedTree : Type 0 where
  vma_tree_kheap vma_tree_kmmio vma_tree_user : UnmanagedTree

pub data Backing : Type 0 where
  no_backing : Backing
  file : (file_ptr offset : ℕ) → Backing
  mmio : (physical_start : ℕ) → Backing
  unmanaged : (tree : UnmanagedTree) → Backing

-- vma_allocate_memory_from_ktree and vma_free_memory_from_ktree of memory/vma.c.
pub record Vma : Type 0 where
  pub allocate : ℕ → VmNodeType → ℕ → Backing → HeapM ℕ
  pub free : ℕ → HeapM (Unit {0})

-- A run that returns, with a fact about its result and the heap it leaves.
pub data Ends {A : Type 0} (P : A → Heap → Type 0) : HeapRun A → Type 0 where
  ends : {a : A} {h : Heap} → P a h → Ends P (returned a h)
