-- ===== src/Kmalloc/Puts.antt =====
-- The heap after accesses to descriptors and words, for the proofs about
-- kernel/x86_64/memory/kmalloc.c.
use fesos.Prelude.{ℕ, ◌+◌, ◌≤◌, ◌≢◌, ◌≡◌, ◌⊎◌, ap, ◌==◌, if◌then◌else◌, arith}
use fesos.Machine.Memory.{Bytes, IsBytes, load64, store64}
use fesos.Kmalloc.State.{
  PageDescriptor, Bucket, Heap, returned, null, pages, page, put_page, set_page, load_word,
  store_word,
}
use fesos.Kmalloc.Descriptors.{
  load_descriptor-store_descriptor, load64-store_descriptor, load_descriptor-IsDescriptor,
  load_descriptor-store64, load_descriptor_back, store64-store_descriptor,
  store_descriptor-load_descriptor, store_descriptor-store_descriptor,
}
use fesos.Kmalloc.Words.{store64_same}
use fesos.Kmalloc.Widths.{IsDescriptor, cut}

-- The heap with a bucket, and with a word at an address.
unfoldable pub put_bucket : ℕ → Bucket → Heap → Heap
put_bucket i b h = record h { buckets = λ j. if j == i then b else h.buckets j }

unfoldable pub put_word : ℕ → ℕ → Heap → Heap
put_word a v h = record h { kernel = record h.kernel { mem = store64 h.kernel.mem a v } }

module _ (p : ℕ) (nn : p ≢ null) (h : Heap) where
  pub page_lem : page p h ≡ returned (pages h p) h
  unfolding page
  page_lem = ground arith

  pub set_page_lem :
      (f : PageDescriptor → PageDescriptor)
      → set_page p f h ≡ returned tt (put_page p (f (pages h p)) h)
  unfolding set_page
  set_page_lem f = ground arith

  pub load_word_lem : load_word p h ≡ returned (load64 h.kernel.mem p) h
  unfolding load_word
  load_word_lem = ground arith

  pub store_word_lem : (v : ℕ) → store_word p v h ≡ returned tt (put_word p v h)
  unfolding store_word put_word
  store_word_lem v = ground arith

-- The heap with other bytes.
abbrev with_mem : Heap → Bytes → Heap
with_mem h m = record h { kernel = record h.kernel { mem = m } }

pub put_page-put_page :
    (p : ℕ) (d e : PageDescriptor) (h : Heap) → put_page p d (put_page p e h) ≡ put_page p d h
unfolding put_page
put_page-put_page p d e h = ap (with_mem h) (store_descriptor-store_descriptor h.kernel.mem p d e)

pub put_page_same : (p : ℕ) (h : Heap) → IsBytes h.kernel.mem → put_page p (pages h p) h ≡ h
unfolding put_page pages
put_page_same p h b = ap (with_mem h) (store_descriptor-load_descriptor h.kernel.mem p b)

pub pages-IsDescriptor : (h : Heap) (p : ℕ) → IsBytes h.kernel.mem → IsDescriptor (pages h p)
unfolding pages
pages-IsDescriptor h p b = load_descriptor-IsDescriptor h.kernel.mem p b

pub pages-put_page :
    (p : ℕ) (d : PageDescriptor) (h : Heap) → IsDescriptor d → pages (put_page p d h) p ≡ d
unfolding put_page pages
pages-put_page p d h i = load_descriptor_back h.kernel.mem p d i

pub pages-put_page-cut : (p : ℕ) (d : PageDescriptor) (h : Heap) → pages (put_page p d h) p ≡ cut d
unfolding put_page pages
pages-put_page-cut p d h = load_descriptor-store_descriptor h.kernel.mem p d

pub load64-put_page :
    (p : ℕ) (d : PageDescriptor) (h : Heap) (a : ℕ)
    → (a + 8 ≤ p) ⊎ (p + 32 ≤ a)
    → load64 (put_page p d h).kernel.mem a ≡ load64 h.kernel.mem a
unfolding put_page
load64-put_page p d h a apart = load64-store_descriptor h.kernel.mem p d a apart

pub pages-put_word :
    (a v : ℕ) (h : Heap) (p : ℕ) → (a + 8 ≤ p) ⊎ (p + 32 ≤ a) → pages (put_word a v h) p ≡ pages h p
unfolding put_word pages
pages-put_word a v h p apart = load_descriptor-store64 h.kernel.mem a v p apart

pub put_word-put_page :
    (a v p : ℕ) (d : PageDescriptor) (h : Heap)
    → (a + 8 ≤ p) ⊎ (p + 32 ≤ a)
    → put_word a v (put_page p d h) ≡ put_page p d (put_word a v h)
unfolding put_word put_page
put_word-put_page a v p d h apart =
    ap (with_mem h) (store64-store_descriptor h.kernel.mem p d a v apart)

pub put_word_same :
    (a : ℕ) (h : Heap) → IsBytes h.kernel.mem → put_word a (load64 h.kernel.mem a) h ≡ h
unfolding put_word
put_word_same a h bytes = ap (with_mem h) (store64_same h.kernel.mem a bytes)
