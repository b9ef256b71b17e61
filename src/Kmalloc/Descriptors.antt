-- ===== src/Kmalloc/Descriptors.antt =====
-- Descriptors of pages in the bytes of memory, for the proofs about
-- kernel/x86_64/memory/kmalloc.c.
use fesos.Prelude.{ℕ, ◌+◌, ◌%◌, ◌^◌, ◌≤◌, ◌<◌, ◌≡◌, ◌⊎◌, inl, inr, refl, ◌∙◌, arith}
use mathlib.Core.Path.{fun_ext}
use native.Mathlib.Nat.{add-zero}
use fesos.Machine.Memory.{
  Bytes, IsBytes, store8, load64, store64, store64_outside, load64_ext, store8-IsBytes,
  store64-IsBytes,
}
use fesos.Kmalloc.State.{PageDescriptor, load16, store16, load_descriptor, store_descriptor}
use fesos.Kmalloc.Words.{
  load64-store64-cut, load64-store64_apart, store16_outside, load16-store16, load16_ext,
  store64_agree, store16_agree, store8_agree, store8_outside, store64_same, store8_same,
  store16_same, load64_lt, load16_lt,
}
use fesos.Kmalloc.Widths.{cut, IsDescriptor, cut_same}

-- The three words of a descriptor leave all else.
words_outside :
    (m : Bytes) (p u v w x : ℕ)
    → (x < p + 8) ⊎ (p + 32 ≤ x)
    → store64 (store64 (store64 m (p + 8) u) (p + 16) v) (p + 24) w x ≡ m x
words_outside m p u v w x out =
    store64_outside _ (p + 24) w x (ground arith)
    ∙ store64_outside _ (p + 16) v x (ground arith)
    ∙ store64_outside m (p + 8) u x (ground arith)

pub store_descriptor_outside :
    (m : Bytes) (p : ℕ) (d : PageDescriptor) (x : ℕ)
    → (x < p) ⊎ (p + 32 ≤ x)
    → store_descriptor m p d x ≡ m x
unfolding store_descriptor store8
store_descriptor_outside m p d x out =
    let m1 = store8 m p d.bucket_index in
    let m2 = store16 m1 (p + 2) d.blocks_in_use in
    let m3 = store16 m2 (p + 4) d.total_blocks in
    words_outside m3 p d.free_list d.next_page_descriptor d.prev_page_descriptor x (ground arith)
    ∙ store16_outside m2 (p + 4) d.total_blocks x (ground arith)
    ∙ store16_outside m1 (p + 2) d.blocks_in_use x (ground arith)
    ∙ ground arith

-- What is read back.
pub load_descriptor-store_descriptor :
    (m : Bytes) (p : ℕ) (d : PageDescriptor) → load_descriptor (store_descriptor m p d) p ≡ cut d
unfolding load_descriptor store_descriptor
load_descriptor-store_descriptor m p d =
    let m1 = store8 m p d.bucket_index in
    let m2 = store16 m1 (p + 2) d.blocks_in_use in
    let m3 = store16 m2 (p + 4) d.total_blocks in
    let m4 = store64 m3 (p + 8) d.free_list in
    let m5 = store64 m4 (p + 16) d.next_page_descriptor in
    let m6 = store64 m5 (p + 24) d.prev_page_descriptor in
    let low : (x : ℕ) → x < p + 8 → m6 x ≡ m3 x = λ x lt. words_outside m3 p _ _ _ x (inl lt) in
    let index : m6 p ≡ d.bucket_index % 2 ^ 8 =
      low p (omega arith)
      ∙ store16_outside m2 (p + 4) d.total_blocks p (inl (omega arith))
      ∙ store16_outside m1 (p + 2) d.blocks_in_use p (inl (omega arith))
      ∙ unfold store8 in (ground arith) in
    let same2 : (x : ℕ) → x < p + 4 → m6 x ≡ m2 x =
      λ x lt. low x (omega arith) ∙ store16_outside m2 (p + 4) d.total_blocks x (inl lt) in
    let in_use : load16 m6 (p + 2) ≡ d.blocks_in_use % 2 ^ 16 =
      load16_ext m2 m6 (p + 2) (same2 (p + 2) (omega arith)) (same2 (p + 2 + 1) (omega arith))
      ∙ load16-store16 m1 (p + 2) d.blocks_in_use in
    let total : load16 m6 (p + 4) ≡ d.total_blocks % 2 ^ 16 =
      load16_ext m3 m6 (p + 4) (low (p + 4) (omega arith)) (low (p + 4 + 1) (omega arith))
      ∙ load16-store16 m2 (p + 4) d.total_blocks in
    let free : load64 m6 (p + 8) ≡ d.free_list % 2 ^ 64 =
      load64-store64_apart m5 (p + 24) _ (p + 8) (inr (omega arith))
      ∙ load64-store64_apart m4 (p + 16) _ (p + 8) (inr (omega arith))
      ∙ load64-store64-cut m3 (p + 8) d.free_list in
    let next : load64 m6 (p + 16) ≡ d.next_page_descriptor % 2 ^ 64 =
      load64-store64_apart m5 (p + 24) _ (p + 16) (inr (omega arith))
      ∙ load64-store64-cut m4 (p + 16) d.next_page_descriptor in
    let prev : load64 m6 (p + 24) ≡ d.prev_page_descriptor % 2 ^ 64 =
      load64-store64-cut m5 (p + 24) d.prev_page_descriptor in
    λ i. record {
      bucket_index = index i;
      blocks_in_use = in_use i;
      total_blocks = total i;
      free_list = free i;
      next_page_descriptor = next i;
      prev_page_descriptor = prev i;
    }

-- The second of two descriptors at one address stays.
pub store_descriptor-store_descriptor :
    (m : Bytes) (p : ℕ) (d e : PageDescriptor)
    → store_descriptor (store_descriptor m p e) p d ≡ store_descriptor m p d
unfolding store_descriptor
store_descriptor-store_descriptor m p d e = fun_ext (λ x.
    let e1 = store8 m p e.bucket_index in
    let e2 = store16 e1 (p + 2) e.blocks_in_use in
    let e3 = store16 e2 (p + 4) e.total_blocks in
    let e4 = store64 e3 (p + 8) e.free_list in
    let e5 = store64 e4 (p + 16) e.next_page_descriptor in
    let e6 = store64 e5 (p + 24) e.prev_page_descriptor in
    let f1 = store8 e6 p d.bucket_index in
    let f2 = store16 f1 (p + 2) d.blocks_in_use in
    let f3 = store16 f2 (p + 4) d.total_blocks in
    let f4 = store64 f3 (p + 8) d.free_list in
    let f5 = store64 f4 (p + 16) d.next_page_descriptor in
    let d1 = store8 m p d.bucket_index in
    let d2 = store16 d1 (p + 2) d.blocks_in_use in
    let d3 = store16 d2 (p + 4) d.total_blocks in
    let d4 = store64 d3 (p + 8) d.free_list in
    let d5 = store64 d4 (p + 16) d.next_page_descriptor in
    store64_agree f5 d5 (p + 24) d.prev_page_descriptor x (λ o24.
      store64_agree f4 d4 (p + 16) d.next_page_descriptor x (λ o16.
        store64_agree f3 d3 (p + 8) d.free_list x (λ o8.
          store16_agree f2 d2 (p + 4) d.total_blocks x (λ o4.
            store16_agree f1 d1 (p + 2) d.blocks_in_use x (λ o2.
              store8_agree e6 m p d.bucket_index x (λ o0.
                store64_outside e5 (p + 24) e.prev_page_descriptor x o24
                ∙ store64_outside e4 (p + 16) e.next_page_descriptor x o16
                ∙ store64_outside e3 (p + 8) e.free_list x o8
                ∙ store16_outside e2 (p + 4) e.total_blocks x o4
                ∙ store16_outside e1 (p + 2) e.blocks_in_use x o2
                ∙ store8_outside m p e.bucket_index x o0)))))))

-- A word apart from a descriptor can be stored before it.
pub store64-store_descriptor :
    (m : Bytes) (p : ℕ) (d : PageDescriptor) (a v : ℕ)
    → (a + 8 ≤ p) ⊎ (p + 32 ≤ a)
    → store64 (store_descriptor m p d) a v ≡ store_descriptor (store64 m a v) p d
unfolding store_descriptor store64 store16 store8
store64-store_descriptor m p d a v apart = fun_ext (λ x. ground arith)

pub load64-store_descriptor :
    (m : Bytes) (p : ℕ) (d : PageDescriptor) (a : ℕ)
    → (a + 8 ≤ p) ⊎ (p + 32 ≤ a)
    → load64 (store_descriptor m p d) a ≡ load64 m a
load64-store_descriptor m p d a apart =
    load64_ext m (store_descriptor m p d) a
      (λ i lt. store_descriptor_outside m p d (a + i) (ground arith))

pub store_descriptor-IsBytes :
    {m : Bytes} (p : ℕ) (d : PageDescriptor) → IsBytes m → IsBytes (store_descriptor m p d)
unfolding store_descriptor store16
store_descriptor-IsBytes p d b = store64-IsBytes _ _ (
    store64-IsBytes _ _ (
      store64-IsBytes _ _ (
        store8-IsBytes _ _
          (store8-IsBytes _ _ (store8-IsBytes _ _ (store8-IsBytes _ _ (store8-IsBytes _ _ b)))))))

-- A descriptor that is stored where it was loaded changes nothing.
pub store_descriptor-load_descriptor :
    (m : Bytes) (p : ℕ) → IsBytes m → store_descriptor m p (load_descriptor m p) ≡ m
unfolding store_descriptor load_descriptor
store_descriptor-load_descriptor m p b =
    rw
      (
        store8_same m p b,
        store16_same m (p + 2) b,
        store16_same m (p + 4) b,
        store64_same m (p + 8) b,
        store64_same m (p + 16) b,
        store64_same m (p + 24) b,
      )
      refl

pub load_descriptor-IsDescriptor :
    (m : Bytes) (p : ℕ) → IsBytes m → IsDescriptor (load_descriptor m p)
unfolding load_descriptor
load_descriptor-IsDescriptor m p b = record {
  index_fits = b p;
  in_use_fits = load16_lt m (p + 2) b;
  total_fits = load16_lt m (p + 4) b;
  free_fits = load64_lt m (p + 8) b;
  next_fits = load64_lt m (p + 16) b;
  prev_fits = load64_lt m (p + 24) b;
}

pub load_descriptor_back :
    (m : Bytes) (p : ℕ) (d : PageDescriptor)
    → IsDescriptor d
    → load_descriptor (store_descriptor m p d) p ≡ d
load_descriptor_back m p d i = load_descriptor-store_descriptor m p d ∙ cut_same d i

-- A descriptor depends on its 32 bytes only.
pub load_descriptor_ext :
    (m m' : Bytes) (p : ℕ)
    → ((k : ℕ) → k < 32 → m' (p + k) ≡ m (p + k))
    → load_descriptor m' p ≡ load_descriptor m p
unfolding load_descriptor
load_descriptor_ext m m' p h =
    let word : (k : ℕ) → k + 8 ≤ 32 → load64 m' (p + k) ≡ load64 m (p + k) = λ k le.
      load64_ext m m' (p + k) (λ j lt.
        let at : p + k + j ≡ p + (k + j) = omega arith in rw at (h (k + j) (omega arith))) in
    let first : m' p ≡ m p = rw (add-zero p) at (h 0 (omega arith)) in
    let three : p + 2 + 1 ≡ p + 3 = omega arith in
    let five : p + 4 + 1 ≡ p + 5 = omega arith in
    let in_use : load16 m' (p + 2) ≡ load16 m (p + 2) =
      load16_ext m m' (p + 2) (h 2 (omega arith)) (rw three (h 3 (omega arith))) in
    let total : load16 m' (p + 4) ≡ load16 m (p + 4) =
      load16_ext m m' (p + 4) (h 4 (omega arith)) (rw five (h 5 (omega arith))) in
    λ j. record {
      bucket_index = first j;
      blocks_in_use = in_use j;
      total_blocks = total j;
      free_list = word 8 (omega arith) j;
      next_page_descriptor = word 16 (omega arith) j;
      prev_page_descriptor = word 24 (omega arith) j;
    }

pub load_descriptor-store64 :
    (m : Bytes) (a v p : ℕ)
    → (a + 8 ≤ p) ⊎ (p + 32 ≤ a)
    → load_descriptor (store64 m a v) p ≡ load_descriptor m p
load_descriptor-store64 m a v p apart =
    load_descriptor_ext m (store64 m a v) p (λ k lt. store64_outside m a v (p + k) (ground arith))
