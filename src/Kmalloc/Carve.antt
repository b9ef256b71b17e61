-- ===== src/Kmalloc/Carve.antt =====
-- A new page in a bucket, allocate_page_for_bucket of kernel/x86_64/memory/kmalloc.c.
use fesos.Prelude.{
  ℕ, zero, suc, ◌+◌, ◌-◌, ◌*◌, ◌/◌, ◌%◌, ◌^◌, ◌≤◌, ◌<◌, ◌≢◌, ◌≡◌, ◌⊎◌, inl, inr, refl, ne→==_false,
  ap, ◌∙◌, false, ◌==◌, max, arith,
}
use native.Mathlib.Nat.{div-le_self, div-mul-le_self, le-div_iff_mul-le}
use fesos.Machine.Memory.{Bytes, IsBytes, load64}
use fesos.Kmalloc.State.{
  PageDescriptor, Heap, pages, put_page, store_descriptor, returned, HeapM, pure, ◌>>◌, null,
  bucket, set_bucket, set_page, Vma, vma_regular, no_backing, Ends, ends,
}
use fesos.Kmalloc.{
  first_block, blocks_of, link_blocks, unless_null, add_free_page, allocate_page_for_bucket,
}
use fesos.Kmalloc.Descriptors.{
  load64-store_descriptor, load_descriptor_ext, store_descriptor_outside,
}
use fesos.Kmalloc.Widths.{
  IsDescriptor, set_free-IsDescriptor, set_in_use-IsDescriptor, set_index-IsDescriptor,
  set_next-IsDescriptor, set_prev-IsDescriptor, set_total-IsDescriptor,
}
use fesos.Kmalloc.Puts.{
  put_bucket, set_page_lem, pages-put_page, put_page-put_page, pages-IsDescriptor,
}
use fesos.Kmalloc.Links.{linked, linked_outside, linked_at, link_blocks_lem}

-- What allocate_page_for_bucket makes of a page.
pub record Carved (i p size : ℕ) (h h' : Heap) : Type 0 where
  pub head : (h'.buckets i).free_page_list ≡ p
  pub index : (pages h' p).bucket_index ≡ i
  pub unused : (pages h' p).blocks_in_use ≡ 0
  pub some_blocks : 0 < (pages h' p).total_blocks
  pub fits : max size 32 + (pages h' p).total_blocks * size ≤ 4096
  pub first : (pages h' p).free_list ≡ p + max size 32
  pub chain :
      (k : ℕ)
      → k + 1 < (pages h' p).total_blocks
      → load64 h'.kernel.mem (p + max size 32 + k * size) ≡ p + max size 32 + (k + 1) * size
  pub alone : (pages h' p).next_page_descriptor ≡ null
  pub outside : (x : ℕ) → (x < p) ⊎ (p + 4096 ≤ x) → h'.kernel.mem x ≡ h.kernel.mem x
  pub same_pmm : h'.kernel.pmm ≡ h.kernel.pmm

blocks_lem :
    (size : ℕ)
    → 16 ≤ size
    → size ≤ 1024
    → (0 < blocks_of size) × (max size 32 + blocks_of size * size ≤ 4096)
unfolding blocks_of first_block
blocks_lem size wide le =
    let room = 4096 - max size 32 in
    let lower : room ≤ 4096 = omega arith in
    let large : size ≤ room = omega arith in
    let few : room / size ≤ 4096 = omega (arith, div-le_self room size) in
    let fit : room / size * size ≤ room = div-mul-le_self room size in
    let some_block : 1 ≤ room / size =
      (le-div_iff_mul-le {k = size} {x = 1} {y = room} (omega arith)).1 (omega arith) in
    let same : room / size % 2 ^ 16 ≡ room / size = omega arith in rw same (some_block, omega arith)

before_last : (n s : ℕ) → (n - 1) * s ≤ n * s
before_last zero s = omega arith
before_last (suc n) s = let at : suc n - 1 ≡ n = omega arith in rw at (omega arith)

module _ (i p size : ℕ) (h : Heap) (nn : p ≢ null) (small : p + 4096 < 2 ^ 64) (index : i < 2 ^ 8)
    (bytes : IsBytes h.kernel.mem) (le : size ≤ 1024)
    (bucket_size : (h.buckets i).bucket_size ≡ size)
    (no_page : (h.buckets i).free_page_list ≡ null) where
  -- The descriptors of the page before the links, and at the end.
  unlinked : PageDescriptor
  unlinked = record (pages h p) {
    total_blocks = blocks_of size;
    blocks_in_use = 0;
    bucket_index = i;
    free_list = p + max size 32;
  }

  carved_descriptor : PageDescriptor
  carved_descriptor = record {
    bucket_index = i;
    blocks_in_use = 0;
    total_blocks = blocks_of size;
    free_list = p + max size 32;
    next_page_descriptor = null;
    prev_page_descriptor = null;
  }

  blocks_lt : blocks_of size < 2 ^ 16
  unfolding blocks_of
  blocks_lt = omega arith

  unlinked-IsDescriptor : IsDescriptor unlinked
  unfolding unlinked
  unlinked-IsDescriptor =
      set_free-IsDescriptor
        (set_index-IsDescriptor
          (set_in_use-IsDescriptor (set_total-IsDescriptor (pages-IsDescriptor h p bytes) blocks_lt)
            (omega arith))
          index)
        (omega arith)

  carved-IsDescriptor : IsDescriptor carved_descriptor
  unfolding carved_descriptor unlinked
  carved-IsDescriptor =
      set_next-IsDescriptor (set_prev-IsDescriptor unlinked-IsDescriptor (omega arith))
        (omega arith)

  -- The heap with the links of the blocks.
  with_links : Heap → Heap
  with_links g = record g {
    kernel = record g.kernel {
      mem = linked (blocks_of size - 1) size (p + max size 32) g.kernel.mem;
    };
  }

  joined :
      (g : Heap)
      → pages g p ≡ unlinked
      → (g.buckets i).free_page_list ≡ null
      → add_free_page i p g
        ≡ returned tt (
            put_bucket i
              (record ((put_page p carved_descriptor g).buckets i) { free_page_list = p })
              (put_page p carved_descriptor g))
  unfolding add_free_page unless_null bucket set_bucket put_bucket unlinked carved_descriptor
  joined g at same =
      let d1 = record unlinked { prev_page_descriptor = null } in
      ground (
        arith,
        same,
        set_page_lem p nn g (λ q. record q { prev_page_descriptor = null }),
        at,
        set_page_lem p nn (put_page p d1 g) (λ q. record q { next_page_descriptor = null }),
        pages-put_page p d1 g (set_prev-IsDescriptor unlinked-IsDescriptor (omega arith)),
        put_page-put_page p carved_descriptor d1 g,
      )

  prepare :
      (k : HeapM ℕ)
      → (do
        set_page p (λ q. record q { total_blocks = blocks_of size })
        set_page p (λ q. record q { blocks_in_use = 0 })
        set_page p (λ q. record q { bucket_index = i })
        set_page p (λ q. record q { free_list = p + max size 32 })
        k)
          h
        ≡ k (put_page p unlinked h)
  unfolding unlinked
  prepare k =
      let d1 = record (pages h p) { total_blocks = blocks_of size } in
      let d2 = record d1 { blocks_in_use = 0 } in
      let d3 = record d2 { bucket_index = i } in
      let s1 : IsDescriptor d1 = set_total-IsDescriptor (pages-IsDescriptor h p bytes) blocks_lt in
      let s2 : IsDescriptor d2 = set_in_use-IsDescriptor s1 (omega arith) in
      let s3 : IsDescriptor d3 = set_index-IsDescriptor s2 index in
      ground (
        arith,
        set_page_lem p nn h (λ q. record q { total_blocks = blocks_of size }),
        set_page_lem p nn (put_page p d1 h) (λ q. record q { blocks_in_use = 0 }),
        pages-put_page p d1 h s1,
        put_page-put_page p d2 d1 h,
        set_page_lem p nn (put_page p d2 h) (λ q. record q { bucket_index = i }),
        pages-put_page p d2 h s2,
        put_page-put_page p d3 d2 h,
        set_page_lem p nn (put_page p d3 h) (λ q. record q { free_list = p + max size 32 }),
        pages-put_page p d3 h s3,
        put_page-put_page p unlinked d3 h,
      )

  pages-with_links : (g : Heap) → 8 ≤ size → pages (with_links g) p ≡ pages g p
  unfolding with_links pages
  pages-with_links g wide = load_descriptor_ext g.kernel.mem (with_links g).kernel.mem p (λ k lt.
      linked_outside (blocks_of size - 1) size (p + max size 32) g.kernel.mem (p + k) wide
        (inl (omega arith)))

  free-with_links :
      ((with_links (put_page p unlinked h)).buckets i).free_page_list ≡ (h.buckets i).free_page_list
  unfolding with_links put_page
  free-with_links = refl

  bucket-with_links :
      (put_page p carved_descriptor (with_links (put_page p unlinked h))).buckets ≡ h.buckets
  unfolding with_links put_page
  bucket-with_links = refl

  carve :
      (0 < blocks_of size)
      → p + max size 32 + (blocks_of size - 1) * size < 2 ^ 64
      → 8 ≤ size
      → (do
        set_page p (λ q. record q { total_blocks = blocks_of size })
        set_page p (λ q. record q { blocks_in_use = 0 })
        set_page p (λ q. record q { bucket_index = i })
        set_page p (λ q. record q { free_list = p + max size 32 })
        link_blocks (blocks_of size - 1) size (p + max size 32)
        add_free_page i p
        pure zero)
          h
        ≡ returned 0 (
            put_bucket i
              (record (h.buckets i) { free_page_list = p })
              (put_page p carved_descriptor (with_links (put_page p unlinked h))))
  unfolding with_links put_page put_bucket
  carve some_blocks fit wide =
      prepare
        (do link_blocks (blocks_of size - 1) size (p + max size 32); add_free_page i p; pure zero)
      ∙ ground (
        arith,
        link_blocks_lem (blocks_of size - 1) size (p + max size 32) (put_page p unlinked h)
            (omega arith) fit,
        joined (with_links (put_page p unlinked h))
            (pages-with_links (put_page p unlinked h) wide
              ∙ pages-put_page p unlinked h unlinked-IsDescriptor)
            no_page,
      )

  carved : Heap
  carved =
      put_bucket i (record (h.buckets i) { free_page_list = p })
        (put_page p carved_descriptor (with_links (put_page p unlinked h)))

  pages-carved : pages carved p ≡ carved_descriptor
  unfolding carved put_bucket pages
  pages-carved =
      pages-put_page p carved_descriptor (with_links (put_page p unlinked h)) carved-IsDescriptor

  -- The memory before the last stores to the descriptor.
  linked_mem : Bytes
  linked_mem =
      linked (blocks_of size - 1) size (p + max size 32) (store_descriptor h.kernel.mem p unlinked)

  mem-carved : carved.kernel.mem ≡ store_descriptor linked_mem p carved_descriptor
  unfolding carved put_bucket put_page with_links linked_mem
  mem-carved = refl

  pmm-carved : carved.kernel.pmm ≡ h.kernel.pmm
  unfolding carved put_bucket put_page with_links
  pmm-carved = refl

  carved-Carved :
      16 ≤ size
      → (0 < blocks_of size) × (max size 32 + blocks_of size * size ≤ 4096)
      → Carved i p size h carved
  unfolding carved_descriptor linked_mem
  carved-Carved wide b =
      let total : (pages carved p).total_blocks ≡ blocks_of size =
        ap (λ (d : PageDescriptor). d.total_blocks) pages-carved in
      let less = before_last (blocks_of size) size in
      record {
        head = unfold carved in (unfold put_bucket in (ground arith));
        index = ap (λ (d : PageDescriptor). d.bucket_index) pages-carved;
        unused = ap (λ (d : PageDescriptor). d.blocks_in_use) pages-carved;
        some_blocks = rw total (b.0);
        fits = rw total (b.1);
        first = ap (λ (d : PageDescriptor). d.free_list) pages-carved;
        chain = λ k lt. rw mem-carved (
            load64-store_descriptor linked_mem p carved_descriptor (p + max size 32 + k * size)
              (inr (omega arith))
            ∙ linked_at (blocks_of size - 1) size (p + max size 32)
                (store_descriptor h.kernel.mem p unlinked) k (omega arith)
                (omega (arith, rw total at lt)) (omega (arith, b.1, less)));
        alone = ap (λ (d : PageDescriptor). d.next_page_descriptor) pages-carved;
        outside = λ x out. rw mem-carved (
            store_descriptor_outside linked_mem p carved_descriptor x (ground arith)
            ∙ linked_outside (blocks_of size - 1) size (p + max size 32)
                (store_descriptor h.kernel.mem p unlinked) x (omega arith)
                (elim out [
                  | inl before ↦ inl (omega arith)
                  | inr after ↦ inr (omega (arith, b.1, less))
                ])
            ∙ store_descriptor_outside h.kernel.mem p unlinked x (ground arith));
        same_pmm = pmm-carved;
      }

-- For a bucket with an index below 256 and no page of free blocks, whose size is from 16 to 1024, a
-- page that is not NULL and ends below 2 ^ 64, which memory/vma.c gives, and a memory of bytes:
-- allocate_page_for_bucket returns 0; the page is the head of the bucket's list and alone in it, none of
-- its blocks is in use, there is one at least, all of them are inside the page after the 32 bytes of
-- the descriptor, the free list starts with the first, each block but the last has a link to the next
-- one, and no byte outside the page changes, and none of the variables of the frame allocator.
pub allocate_page_for_bucket-Carved :
    (vma : Vma) (i p size : ℕ) (h0 h : Heap)
    → vma.allocate 4096 vma_regular 0x61 no_backing h0 ≡ returned p h
    → p ≢ null
    → p + 4096 < 2 ^ 64
    → i < 2 ^ 8
    → IsBytes h.kernel.mem
    → (h.buckets i).bucket_size ≡ size
    → 16 ≤ size
    → size ≤ 1024
    → (h.buckets i).free_page_list ≡ null
    → Ends (λ status h'. (status ≡ 0) × Carved i p size h h') (allocate_page_for_bucket vma i h0)
unfolding allocate_page_for_bucket first_block bucket carved
allocate_page_for_bucket-Carved vma i p size h0 h given nn small index bytes at wide le none_free =
    let b = blocks_lem size wide le in
    let fit : p + max size 32 + (blocks_of size - 1) * size < 2 ^ 64 =
      omega (arith, b.1, before_last (blocks_of size) size) in
    let there : (p == null) ≡ false = ne→==_false p null nn in
    let start : (p + max size 32) % 2 ^ 64 ≡ p + max size 32 = omega arith in
    rw
      (
        given,
        there,
        at,
        start,
        carve i p size h nn small index bytes le at none_free b.0 fit (omega arith),
      )
      (ends (refl, carved-Carved i p size h nn small index bytes le at none_free wide b))
