-- ===== src/Kmalloc/Full.antt =====
-- kfree of kernel/x86_64/memory/kmalloc.c on a block of a page that was full.
use fesos.Prelude.{
  ℕ, ◌+◌, ◌-◌, ◌%◌, ◌^◌, ◌≤◌, ◌<◌, inr, refl, ap, if◌then◌else◌, ◌≢◌, ◌≡◌, ◌∙◌, true, false, ◌==◌,
  arith,
}
use fesos.Kmalloc.State.{
  PageDescriptor, Heap, returned, faulted, null, bucket, set_bucket, pages, put_page, set_page, Vma,
  Ends, ends,
}
use fesos.Kmalloc.{unless_null, unlink, page_not_full, kfree}
use fesos.Machine.Memory.{IsBytes}
use fesos.Kmalloc.Widths.{
  IsDescriptor, set_free-IsDescriptor, set_in_use-IsDescriptor, set_prev-IsDescriptor,
}
use fesos.Kmalloc.Puts.{
  pages-put_page-cut, pages-IsDescriptor, put_bucket, put_word, page_lem, set_page_lem,
  store_word_lem, pages-put_page, pages-put_word, put_page-put_page,
}

-- A page of bucket i that is full and alone in the bucket's list of full pages, and a block in it
-- after the descriptor.
pub record LastFull (h : Heap) (i p ptr : ℕ) : Type 0 where
  pub present : p ≢ null
  pub aligned : p % 4096 ≡ 0
  pub above : p + 32 ≤ ptr
  pub below : ptr < p + 4096
  pub in_range : ptr < 2 ^ 64
  pub bytes : IsBytes h.kernel.mem
  pub index : (pages h p).bucket_index ≡ i
  pub full : (pages h p).blocks_in_use ≡ (pages h p).total_blocks
  pub blocks : 0 < (pages h p).total_blocks
  pub width : (pages h p).total_blocks < 2 ^ 16
  pub head : (h.buckets i).full_page_list ≡ p
  pub first : (pages h p).prev_page_descriptor ≡ null
  pub last : (pages h p).next_page_descriptor ≡ null

-- A page with a free block that is in no list of its bucket i, but in that of bucket 0.
pub record Lost (i p : ℕ) (h : Heap) : Type 0 where
  pub not_free : (h.buckets i).free_page_list ≡ null
  pub not_full : (h.buckets i).full_page_list ≡ null
  pub in_first : (h.buckets 0).full_page_list ≡ p
  pub room : (pages h p).blocks_in_use + 1 ≡ (pages h p).total_blocks

module _ (vma : Vma) (h : Heap) (i p ptr : ℕ) (l : LastFull h i p ptr) where
  -- The descriptor and the heap when the page is taken for one that was full.
  freed_descriptor : PageDescriptor
  freed_descriptor = record (pages h p) {
    free_list = ptr;
    blocks_in_use = (pages h p).blocks_in_use - 1;
  }

  freed : Heap
  freed = put_page p freed_descriptor (put_word ptr (pages h p).free_list h)

  small1 : IsDescriptor (record (pages h p) { free_list = ptr })
  small1 = set_free-IsDescriptor (pages-IsDescriptor h p l.bytes) l.in_range

  freed-IsDescriptor : IsDescriptor freed_descriptor
  unfolding freed_descriptor
  freed-IsDescriptor = set_in_use-IsDescriptor small1 (omega (arith, l.full, l.width))

  kfree_full : kfree vma ptr h ≡ page_not_full p i freed
  unfolding kfree freed freed_descriptor
  kfree_full =
      let d = pages h p in
      let h1 = put_word ptr d.free_list h in
      let d1 = record d { free_list = ptr } in
      let d2 = record d1 { blocks_in_use = d.blocks_in_use - 1 } in
      let inside : (ptr % 4096 == 0) ≡ false = ground (arith, l.aligned, l.above, l.below) in
      let start : ptr - ptr % 4096 ≡ p = omega (arith, l.aligned, l.above, l.below) in
      let ptr_nn : ptr ≢ null = omega (arith, l.above) in
      let less : (d.blocks_in_use + 2 ^ 16 - 1) % 2 ^ 16 ≡ d.blocks_in_use - 1 =
        omega (arith, l.full, l.blocks, l.width) in
      let was_full : (d.blocks_in_use - 1 + 1 == d.total_blocks) ≡ true =
        ground (arith, l.full, l.blocks) in
      ground (
        arith,
        inside,
        start,
        page_lem p l.present h,
        l.index,
        was_full,
        store_word_lem ptr ptr_nn h d.free_list,
        set_page_lem p l.present h1 (λ q. record q { free_list = ptr }),
        pages-put_word ptr d.free_list h p (inr l.above),
        set_page_lem p l.present (put_page p d1 h1)
            (λ q. record q { blocks_in_use = (q.blocks_in_use + 2 ^ 16 - 1) % 2 ^ 16 }),
        pages-put_page p d1 h1 small1,
        less,
        put_page-put_page p d2 d1 h1,
        page_lem p l.present (put_page p d2 h1),
        pages-put_page p d2 h1 freed-IsDescriptor,
      )

  pages-freed : pages freed p ≡ freed_descriptor
  unfolding freed
  pages-freed =
      pages-put_page p freed_descriptor (put_word ptr (pages h p).free_list h) freed-IsDescriptor

  freed-ends :
      (freed_descriptor.prev_page_descriptor ≡ null)
      × (freed_descriptor.next_page_descriptor ≡ null)
  unfolding freed_descriptor
  freed-ends = (l.first, l.last)

  buckets-freed : freed.buckets ≡ h.buckets
  unfolding freed put_page put_word
  buckets-freed = refl

  -- The heap when the page is out of its list.
  unlinked : Heap
  unfolding put_bucket
  unlinked = put_bucket i (record (freed.buckets i) { full_page_list = null }) freed

  pages-unlinked : pages unlinked p ≡ freed_descriptor
  unfolding unlinked put_bucket pages
  pages-unlinked = pages-freed

  unlink_lem :
      unlink p (λ next. set_bucket i (λ c. record c { full_page_list = next })) freed
      ≡ returned tt unlinked
  unfolding unlink unless_null set_bucket unlinked put_bucket
  unlink_lem = ground (
    arith,
    page_lem p l.present freed,
    pages-freed,
    freed-ends.0,
    freed-ends.1,
    page_lem p l.present unlinked,
    pages-unlinked,
  )

  unlinked-free : (unlinked.buckets i).free_page_list ≡ (h.buckets i).free_page_list
  unfolding unlinked put_bucket
  unlinked-free = rw buckets-freed (ground arith)

  unlinked-full : (unlinked.buckets i).full_page_list ≡ null
  unfolding unlinked put_bucket
  unlinked-full = ground arith

  faults_in_list : (h.buckets i).free_page_list ≢ null → page_not_full p i freed ≡ faulted
  unfolding page_not_full unless_null bucket set_page
  faults_in_list more = ground (arith, unlink_lem, more, unlinked-free, unlinked-full)

  -- The descriptor and the heap that page_not_full leaves.
  lost_descriptor : PageDescriptor
  lost_descriptor = record freed_descriptor {
    prev_page_descriptor = null;
    next_page_descriptor = (unlinked.buckets 0).full_page_list;
  }

  relisted : Heap
  relisted = put_page p lost_descriptor unlinked

  lost : Heap
  unfolding put_bucket relisted
  lost = put_bucket 0 (record (relisted.buckets 0) { full_page_list = p }) relisted

  goes_to_first :
      i ≢ 0 → (h.buckets i).free_page_list ≡ null → page_not_full p i freed ≡ returned tt lost
  unfolding page_not_full unless_null bucket set_bucket lost relisted lost_descriptor put_bucket
  goes_to_first ni none_free =
      let d3 = record freed_descriptor { prev_page_descriptor = null } in
      let small3 : IsDescriptor d3 = set_prev-IsDescriptor freed-IsDescriptor (omega arith) in
      let same : (put_page p d3 unlinked).buckets 0 ≡ unlinked.buckets 0 =
        unfold put_page in refl in
      ground (
        arith,
        unlink_lem,
        none_free,
        unlinked-free,
        pages-unlinked,
        set_page_lem p l.present unlinked (λ q. record q { prev_page_descriptor = null }),
        pages-put_page p d3 unlinked small3,
        same,
        set_page_lem p l.present (put_page p d3 unlinked)
            (λ q. record q { next_page_descriptor = (unlinked.buckets 0).full_page_list }),
        put_page-put_page p lost_descriptor d3 unlinked,
      )

  buckets-lost :
      (j : ℕ)
      → lost.buckets j ≡ (
          if j == 0 then record (unlinked.buckets 0) { full_page_list = p } else unlinked.buckets j)
  unfolding lost relisted put_bucket put_page
  buckets-lost j = refl

  room-lost : (pages lost p).blocks_in_use + 1 ≡ (pages lost p).total_blocks
  unfolding lost relisted put_bucket pages lost_descriptor freed_descriptor
  room-lost =
      let e = pages-put_page-cut p lost_descriptor unlinked in
      let in_use = ap (λ (d : PageDescriptor). d.blocks_in_use) e in
      let total = ap (λ (d : PageDescriptor). d.total_blocks) e in
      omega (arith, in_use, total, l.full, l.blocks, l.width)

-- In a memory of bytes, for an address in a page that is full, after its descriptor, where the page is
-- not the first of memory, has a total from 1 to below 2 ^ 16, and is alone in the list of full pages
-- of its bucket, and the bucket has another page with a free block: kfree writes through NULL.
pub kfree_faults :
    (vma : Vma) (h : Heap) (i p ptr : ℕ)
    → LastFull h i p ptr
    → (h.buckets i).free_page_list ≢ null
    → kfree vma ptr h ≡ faulted
kfree_faults vma h i p ptr l more = kfree_full vma h i p ptr l ∙ faults_in_list vma h i p ptr l more

-- In a memory of bytes, for an address in a page that is full, after its descriptor, where the page is
-- not the first of memory, has a total from 1 to below 2 ^ 16, and is alone in the list of full pages
-- of its bucket, and the bucket is not the first and has no page with a free block: kfree returns, and
-- the page, with a free block now, is in neither list of its bucket, but is the head of the list of
-- full pages of the first bucket.
pub kfree-Lost :
    (vma : Vma) (h : Heap) (i p ptr : ℕ)
    → LastFull h i p ptr
    → i ≢ 0
    → (h.buckets i).free_page_list ≡ null
    → Ends (λ _ h'. Lost i p h') (kfree vma ptr h)
kfree-Lost vma h i p ptr l ni none_free =
    let at_i = buckets-lost vma h i p ptr l i in
    let at_0 = buckets-lost vma h i p ptr l 0 in
    let apart : (i == 0) ≡ false = ground arith in
    rw (kfree_full vma h i p ptr l, goes_to_first vma h i p ptr l ni none_free)
      (ends (record {
        not_free = rw (at_i, apart) (unlinked-free vma h i p ptr l ∙ none_free);
        not_full = rw (at_i, apart) (unlinked-full vma h i p ptr l);
        in_first = rw at_0 refl;
        room = room-lost vma h i p ptr l;
      }))
