-- ===== src/Kmalloc/Reuse.antt =====
-- A block that kmalloc of kernel/x86_64/memory/kmalloc.c gives, and kfree takes back.
use fesos.Prelude.{
  ℕ, ◌+◌, ◌-◌, ◌%◌, ◌^◌, ◌≤◌, ◌<◌, ◌≢◌, ◌≡◌, inr, refl, ap, ◌∙◌, ne→==_false, Bool, false, ◌==◌,
  if◌then◌else◌, arith,
}
use fesos.Machine.Memory.{IsBytes, load64}
use fesos.Kmalloc.Words.{load64_lt}
use fesos.Kmalloc.Widths.{IsDescriptor, set_free-IsDescriptor, set_in_use-IsDescriptor}
use fesos.Kmalloc.State.{
  PageDescriptor, Heap, pages, put_page, returned, pure, ◌>>=◌, null, bucket, Vma,
}
use fesos.Kmalloc.{get_bucket_from_size, take_block, kmalloc_in, kmalloc, kfree}
use fesos.Kmalloc.Puts.{
  load64-put_page, pages-IsDescriptor, load_word_lem, page_lem, pages-put_page, pages-put_word,
  put_page-put_page, put_page_same, put_word, put_word-put_page, put_word_same, set_page_lem,
  store_word_lem,
}
use fesos.Kmalloc.Sizes.{get_bucket_from_size_small}

-- The page that the next block of a bucket is in, and its descriptor.
abbrev pub page_of : Heap → ℕ → ℕ
page_of h i = (h.buckets i).free_page_list

abbrev pub descriptor_of : Heap → ℕ → PageDescriptor
descriptor_of h i = pages h (page_of h i)

-- The descriptor when a block is taken, and none was the last.
taken : Heap → ℕ → PageDescriptor
taken h i = record (descriptor_of h i) {
  blocks_in_use = ((descriptor_of h i).blocks_in_use + 1) % 2 ^ 16;
  free_list = load64 h.kernel.mem (descriptor_of h i).free_list;
}

module _ (h : Heap) (i : ℕ) (nn : page_of h i ≢ null)
    (apart : page_of h i + 32 ≤ (descriptor_of h i).free_list) (b : IsBytes h.kernel.mem) where
  take_block_lem :
      (((descriptor_of h i).blocks_in_use + 1) % 2 ^ 16) ≢ (descriptor_of h i).total_blocks
      → take_block i h
        ≡ returned (descriptor_of h i).free_list (put_page (page_of h i) (taken h i) h)
  unfolding take_block taken bucket
  take_block_lem more =
      let p = page_of h i in
      let d = descriptor_of h i in
      let d1 = record d { blocks_in_use = (d.blocks_in_use + 1) % 2 ^ 16 } in
      let h1 = put_page p d1 h in
      let link = load64 h.kernel.mem d.free_list in
      let an : d.free_list ≢ null = omega (arith, apart) in
      let small = pages-IsDescriptor h p b in
      let small1 : IsDescriptor d1 = set_in_use-IsDescriptor small (omega arith) in
      ground (
        arith,
        more,
        page_lem p nn h,
        set_page_lem p nn h (λ q. record q { blocks_in_use = (q.blocks_in_use + 1) % 2 ^ 16 }),
        load_word_lem d.free_list an h1,
        set_page_lem p nn h1 (λ q. record q { free_list = link }),
        pages-put_page p d1 h small1,
        load64-put_page p d1 h d.free_list (inr apart),
        put_page-put_page p (taken h i) d1 h,
        page_lem p nn (put_page p (taken h i) h),
        pages-put_page p (taken h i) h (set_free-IsDescriptor small1 (load64_lt _ _ b)),
      )

-- kfree of a block whose page neither was full nor gets empty.
kfree_lem :
    (vma : Vma) (ptr p : ℕ) (h : Heap) (d : PageDescriptor)
    → p ≢ null
    → p % 4096 ≡ 0
    → p + 32 ≤ ptr
    → ptr < p + 4096
    → ptr < 2 ^ 64
    → pages h p ≡ d
    → IsDescriptor d
    → d.blocks_in_use ≢ d.total_blocks
    → 1 < d.blocks_in_use
    → d.blocks_in_use < 2 ^ 16
    → kfree vma ptr h
      ≡ returned tt (
          put_page p
            (record d { free_list = ptr; blocks_in_use = d.blocks_in_use - 1 })
            (put_word ptr d.free_list h))
unfolding kfree
kfree_lem vma ptr p h d nn base above below in_range at small not_full others width =
    let h1 = put_word ptr d.free_list h in
    let d1 = record d { free_list = ptr } in
    let d2 = record d1 { blocks_in_use = d.blocks_in_use - 1 } in
    let small1 : IsDescriptor d1 = set_free-IsDescriptor small in_range in
    let inside : (ptr % 4096 == 0) ≡ false = ground arith in
    let start : ptr - ptr % 4096 ≡ p = omega arith in
    let ptr_nn : ptr ≢ null = omega arith in
    let less : (d.blocks_in_use + 2 ^ 16 - 1) % 2 ^ 16 ≡ d.blocks_in_use - 1 = omega arith in
    ground (
      arith,
      inside,
      start,
      page_lem p nn h,
      at,
      store_word_lem ptr ptr_nn h d.free_list,
      set_page_lem p nn h1 (λ q. record q { free_list = ptr }),
      pages-put_word ptr d.free_list h p (inr above),
      set_page_lem p nn (put_page p d1 h1)
          (λ q. record q { blocks_in_use = (q.blocks_in_use + 2 ^ 16 - 1) % 2 ^ 16 }),
      pages-put_page p d1 h1 small1,
      less,
      put_page-put_page p d2 d1 h1,
      page_lem p nn (put_page p d2 h1),
      pages-put_page p d2 h1 (set_in_use-IsDescriptor small1 (omega arith)),
    )

-- Bucket i has a page with a free block in it after the descriptor, another one free, and one in use.
pub record Usable (h : Heap) (i : ℕ) : Type 0 where
  pub present : page_of h i ≢ null
  pub aligned : page_of h i % 4096 ≡ 0
  pub above : page_of h i + 32 ≤ (descriptor_of h i).free_list
  pub below : (descriptor_of h i).free_list < page_of h i + 4096
  pub used : 0 < (descriptor_of h i).blocks_in_use
  pub room : (descriptor_of h i).blocks_in_use + 1 < (descriptor_of h i).total_blocks
  pub width : (descriptor_of h i).total_blocks < 2 ^ 16
  pub bytes : IsBytes h.kernel.mem

kmalloc_in_lem :
    (vma : Vma) (h : Heap) (i size : ℕ)
    → i < 7
    → page_of h i ≢ null
    → kmalloc_in vma i size h ≡ take_block i h
unfolding kmalloc_in bucket
kmalloc_in_lem vma h i size lt nn =
    let indexed : (i == 255) ≡ false = ne→==_false i 255 (omega arith) in
    let there : (page_of h i == 0) ≡ false = ne→==_false (page_of h i) 0 nn in
    rw (indexed, there) refl

kmalloc_lem :
    (vma : Vma) (h : Heap) (size : ℕ)
    → 0 < size
    → kmalloc vma size h ≡ kmalloc_in vma (get_bucket_from_size size) size h
unfolding kmalloc
kmalloc_lem vma h size pos =
    let some_size : (size == 0) ≡ false = ne→==_false size 0 (omega arith) in
    ap (λ (b : Bool). (if b then pure null else kmalloc_in vma (get_bucket_from_size size) size) h)
      some_size

module _ (h : Heap) (i : ℕ) (u : Usable h i) where
  blocks-taken : (taken h i).blocks_in_use ≡ (descriptor_of h i).blocks_in_use + 1
  unfolding taken
  blocks-taken = omega (arith, u.room, u.width)

  total-taken : (taken h i).total_blocks ≡ (descriptor_of h i).total_blocks
  unfolding taken
  total-taken = refl

  -- The descriptor and the word at the block are as before.
  back :
      put_page
        (page_of h i)
        (record (taken h i) {
          free_list = (descriptor_of h i).free_list;
          blocks_in_use = (taken h i).blocks_in_use - 1;
        })
        (put_word
          (descriptor_of h i).free_list
          (taken h i).free_list
          (put_page (page_of h i) (taken h i) h))
      ≡ h
  unfolding taken
  back =
      let p = page_of h i in
      let d = descriptor_of h i in
      let less : (d.blocks_in_use + 1) % 2 ^ 16 - 1 ≡ d.blocks_in_use =
        omega (arith, u.room, u.width) in
      rw
        (
          less,
          put_word-put_page d.free_list (load64 h.kernel.mem d.free_list) p (taken h i) h
              (inr u.above),
          put_word_same d.free_list h u.bytes,
          put_page-put_page p d (taken h i) h,
        )
        (put_page_same p h u.bytes)

-- For a size above 0 and up to 1024, whose bucket has a page with a free block in it after the
-- descriptor, another block free and one in use, with counts below 2 ^ 16, in a memory of bytes: kmalloc and then kfree of the block that it
-- gives return, and leave the whole heap as it was.
pub kfree-kmalloc :
    (vma : Vma) (h : Heap) (size : ℕ)
    → 0 < size
    → size ≤ 1024
    → Usable h (get_bucket_from_size size)
    → (kmalloc vma size >>= (λ ptr. kfree vma ptr)) h ≡ returned tt h
kfree-kmalloc vma h size pos le u =
    let i = get_bucket_from_size size in
    let d = descriptor_of h i in
    let t = taken h i in
    let small : IsDescriptor t =
      unfold taken in
      (set_free-IsDescriptor
        (set_in_use-IsDescriptor (pages-IsDescriptor h (page_of h i) u.bytes) (omega arith))
        (load64_lt _ _ u.bytes)) in
    let width : (d.blocks_in_use + 1) % 2 ^ 16 ≡ d.blocks_in_use + 1 =
      omega (arith, u.room, u.width) in
    let more : (d.blocks_in_use + 1) % 2 ^ 16 ≢ d.total_blocks = omega (arith, u.room, u.width) in
    let give : kmalloc vma size h ≡ returned d.free_list (put_page (page_of h i) t h) =
      kmalloc_lem vma h size pos
      ∙ kmalloc_in_lem vma h i size (get_bucket_from_size_small size pos le) u.present
      ∙ take_block_lem h i u.present u.above u.bytes more in
    rw give (
      kfree_lem vma d.free_list (page_of h i) (put_page (page_of h i) t h) t u.present u.aligned
        u.above u.below ((pages-IsDescriptor h (page_of h i) u.bytes).free_fits)
        (pages-put_page (page_of h i) t h small) small
        (omega (arith, u.room, blocks-taken h i u, total-taken h i u))
        (omega (arith, u.used, blocks-taken h i u))
        (omega (arith, u.room, u.width, blocks-taken h i u))
      ∙ ap (λ (g : Heap). returned tt g) (back h i u))
