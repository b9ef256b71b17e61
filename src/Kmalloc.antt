-- ===== src/Kmalloc.antt =====
-- The heap of the kernel, kmalloc and kfree of kernel/x86_64/memory/kmalloc.c. A page descriptor is
-- the first 32 bytes of its page in memory, and the links between free blocks are bytes of memory
-- too. The areas of virtual memory (memory/vma.c) are a parameter; log messages are left out.
pub mod State
pub mod Words
pub mod Widths
pub mod Descriptors
pub mod Dma
pub mod Sizes
pub mod Puts
pub mod Links
pub mod Carve
pub mod Reuse
pub mod Full
mod Tests
use fesos.Prelude.{
  ℕ, zero, suc, ◌+◌, ◌-◌, ◌*◌, ◌/◌, ◌%◌, ◌^◌, Bool, true, false, ◌&&◌, ◌||◌, Option, none, some,
  ◌==◌, ltb, if◌then◌else◌, max, add64,
}
use fesos.Machine.{Kernel}
use fesos.Machine.Memory.{store64}
use State.{
  PageDescriptor, Bucket, Heap, HeapRun, returned, stopped, faulted, HeapM, pure, followed_by,
  ◌>>=◌, ◌>>◌, null, bucket, set_bucket, page, set_page, load_word, store_word, VmNodeType,
  vma_regular, Backing, no_backing, Vma,
}

-- The number of bits of a number, and the number of zeros at its end, for up to `count` bits.
pub bit_length : ℕ → ℕ → ℕ
bit_length zero n = 0
bit_length (suc count) n = let rest = bit_length count (n / 2) in if n == 0 then 0 else rest + 1

pub zeros_at_end : ℕ → ℕ → ℕ
zeros_at_end zero n = 0
zeros_at_end (suc count) n =
    let rest = zeros_at_end count (n / 2) in if n % 2 == 0 then rest + 1 else 0

-- __builtin_clzll and __builtin_ctzll
pub clzll : ℕ → ℕ
unfolding bit_length
clzll n = 64 - bit_length 64 n

pub ctzll : ℕ → ℕ
unfolding zeros_at_end
ctzll n = zeros_at_end 64 n

pub get_bucket_from_size : ℕ → ℕ
unfolding clzll ctzll
get_bucket_from_size size =
    if ltb 1024 size
    then 255
    else if ltb size 16
    then 0
    else let leading_zeros = clzll size in
      let trailing_zeros = ctzll size in
      if leading_zeros + trailing_zeros + 1 == 64
      then (trailing_zeros + 2 ^ 8 - 4) % 2 ^ 8
      else (64 - leading_zeros + 2 ^ 8 - 4) % 2 ^ 8

-- MAX(buckets[bucket_id].bucket_size, sizeof(kmalloc_page_descriptor_t))
pub first_block : ℕ → ℕ
first_block bucket_size = max bucket_size 32

pub blocks_of : ℕ → ℕ
unfolding first_block
blocks_of bucket_size = (4096 - first_block bucket_size) / bucket_size % 2 ^ 16

-- The loop that links the blocks of a page, with the rounds that are left.
pub link_blocks : ℕ → ℕ → ℕ → HeapM (Unit {0})
link_blocks zero bucket_size current_free_hole = pure tt
link_blocks (suc left) bucket_size current_free_hole = do
  store_word current_free_hole (add64 current_free_hole bucket_size)
  link_blocks left bucket_size (add64 current_free_hole bucket_size)

pub kmalloc_init : HeapM (Unit {0})
kmalloc_init = do
  set_bucket 0 (λ b. record b { bucket_size = 16 })
  set_bucket 1 (λ b. record b { bucket_size = 32 })
  set_bucket 2 (λ b. record b { bucket_size = 64 })
  set_bucket 3 (λ b. record b { bucket_size = 128 })
  set_bucket 4 (λ b. record b { bucket_size = 256 })
  set_bucket 5 (λ b. record b { bucket_size = 512 })
  set_bucket 6 (λ b. record b { bucket_size = 1024 })

-- An assignment through a pointer under the test that it is not NULL.
pub unless_null : ℕ → HeapM (Unit {0}) → HeapM (Unit {0})
unless_null p c = if p == null then pure tt else c

-- The page joins the list of pages with free blocks.
pub add_free_page : ℕ → ℕ → HeapM (Unit {0})
unfolding unless_null
add_free_page bucket_id new_page = do
  b ← bucket bucket_id
  unless_null b.free_page_list
      (set_page b.free_page_list (λ p. record p { prev_page_descriptor = new_page }))
  set_page new_page (λ p. record p { prev_page_descriptor = null })
  set_page new_page (λ p. record p { next_page_descriptor = b.free_page_list })
  set_bucket bucket_id (λ c. record c { free_page_list = new_page })

-- The first page of the list has no free block any more, and joins the list of full pages.
pub move_to_full : ℕ → HeapM (Unit {0})
unfolding unless_null
move_to_full bucket_id = do
  b ← bucket bucket_id
  p ← page b.free_page_list
  set_bucket bucket_id (λ c. record c { free_page_list = p.next_page_descriptor })
  unless_null p.next_page_descriptor
      (set_page p.next_page_descriptor (λ q. record q { prev_page_descriptor = null }))
  unless_null b.full_page_list
      (set_page b.full_page_list (λ q. record q { prev_page_descriptor = b.free_page_list }))
  set_page b.free_page_list (λ q. record q { prev_page_descriptor = null })
  set_page b.free_page_list (λ q. record q { next_page_descriptor = b.full_page_list })
  set_bucket bucket_id (λ c. record c { full_page_list = b.free_page_list })

-- kmalloc, where the bucket has a page with a free block.
pub take_block : ℕ → HeapM ℕ
unfolding move_to_full
take_block bucket_id = do
  b ← bucket bucket_id
  p ← page b.free_page_list
  set_page b.free_page_list (λ q. record q { blocks_in_use = (q.blocks_in_use + 1) % 2 ^ 16 })
  link ← load_word p.free_list
  set_page b.free_page_list (λ q. record q { free_list = link })
  p' ← page b.free_page_list
  if p'.blocks_in_use == p'.total_blocks then move_to_full bucket_id else pure tt
  pure p.free_list

-- A page is taken out of the list whose head `set_head` sets.
pub unlink : ℕ → (ℕ → HeapM (Unit {0})) → HeapM (Unit {0})
unfolding unless_null
unlink page_descriptor set_head = do
  p ← page page_descriptor
  if p.prev_page_descriptor == null
      then set_head p.next_page_descriptor
      else set_page p.prev_page_descriptor
          (λ q. record q { next_page_descriptor = p.next_page_descriptor })
  p' ← page page_descriptor
  unless_null p'.next_page_descriptor (
      set_page p'.next_page_descriptor
        (λ q. record q { prev_page_descriptor = p'.prev_page_descriptor }))

-- kfree, where the page was full.
pub page_not_full : ℕ → ℕ → HeapM (Unit {0})
unfolding unlink unless_null
page_not_full page_descriptor bucket_index = do
  unlink page_descriptor (λ next. set_bucket bucket_index (λ c. record c { full_page_list = next }))
  b ← bucket bucket_index
  unless_null b.free_page_list
      (set_page b.full_page_list (λ q. record q { prev_page_descriptor = page_descriptor }))
  set_page page_descriptor (λ q. record q { prev_page_descriptor = null })
  first ← bucket 0
  set_page page_descriptor (λ q. record q { next_page_descriptor = first.full_page_list })
  set_bucket 0 (λ c. record c { full_page_list = page_descriptor })

module _ (vma : Vma) where
  pub allocate_page_for_bucket : ℕ → HeapM ℕ
  unfolding first_block blocks_of link_blocks add_free_page
  allocate_page_for_bucket bucket_id = do
    new_page ← vma.allocate 4096 vma_regular 0x61 no_backing
    if new_page == null then pure 1 else (do
      b ← bucket bucket_id
      set_page new_page (λ p. record p { total_blocks = blocks_of b.bucket_size })
      set_page new_page (λ p. record p { blocks_in_use = 0 })
      set_page new_page (λ p. record p { bucket_index = bucket_id })
      set_page new_page (λ p. record p { free_list = add64 new_page (first_block b.bucket_size) })
      link_blocks (blocks_of b.bucket_size - 1) b.bucket_size
          (add64 new_page (first_block b.bucket_size))
      add_free_page bucket_id new_page
      pure 0)

  -- kmalloc, from the index of the bucket on.
  pub kmalloc_in : ℕ → ℕ → HeapM ℕ
  unfolding allocate_page_for_bucket take_block
  kmalloc_in bucket_id size =
      if bucket_id == 255
      then vma.allocate (if size % 4096 == 0 then size else add64 size (4096 - size % 4096))
          vma_regular 0x61 no_backing
      else do
        b ← bucket bucket_id
        status ← if b.free_page_list == null then allocate_page_for_bucket bucket_id else pure 0
        if status == 0 then take_block bucket_id else pure null

  pub kmalloc : ℕ → HeapM ℕ
  unfolding get_bucket_from_size kmalloc_in
  kmalloc size = if size == 0 then pure null else kmalloc_in (get_bucket_from_size size) size

  -- kfree, where the page holds no block any more.
  pub cull : ℕ → ℕ → HeapM (Unit {0})
  unfolding unlink
  cull page_descriptor bucket_index = do
    unlink page_descriptor
        (λ next. set_bucket bucket_index (λ c. record c { free_page_list = next }))
    vma.free page_descriptor

  pub kfree : ℕ → HeapM (Unit {0})
  unfolding page_not_full cull
  kfree ptr =
      if ptr % 4096 == 0
      then vma.free ptr
      else let page_descriptor = ptr - ptr % 4096 in
        do
          p ← page page_descriptor
          store_word ptr p.free_list
          set_page page_descriptor (λ q. record q { free_list = ptr })
          set_page page_descriptor
              (λ q. record q { blocks_in_use = (q.blocks_in_use + 2 ^ 16 - 1) % 2 ^ 16 })
          p' ← page page_descriptor
          if p'.blocks_in_use + 1 == p'.total_blocks
              then page_not_full page_descriptor p.bucket_index
              else if p'.blocks_in_use == 0
              then cull page_descriptor p.bucket_index
              else pure tt
