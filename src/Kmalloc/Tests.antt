-- ===== src/Kmalloc/Tests.antt =====
-- Runs on a heap with a page at 0x3000 for blocks of 64 bytes.
use fesos.Prelude.{ℕ, ◌%◌, ◌≡◌, refl, ◌==◌, if◌then◌else◌, arith}
use fesos.Machine.Memory.{IsBytes, load64, store64, store8}
use fesos.Kmalloc.Descriptors.{store_descriptor-IsBytes}
use fesos.Kmalloc.State.{
  PageDescriptor, load16, store16, load_descriptor, store_descriptor, pages, Heap, returned,
  faulted, pure, ◌>>=◌, Vma, Ends,
}
use fesos.Kmalloc.{
  bit_length, zeros_at_end, clzll, ctzll, get_bucket_from_size, allocate_page_for_bucket, kmalloc,
  kfree, kmalloc_init,
}
use fesos.Kmalloc.Sizes.{Fits, kmalloc_init-Fits}
use fesos.Kmalloc.Carve.{Carved, allocate_page_for_bucket-Carved}
use fesos.Kmalloc.Reuse.{Usable, kfree-kmalloc}
use fesos.Kmalloc.Full.{LastFull, Lost, kfree_faults, kfree-Lost}

abbrev areas : Vma
areas = record { allocate = λ size type flags backing. pure 0x5000; free = λ address. pure tt }

abbrev page_with : ℕ → PageDescriptor
page_with blocks_in_use = record {
  bucket_index = 2;
  blocks_in_use = blocks_in_use;
  total_blocks = 63;
  free_list = 0x3080;
  next_page_descriptor = 0;
  prev_page_descriptor = 0;
}

-- Bucket 2, with the heads of its two lists, and the number of blocks in use in the page at 0x3000.
abbrev heap : ℕ → ℕ → ℕ → Heap
heap free_page_list full_page_list blocks_in_use = record {
  kernel = record {
    mem = store_descriptor (λ a. a % 256) 0x3000 (page_with blocks_in_use);
    pmm = record {
      bitmap = 0;
      bitmap_size_bytes = 0;
      bitmap_size_frames = 0;
      memory_total_frame_count = 0;
      memory_used_frame_count = 0;
    };
  };
  buckets = λ i.
      if i == 2
      then record {
        bucket_size = 64;
        free_page_list = free_page_list;
        full_page_list = full_page_list;
      }
      else record { bucket_size = 0; free_page_list = 0; full_page_list = 0 };
}

heap-IsBytes :
    (free_page_list full_page_list blocks_in_use : ℕ)
    → IsBytes (heap free_page_list full_page_list blocks_in_use).kernel.mem
heap-IsBytes free_page_list full_page_list blocks_in_use =
    store_descriptor-IsBytes 0x3000 (page_with blocks_in_use) (λ a. ground arith)

kmalloc_init-Fits_example :
    Ends (λ _ h'. Fits h'.buckets 100 (get_bucket_from_size 100)) (kmalloc_init (heap 0 0 0))
kmalloc_init-Fits_example = kmalloc_init-Fits (heap 0 0 0) 100 (omega arith) (omega arith)

allocate_page_for_bucket-Carved_example :
    Ends
      (λ status h'. (status ≡ 0) × Carved 2 0x5000 64 (heap 0 0 0) h')
      (allocate_page_for_bucket areas 2 (heap 0 0 0))
allocate_page_for_bucket-Carved_example =
    allocate_page_for_bucket-Carved areas 2 0x5000 64 (heap 0 0 0) (heap 0 0 0) refl (omega arith)
      (omega arith) (omega arith) (heap-IsBytes 0 0 0) refl (omega arith) (omega arith) refl

usable : Usable (heap 0x3000 0 5) (get_bucket_from_size 40)
unfolding get_bucket_from_size clzll ctzll bit_length zeros_at_end pages load_descriptor
    store_descriptor load16 store16 load64 store64 store8
usable = record {
  present = omega arith;
  aligned = refl;
  above = omega arith;
  below = omega arith;
  used = omega arith;
  room = omega arith;
  width = omega arith;
  bytes = heap-IsBytes 0x3000 0 5;
}

kfree-kmalloc_example :
    (kmalloc areas 40 >>= (λ ptr. kfree areas ptr)) (heap 0x3000 0 5)
    ≡ returned tt (heap 0x3000 0 5)
kfree-kmalloc_example = kfree-kmalloc areas (heap 0x3000 0 5) 40 (omega arith) (omega arith) usable

last_full : (free_page_list : ℕ) → LastFull (heap free_page_list 0x3000 63) 2 0x3000 0x3040
unfolding pages load_descriptor store_descriptor load16 store16 load64 store64 store8
last_full free_page_list = record {
  present = omega arith;
  aligned = refl;
  above = omega arith;
  below = omega arith;
  in_range = omega arith;
  bytes = heap-IsBytes free_page_list 0x3000 63;
  index = refl;
  full = refl;
  blocks = omega arith;
  width = omega arith;
  head = refl;
  first = refl;
  last = refl;
}

kfree_faults_example : kfree areas 0x3040 (heap 0x4000 0x3000 63) ≡ faulted
kfree_faults_example =
    kfree_faults areas (heap 0x4000 0x3000 63) 2 0x3000 0x3040 (last_full 0x4000) (omega arith)

kfree-Lost_example : Ends (λ _ h'. Lost 2 0x3000 h') (kfree areas 0x3040 (heap 0 0x3000 63))
kfree-Lost_example =
    kfree-Lost areas (heap 0 0x3000 63) 2 0x3000 0x3040 (last_full 0) (omega arith) refl
