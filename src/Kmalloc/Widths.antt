-- ===== src/Kmalloc/Widths.antt =====
-- Descriptors of kernel/x86_64/memory/kmalloc.c whose fields are within their widths.
use fesos.Prelude.{ℕ, ◌%◌, ◌^◌, ◌<◌, ◌≡◌, arith}
use fesos.Kmalloc.State.{PageDescriptor}

-- A descriptor with its fields cut to their widths.
abbrev pub cut : PageDescriptor → PageDescriptor
cut d = record {
  bucket_index = d.bucket_index % 2 ^ 8;
  blocks_in_use = d.blocks_in_use % 2 ^ 16;
  total_blocks = d.total_blocks % 2 ^ 16;
  free_list = d.free_list % 2 ^ 64;
  next_page_descriptor = d.next_page_descriptor % 2 ^ 64;
  prev_page_descriptor = d.prev_page_descriptor % 2 ^ 64;
}

-- Each field is within its width.
pub record IsDescriptor (d : PageDescriptor) : Type 0 where
  pub index_fits : d.bucket_index < 2 ^ 8
  pub in_use_fits : d.blocks_in_use < 2 ^ 16
  pub total_fits : d.total_blocks < 2 ^ 16
  pub free_fits : d.free_list < 2 ^ 64
  pub next_fits : d.next_page_descriptor < 2 ^ 64
  pub prev_fits : d.prev_page_descriptor < 2 ^ 64

pub cut_same : (d : PageDescriptor) → IsDescriptor d → cut d ≡ d
cut_same d i =
    let index : d.bucket_index % 2 ^ 8 ≡ d.bucket_index = omega (arith, i.index_fits) in
    let in_use : d.blocks_in_use % 2 ^ 16 ≡ d.blocks_in_use = omega (arith, i.in_use_fits) in
    let total : d.total_blocks % 2 ^ 16 ≡ d.total_blocks = omega (arith, i.total_fits) in
    let free : d.free_list % 2 ^ 64 ≡ d.free_list = omega (arith, i.free_fits) in
    let next : d.next_page_descriptor % 2 ^ 64 ≡ d.next_page_descriptor =
      omega (arith, i.next_fits) in
    let prev : d.prev_page_descriptor % 2 ^ 64 ≡ d.prev_page_descriptor =
      omega (arith, i.prev_fits) in
    λ j. record {
      bucket_index = index j;
      blocks_in_use = in_use j;
      total_blocks = total j;
      free_list = free j;
      next_page_descriptor = next j;
      prev_page_descriptor = prev j;
    }

module _ {d : PageDescriptor} (i : IsDescriptor d) {v : ℕ} where
  pub set_index-IsDescriptor : v < 2 ^ 8 → IsDescriptor (record d { bucket_index = v })
  set_index-IsDescriptor lt = record {
    index_fits = lt;
    in_use_fits = i.in_use_fits;
    total_fits = i.total_fits;
    free_fits = i.free_fits;
    next_fits = i.next_fits;
    prev_fits = i.prev_fits;
  }

  pub set_in_use-IsDescriptor : v < 2 ^ 16 → IsDescriptor (record d { blocks_in_use = v })
  set_in_use-IsDescriptor lt = record {
    index_fits = i.index_fits;
    in_use_fits = lt;
    total_fits = i.total_fits;
    free_fits = i.free_fits;
    next_fits = i.next_fits;
    prev_fits = i.prev_fits;
  }

  pub set_total-IsDescriptor : v < 2 ^ 16 → IsDescriptor (record d { total_blocks = v })
  set_total-IsDescriptor lt = record {
    index_fits = i.index_fits;
    in_use_fits = i.in_use_fits;
    total_fits = lt;
    free_fits = i.free_fits;
    next_fits = i.next_fits;
    prev_fits = i.prev_fits;
  }

  pub set_free-IsDescriptor : v < 2 ^ 64 → IsDescriptor (record d { free_list = v })
  set_free-IsDescriptor lt = record {
    index_fits = i.index_fits;
    in_use_fits = i.in_use_fits;
    total_fits = i.total_fits;
    free_fits = lt;
    next_fits = i.next_fits;
    prev_fits = i.prev_fits;
  }

  pub set_next-IsDescriptor : v < 2 ^ 64 → IsDescriptor (record d { next_page_descriptor = v })
  set_next-IsDescriptor lt = record {
    index_fits = i.index_fits;
    in_use_fits = i.in_use_fits;
    total_fits = i.total_fits;
    free_fits = i.free_fits;
    next_fits = lt;
    prev_fits = i.prev_fits;
  }

  pub set_prev-IsDescriptor : v < 2 ^ 64 → IsDescriptor (record d { prev_page_descriptor = v })
  set_prev-IsDescriptor lt = record {
    index_fits = i.index_fits;
    in_use_fits = i.in_use_fits;
    total_fits = i.total_fits;
    free_fits = i.free_fits;
    next_fits = i.next_fits;
    prev_fits = lt;
  }
