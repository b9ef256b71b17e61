-- ===== src/Kmalloc/Links.antt =====
-- The loop of allocate_page_for_bucket of kernel/x86_64/memory/kmalloc.c, which links free blocks.
use fesos.Prelude.{
  ℕ, zero, suc, ◌+◌, ◌*◌, ◌%◌, ◌^◌, ◌≤◌, ◌<◌, ◌≢◌, ◌≡◌, ◌⊎◌, inl, inr, refl, ◌∙◌, arith, add64,
}
use fesos.Machine.Memory.{Bytes, load64, store64, store64_outside, load64-store64, load64_ext}
use fesos.Kmalloc.State.{Heap, returned, null}
use fesos.Kmalloc.{link_blocks}
use fesos.Kmalloc.Puts.{put_word, store_word_lem}

-- The memory with `left` links from `hole` on.
pub linked : ℕ → ℕ → ℕ → Bytes → Bytes
linked zero size hole m = m
linked (suc left) size hole m = linked left size (hole + size) (store64 m hole (hole + size))

pub linked_outside :
    (left size hole : ℕ) (m : Bytes) (x : ℕ)
    → 8 ≤ size
    → (x < hole) ⊎ (hole + left * size ≤ x)
    → linked left size hole m x ≡ m x
unfolding linked
linked_outside zero size hole m x wide out = refl
linked_outside (suc left) size hole m x wide (inl before) =
    linked_outside left size (hole + size) (store64 m hole (hole + size)) x wide (inl (omega arith))
    ∙ store64_outside m hole (hole + size) x (inl before)
linked_outside (suc left) size hole m x wide (inr after) =
    linked_outside left size (hole + size) (store64 m hole (hole + size)) x wide (inr (omega arith))
    ∙ store64_outside m hole (hole + size) x (inr (omega arith))

pub linked_at :
    (left size hole : ℕ) (m : Bytes) (k : ℕ)
    → 8 ≤ size
    → k < left
    → hole + left * size < 2 ^ 64
    → load64 (linked left size hole m) (hole + k * size) ≡ hole + (k + 1) * size
unfolding linked
linked_at zero size hole m k wide lt small = absurd (omega arith)
linked_at (suc left) size hole m zero wide lt small =
    let at : hole + 0 * size ≡ hole = omega arith in
    let to : hole + size ≡ hole + 1 * size = omega arith in
    rw at (
      load64_ext (store64 m hole (hole + size)) _ hole (λ i less.
        linked_outside left size (hole + size) (store64 m hole (hole + size)) (hole + i) wide
          (inl (omega arith)))
      ∙ load64-store64 m hole (hole + size) (omega arith)
      ∙ to)
linked_at (suc left) size hole m (suc k) wide lt small =
    let at : hole + suc k * size ≡ hole + size + k * size = omega arith in
    let to : hole + size + (k + 1) * size ≡ hole + (suc k + 1) * size = omega arith in
    rw at (
      linked_at left size (hole + size) (store64 m hole (hole + size)) k wide (omega arith)
        (omega arith)
      ∙ to)

-- The loop, for blocks that end below 2 ^ 64.
pub link_blocks_lem :
    (left size hole : ℕ) (h : Heap)
    → hole ≢ null
    → hole + left * size < 2 ^ 64
    → link_blocks left size hole h
      ≡ returned tt
          (record h { kernel = record h.kernel { mem = linked left size hole h.kernel.mem } })
unfolding link_blocks linked put_word
link_blocks_lem zero size hole h nn small = refl
link_blocks_lem (suc left) size hole h nn small =
    let next : (hole + size) % 2 ^ 64 ≡ hole + size = omega arith in
    rw (store_word_lem hole nn h (add64 hole size), next)
      (link_blocks_lem left size (hole + size) (put_word hole (hole + size) h) (omega arith)
        (omega arith))
