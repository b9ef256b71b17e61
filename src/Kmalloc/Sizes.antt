-- ===== src/Kmalloc/Sizes.antt =====
-- The bucket that kmalloc of kernel/x86_64/memory/kmalloc.c takes for a size.
use fesos.Prelude.{
  ℕ, zero, suc, ◌+◌, ◌-◌, ◌*◌, ◌^◌, ◌≤◌, ◌<◌, ◌≡◌, refl, and_left, and_right, ltb→lt, leb→le, Bool,
  true, ◌&&◌, ◌||◌, ltb, leb, arith,
}
use fesos.Prelude.Bits.{holds_below, holds_below_at}
use fesos.Kmalloc.State.{Bucket, Heap, HeapRun, returned, set_bucket, Ends, ends}
use fesos.Kmalloc.{bit_length, zeros_at_end, clzll, ctzll, get_bucket_from_size, kmalloc_init}

-- Bucket i is large enough for the size, and no bucket before it is.
suits : ℕ → ℕ → Bool
suits size i =
    ltb i 7 && leb size (16 * 2 ^ i) && holds_below (λ j. leb i j || ltb (16 * 2 ^ j) size) 7

all_suit : holds_below (λ n. suits (n + 1) (get_bucket_from_size (n + 1))) 1024 ≡ true
unfolding suits get_bucket_from_size clzll ctzll bit_length zeros_at_end holds_below
all_suit = refl

size_suits : (size : ℕ) → 0 < size → size ≤ 1024 → suits size (get_bucket_from_size size) ≡ true
size_suits size pos le =
    let at : size - 1 + 1 ≡ size = omega arith in
    rw at at (
      holds_below_at (λ n. suits (n + 1) (get_bucket_from_size (n + 1))) {x = size - 1} 1024
        (omega arith) all_suit)

pub get_bucket_from_size_small : (size : ℕ) → 0 < size → size ≤ 1024 → get_bucket_from_size size < 7
unfolding suits
get_bucket_from_size_small size pos le =
    ltb→lt _ 7 (and_left _ _ (and_left _ _ (size_suits size pos le)))

-- What bucket i is to a size.
pub record Fits (buckets : ℕ → Bucket) (size i : ℕ) : Type 0 where
  pub index : i < 7
  pub large : size ≤ (buckets i).bucket_size
  pub least : (j : ℕ) → j < i → (buckets j).bucket_size < size

-- The buckets that a run leaves.
buckets_of : (ℕ → Bucket) → HeapRun (Unit {0}) → ℕ → Bucket
buckets_of buckets (returned a h) = h.buckets
buckets_of buckets other = buckets

bucket_sizes :
    (h : Heap) (i : ℕ) → i < 7 → (buckets_of h.buckets (kmalloc_init h) i).bucket_size ≡ 16 * 2 ^ i
unfolding kmalloc_init set_bucket buckets_of
bucket_sizes h zero lt = refl
bucket_sizes h (suc zero) lt = refl
bucket_sizes h (suc (suc zero)) lt = refl
bucket_sizes h (suc (suc (suc zero))) lt = refl
bucket_sizes h (suc (suc (suc (suc zero)))) lt = refl
bucket_sizes h (suc (suc (suc (suc (suc zero))))) lt = refl
bucket_sizes h (suc (suc (suc (suc (suc (suc zero)))))) lt = refl
bucket_sizes h (suc (suc (suc (suc (suc (suc (suc i))))))) lt = absurd (omega arith)

suits-Fits :
    (h : Heap) (size i : ℕ)
    → suits size i ≡ true
    → Fits (buckets_of h.buckets (kmalloc_init h)) size i
unfolding suits
suits-Fits h size i e =
    let small : ltb i 7 ≡ true = and_left _ _ (and_left _ _ e) in
    let lt : i < 7 = ltb→lt i 7 small in
    record {
      index = lt;
      large = rw (bucket_sizes h i lt) (leb→le size _ (and_right (ltb i 7) _ (and_left _ _ e)));
      least = λ j less. rw (bucket_sizes h j (omega arith)) (
          ground (
            arith,
            holds_below_at (λ k. leb i k || ltb (16 * 2 ^ k) size) {x = j} 7 (omega arith)
                (and_right (ltb i 7 && leb size (16 * 2 ^ i)) _ e),
          ));
    }

-- For a size above 0 and up to 1024, kmalloc_init returns, and leaves buckets of which the one that
-- get_bucket_from_size gives is large enough for the size, and none before it is.
pub kmalloc_init-Fits :
    (h : Heap) (size : ℕ)
    → 0 < size
    → size ≤ 1024
    → Ends (λ _ h'. Fits h'.buckets size (get_bucket_from_size size)) (kmalloc_init h)
unfolding kmalloc_init set_bucket buckets_of
kmalloc_init-Fits h size pos le =
    ends (suits-Fits h size (get_bucket_from_size size) (size_suits size pos le))
