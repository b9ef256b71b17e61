-- ===== src/Pmm/Claim.antt =====
-- The loop of pmm_allocate_frames that marks the frames it found, clears and counts them.
use fesos.Prelude.{
  ℕ, zero, suc, ◌+◌, ◌-◌, ◌*◌, ◌/◌, ◌%◌, ◌^◌, ◌≤◌, ◌<◌, ◌≡◌, refl, Bool, true, false, ◌&&◌, arith,
  ◌==◌, leb, ltb, if◌then◌else◌, mul64, ◌∙◌,
}
use fesos.Machine.{Kernel}
use fesos.Machine.Memory.{IsBytes, store8}
use fesos.Pmm.{direct_map_base, get_bitmap_bit, set_bitmap_bit, pmm_zero_page, claim_frame, claim}
use fesos.Pmm.Bitmap.{
  bitmap_frame, IsValid, get-set_bitmap_bit, pmm_zero_page_lem, pmm_zero_page-IsBytes,
  set_bitmap_bit-IsBytes, get_bitmap_bit_ext,
}

-- The bytes of the frames from `base` on, in the direct map.
abbrev pub in_frames : ℕ → ℕ → ℕ → Bool
in_frames base count x =
    leb (direct_map_base + 4096 * base) x && ltb x (direct_map_base + 4096 * (base + count))

abbrev pub in_bitmap : Kernel → ℕ → Bool
in_bitmap k x = leb k.pmm.bitmap x && ltb x (k.pmm.bitmap + k.pmm.bitmap_size_bytes)

-- `k'` is `k` with the frames from `base` on taken: their bits set, their bytes cleared, `count`
-- added to the number of frames in use, and nothing else changed.
pub record IsClaimed (k : Kernel) (base count : ℕ) (k' : Kernel) : Type 0 where
  pub same_bitmap : k'.pmm.bitmap ≡ k.pmm.bitmap
  pub same_bytes : k'.pmm.bitmap_size_bytes ≡ k.pmm.bitmap_size_bytes
  pub same_frames : k'.pmm.bitmap_size_frames ≡ k.pmm.bitmap_size_frames
  pub same_total : k'.pmm.memory_total_frame_count ≡ k.pmm.memory_total_frame_count
  pub used :
      k'.pmm.memory_used_frame_count % 2 ^ 64 ≡ (k.pmm.memory_used_frame_count + count) % 2 ^ 64
  pub bits :
      (j : ℕ)
      → j < 8 * k.pmm.bitmap_size_bytes
      → get_bitmap_bit k' j ≡ (if leb base j && ltb j (base + count) then 1 else get_bitmap_bit k j)
  pub cleared : (x : ℕ) → in_frames base count x ≡ true → k'.mem x ≡ 0
  pub kept : (x : ℕ) → in_frames base count x ≡ false → in_bitmap k x ≡ false → k'.mem x ≡ k.mem x

module _ (k : Kernel) (v : IsValid k) (f : ℕ) (f_lt : f < k.pmm.bitmap_size_frames)
    (free : get_bitmap_bit k f ≡ 0) where
  open v use {bytes, mapped, covers, fits, reserved}

  -- A free frame holds no byte of the bitmap.
  apart : (i : ℕ) → i < k.pmm.bitmap_size_bytes → in_frames f 1 (k.pmm.bitmap + i) ≡ false
  apart i h = ground (arith, reserved i)

  apart_at : (x : ℕ) → in_frames f 1 x ≡ true → in_bitmap k x ≡ false
  apart_at x h = ground (arith, reserved (x - k.pmm.bitmap))

  mem-claim_frame :
      (x : ℕ)
      → (claim_frame k f).mem x ≡ (if in_frames f 1 x then 0 else (set_bitmap_bit k f).mem x)
  unfolding claim_frame
  mem-claim_frame x = ground (arith, pmm_zero_page_lem (set_bitmap_bit k f) (mul64 f 4096) x)

  get-claim_frame :
      (j : ℕ)
      → j < 8 * k.pmm.bitmap_size_bytes
      → get_bitmap_bit (claim_frame k f) j ≡ (if f == j then 1 else get_bitmap_bit k j)
  unfolding claim_frame pmm_zero_page set_bitmap_bit
  get-claim_frame j h =
      let same : (claim_frame k f).mem (k.pmm.bitmap + j / 8)
          ≡ (set_bitmap_bit k f).mem (k.pmm.bitmap + j / 8) =
        mem-claim_frame (k.pmm.bitmap + j / 8) ∙ rw (apart (j / 8) (omega arith)) refl in
      get_bitmap_bit_ext (set_bitmap_bit k f) (claim_frame k f) j refl same
      ∙ get-set_bitmap_bit k f j bytes

  claim_frame-IsBytes : IsBytes (claim_frame k f).mem
  unfolding claim_frame
  claim_frame-IsBytes =
      pmm_zero_page-IsBytes (set_bitmap_bit k f) _ (set_bitmap_bit-IsBytes k f bytes)

  -- One round takes one frame.
  claim_frame-IsClaimed : IsClaimed k f 1 (claim_frame k f)
  unfolding claim_frame pmm_zero_page set_bitmap_bit store8
  claim_frame-IsClaimed = record {
    same_bitmap = refl;
    same_bytes = refl;
    same_frames = refl;
    same_total = refl;
    used = omega arith;
    bits = λ j h. ground (arith, get-claim_frame j h);
    cleared = λ x h. ground (arith, mem-claim_frame x);
    kept = λ x h o. ground (arith, mem-claim_frame x);
  }

  claim_frame-IsValid : IsValid (claim_frame k f)
  unfolding claim_frame pmm_zero_page set_bitmap_bit
  claim_frame-IsValid = record {
    bytes = claim_frame-IsBytes;
    mapped = mapped;
    covers = covers;
    fits = fits;
    reserved = λ i h o. ground (arith, reserved i h, get-claim_frame (bitmap_frame k i));
    null_used = ground (arith, v.null_used, get-claim_frame 0);
  }

IsClaimed-trans :
    (k k1 k2 : Kernel) (base n : ℕ)
    → IsClaimed k base 1 k1
    → IsClaimed k1 (base + 1) n k2
    → ((x : ℕ) → in_frames base 1 x ≡ true → in_bitmap k x ≡ false)
    → IsClaimed k base (suc n) k2
IsClaimed-trans k k1 k2 base n a b out = record {
  same_bitmap = b.same_bitmap ∙ a.same_bitmap;
  same_bytes = b.same_bytes ∙ a.same_bytes;
  same_frames = b.same_frames ∙ a.same_frames;
  same_total = b.same_total ∙ a.same_total;
  used = omega (arith, a.used, b.used);
  bits = λ j h. ground (arith, a.bits j h, b.bits j, a.same_bytes);
  cleared =
      λ x h. ground (arith, a.same_bitmap, a.same_bytes, a.cleared x, b.cleared x, b.kept x, out x);
  kept = λ x h o. ground (arith, a.same_bitmap, a.same_bytes, a.kept x, b.kept x);
}

-- The rounds from `i` on take the frames from `n`, that is `base + i`, on.
claim_from-IsClaimed :
    (k : Kernel) (left base i n : ℕ)
    → n ≡ base + i
    → IsValid k
    → n + left ≤ k.pmm.bitmap_size_frames
    → ((j : ℕ) → n ≤ j → j < n + left → get_bitmap_bit k j ≡ 0)
    → IsClaimed k n left (claim k base left i) × IsValid (claim k base left i)
unfolding claim
claim_from-IsClaimed k zero base i n e v fits free = (
  record {
    same_bitmap = refl;
    same_bytes = refl;
    same_frames = refl;
    same_total = refl;
    used = omega arith;
    bits = λ j h. ground arith;
    cleared = λ x h. ground arith;
    kept = λ x h o. refl;
  },
  v,
)
claim_from-IsClaimed k (suc left) base i n e v fits free =
    let at_n : (base + i) % 2 ^ 64 ≡ n = omega (arith, v.fits) in
    let next : (i + 1) % 2 ^ 64 ≡ i + 1 = omega (arith, v.fits) in
    let free_n : get_bitmap_bit k n ≡ 0 = free n (omega arith) (omega arith) in
    let n_lt : n < k.pmm.bitmap_size_frames = omega arith in
    let one = claim_frame-IsClaimed k v n n_lt free_n in
    let (rest, valid) =
      claim_from-IsClaimed (claim_frame k n) left base (i + 1) (n + 1) (omega arith)
        (claim_frame-IsValid k v n n_lt free_n) (omega (arith, one.same_frames))
        (λ j lo hi. ground (arith, one.bits j, free j, v.covers)) in
    rw (at_n, next)
      (
        IsClaimed-trans k (claim_frame k n) (claim (claim_frame k n) base left (i + 1)) n left one
            rest (apart_at k v n n_lt free_n),
        valid,
      )

-- On free frames the loop takes exactly those, and the bitmap stays well formed.
pub claim-IsClaimed :
    (k : Kernel) (base count : ℕ)
    → IsValid k
    → base + count ≤ k.pmm.bitmap_size_frames
    → ((j : ℕ) → base ≤ j → j < base + count → get_bitmap_bit k j ≡ 0)
    → IsClaimed k base count (claim k base count 0) × IsValid (claim k base count 0)
claim-IsClaimed k base count v fits free =
    claim_from-IsClaimed k count base 0 base (omega arith) v fits free
