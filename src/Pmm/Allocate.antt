-- ===== src/Pmm/Allocate.antt =====
-- pmm_allocate_frames as a whole.
use fesos.Prelude.{
  ℕ, ◌+◌, ◌-◌, ◌*◌, ◌/◌, ◌%◌, ◌^◌, ◌≤◌, ◌<◌, ◌≡◌, refl, false, arith, ◌==◌, ltb, if◌then◌else◌,
}
use native.Mathlib.Nat.{zero-mod}
use fesos.Machine.{Kernel, Run, ok, halted, out_of_fuel}
use fesos.Pmm.{get_bitmap_bit, Scan, found_at, exhausted, out_of_rounds, claim, pmm_allocate_frames}
use fesos.Pmm.Bitmap.{IsValid}
use fesos.Pmm.Claim.{IsClaimed, claim-IsClaimed}
use fesos.Pmm.Probe.{Fits}
use fesos.Pmm.Search.{Scanned, nothing, first, scan-Scanned}

-- The distance of two bases: the alignment in frames, at least one.
abbrev pub step_of : ℕ → ℕ
step_of alignment = (if ltb alignment 4096 then 4096 else alignment) / 4096

-- What a call says and does: NULL and no change where no aligned base has `count` free frames in a
-- row, else the address of the first that has, with those frames taken.
pub data Allocated (k : Kernel) (count step : ℕ) (r : Run ℕ) : Type 0 where
  null : r ≡ ok 0 k → ((b : ℕ) → b % step ≡ 0 → ¬ Fits k count b) → Allocated k count step r
  taken :
      (base : ℕ) (k' : Kernel)
      → r ≡ ok (base * 4096) k'
      → 0 < base
      → base % step ≡ 0
      → Fits k count base
      → ((b : ℕ) → b < base → b % step ≡ 0 → ¬ Fits k count b)
      → IsClaimed k base count k'
      → IsValid k'
      → Allocated k count step r

pub free_at :
    (k : Kernel) (base count : ℕ)
    → Fits k count base
    → (j : ℕ) → base ≤ j
    → j < base + count
    → get_bitmap_bit k j ≡ 0
free_at k base count f j lo hi =
    let at : base + (j - base) ≡ j = omega arith in rw at at ((f (j - base) (omega arith)).1)

module _ (k : Kernel) (v : IsValid k) (count : ℕ) (some_frames : 0 < count) where
  pub Fits-le : (base : ℕ) → Fits k count base → base + count ≤ k.pmm.bitmap_size_frames
  Fits-le base f = omega (arith, (f (count - 1) (omega arith)).0)

  base_pos : (base : ℕ) → Fits k count base → 0 < base
  base_pos base f = ground (arith, v.null_used, f 0 some_frames)

  -- The value that the search leads to.
  finish-Allocated :
      (step : ℕ) {r : Scan}
      → Scanned k count step 0 r
      → Allocated k count step (elim r [
        | found_at base ↦ ok (base * 4096 % 2 ^ 64) (claim k base count 0)
        | exhausted ↦ ok 0 k
        | out_of_rounds ↦ halted out_of_fuel
      ])
  finish-Allocated step (nothing e h) = rw e (null refl (λ b m. h b (omega arith) m))
  finish-Allocated step (first base e m f h) =
      let bound = Fits-le base f in
      let free : (j : ℕ) → base ≤ j → j < base + count → get_bitmap_bit k j ≡ 0 =
        free_at k base count f in
      let (claimed, valid) = claim-IsClaimed k base count v bound free in
      let address : base * 4096 % 2 ^ 64 ≡ base * 4096 = omega (arith, v.fits) in
      rw (e, address)
        (taken base (claim k base count 0) refl (base_pos base f) m f
          (λ b lt mb. h b (omega arith) lt mb) claimed valid)

-- With a well-formed bitmap a call returns, within the rounds that the model gives its loop. It
-- returns NULL and changes nothing exactly where no base that is a multiple of the step has `count`
-- free frames in a row inside the range of the bitmap. Else it returns the address of the first
-- base that has, which is not NULL, and these frames are taken: their bits are set, their bytes
-- cleared, the number of frames in use is raised by `count`, no other bit and no other byte outside
-- the bitmap changes, and the bitmap stays well formed.
pub pmm_allocate_frames-Allocated :
    (k : Kernel) (count alignment : ℕ)
    → IsValid k
    → 0 < count
    → 0 < k.pmm.memory_total_frame_count
    → alignment < 2 ^ 64
    → Allocated k count (step_of alignment) (pmm_allocate_frames count alignment k)
unfolding pmm_allocate_frames
pmm_allocate_frames-Allocated k count alignment v pos total small =
    let some_frames : (count == 0) ≡ false = ground arith in
    let has_total : (k.pmm.memory_total_frame_count == 0) ≡ false = ground arith in
    let step_pos : 0 < step_of alignment = ground arith in
    let step_small : step_of alignment < 2 ^ 52 = ground arith in
    let scanned =
      scan-Scanned k v count (step_of alignment) pos step_pos step_small
        (k.pmm.bitmap_size_frames + 1) 0 (zero-mod (step_of alignment)) (omega arith) (omega arith)
        (omega arith) in
    rw (some_frames, has_total) (finish-Allocated k v count pos (step_of alignment) scanned)
