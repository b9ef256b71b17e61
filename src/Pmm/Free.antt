-- ===== src/Pmm/Free.antt =====
-- pmm_free_frames, and what it undoes of an allocation.
use fesos.Prelude.{
  ℕ, zero, suc, ◌+◌, ◌-◌, ◌*◌, ◌/◌, ◌%◌, ◌^◌, ◌≤◌, ◌<◌, ◌≡◌, refl, false, true, ◌⊎◌, inl, inr,
  arith, ◌==◌, ltb, leb, ◌&&◌, if◌then◌else◌, ◌∙◌, Bool-cases,
}
use fesos.Machine.{Kernel, Run, ok, halted, panic, and_then}
use fesos.Machine.Memory.{IsBytes, store8}
use fesos.Pmm.{get_bitmap_bit, unset_bitmap_bit, release, pmm_allocate_frames, pmm_free_frames}
use fesos.Pmm.Bitmap.{IsValid, bitmap_frame, get-unset_bitmap_bit, unset_bitmap_bit-IsBytes}
use fesos.Pmm.Claim.{IsClaimed, in_bitmap}
use fesos.Pmm.Probe.{Fits}
use fesos.Pmm.Allocate.{
  Allocated, null, taken, step_of, pmm_allocate_frames-Allocated, free_at, Fits-le,
}

-- `k'` is `k` with the bits of the frames from `base` on cleared, and no other variable, bit or
-- byte outside the bitmap changed.
pub record IsReleased (k : Kernel) (base count : ℕ) (k' : Kernel) : Type 0 where
  pub same_pmm : k'.pmm ≡ k.pmm
  pub bytes : IsBytes k'.mem
  pub bits :
      (j : ℕ)
      → get_bitmap_bit k' j ≡ (if leb base j && ltb j (base + count) then 0 else get_bitmap_bit k j)
  pub kept : (x : ℕ) → in_bitmap k x ≡ false → k'.mem x ≡ k.mem x

-- The frames from `base` on are in use.
abbrev pub InUse : Kernel → ℕ → ℕ → Type 0
InUse k base count = (j : ℕ) → base ≤ j → j < base + count → get_bitmap_bit k j ≡ 1

-- The run returns, with the frames from `base` on released.
pub data Released (k : Kernel) (base count : ℕ) (r : Run (Unit {0})) : Type 0 where
  released : (k' : Kernel) → r ≡ ok tt k' → IsReleased k base count k' → Released k base count r

module _ (k : Kernel) (i : ℕ) (bytes : IsBytes k.mem) where
  -- A change to the bit of a frame stays inside the bitmap.
  kept-unset_bitmap_bit :
      (x : ℕ)
      → i < 8 * k.pmm.bitmap_size_bytes
      → in_bitmap k x ≡ false
      → (unset_bitmap_bit k i).mem x ≡ k.mem x
  unfolding unset_bitmap_bit store8
  kept-unset_bitmap_bit x lt out = ground arith

  Released-suc :
      {left : ℕ} {r : Run (Unit {0})}
      → i < 8 * k.pmm.bitmap_size_bytes
      → Released (unset_bitmap_bit k i) (i + 1) left r
      → Released k i (suc left) r
  unfolding unset_bitmap_bit
  Released-suc lt (released k' e r) = released k' e (record {
    same_pmm = r.same_pmm;
    bytes = r.bytes;
    bits = λ j. ground (arith, r.bits j, get-unset_bitmap_bit k i j bytes);
    kept = λ x o. r.kept x o ∙ kept-unset_bitmap_bit x lt o;
  })

release-Released :
    (k : Kernel) (left i : ℕ)
    → IsBytes k.mem
    → i + left ≤ 8 * k.pmm.bitmap_size_bytes
    → i + left < 2 ^ 64
    → InUse k i left
    → Released k i left (release k left i)
unfolding release unset_bitmap_bit
release-Released k zero i bytes within small used =
    released k refl
      (record { same_pmm = refl; bytes = bytes; bits = λ j. ground arith; kept = λ x o. refl })
release-Released k (suc left) i bytes within small used =
    let next : (i + 1) % 2 ^ 64 ≡ i + 1 = omega arith in
    let at_i : (get_bitmap_bit k i == 0) ≡ false = ground (arith, used i) in
    rw (at_i, next)
      (Released-suc k i bytes (omega arith) (
        release-Released (unset_bitmap_bit k i) left (i + 1) (unset_bitmap_bit-IsBytes k i bytes)
          (omega arith) (omega arith)
          (λ j lo hi. ground (arith, used j, get-unset_bitmap_bit k i j bytes))))

-- A frame that is free already stops the loop.
release_panics :
    (k : Kernel) (left i n : ℕ)
    → IsBytes k.mem
    → i + left < 2 ^ 64
    → i ≤ n
    → n < i + left
    → get_bitmap_bit k n ≡ 0
    → release k left i ≡ halted panic
unfolding release
release_panics k zero i n bytes small lo hi free = absurd (omega arith)
release_panics k (suc left) i n bytes small lo hi free =
    elim (Bool-cases (get_bitmap_bit k i == 0)) [
      | inl now ↦ rw now
      | inr later ↦
          let next : (i + 1) % 2 ^ 64 ≡ i + 1 = omega arith in
          rw (later, next)
            (release_panics (unset_bitmap_bit k i) left (i + 1) n
              (unset_bitmap_bit-IsBytes k i bytes) (omega arith) (ground arith) (omega arith)
              (ground (arith, get-unset_bitmap_bit k i n bytes)))
    ]

-- In a well-formed bitmap, a call for frames that exist and are in use returns. It clears the bits
-- of these frames; no other bit, no byte outside the bitmap and none of the counters changes.
pub pmm_free_frames-Released :
    (k : Kernel) (base count : ℕ)
    → IsValid k
    → base + count ≤ k.pmm.bitmap_size_frames
    → InUse k base count
    → Released k base count (pmm_free_frames (base * 4096) count k)
unfolding pmm_free_frames
pmm_free_frames-Released k base zero v within used =
    released k refl
      (record { same_pmm = refl; bytes = v.bytes; bits = λ j. ground arith; kept = λ x o. refl })
pmm_free_frames-Released k base (suc count) v within used =
    let start : base * 4096 / 4096 ≡ base = omega arith in
    let sum : (base + suc count) % 2 ^ 64 ≡ base + suc count = omega (arith, v.fits) in
    let legal : ltb k.pmm.bitmap_size_frames (base + suc count) ≡ false = ground arith in
    let rounds : base + suc count - base ≡ suc count = omega arith in
    let some_frames : (suc count == 0) ≡ false = ground arith in
    rw (some_frames, start, sum, legal, rounds)
      (release-Released k (suc count) base v.bytes (omega (arith, v.covers)) (omega (arith, v.fits))
        used)

-- A call for frames of which one does not exist, or is free already, panics. The sum of the first
-- frame and the count must not wrap.
pub pmm_free_frames_panics :
    (k : Kernel) (start_address count : ℕ)
    → IsBytes k.mem
    → 0 < count
    → start_address / 4096 + count < 2 ^ 64
    → (k.pmm.bitmap_size_frames < start_address / 4096 + count)
      ⊎ ((n : ℕ) × (start_address / 4096 ≤ n)
          × (n < start_address / 4096 + count)
          × (get_bitmap_bit k n ≡ 0))
    → pmm_free_frames start_address count k ≡ halted panic
unfolding pmm_free_frames
pmm_free_frames_panics k start_address count bytes pos small (inl out) =
    let some_frames : (count == 0) ≡ false = ground arith in
    let sum : (start_address / 4096 + count) % 2 ^ 64 ≡ start_address / 4096 + count =
      omega arith in
    let illegal : ltb k.pmm.bitmap_size_frames (start_address / 4096 + count) ≡ true =
      ground arith in
    rw (some_frames, sum, illegal)
pmm_free_frames_panics k start_address count bytes pos small (inr (n, lo, hi, free)) =
    let some_frames : (count == 0) ≡ false = ground arith in
    let first = start_address / 4096 in
    let sum : (first + count) % 2 ^ 64 ≡ first + count = omega arith in
    let rounds : first + count - first ≡ count = omega arith in
    rw (some_frames, sum)
      (elim (Bool-cases (ltb k.pmm.bitmap_size_frames (first + count))) [
        | inl out ↦ rw out
        | inr inside ↦ rw (inside, rounds) (release_panics k count first n bytes small lo hi free)
      ])

-- Frames that hold neither the bitmap nor address 0 can be freed: the bitmap stays well formed.
pub IsReleased-IsValid :
    (k k' : Kernel) (base count : ℕ)
    → IsValid k
    → IsReleased k base count k'
    → 0 < base
    → ((i : ℕ)
        → i < k.pmm.bitmap_size_bytes
        → (bitmap_frame k i < base) ⊎ (base + count ≤ bitmap_frame k i))
    → IsValid k'
IsReleased-IsValid k k' base count v r pos apart = record {
  bytes = r.bytes;
  mapped = rw (r.same_pmm) (v.mapped);
  covers = rw (r.same_pmm) (v.covers);
  fits = rw (r.same_pmm) (v.fits);
  reserved =
      rw (r.same_pmm)
        (λ i h o. ground (arith, r.bits (bitmap_frame k i), v.reserved i h o, apart i h));
  null_used = ground (arith, r.bits 0, v.null_used);
}

-- A pair of calls, with what it leaves of the kernel that it started from.
pub data Restored (k : Kernel) (count : ℕ) (r : Run (Unit {0})) : Type 0 where
  restored :
      (k' : Kernel)
      → r ≡ ok tt k'
      → ((j : ℕ) → j < 8 * k.pmm.bitmap_size_bytes → get_bitmap_bit k' j ≡ get_bitmap_bit k j)
      → k'.pmm.memory_used_frame_count % 2 ^ 64 ≡ (k.pmm.memory_used_frame_count + count) % 2 ^ 64
      → Restored k count r

-- An allocation whose frames, if it got any, are freed again.
abbrev pub allocate_and_free : ℕ → ℕ → Kernel → Run (Unit {0})
allocate_and_free count alignment k =
    and_then (pmm_allocate_frames count alignment k)
      (λ p k'. if p == 0 then ok tt k' else pmm_free_frames p count k')

Restored-Released :
    (k k1 : Kernel) (base count : ℕ) {r : Run (Unit {0})}
    → Fits k count base
    → IsClaimed k base count k1
    → Released k1 base count r
    → Restored k count r
Restored-Released k k1 base count fits c (released k2 e r) =
    restored k2 e (λ j h. ground (arith, r.bits j, c.bits j h, free_at k base count fits j))
      (rw (r.same_pmm) (c.used))

-- For a well-formed bitmap, a total frame count above 0, a count above 0 and an alignment below
-- 2 ^ 64, where some base that is a multiple of the step of the search (the alignment in frames, at
-- least 1) has `count` free frames: an allocation of `count` frames followed by a call that frees them
-- returns and gives every bit of the bitmap its old value, but leaves memory_used_frame_count `count`
-- higher: freeing does not lower it.
pub pmm_free_frames-pmm_allocate_frames :
    (k : Kernel) (count alignment b : ℕ)
    → IsValid k
    → 0 < count
    → 0 < k.pmm.memory_total_frame_count
    → alignment < 2 ^ 64
    → b % step_of alignment ≡ 0
    → Fits k count b
    → Restored k count (allocate_and_free count alignment k)
pmm_free_frames-pmm_allocate_frames k count alignment b v pos total small m f =
    go (pmm_allocate_frames-Allocated k count alignment v pos total small)
  where
    go :
        {r : Run ℕ}
        → Allocated k count (step_of alignment) r
        → Restored k count
            (and_then r (λ p k'. if p == 0 then ok tt k' else pmm_free_frames p count k'))
    go (null e h) = absurd (h b m f)
    go (taken base k1 e base_pos mb fb least c v1) =
        let not_null : (base * 4096 == 0) ≡ false = ground arith in
        let within : base + count ≤ k1.pmm.bitmap_size_frames =
          omega (arith, c.same_frames, Fits-le k v count pos base fb) in
        rw (e, not_null)
          (Restored-Released k k1 base count fb c (
            pmm_free_frames-Released k1 base count v1 within
              (λ j lo hi. ground (arith, c.bits j, v.covers, c.same_frames))))
