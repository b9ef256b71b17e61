-- ===== src/Pmm/Tests.antt =====
-- A machine with 16 frames: frame 0, the frame 1 of the bitmap and frame 2 are in use.
use fesos.Prelude.{
  ℕ, zero, suc, ◌+◌, ◌*◌, ◌≡◌, ◌<◌, refl, arith, ◌==◌, if◌then◌else◌, inr, ◌-◌, ◌/◌, ◌≤◌,
}
use fesos.Machine.{Kernel, Run, ok, halted, panic}
use fesos.Machine.Memory.{Bytes, load64}
use fesos.Pmm.{
  direct_map_base, get_bitmap_bit, set_bitmap_bit, pmm_zero_page, pmm_allocate_frames,
  pmm_free_frames,
}
use fesos.Pmm.Bitmap.{IsValid}
use fesos.Pmm.Allocate.{Allocated, step_of, pmm_allocate_frames-Allocated}
use fesos.Pmm.Free.{
  Released, Restored, allocate_and_free, pmm_free_frames-Released, pmm_free_frames_panics,
  pmm_free_frames-pmm_allocate_frames,
}

abbrev memory : Bytes
memory a = if a == direct_map_base + 4096 then 7 else if a == direct_map_base + 4097 then 0 else 170

abbrev machine : Kernel
machine = record {
  mem = memory;
  pmm = record {
    bitmap = direct_map_base + 4096;
    bitmap_size_bytes = 2;
    bitmap_size_frames = 16;
    memory_total_frame_count = 16;
    memory_used_frame_count = 3;
  };
}

address_of : Run ℕ → ℕ
address_of (ok p k) = p
address_of (halted h) = 1

word_of : Run ℕ → ℕ → ℕ
word_of (ok p k) n = get_bitmap_bit k n
word_of (halted h) n = 9

-- Frame 3 is free and not aligned to two frames; the frames 4 and 5 are.
allocate_two : address_of (pmm_allocate_frames 2 8192 machine) ≡ 4 * 4096
unfolding address_of pmm_allocate_frames get_bitmap_bit set_bitmap_bit pmm_zero_page load64
allocate_two = refl

allocate_too_many : address_of (pmm_allocate_frames 14 4096 machine) ≡ 0
unfolding address_of pmm_allocate_frames get_bitmap_bit load64
allocate_too_many = refl

machine-IsValid : IsValid machine
unfolding get_bitmap_bit
machine-IsValid = record {
  bytes = λ a. ground arith;
  mapped = omega arith;
  covers = omega arith;
  fits = omega arith;
  reserved = reserved;
  null_used = refl;
}
  where
    reserved :
        (i : ℕ)
        → i < 2
        → (direct_map_base + 4096 + i - direct_map_base) / 4096 < 16
        → get_bitmap_bit machine ((direct_map_base + 4096 + i - direct_map_base) / 4096) ≡ 1
    reserved zero h o = refl
    reserved (suc zero) h o = refl
    reserved (suc (suc i)) h o = absurd (omega arith)

pmm_allocate_frames-Allocated_example :
    Allocated machine 2 (step_of 8192) (pmm_allocate_frames 2 8192 machine)
pmm_allocate_frames-Allocated_example =
    pmm_allocate_frames-Allocated machine 2 8192 machine-IsValid (omega arith) (omega arith)
      (omega arith)

frame_two_InUse : (j : ℕ) → 2 ≤ j → j < 2 + 1 → get_bitmap_bit machine j ≡ 1
unfolding get_bitmap_bit
frame_two_InUse zero lo hi = absurd (omega arith)
frame_two_InUse (suc zero) lo hi = absurd (omega arith)
frame_two_InUse (suc (suc zero)) lo hi = refl
frame_two_InUse (suc (suc (suc j))) lo hi = absurd (omega arith)

pmm_free_frames-Released_example : Released machine 2 1 (pmm_free_frames (2 * 4096) 1 machine)
pmm_free_frames-Released_example =
    pmm_free_frames-Released machine 2 1 machine-IsValid (omega arith) frame_two_InUse

frame_three_free : get_bitmap_bit machine 3 ≡ 0
unfolding get_bitmap_bit
frame_three_free = refl

pmm_free_frames_panics_example : pmm_free_frames 8192 2 machine ≡ halted panic
pmm_free_frames_panics_example =
    pmm_free_frames_panics machine 8192 2 (machine-IsValid.bytes) (omega arith) (omega arith)
      (inr (3, omega arith, omega arith, frame_three_free))

two_frames_fit : (i : ℕ) → i < 2 → (4 + i < 16) × (get_bitmap_bit machine (4 + i) ≡ 0)
unfolding get_bitmap_bit
two_frames_fit zero h = (omega arith, refl)
two_frames_fit (suc zero) h = (omega arith, refl)
two_frames_fit (suc (suc i)) h = absurd (omega arith)

pmm_free_frames-pmm_allocate_frames_example : Restored machine 2 (allocate_and_free 2 8192 machine)
pmm_free_frames-pmm_allocate_frames_example =
    pmm_free_frames-pmm_allocate_frames machine 2 8192 4 machine-IsValid (omega arith) (omega arith)
      (omega arith) refl two_frames_fit
