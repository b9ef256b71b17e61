-- ===== src/Pmm.antt =====
-- The physical memory manager, kernel/x86_64/memory/pmm.c: a bitmap with one bit for each frame of
-- 4096 bytes, kept in memory that the kernel reaches through its direct map of physical memory.
-- The log messages are left out; the one division that a log line makes is kept.
pub mod Bitmap
pub mod Claim
pub mod Probe
pub mod Search
pub mod Allocate
pub mod Free
mod Tests
use fesos.Prelude.{
  ℕ, zero, suc, ◌+◌, ◌-◌, ◌*◌, ◌/◌, ◌%◌, ◌^◌, Bool, true, false, Option, none, some, ◌==◌, ltb, leb,
  if◌then◌else◌, add64, sub64, mul64,
}
use fesos.Prelude.Bits.{bit, with_bit, without_bit}
use fesos.Machine.{Pmm, Kernel, Halt, panic, divide_error, out_of_fuel, Run, ok, halted}
use fesos.Machine.Memory.{Bytes, store8, load64, store64}

-- DIRECT_MAP_BASE
abbrev pub direct_map_base : ℕ
direct_map_base = 0xFFFF888000000000

-- The fields of boot_info that pmm_init reads.
pub record BootInfo : Type 0 where
  pub memory_bitmap_address : ℕ
  pub memory_bitmap_size : ℕ
  pub memory_physical_total_frames : ℕ
  pub memory_physical_used_frames : ℕ

pub pmm_init : Bytes → BootInfo → Kernel
pmm_init mem bi = record {
  mem = mem;
  pmm = record {
    bitmap = add64 bi.memory_bitmap_address direct_map_base;
    bitmap_size_bytes = bi.memory_bitmap_size;
    bitmap_size_frames = bi.memory_physical_total_frames;
    memory_total_frame_count = bi.memory_physical_total_frames;
    memory_used_frame_count = bi.memory_physical_used_frames;
  };
}

unfoldable pub get_bitmap_bit : Kernel → ℕ → ℕ
get_bitmap_bit k bit_number = bit (k.mem (k.pmm.bitmap + bit_number / 8)) (bit_number % 8)

pub set_bitmap_bit : Kernel → ℕ → Kernel
set_bitmap_bit k bit_number =
    let a = k.pmm.bitmap + bit_number / 8 in
    record k { mem = store8 k.mem a (with_bit (k.mem a) (bit_number % 8)) }

pub unset_bitmap_bit : Kernel → ℕ → Kernel
unset_bitmap_bit k bit_number =
    let a = k.pmm.bitmap + bit_number / 8 in
    record k { mem = store8 k.mem a (without_bit (k.mem a) (bit_number % 8)) }

-- `ptr[i] = 0` for the last `left` of the 512 words.
pub zero_words : Bytes → ℕ → ℕ → ℕ → Bytes
zero_words m ptr zero i = m
zero_words m ptr (suc left) i = zero_words (store64 m (ptr + 8 * i) 0) ptr left (i + 1)

pub pmm_zero_page : Kernel → ℕ → Kernel
unfolding zero_words
pmm_zero_page k p_addr = record k { mem = zero_words k.mem (add64 p_addr direct_map_base) 512 0 }

-- The inner loop with `left` rounds to go, `i` frames behind it: how many free frames it found in
-- a row, or `none` where it runs past the last frame.
pub probe : Kernel → ℕ → ℕ → ℕ → ℕ → Option ℕ
probe k base zero i found = some found
probe k base (suc left) i found =
    let rest = probe k base left (add64 i 1) (add64 found 1) in
    if leb k.pmm.bitmap_size_frames (add64 base i)
    then none
    else if get_bitmap_bit k (add64 base i) == 0
    then rest
    else some found

-- Where the next round of the outer loop shall begin after a word of 64 frames in use, less the
-- step that the loop adds.
pub skip_word : ℕ → ℕ → ℕ
skip_word step base =
    let next_available_bit = add64 base 64 in
    let remainder = next_available_bit % step in
    sub64
      (if remainder == 0 then next_available_bit else add64 next_available_bit (step - remainder))
      step

pub data Scan : Type 0 where
  found_at : ℕ → Scan
  exhausted out_of_rounds : Scan

-- The outer loop. The model gives it a number of rounds.
pub scan : Kernel → ℕ → ℕ → ℕ → ℕ → Scan
unfolding probe skip_word
scan k count step zero base = out_of_rounds
scan k count step (suc rounds) base =
    let after_word = scan k count step rounds (add64 (skip_word step base) step) in
    let after_base = scan k count step rounds (add64 base step) in
    let tried : Scan = elim (probe k base count 0 0) [
      | none ↦ exhausted
      | some found ↦ if found == count then found_at base else after_base
    ] in
    let word_full = load64 k.mem (k.pmm.bitmap + 8 * (base / 64)) == 2 ^ 64 - 1 in
    if ltb base k.pmm.bitmap_size_frames
    then (if base % 64 == 0 then (if word_full then after_word else tried) else tried)
    else exhausted

-- One round of the loop that takes the frames.
pub claim_frame : Kernel → ℕ → Kernel
claim_frame k n =
    let k' = pmm_zero_page (set_bitmap_bit k n) (mul64 n 0x1000) in
    record k' {
      pmm = record (k'.pmm) { memory_used_frame_count = add64 k'.pmm.memory_used_frame_count 1 };
    }

pub claim : Kernel → ℕ → ℕ → ℕ → Kernel
claim k base zero i = k
claim k base (suc left) i = claim (claim_frame k (add64 base i)) base left (add64 i 1)

-- The address of the first of `count` frames, 0 for NULL.
pub pmm_allocate_frames : ℕ → ℕ → Kernel → Run ℕ
unfolding scan claim claim_frame
pmm_allocate_frames count alignment k =
    if count == 0
    then ok 0 k
    else let alignment' = if ltb alignment 4096 then 4096 else alignment in
      let step = alignment' / 4096 in
      if k.pmm.memory_total_frame_count == 0
      then halted divide_error
      else elim (scan k count step (k.pmm.bitmap_size_frames + 1) 0) [
        | found_at base ↦ ok (mul64 base 4096) (claim k base count 0)
        | exhausted ↦ ok 0 k
        | out_of_rounds ↦ halted out_of_fuel
      ]

-- The loop of `pmm_free_frames` from frame `i` on.
pub release : Kernel → ℕ → ℕ → Run (Unit {0})
release k zero i = ok tt k
release k (suc left) i =
    let rest = release (unset_bitmap_bit k i) left (add64 i 1) in
    if get_bitmap_bit k i == 0 then halted panic else rest

pub pmm_free_frames : ℕ → ℕ → Kernel → Run (Unit {0})
unfolding release
pmm_free_frames start_address count k =
    if count == 0
    then ok tt k
    else let final_frame = add64 (start_address / 4096) count in
      if ltb k.pmm.bitmap_size_frames final_frame
      then halted panic
      else release k (final_frame - start_address / 4096) (start_address / 4096)
