-- ===== src/Vmm/Tests.antt =====
-- A machine with 16 frames, of which 0 to 6 are in use: the frame 1 for the bitmap, and one table of
-- each level in the frames 3 to 6, for the addresses from 0 on.
use fesos.Prelude.{ℕ, zero, suc, ◌+◌, ◌-◌, ◌*◌, ◌/◌, ◌<◌, ◌≡◌, refl, arith, ◌==◌, if◌then◌else◌}
use fesos.Machine.{Kernel, Run, ok, halted, and_then, done, Returns, returns}
use fesos.Machine.Memory.{Bytes, load64, store64}
use fesos.Pmm.{direct_map_base, get_bitmap_bit}
use fesos.Pmm.Bitmap.{IsValid}
use fesos.Vmm.{
  decode, encode, entry_at, read_entry, write_entry, page_directory, vmm_walk_and_crate_next_table,
  vmm_map_loop, vmm_map, vmm_unmap, vmm_get_physical_from_virtual, vmm_pin_pages,
}
use fesos.Vmm.Slots.{Stored}
use fesos.Vmm.Present.{PageWalk}
use fesos.Vmm.Map.{Mapped, Unmapped, vmm_map-Mapped, vmm_unmap-Unmapped}
use fesos.Vmm.Translate.{Translates, vmm_get_physical_from_virtual-vmm_map, vmm_unmap-vmm_map}
use fesos.Vmm.Table.{IsTable}
use fesos.Vmm.Walk.{Walked, vmm_walk_and_crate_next_table-Walked}
use fesos.Vmm.Pin.{Pinned, vmm_pin_pages-Pinned}

abbrev memory : Bytes
memory a =
    if a == direct_map_base + 4096
    then 127
    else if a == direct_map_base + 0x3000
    then 7
    else if a == direct_map_base + 0x3001
    then 0x40
    else if a == direct_map_base + 0x4000
    then 7
    else if a == direct_map_base + 0x4001
    then 0x50
    else if a == direct_map_base + 0x5000
    then 7
    else if a == direct_map_base + 0x5001
    then 0x60
    else 0

abbrev machine : Kernel
machine = record {
  mem = memory;
  pmm = record {
    bitmap = direct_map_base + 4096;
    bitmap_size_bytes = 2;
    bitmap_size_frames = 16;
    memory_total_frame_count = 16;
    memory_used_frame_count = 7;
  };
}

abbrev pml4 : ℕ
pml4 = direct_map_base + 0x3000

abbrev leaf : ℕ → ℕ
leaf i = direct_map_base + 0x6000 + 8 * (5 + i)

walks : (i : ℕ) → i < 2 → PageWalk memory pml4 0x5000 2 leaf i
unfolding decode load64 entry_at
walks zero lt = record {
  pdpt = direct_map_base + 0x4000;
  pd = direct_map_base + 0x5000;
  pt = direct_map_base + 0x6000;
  link4 = record { here = λ e. omega arith; target = refl };
  link3 = record { here = λ e. omega arith; target = refl };
  link2 = record { here = λ e. omega arith; target = refl };
  no_huge = refl;
  leaf_at = refl;
  apart4 = λ j l. ground arith;
  apart3 = λ j l. ground arith;
  apart2 = λ j l. ground arith;
  distinct = λ j l ne. ground arith;
}
walks (suc zero) lt = record {
  pdpt = direct_map_base + 0x4000;
  pd = direct_map_base + 0x5000;
  pt = direct_map_base + 0x6000;
  link4 = record { here = λ e. omega arith; target = refl };
  link3 = record { here = λ e. omega arith; target = refl };
  link2 = record { here = λ e. omega arith; target = refl };
  no_huge = refl;
  leaf_at = refl;
  apart4 = λ j l. ground arith;
  apart3 = λ j l. ground arith;
  apart2 = λ j l. ground arith;
  distinct = λ j l ne. ground arith;
}
walks (suc (suc i)) lt = absurd (omega arith)

absent : (i : ℕ) → i < 2 → (decode (load64 memory (leaf i))).present ≡ 0
unfolding decode load64
absent zero lt = refl
absent (suc zero) lt = refl
absent (suc (suc i)) lt = absurd (omega arith)

vmm_map-Mapped_example : Mapped machine leaf 0x9000 3 2 (vmm_map pml4 0x5000 0x9000 2 3 machine)
vmm_map-Mapped_example =
    vmm_map-Mapped machine pml4 0x5000 0x9000 2 3 leaf walks (omega arith) (omega arith) refl
      (omega arith)

vmm_unmap-Unmapped_example : Unmapped machine leaf 2 (vmm_unmap pml4 0x5000 2 machine)
vmm_unmap-Unmapped_example =
    vmm_unmap-Unmapped machine pml4 0x5000 2 leaf walks (omega arith) (omega arith)

vmm_get_physical_from_virtual-vmm_map_example :
    Returns
      (λ s k'. (s ≡ done) × Translates pml4 0x5000 0x9000 2 k')
      (vmm_map pml4 0x5000 0x9000 2 3 machine)
vmm_get_physical_from_virtual-vmm_map_example =
    vmm_get_physical_from_virtual-vmm_map machine pml4 0x5000 0x9000 2 3 leaf walks absent
      (omega arith) (omega arith) refl (omega arith)

vmm_unmap-vmm_map_example :
    Returns
      (λ s k'. (s ≡ done) × Stored leaf (λ _. 0) machine 2 k')
      (and_then (vmm_map pml4 0x5000 0x9000 2 3 machine) (λ _ k'. vmm_unmap pml4 0x5000 2 k'))
vmm_unmap-vmm_map_example =
    vmm_unmap-vmm_map machine pml4 0x5000 0x9000 2 3 leaf walks absent (omega arith) (omega arith)
      refl (omega arith)

vmm_pin_pages-Pinned_example :
    Pinned machine leaf 2 1 (vmm_pin_pages (λ x k. ok 0 k) 8 pml4 0x5000 5000 1 machine)
vmm_pin_pages-Pinned_example =
    vmm_pin_pages-Pinned (λ x k. ok 0 k) machine 8 pml4 0x5000 5000 1 leaf (λ x k. returns refl)
      walks (omega arith) (omega arith) (omega arith) (omega arith)

machine-IsValid : IsValid machine
unfolding get_bitmap_bit
machine-IsValid = record {
  bytes = λ a. ground arith;
  mapped = omega arith;
  covers = omega arith;
  fits = omega arith;
  reserved = reserved;
  null_used = refl;
}
  where
    reserved :
        (i : ℕ)
        → i < 2
        → (direct_map_base + 4096 + i - direct_map_base) / 4096 < 16
        → get_bitmap_bit machine ((direct_map_base + 4096 + i - direct_map_base) / 4096) ≡ 1
    reserved zero h o = refl
    reserved (suc zero) h o = refl
    reserved (suc (suc i)) h o = absurd (omega arith)

pml4-IsTable : IsTable machine pml4
unfolding get_bitmap_bit
pml4-IsTable = record {
  frame = 3;
  at = refl;
  exists = omega arith;
  used = refl;
  no_bitmap = λ i lt e. omega arith;
}

vmm_walk_and_crate_next_table-Walked_example :
    Walked machine pml4 9 (vmm_walk_and_crate_next_table pml4 9 machine)
vmm_walk_and_crate_next_table-Walked_example =
    vmm_walk_and_crate_next_table-Walked machine pml4 9 machine-IsValid (omega arith) pml4-IsTable
      (omega arith)

-- A page at 2 MB that is mapped as a huge page.
-- Two huge pages are mapped to the same physical address.
huge_second : Run ℕ → ℕ
huge_second (ok p k) = p
huge_second (halted h) = 1

huge_pages_share_a_frame :
    huge_second (
      and_then
        (vmm_map pml4 0x400000 0x600000 2 0x13 machine)
        (λ _ k. vmm_get_physical_from_virtual pml4 0x600000 k))
    ≡ 0x600000
unfolding huge_second vmm_map vmm_get_physical_from_virtual decode encode load64 store64
    vmm_map_loop page_directory vmm_walk_and_crate_next_table entry_at read_entry write_entry
huge_pages_share_a_frame = refl
