-- ===== src/Lbd/Tests.antt =====
-- Runs with a drive of 100 sectors, in a memory where every page is mapped.
use fesos.Prelude.{
  ℕ, ◌+◌, ◌-◌, ◌%◌, ◌^◌, ◌<◌, ◌≡◌, ◌≢◌, refl, arith, ◌==◌, ltb, if◌then◌else◌, some,
}
use fesos.Machine.{ScatterBlock, error, Kernel, Run, ok, halted}
use fesos.Machine.Memory.{load64}
use fesos.Vmm.{
  decode, entry_at, read_entry, vmm_walk_and_crate_next_table, page_directory, vmm_get_pte,
  vmm_pin_loop, vmm_pin_pages,
}
use fesos.Lbd.{
  DriverApi, LogicalDrive, Drives, drive_at, lbd_register_drive, byte_size, is_error, submit_read,
  lbd_read, lbd_write,
}
use fesos.Lbd.InRange.{AgreeInRange, lbd_read-AgreeInRange}
use fesos.Lbd.Register.{registered, lbd_register_drive-registered}

abbrev machine : Kernel
machine = record {
  mem = λ _. 255;
  pmm = record {
    bitmap = 0;
    bitmap_size_bytes = 0;
    bitmap_size_frames = 0;
    memory_total_frame_count = 0;
    memory_used_frame_count = 0;
  };
}

-- A driver that answers a read with the sector, and one that refuses what is out of range.
abbrev echo : DriverApi
echo = record {
  read = λ lba count buffer k. ok lba k;
  write = λ lba count buffer k. ok 0 k;
  flush = λ k. ok 0 k;
}

abbrev strict : DriverApi
strict = record {
  read = λ lba count buffer k. if ltb (lba + count) 100 then ok lba k else ok 5 k;
  write = λ lba count buffer k. ok 0 k;
  flush = λ k. ok 0 k;
}

abbrev drive : LogicalDrive
drive = record {
  driver_api = echo;
  device_info = record {
    total_sectors = 100;
    logical_sector_size_bytes = 512;
    physical_sector_size_bytes = 512;
    logical_alignment_offset = 0;
    max_sectors_per_transfer = 8;
    flags = 1;
  };
  drive_no = 0;
}

abbrev table : LogicalDrive → Drives
table d = record {
  lbd_drives = λ n. if n == 0 then 4096 else 0;
  drives = λ a. d;
  next_drive_num = 1;
}

abbrev no_block : ℕ → Kernel → Run ScatterBlock
no_block n k = ok (record { virtual_addr = 0; physical_addrs = 0; page_count = 0 }) k

abbrev free_block : ScatterBlock → Kernel → Run (Unit {0})
free_block b k = ok tt k

abbrev demand : ℕ → Kernel → Run ℕ
demand x k = ok 1 k

code_of : Run ℕ → ℕ
code_of (ok c k) = c
code_of (halted h) = 1

-- The last sector of the drive is refused, and one far outside of it, whose sum wraps, is not.
last_sector :
    code_of (lbd_read no_block free_block demand 4 0 0 (table drive) 0 99 1 4096 machine) ≡ error 22
unfolding code_of lbd_read
last_sector = refl

far_sector :
    code_of (lbd_read no_block free_block demand 4 0 0 (table drive) 0 (2 ^ 64 - 1) 1 4096 machine)
    ≡ 2 ^ 64 - 1
unfolding code_of lbd_read submit_read byte_size is_error vmm_pin_pages vmm_pin_loop vmm_get_pte
    page_directory vmm_walk_and_crate_next_table entry_at read_entry decode load64
far_sector = refl

agree : AgreeInRange (drive.device_info) echo strict
agree = record {
  same_read = λ lba count buffer k range max. ground arith;
  same_write = λ lba count buffer k range max writes. refl;
}

lbd_read-AgreeInRange_example :
    (lbd_read no_block free_block demand 4 0 0 (table drive) 0 7 1 4096 machine
      ≡ lbd_read no_block free_block demand 4 0 0
          (table (record drive { driver_api = strict }))
          0
          7
          1
          4096
          machine)
    × (lbd_write no_block free_block demand 4 0 0 (table drive) 0 7 1 4096 machine
        ≡ lbd_write no_block free_block demand 4 0 0
            (table (record drive { driver_api = strict }))
            0
            7
            1
            4096
            machine)
unfolding drive_at
lbd_read-AgreeInRange_example =
    lbd_read-AgreeInRange no_block free_block demand 4 0 0 (table drive)
      (table (record drive { driver_api = strict })) drive strict 0 7 1 4096 machine refl refl agree
      (omega arith)

-- Three drives at 4096, 4097 and 4098, and one that is registered three times.
lbd_register_drive-registered_example :
    (drive_at (registered (λ _. drive) (λ i. 4096 + i) 3) (1 % 2 ^ 8)
      ≡ some (record drive { drive_no = 1 % 2 ^ 8 }))
    × ((a : ℕ)
        → ((j : ℕ) → j < 3 → a ≢ 4096 + j)
        → (registered (λ _. drive) (λ i. 4096 + i) 3).drives a ≡ drive)
lbd_register_drive-registered_example =
    lbd_register_drive-registered (λ _. drive) (λ i. 4096 + i) 3 1 (omega arith) (omega arith)
      (λ e. omega arith) (λ j lt lt' e. omega arith)

registered_again :
    drive_at (registered (λ _. drive) (λ i. 4096) 3) 1 ≡ some (record drive { drive_no = 2 })
unfolding registered lbd_register_drive drive_at
registered_again = refl
