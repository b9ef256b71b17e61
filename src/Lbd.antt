-- ===== src/Lbd.antt =====
-- Logical block devices, kernel/x86_64/drivers/block/lbd.c: the table of drives, and the checks and
-- bounce buffers around the calls of a driver. An int is its 32-bit pattern. The driver's functions
-- are fields of the drive, and a drive is found at its address in a store of drives; kallocate_scatter_dma and kfree_scatter_dma of memory/kmalloc.c,
-- vma_demand_paging of memory/vma.c, the fuel of vmm_pin_pages, PML4 and the value that memcpy finds
-- in its variable src8 are arguments. The log messages are left out.
mod InRange
mod Register
mod Tests
use fesos.Prelude.{
  ℕ, ◌+◌, ◌-◌, ◌*◌, ◌/◌, ◌%◌, ◌^◌, Bool, true, false, Option, none, some, ◌==◌, ltb, leb,
  if◌then◌else◌, add64, mul64,
}
use fesos.Machine.{error, Kernel, ScatterBlock, Run, ok, and_then, Status, done}
use fesos.Blocks.{memcpy}
use fesos.Vmm.{vmm_pin_pages}

-- lbd_device_info_t
pub record DeviceInfo : Type 0 where
  pub total_sectors : ℕ
  pub logical_sector_size_bytes : ℕ
  pub physical_sector_size_bytes : ℕ
  pub logical_alignment_offset : ℕ
  pub max_sectors_per_transfer : ℕ
  pub flags : ℕ

-- lbd_driver_api_t: what each function does with the starting sector, the count and the buffer.
pub record DriverApi : Type 0 where
  pub read : ℕ → ℕ → ℕ → Kernel → Run ℕ
  pub write : ℕ → ℕ → ℕ → Kernel → Run ℕ
  pub flush : Kernel → Run ℕ

-- lbd_logical_drive_t, less the name; the driver's own data is part of what its functions do.
pub record LogicalDrive : Type 0 where
  pub driver_api : DriverApi
  pub device_info : DeviceInfo
  pub drive_no : ℕ

-- The static variables, with the drives that they point to: the table of addresses, 0 for NULL, the
-- drive at each address, and the next number, a uint8_t.
pub record Drives : Type 0 where
  pub lbd_drives : ℕ → ℕ
  pub drives : ℕ → LogicalDrive
  pub next_drive_num : ℕ

-- The drive that an entry of the table points to.
pub drive_at : Drives → ℕ → Option LogicalDrive
drive_at s drive_no =
    if s.lbd_drives drive_no == 0 then none else some (s.drives (s.lbd_drives drive_no))

-- The number is written through the address. The test for a full table only logs.
pub lbd_register_drive : ℕ → Drives → Drives
lbd_register_drive logical_drive s =
    let drive_num = s.next_drive_num in
    record {
      lbd_drives = λ n. if n == drive_num then logical_drive else s.lbd_drives n;
      drives = λ a.
          if a == logical_drive then record (s.drives a) { drive_no = drive_num } else s.drives a;
      next_drive_num = (drive_num + 1) % 2 ^ 8;
    }

-- Whether the int that vmm_pin_pages returns is not 0.
pub is_error : Status → Bool
is_error done = false
is_error _ = true

module _ (kallocate_scatter_dma : ℕ → Kernel → Run ScatterBlock)
    (kfree_scatter_dma : ScatterBlock → Kernel → Run (Unit {0}))
    (vma_demand_paging : ℕ → Kernel → Run ℕ) (pin_fuel pml4 src8 : ℕ) where
  -- The size in bytes, as the product of a uint64_t and a uint32_t.
  pub byte_size : LogicalDrive → ℕ → ℕ
  byte_size d count = mul64 count d.device_info.logical_sector_size_bytes

  pub copy : ℕ → ℕ → ℕ → Kernel → Kernel
  copy dest src size k = record k { mem = (memcpy dest src size src8 k.mem).1 }

  -- A read into a bounce buffer, from the allocation on.
  pub bounced_read : LogicalDrive → ℕ → ℕ → ℕ → Kernel → Run ℕ
  unfolding byte_size copy error
  bounced_read d lba count buffer k =
      and_then (kallocate_scatter_dma (add64 (byte_size d count) 0xFFF / 0x1000) k) (λ block k1.
        if block.virtual_addr == 0
        then ok (error 12) k1
        else and_then (d.driver_api.read lba count block.virtual_addr k1) (λ read_errno k2.
          if read_errno == 0
          then and_then
              (kfree_scatter_dma block (copy buffer block.virtual_addr (byte_size d count) k2))
              (λ _ k3. ok 0 k3)
          else and_then (kfree_scatter_dma block k2) (λ _ k3. ok read_errno k3)))

  -- What lbd_read does with the result of vmm_pin_pages.
  pub submit_read : LogicalDrive → ℕ → ℕ → ℕ → Status → Kernel → Run ℕ
  unfolding bounced_read error is_error
  submit_read d lba count buffer status k =
      if is_error status
      then ok (error 22) k
      else if buffer % 2 == 0
      then d.driver_api.read lba count buffer k
      else bounced_read d lba count buffer k

  pub lbd_read : Drives → ℕ → ℕ → ℕ → ℕ → Kernel → Run ℕ
  unfolding submit_read byte_size drive_at error
  lbd_read s drive_no lba count buffer k = elim (drive_at s drive_no) [
    | none ↦ ok (error 22) k
    | some d ↦
        if ltb d.device_info.max_sectors_per_transfer count
        then ok (error 22) k
        else if leb d.device_info.total_sectors (add64 lba count)
        then ok (error 22) k
        else and_then (vmm_pin_pages vma_demand_paging pin_fuel pml4 buffer (byte_size d count) 1 k)
            (submit_read d lba count buffer)
  ]

  -- A write from a bounce buffer, from the allocation on.
  pub bounced_write : LogicalDrive → ℕ → ℕ → ℕ → Kernel → Run ℕ
  unfolding byte_size copy error
  bounced_write d lba count buffer k =
      and_then (kallocate_scatter_dma (add64 (byte_size d count) 0xFFF / 0x1000) k) (λ block k1.
        if block.virtual_addr == 0
        then ok (error 12) k1
        else and_then
            (d.driver_api.write lba count block.virtual_addr
              (copy block.virtual_addr buffer (byte_size d count) k1))
            (λ write_errno k2.
              if write_errno == 0
              then and_then (kfree_scatter_dma block k2) (λ _ k3. ok 0 k3)
              else and_then (kfree_scatter_dma block k2) (λ _ k3. ok write_errno k3)))

  -- What lbd_write does with the result of vmm_pin_pages.
  pub submit_write : LogicalDrive → ℕ → ℕ → ℕ → Status → Kernel → Run ℕ
  unfolding bounced_write error is_error
  submit_write d lba count buffer status k =
      if is_error status
      then ok (error 22) k
      else if buffer % 2 == 0
      then d.driver_api.write lba count buffer k
      else bounced_write d lba count buffer k

  pub lbd_write : Drives → ℕ → ℕ → ℕ → ℕ → Kernel → Run ℕ
  unfolding submit_write byte_size drive_at error
  lbd_write s drive_no lba count buffer k = elim (drive_at s drive_no) [
    | none ↦ ok (error 22) k
    | some d ↦
        if ltb d.device_info.max_sectors_per_transfer count
        then ok (error 22) k
        else if leb d.device_info.total_sectors (add64 lba count)
        then ok (error 22) k
        else if d.device_info.flags % 2 == 0
        then ok (error 1) k
        else and_then (vmm_pin_pages vma_demand_paging pin_fuel pml4 buffer (byte_size d count) 0 k)
            (submit_write d lba count buffer)
  ]

pub lbd_flush : Drives → ℕ → Kernel → Run ℕ
unfolding drive_at error
lbd_flush s drive_no k = elim (drive_at s drive_no) [
  | none ↦ ok (error 22) k
  | some d ↦ if d.device_info.flags / 2 % 2 == 0 then ok (error 1) k else d.driver_api.flush k
]
