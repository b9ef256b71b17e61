-- ===== src/Vmm.antt =====
-- Page tables, kernel/x86_64/memory/vmm.c: tables of 512 entries of 64 bits in memory, reached
-- through the direct map. The static variable PML4, which vmm_init sets, is an argument. The log
-- messages and the invalidation of cached translations (invlpg) are left out: translation is by
-- the tables. vma_demand_paging, of memory/vma.c, is an argument of the functions that call it.
pub mod Entry
pub mod Slots
pub mod Present
pub mod Map
pub mod Translate
pub mod Table
pub mod Walk
pub mod Pin
mod Tests
use fesos.Prelude.{
  ℕ, zero, suc, ◌+◌, ◌-◌, ◌*◌, ◌/◌, ◌%◌, ◌^◌, Bool, true, false, ◌&&◌, ◌==◌, ltb, leb,
  if◌then◌else◌, add64, sub64, mul64,
}
use fesos.Machine.{
  Kernel, Halt, panic, out_of_fuel, Run, ok, halted, and_then, Status, done, einval, eexist, efault,
}
use mathlib.Core.Bool.{not}
use fesos.Machine.Memory.{Bytes, load64, store64}
use fesos.Pmm.{direct_map_base, pmm_allocate_frames}

-- page_table_entry_bits
pub record PageTableEntry : Type 0 where
  pub present : ℕ
  pub writeable : ℕ
  pub user_available : ℕ
  pub write_through : ℕ
  pub disable_caching : ℕ
  pub accessed : ℕ
  pub dirty : ℕ
  pub huge_page : ℕ
  pub global : ℕ
  pub available_low : ℕ
  pub physical_address : ℕ
  pub available_high : ℕ
  pub execute_disable : ℕ

-- The two views of the union page_table_entry.
unfoldable pub decode : ℕ → PageTableEntry
decode raw = record {
  present = raw % 2;
  writeable = raw / 2 % 2;
  user_available = raw / 4 % 2;
  write_through = raw / 8 % 2;
  disable_caching = raw / 16 % 2;
  accessed = raw / 32 % 2;
  dirty = raw / 64 % 2;
  huge_page = raw / 128 % 2;
  global = raw / 256 % 2;
  available_low = raw / 2 ^ 9 % 8;
  physical_address = raw / 2 ^ 12 % 2 ^ 40;
  available_high = raw / 2 ^ 52 % 2 ^ 11;
  execute_disable = raw / 2 ^ 63 % 2;
}

pub encode : PageTableEntry → ℕ
encode e =
    e.present
    + 2 * e.writeable
    + 4 * e.user_available
    + 8 * e.write_through
    + 16 * e.disable_caching
    + 32 * e.accessed
    + 64 * e.dirty
    + 128 * e.huge_page
    + 256 * e.global
    + 2 ^ 9 * e.available_low
    + 2 ^ 12 * e.physical_address
    + 2 ^ 52 * e.available_high
    + 2 ^ 63 * e.execute_disable

-- The address of `table->entries[index]`, a read of the entry there, and a write.
unfoldable pub entry_at : ℕ → ℕ → ℕ
entry_at table index = table + 8 * index

unfoldable pub read_entry : Kernel → ℕ → PageTableEntry
unfolding decode
read_entry k a = decode (load64 k.mem a)

pub write_entry : Kernel → ℕ → PageTableEntry → Kernel
unfolding encode
write_entry k a e = record k { mem = store64 k.mem a (encode e) }

pub vmm_init : ℕ → ℕ
vmm_init bi_pml4 = add64 bi_pml4 direct_map_base

-- What vmm_walk_and_crate_next_table writes to an entry for a new table.
pub link_entry : PageTableEntry → ℕ → PageTableEntry
link_entry e next_table_p = record e {
  present = 1;
  writeable = 1;
  user_available = 1;
  physical_address = next_table_p / 2 ^ 12 % 2 ^ 40;
}

unfoldable pub vmm_walk_and_crate_next_table : ℕ → ℕ → Kernel → Run ℕ
unfolding entry_at read_entry write_entry link_entry
vmm_walk_and_crate_next_table table index k =
    let a = entry_at table index in
    let e = read_entry k a in
    if e.present == 0
    then and_then (pmm_allocate_frames 1 4096 k) (λ next_table_p k'.
      ok (add64 next_table_p direct_map_base)
        (write_entry k' a (link_entry (read_entry k' a) next_table_p)))
    else ok (add64 (mul64 e.physical_address (2 ^ 12)) direct_map_base) k

-- What vmm_map writes to an entry of a page directory, and to one of a page table.
pub map_page : PageTableEntry → ℕ → ℕ → PageTableEntry
map_page e p_addr flags = record e {
  present = 1;
  writeable = flags % 2;
  user_available = flags / 2 % 2;
  write_through = flags / 4 % 2;
  disable_caching = flags / 8 % 2;
  global = flags / 32 % 2;
  execute_disable = flags / 64 % 2;
  physical_address = p_addr / 2 ^ 12 % 2 ^ 40;
}

pub map_huge : PageTableEntry → ℕ → ℕ → PageTableEntry
unfolding map_page
map_huge e p_addr flags = record (map_page e p_addr flags) {
  huge_page = 1;
  physical_address = p_addr / 2 ^ 12 / 2 ^ 9 * 2 ^ 9 % 2 ^ 40;
}

-- The table of level 2 for an address.
unfoldable pub page_directory : ℕ → ℕ → Kernel → Run ℕ
unfolding vmm_walk_and_crate_next_table
page_directory pml4 v_addr k =
    and_then (vmm_walk_and_crate_next_table pml4 (v_addr / 2 ^ 39 % 2 ^ 9) k)
      (λ pdpt k1. vmm_walk_and_crate_next_table pdpt (v_addr / 2 ^ 30 % 2 ^ 9) k1)

-- The loop of vmm_map with `left` pages to go.
pub vmm_map_loop : ℕ → ℕ → ℕ → ℕ → ℕ → Kernel → Run Status
unfolding page_directory vmm_walk_and_crate_next_table entry_at read_entry write_entry map_page
    map_huge
vmm_map_loop zero pml4 v_addr p_addr flags k = ok done k
vmm_map_loop (suc left) pml4 v_addr p_addr flags k =
    let next_huge = vmm_map_loop left pml4 (add64 v_addr 0x200000) p_addr flags in
    let next = vmm_map_loop left pml4 (add64 v_addr 0x1000) (add64 p_addr 0x1000) flags in
    let pd_index = v_addr / 2 ^ 21 % 2 ^ 9 in
    and_then (page_directory pml4 v_addr k) (λ pd k2.
      if flags / 16 % 2 == 0
      then and_then (vmm_walk_and_crate_next_table pd pd_index k2) (λ pt k3.
        let a = entry_at pt (v_addr / 2 ^ 12 % 2 ^ 9) in
        let e = read_entry k3 a in
        if e.present == 0 then next (write_entry k3 a (map_page e p_addr flags)) else ok eexist k3)
      else let a = entry_at pd pd_index in
        let e = read_entry k2 a in
        if e.present == 0
        then next_huge (write_entry k2 a (map_huge e p_addr flags))
        else ok eexist k2)

pub vmm_map : ℕ → ℕ → ℕ → ℕ → ℕ → Kernel → Run Status
unfolding vmm_map_loop
vmm_map pml4 v_addr p_addr pages flags k =
    if pages == 0 then ok einval k else vmm_map_loop pages pml4 v_addr p_addr flags k

-- The loop of vmm_unmap with `left` pages to go.
pub vmm_unmap_loop : ℕ → ℕ → ℕ → Kernel → Run Status
unfolding page_directory vmm_walk_and_crate_next_table entry_at read_entry
vmm_unmap_loop zero pml4 v_addr k = ok done k
vmm_unmap_loop (suc left) pml4 v_addr k =
    let next_huge = vmm_unmap_loop left pml4 (add64 v_addr 0x200000) in
    let next = vmm_unmap_loop left pml4 (add64 v_addr 0x1000) in
    let pd_index = v_addr / 2 ^ 21 % 2 ^ 9 in
    let clear = λ (k : Kernel) (a : ℕ). record k { mem = store64 k.mem a 0 } in
    and_then (page_directory pml4 v_addr k) (λ pd k2.
      if (read_entry k2 (entry_at pd pd_index)).huge_page == 0
      then and_then (vmm_walk_and_crate_next_table pd pd_index k2)
          (λ pt k3. next (clear k3 (entry_at pt (v_addr / 2 ^ 12 % 2 ^ 9))))
      else next_huge (clear k2 (entry_at pd pd_index)))

pub vmm_unmap : ℕ → ℕ → ℕ → Kernel → Run Status
unfolding vmm_unmap_loop
vmm_unmap pml4 v_addr pages k =
    if pages == 0 then ok einval k else vmm_unmap_loop pages pml4 v_addr k

pub vmm_get_physical_from_virtual : ℕ → ℕ → Kernel → Run ℕ
unfolding page_directory vmm_walk_and_crate_next_table entry_at read_entry
vmm_get_physical_from_virtual pml4 v_addr k =
    let pd_index = v_addr / 2 ^ 21 % 2 ^ 9 in
    and_then (page_directory pml4 v_addr k) (λ pd k2.
      let e = read_entry k2 (entry_at pd pd_index) in
      if e.huge_page == 0
      then and_then (vmm_walk_and_crate_next_table pd pd_index k2) (λ pt k3.
        let leaf = read_entry k3 (entry_at pt (v_addr / 2 ^ 12 % 2 ^ 9)) in
        ok (add64 (mul64 leaf.physical_address (2 ^ 12)) (v_addr % 2 ^ 12)) k3)
      else ok (mul64 e.physical_address (2 ^ 12)) k2)

-- The address of the entry.
unfoldable pub vmm_get_pte : ℕ → ℕ → Kernel → Run ℕ
unfolding page_directory vmm_walk_and_crate_next_table entry_at read_entry
vmm_get_pte pml4 v_addr k =
    let pd_index = v_addr / 2 ^ 21 % 2 ^ 9 in
    and_then (page_directory pml4 v_addr k) (λ pd k2.
      if (read_entry k2 (entry_at pd pd_index)).huge_page == 0
      then and_then (vmm_walk_and_crate_next_table pd pd_index k2)
          (λ pt k3. ok (entry_at pt (v_addr / 2 ^ 12 % 2 ^ 9)) k3)
      else ok (entry_at pd pd_index) k2)

module _ (vma_demand_paging : ℕ → Kernel → Run ℕ) where
  -- The interrupt frame gives the address (cr2) and the error code.
  pub vmm_page_fault_callback : ℕ → ℕ → Kernel → Run (Unit {0})
  vmm_page_fault_callback cr2 error_code k =
      if error_code % 2 == 0
      then and_then (vma_demand_paging cr2 k) (λ r k'. if r == 0 then ok tt k' else halted panic)
      else halted panic

  -- The loop of vmm_pin_pages, on fuel.
  unfoldable pub vmm_pin_loop : ℕ → ℕ → ℕ → ℕ → ℕ → Kernel → Run Status
  unfolding vmm_get_pte
  vmm_pin_loop zero pml4 page end_page write_access k = halted out_of_fuel
  vmm_pin_loop (suc fuel) pml4 page end_page write_access k =
      let next = vmm_pin_loop fuel pml4 (add64 page 0x1000) end_page write_access in
      let check = λ (pte : ℕ) (k : Kernel).
        if not (write_access == 0) && (read_entry k pte).writeable == 0
        then ok efault k
        else next k in
      if leb page end_page
      then and_then (vmm_get_pte pml4 page k) (λ pte k1.
        if (read_entry k1 pte).present == 0
        then if write_access == 0
          then ok efault k1
          else and_then (vma_demand_paging page k1)
              (λ r k2. if r == 0 then ok efault k2 else and_then (vmm_get_pte pml4 page k2) check)
        else check pte k1)
      else ok done k

  unfoldable pub vmm_pin_pages : ℕ → ℕ → ℕ → ℕ → ℕ → Kernel → Run Status
  unfolding vmm_pin_loop
  vmm_pin_pages fuel pml4 v_addr count write_access k =
      let start_page = v_addr / 2 ^ 12 * 2 ^ 12 in
      let end_page = sub64 (add64 start_page count) 1 / 2 ^ 12 * 2 ^ 12 in
      if ltb v_addr 0xFFF
      then ok efault k
      else if count == 0
      then ok einval k
      else vmm_pin_loop fuel pml4 start_page end_page write_access k
