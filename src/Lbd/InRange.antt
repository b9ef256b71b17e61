-- ===== src/Lbd/InRange.antt =====
-- A driver is asked only for what lies within its drive.
use fesos.Prelude.{
  ℕ, ◌+◌, ◌%◌, ◌^◌, ◌≤◌, ◌<◌, ◌≡◌, ◌≢◌, refl, inl, inr, arith, ◌==◌, ==_false→ne, Bool-cases, ltb,
  leb, some,
}
use fesos.Machine.{ScatterBlock, Kernel, Run, and_then_ext, Status}
use fesos.Lbd.{
  DeviceInfo, DriverApi, LogicalDrive, Drives, drive_at, byte_size, copy, is_error, bounced_read,
  bounced_write, submit_read, submit_write, lbd_read, lbd_write,
}

-- Two drivers do the same on every request that lies before the last sector of the drive, is no
-- longer than the drive allows and, for a write, goes to a drive that allows writes.
pub record AgreeInRange (info : DeviceInfo) (api api' : DriverApi) : Type 0 where
  pub same_read :
      (lba count buffer : ℕ) (k : Kernel)
      → lba + count < info.total_sectors
      → count ≤ info.max_sectors_per_transfer
      → api.read lba count buffer k ≡ api'.read lba count buffer k
  pub same_write :
      (lba count buffer : ℕ) (k : Kernel)
      → lba + count < info.total_sectors
      → count ≤ info.max_sectors_per_transfer
      → info.flags % 2 ≢ 0
      → api.write lba count buffer k ≡ api'.write lba count buffer k

module _ (kallocate_scatter_dma : ℕ → Kernel → Run ScatterBlock)
    (kfree_scatter_dma : ScatterBlock → Kernel → Run (Unit {0}))
    (vma_demand_paging : ℕ → Kernel → Run ℕ) (pin_fuel pml4 src8 : ℕ) (d : LogicalDrive)
    (api' : DriverApi) (agree : AgreeInRange d.device_info d.driver_api api') (lba count buffer : ℕ)
    (range : lba + count < d.device_info.total_sectors)
    (max : count ≤ d.device_info.max_sectors_per_transfer) where
  submit_read_same :
      (status : Status) (k : Kernel)
      → submit_read kallocate_scatter_dma kfree_scatter_dma vma_demand_paging pin_fuel pml4 src8 d
          lba count buffer status k
        ≡ submit_read kallocate_scatter_dma kfree_scatter_dma vma_demand_paging pin_fuel pml4 src8
            (record d { driver_api = api' })
            lba
            count
            buffer
            status
            k
  unfolding submit_read bounced_read byte_size copy
  submit_read_same status k = elim (Bool-cases (is_error status)) [
    | inl refused ↦ rw refused refl
    | inr pinned ↦ elim (Bool-cases (buffer % 2 == 0)) [
      | inl even ↦ rw (pinned, even) (agree.same_read lba count buffer k range max)
      | inr odd ↦
          rw (pinned, odd)
            (and_then_ext (kallocate_scatter_dma _ k) _ _
              (λ block k1. rw (agree.same_read lba count block.virtual_addr k1 range max) refl))
    ]
  ]

  submit_write_same :
      (writes : d.device_info.flags % 2 ≢ 0) (status : Status) (k : Kernel)
      → submit_write kallocate_scatter_dma kfree_scatter_dma vma_demand_paging pin_fuel pml4 src8 d
          lba count buffer status k
        ≡ submit_write kallocate_scatter_dma kfree_scatter_dma vma_demand_paging pin_fuel pml4 src8
            (record d { driver_api = api' })
            lba
            count
            buffer
            status
            k
  unfolding submit_write bounced_write byte_size copy
  submit_write_same writes status k = elim (Bool-cases (is_error status)) [
    | inl refused ↦ rw refused refl
    | inr pinned ↦ elim (Bool-cases (buffer % 2 == 0)) [
      | inl even ↦ rw (pinned, even) (agree.same_write lba count buffer k range max writes)
      | inr odd ↦
          rw (pinned, odd)
            (and_then_ext (kallocate_scatter_dma _ k) _ _ (λ block k1.
              rw
                (agree.same_write lba count block.virtual_addr
                  (copy kallocate_scatter_dma kfree_scatter_dma vma_demand_paging pin_fuel pml4 src8
                    block.virtual_addr buffer
                    (byte_size kallocate_scatter_dma kfree_scatter_dma vma_demand_paging pin_fuel
                      pml4 src8 d count)
                    k1)
                  range max writes)
                refl))
    ]
  ]

-- Where the sum of start and count does not wrap, lbd_read and lbd_write do the same with two
-- drivers that agree on the requests that end before the last sector, are no longer than the drive
-- allows and, for writes, go to a drive that allows them: no driver is asked for anything else.
pub lbd_read-AgreeInRange :
    (kallocate_scatter_dma : ℕ → Kernel → Run ScatterBlock)
    (kfree_scatter_dma : ScatterBlock → Kernel → Run (Unit {0}))
    (vma_demand_paging : ℕ → Kernel → Run ℕ) (pin_fuel pml4 src8 : ℕ) (s s' : Drives)
    (d : LogicalDrive) (api' : DriverApi) (drive_no lba count buffer : ℕ) (k : Kernel)
    → drive_at s drive_no ≡ some d
    → drive_at s' drive_no ≡ some (record d { driver_api = api' })
    → AgreeInRange d.device_info d.driver_api api'
    → lba + count < 2 ^ 64
    → (lbd_read kallocate_scatter_dma kfree_scatter_dma vma_demand_paging pin_fuel pml4 src8 s
          drive_no lba count buffer k
        ≡ lbd_read kallocate_scatter_dma kfree_scatter_dma vma_demand_paging pin_fuel pml4 src8 s'
            drive_no lba count buffer k)
      × (lbd_write kallocate_scatter_dma kfree_scatter_dma vma_demand_paging pin_fuel pml4 src8 s
            drive_no lba count buffer k
          ≡ lbd_write kallocate_scatter_dma kfree_scatter_dma vma_demand_paging pin_fuel pml4 src8
              s' drive_no lba count buffer k)
unfolding lbd_read lbd_write byte_size
lbd_read-AgreeInRange kallocate_scatter_dma kfree_scatter_dma vma_demand_paging pin_fuel pml4 src8 s
      s' d api' drive_no lba count buffer k drive drive' agree no_wrap =
    let wrap : (lba + count) % 2 ^ 64 ≡ lba + count = omega arith in
    elim (Bool-cases (ltb d.device_info.max_sectors_per_transfer count)) [
      | inl long ↦
          (rw (lbd_read, drive, drive', long) refl, rw (lbd_write, drive, drive', long) refl)
      | inr short ↦ elim (Bool-cases (leb d.device_info.total_sectors (lba + count))) [
        | inl past ↦ (
          rw (lbd_read, drive, drive', wrap, short, past) refl,
          rw (lbd_write, drive, drive', wrap, short, past) refl,
        )
        | inr within ↦
            let max : count ≤ d.device_info.max_sectors_per_transfer = ground arith in
            let range : lba + count < d.device_info.total_sectors = ground arith in
            (
              rw (lbd_read, drive, drive', wrap, short, within)
                  (and_then_ext _ _ _ (
                    submit_read_same kallocate_scatter_dma kfree_scatter_dma vma_demand_paging
                      pin_fuel pml4 src8 d api' agree lba count buffer range max)),
              elim (Bool-cases (d.device_info.flags % 2 == 0)) [
                | inl fixed ↦ rw (lbd_write, drive, drive', wrap, short, within, fixed) refl
                | inr allowed ↦
                    rw (lbd_write, drive, drive', wrap, short, within, allowed)
                      (and_then_ext _ _ _ (
                        submit_write_same kallocate_scatter_dma kfree_scatter_dma vma_demand_paging
                          pin_fuel pml4 src8 d api' agree lba count buffer range max
                          (==_false→ne _ 0 allowed)))
              ],
            )
      ]
    ]
