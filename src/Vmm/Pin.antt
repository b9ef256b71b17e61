-- ===== src/Vmm/Pin.antt =====
-- vmm_pin_pages over pages whose tables are there.
use fesos.Prelude.{
  ℕ, zero, suc, ◌+◌, ◌-◌, ◌*◌, ◌/◌, ◌%◌, ◌^◌, ◌≤◌, ◌<◌, ◌≡◌, ◌≢◌, ◌⊎◌, inl, inr, true, false, arith,
  ◌==◌, ==_iff, ==_false→ne, ne→==_false, Bool-cases, leb, ltb, if◌then◌else◌, add64, sub64,
}
use fesos.Machine.{Kernel, Run, ok, and_then, Status, done, efault, Returns, returns}
use fesos.Vmm.{read_entry, vmm_pin_loop, vmm_pin_pages}
use fesos.Vmm.Present.{PageWalk, page_at, vmm_get_pte-PageWalk}
use fesos.Vmm.Map.{old_entry}

-- The first page, and the number of pages from it on.
abbrev pub page_start : ℕ → ℕ
page_start v_addr = v_addr / 2 ^ 12 * 2 ^ 12

abbrev pub pinned_pages : ℕ → ℕ
pinned_pages count = (count - 1) / 2 ^ 12 + 1

-- What vmm_pin_pages says of `pages` pages, and of the first one that it does not accept.
pub data Pinned (k : Kernel) (leaf : ℕ → ℕ) (pages write_access : ℕ) : Run Status → Type 0 where
  pinned :
      ((i : ℕ)
        → i < pages
        → ((old_entry k leaf i).present ≢ 0)
          × ((write_access ≡ 0) ⊎ ((old_entry k leaf i).writeable ≢ 0)))
      → Pinned k leaf pages write_access (ok done k)
  read_only :
      (n : ℕ)
      → n < pages
      → (old_entry k leaf n).present ≢ 0
      → write_access ≢ 0
      → (old_entry k leaf n).writeable ≡ 0
      → Pinned k leaf pages write_access (ok efault k)
  not_there :
      (n : ℕ)
      → n < pages
      → (old_entry k leaf n).present ≡ 0
      → write_access ≡ 0
      → Pinned k leaf pages write_access (ok efault k)
  demanded :
      (n : ℕ) {k' : Kernel}
      → n < pages
      → (old_entry k leaf n).present ≡ 0
      → write_access ≢ 0
      → Pinned k leaf pages write_access (ok efault k')

module _ (vma_demand_paging : ℕ → Kernel → Run ℕ)
    (succeeds : (x : ℕ) (k : Kernel) → Returns (λ r _. r ≡ 0) (vma_demand_paging x k)) (k : Kernel)
    (pml4 start pages write_access : ℕ) (leaf : ℕ → ℕ)
    (walks : (i : ℕ) → i < pages → PageWalk k.mem pml4 start pages leaf i)
    (fits : start + 4096 * pages < 2 ^ 64) (some : 0 < pages) where
  -- A page that is demanded is refused just where demand paging succeeds.
  demand_fails :
      (n : ℕ) (f : Kernel → Run Status) {r : Run ℕ}
      → n < pages
      → (old_entry k leaf n).present ≡ 0
      → write_access ≢ 0
      → Returns (λ r _. r ≡ 0) r
      → Pinned k leaf pages write_access
          (and_then r (λ r k2. if r == 0 then ok efault k2 else f k2))
  demand_fails n f lt absent writes (returns e) = rw e (demanded n lt absent writes)

  -- One more page that is accepted.
  add_good :
      (n : ℕ)
      → ((i : ℕ)
          → i < n
          → ((old_entry k leaf i).present ≢ 0)
            × ((write_access ≡ 0) ⊎ ((old_entry k leaf i).writeable ≢ 0)))
      → (old_entry k leaf n).present ≢ 0
      → (write_access ≡ 0) ⊎ ((old_entry k leaf n).writeable ≢ 0)
      → (i : ℕ) → i < suc n
      → ((old_entry k leaf i).present ≢ 0)
        × ((write_access ≡ 0) ⊎ ((old_entry k leaf i).writeable ≢ 0))
  add_good n good present access i lt = elim (Bool-cases (i == n)) [
    | inl same ↦ let e = (==_iff i n).0 same in rw e (present, access)
    | inr other ↦ let ne = ==_false→ne i n other in good i (omega arith)
  ]

  vmm_pin_loop-Pinned :
      (left n fuel : ℕ)
      → n + left ≡ pages
      → left < fuel
      → ((i : ℕ)
          → i < n
          → ((old_entry k leaf i).present ≢ 0)
            × ((write_access ≡ 0) ⊎ ((old_entry k leaf i).writeable ≢ 0)))
      → Pinned k leaf pages write_access (
          vmm_pin_loop vma_demand_paging fuel pml4
            (page_at start n)
            (page_at start (pages - 1))
            write_access
            k)
  unfolding vmm_pin_loop read_entry
  vmm_pin_loop-Pinned left n zero e enough good = absurd (omega arith)
  vmm_pin_loop-Pinned zero n (suc fuel) e enough good =
      let same : n ≡ pages = omega arith in
      let past : leb (page_at start n) (page_at start (pages - 1)) ≡ false = ground arith in
      rw past (pinned (rw same at good))
  vmm_pin_loop-Pinned (suc left) n (suc fuel) e enough good =
      let lt : n < pages = omega arith in
      let w = walks n lt in
      let within : leb (page_at start n) (page_at start (pages - 1)) ≡ true = ground arith in
      let wrap : (page_at start n + 4096) % 2 ^ 64 ≡ page_at start (suc n) = omega arith in
      let next = vmm_pin_loop-Pinned left (suc n) fuel (omega arith) (omega arith) in
      rw (within, vmm_get_pte-PageWalk k pml4 start pages leaf n w, wrap)
        (elim (Bool-cases ((old_entry k leaf n).present == 0)) [
          | inl missing ↦
              let absent = (==_iff ((old_entry k leaf n).present) 0).0 missing in
              elim (Bool-cases (write_access == 0)) [
                | inl reads ↦
                    rw (missing, reads) (not_there n lt absent ((==_iff write_access 0).0 reads))
                | inr writes ↦
                    rw (missing, writes)
                      (demand_fails n _ lt absent (==_false→ne write_access 0 writes)
                        (succeeds (page_at start n) k))
              ]
          | inr there ↦
              let present = ==_false→ne ((old_entry k leaf n).present) 0 there in
              elim (Bool-cases (write_access == 0)) [
                | inl reads ↦
                    rw (there, reads)
                      (next (add_good n good present (inl ((==_iff write_access 0).0 reads))))
                | inr writes ↦ elim (Bool-cases ((old_entry k leaf n).writeable == 0)) [
                  | inl fixed ↦
                      rw (there, writes, fixed)
                        (read_only n lt present (==_false→ne write_access 0 writes)
                          ((==_iff ((old_entry k leaf n).writeable) 0).0 fixed))
                  | inr writeable ↦
                      rw (there, writes, writeable)
                        (next (
                          add_good n good present
                            (inr (==_false→ne ((old_entry k leaf n).writeable) 0 writeable))))
                ]
              ]
        ])

-- For pages of 4096 bytes whose tables are all present, from the page of `v_addr` on as many as
-- `count` bytes from the start of that page reach into, with an address that passes the NULL check,
-- a count above 0, an end below 2 ^ 64, fuel above the number of pages, and a vma_demand_paging that
-- always succeeds (0): vmm_pin_pages returns. It returns 0 and changes nothing where all pages are
-- present and, for write access, writeable. Else it returns EFAULT: for a page that is not
-- writeable, for one not present that shall be read, and also for one not present that shall be
-- written, though demand paging has just succeeded.
pub vmm_pin_pages-Pinned :
    (vma_demand_paging : ℕ → Kernel → Run ℕ) (k : Kernel) (fuel pml4 v_addr count write_access : ℕ)
    (leaf : ℕ → ℕ)
    → ((x : ℕ) (k : Kernel) → Returns (λ r _. r ≡ 0) (vma_demand_paging x k))
    → ((i : ℕ)
        → i < pinned_pages count
        → PageWalk k.mem pml4 (page_start v_addr) (pinned_pages count) leaf i)
    → 0xFFF ≤ v_addr
    → 0 < count
    → v_addr + count + 4096 < 2 ^ 64
    → pinned_pages count < fuel
    → Pinned k leaf
        (pinned_pages count)
        write_access
        (vmm_pin_pages vma_demand_paging fuel pml4 v_addr count write_access k)
unfolding vmm_pin_pages
vmm_pin_pages-Pinned vma_demand_paging k fuel pml4 v_addr count write_access leaf succeeds walks
      valid some fits enough =
    let not_null : ltb v_addr 0xFFF ≡ false = ground arith in
    let bytes : (count == 0) ≡ false = ne→==_false count 0 (λ e. omega arith) in
    let first : page_start v_addr ≡ page_at (page_start v_addr) 0 = omega arith in
    let last : sub64 (add64 (page_start v_addr) count) 1 / 2 ^ 12 * 2 ^ 12
        ≡ page_at (page_start v_addr) (pinned_pages count - 1) =
      omega arith in
    rw (not_null, bytes, last)
      (rw (← first) at (
        vmm_pin_loop-Pinned vma_demand_paging succeeds k pml4 (page_start v_addr)
          (pinned_pages count) write_access leaf walks (omega arith) (omega arith)
          (pinned_pages count) 0 fuel (omega arith) enough (λ i lt. absurd (omega arith))))
