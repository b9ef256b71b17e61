-- ===== src/Vmm/Map.antt =====
-- vmm_map and vmm_unmap over pages of 4096 bytes whose tables are there.
use fesos.Prelude.{
  ℕ, zero, suc, ◌+◌, ◌*◌, ◌/◌, ◌%◌, ◌^◌, ◌<◌, ◌≡◌, ◌≢◌, inl, inr, arith, sym, false, ◌==◌, ==_iff,
  ==_false→ne, ne→==_false, Bool-cases,
}
use fesos.Machine.{Kernel, Run, ok, Status, done, eexist}
use fesos.Machine.Memory.{load64, store64}
use fesos.Vmm.{
  PageTableEntry, decode, encode, read_entry, write_entry, map_page, vmm_map_loop, vmm_map,
  vmm_unmap_loop, vmm_unmap,
}
use fesos.Vmm.Entry.{Maps, encode_lt, decode-IsEntry, map_page-IsEntry, map_page-Maps}
use fesos.Vmm.Slots.{Stored, Stored-zero, Stored-load64, Stored-suc}
use fesos.Vmm.Present.{PageWalk, PageWalk-Stored, page_at, page_directory-PageWalk, walk-Links}

-- The entry for page `i` at the start, and the one that maps it.
abbrev pub old_entry : Kernel → (ℕ → ℕ) → ℕ → PageTableEntry
old_entry k leaf i = decode (load64 k.mem (leaf i))

abbrev pub mapping : Kernel → (ℕ → ℕ) → ℕ → ℕ → ℕ → ℕ
mapping k leaf p flags i = encode (map_page (old_entry k leaf i) (page_at p i) flags)

-- The entries of the first `n` pages map them.
abbrev pub AllMap : Kernel → (ℕ → ℕ) → ℕ → ℕ → ℕ → Kernel → Type 0
AllMap k leaf p flags n k' =
    (i : ℕ) → i < n → Maps (load64 k.mem (leaf i)) (page_at p i) flags (load64 k'.mem (leaf i))

Stored-AllMap :
    (k : Kernel) (leaf : ℕ → ℕ) (p flags n : ℕ) (k' : Kernel)
    → Stored leaf (mapping k leaf p flags) k n k'
    → AllMap k leaf p flags n k'
Stored-AllMap k leaf p flags n k' s i lt =
    rw (s.entries i lt) (map_page-Maps (load64 k.mem (leaf i)) (page_at p i) flags)

-- What vmm_map does: it maps all pages, none of which was mapped, or those before the first page
-- that was.
pub data Mapped (k : Kernel) (leaf : ℕ → ℕ) (p flags pages : ℕ) : Run Status → Type 0 where
  all_mapped :
      {k' : Kernel}
      → ((i : ℕ) → i < pages → (old_entry k leaf i).present ≡ 0)
      → Stored leaf (mapping k leaf p flags) k pages k'
      → AllMap k leaf p flags pages k'
      → Mapped k leaf p flags pages (ok done k')
  exists_at :
      (n : ℕ) {k' : Kernel}
      → n < pages
      → (old_entry k leaf n).present ≢ 0
      → ((i : ℕ) → i < n → (old_entry k leaf i).present ≡ 0)
      → Stored leaf (mapping k leaf p flags) k n k'
      → AllMap k leaf p flags n k'
      → Mapped k leaf p flags pages (ok eexist k')

pub data Unmapped (k : Kernel) (leaf : ℕ → ℕ) (pages : ℕ) : Run Status → Type 0 where
  unmapped : {k' : Kernel} → Stored leaf (λ _. 0) k pages k' → Unmapped k leaf pages (ok done k')

module _ (k0 : Kernel) (pml4 v pages : ℕ) (leaf : ℕ → ℕ)
    (walks : (i : ℕ) → i < pages → PageWalk k0.mem pml4 v pages leaf i)
    (fits_v : v + 4096 * pages < 2 ^ 64) where
  -- The entry for page `n` is as it was before the writes to the earlier entries.
  unchanged :
      (new : ℕ → ℕ) (n : ℕ) (k : Kernel)
      → n < pages
      → Stored leaf new k0 n k
      → load64 k.mem (leaf n) ≡ load64 k0.mem (leaf n)
  unchanged new n k lt s =
      Stored-load64 leaf new k0 n k (leaf n) s
        (λ j jl. (walks n lt).distinct j (omega arith) (λ e. omega arith))

  store_next :
      (new : ℕ → ℕ) (n : ℕ) (k : Kernel)
      → n < pages
      → new n < 2 ^ 64
      → Stored leaf new k0 n k
      → Stored leaf new k0 (suc n) (record k { mem = store64 k.mem (leaf n) (new n) })
  store_next new n k lt small s =
      Stored-suc leaf new k0 n k s small
        (λ j jl. (walks n lt).distinct j (omega arith) (λ e. omega arith))

  module _ (p flags : ℕ) (fits_p : p + 4096 * pages < 2 ^ 64) (no_huge : flags / 16 % 2 ≡ 0) where
    mapping_lt : (i : ℕ) → mapping k0 leaf p flags i < 2 ^ 64
    mapping_lt i =
        encode_lt _
          (map_page-IsEntry _ (page_at p i) flags (decode-IsEntry (load64 k0.mem (leaf i))))

    vmm_map_loop-Mapped :
        (left n : ℕ) (k : Kernel)
        → n + left ≡ pages
        → ((i : ℕ) → i < n → (old_entry k0 leaf i).present ≡ 0)
        → Stored leaf (mapping k0 leaf p flags) k0 n k
        → Mapped k0 leaf p flags pages (vmm_map_loop left pml4 (page_at v n) (page_at p n) flags k)
    unfolding vmm_map_loop read_entry write_entry
    vmm_map_loop-Mapped zero n k e absent s =
        let same : n ≡ pages = omega arith in
        all_mapped (rw same at absent) (rw same at s)
          (rw same at (Stored-AllMap k0 leaf p flags n k s))
    vmm_map_loop-Mapped (suc left) n k e absent s =
        let lt : n < pages = omega arith in
        let w =
          PageWalk-Stored leaf (mapping k0 leaf p flags) k0 n k pml4 v pages n s (omega arith)
            (walks n lt) in
        let wrap_v : (page_at v n + 4096) % 2 ^ 64 ≡ page_at v (suc n) = omega arith in
        let wrap_p : (page_at p n + 4096) % 2 ^ 64 ≡ page_at p (suc n) = omega arith in
        let same = unchanged (mapping k0 leaf p flags) n k lt s in
        rw
          (
            page_directory-PageWalk k pml4 v pages leaf n w,
            no_huge,
            walk-Links w.pd _ w.pt k w.link2,
            sym w.leaf_at,
            wrap_v,
            wrap_p,
            same,
          )
          (elim (Bool-cases ((old_entry k0 leaf n).present == 0)) [
            | inl free ↦ rw free (
                vmm_map_loop-Mapped left (suc n) _ (omega arith)
                  (λ i il. elim (Bool-cases (i == n)) [
                    | inl at ↦ rw ((==_iff i n).0 at) ((==_iff _ 0).0 free)
                    | inr other ↦ let ne = ==_false→ne i n other in absent i (omega arith)
                  ])
                  (store_next (mapping k0 leaf p flags) n k lt (mapping_lt n) s))
            | inr taken ↦ rw taken (
                exists_at n lt (==_false→ne _ 0 taken) absent s
                  (Stored-AllMap k0 leaf p flags n k s))
          ])

  zero_store :
      (n : ℕ) (k : Kernel)
      → n < pages
      → Stored leaf (λ _. 0) k0 n k
      → Stored leaf (λ _. 0) k0 (suc n) (record k { mem = store64 k.mem (leaf n) 0 })
  zero_store n k lt s = store_next (λ _. 0) n k lt (omega arith) s

  vmm_unmap_loop-Unmapped :
      (left n : ℕ) (k : Kernel)
      → n + left ≡ pages
      → Stored leaf (λ _. 0) k0 n k
      → Unmapped k0 leaf pages (vmm_unmap_loop left pml4 (page_at v n) k)
  unfolding vmm_unmap_loop read_entry
  vmm_unmap_loop-Unmapped zero n k e s =
      let same : n ≡ pages = omega arith in unmapped (rw same at s)
  vmm_unmap_loop-Unmapped (suc left) n k e s =
      let lt : n < pages = omega arith in
      let w = PageWalk-Stored leaf (λ _. 0) k0 n k pml4 v pages n s (omega arith) (walks n lt) in
      let wrap_v : (page_at v n + 4096) % 2 ^ 64 ≡ page_at v (suc n) = omega arith in
      rw
        (
          page_directory-PageWalk k pml4 v pages leaf n w,
          w.no_huge,
          walk-Links w.pd _ w.pt k w.link2,
          sym w.leaf_at,
          wrap_v,
        )
        (vmm_unmap_loop-Unmapped left (suc n) _ (omega arith) (zero_store n k lt s))

-- For pages of 4096 bytes whose tables are all present, with entries apart from each other and from
-- the entries that lead to them, in address ranges that end below 2 ^ 64, with flags without
-- PT_HUGE_PAGE and a count above 0: vmm_map returns. Where no page was mapped, it maps all of them;
-- else it maps those before the first that was, and returns EEXIST. The 64 bits of an entry that maps
-- a page have bit 0 set, the flags of the call in bits 1 to 4, 8 and 63, bits 12 to 51 of the page's
-- physical address in these bits, and all other bits as they were. No byte outside these entries
-- changes, and none of the static variables.
pub vmm_map-Mapped :
    (k : Kernel) (pml4 v p pages flags : ℕ) (leaf : ℕ → ℕ)
    → ((i : ℕ) → i < pages → PageWalk k.mem pml4 v pages leaf i)
    → v + 4096 * pages < 2 ^ 64
    → p + 4096 * pages < 2 ^ 64
    → flags / 16 % 2 ≡ 0
    → 0 < pages
    → Mapped k leaf p flags pages (vmm_map pml4 v p pages flags k)
unfolding vmm_map
vmm_map-Mapped k pml4 v p pages flags leaf walks fits_v fits_p no_huge some_pages =
    let some : (pages == 0) ≡ false = ne→==_false pages 0 (λ e. omega arith) in
    let start : (a : ℕ) → page_at a 0 ≡ a = λ a. omega arith in
    rw some (
      rw (start v, start p) at
        (vmm_map_loop-Mapped k pml4 v pages leaf walks fits_v p flags fits_p no_huge pages 0 k
          (omega arith) (λ i lt. absurd (omega arith)) (Stored-zero leaf _ k)))

-- For pages of 4096 bytes whose tables are all present, with entries apart from each other and from
-- the entries that lead to them, virtual addresses that end below 2 ^ 64 and a count above 0:
-- vmm_unmap returns 0 and clears the entry of each page; no other byte changes, and none of the
-- static variables.
pub vmm_unmap-Unmapped :
    (k : Kernel) (pml4 v pages : ℕ) (leaf : ℕ → ℕ)
    → ((i : ℕ) → i < pages → PageWalk k.mem pml4 v pages leaf i)
    → v + 4096 * pages < 2 ^ 64
    → 0 < pages
    → Unmapped k leaf pages (vmm_unmap pml4 v pages k)
unfolding vmm_unmap
vmm_unmap-Unmapped k pml4 v pages leaf walks fits_v some_pages =
    let some : (pages == 0) ≡ false = ne→==_false pages 0 (λ e. omega arith) in
    let start : page_at v 0 ≡ v = omega arith in
    rw some (
      rw start at (
        vmm_unmap_loop-Unmapped k pml4 v pages leaf walks fits_v pages 0 k (omega arith)
          (Stored-zero leaf _ k)))
