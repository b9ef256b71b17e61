-- ===== src/Vmm/Translate.antt =====
-- Translation of an address in a page, and what it gives after vmm_map and vmm_unmap.
use fesos.Prelude.{ℕ, ◌+◌, ◌*◌, ◌/◌, ◌%◌, ◌^◌, ◌<◌, ◌≡◌, refl, arith, ◌∙◌, ap, sym, add64, mul64}
use fesos.Machine.{Kernel, Run, ok, and_then, Status, done, Returns, returns}
use fesos.Machine.Memory.{load64}
use fesos.Vmm.{
  decode, read_entry, map_page, page_directory, vmm_map, vmm_unmap, vmm_get_physical_from_virtual,
}
use fesos.Vmm.Entry.{decode-encode, decode-IsEntry, map_page-IsEntry}
use fesos.Vmm.Slots.{Stored}
use fesos.Vmm.Present.{PageWalk, PageWalk-Stored, page_at, page_directory-PageWalk, walk-Links}
use fesos.Vmm.Map.{
  Mapped, all_mapped, exists_at, Unmapped, unmapped, mapping, old_entry, vmm_map-Mapped,
  vmm_unmap-Unmapped,
}

-- Two addresses of one page have the same indices.
same_page_indices :
    (x y : ℕ)
    → x / 2 ^ 12 ≡ y / 2 ^ 12
    → (x / 2 ^ 39 % 2 ^ 9 ≡ y / 2 ^ 39 % 2 ^ 9)
      × (x / 2 ^ 30 % 2 ^ 9 ≡ y / 2 ^ 30 % 2 ^ 9)
      × (x / 2 ^ 21 % 2 ^ 9 ≡ y / 2 ^ 21 % 2 ^ 9)
      × (x / 2 ^ 12 % 2 ^ 9 ≡ y / 2 ^ 12 % 2 ^ 9)
same_page_indices x y e = (omega arith, omega arith, omega arith, omega arith)

page_directory_same :
    (pml4 x y : ℕ) (k : Kernel)
    → x / 2 ^ 12 ≡ y / 2 ^ 12
    → page_directory pml4 x k ≡ page_directory pml4 y k
unfolding page_directory
page_directory_same pml4 x y k e = let (e4, e3, _, _) = same_page_indices x y e in rw (e4, e3) refl

-- The translation of an address in page `i` is by the entry of that page.
pub translate-PageWalk :
    (k : Kernel) (pml4 v pages : ℕ) (leaf : ℕ → ℕ) (i x : ℕ)
    → PageWalk k.mem pml4 v pages leaf i
    → x / 2 ^ 12 ≡ page_at v i / 2 ^ 12
    → vmm_get_physical_from_virtual pml4 x k
      ≡ ok (add64 (mul64 (old_entry k leaf i).physical_address (2 ^ 12)) (x % 2 ^ 12)) k
unfolding vmm_get_physical_from_virtual read_entry
translate-PageWalk k pml4 v pages leaf i x w e =
    let (_, _, e2, e1) = same_page_indices x (page_at v i) e in
    rw
      (
        page_directory_same pml4 x (page_at v i) k e,
        page_directory-PageWalk k pml4 v pages leaf i w,
        e2,
        e1,
        w.no_huge,
        walk-Links w.pd _ w.pt k w.link2,
        sym w.leaf_at,
      )
      refl

-- Every address of the `pages` pages from `v` on translates to the one at the same distance from `p`.
abbrev pub Translates : ℕ → ℕ → ℕ → ℕ → Kernel → Type 0
Translates pml4 v p pages k =
    (i x : ℕ)
    → i < pages
    → x / 2 ^ 12 ≡ v / 2 ^ 12 + i
    → vmm_get_physical_from_virtual pml4 x k ≡ ok ((p / 2 ^ 12 + i) * 2 ^ 12 + x % 2 ^ 12) k

module _ (k : Kernel) (pml4 v p pages flags : ℕ) (leaf : ℕ → ℕ)
    (walks : (i : ℕ) → i < pages → PageWalk k.mem pml4 v pages leaf i)
    (fits_p : p + 4096 * pages < 2 ^ 52)
    (absent : (i : ℕ) → i < pages → (old_entry k leaf i).present ≡ 0) where
  mapped_entry :
      (k' : Kernel) (i : ℕ)
      → Stored leaf (mapping k leaf p flags) k pages k'
      → i < pages
      → (old_entry k' leaf i).physical_address ≡ p / 2 ^ 12 + i
  unfolding map_page
  mapped_entry k' i s lt =
      let e = old_entry k leaf i in
      let mapped = map_page e (page_at p i) flags in
      let valid = map_page-IsEntry e (page_at p i) flags (decode-IsEntry (load64 k.mem (leaf i))) in
      ap (λ raw. (decode raw).physical_address) (s.entries i lt)
      ∙ ap (λ e. e.physical_address) (decode-encode mapped valid)
      ∙ omega arith

  Stored-Translates :
      (k' : Kernel) → Stored leaf (mapping k leaf p flags) k pages k' → Translates pml4 v p pages k'
  Stored-Translates k' s i x lt e =
      let w =
        PageWalk-Stored leaf (mapping k leaf p flags) k pages k' pml4 v pages i s (omega arith)
          (walks i lt) in
      let entry = mapped_entry k' i s lt in
      translate-PageWalk k' pml4 v pages leaf i x w (omega arith)
      ∙ rw entry (ap (λ a. ok a k') (omega arith))

  Mapped-Translates :
      {r : Run Status}
      → Mapped k leaf p flags pages r
      → Returns (λ s k'. (s ≡ done) × Translates pml4 v p pages k') r
  Mapped-Translates (all_mapped _ s _) = returns (refl, Stored-Translates _ s)
  Mapped-Translates (exists_at n lt present _ _ _) = absurd (present (absent n lt))

  Mapped-Unmapped :
      {r : Run Status}
      → v + 4096 * pages < 2 ^ 64
      → 0 < pages
      → Mapped k leaf p flags pages r
      → Returns
          (λ s k'. (s ≡ done) × Stored leaf (λ _. 0) k pages k')
          (and_then r (λ _ k'. vmm_unmap pml4 v pages k'))
  Mapped-Unmapped fits_v some_pages (exists_at n lt present _ _ _) = absurd (present (absent n lt))
  Mapped-Unmapped fits_v some_pages (all_mapped {k'} _ s _) = after (
      vmm_unmap-Unmapped k' pml4 v pages leaf
        (λ i lt.
          PageWalk-Stored leaf (mapping k leaf p flags) k pages k' pml4 v pages i s (omega arith)
            (walks i lt))
        fits_v some_pages)
    where
      after :
          {r : Run Status}
          → Unmapped k' leaf pages r
          → Returns (λ s k''. (s ≡ done) × Stored leaf (λ _. 0) k pages k'') r
      after (unmapped u) = returns (
        refl,
        record {
          entries = u.entries;
          others = λ x out. u.others x out ∙ s.others x out;
          same_pmm = u.same_pmm ∙ s.same_pmm;
        },
      )

-- For unmapped pages of 4096 bytes whose tables are all present, with entries apart from each other
-- and from the entries that lead to them, virtual addresses that end below 2 ^ 64 and physical ones
-- that end below 2 ^ 52, flags without PT_HUGE_PAGE and a count above 0: vmm_map returns 0, and then
-- vmm_get_physical_from_virtual of an address in page `i` of the range returns the address with the
-- same offset in frame `i` of the physical range, and changes nothing.
pub vmm_get_physical_from_virtual-vmm_map :
    (k : Kernel) (pml4 v p pages flags : ℕ) (leaf : ℕ → ℕ)
    → ((i : ℕ) → i < pages → PageWalk k.mem pml4 v pages leaf i)
    → ((i : ℕ) → i < pages → (old_entry k leaf i).present ≡ 0)
    → v + 4096 * pages < 2 ^ 64
    → p + 4096 * pages < 2 ^ 52
    → flags / 16 % 2 ≡ 0
    → 0 < pages
    → Returns (λ s k'. (s ≡ done) × Translates pml4 v p pages k') (vmm_map pml4 v p pages flags k)
vmm_get_physical_from_virtual-vmm_map k pml4 v p pages flags leaf walks absent fits_v fits_p no_huge
      some_pages =
    Mapped-Translates k pml4 v p pages flags leaf walks fits_p absent
      (vmm_map-Mapped k pml4 v p pages flags leaf walks fits_v (omega arith) no_huge some_pages)

-- For unmapped pages of 4096 bytes whose tables are all present, with entries apart from each other
-- and from the entries that lead to them, virtual addresses that end below 2 ^ 64 and physical ones
-- that end below 2 ^ 52, flags without PT_HUGE_PAGE and a count above 0: vmm_map and then vmm_unmap
-- of the same pages both return, the second with 0, and leave the entry of each page 0, every byte
-- outside these entries and the static variables as they were.
pub vmm_unmap-vmm_map :
    (k : Kernel) (pml4 v p pages flags : ℕ) (leaf : ℕ → ℕ)
    → ((i : ℕ) → i < pages → PageWalk k.mem pml4 v pages leaf i)
    → ((i : ℕ) → i < pages → (old_entry k leaf i).present ≡ 0)
    → v + 4096 * pages < 2 ^ 64
    → p + 4096 * pages < 2 ^ 52
    → flags / 16 % 2 ≡ 0
    → 0 < pages
    → Returns
        (λ s k'. (s ≡ done) × Stored leaf (λ _. 0) k pages k')
        (and_then (vmm_map pml4 v p pages flags k) (λ _ k'. vmm_unmap pml4 v pages k'))
vmm_unmap-vmm_map k pml4 v p pages flags leaf walks absent fits_v fits_p no_huge some_pages =
    Mapped-Unmapped k pml4 v p pages flags leaf walks fits_p absent fits_v some_pages
      (vmm_map-Mapped k pml4 v p pages flags leaf walks fits_v (omega arith) no_huge some_pages)
