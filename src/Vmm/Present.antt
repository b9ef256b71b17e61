-- ===== src/Vmm/Present.antt =====
-- Pages whose tables are there: what a walk through tables that are present finds.
use fesos.Prelude.{
  ℕ, ◌+◌, ◌*◌, ◌/◌, ◌%◌, ◌^◌, ◌≤◌, ◌<◌, ◌≡◌, ◌≢◌, refl, arith, ◌∙◌, ap, ne→==_false, add64, mul64,
}
use fesos.Machine.{Kernel, ok}
use fesos.Machine.Memory.{Bytes, load64}
use fesos.Pmm.{direct_map_base}
use fesos.Vmm.{
  decode, entry_at, read_entry, page_directory, vmm_walk_and_crate_next_table, vmm_get_pte,
}
use fesos.Vmm.Slots.{Apart, Stored, Stored-load64}

-- The entry at `a` is present and leads to the table `t`.
pub record Links (m : Bytes) (a t : ℕ) : Type 0 where
  pub here : (decode (load64 m a)).present ≢ 0
  pub target : add64 (mul64 (decode (load64 m a)).physical_address (2 ^ 12)) direct_map_base ≡ t

-- The virtual address of page `i` of a range from `v` on.
abbrev pub page_at : ℕ → ℕ → ℕ
page_at v i = v + 4096 * i

-- The three upper entries for page `i` lead to its page table, in which `leaf i` is its entry. No
-- entry of the `pages` pages is one of these three, or the entry of another of the pages.
pub record PageWalk (m : Bytes) (pml4 v pages : ℕ) (leaf : ℕ → ℕ) (i : ℕ) : Type 0 where
  pub pdpt : ℕ
  pub pd : ℕ
  pub pt : ℕ
  pub link4 : Links m (entry_at pml4 (page_at v i / 2 ^ 39 % 2 ^ 9)) pdpt
  pub link3 : Links m (entry_at pdpt (page_at v i / 2 ^ 30 % 2 ^ 9)) pd
  pub link2 : Links m (entry_at pd (page_at v i / 2 ^ 21 % 2 ^ 9)) pt
  pub no_huge : (decode (load64 m (entry_at pd (page_at v i / 2 ^ 21 % 2 ^ 9)))).huge_page ≡ 0
  pub leaf_at : leaf i ≡ entry_at pt (page_at v i / 2 ^ 12 % 2 ^ 9)
  pub apart4 : (j : ℕ) → j < pages → Apart (leaf j) (entry_at pml4 (page_at v i / 2 ^ 39 % 2 ^ 9))
  pub apart3 : (j : ℕ) → j < pages → Apart (leaf j) (entry_at pdpt (page_at v i / 2 ^ 30 % 2 ^ 9))
  pub apart2 : (j : ℕ) → j < pages → Apart (leaf j) (entry_at pd (page_at v i / 2 ^ 21 % 2 ^ 9))
  pub distinct : (j : ℕ) → j < pages → j ≢ i → Apart (leaf j) (leaf i)

Links_ext : (m m' : Bytes) (a t : ℕ) → load64 m' a ≡ load64 m a → Links m a t → Links m' a t
Links_ext m m' a t e l = record { here = rw e l.here; target = rw e l.target }

-- The walk is the same after some of the entries have been written.
pub PageWalk-Stored :
    (leaf new : ℕ → ℕ) (k0 : Kernel) (n : ℕ) (k : Kernel) (pml4 v pages i : ℕ)
    → Stored leaf new k0 n k
    → n ≤ pages
    → PageWalk k0.mem pml4 v pages leaf i
    → PageWalk k.mem pml4 v pages leaf i
PageWalk-Stored leaf new k0 n k pml4 v pages i s le w =
    let a4 = entry_at pml4 (page_at v i / 2 ^ 39 % 2 ^ 9) in
    let a3 = entry_at w.pdpt (page_at v i / 2 ^ 30 % 2 ^ 9) in
    let a2 = entry_at w.pd (page_at v i / 2 ^ 21 % 2 ^ 9) in
    let e4 = Stored-load64 leaf new k0 n k a4 s (λ j lt. w.apart4 j (omega arith)) in
    let e3 = Stored-load64 leaf new k0 n k a3 s (λ j lt. w.apart3 j (omega arith)) in
    let e2 = Stored-load64 leaf new k0 n k a2 s (λ j lt. w.apart2 j (omega arith)) in
    record {
      pdpt = w.pdpt;
      pd = w.pd;
      pt = w.pt;
      link4 = Links_ext k0.mem k.mem a4 w.pdpt e4 w.link4;
      link3 = Links_ext k0.mem k.mem a3 w.pd e3 w.link3;
      link2 = Links_ext k0.mem k.mem a2 w.pt e2 w.link2;
      no_huge = ap (λ raw. (decode raw).huge_page) e2 ∙ w.no_huge;
      leaf_at = w.leaf_at;
      apart4 = w.apart4;
      apart3 = w.apart3;
      apart2 = w.apart2;
      distinct = w.distinct;
    }

-- A present table is found, and nothing changes.
pub walk-Links :
    (table index t : ℕ) (k : Kernel)
    → Links k.mem (entry_at table index) t
    → vmm_walk_and_crate_next_table table index k ≡ ok t k
unfolding vmm_walk_and_crate_next_table read_entry
walk-Links table index t k l = rw (ne→==_false _ 0 l.here, l.target) refl

module _ (k : Kernel) (pml4 v pages : ℕ) (leaf : ℕ → ℕ) (i : ℕ)
    (w : PageWalk k.mem pml4 v pages leaf i) where
  pub page_directory-PageWalk : page_directory pml4 (page_at v i) k ≡ ok w.pd k
  unfolding page_directory
  page_directory-PageWalk =
      rw (walk-Links pml4 _ w.pdpt k w.link4, walk-Links w.pdpt _ w.pd k w.link3) refl

  pub vmm_get_pte-PageWalk : vmm_get_pte pml4 (page_at v i) k ≡ ok (leaf i) k
  unfolding vmm_get_pte read_entry
  vmm_get_pte-PageWalk =
      rw (page_directory-PageWalk, w.no_huge, walk-Links w.pd _ w.pt k w.link2, w.leaf_at) refl
