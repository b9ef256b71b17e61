-- ===== src/Vmm/Walk.antt =====
-- One step of a walk, which creates the next table where there is none.
use fesos.Prelude.{
  ℕ, ◌+◌, ◌*◌, ◌%◌, ◌^◌, ◌≤◌, ◌<◌, ◌≡◌, ◌≢◌, ◌⊎◌, inl, inr, refl, false, arith, ◌∙◌, ap, ◌==◌,
  ==_iff, ==_false→ne, Bool-cases, add64, mul64,
}
use fesos.Machine.{Kernel, Run, ok, and_then}
use fesos.Machine.Memory.{Bytes, load64, store64, load64-store64}
use fesos.Pmm.{direct_map_base, get_bitmap_bit}
use fesos.Pmm.Bitmap.{IsValid}
use fesos.Pmm.Claim.{IsClaimed}
use fesos.Pmm.Probe.{Fits}
use fesos.Pmm.Allocate.{Allocated, null, taken, pmm_allocate_frames-Allocated}
use fesos.Vmm.Entry.{decode-IsEntry, link_entry-IsEntry, encode_lt, decode-encode}
use fesos.Vmm.Slots.{load64-Apart}
use fesos.Vmm.Present.{Links}
use fesos.Vmm.{
  PageTableEntry, decode, encode, entry_at, read_entry, write_entry, link_entry,
  vmm_walk_and_crate_next_table,
}
use fesos.Vmm.Table.{
  IsTable, write_entry-IsValid, write_entry-IsTable, claimed-IsTable, new-IsTable, claimed-load64,
  new_entries,
}

-- The kernel with the frame at `p` linked as the next table.
abbrev pub link : Kernel → Kernel → ℕ → ℕ → ℕ → Kernel
link k k1 table index p =
    write_entry k1 (entry_at table index) (link_entry (read_entry k (entry_at table index)) p)

-- A frame that has become the next table: linked, in use, with entries that are all 0.
pub record Created (k : Kernel) (table index n : ℕ) (k1 : Kernel) : Type 0 where
  pub claimed : IsClaimed k n 1 k1
  pub valid : IsValid (link k k1 table index (n * 4096))
  pub old_table : IsTable (link k k1 table index (n * 4096)) table
  pub new_table : IsTable (link k k1 table index (n * 4096)) (direct_map_base + 4096 * n)
  pub linked :
      Links
        (link k k1 table index (n * 4096)).mem
        (entry_at table index)
        (direct_map_base + 4096 * n)
  pub empty :
      (i : ℕ)
      → i < 512
      → load64 (link k k1 table index (n * 4096)).mem (entry_at (direct_map_base + 4096 * n) i) ≡ 0

-- What one step of a walk does: it finds the next table; or it takes a free frame for a new one and
-- links it; or, with no frame left, it links frame 0 as if it were a new table.
pub data Walked (k : Kernel) (table index : ℕ) : Run ℕ → Type 0 where
  found : (t : ℕ) → Links k.mem (entry_at table index) t → Walked k table index (ok t k)
  created :
      (n : ℕ) {k1 : Kernel}
      → (read_entry k (entry_at table index)).present ≡ 0
      → Fits k 1 n
      → Created k table index n k1
      → Walked k table index (ok (direct_map_base + 4096 * n) (link k k1 table index (n * 4096)))
  out_of_frames :
      (read_entry k (entry_at table index)).present ≡ 0
      → ((b : ℕ) → ¬ Fits k 1 b)
      → Walked k table index (ok direct_map_base (link k k table index 0))

first-Fits :
    (k : Kernel) (n : ℕ) → Fits k 1 n → (n < k.pmm.bitmap_size_frames) × (get_bitmap_bit k n ≡ 0)
first-Fits k n free = let at : n + 0 ≡ n = omega arith in rw at at (free 0 (omega arith))

present_links :
    (k : Kernel) (table index : ℕ)
    → ((read_entry k (entry_at table index)).present == 0) ≡ false
    → Links k.mem (entry_at table index) (
        add64
          (mul64 (read_entry k (entry_at table index)).physical_address (2 ^ 12))
          direct_map_base)
unfolding read_entry
present_links k table index there = record { here = ==_false→ne _ 0 there; target = refl }

Links_of :
    (m : Bytes) (a t : ℕ) (e : PageTableEntry)
    → decode (load64 m a) ≡ e
    → e.present ≢ 0
    → add64 (mul64 e.physical_address (2 ^ 12)) direct_map_base ≡ t
    → Links m a t
Links_of m a t e back here target = record { here = rw back here; target = rw back target }

module _ (k : Kernel) (v : IsValid k) (table index : ℕ) (t : IsTable k table)
    (within : index < 512) where
  -- The new table is another frame than the table that leads to it.
  other_frame :
      (n : ℕ)
      → Fits k 1 n
      → (table + 4096 ≤ direct_map_base + 4096 * n) ⊎ (direct_map_base + 4096 * n + 4096 ≤ table)
  other_frame n free =
      let (_, zero_bit) = first-Fits k n free in
      let used = t.used in
      let at = t.at in
      elim (Bool-cases (t.frame == n)) [
        | inl same ↦
            let e = (==_iff t.frame n).0 same in
            let u : get_bitmap_bit k n ≡ 1 = rw e at used in absurd (omega arith)
        | inr other ↦ let ne = ==_false→ne t.frame n other in ground arith
      ]

  link_Links :
      (n : ℕ) (k1 : Kernel)
      → n < k.pmm.bitmap_size_frames
      → Links
          (link k k1 table index (n * 4096)).mem
          (entry_at table index)
          (direct_map_base + 4096 * n)
  unfolding write_entry read_entry link_entry
  link_Links n k1 lt =
      let old = decode (load64 k.mem (entry_at table index)) in
      let e = link_entry old (n * 4096) in
      let valid =
        link_entry-IsEntry old (n * 4096) (decode-IsEntry (load64 k.mem (entry_at table index))) in
      let back : decode
            (load64 (store64 k1.mem (entry_at table index) (encode e)) (entry_at table index))
          ≡ e =
        ap (λ raw. decode raw)
          (load64-store64 k1.mem (entry_at table index) (encode e) (encode_lt e valid))
        ∙ decode-encode e valid in
      let fits = v.fits in
      Links_of _ (entry_at table index) _ e back (λ z. omega arith) (omega arith)

  empty_after :
      (n : ℕ) (k1 : Kernel)
      → Fits k 1 n
      → IsClaimed k n 1 k1
      → (i : ℕ) → i < 512
      → load64 (link k k1 table index (n * 4096)).mem (entry_at (direct_map_base + 4096 * n) i) ≡ 0
  unfolding write_entry entry_at
  empty_after n k1 free c i lt =
      let other = other_frame n free in
      load64-Apart k1.mem (entry_at table index) _ (entry_at (direct_map_base + 4096 * n) i)
        (ground arith)
      ∙ new_entries k v n k1 free c i lt

  link-Created :
      (n : ℕ) (k1 : Kernel)
      → Fits k 1 n
      → IsClaimed k n 1 k1
      → IsValid k1
      → Created k table index n k1
  link-Created n k1 free c v1 =
      let t1 = claimed-IsTable k v n k1 free c table t in
      let e = link_entry (read_entry k (entry_at table index)) (n * 4096) in
      record {
        claimed = c;
        valid = write_entry-IsValid k1 v1 table index t1 within e;
        old_table = write_entry-IsTable k1 v1 table index t1 within e table t1;
        new_table =
            write_entry-IsTable k1 v1 table index t1 within e _ (new-IsTable k v n k1 free c);
        linked = link_Links n k1 ((first-Fits k n free).0);
        empty = λ i lt. empty_after n k1 free c i lt;
      }

  same_entry :
      (n : ℕ) (k1 : Kernel)
      → Fits k 1 n
      → IsClaimed k n 1 k1
      → read_entry k1 (entry_at table index) ≡ read_entry k (entry_at table index)
  unfolding read_entry
  same_entry n k1 free c =
      ap (λ raw. decode raw) (claimed-load64 k v n k1 free c table index t within)

  walk_create :
      {r : Run ℕ}
      → (read_entry k (entry_at table index)).present ≡ 0
      → Allocated k 1 1 r
      → Walked k table index (
          and_then r (λ p k'. ok (add64 p direct_map_base) (
            write_entry k'
              (entry_at table index)
              (link_entry (read_entry k' (entry_at table index)) p))))
  walk_create absent (null e none_fits) =
      rw e (out_of_frames absent (λ b. none_fits b (omega arith)))
  walk_create absent (taken n k1 e pos aligned free first claimed valid) =
      let at : (n * 4096 + direct_map_base) % 2 ^ 64 ≡ direct_map_base + 4096 * n =
        (let (lt, _) = first-Fits k n free in let fits = v.fits in omega arith) in
      let same = same_entry n k1 free claimed in
      rw (e, at, same) (created n absent free (link-Created n k1 free claimed valid))

-- In a kernel with a well-formed bitmap and a total frame count above 0, for an index below 512 in a
-- table that fills a frame in use: vmm_walk_and_crate_next_table returns. A present entry gives the
-- table it leads to and changes nothing. For an absent one it takes a free frame, clears it, and
-- links it, so that a further walk finds it; the bitmap stays well formed, and both tables fill
-- frames in use. With no free frame it links frame 0, and returns the start of the direct map.
pub vmm_walk_and_crate_next_table-Walked :
    (k : Kernel) (table index : ℕ)
    → IsValid k
    → 0 < k.pmm.memory_total_frame_count
    → IsTable k table
    → index < 512
    → Walked k table index (vmm_walk_and_crate_next_table table index k)
unfolding vmm_walk_and_crate_next_table
vmm_walk_and_crate_next_table-Walked k table index v total t within =
    elim (Bool-cases ((read_entry k (entry_at table index)).present == 0)) [
      | inr there ↦ rw there (found _ (present_links k table index there))
      | inl missing ↦ rw missing (
          walk_create k v table index t within ((==_iff _ 0).0 missing)
            (pmm_allocate_frames-Allocated k 1 4096 v (omega arith) total (omega arith)))
    ]
