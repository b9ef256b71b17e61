-- ===== src/Vmm/Table.antt =====
-- Frames that are page tables, and what writing an entry and taking a frame do to them.
use fesos.Prelude.{
  ℕ, ◌+◌, ◌-◌, ◌*◌, ◌/◌, ◌≤◌, ◌<◌, ◌≡◌, ◌≢◌, ◌⊎◌, inl, inr, refl, arith, ◌∙◌, ap, sym, ◌==◌, ==_iff,
  ==_false→ne, Bool-cases,
}
use fesos.Machine.{Kernel}
use fesos.Machine.Memory.{load64, store64_outside, store64-IsBytes, load64_ext}
use fesos.Pmm.{direct_map_base, get_bitmap_bit}
use fesos.Pmm.Bitmap.{bitmap_frame, IsValid, get_bitmap_bit_ext}
use fesos.Pmm.Claim.{IsClaimed}
use fesos.Pmm.Probe.{Fits}
use fesos.Vmm.{PageTableEntry, encode, entry_at, write_entry}

-- A table fills a frame that is in use and that holds no byte of the bitmap.
pub record IsTable (k : Kernel) (table : ℕ) : Type 0 where
  pub frame : ℕ
  pub at : table ≡ direct_map_base + 4096 * frame
  pub exists : frame < k.pmm.bitmap_size_frames
  pub used : get_bitmap_bit k frame ≡ 1
  pub no_bitmap : (i : ℕ) → i < k.pmm.bitmap_size_bytes → bitmap_frame k i ≢ frame

module _ (k : Kernel) (v : IsValid k) (table index : ℕ) (t : IsTable k table)
    (within : index < 512) where
  -- The bitmap has no byte in an entry of a table.
  bitmap_apart :
      (i : ℕ)
      → i < k.pmm.bitmap_size_bytes
      → (k.pmm.bitmap + i < entry_at table index) ⊎ (entry_at table index + 8 ≤ k.pmm.bitmap + i)
  unfolding entry_at
  bitmap_apart i lt =
      let ne = t.no_bitmap i lt in let at = t.at in let mapped = v.mapped in ground (arith, ne)

  module _ (e : PageTableEntry) where
    bit-write_entry :
        (j : ℕ)
        → j < k.pmm.bitmap_size_frames
        → get_bitmap_bit (write_entry k (entry_at table index) e) j ≡ get_bitmap_bit k j
    unfolding write_entry
    bit-write_entry j lt =
        let covers = v.covers in
        get_bitmap_bit_ext k (write_entry k (entry_at table index) e) j refl (
          store64_outside k.mem (entry_at table index) (encode e) (k.pmm.bitmap + j / 8)
            (bitmap_apart (j / 8) (omega arith)))

    pub write_entry-IsValid : IsValid (write_entry k (entry_at table index) e)
    unfolding write_entry
    write_entry-IsValid =
        let exists = t.exists in
        record {
          bytes = store64-IsBytes (entry_at table index) (encode e) v.bytes;
          mapped = v.mapped;
          covers = v.covers;
          fits = v.fits;
          reserved = λ i lt ex. bit-write_entry _ ex ∙ v.reserved i lt ex;
          null_used = bit-write_entry 0 (omega arith) ∙ v.null_used;
        }

    pub write_entry-IsTable :
        (other : ℕ) → IsTable k other → IsTable (write_entry k (entry_at table index) e) other
    unfolding write_entry
    write_entry-IsTable other o = record {
      frame = o.frame;
      at = o.at;
      exists = o.exists;
      used = bit-write_entry o.frame o.exists ∙ o.used;
      no_bitmap = o.no_bitmap;
    }

-- What a frame that has been taken is to the tables.
module _ (k : Kernel) (v : IsValid k) (n : ℕ) (k1 : Kernel) (free : Fits k 1 n)
    (c : IsClaimed k n 1 k1) where
  free_frame : (n < k.pmm.bitmap_size_frames) × (get_bitmap_bit k n ≡ 0)
  free_frame = let at : n + 0 ≡ n = omega arith in rw at at (free 0 (omega arith))

  same_frame : (i : ℕ) → bitmap_frame k1 i ≡ bitmap_frame k i
  same_frame i = ap (λ b. (b + i - direct_map_base) / 4096) c.same_bitmap

  pub claimed-IsTable : (table : ℕ) → IsTable k table → IsTable k1 table
  claimed-IsTable table t =
      let exists = t.exists in
      let covers = v.covers in
      let used = t.used in
      let (_, zero_bit) = free_frame in
      let frames = c.same_frames in
      let bytes = c.same_bytes in
      record {
        frame = t.frame;
        at = t.at;
        exists = omega arith;
        used = ground (arith, c.bits t.frame (omega arith));
        no_bitmap = λ i lt e. t.no_bitmap i (omega arith) (sym (same_frame i) ∙ e);
      }

  pub new-IsTable : IsTable k1 (direct_map_base + 4096 * n)
  new-IsTable =
      let (exists, zero_bit) = free_frame in
      let covers = v.covers in
      let frames = c.same_frames in
      let bytes = c.same_bytes in
      record {
        frame = n;
        at = refl;
        exists = omega arith;
        used = ground (arith, c.bits n (omega arith));
        no_bitmap = λ i lt e.
            let e' : bitmap_frame k i ≡ n = sym (same_frame i) ∙ e in
            let reserved = v.reserved i (omega arith) (omega arith) in
            let reserved' : get_bitmap_bit k n ≡ 1 = rw e' at reserved in omega arith;
      }

  -- The entries of other tables are as they were.
  pub claimed-load64 :
      (table index : ℕ)
      → IsTable k table
      → index < 512
      → load64 k1.mem (entry_at table index) ≡ load64 k.mem (entry_at table index)
  unfolding entry_at
  claimed-load64 table index t within = load64_ext k.mem k1.mem (entry_at table index) (λ i lt.
      let at = t.at in
      let used = t.used in
      let exists = t.exists in
      let (_, zero_bit) = free_frame in
      let apart : t.frame ≢ n = elim (Bool-cases (t.frame == n)) [
        | inl same ↦ absurd (
            let e = (==_iff t.frame n).0 same in
            let u : get_bitmap_bit k n ≡ 1 = rw e at used in omega arith)
        | inr other ↦ ==_false→ne t.frame n other
      ] in
      let no_bitmap = bitmap_apart k v table index t within in
      c.kept (table + 8 * index + i) (ground arith)
        (ground (arith, no_bitmap (table + 8 * index + i - k.pmm.bitmap))))

  pub new_entries :
      (index : ℕ) → index < 512 → load64 k1.mem (entry_at (direct_map_base + 4096 * n) index) ≡ 0
  unfolding entry_at load64
  new_entries index within =
      let a = direct_map_base + 4096 * n + 8 * index in
      let zero_at : (x : ℕ) → a ≤ x → x < a + 8 → k1.mem x ≡ 0 =
        λ x lo hi. c.cleared x (ground arith) in
      rw
        (
          zero_at a (omega arith) (omega arith),
          zero_at (a + 1) (omega arith) (omega arith),
          zero_at (a + 2) (omega arith) (omega arith),
          zero_at (a + 3) (omega arith) (omega arith),
          zero_at (a + 4) (omega arith) (omega arith),
          zero_at (a + 5) (omega arith) (omega arith),
          zero_at (a + 6) (omega arith) (omega arith),
          zero_at (a + 7) (omega arith) (omega arith),
        )
        refl
