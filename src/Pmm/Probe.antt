-- ===== src/Pmm/Probe.antt =====
-- The inner loop of pmm_allocate_frames: how far the free frames reach from a base.
use fesos.Prelude.{
  ℕ, zero, suc, ◌+◌, ◌%◌, ◌^◌, ◌≤◌, ◌<◌, ◌≡◌, ◌≢◌, refl, inl, inr, Option, none, some, arith, ◌==◌,
  leb, Bool-cases,
}
use fesos.Machine.{Kernel}
use fesos.Pmm.{get_bitmap_bit, probe}

-- The `count` frames from `base` on exist and are free.
abbrev pub Fits : Kernel → ℕ → ℕ → Type 0
Fits k count base =
    (i : ℕ) → i < count → (base + i < k.pmm.bitmap_size_frames) × (get_bitmap_bit k (base + i) ≡ 0)

-- What a probe of `count` frames from `base` on says, of the frames from number `i` on.
pub data Probed (k : Kernel) (base count i : ℕ) (r : Option ℕ) : Type 0 where
  past_end : r ≡ none → k.pmm.bitmap_size_frames < base + count → Probed k base count i r
  all_free :
      r ≡ some count
      → ((j : ℕ)
          → i ≤ j
          → j < count
          → (base + j < k.pmm.bitmap_size_frames) × (get_bitmap_bit k (base + j) ≡ 0))
      → Probed k base count i r
  in_use :
      (n : ℕ) → r ≡ some n → n < count → get_bitmap_bit k (base + n) ≢ 0 → Probed k base count i r

module _ (k : Kernel) (base count : ℕ) where
  Probed-suc :
      {r : Option ℕ} (i : ℕ)
      → base + i < k.pmm.bitmap_size_frames
      → get_bitmap_bit k (base + i) ≡ 0
      → Probed k base count (suc i) r
      → Probed k base count i r
  Probed-suc i lt free (past_end e h) = past_end e h
  Probed-suc i lt free (all_free e h) = all_free e (λ j lo hi. ground (arith, h j))
  Probed-suc i lt free (in_use n e h u) = in_use n e h u

  pub probe-Probed :
      (left i : ℕ)
      → i + left ≡ count
      → k.pmm.bitmap_size_frames < 2 ^ 63
      → base + i ≤ k.pmm.bitmap_size_frames
      → Probed k base count i (probe k base left i i)
  unfolding probe
  probe-Probed zero i e small h = all_free (ground arith) (λ j lo hi. absurd (omega arith))
  probe-Probed (suc left) i e small h =
      let at_i : (base + i) % 2 ^ 64 ≡ base + i = omega arith in
      let next : (i + 1) % 2 ^ 64 ≡ suc i = omega arith in
      rw (at_i, next)
        (elim (Bool-cases (leb k.pmm.bitmap_size_frames (base + i))) [
          | inl out ↦ rw out (past_end refl (ground arith))
          | inr inside ↦ rw inside (elim (Bool-cases (get_bitmap_bit k (base + i) == 0)) [
            | inl free ↦ rw free (
                Probed-suc i (ground arith) (ground arith)
                  (probe-Probed left (suc i) (omega arith) small (ground arith)))
            | inr taken ↦ rw taken (in_use i refl (omega arith) (ground arith))
          ])
        ])
