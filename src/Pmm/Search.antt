-- ===== src/Pmm/Search.antt =====
-- The outer loop of pmm_allocate_frames: a search for the first aligned base whose frames are free.
mod Multiples
use fesos.Prelude.{
  ℕ, zero, suc, ◌+◌, ◌-◌, ◌*◌, ◌/◌, ◌%◌, ◌^◌, ◌≤◌, ◌<◌, ◌≡◌, ◌≢◌, refl, ◌⊎◌, inl, inr, Bool, true,
  false, Option, none, some, arith, ◌==◌, leb, ltb, if◌then◌else◌, add64, ◌∙◌, Bool-cases, dec_lt,
  ltb→lt, ==_iff,
}
use mathlib.Core.Bool.{cond}
use fesos.Prelude.Bits.{bit-255}
use fesos.Machine.{Kernel}
use fesos.Machine.Memory.{load64, load64_ones}
use fesos.Pmm.{get_bitmap_bit, probe, skip_word, Scan, found_at, exhausted, out_of_rounds, scan}
use fesos.Pmm.Bitmap.{IsValid}
use fesos.Pmm.Probe.{Fits, Probed, past_end, all_free, in_use, probe-Probed}
use Multiples.{
  round_up, skip_word_lem, next_multiple, mod-add_step, round_up-le, le-round_up, round_up-mod,
  round_up-le_add,
}

-- What the search from base `from` on says.
pub data Scanned (k : Kernel) (count step from : ℕ) (r : Scan) : Type 0 where
  nothing :
      r ≡ exhausted
      → ((b : ℕ) → from ≤ b → b % step ≡ 0 → ¬ Fits k count b)
      → Scanned k count step from r
  first :
      (base : ℕ)
      → r ≡ found_at base
      → base % step ≡ 0
      → Fits k count base
      → ((b : ℕ) → from ≤ b → b < base → b % step ≡ 0 → ¬ Fits k count b)
      → Scanned k count step from r

module _ (k : Kernel) (v : IsValid k) (count step : ℕ) (some_frames : 0 < count)
    (some_step : 0 < step) (small_step : step < 2 ^ 52) where
  open v use {bytes, covers, fits}

  -- A round of the outer loop may pass over bases that do not fit.
  Scanned-later :
      {r : Scan} (from next : ℕ)
      → from ≤ next
      → ((b : ℕ) → from ≤ b → b < next → b % step ≡ 0 → ¬ Fits k count b)
      → Scanned k count step next r
      → Scanned k count step from r
  Scanned-later from next le skip (nothing e h) =
      nothing e
        (λ b lo m. elim (dec_lt b next) [ yes p ↦ skip b lo p m | no p ↦ h b (omega arith) m ])
  Scanned-later from next le skip (first base e m f h) = first base e m f (λ b lo hi mb.
      elim (dec_lt b next) [ yes p ↦ skip b lo p mb | no p ↦ h b (omega arith) hi mb ])

  -- Where a word of 64 bits is all ones its 64 frames are in use.
  word_in_use :
      (from b : ℕ)
      → from % 64 ≡ 0
      → load64 k.mem (k.pmm.bitmap + 8 * (from / 64)) ≡ 2 ^ 64 - 1
      → from ≤ b
      → b < from + 64
      → get_bitmap_bit k b ≡ 1
  unfolding get_bitmap_bit
  word_in_use from b e ones lo hi =
      let at : k.pmm.bitmap + 8 * (from / 64) + (b / 8 - 8 * (from / 64)) ≡ k.pmm.bitmap + b / 8 =
        omega arith in
      let full : k.mem (k.pmm.bitmap + b / 8) ≡ 255 = rw at at (
        load64_ones (k.pmm.bitmap + 8 * (from / 64)) (b / 8 - 8 * (from / 64)) bytes ones
          (omega arith)) in
      rw full (bit-255 0 (b % 8) (omega arith) (omega arith))

  past_word :
      (from : ℕ)
      → from % 64 ≡ 0
      → load64 k.mem (k.pmm.bitmap + 8 * (from / 64)) ≡ 2 ^ 64 - 1
      → (b : ℕ) → from ≤ b
      → b < round_up step (from + 64)
      → b % step ≡ 0
      → ¬ Fits k count b
  past_word from e ones b lo hi m f = ground (
    arith,
    f 0 some_frames,
    word_in_use from b e ones lo,
    round_up-le step (from + 64) b some_step,
  )

  past_base :
      (from n : ℕ)
      → from % step ≡ 0
      → n < count
      → get_bitmap_bit k (from + n) ≢ 0
      → (b : ℕ) → from ≤ b
      → b < from + step
      → b % step ≡ 0
      → ¬ Fits k count b
  past_base from n e lt used b lo hi m f =
      let b_from : b ≡ from = elim (dec_lt from b) [
        | yes p ↦ absurd (omega (arith, next_multiple step from b e m p))
        | no p ↦ omega arith
      ] in
      used (rw (← b_from) ((f n lt).1))

  not_past_end :
      (from b : ℕ) → k.pmm.bitmap_size_frames < from + count → from ≤ b → ¬ Fits k count b
  not_past_end from b h lo f = absurd (omega (arith, (f (count - 1) (omega arith)).0))

  -- A round that probes at `from`, where `r` is what the later rounds say.
  try_base-Scanned :
      {o : Option ℕ} {r : Scan} (from : ℕ)
      → from % step ≡ 0
      → Probed k from count 0 o
      → Scanned k count step (from + step) r
      → Scanned k count step from
          (elim o [ none ↦ exhausted | some found ↦ if found == count then found_at from else r ])
  try_base-Scanned from m (past_end e h) later =
      rw e (nothing refl (λ b lo mb. not_past_end from b h lo))
  try_base-Scanned from m (all_free e h) later =
      let same : (count == count) ≡ true = ground arith in
      rw (e, same)
        (first from refl m (λ i lt. h i (omega arith) lt) (λ b lo hi mb. absurd (omega arith)))
  try_base-Scanned from m (in_use n e lt used) later =
      let other : (n == count) ≡ false = ground arith in
      rw (e, other)
        (Scanned-later from (from + step) (omega arith) (past_base from n m lt used) later)

  pub scan-Scanned :
      (rounds from : ℕ)
      → from % step ≡ 0
      → k.pmm.bitmap_size_frames < from + rounds
      → 0 < rounds
      → from < 2 ^ 54
      → Scanned k count step from (scan k count step rounds from)
  unfolding scan
  scan-Scanned zero from m enough pos small = absurd (omega arith)
  scan-Scanned (suc rounds) from m enough pos small =
      elim (Bool-cases (ltb from k.pmm.bitmap_size_frames)) [
        | inr out ↦ rw out (nothing refl (λ b lo mb. not_past_end from b (ground arith) lo))
        | inl inside ↦
            let lt : from < k.pmm.bitmap_size_frames = ltb→lt _ _ inside in
            let step_sum : (from + step) % 2 ^ 64 ≡ from + step = omega arith in
            let next = round_up step (from + 64) in
            let word_sum = skip_word_lem step from some_step small_step (omega arith) in
            let next_ge : from + 64 ≤ next = le-round_up step (from + 64) in
            let next_le : next ≤ from + 64 + step = round_up-le_add step (from + 64) some_step in
            let later : Scanned k count step (from + step)
                (scan k count step rounds (add64 from step)) =
              rw step_sum (
                scan-Scanned rounds (from + step) (mod-add_step step from m) (omega arith)
                  (omega arith) (omega arith)) in
            let tried =
              try_base-Scanned from m
                (probe-Probed k from count count 0 (omega arith) (omega arith) (omega arith))
                later in
            let jumped =
              scan-Scanned rounds next (round_up-mod step (from + 64) some_step) (omega arith)
                (omega arith) (omega arith) in
            rw (inside, word_sum)
              (elim (Bool-cases (from % 64 == 0)) [
                | inr unaligned ↦ rw unaligned tried
                | inl aligned ↦
                    elim (Bool-cases
                      (load64 k.mem (k.pmm.bitmap + 8 * (from / 64)) == 2 ^ 64 - 1)) [
                        | inr some_free ↦ rw (aligned, some_free) tried
                        | inl full ↦
                            rw (aligned, full)
                              (Scanned-later from next (omega arith)
                                (past_word from ((==_iff _ _).0 aligned) ((==_iff _ _).0 full))
                                jumped)
                      ]
              ])
      ]
