-- ===== src/Pmm/Search/Multiples.antt =====
-- The bases that the search visits are the multiples of the step.
use fesos.Prelude.{
  ℕ, ◌+◌, ◌-◌, ◌*◌, ◌/◌, ◌%◌, ◌^◌, ◌≤◌, ◌<◌, ◌≡◌, arith, ◌==◌, if◌then◌else◌, add64, dec_lt, ap,
  ◌∙◌,
}
use native.Mathlib.Nat.{div-add-mod, mod-lt, mod-eq_of_lt, mul-mod_right, mod-eq-sub-mod}
use fesos.Pmm.{skip_word}

-- The least multiple of `step` that is at least `m`.
pub round_up : ℕ → ℕ → ℕ
round_up step m = if m % step == 0 then m else m + (step - m % step)

-- A multiple is the step times its quotient.
multiple : (step b : ℕ) → b % step ≡ 0 → step * (b / step) ≡ b
multiple step b e = omega (arith, div-add-mod b step, e)

positive_multiple : (step m : ℕ) → 0 < m → m % step ≡ 0 → step ≤ m
positive_multiple step m pos e = elim (dec_lt m step) [
  | yes p ↦ absurd (omega (arith, mod-eq_of_lt p))
  | no p ↦ omega arith
]

pub skip_word_lem :
    (step base : ℕ)
    → 0 < step
    → step < 2 ^ 52
    → base < 2 ^ 62
    → add64 (skip_word step base) step ≡ round_up step (base + 64)
unfolding skip_word round_up
skip_word_lem step base pos small lt =
    let e : (base + 64) % 2 ^ 64 ≡ base + 64 = omega arith in
    rw e (
      ground (
        arith,
        mod-lt (base + 64) pos,
        div-add-mod (base + 64) step,
        positive_multiple step (base + 64),
      ))

-- Two multiples are equal or at least a step apart.
pub next_multiple : (step from b : ℕ) → from % step ≡ 0 → b % step ≡ 0 → from < b → from + step ≤ b
next_multiple step from b e e' lt =
    let p = from / step in
    let q = b / step in
    elim (dec_lt p q) [
      | yes h ↦
          let apart : q ≡ p + 1 + (q - (p + 1)) = omega arith in
          omega (arith, multiple step from e, multiple step b e', ap (λ (t : ℕ). step * t) apart)
      | no h ↦
          let apart : p ≡ q + (p - q) = omega arith in
          absurd (
            omega (arith, multiple step from e, multiple step b e', ap (λ (t : ℕ). step * t) apart))
    ]

pub mod-add_step : (step b : ℕ) → b % step ≡ 0 → (b + step) % step ≡ 0
mod-add_step step b e =
    mod-eq-sub-mod {n = b + step} {m = step} (omega arith)
    ∙ ap (λ (t : ℕ). t % step) (omega arith)
    ∙ e

floor-mod : (step m : ℕ) → (m - m % step) % step ≡ 0
floor-mod step m =
    ap (λ (t : ℕ). t % step) (omega (arith, div-add-mod m step)) ∙ mul-mod_right step (m / step)

-- No multiple of `step` lies between `m` and the next one.
pub round_up-le : (step m b : ℕ) → 0 < step → m ≤ b → b % step ≡ 0 → round_up step m ≤ b
unfolding round_up
round_up-le step m b pos le e =
    ground (arith, mod-lt m pos, next_multiple step (m - m % step) b (floor-mod step m) e)

pub le-round_up : (step m : ℕ) → m ≤ round_up step m
unfolding round_up
le-round_up step m = ground arith

pub round_up-le_add : (step m : ℕ) → 0 < step → round_up step m ≤ m + step
unfolding round_up
round_up-le_add step m pos = ground (arith, mod-lt m pos)

pub round_up-mod : (step m : ℕ) → 0 < step → round_up step m % step ≡ 0
unfolding round_up
round_up-mod step m pos =
    let e : m - m % step + step ≡ m + (step - m % step) =
      omega (arith, mod-lt m pos, div-add-mod m step) in
    let f : (m + (step - m % step)) % step ≡ 0 =
      rw e at (mod-add_step step (m - m % step) (floor-mod step m)) in
    ground (arith, f)
