-- ===== src/Prelude/Bits.antt =====
-- Single bits of a byte. The laws are checked for every byte and every two bit positions.
use Prim.Native.Nat.{ℕ, zero, suc, ◌+◌, ◌-◌, ◌*◌, ◌/◌, ◌%◌, ◌^◌, ◌≤◌, ◌<◌, bit_and, bit_or}
use mathlib.Core.Path.{◌≡◌, refl}
use mathlib.Core.Bool.{Bool, true, false, ◌&&◌}
use mathlib.Core.Logic.{inl, inr}
use native.Mathlib.Omega.{arith}
use fesos.Prelude.Tests.{
  ◌==◌, ==_iff, Bool-cases, if◌then◌else◌, ltb, leb, ltb→lt, leb→le, and_left, and_right,
}

-- `test` passes at every number below the bound.
unfoldable pub holds_below : (test : ℕ → Bool) → ℕ → Bool
holds_below test zero = true
holds_below test (suc m) = if test m then holds_below test m else false

pub holds_below_at :
    (test : ℕ → Bool) {x : ℕ} (m : ℕ) → x < m → holds_below test m ≡ true → test x ≡ true
unfolding holds_below
holds_below_at test zero below passed = absurd (omega arith)
holds_below_at test {x} (suc m) below passed = elim (Bool-cases (test m)) [
  | inr bad ↦ cc (rw bad at passed)
  | inl good ↦ ground (arith, holds_below_at test {x = x} m)
]

-- `(b >> i) & 1`, `b | (1 << i)`, and `b & ((254 << i) | ((1 << i) - 1))` cut to a byte.
abbrev pub bit : ℕ → ℕ → ℕ
bit b i = bit_and (b / 2 ^ i) 1

abbrev pub with_bit : ℕ → ℕ → ℕ
with_bit b i = bit_or b (1 * 2 ^ i)

abbrev pub without_bit : ℕ → ℕ → ℕ
without_bit b i = bit_and b (bit_or (254 * 2 ^ i) (1 * 2 ^ i - 1))

abbrev at_bits : (ℕ → ℕ → ℕ → Bool) → ℕ → Bool
at_bits p n = p (n / 64) (n / 8 % 8) (n % 8)

at_bits_sound :
    (p : ℕ → ℕ → ℕ → Bool) (b i j : ℕ)
    → holds_below (at_bits p) 16384 ≡ true
    → b < 256
    → i < 8
    → j < 8
    → p b i j ≡ true
at_bits_sound p b i j h hb hi hj =
    let n : ℕ = b * 64 + i * 8 + j in
    let eb : n / 64 ≡ b = omega arith in
    let ei : n / 8 % 8 ≡ i = omega arith in
    let ej : n % 8 ≡ j = omega arith in
    rw (eb, ei, ej) at (holds_below_at (at_bits p) {x = n} 16384 (omega arith) h)

-- The laws as tests.
abbrev sets_one : ℕ → ℕ → ℕ → Bool
sets_one b i j = bit (with_bit b i) j == (if i == j then 1 else bit b j)

abbrev clears_one : ℕ → ℕ → ℕ → Bool
clears_one b i j = bit (without_bit b i) j == (if i == j then 0 else bit b j)

abbrev keeps_byte : ℕ → ℕ → ℕ → Bool
keeps_byte b i j = ltb (with_bit b i) 256 && ltb (without_bit b i) 256

abbrev bits_are_small : ℕ → ℕ → ℕ → Bool
bits_are_small b i j = (bit 255 i == 1) && leb (bit b i) 1

bit_tables :
    (holds_below (at_bits sets_one) 16384 ≡ true)
    × (holds_below (at_bits clears_one) 16384 ≡ true)
    × (holds_below (at_bits keeps_byte) 16384 ≡ true)
    × (holds_below (at_bits bits_are_small) 16384 ≡ true)
unfolding holds_below
bit_tables = (refl, refl, refl, refl)

module _ (b i j : ℕ) (hb : b < 256) (hi : i < 8) (hj : j < 8) where
  -- Setting bit `i` makes it 1 and leaves the other bits.
  pub bit-with_bit : bit (with_bit b i) j ≡ (if i == j then 1 else bit b j)
  bit-with_bit = (==_iff _ _).0 (at_bits_sound sets_one b i j bit_tables.0 hb hi hj)

  -- Clearing bit `i` makes it 0 and leaves the other bits.
  pub bit-without_bit : bit (without_bit b i) j ≡ (if i == j then 0 else bit b j)
  bit-without_bit = (==_iff _ _).0 (at_bits_sound clears_one b i j bit_tables.1 hb hi hj)

module _ (b i : ℕ) (hb : b < 256) (hi : i < 8) where
  kept : keeps_byte b i 0 ≡ true
  kept = at_bits_sound keeps_byte b i 0 bit_tables.2 hb hi (omega arith)

  small : bits_are_small b i 0 ≡ true
  small = at_bits_sound bits_are_small b i 0 bit_tables.3 hb hi (omega arith)

  pub with_bit-lt : with_bit b i < 256
  with_bit-lt = ltb→lt (with_bit b i) 256 (and_left _ (ltb (without_bit b i) 256) kept)

  pub without_bit-lt : without_bit b i < 256
  without_bit-lt = ltb→lt (without_bit b i) 256 (and_right (ltb (with_bit b i) 256) _ kept)

  pub bit-le-one : bit b i ≤ 1
  bit-le-one = leb→le (bit b i) 1 (and_right (bit 255 i == 1) _ small)

  pub bit-255 : bit 255 i ≡ 1
  bit-255 = (==_iff (bit 255 i) 1).0 (and_left (bit 255 i == 1) (leb (bit b i) 1) small)
