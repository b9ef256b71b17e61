-- ===== src/Strings/Print.antt =====
-- ultoa and ultox write a string that spells the number.
pub mod Finish
use fesos.Prelude.{
  ℕ, zero, suc, ◌+◌, ◌-◌, ◌*◌, ◌/◌, ◌%◌, ◌^◌, ◌≤◌, ◌<◌, ◌≡◌, ◌≢◌, inl, inr, refl, arith, ◌==◌,
  ==_iff, Bool-cases, false, ltb, if◌then◌else◌, ne→==_false, Option, some,
}
use native.Mathlib.Nat.{add-zero}
use fesos.Machine.Memory.{Bytes, IsBytes, store8, store8-IsBytes}
use fesos.Strings.{
  StrStatus, invalid_arg, buffer_too_small, put_digits, decimal_digit, hex_digit, ultoa, ultox,
}
use fesos.Strings.Digits.{put_digits-Digits, put_digits-IsBytes}
use Finish.{Printed, finish_digits-Printed, zero_Printed}

abbrev pub decimal_value : ℕ → ℕ
decimal_value c = c - 0x30

abbrev pub hex_value : ℕ → ℕ
hex_value c = if ltb c 0x41 then c - 0x30 else c - 0x41 + 10

decimal_byte : (n : ℕ) → decimal_digit n < 256
unfolding decimal_digit
decimal_byte n = omega arith

decimal_not_null : (n : ℕ) → decimal_digit n ≢ 0
unfolding decimal_digit
decimal_not_null n = λ e. omega arith

decimal_decode : (n : ℕ) → decimal_value (decimal_digit n) ≡ n % 10
unfolding decimal_digit
decimal_decode n = omega arith

decimal_split : (n : ℕ) → n / 10 * 10 + n % 10 ≡ n
decimal_split n = omega arith

hex_byte : (n : ℕ) → hex_digit n < 256
unfolding hex_digit
hex_byte n = ground arith

hex_not_null : (n : ℕ) → hex_digit n ≢ 0
unfolding hex_digit
hex_not_null n = ground arith

hex_decode : (n : ℕ) → hex_value (hex_digit n) ≡ n % 16
unfolding hex_digit
hex_decode n = ground arith

hex_split : (n : ℕ) → n / 16 * 16 + n % 16 ≡ n
hex_split n = omega arith

abbrev pub DecimalPrinted : ℕ → ℕ → ℕ → Bytes → Option (StrStatus × Bytes) → Type 0
DecimalPrinted buffer size number m o =
    Printed 10 decimal_digit decimal_value buffer size 0 number m o

abbrev pub HexPrinted : ℕ → ℕ → ℕ → Bytes → Option (StrStatus × Bytes) → Type 0
HexPrinted buffer size number m o =
    Printed 16 hex_digit hex_value buffer size 2 number
      (store8 (store8 m buffer 0x30) (buffer + 1) 0x78) o

-- For a buffer that is not NULL, of 2 bytes or more: where ultoa succeeds, the buffer holds a string
-- of decimal digits and a terminator within its size, the digits spell the number, and the first
-- is not 0 unless the number is 0; where it does not succeed, the status is that the buffer is too
-- small, and the number has more digits than the buffer has room for. No byte outside the buffer
-- changes.
pub ultoa-DecimalPrinted :
    (number buffer size : ℕ) (m : Bytes)
    → IsBytes m
    → buffer ≢ 0
    → 2 ≤ size
    → size < 2 ^ 64
    → DecimalPrinted buffer size number m (ultoa number buffer size m)
unfolding ultoa
ultoa-DecimalPrinted number buffer size m bytes ne room small =
    let enough : ltb size 2 ≡ false = ground arith in
    let rounds : size - 1 - 0 ≡ size - 1 = omega arith in
    rw (ne→==_false buffer 0 ne, enough)
      (elim (Bool-cases (number == 0)) [
        | inl nothing ↦
            let e = (==_iff number 0).0 nothing in
            rw (nothing, e)
              (rw (add-zero buffer) at (
                zero_Printed 10 decimal_digit decimal_value decimal_byte decimal_not_null
                  decimal_decode decimal_split buffer size 0 m (omega arith) small
                  (λ i lt. absurd (omega arith))))
        | inr more ↦ rw more (
            finish_digits-Printed 10 decimal_digit decimal_value decimal_byte decimal_not_null
              decimal_decode decimal_split buffer size 0 number m _
              (rw rounds (
                put_digits-Digits 10 decimal_digit decimal_byte (size - 1) buffer 0 number m
                  (omega arith)))
              (ground arith) (omega arith) small (λ i lt. absurd (omega arith)) ne
              (put_digits-IsBytes decimal_digit 10 buffer (size - 1) 0 number m bytes))
      ])

-- The prefix is there.
prefix_bytes :
    (buffer : ℕ) (m : Bytes) (i : ℕ)
    → i < 2
    → store8 (store8 m buffer 0x30) (buffer + 1) 0x78 (buffer + i) ≢ 0
unfolding store8
prefix_bytes buffer m i lt = λ e. ground arith

-- For a buffer that is not NULL, of 4 bytes or more: where ultox succeeds, the buffer holds 0x, a
-- string of hexadecimal digits and a terminator within its size, the digits spell the number, and
-- the first is not 0 unless the number is 0; where it does not succeed, the status is that the
-- buffer is too small, and the number has more digits than the buffer has room for. No byte outside
-- the buffer changes.
pub ultox-HexPrinted :
    (number buffer size : ℕ) (m : Bytes)
    → IsBytes m
    → buffer ≢ 0
    → 4 ≤ size
    → size < 2 ^ 64
    → HexPrinted buffer size number m (ultox number buffer size m)
unfolding ultox
ultox-HexPrinted number buffer size m bytes ne room small =
    let enough : ltb size 4 ≡ false = ground arith in
    let m1 = store8 (store8 m buffer 0x30) (buffer + 1) 0x78 in
    let bytes1 = store8-IsBytes (buffer + 1) 0x78 (store8-IsBytes buffer 0x30 bytes) in
    let rounds : size - 1 - 2 ≡ size - 3 = omega arith in
    rw (ne→==_false buffer 0 ne, enough)
      (elim (Bool-cases (number == 0)) [
        | inl nothing ↦
            let e = (==_iff number 0).0 nothing in
            rw (nothing, e)
              (zero_Printed 16 hex_digit hex_value hex_byte hex_not_null hex_decode hex_split buffer
                size 2 m1 (omega arith) small (prefix_bytes buffer m))
        | inr more ↦ rw more (
            finish_digits-Printed 16 hex_digit hex_value hex_byte hex_not_null hex_decode hex_split
              buffer size 2 number m1 _
              (rw rounds (
                put_digits-Digits 16 hex_digit hex_byte (size - 3) buffer 2 number m1
                  (omega arith)))
              (ground arith) (omega arith) small (prefix_bytes buffer m) ne
              (put_digits-IsBytes hex_digit 16 buffer (size - 3) 2 number m1 bytes1))
      ])
