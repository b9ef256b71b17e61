-- ===== src/Strings/Tests.antt =====
-- Runs of the string functions, and the theorems at a concrete memory.
use fesos.Prelude.{
  ℕ, ◌+◌, ◌-◌, ◌%◌, ◌^◌, ◌||◌, ◌≡◌, ◌↔◌, inl, refl, arith, ◌==◌, Option, none, some, if◌then◌else◌,
}
use fesos.Prelude.Gives.{Gives}
use fesos.Machine.Memory.{Bytes, store8}
use fesos.Blocks.Written.{Written}
use fesos.Strings.{
  StrStatus, success, buffer_too_small, str_len_loop, str_len, reverse_loop, str_reverse,
  put_digits, decimal_digit, hex_digit, finish_digits, ultoa, ultox, char_difference, char_value,
  str_cmp_loop, str_cmp, str_ncmp_loop, str_ncmp, str_ncpy,
}
use fesos.Strings.Reverse.{Mirrored, str_reverse-Mirrored}
use fesos.Strings.Print.{DecimalPrinted, HexPrinted, ultoa-DecimalPrinted, ultox-HexPrinted}
use fesos.Strings.Compare.{
  Compared, SameString, ComparedWithin, str_cmp-Compared, str_ncmp-ComparedWithin,
}
use fesos.Strings.Copy.{str_ncpy-Written}

-- "ab" at 100, "ac" at 200, and 170 everywhere else.
abbrev memory : Bytes
memory a =
    if a == 100 || a == 200
    then 97
    else if a == 101
    then 98
    else if a == 201
    then 99
    else if a == 102 || a == 202
    then 0
    else 170

byte_of : ℕ → Option (StrStatus × Bytes) → ℕ
byte_of a none = 256
byte_of a (some (success, m)) = m a
byte_of a (some (buffer_too_small, m)) = 1000 + m a
byte_of a (some (_, m)) = 2000

-- 305 is written as "305".
print_decimal_last : byte_of 302 (ultoa 305 300 8 memory) ≡ 0x35
unfolding byte_of ultoa put_digits decimal_digit finish_digits str_len str_len_loop str_reverse
    reverse_loop store8
print_decimal_last = refl

print_decimal_end : byte_of 303 (ultoa 305 300 8 memory) ≡ 0
unfolding byte_of ultoa put_digits decimal_digit finish_digits str_len str_len_loop str_reverse
    reverse_loop store8
print_decimal_end = refl

print_no_room : byte_of 300 (ultoa 305 300 3 memory) ≡ 1000 + 0x35
unfolding byte_of ultoa put_digits decimal_digit finish_digits str_len str_len_loop str_reverse
    reverse_loop store8
print_no_room = refl

-- 0xA7 is written as "0xA7".
print_hex_first : byte_of 302 (ultox 167 300 8 memory) ≡ 0x41
unfolding byte_of ultox put_digits hex_digit finish_digits str_len str_len_loop str_reverse
    reverse_loop store8
print_hex_first = refl

-- "ab" comes before "ac", with a result below 0.
compare_differ : str_cmp 10 memory 100 200 ≡ some (2 ^ 32 - 1)
unfolding str_cmp str_cmp_loop char_difference char_value
compare_differ = refl

compare_prefix : str_ncmp memory 100 200 1 2 ≡ 2 ^ 32 - 99
unfolding str_ncmp str_ncmp_loop char_difference char_value
compare_prefix = refl

str_reverse-Mirrored_example :
    Gives {A = StrStatus × Bytes}
      (λ r. (r.0 ≡ success) × Mirrored (100 + 0) (100 + (2 - 1)) memory (r.1))
      (str_reverse 4 memory 100 0 2)
str_reverse-Mirrored_example =
    str_reverse-Mirrored 4 memory 100 0 2 (λ a. ground arith) (omega arith) (omega arith)
      (omega arith) (omega arith) (omega arith) (omega arith)

ultoa-DecimalPrinted_example : DecimalPrinted 300 8 305 memory (ultoa 305 300 8 memory)
ultoa-DecimalPrinted_example =
    ultoa-DecimalPrinted 305 300 8 memory (λ a. ground arith) (λ e. absurd (omega arith))
      (omega arith) (omega arith)

ultox-HexPrinted_example : HexPrinted 300 8 167 memory (ultox 167 300 8 memory)
ultox-HexPrinted_example =
    ultox-HexPrinted 167 300 8 memory (λ a. ground arith) (λ e. absurd (omega arith)) (omega arith)
      (omega arith)

str_cmp-Compared_example :
    Compared memory 100 200 0 (str_cmp 10 memory 100 200)
    × ((str_cmp 10 memory 100 200 ≡ some 0) ↔ SameString memory 100 200)
str_cmp-Compared_example =
    str_cmp-Compared 10 2 memory 100 200 (λ a. ground arith) (omega arith) (omega arith) (inl refl)

str_ncmp-ComparedWithin_example : ComparedWithin memory 100 200 1 2 0 (str_ncmp memory 100 200 1 2)
str_ncmp-ComparedWithin_example =
    str_ncmp-ComparedWithin memory 100 200 1 2 (λ a. ground arith) (omega arith) (omega arith)

str_ncpy-Written_example :
    ((str_ncpy memory 100 300 3).0 ≡ 3 % 2 ^ 32)
    × Written (λ x. memory (100 + (x - 300))) 300 (300 + 3) memory ((str_ncpy memory 100 300 3).1)
str_ncpy-Written_example =
    str_ncpy-Written memory 100 300 3 (λ a. ground arith) (omega arith) (inl (omega arith))
