-- ===== src/Strings.antt =====
-- Strings and blocks of memory, kernel/x86_64/common/stdstr.c, over the bytes of memory.
-- A string is the address of its first byte; `char` is signed, as the compilers for x86_64 have it.
-- A loop whose end depends on the memory runs on fuel, and gives `none` when that is used up.
pub mod Reverse
pub mod Digits
pub mod Print
pub mod Compare
pub mod Copy
mod Tests
use fesos.Prelude.{
  ℕ, zero, suc, ◌+◌, ◌-◌, ◌*◌, ◌/◌, ◌%◌, ◌^◌, Bool, true, false, ◌&&◌, Option, none, some, ◌==◌,
  ltb, leb, if◌then◌else◌, add64, sub64, mul64, bit_or,
}
use fesos.Machine.Memory.{Bytes, store8, load64, store64}

-- str_status_t
pub data StrStatus : Type 0 where
  success invalid_arg buffer_too_small : StrStatus

-- `while (str[len++]);` from `len` on
unfoldable pub str_len_loop : ℕ → Bytes → ℕ → ℕ → Option ℕ
str_len_loop zero m str len = none
str_len_loop (suc fuel) m str len =
    let rest = str_len_loop fuel m str (add64 len 1) in
    if m (str + len) == 0 then some (add64 len 1) else rest

unfoldable pub str_len : ℕ → Bytes → ℕ → Option ℕ
unfolding str_len_loop
str_len fuel m str = elim (str_len_loop fuel m str 0) [
  | none ↦ none
  | some len ↦ some (sub64 len 1)
]

-- The loop of str_reverse.
pub reverse_loop : ℕ → Bytes → ℕ → ℕ → ℕ → Option Bytes
reverse_loop zero m str left_ptr right_ptr = none
reverse_loop (suc fuel) m str left_ptr right_ptr =
    let temp = m (str + left_ptr) in
    let m1 = store8 m (str + left_ptr) (m (str + right_ptr)) in
    let m2 = store8 m1 (str + right_ptr) temp in
    let rest = reverse_loop fuel m2 str (add64 left_ptr 1) (sub64 right_ptr 1) in
    if leb left_ptr right_ptr then (if left_ptr == right_ptr then some m else rest) else some m

pub str_reverse : ℕ → Bytes → ℕ → ℕ → ℕ → Option (StrStatus × Bytes)
unfolding reverse_loop
str_reverse fuel m str start_index end_index =
    if str == 0
    then some (invalid_arg, m)
    else elim (reverse_loop fuel m str start_index (sub64 end_index 1)) [
      | none ↦ none
      | some m' ↦ some (success, m')
    ]

-- The loop that writes digits, lowest first, with room for `left` more: the memory, the index and
-- what is left of the number. `digit` is the character for the lowest digit of a number.
pub put_digits : (ℕ → ℕ) → ℕ → ℕ → ℕ → ℕ → ℕ → Bytes → Bytes × ℕ × ℕ
put_digits digit base buffer zero i number m = (m, i, number)
put_digits digit base buffer (suc left) i number m =
    let rest =
      put_digits digit base buffer left (add64 i 1) (number / base)
        (store8 m (buffer + i) (digit number)) in
    if ltb 0 number then rest else (m, i, number)

-- `0x30 + (number % 10)`
pub decimal_digit : ℕ → ℕ
decimal_digit number = 0x30 + number % 10

-- `hex_chars[number & 0xF]`: the table has the characters 0 to 9, then A to F.
pub hex_digit : ℕ → ℕ
hex_digit number = let d = number % 16 in if ltb d 10 then 0x30 + d else 0x41 + (d - 10)

-- What ultoa and ultox do after their loops; the digits start at index `first`.
pub finish_digits : ℕ → ℕ → ℕ → Bytes × ℕ × ℕ → Option (StrStatus × Bytes)
unfolding str_reverse str_len
finish_digits buffer size first (m, i, number) =
    let m' = store8 m (buffer + i) 0 in
    if ltb 0 number then some (buffer_too_small, m') else elim (str_len size m' buffer) [
      | none ↦ none
      | some len ↦ elim (str_reverse size m' buffer first len) [
        | none ↦ none
        | some (status, m'') ↦ some (success, m'')
      ]
    ]

pub ultoa : ℕ → ℕ → ℕ → Bytes → Option (StrStatus × Bytes)
unfolding finish_digits put_digits decimal_digit
ultoa number buffer size m =
    if buffer == 0
    then some (invalid_arg, m)
    else if ltb size 2
    then some (buffer_too_small, m)
    else if number == 0
    then some (success, store8 (store8 m buffer 0x30) (buffer + 1) 0)
    else finish_digits buffer size 0 (put_digits decimal_digit 10 buffer (size - 1) 0 number m)

pub ultox : ℕ → ℕ → ℕ → Bytes → Option (StrStatus × Bytes)
unfolding finish_digits put_digits hex_digit
ultox number buffer size m =
    let prefixed = store8 (store8 m buffer 0x30) (buffer + 1) 0x78 in
    if buffer == 0
    then some (invalid_arg, m)
    else if ltb size 4
    then some (buffer_too_small, m)
    else if number == 0
    then some (success, store8 (store8 prefixed (buffer + 2) 0x30) (buffer + 3) 0)
    else finish_digits buffer size 2 (put_digits hex_digit 16 buffer (size - 3) 2 number prefixed)

-- A signed char as an int, and the difference of two ints, as 32-bit patterns.
pub char_value : ℕ → ℕ
char_value c = if ltb c 128 then c else c + 2 ^ 32 - 256

pub char_difference : ℕ → ℕ → ℕ
unfolding char_value
char_difference a b = (char_value a + 2 ^ 32 - char_value b) % 2 ^ 32

pub str_cmp_loop : ℕ → Bytes → ℕ → ℕ → ℕ → Option ℕ
unfolding char_difference
str_cmp_loop zero m str_a str_b index = none
str_cmp_loop (suc fuel) m str_a str_b index =
    let a = m (str_a + index) in
    let b = m (str_b + index) in
    let comp = char_difference a b in
    let rest = str_cmp_loop fuel m str_a str_b (add64 index 1) in
    if ltb 0 a && ltb 0 b then (if comp == 0 then rest else some comp) else some comp

pub str_cmp : ℕ → Bytes → ℕ → ℕ → Option ℕ
unfolding str_cmp_loop
str_cmp fuel m str_a str_b = str_cmp_loop fuel m str_a str_b 0

-- From `index` on, with at most `left` rounds, the smaller of the two lengths less the index.
pub str_ncmp_loop : ℕ → Bytes → ℕ → ℕ → ℕ → ℕ → ℕ → ℕ
unfolding char_difference
str_ncmp_loop zero m str_a str_b len_a len_b index =
    if len_a == len_b
    then 0
    else if index == len_a
    then char_difference 0 (m (str_b + index))
    else char_difference (m (str_a + index)) 0
str_ncmp_loop (suc left) m str_a str_b len_a len_b index =
    let comp = char_difference (m (str_a + index)) (m (str_b + index)) in
    let rest = str_ncmp_loop left m str_a str_b len_a len_b (add64 index 1) in
    if comp == 0 then rest else comp

pub str_ncmp : Bytes → ℕ → ℕ → ℕ → ℕ → ℕ
unfolding str_ncmp_loop
str_ncmp m str_a str_b len_a len_b =
    str_ncmp_loop (if ltb len_a len_b then len_a else len_b) m str_a str_b len_a len_b 0

pub str_ncpy_loop : ℕ → Bytes → ℕ → ℕ → ℕ → Bytes
str_ncpy_loop zero m src dest index = m
str_ncpy_loop (suc left) m src dest index =
    str_ncpy_loop left (store8 m (dest + index) (m (src + index))) src dest (add64 index 1)

-- The result is the low 32 bits of `n`.
pub str_ncpy : Bytes → ℕ → ℕ → ℕ → ℕ × Bytes
unfolding str_ncpy_loop
str_ncpy m src dest n = (n % 2 ^ 32, str_ncpy_loop n m src dest 0)
