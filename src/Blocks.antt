-- ===== src/Blocks.antt =====
-- memset, volatile_memset and memcpy of kernel/x86_64/common/stdstr.c: single bytes up to a multiple
-- of 8, words of 8 bytes, then the bytes that are left.
pub mod Written
pub mod Memset
pub mod Memcpy
mod Tests
use fesos.Prelude.{ℕ, zero, suc, ◌+◌, ◌*◌, ◌%◌, ◌^◌, ◌==◌, if◌then◌else◌, add64, mul64, bit_or}
use fesos.Machine.Memory.{Bytes, store8, load64, store64}

-- `while ((ptr8 & 0x7) && 0 < size)`: the memory, the pointer and the size after it.
pub fill_head : ℕ → ℕ → ℕ → Bytes → Bytes × ℕ × ℕ
fill_head pattern zero ptr8 m = (m, ptr8, 0)
fill_head pattern (suc size) ptr8 m =
    let rest = fill_head pattern size (add64 ptr8 1) (store8 m ptr8 pattern) in
    if ptr8 % 8 == 0 then (m, ptr8, suc size) else rest

-- `while (size >= 8)`
pub fill_words : ℕ → ℕ → ℕ → Bytes → Bytes × ℕ × ℕ
fill_words pattern64 (suc (suc (suc (suc (suc (suc (suc (suc size)))))))) ptr64 m =
    fill_words pattern64 size (add64 ptr64 8) (store64 m ptr64 pattern64)
fill_words pattern64 size ptr64 m = (m, ptr64, size)

-- `while (size > 0)`
pub fill_tail : ℕ → ℕ → ℕ → Bytes → Bytes
fill_tail pattern zero ptr8 m = m
fill_tail pattern (suc size) ptr8 m = fill_tail pattern size (add64 ptr8 1) (store8 m ptr8 pattern)

-- A byte repeated eight times.
pub repeated : ℕ → ℕ
repeated pattern =
    let pattern2 = bit_or pattern (mul64 pattern (2 ^ 8)) in
    let pattern4 = bit_or pattern2 (mul64 pattern2 (2 ^ 16)) in
    bit_or pattern4 (mul64 pattern4 (2 ^ 32))

pub memset : ℕ → ℕ → ℕ → Bytes → ℕ × Bytes
unfolding fill_head fill_words fill_tail repeated
memset start pattern size m =
    let (m1, ptr8, size1) = fill_head pattern size start m in
    let (m2, ptr64, size2) = fill_words (repeated pattern) size1 ptr8 m1 in
    (start, fill_tail pattern size2 ptr64 m2)

-- The same loops through volatile pointers.
pub volatile_memset : ℕ → ℕ → ℕ → Bytes → ℕ × Bytes
unfolding fill_head fill_words fill_tail repeated
volatile_memset start pattern size m =
    let (m1, ptr8, size1) = fill_head pattern size start m in
    let (m2, ptr64, size2) = fill_words (repeated pattern) size1 ptr8 m1 in
    (start, fill_tail pattern size2 ptr64 m2)

-- The three loops of memcpy: the memory, the two pointers and the size after each.
pub copy_head : ℕ → ℕ → ℕ → Bytes → Bytes × ℕ × ℕ × ℕ
copy_head zero dest8 src8 m = (m, dest8, src8, 0)
copy_head (suc size) dest8 src8 m =
    let rest = copy_head size (add64 dest8 1) (add64 src8 1) (store8 m dest8 (m src8)) in
    if dest8 % 8 == 0 then (m, dest8, src8, suc size) else rest

pub copy_words : ℕ → ℕ → ℕ → Bytes → Bytes × ℕ × ℕ × ℕ
copy_words (suc (suc (suc (suc (suc (suc (suc (suc size)))))))) dest64 src64 m =
    copy_words size (add64 dest64 8) (add64 src64 8) (store64 m dest64 (load64 m src64))
copy_words size dest64 src64 m = (m, dest64, src64, size)

pub copy_tail : ℕ → ℕ → ℕ → Bytes → Bytes
copy_tail zero dest8 src8 m = m
copy_tail (suc size) dest8 src8 m =
    copy_tail size (add64 dest8 1) (add64 src8 1) (store8 m dest8 (m src8))

-- `const uint8_t *src8 = (uint8_t*)src8;` reads the variable that it declares: `src8` is what the
-- compiler leaves in it, and the parameter `src` is not read.
pub memcpy : ℕ → ℕ → ℕ → ℕ → Bytes → ℕ × Bytes
unfolding copy_head copy_words copy_tail
memcpy dest src size src8 m =
    let (m1, dest1, src1, size1) = copy_head size dest src8 m in
    let (m2, dest2, src2, size2) = copy_words size1 dest1 src1 m1 in
    (dest, copy_tail size2 dest2 src2 m2)
