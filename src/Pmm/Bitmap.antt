-- ===== src/Pmm/Bitmap.antt =====
-- What one bit operation and one cleared page do to the bits, and when a bitmap is well formed.
use fesos.Prelude.{
  ℕ, zero, suc, ◌+◌, ◌-◌, ◌*◌, ◌/◌, ◌%◌, ◌^◌, ◌≤◌, ◌<◌, ◌≡◌, ◌&&◌, arith, ◌==◌, leb, ltb,
  if◌then◌else◌, add64,
}
use fesos.Prelude.Bits.{bit-with_bit, bit-without_bit, with_bit-lt, without_bit-lt, bit-le-one}
use fesos.Machine.{Kernel}
use fesos.Machine.Memory.{
  Bytes, IsBytes, store8, store64, store8-IsBytes, store64-IsBytes, store64_outside, store64-zero,
}
use fesos.Pmm.{
  direct_map_base, get_bitmap_bit, set_bitmap_bit, unset_bitmap_bit, zero_words, pmm_zero_page,
}

-- The frame that holds byte `i` of the bitmap.
abbrev pub bitmap_frame : Kernel → ℕ → ℕ
bitmap_frame k i = (k.pmm.bitmap + i - direct_map_base) / 4096

-- The bitmap lies in the direct map and has a bit for each frame; the frames that hold it, and the
-- frame at address 0, are marked in use.
pub record IsValid (k : Kernel) : Type 0 where
  pub bytes : IsBytes k.mem
  pub mapped : direct_map_base ≤ k.pmm.bitmap
  pub covers : k.pmm.bitmap_size_frames ≤ 8 * k.pmm.bitmap_size_bytes
  pub fits : direct_map_base + 4096 * k.pmm.bitmap_size_frames ≤ 2 ^ 64
  pub reserved :
      (i : ℕ)
      → i < k.pmm.bitmap_size_bytes
      → bitmap_frame k i < k.pmm.bitmap_size_frames
      → get_bitmap_bit k (bitmap_frame k i) ≡ 1
  pub null_used : get_bitmap_bit k 0 ≡ 1

module _ (k : Kernel) (n j : ℕ) (bytes : IsBytes k.mem) where
  pub get-set_bitmap_bit :
      get_bitmap_bit (set_bitmap_bit k n) j ≡ (if n == j then 1 else get_bitmap_bit k j)
  unfolding get_bitmap_bit set_bitmap_bit store8
  get-set_bitmap_bit =
      let a = k.pmm.bitmap + n / 8 in
      ground (arith, bytes a, bit-with_bit (k.mem a) (n % 8) (j % 8), with_bit-lt (k.mem a) (n % 8))

  pub get-unset_bitmap_bit :
      get_bitmap_bit (unset_bitmap_bit k n) j ≡ (if n == j then 0 else get_bitmap_bit k j)
  unfolding get_bitmap_bit unset_bitmap_bit store8
  get-unset_bitmap_bit =
      let a = k.pmm.bitmap + n / 8 in
      ground (
        arith,
        bytes a,
        bit-without_bit (k.mem a) (n % 8) (j % 8),
        without_bit-lt (k.mem a) (n % 8),
      )

pub get_bitmap_bit-le-one : (k : Kernel) (n : ℕ) → IsBytes k.mem → get_bitmap_bit k n ≤ 1
unfolding get_bitmap_bit
get_bitmap_bit-le-one k n bytes =
    bit-le-one (k.mem (k.pmm.bitmap + n / 8)) (n % 8) (bytes _) (omega arith)

zero_words_lem :
    (m : Bytes) (ptr left i x : ℕ)
    → zero_words m ptr left i x
      ≡ (if leb (ptr + 8 * i) x && ltb x (ptr + 8 * (i + left)) then 0 else m x)
unfolding zero_words
zero_words_lem m ptr zero i x = ground arith
zero_words_lem m ptr (suc left) i x =
    let a = ptr + 8 * i in
    ground (
      arith,
      zero_words_lem (store64 m a 0) ptr left (i + 1) x,
      store64_outside m a 0 x,
      store64-zero m a x,
    )

zero_words-IsBytes : (m : Bytes) (ptr left i : ℕ) → IsBytes m → IsBytes (zero_words m ptr left i)
unfolding zero_words
zero_words-IsBytes m ptr zero i h = h
zero_words-IsBytes m ptr (suc left) i h =
    zero_words-IsBytes (store64 m (ptr + 8 * i) 0) ptr left (i + 1)
      (store64-IsBytes (ptr + 8 * i) 0 h)

pub pmm_zero_page_lem :
    (k : Kernel) (p x : ℕ)
    → p + direct_map_base < 2 ^ 64
    → (pmm_zero_page k p).mem x
      ≡ (if leb (direct_map_base + p) x && ltb x (direct_map_base + p + 4096) then 0 else k.mem x)
unfolding pmm_zero_page
pmm_zero_page_lem k p x h = ground (arith, zero_words_lem k.mem (add64 p direct_map_base) 512 0 x)

pub pmm_zero_page-IsBytes : (k : Kernel) (p : ℕ) → IsBytes k.mem → IsBytes (pmm_zero_page k p).mem
unfolding pmm_zero_page
pmm_zero_page-IsBytes k p h = zero_words-IsBytes k.mem (add64 p direct_map_base) 512 0 h

pub set_bitmap_bit-IsBytes : (k : Kernel) (n : ℕ) → IsBytes k.mem → IsBytes (set_bitmap_bit k n).mem
unfolding set_bitmap_bit
set_bitmap_bit-IsBytes k n h = store8-IsBytes _ _ h

pub unset_bitmap_bit-IsBytes :
    (k : Kernel) (n : ℕ) → IsBytes k.mem → IsBytes (unset_bitmap_bit k n).mem
unfolding unset_bitmap_bit
unset_bitmap_bit-IsBytes k n h = store8-IsBytes _ _ h

-- A bit depends on its byte only.
pub get_bitmap_bit_ext :
    (k k' : Kernel) (j : ℕ)
    → k'.pmm.bitmap ≡ k.pmm.bitmap
    → k'.mem (k.pmm.bitmap + j / 8) ≡ k.mem (k.pmm.bitmap + j / 8)
    → get_bitmap_bit k' j ≡ get_bitmap_bit k j
unfolding get_bitmap_bit
get_bitmap_bit_ext k k' j e h = cc
