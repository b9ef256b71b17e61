-- ===== src/Machine.antt =====
-- What the memory managers share: the bytes of memory, the static state of the kernel, and runs of
-- its functions, which end in a value or halt.
pub mod Memory
use fesos.Prelude.{ℕ, ◌-◌, ◌^◌, ◌≡◌, refl}
use fesos.Machine.Memory.{Bytes}

-- The static variables of kernel/x86_64/memory/pmm.c. `bitmap` is the address of the bitmap.
pub record Pmm : Type 0 where
  pub bitmap : ℕ
  pub bitmap_size_bytes : ℕ
  pub bitmap_size_frames : ℕ
  pub memory_total_frame_count : ℕ
  pub memory_used_frame_count : ℕ

pub record Kernel : Type 0 where
  pub mem : Bytes
  pub pmm : Pmm

-- Why a run does not return: `PANIC`, a division by zero, a loop that used up the fuel of the model.
pub data Halt : Type 0 where
  panic divide_error out_of_fuel : Halt

pub data Run (A : Type 0) : Type 0 where
  ok : A → Kernel → Run A
  halted : Halt → Run A

-- One call after another.
abbrev pub and_then : {A B : Type 0} → Run A → (A → Kernel → Run B) → Run B
and_then (ok a k) f = f a k
and_then (halted h) f = halted h

pub and_then_ext :
    {A B : Type 0} (r : Run A) (f g : A → Kernel → Run B)
    → ((a : A) (k : Kernel) → f a k ≡ g a k)
    → and_then r f ≡ and_then r g
and_then_ext (ok a k) f g h = h a k
and_then_ext (halted x) f g h = refl

-- dma_scatter_block_t
pub record ScatterBlock : Type 0 where
  pub virtual_addr : ℕ
  pub physical_addrs : ℕ
  pub page_count : ℕ

-- An error code of kernel/errno.h, as the 32-bit pattern of `-code`.
unfoldable pub error : ℕ → ℕ
error code = 2 ^ 32 - code

-- What functions return as an int: 0, or an error of kernel/errno.h with a minus sign.
pub data Status : Type 0 where
  done einval eexist efault : Status

-- A run that returns, with a fact about its result and the kernel it leaves.
pub data Returns {A : Type 0} (P : A → Kernel → Type 0) : Run A → Type 0 where
  returns : {a : A} {k : Kernel} → P a k → Returns P (ok a k)
