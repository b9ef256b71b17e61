-- ===== src/Machine/Memory.antt =====
-- Memory as bytes at 64-bit virtual addresses, with little-endian 64-bit loads and stores.
use fesos.Prelude.{
  ℕ, zero, suc, ◌+◌, ◌-◌, ◌*◌, ◌/◌, ◌%◌, ◌^◌, ◌≤◌, ◌<◌, ◌≡◌, ◌⊎◌, refl, ◌&&◌, arith, ◌==◌, leb, ltb,
  if◌then◌else◌,
}
use native.Mathlib.Nat.{add-zero}

abbrev pub Bytes : Type 0
Bytes = ℕ → ℕ

abbrev pub IsBytes : Bytes → Type 0
IsBytes m = (a : ℕ) → m a < 256

unfoldable pub store8 : Bytes → ℕ → ℕ → Bytes
store8 m a v x = if x == a then v % 256 else m x

unfoldable pub load64 : Bytes → ℕ → ℕ
load64 m a =
    m a
    + 2 ^ 8 * m (a + 1)
    + 2 ^ 16 * m (a + 2)
    + 2 ^ 24 * m (a + 3)
    + 2 ^ 32 * m (a + 4)
    + 2 ^ 40 * m (a + 5)
    + 2 ^ 48 * m (a + 6)
    + 2 ^ 56 * m (a + 7)

unfoldable pub store64 : Bytes → ℕ → ℕ → Bytes
store64 m a v x = if leb a x && ltb x (a + 8) then v / 256 ^ (x - a) % 256 else m x

pub store8-IsBytes : {m : Bytes} (a v : ℕ) → IsBytes m → IsBytes (store8 m a v)
unfolding store8
store8-IsBytes a v h x = ground (arith, h x)

pub store64-IsBytes : {m : Bytes} (a v : ℕ) → IsBytes m → IsBytes (store64 m a v)
unfolding store64
store64-IsBytes a v h x = ground (arith, h x)

-- A 64-bit store leaves all but its eight bytes.
pub store64_outside : (m : Bytes) (a v x : ℕ) → (x < a) ⊎ (a + 8 ≤ x) → store64 m a v x ≡ m x
unfolding store64
store64_outside m a v x h = ground arith

pub store64-zero : (m : Bytes) (a x : ℕ) → a ≤ x → x < a + 8 → store64 m a 0 x ≡ 0
unfolding store64
store64-zero m a x h k = ground arith

-- A word of eight bytes has every bit set only if each byte has.
ones_bytes :
    {m : Bytes} (a : ℕ)
    → IsBytes m
    → load64 m a ≡ 2 ^ 64 - 1
    → (m a ≡ 255)
      × (m (a + 1) ≡ 255)
      × (m (a + 2) ≡ 255)
      × (m (a + 3) ≡ 255)
      × (m (a + 4) ≡ 255)
      × (m (a + 5) ≡ 255)
      × (m (a + 6) ≡ 255)
      × (m (a + 7) ≡ 255)
unfolding load64
ones_bytes a h e =
    omega (arith, h a, h (a + 1), h (a + 2), h (a + 3), h (a + 4), h (a + 5), h (a + 6), h (a + 7))

pub load64_ones :
    {m : Bytes} (a i : ℕ) → IsBytes m → load64 m a ≡ 2 ^ 64 - 1 → i < 8 → m (a + i) ≡ 255
load64_ones {m} a zero h e lt = rw (add-zero a) ((ones_bytes a h e).0)
load64_ones a (suc zero) h e lt = (ones_bytes a h e).1
load64_ones a (suc (suc zero)) h e lt = (ones_bytes a h e).2
load64_ones a (suc (suc (suc zero))) h e lt = (ones_bytes a h e).3
load64_ones a (suc (suc (suc (suc zero)))) h e lt = (ones_bytes a h e).4
load64_ones a (suc (suc (suc (suc (suc zero))))) h e lt = (ones_bytes a h e).5
load64_ones a (suc (suc (suc (suc (suc (suc zero)))))) h e lt = (ones_bytes a h e).6
load64_ones a (suc (suc (suc (suc (suc (suc (suc zero))))))) h e lt = (ones_bytes a h e).7
load64_ones a (suc (suc (suc (suc (suc (suc (suc (suc i)))))))) h e lt = absurd (omega arith)

pub store64_byte : (m : Bytes) (a v k : ℕ) → k < 8 → store64 m a v (a + k) ≡ v / 256 ^ k % 256
unfolding store64
store64_byte m a v k h = let e : a + k - a ≡ k = omega arith in rw (e) (ground arith)

pub load64-store64 : (m : Bytes) (a v : ℕ) → v < 2 ^ 64 → load64 (store64 m a v) a ≡ v
unfolding load64
load64-store64 m a v h = omega (
  arith,
  rw (add-zero a) at (store64_byte m a v 0 (omega arith)),
  store64_byte m a v 1 (omega arith),
  store64_byte m a v 2 (omega arith),
  store64_byte m a v 3 (omega arith),
  store64_byte m a v 4 (omega arith),
  store64_byte m a v 5 (omega arith),
  store64_byte m a v 6 (omega arith),
  store64_byte m a v 7 (omega arith),
)

-- A number below eight is one of eight.
pub below_eight :
    (P : ℕ → Type 0) (k : ℕ) → k < 8 → P 0 → P 1 → P 2 → P 3 → P 4 → P 5 → P 6 → P 7 → P k
below_eight P zero lt a b c d e f g h = a
below_eight P (suc zero) lt a b c d e f g h = b
below_eight P (suc (suc zero)) lt a b c d e f g h = c
below_eight P (suc (suc (suc zero))) lt a b c d e f g h = d
below_eight P (suc (suc (suc (suc zero)))) lt a b c d e f g h = e
below_eight P (suc (suc (suc (suc (suc zero))))) lt a b c d e f g h = f
below_eight P (suc (suc (suc (suc (suc (suc zero)))))) lt a b c d e f g h = g
below_eight P (suc (suc (suc (suc (suc (suc (suc zero))))))) lt a b c d e f g h = h
below_eight P (suc (suc (suc (suc (suc (suc (suc (suc k)))))))) lt a b c d e f g h =
    absurd (omega arith)

-- A loaded word has the bytes of the memory.
pub load64_byte : (m : Bytes) (a k : ℕ) → IsBytes m → k < 8 → load64 m a / 256 ^ k % 256 ≡ m (a + k)
unfolding load64
load64_byte m a k h lt =
    below_eight (λ k. load64 m a / 256 ^ k % 256 ≡ m (a + k)) k lt
      (rw (add-zero a) (omega (arith, h a))) (omega (arith, h a, h (a + 1)))
      (omega (arith, h a, h (a + 1), h (a + 2)))
      (omega (arith, h a, h (a + 1), h (a + 2), h (a + 3)))
      (omega (arith, h a, h (a + 1), h (a + 2), h (a + 3), h (a + 4)))
      (omega (arith, h a, h (a + 1), h (a + 2), h (a + 3), h (a + 4), h (a + 5)))
      (omega (arith, h a, h (a + 1), h (a + 2), h (a + 3), h (a + 4), h (a + 5), h (a + 6)))
      (omega
        (arith, h a, h (a + 1), h (a + 2), h (a + 3), h (a + 4), h (a + 5), h (a + 6), h (a + 7)))

-- A word depends on its eight bytes only.
pub load64_ext :
    (m m' : Bytes) (a : ℕ) → ((i : ℕ) → i < 8 → m' (a + i) ≡ m (a + i)) → load64 m' a ≡ load64 m a
unfolding load64
load64_ext m m' a h =
    let first : m' a ≡ m a = rw (add-zero a) at (h 0 (omega arith)) in
    rw
      (
        first,
        h 1 (omega arith),
        h 2 (omega arith),
        h 3 (omega arith),
        h 4 (omega arith),
        h 5 (omega arith),
        h 6 (omega arith),
        h 7 (omega arith),
      )
      refl
