-- ===== src/Kmalloc/Words.antt =====
-- Words of one, two and eight bytes, as kernel/x86_64/memory/kmalloc.c stores them.
use fesos.Prelude.{
  ℕ, ◌+◌, ◌-◌, ◌%◌, ◌^◌, ◌≤◌, ◌<◌, ◌≡◌, ◌⊎◌, inl, inr, refl, ◌==◌, Bool-cases, ltb, leb, ◌&&◌,
  leb→le, ltb→lt, and_left, and_right, arith,
}
use mathlib.Core.Path.{fun_ext}
use native.Mathlib.Nat.{add-zero}
use fesos.Machine.Memory.{
  Bytes, IsBytes, store8, load64, store64, store64_outside, store64_byte, load64_ext, load64_byte,
}
use fesos.Kmalloc.State.{load16, store16}

pub load64-store64-cut : (m : Bytes) (a v : ℕ) → load64 (store64 m a v) a ≡ v % 2 ^ 64
unfolding load64
load64-store64-cut m a v = omega (
  arith,
  rw (add-zero a) at (store64_byte m a v 0 (omega arith)),
  store64_byte m a v 1 (omega arith),
  store64_byte m a v 2 (omega arith),
  store64_byte m a v 3 (omega arith),
  store64_byte m a v 4 (omega arith),
  store64_byte m a v 5 (omega arith),
  store64_byte m a v 6 (omega arith),
  store64_byte m a v 7 (omega arith),
)

pub load64-store64_apart :
    (m : Bytes) (a v b : ℕ) → (a + 8 ≤ b) ⊎ (b + 8 ≤ a) → load64 (store64 m a v) b ≡ load64 m b
load64-store64_apart m a v b apart =
    load64_ext m (store64 m a v) b (λ i lt. store64_outside m a v (b + i) (ground arith))

pub store16_outside : (m : Bytes) (a v x : ℕ) → (x < a) ⊎ (a + 2 ≤ x) → store16 m a v x ≡ m x
unfolding store16 store8
store16_outside m a v x out = ground arith

pub load16-store16 : (m : Bytes) (a v : ℕ) → load16 (store16 m a v) a ≡ v % 2 ^ 16
unfolding load16 store16 store8
load16-store16 m a v = ground arith

pub load16_ext :
    (m m' : Bytes) (a : ℕ) → m' a ≡ m a → m' (a + 1) ≡ m (a + 1) → load16 m' a ≡ load16 m a
unfolding load16
load16_ext m m' a e f = rw (e, f) refl

-- Equal stores agree where the memories agree outside of them.
pub store64_agree :
    (m m' : Bytes) (a v x : ℕ)
    → ((x < a) ⊎ (a + 8 ≤ x) → m x ≡ m' x)
    → store64 m a v x ≡ store64 m' a v x
unfolding store64
store64_agree m m' a v x h = elim (Bool-cases (leb a x && ltb x (a + 8))) [
  | inl inside ↦ rw inside refl
  | inr outside ↦ rw outside (h (ground arith))
]

pub store16_agree :
    (m m' : Bytes) (a v x : ℕ)
    → ((x < a) ⊎ (a + 2 ≤ x) → m x ≡ m' x)
    → store16 m a v x ≡ store16 m' a v x
unfolding store16 store8
store16_agree m m' a v x h = elim (Bool-cases (x == a + 1)) [
  | inl second ↦ rw second refl
  | inr other ↦ elim (Bool-cases (x == a)) [
    | inl first ↦ rw (other, first) refl
    | inr outside ↦ rw (other, outside) (h (ground arith))
  ]
]

pub store8_agree :
    (m m' : Bytes) (a v x : ℕ)
    → ((x < a) ⊎ (a + 1 ≤ x) → m x ≡ m' x)
    → store8 m a v x ≡ store8 m' a v x
unfolding store8
store8_agree m m' a v x h = elim (Bool-cases (x == a)) [
  | inl inside ↦ rw inside refl
  | inr outside ↦ rw outside (h (ground arith))
]

pub store8_outside : (m : Bytes) (a v x : ℕ) → (x < a) ⊎ (a + 1 ≤ x) → store8 m a v x ≡ m x
unfolding store8
store8_outside m a v x out = ground arith

-- What is stored where it was loaded changes nothing.
pub store64_same : (m : Bytes) (a : ℕ) → IsBytes m → store64 m a (load64 m a) ≡ m
unfolding store64
store64_same m a bytes = fun_ext (λ x. elim (Bool-cases (leb a x && ltb x (a + 8))) [
  | inl inside ↦
      let le = leb→le a x (and_left _ (ltb x (a + 8)) inside) in
      let lt = ltb→lt x (a + 8) (and_right (leb a x) _ inside) in
      let at : a + (x - a) ≡ x = omega arith in
      rw inside (rw at at (load64_byte m a (x - a) bytes (omega arith)))
  | inr outside ↦ rw outside refl
])

pub store8_same : (m : Bytes) (a : ℕ) → IsBytes m → store8 m a (m a) ≡ m
unfolding store8
store8_same m a bytes = fun_ext (λ x. ground (arith, bytes a))

pub store16_same : (m : Bytes) (a : ℕ) → IsBytes m → store16 m a (load16 m a) ≡ m
unfolding store16 load16 store8
store16_same m a bytes = fun_ext (λ x. ground (arith, bytes a, bytes (a + 1)))

pub load64_lt : (m : Bytes) (a : ℕ) → IsBytes m → load64 m a < 2 ^ 64
unfolding load64
load64_lt m a b =
    omega (arith, b a, b (a + 1), b (a + 2), b (a + 3), b (a + 4), b (a + 5), b (a + 6), b (a + 7))

pub load16_lt : (m : Bytes) (a : ℕ) → IsBytes m → load16 m a < 2 ^ 16
unfolding load16
load16_lt m a b = omega (arith, b a, b (a + 1))
