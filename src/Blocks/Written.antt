-- ===== src/Blocks/Written.antt =====
-- A range of memory that has been written, byte by byte.
use fesos.Prelude.{
  ℕ, zero, suc, ◌+◌, ◌-◌, ◌*◌, ◌/◌, ◌%◌, ◌^◌, ◌≤◌, ◌<◌, ◌≡◌, refl, Bool, true, ◌&&◌, arith, ◌==◌,
  ==_iff, ltb, leb, Bool-cases, inl, inr, leb→le, ltb→lt, and_left, and_right, if◌then◌else◌,
}
use fesos.Prelude.Bits.{holds_below, holds_below_at}
use fesos.Machine.Memory.{Bytes, store8, store64, below_eight}
use fesos.Blocks.{repeated}

-- `m'` has the content `c` from `a` up to `b`, and is `m` elsewhere.
abbrev pub Written : (ℕ → ℕ) → ℕ → ℕ → Bytes → Bytes → Type 0
Written c a b m m' = (x : ℕ) → m' x ≡ (if leb a x && ltb x b then c x else m x)

pub nothing_Written : (c : ℕ → ℕ) (a : ℕ) (m : Bytes) → Written c a a m m
nothing_Written c a m x = ground arith

pub Written-trans :
    (c : ℕ → ℕ) (a b d : ℕ) (m m1 m2 : Bytes)
    → a ≤ b
    → b ≤ d
    → Written c a b m m1
    → Written c b d m1 m2
    → Written c a d m m2
Written-trans c a b d m m1 m2 ab bd h k x = ground (arith, h x, k x)

pub byte_Written :
    (c : ℕ → ℕ) (a : ℕ) (m : Bytes) (v : ℕ) → v % 256 ≡ c a → Written c a (a + 1) m (store8 m a v)
unfolding store8
byte_Written c a m v e x = ground arith

pub word_Written :
    (c : ℕ → ℕ) (a : ℕ) (m : Bytes) (v : ℕ)
    → ((k : ℕ) → k < 8 → v / 256 ^ k % 256 ≡ c (a + k))
    → Written c a (a + 8) m (store64 m a v)
unfolding store64
word_Written c a m v h x = elim (Bool-cases (leb a x && ltb x (a + 8))) [
  | inl inside ↦
      let le = leb→le a x (and_left _ (ltb x (a + 8)) inside) in
      let lt = ltb→lt x (a + 8) (and_right (leb a x) _ inside) in
      let at : a + (x - a) ≡ x = omega arith in rw inside (rw at at (h (x - a) (omega arith)))
  | inr outside ↦ rw outside
]

-- Each byte of a repeated byte is that byte.
repeats : ℕ → Bool
unfolding repeated
repeats p = repeated p == p * 0x0101010101010101

repeats_all : holds_below repeats 256 ≡ true
unfolding repeats repeated holds_below
repeats_all = refl

pub repeated_byte : (p k : ℕ) → p < 256 → k < 8 → repeated p / 256 ^ k % 256 ≡ p
unfolding repeats
repeated_byte p k lt kt =
    let e : repeated p ≡ p * 0x0101010101010101 =
      (==_iff (repeated p) (p * 0x0101010101010101)).0
        (holds_below_at repeats {x = p} 256 lt repeats_all) in
    rw e (
      below_eight (λ k. p * 0x0101010101010101 / 256 ^ k % 256 ≡ p) k kt (omega arith) (omega arith)
        (omega arith) (omega arith) (omega arith) (omega arith) (omega arith) (omega arith))

-- Induction in steps of eight.
pub by_eights :
    (P : ℕ → Type 0)
    → ((n : ℕ) → n < 8 → P n)
    → ((n : ℕ) → P n → P (suc (suc (suc (suc (suc (suc (suc (suc n)))))))))
    → (n : ℕ) → P n
by_eights P small step (suc (suc (suc (suc (suc (suc (suc (suc n)))))))) =
    step n (by_eights P small step n)
by_eights P small step zero = small 0 (omega arith)
by_eights P small step (suc zero) = small 1 (omega arith)
by_eights P small step (suc (suc zero)) = small 2 (omega arith)
by_eights P small step (suc (suc (suc zero))) = small 3 (omega arith)
by_eights P small step (suc (suc (suc (suc zero)))) = small 4 (omega arith)
by_eights P small step (suc (suc (suc (suc (suc zero))))) = small 5 (omega arith)
by_eights P small step (suc (suc (suc (suc (suc (suc zero)))))) = small 6 (omega arith)
by_eights P small step (suc (suc (suc (suc (suc (suc (suc zero))))))) = small 7 (omega arith)
