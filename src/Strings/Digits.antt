-- ===== src/Strings/Digits.antt =====
-- The loop that writes digits: which digits it writes, and what number they spell.
use fesos.Prelude.{
  ℕ, zero, suc, ◌+◌, ◌-◌, ◌*◌, ◌/◌, ◌%◌, ◌^◌, ◌≤◌, ◌<◌, ◌≡◌, ◌⊎◌, inl, inr, refl, arith, ◌∙◌,
  Bool-cases, ltb, add64, ltb→lt,
}
use fesos.Machine.Memory.{Bytes, IsBytes, store8, store8-IsBytes}
use fesos.Strings.{put_digits}

from_zero :
    (P : ℕ → Type 0) (k : ℕ) → P 0 → ((j : ℕ) → j < k → P (suc j)) → (j : ℕ) → j < suc k → P j
from_zero P k first next zero lt = first
from_zero P k first next (suc j) lt = next j (omega arith)

module _ (base : ℕ) where
  -- A number without its last `j` digits.
  unfoldable pub shifted : ℕ → ℕ → ℕ
  shifted n zero = n
  shifted n (suc j) = shifted (n / base) j

  pub shifted-suc : (n j : ℕ) → shifted n (suc j) ≡ shifted n j / base
  unfolding shifted
  shifted-suc n zero = refl
  shifted-suc n (suc j) = shifted-suc (n / base) j

  -- The number that `k` characters at `p` spell, after the number `acc`.
  unfoldable pub read_digits : (ℕ → ℕ) → Bytes → ℕ → ℕ → ℕ → ℕ
  read_digits value m p zero acc = acc
  read_digits value m p (suc k) acc = read_digits value m (p + 1) k (acc * base + value (m p))

  module _ (digit : ℕ → ℕ) (is_byte : (n : ℕ) → digit n < 256) where
    -- A loop at index `i` has written `k` digits.
    pub record Digits (buffer i left number : ℕ) (m : Bytes) (r : Bytes × ℕ × ℕ) : Type 0 where
      pub k : ℕ
      pub index : r.1 ≡ i + k
      pub number_left : r.2 ≡ shifted number k
      pub room : k ≤ left
      pub stops : (k ≡ left) ⊎ (r.2 ≡ 0)
      pub nonzero : (j : ℕ) → j < k → 0 < shifted number j
      pub written : (j : ℕ) → j < k → r.0 (buffer + i + j) ≡ digit (shifted number j)
      pub others : (x : ℕ) → (x < buffer + i) ⊎ (buffer + i + k ≤ x) → r.0 x ≡ m x

    one_more :
        (left buffer i number : ℕ) (m : Bytes)
        → 0 < number
        → (r : Bytes × ℕ × ℕ)
        → Digits buffer (i + 1) left (number / base) (store8 m (buffer + i) (digit number)) r
        → Digits buffer i (suc left) number m r
    unfolding shifted store8
    one_more left buffer i number m pos r d = record {
      k = suc d.k;
      index = d.index ∙ omega arith;
      number_left = d.number_left;
      room = omega (arith, d.room);
      stops = elim d.stops [ inl e ↦ inl (omega arith) | inr e ↦ inr e ];
      nonzero = from_zero (λ j. 0 < shifted number j) d.k pos d.nonzero;
      written =
          from_zero (λ j. r.0 (buffer + i + j) ≡ digit (shifted number j)) d.k
            (let at : buffer + i + 0 ≡ buffer + i = omega arith in
              rw at (d.others (buffer + i) (inl (omega arith)) ∙ ground (arith, is_byte number)))
            (λ j lt.
              let at : buffer + (i + 1) + j ≡ buffer + i + suc j = omega arith in
              rw at at (d.written j lt));
      others = λ x h. d.others x (ground arith) ∙ ground arith;
    }

    pub put_digits-Digits :
        (left buffer i number : ℕ) (m : Bytes)
        → i + left < 2 ^ 64
        → Digits buffer i left number m (put_digits digit base buffer left i number m)
    unfolding put_digits shifted
    put_digits-Digits zero buffer i number m small = record {
      k = 0;
      index = omega arith;
      number_left = refl;
      room = omega arith;
      stops = inl refl;
      nonzero = λ j lt. absurd (omega arith);
      written = λ j lt. absurd (omega arith);
      others = λ x h. refl;
    }
    put_digits-Digits (suc left) buffer i number m small = elim (Bool-cases (ltb 0 number)) [
      | inr zero_left ↦ rw zero_left (record {
        k = 0;
        index = omega arith;
        number_left = refl;
        room = omega arith;
        stops = inr (ground arith);
        nonzero = λ j lt. absurd (omega arith);
        written = λ j lt. absurd (omega arith);
        others = λ x h. refl;
      })
      | inl more ↦
          let wrap : (i + 1) % 2 ^ 64 ≡ i + 1 = omega arith in
          let m1 = store8 m (buffer + i) (digit number) in
          rw (more, wrap)
            (one_more left buffer i number m (ltb→lt 0 number more) _
              (put_digits-Digits left buffer (i + 1) (number / base) m1 (omega arith)))
    ]

  -- Digits that stand in memory the highest first are read as the number.
  pub read_digits_lem :
      (value : ℕ → ℕ) (m : Bytes) (number : ℕ)
      → ((n : ℕ) → n / base * base + n % base ≡ n)
      → (k p : ℕ) → ((j : ℕ) → j < k → value (m (p + j)) ≡ shifted number (k - 1 - j) % base)
      → read_digits value m p k (shifted number k) ≡ number
  unfolding read_digits shifted
  read_digits_lem value m number split zero p h = refl
  read_digits_lem value m number split (suc k) p h =
      let at : p + 0 ≡ p = omega arith in
      let first : value (m p) ≡ shifted number k % base =
        let e : suc k - 1 - 0 ≡ k = omega arith in rw (at, e) at (h 0 (omega arith)) in
      rw (shifted-suc number k, first, split (shifted number k))
        (read_digits_lem value m number split k (p + 1) (λ j lt.
          let e1 : p + 1 + j ≡ p + suc j = omega arith in
          let e2 : suc k - 1 - suc j ≡ k - 1 - j = omega arith in
          rw e1 (rw e2 at (h (suc j) (omega arith)))))

pub put_digits-IsBytes :
    (digit : ℕ → ℕ) (base buffer left i number : ℕ) (m : Bytes)
    → IsBytes m
    → IsBytes ((put_digits digit base buffer left i number m).0)
unfolding put_digits
put_digits-IsBytes digit base buffer zero i number m h = h
put_digits-IsBytes digit base buffer (suc left) i number m h = elim (Bool-cases (ltb 0 number)) [
  | inl more ↦ rw more (
      put_digits-IsBytes digit base buffer left (add64 i 1) (number / base) _
        (store8-IsBytes (buffer + i) (digit number) h))
  | inr done ↦ rw done h
]
