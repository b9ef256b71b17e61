-- ===== src/Strings/Print/Finish.antt =====
-- After the loop: the terminator, the length and the reversal.
use fesos.Prelude.{
  ℕ, zero, suc, ◌+◌, ◌-◌, ◌*◌, ◌/◌, ◌%◌, ◌^◌, ◌≤◌, ◌<◌, ◌≡◌, ◌≢◌, ◌⊎◌, inl, inr, arith, ◌∙◌, Option,
  none, some, true, false, ◌&&◌, ◌==◌, Bool-cases, leb, ltb, ap, sym, ltb→lt,
}
use native.Mathlib.Nat.{zero-mod}
use fesos.Prelude.Gives.{Gives, gives}
use fesos.Machine.Memory.{Bytes, IsBytes, store8, store8-IsBytes}
use fesos.Strings.{StrStatus, success, buffer_too_small, finish_digits, str_len, str_reverse}
use fesos.Strings.Reverse.{Mirrored, str_reverse-Mirrored, str_len_lem}
use fesos.Strings.Digits.{shifted, shifted-suc, Digits, read_digits, read_digits_lem}

module _ (base : ℕ) (digit value : ℕ → ℕ) where
  -- What a call leaves in a buffer of `size` bytes, of which the first `first` are a prefix: the
  -- digits and the terminator, or the lowest digits where they do not all fit.
  pub data Printed (buffer size first number : ℕ) (m : Bytes)
      : Option (StrStatus × Bytes) → Type 0 where
    printed :
        (k : ℕ) {m' : Bytes}
        → first + k < size
        → 0 < k
        → str_len size m' buffer ≡ some (first + k)
        → read_digits base value m' (buffer + first) k 0 ≡ number
        → ((j : ℕ) → j < k → (n : ℕ) × (m' (buffer + first + j) ≡ digit n))
        → (0 < number → value (m' (buffer + first)) ≢ 0)
        → ((x : ℕ) → (x < buffer + first) ⊎ (buffer + first + k < x) → m' x ≡ m x)
        → Printed buffer size first number m (some (success, m'))
    too_small :
        {m' : Bytes}
        → 0 < shifted base number (size - 1 - first)
        → ((x : ℕ) → (x < buffer + first) ⊎ (buffer + size ≤ x) → m' x ≡ m x)
        → Printed buffer size first number m (some (buffer_too_small, m'))

module _ (base : ℕ) (digit value : ℕ → ℕ) (is_byte : (n : ℕ) → digit n < 256)
    (not_null : (n : ℕ) → digit n ≢ 0) (decode : (n : ℕ) → value (digit n) ≡ n % base)
    (split : (n : ℕ) → n / base * base + n % base ≡ n) where
  -- The digits in memory after the reversal.
  Mirrored-digit :
      (buffer first k : ℕ) (m1 m2 : Bytes) (number : ℕ)
      → ((j : ℕ) → j < k → m1 (buffer + first + j) ≡ digit (shifted base number j))
      → Mirrored (buffer + first) (buffer + (first + k - 1)) m1 m2
      → (j : ℕ) → j < k
      → m2 (buffer + first + j) ≡ digit (shifted base number (k - 1 - j))
  Mirrored-digit buffer first k m1 m2 number digits mirror j lt =
      let at : buffer + first + (buffer + (first + k - 1)) - (buffer + first + j)
          ≡ buffer + first + (k - 1 - j) =
        omega arith in
      let h = rw at at (mirror (buffer + first + j)) in
      let inside : (leb (buffer + first) (buffer + first + j)
            && leb (buffer + first + j) (buffer + (first + k - 1)))
          ≡ true =
        ground arith in
      (rw inside at h) ∙ digits (k - 1 - j) (omega arith)

  some_rounds : (k number : ℕ) → 0 < number → shifted base number k ≡ 0 → 0 < k
  unfolding shifted
  some_rounds zero number pos e = absurd (omega arith)
  some_rounds (suc k) number pos e = omega arith

  leading_digit :
      (k number : ℕ)
      → 0 < k
      → shifted base number k ≡ 0
      → 0 < shifted base number (k - 1)
      → shifted base number (k - 1 - 0) % base ≢ 0
  leading_digit zero number pos last before = absurd (omega arith)
  leading_digit (suc k) number pos last before =
      let n = shifted base number k in
      let e0 : suc k - 1 ≡ k = omega arith in
      let e1 : suc k - 1 - 0 ≡ k = omega arith in
      let before' = rw e0 at before in
      let q : n / base ≡ 0 = sym (shifted-suc base number k) ∙ last in
      let whole : 0 * base + n % base ≡ n = rw q at (split n) in rw e1 (λ z. grind arith)

  module _ (buffer size first number : ℕ) (m : Bytes) (r : Bytes × ℕ × ℕ)
      (d : Digits base digit is_byte buffer first (size - 1 - first) number m r)
      (some_digits : 0 < number) (room : first + 1 < size) (small : size < 2 ^ 64)
      (at_prefix : (i : ℕ) → i < first → m (buffer + i) ≢ 0) where
    -- The memory with the terminator.
    abbrev ended : Bytes
    ended = store8 (r.0) (buffer + r.1) 0

    ended_digit : (j : ℕ) → j < d.k → ended (buffer + first + j) ≡ digit (shifted base number j)
    unfolding store8
    ended_digit j lt =
        let i = d.index in
        let differ : (buffer + first + j == buffer + r.1) ≡ false = ground arith in
        rw differ (d.written j lt)

    ended_other : (x : ℕ) → (x < buffer + first) ⊎ (buffer + first + d.k < x) → ended x ≡ m x
    unfolding store8
    ended_other x h =
        let i = d.index in
        let differ : (x == buffer + r.1) ≡ false = ground arith in
        rw differ (d.others x (ground arith))

    ended_zero : ended (buffer + (first + d.k)) ≡ 0
    unfolding store8
    ended_zero =
        let i = d.index in
        let same : (buffer + (first + d.k) == buffer + r.1) ≡ true = ground arith in rw same

    ended_length : str_len size ended buffer ≡ some (first + d.k)
    ended_length =
        let k_room = d.room in
        str_len_lem (first + d.k) size ended buffer (omega arith) (omega arith)
          (λ i lt. elim (Bool-cases (ltb i first)) [
            | inl prefix ↦
                let lt' = ltb→lt i first prefix in
                let e = ended_other (buffer + i) (inl (omega arith)) in rw e (at_prefix i lt')
            | inr within ↦
                let le : first ≤ i = ground arith in
                let at : buffer + first + (i - first) ≡ buffer + i = omega arith in
                let e = rw at at (ended_digit (i - first) (omega arith)) in rw e (not_null _)
          ])
          ended_zero

    -- What the reversal leaves, where no digit is left.
    reversed_Printed :
        (m2 : Bytes)
        → r.2 ≡ 0
        → Mirrored (buffer + first) (buffer + (first + d.k - 1)) ended m2
        → Printed base digit value buffer size first number m (some (success, m2))
    reversed_Printed m2 none_left mirror =
        let k_room = d.room in
        let last : shifted base number (d.k) ≡ 0 = sym d.number_left ∙ none_left in
        let pos : 0 < d.k = some_rounds (d.k) number some_digits last in
        let spelled = Mirrored-digit buffer first (d.k) ended m2 number ended_digit mirror in
        let read =
          read_digits_lem base value m2 number split (d.k) (buffer + first)
            (λ j lt. ap value (spelled j lt) ∙ decode _) in
        let at : buffer + first + 0 ≡ buffer + first = omega arith in
        let top = rw at at (ap value (spelled 0 pos) ∙ decode _) in
        let outside : (x : ℕ) → (x < buffer + first) ⊎ (buffer + first + d.k ≤ x) → m2 x ≡ ended x =
          λ x h. ground (arith, mirror x) in
        printed (d.k) (omega arith) pos
          (str_len_lem (first + d.k) size m2 buffer (omega arith) (omega arith)
            (λ i lt. elim (Bool-cases (ltb i first)) [
              | inl prefix ↦
                  let lt' = ltb→lt i first prefix in
                  let e =
                    outside (buffer + i) (inl (omega arith))
                    ∙ ended_other (buffer + i) (inl (omega arith)) in
                  rw e (at_prefix i lt')
              | inr within ↦
                  let le : first ≤ i = ground arith in
                  let at' : buffer + first + (i - first) ≡ buffer + i = omega arith in
                  let e = rw at' at (spelled (i - first) (omega arith)) in rw e (not_null _)
            ])
            (outside (buffer + (first + d.k)) (inr (omega arith)) ∙ ended_zero))
          (rw last at read) (λ j lt. (_, spelled j lt))
          (λ _. rw top (leading_digit (d.k) number pos last (d.nonzero (d.k - 1) (omega arith))))
          (λ x h. outside x (ground arith) ∙ ended_other x h)

    pub finish_digits-Printed :
        buffer ≢ 0
        → IsBytes (r.0)
        → Printed base digit value buffer size first number m (finish_digits buffer size first r)
    unfolding finish_digits
    finish_digits-Printed ne bytes = elim (Bool-cases (ltb 0 (r.2))) [
      | inl more ↦
          let k_room = d.room in
          let left = ltb→lt 0 (r.2) more in
          let full : d.k ≡ size - 1 - first = elim d.stops [
            | inl e ↦ e
            | inr e ↦ absurd (omega arith)
          ] in
          rw more (
            too_small (rw full at (rw d.number_left at left)) (λ x h. ended_other x (ground arith)))
      | inr none_left ↦
          let rest : r.2 ≡ 0 = ground arith in
          let k_room = d.room in
          let pos : 0 < d.k = some_rounds (d.k) number some_digits (sym d.number_left ∙ rest) in
          rw (none_left, ended_length)
            (after_reverse (Printed base digit value buffer size first number m)
              (str_reverse size ended buffer first (first + d.k))
              (str_reverse-Mirrored size ended buffer first (first + d.k)
                (store8-IsBytes (buffer + r.1) 0 bytes) ne (omega arith) (omega arith) (omega arith)
                (omega arith) (omega arith))
              (λ m2 mirror. reversed_Printed m2 rest mirror))
    ]
      where
        after_reverse :
            {P : Bytes → Type 0} (Q : Option (StrStatus × Bytes) → Type 0)
            (o : Option (StrStatus × Bytes))
            → Gives {A = StrStatus × Bytes} (λ q. (q.0 ≡ success) × P (q.1)) o
            → ((m2 : Bytes) → P m2 → Q (some (success, m2)))
            → Q (elim o [ none ↦ none | some (status, m2) ↦ some (success, m2) ])
        after_reverse Q none h next = elim h [ ]
        after_reverse Q (some (status, m2)) (gives (e, p)) next = next m2 p

  -- The number 0 has one digit.
  pub zero_Printed :
      (buffer size first : ℕ) (m : Bytes)
      → first + 1 < size
      → size < 2 ^ 64
      → ((i : ℕ) → i < first → m (buffer + i) ≢ 0)
      → Printed base digit value buffer size first 0 m
          (some (success, store8 (store8 m (buffer + first) (digit 0)) (buffer + (first + 1)) 0))
  unfolding store8 read_digits
  zero_Printed buffer size first m room small at_prefix =
      let d0 = is_byte 0 in
      let m' = store8 (store8 m (buffer + first) (digit 0)) (buffer + (first + 1)) 0 in
      let here : m' (buffer + first) ≡ digit 0 = ground arith in
      let z : value (digit 0) ≡ 0 % base = decode 0 in
      let zm : 0 % base ≡ 0 = zero-mod base in
      printed 1 room (omega arith)
        (str_len_lem (first + 1) size m' buffer (omega arith) (omega arith)
          (λ i lt. elim (Bool-cases (ltb i first)) [
            | inl prefix ↦
                let lt' = ltb→lt i first prefix in
                let e : m' (buffer + i) ≡ m (buffer + i) = ground arith in rw e (at_prefix i lt')
            | inr within ↦ let at : i ≡ first = ground arith in rw (at, here) (not_null 0)
          ])
          (ground arith))
        (rw (here, z, zm) (grind arith))
        (λ j lt. let at : buffer + first + j ≡ buffer + first = omega arith in (0, rw (at) here))
        (λ pos. absurd (omega arith)) (λ x h. ground arith)
