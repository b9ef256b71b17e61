-- ===== src/Strings/Compare.antt =====
-- str_cmp and str_ncmp compare at the first place where two strings differ; str_ncpy copies.
use fesos.Prelude.{
  ℕ, zero, suc, ◌+◌, ◌%◌, ◌^◌, ◌≤◌, ◌<◌, ◌≡◌, ◌≢◌, ◌⊎◌, ◌↔◌, inl, inr, arith, ◌∙◌, Option, some,
  false, ◌&&◌, ◌==◌, ==_iff, ==_false→ne, Bool-cases, ltb, if◌then◌else◌, ap, sym, subst, ltb→lt,
  and_left, and_right,
}
use mathlib.Core.Option.{some-injective}
use fesos.Machine.Memory.{Bytes, IsBytes}
use fesos.Strings.{char_value, char_difference, str_cmp_loop, str_cmp, str_ncmp_loop, str_ncmp}

-- A char difference is 0 for equal bytes only.
pub char_difference_zero : (a b : ℕ) → a < 256 → b < 256 → (char_difference a b ≡ 0) ↔ (a ≡ b)
unfolding char_difference char_value
char_difference_zero a b ha hb = ground arith

-- What str_cmp says of two strings: `i` is the first place where they differ or end.
pub data Compared (m : Bytes) (str_a str_b from : ℕ) : Option ℕ → Type 0 where
  compared :
      (i : ℕ)
      → from ≤ i
      → ((j : ℕ) → from ≤ j → j < i → (m (str_a + j) ≡ m (str_b + j)) × (m (str_a + j) ≢ 0))
      → (m (str_a + i) ≢ m (str_b + i)) ⊎ ((m (str_a + i) ≡ 0) × (m (str_b + i) ≡ 0))
      → Compared m str_a str_b from (some (char_difference (m (str_a + i)) (m (str_b + i))))

one_earlier :
    (m : Bytes) (str_a str_b index : ℕ) {o : Option ℕ}
    → m (str_a + index) ≡ m (str_b + index)
    → m (str_a + index) ≢ 0
    → Compared m str_a str_b (index + 1) o
    → Compared m str_a str_b index o
one_earlier m str_a str_b index same more (compared i le before here) =
    compared i (omega arith)
      (λ j lo hi. elim (Bool-cases (j == index)) [
        | inl at ↦ let e = (==_iff j index).0 at in rw e (same, more)
        | inr after ↦ let ne = ==_false→ne j index after in before j (omega arith) hi
      ])
      here

-- Two strings have the same bytes up to a terminator in both.
abbrev pub SameString : Bytes → ℕ → ℕ → Type 0
SameString m str_a str_b =
    (n : ℕ) × ((j : ℕ) → j < n → (m (str_a + j) ≡ m (str_b + j)) × (m (str_a + j) ≢ 0))
    × (m (str_a + n) ≡ 0)
    × (m (str_b + n) ≡ 0)

Compared-same :
    {m : Bytes} {str_a str_b : ℕ} {o : Option ℕ}
    → IsBytes m
    → Compared m str_a str_b 0 o
    → (o ≡ some 0) ↔ SameString m str_a str_b
Compared-same {m} {str_a} {str_b} bytes (compared i le before here) =
    let a = m (str_a + i) in
    let b = m (str_b + i) in
    let (to, from) = char_difference_zero a b (bytes (str_a + i)) (bytes (str_b + i)) in
    (
      λ e.
          let same = to (some-injective (char_difference a b) 0 e) in
          elim here [
            | inl differ ↦ absurd (differ same)
            | inr (za, zb) ↦ (i, (λ j lt. before j (omega arith) lt), za, zb)
          ],
      λ (n, pre, za, zb). elim (Bool-cases (ltb i n)) [
        | inl earlier ↦
            let (same, more) = pre i (ltb→lt i n earlier) in
            elim here [ inl differ ↦ absurd (differ same) | inr (z, _) ↦ absurd (more z) ]
        | inr not_earlier ↦ elim (Bool-cases (ltb n i)) [
          | inl later ↦ absurd ((before n (omega arith) (ltb→lt n i later)).1 za)
          | inr not_later ↦
              let at_end : i ≡ n = ground arith in ap (λ c. some c) (from (rw at_end (za ∙ sym zb)))
        ]
      ],
    )

first_ends : (a b : ℕ) → (ltb 0 a && ltb 0 b) ≡ false → (a ≢ b) ⊎ ((a ≡ 0) × (b ≡ 0))
first_ends a b h = elim (Bool-cases (a == b)) [
  | inl same ↦ inr (ground arith, ground arith)
  | inr differ ↦ inl (==_false→ne a b differ)
]

-- `e` is a place where one of the strings ends.
str_cmp_loop-Compared :
    (fuel e : ℕ) (m : Bytes) (str_a str_b index : ℕ)
    → IsBytes m
    → index ≤ e
    → e < index + fuel
    → index + fuel < 2 ^ 64
    → (m (str_a + e) ≡ 0) ⊎ (m (str_b + e) ≡ 0)
    → Compared m str_a str_b index (str_cmp_loop fuel m str_a str_b index)
unfolding str_cmp_loop
str_cmp_loop-Compared zero e m str_a str_b index bytes lo hi small end = absurd (omega arith)
str_cmp_loop-Compared (suc fuel) e m str_a str_b index bytes lo hi small end =
    let a = m (str_a + index) in
    let b = m (str_b + index) in
    let (to, from) = char_difference_zero a b (bytes (str_a + index)) (bytes (str_b + index)) in
    let wrap : (index + 1) % 2 ^ 64 ≡ index + 1 = omega arith in
    elim (Bool-cases (ltb 0 a && ltb 0 b)) [
      | inr ended ↦
          rw ended (
            compared index (omega arith) (λ j lo' hi'. absurd (omega arith)) (first_ends a b ended))
      | inl going ↦
          let pos_a = ltb→lt 0 a (and_left _ (ltb 0 b) going) in
          let pos_b = ltb→lt 0 b (and_right (ltb 0 a) _ going) in
          elim (Bool-cases (char_difference a b == 0)) [
            | inr differ ↦
                let ne = ==_false→ne (char_difference a b) 0 differ in
                rw (going, differ)
                  (compared index (omega arith) (λ j lo' hi'. absurd (omega arith))
                    (inl (λ q. ne (from q))))
            | inl same ↦
                let q = to ((==_iff (char_difference a b) 0).0 same) in
                let later : index + 1 ≤ e = not_here m str_a str_b index e pos_a pos_b end lo in
                rw (going, same, wrap)
                  (one_earlier m str_a str_b index q (λ z. omega arith)
                    (str_cmp_loop-Compared fuel e m str_a str_b (index + 1) bytes later
                      (omega arith) (omega arith) end))
          ]
    ]
  where
    not_here :
        (m : Bytes) (str_a str_b index e : ℕ)
        → 0 < m (str_a + index)
        → 0 < m (str_b + index)
        → (m (str_a + e) ≡ 0) ⊎ (m (str_b + e) ≡ 0)
        → index ≤ e
        → index + 1 ≤ e
    not_here m str_a str_b index e pos_a pos_b end lo = elim (Bool-cases (index == e)) [
      | inr differ ↦ let ne = ==_false→ne index e differ in omega arith
      | inl same ↦
          let q = (==_iff index e).0 same in
          let end' = subst (λ k. (m (str_a + k) ≡ 0) ⊎ (m (str_b + k) ≡ 0)) (sym q) end in
          elim end' [ inl z ↦ absurd (omega arith) | inr z ↦ absurd (omega arith) ]
    ]

-- Where one of two strings ends within the fuel: str_cmp returns the difference of the bytes at the
-- first place where the strings differ or both end, and all bytes before it are equal and not 0.
-- The result is 0 exactly where the two strings are the same up to a terminator in both.
pub str_cmp-Compared :
    (fuel e : ℕ) (m : Bytes) (str_a str_b : ℕ)
    → IsBytes m
    → e < fuel
    → fuel < 2 ^ 64
    → (m (str_a + e) ≡ 0) ⊎ (m (str_b + e) ≡ 0)
    → Compared m str_a str_b 0 (str_cmp fuel m str_a str_b)
      × ((str_cmp fuel m str_a str_b ≡ some 0) ↔ SameString m str_a str_b)
unfolding str_cmp
str_cmp-Compared fuel e m str_a str_b bytes hi small end =
    let c =
      str_cmp_loop-Compared fuel e m str_a str_b 0 bytes (omega arith) (omega arith) (omega arith)
        end in
    (c, Compared-same bytes c)

-- The result of str_ncmp from `index` on.
pub data ComparedWithin (m : Bytes) (str_a str_b len_a len_b from : ℕ) : ℕ → Type 0 where
  differ :
      (i : ℕ)
      → i < len_a
      → i < len_b
      → ((j : ℕ) → from ≤ j → j < i → m (str_a + j) ≡ m (str_b + j))
      → m (str_a + i) ≢ m (str_b + i)
      → ComparedWithin m str_a str_b len_a len_b from
          (char_difference (m (str_a + i)) (m (str_b + i)))
  equal :
      len_a ≡ len_b
      → ((j : ℕ) → from ≤ j → j < len_a → m (str_a + j) ≡ m (str_b + j))
      → ComparedWithin m str_a str_b len_a len_b from 0
  a_ends :
      len_a < len_b
      → ((j : ℕ) → from ≤ j → j < len_a → m (str_a + j) ≡ m (str_b + j))
      → ComparedWithin m str_a str_b len_a len_b from (char_difference 0 (m (str_b + len_a)))
  b_ends :
      len_b < len_a
      → ((j : ℕ) → from ≤ j → j < len_b → m (str_a + j) ≡ m (str_b + j))
      → ComparedWithin m str_a str_b len_a len_b from (char_difference (m (str_a + len_b)) 0)

from_here :
    (P : ℕ → Type 0) (index bound : ℕ)
    → P index
    → ((j : ℕ) → index + 1 ≤ j → j < bound → P j)
    → (j : ℕ) → index ≤ j
    → j < bound
    → P j
from_here P index bound first later j lo hi = elim (Bool-cases (index == j)) [
  | inl same ↦ subst P ((==_iff index j).0 same) first
  | inr other ↦ let ne = ==_false→ne index j other in later j (omega arith) hi
]

earlier_within :
    (m : Bytes) (str_a str_b len_a len_b index : ℕ) {c : ℕ}
    → m (str_a + index) ≡ m (str_b + index)
    → ComparedWithin m str_a str_b len_a len_b (index + 1) c
    → ComparedWithin m str_a str_b len_a len_b index c
earlier_within m str_a str_b len_a len_b index same (differ i ia ib before ne) =
    differ i ia ib (from_here (λ j. m (str_a + j) ≡ m (str_b + j)) index i same before) ne
earlier_within m str_a str_b len_a len_b index same (equal e before) =
    equal e (from_here (λ j. m (str_a + j) ≡ m (str_b + j)) index len_a same before)
earlier_within m str_a str_b len_a len_b index same (a_ends lt before) =
    a_ends lt (from_here (λ j. m (str_a + j) ≡ m (str_b + j)) index len_a same before)
earlier_within m str_a str_b len_a len_b index same (b_ends lt before) =
    b_ends lt (from_here (λ j. m (str_a + j) ≡ m (str_b + j)) index len_b same before)

str_ncmp_loop-ComparedWithin :
    (left : ℕ) (m : Bytes) (str_a str_b len_a len_b index : ℕ)
    → IsBytes m
    → (index + left ≡ len_a) ⊎ (index + left ≡ len_b)
    → index + left ≤ len_a
    → index + left ≤ len_b
    → index + left < 2 ^ 64
    → ComparedWithin m str_a str_b len_a len_b index
        (str_ncmp_loop left m str_a str_b len_a len_b index)
unfolding str_ncmp_loop
str_ncmp_loop-ComparedWithin zero m str_a str_b len_a len_b index bytes bound la lb small =
    elim (Bool-cases (len_a == len_b)) [
      | inl same ↦ rw same (equal ((==_iff len_a len_b).0 same) (λ j lo hi. absurd (ground arith)))
      | inr other ↦
          let ne = ==_false→ne len_a len_b other in
          elim (Bool-cases (index == len_a)) [
            | inl at_a ↦
                let e = (==_iff index len_a).0 at_a in
                rw (other, at_a, e) (a_ends (omega arith) (λ j lo hi. absurd (omega arith)))
            | inr not_a ↦
                let na = ==_false→ne index len_a not_a in
                let e : index ≡ len_b = ground arith in
                rw (other, not_a, e) (b_ends (omega arith) (λ j lo hi. absurd (omega arith)))
          ]
    ]
str_ncmp_loop-ComparedWithin (suc left) m str_a str_b len_a len_b index bytes bound la lb small =
    let a = m (str_a + index) in
    let b = m (str_b + index) in
    let (to, from) = char_difference_zero a b (bytes (str_a + index)) (bytes (str_b + index)) in
    let wrap : (index + 1) % 2 ^ 64 ≡ index + 1 = omega arith in
    let at : index + 1 + left ≡ index + suc left = omega arith in
    elim (Bool-cases (char_difference a b == 0)) [
      | inr other ↦
          let ne = ==_false→ne (char_difference a b) 0 other in
          rw other (
            differ index (omega arith) (omega arith) (λ j lo hi. absurd (omega arith))
              (λ q. ne (from q)))
      | inl same ↦
          rw (same, wrap)
            (earlier_within m str_a str_b len_a len_b index
              (to ((==_iff (char_difference a b) 0).0 same))
              (str_ncmp_loop-ComparedWithin left m str_a str_b len_a len_b (index + 1) bytes
                (rw at bound) (omega arith) (omega arith) (omega arith)))
    ]

-- With two lengths below 2 ^ 64, str_ncmp returns the difference at the first place where the
-- strings differ within both lengths; where they do not, 0 for equal lengths, and else the
-- difference of the next byte of the longer string to a terminator in the shorter one.
pub str_ncmp-ComparedWithin :
    (m : Bytes) (str_a str_b len_a len_b : ℕ)
    → IsBytes m
    → len_a < 2 ^ 64
    → len_b < 2 ^ 64
    → ComparedWithin m str_a str_b len_a len_b 0 (str_ncmp m str_a str_b len_a len_b)
unfolding str_ncmp
str_ncmp-ComparedWithin m str_a str_b len_a len_b bytes sa sb =
    str_ncmp_loop-ComparedWithin (if ltb len_a len_b then len_a else len_b) m str_a str_b len_a
      len_b 0 bytes (ground arith) (ground arith) (ground arith) (ground arith)
