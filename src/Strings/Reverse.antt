-- ===== src/Strings/Reverse.antt =====
-- str_reverse mirrors a range of bytes, and str_len finds the terminator.
use fesos.Prelude.{
  ℕ, zero, suc, ◌+◌, ◌-◌, ◌%◌, ◌^◌, ◌≤◌, ◌<◌, ◌≡◌, ◌≢◌, inl, inr, refl, arith, ◌∙◌, Option, none,
  some, ◌&&◌, ◌==◌, ==_iff, ne→==_false, ap, Bool-cases, leb, if◌then◌else◌,
}
use fesos.Prelude.Gives.{Gives, gives, weaken-Gives}
use fesos.Machine.Memory.{Bytes, IsBytes, store8, store8-IsBytes}
use fesos.Strings.{success, StrStatus, str_len_loop, str_len, reverse_loop, str_reverse}

-- `m'` is `m` with the bytes from `a` to `b`, both included, in reverse.
abbrev pub Mirrored : ℕ → ℕ → Bytes → Bytes → Type 0
Mirrored a b m m' = (x : ℕ) → m' x ≡ (if leb a x && leb x b then m (a + b - x) else m x)

-- One swap, then the bytes between.
swap_Mirrored :
    (a b : ℕ) (m m' : Bytes)
    → a < b
    → IsBytes m
    → Mirrored (a + 1) (b - 1) (store8 (store8 m a (m b)) b (m a)) m'
    → Mirrored a b m m'
unfolding store8
swap_Mirrored a b m m' lt bytes h x =
    let e : a + 1 + (b - 1) ≡ a + b = omega arith in
    let h' = rw e at (h x) in ground (arith, h', bytes a, bytes b)

one_Mirrored : (a x : ℕ) (m : Bytes) → m x ≡ (if leb a x && leb x a then m (a + a - x) else m x)
one_Mirrored a x m = elim (Bool-cases (leb a x && leb x a)) [
  | inl inside ↦ let e : a + a - x ≡ x = ground arith in rw (inside, e)
  | inr outside ↦ rw outside
]

reverse_loop-Mirrored :
    (fuel : ℕ) (m : Bytes) (str left right : ℕ)
    → IsBytes m
    → left ≤ right + 1
    → right < left + fuel
    → 0 < fuel
    → right < 2 ^ 64
    → Gives (Mirrored (str + left) (str + right) m) (reverse_loop fuel m str left right)
unfolding reverse_loop
reverse_loop-Mirrored zero m str left right bytes le enough pos small = absurd (omega arith)
reverse_loop-Mirrored (suc fuel) m str left right bytes le enough pos small =
    elim (Bool-cases (leb left right)) [
      | inr past ↦ rw past (gives (λ x. ground arith))
      | inl within ↦ elim (Bool-cases (left == right)) [
        | inl same ↦
            let e = (==_iff left right).0 same in
            rw (within, same, e) (gives (λ x. one_Mirrored (str + right) x m))
        | inr differ ↦
            let lt : left < right = ground arith in
            let wrap_l : (left + 1) % 2 ^ 64 ≡ left + 1 = omega arith in
            let wrap_r : (right + 2 ^ 64 - 1) % 2 ^ 64 ≡ right - 1 = omega arith in
            let m1 = store8 m (str + left) (m (str + right)) in
            let m2 = store8 m1 (str + right) (m (str + left)) in
            let bytes1 = store8-IsBytes (str + left) (m (str + right)) bytes in
            let el : str + (left + 1) ≡ str + left + 1 = omega arith in
            let er : str + (right - 1) ≡ str + right - 1 = omega arith in
            rw (within, differ, wrap_l, wrap_r)
              (weaken-Gives
                (reverse_loop-Mirrored fuel m2 str (left + 1) (right - 1)
                  (store8-IsBytes (str + right) (m (str + left)) bytes1) (omega arith) (omega arith)
                  (omega arith) (omega arith))
                (λ m' mirror.
                  swap_Mirrored (str + left) (str + right) m m' (omega arith) bytes
                    (rw (el, er) at mirror)))
      ]
    ]

-- For a string that is not NULL, a range that is in order and ends above 0 and below 2 ^ 64, and
-- fuel for its length and one round: str_reverse succeeds, reverses the bytes of the range, and
-- changes no other byte.
pub str_reverse-Mirrored :
    (fuel : ℕ) (m : Bytes) (str start_index end_index : ℕ)
    → IsBytes m
    → str ≢ 0
    → start_index ≤ end_index
    → 0 < end_index
    → end_index < 2 ^ 64
    → end_index ≤ start_index + fuel
    → 0 < fuel
    → Gives {A = StrStatus × Bytes}
        (λ r. (r.0 ≡ success) × Mirrored (str + start_index) (str + (end_index - 1)) m (r.1))
        (str_reverse fuel m str start_index end_index)
unfolding str_reverse
str_reverse-Mirrored fuel m str start_index end_index bytes ne le pos small enough some_fuel =
    let wrap : (end_index + 2 ^ 64 - 1) % 2 ^ 64 ≡ end_index - 1 = omega arith in
    let run =
      reverse_loop-Mirrored fuel m str start_index (end_index - 1) bytes (omega arith) (omega arith)
        some_fuel (omega arith) in
    rw (ne→==_false str 0 ne, wrap)
      (after_loop (reverse_loop fuel m str start_index (end_index - 1)) run)
  where
    after_loop :
        {P : Bytes → Type 0} (o : Option Bytes)
        → Gives P o
        → Gives {A = StrStatus × Bytes}
            (λ r. (r.0 ≡ success) × P (r.1))
            (elim o [ none ↦ none | some m' ↦ some (success, m') ])
    after_loop none h = elim h [ ]
    after_loop (some m') (gives p) = gives (refl, p)

str_len_loop_lem :
    (k fuel : ℕ) (m : Bytes) (str len : ℕ)
    → k < fuel
    → len + k + 1 < 2 ^ 64
    → ((i : ℕ) → i < k → m (str + (len + i)) ≢ 0)
    → m (str + (len + k)) ≡ 0
    → str_len_loop fuel m str len ≡ some (len + k + 1)
unfolding str_len_loop
str_len_loop_lem k zero m str len enough small before end = absurd (omega arith)
str_len_loop_lem zero (suc fuel) m str len enough small before end =
    let at : len + 0 ≡ len = omega arith in
    let end' = rw at at end in
    let wrap : (len + 1) % 2 ^ 64 ≡ len + 1 = omega arith in rw (end', wrap, at)
str_len_loop_lem (suc k) (suc fuel) m str len enough small before end =
    let at : len + 0 ≡ len = omega arith in
    let first = ne→==_false (m (str + len)) 0 (rw at at (before 0 (omega arith))) in
    let wrap : (len + 1) % 2 ^ 64 ≡ len + 1 = omega arith in
    let next : (i : ℕ) → len + 1 + i ≡ len + suc i = λ i. omega arith in
    let result : len + 1 + k + 1 ≡ len + suc k + 1 = omega arith in
    rw (first, wrap)
      (str_len_loop_lem k fuel m str (len + 1) (omega arith) (omega arith)
          (λ i lt. rw (next i) (before (suc i) (omega arith))) (rw (next k) end)
        ∙ ap (λ n. some n) result)

-- On fuel above `k`, a string whose first byte 0 is the byte `k` has the length `k`.
pub str_len_lem :
    (k fuel : ℕ) (m : Bytes) (str : ℕ)
    → k < fuel
    → k + 1 < 2 ^ 64
    → ((i : ℕ) → i < k → m (str + i) ≢ 0)
    → m (str + k) ≡ 0
    → str_len fuel m str ≡ some k
unfolding str_len
str_len_lem k fuel m str enough small before end =
    let back : (k + 1 + 2 ^ 64 - 1) % 2 ^ 64 ≡ k = omega arith in
    let at : (i : ℕ) → 0 + i ≡ i = λ i. omega arith in
    let run = rw (at k) at (
      str_len_loop_lem k fuel m str 0 enough (omega arith) (λ i lt. rw (at i) (before i lt))
        (rw (at k) end)) in
    rw (str_len, run) (ap (λ n. some n) back)
