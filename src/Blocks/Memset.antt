-- ===== src/Blocks/Memset.antt =====
-- memset writes the pattern to every byte of the range and to no other.
use fesos.Prelude.{
  ℕ, zero, suc, ◌+◌, ◌%◌, ◌^◌, ◌≤◌, ◌<◌, ◌≡◌, ◌⊎◌, inl, inr, refl, arith, ◌∙◌, ◌==◌, ==_iff,
  Bool-cases,
}
use native.Mathlib.Nat.{add-zero}
use fesos.Machine.Memory.{Bytes, store8, store64, below_eight}
use fesos.Blocks.{fill_head, fill_words, fill_tail, repeated, memset, volatile_memset}
use fesos.Blocks.Written.{
  Written, nothing_Written, Written-trans, byte_Written, word_Written, repeated_byte, by_eights,
}

-- A loop stops at a later pointer, with what is left of the size, and has written up to there.
abbrev Filled : ℕ → ℕ → ℕ → Bytes → Bytes × ℕ × ℕ → Type 0
Filled pattern size ptr m (m', ptr', size') =
    (ptr ≤ ptr') × (ptr' + size' ≡ ptr + size) × Written (λ _. pattern) ptr ptr' m m'

fill_words_stop : (p size ptr : ℕ) (m : Bytes) → size < 8 → fill_words p size ptr m ≡ (m, ptr, size)
unfolding fill_words
fill_words_stop p size ptr m lt =
    below_eight (λ n. fill_words p n ptr m ≡ (m, ptr, n)) size lt refl refl refl refl refl refl refl
      refl

module _ (pattern : ℕ) (small : pattern < 256) where
  step_Written :
      (ptr : ℕ) (m : Bytes) → Written (λ _. pattern) ptr (ptr + 1) m (store8 m ptr pattern)
  step_Written ptr m = byte_Written (λ _. pattern) ptr m pattern (omega arith)

  -- The words that follow are aligned, or there are none.
  fill_head-Filled :
      (size ptr : ℕ) (m : Bytes)
      → ptr + size < 2 ^ 64
      → Filled pattern size ptr m (fill_head pattern size ptr m)
        × (((fill_head pattern size ptr m).1 % 8 ≡ 0) ⊎ ((fill_head pattern size ptr m).2 ≡ 0))
  unfolding fill_head
  fill_head-Filled zero ptr m fits =
      ((omega arith, refl, nothing_Written (λ _. pattern) ptr m), inr refl)
  fill_head-Filled (suc size) ptr m fits = elim (Bool-cases (ptr % 8 == 0)) [
    | inl aligned ↦ rw aligned (
      (omega arith, refl, nothing_Written (λ _. pattern) ptr m),
      inl ((==_iff (ptr % 8) 0).0 aligned),
    )
    | inr odd ↦
        let next : (ptr + 1) % 2 ^ 64 ≡ ptr + 1 = omega arith in
        let ((le, sum, written), aligned) =
          fill_head-Filled size (ptr + 1) (store8 m ptr pattern) (omega arith) in
        rw (odd, next)
          (
            (
              omega arith,
              sum ∙ omega arith,
              Written-trans (λ _. pattern) ptr (ptr + 1) _ m (store8 m ptr pattern) _ (omega arith)
                  le (step_Written ptr m) written,
            ),
            aligned,
          )
  ]

  fill_words-Filled :
      (size ptr : ℕ) (m : Bytes)
      → ptr + size < 2 ^ 64
      → Filled pattern size ptr m (fill_words (repeated pattern) size ptr m)
  unfolding fill_words
  fill_words-Filled =
      by_eights
        (λ size.
          (ptr : ℕ) (m : Bytes)
          → ptr + size < 2 ^ 64
          → Filled pattern size ptr m (fill_words (repeated pattern) size ptr m))
        (λ size lt ptr m fits.
          rw (fill_words_stop (repeated pattern) size ptr m lt)
            (omega arith, refl, nothing_Written (λ _. pattern) ptr m))
        (λ size next ptr m fits.
          let wrap : (ptr + 8) % 2 ^ 64 ≡ ptr + 8 = omega arith in
          let m1 = store64 m ptr (repeated pattern) in
          let (le, sum, written) = next (ptr + 8) m1 (omega arith) in
          let word =
            word_Written (λ _. pattern) ptr m (repeated pattern)
              (λ k lt. repeated_byte pattern k small lt) in
          rw wrap (
            omega arith,
            sum ∙ omega arith,
            Written-trans (λ _. pattern) ptr (ptr + 8) _ m m1 _ (omega arith) le word written,
          ))

  fill_tail-Written :
      (size ptr : ℕ) (m : Bytes)
      → ptr + size < 2 ^ 64
      → Written (λ _. pattern) ptr (ptr + size) m (fill_tail pattern size ptr m)
  unfolding fill_tail
  fill_tail-Written zero ptr m fits = rw (add-zero ptr) (nothing_Written (λ _. pattern) ptr m)
  fill_tail-Written (suc size) ptr m fits =
      let wrap : (ptr + 1) % 2 ^ 64 ≡ ptr + 1 = omega arith in
      let end : ptr + suc size ≡ ptr + 1 + size = omega arith in
      rw (wrap, end)
        (Written-trans (λ _. pattern) ptr (ptr + 1) (ptr + 1 + size) m (store8 m ptr pattern) _
          (omega arith) (omega arith) (step_Written ptr m)
          (fill_tail-Written size (ptr + 1) (store8 m ptr pattern) (omega arith)))

-- For a byte and a range that ends below 2 ^ 64, memset and volatile_memset return the pointer that
-- they are given, each byte of the range becomes the pattern, and no other byte changes.
pub memset-Written :
    (start pattern size : ℕ) (m : Bytes)
    → pattern < 256
    → start + size < 2 ^ 64
    → ((memset start pattern size m).0 ≡ start)
      × Written (λ _. pattern) start (start + size) m ((memset start pattern size m).1)
      × (volatile_memset start pattern size m ≡ memset start pattern size m)
unfolding memset volatile_memset
memset-Written start pattern size m small fits =
    let head = fill_head pattern size start m in
    let ((le1, sum1, written1), aligned) = fill_head-Filled pattern small size start m fits in
    let words = fill_words (repeated pattern) (head.2) (head.1) (head.0) in
    let (le2, sum2, written2) =
      fill_words-Filled pattern small (head.2) (head.1) (head.0) (omega arith) in
    let written3 = fill_tail-Written pattern small (words.2) (words.1) (words.0) (omega arith) in
    let end : words.1 + words.2 ≡ start + size = sum2 ∙ sum1 in
    let c = λ (_ : ℕ). pattern in
    let m3 = fill_tail pattern (words.2) (words.1) (words.0) in
    (
      refl,
      Written-trans c start (words.1) (start + size) m (words.0) m3 (omega arith) (omega arith)
          (Written-trans c start (head.1) (words.1) m (head.0) (words.0) le1 le2 written1 written2)
          (rw end at written3),
      refl,
    )
