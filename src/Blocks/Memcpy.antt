-- ===== src/Blocks/Memcpy.antt =====
-- memcpy copies, byte for byte, from the pointer that its loops start with.
use fesos.Prelude.{
  ℕ, zero, suc, ◌+◌, ◌-◌, ◌%◌, ◌^◌, ◌≤◌, ◌<◌, ◌≡◌, ◌⊎◌, inl, inr, refl, arith, ◌∙◌, ◌==◌,
  Bool-cases,
}
use native.Mathlib.Nat.{add-zero}
use fesos.Machine.Memory.{
  Bytes, IsBytes, store8, store64, load64, store8-IsBytes, store64-IsBytes, load64_byte,
  below_eight,
}
use fesos.Blocks.{copy_head, copy_words, copy_tail, memcpy}
use fesos.Blocks.Written.{
  Written, nothing_Written, Written-trans, byte_Written, word_Written, by_eights,
}

-- `n` bytes at `s` have the content for `d`, and the two ranges have no byte in common.
abbrev Source : (ℕ → ℕ) → ℕ → ℕ → ℕ → Bytes → Type 0
Source c n d s m = ((i : ℕ) → i < n → m (s + i) ≡ c (d + i)) × ((s + n ≤ d) ⊎ (d + n ≤ s))

abbrev Copied : (ℕ → ℕ) → ℕ → ℕ → ℕ → Bytes → Bytes × ℕ × ℕ × ℕ → Type 0
Copied c n d s m (m', d', s', n') =
    (d ≤ d') × (d' + n' ≡ d + n) × (s' + d ≡ s + d') × IsBytes m' × Written c d d' m m'

-- The rest of the source is as it was.
rest_Source :
    (c : ℕ → ℕ) (n d s : ℕ) (m m' : Bytes) (n' d' s' : ℕ)
    → d ≤ d'
    → d' + n' ≡ d + n
    → s' + d ≡ s + d'
    → Written c d d' m m'
    → Source c n d s m
    → Source c n' d' s' m'
rest_Source c n d s m m' n' d' s' le sum offset written (same, apart) = (
  λ i lt.
      let k = d' - d + i in
      let e1 : s + k ≡ s' + i = omega arith in
      let e2 : d + k ≡ d' + i = omega arith in
      let old : m (s' + i) ≡ c (d' + i) = rw (e1, e2) at (same k (omega arith)) in
      ground (arith, written (s' + i)),
  ground arith,
)

copy_words_stop : (size d s : ℕ) (m : Bytes) → size < 8 → copy_words size d s m ≡ (m, d, s, size)
unfolding copy_words
copy_words_stop size d s m lt =
    below_eight (λ n. copy_words n d s m ≡ (m, d, s, n)) size lt refl refl refl refl refl refl refl
      refl

module _ (c : ℕ → ℕ) (bytes_c : (x : ℕ) → c x < 256) where
  first_Written :
      (n d s : ℕ) (m : Bytes) → Source c (suc n) d s m → Written c d (d + 1) m (store8 m d (m s))
  first_Written n d s m source = byte_Written c d m (m s) (
      let e = rw (add-zero s, add-zero d) at (source.0 0 (omega arith)) in
      omega (arith, e, bytes_c d))

  copy_head-Copied :
      (n d s : ℕ) (m : Bytes)
      → d + n < 2 ^ 64
      → s + n < 2 ^ 64
      → IsBytes m
      → Source c n d s m
      → Copied c n d s m (copy_head n d s m)
  unfolding copy_head
  copy_head-Copied zero d s m fd fs bytes source =
      (omega arith, refl, refl, bytes, nothing_Written c d m)
  copy_head-Copied (suc n) d s m fd fs bytes source = elim (Bool-cases (d % 8 == 0)) [
    | inl aligned ↦ rw aligned (omega arith, refl, refl, bytes, nothing_Written c d m)
    | inr odd ↦
        let wrap_d : (d + 1) % 2 ^ 64 ≡ d + 1 = omega arith in
        let wrap_s : (s + 1) % 2 ^ 64 ≡ s + 1 = omega arith in
        let m1 = store8 m d (m s) in
        let first = first_Written n d s m source in
        let (le, sum, offset, bytes', written) =
          copy_head-Copied n (d + 1) (s + 1) m1 (omega arith) (omega arith)
            (store8-IsBytes d (m s) bytes)
            (rest_Source c (suc n) d s m m1 n (d + 1) (s + 1) (omega arith) (omega arith)
              (omega arith) first source) in
        rw (odd, wrap_d, wrap_s)
          (
            omega arith,
            sum ∙ omega arith,
            omega arith,
            bytes',
            Written-trans c d (d + 1) _ m m1 _ (omega arith) le first written,
          )
  ]

  copy_words-Copied :
      (n d s : ℕ) (m : Bytes)
      → d + n < 2 ^ 64
      → s + n < 2 ^ 64
      → IsBytes m
      → Source c n d s m
      → Copied c n d s m (copy_words n d s m)
  unfolding copy_words
  copy_words-Copied =
      by_eights
        (λ n.
          (d s : ℕ) (m : Bytes)
          → d + n < 2 ^ 64
          → s + n < 2 ^ 64
          → IsBytes m
          → Source c n d s m
          → Copied c n d s m (copy_words n d s m))
        (λ n lt d s m fd fs bytes source.
          rw (copy_words_stop n d s m lt) (omega arith, refl, refl, bytes, nothing_Written c d m))
        (λ n next d s m fd fs bytes source.
          let wrap_d : (d + 8) % 2 ^ 64 ≡ d + 8 = omega arith in
          let wrap_s : (s + 8) % 2 ^ 64 ≡ s + 8 = omega arith in
          let m1 = store64 m d (load64 m s) in
          let word =
            word_Written c d m (load64 m s)
              (λ k lt. load64_byte m s k bytes lt ∙ source.0 k (omega arith)) in
          let (le, sum, offset, bytes', written) =
            next (d + 8) (s + 8) m1 (omega arith) (omega arith)
              (store64-IsBytes d (load64 m s) bytes)
              (rest_Source c _ d s m m1 n (d + 8) (s + 8) (omega arith) (omega arith) (omega arith)
                word source) in
          rw (wrap_d, wrap_s)
            (
              omega arith,
              sum ∙ omega arith,
              omega arith,
              bytes',
              Written-trans c d (d + 8) _ m m1 _ (omega arith) le word written,
            ))

  copy_tail-Written :
      (n d s : ℕ) (m : Bytes)
      → d + n < 2 ^ 64
      → s + n < 2 ^ 64
      → Source c n d s m
      → Written c d (d + n) m (copy_tail n d s m)
  unfolding copy_tail
  copy_tail-Written zero d s m fd fs source = rw (add-zero d) (nothing_Written c d m)
  copy_tail-Written (suc n) d s m fd fs source =
      let wrap_d : (d + 1) % 2 ^ 64 ≡ d + 1 = omega arith in
      let wrap_s : (s + 1) % 2 ^ 64 ≡ s + 1 = omega arith in
      let end : d + suc n ≡ d + 1 + n = omega arith in
      let m1 = store8 m d (m s) in
      let first = first_Written n d s m source in
      rw (wrap_d, wrap_s, end)
        (Written-trans c d (d + 1) (d + 1 + n) m m1 _ (omega arith) (omega arith) first (
          copy_tail-Written n (d + 1) (s + 1) m1 (omega arith) (omega arith) (
            rest_Source c (suc n) d s m m1 n (d + 1) (s + 1) (omega arith) (omega arith)
              (omega arith) first source)))

-- For a destination and a range at the initial value of the variable `src8` that have no byte in
-- common and end below 2 ^ 64: memcpy returns the destination, each byte of it becomes the byte at
-- the same distance from that initial value, whatever `src` is, and no other byte changes.
pub memcpy-Written :
    (dest src size src8 : ℕ) (m : Bytes)
    → IsBytes m
    → dest + size < 2 ^ 64
    → src8 + size < 2 ^ 64
    → (src8 + size ≤ dest) ⊎ (dest + size ≤ src8)
    → ((memcpy dest src size src8 m).0 ≡ dest)
      × Written (λ x. m (src8 + (x - dest))) dest (dest + size) m ((memcpy dest src size src8 m).1)
unfolding memcpy
memcpy-Written dest src size src8 m bytes fd fs apart =
    let c = λ (x : ℕ). m (src8 + (x - dest)) in
    let bytes_c = λ (x : ℕ). bytes (src8 + (x - dest)) in
    let source : Source c size dest src8 m =
      (λ i lt. let e : dest + i - dest ≡ i = omega arith in rw e, apart) in
    let (m1, d1, s1, n1) = copy_head size dest src8 m in
    let (le1, sum1, off1, bytes1, written1) =
      copy_head-Copied c bytes_c size dest src8 m fd fs bytes source in
    let source1 = rest_Source c size dest src8 m m1 n1 d1 s1 le1 sum1 off1 written1 source in
    let (m2, d2, s2, n2) = copy_words n1 d1 s1 m1 in
    let (le2, sum2, off2, bytes2, written2) =
      copy_words-Copied c bytes_c n1 d1 s1 m1 (omega arith) (omega arith) bytes1 source1 in
    let source2 = rest_Source c n1 d1 s1 m1 m2 n2 d2 s2 le2 sum2 off2 written2 source1 in
    let written3 = copy_tail-Written c bytes_c n2 d2 s2 m2 (omega arith) (omega arith) source2 in
    let end : d2 + n2 ≡ dest + size = sum2 ∙ sum1 in
    let m3 = copy_tail n2 d2 s2 m2 in
    (
      refl,
      Written-trans c dest d2 (dest + size) m m2 m3 (omega arith) (omega arith)
          (Written-trans c dest d1 d2 m m1 m2 le1 le2 written1 written2) (rw end at written3),
    )
