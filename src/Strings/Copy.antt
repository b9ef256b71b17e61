-- ===== src/Strings/Copy.antt =====
-- str_ncpy copies a range to one that has no byte in common with it.
use fesos.Prelude.{ℕ, zero, suc, ◌+◌, ◌-◌, ◌%◌, ◌^◌, ◌≤◌, ◌<◌, ◌≡◌, ◌⊎◌, refl, arith}
use fesos.Machine.Memory.{Bytes, IsBytes, store8}
use fesos.Blocks.Written.{Written, nothing_Written, Written-trans, byte_Written}
use fesos.Strings.{str_ncpy_loop, str_ncpy}

module _ (c : ℕ → ℕ) (n src dest : ℕ) (bytes_c : (x : ℕ) → c x < 256)
    (apart : (src + n ≤ dest) ⊎ (dest + n ≤ src)) where
  kept_source :
      (m : Bytes) (index : ℕ)
      → index < n
      → ((i : ℕ) → i < n → m (src + i) ≡ c (dest + i))
      → (i : ℕ) → i < n
      → store8 m (dest + index) (m (src + index)) (src + i) ≡ c (dest + i)
  unfolding store8
  kept_source m index lt same i il = ground (arith, same i il)

  str_ncpy_loop-Written :
      (left : ℕ) (m : Bytes) (index : ℕ)
      → index + left ≡ n
      → n < 2 ^ 64
      → ((i : ℕ) → i < n → m (src + i) ≡ c (dest + i))
      → Written c (dest + index) (dest + n) m (str_ncpy_loop left m src dest index)
  unfolding str_ncpy_loop
  str_ncpy_loop-Written zero m index e small same =
      let end : index ≡ n = omega arith in rw end (nothing_Written c (dest + n) m)
  str_ncpy_loop-Written (suc left) m index e small same =
      let wrap : (index + 1) % 2 ^ 64 ≡ index + 1 = omega arith in
      let next : dest + (index + 1) ≡ dest + index + 1 = omega arith in
      let first =
        byte_Written c (dest + index) m (m (src + index))
          (let s = same index (omega arith) in omega (arith, s, bytes_c (dest + index))) in
      let m1 = store8 m (dest + index) (m (src + index)) in
      let later =
        str_ncpy_loop-Written left m1 (index + 1) (omega arith) small
          (kept_source m index (omega arith) same) in
      rw wrap (
        Written-trans c (dest + index) (dest + index + 1) (dest + n) m m1 _ (omega arith)
          (omega arith) first (rw next at later))

-- For two ranges of `n` bytes with none in common and `n` below 2 ^ 64, str_ncpy returns the low 32
-- bits of `n`, each byte of the destination becomes that of the source, and no other byte changes.
pub str_ncpy-Written :
    (m : Bytes) (src dest n : ℕ)
    → IsBytes m
    → n < 2 ^ 64
    → (src + n ≤ dest) ⊎ (dest + n ≤ src)
    → ((str_ncpy m src dest n).0 ≡ n % 2 ^ 32)
      × Written (λ x. m (src + (x - dest))) dest (dest + n) m ((str_ncpy m src dest n).1)
unfolding str_ncpy
str_ncpy-Written m src dest n bytes small apart =
    let c = λ (x : ℕ). m (src + (x - dest)) in
    let start : dest + 0 ≡ dest = omega arith in
    let at : (i : ℕ) → dest + i - dest ≡ i = λ i. omega arith in
    (
      refl,
      rw start at (
          str_ncpy_loop-Written c n src dest (λ x. bytes (src + (x - dest))) apart n m 0
            (omega arith) small (λ i lt. rw (at i))),
    )
