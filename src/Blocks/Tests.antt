-- ===== src/Blocks/Tests.antt =====
-- Runs of memset and memcpy, and the theorems at a concrete memory.
use fesos.Prelude.{◌+◌, ◌-◌, ◌%◌, ◌≡◌, inl, refl, arith}
use fesos.Machine.Memory.{Bytes, store8, store64, load64}
use fesos.Blocks.{
  fill_head, fill_words, fill_tail, repeated, memset, volatile_memset, copy_head, copy_words,
  copy_tail, memcpy,
}
use fesos.Blocks.Written.{Written}
use fesos.Blocks.Memset.{memset-Written}
use fesos.Blocks.Memcpy.{memcpy-Written}

-- Each byte has the low bits of its address.
abbrev memory : Bytes
memory a = a % 256

-- The bytes 5 to 24: three up to the word at 8, two words, and one more.
set_twenty_last : ((memset 5 7 20 memory).1) 24 ≡ 7
unfolding memset fill_head fill_words fill_tail repeated store8 store64
set_twenty_last = refl

set_twenty_after : ((memset 5 7 20 memory).1) 25 ≡ 25
unfolding memset fill_head fill_words fill_tail repeated store8 store64
set_twenty_after = refl

copy_twenty_last : ((memcpy 105 0 20 5 memory).1) 124 ≡ 24
unfolding memcpy copy_head copy_words copy_tail store8 store64 load64
copy_twenty_last = refl

memset-Written_example :
    ((memset 5 7 20 memory).0 ≡ 5)
    × Written (λ _. 7) 5 (5 + 20) memory ((memset 5 7 20 memory).1)
    × (volatile_memset 5 7 20 memory ≡ memset 5 7 20 memory)
memset-Written_example = memset-Written 5 7 20 memory (omega arith) (omega arith)

memcpy-Written_example :
    ((memcpy 105 205 20 5 memory).0 ≡ 105)
    × Written (λ x. memory (5 + (x - 105))) 105 (105 + 20) memory ((memcpy 105 205 20 5 memory).1)
memcpy-Written_example =
    memcpy-Written 105 205 20 5 memory (λ a. omega arith) (omega arith) (omega arith)
      (inl (omega arith))
