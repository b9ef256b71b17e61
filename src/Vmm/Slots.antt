-- ===== src/Vmm/Slots.antt =====
-- Writing one entry after another, at addresses that have no byte in common.
use fesos.Prelude.{
  ℕ, suc, ◌+◌, ◌^◌, ◌≤◌, ◌<◌, ◌≡◌, ◌⊎◌, inl, inr, refl, arith, ◌∙◌, ◌==◌, ==_iff, ==_false→ne,
  Bool-cases,
}
use fesos.Machine.{Kernel}
use fesos.Machine.Memory.{Bytes, load64, store64, store64_outside, load64-store64, load64_ext}

-- Two entries, or an entry and a byte, have nothing in common.
abbrev pub Apart : ℕ → ℕ → Type 0
Apart a b = (a + 8 ≤ b) ⊎ (b + 8 ≤ a)

abbrev pub Outside : ℕ → ℕ → Type 0
Outside a x = (x < a) ⊎ (a + 8 ≤ x)

-- The first `n` of the entries at `leaf` have the values `new`, and all else is as in `k0`.
pub record Stored (leaf new : ℕ → ℕ) (k0 : Kernel) (n : ℕ) (k : Kernel) : Type 0 where
  pub entries : (i : ℕ) → i < n → load64 k.mem (leaf i) ≡ new i
  pub others : (x : ℕ) → ((j : ℕ) → j < n → Outside (leaf j) x) → k.mem x ≡ k0.mem x
  pub same_pmm : k.pmm ≡ k0.pmm

pub load64-Apart : (m : Bytes) (a v b : ℕ) → Apart a b → load64 (store64 m a v) b ≡ load64 m b
load64-Apart m a v b apart =
    load64_ext m (store64 m a v) b (λ i lt. store64_outside m a v (b + i) (ground arith))

module _ (leaf new : ℕ → ℕ) (k0 : Kernel) where
  pub Stored-zero : Stored leaf new k0 0 k0
  Stored-zero = record {
    entries = λ i lt. absurd (omega arith);
    others = λ x out. refl;
    same_pmm = refl;
  }

  -- An entry apart from those that were written.
  pub Stored-load64 :
      (n : ℕ) (k : Kernel) (a : ℕ)
      → Stored leaf new k0 n k
      → ((j : ℕ) → j < n → Apart (leaf j) a)
      → load64 k.mem a ≡ load64 k0.mem a
  Stored-load64 n k a s apart = load64_ext k0.mem k.mem a (λ i lt. s.others (a + i) (λ j jl.
      elim (apart j jl) [ inl before ↦ inr (omega arith) | inr after ↦ inl (omega arith) ]))

  pub Stored-suc :
      (n : ℕ) (k : Kernel)
      → Stored leaf new k0 n k
      → new n < 2 ^ 64
      → ((j : ℕ) → j < n → Apart (leaf j) (leaf n))
      → Stored leaf new k0 (suc n) (record k { mem = store64 k.mem (leaf n) (new n) })
  Stored-suc n k s small apart = record {
    entries = λ i lt. elim (Bool-cases (i == n)) [
      | inl same ↦ let e = (==_iff i n).0 same in rw e (load64-store64 k.mem (leaf n) (new n) small)
      | inr other ↦
          let ne = ==_false→ne i n other in
          load64-Apart k.mem (leaf n) (new n) (leaf i) (ground (arith, apart i (omega arith)))
          ∙ s.entries i (omega arith)
    ];
    others = λ x out.
        store64_outside k.mem (leaf n) (new n) x (out n (omega arith))
        ∙ s.others x (λ j lt. out j (omega arith));
    same_pmm = s.same_pmm;
  }
