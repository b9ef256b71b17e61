-- ===== src/Prelude/Gives.antt =====
-- A result that is there, with a fact about it.
use mathlib.Core.Option.{Option, some}

pub data Gives {A : Type 0} (P : A → Type 0) : Option A → Type 0 where
  gives : {a : A} → P a → Gives P (some a)

pub weaken-Gives :
    {A : Type 0} {P Q : A → Type 0} {o : Option A} → Gives P o → ((a : A) → P a → Q a) → Gives Q o
weaken-Gives (gives p) f = gives (f _ p)
