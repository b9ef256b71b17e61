-- ===== src/Avl/Order/Lists.antt =====
-- Sorted lists of keys.
use fesos.Prelude.{
  ℕ, ◌≤◌, ◌<◌, ◌≡◌, ◌≢◌, refl, true, false, List, [], ◌∷◌, ◌++◌, ltb, ltb→lt, if◌then◌else◌, arith,
  Bool-cases, inl, inr, ap,
}

unfoldable pub insert_sorted : ℕ → List ℕ → List ℕ
insert_sorted k [] = k ∷ []
insert_sorted k (x ∷ xs) = let rest = insert_sorted k xs in if ltb k x then k ∷ x ∷ xs else x ∷ rest

abbrev pub AtLeast : ℕ → List ℕ → Type 0
AtLeast k [] = Unit {0}
AtLeast k (x ∷ xs) = (k ≤ x) × AtLeast k xs

abbrev pub IsSorted : List ℕ → Type 0
IsSorted [] = Unit {0}
IsSorted (x ∷ xs) = AtLeast x xs × IsSorted xs

-- No element is `k`.
abbrev pub Absent : ℕ → List ℕ → Type 0
Absent k [] = Unit {0}
Absent k (x ∷ xs) = (x ≢ k) × Absent k xs

pub AtLeast-le : (k m : ℕ) (xs : List ℕ) → k ≤ m → AtLeast m xs → AtLeast k xs
AtLeast-le k m [] le h = tt
AtLeast-le k m (x ∷ xs) le (here, rest) = (omega arith, AtLeast-le k m xs le rest)

AtLeast-middle : (k m : ℕ) (xs ys : List ℕ) → AtLeast k (xs ++ m ∷ ys) → k ≤ m
AtLeast-middle k m [] ys h = h.0
AtLeast-middle k m (x ∷ xs) ys h = AtLeast-middle k m xs ys (h.1)

AtLeast-first : (k : ℕ) (xs ys : List ℕ) → AtLeast k (xs ++ ys) → AtLeast k xs
AtLeast-first k [] ys h = tt
AtLeast-first k (x ∷ xs) ys (here, rest) = (here, AtLeast-first k xs ys rest)

pub IsSorted-first : (xs ys : List ℕ) → IsSorted (xs ++ ys) → IsSorted xs
IsSorted-first [] ys h = tt
IsSorted-first (x ∷ xs) ys (low, rest) = (AtLeast-first x xs ys low, IsSorted-first xs ys rest)

pub IsSorted-second : (xs ys : List ℕ) → IsSorted (xs ++ ys) → IsSorted ys
IsSorted-second [] ys h = h
IsSorted-second (x ∷ xs) ys (low, rest) = IsSorted-second xs ys rest

-- A key goes to the left of a greater one, and to the right of one that is not greater.
pub insert_sorted_left :
    (k m : ℕ) (xs ys : List ℕ)
    → ltb k m ≡ true
    → insert_sorted k (xs ++ m ∷ ys) ≡ insert_sorted k xs ++ m ∷ ys
unfolding insert_sorted
insert_sorted_left k m [] ys h = rw h
insert_sorted_left k m (x ∷ xs) ys h = elim (Bool-cases (ltb k x)) [
  | inl q ↦ rw q
  | inr q ↦ rw q (ap (λ zs. x ∷ zs) (insert_sorted_left k m xs ys h))
]

pub insert_sorted_right :
    (k m : ℕ) (xs ys : List ℕ)
    → ltb k m ≡ false
    → IsSorted (xs ++ m ∷ ys)
    → insert_sorted k (xs ++ m ∷ ys) ≡ xs ++ m ∷ insert_sorted k ys
unfolding insert_sorted
insert_sorted_right k m [] ys h sorted = rw h
insert_sorted_right k m (x ∷ xs) ys h (low, rest) =
    let le = AtLeast-middle x m xs ys low in
    let q : ltb k x ≡ false = ground arith in
    rw q (ap (λ zs. x ∷ zs) (insert_sorted_right k m xs ys h rest))

AtLeast-insert_sorted :
    (k m : ℕ) (xs : List ℕ) → k ≤ m → AtLeast k xs → AtLeast k (insert_sorted m xs)
unfolding insert_sorted
AtLeast-insert_sorted k m [] le h = (le, tt)
AtLeast-insert_sorted k m (x ∷ xs) le (here, rest) = elim (Bool-cases (ltb m x)) [
  | inl q ↦ rw q (le, (here, rest))
  | inr q ↦ rw q (here, AtLeast-insert_sorted k m xs le rest)
]

pub insert_sorted-IsSorted : (k : ℕ) (xs : List ℕ) → IsSorted xs → IsSorted (insert_sorted k xs)
unfolding insert_sorted
insert_sorted-IsSorted k [] h = (tt, tt)
insert_sorted-IsSorted k (x ∷ xs) (low, rest) = elim (Bool-cases (ltb k x)) [
  | inl q ↦
      let lt = ltb→lt k x q in
      rw q ((omega arith, AtLeast-le k x xs (omega arith) low), (low, rest))
  | inr q ↦
      let le : x ≤ k = ground arith in
      rw q (AtLeast-insert_sorted x k xs le low, insert_sorted-IsSorted k xs rest)
]

-- Where a key can stand in a sorted list that is cut at `m`.
pub Absent-left :
    (k m : ℕ) (xs ys : List ℕ)
    → k < m
    → IsSorted (xs ++ m ∷ ys)
    → Absent k xs
    → Absent k (xs ++ m ∷ ys)
Absent-left k m [] ys lt (low, rest) h = ((λ q. omega arith), above_all k m ys lt low)
  where
    above_all : (k m : ℕ) (ys : List ℕ) → k < m → AtLeast m ys → Absent k ys
    above_all k m [] lt h = tt
    above_all k m (y ∷ ys) lt (here, rest) = ((λ q. omega arith), above_all k m ys lt rest)
Absent-left k m (x ∷ xs) ys lt (low, rest) (ne, h) = (ne, Absent-left k m xs ys lt rest h)

pub Absent-right :
    (k m : ℕ) (xs ys : List ℕ)
    → m < k
    → IsSorted (xs ++ m ∷ ys)
    → Absent k ys
    → Absent k (xs ++ m ∷ ys)
Absent-right k m [] ys lt sorted h = ((λ q. omega arith), h)
Absent-right k m (x ∷ xs) ys lt (low, rest) h =
    let le = AtLeast-middle x m xs ys low in ((λ q. omega arith), Absent-right k m xs ys lt rest h)

pub insert_sorted_present : (k : ℕ) (xs : List ℕ) → Absent k (insert_sorted k xs) → ⊥
unfolding insert_sorted
insert_sorted_present k [] h = h.0 refl
insert_sorted_present k (x ∷ xs) h = elim (Bool-cases (ltb k x)) [
  | inl q ↦ let h' : Absent k (k ∷ x ∷ xs) = rw q at h in h'.0 refl
  | inr q ↦
      let h' : Absent k (x ∷ insert_sorted k xs) = rw q at h in insert_sorted_present k xs (h'.1)
]

pub middle_assoc :
    (xs : List ℕ) (m : ℕ) (ys zs : List ℕ) → (xs ++ m ∷ ys) ++ zs ≡ xs ++ m ∷ (ys ++ zs)
middle_assoc [] m ys zs = refl
middle_assoc (x ∷ xs) m ys zs = ap (λ ws. x ∷ ws) (middle_assoc xs m ys zs)
