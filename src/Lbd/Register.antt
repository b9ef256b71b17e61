-- ===== src/Lbd/Register.antt =====
-- Registration of drives, one after another.
use fesos.Prelude.{
  ℕ, zero, suc, ◌+◌, ◌%◌, ◌^◌, ◌≤◌, ◌<◌, ◌≡◌, ◌≢◌, refl, inl, inr, arith, ◌==◌, ==_iff, ==_refl,
  ==_false→ne, ne→==_false, false, Bool-cases, some,
}
use fesos.Lbd.{LogicalDrive, Drives, drive_at, lbd_register_drive}

-- The table before any registration, over drives in memory, and after the first `n` registrations.
abbrev pub empty_drives : (ℕ → LogicalDrive) → Drives
empty_drives drives = record { lbd_drives = λ _. 0; drives = drives; next_drive_num = 0 }

unfoldable pub registered : (ℕ → LogicalDrive) → (ℕ → ℕ) → ℕ → Drives
registered drives pointer zero = empty_drives drives
registered drives pointer (suc n) = lbd_register_drive (pointer n) (registered drives pointer n)

next-registered :
    (drives : ℕ → LogicalDrive) (pointer : ℕ → ℕ) (n : ℕ)
    → (registered drives pointer n).next_drive_num ≡ n % 2 ^ 8
unfolding registered lbd_register_drive
next-registered drives pointer zero = refl
next-registered drives pointer (suc n) = let e = next-registered drives pointer n in omega arith

-- The address of registration `i` stays in its entry for 256 registrations.
lbd_drives-registered :
    (drives : ℕ → LogicalDrive) (pointer : ℕ → ℕ) (n i : ℕ)
    → i < n
    → n ≤ i + 256
    → (registered drives pointer n).lbd_drives (i % 2 ^ 8) ≡ pointer i
unfolding registered lbd_register_drive
lbd_drives-registered drives pointer zero i lt le = absurd (omega arith)
lbd_drives-registered drives pointer (suc n) i lt le =
    let number = next-registered drives pointer n in
    elim (Bool-cases (i == n)) [
      | inl same ↦ let e = (==_iff i n).0 same in rw (number, e, ==_refl (n % 2 ^ 8)) refl
      | inr other ↦
          let ne = ==_false→ne i n other in
          let apart : (i % 2 ^ 8 == n % 2 ^ 8) ≡ false = ground arith in
          rw (number, apart) (lbd_drives-registered drives pointer n i (omega arith) (omega arith))
    ]

-- A drive that is not registered keeps its contents.
drives-registered_none :
    (drives : ℕ → LogicalDrive) (pointer : ℕ → ℕ) (n a : ℕ)
    → ((j : ℕ) → j < n → a ≢ pointer j)
    → (registered drives pointer n).drives a ≡ drives a
unfolding registered lbd_register_drive
drives-registered_none drives pointer zero a other = refl
drives-registered_none drives pointer (suc n) a other =
    rw (ne→==_false a (pointer n) (other n (omega arith)))
      (drives-registered_none drives pointer n a (λ j lt. other j (omega arith)))

-- But for its number, a drive keeps its contents.
renumber-registered :
    (drives : ℕ → LogicalDrive) (pointer : ℕ → ℕ) (n a number : ℕ)
    → Path LogicalDrive
        (record ((registered drives pointer n).drives a) { drive_no = number })
        (record (drives a) { drive_no = number })
unfolding registered lbd_register_drive
renumber-registered drives pointer zero a number = refl
renumber-registered drives pointer (suc n) a number = elim (Bool-cases (a == pointer n)) [
  | inl same ↦ rw same (renumber-registered drives pointer n a number)
  | inr other ↦ rw other (renumber-registered drives pointer n a number)
]

-- A drive has the number of the last registration of its address.
drives-registered :
    (drives : ℕ → LogicalDrive) (pointer : ℕ → ℕ) (n i : ℕ)
    → i < n
    → ((j : ℕ) → i < j → j < n → pointer i ≢ pointer j)
    → (registered drives pointer n).drives (pointer i)
      ≡ record (drives (pointer i)) { drive_no = i % 2 ^ 8 }
unfolding registered lbd_register_drive
drives-registered drives pointer zero i lt last = absurd (omega arith)
drives-registered drives pointer (suc n) i lt last =
    let number = next-registered drives pointer n in
    elim (Bool-cases (i == n)) [
      | inl same ↦
          let e = (==_iff i n).0 same in
          rw (number, e, ==_refl (pointer n))
            (renumber-registered drives pointer n (pointer n) (n % 2 ^ 8))
      | inr other ↦
          let ne = ==_false→ne i n other in
          rw (ne→==_false (pointer i) (pointer n) (last n (omega arith) (omega arith))) (
            drives-registered drives pointer n i (omega arith)
              (λ j lt' lt''. last j lt' (omega arith)))
    ]

-- After `n` registrations into an empty table, where the address of registration `i` is not NULL
-- and no later registration is of the same address, and no more than 256 registrations were made
-- from `i` on, the entry under the low 8 bits of `i` leads to the drive at this address, with its
-- contents from before and these 8 bits as its number, and a drive that was not registered has its
-- contents from before. So up to 256 drives are all in the table, and each later one takes the
-- place of an earlier one.
pub lbd_register_drive-registered :
    (drives : ℕ → LogicalDrive) (pointer : ℕ → ℕ) (n i : ℕ)
    → i < n
    → n ≤ i + 256
    → pointer i ≢ 0
    → ((j : ℕ) → i < j → j < n → pointer i ≢ pointer j)
    → (drive_at (registered drives pointer n) (i % 2 ^ 8)
        ≡ some (record (drives (pointer i)) { drive_no = i % 2 ^ 8 }))
      × ((a : ℕ)
          → ((j : ℕ) → j < n → a ≢ pointer j)
          → (registered drives pointer n).drives a ≡ drives a)
unfolding drive_at
lbd_register_drive-registered drives pointer n i lt le some_drive last = (
  rw
      (
        lbd_drives-registered drives pointer n i lt le,
        ne→==_false (pointer i) 0 some_drive,
        drives-registered drives pointer n i lt last,
      )
      refl,
  drives-registered_none drives pointer n,
)
