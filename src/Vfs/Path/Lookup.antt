-- ===== src/Vfs/Path/Lookup.antt =====
-- vfs_lookup of kernel/x86_64/kernel/vfs.c enters the names of the path one after another.
use fesos.Prelude.{
  ℕ, zero, suc, ◌+◌, ◌-◌, ◌%◌, ◌^◌, ◌≤◌, ◌<◌, ◌≢◌, ◌≡◌, refl, sym, ap, ◌∙◌, Bool, true, false, inl,
  inr, dec_lt, ==_refl, ==_false→ne, Bool-cases, some, List, [], ◌∷◌, ◌==◌, ltb, if◌then◌else◌,
  arith,
}
use fesos.Machine.Memory.{Bytes}
use fesos.Strings.{str_len}
use fesos.Strings.Reverse.{str_len_lem}
use fesos.Avl.Nodes.{null}
use fesos.Vfs.State.{Vfs, VfsRun, returned, faulted, stuck, VfsM, pure, followed_by, ◌>>=◌, Outside}
use fesos.Vfs.Path.Keeps.{Same, Keeps, KeepsText, enter-Keeps}
use fesos.Vfs.Path.{name_end, sub32, enter, enter_name, lookup_loop, vfs_lookup}

unfoldable pub length : List ℕ → ℕ
length [] = 0
length (x ∷ xs) = length xs + 1

-- The characters of a path from an index on, up to its terminator.
pub data Text (m : Bytes) (path : ℕ) : ℕ → List ℕ → Type 0 where
  end : {i : ℕ} → m (path + i) ≡ 0 → Text m path i []
  char :
      {i c : ℕ} {cs : List ℕ}
      → m (path + i) ≡ c
      → c ≢ 0
      → Text m path (i + 1) cs
      → Text m path i (c ∷ cs)

-- A name from `left` to before `right`, as its index and length, where it is not empty.
unfoldable pub add_name : ℕ → ℕ → List (ℕ × ℕ) → List (ℕ × ℕ)
add_name left right rest = if left == right then rest else (left, right - left) ∷ rest

-- The names between the slashes of a text at `right`, the first of which starts at `left`.
unfoldable pub components : ℕ → ℕ → List ℕ → List (ℕ × ℕ)
unfolding add_name
components left right [] = add_name left right []
components left right (c ∷ cs) = elim (c == 0x2F) [
  | true ↦ add_name left right (components (right + 1) (right + 1) cs)
  | false ↦ components left (right + 1) cs
]

-- Every name fits in the 128 bytes of a node's name.
unfoldable pub ShortNames : List (ℕ × ℕ) → Type 0
ShortNames [] = Unit
ShortNames ((left, len) ∷ names) = (len ≤ 128) × ShortNames names

-- From a node, through all names; NULL where one is not found.
unfoldable pub resolve : Outside → ℕ → List (ℕ × ℕ) → ℕ → VfsM ℕ
resolve w path [] node = pure node
resolve w path ((left, len) ∷ names) node = do
  new_node ← enter w node (path + left) len
  elim (new_node == null) [ true ↦ pure null | false ↦ resolve w path names new_node ]

-- The characters before the next slash.
name_stop : List ℕ → ℕ
name_stop [] = 0
name_stop (c ∷ cs) = elim (c == 0x2F) [ true ↦ 0 | false ↦ name_stop cs + 1 ]

name_end_lem :
    {m : Bytes} {path : ℕ} (fuel i : ℕ) (cs : List ℕ)
    → Text m path i cs
    → length cs < fuel
    → i + length cs < 2 ^ 32
    → name_end fuel m path i ≡ some (i + name_stop cs)
unfolding name_end length name_stop
name_end_lem zero i cs t lt small = absurd (omega arith)
name_end_lem {m} {path} (suc fuel) i [] (end e) lt small = ground (arith, e)
name_end_lem {m} {path} (suc fuel) i (c ∷ cs) (char e n t) lt small =
    let next : (i + 1) % 2 ^ 32 ≡ i + 1 = omega arith in
    ground (arith, e, n, next, name_end_lem fuel (i + 1) cs t (omega arith) (omega arith))

pub Text-before :
    {m : Bytes} {path : ℕ} (i k : ℕ) (cs : List ℕ)
    → Text m path i cs
    → k < length cs
    → m (path + (i + k)) ≢ 0
unfolding length
Text-before i k [] (end e) lt = absurd (omega arith)
Text-before i zero (c ∷ cs) (char e n t) lt = let at : i + 0 ≡ i = omega arith in rw (at, e) n
Text-before i (suc k) (c ∷ cs) (char e n t) lt =
    let at : i + suc k ≡ i + 1 + k = omega arith in rw at (Text-before (i + 1) k cs t (omega arith))

pub Text-end :
    {m : Bytes} {path : ℕ} (i : ℕ) (cs : List ℕ) → Text m path i cs → m (path + (i + length cs)) ≡ 0
unfolding length
Text-end i [] (end e) = let at : i + 0 ≡ i = omega arith in rw at e
Text-end i (c ∷ cs) (char e n t) =
    let at : i + (length cs + 1) ≡ i + 1 + length cs = omega arith in rw at (Text-end (i + 1) cs t)

-- A step that goes on in the same way from every result.
followed_by_ext :
    {A B : Type 0} (r : VfsRun A) (f g : A → VfsM B)
    → ((a : A) (s : Vfs) → r ≡ returned a s → f a s ≡ g a s)
    → followed_by r f ≡ followed_by r g
followed_by_ext (returned a s) f g h = h a s refl
followed_by_ext faulted f g h = refl
followed_by_ext stuck f g h = refl

Text-Same :
    {m m' : Bytes} {path n : ℕ} (i : ℕ) (cs : List ℕ)
    → Text m path i cs
    → i + length cs ≤ n
    → Same path n m m'
    → Text m' path i cs
unfolding Same length
Text-Same i [] (end e) le same = end (same i (omega arith) ∙ e)
Text-Same i (c ∷ cs) (char e n t) le same =
    char (same i (omega arith) ∙ e) n (Text-Same (i + 1) cs t (omega arith) same)

sub32_le : (a b : ℕ) → b ≤ a → a < 2 ^ 32 → sub32 a b ≡ a - b
unfolding sub32
sub32_le a b le lt = omega arith

enter_name_empty :
    (w : Outside) (path node i : ℕ) (s : Vfs) → enter_name w path node i i s ≡ returned node s
unfolding enter_name sub32
enter_name_empty w path node i s =
    let short : ltb 1 ((i + 2 ^ 32 - i) % 2 ^ 32) ≡ false = ground arith in
    ap
      (λ (b : Bool).
        (if b then enter w node (path + i) ((i + 2 ^ 32 - i) % 2 ^ 32) else pure node) s)
      short

enter_name_full :
    (w : Outside) (path node left right : ℕ) (s : Vfs)
    → left < right
    → right < 2 ^ 32 - 1
    → enter_name w path node left right s ≡ enter w node (path + left) (right - left) s
unfolding enter_name
enter_name_full w path node left right s lt small =
    let long : ltb 1 (sub32 left right) ≡ true = unfold sub32 in (ground arith) in
    ap (λ (b : Bool). (if b then enter w node (path + left) (sub32 right left) else pure node) s)
      long
    ∙ ap (λ (l : ℕ). enter w node (path + left) l s)
        (sub32_le right left (omega arith) (omega arith))

module _ (w : Outside) (path n : ℕ)
    (keeps : (node name len : ℕ) → Keeps path n (enter w node name len)) where
  -- The end of a round, after the name was entered.
  round_end : ℕ → ℕ → ℕ → VfsM ℕ
  round_end fuel right_ptr node s' =
      let next = (right_ptr + 1) % 2 ^ 32 in
      let rest = lookup_loop w fuel path node next next s' in
      if node == null
      then returned null s'
      else if s'.mem (path + right_ptr) == 0
      then returned node s'
      else rest

  lookup_step :
      (fuel node left right right' : ℕ) (s : Vfs)
      → name_end w.fuel s.mem path right ≡ some right'
      → lookup_loop w (suc fuel) path node left right s
        ≡ followed_by (enter_name w path node left right' s) (round_end fuel right')
  unfolding lookup_loop round_end
  lookup_step fuel node left right right' s e = rw (lookup_loop, e) refl

  -- From a node on, the rest of the path.
  Resolves : ℕ → List ℕ → Type 0
  Resolves fuel cs =
      (node left right : ℕ) (s : Vfs)
      → node ≢ null
      → Text s.mem path right cs
      → length cs < fuel
      → length cs < w.fuel
      → left ≤ right
      → right + length cs ≤ n
      → lookup_loop w fuel path node left right s ≡ resolve w path (components left right cs) node s

  -- A round whose name ends at `right`, with the characters `cs` after the slash or none.
  round_lem :
      (node left right : ℕ) (s : Vfs) (names : List (ℕ × ℕ)) (k : ℕ → VfsM ℕ)
      → node ≢ null
      → left ≤ right
      → right < 2 ^ 32 - 1
      → ((node' : ℕ) (s' : Vfs)
          → node' ≢ null
          → Same path n s.mem s'.mem
          → k node' s' ≡ resolve w path names node' s')
      → ((s' : Vfs) → k null s' ≡ returned null s')
      → followed_by (enter_name w path node left right s) k
        ≡ resolve w path (add_name left right names) node s
  unfolding add_name resolve Same
  round_lem node left right s names k nn le small next at_null = elim (dec_lt left right) [
    | no ge ↦
        let same : right ≡ left = omega arith in
        let empty : (left == left) ≡ true = ==_refl left in
        rw (same, enter_name_empty w path node left s, empty) (next node s nn (λ i _. refl))
    | yes lt ↦
        let full : (left == right) ≡ false = ground arith in
        rw (enter_name_full w path node left right s lt small, full)
          (followed_by_ext (enter w node (path + left) (right - left) s) k
            (λ node'. elim (node' == null) [
              | true ↦ pure null
              | false ↦ resolve w path names node'
            ])
            (λ node' s' e. elim (Bool-cases (node' == null)) [
              | inl y ↦ let at : node' ≡ null = ground arith in rw at (at_null s')
              | inr f ↦ rw f (
                  next node' s' (==_false→ne node' null f)
                    ((keeps node (path + left) (right - left)).text s node' s' e))
            ]))
  ]

  resolve_end :
      (fuel node left right : ℕ) (s : Vfs)
      → node ≢ null
      → s.mem (path + right) ≡ 0
      → 0 < w.fuel
      → left ≤ right
      → right ≤ n
      → n < 2 ^ 32 - 1
      → lookup_loop w (suc fuel) path node left right s
        ≡ resolve w path (add_name left right []) node s
  unfolding length name_stop
  resolve_end fuel node left right s nn e f le rn small =
      lookup_step fuel node left right right s (
        name_end_lem w.fuel right [] (end e) f (omega arith) ∙ ap (λ (i : ℕ). some i) (omega arith))
      ∙ round_lem node left right s [] (round_end fuel right) nn le (omega arith)
          (λ node' s' nn' same.
            unfold round_end resolve Same in
            let byte : s'.mem (path + right) ≡ 0 = same right rn ∙ e in ground (arith, byte))
          (λ s'. unfold round_end in refl)

  resolve_slash :
      (fuel node left right : ℕ) (cs : List ℕ) (s : Vfs)
      → node ≢ null
      → s.mem (path + right) ≡ 0x2F
      → Text s.mem path (right + 1) cs
      → length cs + 1 < w.fuel
      → length cs < fuel
      → left ≤ right
      → right + 1 + length cs ≤ n
      → n < 2 ^ 32 - 1
      → Resolves fuel cs
      → lookup_loop w (suc fuel) path node left right s
        ≡ resolve w path (add_name left right (components (right + 1) (right + 1) cs)) node s
  unfolding length name_stop Resolves
  resolve_slash fuel node left right cs s nn e t f enough le rn small ih =
      let slash : Text s.mem path right (0x2F ∷ cs) = char e (ground arith) t in
      let stop : name_end w.fuel s.mem path right ≡ some right =
        name_end_lem w.fuel right (0x2F ∷ cs) slash f (omega arith)
        ∙ ap (λ (i : ℕ). some i) (omega arith) in
      lookup_step fuel node left right right s stop
      ∙ round_lem node left right s (components (right + 1) (right + 1) cs) (round_end fuel right)
          nn le (omega arith)
          (λ node' s' nn' same.
            unfold round_end in
            let byte : s'.mem (path + right) ≡ 0x2F =
              unfold Same in (same right (omega arith) ∙ e) in
            let next : (right + 1) % 2 ^ 32 ≡ right + 1 = omega arith in
            let rest =
              ih node' (right + 1) (right + 1) s' nn' (Text-Same (right + 1) cs t rn same) enough
                (omega arith) (omega arith) rn in
            ground (arith, byte, next, rest))
          (λ s'. unfold round_end in refl)

  resolve_char :
      (fuel node left right c : ℕ) (cs : List ℕ) (s : Vfs)
      → c ≢ 0x2F
      → Text s.mem path right (c ∷ cs)
      → length cs + 1 < w.fuel
      → right + length cs + 1 < 2 ^ 32
      → lookup_loop w (suc fuel) path node left right s
        ≡ lookup_loop w (suc fuel) path node left (right + 1) s
  unfolding length name_stop
  resolve_char fuel node left right c cs s ne (char e n0 t) f small =
      let other : (c == 0x2F) ≡ false = ground arith in
      let far : name_end w.fuel s.mem path right ≡ some (right + 1 + name_stop cs) =
        name_end_lem w.fuel right (c ∷ cs) (char e n0 t) f (omega arith)
        ∙ ap (λ (i : ℕ). some i) (rw (name_stop, other) (omega arith)) in
      let near : name_end w.fuel s.mem path (right + 1) ≡ some (right + 1 + name_stop cs) =
        name_end_lem w.fuel (right + 1) cs t (omega arith) (omega arith) in
      lookup_step fuel node left right (right + 1 + name_stop cs) s far
      ∙ sym (lookup_step fuel node left (right + 1) (right + 1 + name_stop cs) s near)

  resolve_lem : (fuel : ℕ) (cs : List ℕ) → n < 2 ^ 32 - 1 → Resolves fuel cs
  unfolding Resolves components length
  resolve_lem zero cs small node left right s nn t enough f le rn = absurd (omega arith)
  resolve_lem (suc fuel) [] small node left right s nn (end e) enough f le rn =
      resolve_end fuel node left right s nn e f le (omega arith) small
  resolve_lem (suc fuel) (c ∷ cs) small node left right s nn (char e n0 t) enough f le rn =
      elim (Bool-cases (c == 0x2F)) [
        | inl y ↦
            let slash : c ≡ 0x2F = ground arith in
            rw (components, y)
              (resolve_slash fuel node left right cs s nn (e ∙ slash) t f (omega arith) le
                (omega arith) small (resolve_lem fuel cs small))
        | inr f' ↦
            rw (components, f')
              (resolve_char fuel node left right c cs s (==_false→ne c 0x2F f') (char e n0 t) f
                  (omega arith)
                ∙ resolve_lem (suc fuel) cs small node left (right + 1) s nn t (omega arith)
                    (omega arith) (omega arith) (omega arith))
      ]

-- For a path that starts with a slash and has fewer than 2 ^ 32 - 1 characters, a root that is not
-- NULL, names of at most 128 characters between the slashes, fuel above the number of characters by
-- two, and kmalloc, kfree and drivers that leave the characters of the path alone: vfs_lookup enters the names between the slashes of the path one after another from the
-- root, whatever empty names are between them, and returns NULL at the first that is not found.
pub vfs_lookup_resolves :
    (w : Outside) (path : ℕ) (cs : List ℕ) (s : Vfs)
    → path ≢ null
    → Text s.mem path 0 (0x2F ∷ cs)
    → length cs + 2 < w.fuel
    → length cs + 1 < 2 ^ 32 - 1
    → s.vfs_root_node ≢ null
    → ShortNames (components 1 1 cs)
    → KeepsText w path (length cs + 1)
    → vfs_lookup w path s ≡ resolve w path (components 1 1 cs) s.vfs_root_node s
unfolding vfs_lookup Resolves
vfs_lookup_resolves w path cs s pn (char e n0 t) f small rn short keeps =
    let at : (i : ℕ) → 0 + i ≡ i = λ i. omega arith in
    let all = char e n0 t in
    let len : str_len w.fuel s.mem path ≡ some (length cs + 1) =
      str_len_lem (length cs + 1) w.fuel s.mem path (omega arith) (omega arith)
        (λ i lt. unfold length in (rw at at (Text-before 0 i (0x2F ∷ cs) all lt)))
        (unfold length in (rw at at (Text-end 0 (0x2F ∷ cs) all))) in
    let start : path + 0 ≡ path = omega arith in
    let slash : s.mem path ≡ 0x2F = rw start at e in
    let run =
      resolve_lem w path (length cs + 1) (enter-Keeps w path (length cs + 1) keeps) w.fuel cs small
        s.vfs_root_node 1 1 s rn t (omega arith) (omega arith) (omega arith) (omega arith) in
    ground (arith, len, slash, run)
