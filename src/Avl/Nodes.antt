-- ===== src/Avl/Nodes.antt =====
-- Nodes at addresses, and commands that read and write them. `Item` is what the struct that
-- contains an avl_node_t adds to it.
use fesos.Prelude.{ℕ, Bool, ◌==◌, if◌then◌else◌}

-- avl_node_t. `update` says whether the node has an update callback.
pub record AvlNode (Item : Type 0) : Type 0 where
  pub parent : ℕ
  pub left : ℕ
  pub right : ℕ
  pub subtree_max_depth : ℕ
  pub update : Bool
  pub item : Item

abbrev pub null : ℕ
null = 0

module _ (Item : Type 0) where
  abbrev pub Store : Type 0
  Store = ℕ → AvlNode Item

  -- `fault` is an access through NULL.
  pub data Outcome (A : Type 0) : Type 0 where
    done : A → (ℕ → AvlNode Item) → Outcome A
    fault out_of_fuel : Outcome A

abbrev pub Cmd : Type 0 → Type 0 → Type 0
Cmd Item A = Store Item → Outcome Item A

module _ {Item : Type 0} where
  abbrev pub pure : {A : Type 0} → A → Cmd Item A
  pure a s = done a s

  abbrev pub after : {A B : Type 0} → Outcome Item A → (A → Cmd Item B) → Outcome Item B
  after (done a s) k = k a s
  after fault k = fault
  after out_of_fuel k = out_of_fuel

  infixl 5 ◌>>=◌ ◌>>◌
  abbrev pub ◌>>=◌ : {A B : Type 0} → Cmd Item A → (A → Cmd Item B) → Cmd Item B
  ◌>>=◌ c k s = after (c s) k

  abbrev pub ◌>>◌ : {A B : Type 0} → Cmd Item A → Cmd Item B → Cmd Item B
  ◌>>◌ c d s = after (c s) (λ _. d)

  unfoldable pub put : Store Item → ℕ → AvlNode Item → Store Item
  put s p n a = if a == p then n else s a

  unfoldable pub load : ℕ → Cmd Item (AvlNode Item)
  load p s = if p == null then fault else done (s p) s

  -- `*p = f(*p)`, an assignment to one field.
  unfoldable pub modify : ℕ → (AvlNode Item → AvlNode Item) → Cmd Item (Unit {0})
  modify p f s = if p == null then fault else done tt (put s p (f (s p)))

  abbrev pub set_parent : ℕ → ℕ → Cmd Item (Unit {0})
  set_parent p v = modify p (λ n. record n { parent = v })

  abbrev pub set_left : ℕ → ℕ → Cmd Item (Unit {0})
  set_left p v = modify p (λ n. record n { left = v })

  abbrev pub set_right : ℕ → ℕ → Cmd Item (Unit {0})
  set_right p v = modify p (λ n. record n { right = v })

  abbrev pub set_depth : ℕ → ℕ → Cmd Item (Unit {0})
  set_depth p v = modify p (λ n. record n { subtree_max_depth = v })
