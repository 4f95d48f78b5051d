-- ===== src/Menu/Walk.antt =====
-- scripts/kconfig/confdata.c: the walk of `conf_write` and `conf_write_defconfig` through the menus, by
-- the pointers `list`, `next` and `parent`, with what is done at each node as an argument.
pub mod Order
pub mod Built
use kdevops.Prelude.{ℕ, zero, suc, ◌+◌, ◌≤◌, ◌≡◌, refl, ap, ◌∙◌, Option, none, some, arith}
use kdevops.Expr.{SymId}
use kdevops.Menu.{Menu}
use kdevops.Menu.Tree.{Forest, nil, config, block, size, first, Entry, Linked}

infixl 5 ◌>>=◌
abbrev pub ◌>>=◌ : {A B : Type 0} → Option A → (A → Option B) → Option B
none >>= f = none
some a >>= f = f a

module _ {S : Type 0} (node : ℕ → Menu) (enter leave : ℕ → S → Option S) where
  -- `while ((menu = menu->parent))`, up to the first node with another one behind it. The fuel is
  -- the number of nodes, which no path upwards is longer than.
  unfoldable pub climb : ℕ → ℕ → S → Option (Option ℕ × S)
  climb zero m s = none
  climb (suc steps) m s = elim (node m).parent [
    | none ↦ some (none, s)
    | some p ↦ leave p s >>= λ s'. elim (node p).next [
      | some q ↦ some (some q, s')
      | none ↦ climb steps p s'
    ]
  ]

  -- What follows a node.
  unfoldable pub next_menu : ℕ → ℕ → S → Option (Option ℕ × S)
  unfolding climb
  next_menu steps m s = elim (node m).list [
    | some q ↦ some (some q, s)
    | none ↦ elim (node m).next [ some q ↦ some (some q, s) | none ↦ climb steps m s ]
  ]

  -- The loop over the menus, with fuel for its rounds.
  unfoldable pub walk : ℕ → ℕ → Option ℕ → S → Option S
  unfolding next_menu
  walk steps fuel none s = some s
  walk steps zero (some m) s = none
  walk steps (suc fuel) (some m) s =
      enter m s >>= λ s'. next_menu steps m s' >>= λ r. walk steps fuel r.0 r.1

  -- The same by recursion on the tree.
  unfoldable pub after_inner : Forest → ℕ → S → Option S
  after_inner nil n s = some s
  after_inner (config _ _) n s = leave n s
  after_inner (block _ _ _) n s = leave n s

  unfoldable pub visit : Forest → ℕ → S → Option S
  unfolding after_inner
  visit nil n s = some s
  visit (config _ rest) n s = enter n s >>= visit rest (suc n)
  visit (block _ inner rest) n s = enter n s >>= λ s1.
      visit inner (suc n) s1 >>= λ s2. after_inner inner n s2 >>= visit rest (suc n + size inner)
