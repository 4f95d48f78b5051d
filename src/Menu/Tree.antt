-- ===== src/Menu/Tree.antt =====
-- The menu tree as a tree, and what it means that linked nodes stand for it.
use kdevops.Prelude.{ℕ, suc, ◌+◌, ◌≤◌, ◌<◌, ◌≡◌, ap, ◌∙◌, Option, none, some, arith}
use kdevops.Expr.{SymId}
use kdevops.Menu.{Menu}

-- The entries of one level: each has a symbol or none, and a `block` has a level of its own.
pub data Forest : Type 0 where
  nil : Forest
  config : Option SymId → Forest → Forest
  block : Option SymId → Forest → Forest → Forest

abbrev pub size : Forest → ℕ
size nil = 0
size (config s rest) = suc (size rest)
size (block s inner rest) = suc (size inner + size rest)

-- A pointer to the first node of a level, whose nodes are numbered from `n` on.
abbrev pub first : Forest → ℕ → Option ℕ
first nil n = none
first (config s rest) n = some n
first (block s inner rest) n = some n

pub record Entry (node : ℕ → Menu) (par n : ℕ) (s : Option SymId) (list next : Option ℕ)
    : Type 0 where
  pub parent_lem : (node n).parent ≡ some par
  pub sym_lem : (node n).sym ≡ s
  pub list_lem : (node n).list ≡ list
  pub next_lem : (node n).next ≡ next

-- The nodes from `n` on, in the order of a Kconfig file, are linked as a level below `par`.
abbrev pub Linked : (ℕ → Menu) → ℕ → Forest → ℕ → Type 0
Linked node par nil n = Unit {0}
Linked node par (config s rest) n =
    Entry node par n s none (first rest (suc n)) × Linked node par rest (suc n)
Linked node par (block s inner rest) n =
    Entry node par n s (first inner (suc n)) (first rest (suc n + size inner))
    × Linked node n inner (suc n)
    × Linked node par rest (suc n + size inner)

pub Entry-same :
    (node node' : ℕ → Menu) (par n : ℕ) (s : Option SymId) (list next : Option ℕ)
    → node' n ≡ node n
    → Entry node par n s list next
    → Entry node' par n s list next
Entry-same node node' par n s list next h e = record {
  parent_lem = ap (λ x. x.parent) h ∙ e.parent_lem;
  sym_lem = ap (λ x. x.sym) h ∙ e.sym_lem;
  list_lem = ap (λ x. x.list) h ∙ e.list_lem;
  next_lem = ap (λ x. x.next) h ∙ e.next_lem;
}

-- The links depend only on the nodes of the level.
pub Linked-same :
    (node node' : ℕ → Menu) (par : ℕ) (f : Forest) (n : ℕ)
    → ((k : ℕ) → n ≤ k → k < n + size f → node' k ≡ node k)
    → Linked node par f n
    → Linked node' par f n
Linked-same node node' par nil n h l = tt
Linked-same node node' par (config s rest) n h (e, l) = (
  Entry-same node node' par n s none (first rest (suc n)) (h n (omega arith) (omega arith)) e,
  Linked-same node node' par rest (suc n) (λ k a b. h k (omega (arith, a)) (omega (arith, b))) l,
)
Linked-same node node' par (block s inner rest) n h (e, l, m) = (
  Entry-same node node' par n s (first inner (suc n)) (first rest (suc n + size inner))
      (h n (omega arith) (omega arith)) e,
  Linked-same node node' n inner (suc n) (λ k a b. h k (omega (arith, a)) (omega (arith, b))) l,
  Linked-same node node' par rest (suc n + size inner)
      (λ k a b. h k (omega (arith, a)) (omega (arith, b))) m,
)
