-- ===== src/Expr.antt =====
-- scripts/kconfig/expr.h, expr.c: dependency expressions, their allocation and their copies.
-- A node that C rewrites in place is a new value here; where two pointers reach one node
-- (`expr_eliminate_dups`) the model works on one tree and positions in it.
pub mod Value
pub mod Dups
pub mod YesNo
pub mod Equal
pub mod Outcome
pub mod Transform
pub mod Join
pub mod Print
pub mod Rewrite
use kdevops.Prelude.{ℕ, Bool, true, false, Option, none, some, List, ◌==◌}

-- A `struct symbol *` as a number; the three constant symbols have the first ones.
abbrev pub SymId : Type 0
SymId = ℕ

abbrev pub symbol_no : SymId
symbol_no = 0

abbrev pub symbol_mod : SymId
symbol_mod = 1

abbrev pub symbol_yes : SymId
symbol_yes = 2

-- The six types of `enum expr_type` that compare two symbols.
pub data Relation : Type 0 where
  equal unequal lth leq gth geq : Relation

-- `struct expr` as it stands for a condition. Operands of `E_NOT`, `E_AND` and `E_OR` are never
-- null; an expression that may be null is an `Option Expr`.
pub data Expr : Type 0 where
  symbol : SymId → Expr
  not_expr : Expr → Expr
  and_expr or_expr : Expr → Expr → Expr
  comp : Relation → SymId → SymId → Expr

-- `struct expr` as it stands for the expression of a property: a condition or a symbol, the
-- `E_LIST` of a choice's values, first one first, or an `E_RANGE`. The parser makes lists and
-- ranges nowhere else, and the functions on conditions are called on none of them.
pub data PropExpr : Type 0 where
  condition : Expr → PropExpr
  values : List SymId → PropExpr
  range : SymId → SymId → PropExpr

-- A null operand is the neutral one.
unfoldable pub expr_alloc_and : Option Expr → Option Expr → Option Expr
expr_alloc_and none e2 = e2
expr_alloc_and (some e1) none = some e1
expr_alloc_and (some e1) (some e2) = some (and_expr e1 e2)

unfoldable pub expr_alloc_or : Option Expr → Option Expr → Option Expr
expr_alloc_or none e2 = e2
expr_alloc_or (some e1) none = some e1
expr_alloc_or (some e1) (some e2) = some (or_expr e1 e2)

-- Null stands for `y`.
unfoldable pub expr_is_yes : Option Expr → Bool
expr_is_yes none = true
expr_is_yes (some (symbol s)) = s == symbol_yes
expr_is_yes (some _) = false

unfoldable pub expr_is_no : Option Expr → Bool
expr_is_no (some (symbol s)) = s == symbol_no
expr_is_no _ = false
