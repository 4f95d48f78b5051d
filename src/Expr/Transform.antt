-- ===== src/Expr/Transform.antt =====
-- scripts/kconfig/expr.c: `expr_transform`, which resolves the comparisons of boolean symbols with
-- constants and moves negations to the symbols.
pub mod Sound
pub mod Normal
pub mod Total
pub mod Result
use kdevops.Prelude.{
  ℕ, zero, suc, ◌+◌, ◌*◌, Bool, true, false, Option, none, some, ◌==◌, if◌then◌else◌,
}
use kdevops.Expr.{
  SymId, symbol_no, symbol_mod, symbol_yes, Relation, equal, unequal, lth, leq, gth, geq, Expr,
  symbol, not_expr, and_expr, or_expr, comp,
}
use kdevops.Expr.Outcome.{◌>>=◌}
use kdevops.Symbol.{SymbolType, s_boolean, Store, symbol_type}

abbrev pub is_boolean : SymbolType → Bool
is_boolean s_boolean = true
is_boolean _ = false

-- `case E_EQUAL`, for a boolean left symbol.
unfoldable pub transform_equal : SymId → SymId → Expr
transform_equal a b =
    if b == symbol_no
    then not_expr (symbol a)
    else if b == symbol_mod
    then symbol symbol_no
    else if b == symbol_yes
    then symbol a
    else comp equal a b

-- `case E_UNEQUAL`, for a boolean left symbol.
unfoldable pub transform_unequal : SymId → SymId → Expr
transform_unequal a b =
    if b == symbol_no
    then symbol a
    else if b == symbol_mod
    then symbol symbol_yes
    else if b == symbol_yes
    then not_expr (symbol a)
    else comp unequal a b

unfoldable pub transform_comp : Store → Relation → SymId → SymId → Expr
unfolding transform_equal transform_unequal
transform_comp st equal a b =
    if is_boolean (symbol_type st a) then transform_equal a b else comp equal a b
transform_comp st unequal a b =
    if is_boolean (symbol_type st a) then transform_unequal a b else comp unequal a b
transform_comp st r a b = comp r a b

-- The relation that holds where another does not.
unfoldable pub negate : Relation → Relation
negate equal = unequal
negate unequal = equal
negate leq = gth
negate geq = lth
negate lth = geq
negate gth = leq

unfoldable pub negate_symbol : SymId → Expr
negate_symbol s =
    if s == symbol_yes
    then symbol symbol_no
    else if s == symbol_mod
    then symbol symbol_mod
    else if s == symbol_no
    then symbol symbol_yes
    else not_expr (symbol s)

-- `case E_NOT` behind the transformation of the operand; `again` is `expr_transform`.
unfoldable pub transform_not : (Expr → Option Expr) → Expr → Option Expr
unfolding negate negate_symbol
transform_not again (not_expr e) = again e
transform_not again (comp r a b) = some (comp (negate r) a b)
transform_not again (or_expr l r) = again (and_expr (not_expr l) (not_expr r))
transform_not again (and_expr l r) = again (or_expr (not_expr l) (not_expr r))
transform_not again (symbol s) = some (negate_symbol s)

unfoldable pub transform_fuel : Store → ℕ → Expr → Option Expr
unfolding transform_comp transform_not
transform_fuel st zero e = none
transform_fuel st (suc fuel) (symbol s) = some (symbol s)
transform_fuel st (suc fuel) (comp r a b) = some (transform_comp st r a b)
transform_fuel st (suc fuel) (not_expr e) = do
  e' ← transform_fuel st fuel e
  transform_not (transform_fuel st fuel) e'
transform_fuel st (suc fuel) (and_expr l r) = do
  l' ← transform_fuel st fuel l
  r' ← transform_fuel st fuel r
  some (and_expr l' r')
transform_fuel st (suc fuel) (or_expr l r) = do
  l' ← transform_fuel st fuel l
  r' ← transform_fuel st fuel r
  some (or_expr l' r')

-- A bound on the depth of the recursion; a negation outweighs what De Morgan's laws make of it.
unfoldable pub weight : Expr → ℕ
weight (symbol s) = 1
weight (comp r a b) = 3
weight (not_expr e) = 3 * weight e
weight (and_expr l r) = weight l + weight r + 1
weight (or_expr l r) = weight l + weight r + 1

-- `expr_transform`, with the fuel that `Total` shows to be enough; null stays null.
unfoldable pub expr_transform : Store → Option Expr → Option (Option Expr)
unfolding transform_fuel weight
expr_transform st none = some none
expr_transform st (some e) = do e' ← transform_fuel st (weight e) e; some (some e')
