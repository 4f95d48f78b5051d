-- ===== src/Expr/Rewrite.antt =====
-- scripts/kconfig/expr.c: the rewritings that menu.c applies to dependencies (`expr_trans_bool`,
-- `expr_trans_compare`), and the tests for a symbol (`expr_contains_symbol`, `expr_depends_symbol`).
pub mod Laws
pub mod Compare
pub mod TransBool
use kdevops.Prelude.{ℕ, Bool, true, false, ◌&&◌, ◌||◌, Option, none, some, ◌==◌, if◌then◌else◌}
use kdevops.Expr.{
  SymId, symbol_no, symbol_mod, symbol_yes, Relation, equal, unequal, Expr, symbol, not_expr,
  and_expr, or_expr, comp,
}
use kdevops.Expr.Outcome.{◌>>=◌}
use kdevops.Symbol.{SymbolType, s_tristate, Store, symbol_type}

abbrev pub is_tristate : SymbolType → Bool
is_tristate s_tristate = true
is_tristate _ = false

-- On a pointer that is not null; null stays null.
unfoldable pub expr_trans_bool : Store → Expr → Expr
expr_trans_bool st (and_expr l r) = and_expr (expr_trans_bool st l) (expr_trans_bool st r)
expr_trans_bool st (or_expr l r) = or_expr (expr_trans_bool st l) (expr_trans_bool st r)
expr_trans_bool st (not_expr e) = not_expr (expr_trans_bool st e)
expr_trans_bool st (comp unequal a b) =
    if is_tristate (symbol_type st a) && b == symbol_no then symbol a else comp unequal a b
expr_trans_bool st e = e

unfoldable pub contains_symbol : Expr → SymId → Bool
contains_symbol (and_expr l r) s = contains_symbol l s || contains_symbol r s
contains_symbol (or_expr l r) s = contains_symbol l s || contains_symbol r s
contains_symbol (symbol t) s = t == s
contains_symbol (comp r a b) s = a == s || b == s
contains_symbol (not_expr e) s = contains_symbol e s

unfoldable pub expr_contains_symbol : Option Expr → SymId → Bool
unfolding contains_symbol
expr_contains_symbol none s = false
expr_contains_symbol (some e) s = contains_symbol e s

unfoldable pub depends_symbol : Expr → SymId → Bool
depends_symbol (and_expr l r) s = depends_symbol l s || depends_symbol r s
depends_symbol (symbol t) s = t == s
depends_symbol (comp equal a b) s = a == s && (b == symbol_yes || b == symbol_mod)
depends_symbol (comp unequal a b) s = a == s && b == symbol_no
depends_symbol _ s = false

unfoldable pub expr_depends_symbol : Option Expr → SymId → Bool
unfolding depends_symbol
expr_depends_symbol none s = false
expr_depends_symbol (some e) s = depends_symbol e s

-- The two relations that `expr_trans_compare` is called with.
pub data Comparison : Type 0 where
  is_same is_other : Comparison

unfoldable pub relation_of : Comparison → Relation
relation_of is_same = equal
relation_of is_other = unequal

unfoldable pub opposite : Comparison → Comparison
opposite is_same = is_other
opposite is_other = is_same

-- `if (type == E_UNEQUAL) e = expr_alloc_one(E_NOT, e)`
unfoldable pub negate_if : Comparison → Expr → Expr
negate_if is_same e = e
negate_if is_other e = not_expr e

-- A comparison, itself against the constant `s`; null where `s` is no constant.
unfoldable pub compare_comparison : Comparison → SymId → Expr → Option Expr
compare_comparison is_same s e =
    if s == symbol_yes
    then some e
    else if s == symbol_mod
    then some (symbol symbol_no)
    else if s == symbol_no
    then some (not_expr e)
    else none
compare_comparison is_other s e =
    if s == symbol_yes
    then some (not_expr e)
    else if s == symbol_mod
    then some (symbol symbol_yes)
    else if s == symbol_no
    then some e
    else none

-- `expr_trans_compare` on a pointer that is not null; `none` where it returns null.
unfoldable pub trans_compare : Comparison → SymId → Expr → Option Expr
unfolding relation_of opposite negate_if compare_comparison
trans_compare c s (and_expr l r) =
    let both = (do
      l' ← trans_compare is_same s l
      r' ← trans_compare is_same s r
      some (negate_if c (and_expr l' r'))) in
    let either = (do
      l' ← trans_compare is_same s l
      r' ← trans_compare is_same s r
      some (negate_if c (or_expr l' r'))) in
    if s == symbol_yes
    then both
    else if s == symbol_no
    then either
    else some (negate_if c (and_expr l r))
trans_compare c s (or_expr l r) =
    let both = (do
      l' ← trans_compare is_same s l
      r' ← trans_compare is_same s r
      some (negate_if c (and_expr l' r'))) in
    let either = (do
      l' ← trans_compare is_same s l
      r' ← trans_compare is_same s r
      some (negate_if c (or_expr l' r'))) in
    if s == symbol_yes
    then either
    else if s == symbol_no
    then both
    else some (negate_if c (or_expr l r))
trans_compare c s (not_expr e) = trans_compare (opposite c) s e
trans_compare c s (comp r a b) = compare_comparison c s (comp r a b)
trans_compare c s (symbol t) = some (comp (relation_of c) t s)

unfoldable pub expr_trans_compare : Comparison → SymId → Option Expr → Option Expr
unfolding trans_compare negate_if
expr_trans_compare c s none = some (negate_if c (symbol s))
expr_trans_compare c s (some e) = trans_compare c s e
