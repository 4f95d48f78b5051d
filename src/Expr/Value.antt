-- ===== src/Expr/Value.antt =====
-- scripts/kconfig/expr.c: the value of an expression in a store whose symbols are all calculated,
-- as a function of the tree. `expr_calc_value` itself is in Symbol/Evaluate.
use Prim.Native.Nat.{Ordering}
use kdevops.Prelude.{Bool, not, Option, none, some, if◌then◌else◌}
use kdevops.Tristate.{Tristate, tri_no, tri_yes, expr_and, expr_or, expr_not}
use kdevops.Expr.{
  Relation, equal, unequal, lth, leq, gth, geq, Expr, symbol, not_expr, and_expr, or_expr, comp,
}
use kdevops.Symbol.{Store, sym_get_tristate_value}
use kdevops.Symbol.Compare.{compare_symbols, is_lt, is_gt, is_eq}

-- Whether a relation holds of the sign of `res`.
unfoldable pub holds : Relation → Ordering → Bool
holds equal o = is_eq o
holds unequal o = not (is_eq o)
holds lth o = is_lt o
holds leq o = not (is_gt o)
holds gth o = is_gt o
holds geq o = not (is_lt o)

abbrev pub of_bool : Bool → Tristate
of_bool b = if b then tri_yes else tri_no

unfoldable pub value : Store → Expr → Tristate
value st (symbol s) = sym_get_tristate_value st s
value st (not_expr e) = expr_not (value st e)
value st (and_expr l r) = expr_and (value st l) (value st r)
value st (or_expr l r) = expr_or (value st l) (value st r)
value st (comp r a b) = of_bool (holds r (compare_symbols st a b))

-- A null expression is `y`.
unfoldable pub value? : Store → Option Expr → Tristate
unfolding value
value? st none = tri_yes
value? st (some e) = value st e
