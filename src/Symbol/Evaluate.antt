-- ===== src/Symbol/Evaluate.antt =====
-- scripts/kconfig/expr.c, symbol.c: `expr_calc_value` and `sym_get_string_value`, which calculate the
-- symbols that they read. `calc` is `sym_calc_value`.
pub mod Settled
use Prim.Native.Nat.{Ordering}
use kdevops.Prelude.{
  ℕ, suc, ◌+◌, Bool, true, false, not, ◌&&◌, ◌||◌, Option, none, some, List, [], ◌∷◌, ◌==◌,
  if◌then◌else◌, Bytes,
}
use kdevops.Tristate.{Tristate, tri_no, tri_mod, tri_yes, rank, tri_eq, expr_and, expr_or, expr_not}
use kdevops.Expr.{
  SymId, Expr, symbol, not_expr, and_expr, or_expr, comp, PropExpr, condition, values, range,
}
use kdevops.Expr.Value.{holds, of_bool}
use kdevops.Symbol.{SymbolType, s_boolean, s_tristate, Symbol, PropType, Property, Store}
use kdevops.Symbol.Compare.{symbol_text, compare_values}
use kdevops.Symbol.Properties.{is_default, is_range, is_boolean_type, is_tristate_type}
use kdevops.Symbol.State.{M, ◌>>=◌, ◌>>◌, pure, when, get_symbol, get_modules_sym, set_prop_visible}

module _ (calc : SymId → M (Unit {0})) where
  -- The enabling symbol is calculated where the value is `m`.
  unfoldable pub read_string : SymId → M Bytes
  unfolding symbol_text rank
  read_string s = do
    y ← get_symbol s
    modules ← get_modules_sym
    when ((is_boolean_type y.type || is_tristate_type y.type) && tri_eq y.curr.tri tri_mod)
        (calc modules)
    m ← get_symbol modules
    pure (symbol_text m.curr.tri y)

  unfoldable pub expr_calc_value : Expr → M Tristate
  unfolding read_string holds compare_values
  expr_calc_value (symbol s) = do calc s; y ← get_symbol s; pure y.curr.tri
  expr_calc_value (and_expr l r) = do
    val1 ← expr_calc_value l
    val2 ← expr_calc_value r
    pure (expr_and val1 val2)
  expr_calc_value (or_expr l r) = do
    val1 ← expr_calc_value l
    val2 ← expr_calc_value r
    pure (expr_or val1 val2)
  expr_calc_value (not_expr e) = do val1 ← expr_calc_value e; pure (expr_not val1)
  expr_calc_value (comp rel a b) = do
    calc a
    calc b
    str1 ← read_string a
    str2 ← read_string b
    y ← get_symbol a
    z ← get_symbol b
    pure (of_bool (holds rel (compare_values str1 str2 y.type z.type)))

  -- Null is `y`.
  unfoldable pub expr_calc_value? : Option Expr → M Tristate
  unfolding expr_calc_value
  expr_calc_value? none = pure tri_yes
  expr_calc_value? (some e) = expr_calc_value e

  -- The expression of a default; a list or a range has no value.
  unfoldable pub prop_calc_value : Option PropExpr → M Tristate
  unfolding expr_calc_value
  prop_calc_value none = pure tri_yes
  prop_calc_value (some (condition e)) = expr_calc_value e
  prop_calc_value (some (values ss)) = pure tri_no
  prop_calc_value (some (range lo hi)) = pure tri_no

  -- The first property of a kind whose condition is met, with the value of its condition.
  unfoldable pub first_visible :
      (PropType → Bool) → SymId → ℕ → List Property → M (Option (Property × Tristate))
  unfolding expr_calc_value? set_prop_visible
  first_visible kind s i [] = pure none
  first_visible kind s i (p ∷ ps) =
      let rest = first_visible kind s (suc i) ps in
      if kind p.type
      then (do
        tri ← expr_calc_value? p.visible.expr
        set_prop_visible s i tri
        if not (tri_eq tri tri_no) then pure (some (p, tri)) else rest)
      else rest

  unfoldable pub sym_get_default_prop : SymId → M (Option (Property × Tristate))
  unfolding first_visible
  sym_get_default_prop s = do y ← get_symbol s; first_visible is_default s 0 y.prop

  unfoldable pub sym_get_range_prop : SymId → M (Option (Property × Tristate))
  unfolding first_visible
  sym_get_range_prop s = do y ← get_symbol s; first_visible is_range s 0 y.prop
