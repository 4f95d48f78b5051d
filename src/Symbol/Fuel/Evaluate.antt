-- ===== src/Symbol/Fuel/Evaluate.antt =====
-- scripts/kconfig/expr.c, symbol.c: expressions and properties, evaluated with two calculations of
-- symbols that agree.
use kdevops.Prelude.{ℕ, suc, Bool, not, ◌&&◌, Option, none, some, List, [], ◌∷◌}
use kdevops.Tristate.{tri_no, tri_mod, tri_yes, tri_eq}
use kdevops.Expr.{
  SymId, Expr, symbol, not_expr, and_expr, or_expr, comp, PropExpr, condition, values, range,
}
use kdevops.Expr.Value.{holds, of_bool}
use kdevops.Symbol.{PropType, Property}
use kdevops.Symbol.Evaluate.{
  read_string, expr_calc_value, expr_calc_value?, prop_calc_value, first_visible,
  sym_get_default_prop, sym_get_range_prop,
}
use kdevops.Symbol.Compare.{symbol_text, compare_values}
use kdevops.Symbol.NewValue.{is_logical}
use kdevops.Symbol.Properties.{is_default, is_range}
use kdevops.Symbol.State.{M}
use kdevops.Symbol.Fuel.Agree.{
  Agree, bind-Agree, if-Agree, pure-Agree, when-Agree, gets-Agree, get_symbol-Agree,
  set_prop_visible-Agree,
}

module _ (n lim : ℕ) (calc calc' : SymId → M (Unit {0}))
    (h : (s : SymId) → Agree n lim (calc s) (calc' s)) where
  read_string-Agree : (s : SymId) → Agree n lim (read_string calc s) (read_string calc' s)
  unfolding read_string
  read_string-Agree s = bind-Agree (get_symbol-Agree s) (λ y.
      bind-Agree (gets-Agree (λ st. st.modules_sym)) (λ modules.
        bind-Agree (when-Agree (is_logical y.type && tri_eq y.curr.tri tri_mod) (h modules)) (λ u.
          bind-Agree (get_symbol-Agree modules) (λ m. pure-Agree (symbol_text m.curr.tri y)))))

  pub expr_calc_value-Agree :
      (e : Expr) → Agree n lim (expr_calc_value calc e) (expr_calc_value calc' e)
  unfolding expr_calc_value
  expr_calc_value-Agree (symbol s) =
      bind-Agree (h s) (λ u. bind-Agree (get_symbol-Agree s) (λ y. pure-Agree y.curr.tri))
  expr_calc_value-Agree (not_expr e) = bind-Agree (expr_calc_value-Agree e) (λ v. pure-Agree _)
  expr_calc_value-Agree (and_expr l r) =
      bind-Agree (expr_calc_value-Agree l)
        (λ v. bind-Agree (expr_calc_value-Agree r) (λ w. pure-Agree _))
  expr_calc_value-Agree (or_expr l r) =
      bind-Agree (expr_calc_value-Agree l)
        (λ v. bind-Agree (expr_calc_value-Agree r) (λ w. pure-Agree _))
  expr_calc_value-Agree (comp rel a b) = bind-Agree (h a) (λ u. bind-Agree (h b) (λ u.
      bind-Agree (read_string-Agree a) (λ str1. bind-Agree (read_string-Agree b) (λ str2.
        bind-Agree (get_symbol-Agree a) (λ y.
          bind-Agree (get_symbol-Agree b)
            (λ z. pure-Agree (of_bool (holds rel (compare_values str1 str2 y.type z.type)))))))))

  pub expr_calc_value?-Agree :
      (e : Option Expr) → Agree n lim (expr_calc_value? calc e) (expr_calc_value? calc' e)
  unfolding expr_calc_value?
  expr_calc_value?-Agree none = pure-Agree tri_yes
  expr_calc_value?-Agree (some e) = expr_calc_value-Agree e

  pub prop_calc_value-Agree :
      (e : Option PropExpr) → Agree n lim (prop_calc_value calc e) (prop_calc_value calc' e)
  unfolding prop_calc_value
  prop_calc_value-Agree none = pure-Agree tri_yes
  prop_calc_value-Agree (some (condition e)) = expr_calc_value-Agree e
  prop_calc_value-Agree (some (values ss)) = pure-Agree tri_no
  prop_calc_value-Agree (some (range lo hi)) = pure-Agree tri_no

  first_visible-Agree :
      (kind : PropType → Bool) (s : SymId) (i : ℕ) (ps : List Property)
      → Agree n lim (first_visible calc kind s i ps) (first_visible calc' kind s i ps)
  unfolding first_visible
  first_visible-Agree kind s i [] = pure-Agree none
  first_visible-Agree kind s i (p ∷ ps) =
      let rest = first_visible-Agree kind s (suc i) ps in
      if-Agree (kind p.type)
        (bind-Agree (expr_calc_value?-Agree p.visible.expr) (λ tri.
          bind-Agree (set_prop_visible-Agree s i tri)
            (λ u. if-Agree (not (tri_eq tri tri_no)) (pure-Agree (some (p, tri))) rest)))
        rest

  pub sym_get_default_prop-Agree :
      (s : SymId) → Agree n lim (sym_get_default_prop calc s) (sym_get_default_prop calc' s)
  unfolding sym_get_default_prop
  sym_get_default_prop-Agree s =
      bind-Agree (get_symbol-Agree s) (λ y. first_visible-Agree is_default s 0 y.prop)

  pub sym_get_range_prop-Agree :
      (s : SymId) → Agree n lim (sym_get_range_prop calc s) (sym_get_range_prop calc' s)
  unfolding sym_get_range_prop
  sym_get_range_prop-Agree s =
      bind-Agree (get_symbol-Agree s) (λ y. first_visible-Agree is_range s 0 y.prop)
