-- ===== src/Symbol/CheckDeps/Keeps.antt =====
-- scripts/kconfig/symbol.c: `sym_check_deps` changes no more of a symbol than its two flags of the
-- check, and never clears SYMBOL_CHECKED.
use kdevops.Prelude.{
  ℕ, zero, suc, ◌≡◌, Bool, true, not, ◌&&◌, ◌||◌, Option, none, some, List, [], ◌∷◌,
}
use kdevops.Expr.{
  SymId, Expr, symbol, not_expr, and_expr, or_expr, comp, PropExpr, condition, values, range,
}
use kdevops.Symbol.{Property, Store}
use kdevops.Symbol.Properties.{is_default, sym_get_choice_prop, choice_values, choice_of}
use kdevops.Symbol.State.{M}
use kdevops.Symbol.CheckDeps.{
  mark, unmark, is_skipped, sym_check_expr_deps, check_expr?, check_default, check_props,
  sym_check_sym_deps, check_values, sym_check_choice_deps, check_body, sym_check_deps,
}
use kdevops.Symbol.CheckDeps.Kept.{
  unchecked, Within, Keeps, bind-Keeps, if-Keeps, pure-Keeps, deref-Keeps, get_symbol-Keeps,
  or_next-Keeps, mark-Keeps, unmark-Keeps, for_each-Keeps, blame-Keeps,
}
use mathlib.Core.Path.{subst}

module _ (check : SymId → M (Option SymId)) (h : (s : SymId) → Keeps (check s)) where
  expr_deps-Keeps : (e : Expr) → Keeps (sym_check_expr_deps check e)
  unfolding sym_check_expr_deps
  expr_deps-Keeps (symbol s) = h s
  expr_deps-Keeps (not_expr e) = expr_deps-Keeps e
  expr_deps-Keeps (and_expr l r) = or_next-Keeps (expr_deps-Keeps l) (expr_deps-Keeps r)
  expr_deps-Keeps (or_expr l r) = or_next-Keeps (expr_deps-Keeps l) (expr_deps-Keeps r)
  expr_deps-Keeps (comp rel a b) = or_next-Keeps (h a) (h b)

  check_expr?-Keeps : (e : Option Expr) → Keeps (check_expr? check e)
  unfolding check_expr?
  check_expr?-Keeps none = pure-Keeps none
  check_expr?-Keeps (some e) = expr_deps-Keeps e

  check_default-Keeps : (e : Option PropExpr) → Keeps (check_default check e)
  unfolding check_default
  check_default-Keeps none = pure-Keeps none
  check_default-Keeps (some (condition e)) = expr_deps-Keeps e
  check_default-Keeps (some (values ss)) = pure-Keeps none
  check_default-Keeps (some (range lo hi)) = pure-Keeps none

  check_props-Keeps : (c : Bool) (ps : List Property) → Keeps (check_props check c ps)
  unfolding check_props
  check_props-Keeps c [] = pure-Keeps none
  check_props-Keeps c (p ∷ ps) =
      let rest = check_props-Keeps c ps in
      if-Keeps (is_skipped p.type) rest (
        or_next-Keeps (check_expr?-Keeps p.visible.expr) (
          if-Keeps (is_default p.type && not c) (or_next-Keeps (check_default-Keeps p.expr) rest)
            rest))

  sym_deps-Keeps : (s : SymId) → Keeps (sym_check_sym_deps check s)
  unfolding sym_check_sym_deps
  sym_deps-Keeps s = bind-Keeps (get_symbol-Keeps s) (λ y.
      or_next-Keeps (check_expr?-Keeps y.dir_dep.expr) (
        or_next-Keeps (check_expr?-Keeps y.rev_dep.expr) (
          or_next-Keeps (check_expr?-Keeps y.implied.expr)
            (check_props-Keeps y.flags.choice y.prop))))

  check_values-Keeps : (ss : List SymId) → Keeps (check_values check ss)
  unfolding check_values
  check_values-Keeps [] = pure-Keeps none
  check_values-Keeps (s ∷ ss) = or_next-Keeps (sym_deps-Keeps s) (check_values-Keeps ss)

  choice_deps-Keeps : (s : SymId) → Keeps (sym_check_choice_deps check s)
  unfolding sym_check_choice_deps
  choice_deps-Keeps s = bind-Keeps (get_symbol-Keeps s) (λ y.
      bind-Keeps (deref-Keeps (sym_get_choice_prop y)) (λ p.
        bind-Keeps (for_each-Keeps mark mark-Keeps (choice_values p)) (λ u.
          bind-Keeps (mark-Keeps s) (λ u. bind-Keeps (sym_deps-Keeps s) (λ r.
            bind-Keeps (unmark-Keeps s) (λ u.
              bind-Keeps (or_next-Keeps (pure-Keeps r) (check_values-Keeps (choice_values p))) (λ d.
                bind-Keeps (for_each-Keeps unmark unmark-Keeps (choice_values p))
                  (λ u. blame-Keeps s d))))))))

  check_body-Keeps : (s : SymId) → Keeps (check_body check s)
  unfolding check_body
  check_body-Keeps s = bind-Keeps (get_symbol-Keeps s) (λ y.
      if-Keeps y.flags.check (pure-Keeps (some s)) (
        if-Keeps y.flags.checked (pure-Keeps none) (
          if-Keeps y.flags.choiceval (bind-Keeps (deref-Keeps (choice_of y)) h) (
            if-Keeps y.flags.choice (choice_deps-Keeps s) (
              bind-Keeps (mark-Keeps s) (λ u.
                bind-Keeps (sym_deps-Keeps s)
                  (λ r. bind-Keeps (unmark-Keeps s) (λ u. pure-Keeps r))))))))

sym_check_deps-Keeps : (fuel : ℕ) (s : SymId) → Keeps (sym_check_deps fuel s)
unfolding sym_check_deps Within
sym_check_deps-Keeps zero s = record { within = λ st. tt }
sym_check_deps-Keeps (suc fuel) s = record {
  within = (check_body-Keeps (sym_check_deps fuel) (sym_check_deps-Keeps fuel) s).within;
}

-- Where sym_check_deps returns, every symbol is as it was but for SYMBOL_CHECK and SYMBOL_CHECKED, and
-- a symbol that had SYMBOL_CHECKED has it still.
pub sym_check_deps-keeps :
    (fuel : ℕ) (s t : SymId) (st st' : Store) (r : Option SymId)
    → sym_check_deps fuel s st ≡ some (r, st')
    → (unchecked (st'.sym t) ≡ unchecked (st.sym t))
      × ((not (st.sym t).flags.checked || (st'.sym t).flags.checked) ≡ true)
unfolding Within
sym_check_deps-keeps fuel s t st st' r e =
    let kept : Within st (some (r, st')) =
      subst (Within st) e ((sym_check_deps-Keeps fuel s).within st) in
    ((kept t).rest, (kept t).checked)
