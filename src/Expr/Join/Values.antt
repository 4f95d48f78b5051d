-- ===== src/Expr/Join/Values.antt =====
-- scripts/kconfig/expr.c: the values of the operands that `expr_join_or` and `expr_join_and` join.
use kdevops.Prelude.{true, not, ◌&&◌, ◌||◌, ◌≡◌, ap, ◌⊎◌, some, arith}
use kdevops.Tristate.{Tristate, rank, tri_eq, expr_and, expr_or, expr_not}
use kdevops.Expr.{SymId, equal, unequal, Expr, symbol, not_expr, comp}
use kdevops.Expr.Join.{
  joined_symbol1, joined_symbol2, are_comps, are_plain_comp, is_plain, is_negated, is_comp,
}
use kdevops.Expr.Value.{holds, of_bool, value}
use kdevops.Symbol.{Store, symbol_type, sym_get_tristate_value}
use kdevops.Symbol.Consistent.{IsConsistent, IsLogicalType, constant, compare_symbols-constant}

-- The operand is about the symbol `s`.
abbrev pub IsAbout : SymId → Expr → Type 0
IsAbout s e = (joined_symbol1 e ≡ some s) ⊎ (joined_symbol2 e ≡ some s)

module _ {st : Store} (good : IsConsistent st) (s : SymId)
    (logical : IsLogicalType (symbol_type st s)) where
  -- A comparison of `s` with a constant, by the value of `s`.
  pub is_comp_equal-value :
      (e : Expr) (t : Tristate)
      → IsAbout s e
      → is_comp equal (constant t) e ≡ true
      → value st e ≡ of_bool (tri_eq (sym_get_tristate_value st s) t)
  unfolding is_comp value holds joined_symbol1 joined_symbol2
  is_comp_equal-value (comp equal a b) t h c =
      ground (arith, compare_symbols-constant good s t logical)
  is_comp_equal-value (comp _ a b) t h c = ground arith
  is_comp_equal-value _ t h c = ground arith

  pub is_comp_unequal-value :
      (e : Expr) (t : Tristate)
      → IsAbout s e
      → is_comp unequal (constant t) e ≡ true
      → value st e ≡ of_bool (not (tri_eq (sym_get_tristate_value st s) t))
  unfolding is_comp value holds joined_symbol1 joined_symbol2
  is_comp_unequal-value (comp unequal a b) t h c =
      ground (arith, compare_symbols-constant good s t logical)
  is_comp_unequal-value (comp _ a b) t h c = ground arith
  is_comp_unequal-value _ t h c = ground arith

  pub is_plain-value :
      (e : Expr) → IsAbout s e → is_plain e ≡ true → value st e ≡ sym_get_tristate_value st s
  unfolding is_plain value joined_symbol1 joined_symbol2
  is_plain-value (symbol t) h c = ground arith
  is_plain-value _ h c = ground arith

  pub is_negated-value :
      (e : Expr)
      → IsAbout s e
      → is_negated e ≡ true
      → value st e ≡ expr_not (sym_get_tristate_value st s)
  unfolding is_negated value joined_symbol1 joined_symbol2
  is_negated-value (not_expr (symbol t)) h c = ground arith
  is_negated-value (not_expr _) h c = ground arith
  is_negated-value _ h c = ground arith

  -- What a comparison of `s` with a constant that a join returns is worth.
  pub joined_equal-value :
      (t : Tristate)
      → value st (comp equal s (constant t)) ≡ of_bool (tri_eq (sym_get_tristate_value st s) t)
  unfolding value holds
  joined_equal-value t = ap of_bool (compare_symbols-constant good s t logical)

  pub joined_unequal-value :
      (t : Tristate)
      → value st (comp unequal s (constant t))
        ≡ of_bool (not (tri_eq (sym_get_tristate_value st s) t))
  unfolding value holds
  joined_unequal-value t = ap (λ b. of_bool (not b)) (compare_symbols-constant good s t logical)

  -- Two comparisons by `=` with constants `t` and `u`, in either order.
  pub are_equal-values :
      (e1 e2 : Expr) (t u : Tristate)
      → IsAbout s e1
      → IsAbout s e2
      → are_comps equal (constant t) (constant u) e1 e2 ≡ true
      → expr_or (value st e1) (value st e2)
        ≡ of_bool (tri_eq (sym_get_tristate_value st s) t || tri_eq (sym_get_tristate_value st s) u)
  unfolding expr_or rank
  are_equal-values e1 e2 t u h1 h2 c = ground (
    arith,
    is_comp_equal-value e1 t h1,
    is_comp_equal-value e1 u h1,
    is_comp_equal-value e2 t h2,
    is_comp_equal-value e2 u h2,
  )

  pub are_unequal-values :
      (e1 e2 : Expr) (t u : Tristate)
      → IsAbout s e1
      → IsAbout s e2
      → are_comps unequal (constant t) (constant u) e1 e2 ≡ true
      → expr_and (value st e1) (value st e2)
        ≡ of_bool (
            not (tri_eq (sym_get_tristate_value st s) t)
            && not (tri_eq (sym_get_tristate_value st s) u))
  unfolding expr_and rank
  are_unequal-values e1 e2 t u h1 h2 c = ground (
    arith,
    is_comp_unequal-value e1 t h1,
    is_comp_unequal-value e1 u h1,
    is_comp_unequal-value e2 t h2,
    is_comp_unequal-value e2 u h2,
  )

  -- The symbol and a comparison with a constant, in either order.
  pub plain_equal-values :
      (e1 e2 : Expr) (t : Tristate)
      → IsAbout s e1
      → IsAbout s e2
      → are_plain_comp equal (constant t) e1 e2 ≡ true
      → expr_and (value st e1) (value st e2)
        ≡ expr_and (sym_get_tristate_value st s) (of_bool (tri_eq (sym_get_tristate_value st s) t))
  unfolding expr_and rank
  plain_equal-values e1 e2 t h1 h2 c = ground (
    arith,
    is_plain-value e1 h1,
    is_plain-value e2 h2,
    is_comp_equal-value e1 t h1,
    is_comp_equal-value e2 t h2,
  )

  pub plain_unequal-values :
      (e1 e2 : Expr) (t : Tristate)
      → IsAbout s e1
      → IsAbout s e2
      → are_plain_comp unequal (constant t) e1 e2 ≡ true
      → expr_and (value st e1) (value st e2)
        ≡ expr_and
            (sym_get_tristate_value st s)
            (of_bool (not (tri_eq (sym_get_tristate_value st s) t)))
  unfolding expr_and rank
  plain_unequal-values e1 e2 t h1 h2 c = ground (
    arith,
    is_plain-value e1 h1,
    is_plain-value e2 h2,
    is_comp_unequal-value e1 t h1,
    is_comp_unequal-value e2 t h2,
  )

  -- The symbol and its negation, in either order.
  pub negated-values :
      (e1 e2 : Expr)
      → IsAbout s e1
      → IsAbout s e2
      → (is_negated e1 && is_plain e2 || is_negated e2 && is_plain e1) ≡ true
      → expr_or (value st e1) (value st e2)
        ≡ expr_or (sym_get_tristate_value st s) (expr_not (sym_get_tristate_value st s))
  unfolding expr_or expr_not rank
  negated-values e1 e2 h1 h2 c = ground (
    arith,
    is_plain-value e1 h1,
    is_plain-value e2 h2,
    is_negated-value e1 h1,
    is_negated-value e2 h2,
  )
