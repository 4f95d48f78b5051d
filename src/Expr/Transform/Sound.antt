-- ===== src/Expr/Transform/Sound.antt =====
-- scripts/kconfig/expr.c: `expr_transform` keeps the value of an expression.
use Prim.Native.Nat.{Ordering}
use kdevops.Prelude.{
  ℕ, zero, suc, Bool, true, not, ◌≡◌, refl, sym, ap, ap₂, ◌∙◌, inl, inr, Option, arith, Bool-cases,
}
use kdevops.Tristate.{Tristate, tri_no, tri_mod, tri_yes, rank, tri_eq, expr_and, expr_or, expr_not}
use kdevops.Tristate.Laws.{not-not, not-and, not-or}
use kdevops.Expr.{SymId, Relation, equal, unequal, Expr, symbol, not_expr, and_expr, or_expr, comp}
use kdevops.Expr.Outcome.{Post, nothing, just, >>=-Post, Post-map}
use kdevops.Expr.Transform.{
  is_boolean, transform_equal, transform_unequal, transform_comp, negate, negate_symbol,
  transform_not, transform_fuel,
}
use kdevops.Expr.Value.{holds, of_bool, value}
use kdevops.Symbol.{Store, SymbolType, s_boolean, symbol_type, sym_get_tristate_value}
use kdevops.Symbol.Compare.{compare_symbols, is_eq}
use kdevops.Symbol.Consistent.{IsConsistent, constant, compare_symbols-constant}

holds-negate : (r : Relation) (o : Ordering) → holds (negate r) o ≡ not (holds r o)
unfolding holds negate
holds-negate r o = ground arith

of_bool-not : (b : Bool) → of_bool (not b) ≡ expr_not (of_bool b)
unfolding expr_not
of_bool-not b = ground arith

is_boolean-eq : (t : SymbolType) → is_boolean t ≡ true → t ≡ s_boolean
is_boolean-eq t h = ground arith

module _ {st : Store} (good : IsConsistent st) where
  abbrev pub Keeps : Expr → Expr → Type 0
  Keeps e e' = value st e' ≡ value st e

  -- A boolean symbol against one of the constants, by their values.
  boolean_eq_constant :
      (a : SymId) (t : Tristate)
      → symbol_type st a ≡ s_boolean
      → is_eq (compare_symbols st a (constant t)) ≡ tri_eq (sym_get_tristate_value st a) t
  boolean_eq_constant a t h = compare_symbols-constant good a t (inl h)

  transform_equal-Keeps :
      (a b : SymId) → symbol_type st a ≡ s_boolean → Keeps (comp equal a b) (transform_equal a b)
  unfolding transform_equal value holds rank expr_not
  transform_equal-Keeps a b h = ground (
    arith,
    good.boolean_ne_mod a h,
    boolean_eq_constant a tri_no h,
    boolean_eq_constant a tri_mod h,
    boolean_eq_constant a tri_yes h,
    (good.constants tri_no).tri,
  )

  transform_unequal-Keeps :
      (a b : SymId)
      → symbol_type st a ≡ s_boolean
      → Keeps (comp unequal a b) (transform_unequal a b)
  unfolding transform_unequal value holds rank expr_not
  transform_unequal-Keeps a b h = ground (
    arith,
    good.boolean_ne_mod a h,
    boolean_eq_constant a tri_no h,
    boolean_eq_constant a tri_mod h,
    boolean_eq_constant a tri_yes h,
    (good.constants tri_yes).tri,
  )

  transform_comp-Keeps : (r : Relation) (a b : SymId) → Keeps (comp r a b) (transform_comp st r a b)
  unfolding transform_comp
  transform_comp-Keeps equal a b = elim (Bool-cases (is_boolean (symbol_type st a))) [
    | inl e ↦ rw e (transform_equal-Keeps a b (is_boolean-eq _ e))
    | inr e ↦ rw e
  ]
  transform_comp-Keeps unequal a b = elim (Bool-cases (is_boolean (symbol_type st a))) [
    | inl e ↦ rw e (transform_unequal-Keeps a b (is_boolean-eq _ e))
    | inr e ↦ rw e
  ]
  transform_comp-Keeps _ a b = refl

  negate_symbol-Keeps : (s : SymId) → Keeps (not_expr (symbol s)) (negate_symbol s)
  unfolding negate_symbol value expr_not
  negate_symbol-Keeps s = ground (
    arith,
    (good.constants tri_no).tri,
    (good.constants tri_mod).tri,
    (good.constants tri_yes).tri,
  )

  negate-Keeps : (r : Relation) (a b : SymId) → Keeps (not_expr (comp r a b)) (comp (negate r) a b)
  unfolding value
  negate-Keeps r a b = ap of_bool (holds-negate r _) ∙ of_bool-not _

  transform_not-Keeps :
      (again : Expr → Option Expr)
      → ((e : Expr) → Post (Keeps e) (again e))
      → (e : Expr) → Post (Keeps (not_expr e)) (transform_not again e)
  unfolding transform_not value
  transform_not-Keeps again h (symbol s) = just (negate_symbol-Keeps s)
  transform_not-Keeps again h (comp r a b) = just (negate-Keeps r a b)
  transform_not-Keeps again h (not_expr e) = Post-map (again e) (λ x p. p ∙ sym (not-not _)) (h e)
  transform_not-Keeps again h (and_expr l r) =
      Post-map (again _) (λ x p. p ∙ sym (not-and _ _)) (h (or_expr (not_expr l) (not_expr r)))
  transform_not-Keeps again h (or_expr l r) =
      Post-map (again _) (λ x p. p ∙ sym (not-or _ _)) (h (and_expr (not_expr l) (not_expr r)))

  pub transform_fuel-Keeps : (f : ℕ) (e : Expr) → Post (Keeps e) (transform_fuel st f e)
  unfolding transform_fuel value
  transform_fuel-Keeps zero e = nothing
  transform_fuel-Keeps (suc f) (symbol s) = just refl
  transform_fuel-Keeps (suc f) (comp r a b) = just (transform_comp-Keeps r a b)
  transform_fuel-Keeps (suc f) (not_expr e) =
      >>=-Post (transform_fuel st f e) (transform_fuel-Keeps f e) (λ e' p.
        Post-map (transform_not (transform_fuel st f) e') (λ x q. q ∙ ap expr_not p)
          (transform_not-Keeps (transform_fuel st f) (transform_fuel-Keeps f) e'))
  transform_fuel-Keeps (suc f) (and_expr l r) =
      >>=-Post (transform_fuel st f l) (transform_fuel-Keeps f l) (λ l' p.
        >>=-Post (transform_fuel st f r) (transform_fuel-Keeps f r)
          (λ r' q. just (ap₂ expr_and p q)))
  transform_fuel-Keeps (suc f) (or_expr l r) =
      >>=-Post (transform_fuel st f l) (transform_fuel-Keeps f l) (λ l' p.
        >>=-Post (transform_fuel st f r) (transform_fuel-Keeps f r)
          (λ r' q. just (ap₂ expr_or p q)))
