-- ===== src/Expr/Transform/Normal.antt =====
-- scripts/kconfig/expr.c: the form of what `expr_transform` returns.
use kdevops.Prelude.{
  ℕ, zero, suc, Bool, true, false, not, ◌&&◌, ◌||◌, ◌≡◌, refl, Option, ◌==◌, arith,
}
use kdevops.Expr.{
  SymId, symbol_no, symbol_mod, symbol_yes, Relation, equal, unequal, Expr, symbol, not_expr,
  and_expr, or_expr, comp,
}
use kdevops.Expr.Outcome.{Post, nothing, just, >>=-Post}
use kdevops.Expr.Transform.{
  is_boolean, transform_comp, negate, negate_symbol, transform_not, transform_fuel,
}
use kdevops.Symbol.{Store, symbol_type}

abbrev pub is_constant_symbol : SymId → Bool
is_constant_symbol s = s == symbol_no || s == symbol_mod || s == symbol_yes

abbrev pub is_equation : Relation → Bool
is_equation equal = true
is_equation unequal = true
is_equation _ = false

-- Negations stand on symbols that are no constants, and no boolean symbol is compared with a
-- constant by `=` or `!=`.
unfoldable pub is_normal : Store → Expr → Bool
is_normal st (symbol s) = true
is_normal st (comp r a b) =
    not (is_equation r && is_boolean (symbol_type st a) && is_constant_symbol b)
is_normal st (not_expr (symbol s)) = not (is_constant_symbol s)
is_normal st (not_expr e) = false
is_normal st (and_expr l r) = is_normal st l && is_normal st r
is_normal st (or_expr l r) = is_normal st l && is_normal st r

-- The constants have no type, so a comparison of a boolean symbol is not one of a constant.
abbrev pub ConstantsUntyped : Store → Type 0
ConstantsUntyped st =
    (s : SymId) → is_constant_symbol s ≡ true → is_boolean (symbol_type st s) ≡ false

negate_symbol-is_normal : (st : Store) (s : SymId) → is_normal st (negate_symbol s) ≡ true
unfolding is_normal negate_symbol
negate_symbol-is_normal st s = ground arith

negate-is_normal :
    (st : Store) (r : Relation) (a b : SymId)
    → is_normal st (comp r a b) ≡ true
    → is_normal st (comp (negate r) a b) ≡ true
unfolding is_normal negate
negate-is_normal st r a b h = ground arith

abbrev pub NormalForm : Store → Expr → Type 0
NormalForm st e = is_normal st e ≡ true

both_true : {a b : Bool} → a ≡ true → b ≡ true → (a && b) ≡ true
both_true p q = ground arith

module _ (st : Store) (untyped : ConstantsUntyped st) where
  transform_comp-is_normal : (r : Relation) (a b : SymId) → NormalForm st (transform_comp st r a b)
  unfolding is_normal transform_comp
  transform_comp-is_normal r a b = ground (arith, untyped a)

  transform_not-is_normal :
      (again : Expr → Option Expr)
      → ((e : Expr) → Post (NormalForm st) (again e))
      → (e : Expr) → NormalForm st e
      → Post (NormalForm st) (transform_not again e)
  unfolding transform_not
  transform_not-is_normal again h (symbol s) n = just (negate_symbol-is_normal st s)
  transform_not-is_normal again h (comp r a b) n = just (negate-is_normal st r a b n)
  transform_not-is_normal again h (not_expr e) n = h e
  transform_not-is_normal again h (and_expr l r) n = h (or_expr (not_expr l) (not_expr r))
  transform_not-is_normal again h (or_expr l r) n = h (and_expr (not_expr l) (not_expr r))

  pub transform_fuel-is_normal : (f : ℕ) (e : Expr) → Post (NormalForm st) (transform_fuel st f e)
  unfolding transform_fuel is_normal
  transform_fuel-is_normal zero e = nothing
  transform_fuel-is_normal (suc f) (symbol s) = just refl
  transform_fuel-is_normal (suc f) (comp r a b) = just (transform_comp-is_normal r a b)
  transform_fuel-is_normal (suc f) (not_expr e) =
      >>=-Post (transform_fuel st f e) (transform_fuel-is_normal f e)
        (transform_not-is_normal (transform_fuel st f) (transform_fuel-is_normal f))
  transform_fuel-is_normal (suc f) (and_expr l r) =
      >>=-Post (transform_fuel st f l) (transform_fuel-is_normal f l) (λ l' p.
        >>=-Post (transform_fuel st f r) (transform_fuel-is_normal f r)
          (λ r' q. just (both_true p q)))
  transform_fuel-is_normal (suc f) (or_expr l r) =
      >>=-Post (transform_fuel st f l) (transform_fuel-is_normal f l) (λ l' p.
        >>=-Post (transform_fuel st f r) (transform_fuel-is_normal f r)
          (λ r' q. just (both_true p q)))
