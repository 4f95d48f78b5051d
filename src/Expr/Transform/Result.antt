-- ===== src/Expr/Transform/Result.antt =====
-- scripts/kconfig/expr.c: what `expr_transform` promises its callers.
use kdevops.Prelude.{true, ◌≡◌, refl, Bool, Option, none, some, arith}
use kdevops.Tristate.{tri_no, tri_mod, tri_yes}
use kdevops.Expr.{Expr}
use kdevops.Expr.Outcome.{Ends, >>=-Ends, Ends-Post}
use kdevops.Expr.Transform.{transform_fuel, weight, expr_transform}
use kdevops.Expr.Transform.Normal.{is_normal, ConstantsUntyped, transform_fuel-is_normal}
use kdevops.Expr.Transform.Sound.{transform_fuel-Keeps}
use kdevops.Expr.Transform.Total.{transform_fuel-Ends}
use kdevops.Expr.Value.{value?}
use kdevops.Symbol.{Store}
use kdevops.Symbol.Consistent.{IsConsistent}

-- A null expression is in normal form.
abbrev pub is_normal? : Store → Option Expr → Bool
is_normal? st none = true
is_normal? st (some e) = is_normal st e

module _ {st : Store} (good : IsConsistent st) where
  constants_untyped : ConstantsUntyped st
  constants_untyped s h = ground (
    arith,
    (good.constants tri_no).type,
    (good.constants tri_mod).type,
    (good.constants tri_yes).type,
  )

  -- In a consistent store, `expr_transform` returns, and its result has the value of its argument.
  pub expr_transform-value :
      (e : Option Expr) → Ends (λ e'. value? st e' ≡ value? st e) (expr_transform st e)
  unfolding expr_transform value?
  expr_transform-value none = record { result = none; is_result = refl; holds = refl }
  expr_transform-value (some e) =
      >>=-Ends (transform_fuel st (weight e) e)
        (Ends-Post (transform_fuel-Ends st (weight e) e (omega arith))
          (transform_fuel-Keeps good (weight e) e))
        (λ x p. record { result = some x; is_result = refl; holds = p })

  -- In a consistent store, `expr_transform` returns, and in its result negations stand on symbols
  -- other than the constants only, and no boolean symbol is compared with a constant by `=` or `!=`.
  pub expr_transform-is_normal :
      (e : Option Expr) → Ends (λ e'. is_normal? st e' ≡ true) (expr_transform st e)
  unfolding expr_transform
  expr_transform-is_normal none = record { result = none; is_result = refl; holds = refl }
  expr_transform-is_normal (some e) =
      >>=-Ends (transform_fuel st (weight e) e)
        (Ends-Post (transform_fuel-Ends st (weight e) e (omega arith))
          (transform_fuel-is_normal st constants_untyped (weight e) e))
        (λ x p. record { result = some x; is_result = refl; holds = p })
