-- ===== src/Expr/Transform/Total.antt =====
-- scripts/kconfig/expr.c: `expr_transform` ends, and its result is no heavier than its argument.
use kdevops.Prelude.{ℕ, zero, suc, ◌*◌, ◌≤◌, ◌<◌, refl, Option, some, arith}
use kdevops.Expr.{SymId, Relation, Expr, symbol, not_expr, and_expr, or_expr, comp}
use kdevops.Expr.Outcome.{Ends, >>=-Ends}
use kdevops.Expr.Transform.{transform_comp, negate_symbol, transform_not, transform_fuel, weight}
use kdevops.Symbol.{Store}

weight_pos : (e : Expr) → 0 < weight e
unfolding weight
weight_pos (symbol s) = omega arith
weight_pos (comp r a b) = omega arith
weight_pos (not_expr e) = omega (arith, weight_pos e)
weight_pos (and_expr l r) = omega arith
weight_pos (or_expr l r) = omega arith

weight-transform_comp :
    (st : Store) (r : Relation) (a b : SymId) → weight (transform_comp st r a b) ≤ 3
unfolding weight transform_comp
weight-transform_comp st r a b = ground arith

weight-negate_symbol : (s : SymId) → weight (negate_symbol s) ≤ 3
unfolding weight negate_symbol
weight-negate_symbol s = ground arith

abbrev pub NoHeavier : ℕ → Option Expr → Type 0
NoHeavier w m = Ends (λ e. weight e ≤ w) m

found : (e : Expr) (w : ℕ) → weight e ≤ w → NoHeavier w (some e)
found e w h = record { result = e; is_result = refl; holds = h }

looser : {v : ℕ} {m : Option Expr} (w : ℕ) → NoHeavier v m → v ≤ w → NoHeavier w m
looser w e h = record { result = e.result; is_result = e.is_result; holds = omega (arith, e.holds) }

module _ (fuel : ℕ) (again : Expr → Option Expr)
    (ends : (e : Expr) → weight e ≤ fuel → NoHeavier (weight e) (again e)) where
  transform_not-Ends :
      (e : Expr) → 3 * weight e ≤ suc fuel → NoHeavier (3 * weight e) (transform_not again e)
  unfolding transform_not weight
  transform_not-Ends (symbol s) h = found _ _ (weight-negate_symbol s)
  transform_not-Ends (comp r a b) h = found _ _ (omega arith)
  transform_not-Ends (not_expr e) h = looser _ (ends e (omega (arith, weight_pos e))) (omega arith)
  transform_not-Ends (and_expr l r) h =
      looser _ (ends (or_expr (not_expr l) (not_expr r)) (omega arith)) (omega arith)
  transform_not-Ends (or_expr l r) h =
      looser _ (ends (and_expr (not_expr l) (not_expr r)) (omega arith)) (omega arith)

pub transform_fuel-Ends :
    (st : Store) (fuel : ℕ) (e : Expr)
    → weight e ≤ fuel
    → NoHeavier (weight e) (transform_fuel st fuel e)
unfolding transform_fuel weight
transform_fuel-Ends st zero e h = absurd (omega (arith, weight_pos e))
transform_fuel-Ends st (suc f) (symbol s) h = found _ _ (omega arith)
transform_fuel-Ends st (suc f) (comp r a b) h = found _ _ (weight-transform_comp st r a b)
transform_fuel-Ends st (suc f) (not_expr e) h =
    >>=-Ends (transform_fuel st f e) (transform_fuel-Ends st f e (omega (arith, weight_pos e)))
      (λ e' p.
        looser _
          (transform_not-Ends f (transform_fuel st f) (transform_fuel-Ends st f) e' (omega arith))
          (omega arith))
transform_fuel-Ends st (suc f) (and_expr l r) h =
    >>=-Ends (transform_fuel st f l) (transform_fuel-Ends st f l (omega arith)) (λ l' p.
      >>=-Ends (transform_fuel st f r) (transform_fuel-Ends st f r (omega arith))
        (λ r' q. found (and_expr l' r') _ (omega arith)))
transform_fuel-Ends st (suc f) (or_expr l r) h =
    >>=-Ends (transform_fuel st f l) (transform_fuel-Ends st f l (omega arith)) (λ l' p.
      >>=-Ends (transform_fuel st f r) (transform_fuel-Ends st f r (omega arith))
        (λ r' q. found (or_expr l' r') _ (omega arith)))
