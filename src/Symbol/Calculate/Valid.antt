-- ===== src/Symbol/Calculate/Valid.antt =====
-- scripts/kconfig/symbol.c, expr.c: `sym_calc_value` and `expr_calc_value` where every symbol has the
-- flag SYMBOL_VALID.
use kdevops.Prelude.{ℕ, suc, true, ◌≡◌, refl, some}
use kdevops.Expr.{SymId, Expr}
use kdevops.Expr.Value.{value}
use kdevops.Symbol.{Store}
use kdevops.Symbol.Calculate.{calc_body, sym_calc_value}
use kdevops.Symbol.Evaluate.{expr_calc_value}
use kdevops.Symbol.Evaluate.Settled.{expr_calc_value-settled}

unfoldable pub AllValid : Store → Type 0
AllValid st = (s : SymId) → (st.sym s).flags.valid ≡ true

sym_calc_value-valid :
    (fuel : ℕ) (s : SymId) (st : Store)
    → (st.sym s).flags.valid ≡ true
    → sym_calc_value (suc fuel) s st ≡ some (tt, st)
unfolding sym_calc_value calc_body
sym_calc_value-valid fuel s st h = rw h refl

-- Where every symbol is valid, expr_calc_value returns the value of the expression and changes
-- nothing, whatever the expression, its comparisons included.
pub expr_calc_value-valid :
    (fuel : ℕ) (e : Expr) (st : Store)
    → AllValid st
    → expr_calc_value (sym_calc_value (suc fuel)) e st ≡ some (value st e, st)
unfolding AllValid
expr_calc_value-valid fuel e st h =
    expr_calc_value-settled (sym_calc_value (suc fuel)) st
      (λ s. sym_calc_value-valid fuel s st (h s)) e
