-- ===== src/Expr/Rewrite/TransBool.antt =====
-- scripts/kconfig/expr.c: `expr_trans_bool` lowers the value of a dependency without negations, and
-- keeps whether it is met.
use kdevops.Prelude.{Bool, true, false, ◌&&◌, ◌≤◌, ◌≡◌, ◌==◌, inl, inr, Bool-cases, arith}
use kdevops.Tristate.{Tristate, tri_no, rank, expr_and, expr_or}
use kdevops.Expr.{SymId, symbol_no, unequal, Expr, symbol, not_expr, and_expr, or_expr, comp}
use kdevops.Expr.Rewrite.{is_tristate, expr_trans_bool}
use kdevops.Expr.Value.{holds, value}
use kdevops.Symbol.{SymbolType, s_tristate, Store, symbol_type}
use kdevops.Symbol.Consistent.{IsConsistent, compare_symbols-constant}

-- No operand is negated.
abbrev pub is_positive : Expr → Bool
is_positive (and_expr l r) = is_positive l && is_positive r
is_positive (or_expr l r) = is_positive l && is_positive r
is_positive (not_expr e) = false
is_positive _ = true

-- `v` is at most `w`, and is `n` where that is.
pub record Weakens (v w : Tristate) : Type 0 where
  pub le : rank v ≤ rank w
  pub met : v ≡ tri_no → w ≡ tri_no

Weakens-refl : (v : Tristate) → Weakens v v
Weakens-refl v = record { le = omega arith; met = λ h. h }

Weakens-and :
    {v w x y : Tristate} → Weakens v w → Weakens x y → Weakens (expr_and v x) (expr_and w y)
unfolding expr_and rank
Weakens-and p q = record {
  le = ground (arith, p.le, q.le);
  met = λ h. ground (arith, p.met, q.met);
}

Weakens-or : {v w x y : Tristate} → Weakens v w → Weakens x y → Weakens (expr_or v x) (expr_or w y)
unfolding expr_or rank
Weakens-or p q = record { le = ground (arith, p.le, q.le); met = λ h. ground (arith, p.met, q.met) }

is_tristate-eq : (t : SymbolType) → is_tristate t ≡ true → t ≡ s_tristate
is_tristate-eq t h = ground arith

split_test :
    (t : SymbolType) (b : SymId)
    → (is_tristate t && b == symbol_no) ≡ true
    → (t ≡ s_tristate) × (b ≡ symbol_no)
split_test t b h = ground (arith, is_tristate-eq t)

module _ {st : Store} (good : IsConsistent st) where
  -- `FOO != n` is `y` where `FOO` is `m`, so `FOO` is less, and `n` just where it is.
  unequal-Weakens :
      (a b : SymId)
      → Weakens (value st (expr_trans_bool st (comp unequal a b))) (value st (comp unequal a b))
  unfolding value expr_trans_bool holds rank
  unequal-Weakens a b = elim (Bool-cases (is_tristate (symbol_type st a) && b == symbol_no)) [
    | inl e ↦
        let (t, z) = split_test (symbol_type st a) b e in
        let c = compare_symbols-constant good a tri_no (inr t) in
        rw (e, z) (record { le = ground (arith, c); met = λ h. ground (arith, c) })
    | inr e ↦ rw e (Weakens-refl _)
  ]

  -- In a consistent store, `expr_trans_bool` of an expression without negations has at most its
  -- value, and is `n` only where that is.
  pub expr_trans_bool-Weakens :
      (e : Expr) → is_positive e ≡ true → Weakens (value st (expr_trans_bool st e)) (value st e)
  unfolding value expr_trans_bool
  expr_trans_bool-Weakens (and_expr l r) h =
      Weakens-and (expr_trans_bool-Weakens l (ground arith))
        (expr_trans_bool-Weakens r (ground arith))
  expr_trans_bool-Weakens (or_expr l r) h =
      Weakens-or (expr_trans_bool-Weakens l (ground arith))
        (expr_trans_bool-Weakens r (ground arith))
  expr_trans_bool-Weakens (not_expr e) h = cc
  expr_trans_bool-Weakens (symbol s) h = Weakens-refl _
  expr_trans_bool-Weakens (comp unequal a b) h = unequal-Weakens a b
  expr_trans_bool-Weakens (comp _ a b) h = Weakens-refl _
