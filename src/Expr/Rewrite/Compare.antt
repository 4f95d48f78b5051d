-- ===== src/Expr/Rewrite/Compare.antt =====
-- scripts/kconfig/expr.c: `expr_trans_compare` against `n` and `y` says what the comparison of the
-- whole expression would say.
use kdevops.Prelude.{not, ◌≡◌, ◌≢◌, refl, ap, ap₂, ◌∙◌, Option, none, some, arith}
use kdevops.Tristate.{Tristate, tri_no, tri_mod, tri_yes, rank, tri_eq, expr_and, expr_or, expr_not}
use kdevops.Expr.{SymId, Relation, Expr, symbol, not_expr, and_expr, or_expr, comp}
use kdevops.Expr.Outcome.{◌>>=◌, Ends, >>=-Ends}
use kdevops.Expr.Rewrite.{
  Comparison, is_same, is_other, relation_of, opposite, negate_if, compare_comparison,
  trans_compare, expr_trans_compare,
}
use kdevops.Expr.Value.{holds, of_bool, value, value?}
use kdevops.Symbol.{Store, sym_get_tristate_value}
use kdevops.Symbol.Consistent.{IsConsistent, IsOperand, constant, compare_symbols-operand}

-- The truth of `v = t` or `v != t`.
abbrev pub truth : Comparison → Tristate → Tristate → Tristate
truth is_same v t = of_bool (tri_eq v t)
truth is_other v t = of_bool (not (tri_eq v t))

-- Symbols that stand alone are tristates, and what is negated is not `m`.
abbrev pub IsSharp : Store → Expr → Type 0
IsSharp st (symbol s) = IsOperand st s
IsSharp st (comp r a b) = Unit
IsSharp st (not_expr e) = IsSharp st e × (value st e ≢ tri_mod)
IsSharp st (and_expr l r) = IsSharp st l × IsSharp st r
IsSharp st (or_expr l r) = IsSharp st l × IsSharp st r

abbrev pub IsSharp? : Store → Option Expr → Type 0
IsSharp? st none = Unit
IsSharp? st (some e) = IsSharp st e

-- The two constants that stand at the ends of the order.
pub data Extreme : Tristate → Type 0 where
  lowest : Extreme tri_no
  highest : Extreme tri_yes

module _ {st : Store} (good : IsConsistent st) where
  negate_if-truth :
      (c : Comparison) (e : Expr) (v t : Tristate)
      → value st e ≡ truth is_same v t
      → value st (negate_if c e) ≡ truth c v t
  unfolding value negate_if expr_not rank
  negate_if-truth is_same e v t h = h
  negate_if-truth is_other e v t h = ground arith

  symbol-truth :
      (c : Comparison) (s : SymId) (t : Tristate)
      → IsOperand st s
      → value st (comp (relation_of c) s (constant t)) ≡ truth c (sym_get_tristate_value st s) t
  unfolding value relation_of holds
  symbol-truth is_same s t h = ap of_bool (compare_symbols-operand good s t h)
  symbol-truth is_other s t h = ap (λ b. of_bool (not b)) (compare_symbols-operand good s t h)

  opposite-truth :
      (c : Comparison) {t v : Tristate}
      → Extreme t
      → v ≢ tri_mod
      → truth (opposite c) v t ≡ truth c (expr_not v) t
  unfolding opposite expr_not rank
  opposite-truth c lowest h = ground arith
  opposite-truth c highest h = ground arith

  -- A comparison is `n` or `y`, so it is its own comparison with `y`.
  compare_comparison-truth :
      (c : Comparison) (r : Relation) (a b : SymId) {t : Tristate}
      → Extreme t
      → Ends
          (λ e. value st e ≡ truth c (value st (comp r a b)) t)
          (compare_comparison c (constant t) (comp r a b))
  unfolding value compare_comparison expr_not rank
  compare_comparison-truth is_same r a b lowest = record {
    result = not_expr (comp r a b);
    is_result = refl;
    holds = ground arith;
  }
  compare_comparison-truth is_other r a b lowest = record {
    result = comp r a b;
    is_result = refl;
    holds = ground arith;
  }
  compare_comparison-truth is_same r a b highest = record {
    result = comp r a b;
    is_result = refl;
    holds = ground arith;
  }
  compare_comparison-truth is_other r a b highest = record {
    result = not_expr (comp r a b);
    is_result = refl;
    holds = ground arith;
  }

  and_lowest :
      (v w : Tristate)
      → expr_or (truth is_same v tri_no) (truth is_same w tri_no)
        ≡ truth is_same (expr_and v w) tri_no
  unfolding expr_and expr_or rank
  and_lowest v w = ground arith

  or_lowest :
      (v w : Tristate)
      → expr_and (truth is_same v tri_no) (truth is_same w tri_no)
        ≡ truth is_same (expr_or v w) tri_no
  unfolding expr_and expr_or rank
  or_lowest v w = ground arith

  and_highest :
      (v w : Tristate)
      → expr_and (truth is_same v tri_yes) (truth is_same w tri_yes)
        ≡ truth is_same (expr_and v w) tri_yes
  unfolding expr_and expr_or rank
  and_highest v w = ground arith

  or_highest :
      (v w : Tristate)
      → expr_or (truth is_same v tri_yes) (truth is_same w tri_yes)
        ≡ truth is_same (expr_or v w) tri_yes
  unfolding expr_and expr_or rank
  or_highest v w = ground arith

  abbrev Truthful : Comparison → Expr → Tristate → Option Expr → Type 0
  Truthful c e t m = Ends (λ x. value st x ≡ truth c (value st e) t) m

  -- Both operands compared, joined by an operator of the value `v`.
  both_operands :
      (c : Comparison) (l r : Expr) (t v : Tristate) (ml mr : Option Expr) (op : Expr → Expr → Expr)
      → ((x y : Expr)
          → value st x ≡ truth is_same (value st l) t
          → value st y ≡ truth is_same (value st r) t
          → value st (op x y) ≡ truth is_same v t)
      → Truthful is_same l t ml
      → Truthful is_same r t mr
      → Ends (λ x. value st x ≡ truth c v t) (ml >>= λ x. mr >>= λ y. some (negate_if c (op x y)))
  both_operands c l r t v ml mr op h el er = >>=-Ends ml el (λ x p. >>=-Ends mr er (λ y q. record {
    result = negate_if c (op x y);
    is_result = refl;
    holds = negate_if-truth c (op x y) v t (h x y p q);
  }))

  trans_compare-truth :
      (c : Comparison) (e : Expr) {t : Tristate}
      → Extreme t
      → IsSharp st e
      → Truthful c e t (trans_compare c (constant t) e)
  unfolding trans_compare value
  trans_compare-truth c (symbol s) {t} x h = record {
    result = comp (relation_of c) s (constant t);
    is_result = refl;
    holds = symbol-truth c s t h;
  }
  trans_compare-truth c (comp r a b) x h = compare_comparison-truth c r a b x
  trans_compare-truth c (not_expr e) {t} x h =
      let p = trans_compare-truth (opposite c) e x h.0 in
      record {
        result = p.result;
        is_result = p.is_result;
        holds = p.holds ∙ opposite-truth c x h.1;
      }
  trans_compare-truth c (and_expr l r) lowest h =
      both_operands c l r tri_no _ _ _ or_expr (λ x y p q. ap₂ expr_or p q ∙ and_lowest _ _)
        (trans_compare-truth is_same l lowest h.0) (trans_compare-truth is_same r lowest h.1)
  trans_compare-truth c (and_expr l r) highest h =
      both_operands c l r tri_yes _ _ _ and_expr (λ x y p q. ap₂ expr_and p q ∙ and_highest _ _)
        (trans_compare-truth is_same l highest h.0) (trans_compare-truth is_same r highest h.1)
  trans_compare-truth c (or_expr l r) lowest h =
      both_operands c l r tri_no _ _ _ and_expr (λ x y p q. ap₂ expr_and p q ∙ or_lowest _ _)
        (trans_compare-truth is_same l lowest h.0) (trans_compare-truth is_same r lowest h.1)
  trans_compare-truth c (or_expr l r) highest h =
      both_operands c l r tri_yes _ _ _ or_expr (λ x y p q. ap₂ expr_or p q ∙ or_highest _ _)
        (trans_compare-truth is_same l highest h.0) (trans_compare-truth is_same r highest h.1)

  -- Null stands for `y`, which is compared as such.
  constant-truth :
      (c : Comparison) {t : Tristate}
      → Extreme t
      → value st (negate_if c (symbol (constant t))) ≡ truth c tri_yes t
  unfolding value negate_if expr_not rank
  constant-truth is_same lowest = (good.constants tri_no).tri
  constant-truth is_same highest = (good.constants tri_yes).tri
  constant-truth is_other lowest = ap expr_not (good.constants tri_no).tri
  constant-truth is_other highest = ap expr_not (good.constants tri_yes).tri

  -- In a consistent store, `expr_trans_compare` against `n` or `y` returns an expression whose value
  -- is the truth of the comparison of the whole expression, if the symbols that stand alone in it
  -- are tristates and no negated operand has the value `m`.
  pub expr_trans_compare-truth :
      (c : Comparison) (e : Option Expr) {t : Tristate}
      → Extreme t
      → IsSharp? st e
      → Ends (λ x. value st x ≡ truth c (value? st e) t) (expr_trans_compare c (constant t) e)
  unfolding expr_trans_compare value?
  expr_trans_compare-truth c none {t} x h = record {
    result = negate_if c (symbol (constant t));
    is_result = refl;
    holds = constant-truth c x;
  }
  expr_trans_compare-truth c (some e) x h = trans_compare-truth c e x h
