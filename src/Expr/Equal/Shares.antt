-- ===== src/Expr/Equal/Shares.antt =====
-- scripts/kconfig/expr.c: the common part of two expressions that a walk of `expr_eliminate_eq` takes
-- away from both, in tristate values.
use kdevops.Prelude.{◌≡◌, sym, ap, ap₂, ◌∙◌, arith}
use kdevops.Tristate.{Tristate, tri_no, tri_yes, expr_and, expr_or}
use kdevops.Tristate.Laws.{eq_of_rank, tristate_laws}
use kdevops.Expr.Equal.{Operator, op_or, op_and}

abbrev pub combine : Operator → Tristate → Tristate → Tristate
combine op_or = expr_or
combine op_and = expr_and

-- A removed part with two operands is the sum of what was removed for each.
combine_exchange :
    (op : Operator) (a b c d : Tristate)
    → combine op (combine op a b) (combine op c d) ≡ combine op (combine op a c) (combine op b d)
combine_exchange op_or a b c d = eq_of_rank _ _ (omega tristate_laws)
combine_exchange op_and a b c d = eq_of_rank _ _ (omega tristate_laws)

combine_assoc :
    (op : Operator) (a b c : Tristate)
    → combine op a (combine op b c) ≡ combine op (combine op a b) c
combine_assoc op_or a b c = eq_of_rank _ _ (omega tristate_laws)
combine_assoc op_and a b c = eq_of_rank _ _ (omega tristate_laws)

-- Both values are what was removed, combined with the value of what is left.
pub record Shares (op : Operator) (v1 v2 w1 w2 : Tristate) : Type 0 where
  pub common : Tristate
  pub first : v1 ≡ combine op common w1
  pub second : v2 ≡ combine op common w2

-- Two walks one after the other remove the sum of what they remove.
pub Shares-trans :
    {op : Operator} {v1 v2 w1 w2 x1 x2 : Tristate}
    → Shares op v1 v2 w1 w2
    → Shares op w1 w2 x1 x2
    → Shares op v1 v2 x1 x2
Shares-trans {op} p q = record {
  common = combine op p.common q.common;
  first = p.first ∙ ap (combine op p.common) q.first ∙ combine_assoc op _ _ _;
  second = p.second ∙ ap (combine op p.common) q.second ∙ combine_assoc op _ _ _;
}

pub Shares-symm :
    {op : Operator} {v1 v2 w1 w2 : Tristate} → Shares op v1 v2 w1 w2 → Shares op v2 v1 w2 w1
Shares-symm p = record { common = p.common; first = p.second; second = p.first }

-- The first tree is rewritten by both walks, the operands of the second by one each.
pub Shares-operands :
    {op : Operator} {v1 vl vr w1 wl x1 xr : Tristate}
    → Shares op v1 vl w1 wl
    → Shares op w1 vr x1 xr
    → Shares op v1 (combine op vl vr) x1 (combine op wl xr)
Shares-operands {op} p q = record {
  common = combine op p.common q.common;
  first = p.first ∙ ap (combine op p.common) q.first ∙ combine_assoc op _ _ _;
  second = ap₂ (combine op) p.second q.second ∙ combine_exchange op _ _ _ _;
}

unfoldable pub neutral_value : Operator → Tristate
neutral_value op_or = tri_no
neutral_value op_and = tri_yes

pub combine_neutral : (op : Operator) (v : Tristate) → combine op (neutral_value op) v ≡ v
unfolding neutral_value expr_and expr_or
combine_neutral op_or v = ground arith
combine_neutral op_and v = ground arith

pub Shares-refl : (op : Operator) (v w : Tristate) → Shares op v w v w
Shares-refl op v w = record {
  common = neutral_value op;
  first = sym (combine_neutral op v);
  second = sym (combine_neutral op w);
}

-- What is removed in two steps, each at one operator.
pub record SharesTwice (v1 v2 w1 w2 : Tristate) : Type 0 where
  pub op1 : Operator
  pub op2 : Operator
  pub x1 : Tristate
  pub x2 : Tristate
  pub step1 : Shares op1 v1 v2 x1 x2
  pub step2 : Shares op2 x1 x2 w1 w2

pub eq_of_SharesTwice : {v1 v2 w1 w2 : Tristate} → SharesTwice v1 v2 w1 w2 → w1 ≡ w2 → v1 ≡ v2
eq_of_SharesTwice s e =
    s.step1.first
    ∙ ap (combine s.op1 _) (s.step2.first ∙ ap (combine s.op2 _) e ∙ sym s.step2.second)
    ∙ sym s.step1.second
