-- ===== src/Expr/Dups/Meaning.antt =====
-- scripts/kconfig/expr.c: the value of a tree as that of its operands, in any order.
use kdevops.Prelude.{ℕ, zero, suc, ◌<◌, ◌≡◌, sym, ap, ap₂, ◌∙◌, List, [], ◌∷◌, length, arith}
use kdevops.Tristate.{Tristate, tri_no, tri_yes, expr_and, expr_or}
use kdevops.Tristate.Laws.{tristate_laws, eq_of_rank}
use kdevops.Expr.{Expr, and_expr, or_expr}
use kdevops.Expr.Equal.{Operator, op_or, op_and, neutral}
use kdevops.Expr.Dups.{operands, take, drop, operand, set_operand, refill}
use kdevops.Expr.Value.{value}
use kdevops.Symbol.{Store}
use kdevops.Expr.Dups.Tree.{length-left, length-right}

unfoldable pub apply : Operator → Tristate → Tristate → Tristate
apply op_or a b = expr_or a b
apply op_and a b = expr_and a b

unfoldable pub unit : Operator → Tristate
unit op_or = tri_no
unit op_and = tri_yes

pub apply-unit : (op : Operator) (a : Tristate) → apply op (unit op) a ≡ a
unfolding apply unit
apply-unit op_or a = eq_of_rank _ _ (omega tristate_laws)
apply-unit op_and a = eq_of_rank _ _ (omega tristate_laws)

pub apply-swap :
    (op : Operator) (a b c : Tristate) → apply op a (apply op b c) ≡ apply op b (apply op a c)
unfolding apply
apply-swap op_or a b c = eq_of_rank _ _ (omega tristate_laws)
apply-swap op_and a b c = eq_of_rank _ _ (omega tristate_laws)

pub apply_assoc :
    (op : Operator) (a b c : Tristate) → apply op (apply op a b) c ≡ apply op a (apply op b c)
unfolding apply
apply_assoc op_or a b c = eq_of_rank _ _ (omega tristate_laws)
apply_assoc op_and a b c = eq_of_rank _ _ (omega tristate_laws)

pub apply-unit_right : (op : Operator) (a : Tristate) → apply op a (unit op) ≡ a
unfolding apply unit
apply-unit_right op_or a = eq_of_rank _ _ (omega tristate_laws)
apply-unit_right op_and a = eq_of_rank _ _ (omega tristate_laws)

-- The value of all operands together.
unfoldable pub value_of : Operator → Store → List Expr → Tristate
unfolding apply unit
value_of op st [] = unit op
value_of op st (x ∷ xs) = apply op (value st x) (value_of op st xs)

module _ (op : Operator) (st : Store) where
  pub value_of-take-drop :
      (n : ℕ) (xs : List Expr)
      → apply op (value_of op st (take n xs)) (value_of op st (drop n xs)) ≡ value_of op st xs
  unfolding take drop value_of
  value_of-take-drop zero xs = apply-unit op _
  value_of-take-drop (suc n) [] = apply-unit op _
  value_of-take-drop (suc n) (x ∷ xs) =
      apply_assoc op _ _ _ ∙ ap (apply op (value st x)) (value_of-take-drop n xs)

  value_of-one : (xs : List Expr) → length xs ≡ 1 → value st (operand xs 0) ≡ value_of op st xs
  unfolding operand value_of
  value_of-one [] h = ground arith
  value_of-one (x ∷ []) h = sym (apply-unit_right op _)
  value_of-one (x ∷ y ∷ xs) h = ground arith

-- The value of the tree is that of its operands.
pub value-refill :
    (op : Operator) (st : Store) (e : Expr) (xs : List Expr)
    → length xs ≡ length (operands op e)
    → value st (refill op e xs) ≡ value_of op st xs
unfolding refill operands value apply
value-refill op_or st (or_expr l r) xs h =
    let ls = operands op_or l in
    let rs = operands op_or r in
    ap₂ expr_or (value-refill op_or st l _ (length-left xs ls rs h))
      (value-refill op_or st r _ (length-right xs ls rs h))
    ∙ value_of-take-drop op_or st (length ls) xs
value-refill op_and st (and_expr l r) xs h =
    let ls = operands op_and l in
    let rs = operands op_and r in
    ap₂ expr_and (value-refill op_and st l _ (length-left xs ls rs h))
      (value-refill op_and st r _ (length-right xs ls rs h))
    ∙ value_of-take-drop op_and st (length ls) xs
value-refill op st e xs h = value_of-one op st xs h

-- An assignment exchanges its share of the value.
pub value_of-set_operand :
    (op : Operator) (st : Store) (i : ℕ) (e : Expr) (xs : List Expr)
    → i < length xs
    → value st (neutral op) ≡ unit op
    → value_of op st (set_operand i e xs)
      ≡ apply op (value st e) (value_of op st (set_operand i (neutral op) xs))
unfolding set_operand value_of
value_of-set_operand op st i e [] h n = ground arith
value_of-set_operand op st zero e (x ∷ xs) h n =
    ap (apply op (value st e)) (sym (ap (λ u. apply op u (value_of op st xs)) n ∙ apply-unit op _))
value_of-set_operand op st (suc i) e (x ∷ xs) h n =
    ap (apply op (value st x)) (value_of-set_operand op st i e xs (omega arith) n)
    ∙ apply-swap op _ _ _
