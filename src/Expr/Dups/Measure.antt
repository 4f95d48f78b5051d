-- ===== src/Expr/Dups/Measure.antt =====
-- scripts/kconfig/expr.c: what `expr_eliminate_yn` leaves of the operands after a pass of
-- `expr_eliminate_dups`, counted.
use kdevops.Prelude.{ℕ, ◌+◌, ◌≤◌, ◌<◌, ◌≡◌, some, arith, if◌then◌else◌}
use kdevops.Expr.{symbol_no, symbol_yes, Expr, symbol, and_expr, or_expr, comp, not_expr}
use kdevops.Expr.Equal.{Operator, op_or, op_and, neutral, operator}
use kdevops.Expr.Dups.{leaves}
use kdevops.Expr.Dups.Tree.{node}
use kdevops.Expr.YesNo.{is_symbol, join_or_yn, join_and_yn, expr_eliminate_yn}

pub leaves_pos : (e : Expr) → 1 ≤ leaves e
unfolding leaves
leaves_pos (and_expr l r) = omega (arith, leaves_pos l)
leaves_pos (or_expr l r) = omega (arith, leaves_pos l)
leaves_pos (symbol s) = omega arith
leaves_pos (not_expr e) = omega arith
leaves_pos (comp r a b) = omega arith

leaves-join_or_yn : (l r : Expr) → leaves (join_or_yn l r) ≤ leaves l + leaves r
unfolding join_or_yn leaves
leaves-join_or_yn l r = ground (arith, leaves_pos l, leaves_pos r)

leaves-join_and_yn : (l r : Expr) → leaves (join_and_yn l r) ≤ leaves l + leaves r
unfolding join_and_yn leaves
leaves-join_and_yn l r = ground (arith, leaves_pos l, leaves_pos r)

pub leaves-expr_eliminate_yn : (e : Expr) → leaves (expr_eliminate_yn e) ≤ leaves e
unfolding expr_eliminate_yn leaves
leaves-expr_eliminate_yn (and_expr l r) = omega (
  arith,
  leaves-join_and_yn (expr_eliminate_yn l) (expr_eliminate_yn r),
  leaves-expr_eliminate_yn l,
  leaves-expr_eliminate_yn r,
)
leaves-expr_eliminate_yn (or_expr l r) = omega (
  arith,
  leaves-join_or_yn (expr_eliminate_yn l) (expr_eliminate_yn r),
  leaves-expr_eliminate_yn l,
  leaves-expr_eliminate_yn r,
)
leaves-expr_eliminate_yn (symbol s) = omega arith
leaves-expr_eliminate_yn (not_expr e) = omega arith
leaves-expr_eliminate_yn (comp r a b) = omega arith

-- The leaves of an operand that stay: none where it is what stands for a removed one.
unfoldable rest : Operator → Expr → ℕ
unfolding leaves
rest op_or e = if is_symbol symbol_no e then 0 else leaves e
rest op_and e = if is_symbol symbol_yes e then 0 else leaves e

unfoldable pub kept : Operator → Expr → ℕ
unfolding rest expr_eliminate_yn
kept op e = rest op (expr_eliminate_yn e)

rest_le : (op : Operator) (e : Expr) → rest op e ≤ leaves e
unfolding rest
rest_le op e = ground arith

rest-join_or_yn : (l r : Expr) → rest op_or (join_or_yn l r) ≤ rest op_or l + rest op_or r
unfolding join_or_yn rest leaves
rest-join_or_yn l r = ground arith

rest-join_and_yn : (l r : Expr) → rest op_and (join_and_yn l r) ≤ rest op_and l + rest op_and r
unfolding join_and_yn rest leaves
rest-join_and_yn l r = ground arith

pub kept-node : (op : Operator) (l r : Expr) → kept op (node op l r) ≤ kept op l + kept op r
unfolding kept node expr_eliminate_yn
kept-node op_or l r = rest-join_or_yn (expr_eliminate_yn l) (expr_eliminate_yn r)
kept-node op_and l r = rest-join_and_yn (expr_eliminate_yn l) (expr_eliminate_yn r)

pub kept_le : (op : Operator) (e : Expr) → kept op e ≤ leaves (expr_eliminate_yn e)
unfolding kept
kept_le op e = rest_le op (expr_eliminate_yn e)

pub kept-neutral : (op : Operator) → kept op (neutral op) < leaves (neutral op)
unfolding kept rest expr_eliminate_yn leaves
kept-neutral op = ground arith

rest_or : (op : Operator) (n : ℕ) (e : Expr) → rest op e < n → 2 ≤ n → leaves e < n
unfolding rest leaves
rest_or op n e h k = ground arith

-- If a node of the operator keeps fewer leaves than it has, the simplification makes it smaller.
pub shrinks-of_kept :
    (op : Operator) (e : Expr)
    → operator e ≡ some op
    → kept op e < leaves e
    → leaves (expr_eliminate_yn e) < leaves e
unfolding kept operator leaves
shrinks-of_kept op (and_expr l r) h k =
    rest_or op _ (expr_eliminate_yn (and_expr l r)) k (omega (arith, leaves_pos l, leaves_pos r))
shrinks-of_kept op (or_expr l r) h k =
    rest_or op _ (expr_eliminate_yn (or_expr l r)) k (omega (arith, leaves_pos l, leaves_pos r))
shrinks-of_kept op (symbol s) h k = ground arith
shrinks-of_kept op (not_expr e) h k = ground arith
shrinks-of_kept op (comp r a b) h k = ground arith
