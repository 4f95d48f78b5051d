-- ===== src/Expr/Dups/Tree.antt =====
-- scripts/kconfig/expr.c: the tree of a pass over its operands, and the numbers that its nodes add up.
use kdevops.Prelude.{ℕ, ◌+◌, ◌≤◌, ◌≡◌, refl, ap, ap₂, ◌∙◌, List, [], ◌∷◌, ◌++◌, length, arith, some}
use kdevops.Expr.{Expr, symbol, and_expr, or_expr, comp, not_expr}
use kdevops.Expr.Equal.{Operator, op_or, op_and, operator}
use kdevops.Expr.Dups.{operands, take, drop, operand, refill, leaves}
use kdevops.Expr.Dups.Operands.{
  total, length-++, take-++, drop-++, length-take, length-drop, total-take-drop, total-++,
}

unfoldable pub node : Operator → Expr → Expr → Expr
node op_or l r = or_expr l r
node op_and l r = and_expr l r

-- Put back unchanged, the operands give the tree again.
pub refill-operands : (op : Operator) (e : Expr) → refill op e (operands op e) ≡ e
unfolding refill operands
refill-operands op_or (or_expr l r) =
    ap₂ or_expr
      (ap (refill op_or l) (take-++ (operands op_or l) (operands op_or r))
        ∙ refill-operands op_or l)
      (ap (refill op_or r) (drop-++ (operands op_or l) (operands op_or r))
        ∙ refill-operands op_or r)
refill-operands op_and (and_expr l r) =
    ap₂ and_expr
      (ap (refill op_and l) (take-++ (operands op_and l) (operands op_and r))
        ∙ refill-operands op_and l)
      (ap (refill op_and r) (drop-++ (operands op_and l) (operands op_and r))
        ∙ refill-operands op_and r)
refill-operands op e = refl

-- As many operands ls the tree has, in two parts.
module _ (xs ls rs : List Expr) (h : length xs ≡ length (ls ++ rs)) where
  pub length-left : length (take (length ls) xs) ≡ length ls
  length-left = length-take _ xs (omega (arith, h, length-++ ls rs))

  pub length-right : length (drop (length ls) xs) ≡ length rs
  length-right =
      omega
        (arith, h, length-++ ls rs, length-drop (length ls) xs (omega (arith, h, length-++ ls rs)))

module _ (f : Expr → ℕ) where
  total-one : (xs : List Expr) → length xs ≡ 1 → f (operand xs 0) ≤ total f xs
  unfolding operand total
  total-one [] h = omega arith
  total-one (x ∷ xs) h = omega arith

  pub refill_le :
      (op : Operator)
      → ((l r : Expr) → f (node op l r) ≤ f l + f r)
      → (e : Expr) (xs : List Expr) → length xs ≡ length (operands op e)
      → f (refill op e xs) ≤ total f xs
  unfolding refill operands node
  refill_le op_or k (or_expr l r) xs h =
      let ls = operands op_or l in
      let rs = operands op_or r in
      let p = refill_le op_or k l (take (length ls) xs) (length-left xs ls rs h) in
      let q = refill_le op_or k r (drop (length ls) xs) (length-right xs ls rs h) in
      omega (
        arith,
        p,
        q,
        k (refill op_or l (take (length ls) xs)) (refill op_or r (drop (length ls) xs)),
        total-take-drop f (length ls) xs,
      )
  refill_le op_and k (and_expr l r) xs h =
      let ls = operands op_and l in
      let rs = operands op_and r in
      let p = refill_le op_and k l (take (length ls) xs) (length-left xs ls rs h) in
      let q = refill_le op_and k r (drop (length ls) xs) (length-right xs ls rs h) in
      omega (
        arith,
        p,
        q,
        k (refill op_and l (take (length ls) xs)) (refill op_and r (drop (length ls) xs)),
        total-take-drop f (length ls) xs,
      )
  refill_le op k e xs h = total-one xs h

leaves-one : (xs : List Expr) → length xs ≡ 1 → leaves (operand xs 0) ≡ total leaves xs
unfolding operand total
leaves-one [] h = omega arith
leaves-one (x ∷ []) h = omega arith
leaves-one (x ∷ y ∷ xs) h = omega arith

pub leaves-refill :
    (op : Operator) (e : Expr) (xs : List Expr)
    → length xs ≡ length (operands op e)
    → leaves (refill op e xs) ≡ total leaves xs
unfolding refill operands leaves
leaves-refill op_or (or_expr l r) xs h =
    let ls = operands op_or l in
    let rs = operands op_or r in
    omega (
      arith,
      leaves-refill op_or l (take (length ls) xs) (length-left xs ls rs h),
      leaves-refill op_or r (drop (length ls) xs) (length-right xs ls rs h),
      total-take-drop leaves (length ls) xs,
    )
leaves-refill op_and (and_expr l r) xs h =
    let ls = operands op_and l in
    let rs = operands op_and r in
    omega (
      arith,
      leaves-refill op_and l (take (length ls) xs) (length-left xs ls rs h),
      leaves-refill op_and r (drop (length ls) xs) (length-right xs ls rs h),
      total-take-drop leaves (length ls) xs,
    )
leaves-refill op e xs h = leaves-one xs h

pub operator-refill :
    (op : Operator) (e : Expr) (xs : List Expr)
    → operator e ≡ some op
    → operator (refill op e xs) ≡ some op
unfolding refill operator
operator-refill op_or (or_expr l r) xs h = refl
operator-refill op_and (and_expr l r) xs h = refl
operator-refill op e xs h = grind arith

pub total-operands : (op : Operator) (e : Expr) → total leaves (operands op e) ≡ leaves e
unfolding operands leaves total
total-operands op_or (or_expr l r) =
    total-++ leaves (operands op_or l) (operands op_or r)
    ∙ ap₂ (λ a b. a + b) (total-operands op_or l) (total-operands op_or r)
total-operands op_and (and_expr l r) =
    total-++ leaves (operands op_and l) (operands op_and r)
    ∙ ap₂ (λ a b. a + b) (total-operands op_and l) (total-operands op_and r)
total-operands op_or (and_expr l r) = omega arith
total-operands op_and (or_expr l r) = omega arith
total-operands op (symbol s) = grind arith
total-operands op (not_expr e) = grind arith
total-operands op (comp r a b) = grind arith
