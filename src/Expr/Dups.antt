-- ===== src/Expr/Dups.antt =====
-- scripts/kconfig/expr.c: `expr_eliminate_dups`, which joins the operands of `||` and `&&` among
-- each other. The pass is handed one tree twice and rewrites it in place, but it keeps the nodes of
-- the operator that it is made for. So a pointer to an operand is its number from the left.
pub mod Meaning
pub mod Compared
pub mod Compare
pub mod Sound
pub mod Step
pub mod Joins
pub mod Measure
pub mod Tree
pub mod Operands
use kdevops.Prelude.{
  ℕ, zero, suc, ◌+◌, ◌-◌, Bool, true, false, Option, none, some, List, [], ◌∷◌, ◌++◌, ◌==◌, ltb,
  length, if◌then◌else◌,
}
use kdevops.Expr.{symbol_no, Expr, symbol, not_expr, and_expr, or_expr, comp}
use kdevops.Expr.Equal.{Operator, op_or, op_and, neutral, operator}
use kdevops.Expr.Join.{expr_join_or, expr_join_and}
use kdevops.Expr.Outcome.{◌>>=◌}
use kdevops.Expr.YesNo.{expr_eliminate_yn}
use kdevops.Symbol.{Store}

-- "Any node that does not have type `type` is considered a leaf."
unfoldable pub operands : Operator → Expr → List Expr
operands op_or (or_expr l r) = operands op_or l ++ operands op_or r
operands op_and (and_expr l r) = operands op_and l ++ operands op_and r
operands op e = e ∷ []

-- The first `n` operands, and the others.
unfoldable pub take : ℕ → List Expr → List Expr
take zero xs = []
take (suc n) [] = []
take (suc n) (x ∷ xs) = x ∷ take n xs

unfoldable pub drop : ℕ → List Expr → List Expr
drop zero xs = xs
drop (suc n) [] = []
drop (suc n) (x ∷ xs) = drop n xs

-- The operand `*ep` of a number, and an assignment to it.
unfoldable pub operand : List Expr → ℕ → Expr
operand [] i = symbol symbol_no
operand (x ∷ xs) zero = x
operand (x ∷ xs) (suc i) = operand xs i

unfoldable pub set_operand : ℕ → Expr → List Expr → List Expr
set_operand i e [] = []
set_operand zero e (x ∷ xs) = e ∷ xs
set_operand (suc i) e (x ∷ xs) = x ∷ set_operand i e xs

-- The nodes of the operator with other operands.
unfoldable pub refill : Operator → Expr → List Expr → Expr
unfolding operands take drop operand
refill op_or (or_expr l r) xs =
    let n = length (operands op_or l) in
    or_expr (refill op_or l (take n xs)) (refill op_or r (drop n xs))
refill op_and (and_expr l r) xs =
    let n = length (operands op_and l) in
    and_expr (refill op_and l (take n xs)) (refill op_and r (drop n xs))
refill op e xs = operand xs 0

unfoldable pub join : Operator → Store → Expr → Expr → Option (Option Expr)
unfolding expr_join_or expr_join_and
join op_or st e1 e2 = expr_join_or st e1 e2
join op_and st e1 e2 = expr_join_and st e1 e2

-- All operands during a pass, and `trans_count`.
abbrev pub Pass : Type 0
Pass = List Expr × ℕ

-- Behind the call that joins: the operand `i` is removed and `j` stands for both.
unfoldable pub join_operands : Operator → ℕ → ℕ → Option Expr → List Expr → ℕ → Pass
unfolding set_operand
join_operands op i j none xs count = (xs, count)
join_operands op i j (some e) xs count =
    (set_operand j e (set_operand i (neutral op) xs), count + 1)

-- Two leaves of the pass. `nested` is the call on the first one, where that is `||` or `&&` itself.
unfoldable pub compare_leaves :
    (Expr → ℕ → Option (Expr × ℕ)) → Store → Operator → ℕ → ℕ → Pass → Option Pass
unfolding operand set_operand join join_operands
compare_leaves nested st op i j (xs, count) = if i == j then some (xs, count) else (do
  (e1, k) ← nested (operand xs i) count
  joined ← join op st e1 (operand xs j)
  some (join_operands op i j joined (set_operand i e1 xs) k))

-- The descent of `e2` at a leaf `e1`, over the first `n` operands.
unfoldable pub each_second :
    (Expr → ℕ → Option (Expr × ℕ)) → Store → Operator → ℕ → ℕ → Pass → Option Pass
unfolding compare_leaves
each_second nested st op i zero p = some p
each_second nested st op i (suc j) p = do
  q ← each_second nested st op i j p
  compare_leaves nested st op i j q

-- The descent of `e1`, over the first `n` operands, with that of `e2` over all of them.
unfoldable pub each_first :
    (Expr → ℕ → Option (Expr × ℕ)) → Store → Operator → ℕ → ℕ → Pass → Option Pass
unfolding each_second
each_first nested st op all zero p = some p
each_first nested st op all (suc i) p = do
  q ← each_first nested st op all i p
  each_second nested st op i all q

-- The `switch` on the type of an expression before a pass over it.
unfoldable pub pass_at :
    (Expr → ℕ → Option (Expr × ℕ)) → Store → Option Operator → Expr → ℕ → Option (Expr × ℕ)
unfolding operands refill each_first
pass_at nested st none e count = some (e, count)
pass_at nested st (some op) e count =
    let all = length (operands op e) in
    (do (xs, k) ← each_first nested st op all all (operands op e, count); some (refill op e xs, k))

-- `expr_eliminate_dups1(e->type, &e, &e)` for an `e` of type `||` or `&&`, with fuel for its
-- recursion into operands.
unfoldable pub expr_eliminate_dups1 : ℕ → Store → Expr → ℕ → Option (Expr × ℕ)
unfolding pass_at operator
expr_eliminate_dups1 zero st e count = none
expr_eliminate_dups1 (suc fuel) st e count =
    pass_at (expr_eliminate_dups1 fuel st) st (operator e) e count

-- The loop, with fuel for its rounds and for the recursion of each.
unfoldable pub eliminate_dups_fuel : ℕ → Store → Expr → Option Expr
unfolding expr_eliminate_dups1
eliminate_dups_fuel zero st e = none
eliminate_dups_fuel (suc fuel) st e = do
  (f, count) ← expr_eliminate_dups1 (suc fuel) st e 0
  let rest = eliminate_dups_fuel fuel st (expr_eliminate_yn f)
  if count == 0 then some f else rest

-- The operands of all `||` and `&&` outside negations.
unfoldable pub leaves : Expr → ℕ
leaves (and_expr l r) = leaves l + leaves r
leaves (or_expr l r) = leaves l + leaves r
leaves e = 1

-- `expr_eliminate_dups` on an expression that is not null, with the fuel that `Sound` shows to be
-- enough. It restores `trans_count`.
unfoldable pub expr_eliminate_dups : Store → Expr → Option Expr
unfolding eliminate_dups_fuel leaves
expr_eliminate_dups st e = eliminate_dups_fuel (suc (leaves e)) st e
