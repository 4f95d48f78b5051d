-- ===== src/Tests/Dups.antt =====
-- Runs of `expr_eliminate_dups` of expr.c, on the examples of its comment among others, and its
-- theorem at one of them.
use kdevops.Prelude.{◌≡◌, refl, some}
use kdevops.Expr.{
  symbol_no, symbol_yes, equal, unequal, Expr, symbol, not_expr, and_expr, or_expr, comp,
}
use kdevops.Expr.Dups.{expr_eliminate_dups1, expr_eliminate_dups}
use kdevops.Expr.Dups.Sound.{Deduplicates, expr_eliminate_dups-Deduplicates}
use kdevops.Expr.Outcome.{Ends}
use kdevops.Expr.YesNo.{expr_eliminate_yn}
use kdevops.Tests.{modules, driver, net, sample, sample-IsConsistent, sample-ConstantsDiffer}

-- `A || B || A -> A || B`: the first `A` goes.
dups_or :
    expr_eliminate_dups sample (or_expr (or_expr (symbol driver) (symbol net)) (symbol driver))
    ≡ some (or_expr (symbol net) (symbol driver))
unfolding expr_eliminate_dups expr_eliminate_yn
dups_or = refl

-- `A && B && A=y -> A=y && B`: as above, the operand that stays is the last.
abbrev conjunction : Expr
conjunction = and_expr (and_expr (symbol driver) (symbol net)) (comp equal driver symbol_yes)

dups_and :
    expr_eliminate_dups sample conjunction
    ≡ some (and_expr (symbol net) (comp equal driver symbol_yes))
unfolding expr_eliminate_dups expr_eliminate_yn
dups_and = refl

-- Both operands of a conjunction inside a disjunction become one before it is joined, and the second
-- round joins what the first one left.
abbrev nested : Expr
nested =
    or_expr (and_expr (symbol driver) (comp unequal driver symbol_no))
      (or_expr (symbol net) (symbol driver))

dups_nested : expr_eliminate_dups sample nested ≡ some (or_expr (symbol net) (symbol driver))
unfolding expr_eliminate_dups expr_eliminate_yn
dups_nested = refl

-- The first pass over it, before the constants go.
dups_pass :
    expr_eliminate_dups1 5 sample nested 0
    ≡ some (
      or_expr (and_expr (symbol symbol_yes) (symbol driver)) (or_expr (symbol net) (symbol driver)),
      1,
    )
unfolding expr_eliminate_dups1
dups_pass = refl

-- `!MODULES || MODULES`
dups_constant :
    expr_eliminate_dups sample (or_expr (not_expr (symbol modules)) (symbol modules))
    ≡ some (symbol symbol_yes)
unfolding expr_eliminate_dups expr_eliminate_yn
dups_constant = refl

expr_eliminate_dups-Deduplicates_example :
    Ends (Deduplicates sample nested) (expr_eliminate_dups sample nested)
expr_eliminate_dups-Deduplicates_example =
    expr_eliminate_dups-Deduplicates sample-IsConsistent sample-ConstantsDiffer nested
