-- ===== src/Expr/Equal.antt =====
-- scripts/kconfig/expr.c: `expr_eq` and `expr_eliminate_eq`, which remove the operands that two
-- expressions share. Both trees are rewritten in place there, so the walks return both.
pub mod Common
pub mod Removal
pub mod Shares
pub mod Sound
pub mod Total
pub mod Result
use Prim.Native.Nat.{Ordering, compare}
use kdevops.Prelude.{
  ℕ, zero, suc, ◌+◌, max, Bool, true, false, ◌&&◌, ◌||◌, Option, none, some, ◌==◌, if◌then◌else◌,
}
use kdevops.Expr.{
  SymId, symbol_no, symbol_yes, Relation, equal, unequal, lth, leq, gth, geq, Expr, symbol,
  not_expr, and_expr, or_expr, comp, expr_is_yes,
}
use kdevops.Expr.Outcome.{◌>>=◌}
use kdevops.Expr.YesNo.{expr_eliminate_yn}

-- The two types that a walk is made for.
pub data Operator : Type 0 where
  op_or op_and : Operator

unfoldable pub relation_eq : Relation → Relation → Bool
relation_eq equal equal = true
relation_eq unequal unequal = true
relation_eq lth lth = true
relation_eq leq leq = true
relation_eq gth gth = true
relation_eq geq geq = true
relation_eq _ _ = false

-- Both trees after a walk, and `trans_count`.
abbrev pub Walk : Type 0
Walk = Expr × Expr × ℕ

-- What stands for a removed operand.
abbrev pub neutral : Operator → Expr
neutral op_or = symbol symbol_no
neutral op_and = symbol symbol_yes

-- Both are the symbol `y`, or both the symbol `n`.
unfoldable pub same_constant : Expr → Expr → Bool
same_constant (symbol a) (symbol b) = a == b && (a == symbol_yes || a == symbol_no)
same_constant _ _ = false

-- Two leaves of a walk. `eq` is `expr_eq`, whose answer may still be missing.
unfoldable pub eliminate_leaves :
    (Expr → Expr → Option Bool) → Operator → Expr → Expr → ℕ → Option Walk
unfolding same_constant
eliminate_leaves eq op e1 e2 count = if same_constant e1 e2 then some (e1, e2, count) else (do
  same ← eq e1 e2
  some (if same then (neutral op, neutral op, count + 1) else (e1, e2, count)))

-- The walk over `ep2` at a leaf `e1`. A removed leaf is a symbol, so it is a leaf again.
unfoldable pub walk_second : (Expr → Expr → Option Bool) → Operator → Expr → Expr → ℕ → Option Walk
unfolding eliminate_leaves
walk_second eq op_or e1 (or_expr l r) count = do
  (a, l', k) ← walk_second eq op_or e1 l count
  (b, r', m) ← walk_second eq op_or a r k
  some (b, or_expr l' r', m)
walk_second eq op_and e1 (and_expr l r) count = do
  (a, l', k) ← walk_second eq op_and e1 l count
  (b, r', m) ← walk_second eq op_and a r k
  some (b, and_expr l' r', m)
walk_second eq op e1 e2 count = eliminate_leaves eq op e1 e2 count

-- `__expr_eliminate_eq`
unfoldable pub walk : (Expr → Expr → Option Bool) → Operator → Expr → Expr → ℕ → Option Walk
unfolding walk_second
walk eq op_or (or_expr l r) e2 count = do
  (l', a, k) ← walk eq op_or l e2 count
  (r', b, m) ← walk eq op_or r a k
  some (or_expr l' r', b, m)
walk eq op_and (and_expr l r) e2 count = do
  (l', a, k) ← walk eq op_and l e2 count
  (r', b, m) ← walk eq op_and r a k
  some (and_expr l' r', b, m)
walk eq op e1 e2 count = walk_second eq op e1 e2 count

unfoldable pub operator : Expr → Option Operator
operator (and_expr l r) = some op_and
operator (or_expr l r) = some op_or
operator _ = none

-- The first `switch`, on the type of `e1`.
unfoldable pub first_walk :
    (Expr → Expr → Option Bool) → Option Operator → Expr → Expr → ℕ → Option Walk
unfolding walk
first_walk eq none e1 e2 count = some (e1, e2, count)
first_walk eq (some op) e1 e2 count = walk eq op e1 e2 count

-- The second one, on the type of `e2` where the types differ.
unfoldable pub second_walk :
    (Expr → Expr → Option Bool) → Option Operator → Option Operator → Expr → Expr → ℕ → Option Walk
unfolding walk
second_walk eq _ none e1 e2 count = some (e1, e2, count)
second_walk eq (some op_and) (some op_and) e1 e2 count = some (e1, e2, count)
second_walk eq (some op_or) (some op_or) e1 e2 count = some (e1, e2, count)
second_walk eq _ (some op) e1 e2 count = walk eq op e1 e2 count

-- `expr_eliminate_eq` on two expressions that are not null.
unfoldable pub eliminate_eq : (Expr → Expr → Option Bool) → Expr → Expr → ℕ → Option Walk
unfolding first_walk second_walk operator
eliminate_eq eq e1 e2 count = do
  (a, b, k) ← first_walk eq (operator e1) e1 e2 count
  (c, d, m) ← second_walk eq (operator a) (operator b) a b k
  some (expr_eliminate_yn c, expr_eliminate_yn d, m)

unfoldable pub same_symbol : Expr → Expr → Bool
same_symbol (symbol a) (symbol b) = a == b
same_symbol _ _ = false

-- `expr_eq` on two expressions that are not null, with fuel for its recursion. It works on copies
-- and restores `trans_count`, so it changes nothing.
unfoldable pub expr_eq_fuel : ℕ → Expr → Expr → Option Bool
unfolding eliminate_eq same_symbol relation_eq
expr_eq_fuel zero e1 e2 = none
expr_eq_fuel (suc fuel) (symbol a) (symbol b) = some (a == b)
expr_eq_fuel (suc fuel) (comp r a b) (comp q c d) = some (a == c && b == d && relation_eq r q)
expr_eq_fuel (suc fuel) (not_expr e1) (not_expr e2) = expr_eq_fuel fuel e1 e2
expr_eq_fuel (suc fuel) (and_expr l r) (and_expr p q) = do
  (a, b, k) ← eliminate_eq (expr_eq_fuel fuel) (and_expr l r) (and_expr p q) 0
  some (same_symbol a b)
expr_eq_fuel (suc fuel) (or_expr l r) (or_expr p q) = do
  (a, b, k) ← eliminate_eq (expr_eq_fuel fuel) (or_expr l r) (or_expr p q) 0
  some (same_symbol a b)
expr_eq_fuel (suc fuel) e1 e2 = some false

-- The height of an expression bounds the depth of the recursion.
unfoldable pub height : Expr → ℕ
height (symbol s) = 0
height (comp r a b) = 0
height (not_expr e) = suc (height e)
height (and_expr l r) = suc (max (height l) (height r))
height (or_expr l r) = suc (max (height l) (height r))

-- `expr_eq`, with the fuel that `Total` shows to be enough.
unfoldable pub expr_eq : Option Expr → Option Expr → Option Bool
unfolding expr_eq_fuel height
expr_eq (some e1) (some e2) = expr_eq_fuel (suc (height e1)) e1 e2
expr_eq e1 e2 = some (expr_is_yes e1 && expr_is_yes e2)

-- `expr_eliminate_eq` on two pointers.
unfoldable pub expr_eliminate_eq :
    Option Expr → Option Expr → ℕ → Option (Option Expr × Option Expr × ℕ)
unfolding eliminate_eq expr_eq_fuel height
expr_eliminate_eq (some e1) (some e2) count = do
  (a, b, k) ← eliminate_eq (expr_eq_fuel (suc (height e1))) e1 e2 count
  some (some a, some b, k)
expr_eliminate_eq e1 e2 count = some (e1, e2, count)
