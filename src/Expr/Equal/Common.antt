-- ===== src/Expr/Equal/Common.antt =====
-- scripts/kconfig/expr.c: the leaves that `__expr_eliminate_eq` leaves of both trees, and how many of
-- them it replaces.
use kdevops.Prelude.{
  ℕ, zero, suc, ◌+◌, ◌≡◌, refl, ap, ◌⊎◌, inl, Bool, true, Option, some, ==_iff, if◌then◌else◌,
  arith,
}
use kdevops.Expr.{SymId, symbol_no, symbol_yes, Expr, symbol, not_expr, and_expr, or_expr, comp}
use kdevops.Expr.Equal.{Operator, op_or, op_and, neutral, same_constant, expr_eq_fuel}
use kdevops.Expr.YesNo.{is_symbol}

-- What holds of every leaf of a tree.
unfoldable pub EachLeaf : (Expr → Type 0) → Operator → Expr → Type 0
EachLeaf P op_or (or_expr l r) = EachLeaf P op_or l × EachLeaf P op_or r
EachLeaf P op_and (and_expr l r) = EachLeaf P op_and l × EachLeaf P op_and r
EachLeaf P op e = P e

pub EachLeaf-map :
    {P Q : Expr → Type 0}
    → ((e : Expr) → P e → Q e)
    → (op : Operator) (e : Expr) → EachLeaf P op e
    → EachLeaf Q op e
unfolding EachLeaf
EachLeaf-map f op_or (or_expr l r) (h, k) = (EachLeaf-map f op_or l h, EachLeaf-map f op_or r k)
EachLeaf-map f op_and (and_expr l r) (h, k) = (EachLeaf-map f op_and l h, EachLeaf-map f op_and r k)
EachLeaf-map f op e h = f e h

pub EachLeaf-all :
    {P : Expr → Type 0} → ((e : Expr) → P e) → (op : Operator) (e : Expr) → EachLeaf P op e
unfolding EachLeaf
EachLeaf-all f op_or (or_expr l r) = (EachLeaf-all f op_or l, EachLeaf-all f op_or r)
EachLeaf-all f op_and (and_expr l r) = (EachLeaf-all f op_and l, EachLeaf-all f op_and r)
EachLeaf-all f op e = f e

pub EachLeaf-neutral :
    (P : Expr → Type 0) (op : Operator) → P (neutral op) → EachLeaf P op (neutral op)
unfolding EachLeaf
EachLeaf-neutral P op_or h = h
EachLeaf-neutral P op_and h = h

-- The leaves that are the constant which stands for a removed one.
abbrev pub mark : Operator → Expr → ℕ
mark op_or e = if is_symbol symbol_no e then 1 else 0
mark op_and e = if is_symbol symbol_yes e then 1 else 0

unfoldable pub marks : Operator → Expr → ℕ
marks op_or (or_expr l r) = marks op_or l + marks op_or r
marks op_and (and_expr l r) = marks op_and l + marks op_and r
marks op e = mark op e

pub mark-neutral : (op : Operator) → mark op (neutral op) ≡ 1
mark-neutral op_or = refl
mark-neutral op_and = refl

pub marks-neutral : (op : Operator) → marks op (neutral op) ≡ 1
unfolding marks
marks-neutral op_or = refl
marks-neutral op_and = refl

pub mark_one : (op : Operator) (e : Expr) → (mark op e ≡ 0) ⊎ (e ≡ neutral op)
mark_one op_or (symbol s) = ground (arith, ==_iff s symbol_no)
mark_one op_and (symbol s) = ground (arith, ==_iff s symbol_yes)
mark_one op_or (comp r a b) = inl refl
mark_one op_and (comp r a b) = inl refl
mark_one op_or (not_expr e) = inl refl
mark_one op_and (not_expr e) = inl refl
mark_one op_or (and_expr l r) = inl refl
mark_one op_and (and_expr l r) = inl refl
mark_one op_or (or_expr l r) = inl refl
mark_one op_and (or_expr l r) = inl refl

-- A test of equality by which a symbol is equal to itself alone.
pub record KnowsSymbols (eq : Expr → Expr → Option Bool) : Type 0 where
  pub left : (s : SymId) (e : Expr) → eq (symbol s) e ≡ some true → e ≡ symbol s
  pub right : (s : SymId) (e : Expr) → eq e (symbol s) ≡ some true → e ≡ symbol s

left_symbol :
    (fuel : ℕ) (s : SymId) (e : Expr) → expr_eq_fuel fuel (symbol s) e ≡ some true → e ≡ symbol s
unfolding expr_eq_fuel
left_symbol zero s e h = cc
left_symbol (suc f) s (symbol t) h = ap symbol (ground (arith, ==_iff s t))
left_symbol (suc f) s (comp r a b) h = cc
left_symbol (suc f) s (not_expr e) h = cc
left_symbol (suc f) s (and_expr l r) h = cc
left_symbol (suc f) s (or_expr l r) h = cc

right_symbol :
    (fuel : ℕ) (s : SymId) (e : Expr) → expr_eq_fuel fuel e (symbol s) ≡ some true → e ≡ symbol s
unfolding expr_eq_fuel
right_symbol zero s e h = cc
right_symbol (suc f) s (symbol t) h = ap symbol (ground (arith, ==_iff t s))
right_symbol (suc f) s (comp r a b) h = cc
right_symbol (suc f) s (not_expr e) h = cc
right_symbol (suc f) s (and_expr l r) h = cc
right_symbol (suc f) s (or_expr l r) h = cc

pub expr_eq_fuel-KnowsSymbols : (fuel : ℕ) → KnowsSymbols (expr_eq_fuel fuel)
expr_eq_fuel-KnowsSymbols fuel = record { left = left_symbol fuel; right = right_symbol fuel }

same_constant-neutral : (op : Operator) → same_constant (neutral op) (neutral op) ≡ true
unfolding same_constant
same_constant-neutral op_or = refl
same_constant-neutral op_and = refl

-- Two leaves that the test does not find equal, or that are the same constant.
abbrev pub Differ : (Expr → Expr → Option Bool) → Expr → Expr → Type 0
Differ eq a b = eq a b ≡ some true → same_constant a b ≡ true

module _ (eq : Expr → Expr → Option Bool) (knows : KnowsSymbols eq) where
  pub neutral-Differ : (op : Operator) (e : Expr) → Differ eq (neutral op) e
  neutral-Differ op_or e h = rw (knows.left symbol_no e h) (same_constant-neutral op_or)
  neutral-Differ op_and e h = rw (knows.left symbol_yes e h) (same_constant-neutral op_and)

  pub Differ-neutral : (op : Operator) (e : Expr) → Differ eq e (neutral op)
  Differ-neutral op_or e h = rw (knows.right symbol_no e h) (same_constant-neutral op_or)
  Differ-neutral op_and e h = rw (knows.right symbol_yes e h) (same_constant-neutral op_and)
