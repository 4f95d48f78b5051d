-- ===== src/Expr/Dups/Joins.antt =====
-- scripts/kconfig/expr.c: one join of two operands in `expr_eliminate_dups`, its value and its size.
use kdevops.Prelude.{ℕ, ◌+◌, ◌≤◌, ◌≡◌, Bool, true, false, Option, none, some, arith, if◌then◌else◌}
use kdevops.Expr.{SymId, equal, unequal, Expr}
use kdevops.Expr.Equal.{Operator, op_or, op_and, expr_eq}
use kdevops.Expr.Dups.{leaves, join}
use kdevops.Expr.Dups.Measure.{leaves_pos}
use kdevops.Expr.Dups.Meaning.{apply}
use kdevops.Expr.Join.{
  join_or_tristate, join_or_boolean, join_or_at, join_symbols, expr_join_or, joined_symbol1,
  joined_symbol2, join_equal_unequal, or_else, join_and_pairs, join_and_tristate, join_and_plain,
  join_and_at, expr_join_and, compared_with,
}
use kdevops.Expr.Join.Cases.{ConstantsDiffer}
use kdevops.Expr.Join.Sound.{expr_join_or-OrOf, expr_join_and-AndOf}
use kdevops.Expr.Outcome.{Post, nothing, just, >>=-Post, Post-self, Post-eq, Post-both, Ends}
use kdevops.Expr.Value.{value}
use kdevops.Symbol.{Store, SymbolType, s_boolean, s_tristate, symbol_type}
use kdevops.Symbol.Consistent.{IsConsistent}

unfoldable size : Option Expr → ℕ
unfolding leaves
size none = 0
size (some e) = leaves e

size-join_or_at : (t : SymbolType) (s : SymId) (e1 e2 : Expr) → size (join_or_at t s e1 e2) ≤ 1
unfolding join_or_at join_or_tristate join_or_boolean size leaves
size-join_or_at t s e1 e2 = ground arith

size-join_equal_unequal :
    (st : Store) (s : SymId) (a b : Option SymId) → size (join_equal_unequal st s a b) ≤ 1
unfolding join_equal_unequal size leaves
size-join_equal_unequal st s a b = ground arith

size-join_and_pairs : (s : SymId) (e1 e2 : Expr) → size (join_and_pairs s e1 e2) ≤ 1
unfolding join_and_pairs size leaves
size-join_and_pairs s e1 e2 = ground arith

size-join_and_plain : (s : SymId) (e1 e2 : Expr) → size (join_and_plain s e1 e2) ≤ 1
unfolding join_and_plain size leaves
size-join_and_plain s e1 e2 = ground arith

size-or_else : (a b : Option Expr) → size a ≤ 1 → size b ≤ 1 → size (or_else a b) ≤ 1
size-or_else none b h k = k
size-or_else (some e) b h k = h

size-join_and_at :
    (st : Store) (t : SymbolType) (s : SymId) (e1 e2 : Expr) → size (join_and_at st t s e1 e2) ≤ 1
unfolding join_and_at join_and_tristate size
size-join_and_at st s_tristate s e1 e2 =
    let a = join_equal_unequal st s (compared_with equal e1) (compared_with unequal e2) in
    let b = join_equal_unequal st s (compared_with equal e2) (compared_with unequal e1) in
    let c = join_and_pairs s e1 e2 in
    size-or_else (join_and_plain s e1 e2) (or_else a (or_else b c)) (size-join_and_plain s e1 e2) (
      size-or_else a (or_else b c) (size-join_equal_unequal st s _ _)
        (size-or_else b c (size-join_equal_unequal st s _ _) (size-join_and_pairs s e1 e2)))
size-join_and_at st s_boolean s e1 e2 = size-join_and_plain s e1 e2
size-join_and_at st _ s e1 e2 = omega arith

size-join_symbols :
    (at : SymbolType → SymId → Expr → Expr → Option Expr) (st : Store) (a b : Option SymId)
    (e1 e2 : Expr)
    → ((t : SymbolType) (s : SymId) → size (at t s e1 e2) ≤ 1)
    → size (join_symbols at st a b e1 e2) ≤ 1
unfolding join_symbols size
size-join_symbols at st none b e1 e2 h = omega arith
size-join_symbols at st (some s) none e1 e2 h = omega arith
size-join_symbols at st (some s) (some t) e1 e2 h = ground (arith, h (symbol_type st s) s)

-- The operand that stands for both, and the one in whose place a constant stands.
abbrev Smaller : Expr → Expr → Expr → Type 0
Smaller e1 e2 e = leaves e + 1 ≤ leaves e1 + leaves e2

-- Behind the answer of `expr_eq`.
Smaller-of_size :
    (e1 e2 : Expr) (same : Bool) (m : Option Expr)
    → size m ≤ 1
    → Post (Smaller e1 e2) (if same then some e1 else m)
unfolding size
Smaller-of_size e1 e2 true m h = just (omega (arith, leaves_pos e2))
Smaller-of_size e1 e2 false none h = nothing
Smaller-of_size e1 e2 false (some e) h = just (omega (arith, h, leaves_pos e1, leaves_pos e2))

join-Smaller :
    (op : Operator) (st : Store) (e1 e2 : Expr) → Post (Post (Smaller e1 e2)) (join op st e1 e2)
unfolding join expr_join_or expr_join_and
join-Smaller op_or st e1 e2 = >>=-Post (expr_eq (some e1) (some e2)) (Post-self _) (λ same _. just (
    Smaller-of_size e1 e2 same _ (
      size-join_symbols join_or_at st (joined_symbol1 e1) (joined_symbol2 e2) e1 e2
        (λ t s. size-join_or_at t s e1 e2))))
join-Smaller op_and st e1 e2 = >>=-Post (expr_eq (some e1) (some e2)) (Post-self _) (λ same _.
    just (
      Smaller-of_size e1 e2 same _ (
        size-join_symbols (join_and_at st) st (joined_symbol1 e1) (joined_symbol2 e2) e1 e2
          (λ t s. size-join_and_at st t s e1 e2))))

abbrev pub Joins : Operator → Store → Expr → Expr → Expr → Type 0
Joins op st e1 e2 e =
    (value st e ≡ apply op (value st e1) (value st e2)) × (leaves e + 1 ≤ leaves e1 + leaves e2)

module _ {st : Store} (good : IsConsistent st) (differ : ConstantsDiffer st) where
  join-value :
      (op : Operator) (e1 e2 : Expr)
      → Ends (Post (λ e. value st e ≡ apply op (value st e1) (value st e2))) (join op st e1 e2)
  unfolding join apply
  join-value op_or e1 e2 = expr_join_or-OrOf good e1 e2
  join-value op_and e1 e2 = expr_join_and-AndOf good differ e1 e2

  pub join-Joins :
      (op : Operator) (e1 e2 : Expr) → Ends (Post (Joins op st e1 e2)) (join op st e1 e2)
  join-Joins op e1 e2 =
      let e = join-value op e1 e2 in
      record {
        result = e.result;
        is_result = e.is_result;
        holds = Post-both e.result e.holds (Post-eq (join-Smaller op st e1 e2) e.is_result);
      }
