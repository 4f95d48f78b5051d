-- ===== src/Expr/Join.antt =====
-- scripts/kconfig/expr.c: `expr_join_or` and `expr_join_and`, which write two operands of `||` or
-- `&&` as one.
pub mod Values
pub mod Cases
pub mod Sound
use kdevops.Prelude.{ℕ, Bool, true, false, not, ◌&&◌, ◌||◌, Option, none, some, ◌==◌, if◌then◌else◌}
use kdevops.Expr.{
  SymId, symbol_no, symbol_mod, symbol_yes, Relation, equal, unequal, Expr, symbol, not_expr, comp,
}
use kdevops.Expr.Equal.{expr_eq, relation_eq}
use kdevops.Expr.Outcome.{◌>>=◌}
use kdevops.Symbol.{SymbolType, s_boolean, s_tristate, Store, symbol_type}

-- The symbol of the first operand; none where the code returns null for the operand's type.
unfoldable pub joined_symbol1 : Expr → Option SymId
joined_symbol1 (symbol s) = some s
joined_symbol1 (comp equal a b) = some a
joined_symbol1 (comp unequal a b) = some a
joined_symbol1 (not_expr (symbol s)) = some s
joined_symbol1 (not_expr (comp equal a b)) = some a
joined_symbol1 (not_expr (comp unequal a b)) = some a
joined_symbol1 _ = none

-- That of the second one, where a negation must stand on a symbol.
unfoldable pub joined_symbol2 : Expr → Option SymId
joined_symbol2 (symbol s) = some s
joined_symbol2 (comp equal a b) = some a
joined_symbol2 (comp unequal a b) = some a
joined_symbol2 (not_expr (symbol s)) = some s
joined_symbol2 _ = none

-- `e->type == E_SYMBOL`
unfoldable pub is_plain : Expr → Bool
is_plain (symbol s) = true
is_plain _ = false

-- `e->type == E_NOT && e->left.expr->type == E_SYMBOL`
unfoldable pub is_negated : Expr → Bool
is_negated (not_expr (symbol s)) = true
is_negated _ = false

-- `e->type == r && e->right.sym == c`
unfoldable pub is_comp : Relation → SymId → Expr → Bool
unfolding relation_eq
is_comp r c (comp q a b) = relation_eq q r && b == c
is_comp r c _ = false

-- Two comparisons by one relation, with two constants in either order.
abbrev pub are_comps : Relation → SymId → SymId → Expr → Expr → Bool
are_comps r c d e1 e2 = is_comp r c e1 && is_comp r d e2 || is_comp r d e1 && is_comp r c e2

-- A symbol and a comparison with a constant, in either order.
abbrev pub are_plain_comp : Relation → SymId → Expr → Expr → Bool
are_plain_comp r c e1 e2 = is_plain e1 && is_comp r c e2 || is_plain e2 && is_comp r c e1

-- `none` is the null that says that the operands cannot be joined.
unfoldable pub join_or_tristate : SymId → Expr → Expr → Option Expr
unfolding is_comp
join_or_tristate s e1 e2 =
    if are_comps equal symbol_yes symbol_mod e1 e2
    then some (comp unequal s symbol_no)
    else if are_comps equal symbol_yes symbol_no e1 e2
    then some (comp unequal s symbol_mod)
    else if are_comps equal symbol_mod symbol_no e1 e2
    then some (comp unequal s symbol_yes)
    else none

unfoldable pub join_or_boolean : Expr → Expr → Option Expr
unfolding is_plain is_negated
join_or_boolean e1 e2 =
    if is_negated e1 && is_plain e2 || is_negated e2 && is_plain e1
    then some (symbol symbol_yes)
    else none

-- By the type of the one symbol that both operands are about.
unfoldable pub join_or_at : SymbolType → SymId → Expr → Expr → Option Expr
unfolding join_or_tristate join_or_boolean
join_or_at s_tristate s e1 e2 = join_or_tristate s e1 e2
join_or_at s_boolean s e1 e2 = join_or_boolean e1 e2
join_or_at _ s e1 e2 = none

-- Behind the test `sym1 != sym2`.
unfoldable pub join_symbols :
    (SymbolType → SymId → Expr → Expr → Option Expr)
    → Store
    → Option SymId
    → Option SymId
    → Expr
    → Expr
    → Option Expr
join_symbols at st (some s) (some t) e1 e2 = if s == t then at (symbol_type st s) s e1 e2 else none
join_symbols at st (some s) none e1 e2 = none
join_symbols at st none _ e1 e2 = none

-- `expr_join_or`; the outer `none` is an answer of `expr_eq` that is missing.
unfoldable pub expr_join_or : Store → Expr → Expr → Option (Option Expr)
unfolding expr_eq joined_symbol1 joined_symbol2 join_or_at join_symbols
expr_join_or st e1 e2 = do
  same ← expr_eq (some e1) (some e2)
  some (
      if same
      then some e1
      else join_symbols join_or_at st (joined_symbol1 e1) (joined_symbol2 e2) e1 e2)

-- The right symbol of a comparison by `r`.
unfoldable pub compared_with : Relation → Expr → Option SymId
unfolding relation_eq
compared_with r (comp q a b) = if relation_eq q r then some b else none
compared_with r _ = none

-- `(a='b') && (a!='c')` for constants `b` and `c`, given by the comparisons in that order.
unfoldable pub join_equal_unequal : Store → SymId → Option SymId → Option SymId → Option Expr
join_equal_unequal st s (some b) (some c) =
    if (st.sym c).flags.const && (st.sym b).flags.const
    then some (if not (b == c) then comp equal s b else symbol symbol_no)
    else none
join_equal_unequal st s _ _ = none

abbrev pub or_else {ℓ} : {A : Type ℓ} → Option A → Option A → Option A
or_else none b = b
or_else (some a) b = some a

unfoldable pub join_and_pairs : SymId → Expr → Expr → Option Expr
unfolding is_comp
join_and_pairs s e1 e2 =
    if are_comps unequal symbol_yes symbol_no e1 e2
    then some (comp equal s symbol_mod)
    else if are_comps unequal symbol_yes symbol_mod e1 e2
    then some (comp equal s symbol_no)
    else if are_comps unequal symbol_mod symbol_no e1 e2
    then some (comp equal s symbol_yes)
    else none

unfoldable pub join_and_tristate : Store → SymId → Expr → Expr → Option Expr
unfolding compared_with join_equal_unequal join_and_pairs
join_and_tristate st s e1 e2 =
    or_else (join_equal_unequal st s (compared_with equal e1) (compared_with unequal e2)) (
      or_else (join_equal_unequal st s (compared_with equal e2) (compared_with unequal e1))
        (join_and_pairs s e1 e2))

-- The joins that a boolean and a tristate symbol share.
unfoldable pub join_and_plain : SymId → Expr → Expr → Option Expr
unfolding is_comp is_plain
join_and_plain s e1 e2 =
    if are_plain_comp equal symbol_yes e1 e2
    then some (comp equal s symbol_yes)
    else if are_plain_comp unequal symbol_no e1 e2
    then some (symbol s)
    else if are_plain_comp unequal symbol_mod e1 e2
    then some (comp equal s symbol_yes)
    else none

unfoldable pub join_and_at : Store → SymbolType → SymId → Expr → Expr → Option Expr
unfolding join_and_plain join_and_tristate
join_and_at st s_tristate s e1 e2 = or_else (join_and_plain s e1 e2) (join_and_tristate st s e1 e2)
join_and_at st s_boolean s e1 e2 = join_and_plain s e1 e2
join_and_at st _ s e1 e2 = none

unfoldable pub expr_join_and : Store → Expr → Expr → Option (Option Expr)
unfolding expr_eq joined_symbol1 joined_symbol2 join_and_at join_symbols
expr_join_and st e1 e2 = do
  same ← expr_eq (some e1) (some e2)
  some (
      if same
      then some e1
      else join_symbols (join_and_at st) st (joined_symbol1 e1) (joined_symbol2 e2) e1 e2)
