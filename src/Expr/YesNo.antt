-- ===== src/Expr/YesNo.antt =====
-- scripts/kconfig/expr.c: `expr_eliminate_yn`, which removes constant operands of `&&` and `||`.
use kdevops.Prelude.{
  Bool, true, false, ◌≡◌, refl, ap₂, ◌∙◌, ◌↔◌, arith, ◌==◌, ◌&&◌, ◌||◌, not, if◌then◌else◌,
}
use kdevops.Tristate.{tri_no, tri_yes, expr_and, expr_or}
use kdevops.Expr.{SymId, symbol_no, symbol_yes, Expr, symbol, and_expr, or_expr}
use kdevops.Expr.Value.{value}
use kdevops.Symbol.{Store}
use kdevops.Symbol.Consistent.{IsConsistent}

-- The tests `type == E_SYMBOL && left.sym == s`.
abbrev pub is_symbol : SymId → Expr → Bool
is_symbol s (symbol t) = t == s
is_symbol s _ = false

abbrev pub is_constant : Expr → Bool
is_constant e = is_symbol symbol_no e || is_symbol symbol_yes e

-- The rewriting of a node `l && r` whose operands are done.
unfoldable pub join_and_yn : Expr → Expr → Expr
join_and_yn l r =
    if is_symbol symbol_no l
    then symbol symbol_no
    else if is_symbol symbol_yes l
    then r
    else if is_symbol symbol_no r
    then symbol symbol_no
    else if is_symbol symbol_yes r
    then l
    else and_expr l r

unfoldable pub join_or_yn : Expr → Expr → Expr
join_or_yn l r =
    if is_symbol symbol_no l
    then r
    else if is_symbol symbol_yes l
    then symbol symbol_yes
    else if is_symbol symbol_no r
    then l
    else if is_symbol symbol_yes r
    then symbol symbol_yes
    else or_expr l r

unfoldable pub expr_eliminate_yn : Expr → Expr
unfolding join_and_yn join_or_yn
expr_eliminate_yn (and_expr l r) = join_and_yn (expr_eliminate_yn l) (expr_eliminate_yn r)
expr_eliminate_yn (or_expr l r) = join_or_yn (expr_eliminate_yn l) (expr_eliminate_yn r)
expr_eliminate_yn e = e

module _ {st : Store} (good : IsConsistent st) where
  value-is_symbol_no : (e : Expr) → is_symbol symbol_no e ≡ true → value st e ≡ tri_no
  unfolding value
  value-is_symbol_no (symbol s) h = ground (arith, (good.constants tri_no).tri)
  value-is_symbol_no _ h = ground arith

  value-is_symbol_yes : (e : Expr) → is_symbol symbol_yes e ≡ true → value st e ≡ tri_yes
  unfolding value
  value-is_symbol_yes (symbol s) h = ground (arith, (good.constants tri_yes).tri)
  value-is_symbol_yes _ h = ground arith

  pub value-join_and_yn :
      (l r : Expr) → value st (join_and_yn l r) ≡ expr_and (value st l) (value st r)
  unfolding join_and_yn value expr_and
  value-join_and_yn l r = ground (
    arith,
    value-is_symbol_no l,
    value-is_symbol_no r,
    value-is_symbol_yes l,
    value-is_symbol_yes r,
    (good.constants tri_no).tri,
  )

  pub value-join_or_yn :
      (l r : Expr) → value st (join_or_yn l r) ≡ expr_or (value st l) (value st r)
  unfolding join_or_yn value expr_or
  value-join_or_yn l r = ground (
    arith,
    value-is_symbol_no l,
    value-is_symbol_no r,
    value-is_symbol_yes l,
    value-is_symbol_yes r,
    (good.constants tri_yes).tri,
  )

  -- In a consistent store, `expr_eliminate_yn` keeps the value of an expression.
  pub value-expr_eliminate_yn : (e : Expr) → value st (expr_eliminate_yn e) ≡ value st e
  unfolding expr_eliminate_yn value
  value-expr_eliminate_yn (and_expr l r) =
      value-join_and_yn _ _ ∙ ap₂ expr_and (value-expr_eliminate_yn l) (value-expr_eliminate_yn r)
  value-expr_eliminate_yn (or_expr l r) =
      value-join_or_yn _ _ ∙ ap₂ expr_or (value-expr_eliminate_yn l) (value-expr_eliminate_yn r)
  value-expr_eliminate_yn _ = refl

-- No operand of `&&` or `||` is the constant `y` or `n`, above the leaves.
unfoldable pub is_free_of_yn : Expr → Bool
is_free_of_yn (and_expr l r) =
    is_free_of_yn l && is_free_of_yn r && not (is_constant l) && not (is_constant r)
is_free_of_yn (or_expr l r) =
    is_free_of_yn l && is_free_of_yn r && not (is_constant l) && not (is_constant r)
is_free_of_yn _ = true

is_free_of_yn-join_and_yn :
    (l r : Expr)
    → is_free_of_yn l ≡ true
    → is_free_of_yn r ≡ true
    → is_free_of_yn (join_and_yn l r) ≡ true
unfolding is_free_of_yn join_and_yn
is_free_of_yn-join_and_yn l r hl hr = ground arith

is_free_of_yn-join_or_yn :
    (l r : Expr)
    → is_free_of_yn l ≡ true
    → is_free_of_yn r ≡ true
    → is_free_of_yn (join_or_yn l r) ≡ true
unfolding is_free_of_yn join_or_yn
is_free_of_yn-join_or_yn l r hl hr = ground arith

-- No constant operand is left.
pub expr_eliminate_yn-is_free_of_yn : (e : Expr) → is_free_of_yn (expr_eliminate_yn e) ≡ true
unfolding expr_eliminate_yn is_free_of_yn
expr_eliminate_yn-is_free_of_yn (and_expr l r) =
    is_free_of_yn-join_and_yn (expr_eliminate_yn l) (expr_eliminate_yn r)
      (expr_eliminate_yn-is_free_of_yn l) (expr_eliminate_yn-is_free_of_yn r)
expr_eliminate_yn-is_free_of_yn (or_expr l r) =
    is_free_of_yn-join_or_yn (expr_eliminate_yn l) (expr_eliminate_yn r)
      (expr_eliminate_yn-is_free_of_yn l) (expr_eliminate_yn-is_free_of_yn r)
expr_eliminate_yn-is_free_of_yn _ = refl

join_and_yn_id :
    (l r : Expr) → is_constant l ≡ false → is_constant r ≡ false → join_and_yn l r ≡ and_expr l r
unfolding join_and_yn
join_and_yn_id l r hl hr = ground arith

join_or_yn_id :
    (l r : Expr) → is_constant l ≡ false → is_constant r ≡ false → join_or_yn l r ≡ or_expr l r
unfolding join_or_yn
join_or_yn_id l r hl hr = ground arith

expr_eliminate_yn_id : (e : Expr) → is_free_of_yn e ≡ true → expr_eliminate_yn e ≡ e
unfolding expr_eliminate_yn is_free_of_yn
expr_eliminate_yn_id (and_expr l r) h =
    let p = expr_eliminate_yn_id l (ground arith) in
    let q = expr_eliminate_yn_id r (ground arith) in
    ap₂ join_and_yn p q ∙ join_and_yn_id l r (ground arith) (ground arith)
expr_eliminate_yn_id (or_expr l r) h =
    let p = expr_eliminate_yn_id l (ground arith) in
    let q = expr_eliminate_yn_id r (ground arith) in
    ap₂ join_or_yn p q ∙ join_or_yn_id l r (ground arith) (ground arith)
expr_eliminate_yn_id _ h = refl

-- `expr_eliminate_yn` leaves an expression as it is exactly if no operand of its `&&` and `||`,
-- outside negations, is the constant `y` or `n`.
pub expr_eliminate_yn_fixed : (e : Expr) → (expr_eliminate_yn e ≡ e) ↔ (is_free_of_yn e ≡ true)
expr_eliminate_yn_fixed e =
    (λ h. rw h at (expr_eliminate_yn-is_free_of_yn e), expr_eliminate_yn_id e)
