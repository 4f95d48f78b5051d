-- ===== src/Expr/Rewrite/Laws.antt =====
-- scripts/kconfig/expr.c: what the tests for a symbol and the rewritings of menu.c say of values.
use kdevops.Prelude.{
  true, false, ◌≡◌, ◌≢◌, refl, ap, ap₂, ◌∙◌, Option, none, some, ◌==◌, ==_iff, arith,
}
use kdevops.Tristate.{tri_no, tri_mod, tri_yes, rank, expr_and, expr_or, expr_not}
use kdevops.Expr.{SymId, equal, unequal, Expr, symbol, not_expr, and_expr, or_expr, comp}
use kdevops.Expr.Rewrite.{
  contains_symbol, expr_contains_symbol, depends_symbol, expr_depends_symbol,
}
use kdevops.Expr.Value.{holds, of_bool, value, value?}
use kdevops.Symbol.{Store, symbol_type, sym_get_tristate_value}
use kdevops.Symbol.Compare.{compare_symbols, symbol_text, sym_get_string_value}
use kdevops.Symbol.Consistent.{IsConsistent, IsLogicalType, compare_symbols-constant}

-- Two stores that differ at one symbol at most, which is not the one that enables modules.
pub record AgreeBut (s : SymId) (st st' : Store) : Type 0 where
  pub others : (t : SymId) → t ≢ s → st.sym t ≡ st'.sym t
  pub same_modules : st.modules_sym ≡ st'.modules_sym
  pub modules_ne : st.modules_sym ≢ s

module _ {s : SymId} {st st' : Store} (agree : AgreeBut s st st') where
  modules_agree :
      sym_get_tristate_value st st.modules_sym ≡ sym_get_tristate_value st' st'.modules_sym
  modules_agree =
      ap (λ x. x.curr.tri) (agree.others st.modules_sym agree.modules_ne)
      ∙ ap (λ m. sym_get_tristate_value st' m) agree.same_modules

  string_value_agrees : (t : SymId) → t ≢ s → sym_get_string_value st t ≡ sym_get_string_value st' t
  unfolding sym_get_string_value
  string_value_agrees t n = ap₂ symbol_text modules_agree (agree.others t n)

  compare_symbols_agrees :
      (a b : SymId) → a ≢ s → b ≢ s → compare_symbols st a b ≡ compare_symbols st' a b
  unfolding compare_symbols
  compare_symbols_agrees a b na nb = rw (
    string_value_agrees a na,
    string_value_agrees b nb,
    ap (λ x. x.type) (agree.others a na),
    ap (λ x. x.type) (agree.others b nb),
  )

  ne_of_test : (t : SymId) → (t == s) ≡ false → t ≢ s
  ne_of_test t h = ground arith

  value_agrees : (e : Expr) → contains_symbol e s ≡ false → value st e ≡ value st' e
  unfolding value contains_symbol
  value_agrees (symbol t) h = ap (λ x. x.curr.tri) (agree.others t (ne_of_test t h))
  value_agrees (comp r a b) h =
      ap (λ o. of_bool (holds r o)) (compare_symbols_agrees a b (ground arith) (ground arith))
  value_agrees (not_expr e) h = ap expr_not (value_agrees e h)
  value_agrees (and_expr l r) h =
      ap₂ expr_and (value_agrees l (ground arith)) (value_agrees r (ground arith))
  value_agrees (or_expr l r) h =
      ap₂ expr_or (value_agrees l (ground arith)) (value_agrees r (ground arith))

module _ {st : Store} (good : IsConsistent st) (s : SymId)
    (logical : IsLogicalType (symbol_type st s)) (off : sym_get_tristate_value st s ≡ tri_no) where
  depends_value : (e : Expr) → depends_symbol e s ≡ true → value st e ≡ tri_no
  unfolding value depends_symbol holds rank expr_and
  depends_value (symbol t) h = ap (λ x. sym_get_tristate_value st x) ((==_iff t s).0 h) ∙ off
  depends_value (and_expr l r) h = ground (arith, depends_value l, depends_value r)
  depends_value (comp equal a b) h = ground (
    arith,
    compare_symbols-constant good s tri_yes logical,
    compare_symbols-constant good s tri_mod logical,
  )
  depends_value (comp unequal a b) h =
      ground (arith, compare_symbols-constant good s tri_no logical)
  depends_value _ h = ground arith

-- Two stores that differ at one symbol at most, not the one that enables modules, give one value to
-- an expression in which `expr_contains_symbol` does not find that symbol.
pub contains_symbol-value :
    {s : SymId} {st st' : Store} (e : Option Expr)
    → AgreeBut s st st'
    → expr_contains_symbol e s ≡ false
    → value? st e ≡ value? st' e
unfolding value? expr_contains_symbol
contains_symbol-value none a h = refl
contains_symbol-value (some e) a h = value_agrees a e h

-- In a consistent store, an expression that depends on a boolean or tristate symbol, as
-- `expr_depends_symbol` says, is `n` where the symbol is.
pub depends_symbol-value :
    {s : SymId} {st : Store} (e : Option Expr)
    → IsConsistent st
    → IsLogicalType (symbol_type st s)
    → expr_depends_symbol e s ≡ true
    → sym_get_tristate_value st s ≡ tri_no
    → value? st e ≡ tri_no
unfolding value? expr_depends_symbol
depends_symbol-value none good logical h off = cc
depends_symbol-value {s} (some e) good logical h off = depends_value good s logical off e h
