-- ===== src/Symbol/Evaluate/Settled.antt =====
-- scripts/kconfig/expr.c: `expr_calc_value` where every symbol that it reads is calculated already.
use kdevops.Prelude.{Bool, true, false, ◌&&◌, ◌||◌, ◌≡◌, refl, ◌∙◌, ap, none, some, Bytes}
use kdevops.Tristate.{Tristate, tri_mod, tri_eq, expr_and, expr_or, expr_not}
use kdevops.Expr.{SymId, Relation, Expr, symbol, not_expr, and_expr, or_expr, comp}
use kdevops.Expr.Value.{value, holds, of_bool}
use kdevops.Symbol.{Symbol, Store}
use kdevops.Symbol.Compare.{symbol_text, compare_symbols, compare_values, sym_get_string_value}
use kdevops.Symbol.Evaluate.{read_string, expr_calc_value}
use kdevops.Symbol.Properties.{is_boolean_type, is_tristate_type}
use kdevops.Symbol.State.{M, ◌>>=◌, when}

bind_known :
    {A B : Type 0} (m : M A) (f : A → M B) (st : Store) (a : A)
    → m st ≡ some (a, st)
    → (m >>= f) st ≡ f a st
bind_known m f st a h = ap (λ o. elim o [ none ↦ none | some (a, st') ↦ f a st' ]) h

bind_both :
    {A B : Type 0} (f : A → A → B) (m n : M A) (st : Store) {a b : A}
    → m st ≡ some (a, st)
    → n st ≡ some (b, st)
    → (m >>= λ x. n >>= λ y st'. some (f x y, st')) st ≡ some (f a b, st)
bind_both f m n st {a} {b} h k =
    bind_known m (λ x. n >>= λ y st'. some (f x y, st')) st a h
    ∙ bind_known n (λ y st'. some (f a y, st')) st b k

when_settled :
    (b : Bool) (m : M (Unit {0})) (st : Store) → m st ≡ some (tt, st) → when b m st ≡ some (tt, st)
when_settled true m st h = h
when_settled false m st h = refl

abbrev reads_modules : Symbol → Bool
reads_modules y = (is_boolean_type y.type || is_tristate_type y.type) && tri_eq y.curr.tri tri_mod

module _ (calc : SymId → M (Unit {0})) (st : Store)
    (done : (s : SymId) → calc s st ≡ some (tt, st)) where
  -- The rest of `read_string`, and of the clause of a comparison.
  abbrev after_modules : SymId → M Bytes
  after_modules s st' = some (symbol_text (st'.sym st.modules_sym).curr.tri (st.sym s), st')

  abbrev after_second : Relation → SymId → SymId → Bytes → Bytes → M Tristate
  after_second rel a b str1 str2 st' =
      some (of_bool (holds rel (compare_values str1 str2 (st'.sym a).type (st'.sym b).type)), st')

  abbrev after_first : Relation → SymId → SymId → Bytes → M Tristate
  after_first rel a b str1 = read_string calc b >>= after_second rel a b str1

  abbrev after_operands : Relation → SymId → SymId → M Tristate
  after_operands rel a b = read_string calc a >>= after_first rel a b

  read_string-settled : (s : SymId) → read_string calc s st ≡ some (sym_get_string_value st s, st)
  unfolding read_string sym_get_string_value
  read_string-settled s =
      bind_known (when (reads_modules (st.sym s)) (calc st.modules_sym)) (λ u. after_modules s) st
        tt (when_settled (reads_modules (st.sym s)) (calc st.modules_sym) st (done st.modules_sym))

  pub expr_calc_value-settled : (e : Expr) → expr_calc_value calc e st ≡ some (value st e, st)
  unfolding expr_calc_value value compare_symbols
  expr_calc_value-settled (symbol s) =
      bind_known (calc s) (λ u st'. some ((st'.sym s).curr.tri, st')) st tt (done s)
  expr_calc_value-settled (not_expr e) =
      bind_known (expr_calc_value calc e) (λ v st'. some (expr_not v, st')) st (value st e)
        (expr_calc_value-settled e)
  expr_calc_value-settled (and_expr l r) =
      bind_both expr_and (expr_calc_value calc l) (expr_calc_value calc r) st
        (expr_calc_value-settled l) (expr_calc_value-settled r)
  expr_calc_value-settled (or_expr l r) =
      bind_both expr_or (expr_calc_value calc l) (expr_calc_value calc r) st
        (expr_calc_value-settled l) (expr_calc_value-settled r)
  expr_calc_value-settled (comp rel a b) =
      bind_known (calc a) (λ u. calc b >>= λ u. after_operands rel a b) st tt (done a)
      ∙ bind_known (calc b) (λ u. after_operands rel a b) st tt (done b)
      ∙ bind_known (read_string calc a) (after_first rel a b) st (sym_get_string_value st a)
          (read_string-settled a)
      ∙ bind_known (read_string calc b) (after_second rel a b (sym_get_string_value st a)) st
          (sym_get_string_value st b) (read_string-settled b)
