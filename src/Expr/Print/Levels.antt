-- ===== src/Expr/Print/Levels.antt =====
-- scripts/kconfig/parser.y, expr.c: tokens that read as an expression up to the grouping of `||` and
-- `&&`, put together.
use kdevops.Prelude.{◌≡◌, refl, ap, ap₂, ◌∙◌, List, [], ◌∷◌, ◌++◌}
use mathlib.Core.List.{append_assoc}
use mathlib.Core.Path.{subst}
use kdevops.Tristate.{expr_and, expr_or}
use kdevops.Tristate.Laws.{and_assoc, or_assoc}
use kdevops.Expr.{Expr, and_expr, or_expr}
use kdevops.Expr.Print.Grammar.{
  Token, t_or, t_and, t_open_paren, t_close_paren, Level, or_level, and_level, not_level, Reads,
  read_or, read_and, read_parens, or_of_and, and_of_not,
}
use kdevops.Expr.Value.{value}
use kdevops.Symbol.{Store}

-- The tokens read as an expression that has the value of `e` in every store.
pub record ReadsAs (st : Store) (l : Level) (xs : List Token) (e : Expr) : Type 0 where
  pub read : Expr
  pub reads : Reads st l xs read
  pub same_value : (st' : Store) → value st' read ≡ value st' e

module _ {st : Store} where
  -- Two operands of `||`, of which the second one is itself a disjunction that is not in parentheses.
  join_or :
      {xs ys : List Token} {a b : Expr}
      → Reads st or_level xs a
      → Reads st or_level ys b
      → ReadsAs st or_level (xs ++ t_or ∷ ys) (or_expr a b)
  unfolding value
  join_or d (or_of_and e) = record {
    read = or_expr _ _;
    reads = read_or d e;
    same_value = λ st'. refl;
  }
  join_or {xs} {a} d (read_or {xs = ys} {ys = zs} {a = b} {b = c} e f) =
      let p = join_or d e in
      record {
        read = or_expr p.read c;
        reads =
            subst (λ ps. Reads st or_level ps (or_expr p.read c))
              (append_assoc xs (t_or ∷ ys) (t_or ∷ zs)) (read_or p.reads f);
        same_value = λ st'.
            ap (λ v. expr_or v (value st' c)) (p.same_value st')
            ∙ or_assoc (value st' a) (value st' b) (value st' c);
      }

  join_and :
      {xs ys : List Token} {a b : Expr}
      → Reads st and_level xs a
      → Reads st and_level ys b
      → ReadsAs st and_level (xs ++ t_and ∷ ys) (and_expr a b)
  unfolding value
  join_and d (and_of_not e) = record {
    read = and_expr _ _;
    reads = read_and d e;
    same_value = λ st'. refl;
  }
  join_and {xs} {a} d (read_and {xs = ys} {ys = zs} {a = b} {b = c} e f) =
      let p = join_and d e in
      record {
        read = and_expr p.read c;
        reads =
            subst (λ ps. Reads st and_level ps (and_expr p.read c))
              (append_assoc xs (t_and ∷ ys) (t_and ∷ zs)) (read_and p.reads f);
        same_value = λ st'.
            ap (λ v. expr_and v (value st' c)) (p.same_value st')
            ∙ and_assoc (value st' a) (value st' b) (value st' c);
      }

  pub combine_or :
      {xs ys : List Token} (l r : Expr)
      → ReadsAs st or_level xs l
      → ReadsAs st or_level ys r
      → ReadsAs st or_level (xs ++ t_or ∷ ys) (or_expr l r)
  unfolding value
  combine_or l r p q =
      let j = join_or p.reads q.reads in
      record {
        read = j.read;
        reads = j.reads;
        same_value = λ st'. j.same_value st' ∙ ap₂ expr_or (p.same_value st') (q.same_value st');
      }

  pub combine_and :
      {xs ys : List Token} (l r : Expr)
      → ReadsAs st and_level xs l
      → ReadsAs st and_level ys r
      → ReadsAs st and_level (xs ++ t_and ∷ ys) (and_expr l r)
  unfolding value
  combine_and l r p q =
      let j = join_and p.reads q.reads in
      record {
        read = j.read;
        reads = j.reads;
        same_value = λ st'. j.same_value st' ∙ ap₂ expr_and (p.same_value st') (q.same_value st');
      }

  -- A reading at one level is one at another, with the same result.
  pub at_level :
      {l k : Level} {xs ys : List Token} {e : Expr}
      → ((a : Expr) → Reads st l xs a → Reads st k ys a)
      → ReadsAs st l xs e
      → ReadsAs st k ys e
  at_level f p = record { read = p.read; reads = f p.read p.reads; same_value = p.same_value }

  pub parens_of_or :
      {xs : List Token} {e : Expr}
      → ReadsAs st or_level xs e
      → ReadsAs st not_level (t_open_paren ∷ (xs ++ t_close_paren ∷ [])) e
  parens_of_or p = at_level (λ a. read_parens) p
