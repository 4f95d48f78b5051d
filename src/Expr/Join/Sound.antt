-- ===== src/Expr/Join/Sound.antt =====
-- scripts/kconfig/expr.c: an expression that `expr_join_or` or `expr_join_and` returns has the value
-- of the two operands together.
use kdevops.Prelude.{
  Bool, true, false, ◌≡◌, refl, sym, ap, ◌∙◌, inl, inr, Option, none, some, ◌==◌, ==_iff, arith,
  Bool-cases, if◌then◌else◌,
}
use kdevops.Tristate.{rank, expr_and, expr_or}
use kdevops.Tristate.Laws.{and_comm}
use kdevops.Expr.{SymId, equal, unequal, Expr}
use kdevops.Expr.Equal.{expr_eq}
use kdevops.Expr.Equal.Total.{expr_eq-Returns}
use kdevops.Expr.Equal.Sound.{expr_eq-value}
use kdevops.Expr.Join.{
  joined_symbol1, joined_symbol2, join_or_at, expr_join_or, compared_with, join_equal_unequal,
  join_and_tristate, join_and_plain, join_and_at, expr_join_and, join_symbols,
}
use kdevops.Expr.Join.Cases.{
  ConstantsDiffer, OrOf, AndOf, or_else-Post, join_or_tristate-OrOf, join_or_boolean-OrOf,
  join_and_plain-AndOf, join_and_pairs-AndOf, equal_unequal-AndOf,
}
use kdevops.Expr.Join.Values.{IsAbout}
use kdevops.Expr.Outcome.{Post, nothing, just, Post-self, Post-map, Ends, >>=-Ends, Ends-Post}
use kdevops.Expr.Value.{value?}
use kdevops.Symbol.{Store, SymbolType, s_boolean, s_tristate, symbol_type}
use kdevops.Symbol.Consistent.{IsConsistent}

AndOf-symm : (st : Store) (e1 e2 x : Expr) → AndOf st e1 e2 x → AndOf st e2 e1 x
AndOf-symm st e1 e2 x h = h ∙ and_comm _ _

module _ {st : Store} (good : IsConsistent st) where
  join_or_at-OrOf :
      (t : SymbolType) (s : SymId) (e1 e2 : Expr)
      → symbol_type st s ≡ t
      → IsAbout s e1
      → IsAbout s e2
      → Post (OrOf st e1 e2) (join_or_at t s e1 e2)
  unfolding join_or_at
  join_or_at-OrOf s_tristate s e1 e2 t h1 h2 = join_or_tristate-OrOf good s (inr t) e1 e2 h1 h2
  join_or_at-OrOf s_boolean s e1 e2 t h1 h2 = join_or_boolean-OrOf good s (inl t) e1 e2 h1 h2 t
  join_or_at-OrOf _ s e1 e2 t h1 h2 = nothing

  join_and_at-AndOf :
      ConstantsDiffer st
      → (t : SymbolType) (s : SymId) (e1 e2 : Expr) → symbol_type st s ≡ t
      → IsAbout s e1
      → IsAbout s e2
      → Post (AndOf st e1 e2) (join_and_at st t s e1 e2)
  unfolding join_and_at join_and_tristate
  join_and_at-AndOf differ s_tristate s e1 e2 t h1 h2 =
      or_else-Post (join_and_plain s e1 e2) (join_and_plain-AndOf good s (inr t) e1 e2 h1 h2) (
        or_else-Post (join_equal_unequal st s (compared_with equal e1) (compared_with unequal e2))
          (equal_unequal-AndOf good differ s t e1 e2 h1 h2 _ _ refl refl)
          (or_else-Post
            (join_equal_unequal st s (compared_with equal e2) (compared_with unequal e1))
            (Post-map _ (AndOf-symm st e2 e1)
              (equal_unequal-AndOf good differ s t e2 e1 h2 h1 _ _ refl refl))
            (join_and_pairs-AndOf good s (inr t) e1 e2 h1 h2)))
  join_and_at-AndOf differ s_boolean s e1 e2 t h1 h2 =
      join_and_plain-AndOf good s (inl t) e1 e2 h1 h2
  join_and_at-AndOf differ _ s e1 e2 t h1 h2 = nothing

  -- The joins by symbol, for either operator.
  join_symbols-Post {ℓ} :
      (P : Expr → Type ℓ) (at : SymbolType → SymId → Expr → Expr → Option Expr) (e1 e2 : Expr)
      → ((t : SymbolType) (s : SymId)
          → symbol_type st s ≡ t
          → IsAbout s e1
          → IsAbout s e2
          → Post P (at t s e1 e2))
      → (o1 o2 : Option SymId) → joined_symbol1 e1 ≡ o1
      → joined_symbol2 e2 ≡ o2
      → Post P (join_symbols at st o1 o2 e1 e2)
  unfolding join_symbols
  join_symbols-Post P at e1 e2 h none o2 p q = nothing
  join_symbols-Post P at e1 e2 h (some s) none p q = nothing
  join_symbols-Post P at e1 e2 h (some s) (some t) p q = elim (Bool-cases (s == t)) [
    | inl e ↦ rw e (h _ s refl (inl p) (inr (q ∙ ap some (sym ((==_iff s t).0 e)))))
    | inr e ↦ rw e nothing
  ]

  -- The first operand serves for both where they are equal.
  equal-OrOf : (e1 e2 : Expr) → expr_eq (some e1) (some e2) ≡ some true → OrOf st e1 e2 e1
  unfolding value? expr_or rank
  equal-OrOf e1 e2 h = ground (arith, expr_eq-value good (some e1) (some e2) h)

  equal-AndOf : (e1 e2 : Expr) → expr_eq (some e1) (some e2) ≡ some true → AndOf st e1 e2 e1
  unfolding value? expr_and rank
  equal-AndOf e1 e2 h = ground (arith, expr_eq-value good (some e1) (some e2) h)

  -- Both functions behind the answer of `expr_eq`.
  joined-Post {ℓ} :
      (P : Expr → Type ℓ) (e1 e2 : Expr) (m : Option Expr) (same : Bool)
      → (same ≡ true → P e1)
      → Post P m
      → Post P (if same then some e1 else m)
  joined-Post P e1 e2 m true h p = just (h refl)
  joined-Post P e1 e2 m false h p = p

  -- In a consistent store, `expr_join_or` returns, and an expression that it returns in place of
  -- null has the value of the disjunction of both operands.
  pub expr_join_or-OrOf :
      (e1 e2 : Expr) → Ends (λ m. Post (OrOf st e1 e2) m) (expr_join_or st e1 e2)
  unfolding expr_join_or
  expr_join_or-OrOf e1 e2 =
      >>=-Ends (expr_eq (some e1) (some e2))
        (Ends-Post (expr_eq-Returns (some e1) (some e2)) (Post-self _))
        (λ same e. record {
          result =
              if same
              then some e1
              else join_symbols join_or_at st (joined_symbol1 e1) (joined_symbol2 e2) e1 e2;
          is_result = refl;
          holds =
              joined-Post (OrOf st e1 e2) e1 e2 _ same (λ t. equal-OrOf e1 e2 (e ∙ ap some t))
                (join_symbols-Post (OrOf st e1 e2) join_or_at e1 e2
                  (λ t s k h1 h2. join_or_at-OrOf t s e1 e2 k h1 h2) _ _ refl refl);
        })

  pub expr_join_and-AndOf :
      ConstantsDiffer st
      → (e1 e2 : Expr) → Ends (λ m. Post (AndOf st e1 e2) m) (expr_join_and st e1 e2)
  unfolding expr_join_and
  expr_join_and-AndOf differ e1 e2 =
      >>=-Ends (expr_eq (some e1) (some e2))
        (Ends-Post (expr_eq-Returns (some e1) (some e2)) (Post-self _))
        (λ same e. record {
          result =
              if same
              then some e1
              else join_symbols (join_and_at st) st (joined_symbol1 e1) (joined_symbol2 e2) e1 e2;
          is_result = refl;
          holds =
              joined-Post (AndOf st e1 e2) e1 e2 _ same (λ t. equal-AndOf e1 e2 (e ∙ ap some t))
                (join_symbols-Post (AndOf st e1 e2) (join_and_at st) e1 e2
                  (λ t s k h1 h2. join_and_at-AndOf differ t s e1 e2 k h1 h2) _ _ refl refl);
        })
