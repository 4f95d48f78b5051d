-- ===== src/Expr/Join/Cases.antt =====
-- scripts/kconfig/expr.c: each rule of `expr_join_or` and `expr_join_and` keeps the value of two
-- operands that are about one symbol.
use kdevops.Prelude.{
  ap, Bool, true, false, not, ◌&&◌, ◌||◌, ◌≡◌, ◌≢◌, refl, sym, ◌∙◌, ◌⊎◌, inl, inr, Option, none,
  some, ◌==◌, arith, Bool-cases, if◌then◌else◌,
}
use kdevops.Tristate.{Tristate, tri_no, tri_mod, tri_yes, rank, tri_eq, expr_and, expr_or, expr_not}
use kdevops.Expr.{SymId, symbol_no, symbol_mod, symbol_yes, Relation, equal, unequal, Expr, comp}
use kdevops.Expr.Equal.{relation_eq}
use kdevops.Expr.Join.{
  joined_symbol1, joined_symbol2, are_comps, are_plain_comp, is_plain, is_negated, join_or_tristate,
  join_or_boolean, compared_with, join_equal_unequal, join_and_pairs, join_and_plain, or_else,
}
use kdevops.Expr.Join.Values.{
  IsAbout, joined_equal-value, joined_unequal-value, are_equal-values, are_unequal-values,
  plain_equal-values, plain_unequal-values, negated-values,
}
use kdevops.Expr.Outcome.{Post, nothing, just}
use kdevops.Expr.Value.{holds, of_bool, value}
use kdevops.Symbol.{Store, s_boolean, s_tristate, symbol_type}
use kdevops.Symbol.Compare.{compare_symbols, is_eq}
use kdevops.Symbol.Consistent.{constant, compare_symbols-constant, IsConsistent, IsLogicalType}

-- The result of the first test that is met, and then of the rest.
rule {ℓ} :
    {P : Expr → Type ℓ} {m : Option Expr} (b : Bool) (x : Expr)
    → (b ≡ true → P x)
    → Post P m
    → Post P (if b then some x else m)
rule true x h p = just (h refl)
rule false x h p = p

-- Either of two attempts.
pub or_else-Post {ℓ} :
    {P : Expr → Type ℓ} (m : Option Expr) {k : Option Expr}
    → Post P m
    → Post P k
    → Post P (or_else m k)
or_else-Post none p q = q
or_else-Post (some x) (just h) q = just h

-- No tristate symbol compares equal to two constants. One at `m` does to the constants `m` and `"1"`,
-- since the latter is read as a number.
abbrev pub ConstantsDiffer : Store → Type 0
ConstantsDiffer st =
    (s b c : SymId)
    → symbol_type st s ≡ s_tristate
    → (st.sym b).flags.const ≡ true
    → (st.sym c).flags.const ≡ true
    → b ≢ c
    → is_eq (compare_symbols st s b) ≡ true
    → is_eq (compare_symbols st s c) ≡ false

constants_differ :
    {st : Store}
    → IsConsistent st
    → (s : SymId) (t u : Tristate) → symbol_type st s ≡ s_tristate
    → t ≢ u
    → is_eq (compare_symbols st s (constant t)) ≡ true
    → is_eq (compare_symbols st s (constant u)) ≡ false
unfolding rank
constants_differ good s t u k n h =
    ground (
      arith,
      n,
      compare_symbols-constant good s t (inr k),
      compare_symbols-constant good s u (inr k),
    )

-- It holds where the constants `n`, `m` and `y` are the only constant symbols.
pub ConstantsDiffer-of_constants :
    {st : Store}
    → IsConsistent st
    → ((s : SymId) → (st.sym s).flags.const ≡ true → (t : Tristate) × (s ≡ constant t))
    → ConstantsDiffer st
ConstantsDiffer-of_constants {st} good only s b c k kb kc n e =
    let (t, p) = only b kb in
    let (u, q) = only c kc in
    rw q (constants_differ good s t u k (λ x. n (p ∙ ap constant x ∙ sym q)) (rw p at e))

abbrev pub OrOf : Store → Expr → Expr → Expr → Type 0
OrOf st e1 e2 x = value st x ≡ expr_or (value st e1) (value st e2)

abbrev pub AndOf : Store → Expr → Expr → Expr → Type 0
AndOf st e1 e2 x = value st x ≡ expr_and (value st e1) (value st e2)

-- What three values and two of them leave.
ne_no :
    (v : Tristate)
    → of_bool (not (tri_eq v tri_no)) ≡ of_bool (tri_eq v tri_yes || tri_eq v tri_mod)
unfolding rank
ne_no v = ground arith

ne_mod :
    (v : Tristate)
    → of_bool (not (tri_eq v tri_mod)) ≡ of_bool (tri_eq v tri_yes || tri_eq v tri_no)
unfolding rank
ne_mod v = ground arith

ne_yes :
    (v : Tristate)
    → of_bool (not (tri_eq v tri_yes)) ≡ of_bool (tri_eq v tri_mod || tri_eq v tri_no)
unfolding rank
ne_yes v = ground arith

-- A boolean symbol or its negation is `y`.
or_not : (v : Tristate) → v ≢ tri_mod → expr_or v (expr_not v) ≡ tri_yes
unfolding expr_or expr_not rank
or_not v h = ground (arith, h)

ne_no_yes :
    (v : Tristate)
    → of_bool (tri_eq v tri_mod) ≡ of_bool (not (tri_eq v tri_yes) && not (tri_eq v tri_no))
unfolding rank
ne_no_yes v = ground arith

ne_yes_mod :
    (v : Tristate)
    → of_bool (tri_eq v tri_no) ≡ of_bool (not (tri_eq v tri_yes) && not (tri_eq v tri_mod))
unfolding rank
ne_yes_mod v = ground arith

ne_mod_no :
    (v : Tristate)
    → of_bool (tri_eq v tri_yes) ≡ of_bool (not (tri_eq v tri_mod) && not (tri_eq v tri_no))
unfolding rank
ne_mod_no v = ground arith

and_eq_yes : (v : Tristate) → of_bool (tri_eq v tri_yes) ≡ expr_and v (of_bool (tri_eq v tri_yes))
unfolding expr_and rank
and_eq_yes v = ground arith

and_ne_no : (v : Tristate) → v ≡ expr_and v (of_bool (not (tri_eq v tri_no)))
unfolding expr_and rank
and_ne_no v = ground arith

and_ne_mod :
    (v : Tristate) → of_bool (tri_eq v tri_yes) ≡ expr_and v (of_bool (not (tri_eq v tri_mod)))
unfolding expr_and rank
and_ne_mod v = ground arith

compared_with-eq :
    (s : SymId) (r : Relation) (e : Expr) {b : SymId}
    → (r ≡ equal) ⊎ (r ≡ unequal)
    → IsAbout s e
    → compared_with r e ≡ some b
    → e ≡ comp r s b
unfolding compared_with relation_eq joined_symbol1 joined_symbol2
compared_with-eq s r (comp q a b) k h c = ground arith
compared_with-eq s r _ k h c = ground arith

-- `(s=b) && (s!=c)` for two constants `b` and `c`.
module _ {st : Store} (good : IsConsistent st) (differ : ConstantsDiffer st) (s : SymId)
    (tristate : symbol_type st s ≡ s_tristate) where
  constants-AndOf :
      (b c : SymId)
      → Post
          (AndOf st (comp equal s b) (comp unequal s c))
          (join_equal_unequal st s (some b) (some c))
  unfolding join_equal_unequal value holds expr_and
  constants-AndOf b c = elim (Bool-cases ((st.sym c).flags.const && (st.sym b).flags.const)) [
    | inl k ↦ rw k (
        just (elim (Bool-cases (b == c)) [
          | inl e ↦ rw e (ground (arith, (good.constants tri_no).tri))
          | inr n ↦ rw n (ground (arith, differ s b c tristate))
        ]))
    | inr k ↦ rw k nothing
  ]

  pub equal_unequal-AndOf :
      (e1 e2 : Expr)
      → IsAbout s e1
      → IsAbout s e2
      → (o1 o2 : Option SymId) → compared_with equal e1 ≡ o1
      → compared_with unequal e2 ≡ o2
      → Post (AndOf st e1 e2) (join_equal_unequal st s o1 o2)
  unfolding join_equal_unequal
  equal_unequal-AndOf e1 e2 h1 h2 none o2 p q = nothing
  equal_unequal-AndOf e1 e2 h1 h2 (some b) none p q = nothing
  equal_unequal-AndOf e1 e2 h1 h2 (some b) (some c) p q =
      rw
        (compared_with-eq s equal e1 (inl refl) h1 p, compared_with-eq s unequal e2 (inr refl) h2 q)
        (constants-AndOf b c)

module _ {st : Store} (good : IsConsistent st) (s : SymId)
    (logical : IsLogicalType (symbol_type st s)) (e1 e2 : Expr) (h1 : IsAbout s e1)
    (h2 : IsAbout s e2) where
  pub join_or_tristate-OrOf : Post (OrOf st e1 e2) (join_or_tristate s e1 e2)
  unfolding join_or_tristate
  join_or_tristate-OrOf =
      rule (are_comps equal symbol_yes symbol_mod e1 e2) _
        (λ c.
          joined_unequal-value good s logical tri_no
          ∙ ne_no _
          ∙ sym (are_equal-values good s logical e1 e2 tri_yes tri_mod h1 h2 c))
        (rule (are_comps equal symbol_yes symbol_no e1 e2) _
          (λ c.
            joined_unequal-value good s logical tri_mod
            ∙ ne_mod _
            ∙ sym (are_equal-values good s logical e1 e2 tri_yes tri_no h1 h2 c))
          (rule (are_comps equal symbol_mod symbol_no e1 e2) _
            (λ c.
              joined_unequal-value good s logical tri_yes
              ∙ ne_yes _
              ∙ sym (are_equal-values good s logical e1 e2 tri_mod tri_no h1 h2 c))
            nothing))

  pub join_or_boolean-OrOf :
      symbol_type st s ≡ s_boolean → Post (OrOf st e1 e2) (join_or_boolean e1 e2)
  unfolding join_or_boolean value
  join_or_boolean-OrOf b =
      rule (is_negated e1 && is_plain e2 || is_negated e2 && is_plain e1) _
        (λ c.
          (good.constants tri_yes).tri
          ∙ sym (or_not _ (good.boolean_ne_mod s b))
          ∙ sym (negated-values good s logical e1 e2 h1 h2 c))
        nothing

  pub join_and_plain-AndOf : Post (AndOf st e1 e2) (join_and_plain s e1 e2)
  unfolding join_and_plain value
  join_and_plain-AndOf =
      rule (are_plain_comp equal symbol_yes e1 e2) _
        (λ c.
          joined_equal-value good s logical tri_yes
          ∙ and_eq_yes _
          ∙ sym (plain_equal-values good s logical e1 e2 tri_yes h1 h2 c))
        (rule (are_plain_comp unequal symbol_no e1 e2) _
          (λ c. and_ne_no _ ∙ sym (plain_unequal-values good s logical e1 e2 tri_no h1 h2 c))
          (rule (are_plain_comp unequal symbol_mod e1 e2) _
            (λ c.
              joined_equal-value good s logical tri_yes
              ∙ and_ne_mod _
              ∙ sym (plain_unequal-values good s logical e1 e2 tri_mod h1 h2 c))
            nothing))

  pub join_and_pairs-AndOf : Post (AndOf st e1 e2) (join_and_pairs s e1 e2)
  unfolding join_and_pairs
  join_and_pairs-AndOf =
      rule (are_comps unequal symbol_yes symbol_no e1 e2) _
        (λ c.
          joined_equal-value good s logical tri_mod
          ∙ ne_no_yes _
          ∙ sym (are_unequal-values good s logical e1 e2 tri_yes tri_no h1 h2 c))
        (rule (are_comps unequal symbol_yes symbol_mod e1 e2) _
          (λ c.
            joined_equal-value good s logical tri_no
            ∙ ne_yes_mod _
            ∙ sym (are_unequal-values good s logical e1 e2 tri_yes tri_mod h1 h2 c))
          (rule (are_comps unequal symbol_mod symbol_no e1 e2) _
            (λ c.
              joined_equal-value good s logical tri_yes
              ∙ ne_mod_no _
              ∙ sym (are_unequal-values good s logical e1 e2 tri_mod tri_no h1 h2 c))
            nothing))
