-- ===== src/Symbol/CheckDeps/Recursion.antt =====
-- scripts/kconfig/symbol.c: `sym_check_deps` finds the symbol that depends on itself.
use kdevops.Prelude.{
  zero, ◌<◌, ap, ◌==◌, Bool-cases, inl, inr, arith, ℕ, suc, ◌≡◌, refl, ◌∙◌, true, false, Option,
  none, some,
}
use kdevops.Expr.{SymId, Expr, symbol, not_expr, and_expr, or_expr, comp}
use kdevops.Symbol.{Symbol, Store}
use kdevops.Symbol.State.{M, ◌>>◌, pure, update}
use kdevops.Symbol.State.Laws.{update_self}
use kdevops.Symbol.CheckDeps.Kept.{unchecked, stays}
use kdevops.Symbol.CheckDeps.{
  or_next, unmark, sym_check_expr_deps, check_expr?, check_props, sym_check_sym_deps, check_body,
  sym_check_deps,
}

-- The symbol of an expression that is checked first.
unfoldable pub first_symbol : Expr → SymId
first_symbol (symbol s) = s
first_symbol (not_expr e) = first_symbol e
first_symbol (and_expr l r) = first_symbol l
first_symbol (or_expr l r) = first_symbol l
first_symbol (comp rel a b) = a

-- A path of `k` dependencies from one symbol to another: each symbol on it is neither a choice nor a
-- value of one, and depends on an expression whose first symbol is the next one.
pub data Chain (st : Store) : SymId → SymId → ℕ → Type 0 where
  here : (s : SymId) → Chain st s s zero
  step :
      (s t : SymId) (k : ℕ) (e : Expr)
      → (st.sym s).flags.choiceval ≡ false
      → (st.sym s).flags.choice ≡ false
      → (st.sym s).dir_dep.expr ≡ some e
      → Chain st (first_symbol e) t k
      → Chain st s t (suc k)

-- Every symbol that has SYMBOL_CHECKED is still being checked.
abbrev pub AllOpen : Store → Type 0
AllOpen st = (s : SymId) → stays (st.sym s).flags.checked (st.sym s).flags.check ≡ true

-- A symbol is returned.
unfoldable pub Found : Option (Option SymId × Store) → Type 0
Found none = ⊥
Found (some (none, st)) = ⊥
Found (some (some x, st)) = Unit {0}

-- What is found first is the result.
Found-or_next :
    (o : Option (Option SymId × Store)) (rest : M (Option SymId))
    → Found o
    → Found (elim o as (λ o. Option (Option SymId × Store)) [
      | none ↦ none
      | some (r, st') ↦
          (elim r as (λ r. M (Option SymId)) [ none ↦ rest | some x ↦ pure (some x) ]) st'
    ])
unfolding Found
Found-or_next none rest h = absurd h
Found-or_next (some (none, st)) rest h = absurd h
Found-or_next (some (some x, st)) rest h = tt

-- What is found is returned once the flag is cleared.
Found-unmark :
    (o : Option (Option SymId × Store)) (s : SymId)
    → Found o
    → Found (elim o as (λ o. Option (Option SymId × Store)) [
      | none ↦ none
      | some (r, st') ↦ (unmark s >> pure r) st'
    ])
unfolding Found
Found-unmark none s h = absurd h
Found-unmark (some (none, st)) s h = absurd h
Found-unmark (some (some x, st)) s h = tt

module _ (check : SymId → M (Option SymId)) (st : Store) where
  expr_deps-Found :
      (e : Expr) → Found (check (first_symbol e) st) → Found (sym_check_expr_deps check e st)
  unfolding sym_check_expr_deps first_symbol
  expr_deps-Found (symbol s) h = h
  expr_deps-Found (not_expr e) h = expr_deps-Found e h
  expr_deps-Found (and_expr l r) h =
      Found-or_next (sym_check_expr_deps check l st) (sym_check_expr_deps check r)
        (expr_deps-Found l h)
  expr_deps-Found (or_expr l r) h =
      Found-or_next (sym_check_expr_deps check l st) (sym_check_expr_deps check r)
        (expr_deps-Found l h)
  expr_deps-Found (comp rel a b) h = Found-or_next (check a st) (check b) h

  sym_deps-Found :
      (s : SymId) (e : Expr)
      → (st.sym s).dir_dep.expr ≡ some e
      → Found (check (first_symbol e) st)
      → Found (sym_check_sym_deps check s st)
  unfolding sym_check_sym_deps check_expr?
  sym_deps-Found s e d h =
      Found-or_next (check_expr? check (st.sym s).dir_dep.expr st)
        (or_next (check_expr? check (st.sym s).rev_dep.expr) (
          or_next (check_expr? check (st.sym s).implied.expr)
            (check_props check (st.sym s).flags.choice (st.sym s).prop)))
        (rw d (expr_deps-Found e h))

abbrev set_mark : Symbol → Symbol
set_mark y = record y { flags = record y.flags { check = true; checked = true } }

mark-unchecked :
    (s t : SymId) (st : Store) → unchecked ((update s set_mark st).sym t) ≡ unchecked (st.sym t)
mark-unchecked s t st = elim (Bool-cases (t == s)) [ inl e ↦ rw e refl | inr e ↦ rw e refl ]

Chain-unchecked :
    (st st' : Store) (s t : SymId) (k : ℕ)
    → ((u : SymId) → unchecked (st'.sym u) ≡ unchecked (st.sym u))
    → Chain st s t k
    → Chain st' s t k
Chain-unchecked st st' s _ _ h (here _) = here s
Chain-unchecked st st' s t _ h (step _ _ k e v c d rest) =
    step s t k e (ap (λ y. y.flags.choiceval) (h s) ∙ v) (ap (λ y. y.flags.choice) (h s) ∙ c)
      (ap (λ y. y.dir_dep.expr) (h s) ∙ d) (Chain-unchecked st st' (first_symbol e) t k h rest)

mark-AllOpen : (s : SymId) (st : Store) → AllOpen st → AllOpen (update s set_mark st)
mark-AllOpen s st h t = elim (Bool-cases (t == s)) [ inl e ↦ rw e refl | inr e ↦ rw e (h t) ]

mark-check :
    (s t : SymId) (st : Store)
    → (st.sym t).flags.check ≡ true
    → ((update s set_mark st).sym t).flags.check ≡ true
mark-check s t st h = elim (Bool-cases (t == s)) [ inl e ↦ rw e refl | inr e ↦ rw e h ]

-- A symbol that is being checked is returned.
checking-Found :
    (fuel : ℕ) (s : SymId) (st : Store)
    → (st.sym s).flags.check ≡ true
    → Found (sym_check_deps (suc fuel) s st)
unfolding sym_check_deps check_body Found
checking-Found fuel s st h = rw h tt

-- What the dependencies of a plain symbol lead to is returned.
plain-Found :
    (fuel : ℕ) (s : SymId) (st : Store) (e : Expr)
    → (st.sym s).flags.choiceval ≡ false
    → (st.sym s).flags.choice ≡ false
    → (st.sym s).flags.check ≡ false
    → (st.sym s).flags.checked ≡ false
    → (st.sym s).dir_dep.expr ≡ some e
    → Found (sym_check_deps fuel (first_symbol e) (update s set_mark st))
    → Found (sym_check_deps (suc fuel) s st)
unfolding sym_check_deps check_body
plain-Found fuel s st e v c k d x h = rw k (
    rw d (
      rw v (
        rw c (
          Found-unmark (sym_check_sym_deps (sym_check_deps fuel) s (update s set_mark st)) s (
            sym_deps-Found (sym_check_deps fuel) (update s set_mark st) s e
              (ap (λ y. y.dir_dep.expr) (mark-unchecked s s st) ∙ x) h)))))

-- A path to a symbol that is being checked ends in a symbol that is returned.
Chain-Found :
    (fuel k : ℕ) (s t : SymId) (st : Store)
    → Chain st s t k
    → k < fuel
    → (st.sym t).flags.check ≡ true
    → AllOpen st
    → Found (sym_check_deps fuel s st)
Chain-Found zero k s t st p l h o = absurd (omega (arith, l))
Chain-Found (suc fuel) _ s _ st (here _) l h o = checking-Found fuel s st h
Chain-Found (suc fuel) _ s t st (step _ _ k e v c d rest) l h o =
    elim (Bool-cases (st.sym s).flags.check) [
      | inl y ↦ checking-Found fuel s st y
      | inr y ↦ plain-Found fuel s st e v c y (not_checked (st.sym s) y (o s)) d (
          Chain-Found fuel k (first_symbol e) t (update s set_mark st)
            (Chain-unchecked st (update s set_mark st) (first_symbol e) t k
              (λ u. mark-unchecked s u st) rest)
            (omega (arith, l)) (mark-check s t st h) (mark-AllOpen s st o))
    ]
  where
    not_checked :
        (y : Symbol)
        → y.flags.check ≡ false
        → stays y.flags.checked y.flags.check ≡ true
        → y.flags.checked ≡ false
    not_checked y n m = ground (arith, n, m)

-- Where no symbol has a flag of the check, a symbol that is neither a choice nor a value of one, and
-- that a path of `k` further dependencies leads back to, is reported: sym_check_deps returns a symbol
-- for it, with fuel above the length of the whole path. The path takes the first symbol of each
-- direct dependency.
pub sym_check_deps-cycle :
    (fuel k : ℕ) (s : SymId) (e : Expr) (st : Store)
    → ((t : SymId) → (st.sym t).flags.check ≡ false)
    → ((t : SymId) → (st.sym t).flags.checked ≡ false)
    → (st.sym s).flags.choiceval ≡ false
    → (st.sym s).flags.choice ≡ false
    → (st.sym s).dir_dep.expr ≡ some e
    → Chain st (first_symbol e) s k
    → suc k < fuel
    → Found (sym_check_deps fuel s st)
sym_check_deps-cycle zero k s e st n m v c d p l = absurd (omega (arith, l))
sym_check_deps-cycle (suc fuel) k s e st n m v c d p l = plain-Found fuel s st e v c (n s) (m s) d (
    Chain-Found fuel k (first_symbol e) s (update s set_mark st)
      (Chain-unchecked st (update s set_mark st) (first_symbol e) s k (λ u. mark-unchecked s u st)
        p)
      (omega (arith, l)) (ap (λ y. y.flags.check) (update_self s set_mark st))
      (mark-AllOpen s st (λ t. rw (m t) refl)))
