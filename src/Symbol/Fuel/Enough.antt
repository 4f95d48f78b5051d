-- ===== src/Symbol/Fuel/Enough.antt =====
-- scripts/kconfig/symbol.c: `sym_calc_value` returns, since each symbol that a calculation reads is
-- calculated with fewer symbols left that are not valid.
use mathlib.Core.Path.{subst, fun_ext}
use kdevops.Prelude.{
  ℕ, zero, suc, ◌≤◌, ◌<◌, ◌≡◌, refl, ◌∙◌, ap, true, false, ◌&&◌, none, some, arith, Bool-cases, inl,
  inr, Option,
}
use kdevops.Expr.{SymId}
use kdevops.Symbol.{Symbol, Store}
use kdevops.Symbol.Calculate.{
  calc_by_type, calc_if_any, calc_choice_first, calc_body, sym_calc_value,
}
use kdevops.Symbol.Properties.{sym_get_choice_prop, prop_get_symbol}
use kdevops.Symbol.State.{M, ◌>>=◌, ◌>>◌, deref, get_symbol, update, modify_flags}
use kdevops.Symbol.Fuel.{weight, Below, total, IsClosed, IsClosed-Below}
use kdevops.Symbol.Fuel.Agree.{
  Within, Within-trans, bind-same, bind-Below, Agree, bind-Agree, deref-Agree, pure-Agree,
}
use kdevops.Symbol.Fuel.Lighter.{
  drop_lem, set_valid, set_valid-Below, set_valid-lighter, set_once, set_once-Below,
  set_once-lighter,
}
use kdevops.Symbol.Fuel.Result.{calc_by_type-Agree}

-- What follows the calculation of the choice.
abbrev rest_of : (SymId → M (Unit {0})) → SymId → M (Unit {0})
rest_of k s = do
  modify_flags s (λ f. record f { valid = true })
  z ← get_symbol s
  calc_by_type k s z.type

-- The calculation of the choice.
abbrev of_choice : (SymId → M (Unit {0})) → Symbol → M (Unit {0})
of_choice k y = deref (sym_get_choice_prop y) >>= λ p. calc_if_any k (prop_get_symbol p)

module _ (n lim : ℕ) (calc calc' : SymId → M (Unit {0}))
    (h : (s : SymId) → Agree n lim (calc s) (calc' s)) where
  if_any-Agree : (o : Option SymId) → Agree n lim (calc_if_any calc o) (calc_if_any calc' o)
  if_any-Agree none = pure-Agree tt
  if_any-Agree (some c) = h c

  of_choice-Agree : (y : Symbol) → Agree n lim (of_choice calc y) (of_choice calc' y)
  of_choice-Agree y =
      bind-Agree (deref-Agree (sym_get_choice_prop y)) (λ p. if_any-Agree (prop_get_symbol p))

  -- The choice of a value is calculated once, when the value has lost its flag.
  choice_first-same :
      (s : SymId) (st : Store)
      → IsClosed n st
      → total n st < suc lim
      → calc_choice_first calc s st ≡ calc_choice_first calc' s st
  unfolding calc_choice_first
  choice_first-same s st c l =
      elim (Bool-cases ((st.sym s).flags.choiceval && (st.sym s).flags.need_set_choice_values)) [
        | inl e ↦ rw e (
            let b = set_once-Below s st in
            (of_choice-Agree (st.sym s)).same (update s set_once st)
              (IsClosed-Below n (update s set_once st) st b c)
              (drop_lem n lim s st (update s set_once st) c l b (set_once-lighter s st e)))
        | inr e ↦ rw e refl
      ]

  choice_first-below :
      (s : SymId) (st : Store)
      → IsClosed n st
      → total n st < suc lim
      → Within st (calc_choice_first calc s st)
  unfolding calc_choice_first Within
  choice_first-below s st c l =
      elim (Bool-cases ((st.sym s).flags.choiceval && (st.sym s).flags.need_set_choice_values)) [
        | inl e ↦ rw e (
            let b = set_once-Below s st in
            Within-trans st (update s set_once st)
              (of_choice calc (st.sym s) (update s set_once st)) b
              ((of_choice-Agree (st.sym s)).below (update s set_once st)
                (IsClosed-Below n (update s set_once st) st b c)
                (drop_lem n lim s st (update s set_once st) c l b (set_once-lighter s st e))))
        | inr e ↦ rw e (λ t. omega arith)
      ]

  -- What follows has the symbol valid, and so less to calculate.
  module _ (s : SymId) (st st' : Store) (c : IsClosed n st) (l : total n st < suc lim)
      (b : Below st' st) (e : (st.sym s).flags.valid ≡ false) where
    abbrev valid_now : Store
    valid_now = update s set_valid st'

    abbrev typed-Agree :
        Agree n lim
          (calc_by_type calc s (valid_now.sym s).type)
          (calc_by_type calc' s (valid_now.sym s).type)
    typed-Agree = calc_by_type-Agree n lim calc calc' h s (valid_now.sym s).type

    valid_now-lt : total n valid_now < lim
    valid_now-lt =
        drop_lem n lim s st valid_now c l (set_valid-Below s st st' b)
          (set_valid-lighter s st st' e b)

    valid_now-IsClosed : IsClosed n valid_now
    valid_now-IsClosed = IsClosed-Below n valid_now st (set_valid-Below s st st' b) c

    rest-same : rest_of calc s st' ≡ rest_of calc' s st'
    rest-same = typed-Agree.same valid_now valid_now-IsClosed valid_now-lt

    rest-below : Within st (rest_of calc s st')
    rest-below =
        Within-trans st valid_now (rest_of calc s st') (set_valid-Below s st st' b)
          (typed-Agree.below valid_now valid_now-IsClosed valid_now-lt)

  body_same :
      (s : SymId) (st : Store)
      → IsClosed n st
      → total n st < suc lim
      → calc_body calc s st ≡ calc_body calc' s st
  unfolding calc_body
  body_same s st c l = elim (Bool-cases (st.sym s).flags.valid) [
    | inl e ↦ rw e refl
    | inr e ↦ rw e (
        bind-same st (calc_choice_first calc s st) (λ u. rest_of calc s) (λ u. rest_of calc' s)
          (choice_first-below s st c l) (λ u st' b. rest-same s st st' c l b e)
        ∙ ap (λ o. elim o [ none ↦ none | some (u, st') ↦ rest_of calc' s st' ])
            (choice_first-same s st c l))
  ]

  body_below :
      (s : SymId) (st : Store)
      → IsClosed n st
      → total n st < suc lim
      → Within st (calc_body calc s st)
  unfolding calc_body Within
  body_below s st c l = elim (Bool-cases (st.sym s).flags.valid) [
    | inl e ↦ rw e (λ t. omega arith)
    | inr e ↦ rw e (
        bind-Below st (calc_choice_first calc s st) (λ u. rest_of calc s)
          (choice_first-below s st c l) (λ u st' b. rest-below s st st' c l b e))
  ]

-- `sym_calc_value`, where a call for which no fuel is left does as `spent` says.
unfoldable pub calc_or : (SymId → M (Unit {0})) → ℕ → SymId → M (Unit {0})
unfolding calc_body
calc_or spent zero s = spent s
calc_or spent (suc fuel) s = calc_body (calc_or spent fuel) s

calc_or-Agree :
    (spent : SymId → M (Unit {0})) (n fuel more : ℕ) (s : SymId)
    → fuel ≤ more
    → Agree n fuel (calc_or spent more s) (sym_calc_value fuel s)
unfolding sym_calc_value calc_or
calc_or-Agree spent n zero more s le = record {
  same = λ st c l. absurd (omega (arith, l));
  below = λ st c l. absurd (omega (arith, l));
}
calc_or-Agree spent n (suc fuel) zero s le = absurd (omega (arith, le))
calc_or-Agree spent n (suc fuel) (suc more) s le =
    let inner : (t : SymId) → Agree n fuel (calc_or spent more t) (sym_calc_value fuel t) =
      λ t. calc_or-Agree spent n fuel more t (omega (arith, le)) in
    record {
      same = body_same n fuel (calc_or spent more) (sym_calc_value fuel) inner s;
      below = body_below n fuel (calc_or spent more) (sym_calc_value fuel) inner s;
    }

-- A call without fuel has no result in `sym_calc_value`.
calc_or-none : (fuel : ℕ) (s : SymId) → calc_or (λ t st. none) fuel s ≡ sym_calc_value fuel s
unfolding sym_calc_value calc_or
calc_or-none zero s = refl
calc_or-none (suc fuel) s = ap (λ calc. calc_body calc s) (fun_ext (λ t. calc_or-none fuel t))

-- Where the symbols from `n` on are valid and have no choice values to set, fuel above the number of
-- symbols that are not valid, a symbol that has choice values to set counted for two more, is enough
-- for sym_calc_value: no call runs out of it, since the result is the same whatever a call without
-- fuel would do, and it is the same with more fuel. So a result that is missing is a null pointer that
-- was followed.
pub sym_calc_value-enough :
    (n fuel more : ℕ) (s : SymId) (st : Store)
    → IsClosed n st
    → total n st < fuel
    → fuel ≤ more
    → ((spent : SymId → M (Unit {0})) → calc_or spent more s st ≡ sym_calc_value fuel s st)
      × (sym_calc_value more s st ≡ sym_calc_value fuel s st)
sym_calc_value-enough n fuel more s st c l le =
    let same : (spent : SymId → M (Unit {0})) → calc_or spent more s st ≡ sym_calc_value fuel s st =
      λ spent. (calc_or-Agree spent n fuel more s le).same st c l in
    (same, rw (calc_or-none more s) at (same (λ t st. none)))

-- Under the conditions of the fuel, a symbol that is valid and has no choice values to set is still
-- so after sym_calc_value of any symbol.
pub sym_calc_value-keeps_valid :
    (n fuel : ℕ) (s t : SymId) (st st' : Store)
    → IsClosed n st
    → total n st < fuel
    → sym_calc_value fuel s st ≡ some (tt, st')
    → (st.sym t).flags.valid ≡ true
    → (st.sym t).flags.need_set_choice_values ≡ false
    → ((st'.sym t).flags.valid ≡ true) × ((st'.sym t).flags.need_set_choice_values ≡ false)
unfolding Within
sym_calc_value-keeps_valid n fuel s t st st' c l e v w =
    let below : Within st (some (tt, st')) =
      let agree = calc_or-Agree (λ t st. none) n fuel fuel s (omega arith) in
      subst (Within st) (agree.same st c l ∙ e) (agree.below st c l) in
    still (st.sym t) (st'.sym t) (below t) v w
  where
    still :
        (y y' : Symbol)
        → weight y' ≤ weight y
        → y.flags.valid ≡ true
        → y.flags.need_set_choice_values ≡ false
        → (y'.flags.valid ≡ true) × (y'.flags.need_set_choice_values ≡ false)
    still y y' k v w = ground (arith, k, v, w)
