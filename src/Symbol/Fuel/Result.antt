-- ===== src/Symbol/Fuel/Result.antt =====
-- scripts/kconfig/symbol.c: the last part of `sym_calc_value`, with two calculations of symbols that
-- agree.
use mathlib.Core.Path.{subst}
use kdevops.Prelude.{
  ℕ, ◌≤◌, ◌<◌, ◌≡◌, refl, Bool, true, false, not, ◌&&◌, Option, none, some, ◌==◌, if◌then◌else◌,
  arith, Bool-cases, inl, inr,
}
use kdevops.Tristate.{tri_no, tri_yes, tri_eq}
use kdevops.Expr.{SymId}
use kdevops.Symbol.{
  SymbolType, s_unknown, s_boolean, s_tristate, s_int, s_hex, s_string, SymbolValue, Symbol, Store,
  Property, Flags, sym_get_tristate_value,
}
use kdevops.Symbol.Calculate.{
  same_value, initial_value, choice_payload, calc_choice, note_change, pass_on, set_unassigned,
  set_all_choice_values, finish_value, calc_typed, name_payload, calc_by_type,
}
use kdevops.Symbol.Properties.{sym_get_choice_prop, choice_values}
use kdevops.Symbol.State.{M, ◌>>=◌, ◌>>◌, deref, get_symbol, when, update, modify_flags, for_each}
use kdevops.Symbol.Fuel.{weight, Below, total, IsClosed}
use kdevops.Symbol.Fuel.Agree.{
  gets-Agree, Within, bind-Below, Agree, bind-Agree, when-Agree, deref-Agree, get_symbol-Agree,
  modify-Agree, modify_flags-Agree, for_each-Agree, step-Agree, at-Agree, sym_set_changed-Agree,
  sym_set_all_changed-Agree,
}
use kdevops.Symbol.Fuel.Range.{sym_validate_range-Agree}
use kdevops.Symbol.Fuel.Value.{set_write-Agree, calc_newval-Agree}
use kdevops.Symbol.Fuel.Visibility.{sym_calc_visibility-Agree, sym_calc_choice-Agree}

-- The flags that `set_all_choice_values` leaves.
abbrev user_set : Flags → Flags
user_set f = record f { def_user = true; valid = false; need_set_choice_values = false }

user_set-Below :
    (s : SymId) (st st' : Store)
    → (st.sym s).flags.need_set_choice_values ≡ true
    → Below st' st
    → Below (update s (λ y. record y { flags = user_set y.flags }) st') st
user_set-Below s st st' e h t = elim (Bool-cases (t == s)) [
  | inl at ↦
      rw at (
        needed (st.sym t) (subst (λ i. (st.sym i).flags.need_set_choice_values ≡ true) (eq s at) e))
  | inr at ↦ rw at (h t)
]
  where
    eq : (s : SymId) → (t == s) ≡ true → s ≡ t
    eq s at = ground (arith, at)

    needed : (y : Symbol) → y.flags.need_set_choice_values ≡ true → 1 ≤ weight y
    needed y e = rw e (omega arith)

module _ (n lim : ℕ) (calc calc' : SymId → M (Unit {0}))
    (h : (s : SymId) → Agree n lim (calc s) (calc' s)) where
  set_unassigned-Agree : (s : SymId) → Agree n lim (set_unassigned calc s) (set_unassigned calc' s)
  unfolding set_unassigned
  set_unassigned-Agree s =
      modify-Agree s
        (λ y.
          if y.flags.def_user
          then y
          else record y { def_value = record { val = y.def_value.val; tri = tri_no } })
        (λ y. ground arith)

  -- The values are set only where the choice had the flag, which is one that weighs.
  set_all-Within :
      (s : SymId) (o : Option Property) (st : Store)
      → IsClosed n st
      → total n st < lim
      → (st.sym s).flags.need_set_choice_values ≡ true
      → Within st (
          (deref o >>= λ p.
          for_each (set_unassigned calc) (choice_values p) >> modify_flags s user_set)
            st)
  unfolding Within
  set_all-Within s none st c l e = tt
  set_all-Within s (some p) st c l e =
      bind-Below st (for_each (set_unassigned calc) (choice_values p) st)
        (λ u. modify_flags s user_set)
        ((for_each-Agree _ _ set_unassigned-Agree (choice_values p)).below st c l)
        (λ u st' b. user_set-Below s st st' e b)

  set_needed-Within :
      (s : SymId) (st : Store) (b : Bool)
      → (st.sym s).flags.need_set_choice_values ≡ b
      → IsClosed n st
      → total n st < lim
      → Within st (when b (set_all_choice_values calc s) st)
  unfolding set_all_choice_values Within
  set_needed-Within s st true e c l = set_all-Within s (sym_get_choice_prop (st.sym s)) st c l e
  set_needed-Within s st false e c l = λ t. omega arith

  set_needed-Agree :
      (s : SymId)
      → Agree n lim
          (get_symbol s >>= λ x. when x.flags.need_set_choice_values (set_all_choice_values calc s))
          (get_symbol s >>= λ x.
            when x.flags.need_set_choice_values (set_all_choice_values calc' s))
  unfolding set_all_choice_values set_unassigned
  set_needed-Agree s = record {
    same = λ st c l. refl;
    below = λ st c l. set_needed-Within s st (st.sym s).flags.need_set_choice_values refl c l;
  }

  calc_choice-Agree : (s : SymId) → Agree n lim (calc_choice calc s) (calc_choice calc' s)
  unfolding calc_choice
  calc_choice-Agree s = bind-Agree (sym_calc_choice-Agree n lim calc calc' h s) (λ d.
      modify-Agree s
        (λ y. record y { curr = record { val = choice_payload calc d; tri = y.curr.tri } })
        (λ y. omega arith))

  note_change-Agree :
      (s : SymId) (old : SymbolValue)
      → Agree n lim (note_change calc s old) (note_change calc' s old)
  unfolding note_change
  note_change-Agree s old = bind-Agree (get_symbol-Agree s) (λ y.
      bind-Agree (gets-Agree (λ st. st.kept_text s)) (λ kept.
        when-Agree (not (same_value kept old y.curr)) (
          bind-Agree (sym_set_changed-Agree s) (λ u. at-Agree (λ st.
            when-Agree (st.modules_sym == s) (
              bind-Agree sym_set_all_changed-Agree (λ u.
                step-Agree
                  (λ st. record st { modules_val = sym_get_tristate_value st st.modules_sym })
                  (λ st t. omega arith))))))))

  pass_on-Agree : (s d : SymId) → Agree n lim (pass_on calc s d) (pass_on calc' s d)
  unfolding pass_on
  pass_on-Agree s d = bind-Agree (get_symbol-Agree s) (λ y. bind-Agree (get_symbol-Agree d) (λ x.
      bind-Agree (when-Agree (y.flags.write && not (tri_eq x.visible tri_no)) (set_write-Agree d))
        (λ u. when-Agree y.flags.changed (sym_set_changed-Agree d))))

  finish_value-Agree :
      (s : SymId) (old new : SymbolValue)
      → Agree n lim (finish_value calc s old new) (finish_value calc' s old new)
  unfolding finish_value
  finish_value-Agree s old new =
      bind-Agree (modify-Agree s (λ y. record y { curr = new }) (λ y. omega arith)) (λ u.
        bind-Agree (get_symbol-Agree s) (λ y.
          bind-Agree (when-Agree (y.flags.choice && tri_eq new.tri tri_yes) (calc_choice-Agree s))
            (λ u. bind-Agree (sym_validate_range-Agree n lim calc calc' h s) (λ u.
              bind-Agree (note_change-Agree s old) (λ u. bind-Agree (get_symbol-Agree s) (λ z.
                bind-Agree
                  (when-Agree z.flags.choice (
                    bind-Agree (deref-Agree (sym_get_choice_prop z)) (λ p.
                      for_each-Agree (pass_on calc s) (pass_on calc' s) (pass_on-Agree s)
                        (choice_values p))))
                  (λ u.
                    bind-Agree
                      (modify_flags-Agree s (λ f. record f { write = f.write && not f.no_write })
                        (λ y. omega arith))
                      (λ u. set_needed-Agree s))))))))

  calc_typed-Agree : (s : SymId) → Agree n lim (calc_typed calc s) (calc_typed calc' s)
  unfolding calc_typed
  calc_typed-Agree s = bind-Agree (get_symbol-Agree s) (λ y.
      bind-Agree (modify_flags-Agree s (λ f. record f { write = false }) (λ y. omega arith)) (λ u.
        bind-Agree (sym_calc_visibility-Agree n lim calc calc' h s) (λ u.
          bind-Agree (get_symbol-Agree s) (λ z.
            bind-Agree (when-Agree (not (tri_eq z.visible tri_no)) (set_write-Agree s)) (λ u.
              bind-Agree
                (modify-Agree s (λ x. record x { curr = initial_value calc y.type })
                  (λ x. omega arith))
                (λ u.
                  bind-Agree (calc_newval-Agree n lim calc calc' h s (initial_value calc y.type))
                    (finish_value-Agree s y.curr)))))))

  pub calc_by_type-Agree :
      (s : SymId) (type : SymbolType)
      → Agree n lim (calc_by_type calc s type) (calc_by_type calc' s type)
  unfolding calc_by_type
  calc_by_type-Agree s s_unknown =
      modify-Agree s
        (λ y. record y { curr = record { val = name_payload calc y.name; tri = tri_no } })
        (λ y. omega arith)
  calc_by_type-Agree s s_boolean = calc_typed-Agree s
  calc_by_type-Agree s s_tristate = calc_typed-Agree s
  calc_by_type-Agree s s_int = calc_typed-Agree s
  calc_by_type-Agree s s_hex = calc_typed-Agree s
  calc_by_type-Agree s s_string = calc_typed-Agree s
