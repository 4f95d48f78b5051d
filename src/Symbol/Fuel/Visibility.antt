-- ===== src/Symbol/Fuel/Visibility.antt =====
-- scripts/kconfig/symbol.c: `sym_calc_visibility` and `sym_calc_choice`, with two calculations of
-- symbols that agree.
use kdevops.Prelude.{
  ℕ, suc, Bool, not, ◌&&◌, ◌||◌, Option, none, some, List, [], ◌∷◌, if◌then◌else◌, arith,
}
use kdevops.Tristate.{Tristate, tri_no, tri_eq, expr_or}
use kdevops.Expr.{SymId, Expr}
use kdevops.Symbol.{Payload, null, text, chosen, Property}
use kdevops.Symbol.Properties.{
  is_default, is_boolean_type, is_tristate_type, sym_get_choice_prop, prop_get_symbol,
  choice_values, choice_of, sym_get_type,
}
use kdevops.Symbol.State.{M, modify}
use kdevops.Symbol.Visibility.{
  Slot, dir_dep, rev_dep, implied, slot_of, with_slot, slot_default, promote, hide_in_choice,
  choice_tri, calc_prompts, calc_slot_expr, calc_slot, sym_calc_visibility, first_visible_symbol,
  visible_or, choice_default_prop, sym_choice_default, calc_values, chosen_visible, reset_if_none,
  sym_calc_choice,
}
use kdevops.Symbol.Fuel.Agree.{
  Agree, bind-Agree, if-Agree, option-Agree, pure-Agree, when-Agree, deref-Agree, gets-Agree,
  get_symbol-Agree, modify-Agree, modify_flags-Agree, set_prop_visible-Agree, sym_set_changed-Agree,
}
use kdevops.Symbol.Fuel.Evaluate.{expr_calc_value-Agree, expr_calc_value?-Agree}

module _ {n lim : ℕ} where
  choice_tri-Agree : (c : Option SymId) → Agree n lim (choice_tri c) (choice_tri c)
  unfolding choice_tri
  choice_tri-Agree none = pure-Agree none
  choice_tri-Agree (some c) = bind-Agree (get_symbol-Agree c) (λ y. pure-Agree (some y.curr.tri))

  with_slot-Agree :
      (k : Slot) (t : Tristate) (s : SymId)
      → Agree n lim (modify s (with_slot k t)) (modify s (with_slot k t))
  with_slot-Agree dir_dep t s = modify-Agree s (with_slot dir_dep t) (λ y. omega arith)
  with_slot-Agree rev_dep t s = modify-Agree s (with_slot rev_dep t) (λ y. omega arith)
  with_slot-Agree implied t s = modify-Agree s (with_slot implied t) (λ y. omega arith)

module _ (n lim : ℕ) (calc calc' : SymId → M (Unit {0}))
    (h : (s : SymId) → Agree n lim (calc s) (calc' s)) where
  first_visible_symbol-Agree :
      (ss : List SymId) → Agree n lim (first_visible_symbol calc ss) (first_visible_symbol calc' ss)
  unfolding first_visible_symbol
  first_visible_symbol-Agree [] = pure-Agree none
  first_visible_symbol-Agree (s ∷ ss) = bind-Agree (get_symbol-Agree s) (λ y.
      if-Agree (not (tri_eq y.visible tri_no)) (pure-Agree (some s))
        (first_visible_symbol-Agree ss))

  visible_or-Agree :
      (m m' : M (Option SymId)) (o : Option SymId)
      → Agree n lim m m'
      → Agree n lim (visible_or calc m o) (visible_or calc' m' o)
  unfolding visible_or
  visible_or-Agree m m' o h = bind-Agree (deref-Agree o) (λ d.
      bind-Agree (get_symbol-Agree d)
        (λ y. if-Agree (not (tri_eq y.visible tri_no)) (pure-Agree (some d)) h))

  chosen_visible-Agree :
      (v : Payload) → Agree n lim (chosen_visible calc v) (chosen_visible calc' v)
  unfolding chosen_visible
  chosen_visible-Agree null = pure-Agree none
  chosen_visible-Agree (text t) = pure-Agree none
  chosen_visible-Agree (chosen d) =
      bind-Agree (get_symbol-Agree d)
        (λ y. pure-Agree (if not (tri_eq y.visible tri_no) then some d else none))

  reset_if_none-Agree :
      (s : SymId) (d : Option SymId)
      → Agree n lim (reset_if_none calc s d) (reset_if_none calc' s d)
  unfolding reset_if_none
  reset_if_none-Agree s none =
      modify-Agree s (λ y. record y { curr = record { val = y.curr.val; tri = tri_no } })
        (λ y. omega arith)
  reset_if_none-Agree s (some d) = pure-Agree tt

  calc_prompts-Agree :
      (s : SymId) (c : Option SymId) (i : ℕ) (ps : List Property) (tri : Tristate)
      → Agree n lim (calc_prompts calc s c i ps tri) (calc_prompts calc' s c i ps tri)
  unfolding calc_prompts
  calc_prompts-Agree s c i [] tri = pure-Agree tri
  calc_prompts-Agree s c i (p ∷ ps) tri =
      let rest = calc_prompts-Agree s c (suc i) ps in
      option-Agree p.text (rest tri) (λ title.
        bind-Agree (expr_calc_value?-Agree n lim calc calc' h p.visible.expr) (λ v.
          bind-Agree (get_symbol-Agree s) (λ y. bind-Agree (choice_tri-Agree c) (λ t.
            bind-Agree (set_prop_visible-Agree s i (hide_in_choice y t v))
              (λ u. rest (expr_or tri (hide_in_choice y t v)))))))

  calc_slot_expr-Agree :
      (k : Slot) (e : Option Expr)
      → Agree n lim (calc_slot_expr calc k e) (calc_slot_expr calc' k e)
  unfolding calc_slot_expr
  calc_slot_expr-Agree k none = pure-Agree (slot_default k)
  calc_slot_expr-Agree k (some e) = expr_calc_value-Agree n lim calc calc' h e

  calc_slot-Agree : (k : Slot) (s : SymId) → Agree n lim (calc_slot calc k s) (calc_slot calc' k s)
  unfolding calc_slot
  calc_slot-Agree k s = bind-Agree (get_symbol-Agree s) (λ y.
      bind-Agree (calc_slot_expr-Agree k (slot_of k y).expr) (λ v.
        bind-Agree (gets-Agree (λ st. sym_get_type st s)) (λ type.
          bind-Agree (get_symbol-Agree s) (λ z.
            let tri = promote (is_boolean_type type) v in
            when-Agree (not (tri_eq (slot_of k z).tri tri))
              (bind-Agree (with_slot-Agree k tri s) (λ u. sym_set_changed-Agree s))))))

  pub sym_calc_visibility-Agree :
      (s : SymId) → Agree n lim (sym_calc_visibility calc s) (sym_calc_visibility calc' s)
  unfolding sym_calc_visibility
  sym_calc_visibility-Agree s = bind-Agree (get_symbol-Agree s) (λ y.
      bind-Agree
        (calc_prompts-Agree s (if y.flags.choiceval then choice_of y else none) 0 y.prop tri_no)
        (λ v. bind-Agree (gets-Agree (λ st. st.modules_val)) (λ modules.
          bind-Agree (get_symbol-Agree s) (λ z.
            let tri = promote (not (is_tristate_type z.type) || tri_eq modules tri_no) v in
            bind-Agree
              (when-Agree (not (tri_eq z.visible tri)) (
                bind-Agree (modify-Agree s (λ x. record x { visible = tri }) (λ x. omega arith))
                  (λ u. sym_set_changed-Agree s)))
              (λ u. when-Agree (not y.flags.choiceval) (
                bind-Agree (bind-Agree (calc_slot-Agree dir_dep s) (λ u. calc_slot-Agree rev_dep s))
                  (λ u. calc_slot-Agree implied s)))))))

  choice_default_prop-Agree :
      (s : SymId) (i : ℕ) (ps : List Property)
      → Agree n lim (choice_default_prop calc s i ps) (choice_default_prop calc' s i ps)
  unfolding choice_default_prop
  choice_default_prop-Agree s i [] = pure-Agree none
  choice_default_prop-Agree s i (p ∷ ps) =
      let rest = choice_default_prop-Agree s (suc i) ps in
      if-Agree (is_default p.type)
        (bind-Agree (expr_calc_value?-Agree n lim calc calc' h p.visible.expr) (λ tri.
          bind-Agree (set_prop_visible-Agree s i tri) (λ u.
            if-Agree (tri_eq tri tri_no) rest (visible_or-Agree _ _ (prop_get_symbol p) rest))))
        rest

  sym_choice_default-Agree :
      (s : SymId) → Agree n lim (sym_choice_default calc s) (sym_choice_default calc' s)
  unfolding sym_choice_default
  sym_choice_default-Agree s = bind-Agree (get_symbol-Agree s) (λ y.
      bind-Agree (choice_default_prop-Agree s 0 y.prop) (λ d.
        option-Agree d
          (bind-Agree (deref-Agree (sym_get_choice_prop y))
            (λ p. first_visible_symbol-Agree (choice_values p)))
          (λ x. pure-Agree (some x))))

  calc_values-Agree :
      (user : Bool) (ss : List SymId)
      → Agree n lim (calc_values calc user ss) (calc_values calc' user ss)
  unfolding calc_values
  calc_values-Agree user [] = pure-Agree user
  calc_values-Agree user (s ∷ ss) = bind-Agree (sym_calc_visibility-Agree s) (λ u.
      bind-Agree (get_symbol-Agree s) (λ y.
        calc_values-Agree (if not (tri_eq y.visible tri_no) then user && y.flags.def_user else user)
          ss))

  pub sym_calc_choice-Agree :
      (s : SymId) → Agree n lim (sym_calc_choice calc s) (sym_calc_choice calc' s)
  unfolding sym_calc_choice
  sym_calc_choice-Agree s = bind-Agree (get_symbol-Agree s) (λ y.
      bind-Agree (deref-Agree (sym_get_choice_prop y)) (λ p.
        bind-Agree (calc_values-Agree y.flags.def_user (choice_values p)) (λ user.
          bind-Agree
            (modify_flags-Agree s (λ f. record f { def_user = f.def_user && user })
              (λ y. omega arith))
            (λ u. bind-Agree (get_symbol-Agree s) (λ z.
              bind-Agree (chosen_visible-Agree z.def_value.val) (λ d.
                option-Agree d
                  (bind-Agree (sym_choice_default-Agree s)
                    (λ x. bind-Agree (reset_if_none-Agree s x) (λ u. pure-Agree x)))
                  (λ x. pure-Agree (some x))))))))
