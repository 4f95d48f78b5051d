-- ===== src/Symbol/Fuel/Value.antt =====
-- scripts/kconfig/symbol.c: the new value of a symbol, with two calculations of symbols that agree.
use kdevops.Prelude.{ℕ, true, not, ◌&&◌, ◌||◌, Option, none, some, [], if◌then◌else◌, arith}
use kdevops.Tristate.{Tristate, tri_no, tri_yes, tri_eq, expr_and, expr_or}
use kdevops.Expr.{SymId}
use kdevops.Symbol.{text, Property, SymbolValue}
use kdevops.Symbol.Properties.{is_boolean_type, prop_get_symbol, choice_of, sym_get_type}
use kdevops.Symbol.NewValue.{
  set_write, is_logical, imply_value, is_chosen, default_value, unset_value, calc_tristate,
  default_text, default_payload, calc_text, calc_newval,
}
use kdevops.Symbol.State.{M}
use kdevops.Symbol.Visibility.{promote}
use kdevops.Symbol.Fuel.Agree.{
  Agree, bind-Agree, if-Agree, pure-Agree, when-Agree, deref-Agree, gets-Agree, get_symbol-Agree,
  modify_flags-Agree,
}
use kdevops.Symbol.Fuel.Evaluate.{prop_calc_value-Agree, sym_get_default_prop-Agree}

pub set_write-Agree : {n lim : ℕ} (s : SymId) → Agree n lim (set_write s) (set_write s)
set_write-Agree s = modify_flags-Agree s (λ f. record f { write = true }) (λ y. omega arith)

module _ (n lim : ℕ) (calc calc' : SymId → M (Unit {0}))
    (h : (s : SymId) → Agree n lim (calc s) (calc' s)) where
  default_value-Agree :
      (found : Option (Property × Tristate))
      → Agree n lim (default_value calc found) (default_value calc' found)
  unfolding default_value
  default_value-Agree none = pure-Agree tri_no
  default_value-Agree (some (p, visible)) =
      bind-Agree (prop_calc_value-Agree n lim calc calc' h p.expr)
        (λ v. pure-Agree (expr_and v visible))

  unset_value-Agree : (s : SymId) → Agree n lim (unset_value calc s) (unset_value calc' s)
  unfolding unset_value
  unset_value-Agree s = bind-Agree (get_symbol-Agree s) (λ y.
      bind-Agree (when-Agree (not (tri_eq y.rev_dep.tri tri_no)) (set_write-Agree s)) (λ u.
        if-Agree y.flags.choice (pure-Agree tri_no) (
          bind-Agree (sym_get_default_prop-Agree n lim calc calc' h s) (λ found.
            bind-Agree (default_value-Agree found) (λ v. bind-Agree (get_symbol-Agree s) (λ z.
              bind-Agree
                (when-Agree (not (tri_eq v tri_no) || not (tri_eq z.implied.tri tri_no))
                  (set_write-Agree s))
                (λ u. pure-Agree (imply_value z.implied.tri z.dir_dep.tri v))))))))

  calc_tristate-Agree : (s : SymId) → Agree n lim (calc_tristate calc s) (calc_tristate calc' s)
  unfolding calc_tristate
  calc_tristate-Agree s = bind-Agree (get_symbol-Agree s) (λ y.
      if-Agree (y.flags.choiceval && tri_eq y.visible tri_yes)
        (bind-Agree (deref-Agree (choice_of y)) (λ c.
          bind-Agree (get_symbol-Agree c)
            (λ x. pure-Agree (if is_chosen s x.curr.val then tri_yes else tri_no))))
        (bind-Agree
          (if-Agree (not (tri_eq y.visible tri_no) && y.flags.def_user)
            (pure-Agree (expr_and y.def_value.tri y.visible)) (unset_value-Agree s))
          (λ v. bind-Agree (get_symbol-Agree s) (λ z. pure-Agree (expr_or v z.rev_dep.tri)))))

  default_text-Agree :
      (s : SymId) (o : Option SymId) → Agree n lim (default_text calc s o) (default_text calc' s o)
  unfolding default_text
  default_text-Agree s none = pure-Agree (text [])
  default_text-Agree s (some d) =
      bind-Agree (set_write-Agree s)
        (λ u. bind-Agree (h d) (λ u. bind-Agree (get_symbol-Agree d) (λ y. pure-Agree y.curr.val)))

  default_payload-Agree :
      (s : SymId) (found : Option (Property × Tristate))
      → Agree n lim (default_payload calc s found) (default_payload calc' s found)
  unfolding default_payload
  default_payload-Agree s none = pure-Agree (text [])
  default_payload-Agree s (some (p, visible)) = default_text-Agree s (prop_get_symbol p)

  calc_text-Agree : (s : SymId) → Agree n lim (calc_text calc s) (calc_text calc' s)
  unfolding calc_text
  calc_text-Agree s = bind-Agree (get_symbol-Agree s) (λ y.
      if-Agree (not (tri_eq y.visible tri_no) && y.flags.def_user) (pure-Agree y.def_value.val)
        (bind-Agree (sym_get_default_prop-Agree n lim calc calc' h s) (default_payload-Agree s)))

  pub calc_newval-Agree :
      (s : SymId) (init : SymbolValue)
      → Agree n lim (calc_newval calc s init) (calc_newval calc' s init)
  unfolding calc_newval
  calc_newval-Agree s init = bind-Agree (gets-Agree (λ st. sym_get_type st s)) (λ type.
      if-Agree (is_logical type)
        (bind-Agree (calc_tristate-Agree s) (λ v.
          bind-Agree (gets-Agree (λ st. sym_get_type st s)) (λ type'.
            let value : SymbolValue = record {
              val = init.val;
              tri = promote (is_boolean_type type') v;
            } in
            pure-Agree value)))
        (bind-Agree (calc_text-Agree s)
          (λ v. let value : SymbolValue = record { val = v; tri = init.tri } in pure-Agree value)))
