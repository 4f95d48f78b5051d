-- ===== src/Symbol/Assign.antt =====
-- scripts/kconfig/symbol.c: the values that a user may give to a symbol, and how they are stored.
-- `fuel` is that of `sym_calc_value`.
pub mod Toggle
use Prim.Native.Nat.{Ordering}
use kdevops.Prelude.{
  ℕ, zero, suc, Bool, true, false, not, ◌&&◌, ◌||◌, Option, none, some, List, [], ◌∷◌, ◌++◌, ◌==◌,
  if◌then◌else◌, Bytes, codes,
}
use kdevops.Libc.{isdigit, isxdigit, strcmp, strtoll, compare_signed}
use kdevops.Tristate.{Tristate, tri_no, tri_mod, tri_yes, rank, tri_eq, tri_lt, expr_and, expr_or}
use kdevops.Expr.{SymId, symbol_no}
use kdevops.Symbol.{
  SymbolType, s_unknown, s_boolean, s_tristate, s_int, s_hex, s_string, Payload, null, text, chosen,
  SymbolValue, Symbol, Property, Store, sym_get_tristate_value,
}
use kdevops.Symbol.Calculate.{sym_calc_value, sym_clear_all_valid}
use kdevops.Symbol.NewValue.{is_logical}
use kdevops.Symbol.Compare.{payload_text, is_lt, is_gt}
use kdevops.Symbol.Evaluate.{prop_calc_value, sym_get_default_prop, sym_get_range_prop}
use kdevops.Symbol.Properties.{
  is_boolean_type, prop_get_symbol, sym_get_choice_prop, choice_of, choice_values, range_bounds,
  sym_tristate_within_range,
}
use kdevops.Symbol.Range.{sym_get_range_val}
use kdevops.Symbol.State.{
  M, ◌>>=◌, ◌>>◌, pure, skip, deref, when, get_symbol, get_modules_sym, modify, modify_flags,
  sym_set_changed, for_each,
}
use kdevops.Symbol.Visibility.{sym_calc_visibility}

-- The flag is set once, and with it the mark of a change.
unfoldable pub set_def_user : SymId → M (Unit {0})
unfolding sym_set_changed
set_def_user s = do
  y ← get_symbol s
  when (not y.flags.def_user)
      (modify_flags s (λ f. record f { def_user = true }) >> sym_set_changed s)

-- A value of a choice that is visible is no longer new.
mark_visible : SymId → M (Unit {0})
unfolding rank
mark_visible v = do
  y ← get_symbol v
  when (not (tri_eq y.visible tri_no)) (modify_flags v (λ f. record f { def_user = true }))

-- What setting a choice value to `y` does to its choice and to the other values.
unfoldable pub choose : SymId → M (Unit {0})
unfolding mark_visible for_each choice_of sym_get_choice_prop choice_values
choose s = do
  y ← get_symbol s
  c ← deref (choice_of y)
  modify c (λ x. record x { def_value = record { val = chosen s; tri = x.def_value.tri } })
  modify_flags c (λ f. record f { def_user = true })
  x ← get_symbol c
  p ← deref (sym_get_choice_prop x)
  for_each mark_visible (choice_values p)

-- The part behind the test of the range.
unfoldable pub store_tristate : ℕ → SymId → Tristate → M (Unit {0})
unfolding set_def_user choose sym_clear_all_valid rank
store_tristate fuel s val = do
  y ← get_symbol s
  set_def_user s
  when (y.flags.choiceval && tri_eq val tri_yes) (choose s)
  modify s (λ x. record x { def_value = record { val = x.def_value.val; tri = val } })
  when (not (tri_eq y.curr.tri val)) (sym_clear_all_valid fuel)

unfoldable pub sym_set_tristate_value : ℕ → SymId → Tristate → M Bool
unfolding store_tristate sym_tristate_within_range rank
sym_set_tristate_value fuel s val st =
    if not (tri_eq (sym_get_tristate_value st s) val) && not (sym_tristate_within_range st s val)
    then some (false, st)
    else (store_tristate fuel s val >> pure true) st

unfoldable pub next_tristate : Tristate → Tristate
next_tristate tri_no = tri_mod
next_tristate tri_mod = tri_yes
next_tristate tri_yes = tri_no

-- The loop, with a bound on its rounds.
unfoldable pub toggle_from : ℕ → ℕ → SymId → Tristate → Tristate → M Tristate
unfolding sym_set_tristate_value next_tristate rank
toggle_from zero fuel s oldval newval st = none
toggle_from (suc rounds) fuel s oldval newval st =
    let rest = toggle_from rounds fuel s oldval (next_tristate newval) in
    (sym_set_tristate_value fuel s (next_tristate newval) >>= λ done.
    if done || tri_eq oldval (next_tristate newval) then pure (next_tristate newval) else rest)
      st

-- Three rounds lead back to the old value.
unfoldable pub sym_toggle_tristate_value : ℕ → SymId → M Tristate
unfolding toggle_from
sym_toggle_tristate_value fuel s st =
    toggle_from 3 fuel s (sym_get_tristate_value st s) (sym_get_tristate_value st s) st
