-- ===== src/Symbol/Calculate.antt =====
-- scripts/kconfig/symbol.c: `sym_calc_value`. `calc` is the function itself; the knot is tied with
-- fuel at the end. The warning about unmet dependencies is output, and is left out.
pub mod Valid
use kdevops.Prelude.{
  ℕ, zero, suc, Bool, true, false, not, ◌&&◌, ◌||◌, Option, none, some, List, [], ◌∷◌, ◌==◌,
  if◌then◌else◌, Bytes, codes,
}
use Prim.Native.Nat.{Ordering}
use kdevops.Libc.{strcmp}
use kdevops.Tristate.{Tristate, tri_no, tri_mod, tri_yes, rank, tri_eq, expr_and, expr_or}
use kdevops.Expr.{SymId}
use kdevops.Symbol.{
  SymbolType, s_unknown, s_boolean, s_tristate, s_int, s_hex, s_string, Payload, null, text, chosen,
  SymbolValue, Symbol, Property, Store, sym_get_tristate_value,
}
use kdevops.Symbol.Evaluate.{prop_calc_value, sym_get_default_prop}
use kdevops.Symbol.Properties.{
  is_boolean_type, is_tristate_type, sym_get_choice_prop, prop_get_symbol, choice_values, choice_of,
  type_with, sym_get_type,
}
use kdevops.Symbol.Range.{sym_validate_range}
use kdevops.Symbol.State.{
  M, ◌>>=◌, ◌>>◌, pure, skip, deref, when, get_symbol, get_kept_text, modify, modify_flags,
  set_curr, sym_set_changed, sym_set_all_changed, for_each,
}
use kdevops.Symbol.Visibility.{promote, sym_calc_visibility, sym_calc_choice}
use kdevops.Symbol.NewValue.{set_write, is_logical, calc_newval}

-- Texts at one address are the same text.
payload_eq : Bool → Payload → Payload → Bool
unfolding strcmp
payload_eq kept null null = true
payload_eq kept (text a) (text b) = kept && elim (strcmp a b) [ Ordering.eq ↦ true | _ ↦ false ]
payload_eq kept (chosen a) (chosen b) = a == b
payload_eq kept _ _ = false

-- `memcmp` of the value before a calculation and the one after it, which compares addresses: `kept` says
-- whether a text that is the same stands where it stood.
unfoldable pub same_value : Bool → SymbolValue → SymbolValue → Bool
unfolding payload_eq rank
same_value kept a b = payload_eq kept a.val b.val && tri_eq a.tri b.tri

module _ (calc : SymId → M (Unit {0})) where
  -- The value before the calculation, by the declared type.
  pub initial_value : SymbolType → SymbolValue
  initial_value s_int = record { val = text []; tri = tri_no }
  initial_value s_hex = record { val = text []; tri = tri_no }
  initial_value s_string = record { val = text []; tri = tri_no }
  initial_value _ = record { val = text (codes "n"); tri = tri_no }

  pub choice_payload : Option SymId → Payload
  choice_payload none = null
  choice_payload (some d) = chosen d

  -- `sym->curr.val = sym_calc_choice(sym)`
  unfoldable pub calc_choice : SymId → M (Unit {0})
  unfolding choice_payload sym_calc_choice
  calc_choice s = do
    d ← sym_calc_choice calc s
    modify s (λ y. record y { curr = record { val = choice_payload d; tri = y.curr.tri } })

  -- A new value marks the symbol, and all symbols where it enables modules.
  unfoldable pub note_change : SymId → SymbolValue → M (Unit {0})
  unfolding same_value sym_set_changed sym_set_all_changed
  note_change s old = do
    y ← get_symbol s
    kept ← get_kept_text s
    when (not (same_value kept old y.curr)) (do
      sym_set_changed s
      λ st.
          when (st.modules_sym == s)
            (sym_set_all_changed >> λ st.
              some (tt, record st { modules_val = sym_get_tristate_value st st.modules_sym }))
            st)

  -- What a choice passes on to one of its values.
  unfoldable pub pass_on : SymId → SymId → M (Unit {0})
  unfolding sym_set_changed rank
  pass_on s d = do
    y ← get_symbol s
    x ← get_symbol d
    when (y.flags.write && not (tri_eq x.visible tri_no)) (set_write d)
    when y.flags.changed (sym_set_changed d)

  -- confdata.c
  unfoldable pub set_unassigned : SymId → M (Unit {0})
  set_unassigned s = modify s (λ y.
      if y.flags.def_user
      then y
      else record y { def_value = record { val = y.def_value.val; tri = tri_no } })

  unfoldable pub set_all_choice_values : SymId → M (Unit {0})
  unfolding set_unassigned for_each sym_get_choice_prop choice_values
  set_all_choice_values s = do
    y ← get_symbol s
    p ← deref (sym_get_choice_prop y)
    for_each set_unassigned (choice_values p)
    modify_flags s
        (λ f. record f { def_user = true; valid = false; need_set_choice_values = false })

  -- The part behind the new value.
  unfoldable pub finish_value : SymId → SymbolValue → SymbolValue → M (Unit {0})
  unfolding calc_choice sym_validate_range note_change pass_on for_each sym_get_choice_prop
      choice_values set_all_choice_values rank
  finish_value s old new = do
    set_curr s new
    y ← get_symbol s
    when (y.flags.choice && tri_eq new.tri tri_yes) (calc_choice s)
    sym_validate_range calc s
    note_change s old
    z ← get_symbol s
    when z.flags.choice
        (do p ← deref (sym_get_choice_prop z); for_each (pass_on s) (choice_values p))
    modify_flags s (λ f. record f { write = f.write && not f.no_write })
    x ← get_symbol s
    when x.flags.need_set_choice_values (set_all_choice_values s)

  -- The part behind the flag SYMBOL_VALID, for a symbol with a type.
  unfoldable pub calc_typed : SymId → M (Unit {0})
  unfolding initial_value sym_calc_visibility calc_newval finish_value rank
  calc_typed s = do
    y ← get_symbol s
    modify_flags s (λ f. record f { write = false })
    sym_calc_visibility calc s
    z ← get_symbol s
    when (not (tri_eq z.visible tri_no)) (set_write s)
    set_curr s (initial_value y.type)
    new ← calc_newval calc s (initial_value y.type)
    finish_value s y.curr new

  pub name_payload : Option Bytes → Payload
  name_payload none = null
  name_payload (some n) = text n

  -- By the declared type: a symbol without one has its name for its value.
  unfoldable pub calc_by_type : SymId → SymbolType → M (Unit {0})
  unfolding name_payload calc_typed
  calc_by_type s s_unknown =
      modify s (λ y. record y { curr = record { val = name_payload y.name; tri = tri_no } })
  calc_by_type s _ = calc_typed s

  -- `sym_calc_value` returns at once for a null pointer.
  abbrev pub calc_if_any : Option SymId → M (Unit {0})
  calc_if_any none = skip
  calc_if_any (some c) = calc c

  -- A choice value has its choice calculated first, once.
  unfoldable pub calc_choice_first : SymId → M (Unit {0})
  unfolding sym_get_choice_prop prop_get_symbol
  calc_choice_first s = do
    y ← get_symbol s
    when (y.flags.choiceval && y.flags.need_set_choice_values) (do
      modify_flags s (λ f. record f { need_set_choice_values = false })
      p ← deref (sym_get_choice_prop y)
      calc_if_any (prop_get_symbol p))

  -- `sym_calc_value`, given itself for the symbols that it reads.
  unfoldable pub calc_body : SymId → M (Unit {0})
  unfolding calc_choice_first calc_by_type
  calc_body s = do
    y ← get_symbol s
    when (not y.flags.valid) (do
      calc_choice_first s
      modify_flags s (λ f. record f { valid = true })
      z ← get_symbol s
      calc_by_type s z.type)

-- `sym_calc_value` with fuel for its recursion.
unfoldable pub sym_calc_value : ℕ → SymId → M (Unit {0})
unfolding calc_body
sym_calc_value zero s st = none
sym_calc_value (suc fuel) s st = calc_body (sym_calc_value fuel) s st

-- `sym_clear_all_valid`, on the symbols of the table; `conf_set_changed(true)` is the flag.
unfoldable pub sym_clear_all_valid : ℕ → M (Unit {0})
unfolding sym_calc_value for_each
sym_clear_all_valid fuel st =
    (do
      for_each (λ s. modify_flags s (λ f. record f { valid = false })) st.hashed
      (λ st. some (tt, record st { conf_changed = true }))
      (λ st. sym_calc_value fuel st.modules_sym st))
      st
