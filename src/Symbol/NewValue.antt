-- ===== src/Symbol/NewValue.antt =====
-- scripts/kconfig/symbol.c: the new value that `sym_calc_value` finds for a symbol. `calc` is
-- `sym_calc_value` itself.
use kdevops.Prelude.{
  Bool, true, false, not, ◌&&◌, ◌||◌, Option, none, some, [], ◌==◌, if◌then◌else◌,
}
use kdevops.Tristate.{Tristate, tri_no, tri_yes, rank, tri_eq, expr_and, expr_or}
use kdevops.Expr.{SymId}
use kdevops.Symbol.{SymbolType, Payload, text, chosen, SymbolValue, Property}
use kdevops.Symbol.Evaluate.{prop_calc_value, sym_get_default_prop}
use kdevops.Symbol.Properties.{
  is_boolean_type, is_tristate_type, prop_get_symbol, choice_of, type_with, sym_get_type,
}
use kdevops.Symbol.State.{M, ◌>>=◌, ◌>>◌, pure, deref, when, get_symbol, modify_flags}
use kdevops.Symbol.Visibility.{promote}

abbrev pub set_write : SymId → M (Unit {0})
set_write s = modify_flags s (λ f. record f { write = true })

abbrev pub is_logical : SymbolType → Bool
is_logical t = is_boolean_type t || is_tristate_type t

-- What a default and an implication make of the value so far: `EXPR_AND` with the direct
-- dependencies comes with the implication only.
unfoldable pub imply_value : Tristate → Tristate → Tristate → Tristate
unfolding rank expr_and expr_or
imply_value implied dir_dep tri =
    if tri_eq implied tri_no then tri else expr_and (expr_or tri implied) dir_dep

-- Whether the choice of a value has it for its value.
pub is_chosen : SymId → Payload → Bool
is_chosen s (chosen d) = d == s
is_chosen s _ = false

module _ (calc : SymId → M (Unit {0})) where
  unfoldable pub default_value : Option (Property × Tristate) → M Tristate
  unfolding prop_calc_value expr_and
  default_value none = pure tri_no
  default_value (some (p, visible)) = do v ← prop_calc_value calc p.expr; pure (expr_and v visible)

  -- Of a symbol without a visible user value: its default, and what implies it.
  unfoldable pub unset_value : SymId → M Tristate
  unfolding sym_get_default_prop default_value imply_value rank
  unset_value s = do
    y ← get_symbol s
    when (not (tri_eq y.rev_dep.tri tri_no)) (set_write s)
    if y.flags.choice then pure tri_no else (do
      found ← sym_get_default_prop calc s
      v ← default_value found
      z ← get_symbol s
      when (not (tri_eq v tri_no) || not (tri_eq z.implied.tri tri_no)) (set_write s)
      pure (imply_value z.implied.tri z.dir_dep.tri v))

  -- The tristate branch up to the last promotion.
  unfoldable pub calc_tristate : SymId → M Tristate
  unfolding unset_value choice_of is_chosen expr_and expr_or rank
  calc_tristate s = do
    y ← get_symbol s
    if y.flags.choiceval && tri_eq y.visible tri_yes
        then (do
          c ← deref (choice_of y)
          x ← get_symbol c
          pure (if is_chosen s x.curr.val then tri_yes else tri_no))
        else (do
          v ←
              (if not (tri_eq y.visible tri_no) && y.flags.def_user
                then pure (expr_and y.def_value.tri y.visible)
                else unset_value s)
          z ← get_symbol s
          pure (expr_or v z.rev_dep.tri))

  -- The value of a default's symbol.
  unfoldable pub default_text : SymId → Option SymId → M Payload
  default_text s none = pure (text [])
  default_text s (some d) = do set_write s; calc d; y ← get_symbol d; pure y.curr.val

  unfoldable pub default_payload : SymId → Option (Property × Tristate) → M Payload
  unfolding prop_get_symbol default_text
  default_payload s none = pure (text [])
  default_payload s (some (p, visible)) = default_text s (prop_get_symbol p)

  -- The branch of the texts and numbers.
  unfoldable pub calc_text : SymId → M Payload
  unfolding sym_get_default_prop default_payload rank
  calc_text s = do
    y ← get_symbol s
    if not (tri_eq y.visible tri_no) && y.flags.def_user
        then pure y.def_value.val
        else (do found ← sym_get_default_prop calc s; default_payload s found)

  -- The new value, by the type that the symbol has now.
  unfoldable pub calc_newval : SymId → SymbolValue → M SymbolValue
  unfolding calc_tristate calc_text promote type_with
  calc_newval s init = do
    type ← (λ st. some (sym_get_type st s, st))
    if is_logical type
        then (do
          v ← calc_tristate s
          type' ← (λ st. some (sym_get_type st s, st))
          pure (record { val = init.val; tri = promote (is_boolean_type type') v }))
        else (do v ← calc_text s; pure (record { val = v; tri = init.tri }))
