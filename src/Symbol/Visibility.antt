-- ===== src/Symbol/Visibility.antt =====
-- scripts/kconfig/symbol.c: `sym_calc_visibility`, `sym_choice_default` and `sym_calc_choice`.
use kdevops.Prelude.{
  ℕ, suc, Bool, not, ◌&&◌, ◌||◌, Option, none, some, List, [], ◌∷◌, if◌then◌else◌,
}
use kdevops.Tristate.{Tristate, tri_no, tri_mod, tri_yes, rank, tri_eq, expr_or}
use kdevops.Expr.{SymId, Expr}
use kdevops.Symbol.{ExprValue, Payload, chosen, Symbol, Property}
use kdevops.Symbol.Evaluate.{expr_calc_value, expr_calc_value?}
use kdevops.Symbol.Properties.{
  is_default, is_boolean_type, is_tristate_type, sym_get_choice_prop, prop_get_symbol,
  choice_values, choice_of, sym_get_type,
}
use kdevops.Symbol.State.{
  M, ◌>>=◌, ◌>>◌, pure, skip, deref, when, get_symbol, get_modules_val, modify, modify_flags,
  set_prop_visible, sym_set_changed,
}

-- Which of the four cached tristates of a symbol is meant.
pub data Slot : Type 0 where
  dir_dep rev_dep implied : Slot

abbrev pub slot_of : Slot → Symbol → ExprValue
slot_of dir_dep y = y.dir_dep
slot_of rev_dep y = y.rev_dep
slot_of implied y = y.implied

abbrev pub with_slot : Slot → Tristate → Symbol → Symbol
with_slot dir_dep t y = record y { dir_dep = record { expr = y.dir_dep.expr; tri = t } }
with_slot rev_dep t y = record y { rev_dep = record { expr = y.rev_dep.expr; tri = t } }
with_slot implied t y = record y { implied = record { expr = y.implied.expr; tri = t } }

-- Without an expression a dependency is met, and nothing selects or implies.
abbrev pub slot_default : Slot → Tristate
slot_default dir_dep = tri_yes
slot_default rev_dep = tri_no
slot_default implied = tri_no

-- `m` counts as `y` for what is boolean now.
unfoldable pub promote : Bool → Tristate → Tristate
unfolding rank
promote boolean tri = if tri_eq tri tri_mod && boolean then tri_yes else tri

-- A choice value at `m` is not visible while its choice is `y`.
unfoldable pub hide_in_choice : Symbol → Option Tristate → Tristate → Tristate
unfolding rank
hide_in_choice y none tri = tri
hide_in_choice y (some choice) tri =
    if is_tristate_type y.type && tri_eq tri tri_mod && tri_eq choice tri_yes then tri_no else tri

-- `curr.tri` of the choice that a value belongs to, as it is now.
unfoldable pub choice_tri : Option SymId → M (Option Tristate)
choice_tri none = pure none
choice_tri (some c) = do y ← get_symbol c; pure (some y.curr.tri)

module _ (calc : SymId → M (Unit {0})) where
  -- The loop over the prompts, from the `i`-th property on.
  unfoldable pub calc_prompts : SymId → Option SymId → ℕ → List Property → Tristate → M Tristate
  unfolding expr_calc_value? hide_in_choice choice_tri set_prop_visible expr_or
  calc_prompts s choice i [] tri = pure tri
  calc_prompts s choice i (p ∷ ps) tri =
      let rest = calc_prompts s choice (suc i) ps in
      elim p.text [
        | none ↦ rest tri
        | some title ↦ do
          v ← expr_calc_value? calc p.visible.expr
          y ← get_symbol s
          c ← choice_tri choice
          set_prop_visible s i (hide_in_choice y c v)
          rest (expr_or tri (hide_in_choice y c v))
      ]

  unfoldable pub calc_slot_expr : Slot → Option Expr → M Tristate
  unfolding expr_calc_value
  calc_slot_expr k none = pure (slot_default k)
  calc_slot_expr k (some e) = expr_calc_value calc e

  -- One of the last three parts of `sym_calc_visibility`.
  unfoldable pub calc_slot : Slot → SymId → M (Unit {0})
  unfolding calc_slot_expr promote sym_get_type sym_set_changed rank
  calc_slot k s = do
    y ← get_symbol s
    v ← calc_slot_expr k (slot_of k y).expr
    type ← (λ st. some (sym_get_type st s, st))
    z ← get_symbol s
    let tri = promote (is_boolean_type type) v
    when (not (tri_eq (slot_of k z).tri tri)) (modify s (with_slot k tri) >> sym_set_changed s)

  unfoldable pub sym_calc_visibility : SymId → M (Unit {0})
  unfolding calc_prompts calc_slot choice_of promote sym_set_changed rank
  sym_calc_visibility s = do
    y ← get_symbol s
    v ← calc_prompts s (if y.flags.choiceval then choice_of y else none) 0 y.prop tri_no
    modules ← get_modules_val
    z ← get_symbol s
    let tri = promote (not (is_tristate_type z.type) || tri_eq modules tri_no) v
    when (not (tri_eq z.visible tri))
        (modify s (λ x. record x { visible = tri }) >> sym_set_changed s)
    when (not y.flags.choiceval) (calc_slot dir_dep s >> calc_slot rev_dep s >> calc_slot implied s)

  -- The first of a list of symbols that is visible.
  unfoldable pub first_visible_symbol : List SymId → M (Option SymId)
  unfolding rank
  first_visible_symbol [] = pure none
  first_visible_symbol (s ∷ ss) = do
    y ← get_symbol s
    if not (tri_eq y.visible tri_no) then pure (some s) else first_visible_symbol ss

  -- A default value that is visible ends the search.
  unfoldable pub visible_or : M (Option SymId) → Option SymId → M (Option SymId)
  unfolding rank
  visible_or rest o = do
    d ← deref o
    y ← get_symbol d
    if not (tri_eq y.visible tri_no) then pure (some d) else rest

  -- The loop over the defaults of a choice.
  unfoldable pub choice_default_prop : SymId → ℕ → List Property → M (Option SymId)
  unfolding expr_calc_value? set_prop_visible prop_get_symbol visible_or rank
  choice_default_prop s i [] = pure none
  choice_default_prop s i (p ∷ ps) =
      let rest = choice_default_prop s (suc i) ps in
      if is_default p.type
      then (do
        tri ← expr_calc_value? calc p.visible.expr
        set_prop_visible s i tri
        if tri_eq tri tri_no then rest else visible_or rest (prop_get_symbol p))
      else rest

  unfoldable pub sym_choice_default : SymId → M (Option SymId)
  unfolding choice_default_prop first_visible_symbol sym_get_choice_prop choice_values
  sym_choice_default s = do
    y ← get_symbol s
    d ← choice_default_prop s 0 y.prop
    elim d [
      | some x ↦ pure (some x)
      | none ↦ do p ← deref (sym_get_choice_prop y); first_visible_symbol (choice_values p)
    ]

  -- The visibility of each value; whether all that are visible have the flag SYMBOL_DEF_USER.
  unfoldable pub calc_values : Bool → List SymId → M Bool
  unfolding sym_calc_visibility rank
  calc_values user [] = pure user
  calc_values user (s ∷ ss) = do
    sym_calc_visibility s
    y ← get_symbol s
    calc_values (if not (tri_eq y.visible tri_no) then user && y.flags.def_user else user) ss

  -- The user's choice, if it is visible.
  unfoldable pub chosen_visible : Payload → M (Option SymId)
  unfolding rank
  chosen_visible (chosen d) = do
    y ← get_symbol d
    pure (if not (tri_eq y.visible tri_no) then some d else none)
  chosen_visible _ = pure none

  -- `sym->curr.tri = no` where nothing was found.
  unfoldable pub reset_if_none : SymId → Option SymId → M (Unit {0})
  reset_if_none s none =
      modify s (λ y. record y { curr = record { val = y.curr.val; tri = tri_no } })
  reset_if_none s (some d) = skip

  unfoldable pub sym_calc_choice : SymId → M (Option SymId)
  unfolding calc_values chosen_visible sym_choice_default reset_if_none sym_get_choice_prop
      choice_values
  sym_calc_choice s = do
    y ← get_symbol s
    p ← deref (sym_get_choice_prop y)
    user ← calc_values y.flags.def_user (choice_values p)
    modify_flags s (λ f. record f { def_user = f.def_user && user })
    z ← get_symbol s
    d ← chosen_visible z.def_value.val
    elim d [
      | some x ↦ pure (some x)
      | none ↦ do x ← sym_choice_default s; reset_if_none s x; pure x
    ]
