-- ===== src/Symbol/Properties.antt =====
-- scripts/kconfig/symbol.c, lkc.h: the properties of a symbol, and its type and range as the current
-- values leave them.
pub mod InRange
use kdevops.Prelude.{
  ℕ, Bool, true, false, not, ◌&&◌, ◌||◌, Option, none, some, List, [], ◌∷◌, ◌==◌, ltb, leb,
  if◌then◌else◌,
}
use kdevops.Tristate.{Tristate, tri_no, tri_mod, tri_yes, rank, tri_eq, tri_lt}
use kdevops.Expr.{SymId, Expr, symbol, PropExpr, condition, values, range}
use kdevops.Symbol.{
  SymbolType, s_unknown, s_boolean, s_tristate, s_int, s_hex, s_string, Payload, null, text, chosen,
  PropType, p_default, p_choice, p_range, Property, Symbol, Store, symbol_type,
}

abbrev pub is_default : PropType → Bool
is_default p_default = true
is_default _ = false

abbrev pub is_choice_prop : PropType → Bool
is_choice_prop p_choice = true
is_choice_prop _ = false

abbrev pub is_range : PropType → Bool
is_range p_range = true
is_range _ = false

abbrev pub is_tristate_type : SymbolType → Bool
is_tristate_type s_tristate = true
is_tristate_type _ = false

abbrev pub is_boolean_type : SymbolType → Bool
is_boolean_type s_boolean = true
is_boolean_type _ = false

first_choice : List Property → Option Property
first_choice [] = none
first_choice (p ∷ ps) = if is_choice_prop p.type then some p else first_choice ps

unfoldable pub sym_get_choice_prop : Symbol → Option Property
unfolding first_choice
sym_get_choice_prop y = first_choice y.prop

-- Of an `E_LIST` the code reads the link to the next node as a symbol; no caller passes one.
expr_symbol : Option PropExpr → Option SymId
expr_symbol (some (condition (symbol s))) = some s
expr_symbol _ = none

unfoldable pub prop_get_symbol : Property → Option SymId
unfolding expr_symbol
prop_get_symbol p = expr_symbol p.expr

expr_values : Option PropExpr → List SymId
expr_values (some (values ss)) = ss
expr_values _ = []

-- The symbols that `expr_list_for_each_sym` goes through.
unfoldable pub choice_values : Property → List SymId
unfolding expr_values
choice_values p = expr_values p.expr

expr_range : Option PropExpr → Option (SymId × SymId)
expr_range (some (range lo hi)) = some (lo, hi)
expr_range _ = none

unfoldable pub range_bounds : Property → Option (SymId × SymId)
unfolding expr_range
range_bounds p = expr_range p.expr

-- The choice that a choice value belongs to: `prop_get_symbol(sym_get_choice_prop(sym))`.
unfoldable pub choice_of : Symbol → Option SymId
unfolding sym_get_choice_prop prop_get_symbol
choice_of y = elim (sym_get_choice_prop y) [ none ↦ none | some p ↦ prop_get_symbol p ]

-- `sym_get_type`, given `modules_val`.
unfoldable pub type_with : Tristate → Symbol → SymbolType
unfolding rank
type_with modules y =
    if is_tristate_type y.type
    then if y.flags.choiceval && tri_eq y.visible tri_yes
      then s_boolean
      else if tri_eq modules tri_no
      then s_boolean
      else y.type
    else y.type

unfoldable pub sym_get_type : Store → SymId → SymbolType
unfolding type_with
sym_get_type st s = type_with st.modules_val (st.sym s)

unfoldable pub sym_is_changeable : Symbol → Bool
unfolding rank
sym_is_changeable y = tri_lt y.rev_dep.tri y.visible

-- `a <= b`
abbrev pub tri_le : Tristate → Tristate → Bool
tri_le a b = leb (rank a) (rank b)

unfoldable pub within_range_at : SymbolType → Symbol → Tristate → Bool
unfolding rank
within_range_at type y val =
    if tri_eq y.visible tri_no
    then false
    else if not (is_boolean_type type) && not (is_tristate_type type)
    then false
    else if is_boolean_type type && tri_eq val tri_mod
    then false
    else if tri_le y.visible y.rev_dep.tri
    then false
    else if y.flags.choiceval && tri_eq y.visible tri_yes
    then tri_eq val tri_yes
    else tri_le y.rev_dep.tri val && tri_le val y.visible

unfoldable pub sym_tristate_within_range : Store → SymId → Tristate → Bool
unfolding within_range_at sym_get_type
sym_tristate_within_range st s val = within_range_at (sym_get_type st s) (st.sym s) val
