-- ===== src/Symbol/Properties/InRange.antt =====
-- scripts/kconfig/symbol.c: what `sym_tristate_within_range` lets through.
use kdevops.Prelude.{true, ◌≡◌, ◌≢◌, ◌↔◌, ◌⊎◌, arith}
use kdevops.Tristate.{Tristate, tri_mod, tri_yes, rank}
use kdevops.Expr.{SymId}
use kdevops.Symbol.{SymbolType, s_boolean, s_tristate, Symbol, Store}
use kdevops.Symbol.Properties.{
  sym_get_type, within_range_at, sym_tristate_within_range, sym_is_changeable, tri_le,
}

-- The values that a user may choose, at a type and for a symbol.
pub record InRange (type : SymbolType) (y : Symbol) (t : Tristate) : Type 0 where
  pub logical : (type ≡ s_boolean) ⊎ (type ≡ s_tristate)
  pub boolean_ne_mod : type ≡ s_boolean → t ≢ tri_mod
  pub changeable : sym_is_changeable y ≡ true
  pub above : tri_le y.rev_dep.tri t ≡ true
  pub below : tri_le t y.visible ≡ true
  pub choice_is_yes : y.flags.choiceval ≡ true → y.visible ≡ tri_yes → t ≡ tri_yes

InRange-of_within :
    (type : SymbolType) (y : Symbol) (t : Tristate)
    → within_range_at type y t ≡ true
    → InRange type y t
unfolding within_range_at sym_is_changeable rank
InRange-of_within type y t h = record {
  logical = ground (arith, h, type);
  boolean_ne_mod = λ b m. ground (arith, h, type);
  changeable = ground (arith, h, type);
  above = ground (arith, h, type);
  below = ground (arith, h, type);
  choice_is_yes = λ c v. ground (arith, h, type);
}

within-of_InRange :
    (type : SymbolType) (y : Symbol) (t : Tristate)
    → InRange type y t
    → within_range_at type y t ≡ true
unfolding within_range_at sym_is_changeable rank
within-of_InRange type y t h =
    ground (arith, h.logical, h.boolean_ne_mod, h.changeable, h.above, h.below, h.choice_is_yes)

-- sym_tristate_within_range accepts exactly the values that are in range: the symbol is boolean or
-- tristate as modules are now, `m` is not for a boolean one, the symbol is visible beyond what
-- selects it, the value lies between those two, and a choice value that is visible at y is set to y.
pub within_range-InRange :
    (st : Store) (s : SymId) (t : Tristate)
    → (sym_tristate_within_range st s t ≡ true) ↔ InRange (sym_get_type st s) (st.sym s) t
unfolding sym_tristate_within_range
within_range-InRange st s t = (
  InRange-of_within (sym_get_type st s) (st.sym s) t,
  within-of_InRange (sym_get_type st s) (st.sym s) t,
)
