-- ===== src/Symbol/AssignText.antt =====
-- scripts/kconfig/symbol.c: the texts that a user may give to a symbol, how they are stored, and the
-- text of a default. `fuel` is that of `sym_calc_value`.
use Prim.Native.Nat.{Ordering}
use kdevops.Prelude.{
  ℕ, Bool, true, false, not, ◌&&◌, ◌||◌, Option, none, some, [], ◌++◌, if◌then◌else◌, Bytes, codes,
}
use kdevops.Libc.{strcmp, strtoll, compare_signed}
use kdevops.Tristate.{Tristate, tri_no, tri_mod, tri_yes, rank, tri_eq, tri_lt, expr_and, expr_or}
use kdevops.Expr.{SymId, symbol_no}
use kdevops.Symbol.{
  SymbolType, s_unknown, s_boolean, s_tristate, s_int, s_hex, s_string, Payload, text, Symbol,
  Property,
}
use kdevops.Symbol.Calculate.{sym_calc_value, sym_clear_all_valid}
use kdevops.Symbol.NewValue.{is_logical}
use kdevops.Symbol.Compare.{is_lt, is_gt}
use kdevops.Symbol.Evaluate.{prop_calc_value, sym_get_default_prop, sym_get_range_prop}
use kdevops.Symbol.Properties.{
  is_boolean_type, prop_get_symbol, range_bounds, sym_tristate_within_range,
}
use kdevops.Symbol.Range.{sym_get_range_val}
use kdevops.Symbol.State.{M, ◌>>=◌, ◌>>◌, pure, deref, when, get_symbol, get_modules_sym, modify}
use kdevops.Symbol.Visibility.{sym_calc_visibility}
use kdevops.Symbol.Assign.{set_def_user, sym_set_tristate_value}
use kdevops.Symbol.TextValid.{has_hex_prefix, letter, sym_string_valid}

module _ (fuel : ℕ) where
  -- The upper bound is read only where the value reaches the lower one.
  within_bounds : ℕ → ℕ → SymId × SymId → M Bool
  unfolding sym_get_range_val sym_calc_value compare_signed
  within_bounds base val (lo, hi) = do
    lower ← sym_get_range_val (sym_calc_value fuel) lo base
    if is_lt (compare_signed val lower) then pure false else (do
      upper ← sym_get_range_val (sym_calc_value fuel) hi base
      pure (not (is_gt (compare_signed val upper))))

  number_within_range : SymId → SymbolType → ℕ → Bytes → M Bool
  unfolding within_bounds sym_get_range_prop sym_calc_value sym_string_valid range_bounds strtoll
  number_within_range s type base str = if not (sym_string_valid type str) then pure false else (do
    found ← sym_get_range_prop (sym_calc_value fuel) s
    elim found [
      | none ↦ pure true
      | some (p, tri) ↦ do
        bounds ← deref (range_bounds p)
        within_bounds base (strtoll base str).bits bounds
    ])

  letter_within_range : SymId → Bytes → M Bool
  unfolding letter sym_tristate_within_range
  letter_within_range s str st =
      some (elim (letter str) [ none ↦ false | some t ↦ sym_tristate_within_range st s t ], st)

  string_within_range : SymbolType → SymId → Bytes → M Bool
  unfolding number_within_range letter_within_range
  string_within_range s_string s str = pure true
  string_within_range s_int s str = number_within_range s s_int 10 str
  string_within_range s_hex s str = number_within_range s s_hex 16 str
  string_within_range s_boolean s str = letter_within_range s str
  string_within_range s_tristate s str = letter_within_range s str
  string_within_range s_unknown s str = pure false

  unfoldable pub sym_string_within_range : SymId → Bytes → M Bool
  unfolding string_within_range
  sym_string_within_range s str = do y ← get_symbol s; string_within_range y.type s str

  -- A hexadecimal number gets its prefix.
  needs_prefix : SymbolType → Bytes → Bool
  unfolding has_hex_prefix
  needs_prefix s_hex str = not (has_hex_prefix str)
  needs_prefix _ str = false

  is_text : Payload → Bytes → Bool
  unfolding strcmp
  is_text (text old) new = elim (strcmp old new) [ Ordering.eq ↦ true | _ ↦ false ]
  is_text _ new = false

  -- A text that is the old one already is left, unless a prefix is added.
  store_text : SymId → Bytes → M (Unit {0})
  unfolding needs_prefix is_text set_def_user sym_clear_all_valid
  store_text s str = do
    set_def_user s
    y ← get_symbol s
    when (needs_prefix y.type str || not (is_text y.def_value.val str)) (
        modify s (λ x. record x {
          def_value = record {
            val = text (if needs_prefix y.type str then codes "0x" ++ str else str);
            tri = x.def_value.tri;
          };
        })
        >> sym_clear_all_valid fuel)

  unfoldable pub sym_set_string_value : SymId → Bytes → M Bool
  unfolding sym_string_within_range store_text letter sym_set_tristate_value
  sym_set_string_value s str = do
    y ← get_symbol s
    if is_logical y.type
        then elim (letter str) [ none ↦ pure false | some t ↦ sym_set_tristate_value fuel s t ]
        else (do
          ok ← sym_string_within_range s str
          if ok then (store_text s str >> pure true) else pure false)

  -- What a default gives: a tristate, or the text of another symbol.
  default_parts : SymId → Option (Property × Tristate) → M (Tristate × Payload)
  unfolding prop_calc_value prop_get_symbol sym_calc_value expr_and
  default_parts s none = do n ← get_symbol symbol_no; pure (n.curr.tri, text [])
  default_parts s (some (p, visible)) = do
    n ← get_symbol symbol_no
    y ← get_symbol s
    if is_logical y.type
        then (do
          v ← prop_calc_value (sym_calc_value fuel) p.expr
          pure (expr_and v visible, text []))
        else elim (prop_get_symbol p) [
          | none ↦ pure (n.curr.tri, text [])
          | some d ↦ do sym_calc_value fuel d; x ← get_symbol d; pure (n.curr.tri, x.curr.val)
        ]

  -- `m` becomes `y` where modules are off, and in a boolean; what implies the symbol is the least.
  default_tristate : Tristate → Symbol → Tristate → Tristate
  unfolding expr_or rank
  default_tristate modules y val =
      let selected = expr_or val y.rev_dep.tri in
      let without_modules =
        if tri_eq selected tri_mod && not y.flags.choiceval && tri_eq modules tri_no
        then tri_yes
        else selected in
      let boolean =
        if is_boolean_type y.type && tri_eq without_modules tri_mod
        then tri_yes
        else without_modules in
      if tri_lt boolean y.implied.tri then y.implied.tri else boolean

  tristate_name : Tristate → Bytes
  tristate_name tri_no = codes "n"
  tristate_name tri_mod = codes "m"
  tristate_name tri_yes = codes "y"

  default_name : SymbolType → Tristate → Payload → Payload
  unfolding tristate_name
  default_name s_boolean val str = text (tristate_name val)
  default_name s_tristate val str = text (tristate_name val)
  default_name s_unknown val str = text []
  default_name _ val str = str

  unfoldable pub sym_get_string_default : SymId → M Payload
  unfolding default_parts default_tristate default_name sym_calc_visibility sym_calc_value
      sym_get_default_prop
  sym_get_string_default s = do
    sym_calc_visibility (sym_calc_value fuel) s
    modules ← get_modules_sym
    sym_calc_value fuel modules
    found ← sym_get_default_prop (sym_calc_value fuel) s
    parts ← default_parts s found
    y ← get_symbol s
    m ← get_symbol modules
    pure (default_name y.type (default_tristate m.curr.tri y parts.0) parts.1)
