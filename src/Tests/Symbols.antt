-- ===== src/Tests/Symbols.antt =====
-- Runs of the code of symbol.c on the small configuration, and its theorems at concrete inputs.
use Prim.Native.String.{String}
use kdevops.Prelude.{
  ◌^◌, ◌-◌, ◌<◌, zero, suc, true, false, ◌≡◌, refl, none, some, [], ◌∷◌, inl, codes, arith, ◌↔◌,
  ◌==◌, if◌then◌else◌,
}
use kdevops.Tristate.{Tristate, tri_no, tri_mod, tri_yes}
use kdevops.Expr.{SymId, Expr, symbol}
use kdevops.Expr.Value.{value}
use kdevops.Symbol.{null, Symbol, Store, sym_get_tristate_value}
use kdevops.Symbol.{Property, p_prompt}
use mathlib.Core.Option.{Option}
use kdevops.Symbol.{s_int}
use kdevops.Symbol.Range.{print_bound}
use kdevops.Symbol.TextValid.{sym_string_valid}
use kdevops.Symbol.TextValid.Printed.{sym_string_valid-print_bound}
use kdevops.Symbol.Table.{Table, no_flag, strhash, sym_lookup, sym_find}
use kdevops.Symbol.Table.Lookup.{sym_lookup-twice}
use kdevops.Symbol.Table.Find.{sym_find-lookup}
use kdevops.Symbol.State.{M, ◌>>◌, pure}
use kdevops.Symbol.Evaluate.{expr_calc_value}
use kdevops.Symbol.Calculate.{sym_calc_value}
use kdevops.Symbol.Calculate.Valid.{AllValid, expr_calc_value-valid}
use kdevops.Symbol.Fuel.{total, IsClosed}
use kdevops.Symbol.Fuel.Enough.{calc_or, sym_calc_value-enough, sym_calc_value-keeps_valid}
use kdevops.Symbol.Properties.{sym_get_type, sym_tristate_within_range}
use kdevops.Symbol.Properties.InRange.{InRange, within_range-InRange}
use kdevops.Symbol.Assign.{store_tristate, sym_toggle_tristate_value}
use kdevops.Symbol.Assign.Toggle.{toggle_target, toggle_target-stored}
use kdevops.Tests.{sample_symbol, modules, driver, net, sample, dependency}

toggle_run : toggle_target sample net ≡ tri_mod
unfolding toggle_target sym_tristate_within_range
toggle_run = refl

toggle_target-stored_example :
    sym_toggle_tristate_value 4 net sample
    ≡ (store_tristate 4 net (toggle_target sample net) >> pure (toggle_target sample net)) sample
toggle_target-stored_example = toggle_target-stored 4 net sample

sample-AllValid : AllValid sample
unfolding AllValid
sample-AllValid zero = refl
sample-AllValid (suc zero) = refl
sample-AllValid (suc (suc zero)) = refl
sample-AllValid (suc (suc (suc zero))) = refl
sample-AllValid (suc (suc (suc (suc zero)))) = refl
sample-AllValid (suc (suc (suc (suc (suc zero))))) = refl
sample-AllValid (suc (suc (suc (suc (suc (suc s)))))) = refl

expr_calc_value-valid_example :
    expr_calc_value (sym_calc_value 1) dependency sample ≡ some (value sample dependency, sample)
expr_calc_value-valid_example = expr_calc_value-valid 0 dependency sample sample-AllValid

within_range-InRange_example :
    (sym_tristate_within_range sample driver tri_yes ≡ true)
    ↔ InRange (sym_get_type sample driver) (sample.sym driver) tri_yes
within_range-InRange_example = within_range-InRange sample driver tri_yes

-- `config MODULES bool "m"`, and `config DRIVER tristate "d" if MODULES` with the user value `m`.
abbrev prompt : String → Option Expr → Property
prompt title cond = record {
  type = p_prompt;
  text = some (codes title);
  visible = record { expr = cond; tri = tri_no };
  expr = none;
  menu = some 0;
}

abbrev user_symbol : Symbol → Tristate → Option Expr → Symbol
user_symbol y t cond = record y {
  flags = record y.flags { valid = false; def_user = true };
  curr = record { val = null; tri = tri_no };
  def_value = record { val = null; tri = t };
  visible = tri_no;
  prop = prompt "prompt" cond ∷ [];
}

abbrev unsettled : Store
unsettled = record sample {
  modules_val = tri_no;
  sym = λ s.
      if s == modules
      then user_symbol (sample_symbol modules) tri_yes none
      else if s == driver
      then user_symbol (sample_symbol driver) tri_mod (some (symbol modules))
      else sample_symbol s;
}

-- The value of a symbol after a calculation, and of `modules_val`.
abbrev result_of : {A : Type 0} → SymId → Option (A × Store) → Option (Tristate × Tristate)
result_of s none = none
result_of s (some (a, st)) = some (sym_get_tristate_value st s, st.modules_val)

calc_run : result_of driver (sym_calc_value 4 driver unsettled) ≡ some (tri_mod, tri_yes)
unfolding sym_calc_value
calc_run = refl

sym_string_valid-print_bound_example :
    sym_string_valid s_int (print_bound s_int (2 ^ 64 - 12)) ≡ true
sym_string_valid-print_bound_example =
    sym_string_valid-print_bound s_int (2 ^ 64 - 12) (inl refl) (omega arith)

print_run : print_bound s_int (2 ^ 64 - 12) ≡ codes "-12"
unfolding print_bound
print_run = refl

-- The 32-bit FNV-1a value of a published test vector.
hash_run : strhash (codes "foobar") ≡ 3214735720
unfolding strhash
hash_run = refl

abbrev empty_table : Table
empty_table = record { bucket = λ i. []; sym = sample_symbol; fresh = 7 }

sym_lookup-twice_example :
    sym_lookup (some (codes "NET")) no_flag (sym_lookup (some (codes "NET")) no_flag empty_table).1
    ≡ sym_lookup (some (codes "NET")) no_flag empty_table
sym_lookup-twice_example = sym_lookup-twice (codes "NET") no_flag empty_table

find_run : sym_find (some (codes "NET")) empty_table ≡ none
unfolding sym_find
find_run = refl

sym_find-lookup_example :
    sym_find (some (codes "NET")) (sym_lookup (some (codes "NET")) no_flag empty_table).1
    ≡ some (sym_lookup (some (codes "NET")) no_flag empty_table).0
sym_find-lookup_example = sym_find-lookup (codes "NET") empty_table find_run

-- Two symbols of the configuration are not valid.
unsettled-IsClosed : IsClosed 6 unsettled
unsettled-IsClosed zero le = refl
unsettled-IsClosed (suc zero) le = refl
unsettled-IsClosed (suc (suc zero)) le = refl
unsettled-IsClosed (suc (suc (suc zero))) le = absurd (omega (arith, le))
unsettled-IsClosed (suc (suc (suc (suc zero)))) le = absurd (omega (arith, le))
unsettled-IsClosed (suc (suc (suc (suc (suc zero))))) le = refl
unsettled-IsClosed (suc (suc (suc (suc (suc (suc s)))))) le =
    rw (other modules (omega arith)) (rw (other driver (omega arith)) refl)
  where
    other : (t : SymId) → t < 6 → (suc (suc (suc (suc (suc (suc s))))) == t) ≡ false
    other t k = ground (arith, k)

unsettled-total : total 6 unsettled < 3
unfolding total
unsettled-total = omega arith

sym_calc_value-enough_example :
    ((spent : SymId → M (Unit {0}))
      → calc_or spent 100 driver unsettled ≡ sym_calc_value 3 driver unsettled)
    × (sym_calc_value 100 driver unsettled ≡ sym_calc_value 3 driver unsettled)
sym_calc_value-enough_example =
    sym_calc_value-enough 6 3 100 driver unsettled unsettled-IsClosed unsettled-total (omega arith)

abbrev settled : Store
settled = elim (sym_calc_value 3 driver unsettled) [ none ↦ unsettled | some (u, st) ↦ st ]

settled_run : sym_calc_value 3 driver unsettled ≡ some (tt, settled)
unfolding sym_calc_value
settled_run = refl

sym_calc_value-keeps_valid_example :
    ((settled.sym net).flags.valid ≡ true)
    × ((settled.sym net).flags.need_set_choice_values ≡ false)
sym_calc_value-keeps_valid_example =
    sym_calc_value-keeps_valid 6 3 driver net unsettled settled unsettled-IsClosed unsettled-total
      settled_run refl refl
