-- ===== src/Tests.antt =====
-- A small configuration, runs of the definitions on it, and the theorems at concrete inputs.
pub mod Symbols
pub mod Config
pub mod Macros
pub mod CheckDeps
pub mod Util
pub mod Dups
pub mod Print
pub mod Conf
pub mod Menus
use Prim.Native.String.{String}
use kdevops.Prelude.{
  ◌^◌, ◌-◌, zero, suc, Bool, true, false, ◌≡◌, ◌≢◌, refl, none, some, [], ◌∷◌, inl, inr, codes,
  arith, ◌↔◌, ◌==◌, if◌then◌else◌,
}
use kdevops.Tristate.{Tristate, tri_no, tri_mod, tri_yes}
use kdevops.Expr.{
  SymId, symbol_no, symbol_mod, symbol_yes, equal, unequal, Expr, symbol, not_expr, and_expr,
  or_expr, comp,
}
use kdevops.Expr.Equal.{expr_eq, expr_eliminate_eq}
use kdevops.Expr.Equal.Result.{Eliminates?, expr_eq_correct, expr_eliminate_eq_correct}
use kdevops.Expr.Outcome.{Ends, Post}
use kdevops.Expr.Transform.{expr_transform}
use kdevops.Expr.Transform.Result.{is_normal?, expr_transform-value, expr_transform-is_normal}
use kdevops.Expr.Value.{value, value?}
use kdevops.Symbol.{
  SymbolType, s_unknown, s_boolean, s_tristate, s_string, Payload, null, text, ExprValue, Flags,
  Symbol, Store, symbol_type, sym_get_tristate_value,
}
use kdevops.Symbol.Consistent.{IsConsistent, IsConstant, constant, compare_symbols-constant}
use kdevops.Symbol.Compare.{compare_symbols, is_eq}
use kdevops.Expr.YesNo.{
  expr_eliminate_yn, value-expr_eliminate_yn, expr_eliminate_yn_fixed, is_free_of_yn,
}
use kdevops.Expr.Join.{expr_join_or, expr_join_and}
use kdevops.Expr.Join.Cases.{ConstantsDiffer, ConstantsDiffer-of_constants, OrOf}
use kdevops.Expr.Join.Sound.{expr_join_or-OrOf}
use kdevops.Expr.Rewrite.{
  is_other, expr_trans_bool, expr_trans_compare, expr_contains_symbol, expr_depends_symbol,
}
use kdevops.Expr.Rewrite.Compare.{truth, lowest, expr_trans_compare-truth}
use kdevops.Expr.Rewrite.Laws.{AgreeBut, contains_symbol-value, depends_symbol-value}
use kdevops.Expr.Rewrite.TransBool.{Weakens, expr_trans_bool-Weakens}
use kdevops.Tristate.{tri_eq}
use kdevops.Symbol.{Property, p_prompt}
use mathlib.Core.Option.{Option}
use kdevops.Symbol.{s_int}
use kdevops.Symbol.Range.{print_bound}
use kdevops.Symbol.TextValid.{sym_string_valid}
use kdevops.Symbol.TextValid.Printed.{sym_string_valid-print_bound}
use kdevops.Symbol.Table.{Table, no_flag, strhash, sym_lookup, sym_find}
use kdevops.Symbol.Table.Lookup.{sym_lookup-twice}
use kdevops.Symbol.Table.Find.{sym_find-lookup}
use kdevops.Symbol.State.{◌>>◌, pure}
use kdevops.Symbol.Evaluate.{expr_calc_value}
use kdevops.Symbol.Calculate.{sym_calc_value}
use kdevops.Symbol.Calculate.Valid.{AllValid, expr_calc_value-valid}
use kdevops.Symbol.Properties.{sym_get_type, sym_tristate_within_range}
use kdevops.Symbol.Properties.InRange.{InRange, within_range-InRange}
use kdevops.Symbol.Assign.{store_tristate, sym_toggle_tristate_value}
use kdevops.Symbol.Assign.Toggle.{toggle_target, toggle_target-stored}

abbrev no_flags : Flags
no_flags = record {
  const = false;
  choice = false;
  choiceval = false;
  valid = true;
  optional = false;
  write = false;
  changed = false;
  no_write = false;
  def_user = false;
  def_auto = false;
  written = false;
  check = false;
  checked = false;
  need_set_choice_values = false;
}

abbrev pub no_expr : ExprValue
no_expr = record { expr = none; tri = tri_no }

abbrev a_symbol : String → SymbolType → Payload → Tristate → Bool → Symbol
a_symbol name type val tri is_const = record {
  name = some (codes name);
  type = type;
  curr = record { val = val; tri = tri };
  def_value = record { val = null; tri = tri_no };
  auto_value = record { val = null; tri = tri_no };
  visible = tri_yes;
  flags = record no_flags { const = is_const };
  prop = [];
  dir_dep = no_expr;
  rev_dep = no_expr;
  implied = no_expr;
}

abbrev a_constant : String → Tristate → Symbol
a_constant name t = a_symbol name s_unknown (text (codes name)) t true

-- `MODULES=y`, `DRIVER=m`, `NET` is not set, and a string.
abbrev pub sample_symbol : SymId → Symbol
sample_symbol zero = a_constant "n" tri_no
sample_symbol (suc zero) = a_constant "m" tri_mod
sample_symbol (suc (suc zero)) = a_constant "y" tri_yes
sample_symbol (suc (suc (suc zero))) = a_symbol "MODULES" s_boolean null tri_yes false
sample_symbol (suc (suc (suc (suc zero)))) = a_symbol "DRIVER" s_tristate null tri_mod false
sample_symbol (suc (suc (suc (suc (suc zero))))) = a_symbol "NET" s_tristate null tri_no false
sample_symbol _ = a_symbol "NAME" s_string (text (codes "kdevops")) tri_no false

abbrev pub modules : SymId
modules = 3

abbrev pub driver : SymId
driver = 4

abbrev pub net : SymId
net = 5

abbrev pub sample : Store
sample = record {
  sym = sample_symbol;
  hashed = modules ∷ driver ∷ net ∷ 6 ∷ [];
  modules_sym = modules;
  modules_val = tri_yes;
  conf_changed = false;
  menu_changed = λ k. false;
  fresh = 7;
  conf_warnings = 0;
  touched = [];
  kept_text = λ s. true;
}

sample-IsConstant : (t : Tristate) → IsConstant sample t
sample-IsConstant tri_no = record { type = refl; tri = refl; val = refl; flag = refl }
sample-IsConstant tri_mod = record { type = refl; tri = refl; val = refl; flag = refl }
sample-IsConstant tri_yes = record { type = refl; tri = refl; val = refl; flag = refl }

sample-boolean :
    (s : SymId) → symbol_type sample s ≡ s_boolean → sym_get_tristate_value sample s ≢ tri_mod
sample-boolean zero h = λ e. cc
sample-boolean (suc zero) h = λ e. cc
sample-boolean (suc (suc zero)) h = λ e. cc
sample-boolean (suc (suc (suc zero))) h = λ e. cc
sample-boolean (suc (suc (suc (suc zero)))) h = λ e. cc
sample-boolean (suc (suc (suc (suc (suc zero))))) h = λ e. cc
sample-boolean (suc (suc (suc (suc (suc (suc s)))))) h = λ e. cc

pub sample-IsConsistent : IsConsistent sample
sample-IsConsistent = record {
  constants = sample-IsConstant;
  boolean_ne_mod = sample-boolean;
  modules_on = λ s h e f. cc;
}

-- `!(DRIVER && MODULES=n)`
abbrev pub dependency : Expr
dependency = not_expr (and_expr (symbol driver) (comp equal modules symbol_no))

transform_run :
    expr_transform sample (some dependency)
    ≡ some (some (or_expr (not_expr (symbol driver)) (symbol modules)))
unfolding expr_transform
transform_run = refl

expr_transform-value_example :
    Ends
      (λ e. value? sample e ≡ value? sample (some dependency))
      (expr_transform sample (some dependency))
expr_transform-value_example = expr_transform-value sample-IsConsistent (some dependency)

expr_transform-is_normal_example :
    Ends (λ e. is_normal? sample e ≡ true) (expr_transform sample (some dependency))
expr_transform-is_normal_example = expr_transform-is_normal sample-IsConsistent (some dependency)

-- `DRIVER && MODULES` and `MODULES && DRIVER && MODULES`
abbrev conjunction : Expr
conjunction = and_expr (symbol driver) (symbol modules)

abbrev reordered : Expr
reordered = and_expr (symbol modules) (and_expr (symbol driver) (symbol modules))

eq_run : expr_eq (some conjunction) (some (and_expr (symbol modules) (symbol driver))) ≡ some true
unfolding expr_eq expr_eliminate_yn
eq_run = refl

expr_eq_correct_example :
    Ends
      (λ same. same ≡ true → value? sample (some conjunction) ≡ value? sample (some reordered))
      (expr_eq (some conjunction) (some reordered))
expr_eq_correct_example = expr_eq_correct sample-IsConsistent (some conjunction) (some reordered)

eliminate_eq_run :
    expr_eliminate_eq (some conjunction) (some reordered) 0
    ≡ some (some (symbol symbol_yes), some (symbol modules), 2)
unfolding expr_eliminate_eq expr_eliminate_yn
eliminate_eq_run = refl

expr_eliminate_eq_correct_example :
    Ends
      (Eliminates? sample (some conjunction) (some reordered) 0)
      (expr_eliminate_eq (some conjunction) (some reordered) 0)
expr_eliminate_eq_correct_example =
    expr_eliminate_eq_correct sample-IsConsistent (some conjunction) (some reordered) 0

join_or_run :
    expr_join_or sample (comp equal driver symbol_yes) (comp equal driver symbol_mod)
    ≡ some (some (comp unequal driver symbol_no))
unfolding expr_join_or
join_or_run = refl

expr_join_or-OrOf_example :
    Ends
      (λ m. Post (OrOf sample (comp equal driver symbol_yes) (comp equal driver symbol_mod)) m)
      (expr_join_or sample (comp equal driver symbol_yes) (comp equal driver symbol_mod))
expr_join_or-OrOf_example =
    expr_join_or-OrOf sample-IsConsistent (comp equal driver symbol_yes)
      (comp equal driver symbol_mod)

sample-constants :
    (s : SymId) → (sample.sym s).flags.const ≡ true → (t : Tristate) × (s ≡ constant t)
sample-constants zero h = (tri_no, refl)
sample-constants (suc zero) h = (tri_mod, refl)
sample-constants (suc (suc zero)) h = (tri_yes, refl)
sample-constants (suc (suc (suc zero))) h = cc
sample-constants (suc (suc (suc (suc zero)))) h = cc
sample-constants (suc (suc (suc (suc (suc zero))))) h = cc
sample-constants (suc (suc (suc (suc (suc (suc s)))))) h = cc

pub sample-ConstantsDiffer : ConstantsDiffer sample
sample-ConstantsDiffer = ConstantsDiffer-of_constants sample-IsConsistent sample-constants

join_and_run :
    expr_join_and sample (comp equal driver symbol_mod) (comp unequal driver symbol_yes)
    ≡ some (some (comp equal driver symbol_mod))
unfolding expr_join_and
join_and_run = refl

-- `MODULES && y`
abbrev with_constant : Expr
with_constant = and_expr (symbol modules) (symbol symbol_yes)

value-expr_eliminate_yn_example :
    value sample (expr_eliminate_yn with_constant) ≡ value sample with_constant
value-expr_eliminate_yn_example = value-expr_eliminate_yn sample-IsConsistent with_constant

expr_eliminate_yn_fixed_example :
    (expr_eliminate_yn with_constant ≡ with_constant) ↔ (is_free_of_yn with_constant ≡ true)
expr_eliminate_yn_fixed_example = expr_eliminate_yn_fixed with_constant

expr_trans_compare-truth_example :
    Ends
      (λ e. value sample e ≡ truth is_other (value? sample (some conjunction)) tri_no)
      (expr_trans_compare is_other symbol_no (some conjunction))
expr_trans_compare-truth_example =
    expr_trans_compare-truth sample-IsConsistent is_other (some conjunction) lowest
      (inl (inr refl), inl (inl refl))

expr_trans_bool-Weakens_example :
    Weakens
      (value sample (expr_trans_bool sample (comp unequal driver symbol_no)))
      (value sample (comp unequal driver symbol_no))
expr_trans_bool-Weakens_example =
    expr_trans_bool-Weakens sample-IsConsistent (comp unequal driver symbol_no) refl

-- `NET` set to `y`.
abbrev with_net : Store
with_net = record sample {
  sym = λ s. if s == net then a_symbol "NET" s_tristate null tri_yes false else sample_symbol s;
}

with_net-AgreeBut : AgreeBut net sample with_net
with_net-AgreeBut = record {
  others = λ t n. ground (arith, n);
  same_modules = refl;
  modules_ne = λ e. omega arith;
}

contains_run : expr_contains_symbol (some conjunction) net ≡ false
unfolding expr_contains_symbol
contains_run = refl

contains_symbol-value_example :
    value? sample (some conjunction) ≡ value? with_net (some conjunction)
contains_symbol-value_example =
    contains_symbol-value (some conjunction) with_net-AgreeBut contains_run

depends_run : expr_depends_symbol (some (and_expr (symbol net) (symbol driver))) net ≡ true
unfolding expr_depends_symbol
depends_run = refl

depends_symbol-value_example : value? sample (some (and_expr (symbol net) (symbol driver))) ≡ tri_no
depends_symbol-value_example =
    depends_symbol-value (some (and_expr (symbol net) (symbol driver))) sample-IsConsistent
      (inr refl) depends_run refl

compare_symbols-constant_example :
    is_eq (compare_symbols sample driver symbol_mod)
    ≡ tri_eq (sym_get_tristate_value sample driver) tri_mod
compare_symbols-constant_example =
    compare_symbols-constant sample-IsConsistent driver tri_mod (inr refl)
