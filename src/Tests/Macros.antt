-- ===== src/Tests/Macros.antt =====
-- Runs of the macro language, and its theorems at concrete inputs.
use kdevops.Prelude.{◌≡◌, refl, ◌++◌, ◌∷◌, [], some, Option, List, codes, Bytes}
use kdevops.Macro.{
  Variable, var_simple, var_recursive, MacroState, done, failed, fault, recursive_variable,
}
use kdevops.Macro.Variables.{lookup_in}
use kdevops.Macro.Split.{split_clause}
use kdevops.Macro.Split.Bounds.{SplitOf, split_clause-SplitOf}
use kdevops.Macro.Expand.{expand_string_with_args, add_variable}
use kdevops.Macro.Expand.Plain.{expand_string-plain}
use kdevops.Macro.Expand.Reference.{IsName, reference}
use kdevops.Macro.Expand.Recursion.{expand-reference-simple}
use kdevops.Macro.Expand.SelfReference.{IsIdle, expand-self_reference, add-self_reference}
use kdevops.Macro.Expand.Keeps.{expand_string-variables}

abbrev getenv : Bytes → Option Bytes
getenv n = some (codes "env")

abbrev run : Bytes → Bytes
run cmd = cmd ++ codes "\n"

abbrev kconfig : Bytes
kconfig = codes "Kconfig"

abbrev cc_name : Variable
cc_name = record {
  name = codes "CC";
  value = some (codes "gcc");
  flavor = var_simple;
  exp_count = 0;
}

-- `success = $(if-y,$(1))` with a call of the shell in it, and `LOOP = $(LOOP)`.
abbrev a_function : Variable
a_function = record {
  name = codes "twice";
  value = some (codes "$(1)-$(shell,echo $(1))");
  flavor = var_recursive;
  exp_count = 0;
}

abbrev a_loop : Variable
a_loop = record {
  name = codes "LOOP";
  value = some (reference (codes "LOOP"));
  flavor = var_recursive;
  exp_count = 0;
}

abbrev start : MacroState
start = record { variables = cc_name ∷ a_function ∷ a_loop ∷ []; envs = []; printed = [] }

call_run :
    expand_string_with_args getenv run kconfig 1 5 (codes "a $(twice,$(CC)) $ b") [] start
    ≡ done (codes "a gcc-echo gcc $ b") start
unfolding expand_string_with_args
call_run = refl

expand_string-plain_example :
    expand_string_with_args getenv run kconfig 1 1 (codes "plain (text)") [] start
    ≡ done (codes "plain (text)") start
expand_string-plain_example =
    expand_string-plain getenv run kconfig 1 0 (codes "plain (text)") [] start refl

cc-IsName : IsName (codes "CC")
cc-IsName = record { no_dollar = refl; no_open = refl; no_close = refl; no_comma = refl }

loop-IsName : IsName (codes "LOOP")
loop-IsName = record { no_dollar = refl; no_open = refl; no_close = refl; no_comma = refl }

find_name : lookup_in (codes "CC") start.variables ≡ some cc_name
unfolding lookup_in
find_name = refl

find_loop : lookup_in (codes "LOOP") start.variables ≡ some a_loop
unfolding lookup_in
find_loop = refl

expand-reference-simple_example :
    expand_string_with_args getenv run kconfig 1 2 (reference (codes "CC")) [] start
    ≡ done (codes "gcc") start
expand-reference-simple_example =
    expand-reference-simple getenv run kconfig 1 0 (codes "CC") cc-IsName start cc_name find_name
      (codes "gcc") refl refl refl

split_clause-SplitOf_example : SplitOf (codes "foo,$(x),b") (split_clause (codes "foo,$(x),b"))
split_clause-SplitOf_example = split_clause-SplitOf (codes "foo,$(x),b")

expand-self_reference_example :
    expand_string_with_args getenv run kconfig 1 3 (reference (codes "LOOP")) [] start
    ≡ failed (recursive_variable (codes "LOOP"))
expand-self_reference_example =
    expand-self_reference getenv run kconfig 1 0 (codes "LOOP") start a_loop loop-IsName find_loop
      refl refl refl

cc_name-IsIdle : IsIdle (lookup_in (codes "CC") start.variables)
unfolding lookup_in
cc_name-IsIdle = refl

add-self_reference_example :
    add_variable getenv run kconfig 1 2 (codes "CC") (reference (codes "CC")) var_simple start
    ≡ fault
add-self_reference_example =
    add-self_reference getenv run kconfig 1 0 (codes "CC") start cc-IsName cc_name-IsIdle

expand_string-variables_example : ◌≡◌ {A = List Variable} start.variables start.variables
expand_string-variables_example =
    expand_string-variables getenv run kconfig 1 5 (codes "a $(twice,$(CC)) $ b") [] start start
      (codes "a gcc-echo gcc $ b") call_run
