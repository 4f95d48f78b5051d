-- ===== src/Macro/Expand/SelfReference.antt =====
-- scripts/kconfig/preprocess.c: variables that refer to themselves.
use kdevops.Prelude.{
  ℕ, suc, ◌≡◌, refl, ◌∙◌, ap, true, Option, none, some, List, [], ◌∷◌, ◌++◌, ltb, arith, Bytes,
}
use kdevops.Macro.{
  VariableFlavor, var_simple, var_recursive, Variable, MacroState, recursive_variable, failed,
  fault, P, pure,
}
use kdevops.Macro.Laws.{bind-fault, bind-failed}
use kdevops.Macro.Variables.{
  lookup_in, change_in, change_variable, expand_checked, variable_lookup, new_value, redefine,
  define, variable_add,
}
use kdevops.Macro.Variables.Laws.{lookup-change, lookup-insert}
use kdevops.Macro.Expand.{expand_string_with_args, add_variable}
use kdevops.Macro.Expand.Reference.{IsName, reference, expand-reference}
use kdevops.Macro.Expand.Recursion.{
  enter, variable_expand-found, expand_checked-idle, expand_found-failed, resolve-failed,
  expand-reference-busy, expand-reference-missing,
}

-- A variable that is not defined, or that is not being expanded.
abbrev pub IsIdle : Option Variable → Type 0
IsIdle none = Unit {0}
IsIdle (some v) = v.exp_count ≡ 0

module _ (getenv : Bytes → Option Bytes) (run : Bytes → Bytes) (current_file : Bytes)
    (yylineno : ℕ) where
  abbrev expand_with : ℕ → Bytes → List Bytes → P Bytes
  expand_with = expand_string_with_args getenv run current_file yylineno

  -- The expansion of a recursive variable whose value is a reference to itself ends with the error
  -- that names it.
  pub expand-self_reference :
      (fuel : ℕ) (n : Bytes) (st : MacroState) (v : Variable)
      → IsName n
      → lookup_in n st.variables ≡ some v
      → v.flavor ≡ var_recursive
      → v.value ≡ some (reference n)
      → v.exp_count ≡ 0
      → expand_with (suc (suc (suc fuel))) (reference n) [] st ≡ failed (recursive_variable n)
  expand-self_reference fuel n st v name found k h z =
      let e = expand_with (suc (suc fuel)) in
      let inside = lookup-change n enter st.variables v (λ v. refl) found in
      expand-reference getenv run current_file yylineno (suc fuel) n name st
        (failed (recursive_variable n))
        (resolve-failed getenv run current_file yylineno e n st (
          variable_expand-found e n st v found
          ∙ bind-failed (expand_checked e n [] v) (λ r. pure (some r)) st
              (expand_checked-idle e n st v found z
                ∙ expand_found-failed e n st v found (reference n) k h (
                    expand-reference-busy getenv run current_file yylineno fuel n name
                      (record st { variables = change_in n enter st.variables }) (enter v) inside
                      (positive v.exp_count)))))
    where
      positive : (k : ℕ) → ltb 0 (suc k) ≡ true
      positive k = ground arith

  add-found :
      (expand : Bytes → List Bytes → P Bytes) (n value : Bytes) (f : VariableFlavor)
      (st : MacroState) (o : Option Variable)
      → lookup_in n st.variables ≡ o
      → variable_add expand n value f st
        ≡ (elim o as (λ o. P (Unit {0})) [
          | none ↦ define expand n value f
          | some v ↦ redefine expand n value f v
        ])
            st
  unfolding variable_add variable_lookup
  add-found expand n value f st o e =
      ap
        (λ (o : Option Variable).
          (elim o as (λ o. P (Unit {0})) [
            | none ↦ define expand n value f
            | some v ↦ redefine expand n value f v
          ])
            st)
        e

  abbrev fresh : Bytes → Variable
  fresh n = record { name = n; value = none; flavor = var_simple; exp_count = 0 }

  abbrev set_value : Bytes → Bytes → P (Unit {0})
  set_value n s = change_variable n (λ v. record v { value = some s })

  define_self :
      (fuel : ℕ) (n : Bytes) (st : MacroState)
      → IsName n
      → lookup_in n st.variables ≡ none
      → define (expand_with (suc (suc fuel))) n (reference n) var_simple st ≡ fault
  unfolding define new_value
  define_self fuel n st name h =
      let st' : MacroState = record st { variables = st.variables ++ fresh n ∷ [] } in
      bind-fault (expand_with (suc (suc fuel)) (reference n) []) (set_value n) st' (
        expand-reference-missing getenv run current_file yylineno fuel n name st' (fresh n)
          (lookup-insert n (fresh n) st.variables refl h) refl refl)

  abbrev cleared : Variable → Variable
  cleared v = record v { value = none; flavor = var_simple }

  redefine_self :
      (fuel : ℕ) (n : Bytes) (st : MacroState) (v : Variable)
      → IsName n
      → lookup_in n st.variables ≡ some v
      → v.exp_count ≡ 0
      → redefine (expand_with (suc (suc fuel))) n (reference n) var_simple v st ≡ fault
  unfolding redefine new_value change_variable
  redefine_self fuel n st v name h z =
      let st' : MacroState = record st { variables = change_in n cleared st.variables } in
      bind-fault (expand_with (suc (suc fuel)) (reference n) []) (set_value n) st' (
        expand-reference-missing getenv run current_file yylineno fuel n name st' (cleared v)
          (lookup-change n cleared st.variables v (λ v. refl) h) refl z)

  by_lookup :
      (fuel : ℕ) (n : Bytes) (st : MacroState) (o : Option Variable)
      → IsName n
      → lookup_in n st.variables ≡ o
      → IsIdle o
      → add_variable getenv run current_file yylineno (suc (suc fuel)) n (reference n) var_simple st
        ≡ fault
  unfolding add_variable
  by_lookup fuel n st none name e z =
      add-found (expand_with (suc (suc fuel))) n (reference n) var_simple st none e
      ∙ define_self fuel n st name e
  by_lookup fuel n st (some v) name e z =
      add-found (expand_with (suc (suc fuel))) n (reference n) var_simple st (some v) e
      ∙ redefine_self fuel n st v name e z

  -- `NAME := $(NAME)`, for a variable that is not defined yet or that is not being expanded, reads a
  -- value that is not set yet, or that is freed already.
  pub add-self_reference :
      (fuel : ℕ) (n : Bytes) (st : MacroState)
      → IsName n
      → IsIdle (lookup_in n st.variables)
      → add_variable getenv run current_file yylineno (suc (suc fuel)) n (reference n) var_simple st
        ≡ fault
  add-self_reference fuel n st name z = by_lookup fuel n st (lookup_in n st.variables) name refl z
