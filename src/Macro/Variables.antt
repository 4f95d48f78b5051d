-- ===== src/Macro/Variables.antt =====
-- scripts/kconfig/preprocess.c: the list of variables, `variable_lookup`, `variable_expand` and
-- `variable_add`. `expand` is `expand_string_with_args`.
use kdevops.Prelude.{
  ℕ, suc, ◌-◌, Bool, true, false, ◌&&◌, Option, none, some, List, [], ◌∷◌, ◌++◌, ◌==◌, ltb, length,
  if◌then◌else◌, Bytes,
}
use kdevops.Macro.{
  VariableFlavor, var_simple, var_recursive, var_append, Variable, MacroState, MacroError,
  recursive_variable, too_deep, Outcome, done, fault, P, ◌>>=◌, ◌>>◌, pure, pperror,
}
use kdevops.Macro.Builtin.{bytes_eq}
pub mod Laws

unfoldable pub lookup_in : Bytes → List Variable → Option Variable
unfolding bytes_eq
lookup_in name [] = none
lookup_in name (v ∷ vs) = if bytes_eq name v.name then some v else lookup_in name vs

unfoldable pub variable_lookup : Bytes → P (Option Variable)
unfolding lookup_in
variable_lookup name st = done (lookup_in name st.variables) st

-- A change of the variable that `variable_lookup` finds.
unfoldable pub change_in : Bytes → (Variable → Variable) → List Variable → List Variable
unfolding bytes_eq
change_in name f [] = []
change_in name f (v ∷ vs) = if bytes_eq name v.name then f v ∷ vs else v ∷ change_in name f vs

unfoldable pub change_variable : Bytes → (Variable → Variable) → P (Unit {0})
unfolding change_in
change_variable name f st = done tt (record st { variables = change_in name f st.variables })

-- A value that is read has to be there.
unfoldable pub read_value : Variable → P Bytes
read_value v st = elim v.value [ none ↦ fault | some s ↦ done s st ]

abbrev pub is_recursive : VariableFlavor → Bool
is_recursive var_recursive = true
is_recursive _ = false

abbrev pub is_empty : List Bytes → Bool
is_empty [] = true
is_empty (a ∷ as') = false

abbrev pub is_append : VariableFlavor → Bool
is_append var_append = true
is_append _ = false

module _ (expand : Bytes → List Bytes → P Bytes) where
  -- The value of a variable, expanded if it is recursive.
  unfoldable pub value_of : Variable → List Bytes → P Bytes
  unfolding read_value
  value_of v args = do s ← read_value v; if is_recursive v.flavor then expand s args else pure s

  unfoldable pub expand_found : Bytes → List Bytes → Variable → P Bytes
  unfolding change_variable value_of
  expand_found name args v = do
    change_variable name (λ v. record v { exp_count = suc v.exp_count })
    res ← value_of v args
    change_variable name (λ v. record v { exp_count = v.exp_count - 1 })
    pure res

  unfoldable pub expand_checked : Bytes → List Bytes → Variable → P Bytes
  unfolding expand_found
  expand_checked name args v =
      if is_empty args && ltb 0 v.exp_count
      then pperror (recursive_variable name)
      else if ltb 1000 v.exp_count
      then pperror too_deep
      else expand_found name args v

  unfoldable pub variable_expand : Bytes → List Bytes → P (Option Bytes)
  unfolding variable_lookup expand_checked
  variable_expand name args = do
    found ← variable_lookup name
    elim found [ none ↦ pure none | some v ↦ expand_checked name args v >>= λ r. pure (some r) ]

  -- The new value, by the flavor that the variable has now.
  unfoldable pub new_value : VariableFlavor → Bytes → P Bytes
  new_value var_simple value = expand value []
  new_value var_recursive value = pure value
  new_value var_append value = pure value

  append_value : Bytes → Bytes → P (Unit {0})
  unfolding variable_lookup change_variable read_value
  append_value name new = do
    found ← variable_lookup name
    elim found [
      | none ↦ pure tt
      | some v ↦ do
        old ← read_value v
        change_variable name (λ v. record v { value = some (old ++ (b' ' ∷ new)) })
    ]

  -- A defined variable: `+=` keeps its flavor; the others free its value first.
  unfoldable pub redefine : Bytes → Bytes → VariableFlavor → Variable → P (Unit {0})
  unfolding change_variable new_value append_value
  redefine name value flavor v =
      if is_append flavor then (do new ← new_value v.flavor value; append_value name new) else (do
        change_variable name (λ v. record v { value = none; flavor = flavor })
        new ← new_value flavor value
        change_variable name (λ v. record v { value = some new }))

  -- The flavor of a variable that is not defined yet.
  abbrev pub first_flavor : VariableFlavor → VariableFlavor
  first_flavor var_append = var_recursive
  first_flavor var_recursive = var_recursive
  first_flavor var_simple = var_simple

  unfoldable pub define : Bytes → Bytes → VariableFlavor → P (Unit {0})
  unfolding change_variable new_value
  define name value flavor = do
    (λ st. done tt (record st {
      variables =
          st.variables
          ++ record { name = name; value = none; flavor = first_flavor flavor; exp_count = 0 } ∷ [];
    }))
    new ← new_value (first_flavor flavor) value
    change_variable name (λ v. record v { value = some new })

  unfoldable pub variable_add : Bytes → Bytes → VariableFlavor → P (Unit {0})
  unfolding variable_lookup redefine define
  variable_add name value flavor = do
    found ← variable_lookup name
    elim found [ none ↦ define name value flavor | some v ↦ redefine name value flavor v ]
