-- ===== src/Macro/Expand/Recursion.antt =====
-- scripts/kconfig/preprocess.c: references to variables: the value of a simple variable, a recursive
-- variable whose value is a reference to itself, and a simple one that is set to such a reference.
use kdevops.Prelude.{
  ℕ, suc, ◌-◌, ◌≡◌, refl, ◌∙◌, ap, true, Option, none, some, List, [], ltb, arith, Bytes,
}
use kdevops.Macro.{
  var_simple, var_recursive, Variable, MacroState, MacroError, recursive_variable, done, failed,
  fault, P, ◌>>=◌, pure,
}
use kdevops.Macro.Laws.{bind-done, bind-fault, bind-failed}
use kdevops.Macro.Variables.{lookup_in, change_in, expand_found, expand_checked, variable_expand}
use kdevops.Macro.Variables.Laws.{change-change}
use kdevops.Macro.Expand.{or_else, resolve, expand_string_with_args}
use kdevops.Macro.Expand.Reference.{IsName, reference, expand-reference}

abbrev pub enter : Variable → Variable
enter v = record v { exp_count = suc v.exp_count }

abbrev pub leave : Variable → Variable
leave v = record v { exp_count = v.exp_count - 1 }

pub leave-enter : (v : Variable) → leave (enter v) ≡ v
leave-enter v = ap (λ k. record v { exp_count = k }) (pred_suc v.exp_count)
  where
    pred_suc : (k : ℕ) → suc k - 1 ≡ k
    pred_suc k = omega arith

module _ (expand : Bytes → List Bytes → P Bytes) (n : Bytes) (st : MacroState) (v : Variable)
    (found : lookup_in n st.variables ≡ some v) where
  pub expand_checked-idle :
      v.exp_count ≡ 0 → expand_checked expand n [] v st ≡ expand_found expand n [] v st
  unfolding expand_checked
  expand_checked-idle h = rw h refl

  expand_checked-busy :
      ltb 0 v.exp_count ≡ true → expand_checked expand n [] v st ≡ failed (recursive_variable n)
  unfolding expand_checked
  expand_checked-busy h = rw h refl

  pub variable_expand-found :
      variable_expand expand n [] st ≡ (expand_checked expand n [] v >>= λ r. pure (some r)) st
  unfolding variable_expand
  variable_expand-found =
      ap
        (λ (o : Option Variable).
          (elim o as (λ o. P (Option Bytes)) [
            | none ↦ pure none
            | some v ↦ expand_checked expand n [] v >>= λ r. pure (some r)
          ])
            st)
        found

  expand_found-fault : v.value ≡ none → expand_found expand n [] v st ≡ fault
  unfolding expand_found
  expand_found-fault h = rw h refl

  expand_found-simple :
      (s : Bytes)
      → v.flavor ≡ var_simple
      → v.value ≡ some s
      → expand_found expand n [] v st ≡ done s st
  unfolding expand_found
  expand_found-simple s k h =
      rw (h, k)
        (ap (λ vs. done s (record st { variables = vs }))
          (change-change n enter leave st.variables (λ v. refl) (λ v. leave-enter v)))

  pub expand_found-failed :
      (s : Bytes) {e : MacroError}
      → v.flavor ≡ var_recursive
      → v.value ≡ some s
      → expand s [] (record st { variables = change_in n enter st.variables }) ≡ failed e
      → expand_found expand n [] v st ≡ failed e
  unfolding expand_found
  expand_found-failed s k h f = rw (h, k, f) refl

module _ (m : P (Option Bytes)) (k : P Bytes) (st : MacroState) where
  or_else-done :
      {s : Bytes} {st' : MacroState} → m st ≡ done (some s) st' → or_else m k st ≡ done s st'
  unfolding or_else
  or_else-done h = bind-done m (λ r. elim r [ some s ↦ pure s | none ↦ k ]) st h

  or_else-failed : {e : MacroError} → m st ≡ failed e → or_else m k st ≡ failed e
  unfolding or_else
  or_else-failed h = bind-failed m (λ r. elim r [ some s ↦ pure s | none ↦ k ]) st h

  or_else-fault : m st ≡ fault → or_else m k st ≡ fault
  unfolding or_else
  or_else-fault h = bind-fault m (λ r. elim r [ some s ↦ pure s | none ↦ k ]) st h

module _ (getenv : Bytes → Option Bytes) (run : Bytes → Bytes) (current_file : Bytes)
    (yylineno : ℕ) where
  abbrev expand_with : ℕ → Bytes → List Bytes → P Bytes
  expand_with = expand_string_with_args getenv run current_file yylineno

  module _ (expand : Bytes → List Bytes → P Bytes) (n : Bytes) (st : MacroState) where
    resolve-done :
        (s : Bytes)
        → variable_expand expand n [] st ≡ done (some s) st
        → resolve getenv run current_file yylineno expand n [] st ≡ done s st
    unfolding resolve
    resolve-done s h = or_else-done (variable_expand expand n []) _ st h

    pub resolve-failed :
        {e : MacroError}
        → variable_expand expand n [] st ≡ failed e
        → resolve getenv run current_file yylineno expand n [] st ≡ failed e
    unfolding resolve
    resolve-failed h = or_else-failed (variable_expand expand n []) _ st h

    resolve-fault :
        variable_expand expand n [] st ≡ fault
        → resolve getenv run current_file yylineno expand n [] st ≡ fault
    unfolding resolve
    resolve-fault h = or_else-fault (variable_expand expand n []) _ st h

  module _ (fuel : ℕ) (n : Bytes) (name : IsName n) (st : MacroState) (v : Variable)
      (found : lookup_in n st.variables ≡ some v) where
    -- A reference to a simple variable that is not being expanded gives its value, and changes
    -- nothing.
    pub expand-reference-simple :
        (s : Bytes)
        → v.flavor ≡ var_simple
        → v.value ≡ some s
        → v.exp_count ≡ 0
        → expand_with (suc (suc fuel)) (reference n) [] st ≡ done s st
    expand-reference-simple s k h z =
        let e = expand_with (suc fuel) in
        expand-reference getenv run current_file yylineno fuel n name st (done s st) (
          resolve-done e n st s (
            variable_expand-found e n st v found
            ∙ bind-done (expand_checked e n [] v) (λ r. pure (some r)) st
                (expand_checked-idle e n st v found z ∙ expand_found-simple e n st v found s k h)))

    -- A reference to a variable that is being expanded.
    pub expand-reference-busy :
        ltb 0 v.exp_count ≡ true
        → expand_with (suc (suc fuel)) (reference n) [] st ≡ failed (recursive_variable n)
    expand-reference-busy b =
        let e = expand_with (suc fuel) in
        expand-reference getenv run current_file yylineno fuel n name st
          (failed (recursive_variable n))
          (resolve-failed e n st (
            variable_expand-found e n st v found
            ∙ bind-failed (expand_checked e n [] v) (λ r. pure (some r)) st
                (expand_checked-busy e n st v found b)))

    -- A reference to a variable whose value is not there.
    pub expand-reference-missing :
        v.value ≡ none → v.exp_count ≡ 0 → expand_with (suc (suc fuel)) (reference n) [] st ≡ fault
    expand-reference-missing h z =
        let e = expand_with (suc fuel) in
        expand-reference getenv run current_file yylineno fuel n name st fault (
          resolve-fault e n st (
            variable_expand-found e n st v found
            ∙ bind-fault (expand_checked e n [] v) (λ r. pure (some r)) st
                (expand_checked-idle e n st v found z ∙ expand_found-fault e n st v found h)))
