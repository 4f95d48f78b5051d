-- ===== src/Macro/Expand/Keeps.antt =====
-- scripts/kconfig/preprocess.c: expansion leaves every variable as it is, with its count of expansions.
use kdevops.Prelude.{
  ℕ, zero, suc, ◌-◌, ◌&&◌, ◌≡◌, refl, ◌∙◌, ap, Bool, Option, none, some, List, [], ◌∷◌, ◌++◌, ◌==◌,
  ltb, if◌then◌else◌, Bytes,
}
use mathlib.Core.Path.{subst}
use kdevops.Macro.{
  Variable, MacroState, Outcome, done, failed, fault, starved, P, ◌>>=◌, ◌>>◌, pure,
}
use kdevops.Macro.Keeps.{With, Keeps, bind-Keeps, if-Keeps}
use kdevops.Macro.Builtin.Laws.{function_expand-Keeps, env_expand-Keeps}
use kdevops.Macro.Builtin.{env_expand, function_expand}
use kdevops.Macro.Variables.{
  change_in, change_variable, is_recursive, value_of, expand_found, expand_checked, variable_expand,
  lookup_in, is_empty, read_value,
}
use kdevops.Macro.Variables.Laws.{change-change}
use kdevops.Macro.Split.{Split, parts, refused, overrun, split_clause}
use kdevops.Macro.Expand.{
  Mode, in_text, in_clause, in_front, scan, or_else, expand_all, resolve, call_parts, eval_split,
  eval_clause, positional, expand_string_with_args, never_ends,
}
use kdevops.Macro.Expand.Recursion.{enter, leave, leave-enter}

pure-Keeps : {A : Type 0} (a : A) → Keeps (pure a)
pure-Keeps a st = refl

in_front-Keeps : (s : Bytes) (m : P (Bytes × Bytes)) → Keeps m → Keeps (in_front s m)
in_front-Keeps s m h = bind-Keeps m (λ r. pure (s ++ r.0, r.1)) h (λ r st. refl)

or_else-Keeps : (m : P (Option Bytes)) (k : P Bytes) → Keeps m → Keeps k → Keeps (or_else m k)
unfolding or_else
or_else-Keeps m k h g = bind-Keeps m (λ r. elim r [ some s ↦ pure s | none ↦ k ]) h (or_next k g)
  where
    or_next :
        (k : P Bytes)
        → Keeps k
        → (r : Option Bytes) → Keeps (elim r as (λ r. P Bytes) [ some s ↦ pure s | none ↦ k ])
    or_next k g none = g
    or_next k g (some s) = λ st. refl

module _ (is_end : ℕ → Bool) (eval : Bytes → P Bytes) (keeps : (c : Bytes) → Keeps (eval c)) where
  scan-Keeps : (mode : Mode) (s : Bytes) → Keeps (scan is_end eval mode s)
  unfolding scan
  scan-Keeps in_text [] = λ st. refl
  scan-Keeps in_text (c ∷ []) =
      if-Keeps (c == b'$') _ _ (λ st. refl) (if-Keeps (is_end c) _ _ (λ st. refl) (λ st. refl))
  scan-Keeps in_text (c ∷ d ∷ cs) =
      let text =
        in_front-Keeps (c ∷ []) (scan is_end eval in_text (d ∷ cs)) (scan-Keeps in_text (d ∷ cs)) in
      if-Keeps (c == b'$' && d == b'(') _ _ (scan-Keeps (in_clause 0 []) cs)
        (if-Keeps (c == b'$') _ _ text (if-Keeps (is_end c) _ _ (λ st. refl) text))
  scan-Keeps (in_clause nest read) [] = λ st. tt
  scan-Keeps (in_clause nest read) (c ∷ cs) =
      if-Keeps (c == b'(') _ _ (scan-Keeps (in_clause (suc nest) (read ++ c ∷ [])) cs) (
        if-Keeps (c == b')') _ _
          (if-Keeps (nest == 0) _ _
            (bind-Keeps (eval read) (λ s. in_front s (scan is_end eval in_text cs)) (keeps read)
              (λ s. in_front-Keeps s (scan is_end eval in_text cs) (scan-Keeps in_text cs)))
            (scan-Keeps (in_clause (nest - 1) (read ++ c ∷ [])) cs))
          (scan-Keeps (in_clause nest (read ++ c ∷ [])) cs))

expand_all-Keeps :
    (expand : Bytes → P Bytes)
    → ((s : Bytes) → Keeps (expand s))
    → (ss : List Bytes) → Keeps (expand_all expand ss)
unfolding expand_all
expand_all-Keeps expand h [] = λ st. refl
expand_all-Keeps expand h (s ∷ ss) =
    bind-Keeps (expand s) (λ a. expand_all expand ss >>= λ as'. pure (a ∷ as')) (h s)
      (λ a.
        bind-Keeps (expand_all expand ss) (λ as'. pure (a ∷ as')) (expand_all-Keeps expand h ss)
          (λ as' st. refl))

value-With :
    (st : MacroState) (o : Option Bytes)
    → With st.variables (elim o as (λ o. Outcome Bytes) [ none ↦ fault | some s ↦ done s st ])
value-With st none = tt
value-With st (some s) = refl

read_value-Keeps : (v : Variable) → Keeps (read_value v)
unfolding read_value
read_value-Keeps v st = value-With st v.value

-- Leaving a variable that was entered gives the variables from before.
leave-With :
    (name : Bytes) (vs : List Variable) (o : Outcome Bytes)
    → With (change_in name enter vs) o
    → With vs (elim o [
      | done a st ↦ (change_variable name leave >> pure a) st
      | failed e ↦ failed e
      | fault ↦ fault
      | starved ↦ starved
    ])
unfolding change_variable
leave-With name vs (done a st) h =
    ap (change_in name leave) h ∙ change-change name enter leave vs (λ v. refl) (λ v. leave-enter v)
leave-With name vs (failed e) h = tt
leave-With name vs fault h = tt
leave-With name vs starved h = tt

module _ (expand : Bytes → List Bytes → P Bytes)
    (keeps : (s : Bytes) (args : List Bytes) → Keeps (expand s args)) where
  value_of-Keeps : (v : Variable) (args : List Bytes) → Keeps (value_of expand v args)
  unfolding value_of
  value_of-Keeps v args =
      bind-Keeps (read_value v) (λ s. if is_recursive v.flavor then expand s args else pure s)
        (read_value-Keeps v) (λ s. if-Keeps (is_recursive v.flavor) _ _ (keeps s args) (λ st. refl))

  -- The count of expansions goes up and down again.
  expand_found-Keeps :
      (name : Bytes) (args : List Bytes) (v : Variable) → Keeps (expand_found expand name args v)
  unfolding expand_found
  expand_found-Keeps name args v st =
      leave-With name st.variables
        (value_of expand v args (record st { variables = change_in name enter st.variables }))
        (value_of-Keeps v args (record st { variables = change_in name enter st.variables }))

  expand_checked-Keeps :
      (name : Bytes) (args : List Bytes) (v : Variable) → Keeps (expand_checked expand name args v)
  unfolding expand_checked
  expand_checked-Keeps name args v =
      if-Keeps (is_empty args && ltb 0 v.exp_count) _ _ (λ st. tt)
        (if-Keeps (ltb 1000 v.exp_count) _ _ (λ st. tt) (expand_found-Keeps name args v))

  found-Keeps :
      (name : Bytes) (args : List Bytes) (o : Option Variable)
      → Keeps (elim o as (λ o. P (Option Bytes)) [
        | none ↦ pure none
        | some v ↦ expand_checked expand name args v >>= λ r. pure (some r)
      ])
  found-Keeps name args none = λ st. refl
  found-Keeps name args (some v) =
      bind-Keeps (expand_checked expand name args v) (λ r. pure (some r))
        (expand_checked-Keeps name args v) (λ r st. refl)

  variable_expand-Keeps :
      (name : Bytes) (args : List Bytes) → Keeps (variable_expand expand name args)
  unfolding variable_expand
  variable_expand-Keeps name args st = found-Keeps name args (lookup_in name st.variables) st

module _ (getenv : Bytes → Option Bytes) (run : Bytes → Bytes) (current_file : Bytes)
    (yylineno : ℕ) where
  module _ (expand : Bytes → List Bytes → P Bytes)
      (keeps : (s : Bytes) (args : List Bytes) → Keeps (expand s args)) where
    resolve-Keeps :
        (name : Bytes) (args : List Bytes)
        → Keeps (resolve getenv run current_file yylineno expand name args)
    unfolding resolve
    resolve-Keeps name args =
        or_else-Keeps (variable_expand expand name args) _
          (variable_expand-Keeps expand keeps name args)
          (or_else-Keeps (function_expand getenv run current_file yylineno name args) _
            (function_expand-Keeps getenv run current_file yylineno name args)
            (or_else-Keeps
              (if is_empty args
                then env_expand getenv run current_file yylineno name
                else pure none)
              (pure [])
              (if-Keeps (is_empty args) _ _ (env_expand-Keeps getenv run current_file yylineno name)
                (λ st. refl))
              (λ st. refl)))

    call_parts-Keeps :
        (args ps : List Bytes) → Keeps (call_parts getenv run current_file yylineno expand args ps)
    unfolding call_parts
    call_parts-Keeps args [] = λ st. tt
    call_parts-Keeps args (p ∷ ps) =
        bind-Keeps (expand p args)
          (λ name. expand_all (λ s. expand s args) ps >>= λ new_args.
            resolve getenv run current_file yylineno expand name new_args)
          (keeps p args)
          (λ name.
            bind-Keeps (expand_all (λ s. expand s args) ps)
              (λ new_args. resolve getenv run current_file yylineno expand name new_args)
              (expand_all-Keeps (λ s. expand s args) (λ s. keeps s args) ps)
              (λ new_args. resolve-Keeps name new_args))

    eval_split-Keeps :
        (args : List Bytes) (r : Split)
        → Keeps (eval_split getenv run current_file yylineno expand args r)
    unfolding eval_split
    eval_split-Keeps args (parts ps) = call_parts-Keeps args ps
    eval_split-Keeps args refused = λ st. tt
    eval_split-Keeps args overrun = λ st. tt

    clause-Keeps :
        (s : Bytes) (args : List Bytes) (o : Option Bytes)
        → Keeps (elim o as (λ o. P Bytes) [
          | some a ↦ pure a
          | none ↦ eval_split getenv run current_file yylineno expand args (split_clause s)
        ])
    clause-Keeps s args none = eval_split-Keeps args (split_clause s)
    clause-Keeps s args (some a) = λ st. refl

    eval_clause-Keeps :
        (s : Bytes) (args : List Bytes)
        → Keeps (eval_clause getenv run current_file yylineno expand s args)
    unfolding eval_clause
    eval_clause-Keeps s args = clause-Keeps s args (positional s args)

  expand-Keeps :
      (fuel : ℕ) (s : Bytes) (args : List Bytes)
      → Keeps (expand_string_with_args getenv run current_file yylineno fuel s args)
  unfolding expand_string_with_args
  expand-Keeps zero s args = λ st. tt
  expand-Keeps (suc fuel) s args =
      let expand = expand_string_with_args getenv run current_file yylineno fuel in
      let eval = λ (c : Bytes). eval_clause getenv run current_file yylineno expand c args in
      bind-Keeps (scan never_ends eval in_text s) (λ r. pure r.0)
        (scan-Keeps never_ends eval
          (λ c. eval_clause-Keeps expand (λ s as'. expand-Keeps fuel s as') c args) in_text s)
        (λ r st. refl)

  -- Whatever a text expands to, with whatever side effects on the output and on the list of
  -- environment variables, every variable is afterwards as it was, its count of expansions included.
  pub expand_string-variables :
      (fuel : ℕ) (s : Bytes) (args : List Bytes) (st st' : MacroState) (out : Bytes)
      → expand_string_with_args getenv run current_file yylineno fuel s args st ≡ done out st'
      → st'.variables ≡ st.variables
  expand_string-variables fuel s args st st' out h =
      subst (With st.variables) h (expand-Keeps fuel s args st)
