-- ===== src/Macro/Builtin/Laws.antt =====
-- scripts/kconfig/preprocess.c: the built-in functions leave the variables as they are.
use kdevops.Prelude.{ℕ, refl, Option, none, some, List, [], ◌∷◌, ltb, length, Bytes, codes}
use kdevops.Macro.{MacroState, Outcome, done, P, pure, ◌>>=◌}
use kdevops.Macro.Keeps.{With, Keeps, bind-Keeps, if-Keeps}
use kdevops.Macro.Builtin.{
  Function, error_if, filename, info, lineno, shell, warning_if, arity, bytes_eq, nth, find_env,
  env_expand, from_environment, call, call_checked, find_function, function_expand,
}

module _ (getenv : Bytes → Option Bytes) (run : Bytes → Bytes) (current_file : Bytes)
    (yylineno : ℕ) where
  call-Keeps :
      (f : Function) (args : List Bytes) → Keeps (call getenv run current_file yylineno f args)
  unfolding call
  call-Keeps error_if args =
      if-Keeps (bytes_eq (nth 0 args) (codes "y")) _ _ (λ st. tt) (λ st. refl)
  call-Keeps filename args = λ st. refl
  call-Keeps info args = λ st. refl
  call-Keeps lineno args = λ st. refl
  call-Keeps shell args = λ st. refl
  call-Keeps warning_if args =
      if-Keeps (bytes_eq (nth 0 args) (codes "y")) _ _ (λ st. refl) (λ st. refl)

  call_checked-Keeps :
      (name : Bytes) (args : List Bytes) (f : Function)
      → Keeps (call_checked getenv run current_file yylineno name args f)
  unfolding call_checked
  call_checked-Keeps name args f =
      if-Keeps (ltb (length args) (arity f)) _ _ (λ st. tt)
        (if-Keeps (ltb (arity f) (length args)) _ _ (λ st. tt) (call-Keeps f args))

  found-Keeps :
      (name : Bytes) (args : List Bytes) (o : Option Function)
      → Keeps (elim o as (λ o. P (Option Bytes)) [
        | none ↦ pure none
        | some f ↦ call_checked getenv run current_file yylineno name args f >>= λ r. pure (some r)
      ])
  found-Keeps name args none = λ st. refl
  found-Keeps name args (some f) =
      bind-Keeps (call_checked getenv run current_file yylineno name args f) (λ r. pure (some r))
        (call_checked-Keeps name args f) (λ r st. refl)

  pub function_expand-Keeps :
      (name : Bytes) (args : List Bytes)
      → Keeps (function_expand getenv run current_file yylineno name args)
  unfolding function_expand
  function_expand-Keeps name args = found-Keeps name args (find_function name)

  from_environment-Keeps :
      (name : Bytes) (o : Option Bytes)
      → Keeps (from_environment getenv run current_file yylineno name o)
  unfolding from_environment
  from_environment-Keeps name none = λ st. refl
  from_environment-Keeps name (some v) = λ st. refl

  known-With :
      (name : Bytes) (st : MacroState) (o : Option Bytes)
      → With st.variables (elim o as (λ o. Outcome (Option Bytes)) [
        | some v ↦ done (some v) st
        | none ↦ from_environment getenv run current_file yylineno name (getenv name) st
      ])
  known-With name st none = from_environment-Keeps name (getenv name) st
  known-With name st (some v) = refl

  pub env_expand-Keeps : (name : Bytes) → Keeps (env_expand getenv run current_file yylineno name)
  unfolding env_expand
  env_expand-Keeps [] = λ st. refl
  env_expand-Keeps (c ∷ cs) = λ st. known-With (c ∷ cs) st (find_env (c ∷ cs) st.envs)
