-- ===== src/Macro/Builtin.antt =====
-- scripts/kconfig/preprocess.c: environment variables and the built-in functions. The environment, the
-- output of a shell command, and the place in the file that is read are parameters; a command can be
-- started and ends.
use kdevops.Prelude.{
  ℕ, zero, suc, ◌-◌, Bool, true, false, Option, none, some, List, [], ◌∷◌, ◌++◌, ◌==◌, ltb, length,
  if◌then◌else◌, Bytes, codes,
}
use Prim.Native.Nat.{Ordering}
use mathlib.Core.List.{map}
use kdevops.Libc.{strcmp}
use kdevops.Symbol.Range.{print_number}
use kdevops.Macro.{
  done, Env, MacroState, MacroError, user_error, too_few, too_many, P, ◌>>=◌, ◌>>◌, pure, pperror,
  print,
}
pub mod Laws

unfoldable pub bytes_eq : Bytes → Bytes → Bool
unfolding strcmp
bytes_eq a b = elim (strcmp a b) [ Ordering.eq ↦ true | _ ↦ false ]

unfoldable pub find_env : Bytes → List Env → Option Bytes
unfolding bytes_eq
find_env name [] = none
find_env name (e ∷ es) = if bytes_eq name e.name then some e.value else find_env name es

unfoldable pub take : {A : Type 0} → ℕ → List A → List A
take zero xs = []
take (suc n) [] = []
take (suc n) (x ∷ xs) = x ∷ take n xs

-- The text without newlines at its end.
unfoldable pub strip_newlines : Bytes → Bytes
strip_newlines [] = []
strip_newlines (c ∷ cs) = elim (strip_newlines cs) [
  | [] ↦ if c == b'\n' then [] else c ∷ []
  | d ∷ ds ↦ c ∷ d ∷ ds
]

abbrev space_for_newline : ℕ → ℕ
space_for_newline c = if c == b'\n' then b' ' else c

-- The text up to a zero byte: `xstrdup`.
unfoldable pub until_zero : Bytes → Bytes
until_zero [] = []
until_zero (c ∷ cs) = if c == 0 then [] else c ∷ until_zero cs

-- What `do_shell` makes of the output of its command: the buffer has 256 bytes.
unfoldable pub shell_text : Bytes → Bytes
unfolding take strip_newlines until_zero
shell_text out = until_zero (map space_for_newline (strip_newlines (take 255 out)))

abbrev nth : ℕ → List Bytes → Bytes
nth n [] = []
nth zero (a ∷ as') = a
nth (suc n) (a ∷ as') = nth n as'

-- The functions of `function_table`.
pub data Function : Type 0 where
  error_if filename info lineno shell warning_if : Function

find_function : Bytes → Option Function
unfolding bytes_eq
find_function name =
    if bytes_eq (codes "error-if") name
    then some error_if
    else if bytes_eq (codes "filename") name
    then some filename
    else if bytes_eq (codes "info") name
    then some info
    else if bytes_eq (codes "lineno") name
    then some lineno
    else if bytes_eq (codes "shell") name
    then some shell
    else if bytes_eq (codes "warning-if") name
    then some warning_if
    else none

-- `min_args`, and `max_args` is the same number.
unfoldable pub arity : Function → ℕ
arity error_if = 2
arity filename = 0
arity info = 1
arity lineno = 0
arity shell = 1
arity warning_if = 2

module _ (getenv : Bytes → Option Bytes) (run : Bytes → Bytes) (current_file : Bytes)
    (yylineno : ℕ) where
  env_add : Bytes → Bytes → P (Unit {0})
  env_add name value st =
      done tt (record st { envs = st.envs ++ record { name = name; value = value } ∷ [] })

  from_environment : Bytes → Option Bytes → P (Option Bytes)
  unfolding env_add
  from_environment name none = pure none
  from_environment name (some v) = env_add name v >> pure (some v)

  unfoldable pub env_expand : Bytes → P (Option Bytes)
  unfolding find_env from_environment
  env_expand [] = pure none
  env_expand (c ∷ cs) = λ st. elim (find_env (c ∷ cs) st.envs) [
    | some v ↦ done (some v) st
    | none ↦ from_environment (c ∷ cs) (getenv (c ∷ cs)) st
  ]

  call : Function → List Bytes → P Bytes
  unfolding bytes_eq shell_text print_number
  call error_if args =
      if bytes_eq (nth 0 args) (codes "y") then pperror (user_error (nth 1 args)) else pure []
  call filename args = pure current_file
  call info args = print (nth 0 args) >> pure []
  call lineno args = pure (print_number 10 yylineno)
  call shell args = pure (shell_text (run (nth 0 args)))
  call warning_if args =
      if bytes_eq (nth 0 args) (codes "y") then (print (nth 1 args) >> pure []) else pure []

  call_checked : Bytes → List Bytes → Function → P Bytes
  unfolding call arity
  call_checked name args f =
      if ltb (length args) (arity f)
      then pperror (too_few name)
      else if ltb (arity f) (length args)
      then pperror (too_many name)
      else call f args

  unfoldable pub function_expand : Bytes → List Bytes → P (Option Bytes)
  unfolding find_function call_checked
  function_expand name args = elim (find_function name) [
    | none ↦ pure none
    | some f ↦ call_checked name args f >>= λ r. pure (some r)
  ]
