-- ===== src/Macro.antt =====
-- scripts/kconfig/preprocess.c: the macro language of Kconfig files, variables, functions and the
-- expansion of texts. This file has the state and the chaining of steps.
pub mod Laws
pub mod Keeps
pub mod Split
pub mod Builtin
pub mod Variables
pub mod Expand
use kdevops.Prelude.{ℕ, Option, List, ◌∷◌, Bytes}

-- `enum variable_flavor`
pub data VariableFlavor : Type 0 where
  var_simple var_recursive var_append : VariableFlavor

-- The value is none where it is freed, or not set yet.
pub record Variable : Type 0 where
  pub name : Bytes
  pub value : Option Bytes
  pub flavor : VariableFlavor
  pub exp_count : ℕ

-- `struct env`
pub record Env : Type 0 where
  pub name : Bytes
  pub value : Bytes

-- `variable_list`, `env_list`, and the texts that were printed, the last one first.
pub record MacroState : Type 0 where
  pub variables : List Variable
  pub envs : List Env
  pub printed : List Bytes

-- What `pperror` is called with; it ends the program.
pub data MacroError : Type 0 where
  user_error too_few too_many recursive_variable unterminated : Bytes → MacroError
  too_deep too_many_arguments : MacroError

-- The end of a computation: a result, an error, an access to memory that is not there, or no fuel.
pub data Outcome (A : Type 0) : Type 0 where
  done : A → MacroState → Outcome A
  failed : MacroError → Outcome A
  fault : Outcome A
  starved : Outcome A

abbrev pub P : Type 0 → Type 0
P A = MacroState → Outcome A

infixl 5 ◌>>=◌ ◌>>◌
abbrev pub ◌>>=◌ : {A B : Type 0} → P A → (A → P B) → P B
◌>>=◌ m f st = elim (m st) [
  | done a st' ↦ f a st'
  | failed e ↦ failed e
  | fault ↦ fault
  | starved ↦ starved
]

abbrev pub ◌>>◌ : {B : Type 0} → P (Unit {0}) → P B → P B
m >> k = m >>= λ _. k

abbrev pub pure : {A : Type 0} → A → P A
pure a st = done a st

abbrev pub pperror : {A : Type 0} → MacroError → P A
pperror e st = failed e

abbrev pub print : Bytes → P (Unit {0})
print s st = done tt (record st { printed = s ∷ st.printed })
