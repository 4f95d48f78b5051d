-- ===== src/Macro/Expand.antt =====
-- scripts/kconfig/preprocess.c: `eval_clause`, `expand_dollar_with_args` and `__expand_string`, whose
-- two loops over the text are one here: `scan` goes through it once. `fuel` bounds the nesting of
-- the recursion.
use kdevops.Prelude.{
  ℕ, zero, suc, ◌-◌, Bool, true, false, ◌&&◌, ◌||◌, not, Option, none, some, List, [], ◌∷◌, ◌++◌,
  ◌==◌, ltb, leb, length, if◌then◌else◌, Bytes, codes,
}
use kdevops.Libc.{Conversion, strtoull, isdigit, is_within}
use kdevops.Macro.{
  VariableFlavor, MacroState, MacroError, unterminated, too_many_arguments, Outcome, done, fault,
  starved, P, ◌>>=◌, ◌>>◌, pure, pperror,
}
use kdevops.Macro.Builtin.{env_expand, function_expand}
use kdevops.Macro.Split.{Split, parts, refused, overrun, split_clause}
use kdevops.Macro.Variables.{is_empty, variable_expand, variable_add}
pub mod Plain
pub mod Reference
pub mod Recursion
pub mod SelfReference
pub mod Keeps

nth : ℕ → List Bytes → Option Bytes
nth n [] = none
nth zero (a ∷ as') = some a
nth (suc n) (a ∷ as') = nth n as'

abbrev is_empty_text : Bytes → Bool
is_empty_text [] = true
is_empty_text (c ∷ cs) = false

-- The argument of a number that is in their range.
unfoldable pub argument : Conversion → List Bytes → Option Bytes
unfolding nth
argument n args = if is_empty_text n.tail && ltb 0 n.bits then nth (n.bits - 1) args else none

-- The argument that a clause such as `1` stands for, if there is one.
unfoldable pub positional : Bytes → List Bytes → Option Bytes
unfolding strtoull argument
positional s args = argument (strtoull 10 s) args

-- The two modes of the scan: text, or a clause with its nesting and the part of it that is read.
pub data Mode : Type 0 where
  in_text : Mode
  in_clause : ℕ → Bytes → Mode

-- Puts bytes in front of what an expansion gives.
abbrev pub in_front : Bytes → P (Bytes × Bytes) → P (Bytes × Bytes)
in_front s m = m >>= λ r. pure (s ++ r.0, r.1)

-- The clause behind an opening parenthesis, and the text behind its closing one, if there is one.
unfoldable pub clause_end : ℕ → Bytes → Bytes → Option (Bytes × Bytes)
clause_end nest read [] = none
clause_end nest read (c ∷ cs) =
    let deeper = clause_end (suc nest) (read ++ c ∷ []) cs in
    let higher = clause_end (nest - 1) (read ++ c ∷ []) cs in
    let same = clause_end nest (read ++ c ∷ []) cs in
    if c == b'('
    then deeper
    else if c == b')'
    then (if nest == 0 then some (read, cs) else higher)
    else same

-- The text is read up to a byte that `is_end` accepts; `eval` is what a clause is worth.
unfoldable pub scan : (ℕ → Bool) → (Bytes → P Bytes) → Mode → Bytes → P (Bytes × Bytes)
scan is_end eval in_text [] = pure ([], [])
scan is_end eval in_text (c ∷ []) =
    if c == b'$'
    then pure (c ∷ [], [])
    else if is_end c
    then pure ([], c ∷ [])
    else pure (c ∷ [], [])
scan is_end eval in_text (c ∷ d ∷ cs) =
    let clause = scan is_end eval (in_clause 0 []) cs in
    let text = in_front (c ∷ []) (scan is_end eval in_text (d ∷ cs)) in
    if c == b'$' && d == b'('
    then clause
    else if c == b'$'
    then text
    else if is_end c
    then pure ([], c ∷ d ∷ cs)
    else text
scan is_end eval (in_clause nest read) [] = pperror (unterminated read)
scan is_end eval (in_clause nest read) (c ∷ cs) =
    let deeper = scan is_end eval (in_clause (suc nest) (read ++ c ∷ [])) cs in
    let higher = scan is_end eval (in_clause (nest - 1) (read ++ c ∷ [])) cs in
    let same = scan is_end eval (in_clause nest (read ++ c ∷ [])) cs in
    let after = eval read >>= λ s. in_front s (scan is_end eval in_text cs) in
    if c == b'(' then deeper else if c == b')' then (if nest == 0 then after else higher) else same

unfoldable pub expand_all : (Bytes → P Bytes) → List Bytes → P (List Bytes)
expand_all expand [] = pure []
expand_all expand (s ∷ ss) = do a ← expand s; as' ← expand_all expand ss; pure (a ∷ as')

unfoldable pub never_ends : ℕ → Bool
never_ends c = false

-- `is_end_of_token`, for a byte that is not zero.
unfoldable pub is_end_of_token : ℕ → Bool
unfolding isdigit
is_end_of_token c =
    not (isdigit c || is_within b'a' b'z' c || is_within b'A' b'Z' c || c == b'_' || c == b'-')

-- A result if there is one, and else what comes next.
unfoldable pub or_else : P (Option Bytes) → P Bytes → P Bytes
or_else m k = m >>= λ r. elim r [ some s ↦ pure s | none ↦ k ]

module _ (getenv : Bytes → Option Bytes) (run : Bytes → Bytes) (current_file : Bytes)
    (yylineno : ℕ) where
  module _ (expand : Bytes → List Bytes → P Bytes) where
    -- Variables come first, then the built-in functions, and the environment last.
    unfoldable pub resolve : Bytes → List Bytes → P Bytes
    unfolding variable_expand function_expand env_expand or_else
    resolve name args = or_else (variable_expand expand name args) (
        or_else (function_expand getenv run current_file yylineno name args) (
          or_else
            (if is_empty args then env_expand getenv run current_file yylineno name else pure none)
            (pure [])))

    unfoldable pub call_parts : List Bytes → List Bytes → P Bytes
    unfolding resolve expand_all
    call_parts args [] = λ st. fault
    call_parts args (p ∷ ps) = do
      name ← expand p args
      new_args ← expand_all (λ s. expand s args) ps
      resolve name new_args

    unfoldable pub eval_split : List Bytes → Split → P Bytes
    unfolding call_parts
    eval_split args (parts ps) = call_parts args ps
    eval_split args refused = pperror too_many_arguments
    eval_split args overrun = λ st. fault

    unfoldable pub eval_clause : Bytes → List Bytes → P Bytes
    unfolding positional split_clause eval_split
    eval_clause s args = elim (positional s args) [
      | some a ↦ pure a
      | none ↦ eval_split args (split_clause s)
    ]

  unfoldable pub expand_string_with_args : ℕ → Bytes → List Bytes → P Bytes
  unfolding scan eval_clause never_ends
  expand_string_with_args zero s args st = starved
  expand_string_with_args (suc fuel) s args st =
      (scan never_ends (λ c. eval_clause (expand_string_with_args fuel) c args) in_text s >>= λ r.
      pure r.0)
        st

  unfoldable pub expand_one_token : ℕ → Bytes → P (Bytes × Bytes)
  unfolding scan eval_clause expand_string_with_args is_end_of_token
  expand_one_token fuel s =
      scan is_end_of_token (λ c. eval_clause (expand_string_with_args fuel) c []) in_text s

  -- The clause, and the rest of the text behind it.
  eval_first : ℕ → Bytes → P (Bytes × Bytes)
  unfolding clause_end eval_clause expand_string_with_args
  eval_first fuel s = elim (clause_end 0 [] s) [
    | none ↦ pperror (unterminated s)
    | some (c, rest) ↦ eval_clause (expand_string_with_args fuel) c [] >>= λ r. pure (r, rest)
  ]

  -- Behind a `$`: what it expands to, and the rest of the text.
  unfoldable pub expand_dollar : ℕ → Bytes → P (Bytes × Bytes)
  unfolding eval_first
  expand_dollar fuel [] = pure (codes "$", [])
  expand_dollar fuel (c ∷ cs) = if c == b'(' then eval_first fuel cs else pure (codes "$", c ∷ cs)

  -- `variable_add` of the parser.
  unfoldable pub add_variable : ℕ → Bytes → Bytes → VariableFlavor → P (Unit {0})
  unfolding variable_add expand_string_with_args
  add_variable fuel = variable_add (expand_string_with_args fuel)
