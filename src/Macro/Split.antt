-- ===== src/Macro/Split.antt =====
-- scripts/kconfig/preprocess.c: the loop of `eval_clause` that splits a clause at its commas.
pub mod Bounds
use kdevops.Prelude.{
  ℕ, zero, suc, ◌+◌, ◌-◌, Bool, true, false, ◌&&◌, List, [], ◌∷◌, ◌++◌, ◌==◌, leb, if◌then◌else◌,
  Bytes,
}

abbrev pub function_max_args : ℕ
function_max_args = 16

-- The parts of a clause; a refusal; or a write behind the end of `new_argv`.
pub data Split : Type 0 where
  parts : List Bytes → Split
  refused overrun : Split

-- The nesting behind a byte. A clause is balanced, so that the nesting does not fall below zero.
unfoldable pub nest_after : ℕ → ℕ → ℕ
nest_after nest c = if c == b'(' then suc nest else if c == b')' then nest - 1 else nest

abbrev pub is_separator : ℕ → ℕ → Bool
is_separator nest c = nest == 0 && c == b','

abbrev add_part : Bytes → Split → Split
add_part p (parts ps) = parts (p ∷ ps)
add_part p refused = refused
add_part p overrun = overrun

-- What stands behind the last comma is added with no test of the count.
unfoldable pub last_part : ℕ → Bytes → Split
last_part argc p = if leb function_max_args argc then overrun else parts (p ∷ [])

-- `argc` parts are there already, and `prev` is the text from the last comma on.
unfoldable pub split_from : ℕ → ℕ → Bytes → Bytes → Split
unfolding nest_after last_part
split_from argc nest prev [] = last_part argc prev
split_from argc nest prev (c ∷ cs) =
    let next = add_part prev (split_from (suc argc) nest [] cs) in
    let same = split_from argc (nest_after nest c) (prev ++ c ∷ []) cs in
    if is_separator nest c then (if leb function_max_args argc then refused else next) else same

unfoldable pub split_clause : Bytes → Split
unfolding split_from
split_clause s = split_from 0 0 [] s
