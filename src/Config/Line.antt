-- ===== src/Config/Line.antt =====
-- scripts/kconfig/confdata.c: the lines of a configuration file, as `conf_read_simple` takes them
-- apart. The prefix CONFIG_ is its default. A file holds no zero byte.
pub mod Laws
use kdevops.Prelude.{
  ℕ, zero, suc, ◌+◌, Bool, true, false, ◌&&◌, ◌||◌, Option, none, some, List, [], ◌∷◌, ◌++◌, ◌==◌,
  if◌then◌else◌, Bytes, codes,
}

-- The rest of a text behind a prefix of it: `memcmp` or `strncmp`, and a step over it.
unfoldable pub strip_prefix : Bytes → Bytes → Option Bytes
strip_prefix [] s = some s
strip_prefix (p ∷ ps) [] = none
strip_prefix (p ∷ ps) (c ∷ cs) = if p == c then strip_prefix ps cs else none

-- What stands in front of the first occurrence of a byte, and behind it: `strchr`.
unfoldable pub split_at : ℕ → Bytes → Option (Bytes × Bytes)
split_at b [] = none
split_at b (c ∷ cs) =
    if c == b
    then some ([], cs)
    else elim (split_at b cs) [ none ↦ none | some (l, r) ↦ some (c ∷ l, r) ]

abbrev onto_first : ℕ → List Bytes → List Bytes
onto_first c [] = (c ∷ []) ∷ []
onto_first c (l ∷ ls) = (c ∷ l) ∷ ls

-- The lines that `compat_getline` gives: each with its newline, but the last may have none.
unfoldable pub file_lines : Bytes → List Bytes
file_lines [] = []
file_lines (c ∷ cs) =
    let rest = file_lines cs in if c == b'\n' then (c ∷ []) ∷ rest else onto_first c rest

-- The text without a carriage return at its end.
unfoldable pub drop_return : Bytes → Bytes
drop_return [] = []
drop_return (c ∷ []) = if c == b'\r' then [] else c ∷ []
drop_return (c ∷ d ∷ cs) = c ∷ drop_return (d ∷ cs)

-- The value of an assignment: up to the newline, if there is one.
unfoldable pub line_value : Bytes → Bytes
unfolding split_at drop_return
line_value p = elim (split_at b'\n' p) [ none ↦ p | some (v, rest) ↦ drop_return v ]

-- What a line says.
pub data Line : Type 0 where
  unset : Bytes → Line
  assign : Bytes → Bytes → Line
  ignored unexpected : Line

drop_two : Bytes → Bytes
drop_two (a ∷ b ∷ cs) = cs
drop_two _ = []

unfoldable pub unset_line : Bytes → Bytes → Line
unfolding strip_prefix
unset_line name p = elim (strip_prefix (codes "is not set") p) [
  | none ↦ ignored
  | some r ↦ unset name
]

-- A line that starts with `#`.
unfoldable pub comment_line : Bytes → Line
unfolding strip_prefix split_at drop_two unset_line
comment_line line = elim (strip_prefix (codes "CONFIG_") (drop_two line)) [
  | none ↦ ignored
  | some r ↦ elim (split_at b' ' r) [ none ↦ ignored | some (name, p) ↦ unset_line name p ]
]

unexpected_line : ℕ → Line
unexpected_line c = if c == b'\r' || c == b'\n' then ignored else unexpected

unfoldable pub parse_line : Bytes → Line
unfolding strip_prefix split_at line_value comment_line unexpected_line
parse_line [] = ignored
parse_line (c ∷ cs) =
    if c == b'#' then comment_line (c ∷ cs) else elim (strip_prefix (codes "CONFIG_") (c ∷ cs)) [
      | none ↦ unexpected_line c
      | some r ↦ elim (split_at b'=' r) [
        | none ↦ ignored
        | some (name, p) ↦ assign name (line_value p)
      ]
    ]
