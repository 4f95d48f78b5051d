-- ===== src/Util.antt =====
-- scripts/kconfig/util.c: growable strings, and the list of the files that are read. Memory does not
-- run out here: the code ends the program where it does.
pub mod Laws
use kdevops.Prelude.{
  ℕ, zero, suc, ◌+◌, ◌%◌, ◌^◌, Bool, true, false, Option, none, some, List, [], ◌∷◌, ◌++◌, length,
  ltb, if◌then◌else◌, Bytes,
}
use kdevops.Macro.Builtin.{bytes_eq, take}

-- `struct gstr`: the text up to its terminating zero, none where it is freed, and the size of the
-- buffer, a `size_t`.
pub record Gstr : Type 0 where
  pub s : Option Bytes
  pub len : ℕ
  pub max_width : ℕ

unfoldable pub str_new : Gstr
str_new = record { s = some []; len = 64; max_width = 0 }

unfoldable pub str_free : Gstr → Gstr
str_free gs = record gs { s = none; len = 0 }

-- The buffer grows to the size that is needed.
abbrev pub grow : ℕ → ℕ → ℕ
grow len l = if ltb len l then l else len

-- There is no result where the text is freed.
unfoldable pub str_append : Gstr → Option Bytes → Option Gstr
str_append gs none = some gs
str_append gs (some t) = elim gs.s [
  | none ↦ none
  | some s ↦
      some (record gs { s = some (s ++ t); len = grow gs.len ((length s + length t + 1) % 2 ^ 64) })
]

-- `str_printf`, given the whole text that the format stands for.
unfoldable pub str_printf : Gstr → Bytes → Option Gstr
unfolding str_append take
str_printf gs formatted = str_append gs (some (take 9999 formatted))

-- `struct file`, whose address is the number of files that were made before it.
pub record File : Type 0 where
  pub name : Bytes
  pub lineno : ℕ

-- The file of a name in the list, whose first file was made last.
unfoldable pub find_file : Bytes → List File → Option ℕ
unfolding bytes_eq
find_file name [] = none
find_file name (f ∷ fs) =
    let rest = find_file name fs in if bytes_eq name f.name then some (length fs) else rest

abbrev pub new_file : Bytes → File
new_file name = record { name = name; lineno = 0 }

-- The file and the list after the call.
unfoldable pub file_lookup : Bytes → List File → ℕ × List File
unfolding find_file
file_lookup name fs = elim (find_file name fs) [
  | some f ↦ (f, fs)
  | none ↦ (length fs, new_file name ∷ fs)
]
