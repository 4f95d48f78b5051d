-- ===== src/Tests/Util.antt =====
-- Growable strings and the list of files.
use kdevops.Prelude.{◌≡◌, refl, some, [], ◌∷◌, List, Bytes, codes, arith}
use kdevops.Util.{Gstr, str_new, str_printf, file_lookup}
use kdevops.Util.Laws.{append_all, joined, Result, str_append-all}

abbrev texts : List Bytes
texts = codes "Symbol: " ∷ codes "NET" ∷ codes " [=m]" ∷ []

joined_run : joined [] texts ≡ codes "Symbol: NET [=m]"
unfolding joined
joined_run = refl

-- A text that does not fit makes the buffer as large as is needed.
abbrev small : Gstr
small = record { s = some (codes "ab"); len = 3; max_width = 0 }

grow_run :
    str_printf small (codes "cd")
    ≡ some (record { s = some (codes "abcd"); len = 5; max_width = 0 })
unfolding str_printf
grow_run = refl

str_append-all_example : Result (append_all str_new texts) (joined [] texts)
str_append-all_example = str_append-all texts (rw joined_run (omega arith))

-- A file that was read before keeps its address, and a new one is put in front.
lookup_run :
    file_lookup (codes "Kconfig") (record { name = codes "Kconfig"; lineno = 7 } ∷ [])
    ≡ (0, record { name = codes "Kconfig"; lineno = 7 } ∷ [])
unfolding file_lookup
lookup_run = refl
