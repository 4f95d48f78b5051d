-- ===== src/Tests/Config.antt =====
-- Runs of the code of confdata.c on the small configuration, and its theorems at concrete inputs.
use kdevops.Prelude.{◌≡◌, refl, ◌++◌, ◌∷◌, [], true, none, some, suc, codes, Option}
use kdevops.Tristate.{Tristate, tri_mod}
use kdevops.Expr.{SymId}
use kdevops.Symbol.{Store}
use kdevops.Symbol.State.{update}
use kdevops.Symbol.Table.{sym_find}
use kdevops.Prelude.{length}
use kdevops.Config.Escape.{quote, escape_bytes, escape_string_value, escaped_size, unescape}
use kdevops.Config.Escape.RoundTrip.{unescape-escape_bytes, length-escape_string_value}
use kdevops.Config.Line.{parse_line, assign}
use kdevops.Config.Load.{load, words}
use kdevops.Config.Names.{table_of}
use kdevops.Config.Print.{output_n_as_unset, symbol_line}
use kdevops.Config.Print.RoundTrip.{shown, restored, read_line-symbol_line}
use kdevops.Config.Read.{read_line}
use kdevops.Config.Value.{s_def_user}
use kdevops.Tests.{sample, driver}

unescape-escape_bytes_example :
    unescape (escape_bytes (codes "a\\b") ++ quote ∷ codes " rest") ≡ some (codes "a\\b")
unescape-escape_bytes_example = unescape-escape_bytes (codes "a\\b") (codes " rest")

length-escape_string_value_example :
    suc (length (escape_string_value (codes "a\\b"))) ≡ escaped_size (codes "a\\b")
length-escape_string_value_example = length-escape_string_value (codes "a\\b")

words_run : words (codes " a  bc ") ≡ codes "a" ∷ codes "bc" ∷ []
unfolding words
words_run = refl

line_run : parse_line (codes "CONFIG_NET=y\r\n") ≡ assign (codes "NET") (codes "y")
unfolding parse_line
line_run = refl

-- What a file makes of the user's value of a symbol.
abbrev value_from : SymId → Option (Unit {0} × Store) → Option Tristate
value_from s none = none
value_from s (some (u, st)) = some ((st.sym s).def_value.tri)

load_run :
    value_from driver
      (load s_def_user (codes "# a comment\nCONFIG_DRIVER=m\n# CONFIG_NET is not set\n") sample)
    ≡ some tri_mod
unfolding load
load_run = refl

name_of_driver : sym_find (some (codes "DRIVER")) (table_of sample) ≡ some driver
unfolding sym_find table_of
name_of_driver = refl

read_line-symbol_line_example :
    read_line s_def_user
      (symbol_line output_n_as_unset true
        (sample.sym driver).type
        (codes "DRIVER")
        (shown (sample.sym driver).type tri_mod []))
      sample
    ≡ some (tt, update driver (restored (sample.sym driver).type tri_mod []) sample)
read_line-symbol_line_example =
    read_line-symbol_line (codes "DRIVER") driver sample name_of_driver refl refl refl refl tri_mod
      [] tt
