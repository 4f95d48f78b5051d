-- ===== src/Tests/Print.antt =====
-- Runs of the printer of expr.c, and its theorem at a concrete input.
use kdevops.Prelude.{◌≡◌, refl, some, none, codes, [], List, Bytes}
use kdevops.Tristate.{tri_yes}
use kdevops.Expr.{symbol_mod, symbol_yes, unequal, Expr, symbol, not_expr, and_expr, or_expr, comp}
use kdevops.Config.Names.{table_of}
use kdevops.Symbol.Table.{sym_lookup}
use kdevops.Expr.Print.Grammar.{Token, Lexes, is_word, or_level}
use kdevops.Expr.Print.Output.{expr_fprint, expr_gstr_print, expr_gstr_print_revdep}
use kdevops.Expr.Print.Reads.{AreReadable, expr_fprint-ReadsAs}
use kdevops.Expr.Print.Levels.{ReadsAs}
use kdevops.Tests.{modules, driver, net, sample}
use kdevops.Util.{str_new}

abbrev printed : Expr
printed =
    and_expr (or_expr (symbol driver) (comp unequal net symbol_mod))
      (and_expr (not_expr (symbol net)) (not_expr (or_expr (symbol modules) (symbol symbol_yes))))

fprint_run :
    expr_fprint sample (some printed) []
    ≡ some (codes "(DRIVER || NET!=m) && !NET && !(MODULES || y)")
unfolding expr_fprint
fprint_run = refl

-- A null expression is printed as `y`.
fprint_null : expr_fprint sample none [] ≡ some (codes "y")
unfolding expr_fprint
fprint_null = refl

-- The values stand behind the symbols, but for those of constants.
gstr_run :
    expr_gstr_print sample (some (or_expr (symbol driver) (comp unequal net symbol_mod))) str_new
    ≡ some (record str_new { s = some (codes "DRIVER [=m] || NET [=n]!=m") })
unfolding expr_gstr_print str_new
gstr_run = refl

-- Eleven columns hold no symbol behind an operator.
gstr_narrow :
    expr_gstr_print sample
      (some (or_expr (symbol driver) (symbol net)))
      (record str_new { max_width = 11 })
    ≡ some (record { s = some (codes "DRIVER [=m]\\\n || \\\nNET [=n]"); len = 64; max_width = 11 })
unfolding expr_gstr_print str_new
gstr_narrow = refl

revdep_run :
    expr_gstr_print_revdep sample
      (or_expr (symbol driver) (or_expr (symbol modules) (symbol net)))
      str_new
      tri_yes
      (some (codes "Selected by [y]:\n"))
    ≡ some (record str_new { s = some (codes "Selected by [y]:\n  - MODULES [=y]\n") })
unfolding expr_gstr_print_revdep str_new
revdep_run = refl

printed-AreReadable : AreReadable sample printed
unfolding AreReadable sym_lookup is_word table_of
printed-AreReadable = (
  ((_, refl, refl, refl), ((_, refl, refl, refl), (_, refl, refl, refl))),
  ((_, refl, refl, refl), ((_, refl, refl, refl), (_, refl, refl, refl))),
)

expr_fprint-ReadsAs_example :
    (text : Bytes) × (tokens : List Token) × (expr_fprint sample (some printed) [] ≡ some text)
    × Lexes text tokens
    × ReadsAs sample or_level tokens printed
expr_fprint-ReadsAs_example = expr_fprint-ReadsAs sample printed printed-AreReadable
