-- ===== src/Expr/Print/Output.antt =====
-- scripts/kconfig/expr.c: the callbacks of `expr_print` and their callers. A result is missing where
-- the code reads through a null pointer.
use kdevops.Prelude.{
  ℕ, ◌+◌, ◌%◌, ◌^◌, Bool, true, false, Option, none, some, List, [], ◌∷◌, ◌++◌, ◌==◌, ltb, length,
  if◌then◌else◌, Bytes, codes,
}
use kdevops.Tristate.{Tristate, tri_eq}
use kdevops.Expr.{SymId, Expr, or_expr}
use kdevops.Expr.Outcome.{◌>>=◌}
use kdevops.Expr.Print.{Piece, mark, e_none, expr_print}
use kdevops.Expr.Value.{value}
use kdevops.Symbol.{SymbolType, s_unknown, Store}
use kdevops.Symbol.Compare.{sym_get_string_value}
use kdevops.Util.{Gstr, str_append, str_printf}

-- The calls of a callback, on what it writes to.
unfoldable pub each_piece {ℓ} : {A : Type ℓ} → (A → Piece → Option A) → A → List Piece → Option A
each_piece fn out [] = some out
each_piece fn out (p ∷ ps) = do out ← fn out p; each_piece fn out ps

-- `expr_print_file_helper`, on what the file holds.
unfoldable pub expr_print_file_helper : Bytes → Piece → Option Bytes
expr_print_file_helper out p = do str ← p.str; some (out ++ str)

unfoldable pub expr_fprint : Store → Option Expr → Bytes → Option Bytes
unfolding each_piece expr_print_file_helper expr_print
expr_fprint st e out = each_piece expr_print_file_helper out (expr_print st e e_none)

-- The bytes of a text from its last newline on, or all of them: `seen` are those since the last one.
unfoldable pub last_line_length : ℕ → Bytes → ℕ
last_line_length seen [] = seen
last_line_length seen (c ∷ cs) = last_line_length (if c == 10 then 1 else seen + 1) cs

unfoldable pub symbol_length : Option Bytes → ℕ
symbol_length none = 0
symbol_length (some t) = 4 + length t

-- The line is broken before the piece where it would not fit. The lengths are of type `unsigned`.
unfoldable pub break_line : Gstr → Option Bytes → Option Bytes → Option Gstr
unfolding last_line_length symbol_length str_append
break_line gs sym_str str = do
  piece ← str
  s ← gs.s
  let extra = (length piece + symbol_length sym_str) % 2 ^ 32
  let line = last_line_length 0 s % 2 ^ 32
  if ltb gs.max_width ((line + extra) % 2 ^ 32)
      then str_append gs (some (codes "\\\n"))
      else some gs

abbrev pub is_unknown : SymbolType → Bool
is_unknown s_unknown = true
is_unknown _ = false

-- The value behind a symbol whose type is known.
unfoldable pub append_value : Store → Gstr → Option SymId → Option Gstr
unfolding str_printf sym_get_string_value
append_value st gs none = some gs
append_value st gs (some s) =
    if is_unknown (st.sym s).type
    then some gs
    else str_printf gs (codes " [=" ++ (sym_get_string_value st s ++ codes "]"))

unfoldable pub value_text : Store → Option SymId → Option Bytes
unfolding sym_get_string_value
value_text st none = none
value_text st (some s) = some (sym_get_string_value st s)

unfoldable pub expr_print_gstr_helper : Store → Gstr → Piece → Option Gstr
unfolding break_line append_value value_text
expr_print_gstr_helper st gs p = do
  gs ← if gs.max_width == 0 then some gs else break_line gs (value_text st p.sym) p.str
  gs ← str_append gs p.str
  append_value st gs p.sym

unfoldable pub expr_gstr_print : Store → Option Expr → Gstr → Option Gstr
unfolding each_piece expr_print_gstr_helper expr_print
expr_gstr_print st e gs = each_piece (expr_print_gstr_helper st) gs (expr_print st e e_none)

-- A title that is not null is handed out once.
unfoldable pub title_piece : Option Bytes → List Piece
title_piece none = []
title_piece (some t) = record { sym = none; str = some t } ∷ []

-- An operand of `||`, where all symbols are calculated.
unfoldable pub revdep_line : Store → Expr → Tristate → Option Bytes → List Piece × Option Bytes
unfolding title_piece expr_print value
revdep_line st e pr_type title =
    if tri_eq (value st e) pr_type
    then (
      title_piece title ++ mark "  - " ∷ (expr_print st (some e) e_none ++ mark "\n" ∷ []),
      none,
    )
    else ([], title)

-- The pieces, and the title that is left.
unfoldable pub expr_print_revdep :
    Store → Expr → Tristate → Option Bytes → List Piece × Option Bytes
unfolding revdep_line
expr_print_revdep st (or_expr l r) pr_type title =
    let (ps, rest) = expr_print_revdep st l pr_type title in
    let (qs, last) = expr_print_revdep st r pr_type rest in (ps ++ qs, last)
expr_print_revdep st e pr_type title = revdep_line st e pr_type title

unfoldable pub expr_gstr_print_revdep : Store → Expr → Gstr → Tristate → Option Bytes → Option Gstr
unfolding each_piece expr_print_gstr_helper expr_print_revdep
expr_gstr_print_revdep st e gs pr_type title =
    each_piece (expr_print_gstr_helper st) gs (expr_print_revdep st e pr_type title).0
