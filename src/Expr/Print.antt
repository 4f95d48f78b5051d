-- ===== src/Expr/Print.antt =====
-- scripts/kconfig/expr.c: `expr_print`, which hands the pieces of a text to a callback, and the two
-- callbacks. The model lists the calls of the callback in order.
use Prim.Native.Nat.{Ordering, lt, eq, gt}
pub mod Grammar
pub mod Levels
pub mod Reads
pub mod Output
pub mod Lexing
use Prim.Native.String.{String}
use kdevops.Prelude.{
  ℕ, ◌+◌, ◌-◌, Bool, true, false, Option, none, some, List, [], ◌∷◌, ◌++◌, ◌||◌, ◌==◌, ltb, length,
  if◌then◌else◌, Bytes, codes,
}
use kdevops.Expr.{
  SymId, Relation, equal, unequal, lth, leq, gth, geq, Expr, symbol, not_expr, and_expr, or_expr,
  comp,
}
use kdevops.Symbol.{Store}
use kdevops.Symbol.Compare.{is_gt}

-- `enum expr_type`
pub data ExprType : Type 0 where
  e_none e_or e_and e_not e_equal e_unequal e_lth e_leq e_gth e_geq e_list e_symbol e_range :
      ExprType

unfoldable pub type_number : ExprType → ℕ
type_number e_none = 0
type_number e_or = 1
type_number e_and = 2
type_number e_not = 3
type_number e_equal = 4
type_number e_unequal = 5
type_number e_lth = 6
type_number e_leq = 7
type_number e_gth = 8
type_number e_geq = 9
type_number e_list = 10
type_number e_symbol = 11
type_number e_range = 12

abbrev pub is_type : ExprType → ExprType → Bool
is_type t u = type_number t == type_number u

-- The cases of the `switch` from one label on, each of which falls through to the next.
abbrev from_list : ExprType → Ordering
from_list t2 = if is_type t2 e_none then gt else lt

abbrev from_or : ExprType → Ordering
from_or t2 = if is_type t2 e_list then gt else from_list t2

abbrev from_and : ExprType → Ordering
from_and t2 = if is_type t2 e_or then gt else from_or t2

abbrev from_not : ExprType → Ordering
from_not t2 = if is_type t2 e_and then gt else from_and t2

abbrev from_equal : ExprType → Ordering
from_equal t2 = if is_type t2 e_not then gt else from_not t2

abbrev from_order : ExprType → Ordering
from_order t2 = if is_type t2 e_equal || is_type t2 e_unequal then gt else from_equal t2

unfoldable case_of : ExprType → ExprType → Ordering
unfolding type_number
case_of e_leq t2 = from_order t2
case_of e_lth t2 = from_order t2
case_of e_geq t2 = from_order t2
case_of e_gth t2 = from_order t2
case_of e_equal t2 = from_equal t2
case_of e_unequal t2 = from_equal t2
case_of e_not t2 = from_not t2
case_of e_and t2 = from_and t2
case_of e_or t2 = from_or t2
case_of e_list t2 = from_list t2
case_of _ t2 = lt

-- The sign of the result.
unfoldable pub expr_compare_type : ExprType → ExprType → Ordering
unfolding case_of
expr_compare_type t1 t2 = if is_type t1 t2 then eq else case_of t1 t2

-- One call of the callback: the symbol and the text, where they are not null.
pub record Piece : Type 0 where
  pub sym : Option SymId
  pub str : Option Bytes

abbrev pub mark : String → Piece
mark s = record { sym = none; str = some (codes s) }

-- `fn(data, sym, sym->name)`
abbrev pub right_piece : Store → SymId → Piece
right_piece st s = record { sym = some s; str = (st.sym s).name }

-- With the test for a name before it.
unfoldable pub left_piece : Store → SymId → Piece
left_piece st s = elim (st.sym s).name [
  | some name ↦ record { sym = some s; str = some name }
  | none ↦ mark "<choice>"
]

unfoldable pub relation_type : Relation → ExprType
relation_type equal = e_equal
relation_type unequal = e_unequal
relation_type lth = e_lth
relation_type leq = e_leq
relation_type gth = e_gth
relation_type geq = e_geq

unfoldable pub relation_mark : Relation → Piece
relation_mark equal = mark "="
relation_mark unequal = mark "!="
relation_mark lth = mark "<"
relation_mark leq = mark "<="
relation_mark gth = mark ">"
relation_mark geq = mark ">="

-- Both tests of `prevtoken`, around the pieces of a node of the type `t`.
unfoldable pub in_parens : ExprType → ExprType → List Piece → List Piece
unfolding expr_compare_type
in_parens prevtoken t ps =
    if is_gt (expr_compare_type prevtoken t) then mark "(" ∷ (ps ++ mark ")" ∷ []) else ps

-- `expr_print` on an expression that is not null.
unfoldable pub print_pieces : Store → ExprType → Expr → List Piece
unfolding in_parens left_piece relation_type relation_mark
print_pieces st prevtoken (symbol s) = in_parens prevtoken e_symbol (left_piece st s ∷ [])
print_pieces st prevtoken (not_expr e) =
    in_parens prevtoken e_not (mark "!" ∷ print_pieces st e_not e)
print_pieces st prevtoken (comp r a b) =
    in_parens prevtoken (relation_type r)
      (left_piece st a ∷ relation_mark r ∷ right_piece st b ∷ [])
print_pieces st prevtoken (or_expr l r) =
    in_parens prevtoken e_or (print_pieces st e_or l ++ mark " || " ∷ print_pieces st e_or r)
print_pieces st prevtoken (and_expr l r) =
    in_parens prevtoken e_and (print_pieces st e_and l ++ mark " && " ∷ print_pieces st e_and r)

unfoldable pub expr_print : Store → Option Expr → ExprType → List Piece
unfolding print_pieces
expr_print st none prevtoken = mark "y" ∷ []
expr_print st (some e) prevtoken = print_pieces st prevtoken e
