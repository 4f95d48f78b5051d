-- ===== src/Symbol/Compare.antt =====
-- scripts/kconfig/expr.c, symbol.c: the text of a symbol's value, how `expr_parse_string` reads
-- it, and the order of two symbols that the relations of an expression test.
use Prim.Native.Nat.{Ordering, compare}
use kdevops.Prelude.{
  ℕ, ◌-◌, ◌^◌, Bool, true, false, not, ◌&&◌, [], ◌∷◌, length, ltb, leb, ◌==◌, if◌then◌else◌, Bytes,
  codes,
}
use kdevops.Libc.{Conversion, strcmp, strtoll, strtoull, compare_signed, isxdigit}
use kdevops.Tristate.{Tristate, tri_no, tri_mod, tri_yes, rank, tri_eq}
use kdevops.Expr.{SymId}
use kdevops.Symbol.{
  SymbolType, s_boolean, s_tristate, s_int, s_hex, s_string, Payload, SymbolValue, Symbol, null,
  text, chosen, Store, symbol_type, sym_get_tristate_value,
}

-- The bytes behind `curr.val`. A choice's value is a symbol, which the code never reads as text.
unfoldable pub payload_text : Payload → Bytes
payload_text null = []
payload_text (text s) = s
payload_text (chosen s) = []

-- The text of a tristate, given the value of the symbol that enables modules.
unfoldable pub tristate_text : Tristate → Tristate → Bytes
unfolding rank
tristate_text modules tri_no = codes "n"
tristate_text modules tri_mod = if tri_eq modules tri_no then codes "n" else codes "m"
tristate_text modules tri_yes = codes "y"

string_value : Tristate → SymbolValue → SymbolType → Bytes
string_value modules v s_boolean = tristate_text modules v.tri
string_value modules v s_tristate = tristate_text modules v.tri
string_value modules v _ = payload_text v.val

unfoldable pub symbol_text : Tristate → Symbol → Bytes
unfolding string_value payload_text tristate_text
symbol_text modules y = string_value modules y.curr y.type

-- The store is the one after `sym_calc_value(modules_sym)`.
unfoldable pub sym_get_string_value : Store → SymId → Bytes
unfolding symbol_text
sym_get_string_value st s = symbol_text (sym_get_tristate_value st st.modules_sym) (st.sym s)

pub data StringValueKind : Type 0 where
  k_string k_signed k_unsigned : StringValueKind

-- The kind, and the 64 bits of the union.
pub record ParsedValue : Type 0 where
  pub kind : StringValueKind
  pub bits : ℕ

bytes_eq : Bytes → Bytes → Bool
unfolding strcmp
bytes_eq a b = elim (strcmp a b) [ Ordering.eq ↦ true | _ ↦ false ]

-- `tail[-1]`, given how many bytes stand before `tail`.
byte_before : Bytes → ℕ → ℕ
byte_before [] n = 0
byte_before (c ∷ cs) n = if leb n 1 then c else byte_before cs (n - 1)

is_number_text : Bytes → Conversion → Bool
unfolding byte_before isxdigit
is_number_text str c =
    not c.erange
    && length c.tail == 0
    && ltb (length c.tail) (length str)
    && isxdigit (byte_before str (length str - length c.tail))

parsed : Bytes → StringValueKind → Conversion → ParsedValue
unfolding is_number_text
parsed str kind c = record { kind = if is_number_text str c then kind else k_string; bits = c.bits }

parse_tristate : Bytes → ℕ
unfolding bytes_eq
parse_tristate str =
    if bytes_eq str (codes "n")
    then 0
    else if bytes_eq str (codes "m")
    then 1
    else if bytes_eq str (codes "y")
    then 2
    else 2 ^ 64 - 1

unfoldable pub expr_parse_string : Bytes → SymbolType → ParsedValue
unfolding parsed parse_tristate strtoll strtoull
expr_parse_string str s_boolean = record { kind = k_signed; bits = parse_tristate str }
expr_parse_string str s_tristate = record { kind = k_signed; bits = parse_tristate str }
expr_parse_string str s_int = parsed str k_signed (strtoll 10 str)
expr_parse_string str s_hex = parsed str k_unsigned (strtoull 16 str)
expr_parse_string str _ = parsed str k_signed (strtoll 0 str)

-- The three-way choice of `res`, given both texts, both words and both kinds.
compare_kinds : Bytes → Bytes → ℕ → ℕ → StringValueKind → StringValueKind → Ordering
unfolding strcmp compare_signed
compare_kinds str1 str2 l r k_string k2 = strcmp str1 str2
compare_kinds str1 str2 l r k_signed k_string = strcmp str1 str2
compare_kinds str1 str2 l r k_unsigned k_string = strcmp str1 str2
compare_kinds str1 str2 l r k_unsigned k_signed = compare l r
compare_kinds str1 str2 l r k_unsigned k_unsigned = compare l r
compare_kinds str1 str2 l r k_signed k_unsigned = compare l r
compare_kinds str1 str2 l r k_signed k_signed = compare_signed l r

is_string : SymbolType → Bool
is_string s_string = true
is_string _ = false

unfoldable pub compare_values : Bytes → Bytes → SymbolType → SymbolType → Ordering
unfolding strcmp is_string expr_parse_string compare_kinds
compare_values str1 str2 t1 t2 =
    let l = expr_parse_string str1 t1 in
    let r = expr_parse_string str2 t2 in
    if is_string t1 && is_string t2
    then strcmp str1 str2
    else compare_kinds str1 str2 l.bits r.bits l.kind r.kind

-- What the relations ask of that sign.
abbrev pub is_lt : Ordering → Bool
is_lt Ordering.lt = true
is_lt _ = false

abbrev pub is_gt : Ordering → Bool
is_gt Ordering.gt = true
is_gt _ = false

abbrev pub is_eq : Ordering → Bool
is_eq Ordering.eq = true
is_eq _ = false

-- The sign of `res` in `expr_calc_value`.
unfoldable pub compare_symbols : Store → SymId → SymId → Ordering
unfolding sym_get_string_value compare_values
compare_symbols st a b =
    compare_values (sym_get_string_value st a) (sym_get_string_value st b) (symbol_type st a)
      (symbol_type st b)
