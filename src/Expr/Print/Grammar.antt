-- ===== src/Expr/Print/Grammar.antt =====
-- scripts/kconfig/lexer.l, parser.y: how a text is read as an expression. `Lexes` is the first stage of
-- the lexer without quotes, `$`, comments and line ends; behind the name of a command the second stage
-- hands its tokens on. `Reads` is the rules for `expr` by their precedences: `||` and `&&` group to
-- the left, `&&` and `!` bind tighter, and a comparison stands between two symbols.
use kdevops.Prelude.{
  ℕ, Bool, true, false, not, ◌&&◌, ◌||◌, ◌≡◌, some, List, [], ◌∷◌, ◌++◌, ◌==◌, leb, Bytes, codes,
}
use kdevops.Config.Names.{table_of}
use kdevops.Expr.{
  SymId, Relation, equal, unequal, lth, leq, gth, geq, Expr, symbol, not_expr, and_expr, or_expr,
  comp,
}
use kdevops.Macro.Builtin.{bytes_eq}
use kdevops.Symbol.{Store}
use kdevops.Symbol.Table.{no_flag, sym_lookup}

pub data Token : Type 0 where
  t_word : Bytes → Token
  t_relation : Relation → Token
  t_or t_and t_not t_open_paren t_close_paren : Token

-- `{n}`
unfoldable pub is_word_char : ℕ → Bool
is_word_char c =
    leb b'A' c && leb c b'Z'
    || leb b'a' c && leb c b'z'
    || leb b'0' c && leb c b'9'
    || c == b'_'
    || c == b'-'

-- The words that have tokens of their own.
abbrev pub keywords : List Bytes
keywords =
    codes "bool"
    ∷ codes "choice"
    ∷ codes "comment"
    ∷ codes "config"
    ∷ codes "def_bool"
    ∷ codes "def_tristate"
    ∷ codes "default"
    ∷ codes "depends"
    ∷ codes "endchoice"
    ∷ codes "endif"
    ∷ codes "endmenu"
    ∷ codes "help"
    ∷ codes "hex"
    ∷ codes "if"
    ∷ codes "imply"
    ∷ codes "int"
    ∷ codes "mainmenu"
    ∷ codes "menu"
    ∷ codes "menuconfig"
    ∷ codes "modules"
    ∷ codes "on"
    ∷ codes "optional"
    ∷ codes "prompt"
    ∷ codes "range"
    ∷ codes "select"
    ∷ codes "source"
    ∷ codes "string"
    ∷ codes "tristate"
    ∷ codes "visible"
    ∷ []

unfoldable pub is_in : Bytes → List Bytes → Bool
unfolding bytes_eq
is_in n [] = false
is_in n (k ∷ ks) = bytes_eq n k || is_in n ks

unfoldable pub all_word_chars : Bytes → Bool
unfolding is_word_char
all_word_chars [] = true
all_word_chars (c ∷ cs) = is_word_char c && all_word_chars cs

unfoldable pub is_word : Bytes → Bool
unfolding all_word_chars is_in
is_word [] = false
is_word (c ∷ cs) = all_word_chars (c ∷ cs) && not (is_in (c ∷ cs) keywords)

-- Where the longest match of a word ends, and no `$` joins it.
unfoldable pub breaks_word : Bytes → Bool
unfolding is_word_char
breaks_word [] = true
breaks_word (c ∷ cs) = not (is_word_char c || c == b'$')

-- Where `!`, `<` and `>` are not the beginning of a longer operator.
unfoldable pub lacks_equal : Bytes → Bool
lacks_equal [] = true
lacks_equal (c ∷ cs) = not (c == b'=')

pub data Lexes : Bytes → List Token → Type 0 where
  lex_end : Lexes [] []
  lex_space : {cs : Bytes} {ts : List Token} → Lexes cs ts → Lexes (b' ' ∷ cs) ts
  lex_word :
      (n : Bytes) {cs : Bytes} {ts : List Token}
      → is_word n ≡ true
      → breaks_word cs ≡ true
      → Lexes cs ts
      → Lexes (n ++ cs) (t_word n ∷ ts)
  lex_or : {cs : Bytes} {ts : List Token} → Lexes cs ts → Lexes (b'|' ∷ b'|' ∷ cs) (t_or ∷ ts)
  lex_and : {cs : Bytes} {ts : List Token} → Lexes cs ts → Lexes (b'&' ∷ b'&' ∷ cs) (t_and ∷ ts)
  lex_not :
      {cs : Bytes} {ts : List Token}
      → lacks_equal cs ≡ true
      → Lexes cs ts
      → Lexes (b'!' ∷ cs) (t_not ∷ ts)
  lex_open : {cs : Bytes} {ts : List Token} → Lexes cs ts → Lexes (b'(' ∷ cs) (t_open_paren ∷ ts)
  lex_close : {cs : Bytes} {ts : List Token} → Lexes cs ts → Lexes (b')' ∷ cs) (t_close_paren ∷ ts)
  lex_equal :
      {cs : Bytes} {ts : List Token} → Lexes cs ts → Lexes (b'=' ∷ cs) (t_relation equal ∷ ts)
  lex_unequal :
      {cs : Bytes} {ts : List Token}
      → Lexes cs ts
      → Lexes (b'!' ∷ b'=' ∷ cs) (t_relation unequal ∷ ts)
  lex_less :
      {cs : Bytes} {ts : List Token}
      → lacks_equal cs ≡ true
      → Lexes cs ts
      → Lexes (b'<' ∷ cs) (t_relation lth ∷ ts)
  lex_less_equal :
      {cs : Bytes} {ts : List Token} → Lexes cs ts → Lexes (b'<' ∷ b'=' ∷ cs) (t_relation leq ∷ ts)
  lex_greater :
      {cs : Bytes} {ts : List Token}
      → lacks_equal cs ≡ true
      → Lexes cs ts
      → Lexes (b'>' ∷ cs) (t_relation gth ∷ ts)
  lex_greater_equal :
      {cs : Bytes} {ts : List Token} → Lexes cs ts → Lexes (b'>' ∷ b'=' ∷ cs) (t_relation geq ∷ ts)

-- Where `||` may stand, where `&&` may, and where neither may.
pub data Level : Type 0 where
  or_level and_level not_level : Level

-- The symbol that `sym_lookup` gives for a word, without making a new one.
abbrev pub IsLooked : Store → Bytes → SymId → Type 0
IsLooked st n s = sym_lookup (some n) no_flag (table_of st) ≡ (s, table_of st)

pub data Reads (st : Store) : Level → List Token → Expr → Type 0 where
  read_or :
      {xs ys : List Token} {a b : Expr}
      → Reads st or_level xs a
      → Reads st and_level ys b
      → Reads st or_level (xs ++ t_or ∷ ys) (or_expr a b)
  read_and :
      {xs ys : List Token} {a b : Expr}
      → Reads st and_level xs a
      → Reads st not_level ys b
      → Reads st and_level (xs ++ t_and ∷ ys) (and_expr a b)
  read_not :
      {xs : List Token} {a : Expr}
      → Reads st not_level xs a
      → Reads st not_level (t_not ∷ xs) (not_expr a)
  read_parens :
      {xs : List Token} {a : Expr}
      → Reads st or_level xs a
      → Reads st not_level (t_open_paren ∷ (xs ++ t_close_paren ∷ [])) a
  read_symbol :
      (s : SymId) (n : Bytes) → IsLooked st n s → Reads st not_level (t_word n ∷ []) (symbol s)
  read_comp :
      (r : Relation) (s t : SymId) (n k : Bytes)
      → IsLooked st n s
      → IsLooked st k t
      → Reads st not_level (t_word n ∷ t_relation r ∷ t_word k ∷ []) (comp r s t)
  or_of_and : {xs : List Token} {a : Expr} → Reads st and_level xs a → Reads st or_level xs a
  and_of_not : {xs : List Token} {a : Expr} → Reads st not_level xs a → Reads st and_level xs a
