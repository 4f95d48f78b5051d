-- ===== src/Config/Print/RoundTrip.antt =====
-- scripts/kconfig/confdata.c: a value that `__print_symbol` writes to .config is read back.
use kdevops.Prelude.{true, false, ◌≡◌, refl, ap, ◌⊎◌, some, arith, Bytes, codes}
use kdevops.Libc.{isxdigit}
use kdevops.Tristate.{Tristate, tri_no, tri_mod, tri_yes}
use kdevops.Expr.{SymId}
use kdevops.Symbol.{
  SymbolType, s_unknown, s_boolean, s_tristate, s_int, s_hex, s_string, Symbol, Store,
}
use kdevops.Symbol.Consistent.{tri_text}
use kdevops.Symbol.NewValue.{is_logical}
use kdevops.Symbol.State.{update}
use kdevops.Symbol.Table.{sym_find}
use kdevops.Symbol.TextValid.{sym_string_valid}
use kdevops.Config.Escape.{is_special, escape_string_value}
use kdevops.Config.Line.{drop_return}
use kdevops.Config.Line.Laws.{lacks, drop_return-lacks, parse_line-assign, parse_line-unset}
use kdevops.Config.Print.{output_n_as_unset, symbol_line, assignment, unset_comment}
use kdevops.Config.Print.Plain.{
  lacks-valid_int, lacks-valid_hex, lacks-escape_string_value, drop_return-escape_string_value,
}
use kdevops.Config.Names.{table_of}
use kdevops.Config.Read.{read_line}
use kdevops.Config.Read.Laws.{read_line-assign, read_line-unset}
use kdevops.Config.Value.{s_def_user, give_tri, give_text, conf_set_sym_val}
use kdevops.Config.Value.Laws.{set_boolean, set_tristate, set_int, set_hex, set_string}

-- A value as `sym_get_string_value` shows it: by a tristate, or a text.
abbrev pub shown : SymbolType → Tristate → Bytes → Bytes
shown s_boolean t x = tri_text t
shown s_tristate t x = tri_text t
shown _ t x = x

-- What a symbol of a type can hold: a boolean is not `m`, a number is valid, and a string has no
-- newline in it.
abbrev pub IsSavable : SymbolType → Tristate → Bytes → Type 0
IsSavable s_unknown t x = ⊥
IsSavable s_boolean t x = (t ≡ tri_no) ⊎ (t ≡ tri_yes)
IsSavable s_tristate t x = Unit {0}
IsSavable s_int t x = sym_string_valid s_int x ≡ true
IsSavable s_hex t x = sym_string_valid s_hex x ≡ true
IsSavable s_string t x = lacks b'\n' x ≡ true

-- The symbol with that value for the user's, and the flag that it has one.
abbrev pub restored : SymbolType → Tristate → Bytes → Symbol → Symbol
restored s_boolean t x = give_tri s_def_user t
restored s_tristate t x = give_tri s_def_user t
restored _ t x = give_text s_def_user x

module _ (name : Bytes) (s : SymId) (st : Store)
    (found : sym_find (some name) (table_of st) ≡ some s) (new : (st.sym s).flags.def_user ≡ false)
    (alone : (st.sym s).flags.choiceval ≡ false) (no_equals : lacks b'=' name ≡ true)
    (no_space : lacks b' ' name ≡ true) where
  read_assignment :
      (p : Bytes) (f : Symbol → Symbol)
      → lacks b'\n' p ≡ true
      → drop_return p ≡ p
      → conf_set_sym_val s s_def_user p st ≡ some (false, update s f st)
      → (f (st.sym s)).flags.choiceval ≡ false
      → read_line s_def_user (assignment name p) st ≡ some (tt, update s f st)
  read_assignment p f n r h k =
      read_line-assign name s st found new alone (assignment name p) p f
        (parse_line-assign name p no_equals n r) h k

  read_comment :
      is_logical (st.sym s).type ≡ true
      → read_line s_def_user (unset_comment name) st
        ≡ some (tt, update s (give_tri s_def_user tri_no) st)
  read_comment h =
      read_line-unset name s st found new alone (unset_comment name)
        (parse_line-unset name no_space) h

  read_number :
      (x : Bytes)
      → lacks b'\n' x ≡ true
      → lacks b'\r' x ≡ true
      → conf_set_sym_val s s_def_user x st ≡ some (false, update s (give_text s_def_user x) st)
      → read_line s_def_user (assignment name x) st
        ≡ some (tt, update s (give_text s_def_user x) st)
  read_number x n r h = read_assignment x (give_text s_def_user x) n (drop_return-lacks x r) h alone

  -- By the type of the symbol.
  read_back :
      (type : SymbolType) (t : Tristate) (x : Bytes)
      → (st.sym s).type ≡ type
      → IsSavable type t x
      → read_line s_def_user (symbol_line output_n_as_unset true type name (shown type t x)) st
        ≡ some (tt, update s (restored type t x) st)
  unfolding symbol_line isxdigit is_special sym_string_valid drop_return
  read_back s_unknown t x e h = absurd h
  read_back s_boolean tri_no x e h = read_comment (ap is_logical e)
  read_back s_boolean tri_mod x e h = ground (arith, h)
  read_back s_boolean tri_yes x e h =
      read_assignment (codes "y") (give_tri s_def_user tri_yes) refl refl
        (set_boolean s s_def_user st tri_yes e h) alone
  read_back s_tristate tri_no x e h = read_comment (ap is_logical e)
  read_back s_tristate tri_mod x e h =
      read_assignment (codes "m") (give_tri s_def_user tri_mod) refl refl
        (set_tristate s s_def_user st tri_mod e) alone
  read_back s_tristate tri_yes x e h =
      read_assignment (codes "y") (give_tri s_def_user tri_yes) refl refl
        (set_tristate s s_def_user st tri_yes e) alone
  read_back s_int t x e h =
      read_number x (lacks-valid_int b'\n' x refl refl h) (lacks-valid_int b'\r' x refl refl h)
        (set_int s s_def_user st x e h)
  read_back s_hex t x e h =
      read_number x (lacks-valid_hex b'\n' x refl refl refl h)
        (lacks-valid_hex b'\r' x refl refl refl h) (set_hex s s_def_user st x e h)
  read_back s_string t x e h =
      read_assignment (escape_string_value x) (give_text s_def_user x)
        (lacks-escape_string_value b'\n' x refl h) (drop_return-escape_string_value x)
        (set_string s x st e) alone

  -- A line that print_symbol_for_dotconfig writes for the value of a symbol gives the symbol of that
  -- name this value for the user's, and changes nothing else: no warning is counted. The value is one
  -- that can be saved: `n` or `y` for a boolean symbol, any tristate for a tristate one, a text that
  -- sym_string_valid accepts for an int or hex one, and a text without a line break for a string. The
  -- symbol is no choice value and has no value from the file yet, and its name has no `=` and no space.
  pub read_line-symbol_line :
      (t : Tristate) (x : Bytes)
      → IsSavable (st.sym s).type t x
      → read_line s_def_user
          (symbol_line output_n_as_unset true (st.sym s).type name (shown (st.sym s).type t x))
          st
        ≡ some (tt, update s (restored (st.sym s).type t x) st)
  read_line-symbol_line t x h = read_back (st.sym s).type t x refl h
