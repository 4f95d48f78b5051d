-- ===== src/Config/Print.antt =====
-- scripts/kconfig/confdata.c: the printers, `__print_symbol` with its three callers,
-- `print_symbol_for_c` and `print_symbol_for_rustccfg`. What is printed is a result.
pub mod Plain
pub mod RoundTrip
use kdevops.Prelude.{
  ℕ, suc, Bool, true, false, not, ◌&&◌, ◌||◌, Option, none, some, [], ◌∷◌, ◌++◌, ◌==◌,
  if◌then◌else◌, Bytes, codes,
}
use kdevops.Expr.{SymId}
use kdevops.Symbol.{SymbolType, s_unknown, s_boolean, s_tristate, s_int, s_hex, s_string, Symbol}
use kdevops.Symbol.Evaluate.{read_string}
use kdevops.Symbol.NewValue.{is_logical}
use kdevops.Symbol.State.{M, ◌>>=◌, ◌>>◌, pure, skip, deref, get_symbol}
use kdevops.Symbol.TextValid.{has_hex_prefix}
use kdevops.Config.Escape.{escape_string_value}

-- `enum output_n`
pub data OutputN : Type 0 where
  output_n output_n_as_unset output_n_none : OutputN

-- `*val == 'n'`
abbrev pub starts_with : ℕ → Bytes → Bool
starts_with b [] = false
starts_with b (c ∷ cs) = c == b

-- `CONFIG_name=val`
abbrev pub assignment : Bytes → Bytes → Bytes
assignment name val = codes "CONFIG_" ++ (name ++ (b'=' ∷ (val ++ b'\n' ∷ [])))

-- `# CONFIG_name is not set`
abbrev pub unset_comment : Bytes → Bytes
unset_comment name = codes "# CONFIG_" ++ (name ++ codes " is not set\n")

logical_text : OutputN → Bytes → Bytes → Bytes
logical_text output_n name val = assignment name val
logical_text output_n_as_unset name val =
    if starts_with b'n' val then unset_comment name else assignment name val
logical_text output_n_none name val = if starts_with b'n' val then [] else assignment name val

-- What `__print_symbol` prints for a name and a value.
unfoldable pub symbol_line : OutputN → Bool → SymbolType → Bytes → Bytes → Bytes
unfolding logical_text escape_string_value
symbol_line out escape s_unknown name val = []
symbol_line out escape s_boolean name val = logical_text out name val
symbol_line out escape s_tristate name val = logical_text out name val
symbol_line out escape s_string name val =
    assignment name (if escape then escape_string_value val else val)
symbol_line out escape s_int name val = assignment name val
symbol_line out escape s_hex name val = assignment name val

abbrev hex_prefix : Bytes → Bytes
hex_prefix val = if has_hex_prefix val then [] else codes "0x"

-- `#define CONFIG_name val`
abbrev definition : Bytes → Bytes → Bytes → Bytes
definition name suffix val =
    codes "#define CONFIG_" ++ (name ++ (suffix ++ (b' ' ∷ (val ++ b'\n' ∷ []))))

logical_definition : Bytes → Bytes → Bytes
logical_definition name val =
    if starts_with b'n' val
    then []
    else definition name (if starts_with b'm' val then codes "_MODULE" else []) (codes "1")

unfoldable pub c_line : SymbolType → Bytes → Bytes → Bytes
unfolding logical_definition has_hex_prefix escape_string_value
c_line s_unknown name val = []
c_line s_boolean name val = logical_definition name val
c_line s_tristate name val = logical_definition name val
c_line s_hex name val = definition name [] (hex_prefix val ++ val)
c_line s_string name val = definition name [] (escape_string_value val)
c_line s_int name val = definition name [] val

abbrev cfg : Bytes → Bytes → Bytes
cfg name val = codes "--cfg=CONFIG_" ++ (name ++ (b'=' ∷ (escape_string_value val ++ b'\n' ∷ [])))

logical_cfg : Bytes → Bytes → Bytes
unfolding escape_string_value
logical_cfg name val =
    if starts_with b'n' val then [] else codes "--cfg=CONFIG_" ++ (name ++ (b'\n' ∷ cfg name val))

unfoldable pub rustccfg_line : SymbolType → Bytes → Bytes → Bytes
unfolding logical_cfg has_hex_prefix escape_string_value
rustccfg_line s_unknown name val = []
rustccfg_line s_boolean name val = logical_cfg name val
rustccfg_line s_tristate name val = logical_cfg name val
rustccfg_line s_hex name val = cfg name (hex_prefix val ++ val)
rustccfg_line s_string name val = cfg name val
rustccfg_line s_int name val = cfg name val

is_unknown : SymbolType → Bool
is_unknown s_unknown = true
is_unknown _ = false

module _ (calc : SymId → M (Unit {0})) where
  -- A printer's text for a symbol with a type.
  print_with : (SymbolType → Bytes → Bytes → Bytes) → SymId → M Bytes
  unfolding read_string is_unknown
  print_with print s = do
    y ← get_symbol s
    if is_unknown y.type
        then pure []
        else (do val ← read_string calc s; name ← deref y.name; pure (print y.type name val))

  unfoldable pub print_symbol : OutputN → Bool → SymId → M Bytes
  unfolding print_with symbol_line
  print_symbol out escape = print_with (symbol_line out escape)

  unfoldable pub print_symbol_for_dotconfig : SymId → M Bytes
  unfolding print_symbol
  print_symbol_for_dotconfig = print_symbol output_n_as_unset true

  unfoldable pub print_symbol_for_autoconf : SymId → M Bytes
  unfolding print_symbol
  print_symbol_for_autoconf = print_symbol output_n_none false

  unfoldable pub print_symbol_for_listconfig : SymId → M Bytes
  unfolding print_symbol
  print_symbol_for_listconfig = print_symbol output_n true

  unfoldable pub print_symbol_for_c : SymId → M Bytes
  unfolding print_with c_line
  print_symbol_for_c = print_with c_line

  unfoldable pub print_symbol_for_rustccfg : SymId → M Bytes
  unfolding print_with rustccfg_line
  print_symbol_for_rustccfg = print_with rustccfg_line
