-- ===== src/Config/Value.antt =====
-- scripts/kconfig/confdata.c: `conf_set_sym_val`, the value that a line of a configuration file gives
-- to a symbol. The texts of warnings are output; their number is a part of the state.
pub mod Laws
use kdevops.Prelude.{
  ℕ, suc, Bool, true, false, Option, none, some, [], ◌∷◌, ◌==◌, if◌then◌else◌, Bytes,
}
use kdevops.Tristate.{Tristate, tri_no, tri_mod, tri_yes}
use kdevops.Expr.{SymId}
use kdevops.Symbol.{
  SymbolType, s_unknown, s_boolean, s_tristate, s_int, s_hex, s_string, Payload, text, SymbolValue,
  Flags, Symbol, Store,
}
use kdevops.Symbol.State.{M, ◌>>=◌, ◌>>◌, pure, skip, when, get_symbol, modify}
use kdevops.Symbol.TextValid.{sym_string_valid}
use kdevops.Config.Escape.{quote, unescape}

-- The index of `def`: S_DEF_USER for .config, S_DEF_AUTO for auto.conf.
pub data DefSlot : Type 0 where
  s_def_user s_def_auto : DefSlot

abbrev pub is_auto : DefSlot → Bool
is_auto s_def_auto = true
is_auto s_def_user = false

abbrev pub def_of : DefSlot → Symbol → SymbolValue
def_of s_def_user y = y.def_value
def_of s_def_auto y = y.auto_value

abbrev pub set_def : DefSlot → (SymbolValue → SymbolValue) → Symbol → Symbol
set_def s_def_user f y = record y { def_value = f y.def_value }
set_def s_def_auto f y = record y { auto_value = f y.auto_value }

abbrev pub def_flag : DefSlot → Symbol → Bool
def_flag s_def_user y = y.flags.def_user
def_flag s_def_auto y = y.flags.def_auto

abbrev pub set_def_flag : DefSlot → Bool → Symbol → Symbol
set_def_flag s_def_user b y = record y { flags = record y.flags { def_user = b } }
set_def_flag s_def_auto b y = record y { flags = record y.flags { def_auto = b } }

abbrev pub conf_warning : M (Unit {0})
conf_warning st = some (tt, record st { conf_warnings = suc st.conf_warnings })

-- `sym->def[def].tri = tri; sym->flags |= def_flags;`
abbrev pub give_tri : DefSlot → Tristate → Symbol → Symbol
give_tri slot t y = set_def_flag slot true (set_def slot (λ v. record v { tri = t }) y)

abbrev pub give_text : DefSlot → Bytes → Symbol → Symbol
give_text slot s y = set_def_flag slot true (set_def slot (λ v. record v { val = text s }) y)

-- The tristate that the first byte of a value stands for, for a type.
unfoldable pub value_letter : SymbolType → Bytes → Option Tristate
value_letter type [] = none
value_letter s_tristate (c ∷ cs) =
    if c == b'm'
    then some tri_mod
    else if c == b'y'
    then some tri_yes
    else if c == b'n'
    then some tri_no
    else none
value_letter type (c ∷ cs) =
    if c == b'y' then some tri_yes else if c == b'n' then some tri_no else none

-- Whether the code returns 1.
refuse : DefSlot → M Bool
refuse slot = when (if is_auto slot then false else true) conf_warning >> pure true

set_tri_val : SymId → DefSlot → Option Tristate → M Bool
unfolding refuse
set_tri_val s slot none = refuse slot
set_tri_val s slot (some t) = modify s (give_tri slot t) >> pure false

set_text_val : SymId → DefSlot → SymbolType → Bytes → M Bool
unfolding refuse sym_string_valid
set_text_val s slot type p =
    if sym_string_valid type p then (modify s (give_text slot p) >> pure false) else refuse slot

-- A quoted text; a text that does not start with a quote is passed over.
set_quoted_val : SymId → DefSlot → Bytes → M Bool
unfolding unescape set_text_val
set_quoted_val s slot [] = pure false
set_quoted_val s slot (c ∷ p) =
    if c == quote
    then elim (unescape p) [
      | some v ↦ set_text_val s slot s_string v
      | none ↦ conf_warning >> pure true
    ]
    else pure false

set_val_by : SymbolType → SymId → DefSlot → Bytes → M Bool
unfolding set_tri_val set_text_val set_quoted_val value_letter
set_val_by s_tristate s slot p = set_tri_val s slot (value_letter s_tristate p)
set_val_by s_boolean s slot p = set_tri_val s slot (value_letter s_boolean p)
set_val_by s_string s s_def_auto p = set_text_val s s_def_auto s_string p
set_val_by s_string s s_def_user p = set_quoted_val s s_def_user p
set_val_by s_int s slot p = set_text_val s slot s_int p
set_val_by s_hex s slot p = set_text_val s slot s_hex p
set_val_by s_unknown s slot p = pure false

unfoldable pub conf_set_sym_val : SymId → DefSlot → Bytes → M Bool
unfolding set_val_by
conf_set_sym_val s slot p = do y ← get_symbol s; set_val_by y.type s slot p
