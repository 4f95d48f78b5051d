-- ===== src/Symbol/TextValid.antt =====
-- scripts/kconfig/symbol.c: `sym_string_valid`.
pub mod Printed
use kdevops.Prelude.{
  ℕ, Bool, true, false, not, ◌&&◌, ◌||◌, Option, none, some, [], ◌∷◌, ◌==◌, if◌then◌else◌, Bytes,
}
use kdevops.Libc.{isdigit, isxdigit}
use kdevops.Tristate.{Tristate, tri_no, tri_mod, tri_yes}
use kdevops.Symbol.{SymbolType, s_unknown, s_boolean, s_tristate, s_int, s_hex, s_string}

unfoldable pub all_of : (ℕ → Bool) → Bytes → Bool
all_of f [] = true
all_of f (c ∷ cs) = f c && all_of f cs

-- Digits, of which there is at least one, without a zero in front.
unfoldable pub valid_decimal : Bytes → Bool
unfolding isdigit all_of
valid_decimal [] = false
valid_decimal (c ∷ []) = isdigit c
valid_decimal (c ∷ d ∷ cs) = isdigit c && not (c == b'0') && all_of isdigit (d ∷ cs)

unfoldable pub valid_int : Bytes → Bool
unfolding valid_decimal
valid_int [] = false
valid_int (c ∷ cs) = if c == b'-' then valid_decimal cs else valid_decimal (c ∷ cs)

unfoldable pub has_hex_prefix : Bytes → Bool
has_hex_prefix (a ∷ b ∷ cs) = a == b'0' && (b == b'x' || b == b'X')
has_hex_prefix _ = false

unfoldable pub drop_two : Bytes → Bytes
drop_two (a ∷ b ∷ cs) = cs
drop_two _ = []

unfoldable pub valid_digits : Bytes → Bool
unfolding isxdigit all_of
valid_digits [] = false
valid_digits (c ∷ cs) = all_of isxdigit (c ∷ cs)

unfoldable pub valid_hex : Bytes → Bool
unfolding has_hex_prefix drop_two valid_digits
valid_hex str = if has_hex_prefix str then valid_digits (drop_two str) else valid_digits str

-- The tristate that the first byte of a text names.
unfoldable pub letter : Bytes → Option Tristate
letter [] = none
letter (c ∷ cs) =
    if c == b'y' || c == b'Y'
    then some tri_yes
    else if c == b'm' || c == b'M'
    then some tri_mod
    else if c == b'n' || c == b'N'
    then some tri_no
    else none

unfoldable pub sym_string_valid : SymbolType → Bytes → Bool
unfolding valid_int valid_hex letter
sym_string_valid s_string str = true
sym_string_valid s_int str = valid_int str
sym_string_valid s_hex str = valid_hex str
sym_string_valid s_boolean str = elim (letter str) [ some t ↦ true | none ↦ false ]
sym_string_valid s_tristate str = elim (letter str) [ some t ↦ true | none ↦ false ]
sym_string_valid s_unknown str = false
