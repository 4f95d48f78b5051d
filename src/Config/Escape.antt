-- ===== src/Config/Escape.antt =====
-- scripts/kconfig/confdata.c: `escape_string_value`, and the loop of `conf_set_sym_val` that takes the
-- escapes away.
pub mod RoundTrip
use Prim.Native.Nat.{Ordering}
use kdevops.Prelude.{
  ℕ, suc, ◌+◌, Bool, true, false, ◌||◌, Option, none, some, [], ◌∷◌, ◌++◌, ◌==◌, length,
  if◌then◌else◌, Bytes,
}
use mathlib.Core.Option.{map}

-- The bytes `"` and `\`.
abbrev pub quote : ℕ
quote = 34

abbrev pub backslash : ℕ
backslash = 92

unfoldable pub is_special : ℕ → Bool
is_special c = c == quote || c == backslash

-- The length of the run of bytes in front of the first special one: `strcspn(p, "\"\\")`.
unfoldable pub plain_run : Bytes → ℕ
unfolding is_special
plain_run [] = 0
plain_run (c ∷ cs) = if is_special c then 0 else suc (plain_run cs)

unfoldable pub count_special : Bytes → ℕ
unfolding is_special
count_special [] = 0
count_special (c ∷ cs) = if is_special c then suc (count_special cs) else count_special cs

-- The size of the buffer: both quotes, the terminating zero, and one byte more for each escape.
unfoldable pub escaped_size : Bytes → ℕ
unfolding count_special
escaped_size s = length s + 3 + count_special s

-- The second loop, byte by byte.
unfoldable pub escape_bytes : Bytes → Bytes
unfolding is_special
escape_bytes [] = []
escape_bytes (c ∷ cs) =
    if is_special c then backslash ∷ c ∷ escape_bytes cs else c ∷ escape_bytes cs

unfoldable pub escape_string_value : Bytes → Bytes
unfolding escape_bytes
escape_string_value s = quote ∷ (escape_bytes s ++ quote ∷ [])

-- The text up to the closing quote, without the escapes; none if there is no closing quote. A
-- backslash at the end of the line escapes the terminating zero, and no quote follows then.
unfoldable pub unescape : Bytes → Option Bytes
unescape [] = none
unescape (c ∷ []) = if c == quote then some [] else none
unescape (c ∷ d ∷ cs) =
    let plain = map (λ s. c ∷ s) (unescape (d ∷ cs)) in
    let escaped = map (λ s. d ∷ s) (unescape cs) in
    if c == quote then some [] else if c == backslash then escaped else plain
