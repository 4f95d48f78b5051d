-- ===== src/Config/Escape/RoundTrip.antt =====
-- scripts/kconfig/confdata.c: escaping and the taking away of escapes undo each other, and an escaped
-- text fits into its buffer.
use kdevops.Prelude.{
  ℕ, suc, ◌+◌, false, ◌≡◌, refl, ◌∙◌, ap, some, [], ◌∷◌, ◌++◌, length, arith, Bytes, Bool-cases,
  inl, inr,
}
use kdevops.Config.Escape.{
  quote, backslash, is_special, count_special, escaped_size, escape_bytes, escape_string_value,
  unescape,
}
use mathlib.Core.Option.{map}

unescape-plain :
    (c : ℕ) (s : Bytes) → is_special c ≡ false → unescape (c ∷ s) ≡ map (λ r. c ∷ r) (unescape s)
unfolding unescape is_special
unescape-plain c [] h = ground (arith, h)
unescape-plain c (d ∷ s) h = ground (arith, h)

unescape-escaped :
    (c : ℕ) (s : Bytes) → unescape (backslash ∷ c ∷ s) ≡ map (λ r. c ∷ r) (unescape s)
unfolding unescape
unescape-escaped c s = refl

-- Whatever follows the closing quote, escaping a text and taking the escapes away gives the text.
pub unescape-escape_bytes : (s rest : Bytes) → unescape (escape_bytes s ++ quote ∷ rest) ≡ some s
unfolding unescape escape_bytes
unescape-escape_bytes [] [] = refl
unescape-escape_bytes [] (r ∷ rest) = refl
unescape-escape_bytes (c ∷ cs) rest = elim (Bool-cases (is_special c)) [
  | inl e ↦ rw e (
      unescape-escaped c (escape_bytes cs ++ quote ∷ rest)
      ∙ ap (map (λ r. c ∷ r)) (unescape-escape_bytes cs rest))
  | inr e ↦ rw e (
      unescape-plain c (escape_bytes cs ++ quote ∷ rest) e
      ∙ ap (map (λ r. c ∷ r)) (unescape-escape_bytes cs rest))
]

length-escape_bytes :
    (s t : Bytes) → length (escape_bytes s ++ t) ≡ length s + count_special s + length t
unfolding escape_bytes count_special
length-escape_bytes [] t = omega arith
length-escape_bytes (c ∷ cs) t = ground (arith, length-escape_bytes cs t)

-- escape_string_value writes as many bytes as it has computed for its buffer, the terminating zero
-- included.
pub length-escape_string_value : (s : Bytes) → suc (length (escape_string_value s)) ≡ escaped_size s
unfolding escape_string_value escaped_size
length-escape_string_value s = omega (arith, length-escape_bytes s (quote ∷ []))
