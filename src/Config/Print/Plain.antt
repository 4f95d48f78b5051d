-- ===== src/Config/Print/Plain.antt =====
-- scripts/kconfig/confdata.c, symbol.c: printed values hold no newline, and no carriage return at their
-- end, that the reader would take for the end of a line.
use kdevops.Prelude.{ℕ, Bool, true, false, ◌≡◌, refl, [], ◌∷◌, ◌==◌, arith, Bytes}
use kdevops.Libc.{isdigit, isxdigit}
use kdevops.Symbol.TextValid.{all_of, valid_decimal, valid_int, valid_digits, valid_hex}
use kdevops.Config.Escape.{quote, is_special, escape_bytes, escape_string_value}
use kdevops.Config.Line.{drop_return}
use kdevops.Config.Line.Laws.{lacks, lacks-append, drop_return-last}

lacks-all_of :
    (f : ℕ → Bool) (b : ℕ) (s : Bytes) → f b ≡ false → all_of f s ≡ true → lacks b s ≡ true
unfolding all_of
lacks-all_of f b [] h k = refl
lacks-all_of f b (c ∷ s) h k = ground (arith, lacks-all_of f b s h, h)

one_digit : (c : ℕ) → isdigit c ≡ true → all_of isdigit (c ∷ []) ≡ true
unfolding all_of
one_digit c h = ground (arith, h)

lacks-valid_decimal :
    (b : ℕ) (s : Bytes) → isdigit b ≡ false → valid_decimal s ≡ true → lacks b s ≡ true
unfolding valid_decimal
lacks-valid_decimal b [] h k = refl
lacks-valid_decimal b (c ∷ []) h k = lacks-all_of isdigit b (c ∷ []) h (one_digit c k)
lacks-valid_decimal b (c ∷ d ∷ s) h k = lacks-all_of isdigit b (c ∷ d ∷ s) h (ground (arith, k))

-- A byte that is no digit and no minus is not in a decimal number.
pub lacks-valid_int :
    (b : ℕ) (s : Bytes)
    → isdigit b ≡ false
    → (b'-' == b) ≡ false
    → valid_int s ≡ true
    → lacks b s ≡ true
unfolding valid_int
lacks-valid_int b [] h m k = refl
lacks-valid_int b (c ∷ s) h m k =
    ground (arith, lacks-valid_decimal b s h, lacks-valid_decimal b (c ∷ s) h)

lacks-valid_digits :
    (b : ℕ) (s : Bytes) → isxdigit b ≡ false → valid_digits s ≡ true → lacks b s ≡ true
unfolding valid_digits
lacks-valid_digits b [] h k = refl
lacks-valid_digits b (c ∷ s) h k = lacks-all_of isxdigit b (c ∷ s) h k

pub lacks-valid_hex :
    (b : ℕ) (s : Bytes)
    → isxdigit b ≡ false
    → (b'x' == b) ≡ false
    → (b'X' == b) ≡ false
    → valid_hex s ≡ true
    → lacks b s ≡ true
unfolding valid_hex isxdigit
lacks-valid_hex b [] h x y k = refl
lacks-valid_hex b (c ∷ []) h x y k = lacks-valid_digits b (c ∷ []) h k
lacks-valid_hex b (c ∷ d ∷ s) h x y k =
    ground (arith, h, lacks-valid_digits b s h, lacks-valid_digits b (c ∷ d ∷ s) h)

lacks-escape_bytes :
    (b : ℕ) (s : Bytes) → is_special b ≡ false → lacks b s ≡ true → lacks b (escape_bytes s) ≡ true
unfolding escape_bytes is_special
lacks-escape_bytes b [] n h = refl
lacks-escape_bytes b (c ∷ s) n h = ground (arith, n, lacks-escape_bytes b s n)

pub lacks-escape_string_value :
    (b : ℕ) (s : Bytes)
    → is_special b ≡ false
    → lacks b s ≡ true
    → lacks b (escape_string_value s) ≡ true
unfolding escape_string_value is_special
lacks-escape_string_value b s n h =
    ground (arith, lacks-append b (escape_bytes s) (quote ∷ []), lacks-escape_bytes b s n h, n)

pub drop_return-escape_string_value :
    (s : Bytes) → drop_return (escape_string_value s) ≡ escape_string_value s
unfolding escape_string_value
drop_return-escape_string_value s = drop_return-last (quote ∷ escape_bytes s) quote refl
