-- ===== src/Symbol/TextValid/Printed.antt =====
-- scripts/kconfig/symbol.c: `sym_validate_range` prints a bound in a form that `sym_string_valid`
-- accepts.
use kdevops.Prelude.{
  ℕ, zero, suc, ◌/◌, ◌%◌, ◌^◌, ◌<◌, Bool, true, false, not, ◌≡◌, refl, ◌⊎◌, ◌-◌, [], ◌∷◌, ◌==◌, ltb,
  if◌then◌else◌, arith, Bytes,
}
use kdevops.Libc.{isdigit, isxdigit}
use kdevops.Symbol.{SymbolType, s_int, s_hex}
use kdevops.Symbol.Range.{
  digit_char, digits_onto, print_number, print_signed, print_hex, print_bound,
}
use kdevops.Symbol.TextValid.{
  all_of, valid_decimal, valid_digits, valid_int, valid_hex, sym_string_valid,
}

digit_char-xdigit : (n : ℕ) → isxdigit (digit_char (n % 16)) ≡ true
unfolding isxdigit digit_char
digit_char-xdigit n = ground arith

digit_char-digit : (n : ℕ) → isdigit (digit_char (n % 10)) ≡ true
unfolding isdigit digit_char
digit_char-digit n = ground arith

all_of-if :
    (f : ℕ → Bool) (b : Bool) (x y : Bytes)
    → all_of f x ≡ true
    → all_of f y ≡ true
    → all_of f (if b then x else y) ≡ true
all_of-if f true x y h k = h
all_of-if f false x y h k = k

all_of-cons :
    (f : ℕ → Bool) (c : ℕ) (cs : Bytes) → f c ≡ true → all_of f cs ≡ true → all_of f (c ∷ cs) ≡ true
unfolding all_of
all_of-cons f c cs h k = ground (arith, h, k)

-- All digits pass a test that each digit of the base passes.
all_of-digits :
    (f : ℕ → Bool) (base : ℕ)
    → ((n : ℕ) → f (digit_char (n % base)) ≡ true)
    → (fuel n : ℕ) (rest : Bytes) → all_of f rest ≡ true
    → all_of f (digits_onto base fuel n rest) ≡ true
unfolding digits_onto
all_of-digits f base h zero n rest r = r
all_of-digits f base h (suc fuel) n rest r =
    let shown = digit_char (n % base) ∷ rest in
    let good : all_of f shown ≡ true = all_of-cons f _ rest (h n) r in
    all_of-if f (ltb n base) shown (digits_onto base fuel (n / base) shown) good
      (all_of-digits f base h fuel (n / base) shown good)

-- A text that starts with something else than a zero.
abbrev leads : Bytes → Bool
leads [] = false
leads (c ∷ cs) = not (c == b'0')

leads-if :
    (b : Bool) (x y : Bytes)
    → (b ≡ true → leads x ≡ true)
    → (b ≡ false → leads y ≡ true)
    → leads (if b then x else y) ≡ true
leads-if true x y h k = h refl
leads-if false x y h k = k refl

digit_char-leads :
    (n : ℕ) (rest : Bytes) → 0 < n → ltb n 10 ≡ true → leads (digit_char (n % 10) ∷ rest) ≡ true
unfolding digit_char
digit_char-leads n rest h k = ground (arith, h, k)

quotient_bounds :
    (fuel n : ℕ) → n < 10 ^ suc fuel → ltb n 10 ≡ false → (0 < n / 10) × (n / 10 < 10 ^ fuel)
quotient_bounds fuel n h k = (grind arith, grind arith)

-- A number that fits starts with its highest digit.
leads-digits :
    (fuel n : ℕ) (rest : Bytes) → 0 < n → n < 10 ^ fuel → leads (digits_onto 10 fuel n rest) ≡ true
unfolding digits_onto
leads-digits zero n rest h k = absurd (omega arith)
leads-digits (suc fuel) n rest h k =
    let shown = digit_char (n % 10) ∷ rest in
    leads-if (ltb n 10) shown (digits_onto 10 fuel (n / 10) shown) (digit_char-leads n rest h) (λ a.
      leads-digits fuel (n / 10) shown (quotient_bounds fuel n k a).0
        (quotient_bounds fuel n k a).1)

valid_decimal-of_digits :
    (ds : Bytes) → all_of isdigit ds ≡ true → leads ds ≡ true → valid_decimal ds ≡ true
unfolding valid_decimal all_of
valid_decimal-of_digits [] h k = k
valid_decimal-of_digits (c ∷ []) h k = ground (arith, h, k)
valid_decimal-of_digits (c ∷ d ∷ cs) h k = ground (arith, h, k)

valid_decimal-printed : (n : ℕ) → n < 10 ^ 20 → valid_decimal (print_number 10 n) ≡ true
unfolding print_number valid_decimal digits_onto
valid_decimal-printed zero h = refl
valid_decimal-printed (suc n) h =
    valid_decimal-of_digits (digits_onto 10 20 (suc n) [])
      (all_of-digits isdigit 10 digit_char-digit 20 (suc n) [] refl)
      (leads-digits 20 (suc n) [] (omega arith) h)

valid_int-of_decimal : (ds : Bytes) → valid_decimal ds ≡ true → valid_int ds ≡ true
unfolding valid_int valid_decimal
valid_int-of_decimal [] h = h
valid_int-of_decimal (c ∷ []) h = ground (arith, h)
valid_int-of_decimal (c ∷ d ∷ cs) h = ground (arith, h)

valid_int-if :
    (b : Bool) (x y : Bytes)
    → (b ≡ true → valid_int x ≡ true)
    → (b ≡ false → valid_int y ≡ true)
    → valid_int (if b then x else y) ≡ true
valid_int-if true x y h k = h refl
valid_int-if false x y h k = k refl

valid_int-minus : (ds : Bytes) → valid_decimal ds ≡ true → valid_int (b'-' ∷ ds) ≡ true
unfolding valid_int
valid_int-minus ds h = h

valid_int-printed : (bits : ℕ) → bits < 2 ^ 64 → valid_int (print_signed bits) ≡ true
unfolding print_signed
valid_int-printed bits h =
    valid_int-if (ltb bits (2 ^ 63)) (print_number 10 bits) (b'-' ∷ print_number 10 (2 ^ 64 - bits))
      (λ a. valid_int-of_decimal _ (valid_decimal-printed bits (omega arith)))
      (λ a. valid_int-minus _ (valid_decimal-printed (2 ^ 64 - bits) (omega arith)))

abbrev is_filled : Bytes → Bool
is_filled [] = false
is_filled (c ∷ cs) = true

is_filled-if :
    (b : Bool) (x y : Bytes)
    → is_filled x ≡ true
    → is_filled y ≡ true
    → is_filled (if b then x else y) ≡ true
is_filled-if true x y h k = h
is_filled-if false x y h k = k

is_filled-digits :
    (base fuel n c : ℕ) (rest : Bytes) → is_filled (digits_onto base fuel n (c ∷ rest)) ≡ true
unfolding digits_onto
is_filled-digits base zero n c rest = refl
is_filled-digits base (suc fuel) n c rest =
    is_filled-if (ltb n base) (digit_char (n % base) ∷ c ∷ rest)
      (digits_onto base fuel (n / base) (digit_char (n % base) ∷ c ∷ rest)) refl
      (is_filled-digits base fuel (n / base) (digit_char (n % base)) (c ∷ rest))

is_filled-printed : (base n : ℕ) → is_filled (print_number base n) ≡ true
unfolding print_number digits_onto
is_filled-printed base n =
    is_filled-if (ltb n base) (digit_char (n % base) ∷ [])
      (digits_onto base 19 (n / base) (digit_char (n % base) ∷ [])) refl
      (is_filled-digits base 19 (n / base) (digit_char (n % base)) [])

valid_digits-filled :
    (ds : Bytes) → is_filled ds ≡ true → all_of isxdigit ds ≡ true → valid_digits ds ≡ true
unfolding valid_digits
valid_digits-filled [] h k = h
valid_digits-filled (c ∷ cs) h k = k

valid_hex-printed : (bits : ℕ) → valid_hex (print_hex bits) ≡ true
unfolding valid_hex print_hex print_number
valid_hex-printed bits =
    valid_digits-filled (print_number 16 bits) (is_filled-printed 16 bits)
      (all_of-digits isxdigit 16 digit_char-xdigit 20 bits [] refl)

-- The text that sym_validate_range writes for a 64-bit bound is one that sym_string_valid accepts
-- for the symbol, whether it is an int, whose bound may be negative, or a hex.
pub sym_string_valid-print_bound :
    (type : SymbolType) (bits : ℕ)
    → (type ≡ s_int) ⊎ (type ≡ s_hex)
    → bits < 2 ^ 64
    → sym_string_valid type (print_bound type bits) ≡ true
unfolding sym_string_valid print_bound
sym_string_valid-print_bound s_int bits k h = valid_int-printed bits h
sym_string_valid-print_bound s_hex bits k h = valid_hex-printed bits
sym_string_valid-print_bound _ bits k h = ground (arith, k)
