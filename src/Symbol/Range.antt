-- ===== src/Symbol/Range.antt =====
-- scripts/kconfig/symbol.c: `sym_get_range_val`, `sym_validate_range`, and the printing of a bound.
use kdevops.Prelude.{
  ℕ, zero, suc, ◌+◌, ◌-◌, ◌/◌, ◌%◌, ◌^◌, Option, none, some, [], ◌∷◌, ◌++◌, ltb, if◌then◌else◌,
  Bytes, codes,
}
use kdevops.Libc.{strtoll, compare_signed}
use kdevops.Expr.{SymId}
use kdevops.Symbol.{SymbolType, s_int, s_hex, text}
use kdevops.Symbol.Compare.{payload_text, is_lt, is_gt}
use kdevops.Symbol.Evaluate.{sym_get_range_prop}
use kdevops.Symbol.Properties.{range_bounds}
use kdevops.Symbol.State.{M, ◌>>=◌, ◌>>◌, pure, skip, deref, get_symbol, modify}

unfoldable pub digit_char : ℕ → ℕ
digit_char d = if ltb d 10 then b'0' + d else b'a' + (d - 10)

-- The digits of a number in a base, in front of a text.
unfoldable pub digits_onto : ℕ → ℕ → ℕ → Bytes → Bytes
unfolding digit_char
digits_onto base zero n rest = rest
digits_onto base (suc fuel) n rest =
    let shown = digit_char (n % base) ∷ rest in
    let more = digits_onto base fuel (n / base) shown in if ltb n base then shown else more

-- A 64-bit number has at most 20 digits.
unfoldable pub print_number : ℕ → ℕ → Bytes
unfolding digits_onto
print_number base n = digits_onto base 20 n []

-- `%lld` of a 64-bit pattern.
unfoldable pub print_signed : ℕ → Bytes
unfolding print_number
print_signed bits =
    if ltb bits (2 ^ 63) then print_number 10 bits else b'-' ∷ print_number 10 (2 ^ 64 - bits)

-- `0x%llx`
unfoldable pub print_hex : ℕ → Bytes
unfolding print_number
print_hex bits = codes "0x" ++ print_number 16 bits

-- The base of a numeric type; none for the others.
unfoldable pub base_of : SymbolType → Option ℕ
base_of s_int = some 10
base_of s_hex = some 16
base_of _ = none

unfoldable pub print_bound : SymbolType → ℕ → Bytes
unfolding print_signed print_hex
print_bound s_int bits = print_signed bits
print_bound _ bits = print_hex bits

pub base_or : ℕ → Option ℕ → ℕ
base_or base none = base
base_or base (some k) = k

module _ (calc : SymId → M (Unit {0})) where
  unfoldable pub sym_get_range_val : SymId → ℕ → M ℕ
  unfolding base_of base_or strtoll payload_text
  sym_get_range_val s base = do
    calc s
    y ← get_symbol s
    pure (strtoll (base_or base (base_of y.type)) (payload_text y.curr.val)).bits

  unfoldable pub bring_below : ℕ → ℕ → SymId → M (Option ℕ)
  unfolding sym_get_range_val compare_signed
  bring_below base val hi = do
    upper ← sym_get_range_val hi base
    pure (if is_gt (compare_signed val upper) then some upper else none)

  -- The upper bound is calculated only where the value is not below the lower one.
  unfoldable pub bring_into : SymId → ℕ → ℕ → SymId × SymId → M (Option ℕ)
  unfolding sym_get_range_val compare_signed bring_below
  bring_into s base val (lo, hi) = do
    lower ← sym_get_range_val lo base
    if is_lt (compare_signed val lower) then pure (some lower) else bring_below base val hi

  unfoldable pub set_bound : SymId → Option ℕ → M (Unit {0})
  unfolding print_bound
  set_bound s none = skip
  set_bound s (some bits) =
      modify s
        (λ y. record y { curr = record { val = text (print_bound y.type bits); tri = y.curr.tri } })

  unfoldable pub validate_in : SymId → ℕ → M (Unit {0})
  unfolding bring_into set_bound range_bounds sym_get_range_prop strtoll payload_text
  validate_in s base = do
    found ← sym_get_range_prop calc s
    elim found [
      | none ↦ skip
      | some (p, tri) ↦ do
        bounds ← deref (range_bounds p)
        y ← get_symbol s
        b ← bring_into s base (strtoll base (payload_text y.curr.val)).bits bounds
        set_bound s b
    ]

  unfoldable pub sym_validate_range : SymId → M (Unit {0})
  unfolding validate_in base_of
  sym_validate_range s = do
    y ← get_symbol s
    elim (base_of y.type) [ none ↦ skip | some base ↦ validate_in s base ]
