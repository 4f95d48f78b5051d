-- ===== src/Libc.antt =====
-- The parts of the C library that scripts/kconfig compares and reads symbol values with: strcmp,
-- isdigit, isxdigit, and strtoll/strtoull with their end pointer and `errno`, on 64-bit words.
pub mod Laws
use Prim.Native.Nat.{Ordering, compare}
use kdevops.Prelude.{
  ℕ, ◌+◌, ◌-◌, ◌*◌, ◌%◌, ◌^◌, Bool, true, false, ◌&&◌, ◌||◌, [], ◌∷◌, Option, none, some, leb, ltb,
  ◌==◌, if◌then◌else◌, Bytes,
}

abbrev pub is_within : ℕ → ℕ → ℕ → Bool
is_within lo hi c = leb lo c && leb c hi

unfoldable pub isdigit : ℕ → Bool
isdigit c = is_within b'0' b'9' c

unfoldable pub isxdigit : ℕ → Bool
unfolding isdigit
isxdigit c = isdigit c || is_within b'a' b'f' c || is_within b'A' b'F' c

unfoldable pub isspace : ℕ → Bool
isspace c = c == b' ' || is_within 9 13 c

-- The sign of `strcmp`; the end of a string is below every byte.
unfoldable pub strcmp : Bytes → Bytes → Ordering
strcmp [] [] = Ordering.eq
strcmp [] (y ∷ ys) = Ordering.lt
strcmp (x ∷ xs) [] = Ordering.gt
strcmp (x ∷ xs) (y ∷ ys) = elim (compare x y) [
  | Ordering.eq ↦ strcmp xs ys
  | Ordering.lt ↦ Ordering.lt
  | Ordering.gt ↦ Ordering.gt
]

-- The value of a digit in a base, if it is one.
unfoldable pub digit_value : ℕ → ℕ → Option ℕ
digit_value base c =
    let v =
      if is_within b'0' b'9' c
      then c - b'0'
      else if is_within b'a' b'z' c
      then c - b'a' + 10
      else if is_within b'A' b'Z' c
      then c - b'A' + 10
      else base in
    if ltb v base then some v else none

-- The digits at the head of a text: their value, and what follows them.
unfoldable pub scan_digits : ℕ → ℕ → Bytes → ℕ × Bytes
unfolding digit_value
scan_digits base acc [] = (acc, [])
scan_digits base acc (c ∷ cs) = elim (digit_value base c) [
  | some v ↦ scan_digits base (acc * base + v) cs
  | none ↦ (acc, c ∷ cs)
]

unfoldable pub skip_spaces : Bytes → Bytes
unfolding isspace
skip_spaces [] = []
skip_spaces (c ∷ cs) = let rest = skip_spaces cs in if isspace c then rest else c ∷ cs

-- The sign at the head of a text: whether it is a minus, and what follows.
unfoldable pub scan_sign : Bytes → Bool × Bytes
scan_sign [] = (false, [])
scan_sign (c ∷ cs) =
    if c == b'-' then (true, cs) else if c == b'+' then (false, cs) else (false, c ∷ cs)

is_digit_of : ℕ → Bytes → Bool
unfolding digit_value
is_digit_of base [] = false
is_digit_of base (c ∷ cs) = elim (digit_value base c) [ some v ↦ true | none ↦ false ]

-- `0x` counts as a prefix only in front of a hexadecimal digit.
scan_hex_prefix : Bytes → Option Bytes
unfolding is_digit_of
scan_hex_prefix (z ∷ x ∷ cs) =
    if z == b'0' && (x == b'x' || x == b'X') && is_digit_of 16 cs then some cs else none
scan_hex_prefix _ = none

starts_with_zero : Bytes → Bool
starts_with_zero [] = false
starts_with_zero (c ∷ cs) = c == b'0'

-- The base that is used, and the digits to read: base 0 goes by the prefix.
scan_base : ℕ → Bytes → ℕ × Bytes
unfolding scan_hex_prefix starts_with_zero
scan_base base s =
    if base == 0 || base == 16
    then elim (scan_hex_prefix s) [
      | some cs ↦ (16, cs)
      | none ↦ (if base == 16 then 16 else if starts_with_zero s then 8 else 10, s)
    ]
    else (base, s)

-- What both conversions read: the sign, the magnitude, and the text behind the digits, which is
-- the whole text where no digit was read.
pub record Number : Type 0 where
  pub negative : Bool
  pub magnitude : ℕ
  pub tail : Bytes

unfoldable pub scan_number : ℕ → Bytes → Number
unfolding skip_spaces scan_sign scan_base scan_digits is_digit_of
scan_number base str =
    let (minus, unsigned) = scan_sign (skip_spaces str) in
    let (used, digits) = scan_base base unsigned in
    let (value, rest) = scan_digits used 0 digits in
    if is_digit_of used digits
    then record { negative = minus; magnitude = value; tail = rest }
    else record { negative = false; magnitude = 0; tail = str }

-- The 64-bit pattern, the end pointer, and whether `errno` was set to ERANGE.
pub record Conversion : Type 0 where
  pub bits : ℕ
  pub tail : Bytes
  pub erange : Bool

-- The two's complement of a magnitude below 2^64.
abbrev negate64 : ℕ → ℕ
negate64 m = (2 ^ 64 - m) % 2 ^ 64

unfoldable pub strtoll : ℕ → Bytes → Conversion
unfolding scan_number
strtoll base str =
    let n = scan_number base str in
    if n.negative
    then record {
      bits = if leb n.magnitude (2 ^ 63) then negate64 n.magnitude else 2 ^ 63;
      tail = n.tail;
      erange = ltb (2 ^ 63) n.magnitude;
    }
    else record {
      bits = if ltb n.magnitude (2 ^ 63) then n.magnitude else 2 ^ 63 - 1;
      tail = n.tail;
      erange = leb (2 ^ 63) n.magnitude;
    }

unfoldable pub strtoull : ℕ → Bytes → Conversion
unfolding scan_number
strtoull base str =
    let n = scan_number base str in
    if ltb n.magnitude (2 ^ 64)
    then record {
      bits = if n.negative then negate64 n.magnitude else n.magnitude;
      tail = n.tail;
      erange = false;
    }
    else record { bits = 2 ^ 64 - 1; tail = n.tail; erange = true }

-- The order of two 64-bit patterns read as `signed long long`.
unfoldable pub compare_signed : ℕ → ℕ → Ordering
compare_signed a b = compare ((a + 2 ^ 63) % 2 ^ 64) ((b + 2 ^ 63) % 2 ^ 64)
