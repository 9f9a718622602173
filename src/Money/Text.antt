-- ===== src/Money/Text.antt =====
-- internal/domain/money/money.go: amounts as decimal text.
pub mod Decimal
mod Shape
pub mod RoundTrip
pub mod Exact
pub mod Range
use junglegaming_backend_cha.Base.{
  ℕ, zero, suc, ◌+◌, ◌-◌, ◌*◌, ◌/◌, ◌%◌, ◌^◌, [], ◌∷◌, ◌++◌, String, Bool, true, false, not, ◌&&◌,
  ◌||◌, ltb, leb, if◌then◌else◌, ◌==◌, ◌!=◌, nat_eq, Option, none, some,
}
use junglegaming_backend_cha.Base.Int.{
  ℤ, pos, negsuc, ◌+ℤ◌, ◌-ℤ◌, ltb_ℤ, wrap64, min_int64, pos_part,
}
use junglegaming_backend_cha.AppErr.{ErrorKind, Error, Result, ok, err, ◌>>=◌, ◌>>◌, raise_if}
use junglegaming_backend_cha.Money.{
  Bytes, Money, new_currency, is_negative, is_positive, code_invalid_amount, code_overflow,
  code_negative_amount, code_zero_amount,
}
use Decimal.{format_uint, parse_uint, is_digit}

-- The tail `(\.[0-9]{1,2})?$` behind the point.
unfoldable pub fraction_pattern : Bytes → Bool
fraction_pattern (a ∷ []) = is_digit a
fraction_pattern (a ∷ b ∷ []) = is_digit a && is_digit b
fraction_pattern _ = false

-- `[0-9]*(\.[0-9]{1,2})?$`
unfoldable pub major_pattern : Bytes → Bool
unfolding fraction_pattern
major_pattern [] = true
major_pattern (c ∷ s) = if c == b'.' then fraction_pattern s else is_digit c && major_pattern s

-- `[0-9]+(\.[0-9]{1,2})?$`
unfoldable pub unsigned_pattern : Bytes → Bool
unfolding major_pattern
unsigned_pattern [] = false
unsigned_pattern (c ∷ s) = is_digit c && major_pattern s

-- `strings.HasPrefix(amount, "-")` and `strings.TrimPrefix(amount, "-")`
unfoldable pub has_minus : Bytes → Bool
has_minus [] = false
has_minus (c ∷ s) = c == b'-'

unfoldable pub trim_minus : Bytes → Bytes
trim_minus [] = []
trim_minus (c ∷ s) = if c == b'-' then s else c ∷ s

-- `^-?[0-9]+(\.[0-9]{1,2})?$`
unfoldable pub amount_pattern : Bytes → Bool
amount_pattern s = unsigned_pattern (trim_minus s)

-- `strings.IndexByte(s, '.')` with the slices before and behind the point that it finds.
unfoldable pub cut_point : Bytes → Bytes × Option Bytes
cut_point [] = ([], none)
cut_point (c ∷ s) =
    let (before, after) = cut_point s in if c == b'.' then ([], some s) else (c ∷ before, after)

-- `for len(minorPart) < Scale { minorPart += "0" }`
unfoldable pub pad_scale : Bytes → Bytes
pad_scale [] = b'0' ∷ b'0' ∷ []
pad_scale (a ∷ []) = a ∷ b'0' ∷ []
pad_scale s = s

unfoldable pub minor_part : Option Bytes → Bytes
unfolding pad_scale
minor_part none = b'0' ∷ []
minor_part (some s) = pad_scale s

unfoldable pub or_error : Option ℕ → Error → Result ℕ
or_error none e = err e
or_error (some n) e = ok n

-- The magnitude as an int64: `int64(magnitude)`, `math.MinInt64` or `-int64(magnitude)`.
unfoldable pub signed_units : Bool → ℕ → ℤ
signed_units negative magnitude =
    if not negative
    then wrap64 (pos magnitude)
    else if magnitude == 2 ^ 63 - 1 + 1
    then min_int64
    else wrap64 (pos 0 -ℤ wrap64 (pos magnitude))

-- The range check and the conversion, on the uint64 values of the two parts.
unfoldable pub units_of_parts : Bool → ℕ → ℕ → Result ℤ
unfolding signed_units
units_of_parts negative major minor = do
  let max_magnitude = if negative then 2 ^ 63 - 1 + 1 else 2 ^ 63 - 1
  raise_if (ltb ((max_magnitude + 2 ^ 64 - minor) % 2 ^ 64 / 100) major)
      (Error.new ErrorKind.invalid code_overflow)
  ok (signed_units negative ((major * 100 + minor) % 2 ^ 64))

-- `amount == ""`
unfoldable pub is_empty : Bytes → Bool
is_empty [] = true
is_empty (c ∷ s) = false

-- `parseMinorUnits`
unfoldable pub parse_minor_units : Bytes → Result ℤ
parse_minor_units amount = do
  raise_if (is_empty amount) (Error.new ErrorKind.invalid code_invalid_amount)
  raise_if (not (amount_pattern amount)) (Error.new ErrorKind.invalid code_invalid_amount)
  let parts = cut_point (trim_minus amount)
  major ← or_error (parse_uint parts.0) (Error.new ErrorKind.invalid code_overflow)
  minor ←
      or_error (parse_uint (minor_part parts.1)) (Error.new ErrorKind.invalid code_invalid_amount)
  units_of_parts (has_minus amount) major minor

-- `fmt.Sprintf("%02d", n)`
unfoldable pub two_digits : ℕ → Bytes
two_digits n = if ltb n 10 then b'0' ∷ format_uint n else format_uint n

-- `uint64(-(units + 1)) + 1` for a negative amount, and `uint64(units)`.
unfoldable pub magnitude_of : ℤ → ℕ
magnitude_of units =
    if ltb_ℤ units (pos 0)
    then (pos_part (wrap64 (pos 0 -ℤ wrap64 (units +ℤ pos 1))) + 1) % 2 ^ 64
    else pos_part units

-- `FormatMinorUnits`
unfoldable pub format_minor_units : ℤ → Bytes
format_minor_units units =
    let absolute = magnitude_of units in
    let formatted = format_uint (absolute / 100) ++ b'.' ∷ two_digits (absolute % 100) in
    if ltb_ℤ units (pos 0) then b'-' ∷ formatted else formatted

-- `AmountString`, which `String` calls too.
unfoldable pub amount_string : Money → Bytes
unfolding format_minor_units
amount_string m = format_minor_units m.amount

-- `Parse`
unfoldable pub parse : Bytes → String → Result Money
unfolding parse_minor_units
parse amount currency = do
  cur ← new_currency currency
  units ← parse_minor_units amount
  ok (record { amount = units; currency = cur })

-- `ParseNonNegative`
unfoldable pub parse_non_negative : Bytes → String → Result Money
unfolding parse
parse_non_negative amount currency = do
  m ← parse amount currency
  raise_if (is_negative m) (Error.new ErrorKind.invalid code_negative_amount)
  ok m

-- `ParsePositive`
unfoldable pub parse_positive : Bytes → String → Result Money
unfolding parse
parse_positive amount currency = do
  m ← parse amount currency
  raise_if (not (is_positive m)) (Error.new ErrorKind.invalid code_zero_amount)
  ok m
