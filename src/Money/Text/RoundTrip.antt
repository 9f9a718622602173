-- ===== src/Money/Text/RoundTrip.antt =====
-- internal/domain/money/money.go: `parseMinorUnits` after `FormatMinorUnits`.
use junglegaming_backend_cha.Base.{
  ℕ, zero, suc, ◌+◌, ◌*◌, ◌/◌, ◌%◌, ◌^◌, ◌<◌, ◌≤◌, ◌-◌, ◌≡◌, [], ◌∷◌, ◌++◌, true, false, arith,
  some,
}
use junglegaming_backend_cha.Base.Int.{
  ℤ, pos, negsuc, IsInt64, pos_part, neg_part, wrap64, ◌+ℤ◌, ◌-ℤ◌,
}
use junglegaming_backend_cha.AppErr.{ok}
use junglegaming_backend_cha.Money.{Bytes}
use junglegaming_backend_cha.Money.Text.{
  is_empty, amount_pattern, has_minus, trim_minus, cut_point, minor_part, pad_scale, or_error,
  units_of_parts, signed_units, parse_minor_units, format_minor_units, magnitude_of, two_digits,
}
use junglegaming_backend_cha.Money.Text.Decimal.{
  decimal, format_uint, scan, scan-decimal, parse_uint,
}
use junglegaming_backend_cha.Money.Text.Shape.{
  decimal-append, two_digits-eq, unsigned_pattern-decimal, trim_minus-decimal, has_minus-decimal,
  parse_uint-decimal, cut_point-decimal, point_and, major_pattern-point, cut_point-point, scan_two,
}

is_empty-decimal : (f n : ℕ) (out : Bytes) → is_empty (decimal (suc f) n out) ≡ false
unfolding is_empty decimal
is_empty-decimal zero n out = ground arith
is_empty-decimal (suc f) n out = ground (arith, is_empty-decimal f (n / 10) ((b'0' + n % 10) ∷ out))

module _ (n d e : ℕ) (fits : n < 10 ^ 20) (word : n < 2 ^ 64) (dd : d < 10) (ee : e < 10) where
  abbrev digits : Bytes
  digits = decimal 20 n (point_and d e dd ee)

  digits_major : parse_uint (cut_point digits).0 ≡ some n
  unfolding scan
  digits_major = rw (
    cut_point-decimal 20 n (point_and d e dd ee),
    cut_point-point d e dd ee,
    parse_uint-decimal 19 n [],
    scan-decimal 20 n [] fits word,
  )

  digits_minor : parse_uint (minor_part (cut_point digits).1) ≡ some (d * 10 + e)
  unfolding minor_part pad_scale
  digits_minor =
      rw (cut_point-decimal 20 n (point_and d e dd ee), cut_point-point d e dd ee)
        (scan_two d e dd ee)

  pub parse_digits : parse_minor_units digits ≡ units_of_parts false n (d * 10 + e)
  unfolding parse_minor_units amount_pattern or_error
  parse_digits = ground (
    arith,
    is_empty-decimal 19 n (point_and d e dd ee),
    trim_minus-decimal 19 n (point_and d e dd ee),
    has_minus-decimal 19 n (point_and d e dd ee),
    unsigned_pattern-decimal 19 n (point_and d e dd ee),
    major_pattern-point d e dd ee,
    digits_major,
    digits_minor,
  )

  pub parse_minus_digits : parse_minor_units (b'-' ∷ digits) ≡ units_of_parts true n (d * 10 + e)
  unfolding parse_minor_units amount_pattern or_error is_empty trim_minus has_minus
  parse_minus_digits = ground (
    arith,
    unsigned_pattern-decimal 19 n (point_and d e dd ee),
    major_pattern-point d e dd ee,
    digits_major,
    digits_minor,
  )

magnitude_of-eq : (z : ℤ) → IsInt64 z → magnitude_of z ≡ pos_part z + neg_part z
unfolding magnitude_of wrap64 ◌+ℤ◌ ◌-ℤ◌
magnitude_of-eq z h = ground arith

module _ (a : ℕ) (small : a ≤ 2 ^ 63) where
  abbrev tens : ℕ
  tens = a % 100 / 10

  abbrev ones : ℕ
  ones = a % 100 % 10

  formatted-eq :
      format_uint (a / 100) ++ b'.' ∷ two_digits (a % 100)
      ≡ decimal 20 (a / 100) (point_and tens ones (omega arith) (omega arith))
  unfolding format_uint
  formatted-eq = rw (two_digits-eq (a % 100) (omega arith)) (decimal-append 20 (a / 100) [] _)

  units_pos : a < 2 ^ 63 → units_of_parts false (a / 100) (tens * 10 + ones) ≡ ok (pos a)
  unfolding units_of_parts signed_units wrap64
  units_pos h = ground arith

  units_neg : 0 < a → units_of_parts true (a / 100) (tens * 10 + ones) ≡ ok (negsuc (a - 1))
  unfolding units_of_parts signed_units wrap64 ◌-ℤ◌
  units_neg h = ground arith

  read_formatted :
      a < 2 ^ 63
      → parse_minor_units (format_uint (a / 100) ++ b'.' ∷ two_digits (a % 100)) ≡ ok (pos a)
  read_formatted h =
      rw
        (
          formatted-eq,
          parse_digits (a / 100) tens ones (omega arith) (omega arith) (omega arith) (omega arith),
        )
        (units_pos h)

  read_minus_formatted :
      0 < a
      → parse_minor_units (b'-' ∷ (format_uint (a / 100) ++ b'.' ∷ two_digits (a % 100)))
        ≡ ok (negsuc (a - 1))
  read_minus_formatted h =
      rw
        (
          formatted-eq,
          parse_minus_digits (a / 100) tens ones (omega arith) (omega arith) (omega arith)
              (omega arith),
        )
        (units_neg h)

-- Every int64 amount is read back from its text.
pub parse-format_minor_units : (z : ℤ) → IsInt64 z → parse_minor_units (format_minor_units z) ≡ ok z
unfolding format_minor_units
parse-format_minor_units (pos n) h =
    rw (magnitude_of-eq (pos n) h) (ground (arith, read_formatted n (omega arith) (omega arith)))
parse-format_minor_units (negsuc n) h =
    rw (magnitude_of-eq (negsuc n) h)
      (ground (arith, read_minus_formatted (suc n) (omega arith) (omega arith)))
