-- ===== src/Money/Text/Shape.antt =====
-- internal/domain/money/money.go: the pieces of `parseMinorUnits` on the digits of a number.
use junglegaming_backend_cha.Base.{
  ℕ, zero, suc, ◌+◌, ◌*◌, ◌/◌, ◌%◌, ◌<◌, ◌≡◌, refl, [], ◌∷◌, ◌++◌, true, false, arith, some,
}
use junglegaming_backend_cha.Money.{Bytes}
use junglegaming_backend_cha.Money.Text.{
  major_pattern, unsigned_pattern, has_minus, trim_minus, cut_point, two_digits,
}
use junglegaming_backend_cha.Money.Text.Decimal.{decimal, format_uint, parse_uint, scan, is_digit}

pub decimal-append : (f n : ℕ) (out s : Bytes) → decimal f n out ++ s ≡ decimal f n (out ++ s)
unfolding decimal
decimal-append zero n out s = refl
decimal-append (suc f) n out s = ground (arith, decimal-append f (n / 10) ((b'0' + n % 10) ∷ out) s)

-- The two digits of the minor units.
pub two_digits-eq : (n : ℕ) → n < 100 → two_digits n ≡ (b'0' + n / 10) ∷ (b'0' + n % 10) ∷ []
unfolding two_digits format_uint decimal
two_digits-eq n h = ground arith

module _ (k : ℕ) (out : Bytes) (digit : k < 10) where
  pub major_pattern-digit : major_pattern ((b'0' + k) ∷ out) ≡ major_pattern out
  unfolding major_pattern is_digit
  major_pattern-digit = ground arith

  pub unsigned_pattern-digit : unsigned_pattern ((b'0' + k) ∷ out) ≡ major_pattern out
  unfolding unsigned_pattern is_digit
  unsigned_pattern-digit = ground arith

  pub trim_minus-digit : trim_minus ((b'0' + k) ∷ out) ≡ (b'0' + k) ∷ out
  unfolding trim_minus
  trim_minus-digit = ground arith

  pub has_minus-digit : has_minus ((b'0' + k) ∷ out) ≡ false
  unfolding has_minus
  has_minus-digit = ground arith

  pub cut_point-digit :
      cut_point ((b'0' + k) ∷ out) ≡ ((b'0' + k) ∷ (cut_point out).0, (cut_point out).1)
  unfolding cut_point
  cut_point-digit = ground arith

-- The number stands at the front, so the text begins with a digit.
pub unsigned_pattern-decimal :
    (f n : ℕ) (out : Bytes) → unsigned_pattern (decimal (suc f) n out) ≡ major_pattern out
unfolding decimal
unsigned_pattern-decimal zero n out = ground (arith, unsigned_pattern-digit (n % 10) out)
unsigned_pattern-decimal (suc f) n out = ground (
  arith,
  unsigned_pattern-digit (n % 10) out,
  major_pattern-digit (n % 10) out,
  unsigned_pattern-decimal f (n / 10) ((b'0' + n % 10) ∷ out),
)

pub trim_minus-decimal :
    (f n : ℕ) (out : Bytes) → trim_minus (decimal (suc f) n out) ≡ decimal (suc f) n out
unfolding decimal
trim_minus-decimal zero n out = ground (arith, trim_minus-digit (n % 10) out)
trim_minus-decimal (suc f) n out =
    ground
      (arith, trim_minus-digit (n % 10) out, trim_minus-decimal f (n / 10) ((b'0' + n % 10) ∷ out))

pub has_minus-decimal : (f n : ℕ) (out : Bytes) → has_minus (decimal (suc f) n out) ≡ false
unfolding decimal
has_minus-decimal zero n out = ground (arith, has_minus-digit (n % 10) out)
has_minus-decimal (suc f) n out =
    ground
      (arith, has_minus-digit (n % 10) out, has_minus-decimal f (n / 10) ((b'0' + n % 10) ∷ out))

pub parse_uint-decimal :
    (f n : ℕ) (out : Bytes) → parse_uint (decimal (suc f) n out) ≡ scan (decimal (suc f) n out) 0
unfolding decimal parse_uint
parse_uint-decimal zero n out = ground arith
parse_uint-decimal (suc f) n out =
    ground (arith, parse_uint-decimal f (n / 10) ((b'0' + n % 10) ∷ out))

pub cut_point-decimal :
    (f n : ℕ) (out : Bytes)
    → cut_point (decimal f n out) ≡ (decimal f n (cut_point out).0, (cut_point out).1)
unfolding decimal
cut_point-decimal zero n out = refl
cut_point-decimal (suc f) n out =
    ground
      (arith, cut_point-digit (n % 10) out, cut_point-decimal f (n / 10) ((b'0' + n % 10) ∷ out))

-- A number is followed by the point and two digits.
module _ (d e : ℕ) (dd : d < 10) (ee : e < 10) where
  abbrev pub point_and : Bytes
  point_and = b'.' ∷ (b'0' + d) ∷ (b'0' + e) ∷ []

  pub major_pattern-point : major_pattern point_and ≡ true
  unfolding major_pattern is_digit
  major_pattern-point = ground arith

  pub cut_point-point : cut_point point_and ≡ ([], some ((b'0' + d) ∷ (b'0' + e) ∷ []))
  unfolding cut_point
  cut_point-point = ground arith

  pub scan_two : parse_uint ((b'0' + d) ∷ (b'0' + e) ∷ []) ≡ some (d * 10 + e)
  unfolding parse_uint is_digit
  scan_two = ground arith
