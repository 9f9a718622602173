-- ===== src/Money.antt =====
-- internal/domain/money/money.go: the Money value object. Amounts are int64 minor units, kept as
-- integers with their wrap-around written out (`wrap64`). The text is in the child `Text`.
pub mod Arith
pub mod Text
use junglegaming_backend_cha.Base.{
  ℕ, [], ◌∷◌, List, String, Bool, false, not, ◌&&◌, ◌||◌, leb, if◌then◌else◌, ◌==◌, ◌!=◌, string_eq,
}
use junglegaming_backend_cha.Base.Int.{ℤ, pos, negsuc, ◌+ℤ◌, ◌-ℤ◌, ltb_ℤ, wrap64, min_int64, int_eq}
use junglegaming_backend_cha.AppErr.{ErrorKind, Error, Result, ok, ◌>>=◌, ◌>>◌, raise_if}
use Prim.Native.Char.{code}

abbrev pub code_invalid_amount : String
code_invalid_amount = "INVALID_MONEY_AMOUNT"

abbrev pub code_invalid_currency : String
code_invalid_currency = "INVALID_MONEY_CURRENCY"

abbrev pub code_currency_mismatch : String
code_currency_mismatch = "MONEY_CURRENCY_MISMATCH"

abbrev pub code_overflow : String
code_overflow = "MONEY_OVERFLOW"

abbrev pub code_negative_amount : String
code_negative_amount = "NEGATIVE_MONEY_AMOUNT"

abbrev pub code_zero_amount : String
code_zero_amount = "ZERO_MONEY_AMOUNT"

-- A text as its characters' codes; all that the program looks for in a text is ASCII.
abbrev pub Bytes : Type 0
Bytes = List ℕ

abbrev pub codes : String → Bytes
codes String.[] = []
codes (String.◌∷◌ c s) = code c ∷ codes s

is_upper : ℕ → Bool
is_upper c = leb b'A' c && leb c b'Z'

-- `^[A-Z]{3}$`
unfoldable pub currency_pattern : Bytes → Bool
unfolding is_upper
currency_pattern (a ∷ b ∷ c ∷ []) = is_upper a && is_upper b && is_upper c
currency_pattern _ = false

-- `Currency`, a named string.
abbrev pub Currency : Type 0
Currency = String

unfoldable pub new_currency : String → Result Currency
unfolding currency_pattern
new_currency c = do
  raise_if (not (currency_pattern (codes c))) (Error.new ErrorKind.invalid code_invalid_currency)
  ok c

pub record Money : Type 0 where
  pub amount : ℤ
  pub currency : Currency

-- `FromMinorUnits`
unfoldable pub from_minor_units : ℤ → Currency → Result Money
unfolding new_currency
from_minor_units units c = do
  raise_if (c == "") (Error.new ErrorKind.invalid code_invalid_currency)
  new_currency c
  ok (record { amount = units; currency = c })

-- `Zero`
unfoldable pub zero_money : Currency → Result Money
unfolding from_minor_units
zero_money c = from_minor_units (pos 0) c

unfoldable pub is_valid : Money → Bool
is_valid m = m.currency != ""

unfoldable pub is_zero : Money → Bool
is_zero m = m.amount == pos 0

unfoldable pub is_positive : Money → Bool
is_positive m = ltb_ℤ (pos 0) m.amount

unfoldable pub is_negative : Money → Bool
is_negative m = ltb_ℤ m.amount (pos 0)

unfoldable pub assert_compatible : Money → Money → Result (Unit {0})
unfolding is_valid
assert_compatible m other = do
  raise_if (not (is_valid m) || not (is_valid other))
      (Error.new ErrorKind.invalid code_invalid_currency)
  raise_if (m.currency != other.currency) (Error.new ErrorKind.invalid code_currency_mismatch)

-- `Add`: int64 addition wraps, and the test after it finds the overflow.
unfoldable pub add : Money → Money → Result Money
add m other = do
  assert_compatible m other
  let sum = wrap64 (m.amount +ℤ other.amount)
  raise_if
      (ltb_ℤ (pos 0) other.amount && ltb_ℤ sum m.amount
        || ltb_ℤ other.amount (pos 0) && ltb_ℤ m.amount sum)
      (Error.new ErrorKind.invalid code_overflow)
  ok (record { amount = sum; currency = m.currency })

-- `Sub`
unfoldable pub sub : Money → Money → Result Money
sub m other = do
  assert_compatible m other
  let diff = wrap64 (m.amount -ℤ other.amount)
  raise_if
      (ltb_ℤ other.amount (pos 0) && ltb_ℤ diff m.amount
        || ltb_ℤ (pos 0) other.amount && ltb_ℤ m.amount diff)
      (Error.new ErrorKind.invalid code_overflow)
  ok (record { amount = diff; currency = m.currency })

-- `Neg`
unfoldable pub neg : Money → Result Money
neg m = do
  raise_if (m.amount == min_int64) (Error.new ErrorKind.invalid code_overflow)
  ok (record { amount = wrap64 (pos 0 -ℤ m.amount); currency = m.currency })

-- `Abs`
unfoldable pub abs : Money → Result Money
unfolding neg
abs m = if ltb_ℤ m.amount (pos 0) then neg m else ok m

-- `Compare`, with its -1, 0 or 1.
unfoldable pub compare : Money → Money → Result ℤ
compare m other = do
  assert_compatible m other
  ok (
      if ltb_ℤ m.amount other.amount
      then negsuc 0
      else if ltb_ℤ other.amount m.amount
      then pos 1
      else pos 0)

unfoldable pub equal : Money → Money → Result Bool
unfolding compare
equal m other = do cmp ← compare m other; ok (cmp == pos 0)

unfoldable pub less_than : Money → Money → Result Bool
unfolding compare
less_than m other = do cmp ← compare m other; ok (ltb_ℤ cmp (pos 0))

unfoldable pub greater_than : Money → Money → Result Bool
unfolding compare
greater_than m other = do cmp ← compare m other; ok (ltb_ℤ (pos 0) cmp)
