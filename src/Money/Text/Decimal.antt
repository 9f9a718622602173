-- ===== src/Money/Text/Decimal.antt =====
-- The decimal conversions of Go's strconv that the money text calls: `FormatUint(n, 10)` and
-- `ParseUint(s, 10, 64)`.
use junglegaming_backend_cha.Base.{
  ℕ, zero, suc, ◌+◌, ◌-◌, ◌*◌, ◌/◌, ◌%◌, ◌^◌, ◌<◌, ◌≡◌, [], ◌∷◌, Bool, ◌&&◌, ltb, leb, arith,
  if◌then◌else◌, Option, none, some,
}
use junglegaming_backend_cha.Money.{Bytes}
use native.Mathlib.Nat.{pow-suc}
use mathlib.Core.Path.{ap}

unfoldable pub is_digit : ℕ → Bool
is_digit c = leb b'0' c && leb c b'9'

-- The digits of `n` in front of `out`, one round for each digit.
unfoldable pub decimal : ℕ → ℕ → Bytes → Bytes
decimal zero n out = out
decimal (suc f) n out =
    let out' = (b'0' + n % 10) ∷ out in
    let rest = decimal f (n / 10) out' in if ltb n 10 then out' else rest

-- A uint64 has at most twenty digits.
unfoldable pub format_uint : ℕ → Bytes
unfolding decimal
format_uint n = decimal 20 n []

-- The digits of a uint64 read on top of `n`; `none` is a syntax or a range error.
unfoldable pub scan : Bytes → ℕ → Option ℕ
unfolding is_digit
scan [] n = some n
scan (c ∷ s) n =
    if is_digit c
    then (if ltb (2 ^ 64 - 1) (n * 10 + (c - b'0')) then none else scan s (n * 10 + (c - b'0')))
    else none

unfoldable pub parse_uint : Bytes → Option ℕ
unfolding scan
parse_uint [] = none
parse_uint (c ∷ s) = scan (c ∷ s) 0

scan_digit :
    (d n : ℕ) (out : Bytes)
    → d < 10
    → n * 10 + d < 2 ^ 64
    → scan ((b'0' + d) ∷ out) n ≡ scan out (n * 10 + d)
unfolding scan
scan_digit d n out h fits = ground arith

-- Reading the digits that `decimal` wrote gives the number back.
pub scan-decimal :
    (f n : ℕ) (out : Bytes) → n < 10 ^ f → n < 2 ^ 64 → scan (decimal f n out) 0 ≡ scan out n
unfolding decimal
scan-decimal zero n out h fits = ap (scan out) (omega arith)
scan-decimal (suc f) n out h fits = ground (
  arith,
  scan_digit (n % 10) (n / 10) out,
  scan-decimal f (n / 10) ((b'0' + n % 10) ∷ out),
  pow-suc 10 f,
)
