-- ===== src/Money/Text/Range.antt =====
-- internal/domain/money/money.go: `Parse` returns an int64.
use junglegaming_backend_cha.Money.Text.{
  has_minus, minor_part, trim_minus, cut_point, or_error, signed_units, units_of_parts,
  parse_minor_units, parse,
}
use junglegaming_backend_cha.Base.{
  inl, inr, Option-cases, ◌^◌, ◌%◌, ◌*◌, Bool, ℕ, ◌≡◌, arith, String, ◌+◌,
}
use junglegaming_backend_cha.Money.Text.Decimal.{parse_uint}
use junglegaming_backend_cha.Money.{new_currency, Bytes, Money}
use junglegaming_backend_cha.AppErr.{Result-cases, ok}
use junglegaming_backend_cha.Base.Int.{wrap64-IsInt64, ℤ, IsInt64, wrap64, pos, ◌-ℤ◌}

signed_units-word : (negative : Bool) (magnitude : ℕ) → IsInt64 (signed_units negative magnitude)
unfolding signed_units
signed_units-word negative magnitude =
    let a = wrap64-IsInt64 (pos magnitude) in
    let b = wrap64-IsInt64 (pos 0 -ℤ wrap64 (pos magnitude)) in ground (arith, a, b)

units_of_parts-word :
    (negative : Bool) (major minor : ℕ) (z : ℤ)
    → units_of_parts negative major minor ≡ ok z
    → IsInt64 z
unfolding units_of_parts
units_of_parts-word negative major minor z h =
    let word = signed_units-word negative ((major * 100 + minor) % 2 ^ 64) in
    ground (arith, h, word)

parse_minor_units-word : (s : Bytes) (z : ℤ) → parse_minor_units s ≡ ok z → IsInt64 z
unfolding parse_minor_units or_error
parse_minor_units-word s z h = elim (Option-cases (parse_uint (cut_point (trim_minus s)).0)) [
  | inl e ↦ absurd (ground (arith, e))
  | inr (major, p) ↦ elim (Option-cases (parse_uint (minor_part (cut_point (trim_minus s)).1))) [
    | inl e ↦ absurd (ground (arith, e, p))
    | inr (minor, q) ↦ units_of_parts-word (has_minus s) major minor z (ground arith)
  ]
]

-- An amount that `Parse` accepts is an int64.
pub parse-word :
    (s : Bytes) (currency : String) (m : Money) → parse s currency ≡ ok m → IsInt64 m.amount
unfolding parse
parse-word s currency m h = elim (Result-cases (new_currency currency)) [
  | inr (e, p) ↦ absurd (ground (arith, h, p))
  | inl (cur, p) ↦ elim (Result-cases (parse_minor_units s)) [
    | inr (e, q) ↦ absurd (ground (arith, h, p, q))
    | inl (z, q) ↦ let word = parse_minor_units-word s z q in ground (arith, h, p, q, word)
  ]
]
