-- ===== src/Money/Text/Exact.antt =====
-- internal/domain/money/money.go: the value of an amount that `parseMinorUnits` accepts.
use junglegaming_backend_cha.Base.{
  inr, inl, Option-cases, ℕ, ◌+◌, ◌*◌, ◌-◌, ◌<◌, ◌≡◌, [], ◌∷◌, Bool, true, false, arith, Option,
  none, some, if◌then◌else◌,
}
use junglegaming_backend_cha.Money.Text.{
  has_minus, trim_minus, or_error, amount_pattern, parse_minor_units, unsigned_pattern,
  major_pattern, fraction_pattern, cut_point, minor_part, pad_scale, units_of_parts, signed_units,
}
use junglegaming_backend_cha.Base.Int.{ℤ, pos, ◌-ℤ◌, wrap64}
use junglegaming_backend_cha.AppErr.{ok}
use junglegaming_backend_cha.Money.{Bytes}
use junglegaming_backend_cha.Money.Text.Decimal.{parse_uint, is_digit}

-- What stands behind the point, if there is one, is a fraction of one or two digits.
abbrev AfterPoint : Option Bytes → Type 0
AfterPoint none = Unit
AfterPoint (some s) = fraction_pattern s ≡ true

cut_point-major : (s : Bytes) → major_pattern s ≡ true → AfterPoint (cut_point s).1
unfolding major_pattern cut_point
cut_point-major [] h = tt
cut_point-major (c ∷ s) h = ground (arith, cut_point-major s)

cut_point-unsigned : (s : Bytes) → unsigned_pattern s ≡ true → AfterPoint (cut_point s).1
unfolding unsigned_pattern cut_point is_digit
cut_point-unsigned [] h = tt
cut_point-unsigned (c ∷ s) h = ground (arith, cut_point-major s)

-- The value of a digit.
abbrev digit : ℕ → ℕ
digit c = c - 48

-- The hundredths that stand behind the point: none, tenths, or tenths and hundredths.
abbrev pub hundredths : Option Bytes → ℕ
hundredths none = 0
hundredths (some []) = 0
hundredths (some (a ∷ [])) = 10 * digit a
hundredths (some (a ∷ b ∷ s)) = 10 * digit a + digit b

minor_value :
    (after : Option Bytes) (m : ℕ)
    → AfterPoint after
    → parse_uint (minor_part after) ≡ some m
    → m ≡ hundredths after
unfolding minor_part pad_scale parse_uint is_digit fraction_pattern
minor_value none m p h = ground arith
minor_value (some []) m p h = ground arith
minor_value (some (a ∷ [])) m p h = ground arith
minor_value (some (a ∷ b ∷ [])) m p h = ground arith
minor_value (some (a ∷ b ∷ c ∷ s)) m p h = ground arith

-- The minor units are at most 99.
minor_bound :
    (after : Option Bytes) (m : ℕ)
    → AfterPoint after
    → parse_uint (minor_part after) ≡ some m
    → m < 100
unfolding minor_part pad_scale parse_uint is_digit fraction_pattern
minor_bound none m p h = ground arith
minor_bound (some []) m p h = ground arith
minor_bound (some (a ∷ [])) m p h = ground arith
minor_bound (some (a ∷ b ∷ [])) m p h = ground arith
minor_bound (some (a ∷ b ∷ c ∷ s)) m p h = ground arith

units_exact :
    (negative : Bool) (major minor : ℕ) (z : ℤ)
    → minor < 100
    → units_of_parts negative major minor ≡ ok z
    → z ≡ (if negative then pos 0 -ℤ pos (major * 100 + minor) else pos (major * 100 + minor))
unfolding units_of_parts signed_units wrap64 ◌-ℤ◌
units_exact true major minor z b h = ground arith
units_exact false major minor z b h = ground arith

-- If an amount is accepted, the digits before its point read as some major, and the result is
-- major * 100 plus the hundredths that its digits behind the point say (one digit is tenths, no
-- point is none), which are below 100, negative exactly if the text begins with a minus sign.
pub parse_minor_units_exact :
    (s : Bytes) (z : ℤ)
    → parse_minor_units s ≡ ok z
    → let parts = cut_point (trim_minus s) in
      (major : ℕ) × (parse_uint parts.0 ≡ some major)
      × (hundredths parts.1 < 100)
      × (z ≡ (
          if has_minus s
          then pos 0 -ℤ pos (major * 100 + hundredths parts.1)
          else pos (major * 100 + hundredths parts.1)))
unfolding parse_minor_units amount_pattern or_error
parse_minor_units_exact s z h = elim (Option-cases (parse_uint (cut_point (trim_minus s)).0)) [
  | inl e ↦ absurd (ground (arith, e))
  | inr (major, p) ↦ elim (Option-cases (parse_uint (minor_part (cut_point (trim_minus s)).1))) [
    | inl e ↦ absurd (ground (arith, e, p))
    | inr (minor, q) ↦
        let after = (cut_point (trim_minus s)).1 in
        let u : unsigned_pattern (trim_minus s) ≡ true = ground arith in
        let shape = cut_point-unsigned (trim_minus s) u in
        let b = minor_bound after minor shape q in
        let value = minor_value after minor shape q in
        (
          major,
          p,
          rw (← value) b,
          rw (← value) (units_exact (has_minus s) major minor z b (ground arith)),
        )
  ]
]
