-- ===== src/Money/Arith.antt =====
-- internal/domain/money/money.go: int64 arithmetic and exact integers.
use junglegaming_backend_cha.Base.Int.{
  fits_int64, -ℤ_parts, parts_disjoint, ℤ, pos, ◌+ℤ◌, ◌-ℤ◌, ◌<ℤ◌, IsInt64, wrap64, wrap64_exact,
  wrap64_above, wrap64_below, int_laws, pos_part, neg_part, +ℤ_parts,
}
use junglegaming_backend_cha.Base.{
  if◌then◌else◌, Bool-cases, ◌≡◌, true, string_eq, arith, eq_iff, ◌<◌, ◌≤◌, inl, inr, ◌⊎◌, ◌^◌,
}
use junglegaming_backend_cha.AppErr.{Result, >>=-eq-ok, ErrorKind, Error, ok, err}
use junglegaming_backend_cha.Money.{
  equal, sub, Money, is_valid, assert_compatible, add, code_overflow,
}

-- Two initialised amounts of one currency, both int64.
pub record Compatible (m n : Money) : Type 0 where
  pub valid : is_valid m ≡ true
  pub same : n.currency ≡ m.currency
  pub left : IsInt64 m.amount
  pub right : IsInt64 n.amount

pub assert_compatible-ok :
    (m n : Money) → is_valid m ≡ true → n.currency ≡ m.currency → assert_compatible m n ≡ ok tt
unfolding assert_compatible is_valid
assert_compatible-ok m n v s =
    ground (arith, eq_iff m.currency "", eq_iff n.currency "", eq_iff m.currency n.currency)

pub IsInt64-cases : (z : ℤ) → IsInt64 z ⊎ ((2 ^ 63 ≤ pos_part z) ⊎ (2 ^ 63 < neg_part z))
IsInt64-cases z = omega arith

-- What is outside of int64 wraps to the other side.
wrap64_sum_out :
    (a b : ℤ)
    → IsInt64 a
    → IsInt64 b
    → ¬ IsInt64 (a +ℤ b)
    → ((pos 0 <ℤ b) × (wrap64 (a +ℤ b) <ℤ a)) ⊎ ((b <ℤ pos 0) × (a <ℤ wrap64 (a +ℤ b)))
wrap64_sum_out a b ha hb out =
    let d = parts_disjoint (a +ℤ b) in
    elim (IsInt64-cases (a +ℤ b)) [
      | inl h ↦ absurd (out h)
      | inr (inl h) ↦
          let w = wrap64_above (a +ℤ b) h (omega int_laws) in inl (rw w (omega int_laws))
      | inr (inr h) ↦
          let w = wrap64_below (a +ℤ b) h (omega int_laws) in inr (rw w (omega int_laws))
    ]

wrap64_diff_out :
    (a b : ℤ)
    → IsInt64 a
    → IsInt64 b
    → ¬ IsInt64 (a -ℤ b)
    → ((b <ℤ pos 0) × (wrap64 (a -ℤ b) <ℤ a)) ⊎ ((pos 0 <ℤ b) × (a <ℤ wrap64 (a -ℤ b)))
wrap64_diff_out a b ha hb out =
    let d = parts_disjoint (a -ℤ b) in
    elim (IsInt64-cases (a -ℤ b)) [
      | inl h ↦ absurd (out h)
      | inr (inl h) ↦
          let w = wrap64_above (a -ℤ b) h (omega int_laws) in inl (rw w (omega int_laws))
      | inr (inr h) ↦
          let w = wrap64_below (a -ℤ b) h (omega int_laws) in inr (rw w (omega int_laws))
    ]

pub add_exact :
    (m n : Money)
    → Compatible m n
    → (IsInt64 (m.amount +ℤ n.amount)
        → add m n ≡ ok (record { amount = m.amount +ℤ n.amount; currency = m.currency }))
      × (¬ IsInt64 (m.amount +ℤ n.amount)
          → add m n ≡ err (Error.new ErrorKind.invalid code_overflow))
unfolding add
add_exact m n c = (
  λ h. ground (
    arith,
    wrap64_exact (m.amount +ℤ n.amount) h,
    assert_compatible-ok m n c.valid c.same,
    +ℤ_parts m.amount n.amount,
  ),
  λ h. ground (
    arith,
    wrap64_sum_out m.amount n.amount c.left c.right h,
    assert_compatible-ok m n c.valid c.same,
  ),
)

pub sub_exact :
    (m n : Money)
    → Compatible m n
    → (IsInt64 (m.amount -ℤ n.amount)
        → sub m n ≡ ok (record { amount = m.amount -ℤ n.amount; currency = m.currency }))
      × (¬ IsInt64 (m.amount -ℤ n.amount)
          → sub m n ≡ err (Error.new ErrorKind.invalid code_overflow))
unfolding sub
sub_exact m n c = (
  λ h. ground (
    arith,
    wrap64_exact (m.amount -ℤ n.amount) h,
    assert_compatible-ok m n c.valid c.same,
    -ℤ_parts m.amount n.amount,
  ),
  λ h. ground (
    arith,
    wrap64_diff_out m.amount n.amount c.left c.right h,
    assert_compatible-ok m n c.valid c.same,
  ),
)

-- The result of an operation on two int64 amounts whose exact result has `units` units.
abbrev pub exact_or_overflow : Money → ℤ → Result Money
exact_or_overflow m units =
    if fits_int64 units
    then ok (record { amount = units; currency = m.currency })
    else err (Error.new ErrorKind.invalid code_overflow)

-- The addition of two initialised int64 amounts of one currency returns their exact sum in that
-- currency if the sum is an int64, and the overflow error if it is not.
pub add_outcome :
    (m n : Money) → Compatible m n → add m n ≡ exact_or_overflow m (m.amount +ℤ n.amount)
add_outcome m n c = elim (Bool-cases (fits_int64 (m.amount +ℤ n.amount))) [
  | inl e ↦ rw e ((add_exact m n c).0 (ground arith))
  | inr e ↦ rw e ((add_exact m n c).1 (ground arith))
]

-- The subtraction of two initialised int64 amounts of one currency returns their exact difference
-- in that currency if the difference is an int64, and the overflow error if it is not.
pub sub_outcome :
    (m n : Money) → Compatible m n → sub m n ≡ exact_or_overflow m (m.amount -ℤ n.amount)
sub_outcome m n c = elim (Bool-cases (fits_int64 (m.amount -ℤ n.amount))) [
  | inl e ↦ rw e ((sub_exact m n c).0 (ground arith))
  | inr e ↦ rw e ((sub_exact m n c).1 (ground arith))
]

assert_compatible-inv :
    (m n : Money) → assert_compatible m n ≡ ok tt → (is_valid m ≡ true) × (n.currency ≡ m.currency)
unfolding assert_compatible is_valid
assert_compatible-inv m n h =
    ground (arith, eq_iff m.currency "", eq_iff n.currency "", eq_iff m.currency n.currency)

-- What a successful operation on int64 amounts returned.
pub record Exact (m n : Money) (units : ℤ) (r : Money) : Type 0 where
  pub result : r ≡ record { amount = units; currency = m.currency }
  pub word : IsInt64 units
  pub compatible : Compatible m n

module _ (m n r : Money) (hm : IsInt64 m.amount) (hn : IsInt64 n.amount) where
  guarded-Compatible : assert_compatible m n ≡ ok tt → Compatible m n
  guarded-Compatible h =
      let (valid, same) = assert_compatible-inv m n h in
      record { valid = valid; same = same; left = hm; right = hn }

  pub add-inv : add m n ≡ ok r → Exact m n (m.amount +ℤ n.amount) r
  unfolding add
  add-inv h =
      let c = guarded-Compatible (>>=-eq-ok (assert_compatible m n) _ h).1 in
      elim (IsInt64-cases (m.amount +ℤ n.amount)) [
        | inl fits ↦ record {
          result = cc (h, (add_exact m n c).0 fits);
          word = fits;
          compatible = c;
        }
        | inr out ↦ absurd (cc (h, (add_exact m n c).1 (omega arith)))
      ]

  pub sub-inv : sub m n ≡ ok r → Exact m n (m.amount -ℤ n.amount) r
  unfolding sub
  sub-inv h =
      let c = guarded-Compatible (>>=-eq-ok (assert_compatible m n) _ h).1 in
      elim (IsInt64-cases (m.amount -ℤ n.amount)) [
        | inl fits ↦ record {
          result = cc (h, (sub_exact m n c).0 fits);
          word = fits;
          compatible = c;
        }
        | inr out ↦ absurd (cc (h, (sub_exact m n c).1 (omega arith)))
      ]

-- Two amounts are equal when they have the same units in the same currency.
pub equal-inv :
    (m n : Money)
    → equal m n ≡ ok true
    → (is_valid m ≡ true) × (m.amount ≡ n.amount) × (m.currency ≡ n.currency)
unfolding equal assert_compatible is_valid
equal-inv m n h =
    ground (arith, eq_iff m.currency "", eq_iff n.currency "", eq_iff m.currency n.currency)
