-- ===== src/Ledger/Validation.antt =====
-- internal/domain/ledger/entry.go: `validate`.
use junglegaming_backend_cha.Base.Int.{sub-eq-add_neg, IsInt64, ◌+ℤ◌, ◌<ℤ◌, ◌≤ℤ◌, ℤ, pos, ◌-ℤ◌}
use junglegaming_backend_cha.Money.{is_positive, is_negative, equal, Money}
use junglegaming_backend_cha.AppErr.{ok, Result-cases}
use junglegaming_backend_cha.Base.{inr, inl, arith, sym, ap, ◌∙◌, true, ◌≡◌}
use junglegaming_backend_cha.Ledger.{
  is_known, expected_after, validate, Entry, Direction, debit_side, credit_side, unknown,
}
use mathlib.Core.Path.{subst}
use junglegaming_backend_cha.Money.Arith.{Exact, add-inv, sub-inv, equal-inv}

-- The change of the balance that an entry stands for.
abbrev pub signed_amount : Direction → ℤ → ℤ
signed_amount debit_side units = pos 0 -ℤ units
signed_amount credit_side units = units
signed_amount (unknown raw) units = pos 0

-- A sound entry: a positive amount in a known direction, and a balance that is not negative on
-- either side and changes by exactly that amount.
pub record IsSound (e : Entry) : Type 0 where
  pub positive : pos 0 <ℤ e.amount.amount
  pub nonneg_before : pos 0 ≤ℤ e.balance_before.amount
  pub nonneg_after : pos 0 ≤ℤ e.balance_after.amount
  pub exact :
      e.balance_after.amount ≡ e.balance_before.amount +ℤ signed_amount e.direction e.amount.amount
  pub own : e.amount.currency ≡ e.balance_before.currency
  pub kept : e.balance_after.currency ≡ e.balance_before.currency

-- The amounts of an entry are int64, as Go types them.
pub record HasWords (e : Entry) : Type 0 where
  pub amount : IsInt64 e.amount.amount
  pub balance : IsInt64 e.balance_before.amount

validate-expected :
    (e : Entry)
    → validate e ≡ ok tt
    → (x : Money) × (expected_after e.direction e.balance_before e.amount ≡ ok x)
      × (equal x e.balance_after ≡ ok true)
unfolding validate
validate-expected e h = elim (Result-cases (expected_after e.direction e.balance_before e.amount)) [
  | inl (x, p) ↦ elim (Result-cases (equal x e.balance_after)) [
    | inl (b, q) ↦ (x, p, ground arith)
    | inr (f, q) ↦ absurd (ground arith)
  ]
  | inr (f, p) ↦ absurd (ground arith)
]

module _ (e : Entry) (h : validate e ≡ ok tt) where
  pub validate-known : is_known e.direction ≡ true
  unfolding validate
  validate-known = ground arith

  validate-positive : pos 0 <ℤ e.amount.amount
  unfolding validate is_positive
  validate-positive = ground arith

  validate-nonneg : (pos 0 ≤ℤ e.balance_before.amount) × (pos 0 ≤ℤ e.balance_after.amount)
  unfolding validate is_negative
  validate-nonneg = ground arith

module _ (e : Entry) (w : HasWords e) where
  -- The two sides of the arithmetic check agree.
  validate-Exact :
      (x : Money)
      → expected_after e.direction e.balance_before e.amount ≡ ok x
      → equal x e.balance_after ≡ ok true
      → is_known e.direction ≡ true
      → Exact e.balance_before e.amount
          (e.balance_before.amount +ℤ signed_amount e.direction e.amount.amount)
          x
  unfolding expected_after is_known
  validate-Exact x p q known = go e.direction p known
    where
      go :
          (d : Direction)
          → expected_after d e.balance_before e.amount ≡ ok x
          → is_known d ≡ true
          → Exact e.balance_before e.amount
              (e.balance_before.amount +ℤ signed_amount d e.amount.amount)
              x
      go debit_side p k =
          let r = sub-inv e.balance_before e.amount x w.balance w.amount p in
          subst (λ u. Exact e.balance_before e.amount u x) (sub-eq-add_neg _ _) r
      go credit_side p k = add-inv e.balance_before e.amount x w.balance w.amount p
      go (unknown raw) p k = absurd (cc k)

-- An entry with int64 amounts that passes `validate` is sound: a positive amount in a known
-- direction, no negative balance, and a balance that changes by exactly that amount, all in one
-- currency.
pub validate-IsSound : (e : Entry) → HasWords e → validate e ≡ ok tt → IsSound e
validate-IsSound e w h =
    let (x, p, q) = validate-expected e h in
    let r = validate-Exact e w x p q (validate-known e h) in
    let s = equal-inv x e.balance_after q in
    record {
      positive = validate-positive e h;
      nonneg_before = (validate-nonneg e h).0;
      nonneg_after = (validate-nonneg e h).1;
      exact = sym s.1 ∙ ap (λ (m : Money). m.amount) r.result;
      own = r.compatible.same;
      kept = sym s.2 ∙ ap (λ (m : Money). m.currency) r.result;
    }
