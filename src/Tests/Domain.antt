-- ===== src/Tests/Domain.antt =====
-- The theorems on the domain types at concrete inputs.
use junglegaming_backend_cha.Money.{
  Money, assert_compatible, equal, is_positive, code_overflow, is_negative, sub, add, is_valid,
}
use junglegaming_backend_cha.Base.{
  inl, inr, nat_eq, ◌+◌, ◌*◌, ◌<◌, ◌≢◌, ℕ, none, if◌then◌else◌, ◌≡◌, refl, arith, some,
}
use junglegaming_backend_cha.Tests.Samples.{debit_entry, bet_params, brl, wallet, rejected_bet}
use junglegaming_backend_cha.Base.Int.{pos, negsuc, leb_ℤ, fits_int64, ◌-ℤ◌, ◌+ℤ◌, wrap64}
use junglegaming_backend_cha.Money.Text.Exact.{hundredths, parse_minor_units_exact}
use junglegaming_backend_cha.Money.Text.{
  has_minus, trim_minus, cut_point, format_minor_units, parse_minor_units,
}
use junglegaming_backend_cha.Money.Text.Decimal.{parse_uint}
use junglegaming_backend_cha.Wagering.Lifecycle.{terminal_absorbs, IsPersistable}
use junglegaming_backend_cha.Wagering.Transitions.{
  mark_failed, mark_processed, schedule_retry, mark_pending_reference, mark_rejected, validate,
}
use junglegaming_backend_cha.Wagering.{
  validate_amount_for_kind, code_terminal_state, external_transaction, new_external, Transaction,
}
use junglegaming_backend_cha.Wallet.Movement.{
  credit_outcome, debit_outcome, IsValid, IsMovement, moved_to,
}
use junglegaming_backend_cha.Wagering.Statuses.{pending}
use junglegaming_backend_cha.Wagering.Creation.{new_external_sound, IsOperation}
use junglegaming_backend_cha.Wagering.Kinds.{
  requires_optional_reference, is_loss, is_reversal, requires_reference, is_external,
}
use junglegaming_backend_cha.Money.Arith.{sub_outcome, add_outcome, exact_or_overflow, Compatible}
use junglegaming_backend_cha.Wallet.{code_insufficient_funds, credit, debit}
use junglegaming_backend_cha.Money.Text.RoundTrip.{parse-format_minor_units}
use junglegaming_backend_cha.AppErr.{ErrorKind, Result, Error, ok, err}
use junglegaming_backend_cha.Ledger.Validation.{validate-IsSound, IsSound}
use junglegaming_backend_cha.Ledger.{expected_after, validate as validate_entry}

wallet-IsValid : IsValid wallet
unfolding is_valid
wallet-IsValid = record { valid = refl; own = refl; nonneg = omega arith; word = omega arith }

bet-IsMovement : IsMovement wallet (brl 30) 7000
bet-IsMovement = record {
  positive = omega arith;
  word = omega arith;
  same = refl;
  later = omega arith;
}

debit_outcome_example : debit wallet (brl 30) 7000 ≡ (
    if leb_ℤ (pos 30) (pos 100)
    then ok (moved_to wallet 7000 (pos 100 -ℤ pos 30))
    else err (Error.new ErrorKind.rejected code_insufficient_funds))
debit_outcome_example = debit_outcome wallet (brl 30) 7000 wallet-IsValid bet-IsMovement

credit_outcome_example : credit wallet (brl 30) 7000 ≡ (
    if fits_int64 (pos 100 +ℤ pos 30)
    then ok (moved_to wallet 7000 (pos 100 +ℤ pos 30))
    else err (Error.new ErrorKind.invalid code_overflow))
credit_outcome_example = credit_outcome wallet (brl 30) 7000 wallet-IsValid bet-IsMovement

fresh_bet :
    (now : ℕ)
    → now ≢ 0
    → new_external 100 bet_params now ≡ ok (external_transaction 100 bet_params now)
unfolding new_external is_external requires_reference is_reversal requires_optional_reference
    validate_amount_for_kind is_valid is_negative is_loss is_positive
fresh_bet now h = ground arith

new_external_sound_example :
    IsOperation (external_transaction 100 bet_params 10)
    × IsPersistable (external_transaction 100 bet_params 10)
    × (validate (external_transaction 100 bet_params 10) ≡ ok tt)
new_external_sound_example =
    new_external_sound 100 bet_params 10 (external_transaction 100 bet_params 10) (omega arith)
      (fresh_bet 10 (omega arith))

abbrev waiting_bet : Transaction
waiting_bet = record (rejected_bet "ext-1") {
  status = pending;
  failure_code = "";
  result_balance = none;
}

terminal_absorbs_example :
    let refused : Result Transaction = err (Error.new ErrorKind.conflict code_terminal_state) in
    (mark_pending_reference (rejected_bet "ext-1") 11 ≡ refused)
    × (schedule_retry (rejected_bet "ext-1") 12 11 ≡ refused)
    × (mark_processed (rejected_bet "ext-1") (brl 5) 11 ≡ refused)
    × (mark_rejected (rejected_bet "ext-1") "CODE" none 11 ≡ refused)
    × (mark_failed (rejected_bet "ext-1") "CODE" 11 ≡ refused)
terminal_absorbs_example =
    terminal_absorbs (rejected_bet "ext-1") (brl 5) "CODE" none 12 11 (inr (inl refl))

entry-validate : validate_entry debit_entry ≡ ok tt
unfolding validate_entry is_valid is_positive is_negative expected_after sub assert_compatible
    wrap64 ◌-ℤ◌ equal
entry-validate = refl

validate-IsSound_example : IsSound debit_entry
validate-IsSound_example =
    validate-IsSound debit_entry (record { amount = omega arith; balance = omega arith })
      entry-validate

Compatible-sample : Compatible (brl 100) (brl 30)
unfolding is_valid
Compatible-sample = record { valid = refl; same = refl; left = omega arith; right = omega arith }

add_outcome_example : add (brl 100) (brl 30) ≡ exact_or_overflow (brl 100) (pos 100 +ℤ pos 30)
add_outcome_example = add_outcome (brl 100) (brl 30) Compatible-sample

sub_outcome_example : sub (brl 100) (brl 30) ≡ exact_or_overflow (brl 100) (pos 100 -ℤ pos 30)
sub_outcome_example = sub_outcome (brl 100) (brl 30) Compatible-sample

parse-format_minor_units_example :
    parse_minor_units (format_minor_units (negsuc 1233)) ≡ ok (negsuc 1233)
parse-format_minor_units_example = parse-format_minor_units (negsuc 1233) (omega arith)

parse_minor_units_exact_example :
    let s = format_minor_units (negsuc 1233) in
    let parts = cut_point (trim_minus s) in
    (major : ℕ) × (parse_uint parts.0 ≡ some major)
    × (hundredths parts.1 < 100)
    × (negsuc 1233 ≡ (
        if has_minus s
        then pos 0 -ℤ pos (major * 100 + hundredths parts.1)
        else pos (major * 100 + hundredths parts.1)))
parse_minor_units_exact_example =
    parse_minor_units_exact (format_minor_units (negsuc 1233)) (negsuc 1233)
      (parse-format_minor_units (negsuc 1233) (omega arith))
