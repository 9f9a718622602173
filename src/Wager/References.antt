-- ===== src/Wager/References.antt =====
-- internal/app/wager/service.go: `resolveReference`.
use junglegaming_backend_cha.Base.{
  Bool, not, ◌&&◌, ◌||◌, Option, none, some, if◌then◌else◌, ◌!=◌, string_eq, nat_eq,
}
use junglegaming_backend_cha.AppErr.{ErrorKind, Error, Result, ok, err, raise_if, is_kind}
use junglegaming_backend_cha.Money.{equal}
use junglegaming_backend_cha.Wagering.{Transaction}
use junglegaming_backend_cha.Wagering.Kinds.{
  Kind, bet, win, refund, rollback, same_kind, is_reversal,
}
use junglegaming_backend_cha.Wagering.Statuses.{Status, pending, pending_reference, processed}
use junglegaming_backend_cha.Wagering.Failures.{
  failure_reference_not_processed, failure_reference_mismatch, failure_reference_amount_mismatch,
  failure_reversal_conflict,
}
use junglegaming_backend_cha.Store.{Db, lift, pure, ◌>>=◌, ◌>>◌}
use junglegaming_backend_cha.Store.TransactionQueries.{get_by_provider_external, find_reversal}
use junglegaming_backend_cha.Wager.{reference_pending}

-- `mismatchError`
abbrev pub mismatch_error : Error
mismatch_error = Error.new ErrorKind.rejected failure_reference_mismatch

-- A reference that is not there yet is pending; any other error goes up.
unfoldable pub missing_is_pending : {A : Type 0} → Db A → Db A
missing_is_pending m env w =
    let (r, w') = m env w in
    elim r [
      | ok a ↦ (ok a, w')
      | err e ↦ (if is_kind e ErrorKind.not_found then err reference_pending else err e, w')
    ]

-- The `switch` on the status of the reference.
unfoldable pub check_status : Status → Result (Unit {0})
check_status pending = err reference_pending
check_status pending_reference = err reference_pending
check_status processed = ok tt
check_status _ = err (Error.new ErrorKind.rejected failure_reference_not_processed)

-- The `switch` on the kind: what it may reference.
unfoldable pub check_kind : Kind → Kind → Result (Unit {0})
check_kind refund reference = raise_if (not (same_kind reference bet)) mismatch_error
check_kind rollback reference =
    raise_if
      (not (same_kind reference bet)
        && not (same_kind reference win)
        && not (same_kind reference refund))
      mismatch_error
check_kind win reference = raise_if (not (same_kind reference bet)) mismatch_error
check_kind _ reference = ok tt

unfoldable pub check_agreement : Transaction → Transaction → Result (Unit {0})
check_agreement t ref =
    raise_if
      (ref.player_id != t.player_id
        || ref.wallet_id != t.wallet_id
        || ref.amount.currency != t.amount.currency
        || ref.round_id != t.round_id)
      mismatch_error

amounts_agree : Result Bool → Result (Unit {0})
amounts_agree (ok same) =
    raise_if (not same) (Error.new ErrorKind.rejected failure_reference_amount_mismatch)
amounts_agree (err e) = err e

-- A reversal has the amount that it reverses.
unfoldable pub check_amount : Transaction → Transaction → Result (Unit {0})
unfolding amounts_agree
check_amount t ref = if is_reversal t.kind then amounts_agree (equal ref.amount t.amount) else ok tt

no_reversal : Option Transaction → Result (Unit {0})
no_reversal none = ok tt
no_reversal (some x) = err (Error.new ErrorKind.rejected failure_reversal_conflict)

-- The other reversal of a BET that excludes this one.
unfoldable pub cross_kind : Kind → Kind
cross_kind rollback = refund
cross_kind _ = rollback

-- No second reversal of a reference, of the same kind or, for a BET, of the other kind.
unfoldable pub check_reversals : Transaction → Transaction → Db (Unit {0})
unfolding no_reversal
check_reversals t ref = do
  existing ← find_reversal ref.id t.kind
  lift (no_reversal existing)
  if same_kind ref.kind bet
      then (do cross ← find_reversal ref.id (cross_kind t.kind); lift (no_reversal cross))
      else pure tt

-- `resolveReference`
unfoldable pub resolve_reference : Transaction → Db Transaction
unfolding missing_is_pending check_agreement
resolve_reference t = do
  ref ←
      missing_is_pending
        (get_by_provider_external t.provider_id t.reference_external_transaction_id)
  lift (check_status ref.status)
  lift (check_kind t.kind ref.kind)
  lift (check_agreement t ref)
  lift (check_amount t ref)
  check_reversals t ref
  pure ref
