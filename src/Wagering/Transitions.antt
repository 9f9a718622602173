-- ===== src/Wagering/Transitions.antt =====
-- internal/domain/wagering/transaction.go: the transitions of the aggregate. A method that changes
-- the transaction returns the new one.
use junglegaming_backend_cha.Wagering.{
  Transaction, invalid, code_terminal_state, code_invalid_transition, validate_amount_for_kind,
}
use junglegaming_backend_cha.Base.{
  String, Bool, true, false, not, ◌||◌, ◌==◌, string_eq, nat_eq, if◌then◌else◌, Option, none, some,
}
use junglegaming_backend_cha.Base.Int.{pos, ◌+ℤ◌}
use junglegaming_backend_cha.AppErr.{ErrorKind, Error, Result, ok, ◌>>◌, raise_if}
use junglegaming_backend_cha.Types.{Uuid, nil_uuid, Time, is_zero_time}
use junglegaming_backend_cha.Money.{Money, is_valid}
use junglegaming_backend_cha.Wagering.Kinds.{is_opening}
use junglegaming_backend_cha.Wagering.Statuses.{
  Status, pending, pending_reference, processed, rejected, failed, is_terminal, is_external_origin,
}

-- `assertTransition`: the table of allowed transitions, where a missing entry is false.
unfoldable pub allowed : Status → Status → Bool
allowed pending pending_reference = true
allowed pending processed = true
allowed pending rejected = true
allowed pending failed = true
allowed pending_reference processed = true
allowed pending_reference rejected = true
allowed pending_reference failed = true
allowed _ _ = false

unfoldable pub assert_transition : Transaction → Status → Result (Unit {0})
assert_transition t to = do
  raise_if (is_terminal t.status) (Error.new ErrorKind.conflict code_terminal_state)
  raise_if (not (allowed t.status to)) (Error.new ErrorKind.conflict code_invalid_transition)

-- `MarkPendingReference`
unfoldable pub mark_pending_reference : Transaction → Time → Result Transaction
mark_pending_reference t now = do
  assert_transition t pending_reference
  ok (record t { status = pending_reference; updated_at = now })

unfoldable pub is_waiting : Status → Bool
is_waiting pending = true
is_waiting pending_reference = true
is_waiting _ = false

-- `ScheduleRetry`; `attempts` counts retries that are seconds apart, and does not reach 2 ^ 63.
unfoldable pub schedule_retry : Transaction → Time → Time → Result Transaction
unfolding is_waiting
schedule_retry t next now = do
  raise_if (not (is_waiting t.status)) (Error.new ErrorKind.conflict code_terminal_state)
  raise_if (is_zero_time next) invalid
  ok (record t { attempts = t.attempts +ℤ pos 1; next_attempt_at = some next; updated_at = now })

-- `MarkProcessed`
unfoldable pub mark_processed : Transaction → Money → Time → Result Transaction
mark_processed t balance now = do
  assert_transition t processed
  raise_if (not (is_valid balance)) invalid
  ok (record t {
    status = processed;
    result_balance = some balance;
    failure_code = "";
    next_attempt_at = none;
    updated_at = now;
  })

-- `MarkRejected`
unfoldable pub mark_rejected : Transaction → String → Option Money → Time → Result Transaction
mark_rejected t code balance now = do
  assert_transition t rejected
  raise_if (code == "") invalid
  ok (record t {
    status = rejected;
    failure_code = code;
    result_balance = balance;
    next_attempt_at = none;
    updated_at = now;
  })

-- `MarkFailed`
unfoldable pub mark_failed : Transaction → String → Time → Result Transaction
mark_failed t code now = do
  assert_transition t failed
  raise_if (code == "") invalid
  ok (record t { status = failed; failure_code = code; next_attempt_at = none; updated_at = now })

-- `SetReferenceResolution`
unfoldable pub set_reference_resolution : Transaction → Uuid → Time → Transaction
set_reference_resolution t reference now = record t {
  reference_transaction_id = some reference;
  updated_at = now;
}

-- `Validate`
unfoldable pub validate : Transaction → Result (Unit {0})
validate t = do
  raise_if (t.id == nil_uuid) invalid
  if is_external_origin t.origin
      then (do
        raise_if
            (t.provider_id == ""
              || t.external_transaction_id == ""
              || t.idempotency_key == ""
              || t.payload_hash == "")
            invalid
        raise_if (t.round_id == "" || t.game_id == "") invalid
        raise_if (is_opening t.kind) invalid)
      else raise_if (not (is_opening t.kind)) invalid
  validate_amount_for_kind t.kind t.amount
