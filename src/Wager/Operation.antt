-- ===== src/Wager/Operation.antt =====
-- internal/app/wager/service.go: the rules of one operation, `applyOperation` and what it calls.
use junglegaming_backend_cha.Base.{
  String, false, Option, none, some, if◌then◌else◌, ◌==◌, string_eq, nat_eq,
}
use junglegaming_backend_cha.Base.Int.{pos, ◌+ℤ◌, leb_ℤ}
use junglegaming_backend_cha.AppErr.{Error, Result, ok, code_of, is_sentinel}
use junglegaming_backend_cha.Types.{Time, add_duration}
use junglegaming_backend_cha.Money.{Money}
use junglegaming_backend_cha.Wallet.{Wallet}
use junglegaming_backend_cha.Wagering.{Transaction}
use junglegaming_backend_cha.Wagering.Kinds.{kind_text}
use junglegaming_backend_cha.Wagering.Statuses.{
  Status, pending, pending_reference, processed, rejected, status_text, is_external_origin,
}
use junglegaming_backend_cha.Wagering.Failures.{failure_reference_not_found}
use junglegaming_backend_cha.Wagering.Transitions.{
  mark_pending_reference, schedule_retry, mark_processed, mark_rejected,
}
use junglegaming_backend_cha.Events.{
  EventData, transaction_processed, transaction_rejected, pending_reference_event,
}
use junglegaming_backend_cha.Store.{Db, lift, pure, fail, ◌>>=◌, ◌>>◌}
use junglegaming_backend_cha.Store.TransactionRepo.{update_transaction}
use junglegaming_backend_cha.Store.TransactionQueries.{wake_dependents}
use junglegaming_backend_cha.Wager.{Config, Outcome, reference_pending_text}
use junglegaming_backend_cha.Wager.Backoff.{reference_backoff}
use junglegaming_backend_cha.Wager.Events.{text_of, emit}

-- The data of the event of a processed transaction.
unfoldable pub processed_data : Transaction → Money → Db EventData
processed_data t balance = do
  transaction_id ← text_of t.id
  wallet_id ← text_of t.wallet_id
  player_id ← text_of t.player_id
  pure (
      transaction_processed (record {
        transaction_id = transaction_id;
        provider_id = t.provider_id;
        external_transaction_id = t.external_transaction_id;
        wallet_id = wallet_id;
        player_id = player_id;
        round_id = t.round_id;
        game_id = t.game_id;
        kind = kind_text t.kind;
        status = status_text t.status;
        amount = t.amount;
        balance = balance;
      }))

unfoldable pub wake : Transaction → Time → Db (Unit {0})
wake t now =
    if is_external_origin t.origin
    then (do wake_dependents t.provider_id t.external_transaction_id now; pure tt)
    else pure tt

-- `markProcessed`
unfoldable pub finish_processed : Transaction → Money → Time → String → Db Outcome
unfolding processed_data wake
finish_processed t0 balance now correlation_id = do
  t ← lift (mark_processed t0 balance now)
  update_transaction t
  content ← processed_data t balance
  emit t.id correlation_id t.id now content
  wake t now
  pure (record {
    transaction = t;
    status = processed;
    balance = some balance;
    failure_code = "";
    idempotent_replay = false;
  })

balance_of : Option Wallet → Option Money
balance_of none = none
balance_of (some w) = some w.balance

unfoldable pub rejected_data : Transaction → String → Db EventData
rejected_data t code = do
  transaction_id ← text_of t.id
  wallet_id ← text_of t.wallet_id
  player_id ← text_of t.player_id
  pure (
      transaction_rejected (record {
        transaction_id = transaction_id;
        provider_id = t.provider_id;
        external_transaction_id = t.external_transaction_id;
        wallet_id = wallet_id;
        player_id = player_id;
        kind = kind_text t.kind;
        status = status_text t.status;
        failure_code = code;
        amount = t.amount;
      }))

-- `reject`; a nil wallet is `none`.
unfoldable pub reject : Transaction → Option Wallet → String → Time → String → Db Outcome
unfolding balance_of rejected_data
reject t0 w code now correlation_id = do
  t ← lift (mark_rejected t0 code (balance_of w) now)
  update_transaction t
  content ← rejected_data t code
  emit t.id correlation_id t.id now content
  pure (record {
    transaction = t;
    status = rejected;
    balance = balance_of w;
    failure_code = code;
    idempotent_replay = false;
  })

unfoldable pub pending_data : Transaction → Time → Db EventData
pending_data t next = do
  transaction_id ← text_of t.id
  pure (
      pending_reference_event (record {
        transaction_id = transaction_id;
        provider_id = t.provider_id;
        external_transaction_id = t.external_transaction_id;
        reference_external_transaction_id = t.reference_external_transaction_id;
        attempt = t.attempts;
        next_attempt_at = next;
      }))

-- `if t.Status() == StatusPending { t.MarkPendingReference(now) }`
park : Transaction → Status → Time → Result Transaction
park t pending now = mark_pending_reference t now
park t _ now = ok t

-- `scheduleReferenceRetry`
unfoldable pub schedule_reference_retry : Config → Transaction → Time → String → Db Outcome
unfolding park pending_data
schedule_reference_retry config t0 now correlation_id =
    if leb_ℤ config.reference_max_attempts (t0.attempts +ℤ pos 1)
    then reject t0 none failure_reference_not_found now correlation_id
    else (do
      parked ← lift (park t0 t0.status now)
      let next = add_duration now (
          reference_backoff config.reference_base_backoff config.reference_max_backoff
            (parked.attempts +ℤ pos 1))
      t ← lift (schedule_retry parked next now)
      update_transaction t
      content ← pending_data t next
      emit t.id correlation_id t.id now content
      pure (record {
        transaction = t;
        status = pending_reference;
        balance = none;
        failure_code = "";
        idempotent_replay = false;
      }))

-- `handleReferenceError`
unfoldable pub handle_reference_error :
    Config → Transaction → Wallet → Error → Time → String → Db Outcome
handle_reference_error config t w e now correlation_id =
    if is_sentinel e reference_pending_text
    then schedule_reference_retry config t now correlation_id
    else if code_of e == ""
    then fail e
    else reject t (some w) (code_of e) now correlation_id
