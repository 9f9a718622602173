-- ===== src/Events.antt =====
-- internal/domain/events/events.go: the integration events. An envelope is kept as data; its JSON
-- text is the work of encoding/json.
use junglegaming_backend_cha.Base.{ℕ, String, not, ◌||◌, ◌==◌, string_eq}
use junglegaming_backend_cha.Base.Int.{ℤ, pos, ltb_ℤ}
use junglegaming_backend_cha.AppErr.{ErrorKind, Error, Result, ◌>>◌, raise_if}
use junglegaming_backend_cha.Types.{Time}
use junglegaming_backend_cha.Money.{Money, is_valid}
use junglegaming_backend_cha.Ledger.{Direction, is_known}

abbrev pub code_invalid_event : String
code_invalid_event = "INVALID_EVENT"

abbrev pub schema_version : ℕ
schema_version = 1

pub record ProcessedData : Type 0 where
  pub transaction_id : String
  pub provider_id : String
  pub external_transaction_id : String
  pub wallet_id : String
  pub player_id : String
  pub round_id : String
  pub game_id : String
  pub kind : String
  pub status : String
  pub amount : Money
  pub balance : Money

pub record RejectedData : Type 0 where
  pub transaction_id : String
  pub provider_id : String
  pub external_transaction_id : String
  pub wallet_id : String
  pub player_id : String
  pub kind : String
  pub status : String
  pub failure_code : String
  pub amount : Money

pub record BalanceChangedData : Type 0 where
  pub wallet_id : String
  pub transaction_id : String
  pub direction : Direction
  pub amount : Money
  pub balance_before : Money
  pub balance_after : Money
  pub wallet_version : ℤ

pub record PendingReferenceData : Type 0 where
  pub transaction_id : String
  pub provider_id : String
  pub external_transaction_id : String
  pub reference_external_transaction_id : String
  pub attempt : ℤ
  pub next_attempt_at : Time

-- The four event types with their data.
pub data EventData : Type 0 where
  transaction_processed : ProcessedData → EventData
  transaction_rejected : RejectedData → EventData
  balance_changed : BalanceChangedData → EventData
  pending_reference_event : PendingReferenceData → EventData

unfoldable pub event_type : EventData → String
event_type (transaction_processed d) = "WagerTransactionProcessed"
event_type (transaction_rejected d) = "WagerTransactionRejected"
event_type (balance_changed d) = "WalletBalanceChanged"
event_type (pending_reference_event d) = "WagerTransactionPendingReference"

abbrev pub invalid_event : Error
invalid_event = Error.new ErrorKind.invalid code_invalid_event

-- The checks of `NewWagerTransactionProcessed`, `NewWagerTransactionRejected`,
-- `NewWalletBalanceChanged` and `NewWagerTransactionPendingReference`.
unfoldable pub check_event : EventData → Result (Unit {0})
check_event (transaction_processed d) = do
  raise_if (d.transaction_id == "" || d.wallet_id == "" || d.player_id == "" || d.kind == "")
      invalid_event
  raise_if (not (is_valid d.amount) || not (is_valid d.balance)) invalid_event
check_event (transaction_rejected d) = do
  raise_if (d.transaction_id == "" || d.wallet_id == "" || d.failure_code == "") invalid_event
  raise_if (not (is_valid d.amount)) invalid_event
check_event (balance_changed d) = do
  raise_if (d.wallet_id == "" || d.transaction_id == "") invalid_event
  raise_if (not (is_known d.direction)) invalid_event
  raise_if
      (not (is_valid d.amount) || not (is_valid d.balance_before) || not (is_valid d.balance_after))
      invalid_event
  raise_if (ltb_ℤ d.wallet_version (pos 1)) invalid_event
check_event (pending_reference_event d) =
    raise_if (d.transaction_id == "" || d.reference_external_transaction_id == "") invalid_event

-- `Envelope`
pub record Envelope : Type 0 where
  pub event_id : String
  pub event_type_name : String
  pub aggregate_id : String
  pub correlation_id : String
  pub causation_id : String
  pub occurred_at : Time
  pub version : ℕ
  pub content : EventData
