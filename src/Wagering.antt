-- ===== src/Wagering.antt =====
-- internal/domain/wagering/transaction.go: the WagerTransaction aggregate and its constructors.
-- `Kinds`, `Statuses` and `Failures` have the named strings, `Transitions` the state machine.
pub mod Kinds
pub mod Statuses
pub mod Failures
pub mod Transitions
pub mod Lifecycle
pub mod Creation
use junglegaming_backend_cha.Base.{
  ℕ, String, Bool, true, false, not, ◌&&◌, ◌||◌, ◌==◌, ◌!=◌, string_eq, nat_eq, if◌then◌else◌,
  Option, none, some,
}
use junglegaming_backend_cha.Base.Int.{ℤ, pos, ◌+ℤ◌, ltb_ℤ}
use junglegaming_backend_cha.AppErr.{ErrorKind, Error, Result, ok, err, ◌>>=◌, ◌>>◌, raise_if}
use junglegaming_backend_cha.Types.{Uuid, nil_uuid, Time, is_zero_time}
use junglegaming_backend_cha.Money.{Money, is_valid, is_positive, is_negative, is_zero}
use Kinds.{
  Kind, opening, is_external, requires_reference, is_reversal, requires_optional_reference, is_loss,
}
use Statuses.{
  Status, pending, processed, is_terminal, is_processed, is_unsuccessful, Origin, internal_origin,
  external_origin,
}
use Failures.{failure_invalid_amount}
use junglegaming_backend_cha.Money

abbrev pub code_invalid_transaction : String
code_invalid_transaction = "INVALID_TRANSACTION"

abbrev pub code_invalid_transition : String
code_invalid_transition = "INVALID_TRANSACTION_TRANSITION"

abbrev pub code_terminal_state : String
code_terminal_state = "TRANSACTION_TERMINAL"

-- `invalid`
abbrev pub invalid : Error
invalid = Error.new ErrorKind.invalid code_invalid_transaction

pub record ExternalParams : Type 0 where
  pub provider_id : String
  pub external_transaction_id : String
  pub idempotency_key : String
  pub payload_hash : String
  pub wallet_id : Uuid
  pub player_id : Uuid
  pub round_id : String
  pub game_id : String
  pub kind : Kind
  pub amount : Money
  pub reference_external_transaction_id : String

pub record OpeningParams : Type 0 where
  pub wallet_id : Uuid
  pub player_id : Uuid
  pub amount : Money

pub record Transaction : Type 0 where
  pub id : Uuid
  pub origin : Origin
  pub provider_id : String
  pub external_transaction_id : String
  pub idempotency_key : String
  pub payload_hash : String
  pub wallet_id : Uuid
  pub player_id : Uuid
  pub round_id : String
  pub game_id : String
  pub kind : Kind
  pub amount : Money
  pub reference_external_transaction_id : String
  pub reference_transaction_id : Option Uuid
  pub status : Status
  pub failure_code : String
  pub result_balance : Option Money
  pub attempts : ℤ
  pub next_attempt_at : Option Time
  pub created_at : Time
  pub updated_at : Time

-- `validateAmountForKind`
unfoldable pub validate_amount_for_kind : Kind → Money → Result (Unit {0})
validate_amount_for_kind kind amount = do
  raise_if (not (is_valid amount)) invalid
  raise_if (is_negative amount) (Error.new ErrorKind.invalid Money.code_negative_amount)
  if is_loss kind
      then raise_if (not (is_zero amount)) (Error.new ErrorKind.invalid failure_invalid_amount)
      else raise_if (not (is_positive amount)) (Error.new ErrorKind.invalid failure_invalid_amount)

-- The composite literal that `NewExternal` ends with.
unfoldable pub external_transaction : Uuid → ExternalParams → Time → Transaction
external_transaction id params now = record {
  id = id;
  origin = external_origin;
  provider_id = params.provider_id;
  external_transaction_id = params.external_transaction_id;
  idempotency_key = params.idempotency_key;
  payload_hash = params.payload_hash;
  wallet_id = params.wallet_id;
  player_id = params.player_id;
  round_id = params.round_id;
  game_id = params.game_id;
  kind = params.kind;
  amount = params.amount;
  reference_external_transaction_id = params.reference_external_transaction_id;
  reference_transaction_id = none;
  status = pending;
  failure_code = "";
  result_balance = none;
  attempts = pos 0;
  next_attempt_at = none;
  created_at = now;
  updated_at = now;
}

-- `NewExternal`, with the id that it draws.
unfoldable pub new_external : Uuid → ExternalParams → Time → Result Transaction
new_external id params now = do
  raise_if (params.provider_id == "") invalid
  raise_if (params.external_transaction_id == "") invalid
  raise_if (params.idempotency_key == "") invalid
  raise_if (params.payload_hash == "") invalid
  raise_if (params.wallet_id == nil_uuid || params.player_id == nil_uuid) invalid
  raise_if (params.round_id == "") invalid
  raise_if (params.game_id == "") invalid
  raise_if (not (is_external params.kind)) (Error.new ErrorKind.invalid Kinds.code_invalid_kind)
  validate_amount_for_kind params.kind params.amount
  raise_if (requires_reference params.kind && params.reference_external_transaction_id == "")
      invalid
  raise_if
      (not (is_reversal params.kind)
        && not (requires_optional_reference params.kind)
        && params.reference_external_transaction_id != "")
      invalid
  raise_if (is_zero_time now) invalid
  ok (external_transaction id params now)

-- `NewOpening`, with the id that it draws.
unfoldable pub new_opening : Uuid → OpeningParams → Time → Result Transaction
new_opening id params now = do
  raise_if (params.wallet_id == nil_uuid || params.player_id == nil_uuid) invalid
  raise_if (not (is_valid params.amount) || not (is_positive params.amount)) invalid
  raise_if (is_zero_time now) invalid
  ok (record {
    id = id;
    origin = internal_origin;
    provider_id = "";
    external_transaction_id = "";
    idempotency_key = "";
    payload_hash = "";
    wallet_id = params.wallet_id;
    player_id = params.player_id;
    round_id = "";
    game_id = "";
    kind = opening;
    amount = params.amount;
    reference_external_transaction_id = "";
    reference_transaction_id = none;
    status = processed;
    failure_code = "";
    result_balance = some params.amount;
    attempts = pos 0;
    next_attempt_at = none;
    created_at = now;
    updated_at = now;
  })

unfoldable pub is_nil_balance : Option Money → Bool
is_nil_balance none = true
is_nil_balance (some m) = false

-- `Rehydrate`: the parameters are the fields of the transaction, one by one, and `UTC` changes
-- nothing, so the result is what was given if it passes the checks.
unfoldable pub rehydrate : Transaction → Result Transaction
unfolding is_nil_balance
rehydrate params = do
  raise_if (params.id == nil_uuid) invalid
  raise_if (params.wallet_id == nil_uuid || params.player_id == nil_uuid) invalid
  raise_if (not (is_valid params.amount)) invalid
  raise_if (ltb_ℤ params.attempts (pos 0)) invalid
  raise_if
      (is_terminal params.status
        && is_nil_balance params.result_balance
        && is_processed params.status
        && not (is_loss params.kind))
      invalid
  raise_if (is_unsuccessful params.status && params.failure_code == "") invalid
  raise_if (is_zero_time params.created_at || is_zero_time params.updated_at) invalid
  ok params
