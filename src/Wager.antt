-- ===== src/Wager.antt =====
-- internal/app/wager: commands, results and the pure parts of the service. `Operation` has the
-- rules of one operation and `Service` the entry points.
pub mod Events
pub mod References
pub mod Operation
pub mod Movement
pub mod Service
pub mod Backoff
pub mod Commands
pub mod Quiet
pub mod Consistency
pub mod Keeps
pub mod Calm
pub mod Frame
use junglegaming_backend_cha.Base.{
  ℕ, suc, ◌+◌, String, Bool, true, false, not, ◌&&◌, ◌||◌, List, [], ◌∷◌, Option, none, some,
  if◌then◌else◌, ◌==◌, string_eq, nat_eq,
}
use junglegaming_backend_cha.Base.Int.{ℤ}
use junglegaming_backend_cha.AppErr.{
  ErrorKind, Error, Result, ok, err, ◌>>=◌, ◌>>◌, raise_if, code_of, is_sentinel,
}
use junglegaming_backend_cha.Types.{Uuid, nil_uuid, Duration}
use junglegaming_backend_cha.Money.{Money, is_valid, is_zero, is_positive, is_negative}
use junglegaming_backend_cha.Wagering.{Transaction, code_invalid_transaction}
use junglegaming_backend_cha.Wagering.Kinds.{
  Kind, is_external, requires_reference, is_loss, code_invalid_kind,
}
use junglegaming_backend_cha.Wagering.Statuses.{Status}
use junglegaming_backend_cha.Wagering.Failures.{failure_invalid_amount}
use junglegaming_backend_cha.Store.Transactions.{
  err_duplicate_external_transaction, err_duplicate_idempotency_key, err_duplicate_reversal,
}
use junglegaming_backend_cha.Money
use junglegaming_backend_cha.Wallet

-- `Config`; `NewService` has replaced counts below 1.
pub record Config : Type 0 where
  pub max_wallet_retries : ℕ
  pub reference_max_attempts : ℤ
  pub reference_base_backoff : Duration
  pub reference_max_backoff : Duration

pub record ProcessCommand : Type 0 where
  pub provider_id : String
  pub external_transaction_id : String
  pub idempotency_key : String
  pub player_id : Uuid
  pub wallet_id : Uuid
  pub round_id : String
  pub game_id : String
  pub kind : Kind
  pub amount : Money
  pub reference_external_transaction_id : String
  pub correlation_id : String

-- `Result`; `balance` is `Balance` where `HasBalance` is set.
pub record Outcome : Type 0 where
  pub transaction : Transaction
  pub status : Status
  pub balance : Option Money
  pub failure_code : String
  pub idempotent_replay : Bool

abbrev pub idempotency_conflict : Error
idempotency_conflict = Error.new ErrorKind.conflict "IDEMPOTENCY_CONFLICT"

abbrev pub reference_pending_text : String
reference_pending_text = "reference is not available yet"

-- `errReferencePending`
abbrev pub reference_pending : Error
reference_pending = Error.plain reference_pending_text

abbrev pub invalid_command : Error
invalid_command = Error.new ErrorKind.invalid code_invalid_transaction

-- `Validate`
unfoldable pub validate_command : ProcessCommand → Result (Unit {0})
validate_command cmd = do
  raise_if (cmd.provider_id == "") invalid_command
  raise_if (cmd.external_transaction_id == "") invalid_command
  raise_if (cmd.idempotency_key == "") invalid_command
  raise_if (cmd.player_id == nil_uuid || cmd.wallet_id == nil_uuid) invalid_command
  raise_if (cmd.round_id == "" || cmd.game_id == "") invalid_command
  raise_if (not (is_valid cmd.amount)) (Error.new ErrorKind.invalid Money.code_invalid_amount)
  raise_if (not (is_external cmd.kind)) (Error.new ErrorKind.invalid code_invalid_kind)
  raise_if (requires_reference cmd.kind && cmd.reference_external_transaction_id == "")
      invalid_command
  raise_if (is_negative cmd.amount) (Error.new ErrorKind.invalid Money.code_negative_amount)
  if is_loss cmd.kind
      then raise_if (not (is_zero cmd.amount)) (Error.new ErrorKind.invalid failure_invalid_amount)
      else raise_if (not (is_positive cmd.amount))
          (Error.new ErrorKind.invalid failure_invalid_amount)

-- `isRetryable`
unfoldable pub is_retryable : Error → Bool
is_retryable e =
    code_of e == Wallet.code_version_conflict
    || is_sentinel e err_duplicate_external_transaction
    || is_sentinel e err_duplicate_idempotency_key
    || is_sentinel e err_duplicate_reversal
