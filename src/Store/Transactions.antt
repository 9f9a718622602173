-- ===== src/Store/Transactions.antt =====
-- internal/adapters/postgres/transaction_repo.go, with the constraints of `wager_transactions`.
pub mod RoundTrip
pub mod Names
use junglegaming_backend_cha.Types.{in_microseconds, Time}
use junglegaming_backend_cha.Base.{
  String, Option, none, some, if◌then◌else◌, ◌==◌, string_eq, nat_eq,
}
use mathlib.Core.Option.{map}
use junglegaming_backend_cha.Base.Int.{ℤ, int_eq}
use junglegaming_backend_cha.AppErr.{ErrorKind, Error, Result, ok, err, ◌>>=◌}
use junglegaming_backend_cha.Money.{Money, new_currency, from_minor_units}
use junglegaming_backend_cha.Wagering.{Transaction, rehydrate}
use junglegaming_backend_cha.Wagering.Kinds.{kind_text, parse_kind}
use junglegaming_backend_cha.Wagering.Statuses.{
  status_text, parse_status, origin_text, origin_of_text,
}
use junglegaming_backend_cha.Store.{TransactionRow}

abbrev pub err_duplicate_external_transaction : String
err_duplicate_external_transaction = "repository: duplicate provider/external transaction"

abbrev pub err_duplicate_idempotency_key : String
err_duplicate_idempotency_key = "repository: idempotency key already used"

abbrev pub err_duplicate_opening : String
err_duplicate_opening = "repository: wallet already has an opening credit"

abbrev pub err_duplicate_reversal : String
err_duplicate_reversal = "repository: reference already has a successful reversal"

-- `nullableString` and `derefString`
unfoldable pub nullable_string : String → Option String
nullable_string value = if value == "" then none else some value

unfoldable pub deref_string : Option String → String
deref_string none = ""
deref_string (some value) = value

-- `nullableTime`
unfoldable pub nullable_time : Option Time → Option Time
nullable_time none = none
nullable_time (some t) = if t == 0 then none else some t

balance_units : Option Money → Option ℤ
balance_units none = none
balance_units (some m) = some m.amount

-- The arguments of the INSERT: the result balance is stored without its currency.
unfoldable pub transaction_row : Transaction → TransactionRow
unfolding balance_units
transaction_row t = record {
  id = t.id;
  origin = origin_text t.origin;
  provider_id = nullable_string t.provider_id;
  external_transaction_id = nullable_string t.external_transaction_id;
  idempotency_key = nullable_string t.idempotency_key;
  payload_hash = nullable_string t.payload_hash;
  wallet_id = t.wallet_id;
  player_id = t.player_id;
  round_id = nullable_string t.round_id;
  game_id = nullable_string t.game_id;
  kind = kind_text t.kind;
  amount_minor = t.amount.amount;
  currency = t.amount.currency;
  reference_external_transaction_id = nullable_string t.reference_external_transaction_id;
  reference_transaction_id = t.reference_transaction_id;
  status = status_text t.status;
  failure_code = nullable_string t.failure_code;
  result_balance_minor = balance_units t.result_balance;
  attempts = t.attempts;
  next_attempt_at = map in_microseconds (nullable_time t.next_attempt_at);
  created_at = in_microseconds t.created_at;
  updated_at = in_microseconds t.updated_at;
}

-- The result balance is read in the currency of the transaction.
pub read_balance : Option ℤ → String → Result (Option Money)
read_balance none cur = ok none
read_balance (some units) cur = do balance ← from_minor_units units cur; ok (some balance)

-- `scanTransaction`, on the row that was found.
unfoldable pub scan_row : TransactionRow → Result Transaction
unfolding read_balance
scan_row row = do
  cur ← new_currency row.currency
  amount ← from_minor_units row.amount_minor cur
  result_balance ← read_balance row.result_balance_minor cur
  kind ← parse_kind row.kind
  status ← parse_status row.status
  rehydrate (record {
    id = row.id;
    origin = origin_of_text row.origin;
    provider_id = deref_string row.provider_id;
    external_transaction_id = deref_string row.external_transaction_id;
    idempotency_key = deref_string row.idempotency_key;
    payload_hash = deref_string row.payload_hash;
    wallet_id = row.wallet_id;
    player_id = row.player_id;
    round_id = deref_string row.round_id;
    game_id = deref_string row.game_id;
    kind = kind;
    amount = amount;
    reference_external_transaction_id = deref_string row.reference_external_transaction_id;
    reference_transaction_id = row.reference_transaction_id;
    status = status;
    failure_code = deref_string row.failure_code;
    result_balance = result_balance;
    attempts = row.attempts;
    next_attempt_at = row.next_attempt_at;
    created_at = row.created_at;
    updated_at = row.updated_at;
  })

unfoldable pub scan_transaction : Option TransactionRow → Result Transaction
scan_transaction none = err (Error.new ErrorKind.not_found "TRANSACTION_NOT_FOUND")
scan_transaction (some row) = scan_row row
