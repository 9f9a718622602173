-- ===== src/Store/TransactionQueries.antt =====
-- internal/adapters/postgres/transaction_repo.go: the queries, and `WakeDependents`.
use junglegaming_backend_cha.Types.{in_microseconds, Uuid, Time}
use junglegaming_backend_cha.Base.{
  ℕ, String, Bool, false, ◌&&◌, ◌||◌, List, [], ◌∷◌, Option, none, some, if◌then◌else◌, ◌==◌,
  string_eq, nat_eq, select, update_where, count_where, leb, ltb,
}
use junglegaming_backend_cha.AppErr.{Result, ok, err, code_of}
use junglegaming_backend_cha.Wagering.{Transaction}
use junglegaming_backend_cha.Wagering.Kinds.{Kind, kind_text}
use junglegaming_backend_cha.Store.{TransactionRow, Db, statement, query, column_eq, id_column_eq}
use junglegaming_backend_cha.Store.Transactions.{scan_transaction}
use junglegaming_backend_cha.Store.TransactionRepo.{row_by_id, is_external_row, is_open_row}

-- `GetByID`
unfoldable pub get_transaction : Uuid → Db Transaction
get_transaction id =
    query "postgres: scan wager transaction"
      (λ t. scan_transaction (select (row_by_id id) t.transactions))

abbrev pub by_external : String → String → TransactionRow → Bool
by_external provider external r =
    column_eq r.provider_id provider
    && column_eq r.external_transaction_id external
    && is_external_row r

-- `GetByProviderExternal`
unfoldable pub get_by_provider_external : String → String → Db Transaction
get_by_provider_external provider external =
    query "postgres: scan wager transaction"
      (λ t. scan_transaction (select (by_external provider external) t.transactions))

abbrev pub by_key : String → String → TransactionRow → Bool
by_key provider key r =
    column_eq r.provider_id provider && column_eq r.idempotency_key key && is_external_row r

-- `GetByProviderIdempotencyKey`
unfoldable pub get_by_provider_idempotency_key : String → String → Db Transaction
get_by_provider_idempotency_key provider key =
    query "postgres: scan wager transaction"
      (λ t. scan_transaction (select (by_key provider key) t.transactions))

-- TRANSACTION_NOT_FOUND is no error for `ClaimOne` and `FindReversal`.
optional : Result Transaction → Result (Option Transaction)
optional (ok t) = ok (some t)
optional (err e) = if code_of e == "TRANSACTION_NOT_FOUND" then ok none else err e

abbrev pub is_reversal_of : Uuid → Kind → TransactionRow → Bool
is_reversal_of reference kind r =
    id_column_eq r.reference_transaction_id reference
    && r.kind == kind_text kind
    && r.status == "PROCESSED"

-- `FindReversal`
unfoldable pub find_reversal : Uuid → Kind → Db (Option Transaction)
unfolding optional
find_reversal reference kind =
    query "postgres: scan wager transaction"
      (λ t. optional (scan_transaction (select (is_reversal_of reference kind) t.transactions)))

is_due : Time → Option Time → Bool
is_due now none = false
is_due now (some at) = leb at now

sooner_at : Option Time → Option Time → Bool → Bool
sooner_at (some x) (some y) tie = ltb x y || x == y && tie
sooner_at x y tie = false

-- `ORDER BY next_attempt_at ASC, created_at ASC`: whether `a` is to come before `b`.
sooner : TransactionRow → TransactionRow → Bool
unfolding sooner_at
sooner a b = sooner_at a.next_attempt_at b.next_attempt_at (ltb a.created_at b.created_at)

earlier : Time → TransactionRow → Option TransactionRow → Option TransactionRow
unfolding is_due sooner
earlier now r none = if is_open_row r && is_due now r.next_attempt_at then some r else none
earlier now r (some best) =
    if is_open_row r && is_due now r.next_attempt_at && sooner r best then some r else some best

earliest : Time → List TransactionRow → Option TransactionRow
unfolding earlier
earliest now [] = none
earliest now (r ∷ rows) = earlier now r (earliest now rows)

-- `ClaimOne`: the row lock keeps other workers away until the transaction ends.
unfoldable pub claim_one : Time → Db (Option Transaction)
unfolding optional earliest
claim_one now =
    query "postgres: scan wager transaction"
      (λ t. optional (scan_transaction (earliest now t.transactions)))

-- `CountPending`
unfoldable pub count_pending : Db ℕ
count_pending =
    query "postgres: count pending transactions" (λ t. ok (count_where is_open_row t.transactions))

abbrev pub waits_for : String → String → TransactionRow → Bool
waits_for provider external r =
    column_eq r.provider_id provider
    && column_eq r.reference_external_transaction_id external
    && r.status == "PENDING_REFERENCE"

abbrev pub set_due : Time → TransactionRow → TransactionRow
set_due now r = record r {
  next_attempt_at = some (in_microseconds now);
  updated_at = in_microseconds now;
}

-- `WakeDependents`, with the number of rows.
unfoldable pub wake_dependents : String → String → Time → Db ℕ
wake_dependents provider external now = statement "postgres: wake dependents" (λ t. (
  ok (count_where (waits_for provider external) t.transactions),
  record t {
    transactions = update_where (waits_for provider external) (set_due now) t.transactions;
  },
))
