-- ===== src/Store/TransactionRepo.antt =====
-- internal/adapters/postgres/transaction_repo.go: the statements, with the CHECK constraints, the
-- unique indexes and the foreign keys of `wager_transactions`.
use junglegaming_backend_cha.Base.{◌^◌, ◌-◌}
use junglegaming_backend_cha.Base.{
  String, Bool, true, false, not, ◌&&◌, ◌||◌, List, [], ◌∷◌, ◌++◌, Option, none, some,
  if◌then◌else◌, ◌==◌, ◌!=◌, string_eq, nat_eq, select, update_where, count_where,
}
use junglegaming_backend_cha.Base.Int.{ℤ, pos, ltb_ℤ, int_eq}
use junglegaming_backend_cha.AppErr.{ErrorKind, Error, Result, ok, err}
use junglegaming_backend_cha.Types.{Uuid}
use junglegaming_backend_cha.Money.{currency_pattern, codes}
use junglegaming_backend_cha.Wagering.{Transaction, code_terminal_state}
use junglegaming_backend_cha.Store.{TransactionRow, Tables, Db, statement, column_eq, id_column_eq}
use junglegaming_backend_cha.Store.Wallets.{by_id, is_found}
use junglegaming_backend_cha.Store.Transactions.{
  transaction_row, err_duplicate_external_transaction, err_duplicate_idempotency_key,
  err_duplicate_opening, err_duplicate_reversal,
}

abbrev pub is_null : Option String → Bool
is_null none = true
is_null (some s) = false

in_list : String → List String → Bool
in_list s [] = false
in_list s (x ∷ xs) = s == x || in_list s xs

both_or_neither : Bool → Bool → Bool
both_or_neither a b = a && b || not a && not b

-- `wager_tx_origin_fields`
origin_fields : TransactionRow → Bool
origin_fields r =
    r.origin == "INTERNAL"
      && is_null r.provider_id
      && is_null r.external_transaction_id
      && is_null r.idempotency_key
      && is_null r.payload_hash
      && is_null r.round_id
      && is_null r.game_id
      && is_null r.reference_external_transaction_id
    || r.origin == "EXTERNAL"
      && r.kind != "OPENING"
      && not (is_null r.provider_id)
      && not (is_null r.external_transaction_id)
      && not (is_null r.idempotency_key)
      && not (is_null r.payload_hash)
      && not (is_null r.round_id)
      && not (is_null r.game_id)

no_debt : Option ℤ → Bool
no_debt none = true
no_debt (some units) = not (ltb_ℤ units (pos 0))

-- The CHECK constraints of the table, and the range of the INTEGER column, which fails alike.
unfoldable pub transaction_checks : TransactionRow → Bool
unfolding in_list both_or_neither origin_fields no_debt
transaction_checks r =
    in_list r.origin ("INTERNAL" ∷ "EXTERNAL" ∷ [])
    && in_list r.kind ("OPENING" ∷ "BET" ∷ "WIN" ∷ "LOSS" ∷ "REFUND" ∷ "ROLLBACK" ∷ [])
    && in_list r.status ("PENDING" ∷ "PENDING_REFERENCE" ∷ "PROCESSED" ∷ "REJECTED" ∷ "FAILED" ∷ [])
    && currency_pattern (codes r.currency)
    && not (ltb_ℤ r.attempts (pos 0))
    && not (ltb_ℤ (pos (2 ^ 31 - 1)) r.attempts)
    && both_or_neither (r.kind == "LOSS") (r.amount_minor == pos 0)
    && (r.origin != "INTERNAL" || r.kind == "OPENING" && r.status == "PROCESSED")
    && origin_fields r
    && (not (in_list r.kind ("REFUND" ∷ "ROLLBACK" ∷ []))
        || not (is_null r.reference_external_transaction_id))
    && no_debt r.result_balance_minor
    && both_or_neither (in_list r.status ("REJECTED" ∷ "FAILED" ∷ []))
        (not (is_null r.failure_code))

same_column : Option String → Option String → Bool
same_column none b = false
same_column (some a) b = column_eq b a

same_id_column : Option Uuid → Option Uuid → Bool
same_id_column none b = false
same_id_column (some a) b = id_column_eq b a

abbrev pub is_external_row : TransactionRow → Bool
is_external_row r = r.origin == "EXTERNAL"

-- The rows that a new row collides with, for each unique index.
abbrev with_external : TransactionRow → TransactionRow → Bool
with_external r x =
    is_external_row r
    && is_external_row x
    && same_column r.provider_id x.provider_id
    && same_column r.external_transaction_id x.external_transaction_id

abbrev with_key : TransactionRow → TransactionRow → Bool
with_key r x =
    is_external_row r
    && is_external_row x
    && same_column r.provider_id x.provider_id
    && same_column r.idempotency_key x.idempotency_key

abbrev is_done_reversal : TransactionRow → Bool
is_done_reversal r = r.status == "PROCESSED" && (r.kind == "REFUND" || r.kind == "ROLLBACK")

abbrev with_reversal : TransactionRow → TransactionRow → Bool
with_reversal r x =
    is_done_reversal r
    && is_done_reversal x
    && r.kind == x.kind
    && same_id_column r.reference_transaction_id x.reference_transaction_id

abbrev with_opening : TransactionRow → TransactionRow → Bool
with_opening r x = r.kind == "OPENING" && x.kind == "OPENING" && r.wallet_id == x.wallet_id

exists_row : (TransactionRow → Bool) → Tables → Bool
exists_row p t = not (count_where p t.transactions == 0)

abbrev pub row_by_id : Uuid → TransactionRow → Bool
row_by_id id r = r.id == id

reference_exists : Option Uuid → Tables → Bool
unfolding exists_row
reference_exists none t = true
reference_exists (some id) t = exists_row (row_by_id id) t

-- The foreign keys of a row.
keys_exist : TransactionRow → Tables → Bool
unfolding reference_exists
keys_exist r t =
    is_found (select (by_id r.wallet_id) t.wallets) && reference_exists r.reference_transaction_id t

-- CHECK constraints come first, then the unique indexes in the order of their creation, and the
-- foreign keys at the end of the statement.
unfoldable pub insert_transaction_row : TransactionRow → Tables → Result (Unit {0}) × Tables
unfolding exists_row same_column same_id_column keys_exist
insert_transaction_row r t =
    if not (transaction_checks r) || exists_row (row_by_id r.id) t
    then (err (Error.plain "postgres: insert wager transaction"), t)
    else if exists_row (with_external r) t
    then (err (Error.plain err_duplicate_external_transaction), t)
    else if exists_row (with_key r) t
    then (err (Error.plain err_duplicate_idempotency_key), t)
    else if exists_row (with_reversal r) t
    then (err (Error.plain err_duplicate_reversal), t)
    else if exists_row (with_opening r) t
    then (err (Error.plain err_duplicate_opening), t)
    else if not (keys_exist r t)
    then (err (Error.plain "postgres: insert wager transaction"), t)
    else (ok tt, record t { transactions = t.transactions ++ r ∷ [] })

-- `Insert`
unfoldable pub insert_transaction : Transaction → Db (Unit {0})
unfolding insert_transaction_row
insert_transaction t =
    statement "postgres: insert wager transaction" (insert_transaction_row (transaction_row t))

abbrev pub is_open_row : TransactionRow → Bool
is_open_row r = r.status == "PENDING" || r.status == "PENDING_REFERENCE"

-- `WHERE id = $1 AND status IN ('PENDING', 'PENDING_REFERENCE')`
abbrev pub updatable : Uuid → TransactionRow → Bool
updatable id r = r.id == id && is_open_row r

-- The columns that the UPDATE sets.
abbrev pub set_state : TransactionRow → TransactionRow → TransactionRow
set_state new r = record r {
  reference_transaction_id = new.reference_transaction_id;
  status = new.status;
  failure_code = new.failure_code;
  result_balance_minor = new.result_balance_minor;
  attempts = new.attempts;
  next_attempt_at = new.next_attempt_at;
  updated_at = new.updated_at;
}

abbrev other_reversal : TransactionRow → TransactionRow → Bool
other_reversal r x = x.id != r.id && with_reversal r x

unfoldable pub update_found :
    TransactionRow → Option TransactionRow → Tables → Result (Unit {0}) × Tables
unfolding exists_row same_column same_id_column reference_exists
update_found new none t = (err (Error.new ErrorKind.conflict code_terminal_state), t)
update_found new (some old) t =
    let r = set_state new old in
    if not (transaction_checks r)
    then (err (Error.plain "postgres: update wager transaction"), t)
    else if exists_row (other_reversal r) t
    then (err (Error.plain err_duplicate_reversal), t)
    else if not (reference_exists r.reference_transaction_id t)
    then (err (Error.plain "postgres: update wager transaction"), t)
    else (
      ok tt,
      record t { transactions = update_where (updatable new.id) (set_state new) t.transactions },
    )

-- `Update`: the primary key selects one row at most.
unfoldable pub update_transaction : Transaction → Db (Unit {0})
unfolding update_found
update_transaction t =
    let new = transaction_row t in
    statement "postgres: update wager transaction"
      (λ tables. update_found new (select (updatable new.id) tables.transactions) tables)
