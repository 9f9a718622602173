-- ===== src/Store/Entries.antt =====
-- internal/adapters/postgres/ledger_repo.go, with the constraints of `wallet_ledger_entries`.
use junglegaming_backend_cha.Types.{in_microseconds, Uuid}
use junglegaming_backend_cha.Base.{
  ℕ, String, Bool, not, ◌&&◌, ◌||◌, List, [], ◌∷◌, ◌++◌, Option, none, some, if◌then◌else◌, ◌==◌,
  string_eq, nat_eq, select, count_where,
}
use junglegaming_backend_cha.Base.Int.{ℤ, pos, ◌+ℤ◌, ◌-ℤ◌, ltb_ℤ, int_eq}
use junglegaming_backend_cha.AppErr.{ErrorKind, Error, Result, ok, err, ◌>>=◌}
use junglegaming_backend_cha.Money.{new_currency}
use junglegaming_backend_cha.Ledger.{Entry, direction_text}
use junglegaming_backend_cha.Store.{
  WalletRow, TransactionRow, EntryRow, Tables, Db, statement, query,
}
use junglegaming_backend_cha.Store.Wallets.{by_id, is_found}

-- The arguments of the INSERT.
unfoldable pub entry_row : Entry → EntryRow
entry_row e = record {
  id = e.id;
  wallet_id = e.wallet_id;
  transaction_id = e.transaction_id;
  direction = direction_text e.direction;
  amount_minor = e.amount.amount;
  currency = e.amount.currency;
  balance_before_minor = e.balance_before.amount;
  balance_after_minor = e.balance_after.amount;
  created_at = in_microseconds e.created_at;
}

-- The CHECK constraints of the table.
unfoldable pub entry_checks : EntryRow → Bool
entry_checks row =
    (row.direction == "DEBIT"
        && row.balance_after_minor == row.balance_before_minor -ℤ row.amount_minor
      || row.direction == "CREDIT"
        && row.balance_after_minor == row.balance_before_minor +ℤ row.amount_minor)
    && ltb_ℤ (pos 0) row.amount_minor
    && not (ltb_ℤ row.balance_before_minor (pos 0))
    && not (ltb_ℤ row.balance_after_minor (pos 0))

abbrev pub same_movement : Uuid → Uuid → EntryRow → Bool
same_movement wallet_id transaction_id row =
    row.wallet_id == wallet_id && row.transaction_id == transaction_id

-- The two foreign keys.
references_exist : EntryRow → Tables → Bool
references_exist row t =
    is_found (select (by_id row.wallet_id) t.wallets)
    && not (count_where (λ (x : TransactionRow). x.id == row.transaction_id) t.transactions == 0)

unfoldable pub insert_entry_row : EntryRow → Tables → Result (Unit {0}) × Tables
unfolding references_exist
insert_entry_row row t =
    if not (entry_checks row) || not (count_where (λ (x : EntryRow). x.id == row.id) t.entries == 0)
    then (err (Error.plain "postgres: insert ledger entry"), t)
    else if not (count_where (same_movement row.wallet_id row.transaction_id) t.entries == 0)
    then (err (Error.plain "repository: ledger entry already exists"), t)
    else if not (references_exist row t)
    then (err (Error.plain "postgres: insert ledger entry"), t)
    else (ok tt, record t { entries = t.entries ++ row ∷ [] })

-- `Insert`
unfoldable pub insert_entry : Entry → Db (Unit {0})
unfolding insert_entry_row
insert_entry e = statement "postgres: insert ledger entry" (insert_entry_row (entry_row e))

-- `ports.LedgerTotals`
pub record LedgerTotals : Type 0 where
  pub currency : String
  pub stored_balance_minor : ℤ
  pub credits_minor : ℤ
  pub debits_minor : ℤ
  pub entries : ℕ

-- `SUM(CASE WHEN l.direction = side THEN l.amount_minor ELSE 0 END)` over one wallet's entries.
unfoldable pub sum_side : String → Uuid → List EntryRow → ℤ
sum_side side id [] = pos 0
sum_side side id (row ∷ rows) =
    (if row.wallet_id == id && row.direction == side then row.amount_minor else pos 0)
    +ℤ sum_side side id rows

unfoldable pub totals_of : Uuid → List EntryRow → Option WalletRow → Result LedgerTotals
totals_of id rows none = err (Error.new ErrorKind.not_found "WALLET_NOT_FOUND")
totals_of id rows (some w) = do
  cur ← new_currency w.currency
  ok (record {
    currency = cur;
    stored_balance_minor = w.balance_minor;
    credits_minor = sum_side "CREDIT" id rows;
    debits_minor = sum_side "DEBIT" id rows;
    entries = count_where (λ (x : EntryRow). x.wallet_id == id) rows;
  })

-- `TotalsByWallet`: one statement over both tables.
unfoldable pub totals_by_wallet : Uuid → Db LedgerTotals
totals_by_wallet id =
    query "postgres: ledger totals" (λ t. totals_of id t.entries (select (by_id id) t.wallets))
