-- ===== src/Store/Wallets.antt =====
-- internal/adapters/postgres/wallet_repo.go, with the constraints of the table `wallets`.
use junglegaming_backend_cha.Types.{in_microseconds, Uuid, Time, before}
use junglegaming_backend_cha.Base.{
  ◌^◌, ◌-◌, String, Bool, true, false, not, ◌&&◌, ◌||◌, [], ◌∷◌, ◌++◌, Option, none, some,
  if◌then◌else◌, ◌==◌, string_eq, nat_eq, select, update_where, count_where,
}
use junglegaming_backend_cha.Base.Int.{ℤ, pos, ◌+ℤ◌, ltb_ℤ, int_eq}
use junglegaming_backend_cha.AppErr.{ErrorKind, Error, Result, ok, err, ◌>>=◌}
use junglegaming_backend_cha.Money.{new_currency, currency_pattern, codes}
use junglegaming_backend_cha.Wallet.{
  Wallet, rehydrate, code_version_conflict, code_insufficient_funds,
}
use junglegaming_backend_cha.Store.{WalletRow, Tables, Db, statement, query}

-- The arguments of the INSERT.
unfoldable pub wallet_row : Wallet → WalletRow
wallet_row w = record {
  id = w.id;
  player_id = w.player_id;
  currency = w.currency;
  balance_minor = w.balance.amount;
  version = w.version;
  created_at = in_microseconds w.created_at;
  updated_at = in_microseconds w.updated_at;
}

-- `scanWallet`, on the row that was found.
unfoldable pub scan_wallet : Option WalletRow → Result Wallet
scan_wallet none = err (Error.new ErrorKind.not_found "WALLET_NOT_FOUND")
scan_wallet (some row) = do
  cur ← new_currency row.currency
  rehydrate row.id row.player_id cur row.balance_minor row.version row.created_at row.updated_at

abbrev pub by_id : Uuid → WalletRow → Bool
by_id id row = row.id == id

abbrev pub by_owner : Uuid → String → WalletRow → Bool
by_owner player_id currency row = row.player_id == player_id && row.currency == currency

-- The CHECK constraints of the table.
unfoldable pub wallet_checks : WalletRow → Bool
wallet_checks row =
    currency_pattern (codes row.currency)
    && not (ltb_ℤ row.balance_minor (pos 0))
    && not (ltb_ℤ row.version (pos 1))
    && not (before row.updated_at row.created_at)

unfoldable pub is_found : Option WalletRow → Bool
is_found none = false
is_found (some row) = true

unfoldable pub insert_wallet_row : WalletRow → Tables → Result (Unit {0}) × Tables
unfolding is_found
insert_wallet_row row t =
    if not (wallet_checks row) || is_found (select (by_id row.id) t.wallets)
    then (err (Error.plain "postgres: insert wallet"), t)
    else if is_found (select (by_owner row.player_id row.currency) t.wallets)
    then (
      err (Error.wrap ErrorKind.conflict "WALLET_ALREADY_EXISTS" (Error.plain "unique_violation")),
      t,
    )
    else (ok tt, record t { wallets = t.wallets ++ row ∷ [] })

-- `Create`
unfoldable pub create_wallet : Wallet → Db (Unit {0})
unfolding insert_wallet_row
create_wallet w = statement "postgres: insert wallet" (insert_wallet_row (wallet_row w))

-- `GetByID`
unfoldable pub get_wallet : Uuid → Db Wallet
get_wallet id = query "postgres: scan wallet" (λ t. scan_wallet (select (by_id id) t.wallets))

-- `GetByPlayerAndCurrency`
unfoldable pub get_wallet_by_owner : Uuid → String → Db Wallet
get_wallet_by_owner player_id currency =
    query "postgres: scan wallet"
      (λ t. scan_wallet (select (by_owner player_id currency) t.wallets))

-- `WHERE id = $1 AND version = $4`
abbrev pub at_version : Uuid → ℤ → WalletRow → Bool
at_version id expected row = row.id == id && row.version == expected

abbrev pub set_balance : ℤ → Time → WalletRow → WalletRow
set_balance balance updated_at row = record row {
  balance_minor = balance;
  version = row.version +ℤ pos 1;
  updated_at = in_microseconds updated_at;
}

-- The rows that the UPDATE would write and that a CHECK constraint refuses.
unfoldable pub refused_by_check : Uuid → ℤ → ℤ → Time → WalletRow → Bool
unfolding wallet_checks
refused_by_check id expected balance updated_at row =
    at_version id expected row && not (wallet_checks (set_balance balance updated_at row))

-- The rows whose next version is no BIGINT.
unfoldable pub overflows_version : Uuid → ℤ → WalletRow → Bool
overflows_version id expected row =
    at_version id expected row && ltb_ℤ (pos (2 ^ 63 - 1)) (row.version +ℤ pos 1)

-- The UPDATE on the rows that the WHERE clause selects. Its new rows must fit their columns and
-- satisfy the CHECK constraints of the table; `isCheckViolation` is true of the latter only.
unfoldable pub update_balance_rows : Wallet → ℤ → Tables → Result (Unit {0}) × Tables
unfolding refused_by_check overflows_version
update_balance_rows w expected t =
    let touched = count_where (at_version w.id expected) t.wallets in
    if touched == 0
    then (err (Error.new ErrorKind.conflict code_version_conflict), t)
    else if not (count_where (overflows_version w.id expected) t.wallets == 0)
    then (err (Error.plain "postgres: update wallet balance"), t)
    else if not
        (count_where (refused_by_check w.id expected w.balance.amount w.updated_at) t.wallets == 0)
    then (
      err (Error.wrap ErrorKind.rejected code_insufficient_funds (Error.plain "check_violation")),
      t,
    )
    else (
      ok tt,
      record t {
        wallets =
            update_where (at_version w.id expected) (set_balance w.balance.amount w.updated_at)
              t.wallets;
      },
    )

-- `UpdateBalance`
unfoldable pub update_balance : Wallet → ℤ → Db (Unit {0})
unfolding update_balance_rows
update_balance w expected =
    statement "postgres: update wallet balance" (update_balance_rows w expected)
