-- ===== src/Wallet.antt =====
-- internal/domain/wallet/wallet.go: the Wallet aggregate. A method that changes the wallet returns
-- the new one with its result; an error leaves the caller with the old one, as in the source,
-- where every check stands before `apply`. The id that `mustUUIDv7` draws is an argument.
pub mod Movement
use junglegaming_backend_cha.Base.{String, Bool, not, ◌||◌, ◌==◌, ◌!=◌, string_eq, nat_eq, false}
use junglegaming_backend_cha.Base.Int.{ℤ, pos, ◌+ℤ◌, ltb_ℤ, wrap64}
use junglegaming_backend_cha.AppErr.{ErrorKind, Error, Result, ok, ◌>>=◌, ◌>>◌, raise_if}
use junglegaming_backend_cha.Types.{Uuid, nil_uuid, Time, is_zero_time, before}
use junglegaming_backend_cha.Money.{
  Money, Currency, from_minor_units, is_valid, is_positive, is_negative, add, sub,
}

abbrev pub code_invalid_wallet : String
code_invalid_wallet = "INVALID_WALLET"

abbrev pub code_insufficient_funds : String
code_insufficient_funds = "INSUFFICIENT_FUNDS"

abbrev pub code_currency_mismatch : String
code_currency_mismatch = "WALLET_CURRENCY_MISMATCH"

abbrev pub code_version_conflict : String
code_version_conflict = "WALLET_VERSION_CONFLICT"

abbrev pub code_non_positive_amount : String
code_non_positive_amount = "WALLET_NON_POSITIVE_AMOUNT"

pub record Wallet : Type 0 where
  pub id : Uuid
  pub player_id : Uuid
  pub currency : Currency
  pub balance : Money
  pub version : ℤ
  pub created_at : Time
  pub updated_at : Time

pub record BalanceChange : Type 0 where
  pub before_change : Money
  pub after_change : Money

abbrev pub invalid_wallet : Error
invalid_wallet = Error.new ErrorKind.invalid code_invalid_wallet

-- `Open`
unfoldable pub open_wallet : Uuid → Uuid → Money → Time → Result Wallet
open_wallet id player_id initial_balance now = do
  raise_if (player_id == nil_uuid) invalid_wallet
  raise_if (not (is_valid initial_balance)) invalid_wallet
  raise_if (is_negative initial_balance) invalid_wallet
  raise_if (is_zero_time now) invalid_wallet
  ok (record {
    id = id;
    player_id = player_id;
    currency = initial_balance.currency;
    balance = initial_balance;
    version = pos 1;
    created_at = now;
    updated_at = now;
  })

-- `Rehydrate`
unfoldable pub rehydrate : Uuid → Uuid → Currency → ℤ → ℤ → Time → Time → Result Wallet
rehydrate id player_id currency balance_minor version created_at updated_at = do
  raise_if (id == nil_uuid || player_id == nil_uuid) invalid_wallet
  raise_if (currency == "") invalid_wallet
  raise_if (ltb_ℤ balance_minor (pos 0)) invalid_wallet
  raise_if (ltb_ℤ version (pos 1)) invalid_wallet
  raise_if (is_zero_time created_at || is_zero_time updated_at || before updated_at created_at)
      invalid_wallet
  balance ← from_minor_units balance_minor currency
  ok (record {
    id = id;
    player_id = player_id;
    currency = currency;
    balance = balance;
    version = version;
    created_at = created_at;
    updated_at = updated_at;
  })

-- `apply`
unfoldable pub apply_balance : Wallet → Money → Time → Wallet
apply_balance w balance now = record w {
  balance = balance;
  version = wrap64 (w.version +ℤ pos 1);
  updated_at = now;
}

-- `assertMovement`
unfoldable pub assert_movement : Wallet → Money → Time → Result (Unit {0})
assert_movement w amount now = do
  raise_if (not (is_valid amount)) invalid_wallet
  raise_if (not (is_positive amount)) (Error.new ErrorKind.invalid code_non_positive_amount)
  raise_if (amount.currency != w.currency) (Error.new ErrorKind.invalid code_currency_mismatch)
  raise_if (is_zero_time now) invalid_wallet

-- `Debit`
unfoldable pub debit : Wallet → Money → Time → Result (BalanceChange × Wallet)
debit w amount now = do
  assert_movement w amount now
  after ← sub w.balance amount
  raise_if (is_negative after) (Error.new ErrorKind.rejected code_insufficient_funds)
  ok (record { before_change = w.balance; after_change = after }, apply_balance w after now)

-- `Credit`
unfoldable pub credit : Wallet → Money → Time → Result (BalanceChange × Wallet)
credit w amount now = do
  assert_movement w amount now
  after ← add w.balance amount
  ok (record { before_change = w.balance; after_change = after }, apply_balance w after now)
