-- ===== src/Wallets.antt =====
-- internal/app/wallets/service.go: opening a wallet, and reconciling it with its ledger. Metrics and
-- logs are left out.
pub mod Reconcile
pub mod Opening
pub mod Ledger
pub mod Pages
use junglegaming_backend_cha.Base.{
  Option, ℕ, String, Bool, not, if◌then◌else◌, ◌==◌, string_eq, nat_eq,
}
use junglegaming_backend_cha.Store.Wallets.{get_wallet, create_wallet, get_wallet_by_owner}
use junglegaming_backend_cha.Store.Pages.{LedgerCursor, LedgerPage, list_by_wallet}
use junglegaming_backend_cha.Base.Int.{ℤ, pos, leb_ℤ, ltb_ℤ}
use junglegaming_backend_cha.AppErr.{ErrorKind, Error, Result, ok, err, raise_if, is_kind}
use junglegaming_backend_cha.Types.{Uuid, nil_uuid, Time}
use junglegaming_backend_cha.Money.{
  Money, is_valid, is_negative, is_positive, is_zero, zero_money, from_minor_units, sub,
}
use junglegaming_backend_cha.Wallet.{Wallet, open_wallet}
use junglegaming_backend_cha.Ledger.{credit_side, new_entry}
use junglegaming_backend_cha.Wagering.{Transaction, new_opening}
use junglegaming_backend_cha.Events.{EventData, balance_changed, transaction_processed}
use junglegaming_backend_cha.Store.{
  Db, lift, pure, draw, now_from_clock, within_transaction, ◌>>=◌, ◌>>◌,
}
use junglegaming_backend_cha.Store.Entries.{LedgerTotals, insert_entry, totals_by_wallet}
use junglegaming_backend_cha.Store.TransactionRepo.{insert_transaction}
use junglegaming_backend_cha.Wager.Events.{text_of, emit, correlation_of}
use junglegaming_backend_cha.Money
use junglegaming_backend_cha.Wallet

pub record OpenCommand : Type 0 where
  pub player_id : Uuid
  pub initial_balance : Money
  pub correlation_id : String

-- `ErrWalletExists`
abbrev pub wallet_exists : Error
wallet_exists = Error.new ErrorKind.conflict "WALLET_ALREADY_EXISTS"

-- The checks of `Open` before its transaction.
unfoldable pub check_open : OpenCommand → Result (Unit {0})
check_open cmd =
    if cmd.player_id == nil_uuid
    then err (Error.new ErrorKind.invalid Wallet.code_invalid_wallet)
    else if not (is_valid cmd.initial_balance)
    then err (Error.new ErrorKind.invalid Money.code_invalid_amount)
    else raise_if (is_negative cmd.initial_balance)
        (Error.new ErrorKind.invalid Money.code_negative_amount)

-- The lookup by player and currency must fail with not found.
unfoldable pub absent_wallet : {A : Type 0} → Db A → Db (Unit {0})
absent_wallet m env w =
    let (r, w') = m env w in
    elim r [
      | ok a ↦ (err wallet_exists, w')
      | err e ↦ (if is_kind e ErrorKind.not_found then ok tt else err e, w')
    ]

unfoldable pub opening_changed : Wallet → Transaction → Money → Money → Db EventData
opening_changed w opening zero initial = do
  wallet_id ← text_of w.id
  transaction_id ← text_of opening.id
  pure (
      balance_changed (record {
        wallet_id = wallet_id;
        transaction_id = transaction_id;
        direction = credit_side;
        amount = initial;
        balance_before = zero;
        balance_after = initial;
        wallet_version = w.version;
      }))

-- The fields that `Open` leaves empty are the zero values of Go.
unfoldable pub opening_processed : Wallet → Transaction → Money → Db EventData
opening_processed w opening initial = do
  transaction_id ← text_of opening.id
  wallet_id ← text_of w.id
  player_id ← text_of w.player_id
  pure (
      transaction_processed (record {
        transaction_id = transaction_id;
        provider_id = "";
        external_transaction_id = "";
        wallet_id = wallet_id;
        player_id = player_id;
        round_id = "";
        game_id = "";
        kind = "OPENING";
        status = "PROCESSED";
        amount = initial;
        balance = initial;
      }))

-- The OPENING transaction of a positive balance, its ledger credit and the events.
unfoldable pub record_opening : Wallet → Money → String → Time → Db (Unit {0})
record_opening w initial correlation_id now = do
  correlation ← correlation_of correlation_id w.id
  opening_id ← draw
  opening ← lift (
      new_opening opening_id
        (record { wallet_id = w.id; player_id = w.player_id; amount = initial }) now)
  insert_transaction opening
  zero ← lift (zero_money w.currency)
  entry_id ← draw
  entry ← lift (new_entry entry_id w.id opening.id credit_side initial zero initial now)
  insert_entry entry
  changed ← opening_changed w opening zero initial
  emit w.id correlation opening.id now changed
  processed ← opening_processed w opening initial
  emit opening.id correlation opening.id now processed

-- The body of the transaction of `Open`.
unfoldable pub open_once : OpenCommand → Db Wallet
open_once cmd = do
  now ← now_from_clock
  absent_wallet (get_wallet_by_owner cmd.player_id cmd.initial_balance.currency)
  id ← draw
  w ← lift (open_wallet id cmd.player_id cmd.initial_balance now)
  create_wallet w
  if is_positive cmd.initial_balance
      then record_opening w cmd.initial_balance cmd.correlation_id now
      else pure tt
  pure w

-- `Open`
unfoldable pub open_new : OpenCommand → Db Wallet
open_new cmd = do lift (check_open cmd); within_transaction (open_once cmd)

-- The page size of `Ledger`.
unfoldable pub page_limit : ℤ → ℤ
page_limit limit =
    if leb_ℤ limit (pos 0) then pos 50 else if ltb_ℤ (pos 200) limit then pos 200 else limit

pub record Reconciliation : Type 0 where
  pub wallet_id : Uuid
  pub stored_balance : Money
  pub calculated_balance : Money
  pub difference : Money
  pub consistent : Bool
  pub checked_entries : ℕ

-- What `Reconcile` computes from the totals.
unfoldable pub reconcile_totals : Uuid → LedgerTotals → Db Reconciliation
reconcile_totals wallet_id totals = do
  stored ← lift (from_minor_units totals.stored_balance_minor totals.currency)
  credits ← lift (from_minor_units totals.credits_minor totals.currency)
  debits ← lift (from_minor_units totals.debits_minor totals.currency)
  calculated ← lift (sub credits debits)
  difference ← lift (sub stored calculated)
  pure (record {
    wallet_id = wallet_id;
    stored_balance = stored;
    calculated_balance = calculated;
    difference = difference;
    consistent = is_zero difference;
    checked_entries = totals.entries;
  })

-- `Reconcile`
unfoldable pub reconcile : Uuid → Db Reconciliation
reconcile wallet_id = do totals ← totals_by_wallet wallet_id; reconcile_totals wallet_id totals

-- `Get`
unfoldable pub get : Uuid → Db Wallet
get id = get_wallet id

-- `Ledger`
unfoldable pub ledger_page : Uuid → Option LedgerCursor → ℤ → Db LedgerPage
unfolding page_limit
ledger_page id cursor limit = do get_wallet id; list_by_wallet id cursor (page_limit limit)
