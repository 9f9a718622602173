-- ===== src/Wager/Movement.antt =====
-- internal/app/wager/service.go: `move`, `applyReversal` and `applyOperation`.
use junglegaming_backend_cha.Base.{
  String, Option, none, some, if◌then◌else◌, ◌==◌, ◌!=◌, string_eq, nat_eq,
}
use junglegaming_backend_cha.Base.Int.{ℤ}
use junglegaming_backend_cha.AppErr.{ErrorKind, Error, Result, ok, err, is_kind, code_of}
use junglegaming_backend_cha.Types.{Time}
use junglegaming_backend_cha.Wallet.{Wallet, BalanceChange, debit, credit, code_insufficient_funds}
use junglegaming_backend_cha.Ledger.{Direction, debit_side, credit_side, new_entry}
use junglegaming_backend_cha.Wagering.{Transaction}
use junglegaming_backend_cha.Wagering.Kinds.{Kind, bet, win, loss, refund, rollback}
use junglegaming_backend_cha.Wagering.Failures.{
  failure_insufficient_funds, failure_reversal_insufficient_funds, failure_reference_mismatch,
  failure_wallet_not_found, failure_wallet_player_mismatch, failure_currency_mismatch,
  failure_unsupported_kind,
}
use junglegaming_backend_cha.Wagering.Transitions.{set_reference_resolution}
use junglegaming_backend_cha.Events.{EventData, balance_changed}
use junglegaming_backend_cha.Store.{Db, lift, pure, fail, draw, ◌>>=◌, ◌>>◌}
use junglegaming_backend_cha.Store.Wallets.{get_wallet, update_balance}
use junglegaming_backend_cha.Store.Entries.{insert_entry}
use junglegaming_backend_cha.Wager.{Config, Outcome}
use junglegaming_backend_cha.Wager.Events.{text_of, emit}
use junglegaming_backend_cha.Wager.References.{resolve_reference}
use junglegaming_backend_cha.Wager.Operation.{finish_processed, reject, handle_reference_error}

-- `w.Debit` or `w.Credit`, by the direction.
unfoldable pub apply_direction :
    Direction → Wallet → Transaction → Time → Result (BalanceChange × Wallet)
apply_direction debit_side w t now = debit w t.amount now
apply_direction _ w t now = credit w t.amount now

-- `if ref != nil { t.SetReferenceResolution(ref.ID(), now) }`
unfoldable pub resolve_to : Option Transaction → Transaction → Time → Transaction
resolve_to none t now = t
resolve_to (some ref) t now = set_reference_resolution t ref.id now

unfoldable pub changed_data : Transaction → Direction → BalanceChange → Wallet → Db EventData
changed_data t direction change w = do
  wallet_id ← text_of w.id
  transaction_id ← text_of t.id
  pure (
      balance_changed (record {
        wallet_id = wallet_id;
        transaction_id = transaction_id;
        direction = direction;
        amount = t.amount;
        balance_before = change.before_change;
        balance_after = change.after_change;
        wallet_version = w.version;
      }))

-- `move` after a movement that the wallet allowed: the wallet row, the ledger entry, the events.
unfoldable pub record_movement :
    Transaction
    → ℤ
    → Direction
    → Option Transaction
    → Time
    → String
    → BalanceChange
    → Wallet
    → Db Outcome
unfolding changed_data
record_movement t0 expected_version direction ref now correlation_id change w = do
  update_balance w expected_version
  let t = resolve_to ref t0 now
  entry_id ← draw
  entry ←
      lift (
        new_entry entry_id w.id t.id direction t.amount change.before_change change.after_change
          now)
  insert_entry entry
  content ← changed_data t direction change w
  emit w.id correlation_id t.id now content
  finish_processed t change.after_change now correlation_id

unfoldable pub funds_code : Kind → String
funds_code rollback = failure_reversal_insufficient_funds
funds_code _ = failure_insufficient_funds

-- `move` on the result of `Debit` or `Credit`.
unfoldable pub conclude_movement :
    Transaction
    → Wallet
    → Direction
    → Option Transaction
    → Time
    → String
    → Result (BalanceChange × Wallet)
    → Db Outcome
conclude_movement t w direction ref now correlation_id (ok (change, moved)) =
    record_movement t w.version direction ref now correlation_id change moved
conclude_movement t w direction ref now correlation_id (err e) =
    if code_of e == code_insufficient_funds
    then reject t (some w) (funds_code t.kind) now correlation_id
    else fail e

-- `move`
unfoldable pub move :
    Transaction → Wallet → Direction → Option Transaction → Time → String → Db Outcome
move t w direction ref now correlation_id =
    conclude_movement t w direction ref now correlation_id (apply_direction direction w t now)

-- `applyReversal`, by the kind of the reference.
unfoldable pub reverse_kind : Kind → Option Direction
reverse_kind bet = some credit_side
reverse_kind win = some debit_side
reverse_kind refund = some debit_side
reverse_kind _ = none

unfoldable pub reverse_in :
    Option Direction → Transaction → Wallet → Transaction → Time → String → Db Outcome
reverse_in none t w ref now correlation_id =
    reject t (some w) failure_reference_mismatch now correlation_id
reverse_in (some direction) t w ref now correlation_id =
    move t w direction (some ref) now correlation_id

unfoldable pub apply_reversal : Transaction → Wallet → Transaction → Time → String → Db Outcome
unfolding reverse_in
apply_reversal t w ref now correlation_id =
    reverse_in (reverse_kind ref.kind) t w ref now correlation_id

-- What follows `resolveReference`: the error handler, or the use of the reference.
unfoldable pub with_reference :
    (Error → Db Outcome) → (Transaction → Db Outcome) → Result Transaction → Db Outcome
with_reference handle use_it (ok ref) = use_it ref
with_reference handle use_it (err e) = handle e

unfoldable pub referencing :
    Config → Transaction → Wallet → Time → String → (Transaction → Db Outcome) → Db Outcome
unfolding with_reference
referencing config t w now correlation_id use_it env world =
    let (r, world') = resolve_reference t env world in
    with_reference (λ e. handle_reference_error config t w e now correlation_id) use_it r env world'

-- The `switch` on the kind.
unfoldable pub apply_kind : Config → Kind → Transaction → Wallet → Time → String → Db Outcome
apply_kind config loss t w now correlation_id = finish_processed t w.balance now correlation_id
apply_kind config bet t w now correlation_id = move t w debit_side none now correlation_id
apply_kind config win t w now correlation_id =
    if t.reference_external_transaction_id == ""
    then move t w credit_side none now correlation_id
    else referencing config t w now correlation_id
        (λ ref. move t w credit_side (some ref) now correlation_id)
apply_kind config refund t w now correlation_id =
    referencing config t w now correlation_id (λ ref. apply_reversal t w ref now correlation_id)
apply_kind config rollback t w now correlation_id =
    referencing config t w now correlation_id (λ ref. apply_reversal t w ref now correlation_id)
apply_kind config _ t w now correlation_id =
    fail (Error.new ErrorKind.invalid failure_unsupported_kind)

-- A wallet that is not there is a rejection that cannot be stored.
unfoldable pub missing_wallet : {A : Type 0} → Db A → Db A
missing_wallet m env w =
    let (r, w') = m env w in
    elim r [
      | ok a ↦ (ok a, w')
      | err e ↦ (
        if is_kind e ErrorKind.not_found
            then err (Error.wrap ErrorKind.rejected failure_wallet_not_found e)
            else err e,
        w',
      )
    ]

-- `applyOperation`
unfoldable pub apply_operation : Config → Transaction → Time → String → Db Outcome
unfolding missing_wallet
apply_operation config t now correlation_id = do
  w ← missing_wallet (get_wallet t.wallet_id)
  if w.player_id != t.player_id
      then reject t (some w) failure_wallet_player_mismatch now correlation_id
      else if w.currency != t.amount.currency
      then reject t (some w) failure_currency_mismatch now correlation_id
      else apply_kind config t.kind t w now correlation_id
