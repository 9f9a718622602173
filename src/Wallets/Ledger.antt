-- ===== src/Wallets/Ledger.antt =====
-- internal/app/wallets/service.go: `Open`, on the balances and the ledger.
use junglegaming_backend_cha.Wallets.Opening.{
  Run-create_wallet, opened_empty, Calm-get_wallet_by_owner, record_opening-Keeps,
  Quiet-absent_wallet,
}
use junglegaming_backend_cha.Wager.Service.Ledger.{
  within_transaction-Preserves, lift_then-Preserves,
}
use junglegaming_backend_cha.Types.{is_zero_time, nil_uuid, Time, Uuid}
use junglegaming_backend_cha.Money.{is_valid, is_positive, is_negative, Money}
use junglegaming_backend_cha.Wallets.{check_open, open_once, OpenCommand, open_new, record_opening}
use junglegaming_backend_cha.Base.{
  not, arith, [], ◌∷◌, ◌++◌, ◌≡◌, ap, ◌∙◌, string_eq, nat_eq, inl, inr, Bool-cases, none, select,
  false, if◌then◌else◌, ◌==◌,
}
use junglegaming_backend_cha.Wallet.{invalid_wallet, open_wallet, Wallet}
use junglegaming_backend_cha.Store.Hoare.{
  accounts, Quiet-pure, Accounts, Run, after_quiet, then_quiet, after_lift, Run-seq,
}
use junglegaming_backend_cha.Store.Quiet.{Quiet-now_from_clock, Quiet-draw}
use junglegaming_backend_cha.Store.{World, pure, Env}
use junglegaming_backend_cha.Wager.Keeps.{Keeps}
use junglegaming_backend_cha.AppErr.{guard-inv, ok}
use junglegaming_backend_cha.Store.Wallets.{by_id, wallet_row}
use junglegaming_backend_cha.Wager.Consistency.{kept}
use junglegaming_backend_cha.Store.Consistent.{Consistent}
use junglegaming_backend_cha.Base.Int.{pos, IsInt64}

-- What `Open` of the aggregate returns.
open_wallet-inv :
    (id player : Uuid) (initial : Money) (now : Time) (w : Wallet)
    → open_wallet id player initial now ≡ ok w
    → (w.balance ≡ initial) × (is_negative initial ≡ false)
unfolding open_wallet
open_wallet-inv id player initial now w h0 =
    let (c1, h1) = guard-inv (player == nil_uuid) invalid_wallet _ h0 in
    let (c2, h2) = guard-inv (not (is_valid initial)) invalid_wallet _ h1 in
    let (c3, h3) = guard-inv (is_negative initial) invalid_wallet _ h2 in
    let (c4, h4) = guard-inv (is_zero_time now) invalid_wallet _ h3 in (ground (arith, h4), c3)

zero_balance : (m : Money) → is_negative m ≡ false → is_positive m ≡ false → m.amount ≡ pos 0
unfolding is_negative is_positive
zero_balance m n p = ground arith

module _ {x : Accounts} (c : Consistent x) (cmd : OpenCommand)
    (word : IsInt64 cmd.initial_balance.amount) where
  credit_if :
      {y : Accounts} (w : Wallet) (now : Time)
      → (w.balance ≡ cmd.initial_balance) × (is_negative cmd.initial_balance ≡ false)
      → (select (by_id w.id) x.wallets ≡ none)
        × (y.entries ≡ x.entries)
        × (y.wallets ≡ x.wallets ++ wallet_row w ∷ [])
      → Run y
          (if is_positive cmd.initial_balance
            then record_opening w cmd.initial_balance cmd.correlation_id now
            else pure tt)
          (λ u z. Consistent z)
  credit_if {y} w now (same, n) p =
      let fits : IsInt64 w.balance.amount = rw same word in
      elim (Bool-cases (is_positive cmd.initial_balance)) [
        | inl q ↦ rw (q, ← same) (record_opening-Keeps c w fits p cmd.correlation_id now)
        | inr q ↦
            let zero : w.balance.amount ≡ pos 0 =
              ap (λ (m : Money). m.amount) same ∙ zero_balance cmd.initial_balance n q in
            rw q (kept (opened_empty c w fits p zero) (Quiet-pure tt))
      ]

  open_once-Keeps : Keeps x (open_once cmd)
  unfolding open_once
  open_once-Keeps = after_quiet Quiet-now_from_clock (λ now.
      then_quiet (Quiet-absent_wallet _ (Calm-get_wallet_by_owner _ _)) (
        after_quiet Quiet-draw (λ id. after_lift _ (λ w made.
          Run-seq (Run-create_wallet w) (λ u y p.
            Run-seq (credit_if w now (open_wallet-inv id _ _ now w made) p)
              (λ v z cz. kept cz (Quiet-pure w)))))))

-- From tables where every wallet's balance is the sum of its credits less its debits, and an
-- int64, opening a wallet with an int64 balance leads to such tables again, whatever its outcome
-- and which round trips fail.
pub open_keeps_ledger :
    (env : Env) (cmd : OpenCommand) (w : World)
    → IsInt64 cmd.initial_balance.amount
    → Consistent (accounts w.tables)
    → Consistent (accounts (open_new cmd env w).1.tables)
unfolding open_new
open_keeps_ledger env cmd w word =
    lift_then-Preserves env (check_open cmd) _
      (within_transaction-Preserves env (open_once cmd) (λ x c. open_once-Keeps c cmd word)) w
