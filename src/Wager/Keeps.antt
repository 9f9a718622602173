-- ===== src/Wager/Keeps.antt =====
-- internal/app/wager/service.go: `move`, the use of references and `applyOperation`, on the balances
-- and the ledger.
use junglegaming_backend_cha.Wagering.Failures.{
  failure_currency_mismatch, failure_wallet_player_mismatch, failure_wallet_not_found,
}
use junglegaming_backend_cha.Base.{
  ◌!=◌, select-passes, ap, sym, Option-cases, ◌∙◌, arith, false, true, Option, inr, inl, String,
  Bool-cases, select, if◌then◌else◌, Bool, ◌≡◌, refl, string_eq, nat_eq, some, none,
}
use junglegaming_backend_cha.Wager.Calm.{Calm-resolve_reference}
use junglegaming_backend_cha.Store.Hoare.{after_read, accounts, Quiet-fail, Ends, Accounts, Run}
use junglegaming_backend_cha.Store.Accounts.{scan_wallet-inv, Run-get_wallet, ReadFrom}
use junglegaming_backend_cha.Store.Consistent.{balance_in, Consistent}
use junglegaming_backend_cha.Wager.Movement.{
  missing_wallet, apply_operation, apply_kind, referencing, reverse_in, with_reference,
  apply_reversal, reverse_kind, apply_direction, conclude_movement, move,
}
use junglegaming_backend_cha.Store.Wallets.{scan_wallet, by_id}
use mathlib.Core.Path.{subst}
use junglegaming_backend_cha.Wager.Quiet.{
  Quiet-handle_reference_error, Quiet-finish_processed, Quiet-reject,
}
use junglegaming_backend_cha.Wager.Operation.{handle_reference_error}
use junglegaming_backend_cha.Wager.{Config, Outcome}
use junglegaming_backend_cha.Wagering.Kinds.{Kind, opening, bet, win, loss, refund, rollback, other}
use junglegaming_backend_cha.Types.{Time}
use junglegaming_backend_cha.Store.{Env, World, WalletRow, Db}
use junglegaming_backend_cha.AppErr.{Error, ErrorKind, is_kind, Result, ok, err}
use junglegaming_backend_cha.Ledger.{unknown, is_known, Direction, debit_side, credit_side}
use junglegaming_backend_cha.Wallet.Movement.{credit-Moved, debit-Moved, Moved}
use junglegaming_backend_cha.Ledger.Validation.{signed_amount}
use junglegaming_backend_cha.Wager.Consistency.{kept, record_movement-Consistent}
use junglegaming_backend_cha.Wallet.{BalanceChange, Wallet}
use junglegaming_backend_cha.Wager.References.{resolve_reference}
use junglegaming_backend_cha.Base.Int.{IsInt64}
use junglegaming_backend_cha.Wagering.{Transaction}

-- A call after which the accounts are consistent again.
abbrev pub Keeps : {A : Type 0} → Accounts → Db A → Type 0
Keeps x m = Run x m (λ a y. Consistent y)

pub Keeps-if :
    {A : Type 0} {x : Accounts} {m k : Db A} (b : Bool)
    → Keeps x m
    → Keeps x k
    → Keeps x (if b then m else k)
Keeps-if true h g = h
Keeps-if false h g = g

module _ {x : Accounts} (c : Consistent x) (row : WalletRow) (w : Wallet)
    (found : select (by_id w.id) x.wallets ≡ some row) (read : ReadFrom row w) (t : Transaction)
    (word : IsInt64 t.amount.amount) (now : Time) (correlation : String) where
  apply_direction-Moved :
      (d : Direction) (r : BalanceChange × Wallet)
      → is_known d ≡ true
      → apply_direction d w t now ≡ ok r
      → Moved w (signed_amount d t.amount.amount) now r
  unfolding apply_direction is_known
  apply_direction-Moved debit_side r k h = debit-Moved w t.amount now r read.valid word h
  apply_direction-Moved credit_side r k h = credit-Moved w t.amount now r read.valid word h
  apply_direction-Moved (unknown raw) r k h = absurd (cc k)

  conclude_movement-Keeps :
      (d : Direction) (ref : Option Transaction) (r : Result (BalanceChange × Wallet))
      → is_known d ≡ true
      → apply_direction d w t now ≡ r
      → Keeps x (conclude_movement t w d ref now correlation r)
  unfolding conclude_movement
  conclude_movement-Keeps d ref (ok (change, moved)) k h =
      record_movement-Consistent c row w found read t d ref now correlation change moved
        (apply_direction-Moved d (change, moved) k h)
  conclude_movement-Keeps d ref (err e) k h =
      Keeps-if _ (kept c (Quiet-reject _ _ _ _ _)) (kept c (Quiet-fail e))

  move-Keeps :
      (d : Direction) (ref : Option Transaction)
      → is_known d ≡ true
      → Keeps x (move t w d ref now correlation)
  unfolding move
  move-Keeps d ref k = conclude_movement-Keeps d ref (apply_direction d w t now) k refl

  reverse_in-Keeps :
      (d : Option Direction) (ref : Transaction)
      → ((e : Direction) → d ≡ some e → is_known e ≡ true)
      → Keeps x (reverse_in d t w ref now correlation)
  unfolding reverse_in
  reverse_in-Keeps none ref k = kept c (Quiet-reject _ _ _ _ _)
  reverse_in-Keeps (some d) ref k = move-Keeps d (some ref) (k d refl)

  reverse_kind-known : (k : Kind) (e : Direction) → reverse_kind k ≡ some e → is_known e ≡ true
  unfolding reverse_kind is_known
  reverse_kind-known k e h = ground arith

  apply_reversal-Keeps : (ref : Transaction) → Keeps x (apply_reversal t w ref now correlation)
  unfolding apply_reversal
  apply_reversal-Keeps ref =
      reverse_in-Keeps (reverse_kind ref.kind) ref (reverse_kind-known ref.kind)

  with_reference-Ends :
      (handle : Error → Db Outcome) (use_it : Transaction → Db Outcome) (env : Env)
      (p : Result Transaction × World)
      → accounts p.1.tables ≡ x
      → ((e : Error) → Keeps x (handle e))
      → ((ref : Transaction) → Keeps x (use_it ref))
      → Ends (λ a y. Consistent y) (with_reference handle use_it p.0 env p.1)
  unfolding with_reference
  with_reference-Ends handle use_it env (ok ref, v) e h k = (k ref).run env v e
  with_reference-Ends handle use_it env (err f, v) e h k = (h f).run env v e

  referencing-Keeps :
      (config : Config) (use_it : Transaction → Db Outcome)
      → ((ref : Transaction) → Keeps x (use_it ref))
      → Keeps x (referencing config t w now correlation use_it)
  unfolding referencing
  referencing-Keeps config use_it k = record {
    run = λ env v e.
        with_reference-Ends (λ f. handle_reference_error config t w f now correlation) use_it env
          (resolve_reference t env v) ((Calm-resolve_reference t).calm env v ∙ e)
          (λ f. kept c (Quiet-handle_reference_error config t w f now correlation)) k;
  }

  apply_kind-Keeps :
      (config : Config) (k : Kind) → Keeps x (apply_kind config k t w now correlation)
  unfolding apply_kind is_known
  apply_kind-Keeps config loss = kept c (Quiet-finish_processed _ _ _ _)
  apply_kind-Keeps config bet = move-Keeps debit_side none refl
  apply_kind-Keeps config win =
      Keeps-if _ (move-Keeps credit_side none refl)
        (referencing-Keeps config _ (λ ref. move-Keeps credit_side (some ref) refl))
  apply_kind-Keeps config refund = referencing-Keeps config _ apply_reversal-Keeps
  apply_kind-Keeps config rollback = referencing-Keeps config _ apply_reversal-Keeps
  apply_kind-Keeps config opening = kept c (Quiet-fail _)
  apply_kind-Keeps config (other raw) = kept c (Quiet-fail _)

missing_wallet-Ends :
    (Q : Wallet → Accounts → Type 0) (p : Result Wallet × World)
    → Ends Q p
    → Ends Q (elim p.0 as (λ r. Result Wallet × World) [
      | ok a ↦ (ok a, p.1)
      | err e ↦ (
        if is_kind e ErrorKind.not_found
            then err (Error.wrap ErrorKind.rejected failure_wallet_not_found e)
            else err e,
        p.1,
      )
    ])
missing_wallet-Ends Q (ok a, w) h = h
missing_wallet-Ends Q (err e, w) h = elim (Bool-cases (is_kind e ErrorKind.not_found)) [
  | inl p ↦ rw p tt
  | inr p ↦ rw p tt
]

Run-missing_wallet :
    {x : Accounts} {m : Db Wallet} {Q : Wallet → Accounts → Type 0}
    → Run x m Q
    → Run x (missing_wallet m) Q
unfolding missing_wallet
Run-missing_wallet {m = m} {Q = Q} h = record {
  run = λ env w e. missing_wallet-Ends Q (m env w) (h.run env w e);
}

module _ {x : Accounts} (c : Consistent x) (config : Config) (t : Transaction)
    (word : IsInt64 t.amount.amount) (now : Time) (correlation : String) where
  known_wallet :
      (w : Wallet)
      → scan_wallet (select (by_id t.wallet_id) x.wallets) ≡ ok w
      → (row : WalletRow) × (select (by_id w.id) x.wallets ≡ some row) × ReadFrom row w
  unfolding scan_wallet
  known_wallet w h = elim (Option-cases (select (by_id t.wallet_id) x.wallets)) [
    | inl p ↦ absurd (ground (arith, h, p))
    | inr (row, p) ↦
        let b : IsInt64 row.balance_minor =
          subst (λ o. IsInt64 (balance_in o)) p (c.word t.wallet_id) in
        let read = scan_wallet-inv row w b (ap scan_wallet (sym p) ∙ h) in
        let same = select-passes (by_id t.wallet_id) x.wallets row p in
        let q : t.wallet_id ≡ w.id = ground (arith, same, read.id) in (row, rw (← q) p, read)
  ]

  pub apply_operation-Keeps : Keeps x (apply_operation config t now correlation)
  unfolding apply_operation
  apply_operation-Keeps = after_read (Run-missing_wallet (Run-get_wallet t.wallet_id)) (λ w p.
      let (row, found, read) = known_wallet w p in
      let refused = λ (code : String). kept c (Quiet-reject t (some w) code now correlation) in
      Keeps-if (w.player_id != t.player_id) (refused failure_wallet_player_mismatch) (
        Keeps-if (w.currency != t.amount.currency) (refused failure_currency_mismatch)
          (apply_kind-Keeps c row w found read t word now correlation config t.kind)))
