-- ===== src/Wager/Consistency.antt =====
-- internal/app/wager/service.go: `move` after a movement, on the balances and the ledger.
use junglegaming_backend_cha.Store.Consistent.{Consistent-moved, Consistent}
use junglegaming_backend_cha.Base.Int.{◌+ℤ◌}
use junglegaming_backend_cha.Base.{
  [], ◌∷◌, ◌++◌, ◌∙◌, ap, sym, arith, String, true, select, Option, ◌≡◌, refl, string_eq, nat_eq,
  some, none,
}
use junglegaming_backend_cha.Store.{WalletRow, Db}
use junglegaming_backend_cha.Store.Entries.{entry_row}
use junglegaming_backend_cha.Store.Hoare.{
  Run-seq, Quiet-pure, Quiet-seq, Run-weaken, Quiet-bind, Accounts, Run, Quiet, after_quiet,
  after_lift,
}
use junglegaming_backend_cha.Store.Accounts.{
  updated, Run-insert_entry, Run-update_balance, ReadFrom,
}
use junglegaming_backend_cha.Wager.Quiet.{Quiet-text_of, Quiet-finish_processed, Quiet-emit}
use junglegaming_backend_cha.Wager.Movement.{changed_data, record_movement, resolve_to}
use junglegaming_backend_cha.Wallet.{apply_balance, BalanceChange, Wallet}
use mathlib.Core.Path.{subst}
use junglegaming_backend_cha.Store.Quiet.{Quiet-draw}
use junglegaming_backend_cha.Ledger.Validation.{signed_amount, validate-known}
use junglegaming_backend_cha.Wallet.Movement.{Moved}
use junglegaming_backend_cha.AppErr.{>>=-eq-ok, ok}
use junglegaming_backend_cha.Ledger.{is_known, Entry, Direction, new_entry, validate}
use junglegaming_backend_cha.Store.Wallets.{by_id}
use junglegaming_backend_cha.Types.{Time, Uuid}
use junglegaming_backend_cha.Wagering.{Transaction}
use junglegaming_backend_cha.Money.{Money}
use junglegaming_backend_cha.Wagering.Transitions.{set_reference_resolution}

-- What `ledger.New` returns: the entry of its arguments, in a known direction.
pub new_entry-inv :
    (id wallet_id transaction_id : Uuid) (d : Direction) (amount before after : Money) (at : Time)
    (e : Entry)
    → new_entry id wallet_id transaction_id d amount before after at ≡ ok e
    → (is_known d ≡ true) × (e.wallet_id ≡ wallet_id) × (e.direction ≡ d) × (e.amount ≡ amount)
unfolding new_entry
new_entry-inv id wallet_id transaction_id d amount before after at e h =
    let entry : Entry = record {
      id = id;
      wallet_id = wallet_id;
      transaction_id = transaction_id;
      direction = d;
      amount = amount;
      balance_before = before;
      balance_after = after;
      created_at = at;
    } in
    let (u, p, q) = >>=-eq-ok (validate entry) _ h in
    let r : entry ≡ e = ground (arith, q) in
    (
      validate-known entry p,
      ap (λ (z : Entry). z.wallet_id) (sym r),
      ap (λ (z : Entry). z.direction) (sym r),
      ap (λ (z : Entry). z.amount) (sym r),
    )

resolve_to-amount :
    (ref : Option Transaction) (t : Transaction) (now : Time)
    → (resolve_to ref t now).amount ≡ t.amount
unfolding resolve_to set_reference_resolution
resolve_to-amount none t now = refl
resolve_to-amount (some ref) t now = refl

-- A call that leaves the accounts alone keeps them consistent.
pub kept :
    {A : Type 0} {x : Accounts} {m : Db A} → Consistent x → Quiet m → Run x m (λ a y. Consistent y)
kept {x = x} c q = Run-weaken (q.quiet x) (λ a y e. subst Consistent (sym e) c)

entry_of :
    (u : Transaction) (id wallet_id : Uuid) (e : Entry) (d : Direction) (change : BalanceChange)
    (amount : Money) (now : Time)
    → u.amount ≡ amount
    → new_entry id wallet_id u.id d u.amount change.before_change change.after_change now ≡ ok e
    → (is_known d ≡ true) × (e.wallet_id ≡ wallet_id) × (e.direction ≡ d) × (e.amount ≡ amount)
entry_of u id wallet_id e d change amount now h made =
    let (k, own, side, same) = new_entry-inv id wallet_id u.id d u.amount _ _ now e made in
    (k, own, side, same ∙ h)

Quiet-changed_data :
    (t : Transaction) (d : Direction) (change : BalanceChange) (w : Wallet)
    → Quiet (changed_data t d change w)
unfolding changed_data
Quiet-changed_data t d change w =
    Quiet-bind (Quiet-text_of _) (λ a. Quiet-bind (Quiet-text_of _) (λ b. Quiet-pure _))

module _ {x : Accounts} (c : Consistent x) (row : WalletRow) (w : Wallet)
    (found : select (by_id w.id) x.wallets ≡ some row) (read : ReadFrom row w) where
  -- The wallet row and the entry of one movement.
  settled :
      {y z : Accounts} (d : Direction) (amount : Money) (now : Time) (change : BalanceChange)
      (moved : Wallet) (e : Entry)
      → Moved w (signed_amount d amount.amount) now (change, moved)
      → (y.entries ≡ x.entries) × (y.wallets ≡ updated moved w.version x.wallets)
      → (is_known d ≡ true) × (e.wallet_id ≡ moved.id) × (e.direction ≡ d) × (e.amount ≡ amount)
      → (z.wallets ≡ y.wallets) × (z.entries ≡ y.entries ++ entry_row e ∷ [])
      → Consistent z
  unfolding apply_balance
  settled {y} {z} d amount now change moved e mv p (known, own, side, same) q =
      let units = w.balance.amount +ℤ signed_amount d amount.amount in
      let eid : e.wallet_id ≡ w.id = own ∙ ap (λ (v : Wallet). v.id) mv.wallet_eq in
      let mid : moved.id ≡ w.id = ap (λ (v : Wallet). v.id) mv.wallet_eq in
      let bal : moved.balance.amount ≡ units =
        ap (λ (v : Wallet). v.balance.amount) mv.wallet_eq
        ∙ ap (λ (m : Money). m.amount) mv.after_eq in
      let at : moved.updated_at ≡ now = ap (λ (v : Wallet). v.updated_at) mv.wallet_eq in
      Consistent-moved x z e row units now c (rw side known) (rw eid found)
        (rw (side, same, read.units) refl) mv.word
        (q.0 ∙ p.1 ∙ rw (eid, mid, bal, at, read.version) refl) (q.1 ∙ rw p.0 refl)

  pub record_movement-Consistent :
      (t : Transaction) (d : Direction) (ref : Option Transaction) (now : Time)
      (correlation : String) (change : BalanceChange) (moved : Wallet)
      → Moved w (signed_amount d t.amount.amount) now (change, moved)
      → Run x (record_movement t w.version d ref now correlation change moved) (λ a y. Consistent y)
  unfolding record_movement
  record_movement-Consistent t d ref now correlation change moved mv =
      let u = resolve_to ref t now in
      Run-seq (Run-update_balance moved w.version) (λ _ y p. after_quiet Quiet-draw (λ id.
        after_lift _ (λ e made. Run-seq (Run-insert_entry e) (λ v z q.
          kept
            (settled d t.amount now change moved e mv p
              (entry_of u id moved.id e d change t.amount now (resolve_to-amount ref t now) made) q)
            (Quiet-bind (Quiet-changed_data u d change moved)
              (λ content. Quiet-seq (Quiet-emit _ _ _ _ _) (Quiet-finish_processed _ _ _ _)))))))
