-- ===== src/Wallets/Opening.antt =====
-- internal/app/wallets/service.go: the statements of `Open`.
use junglegaming_backend_cha.Types.{Time, Uuid}
use junglegaming_backend_cha.Money.{Money}
use junglegaming_backend_cha.Wallets.{
  opening_processed, record_opening, opening_changed, absent_wallet,
}
use junglegaming_backend_cha.Base.{
  String, arith, [], ◌∷◌, ◌++◌, List, ◌≡◌, refl, sym, ap, ◌∙◌, string_eq, nat_eq, inl, inr,
  Bool-cases, Option-cases, select-append, none, select, true, false, if◌then◌else◌, ◌==◌,
}
use junglegaming_backend_cha.Wallet.{Wallet}
use junglegaming_backend_cha.Store.Hoare.{
  Quiet-seq, Quiet-pure, Quiet-bind, Accounts, Run, Run-statement, Quiet, after_quiet, then_quiet,
  after_lift, Run-seq,
}
use junglegaming_backend_cha.Store.Calm.{Calm-query, Calm}
use junglegaming_backend_cha.Store.Quiet.{Quiet-insert_transaction, Quiet-draw}
use junglegaming_backend_cha.Store.{WalletRow, Db, Tables}
use junglegaming_backend_cha.AppErr.{ErrorKind, is_kind, Result-cases, ok}
use junglegaming_backend_cha.Store.Wallets.{
  get_wallet_by_owner, by_id, is_found, insert_wallet_row, wallet_row, create_wallet,
}
use junglegaming_backend_cha.Wager.Quiet.{Quiet-emit, Quiet-correlation_of, Quiet-text_of}
use junglegaming_backend_cha.Wager.Consistency.{new_entry-inv, kept}
use junglegaming_backend_cha.Store.Accounts.{Run-insert_entry}
use junglegaming_backend_cha.Store.Consistent.{
  net_balance-row, add_zero, balance_in, zero_add, net_balance, stored_balance, Consistent,
}
use junglegaming_backend_cha.Ledger.{credit_side, Entry, direction_text, is_known}
use junglegaming_backend_cha.Wagering.{Transaction}
use junglegaming_backend_cha.Store.Entries.{entry_row}
use junglegaming_backend_cha.Base.Int.{pos, IsInt64, ◌+ℤ◌}

stored_balance-new :
    (id : Uuid) (rows : List WalletRow) (row : WalletRow)
    → (row.id == id) ≡ true
    → select (by_id id) rows ≡ none
    → stored_balance id (rows ++ row ∷ []) ≡ row.balance_minor
stored_balance-new id rows row p q = rw (select-append (by_id id) row rows, q, p) refl

stored_balance-old :
    (id : Uuid) (rows : List WalletRow) (row : WalletRow)
    → (row.id == id) ≡ false
    → stored_balance id (rows ++ row ∷ []) ≡ stored_balance id rows
stored_balance-old id rows row p = elim (Option-cases (select (by_id id) rows)) [
  | inl q ↦ rw (select-append (by_id id) row rows, q, p) refl
  | inr (r, q) ↦ rw (select-append (by_id id) row rows, q) refl
]

-- A new wallet, and a ledger with its balance added, are consistent.
Consistent-opened :
    (x z : Accounts) (w : Wallet)
    → Consistent x
    → select (by_id w.id) x.wallets ≡ none
    → IsInt64 w.balance.amount
    → z.wallets ≡ x.wallets ++ wallet_row w ∷ []
    → ((id : Uuid)
        → net_balance id z.entries
          ≡ net_balance id x.entries +ℤ (if w.id == id then w.balance.amount else pos 0))
    → Consistent z
unfolding wallet_row
Consistent-opened x z w c fresh word ws net = record {
  balance = λ id.
      rw (ws, net id)
        (elim (Bool-cases (w.id == id)) [
          | inl p ↦
              let q : w.id ≡ id = ground (arith, p) in
              let gone : select (by_id id) x.wallets ≡ none = rw (← q) fresh in
              rw (p, stored_balance-new id x.wallets (wallet_row w) p gone)
                (zero_add w.balance.amount _ (ap balance_in (sym gone) ∙ c.balance id))
          | inr p ↦
              rw (p, stored_balance-old id x.wallets (wallet_row w) p) (c.balance id ∙ add_zero _)
        ]);
  word = λ id. rw ws (elim (Bool-cases (w.id == id)) [
    | inl p ↦
        let q : w.id ≡ id = ground (arith, p) in
        let gone : select (by_id id) x.wallets ≡ none = rw (← q) fresh in
        rw (stored_balance-new id x.wallets (wallet_row w) p gone) word
    | inr p ↦ rw (stored_balance-old id x.wallets (wallet_row w) p) (c.word id)
  ]);
}

insert_wallet_row-ok :
    (row : WalletRow) (t : Tables)
    → (insert_wallet_row row t).0 ≡ ok tt
    → (select (by_id row.id) t.wallets ≡ none)
      × ((insert_wallet_row row t).1.entries ≡ t.entries)
      × ((insert_wallet_row row t).1.wallets ≡ t.wallets ++ row ∷ [])
unfolding insert_wallet_row is_found
insert_wallet_row-ok row t h = ground arith

pub Run-create_wallet :
    {x : Accounts} (w : Wallet)
    → Run x (create_wallet w) (λ u y.
      (select (by_id w.id) x.wallets ≡ none)
      × (y.entries ≡ x.entries)
      × (y.wallets ≡ x.wallets ++ wallet_row w ∷ []))
unfolding create_wallet wallet_row
Run-create_wallet {x} w =
    Run-statement _ _ (λ t u e h. rw (← e) (insert_wallet_row-ok (wallet_row w) t h))

pub Quiet-absent_wallet : {A : Type 0} (m : Db A) → Calm m → Quiet (absent_wallet m)
unfolding absent_wallet
Quiet-absent_wallet m h = record {
  quiet = λ x. record {
    run = λ env w e. elim (Result-cases (m env w).0) [
      | inl (a, p) ↦ rw (absent_wallet, p) tt
      | inr (f, p) ↦ elim (Bool-cases (is_kind f ErrorKind.not_found)) [
        | inl q ↦ rw (absent_wallet, p, q) (h.calm env w ∙ e)
        | inr q ↦ rw (absent_wallet, p, q) tt
      ]
    ];
  };
}

pub Calm-get_wallet_by_owner : (p : Uuid) (cur : String) → Calm (get_wallet_by_owner p cur)
unfolding get_wallet_by_owner
Calm-get_wallet_by_owner p cur = Calm-query _ _

Quiet-opening_changed :
    (w : Wallet) (t : Transaction) (zero initial : Money) → Quiet (opening_changed w t zero initial)
unfolding opening_changed
Quiet-opening_changed w t zero initial =
    Quiet-bind (Quiet-text_of _) (λ a. Quiet-bind (Quiet-text_of _) (λ b. Quiet-pure _))

Quiet-opening_processed :
    (w : Wallet) (t : Transaction) (initial : Money) → Quiet (opening_processed w t initial)
unfolding opening_processed
Quiet-opening_processed w t initial =
    Quiet-bind (Quiet-text_of _)
      (λ a. Quiet-bind (Quiet-text_of _) (λ b. Quiet-bind (Quiet-text_of _) (λ d. Quiet-pure _)))

module _ {x y : Accounts} (c : Consistent x) (w : Wallet) (word : IsInt64 w.balance.amount)
    (p : (select (by_id w.id) x.wallets ≡ none)
      × (y.entries ≡ x.entries)
      × (y.wallets ≡ x.wallets ++ wallet_row w ∷ [])) where
  pub opened_empty : w.balance.amount ≡ pos 0 → Consistent y
  opened_empty none_yet =
      let (fresh, es, ws) = p in
      Consistent-opened x y w c fresh word ws (λ id.
        rw (es, none_yet)
          (elim (Bool-cases (w.id == id)) [
            | inl q ↦ rw q (add_zero _)
            | inr q ↦ rw q (add_zero _)
          ]))

  opened_credited :
      (z : Accounts) (e : Entry)
      → e.wallet_id ≡ w.id
      → e.direction ≡ credit_side
      → e.amount ≡ w.balance
      → (z.wallets ≡ y.wallets) × (z.entries ≡ y.entries ++ entry_row e ∷ [])
      → Consistent z
  unfolding entry_row is_known direction_text
  opened_credited z e own side same q =
      let (fresh, es, ws) = p in
      Consistent-opened x z w c fresh word (q.0 ∙ ws) (λ id.
        rw (q.1, es)
          (net_balance-row id x.entries (entry_row e) credit_side (rw side refl) refl
            ∙ rw (own, same) refl))

  pub record_opening-Keeps :
      (correlation : String) (now : Time)
      → Run y (record_opening w w.balance correlation now) (λ u z. Consistent z)
  unfolding record_opening
  record_opening-Keeps correlation now = after_quiet (Quiet-correlation_of _ _) (λ cor.
      after_quiet Quiet-draw (λ opening_id. after_lift _ (λ opening made.
        then_quiet (Quiet-insert_transaction opening) (
          after_lift _ (λ zero z0. after_quiet Quiet-draw (λ entry_id. after_lift _ (λ e built.
            Run-seq (Run-insert_entry e) (λ u z q.
              let (k, own, side, same) =
                new_entry-inv entry_id w.id opening.id credit_side w.balance zero w.balance now e
                  built in
              kept (opened_credited z e own side same q) (
                Quiet-bind (Quiet-opening_changed w opening zero w.balance) (λ changed.
                  Quiet-seq (Quiet-emit _ _ _ _ _) (
                    Quiet-bind (Quiet-opening_processed w opening w.balance)
                      (λ done. Quiet-emit _ _ _ _ _))))))))))))
