-- ===== src/Store/Accounts.antt =====
-- internal/adapters/postgres: the statements that read and write the wallets and the ledger.
use junglegaming_backend_cha.Types.{before, is_zero_time, nil_uuid, Uuid}
use junglegaming_backend_cha.Base.Int.{pos, ltb_ℤ, IsInt64, ℤ}
use junglegaming_backend_cha.Wallet.{invalid_wallet, Wallet, rehydrate}
use junglegaming_backend_cha.Base.{
  ◌==◌, ◌||◌, update_where, select, List, arith, ◌≡◌, string_eq, nat_eq, ◌++◌, ◌∷◌, [], some,
}
use junglegaming_backend_cha.Money.{Currency, is_valid, new_currency, from_minor_units}
use junglegaming_backend_cha.AppErr.{>>=-eq-ok, ok, guard-inv}
use junglegaming_backend_cha.Ledger.{Entry}
use junglegaming_backend_cha.Wallet.Movement.{IsValid}
use junglegaming_backend_cha.Store.{WalletRow, EntryRow, Tables}
use junglegaming_backend_cha.Store.Hoare.{Accounts, Run, Run-statement, Run-query}
use junglegaming_backend_cha.Store.Wallets.{
  by_id, at_version, set_balance, update_balance_rows, update_balance, get_wallet, scan_wallet,
}
use junglegaming_backend_cha.Store.Entries.{entry_row, insert_entry, insert_entry_row}

-- The wallets after an update that went through.
abbrev pub updated : Wallet → ℤ → List WalletRow → List WalletRow
updated w expected rows =
    update_where (at_version w.id expected) (set_balance w.balance.amount w.updated_at) rows

update_balance_rows-ok :
    (w : Wallet) (expected : ℤ) (t : Tables)
    → (update_balance_rows w expected t).0 ≡ ok tt
    → ((update_balance_rows w expected t).1.entries ≡ t.entries)
      × ((update_balance_rows w expected t).1.wallets ≡ updated w expected t.wallets)
unfolding update_balance_rows
update_balance_rows-ok w expected t h = ground arith

pub Run-update_balance :
    {x : Accounts} (w : Wallet) (expected : ℤ)
    → Run x
        (update_balance w expected)
        (λ u y. (y.entries ≡ x.entries) × (y.wallets ≡ updated w expected x.wallets))
unfolding update_balance
Run-update_balance {x} w expected =
    Run-statement _ _ (λ t u e h. rw (← e) (update_balance_rows-ok w expected t h))

insert_entry_row-ok :
    (row : EntryRow) (t : Tables)
    → (insert_entry_row row t).0 ≡ ok tt
    → ((insert_entry_row row t).1.wallets ≡ t.wallets)
      × ((insert_entry_row row t).1.entries ≡ t.entries ++ row ∷ [])
unfolding insert_entry_row
insert_entry_row-ok row t h = ground arith

pub Run-insert_entry :
    {x : Accounts} (e : Entry)
    → Run x
        (insert_entry e)
        (λ u y. (y.wallets ≡ x.wallets) × (y.entries ≡ x.entries ++ entry_row e ∷ []))
unfolding insert_entry
Run-insert_entry {x} e =
    Run-statement _ _ (λ t u p h. rw (← p) (insert_entry_row-ok (entry_row e) t h))

pub Run-get_wallet :
    {x : Accounts} (id : Uuid)
    → Run x (get_wallet id) (λ w y. (y ≡ x) × (scan_wallet (select (by_id id) x.wallets) ≡ ok w))
unfolding get_wallet
Run-get_wallet {x} id = Run-query _ _ (λ w t e h. (e, rw (← e) h))

-- What a wallet that was read has from its row.
pub record ReadFrom (row : WalletRow) (w : Wallet) : Type 0 where
  pub id : w.id ≡ row.id
  pub version : w.version ≡ row.version
  pub units : w.balance.amount ≡ row.balance_minor
  pub valid : IsValid w

rehydrate-ReadFrom :
    (row : WalletRow) (cur : Currency) (w : Wallet)
    → IsInt64 row.balance_minor
    → rehydrate row.id row.player_id cur row.balance_minor row.version row.created_at row.updated_at
      ≡ ok w
    → ReadFrom row w
unfolding rehydrate from_minor_units is_valid
rehydrate-ReadFrom row cur w b h0 =
    let (c1, h1) =
      guard-inv (row.id == nil_uuid || row.player_id == nil_uuid) invalid_wallet _ h0 in
    let (c2, h2) = guard-inv (cur == "") invalid_wallet _ h1 in
    let (c3, h3) = guard-inv (ltb_ℤ row.balance_minor (pos 0)) invalid_wallet _ h2 in
    let (c4, h4) = guard-inv (ltb_ℤ row.version (pos 1)) invalid_wallet _ h3 in
    let (c5, h5) =
      guard-inv
        (is_zero_time row.created_at
          || is_zero_time row.updated_at
          || before row.updated_at row.created_at)
        invalid_wallet _ h4 in
    ground (arith, c2, c3, b, h5)

pub scan_wallet-inv :
    (row : WalletRow) (w : Wallet)
    → IsInt64 row.balance_minor
    → scan_wallet (some row) ≡ ok w
    → ReadFrom row w
unfolding scan_wallet
scan_wallet-inv row w b h =
    let (cur, p, q) = >>=-eq-ok (new_currency row.currency) _ h in rehydrate-ReadFrom row cur w b q
