-- ===== src/Store/Consistent.antt =====
-- internal/adapters/postgres/ledger_repo.go: the stored balances and the sums of `TotalsByWallet`.
use junglegaming_backend_cha.Base.{
  ◌∙◌, ap, sym, inl, inr, Bool-cases, false, ◌&&◌, arith, ◌==◌, none, refl, Option, if◌then◌else◌,
  [], ◌∷◌, true, some, ◌++◌, update_where, List, String, select, ◌≡◌, string_eq, nat_eq,
}
use junglegaming_backend_cha.Base.Int.{int_laws, ◌+ℤ◌, ◌-ℤ◌, pos, ℤ, IsInt64}
use junglegaming_backend_cha.Ledger.Validation.{signed_amount}
use junglegaming_backend_cha.Types.{Time, Uuid}
use junglegaming_backend_cha.Ledger.{
  debit_side, credit_side, unknown, Direction, Entry, direction_text, is_known,
}
use junglegaming_backend_cha.Store.{WalletRow, EntryRow}
use junglegaming_backend_cha.Store.Hoare.{Accounts}
use junglegaming_backend_cha.Store.Wallets.{by_id, at_version, set_balance}
use junglegaming_backend_cha.Store.Entries.{sum_side, entry_row}

abbrev pub balance_in : Option WalletRow → ℤ
balance_in none = pos 0
balance_in (some row) = row.balance_minor

-- The balance column of a wallet, and 0 where there is no such wallet.
abbrev pub stored_balance : Uuid → List WalletRow → ℤ
stored_balance id rows = balance_in (select (by_id id) rows)

-- The credits of a wallet less its debits.
abbrev pub net_balance : Uuid → List EntryRow → ℤ
net_balance id rows = sum_side "CREDIT" id rows -ℤ sum_side "DEBIT" id rows

-- Every wallet's stored balance is what its ledger adds up to, and an int64.
pub record Consistent (x : Accounts) : Type 0 where
  pub balance : (id : Uuid) → stored_balance id x.wallets ≡ net_balance id x.entries
  pub word : (id : Uuid) → IsInt64 (stored_balance id x.wallets)

-- The row that the UPDATE is for gets the new balance,
stored_balance-same :
    (id : Uuid) (version units : ℤ) (at : Time) (rows : List WalletRow) (row : WalletRow)
    → select (by_id id) rows ≡ some row
    → row.version ≡ version
    → stored_balance id (update_where (at_version id version) (set_balance units at) rows) ≡ units
unfolding select update_where
stored_balance-same id version units at [] row h v = ground arith
stored_balance-same id version units at (r ∷ rows) row h v = elim (Bool-cases (r.id == id)) [
  | inl e ↦ ground (arith, e)
  | inr e ↦ ground (arith, e, stored_balance-same id version units at rows row)
]

-- and the other wallets keep theirs.
stored_balance-other :
    (id other : Uuid) (version units : ℤ) (at : Time) (rows : List WalletRow)
    → (id == other) ≡ false
    → stored_balance other (update_where (at_version id version) (set_balance units at) rows)
      ≡ stored_balance other rows
unfolding select update_where
stored_balance-other id other version units at [] n = refl
stored_balance-other id other version units at (r ∷ rows) n =
    ground (arith, n, stored_balance-other id other version units at rows n)

sum_side-append :
    (side : String) (id : Uuid) (rows : List EntryRow) (row : EntryRow)
    → sum_side side id (rows ++ row ∷ [])
      ≡ sum_side side id rows
        +ℤ (if row.wallet_id == id && row.direction == side then row.amount_minor else pos 0)
unfolding sum_side
sum_side-append side id [] row = omega int_laws
sum_side-append side id (r ∷ rows) row = rw (sum_side-append side id rows row) (omega int_laws)

-- What one more row adds to the balance of its wallet.
pub net_balance-row :
    (id : Uuid) (rows : List EntryRow) (row : EntryRow) (d : Direction)
    → row.direction ≡ direction_text d
    → is_known d ≡ true
    → net_balance id (rows ++ row ∷ [])
      ≡ net_balance id rows
        +ℤ (if row.wallet_id == id then signed_amount d row.amount_minor else pos 0)
unfolding is_known direction_text
net_balance-row id rows row debit_side h k =
    rw (sum_side-append "CREDIT" id rows row, sum_side-append "DEBIT" id rows row, h)
      (elim (Bool-cases (row.wallet_id == id)) [
        | inl e ↦ rw e (omega int_laws)
        | inr e ↦ rw e (omega int_laws)
      ])
net_balance-row id rows row credit_side h k =
    rw (sum_side-append "CREDIT" id rows row, sum_side-append "DEBIT" id rows row, h)
      (elim (Bool-cases (row.wallet_id == id)) [
        | inl e ↦ rw e (omega int_laws)
        | inr e ↦ rw e (omega int_laws)
      ])
net_balance-row id rows row (unknown raw) h k = absurd (cc k)

pub zero_add : (a z : ℤ) → pos 0 ≡ z → a ≡ z +ℤ a
zero_add a z h = rw (← h) (omega int_laws)

pub add_zero : (z : ℤ) → z ≡ z +ℤ pos 0
add_zero z = omega int_laws

-- The tables after an entry and the balance that goes with it are consistent again.
pub Consistent-moved :
    (x y : Accounts) (e : Entry) (row : WalletRow) (units : ℤ) (at : Time)
    → Consistent x
    → is_known e.direction ≡ true
    → select (by_id e.wallet_id) x.wallets ≡ some row
    → units ≡ row.balance_minor +ℤ signed_amount e.direction e.amount.amount
    → IsInt64 units
    → y.wallets ≡ update_where (at_version e.wallet_id row.version) (set_balance units at) x.wallets
    → y.entries ≡ x.entries ++ entry_row e ∷ []
    → Consistent y
unfolding entry_row
Consistent-moved x y e row units at c known found sum word ws es =
    let same = stored_balance-same e.wallet_id row.version units at x.wallets row found refl in
    let kept = λ (id : Uuid). stored_balance-other e.wallet_id id row.version units at x.wallets in
    let base : row.balance_minor ≡ net_balance e.wallet_id x.entries =
      sym (ap balance_in found) ∙ c.balance e.wallet_id in
    record {
      balance = λ id.
          rw (ws, es, net_balance-row id x.entries (entry_row e) e.direction refl known)
            (elim (Bool-cases (e.wallet_id == id)) [
              | inl p ↦
                  let q : e.wallet_id ≡ id = ground (arith, p) in
                  rw (p, ← q)
                    (same ∙ sum ∙ ap (λ z. z +ℤ signed_amount e.direction e.amount.amount) base)
              | inr p ↦ rw (p, kept id p) (c.balance id ∙ add_zero _)
            ]);
      word = λ id. rw ws (elim (Bool-cases (e.wallet_id == id)) [
        | inl p ↦ let q : e.wallet_id ≡ id = ground (arith, p) in rw (← q, same) word
        | inr p ↦ rw (kept id p) (c.word id)
      ]);
    }
