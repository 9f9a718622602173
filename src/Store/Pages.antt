-- ===== src/Store/Pages.antt =====
-- internal/adapters/postgres/ledger_repo.go: `ListByWallet`.
use junglegaming_backend_cha.Base.{
  ℕ, suc, Bool, true, false, ◌&&◌, ◌||◌, List, [], ◌∷◌, Option, none, some, if◌then◌else◌, ◌==◌,
  nat_eq, ltb, length, take, sorted_where,
}
use junglegaming_backend_cha.Base.Int.{ℤ, pos, leb_ℤ, ltb_ℤ, pos_part}
use junglegaming_backend_cha.AppErr.{Result, ok, ◌>>=◌}
use junglegaming_backend_cha.Types.{Uuid, Time, before}
use junglegaming_backend_cha.Money.{new_currency, from_minor_units}
use junglegaming_backend_cha.Ledger.{Entry, parse_direction, new_entry}
use junglegaming_backend_cha.Store.{EntryRow, Db, query}

-- `ports.LedgerCursor`
pub record LedgerCursor : Type 0 where
  pub created_at : Time
  pub id : Uuid

-- `ports.LedgerPage`
pub record LedgerPage : Type 0 where
  pub entries : List Entry
  pub has_more : Bool

-- `(created_at, id) < ($2, $3)`
abbrev pub is_below : LedgerCursor → EntryRow → Bool
is_below c r = before r.created_at c.created_at || r.created_at == c.created_at && ltb r.id c.id

abbrev pub row_cursor : EntryRow → LedgerCursor
row_cursor r = record { created_at = r.created_at; id = r.id }

-- `ORDER BY created_at DESC, id DESC`: whether `a` is to come before `b`.
abbrev pub newer : EntryRow → EntryRow → Bool
newer a b = is_below (row_cursor a) b

abbrev pub of_wallet : Uuid → EntryRow → Bool
of_wallet id r = r.wallet_id == id

-- The two `WHERE` clauses: a nil cursor is `none`.
abbrev pub on_page : Uuid → Option LedgerCursor → EntryRow → Bool
on_page id none r = of_wallet id r
on_page id (some c) r = of_wallet id r && is_below c r

-- `scanLedgerEntry`
unfoldable pub scan_ledger_entry : EntryRow → Result Entry
scan_ledger_entry r = do
  cur ← new_currency r.currency
  amount ← from_minor_units r.amount_minor cur
  balance_before ← from_minor_units r.balance_before_minor cur
  balance_after ← from_minor_units r.balance_after_minor cur
  direction ← parse_direction r.direction
  new_entry r.id r.wallet_id r.transaction_id direction amount balance_before balance_after
      r.created_at

-- The loop over the rows.
unfoldable pub scan_entries : List EntryRow → Result (List Entry)
unfolding scan_ledger_entry
scan_entries [] = ok []
scan_entries (r ∷ rows) = do
  entry ← scan_ledger_entry r
  entries ← scan_entries rows
  ok (entry ∷ entries)

-- One row more than the limit says that there is more.
unfoldable pub page_of : ℕ → List Entry → LedgerPage
page_of limit entries =
    if ltb limit (length entries)
    then record { entries = take limit entries; has_more = true }
    else record { entries = entries; has_more = false }

-- `if limit <= 0 || limit > 500 { limit = 50 }`
unfoldable pub list_limit : ℤ → ℕ
list_limit limit = if leb_ℤ limit (pos 0) || ltb_ℤ (pos 500) limit then 50 else pos_part limit

-- The rows that the query returns.
unfoldable pub page_rows : Uuid → Option LedgerCursor → ℕ → List EntryRow → List EntryRow
page_rows id cursor limit rows = take (suc limit) (sorted_where newer (on_page id cursor) rows)

unfoldable pub read_page : Uuid → Option LedgerCursor → ℕ → List EntryRow → Result LedgerPage
unfolding page_rows scan_entries page_of
read_page id cursor limit rows = do
  entries ← scan_entries (page_rows id cursor limit rows)
  ok (page_of limit entries)

-- `ListByWallet`
unfoldable pub list_by_wallet : Uuid → Option LedgerCursor → ℤ → Db LedgerPage
unfolding read_page list_limit
list_by_wallet id cursor limit =
    query "postgres: list ledger" (λ t. read_page id cursor (list_limit limit) t.entries)
