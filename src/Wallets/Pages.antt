-- ===== src/Wallets/Pages.antt =====
-- internal/adapters/httpapi/wallets.go: the cursor of a page of the ledger. A client follows the
-- cursors of internal/app/wallets/service.go's `Ledger`.
pub mod Cut
pub mod Complete
use junglegaming_backend_cha.Base.{
  ℕ, zero, suc, List, [], ◌∷◌, ◌++◌, Option, none, some, if◌then◌else◌,
}
use junglegaming_backend_cha.Base.Int.{ℤ}
use junglegaming_backend_cha.Types.{Uuid}
use junglegaming_backend_cha.Ledger.{Entry}
use junglegaming_backend_cha.Store.{◌>>=◌, pure, Db}
use junglegaming_backend_cha.Store.Pages.{LedgerCursor, LedgerPage}
use junglegaming_backend_cha.Wallets.{ledger_page}

-- `NextCursor`: the position of the last entry of a page, if there are more.
unfoldable pub last_cursor : List Entry → Option LedgerCursor
last_cursor [] = none
last_cursor (e ∷ []) = some (record { created_at = e.created_at; id = e.id })
last_cursor (e ∷ f ∷ es) = last_cursor (f ∷ es)

unfoldable pub next_cursor : LedgerPage → Option LedgerCursor
unfolding last_cursor
next_cursor page = if page.has_more then last_cursor page.entries else none

-- What a client reads at the cursor that it was given, if any.
unfoldable pub onward : (LedgerCursor → Db (List Entry)) → Option LedgerCursor → Db (List Entry)
onward read none = pure []
onward read (some c) = read c

-- A client that follows the cursors, for at most so many pages: the entries of all of them.
unfoldable pub walk : ℕ → Uuid → ℤ → Option LedgerCursor → Db (List Entry)
unfolding next_cursor onward
walk zero id limit cursor = pure []
walk (suc n) id limit cursor = do
  page ← ledger_page id cursor limit
  rest ← onward (λ c. walk n id limit (some c)) (next_cursor page)
  pure (page.entries ++ rest)
