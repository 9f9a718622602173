-- ===== src/Wallets/Pages/Complete.antt =====
-- internal/app/wallets/service.go, internal/adapters/postgres/ledger_repo.go: a client that follows
-- the cursors reads the ledger of a wallet once, from the newest entry to the oldest.
use mathlib.Core.Path.{subst}
use mathlib.Core.List.{append-nil, append_assoc}
use junglegaming_backend_cha.Base.{
  List, ◌≡◌, refl, sym, ap, ◌∙◌, arith, ℕ, zero, suc, Option, none, some, [], ◌∷◌, ◌++◌, ◌≤◌, ◌<◌,
  length, take, select, nat_eq, sorted_where, keep_after, sorted_where-keep, sorted_where-IsSorted,
  IsSorted, keep, IsOrder, IsComparable, ◌⊎◌, inl, inr,
}
use junglegaming_backend_cha.Base.Int.{ℤ}
use junglegaming_backend_cha.AppErr.{ok}
use junglegaming_backend_cha.Types.{Uuid}
use junglegaming_backend_cha.Ledger.{Entry}
use junglegaming_backend_cha.Wallet.{Wallet}
use junglegaming_backend_cha.Store.{Env, World, EntryRow, Tables, Db, pure, ◌>>=◌}
use junglegaming_backend_cha.Store.Answers.{
  IsHealthy, Answers, query-Answers, bind-Answers, seq-Answers, pure-Answers,
}
use junglegaming_backend_cha.Store.Wallets.{scan_wallet, by_id, get_wallet}
use junglegaming_backend_cha.Store.Pages.{
  LedgerCursor, LedgerPage, list_limit, newer, of_wallet, on_page, row_cursor, scan_entries,
  page_of, page_rows, read_page, list_by_wallet,
}
use junglegaming_backend_cha.Wallets.{ledger_page, page_limit}
use junglegaming_backend_cha.Wallets.Pages.{next_cursor, onward, walk}
use junglegaming_backend_cha.Wallets.Pages.Cut.{
  page_split, page_of-all, page_of-more, scan_entries-take,
}

newer-IsOrder : IsOrder newer
newer-IsOrder = record { apart = λ x. ground arith; trans = λ x y z h k. ground (arith, h, k) }

list_limit_positive : (limit : ℤ) → 1 ≤ list_limit (page_limit limit)
unfolding list_limit page_limit
list_limit_positive limit = ground arith

predecessor : (n : ℕ) → 1 ≤ n → (k : ℕ) × (n ≡ suc k)
predecessor zero h = absurd (omega arith)
predecessor (suc k) h = (k, refl)

le_or_lt : (m n : ℕ) → (m ≤ n) ⊎ (n < m)
le_or_lt zero n = inl (omega arith)
le_or_lt (suc m) zero = inr (omega arith)
le_or_lt (suc m) (suc n) = elim (le_or_lt m n) [
  | inl h ↦ inl (omega arith)
  | inr h ↦ inr (omega arith)
]

-- A list in three parts, with the parts before a row put together.
regroup :
    (xs ys zs : List EntryRow) (c : EntryRow) → xs ++ (ys ++ c ∷ zs) ≡ (xs ++ ys ++ c ∷ []) ++ zs
regroup [] [] zs c = refl
regroup [] (y ∷ ys) zs c = ap (λ l. y ∷ l) (regroup [] ys zs c)
regroup (x ∷ xs) ys zs c = ap (λ l. x ∷ l) (regroup xs ys zs c)

module _ (env : Env) (healthy : IsHealthy env) (before : Tables) (id : Uuid) (limit : ℤ)
    (wallet : Wallet) (found : scan_wallet (select (by_id id) before.wallets) ≡ ok wallet)
    (comparable : IsComparable newer before.entries) where
  read_page-read :
      (cursor : Option LedgerCursor) (n : ℕ) (es : List Entry)
      → scan_entries (sorted_where newer (on_page id cursor) before.entries) ≡ ok es
      → read_page id cursor n before.entries ≡ ok (page_of n (take (suc n) es))
  unfolding read_page page_rows
  read_page-read cursor n es read =
      let rows = sorted_where newer (on_page id cursor) before.entries in
      rw (scan_entries-take (suc n) rows es read) refl

  -- The page at a cursor, from what is read at the cursor.
  ledger_page-Answers :
      (cursor : Option LedgerCursor) (n : ℕ) (es : List Entry)
      → list_limit (page_limit limit) ≡ n
      → scan_entries (sorted_where newer (on_page id cursor) before.entries) ≡ ok es
      → Answers env healthy before (ledger_page id cursor limit) (ok (page_of n (take (suc n) es)))
  unfolding ledger_page list_by_wallet read_page page_rows get_wallet
  ledger_page-Answers cursor n es size read =
      seq-Answers env healthy before (get_wallet id) (list_by_wallet id cursor (page_limit limit))
        wallet (ok (page_of n (take (suc n) es)))
        (rw (← found) (
          query-Answers env healthy before "postgres: scan wallet"
            (λ t. scan_wallet (select (by_id id) t.wallets))))
        (rw (← read_page-read cursor n es read) (
          rw (← size) (
            query-Answers env healthy before "postgres: list ledger"
              (λ t. read_page id cursor (list_limit (page_limit limit)) t.entries))))

  -- The rows below a row are those after it.
  below-rest :
      (xs ys : List EntryRow) (c : EntryRow)
      → sorted_where newer (of_wallet id) before.entries ≡ xs ++ c ∷ ys
      → sorted_where newer (on_page id (some (row_cursor c))) before.entries ≡ ys
  below-rest xs ys c split =
      let rows = before.entries in
      let whole = sorted_where-IsSorted newer newer-IsOrder (of_wallet id) rows comparable in
      sorted_where-keep newer newer-IsOrder (of_wallet id) (newer c) rows comparable
      ∙ ap (keep (newer c)) split
      ∙ keep_after newer newer-IsOrder xs ys c (subst (IsSorted newer) split whole)

  -- The page is the last one, or the client goes on.
  stop :
      (read : LedgerCursor → Db (List Entry)) (page : LedgerPage)
      → next_cursor page ≡ none
      → Answers env healthy before (onward read (next_cursor page)) (ok [])
  unfolding onward
  stop read page e = rw e (pure-Answers env healthy before [])

  go_on :
      (read : LedgerCursor → Db (List Entry)) (page : LedgerPage) (c : LedgerCursor)
      (rest : List Entry)
      → next_cursor page ≡ some c
      → Answers env healthy before (read c) (ok rest)
      → Answers env healthy before (onward read (next_cursor page)) (ok rest)
  unfolding onward
  go_on read page c rest e h = rw e h

  -- The first page, and what comes after it.
  walk_step :
      (n : ℕ) (cursor : Option LedgerCursor) (page : LedgerPage) (rest es : List Entry)
      → Answers env healthy before (ledger_page id cursor limit) (ok page)
      → Answers env healthy before
          (onward (λ c. walk n id limit (some c)) (next_cursor page))
          (ok rest)
      → es ≡ page.entries ++ rest
      → Answers env healthy before (walk (suc n) id limit cursor) (ok es)
  unfolding walk
  walk_step n cursor page rest es first later e =
      let onward_here = onward (λ c. walk n id limit (some c)) in
      bind-Answers env healthy before (ledger_page id cursor limit)
        (λ q. onward_here (next_cursor q) >>= (λ r. pure (q.entries ++ r))) page (ok es) first
        (bind-Answers env healthy before (onward_here (next_cursor page))
          (λ r. pure (page.entries ++ r)) rest (ok es) later
          (rw e (pure-Answers env healthy before (page.entries ++ rest))))

  -- From a cursor on, a client reads what the listing has after it.
  walk_from :
      (n k : ℕ) (cursor : Option LedgerCursor) (xs ys : List EntryRow) (es : List Entry)
      → list_limit (page_limit limit) ≡ suc k
      → sorted_where newer (of_wallet id) before.entries ≡ xs ++ ys
      → sorted_where newer (on_page id cursor) before.entries ≡ ys
      → scan_entries ys ≡ ok es
      → length es < n
      → Answers env healthy before (walk n id limit cursor) (ok es)
  unfolding next_cursor
  walk_from zero k cursor xs ys es size split here read short = absurd (omega arith)
  walk_from (suc n) k cursor xs ys es size split here read short =
      let page = page_of (suc k) (take (suc (suc k)) es) in
      let first = ledger_page-Answers cursor (suc k) es size (rw here read) in
      elim (le_or_lt (length es) (suc k)) [
        | inl all ↦
            let one = page_of-all (suc k) es all in
            walk_step n cursor page [] es first
              (stop (λ c. walk n id limit (some c)) page (rw one refl))
              (rw one (sym (append-nil es)))
        | inr more ↦
            let cut = page_split k ys es read (omega arith) in
            let part = page_of-more (suc k) es more in
            let next = row_cursor cut.last in
            let whole = split ∙ ap (λ l. xs ++ l) cut.rows_split in
            let read_on =
              walk_from n k (some next) (xs ++ cut.front ++ cut.last ∷ []) cut.back cut.rest size
                (whole ∙ regroup xs cut.front cut.back cut.last)
                (below-rest (xs ++ cut.front) cut.back cut.last
                  (whole ∙ sym (append_assoc xs cut.front (cut.last ∷ cut.back))))
                cut.rest_read (let s = cut.shorter in omega arith) in
            walk_step n cursor page cut.rest es first
              (go_on (λ c. walk n id limit (some c)) page next cut.rest (rw part cut.position)
                read_on)
              (rw part cut.entries_split)
      ]

-- Over a working database, with a wallet that can be read, a client that starts with no cursor and
-- follows the cursors with any limit, for more pages than the wallet has entries, reads the listing
-- of the wallet: the entries that `ORDER BY` without `LIMIT` returns, each once and newest first.
-- No table changes. Any two stored entries are to differ in instant or id, and the wallet's entries
-- are to be readable.
pub pages_complete :
    (env : Env) (w : World) (id : Uuid) (limit : ℤ) (n : ℕ) (wallet : Wallet) (es : List Entry)
    → IsHealthy env
    → scan_wallet (select (by_id id) w.tables.wallets) ≡ ok wallet
    → IsComparable newer w.tables.entries
    → scan_entries (sorted_where newer (of_wallet id) w.tables.entries) ≡ ok es
    → length es < n
    → ((walk n id limit none env w).0 ≡ ok es) × ((walk n id limit none env w).1.tables ≡ w.tables)
pages_complete env w id limit n wallet es healthy found comparable read short =
    let (k, size) = predecessor (list_limit (page_limit limit)) (list_limit_positive limit) in
    walk_from env healthy w.tables id limit wallet found comparable n k none []
      (sorted_where newer (of_wallet id) w.tables.entries) es size refl refl read short w refl
