-- ===== src/Wallets/Pages/Cut.antt =====
-- internal/adapters/postgres/ledger_repo.go: a listing of the ledger and its first page.
use junglegaming_backend_cha.Wallets.Pages.{last_cursor}
use junglegaming_backend_cha.Ledger.{Direction, Entry, parse_direction, new_entry}
use junglegaming_backend_cha.Money.{Money, new_currency, from_minor_units}
use junglegaming_backend_cha.Base.{
  ℕ, zero, suc, ◌≤◌, ◌<◌, true, false, List, [], ◌∷◌, ◌++◌, some, nat_eq, length, take, ◌≡◌, refl,
  ap, arith, inl, inr,
}
use junglegaming_backend_cha.AppErr.{ok, Result-cases}
use junglegaming_backend_cha.Store.{EntryRow}
use junglegaming_backend_cha.Store.Pages.{
  LedgerCursor, row_cursor, scan_ledger_entry, scan_entries, page_of,
}

-- Taking no more than there is.
take-length : {A : Type 0} (n : ℕ) (xs : List A) → length xs ≤ n → take n xs ≡ xs
unfolding take
take-length zero [] h = refl
take-length zero (x ∷ xs) h = absurd (omega arith)
take-length (suc n) [] h = refl
take-length (suc n) (x ∷ xs) h = ap (λ ys. x ∷ ys) (take-length n xs (omega arith))

take-take : {A : Type 0} (n : ℕ) (xs : List A) → take n (take (suc n) xs) ≡ take n xs
unfolding take
take-take zero xs = refl
take-take (suc n) [] = refl
take-take (suc n) (x ∷ xs) = ap (λ ys. x ∷ ys) (take-take n xs)

longer-take : {A : Type 0} (n : ℕ) (xs : List A) → n < length xs → n < length (take (suc n) xs)
unfolding take
longer-take n [] h = absurd (omega arith)
longer-take zero (x ∷ xs) h = omega arith
longer-take (suc n) (x ∷ xs) h = let k = longer-take n xs (omega arith) in omega arith

-- The page of a listing: all of it, or its beginning.
pub page_of-all :
    (n : ℕ) (es : List Entry)
    → length es ≤ n
    → page_of n (take (suc n) es) ≡ record { entries = es; has_more = false }
unfolding page_of
page_of-all n es h =
    let whole = take-length (suc n) es (omega arith) in rw whole (ground (arith, h))

pub page_of-more :
    (n : ℕ) (es : List Entry)
    → n < length es
    → page_of n (take (suc n) es) ≡ record { entries = take n es; has_more = true }
unfolding page_of
page_of-more n es h = let long = longer-take n es h in rw (← take-take n es) (ground (arith, long))

-- The rows that were read, one by one.
scan_entries-cons :
    (r : EntryRow) (rows : List EntryRow) (es : List Entry)
    → scan_entries (r ∷ rows) ≡ ok es
    → (e : Entry) × (fs : List Entry) × (scan_ledger_entry r ≡ ok e)
      × (scan_entries rows ≡ ok fs)
      × (es ≡ e ∷ fs)
unfolding scan_entries
scan_entries-cons r rows es h = elim (Result-cases (scan_ledger_entry r)) [
  | inr (x, p) ↦ absurd (ground (arith, h, p))
  | inl (e, p) ↦ elim (Result-cases (scan_entries rows)) [
    | inr (x, q) ↦ absurd (ground (arith, h, p, q))
    | inl (fs, q) ↦ (e, fs, p, q, ground (arith, h, p, q))
  ]
]

pub scan_entries-take :
    (n : ℕ) (rows : List EntryRow) (es : List Entry)
    → scan_entries rows ≡ ok es
    → scan_entries (take n rows) ≡ ok (take n es)
unfolding take scan_entries
scan_entries-take zero rows es h = refl
scan_entries-take (suc n) [] es h = ground (arith, h)
scan_entries-take (suc n) (r ∷ rows) es h =
    let (e, fs, p, q, same) = scan_entries-cons r rows es h in
    rw (same, p, scan_entries-take n rows fs q) refl

built :
    (r : EntryRow) (d : Direction) (a b c : Money) (e : Entry)
    → new_entry r.id r.wallet_id r.transaction_id d a b c r.created_at ≡ ok e
    → (e.created_at ≡ r.created_at) × (e.id ≡ r.id)
unfolding new_entry
built r d a b c e h = ground (arith, h)

-- An entry is at the position of its row.
scan_ledger_entry-cursor :
    (r : EntryRow) (e : Entry)
    → scan_ledger_entry r ≡ ok e
    → (e.created_at ≡ r.created_at) × (e.id ≡ r.id)
unfolding scan_ledger_entry new_entry
scan_ledger_entry-cursor r e h = elim (Result-cases (new_currency r.currency)) [
  | inr (x, p) ↦ absurd (ground (arith, h, p))
  | inl (cur, p) ↦ elim (Result-cases (from_minor_units r.amount_minor cur)) [
    | inr (x, q) ↦ absurd (ground (arith, h, p, q))
    | inl (a, q) ↦ elim (Result-cases (from_minor_units r.balance_before_minor cur)) [
      | inr (x, s) ↦ absurd (ground (arith, h, p, q, s))
      | inl (b, s) ↦ elim (Result-cases (from_minor_units r.balance_after_minor cur)) [
        | inr (x, t) ↦ absurd (ground (arith, h, p, q, s, t))
        | inl (c, t) ↦ elim (Result-cases (parse_direction r.direction)) [
          | inr (x, u) ↦ absurd (ground (arith, h, p, q, s, t, u))
          | inl (d, u) ↦ built r d a b c e (ground (arith, h, p, q, s, t, u))
        ]
      ]
    ]
  ]
]

-- A listing longer than a page of n + 1 entries: the page ends with the entry of some row, at the
-- cursor of the page, and the rest is what is read from the rows after it.
pub record Cut (n : ℕ) (rows : List EntryRow) (es : List Entry) : Type 0 where
  pub front : List EntryRow
  pub last : EntryRow
  pub back : List EntryRow
  pub rest : List Entry
  pub rows_split : rows ≡ front ++ last ∷ back
  pub rest_read : scan_entries back ≡ ok rest
  pub entries_split : es ≡ take (suc n) es ++ rest
  pub position : last_cursor (take (suc n) es) ≡ some (row_cursor last)
  pub shorter : length rest < length es

last_cursor-cons :
    (e : Entry) (es : List Entry) (c : LedgerCursor)
    → last_cursor es ≡ some c
    → last_cursor (e ∷ es) ≡ some c
unfolding last_cursor
last_cursor-cons e [] c h = absurd (ground (arith, h))
last_cursor-cons e (f ∷ es) c h = h

pub page_split :
    (n : ℕ) (rows : List EntryRow) (es : List Entry)
    → scan_entries rows ≡ ok es
    → n < length es
    → Cut n rows es
unfolding take last_cursor scan_entries
page_split n [] es h k = absurd (ground (arith, h, k))
page_split zero (r ∷ rows) es h k =
    let (e, fs, p, q, same) = scan_entries-cons r rows es h in
    let (at, id) = scan_ledger_entry-cursor r e p in
    rw same (record {
      front = [];
      last = r;
      back = rows;
      rest = fs;
      rows_split = refl;
      rest_read = q;
      entries_split = refl;
      position = ground (arith, at, id);
      shorter = omega arith;
    })
page_split (suc n) (r ∷ rows) es h k =
    let (e, fs, p, q, same) = scan_entries-cons r rows es h in
    let c = page_split n rows fs q (ground (arith, k, same)) in
    rw same (record {
      front = r ∷ c.front;
      last = c.last;
      back = c.back;
      rest = c.rest;
      rows_split = ap (λ l. r ∷ l) c.rows_split;
      rest_read = c.rest_read;
      entries_split = ap (λ l. e ∷ l) c.entries_split;
      position = last_cursor-cons e (take (suc n) fs) (row_cursor c.last) c.position;
      shorter = let s = c.shorter in omega arith;
    })
