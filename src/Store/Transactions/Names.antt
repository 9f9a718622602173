-- ===== src/Store/Transactions/Names.antt =====
-- internal/adapters/postgres/transaction_repo.go: the requests of the stored transactions, and the
-- lookups that find one.
use junglegaming_backend_cha.Wagering.{invalid, is_nil_balance, Transaction, rehydrate}
use junglegaming_backend_cha.Store.{Tables, column_eq, TransactionRow}
use junglegaming_backend_cha.Types.{is_zero_time, nil_uuid}
use junglegaming_backend_cha.Base.{
  ◌++◌, string_eq, nat_eq, ◌&&◌, not, ◌||◌, ◌==◌, ap, select-passes, sym, Option, true, List, Bool,
  ◌≡◌, String, [], ◌∷◌, none, some, inl, inr, arith, eq_iff, Bool-cases, select, In, refl,
  update_where,
}
use junglegaming_backend_cha.Store.TransactionQueries.{by_key, by_external}
use junglegaming_backend_cha.Store.Transactions.RoundTrip.{deref_string-nullable_string}
use junglegaming_backend_cha.Wagering.Kinds.{parse_kind, is_loss}
use junglegaming_backend_cha.AppErr.{ok, guard-inv, >>=-eq-ok}
use junglegaming_backend_cha.Wagering.Statuses.{
  parse_status, is_unsuccessful, is_processed, is_terminal,
}
use junglegaming_backend_cha.Base.Int.{pos, ltb_ℤ}
use junglegaming_backend_cha.Money.{is_valid, from_minor_units, new_currency}
use junglegaming_backend_cha.Store.Transactions.{
  scan_transaction, scan_row, deref_string, read_balance, transaction_row,
}
use mathlib.Core.List.{map}
use mathlib.Core.Path.{subst}

-- The provider, the external id and the payload hash of a stored request.
abbrev pub Name : Type 0
Name = String × (String × String)

abbrev pub name_of : TransactionRow → Name
name_of r = (
  deref_string r.provider_id,
  (deref_string r.external_transaction_id, deref_string r.payload_hash),
)

abbrev pub names_of : Tables → List Name
names_of t = map name_of t.transactions

pub names-update_where :
    (p : TransactionRow → Bool) (f : TransactionRow → TransactionRow) (rows : List TransactionRow)
    → ((r : TransactionRow) → name_of (f r) ≡ name_of r)
    → map name_of (update_where p f rows) ≡ map name_of rows
unfolding update_where
names-update_where p f [] h = refl
names-update_where p f (r ∷ rows) h =
    let rest = names-update_where p f rows h in
    let same = h r in
    elim (Bool-cases (p r)) [ inl e ↦ rw (e, same, rest) refl | inr e ↦ rw (e, rest) refl ]

-- A row that a lookup has found is among the rows.
select-In :
    (p : TransactionRow → Bool) (rows : List TransactionRow) (r : TransactionRow)
    → select p rows ≡ some r
    → In (name_of r) (map name_of rows)
unfolding select
select-In p [] r h = cc
select-In p (x ∷ rows) r h = elim (Bool-cases (p x)) [
  | inl e ↦ let same : x ≡ r = ground (arith, h, e) in inl (ap name_of (sym same))
  | inr e ↦ inr (select-In p rows r (ground (arith, h, e)))
]

rehydrate-same : (params t : Transaction) → rehydrate params ≡ ok t → params ≡ t
unfolding rehydrate
rehydrate-same params t h0 =
    let (c1, h1) = guard-inv (params.id == nil_uuid) invalid _ h0 in
    let (c2, h2) =
      guard-inv (params.wallet_id == nil_uuid || params.player_id == nil_uuid) invalid _ h1 in
    let (c3, h3) = guard-inv (not (is_valid params.amount)) invalid _ h2 in
    let (c4, h4) = guard-inv (ltb_ℤ params.attempts (pos 0)) invalid _ h3 in
    let (c5, h5) =
      guard-inv
        (is_terminal params.status
          && is_nil_balance params.result_balance
          && is_processed params.status
          && not (is_loss params.kind))
        invalid _ h4 in
    let (c6, h6) =
      guard-inv (is_unsuccessful params.status && params.failure_code == "") invalid _ h5 in
    let (c7, h7) =
      guard-inv (is_zero_time params.created_at || is_zero_time params.updated_at) invalid _ h6 in
    cc h7

-- What is read from a row has its external id and its payload hash.
scan_row-named :
    (r : TransactionRow) (t : Transaction)
    → scan_row r ≡ ok t
    → (t.external_transaction_id ≡ deref_string r.external_transaction_id)
      × (t.payload_hash ≡ deref_string r.payload_hash)
unfolding scan_row
scan_row-named r t h0 =
    let (cur, e1, h1) = >>=-eq-ok (new_currency r.currency) _ h0 in
    let (amount, e2, h2) = >>=-eq-ok (from_minor_units r.amount_minor cur) _ h1 in
    let (balance, e3, h3) = >>=-eq-ok (read_balance r.result_balance_minor cur) _ h2 in
    let (kind, e4, h4) = >>=-eq-ok (parse_kind r.kind) _ h3 in
    let (status, e5, h5) = >>=-eq-ok (parse_status r.status) _ h4 in
    let same = rehydrate-same _ t h5 in
    (
      sym (ap (λ (x : Transaction). x.external_transaction_id) same),
      sym (ap (λ (x : Transaction). x.payload_hash) same),
    )

deref_column : (c : Option String) (s : String) → column_eq c s ≡ true → deref_string c ≡ s
unfolding deref_string
deref_column none s h = cc h
deref_column (some c) s h = (eq_iff c s).0 h

-- A transaction of this provider that the lookup has found is stored.
abbrev pub IsFound : String → Transaction → List Name → Type 0
IsFound provider t names = In (provider, (t.external_transaction_id, t.payload_hash)) names

pub scan_transaction-IsFound :
    (p : TransactionRow → Bool) (rows : List TransactionRow) (t : Transaction)
    → scan_transaction (select p rows) ≡ ok t
    → (r : TransactionRow) × (p r ≡ true)
      × (t.external_transaction_id ≡ deref_string r.external_transaction_id)
      × IsFound (deref_string r.provider_id) t (map name_of rows)
unfolding scan_transaction
scan_transaction-IsFound p rows t h = found (select p rows) refl h
  where
    found :
        (o : Option TransactionRow)
        → select p rows ≡ o
        → scan_transaction o ≡ ok t
        → (r : TransactionRow) × (p r ≡ true)
          × (t.external_transaction_id ≡ deref_string r.external_transaction_id)
          × IsFound (deref_string r.provider_id) t (map name_of rows)
    found none e k = cc k
    found (some r) e k =
        let (external, hash) = scan_row-named r t k in
        (
          r,
          select-passes p rows r e,
          external,
          subst (λ n. In n (map name_of rows)) (rw (external, hash) refl) (select-In p rows r e),
        )

pub by_external-named :
    (provider external : String) (r : TransactionRow)
    → by_external provider external r ≡ true
    → (deref_string r.provider_id ≡ provider) × (deref_string r.external_transaction_id ≡ external)
by_external-named provider external r h =
    let both : (column_eq r.provider_id provider ≡ true)
        × (column_eq r.external_transaction_id external ≡ true) =
      ground (arith, h) in
    (deref_column _ _ both.0, deref_column _ _ both.1)

pub by_key-named :
    (provider key : String) (r : TransactionRow)
    → by_key provider key r ≡ true
    → deref_string r.provider_id ≡ provider
by_key-named provider key r h = deref_column _ _ (ground (arith, h))

pub In-appended :
    (rows : List TransactionRow) (r : TransactionRow)
    → In (name_of r) (map name_of (rows ++ r ∷ []))
In-appended [] r = inl refl
In-appended (x ∷ rows) r = inr (In-appended rows r)

pub name_of-transaction_row :
    (t : Transaction)
    → name_of (transaction_row t) ≡ (t.provider_id, (t.external_transaction_id, t.payload_hash))
unfolding transaction_row
name_of-transaction_row t =
    rw
      (
        deref_string-nullable_string t.provider_id,
        deref_string-nullable_string t.external_transaction_id,
        deref_string-nullable_string t.payload_hash,
      )
      refl
