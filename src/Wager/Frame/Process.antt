-- ===== src/Wager/Frame/Process.antt =====
-- internal/app/wager/service.go: `applyOperation` and `Process` do not touch the inbox.
use junglegaming_backend_cha.Base.{
  ap, arith, Bool-cases, ◌≡◌, Option, ℕ, String, none, some, zero, suc, inl, inr, ◌∙◌,
}
use junglegaming_backend_cha.Wager.Frame.{
  untouched, frames, Frames-reject, Frames-finish_processed, Frames-handle_reference_error,
  Frames-emit, Frames-text_of, Frames-correlation_of,
}
use junglegaming_backend_cha.Store.Inbox.{inbox_of}
use junglegaming_backend_cha.Wager.Service.{
  attempt, process_once, process, by_key_then, by_external_then, retry, process_new,
}
use junglegaming_backend_cha.Wager.{is_retryable, Outcome, Config, ProcessCommand}
use junglegaming_backend_cha.Wallet.{BalanceChange, Wallet}
use junglegaming_backend_cha.Store.{EntryRow, within_transaction, Tables, TransactionRow, Db}
use junglegaming_backend_cha.Store.Transactions.{transaction_row}
use junglegaming_backend_cha.Types.{Time, Uuid}
use junglegaming_backend_cha.Base.Int.{ℤ}
use junglegaming_backend_cha.Wager.Movement.{
  with_reference, apply_reversal, changed_data, apply_kind, move, missing_wallet, referencing,
  reverse_in, conclude_movement, record_movement, apply_operation,
}
use junglegaming_backend_cha.Store.Entries.{entry_row, insert_entry, insert_entry_row}
use junglegaming_backend_cha.Wagering.{Transaction}
use junglegaming_backend_cha.Wager.References.{
  missing_is_pending, check_reversals, resolve_reference,
}
use junglegaming_backend_cha.Store.Wallets.{update_balance, update_balance_rows, get_wallet}
use junglegaming_backend_cha.Store.TransactionQueries.{
  find_reversal, get_by_provider_idempotency_key, get_by_provider_external,
}
use junglegaming_backend_cha.Store.TransactionRepo.{insert_transaction_row, insert_transaction}
use junglegaming_backend_cha.AppErr.{ok, err, Result, Result-cases}
use junglegaming_backend_cha.Ledger.{debit_side, credit_side, Direction, Entry}
use junglegaming_backend_cha.Wagering.Kinds.{loss, bet, win, refund, rollback, opening, other, Kind}
use junglegaming_backend_cha.Store.Frame.{
  Frames, Frames-seq, Frames-fail, Frames-lift, Frames-if, Frames-statement,
  Frames-within_transaction,
}

Frames-find_reversal : (id : Uuid) (k : Kind) → Frames untouched (find_reversal id k)
unfolding find_reversal
Frames-find_reversal id k = search (frames) depth 25

pub Frames-get_by_provider_external :
    (p e : String) → Frames untouched (get_by_provider_external p e)
unfolding get_by_provider_external
Frames-get_by_provider_external p e = search (frames) depth 25

pub Frames-get_by_provider_idempotency_key :
    (p e : String) → Frames untouched (get_by_provider_idempotency_key p e)
unfolding get_by_provider_idempotency_key
Frames-get_by_provider_idempotency_key p e = search (frames) depth 25

Frames-missing_is_pending :
    {A : Type 0} {m : Db A} → Frames untouched m → Frames untouched (missing_is_pending m)
unfolding missing_is_pending
Frames-missing_is_pending {m = m} h = record {
  frame = λ env w. elim (Result-cases (m env w).0) [
    | inl (a, p) ↦ rw (missing_is_pending, p) (h.frame env w)
    | inr (e, p) ↦ rw (missing_is_pending, p) (h.frame env w)
  ];
}

Frames-check_reversals : (t ref : Transaction) → Frames untouched (check_reversals t ref)
unfolding check_reversals
Frames-check_reversals t ref = search (frames, Frames-find_reversal) depth 25

Frames-resolve_reference : (t : Transaction) → Frames untouched (resolve_reference t)
unfolding resolve_reference
Frames-resolve_reference t =
    search
      (frames, Frames-missing_is_pending, Frames-get_by_provider_external, Frames-check_reversals)
      depth 25

update_balance_rows-untouched :
    (w : Wallet) (v : ℤ) (t : Tables) → untouched (update_balance_rows w v t).1 ≡ untouched t
unfolding update_balance_rows
update_balance_rows-untouched w v t = ground arith

Frames-update_balance : (w : Wallet) (v : ℤ) → Frames untouched (update_balance w v)
unfolding update_balance
Frames-update_balance w v = Frames-statement _ _ _ (update_balance_rows-untouched w v)

insert_entry_row-untouched :
    (row : EntryRow) (t : Tables) → untouched (insert_entry_row row t).1 ≡ untouched t
unfolding insert_entry_row
insert_entry_row-untouched row t = ground arith

Frames-insert_entry : (e : Entry) → Frames untouched (insert_entry e)
unfolding insert_entry
Frames-insert_entry e = Frames-statement _ _ _ (insert_entry_row-untouched (entry_row e))

Frames-record_movement :
    (t : Transaction) (v : ℤ) (d : Direction) (ref : Option Transaction) (now : Time) (c : String)
    (change : BalanceChange) (w : Wallet)
    → Frames untouched (record_movement t v d ref now c change w)
unfolding record_movement changed_data
Frames-record_movement t v d ref now c change w =
    search
      (
        frames, Frames-update_balance, Frames-insert_entry, Frames-text_of, Frames-emit,
        Frames-finish_processed,
      )
      depth 30

Frames-conclude_movement :
    (t : Transaction) (w : Wallet) (d : Direction) (ref : Option Transaction) (now : Time)
    (c : String) (r : Result (BalanceChange × Wallet))
    → Frames untouched (conclude_movement t w d ref now c r)
unfolding conclude_movement
Frames-conclude_movement t w d ref now c (ok (change, moved)) =
    Frames-record_movement t w.version d ref now c change moved
Frames-conclude_movement t w d ref now c (err e) = search (frames, Frames-reject)

Frames-move :
    (t : Transaction) (w : Wallet) (d : Direction) (ref : Option Transaction) (now : Time)
    (c : String)
    → Frames untouched (move t w d ref now c)
unfolding move
Frames-move t w d ref now c = Frames-conclude_movement t w d ref now c _

Frames-reverse_in :
    (d : Option Direction) (t : Transaction) (w : Wallet) (ref : Transaction) (now : Time)
    (c : String)
    → Frames untouched (reverse_in d t w ref now c)
unfolding reverse_in
Frames-reverse_in none t w ref now c = Frames-reject t (some w) _ now c
Frames-reverse_in (some d) t w ref now c = Frames-move t w d (some ref) now c

Frames-referencing :
    (config : Config) (t : Transaction) (w : Wallet) (now : Time) (c : String)
    (use_it : Transaction → Db Outcome)
    → ((ref : Transaction) → Frames untouched (use_it ref))
    → Frames untouched (referencing config t w now c use_it)
unfolding referencing with_reference
Frames-referencing config t w now c use_it k = record {
  frame = λ env v.
      let kept = (Frames-resolve_reference t).frame env v in
      let next = (resolve_reference t env v).1 in
      elim (Result-cases (resolve_reference t env v).0) [
        | inl (ref, p) ↦ rw (referencing, p) ((k ref).frame env next ∙ kept)
        | inr (e, p) ↦
            rw (referencing, p)
              ((Frames-handle_reference_error config t w e now c).frame env next ∙ kept)
      ];
}

Frames-apply_kind :
    (config : Config) (k : Kind) (t : Transaction) (w : Wallet) (now : Time) (c : String)
    → Frames untouched (apply_kind config k t w now c)
unfolding apply_kind apply_reversal
Frames-apply_kind config loss t w now c = Frames-finish_processed t _ now c
Frames-apply_kind config bet t w now c = Frames-move t w debit_side none now c
Frames-apply_kind config win t w now c =
    Frames-if _ _ (Frames-move t w credit_side none now c)
      (Frames-referencing config t w now c _ (λ ref. Frames-move t w credit_side (some ref) now c))
Frames-apply_kind config refund t w now c =
    Frames-referencing config t w now c _ (λ ref. Frames-reverse_in _ t w ref now c)
Frames-apply_kind config rollback t w now c =
    Frames-referencing config t w now c _ (λ ref. Frames-reverse_in _ t w ref now c)
Frames-apply_kind config opening t w now c = Frames-fail _ _
Frames-apply_kind config (other raw) t w now c = Frames-fail _ _

Frames-missing_wallet :
    {A : Type 0} {m : Db A} → Frames untouched m → Frames untouched (missing_wallet m)
unfolding missing_wallet
Frames-missing_wallet {m = m} h = record {
  frame = λ env w. elim (Result-cases (m env w).0) [
    | inl (a, p) ↦ rw (missing_wallet, p) (h.frame env w)
    | inr (e, p) ↦ rw (missing_wallet, p) (h.frame env w)
  ];
}

Frames-get_wallet : (id : Uuid) → Frames untouched (get_wallet id)
unfolding get_wallet
Frames-get_wallet id = search (frames) depth 25

pub Frames-apply_operation :
    (config : Config) (t : Transaction) (now : Time) (c : String)
    → Frames untouched (apply_operation config t now c)
unfolding apply_operation
Frames-apply_operation config t now c =
    search (frames, Frames-missing_wallet, Frames-get_wallet, Frames-reject, Frames-apply_kind)
      depth 25

insert_transaction_row-inbox :
    (r : TransactionRow) (t : Tables) → inbox_of (insert_transaction_row r t).1 ≡ inbox_of t
unfolding insert_transaction_row
insert_transaction_row-inbox r t = ground arith

Frames-insert_transaction : (t : Transaction) → Frames inbox_of (insert_transaction t)
unfolding insert_transaction
Frames-insert_transaction t =
    Frames-statement _ _ _ (insert_transaction_row-inbox (transaction_row t))

-- The inbox is a part of what is left alone.
Frames-inbox : {A : Type 0} {m : Db A} → Frames untouched m → Frames inbox_of m
Frames-inbox h = record { frame = λ env w. ap (λ x. x.0) (h.frame env w) }

Frames-process_new :
    (config : Config) (cmd : ProcessCommand) (hash : String) (now : Time)
    → Frames inbox_of (process_new config cmd hash now)
unfolding process_new
Frames-process_new config cmd hash now =
    search
      (
        frames, Frames-insert_transaction, Frames-inbox, Frames-correlation_of,
        Frames-apply_operation,
      )
      depth 25

Frames-attempt : {A : Type 0} {m : Db A} → Frames inbox_of m → Frames inbox_of (attempt m)
unfolding attempt
Frames-attempt h = record { frame = λ env w. h.frame env w }

Frames-by_key_then :
    (cmd : ProcessCommand) (hash : String) (r : Result Transaction) (next : Db Outcome)
    → Frames inbox_of next
    → Frames inbox_of (by_key_then cmd hash r next)
unfolding by_key_then
Frames-by_key_then cmd hash (ok t) next h = search frames
Frames-by_key_then cmd hash (err e) next h = search frames

Frames-by_external_then :
    (hash : String) (r : Result Transaction) (next : Db Outcome)
    → Frames inbox_of next
    → Frames inbox_of (by_external_then hash r next)
unfolding by_external_then
Frames-by_external_then hash (ok t) next h = search frames
Frames-by_external_then hash (err e) next h = search frames

Frames-process_once :
    (config : Config) (cmd : ProcessCommand) (hash : String)
    → Frames inbox_of (process_once config cmd hash)
unfolding process_once
Frames-process_once config cmd hash =
    search
      (
        frames, Frames-inbox, Frames-attempt, Frames-by_key_then, Frames-by_external_then,
        Frames-get_by_provider_external, Frames-get_by_provider_idempotency_key, Frames-process_new,
      )
      depth 25

Frames-retry : {A : Type 0} (n : ℕ) (m : Db A) → Frames inbox_of m → Frames inbox_of (retry n m)
unfolding retry
Frames-retry zero m h = record {
  frame = λ env w.
      let kept = (Frames-within_transaction inbox_of h).frame env w in
      elim (Result-cases (within_transaction m env w).0) [
        | inl (a, p) ↦ rw (retry, p) kept
        | inr (e, p) ↦ rw (retry, p) kept
      ];
}
Frames-retry (suc n) m h = record {
  frame = λ env w.
      let kept = (Frames-within_transaction inbox_of h).frame env w in
      elim (Result-cases (within_transaction m env w).0) [
        | inl (a, p) ↦ rw (retry, p) kept
        | inr (e, p) ↦ elim (Bool-cases (is_retryable e)) [
          | inl q ↦ rw (retry, p, q) ((Frames-retry n m h).frame env _ ∙ kept)
          | inr q ↦ rw (retry, p, q) kept
        ]
      ];
}

-- What comes in a round of `process` does not reach the inbox.
pub Frames-process : (config : Config) (cmd : ProcessCommand) → Frames inbox_of (process config cmd)
unfolding process
Frames-process config cmd = Frames-seq _ (Frames-lift _ _) (record {
  frame = λ env w.
      (Frames-retry config.max_wallet_retries _ (Frames-process_once config cmd _)).frame env w;
})
