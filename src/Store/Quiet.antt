-- ===== src/Store/Quiet.antt =====
-- internal/adapters/postgres: the statements on transactions and events, and the queries.
use junglegaming_backend_cha.Base.{none, refl, some, arith, ◌≡◌}
use junglegaming_backend_cha.Wagering.Kinds.{Kind}
use junglegaming_backend_cha.Types.{Time, Uuid}
use junglegaming_backend_cha.Store.{
  Option, TransactionRow, String, OutboxRow, Tables, draw, now_from_clock,
}
use junglegaming_backend_cha.Store.Transactions.{transaction_row}
use junglegaming_backend_cha.Store.Outbox.{OutboxEvent, insert_event, insert_event_row}
use junglegaming_backend_cha.Wagering.{Transaction}
use junglegaming_backend_cha.Store.TransactionQueries.{
  get_by_provider_external, get_by_provider_idempotency_key, get_transaction, find_reversal,
  wake_dependents,
}
use junglegaming_backend_cha.Store.TransactionRepo.{
  update_found, insert_transaction_row, insert_transaction, update_transaction,
}
use junglegaming_backend_cha.Store.Hoare.{Quiet, Quiet-query, Quiet-statement, accounts}

pub Quiet-draw : Quiet draw
unfolding draw
Quiet-draw = record { quiet = λ x. record { run = λ env w e. e } }

pub Quiet-now_from_clock : Quiet now_from_clock
unfolding now_from_clock
Quiet-now_from_clock = record { quiet = λ x. record { run = λ env w e. e } }

insert_transaction_row-accounts :
    (r : TransactionRow) (t : Tables) → accounts (insert_transaction_row r t).1 ≡ accounts t
unfolding insert_transaction_row
insert_transaction_row-accounts r t = ground arith

pub Quiet-insert_transaction : (t : Transaction) → Quiet (insert_transaction t)
unfolding insert_transaction
Quiet-insert_transaction t =
    Quiet-statement _ _ (insert_transaction_row-accounts (transaction_row t))

update_found-accounts :
    (new : TransactionRow) (old : Option TransactionRow) (t : Tables)
    → accounts (update_found new old t).1 ≡ accounts t
unfolding update_found
update_found-accounts new none t = refl
update_found-accounts new (some old) t = ground arith

pub Quiet-update_transaction : (t : Transaction) → Quiet (update_transaction t)
unfolding update_transaction
Quiet-update_transaction t =
    Quiet-statement _ _ (λ tables. update_found-accounts (transaction_row t) _ tables)

pub Quiet-get_transaction : (id : Uuid) → Quiet (get_transaction id)
unfolding get_transaction
Quiet-get_transaction id = Quiet-query _ _

pub Quiet-get_by_provider_external : (p e : String) → Quiet (get_by_provider_external p e)
unfolding get_by_provider_external
Quiet-get_by_provider_external p e = Quiet-query _ _

pub Quiet-get_by_provider_idempotency_key :
    (p k : String) → Quiet (get_by_provider_idempotency_key p k)
unfolding get_by_provider_idempotency_key
Quiet-get_by_provider_idempotency_key p k = Quiet-query _ _

pub Quiet-find_reversal : (id : Uuid) (k : Kind) → Quiet (find_reversal id k)
unfolding find_reversal
Quiet-find_reversal id k = Quiet-query _ _

pub Quiet-wake_dependents : (p e : String) (now : Time) → Quiet (wake_dependents p e now)
unfolding wake_dependents
Quiet-wake_dependents p e now = Quiet-statement _ _ (λ t. refl)

insert_event_row-accounts :
    (r : OutboxRow) (t : Tables) → accounts (insert_event_row r t).1 ≡ accounts t
unfolding insert_event_row
insert_event_row-accounts r t = ground arith

pub Quiet-insert_event : (e : OutboxEvent) → Quiet (insert_event e)
unfolding insert_event
Quiet-insert_event e = Quiet-statement _ _ (λ t. insert_event_row-accounts _ t)
