-- ===== src/Wager/Frame.antt =====
-- internal/app/wager/service.go: no call of the service touches the inbox, and only an insert adds a
-- transaction or changes whose request one is.
pub mod Process
use junglegaming_backend_cha.Store.Transactions.Names.{names_of, names-update_where, Name}
use junglegaming_backend_cha.Base.{
  inr, inl, Bool-cases, ◌∷◌, Bool, ap, update_where, refl, none, some, arith, ◌≡◌, Option, String,
  List, [],
}
use junglegaming_backend_cha.Store.TransactionQueries.{set_due, waits_for, wake_dependents}
use junglegaming_backend_cha.Store.TransactionRepo.{
  set_state, updatable, update_transaction, update_found,
}
use junglegaming_backend_cha.Store.Transactions.{deref_string, transaction_row}
use mathlib.Core.List.{map}
use junglegaming_backend_cha.Store.Inbox.{inbox_of}
use junglegaming_backend_cha.AppErr.{Error}
use junglegaming_backend_cha.Wallet.{Wallet}
use junglegaming_backend_cha.Money.{Money}
use junglegaming_backend_cha.Wager.Operation.{
  rejected_data, pending_data, processed_data, reject, wake, handle_reference_error,
  finish_processed, schedule_reference_retry,
}
use junglegaming_backend_cha.Store.{OutboxRow, TransactionRow, InboxRow, Tables}
use junglegaming_backend_cha.Store.Frame.{
  Frames-statement, Frames, Frames-bind, Frames-seq, Frames-pure, Frames-fail, Frames-lift,
  Frames-query, Frames-if, Frames-draw, Frames-now_from_clock,
}
use junglegaming_backend_cha.Store.Outbox.{OutboxEvent, insert_event_row, insert_event}
use junglegaming_backend_cha.Events.{Envelope, EventData}
use junglegaming_backend_cha.Wagering.{Transaction}
use junglegaming_backend_cha.Wager.{Config}
use junglegaming_backend_cha.Wager.Events.{
  emit, correlation_of, parse_event_id, enqueue, new_event, text_of,
}
use junglegaming_backend_cha.Types.{Time, Uuid}

abbrev pub untouched : Tables → List InboxRow × List Name
untouched t = (inbox_of t, names_of t)

pub ruleset frames = (
  Frames-bind, Frames-seq, Frames-pure, Frames-fail, Frames-lift, Frames-query, Frames-if,
  Frames-draw, Frames-now_from_clock,
)

Frames-text_of : (id : Uuid) → Frames untouched (text_of id)
unfolding text_of
Frames-text_of id = record { frame = λ env w. refl }

Frames-new_event :
    (aggregate : Uuid) (correlation causation : String) (at : Time) (content : EventData)
    → Frames untouched (new_event aggregate correlation causation at content)
unfolding new_event
Frames-new_event aggregate correlation causation at content =
    search (frames, Frames-text_of) depth 25

Frames-parse_event_id : (text : String) → Frames untouched (parse_event_id text)
unfolding parse_event_id
Frames-parse_event_id text = record { frame = λ env w. refl }

insert_event_row-untouched :
    (r : OutboxRow) (t : Tables) → untouched (insert_event_row r t).1 ≡ untouched t
unfolding insert_event_row
insert_event_row-untouched r t = ground arith

Frames-insert_event : (e : OutboxEvent) → Frames untouched (insert_event e)
unfolding insert_event
Frames-insert_event e = Frames-statement _ _ _ (insert_event_row-untouched _)

Frames-enqueue : (aggregate : Uuid) (e : Envelope) → Frames untouched (enqueue aggregate e)
unfolding enqueue
Frames-enqueue aggregate e = search (frames, Frames-parse_event_id, Frames-insert_event) depth 25

Frames-emit :
    (aggregate : Uuid) (correlation : String) (causation : Uuid) (now : Time) (content : EventData)
    → Frames untouched (emit aggregate correlation causation now content)
unfolding emit
Frames-emit aggregate correlation causation now content =
    search (frames, Frames-text_of, Frames-new_event, Frames-enqueue) depth 25

pub Frames-correlation_of : (c : String) (id : Uuid) → Frames untouched (correlation_of c id)
unfolding correlation_of
Frames-correlation_of c id = search (frames, Frames-text_of) depth 25

update_found-untouched :
    (new : TransactionRow) (old : Option TransactionRow) (t : Tables)
    → untouched (update_found new old t).1 ≡ untouched t
unfolding update_found
update_found-untouched new none t = refl
update_found-untouched new (some old) t =
    let names = names-update_where (updatable new.id) (set_state new) t.transactions (λ r. refl) in
    ground (arith, names)

Frames-update_transaction : (t : Transaction) → Frames untouched (update_transaction t)
unfolding update_transaction
Frames-update_transaction t =
    Frames-statement _ _ _ (λ tables. update_found-untouched (transaction_row t) _ tables)

Frames-wake_dependents : (p e : String) (now : Time) → Frames untouched (wake_dependents p e now)
unfolding wake_dependents
Frames-wake_dependents p e now = Frames-statement _ _ _ (λ t.
    ap (λ (names : List Name). (inbox_of t, names))
      (names-update_where (waits_for p e) (set_due now) t.transactions (λ r. refl)))

Frames-wake : (t : Transaction) (now : Time) → Frames untouched (wake t now)
unfolding wake
Frames-wake t now = search (frames, Frames-wake_dependents) depth 25

Frames-finish_processed :
    (t : Transaction) (balance : Money) (now : Time) (c : String)
    → Frames untouched (finish_processed t balance now c)
unfolding finish_processed processed_data
Frames-finish_processed t balance now c =
    search (frames, Frames-text_of, Frames-update_transaction, Frames-emit, Frames-wake) depth 25

Frames-reject :
    (t : Transaction) (w : Option Wallet) (code : String) (now : Time) (c : String)
    → Frames untouched (reject t w code now c)
unfolding reject rejected_data
Frames-reject t w code now c =
    search (frames, Frames-text_of, Frames-update_transaction, Frames-emit) depth 25

Frames-schedule_reference_retry :
    (config : Config) (t : Transaction) (now : Time) (c : String)
    → Frames untouched (schedule_reference_retry config t now c)
unfolding schedule_reference_retry pending_data
Frames-schedule_reference_retry config t now c =
    search (frames, Frames-text_of, Frames-update_transaction, Frames-emit, Frames-reject) depth 25

pub Frames-handle_reference_error :
    (config : Config) (t : Transaction) (w : Wallet) (e : Error) (now : Time) (c : String)
    → Frames untouched (handle_reference_error config t w e now c)
unfolding handle_reference_error
Frames-handle_reference_error config t w e now c =
    search (frames, Frames-reject, Frames-schedule_reference_retry) depth 25
