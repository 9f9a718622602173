-- ===== src/Store/Outbox.antt =====
-- internal/adapters/postgres/outbox_repo.go: the insert of an event. The child has the calls of the
-- publisher.
pub mod Publishing
use junglegaming_backend_cha.Types.{in_microseconds, Uuid, Time}
use junglegaming_backend_cha.Events.{Envelope}
use junglegaming_backend_cha.Base.{
  ℕ, String, not, [], ◌∷◌, ◌++◌, none, if◌then◌else◌, ◌==◌, nat_eq, count_where,
}
use junglegaming_backend_cha.AppErr.{Error, Result, ok, err}
use junglegaming_backend_cha.Store.{OutboxRow, Tables, Db, statement}

-- `ports.OutboxEvent`
pub record OutboxEvent : Type 0 where
  pub event_id : Uuid
  pub aggregate_id : Uuid
  pub event_type : String
  pub payload : Envelope
  pub occurred_at : Time
  pub attempts : ℕ
  pub next_attempt_at : Time

outbox_row : OutboxEvent → OutboxRow
outbox_row e = record {
  event_id = e.event_id;
  aggregate_id = e.aggregate_id;
  event_type = e.event_type;
  payload = e.payload;
  occurred_at = in_microseconds e.occurred_at;
  attempts = e.attempts;
  next_attempt_at =
      in_microseconds (if e.next_attempt_at == 0 then e.occurred_at else e.next_attempt_at);
  published_at = none;
  locked_by = none;
  locked_at = none;
  last_error = none;
}

unfoldable pub insert_event_row : OutboxRow → Tables → Result (Unit {0}) × Tables
insert_event_row r t =
    if not (count_where (λ (x : OutboxRow). x.event_id == r.event_id) t.outbox == 0)
    then (err (Error.plain "postgres: insert outbox event"), t)
    else (ok tt, record t { outbox = t.outbox ++ r ∷ [] })

-- `Insert`
unfoldable pub insert_event : OutboxEvent → Db (Unit {0})
unfolding outbox_row insert_event_row
insert_event e = statement "postgres: insert outbox event" (insert_event_row (outbox_row e))
