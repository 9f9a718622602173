-- ===== src/Store/Inbox.antt =====
-- internal/adapters/postgres/inbox_repo.go, with the constraints of `inbox_messages`.
pub mod Claims
use junglegaming_backend_cha.Types.{in_microseconds, Time, Uuid}
use junglegaming_backend_cha.Base.{
  String, Bool, true, false, not, List, [], ◌∷◌, ◌++◌, Option, none, some, if◌then◌else◌, ◌==◌,
  ◌&&◌, string_eq, nat_eq, select, update_where, count_where,
}
use junglegaming_backend_cha.Store.{InboxRow, Tables, Db, statement, query, draw, pure, ◌>>=◌}
use junglegaming_backend_cha.AppErr.{Error, Result, ok, err}

-- `ports.InboxRecord`
pub record InboxRecord : Type 0 where
  pub message_id : String
  pub payload_hash : String
  pub completed : Bool
  pub received_at : Time

-- The results of `Claim` without an error: claimed, or seen before.
pub data Claim : Type 0 where
  claimed : Claim
  seen : InboxRecord → Claim

-- What the calls on the inbox change.
abbrev pub inbox_of : Tables → List InboxRow
inbox_of t = t.inbox

-- `WHERE consumer_name = $1 AND message_id = $2`
abbrev pub by_message : String → String → InboxRow → Bool
by_message consumer message r = r.consumer_name == consumer && r.message_id == message

-- The INSERT: whether it returned an id. The index on consumer and message decides the conflict,
-- the primary key is an error.
unfoldable pub insert_inbox_row : InboxRow → Tables → Result Bool × Tables
insert_inbox_row r t =
    if not (count_where (by_message r.consumer_name r.message_id) t.inbox == 0)
    then (ok false, t)
    else if not (count_where (λ (x : InboxRow). x.id == r.id) t.inbox == 0)
    then (err (Error.plain "postgres: claim inbox message"), t)
    else (ok true, record t { inbox = t.inbox ++ r ∷ [] })

unfoldable pub scan_inbox : Option InboxRow → Result InboxRecord
scan_inbox none = err (Error.plain "postgres: load inbox message")
scan_inbox (some r) = ok (record {
  message_id = r.message_id;
  payload_hash = r.payload_hash;
  completed = r.status == "COMPLETED";
  received_at = r.received_at;
})

-- `get`
unfoldable pub get_inbox : String → String → Db InboxRecord
get_inbox consumer message =
    query "postgres: load inbox message"
      (λ t. scan_inbox (select (by_message consumer message) t.inbox))

abbrev pub received : Uuid → String → String → String → Time → InboxRow
received id consumer message hash now = record {
  id = id;
  consumer_name = consumer;
  message_id = message;
  payload_hash = hash;
  status = "RECEIVED";
  received_at = in_microseconds now;
  completed_at = none;
}

unfoldable pub after_insert : String → String → Bool → Db Claim
after_insert consumer message true = pure claimed
after_insert consumer message false = do r ← get_inbox consumer message; pure (seen r)

-- `Claim`
unfoldable pub claim_message : String → String → String → Time → Db Claim
unfolding after_insert
claim_message consumer message hash now = do
  id ← draw
  inserted ←
      statement "postgres: claim inbox message"
        (insert_inbox_row (received id consumer message hash now))
  after_insert consumer message inserted

abbrev pub set_completed : Time → InboxRow → InboxRow
set_completed now r = record r { status = "COMPLETED"; completed_at = some (in_microseconds now) }

unfoldable pub complete_rows : String → String → Time → Tables → Result (Unit {0}) × Tables
complete_rows consumer message now t =
    if count_where (by_message consumer message) t.inbox == 0
    then (err (Error.plain "postgres: inbox message does not exist"), t)
    else (
      ok tt,
      record t { inbox = update_where (by_message consumer message) (set_completed now) t.inbox },
    )

-- `Complete`
unfoldable pub complete_message : String → String → Time → Db (Unit {0})
unfolding complete_rows
complete_message consumer message now =
    statement "postgres: complete inbox message" (complete_rows consumer message now)
