-- ===== src/Wager/Events.antt =====
-- internal/domain/events/events.go (`newEnvelope`) and internal/app/wager/service.go (`enqueue`,
-- `correlationOf`): building an event and storing it in the outbox.
use junglegaming_backend_cha.Base.{
  String, Option, none, some, if◌then◌else◌, ◌==◌, string_eq, nat_eq,
}
use junglegaming_backend_cha.AppErr.{Error, Result, ok, err, raise_if}
use junglegaming_backend_cha.Types.{Uuid, nil_uuid, Time, is_zero_time}
use junglegaming_backend_cha.Events.{
  EventData, Envelope, event_type, check_event, invalid_event, schema_version,
}
use junglegaming_backend_cha.Store.{Db, lift, draw, pure, ◌>>=◌, ◌>>◌}
use junglegaming_backend_cha.Store.Outbox.{insert_event}

-- `id.String()`
unfoldable pub text_of : Uuid → Db String
text_of id env w = (ok (env.uuid_text id), w)

-- The constructors of events: the checks of the event type, then `newEnvelope`.
unfoldable pub new_event : Uuid → String → String → Time → EventData → Db Envelope
new_event aggregate_id correlation_id causation_id occurred_at content = do
  lift (check_event content)
  lift (raise_if (aggregate_id == nil_uuid) invalid_event)
  lift (raise_if (correlation_id == "") invalid_event)
  lift (raise_if (is_zero_time occurred_at) invalid_event)
  event_id ← draw
  event_text ← text_of event_id
  aggregate_text ← text_of aggregate_id
  pure (record {
    event_id = event_text;
    event_type_name = event_type content;
    aggregate_id = aggregate_text;
    correlation_id = correlation_id;
    causation_id = causation_id;
    occurred_at = occurred_at;
    version = schema_version;
    content = content;
  })

parsed : String → Option Uuid → Result Uuid
parsed text none = err (Error.plain "wager: invalid event id")
parsed text (some id) = ok id

-- `uuid.Parse(eventID)`
unfoldable pub parse_event_id : String → Db Uuid
unfolding parsed
parse_event_id text env w = (parsed text (env.uuid_parse text), w)

-- `enqueue`
unfoldable pub enqueue : Uuid → Envelope → Db (Unit {0})
unfolding parse_event_id
enqueue aggregate_id envelope = do
  parsed_id ← parse_event_id envelope.event_id
  insert_event (record {
    event_id = parsed_id;
    aggregate_id = aggregate_id;
    event_type = envelope.event_type_name;
    payload = envelope;
    occurred_at = envelope.occurred_at;
    attempts = 0;
    next_attempt_at = envelope.occurred_at;
  })

-- `correlationOf`
unfoldable pub correlation_of : String → Uuid → Db String
unfolding text_of
correlation_of correlation_id transaction_id =
    if correlation_id == "" then text_of transaction_id else pure correlation_id

-- Build an event of an aggregate and enqueue it for that aggregate.
unfoldable pub emit : Uuid → String → Uuid → Time → EventData → Db (Unit {0})
unfolding new_event enqueue text_of
emit aggregate_id correlation_id causation now content = do
  causation_text ← text_of causation
  envelope ← new_event aggregate_id correlation_id causation_text now content
  enqueue aggregate_id envelope
