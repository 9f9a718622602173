-- ===== src/Tests/Messages.antt =====
-- The theorems on messages and events at concrete inputs.
use junglegaming_backend_cha.Types.{in_microseconds}
use junglegaming_backend_cha.Store.{
  query, within_transaction, now_from_clock, statement, OutboxRow, World, ◌>>=◌,
}
use junglegaming_backend_cha.Base.{
  take, sorted_where, update_where, arith, ◌^◌, suc, ◌++◌, ℕ, ◌*◌, count_where, inl, [], true, ap,
  sym, In, some, select, ◌≡◌, refl, string_eq, nat_eq,
}
use junglegaming_backend_cha.Store.Outbox.Publishing.{
  pending_count, mark_published, claim_events, claimable, lock_cutoff, event_of,
}
use junglegaming_backend_cha.Outbox.Order.{
  earlier_sent_first, sent_one_each, History, store, start, publish,
}
use junglegaming_backend_cha.Outbox.Publish.{publish_due-Rows, ids_of}
use junglegaming_backend_cha.Outbox.Advance.{Rows}
use junglegaming_backend_cha.Outbox.Progress.{publish_due_progress}
use junglegaming_backend_cha.Outbox.Backoff.{publisher_backoff_exact}
use junglegaming_backend_cha.Outbox.{
  publisher_backoff, publish_due, publish_claimed, publish_batch, sent_of, taken, claim_batch,
}
use junglegaming_backend_cha.Wager.Backoff.Capped.{capped}
use junglegaming_backend_cha.Base.Int.{pos, wrap64}
use junglegaming_backend_cha.Tests.Samples.{
  two_events, healthy_env, takes_all, publisher, event_row, inbox_row, with_message, config, codec,
  parsing_env, message_of, funded, bet_of,
}
use junglegaming_backend_cha.Consumer.Redelivery.{handled_once, handle_redelivered}
use junglegaming_backend_cha.Store.Inbox.{by_message}
use junglegaming_backend_cha.AppErr.{ok}
use junglegaming_backend_cha.Money.{
  is_valid, is_negative, is_positive, new_currency, currency_pattern,
}
use junglegaming_backend_cha.Wagering.Kinds.{is_external, requires_reference, is_loss, parse_kind}
use junglegaming_backend_cha.Consumer.{consumer_name, handle}
use junglegaming_backend_cha.Money.Text.{
  has_minus, is_empty, amount_pattern, unsigned_pattern, trim_minus, or_error, cut_point,
  minor_part, units_of_parts, parse, parse_minor_units,
}
use junglegaming_backend_cha.Money.Text.Decimal.{is_digit, parse_uint}
use junglegaming_backend_cha.Wager.{ProcessCommand, validate_command}
use junglegaming_backend_cha.Store.Hoare.{accounts}
use junglegaming_backend_cha.Store.Consistent.{Consistent}
use junglegaming_backend_cha.Consumer.Request.{
  parse_request, unmarshal_body, envelope_of, unmarshal_money, parsed_uuid, message_id_of,
}
use junglegaming_backend_cha.Consumer.Ledger.{handle_keeps_ledger}
use junglegaming_backend_cha.Tests.Services.{funded-Consistent}

handle_keeps_ledger_example :
    Consistent (accounts (handle config codec (message_of "bet") parsing_env funded).1.tables)
handle_keeps_ledger_example =
    handle_keeps_ledger parsing_env config codec (message_of "bet") funded funded-Consistent

abbrev request : ProcessCommand
request = record (bet_of 3000) { correlation_id = "message-1" }

request-read :
    parse_request codec parsing_env.uuid_parse (message_of "bet") ≡ ok ("message-1", request)
unfolding parse_request unmarshal_body envelope_of unmarshal_money parsed_uuid message_id_of parse
    parse_minor_units new_currency currency_pattern parse_kind is_empty amount_pattern
    unsigned_pattern trim_minus is_digit or_error parse_uint cut_point minor_part units_of_parts
    has_minus wrap64
request-read = refl

request-valid : validate_command request ≡ ok tt
unfolding validate_command is_valid is_external requires_reference is_negative is_loss is_positive
request-valid = refl

seen_before :
    select (by_message consumer_name "message-1") with_message.tables.inbox ≡ some inbox_row
unfolding select
seen_before = refl

handle_redelivered_example :
    ((handle config codec (message_of "bet") parsing_env with_message).0 ≡ ok tt)
    × ((handle config codec (message_of "bet") parsing_env with_message).1.tables
        ≡ with_message.tables)
handle_redelivered_example =
    handle_redelivered parsing_env (λ n. refl) config codec (message_of "bet") "message-1" request
      request-read request-valid with_message inbox_row seen_before

seen_again : (handle config codec (message_of "bet") parsing_env with_message).0 ≡ ok tt
seen_again = handle_redelivered_example.0

handled_once_example :
    ((handle config codec (message_of "bet") parsing_env with_message).0 ≡ ok tt)
    × ((handle config codec (message_of "bet") parsing_env with_message).1.tables
        ≡ with_message.tables)
handled_once_example =
    handled_once parsing_env parsing_env config codec (message_of "bet") with_message with_message
      seen_again refl (λ n. refl) (ap (λ t. t.inbox) (sym handle_redelivered_example.1))

first_sent :
    In (event_of (event_row 102 5000)) (publish_due publisher takes_all healthy_env two_events).0.1
unfolding in_microseconds take sorted_where publish_due publish_claimed publish_batch sent_of taken
    claim_batch within_transaction ◌>>=◌ now_from_clock claim_events statement count_where
first_sent = inl refl

first_due : In (event_row 102 5000) two_events.tables.outbox
first_due = inl refl

sent_one_each_example :
    (event_of (event_row 102 5000)).event_id ≡ (event_of (event_row 102 5000)).event_id
sent_one_each_example =
    sent_one_each publisher takes_all healthy_env two_events (event_of (event_row 102 5000))
      (event_of (event_row 102 5000)) first_sent first_sent refl

-- The tables after a run, at a later reading of the clock.
abbrev after_one : World
after_one = (publish_due publisher takes_all healthy_env two_events).1

second_sent :
    In (event_of (event_row 103 6000)) (publish_due publisher takes_all healthy_env after_one).0.1
unfolding in_microseconds take sorted_where publish_due publish_claimed publish_batch sent_of taken
    claim_batch within_transaction ◌>>=◌ now_from_clock claim_events statement count_where
    pending_count query mark_published update_where
second_sent = inl refl

abbrev published_row : OutboxRow
published_row = record (event_row 102 5000) { published_at = some 11000 }

is_published : In published_row after_one.tables.outbox
unfolding in_microseconds take sorted_where publish_due publish_claimed publish_batch sent_of taken
    claim_batch within_transaction ◌>>=◌ now_from_clock claim_events statement count_where
    pending_count query mark_published update_where
is_published = inl refl

so_far :
    History publisher
      (ids_of (publish_due publisher takes_all healthy_env two_events).0.1 ++ [])
      after_one.tables.outbox
so_far =
    publish takes_all healthy_env two_events
      (store (event_row 103 6000) refl (store (event_row 102 5000) refl start))

earlier_sent_first_example :
    In 102 (ids_of (publish_due publisher takes_all healthy_env two_events).0.1 ++ [])
earlier_sent_first_example =
    earlier_sent_first publisher takes_all healthy_env after_one _ (event_of (event_row 103 6000))
      published_row so_far second_sent is_published refl refl

due_now :
    claimable 10000 (lock_cutoff 10000 (pos 30000)) two_events.tables.outbox (event_row 102 5000)
    ≡ true
unfolding claimable count_where
due_now = refl

publish_due_progress_example :
    (n : ℕ) × ((publish_due publisher takes_all healthy_env two_events).0.0 ≡ ok (suc n))
publish_due_progress_example =
    publish_due_progress publisher takes_all healthy_env two_events (event_row 102 5000) (λ n. refl)
      (λ e. refl) first_due due_now

publish_due-Rows_example :
    Rows
      (λ id. In id (ids_of (publish_due publisher takes_all healthy_env two_events).0.1))
      two_events.tables.outbox
      (publish_due publisher takes_all healthy_env two_events).1.tables.outbox
publish_due-Rows_example = publish_due-Rows publisher takes_all healthy_env two_events

publisher_backoff_exact_example : publisher_backoff publisher (pos 5) ≡ pos (capped (2 * 2 ^ 4) 300)
publisher_backoff_exact_example =
    publisher_backoff_exact publisher 2 300 (pos 5) refl refl (omega arith) (omega arith)
