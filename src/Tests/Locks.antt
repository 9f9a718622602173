-- ===== src/Tests/Locks.antt =====
-- Two claims of the publisher at a concrete input.
use junglegaming_backend_cha.Base.{
  ◌≡◌, ◌≢◌, refl, arith, ◌∷◌, [], inl, take, sorted_where, update_where, count_where, nat_eq,
}
use junglegaming_backend_cha.Base.Int.{pos, wrap64, ◌-ℤ◌}
use junglegaming_backend_cha.AppErr.{ok}
use junglegaming_backend_cha.Types.{in_microseconds}
use junglegaming_backend_cha.Store.{
  OutboxRow, World, within_transaction, statement, now_from_clock, ◌>>=◌,
}
use junglegaming_backend_cha.Store.Outbox.Publishing.{event_of, claim_events}
use junglegaming_backend_cha.Outbox.{PublisherConfig, claim_batch}
use junglegaming_backend_cha.Outbox.Locks.{claimed_once}
use junglegaming_backend_cha.Tests.Samples.{publisher, event_row, two_events, healthy_env}

abbrev one_by_one : PublisherConfig
one_by_one = record publisher { batch_size = pos 1 }

abbrev elsewhere : OutboxRow
elsewhere = record (event_row 103 6000) { aggregate_id = 77 }

abbrev two_aggregates : World
two_aggregates = record two_events {
  tables = record (two_events.tables) { outbox = event_row 102 5000 ∷ elsewhere ∷ [] };
}

abbrev after_claim : World
after_claim = (claim_batch one_by_one healthy_env two_aggregates).1

first_claim :
    (claim_batch one_by_one healthy_env two_aggregates).0 ≡ ok (event_of (event_row 102 5000) ∷ [])
unfolding claim_batch within_transaction ◌>>=◌ now_from_clock claim_events statement take
    sorted_where count_where
first_claim = refl

second_claim : (claim_batch one_by_one healthy_env after_claim).0 ≡ ok (event_of elsewhere ∷ [])
unfolding claim_batch within_transaction ◌>>=◌ now_from_clock claim_events statement take
    sorted_where update_where count_where wrap64 ◌-ℤ◌ in_microseconds
second_claim = refl

claimed_once_example : (event_of (event_row 102 5000)).event_id ≢ (event_of elsewhere).event_id
unfolding claim_batch within_transaction ◌>>=◌ now_from_clock claim_events statement
claimed_once_example =
    claimed_once one_by_one one_by_one healthy_env healthy_env two_aggregates after_claim 30000
      (event_of (event_row 102 5000) ∷ []) (event_of elsewhere ∷ []) (event_of (event_row 102 5000))
      (event_of elsewhere) first_claim refl second_claim refl (omega arith) (omega arith) (inl refl)
      (inl refl)
