-- ===== src/Store/Outbox/Publishing.antt =====
-- internal/adapters/postgres/outbox_repo.go: `Claim`, `MarkPublished`, `MarkFailed` and
-- `PendingCount`. The claimed events come in the order of the candidates.
use junglegaming_backend_cha.Types.{in_microseconds, Uuid, Time, Duration, add_duration, before}
use junglegaming_backend_cha.Base.{
  take, sorted_where, ℕ, ◌+◌, ◌-◌, ◌^◌, String, Bool, true, false, not, ◌&&◌, ◌||◌, List, [], ◌∷◌,
  map, Option, none, some, if◌then◌else◌, ◌==◌, string_eq, nat_eq, ltb, leb, update_where,
  count_where,
}
use junglegaming_backend_cha.Base.Int.{ℤ, pos, ◌-ℤ◌, leb_ℤ, wrap64, pos_part}
use junglegaming_backend_cha.AppErr.{Error, Result, ok, err}
use junglegaming_backend_cha.Store.{OutboxRow, Tables, Db, statement, query}
use junglegaming_backend_cha.Store.Outbox.{OutboxEvent}

abbrev pub is_unset : {A : Type 0} → Option A → Bool
is_unset none = true
is_unset (some a) = false

abbrev pub is_unpublished : OutboxRow → Bool
is_unpublished r = is_unset r.published_at

-- `(e.occurred_at, e.event_id) < (o.occurred_at, o.event_id)`
abbrev pub precedes : OutboxRow → OutboxRow → Bool
precedes e o =
    before e.occurred_at o.occurred_at
    || e.occurred_at == o.occurred_at && ltb e.event_id o.event_id

-- `o.locked_at IS NULL OR o.locked_at < $3`
abbrev pub lock_free : Time → Option Time → Bool
lock_free cutoff none = true
lock_free cutoff (some at) = before at (in_microseconds cutoff)

-- The rows of the `NOT EXISTS` of an event.
abbrev pub blocks : OutboxRow → OutboxRow → Bool
blocks o e = e.aggregate_id == o.aggregate_id && is_unpublished e && precedes e o

-- The `WHERE` clause of the candidates.
unfoldable pub claimable : Time → Time → List OutboxRow → OutboxRow → Bool
claimable now cutoff rows o =
    is_unpublished o
    && leb o.next_attempt_at now
    && lock_free cutoff o.locked_at
    && count_where (blocks o) rows == 0

-- `ORDER BY o.occurred_at, o.event_id` and `LIMIT $4`
unfoldable pub candidates : Time → Time → ℕ → List OutboxRow → List OutboxRow
unfolding claimable
candidates now cutoff limit rows =
    take limit (sorted_where precedes (claimable now cutoff rows) rows)

-- `WHERE event_id IN (SELECT event_id FROM candidates)`
unfoldable pub is_among : List OutboxRow → OutboxRow → Bool
is_among [] r = false
is_among (c ∷ cs) r = c.event_id == r.event_id || is_among cs r

abbrev pub set_lock : String → Time → OutboxRow → OutboxRow
set_lock publisher now r = record r {
  locked_by = some publisher;
  locked_at = some (in_microseconds now);
}

-- `RETURNING`, which the UPDATE does not change.
abbrev pub event_of : OutboxRow → OutboxEvent
event_of r = record {
  event_id = r.event_id;
  aggregate_id = r.aggregate_id;
  event_type = r.event_type;
  payload = r.payload;
  occurred_at = r.occurred_at;
  attempts = r.attempts;
  next_attempt_at = r.next_attempt_at;
}

-- `if limit <= 0 { limit = 10 }`
unfoldable pub limit_of : ℤ → ℕ
limit_of limit = if leb_ℤ limit (pos 0) then 10 else pos_part limit

-- `now.Add(-lockTTL)`
unfoldable pub lock_cutoff : Time → Duration → Time
lock_cutoff now ttl = add_duration now (wrap64 (pos 0 -ℤ ttl))

unfoldable pub claim_rows : String → Time → Time → ℕ → Tables → Result (List OutboxEvent) × Tables
unfolding candidates is_among
claim_rows publisher now cutoff limit t =
    let chosen = candidates now cutoff limit t.outbox in
    (
      ok (map event_of chosen),
      record t { outbox = update_where (is_among chosen) (set_lock publisher now) t.outbox },
    )

-- `Claim`
unfoldable pub claim_events : String → Time → ℤ → Duration → Db (List OutboxEvent)
unfolding claim_rows limit_of lock_cutoff
claim_events publisher now limit ttl =
    statement "postgres: claim outbox events"
      (claim_rows publisher now (lock_cutoff now ttl) (limit_of limit))

-- `WHERE event_id = $1 AND published_at IS NULL`
abbrev pub open_event : Uuid → OutboxRow → Bool
open_event id r = r.event_id == id && is_unpublished r

abbrev pub set_published : Time → OutboxRow → OutboxRow
set_published now r = record r {
  published_at = some (in_microseconds now);
  locked_by = none;
  locked_at = none;
  last_error = none;
}

unfoldable pub mark_published_rows : Uuid → Time → Tables → Result (Unit {0}) × Tables
mark_published_rows id now t =
    if count_where (open_event id) t.outbox == 0
    then (err (Error.plain "postgres: outbox event is already published or missing"), t)
    else (ok tt, record t { outbox = update_where (open_event id) (set_published now) t.outbox })

-- `MarkPublished`
unfoldable pub mark_published : Uuid → Time → Db (Unit {0})
unfolding mark_published_rows
mark_published id now = statement "postgres: mark outbox published" (mark_published_rows id now)

abbrev pub set_failed : Time → String → OutboxRow → OutboxRow
set_failed next text r = record r {
  attempts = r.attempts + 1;
  next_attempt_at = in_microseconds next;
  locked_by = none;
  locked_at = none;
  last_error = some text;
}

-- The rows whose `attempts + 1` is no INTEGER any more.
abbrev pub exhausted_event : Uuid → OutboxRow → Bool
exhausted_event id r = open_event id r && leb (2 ^ 31 - 1) r.attempts

unfoldable pub mark_failed_rows : Uuid → Time → String → Tables → Result (Unit {0}) × Tables
mark_failed_rows id next text t =
    if not (count_where (exhausted_event id) t.outbox == 0)
    then (err (Error.plain "postgres: mark outbox failed"), t)
    else (ok tt, record t { outbox = update_where (open_event id) (set_failed next text) t.outbox })

-- `MarkFailed`, which does not use its `now`.
unfoldable pub mark_failed : Uuid → Time → String → Time → Db (Unit {0})
unfolding mark_failed_rows
mark_failed id next text now =
    statement "postgres: mark outbox failed" (mark_failed_rows id next text)

-- `PendingCount`
unfoldable pub pending_count : Db ℕ
pending_count =
    query "postgres: count outbox events" (λ t. ok (count_where is_unpublished t.outbox))
