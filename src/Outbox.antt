-- ===== src/Outbox.antt =====
-- internal/app/outbox/publisher.go: `NewPublisher`, `PublishDue` and what it calls. Metrics and logs
-- are left out.
pub mod Claims
pub mod Advance
pub mod Publish
pub mod Order
pub mod Locks
pub mod Progress
pub mod Backoff
use junglegaming_backend_cha.Base.Int.{pos_part, ℤ, pos, ◌+ℤ◌, leb_ℤ, ltb_ℤ, wrap64}
use junglegaming_backend_cha.Base.{
  [], ◌∷◌, List, ℕ, zero, suc, ◌+◌, ◌-◌, ◌*◌, String, Bool, true, false, Option, none, some,
  if◌then◌else◌,
}
use junglegaming_backend_cha.Store.Outbox.Publishing.{
  pending_count, claim_events, mark_published, mark_failed,
}
use junglegaming_backend_cha.AppErr.{Result, ok, err}
use junglegaming_backend_cha.Types.{Duration, Time, add_duration}
use junglegaming_backend_cha.Store.{Db, Env, World, now_from_clock, within_transaction, ◌>>=◌}
use junglegaming_backend_cha.Store.Outbox.{OutboxEvent}

-- `Config`
pub record PublisherConfig : Type 0 where
  pub batch_size : ℤ
  pub base_backoff : Duration
  pub max_backoff : Duration
  pub lock_ttl : Duration
  pub publisher_id : String

-- `n * time.Second`
abbrev seconds : ℕ → Duration
seconds n = pos (n * (1000 * 1000 * 1000))

positive_or : ℤ → ℤ → ℤ
positive_or z fallback = if leb_ℤ z (pos 0) then fallback else z

-- `NewPublisher`: the defaults.
unfoldable pub new_publisher : PublisherConfig → PublisherConfig
unfolding positive_or
new_publisher c = record {
  batch_size = if ltb_ℤ c.batch_size (pos 1) then pos 20 else c.batch_size;
  base_backoff = positive_or c.base_backoff (seconds 2);
  max_backoff = positive_or c.max_backoff (seconds 300);
  lock_ttl = positive_or c.lock_ttl (seconds 30);
  publisher_id = c.publisher_id;
}

-- The rounds that are left of `for i := 1; i < attempt; i++`, and the test after the loop.
unfoldable pub publisher_rounds : ℕ → Duration → Duration → Duration
publisher_rounds zero backoff max = if ltb_ℤ max backoff then max else backoff
publisher_rounds (suc n) backoff max =
    let doubled = wrap64 (backoff +ℤ backoff) in
    let rest = publisher_rounds n doubled max in if leb_ℤ max doubled then max else rest

-- `backoff`
unfoldable pub publisher_backoff : PublisherConfig → ℤ → Duration
unfolding publisher_rounds
publisher_backoff c attempt =
    let n = if ltb_ℤ attempt (pos 1) then pos 1 else attempt in
    publisher_rounds (pos_part n - 1) c.base_backoff c.max_backoff

-- `Publish` of the broker on the events of a batch: none, or the text of its error.
abbrev pub Sender : Type 0
Sender = OutboxEvent → Option String

-- `markFailed`
unfoldable pub reschedule : OutboxEvent → Time → String → Db (Unit {0})
reschedule e next text =
    within_transaction (do now ← now_from_clock; mark_failed e.event_id next text now)

-- The confirmation of a publication.
unfoldable pub confirm : OutboxEvent → Db (Unit {0})
confirm e = within_transaction (do now ← now_from_clock; mark_published e.event_id now)

-- The wait for the next attempt and its schedule.
unfoldable pub retry_later : PublisherConfig → OutboxEvent → String → Db (Unit {0})
unfolding reschedule
retry_later c e text = do
  now ← now_from_clock
  reschedule e (add_duration now (publisher_backoff c (pos (e.attempts + 1)))) text

-- The body of the loop, after `Publish`: whether it counts the event.
unfoldable pub publish_one :
    PublisherConfig → OutboxEvent → Option String → Env → World → Bool × World
unfolding confirm retry_later
publish_one c e none env w =
    let (r, w') = confirm e env w in elim r [ ok a ↦ (true, w') | err x ↦ (false, w') ]
publish_one c e (some text) env w = (false, (retry_later c e text env w).1)

-- The loop over the batch: the number of confirmed events.
unfoldable pub publish_batch : PublisherConfig → Sender → List OutboxEvent → Env → World → ℕ × World
unfolding publish_one
publish_batch c send [] env w = (0, w)
publish_batch c send (e ∷ es) env w =
    let (confirmed, w') = publish_one c e (send e) env w in
    let (n, w'') = publish_batch c send es env w' in (if confirmed then suc n else n, w'')

-- The events of a batch that the broker has taken.
unfoldable pub taken : Option String → OutboxEvent → List OutboxEvent → List OutboxEvent
taken none e rest = e ∷ rest
taken (some text) e rest = rest

unfoldable pub sent_of : Sender → List OutboxEvent → List OutboxEvent
unfolding taken
sent_of send [] = []
sent_of send (e ∷ es) = taken (send e) e (sent_of send es)

-- The claim of `PublishDue`.
unfoldable pub claim_batch : PublisherConfig → Db (List OutboxEvent)
claim_batch c =
    within_transaction
      (do now ← now_from_clock; claim_events c.publisher_id now c.batch_size c.lock_ttl)

-- `PublishDue` after the claim: the number of confirmed events or an error, and the events that
-- were sent.
unfoldable pub publish_claimed :
    PublisherConfig
    → Sender
    → Env
    → Result (List OutboxEvent) × World
    → (Result ℕ × List OutboxEvent) × World
unfolding publish_batch sent_of
publish_claimed c send env (ok batch, w) =
    let (n, w') = publish_batch c send batch env w in
    ((ok n, sent_of send batch), (pending_count env w').1)
publish_claimed c send env (err e, w) = ((err e, []), w)

-- `PublishDue`
unfoldable pub publish_due :
    PublisherConfig → Sender → Env → World → (Result ℕ × List OutboxEvent) × World
unfolding publish_claimed claim_batch
publish_due c send env w = publish_claimed c send env (claim_batch c env w)
