-- ===== src/Outbox/Order.antt =====
-- internal/app/outbox/publisher.go: which events `PublishDue` sends, and in which order.
use junglegaming_backend_cha.Store.{
  OutboxRow, Env, World, Db, statement, within_transaction, now_from_clock, finish, ◌>>=◌,
}
use junglegaming_backend_cha.Base.{
  ltb, ◌&&◌, ◌||◌, In-last, ◌+◌, String, Bool, true, false, List, [], ◌∷◌, ◌++◌, map, Option, none,
  some, In, In-front, In-back, In-map-inv, inl, inr, ◌==◌, nat_eq, ◌≡◌, refl, arith, sym, ◌∙◌, ap,
  ◌≢◌,
}
use junglegaming_backend_cha.Types.{before, Uuid}
use junglegaming_backend_cha.Outbox.Publish.{publish_due-Rows, ids_of}
use junglegaming_backend_cha.Outbox.Advance.{Rows, Advance, Content}
use mathlib.Core.Path.{subst}
use junglegaming_backend_cha.AppErr.{Result, ok, err}
use junglegaming_backend_cha.Store.Outbox.{OutboxEvent}
use junglegaming_backend_cha.Store.Outbox.Publishing.{
  claim_events, claim_rows, candidates, lock_cutoff, limit_of, event_of, precedes,
}
use junglegaming_backend_cha.Outbox.{
  PublisherConfig, Sender, claim_batch, publish_due, publish_claimed, sent_of, taken,
}
use junglegaming_backend_cha.Outbox.Claims.{IsClaimable, candidates-IsClaimable}

pub within_transaction-ok :
    {A : Type 0} (m : Db A) (env : Env) (w : World) (a : A)
    → (within_transaction m env w).0 ≡ ok a
    → (m env (record w { trips = w.trips + 1 })).0 ≡ ok a
unfolding within_transaction finish
within_transaction-ok m env w a h = ground (arith, h)

-- The batch of a claim that succeeded.
pub claim_batch-inv :
    (c : PublisherConfig) (env : Env) (w : World) (batch : List OutboxEvent)
    → (claim_batch c env w).0 ≡ ok batch
    → batch
      ≡ map event_of (
          candidates
            (env.clock w.readings)
            (lock_cutoff (env.clock w.readings) c.lock_ttl)
            (limit_of c.batch_size)
            w.tables.outbox)
unfolding claim_batch claim_events claim_rows statement now_from_clock ◌>>=◌
claim_batch-inv c env w batch h =
    let inner = within_transaction-ok _ env w batch h in ground (arith, inner)

sent_of-In :
    (send : Sender) (es : List OutboxEvent) (e : OutboxEvent) → In e (sent_of send es) → In e es
unfolding sent_of taken
sent_of-In send [] e h = h
sent_of-In send (x ∷ es) e h = kept (send x) h (sent_of-In send es e)
  where
    kept :
        (o : Option String)
        → In e (taken o x (sent_of send es))
        → (In e (sent_of send es) → In e es)
        → In e (x ∷ es)
    kept none (inl p) k = inl p
    kept none (inr m) k = inr (k m)
    kept (some text) m k = inr (k m)

sent-claimed :
    (c : PublisherConfig) (send : Sender) (env : Env) (p : Result (List OutboxEvent) × World)
    (e : OutboxEvent)
    → In e (publish_claimed c send env p).0.1
    → (batch : List OutboxEvent) × (p.0 ≡ ok batch) × In e batch
unfolding publish_claimed
sent-claimed c send env (ok batch, w) e h = (batch, refl, sent_of-In send batch e h)
sent-claimed c send env (err x, w) e h = absurd h

module _ (c : PublisherConfig) (send : Sender) (env : Env) (w : World) where
  -- Every event that a run of the publisher sends is of a row that waits for its publication, is
  -- due, is not locked by a publisher whose lock is still good, and is the first of its aggregate
  -- that waits.
  pub sent-IsClaimable :
      (e : OutboxEvent)
      → In e (publish_due c send env w).0.1
      → (r : OutboxRow) × In r w.tables.outbox
        × (event_of r ≡ e)
        × IsClaimable
            (env.clock w.readings)
            (lock_cutoff (env.clock w.readings) c.lock_ttl)
            w.tables.outbox
            r
  unfolding publish_due
  sent-IsClaimable e h =
      let (batch, p, m) = sent-claimed c send env (claim_batch c env w) e h in
      let now = env.clock w.readings in
      let (r, k, same) =
        In-map-inv event_of e _ (subst (λ b. In e b) (claim_batch-inv c env w batch p) m) in
      let (inside, claimable) =
        candidates-IsClaimable now (lock_cutoff now c.lock_ttl) (limit_of c.batch_size)
          w.tables.outbox r k in
      (r, inside, same, claimable)

  unordered :
      (r s : OutboxRow) → precedes r s ≡ false → precedes s r ≡ false → r.event_id ≡ s.event_id
  unordered r s h k = ground (arith, h, k)

  -- A run sends at most one event of each aggregate.
  pub sent_one_each :
      (e f : OutboxEvent)
      → In e (publish_due c send env w).0.1
      → In f (publish_due c send env w).0.1
      → e.aggregate_id ≡ f.aggregate_id
      → e.event_id ≡ f.event_id
  sent_one_each e f h k a =
      let (r, m, p, x) = sent-IsClaimable e h in
      let (s, n, q, y) = sent-IsClaimable f k in
      let id = λ (g : OutboxEvent). g.event_id in
      let aggregate : r.aggregate_id ≡ s.aggregate_id =
        ap (λ (g : OutboxEvent). g.aggregate_id) p
        ∙ a
        ∙ ap (λ (g : OutboxEvent). g.aggregate_id) (sym q) in
      sym (ap id p)
      ∙ unordered r s (y.first r m aggregate x.waiting) (x.first s n (sym aggregate) y.waiting)
      ∙ ap id q

Rows-In :
    (P : Uuid → Type 0) (xs ys : List OutboxRow) (y : OutboxRow)
    → Rows P xs ys
    → In y ys
    → (x : OutboxRow) × In x xs × Advance P x y
Rows-In P [] [] y h m = absurd m
Rows-In P [] (z ∷ ys) y h m = absurd h
Rows-In P (x ∷ xs) [] y h m = absurd m
Rows-In P (x ∷ xs) (z ∷ ys) y (a, h) (inl e) = (x, inl refl, subst (λ n. Advance P x n) (sym e) a)
Rows-In P (x ∷ xs) (z ∷ ys) y (a, h) (inr m) =
    let (u, k, b) = Rows-In P xs ys y h m in (u, inr k, b)

-- What has been sent so far, the latest batch first, and the rows: from an empty table, events are
-- stored in it, and runs of the publisher send some.
pub data History (c : PublisherConfig) : List Uuid → List OutboxRow → Type 0 where
  start : History c [] []
  store :
      {log : List Uuid} {rows : List OutboxRow} (r : OutboxRow)
      → r.published_at ≡ none
      → History c log rows
      → History c log (rows ++ r ∷ [])
  publish :
      {log : List Uuid} (send : Sender) (env : Env) (w : World)
      → History c log w.tables.outbox
      → History c
          (ids_of (publish_due c send env w).0.1 ++ log)
          (publish_due c send env w).1.tables.outbox

-- A published event has been sent.
abbrev pub IsLogged : List Uuid → List OutboxRow → Type 0
IsLogged log rows = (x : OutboxRow) → In x rows → x.published_at ≢ none → In x.event_id log

History-IsLogged :
    (c : PublisherConfig) {log : List Uuid} {rows : List OutboxRow}
    → History c log rows
    → IsLogged log rows
History-IsLogged c start x m n = absurd m
History-IsLogged c (store {rows = rows} r u h) x m n = elim (In-last x r rows m) [
  | inl e ↦ absurd (n (ap (λ (y : OutboxRow). y.published_at) e ∙ u))
  | inr k ↦ History-IsLogged c h x k n
]
History-IsLogged c (publish {log = log} send env w h) y m n =
    let sent = ids_of (publish_due c send env w).0.1 in
    let (x, k, a) =
      Rows-In (λ id. In id sent) w.tables.outbox _ y (publish_due-Rows c send env w) m in
    let same : x.event_id ≡ y.event_id = ap (λ (d : Content). d.event_id) (sym a.same) in
    subst (λ id. In id (sent ++ log)) same
      (elim a.published [
        | inl e ↦ In-back x.event_id sent log (History-IsLogged c h x k (λ u. n (e ∙ u)))
        | inr (u, p) ↦ In-front x.event_id sent log p
      ])

-- The stored event comes before this one.
abbrev pub comes_before : OutboxRow → OutboxEvent → Bool
comes_before x e =
    before x.occurred_at e.occurred_at
    || x.occurred_at == e.occurred_at && ltb x.event_id e.event_id

-- The publisher keeps the order of each aggregate: after any history, when a run sends an event,
-- every stored event of the same aggregate that precedes it, by its instant and then by its id, has
-- been sent in an earlier run.
pub earlier_sent_first :
    (c : PublisherConfig) (send : Sender) (env : Env) (w : World) (log : List Uuid)
    (e : OutboxEvent) (x : OutboxRow)
    → History c log w.tables.outbox
    → In e (publish_due c send env w).0.1
    → In x w.tables.outbox
    → x.aggregate_id ≡ e.aggregate_id
    → comes_before x e ≡ true
    → In x.event_id log
earlier_sent_first c send env w log e x h m k a p =
    let (r, inside, same, claimable) = sent-IsClaimable c send env w e m in
    let aggregate : x.aggregate_id ≡ r.aggregate_id =
      a ∙ ap (λ (g : OutboxEvent). g.aggregate_id) (sym same) in
    let earlier : precedes x r ≡ true = subst (λ g. comes_before x g ≡ true) (sym same) p in
    History-IsLogged c h x k
      (λ waits. absurd (ground (arith, earlier, claimable.first x k aggregate waits)))
