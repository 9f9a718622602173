-- ===== src/Outbox/Publish.antt =====
-- internal/app/outbox/publisher.go: `PublishDue` on the rows of the outbox.
use junglegaming_backend_cha.Outbox.{
  taken, publish_claimed, PublisherConfig, Sender, confirm, reschedule, retry_later, publish_one,
  publish_batch, sent_of, claim_batch, publish_due,
}
use junglegaming_backend_cha.Store.Outbox.Publishing.{
  exhausted_event, mark_published, mark_published_rows, mark_failed, mark_failed_rows, claim_events,
  claim_rows, pending_count, open_event, set_published,
}
use junglegaming_backend_cha.Base.{
  not, count_where, String, true, List, [], ◌∷◌, Option, none, some, In, inl, inr, ◌==◌, nat_eq,
  ◌≡◌, refl, arith, Bool-cases, sym,
}
use mathlib.Core.Path.{subst}
use junglegaming_backend_cha.AppErr.{Result, ok, err, Result-cases}
use junglegaming_backend_cha.Types.{Uuid, Time}
use junglegaming_backend_cha.Store.{OutboxRow, Tables, Env, World, query}
use junglegaming_backend_cha.Store.Outbox.{OutboxEvent}
use junglegaming_backend_cha.Outbox.Advance.{
  Advance, Rows, Rows-refl, Rows-trans, update_where-Rows, Advances, Advances-clock,
  Advances-statement, Advances-bind, Advances-within_transaction,
}

-- The ids of events.
abbrev pub ids_of : List OutboxEvent → List Uuid
ids_of [] = []
ids_of (e ∷ es) = e.event_id ∷ ids_of es

module _ (P : Uuid → Type 0) where
  published-Advance :
      (id : Uuid) (now : Time) (r : OutboxRow)
      → P id
      → open_event id r ≡ true
      → Advance P r (set_published now r)
  published-Advance id now r p h =
      let same : r.event_id ≡ id = ground (arith, h) in
      let unset : r.published_at ≡ none = ground (arith, h) in
      record { same = refl; published = inr (unset, subst P (sym same) p) }

  mark_published_rows-Rows :
      (id : Uuid) (now : Time) (t : Tables)
      → P id
      → Rows P t.outbox (mark_published_rows id now t).1.outbox
  unfolding mark_published_rows
  mark_published_rows-Rows id now t p =
      elim (Bool-cases (count_where (open_event id) t.outbox == 0)) [
        | inl e ↦ rw e (Rows-refl P t.outbox)
        | inr e ↦ rw e (update_where-Rows P _ _ (λ r h. published-Advance id now r p h) t.outbox)
      ]

  mark_failed_rows-Rows :
      (id : Uuid) (next : Time) (text : String) (t : Tables)
      → Rows P t.outbox (mark_failed_rows id next text t).1.outbox
  unfolding mark_failed_rows
  mark_failed_rows-Rows id next text t =
      elim (Bool-cases (not (count_where (exhausted_event id) t.outbox == 0))) [
        | inl e ↦ rw e (Rows-refl P t.outbox)
        | inr e ↦
            rw e (
              update_where-Rows P _ _ (λ r h. record { same = refl; published = inl refl })
                t.outbox)
      ]

  Advances-confirm : (e : OutboxEvent) → P e.event_id → Advances P (confirm e)
  unfolding confirm mark_published
  Advances-confirm e p = Advances-within_transaction P (
      Advances-bind P (Advances-clock P)
        (λ now. Advances-statement P _ _ (λ t. mark_published_rows-Rows e.event_id now t p)))

  Advances-retry_later :
      (c : PublisherConfig) (e : OutboxEvent) (text : String) → Advances P (retry_later c e text)
  unfolding retry_later reschedule mark_failed
  Advances-retry_later c e text = Advances-bind P (Advances-clock P) (λ at.
      Advances-within_transaction P (
        Advances-bind P (Advances-clock P)
          (λ now. Advances-statement P _ _ (mark_failed_rows-Rows e.event_id _ text))))

  In-taken :
      (o : Option String) (e : OutboxEvent) (rest : List OutboxEvent) (id : Uuid)
      → In id (ids_of rest)
      → In id (ids_of (taken o e rest))
  unfolding taken
  In-taken none e rest id h = inr h
  In-taken (some text) e rest id h = h

  taken-here :
      (o : Option String) (e : OutboxEvent) (rest : List OutboxEvent)
      → o ≡ none
      → In e.event_id (ids_of (taken o e rest))
  unfolding taken
  taken-here none e rest h = inl refl
  taken-here (some text) e rest h = absurd (ground (arith, h))

  publish_one-Rows :
      (c : PublisherConfig) (e : OutboxEvent) (sent : Option String) (env : Env) (w : World)
      → (sent ≡ none → P e.event_id)
      → Rows P w.tables.outbox (publish_one c e sent env w).1.tables.outbox
  unfolding publish_one
  publish_one-Rows c e none env w h =
      let kept = (Advances-confirm e (h refl)).advance env w in
      elim (Result-cases (confirm e env w).0) [
        | inl (a, p) ↦ rw (publish_one, p) kept
        | inr (x, p) ↦ rw (publish_one, p) kept
      ]
  publish_one-Rows c e (some text) env w h = (Advances-retry_later c e text).advance env w

  publish_batch-Rows :
      (c : PublisherConfig) (send : Sender) (es : List OutboxEvent) (env : Env) (w : World)
      → ((id : Uuid) → In id (ids_of (sent_of send es)) → P id)
      → Rows P w.tables.outbox (publish_batch c send es env w).1.tables.outbox
  unfolding publish_batch sent_of
  publish_batch-Rows c send [] env w h = Rows-refl P w.tables.outbox
  publish_batch-Rows c send (e ∷ es) env w h =
      let w' = (publish_one c e (send e) env w).1 in
      let one =
        publish_one-Rows c e (send e) env w
          (λ p. h e.event_id (taken-here (send e) e (sent_of send es) p)) in
      let later =
        publish_batch-Rows c send es env w'
          (λ id m. h id (In-taken (send e) e (sent_of send es) id m)) in
      Rows-trans P w.tables.outbox w'.tables.outbox _ one later

  Advances-claim_batch : (c : PublisherConfig) → Advances P (claim_batch c)
  unfolding claim_batch claim_events claim_rows
  Advances-claim_batch c = Advances-within_transaction P (
      Advances-bind P (Advances-clock P) (λ now. Advances-statement P _ _ (λ t.
        update_where-Rows P _ _ (λ r h. record { same = refl; published = inl refl }) t.outbox)))

pending_count-tables : (env : Env) (w : World) → (pending_count env w).1.tables ≡ w.tables
unfolding pending_count query
pending_count-tables env w = elim (Bool-cases (env.faulty w.trips)) [
  | inl p ↦ rw p refl
  | inr p ↦ rw p refl
]

publish_claimed-Rows :
    (c : PublisherConfig) (send : Sender) (env : Env) (before : List OutboxRow)
    (p : Result (List OutboxEvent) × World)
    → ((P : Uuid → Type 0) → Rows P before p.1.tables.outbox)
    → Rows
        (λ id. In id (ids_of (publish_claimed c send env p).0.1))
        before
        (publish_claimed c send env p).1.tables.outbox
unfolding publish_claimed
publish_claimed-Rows c send env before (ok batch, w) h =
    let P : Uuid → Type 0 = λ id. In id (ids_of (sent_of send batch)) in
    let w' = (publish_batch c send batch env w).1 in
    let run = publish_batch-Rows P c send batch env w (λ id m. m) in
    subst (λ (t : Tables). Rows P before t.outbox) (sym (pending_count-tables env w'))
      (Rows-trans P before w.tables.outbox w'.tables.outbox (h P) run)
publish_claimed-Rows c send env before (err e, w) h = h (λ id. In id [])

-- Whatever happens in a run of the publisher, the rows of the outbox stay, with their events: none
-- is removed, added or rewritten. A row that was published stays so, at the same time, and one that
-- gets published in this run is of an event that the broker has taken in this run.
pub publish_due-Rows :
    (c : PublisherConfig) (send : Sender) (env : Env) (w : World)
    → Rows
        (λ id. In id (ids_of (publish_due c send env w).0.1))
        w.tables.outbox
        (publish_due c send env w).1.tables.outbox
unfolding publish_due
publish_due-Rows c send env w =
    publish_claimed-Rows c send env w.tables.outbox (claim_batch c env w)
      (λ P. (Advances-claim_batch P c).advance env w)
