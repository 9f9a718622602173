-- ===== src/Outbox/Progress.antt =====
-- internal/app/outbox/publisher.go: `PublishDue` makes progress.
use junglegaming_backend_cha.Base.{
  take, sorted_where, insert_sorted, some, String, Option, none, ℕ, zero, suc, ◌+◌, ◌≤◌, Bool, true,
  false, List, [], ◌∷◌, map, In, inl, inr, if◌then◌else◌, ◌==◌, nat_eq, ◌≡◌, refl, arith,
  Bool-cases, sym, ◌∙◌, ap, update_where, count_where,
}
use mathlib.Core.Path.{subst}
use junglegaming_backend_cha.Outbox.Claims.{candidates-IsClaimable}
use junglegaming_backend_cha.AppErr.{err, Result, ok}
use junglegaming_backend_cha.Outbox.{
  publish_one, publish_batch, Sender, publish_due, publish_claimed, PublisherConfig, claim_batch,
  confirm,
}
use junglegaming_backend_cha.Base.Int.{ℤ}
use junglegaming_backend_cha.Types.{Time}
use junglegaming_backend_cha.Store.{
  OutboxRow, Env, World, statement, within_transaction, now_from_clock, finish, ◌>>=◌,
}
use junglegaming_backend_cha.Store.Outbox.{OutboxEvent}
use junglegaming_backend_cha.Store.Outbox.Publishing.{
  claim_events, claim_rows, candidates, claimable, lock_cutoff, limit_of, event_of, precedes,
  open_event, is_among, set_lock, mark_published, mark_published_rows,
}
use junglegaming_backend_cha.Store.Answers.{IsHealthy}

abbrev IsCons : {A : Type 0} → List A → Type 0
IsCons {A} xs = (x : A) × (rest : List A) × (xs ≡ x ∷ rest)

insert_sorted-IsCons :
    (r : OutboxRow) (rows : List OutboxRow) → IsCons (insert_sorted precedes r rows)
unfolding insert_sorted
insert_sorted-IsCons r [] = (r, [], refl)
insert_sorted-IsCons r (x ∷ xs) = elim (Bool-cases (precedes x r)) [
  | inl e ↦ (x, insert_sorted precedes r xs, rw e refl)
  | inr e ↦ (r, x ∷ xs, rw e refl)
]

sorted_where-IsCons :
    (p : OutboxRow → Bool) (r : OutboxRow) (rows : List OutboxRow)
    → In r rows
    → p r ≡ true
    → IsCons (sorted_where precedes p rows)
unfolding sorted_where
sorted_where-IsCons p r [] h e = absurd h
sorted_where-IsCons p r (x ∷ rows) h e = elim (Bool-cases (p x)) [
  | inl q ↦ rw q (insert_sorted-IsCons x (sorted_where precedes p rows))
  | inr q ↦ elim h [
    | inl same ↦ absurd (ground (arith, e, q, ap p same))
    | inr k ↦ rw q (sorted_where-IsCons p r rows k e)
  ]
]

candidates-IsCons :
    (now cutoff : Time) (limit : ℕ) (rows : List OutboxRow) (r : OutboxRow)
    → 1 ≤ limit
    → In r rows
    → claimable now cutoff rows r ≡ true
    → IsCons (candidates now cutoff limit rows)
unfolding candidates take
candidates-IsCons now cutoff zero rows r h m e = absurd (omega arith)
candidates-IsCons now cutoff (suc n) rows r h m e =
    let (x, rest, p) = sorted_where-IsCons (claimable now cutoff rows) r rows m e in
    (x, take n rest, ap (take (suc n)) p)

updated-In :
    (q : OutboxRow → Bool) (f : OutboxRow → OutboxRow) (x : OutboxRow) (rows : List OutboxRow)
    → In x rows
    → In (if q x then f x else x) (update_where q f rows)
unfolding update_where
updated-In q f x [] h = h
updated-In q f x (y ∷ rows) (inl e) = inl (ap (λ z. if q z then f z else z) e)
updated-In q f x (y ∷ rows) (inr h) = inr (updated-In q f x rows h)

counted-In :
    {A : Type 0} (p : A → Bool) (x : A) (xs : List A)
    → In x xs
    → p x ≡ true
    → (count_where p xs == 0) ≡ false
unfolding count_where
counted-In p x [] h e = absurd h
counted-In p x (y ∷ ys) (inl same) e = let q = sym (ap p same) ∙ e in ground (arith, q)
counted-In p x (y ∷ ys) (inr h) e = let k = counted-In p x ys h e in ground (arith, k)

limit_of-positive : (z : ℤ) → 1 ≤ limit_of z
unfolding limit_of
limit_of-positive z = ground arith

module _ (env : Env) (healthy : IsHealthy env) where
  claim_batch-run :
      (c : PublisherConfig) (w : World)
      → let now = env.clock w.readings in
        let chosen =
          candidates now (lock_cutoff now c.lock_ttl) (limit_of c.batch_size) w.tables.outbox in
        ((claim_batch c env w).0 ≡ ok (map event_of chosen))
        × ((claim_batch c env w).1.tables.outbox
            ≡ update_where (is_among chosen) (set_lock c.publisher_id now) w.tables.outbox)
  unfolding claim_batch claim_events claim_rows statement within_transaction finish now_from_clock
      ◌>>=◌
  claim_batch-run c w =
      ground (arith, healthy w.trips, healthy (w.trips + 1), healthy (w.trips + 1 + 1))

  confirm-run :
      (e : OutboxEvent) (w : World)
      → (count_where (open_event e.event_id) w.tables.outbox == 0) ≡ false
      → (confirm e env w).0 ≡ ok tt
  unfolding confirm mark_published mark_published_rows statement within_transaction finish
      now_from_clock ◌>>=◌
  confirm-run e w h =
      ground (arith, h, healthy w.trips, healthy (w.trips + 1), healthy (w.trips + 1 + 1))

publish_claimed-ok :
    (c : PublisherConfig) (send : Sender) (env : Env) (p : Result (List OutboxEvent) × World)
    (batch : List OutboxEvent)
    → p.0 ≡ ok batch
    → (publish_claimed c send env p).0.0 ≡ ok (publish_batch c send batch env p.1).0
unfolding publish_claimed
publish_claimed-ok c send env (ok b, w) batch h =
    let same : b ≡ batch = cc h in ap (λ es. ok (publish_batch c send es env w).0) same
publish_claimed-ok c send env (err e, w) batch h = cc h

publish_one-confirmed :
    (c : PublisherConfig) (e : OutboxEvent) (o : Option String) (env : Env) (w : World)
    → o ≡ none
    → (confirm e env w).0 ≡ ok tt
    → publish_one c e o env w ≡ (true, (confirm e env w).1)
unfolding publish_one
publish_one-confirmed c e none env w h k = rw (publish_one, k) refl
publish_one-confirmed c e (some text) env w h k = absurd (ground (arith, h))

publish_batch-first :
    (c : PublisherConfig) (send : Sender) (e : OutboxEvent) (es : List OutboxEvent) (env : Env)
    (w : World)
    → send e ≡ none
    → (confirm e env w).0 ≡ ok tt
    → (publish_batch c send (e ∷ es) env w).0
      ≡ suc (publish_batch c send es env (confirm e env w).1).0
unfolding publish_batch
publish_batch-first c send e es env w h k =
    ap
      (λ (p : Bool × World).
        let rest = (publish_batch c send es env p.1).0 in if p.0 then suc rest else rest)
      (publish_one-confirmed c e (send e) env w h k)

-- If no round trip fails, the broker takes whatever it is sent, and some stored event may be
-- claimed, then a run of the publisher confirms at least one publication.
pub publish_due_progress :
    (c : PublisherConfig) (send : Sender) (env : Env) (w : World) (r : OutboxRow)
    → IsHealthy env
    → ((e : OutboxEvent) → send e ≡ none)
    → In r w.tables.outbox
    → claimable
        (env.clock w.readings)
        (lock_cutoff (env.clock w.readings) c.lock_ttl)
        w.tables.outbox
        r
      ≡ true
    → (n : ℕ) × ((publish_due c send env w).0.0 ≡ ok (suc n))
unfolding publish_due
publish_due_progress c send env w r healthy takes m h =
    let now = env.clock w.readings in
    let cutoff = lock_cutoff now c.lock_ttl in
    let limit = limit_of c.batch_size in
    let chosen = candidates now cutoff limit w.tables.outbox in
    let (x, rest, cons) =
      candidates-IsCons now cutoff limit w.tables.outbox r (limit_of-positive c.batch_size) m h in
    let (inside, waits) =
      candidates-IsClaimable now cutoff limit w.tables.outbox x
        (subst (λ l. In x l) (sym cons) (inl refl)) in
    let (claimed, locked) = claim_batch-run env healthy c w in
    let w' = (claim_batch c env w).1 in
    let x' = if is_among chosen x then set_lock c.publisher_id now x else x in
    let stored : In x' w'.tables.outbox =
      subst (λ l. In x' l) (sym locked)
        (updated-In (is_among chosen) (set_lock c.publisher_id now) x w.tables.outbox inside) in
    let selected : open_event x.event_id x' ≡ true = elim (Bool-cases (is_among chosen x)) [
      | inl e ↦ ground (arith, e, waits.waiting)
      | inr e ↦ ground (arith, e, waits.waiting)
    ] in
    let free = counted-In (open_event x.event_id) x' w'.tables.outbox stored selected in
    let done = confirm-run env healthy (event_of x) w' free in
    let run = publish_claimed-ok c send env (claim_batch c env w) _ claimed in
    let later = (publish_batch c send (map event_of rest) env (confirm (event_of x) env w').1).0 in
    (
      later,
      run
          ∙ ap (λ l. ok (publish_batch c send (map event_of l) env w').0) cons
          ∙ ap (λ k. ok k)
              (publish_batch-first c send (event_of x) (map event_of rest) env w'
                (takes (event_of x)) done),
    )
