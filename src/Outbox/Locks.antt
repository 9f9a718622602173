-- ===== src/Outbox/Locks.antt =====
-- internal/adapters/postgres/outbox_repo.go, internal/app/outbox/publisher.go: the locks of `Claim`.
use junglegaming_backend_cha.Types.{in_microseconds, Time}
use junglegaming_backend_cha.Base.{
  String, Option, ◌≡◌, ◌≢◌, refl, sym, ap, ◌∙◌, arith, ℕ, ◌≤◌, ◌<◌, ◌+◌, ◌^◌, true, Bool-cases,
  List, [], ◌∷◌, some, In, In-map-inv, inl, inr, nat_eq, update_where,
}
use mathlib.Core.Path.{subst}
use junglegaming_backend_cha.Base.Int.{pos, ◌-ℤ◌, wrap64}
use junglegaming_backend_cha.AppErr.{ok}
use junglegaming_backend_cha.Store.{
  OutboxRow, Env, World, Tables, within_transaction, statement, finish, now_from_clock, ◌>>=◌,
}
use junglegaming_backend_cha.Store.Outbox.{OutboxEvent}
use junglegaming_backend_cha.Store.Outbox.Publishing.{
  candidates, is_among, set_lock, lock_cutoff, limit_of, event_of, claim_events, claim_rows,
  lock_free,
}
use junglegaming_backend_cha.Outbox.{PublisherConfig, claim_batch}
use junglegaming_backend_cha.Outbox.Claims.{candidates-IsClaimable}
use junglegaming_backend_cha.Outbox.Order.{claim_batch-inv}

is_among-In :
    (chosen : List OutboxRow) (x r : OutboxRow)
    → In x chosen
    → x.event_id ≡ r.event_id
    → is_among chosen r ≡ true
unfolding is_among
is_among-In [] x r m e = absurd m
is_among-In (c ∷ chosen) x r (inl same) e =
    let id : c.event_id ≡ r.event_id = ap (λ (y : OutboxRow). y.event_id) (sym same) ∙ e in
    ground (arith, id)
is_among-In (c ∷ chosen) x r (inr m) e =
    let rest = is_among-In chosen x r m e in ground (arith, rest)

-- After a claim, every row with the id of a claimed one is locked at the instant of the claim.
update_where-set_lock :
    (chosen : List OutboxRow) (publisher : String) (now : Time) (rows : List OutboxRow)
    (x r : OutboxRow)
    → In x chosen
    → In r (update_where (is_among chosen) (set_lock publisher now) rows)
    → x.event_id ≡ r.event_id
    → r.locked_at ≡ some (in_microseconds now)
unfolding update_where
update_where-set_lock chosen publisher now [] x r m k e = absurd k
update_where-set_lock chosen publisher now (y ∷ rows) x r m (inl same) e =
    elim (Bool-cases (is_among chosen y)) [
      | inl p ↦
          let locked : r ≡ set_lock publisher now y = same ∙ rw p refl in
          ap (λ (z : OutboxRow). z.locked_at) locked
      | inr p ↦
          let kept : r ≡ y = same ∙ rw p refl in
          let among = is_among-In chosen x y m (e ∙ ap (λ (z : OutboxRow). z.event_id) kept) in
          absurd (ground (arith, p, among))
    ]
update_where-set_lock chosen publisher now (y ∷ rows) x r m (inr k) e =
    update_where-set_lock chosen publisher now rows x r m k e

-- The rows after a claim that succeeded.
claim_batch-rows :
    (c : PublisherConfig) (env : Env) (w : World) (batch : List OutboxEvent)
    → (claim_batch c env w).0 ≡ ok batch
    → (claim_batch c env w).1.tables.outbox
      ≡ update_where
          (is_among (
            candidates
              (env.clock w.readings)
              (lock_cutoff (env.clock w.readings) c.lock_ttl)
              (limit_of c.batch_size)
              w.tables.outbox))
          (set_lock c.publisher_id (env.clock w.readings))
          w.tables.outbox
unfolding claim_batch claim_events claim_rows statement now_from_clock ◌>>=◌ within_transaction
    finish
claim_batch-rows c env w batch h = ground (arith, h)

cutoff_before : (now later d : ℕ) → d < 2 ^ 63 → later ≤ now + d → lock_cutoff later (pos d) ≤ now
unfolding lock_cutoff wrap64 ◌-ℤ◌
cutoff_before now later d b h = ground arith

in_microseconds_mono : (t u : Time) → t ≤ u → in_microseconds t ≤ in_microseconds u
unfolding in_microseconds
in_microseconds_mono t u h = omega arith

still_locked :
    (cutoff now : Time) (at : Option Time)
    → lock_free cutoff at ≡ true
    → at ≡ some (in_microseconds now)
    → cutoff ≤ now
    → ⊥
still_locked cutoff now at free locked early =
    let cut = in_microseconds_mono cutoff now early in ground (arith, free, locked, cut)

-- An event that one publisher has claimed is not claimed by another one, or by the same one, as long
-- as the lock is good: if a claim is made on the tables that an earlier claim left, no later than
-- the lock time of the second publisher after the first claim, the two batches have no event in
-- common.
pub claimed_once :
    (c k : PublisherConfig) (env other_env : Env) (w v : World) (d : ℕ)
    (batch other_batch : List OutboxEvent) (e f : OutboxEvent)
    → (claim_batch c env w).0 ≡ ok batch
    → v.tables ≡ (claim_batch c env w).1.tables
    → (claim_batch k other_env v).0 ≡ ok other_batch
    → k.lock_ttl ≡ pos d
    → d < 2 ^ 63
    → other_env.clock v.readings ≤ env.clock w.readings + d
    → In e batch
    → In f other_batch
    → e.event_id ≢ f.event_id
claimed_once c k env other_env w v d batch other_batch e f h same g ttl word soon m n id =
    let now = env.clock w.readings in
    let later = other_env.clock v.readings in
    let (x, inside, x_eq) =
      In-map-inv event_of e _ (subst (λ b. In e b) (claim_batch-inv c env w batch h) m) in
    let (y, chosen, y_eq) =
      In-map-inv event_of f _
        (subst (λ b. In f b) (claim_batch-inv k other_env v other_batch g) n) in
    let (stored, claimable) =
      candidates-IsClaimable later (lock_cutoff later k.lock_ttl) (limit_of k.batch_size)
        v.tables.outbox y chosen in
    let rows = ap (λ (t : Tables). t.outbox) same ∙ claim_batch-rows c env w batch h in
    let ids : x.event_id ≡ y.event_id =
      ap (λ (z : OutboxEvent). z.event_id) x_eq
      ∙ id
      ∙ ap (λ (z : OutboxEvent). z.event_id) (sym y_eq) in
    let locked =
      update_where-set_lock _ c.publisher_id now w.tables.outbox x y inside
        (subst (λ r. In y r) rows stored) ids in
    let early =
      subst (λ t. lock_cutoff later t ≤ now) (sym ttl) (cutoff_before now later d word soon) in
    still_locked (lock_cutoff later k.lock_ttl) now y.locked_at claimable.unlocked locked early
