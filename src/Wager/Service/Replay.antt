-- ===== src/Wager/Service/Replay.antt =====
-- internal/app/wager/service.go: repeated requests of `Process`.
use junglegaming_backend_cha.Base.{
  eq_iff, ◌≢◌, string_eq, true, Bool-cases, inl, inr, if◌then◌else◌, ◌∙◌, ◌==◌, none, refl, select,
  String, arith, ◌+◌, false, ◌≡◌, ℕ, zero, suc,
}
use junglegaming_backend_cha.Store.Answers.{IsHealthy, Answers, within_transaction-Answers}
use junglegaming_backend_cha.Wager.Service.{
  same_request, compute_payload_hash, process, by_key_then, by_external_then, attempt, process_once,
  replay, retry,
}
use junglegaming_backend_cha.Wager.{
  Outcome, validate_command, idempotency_conflict, ProcessCommand, Config, is_retryable,
}
use junglegaming_backend_cha.Store.TransactionQueries.{
  by_key, get_by_provider_idempotency_key, by_external, get_by_provider_external,
}
use junglegaming_backend_cha.AppErr.{
  is_kind, kind_of, error_kind_beq, code_of, is_sentinel, err, ok, Error, Result,
}
use junglegaming_backend_cha.Store.{
  ◌>>◌, ◌>>=◌, lift, fail, query, now_from_clock, Db, World, Env, Tables,
}
use junglegaming_backend_cha.Wagering.{Transaction}
use junglegaming_backend_cha.Store.Transactions.{scan_transaction}

conflict-final : is_retryable idempotency_conflict ≡ false
unfolding is_retryable code_of is_sentinel
conflict-final = refl

replay-conflict :
    (t : Transaction) (hash : String) (x : Error) → replay t hash ≡ err x → x ≡ idempotency_conflict
unfolding replay
replay-conflict t hash x h = ground arith

-- The outcome that is stored with a transaction.
abbrev pub stored_outcome : Transaction → Outcome
stored_outcome t = record {
  transaction = t;
  status = t.status;
  balance = t.result_balance;
  failure_code = t.failure_code;
  idempotent_replay = true;
}

-- The stored outcome to the same payload, a conflict to another one.
abbrev pub outcome_or_conflict : Transaction → String → Result Outcome
outcome_or_conflict t hash =
    if t.payload_hash == hash then ok (stored_outcome t) else err idempotency_conflict

replay_lem : (t : Transaction) (hash : String) → replay t hash ≡ outcome_or_conflict t hash
unfolding replay
replay_lem t hash = elim (Bool-cases (t.payload_hash == hash)) [
  | inl e ↦ rw e refl
  | inr e ↦ rw e refl
]

module _ (env : Env) (healthy : IsHealthy env) (before : Tables) where
  -- An answer that is not a conflict of a race is the answer of the whole loop.
  retry-Answers :
      {A : Type 0} (n : ℕ) (m : Db A) (r : Result A)
      → ((x : Error) → r ≡ err x → is_retryable x ≡ false)
      → Answers env healthy before m r
      → Answers env healthy before (retry n m) r
  unfolding retry
  retry-Answers zero m (ok a) final h w e =
      let (p, q) = within_transaction-Answers env healthy before m (ok a) h w e in
      rw (retry, p) (refl, q)
  retry-Answers zero m (err x) final h w e =
      let (p, q) = within_transaction-Answers env healthy before m (err x) h w e in
      rw (retry, p, final x refl) (refl, q)
  retry-Answers (suc n) m (ok a) final h w e =
      let (p, q) = within_transaction-Answers env healthy before m (ok a) h w e in
      rw (retry, p) (refl, q)
  retry-Answers (suc n) m (err x) final h w e =
      let (p, q) = within_transaction-Answers env healthy before m (err x) h w e in
      rw (retry, p, final x refl) (refl, q)

  -- A first lookup that finds the operation settles the request.
  process_once-replay :
      (config : Config) (cmd : ProcessCommand) (hash : String) (t : Transaction)
      → scan_transaction
          (select (by_external cmd.provider_id cmd.external_transaction_id) before.transactions)
        ≡ ok t
      → Answers env healthy before (process_once config cmd hash) (replay t hash)
  unfolding process_once by_external_then get_by_provider_external query attempt now_from_clock
      ◌>>=◌ lift
  process_once-replay config cmd hash t found w e = ground (arith, e, found, healthy w.trips)

  other_id :
      (t : Transaction) (cmd : ProcessCommand) (hash : String)
      → t.external_transaction_id ≢ cmd.external_transaction_id
      → same_request cmd hash t ≡ false
  unfolding same_request
  other_id t cmd hash h =
      ground (arith, eq_iff t.external_transaction_id cmd.external_transaction_id, h)

  -- No operation with this id, but one of another request under the same idempotency key.
  process_once-key :
      (config : Config) (cmd : ProcessCommand) (hash : String) (t : Transaction)
      → select (by_external cmd.provider_id cmd.external_transaction_id) before.transactions ≡ none
      → scan_transaction (select (by_key cmd.provider_id cmd.idempotency_key) before.transactions)
        ≡ ok t
      → t.external_transaction_id ≢ cmd.external_transaction_id
      → Answers env healthy before (process_once config cmd hash) (err idempotency_conflict)
  unfolding process_once by_external_then by_key_then get_by_provider_external
      get_by_provider_idempotency_key query attempt now_from_clock ◌>>=◌ fail is_kind kind_of
      error_kind_beq scan_transaction same_request
  process_once-key config cmd hash t missing found other w e =
      let different = other_id t cmd hash other in
      ground (arith, e, missing, found, different, healthy w.trips, healthy (w.trips + 1))

  -- What one attempt answers for good, `Process` answers to a valid command.
  process-Answers :
      (config : Config) (cmd : ProcessCommand) (r : Result Outcome)
      → ((x : Error) → r ≡ err x → is_retryable x ≡ false)
      → validate_command cmd ≡ ok tt
      → Answers env healthy before (process_once config cmd (compute_payload_hash cmd env)) r
      → Answers env healthy before (process config cmd) r
  unfolding process lift ◌>>=◌ ◌>>◌
  process-Answers config cmd r final valid h w e = rw valid (
      retry-Answers config.max_wallet_retries
        (process_once config cmd (compute_payload_hash cmd env)) r final h w e)

module _ (env : Env) (healthy : IsHealthy env) (config : Config) (cmd : ProcessCommand)
    (t : Transaction) (w : World) (valid : validate_command cmd ≡ ok tt) where
  -- If no round trip fails, a valid command whose external transaction id the provider has already
  -- used gets the stored outcome, marked as a replay, when the payload hashes agree, and
  -- IDEMPOTENCY_CONFLICT when they differ; nothing is applied a second time, since no table changes.
  pub process-replay :
      scan_transaction
          (select (by_external cmd.provider_id cmd.external_transaction_id) w.tables.transactions)
        ≡ ok t
      → ((process config cmd env w).0 ≡ outcome_or_conflict t (compute_payload_hash cmd env))
        × ((process config cmd env w).1.tables ≡ w.tables)
  process-replay found =
      let hash = compute_payload_hash cmd env in
      let (answer, kept) =
        process-Answers env healthy w.tables config cmd (replay t hash)
          (λ x h. rw (replay-conflict t hash x h) conflict-final) valid
          (process_once-replay env healthy w.tables config cmd hash t found) w refl in
      (answer ∙ replay_lem t hash, kept)

  -- If no round trip fails, a valid command whose external transaction id the provider has not used,
  -- under an idempotency key that it has used for an operation with another one, is
  -- IDEMPOTENCY_CONFLICT, whatever the payload hashes, and no table changes.
  pub process_key_conflict :
      select (by_external cmd.provider_id cmd.external_transaction_id) w.tables.transactions ≡ none
      → scan_transaction (select (by_key cmd.provider_id cmd.idempotency_key) w.tables.transactions)
        ≡ ok t
      → t.external_transaction_id ≢ cmd.external_transaction_id
      → ((process config cmd env w).0 ≡ err idempotency_conflict)
        × ((process config cmd env w).1.tables ≡ w.tables)
  process_key_conflict missing found other =
      process-Answers env healthy w.tables config cmd (err idempotency_conflict)
        (λ x h. ground (arith, h, conflict-final)) valid
        (process_once-key env healthy w.tables config cmd _ t missing found other) w refl
