-- ===== src/Wager/Service.antt =====
-- internal/app/wager/service.go: the entry points `Process` and `ResumeDue`, and hash.go. Metrics
-- and logs are left out.
pub mod Due
pub mod Replay
pub mod Ledger
pub mod Stored
pub mod Rounds
use junglegaming_backend_cha.Money.{codes}
use junglegaming_backend_cha.Store.TransactionRepo.{insert_transaction}
use junglegaming_backend_cha.Store.TransactionQueries.{
  get_transaction, get_by_provider_idempotency_key, get_by_provider_external, claim_one,
}
use junglegaming_backend_cha.Base.{
  false, none, Bool, Option, String, ℕ, [], string_eq, true, suc, ◌!=◌, some, ◌&&◌, ◌==◌,
  if◌then◌else◌, ◌∷◌, zero, nat_eq,
}
use junglegaming_backend_cha.Wagering.{new_external, Transaction}
use junglegaming_backend_cha.Money.Text.{amount_string}
use junglegaming_backend_cha.Wager.Movement.{apply_operation}
use junglegaming_backend_cha.Wagering.Kinds.{kind_text}
use junglegaming_backend_cha.Store.{
  draw, Db, World, Env, lift, pure, fail, now_from_clock, within_transaction, ◌>>=◌, ◌>>◌,
}
use junglegaming_backend_cha.Wager.{
  Config, ProcessCommand, Outcome, idempotency_conflict, validate_command, is_retryable,
}
use junglegaming_backend_cha.Types.{Time}
use junglegaming_backend_cha.Wager.Events.{correlation_of}
use junglegaming_backend_cha.AppErr.{ErrorKind, Error, Result, ok, err, code_of, is_kind}
use junglegaming_backend_cha.Wallet.{code_version_conflict}

-- `ComputePayloadHash`: the fields of the canonical JSON object in the order of their keys, with
-- those of the nested object `money` under their full path.
unfoldable pub compute_payload_hash : ProcessCommand → Env → String
compute_payload_hash cmd env = env.digest (
    ("externalTransactionId", codes cmd.external_transaction_id)
    ∷ ("gameId", codes cmd.game_id)
    ∷ ("kind", codes (kind_text cmd.kind))
    ∷ ("money.amount", amount_string cmd.amount)
    ∷ ("money.currency", codes cmd.amount.currency)
    ∷ ("playerId", codes (env.uuid_text cmd.player_id))
    ∷ ("providerId", codes cmd.provider_id)
    ∷ ("referenceExternalTransactionId", codes cmd.reference_external_transaction_id)
    ∷ ("roundId", codes cmd.round_id)
    ∷ ("walletId", codes (env.uuid_text cmd.wallet_id))
    ∷ [])

-- `replay`
unfoldable pub replay : Transaction → String → Result Outcome
replay existing hash =
    if existing.payload_hash != hash
    then err idempotency_conflict
    else ok (record {
      transaction = existing;
      status = existing.status;
      balance = existing.result_balance;
      failure_code = existing.failure_code;
      idempotent_replay = true;
    })

-- `processOnce` once both lookups have found nothing. The id is drawn first; one that a failed
-- check leaves unused has no effect.
unfoldable pub process_new : Config → ProcessCommand → String → Time → Db Outcome
process_new config cmd hash now = do
  id ← draw
  t ← lift (
      new_external id
        (record {
          provider_id = cmd.provider_id;
          external_transaction_id = cmd.external_transaction_id;
          idempotency_key = cmd.idempotency_key;
          payload_hash = hash;
          wallet_id = cmd.wallet_id;
          player_id = cmd.player_id;
          round_id = cmd.round_id;
          game_id = cmd.game_id;
          kind = cmd.kind;
          amount = cmd.amount;
          reference_external_transaction_id = cmd.reference_external_transaction_id;
        })
        now)
  insert_transaction t
  correlation ← correlation_of cmd.correlation_id t.id
  apply_operation config t now correlation

unfoldable pub same_request : ProcessCommand → String → Transaction → Bool
same_request cmd hash t =
    t.external_transaction_id == cmd.external_transaction_id && t.payload_hash == hash

-- The lookup by idempotency key, and what follows it.
unfoldable pub by_key_then : ProcessCommand → String → Result Transaction → Db Outcome → Db Outcome
unfolding same_request
by_key_then cmd hash (ok t) next =
    if same_request cmd hash t then lift (replay t hash) else fail idempotency_conflict
by_key_then cmd hash (err e) next = if is_kind e ErrorKind.not_found then next else fail e

-- The lookup by external transaction id, and what follows it.
unfoldable pub by_external_then : String → Result Transaction → Db Outcome → Db Outcome
by_external_then hash (ok t) next = lift (replay t hash)
by_external_then hash (err e) next = if is_kind e ErrorKind.not_found then next else fail e

-- The result of a call as a value.
unfoldable pub attempt : {A : Type 0} → Db A → Db (Result A)
attempt m env w = let (r, w') = m env w in (ok r, w')

-- `processOnce`
unfoldable pub process_once : Config → ProcessCommand → String → Db Outcome
unfolding by_external_then by_key_then
process_once config cmd hash = do
  now ← now_from_clock
  existing ← attempt (get_by_provider_external cmd.provider_id cmd.external_transaction_id)
  by_external_then hash existing (do
    by_key ← attempt (get_by_provider_idempotency_key cmd.provider_id cmd.idempotency_key)
    by_key_then cmd hash by_key (process_new config cmd hash now))

-- The error after the last attempt.
abbrev pub exhausted : Error → Error
exhausted e = Error.wrap ErrorKind.conflict code_version_conflict e

-- The loop of `Process` with the number of attempts that are left after this one.
unfoldable pub retry : {A : Type 0} → ℕ → Db A → Db A
retry zero m env w =
    let (r, w') = within_transaction m env w in
    elim r [ ok a ↦ (ok a, w') | err e ↦ (err (if is_retryable e then exhausted e else e), w') ]
retry (suc n) m env w =
    let (r, w') = within_transaction m env w in
    elim r [
      | ok a ↦ (ok a, w')
      | err e ↦ elim (is_retryable e) [ true ↦ retry n m env w' | false ↦ (err e, w') ]
    ]

-- `Process`
unfoldable pub process : Config → ProcessCommand → Db Outcome
process config cmd = do
  lift (validate_command cmd)
  (λ env w.
      retry config.max_wallet_retries (process_once config cmd (compute_payload_hash cmd env)) env
        w)

-- One attempt of `resumeOne`, under a savepoint.
unfoldable pub resume_attempt : Config → Transaction → Db Outcome
resume_attempt config t = within_transaction (do
  now ← now_from_clock
  correlation ← correlation_of "" t.id
  apply_operation config t now correlation)

-- The loop of `resumeOne`; each attempt after the first one reads the transaction again.
unfoldable pub resume_rounds : ℕ → Config → Transaction → Db Outcome
resume_rounds zero config t env w =
    let (r, w') = resume_attempt config t env w in
    elim r [ ok a ↦ (ok a, w') | err e ↦ (err (if is_retryable e then exhausted e else e), w') ]
resume_rounds (suc n) config t env w =
    let (r, w') = resume_attempt config t env w in
    elim r [
      | ok a ↦ (ok a, w')
      | err e ↦ elim (is_retryable e) [
        | true ↦
            let (again, w'') = get_transaction t.id env w' in
            elim again [
              | ok reloaded ↦ resume_rounds n config reloaded env w''
              | err e' ↦ (err e', w'')
            ]
        | false ↦ (err e, w')
      ]
    ]

resume_claimed : Config → Option Transaction → Db Bool
resume_claimed config none = pure false
resume_claimed config (some t) = do resume_rounds config.max_wallet_retries config t; pure true

-- `resumeOne`: whether there was a transaction to resume.
unfoldable pub resume_one : Config → Db Bool
unfolding resume_claimed
resume_one config =
    within_transaction (do now ← now_from_clock; found ← claim_one now; resume_claimed config found)

-- `ResumeDue`: the number of resumed transactions, and the error that ended the loop.
unfoldable pub resume_due : ℕ → Config → Env → World → (ℕ × Option Error) × World
resume_due zero config env w = ((0, none), w)
resume_due (suc limit) config env w =
    let (r, w') = resume_one config env w in
    elim r [
      | ok claimed ↦ elim claimed [
        | true ↦ let ((n, e), w'') = resume_due limit config env w' in ((suc n, e), w'')
        | false ↦ ((0, none), w')
      ]
      | err e ↦ ((0, some e), w')
    ]
