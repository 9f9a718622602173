-- ===== src/Wager/Service/Ledger.antt =====
-- internal/app/wager/service.go: `Process`, on the balances and the ledger.
use junglegaming_backend_cha.Wagering.{external_transaction, Transaction}
use junglegaming_backend_cha.Wager.{is_retryable, validate_command, Outcome, ProcessCommand, Config}
use junglegaming_backend_cha.Store.Hoare.{
  Ends, then_quiet, Quiet-fail, Quiet-lift, accounts, Accounts, Quiet, after_quiet, after_lift,
}
use junglegaming_backend_cha.Store.Calm.{Calm}
use junglegaming_backend_cha.Wager.Quiet.{Quiet-correlation_of}
use junglegaming_backend_cha.Base.{Bool-cases, ◌+◌, ℕ, String, ◌∙◌, refl, sym, zero, suc, inl, inr}
use junglegaming_backend_cha.Wager.Service.{
  compute_payload_hash, process, retry, attempt, process_new, by_key_then, by_external_then,
  process_once,
}
use junglegaming_backend_cha.AppErr.{Result-cases, err, ok, Result}
use junglegaming_backend_cha.Store.{
  Tables, within_transaction, finish, lift, ◌>>=◌, ◌>>◌, Env, World, Db,
}
use junglegaming_backend_cha.Store.Quiet.{
  Quiet-insert_transaction, Quiet-draw, Quiet-now_from_clock,
}
use junglegaming_backend_cha.Wagering.Creation.{new_external-inv}
use mathlib.Core.Path.{subst}
use junglegaming_backend_cha.Wager.Calm.{
  Calm-get_by_provider_external, Calm-get_by_provider_idempotency_key,
}
use junglegaming_backend_cha.Wager.Keeps.{Keeps-if, Keeps, apply_operation-Keeps}
use junglegaming_backend_cha.Types.{Time}
use junglegaming_backend_cha.Base.Int.{IsInt64}
use junglegaming_backend_cha.Store.Consistent.{Consistent}
use junglegaming_backend_cha.Wager.Consistency.{kept}

-- From consistent accounts to consistent accounts, whatever the result.
abbrev pub Preserves : {A : Type 0} → Db A → Env → Type 0
Preserves m env =
    (w : World) → Consistent (accounts w.tables) → Consistent (accounts (m env w).1.tables)

Quiet-attempt : {A : Type 0} {m : Db A} → Calm m → Quiet (attempt m)
unfolding attempt
Quiet-attempt h = record { quiet = λ x. record { run = λ env w e. h.calm env w ∙ e } }

module _ {x : Accounts} (c : Consistent x) (config : Config) (cmd : ProcessCommand)
    (word : IsInt64 cmd.amount.amount) (hash : String) where
  process_new-Keeps : (now : Time) → Keeps x (process_new config cmd hash now)
  unfolding process_new external_transaction
  process_new-Keeps now = after_quiet Quiet-draw (λ id. after_lift _ (λ t made.
      let same : IsInt64 t.amount.amount =
        subst (λ (u : Transaction). IsInt64 u.amount.amount)
          (sym (new_external-inv id _ now t made).1) word in
      then_quiet (Quiet-insert_transaction t) (
        after_quiet (Quiet-correlation_of _ _)
          (λ correlation. apply_operation-Keeps c config t same now correlation))))

  by_key_then-Keeps :
      (r : Result Transaction) (next : Db Outcome)
      → Keeps x next
      → Keeps x (by_key_then cmd hash r next)
  unfolding by_key_then
  by_key_then-Keeps (ok t) next h = Keeps-if _ (kept c (Quiet-lift _)) (kept c (Quiet-fail _))
  by_key_then-Keeps (err e) next h = Keeps-if _ h (kept c (Quiet-fail e))

  by_external_then-Keeps :
      (r : Result Transaction) (next : Db Outcome)
      → Keeps x next
      → Keeps x (by_external_then hash r next)
  unfolding by_external_then
  by_external_then-Keeps (ok t) next h = kept c (Quiet-lift _)
  by_external_then-Keeps (err e) next h = Keeps-if _ h (kept c (Quiet-fail e))

  process_once-Keeps : Keeps x (process_once config cmd hash)
  unfolding process_once
  process_once-Keeps = after_quiet Quiet-now_from_clock (λ now.
      after_quiet (Quiet-attempt (Calm-get_by_provider_external _ _)) (λ r.
        by_external_then-Keeps r _ (
          after_quiet (Quiet-attempt (Calm-get_by_provider_idempotency_key _ _))
            (λ k. by_key_then-Keeps k _ (process_new-Keeps now)))))

module _ (env : Env) where
  finish-Preserves :
      {A : Type 0} (before : Tables) (p : Result A × World)
      → Consistent (accounts before)
      → Ends (λ a y. Consistent y) p
      → Consistent (accounts (finish before p env).1.tables)
  unfolding finish
  finish-Preserves before (ok a, w) c h = elim (Bool-cases (env.faulty w.trips)) [
    | inl e ↦ elim (Bool-cases (env.committed w.trips)) [
      | inl k ↦ rw (finish, e, k) h
      | inr k ↦ rw (finish, e, k) c
    ]
    | inr e ↦ rw (finish, e) h
  ]
  finish-Preserves before (err e, w) c h = c

  pub within_transaction-Preserves :
      {A : Type 0} (m : Db A)
      → ((x : Accounts) → Consistent x → Keeps x m)
      → Preserves (within_transaction m) env
  unfolding within_transaction
  within_transaction-Preserves m h w c =
      let next : World = record w { trips = w.trips + 1 } in
      elim (Bool-cases (env.faulty w.trips)) [
        | inl e ↦ rw (within_transaction, e) c
        | inr e ↦
            rw (within_transaction, e)
              (finish-Preserves w.tables (m env next) c
                ((h (accounts w.tables) c).run env next refl))
      ]

  retry-Preserves :
      {A : Type 0} (n : ℕ) (m : Db A)
      → ((x : Accounts) → Consistent x → Keeps x m)
      → Preserves (retry n m) env
  unfolding retry
  retry-Preserves zero m h w c =
      let once = within_transaction-Preserves m h w c in
      elim (Result-cases (within_transaction m env w).0) [
        | inl (a, p) ↦ rw (retry, p) once
        | inr (e, p) ↦ rw (retry, p) once
      ]
  retry-Preserves (suc n) m h w c =
      let once = within_transaction-Preserves m h w c in
      elim (Result-cases (within_transaction m env w).0) [
        | inl (a, p) ↦ rw (retry, p) once
        | inr (e, p) ↦ elim (Bool-cases (is_retryable e)) [
          | inl q ↦ rw (retry, p, q) (retry-Preserves n m h (within_transaction m env w).1 once)
          | inr q ↦ rw (retry, p, q) once
        ]
      ]

  pub lift_then-Preserves :
      {A B : Type 0} (r : Result B) (k : Db A) → Preserves k env → Preserves (lift r >> k) env
  unfolding lift ◌>>◌ ◌>>=◌
  lift_then-Preserves (ok b) k h w c = h w c
  lift_then-Preserves (err e) k h w c = c

-- From tables where every wallet's balance is the sum of its credits less its debits (and 0 for a
-- wallet that does not exist), and an int64, `process` leads to such tables again: whatever
-- operation with an int64 amount it is, whatever its outcome, which round trips fail, and how
-- often it is tried again.
pub process_keeps_ledger :
    (env : Env) (config : Config) (cmd : ProcessCommand) (w : World)
    → IsInt64 cmd.amount.amount
    → Consistent (accounts w.tables)
    → Consistent (accounts (process config cmd env w).1.tables)
unfolding process
process_keeps_ledger env config cmd w word =
    lift_then-Preserves env (validate_command cmd) _
      (λ v.
        retry-Preserves env config.max_wallet_retries _
          (λ x c. process_once-Keeps c config cmd word (compute_payload_hash cmd env)) v)
      w
