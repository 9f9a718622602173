-- ===== src/Wagering/Lifecycle.antt =====
-- internal/domain/wagering/transaction.go: the state machine of a transaction.
use junglegaming_backend_cha.Wagering.{is_nil_balance, Transaction, rehydrate, code_terminal_state}
use junglegaming_backend_cha.Base.{
  ◌∙◌, ◌≡◌, ◌≢◌, String, Bool, true, false, string_eq, arith, Option, none, eq_iff, ◌⊎◌, inl, inr,
}
use junglegaming_backend_cha.Base.Int.{pos, ◌≤ℤ◌, +ℤ_parts}
use junglegaming_backend_cha.AppErr.{ErrorKind, Error, Result, ok, err}
use junglegaming_backend_cha.Types.{Time}
use junglegaming_backend_cha.Money.{Money, is_valid}
use junglegaming_backend_cha.Wagering.Kinds.{is_loss}
use junglegaming_backend_cha.Wagering.Statuses.{
  Status, processed, rejected, failed, is_terminal, is_processed, is_unsuccessful,
}
use junglegaming_backend_cha.Wagering.Transitions.{
  assert_transition, allowed, is_waiting, mark_pending_reference, schedule_retry, mark_processed,
  mark_rejected, mark_failed,
}

-- One call of a method of the aggregate that succeeds, at a proper instant.
pub data Step (t u : Transaction) : Type 0 where
  wait : (now : Time) → now ≢ 0 → mark_pending_reference t now ≡ ok u → Step t u
  retry : (next now : Time) → now ≢ 0 → schedule_retry t next now ≡ ok u → Step t u
  process :
      (balance : Money) (now : Time) → now ≢ 0 → mark_processed t balance now ≡ ok u → Step t u
  reject :
      (code : String) (balance : Option Money) (now : Time)
      → now ≢ 0
      → mark_rejected t code balance now ≡ ok u
      → Step t u
  fail : (code : String) (now : Time) → now ≢ 0 → mark_failed t code now ≡ ok u → Step t u

pub data Reach (t : Transaction) : Transaction → Type 0 where
  here : Reach t t
  further : {u v : Transaction} → Reach t u → Step u v → Reach t v

-- A transaction that is PROCESSED, REJECTED or FAILED refuses every transition with
-- TRANSACTION_TERMINAL.
pub terminal_absorbs :
    (t : Transaction) (balance : Money) (code : String) (observed : Option Money) (next now : Time)
    → (t.status ≡ processed) ⊎ ((t.status ≡ rejected) ⊎ (t.status ≡ failed))
    → let refused : Result Transaction = err (Error.new ErrorKind.conflict code_terminal_state) in
      (mark_pending_reference t now ≡ refused)
      × (schedule_retry t next now ≡ refused)
      × (mark_processed t balance now ≡ refused)
      × (mark_rejected t code observed now ≡ refused)
      × (mark_failed t code now ≡ refused)
unfolding mark_pending_reference schedule_retry mark_processed mark_rejected mark_failed
    assert_transition is_terminal is_waiting
terminal_absorbs t balance code observed next now (inl h) = ground (arith, h)
terminal_absorbs t balance code observed next now (inr (inl h)) = ground (arith, h)
terminal_absorbs t balance code observed next now (inr (inr h)) = ground (arith, h)

-- What a step leaves alone.
pub record SameIdentity (t u : Transaction) : Type 0 where
  pub id : u.id ≡ t.id
  pub origin : u.origin ≡ t.origin
  pub provider : u.provider_id ≡ t.provider_id
  pub external : u.external_transaction_id ≡ t.external_transaction_id
  pub key : u.idempotency_key ≡ t.idempotency_key
  pub hash : u.payload_hash ≡ t.payload_hash
  pub wallet : u.wallet_id ≡ t.wallet_id
  pub player : u.player_id ≡ t.player_id
  pub kind : u.kind ≡ t.kind
  pub amount : u.amount ≡ t.amount
  pub created : u.created_at ≡ t.created_at
  pub attempts : t.attempts ≤ℤ u.attempts

-- The conditions that the reader of the database checks.
pub record IsPersistable (t : Transaction) : Type 0 where
  pub id : t.id ≢ 0
  pub wallet : t.wallet_id ≢ 0
  pub player : t.player_id ≢ 0
  pub amount : is_valid t.amount ≡ true
  pub attempts : pos 0 ≤ℤ t.attempts
  pub balance : is_processed t.status ≡ true → is_loss t.kind ≡ false → t.result_balance ≢ none
  pub code : is_unsuccessful t.status ≡ true → t.failure_code ≢ ""
  pub created : t.created_at ≢ 0
  pub updated : t.updated_at ≢ 0

Step-SameIdentity : {t u : Transaction} → Step t u → SameIdentity t u
unfolding mark_pending_reference schedule_retry mark_processed mark_rejected mark_failed
    assert_transition
Step-SameIdentity (wait now n h) = ground arith
Step-SameIdentity {t} (retry next now n h) = ground (arith, +ℤ_parts t.attempts (pos 1))
Step-SameIdentity (process balance now n h) = ground arith
Step-SameIdentity (reject code balance now n h) = ground arith
Step-SameIdentity (fail code now n h) = ground arith

Step-IsPersistable : {t u : Transaction} → Step t u → IsPersistable t → IsPersistable u
unfolding mark_pending_reference schedule_retry mark_processed mark_rejected mark_failed
    assert_transition is_processed is_unsuccessful is_terminal allowed is_waiting
Step-IsPersistable (wait now n h) p = ground arith
Step-IsPersistable {t} (retry next now n h) p = ground (arith, +ℤ_parts t.attempts (pos 1))
Step-IsPersistable (process balance now n h) p = ground arith
Step-IsPersistable (reject code balance now n h) p = ground (arith, eq_iff code "")
Step-IsPersistable (fail code now n h) p = ground (arith, eq_iff code "")

pub Reach-IsPersistable : {t u : Transaction} → IsPersistable t → Reach t u → IsPersistable u
Reach-IsPersistable p here = p
Reach-IsPersistable p (further r s) = Step-IsPersistable s (Reach-IsPersistable p r)

SameIdentity-trans : {t u v : Transaction} → SameIdentity t u → SameIdentity u v → SameIdentity t v
SameIdentity-trans a b = record {
  id = b.id ∙ a.id;
  origin = b.origin ∙ a.origin;
  provider = b.provider ∙ a.provider;
  external = b.external ∙ a.external;
  key = b.key ∙ a.key;
  hash = b.hash ∙ a.hash;
  wallet = b.wallet ∙ a.wallet;
  player = b.player ∙ a.player;
  kind = b.kind ∙ a.kind;
  amount = b.amount ∙ a.amount;
  created = b.created ∙ a.created;
  attempts = omega arith;
}

SameIdentity-refl : (t : Transaction) → SameIdentity t t
SameIdentity-refl t = ground arith

pub Reach-SameIdentity : {t u : Transaction} → Reach t u → SameIdentity t u
Reach-SameIdentity {t} here = SameIdentity-refl t
Reach-SameIdentity (further r s) = SameIdentity-trans (Reach-SameIdentity r) (Step-SameIdentity s)

-- The reader of the database accepts the persistable transactions as they are.
pub rehydrate_persistable : (t : Transaction) → IsPersistable t → rehydrate t ≡ ok t
unfolding rehydrate is_terminal is_processed is_unsuccessful is_nil_balance
rehydrate_persistable t p = ground (arith, eq_iff t.failure_code "")

-- One of the five statuses of the program.
abbrev pub is_named : Status → Bool
is_named (Status.other raw) = false
is_named _ = true

Step-named : {t u : Transaction} → Step t u → is_named t.status ≡ true → is_named u.status ≡ true
unfolding mark_pending_reference schedule_retry mark_processed mark_rejected mark_failed
    assert_transition
Step-named (wait now n h) p = ground (arith, h, p)
Step-named (retry next now n h) p = ground (arith, h, p)
Step-named (process balance now n h) p = ground (arith, h, p)
Step-named (reject code balance now n h) p = ground (arith, h, p)
Step-named (fail code now n h) p = ground (arith, h, p)

pub Reach-named :
    {t u : Transaction} → is_named t.status ≡ true → Reach t u → is_named u.status ≡ true
Reach-named p here = p
Reach-named p (further r s) = Step-named s (Reach-named p r)
