-- ===== src/Wager/Calm.antt =====
-- internal/app/wager/service.go: `resolveReference` and the lookups of `processOnce`, on the accounts.
use junglegaming_backend_cha.Store.TransactionQueries.{
  get_by_provider_idempotency_key, find_reversal, get_by_provider_external,
}
use junglegaming_backend_cha.Wagering.Kinds.{Kind}
use junglegaming_backend_cha.Wager.References.{
  cross_kind, missing_is_pending, check_reversals, resolve_reference,
}
use junglegaming_backend_cha.Base.{
  String, if◌then◌else◌, Bool, true, false, inl, inr, string_eq, nat_eq,
}
use junglegaming_backend_cha.AppErr.{Result-cases}
use junglegaming_backend_cha.Wagering.{Transaction}
use junglegaming_backend_cha.Types.{Uuid}
use junglegaming_backend_cha.Store.{Db}
use junglegaming_backend_cha.Store.Calm.{
  Calm, Calm-bind, Calm-seq, Calm-lift, Calm-pure, Calm-query,
}

Calm-if : {A : Type 0} (b : Bool) {m k : Db A} → Calm m → Calm k → Calm (if b then m else k)
Calm-if true h g = h
Calm-if false h g = g

Calm-find_reversal : (id : Uuid) (k : Kind) → Calm (find_reversal id k)
unfolding find_reversal
Calm-find_reversal id k = Calm-query _ _

Calm-missing_is_pending : {A : Type 0} {m : Db A} → Calm m → Calm (missing_is_pending m)
unfolding missing_is_pending
Calm-missing_is_pending {m = m} h = record {
  calm = λ env w. elim (Result-cases (m env w).0) [
    | inl (a, p) ↦ rw (missing_is_pending, p) (h.calm env w)
    | inr (e, p) ↦ rw (missing_is_pending, p) (h.calm env w)
  ];
}

pub Calm-get_by_provider_external : (p e : String) → Calm (get_by_provider_external p e)
unfolding get_by_provider_external
Calm-get_by_provider_external p e = Calm-query _ _

Calm-check_reversals : (t ref : Transaction) → Calm (check_reversals t ref)
unfolding check_reversals
Calm-check_reversals t ref = Calm-bind (Calm-find_reversal _ t.kind) (λ existing.
    Calm-seq (Calm-lift _) (
      Calm-if _ (Calm-bind (Calm-find_reversal _ (cross_kind t.kind)) (λ cross. Calm-lift _))
        (Calm-pure _)))

pub Calm-resolve_reference : (t : Transaction) → Calm (resolve_reference t)
unfolding resolve_reference
Calm-resolve_reference t =
    Calm-bind (Calm-missing_is_pending (Calm-get_by_provider_external _ _)) (λ ref.
      Calm-seq (Calm-lift _) (
        Calm-seq (Calm-lift _) (
          Calm-seq (Calm-lift _)
            (Calm-seq (Calm-lift _) (Calm-seq (Calm-check_reversals t ref) (Calm-pure _))))))

pub Calm-get_by_provider_idempotency_key :
    (p k : String) → Calm (get_by_provider_idempotency_key p k)
unfolding get_by_provider_idempotency_key
Calm-get_by_provider_idempotency_key p k = Calm-query _ _
