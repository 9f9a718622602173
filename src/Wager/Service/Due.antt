-- ===== src/Wager/Service/Due.antt =====
-- internal/app/wager/service.go: where `ResumeDue` stops.
use junglegaming_backend_cha.Base.{
  ◌≡◌, refl, arith, ℕ, zero, suc, ◌≤◌, ◌⊎◌, inl, inr, true, false, Option, none, some, Bool-cases,
  ap, ◌∙◌,
}
use junglegaming_backend_cha.AppErr.{Error, ok, err, Result-cases}
use junglegaming_backend_cha.Store.{Env, World}
use junglegaming_backend_cha.Wager.{Config}
use junglegaming_backend_cha.Wager.Service.{resume_one, resume_due}

module _ (env : Env) (config : Config) where
  -- The world after so many calls of `resumeOne` that each resumed a transaction.
  pub data Resumed (w : World) : ℕ → World → Type 0 where
    start : Resumed w 0 w
    next :
        (n : ℕ) (v : World)
        → Resumed w n v
        → (resume_one config env v).0 ≡ ok true
        → Resumed w (suc n) (resume_one config env v).1

  -- The last call, if the loop did not reach its limit: nothing was due, or it failed.
  abbrev pub Stopped : World → Option Error → World → Type 0
  Stopped v none w = ((resume_one config env v).0 ≡ ok false) × (w ≡ (resume_one config env v).1)
  Stopped v (some e) w = ((resume_one config env v).0 ≡ err e) × (w ≡ (resume_one config env v).1)

  -- One more call before the others.
  prepend :
      (w : World) (n : ℕ) (v : World)
      → (resume_one config env w).0 ≡ ok true
      → Resumed (resume_one config env w).1 n v
      → Resumed w (suc n) v
  prepend w _ _ h start = next 0 w start h
  prepend w _ _ h (next n v r k) = next (suc n) v (prepend w n v h r) k

  -- How the loop ends.
  abbrev pub Finished : ℕ → World → (ℕ × Option Error) × World → Type 0
  Finished limit w r =
      (r.0.0 ≤ limit)
      × (v : World) × Resumed w r.0.0 v
      × (((r.0.0 ≡ limit) × (r.0.1 ≡ none) × (r.1 ≡ v)) ⊎ Stopped v r.0.1 r.1)

  -- With every limit `resume_due` ends after at most that many calls of `resume_one` that each resumed
  -- a transaction, whose number it returns: it made exactly as many as the limit, or the call after
  -- them found nothing due, or the call after them failed with the error that it returns.
  pub resume_due-Finished :
      (limit : ℕ) (w : World) → Finished limit w (resume_due limit config env w)
  unfolding resume_due
  resume_due-Finished zero w = (omega arith, w, start, inl (refl, refl, refl))
  resume_due-Finished (suc limit) w = elim (Result-cases (resume_one config env w).0) [
    | inr (e, p) ↦ rw (resume_due, p) (omega arith, w, start, inr (p, refl))
    | inl (claimed, p) ↦ elim (Bool-cases claimed) [
      | inr q ↦
          let idle = p ∙ ap ok q in rw (resume_due, idle) (omega arith, w, start, inr (idle, refl))
      | inl q ↦
          let busy = p ∙ ap ok q in
          let (bound, v, path, last) = resume_due-Finished limit (resume_one config env w).1 in
          rw (resume_due, busy)
            (
              omega arith,
              v,
              prepend w _ v busy path,
              elim last [ inl (at, fine, same) ↦ inl (ap suc at, fine, same) | inr s ↦ inr s ],
            )
    ]
  ]
