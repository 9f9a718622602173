-- ===== src/Outbox/Advance.antt =====
-- internal/app/outbox/publisher.go: what a run of the publisher does to the rows of the outbox.
use mathlib.Core.Path.{subst}
use junglegaming_backend_cha.Base.{
  ◌+◌, String, Bool, true, false, List, [], ◌∷◌, none, ◌⊎◌, inl, inr, if◌then◌else◌, nat_eq, ◌≡◌,
  refl, Bool-cases, sym, ◌∙◌, ap, update_where,
}
use junglegaming_backend_cha.AppErr.{Result, ok, err}
use junglegaming_backend_cha.Events.{Envelope}
use junglegaming_backend_cha.Types.{Uuid, Time}
use junglegaming_backend_cha.Store.{
  OutboxRow, Tables, Env, World, Db, within_transaction, finish, statement, ◌>>=◌, now_from_clock,
}

-- The columns that identify an event and say what it is.
pub record Content : Type 0 where
  pub event_id : Uuid
  pub aggregate_id : Uuid
  pub event_type : String
  pub payload : Envelope
  pub occurred_at : Time

abbrev pub content : OutboxRow → Content
content r = record {
  event_id = r.event_id;
  aggregate_id = r.aggregate_id;
  event_type = r.event_type;
  payload = r.payload;
  occurred_at = r.occurred_at;
}

-- The row has become this one: the event is the same, and if it was not published before and is
-- now, its id satisfies `P`. A publication stays as it is.
pub record Advance (P : Uuid → Type 0) (old new : OutboxRow) : Type 0 where
  pub same : content new ≡ content old
  pub published :
      (new.published_at ≡ old.published_at) ⊎ ((old.published_at ≡ none) × P old.event_id)

-- Row by row.
abbrev pub Rows : (Uuid → Type 0) → List OutboxRow → List OutboxRow → Type 0
Rows P [] [] = Unit {0}
Rows P [] (y ∷ ys) = ⊥
Rows P (x ∷ xs) [] = ⊥
Rows P (x ∷ xs) (y ∷ ys) = Advance P x y × Rows P xs ys

module _ (P : Uuid → Type 0) where
  pub Advance-refl : (r : OutboxRow) → Advance P r r
  Advance-refl r = record { same = refl; published = inl refl }

  Advance-trans : (a b c : OutboxRow) → Advance P a b → Advance P b c → Advance P a c
  Advance-trans a b c h k = record {
    same = k.same ∙ h.same;
    published = elim k.published [
      | inl e ↦ elim h.published [ inl f ↦ inl (e ∙ f) | inr q ↦ inr q ]
      | inr (u, p) ↦ elim h.published [
        | inl f ↦ inr (sym f ∙ u, subst P (ap (λ (d : Content). d.event_id) h.same) p)
        | inr q ↦ inr q
      ]
    ];
  }

  pub Rows-refl : (rows : List OutboxRow) → Rows P rows rows
  Rows-refl [] = tt
  Rows-refl (r ∷ rows) = (Advance-refl r, Rows-refl rows)

  pub Rows-trans : (xs ys zs : List OutboxRow) → Rows P xs ys → Rows P ys zs → Rows P xs zs
  Rows-trans [] [] [] h k = tt
  Rows-trans [] [] (z ∷ zs) h k = k
  Rows-trans [] (y ∷ ys) zs h k = absurd h
  Rows-trans (x ∷ xs) [] zs h k = absurd h
  Rows-trans (x ∷ xs) (y ∷ ys) [] h k = k
  Rows-trans (x ∷ xs) (y ∷ ys) (z ∷ zs) (a, h) (b, k) =
      (Advance-trans x y z a b, Rows-trans xs ys zs h k)

  updated-Advance :
      (b : Bool) (r new : OutboxRow)
      → (b ≡ true → Advance P r new)
      → Advance P r (if b then new else r)
  updated-Advance true r new h = h refl
  updated-Advance false r new h = Advance-refl r

  -- An UPDATE that advances each row that it touches.
  pub update_where-Rows :
      (q : OutboxRow → Bool) (f : OutboxRow → OutboxRow)
      → ((r : OutboxRow) → q r ≡ true → Advance P r (f r))
      → (rows : List OutboxRow) → Rows P rows (update_where q f rows)
  unfolding update_where
  update_where-Rows q f h [] = tt
  update_where-Rows q f h (r ∷ rows) =
      (updated-Advance (q r) r (f r) (h r), update_where-Rows q f h rows)

  -- A call that advances the outbox, whatever its result.
  pub record Advances {A : Type 0} (m : Db A) : Type 0 where
    pub advance : (env : Env) (w : World) → Rows P w.tables.outbox (m env w).1.tables.outbox

  pub Advances-clock : Advances now_from_clock
  unfolding now_from_clock
  Advances-clock = record { advance = λ env w. Rows-refl w.tables.outbox }

  pub Advances-statement :
      {A : Type 0} (message : String) (run : Tables → Result A × Tables)
      → ((t : Tables) → Rows P t.outbox (run t).1.outbox)
      → Advances (statement message run)
  unfolding statement
  Advances-statement message run h = record {
    advance = λ env w. elim (Bool-cases (env.faulty w.trips)) [
      | inl p ↦ rw p (Rows-refl w.tables.outbox)
      | inr p ↦ rw p (h w.tables)
    ];
  }

  then-Rows :
      {A B : Type 0} (f : A → Db B) (env : Env) (before : List OutboxRow) (p : Result A × World)
      → Rows P before p.1.tables.outbox
      → ((a : A) → Advances (f a))
      → Rows P before
          (elim p.0 as (λ r. Result B × World) [
            | ok a ↦ f a env p.1
            | err e ↦ (err e, p.1)
          ]).1.tables.outbox
  then-Rows f env before (ok a, w) h k = Rows-trans before w.tables.outbox _ h ((k a).advance env w)
  then-Rows f env before (err e, w) h k = h

  pub Advances-bind :
      {A B : Type 0} {m : Db A} {f : A → Db B}
      → Advances m
      → ((a : A) → Advances (f a))
      → Advances (m >>= f)
  unfolding ◌>>=◌
  Advances-bind {m = m} {f = f} h k = record {
    advance = λ env w. then-Rows f env w.tables.outbox (m env w) (h.advance env w) k;
  }

  finish-Rows :
      {A : Type 0} (before : Tables) (env : Env) (p : Result A × World)
      → Rows P before.outbox p.1.tables.outbox
      → Rows P before.outbox (finish before p env).1.tables.outbox
  unfolding finish
  finish-Rows before env (ok a, w) h = elim (Bool-cases (env.faulty w.trips)) [
    | inl e ↦ elim (Bool-cases (env.committed w.trips)) [
      | inl k ↦ rw (finish, e, k) h
      | inr k ↦ rw (finish, e, k) (Rows-refl before.outbox)
    ]
    | inr e ↦ rw (finish, e) h
  ]
  finish-Rows before env (err e, w) h = Rows-refl before.outbox

  pub Advances-within_transaction :
      {A : Type 0} {m : Db A} → Advances m → Advances (within_transaction m)
  unfolding within_transaction
  Advances-within_transaction {m = m} h = record {
    advance = λ env w. elim (Bool-cases (env.faulty w.trips)) [
      | inl p ↦ rw (within_transaction, p) (Rows-refl w.tables.outbox)
      | inr p ↦
          let next : World = record w { trips = w.trips + 1 } in
          rw (within_transaction, p) (finish-Rows w.tables env (m env next) (h.advance env next))
    ];
  }
