-- ===== src/Store/Post.antt =====
-- internal/adapters/postgres: what a call that succeeds has done to a part of the tables.
use junglegaming_backend_cha.Base.{
  ◌+◌, refl, sym, ◌∙◌, true, false, Bool, String, ◌≡◌, if◌then◌else◌,
}
use mathlib.Core.Path.{subst}
use junglegaming_backend_cha.AppErr.{Result, ok, err, Error}
use junglegaming_backend_cha.Store.{
  ◌>>=◌, ◌>>◌, Tables, Env, World, Db, pure, lift, statement, query, within_transaction, finish,
}
use junglegaming_backend_cha.Store.Frame.{Frames}

module _ {X : Type 0} (view : Tables → X) where
  module _ {A : Type 0} where
    abbrev pub After : (A → X → Type 0) → Result A × World → Type 0
    After Q (ok a, w) = Q a (view w.tables)
    After Q (err e, w) = Unit {0}

    pub After-ok :
        (Q : A → X → Type 0) (p : Result A × World) (a : A)
        → After Q p
        → p.0 ≡ ok a
        → Q a (view p.1.tables)
    After-ok Q (ok b, w) a h e = subst (λ c. Q c (view w.tables)) (cc e) h
    After-ok Q (err x, w) a h e = cc e

    -- From tables that `view` sees as `x`, a success leaves a result and tables that satisfy `Q`.
    pub record Post (x : X) (m : Db A) (Q : A → X → Type 0) : Type 0 where
      pub post : (env : Env) (w : World) → view w.tables ≡ x → After Q (m env w)

    pub Post-pure : {x : X} {Q : A → X → Type 0} (a : A) → Q a x → Post x (pure a) Q
    unfolding pure
    Post-pure {Q = Q} a h = record { post = λ env w e. subst (Q a) (sym e) h }

    lift-After :
        (Q : A → X → Type 0) (r : Result A) (w : World)
        → ((a : A) → r ≡ ok a → Q a (view w.tables))
        → After Q (r, w)
    lift-After Q (ok a) w h = h a refl
    lift-After Q (err e) w h = tt

    pub Post-lift :
        {x : X} {Q : A → X → Type 0} (r : Result A)
        → ((a : A) → r ≡ ok a → Q a x)
        → Post x (lift r) Q
    unfolding lift
    Post-lift {Q = Q} r h = record {
      post = λ env w e. lift-After Q r w (λ a p. subst (Q a) (sym e) (h a p));
    }

    tried-After :
        (Q : A → X → Type 0) (faulty : Bool) (message : String) (r : Result A) (v w : World)
        → ((a : A) → r ≡ ok a → Q a (view w.tables))
        → After Q (if faulty then (err (Error.plain message), v) else (r, w))
    tried-After Q true message r v w h = tt
    tried-After Q false message r v w h = lift-After Q r w h

    pub Post-statement :
        {x : X} {Q : A → X → Type 0} (message : String) (run : Tables → Result A × Tables)
        → ((t : Tables) (a : A) → view t ≡ x → (run t).0 ≡ ok a → Q a (view (run t).1))
        → Post x (statement message run) Q
    unfolding statement
    Post-statement {Q = Q} message run h = record {
      post = λ env w e.
          tried-After Q (env.faulty w.trips) message (run w.tables).0 _ _ (λ a p. h w.tables a e p);
    }

    pub Post-query :
        {x : X} {Q : A → X → Type 0} (message : String) (read : Tables → Result A)
        → ((t : Tables) (a : A) → view t ≡ x → read t ≡ ok a → Q a (view t))
        → Post x (query message read) Q
    unfolding query
    Post-query {Q = Q} message read h = record {
      post = λ env w e.
          tried-After Q (env.faulty w.trips) message (read w.tables) _ _ (λ a p. h w.tables a e p);
    }

    framed-After : (x : X) (p : Result A × World) → view p.1.tables ≡ x → After (λ a y. y ≡ x) p
    framed-After x (ok a, w) h = h
    framed-After x (err e, w) h = tt

    pub Post-Frames : {x : X} {m : Db A} → Frames view m → Post x m (λ a y. y ≡ x)
    Post-Frames {x = x} {m = m} h = record {
      post = λ env w e. framed-After x (m env w) (h.frame env w ∙ e);
    }

    kept-After :
        (P : X → Type 0) (x : X) (p : Result A × World)
        → P x
        → view p.1.tables ≡ x
        → After (λ a y. P y) p
    kept-After P x (ok a, w) h e = subst P (sym e) h
    kept-After P x (err f, w) h e = tt

    -- A call that leaves the view alone keeps what holds of it.
    pub Post-kept :
        {x : X} {m : Db A} (P : X → Type 0) → Frames view m → P x → Post x m (λ a y. P y)
    Post-kept {x = x} {m = m} P h k = record {
      post = λ env w e. kept-After P x (m env w) k (h.frame env w ∙ e);
    }

    finish-After :
        (Q : A → X → Type 0) (before : Tables) (env : Env) (p : Result A × World)
        → After Q p
        → After Q (finish before p env)
    unfolding finish
    finish-After Q before env (ok a, w) h = committed (env.faulty w.trips)
      where
        committed :
            (faulty : Bool)
            → After Q (
                if faulty
                then (
                  err (Error.plain "postgres: commit transaction"),
                  record w {
                    tables = if env.committed w.trips then w.tables else before;
                    trips = w.trips + 1;
                  },
                )
                else (ok a, record w { trips = w.trips + 1 }))
        committed true = tt
        committed false = h
    finish-After Q before env (err e, w) h = tt

    begun-After :
        (Q : A → X → Type 0) (faulty : Bool) (e : Error) (v : World) (p : Result A × World)
        → After Q p
        → After Q (if faulty then (err e, v) else p)
    begun-After Q true e v p h = tt
    begun-After Q false e v p h = h

    pub Post-within_transaction :
        {x : X} {m : Db A} {Q : A → X → Type 0} → Post x m Q → Post x (within_transaction m) Q
    unfolding within_transaction
    Post-within_transaction {m = m} {Q = Q} h = record {
      post = λ env w e.
          begun-After Q (env.faulty w.trips) _ _ _ (
            finish-After Q w.tables env (m env (record w { trips = w.trips + 1 }))
              (h.post env _ e));
    }

  module _ {A B : Type 0} where
    then-After :
        (Q : A → X → Type 0) (R : B → X → Type 0) (f : A → Db B) (env : Env) (p : Result A × World)
        → After Q p
        → ((a : A) (y : X) → Q a y → Post y (f a) R)
        → After R (elim p.0 [ ok a ↦ f a env p.1 | err e ↦ (err e, p.1) ])
    then-After Q R f env (ok a, w) h k = (k a (view w.tables) h).post env w refl
    then-After Q R f env (err e, w) h k = tt

    pub Post-bind :
        {x : X} {m : Db A} {f : A → Db B} {Q : A → X → Type 0} {R : B → X → Type 0}
        → Post x m Q
        → ((a : A) (y : X) → Q a y → Post y (f a) R)
        → Post x (m >>= f) R
    unfolding ◌>>=◌
    Post-bind {m = m} {f = f} {Q = Q} {R = R} h k = record {
      post = λ env w e. then-After Q R f env (m env w) (h.post env w e) k;
    }

    -- After a call that leaves the view alone.
    pub Post-after :
        {x : X} {m : Db A} {f : A → Db B} {R : B → X → Type 0}
        → Frames view m
        → ((a : A) → Post x (f a) R)
        → Post x (m >>= f) R
    Post-after {f = f} {R = R} h k =
        Post-bind (Post-Frames h) (λ a y e. subst (λ z. Post z (f a) R) (sym e) (k a))

    pub Post-then :
        {x : X} {m : Db A} {k : Db B} {R : B → X → Type 0}
        → Frames view m
        → Post x k R
        → Post x (m >> k) R
    unfolding ◌>>◌
    Post-then h k = Post-after h (λ a. k)

module _ {A B : Type 0} (m : Db A) (f : A → Db B) (env : Env) (w : World) where
  -- A chain after a call that succeeded, and after one that failed.
  pub chain_ok : (a : A) → (m env w).0 ≡ ok a → (m >>= f) env w ≡ f a env (m env w).1
  unfolding ◌>>=◌
  chain_ok a p = rw (◌>>=◌, p) refl

  pub chain_err : (e : Error) → (m env w).0 ≡ err e → (m >>= f) env w ≡ (err e, (m env w).1)
  unfolding ◌>>=◌
  chain_err e p = rw (◌>>=◌, p) refl
