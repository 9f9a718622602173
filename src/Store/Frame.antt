-- ===== src/Store/Frame.antt =====
-- internal/adapters/postgres: calls that leave a part of the tables alone.
use junglegaming_backend_cha.Base.{
  Bool, Bool-cases, true, false, inl, inr, refl, ◌∙◌, String, ◌≡◌, if◌then◌else◌,
}
use junglegaming_backend_cha.AppErr.{Result, ok, err, Error}
use junglegaming_backend_cha.Store.{
  ◌>>=◌, ◌>>◌, Tables, Env, World, Db, pure, fail, lift, statement, query, draw, now_from_clock,
  within_transaction, finish,
}

module _ {X : Type 0} (view : Tables → X) where
  -- Whatever its result, the call leaves what `view` sees as it was.
  pub record Frames {A : Type 0} (m : Db A) : Type 0 where
    pub frame : (env : Env) (w : World) → view (m env w).1.tables ≡ view w.tables

  module _ {A : Type 0} where
    pub Frames-pure : (a : A) → Frames (pure a)
    unfolding pure
    Frames-pure a = record { frame = λ env w. refl }

    pub Frames-fail : (e : Error) → Frames (fail {A = A} e)
    unfolding fail
    Frames-fail e = record { frame = λ env w. refl }

    pub Frames-lift : (r : Result A) → Frames (lift r)
    unfolding lift
    Frames-lift r = record { frame = λ env w. refl }

    pub Frames-query : (message : String) (read : Tables → Result A) → Frames (query message read)
    unfolding query
    Frames-query message read = record {
      frame =
          λ env w. elim (Bool-cases (env.faulty w.trips)) [ inl p ↦ rw p refl | inr p ↦ rw p refl ];
    }

    pub Frames-statement :
        (message : String) (run : Tables → Result A × Tables)
        → ((t : Tables) → view (run t).1 ≡ view t)
        → Frames (statement message run)
    unfolding statement
    Frames-statement message run h = record {
      frame = λ env w. elim (Bool-cases (env.faulty w.trips)) [
        | inl p ↦ rw p refl
        | inr p ↦ rw p (h w.tables)
      ];
    }

    pub Frames-if : (b : Bool) {m k : Db A} → Frames m → Frames k → Frames (if b then m else k)
    Frames-if true h g = h
    Frames-if false h g = g

    finish-frame :
        (before : Tables) (env : Env) (p : Result A × World)
        → view p.1.tables ≡ view before
        → view (finish before p env).1.tables ≡ view before
    unfolding finish
    finish-frame before env (ok a, w) h = elim (Bool-cases (env.faulty w.trips)) [
      | inl e ↦ elim (Bool-cases (env.committed w.trips)) [
        | inl k ↦ rw (finish, e, k) h
        | inr k ↦ rw (finish, e, k) refl
      ]
      | inr e ↦ rw (finish, e) h
    ]
    finish-frame before env (err e, w) h = refl

    pub Frames-within_transaction : {m : Db A} → Frames m → Frames (within_transaction m)
    unfolding within_transaction
    Frames-within_transaction {m} h = record {
      frame = λ env w. elim (Bool-cases (env.faulty w.trips)) [
        | inl p ↦ rw (within_transaction, p) refl
        | inr p ↦ rw (within_transaction, p) (finish-frame w.tables env _ (h.frame env _))
      ];
    }

  pub Frames-draw : Frames draw
  unfolding draw
  Frames-draw = record { frame = λ env w. refl }

  pub Frames-now_from_clock : Frames now_from_clock
  unfolding now_from_clock
  Frames-now_from_clock = record { frame = λ env w. refl }

  module _ {A B : Type 0} where
    then-frame :
        (f : A → Db B) (env : Env) (before : X) (p : Result A × World)
        → view p.1.tables ≡ before
        → ((a : A) → Frames (f a))
        → view
            (elim p.0 as (λ r. Result B × World) [
              | ok a ↦ f a env p.1
              | err e ↦ (err e, p.1)
            ]).1.tables
          ≡ before
    then-frame f env before (ok a, w) e k = (k a).frame env w ∙ e
    then-frame f env before (err x, w) e k = e

    pub Frames-bind :
        {m : Db A} {f : A → Db B} → Frames m → ((a : A) → Frames (f a)) → Frames (m >>= f)
    unfolding ◌>>=◌
    Frames-bind {m = m} {f = f} h k = record {
      frame = λ env w. then-frame f env (view w.tables) (m env w) (h.frame env w) k;
    }

    pub Frames-seq : {m : Db A} {k : Db B} → Frames m → Frames k → Frames (m >> k)
    unfolding ◌>>◌
    Frames-seq h k = Frames-bind h (λ a. k)
