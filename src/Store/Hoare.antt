-- ===== src/Store/Hoare.antt =====
-- internal/adapters/postgres: calls as changes of the two tables that hold money.
use mathlib.Core.Path.{subst}
use junglegaming_backend_cha.Base.{
  refl, sym, ◌∙◌, if◌then◌else◌, true, false, Bool, String, List, ◌≡◌,
}
use junglegaming_backend_cha.AppErr.{Result, ok, err, Error}
use junglegaming_backend_cha.Store.{
  ◌>>=◌, ◌>>◌, WalletRow, EntryRow, Tables, Env, World, Db, pure, fail, lift, statement, query,
}

-- The wallets and the ledger.
pub record Accounts : Type 0 where
  pub wallets : List WalletRow
  pub entries : List EntryRow

abbrev pub accounts : Tables → Accounts
accounts t = record { wallets = t.wallets; entries = t.entries }

module _ {A : Type 0} where
  abbrev pub Ends : (A → Accounts → Type 0) → Result A × World → Type 0
  Ends Q (ok a, w) = Q a (accounts w.tables)
  Ends Q (err e, w) = Unit {0}

  -- From these accounts, if `m` succeeds, its result and the accounts then satisfy `Q`.
  pub record Run (x : Accounts) (m : Db A) (Q : A → Accounts → Type 0) : Type 0 where
    pub run : (env : Env) (w : World) → accounts w.tables ≡ x → Ends Q (m env w)

  Ends-weaken :
      {Q R : A → Accounts → Type 0} (p : Result A × World)
      → ((a : A) (y : Accounts) → Q a y → R a y)
      → Ends Q p
      → Ends R p
  Ends-weaken (ok a, w) k h = k a _ h
  Ends-weaken (err e, w) k h = tt

  pub Run-weaken :
      {x : Accounts} {m : Db A} {Q R : A → Accounts → Type 0}
      → Run x m Q
      → ((a : A) (y : Accounts) → Q a y → R a y)
      → Run x m R
  Run-weaken {m = m} h k = record { run = λ env w e. Ends-weaken (m env w) k (h.run env w e) }

  -- A call that does not touch the accounts.
  pub record Quiet (m : Db A) : Type 0 where
    pub quiet : (x : Accounts) → Run x m (λ a y. y ≡ x)

  pub Quiet-pure : (a : A) → Quiet (pure a)
  unfolding pure
  Quiet-pure a = record { quiet = λ x. record { run = λ env w e. e } }

  pub Quiet-fail : (f : Error) → Quiet (fail {A = A} f)
  unfolding fail
  Quiet-fail f = record { quiet = λ x. record { run = λ env w e. tt } }

  pub lift-Ends :
      (r : Result A) (x : Accounts) (w : World) → accounts w.tables ≡ x → Ends (λ a y. y ≡ x) (r, w)
  lift-Ends (ok a) x w e = e
  lift-Ends (err f) x w e = tt

  pub Quiet-lift : (r : Result A) → Quiet (lift r)
  unfolding lift
  Quiet-lift r = record { quiet = λ x. record { run = λ env w e. lift-Ends r x w e } }

  statement-Ends :
      (faulty : Bool) (message : String) (r : Result A) (x : Accounts) (v w : World)
      → accounts w.tables ≡ x
      → Ends (λ a y. y ≡ x) (if faulty then (err (Error.plain message), v) else (r, w))
  statement-Ends true message r x v w e = tt
  statement-Ends false message r x v w e = lift-Ends r x w e

  pub Quiet-query : (message : String) (read : Tables → Result A) → Quiet (query message read)
  unfolding query
  Quiet-query message read = record {
    quiet = λ x. record {
      run = λ env w e. statement-Ends (env.faulty w.trips) message (read w.tables) x _ _ e;
    };
  }

  -- A statement that leaves the accounts alone on every table.
  pub Quiet-statement :
      (message : String) (run : Tables → Result A × Tables)
      → ((t : Tables) → accounts (run t).1 ≡ accounts t)
      → Quiet (statement message run)
  unfolding statement
  Quiet-statement message run h = record {
    quiet = λ x. record {
      run = λ env w e.
          statement-Ends (env.faulty w.trips) message (run w.tables).0 x _ _ (h w.tables ∙ e);
    };
  }

  run-Ends :
      (Q : A → Accounts → Type 0) (faulty : Bool) (message : String) (r : Result A) (v w : World)
      → ((a : A) → r ≡ ok a → Q a (accounts w.tables))
      → Ends Q (if faulty then (err (Error.plain message), v) else (r, w))
  run-Ends Q true message r v w h = tt
  run-Ends Q false message (ok a) v w h = h a refl
  run-Ends Q false message (err e) v w h = tt

  -- A statement: what it does on the tables whose accounts are these.
  pub Run-statement :
      {x : Accounts} {Q : A → Accounts → Type 0} (message : String)
      (run : Tables → Result A × Tables)
      → ((t : Tables) (a : A) → accounts t ≡ x → (run t).0 ≡ ok a → Q a (accounts (run t).1))
      → Run x (statement message run) Q
  unfolding statement
  Run-statement {Q = Q} message run h = record {
    run = λ env w e.
        run-Ends Q (env.faulty w.trips) message (run w.tables).0 _ _ (λ a p. h w.tables a e p);
  }

  -- A query: what it reads from the tables whose accounts are these.
  pub Run-query :
      {x : Accounts} {Q : A → Accounts → Type 0} (message : String) (read : Tables → Result A)
      → ((a : A) (t : Tables) → accounts t ≡ x → read t ≡ ok a → Q a (accounts t))
      → Run x (query message read) Q
  unfolding query
  Run-query {Q = Q} message read h = record {
    run = λ env w e.
        run-Ends Q (env.faulty w.trips) message (read w.tables) _ _ (λ a p. h a w.tables e p);
  }

module _ {A B : Type 0} where
  then-Ends :
      (Q : A → Accounts → Type 0) (R : B → Accounts → Type 0) (f : A → Db B) (env : Env)
      (p : Result A × World)
      → Ends Q p
      → ((a : A) (y : Accounts) → Q a y → Run y (f a) R)
      → Ends R (elim p.0 [ ok a ↦ f a env p.1 | err e ↦ (err e, p.1) ])
  then-Ends Q R f env (ok a, w) h k = (k a (accounts w.tables) h).run env w refl
  then-Ends Q R f env (err e, w) h k = tt

  pub Run-bind :
      {x : Accounts} {m : Db A} {f : A → Db B} {Q : A → Accounts → Type 0}
      {R : B → Accounts → Type 0}
      → Run x m Q
      → ((a : A) (y : Accounts) → Q a y → Run y (f a) R)
      → Run x (m >>= f) R
  unfolding ◌>>=◌
  Run-bind {m = m} {f = f} {Q = Q} {R = R} h k = record {
    run = λ env w e. then-Ends Q R f env (m env w) (h.run env w e) k;
  }

  pub Run-seq :
      {x : Accounts} {m : Db A} {k : Db B} {Q : A → Accounts → Type 0} {R : B → Accounts → Type 0}
      → Run x m Q
      → ((a : A) (y : Accounts) → Q a y → Run y k R)
      → Run x (m >> k) R
  unfolding ◌>>◌
  Run-seq h k = Run-bind h k

  -- After a call that reads, and leaves the accounts alone.
  pub after_read :
      {x : Accounts} {m : Db A} {f : A → Db B} {Q : A → Type 0} {R : B → Accounts → Type 0}
      → Run x m (λ a y. (y ≡ x) × Q a)
      → ((a : A) → Q a → Run x (f a) R)
      → Run x (m >>= f) R
  after_read {x} {m} {f} {Q} {R} h k =
      Run-bind h (λ a y p. subst (λ z. Run z (f a) R) (sym p.0) (k a p.1))

  -- After a call that leaves the accounts alone.
  pub after_quiet :
      {x : Accounts} {m : Db A} {f : A → Db B} {R : B → Accounts → Type 0}
      → Quiet m
      → ((a : A) → Run x (f a) R)
      → Run x (m >>= f) R
  after_quiet {x} {m} {f} {R} h k =
      Run-bind (h.quiet x) (λ a y e. subst (λ z. Run z (f a) R) (sym e) (k a))

  pub then_quiet :
      {x : Accounts} {m : Db A} {k : Db B} {R : B → Accounts → Type 0}
      → Quiet m
      → Run x k R
      → Run x (m >> k) R
  unfolding ◌>>◌
  then_quiet h k = after_quiet h (λ a. k)

  pub Quiet-bind : {m : Db A} {f : A → Db B} → Quiet m → ((a : A) → Quiet (f a)) → Quiet (m >>= f)
  Quiet-bind h k = record { quiet = λ x. after_quiet h (λ a. (k a).quiet x) }

  pub Quiet-seq : {m : Db A} {k : Db B} → Quiet m → Quiet k → Quiet (m >> k)
  unfolding ◌>>◌
  Quiet-seq h k = Quiet-bind h (λ a. k)

  pub after_lift :
      {x : Accounts} {f : A → Db B} {R : B → Accounts → Type 0} (r : Result A)
      → ((a : A) → r ≡ ok a → Run x (f a) R)
      → Run x (lift r >>= f) R
  unfolding lift ◌>>=◌
  after_lift (ok a) k = k a refl
  after_lift (err e) k = record { run = λ env w h. tt }
