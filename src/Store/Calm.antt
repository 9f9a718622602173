-- ===== src/Store/Calm.antt =====
-- internal/adapters/postgres: calls as changes of the accounts, on success and on failure.
use junglegaming_backend_cha.Store.Hoare.{Accounts, accounts}
use junglegaming_backend_cha.Base.{Bool-cases, inl, inr, refl, ◌∙◌, String, ◌≡◌}
use junglegaming_backend_cha.AppErr.{Result, ok, err}
use junglegaming_backend_cha.Store.{◌>>=◌, ◌>>◌, Tables, Env, World, Db, pure, lift, query}

-- A call that leaves the accounts alone even if it fails.
pub record Calm {A : Type 0} (m : Db A) : Type 0 where
  pub calm : (env : Env) (w : World) → accounts (m env w).1.tables ≡ accounts w.tables

module _ {A : Type 0} where
  pub Calm-pure : (a : A) → Calm (pure a)
  unfolding pure
  Calm-pure a = record { calm = λ env w. refl }

  pub Calm-lift : (r : Result A) → Calm (lift r)
  unfolding lift
  Calm-lift r = record { calm = λ env w. refl }

  pub Calm-query : (message : String) (read : Tables → Result A) → Calm (query message read)
  unfolding query
  Calm-query message read = record {
    calm =
        λ env w. elim (Bool-cases (env.faulty w.trips)) [ inl p ↦ rw p refl | inr p ↦ rw p refl ];
  }

module _ {A B : Type 0} where
  Calm-then :
      (f : A → Db B) (env : Env) (t : Accounts) (p : Result A × World)
      → accounts p.1.tables ≡ t
      → ((a : A) → Calm (f a))
      → accounts
          (elim p.0 as (λ r. Result B × World) [
            | ok a ↦ f a env p.1
            | err e ↦ (err e, p.1)
          ]).1.tables
        ≡ t
  Calm-then f env t (ok a, w) e k = (k a).calm env w ∙ e
  Calm-then f env t (err x, w) e k = e

  pub Calm-bind : {m : Db A} {f : A → Db B} → Calm m → ((a : A) → Calm (f a)) → Calm (m >>= f)
  unfolding ◌>>=◌
  Calm-bind {m = m} {f = f} h k = record {
    calm = λ env w. Calm-then f env (accounts w.tables) (m env w) (h.calm env w) k;
  }

  pub Calm-seq : {m : Db A} {k : Db B} → Calm m → Calm k → Calm (m >> k)
  unfolding ◌>>◌
  Calm-seq h k = Calm-bind h (λ a. k)
