-- ===== src/Store/Answers.antt =====
-- internal/adapters/postgres: calls that answer from the tables and change none of them.
use junglegaming_backend_cha.Base.{◌≡◌, refl, arith, ℕ, false, ◌∙◌, ap, String, ◌+◌}
use junglegaming_backend_cha.AppErr.{Result, ok, err}
use junglegaming_backend_cha.Store.{
  ◌>>=◌, ◌>>◌, Tables, Env, World, Db, pure, query, within_transaction,
}
use junglegaming_backend_cha.Store.Post.{chain_ok}

-- No round trip to the database fails.
abbrev pub IsHealthy : Env → Type 0
IsHealthy env = (n : ℕ) → env.faulty n ≡ false

module _ (env : Env) (healthy : IsHealthy env) (before : Tables) where
  -- On these tables a call returns `r` and changes none of them.
  abbrev pub Answers : {A : Type 0} → Db A → Result A → Type 0
  Answers m r = (w : World) → w.tables ≡ before → ((m env w).0 ≡ r) × ((m env w).1.tables ≡ before)

  pub within_transaction-Answers :
      {A : Type 0} (m : Db A) (r : Result A) → Answers m r → Answers (within_transaction m) r
  unfolding within_transaction
  within_transaction-Answers m (ok a) h w e =
      let next : World = record w { trips = w.trips + 1 } in
      let (p, q) = h next e in ground (arith, healthy w.trips, p, q, healthy (m env next).1.trips)
  within_transaction-Answers m (err x) h w e =
      let next : World = record w { trips = w.trips + 1 } in
      let (p, q) = h next e in ground (arith, healthy w.trips, p, q)

  pub pure-Answers : {A : Type 0} (a : A) → Answers (pure a) (ok a)
  unfolding pure
  pure-Answers a w e = (refl, e)

  pub query-Answers :
      {A : Type 0} (message : String) (read : Tables → Result A)
      → Answers (query message read) (read before)
  unfolding query
  query-Answers message read w e = rw (healthy w.trips) (ap read e, e)

  -- The answer of a chain whose first call succeeds.
  pub bind-Answers :
      {A B : Type 0} (m : Db A) (f : A → Db B) (a : A) (r : Result B)
      → Answers m (ok a)
      → Answers (f a) r
      → Answers (m >>= f) r
  bind-Answers m f a r h k w e =
      let (p, q) = h w e in
      let (answer, kept) = k (m env w).1 q in
      let run = chain_ok m f env w a p in
      (ap (λ s. s.0) run ∙ answer, ap (λ s. s.1.tables) run ∙ kept)

  pub seq-Answers :
      {A B : Type 0} (m : Db A) (k : Db B) (a : A) (r : Result B)
      → Answers m (ok a)
      → Answers k r
      → Answers (m >> k) r
  unfolding ◌>>◌
  seq-Answers m k a r h g = bind-Answers m (λ x. k) a r h g
