-- ===== src/Wager/Service/Rounds.antt =====
-- internal/app/wager/service.go: what the loop of `Process` does to the requests that are stored.
use junglegaming_backend_cha.Wager.Frame.{untouched}
use junglegaming_backend_cha.Store.Transactions.Names.{names_of, Name}
use junglegaming_backend_cha.Store.Frame.{Frames}
use junglegaming_backend_cha.Store.Post.{Post-within_transaction, After-ok, Post, After}
use junglegaming_backend_cha.Store.{within_transaction, World, Env, fail, Db}
use junglegaming_backend_cha.Wager.Service.{retry, attempt, exhausted}
use junglegaming_backend_cha.Wager.{is_retryable}
use junglegaming_backend_cha.Base.{
  ℕ, string_eq, nat_eq, ap, true, List, Bool, ◌≡◌, refl, if◌then◌else◌, false,
}
use junglegaming_backend_cha.AppErr.{Error, ok, Result, err}

pub Frames-names : {A : Type 0} {m : Db A} → Frames untouched m → Frames names_of m
Frames-names h = record { frame = λ env w. ap (λ x. x.1) (h.frame env w) }

-- A call that leaves the names alone, with its result as a value.
pub attempt-Post :
    {A : Type 0} {x : List Name} {m : Db A} (Q : A → List Name → Type 0)
    → Post names_of x m Q
    → Post names_of x (attempt m) (λ r y. (a : A) → r ≡ ok a → Q a y)
unfolding attempt
attempt-Post {m = m} Q h = record {
  post = λ env w e a p. After-ok names_of Q (m env w) a (h.post env w e) p;
}

pub Post-fail :
    {A : Type 0} {x : List Name} {Q : A → List Name → Type 0} (e : Error)
    → Post names_of x (fail {A = A} e) Q
unfolding fail
Post-fail e = record { post = λ env w k. tt }

pub Post-if :
    {A : Type 0} {x : List Name} {Q : A → List Name → Type 0} (b : Bool) {m k : Db A}
    → Post names_of x m Q
    → Post names_of x k Q
    → Post names_of x (if b then m else k) Q
Post-if true h g = h
Post-if false h g = g

module _ {A : Type 0} (Q : A → List Name → Type 0) where
  last-After :
      (p : Result A × World)
      → After names_of Q p
      → After names_of Q (elim p.0 as (λ r. Result A × World) [
        | ok a ↦ (ok a, p.1)
        | err e ↦ (err (if is_retryable e then exhausted e else e), p.1)
      ])
  last-After (ok a, w) h = h
  last-After (err e, w) h = tt

  chosen-After :
      (again : Bool) (p : Result A × World) (e : Error) (w : World)
      → After names_of Q p
      → After names_of Q (elim again as (λ b. Result A × World) [ true ↦ p | false ↦ (err e, w) ])
  chosen-After true p e w h = h
  chosen-After false p e w h = tt

  round-After :
      (p : Result A × World) (again : World → Result A × World)
      → After names_of Q p
      → ((w : World) → After names_of Q (again w))
      → After names_of Q (elim p.0 as (λ r. Result A × World) [
        | ok a ↦ (ok a, p.1)
        | err e ↦ elim (is_retryable e) as (λ b. Result A × World) [
          | true ↦ again p.1
          | false ↦ (err e, p.1)
        ]
      ])
  round-After (ok a, w) again h k = h
  round-After (err e, w) again h k = chosen-After (is_retryable e) (again w) e w (k w)

  -- Each round begins where the one before has left the tables.
  pub retry-After :
      (n : ℕ) (m : Db A)
      → ((x : List Name) → Post names_of x m Q)
      → (env : Env) (w : World) → After names_of Q (retry n m env w)
  unfolding retry
  retry-After ℕ.zero m h env w =
      last-After (within_transaction m env w)
        ((Post-within_transaction names_of (h (names_of w.tables))).post env w refl)
  retry-After (ℕ.suc n) m h env w =
      round-After (within_transaction m env w) (λ v. retry n m env v)
        ((Post-within_transaction names_of (h (names_of w.tables))).post env w refl)
        (λ v. retry-After n m h env v)
