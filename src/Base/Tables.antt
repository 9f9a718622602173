-- ===== src/Base/Tables.antt =====
-- Tables as lists of rows: lookup by a test, `UPDATE … WHERE`, and counting.
use Prim.Native.Nat.{ℕ, suc, ◌+◌, ◌≤◌}
use mathlib.Core.Path.{◌≡◌, refl}
use mathlib.Core.Bool.{Bool, true}
use mathlib.Core.Option.{Option, none, some}
use mathlib.Core.List.{List, [], ◌∷◌, ◌++◌}
use native.Mathlib.Omega.{arith}
use junglegaming_backend_cha.Base.Tests.{if◌then◌else◌}

module _ {ℓ} {A : Type ℓ} where
  abbrev pub length : List A → ℕ
  length [] = 0
  length (x ∷ xs) = suc (length xs)

  -- `SELECT … WHERE p LIMIT 1`: the first row that passes.
  unfoldable pub select : (A → Bool) → List A → Option A
  select p [] = none
  select p (x ∷ xs) = if p x then some x else select p xs

  -- `UPDATE … SET f WHERE p`
  unfoldable pub update_where : (A → Bool) → (A → A) → List A → List A
  update_where p f [] = []
  update_where p f (x ∷ xs) = (if p x then f x else x) ∷ update_where p f xs

  -- The number of rows that `WHERE p` affects.
  unfoldable pub count_where : (A → Bool) → List A → ℕ
  count_where p [] = 0
  count_where p (x ∷ xs) = (if p x then 1 else 0) + count_where p xs

  -- The first match of a table with one more row at its end.
  pub select-append :
      (p : A → Bool) (x : A) (xs : List A)
      → select p (xs ++ x ∷ [])
        ≡ elim (select p xs) [ none ↦ (if p x then some x else none) | some y ↦ some y ]
  unfolding select
  select-append p x [] = refl
  select-append p x (y ∷ ys) = ground (arith, select-append p x ys)

  pub length-update_where :
      (p : A → Bool) (f : A → A) (xs : List A) → length (update_where p f xs) ≡ length xs
  unfolding update_where
  length-update_where p f [] = refl
  length-update_where p f (x ∷ xs) = ground (arith, length-update_where p f xs)

  -- The selected row passes the test.
  pub select-passes : (p : A → Bool) (xs : List A) (x : A) → select p xs ≡ some x → p x ≡ true
  unfolding select
  select-passes p [] x h = ground arith
  select-passes p (y ∷ ys) x h = ground (arith, select-passes p ys x)

  pub count-none : (p : A → Bool) (xs : List A) → count_where p xs ≡ 0 → select p xs ≡ none
  unfolding select count_where
  count-none p [] h = refl
  count-none p (x ∷ xs) h = ground (arith, h, count-none p xs)

  pub select-counted :
      (p : A → Bool) (xs : List A) (x : A) → select p xs ≡ some x → 1 ≤ count_where p xs
  unfolding select count_where
  select-counted p [] x h = ground arith
  select-counted p (y ∷ ys) x h = ground (arith, h, select-counted p ys x)

  -- The selected row after an UPDATE that changes no row's place in the selection.
  pub select-updated :
      (p q : A → Bool) (f : A → A) (xs : List A) (x : A)
      → ((y : A) → p (f y) ≡ p y)
      → select p xs ≡ some x
      → select p (update_where q f xs) ≡ some (if q x then f x else x)
  unfolding select update_where
  select-updated p q f [] x k h = ground arith
  select-updated p q f (y ∷ ys) x k h = ground (arith, h, k y, select-updated p q f ys x k)
