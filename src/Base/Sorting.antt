-- ===== src/Base/Sorting.antt =====
-- `SELECT … WHERE p ORDER BY … LIMIT n` on lists, for an order given as a Boolean test.
use Prim.Native.Nat.{ℕ, zero, suc}
use mathlib.Core.Path.{◌≡◌, refl, ap, ◌∙◌}
use mathlib.Core.Bool.{Bool, true, false}
use mathlib.Core.Logic.{◌⊎◌, inl, inr}
use mathlib.Core.List.{List, [], ◌∷◌}
use junglegaming_backend_cha.Base.Tests.{if◌then◌else◌}
use junglegaming_backend_cha.Base.Membership.{In}

module _ {A : Type 0} where
  unfoldable pub insert_sorted : (A → A → Bool) → A → List A → List A
  insert_sorted before r [] = r ∷ []
  insert_sorted before r (x ∷ xs) = if before x r then x ∷ insert_sorted before r xs else r ∷ x ∷ xs

  -- The rows that pass, in order.
  unfoldable pub sorted_where : (A → A → Bool) → (A → Bool) → List A → List A
  unfolding insert_sorted
  sorted_where before p [] = []
  sorted_where before p (r ∷ rows) =
      let rest = sorted_where before p rows in if p r then insert_sorted before r rest else rest

  -- `LIMIT n`
  unfoldable pub take : ℕ → List A → List A
  take zero rows = []
  take (suc n) [] = []
  take (suc n) (r ∷ rows) = r ∷ take n rows

  pub take-In : (x : A) (n : ℕ) (rows : List A) → In x (take n rows) → In x rows
  unfolding take
  take-In x zero rows h = absurd h
  take-In x (suc n) [] h = h
  take-In x (suc n) (r ∷ rows) (inl e) = inl e
  take-In x (suc n) (r ∷ rows) (inr h) = inr (take-In x n rows h)

  placed-In :
      (x r y : A) (ys inner : List A) (b : Bool)
      → (In x inner → (x ≡ r) ⊎ In x ys)
      → In x (if b then y ∷ inner else r ∷ y ∷ ys)
      → (x ≡ r) ⊎ In x (y ∷ ys)
  placed-In x r y ys inner true ih (inl e) = inr (inl e)
  placed-In x r y ys inner true ih (inr k) = elim (ih k) [ inl e ↦ inl e | inr m ↦ inr (inr m) ]
  placed-In x r y ys inner false ih k = k

  module _ (before : A → A → Bool) where
    pub insert_sorted-In :
        (x r : A) (rows : List A) → In x (insert_sorted before r rows) → (x ≡ r) ⊎ In x rows
    unfolding insert_sorted
    insert_sorted-In x r [] h = h
    insert_sorted-In x r (y ∷ ys) h =
        placed-In x r y ys (insert_sorted before r ys) (before y r) (insert_sorted-In x r ys) h

    chosen-In :
        (p : A → Bool) (x r : A) (rows rest : List A) (b : Bool)
        → p r ≡ b
        → (In x rest → In x rows × (p x ≡ true))
        → In x (if b then insert_sorted before r rest else rest)
        → In x (r ∷ rows) × (p x ≡ true)
    chosen-In p x r rows rest true e ih h = elim (insert_sorted-In x r rest h) [
      | inl q ↦ (inl q, ap p q ∙ e)
      | inr k ↦ let (m, q) = ih k in (inr m, q)
    ]
    chosen-In p x r rows rest false e ih h = let (m, q) = ih h in (inr m, q)

    -- What is selected is a row that passes.
    pub sorted_where-In :
        (p : A → Bool) (x : A) (rows : List A)
        → In x (sorted_where before p rows)
        → In x rows × (p x ≡ true)
    unfolding sorted_where
    sorted_where-In p x [] h = absurd h
    sorted_where-In p x (r ∷ rows) h =
        chosen-In p x r rows (sorted_where before p rows) (p r) refl (sorted_where-In p x rows) h
