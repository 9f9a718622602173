-- ===== src/Base/Membership.antt =====
-- Membership in a list, by recursion.
use mathlib.Core.Path.{◌≡◌, refl, sym}
use mathlib.Core.Logic.{◌⊎◌, inl, inr}
use mathlib.Core.List.{List, [], ◌∷◌, ◌++◌, map}

module _ {A : Type 0} where
  abbrev pub In : A → List A → Type 0
  In x [] = ⊥
  In x (y ∷ ys) = (x ≡ y) ⊎ In x ys

  pub In-front : (x : A) (xs ys : List A) → In x xs → In x (xs ++ ys)
  In-front x [] ys h = absurd h
  In-front x (z ∷ xs) ys (inl e) = inl e
  In-front x (z ∷ xs) ys (inr h) = inr (In-front x xs ys h)

  pub In-back : (x : A) (xs ys : List A) → In x ys → In x (xs ++ ys)
  In-back x [] ys h = h
  In-back x (z ∷ xs) ys h = inr (In-back x xs ys h)

  pub In-middle : (x : A) (xs ys : List A) → In x (xs ++ x ∷ ys)
  In-middle x [] ys = inl refl
  In-middle x (z ∷ xs) ys = inr (In-middle x xs ys)

  -- An element of a list in two parts is one in the middle, or in the rest.
  pub In-drop : (x y : A) (xs ys : List A) → In x (xs ++ y ∷ ys) → (x ≡ y) ⊎ In x (xs ++ ys)
  In-drop x y [] ys h = h
  In-drop x y (z ∷ xs) ys (inl e) = inr (inl e)
  In-drop x y (z ∷ xs) ys (inr h) = elim (In-drop x y xs ys h) [
    | inl e ↦ inl e
    | inr k ↦ inr (inr k)
  ]

pub In-last : {A : Type 0} (x y : A) (xs : List A) → In x (xs ++ y ∷ []) → (x ≡ y) ⊎ In x xs
In-last x y [] h = h
In-last x y (z ∷ xs) (inl e) = inr (inl e)
In-last x y (z ∷ xs) (inr h) = elim (In-last x y xs h) [ inl e ↦ inl e | inr k ↦ inr (inr k) ]

pub In-map-inv :
    {A B : Type 0} (f : B → A) (x : A) (ys : List B)
    → In x (map f ys)
    → (y : B) × In y ys × (f y ≡ x)
In-map-inv f x [] h = absurd h
In-map-inv f x (y ∷ ys) (inl e) = (y, inl refl, sym e)
In-map-inv f x (y ∷ ys) (inr h) = let (z, k, e) = In-map-inv f x ys h in (z, inr k, e)
