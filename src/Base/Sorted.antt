-- ===== src/Base/Sorted.antt =====
-- Sorted lists for a strict order, and the part of one that comes after a row.
use mathlib.Core.Path.{◌≡◌, refl, sym, ap, ◌∙◌, subst}
use mathlib.Core.Bool.{Bool, true, false, ◌&&◌}
use mathlib.Core.Logic.{◌⊎◌, inl, inr}
use mathlib.Core.List.{List, [], ◌∷◌, ◌++◌}
use native.Mathlib.Omega.{arith}
use junglegaming_backend_cha.Base.Tests.{if◌then◌else◌, Bool-cases}
use junglegaming_backend_cha.Base.Membership.{In, In-middle}
use junglegaming_backend_cha.Base.Sorting.{
  insert_sorted-In, sorted_where-In, insert_sorted, sorted_where,
}

-- A strict order.
pub record IsOrder {A : Type 0} (before : A → A → Bool) : Type 0 where
  pub apart : (x : A) → before x x ≡ false
  pub trans : (x y z : A) → before x y ≡ true → before y z ≡ true → before x z ≡ true

module _ {A : Type 0} where
  -- The rows that pass, in their order.
  unfoldable pub keep : (A → Bool) → List A → List A
  keep q [] = []
  keep q (x ∷ xs) = if q x then x ∷ keep q xs else keep q xs

  keep-all : (q : A → Bool) (xs : List A) → ((x : A) → In x xs → q x ≡ true) → keep q xs ≡ xs
  unfolding keep
  keep-all q [] h = refl
  keep-all q (x ∷ xs) h =
      rw (h x (inl refl)) (ap (λ ys. x ∷ ys) (keep-all q xs (λ y m. h y (inr m))))

module _ {A : Type 0} (before : A → A → Bool) where
  -- Each row comes before all later ones.
  abbrev pub IsSorted : List A → Type 0
  IsSorted [] = Unit {0}
  IsSorted (x ∷ xs) = ((y : A) → In y xs → before x y ≡ true) × IsSorted xs

  -- Any two rows are in order one way or the other.
  abbrev pub IsComparable : List A → Type 0
  IsComparable [] = Unit {0}
  IsComparable (x ∷ xs) =
      ((y : A) → In y xs → (before x y ≡ true) ⊎ (before y x ≡ true)) × IsComparable xs

module _ {A : Type 0} (before : A → A → Bool) (order : IsOrder before) where
  -- Not both ways.
  asym : (x y : A) → before x y ≡ true → before y x ≡ false
  asym x y h = elim (Bool-cases (before y x)) [
    | inl e ↦ absurd (ground (arith, order.trans x y x h e, order.apart x))
    | inr e ↦ e
  ]

  insert_sorted-IsSorted :
      (r : A) (xs : List A)
      → IsSorted before xs
      → ((y : A) → In y xs → (before r y ≡ true) ⊎ (before y r ≡ true))
      → IsSorted before (insert_sorted before r xs)
  unfolding insert_sorted
  insert_sorted-IsSorted r [] s c = ((λ y m. absurd m), tt)
  insert_sorted-IsSorted r (x ∷ xs) (first, s) c = elim (Bool-cases (before x r)) [
    | inl e ↦ rw e (
      (λ y m. elim (insert_sorted-In before y r xs m) [
        | inl q ↦ subst (λ z. before x z ≡ true) (sym q) e
        | inr k ↦ first y k
      ]),
      insert_sorted-IsSorted r xs s (λ y m. c y (inr m)),
    )
    | inr e ↦
        let front : before r x ≡ true = elim (c x (inl refl)) [
          | inl k ↦ k
          | inr k ↦ absurd (ground (arith, e, k))
        ] in
        rw e (
          (λ y m. elim m [
            | inl q ↦ subst (λ z. before r z ≡ true) (sym q) front
            | inr k ↦ order.trans r x y front (first y k)
          ]),
          (first, s),
        )
  ]

  -- What is selected is sorted.
  pub sorted_where-IsSorted :
      (p : A → Bool) (rows : List A)
      → IsComparable before rows
      → IsSorted before (sorted_where before p rows)
  unfolding sorted_where
  sorted_where-IsSorted p [] c = tt
  sorted_where-IsSorted p (r ∷ rows) (first, c) = elim (Bool-cases (p r)) [
    | inl e ↦ rw e (
        insert_sorted-IsSorted r (sorted_where before p rows) (sorted_where-IsSorted p rows c)
          (λ y m. first y (sorted_where-In before p y rows m).0))
    | inr e ↦ rw e (sorted_where-IsSorted p rows c)
  ]

  insert_front :
      (r : A) (xs : List A)
      → ((y : A) → In y xs → before y r ≡ false)
      → insert_sorted before r xs ≡ r ∷ xs
  unfolding insert_sorted
  insert_front r [] h = refl
  insert_front r (x ∷ xs) h = rw (h x (inl refl)) refl

  keep-In : (q : A → Bool) (x : A) (xs : List A) → In x (keep q xs) → In x xs
  unfolding keep
  keep-In q x [] h = h
  keep-In q x (y ∷ ys) h = kept (q y) h (keep-In q x ys)
    where
      kept :
          (b : Bool)
          → In x (if b then y ∷ keep q ys else keep q ys)
          → (In x (keep q ys) → In x ys)
          → In x (y ∷ ys)
      kept true (inl e) k = inl e
      kept true (inr m) k = inr (k m)
      kept false m k = inr (k m)

  -- Inserting and then filtering is filtering and then inserting.
  keep-insert_sorted :
      (q : A → Bool) (r : A) (xs : List A)
      → IsSorted before xs
      → keep q (insert_sorted before r xs)
        ≡ (if q r then insert_sorted before r (keep q xs) else keep q xs)
  unfolding keep insert_sorted
  keep-insert_sorted q r [] s = refl
  keep-insert_sorted q r (x ∷ xs) (first, s) = elim (Bool-cases (before x r)) [
    | inl e ↦
        let ih = keep-insert_sorted q r xs s in
        elim (Bool-cases (q x)) [
          | inl u ↦ elim (Bool-cases (q r)) [
            | inl v ↦ rw (e, u, v) (rw e (ap (λ l. x ∷ l) (ih ∙ rw v refl)))
            | inr v ↦ rw (e, u, v) (ap (λ l. x ∷ l) (ih ∙ rw v refl))
          ]
          | inr u ↦ rw (e, u) ih
        ]
    | inr e ↦
        let late : (y : A) → In y (keep q (x ∷ xs)) → before y r ≡ false = λ y m.
          elim (keep-In q y (x ∷ xs) m) [
            | inl same ↦ ap (λ z. before z r) same ∙ e
            | inr k ↦ elim (Bool-cases (before y r)) [
              | inl w ↦ absurd (ground (arith, e, order.trans x y r (first y k) w))
              | inr w ↦ w
            ]
          ] in
        elim (Bool-cases (q r)) [
          | inl v ↦ rw (e, v) (sym (insert_front r (keep q (x ∷ xs)) late))
          | inr v ↦ rw (e, v) refl
        ]
  ]

  -- A further condition only drops rows.
  pub sorted_where-keep :
      (p q : A → Bool) (rows : List A)
      → IsComparable before rows
      → sorted_where before (λ x. p x && q x) rows ≡ keep q (sorted_where before p rows)
  unfolding sorted_where keep
  sorted_where-keep p q [] c = refl
  sorted_where-keep p q (r ∷ rows) (first, c) =
      let ih = sorted_where-keep p q rows c in
      let sorted = sorted_where-IsSorted p rows c in
      elim (Bool-cases (p r)) [
        | inl e ↦ elim (Bool-cases (q r)) [
          | inl u ↦
              rw (e, u, ih)
                (sym (keep-insert_sorted q r (sorted_where before p rows) sorted ∙ rw u refl))
          | inr u ↦
              rw (e, u, ih)
                (sym (keep-insert_sorted q r (sorted_where before p rows) sorted ∙ rw u refl))
        ]
        | inr e ↦ rw (e, ih) refl
      ]

  -- The rows of a sorted list after one of them are the rows that it comes before.
  pub keep_after :
      (xs ys : List A) (c : A)
      → IsSorted before (xs ++ c ∷ ys)
      → keep (before c) (xs ++ c ∷ ys) ≡ ys
  unfolding keep
  keep_after [] ys c (first, s) = rw (order.apart c) (keep-all (before c) ys first)
  keep_after (x ∷ xs) ys c (first, s) =
      rw (asym x c (first c (In-middle c xs ys))) (keep_after xs ys c s)
