-- ===== src/Prelude/Sort.antt =====
-- Sorting by a key, as Python's stable `sorted`, and what its result holds.
use mathlib.Core.Path.{◌≡◌, refl}
use mathlib.Core.List.{List, [], ◌∷◌}
use mathlib.Core.Bool.{Bool, true, false}
use mathlib.Core.Logic.{◌⊎◌, inl, inr, ◌↔◌}
use native.Mathlib.Omega.{arith}
use ab_b1b34dfe_mgf1_ocsp_bu.Prelude.Tests.{Bool-cases, if◌then◌else◌}
use ab_b1b34dfe_mgf1_ocsp_bu.Prelude.Lists.{In, In-select, select}

-- `x` goes before the first element that it does not exceed.
module _ {A : Type 0} (le : A → A → Bool) where
  abbrev pub insert_by : A → List A → List A
  insert_by x [] = x ∷ []
  insert_by x (y ∷ ys) = if le x y then x ∷ y ∷ ys else y ∷ insert_by x ys

  abbrev pub sort_by : List A → List A
  sort_by [] = []
  sort_by (x ∷ xs) = insert_by x (sort_by xs)

  -- every element is below all that follow it
  abbrev pub IsSorted : List A → Type 0
  IsSorted [] = Unit
  IsSorted (x ∷ xs) = ((y : A) → In y xs → le x y ≡ true) × IsSorted xs

  pub In-insert_by : (x a : A) (ys : List A) → In a (insert_by x ys) ↔ ((a ≡ x) ⊎ In a ys)
  In-insert_by x a [] = (λ h. h, λ h. h)
  In-insert_by x a (y ∷ ys) = ground (arith, In-insert_by x a ys)

  pub In-sort_by : (a : A) (xs : List A) → In a (sort_by xs) ↔ In a xs
  In-sort_by a [] = (λ h. h, λ h. h)
  In-sort_by a (x ∷ xs) = ground (arith, In-insert_by x a (sort_by xs), In-sort_by a xs)

  pub select-IsSorted : (p : A → Bool) (xs : List A) → IsSorted xs → IsSorted (select p xs)
  select-IsSorted p [] s = tt
  select-IsSorted p (x ∷ xs) s = elim (Bool-cases (p x)) [
    | inl e ↦ rw e (λ y m. s.0 y ((In-select p y xs).0 m).0, select-IsSorted p xs s.1)
    | inr e ↦ rw e (select-IsSorted p xs s.1)
  ]

module _ {A : Type 0} (le : A → A → Bool) (total : (x y : A) → (le x y ≡ true) ⊎ (le y x ≡ true))
    (trans : (x y z : A) → le x y ≡ true → le y z ≡ true → le x z ≡ true) where
  insert_by-IsSorted : (x : A) (ys : List A) → IsSorted le ys → IsSorted le (insert_by le x ys)
  insert_by-IsSorted x [] s = (λ y m. absurd m, tt)
  insert_by-IsSorted x (y ∷ ys) s = elim (Bool-cases (le x y)) [
    | inl e ↦ rw e (λ z m. below z m e, s)
    | inr e ↦ rw e (λ z m. above z ((In-insert_by le x z ys).0 m) e, insert_by-IsSorted x ys s.1)
  ]
    where
      below : (z : A) → In z (y ∷ ys) → le x y ≡ true → le x z ≡ true
      below z (inl p) e = rw p e
      below z (inr m) e = trans x y z e (s.0 z m)

      above : (z : A) → (z ≡ x) ⊎ In z ys → le x y ≡ false → le y z ≡ true
      above z (inl p) e = rw p (ground (arith, total x y))
      above z (inr m) e = s.0 z m

  pub sort_by-IsSorted : (xs : List A) → IsSorted le (sort_by le xs)
  sort_by-IsSorted [] = tt
  sort_by-IsSorted (x ∷ xs) = insert_by-IsSorted x (sort_by le xs) (sort_by-IsSorted xs)

  insert_by-least :
      (x : A) (ys : List A) → ((y : A) → In y ys → le x y ≡ true) → insert_by le x ys ≡ x ∷ ys
  insert_by-least x [] h = refl
  insert_by-least x (y ∷ ys) h = rw (h y (inl refl)) refl

  -- sorting and selecting commute
  insert_by-select :
      (p : A → Bool) (x : A) (ys : List A)
      → IsSorted le ys
      → select p (insert_by le x ys) ≡ (if p x then insert_by le x (select p ys) else select p ys)
  insert_by-select p x [] s = ground arith
  insert_by-select p x (y ∷ ys) s = elim (Bool-cases (le x y)) [
    | inl e ↦
        let least =
          insert_by-least x (select p ys)
            (λ z m. trans x y z e (s.0 z ((In-select p z ys).0 m).0)) in
        ground arith
    | inr e ↦ ground (arith, insert_by-select p x ys s.1)
  ]

  pub select-sort_by :
      (p : A → Bool) (xs : List A) → select p (sort_by le xs) ≡ sort_by le (select p xs)
  select-sort_by p [] = refl
  select-sort_by p (x ∷ xs) =
      ground
        (arith, insert_by-select p x (sort_by le xs) (sort_by-IsSorted xs), select-sort_by p xs)
