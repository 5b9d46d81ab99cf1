-- ===== src/Prelude/Sets.antt =====
-- `sorted(set(xs))` of texts: the list that is strictly ascending with the same elements.
use mathlib.Core.Path.{◌≡◌, refl}
use mathlib.Core.Bool.{true, false}
use mathlib.Core.Logic.{◌⊎◌, ◌↔◌}
use mathlib.Core.List.{List, [], ◌∷◌}
use Prim.Native.String.{String}
use native.Mathlib.Omega.{arith}
use text.Mathlib.TextEquality.{eq_iff}
use ab_b1b34dfe_mgf1_ocsp_bu.Prelude.Tests.{str_eq, if◌then◌else◌}
use ab_b1b34dfe_mgf1_ocsp_bu.Prelude.Lists.{In}
use ab_b1b34dfe_mgf1_ocsp_bu.Prelude.Text.{str_le, str_le_total}

-- `x` goes to its place, if it is not there yet
abbrev pub put_text : String → List String → List String
put_text x [] = x ∷ []
put_text x (y ∷ ys) =
    if str_eq x y then y ∷ ys else if str_le x y then x ∷ y ∷ ys else y ∷ put_text x ys

abbrev pub sorted_set : List String → List String
sorted_set [] = []
sorted_set (x ∷ xs) = put_text x (sorted_set xs)

-- each text is below the next one and differs from it
abbrev pub IsAscending : List String → Type 0
IsAscending [] = Unit
IsAscending (x ∷ []) = Unit
IsAscending (x ∷ y ∷ ys) = (str_le x y ≡ true) × (str_eq x y ≡ false) × IsAscending (y ∷ ys)

pub In-put_text : (x a : String) (ys : List String) → In a (put_text x ys) ↔ ((a ≡ x) ⊎ In a ys)
In-put_text x a [] = (λ h. h, λ h. h)
In-put_text x a (y ∷ ys) = ground (arith, In-put_text x a ys, eq_iff x y)

pub In-sorted_set : (a : String) (xs : List String) → In a (sorted_set xs) ↔ In a xs
In-sorted_set a [] = (λ h. h, λ h. h)
In-sorted_set a (x ∷ xs) = ground (arith, In-put_text x a (sorted_set xs), In-sorted_set a xs)

put_text-IsAscending :
    (x : String) (ys : List String) → IsAscending ys → IsAscending (put_text x ys)
put_text-IsAscending x [] s = tt
put_text-IsAscending x (y ∷ []) s = ground (arith, str_le_total x y, eq_iff x y, eq_iff y x)
put_text-IsAscending x (y ∷ z ∷ ys) s = ground (
  arith,
  str_le_total x y,
  str_le_total x z,
  eq_iff x y,
  eq_iff y x,
  eq_iff x z,
  put_text-IsAscending x (z ∷ ys) s.2,
)

pub sorted_set-IsAscending : (xs : List String) → IsAscending (sorted_set xs)
sorted_set-IsAscending [] = tt
sorted_set-IsAscending (x ∷ xs) = put_text-IsAscending x (sorted_set xs) (sorted_set-IsAscending xs)

-- what is ascending already stays as it is
pub sorted_set_id : (xs : List String) → IsAscending xs → sorted_set xs ≡ xs
sorted_set_id [] s = refl
sorted_set_id (x ∷ []) s = refl
sorted_set_id (x ∷ y ∷ ys) s = rw (sorted_set_id (y ∷ ys) s.2, s.1, s.0) refl
