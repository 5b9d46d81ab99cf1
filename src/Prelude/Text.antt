-- ===== src/Prelude/Text.antt =====
-- The order of texts by code points: that of Python's `sorted` on strings.
use Prim.Native.Nat.{Ordering}
use Prim.Native.String.{String, compare, [], ◌∷◌}
use Prim.Native.String.compare
use mathlib.Core.Path.{◌≡◌}
use mathlib.Core.Logic.{◌⊎◌}
use mathlib.Core.Bool.{Bool, true, false}
use native.Mathlib.Omega.{arith}
use text.Mathlib.TextEquality.{path_by_compare}
use text.Mathlib.TextPositions.{compare_refl}

abbrev pub str_le : String → String → Bool
str_le s t = elim (compare s t) [ Ordering.gt ↦ false | _ ↦ true ]

pub str_le_refl : (s : String) → str_le s s ≡ true
str_le_refl s = ground (arith, compare_refl s)

pub str_le_total : (s t : String) → (str_le s t ≡ true) ⊎ (str_le t s ≡ true)
str_le_total [] [] = ground (arith, compare.nil-nil)
str_le_total [] (d ∷ t) = ground (arith, compare.nil-cons d t)
str_le_total (c ∷ s) [] = ground (arith, compare.nil-cons c s)
str_le_total (c ∷ s) (d ∷ t) =
    ground (arith, compare.cons-cons c d s t, compare.cons-cons d c t s, str_le_total s t)

compare-eq_of_le :
    (s t : String) → str_le s t ≡ true → str_le t s ≡ true → compare s t ≡ Ordering.eq
compare-eq_of_le [] [] h k = compare.nil-nil
compare-eq_of_le [] (d ∷ t) h k = ground (arith, compare.cons-nil d t)
compare-eq_of_le (c ∷ s) [] h k = ground (arith, compare.cons-nil c s)
compare-eq_of_le (c ∷ s) (d ∷ t) h k =
    ground (arith, compare.cons-cons c d s t, compare.cons-cons d c t s, compare-eq_of_le s t)

pub str_le_antisymm : (s t : String) → str_le s t ≡ true → str_le t s ≡ true → s ≡ t
str_le_antisymm s t h k = path_by_compare s t (compare-eq_of_le s t h k)

pub str_le_trans : (s t u : String) → str_le s t ≡ true → str_le t u ≡ true → str_le s u ≡ true
str_le_trans [] t [] h k = ground (arith, compare.nil-nil)
str_le_trans [] t (e ∷ u) h k = ground (arith, compare.nil-cons e u)
str_le_trans (c ∷ s) [] u h k = ground (arith, compare.cons-nil c s)
str_le_trans (c ∷ s) (d ∷ t) [] h k = ground (arith, compare.cons-nil d t)
str_le_trans (c ∷ s) (d ∷ t) (e ∷ u) h k = ground (
  arith,
  compare.cons-cons c d s t,
  compare.cons-cons d e t u,
  compare.cons-cons c e s u,
  str_le_trans s t u,
)
