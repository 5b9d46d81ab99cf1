-- ===== src/Prelude/Dict.antt =====
-- Python dictionaries as association lists with each key once: `d[k] = v` replaces in place or adds
-- at the end, and `pop` removes.
use mathlib.Core.Path.{◌≡◌, refl}
use mathlib.Core.Logic.{◌↔◌}
use mathlib.Core.Bool.{Bool, true}
use mathlib.Core.Option.{Option, none, some}
use mathlib.Core.List.{List, [], ◌∷◌}
use native.Mathlib.Omega.{arith}
use ab_b1b34dfe_mgf1_ocsp_bu.Prelude.Tests.{if◌then◌else◌}

-- `eq` is the equality of keys.
module _ {K V : Type 0} (eq : K → K → Bool) where
  abbrev pub lookup : K → List (K × V) → Option V
  lookup k [] = none
  lookup k ((j, v) ∷ d) = if eq j k then some v else lookup k d

  abbrev pub insert : K → V → List (K × V) → List (K × V)
  insert k v [] = (k, v) ∷ []
  insert k v ((j, w) ∷ d) = if eq j k then (k, v) ∷ d else (j, w) ∷ insert k v d

  abbrev pub remove : K → List (K × V) → List (K × V)
  remove k [] = []
  remove k ((j, w) ∷ d) = let rest = remove k d in if eq j k then rest else (j, w) ∷ rest

  module _ (eq_law : (j k : K) → (eq j k ≡ true) ↔ (j ≡ k)) where
    pub lookup-insert :
        (k j : K) (v : V) (d : List (K × V))
        → lookup j (insert k v d) ≡ (if eq k j then some v else lookup j d)
    lookup-insert k j v [] = refl
    lookup-insert k j v ((i, w) ∷ d) =
        ground (arith, eq_law k j, eq_law i k, eq_law i j, lookup-insert k j v d)

    pub lookup-remove :
        (k j : K) (d : List (K × V)) → lookup j (remove k d) ≡ (if eq k j then none else lookup j d)
    lookup-remove k j [] = ground arith
    lookup-remove k j ((i, w) ∷ d) =
        ground (arith, eq_law k j, eq_law i k, eq_law i j, lookup-remove k j d)
