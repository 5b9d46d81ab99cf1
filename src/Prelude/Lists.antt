-- ===== src/Prelude/Lists.antt =====
-- Lists measured by native numbers, and predicates and tests on lists.
use Prim.Native.Nat.{ℕ, zero, suc, ◌+◌}
use Prim.Native.String.{String}
use mathlib.Core.Path.{◌∙◌, ◌≡◌, refl, ap, subst}
use mathlib.Core.Logic.{◌⊎◌, ◌↔◌, inl, inr, ⊎_elim}
use mathlib.Core.Bool.{Bool, true, false, ◌||◌, ◌&&◌}
use mathlib.Core.Option.{Option, none, some}
use mathlib.Core.List.{List, [], ◌∷◌, ◌++◌, map}
use native.Mathlib.Omega.{arith}
use text.Mathlib.TextEquality.{eq_iff}
use ab_b1b34dfe_mgf1_ocsp_bu.Prelude.Tests.{Bool-cases, str_eq, if◌then◌else◌}

module _ {ℓ} {A : Type ℓ} where
  abbrev pub length : List A → ℕ
  length [] = 0
  length (x ∷ xs) = suc (length xs)

  abbrev pub get_elem? : List A → ℕ → Option A
  get_elem? [] i = none
  get_elem? (x ∷ xs) zero = some x
  get_elem? (x ∷ xs) (suc i) = get_elem? xs i

  abbrev pub take : ℕ → List A → List A
  take zero xs = []
  take (suc n) [] = []
  take (suc n) (x ∷ xs) = x ∷ take n xs

  abbrev pub drop : ℕ → List A → List A
  drop zero xs = xs
  drop (suc n) [] = []
  drop (suc n) (x ∷ xs) = drop n xs

  pub length-append : (xs ys : List A) → length (xs ++ ys) ≡ length xs + length ys
  length-append [] ys = omega arith
  length-append (x ∷ xs) ys = omega (arith, length-append xs ys)

  -- the elements that pass a test, in their order
  abbrev pub select : (A → Bool) → List A → List A
  select p [] = []
  select p (x ∷ xs) = if p x then x ∷ select p xs else select p xs

  pub select-append :
      (p : A → Bool) (xs ys : List A) → select p (xs ++ ys) ≡ select p xs ++ select p ys
  select-append p [] ys = refl
  select-append p (x ∷ xs) ys = ground (arith, select-append p xs ys)

  abbrev pub any : (A → Bool) → List A → Bool
  any p [] = false
  any p (x ∷ xs) = p x || any p xs

  abbrev pub all : (A → Bool) → List A → Bool
  all p [] = true
  all p (x ∷ xs) = p x && all p xs

  -- the first element that passes a test
  abbrev pub find : (A → Bool) → List A → Option A
  find p [] = none
  find p (x ∷ xs) = if p x then some x else find p xs

module _ {A : Type 0} where
  -- membership, with the place kept
  abbrev pub In : A → List A → Type 0
  In a [] = ⊥
  In a (x ∷ xs) = (a ≡ x) ⊎ In a xs

  pub In-append : (a : A) (xs ys : List A) → In a (xs ++ ys) ↔ (In a xs ⊎ In a ys)
  In-append a [] ys = (inr, ⊎_elim absurd (λ h. h))
  In-append a (x ∷ xs) ys = ground (arith, In-append a xs ys)

  pub In-select :
      (p : A → Bool) (a : A) (xs : List A) → In a (select p xs) ↔ (In a xs × (p a ≡ true))
  In-select p a [] = (absurd, λ h. absurd h.0)
  In-select p a (x ∷ xs) = ground (arith, In-select p a xs)

  pub any-In : (p : A → Bool) (xs : List A) → any p xs ≡ true → (a : A) × In a xs × (p a ≡ true)
  any-In p [] h = absurd (ground arith)
  any-In p (x ∷ xs) h = elim (Bool-cases (p x)) [
    | inl e ↦ (x, inl refl, e)
    | inr e ↦ let (a, m, q) = any-In p xs (ground arith) in (a, inr m, q)
  ]

  pub In-any : (p : A → Bool) (a : A) (xs : List A) → In a xs → p a ≡ true → any p xs ≡ true
  In-any p a [] m h = absurd m
  In-any p a (x ∷ xs) (inl e) h = ground (arith, ap p e)
  In-any p a (x ∷ xs) (inr m) h = ground (arith, In-any p a xs m h)

pub In-map :
    {A B : Type 0} (f : A → B) (b : B) (xs : List A)
    → In b (map f xs) ↔ ((a : A) × In a xs × (b ≡ f a))
In-map f b [] = (absurd, λ (a, m, e). absurd m)
In-map {A} {B} f b (x ∷ xs) = (to (In-map f b xs).0, from (In-map f b xs).1)
  where
    to :
        (In b (map f xs) → (a : A) × In a xs × (b ≡ f a))
        → (b ≡ f x) ⊎ In b (map f xs)
        → (a : A) × ((a ≡ x) ⊎ In a xs) × (b ≡ f a)
    to ih (inl e) = (x, inl refl, e)
    to ih (inr m) = let (a, k, e) = ih m in (a, inr k, e)

    from :
        ((a : A) × In a xs × (b ≡ f a) → In b (map f xs))
        → (a : A) × ((a ≡ x) ⊎ In a xs) × (b ≡ f a)
        → (b ≡ f x) ⊎ In b (map f xs)
    from ih (a, inl p, e) = inl (e ∙ ap f p)
    from ih (a, inr m, e) = inr (ih (a, m, e))

abbrev pub flat_map : {A B : Type 0} → (A → List B) → List A → List B
flat_map f [] = []
flat_map f (x ∷ xs) = f x ++ flat_map f xs

pub In-flat_map :
    {A B : Type 0} (f : A → List B) (b : B) (xs : List A)
    → In b (flat_map f xs) ↔ ((a : A) × In a xs × In b (f a))
In-flat_map f b [] = (absurd, λ (a, m, e). absurd m)
In-flat_map {A} {B} f b (x ∷ xs) = (
  λ h. to (In-flat_map f b xs).0 ((In-append b (f x) (flat_map f xs)).0 h),
  λ h. (In-append b (f x) (flat_map f xs)).1 (from (In-flat_map f b xs).1 h),
)
  where
    to :
        (In b (flat_map f xs) → (a : A) × In a xs × In b (f a))
        → In b (f x) ⊎ In b (flat_map f xs)
        → (a : A) × ((a ≡ x) ⊎ In a xs) × In b (f a)
    to ih (inl m) = (x, inl refl, m)
    to ih (inr m) = let (a, k, e) = ih m in (a, inr k, e)

    from :
        ((a : A) × In a xs × In b (f a) → In b (flat_map f xs))
        → (a : A) × ((a ≡ x) ⊎ In a xs) × In b (f a)
        → In b (f x) ⊎ In b (flat_map f xs)
    from ih (a, inl p, m) = inl (subst (λ t. In b (f t)) p m)
    from ih (a, inr m, e) = inr (ih (a, m, e))

abbrev pub sum_by : {A : Type 0} → (A → ℕ) → List A → ℕ
sum_by f [] = 0
sum_by f (x ∷ xs) = f x + sum_by f xs

-- elements that give nothing can be left out
pub flat_map-select :
    {A B : Type 0} (f : A → List B) (p : A → Bool) (xs : List A)
    → ((x : A) → p x ≡ false → f x ≡ [])
    → flat_map f (select p xs) ≡ flat_map f xs
flat_map-select f p [] h = refl
flat_map-select f p (x ∷ xs) h = elim (Bool-cases (p x)) [
  | inl e ↦ rw (e, flat_map-select f p xs h) refl
  | inr e ↦ rw (e, h x e) (flat_map-select f p xs h)
]

pub sum_by-select :
    {A : Type 0} (f : A → ℕ) (p : A → Bool) (xs : List A)
    → ((x : A) → p x ≡ false → f x ≡ 0)
    → sum_by f (select p xs) ≡ sum_by f xs
sum_by-select f p [] h = refl
sum_by-select f p (x ∷ xs) h = elim (Bool-cases (p x)) [
  | inl e ↦ rw (e, sum_by-select f p xs h) refl
  | inr e ↦ rw (e, h x e) (omega (arith, sum_by-select f p xs h))
]

-- `x in xs` on texts
abbrev pub str_mem : String → List String → Bool
str_mem s [] = false
str_mem s (x ∷ xs) = str_eq s x || str_mem s xs

pub str_mem_iff : (s : String) (xs : List String) → (str_mem s xs ≡ true) ↔ In s xs
str_mem_iff s [] = (λ h. cc, absurd)
str_mem_iff s (x ∷ xs) = ground (arith, eq_iff s x, str_mem_iff s xs)
