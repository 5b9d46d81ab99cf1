-- ===== src/Names/Kinds.antt =====
-- Names of one kind and the subtrees that they are checked against, for `check_name_constraints` of
-- app/pki.py.
use ab_b1b34dfe_mgf1_ocsp_bu.Prelude.{
  List, [], ◌∷◌, none, Bool, true, false, any, all, In, any-In, In-any, ◌≡◌, ◌⊎◌, inl, inr, refl,
  ap, ◌∙◌, arith, Bool-cases,
}
use ab_b1b34dfe_mgf1_ocsp_bu.Names.{check_kind}

-- No name is in an excluded subtree, and each is in a permitted one if there are any.
abbrev pub IsKept : {N : Type 0} → (N → N → Bool) → List N → List N → List N → Type 0
IsKept {N} matches names permitted excluded =
    (n : N)
    → In n names
    → ((c : N) → In c excluded → matches n c ≡ false)
      × ((permitted ≡ []) ⊎ ((c : N) × In c permitted × (matches n c ≡ true)))

all-In : {A : Type 0} (p : A → Bool) (a : A) (xs : List A) → all p xs ≡ true → In a xs → p a ≡ true
all-In p a [] h m = absurd m
all-In p a (x ∷ xs) h (inl e) = ap p e ∙ ground arith
all-In p a (x ∷ xs) h (inr m) = all-In p a xs (ground arith) m

In-all :
    {A : Type 0} (p : A → Bool) (xs : List A) → ((a : A) → In a xs → p a ≡ true) → all p xs ≡ true
In-all p [] h = refl
In-all p (x ∷ xs) h =
    let a = h x (inl refl) in let b = In-all p xs (λ y m. h y (inr m)) in ground arith

module _ {N : Type 0} (matches : N → N → Bool) where
  not_any :
      (n : N) (cs : List N) → any (matches n) cs ≡ false → (c : N) → In c cs → matches n c ≡ false
  not_any n cs h c m = elim (Bool-cases (matches n c)) [
    | inl e ↦ absurd (ground (arith, In-any (matches n) c cs m e))
    | inr e ↦ e
  ]

  none_any :
      {A : Type 0} (p : A → Bool) (xs : List A)
      → ((a : A) → In a xs → p a ≡ false)
      → any p xs ≡ false
  none_any p [] h = refl
  none_any p (x ∷ xs) h =
      let a = h x (inl refl) in let b = none_any p xs (λ y m. h y (inr m)) in ground arith

  pub IsKept-check_kind :
      (names permitted excluded : List N)
      → check_kind matches names permitted excluded ≡ none
      → IsKept matches names permitted excluded
  unfolding check_kind
  IsKept-check_kind names permitted excluded h n m =
      (not_any n excluded (out (Bool-cases (any (matches n) excluded))), permit permitted h)
    where
      out :
          (any (matches n) excluded ≡ true) ⊎ (any (matches n) excluded ≡ false)
          → any (matches n) excluded ≡ false
      out (inl e) =
          absurd (ground (arith, In-any (λ (k : N). any (matches k) excluded) n names m e))
      out (inr e) = e

      permit :
          (ps : List N)
          → check_kind matches names ps excluded ≡ none
          → (ps ≡ []) ⊎ ((c : N) × In c ps × (matches n c ≡ true))
      permit [] k = inl refl
      permit (p ∷ ps) k = inr (
          any-In (matches n) (p ∷ ps)
            (all-In (λ (k : N). any (matches k) (p ∷ ps)) n names (ground arith) m))

  pub check_kind-IsKept :
      (names permitted excluded : List N)
      → IsKept matches names permitted excluded
      → check_kind matches names permitted excluded ≡ none
  unfolding check_kind
  check_kind-IsKept names [] excluded h =
      let e =
        none_any (λ (k : N). any (matches k) excluded) names
          (λ n m. none_any (matches n) excluded (h n m).0) in
      ground arith
  check_kind-IsKept names (p ∷ ps) excluded h =
      let e =
        none_any (λ (k : N). any (matches k) excluded) names
          (λ n m. none_any (matches n) excluded (h n m).0) in
      let a = In-all (λ (k : N). any (matches k) (p ∷ ps)) names (λ n m. permitted n (h n m).1) in
      ground arith
    where
      permitted :
          (n : N)
          → ((p ∷ ps) ≡ []) ⊎ ((c : N) × In c (p ∷ ps) × (matches n c ≡ true))
          → any (matches n) (p ∷ ps) ≡ true
      permitted n (inl e) = absurd (cc)
      permitted n (inr (c, m, e)) = In-any (matches n) c (p ∷ ps) m e
