-- ===== src/Parse/Findings.antt =====
-- Findings of the parsers: lists of them that are empty.
use ab_b1b34dfe_mgf1_ocsp_bu.Prelude.{
  String, List, [], ◌∷◌, ◌++◌, Option, none, some, Bool, true, false, In, inl, inr, ◌≡◌, ◌≢◌, refl,
  ◌∙◌, ap, flat_map,
}
use ab_b1b34dfe_mgf1_ocsp_bu.Cert.{SigAlg}
use ab_b1b34dfe_mgf1_ocsp_bu.Parse.{flag, unsupported_signature}

pub append-eq-nil : {A : Type 0} (xs ys : List A) → xs ++ ys ≡ [] → (xs ≡ []) × (ys ≡ [])
append-eq-nil [] ys e = (refl, e)
append-eq-nil (x ∷ xs) ys e = absurd (cc)

pub flag-eq-nil : (test : Bool) (code : String) → flag test code ≡ [] → test ≡ false
flag-eq-nil true code e = absurd (cc)
flag-eq-nil false code e = refl

pub unsupported_signature-eq-nil :
    (alg : Option SigAlg) → unsupported_signature alg ≡ [] → alg ≢ none
unsupported_signature-eq-nil none e n = cc
unsupported_signature-eq-nil (some alg) e n = cc

pub flat_map-eq-nil :
    {A B : Type 0} (f : A → List B) (xs : List A) (x : A) → flat_map f xs ≡ [] → In x xs → f x ≡ []
flat_map-eq-nil f [] x e m = absurd m
flat_map-eq-nil f (y ∷ ys) x e (inl p) = ap f p ∙ (append-eq-nil (f y) (flat_map f ys) e).0
flat_map-eq-nil f (y ∷ ys) x e (inr m) =
    flat_map-eq-nil f ys x (append-eq-nil (f y) (flat_map f ys) e).1 m
