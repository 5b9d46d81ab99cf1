-- ===== src/Verify/Checks.antt =====
-- What the checks of app/verify.py give when they pass, and the objects of a pack that passes.
use ab_b1b34dfe_mgf1_ocsp_bu.Prelude.{
  String, List, [], ◌∷◌, Option, none, some, Bool, true, false, In, ⊎_elim, str_mem, ◌≡◌, refl, sym,
  subst, arith, eq_iff,
}
use ab_b1b34dfe_mgf1_ocsp_bu.Cert.{Text, text_eq}
use ab_b1b34dfe_mgf1_ocsp_bu.Canonical.{Json, null, bool, int, str, arr, obj, field_of}
use ab_b1b34dfe_mgf1_ocsp_bu.Api.{Result, ok, err}
use ab_b1b34dfe_mgf1_ocsp_bu.Api.{library}
use ab_b1b34dfe_mgf1_ocsp_bu.Parse.Meta.{compute_meta}
use ab_b1b34dfe_mgf1_ocsp_bu.Verify.{
  Check, passed, failed, crashed, ◌>>=◌, ◌>>◌, check, or_fail, or_any_fails, or_api_error_fails,
  object_types, PackObject, fields_or_fail, string_or_fail, Calls, check_object, check_objects,
}
use ab_b1b34dfe_mgf1_ocsp_bu.Canonical.Equality.{json_eq}

-- every value that a check passes with has a property
pub record Gives {A : Type 0} (P : A → Type 0) (r : Check A) : Type 0 where
  pub gives : (a : A) → r ≡ passed a → P a

module _ {A : Type 0} where
  pub Gives-passed : {P : A → Type 0} {a : A} → P a → Gives P (passed a)
  Gives-passed {P} {a} p = record { gives = λ b e. subst P (cc) p }

  pub Gives-self : (r : Check A) → Gives (λ a. r ≡ passed a) r
  Gives-self r = record { gives = λ a e. e }

  pub Gives-or_fail : (o : Option A) → Gives (λ a. o ≡ some a) (or_fail o)
  Gives-or_fail none = record { gives = λ a e. absurd (cc) }
  Gives-or_fail (some b) = record { gives = λ a e. ground arith }

  pub Gives-or_any_fails : (r : Result A) → Gives (λ a. r ≡ ok a) (or_any_fails r)
  Gives-or_any_fails (ok b) = record { gives = λ a e. ground arith }
  Gives-or_any_fails (err b) = record { gives = λ a e. absurd (cc) }

  pub Gives-or_api_error_fails : (r : Result A) → Gives (λ a. r ≡ ok a) (or_api_error_fails r)
  Gives-or_api_error_fails (ok b) = record { gives = λ a e. ground arith }
  Gives-or_api_error_fails (err b) = record { gives = λ a e. absurd (ground arith) }

module _ {A B : Type 0} where
  pub >>=-eq-passed :
      (m : Check A) (f : A → Check B) {b : B}
      → (m >>= f) ≡ passed b
      → (a : A) × (m ≡ passed a) × (f a ≡ passed b)
  >>=-eq-passed (passed a) f e = (a, refl, e)
  >>=-eq-passed failed f e = absurd (cc)
  >>=-eq-passed crashed f e = absurd (cc)

  pub Gives-bind :
      {Q : A → Type 0} {P : B → Type 0} {m : Check A} {f : A → Check B}
      → Gives Q m
      → ((a : A) → Q a → Gives P (f a))
      → Gives P (m >>= f)
  Gives-bind {m = m} {f = f} first rest = record {
    gives = λ b e. let (a, e₁, e₂) = >>=-eq-passed m f e in (rest a (first.gives a e₁)).gives b e₂;
  }

pub Gives-check :
    {B : Type 0} {P : B → Type 0} {t : Bool} {next : Check B}
    → (t ≡ true → Gives P next)
    → Gives P (check t >> next)
Gives-check {t = true} h = h refl
Gives-check {t = false} h = record { gives = λ b e. absurd (cc) }

pub Gives-then :
    {B : Type 0} {P : B → Type 0} {m : Check (Unit {0})} {next : Check B}
    → (m ≡ passed tt → Gives P next)
    → Gives P (m >> next)
Gives-then {m = passed u} h = h refl
Gives-then {m = failed} h = record { gives = λ b e. absurd (cc) }
Gives-then {m = crashed} h = record { gives = λ b e. absurd (cc) }

pub text_eq-true : (s t : Text) → text_eq s t ≡ true → s ≡ t
text_eq-true [] [] h = refl
text_eq-true [] (d ∷ t) h = absurd (cc)
text_eq-true (c ∷ s) [] h = absurd (cc)
text_eq-true (c ∷ s) (d ∷ t) h = ground (arith, text_eq-true s t)

pub json_eq-str : (s : String) (v : Json) → json_eq (str s) v ≡ true → v ≡ str s
unfolding json_eq
json_eq-str s (str t) h = ground (arith, eq_iff s t)
json_eq-str s null h = absurd (cc)
json_eq-str s (bool b) h = absurd (cc)
json_eq-str s (int n) h = absurd (cc)
json_eq-str s (arr xs) h = absurd (cc)
json_eq-str s (obj fs) h = absurd (cc)

-- an object with its fingerprint, type and metadata
abbrev pub IsGenuine : Calls → PackObject → Type 0
IsGenuine calls o =
    (calls.host.sha256_bytes o.der ≡ o.fingerprint)
    × (str_mem o.otype object_types ≡ true)
    × (compute_meta (library calls.host) calls.host.calendar o.otype o.der ≡ ok o.meta)

module _ (calls : Calls) where
  check_object-IsGenuine : (entry : Json) → Gives (IsGenuine calls) (check_object calls entry)
  unfolding check_object
  check_object-IsGenuine entry = Gives-bind (Gives-self (fields_or_fail entry)) λ fs e₁.
      Gives-bind (Gives-self (or_fail (field_of "fingerprint" fs))) λ fingerprint e₂.
        Gives-bind (Gives-self (or_fail (field_of "type" fs))) λ type e₃.
          Gives-bind
            (Gives-self
              (or_fail (field_of "der" fs) >>= string_or_fail >>= λ s. or_fail (calls.host.b64d s)))
            λ der e₄.
              Gives-bind (Gives-self (or_fail (field_of "received_at" fs))) λ received_at e₅.
                Gives-bind (Gives-self (string_or_fail type)) λ otype e₆. Gives-check λ known.
                  Gives-bind (Gives-self (string_or_fail fingerprint)) λ fp e₇.
                    Gives-check λ hashed.
                      Gives-bind
                        (Gives-or_any_fails
                          (compute_meta (library calls.host) calls.host.calendar otype der))
                        λ meta computed.
                          Gives-passed
                            {a = record {
                              fingerprint = fp;
                              otype = otype;
                              der = der;
                              received_at = received_at;
                              meta = meta;
                            }}
                            ((eq_iff _ fp).0 hashed, known, computed)

  pub check_objects-IsGenuine :
      (xs : List Json)
      → Gives (λ os. (o : PackObject) → In o os → IsGenuine calls o) (check_objects calls xs)
  unfolding check_objects
  check_objects-IsGenuine [] = Gives-passed (λ o m. absurd m)
  check_objects-IsGenuine (x ∷ xs) = Gives-bind (check_object-IsGenuine x) λ o genuine.
      Gives-bind (check_objects-IsGenuine xs) λ os all_genuine.
        Gives-passed
          (λ o' m. ⊎_elim (λ e. subst (IsGenuine calls) (sym e) genuine) (λ k. all_genuine o' k) m)
