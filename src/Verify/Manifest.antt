-- ===== src/Verify/Manifest.antt =====
-- The manifest of a pack that passes the checks of app/verify.py.
use ab_b1b34dfe_mgf1_ocsp_bu.Prelude.{
  String, List, [], ◌∷◌, Option, none, some, Bool, true, false, In, inl, inr, ◌⊎◌, ⊎_elim, str_eq,
  ◌≡◌, refl, ap, sym, subst, ◌∙◌, arith, eq_iff,
}
use ab_b1b34dfe_mgf1_ocsp_bu.Prelude.Dict.{lookup, lookup-insert}
use ab_b1b34dfe_mgf1_ocsp_bu.Canonical.{Json, null, bool, int, str, arr, obj, Fields, field_of}
use ab_b1b34dfe_mgf1_ocsp_bu.Api.{canonical_hash}
use ab_b1b34dfe_mgf1_ocsp_bu.Verify.{
  passed, ◌>>=◌, check, or_crash, PackObject, fields_or_fail, fields_or_crash, value_or_null,
  iterated, list_or_empty, index_key, Index, add_to_index, index_manifest, match_object,
  match_objects, Calls, check_manifest,
}
use ab_b1b34dfe_mgf1_ocsp_bu.Canonical.Equality.{json_eq}
use ab_b1b34dfe_mgf1_ocsp_bu.Verify.Checks.{
  Gives, Gives-passed, Gives-self, Gives-or_fail, Gives-bind, Gives-check, Gives-then, json_eq-str,
  >>=-eq-passed,
}

pub json_eq-str_right : (v : Json) (s : String) → json_eq v (str s) ≡ true → v ≡ str s
unfolding json_eq
json_eq-str_right (str t) s h = ground (arith, eq_iff t s)
json_eq-str_right null s h = absurd (cc)
json_eq-str_right (bool b) s h = absurd (cc)
json_eq-str_right (int n) s h = absurd (cc)
json_eq-str_right (arr xs) s h = absurd (cc)
json_eq-str_right (obj fs) s h = absurd (cc)

pub fields_or_crash-eq-passed :
    (v : Json) {fs : Fields} → fields_or_crash v ≡ passed fs → v ≡ obj fs
fields_or_crash-eq-passed (obj fs) h = ground arith
fields_or_crash-eq-passed (str s) h = absurd (cc)
fields_or_crash-eq-passed null h = absurd (cc)
fields_or_crash-eq-passed (bool b) h = absurd (cc)
fields_or_crash-eq-passed (int n) h = absurd (cc)
fields_or_crash-eq-passed (arr xs) h = absurd (cc)

manifest-eq-passed :
    (o : Option Json) {fs : Fields}
    → fields_or_fail (value_or_null o) ≡ passed fs
    → o ≡ some (obj fs)
manifest-eq-passed none h = absurd (cc)
manifest-eq-passed (some (obj fs)) h = ground arith
manifest-eq-passed (some (str s)) h = absurd (cc)
manifest-eq-passed (some null) h = absurd (cc)
manifest-eq-passed (some (bool b)) h = absurd (cc)
manifest-eq-passed (some (int n)) h = absurd (cc)
manifest-eq-passed (some (arr xs)) h = absurd (cc)

pub value_or_null-str : (o : Option Json) (s : String) → value_or_null o ≡ str s → o ≡ some (str s)
value_or_null-str none s h = absurd (cc)
value_or_null-str (some v) s h = ap (λ w. some w) h

index_key-eq-passed :
    (o : Option Json) (fp : String)
    → (or_crash o >>= index_key) ≡ passed (some fp)
    → o ≡ some (str fp)
index_key-eq-passed o fp h = ground arith

add_to_index-cases :
    (key : Option String) (mo : Fields) (index : Index) (fp : String) {found : Fields}
    → lookup str_eq fp (add_to_index key mo index) ≡ some found
    → (lookup str_eq fp index ≡ some found) ⊎ ((key ≡ some fp) × (mo ≡ found))
add_to_index-cases none mo index fp h = inl h
add_to_index-cases (some k) mo index fp h =
    ground (arith, lookup-insert str_eq eq_iff k fp mo index, eq_iff k fp)

-- the entry of a fingerprint
abbrev IsEntry : List Json → String → Fields → Type 0
IsEntry entries fp mo = In (obj mo) entries × (field_of "fingerprint" mo ≡ some (str fp))

index_manifest-IsEntry :
    (entries : List Json) (index index' : Index) (fp : String) {mo : Fields}
    → index_manifest index entries ≡ passed index'
    → lookup str_eq fp index' ≡ some mo
    → (lookup str_eq fp index ≡ some mo) ⊎ IsEntry entries fp mo
unfolding index_manifest
index_manifest-IsEntry [] index index' fp h at = inl (ground arith)
index_manifest-IsEntry (entry ∷ rest) index index' fp {mo} h at =
    let (mo', e₁, h₁) = >>=-eq-passed (fields_or_crash entry) _ h in
    let (key, e₂, h₂) = >>=-eq-passed (or_crash (field_of "fingerprint" mo') >>= index_key) _ h₁ in
    ⊎_elim
      (λ earlier.
        ⊎_elim inl
          (λ (k, same). inr (
            inl (ap obj (sym same) ∙ sym (fields_or_crash-eq-passed entry e₁)),
            index_key-eq-passed (field_of "fingerprint" mo) fp (
                subst (λ m. (or_crash (field_of "fingerprint" m) >>= index_key) ≡ passed (some fp))
                  same (e₂ ∙ ap (λ x. passed x) k)),
          ))
          (add_to_index-cases key mo' index fp earlier))
      (λ (m, e). inr (inr m, e))
      (index_manifest-IsEntry rest (add_to_index key mo' index) index' fp h₂ at)

-- an object is listed with its fingerprint, type and time
abbrev pub IsListed : List Json → PackObject → Type 0
IsListed entries o =
    (mo : Fields) × IsEntry entries o.fingerprint mo
    × (field_of "type" mo ≡ some (str o.otype))
    × ((t : Json) × (field_of "received_at" mo ≡ some t) × (json_eq t o.received_at ≡ true))

Gives-or_crash : {A : Type 0} (o : Option A) → Gives (λ a. o ≡ some a) (or_crash o)
Gives-or_crash none = record { gives = λ a e. absurd (cc) }
Gives-or_crash (some b) = record { gives = λ a e. ground arith }

pub check-eq-passed : (t : Bool) {u : Unit {0}} → check t ≡ passed u → t ≡ true
check-eq-passed true h = refl
check-eq-passed false h = absurd (cc)

-- what the manifest's entry of an object must be
abbrev Matches : Fields → PackObject → Type 0
Matches mo o =
    (field_of "type" mo ≡ some (str o.otype))
    × ((t : Json) × (field_of "received_at" mo ≡ some t) × (json_eq t o.received_at ≡ true))

match_object-Matches :
    (index : Index) (o : PackObject)
    → Gives
        (λ u. (mo : Fields) × (lookup str_eq o.fingerprint index ≡ some mo) × Matches mo o)
        (match_object index o)
unfolding match_object
match_object-Matches index o =
    Gives-bind (Gives-or_fail (lookup str_eq o.fingerprint index)) λ mo found.
      Gives-bind (Gives-or_crash (field_of "type" mo)) λ otype typed. Gives-check λ same_type.
        Gives-bind (Gives-or_crash (field_of "received_at" mo)) λ received_at timed. record {
          gives = λ u e. (
            mo,
            found,
            (
              typed ∙ ap (λ v. some v) (json_eq-str_right otype o.otype same_type),
              (received_at, timed, check-eq-passed _ e),
            ),
          );
        }

match_objects-Matches :
    (index : Index) (os : List PackObject)
    → match_objects index os ≡ passed tt
    → (o : PackObject) → In o os
    → (mo : Fields) × (lookup str_eq o.fingerprint index ≡ some mo) × Matches mo o
unfolding match_objects
match_objects-Matches index [] h o m = absurd m
match_objects-Matches index (x ∷ xs) h o m =
    (Gives-then
        {P = λ u.
          (y : PackObject)
          → In y (x ∷ xs)
          → (mo : Fields) × (lookup str_eq y.fingerprint index ≡ some mo) × Matches mo y}
        {m = match_object index x}
        (λ first. record {
          gives = λ u rest y k.
              ⊎_elim
                (λ e.
                  subst
                    (λ z.
                      (mo : Fields) × (lookup str_eq z.fingerprint index ≡ some mo) × Matches mo z)
                    (sym e) ((match_object-Matches index x).gives tt first))
                (λ k'. match_objects-Matches index xs rest y k') k;
        })).gives
      tt h o m

-- an evidence set with its manifest and content digest, which lists the objects
pub record IsSealed (calls : Calls) (evidence_set : Json) (os : List PackObject) (digest : String)
    : Type 0 where
  pub fields : Fields
  pub set_lem : evidence_set ≡ obj fields
  pub manifest : Fields
  pub manifest_lem : field_of "manifest" fields ≡ some (obj manifest)
  pub digest_lem : digest ≡ canonical_hash calls.host (obj manifest)
  pub recorded : field_of "content_digest" fields ≡ some (str digest)
  pub entries : List Json
  pub entries_lem : iterated (list_or_empty (field_of "objects" manifest)) ≡ passed entries
  pub listed : (o : PackObject) → In o os → IsListed entries o

pub check_manifest-IsSealed :
    (calls : Calls) (evidence_set : Json) (os : List PackObject)
    → Gives (IsSealed calls evidence_set os) (check_manifest calls evidence_set os)
unfolding check_manifest
check_manifest-IsSealed calls evidence_set os =
    Gives-bind (Gives-self (fields_or_crash evidence_set)) λ es e₁.
      Gives-bind (Gives-self (fields_or_fail (value_or_null (field_of "manifest" es))))
        λ manifest e₂. Gives-check λ same_digest.
          Gives-bind (Gives-self (iterated (list_or_empty (field_of "objects" manifest))))
            λ entries e₃. Gives-bind (Gives-self (index_manifest [] entries)) λ index e₄.
              Gives-then λ matched. Gives-passed (record {
                fields = es;
                set_lem = fields_or_crash-eq-passed evidence_set e₁;
                manifest = manifest;
                manifest_lem = manifest-eq-passed (field_of "manifest" es) e₂;
                digest_lem = refl;
                recorded = value_or_null-str _ _ (json_eq-str _ _ same_digest);
                entries = entries;
                entries_lem = e₃;
                listed = λ o m.
                    let (mo, at, same) = match_objects-Matches index os matched o m in
                    let entry =
                      ⊎_elim (λ none_yet. absurd (cc)) (λ k. k)
                        (index_manifest-IsEntry entries [] index o.fingerprint e₄ at) in
                    (mo, entry, same.0, same.1);
              })
