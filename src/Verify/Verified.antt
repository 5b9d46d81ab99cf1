-- ===== src/Verify/Verified.antt =====
-- What `verify_pack` of app/verify.py shows of a pack that it accepts.
use ab_b1b34dfe_mgf1_ocsp_bu.Prelude.{
  String, List, [], ◌∷◌, some, Bool, true, In, ◌↔◌, str_mem, str_mem_iff, all, ◌≡◌, ap, sym, ◌∙◌,
  arith,
}
use ab_b1b34dfe_mgf1_ocsp_bu.Cert.{Text}
use ab_b1b34dfe_mgf1_ocsp_bu.Canonical.{
  Json, null, bool, int, str, arr, obj, Fields, field_of, dump, loads,
}
use ab_b1b34dfe_mgf1_ocsp_bu.Api.{ok}
use ab_b1b34dfe_mgf1_ocsp_bu.Normalize.{validate_input}
use ab_b1b34dfe_mgf1_ocsp_bu.Api.Adjudications.{compute_adjudication_id}
use ab_b1b34dfe_mgf1_ocsp_bu.Verify.{
  passed, PackObject, fields_or_fail, fields_or_crash, items_or_fail, same_members, Pack,
  pack_fields, Calls, check_objects, fingerprints, strictly_sorted, check_input, check_id,
  check_result, verify_pack,
}
use ab_b1b34dfe_mgf1_ocsp_bu.Canonical.Equality.{json_eq}
use ab_b1b34dfe_mgf1_ocsp_bu.Verify.Checks.{
  Gives, Gives-self, Gives-or_fail, Gives-or_any_fails, Gives-or_api_error_fails, Gives-bind,
  Gives-check, Gives-then, json_eq-str, text_eq-true, IsGenuine, check_objects-IsGenuine,
}
use ab_b1b34dfe_mgf1_ocsp_bu.Verify.Manifest.{
  IsSealed, check_manifest-IsSealed, check-eq-passed, fields_or_crash-eq-passed, json_eq-str_right,
  value_or_null-str,
}

all-In :
    (p : String → Bool) (xs : List String) → all p xs ≡ true → (x : String) → In x xs → p x ≡ true
all-In p [] h x m = absurd m
all-In p (y ∷ ys) h x m = ground (arith, all-In p ys (ground arith) x)

same_members-In :
    (ss ts : List String) → same_members ss ts ≡ true → (s : String) → In s ss ↔ In s ts
same_members-In ss ts h s = (
  λ m. (str_mem_iff s ts).0 (all-In (λ x. str_mem x ts) ss (ground arith) s m),
  λ m. (str_mem_iff s ss).0 (all-In (λ x. str_mem x ss) ts (ground arith) s m),
)

fields_or_fail-eq-passed : (v : Json) {fs : Fields} → fields_or_fail v ≡ passed fs → v ≡ obj fs
fields_or_fail-eq-passed (obj fs) h = ground arith
fields_or_fail-eq-passed (str s) h = absurd (cc)
fields_or_fail-eq-passed null h = absurd (cc)
fields_or_fail-eq-passed (bool b) h = absurd (cc)
fields_or_fail-eq-passed (int n) h = absurd (cc)
fields_or_fail-eq-passed (arr xs) h = absurd (cc)

-- what the checks show of the fields of a pack
pub record IsVerified (calls : Calls) (p : Pack) : Type 0 where
  pub entries : List Json
  pub entries_lem : items_or_fail p.objects ≡ passed entries
  pub objects : List PackObject
  pub objects_lem : check_objects calls entries ≡ passed objects
  pub genuine : (o : PackObject) → In o objects → IsGenuine calls o
  pub sorted : strictly_sorted calls (fingerprints calls objects) ≡ true
  pub digest : String
  pub sealed : IsSealed calls p.evidence_set objects digest
  pub normalized : Json
  pub normal : validate_input calls.host calls.b64e p.input ≡ ok normalized
  pub normal_same : json_eq normalized p.input ≡ true
  pub id_lem : p.adjudication_id ≡ str (compute_adjudication_id calls.host digest p.input)
  pub result : Fields
  pub result_lem : p.result ≡ obj result
  pub result_id : field_of "adjudication_id" result ≡ some p.adjudication_id
  pub recomputed : Json
  pub touched : List String
  pub engine_lem : calls.run_engine objects p.input digest ≡ ok (recomputed, touched)
  pub touched_lem : (fp : String) → In fp touched ↔ In fp (fingerprints calls objects)
  pub same_result : dump recomputed ≡ dump p.result

module _ (calls : Calls) where
  check_input-normal :
      (input : Json)
      → Gives
          (λ u.
            (n : Json) × (validate_input calls.host calls.b64e input ≡ ok n)
            × (json_eq n input ≡ true))
          (check_input calls input)
  unfolding check_input
  check_input-normal input =
      Gives-bind (Gives-or_api_error_fails (validate_input calls.host calls.b64e input))
        λ n valid. record { gives = λ u e. (n, valid, check-eq-passed _ e) }

  check_id-same :
      (p : Pack) (digest : String)
      → Gives
          (λ u.
            (p.adjudication_id ≡ str (compute_adjudication_id calls.host digest p.input))
            × ((result : Fields) × (p.result ≡ obj result)
                × (field_of "adjudication_id" result
                    ≡ some (str (compute_adjudication_id calls.host digest p.input)))))
          (check_id calls p digest)
  unfolding check_id
  check_id-same p digest = Gives-check λ same.
      Gives-bind (Gives-self (fields_or_crash p.result)) λ result e. record {
        gives = λ u k. (
          json_eq-str _ p.adjudication_id same,
          (
            result,
            fields_or_crash-eq-passed p.result e,
            value_or_null-str _ _ (json_eq-str_right _ _ (check-eq-passed _ k)),
          ),
        );
      }

  check_result-same :
      (p : Pack) (os : List PackObject) (digest : String)
      → Gives
          (λ u.
            (r : Json × List String) × (calls.run_engine os p.input digest ≡ ok r)
            × ((fp : String) → In fp r.1 ↔ In fp (fingerprints calls os))
            × (dump r.0 ≡ dump p.result))
          (check_result calls p os digest)
  unfolding check_result
  check_result-same p os digest =
      Gives-bind (Gives-or_any_fails (calls.run_engine os p.input digest)) λ r ran.
        Gives-check λ members. record {
          gives = λ u e. (
            r,
            ran,
            same_members-In r.1 (fingerprints calls os) members,
            text_eq-true (dump r.0) (dump p.result) (check-eq-passed _ e),
          );
        }

  verified :
      (p : Pack) (entries : List Json) (os : List PackObject)
      → items_or_fail p.objects ≡ passed entries
      → check_objects calls entries ≡ passed os
      → strictly_sorted calls (fingerprints calls os) ≡ true
      → (digest : String) → IsSealed calls p.evidence_set os digest
      → (n : Json) × (validate_input calls.host calls.b64e p.input ≡ ok n)
        × (json_eq n p.input ≡ true)
      → (p.adjudication_id ≡ str (compute_adjudication_id calls.host digest p.input))
        × ((result : Fields) × (p.result ≡ obj result)
            × (field_of "adjudication_id" result
                ≡ some (str (compute_adjudication_id calls.host digest p.input))))
      → (r : Json × List String) × (calls.run_engine os p.input digest ≡ ok r)
        × ((fp : String) → In fp r.1 ↔ In fp (fingerprints calls os))
        × (dump r.0 ≡ dump p.result)
      → IsVerified calls p
  verified p entries os listed checked sorted digest sealed (n, valid, same)
        (id_same, (result, is_object, at)) (r, ran, members, result_same) =
      record {
        entries = entries;
        entries_lem = listed;
        objects = os;
        objects_lem = checked;
        genuine = (check_objects-IsGenuine calls entries).gives os checked;
        sorted = sorted;
        digest = digest;
        sealed = sealed;
        normalized = n;
        normal = valid;
        normal_same = same;
        id_lem = id_same;
        result = result;
        result_lem = is_object;
        result_id = at ∙ ap (λ v. some v) (sym id_same);
        recomputed = r.0;
        touched = r.1;
        engine_lem = ran;
        touched_lem = members;
        same_result = result_same;
      }

  -- An accepted pack is the canonical text of an object with the required fields. Its objects have the
  -- fingerprints of their bytes, parse as their types and are strictly sorted; the manifest, whose hash is
  -- the content digest, lists them all with type and time; the input is its own normal form; the
  -- adjudication id is that of input and digest; and the engine, given these objects alone, touches all of
  -- them and answers the recorded result, to the letter.
  pub verify_pack-IsVerified :
      (bytes : Text)
      → verify_pack calls bytes ≡ passed tt
      → (fs : Fields) × (p : Pack) × (loads calls.host.parse_json bytes ≡ some (obj fs))
        × (dump (obj fs) ≡ bytes)
        × (pack_fields fs ≡ passed p)
        × IsVerified calls p
  unfolding verify_pack
  verify_pack-IsVerified bytes h =
      (Gives-bind
          {P = λ u.
            (fs : Fields) × (p : Pack) × (loads calls.host.parse_json bytes ≡ some (obj fs))
            × (dump (obj fs) ≡ bytes)
            × (pack_fields fs ≡ passed p)
            × IsVerified calls p}
          (Gives-or_fail (loads calls.host.parse_json bytes))
          λ pack loaded. Gives-check λ canonical.
            Gives-bind (Gives-self (fields_or_fail pack)) λ fs is_object.
              Gives-bind (Gives-self (pack_fields fs)) λ p parts. Gives-check λ version.
                Gives-bind (Gives-self (items_or_fail p.objects)) λ entries listed.
                  Gives-bind (Gives-self (check_objects calls entries)) λ os checked.
                    Gives-check λ sorted.
                      Gives-bind (check_manifest-IsSealed calls p.evidence_set os) λ digest sealed.
                        Gives-then λ input_ok. Gives-then λ id_ok. record {
                          gives = λ u result_ok.
                              let same : pack ≡ obj fs = fields_or_fail-eq-passed pack is_object in
                              (
                                fs,
                                p,
                                loaded ∙ ap (λ v. some v) same,
                                ap dump (sym same) ∙ text_eq-true (dump pack) bytes canonical,
                                parts,
                                verified p entries os listed checked sorted digest sealed
                                    ((check_input-normal p.input).gives tt input_ok)
                                    ((check_id-same p digest).gives tt id_ok)
                                    ((check_result-same p os digest).gives tt result_ok),
                              );
                        }).gives
        tt h
