-- ===== src/Verify/Determined.antt =====
-- What the rest of a pack determines, if `verify_pack` of app/verify.py accepts it.
use ab_b1b34dfe_mgf1_ocsp_bu.Prelude.{String, List, some, ◌≡◌, refl, ap, sym, subst, ◌∙◌, arith}
use ab_b1b34dfe_mgf1_ocsp_bu.Cert.{Text}
use ab_b1b34dfe_mgf1_ocsp_bu.Canonical.{Json, str, obj, Fields, field_of, dump, loads}
use ab_b1b34dfe_mgf1_ocsp_bu.Api.{canonical_hash}
use ab_b1b34dfe_mgf1_ocsp_bu.Api.Adjudications.{compute_adjudication_id}
use ab_b1b34dfe_mgf1_ocsp_bu.Verify.{
  Check, passed, PackObject, items_or_fail, Pack, pack_fields, Calls, check_objects, verify_pack,
}
use ab_b1b34dfe_mgf1_ocsp_bu.Verify.Manifest.{IsSealed}
use ab_b1b34dfe_mgf1_ocsp_bu.Verify.Verified.{IsVerified, verify_pack-IsVerified}

-- the value of a check that passes is one
passed-inj : {A : Type 0} {r : Check A} {a b : A} → r ≡ passed a → r ≡ passed b → a ≡ b
passed-inj e e' = ground arith

IsSealed-digest :
    (calls : Calls) (evidence_set : Json) (os os' : List PackObject) (digest digest' : String)
    → IsSealed calls evidence_set os digest
    → IsSealed calls evidence_set os' digest'
    → digest ≡ digest'
IsSealed-digest calls evidence_set os os' digest digest' s s' =
    let same_fields : s.fields ≡ s'.fields = let e = sym s.set_lem ∙ s'.set_lem in ground arith in
    let same_manifest : s.manifest ≡ s'.manifest =
      let e = sym s.manifest_lem ∙ ap (field_of "manifest") same_fields ∙ s'.manifest_lem in
      ground arith in
    s.digest_lem ∙ ap (λ m. canonical_hash calls.host (obj m)) same_manifest ∙ sym s'.digest_lem

is_verified :
    (calls : Calls) (bytes : Text) (fs : Fields) (p : Pack)
    → verify_pack calls bytes ≡ passed tt
    → loads calls.host.parse_json bytes ≡ some (obj fs)
    → pack_fields fs ≡ passed p
    → IsVerified calls p
is_verified calls bytes fs p h l f =
    let (gs, q, l', c, f', v) = verify_pack-IsVerified calls bytes h in
    let same_fields : gs ≡ fs = let e = sym l' ∙ l in ground arith in
    subst (IsVerified calls) (passed-inj f' (ap pack_fields same_fields ∙ f)) v

same_result :
    (calls : Calls) (p p' : Pack)
    → IsVerified calls p
    → IsVerified calls p'
    → p.input ≡ p'.input
    → p.evidence_set ≡ p'.evidence_set
    → p.objects ≡ p'.objects
    → (p.adjudication_id ≡ p'.adjudication_id) × (dump p.result ≡ dump p'.result)
same_result calls p p' v v' input set objects =
    let entries : v.entries ≡ v'.entries =
      passed-inj v.entries_lem (ap items_or_fail objects ∙ v'.entries_lem) in
    let os : v.objects ≡ v'.objects =
      passed-inj v.objects_lem (ap (check_objects calls) entries ∙ v'.objects_lem) in
    let digest : v.digest ≡ v'.digest =
      IsSealed-digest calls p'.evidence_set v.objects v'.objects v.digest v'.digest
        (subst (λ e. IsSealed calls e v.objects v.digest) set v.sealed) v'.sealed in
    let ran : calls.run_engine v.objects p.input v.digest
        ≡ calls.run_engine v'.objects p'.input v'.digest =
      rw (os, input, digest) refl in
    let id : compute_adjudication_id calls.host v.digest p.input
        ≡ compute_adjudication_id calls.host v'.digest p'.input =
      rw (input, digest) refl in
    let answers : v.recomputed ≡ v'.recomputed =
      (let e = sym v.engine_lem ∙ ran ∙ v'.engine_lem in ground arith) in
    (v.id_lem ∙ ap str id ∙ sym v'.id_lem, sym v.same_result ∙ ap dump answers ∙ v'.same_result)

-- The rest of an accepted pack determines its result and its id: two accepted packs that agree on the
-- input, the evidence set and the objects have the same adjudication id and, to the letter, the same
-- result.
pub verify_pack-same_result :
    (calls : Calls) (bytes bytes' : Text) (fs fs' : Fields) (p p' : Pack)
    → verify_pack calls bytes ≡ passed tt
    → verify_pack calls bytes' ≡ passed tt
    → loads calls.host.parse_json bytes ≡ some (obj fs)
    → loads calls.host.parse_json bytes' ≡ some (obj fs')
    → pack_fields fs ≡ passed p
    → pack_fields fs' ≡ passed p'
    → p.input ≡ p'.input
    → p.evidence_set ≡ p'.evidence_set
    → p.objects ≡ p'.objects
    → (p.adjudication_id ≡ p'.adjudication_id) × (dump p.result ≡ dump p'.result)
verify_pack-same_result calls bytes bytes' fs fs' p p' h h' l l' f f' input set objects =
    same_result calls p p' (is_verified calls bytes fs p h l f)
      (is_verified calls bytes' fs' p' h' l' f') input set objects
