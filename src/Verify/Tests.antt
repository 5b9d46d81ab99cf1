-- ===== src/Verify/Tests.antt =====
-- Packs for `verify_pack` of app/verify.py.
use ab_b1b34dfe_mgf1_ocsp_bu.Prelude.{
  String, [], ◌∷◌, none, some, if◌then◌else◌, ◌==◌, ◌-◌, ◌&&◌, leb, length, ◌≡◌, refl,
}
use ab_b1b34dfe_mgf1_ocsp_bu.Prelude.Int.{pos}
use ab_b1b34dfe_mgf1_ocsp_bu.Cert.{Text}
use ab_b1b34dfe_mgf1_ocsp_bu.Canonical.{
  Json, null, int, str, arr, obj, nil, cons, Fields, field, end, dump, loads,
}
use ab_b1b34dfe_mgf1_ocsp_bu.Canonical.Times.{Calendar, parsed}
use ab_b1b34dfe_mgf1_ocsp_bu.Api.{ok}
use ab_b1b34dfe_mgf1_ocsp_bu.Parse.Samples.{lib}
use ab_b1b34dfe_mgf1_ocsp_bu.Verify.{passed, failed, Pack, Calls, pack_fields, verify_pack}
use ab_b1b34dfe_mgf1_ocsp_bu.Verify.Verified.{IsVerified, verify_pack-IsVerified}
use ab_b1b34dfe_mgf1_ocsp_bu.Verify.Determined.{verify_pack-same_result}

abbrev entry : Json
entry = obj (
    field "fingerprint" (str "fp") (
      field "type" (str "certificate")
        (field "received_at" (str "t1") (field "der" (str "MAA=") end))))

abbrev manifest : Json
manifest = obj (
    field "objects"
      (arr (
        cons
          (obj (
            field "fingerprint" (str "fp")
              (field "received_at" (str "t1") (field "type" (str "certificate") end))))
          nil))
      end)

abbrev result : String → Json
result verdict =
    obj (field "adjudication_id" (str "adj_digest") (field "verdict" (str verdict) end))

abbrev fp_a : String
fp_a = "aaaaaaaaaaaaaaaaaaaaaaaaaaaaaaaaaaaaaaaaaaaaaaaaaaaaaaaaaaaaaaaa"

abbrev input : Json
input = obj (
    field "artifact_digest" (str fp_a) (
      field "initial_policy_set" (arr (cons (str "anyPolicy") nil)) (
        field "knowledge_cutoff" (str "2025-06-01T12:30:00Z") (
          field "leaf_fingerprint" (str fp_a) (
            field "signature" (str "MAA=") (
              field "signature_algorithm" (str "ed25519") (
                field "signed_at" (str "2025-06-01T12:30:00Z")
                  (field "trust_anchors" (arr (cons (str fp_a) nil)) end))))))))

abbrev parts : String → Pack
parts verdict = record {
  version = int (pos 1);
  adjudication_id = str "adj_digest";
  input = input;
  evidence_set = obj (field "content_digest" (str "digest") (field "manifest" manifest end));
  objects = arr (cons entry nil);
  result = result verdict;
}

abbrev pack : String → Fields → Fields
pack verdict more = field "pack_version" (parts verdict).version (
    field "adjudication_id" (parts verdict).adjudication_id (
      field "input" (parts verdict).input (
        field "evidence_set" (parts verdict).evidence_set
          (field "objects" (parts verdict).objects (field "result" (parts verdict).result more)))))

-- a field that the verifier does not ask for
abbrev noted : Fields
noted = pack "VALID" (field "note" null end)

abbrev plain : Fields
plain = pack "VALID" end

abbrev tampered : Fields
tampered = pack "INVALID" end

-- the parser tells the three packs apart by the length of their texts
abbrev parsed_pack : Text → Fields
parsed_pack t =
    if length t == length (dump (obj plain))
    then plain
    else if length t == length (dump (obj noted))
    then noted
    else tampered

-- there is one time
abbrev calendar : Calendar
calendar = record {
  digit_of = λ c. if leb 48 c && leb c 57 then some (c - 48) else none;
  datetime = λ fields micros minutes. parsed 0;
  strftime = λ t. [];
}

abbrev calls : Calls
calls = record {
  host = record {
    sha256_text = λ t. "digest";
    sha256_bytes = λ d. "fp";
    b64d = λ s. some (48 ∷ 0 ∷ []);
    text_of = λ t. "2025-06-01T12:30:00Z";
    parse_json = λ t. some (obj (parsed_pack t));
    calendar = calendar;
    x509 = lib;
  };
  b64e = λ d. "MAA=";
  run_engine = λ os input digest. ok (result "VALID", "fp" ∷ []);
}

accepts_plain : verify_pack calls (dump (obj plain)) ≡ passed tt
unfolding verify_pack
accepts_plain = refl

accepts_noted : verify_pack calls (dump (obj noted)) ≡ passed tt
unfolding verify_pack
accepts_noted = refl

rejects_tampered : verify_pack calls (dump (obj tampered)) ≡ failed
unfolding verify_pack
rejects_tampered = refl

loads-plain : loads calls.host.parse_json (dump (obj plain)) ≡ some (obj plain)
unfolding loads dump
loads-plain = refl

loads-noted : loads calls.host.parse_json (dump (obj noted)) ≡ some (obj noted)
unfolding loads dump
loads-noted = refl

fields_plain : pack_fields plain ≡ passed (parts "VALID")
unfolding pack_fields
fields_plain = refl

fields_noted : pack_fields noted ≡ passed (parts "VALID")
unfolding pack_fields
fields_noted = refl

verify_pack-IsVerified_example :
    (fs : Fields) × (p : Pack) × (loads calls.host.parse_json (dump (obj plain)) ≡ some (obj fs))
    × (dump (obj fs) ≡ dump (obj plain))
    × (pack_fields fs ≡ passed p)
    × IsVerified calls p
verify_pack-IsVerified_example = verify_pack-IsVerified calls (dump (obj plain)) accepts_plain

verify_pack-same_result_example :
    ((parts "VALID").adjudication_id ≡ (parts "VALID").adjudication_id)
    × (dump (parts "VALID").result ≡ dump (parts "VALID").result)
verify_pack-same_result_example =
    verify_pack-same_result calls (dump (obj plain)) (dump (obj noted)) plain noted (parts "VALID")
      (parts "VALID") accepts_plain accepts_noted loads-plain loads-noted fields_plain fields_noted
      refl refl refl
