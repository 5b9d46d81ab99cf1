-- ===== src/Verify.antt =====
-- app/verify.py: the check of an evidence pack. The lines of the log are left out: a check that fails
-- ends the verification.
pub mod Checks
pub mod Manifest
pub mod Verified
pub mod Determined
mod Tests
use ab_b1b34dfe_mgf1_ocsp_bu.Prelude.{
  ℕ, zero, suc, ◌+◌, String, List, [], ◌∷◌, ◌++◌, Option, none, some, Bool, true, false, not, ◌&&◌,
  ◌||◌, if◌then◌else◌, ◌==◌, str_eq, str_mem, str_le, sort_by, map, all,
}
use ab_b1b34dfe_mgf1_ocsp_bu.Prelude.Dict.{lookup, insert}
use ab_b1b34dfe_mgf1_ocsp_bu.Prelude.Int.{ℤ, pos, negsuc}
use ab_b1b34dfe_mgf1_ocsp_bu.Cert.{Text, Bytes, text_eq}
use ab_b1b34dfe_mgf1_ocsp_bu.Canonical.{
  Json, null, bool, int, str, arr, obj, Items, nil, cons, Fields, end, field, field_of, dump, loads,
}
use ab_b1b34dfe_mgf1_ocsp_bu.Canonical.Equality.{json_eq}
use ab_b1b34dfe_mgf1_ocsp_bu.Normalize.{validate_input}
use ab_b1b34dfe_mgf1_ocsp_bu.Parse.Meta.{compute_meta}
use ab_b1b34dfe_mgf1_ocsp_bu.Api.{
  library, Result, ok, err, Failure, api_error, Host, list_of, canonical_hash,
}
use ab_b1b34dfe_mgf1_ocsp_bu.Api.Adjudications.{compute_adjudication_id}

-- a check that passed with a value, one that failed, or an exception that is not caught
pub data Check (A : Type 0) : Type 0 where
  passed : A → Check A
  failed crashed : Check A

infixl 5 ◌>>=◌ ◌>>◌
abbrev pub ◌>>=◌ : {A B : Type 0} → Check A → (A → Check B) → Check B
passed value >>= next = next value
failed >>= next = failed
crashed >>= next = crashed

abbrev pub ◌>>◌ : {A B : Type 0} → Check A → Check B → Check B
passed value >> next = next
failed >> next = failed
crashed >> next = crashed

abbrev pub check : Bool → Check (Unit {0})
check true = passed tt
check false = failed

abbrev pub or_fail : {A : Type 0} → Option A → Check A
or_fail none = failed
or_fail (some value) = passed value

abbrev pub or_crash : {A : Type 0} → Option A → Check A
or_crash none = crashed
or_crash (some value) = passed value

-- every exception is caught
abbrev pub or_any_fails : {A : Type 0} → Result A → Check A
or_any_fails (ok value) = passed value
or_any_fails (err e) = failed

-- only an `ApiError` is caught
abbrev pub or_api_error_fails : {A : Type 0} → Result A → Check A
or_api_error_fails (ok value) = passed value
or_api_error_fails (err (api_error code status)) = failed
or_api_error_fails (err _) = crashed

abbrev pub object_types : List String
object_types = "certificate" ∷ "crl" ∷ "ocsp" ∷ []

-- an object of a pack, past its checks
pub record PackObject : Type 0 where
  pub fingerprint : String
  pub otype : String
  pub der : Bytes
  pub received_at : Json
  pub meta : Json

abbrev pub fields_or_fail : Json → Check Fields
fields_or_fail (obj fs) = passed fs
fields_or_fail _ = failed

abbrev pub fields_or_crash : Json → Check Fields
fields_or_crash (obj fs) = passed fs
fields_or_crash _ = crashed

abbrev pub items_or_fail : Json → Check (List Json)
items_or_fail (arr xs) = passed (list_of xs)
items_or_fail _ = failed

abbrev pub string_or_fail : Json → Check String
string_or_fail (str s) = passed s
string_or_fail _ = failed

abbrev pub value_or_null : Option Json → Json
value_or_null none = null
value_or_null (some v) = v

-- what `for mo in value` goes over: a text or an object that is not empty has texts in it, which are
-- not objects
abbrev pub iterated : Json → Check (List Json)
iterated (arr xs) = passed (list_of xs)
iterated (obj end) = passed []
iterated (str s) = if str_eq s "" then passed [] else crashed
iterated _ = crashed

abbrev pub list_or_empty : Option Json → Json
list_or_empty none = arr nil
list_or_empty (some v) = v

-- a key of `manifest_index`: a list or an object cannot be one, and only texts are looked up
abbrev pub index_key : Json → Check (Option String)
index_key (str s) = passed (some s)
index_key (arr xs) = crashed
index_key (obj fs) = crashed
index_key _ = passed none

abbrev pub Index : Type 0
Index = List (String × Fields)

abbrev pub add_to_index : Option String → Fields → Index → Index
add_to_index none mo index = index
add_to_index (some fp) mo index = insert str_eq fp mo index

-- `manifest_index`
unfoldable pub index_manifest : Index → List Json → Check Index
unfolding field_of
index_manifest index [] = passed index
index_manifest index (entry ∷ rest) = do
  mo ← fields_or_crash entry
  key ← or_crash (field_of "fingerprint" mo) >>= index_key
  index_manifest (add_to_index key mo index) rest

-- an object is in the manifest with its type and time
unfoldable pub match_object : Index → PackObject → Check (Unit {0})
unfolding field_of json_eq
match_object index o = do
  mo ← or_fail (lookup str_eq o.fingerprint index)
  otype ← or_crash (field_of "type" mo)
  check (json_eq otype (str o.otype))
  received_at ← or_crash (field_of "received_at" mo)
  check (json_eq received_at o.received_at)

unfoldable pub match_objects : Index → List PackObject → Check (Unit {0})
unfolding match_object
match_objects index [] = passed tt
match_objects index (o ∷ os) = do match_object index o; match_objects index os

abbrev pub texts_eq : List String → List String → Bool
texts_eq [] [] = true
texts_eq (s ∷ ss) (t ∷ ts) = str_eq s t && texts_eq ss ts
texts_eq _ _ = false

abbrev pub all_distinct : List String → Bool
all_distinct [] = true
all_distinct (s ∷ ss) = not (str_mem s ss) && all_distinct ss

abbrev pub same_members : List String → List String → Bool
same_members ss ts = all (λ s. str_mem s ts) ss && all (λ t. str_mem t ss) ts

-- the fields that a pack must have
pub record Pack : Type 0 where
  pub version : Json
  pub adjudication_id : Json
  pub input : Json
  pub evidence_set : Json
  pub objects : Json
  pub result : Json

unfoldable pub pack_fields : Fields → Check Pack
unfolding field_of
pack_fields fs = do
  version ← or_fail (field_of "pack_version" fs)
  adjudication_id ← or_fail (field_of "adjudication_id" fs)
  input ← or_fail (field_of "input" fs)
  evidence_set ← or_fail (field_of "evidence_set" fs)
  objects ← or_fail (field_of "objects" fs)
  result ← or_fail (field_of "result" fs)
  passed (record {
    version = version;
    adjudication_id = adjudication_id;
    input = input;
    evidence_set = evidence_set;
    objects = objects;
    result = result;
  })

-- What the verifier calls of other code: `b64e` of the standard library, and the engine, which answers
-- for the objects of a source, an input and a content digest, with the fingerprints that it touched.
pub record Calls : Type 0 where
  pub host : Host
  pub b64e : Bytes → String
  pub run_engine : List PackObject → Json → String → Result (Json × List String)

module _ (calls : Calls) where
  open calls use {host, b64e, run_engine}

  -- 2. one object
  unfoldable pub check_object : Json → Check PackObject
  unfolding field_of compute_meta
  check_object entry = do
    fs ← fields_or_fail entry
    fingerprint ← or_fail (field_of "fingerprint" fs)
    type ← or_fail (field_of "type" fs)
    der ← or_fail (field_of "der" fs) >>= string_or_fail >>= λ s. or_fail (host.b64d s)
    received_at ← or_fail (field_of "received_at" fs)
    otype ← string_or_fail type
    check (str_mem otype object_types)
    fp ← string_or_fail fingerprint
    check (str_eq (host.sha256_bytes der) fp)
    meta ← or_any_fails (compute_meta (library host) host.calendar otype der)
    passed (record {
      fingerprint = fp;
      otype = otype;
      der = der;
      received_at = received_at;
      meta = meta;
    })

  unfoldable pub check_objects : List Json → Check (List PackObject)
  unfolding check_object
  check_objects [] = passed []
  check_objects (x ∷ xs) = do o ← check_object x; os ← check_objects xs; passed (o ∷ os)

  abbrev pub fingerprints : List PackObject → List String
  fingerprints os = map (λ o. o.fingerprint) os

  abbrev pub strictly_sorted : List String → Bool
  strictly_sorted fps = texts_eq fps (sort_by str_le fps) && all_distinct fps

  -- 3. the manifest, and the content digest
  unfoldable pub check_manifest : Json → List PackObject → Check String
  unfolding field_of canonical_hash json_eq index_manifest match_objects
  check_manifest evidence_set os = do
    es ← fields_or_crash evidence_set
    manifest ← fields_or_fail (value_or_null (field_of "manifest" es))
    let digest = canonical_hash host (obj manifest)
    check (json_eq (str digest) (value_or_null (field_of "content_digest" es)))
    entries ← iterated (list_or_empty (field_of "objects" manifest))
    index ← index_manifest [] entries
    match_objects index os
    passed digest

  -- 4. the input
  unfoldable pub check_input : Json → Check (Unit {0})
  unfolding json_eq validate_input
  check_input input = do
    normalized ← or_api_error_fails (validate_input host b64e input)
    check (json_eq normalized input)

  -- 5. the id
  unfoldable pub check_id : Pack → String → Check (Unit {0})
  unfolding compute_adjudication_id json_eq field_of
  check_id p digest = do
    let adj_id = compute_adjudication_id host digest p.input
    check (json_eq (str adj_id) p.adjudication_id)
    result ← fields_or_crash p.result
    check (json_eq (value_or_null (field_of "adjudication_id" result)) (str adj_id))

  -- 6. the engine
  unfoldable pub check_result : Pack → List PackObject → String → Check (Unit {0})
  unfolding dump
  check_result p os digest = do
    (result, touched) ← or_any_fails (run_engine os p.input digest)
    check (same_members touched (fingerprints os))
    check (text_eq (dump result) (dump p.result))

  unfoldable pub verify_pack : Text → Check (Unit {0})
  unfolding loads dump pack_fields check_objects check_manifest check_input check_id check_result
      json_eq
  verify_pack bytes = do
    pack ← or_fail (loads host.parse_json bytes)
    check (text_eq (dump pack) bytes)
    fs ← fields_or_fail pack
    p ← pack_fields fs
    check (json_eq p.version (int (pos 1)))
    entries ← items_or_fail p.objects
    os ← check_objects entries
    check (strictly_sorted (fingerprints os))
    digest ← check_manifest p.evidence_set os
    check_input p.input
    check_id p digest
    check_result p os digest
