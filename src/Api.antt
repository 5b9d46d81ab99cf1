-- ===== src/Api.antt =====
-- app/api.py: the checks of requests, idempotency and the handlers, each a function on the
-- database, with the errors of app/errors.py. Texts of `message` and `details` are left out.
pub mod Objects
pub mod Seal
pub mod Adjudications
pub mod Steps
pub mod Phases
pub mod Durable
pub mod Replay
pub mod Verdicts
pub mod Effects
pub mod Sealed
pub mod Contents
pub mod Limits
mod Tests
use ab_b1b34dfe_mgf1_ocsp_bu.Prelude.{
  ℕ, zero, suc, ◌+◌, String, List, [], ◌∷◌, ◌++◌, Option, none, some, Bool, true, false, not, ◌&&◌,
  ◌||◌, if◌then◌else◌, ltb, leb, ◌==◌, str_eq, str_le, str_mem, length, map, sum_by, sort_by,
  select,
}
use ab_b1b34dfe_mgf1_ocsp_bu.Prelude.Int.{ℤ, pos}
use ab_b1b34dfe_mgf1_ocsp_bu.Cert.{Text, Bytes, CertInfo, Finding}
use ab_b1b34dfe_mgf1_ocsp_bu.Canonical.{
  Json, null, bool, int, str, arr, obj, Items, nil, cons, Fields, end, field, field_of, codes, dump,
  loads,
}
use ab_b1b34dfe_mgf1_ocsp_bu.Canonical.Times.{
  Calendar, Parsed, parsed, invalid, overflow, parse_time, canon_time,
}
use ab_b1b34dfe_mgf1_ocsp_bu.Parse.{Package}
use ab_b1b34dfe_mgf1_ocsp_bu.Store.{
  Db, SetRow, ObjectRow, RequestRow, AdjudicationRow, Counts, Status, opened, sealed, get_set,
  create_set, seal_set, object_counts, existing_fingerprints, insert_object, list_objects,
  get_request, put_request, get_adjudication, put_adjudication, is_certificate, is_revocation,
  one_of,
}

-- an `ApiError` with its code and HTTP status, or an exception of another kind
pub data Failure : Type 0 where
  api_error : String → ℕ → Failure
  parse_error : String → Failure
  resource_exhausted integrity_error unexpected : Failure

-- the status that the error handlers answer with
unfoldable pub status_of : Failure → ℕ
status_of (api_error code http_status) = http_status
status_of (parse_error code) = 400
status_of resource_exhausted = 422
status_of integrity_error = 500
status_of unexpected = 500

pub data Result (A : Type 0) : Type 0 where
  ok : A → Result A
  err : Failure → Result A

infixl 5 ◌>>=◌ ◌>>◌
abbrev pub ◌>>=◌ : {X Y : Type 0} → Result X → (X → Result Y) → Result Y
err failure >>= rest = err failure
ok x >>= rest = rest x

abbrev pub ◌>>◌ : {A B : Type 0} → Result A → Result B → Result B
ok a >> k = k
err e >> k = err e

abbrev pub raise_if : Bool → Failure → Result (Unit {0})
raise_if true e = err e
raise_if false e = ok tt

abbrev pub or_raise : {A : Type 0} → Option A → Failure → Result A
or_raise none e = err e
or_raise (some a) e = ok a

abbrev pub validation : Failure
validation = api_error "VALIDATION" 400

-- a response: the status and the body
pub record Response : Type 0 where
  pub status : ℕ
  pub body : Text

-- what the handlers call of other code: hashes in hex, of the UTF-8 of a text and of bytes, base64,
-- the parser of JSON, the calendar, and the `cryptography` package
pub record Host : Type 0 where
  pub sha256_text : Text → String
  pub sha256_bytes : Bytes → String
  pub b64d : String → Option Bytes
  pub text_of : Text → String
  pub parse_json : Text → Option Json
  pub calendar : Calendar
  pub x509 : Package

-- what the parsers of objects call
abbrev pub library : Host → Package
library host = record host.x509 { sha256_hex = host.sha256_bytes; text_of = host.text_of }

-- app/profile.py
abbrev pub max_certificates : ℕ
max_certificates = 100000

abbrev pub max_revocation_evidence : ℕ
max_revocation_evidence = 2000

abbrev pub max_revocation_entries : ℕ
max_revocation_entries = 1000000

abbrev pub max_object_bytes : ℕ
max_object_bytes = 33554432

abbrev pub max_batch_objects : ℕ
max_batch_objects = 4096

abbrev pub max_batch_bytes : ℕ
max_batch_bytes = 134217728

-- the keys of an object that are not allowed
unfoldable pub known_fields : List String → Fields → Bool
known_fields allowed end = true
known_fields allowed (field k v rest) = str_mem k allowed && known_fields allowed rest

unfoldable pub reject_unknown_fields : List String → Fields → Result (Unit {0})
unfolding known_fields
reject_unknown_fields allowed fs = raise_if (not (known_fields allowed fs)) validation

abbrev pub object_fields : Json → Result Fields
object_fields (obj fs) = ok fs
object_fields _ = err validation

abbrev pub string_value : Option Json → Result String
string_value (some (str s)) = ok s
string_value _ = err validation

unfoldable pub require_request_id : Fields → Result String
unfolding field_of codes
require_request_id fs = do
  rid ← string_value (field_of "request_id" fs)
  raise_if (length (codes rid) == 0 || ltb 200 (length (codes rid))) validation
  ok rid

-- the items of a list
abbrev pub list_of : Items → List Json
list_of nil = []
list_of (cons x xs) = x ∷ list_of xs

abbrev pub items_of : List Json → Items
items_of [] = nil
items_of (x ∷ xs) = cons x (items_of xs)

-- `{"k": v, ...}`
abbrev pub fields_of : List (String × Json) → Fields
fields_of [] = end
fields_of ((k, v) ∷ rest) = field k v (fields_of rest)

module _ (host : Host) where
  open host use {sha256_text, sha256_bytes, b64d, text_of, parse_json, calendar}

  unfoldable pub parse_body : Text → Result Fields
  unfolding loads
  parse_body raw = do
    raise_if (length raw == 0) validation
    value ← or_raise (loads parse_json raw) validation
    object_fields value

  -- `canonical_hash`
  unfoldable pub canonical_hash : Json → String
  unfolding dump
  canonical_hash value = sha256_text (dump value)

  unfoldable pub request_fingerprint : String → Fields → String
  unfolding canonical_hash
  request_fingerprint endpoint parts = canonical_hash (obj (field "endpoint" (str endpoint) parts))

  -- a handler inside its transaction: the status and the value to answer, and the new database
  abbrev pub Handler : Type 0
  Handler = Db → Result ((ℕ × Json) × Db)

  -- what a stored request is answered with
  abbrev pub replay : RequestRow → String → Result Response
  replay row fingerprint =
      if str_eq row.request_hash fingerprint
      then ok (record { status = row.status_code; body = row.response_body })
      else err (api_error "IDEMPOTENCY_CONFLICT" 409)

  abbrev pub request_row : String → String → String → ℕ → Text → RequestRow
  request_row endpoint request_id fingerprint status body = record {
    request_id = request_id;
    endpoint = endpoint;
    request_hash = fingerprint;
    status_code = status;
    response_body = body;
  }

  -- the end of a transaction: COMMIT with its database, or ROLLBACK to the first
  abbrev pub finish : {A : Type 0} → Db → Result (A × Db) → Result A × Db
  finish db (ok (a, db')) = (ok a, db')
  finish db (err e) = (err e, db)

  -- the handler and the record of its response
  unfoldable pub handle_new : String → String → String → Handler → Db → Result (Response × Db)
  unfolding put_request dump
  handle_new endpoint request_id fingerprint handler db = do
    ((status, value), db₁) ← handler db
    db₂ ←
        or_raise (put_request db₁ (request_row endpoint request_id fingerprint status (dump value)))
          integrity_error
    ok (record { status = status; body = dump value }, db₂)

  unfoldable pub run_idempotent : String → String → String → Handler → Db → Result Response × Db
  unfolding get_request handle_new
  run_idempotent endpoint request_id fingerprint handler db = elim (get_request db request_id) [
    | some row ↦ (replay row fingerprint, db)
    | none ↦ finish db (handle_new endpoint request_id fingerprint handler db)
  ]

  unfoldable pub get_set_or_404 : Db → String → Result SetRow
  unfolding get_set
  get_set_or_404 db set_id = or_raise (get_set db set_id) (api_error "EVIDENCE_SET_NOT_FOUND" 404)

  -- `set_id` is `"es_" + uuid4().hex`
  unfoldable pub handle_create : String → String → Handler
  unfolding create_set
  handle_create set_id request_id db = do
    db' ← or_raise (create_set db set_id request_id) integrity_error
    ok ((201, obj (fields_of (("evidence_set_id", str set_id) ∷ ("status", str "OPEN") ∷ []))), db')

  abbrev pub label_ok : Option Json → Bool
  label_ok none = true
  label_ok (some null) = true
  label_ok (some (str s)) = not (ltb 500 (length (codes s)))
  label_ok (some _) = false

  abbrev pub label_value : Option Json → Json
  label_value none = null
  label_value (some v) = v

  -- a call of an endpoint up to its transaction: the endpoint's key, the request id, the
  -- fingerprint and the handler
  pub record Call : Type 0 where
    pub endpoint : String
    pub request_id : String
    pub fingerprint : String
    pub handler : Handler

  unfoldable pub create_evidence_set : String → Text → Result Call
  unfolding parse_body require_request_id reject_unknown_fields field_of request_fingerprint
      handle_create codes
  create_evidence_set set_id raw = do
    body ← parse_body raw
    request_id ← require_request_id body
    reject_unknown_fields ("request_id" ∷ "label" ∷ []) body
    raise_if (not (label_ok (field_of "label" body))) validation
    ok (record {
      endpoint = "create_evidence_set";
      request_id = request_id;
      fingerprint = request_fingerprint "create_evidence_set" (
          fields_of
            (("request_id", str request_id) ∷ ("label", label_value (field_of "label" body)) ∷ []));
      handler = handle_create set_id request_id;
    })

  unfoldable pub run_call : Call → Db → Result Response × Db
  unfolding run_idempotent
  run_call call db = run_idempotent call.endpoint call.request_id call.fingerprint call.handler db
