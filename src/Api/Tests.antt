-- ===== src/Api/Tests.antt =====
-- Runs of the endpoints of app/api.py.
use ab_b1b34dfe_mgf1_ocsp_bu.Prelude.{
  ℕ, String, [], ◌∷◌, Option, none, some, true, if◌then◌else◌, str_eq, inl, ◌≡◌, refl, ◌==◌, length,
  In,
}
use ab_b1b34dfe_mgf1_ocsp_bu.Canonical.{Json, null, bool, str, obj, dump}
use ab_b1b34dfe_mgf1_ocsp_bu.Canonical.Times.{Calendar, invalid}
use ab_b1b34dfe_mgf1_ocsp_bu.Store.{
  Db, SetRow, ObjectRow, sealed, empty_db, new_set, get_set, rows_of, get_object, get_request,
  object_counts,
}
use ab_b1b34dfe_mgf1_ocsp_bu.Parse.Samples.{lib}
use ab_b1b34dfe_mgf1_ocsp_bu.Api.{
  ok, err, Host, Response, Call, run_idempotent, run_call, handle_create, create_evidence_set,
  fields_of,
}
use ab_b1b34dfe_mgf1_ocsp_bu.Api.Objects.{handle_add}
use ab_b1b34dfe_mgf1_ocsp_bu.Api.Seal.{handle_seal, get_evidence_set, get_manifest}
use ab_b1b34dfe_mgf1_ocsp_bu.Api.Adjudications.{
  Request, Pinned, Computed, persist, get_adjudication_result,
}
use ab_b1b34dfe_mgf1_ocsp_bu.Api.Steps.{Step, created, added, closed, Reach, here, next}
use ab_b1b34dfe_mgf1_ocsp_bu.Api.Replay.{
  run_idempotent-replays, create_evidence_set-replays, sealed-Stays, conflict,
}
use ab_b1b34dfe_mgf1_ocsp_bu.Api.Verdicts.{Persists, persist-total, persist-Agrees}
use ab_b1b34dfe_mgf1_ocsp_bu.Api.Sealed.{Describes, Reach-SealedMatch}
use ab_b1b34dfe_mgf1_ocsp_bu.Api.Contents.{IsStored, Reach-Contents}
use ab_b1b34dfe_mgf1_ocsp_bu.Api.Limits.{Within, Reach-Within}

abbrev calendar : Calendar
calendar = record {
  digit_of = λ c. none;
  datetime = λ fields micros minutes. invalid;
  strftime = λ a. [];
}

abbrev body : Json
body = obj (fields_of (("request_id", str "r1") ∷ []))

abbrev host : Host
host = record {
  sha256_text = λ t. if length t == 0 then "empty" else "digest";
  sha256_bytes = λ d. "fp";
  b64d = λ s. some (1 ∷ 2 ∷ []);
  text_of = λ t. "time";
  parse_json = λ t. some body;
  calendar = calendar;
  x509 = lib;
}

abbrev created_row : SetRow
created_row = new_set "es_1" "r1"

abbrev certificate : Json
certificate = obj (fields_of (("type", str "certificate") ∷ ("der", str "AQI=") ∷ []))

-- a set is created, a certificate is added, and the set is sealed

abbrev db_1 : Db
db_1 =
    (run_idempotent host "create_evidence_set" "r1" "f1" (handle_create host "es_1" "r1")
      empty_db).1

abbrev db_2 : Db
db_2 =
    (run_idempotent host "add_objects:es_1" "r2" "f2" (handle_add host "es_1" (certificate ∷ []))
      db_1).1

abbrev db_3 : Db
db_3 = (run_idempotent host "seal:es_1" "r3" "f3" (handle_seal host "es_1") db_2).1

reach_1 : Reach host empty_db db_1
reach_1 = next empty_db db_1 here (created "es_1" "create_evidence_set" "r1" "f1" refl)

reach_2 : Reach host empty_db db_2
reach_2 = next db_1 db_2 reach_1 (added "es_1" "add_objects:es_1" "r2" "f2" (certificate ∷ []) refl)

closing_3 : Step host db_2 db_3
closing_3 = closed "es_1" "seal:es_1" "r3" "f3" refl

reach_3 : Reach host empty_db db_3
reach_3 = next db_2 db_3 reach_2 closing_3

abbrev created_answer : Response
created_answer = record {
  status = 201;
  body = dump (obj (fields_of (("evidence_set_id", str "es_1") ∷ ("status", str "OPEN") ∷ [])));
}

-- the set and its object after the seal

abbrev set_or_new : Option SetRow → SetRow
set_or_new none = created_row
set_or_new (some row) = row

abbrev row_3 : SetRow
row_3 = set_or_new (get_set db_3 "es_1")

found_3 : get_set db_3 "es_1" ≡ some row_3
unfolding run_idempotent handle_create handle_add handle_seal get_set
found_3 = refl

sealed_3 : row_3.status ≡ sealed
unfolding run_idempotent handle_create handle_add handle_seal get_set
sealed_3 = refl

run_1 :
    run_idempotent host "create_evidence_set" "r1" "f1" (handle_create host "es_1" "r1") empty_db
    ≡ (ok created_answer, db_1)
unfolding run_idempotent handle_create
run_1 = refl

-- the request of the creation is sent again after the seal with another fingerprint

run_idempotent-replays_example :
    run_idempotent host "create_evidence_set" "r1" "f9" (handle_create host "es_2" "r1") db_3
    ≡ ((if str_eq "f1" "f9" then ok created_answer else err conflict), db_3)
run_idempotent-replays_example =
    run_idempotent-replays host "create_evidence_set" "r1" "f1" (handle_create host "es_1" "r1")
      empty_db run_1
      (next db_2 db_3
        (next db_1 db_2 here (added "es_1" "add_objects:es_1" "r2" "f2" (certificate ∷ []) refl))
        closing_3)
      "create_evidence_set" "f9" (handle_create host "es_2" "r1")

abbrev call_1 : String → Call host
call_1 set_id = record {
  endpoint = "create_evidence_set";
  request_id = "r1";
  fingerprint = "digest";
  handler = handle_create host set_id "r1";
}

raw_1 : (set_id : String) → create_evidence_set host set_id (123 ∷ 125 ∷ []) ≡ ok (call_1 set_id)
unfolding create_evidence_set
raw_1 set_id = refl

abbrev db_4 : Db
db_4 = (run_call host (call_1 "es_1") empty_db).1

run_4 : run_call host (call_1 "es_1") empty_db ≡ (ok created_answer, db_4)
unfolding run_call handle_create
run_4 = refl

abbrev db_5 : Db
db_5 = (run_idempotent host "seal:es_1" "r3" "f3" (handle_seal host "es_1") db_4).1

create_evidence_set-replays_example : run_call host (call_1 "es_2") db_5 ≡ (ok created_answer, db_5)
create_evidence_set-replays_example =
    create_evidence_set-replays host "es_1" "es_2" (123 ∷ 125 ∷ []) (raw_1 "es_1") (raw_1 "es_2")
      empty_db run_4 (next db_4 db_5 here (closed "es_1" "seal:es_1" "r3" "f3" refl))

-- another set is created after the seal

abbrev db_6 : Db
db_6 = (run_idempotent host "create_evidence_set" "r6" "f6" (handle_create host "es_6" "r6") db_3).1

sealed-Stays_example :
    (get_set db_6 "es_1" ≡ some row_3)
    × (rows_of db_6 "es_1" ≡ rows_of db_3 "es_1")
    × (get_evidence_set host "es_1" db_6 ≡ get_evidence_set host "es_1" db_3)
    × (get_manifest host "es_1" db_6 ≡ get_manifest host "es_1" db_3)
sealed-Stays_example =
    sealed-Stays host db_3 "es_1" found_3 sealed_3
      (next db_3 db_6 here (created "es_6" "create_evidence_set" "r6" "f6" refl))

Reach-SealedMatch_example : Describes host db_3 "es_1" row_3
Reach-SealedMatch_example = Reach-SealedMatch host reach_3 "es_1" row_3 found_3 sealed_3

abbrev object_3 : ObjectRow
object_3 = record {
  set_id = "es_1";
  fingerprint = "fp";
  otype = "certificate";
  der = 1 ∷ 2 ∷ [];
  received_at = none;
  entry_count = 0;
  meta = obj (
      fields_of (
        ("subject_der_hex", str "cn")
        ∷ ("issuer_der_hex", str "root")
        ∷ ("ski", str "bb")
        ∷ ("aki_keyid", null)
        ∷ ("serial_hex", str "time")
        ∷ ("not_before", str "time")
        ∷ ("not_after", str "time")
        ∷ ("is_ca", bool true)
        ∷ ("profile_ok", bool true)
        ∷ []));
}

in_3 : In object_3 db_3.objects
unfolding run_idempotent handle_create handle_add handle_seal
in_3 = inl refl

Reach-Contents_example : IsStored host object_3 × (get_object db_3 "es_1" "fp" ≡ some object_3)
Reach-Contents_example = Reach-Contents host reach_3 object_3 in_3

Reach-Within_example : Within (object_counts db_3 "es_1")
Reach-Within_example = Reach-Within host reach_3 "es_1"

-- two adjudications of the sealed set

abbrev request_of : String → Request
request_of rid = record { request_id = rid; set_id = "es_1"; input = null; request_hash = "f" }

abbrev pin : Pinned
pin = record { content_digest = "digest"; manifest = []; adj_id = "adj_1" }

abbrev computed_of : ℕ → Computed
computed_of c = record { result = c ∷ []; pack = []; pack_digest = "digest" }

unasked_3 : get_request db_3 "r8" ≡ none
unfolding run_idempotent handle_create handle_add handle_seal get_request
unasked_3 = refl

persist-total_example : Persists host (request_of "r8") pin (computed_of 5) db_3
persist-total_example = persist-total host (request_of "r8") pin (computed_of 5) reach_3 unasked_3

abbrev answer_of : Response
answer_of = record { status = 201; body = 5 ∷ [] }

abbrev db_8 : Db
db_8 = (persist host (request_of "r8") pin (computed_of 5) db_3).1

abbrev db_9 : Db
db_9 = (persist host (request_of "r9") pin (computed_of 6) db_8).1

stored_8 : persist host (request_of "r8") pin (computed_of 5) db_3 ≡ (ok answer_of, db_8)
unfolding run_idempotent handle_create handle_add handle_seal persist
stored_8 = refl

unasked_8 : get_request db_8 "r9" ≡ none
unfolding run_idempotent handle_create handle_add handle_seal persist get_request
unasked_8 = refl

stored_9 : persist host (request_of "r9") pin (computed_of 6) db_8 ≡ (ok answer_of, db_9)
unfolding run_idempotent handle_create handle_add handle_seal persist
stored_9 = refl

persist-Agrees_example :
    (answer_of.body ≡ answer_of.body)
    × (get_adjudication_result "adj_1" db_9 ≡ ok (record { status = 200; body = 5 ∷ [] }))
persist-Agrees_example =
    persist-Agrees host (request_of "r8") (request_of "r9") pin pin (computed_of 5) (computed_of 6)
      refl reach_3 unasked_3 stored_8 here unasked_8 stored_9 here
