-- ===== src/Api/Adjudications.antt =====
-- The three phases of `adjudicate` of app/api.py, each with the database that it finds, and the
-- readers of adjudications.
use Prim.Native.String.{◌++◌ as str_append}
use ab_b1b34dfe_mgf1_ocsp_bu.Prelude.{
  ℕ, String, List, [], ◌∷◌, Option, none, some, str_eq, str_le, find, sort_by,
}
use ab_b1b34dfe_mgf1_ocsp_bu.Prelude.Int.{pos}
use ab_b1b34dfe_mgf1_ocsp_bu.Cert.{Text, Bytes}
use ab_b1b34dfe_mgf1_ocsp_bu.Canonical.{Json, int, str, arr, obj, field_of, dump}
use ab_b1b34dfe_mgf1_ocsp_bu.Store.{
  Db, SetRow, ObjectRow, RequestRow, AdjudicationRow, Status, opened, sealed, rows_of, get_request,
  put_request, get_adjudication, put_adjudication,
}
use ab_b1b34dfe_mgf1_ocsp_bu.Api.{
  Result, ok, err, ◌>>=◌, ◌>>◌, or_raise, api_error, integrity_error, unexpected, string_value,
  Host, Response, parse_body, require_request_id, reject_unknown_fields, request_fingerprint,
  canonical_hash, get_set_or_404, replay, request_row, finish, items_of, fields_of,
}
use ab_b1b34dfe_mgf1_ocsp_bu.Api.Objects.{value_or_null}
use ab_b1b34dfe_mgf1_ocsp_bu.Normalize.{validate_input}
use ab_b1b34dfe_mgf1_ocsp_bu.Api.Seal.{time_or_null}

-- `run_engine` of app/adjudicate.py on the rows of a set, the input and the digest, with the
-- fingerprints that it touched, and `b64e` of the standard library
pub record Engine : Type 0 where
  pub run_engine : List ObjectRow → Json → String → Result (Json × List String)
  pub b64e : Bytes → String

-- a request past its checks
pub record Request : Type 0 where
  pub request_id : String
  pub set_id : String
  pub input : Json
  pub request_hash : String

-- what phase 1 has read of the sealed set
pub record Pinned : Type 0 where
  pub content_digest : String
  pub manifest : Text
  pub adj_id : String

pub data Begun : Type 0 where
  replied : Result Response → Begun
  pinned : Pinned → Begun

-- what phase 2 has computed
pub record Computed : Type 0 where
  pub result : Text
  pub pack : Text
  pub pack_digest : String

module _ (host : Host) where
  -- `compute_adjudication_id`
  unfoldable pub compute_adjudication_id : String → Json → String
  unfolding canonical_hash
  compute_adjudication_id content_digest input = str_append "adj_" (
      canonical_hash host (
        obj (
          fields_of (("evidence_set_content_digest", str content_digest) ∷ ("input", input) ∷ []))))

  abbrev pub adjudicate_row : Request → ℕ → Text → RequestRow
  adjudicate_row q status body =
      request_row host "adjudicate" q.request_id q.request_hash status body

  -- phase 1 on a sealed set, with the verdict that is stored: it is answered
  unfoldable pub begin_found :
      Request → SetRow → String → Option AdjudicationRow → Db → Result (Begun × Db)
  unfolding put_request
  begin_found q row adj_id (some found) db = do
    db' ← or_raise (put_request db (adjudicate_row q 200 found.result_json)) integrity_error
    ok (replied (ok (record { status = 200; body = found.result_json })), db')
  begin_found q row adj_id none db = ok (
    pinned (record {
      content_digest = row.content_digest;
      manifest = row.manifest_json;
      adj_id = adj_id;
    }),
    db,
  )

  unfoldable pub begin_sealed : Request → SetRow → Db → Result (Begun × Db)
  unfolding compute_adjudication_id get_adjudication begin_found
  begin_sealed q row db =
      let adj_id = compute_adjudication_id row.content_digest q.input in
      begin_found q row adj_id (get_adjudication db adj_id) db

  abbrev pub begin_row : Request → SetRow → Status → Db → Result (Begun × Db)
  begin_row q row opened db = err (api_error "EVIDENCE_SET_NOT_SEALED" 409)
  begin_row q row sealed db = begin_sealed q row db

  unfoldable pub begin_new : Request → Db → Result (Begun × Db)
  unfolding get_set_or_404 begin_sealed
  begin_new q db = do row ← get_set_or_404 host db q.set_id; begin_row q row row.status db

  abbrev pub begun : Result Begun × Db → Begun × Db
  begun (ok b, db) = (b, db)
  begun (err e, db) = (replied (err e), db)

  -- phase 1
  unfoldable pub begin : Request → Db → Begun × Db
  unfolding get_request begin_new
  begin q db = elim (get_request db q.request_id) [
    | some row ↦ (replied (replay host row q.request_hash), db)
    | none ↦ begun (finish host db (begin_new q db))
  ]

  abbrev pub adjudication_row : Request → Pinned → Computed → AdjudicationRow
  adjudication_row q p c = record {
    id = p.adj_id;
    request_id = q.request_id;
    set_id = q.set_id;
    set_content_digest = p.content_digest;
    input_json = dump q.input;
    result_json = c.result;
    pack_json = c.pack;
    pack_digest = c.pack_digest;
  }

  -- phase 3, the writes, with the verdict that is stored
  unfoldable pub persist_found :
      Request → Pinned → Computed → Option AdjudicationRow → Db → Result (Response × Db)
  unfolding put_adjudication put_request dump
  persist_found q p c (some found) db = do
    db' ← or_raise (put_request db (adjudicate_row q 201 found.result_json)) integrity_error
    ok (record { status = 201; body = found.result_json }, db')
  persist_found q p c none db = do
    db₁ ← or_raise (put_adjudication db (adjudication_row q p c)) integrity_error
    db₂ ← or_raise (put_request db₁ (adjudicate_row q 201 c.result)) integrity_error
    ok (record { status = 201; body = c.result }, db₂)

  unfoldable pub persist_new : Request → Pinned → Computed → Db → Result (Response × Db)
  unfolding get_adjudication persist_found
  persist_new q p c db = persist_found q p c (get_adjudication db p.adj_id) db

  -- after an IntegrityError and its ROLLBACK
  abbrev pub after_race : Option AdjudicationRow → Result Response
  after_race (some found) = ok (record { status = 200; body = found.result_json })
  after_race none = err (api_error "INTERNAL" 500)

  abbrev pub persisted : Pinned → Db → Result (Response × Db) → Result Response × Db
  persisted p db (ok (r, db')) = (ok r, db')
  persisted p db (err integrity_error) = (after_race (get_adjudication db p.adj_id), db)
  persisted p db (err e) = (err e, db)

  -- phase 3
  unfoldable pub persist : Request → Pinned → Computed → Db → Result Response × Db
  unfolding get_request persist_new get_adjudication
  persist q p c db = elim (get_request db q.request_id) [
    | some row ↦ (replay host row q.request_hash, db)
    | none ↦ persisted p db (persist_new q p c db)
  ]

  -- the row of a fingerprint, or a KeyError
  abbrev pub row_with : String → List ObjectRow → Option ObjectRow
  row_with fp = find (λ r. str_eq r.fingerprint fp)

  module _ (engine : Engine) where
    open engine use {run_engine, b64e}

    abbrev pub pack_object : ObjectRow → Json
    pack_object r = obj (
        fields_of (
          ("fingerprint", str r.fingerprint)
          ∷ ("type", str r.otype)
          ∷ ("received_at", time_or_null r.received_at)
          ∷ ("der", str (b64e r.der))
          ∷ []))

    unfoldable pub pack_objects : List ObjectRow → List String → Result (List Json)
    pack_objects rows [] = ok []
    pack_objects rows (fp ∷ fps) = do
      r ← or_raise (row_with fp rows) unexpected
      rest ← pack_objects rows fps
      ok (pack_object r ∷ rest)

    abbrev pub pack_of : Request → Pinned → Json → List Json → Json → Json
    pack_of q p manifest objects result = obj (
        fields_of (
          ("pack_version", int (pos 1))
          ∷ ("adjudication_id", str p.adj_id)
          ∷ ("input", q.input)
          ∷ (
            "evidence_set",
            obj (
                fields_of (("content_digest", str p.content_digest) ∷ ("manifest", manifest) ∷ [])),
          )
          ∷ ("objects", arr (items_of objects))
          ∷ ("result", result)
          ∷ []))

    -- phase 2; `json.loads` reads the manifest back
    unfoldable pub compute : Request → Pinned → Db → Result Computed
    unfolding rows_of pack_objects dump
    compute q p db = do
      (result, touched) ← run_engine (rows_of db q.set_id) q.input p.content_digest
      objects ← pack_objects (rows_of db q.set_id) (sort_by str_le touched)
      manifest ← or_raise (host.parse_json p.manifest) unexpected
      let pack = dump (pack_of q p manifest objects result)
      ok (record { result = dump result; pack = pack; pack_digest = host.sha256_text pack })

    -- the checks before phase 1
    unfoldable pub adjudicate : Text → Result Request
    unfolding parse_body require_request_id reject_unknown_fields field_of request_fingerprint
    adjudicate raw = do
      body ← parse_body host raw
      request_id ← require_request_id body
      reject_unknown_fields ("request_id" ∷ "evidence_set_id" ∷ "input" ∷ []) body
      set_id ← string_value (field_of "evidence_set_id" body)
      input ← validate_input host b64e (value_or_null (field_of "input" body))
      ok (record {
        request_id = request_id;
        set_id = set_id;
        input = input;
        request_hash = request_fingerprint host "adjudicate" (
            fields_of (
              ("request_id", str request_id)
              ∷ ("evidence_set_id", str set_id)
              ∷ ("input", input)
              ∷ []));
      })

unfoldable pub get_adjudication_result : String → Db → Result Response
unfolding get_adjudication
get_adjudication_result adj_id db = do
  row ← or_raise (get_adjudication db adj_id) (api_error "ADJUDICATION_NOT_FOUND" 404)
  ok (record { status = 200; body = row.result_json })

-- the pack, with its digest in a header
unfoldable pub get_evidence_pack : String → Db → Result (Response × String)
unfolding get_adjudication
get_evidence_pack adj_id db = do
  row ← or_raise (get_adjudication db adj_id) (api_error "ADJUDICATION_NOT_FOUND" 404)
  ok (record { status = 200; body = row.pack_json }, row.pack_digest)
