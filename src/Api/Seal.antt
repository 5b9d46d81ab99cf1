-- ===== src/Api/Seal.antt =====
-- `seal` and the readers of evidence sets of app/api.py.
use Prim.Native.String.{◌++◌ as str_append}
use ab_b1b34dfe_mgf1_ocsp_bu.Prelude.{
  ℕ, String, List, [], ◌∷◌, Option, none, some, str_eq, map, sum_by,
}
use ab_b1b34dfe_mgf1_ocsp_bu.Prelude.Int.{pos}
use ab_b1b34dfe_mgf1_ocsp_bu.Cert.{Text}
use ab_b1b34dfe_mgf1_ocsp_bu.Canonical.{Json, null, int, str, arr, obj, dump}
use ab_b1b34dfe_mgf1_ocsp_bu.Store.{
  Db, SetRow, ObjectRow, Counts, Status, opened, sealed, object_counts, list_objects, seal_set,
  one_of,
}
use ab_b1b34dfe_mgf1_ocsp_bu.Api.{
  Result, ok, err, ◌>>=◌, ◌>>◌, api_error, Host, Handler, Call, Response, parse_body,
  require_request_id, reject_unknown_fields, request_fingerprint, get_set_or_404, items_of,
  fields_of, max_batch_objects, max_object_bytes, max_batch_bytes, max_certificates,
  max_revocation_evidence, max_revocation_entries,
}
use ab_b1b34dfe_mgf1_ocsp_bu.Api.Objects.{counts_json}

abbrev pub time_or_null : Option String → Json
time_or_null none = null
time_or_null (some t) = str t

-- an object's entry in the manifest
unfoldable pub manifest_entry : ObjectRow → Json
manifest_entry r = obj (
    fields_of (
      ("fingerprint", str r.fingerprint)
      ∷ ("type", str r.otype)
      ∷ ("received_at", time_or_null r.received_at)
      ∷ []))

-- `counts_out`
unfoldable pub sealed_counts : Counts → List ObjectRow → Json
sealed_counts counts rows = obj (
    fields_of (
      ("certificates", int (pos counts.certificates))
      ∷ ("crls", int (pos (sum_by (λ (r : ObjectRow). one_of (str_eq r.otype "crl")) rows)))
      ∷ (
        "ocsp_responses",
        int (pos (sum_by (λ (r : ObjectRow). one_of (str_eq r.otype "ocsp")) rows)),
      )
      ∷ ("revocation_entries", int (pos counts.revocation_entries))
      ∷ ("total_objects", int (pos counts.total_objects))
      ∷ []))

-- `profile.LIMITS`, with the limits that the path search has
abbrev pub limits_json : Json
limits_json = obj (
    fields_of (
      ("max_certificates", int (pos max_certificates))
      ∷ ("max_revocation_evidence", int (pos max_revocation_evidence))
      ∷ ("max_revocation_entries", int (pos max_revocation_entries))
      ∷ ("max_object_bytes", int (pos max_object_bytes))
      ∷ ("max_batch_objects", int (pos max_batch_objects))
      ∷ ("max_batch_bytes", int (pos max_batch_bytes))
      ∷ ("max_path_len", int (pos 32))
      ∷ ("max_explored_branches", int (pos 65536))
      ∷ []))

unfoldable pub manifest_of : Json → List ObjectRow → Json
unfolding manifest_entry
manifest_of counts rows = obj (
    fields_of (
      ("format", str "evidence-set-manifest/1")
      ∷ ("counts", counts)
      ∷ ("limits", limits_json)
      ∷ ("objects", arr (items_of (map manifest_entry rows)))
      ∷ []))

abbrev pub sealed_answer : String → String → Json → Json
sealed_answer set_id content_digest counts = obj (
    fields_of (
      ("evidence_set_id", str set_id)
      ∷ ("status", str "SEALED")
      ∷ ("content_digest", str content_digest)
      ∷ ("counts", counts)
      ∷ []))

module _ (host : Host) where
  open host use {sha256_text}

  -- the seal of an open set
  unfoldable pub seal_open : String → Db → (ℕ × Json) × Db
  unfolding list_objects object_counts sealed_counts manifest_of dump seal_set
  seal_open set_id db =
      let rows = list_objects db set_id in
      let counts = sealed_counts (object_counts db set_id) rows in
      let manifest = dump (manifest_of counts rows) in
      let digest = sha256_text manifest in
      ((200, sealed_answer set_id digest counts), seal_set db set_id digest manifest counts)

  -- a set that is sealed answers what it was sealed with
  abbrev pub seal_row : String → SetRow → Status → Db → Result ((ℕ × Json) × Db)
  seal_row set_id row sealed db = ok ((200, sealed_answer set_id row.content_digest row.counts), db)
  seal_row set_id row opened db = ok (seal_open set_id db)

  unfoldable pub handle_seal : String → Handler host
  unfolding get_set_or_404 seal_open
  handle_seal set_id db = do row ← get_set_or_404 host db set_id; seal_row set_id row row.status db

  unfoldable pub seal : String → Text → Result (Call host)
  unfolding parse_body require_request_id reject_unknown_fields request_fingerprint handle_seal
  seal set_id raw = do
    body ← parse_body host raw
    request_id ← require_request_id body
    reject_unknown_fields ("request_id" ∷ []) body
    ok (record {
      endpoint = str_append "seal:" set_id;
      request_id = request_id;
      fingerprint =
          request_fingerprint host (str_append "seal:" set_id)
            (fields_of (("request_id", str request_id) ∷ []));
      handler = handle_seal set_id;
    })

  abbrev pub set_answer : String → SetRow → Status → Db → Json
  set_answer set_id row sealed db = sealed_answer set_id row.content_digest row.counts
  set_answer set_id row opened db = obj (
      fields_of (
        ("evidence_set_id", str set_id)
        ∷ ("status", str "OPEN")
        ∷ ("counts", counts_json (object_counts db set_id))
        ∷ []))

  unfoldable pub get_evidence_set : String → Db → Result Response
  unfolding get_set_or_404 object_counts dump
  get_evidence_set set_id db = do
    row ← get_set_or_404 host db set_id
    ok (record { status = 200; body = dump (set_answer set_id row row.status db) })

  abbrev pub manifest_answer : SetRow → Status → Result Response
  manifest_answer row opened = err (api_error "EVIDENCE_SET_NOT_SEALED" 409)
  manifest_answer row sealed = ok (record { status = 200; body = row.manifest_json })

  unfoldable pub get_manifest : String → Db → Result Response
  unfolding get_set_or_404
  get_manifest set_id db = do row ← get_set_or_404 host db set_id; manifest_answer row row.status
