-- ===== src/Api/Objects.antt =====
-- `add_objects` of app/api.py: the checks of each object, deduplication, the limits and the writes.
use Prim.Native.String.{◌++◌ as str_append}
use ab_b1b34dfe_mgf1_ocsp_bu.Prelude.{
  ℕ, suc, ◌+◌, String, List, [], ◌∷◌, ◌++◌, Option, none, some, Bool, true, false, not, ◌&&◌, ◌||◌,
  if◌then◌else◌, ltb, ◌==◌, str_eq, str_le, str_mem, length, map, sum_by, sort_by,
}
use ab_b1b34dfe_mgf1_ocsp_bu.Prelude.Int.{pos}
use ab_b1b34dfe_mgf1_ocsp_bu.Cert.{Text, Bytes}
use ab_b1b34dfe_mgf1_ocsp_bu.Canonical.{
  Json, null, int, str, arr, obj, Fields, end, field, field_of, dump,
}
use ab_b1b34dfe_mgf1_ocsp_bu.Canonical.Times.{
  Parsed, parsed, invalid, overflow, parse_time, canon_time,
}
use ab_b1b34dfe_mgf1_ocsp_bu.Store.{
  Db, ObjectRow, Counts, Status, opened, sealed, object_counts, existing_fingerprints,
  insert_object, is_certificate, is_revocation, one_of,
}
use ab_b1b34dfe_mgf1_ocsp_bu.Parse.Meta.{compute_meta}
use ab_b1b34dfe_mgf1_ocsp_bu.Api.{
  library, Result, ok, err, ◌>>=◌, ◌>>◌, raise_if, or_raise, Failure, api_error, parse_error,
  unexpected, validation, string_value, Host, Handler, Call, parse_body, require_request_id,
  reject_unknown_fields, request_fingerprint, get_set_or_404, list_of, items_of, fields_of,
  max_batch_objects, max_object_bytes, max_batch_bytes, max_certificates, max_revocation_evidence,
  max_revocation_entries,
}

-- an accepted object: its fingerprint, and what is stored
pub record NewObject : Type 0 where
  pub fingerprint : String
  pub otype : String
  pub der : Bytes
  pub received_at : Option String
  pub meta : Json

-- what the loop over the items has collected: the accepted objects and the rejections
pub record Sorted : Type 0 where
  pub accepted : List NewObject
  pub rejected : List Json

-- `meta.get(key, 0)` of a count
abbrev pub count_at : Option Json → ℕ
count_at (some (int (pos n))) = n
count_at _ = 0

-- `revocation_entry_count`
unfoldable pub revocation_entry_count : String → Json → ℕ
unfolding field_of
revocation_entry_count otype (obj fs) =
    if str_eq otype "crl"
    then count_at (field_of "entry_count" fs)
    else if str_eq otype "ocsp"
    then count_at (field_of "response_count" fs)
    else 0
revocation_entry_count otype _ = 0

abbrev pub rejection : ℕ → String → Json
rejection index code = obj (
    fields_of
      (("index", int (pos index)) ∷ ("error", obj (fields_of (("code", str code) ∷ []))) ∷ []))

-- the first of the objects with a fingerprint stay, the others are duplicates
unfoldable pub split_seen : List String → List NewObject → List NewObject × List NewObject
split_seen seen [] = ([], [])
split_seen seen (o ∷ os) =
    let (unique, duplicates) = split_seen (o.fingerprint ∷ seen) os in
    if str_mem o.fingerprint seen then (unique, o ∷ duplicates) else (o ∷ unique, duplicates)

-- those that the store has are duplicates too
unfoldable pub split_existing : List String → List NewObject → List NewObject × List NewObject
split_existing existing [] = ([], [])
split_existing existing (o ∷ os) =
    let (fresh, duplicates) = split_existing existing os in
    if str_mem o.fingerprint existing then (fresh, o ∷ duplicates) else (o ∷ fresh, duplicates)

abbrev pub named : NewObject → Json
named o = obj (fields_of (("fingerprint", str o.fingerprint) ∷ ("type", str o.otype) ∷ []))

unfoldable pub by_fingerprint : NewObject → NewObject → Bool
by_fingerprint a b = str_le a.fingerprint b.fingerprint

abbrev pub counts_json : Counts → Json
counts_json c = obj (
    fields_of (
      ("certificates", int (pos c.certificates))
      ∷ ("revocation_evidence", int (pos c.revocation_evidence))
      ∷ ("revocation_entries", int (pos c.revocation_entries))
      ∷ ("total_objects", int (pos c.total_objects))
      ∷ []))

-- the three limits, with the counts of the set and the new objects
unfoldable pub check_limits : Counts → List NewObject → Result (Unit {0})
unfolding revocation_entry_count
check_limits counts fresh = do
  raise_if
      (ltb max_certificates
        (counts.certificates + sum_by (λ (o : NewObject). one_of (is_certificate o.otype)) fresh))
      (api_error "LIMIT_EXCEEDED" 413)
  raise_if
      (ltb max_revocation_evidence (
        counts.revocation_evidence
        + sum_by (λ (o : NewObject). one_of (is_revocation o.otype)) fresh))
      (api_error "LIMIT_EXCEEDED" 413)
  raise_if
      (ltb max_revocation_entries (
        counts.revocation_entries
        + sum_by (λ (o : NewObject). revocation_entry_count o.otype o.meta) fresh))
      (api_error "LIMIT_EXCEEDED" 413)

abbrev pub object_row : String → NewObject → ObjectRow
object_row set_id o = record {
  set_id = set_id;
  fingerprint = o.fingerprint;
  otype = o.otype;
  der = o.der;
  received_at = o.received_at;
  entry_count = revocation_entry_count o.otype o.meta;
  meta = o.meta;
}

unfoldable pub insert_all : String → List NewObject → Db → Db
unfolding insert_object revocation_entry_count
insert_all set_id [] db = db
insert_all set_id (o ∷ os) db = insert_all set_id os (insert_object db (object_row set_id o))

abbrev pub all_types : List String
all_types = "certificate" ∷ "crl" ∷ "ocsp" ∷ []

-- a check that fails with another error
abbrev pub or_else : Result String → Failure → Result String
or_else (ok s) e = ok s
or_else (err other) e = err e

-- the type of an item
unfoldable pub item_type : Fields → Result String
unfolding field_of
item_type fs = do
  otype ← or_else (string_value (field_of "type" fs)) (parse_error "INVALID_TYPE")
  raise_if (not (str_mem otype all_types)) (parse_error "INVALID_TYPE")
  ok otype

abbrev pub value_or_null : Option Json → Json
value_or_null none = null
value_or_null (some v) = v

abbrev pub is_null : Json → Bool
is_null null = true
is_null _ = false

-- code points in lexicographic order
unfoldable pub text_le : Text → Text → Bool
text_le [] t = true
text_le (c ∷ s) [] = false
text_le (c ∷ s) (d ∷ t) = if ltb c d then true else if ltb d c then false else text_le s t

abbrev pub replace_field : String → Json → Fields → Fields
replace_field key v end = field key v end
replace_field key v (field k w rest) =
    if str_eq k key then field k v rest else field k w (replace_field key v rest)

module _ (host : Host) where
  open host use {sha256_bytes, b64d, text_of, calendar}

  unfoldable pub item_der : Fields → Result Bytes
  unfolding field_of
  item_der fs = do
    encoded ← or_else (string_value (field_of "der" fs)) (parse_error "INVALID_DER")
    der ← or_raise (b64d encoded) (parse_error "INVALID_DER")
    raise_if (length der == 0 || ltb max_object_bytes (length der)) (parse_error "OBJECT_TOO_LARGE")
    ok der

  abbrev pub canonical_or : Failure → Parsed → Result String
  canonical_or e (parsed t) = ok (text_of (canon_time calendar t))
  canonical_or e invalid = err e
  canonical_or e overflow = err unexpected

  -- a certificate needs no time
  unfoldable pub item_received : String → Json → Result (Option String)
  unfolding parse_time canon_time
  item_received otype value = if is_null value && is_certificate otype then ok none else (do
    t ← canonical_or (parse_error "INVALID_RECEIVED_AT") (parse_time calendar value)
    ok (some t))

  unfoldable pub item_object : Fields → Result NewObject
  unfolding item_type item_der item_received field_of compute_meta
  item_object fs = do
    otype ← item_type fs
    der ← item_der fs
    received_at ← item_received otype (value_or_null (field_of "received_at" fs))
    meta ← compute_meta (library host) calendar otype der
    ok (record {
      fingerprint = sha256_bytes der;
      otype = otype;
      der = der;
      received_at = received_at;
      meta = meta;
    })

  unfoldable pub parse_item : Json → Result NewObject
  unfolding item_object
  parse_item (obj fs) = item_object fs
  parse_item _ = err (parse_error "INVALID_OBJECT")

  -- a ParseError rejects the item, and any other exception goes on
  abbrev pub sort_item : ℕ → Result NewObject → Result Sorted → Result Sorted
  sort_item index (ok o) others = do
    rest ← others
    ok (record rest { accepted = o ∷ rest.accepted })
  sort_item index (err (parse_error code)) others = do
    rest ← others
    ok (record rest { rejected = rejection index code ∷ rest.rejected })
  sort_item index (err e) others = err e

  unfoldable pub sort_items : ℕ → List Json → Result Sorted
  unfolding parse_item
  sort_items index [] = ok (record { accepted = []; rejected = [] })
  sort_items index (item ∷ items) = sort_item index (parse_item item) (sort_items (suc index) items)

  -- the new objects and the duplicates, in the batch and against the store
  unfoldable pub deduplicate : Db → String → List NewObject → List NewObject × List NewObject
  unfolding split_seen split_existing existing_fingerprints
  deduplicate db set_id accepted =
      let (unique, repeated) = split_seen [] accepted in
      let (fresh, stored) =
        split_existing
          (existing_fingerprints db set_id (map (λ (o : NewObject). o.fingerprint) unique))
          unique in
      (fresh, repeated ++ stored)

  abbrev pub answer : String → List NewObject → List NewObject → List Json → Counts → Json
  answer set_id fresh duplicates rejected counts = obj (
      fields_of (
        ("evidence_set_id", str set_id)
        ∷ ("status", str "OPEN")
        ∷ ("added", arr (items_of (map named (sort_by by_fingerprint fresh))))
        ∷ ("duplicates", arr (items_of (map named (sort_by by_fingerprint duplicates))))
        ∷ ("rejected", arr (items_of rejected))
        ∷ ("counts", counts_json counts)
        ∷ []))

  abbrev pub is_sealed : Status → Bool
  is_sealed opened = false
  is_sealed sealed = true

  -- from the accepted objects to the answer
  unfoldable pub store_batch : String → Sorted → Db → Result ((ℕ × Json) × Db)
  unfolding deduplicate object_counts check_limits insert_all by_fingerprint
  store_batch set_id batch db = do
    raise_if (ltb max_batch_bytes (sum_by (λ (o : NewObject). length o.der) batch.accepted))
        (api_error "LIMIT_EXCEEDED" 413)
    let (fresh, duplicates) = deduplicate db set_id batch.accepted
    check_limits (object_counts db set_id) fresh
    let db' = insert_all set_id fresh db
    ok ((200, answer set_id fresh duplicates batch.rejected (object_counts db' set_id)), db')

  unfoldable pub handle_add : String → List Json → Handler host
  unfolding get_set_or_404 sort_items store_batch
  handle_add set_id items db = do
    row ← get_set_or_404 host db set_id
    raise_if (is_sealed row.status) (api_error "EVIDENCE_SET_SEALED" 409)
    raise_if (ltb max_batch_objects (length items)) (api_error "LIMIT_EXCEEDED" 413)
    batch ← sort_items 0 items
    store_batch set_id batch db

  -- `_canon_for_fp`: times are made canonical before the fingerprint is taken
  abbrev pub canon_field : Fields → Parsed → Result Json
  canon_field fs (parsed t) =
      ok (obj (replace_field "received_at" (str (text_of (canon_time calendar t))) fs))
  canon_field fs invalid = ok (obj fs)
  canon_field fs overflow = err unexpected

  unfoldable pub canon_item : Json → Result Json
  unfolding field_of parse_time canon_time
  canon_item (obj fs) = elim (string_value (field_of "received_at" fs)) [
    | err e ↦ ok (obj fs)
    | ok s ↦ canon_field fs (parse_time calendar (str s))
  ]
  canon_item value = ok value

  unfoldable pub canon_items : List Json → Result (List Json)
  unfolding canon_item
  canon_items [] = ok []
  canon_items (x ∷ xs) = do y ← canon_item x; ys ← canon_items xs; ok (y ∷ ys)

  unfoldable pub by_text : Json → Json → Bool
  unfolding text_le dump
  by_text a b = text_le (dump a) (dump b)

  abbrev pub list_value : Option Json → Result (List Json)
  list_value (some (arr xs)) = ok (list_of xs)
  list_value _ = err validation

  unfoldable pub add_objects : String → Text → Result (Call host)
  unfolding parse_body require_request_id reject_unknown_fields field_of canon_items by_text
      request_fingerprint handle_add
  add_objects set_id raw = do
    body ← parse_body host raw
    request_id ← require_request_id body
    reject_unknown_fields ("request_id" ∷ "objects" ∷ []) body
    items ← list_value (field_of "objects" body)
    raise_if (length items == 0) validation
    canonical ← canon_items items
    ok (record {
      endpoint = str_append "add_objects:" set_id;
      request_id = request_id;
      fingerprint = request_fingerprint host (str_append "add_objects:" set_id) (
          fields_of (
            ("request_id", str request_id)
            ∷ ("objects", arr (items_of (sort_by by_text canonical)))
            ∷ []));
      handler = handle_add set_id items;
    })
