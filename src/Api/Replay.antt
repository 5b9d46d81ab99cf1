-- ===== src/Api/Replay.antt =====
-- Idempotent requests and sealed sets of app/api.py: what is answered once is answered again, in
-- every later database.
use ab_b1b34dfe_mgf1_ocsp_bu.Prelude.{
  not, [], ◌∷◌, String, Option, none, some, Bool-cases, inl, inr, ◌≡◌, refl, sym, ap, ◌∙◌, arith,
  eq_iff, eq_refl, str_eq, if◌then◌else◌,
}
use ab_b1b34dfe_mgf1_ocsp_bu.Cert.{Text}
use ab_b1b34dfe_mgf1_ocsp_bu.Canonical.{dump, field_of}
use ab_b1b34dfe_mgf1_ocsp_bu.Store.{
  Db, SetRow, RequestRow, Status, sealed, get_set, rows_of, get_request,
}
use ab_b1b34dfe_mgf1_ocsp_bu.Store.Laws.{get_request-put_request}
use ab_b1b34dfe_mgf1_ocsp_bu.Api.{
  Result, ok, err, ◌>>=◌, Failure, api_error, Host, Response, Handler, Call, replay, request_row,
  run_idempotent, run_call, get_set_or_404, parse_body, require_request_id, reject_unknown_fields,
  raise_if, validation, label_ok, ◌>>◌, create_evidence_set,
}
use ab_b1b34dfe_mgf1_ocsp_bu.Api.Seal.{
  set_answer, sealed_answer, manifest_answer, get_evidence_set, get_manifest,
}
use ab_b1b34dfe_mgf1_ocsp_bu.Api.Steps.{Reach, run_cases}
use ab_b1b34dfe_mgf1_ocsp_bu.Api.Durable.{Reach-Extends}

abbrev pub conflict : Failure
conflict = api_error "IDEMPOTENCY_CONFLICT" 409

abbrev pub stored_answer : RequestRow → Response
stored_answer row = record { status = row.status_code; body = row.response_body }

module _ (host : Host) where
  pub replay-ok :
      (row : RequestRow) (fp : String) {response : Response}
      → replay host row fp ≡ ok response
      → (row.request_hash ≡ fp) × (response ≡ stored_answer row)
  replay-ok row fp h = elim (Bool-cases (str_eq row.request_hash fp)) [
    | inl e ↦ ((eq_iff row.request_hash fp).0 e, ground arith)
    | inr e ↦ absurd (ground arith)
  ]

  -- a request that is answered is in the table
  pub run_idempotent-answered :
      (endpoint rid fp : String) (handler : Handler host) (db : Db) {response : Response} {db' : Db}
      → run_idempotent host endpoint rid fp handler db ≡ (ok response, db')
      → (row : RequestRow) × (get_request db' rid ≡ some row)
        × (row.request_hash ≡ fp)
        × (response ≡ stored_answer row)
  run_idempotent-answered endpoint rid fp handler db {response} {db'} h =
      elim (run_cases host endpoint rid fp handler db) [
        | inl (row, e, r) ↦
            let (hash, answer) = replay-ok row fp (ap (λ x. x.0) (sym r ∙ h)) in
            (row, rw (← ap (λ x. x.1) (sym r ∙ h)) e, hash, answer)
        | inr (inl (f, r)) ↦
            let q : ◌≡◌ {A = Result Response} (err f) (ok response) = ap (λ x. x.0) (sym r ∙ h) in
            absurd (cc)
        | inr (inr (status, value, between, e, g, p, a)) ↦
            let row = request_row host endpoint rid fp status (dump value) in
            let q : ◌≡◌ {A = Result Response} (ok (stored_answer row)) (ok response) =
              sym a ∙ ap (λ x. x.0) h in
            (row, get_request-put_request between row (p ∙ ap some (ap (λ x. x.1) h)), refl, cc)
      ]

  run_idempotent-stored :
      (endpoint rid fp : String) (handler : Handler host) (db : Db) (row : RequestRow)
      → get_request db rid ≡ some row
      → run_idempotent host endpoint rid fp handler db ≡ (replay host row fp, db)
  unfolding run_idempotent
  run_idempotent-stored endpoint rid fp handler db row e = rw (e, run_idempotent) refl

  -- Once a request is answered, in every database that any further transactions lead to, a request
  -- with the same id changes nothing and does not run its handler: with the same fingerprint it gets
  -- the same status and body, and with another fingerprint the error IDEMPOTENCY_CONFLICT.
  pub run_idempotent-replays :
      (endpoint rid fp : String) (handler : Handler host) (db : Db) {response : Response} {db₁ : Db}
      → run_idempotent host endpoint rid fp handler db ≡ (ok response, db₁)
      → {db₂ : Db} → Reach host db₁ db₂
      → (endpoint' fp' : String) (handler' : Handler host)
      → run_idempotent host endpoint' rid fp' handler' db₂
        ≡ ((if str_eq fp fp' then ok response else err conflict), db₂)
  run_idempotent-replays endpoint rid fp handler db {response} {db₁} h {db₂} reach endpoint' fp'
        handler' =
      let (row, found, hash, answer) = run_idempotent-answered endpoint rid fp handler db h in
      run_idempotent-stored endpoint' rid fp' handler' db₂ row
        ((Reach-Extends host reach).requests_stay rid row found)
      ∙ rw (← hash, answer) refl

  -- the request id and the fingerprint of a call
  abbrev key_of : Result (Call host) → Option (String × String)
  key_of (ok call) = some (call.request_id, call.fingerprint)
  key_of (err e) = none

  key_of-bind :
      {A : Type 0} (m : Result A) (f g : A → Result (Call host))
      → ((a : A) → key_of (f a) ≡ key_of (g a))
      → key_of (m >>= f) ≡ key_of (m >>= g)
  key_of-bind (ok a) f g h = h a
  key_of-bind (err e) f g h = refl

  key_of-then :
      {A : Type 0} (m : Result A) (k l : Result (Call host))
      → key_of k ≡ key_of l
      → key_of (m >> k) ≡ key_of (m >> l)
  key_of-then (ok a) k l h = h
  key_of-then (err e) k l h = refl

  -- the drawn id is no part of the fingerprint
  create_key :
      (set_id set_id' : String) (raw : Text)
      → key_of (create_evidence_set host set_id raw) ≡ key_of (create_evidence_set host set_id' raw)
  unfolding create_evidence_set
  create_key set_id set_id' raw = key_of-bind (parse_body host raw) _ _ (λ body.
      key_of-bind (require_request_id body) _ _ (λ rid.
        key_of-then (reject_unknown_fields ("request_id" ∷ "label" ∷ []) body) _ _ (
          key_of-then (raise_if (not (label_ok host (field_of "label" body))) validation) _ _
            refl)))

  -- When the creation of an evidence set is answered, the same body sent again, in every database
  -- that any further transactions lead to, is answered with the first set's id and creates none,
  -- whatever id is drawn for it.
  pub create_evidence_set-replays :
      (set_id set_id' : String) (raw : Text) {call call' : Call host}
      → create_evidence_set host set_id raw ≡ ok call
      → create_evidence_set host set_id' raw ≡ ok call'
      → (db : Db) {db₁ : Db} {response : Response} → run_call host call db ≡ (ok response, db₁)
      → {db₂ : Db} → Reach host db₁ db₂
      → run_call host call' db₂ ≡ (ok response, db₂)
  unfolding run_call
  create_evidence_set-replays set_id set_id' raw {call} {call'} e e' db {db₁} {response} h {db₂}
        reach =
      let key : ◌≡◌ {A = Option (String × String)} (some (call.request_id, call.fingerprint))
          (some (call'.request_id, call'.fingerprint)) =
        sym (ap key_of e) ∙ create_key set_id set_id' raw ∙ ap key_of e' in
      let same_id : call.request_id ≡ call'.request_id = cc in
      let same_fp : call.fingerprint ≡ call'.fingerprint = cc in
      let again =
        run_idempotent-replays call.endpoint call.request_id call.fingerprint call.handler db h
          reach call'.endpoint call'.fingerprint call'.handler in
      rw (← same_id) (again ∙ rw (same_fp, eq_refl call'.fingerprint) refl)

  found-get_set_or_404 :
      (db : Db) (set_id : String) {row : SetRow}
      → get_set db set_id ≡ some row
      → get_set_or_404 host db set_id ≡ ok row
  unfolding get_set_or_404
  found-get_set_or_404 db set_id h = rw (h, get_set_or_404) refl

  module _ (db : Db) (set_id : String) {row : SetRow} (found : get_set db set_id ≡ some row)
      (s : row.status ≡ sealed) where
    sealed-get_evidence_set :
        get_evidence_set host set_id db
        ≡ ok (record {
          status = 200;
          body = dump (sealed_answer set_id row.content_digest row.counts);
        })
    unfolding get_evidence_set
    sealed-get_evidence_set =
        rw (found-get_set_or_404 db set_id found, get_evidence_set)
          (ap
            (λ (st : Status).
              ok (record { status = 200; body = dump (set_answer host set_id row st db) }))
            s)

    sealed-get_manifest :
        get_manifest host set_id db ≡ ok (record { status = 200; body = row.manifest_json })
    unfolding get_manifest
    sealed-get_manifest =
        rw (found-get_set_or_404 db set_id found, get_manifest)
          (ap (λ (st : Status). manifest_answer host row st) s)

  -- A set that is sealed stays as it is: in every database that any further transactions lead to, its
  -- row and its objects are the same, and reading the set or its manifest answers the same.
  pub sealed-Stays :
      (db : Db) (set_id : String) {row : SetRow}
      → get_set db set_id ≡ some row
      → row.status ≡ sealed
      → {db' : Db} → Reach host db db'
      → (get_set db' set_id ≡ some row)
        × (rows_of db' set_id ≡ rows_of db set_id)
        × (get_evidence_set host set_id db' ≡ get_evidence_set host set_id db)
        × (get_manifest host set_id db' ≡ get_manifest host set_id db)
  sealed-Stays db set_id {row} found s {db'} reach =
      let (found', rows) = (Reach-Extends host reach).sealed_stay set_id row found s in
      (
        found',
        rows,
        sealed-get_evidence_set db' set_id found' s
            ∙ sym (sealed-get_evidence_set db set_id found s),
        sealed-get_manifest db' set_id found' s ∙ sym (sealed-get_manifest db set_id found s),
      )
