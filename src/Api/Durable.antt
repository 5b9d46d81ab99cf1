-- ===== src/Api/Durable.antt =====
-- What every transaction of app/api.py keeps: each handler, both phases of an adjudication, and
-- with them every step, extend the database.
use ab_b1b34dfe_mgf1_ocsp_bu.Prelude.{
  ℕ, ltb, length, sum_by, false, String, List, [], ◌∷◌, some, inl, inr, ◌⊎◌, ◌≡◌, refl, ap, ◌∙◌,
}
use ab_b1b34dfe_mgf1_ocsp_bu.Canonical.{Json}
use ab_b1b34dfe_mgf1_ocsp_bu.Store.{
  Db, SetRow, Status, opened, sealed, get_set, create_set, insert_object, object_counts,
}
use ab_b1b34dfe_mgf1_ocsp_bu.Store.Extends.{
  Extends, Extends-refl, Extends-trans, IsOpen, put_request-Extends, put_adjudication-Extends,
  create_set-Extends, seal_set-Extends, get_set-sets, insert_object-Extends, insert_object-sets,
}
use ab_b1b34dfe_mgf1_ocsp_bu.Api.{
  Result, ok, err, ◌>>◌, max_batch_objects, max_batch_bytes, or_raise, integrity_error, Host,
  Handler, run_idempotent, get_set_or_404, handle_create,
}
use ab_b1b34dfe_mgf1_ocsp_bu.Api.Objects.{
  handle_add, NewObject, Sorted, sort_items, is_sealed, check_limits, insert_all, store_batch,
  object_row, deduplicate,
}
use ab_b1b34dfe_mgf1_ocsp_bu.Api.Seal.{handle_seal, seal_open, seal_row}
use ab_b1b34dfe_mgf1_ocsp_bu.Api.Adjudications.{Request, Pinned, Computed, begin, persist}
use ab_b1b34dfe_mgf1_ocsp_bu.Api.Phases.{begin-Keeps, persist-Keeps}
use ab_b1b34dfe_mgf1_ocsp_bu.Api.Steps.{
  >>=-eq-ok, raise_if-eq-ok, or_raise-eq-ok, Step, created, added, closed, began, stored, Reach,
  here, next, run_cases,
}

module _ (host : Host) where
  -- the handlers

  pub handle_create-Extends :
      (set_id request_id : String) (db : Db) {v : ℕ × Json} {db' : Db}
      → handle_create host set_id request_id db ≡ ok (v, db')
      → Extends db db'
  unfolding handle_create
  handle_create-Extends set_id request_id db h =
      let (db₁, e, k) =
        >>=-eq-ok (or_raise (create_set db set_id request_id) integrity_error) _ h in
      create_set-Extends db set_id request_id
        (or_raise-eq-ok (create_set db set_id request_id) integrity_error e ∙ ap some (cc))

  pub found_set :
      (db : Db) (set_id : String) {row : SetRow}
      → get_set_or_404 host db set_id ≡ ok row
      → get_set db set_id ≡ some row
  unfolding get_set_or_404
  found_set db set_id h = or_raise-eq-ok (get_set db set_id) _ h

  pub insert_all-Extends :
      (set_id : String) (os : List NewObject) (db : Db)
      → IsOpen db set_id
      → Extends db (insert_all set_id os db)
  unfolding insert_all
  insert_all-Extends set_id [] db o = Extends-refl db
  insert_all-Extends set_id (x ∷ os) db (row, g, s) =
      Extends-trans (insert_object-Extends db (object_row set_id x) (row, g, s)) (
        insert_all-Extends set_id os (insert_object db (object_row set_id x))
          (row, same_set ∙ g, s))
    where
      same_set : get_set (insert_object db (object_row set_id x)) set_id ≡ get_set db set_id
      same_set =
          get_set-sets (insert_object db (object_row set_id x)) db set_id
            (insert_object-sets db (object_row set_id x))

  not_sealed : (status : Status) → is_sealed host status ≡ false → status ≡ opened
  not_sealed opened h = refl
  not_sealed sealed h = absurd (cc)

  pub handle_add-inv :
      (set_id : String) (items : List Json) (db : Db) {v : ℕ × Json} {db' : Db}
      → handle_add host set_id items db ≡ ok (v, db')
      → IsOpen db set_id
        × ((batch : Sorted) × (sort_items host 0 items ≡ ok batch)
            × (store_batch host set_id batch db ≡ ok (v, db')))
  unfolding handle_add
  handle_add-inv set_id items db h =
      let (row, found, h₁) = >>=-eq-ok (get_set_or_404 host db set_id) _ h in
      let (open_, h₂) = raise_if-eq-ok (is_sealed host row.status) _ _ h₁ in
      let (few, h₃) = raise_if-eq-ok (ltb max_batch_objects (length items)) _ _ h₂ in
      let (batch, sorts, h₄) = >>=-eq-ok (sort_items host 0 items) _ h₃ in
      ((row, found_set db set_id found, not_sealed row.status open_), (batch, sorts, h₄))

  abbrev pub fresh_of : Db → String → Sorted → List NewObject
  fresh_of db set_id batch = (deduplicate host db set_id batch.accepted).0

  pub store_batch-inv :
      (set_id : String) (batch : Sorted) (db : Db) {v : ℕ × Json} {db' : Db}
      → store_batch host set_id batch db ≡ ok (v, db')
      → (check_limits (object_counts db set_id) (fresh_of db set_id batch) ≡ ok tt)
        × (db' ≡ insert_all set_id (fresh_of db set_id batch) db)
  unfolding store_batch
  store_batch-inv set_id batch db h =
      let (small, h₁) =
        raise_if-eq-ok
          (ltb max_batch_bytes (sum_by (λ (o : NewObject). length o.der) batch.accepted)) _ _ h in
      checked _ (check_limits (object_counts db set_id) (fresh_of db set_id batch)) h₁
    where
      checked :
          {v : ℕ × Json} {a b : Db} (w : ℕ × Json) (m : Result (Unit {0}))
          → ◌>>◌ {B = (ℕ × Json) × Db} m (ok (w, a)) ≡ ok (v, b)
          → (m ≡ ok tt) × (b ≡ a)
      checked w (ok t) e = (refl, cc)
      checked w (err f) e = absurd (cc)

  handle_add-Extends :
      (set_id : String) (items : List Json) (db : Db) {v : ℕ × Json} {db' : Db}
      → handle_add host set_id items db ≡ ok (v, db')
      → Extends db db'
  handle_add-Extends set_id items db h =
      let (o, (batch, sorts, k)) = handle_add-inv set_id items db h in
      let (limits, e) = store_batch-inv set_id batch db k in
      rw e (insert_all-Extends set_id (fresh_of db set_id batch) db o)

  pub handle_seal-inv :
      (set_id : String) (db : Db) {v : ℕ × Json} {db' : Db}
      → handle_seal host set_id db ≡ ok (v, db')
      → (db' ≡ db) ⊎ (IsOpen db set_id × (db' ≡ (seal_open host set_id db).1))
  unfolding handle_seal
  handle_seal-inv set_id db h =
      let (row, found, k) = >>=-eq-ok (get_set_or_404 host db set_id) _ h in
      by_status row (found_set db set_id found) row.status refl k
    where
      by_status :
          {v : ℕ × Json} {db' : Db} (row : SetRow)
          → get_set db set_id ≡ some row
          → (status : Status) → row.status ≡ status
          → seal_row host set_id row status db ≡ ok (v, db')
          → (db' ≡ db) ⊎ (IsOpen db set_id × (db' ≡ (seal_open host set_id db).1))
      by_status row g opened s k = inr ((row, g, s), cc)
      by_status row g sealed s k = inl (cc)

  handle_seal-Extends :
      (set_id : String) (db : Db) {v : ℕ × Json} {db' : Db}
      → handle_seal host set_id db ≡ ok (v, db')
      → Extends db db'
  unfolding seal_open
  handle_seal-Extends set_id db h = elim (handle_seal-inv set_id db h) [
    | inl e ↦ rw e (Extends-refl db)
    | inr (o, e) ↦ rw e (seal_set-Extends db set_id _ _ _ o)
  ]

  -- a transaction whose handler extends the database extends it
  run_idempotent-Extends :
      (endpoint request_id fingerprint : String) (handler : Handler host) (db : Db)
      → ((v : ℕ × Json) (db' : Db) → handler db ≡ ok (v, db') → Extends db db')
      → Extends db (run_idempotent host endpoint request_id fingerprint handler db).1
  run_idempotent-Extends endpoint request_id fingerprint handler db keep =
      elim (run_cases host endpoint request_id fingerprint handler db) [
        | inl (row, e, r) ↦ rw r (Extends-refl db)
        | inr (inl (f, r)) ↦ rw r (Extends-refl db)
        | inr (inr (status, value, between, e, h, p, a)) ↦
            Extends-trans (keep (status, value) between h) (put_request-Extends between _ p)
      ]

  begin-Extends : (q : Request) (db : Db) → Extends db (begin host q db).1
  begin-Extends = begin-Keeps host Extends Extends-refl (λ db db' q h. put_request-Extends db q h)

  persist-Extends :
      (q : Request) (p : Pinned) (c : Computed) (db : Db) → Extends db (persist host q p c db).1
  persist-Extends =
      persist-Keeps host Extends Extends-refl (λ db db' q h. put_request-Extends db q h)
        (λ db db₁ db₂ a q same h k. put_adjudication-Extends db a q same h k)

  pub Step-Extends : {db db' : Db} → Step host db db' → Extends db db'
  Step-Extends {db} (created set_id endpoint rid fp e) = rw e (
      run_idempotent-Extends endpoint rid fp (handle_create host set_id rid) db
        (λ v db' h. handle_create-Extends set_id rid db h))
  Step-Extends {db} (added set_id endpoint rid fp items e) = rw e (
      run_idempotent-Extends endpoint rid fp (handle_add host set_id items) db
        (λ v db' h. handle_add-Extends set_id items db h))
  Step-Extends {db} (closed set_id endpoint rid fp e) = rw e (
      run_idempotent-Extends endpoint rid fp (handle_seal host set_id) db
        (λ v db' h. handle_seal-Extends set_id db h))
  Step-Extends {db} (began q e) = rw e (begin-Extends q db)
  Step-Extends {db} (stored q p c e) = rw e (persist-Extends q p c db)

  pub Reach-Extends : {db db' : Db} → Reach host db db' → Extends db db'
  Reach-Extends here = Extends-refl _
  Reach-Extends (next db₁ db₂ r s) = Extends-trans (Reach-Extends r) (Step-Extends s)
