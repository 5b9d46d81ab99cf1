-- ===== src/Api/Effects.antt =====
-- What a transaction of app/api.py can do to the sets and the objects: nothing, or one of the three
-- effects of the endpoints on evidence sets.
use ab_b1b34dfe_mgf1_ocsp_bu.Prelude.{
  ℕ, String, List, [], ◌∷◌, ◌++◌, none, some, inl, inr, ◌≡◌, refl, ap, ◌∙◌,
}
use ab_b1b34dfe_mgf1_ocsp_bu.Canonical.{Json}
use ab_b1b34dfe_mgf1_ocsp_bu.Store.{
  Db, RequestRow, AdjudicationRow, get_set, new_set, create_set, object_counts, insert_object,
  put_request, put_adjudication, seal_set,
}
use ab_b1b34dfe_mgf1_ocsp_bu.Store.Laws.{create_set-inv, put_request-inv, put_adjudication-inv}
use ab_b1b34dfe_mgf1_ocsp_bu.Store.Extends.{IsOpen, insert_object-sets}
use ab_b1b34dfe_mgf1_ocsp_bu.Api.{
  ok, or_raise, integrity_error, Host, Handler, run_idempotent, handle_create,
}
use ab_b1b34dfe_mgf1_ocsp_bu.Api.Objects.{
  NewObject, Sorted, sort_items, check_limits, handle_add, insert_all, object_row,
}
use ab_b1b34dfe_mgf1_ocsp_bu.Api.Seal.{handle_seal, seal_open}
use ab_b1b34dfe_mgf1_ocsp_bu.Api.Phases.{begin-Keeps, persist-Keeps}
use ab_b1b34dfe_mgf1_ocsp_bu.Api.Steps.{
  >>=-eq-ok, or_raise-eq-ok, Step, created, added, closed, began, stored, run_cases,
}
use ab_b1b34dfe_mgf1_ocsp_bu.Api.Durable.{
  handle_add-inv, store_batch-inv, fresh_of, handle_seal-inv,
}

-- the same sets and objects
abbrev pub Kept : Db → Db → Type 0
Kept db db' = (db'.sets ≡ db.sets) × (db'.objects ≡ db.objects)

put_request-Kept : (db db' : Db) (q : RequestRow) → put_request db q ≡ some db' → Kept db db'
put_request-Kept db db' q h = rw (put_request-inv db q h).1 (refl, refl)

put_both-Kept :
    (db db₁ db₂ : Db) (a : AdjudicationRow) (q : RequestRow)
    → q.request_id ≡ a.request_id
    → put_adjudication db a ≡ some db₁
    → put_request db₁ q ≡ some db₂
    → Kept db db₂
put_both-Kept db db₁ db₂ a q same h k =
    rw ((put_request-inv db₁ q k).1, (put_adjudication-inv db a h).2) (refl, refl)

pub insert_all-sets :
    (set_id : String) (os : List NewObject) (db : Db) → (insert_all set_id os db).sets ≡ db.sets
unfolding insert_all
insert_all-sets set_id [] db = refl
insert_all-sets set_id (o ∷ os) db =
    insert_all-sets set_id os (insert_object db (object_row set_id o))
    ∙ insert_object-sets db (object_row set_id o)

module _ (host : Host) where
  pub data Effect (db db' : Db) : Type 0 where
    kept : Kept db db' → Effect db db'
    opens :
        (set_id request_id : String)
        → get_set db set_id ≡ none
        → db'.sets ≡ db.sets ++ new_set set_id request_id ∷ []
        → db'.objects ≡ db.objects
        → Effect db db'
    grows :
        (set_id : String) (items : List Json) (batch : Sorted)
        → IsOpen db set_id
        → sort_items host 0 items ≡ ok batch
        → check_limits (object_counts db set_id) (fresh_of host db set_id batch) ≡ ok tt
        → db'.sets ≡ db.sets
        → db'.objects ≡ (insert_all set_id (fresh_of host db set_id batch) db).objects
        → Effect db db'
    seals :
        (set_id : String)
        → IsOpen db set_id
        → db'.sets ≡ (seal_open host set_id db).1.sets
        → db'.objects ≡ db.objects
        → Effect db db'

  Effect-Kept : {a b c : Db} → Effect a b → Kept b c → Effect a c
  Effect-Kept (kept (e, f)) (g, h) = kept (g ∙ e, h ∙ f)
  Effect-Kept (opens set_id rid n e f) (g, h) = opens set_id rid n (g ∙ e) (h ∙ f)
  Effect-Kept (grows set_id items batch o s l e f) (g, h) =
      grows set_id items batch o s l (g ∙ e) (h ∙ f)
  Effect-Kept (seals set_id o e f) (g, h) = seals set_id o (g ∙ e) (h ∙ f)

  Effect-eq : {a b : Db} → b ≡ a → Effect a b
  Effect-eq e = kept (ap (λ (x : Db). x.sets) e, ap (λ (x : Db). x.objects) e)

  handle_create-Effect :
      (set_id request_id : String) (db : Db) {v : ℕ × Json} {db' : Db}
      → handle_create host set_id request_id db ≡ ok (v, db')
      → Effect db db'
  unfolding handle_create
  handle_create-Effect set_id request_id db {v} {db'} h =
      let (db₁, e, k) =
        >>=-eq-ok (or_raise (create_set db set_id request_id) integrity_error) _ h in
      let put : create_set db set_id request_id ≡ some db' =
        or_raise-eq-ok (create_set db set_id request_id) integrity_error e ∙ ap some (cc) in
      let (missing, f) = create_set-inv db set_id request_id put in
      opens set_id request_id missing (ap (λ (x : Db). x.sets) f) (ap (λ (x : Db). x.objects) f)

  handle_add-Effect :
      (set_id : String) (items : List Json) (db : Db) {v : ℕ × Json} {db' : Db}
      → handle_add host set_id items db ≡ ok (v, db')
      → Effect db db'
  handle_add-Effect set_id items db h =
      let (o, (batch, sorts, k)) = handle_add-inv host set_id items db h in
      let (limits, e) = store_batch-inv host set_id batch db k in
      grows set_id items batch o sorts limits
        (ap (λ (x : Db). x.sets) e ∙ insert_all-sets set_id (fresh_of host db set_id batch) db)
        (ap (λ (x : Db). x.objects) e)

  handle_seal-Effect :
      (set_id : String) (db : Db) {v : ℕ × Json} {db' : Db}
      → handle_seal host set_id db ≡ ok (v, db')
      → Effect db db'
  unfolding seal_open seal_set
  handle_seal-Effect set_id db h = elim (handle_seal-inv host set_id db h) [
    | inl e ↦ Effect-eq e
    | inr (o, e) ↦ seals set_id o (ap (λ (x : Db). x.sets) e) (ap (λ (x : Db). x.objects) e)
  ]

  run_idempotent-Effect :
      (endpoint request_id fingerprint : String) (handler : Handler host) (db : Db)
      → ((v : ℕ × Json) (db' : Db) → handler db ≡ ok (v, db') → Effect db db')
      → Effect db (run_idempotent host endpoint request_id fingerprint handler db).1
  run_idempotent-Effect endpoint request_id fingerprint handler db effect =
      elim (run_cases host endpoint request_id fingerprint handler db) [
        | inl (row, e, r) ↦ Effect-eq (ap (λ x. x.1) r)
        | inr (inl (f, r)) ↦ Effect-eq (ap (λ x. x.1) r)
        | inr (inr (status, value, between, e, h, p, a)) ↦
            Effect-Kept (effect (status, value) between h) (put_request-Kept between _ _ p)
      ]

  pub Step-Effect : {db db' : Db} → Step host db db' → Effect db db'
  Step-Effect {db} (created set_id endpoint rid fp e) = rw e (
      run_idempotent-Effect endpoint rid fp (handle_create host set_id rid) db
        (λ v db' h. handle_create-Effect set_id rid db h))
  Step-Effect {db} (added set_id endpoint rid fp items e) = rw e (
      run_idempotent-Effect endpoint rid fp (handle_add host set_id items) db
        (λ v db' h. handle_add-Effect set_id items db h))
  Step-Effect {db} (closed set_id endpoint rid fp e) = rw e (
      run_idempotent-Effect endpoint rid fp (handle_seal host set_id) db
        (λ v db' h. handle_seal-Effect set_id db h))
  Step-Effect {db} (began q e) =
      rw e (kept (begin-Keeps host Kept (λ db. (refl, refl)) put_request-Kept q db))
  Step-Effect {db} (stored q p c e) =
      rw e (
        kept (persist-Keeps host Kept (λ db. (refl, refl)) put_request-Kept put_both-Kept q p c db))
