-- ===== src/Store/Laws.antt =====
-- What the reads of app/store.py find after its writes.
use ab_b1b34dfe_mgf1_ocsp_bu.Prelude.{
  String, List, [], ◌∷◌, ◌++◌, none, some, Bool, true, false, if◌then◌else◌, str_eq, find, In,
  select-append, ◌≡◌, ◌≢◌, refl, ◌∙◌, arith, eq_iff, Bool-cases, Option-cases, inl, inr, ◌⊎◌,
  eq_refl,
}
use ab_b1b34dfe_mgf1_ocsp_bu.Cert.{Text}
use ab_b1b34dfe_mgf1_ocsp_bu.Canonical.{Json}
use ab_b1b34dfe_mgf1_ocsp_bu.Store.{
  Db, SetRow, ObjectRow, RequestRow, AdjudicationRow, get_set, create_set, new_set, sealed_row,
  update_sets, seal_set, rows_of, get_object, insert_object, get_request, put_request,
  get_adjudication, adjudication_by_request, put_adjudication,
}

module _ {A : Type 0} (p : A → Bool) where
  pub find-append_found : (xs ys : List A) {a : A} → find p xs ≡ some a → find p (xs ++ ys) ≡ some a
  find-append_found [] ys h = absurd (cc)
  find-append_found (x ∷ xs) ys h = elim (Bool-cases (p x)) [
    | inl e ↦ ground arith
    | inr e ↦ rw e (find-append_found xs ys (ground arith))
  ]

  pub find-append_missing : (xs ys : List A) → find p xs ≡ none → find p (xs ++ ys) ≡ find p ys
  find-append_missing [] ys h = refl
  find-append_missing (x ∷ xs) ys h = ground (arith, find-append_missing xs ys)

  -- what is found passes the test
  pub find-some : (xs : List A) {a : A} → find p xs ≡ some a → p a ≡ true
  find-some [] h = absurd (cc)
  find-some (x ∷ xs) {a} h = elim (Bool-cases (p x)) [
    | inl e ↦ ground arith
    | inr e ↦ find-some xs (ground arith)
  ]

pub find-In : {A : Type 0} (p : A → Bool) (xs : List A) {a : A} → find p xs ≡ some a → In a xs
find-In p [] h = absurd (cc)
find-In p (x ∷ xs) h = elim (Bool-cases (p x)) [
  | inl e ↦ inl (ground arith)
  | inr e ↦ inr (find-In p xs (ground arith))
]

pub str_eq-false : {s t : String} → s ≢ t → str_eq s t ≡ false
str_eq-false {s} {t} h = ground (arith, eq_iff s t)

-- the sets

module _ (set_id : String) (digest : String) (manifest : Text) (counts : Json) where
  find-update_other :
      (other : String)
      → str_eq set_id other ≡ false
      → (rows : List SetRow)
      → find (λ r. str_eq r.id other) (update_sets set_id digest manifest counts rows)
        ≡ find (λ r. str_eq r.id other) rows
  unfolding update_sets
  find-update_other other h [] = refl
  find-update_other other h (r ∷ rows) = ground (
    arith,
    eq_iff r.id set_id,
    eq_iff r.id other,
    eq_iff set_id other,
    find-update_other other h rows,
  )

  find-update_same :
      (rows : List SetRow) (row : SetRow)
      → find (λ r. str_eq r.id set_id) rows ≡ some row
      → find (λ r. str_eq r.id set_id) (update_sets set_id digest manifest counts rows)
        ≡ some (sealed_row digest manifest counts row)
  unfolding update_sets
  find-update_same [] row h = absurd (cc)
  find-update_same (r ∷ rows) row h = ground (arith, find-update_same rows row)

  pub get_set-seal_set_other :
      (db : Db) (other : String)
      → str_eq set_id other ≡ false
      → get_set (seal_set db set_id digest manifest counts) other ≡ get_set db other
  unfolding get_set seal_set
  get_set-seal_set_other db other h = find-update_other other h db.sets

  pub get_set-seal_set_same :
      (db : Db) (row : SetRow)
      → get_set db set_id ≡ some row
      → get_set (seal_set db set_id digest manifest counts) set_id
        ≡ some (sealed_row digest manifest counts row)
  unfolding get_set seal_set
  get_set-seal_set_same db row h = find-update_same db.sets row h

pub get_set-id :
    (db : Db) (set_id : String) {row : SetRow} → get_set db set_id ≡ some row → row.id ≡ set_id
unfolding get_set
get_set-id db set_id {row} h =
    (eq_iff row.id set_id).0 (find-some (λ r. str_eq r.id set_id) db.sets h)

-- a set is put in only once
pub create_set-inv :
    (db : Db) (set_id request_id : String) {db' : Db}
    → create_set db set_id request_id ≡ some db'
    → (get_set db set_id ≡ none)
      × (db' ≡ record db { sets = db.sets ++ new_set set_id request_id ∷ [] })
unfolding create_set
create_set-inv db set_id request_id h = elim (Option-cases (get_set db set_id)) [
  | inl e ↦ (e, ground arith)
  | inr (r, e) ↦ absurd (ground arith)
]

-- the objects

abbrev pub add_object : Db → ObjectRow → Db
add_object db o = record db { objects = db.objects ++ o ∷ [] }

pub insert_object_cases :
    (db : Db) (o : ObjectRow)
    → (insert_object db o ≡ db)
      ⊎ ((get_object db o.set_id o.fingerprint ≡ none) × (insert_object db o ≡ add_object db o))
unfolding insert_object
insert_object_cases db o = elim (Option-cases (get_object db o.set_id o.fingerprint)) [
  | inl e ↦ inr (e, ground arith)
  | inr (r, e) ↦ inl (ground arith)
]

pub rows_of-add_object :
    (db : Db) (o : ObjectRow) (set_id : String)
    → rows_of (add_object db o) set_id
      ≡ rows_of db set_id ++ (if str_eq o.set_id set_id then o ∷ [] else [])
unfolding rows_of
rows_of-add_object db o set_id = select-append (λ r. str_eq r.set_id set_id) db.objects (o ∷ [])

-- the requests and the verdicts

pub put_request-inv :
    (db : Db) (q : RequestRow) {db' : Db}
    → put_request db q ≡ some db'
    → (get_request db q.request_id ≡ none) × (db' ≡ record db { requests = db.requests ++ q ∷ [] })
unfolding put_request
put_request-inv db q h = elim (Option-cases (get_request db q.request_id)) [
  | inl e ↦ (e, ground arith)
  | inr (r, e) ↦ absurd (ground arith)
]

pub put_request-new :
    (db : Db) (q : RequestRow)
    → get_request db q.request_id ≡ none
    → put_request db q ≡ some (record db { requests = db.requests ++ q ∷ [] })
unfolding put_request
put_request-new db q h = rw (h, put_request) refl

pub get_request-put_request :
    (db : Db) (q : RequestRow) {db' : Db}
    → put_request db q ≡ some db'
    → get_request db' q.request_id ≡ some q
unfolding get_request
get_request-put_request db q h =
    let (e, p) = put_request-inv db q h in
    rw p (
      find-append_missing (λ r. str_eq r.request_id q.request_id) db.requests (q ∷ []) e
      ∙ rw (eq_refl q.request_id) refl)

pub put_adjudication-inv :
    (db : Db) (a : AdjudicationRow) {db' : Db}
    → put_adjudication db a ≡ some db'
    → (get_adjudication db a.id ≡ none)
      × (adjudication_by_request db a.request_id ≡ none)
      × (db' ≡ record db { adjudications = db.adjudications ++ a ∷ [] })
unfolding put_adjudication
put_adjudication-inv db a h = elim (Option-cases (get_adjudication db a.id)) [
  | inl e ↦ elim (Option-cases (adjudication_by_request db a.request_id)) [
    | inl f ↦ (e, f, ground arith)
    | inr (r, f) ↦ absurd (ground arith)
  ]
  | inr (r, e) ↦ absurd (ground arith)
]

pub get_adjudication-put_adjudication :
    (db : Db) (a : AdjudicationRow) {db' : Db}
    → put_adjudication db a ≡ some db'
    → get_adjudication db' a.id ≡ some a
unfolding get_adjudication
get_adjudication-put_adjudication db a h =
    let (e, f, p) = put_adjudication-inv db a h in
    rw p (
      find-append_missing (λ r. str_eq r.id a.id) db.adjudications (a ∷ []) e
      ∙ rw (eq_refl a.id) refl)
