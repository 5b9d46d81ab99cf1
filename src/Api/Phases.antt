-- ===== src/Api/Phases.antt =====
-- The phases of an adjudication in app/api.py: any relation between databases that holds of a put of
-- a request, and of a put of a verdict with its request, holds of both phases.
use ab_b1b34dfe_mgf1_ocsp_bu.Prelude.{
  String, Option, none, some, Option-cases, inl, inr, ◌≡◌, refl, ap, ◌∙◌,
}
use ab_b1b34dfe_mgf1_ocsp_bu.Store.{
  Db, SetRow, RequestRow, AdjudicationRow, Status, opened, sealed, get_request, put_request,
  get_adjudication, put_adjudication,
}
use ab_b1b34dfe_mgf1_ocsp_bu.Api.{
  ok, err, or_raise, Failure, api_error, parse_error, resource_exhausted, integrity_error,
  unexpected, Host, Response, get_set_or_404,
}
use ab_b1b34dfe_mgf1_ocsp_bu.Api.Adjudications.{
  Request, Pinned, Computed, Begun, begin, begin_new, begin_row, begin_sealed, begin_found,
  persist_found, adjudication_row, adjudicate_row, persist, persist_new, persisted,
}
use ab_b1b34dfe_mgf1_ocsp_bu.Api.Steps.{Result-cases, >>=-eq-ok, or_raise-eq-ok}

module _ (host : Host) (R : Db → Db → Type 0) (stays : (db : Db) → R db db)
    (put : (db db' : Db) (q : RequestRow) → put_request db q ≡ some db' → R db db') where
  same : {a b : Db} → b ≡ a → R a b
  same {a} e = rw e (stays a)

  begin_found-Keeps :
      (q : Request) (row : SetRow) (adj_id : String) (o : Option AdjudicationRow) (db : Db)
      {b : Begun} {db' : Db}
      → begin_found host q row adj_id o db ≡ ok (b, db')
      → R db db'
  unfolding begin_found
  begin_found-Keeps q row adj_id none db h = same (cc)
  begin_found-Keeps q row adj_id (some found) db h =
      let answer = adjudicate_row host q 200 found.result_json in
      let (db₁, p, k) = >>=-eq-ok (or_raise (put_request db answer) integrity_error) _ h in
      put db _ answer (or_raise-eq-ok (put_request db answer) _ p ∙ ap some (cc))

  pub begin-Keeps : (q : Request) (db : Db) → R db (begin host q db).1
  unfolding begin begin_new begin_sealed
  begin-Keeps q db = elim (Option-cases (get_request db q.request_id)) [
    | inr (row, e) ↦ rw (e, begin) (stays db)
    | inl e ↦ elim (Result-cases (begin_new host q db)) [
      | inr (f, g) ↦ rw (e, begin) (rw g (stays db))
      | inl ((b, db'), g) ↦ rw (e, begin) (rw g (begin_new-Keeps g))
    ]
  ]
    where
      by_status :
          (row : SetRow) (status : Status) {b : Begun} {db' : Db}
          → begin_row host q row status db ≡ ok (b, db')
          → R db db'
      by_status row opened h = absurd (cc)
      by_status row sealed h = begin_found-Keeps q row _ _ db h

      begin_new-Keeps : {b : Begun} {db' : Db} → begin_new host q db ≡ ok (b, db') → R db db'
      begin_new-Keeps h =
          let (row, found, k) = >>=-eq-ok (get_set_or_404 host db q.set_id) _ h in
          by_status row row.status k

  persisted-unchanged : (p : Pinned) (db : Db) (f : Failure) → (persisted host p db (err f)).1 ≡ db
  persisted-unchanged p db integrity_error = refl
  persisted-unchanged p db (api_error code status) = refl
  persisted-unchanged p db (parse_error code) = refl
  persisted-unchanged p db resource_exhausted = refl
  persisted-unchanged p db unexpected = refl

  module _
      (both : (db db₁ db₂ : Db) (a : AdjudicationRow) (q : RequestRow)
        → q.request_id ≡ a.request_id
        → put_adjudication db a ≡ some db₁
        → put_request db₁ q ≡ some db₂
        → R db db₂) where
    persist_found-Keeps :
        (q : Request) (p : Pinned) (c : Computed) (o : Option AdjudicationRow) (db : Db)
        {r : Response} {db' : Db}
        → persist_found host q p c o db ≡ ok (r, db')
        → R db db'
    unfolding persist_found
    persist_found-Keeps q p c (some found) db h =
        let answer = adjudicate_row host q 201 found.result_json in
        let (db₁, e, k) = >>=-eq-ok (or_raise (put_request db answer) integrity_error) _ h in
        put db _ answer (or_raise-eq-ok (put_request db answer) _ e ∙ ap some (cc))
    persist_found-Keeps q p c none db h =
        let verdict = adjudication_row host q p c in
        let answer = adjudicate_row host q 201 c.result in
        let (db₁, e, k) = >>=-eq-ok (or_raise (put_adjudication db verdict) integrity_error) _ h in
        let (db₂, f, l) = >>=-eq-ok (or_raise (put_request db₁ answer) integrity_error) _ k in
        both db db₁ _ verdict answer refl (or_raise-eq-ok (put_adjudication db verdict) _ e)
          (or_raise-eq-ok (put_request db₁ answer) _ f ∙ ap some (cc))

    pub persist-Keeps :
        (q : Request) (p : Pinned) (c : Computed) (db : Db) → R db (persist host q p c db).1
    unfolding persist persist_new
    persist-Keeps q p c db = elim (Option-cases (get_request db q.request_id)) [
      | inr (row, e) ↦ rw (e, persist) (stays db)
      | inl e ↦ elim (Result-cases (persist_new host q p c db)) [
        | inr (f, g) ↦ rw (e, persist) (rw g (same (persisted-unchanged p db f)))
        | inl ((b, db'), g) ↦
            rw (e, persist) (rw g (persist_found-Keeps q p c (get_adjudication db p.adj_id) db g))
      ]
    ]
