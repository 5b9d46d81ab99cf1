-- ===== src/Api/Verdicts.antt =====
-- Phase 3 of an adjudication in app/api.py: it stores one verdict for an adjudication id, and every
-- request for that id is answered with it.
use ab_b1b34dfe_mgf1_ocsp_bu.Prelude.{
  String, [], ◌∷◌, ◌++◌, Option, none, some, Option-cases, inl, inr, ◌≡◌, refl, sym, ap, ◌∙◌, arith,
  eq_iff, In, str_eq,
}
use ab_b1b34dfe_mgf1_ocsp_bu.Cert.{Text}
use ab_b1b34dfe_mgf1_ocsp_bu.Store.{
  Db, RequestRow, AdjudicationRow, empty_db, get_request, get_adjudication, put_adjudication,
  adjudication_by_request,
}
use ab_b1b34dfe_mgf1_ocsp_bu.Store.Laws.{
  find-In, find-some, put_request-new, get_request-put_request, get_adjudication-put_adjudication,
}
use ab_b1b34dfe_mgf1_ocsp_bu.Store.Extends.{put_request-Extends}
use ab_b1b34dfe_mgf1_ocsp_bu.Api.{Result, ok, Host, Response}
use ab_b1b34dfe_mgf1_ocsp_bu.Api.Adjudications.{
  Request, Pinned, Computed, persist, persist_new, persist_found, adjudication_row, adjudicate_row,
  get_adjudication_result,
}
use ab_b1b34dfe_mgf1_ocsp_bu.Api.Steps.{Step, stored, Reach, here, next, Reach_trans}
use ab_b1b34dfe_mgf1_ocsp_bu.Api.Durable.{Reach-Extends}

-- a verdict's request is answered
abbrev pub Recorded : Db → Type 0
Recorded db =
    (a : AdjudicationRow)
    → In a db.adjudications
    → (row : RequestRow) × (get_request db a.request_id ≡ some row)

module _ (host : Host) where
  pub Reach-Recorded : {db : Db} → Reach host empty_db db → Recorded db
  Reach-Recorded reach a m = elim ((Reach-Extends host reach).new_verdicts a m) [
    | inl n ↦ absurd n
    | inr answered ↦ answered
  ]

  unasked :
      (db : Db) (rid : String)
      → Recorded db
      → get_request db rid ≡ none
      → adjudication_by_request db rid ≡ none
  unfolding adjudication_by_request
  unasked db rid recorded h = elim (Option-cases (adjudication_by_request db rid)) [
    | inl e ↦ e
    | inr (a, e) ↦
        let m = find-In (λ r. str_eq r.request_id rid) db.adjudications e in
        let same : a.request_id ≡ rid =
          (eq_iff a.request_id rid).0
            (find-some (λ r. str_eq r.request_id rid) db.adjudications e) in
        let (row, g) = recorded a m in
        let q : some row ≡ none = sym g ∙ ap (get_request db) same ∙ h in absurd (ground arith)
  ]

  put_adjudication-new :
      (db : Db) (a : AdjudicationRow)
      → get_adjudication db a.id ≡ none
      → adjudication_by_request db a.request_id ≡ none
      → put_adjudication db a ≡ some (record db { adjudications = db.adjudications ++ a ∷ [] })
  unfolding put_adjudication
  put_adjudication-new db a h k = rw (h, put_adjudication) (rw k refl)

  abbrev add_request : Db → RequestRow → Db
  add_request db q = record db { requests = db.requests ++ q ∷ [] }

  abbrev add_verdict : Db → AdjudicationRow → Db
  add_verdict db a = record db { adjudications = db.adjudications ++ a ∷ [] }

  get_request-add_verdict :
      (db : Db) (a : AdjudicationRow) (rid : String)
      → get_request (add_verdict db a) rid ≡ get_request db rid
  unfolding get_request
  get_request-add_verdict db a rid = refl

  -- the verdict that phase 3 answers with: the stored one, or else the computed one
  abbrev pub winner : Pinned → Computed → Option AdjudicationRow → Text
  winner p c (some found) = found.result_json
  winner p c none = c.result

  -- what phase 3 of a request with no answer yet does
  abbrev pub Persists : Request → Pinned → Computed → Db → Type 0
  Persists q p c db =
      (db' : Db) × (row : AdjudicationRow) × (persist host q p c db
        ≡ (ok (record { status = 201; body = winner p c (get_adjudication db p.adj_id) }), db'))
      × (get_request db' q.request_id
          ≡ some (adjudicate_row host q 201 (winner p c (get_adjudication db p.adj_id))))
      × (get_adjudication db' p.adj_id ≡ some row)
      × (row.result_json ≡ winner p c (get_adjudication db p.adj_id))

  persist_found-total :
      (q : Request) (p : Pinned) (c : Computed) (db : Db) (o : Option AdjudicationRow)
      → get_adjudication db p.adj_id ≡ o
      → get_request db q.request_id ≡ none
      → adjudication_by_request db q.request_id ≡ none
      → (db' : Db) × (row : AdjudicationRow) × (persist_found host q p c o db
          ≡ ok (record { status = 201; body = winner p c o }, db'))
        × (get_request db' q.request_id ≡ some (adjudicate_row host q 201 (winner p c o)))
        × (get_adjudication db' p.adj_id ≡ some row)
        × (row.result_json ≡ winner p c o)
  unfolding persist_found
  persist_found-total q p c db (some found) e new_ free =
      let answer = adjudicate_row host q 201 found.result_json in
      let put = put_request-new db answer new_ in
      (
        add_request db answer,
        found,
        rw put refl,
        get_request-put_request db answer put,
        (put_request-Extends db answer put).verdicts_stay p.adj_id found e,
        refl,
      )
  persist_found-total q p c db none e new_ free =
      let verdict = adjudication_row host q p c in
      let answer = adjudicate_row host q 201 c.result in
      let put_a = put_adjudication-new db verdict e free in
      let put_q =
        put_request-new (add_verdict db verdict) answer
          (get_request-add_verdict db verdict q.request_id ∙ new_) in
      (
        add_request (add_verdict db verdict) answer,
        verdict,
        rw put_a (rw put_q refl),
        get_request-put_request (add_verdict db verdict) answer put_q,
        (put_request-Extends (add_verdict db verdict) answer put_q).verdicts_stay p.adj_id verdict
            (get_adjudication-put_adjudication db verdict put_a),
        refl,
      )

  -- In every database that transactions lead to from the empty one, phase 3 of a request that has no
  -- answer yet succeeds, whatever was stored since phase 1: the answer has status 201 and the result
  -- of the verdict stored for the adjudication id, or if there is none the computed result; the
  -- request is recorded with that status and body, and the verdict that is then stored has that result.
  pub persist-total :
      (q : Request) (p : Pinned) (c : Computed) {db : Db}
      → Reach host empty_db db
      → get_request db q.request_id ≡ none
      → Persists q p c db
  unfolding persist persist_new
  persist-total q p c {db} reach new_ =
      let (db', row, e, answered, kept, same) =
        persist_found-total q p c db (get_adjudication db p.adj_id) refl new_
          (unasked db q.request_id (Reach-Recorded reach) new_) in
      (db', row, rw (new_, persist) (rw e refl), answered, kept, same)

  get_adjudication_result-found :
      (adj_id : String) (db : Db) {row : AdjudicationRow}
      → get_adjudication db adj_id ≡ some row
      → get_adjudication_result adj_id db ≡ ok (record { status = 200; body = row.result_json })
  unfolding get_adjudication_result
  get_adjudication_result-found adj_id db h = rw (h, get_adjudication_result) refl

  -- what an answer of phase 3 leaves in the table
  persist-stored :
      (q : Request) (p : Pinned) (c : Computed) {a b : Db} {r : Response}
      → Reach host empty_db a
      → get_request a q.request_id ≡ none
      → persist host q p c a ≡ (ok r, b)
      → (row : AdjudicationRow) × (get_adjudication b p.adj_id ≡ some row)
        × (row.result_json ≡ winner p c (get_adjudication a p.adj_id))
        × (r.body ≡ row.result_json)
  persist-stored q p c {a} {b} {r} from new_ h =
      let (b', row, e, answered, kept, same) = persist-total q p c from new_ in
      let result : ◌≡◌ {A = Result Response}
          (ok (record { status = 201; body = winner p c (get_adjudication a p.adj_id) })) (ok r) =
        ap (λ x. x.0) (sym e ∙ h) in
      let body : winner p c (get_adjudication a p.adj_id) ≡ r.body = cc in
      (row, rw (← ap (λ x. x.1) (sym e ∙ h)) kept, same, sym body ∙ sym same)

  -- Two requests with no answer yet that reach phase 3 for one adjudication id, the second after any
  -- further transactions, get the same body whatever each has computed, and reading the verdict
  -- answers that body in every later database.
  pub persist-Agrees :
      (q₁ q₂ : Request) (p₁ p₂ : Pinned) (c₁ c₂ : Computed)
      → p₁.adj_id ≡ p₂.adj_id
      → {a b c d e : Db} {r₁ r₂ : Response} → Reach host empty_db a
      → get_request a q₁.request_id ≡ none
      → persist host q₁ p₁ c₁ a ≡ (ok r₁, b)
      → Reach host b c
      → get_request c q₂.request_id ≡ none
      → persist host q₂ p₂ c₂ c ≡ (ok r₂, d)
      → Reach host d e
      → (r₁.body ≡ r₂.body)
        × (get_adjudication_result p₁.adj_id e ≡ ok (record { status = 200; body = r₁.body }))
  persist-Agrees q₁ q₂ p₁ p₂ c₁ c₂ same {a} {b} {c} {d} {e} {r₁} {r₂} from new₁ h₁ between new₂ h₂
        after =
      let (row₁, stored₁, won₁, body₁) = persist-stored q₁ p₁ c₁ from new₁ h₁ in
      let step : Step host a b = stored q₁ p₁ c₁ (sym (ap (λ x. x.1) h₁)) in
      let reach = Reach_trans host from (Reach_trans host (next a b here step) between) in
      let (row₂, stored₂, won₂, body₂) = persist-stored q₂ p₂ c₂ reach new₂ h₂ in
      let found : get_adjudication c p₂.adj_id ≡ some row₁ =
        ap (get_adjudication c) (sym same)
        ∙ (Reach-Extends host between).verdicts_stay p₁.adj_id row₁ stored₁ in
      let agree : row₂.result_json ≡ row₁.result_json = won₂ ∙ ap (winner p₂ c₂) found in
      let read =
        (Reach-Extends host after).verdicts_stay p₁.adj_id row₂
          (ap (get_adjudication d) same ∙ stored₂) in
      (
        body₁ ∙ sym agree ∙ sym body₂,
        get_adjudication_result-found p₁.adj_id e read
            ∙ ap (λ t. ok (record { status = 200; body = t })) (agree ∙ sym body₁),
      )
