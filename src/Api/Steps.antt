-- ===== src/Api/Steps.antt =====
-- The transactions of app/api.py as steps between databases, one for each endpoint that writes, and
-- the databases that they lead to. Requests of different clients interleave as steps: phases 1 and 3
-- of an adjudication are steps of their own, with any others between them.
use ab_b1b34dfe_mgf1_ocsp_bu.Prelude.{
  ℕ, String, List, Option, none, some, Bool, true, false, Option-cases, inl, inr, ◌⊎◌, ◌≡◌, refl,
  sym, ap, ◌∙◌, arith,
}
use ab_b1b34dfe_mgf1_ocsp_bu.Canonical.{Json, dump}
use ab_b1b34dfe_mgf1_ocsp_bu.Store.{Db, RequestRow, get_request, put_request}
use ab_b1b34dfe_mgf1_ocsp_bu.Api.{
  Result, ok, err, ◌>>=◌, ◌>>◌, raise_if, or_raise, Failure, integrity_error, Host, Response,
  Handler, request_row, replay, handle_new, run_idempotent, handle_create, finish,
}
use ab_b1b34dfe_mgf1_ocsp_bu.Api.Objects.{handle_add}
use ab_b1b34dfe_mgf1_ocsp_bu.Api.Seal.{handle_seal}
use ab_b1b34dfe_mgf1_ocsp_bu.Api.Adjudications.{Request, Pinned, Computed, begin, persist}

pub Result-cases :
    {A : Type 0} (r : Result A) → ((a : A) × (r ≡ ok a)) ⊎ ((e : Failure) × (r ≡ err e))
Result-cases (ok a) = inl (a, refl)
Result-cases (err e) = inr (e, refl)

-- a chain that succeeds had a first step that did, and went on from its value
pub >>=-eq-ok :
    {X Y : Type 0} (first : Result X) (rest : X → Result Y) {y : Y}
    → (first >>= rest) ≡ ok y
    → (x : X) × (first ≡ ok x) × (rest x ≡ ok y)
>>=-eq-ok (err failure) rest e = absurd (cc)
>>=-eq-ok (ok x) rest e = (x, refl, e)

pub raise_if-eq-ok :
    {B : Type 0} (t : Bool) (e : Failure) (k : Result B) {b : B}
    → (raise_if t e >> k) ≡ ok b
    → (t ≡ false) × (k ≡ ok b)
raise_if-eq-ok true e k h = absurd (cc)
raise_if-eq-ok false e k h = (refl, h)

pub or_raise-eq-ok :
    {A : Type 0} (o : Option A) (e : Failure) {a : A} → or_raise o e ≡ ok a → o ≡ some a
or_raise-eq-ok none e h = absurd (cc)
or_raise-eq-ok (some b) e h = ground arith

module _ (host : Host) where
  pub data Step (db db' : Db) : Type 0 where
    created :
        (set_id endpoint request_id fingerprint : String)
        → db'
          ≡ (run_idempotent host endpoint request_id fingerprint
              (handle_create host set_id request_id)
              db).1
        → Step db db'
    added :
        (set_id endpoint request_id fingerprint : String) (items : List Json)
        → db'
          ≡ (run_idempotent host endpoint request_id fingerprint
              (handle_add host set_id items)
              db).1
        → Step db db'
    closed :
        (set_id endpoint request_id fingerprint : String)
        → db' ≡ (run_idempotent host endpoint request_id fingerprint (handle_seal host set_id) db).1
        → Step db db'
    began : (q : Request) → db' ≡ (begin host q db).1 → Step db db'
    stored :
        (q : Request) (p : Pinned) (c : Computed) → db' ≡ (persist host q p c db).1 → Step db db'

  pub data Reach (db : Db) : Db → Type 0 where
    here : Reach db db
    next : (db' db'' : Db) → Reach db db' → Step db' db'' → Reach db db''

  pub Reach_trans : {a b c : Db} → Reach a b → Reach b c → Reach a c
  Reach_trans r here = r
  Reach_trans r (next db₁ db₂ t s) = next db₁ db₂ (Reach_trans r t) s

  module _ (endpoint request_id fingerprint : String) (handler : Handler host) (db : Db) where
    abbrev run : Result Response × Db
    run = run_idempotent host endpoint request_id fingerprint handler db

    -- the answer of a request that is new, and how its database comes about
    abbrev pub Fresh : Type 0
    Fresh =
        (status : ℕ) × (value : Json) × (between : Db) × (get_request db request_id ≡ none)
        × (handler db ≡ ok ((status, value), between))
        × (put_request between
              (request_row host endpoint request_id fingerprint status (dump value))
            ≡ some run.1)
        × (run.0 ≡ ok (record { status = status; body = dump value }))

    run-new :
        get_request db request_id ≡ none
        → run ≡ finish host db (handle_new host endpoint request_id fingerprint handler db)
    unfolding run_idempotent
    run-new e = rw (e, run_idempotent) refl

    -- a run replays a stored answer, fails with its database unchanged, or writes
    pub run_cases :
        ((row : RequestRow) × (get_request db request_id ≡ some row)
          × (run ≡ (replay host row fingerprint, db)))
        ⊎ (((e : Failure) × (run ≡ (err e, db))) ⊎ Fresh)
    unfolding run_idempotent handle_new
    run_cases = elim (Option-cases (get_request db request_id)) [
      | inr (row, e) ↦ inl (row, e, rw (e, run_idempotent) refl)
      | inl e ↦ elim (Result-cases (handler db)) [
        | inr (f, g) ↦ inr (inl (f, run-new e ∙ rw (g, handle_new) refl))
        | inl (((status, value), between), g) ↦
            elim (Option-cases (
              put_request between
                (request_row host endpoint request_id fingerprint status (dump value)))) [
                  | inl p ↦ inr (inl (integrity_error, run-new e ∙ rw (g, handle_new) (rw p refl)))
                  | inr (db', p) ↦
                      let w : run ≡ (ok (record { status = status; body = dump value }), db') =
                        run-new e ∙ rw (g, handle_new) (rw p refl) in
                      inr (
                        inr (
                          status,
                          value,
                          between,
                          e,
                          g,
                          p ∙ ap some (sym (ap (λ x. x.1) w)),
                          ap (λ x. x.0) w,
                        ))
                ]
      ]
    ]
