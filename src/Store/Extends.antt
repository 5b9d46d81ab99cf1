-- ===== src/Store/Extends.antt =====
-- What every later database keeps of an earlier one: the answers to requests, the verdicts, and
-- all of a sealed set.
use ab_b1b34dfe_mgf1_ocsp_bu.Prelude.{
  In, In-append, ◌⊎◌, String, [], ◌∷◌, some, false, str_eq, ◌≡◌, refl, sym, ap, ◌∙◌, arith,
  append-nil, inl, inr,
}
use ab_b1b34dfe_mgf1_ocsp_bu.Cert.{Text}
use ab_b1b34dfe_mgf1_ocsp_bu.Canonical.{Json}
use ab_b1b34dfe_mgf1_ocsp_bu.Store.{
  Db, SetRow, ObjectRow, RequestRow, AdjudicationRow, opened, sealed, get_set, create_set, new_set,
  seal_set, rows_of, insert_object, get_request, put_request, get_adjudication, put_adjudication,
}
use ab_b1b34dfe_mgf1_ocsp_bu.Store.Laws.{
  find-append_found, str_eq-false, get_set-seal_set_other, create_set-inv, insert_object_cases,
  rows_of-add_object, get_request-put_request, put_request-inv, put_adjudication-inv,
}

pub record Extends (db db' : Db) : Type 0 where
  pub requests_stay :
      (rid : String) (row : RequestRow)
      → get_request db rid ≡ some row
      → get_request db' rid ≡ some row
  pub verdicts_stay :
      (adj_id : String) (row : AdjudicationRow)
      → get_adjudication db adj_id ≡ some row
      → get_adjudication db' adj_id ≡ some row
  pub sealed_stay :
      (set_id : String) (row : SetRow)
      → get_set db set_id ≡ some row
      → row.status ≡ sealed
      → (get_set db' set_id ≡ some row) × (rows_of db' set_id ≡ rows_of db set_id)
  -- a verdict that is new has its request answered
  pub new_verdicts :
      (a : AdjudicationRow)
      → In a db'.adjudications
      → In a db.adjudications ⊎ ((row : RequestRow) × (get_request db' a.request_id ≡ some row))

pub Extends-refl : (db : Db) → Extends db db
Extends-refl db = record {
  requests_stay = λ rid row h. h;
  verdicts_stay = λ adj_id row h. h;
  sealed_stay = λ set_id row h s. (h, refl);
  new_verdicts = λ a m. inl m;
}

pub Extends-trans : {a b c : Db} → Extends a b → Extends b c → Extends a c
Extends-trans e f = record {
  requests_stay = λ rid row h. f.requests_stay rid row (e.requests_stay rid row h);
  verdicts_stay = λ adj_id row h. f.verdicts_stay adj_id row (e.verdicts_stay adj_id row h);
  sealed_stay = λ set_id row h s.
      let (g, r) = e.sealed_stay set_id row h s in
      let (g', r') = f.sealed_stay set_id row g s in (g', r' ∙ r);
  new_verdicts = λ v m. elim (f.new_verdicts v m) [
    | inr answered ↦ inr answered
    | inl m' ↦ elim (e.new_verdicts v m') [
      | inl m'' ↦ inl m''
      | inr (row, g) ↦ inr (row, f.requests_stay v.request_id row g)
    ]
  ];
}

pub Extends-eq : {a b : Db} → b ≡ a → Extends a b
Extends-eq {a} p = rw p (Extends-refl a)

pub put_request-Extends :
    (db : Db) (q : RequestRow) {db' : Db} → put_request db q ≡ some db' → Extends db db'
unfolding get_request get_adjudication get_set rows_of
put_request-Extends db q h = rw (put_request-inv db q h).1 (record {
  requests_stay =
      λ rid row g. find-append_found (λ r. str_eq r.request_id rid) db.requests (q ∷ []) g;
  verdicts_stay = λ adj_id row g. g;
  sealed_stay = λ set_id row g s. (g, refl);
  new_verdicts = λ a m. inl m;
})

-- a verdict with the answer of its request
pub put_adjudication-Extends :
    (db : Db) (a : AdjudicationRow) (q : RequestRow)
    → q.request_id ≡ a.request_id
    → {db₁ : Db} → put_adjudication db a ≡ some db₁
    → {db₂ : Db} → put_request db₁ q ≡ some db₂
    → Extends db db₂
unfolding get_request get_adjudication get_set rows_of
put_adjudication-Extends db a q same {db₁} h {db₂} k =
    let (missing, unasked, e) = put_adjudication-inv db a h in
    let (new_, f) = put_request-inv db₁ q k in
    let answered = get_request-put_request db₁ q k in
    record {
      requests_stay = λ rid row g.
          rw (f, e) (find-append_found (λ r. str_eq r.request_id rid) db.requests (q ∷ []) g);
      verdicts_stay = λ adj_id row g.
          rw (f, e) (find-append_found (λ r. str_eq r.id adj_id) db.adjudications (a ∷ []) g);
      sealed_stay = λ set_id row g s. rw (f, e) (g, refl);
      new_verdicts = λ v m. elim ((In-append v db.adjudications (a ∷ [])).0 (rw (f, e) at m)) [
        | inl old ↦ inl old
        | inr (inl p) ↦ inr (q, rw p (rw (← same) answered))
        | inr (inr n) ↦ absurd n
      ];
    }

pub create_set-Extends :
    (db : Db) (set_id request_id : String) {db' : Db}
    → create_set db set_id request_id ≡ some db'
    → Extends db db'
unfolding get_request get_adjudication get_set rows_of
create_set-Extends db set_id request_id h = rw (create_set-inv db set_id request_id h).1 (record {
  requests_stay = λ rid row g. g;
  verdicts_stay = λ adj_id row g. g;
  sealed_stay = λ other row g s.
      (find-append_found (λ r. str_eq r.id other) db.sets (new_set set_id request_id ∷ []) g, refl);
  new_verdicts = λ a m. inl m;
})

-- a set that is in the table and open
abbrev pub IsOpen : Db → String → Type 0
IsOpen db set_id = (row : SetRow) × (get_set db set_id ≡ some row) × (row.status ≡ opened)

pub open-ne-sealed :
    (db : Db) (set_id other : String) {row : SetRow}
    → IsOpen db set_id
    → get_set db other ≡ some row
    → row.status ≡ sealed
    → str_eq set_id other ≡ false
open-ne-sealed db set_id other {row} (r, g, o) h s = str_eq-false (λ e. differ (ap (get_set db) e))
  where
    differ : get_set db set_id ≡ get_set db other → ⊥
    differ p = let q : some r ≡ some row = sym g ∙ p ∙ h in absurd (ground arith)

pub seal_set-Extends :
    (db : Db) (set_id digest : String) (manifest : Text) (counts : Json)
    → IsOpen db set_id
    → Extends db (seal_set db set_id digest manifest counts)
unfolding get_request get_adjudication rows_of seal_set
seal_set-Extends db set_id digest manifest counts o = record {
  requests_stay = λ rid row g. g;
  verdicts_stay = λ adj_id row g. g;
  sealed_stay = λ other row g s. (
    get_set-seal_set_other set_id digest manifest counts db other
          (open-ne-sealed db set_id other o g s)
        ∙ g,
    refl,
  );
  new_verdicts = λ a m. inl m;
}

pub rows_of-insert_other :
    (db : Db) (o : ObjectRow) (other : String)
    → str_eq o.set_id other ≡ false
    → rows_of (insert_object db o) other ≡ rows_of db other
rows_of-insert_other db o other h = elim (insert_object_cases db o) [
  | inl e ↦ rw e refl
  | inr (n, e) ↦ rw e (rows_of-add_object db o other ∙ rw h (append-nil (rows_of db other)))
]

pub insert_object-sets : (db : Db) (o : ObjectRow) → (insert_object db o).sets ≡ db.sets
insert_object-sets db o = elim (insert_object_cases db o) [
  | inl e ↦ rw e refl
  | inr (n, e) ↦ rw e refl
]

pub get_set-sets :
    (a b : Db) (set_id : String) → a.sets ≡ b.sets → get_set a set_id ≡ get_set b set_id
unfolding get_set
get_set-sets a b set_id p = rw p refl

pub insert_object-Extends :
    (db : Db) (o : ObjectRow) → IsOpen db o.set_id → Extends db (insert_object db o)
unfolding get_request get_adjudication get_set
insert_object-Extends db o p = record {
  requests_stay = λ rid row g. same_requests rid ∙ g;
  verdicts_stay = λ adj_id row g. same_verdicts adj_id ∙ g;
  sealed_stay = λ other row g s. (
    rw (insert_object-sets db o) g,
    rows_of-insert_other db o other (open-ne-sealed db o.set_id other p g s),
  );
  new_verdicts = λ a m. inl (rw same_list at m);
}
  where
    same_requests : (rid : String) → get_request (insert_object db o) rid ≡ get_request db rid
    same_requests rid = elim (insert_object_cases db o) [
      | inl e ↦ rw e refl
      | inr (n, e) ↦ rw e refl
    ]

    same_verdicts :
        (adj_id : String)
        → get_adjudication (insert_object db o) adj_id ≡ get_adjudication db adj_id
    same_verdicts adj_id = elim (insert_object_cases db o) [
      | inl e ↦ rw e refl
      | inr (n, e) ↦ rw e refl
    ]

    same_list : (insert_object db o).adjudications ≡ db.adjudications
    same_list = elim (insert_object_cases db o) [ inl e ↦ rw e refl | inr (n, e) ↦ rw e refl ]
