-- ===== src/Api/Contents.antt =====
-- The objects of the table in app/api.py: each was accepted, and its key names it alone.
use ab_b1b34dfe_mgf1_ocsp_bu.Prelude.{
  ℕ, ◌<◌, ◌≤◌, suc, String, List, [], ◌∷◌, ◌++◌, some, Bool, Bool-cases, true, false, ◌&&◌, ◌||◌,
  not, inl, inr, ◌≡◌, refl, sym, ap, subst, ◌∙◌, arith, eq_refl, str_eq, str_mem, str_mem_iff, find,
  In, In-append, length, ltb, ◌==◌,
}
use ab_b1b34dfe_mgf1_ocsp_bu.Canonical.{Json, Fields, obj, field_of, null, bool, int, str, arr}
use ab_b1b34dfe_mgf1_ocsp_bu.Store.{Db, ObjectRow, empty_db, get_object, insert_object}
use ab_b1b34dfe_mgf1_ocsp_bu.Store.Laws.{
  find-append_missing, find-append_found, insert_object_cases,
}
use ab_b1b34dfe_mgf1_ocsp_bu.Parse.Meta.{compute_meta}
use ab_b1b34dfe_mgf1_ocsp_bu.Api.{
  library, Host, Result, ok, err, or_raise, api_error, parse_error, resource_exhausted,
  integrity_error, unexpected, max_object_bytes, string_value,
}
use ab_b1b34dfe_mgf1_ocsp_bu.Api.Objects.{
  NewObject, Sorted, or_else, sort_items, sort_item, parse_item, item_object, item_type, item_der,
  item_received, all_types, insert_all, object_row, deduplicate, split_seen, split_existing,
  revocation_entry_count, value_or_null,
}
use ab_b1b34dfe_mgf1_ocsp_bu.Api.Steps.{Reach, here, next, >>=-eq-ok, raise_if-eq-ok}
use ab_b1b34dfe_mgf1_ocsp_bu.Api.Durable.{fresh_of}
use ab_b1b34dfe_mgf1_ocsp_bu.Api.Effects.{Effect, kept, opens, grows, seals, Step-Effect}

-- deduplication picks from what it is given

split_seen-In :
    (seen : List String) (o : NewObject) (os : List NewObject)
    → In o (split_seen seen os).0
    → In o os
unfolding split_seen
split_seen-In seen o [] m = m
split_seen-In seen o (x ∷ os) m = elim (Bool-cases (str_mem x.fingerprint seen)) [
  | inl e ↦ inr (split_seen-In (x.fingerprint ∷ seen) o os (rw (split_seen, e) at m))
  | inr e ↦ elim (rw (split_seen, e) at m) [
    | inl p ↦ inl p
    | inr n ↦ inr (split_seen-In (x.fingerprint ∷ seen) o os n)
  ]
]

split_existing-In :
    (existing : List String) (o : NewObject) (os : List NewObject)
    → In o (split_existing existing os).0
    → In o os
unfolding split_existing
split_existing-In existing o [] m = m
split_existing-In existing o (x ∷ os) m = elim (Bool-cases (str_mem x.fingerprint existing)) [
  | inl e ↦ inr (split_existing-In existing o os (rw (split_existing, e) at m))
  | inr e ↦ elim (rw (split_existing, e) at m) [
    | inl p ↦ inl p
    | inr n ↦ inr (split_existing-In existing o os n)
  ]
]

ok-injective : {A : Type 0} {a b : A} → ok a ≡ ok b → a ≡ b
ok-injective h = cc

not-false : (b : Bool) → not b ≡ false → b ≡ true
not-false true h = refl
not-false false h = absurd (cc)

module _ (host : Host) where
  -- what the checks of an item establish of it
  abbrev pub Accepted : String → String → List ℕ → Json → Type 0
  Accepted fingerprint otype der meta =
      (fingerprint ≡ host.sha256_bytes der)
      × In otype all_types
      × (0 < length der)
      × (length der ≤ max_object_bytes)
      × (compute_meta (library host) host.calendar otype der ≡ ok meta)

  item_type-ok : (fs : Fields) {otype : String} → item_type fs ≡ ok otype → In otype all_types
  unfolding item_type
  item_type-ok fs h =
      let (s, e, k) =
        >>=-eq-ok (or_else (string_value (field_of "type" fs)) (parse_error "INVALID_TYPE")) _ h in
      let (known, l) =
        raise_if-eq-ok (not (str_mem s all_types)) (parse_error "INVALID_TYPE") (ok s) k in
      subst (λ t. In t all_types) (ok-injective l)
        ((str_mem_iff s all_types).0 (not-false (str_mem s all_types) known))

  item_der-ok :
      (fs : Fields) {der : List ℕ}
      → item_der host fs ≡ ok der
      → (0 < length der) × (length der ≤ max_object_bytes)
  unfolding item_der
  item_der-ok fs h =
      let (s, e, k) =
        >>=-eq-ok (or_else (string_value (field_of "der" fs)) (parse_error "INVALID_DER")) _ h in
      let (d, f, l) = >>=-eq-ok (or_raise (host.b64d s) (parse_error "INVALID_DER")) _ k in
      let (small, n) =
        raise_if-eq-ok (length d == 0 || ltb max_object_bytes (length d))
          (parse_error "OBJECT_TOO_LARGE") (ok d) l in
      subst (λ (t : List ℕ). (0 < length t) × (length t ≤ max_object_bytes)) {x = d}
        (ok-injective n) (ground arith)

  item_object-Accepted :
      (fs : Fields) {o : NewObject}
      → item_object host fs ≡ ok o
      → Accepted o.fingerprint o.otype o.der o.meta
  unfolding item_object
  item_object-Accepted fs {o} h =
      let (otype, t, h₁) = >>=-eq-ok (item_type fs) _ h in
      let (der, d, h₂) = >>=-eq-ok (item_der host fs) _ h₁ in
      let (received, r, h₃) =
        >>=-eq-ok (item_received host otype (value_or_null (field_of "received_at" fs))) _ h₂ in
      let (meta, m, h₄) = >>=-eq-ok (compute_meta (library host) host.calendar otype der) _ h₃ in
      let (lower, upper) = item_der-ok fs d in
      subst (λ (n : NewObject). Accepted n.fingerprint n.otype n.der n.meta) (ok-injective h₄)
        (refl, item_type-ok fs t, lower, upper, m)

  abbrev AllAccepted : List NewObject → Type 0
  AllAccepted os = (o : NewObject) → In o os → Accepted o.fingerprint o.otype o.der o.meta

  parse_item-Accepted :
      (item : Json) {o : NewObject}
      → parse_item host item ≡ ok o
      → Accepted o.fingerprint o.otype o.der o.meta
  unfolding parse_item
  parse_item-Accepted (obj fs) h = item_object-Accepted fs h
  parse_item-Accepted null h = absurd (cc)
  parse_item-Accepted (bool b) h = absurd (cc)
  parse_item-Accepted (int n) h = absurd (cc)
  parse_item-Accepted (str s) h = absurd (cc)
  parse_item-Accepted (arr xs) h = absurd (cc)

  abbrev accepted_eq : {a b : Sorted} → ok a ≡ ok b → a.accepted ≡ b.accepted
  accepted_eq h = ap (λ (b : Sorted). b.accepted) (ok-injective h)

  -- one step of the loop over the items
  sort_item-Accepted :
      (index : ℕ) (item : Json) (others : Result Sorted) (r : Result NewObject) {batch : Sorted}
      → parse_item host item ≡ r
      → ((rest : Sorted) → others ≡ ok rest → AllAccepted rest.accepted)
      → sort_item host index r others ≡ ok batch
      → AllAccepted batch.accepted
  sort_item-Accepted index item others (ok x) e ih k o m =
      let (rest, f, l) = >>=-eq-ok others _ k in
      elim (subst (In o) (accepted_eq (sym l)) m) [
        | inl p ↦
            subst (λ (n : NewObject). Accepted n.fingerprint n.otype n.der n.meta) (sym p)
              (parse_item-Accepted item e)
        | inr n ↦ ih rest f o n
      ]
  sort_item-Accepted index item others (err (parse_error code)) e ih k o m =
      let (rest, f, l) = >>=-eq-ok others _ k in ih rest f o (subst (In o) (accepted_eq (sym l)) m)
  sort_item-Accepted index item others (err (api_error code status)) e ih k o m = absurd (cc)
  sort_item-Accepted index item others (err resource_exhausted) e ih k o m = absurd (cc)
  sort_item-Accepted index item others (err integrity_error) e ih k o m = absurd (cc)
  sort_item-Accepted index item others (err unexpected) e ih k o m = absurd (cc)

  sort_items-Accepted :
      (index : ℕ) (items : List Json) {batch : Sorted}
      → sort_items host index items ≡ ok batch
      → AllAccepted batch.accepted
  unfolding sort_items
  sort_items-Accepted index [] h o m = absurd (subst (In o) (accepted_eq (sym h)) m)
  sort_items-Accepted index (item ∷ items) h o m =
      sort_item-Accepted index item (sort_items host (suc index) items) (parse_item host item) refl
        (λ rest f. sort_items-Accepted (suc index) items f) h o m

  -- the new objects of a batch were accepted
  fresh-Accepted :
      (db : Db) (set_id : String) (batch : Sorted)
      → AllAccepted batch.accepted
      → AllAccepted (fresh_of host db set_id batch)
  unfolding deduplicate
  fresh-Accepted db set_id batch all o m =
      all o (split_seen-In [] o batch.accepted (split_existing-In _ o _ m))

  -- a row that was accepted, with the count of its entries
  abbrev pub IsStored : ObjectRow → Type 0
  IsStored row =
      Accepted row.fingerprint row.otype row.der row.meta
      × (row.entry_count ≡ revocation_entry_count row.otype row.meta)

  abbrev key : ObjectRow → ObjectRow → Bool
  key row r = str_eq r.set_id row.set_id && str_eq r.fingerprint row.fingerprint

  abbrev Rows : List ObjectRow → Type 0
  Rows objects =
      (row : ObjectRow) → In row objects → IsStored row × (find (key row) objects ≡ some row)

  Rows-insert_object :
      (db : Db) (o : ObjectRow) → IsStored o → Rows db.objects → Rows (insert_object db o).objects
  unfolding get_object
  Rows-insert_object db o new_ rows = elim (insert_object_cases db o) [
    | inl e ↦ subst (λ (x : Db). Rows x.objects) (sym e) rows
    | inr (missing, e) ↦
        subst (λ (x : Db). Rows x.objects) (sym e)
          (λ row m. elim ((In-append row db.objects (o ∷ [])).0 m) [
            | inl old ↦
                ((rows row old).0, find-append_found (key row) db.objects (o ∷ []) (rows row old).1)
            | inr (inl p) ↦
                subst (λ r. IsStored r × (find (key r) (db.objects ++ o ∷ []) ≡ some r)) (sym p)
                  (
                    new_,
                    find-append_missing (key o) db.objects (o ∷ []) missing
                        ∙ rw (eq_refl o.set_id, eq_refl o.fingerprint) refl,
                  )
            | inr (inr n) ↦ absurd n
          ])
  ]

  Rows-insert_all :
      (set_id : String) (os : List NewObject) (db : Db)
      → AllAccepted os
      → Rows db.objects
      → Rows (insert_all set_id os db).objects
  unfolding insert_all
  Rows-insert_all set_id [] db all rows = rows
  Rows-insert_all set_id (o ∷ os) db all rows =
      Rows-insert_all set_id os (insert_object db (object_row set_id o)) (λ x m. all x (inr m))
        (Rows-insert_object db (object_row set_id o) (all o (inl refl), refl) rows)

  Rows-step : {a b : Db} → Effect host a b → Rows a.objects → Rows b.objects
  Rows-step (kept (e, f)) rows = subst Rows (sym f) rows
  Rows-step (opens set_id rid n e f) rows = subst Rows (sym f) rows
  Rows-step (seals set_id o e f) rows = subst Rows (sym f) rows
  Rows-step {a} (grows set_id items batch o sorts l e f) rows = subst Rows (sym f) (
      Rows-insert_all set_id (fresh_of host a set_id batch) a
        (fresh-Accepted a set_id batch (sort_items-Accepted 0 items sorts)) rows)

  Reach-Rows : {db : Db} → Reach host empty_db db → Rows db.objects
  Reach-Rows here row m = absurd m
  Reach-Rows (next a b r step) row m = Rows-step (Step-Effect host step) (Reach-Rows r) row m

  -- In every database that transactions lead to from the empty one, each stored object has the hash of
  -- its bytes as fingerprint, one of the three types, between 1 and `max_object_bytes` bytes, the
  -- metadata and the entry count of those bytes, and is the one object of its set with its fingerprint.
  pub Reach-Contents :
      {db : Db}
      → Reach host empty_db db
      → (row : ObjectRow) → In row db.objects
      → IsStored row × (get_object db row.set_id row.fingerprint ≡ some row)
  unfolding get_object
  Reach-Contents reach row m = Reach-Rows reach row m
