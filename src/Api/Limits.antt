-- ===== src/Api/Limits.antt =====
-- The limits on the objects of a set in app/api.py hold of every set.
use ab_b1b34dfe_mgf1_ocsp_bu.Prelude.{
  ℕ, ◌+◌, ◌≤◌, String, List, [], ◌∷◌, ◌++◌, Bool, Bool-cases, true, false, inl, inr, ◌≡◌, refl, sym,
  ◌∙◌, arith, subst, eq_iff, str_eq, sum_by, if◌then◌else◌, ltb,
}
use ab_b1b34dfe_mgf1_ocsp_bu.Store.{
  Db, ObjectRow, empty_db, rows_of, insert_object, object_counts, Counts, is_certificate,
  is_revocation, one_of,
}
use ab_b1b34dfe_mgf1_ocsp_bu.Store.Laws.{insert_object_cases, rows_of-add_object}
use ab_b1b34dfe_mgf1_ocsp_bu.Store.Extends.{rows_of-insert_other}
use ab_b1b34dfe_mgf1_ocsp_bu.Api.{
  Host, ok, raise_if, api_error, max_certificates, max_revocation_evidence, max_revocation_entries,
}
use ab_b1b34dfe_mgf1_ocsp_bu.Api.Objects.{
  NewObject, insert_all, object_row, check_limits, revocation_entry_count,
}
use ab_b1b34dfe_mgf1_ocsp_bu.Api.Steps.{Reach, here, next, raise_if-eq-ok}
use ab_b1b34dfe_mgf1_ocsp_bu.Api.Durable.{fresh_of}
use ab_b1b34dfe_mgf1_ocsp_bu.Api.Effects.{Effect, kept, opens, grows, seals, Step-Effect}
use ab_b1b34dfe_mgf1_ocsp_bu.Api.Sealed.{rows_of-objects, object_counts-rows}

sum_by-append :
    {A : Type 0} (f : A → ℕ) (xs ys : List A) → sum_by f (xs ++ ys) ≡ sum_by f xs + sum_by f ys
sum_by-append f [] ys = omega arith
sum_by-append f (x ∷ xs) ys = omega (arith, sum_by-append f xs ys)

-- a sum over a set grows by at most the new object's part
sum_by-insert_object :
    (f : ObjectRow → ℕ) (db : Db) (o : ObjectRow) (set_id : String)
    → sum_by f (rows_of (insert_object db o) set_id) ≤ sum_by f (rows_of db set_id) + f o
sum_by-insert_object f db o set_id = elim (insert_object_cases db o) [
  | inl e ↦ rw e (omega arith)
  | inr (n, e) ↦
      rw (e, rows_of-add_object db o set_id, sum_by-append) (part (str_eq o.set_id set_id))
]
  where
    part :
        (t : Bool)
        → sum_by f (rows_of db set_id) + sum_by f (if t then o ∷ [] else [])
          ≤ sum_by f (rows_of db set_id) + f o
    part true = omega arith
    part false = omega arith

sum_by-insert_all :
    (f : ObjectRow → ℕ) (set_id : String) (os : List NewObject) (db : Db)
    → sum_by f (rows_of (insert_all set_id os db) set_id)
      ≤ sum_by f (rows_of db set_id) + sum_by (λ (o : NewObject). f (object_row set_id o)) os
unfolding insert_all
sum_by-insert_all f set_id [] db = omega arith
sum_by-insert_all f set_id (o ∷ os) db = omega (
  arith,
  sum_by-insert_all f set_id os (insert_object db (object_row set_id o)),
  sum_by-insert_object f db (object_row set_id o) set_id,
)

rows_of-insert_all_other :
    (set_id other : String) (os : List NewObject) (db : Db)
    → str_eq set_id other ≡ false
    → rows_of (insert_all set_id os db) other ≡ rows_of db other
unfolding insert_all
rows_of-insert_all_other set_id other [] db h = refl
rows_of-insert_all_other set_id other (o ∷ os) db h =
    rows_of-insert_all_other set_id other os (insert_object db (object_row set_id o)) h
    ∙ rows_of-insert_other db (object_row set_id o) other h

-- the counts are within the limits
abbrev pub Within : Counts → Type 0
Within counts =
    (counts.certificates ≤ max_certificates)
    × (counts.revocation_evidence ≤ max_revocation_evidence)
    × (counts.revocation_entries ≤ max_revocation_entries)

check_limits-ok :
    (counts : Counts) (fresh : List NewObject)
    → check_limits counts fresh ≡ ok tt
    → (counts.certificates + sum_by (λ (o : NewObject). one_of (is_certificate o.otype)) fresh
        ≤ max_certificates)
      × (counts.revocation_evidence
            + sum_by (λ (o : NewObject). one_of (is_revocation o.otype)) fresh
          ≤ max_revocation_evidence)
      × (counts.revocation_entries
            + sum_by (λ (o : NewObject). revocation_entry_count o.otype o.meta) fresh
          ≤ max_revocation_entries)
unfolding check_limits
check_limits-ok counts fresh h =
    let (a, h₁) =
      raise_if-eq-ok
        (ltb max_certificates
          (counts.certificates + sum_by (λ (o : NewObject). one_of (is_certificate o.otype)) fresh))
        _ _ h in
    let (b, h₂) =
      raise_if-eq-ok
        (ltb max_revocation_evidence (
          counts.revocation_evidence
          + sum_by (λ (o : NewObject). one_of (is_revocation o.otype)) fresh))
        _ _ h₁ in
    let (c, h₃) =
      passed
        (ltb max_revocation_entries (
          counts.revocation_entries
          + sum_by (λ (o : NewObject). revocation_entry_count o.otype o.meta) fresh))
        h₂ in
    (within _ _ a, within _ _ b, within _ _ c)
  where
    within : (m n : ℕ) → ltb m n ≡ false → n ≤ m
    within m n e = ground arith

    passed :
        (t : Bool) → raise_if t (api_error "LIMIT_EXCEEDED" 413) ≡ ok tt → (t ≡ false) × Unit {0}
    passed true h = absurd (cc)
    passed false h = (refl, tt)

Within-insert_all :
    (set_id : String) (fresh : List NewObject) (db : Db)
    → check_limits (object_counts db set_id) fresh ≡ ok tt
    → Within (object_counts (insert_all set_id fresh db) set_id)
unfolding object_counts
Within-insert_all set_id fresh db h =
    let (a, b, c) = check_limits-ok (object_counts db set_id) fresh h in
    (
      omega (arith, sum_by-insert_all (λ r. one_of (is_certificate r.otype)) set_id fresh db),
      omega (arith, sum_by-insert_all (λ r. one_of (is_revocation r.otype)) set_id fresh db),
      omega (arith, sum_by-insert_all (λ r. r.entry_count) set_id fresh db),
    )

module _ (host : Host) where
  Within-rows :
      (a b : Db) (set_id : String)
      → rows_of b set_id ≡ rows_of a set_id
      → Within (object_counts a set_id)
      → Within (object_counts b set_id)
  Within-rows a b set_id e w = subst Within (sym (object_counts-rows a b set_id e)) w

  Within-step :
      {a b : Db}
      → Effect host a b
      → (set_id : String) → Within (object_counts a set_id)
      → Within (object_counts b set_id)
  Within-step {a} {b} (kept (e, f)) set_id w =
      Within-rows a b set_id (rows_of-objects a b set_id f) w
  Within-step {a} {b} (opens other rid n e f) set_id w =
      Within-rows a b set_id (rows_of-objects a b set_id f) w
  Within-step {a} {b} (seals other o e f) set_id w =
      Within-rows a b set_id (rows_of-objects a b set_id f) w
  Within-step {a} {b} (grows other items batch o sorts l e f) set_id w =
      let fresh = fresh_of host a other batch in
      let rows = rows_of-objects (insert_all other fresh a) b set_id f in
      elim (Bool-cases (str_eq other set_id)) [
        | inl t ↦
            let same = (eq_iff other set_id).0 t in
            Within-rows (insert_all other fresh a) b set_id rows (
              subst (λ i. Within (object_counts (insert_all other fresh a) i)) same
                (Within-insert_all other fresh a l))
        | inr t ↦ Within-rows a b set_id (rows ∙ rows_of-insert_all_other other set_id fresh a t) w
      ]

  -- In every database that transactions lead to from the empty one, every set has at most
  -- `max_certificates` certificates, `max_revocation_evidence` CRLs and OCSP responses together, and
  -- `max_revocation_entries` entries in those.
  pub Reach-Within :
      {db : Db} → Reach host empty_db db → (set_id : String) → Within (object_counts db set_id)
  unfolding object_counts rows_of
  Reach-Within here set_id = (omega arith, omega arith, omega arith)
  Reach-Within (next a b r step) set_id =
      Within-step (Step-Effect host step) set_id (Reach-Within r set_id)
