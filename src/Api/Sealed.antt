-- ===== src/Api/Sealed.antt =====
-- What `seal` of app/api.py stores: the manifest of the set's objects, its counts and its digest.
use ab_b1b34dfe_mgf1_ocsp_bu.Prelude.{
  String, [], ◌∷◌, ◌++◌, some, Bool-cases, false, inl, inr, ◌⊎◌, ◌≡◌, refl, sym, ap, ◌∙◌, arith,
  eq_iff, str_eq, find, sort_by, Option-cases, subst,
}
use ab_b1b34dfe_mgf1_ocsp_bu.Canonical.{dump}
use ab_b1b34dfe_mgf1_ocsp_bu.Store.{
  Db, SetRow, sealed, empty_db, get_set, new_set, sealed_row, rows_of, list_objects, row_le,
  object_counts, counts_of,
}
use ab_b1b34dfe_mgf1_ocsp_bu.Store.Laws.{
  find-append_missing, find-append_found, get_set-seal_set_same, get_set-seal_set_other,
}
use ab_b1b34dfe_mgf1_ocsp_bu.Store.Extends.{get_set-sets}
use ab_b1b34dfe_mgf1_ocsp_bu.Api.{Host}
use ab_b1b34dfe_mgf1_ocsp_bu.Api.Seal.{seal_open, sealed_counts, manifest_of}
use ab_b1b34dfe_mgf1_ocsp_bu.Api.Steps.{Step, Reach, here, next}
use ab_b1b34dfe_mgf1_ocsp_bu.Api.Durable.{Step-Extends}
use ab_b1b34dfe_mgf1_ocsp_bu.Api.Effects.{Effect, kept, opens, grows, seals, Step-Effect}

pub list_objects-rows :
    (a b : Db) (set_id : String)
    → rows_of b set_id ≡ rows_of a set_id
    → list_objects b set_id ≡ list_objects a set_id
unfolding list_objects
list_objects-rows a b set_id e = ap (sort_by row_le) e

pub object_counts-rows :
    (a b : Db) (set_id : String)
    → rows_of b set_id ≡ rows_of a set_id
    → object_counts b set_id ≡ object_counts a set_id
unfolding object_counts
object_counts-rows a b set_id e = ap counts_of e

pub rows_of-objects :
    (a b : Db) (set_id : String) → b.objects ≡ a.objects → rows_of b set_id ≡ rows_of a set_id
unfolding rows_of
rows_of-objects a b set_id e = rw e refl

get_set-find :
    (db : Db) (set_id : String) {row : SetRow}
    → get_set db set_id ≡ some row
    → find (λ r. str_eq r.id set_id) db.sets ≡ some row
unfolding get_set
get_set-find db set_id h = h

some-injective : {A : Type 0} {a b : A} → some a ≡ some b → a ≡ b
some-injective h = cc

module _ (host : Host) where
  -- the row of a sealed set says what the set holds
  abbrev pub Describes : Db → String → SetRow → Type 0
  Describes db set_id row =
      (row.counts ≡ sealed_counts (object_counts db set_id) (list_objects db set_id))
      × (row.manifest_json ≡ dump (manifest_of row.counts (list_objects db set_id)))
      × (row.content_digest ≡ host.sha256_text row.manifest_json)

  abbrev pub SealedMatch : Db → Type 0
  SealedMatch db =
      (set_id : String) (row : SetRow)
      → get_set db set_id ≡ some row
      → row.status ≡ sealed
      → Describes db set_id row

  Describes-rows :
      (a b : Db) (set_id : String) (row : SetRow)
      → rows_of b set_id ≡ rows_of a set_id
      → Describes a set_id row
      → Describes b set_id row
  Describes-rows a b set_id row e (counts, manifest, digest) =
      let objects = sym (list_objects-rows a b set_id e) in
      let same_counts = sym (object_counts-rows a b set_id e) in
      (
        counts
            ∙ ap (λ c. sealed_counts c (list_objects a set_id)) same_counts
            ∙ ap (sealed_counts (object_counts b set_id)) objects,
        manifest ∙ ap (λ os. dump (manifest_of row.counts os)) objects,
        digest,
      )

  abbrev sealed_by : Db → String → SetRow → SetRow
  sealed_by db set_id row =
      let rows = list_objects db set_id in
      let counts = sealed_counts (object_counts db set_id) rows in
      let manifest = dump (manifest_of counts rows) in
      sealed_row (host.sha256_text manifest) manifest counts row

  seal_open-same :
      (db : Db) (set_id : String) {row : SetRow}
      → get_set db set_id ≡ some row
      → get_set (seal_open host set_id db).1 set_id ≡ some (sealed_by db set_id row)
  unfolding seal_open
  seal_open-same db set_id {row} h = get_set-seal_set_same set_id _ _ _ db row h

  seal_open-other :
      (db : Db) (set_id other : String)
      → str_eq set_id other ≡ false
      → get_set (seal_open host set_id db).1 other ≡ get_set db other
  unfolding seal_open
  seal_open-other db set_id other t = get_set-seal_set_other set_id _ _ _ db other t

  opens-sealed :
      (a : Db) (other rid set_id : String) {row : SetRow}
      → find (λ r. str_eq r.id set_id) (a.sets ++ new_set other rid ∷ []) ≡ some row
      → row.status ≡ sealed
      → get_set a set_id ≡ some row
  unfolding get_set
  opens-sealed a other rid set_id {row} h s = elim (Option-cases (get_set a set_id)) [
    | inr (r, e) ↦
        e ∙ sym (find-append_found (λ r. str_eq r.id set_id) a.sets (new_set other rid ∷ []) e) ∙ h
    | inl e ↦
        let k =
          sym (find-append_missing (λ r. str_eq r.id set_id) a.sets (new_set other rid ∷ []) e)
          ∙ h in
        absurd (ground arith)
  ]

  -- a set that is sealed after an effect was so before, or is described by its row
  sealed_before :
      (a b : Db) (set_id : String) (row : SetRow)
      → Effect host a b
      → get_set b set_id ≡ some row
      → row.status ≡ sealed
      → (get_set a set_id ≡ some row) ⊎ Describes b set_id row
  sealed_before a b set_id row (kept (e, f)) g s = inl (sym (get_set-sets b a set_id e) ∙ g)
  sealed_before a b set_id row (grows other items batch o sorts l e f) g s =
      inl (sym (get_set-sets b a set_id e) ∙ g)
  sealed_before a b set_id row (opens other rid missing e f) g s = inl (
      opens-sealed a other rid set_id
        (ap (find (λ r. str_eq r.id set_id)) (sym e) ∙ get_set-find b set_id g) s)
  sealed_before a b set_id row (seals other (old, h, o) e f) g s =
      elim (Bool-cases (str_eq other set_id)) [
        | inl t ↦ inr (described ((eq_iff other set_id).0 t))
        | inr t ↦ inl (
            sym (seal_open-other a other set_id t)
            ∙ sym (get_set-sets b (seal_open host other a).1 set_id e)
            ∙ g)
      ]
    where
      described : other ≡ set_id → Describes b set_id row
      described same =
          let found : get_set a set_id ≡ some old = ap (get_set a) (sym same) ∙ h in
          let sets : b.sets ≡ (seal_open host set_id a).1.sets =
            e ∙ ap (λ i. (seal_open host i a).1.sets) same in
          let k =
            sym (seal_open-same a set_id found)
            ∙ sym (get_set-sets b (seal_open host set_id a).1 set_id sets)
            ∙ g in
          let is : sealed_by a set_id old ≡ row = some-injective k in
          Describes-rows a b set_id row (rows_of-objects a b set_id f)
            (subst (Describes a set_id) is (refl, refl, refl))

  SealedMatch-Step : {a b : Db} → Step host a b → SealedMatch a → SealedMatch b
  SealedMatch-Step {a} {b} step match set_id row g s =
      elim (sealed_before a b set_id row (Step-Effect host step) g s) [
        | inr d ↦ d
        | inl h ↦
            let (still, rows) = (Step-Extends host step).sealed_stay set_id row h s in
            Describes-rows a b set_id row rows (match set_id row h s)
      ]

  -- In every database that transactions lead to from the empty one, the row of a sealed set holds the
  -- counts of the set's objects, the canonical text of the manifest that lists exactly those objects in
  -- the order of their fingerprints, and the hash of that text.
  pub Reach-SealedMatch : {db : Db} → Reach host empty_db db → SealedMatch db
  unfolding get_set
  Reach-SealedMatch here set_id row g s = absurd (cc)
  Reach-SealedMatch (next a b r step) set_id row g s =
      SealedMatch-Step step (Reach-SealedMatch r) set_id row g s
