-- ===== src/Store.antt =====
-- app/store.py: the tables and the statements on them. A table is its rows in the order in which
-- they were put in; `none` is SQLite's IntegrityError for a repeated key.
pub mod Laws
pub mod Extends
use ab_b1b34dfe_mgf1_ocsp_bu.Prelude.{
  ℕ, suc, ◌+◌, String, List, [], ◌∷◌, ◌++◌, Option, none, some, Bool, true, false, ◌&&◌, ◌||◌,
  if◌then◌else◌, str_eq, str_le, map, select, find, length, sort_by, sum_by,
}
use ab_b1b34dfe_mgf1_ocsp_bu.Cert.{Text, Bytes}
use ab_b1b34dfe_mgf1_ocsp_bu.Canonical.{Json, null}

pub data Status : Type 0 where
  opened sealed : Status

-- a row of `evidence_sets`; the counts are kept as the value whose text the column holds
pub record SetRow : Type 0 where
  pub id : String
  pub status : Status
  pub created_request_id : String
  pub content_digest : String
  pub manifest_json : Text
  pub counts : Json

-- a row of `objects`; the metadata are kept as the value whose text the column holds
pub record ObjectRow : Type 0 where
  pub set_id : String
  pub fingerprint : String
  pub otype : String
  pub der : Bytes
  pub received_at : Option String
  pub entry_count : ℕ
  pub meta : Json

-- a row of `requests`
pub record RequestRow : Type 0 where
  pub request_id : String
  pub endpoint : String
  pub request_hash : String
  pub status_code : ℕ
  pub response_body : Text

-- a row of `adjudications`
pub record AdjudicationRow : Type 0 where
  pub id : String
  pub request_id : String
  pub set_id : String
  pub set_content_digest : String
  pub input_json : Text
  pub result_json : Text
  pub pack_json : Text
  pub pack_digest : String

pub record Db : Type 0 where
  pub sets : List SetRow
  pub objects : List ObjectRow
  pub requests : List RequestRow
  pub adjudications : List AdjudicationRow

abbrev pub empty_db : Db
empty_db = record { sets = []; objects = []; requests = []; adjudications = [] }

-- evidence sets

unfoldable pub get_set : Db → String → Option SetRow
get_set db set_id = find (λ r. str_eq r.id set_id) db.sets

-- The columns that are NULL while the set is open are empty texts and `null`.
abbrev pub new_set : String → String → SetRow
new_set set_id request_id = record {
  id = set_id;
  status = opened;
  created_request_id = request_id;
  content_digest = "";
  manifest_json = [];
  counts = null;
}

unfoldable pub create_set : Db → String → String → Option Db
unfolding get_set
create_set db set_id request_id = elim (get_set db set_id) [
  | some r ↦ none
  | none ↦ some (record db { sets = db.sets ++ new_set set_id request_id ∷ [] })
]

abbrev pub sealed_row : String → Text → Json → SetRow → SetRow
sealed_row content_digest manifest_json counts r = record r {
  status = sealed;
  content_digest = content_digest;
  manifest_json = manifest_json;
  counts = counts;
}

-- the rows after `UPDATE ... WHERE id=?`
unfoldable pub update_sets : String → String → Text → Json → List SetRow → List SetRow
update_sets set_id digest manifest counts [] = []
update_sets set_id digest manifest counts (r ∷ rows) =
    (if str_eq r.id set_id then sealed_row digest manifest counts r else r)
    ∷ update_sets set_id digest manifest counts rows

unfoldable pub seal_set : Db → String → String → Text → Json → Db
unfolding update_sets
seal_set db set_id digest manifest counts = record db {
  sets = update_sets set_id digest manifest counts db.sets;
}

-- objects

-- the rows of a set
unfoldable pub rows_of : Db → String → List ObjectRow
rows_of db set_id = select (λ r. str_eq r.set_id set_id) db.objects

pub record Counts : Type 0 where
  pub certificates : ℕ
  pub revocation_evidence : ℕ
  pub revocation_entries : ℕ
  pub total_objects : ℕ

abbrev pub is_certificate : String → Bool
is_certificate otype = str_eq otype "certificate"

abbrev pub is_revocation : String → Bool
is_revocation otype = str_eq otype "crl" || str_eq otype "ocsp"

abbrev pub one_of : Bool → ℕ
one_of true = 1
one_of false = 0

abbrev pub counts_of : List ObjectRow → Counts
counts_of rows = record {
  certificates = sum_by (λ r. one_of (is_certificate r.otype)) rows;
  revocation_evidence = sum_by (λ r. one_of (is_revocation r.otype)) rows;
  revocation_entries = sum_by (λ r. r.entry_count) rows;
  total_objects = length rows;
}

unfoldable pub object_counts : Db → String → Counts
unfolding rows_of
object_counts db set_id = counts_of (rows_of db set_id)

unfoldable pub get_object : Db → String → String → Option ObjectRow
get_object db set_id fp = find (λ r. str_eq r.set_id set_id && str_eq r.fingerprint fp) db.objects

-- those of the fingerprints that the set has; the source asks for 500 at a time
unfoldable pub existing_fingerprints : Db → String → List String → List String
unfolding get_object
existing_fingerprints db set_id =
    select (λ fp. elim (get_object db set_id fp) [ some r ↦ true | none ↦ false ])

-- INSERT OR IGNORE
unfoldable pub insert_object : Db → ObjectRow → Db
unfolding get_object
insert_object db o = elim (get_object db o.set_id o.fingerprint) [
  | some r ↦ db
  | none ↦ record db { objects = db.objects ++ o ∷ [] }
]

unfoldable pub row_le : ObjectRow → ObjectRow → Bool
row_le a b = str_le a.fingerprint b.fingerprint

unfoldable pub list_objects : Db → String → List ObjectRow
unfolding rows_of row_le
list_objects db set_id = sort_by row_le (rows_of db set_id)

unfoldable pub get_der : Db → String → String → Option Bytes
unfolding get_object
get_der db set_id fp = elim (get_object db set_id fp) [ some r ↦ some r.der | none ↦ none ]

-- idempotency

unfoldable pub get_request : Db → String → Option RequestRow
get_request db request_id = find (λ r. str_eq r.request_id request_id) db.requests

unfoldable pub put_request : Db → RequestRow → Option Db
unfolding get_request
put_request db q = elim (get_request db q.request_id) [
  | some r ↦ none
  | none ↦ some (record db { requests = db.requests ++ q ∷ [] })
]

-- adjudications

unfoldable pub get_adjudication : Db → String → Option AdjudicationRow
get_adjudication db adj_id = find (λ r. str_eq r.id adj_id) db.adjudications

-- the row whose `request_id`, which is UNIQUE, is this one
unfoldable pub adjudication_by_request : Db → String → Option AdjudicationRow
adjudication_by_request db request_id = find (λ r. str_eq r.request_id request_id) db.adjudications

unfoldable pub put_adjudication : Db → AdjudicationRow → Option Db
unfolding get_adjudication adjudication_by_request
put_adjudication db a = elim (get_adjudication db a.id) [
  | some r ↦ none
  | none ↦ elim (adjudication_by_request db a.request_id) [
    | some r ↦ none
    | none ↦ some (record db { adjudications = db.adjudications ++ a ∷ [] })
  ]
]
