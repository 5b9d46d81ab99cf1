-- ===== src/Graph.antt =====
-- app/graph.py: the `Explorer`, its environment and its state. The checks are in `Checks`, the
-- search in `Search`.
pub mod Checks
pub mod Search
pub mod Route
pub mod Cache
pub mod Answer
pub mod Parents
pub mod Dfs
pub mod Optimal
pub mod Rules
pub mod Sound
pub mod Fits
pub mod Candidates
pub mod Budget
pub mod Trace
pub mod Tests
use ab_b1b34dfe_mgf1_ocsp_bu.Prelude.{
  ℕ, String, List, [], ◌∷◌, Option, none, some, Bool, true, false, ◌||◌, select, str_eq, str_mem,
  str_le, opt_str_eq, sort_by, if◌then◌else◌, not,
}
use ab_b1b34dfe_mgf1_ocsp_bu.Cert.{CertInfo, Text}
use ab_b1b34dfe_mgf1_ocsp_bu.Profile.{PubVerify}

-- The constructor's arguments. `E` is the state of the revocation evaluator and `status` its
-- method; `by_subject` and `metas` are the indexes that the engine builds, here as functions:
-- `by_subject.get(hex, [])`, and the `ski` and `aki_keyid` of a certificate's metadata. `hostname`
-- and `pub_verify` are the library calls that the checks make.
pub record Explorer (E : Type 0) : Type 0 where
  pub get_cert : String → CertInfo
  pub by_subject : String → List String
  pub meta_ski : String → Option String
  pub meta_aki : String → Option String
  pub anchors : List String
  pub anchor_reachable : List String
  pub signed_at : ℕ
  pub initial_policy_set : List String
  pub status : CertInfo → CertInfo → E → String × E
  pub max_path_len : ℕ
  pub max_branches : ℕ
  pub hostname : Text → Option Text
  pub pub_verify : PubVerify

-- a failed rule; the texts `detail` and `details` are left out
pub record Failure : Type 0 where
  pub certificate : String
  pub rule : String
  pub code : String

pub record Branch : Type 0 where
  pub path : List String
  pub failure : Failure

-- the fields that the search changes
pub record Explored (E : Type 0) : Type 0 where
  pub rev : E
  pub sig_cache : List (String × String × Bool)
  pub touched : List String
  pub branches : List Branch
  pub budget : ℕ
  pub cutoff : Bool

-- the elements of `xs` put back to front before `ys`
abbrev pub rev_onto : {A : Type 0} → List A → List A → List A
rev_onto [] ys = ys
rev_onto (x ∷ xs) ys = rev_onto xs (x ∷ ys)

module _ {E : Type 0} (x : Explorer E) where
  open x use {meta_ski, meta_aki, by_subject, get_cert}

  unfoldable pub edge_key_matches : String → String → Bool
  edge_key_matches child parent = elim (meta_aki child) [
    | none ↦ true
    | some aki ↦ opt_str_eq (meta_ski parent) (some aki)
  ]

  -- issuer candidates in ascending order
  unfoldable pub parents_of : CertInfo → List String
  unfolding edge_key_matches
  parents_of cert =
      sort_by str_le (select (edge_key_matches cert.fingerprint) (by_subject cert.issuer_hex))

  -- the candidates that are not yet in the path
  unfoldable pub candidates : String → List String → List String
  unfolding parents_of
  candidates cur below = select (λ fp. not (str_mem fp (cur ∷ below))) (parents_of (get_cert cur))
