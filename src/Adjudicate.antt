-- ===== src/Adjudicate.antt =====
-- app/adjudicate.py: the engine, from the objects of a sealed set and a normalized input to a verdict.
-- The rendering of a verdict as JSON, with its trace and texts, is left out.
pub mod Engine
pub mod Verdict
pub mod Justified
pub mod Reachable
pub mod Pushed
pub mod Anchored
mod Tests
use ab_b1b34dfe_mgf1_ocsp_bu.Prelude.{
  ℕ, zero, suc, String, List, [], ◌∷◌, ◌++◌, Option, none, some, Bool, true, false, not, ◌&&◌, ◌||◌,
  if◌then◌else◌, str_eq, str_mem, str_le, opt_str_eq, find, select, map, sort_by, length, all, any,
}
use ab_b1b34dfe_mgf1_ocsp_bu.Cert.{CertInfo, Bytes, Text, SigAlg, RuleFailure}
use ab_b1b34dfe_mgf1_ocsp_bu.Profile.{PubVerify, verify_signature, artifact_algorithm_matches_key}
use ab_b1b34dfe_mgf1_ocsp_bu.Names.{check_name_constraints}
use ab_b1b34dfe_mgf1_ocsp_bu.Policy.{PolicyResult, evaluate_policies}
use ab_b1b34dfe_mgf1_ocsp_bu.Graph.{Explorer, Explored, Branch}
use ab_b1b34dfe_mgf1_ocsp_bu.Graph.Search.{
  SearchResult, path_found, rejected, out_of_budget, search,
}
use ab_b1b34dfe_mgf1_ocsp_bu.Revocation.{
  Evaluator, EvalState, EvidenceMeta, ResponseMeta, CrlInfo, OcspInfo, Outcome, Disposition,
}
use ab_b1b34dfe_mgf1_ocsp_bu.Revocation.Evaluate.{status}

-- the metadata that the engine reads, with the time of receipt of evidence parsed
pub data ObjectMeta : Type 0 where
  -- `subject_der_hex`, `issuer_der_hex`, `ski` and `aki_keyid`
  certificate : String → String → Option String → Option String → ObjectMeta
  -- `issuer_der_hex` and `received_at`
  crl : String → ℕ → ObjectMeta
  -- `responses` and `received_at`
  ocsp : List ResponseMeta → ℕ → ObjectMeta

-- an object of the source: its fingerprint and metadata
pub record Entry : Type 0 where
  pub fingerprint : String
  pub meta : ObjectMeta

-- a normalized input, decoded: times are microseconds
pub record Input : Type 0 where
  pub message : Bytes
  pub signature : Bytes
  pub signature_algorithm : String
  pub signed_at : ℕ
  pub knowledge_cutoff : ℕ
  pub leaf_fingerprint : String
  pub initial_policy_set : List String
  pub trust_anchors : List String

-- The objects as the parsers read their bytes, which the fingerprint names, and the calls into other
-- code that the search and the evaluator make.
pub record World : Type 0 where
  pub get_cert : String → CertInfo
  pub get_crl : String → CrlInfo
  pub get_ocsp : String → OcspInfo
  pub digest : String → String → String
  pub key_bits : CertInfo → String
  pub parse_certificate : Bytes → Option CertInfo
  pub hostname : Text → Option Text
  pub pub_verify : PubVerify

-- the entry of a fingerprint
unfoldable pub entry_of : List Entry → String → Option Entry
entry_of active fp = find (λ e. str_eq e.fingerprint fp) active

abbrev pub subject_is : String → ObjectMeta → Bool
subject_is hex (certificate subject issuer ski aki) = str_eq subject hex
subject_is hex _ = false

abbrev pub issuer_is : String → ObjectMeta → Bool
issuer_is hex (certificate subject issuer ski aki) = str_eq issuer hex
issuer_is hex _ = false

abbrev pub crl_of : String → ObjectMeta → Bool
crl_of hex (crl issuer received) = str_eq issuer hex
crl_of hex _ = false

abbrev pub is_ocsp : ObjectMeta → Bool
is_ocsp (ocsp responses received) = true
is_ocsp _ = false

abbrev pub is_cert : ObjectMeta → Bool
is_cert (certificate subject issuer ski aki) = true
is_cert _ = false

-- the fingerprints of the entries whose metadata pass a test
unfoldable pub fps_where : (ObjectMeta → Bool) → List Entry → List String
fps_where test [] = []
fps_where test (e ∷ es) =
    if test e.meta then e.fingerprint ∷ fps_where test es else fps_where test es

abbrev pub ski_in : ObjectMeta → Option String
ski_in (certificate subject issuer ski aki) = ski
ski_in _ = none

abbrev pub aki_in : ObjectMeta → Option String
aki_in (certificate subject issuer ski aki) = aki
aki_in _ = none

abbrev pub subject_in : ObjectMeta → String
subject_in (certificate subject issuer ski aki) = subject
subject_in _ = ""

abbrev pub evidence_in : ObjectMeta → EvidenceMeta
evidence_in (crl issuer received) = record { received_at = received; otype = "crl"; responses = [] }
evidence_in (ocsp responses received) = record {
  received_at = received;
  otype = "ocsp";
  responses = responses;
}
evidence_in _ = record { received_at = 0; otype = ""; responses = [] }

-- what is read of the metadata of a fingerprint, with a value where it has none
abbrev pub read_meta : {A : Type 0} → (ObjectMeta → A) → A → Option Entry → A
read_meta f default none = default
read_meta f default (some e) = f e.meta

module _ (active : List Entry) where
  unfoldable pub ski_of : String → Option String
  unfolding entry_of
  ski_of fp = read_meta ski_in none (entry_of active fp)

  unfoldable pub aki_of : String → Option String
  unfolding entry_of
  aki_of fp = read_meta aki_in none (entry_of active fp)

  unfoldable pub subject_of : String → String
  unfolding entry_of
  subject_of fp = read_meta subject_in "" (entry_of active fp)

  -- `_edge_key_matches` on the metadata
  abbrev pub key_matches : String → String → Bool
  key_matches child parent = elim (aki_of child) [
    | none ↦ true
    | some aki ↦ opt_str_eq (ski_of parent) (some aki)
  ]

  -- the children that are not yet reachable go on the stack
  unfoldable pub push_children :
      String → List String → List String × List String → List String × List String
  unfolding aki_of ski_of
  push_children parent [] found = found
  push_children parent (child ∷ children) (stack, reachable) = push_children parent children (
      if not (str_mem child reachable) && key_matches child parent
      then (child ∷ stack, child ∷ reachable)
      else (stack, reachable))

  -- the loop of `_compute_anchor_reachable`, with fuel
  unfoldable pub reach_from : ℕ → List String × List String → List String
  unfolding push_children fps_where subject_of
  reach_from zero (stack, reachable) = reachable
  reach_from (suc fuel) ([], reachable) = reachable
  reach_from (suc fuel) (fp ∷ stack, reachable) =
      reach_from fuel
        (push_children fp (fps_where (issuer_is (subject_of fp)) active) (stack, reachable))

  -- the certificates among the anchors
  unfoldable pub anchors_in : List String → List String
  unfolding fps_where
  anchors_in anchors = select (λ fp. str_mem fp anchors) (fps_where is_cert active)

  unfoldable pub anchor_reachable : List String → List String
  unfolding reach_from anchors_in
  anchor_reachable anchors =
      reach_from (suc (length active)) (anchors_in anchors, anchors_in anchors)

  module _ (w : World) (inp : Input) where
    abbrev pub evaluator : Evaluator
    evaluator = record {
      crl_index = λ hex. fps_where (crl_of hex) active;
      ocsp_fps = fps_where is_ocsp active;
      metas = λ fp.
          read_meta evidence_in (record { received_at = 0; otype = ""; responses = [] })
            (entry_of active fp);
      get_crl = w.get_crl;
      get_ocsp = w.get_ocsp;
      signed_at = inp.signed_at;
      knowledge_cutoff = inp.knowledge_cutoff;
      digest = w.digest;
      key_bits = w.key_bits;
      parse_certificate = w.parse_certificate;
      pub_verify = w.pub_verify;
    }

    abbrev pub explorer : Explorer EvalState
    explorer = record {
      get_cert = w.get_cert;
      by_subject = λ hex. sort_by str_le (fps_where (subject_is hex) active);
      meta_ski = ski_of;
      meta_aki = aki_of;
      anchors = inp.trust_anchors;
      anchor_reachable = anchor_reachable inp.trust_anchors;
      signed_at = inp.signed_at;
      initial_policy_set = inp.initial_policy_set;
      status = λ cert issuer e. (let (o, e') = status evaluator cert issuer e in (o.status, e'));
      max_path_len = 32;
      max_branches = 65536;
      hostname = w.hostname;
      pub_verify = w.pub_verify;
    }
