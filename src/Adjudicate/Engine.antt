-- ===== src/Adjudicate/Engine.antt =====
-- `explore_once` and `run` of app/adjudicate.py, with the signature of the artifact. A set of
-- fingerprints is the entries that it names, in the order of the source.
use ab_b1b34dfe_mgf1_ocsp_bu.Prelude.{
  ℕ, zero, suc, String, List, [], ◌∷◌, ◌++◌, Option, none, some, Bool, true, false, ◌&&◌, ◌||◌,
  if◌then◌else◌, str_eq, str_mem, str_le, select, map, sort_by, length, all, any,
}
use ab_b1b34dfe_mgf1_ocsp_bu.Cert.{CertInfo, Finding, SigAlg, RuleFailure}
use ab_b1b34dfe_mgf1_ocsp_bu.Profile.{verify_signature, artifact_algorithm_matches_key}
use ab_b1b34dfe_mgf1_ocsp_bu.Names.{check_name_constraints}
use ab_b1b34dfe_mgf1_ocsp_bu.Policy.{PolicyResult, evaluate_policies}
use ab_b1b34dfe_mgf1_ocsp_bu.Graph.{Explored, Branch}
use ab_b1b34dfe_mgf1_ocsp_bu.Graph.Search.{
  SearchResult, path_found, rejected, out_of_budget, search,
}
use ab_b1b34dfe_mgf1_ocsp_bu.Revocation.{EvalState, Outcome, Disposition}
use ab_b1b34dfe_mgf1_ocsp_bu.Revocation.Evaluate.{status}
use ab_b1b34dfe_mgf1_ocsp_bu.Adjudicate.{
  Entry, Input, World, entry_of, is_cert, explorer, anchor_reachable, ski_of, aki_of, fps_where,
}

-- the record of the artifact's signature: whether it is valid, or why not
pub data Artifact : Type 0 where
  artifact_valid artifact_invalid key_mismatch key_unsupported : Artifact

abbrev pub is_valid : Artifact → Bool
is_valid artifact_valid = true
is_valid _ = false

abbrev pub is_unsupported : Artifact → Bool
is_unsupported key_unsupported = true
is_unsupported _ = false

-- `{"algorithm": alg}` with `"hash"` for all but Ed25519
abbrev pub artifact_descriptor : String → SigAlg
artifact_descriptor alg = record {
  algorithm = alg;
  hash = if str_eq alg "ed25519" then none else some "sha256";
  pss = none;
}

-- what a run answers
pub record Verdict : Type 0 where
  pub verdict : String
  pub artifact : Artifact
  -- the path, or `exploration_complete` and the branches of the rejection proof
  pub decision : SearchResult
  -- the results of the name constraints and the policies, for a path
  pub path_rules : Option (Option RuleFailure × PolicyResult)
  pub revocation : List (String × Outcome)
  pub accounting : List Disposition

-- the result with the objects that it rests on, or an exception
pub data Ran : Type 0 where
  answered : Verdict → List Entry → Ran
  leaf_not_found resource_exhausted : Ran
  -- the fuel of the loop is used up
  unsettled : Ran

-- `by_subject` and the rest start empty
abbrev pub unexplored : Explored EvalState
unexplored = record {
  rev = record { cache = []; outcomes = []; accounting = []; touched = [] };
  sig_cache = [];
  touched = [];
  branches = [];
  budget = 0;
  cutoff = false;
}

abbrev pub disposition_le : Disposition → Disposition → Bool
disposition_le a b =
    if str_eq a.fingerprint b.fingerprint
    then str_le a.reason b.reason
    else str_le a.fingerprint b.fingerprint

abbrev pub branches_of : SearchResult → List Branch
branches_of (rejected complete branches) = branches
branches_of _ = []

abbrev pub has_path : SearchResult → Bool
has_path (path_found path) = true
has_path _ = false

abbrev pub some_findings : List Finding → Bool
some_findings [] = false
some_findings (f ∷ fs) = true

module _ (w : World) (inp : Input) where
  -- `_check_artifact_signature`
  unfoldable pub check_artifact_signature : CertInfo → Artifact
  unfolding artifact_algorithm_matches_key verify_signature
  check_artifact_signature leaf = elim leaf.key_alg [
    | none ↦ key_unsupported
    | some key ↦
        if artifact_algorithm_matches_key inp.signature_algorithm (some key)
        then (if verify_signature w.pub_verify leaf.public_key
              (artifact_descriptor inp.signature_algorithm) inp.signature inp.message
            then artifact_valid
            else artifact_invalid)
        else key_mismatch
  ]

  -- the fingerprints that a search has touched
  abbrev pub touched_fps : Explored EvalState → List String
  touched_fps st = inp.leaf_fingerprint ∷ (st.touched ++ st.rev.touched)

  abbrev pub is_touched : Explored EvalState → Entry → Bool
  is_touched st e = str_mem e.fingerprint (touched_fps st)

  unfoldable pub explore_once : List Entry → SearchResult × Explored EvalState
  unfolding search status anchor_reachable ski_of aki_of fps_where
  explore_once active = search (explorer active w inp) inp.leaf_fingerprint unexplored

  abbrev pub verdict_of : Artifact → CertInfo → SearchResult → String
  verdict_of artifact leaf result =
      if is_valid artifact && has_path result
      then "VALID"
      else if is_unsupported artifact
          || some_findings leaf.unsupported
          || any (λ (b : Branch). str_eq b.failure.code "UNSUPPORTED") (branches_of result)
      then "UNSUPPORTED"
      else "INVALID"

  abbrev pub rules_of : SearchResult → Option (Option RuleFailure × PolicyResult)
  rules_of (path_found path) =
      let certs = map w.get_cert path in
      some (check_name_constraints w.hostname certs, evaluate_policies certs inp.initial_policy_set)
  rules_of _ = none

  -- the result of the search that ended the loop
  unfoldable pub conclude : List Entry → SearchResult × Explored EvalState → Ran
  unfolding check_artifact_signature check_name_constraints evaluate_policies
  conclude active (out_of_budget, st) = resource_exhausted
  conclude active (result, st) =
      let leaf = w.get_cert inp.leaf_fingerprint in
      answered
        (record {
          verdict = verdict_of (check_artifact_signature leaf) leaf result;
          artifact = check_artifact_signature leaf;
          decision = result;
          path_rules = rules_of result;
          revocation = sort_by (λ a b. str_le a.0 b.0) st.rev.outcomes;
          accounting = sort_by disposition_le (map (λ e. e.1) st.rev.accounting);
        })
        active

  abbrev pub gives_up : SearchResult → Bool
  gives_up out_of_budget = true
  gives_up _ = false

  -- the loop of `run`: until a search has touched all that it was given
  unfoldable pub settle : ℕ → List Entry → Ran
  unfolding explore_once conclude
  settle zero active = unsettled
  settle (suc fuel) active =
      let (result, st) = explore_once active in
      let again = settle fuel (select (is_touched st) active) in
      if gives_up result || all (is_touched st) active then conclude active (result, st) else again

  abbrev pub found_leaf : List Entry → Option Entry → Ran
  found_leaf objects none = leaf_not_found
  found_leaf objects (some e) =
      if is_cert e.meta then settle (suc (length objects)) objects else leaf_not_found

  -- `run_engine`
  unfoldable pub run_engine : List Entry → Ran
  unfolding settle entry_of
  run_engine objects = found_leaf objects (entry_of objects inp.leaf_fingerprint)
