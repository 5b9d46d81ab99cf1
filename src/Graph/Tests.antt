-- ===== src/Graph/Tests.antt =====
-- A small graph on which the search runs, and the theorems about the search at it.
use ab_b1b34dfe_mgf1_ocsp_bu.Prelude.{
  ◌≤◌, ◌≢◌, length, String, List, [], ◌∷◌, none, true, false, ◌≡◌, refl, str_eq, if◌then◌else◌,
  arith,
}
use ab_b1b34dfe_mgf1_ocsp_bu.Samples.{cert}
use ab_b1b34dfe_mgf1_ocsp_bu.Graph.{Explorer, Explored, candidates}
use ab_b1b34dfe_mgf1_ocsp_bu.Graph.Checks.{edge_checks, terminal_checks}
use ab_b1b34dfe_mgf1_ocsp_bu.Graph.Search.{path_found, out_of_budget, search}
use ab_b1b34dfe_mgf1_ocsp_bu.Graph.Rules.{IsSigner}
use ab_b1b34dfe_mgf1_ocsp_bu.Graph.Optimal.{Answered, search-Answered}
use ab_b1b34dfe_mgf1_ocsp_bu.Graph.Sound.{IsChain, IsDistinct, search_sound}
use ab_b1b34dfe_mgf1_ocsp_bu.Graph.Fits.{dfs_cost}
use ab_b1b34dfe_mgf1_ocsp_bu.Graph.Candidates.{length-candidates}
use ab_b1b34dfe_mgf1_ocsp_bu.Graph.Budget.{deepen_cost, search-ne-out_of_budget}

-- "leaf" is issued by "mid" and by "top", and "mid" by "top"
abbrev small : Explorer (Unit {0})
small = record {
  get_cert = λ fp. cert fp (if str_eq fp "leaf" then "mid" else "top");
  by_subject = λ hex. if str_eq hex "mid" then "top" ∷ "mid" ∷ [] else "top" ∷ [];
  meta_ski = λ fp. none;
  meta_aki = λ fp. none;
  anchors = "top" ∷ [];
  anchor_reachable = "top" ∷ "mid" ∷ "leaf" ∷ [];
  signed_at = 50;
  initial_policy_set = "anyPolicy" ∷ [];
  status = λ c p e. ("GOOD", e);
  max_path_len = 32;
  max_branches = 65536;
  hostname = λ uri. none;
  pub_verify = λ key scheme signature message. true;
}

abbrev fresh : Explored (Unit {0})
fresh = record { rev = tt; sig_cache = []; touched = []; branches = []; budget = 0; cutoff = false }

search-small : (search small "leaf" fresh).0 ≡ path_found ("leaf" ∷ "top" ∷ [])
unfolding search candidates edge_checks terminal_checks
search-small = refl

search-Answered_example : Answered small (λ a b. "GOOD") "leaf" (search small "leaf" fresh).0
search-Answered_example =
    search-Answered small (λ a b. "GOOD") "leaf" (λ e. Unit)
      (record { answers = λ a b e h. (refl, tt); named = λ fp. refl }) (omega arith) fresh
      (record { rev_ok = tt; cache = tt })

-- the same graph with a lower depth limit, so that its cost fits the budget
abbrev shallow : Explorer (Unit {0})
shallow = record small { max_path_len = 4 }

-- no candidate list is longer than the list of certificates of the issuer's name
shallow_few : (cur : String) (below : List String) → length (candidates shallow cur below) ≤ 2
shallow_few cur below = omega (arith, length-candidates shallow cur below, two_at_most cur)
  where
    two_at_most :
        (cur : String)
        → length (shallow.by_subject (if str_eq cur "leaf" then "mid" else "top")) ≤ 2
    two_at_most cur = ground arith

search-ne-out_of_budget_example : (search shallow "leaf" fresh).0 ≢ out_of_budget
unfolding dfs_cost deepen_cost
search-ne-out_of_budget_example =
    search-ne-out_of_budget shallow 2 shallow_few "leaf" fresh (omega arith) (omega arith)

search_sound_example :
    (rest : List String) × (◌≡◌ {A = List String} ("leaf" ∷ "top" ∷ []) ("leaf" ∷ rest))
    × IsSigner 50 (cert "leaf" "mid")
    × IsChain small (λ a b. "GOOD") "leaf" [] rest
    × IsDistinct ("leaf" ∷ "top" ∷ [])
    × (2 ≤ 33)
search_sound_example =
    search_sound small (λ a b. "GOOD") "leaf" (λ e. Unit) fresh ("leaf" ∷ "top" ∷ [])
      (record { answers = λ a b e h. (refl, tt); named = λ fp. refl }) (omega arith)
      (record { rev_ok = tt; cache = tt }) search-small
