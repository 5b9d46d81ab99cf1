-- ===== src/Graph/Sound.antt =====
-- What a path returned by `search` of app/graph.py is, in terms of certificates.
use ab_b1b34dfe_mgf1_ocsp_bu.Prelude.{
  suc, ◌≤◌, ◌<◌, String, List, [], ◌∷◌, none, true, not, ◌≡◌, refl, inl, inr, arith, str_mem,
  str_mem_iff, str_le, In, In-select, In-sort_by, select, length, map, subst,
}
use ab_b1b34dfe_mgf1_ocsp_bu.Cert.{CertInfo}
use ab_b1b34dfe_mgf1_ocsp_bu.Names.{check_name_constraints}
use ab_b1b34dfe_mgf1_ocsp_bu.Policy.{PolicyResult, evaluate_policies, pass, fail}
use ab_b1b34dfe_mgf1_ocsp_bu.Graph.{
  Explorer, Explored, rev_onto, candidates, parents_of, edge_key_matches,
}
use ab_b1b34dfe_mgf1_ocsp_bu.Graph.Checks.{
  profile_failure, validity_failure, terminal_checks, names_failure, policies_failure,
}
use ab_b1b34dfe_mgf1_ocsp_bu.Graph.Search.{path_found, search}
use ab_b1b34dfe_mgf1_ocsp_bu.Graph.Route.{IsRoute}
use ab_b1b34dfe_mgf1_ocsp_bu.Graph.Cache.{IsLawful, IsSound}
use ab_b1b34dfe_mgf1_ocsp_bu.Graph.Rules.{
  IsValidAt, IsSigner, IsLink, profile_iff, validity_iff, leaf_prechecks_iff, edge_failure_iff,
}
use ab_b1b34dfe_mgf1_ocsp_bu.Graph.Optimal.{Answered, search-Answered}

-- no element occurs twice
abbrev pub IsDistinct : List String → Type 0
IsDistinct [] = Unit
IsDistinct (s ∷ ss) = (In s ss → ⊥) × IsDistinct ss

module _ {E : Type 0} (x : Explorer E) (answer : String → String → String) where
  open x use {get_cert, anchors, signed_at, hostname, initial_policy_set, by_subject}

  -- a trust anchor that is in profile and valid, and a path to it that keeps the name constraints
  -- and the policies
  pub record IsTop (cur : String) (path : List String) : Type 0 where
    pub trusted : In cur anchors
    pub supported : (get_cert cur).unsupported ≡ []
    pub valid : IsValidAt signed_at (get_cert cur)
    pub names : check_name_constraints hostname (map get_cert path) ≡ none
    pub policies :
        (accepted : List String) × (evaluate_policies (map get_cert path) initial_policy_set
          ≡ pass accepted)

  -- the chain of links from `cur`, after the path `below`, to the first trust anchor
  abbrev pub IsChain : String → List String → List String → Type 0
  IsChain cur below [] = IsTop cur (rev_onto (cur ∷ below) [])
  IsChain cur below (p ∷ rest) =
      (In cur anchors → ⊥)
      × In p (by_subject (get_cert cur).issuer_hex)
      × IsLink x answer cur p (rev_onto (cur ∷ below) [])
      × IsChain p (cur ∷ below) rest

  names_pass :
      (path : List CertInfo)
      → names_failure x path ≡ none
      → check_name_constraints hostname path ≡ none
  unfolding names_failure
  names_pass path h = ground arith

  policies_pass :
      (path : List CertInfo)
      → policies_failure x path ≡ none
      → (accepted : List String) × (evaluate_policies path initial_policy_set ≡ pass accepted)
  unfolding policies_failure
  policies_pass path h = by_result (evaluate_policies path initial_policy_set) refl
    where
      by_result :
          (r : PolicyResult)
          → evaluate_policies path initial_policy_set ≡ r
          → (accepted : List String) × (evaluate_policies path initial_policy_set ≡ pass accepted)
      by_result (pass accepted) e = (accepted, e)
      by_result (fail f) e = absurd (ground arith)

  terminal_parts :
      (cur : String) (path : List String)
      → terminal_checks x cur path ≡ none
      → (profile_failure (get_cert cur) ≡ none)
        × (validity_failure signed_at (get_cert cur) ≡ none)
        × (names_failure x (map get_cert path) ≡ none)
        × (policies_failure x (map get_cert path) ≡ none)
  unfolding terminal_checks
  terminal_parts cur path e = ground arith

  route-IsTop :
      (cur : String) (path : List String)
      → str_mem cur anchors ≡ true
      → terminal_checks x cur path ≡ none
      → IsTop cur path
  route-IsTop cur path a e =
      let (p, v, n, q) = terminal_parts cur path e in
      record {
        trusted = (str_mem_iff cur anchors).0 a;
        supported = (profile_iff (get_cert cur)).0 p;
        valid = (validity_iff signed_at (get_cert cur)).0 v;
        names = names_pass (map get_cert path) n;
        policies = policies_pass (map get_cert path) q;
      }

  candidate-In :
      (cur : String) (below : List String) (p : String)
      → In p (candidates x cur below)
      → In p (by_subject (get_cert cur).issuer_hex) × (In p (cur ∷ below) → ⊥)
  unfolding candidates parents_of
  candidate-In cur below p m = ground (
    arith,
    In-select (λ fp. not (str_mem fp (cur ∷ below))) p (parents_of x (get_cert cur)),
    In-sort_by str_le p (
        select (edge_key_matches x (get_cert cur).fingerprint)
          (by_subject (get_cert cur).issuer_hex)),
    In-select (edge_key_matches x (get_cert cur).fingerprint) p
        (by_subject (get_cert cur).issuer_hex),
    str_mem_iff p (cur ∷ below),
  )

  -- a route visits no certificate of the path before it, and none twice
  route-fresh :
      (cur : String) (below rest : List String)
      → IsRoute x answer cur below rest
      → (q : String) → In q rest
      → In q (cur ∷ below)
      → ⊥
  route-fresh cur below (p ∷ rest) (a, step, r) q (inl e) m =
      (candidate-In cur below p step.candidate).1 (subst (λ v. In v (cur ∷ below)) e m)
  route-fresh cur below (p ∷ rest) (a, step, r) q (inr i) m =
      route-fresh p (cur ∷ below) rest r q i (inr m)
  route-fresh cur below [] r q i m = i

  route-IsDistinct :
      (cur : String) (below rest : List String)
      → IsRoute x answer cur below rest
      → IsDistinct (cur ∷ rest)
  route-IsDistinct cur below [] r = (λ m. m, tt)
  route-IsDistinct cur below (p ∷ rest) r = (
    λ m. route-fresh cur below (p ∷ rest) r cur m (inl refl),
    route-IsDistinct p (cur ∷ below) rest r.2,
  )

  route-IsChain :
      (cur : String) (below rest : List String)
      → IsRoute x answer cur below rest
      → IsChain cur below rest
  route-IsChain cur below [] r = route-IsTop cur (rev_onto (cur ∷ below) []) r.0 r.1
  route-IsChain cur below (p ∷ rest) (a, step, r) = (
    λ m. ground (arith, (str_mem_iff cur anchors).1 m),
    (candidate-In cur below p step.candidate).0,
    (edge_failure_iff x answer cur p (rev_onto (cur ∷ below) [])).0 step.passes,
    route-IsChain p (cur ∷ below) rest r,
  )

  -- A path that `search` returns, with a lawful evaluator and a positive depth limit, starts at the
  -- leaf, which may sign code; each further certificate is an issuer candidate by name that the
  -- certificate before it is validly linked to; only the last is a trust anchor, valid and in
  -- profile, and the path keeps the name constraints and the policies; no certificate occurs twice,
  -- and there are at most `max_path_len + 1`.
  pub search_sound :
      (leaf : String) (Ok : E → Type 0) (st : Explored E) (path : List String)
      → IsLawful x Ok answer
      → 0 < x.max_path_len
      → IsSound x Ok st
      → (search x leaf st).0 ≡ path_found path
      → (rest : List String) × (path ≡ leaf ∷ rest)
        × IsSigner signed_at (get_cert leaf)
        × IsChain leaf [] rest
        × IsDistinct path
        × (length path ≤ suc x.max_path_len)
  search_sound leaf Ok st path law pos s e =
      let (rest, p, a, len, best) =
        subst (Answered x answer leaf) e (search-Answered x answer leaf Ok law pos st s) in
      (
        rest,
        p,
        (leaf_prechecks_iff x (get_cert leaf)).0 a.0,
        route-IsChain leaf [] rest a.1,
        rw p (route-IsDistinct leaf [] rest a.1),
        rw p (omega arith),
      )
