-- ===== src/Policy/Tests.antt =====
-- The theorems about policies at a path whose issuer requires an explicit policy.
use ab_b1b34dfe_mgf1_ocsp_bu.Prelude.{
  ℕ, ◌+◌, ◌≤◌, String, List, [], ◌∷◌, none, some, true, get_elem?, In, ◌≡◌, ◌↔◌, refl,
}
use ab_b1b34dfe_mgf1_ocsp_bu.Cert.{CertInfo}
use ab_b1b34dfe_mgf1_ocsp_bu.Samples.{cert}
use ab_b1b34dfe_mgf1_ocsp_bu.Policy.{
  require_explicit, constraint_of, positive_or_one, pending_at, narrow, valid_set,
  evaluate_policies, is_specific,
}
use ab_b1b34dfe_mgf1_ocsp_bu.Policy.Pending.{pending_at_iff}
use ab_b1b34dfe_mgf1_ocsp_bu.Policy.Accepted.{
  IsConcrete, evaluate_policies-IsConcrete, evaluate_policies-initial,
}

abbrev mid : CertInfo
mid = record (cert "mid" "top") {
  policies = some ("1.2" ∷ []);
  policy_constraints = some (record { require_explicit = some 0; inhibit_mapping = none });
}

abbrev leaf : CertInfo
leaf = record (cert "leaf" "mid") { policies = some ("1.2" ∷ []) }

abbrev path : List CertInfo
path = leaf ∷ mid ∷ cert "top" "top" ∷ []

pending_at_iff_example : (positive_or_one (pending_at require_explicit (mid ∷ [])) ≡ true) ↔ (
    (j k : ℕ) (c : CertInfo)
    → get_elem? (mid ∷ []) j ≡ some c
    → constraint_of require_explicit c ≡ some k
    → 1 + j ≤ k)
pending_at_iff_example = pending_at_iff require_explicit (mid ∷ [])

evaluate_policies-IsConcrete_example :
    (s : List String) × (narrow (leaf ∷ mid ∷ []) ≡ valid_set (some s)) × IsConcrete s
unfolding evaluate_policies
evaluate_policies-IsConcrete_example = evaluate_policies-IsConcrete path [] ("1.2" ∷ []) refl refl

evaluate_policies-initial_example :
    ((p : String) × In p ("1.2" ∷ []))
    × ((p : String) → In {A = String} p ("1.2" ∷ []) → In p ("1.2" ∷ []))
unfolding evaluate_policies is_specific
evaluate_policies-initial_example =
    evaluate_policies-initial path ("1.2" ∷ []) ("1.2" ∷ []) refl refl
