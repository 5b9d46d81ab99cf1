-- ===== src/Graph/Route.antt =====
-- What the search looks for, with no reference to the search: a route from a certificate up to a
-- trust anchor on which every rule holds, and the order of routes.
use ab_b1b34dfe_mgf1_ocsp_bu.Prelude.{
  String, List, [], ◌∷◌, Option, none, Bool, true, false, ◌||◌, ◌≡◌, if◌then◌else◌, str_eq, str_mem,
  str_le, In,
}
use ab_b1b34dfe_mgf1_ocsp_bu.Graph.{Explorer, Failure, rev_onto, candidates}
use ab_b1b34dfe_mgf1_ocsp_bu.Graph.Checks.{
  or_rule, profile_failure, signature_failure, signature_ok, parent_failure, revocation_failure,
  terminal_checks,
}

-- the first sequence is lexicographically at most the second
unfoldable pub lex_le : List String → List String → Bool
lex_le [] ys = true
lex_le (x ∷ xs) [] = false
lex_le (x ∷ xs) (y ∷ ys) = if str_eq x y then lex_le xs ys else str_le x y

-- `answer` is the revocation status of a certificate under an issuer, as a function.
module _ {E : Type 0} (x : Explorer E) (answer : String → String → String) where
  open x use {get_cert, anchors, anchor_reachable}

  -- the first failing rule of an extension, with no cache and no evaluator state
  unfoldable pub edge_failure : String → String → List String → Option Failure
  unfolding profile_failure signature_ok parent_failure revocation_failure
  edge_failure cur p path = or_rule (profile_failure (get_cert p)) (
      or_rule (signature_failure x (get_cert cur) (signature_ok x (get_cert cur) (get_cert p))) (
        or_rule (parent_failure x (get_cert p) path)
          (revocation_failure x (get_cert cur) (answer cur p))))

  -- every rule of the extension of a path by `p` holds, and `p` can lead to an anchor
  pub record IsStep (cur : String) (below : List String) (p : String) : Type 0 where
    pub candidate : In p (candidates x cur below)
    pub passes : edge_failure cur p (rev_onto (cur ∷ below) []) ≡ none
    pub leads : str_mem p anchors || str_mem p anchor_reachable ≡ true

  -- `rest` leads from `cur`, after the path `below`, to its first trust anchor
  abbrev pub IsRoute : String → List String → List String → Type 0
  IsRoute cur below [] =
      (str_mem cur anchors ≡ true) × (terminal_checks x cur (rev_onto (cur ∷ below) []) ≡ none)
  IsRoute cur below (p ∷ rest) =
      (str_mem cur anchors ≡ false) × IsStep cur below p × IsRoute p (cur ∷ below) rest
