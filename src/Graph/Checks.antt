-- ===== src/Graph/Checks.antt =====
-- The rules of app/graph.py: `_leaf_prechecks`, `_edge_checks` and `_terminal_checks`.
use ab_b1b34dfe_mgf1_ocsp_bu.Prelude.{
  ℕ, suc, String, List, [], ◌∷◌, Option, none, some, Bool, true, false, not, ◌&&◌, ltb,
  if◌then◌else◌, str_eq, str_mem, map,
}
use ab_b1b34dfe_mgf1_ocsp_bu.Cert.{CertInfo, self_issued}
use ab_b1b34dfe_mgf1_ocsp_bu.Profile.{verify_signature}
use ab_b1b34dfe_mgf1_ocsp_bu.Names.{check_name_constraints}
use ab_b1b34dfe_mgf1_ocsp_bu.Policy.{evaluate_policies, pass, fail}
use ab_b1b34dfe_mgf1_ocsp_bu.Graph.{Explorer, Failure, Explored}

abbrev pub eku_code_signing : String
eku_code_signing = "1.3.6.1.5.5.7.3.3"

abbrev pub fail_rule : String → String → String → Option Failure
fail_rule fp rule code = some (record { certificate = fp; rule = rule; code = code })

abbrev pub or_rule : Option Failure → Option Failure → Option Failure
or_rule (some f) later = some f
or_rule none later = later

unfoldable pub profile_failure : CertInfo → Option Failure
profile_failure c = elim c.unsupported [
  | [] ↦ none
  | f ∷ fs ↦ fail_rule c.fingerprint "CERT_PROFILE" "UNSUPPORTED"
]

unfoldable pub validity_failure : ℕ → CertInfo → Option Failure
validity_failure signed_at c =
    if ltb signed_at c.not_before
    then fail_rule c.fingerprint "VALIDITY" "NOT_YET_VALID"
    else if ltb c.not_after signed_at
    then fail_rule c.fingerprint "VALIDITY" "EXPIRED"
    else none

-- a usage that the extension, where there is one, does not list
unfoldable pub usage_failure : Option (List String) → String → Option Failure → Option Failure
usage_failure none usage f = none
usage_failure (some usages) usage f = if str_mem usage usages then none else f

unfoldable pub eku_failure : CertInfo → Option Failure
eku_failure c = elim c.eku [
  | none ↦ fail_rule c.fingerprint "EKU" "MISSING_CODE_SIGNING"
  | some eku ↦
      if str_mem eku_code_signing eku
      then none
      else fail_rule c.fingerprint "EKU" "MISSING_CODE_SIGNING"
]

unfoldable pub signature_ok : {E : Type 0} → Explorer E → CertInfo → CertInfo → Bool
unfolding verify_signature
signature_ok x cert parent = elim cert.sig_alg [
  | none ↦ false
  | some alg ↦ elim parent.key_alg [
    | none ↦ false
    | some key ↦ verify_signature x.pub_verify parent.public_key alg cert.signature cert.tbs
  ]
]

unfoldable pub cached : String → String → List (String × String × Bool) → Option Bool
cached a b [] = none
cached a b ((c, d, v) ∷ rest) = if str_eq a c && str_eq b d then some v else cached a b rest

module _ {E : Type 0} (x : Explorer E) where
  open x use {get_cert, signed_at, status, anchors, initial_policy_set, hostname}

  unfoldable pub leaf_prechecks : CertInfo → Option Failure
  unfolding profile_failure validity_failure usage_failure eku_failure
  leaf_prechecks leaf = or_rule (profile_failure leaf) (
      or_rule (validity_failure signed_at leaf) (
        or_rule
          (usage_failure leaf.key_usage "digitalSignature"
            (fail_rule leaf.fingerprint "KEY_USAGE" "NO_DIGITAL_SIGNATURE"))
          (eku_failure leaf)))

  -- `below` of the path length rule: CA certificates in the path that are not self-issued
  unfoldable pub cas_below : List String → ℕ
  unfolding self_issued
  cas_below [] = 0
  cas_below (fp ∷ fps) =
      let c = get_cert fp in
      let n = cas_below fps in if c.is_ca && not (self_issued c) then suc n else n

  unfoldable pub pathlen_failure : CertInfo → List String → Option Failure
  unfolding cas_below
  pathlen_failure parent path = elim parent.path_len [
    | none ↦ none
    | some k ↦
        if ltb k (cas_below path)
        then fail_rule parent.fingerprint "PATHLEN" "PATHLEN_EXCEEDED"
        else none
  ]

  -- the rules of an extension between SIGNATURE and REVOCATION
  unfoldable pub parent_failure : CertInfo → List String → Option Failure
  unfolding validity_failure usage_failure pathlen_failure
  parent_failure parent path = or_rule (validity_failure signed_at parent) (
      or_rule
        (if parent.is_ca then none else fail_rule parent.fingerprint "BASIC_CONSTRAINTS" "NOT_A_CA")
        (or_rule
          (usage_failure parent.key_usage "keyCertSign"
            (fail_rule parent.fingerprint "KEY_USAGE" "NO_KEY_CERT_SIGN"))
          (pathlen_failure parent path)))

  abbrev pub signature_failure : CertInfo → Bool → Option Failure
  signature_failure cert true = none
  signature_failure cert false = fail_rule cert.fingerprint "SIGNATURE" "SIGNATURE_INVALID"

  unfoldable pub revocation_failure : CertInfo → String → Option Failure
  revocation_failure cert status =
      if str_eq status "GOOD" then none else fail_rule cert.fingerprint "REVOCATION" status

  -- with the cache of verified edges
  unfoldable pub verify_edge_signature : CertInfo → CertInfo → Explored E → Bool × Explored E
  unfolding signature_ok cached
  verify_edge_signature cert parent st =
      elim (cached cert.fingerprint parent.fingerprint st.sig_cache) [
        | some v ↦ (v, st)
        | none ↦
            let ok = signature_ok x cert parent in
            (
              ok,
              record st { sig_cache = (cert.fingerprint, parent.fingerprint, ok) ∷ st.sig_cache },
            )
      ]

  -- the last rule: it alone calls the evaluator
  unfoldable pub check_revocation : CertInfo → CertInfo → Explored E → Option Failure × Explored E
  unfolding revocation_failure
  check_revocation cert parent st =
      let (answer, rev') = status cert parent st.rev in
      (revocation_failure cert answer, record st { rev = rev' })

  abbrev pub unless_failed :
      Option Failure
      → Explored E
      → (Explored E → Option Failure × Explored E)
      → Option Failure × Explored E
  unless_failed (some f) st k = (some f, st)
  unless_failed none st k = k st

  unfoldable pub edge_checks :
      CertInfo → CertInfo → List String → Explored E → Option Failure × Explored E
  unfolding profile_failure parent_failure verify_edge_signature check_revocation
  edge_checks cert parent path st = unless_failed (profile_failure parent) st λ st.
      let (ok, st') = verify_edge_signature cert parent st in
      unless_failed (signature_failure cert ok) st'
        λ st. unless_failed (parent_failure parent path) st (check_revocation cert parent)

  unfoldable pub names_failure : List CertInfo → Option Failure
  unfolding check_name_constraints
  names_failure path = elim (check_name_constraints hostname path) [
    | none ↦ none
    | some f ↦ fail_rule f.certificate "NAME_CONSTRAINTS" f.code
  ]

  unfoldable pub policies_failure : List CertInfo → Option Failure
  unfolding evaluate_policies
  policies_failure path = elim (evaluate_policies path initial_policy_set) [
    | pass policies ↦ none
    | fail f ↦ fail_rule f.certificate "POLICIES" f.code
  ]

  -- `path` is leaf-first, and `anchor` its last certificate
  unfoldable pub terminal_checks : String → List String → Option Failure
  unfolding profile_failure validity_failure names_failure policies_failure
  terminal_checks anchor path = or_rule (profile_failure (get_cert anchor)) (
      or_rule (validity_failure signed_at (get_cert anchor))
        (or_rule (names_failure (map get_cert path)) (policies_failure (map get_cert path))))
