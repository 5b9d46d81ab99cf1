-- ===== src/Graph/Rules.antt =====
-- What the rules of app/graph.py ask of a leaf and of an extension, as facts about certificates.
use ab_b1b34dfe_mgf1_ocsp_bu.Prelude.{
  ℕ, ◌≤◌, String, List, [], Option, none, some, true, ◌≡◌, refl, ◌↔◌, arith, str_mem_iff, eq_iff,
  In,
}
use ab_b1b34dfe_mgf1_ocsp_bu.Cert.{CertInfo}
use ab_b1b34dfe_mgf1_ocsp_bu.Graph.{Explorer, Failure}
use ab_b1b34dfe_mgf1_ocsp_bu.Graph.Checks.{
  or_rule, fail_rule, profile_failure, validity_failure, usage_failure, eku_failure, signature_ok,
  leaf_prechecks, pathlen_failure, parent_failure, revocation_failure, cas_below, eku_code_signing,
}
use ab_b1b34dfe_mgf1_ocsp_bu.Graph.Route.{edge_failure}

-- a key usage extension, where there is one, lists the usage
abbrev pub Allows : Option (List String) → String → Type 0
Allows none usage = Unit
Allows (some usages) usage = In usage usages

-- an extended key usage extension is there and lists the purpose
abbrev pub Lists : Option (List String) → String → Type 0
Lists none purpose = ⊥
Lists (some purposes) purpose = In purpose purposes

abbrev pub AtMost : ℕ → Option ℕ → Type 0
AtMost n none = Unit
AtMost n (some k) = n ≤ k

pub record IsValidAt (signed_at : ℕ) (c : CertInfo) : Type 0 where
  pub from : c.not_before ≤ signed_at
  pub until : signed_at ≤ c.not_after

-- a leaf that may sign code
pub record IsSigner (signed_at : ℕ) (c : CertInfo) : Type 0 where
  pub supported : c.unsupported ≡ []
  pub valid : IsValidAt signed_at c
  pub usage : Allows c.key_usage "digitalSignature"
  pub purpose : Lists c.eku eku_code_signing

pub profile_iff : (c : CertInfo) → (profile_failure c ≡ none) ↔ (c.unsupported ≡ [])
unfolding profile_failure
profile_iff c = ground arith

pub validity_iff : (t : ℕ) (c : CertInfo) → (validity_failure t c ≡ none) ↔ IsValidAt t c
unfolding validity_failure
validity_iff t c = (λ h. record { from = ground arith; until = ground arith }, λ h. ground arith)

pub usage_iff :
    (usages : Option (List String)) (usage fp rule code : String)
    → (usage_failure usages usage (fail_rule fp rule code) ≡ none) ↔ Allows usages usage
unfolding usage_failure
usage_iff none usage fp rule code = (λ h. tt, λ h. refl)
usage_iff (some usages) usage fp rule code = ground (arith, str_mem_iff usage usages)

purpose_iff :
    (fp : String) (eku : Option (List String)) (c : CertInfo)
    → c.eku ≡ eku
    → (eku_failure c ≡ none) ↔ Lists eku eku_code_signing
unfolding eku_failure
purpose_iff fp none c e = ground arith
purpose_iff fp (some eku) c e = ground (arith, str_mem_iff eku_code_signing eku)

or_rule_iff : (f g : Option Failure) → (or_rule f g ≡ none) ↔ ((f ≡ none) × (g ≡ none))
or_rule_iff none g = (λ h. (refl, h), λ h. h.1)
or_rule_iff (some f) g = (λ h. cc, λ h. cc)

module _ {E : Type 0} (x : Explorer E) where
  open x use {get_cert, signed_at}

  -- The leaf's rules hold exactly of a certificate that may sign code at `signed_at`.
  pub leaf_prechecks_iff :
      (leaf : CertInfo) → (leaf_prechecks x leaf ≡ none) ↔ IsSigner signed_at leaf
  unfolding leaf_prechecks
  leaf_prechecks_iff leaf = ground (
    arith,
    profile_iff leaf,
    validity_iff signed_at leaf,
    usage_iff leaf.key_usage "digitalSignature" leaf.fingerprint "KEY_USAGE" "NO_DIGITAL_SIGNATURE",
    purpose_iff leaf.fingerprint leaf.eku leaf refl,
  )

  -- An extension of the path `path` by the issuer `p`: it is in profile, its key verifies the
  -- signature, it is valid, a CA that may sign certificates and with room for the CAs below it, and
  -- the certificate `cur` is not revoked under it.
  pub record IsLink (answer : String → String → String) (cur p : String) (path : List String)
      : Type 0 where
    pub supported : (get_cert p).unsupported ≡ []
    pub signed : signature_ok x (get_cert cur) (get_cert p) ≡ true
    pub valid : IsValidAt signed_at (get_cert p)
    pub ca : (get_cert p).is_ca ≡ true
    pub usage : Allows (get_cert p).key_usage "keyCertSign"
    pub room : AtMost (cas_below x path) (get_cert p).path_len
    pub good : answer cur p ≡ "GOOD"

  room_iff :
      (c : CertInfo) (path : List String) (k : Option ℕ)
      → c.path_len ≡ k
      → (pathlen_failure x c path ≡ none) ↔ AtMost (cas_below x path) k
  unfolding pathlen_failure
  room_iff c path none e = ground arith
  room_iff c path (some k) e = (λ h. ground arith, λ h. ground arith)

  good_iff :
      (c : CertInfo) (status : String) → (revocation_failure x c status ≡ none) ↔ (status ≡ "GOOD")
  unfolding revocation_failure
  good_iff c status = ground (arith, eq_iff status "GOOD")

  parent_iff :
      (c : CertInfo) (path : List String)
      → (parent_failure x c path ≡ none) ↔ (
          IsValidAt signed_at c
          × (c.is_ca ≡ true)
          × Allows c.key_usage "keyCertSign"
          × AtMost (cas_below x path) c.path_len)
  unfolding parent_failure
  parent_iff c path = ground (
    arith,
    validity_iff signed_at c,
    usage_iff c.key_usage "keyCertSign" c.fingerprint "KEY_USAGE" "NO_KEY_CERT_SIGN",
    room_iff c path c.path_len refl,
  )

  -- The rules of an extension hold exactly of a valid link.
  pub edge_failure_iff :
      (answer : String → String → String) (cur p : String) (path : List String)
      → (edge_failure x answer cur p path ≡ none) ↔ IsLink answer cur p path
  unfolding edge_failure
  edge_failure_iff answer cur p path = ground (
    arith,
    profile_iff (get_cert p),
    parent_iff (get_cert p) path,
    good_iff (get_cert cur) (answer cur p),
  )
