-- ===== src/Cert.antt =====
-- `CertInfo` of app/pki.py: what `parse_certificate` keeps of a certificate. DER names, key
-- identifiers and fingerprints are their hex texts, as the code compares them; DNS and URI names are
-- lists of code points, and times are microseconds since year 1. `sig_alg` and `key_alg` are the
-- descriptors of app/profile.py; the `cryptography` object is cut to what the code reads of it.
use ab_b1b34dfe_mgf1_ocsp_bu.Prelude.{
  ℕ, String, List, [], ◌∷◌, Option, Bool, ◌&&◌, true, false, ◌==◌, str_eq,
}

-- code points, or bytes
abbrev pub Text : Type 0
Text = List ℕ

abbrev pub Bytes : Type 0
Bytes = List ℕ

abbrev pub text_eq : Text → Text → Bool
text_eq [] [] = true
text_eq (c ∷ s) (d ∷ t) = c == d && text_eq s t
text_eq _ _ = false

-- a relative distinguished name: its (oid, value) pairs
abbrev pub Rdn : Type 0
Rdn = List (String × String)

abbrev pub Rdns : Type 0
Rdns = List Rdn

abbrev pub rdn_eq : Rdn → Rdn → Bool
rdn_eq [] [] = true
rdn_eq ((o, v) ∷ r) ((p, w) ∷ s) = str_eq o p && (str_eq v w && rdn_eq r s)
rdn_eq _ _ = false

pub record Finding : Type 0 where
  pub code : String
  pub detail : String

-- one of the two halves of `nc`: the subtrees of each kind
pub record Subtrees : Type 0 where
  pub dns : List Text
  pub uri : List Text
  pub dir : List Rdns

pub record NameConstraints : Type 0 where
  pub permitted : Subtrees
  pub excluded : Subtrees

pub record PolicyConstraints : Type 0 where
  pub require_explicit : Option ℕ
  pub inhibit_mapping : Option ℕ

-- the descriptor of a signature algorithm; `mgf_hash` and `salt_length` are there for RSASSA-PSS
-- with parsed parameters
pub record SigAlg : Type 0 where
  pub algorithm : String
  pub hash : Option String
  pub pss : Option (Option String × ℕ)

pub record KeyAlg : Type 0 where
  pub algorithm : String
  pub key_size : ℕ

pub record CertInfo : Type 0 where
  pub fingerprint : String
  pub subject_hex : String
  pub issuer_hex : String
  pub subject_rdns : Rdns
  pub serial : ℕ
  pub serial_hex : String
  pub not_before : ℕ
  pub not_after : ℕ
  pub is_ca : Bool
  pub path_len : Option ℕ
  pub key_usage : Option (List String)
  pub eku : Option (List String)
  pub san_dns : List Text
  pub san_uri : List Text
  pub san_dir : List Rdns
  pub nc : Option NameConstraints
  pub policies : Option (List String)
  pub policy_mappings : List (String × String)
  pub policy_constraints : Option PolicyConstraints
  pub inhibit_any_policy : Option ℕ
  pub ski : Option String
  pub aki_keyid : Option String
  pub key_alg : Option KeyAlg
  pub sig_alg : Option SigAlg
  pub key_fp : String
  pub public_key : Bytes
  pub signature : Bytes
  pub tbs : Bytes
  pub unsupported : List Finding

unfoldable pub self_issued : CertInfo → Bool
self_issued c = str_eq c.subject_hex c.issuer_hex

-- A path rule's result: `pass`, or the code and the certificate of the failure. The text of
-- `detail` is left out.
pub record RuleFailure : Type 0 where
  pub code : String
  pub certificate : String
