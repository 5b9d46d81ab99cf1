-- ===== src/Parse.antt =====
-- The parsers of certificates (app/pki.py), CRLs and OCSP responses (app/revocation.py), over what the
-- `cryptography` package returns for some bytes, and the metadata of an object (app/objmeta.py). The
-- records here hold the attributes that the parsers read of the package's objects; `none` stands for an
-- exception that a property raises.
pub mod Crl
pub mod Ocsp
pub mod Certificates
pub mod Meta
pub mod Findings
pub mod CrlProfile
pub mod CertProfile
pub mod Samples
mod Tests
use ab_b1b34dfe_mgf1_ocsp_bu.Prelude.{
  ℕ, zero, suc, ◌/◌, ◌%◌, String, List, [], ◌∷◌, ◌++◌, Option, none, some, Bool, if◌then◌else◌,
  ◌==◌, str_eq,
}
use ab_b1b34dfe_mgf1_ocsp_bu.Cert.{Text, Bytes, Rdns, Finding, SigAlg}
use ab_b1b34dfe_mgf1_ocsp_bu.Canonical.{decimal, hex_digit}
use ab_b1b34dfe_mgf1_ocsp_bu.Profile.{SigParams, PublicKey, signature_algorithm_descriptor}
use ab_b1b34dfe_mgf1_ocsp_bu.Revocation.{CertStatus}

-- the kinds of general name that the parsers tell apart
pub data GeneralName : Type 0 where
  dns_name : Text → GeneralName
  uri : Text → GeneralName
  directory : Rdns → GeneralName
  other_name : GeneralName

pub record KeyUsage : Type 0 where
  pub digital_signature : Bool
  pub content_commitment : Bool
  pub key_encipherment : Bool
  pub data_encipherment : Bool
  pub key_agreement : Bool
  pub key_cert_sign : Bool
  pub crl_sign : Bool

-- The value of a certificate's extension, by its class; `other` has the identifier of one that is not
-- supported. The Boolean of `authority_key` tells whether an issuer or a serial number is given, and
-- that of a policy whether it has qualifiers.
pub data CertExtension : Type 0 where
  basic_constraints : Bool → Option ℕ → CertExtension
  key_usage : KeyUsage → CertExtension
  extended_key_usage : List String → CertExtension
  alternative_names : List GeneralName → CertExtension
  name_constraints : List GeneralName → List GeneralName → CertExtension
  certificate_policies : List (String × Bool) → CertExtension
  raw_policy_mappings : Bytes → CertExtension
  policy_mappings : List (String × String) → CertExtension
  policy_constraints : Option ℕ → Option ℕ → CertExtension
  inhibit_any_policy : ℕ → CertExtension
  subject_key : String → CertExtension
  authority_key : Option String → Bool → CertExtension
  other : String → CertExtension

-- the issuing distribution point: its DER in hex, whether it narrows the scope, and its names
pub record DistributionPoint : Type 0 where
  pub der_hex : String
  pub only_user : Bool
  pub only_ca : Bool
  pub only_attribute : Bool
  pub some_reasons : Bool
  pub indirect : Bool
  pub full_name : List GeneralName
  pub relative_name : Bool

pub data CrlExtension : Type 0 where
  authority_key : Option String → Bool → CrlExtension
  crl_number : ℕ → CrlExtension
  delta_indicator : ℕ → CrlExtension
  distribution_point : DistributionPoint → CrlExtension
  other : String → CrlExtension

-- a signature algorithm: its identifier, parameters and hash
pub record Signed : Type 0 where
  pub oid : String
  pub params : Option SigParams
  pub hash : Option String

-- extensions are pairs of the flag `critical` and the value
pub record X509Cert : Type 0 where
  pub signed : Signed
  -- the key with its SubjectPublicKeyInfo
  pub public_key : Option (PublicKey × Bytes)
  pub extensions : Option (List (Bool × CertExtension))
  pub subject_hex : String
  pub issuer_hex : String
  pub subject_rdns : Rdns
  pub serial_number : ℕ
  pub not_before : ℕ
  pub not_after : ℕ
  pub signature : Bytes
  pub tbs : Bytes

pub record X509Crl : Type 0 where
  pub signed : Signed
  pub extensions : Option (List (Bool × CrlExtension))
  pub issuer_hex : String
  pub last_update : ℕ
  pub next_update : Option ℕ
  pub signature : Bytes
  pub tbs : Bytes

-- a single response; its extensions are their flags `critical`, and the reason is the name of the
-- package's enumeration
pub record X509Single : Type 0 where
  pub hash_name : Option String
  pub critical_flags : List Bool
  pub status : CertStatus
  pub reason : Option String
  pub serial_number : ℕ
  pub this_update : ℕ
  pub next_update : Option ℕ
  pub revocation_time : Option ℕ
  pub issuer_name_hash : String
  pub issuer_key_hash : String

pub record X509Ocsp : Type 0 where
  pub successful : Bool
  pub sig_oid : String
  pub sig_hash : Option String
  pub critical_flags : List Bool
  -- `responses()`, and the response itself where it has a serial number
  pub responses : Option (List X509Single)
  pub own_response : Option X509Single
  pub produced_at : ℕ
  pub responder_key_hash : Option String
  pub responder_name : Option String
  pub certificates : List Bytes
  pub signature : Bytes
  pub tbs : Bytes

-- The package's loaders with `none` for an exception, the hash of bytes in hex, the text of code
-- points, and the three functions on times of the standard library that the DER reader calls.
pub record Package : Type 0 where
  pub load_cert : Bytes → Option X509Cert
  pub load_crl : Bytes → Option X509Crl
  pub load_ocsp : Bytes → Option X509Ocsp
  pub sha256_hex : Bytes → String
  pub text_of : Text → String
  pub strptime : String → Bytes → Option ℕ
  pub year : ℕ → ℕ
  pub with_year : ℕ → ℕ → Option ℕ

-- `_unsupported`; the text of `detail` is left out
abbrev pub unsupported : String → Finding
unsupported code = record { code = code; detail = "" }

abbrev pub flag : Bool → String → List Finding
flag test code = if test then unsupported code ∷ [] else []

-- the descriptor of a signature, and the finding where there is none
abbrev pub unsupported_signature : Option SigAlg → List Finding
unsupported_signature none = unsupported "UNSUPPORTED_SIGNATURE_ALGORITHM" ∷ []
unsupported_signature (some alg) = []

-- the digits of a number in base 16 before `acc`, with fuel
unfoldable pub hex_onto : ℕ → ℕ → Text → Text
unfolding hex_digit
hex_onto zero n acc = acc
hex_onto (suc fuel) n acc =
    let rest = hex_onto fuel (n / 16) (hex_digit (n % 16) ∷ acc) in if n == 0 then acc else rest

-- `format(n, "x")`
unfoldable pub hex_text : ℕ → Text
unfolding hex_onto
hex_text n = hex_onto n (n / 16) (hex_digit (n % 16) ∷ [])

-- an object identifier's arcs with dots between them
unfoldable pub dotted : List ℕ → Text
unfolding decimal
dotted [] = []
dotted (a ∷ []) = decimal a
dotted (a ∷ b ∷ arcs) = decimal a ++ (b'.' ∷ dotted (b ∷ arcs))

-- `fingerprint or sha256_hex(der)`
abbrev pub fingerprint_or : Option String → String → String
fingerprint_or none hash = hash
fingerprint_or (some fp) hash = if str_eq fp "" then hash else fp
