-- ===== src/Profile.antt =====
-- app/profile.py: the limits, the algorithm descriptors and signature verification. The
-- verification of a public key object is the `cryptography` package's: it is the parameter
-- `pub_verify`, of the key, the scheme it is called with, the signature and the message, and false
-- stands for any exception that it raises.
use text.Mathlib.Text.{starts_with}
use ab_b1b34dfe_mgf1_ocsp_bu.Prelude.{
  ℕ, String, List, [], ◌∷◌, Option, none, some, Bool, false, ◌||◌, ltb, if◌then◌else◌, str_eq,
  str_mem, opt_str_eq,
}
use ab_b1b34dfe_mgf1_ocsp_bu.Cert.{Bytes, SigAlg, KeyAlg}

abbrev pub max_path_len : ℕ
max_path_len = 32

abbrev pub max_explored_branches : ℕ
max_explored_branches = 65536

abbrev pub alg_ecdsa_p256_sha256 : String
alg_ecdsa_p256_sha256 = "ecdsa-p256-sha256"

abbrev pub alg_ed25519 : String
alg_ed25519 = "ed25519"

abbrev pub oid_rsassa_pss : String
oid_rsassa_pss = "1.2.840.113549.1.1.10"

abbrev pub oid_ecdsa_sha256 : String
oid_ecdsa_sha256 = "1.2.840.10045.4.3.2"

abbrev pub oid_ed25519 : String
oid_ed25519 = "1.3.101.112"

-- the keys of `_HASH_BY_NAME` and `_PSS_BY_HASH`
abbrev pub hash_names : List String
hash_names = "sha256" ∷ "sha384" ∷ "sha512" ∷ []

unfoldable pub pss_by_hash : String → Option String
pss_by_hash name =
    if str_eq name "sha256"
    then some "rsa-pss-sha256"
    else if str_eq name "sha384"
    then some "rsa-pss-sha384"
    else if str_eq name "sha512"
    then some "rsa-pss-sha512"
    else none

-- parsed parameters: the MGF's hash name and the salt length of `padding.PSS`, or something else
pub data SigParams : Type 0 where
  pss_params : Option String → ℕ → SigParams
  other_params : SigParams

unfoldable pub pss_descriptor : String → Option SigParams → String → Option SigAlg
pss_descriptor name (some (pss_params mgf salt)) algorithm =
    if opt_str_eq mgf (some name)
    then some (record { algorithm = algorithm; hash = some name; pss = some (mgf, salt) })
    else none
pss_descriptor name (some other_params) algorithm =
    some (record { algorithm = algorithm; hash = some name; pss = none })
pss_descriptor name none algorithm =
    some (record { algorithm = algorithm; hash = some name; pss = none })

-- `hash_alg` is the name of the hash, where the library found one
unfoldable pub signature_algorithm_descriptor :
    String → Option SigParams → Option String → Option SigAlg
unfolding pss_by_hash pss_descriptor
signature_algorithm_descriptor sig_oid sig_params hash_alg =
    if str_eq sig_oid oid_rsassa_pss
    then elim hash_alg [
      | none ↦ none
      | some name ↦ elim (pss_by_hash name) [
        | none ↦ none
        | some algorithm ↦ pss_descriptor name sig_params algorithm
      ]
    ]
    else if str_eq sig_oid oid_ecdsa_sha256
    then some (record { algorithm = alg_ecdsa_p256_sha256; hash = some "sha256"; pss = none })
    else if str_eq sig_oid oid_ed25519
    then some (record { algorithm = alg_ed25519; hash = none; pss = none })
    else none

-- the kinds of key object that the code tells apart; the name is that of the curve
pub data PublicKey : Type 0 where
  rsa : ℕ → PublicKey
  elliptic : String → PublicKey
  ed25519 : PublicKey
  other_key : PublicKey

unfoldable pub public_key_descriptor : PublicKey → Option KeyAlg
public_key_descriptor (rsa bits) =
    if ltb bits 2048 || ltb 8192 bits
    then none
    else some (record { algorithm = "rsa"; key_size = bits })
public_key_descriptor (elliptic curve) =
    if str_eq curve "secp256r1"
    then some (record { algorithm = "ec-p256"; key_size = 256 })
    else none
public_key_descriptor ed25519 = some (record { algorithm = "ed25519"; key_size = 256 })
public_key_descriptor other_key = none

-- what `pub.verify` is asked for: PSS names the hash of the MGF and the hash of the message
pub data Scheme : Type 0 where
  pss : String → String → Scheme
  ecdsa_sha256 : Scheme
  pure_ed25519 : Scheme

abbrev pub PubVerify : Type 0
PubVerify = Bytes → Scheme → Bytes → Bytes → Bool

unfoldable pub verify_signature : PubVerify → Bytes → SigAlg → Bytes → Bytes → Bool
verify_signature pub_verify key descriptor signature message =
    if starts_with descriptor.algorithm "rsa-pss-"
    then elim descriptor.hash [
      | none ↦ false
      | some name ↦
          if str_mem name hash_names
          then pub_verify key (pss name name) signature message
          else false
    ]
    else if str_eq descriptor.algorithm alg_ecdsa_p256_sha256
    then pub_verify key ecdsa_sha256 signature message
    else if str_eq descriptor.algorithm alg_ed25519
    then pub_verify key pure_ed25519 signature message
    else false

unfoldable pub artifact_algorithm_matches_key : String → Option KeyAlg → Bool
artifact_algorithm_matches_key alg none = false
artifact_algorithm_matches_key alg (some key) =
    if str_eq alg "rsa-pss-sha256"
    then str_eq key.algorithm "rsa"
    else if str_eq alg alg_ecdsa_p256_sha256
    then str_eq key.algorithm "ec-p256"
    else if str_eq alg alg_ed25519
    then str_eq key.algorithm "ed25519"
    else false
