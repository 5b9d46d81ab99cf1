-- ===== src/Parse/Ocsp.antt =====
-- `parse_ocsp` of app/revocation.py.
use Prim.Native.String.{◌++◌ as str_append}
use ab_b1b34dfe_mgf1_ocsp_bu.Prelude.{
  ℕ, String, List, [], ◌∷◌, ◌++◌, Option, none, some, Bool, false, not, if◌then◌else◌, str_eq,
  str_mem, map, flat_map,
}
use ab_b1b34dfe_mgf1_ocsp_bu.Cert.{Bytes, Finding, SigAlg}
use ab_b1b34dfe_mgf1_ocsp_bu.Profile.{oid_rsassa_pss, hash_names, signature_algorithm_descriptor}
use ab_b1b34dfe_mgf1_ocsp_bu.Der.Algorithms.{extract_ocsp_signature_algorithm, pss_params_hash_name}
use ab_b1b34dfe_mgf1_ocsp_bu.Revocation.{CertStatus, revoked, SingleResponse, OcspInfo}
use ab_b1b34dfe_mgf1_ocsp_bu.Api.{Result, ok, ◌>>=◌, ◌>>◌, raise_if, or_raise, parse_error}
use ab_b1b34dfe_mgf1_ocsp_bu.Parse.{
  X509Single, X509Ocsp, Package, flag, unsupported_signature, fingerprint_or,
}

-- the keys of `SUPPORTED_CERTID_HASHES`
abbrev pub certid_hashes : List String
certid_hashes = "sha1" ∷ "sha256" ∷ []

-- `_ENUM_REASON_NAMES.get(name, name)`
unfoldable pub enum_reason : String → String
enum_reason name =
    if str_eq name "key_compromise"
    then "keyCompromise"
    else if str_eq name "ca_compromise"
    then "cACompromise"
    else if str_eq name "affiliation_changed"
    then "affiliationChanged"
    else if str_eq name "cessation_of_operation"
    then "cessationOfOperation"
    else if str_eq name "certificate_hold"
    then "certificateHold"
    else if str_eq name "privilege_withdrawn"
    then "privilegeWithdrawn"
    else if str_eq name "aa_compromise"
    then "aACompromise"
    else if str_eq name "remove_from_crl"
    then "removeFromCRL"
    else name

-- the descriptor of RSASSA-PSS by the name of a hash in its parameters
abbrev pub pss_alg : Option (Option String) → Option SigAlg
pss_alg (some (some name)) =
    if str_mem name hash_names
    then some (record { algorithm = str_append "rsa-pss-" name; hash = some name; pss = none })
    else none
pss_alg (some none) = none
pss_alg none = none

abbrev pub pss_hash : Option (List ℕ × Option Bytes) → Option (Option String)
pss_hash none = none
pss_hash (some (oid, none)) = some none
pss_hash (some (oid, some params)) = pss_params_hash_name params

unfoldable pub ocsp_descriptor : Bytes → X509Ocsp → Option SigAlg
unfolding extract_ocsp_signature_algorithm pss_params_hash_name signature_algorithm_descriptor
ocsp_descriptor der resp =
    if str_eq resp.sig_oid oid_rsassa_pss
    then pss_alg (pss_hash (extract_ocsp_signature_algorithm der))
    else signature_algorithm_descriptor resp.sig_oid none resp.sig_hash

abbrev pub critical_findings : List Bool → List Finding
critical_findings flags = flat_map (λ c. flag c "UNSUPPORTED_CRITICAL_EXTENSION") flags

abbrev pub hash_supported : Option String → Bool
hash_supported none = false
hash_supported (some name) = str_mem name certid_hashes

unfoldable pub single_findings : X509Single → List Finding
single_findings s =
    flag (not (hash_supported s.hash_name)) "UNSUPPORTED_CERTID_HASH"
    ++ critical_findings s.critical_flags

abbrev pub reason_of : CertStatus → Option String → Option String
reason_of revoked (some name) = some (enum_reason name)
reason_of _ _ = none

-- a certID hash without a name is the empty text here, which names no hash
abbrev pub name_or_empty : Option String → String
name_or_empty none = ""
name_or_empty (some name) = name

unfoldable pub single_response : X509Single → SingleResponse
unfolding enum_reason
single_response s = record {
  serial = s.serial_number;
  status = s.status;
  this_update = s.this_update;
  next_update = s.next_update;
  revocation_time = s.revocation_time;
  revocation_reason = reason_of s.status s.reason;
  issuer_name_hash = s.issuer_name_hash;
  issuer_key_hash = s.issuer_key_hash;
  hash_alg = name_or_empty s.hash_name;
}

-- `list(resp.responses())`, or the response itself
abbrev pub singles_of : Option (List X509Single) → Option X509Single → List X509Single
singles_of (some singles) own = singles
singles_of none (some own) = own ∷ []
singles_of none none = []

unfoldable pub parse_ocsp : Package → Bytes → Option String → Result OcspInfo
unfolding ocsp_descriptor single_findings single_response
parse_ocsp lib der fingerprint = do
  resp ← or_raise (lib.load_ocsp der) (parse_error "OCSP_PARSE_ERROR")
  raise_if (not resp.successful) (parse_error "OCSP_STATUS_NOT_SUCCESSFUL")
  let singles = singles_of resp.responses resp.own_response
  ok (record {
    fingerprint = fingerprint_or fingerprint (lib.sha256_hex der);
    produced_at = resp.produced_at;
    responses = map single_response singles;
    responder_key_hash = resp.responder_key_hash;
    responder_name = resp.responder_name;
    responder_certs = resp.certificates;
    signature = resp.signature;
    tbs = resp.tbs;
    sig_alg = ocsp_descriptor der resp;
    unsupported =
        unsupported_signature (ocsp_descriptor der resp)
        ++ (critical_findings resp.critical_flags ++ flat_map single_findings singles);
  })
