-- ===== src/Parse/Certificates.antt =====
-- `parse_certificate` of app/pki.py.
use ab_b1b34dfe_mgf1_ocsp_bu.Prelude.{
  ℕ, String, List, [], ◌∷◌, ◌++◌, Option, none, some, Bool, true, false, if◌then◌else◌, map,
  flat_map,
}
use ab_b1b34dfe_mgf1_ocsp_bu.Cert.{
  Text, Bytes, Rdns, Finding, Subtrees, NameConstraints, PolicyConstraints, SigAlg, KeyAlg,
  CertInfo,
}
use ab_b1b34dfe_mgf1_ocsp_bu.Profile.{
  PublicKey, rsa, signature_algorithm_descriptor, public_key_descriptor,
}
use ab_b1b34dfe_mgf1_ocsp_bu.Der.{parse_policy_mappings}
use ab_b1b34dfe_mgf1_ocsp_bu.Api.{Result, ok, ◌>>=◌, or_raise, parse_error, unexpected}
use ab_b1b34dfe_mgf1_ocsp_bu.Parse.{
  GeneralName, dns_name, uri, directory, other_name, KeyUsage, CertExtension, X509Cert, Package,
  unsupported, flag, unsupported_signature, fingerprint_or, hex_text, dotted,
}

abbrev pub used : Bool → String → List String
used test name = if test then name ∷ [] else []

unfoldable pub usage_names : KeyUsage → List String
usage_names u =
    used u.digital_signature "digitalSignature"
    ++ (used u.content_commitment "nonRepudiation"
        ++ (used u.key_encipherment "keyEncipherment"
            ++ (used u.data_encipherment "dataEncipherment"
                ++ (used u.key_agreement "keyAgreement"
                    ++ (used u.key_cert_sign "keyCertSign" ++ used u.crl_sign "cRLSign")))))

abbrev pub dns_in : GeneralName → List Text
dns_in (dns_name n) = n ∷ []
dns_in _ = []

abbrev pub uri_in : GeneralName → List Text
uri_in (uri u) = u ∷ []
uri_in _ = []

abbrev pub dir_in : GeneralName → List Rdns
dir_in (directory d) = d ∷ []
dir_in _ = []

abbrev pub is_other : GeneralName → Bool
is_other other_name = true
is_other _ = false

abbrev pub subtrees_of : List GeneralName → Subtrees
subtrees_of names = record {
  dns = flat_map dns_in names;
  uri = flat_map uri_in names;
  dir = flat_map dir_in names;
}

abbrev pub other_findings : String → List GeneralName → List Finding
other_findings code names = flat_map (λ n. flag (is_other n) code) names

-- what the loop over the extensions has read
pub record CertFields : Type 0 where
  pub is_ca : Bool
  pub path_len : Option ℕ
  pub key_usage : Option (List String)
  pub eku : Option (List String)
  pub san_dns : List Text
  pub san_uri : List Text
  pub san_dir : List Rdns
  pub nc : Option NameConstraints
  pub policies : Option (List String)
  pub policy_mappings : List (String × String)
  pub policy_constraints : Option PolicyConstraints
  pub inhibit_any_policy : Option ℕ
  pub ski : Option String
  pub aki_keyid : Option String
  pub unsupported : List Finding

abbrev pub no_fields : List Finding → CertFields
no_fields found = record {
  is_ca = false;
  path_len = none;
  key_usage = none;
  eku = none;
  san_dns = [];
  san_uri = [];
  san_dir = [];
  nc = none;
  policies = none;
  policy_mappings = [];
  policy_constraints = none;
  inhibit_any_policy = none;
  ski = none;
  aki_keyid = none;
  unsupported = found;
}

abbrev pub mapping_findings : Option (List (List ℕ × List ℕ)) → List Finding
mapping_findings none = unsupported "MALFORMED_POLICY_MAPPINGS" ∷ []
mapping_findings (some pairs) = []

-- the findings on an extension
unfoldable pub cert_findings : Bool → CertExtension → List Finding
unfolding parse_policy_mappings
cert_findings critical (CertExtension.alternative_names names) =
    other_findings "UNSUPPORTED_SAN_TYPE" names
cert_findings critical (CertExtension.name_constraints permitted excluded) =
    other_findings "UNSUPPORTED_NAME_CONSTRAINT_TYPE" permitted
    ++ other_findings "UNSUPPORTED_NAME_CONSTRAINT_TYPE" excluded
cert_findings critical (CertExtension.certificate_policies infos) =
    flat_map (λ i. flag i.1 "UNSUPPORTED_POLICY_QUALIFIERS") infos
cert_findings critical (CertExtension.raw_policy_mappings raw) =
    mapping_findings (parse_policy_mappings raw)
cert_findings critical (CertExtension.authority_key keyid has_issuer) =
    flag has_issuer "UNSUPPORTED_AKI_FORM"
cert_findings critical (CertExtension.other oid) = flag critical "UNSUPPORTED_CRITICAL_EXTENSION"
cert_findings critical _ = []

-- the findings on the public key
unfoldable pub key_findings : Option (PublicKey × Bytes) → List Finding
unfolding public_key_descriptor
key_findings none = unsupported "UNSUPPORTED_KEY_ALGORITHM" ∷ []
key_findings (some (key, spki)) = elim (public_key_descriptor key) [
  | some alg ↦ []
  | none ↦ elim key [
    | rsa bits ↦ unsupported "UNSUPPORTED_KEY_SIZE" ∷ []
    | _ ↦ unsupported "UNSUPPORTED_KEY_ALGORITHM" ∷ []
  ]
]

abbrev pub key_descriptor : Option (PublicKey × Bytes) → Option KeyAlg
key_descriptor none = none
key_descriptor (some (key, spki)) = public_key_descriptor key

abbrev pub key_bytes : Option (PublicKey × Bytes) → Bytes
key_bytes none = []
key_bytes (some (key, spki)) = spki

module _ (lib : Package) where
  open lib use {load_cert, sha256_hex, text_of}

  abbrev pub key_hash : Option (PublicKey × Bytes) → String
  key_hash none = ""
  key_hash (some (key, spki)) = sha256_hex spki

  abbrev pub dotted_pairs : Option (List (List ℕ × List ℕ)) → List (String × String)
  dotted_pairs none = []
  dotted_pairs (some pairs) = map (λ p. (text_of (dotted p.0), text_of (dotted p.1))) pairs

  -- what an extension sets
  unfoldable pub cert_field : CertExtension → CertFields → CertFields
  unfolding usage_names parse_policy_mappings dotted
  cert_field (CertExtension.basic_constraints ca len) f = record f { is_ca = ca; path_len = len }
  cert_field (CertExtension.key_usage u) f = record f { key_usage = some (usage_names u) }
  cert_field (CertExtension.extended_key_usage oids) f = record f { eku = some oids }
  cert_field (CertExtension.alternative_names names) f = record f {
    san_dns = f.san_dns ++ flat_map dns_in names;
    san_uri = f.san_uri ++ flat_map uri_in names;
    san_dir = f.san_dir ++ flat_map dir_in names;
  }
  cert_field (CertExtension.name_constraints permitted excluded) f = record f {
    nc = some (record { permitted = subtrees_of permitted; excluded = subtrees_of excluded });
  }
  cert_field (CertExtension.certificate_policies infos) f = record f {
    policies = some (map (λ i. i.0) infos);
  }
  cert_field (CertExtension.raw_policy_mappings raw) f = record f {
    policy_mappings = dotted_pairs (parse_policy_mappings raw);
  }
  cert_field (CertExtension.policy_mappings pairs) f = record f { policy_mappings = pairs }
  cert_field (CertExtension.policy_constraints explicit mapping) f = record f {
    policy_constraints = some (record { require_explicit = explicit; inhibit_mapping = mapping });
  }
  cert_field (CertExtension.inhibit_any_policy skip) f = record f { inhibit_any_policy = some skip }
  cert_field (CertExtension.subject_key digest) f = record f { ski = some digest }
  cert_field (CertExtension.authority_key keyid has_issuer) f = record f { aki_keyid = keyid }
  cert_field (CertExtension.other oid) f = f

  -- the loop over the extensions
  unfoldable pub cert_fields : CertFields → List (Bool × CertExtension) → CertFields
  unfolding cert_field cert_findings
  cert_fields f [] = f
  cert_fields f ((critical, e) ∷ es) =
      cert_fields
        (cert_field e (record f { unsupported = f.unsupported ++ cert_findings critical e })) es

  abbrev pub cert_descriptor : X509Cert → Option SigAlg
  cert_descriptor cert =
      signature_algorithm_descriptor cert.signed.oid cert.signed.params cert.signed.hash

  abbrev pub first_findings : X509Cert → List Finding
  first_findings cert = unsupported_signature (cert_descriptor cert) ++ key_findings cert.public_key

  -- what is kept of a certificate, from its extensions
  abbrev pub cert_info : String → X509Cert → CertFields → CertInfo
  cert_info fp cert f = record {
    fingerprint = fp;
    subject_hex = cert.subject_hex;
    issuer_hex = cert.issuer_hex;
    subject_rdns = cert.subject_rdns;
    serial = cert.serial_number;
    serial_hex = text_of (hex_text cert.serial_number);
    not_before = cert.not_before;
    not_after = cert.not_after;
    is_ca = f.is_ca;
    path_len = f.path_len;
    key_usage = f.key_usage;
    eku = f.eku;
    san_dns = f.san_dns;
    san_uri = f.san_uri;
    san_dir = f.san_dir;
    nc = f.nc;
    policies = f.policies;
    policy_mappings = f.policy_mappings;
    policy_constraints = f.policy_constraints;
    inhibit_any_policy = f.inhibit_any_policy;
    ski = f.ski;
    aki_keyid = f.aki_keyid;
    key_alg = key_descriptor cert.public_key;
    sig_alg = cert_descriptor cert;
    key_fp = key_hash cert.public_key;
    public_key = key_bytes cert.public_key;
    signature = cert.signature;
    tbs = cert.tbs;
    unsupported = f.unsupported;
  }

  unfoldable pub parse_certificate : Bytes → Option String → Result CertInfo
  unfolding signature_algorithm_descriptor public_key_descriptor key_findings cert_fields hex_text
  parse_certificate der fingerprint = do
    cert ← or_raise (load_cert der) (parse_error "CERT_PARSE_ERROR")
    extensions ← or_raise cert.extensions unexpected
    ok (
        cert_info (fingerprint_or fingerprint (sha256_hex der)) cert
          (cert_fields (no_fields (first_findings cert)) extensions))
