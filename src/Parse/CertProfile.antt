-- ===== src/Parse/CertProfile.antt =====
-- What a certificate without findings is like, for `parse_certificate` of app/pki.py.
use ab_b1b34dfe_mgf1_ocsp_bu.Prelude.{
  String, List, [], ◌∷◌, ◌++◌, Option, none, some, Bool, true, In, ◌≡◌, ◌≢◌, refl, ap, sym, subst,
  ◌∙◌, arith,
}
use ab_b1b34dfe_mgf1_ocsp_bu.Cert.{Bytes, CertInfo}
use ab_b1b34dfe_mgf1_ocsp_bu.Profile.{PublicKey}
use ab_b1b34dfe_mgf1_ocsp_bu.Der.{parse_policy_mappings}
use ab_b1b34dfe_mgf1_ocsp_bu.Api.{ok}
use ab_b1b34dfe_mgf1_ocsp_bu.Parse.{
  GeneralName, other_name, CertExtension, X509Cert, Package, flag, unsupported_signature,
  fingerprint_or,
}
use ab_b1b34dfe_mgf1_ocsp_bu.Parse.Findings.{
  append-eq-nil, unsupported_signature-eq-nil, flat_map-eq-nil,
}
use ab_b1b34dfe_mgf1_ocsp_bu.Parse.Certificates.{
  is_other, other_findings, CertFields, no_fields, cert_findings, key_findings, key_descriptor,
  cert_field, cert_fields, cert_descriptor, first_findings, cert_info, parse_certificate,
}

-- what a certificate without findings must be like
pub record IsProfiledCert (extensions : List (Bool × CertExtension)) (info : CertInfo)
    : Type 0 where
  pub signed : info.sig_alg ≢ none
  pub keyed : info.key_alg ≢ none
  pub no_critical : (oid : String) → ¬ In (true, CertExtension.other oid) extensions
  pub no_issuer :
      (critical : Bool) (keyid : Option String)
      → ¬ In (critical, CertExtension.authority_key keyid true) extensions
  pub names_known :
      (critical : Bool) (names : List GeneralName)
      → In (critical, CertExtension.alternative_names names) extensions
      → ¬ In other_name names
  pub constraints_known :
      (critical : Bool) (permitted excluded : List GeneralName)
      → In (critical, CertExtension.name_constraints permitted excluded) extensions
      → (¬ In other_name permitted) × (¬ In other_name excluded)
  pub no_qualifiers :
      (critical : Bool) (infos : List (String × Bool)) (oid : String)
      → In (critical, CertExtension.certificate_policies infos) extensions
      → ¬ In (oid, true) infos
  pub mappings_parse :
      (critical : Bool) (raw : Bytes)
      → In (critical, CertExtension.raw_policy_mappings raw) extensions
      → parse_policy_mappings raw ≢ none

cert_field-unsupported :
    (lib : Package) (e : CertExtension) (f : CertFields)
    → (cert_field lib e f).unsupported ≡ f.unsupported
unfolding cert_field
cert_field-unsupported lib (CertExtension.basic_constraints ca len) f = refl
cert_field-unsupported lib _ f = refl

-- without findings at the end there were none before, and none on any extension
cert_fields-clean :
    (lib : Package) (f : CertFields) (es : List (Bool × CertExtension))
    → (cert_fields lib f es).unsupported ≡ []
    → (f.unsupported ≡ [])
      × ((critical : Bool) (e : CertExtension)
          → In (critical, e) es
          → cert_findings critical e ≡ [])
unfolding cert_fields
cert_fields-clean lib f [] k = (k, λ critical e m. absurd m)
cert_fields-clean lib f ((c, x) ∷ es) k =
    let f' : CertFields = record f { unsupported = f.unsupported ++ cert_findings c x } in
    let (none_yet, later) = cert_fields-clean lib (cert_field lib x f') es k in
    let (before, here) =
      append-eq-nil f.unsupported (cert_findings c x)
        (sym (cert_field-unsupported lib x f') ∙ none_yet) in
    (before, λ critical e m. ground (arith, later critical e))

key_findings-eq-nil :
    (key : Option (PublicKey × Bytes)) → key_findings key ≡ [] → key_descriptor key ≢ none
unfolding key_findings
key_findings-eq-nil none e n = cc
key_findings-eq-nil (some (key, spki)) e n = ground arith

other_findings-eq-nil :
    (code : String) (names : List GeneralName)
    → other_findings code names ≡ []
    → ¬ In other_name names
other_findings-eq-nil code names e m =
    absurd (let k = flat_map-eq-nil (λ n. flag (is_other n) code) names other_name e m in cc)

module _ (critical : Bool) where
  cert_findings-names :
      (names : List GeneralName)
      → cert_findings critical (CertExtension.alternative_names names) ≡ []
      → ¬ In other_name names
  unfolding cert_findings
  cert_findings-names names e = other_findings-eq-nil "UNSUPPORTED_SAN_TYPE" names e

  cert_findings-constraints :
      (permitted excluded : List GeneralName)
      → cert_findings critical (CertExtension.name_constraints permitted excluded) ≡ []
      → (¬ In other_name permitted) × (¬ In other_name excluded)
  unfolding cert_findings
  cert_findings-constraints permitted excluded e =
      let code : String = "UNSUPPORTED_NAME_CONSTRAINT_TYPE" in
      let (p, x) = append-eq-nil (other_findings code permitted) (other_findings code excluded) e in
      (other_findings-eq-nil code permitted p, other_findings-eq-nil code excluded x)

  cert_findings-qualifiers :
      (infos : List (String × Bool)) (oid : String)
      → cert_findings critical (CertExtension.certificate_policies infos) ≡ []
      → ¬ In (oid, true) infos
  unfolding cert_findings
  cert_findings-qualifiers infos oid e m =
      absurd (let k = flat_map-eq-nil _ infos (oid, true) e m in cc)

  cert_findings-mappings :
      (raw : Bytes)
      → cert_findings critical (CertExtension.raw_policy_mappings raw) ≡ []
      → parse_policy_mappings raw ≢ none
  unfolding cert_findings
  cert_findings-mappings raw e n = absurd (let k = rw n at e in cc)

  cert_findings-issuer :
      (keyid : Option String) → cert_findings critical (CertExtension.authority_key keyid true) ≢ []
  unfolding cert_findings
  cert_findings-issuer keyid e = cc

cert_findings-critical : (oid : String) → cert_findings true (CertExtension.other oid) ≢ []
unfolding cert_findings
cert_findings-critical oid e = cc

cert_info-IsProfiledCert :
    (lib : Package) (fp : String) (cert : X509Cert) (extensions : List (Bool × CertExtension))
    → (let f = cert_fields lib (no_fields (first_findings lib cert)) extensions in
        f.unsupported ≡ [] → IsProfiledCert extensions (cert_info lib fp cert f))
cert_info-IsProfiledCert lib fp cert extensions clean =
    let (before, none_on) =
      cert_fields-clean lib (no_fields (first_findings lib cert)) extensions clean in
    let (signature_ok, key_ok) =
      append-eq-nil (unsupported_signature (cert_descriptor lib cert))
        (key_findings cert.public_key) before in
    record {
      signed = unsupported_signature-eq-nil (cert_descriptor lib cert) signature_ok;
      keyed = key_findings-eq-nil cert.public_key key_ok;
      no_critical = λ oid m. cert_findings-critical oid (none_on true _ m);
      no_issuer = λ critical keyid m. cert_findings-issuer critical keyid (none_on critical _ m);
      names_known = λ critical names m. cert_findings-names critical names (none_on critical _ m);
      constraints_known = λ critical permitted excluded m.
          cert_findings-constraints critical permitted excluded (none_on critical _ m);
      no_qualifiers = λ critical infos oid m.
          cert_findings-qualifiers critical infos oid (none_on critical _ m);
      mappings_parse = λ critical raw m. cert_findings-mappings critical raw (none_on critical _ m);
    }

-- A certificate that parses without findings has a supported signature algorithm and key, no critical
-- extension beyond the supported ones, no authority key with an issuer or serial number, only names of
-- the supported kinds in alternative names and name constraints, no policy with qualifiers, and policy
-- mappings, if given in DER, that parse.
pub parse_certificate-IsProfiledCert :
    (lib : Package) (der : Bytes) (fingerprint : Option String) (cert : X509Cert)
    (extensions : List (Bool × CertExtension)) (info : CertInfo)
    → lib.load_cert der ≡ some cert
    → cert.extensions ≡ some extensions
    → parse_certificate lib der fingerprint ≡ ok info
    → info.unsupported ≡ []
    → IsProfiledCert extensions info
unfolding parse_certificate
parse_certificate-IsProfiledCert lib der fingerprint cert extensions info loaded listed h clean =
    let fp = fingerprint_or fingerprint (lib.sha256_hex der) in
    let f = cert_fields lib (no_fields (first_findings lib cert)) extensions in
    let h' = rw (loaded, listed) at h in
    let same : info ≡ cert_info lib fp cert f = ground arith in
    subst (IsProfiledCert extensions) (sym same)
      (cert_info-IsProfiledCert lib fp cert extensions (ap (λ i. i.unsupported) (sym same) ∙ clean))
