-- ===== src/Parse/Crl.antt =====
-- `parse_crl` of app/revocation.py.
use ab_b1b34dfe_mgf1_ocsp_bu.Prelude.{
  ℕ, String, List, [], ◌∷◌, ◌++◌, Option, none, some, Bool, true, false, not, ◌&&◌, ◌||◌,
  if◌then◌else◌, ◌==◌, flat_map,
}
use ab_b1b34dfe_mgf1_ocsp_bu.Prelude.Dict.{insert}
use ab_b1b34dfe_mgf1_ocsp_bu.Cert.{Bytes, Finding, SigAlg, text_eq}
use ab_b1b34dfe_mgf1_ocsp_bu.Profile.{signature_algorithm_descriptor}
use ab_b1b34dfe_mgf1_ocsp_bu.Der.{Extension, iter_extensions, parse_reason_code}
use ab_b1b34dfe_mgf1_ocsp_bu.Der.CrlEntries.{iter_crl_entries}
use ab_b1b34dfe_mgf1_ocsp_bu.Revocation.{Entries, CrlInfo}
use ab_b1b34dfe_mgf1_ocsp_bu.Revocation.Delta.{is_removal}
use ab_b1b34dfe_mgf1_ocsp_bu.Api.{Result, ok, ◌>>=◌, or_raise, parse_error, unexpected}
use ab_b1b34dfe_mgf1_ocsp_bu.Parse.{
  GeneralName, uri, directory, DistributionPoint, CrlExtension, X509Crl, Package, unsupported, flag,
  unsupported_signature, fingerprint_or,
}

-- `_REASON_BY_CODE.get(code, "unspecified")`
unfoldable pub reason_by_code : ℕ → String
reason_by_code code =
    if code == 1
    then "keyCompromise"
    else if code == 2
    then "cACompromise"
    else if code == 3
    then "affiliationChanged"
    else if code == 4
    then "superseded"
    else if code == 5
    then "cessationOfOperation"
    else if code == 6
    then "certificateHold"
    else if code == 8
    then "removeFromCRL"
    else if code == 9
    then "privilegeWithdrawn"
    else if code == 10
    then "aACompromise"
    else "unspecified"

-- what the loop over the CRL's extensions has read
pub record CrlHead : Type 0 where
  pub aki_keyid : Option String
  pub crl_number : Option ℕ
  pub base_crl_number : Option ℕ
  pub idp_der_hex : Option String
  pub unsupported : List Finding

abbrev pub is_point_name : GeneralName → Bool
is_point_name (uri u) = true
is_point_name (directory d) = true
is_point_name _ = false

abbrev pub narrows : DistributionPoint → Bool
narrows p = p.only_user || p.only_ca || p.only_attribute || p.some_reasons || p.indirect

-- the findings on an extension
unfoldable pub crl_findings : Bool → CrlExtension → List Finding
crl_findings critical (CrlExtension.authority_key keyid has_issuer) =
    flag has_issuer "UNSUPPORTED_AKI_FORM"
crl_findings critical (CrlExtension.distribution_point p) =
    flag (narrows p) "UNSUPPORTED_IDP_SCOPE"
    ++ (flat_map (λ n. flag (not (is_point_name n)) "UNSUPPORTED_IDP_NAME") p.full_name
        ++ flag p.relative_name "UNSUPPORTED_IDP_NAME")
crl_findings critical (CrlExtension.other oid) = flag critical "UNSUPPORTED_CRITICAL_EXTENSION"
crl_findings critical (CrlExtension.crl_number n) = []
crl_findings critical (CrlExtension.delta_indicator n) = []

abbrev pub crl_field : CrlExtension → CrlHead → CrlHead
crl_field (CrlExtension.authority_key keyid has_issuer) h = record h { aki_keyid = keyid }
crl_field (CrlExtension.crl_number n) h = record h { crl_number = some n }
crl_field (CrlExtension.delta_indicator n) h = record h { base_crl_number = some n }
crl_field (CrlExtension.distribution_point p) h = record h { idp_der_hex = some p.der_hex }
crl_field (CrlExtension.other oid) h = h

-- the loop over the extensions
unfoldable pub crl_head : CrlHead → List (Bool × CrlExtension) → CrlHead
unfolding crl_findings
crl_head h [] = h
crl_head h ((critical, e) ∷ es) =
    crl_head (crl_field e (record h { unsupported = h.unsupported ++ crl_findings critical e })) es

abbrev pub oid_reason_code : Bytes
oid_reason_code = 0x55 ∷ 0x1d ∷ 0x15 ∷ []

abbrev pub oid_cert_issuer : Bytes
oid_cert_issuer = 0x55 ∷ 0x1d ∷ 0x1d ∷ []

abbrev pub oid_invalidity_date : Bytes
oid_invalidity_date = 0x55 ∷ 0x1d ∷ 0x18 ∷ []

-- the reason after a reasonCode extension, and the finding on one that does not parse
abbrev pub reason_from : Option String → Option ℕ → Option String × List Finding
reason_from reason (some code) = (some (reason_by_code code), [])
reason_from reason none = (reason, unsupported "MALFORMED_ENTRY_EXTENSION" ∷ [])

-- one extension of an entry
unfoldable pub entry_extension : Option String → Extension → Option String × List Finding
unfolding parse_reason_code reason_by_code
entry_extension reason (oid, critical, value) =
    if text_eq oid oid_reason_code
    then reason_from reason (parse_reason_code value)
    else if text_eq oid oid_invalidity_date
    then (reason, flag critical "UNSUPPORTED_CRITICAL_ENTRY_EXTENSION")
    else if text_eq oid oid_cert_issuer
    then (reason, unsupported "UNSUPPORTED_ENTRY_EXTENSION" ∷ [])
    else (reason, flag critical "UNSUPPORTED_CRITICAL_ENTRY_EXTENSION")

-- the loop over an entry's extensions
unfoldable pub entry_reason : Option String → List Extension → Option String × List Finding
unfolding entry_extension
entry_reason reason [] = (reason, [])
entry_reason reason (e ∷ es) =
    let (reason', found) = entry_extension reason e in
    let (last, later) = entry_reason reason' es in (last, found ++ later)

abbrev pub extensions_of : Option Bytes → Option (List Extension)
extensions_of none = some []
extensions_of (some tlv) = iter_extensions tlv

-- the entries with the findings on them
unfoldable pub crl_entries :
    Bool → Entries → List Finding → List (ℕ × ℕ × Option Bytes) → Result (Entries × List Finding)
unfolding entry_reason iter_extensions is_removal
crl_entries is_delta entries found [] = ok (entries, found)
crl_entries is_delta entries found ((serial, date, tlv) ∷ rest) = do
  es ← or_raise (extensions_of tlv) unexpected
  let (reason, later) = entry_reason none es
  crl_entries is_delta (insert ◌==◌ serial (date, reason) entries)
      (found ++ (later ++ flag (is_removal reason && not is_delta) "REMOVEFROMCRL_IN_COMPLETE_CRL"))
      rest

abbrev pub is_some : {A : Type 0} → Option A → Bool
is_some none = false
is_some (some a) = true

module _ (lib : Package) where
  open lib use {load_crl, sha256_hex, strptime, year, with_year}

  abbrev pub crl_descriptor : X509Crl → Option SigAlg
  crl_descriptor crl =
      signature_algorithm_descriptor crl.signed.oid crl.signed.params crl.signed.hash

  abbrev pub new_head : X509Crl → CrlHead
  new_head crl = record {
    aki_keyid = none;
    crl_number = none;
    base_crl_number = none;
    idp_der_hex = none;
    unsupported = unsupported_signature (crl_descriptor crl);
  }

  -- what is kept of a CRL, from its extensions and entries
  abbrev pub crl_info : String → X509Crl → CrlHead → Entries × List Finding → CrlInfo
  crl_info fp crl head (entries, found) = record {
    fingerprint = fp;
    issuer_hex = crl.issuer_hex;
    aki_keyid = head.aki_keyid;
    crl_number = head.crl_number;
    base_crl_number = head.base_crl_number;
    is_delta = is_some head.base_crl_number;
    this_update = crl.last_update;
    next_update = crl.next_update;
    entries = entries;
    idp_der_hex = head.idp_der_hex;
    sig_alg = crl_descriptor crl;
    signature = crl.signature;
    tbs = crl.tbs;
    unsupported =
        found
        ++ flag (is_some head.base_crl_number && not (is_some head.crl_number))
            "MISSING_CRL_NUMBER";
  }

  unfoldable pub parse_crl : Bytes → Option String → Result CrlInfo
  unfolding signature_algorithm_descriptor crl_head iter_crl_entries crl_entries
  parse_crl der fingerprint = do
    crl ← or_raise (load_crl der) (parse_error "CRL_PARSE_ERROR")
    extensions ← or_raise crl.extensions unexpected
    let head = crl_head (new_head crl) extensions
    raw ← or_raise (iter_crl_entries strptime year with_year der) unexpected
    r ← crl_entries (is_some head.base_crl_number) [] head.unsupported raw
    ok (crl_info (fingerprint_or fingerprint (sha256_hex der)) crl head r)
