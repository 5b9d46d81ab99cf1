-- ===== src/Parse/Meta.antt =====
-- `compute_meta` of app/objmeta.py: the metadata of an object, as the endpoints store it.
use ab_b1b34dfe_mgf1_ocsp_bu.Prelude.{
  ℕ, String, List, [], ◌∷◌, Option, none, some, Bool, true, false, if◌then◌else◌, str_eq, length,
  map,
}
use ab_b1b34dfe_mgf1_ocsp_bu.Prelude.Int.{pos}
use ab_b1b34dfe_mgf1_ocsp_bu.Cert.{Bytes, Finding, CertInfo}
use ab_b1b34dfe_mgf1_ocsp_bu.Canonical.{Json, null, bool, int, str, arr, obj}
use ab_b1b34dfe_mgf1_ocsp_bu.Canonical.Times.{Calendar, canon_time}
use ab_b1b34dfe_mgf1_ocsp_bu.Revocation.{CrlInfo, OcspInfo, SingleResponse}
use ab_b1b34dfe_mgf1_ocsp_bu.Api.{Result, ok, err, ◌>>=◌, unexpected, items_of, fields_of}
use ab_b1b34dfe_mgf1_ocsp_bu.Parse.{Package, hex_text}
use ab_b1b34dfe_mgf1_ocsp_bu.Parse.Certificates.{parse_certificate}
use ab_b1b34dfe_mgf1_ocsp_bu.Parse.Crl.{parse_crl}
use ab_b1b34dfe_mgf1_ocsp_bu.Parse.Ocsp.{parse_ocsp}

abbrev pub text_or_null : Option String → Json
text_or_null none = null
text_or_null (some s) = str s

abbrev pub number_or_null : Option ℕ → Json
number_or_null none = null
number_or_null (some n) = int (pos n)

-- a certID hash that has no name is null
abbrev pub hash_json : String → Json
hash_json name = if str_eq name "" then null else str name

-- `profile_ok`
abbrev pub profile_ok : List Finding → Bool
profile_ok [] = true
profile_ok (f ∷ fs) = false

module _ (lib : Package) (calendar : Calendar) where
  open lib use {text_of}

  abbrev pub time_json : ℕ → Json
  time_json t = str (text_of (canon_time calendar t))

  abbrev pub time_or_null : Option ℕ → Json
  time_or_null none = null
  time_or_null (some t) = time_json t

  unfoldable pub cert_meta : CertInfo → Json
  unfolding canon_time
  cert_meta info = obj (
      fields_of (
        ("subject_der_hex", str info.subject_hex)
        ∷ ("issuer_der_hex", str info.issuer_hex)
        ∷ ("ski", text_or_null info.ski)
        ∷ ("aki_keyid", text_or_null info.aki_keyid)
        ∷ ("serial_hex", str info.serial_hex)
        ∷ ("not_before", time_json info.not_before)
        ∷ ("not_after", time_json info.not_after)
        ∷ ("is_ca", bool info.is_ca)
        ∷ ("profile_ok", bool (profile_ok info.unsupported))
        ∷ []))

  unfoldable pub crl_meta : CrlInfo → Json
  unfolding canon_time
  crl_meta info = obj (
      fields_of (
        ("issuer_der_hex", str info.issuer_hex)
        ∷ ("aki_keyid", text_or_null info.aki_keyid)
        ∷ ("crl_number", number_or_null info.crl_number)
        ∷ ("base_crl_number", number_or_null info.base_crl_number)
        ∷ ("is_delta", bool info.is_delta)
        ∷ ("this_update", time_json info.this_update)
        ∷ ("next_update", time_or_null info.next_update)
        ∷ ("entry_count", int (pos (length info.entries)))
        ∷ ("idp_der_hex", text_or_null info.idp_der_hex)
        ∷ ("profile_ok", bool (profile_ok info.unsupported))
        ∷ []))

  unfoldable pub response_meta : SingleResponse → Json
  unfolding hex_text
  response_meta r = obj (
      fields_of (
        ("serial_hex", str (text_of (hex_text r.serial)))
        ∷ ("issuer_name_hash", str r.issuer_name_hash)
        ∷ ("issuer_key_hash", str r.issuer_key_hash)
        ∷ ("hash_alg", hash_json r.hash_alg)
        ∷ []))

  unfoldable pub ocsp_meta : OcspInfo → Json
  unfolding canon_time response_meta
  ocsp_meta info = obj (
      fields_of (
        ("produced_at", time_json info.produced_at)
        ∷ ("response_count", int (pos (length info.responses)))
        ∷ ("responses", arr (items_of (map response_meta info.responses)))
        ∷ ("profile_ok", bool (profile_ok info.unsupported))
        ∷ []))

  unfoldable pub compute_meta : String → Bytes → Result Json
  unfolding parse_certificate parse_crl parse_ocsp cert_meta crl_meta ocsp_meta
  compute_meta otype der =
      if str_eq otype "certificate"
      then (do info ← parse_certificate lib der none; ok (cert_meta info))
      else if str_eq otype "crl"
      then (do info ← parse_crl lib der none; ok (crl_meta info))
      else if str_eq otype "ocsp"
      then (do info ← parse_ocsp lib der none; ok (ocsp_meta info))
      else err unexpected
