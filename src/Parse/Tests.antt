-- ===== src/Parse/Tests.antt =====
-- Runs of the parsers of app/pki.py and app/revocation.py.
use ab_b1b34dfe_mgf1_ocsp_bu.Prelude.{[], ◌∷◌, none, some, true, false, ◌≡◌, refl}
use ab_b1b34dfe_mgf1_ocsp_bu.Cert.{CertInfo}
use ab_b1b34dfe_mgf1_ocsp_bu.Revocation.{CrlInfo}
use ab_b1b34dfe_mgf1_ocsp_bu.Api.{ok}
use ab_b1b34dfe_mgf1_ocsp_bu.Parse.{unsupported, hex_text, dotted}
use ab_b1b34dfe_mgf1_ocsp_bu.Parse.Samples.{
  crl_der, crl_extensions, crl, cert_extensions, cert, lib,
}
use ab_b1b34dfe_mgf1_ocsp_bu.Parse.Crl.{parse_crl}
use ab_b1b34dfe_mgf1_ocsp_bu.Parse.Certificates.{parse_certificate}
use ab_b1b34dfe_mgf1_ocsp_bu.Parse.CrlProfile.{IsProfiledCrl, parse_crl-IsProfiledCrl}
use ab_b1b34dfe_mgf1_ocsp_bu.Parse.CertProfile.{IsProfiledCert, parse_certificate-IsProfiledCert}

abbrev parsed_crl : CrlInfo
parsed_crl = record {
  fingerprint = "fp";
  issuer_hex = "cn";
  aki_keyid = some "aa";
  crl_number = some 3;
  base_crl_number = none;
  is_delta = false;
  this_update = 10;
  next_update = some 20;
  entries = (7, (5, some "keyCompromise")) ∷ [];
  idp_der_hex = none;
  sig_alg = some (record { algorithm = "ed25519"; hash = none; pss = none });
  signature = [];
  tbs = [];
  unsupported = [];
}

parses_crl : parse_crl lib (crl_der 1) none ≡ ok parsed_crl
unfolding parse_crl
parses_crl = refl

-- the reason code 8 is only for deltas
finds_removal :
    parse_crl lib (crl_der 8) none
    ≡ ok (record parsed_crl {
      entries = (7, (5, some "removeFromCRL")) ∷ [];
      unsupported = unsupported "REMOVEFROMCRL_IN_COMPLETE_CRL" ∷ [];
    })
unfolding parse_crl
finds_removal = refl

abbrev parsed_cert : CertInfo
parsed_cert = record {
  fingerprint = "fp";
  subject_hex = "cn";
  issuer_hex = "root";
  subject_rdns = [];
  serial = 255;
  serial_hex = "text";
  not_before = 1;
  not_after = 9;
  is_ca = true;
  path_len = some 1;
  key_usage = none;
  eku = none;
  san_dns = (b'a' ∷ []) ∷ [];
  san_uri = [];
  san_dir = [];
  nc = none;
  policies = none;
  policy_mappings = [];
  policy_constraints = none;
  inhibit_any_policy = none;
  ski = some "bb";
  aki_keyid = none;
  key_alg = some (record { algorithm = "ed25519"; key_size = 256 });
  sig_alg = some (record { algorithm = "ed25519"; hash = none; pss = none });
  key_fp = "fp";
  public_key = 1 ∷ 2 ∷ [];
  signature = [];
  tbs = [];
  unsupported = [];
}

parses_cert : parse_certificate lib [] none ≡ ok parsed_cert
unfolding parse_certificate
parses_cert = refl

writes_hex : hex_text 255 ≡ b'f' ∷ b'f' ∷ []
unfolding hex_text
writes_hex = refl

writes_dots : dotted (1 ∷ 20 ∷ []) ≡ b'1' ∷ b'.' ∷ b'2' ∷ b'0' ∷ []
unfolding dotted
writes_dots = refl

parse_crl-IsProfiledCrl_example : IsProfiledCrl crl_extensions parsed_crl
parse_crl-IsProfiledCrl_example =
    parse_crl-IsProfiledCrl lib (crl_der 1) none crl crl_extensions parsed_crl refl refl parses_crl
      refl

parse_certificate-IsProfiledCert_example : IsProfiledCert cert_extensions parsed_cert
parse_certificate-IsProfiledCert_example =
    parse_certificate-IsProfiledCert lib [] none cert cert_extensions parsed_cert refl refl
      parses_cert refl
