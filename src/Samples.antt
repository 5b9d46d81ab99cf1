-- ===== src/Samples.antt =====
-- A sample of the certificates of app/pki.py, for the tests.
use ab_b1b34dfe_mgf1_ocsp_bu.Prelude.{String, [], ◌∷◌, none, some, true}
use ab_b1b34dfe_mgf1_ocsp_bu.Cert.{CertInfo}

-- a certificate for code signing and for issuing, valid from 10 to 90
abbrev pub cert : String → String → CertInfo
cert fp issuer = record {
  fingerprint = fp;
  subject_hex = fp;
  issuer_hex = issuer;
  subject_rdns = [];
  serial = 1;
  serial_hex = "1";
  not_before = 10;
  not_after = 90;
  is_ca = true;
  path_len = none;
  key_usage = none;
  eku = some ("1.3.6.1.5.5.7.3.3" ∷ []);
  san_dns = [];
  san_uri = [];
  san_dir = [];
  nc = none;
  policies = none;
  policy_mappings = [];
  policy_constraints = none;
  inhibit_any_policy = none;
  ski = none;
  aki_keyid = none;
  key_alg = some (record { algorithm = "ed25519"; key_size = 256 });
  sig_alg = some (record { algorithm = "ed25519"; hash = none; pss = none });
  key_fp = fp;
  public_key = [];
  signature = [];
  tbs = [];
  unsupported = [];
}
