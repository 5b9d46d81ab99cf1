-- ===== src/Parse/Samples.antt =====
-- A certificate and a CRL as the `cryptography` package parses them, for the tests of app/pki.py and
-- app/revocation.py.
use ab_b1b34dfe_mgf1_ocsp_bu.Prelude.{ℕ, List, [], ◌∷◌, ◌++◌, none, some, Bool, true, false}
use ab_b1b34dfe_mgf1_ocsp_bu.Cert.{Bytes}
use ab_b1b34dfe_mgf1_ocsp_bu.Profile.{ed25519}
use ab_b1b34dfe_mgf1_ocsp_bu.Parse.{
  dns_name, CertExtension, CrlExtension, Signed, X509Cert, X509Crl, Package,
}

abbrev pub by_ed25519 : Signed
by_ed25519 = record { oid = "1.3.101.112"; params = none; hash = none }

-- a UTCTime, `250101000000Z`
abbrev pub time : Bytes
time = 23 ∷ 13 ∷ 50 ∷ 53 ∷ 48 ∷ 49 ∷ 48 ∷ 49 ∷ 48 ∷ 48 ∷ 48 ∷ 48 ∷ 48 ∷ 48 ∷ b'Z' ∷ []

-- a reasonCode extension
abbrev pub reason : ℕ → Bytes
reason code = 48 ∷ 12 ∷ 48 ∷ 10 ∷ 6 ∷ 3 ∷ 85 ∷ 29 ∷ 21 ∷ 4 ∷ 3 ∷ 10 ∷ 1 ∷ code ∷ []

-- a CRL with an entry for the serial number 7
abbrev pub crl_der : ℕ → Bytes
crl_der code =
    48
    ∷ 57
    ∷ 48
    ∷ 55
    ∷ 48
    ∷ 0
    ∷ 48
    ∷ 0
    ∷ (time ++ (48 ∷ 34 ∷ 48 ∷ 32 ∷ 2 ∷ 1 ∷ 7 ∷ (time ++ reason code)))

abbrev pub crl_extensions : List (Bool × CrlExtension)
crl_extensions =
    (false, CrlExtension.authority_key (some "aa") false)
    ∷ (true, CrlExtension.crl_number 3)
    ∷ (false, CrlExtension.other "1.2.3")
    ∷ []

abbrev pub crl : X509Crl
crl = record {
  signed = by_ed25519;
  extensions = some crl_extensions;
  issuer_hex = "cn";
  last_update = 10;
  next_update = some 20;
  signature = [];
  tbs = [];
}

abbrev pub cert_extensions : List (Bool × CertExtension)
cert_extensions =
    (true, CertExtension.basic_constraints true (some 1))
    ∷ (false, CertExtension.alternative_names (dns_name (b'a' ∷ []) ∷ []))
    ∷ (false, CertExtension.subject_key "bb")
    ∷ []

abbrev pub cert : X509Cert
cert = record {
  signed = by_ed25519;
  public_key = some (ed25519, 1 ∷ 2 ∷ []);
  extensions = some cert_extensions;
  subject_hex = "cn";
  issuer_hex = "root";
  subject_rdns = [];
  serial_number = 255;
  not_before = 1;
  not_after = 9;
  signature = [];
  tbs = [];
}

abbrev pub lib : Package
lib = record {
  load_cert = λ der. some cert;
  load_crl = λ der. some crl;
  load_ocsp = λ der. none;
  sha256_hex = λ der. "fp";
  text_of = λ t. "text";
  strptime = λ format text. some 5;
  year = λ t. 2025;
  with_year = λ y t. some t;
}
