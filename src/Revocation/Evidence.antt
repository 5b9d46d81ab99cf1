-- ===== src/Revocation/Evidence.antt =====
-- Which evidence of app/revocation.py counts for a certificate and its issuer, and why the rest does
-- not: the tests of the CRL and OCSP loops of `_compute`, and responder authorization.
use Prim.Native.String.{◌++◌ as str_append}
use ab_b1b34dfe_mgf1_ocsp_bu.Prelude.{
  String, List, [], ◌∷◌, Option, none, some, Bool, true, false, ◌&&◌, not, if◌then◌else◌, leb, ltb,
  ◌==◌, str_eq, str_mem, any, find,
}
use ab_b1b34dfe_mgf1_ocsp_bu.Cert.{Bytes, CertInfo, SigAlg}
use ab_b1b34dfe_mgf1_ocsp_bu.Profile.{verify_signature}
use ab_b1b34dfe_mgf1_ocsp_bu.Revocation.{
  CrlInfo, OcspInfo, SingleResponse, ResponseMeta, good, revoked, unknown, Evaluator, View, Content,
}

abbrev pub eku_ocsp_signing : String
eku_ocsp_signing = "1.3.6.1.5.5.7.3.9"

pub data CrlVerdict : Type 0 where
  -- the reason, and whether the evidence counts as defective
  crl_excluded : String → Bool → CrlVerdict
  crl_valid : CrlInfo → CrlVerdict

pub data OcspVerdict : Type 0 where
  irrelevant : OcspVerdict
  ocsp_excluded : String → Bool → OcspVerdict
  ocsp_valid : View → OcspVerdict

-- both texts are there and differ
unfoldable pub key_mismatch : Option String → Option String → Bool
key_mismatch none ski = false
key_mismatch (some aki) none = false
key_mismatch (some aki) (some ski) = not (str_eq aki ski)

module _ (v : Evaluator) where
  open v use {
    metas, get_crl, get_ocsp, knowledge_cutoff, digest, key_bits, pub_verify, parse_certificate,
  }

  -- signed with the key of a certificate by a descriptor that is in profile
  unfoldable pub verify_with : CertInfo → Option SigAlg → Bytes → Bytes → Bool
  unfolding verify_signature
  verify_with c none signature tbs = false
  verify_with c (some alg) signature tbs =
      verify_signature pub_verify c.public_key alg signature tbs

  unfoldable pub verify_crl_signature : CrlInfo → CertInfo → Bool
  unfolding verify_with
  verify_crl_signature c issuer = elim issuer.key_alg [
    | none ↦ false
    | some key ↦ verify_with issuer c.sig_alg c.signature c.tbs
  ]

  -- the body of the CRL loop up to the views
  unfoldable pub crl_verdict : CertInfo → String → CrlVerdict
  unfolding key_mismatch verify_crl_signature
  crl_verdict issuer fp =
      let c = get_crl fp in
      if ltb knowledge_cutoff (metas fp).received_at
      then crl_excluded "RECEIVED_AFTER_CUTOFF" false
      else elim c.unsupported [
        | f ∷ fs ↦ crl_excluded "UNSUPPORTED" true
        | [] ↦
            if key_mismatch c.aki_keyid issuer.ski
            then crl_excluded "KEY_MISMATCH" false
            else if verify_crl_signature c issuer
            then crl_valid c
            else crl_excluded "SIGNATURE_INVALID" true
      ]

  -- `issuer_certid_hashes(issuer)[alg]`: the hashes of the issuer's name and key
  unfoldable pub certid_matches : CertInfo → String → String → String → Bool
  certid_matches issuer alg name_hash key_hash =
      str_mem alg ("sha1" ∷ "sha256" ∷ [])
      && (str_eq name_hash (digest alg issuer.subject_hex)
          && str_eq key_hash (digest alg (key_bits issuer)))

  unfoldable pub meta_matches : CertInfo → CertInfo → ResponseMeta → Bool
  unfolding certid_matches
  meta_matches cert issuer r =
      str_eq r.serial_hex cert.serial_hex
      && certid_matches issuer r.hash_alg r.issuer_name_hash r.issuer_key_hash

  unfoldable pub single_matches : CertInfo → CertInfo → SingleResponse → Bool
  unfolding certid_matches
  single_matches cert issuer r =
      r.serial == cert.serial
      && certid_matches issuer r.hash_alg r.issuer_name_hash r.issuer_key_hash

  unfoldable pub responder_id_matches : OcspInfo → CertInfo → Bool
  responder_id_matches o cert = elim o.responder_key_hash [
    | some h ↦ str_eq (digest "sha1" (key_bits cert)) h
    | none ↦ elim o.responder_name [ some name ↦ str_eq cert.subject_hex name | none ↦ false ]
  ]

  unfoldable pub has_ocsp_eku : CertInfo → Bool
  has_ocsp_eku c = elim c.eku [ none ↦ false | some eku ↦ str_mem eku_ocsp_signing eku ]

  -- a certificate that may sign the response for the issuer
  unfoldable pub delegate_ok : OcspInfo → CertInfo → CertInfo → Bool
  unfolding has_ocsp_eku responder_id_matches verify_with
  delegate_ok o issuer r =
      str_eq r.issuer_hex issuer.subject_hex
      && (elim r.unsupported [ [] ↦ true | f ∷ fs ↦ false ]
          && (has_ocsp_eku r
              && (leb r.not_before o.produced_at
                  && (leb o.produced_at r.not_after
                      && (responder_id_matches o r
                          && (verify_with issuer r.sig_alg r.signature r.tbs
                              && verify_with r o.sig_alg o.signature o.tbs))))))

  -- the loop over the embedded certificates; one that does not parse is passed over
  unfoldable pub find_delegate : OcspInfo → CertInfo → List Bytes → Option CertInfo
  unfolding delegate_ok
  find_delegate o issuer [] = none
  find_delegate o issuer (der ∷ rest) = elim (parse_certificate der) [
    | none ↦ find_delegate o issuer rest
    | some r ↦ if delegate_ok o issuer r then some r else find_delegate o issuer rest
  ]

  unfoldable pub signed_by_issuer : OcspInfo → CertInfo → Bool
  unfolding responder_id_matches verify_with
  signed_by_issuer o issuer = elim issuer.key_alg [
    | none ↦ false
    | some key ↦ responder_id_matches o issuer && verify_with issuer o.sig_alg o.signature o.tbs
  ]

  -- the certificate that verified the response, if it is authorized
  unfoldable pub verify_ocsp_authorization : OcspInfo → CertInfo → Option CertInfo
  unfolding signed_by_issuer find_delegate
  verify_ocsp_authorization o issuer = elim o.sig_alg [
    | none ↦ none
    | some alg ↦
        if signed_by_issuer o issuer then some issuer else find_delegate o issuer o.responder_certs
  ]

  unfoldable pub ocsp_view : OcspInfo → SingleResponse → View
  ocsp_view o r = record {
    view_id = str_append "ocsp:" o.fingerprint;
    content = Content.ocsp r.status r.revocation_time r.revocation_reason;
    as_of = r.this_update;
    next_update = r.next_update;
    evidence = o.fingerprint ∷ [];
  }

  -- a revoked response without a revocation time
  unfoldable pub lacks_time : SingleResponse → Bool
  lacks_time r = elim r.status [
    | revoked ↦ elim r.revocation_time [ none ↦ true | some t ↦ false ]
    | good ↦ false
    | unknown ↦ false
  ]

  unfoldable pub response_verdict : CertInfo → OcspInfo → SingleResponse → OcspVerdict
  unfolding verify_ocsp_authorization lacks_time ocsp_view
  response_verdict issuer o r = elim (verify_ocsp_authorization o issuer) [
    | none ↦ ocsp_excluded "RESPONDER_UNAUTHORIZED" true
    | some responder ↦
        if lacks_time r
        then ocsp_excluded "INVALID_REVOKED_ENTRY" true
        else ocsp_valid (ocsp_view o r)
  ]

  -- the body of the OCSP loop
  unfoldable pub ocsp_verdict : CertInfo → CertInfo → String → OcspVerdict
  unfolding meta_matches single_matches response_verdict
  ocsp_verdict cert issuer fp =
      let o = get_ocsp fp in
      if not (any (meta_matches cert issuer) (metas fp).responses)
      then irrelevant
      else if ltb knowledge_cutoff (metas fp).received_at
      then ocsp_excluded "RECEIVED_AFTER_CUTOFF" false
      else elim o.unsupported [
        | f ∷ fs ↦ ocsp_excluded "UNSUPPORTED" true
        | [] ↦ elim (find (single_matches cert issuer) o.responses) [
          | none ↦ ocsp_excluded "SERIAL_MISMATCH" false
          | some r ↦ response_verdict issuer o r
        ]
      ]
