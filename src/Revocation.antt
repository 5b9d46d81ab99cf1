-- ===== src/Revocation.antt =====
-- app/revocation.py: CRL and OCSP evidence, the views made of it and the evaluator's state. Serial
-- numbers are numbers, times are microseconds, hashes and names are hex texts.
pub mod Delta
pub mod Evidence
pub mod Gather
pub mod Evaluate
pub mod Views
pub mod Admitted
pub mod Selected
pub mod Told
pub mod Judged
pub mod Defects
pub mod Cutoff
pub mod Lawful
mod Tests
use ab_b1b34dfe_mgf1_ocsp_bu.Prelude.{
  ℕ, String, List, [], ◌∷◌, Option, none, some, Bool, true, false, if◌then◌else◌, ltb, ◌==◌, str_eq,
  str_le,
}
use ab_b1b34dfe_mgf1_ocsp_bu.Cert.{Bytes, CertInfo, SigAlg, Finding}
use ab_b1b34dfe_mgf1_ocsp_bu.Profile.{PubVerify}

-- a revoked certificate's date and reason
abbrev pub Entry : Type 0
Entry = ℕ × Option String

abbrev pub Entries : Type 0
Entries = List (ℕ × Entry)

pub record CrlInfo : Type 0 where
  pub fingerprint : String
  pub issuer_hex : String
  pub aki_keyid : Option String
  pub crl_number : Option ℕ
  pub base_crl_number : Option ℕ
  pub is_delta : Bool
  pub this_update : ℕ
  pub next_update : Option ℕ
  pub entries : Entries
  pub idp_der_hex : Option String
  pub sig_alg : Option SigAlg
  pub signature : Bytes
  pub tbs : Bytes
  pub unsupported : List Finding

pub data CertStatus : Type 0 where
  good revoked unknown : CertStatus

pub record SingleResponse : Type 0 where
  pub serial : ℕ
  pub status : CertStatus
  pub this_update : ℕ
  pub next_update : Option ℕ
  pub revocation_time : Option ℕ
  pub revocation_reason : Option String
  pub issuer_name_hash : String
  pub issuer_key_hash : String
  pub hash_alg : String

pub record OcspInfo : Type 0 where
  pub fingerprint : String
  pub produced_at : ℕ
  pub responses : List SingleResponse
  pub responder_key_hash : Option String
  pub responder_name : Option String
  pub responder_certs : List Bytes
  pub signature : Bytes
  pub tbs : Bytes
  pub sig_alg : Option SigAlg
  pub unsupported : List Finding

-- one response of an OCSP object's metadata
pub record ResponseMeta : Type 0 where
  pub serial_hex : String
  pub issuer_name_hash : String
  pub issuer_key_hash : String
  pub hash_alg : String

-- what the evaluator reads of the metadata; `received_at` is parsed
pub record EvidenceMeta : Type 0 where
  pub received_at : ℕ
  pub otype : String
  pub responses : List ResponseMeta

-- The constructor's arguments, and the calls into other code. `digest` is the hash of a named
-- algorithm, of hex to hex, `key_bits` the contents of the subjectPublicKey in hex, and
-- `parse_certificate` that of app/pki.py with `none` for an exception.
pub record Evaluator : Type 0 where
  pub crl_index : String → List String
  pub ocsp_fps : List String
  pub metas : String → EvidenceMeta
  pub get_crl : String → CrlInfo
  pub get_ocsp : String → OcspInfo
  pub signed_at : ℕ
  pub knowledge_cutoff : ℕ
  pub digest : String → String → String
  pub key_bits : CertInfo → String
  pub parse_certificate : Bytes → Option CertInfo
  pub pub_verify : PubVerify

-- the part of a view that depends on its kind
pub data Content : Type 0 where
  crl : Entries → Content
  ocsp : CertStatus → Option ℕ → Option String → Content

pub record View : Type 0 where
  pub view_id : String
  pub content : Content
  pub as_of : ℕ
  pub next_update : Option ℕ
  pub evidence : List String

-- the sort key of views: `(-as_of, view_id)`
unfoldable pub view_le : View → View → Bool
view_le v w =
    if ltb w.as_of v.as_of
    then true
    else if ltb v.as_of w.as_of
    then false
    else str_le v.view_id w.view_id

-- a disposition record; the text of `detail` is left out
pub record Disposition : Type 0 where
  pub fingerprint : String
  pub otype : String
  pub used : Bool
  pub reason : String

-- an outcome, with the times before they are rendered
pub record Outcome : Type 0 where
  pub certificate : String
  pub issuer_certificate : String
  pub status : String
  pub selected_view : Option String
  pub selected_evidence : List String
  pub revocation_time : Option ℕ
  pub revocation_reason : Option String
  pub evaluated_evidence : List Disposition

-- the evaluator's fields that change
pub record EvalState : Type 0 where
  pub cache : List ((String × String) × Outcome)
  pub outcomes : List (String × Outcome)
  pub accounting : List (String × Disposition)
  pub touched : List String
