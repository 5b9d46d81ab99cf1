-- ===== src/Graph/Trace.antt =====
-- `trace_path` of app/graph.py: the rules of each certificate of a found path, all of them passed.
use ab_b1b34dfe_mgf1_ocsp_bu.Prelude.{
  ℕ, suc, String, List, [], ◌∷◌, ◌++◌, Option, none, some, if◌then◌else◌, ◌==◌, map, ◌≡◌, refl,
}
use ab_b1b34dfe_mgf1_ocsp_bu.Cert.{CertInfo}
use ab_b1b34dfe_mgf1_ocsp_bu.Samples.{cert}

-- a rule, and the certificate that a signature verifies with
pub record PassedRule : Type 0 where
  pub rule : String
  pub verifies_with : Option String

-- `revocation` is there for all but the last, and null without an outcome
pub record TraceEntry : Type 0 where
  pub certificate : String
  pub role : String
  pub rules : List PassedRule
  pub revocation : Option (Option String)

abbrev pub passes : String → PassedRule
passes rule = record { rule = rule; verifies_with = none }

-- the rules between profile and the rest of the path
abbrev pub signature_rules : List CertInfo → List PassedRule
signature_rules [] = []
signature_rules (parent ∷ rest) =
    (record { rule = "SIGNATURE"; verifies_with = some parent.fingerprint }) ∷ []

abbrev pub position_rules : ℕ → List CertInfo → List PassedRule
position_rules idx above = if idx == 0 then passes "KEY_USAGE" ∷ passes "EKU" ∷ [] else elim above [
  | [] ↦ []
  | parent ∷ rest ↦ passes "BASIC_CONSTRAINTS" ∷ passes "KEY_USAGE" ∷ passes "PATHLEN" ∷ []
]

abbrev pub role_of : ℕ → List CertInfo → String
role_of idx above =
    if idx == 0 then "leaf" else elim above [ [] ↦ "trust_anchor" | parent ∷ rest ↦ "intermediate" ]

module _ (outcome_status : String → Option String) where
  abbrev pub revocation_of : CertInfo → List CertInfo → Option (Option String)
  revocation_of c [] = none
  revocation_of c (parent ∷ rest) = some (outcome_status c.fingerprint)

  -- the entries from position `idx` on
  unfoldable pub trace_from : ℕ → List CertInfo → List TraceEntry
  trace_from idx [] = []
  trace_from idx (c ∷ above) =
      (record {
        certificate = c.fingerprint;
        role = role_of idx above;
        rules =
            passes "CERT_PROFILE"
            ∷ passes "VALIDITY"
            ∷ (signature_rules above ++ position_rules idx above);
        revocation = revocation_of c above;
      })
      ∷ trace_from (suc idx) above

  unfoldable pub trace_path : (String → CertInfo) → List String → List TraceEntry
  unfolding trace_from
  trace_path get_cert path = trace_from 0 (map get_cert path)

traces_two :
    trace_path (λ fp. some "GOOD") (λ fp. cert fp "root") ("leaf" ∷ "root" ∷ [])
    ≡ (record {
      certificate = "leaf";
      role = "leaf";
      rules =
          passes "CERT_PROFILE"
          ∷ passes "VALIDITY"
          ∷ (record { rule = "SIGNATURE"; verifies_with = some "root" })
          ∷ passes "KEY_USAGE"
          ∷ passes "EKU"
          ∷ [];
      revocation = some (some "GOOD");
    })
      ∷ (record {
        certificate = "root";
        role = "trust_anchor";
        rules = passes "CERT_PROFILE" ∷ passes "VALIDITY" ∷ [];
        revocation = none;
      })
      ∷ []
unfolding trace_path
traces_two = refl
