-- ===== src/Adjudicate/Tests.antt =====
-- A run of the engine of app/adjudicate.py.
use ab_b1b34dfe_mgf1_ocsp_bu.Prelude.{
  In, ◌↔◌, ◌≤◌, String, List, [], ◌∷◌, none, some, true, false, length, ◌≡◌, ◌≢◌, refl, ap,
}
use ab_b1b34dfe_mgf1_ocsp_bu.Samples.{cert}
use ab_b1b34dfe_mgf1_ocsp_bu.Graph.{candidates}
use ab_b1b34dfe_mgf1_ocsp_bu.Graph.Checks.{edge_checks, terminal_checks}
use ab_b1b34dfe_mgf1_ocsp_bu.Graph.Search.{path_found}
use ab_b1b34dfe_mgf1_ocsp_bu.Graph.Rules.{IsSigner}
use ab_b1b34dfe_mgf1_ocsp_bu.Graph.Sound.{IsChain, IsDistinct}
use ab_b1b34dfe_mgf1_ocsp_bu.Revocation.{CrlInfo, OcspInfo}
use ab_b1b34dfe_mgf1_ocsp_bu.Revocation.Lawful.{fresh_status}
use ab_b1b34dfe_mgf1_ocsp_bu.Adjudicate.{
  anchor_reachable, Entry, Input, World, certificate, crl, explorer, evaluator,
}
use ab_b1b34dfe_mgf1_ocsp_bu.Adjudicate.Engine.{
  Artifact, Verdict, Ran, answered, unsettled, run_engine,
}
use ab_b1b34dfe_mgf1_ocsp_bu.Adjudicate.Verdict.{run_engine-ne-unsettled, run_engine-Reproduces}
use ab_b1b34dfe_mgf1_ocsp_bu.Adjudicate.Anchored.{Anchored, anchor_reachable_iff}
use ab_b1b34dfe_mgf1_ocsp_bu.Adjudicate.Justified.{Signs, run_engine-valid}

abbrev sample_crl : CrlInfo
sample_crl = record {
  fingerprint = "crl";
  issuer_hex = "top";
  aki_keyid = none;
  crl_number = some 1;
  base_crl_number = none;
  is_delta = false;
  this_update = 40;
  next_update = some 80;
  entries = [];
  idp_der_hex = none;
  sig_alg = some (record { algorithm = "ed25519"; hash = none; pss = none });
  signature = [];
  tbs = [];
  unsupported = [];
}

abbrev no_ocsp : OcspInfo
no_ocsp = record {
  fingerprint = "";
  produced_at = 0;
  responses = [];
  responder_key_hash = none;
  responder_name = none;
  responder_certs = [];
  signature = [];
  tbs = [];
  sig_alg = none;
  unsupported = [];
}

abbrev world : World
world = record {
  get_cert = λ fp. cert fp "top";
  get_crl = λ fp. sample_crl;
  get_ocsp = λ fp. no_ocsp;
  digest = λ alg hex. "digest";
  key_bits = λ c. "bits";
  parse_certificate = λ der. none;
  hostname = λ uri. none;
  pub_verify = λ key scheme signature message. true;
}

abbrev input : Input
input = record {
  message = 1 ∷ [];
  signature = 2 ∷ [];
  signature_algorithm = "ed25519";
  signed_at = 50;
  knowledge_cutoff = 60;
  leaf_fingerprint = "leaf";
  initial_policy_set = "anyPolicy" ∷ [];
  trust_anchors = "top" ∷ [];
}

-- "leaf" is issued by "top", and "other" plays no part
abbrev rest_on : List Entry
rest_on =
    record { fingerprint = "leaf"; meta = certificate "leaf" "top" none none }
    ∷ record { fingerprint = "top"; meta = certificate "top" "top" none none }
    ∷ record { fingerprint = "crl"; meta = crl "top" 45 }
    ∷ []

abbrev objects : List Entry
objects =
    record { fingerprint = "other"; meta = certificate "other" "elsewhere" none none } ∷ rest_on

abbrev verdict_or : Verdict → Ran → Verdict
verdict_or v (answered u active) = u
verdict_or v _ = v

abbrev none_given : Verdict
none_given = record {
  verdict = "";
  artifact = Artifact.key_mismatch;
  decision = path_found [];
  path_rules = none;
  revocation = [];
  accounting = [];
}

abbrev verdict : Verdict
verdict = verdict_or none_given (run_engine world input rest_on)

run_objects : run_engine world input objects ≡ answered verdict rest_on
unfolding run_engine candidates edge_checks terminal_checks
run_objects = refl

is_valid_run : verdict.verdict ≡ "VALID"
unfolding run_engine candidates edge_checks terminal_checks
is_valid_run = refl

run_engine-ne-unsettled_example : run_engine world input objects ≢ unsettled
run_engine-ne-unsettled_example = run_engine-ne-unsettled world input objects

run_engine-Reproduces_example : run_engine world input rest_on ≡ answered verdict rest_on
run_engine-Reproduces_example = run_engine-Reproduces world input objects run_objects

run_engine-valid_example :
    Signs world input (cert "leaf" "top")
    × ((rest : List String) × (verdict.decision ≡ path_found ("leaf" ∷ rest))
        × IsSigner 50 (cert "leaf" "top")
        × IsChain
            (explorer rest_on world input)
            (fresh_status (explorer rest_on world input) (evaluator rest_on world input))
            "leaf"
            []
            rest
        × IsDistinct ("leaf" ∷ rest)
        × (length ("leaf" ∷ rest) ≤ 33))
run_engine-valid_example =
    run_engine-valid world input objects run_objects is_valid_run (λ fp. refl)
      (λ a b c e.
        ap (fresh_status (explorer rest_on world input) (evaluator rest_on world input) a) e)

anchor_reachable_iff_example :
    In "leaf" (anchor_reachable rest_on ("top" ∷ [])) ↔ Anchored rest_on ("top" ∷ []) "leaf"
anchor_reachable_iff_example = anchor_reachable_iff rest_on ("top" ∷ []) "leaf"
