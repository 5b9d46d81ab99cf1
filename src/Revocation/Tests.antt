-- ===== src/Revocation/Tests.antt =====
-- The theorems about revocation at a CRL with one entry and a delta that removes it.
use ab_b1b34dfe_mgf1_ocsp_bu.Prelude.{
  ℕ, String, [], ◌∷◌, none, some, true, str_eq, if◌then◌else◌, ◌==◌, ap, ◌≡◌, ◌↔◌, In, refl,
}
use ab_b1b34dfe_mgf1_ocsp_bu.Prelude.Dict.{lookup}
use ab_b1b34dfe_mgf1_ocsp_bu.Cert.{CertInfo}
use ab_b1b34dfe_mgf1_ocsp_bu.Samples.{cert}
use ab_b1b34dfe_mgf1_ocsp_bu.Revocation.{
  CrlInfo, OcspInfo, Evaluator, View, Content, EvalState, Entries,
}
use ab_b1b34dfe_mgf1_ocsp_bu.Revocation.Delta.{merge_entries, merged_answer, lookup-merge_entries}
use ab_b1b34dfe_mgf1_ocsp_bu.Revocation.Evaluate.{start, compute, conclusion}
use ab_b1b34dfe_mgf1_ocsp_bu.Revocation.Gather.{gather}
use ab_b1b34dfe_mgf1_ocsp_bu.Revocation.Admitted.{IsView, gather-IsView}
use ab_b1b34dfe_mgf1_ocsp_bu.Revocation.Selected.{Selected, compute-Selected}
use ab_b1b34dfe_mgf1_ocsp_bu.Revocation.Judged.{IsJudged, conclusion-IsJudged}
use ab_b1b34dfe_mgf1_ocsp_bu.Revocation.Cutoff.{judgement, without_late, compute-without_late}
use ab_b1b34dfe_mgf1_ocsp_bu.Revocation.Lawful.{
  fresh_state, with_evaluator, Agrees, fresh_status, status-IsLawful,
}
use ab_b1b34dfe_mgf1_ocsp_bu.Graph.{Explorer}
use ab_b1b34dfe_mgf1_ocsp_bu.Graph.Cache.{IsLawful}

-- the certificate with serial number 1 was revoked at 30
abbrev base_entries : Entries
base_entries = (1, (30, some "certificateHold")) ∷ []

abbrev delta_entries : Entries
delta_entries = (1, (35, some "removeFromCRL")) ∷ []

abbrev crl : String → CrlInfo
crl fp = record {
  fingerprint = fp;
  issuer_hex = "mid";
  aki_keyid = none;
  crl_number = some (if str_eq fp "base" then 1 else 2);
  base_crl_number = some 1;
  is_delta = str_eq fp "delta";
  this_update = if str_eq fp "base" then 40 else 45;
  next_update = some 60;
  entries = if str_eq fp "base" then base_entries else delta_entries;
  idp_der_hex = none;
  sig_alg = some (record { algorithm = "ed25519"; hash = none; pss = none });
  signature = [];
  tbs = [];
  unsupported = [];
}

abbrev response : String → OcspInfo
response fp = record {
  fingerprint = fp;
  produced_at = 40;
  responses = [];
  responder_key_hash = none;
  responder_name = none;
  responder_certs = [];
  signature = [];
  tbs = [];
  sig_alg = none;
  unsupported = [];
}

-- the delta was received at 80, after a cutoff of 70
abbrev evaluator : ℕ → Evaluator
evaluator knowledge_cutoff = record {
  crl_index = λ name. "delta" ∷ "base" ∷ [];
  ocsp_fps = [];
  metas = λ fp. record {
    received_at = if str_eq fp "delta" then 80 else 50;
    otype = "crl";
    responses = [];
  };
  get_crl = crl;
  get_ocsp = response;
  signed_at = 50;
  knowledge_cutoff = knowledge_cutoff;
  digest = λ alg text. text;
  key_bits = λ c. c.key_fp;
  parse_certificate = λ der. none;
  pub_verify = λ key scheme signature message. true;
}

abbrev leaf : CertInfo
leaf = cert "leaf" "mid"

abbrev mid : CertInfo
mid = cert "mid" "top"

revoked_early : (compute (evaluator 70) leaf mid fresh_state).0.status ≡ "REVOKED"
unfolding compute
revoked_early = refl

good_with_delta : (compute (evaluator 90) leaf mid fresh_state).0.status ≡ "GOOD"
unfolding compute
good_with_delta = refl

lookup-merge_entries_example :
    lookup ◌==◌ 1 (merge_entries base_entries delta_entries)
    ≡ merged_answer (lookup ◌==◌ 1 base_entries) (lookup ◌==◌ 1 delta_entries)
lookup-merge_entries_example = lookup-merge_entries base_entries delta_entries 1 (refl, tt)

abbrev a_view : View
a_view = record {
  view_id = "crl:base";
  content = Content.crl base_entries;
  as_of = 40;
  next_update = some 60;
  evidence = "base" ∷ [];
}

gather-IsView_example :
    In a_view (gather (evaluator 70) leaf mid (start fresh_state)).views
    ↔ IsView (evaluator 70) leaf mid a_view
gather-IsView_example = gather-IsView (evaluator 70) leaf mid fresh_state a_view

compute-Selected_example :
    Selected (evaluator 70) leaf mid (compute (evaluator 70) leaf mid fresh_state).0
compute-Selected_example = compute-Selected (evaluator 70) leaf mid fresh_state

conclusion-IsJudged_example : IsJudged 50 1 a_view (conclusion 50 1 a_view)
conclusion-IsJudged_example = conclusion-IsJudged 50 1 a_view

compute-without_late_example :
    judgement (compute (without_late (evaluator 70)) leaf mid fresh_state).0
    ≡ judgement (compute (evaluator 70) leaf mid fresh_state).0
compute-without_late_example = compute-without_late (evaluator 70) leaf mid fresh_state fresh_state

abbrev explorer : Explorer EvalState
explorer = record {
  get_cert = λ fp. cert fp (if str_eq fp "leaf" then "mid" else "top");
  by_subject = λ hex. hex ∷ [];
  meta_ski = λ fp. none;
  meta_aki = λ fp. none;
  anchors = "top" ∷ [];
  anchor_reachable = "top" ∷ "mid" ∷ "leaf" ∷ [];
  signed_at = 50;
  initial_policy_set = "anyPolicy" ∷ [];
  status = λ c p e. ("GOOD", e);
  max_path_len = 32;
  max_branches = 65536;
  hostname = λ uri. none;
  pub_verify = λ key scheme signature message. true;
}

status-IsLawful_example :
    IsLawful
      (with_evaluator explorer (evaluator 70))
      (Agrees explorer (evaluator 70))
      (fresh_status explorer (evaluator 70))
status-IsLawful_example =
    status-IsLawful explorer (evaluator 70) (λ fp. refl)
      (λ a b c e. ap (fresh_status explorer (evaluator 70) a) e)
