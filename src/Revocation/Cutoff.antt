-- ===== src/Revocation/Cutoff.antt =====
-- The knowledge cutoff of app/revocation.py: evidence received after it changes no outcome.
use ab_b1b34dfe_mgf1_ocsp_bu.Prelude.{
  ℕ, String, List, [], ◌∷◌, Option, none, some, Bool, false, not, ltb, select, sort_by, str_le,
  str_le_total, str_le_trans, flat_map-select, sum_by-select, select-sort_by, ◌≡◌, ◌⊎◌, inl, inr,
  any, refl, sym, ap, ◌∙◌, arith, Bool-cases,
}
use ab_b1b34dfe_mgf1_ocsp_bu.Cert.{CertInfo}
use ab_b1b34dfe_mgf1_ocsp_bu.Revocation.{Evaluator, View, view_le, Outcome, EvalState}
use ab_b1b34dfe_mgf1_ocsp_bu.Revocation.Evidence.{
  meta_matches, crl_excluded, irrelevant, ocsp_excluded, crl_verdict, ocsp_verdict,
}
use ab_b1b34dfe_mgf1_ocsp_bu.Revocation.Gather.{
  Gathered, gather, valid_crls, valid_ocsps, valid_of, view_of,
}
use ab_b1b34dfe_mgf1_ocsp_bu.Revocation.Evaluate.{
  decide, compute, conclusion, start, no_view_status,
}
use ab_b1b34dfe_mgf1_ocsp_bu.Revocation.Views.{all_valid, all_views, gather-views}
use ab_b1b34dfe_mgf1_ocsp_bu.Revocation.Defects.{
  crl_defect, ocsp_defect, crl_defects, ocsp_defects, defects, gather-defects,
}

-- what an outcome says, the list of evaluated evidence left out
abbrev pub Judgement : Type 0
Judgement = String × Option String × List String × Option ℕ × Option String

abbrev pub judgement : Outcome → Judgement
judgement o =
    (o.status, o.selected_view, o.selected_evidence, o.revocation_time, o.revocation_reason)

abbrev judge : ℕ → ℕ → ℕ → List View → Judgement
judge signed_at serial defective [] = (no_view_status defective, none, [], none, none)
judge signed_at serial defective (w ∷ ws) =
    let (status, time, reason) = conclusion signed_at serial w in
    (status, some w.view_id, sort_by str_le w.evidence, time, reason)

-- received by the cutoff
abbrev pub in_time : Evaluator → String → Bool
in_time v fp = not (ltb v.knowledge_cutoff (v.metas fp).received_at)

-- the evaluator without the evidence that was received after the cutoff
abbrev pub without_late : Evaluator → Evaluator
without_late v = record v {
  crl_index = λ name. select (in_time v) (v.crl_index name);
  ocsp_fps = select (in_time v) v.ocsp_fps;
}

module _ (v : Evaluator) (cert issuer : CertInfo) where
  decide-judge :
      (ws : List View) (g : Gathered)
      → judgement (decide v cert issuer ws g).0 ≡ judge v.signed_at cert.serial g.defective ws
  unfolding decide
  decide-judge [] g = refl
  decide-judge (w ∷ ws) g = refl

  compute-judge :
      (e : EvalState)
      → judgement (compute v cert issuer e).0
        ≡ judge v.signed_at cert.serial
            (defects v cert issuer)
            (sort_by view_le (all_views v cert issuer))
  unfolding compute
  compute-judge e =
      let g = gather v cert issuer (start e) in
      decide-judge (sort_by view_le g.views) g
      ∙ rw
          (
            gather-views v cert issuer (start e) refl refl refl,
            gather-defects v cert issuer (start e) refl refl refl,
          )
          refl

  late_crl :
      (fp : String)
      → in_time v fp ≡ false
      → crl_verdict v issuer fp ≡ crl_excluded "RECEIVED_AFTER_CUTOFF" false
  unfolding crl_verdict
  late_crl fp h = ground arith

  late_ocsp :
      (fp : String)
      → in_time v fp ≡ false
      → (ocsp_verdict v cert issuer fp ≡ irrelevant)
        ⊎ (ocsp_verdict v cert issuer fp ≡ ocsp_excluded "RECEIVED_AFTER_CUTOFF" false)
  unfolding ocsp_verdict
  late_ocsp fp h = elim (Bool-cases (any (meta_matches v cert issuer) (v.metas fp).responses)) [
    | inl e ↦ inr (ground arith)
    | inr e ↦ inl (ground arith)
  ]

  same_crl : (fp : String) → crl_verdict (without_late v) issuer fp ≡ crl_verdict v issuer fp
  unfolding crl_verdict
  same_crl fp = refl

  same_ocsp :
      (fp : String) → ocsp_verdict (without_late v) cert issuer fp ≡ ocsp_verdict v cert issuer fp
  unfolding ocsp_verdict
  same_ocsp fp = refl

  same_valid_crls :
      (fps : List String)
      → valid_crls (without_late v) cert issuer fps ≡ valid_crls v cert issuer fps
  same_valid_crls [] = refl
  same_valid_crls (fp ∷ fps) = rw (same_crl fp, same_valid_crls fps) refl

  same_all_valid : all_valid (without_late v) cert issuer ≡ all_valid v cert issuer
  same_all_valid =
      let fps = v.crl_index cert.issuer_hex in
      same_valid_crls (sort_by str_le (select (in_time v) fps))
      ∙ ap (valid_crls v cert issuer)
          (sym (select-sort_by str_le str_le_total str_le_trans (in_time v) fps))
      ∙ flat_map-select (λ (fp : String). valid_of (crl_verdict v issuer fp)) (in_time v)
          (sort_by str_le fps) (λ fp h. rw (late_crl fp h) refl)

  same_valid_ocsps :
      (fps : List String)
      → valid_ocsps (without_late v) cert issuer fps ≡ valid_ocsps v cert issuer fps
  same_valid_ocsps [] = refl
  same_valid_ocsps (fp ∷ fps) = rw (same_ocsp fp, same_valid_ocsps fps) refl

  same_all_ocsps :
      valid_ocsps (without_late v) cert issuer (sort_by str_le (select (in_time v) v.ocsp_fps))
      ≡ valid_ocsps v cert issuer (sort_by str_le v.ocsp_fps)
  same_all_ocsps =
      same_valid_ocsps (sort_by str_le (select (in_time v) v.ocsp_fps))
      ∙ ap (valid_ocsps v cert issuer)
          (sym (select-sort_by str_le str_le_total str_le_trans (in_time v) v.ocsp_fps))
      ∙ flat_map-select (λ (fp : String). view_of (ocsp_verdict v cert issuer fp)) (in_time v)
          (sort_by str_le v.ocsp_fps)
          (λ fp h. elim (late_ocsp fp h) [ inl e ↦ rw e refl | inr e ↦ rw e refl ])

  same_views : all_views (without_late v) cert issuer ≡ all_views v cert issuer
  same_views = rw (same_all_valid, same_all_ocsps) refl

  same_crl_defects :
      (fps : List String)
      → crl_defects (without_late v) cert issuer fps ≡ crl_defects v cert issuer fps
  same_crl_defects [] = refl
  same_crl_defects (fp ∷ fps) = rw (same_crl fp, same_crl_defects fps) refl

  same_ocsp_defects :
      (fps : List String)
      → ocsp_defects (without_late v) cert issuer fps ≡ ocsp_defects v cert issuer fps
  same_ocsp_defects [] = refl
  same_ocsp_defects (fp ∷ fps) = rw (same_ocsp fp, same_ocsp_defects fps) refl

  same_defects : defects (without_late v) cert issuer ≡ defects v cert issuer
  same_defects =
      let fps = v.crl_index cert.issuer_hex in
      let a =
        same_crl_defects (sort_by str_le (select (in_time v) fps))
        ∙ ap (crl_defects v cert issuer)
            (sym (select-sort_by str_le str_le_total str_le_trans (in_time v) fps))
        ∙ sum_by-select (λ (fp : String). crl_defect (crl_verdict v issuer fp)) (in_time v)
            (sort_by str_le fps) (λ fp h. rw (late_crl fp h) refl) in
      let b =
        same_ocsp_defects (sort_by str_le (select (in_time v) v.ocsp_fps))
        ∙ ap (ocsp_defects v cert issuer)
            (sym (select-sort_by str_le str_le_total str_le_trans (in_time v) v.ocsp_fps))
        ∙ sum_by-select (λ (fp : String). ocsp_defect (ocsp_verdict v cert issuer fp)) (in_time v)
            (sort_by str_le v.ocsp_fps)
            (λ fp h. elim (late_ocsp fp h) [ inl e ↦ rw e refl | inr e ↦ rw e refl ]) in
      rw (a, b, same_all_valid) refl

-- Evidence received after the knowledge cutoff changes nothing of what an outcome says: leaving it
-- out of the evaluator, from any states, gives the same status, view, evidence, time and reason.
pub compute-without_late :
    (v : Evaluator) (cert issuer : CertInfo) (e f : EvalState)
    → judgement (compute (without_late v) cert issuer e).0 ≡ judgement (compute v cert issuer f).0
compute-without_late v cert issuer e f =
    compute-judge (without_late v) cert issuer e
    ∙ rw (same_views v cert issuer, same_defects v cert issuer)
        (sym (compute-judge v cert issuer f))

-- what an outcome says does not depend on the evaluator's state
pub compute-pure :
    (v : Evaluator) (cert issuer : CertInfo) (e f : EvalState)
    → judgement (compute v cert issuer e).0 ≡ judgement (compute v cert issuer f).0
compute-pure v cert issuer e f = compute-judge v cert issuer e ∙ sym (compute-judge v cert issuer f)
