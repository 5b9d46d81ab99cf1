-- ===== src/Revocation/Defects.antt =====
-- How many pieces of defective evidence `_compute` of app/revocation.py counts, without its loops.
use ab_b1b34dfe_mgf1_ocsp_bu.Prelude.{
  ℕ, ◌+◌, String, List, [], ◌∷◌, Bool, true, false, select, sort_by, str_le, sum_by, ◌≡◌, refl,
  arith,
}
use ab_b1b34dfe_mgf1_ocsp_bu.Cert.{CertInfo}
use ab_b1b34dfe_mgf1_ocsp_bu.Revocation.{CrlInfo, Evaluator, View}
use ab_b1b34dfe_mgf1_ocsp_bu.Revocation.Delta.{delta_views}
use ab_b1b34dfe_mgf1_ocsp_bu.Revocation.Evidence.{
  CrlVerdict, crl_excluded, crl_valid, OcspVerdict, irrelevant, ocsp_excluded, ocsp_valid,
  crl_verdict, ocsp_verdict,
}
use ab_b1b34dfe_mgf1_ocsp_bu.Revocation.Gather.{
  Gathered, exclude, keep_crl, gather_crls, gather_deltas, gather_ocsps, gather, on_crl, on_delta,
  on_ocsp, touch,
}
use ab_b1b34dfe_mgf1_ocsp_bu.Revocation.Views.{is_complete, is_delta, all_valid, gather_crls-Added}

abbrev pub one_if : Bool → ℕ
one_if true = 1
one_if false = 0

abbrev pub crl_defect : CrlVerdict → ℕ
crl_defect (crl_excluded reason d) = one_if d
crl_defect (crl_valid c) = 0

abbrev pub ocsp_defect : OcspVerdict → ℕ
ocsp_defect irrelevant = 0
ocsp_defect (ocsp_excluded reason d) = one_if d
ocsp_defect (ocsp_valid w) = 0

abbrev pub delta_defect : List View → ℕ
delta_defect [] = 1
delta_defect (w ∷ ws) = 0

exclude-defective :
    (fp otype reason : String) (b : Bool) (g : Gathered)
    → (exclude fp otype reason b g).defective ≡ g.defective + one_if b
unfolding exclude
exclude-defective fp otype reason b g = ground arith

keep_crl-defective : (c : CrlInfo) (g : Gathered) → (keep_crl c g).defective ≡ g.defective
unfolding keep_crl
keep_crl-defective c g = ground arith

on_crl-defective :
    (fp : String) (r : CrlVerdict) (g : Gathered)
    → (on_crl fp r g).defective ≡ g.defective + crl_defect r
on_crl-defective fp (crl_excluded reason b) g = exclude-defective fp "crl" reason b g
on_crl-defective fp (crl_valid c) g = omega (arith, keep_crl-defective c g)

on_delta-defective :
    (fp : String) (ws : List View) (g : Gathered)
    → (on_delta fp ws g).defective ≡ g.defective + delta_defect ws
on_delta-defective fp [] g = exclude-defective fp "crl" "NO_COMPATIBLE_BASE" true g
on_delta-defective fp (w ∷ ws) g = omega arith

on_ocsp-defective :
    (fp : String) (r : OcspVerdict) (g : Gathered)
    → (on_ocsp fp r g).defective ≡ g.defective + ocsp_defect r
on_ocsp-defective fp irrelevant g = omega arith
on_ocsp-defective fp (ocsp_excluded reason b) g = exclude-defective fp "ocsp" reason b (touch fp g)
on_ocsp-defective fp (ocsp_valid w) g = omega arith

module _ (v : Evaluator) (cert issuer : CertInfo) where
  abbrev pub crl_defects : List String → ℕ
  crl_defects = sum_by (λ fp. crl_defect (crl_verdict v issuer fp))

  abbrev pub delta_defects : List CrlInfo → List CrlInfo → ℕ
  delta_defects completes = sum_by (λ d. delta_defect (delta_views completes d))

  abbrev pub ocsp_defects : List String → ℕ
  ocsp_defects = sum_by (λ fp. ocsp_defect (ocsp_verdict v cert issuer fp))

  gather_crls-defective :
      (fps : List String) (g : Gathered)
      → (gather_crls v cert issuer fps g).defective ≡ g.defective + crl_defects fps
  unfolding gather_crls
  gather_crls-defective [] g = omega arith
  gather_crls-defective (fp ∷ fps) g = omega (
    arith,
    gather_crls-defective fps (on_crl fp (crl_verdict v issuer fp) (touch fp g)),
    on_crl-defective fp (crl_verdict v issuer fp) (touch fp g),
  )

  gather_deltas-defective :
      (completes ds : List CrlInfo) (g : Gathered)
      → (gather_deltas v cert issuer completes ds g).defective
        ≡ g.defective + delta_defects completes ds
  unfolding gather_deltas
  gather_deltas-defective completes [] g = omega arith
  gather_deltas-defective completes (d ∷ ds) g = omega (
    arith,
    gather_deltas-defective completes ds (on_delta d.fingerprint (delta_views completes d) g),
    on_delta-defective d.fingerprint (delta_views completes d) g,
  )

  gather_ocsps-defective :
      (fps : List String) (g : Gathered)
      → (gather_ocsps v cert issuer fps g).defective ≡ g.defective + ocsp_defects fps
  unfolding gather_ocsps
  gather_ocsps-defective [] g = omega arith
  gather_ocsps-defective (fp ∷ fps) g = omega (
    arith,
    gather_ocsps-defective fps (on_ocsp fp (ocsp_verdict v cert issuer fp) g),
    on_ocsp-defective fp (ocsp_verdict v cert issuer fp) g,
  )

  -- CRLs that are unsupported or not signed, deltas without a base, and unusable responses
  abbrev pub defects : ℕ
  defects =
      crl_defects (sort_by str_le (v.crl_index cert.issuer_hex))
      + (delta_defects (select is_complete (all_valid v cert issuer))
            (select is_delta (all_valid v cert issuer))
          + ocsp_defects (sort_by str_le v.ocsp_fps))

  pub gather-defects :
      (g : Gathered)
      → g.completes ≡ []
      → g.deltas ≡ []
      → g.defective ≡ 0
      → (gather v cert issuer g).defective ≡ defects
  unfolding gather
  gather-defects g c d n =
      let fps = sort_by str_le (v.crl_index cert.issuer_hex) in
      let g₁ = gather_crls v cert issuer fps g in
      let h = gather_crls-Added v cert issuer fps g in
      let a : g₁.completes ≡ select is_complete (all_valid v cert issuer) = rw (h.0, c) refl in
      let b : g₁.deltas ≡ select is_delta (all_valid v cert issuer) = rw (h.1, d) refl in
      let e =
        gather_deltas-defective (select is_complete (all_valid v cert issuer))
          (select is_delta (all_valid v cert issuer)) g₁ in
      rw (a, b)
        (omega (
          arith,
          n,
          e,
          gather_crls-defective fps g,
          gather_ocsps-defective (sort_by str_le v.ocsp_fps) (
              gather_deltas v cert issuer (select is_complete (all_valid v cert issuer))
                (select is_delta (all_valid v cert issuer)) g₁),
        ))
