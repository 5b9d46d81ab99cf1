-- ===== src/Revocation/Views.antt =====
-- The views that `_compute` of app/revocation.py gathers, and the evidence that they rest on.
use ab_b1b34dfe_mgf1_ocsp_bu.Prelude.{
  String, List, [], ◌∷◌, ◌++◌, Bool, true, not, str_le, map, select, sort_by, ◌≡◌, refl, ◌∙◌, ap,
  arith, sym, append-nil, append_assoc, select-append, map-append,
}
use ab_b1b34dfe_mgf1_ocsp_bu.Cert.{CertInfo}
use ab_b1b34dfe_mgf1_ocsp_bu.Revocation.{CrlInfo, Evaluator, View}
use ab_b1b34dfe_mgf1_ocsp_bu.Revocation.Delta.{complete_view, delta_views}
use ab_b1b34dfe_mgf1_ocsp_bu.Revocation.Evidence.{
  CrlVerdict, crl_excluded, crl_valid, OcspVerdict, irrelevant, ocsp_excluded, ocsp_valid,
  crl_verdict, ocsp_verdict,
}
use ab_b1b34dfe_mgf1_ocsp_bu.Revocation.Gather.{
  Gathered, exclude, keep_crl, gather_crls, gather_deltas, gather_ocsps, gather, valid_crls,
  views_of_deltas, valid_ocsps, valid_of, view_of, on_crl, on_delta, on_ocsp, touch,
}

abbrev pub is_complete : CrlInfo → Bool
is_complete c = not c.is_delta

abbrev pub is_delta : CrlInfo → Bool
is_delta c = c.is_delta

-- what a step of the CRL loop adds
abbrev pub Added : Gathered → Gathered → List CrlInfo → Type 0
Added g h valid =
    (h.completes ≡ g.completes ++ select is_complete valid)
    × (h.deltas ≡ g.deltas ++ select is_delta valid)
    × (h.views ≡ g.views ++ map complete_view (select is_complete valid))

keep_crl-Added : (c : CrlInfo) (g : Gathered) → Added g (keep_crl c g) (c ∷ [])
unfolding keep_crl
keep_crl-Added c g = ground (arith, append-nil g.completes, append-nil g.deltas, append-nil g.views)

exclude-Added :
    (fp otype reason : String) (b : Bool) (g : Gathered) → Added g (exclude fp otype reason b g) []
unfolding exclude
exclude-Added fp otype reason b g =
    (sym (append-nil g.completes), sym (append-nil g.deltas), sym (append-nil g.views))

Added-trans :
    (g h k : Gathered) (xs ys : List CrlInfo) → Added g h xs → Added h k ys → Added g k (xs ++ ys)
Added-trans g h k xs ys a b = (
  rw (b.0, a.0, select-append is_complete xs ys)
      (append_assoc g.completes (select is_complete xs) (select is_complete ys)),
  rw (b.1, a.1, select-append is_delta xs ys)
      (append_assoc g.deltas (select is_delta xs) (select is_delta ys)),
  rw
      (
        b.2,
        a.2,
        select-append is_complete xs ys,
        map-append complete_view (select is_complete xs) (select is_complete ys),
      )
      (append_assoc g.views (map complete_view (select is_complete xs))
        (map complete_view (select is_complete ys))),
)

module _ (v : Evaluator) (cert issuer : CertInfo) where
  on_crl-Added :
      (fp : String) (r : CrlVerdict) (g : Gathered)
      → Added g (on_crl fp r (touch fp g)) (valid_of r)
  on_crl-Added fp (crl_excluded reason b) g = exclude-Added fp "crl" reason b (touch fp g)
  on_crl-Added fp (crl_valid c) g = keep_crl-Added c (touch fp g)

  gather_crls-cons :
      (fp : String) (fps : List String) (g : Gathered)
      → gather_crls v cert issuer (fp ∷ fps) g
        ≡ gather_crls v cert issuer fps (on_crl fp (crl_verdict v issuer fp) (touch fp g))
  unfolding gather_crls
  gather_crls-cons fp fps g = refl

  gather_crls-nil : (g : Gathered) → gather_crls v cert issuer [] g ≡ g
  unfolding gather_crls
  gather_crls-nil g = refl

  pub gather_crls-Added :
      (fps : List String) (g : Gathered)
      → Added g (gather_crls v cert issuer fps g) (valid_crls v cert issuer fps)
  gather_crls-Added [] g =
      rw (gather_crls-nil g)
        (sym (append-nil g.completes), sym (append-nil g.deltas), sym (append-nil g.views))
  gather_crls-Added (fp ∷ fps) g = rw (gather_crls-cons fp fps g) (
      Added-trans g (on_crl fp (crl_verdict v issuer fp) (touch fp g))
        (gather_crls v cert issuer fps (on_crl fp (crl_verdict v issuer fp) (touch fp g)))
        (valid_of (crl_verdict v issuer fp)) (valid_crls v cert issuer fps)
        (on_crl-Added fp (crl_verdict v issuer fp) g)
        (gather_crls-Added fps (on_crl fp (crl_verdict v issuer fp) (touch fp g))))

  exclude-views :
      (fp otype reason : String) (b : Bool) (g : Gathered)
      → (exclude fp otype reason b g).views ≡ g.views
  unfolding exclude
  exclude-views fp otype reason b g = refl

  on_delta-views :
      (fp : String) (ws : List View) (g : Gathered) → (on_delta fp ws g).views ≡ g.views ++ ws
  on_delta-views fp [] g =
      exclude-views fp "crl" "NO_COMPATIBLE_BASE" true g ∙ sym (append-nil g.views)
  on_delta-views fp (w ∷ ws) g = refl

  gather_deltas-views :
      (completes ds : List CrlInfo) (g : Gathered)
      → (gather_deltas v cert issuer completes ds g).views
        ≡ g.views ++ views_of_deltas v cert issuer completes ds
  unfolding gather_deltas
  gather_deltas-views completes [] g = sym (append-nil g.views)
  gather_deltas-views completes (d ∷ ds) g =
      gather_deltas-views completes ds (on_delta d.fingerprint (delta_views completes d) g)
      ∙ ap (λ t. t ++ views_of_deltas v cert issuer completes ds)
          (on_delta-views d.fingerprint (delta_views completes d) g)
      ∙ append_assoc g.views (delta_views completes d) (views_of_deltas v cert issuer completes ds)

  on_ocsp-views :
      (fp : String) (r : OcspVerdict) (g : Gathered) → (on_ocsp fp r g).views ≡ g.views ++ view_of r
  on_ocsp-views fp irrelevant g = sym (append-nil g.views)
  on_ocsp-views fp (ocsp_excluded reason b) g =
      exclude-views fp "ocsp" reason b (touch fp g) ∙ sym (append-nil g.views)
  on_ocsp-views fp (ocsp_valid w) g = refl

  gather_ocsps-cons :
      (fp : String) (fps : List String) (g : Gathered)
      → gather_ocsps v cert issuer (fp ∷ fps) g
        ≡ gather_ocsps v cert issuer fps (on_ocsp fp (ocsp_verdict v cert issuer fp) g)
  unfolding gather_ocsps
  gather_ocsps-cons fp fps g = refl

  gather_ocsps-nil : (g : Gathered) → gather_ocsps v cert issuer [] g ≡ g
  unfolding gather_ocsps
  gather_ocsps-nil g = refl

  gather_ocsps-views :
      (fps : List String) (g : Gathered)
      → (gather_ocsps v cert issuer fps g).views ≡ g.views ++ valid_ocsps v cert issuer fps
  gather_ocsps-views [] g = rw (gather_ocsps-nil g) (sym (append-nil g.views))
  gather_ocsps-views (fp ∷ fps) g = rw (gather_ocsps-cons fp fps g) (
      gather_ocsps-views fps (on_ocsp fp (ocsp_verdict v cert issuer fp) g)
      ∙ ap (λ t. t ++ valid_ocsps v cert issuer fps)
          (on_ocsp-views fp (ocsp_verdict v cert issuer fp) g)
      ∙ append_assoc g.views (view_of (ocsp_verdict v cert issuer fp))
          (valid_ocsps v cert issuer fps))

  -- the valid CRLs for the certificate's issuer, by fingerprint
  abbrev pub all_valid : List CrlInfo
  all_valid = valid_crls v cert issuer (sort_by str_le (v.crl_index cert.issuer_hex))

  -- all views in the order in which they are gathered
  abbrev pub all_views : List View
  all_views =
      map complete_view (select is_complete all_valid)
      ++ (views_of_deltas v cert issuer (select is_complete all_valid) (select is_delta all_valid)
          ++ valid_ocsps v cert issuer (sort_by str_le v.ocsp_fps))

  pub gather-views :
      (g : Gathered)
      → g.completes ≡ []
      → g.deltas ≡ []
      → g.views ≡ []
      → (gather v cert issuer g).views ≡ all_views
  unfolding gather
  gather-views g c d w =
      let g₁ = gather_crls v cert issuer (sort_by str_le (v.crl_index cert.issuer_hex)) g in
      let h = gather_crls-Added (sort_by str_le (v.crl_index cert.issuer_hex)) g in
      gather_ocsps-views (sort_by str_le v.ocsp_fps)
        (gather_deltas v cert issuer g₁.completes g₁.deltas g₁)
      ∙ ap (λ t. t ++ valid_ocsps v cert issuer (sort_by str_le v.ocsp_fps))
          (gather_deltas-views g₁.completes g₁.deltas g₁ ∙ rw (h.0, h.1, h.2, c, d, w) refl)
      ∙ append_assoc (map complete_view (select is_complete all_valid))
          (views_of_deltas v cert issuer (select is_complete all_valid) (select is_delta all_valid))
          (valid_ocsps v cert issuer (sort_by str_le v.ocsp_fps))
