-- ===== src/Revocation/Admitted.antt =====
-- Which evidence makes a view, told without the loops of `_compute` of app/revocation.py.
use ab_b1b34dfe_mgf1_ocsp_bu.Prelude.{
  String, List, [], ◌++◌, some, Bool, true, false, ◌≤◌, ltb, str_le, map, select, sort_by, any,
  find, In, In-append, In-select, In-sort_by, In-map, In-flat_map, ◌≡◌, ◌↔◌, ◌⊎◌, arith, Bool-cases,
  Option-cases, inl, inr, subst, sym, ap, not, refl,
}
use ab_b1b34dfe_mgf1_ocsp_bu.Cert.{CertInfo}
use ab_b1b34dfe_mgf1_ocsp_bu.Revocation.{CrlInfo, SingleResponse, Evaluator, View, EvalState}
use ab_b1b34dfe_mgf1_ocsp_bu.Revocation.Delta.{
  compatible, complete_view, merged_view, by_fingerprint, delta_views,
}
use ab_b1b34dfe_mgf1_ocsp_bu.Revocation.Evidence.{
  crl_valid, ocsp_valid, crl_verdict, ocsp_verdict, response_verdict, key_mismatch,
  verify_crl_signature, meta_matches, single_matches, verify_ocsp_authorization, lacks_time,
  ocsp_view,
}
use ab_b1b34dfe_mgf1_ocsp_bu.Revocation.Gather.{
  views_of_deltas, valid_ocsps, valid_of, view_of, gather,
}
use ab_b1b34dfe_mgf1_ocsp_bu.Revocation.Evaluate.{start}
use ab_b1b34dfe_mgf1_ocsp_bu.Revocation.Views.{
  is_complete, is_delta, all_valid, all_views, gather-views,
}

module _ (v : Evaluator) (cert issuer : CertInfo) where
  -- A CRL that counts for the certificate: listed for its issuer, received by the cutoff, with
  -- nothing unsupported, with no other issuer key named, and signed with the issuer's key.
  pub record IsCounted (fp : String) (c : CrlInfo) : Type 0 where
    pub is_read : c ≡ v.get_crl fp
    pub in_time : (v.metas fp).received_at ≤ v.knowledge_cutoff
    pub supported : c.unsupported ≡ []
    pub same_key : key_mismatch c.aki_keyid issuer.ski ≡ false
    pub signed : verify_crl_signature v c issuer ≡ true

  pub crl_verdict_iff :
      (fp : String) (c : CrlInfo) → (crl_verdict v issuer fp ≡ crl_valid c) ↔ IsCounted fp c
  unfolding crl_verdict
  crl_verdict_iff fp c =
      (λ h. to (Bool-cases (ltb v.knowledge_cutoff (v.metas fp).received_at)) h, λ h. from h)
    where
      to :
          (ltb v.knowledge_cutoff (v.metas fp).received_at ≡ true)
            ⊎ (ltb v.knowledge_cutoff (v.metas fp).received_at ≡ false)
          → crl_verdict v issuer fp ≡ crl_valid c
          → IsCounted fp c
      to late h =
          let e : c ≡ v.get_crl fp = ground arith in
          record {
            is_read = e;
            in_time = ground arith;
            supported = rw e (ground arith);
            same_key = rw e (ground arith);
            signed = rw e (ground arith);
          }

      from : IsCounted fp c → crl_verdict v issuer fp ≡ crl_valid c
      from h =
          let supported = subst (λ (t : CrlInfo). t.unsupported ≡ []) h.is_read h.supported in
          let same_key =
            subst (λ (t : CrlInfo). key_mismatch t.aki_keyid issuer.ski ≡ false) h.is_read
              h.same_key in
          let signed =
            subst (λ (t : CrlInfo). verify_crl_signature v t issuer ≡ true) h.is_read h.signed in
          let in_time = h.in_time in ground (arith, sym h.is_read)

  -- A response that counts: its metadata name the certificate, it was received by the cutoff, holds
  -- nothing unsupported, its first response for the certificate is `r`, it is signed by the issuer
  -- or its delegate, and a revocation has a time.
  pub record IsAnswered (fp : String) (w : View) : Type 0 where
    pub r : SingleResponse
    pub responder : CertInfo
    pub relevant : any (meta_matches v cert issuer) (v.metas fp).responses ≡ true
    pub in_time : (v.metas fp).received_at ≤ v.knowledge_cutoff
    pub supported : (v.get_ocsp fp).unsupported ≡ []
    pub found : find (single_matches v cert issuer) (v.get_ocsp fp).responses ≡ some r
    pub authorized : verify_ocsp_authorization v (v.get_ocsp fp) issuer ≡ some responder
    pub timed : lacks_time v r ≡ false
    pub is_view : w ≡ ocsp_view v (v.get_ocsp fp) r

  pub IsAnswered-ocsp_verdict :
      (fp : String) (w : View) → ocsp_verdict v cert issuer fp ≡ ocsp_valid w → IsAnswered fp w
  unfolding ocsp_verdict response_verdict
  IsAnswered-ocsp_verdict fp w h =
      elim (Option-cases (find (single_matches v cert issuer) (v.get_ocsp fp).responses)) [
        | inl missing ↦ absurd (ground arith)
        | inr (r, found) ↦
            elim (Option-cases (verify_ocsp_authorization v (v.get_ocsp fp) issuer)) [
              | inl refused ↦ absurd (ground arith)
              | inr (responder, authorized) ↦ record {
                r = r;
                responder = responder;
                relevant = ground arith;
                in_time = ground arith;
                supported = ground arith;
                found = found;
                authorized = authorized;
                timed = ground arith;
                is_view = ground arith;
              }
            ]
      ]

  pub ocsp_verdict-IsAnswered :
      (fp : String) (w : View) → IsAnswered fp w → ocsp_verdict v cert issuer fp ≡ ocsp_valid w
  unfolding ocsp_verdict response_verdict
  ocsp_verdict-IsAnswered fp w h =
      let timed = h.timed in
      let authorized = h.authorized in
      let in_time = h.in_time in
      let relevant = h.relevant in rw (h.supported, h.found, h.is_view) (ground arith)

module _ (v : Evaluator) (cert issuer : CertInfo) where
  valid_of-In :
      (fp : String) (c : CrlInfo)
      → In c (valid_of (crl_verdict v issuer fp)) ↔ IsCounted v cert issuer fp c
  valid_of-In fp c = ground (arith, crl_verdict_iff v cert issuer fp c)

  view_of-In :
      (fp : String) (w : View)
      → In w (view_of (ocsp_verdict v cert issuer fp))
        ↔ (ocsp_verdict v cert issuer fp ≡ ocsp_valid w)
  view_of-In fp w = ground arith

  delta_views_iff :
      (completes : List CrlInfo) (d : CrlInfo) (w : View)
      → In w (delta_views completes d)
        ↔ ((b : CrlInfo) × In b (select (compatible d) completes) × (w ≡ merged_view d b))
  unfolding delta_views
  delta_views_iff completes d w = (
    λ h.
        let (b, m, e) =
          (In-map (merged_view d) w (sort_by by_fingerprint (select (compatible d) completes))).0
            h in
        (b, (In-sort_by by_fingerprint b (select (compatible d) completes)).0 m, e),
    λ (b, m, e).
        (In-map (merged_view d) w (sort_by by_fingerprint (select (compatible d) completes))).1
          (b, (In-sort_by by_fingerprint b (select (compatible d) completes)).1 m, e),
  )

  -- a CRL that counts, by some fingerprint listed for the certificate's issuer
  abbrev pub IsListed : CrlInfo → Type 0
  IsListed c = (fp : String) × In fp (v.crl_index cert.issuer_hex) × IsCounted v cert issuer fp c

  -- the three kinds of views: a complete CRL, a delta on a compatible complete CRL, a response
  pub data IsView (w : View) : Type 0 where
    of_complete : (c : CrlInfo) → IsListed c → c.is_delta ≡ false → w ≡ complete_view c → IsView w
    of_delta :
        (delta base : CrlInfo)
        → IsListed delta
        → delta.is_delta ≡ true
        → IsListed base
        → base.is_delta ≡ false
        → compatible delta base ≡ true
        → w ≡ merged_view delta base
        → IsView w
    of_response : (fp : String) → In fp v.ocsp_fps → IsAnswered v cert issuer fp w → IsView w

  all_valid_iff : (c : CrlInfo) → In c (all_valid v cert issuer) ↔ IsListed c
  all_valid_iff c =
      let fps = sort_by str_le (v.crl_index cert.issuer_hex) in
      let f = λ (fp : String). valid_of (crl_verdict v issuer fp) in
      (
        λ h.
            let (fp, m, k) = (In-flat_map f c fps).0 h in
            (fp, (In-sort_by str_le fp (v.crl_index cert.issuer_hex)).0 m, (valid_of-In fp c).0 k),
        λ (fp, m, k).
            (In-flat_map f c fps).1 (
              fp,
              (In-sort_by str_le fp (v.crl_index cert.issuer_hex)).1 m,
              (valid_of-In fp c).1 k,
            ),
      )

  abbrev completes : List CrlInfo
  completes = select is_complete (all_valid v cert issuer)

  abbrev deltas : List CrlInfo
  deltas = select is_delta (all_valid v cert issuer)

  complete_iff : (c : CrlInfo) → In c completes ↔ (IsListed c × (c.is_delta ≡ false))
  complete_iff c = (
    λ h.
        let s = (In-select is_complete c (all_valid v cert issuer)).0 h in
        ((all_valid_iff c).0 s.0, not_true c.is_delta s.1),
    λ (l, k).
        (In-select is_complete c (all_valid v cert issuer)).1 ((all_valid_iff c).1 l, ap not k),
  )
    where
      not_true : (b : Bool) → not b ≡ true → b ≡ false
      not_true b h = ground arith

  delta_iff : (c : CrlInfo) → In c deltas ↔ (IsListed c × (c.is_delta ≡ true))
  delta_iff c = (
    λ h.
        let s = (In-select is_delta c (all_valid v cert issuer)).0 h in
        ((all_valid_iff c).0 s.0, s.1),
    λ (l, k). (In-select is_delta c (all_valid v cert issuer)).1 ((all_valid_iff c).1 l, k),
  )

  from_complete : (w : View) → In w (map complete_view completes) → IsView w
  from_complete w h =
      let (c, m, e) = (In-map complete_view w completes).0 h in
      let (l, k) = (complete_iff c).0 m in of_complete c l k e

  from_delta : (w : View) → In w (views_of_deltas v cert issuer completes deltas) → IsView w
  from_delta w h =
      let (d, m, k) = (In-flat_map (delta_views completes) w deltas).0 h in
      let (b, n, e) = (delta_views_iff completes d w).0 k in
      let s = (In-select (compatible d) b completes).0 n in
      let (l, x) = (delta_iff d).0 m in
      let (j, y) = (complete_iff b).0 s.0 in of_delta d b l x j y s.1 e

  from_response :
      (w : View) → In w (valid_ocsps v cert issuer (sort_by str_le v.ocsp_fps)) → IsView w
  from_response w h =
      let (fp, m, k) =
        (In-flat_map (λ (fp : String). view_of (ocsp_verdict v cert issuer fp)) w
            (sort_by str_le v.ocsp_fps)).0
          h in
      of_response fp ((In-sort_by str_le fp v.ocsp_fps).0 m)
        (IsAnswered-ocsp_verdict v cert issuer fp w ((view_of-In fp w).0 k))

  all_views_iff : (w : View) → In w (all_views v cert issuer) ↔ IsView w
  all_views_iff w = (λ h. split ((append3).0 h), λ h. (append3).1 (from w h))
    where
      append3 : In w (all_views v cert issuer) ↔ (
          In w (map complete_view completes)
          ⊎ (In w (views_of_deltas v cert issuer completes deltas)
              ⊎ In w (valid_ocsps v cert issuer (sort_by str_le v.ocsp_fps))))
      append3 = ground (
        arith,
        In-append w (map complete_view completes) (
            views_of_deltas v cert issuer completes deltas
            ++ valid_ocsps v cert issuer (sort_by str_le v.ocsp_fps)),
        In-append w (views_of_deltas v cert issuer completes deltas)
            (valid_ocsps v cert issuer (sort_by str_le v.ocsp_fps)),
      )

      split :
          In w (map complete_view completes)
            ⊎ (In w (views_of_deltas v cert issuer completes deltas)
                ⊎ In w (valid_ocsps v cert issuer (sort_by str_le v.ocsp_fps)))
          → IsView w
      split (inl h) = from_complete w h
      split (inr (inl h)) = from_delta w h
      split (inr (inr h)) = from_response w h

      from :
          (u : View)
          → IsView u
          → In u (map complete_view completes)
            ⊎ (In u (views_of_deltas v cert issuer completes deltas)
                ⊎ In u (valid_ocsps v cert issuer (sort_by str_le v.ocsp_fps)))
      from u (of_complete c l k e) =
          inl ((In-map complete_view u completes).1 (c, (complete_iff c).1 (l, k), e))
      from u (of_delta d b l x j y q e) = inr (
          inl (
            (In-flat_map (delta_views completes) u deltas).1 (
              d,
              (delta_iff d).1 (l, x),
              (delta_views_iff completes d u).1
                  (b, (In-select (compatible d) b completes).1 ((complete_iff b).1 (j, y), q), e),
            )))
      from u (of_response fp m r) = inr (
          inr (
            (In-flat_map (λ (fp : String). view_of (ocsp_verdict v cert issuer fp)) u
                (sort_by str_le v.ocsp_fps)).1
              (
                fp,
                (In-sort_by str_le fp v.ocsp_fps).1 m,
                (view_of-In fp u).1 (ocsp_verdict-IsAnswered v cert issuer fp u r),
              )))

  -- The views that the loops gather, from any state, are exactly those of the complete CRLs that count,
  -- of the deltas that count on a compatible complete CRL that counts, and of the responses that count.
  pub gather-IsView :
      (e : EvalState) (w : View) → In w (gather v cert issuer (start e)).views ↔ IsView w
  gather-IsView e w =
      subst (λ t. In w t ↔ IsView w) (sym (gather-views v cert issuer (start e) refl refl refl))
        (all_views_iff w)
