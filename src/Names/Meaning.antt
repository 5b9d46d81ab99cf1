-- ===== src/Names/Meaning.antt =====
-- What `check_name_constraints` of app/pki.py demands of each certificate of a path.
use ab_b1b34dfe_mgf1_ocsp_bu.Prelude.{
  List, [], ◌∷◌, ◌++◌, Option, none, Bool, reverse, drop, ◌≡◌, ◌↔◌, inl, inr, refl, sym, ap, subst,
  arith, Option-cases,
}
use ab_b1b34dfe_mgf1_ocsp_bu.Cert.{Text, NameConstraints, CertInfo}
use ab_b1b34dfe_mgf1_ocsp_bu.Names.{
  dns_name_matches, uri_name_matches, dir_name_matches, nothing_yet, extend_constraints, accumulate,
  check_cert, first_failure, check_name_constraints,
}
use ab_b1b34dfe_mgf1_ocsp_bu.Names.Kinds.{IsKept, IsKept-check_kind, check_kind-IsKept}
use ab_b1b34dfe_mgf1_ocsp_bu.Names.Extended.{
  extend_all, KeepsNames, permitted_dns_lem, excluded_dns_lem, permitted_uri_lem, excluded_uri_lem,
  permitted_dir_lem, excluded_dir_lem,
}

-- what a certificate keeps, by what has been accumulated
record KeepsAcc (hostname : Text → Option Text) (acc : NameConstraints) (c : CertInfo)
    : Type 0 where
  dns : IsKept dns_name_matches c.san_dns acc.permitted.dns acc.excluded.dns
  uri : IsKept (uri_name_matches hostname) c.san_uri acc.permitted.uri acc.excluded.uri
  dir : IsKept dir_name_matches (c.subject_rdns ∷ c.san_dir) acc.permitted.dir acc.excluded.dir

Kept_cong :
    {N : Type 0} (matches : N → N → Bool) (names : List N) {p q e f : List N}
    → p ≡ q
    → e ≡ f
    → IsKept matches names p e
    → IsKept matches names q f
Kept_cong matches names {p} {q} {e} {f} a b h =
    subst (λ t. IsKept matches names t f) a (subst (λ t. IsKept matches names p t) b h)

module _ (hostname : Text → Option Text) where
  check_cert_iff :
      (c : CertInfo) (acc : NameConstraints)
      → (check_cert hostname c acc ≡ none) ↔ KeepsAcc hostname acc c
  unfolding check_cert
  check_cert_iff c acc = (
    λ h. record {
      dns =
          IsKept-check_kind dns_name_matches c.san_dns acc.permitted.dns acc.excluded.dns
            (ground arith);
      uri =
          IsKept-check_kind (uri_name_matches hostname) c.san_uri acc.permitted.uri acc.excluded.uri
            (ground arith);
      dir =
          IsKept-check_kind dir_name_matches (c.subject_rdns ∷ c.san_dir) acc.permitted.dir
            acc.excluded.dir (ground arith);
    },
    λ h.
        rw
          (
            check_kind-IsKept dns_name_matches c.san_dns acc.permitted.dns acc.excluded.dns h.dns,
            check_kind-IsKept (uri_name_matches hostname) c.san_uri acc.permitted.uri
                acc.excluded.uri h.uri,
            check_kind-IsKept dir_name_matches (c.subject_rdns ∷ c.san_dir) acc.permitted.dir
                acc.excluded.dir h.dir,
          )
          refl,
  )

  keeps_iff :
      (c : CertInfo) (above : List CertInfo)
      → KeepsAcc hostname (extend_all nothing_yet above) c ↔ KeepsNames hostname above c
  keeps_iff c above = (
    λ h. record {
      dns =
          Kept_cong dns_name_matches c.san_dns (permitted_dns_lem above) (excluded_dns_lem above)
            h.dns;
      uri =
          Kept_cong (uri_name_matches hostname) c.san_uri (permitted_uri_lem above)
            (excluded_uri_lem above) h.uri;
      dir =
          Kept_cong dir_name_matches (c.subject_rdns ∷ c.san_dir) (permitted_dir_lem above)
            (excluded_dir_lem above) h.dir;
    },
    λ h. record {
      dns =
          Kept_cong dns_name_matches c.san_dns (sym (permitted_dns_lem above))
            (sym (excluded_dns_lem above)) h.dns;
      uri =
          Kept_cong (uri_name_matches hostname) c.san_uri (sym (permitted_uri_lem above))
            (sym (excluded_uri_lem above)) h.uri;
      dir =
          Kept_cong dir_name_matches (c.subject_rdns ∷ c.san_dir) (sym (permitted_dir_lem above))
            (sym (excluded_dir_lem above)) h.dir;
    },
  )

  abbrev AllPass : NameConstraints → List CertInfo → Type 0
  AllPass acc down =
      (above below : List CertInfo) (c : CertInfo)
      → down ≡ above ++ c ∷ below
      → check_cert hostname c (extend_all acc above) ≡ none

  first_failure-AllPass :
      (acc : NameConstraints) (down : List CertInfo)
      → first_failure hostname (accumulate acc down) ≡ none
      → AllPass acc down
  unfolding first_failure accumulate
  first_failure-AllPass acc [] h [] below c e = absurd (cc)
  first_failure-AllPass acc [] h (x ∷ above) below c e = absurd (cc)
  first_failure-AllPass acc (d ∷ ds) h [] below c e =
      elim (Option-cases (check_cert hostname d acc)) [
        | inl p ↦
            let s : d ≡ c = cc in subst (λ (t : CertInfo). check_cert hostname t acc ≡ none) s p
        | inr (code, p) ↦ absurd (ground arith)
      ]
  first_failure-AllPass acc (d ∷ ds) h (x ∷ above) below c e =
      elim (Option-cases (check_cert hostname d acc)) [
        | inl p ↦
            let s : d ≡ x = cc in
            subst
              (λ (t : CertInfo).
                check_cert hostname c (extend_all (extend_constraints acc t.nc) above) ≡ none)
              s
              (first_failure-AllPass (extend_constraints acc d.nc) ds (ground arith) above below c
                (cc))
        | inr (code, p) ↦ absurd (ground arith)
      ]

  AllPass-first_failure :
      (acc : NameConstraints) (down : List CertInfo)
      → AllPass acc down
      → first_failure hostname (accumulate acc down) ≡ none
  unfolding first_failure accumulate
  AllPass-first_failure acc [] h = refl
  AllPass-first_failure acc (d ∷ ds) h =
      let e = h [] ds d refl in
      let rest =
        AllPass-first_failure (extend_constraints acc d.nc) ds
          (λ above below c k. h (d ∷ above) below c (ap (λ t. d ∷ t) k)) in
      ground arith

  -- A path passes exactly when each certificate below the anchor keeps the constraints of all
  -- certificates between it and the anchor.
  pub check_name_constraints_iff :
      (path : List CertInfo)
      → (check_name_constraints hostname path ≡ none) ↔ (
          (above below : List CertInfo) (c : CertInfo)
          → drop 1 (reverse path) ≡ above ++ c ∷ below
          → KeepsNames hostname above c)
  unfolding check_name_constraints
  check_name_constraints_iff path = (
    λ h above below c e. (keeps_iff c above).0 (
        (check_cert_iff c (extend_all nothing_yet above)).0
          (first_failure-AllPass nothing_yet (drop 1 (reverse path)) h above below c e)),
    λ h. AllPass-first_failure nothing_yet (drop 1 (reverse path)) (λ above below c e.
        (check_cert_iff c (extend_all nothing_yet above)).1
          ((keeps_iff c above).1 (h above below c e))),
  )
