-- ===== src/Revocation/Gather.antt =====
-- The loops of `_compute` of app/revocation.py over the evidence, with the accounting. The pure
-- functions at the end say what views they gather.
use ab_b1b34dfe_mgf1_ocsp_bu.Prelude.{
  ℕ, suc, String, List, [], ◌∷◌, ◌++◌, none, some, Bool, true, false, ◌&&◌, not, if◌then◌else◌,
  str_eq, str_le, flat_map, sort_by,
}
use ab_b1b34dfe_mgf1_ocsp_bu.Prelude.Dict.{lookup, insert}
use ab_b1b34dfe_mgf1_ocsp_bu.Cert.{CertInfo}
use ab_b1b34dfe_mgf1_ocsp_bu.Revocation.{CrlInfo, Evaluator, View, Disposition}
use ab_b1b34dfe_mgf1_ocsp_bu.Revocation.Delta.{complete_view, delta_views}
use ab_b1b34dfe_mgf1_ocsp_bu.Revocation.Evidence.{
  CrlVerdict, crl_excluded, crl_valid, OcspVerdict, irrelevant, ocsp_excluded, ocsp_valid,
  crl_verdict, ocsp_verdict,
}

-- `accounting` and `touched` are the evaluator's; the others are local to `_compute`.
pub record Gathered : Type 0 where
  pub accounting : List (String × Disposition)
  pub touched : List String
  pub evaluated : List (String × Disposition)
  pub defective : ℕ
  pub completes : List CrlInfo
  pub deltas : List CrlInfo
  pub views : List View

-- `_record`: a record stays, but one that is not `used` gives way to one that is
unfoldable pub record_disposition :
    Disposition → List (String × Disposition) → Disposition × List (String × Disposition)
record_disposition d accounting = elim (lookup str_eq d.fingerprint accounting) [
  | none ↦ (d, insert str_eq d.fingerprint d accounting)
  | some prev ↦
      if not prev.used && d.used
      then (d, insert str_eq d.fingerprint d accounting)
      else (prev, accounting)
]

-- `evaluated.setdefault(fp, rec)`
unfoldable pub set_default :
    String → Disposition → List (String × Disposition) → List (String × Disposition)
set_default fp d evaluated = elim (lookup str_eq fp evaluated) [
  | none ↦ insert str_eq fp d evaluated
  | some old ↦ evaluated
]

-- `exclude`
unfoldable pub exclude : String → String → String → Bool → Gathered → Gathered
unfolding record_disposition set_default
exclude fp otype reason is_defective g =
    let (d, accounting) =
      record_disposition (record { fingerprint = fp; otype = otype; used = false; reason = reason })
        g.accounting in
    record g {
      accounting = accounting;
      evaluated = set_default fp d g.evaluated;
      defective = if is_defective then suc g.defective else g.defective;
    }

abbrev pub touch : String → Gathered → Gathered
touch fp g = record g { touched = fp ∷ g.touched }

unfoldable pub keep_crl : CrlInfo → Gathered → Gathered
unfolding complete_view
keep_crl c g =
    if c.is_delta
    then record g { deltas = g.deltas ++ c ∷ [] }
    else record g { completes = g.completes ++ c ∷ []; views = g.views ++ complete_view c ∷ [] }

abbrev pub on_crl : String → CrlVerdict → Gathered → Gathered
on_crl fp (crl_excluded reason is_defective) g = exclude fp "crl" reason is_defective g
on_crl fp (crl_valid c) g = keep_crl c g

-- a delta without a compatible base is defective
abbrev pub on_delta : String → List View → Gathered → Gathered
on_delta fp [] g = exclude fp "crl" "NO_COMPATIBLE_BASE" true g
on_delta fp (w ∷ ws) g = record g { views = g.views ++ w ∷ ws }

abbrev pub on_ocsp : String → OcspVerdict → Gathered → Gathered
on_ocsp fp irrelevant g = g
on_ocsp fp (ocsp_excluded reason is_defective) g =
    exclude fp "ocsp" reason is_defective (touch fp g)
on_ocsp fp (ocsp_valid w) g = let g' = touch fp g in record g' { views = g'.views ++ w ∷ [] }

abbrev pub valid_of : CrlVerdict → List CrlInfo
valid_of (crl_excluded reason is_defective) = []
valid_of (crl_valid c) = c ∷ []

abbrev pub view_of : OcspVerdict → List View
view_of irrelevant = []
view_of (ocsp_excluded reason is_defective) = []
view_of (ocsp_valid w) = w ∷ []

module _ (v : Evaluator) (cert issuer : CertInfo) where
  unfoldable pub gather_crls : List String → Gathered → Gathered
  unfolding crl_verdict exclude keep_crl
  gather_crls [] g = g
  gather_crls (fp ∷ fps) g = gather_crls fps (on_crl fp (crl_verdict v issuer fp) (touch fp g))

  unfoldable pub gather_deltas : List CrlInfo → List CrlInfo → Gathered → Gathered
  unfolding delta_views exclude
  gather_deltas completes [] g = g
  gather_deltas completes (d ∷ ds) g =
      gather_deltas completes ds (on_delta d.fingerprint (delta_views completes d) g)

  unfoldable pub gather_ocsps : List String → Gathered → Gathered
  unfolding ocsp_verdict exclude
  gather_ocsps [] g = g
  gather_ocsps (fp ∷ fps) g = gather_ocsps fps (on_ocsp fp (ocsp_verdict v cert issuer fp) g)

  unfoldable pub gather : Gathered → Gathered
  unfolding gather_crls gather_deltas gather_ocsps
  gather g =
      let g₁ = gather_crls (sort_by str_le (v.crl_index cert.issuer_hex)) g in
      let g₂ = gather_deltas g₁.completes g₁.deltas g₁ in
      gather_ocsps (sort_by str_le v.ocsp_fps) g₂

  -- What is gathered, with no state: the valid CRLs in order,
  abbrev pub valid_crls : List String → List CrlInfo
  valid_crls = flat_map (λ fp. valid_of (crl_verdict v issuer fp))

  -- the views of the deltas,
  abbrev pub views_of_deltas : List CrlInfo → List CrlInfo → List View
  views_of_deltas completes = flat_map (delta_views completes)

  -- and those of the OCSP responses.
  abbrev pub valid_ocsps : List String → List View
  valid_ocsps = flat_map (λ fp. view_of (ocsp_verdict v cert issuer fp))
