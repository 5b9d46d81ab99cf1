-- ===== src/Revocation/Selected.antt =====
-- Which view `_compute` of app/revocation.py selects, and what it concludes from it.
use ab_b1b34dfe_mgf1_ocsp_bu.Prelude.{
  ℕ, zero, suc, ◌<◌, ap, IsSorted, str_le_refl, List, [], ◌∷◌, none, some, true, str_le,
  str_le_total, str_le_trans, sort_by, sort_by-IsSorted, In, In-sort_by, ◌≡◌, ◌↔◌, ◌⊎◌, refl, arith,
  inl, inr, sym, subst,
}
use ab_b1b34dfe_mgf1_ocsp_bu.Cert.{CertInfo}
use ab_b1b34dfe_mgf1_ocsp_bu.Revocation.{Evaluator, View, view_le, Outcome, EvalState}
use ab_b1b34dfe_mgf1_ocsp_bu.Revocation.Gather.{Gathered, gather}
use ab_b1b34dfe_mgf1_ocsp_bu.Revocation.Evaluate.{
  conclusion, decide, compute, start, no_view_status,
}
use ab_b1b34dfe_mgf1_ocsp_bu.Revocation.Admitted.{IsView, gather-IsView}

pub view_le_total : (u w : View) → (view_le u w ≡ true) ⊎ (view_le w u ≡ true)
unfolding view_le
view_le_total u w = ground (arith, str_le_total u.view_id w.view_id)

pub view_le_trans : (u w x : View) → view_le u w ≡ true → view_le w x ≡ true → view_le u x ≡ true
unfolding view_le
view_le_trans u w x h k = ground (arith, str_le_trans u.view_id w.view_id x.view_id)

-- `w` was issued after `u`, or at the same time with a view id that is not greater
abbrev pub IsBefore : View → View → Type 0
IsBefore w u = (u.as_of < w.as_of) ⊎ ((u.as_of ≡ w.as_of) × (str_le w.view_id u.view_id ≡ true))

view_le_iff : (w u : View) → (view_le w u ≡ true) ↔ IsBefore w u
unfolding view_le
view_le_iff w u = ground arith

-- an outcome that rests on the view `w`
pub record RestsOn (signed_at serial : ℕ) (w : View) (o : Outcome) : Type 0 where
  pub selected : o.selected_view ≡ some w.view_id
  pub evidence : o.selected_evidence ≡ sort_by str_le w.evidence
  pub concluded : (o.status, o.revocation_time, o.revocation_reason) ≡ conclusion signed_at serial w

module _ (v : Evaluator) (cert issuer : CertInfo) where
  abbrev pub IsNewest : View → Type 0
  IsNewest w = IsView v cert issuer w × ((u : View) → IsView v cert issuer u → IsBefore w u)

  -- An outcome rests on the newest of the views, or there are none and the status tells whether
  -- evidence was defective.
  abbrev pub Selected : Outcome → Type 0
  Selected o =
      ((w : View) × IsNewest w × RestsOn v.signed_at cert.serial w o)
      ⊎ (((w : View) → ¬ IsView v cert issuer w)
          × (o.selected_view ≡ none)
          × ((o.status ≡ "UNKNOWN") ⊎ (o.status ≡ "MALFORMED_EVIDENCE")))

  decide-Selected :
      (ws : List View) (g : Gathered)
      → ((w : View) → In w ws ↔ IsView v cert issuer w)
      → IsSorted view_le ws
      → Selected (decide v cert issuer ws g).0
  unfolding decide
  decide-Selected [] g m s = inr (λ w k. (m w).1 k, refl, cases g.defective)
    where
      cases : (n : ℕ) → (no_view_status n ≡ "UNKNOWN") ⊎ (no_view_status n ≡ "MALFORMED_EVIDENCE")
      cases zero = inl refl
      cases (suc n) = inr refl
  decide-Selected (w ∷ ws) g m s = inl (
    w,
    ((m w).0 (inl refl), λ u k. below u ((m u).1 k)),
    record { selected = refl; evidence = refl; concluded = refl },
  )
    where
      below : (u : View) → (u ≡ w) ⊎ In u ws → IsBefore w u
      below u (inl e) = inr (
        ap View.as_of e,
        subst (λ (t : View). str_le w.view_id t.view_id ≡ true) (sym e) (str_le_refl w.view_id),
      )
      below u (inr n) = (view_le_iff w u).0 (s.0 u n)

  -- The outcome that is computed rests on the newest view of the evidence that counts, and there is
  -- none only where no evidence makes a view: then the status is UNKNOWN or MALFORMED_EVIDENCE.
  pub compute-Selected : (e : EvalState) → Selected (compute v cert issuer e).0
  unfolding compute
  compute-Selected e =
      let g = gather v cert issuer (start e) in
      decide-Selected (sort_by view_le g.views) g
        (λ w. (
          λ h. (gather-IsView v cert issuer e w).0 ((In-sort_by view_le w g.views).0 h),
          λ h. (In-sort_by view_le w g.views).1 ((gather-IsView v cert issuer e w).1 h),
        ))
        (sort_by-IsSorted view_le view_le_total view_le_trans g.views)
