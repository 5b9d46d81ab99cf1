-- ===== src/Revocation/Judged.antt =====
-- What `_compute` of app/revocation.py concludes from the view that it selects.
use ab_b1b34dfe_mgf1_ocsp_bu.Prelude.{
  ℕ, ◌<◌, ap, String, Option, none, some, true, false, ◌≤◌, leb, ◌≡◌, ◌≢◌, str_eq, ◌↔◌, ◌⊎◌, ◌∙◌,
  refl, arith, inl, inr, eq_iff, sym, subst, Bool-cases,
}
use ab_b1b34dfe_mgf1_ocsp_bu.Revocation.{View}
use ab_b1b34dfe_mgf1_ocsp_bu.Revocation.Evaluate.{
  Said, not_known, not_revoked, revoked_at, finding, covers, Conclusion, conclude_from, conclusion,
  cover_conclusion,
}
use ab_b1b34dfe_mgf1_ocsp_bu.Revocation.Told.{
  IsRevoked, IsUnknown, finding-IsRevoked, finding-IsUnknown,
}

abbrev IsClear : ℕ → Said → Type 0
IsClear signed_at not_known = ⊥
IsClear signed_at not_revoked = Unit
IsClear signed_at (revoked_at t r) = signed_at < t

abbrev pub IsCurrent : ℕ → View → Type 0
IsCurrent signed_at w =
    (signed_at ≤ w.as_of) ⊎ ((n : ℕ) × (w.next_update ≡ some n) × (signed_at ≤ n))

due_iff :
    (signed_at : ℕ) (o : Option ℕ)
    → (elim o [ none ↦ false | some n ↦ leb signed_at n ] ≡ true)
      ↔ ((n : ℕ) × (o ≡ some n) × (signed_at ≤ n))
due_iff signed_at none = (λ h. cc, λ (n, e, l). cc)
due_iff signed_at (some n) = (λ h. (n, refl, ground arith), λ (m, e, l). ground arith)

covers_iff : (signed_at : ℕ) (w : View) → (covers signed_at w ≡ true) ↔ IsCurrent signed_at w
unfolding covers
covers_iff signed_at w = ground (arith, due_iff signed_at w.next_update)

-- the four statuses, by what the code finds in the view and when
abbrev IsConcluded : ℕ → View → Said → Conclusion → Type 0
IsConcluded signed_at w said c =
    ((c.0 ≡ "REVOKED") ↔ (
      (t : ℕ) × (r : Option String) × (said ≡ revoked_at t r)
      × (t ≤ signed_at)
      × (c ≡ ("REVOKED", some t, r))))
    × ((c.0 ≡ "GOOD") ↔ (IsClear signed_at said × IsCurrent signed_at w))
    × ((c.0 ≡ "STALE") ↔ (IsClear signed_at said × ¬ IsCurrent signed_at w))
    × ((c.0 ≡ "UNKNOWN") ↔ (said ≡ not_known))

differ : (a b : String) → str_eq a b ≡ false → a ≢ b
differ a b h e = ground (arith, eq_iff a b)

-- what the two conclusions of a view that tells of no revocation amount to
good-IsConcluded :
    (signed_at : ℕ) (w : View) (said : Said)
    → IsClear signed_at said
    → IsCurrent signed_at w
    → IsConcluded signed_at w said ("GOOD", none, none)
good-IsConcluded signed_at w said h k = (
  (λ e. absurd (differ "GOOD" "REVOKED" refl e), λ (t, r, e, l, c). ap (λ (x : Conclusion). x.0) c),
  (λ e. (h, k), λ e. refl),
  (λ e. absurd (differ "GOOD" "STALE" refl e), λ e. absurd (e.1 k)),
  (
    λ e. absurd (differ "GOOD" "UNKNOWN" refl e),
    λ e. absurd (subst (λ t. IsClear signed_at t) e h),
  ),
)

stale-IsConcluded :
    (signed_at : ℕ) (w : View) (said : Said)
    → IsClear signed_at said
    → ¬ IsCurrent signed_at w
    → IsConcluded signed_at w said ("STALE", none, none)
stale-IsConcluded signed_at w said h k = (
  (
    λ e. absurd (differ "STALE" "REVOKED" refl e),
    λ (t, r, e, l, c). ap (λ (x : Conclusion). x.0) c,
  ),
  (λ e. absurd (differ "STALE" "GOOD" refl e), λ e. absurd (k e.1)),
  (λ e. (h, k), λ e. refl),
  (
    λ e. absurd (differ "STALE" "UNKNOWN" refl e),
    λ e. absurd (subst (λ t. IsClear signed_at t) e h),
  ),
)

cover-IsConcluded :
    (signed_at : ℕ) (w : View) (said : Said)
    → IsClear signed_at said
    → IsConcluded signed_at w said (cover_conclusion signed_at w)
unfolding cover_conclusion
cover-IsConcluded signed_at w said h = elim (Bool-cases (covers signed_at w)) [
  | inl e ↦ rw e (good-IsConcluded signed_at w said h ((covers_iff signed_at w).0 e))
  | inr e ↦ rw e (
      stale-IsConcluded signed_at w said h
        (λ k. absurd (ground (arith, (covers_iff signed_at w).1 k))))
]

conclude_from-IsConcluded :
    (signed_at : ℕ) (w : View) (said : Said)
    → IsConcluded signed_at w said (conclude_from signed_at w said)
unfolding conclude_from
conclude_from-IsConcluded signed_at w not_known = (
  (
    λ e. absurd (differ "UNKNOWN" "REVOKED" refl e),
    λ (t, r, e, l, c). ap (λ (x : Conclusion). x.0) c,
  ),
  (λ e. absurd (differ "UNKNOWN" "GOOD" refl e), λ e. absurd e.0),
  (λ e. absurd (differ "UNKNOWN" "STALE" refl e), λ e. absurd e.0),
  (λ e. refl, λ e. refl),
)
conclude_from-IsConcluded signed_at w not_revoked = cover-IsConcluded signed_at w not_revoked tt
conclude_from-IsConcluded signed_at w (revoked_at t r) = elim (Bool-cases (leb t signed_at)) [
  | inl e ↦ rw e (
    (λ k. (t, r, refl, ground arith, refl), λ k. refl),
    (λ k. absurd (differ "REVOKED" "GOOD" refl k), λ k. absurd (let l = k.0 in ground arith)),
    (λ k. absurd (differ "REVOKED" "STALE" refl k), λ k. absurd (let l = k.0 in ground arith)),
    (λ k. absurd (differ "REVOKED" "UNKNOWN" refl k), λ k. absurd (cc)),
  )
  | inr e ↦ rw e (cover-IsConcluded signed_at w (revoked_at t r) (ground arith))
]

-- the view knows the certificate and tells of no revocation at or before `signed_at`
abbrev pub IsSpared : ℕ → ℕ → View → Type 0
IsSpared signed_at serial w =
    (¬ IsUnknown w.content)
    × ((t : ℕ) (r : Option String) → IsRevoked serial t r w.content → signed_at < t)

-- the four statuses, told by the entries of a CRL or the status of a response
abbrev pub IsJudged : ℕ → ℕ → View → Conclusion → Type 0
IsJudged signed_at serial w c =
    ((c.0 ≡ "REVOKED") ↔ (
      (t : ℕ) × (r : Option String) × IsRevoked serial t r w.content
      × (t ≤ signed_at)
      × (c ≡ ("REVOKED", some t, r))))
    × ((c.0 ≡ "GOOD") ↔ (IsSpared signed_at serial w × IsCurrent signed_at w))
    × ((c.0 ≡ "STALE") ↔ (IsSpared signed_at serial w × ¬ IsCurrent signed_at w))
    × ((c.0 ≡ "UNKNOWN") ↔ IsUnknown w.content)

said-injective :
    (t u : ℕ) (r q : Option String) → ◌≡◌ {A = Said} (revoked_at t r) (revoked_at u q) → t ≡ u
said-injective t u r q h = ground arith

IsClear-IsSpared :
    (signed_at serial : ℕ) (w : View) (said : Said)
    → finding serial w.content ≡ said
    → IsClear signed_at said ↔ IsSpared signed_at serial w
IsClear-IsSpared signed_at serial w not_known e =
    (λ h. absurd h, λ h. absurd (h.0 ((finding-IsUnknown serial w.content).0 e)))
IsClear-IsSpared signed_at serial w not_revoked e = (
  λ h. (
    λ u. let k = sym e ∙ (finding-IsUnknown serial w.content).1 u in absurd (cc),
    λ t r i. let k = sym e ∙ (finding-IsRevoked serial t r w.content).1 i in absurd (cc),
  ),
  λ h. tt,
)
IsClear-IsSpared signed_at serial w (revoked_at t r) e = (
  λ h. (
    λ u. let k = sym e ∙ (finding-IsUnknown serial w.content).1 u in absurd (cc),
    λ u q i.
        let k = said-injective t u r q (sym e ∙ (finding-IsRevoked serial u q w.content).1 i) in
        omega arith,
  ),
  λ h. h.1 t r ((finding-IsRevoked serial t r w.content).0 e),
)

-- A view's conclusion is REVOKED, with its time and reason, exactly when the view tells of a revocation
-- at or before `signed_at`: by the first entry of a CRL for the serial number, or by a response with
-- the status revoked and a time. It is UNKNOWN exactly when the view is a response with the status
-- unknown, and else GOOD where the view covers `signed_at` and STALE where not.
pub conclusion-IsJudged :
    (signed_at serial : ℕ) (w : View) → IsJudged signed_at serial w (conclusion signed_at serial w)
unfolding conclusion
conclusion-IsJudged signed_at serial w =
    let (bad, good, stale, unsure) =
      conclude_from-IsConcluded signed_at w (finding serial w.content) in
    let clear = IsClear-IsSpared signed_at serial w (finding serial w.content) refl in
    (
      (
        λ h.
            let (t, r, e, l, c) = bad.0 h in
            (t, r, (finding-IsRevoked serial t r w.content).0 e, l, c),
        λ (t, r, k, l, c). bad.1 (t, r, (finding-IsRevoked serial t r w.content).1 k, l, c),
      ),
      (λ h. let (a, b) = good.0 h in (clear.0 a, b), λ (a, b). good.1 (clear.1 a, b)),
      (λ h. let (a, b) = stale.0 h in (clear.0 a, b), λ (a, b). stale.1 (clear.1 a, b)),
      (
        λ h. (finding-IsUnknown serial w.content).0 (unsure.0 h),
        λ k. unsure.1 ((finding-IsUnknown serial w.content).1 k),
      ),
    )
