-- ===== src/Policy/Pending.antt =====
-- The counters of `evaluate_policies` of app/pki.py as skip counts: what `pending_at` says of the
-- certificates above a position.
use ab_b1b34dfe_mgf1_ocsp_bu.Prelude.{
  ℕ, zero, suc, ◌+◌, ◌≤◌, List, [], ◌∷◌, Option, none, some, true, get_elem?, ◌≡◌, ◌↔◌, refl, ap,
  ◌∙◌, arith,
}
use ab_b1b34dfe_mgf1_ocsp_bu.Prelude.Int.{ℤ, pos, negsuc, sub_ℕ, min_ℤ}
use ab_b1b34dfe_mgf1_ocsp_bu.Cert.{CertInfo}
use ab_b1b34dfe_mgf1_ocsp_bu.Policy.{
  Counter, constraint_of, keep_min, pending_from, pending_at, positive_or_one,
}

positive-sub_ℕ : (k d : ℕ) → (positive_or_one (some (sub_ℕ k d)) ≡ true) ↔ (d ≤ k)
unfolding positive_or_one
positive-sub_ℕ k d = ground arith

positive-min_ℤ :
    (a b : ℤ)
    → (positive_or_one (some (min_ℤ a b)) ≡ true)
      ↔ ((positive_or_one (some a) ≡ true) × (positive_or_one (some b) ≡ true))
unfolding positive_or_one
positive-min_ℤ (pos a) (pos b) = ground arith
positive-min_ℤ (pos a) (negsuc b) = ground arith
positive-min_ℤ (negsuc a) (pos b) = ground arith
positive-min_ℤ (negsuc a) (negsuc b) = ground arith

positive-keep_min :
    (best : Option ℤ) (v : ℤ)
    → (positive_or_one (keep_min best v) ≡ true)
      ↔ ((positive_or_one best ≡ true) × (positive_or_one (some v) ≡ true))
unfolding keep_min positive_or_one
positive-keep_min none v = (λ h. (none_lem, h), λ h. h.1)
  where
    none_lem : positive_or_one none ≡ true
    none_lem = refl
positive-keep_min (some best) v = positive-min_ℤ best v

-- the minimum after one more certificate
next_best :
    (dist : ℕ) (best : Option ℤ) (o : Option ℕ)
    → (positive_or_one (elim o [ none ↦ best | some k ↦ keep_min best (sub_ℕ k dist) ]) ≡ true)
      ↔ ((positive_or_one best ≡ true) × ((k : ℕ) → o ≡ some k → dist ≤ k))
next_best dist best none = (λ h. (h, λ k e. absurd (cc)), λ h. h.0)
next_best dist best (some n) = (
  λ h.
      let p = (positive-keep_min best (sub_ℕ n dist)).0 h in
      (p.0, λ k e. let q = (positive-sub_ℕ n dist).0 p.1 in ground arith),
  λ h. (positive-keep_min best (sub_ℕ n dist)).1 (h.0, (positive-sub_ℕ n dist).1 (h.1 n refl)),
)

module _ (kind : Counter) where
  -- each of the certificates, the first at distance `dist`, has a constraint that skips this far
  abbrev pub HasRoom : ℕ → List CertInfo → Type 0
  HasRoom dist above =
      (j k : ℕ) (c : CertInfo)
      → get_elem? above j ≡ some c
      → constraint_of kind c ≡ some k
      → dist + j ≤ k

  HasRoom-cons :
      (dist : ℕ) (c : CertInfo) (above : List CertInfo)
      → HasRoom dist (c ∷ above)
        ↔ (((k : ℕ) → constraint_of kind c ≡ some k → dist ≤ k) × HasRoom (suc dist) above)
  HasRoom-cons dist c above = (
    λ h. (
      λ k e. let r = h 0 k c refl e in omega arith,
      λ j k d g e. let r = h (suc j) k d g e in omega arith,
    ),
    λ h j. room h j,
  )
    where
      room :
          ((k : ℕ) → constraint_of kind c ≡ some k → dist ≤ k) × HasRoom (suc dist) above
          → (j k : ℕ) (d : CertInfo) → get_elem? (c ∷ above) j ≡ some d
          → constraint_of kind d ≡ some k
          → dist + j ≤ k
      room h zero k d g e =
          let s : c ≡ d = cc in let r = h.0 k (ap (constraint_of kind) s ∙ e) in omega arith
      room h (suc j) k d g e = let r = h.1 j k d g e in omega arith

  pending_from_lem :
      (dist : ℕ) (best : Option ℤ) (above : List CertInfo)
      → (positive_or_one (pending_from kind dist best above) ≡ true)
        ↔ ((positive_or_one best ≡ true) × HasRoom dist above)
  unfolding pending_from
  pending_from_lem dist best [] = (λ h. (h, λ j k c e. absurd (cc)), λ h. h.0)
  pending_from_lem dist best (c ∷ above) =
      let next : Option ℤ = elim (constraint_of kind c) [
        | none ↦ best
        | some k ↦ keep_min best (sub_ℕ k dist)
      ] in
      let rest = pending_from_lem (suc dist) next above in
      let step = next_best dist best (constraint_of kind c) in
      let room = HasRoom-cons dist c above in
      (
        λ h. let r = rest.0 h in let s = step.0 r.0 in (s.0, room.1 (s.1, r.1)),
        λ h. let m = room.0 h.1 in rest.1 (step.1 (h.0, m.0), m.1),
      )

  -- A counter has not run out at a position exactly when each certificate above it that has a
  -- constraint for it, at distance `j + 1`, skips at least that many certificates.
  pub pending_at_iff :
      (above : List CertInfo)
      → (positive_or_one (pending_at kind above) ≡ true) ↔ (
          (j k : ℕ) (c : CertInfo)
          → get_elem? above j ≡ some c
          → constraint_of kind c ≡ some k
          → 1 + j ≤ k)
  unfolding pending_at positive_or_one
  pending_at_iff above =
      let p = pending_from_lem 1 none above in (λ h. (p.0 h).1, λ h. p.1 (refl, h))
