-- ===== src/Revocation/Evaluate.antt =====
-- `_compute` and `status` of app/revocation.py: selection of a view, the conclusion at `signed_at`,
-- and the cache of outcomes.
use ab_b1b34dfe_mgf1_ocsp_bu.Prelude.{
  ℕ, zero, suc, String, List, [], ◌∷◌, Option, none, some, Bool, true, false, ◌&&◌, ◌||◌,
  if◌then◌else◌, leb, ◌==◌, str_eq, str_le, map, sort_by,
}
use ab_b1b34dfe_mgf1_ocsp_bu.Prelude.Dict.{lookup, insert}
use ab_b1b34dfe_mgf1_ocsp_bu.Cert.{CertInfo}
use ab_b1b34dfe_mgf1_ocsp_bu.Revocation.{
  good, revoked, unknown, Evaluator, View, view_le, Content, Disposition, Outcome, EvalState,
}
use ab_b1b34dfe_mgf1_ocsp_bu.Revocation.Gather.{Gathered, record_disposition, set_default, gather}

-- what a view says of a serial number: a revocation, none, or that it does not know
pub data Said : Type 0 where
  not_known : Said
  not_revoked : Said
  revoked_at : ℕ → Option String → Said

unfoldable pub finding : ℕ → Content → Said
finding serial (Content.ocsp unknown time reason) = not_known
finding serial (Content.ocsp good time reason) = not_revoked
finding serial (Content.ocsp revoked none reason) = not_revoked
finding serial (Content.ocsp revoked (some t) reason) = revoked_at t reason
finding serial (Content.crl entries) = elim (lookup ◌==◌ serial entries) [
  | none ↦ not_revoked
  | some (t, reason) ↦ revoked_at t reason
]

-- `as_of >= signed_at`, or a `next_update` that is there and is
unfoldable pub covers : ℕ → View → Bool
covers signed_at w =
    leb signed_at w.as_of || elim w.next_update [ none ↦ false | some n ↦ leb signed_at n ]

-- the status, with the revocation's time and reason
abbrev pub Conclusion : Type 0
Conclusion = String × Option ℕ × Option String

unfoldable pub cover_conclusion : ℕ → View → Conclusion
unfolding covers
cover_conclusion signed_at w =
    if covers signed_at w then ("GOOD", none, none) else ("STALE", none, none)

unfoldable pub conclude_from : ℕ → View → Said → Conclusion
unfolding cover_conclusion
conclude_from signed_at w not_known = ("UNKNOWN", none, none)
conclude_from signed_at w not_revoked = cover_conclusion signed_at w
conclude_from signed_at w (revoked_at t reason) =
    if leb t signed_at then ("REVOKED", some t, reason) else cover_conclusion signed_at w

unfoldable pub conclusion : ℕ → ℕ → View → Conclusion
unfolding finding conclude_from
conclusion signed_at serial w = conclude_from signed_at w (finding serial w.content)

-- the records of the selected view's evidence
unfoldable pub mark_used : (String → String) → List String → Gathered → Gathered
unfolding record_disposition
mark_used otype [] g = g
mark_used otype (fp ∷ fps) g =
    let (d, accounting) =
      record_disposition
        (record { fingerprint = fp; otype = otype fp; used = true; reason = "selected view" })
        g.accounting in
    mark_used otype fps
      (record g { accounting = accounting; evaluated = insert str_eq fp d g.evaluated })

-- the records of the evidence of a view that was not selected
unfoldable pub mark_other : (String → String) → List String → Gathered → Gathered
unfolding record_disposition set_default
mark_other otype [] g = g
mark_other otype (fp ∷ fps) g =
    let (d, accounting) =
      record_disposition
        (record { fingerprint = fp; otype = otype fp; used = false; reason = "NOT_SELECTED" })
        g.accounting in
    mark_other otype fps
      (record g { accounting = accounting; evaluated = set_default fp d g.evaluated })

unfoldable pub mark_others : (String → String) → List View → Gathered → Gathered
unfolding mark_other
mark_others otype [] g = g
mark_others otype (w ∷ ws) g = mark_others otype ws (mark_other otype w.evidence g)

-- `[evaluated[k] for k in sorted(evaluated)]`
unfoldable pub evaluated_list : Gathered → List Disposition
evaluated_list g = map (λ e. e.1) (sort_by (λ a b. str_le a.0 b.0) g.evaluated)

abbrev pub start : EvalState → Gathered
start e = record {
  accounting = e.accounting;
  touched = e.touched;
  evaluated = [];
  defective = 0;
  completes = [];
  deltas = [];
  views = [];
}

abbrev pub keep : EvalState → Gathered → EvalState
keep e g = record e { accounting = g.accounting; touched = g.touched }

abbrev pub no_view_status : ℕ → String
no_view_status zero = "UNKNOWN"
no_view_status (suc n) = "MALFORMED_EVIDENCE"

module _ (v : Evaluator) where
  open v use {metas, signed_at}

  -- from the sorted views to the outcome
  unfoldable pub decide : CertInfo → CertInfo → List View → Gathered → Outcome × Gathered
  unfolding conclusion mark_used mark_others evaluated_list
  decide cert issuer [] g = (
    record {
      certificate = cert.fingerprint;
      issuer_certificate = issuer.fingerprint;
      status = no_view_status g.defective;
      selected_view = none;
      selected_evidence = [];
      revocation_time = none;
      revocation_reason = none;
      evaluated_evidence = evaluated_list g;
    },
    g,
  )
  decide cert issuer (w ∷ others) g =
      let g' =
        mark_others (λ fp. (metas fp).otype) others
          (mark_used (λ fp. (metas fp).otype) w.evidence g) in
      let (status, time, reason) = conclusion signed_at cert.serial w in
      (
        record {
          certificate = cert.fingerprint;
          issuer_certificate = issuer.fingerprint;
          status = status;
          selected_view = some w.view_id;
          selected_evidence = sort_by str_le w.evidence;
          revocation_time = time;
          revocation_reason = reason;
          evaluated_evidence = evaluated_list g';
        },
        g',
      )

  unfoldable pub compute : CertInfo → CertInfo → EvalState → Outcome × EvalState
  unfolding gather decide view_le
  compute cert issuer e =
      let g = gather v cert issuer (start e) in
      let (o, g') = decide cert issuer (sort_by view_le g.views) g in (o, keep e g')

  abbrev pub pair_eq : String × String → String × String → Bool
  pair_eq (a, b) (c, d) = str_eq a c && str_eq b d

  -- `status` with what the cache has for its key
  unfoldable pub status_with :
      CertInfo → CertInfo → EvalState → Option Outcome → Outcome × EvalState
  unfolding compute
  status_with cert issuer e (some o) = (o, e)
  status_with cert issuer e none =
      let (o, e') = compute cert issuer e in
      (
        o,
        record e' {
          cache = insert pair_eq (cert.fingerprint, issuer.key_fp) o e'.cache;
          outcomes = insert str_eq cert.fingerprint o e'.outcomes;
        },
      )

  -- outcomes are cached by the certificate and the issuer's key
  unfoldable pub status : CertInfo → CertInfo → EvalState → Outcome × EvalState
  unfolding status_with
  status cert issuer e =
      status_with cert issuer e (lookup pair_eq (cert.fingerprint, issuer.key_fp) e.cache)
