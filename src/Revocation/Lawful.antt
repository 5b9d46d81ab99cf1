-- ===== src/Revocation/Lawful.antt =====
-- The evaluator of app/revocation.py as the path search of app/graph.py uses it: its cache gives what
-- a fresh computation gives, where issuers with one key get one status.
use ab_b1b34dfe_mgf1_ocsp_bu.Prelude.{
  String, [], none, some, true, if◌then◌else◌, eq_iff, ◌≡◌, ◌↔◌, refl, sym, ap, subst, ◌∙◌, arith,
  Bool-cases, Option-cases, inl, inr,
}
use ab_b1b34dfe_mgf1_ocsp_bu.Prelude.Dict.{lookup, insert, lookup-insert}
use ab_b1b34dfe_mgf1_ocsp_bu.Cert.{CertInfo}
use ab_b1b34dfe_mgf1_ocsp_bu.Revocation.{Evaluator, Outcome, EvalState}
use ab_b1b34dfe_mgf1_ocsp_bu.Revocation.Evaluate.{compute, status, status_with, pair_eq}
use ab_b1b34dfe_mgf1_ocsp_bu.Revocation.Cutoff.{compute-pure, Judgement}
use ab_b1b34dfe_mgf1_ocsp_bu.Graph.{Explorer}
use ab_b1b34dfe_mgf1_ocsp_bu.Graph.Cache.{IsLawful}

-- an evaluator's state before any certificate
abbrev pub fresh_state : EvalState
fresh_state = record { cache = []; outcomes = []; accounting = []; touched = [] }

pair_eq_iff : (v : Evaluator) (j k : String × String) → (pair_eq v j k ≡ true) ↔ (j ≡ k)
pair_eq_iff v (a, b) (c, d) = ground (arith, eq_iff a c, eq_iff b d)

-- an explorer that takes its statuses from the evaluator
abbrev pub with_evaluator : Explorer EvalState → Evaluator → Explorer EvalState
with_evaluator x v = record x {
  status = λ cert issuer e. let (o, e') = status v cert issuer e in (o.status, e');
}

module _ (x : Explorer EvalState) (v : Evaluator) where
  -- the status that a fresh evaluator computes for two certificates
  abbrev pub fresh_status : String → String → String
  fresh_status a b = (compute v (x.get_cert a) (x.get_cert b) fresh_state).0.status

  -- every cached outcome has the fresh status of each pair of certificates with its key
  abbrev pub Agrees : EvalState → Type 0
  Agrees e =
      (a b : String) (o : Outcome)
      → lookup (pair_eq v) (a, (x.get_cert b).key_fp) e.cache ≡ some o
      → o.status ≡ fresh_status a b

  module _ (named : (fp : String) → (x.get_cert fp).fingerprint ≡ fp)
      (same_key : (a b c : String)
        → (x.get_cert b).key_fp ≡ (x.get_cert c).key_fp
        → fresh_status a b ≡ fresh_status a c) where
    compute-fresh :
        (a b : String) (e : EvalState)
        → (compute v (x.get_cert a) (x.get_cert b) e).0.status ≡ fresh_status a b
    compute-fresh a b e =
        ap (λ (j : Judgement). j.0) (compute-pure v (x.get_cert a) (x.get_cert b) e fresh_state)

    compute-cache : (c i : CertInfo) (e : EvalState) → (compute v c i e).1.cache ≡ e.cache
    unfolding compute
    compute-cache c i e = refl

    status-hit :
        (c i : CertInfo) (e : EvalState) (o : Outcome)
        → lookup (pair_eq v) (c.fingerprint, i.key_fp) e.cache ≡ some o
        → status v c i e ≡ (o, e)
    unfolding status status_with
    status-hit c i e o h = ap (status_with v c i e) h

    status-miss :
        (c i : CertInfo) (e : EvalState)
        → lookup (pair_eq v) (c.fingerprint, i.key_fp) e.cache ≡ none
        → status v c i e ≡ status_with v c i e none
    unfolding status
    status-miss c i e h = ap (status_with v c i e) h

    status-miss_cache :
        (c i : CertInfo) (e : EvalState)
        → (status_with v c i e none).1.cache
          ≡ insert (pair_eq v) (c.fingerprint, i.key_fp) (compute v c i e).0 e.cache
    unfolding status_with
    status-miss_cache c i e =
        ap (insert (pair_eq v) (c.fingerprint, i.key_fp) (compute v c i e).0) (compute-cache c i e)

    status-miss_outcome :
        (c i : CertInfo) (e : EvalState) → (status_with v c i e none).0 ≡ (compute v c i e).0
    unfolding status_with
    status-miss_outcome c i e = refl

    added-Agrees :
        (a b : String) (e : EvalState) (o : Outcome) (e' : EvalState)
        → Agrees e
        → o.status ≡ fresh_status a b
        → e'.cache ≡ insert (pair_eq v) (a, (x.get_cert b).key_fp) o e.cache
        → Agrees e'
    added-Agrees a b e o e' h p q c d r k =
        let key : String × String = (a, (x.get_cert b).key_fp) in
        let key' : String × String = (c, (x.get_cert d).key_fp) in
        let found : (if pair_eq v key key' then some o else lookup (pair_eq v) key' e.cache)
            ≡ some r =
          sym (lookup-insert (pair_eq v) (pair_eq_iff v) key key' o e.cache)
          ∙ ap (lookup (pair_eq v) key') (sym q)
          ∙ k in
        elim (Bool-cases (pair_eq v key key')) [
          | inl same ↦
              let e₁ = (pair_eq_iff v key key').0 same in
              let e₂ = some_path o r (ground arith) in
              sym (ap Outcome.status e₂)
              ∙ p
              ∙ same_key a b d (ap (λ (t : String × String). t.1) e₁)
              ∙ ap (λ t. fresh_status t d) (ap (λ (t : String × String). t.0) e₁)
          | inr other ↦ h c d r (ground arith)
        ]
      where
        some_path : (s t : Outcome) → some s ≡ some t → s ≡ t
        some_path s t u = cc

    answers_lem :
        (a b : String) (e : EvalState)
        → Agrees e
        → (((status v (x.get_cert a) (x.get_cert b) e).0.status) ≡ fresh_status a b)
          × Agrees (status v (x.get_cert a) (x.get_cert b) e).1
    answers_lem a b e h =
        elim (Option-cases
          (lookup (pair_eq v) ((x.get_cert a).fingerprint, (x.get_cert b).key_fp) e.cache)) [
            | inl missing ↦
                let m = status-miss (x.get_cert a) (x.get_cert b) e missing in
                let o = status-miss_outcome (x.get_cert a) (x.get_cert b) e in
                let n = status-miss_cache (x.get_cert a) (x.get_cert b) e in
                let z = ap Outcome.status o ∙ compute-fresh a b e in
                (
                  ap (λ (t : Outcome × EvalState). t.0.status) m ∙ z,
                  subst (λ (t : Outcome × EvalState). Agrees t.1) (sym m)
                      (added-Agrees a b e (compute v (x.get_cert a) (x.get_cert b) e).0
                        (status_with v (x.get_cert a) (x.get_cert b) e none).1 h
                        (compute-fresh a b e)
                        (n
                          ∙ ap
                              (λ t.
                                insert (pair_eq v) (t, (x.get_cert b).key_fp)
                                  (compute v (x.get_cert a) (x.get_cert b) e).0 e.cache)
                              (named a))),
                )
            | inr (o, found) ↦
                let m = status-hit (x.get_cert a) (x.get_cert b) e o found in
                (
                  ap (λ (t : Outcome × EvalState). t.0.status) m
                      ∙ h a b o (
                          ap (λ t. lookup (pair_eq v) (t, (x.get_cert b).key_fp) e.cache)
                            (sym (named a))
                          ∙ found),
                  subst (λ (t : Outcome × EvalState). Agrees t.1) (sym m) h,
                )
          ]

    -- The evaluator's `status` is lawful, where a certificate has one status under all issuers with
    -- one key: from a state whose cache agrees with fresh computation it answers what a fresh
    -- evaluator computes and leaves such a state.
    pub status-IsLawful : IsLawful (with_evaluator x v) Agrees fresh_status
    status-IsLawful = record { answers = answers_lem; named = named }
