-- ===== src/Adjudicate/Justified.antt =====
-- What a VALID verdict of app/adjudicate.py rests on.
use ab_b1b34dfe_mgf1_ocsp_bu.Prelude.{
  suc, ◌≤◌, String, List, [], ◌∷◌, Option, none, some, Bool, true, if◌then◌else◌, length, ◌≡◌, refl,
  sym, ap, ◌∙◌, subst, arith, eq_iff,
}
use ab_b1b34dfe_mgf1_ocsp_bu.Cert.{CertInfo, KeyAlg}
use ab_b1b34dfe_mgf1_ocsp_bu.Profile.{verify_signature, artifact_algorithm_matches_key}
use ab_b1b34dfe_mgf1_ocsp_bu.Graph.{Explored}
use ab_b1b34dfe_mgf1_ocsp_bu.Graph.Search.{SearchResult, path_found, rejected, out_of_budget}
use ab_b1b34dfe_mgf1_ocsp_bu.Graph.Rules.{IsSigner}
use ab_b1b34dfe_mgf1_ocsp_bu.Graph.Sound.{IsChain, IsDistinct, search_sound}
use ab_b1b34dfe_mgf1_ocsp_bu.Revocation.{EvalState}
use ab_b1b34dfe_mgf1_ocsp_bu.Revocation.Lawful.{fresh_status, status-IsLawful, Agrees}
use ab_b1b34dfe_mgf1_ocsp_bu.Adjudicate.{Entry, Input, World, explorer, evaluator}
use ab_b1b34dfe_mgf1_ocsp_bu.Adjudicate.Engine.{
  Artifact, artifact_valid, artifact_invalid, key_mismatch, key_unsupported, Verdict, answered,
  artifact_descriptor, check_artifact_signature, is_valid, explore_once, conclude, run_engine,
  unexplored, verdict_of, has_path,
}
use ab_b1b34dfe_mgf1_ocsp_bu.Adjudicate.Verdict.{run-inv, settle-inv}

same_verdict : {u v : Verdict} {a b : List Entry} → answered u a ≡ answered v b → u ≡ v
same_verdict h = cc

module _ (w : World) (inp : Input) where
  -- the key of the leaf verifies the artifact's signature by the algorithm that the input names, which
  -- fits the key
  abbrev pub Signs : CertInfo → Type 0
  Signs c =
      (artifact_algorithm_matches_key inp.signature_algorithm c.key_alg ≡ true)
      × (verify_signature w.pub_verify c.public_key (artifact_descriptor inp.signature_algorithm)
            inp.signature inp.message
          ≡ true)

  check-Signs : (c : CertInfo) → is_valid (check_artifact_signature w inp c) ≡ true → Signs c
  unfolding check_artifact_signature
  check-Signs c h = by_key c.key_alg h
    where
      verified : Bool → Artifact
      verified t = if t then artifact_valid else artifact_invalid

      by_key :
          (k : Option KeyAlg)
          → is_valid (elim k [
            | none ↦ key_unsupported
            | some key ↦
                if artifact_algorithm_matches_key inp.signature_algorithm (some key)
                then (if verify_signature w.pub_verify c.public_key
                      (artifact_descriptor inp.signature_algorithm)
                      inp.signature
                      inp.message
                    then artifact_valid
                    else artifact_invalid)
                else key_mismatch
          ])
            ≡ true
          → (artifact_algorithm_matches_key inp.signature_algorithm k ≡ true)
            × (verify_signature w.pub_verify c.public_key
                  (artifact_descriptor inp.signature_algorithm)
                  inp.signature
                  inp.message
                ≡ true)
      by_key none h = absurd (cc)
      by_key (some key) h = ground arith

  valid_parts :
      (a : Artifact) (c : CertInfo) (r : SearchResult)
      → verdict_of w inp a c r ≡ "VALID"
      → (is_valid a ≡ true) × (has_path r ≡ true)
  valid_parts a c r h = ground (arith, eq_iff "UNSUPPORTED" "VALID", eq_iff "INVALID" "VALID")

  conclude-parts :
      (active : List Entry) (r : SearchResult × Explored EvalState) {v : Verdict} {a : List Entry}
      → conclude w inp active r ≡ answered v a
      → (v.decision ≡ r.0)
        × (v.verdict
            ≡ verdict_of w inp
                (check_artifact_signature w inp (w.get_cert inp.leaf_fingerprint))
                (w.get_cert inp.leaf_fingerprint)
                r.0)
  unfolding conclude
  conclude-parts active (path_found path, st) h = (
    ap (λ (x : Verdict). x.decision) (sym (same_verdict h)),
    ap (λ (x : Verdict). x.verdict) (sym (same_verdict h)),
  )
  conclude-parts active (rejected complete branches, st) h = (
    ap (λ (x : Verdict). x.decision) (sym (same_verdict h)),
    ap (λ (x : Verdict). x.verdict) (sym (same_verdict h)),
  )
  conclude-parts active (out_of_budget, st) h = absurd (cc)

  found_path : (r : SearchResult) → has_path r ≡ true → (path : List String) × (r ≡ path_found path)
  found_path (path_found path) h = (path, refl)
  found_path (rejected complete branches) h = absurd (cc)
  found_path out_of_budget h = absurd (cc)

  -- A VALID verdict is justified by the objects that it rests on, where parsed certificates carry the
  -- fingerprints that name them and, by those objects, a certificate has one status under all issuers
  -- with one key: the key of the leaf verifies the artifact's signature by the algorithm of the input,
  -- which fits the key; and the decision is a path from the leaf, which may sign code at `signed_at`,
  -- over valid links with certificates that are not revoked, to the first trust anchor, that keeps the
  -- name constraints and the policies, repeats no certificate and has at most 33 of them.
  pub run_engine-valid :
      (objects : List Entry) {v : Verdict} {active : List Entry}
      → run_engine w inp objects ≡ answered v active
      → v.verdict ≡ "VALID"
      → ((fp : String) → (w.get_cert fp).fingerprint ≡ fp)
      → ((a b c : String)
          → (w.get_cert b).key_fp ≡ (w.get_cert c).key_fp
          → fresh_status (explorer active w inp) (evaluator active w inp) a b
            ≡ fresh_status (explorer active w inp) (evaluator active w inp) a c)
      → Signs (w.get_cert inp.leaf_fingerprint)
        × ((rest : List String) × (v.decision ≡ path_found (inp.leaf_fingerprint ∷ rest))
            × IsSigner inp.signed_at (w.get_cert inp.leaf_fingerprint)
            × IsChain
                (explorer active w inp)
                (fresh_status (explorer active w inp) (evaluator active w inp))
                inp.leaf_fingerprint
                []
                rest
            × IsDistinct (inp.leaf_fingerprint ∷ rest)
            × (length (inp.leaf_fingerprint ∷ rest) ≤ 33))
  unfolding explore_once
  run_engine-valid objects {v} {active} h valid named same_key =
      let (e, f, t, k) = run-inv w inp objects h in
      let (d, c, l) = settle-inv w inp (suc (length objects)) objects k in
      let (decision, verdict) = conclude-parts active (explore_once w inp active) c in
      let cert = w.get_cert inp.leaf_fingerprint in
      let (signed, has) =
        valid_parts (check_artifact_signature w inp cert) cert (explore_once w inp active).0
          (sym verdict ∙ valid) in
      let (path, p) = found_path (explore_once w inp active).0 has in
      let x = explorer active w inp in
      let ev = evaluator active w inp in
      let (rest, q, signer, chain, distinct, len) =
        search_sound x (fresh_status x ev) inp.leaf_fingerprint (Agrees x ev) unexplored path
          (status-IsLawful x ev named same_key) (omega arith)
          (record { rev_ok = λ a b o g. absurd (cc); cache = tt }) p in
      (
        check-Signs cert signed,
        (
          rest,
          decision ∙ p ∙ ap path_found q,
          signer,
          chain,
          subst IsDistinct q distinct,
          subst (λ z. length z ≤ 33) q len,
        ),
      )
