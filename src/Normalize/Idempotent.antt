-- ===== src/Normalize/Idempotent.antt =====
-- `validate_input` of app/adjudicate.py on its own answers, which the verifier of packs relies on.
use ab_b1b34dfe_mgf1_ocsp_bu.Prelude.{
  ℕ, String, List, [], ◌∷◌, some, false, length, ◌==◌, sorted_set, sorted_set_id, ◌≡◌, ◌≢◌, refl,
  ap, sym, ◌∙◌, arith, subst,
}
use ab_b1b34dfe_mgf1_ocsp_bu.Cert.{Bytes}
use ab_b1b34dfe_mgf1_ocsp_bu.Canonical.{Json, str, arr, obj, Fields, field_of, codes}
use ab_b1b34dfe_mgf1_ocsp_bu.Canonical.Times.{parsed, parse_time, canon_time}
use ab_b1b34dfe_mgf1_ocsp_bu.Canonical.RoundTrip.{IsCalendar, InRange, parse_text-canon_time}
use ab_b1b34dfe_mgf1_ocsp_bu.Api.{ok, ◌>>=◌, Host, items_of, fields_of}
use ab_b1b34dfe_mgf1_ocsp_bu.Api.Steps.{>>=-eq-ok}
use ab_b1b34dfe_mgf1_ocsp_bu.Normalize.{
  strs, need, fingerprint_of, fingerprints_of, some_items, algorithm_of, policy_items, or_any,
  Normalized, input_json, policies_of, signature_of, time_of, normalize, validate_input,
}
use ab_b1b34dfe_mgf1_ocsp_bu.Normalize.Normal.{
  IsNormal, list_of-items_of, fingerprint_of-str, fingerprints_of-strs, policies_of-strs,
}
use ab_b1b34dfe_mgf1_ocsp_bu.Normalize.Accepted.{normalize-IsNormal}

module _ (host : Host) (b64e : Bytes → String)
    (b64_law : (bytes : Bytes) → host.b64d (b64e bytes) ≡ some bytes)
    (laws : IsCalendar host.calendar)
    (text_law : (t : ℕ)
      → codes (host.text_of (canon_time host.calendar t)) ≡ canon_time host.calendar t) where
  signature_of-b64e :
      (bytes : Bytes)
      → (length bytes == 0) ≡ false
      → signature_of host b64e (str (b64e bytes)) ≡ ok (b64e bytes)
  unfolding signature_of
  signature_of-b64e bytes h = rw (b64_law bytes, h) refl

  time_of-canon :
      (t : ℕ)
      → InRange laws t
      → time_of host b64e (str (host.text_of (canon_time host.calendar t)))
        ≡ ok (host.text_of (canon_time host.calendar t))
  unfolding parse_time
  time_of-canon t h = rw (text_law t, parse_text-canon_time host.calendar laws t h) refl

  some_items-strs :
      (ss : List String) → ss ≢ [] → some_items (arr (items_of (strs ss))) ≡ ok (strs ss)
  some_items-strs [] ne = absurd (ne refl)
  some_items-strs (s ∷ ss) ne = ap (λ xs. ok (str s ∷ xs)) (list_of-items_of (strs ss))

  or_any-id : (ss : List String) → ss ≢ [] → or_any ss ≡ ss
  or_any-id [] ne = absurd (ne refl)
  or_any-id (s ∷ ss) ne = refl

  -- the result of `normalize` from those of its steps
  normalize-steps :
      (fs : Fields) (d s a t c l : String) (anchors initial : List String)
      → (need "artifact_digest" fs >>= fingerprint_of) ≡ ok d
      → (need "signature" fs >>= signature_of host b64e) ≡ ok s
      → (need "signature_algorithm" fs >>= algorithm_of) ≡ ok a
      → (need "signed_at" fs >>= time_of host b64e) ≡ ok t
      → (need "knowledge_cutoff" fs >>= time_of host b64e) ≡ ok c
      → (need "leaf_fingerprint" fs >>= fingerprint_of) ≡ ok l
      → (need "trust_anchors" fs >>= some_items >>= fingerprints_of) ≡ ok anchors
      → (policy_items (field_of "initial_policy_set" fs) >>= policies_of host b64e) ≡ ok initial
      → normalize host b64e fs
        ≡ ok (record {
          artifact_digest = d;
          signature = s;
          signature_algorithm = a;
          signed_at = t;
          knowledge_cutoff = c;
          leaf_fingerprint = l;
          initial_policy_set = or_any (sorted_set initial);
          trust_anchors = sorted_set anchors;
        })
  unfolding normalize
  normalize-steps fs d s a t c l anchors initial e₁ e₂ e₃ e₄ e₅ e₆ e₇ e₈ =
      rw (e₁, e₂, e₃, e₄, e₅, e₆, e₇, e₈) refl

  abbrev fields_in : Normalized → Fields
  fields_in n = fields_of (
      ("artifact_digest", str n.artifact_digest)
      ∷ ("signature", str n.signature)
      ∷ ("signature_algorithm", str n.signature_algorithm)
      ∷ ("signed_at", str n.signed_at)
      ∷ ("knowledge_cutoff", str n.knowledge_cutoff)
      ∷ ("leaf_fingerprint", str n.leaf_fingerprint)
      ∷ ("initial_policy_set", arr (items_of (strs n.initial_policy_set)))
      ∷ ("trust_anchors", arr (items_of (strs n.trust_anchors)))
      ∷ [])

  normalize-id :
      (n : Normalized)
      → IsNormal host b64e (InRange laws) n
      → normalize host b64e (fields_in n) ≡ ok n
  unfolding need field_of
  normalize-id n k =
      normalize-steps (fields_in n) n.artifact_digest n.signature n.signature_algorithm n.signed_at
        n.knowledge_cutoff n.leaf_fingerprint n.trust_anchors n.initial_policy_set
        (fingerprint_of-str n.artifact_digest k.digest_ok)
        (subst (λ s. signature_of host b64e (str s) ≡ ok s) (sym k.signature_lem)
          (signature_of-b64e k.bytes k.bytes_some))
        (rw k.algorithm_ok refl)
        (subst (λ s. time_of host b64e (str s) ≡ ok s) (sym k.signed_lem)
          (time_of-canon k.signed k.signed_in))
        (subst (λ s. time_of host b64e (str s) ≡ ok s) (sym k.cutoff_lem)
          (time_of-canon k.cutoff k.cutoff_in))
        (fingerprint_of-str n.leaf_fingerprint k.leaf_ok)
        (rw (some_items-strs n.trust_anchors k.anchors_some)
          (fingerprints_of-strs n.trust_anchors k.anchors_ok))
        (ap (policies_of host b64e) (list_of-items_of (strs n.initial_policy_set))
          ∙ policies_of-strs host b64e n.initial_policy_set k.policies_ok)
      ∙ rw
          (
            sorted_set_id n.initial_policy_set k.policies_ascending,
            or_any-id n.initial_policy_set k.policies_some,
            sorted_set_id n.trust_anchors k.anchors_ascending,
          )
          refl

  validate_input-id :
      (n : Normalized)
      → IsNormal host b64e (InRange laws) n
      → validate_input host b64e (input_json n) ≡ ok (input_json n)
  unfolding validate_input
  validate_input-id n k = rw (normalize-id n k) refl

  -- The answer of `validate_input` to an object whose times the calendar is known for is in normal form: it is
  -- built of fingerprints, base64 of some bytes, a supported algorithm, canonical times, and ascending,
  -- non-empty lists of fingerprints and policies; and `validate_input` answers it by itself.
  pub validate_input-idempotent :
      (fs : Fields)
      → ((name : String) (v : Json) (t : ℕ)
          → field_of name fs ≡ some v
          → parse_time host.calendar v ≡ parsed t
          → InRange laws t)
      → (answer : Json) → validate_input host b64e (obj fs) ≡ ok answer
      → (n : Normalized) × IsNormal host b64e (InRange laws) n
        × (answer ≡ input_json n)
        × (validate_input host b64e answer ≡ ok answer)
  unfolding validate_input
  validate_input-idempotent fs late answer h =
      let (n, e, e') = >>=-eq-ok (normalize host b64e fs) (λ n. ok (input_json n)) h in
      let k = (normalize-IsNormal host b64e (InRange laws) fs late).gives n e in
      let same : answer ≡ input_json n = ground arith in
      (
        n,
        k,
        same,
        subst (λ a. validate_input host b64e a ≡ ok a) (sym same) (validate_input-id n k),
      )
