-- ===== src/Normalize/Normal.antt =====
-- The answers of `validate_input` are in normal form, and it answers a normal form by itself.
use ab_b1b34dfe_mgf1_ocsp_bu.Prelude.{
  ℕ, String, List, [], ◌∷◌, some, true, false, str_eq, str_mem, length, ◌==◌, In, IsAscending, inl,
  inr, ◌≡◌, ◌≢◌, refl, ap, arith, eq_iff, ◌||◌,
}
use ab_b1b34dfe_mgf1_ocsp_bu.Cert.{Bytes}
use ab_b1b34dfe_mgf1_ocsp_bu.Canonical.{Json, null, bool, int, str, arr, obj, codes}
use ab_b1b34dfe_mgf1_ocsp_bu.Canonical.Times.{
  Parsed, parsed, invalid, overflow, parse_time, canon_time, is_fingerprint,
}
use ab_b1b34dfe_mgf1_ocsp_bu.Api.{ok, or_raise, validation, Host, list_of, items_of, string_value}
use ab_b1b34dfe_mgf1_ocsp_bu.Api.Objects.{canonical_or}
use ab_b1b34dfe_mgf1_ocsp_bu.Api.Steps.{>>=-eq-ok, raise_if-eq-ok}
use ab_b1b34dfe_mgf1_ocsp_bu.Normalize.{
  strs, fingerprint_of, fingerprints_of, algorithm_of, artifact_algorithms, or_any, Normalized,
  is_oid_text, policy_of, policies_of, signature_of, time_of,
}

pub list_of-items_of : (xs : List Json) → list_of (items_of xs) ≡ xs
list_of-items_of [] = refl
list_of-items_of (x ∷ xs) = ap (λ ys. x ∷ ys) (list_of-items_of xs)

pub fingerprint_of-eq-ok :
    (v : Json) {s : String}
    → fingerprint_of v ≡ ok s
    → (v ≡ str s) × (is_fingerprint (str s) ≡ true)
unfolding fingerprint_of
fingerprint_of-eq-ok (str s) h = ground arith
fingerprint_of-eq-ok null h = absurd (cc)
fingerprint_of-eq-ok (bool b) h = absurd (cc)
fingerprint_of-eq-ok (int n) h = absurd (cc)
fingerprint_of-eq-ok (arr xs) h = absurd (cc)
fingerprint_of-eq-ok (obj fs) h = absurd (cc)

pub fingerprint_of-str :
    (s : String) → is_fingerprint (str s) ≡ true → fingerprint_of (str s) ≡ ok s
unfolding fingerprint_of
fingerprint_of-str s h = rw h refl

pub fingerprints_of-eq-ok :
    (xs : List Json) {ss : List String}
    → fingerprints_of xs ≡ ok ss
    → (s : String) → In s ss
    → is_fingerprint (str s) ≡ true
unfolding fingerprints_of
fingerprints_of-eq-ok [] h s m = absurd (ground arith)
fingerprints_of-eq-ok (x ∷ xs) {ss} h s m =
    let (a, e, h₁) = >>=-eq-ok (fingerprint_of x) _ h in
    let (rest, e', h₂) = >>=-eq-ok (fingerprints_of xs) _ h₁ in
    ground (arith, fingerprint_of-eq-ok x e, fingerprints_of-eq-ok xs e' s)

pub fingerprints_of-strs :
    (ss : List String)
    → ((s : String) → In s ss → is_fingerprint (str s) ≡ true)
    → fingerprints_of (strs ss) ≡ ok ss
unfolding fingerprints_of
fingerprints_of-strs [] h = refl
fingerprints_of-strs (s ∷ ss) h =
    rw (fingerprint_of-str s (h s (inl refl)), fingerprints_of-strs ss (λ t m. h t (inr m))) refl

policy_of-eq-ok :
    (host : Host) (b64e : Bytes → String) (v : Json) {s : String}
    → policy_of host b64e v ≡ ok s
    → (v ≡ str s) × ((str_eq s "anyPolicy" || is_oid_text host b64e (codes s)) ≡ true)
unfolding policy_of
policy_of-eq-ok host b64e (str s) h = ground arith
policy_of-eq-ok host b64e null h = absurd (cc)
policy_of-eq-ok host b64e (bool b) h = absurd (cc)
policy_of-eq-ok host b64e (int n) h = absurd (cc)
policy_of-eq-ok host b64e (arr xs) h = absurd (cc)
policy_of-eq-ok host b64e (obj fs) h = absurd (cc)

module _ (host : Host) (b64e : Bytes → String) where
  abbrev pub IsPolicy : String → Type 0
  IsPolicy s = (str_eq s "anyPolicy" || is_oid_text host b64e (codes s)) ≡ true

  pub policies_of-eq-ok :
      (xs : List Json) {ss : List String}
      → policies_of host b64e xs ≡ ok ss
      → (s : String) → In s ss
      → IsPolicy s
  unfolding policies_of
  policies_of-eq-ok [] h s m = absurd (ground arith)
  policies_of-eq-ok (x ∷ xs) {ss} h s m =
      let (a, e, h₁) = >>=-eq-ok (policy_of host b64e x) _ h in
      let (rest, e', h₂) = >>=-eq-ok (policies_of host b64e xs) _ h₁ in
      ground (arith, policy_of-eq-ok host b64e x e, policies_of-eq-ok xs e' s)

  policy_of-str : (s : String) → IsPolicy s → policy_of host b64e (str s) ≡ ok s
  unfolding policy_of
  policy_of-str s h = rw h refl

  pub policies_of-strs :
      (ss : List String)
      → ((s : String) → In s ss → IsPolicy s)
      → policies_of host b64e (strs ss) ≡ ok ss
  unfolding policies_of
  policies_of-strs [] h = refl
  policies_of-strs (s ∷ ss) h =
      rw (policy_of-str s (h s (inl refl)), policies_of-strs ss (λ t m. h t (inr m))) refl

  -- what the normal form of an input with times in `InSpan` is made of
  pub record IsNormal (InSpan : ℕ → Type 0) (n : Normalized) : Type 0 where
    pub digest_ok : is_fingerprint (str n.artifact_digest) ≡ true
    pub bytes : Bytes
    pub bytes_some : (length bytes == 0) ≡ false
    pub signature_lem : n.signature ≡ b64e bytes
    pub algorithm_ok : str_mem n.signature_algorithm artifact_algorithms ≡ true
    pub signed : ℕ
    pub signed_in : InSpan signed
    pub signed_lem : n.signed_at ≡ host.text_of (canon_time host.calendar signed)
    pub cutoff : ℕ
    pub cutoff_in : InSpan cutoff
    pub cutoff_lem : n.knowledge_cutoff ≡ host.text_of (canon_time host.calendar cutoff)
    pub leaf_ok : is_fingerprint (str n.leaf_fingerprint) ≡ true
    pub anchors_ascending : IsAscending n.trust_anchors
    pub anchors_some : n.trust_anchors ≢ []
    pub anchors_ok : (s : String) → In s n.trust_anchors → is_fingerprint (str s) ≡ true
    pub policies_ascending : IsAscending n.initial_policy_set
    pub policies_some : n.initial_policy_set ≢ []
    pub policies_ok : (s : String) → In s n.initial_policy_set → IsPolicy s

  pub signature_of-eq-ok :
      (v : Json) {s : String}
      → signature_of host b64e v ≡ ok s
      → (bytes : Bytes) × ((length bytes == 0) ≡ false) × (s ≡ b64e bytes)
  unfolding signature_of
  signature_of-eq-ok v h =
      let (text, e, h₁) = >>=-eq-ok (string_value (some v)) _ h in
      let (bytes, e', h₂) = >>=-eq-ok (or_raise (host.b64d text) validation) _ h₁ in
      let (some_left, h₃) = raise_if-eq-ok (length bytes == 0) validation _ h₂ in
      (bytes, some_left, ground arith)

  pub time_of-eq-ok :
      (v : Json) {s : String}
      → time_of host b64e v ≡ ok s
      → (t : ℕ) × (parse_time host.calendar v ≡ parsed t)
        × (s ≡ host.text_of (canon_time host.calendar t))
  time_of-eq-ok v h = read (parse_time host.calendar v) refl h
    where
      read :
          {s : String} (p : Parsed)
          → parse_time host.calendar v ≡ p
          → canonical_or host validation p ≡ ok s
          → (t : ℕ) × (parse_time host.calendar v ≡ parsed t)
            × (s ≡ host.text_of (canon_time host.calendar t))
      read (parsed t) e k = (t, e, ground arith)
      read invalid e k = absurd (cc)
      read overflow e k = absurd (cc)

  pub algorithm_of-eq-ok :
      (v : Json) {s : String} → algorithm_of v ≡ ok s → str_mem s artifact_algorithms ≡ true
  algorithm_of-eq-ok (str s) h = ground arith
  algorithm_of-eq-ok null h = absurd (cc)
  algorithm_of-eq-ok (bool b) h = absurd (cc)
  algorithm_of-eq-ok (int n) h = absurd (cc)
  algorithm_of-eq-ok (arr xs) h = absurd (cc)
  algorithm_of-eq-ok (obj fs) h = absurd (cc)

  pub or_any-IsAscending : (ps : List String) → IsAscending ps → IsAscending (or_any ps)
  or_any-IsAscending [] s = tt
  or_any-IsAscending (p ∷ ps) s = s

  pub or_any-ne-nil : (ps : List String) → or_any ps ≢ []
  or_any-ne-nil [] e = cc
  or_any-ne-nil (p ∷ ps) e = cc

  pub or_any-ok :
      (ps : List String)
      → ((s : String) → In s ps → IsPolicy s)
      → (s : String) → In s (or_any ps)
      → IsPolicy s
  or_any-ok [] h s m = ground (arith, eq_iff s "anyPolicy")
  or_any-ok (p ∷ ps) h s m = h s m
