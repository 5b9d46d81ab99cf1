-- ===== src/Normalize/Accepted.antt =====
-- What `normalize` of an input, in `validate_input` of app/adjudicate.py, succeeds with.
use ab_b1b34dfe_mgf1_ocsp_bu.Prelude.{
  ℕ, String, List, [], ◌∷◌, some, true, false, length, ◌==◌, In, In-sorted_set, sorted_set,
  sorted_set-IsAscending, ◌≡◌, ◌≢◌, refl, arith, subst, str_mem, inl,
}
use ab_b1b34dfe_mgf1_ocsp_bu.Cert.{Bytes}
use ab_b1b34dfe_mgf1_ocsp_bu.Canonical.{Json, str, Fields, field_of}
use ab_b1b34dfe_mgf1_ocsp_bu.Canonical.Times.{parsed, parse_time, canon_time, is_fingerprint}
use ab_b1b34dfe_mgf1_ocsp_bu.Api.{Result, ok, ◌>>=◌, validation, Host}
use ab_b1b34dfe_mgf1_ocsp_bu.Api.Steps.{>>=-eq-ok, or_raise-eq-ok}
use ab_b1b34dfe_mgf1_ocsp_bu.Normalize.{
  need, fingerprint_of, fingerprints_of, some_items, algorithm_of, policy_items, policies_of,
  signature_of, time_of, normalize, artifact_algorithms,
}
use ab_b1b34dfe_mgf1_ocsp_bu.Normalize.Normal.{
  IsPolicy, IsNormal, fingerprint_of-eq-ok, fingerprints_of-eq-ok, policies_of-eq-ok,
  signature_of-eq-ok, time_of-eq-ok, algorithm_of-eq-ok, or_any-IsAscending, or_any-ne-nil,
  or_any-ok,
}

need-eq-ok :
    (name : String) (fs : Fields) {v : Json} → need name fs ≡ ok v → field_of name fs ≡ some v
unfolding need
need-eq-ok name fs h = or_raise-eq-ok (field_of name fs) validation h

some_items-ne-nil : (v : Json) {xs : List Json} → some_items v ≡ ok xs → xs ≢ []
some_items-ne-nil v h e = ground arith

fingerprints_of-ne-nil :
    (xs : List Json) {ss : List String} → fingerprints_of xs ≡ ok ss → xs ≢ [] → ss ≢ []
unfolding fingerprints_of
fingerprints_of-ne-nil [] h ne e = ne refl
fingerprints_of-ne-nil (x ∷ xs) h ne e =
    let (a, e₁, h₁) = >>=-eq-ok (fingerprint_of x) _ h in
    let (rest, e₂, h₂) = >>=-eq-ok (fingerprints_of xs) _ h₁ in ground arith

sorted_set-ne-nil : (xs : List String) → xs ≢ [] → sorted_set xs ≢ []
sorted_set-ne-nil [] ne e = ne refl
sorted_set-ne-nil (x ∷ xs) ne e = absurd (rw e at ((In-sorted_set x (x ∷ xs)).1 (inl refl)))

-- every value that a computation succeeds with has a property
pub record Gives {A : Type 0} (P : A → Type 0) (r : Result A) : Type 0 where
  pub gives : (a : A) → r ≡ ok a → P a

Gives-ok : {A : Type 0} {P : A → Type 0} {a : A} → P a → Gives P (ok a)
Gives-ok {A} {P} {a} p = record { gives = λ b e. subst P (cc) p }

Gives-bind :
    {A B : Type 0} {Q : A → Type 0} {P : B → Type 0} {m : Result A} {f : A → Result B}
    → Gives Q m
    → ((a : A) → Q a → Gives P (f a))
    → Gives P (m >>= f)
Gives-bind {m = m} {f = f} first rest = record {
  gives = λ b e. let (a, e₁, e₂) = >>=-eq-ok m f e in (rest a (first.gives a e₁)).gives b e₂;
}

module _ (host : Host) (b64e : Bytes → String) (InSpan : ℕ → Type 0) (fs : Fields)
    (late : (name : String) (v : Json) (t : ℕ)
      → field_of name fs ≡ some v
      → parse_time host.calendar v ≡ parsed t
      → InSpan t) where
  Gives-time :
      (name : String)
      → Gives
          (λ s. (t : ℕ) × InSpan t × (s ≡ host.text_of (canon_time host.calendar t)))
          (need name fs >>= time_of host b64e)
  Gives-time name =
      Gives-bind (record { gives = λ v e. need-eq-ok name fs e })
        (λ v e. record {
          gives = λ s h. let (t, p, q) = time_of-eq-ok host b64e v h in (t, late name v t e p, q);
        })

  Gives-fingerprint :
      (name : String) → Gives (λ s. is_fingerprint (str s) ≡ true) (need name fs >>= fingerprint_of)
  Gives-fingerprint name =
      Gives-bind {Q = λ v. Unit {0}} (record { gives = λ v e. tt })
        (λ v e. record { gives = λ s h. (fingerprint_of-eq-ok v h).1 })

  Gives-signature :
      Gives
        (λ s. (bytes : Bytes) × ((length bytes == 0) ≡ false) × (s ≡ b64e bytes))
        (need "signature" fs >>= signature_of host b64e)
  Gives-signature =
      Gives-bind {Q = λ v. Unit {0}} (record { gives = λ v e. tt })
        (λ v e. record { gives = λ s h. signature_of-eq-ok host b64e v h })

  Gives-algorithm :
      Gives
        (λ s. str_mem s artifact_algorithms ≡ true)
        (need "signature_algorithm" fs >>= algorithm_of)
  Gives-algorithm =
      Gives-bind {Q = λ v. Unit {0}} {m = need "signature_algorithm" fs}
        (record { gives = λ v e. tt })
        (λ v e. record { gives = λ s h. algorithm_of-eq-ok host b64e v h })

  Gives-anchors :
      Gives
        (λ ss. (ss ≢ []) × ((s : String) → In s ss → is_fingerprint (str s) ≡ true))
        (need "trust_anchors" fs >>= some_items >>= fingerprints_of)
  Gives-anchors =
      Gives-bind {Q = λ xs. xs ≢ []}
        (Gives-bind {Q = λ v. Unit {0}} (record { gives = λ v e. tt })
          (λ v e. record { gives = λ xs h. some_items-ne-nil v h }))
        (λ xs ne. record {
          gives = λ ss h. (fingerprints_of-ne-nil xs h ne, fingerprints_of-eq-ok xs h);
        })

  Gives-policies :
      Gives
        (λ ss. (s : String) → In s ss → IsPolicy host b64e s)
        (policy_items (field_of "initial_policy_set" fs) >>= policies_of host b64e)
  Gives-policies =
      Gives-bind {Q = λ v. Unit {0}} (record { gives = λ v e. tt })
        (λ xs e. record { gives = λ ss h. policies_of-eq-ok host b64e xs h })

  pub normalize-IsNormal : Gives (IsNormal host b64e InSpan) (normalize host b64e fs)
  unfolding normalize
  normalize-IsNormal = Gives-bind (Gives-fingerprint "artifact_digest") (λ digest d.
      Gives-bind Gives-signature (λ signature s. Gives-bind Gives-algorithm (λ algorithm a.
        Gives-bind (Gives-time "signed_at") (λ signed_at t.
          Gives-bind (Gives-time "knowledge_cutoff") (λ cutoff c.
            Gives-bind (Gives-fingerprint "leaf_fingerprint") (λ leaf l.
              Gives-bind Gives-anchors (λ anchors an. Gives-bind Gives-policies (λ initial p.
                Gives-ok (record {
                  digest_ok = d;
                  bytes = s.0;
                  bytes_some = s.1;
                  signature_lem = s.2;
                  algorithm_ok = a;
                  signed = t.0;
                  signed_in = t.1;
                  signed_lem = t.2;
                  cutoff = c.0;
                  cutoff_in = c.1;
                  cutoff_lem = c.2;
                  leaf_ok = l;
                  anchors_ascending = sorted_set-IsAscending anchors;
                  anchors_some = sorted_set-ne-nil anchors an.0;
                  anchors_ok = λ x m. an.1 x ((In-sorted_set x anchors).0 m);
                  policies_ascending =
                      or_any-IsAscending host b64e (sorted_set initial)
                        (sorted_set-IsAscending initial);
                  policies_some = or_any-ne-nil host b64e (sorted_set initial);
                  policies_ok =
                      or_any-ok host b64e (sorted_set initial)
                        (λ x m. p x ((In-sorted_set x initial).0 m));
                })))))))))
