-- ===== src/Policy/Accepted.antt =====
-- What an accepted policy evaluation of app/pki.py promises.
use ab_b1b34dfe_mgf1_ocsp_bu.Prelude.{
  String, List, [], ◌∷◌, Option, none, some, Bool, true, false, not, select, str_eq, str_mem,
  str_mem_iff, str_le, sort_by, In, In-sort_by, In-select, ◌≡◌, ◌≢◌, refl, ap, sym, subst, ◌∙◌,
  arith, eq_iff, Bool-cases, inl, inr,
}
use ab_b1b34dfe_mgf1_ocsp_bu.Cert.{CertInfo}
use ab_b1b34dfe_mgf1_ocsp_bu.Policy.{
  any_policy, narrow, Narrowed, valid_set, mapping_any, pass, only_any, initial_or_any, is_specific,
  accept, above_leaf, leaf_name, but_last, evaluate_below, evaluate_policies, pending_at,
  positive_or_one, require_explicit,
}

-- a policy other than anyPolicy is in the set
abbrev pub IsConcrete : List String → Type 0
IsConcrete s = (p : String) × In p s × (p ≢ any_policy)

IsConcrete-only_any : (s : List String) → only_any s ≡ false → IsConcrete s
unfolding only_any
IsConcrete-only_any [] h = absurd (cc)
IsConcrete-only_any (p ∷ s) h = elim (Bool-cases (str_eq p any_policy)) [
  | inl e ↦ let (q, m, d) = IsConcrete-only_any s (ground arith) in (q, inr m, d)
  | inr e ↦ (p, inl refl, λ k. absurd (ground (arith, (eq_iff p any_policy).1 k)))
]

accept-IsConcrete :
    (initial : List String) (leaf : String) (valid : Option (List String)) (ps : List String)
    → accept true initial leaf valid ≡ pass ps
    → (s : List String) × (valid ≡ some s) × IsConcrete s
unfolding accept
accept-IsConcrete initial leaf none ps h = absurd (ground arith)
accept-IsConcrete initial leaf (some s) ps h = (s, refl, IsConcrete-only_any s (ground arith))

-- some policy is accepted, and only ones that the request names
abbrev AreNamed : List String → List String → Type 0
AreNamed initial ps = ((p : String) × In p ps) × ((p : String) → In p ps → In p initial)

sort_by-AreNamed :
    (initial qs : List String)
    → ((p : String) × In p qs)
    → ((p : String) → In p qs → In p initial)
    → AreNamed initial (sort_by str_le qs)
sort_by-AreNamed initial qs (p, m) h =
    ((p, (In-sort_by str_le p qs).1 m), λ q n. h q ((In-sort_by str_le q qs).0 n))

In-initial_or_any : (initial : List String) → (p : String) × In p (initial_or_any initial)
unfolding initial_or_any
In-initial_or_any [] = (any_policy, inl refl)
In-initial_or_any (p ∷ ps) = (p, inl refl)

-- what passes for a specific initial set is that set or its part of the valid set
chosen-AreNamed :
    (initial : List String) (leaf : String) (valid ps : List String)
    → ((p : String) × In p initial)
    → is_specific initial ≡ true
    → (explicit : Bool) → accept explicit initial leaf (some valid) ≡ pass ps
    → AreNamed initial ps
unfolding accept
chosen-AreNamed initial leaf valid ps i s explicit h = elim (Bool-cases (only_any valid)) [
  | inl e ↦ of_initial (ground arith)
  | inr e ↦ elim (Bool-cases (str_mem any_policy valid)) [
    | inl k ↦ of_initial (ground arith)
    | inr k ↦ of_part (select (λ p. str_mem p initial) valid) refl (ground arith)
  ]
]
  where
    of_initial : ps ≡ sort_by str_le initial → AreNamed initial ps
    of_initial e = subst (AreNamed initial) (sym e) (sort_by-AreNamed initial initial i (λ p m. m))

    of_part :
        (part : List String)
        → select (λ p. str_mem p initial) valid ≡ part
        → (part ≢ []) × (ps ≡ sort_by str_le part)
        → AreNamed initial ps
    of_part [] e (ne, k) = absurd (ne refl)
    of_part (q ∷ qs) e (ne, k) = subst (AreNamed initial) (sym k) (
        sort_by-AreNamed initial (q ∷ qs) (q, inl refl)
          λ p m.
            (str_mem_iff p initial).0
              ((In-select (λ (r : String). str_mem r initial) p valid).0
                (subst (λ t. In p t) (sym e) m)).1)

accept-AreNamed :
    (explicit : Bool) (initial : List String) (leaf : String) (valid : Option (List String))
    (ps : List String)
    → ((p : String) × In p initial)
    → is_specific initial ≡ true
    → accept explicit initial leaf valid ≡ pass ps
    → AreNamed initial ps
unfolding accept
accept-AreNamed explicit initial leaf none ps i s h = absurd (ground arith)
accept-AreNamed explicit initial leaf (some valid) ps i s h =
    chosen-AreNamed initial leaf valid ps i s explicit h

-- the evaluation passes by `accept`, of the set that the main loop leaves
evaluate_below-accept :
    (certs : List CertInfo) (leaf : String) (initial ps : List String)
    → evaluate_below certs leaf initial ≡ pass ps
    → (valid : Option (List String)) × (narrow certs ≡ valid_set valid)
      × (accept
            (not (positive_or_one (pending_at require_explicit (above_leaf certs))))
            (initial_or_any initial)
            leaf
            valid
          ≡ pass ps)
unfolding evaluate_below
evaluate_below-accept certs leaf initial ps h = by_result (narrow certs) refl
  where
    by_result :
        (r : Narrowed)
        → narrow certs ≡ r
        → (valid : Option (List String)) × (narrow certs ≡ valid_set valid)
          × (accept
                (not (positive_or_one (pending_at require_explicit (above_leaf certs))))
                (initial_or_any initial)
                leaf
                valid
              ≡ pass ps)
    by_result (mapping_any fp) e = absurd (ground arith)
    by_result (valid_set valid) e = (valid, e, ground arith)

-- A path that passes while an explicit policy is required has a concrete policy left in its set.
pub evaluate_policies-IsConcrete :
    (path : List CertInfo) (initial ps : List String)
    → positive_or_one (pending_at require_explicit (above_leaf (but_last path))) ≡ false
    → evaluate_policies path initial ≡ pass ps
    → (s : List String) × (narrow (but_last path) ≡ valid_set (some s)) × IsConcrete s
unfolding evaluate_policies
evaluate_policies-IsConcrete path initial ps e h =
    let (valid, n, a) = evaluate_below-accept (but_last path) (leaf_name path) initial ps h in
    let b =
      subst (λ t. accept (not t) (initial_or_any initial) (leaf_name path) valid ≡ pass ps) e a in
    let (s, k, c) = accept-IsConcrete (initial_or_any initial) (leaf_name path) valid ps b in
    (s, n ∙ ap valid_set k, c)

-- Where the request names specific policies, a path that passes has at least one policy accepted, and
-- only ones that the request names.
pub evaluate_policies-initial :
    (path : List CertInfo) (initial ps : List String)
    → is_specific (initial_or_any initial) ≡ true
    → evaluate_policies path initial ≡ pass ps
    → ((p : String) × In p ps) × ((p : String) → In p ps → In p (initial_or_any initial))
unfolding evaluate_policies
evaluate_policies-initial path initial ps s h =
    let (valid, n, a) = evaluate_below-accept (but_last path) (leaf_name path) initial ps h in
    accept-AreNamed
      (not (positive_or_one (pending_at require_explicit (above_leaf (but_last path)))))
      (initial_or_any initial) (leaf_name path) valid ps (In-initial_or_any initial) s a
