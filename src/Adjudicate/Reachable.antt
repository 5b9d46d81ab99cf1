-- ===== src/Adjudicate/Reachable.antt =====
-- The certificates from which a trust anchor can be reached, `_compute_anchor_reachable` of
-- app/graph.py: the loop's fuel is enough, and what it finds.
use ab_b1b34dfe_mgf1_ocsp_bu.Prelude.{
  ℕ, zero, suc, ◌+◌, ◌≤◌, ◌<◌, String, List, [], ◌∷◌, Bool, true, false, not, ◌&&◌, if◌then◌else◌,
  str_eq, str_mem, any, length, In, Bool-cases, ◌≡◌, refl, sym, ap, ◌∙◌, inl, inr, arith, eq_iff,
  eq_refl,
}
use ab_b1b34dfe_mgf1_ocsp_bu.Adjudicate.{
  Entry, ObjectMeta, fps_where, issuer_is, subject_of, key_matches, push_children, reach_from,
}

-- the entries whose fingerprints are not in a list
abbrev pub left : List String → List Entry → ℕ
left reached [] = 0
left reached (e ∷ es) =
    if str_mem e.fingerprint reached then left reached es else suc (left reached es)

abbrev pub names : String → Entry → Bool
names fp e = str_eq e.fingerprint fp

left-le :
    (c : String) (reached : List String) (es : List Entry) → left (c ∷ reached) es ≤ left reached es
left-le c reached [] = omega arith
left-le c reached (e ∷ es) = ground (arith, left-le c reached es)

left-lt :
    (c : String) (reached : List String) (es : List Entry)
    → any (names c) es ≡ true
    → str_mem c reached ≡ false
    → left (c ∷ reached) es < left reached es
left-lt c reached [] h n = absurd (cc)
left-lt c reached (e ∷ es) h n = elim (Bool-cases (str_eq e.fingerprint c)) [
  | inl t ↦
      let same : e.fingerprint ≡ c = (eq_iff e.fingerprint c).0 t in
      let absent : str_mem e.fingerprint reached ≡ false = ap (λ s. str_mem s reached) same ∙ n in
      rw (t, absent) (let less = left-le c reached es in omega arith)
  | inr t ↦ ground (arith, left-lt c reached es)
]

-- the fingerprints of entries
fps_where-any :
    (test : ObjectMeta → Bool) (fp : String) (es : List Entry)
    → In fp (fps_where test es)
    → any (names fp) es ≡ true
unfolding fps_where
fps_where-any test fp [] m = absurd m
fps_where-any test fp (e ∷ es) m = elim (Bool-cases (test e.meta)) [
  | inl t ↦ elim (rw (fps_where, t) at m) [
    | inl p ↦ rw p (rw (eq_refl e.fingerprint) refl)
    | inr n ↦ ground (arith, fps_where-any test fp es n)
  ]
  | inr t ↦ ground (arith, fps_where-any test fp es (rw (fps_where, t) at m))
]

module _ (active : List Entry) where
  abbrev pub measure : List String × List String → ℕ
  measure p = length p.0 + left p.1 active

  -- a child goes on the stack
  abbrev pub takes : String → String → List String → Bool
  takes parent child reachable = not (str_mem child reachable) && key_matches active child parent

  pub push-skip :
      (parent child : String) (children stack reachable : List String)
      → takes parent child reachable ≡ false
      → push_children active parent (child ∷ children) (stack, reachable)
        ≡ push_children active parent children (stack, reachable)
  unfolding push_children
  push-skip parent child children stack reachable e = rw e refl

  pub push-take :
      (parent child : String) (children stack reachable : List String)
      → takes parent child reachable ≡ true
      → push_children active parent (child ∷ children) (stack, reachable)
        ≡ push_children active parent children (child ∷ stack, child ∷ reachable)
  unfolding push_children
  push-take parent child children stack reachable e = rw e refl

  takes_absent :
      (parent child : String) (reachable : List String)
      → takes parent child reachable ≡ true
      → str_mem child reachable ≡ false
  takes_absent parent child reachable e = ground arith

  pub push_children-measure :
      (parent : String) (children stack reachable : List String)
      → ((c : String) → In c children → any (names c) active ≡ true)
      → measure (push_children active parent children (stack, reachable))
        ≤ measure (stack, reachable)
  unfolding push_children
  push_children-measure parent [] stack reachable known = omega arith
  push_children-measure parent (child ∷ children) stack reachable known =
      elim (Bool-cases (takes parent child reachable)) [
        | inr e ↦
            rw (push-skip parent child children stack reachable e)
              (push_children-measure parent children stack reachable (λ c m. known c (inr m)))
        | inl e ↦ rw (push-take parent child children stack reachable e) (
            let less =
              left-lt child reachable active (known child (inl refl))
                (takes_absent parent child reachable e) in
            omega (
              arith,
              push_children-measure parent children (child ∷ stack) (child ∷ reachable)
                  (λ c m. known c (inr m)),
            ))
      ]

  children_of : String → List String
  children_of fp = fps_where (issuer_is (subject_of active fp)) active

  pub pop-measure :
      (fp : String) (stack reachable : List String)
      → measure (
          push_children active fp
            (fps_where (issuer_is (subject_of active fp)) active)
            (stack, reachable))
        < measure (fp ∷ stack, reachable)
  pop-measure fp stack reachable = omega (
    arith,
    push_children-measure fp (fps_where (issuer_is (subject_of active fp)) active) stack reachable
        (λ c m. fps_where-any (issuer_is (subject_of active fp)) c active m),
  )

  reach_from-nil :
      (fuel : ℕ) (reachable : List String) → reach_from active fuel ([], reachable) ≡ reachable
  unfolding reach_from
  reach_from-nil zero reachable = refl
  reach_from-nil (suc fuel) reachable = refl

  pub reach_from-pop :
      (fuel : ℕ) (fp : String) (stack reachable : List String)
      → reach_from active (suc fuel) (fp ∷ stack, reachable)
        ≡ reach_from active fuel (
            push_children active fp
              (fps_where (issuer_is (subject_of active fp)) active)
              (stack, reachable))
  unfolding reach_from
  reach_from-pop fuel fp stack reachable = refl

  -- any two amounts of fuel that are at least the measure find the same
  reach_from-enough :
      (f g : ℕ) (p : List String × List String)
      → measure p ≤ f
      → measure p ≤ g
      → reach_from active f p ≡ reach_from active g p
  reach_from-enough f g ([], reachable) h k =
      reach_from-nil f reachable ∙ sym (reach_from-nil g reachable)
  reach_from-enough zero g (fp ∷ stack, reachable) h k = absurd (omega arith)
  reach_from-enough (suc f) zero (fp ∷ stack, reachable) h k = absurd (omega arith)
  reach_from-enough (suc f) (suc g) (fp ∷ stack, reachable) h k =
      let less = pop-measure fp stack reachable in
      reach_from-pop f fp stack reachable
      ∙ reach_from-enough f g
          (push_children active fp (fps_where (issuer_is (subject_of active fp)) active)
            (stack, reachable))
          (omega arith) (omega arith)
      ∙ sym (reach_from-pop g fp stack reachable)
