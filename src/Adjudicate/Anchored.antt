-- ===== src/Adjudicate/Anchored.antt =====
-- What `_compute_anchor_reachable` of app/graph.py finds: the certificates with a chain of issuers,
-- matched by name and key identifier, up to a trust anchor.
use ab_b1b34dfe_mgf1_ocsp_bu.Prelude.{
  ℕ, zero, suc, ◌+◌, ◌≤◌, String, List, [], ◌∷◌, Bool, true, false, ◌&&◌, if◌then◌else◌, str_mem,
  str_mem_iff, length, In, In-select, Bool-cases, ◌≡◌, refl, sym, subst, inl, inr, ◌⊎◌, ◌↔◌, arith,
}
use ab_b1b34dfe_mgf1_ocsp_bu.Adjudicate.{
  Entry, fps_where, issuer_is, is_cert, subject_of, push_children, reach_from, anchors_in,
  anchor_reachable,
}
use ab_b1b34dfe_mgf1_ocsp_bu.Adjudicate.Reachable.{left, measure, pop-measure}
use ab_b1b34dfe_mgf1_ocsp_bu.Adjudicate.Pushed.{IsChild, push_children-Pushed}

module _ (active : List Entry) where
  -- a chain of issuer candidates up to a trust anchor
  pub data Anchored (anchors : List String) : String → Type 0 where
    root : (fp : String) → In fp (fps_where is_cert active) → In fp anchors → Anchored anchors fp
    link :
        (parent child : String)
        → Anchored anchors parent
        → IsChild active parent child
        → Anchored anchors child

  pushed : (fp : String) (stack reachable : List String) → List String × List String
  pushed fp stack reachable =
      push_children active fp (fps_where (issuer_is (subject_of active fp)) active)
        (stack, reachable)

  -- the children of what is reachable and not on the stack are reachable
  abbrev Closed : List String × List String → Type 0
  Closed p =
      (parent : String)
      → In parent p.1
      → In parent p.0 ⊎ ((child : String) → IsChild active parent child → In child p.1)

  Closed-push :
      (fp : String) (stack reachable : List String)
      → Closed (fp ∷ stack, reachable)
      → Closed (pushed fp stack reachable)
  unfolding pushed
  Closed-push fp stack reachable closed parent m =
      let step =
        push_children-Pushed active fp (fps_where (issuer_is (subject_of active fp)) active) stack
          reachable in
      elim (step.new_stacked parent m) [
        | inr n ↦ inl n
        | inl old ↦ elim (closed parent old) [
          | inl (inl p) ↦ inr (λ child k.
              let k' = subst (λ q. IsChild active q child) p k in step.taken child k'.0 k'.1)
          | inl (inr n) ↦ inl (step.stack_stays parent n)
          | inr all ↦ inr (λ child k. step.reached_stays child (all child k))
        ]
      ]

  -- the loop's result holds what was reachable and is closed
  reach_from-Closed :
      (fuel : ℕ) (p : List String × List String)
      → measure active p ≤ fuel
      → Closed p
      → ((c : String) → In c p.1 → In c (reach_from active fuel p))
        × ((parent child : String)
            → In parent (reach_from active fuel p)
            → IsChild active parent child
            → In child (reach_from active fuel p))
  unfolding reach_from pushed
  reach_from-Closed zero ([], reachable) h closed = (
    λ c m. m,
    λ parent child m k. elim (closed parent m) [ inl n ↦ absurd n | inr all ↦ all child k ],
  )
  reach_from-Closed zero (fp ∷ stack, reachable) h closed = absurd (omega arith)
  reach_from-Closed (suc fuel) ([], reachable) h closed = (
    λ c m. m,
    λ parent child m k. elim (closed parent m) [ inl n ↦ absurd n | inr all ↦ all child k ],
  )
  reach_from-Closed (suc fuel) (fp ∷ stack, reachable) h closed =
      let less = pop-measure active fp stack reachable in
      let step =
        push_children-Pushed active fp (fps_where (issuer_is (subject_of active fp)) active) stack
          reachable in
      let (stays, all) =
        reach_from-Closed fuel
          (push_children active fp (fps_where (issuer_is (subject_of active fp)) active)
            (stack, reachable))
          (omega arith) (Closed-push fp stack reachable closed) in
      (λ c m. stays c (step.reached_stays c m), all)

  module _ (anchors : List String) where
    reach_from-Anchored :
        (fuel : ℕ) (p : List String × List String)
        → ((c : String) → In c p.0 → Anchored anchors c)
        → ((c : String) → In c p.1 → Anchored anchors c)
        → (c : String) → In c (reach_from active fuel p)
        → Anchored anchors c
    unfolding reach_from
    reach_from-Anchored zero (stack, reachable) s r c m = r c m
    reach_from-Anchored (suc fuel) ([], reachable) s r c m = r c m
    reach_from-Anchored (suc fuel) (fp ∷ stack, reachable) s r c m =
        let step =
          push_children-Pushed active fp (fps_where (issuer_is (subject_of active fp)) active) stack
            reachable in
        let reached : (d : String)
            → In d
                (push_children active fp (fps_where (issuer_is (subject_of active fp)) active)
                  (stack, reachable)).1
            → Anchored anchors d =
          λ d n. elim (step.new_child d n) [
            | inl old ↦ r d old
            | inr k ↦ link fp d (s fp (inl refl)) k
          ] in
        reach_from-Anchored fuel
          (push_children active fp (fps_where (issuer_is (subject_of active fp)) active)
            (stack, reachable))
          (λ d n. elim (step.stack_reached d n) [
            | inl old ↦ s d (inr old)
            | inr new_ ↦ reached d new_
          ])
          reached c m

    anchors-take :
        (e : Entry) (es : List Entry)
        → is_cert e.meta && str_mem e.fingerprint anchors ≡ true
        → anchors_in (e ∷ es) anchors ≡ e.fingerprint ∷ anchors_in es anchors
    unfolding anchors_in fps_where
    anchors-take e es h = elim (Bool-cases (is_cert e.meta)) [
      | inl t ↦ rw (t, fps_where) (ground arith)
      | inr t ↦ absurd (ground arith)
    ]

    anchors-skip :
        (e : Entry) (es : List Entry)
        → is_cert e.meta && str_mem e.fingerprint anchors ≡ false
        → anchors_in (e ∷ es) anchors ≡ anchors_in es anchors
    unfolding anchors_in fps_where
    anchors-skip e es h = elim (Bool-cases (is_cert e.meta)) [
      | inl t ↦ rw (t, fps_where) (ground arith)
      | inr t ↦ rw (t, fps_where) refl
    ]

    length-anchors :
        (es : List Entry) (reached : List String)
        → ((c : String) → In c (anchors_in es anchors) → In c reached)
        → length (anchors_in es anchors) + left reached es ≤ length es
    unfolding anchors_in fps_where
    length-anchors [] reached sub = omega arith
    length-anchors (e ∷ es) reached sub =
        elim (Bool-cases (is_cert e.meta && str_mem e.fingerprint anchors)) [
          | inl t ↦
              let take = anchors-take e es t in
              let found : str_mem e.fingerprint reached ≡ true =
                (str_mem_iff e.fingerprint reached).1
                  (sub e.fingerprint (subst (In e.fingerprint) (sym take) (inl refl))) in
              let ih = length-anchors es reached (λ c m. sub c (subst (In c) (sym take) (inr m))) in
              rw (take, found) (omega arith)
          | inr t ↦
              let skip = anchors-skip e es t in
              let ih = length-anchors es reached (λ c m. sub c (subst (In c) (sym skip) m)) in
              rw skip (counted (str_mem e.fingerprint reached) ih)
        ]
      where
        counted :
            (b : Bool)
            → length (anchors_in es anchors) + left reached es ≤ length es
            → length (anchors_in es anchors)
                + (if b then left reached es else suc (left reached es))
              ≤ suc (length es)
        counted true h = omega arith
        counted false h = omega arith

    anchors_in_lem :
        (c : String)
        → In c (anchors_in active anchors) ↔ (In c (fps_where is_cert active) × In c anchors)
    unfolding anchors_in
    anchors_in_lem c = ground (
      arith,
      In-select (λ fp. str_mem fp anchors) c (fps_where is_cert active),
      str_mem_iff c anchors,
    )

    -- The prefilter finds exactly the certificates with a chain of issuer candidates, matched by name
    -- and key identifier, up to a trust anchor that is among the objects.
    pub anchor_reachable_iff :
        (fp : String) → In fp (anchor_reachable active anchors) ↔ Anchored anchors fp
    unfolding anchor_reachable
    anchor_reachable_iff fp =
        (λ m. reach_from-Anchored (suc (length active)) start rooted rooted fp m, complete fp)
      where
        start : List String × List String
        start = (anchors_in active anchors, anchors_in active anchors)

        rooted : (c : String) → In c (anchors_in active anchors) → Anchored anchors c
        rooted c m = let (a, b) = (anchors_in_lem c).0 m in root c a b

        enough :
            length (anchors_in active anchors) + left (anchors_in active anchors) active
            ≤ suc (length active)
        enough = omega (arith, length-anchors active (anchors_in active anchors) (λ c m. m))

        complete :
            (c : String) → Anchored anchors c → In c (reach_from active (suc (length active)) start)
        complete c (root d a b) =
            (reach_from-Closed (suc (length active)) start enough (λ parent m. inl m)).0 c
              ((anchors_in_lem c).1 (a, b))
        complete c (link parent d r k) =
            (reach_from-Closed (suc (length active)) start enough (λ parent m. inl m)).1 parent c
              (complete parent r) k
