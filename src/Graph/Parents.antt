-- ===== src/Graph/Parents.antt =====
-- The steps of `_dfs` of app/graph.py from a certificate to its issuer candidates answer for all routes
-- through them.
use ab_b1b34dfe_mgf1_ocsp_bu.Prelude.{
  ℕ, suc, ◌≤◌, String, List, [], ◌∷◌, Option, none, some, Bool, true, false, ◌≡◌, refl, sym, ◌∙◌,
  ◌⊎◌, inl, inr, ⊎_elim, arith, eq_iff, Bool-cases, str_eq, str_mem, str_le, In, IsSorted, length,
}
use ab_b1b34dfe_mgf1_ocsp_bu.Graph.{Explorer, Explored, Failure, rev_onto, candidates}
use ab_b1b34dfe_mgf1_ocsp_bu.Graph.Search.{
  Outcome, found, nothing, exhausted, Explore, next, set_cutoff, at_anchor, descend, after_checks,
  try_parent, try_parents, expand,
}
use ab_b1b34dfe_mgf1_ocsp_bu.Graph.Route.{lex_le, edge_failure, IsRoute}
use ab_b1b34dfe_mgf1_ocsp_bu.Graph.Cache.{IsLawful, IsSound, IsChecked, edge_checks-IsChecked}
use ab_b1b34dfe_mgf1_ocsp_bu.Graph.Answer.{
  Holds, Holds-map, candidates-IsSorted, spend-Holds, add_branch-IsSound, at_anchor-Holds, Through,
  DeeperHolds, step-Holds, no_step-Holds, cut-Holds,
}

module _ {E : Type 0} (x : Explorer E) (Ok : E → Type 0) (answer : String → String → String)
    (recording : Bool) (cur : String) (below : List String) where
  open x use {get_cert, anchors, anchor_reachable}

  abbrev ThroughHolds : List String → ℕ → Bool → Outcome × Explored E → Type 0
  ThroughHolds ps n cut r =
      Holds x Ok (Through x Ok answer recording cur below ps) (cur ∷ below) n cut r

  descend-Holds :
      (n : ℕ) (deeper : Option (Explore E)) (p : String) (st : Explored E)
      → DeeperHolds x Ok answer recording n deeper
      → In p (candidates x cur below)
      → edge_failure x answer cur p (rev_onto (cur ∷ below) []) ≡ none
      → IsSound x Ok st
      → ThroughHolds
          (p ∷ [])
          (suc n)
          st.cutoff
          (descend x recording deeper cur below p (cur ∷ below) st)
  unfolding descend
  descend-Holds n deeper p st d m e s = elim (Bool-cases (str_mem p anchors)) [
    | inl anchor ↦
        rw (anchor, descend)
          (step-Holds x Ok answer recording cur below p n st.cutoff _
            (record { candidate = m; passes = e; leads = ground arith })
            (spend-Holds x Ok (IsRoute x answer p (cur ∷ below)) (p ∷ cur ∷ below) n st
              (at_anchor x recording p (cur ∷ below)) s
              (λ st' s'. at_anchor-Holds x Ok answer recording n p (cur ∷ below) st' anchor s')))
    | inr not_anchor ↦ elim (Bool-cases (str_mem p anchor_reachable)) [
      | inl reach ↦ rw (not_anchor, reach, descend) (go_deeper deeper d not_anchor reach)
      | inr unreached ↦
          let (s', c) =
            add_branch-IsSound x Ok answer recording (rev_onto (p ∷ cur ∷ below) []) _ st s in
          rw (not_anchor, unreached, descend)
            (no_step-Holds x Ok answer recording cur below p n st _
              (λ step. ground (arith, step.leads)) s' c)
    ]
  ]
    where
      go_deeper :
          (deeper : Option (Explore E))
          → DeeperHolds x Ok answer recording n deeper
          → str_mem p anchors ≡ false
          → str_mem p anchor_reachable ≡ true
          → ThroughHolds (p ∷ []) (suc n) st.cutoff (elim deeper [
            | none ↦ (nothing, set_cutoff true st)
            | some go ↦ go p (cur ∷ below) st
          ])
      go_deeper none d not_anchor reach =
          rw d (cut-Holds x Ok answer recording cur below p st not_anchor s)
      go_deeper (some go) d not_anchor reach =
          step-Holds x Ok answer recording cur below p n st.cutoff _
            (record { candidate = m; passes = e; leads = ground arith }) (d p (cur ∷ below) st s)

  module _ (law : IsLawful x Ok answer) where
    try_parent-Holds :
        (n : ℕ) (deeper : Option (Explore E)) (p : String) (st : Explored E)
        → DeeperHolds x Ok answer recording n deeper
        → In p (candidates x cur below)
        → IsSound x Ok st
        → ThroughHolds (p ∷ []) (suc n) st.cutoff (try_parent x recording deeper cur below p st)
    unfolding try_parent
    try_parent-Holds n deeper p st d m s =
        spend-Holds x Ok (Through x Ok answer recording cur below (p ∷ [])) (cur ∷ below) (suc n) st
          _ s
          λ st₁ s₁.
            let st₂ = record st₁ { touched = p ∷ st₁.touched } in
            after st₂ _ (
              edge_checks-IsChecked x Ok answer law cur p (rev_onto (cur ∷ below) []) st₂
                (record { rev_ok = s₁.rev_ok; cache = s₁.cache }))
      where
        after :
            (st : Explored E) (r : Option Failure × Explored E)
            → IsChecked x Ok (edge_failure x answer cur p (rev_onto (cur ∷ below) [])) st r
            → ThroughHolds
                (p ∷ [])
                (suc n)
                st.cutoff
                (after_checks x recording deeper cur below p r)
        after st (none, st') c =
            rw (← c.cutoff_kept) (descend-Holds n deeper p st' d m (sym c.agrees) c.sound)
        after st (some f, st') c =
            let (s', kept) =
              add_branch-IsSound x Ok answer recording (rev_onto (p ∷ cur ∷ below) []) f st'
                c.sound in
            no_step-Holds x Ok answer recording cur below p n st _
              (λ step. cc (c.agrees, step.passes)) s' (kept ∙ c.cutoff_kept)

    -- the routes through the first parent, and then those through the others
    next-Holds :
        (n : ℕ) (cut : Bool) (p : String) (ps : List String) (r : Outcome × Explored E)
        (k : Explored E → Outcome × Explored E)
        → ((q : String) → In q ps → str_le p q ≡ true)
        → ThroughHolds (p ∷ []) n cut r
        → ((st : Explored E) → IsSound x Ok st → ThroughHolds ps n st.cutoff (k st))
        → ThroughHolds (p ∷ ps) n cut (next r k)
    unfolding lex_le
    next-Holds n cut p ps (exhausted, st) k least h later = tt
    next-Holds n cut p ps (found path, st) k least (s, [], e, route, len, low) later = absurd route
    next-Holds n cut p ps (found path, st) k least (s, p' ∷ rest, e, (inr m, _, _), len, low)
          later =
        absurd m
    next-Holds n cut p ps (found path, st) k least
          (s, p' ∷ rest, e, (inl p'_p, step, route), len, low) later =
        (s, p' ∷ rest, e, (inl p'_p, step, route), len, smallest)
      where
        smallest :
            (other : List String)
            → Through x Ok answer recording cur below (p ∷ ps) other
            → length other ≤ n
            → lex_le (p' ∷ rest) other ≡ true
        smallest [] r l = absurd r
        smallest (q ∷ other) (inl q_p, step', r) l = low (q ∷ other) (inl q_p, step', r) l
        smallest (q ∷ other) (inr m, step', r) l = elim (Bool-cases (str_eq p' q)) [
          | inl same ↦ low (q ∷ other) (inl (sym ((eq_iff p' q).0 same) ∙ p'_p), step', r) l
          | inr differ ↦ rw differ (rw p'_p (least q m))
        ]
    next-Holds n cut p ps (nothing, st) k least (s, bounded, free) later = after (k st) (later st s)
      where
        split :
            (other : List String)
            → Through x Ok answer recording cur below (p ∷ ps) other
            → Through x Ok answer recording cur below (p ∷ []) other
              ⊎ Through x Ok answer recording cur below ps other
        split [] r = absurd r
        split (q ∷ other) (inl e, step, r) = inl (inl e, step, r)
        split (q ∷ other) (inr m, step, r) = inr (m, step, r)

        join :
            (other : List String)
            → Through x Ok answer recording cur below ps other
            → Through x Ok answer recording cur below (p ∷ ps) other
        join [] r = r
        join (q ∷ other) (m, step, r) = (inr m, step, r)

        after :
            (r : Outcome × Explored E)
            → ThroughHolds ps n st.cutoff r
            → ThroughHolds (p ∷ ps) n cut r
        after (exhausted, st') h = tt
        after (found path, st') (s', rest, e, route, len, low) = (
          s',
          rest,
          e,
          join rest route,
          len,
          λ other r l.
              ⊎_elim (λ here. absurd (bounded other here l)) (λ there. low other there l)
                (split other r),
        )
        after (nothing, st') (s', bounded', free') = (
          s',
          λ other r l.
              ⊎_elim (λ here. bounded other here l) (λ there. bounded' other there l)
                (split other r),
          λ u.
              let (u', none') = free' u in
              let (u'', none'') = free u' in
              (u'', λ other r. ⊎_elim (none'' other) (none' other) (split other r)),
        )

    try_parents-Holds :
        (n : ℕ) (deeper : Option (Explore E)) (ps : List String) (st : Explored E)
        → DeeperHolds x Ok answer recording n deeper
        → ((p : String) → In p ps → In p (candidates x cur below))
        → IsSorted str_le ps
        → IsSound x Ok st
        → ThroughHolds ps (suc n) st.cutoff (try_parents x recording deeper cur below ps st)
    unfolding try_parents
    try_parents-Holds n deeper [] st d m sorted s = (s, λ other r l. none other r, λ u. (u, none))
      where
        none : (other : List String) → Through x Ok answer recording cur below [] other → ⊥
        none [] r = r
        none (q ∷ other) r = r.0
    try_parents-Holds n deeper (p ∷ ps) st d m sorted s =
        next-Holds (suc n) st.cutoff p ps _ _ sorted.0
          (try_parent-Holds n deeper p st d (m p (inl refl)) s)
          (λ st' s'. try_parents-Holds n deeper ps st' d (λ q i. m q (inr i)) sorted.1 s')

    pub expand-Holds :
        (n : ℕ) (deeper : Option (Explore E)) (st : Explored E)
        → DeeperHolds x Ok answer recording n deeper
        → str_mem cur anchors ≡ false
        → IsSound x Ok st
        → Holds x Ok
            (IsRoute x answer cur below)
            (cur ∷ below)
            (suc n)
            st.cutoff
            (expand x recording deeper cur below st)
    unfolding expand
    expand-Holds n deeper st d not_anchor s = by_candidates (candidates x cur below) refl
      where
        to_route :
            (ps other : List String)
            → Through x Ok answer recording cur below ps other
            → IsRoute x answer cur below other
        to_route ps [] r = absurd r
        to_route ps (q ∷ other) (m, step, r) = (not_anchor, step, r)

        from_route :
            (ps other : List String)
            → candidates x cur below ≡ ps
            → IsRoute x answer cur below other
            → Through x Ok answer recording cur below ps other
        from_route ps [] e r = absurd (ground arith)
        from_route ps (q ∷ other) e (a, step, r) = (rw e at step.candidate, step, r)

        no_route :
            candidates x cur below ≡ []
            → (other : List String) → IsRoute x answer cur below other
            → ⊥
        no_route e [] r = ground arith
        no_route e (q ∷ other) (a, step, r) = rw e at step.candidate

        by_candidates :
            (ps : List String)
            → candidates x cur below ≡ ps
            → Holds x Ok
                (IsRoute x answer cur below)
                (cur ∷ below)
                (suc n)
                st.cutoff
                (expand x recording deeper cur below st)
        by_candidates [] e =
            let (s', kept) =
              add_branch-IsSound x Ok answer recording (rev_onto (cur ∷ below) []) _ st s in
            rw (e, expand) (s', λ other r l. no_route e other r, λ u. (sym kept ∙ u, no_route e))
        by_candidates (p ∷ ps) e =
            rw (e, expand)
              (Holds-map x Ok (cur ∷ below) (suc n) st.cutoff _ (to_route (p ∷ ps))
                (λ other r. from_route (p ∷ ps) other e r)
                (try_parents-Holds n deeper (p ∷ ps) st d (λ q m. rw e m)
                  (rw e at (candidates-IsSorted x cur below)) s))
