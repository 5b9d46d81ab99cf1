-- ===== src/Graph/Answer.antt =====
-- What `_dfs` of app/graph.py has to answer, and the cases of one extension of the path.
use ab_b1b34dfe_mgf1_ocsp_bu.Prelude.{
  ℕ, suc, ◌+◌, ◌≤◌, String, List, [], ◌∷◌, Option, none, some, Bool, true, false, ◌≡◌, refl, subst,
  inl, inr, arith, eq_iff, Option-cases, Bool-cases, str_mem, str_le, In, IsSorted, select, sort_by,
  not, select-IsSorted, sort_by-IsSorted, str_le_total, str_le_trans, length, ltb,
}
use ab_b1b34dfe_mgf1_ocsp_bu.Graph.{
  Explorer, Explored, Failure, rev_onto, candidates, parents_of, edge_key_matches,
}
use ab_b1b34dfe_mgf1_ocsp_bu.Graph.Checks.{terminal_checks}
use ab_b1b34dfe_mgf1_ocsp_bu.Graph.Search.{
  Outcome, found, nothing, exhausted, Explore, add_branch, set_cutoff, spend, at_anchor,
}
use ab_b1b34dfe_mgf1_ocsp_bu.Graph.Route.{lex_le, IsStep, IsRoute}
use ab_b1b34dfe_mgf1_ocsp_bu.Graph.Cache.{IsSound}

-- What an exploration has to answer about the routes `R` that continue the path `prefix` (kept back
-- to front) by at most `n` certificates, from a state with the flag `cut`: a path that it returns is
-- the lexicographically smallest of them; if it returns none there is none, and if the depth cut
-- nothing there is none of any length.
module _ {E : Type 0} (x : Explorer E) (Ok : E → Type 0) where
  abbrev pub Holds : (List String → Type 0) → List String → ℕ → Bool → Outcome × Explored E → Type 0
  Holds R prefix n cut (found path, st) =
      IsSound x Ok st
      × (rest : List String) × (path ≡ rev_onto prefix rest)
      × R rest
      × (length rest ≤ n)
      × ((other : List String) → R other → length other ≤ n → lex_le rest other ≡ true)
  Holds R prefix n cut (nothing, st) =
      IsSound x Ok st
      × ((other : List String) → R other → length other ≤ n → ⊥)
      × (st.cutoff ≡ false → (cut ≡ false) × ((other : List String) → R other → ⊥))
  Holds R prefix n cut (exhausted, st) = Unit

  pub spend-Holds :
      (R : List String → Type 0) (prefix : List String) (n : ℕ) (st : Explored E)
      (k : Explored E → Outcome × Explored E)
      → IsSound x Ok st
      → ((st' : Explored E) → IsSound x Ok st' → Holds R prefix n st'.cutoff (k st'))
      → Holds R prefix n st.cutoff (spend x st k)
  unfolding spend
  spend-Holds R prefix n st k s h = elim (Bool-cases (ltb x.max_branches (st.budget + 1))) [
    | inl over ↦ rw over tt
    | inr within ↦
        rw within
          (h (record st { budget = st.budget + 1 }) (record { rev_ok = s.rev_ok; cache = s.cache }))
  ]

module _ {E : Type 0} (x : Explorer E) (Ok : E → Type 0) {R S : List String → Type 0} where
  -- the same answer for the same routes, described otherwise
  pub Holds-map :
      (prefix : List String) (n : ℕ) (cut : Bool) (r : Outcome × Explored E)
      → ((other : List String) → R other → S other)
      → ((other : List String) → S other → R other)
      → Holds x Ok R prefix n cut r
      → Holds x Ok S prefix n cut r
  Holds-map prefix n cut (found path, st) to from (s, rest, e, route, len, low) =
      (s, rest, e, to rest route, len, λ other r l. low other (from other r) l)
  Holds-map prefix n cut (nothing, st) to from (s, bounded, free) = (
    s,
    λ other r l. bounded other (from other r) l,
    λ u. ((free u).0, λ other r. (free u).1 other (from other r)),
  )
  Holds-map prefix n cut (exhausted, st) to from h = tt

-- issuer candidates are tried in ascending order
pub candidates-IsSorted :
    {E : Type 0} (x : Explorer E) (cur : String) (below : List String)
    → IsSorted str_le (candidates x cur below)
unfolding candidates parents_of
candidates-IsSorted x cur below =
    let edges =
      select (edge_key_matches x (x.get_cert cur).fingerprint)
        (x.by_subject (x.get_cert cur).issuer_hex) in
    select-IsSorted str_le (λ fp. not (str_mem fp (cur ∷ below))) (sort_by str_le edges)
      (sort_by-IsSorted str_le str_le_total str_le_trans edges)

module _ {E : Type 0} (x : Explorer E) (Ok : E → Type 0) (answer : String → String → String)
    (recording : Bool) where
  open x use {get_cert, anchors, anchor_reachable}

  pub add_branch-IsSound :
      (path : List String) (f : Failure) (st : Explored E)
      → IsSound x Ok st
      → IsSound x Ok (add_branch recording path f st)
        × ((add_branch recording path f st).cutoff ≡ st.cutoff)
  add_branch-IsSound path f st s = elim (Bool-cases recording) [
    | inl e ↦ rw e (record { rev_ok = s.rev_ok; cache = s.cache }, refl)
    | inr e ↦ rw e (s, refl)
  ]

  pub at_anchor-Holds :
      (n : ℕ) (cur : String) (below : List String) (st : Explored E)
      → str_mem cur anchors ≡ true
      → IsSound x Ok st
      → Holds x Ok
          (IsRoute x answer cur below)
          (cur ∷ below)
          n
          st.cutoff
          (at_anchor x recording cur below st)
  unfolding at_anchor lex_le
  at_anchor-Holds n cur below st anchor s =
      elim (Option-cases (terminal_checks x cur (rev_onto (cur ∷ below) []))) [
        | inl e ↦ rw (e, at_anchor) (s, [], refl, (anchor, e), omega arith, λ other r l. refl)
        | inr (f, e) ↦
            let (s', c) = add_branch-IsSound (rev_onto (cur ∷ below) []) f st s in
            rw (e, at_anchor)
              (s', λ other r l. no_route f e other r, λ u. (ground arith, no_route f e))
      ]
    where
      no_route :
          (f : Failure)
          → terminal_checks x cur (rev_onto (cur ∷ below) []) ≡ some f
          → (other : List String) → IsRoute x answer cur below other
          → ⊥
      no_route f e [] r = cc
      no_route f e (p ∷ rest) r = cc

  -- the routes from `cur` whose first step is one of `ps`
  abbrev pub Through : String → List String → List String → List String → Type 0
  Through cur below ps [] = ⊥
  Through cur below ps (p ∷ rest) =
      In p ps × IsStep x answer cur below p × IsRoute x answer p (cur ∷ below) rest

  -- the recursive call answers within `n`, and is left out only where `n` is 0
  abbrev pub DeeperHolds : ℕ → Option (Explore E) → Type 0
  DeeperHolds n none = n ≡ 0
  DeeperHolds n (some go) =
      (p : String) (path : List String) (st : Explored E)
      → IsSound x Ok st
      → Holds x Ok (IsRoute x answer p path) (p ∷ path) n st.cutoff (go p path st)

  module _ (cur : String) (below : List String) (p : String) where
    -- from the routes of `p` to those of `cur` through `p`
    pub step-Holds :
        (n : ℕ) (cut : Bool) (r : Outcome × Explored E)
        → IsStep x answer cur below p
        → Holds x Ok (IsRoute x answer p (cur ∷ below)) (p ∷ cur ∷ below) n cut r
        → Holds x Ok (Through cur below (p ∷ [])) (cur ∷ below) (suc n) cut r
    unfolding lex_le
    step-Holds n cut (found path, st) step (s, rest, e, route, len, least) =
        (s, p ∷ rest, e, (inl refl, step, route), omega arith, smallest)
      where
        smallest :
            (other : List String)
            → Through cur below (p ∷ []) other
            → length other ≤ suc n
            → lex_le (p ∷ rest) other ≡ true
        smallest [] r l = absurd r
        smallest (q ∷ other) (inl q_p, _, r) l = ground (
          arith,
          eq_iff p q,
          least other (subst (λ v. IsRoute x answer v (cur ∷ below) other) q_p r) (omega arith),
        )
        smallest (q ∷ other) (inr m, _, r) l = absurd m
    step-Holds n cut (nothing, st) step (s, bounded, free) = (
      s,
      λ other r l. none_within other r l,
      λ u. ((free u).0, λ other r. none_at_all (free u).1 other r),
    )
      where
        none_within :
            (other : List String) → Through cur below (p ∷ []) other → length other ≤ suc n → ⊥
        none_within [] r l = r
        none_within (q ∷ other) (inl q_p, _, r) l =
            bounded other (subst (λ v. IsRoute x answer v (cur ∷ below) other) q_p r) (omega arith)
        none_within (q ∷ other) (inr m, _, r) l = m

        none_at_all :
            ((other : List String) → IsRoute x answer p (cur ∷ below) other → ⊥)
            → (other : List String) → Through cur below (p ∷ []) other
            → ⊥
        none_at_all free [] r = r
        none_at_all free (q ∷ other) (inl q_p, _, r) =
            free other (subst (λ v. IsRoute x answer v (cur ∷ below) other) q_p r)
        none_at_all free (q ∷ other) (inr m, _, r) = m
    step-Holds n cut (exhausted, st) step h = tt

    -- a step that no rule admits
    pub no_step-Holds :
        (n : ℕ) (st st' : Explored E)
        → (IsStep x answer cur below p → ⊥)
        → IsSound x Ok st'
        → st'.cutoff ≡ st.cutoff
        → Holds x Ok (Through cur below (p ∷ [])) (cur ∷ below) (suc n) st.cutoff (nothing, st')
    no_step-Holds n st st' not_step s c =
        (s, λ other r l. no_route other r, λ u. (ground arith, no_route))
      where
        no_route : (other : List String) → Through cur below (p ∷ []) other → ⊥
        no_route [] r = r
        no_route (q ∷ other) (inl q_p, step, r) =
            not_step (subst (IsStep x answer cur below) q_p step)
        no_route (q ∷ other) (inr m, step, r) = m

    -- the depth ends below a certificate that is no anchor
    pub cut-Holds :
        (st : Explored E)
        → str_mem p anchors ≡ false
        → IsSound x Ok st
        → Holds x Ok
            (Through cur below (p ∷ []))
            (cur ∷ below)
            1
            st.cutoff
            (nothing, set_cutoff true st)
    cut-Holds st not_anchor s =
        (record { rev_ok = s.rev_ok; cache = s.cache }, no_route, λ u. absurd (ground arith))
      where
        no_route : (other : List String) → Through cur below (p ∷ []) other → length other ≤ 1 → ⊥
        no_route [] r l = r
        no_route (q ∷ []) (inl q_p, step, r) l =
            ground (arith, subst (λ v. str_mem v anchors ≡ true) q_p r.0)
        no_route (q ∷ q' ∷ other) r l = omega arith
        no_route (q ∷ []) (inr m, step, r) l = m
