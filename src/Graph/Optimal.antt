-- ===== src/Graph/Optimal.antt =====
-- `search` of app/graph.py: iterative deepening returns the best route, or there is none.
use ab_b1b34dfe_mgf1_ocsp_bu.Prelude.{
  ℕ, zero, suc, ◌+◌, ◌≤◌, ◌<◌, String, List, [], ◌∷◌, none, Bool, true, false, ◌≡◌, refl, inl, inr,
  arith, Option-cases, Bool-cases, length, leb, leb→le, if◌then◌else◌,
}
use ab_b1b34dfe_mgf1_ocsp_bu.Graph.{Explorer, Explored}
use ab_b1b34dfe_mgf1_ocsp_bu.Graph.Checks.{leaf_prechecks}
use ab_b1b34dfe_mgf1_ocsp_bu.Graph.Search.{
  Outcome, found, nothing, exhausted, SearchResult, path_found, rejected, out_of_budget, next,
  set_cutoff, dfs, deepen, proof_of, conclude, search,
}
use ab_b1b34dfe_mgf1_ocsp_bu.Graph.Route.{lex_le, IsRoute}
use ab_b1b34dfe_mgf1_ocsp_bu.Graph.Cache.{IsLawful, IsSound}
use ab_b1b34dfe_mgf1_ocsp_bu.Graph.Answer.{Holds}
use ab_b1b34dfe_mgf1_ocsp_bu.Graph.Dfs.{dfs-Holds, dfs-Holds_pos}

module _ {E : Type 0} (x : Explorer E) (answer : String → String → String) (leaf : String) where
  -- a continuation of the path from the leaf on which every rule holds, those of the leaf included
  abbrev pub IsAccepted : List String → Type 0
  IsAccepted rest = (leaf_prechecks x (x.get_cert leaf) ≡ none) × IsRoute x answer leaf [] rest

  -- no other route has fewer certificates, and none of as many comes before it
  abbrev pub IsBest : List String → Type 0
  IsBest rest =
      (other : List String)
      → IsRoute x answer leaf [] other
      → (length rest ≤ length other) × (length other ≡ length rest → lex_le rest other ≡ true)

  -- a certificate has only the empty route, or none that is empty
  routes_alike :
      (rest other : List String)
      → IsRoute x answer leaf [] rest
      → IsRoute x answer leaf [] other
      → other ≡ []
      → rest ≡ []
  routes_alike [] other r o e = refl
  routes_alike (p ∷ rest) [] r o e = ground arith
  routes_alike (p ∷ rest) (q ∷ other) r o e = cc

  module _ (Ok : E → Type 0) where
    abbrev Deepened : ℕ → Outcome × Explored E → Type 0
    Deepened n (found path, st) =
        IsSound x Ok st
        × (rest : List String) × (path ≡ leaf ∷ rest)
        × IsRoute x answer leaf [] rest
        × (length rest ≤ n)
        × IsBest rest
    Deepened n (nothing, st) =
        IsSound x Ok st
        × ((other : List String) → IsRoute x answer leaf [] other → length other ≤ n → n ≡ 0)
        × (st.cutoff ≡ false → (other : List String) → IsRoute x answer leaf [] other → ⊥)
    Deepened n (exhausted, st) = Unit

    Deepened-mono : (m n : ℕ) (r : Outcome × Explored E) → m ≡ n → Deepened m r → Deepened n r
    Deepened-mono m n r e h = rw (← e) h

    module _ (law : IsLawful x Ok answer) where
      deepen-Deepened :
          (rounds n : ℕ) (st : Explored E)
          → IsSound x Ok st
          → ((other : List String)
              → IsRoute x answer leaf [] other
              → length other ≤ n
              → (n ≡ 0) × (other ≡ []))
          → (rounds ≡ 0 → st.cutoff ≡ true)
          → Deepened (n + rounds) (deepen x rounds (suc n) leaf st)
      unfolding deepen
      deepen-Deepened zero n st s small cut = (
        s,
        λ other r l. omega (arith, small other r (omega arith)),
        λ u. ground (arith, cut refl),
      )
      deepen-Deepened (suc rounds) n st s small cut = after _ (deepen-Deepened rounds (suc n)) (
          dfs-Holds x Ok answer false law n leaf [] (set_cutoff false st)
            (record { rev_ok = s.rev_ok; cache = s.cache }))
        where
          shortest :
              (rest other : List String)
              → IsRoute x answer leaf [] rest
              → length rest ≤ suc n
              → IsRoute x answer leaf [] other
              → length rest ≤ length other
          shortest rest other r len o = elim (Bool-cases (leb (length other) n)) [
            | inl short ↦
                let (_, e) = small other o (leb→le _ _ short) in
                rw (routes_alike rest other r o e, e) (omega arith)
            | inr long ↦ ground arith
          ]

          after :
              (r : Outcome × Explored E)
              → ((st' : Explored E)
                  → IsSound x Ok st'
                  → ((other : List String)
                      → IsRoute x answer leaf [] other
                      → length other ≤ suc n
                      → (suc n ≡ 0) × (other ≡ []))
                  → (rounds ≡ 0 → st'.cutoff ≡ true)
                  → Deepened (suc n + rounds) (deepen x rounds (suc (suc n)) leaf st'))
              → Holds x Ok (IsRoute x answer leaf []) (leaf ∷ []) (suc n) false r
              → Deepened (n + suc rounds) (
                  next r λ st'.
                    let again = deepen x rounds (suc (suc n)) leaf st' in
                    if st'.cutoff then again else (nothing, st'))
          after (exhausted, st') ih h = tt
          after (found path, st') ih (s', rest, e, r, len, low) = (
            s',
            rest,
            e,
            r,
            omega arith,
            λ other o. (shortest rest other r len o, λ same. low other o (omega arith)),
          )
          after (nothing, st') ih (s', bounded, free) = elim (Bool-cases st'.cutoff) [
            | inl more ↦ simp more (
                Deepened-mono (suc n + rounds) (n + suc rounds) _ (omega arith)
                  (ih st' s' (λ other o l. absurd (bounded other o l)) (λ z. more)))
            | inr done ↦ simp done (
              s',
              λ other o l. absurd ((free done).1 other o),
              λ u other o. (free done).1 other o,
            )
          ]

length-zero : (xs : List String) → length xs ≤ 0 → xs ≡ []
length-zero [] h = refl
length-zero (x ∷ xs) h = absurd (omega arith)

-- What `search` has to answer: an accepted route within the depth that is the best one, or a
-- rejection, which is right for all routes within the depth, and for all routes where it says that
-- the exploration was complete.
module _ {E : Type 0} (x : Explorer E) (answer : String → String → String) (leaf : String) where
  abbrev pub Answered : SearchResult → Type 0
  Answered (path_found path) =
      (rest : List String) × (path ≡ leaf ∷ rest)
      × IsAccepted x answer leaf rest
      × (length rest ≤ x.max_path_len)
      × IsBest x answer leaf rest
  Answered (rejected complete branches) =
      ((other : List String) → IsAccepted x answer leaf other → length other ≤ x.max_path_len → ⊥)
      × (complete ≡ true → (other : List String) → IsAccepted x answer leaf other → ⊥)
  Answered out_of_budget = Unit

  module _ (Ok : E → Type 0) (law : IsLawful x Ok answer) (positive : 0 < x.max_path_len) where
    proof-Answered :
        (cut : Bool) (r : Outcome × Explored E)
        → ((other : List String)
            → IsRoute x answer leaf [] other
            → length other ≤ x.max_path_len
            → ⊥)
        → Holds x Ok (IsRoute x answer leaf []) (leaf ∷ []) x.max_path_len cut r
        → Answered (proof_of r).0
    proof-Answered cut (exhausted, st) no_route h = tt
    proof-Answered cut (found path, st) no_route (s, rest, e, r, len, low) =
        absurd (no_route rest r len)
    proof-Answered cut (nothing, st) no_route (s, bounded, free) =
        (λ other a. no_route other a.1, λ u other a. (free (ground arith)).1 other a.1)

    conclude-Answered :
        (r : Outcome × Explored E)
        → leaf_prechecks x (x.get_cert leaf) ≡ none
        → Deepened x answer leaf Ok x.max_path_len r
        → Answered (conclude x leaf r).0
    conclude-Answered (exhausted, st) e h = tt
    conclude-Answered (found path, st) e (s, rest, p, r, len, best) = (rest, p, (e, r), len, best)
    conclude-Answered (nothing, st) e (s, within, free) =
        let st' = record st { branches = [] } in
        proof-Answered st.cutoff (dfs x true x.max_path_len leaf [] st')
          (λ other r l. omega (arith, within other r l))
          (dfs-Holds_pos x Ok answer true law x.max_path_len positive leaf st'
            (record { rev_ok = s.rev_ok; cache = s.cache }))

    -- With a lawful evaluator and a positive depth limit, from any sound state: a path that `search`
    -- returns is the leaf followed by an accepted route of at most `max_path_len` certificates; no
    -- other route from the leaf has fewer certificates, and none of as many precedes it
    -- lexicographically. If `search` rejects, there is no accepted route of at most `max_path_len`
    -- certificates, and none of any length where the proof says that the exploration was complete.
    pub search-Answered : (st : Explored E) → IsSound x Ok st → Answered (search x leaf st).0
    unfolding search
    search-Answered st s = elim (Option-cases (leaf_prechecks x (x.get_cert leaf))) [
      | inr (f, e) ↦ rw (e, search) (λ other a l. cc (a.0, e), λ u other a. cc (a.0, e))
      | inl e ↦
          let st' = record st { touched = leaf ∷ st.touched } in
          rw (e, search)
            (conclude-Answered (deepen x x.max_path_len 1 leaf st') e (
              Deepened-mono x answer leaf Ok (0 + x.max_path_len) x.max_path_len _ (omega arith) (
                deepen-Deepened x answer leaf Ok law x.max_path_len 0 st'
                  (record { rev_ok = s.rev_ok; cache = s.cache })
                  (λ other r l. (refl, length-zero other l)) (λ z. absurd (omega arith)))))
    ]
