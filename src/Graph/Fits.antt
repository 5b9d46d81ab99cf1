-- ===== src/Graph/Fits.antt =====
-- An exploration of app/graph.py takes no more steps than its depth and the number of candidates allow.
use ab_b1b34dfe_mgf1_ocsp_bu.Prelude.{
  ℕ, zero, suc, ◌+◌, ◌*◌, ◌≤◌, String, List, [], ◌∷◌, Option, none, some, Bool, ◌≡◌, refl, ap, ◌≢◌,
  inl, inr, arith, Bool-cases, length, str_mem, if◌then◌else◌, ltb,
}
use ab_b1b34dfe_mgf1_ocsp_bu.Graph.{Explorer, Explored, Failure, rev_onto, candidates}
use ab_b1b34dfe_mgf1_ocsp_bu.Cert.{CertInfo}
use ab_b1b34dfe_mgf1_ocsp_bu.Graph.Checks.{edge_checks}
use ab_b1b34dfe_mgf1_ocsp_bu.Graph.Search.{
  Outcome, found, nothing, exhausted, Explore, next, add_branch, spend, at_anchor, descend,
  after_checks, try_parent, try_parents, expand, visit, dfs,
}

-- The steps of an exploration of depth `d` where no certificate has more than `b` candidates.
unfoldable pub dfs_cost : ℕ → ℕ → ℕ
dfs_cost b zero = 1
dfs_cost b (suc d) = 1 + b * (1 + dfs_cost b d)

module _ {E : Type 0} (x : Explorer E) (recording : Bool) where
  -- an exploration of at most `m` steps does not end for want of budget, where `m` are left
  abbrev pub Fits : ℕ → Explored E → Outcome × Explored E → Type 0
  Fits m st r = st.budget + m ≤ x.max_branches → (r.0 ≢ exhausted) × (r.1.budget ≤ st.budget + m)

  spend-Fits :
      (m : ℕ) (st : Explored E) (k : Explored E → Outcome × Explored E)
      → ((st' : Explored E) → Fits m st' (k st'))
      → Fits (1 + m) st (spend x st k)
  unfolding spend
  spend-Fits m st k h room = elim (Bool-cases (ltb x.max_branches (st.budget + 1))) [
    | inl over ↦ absurd (ground arith)
    | inr within ↦
        rw within
          (let (a, b) = h (record st { budget = st.budget + 1 }) (omega arith) in (a, omega arith))
  ]

  add_branch-budget :
      (path : List String) (f : Failure) (st : Explored E)
      → (add_branch recording path f st).budget ≡ st.budget
  add_branch-budget path f st = ground arith

  at_anchor-Fits :
      (cur : String) (below : List String) (st : Explored E)
      → Fits 0 st (at_anchor x recording cur below st)
  unfolding at_anchor
  at_anchor-Fits cur below st room = ground arith

  edge_checks-budget :
      (c d : CertInfo) (path : List String) (st : Explored E)
      → (edge_checks x c d path st).1.budget ≡ st.budget
  unfolding edge_checks
  edge_checks-budget c d path st = ground arith

  abbrev DeeperFits : ℕ → Option (Explore E) → Type 0
  DeeperFits m none = Unit
  DeeperFits m (some go) =
      (p : String) (path : List String) (st : Explored E) → Fits m st (go p path st)

  descend-Fits :
      (m : ℕ) (deeper : Option (Explore E)) (cur : String) (below : List String) (p : String)
      (path : List String) (st : Explored E)
      → 1 ≤ m
      → DeeperFits m deeper
      → Fits m st (descend x recording deeper cur below p path st)
  unfolding descend
  descend-Fits m none cur below p path st pos d room =
      ground (arith, spend-Fits 0 st (at_anchor x recording p path) (at_anchor-Fits p path))
  descend-Fits m (some go) cur below p path st pos d room =
      ground
        (arith, spend-Fits 0 st (at_anchor x recording p path) (at_anchor-Fits p path), d p path st)

  try_parent-Fits :
      (m : ℕ) (deeper : Option (Explore E)) (cur : String) (below : List String) (p : String)
      (st : Explored E)
      → 1 ≤ m
      → DeeperFits m deeper
      → Fits (1 + m) st (try_parent x recording deeper cur below p st)
  unfolding try_parent
  try_parent-Fits m deeper cur below p st pos d =
      spend-Fits m st
        (λ st'. after_checks x recording deeper cur below p (
          edge_checks x (x.get_cert cur) (x.get_cert p) (rev_onto (cur ∷ below) [])
            (record st' { touched = p ∷ st'.touched })))
        λ st'.
          let st'' = record st' { touched = p ∷ st'.touched } in
          after st'' _
            (edge_checks-budget (x.get_cert cur) (x.get_cert p) (rev_onto (cur ∷ below) []) st'')
    where
      after :
          (st : Explored E) (r : Option Failure × Explored E)
          → r.1.budget ≡ st.budget
          → Fits m st (after_checks x recording deeper cur below p r)
      after st (none, st') e room =
          let (a, b) = descend-Fits m deeper cur below p (cur ∷ below) st' pos d (omega arith) in
          (a, omega arith)
      after st (some f, st') e room = ground arith

  try_parents-Fits :
      (m : ℕ) (deeper : Option (Explore E)) (cur : String) (below ps : List String)
      (st : Explored E)
      → 1 ≤ m
      → DeeperFits m deeper
      → Fits (length ps * (1 + m)) st (try_parents x recording deeper cur below ps st)
  unfolding try_parents
  try_parents-Fits m deeper cur below [] st pos d room = ground arith
  try_parents-Fits m deeper cur below (p ∷ ps) st pos d room =
      after _ (try_parent-Fits m deeper cur below p st pos d (omega arith))
        (λ st'. try_parents-Fits m deeper cur below ps st' pos d)
    where
      after :
          (r : Outcome × Explored E)
          → (r.0 ≢ exhausted) × (r.1.budget ≤ st.budget + (1 + m))
          → ((st' : Explored E)
              → Fits (length ps * (1 + m)) st' (try_parents x recording deeper cur below ps st'))
          → ((next r (try_parents x recording deeper cur below ps)).0 ≢ exhausted)
            × ((next r (try_parents x recording deeper cur below ps)).1.budget
                ≤ st.budget + suc (length ps) * (1 + m))
      after (exhausted, st') h ih = absurd (h.0 refl)
      after (found path, st') h ih = (h.0, omega arith)
      after (nothing, st') h ih = let (a, b) = ih st' (omega arith) in (a, omega arith)

  module _ (b : ℕ)
      (few : (cur : String) (below : List String) → length (candidates x cur below) ≤ b) where
    expand-Fits :
        (m : ℕ) (deeper : Option (Explore E)) (cur : String) (below : List String) (st : Explored E)
        → 1 ≤ m
        → DeeperFits m deeper
        → Fits (b * (1 + m)) st (expand x recording deeper cur below st)
    unfolding expand
    expand-Fits m deeper cur below st pos d room =
        by_candidates (candidates x cur below) refl (few cur below)
      where
        by_candidates :
            (ps : List String)
            → candidates x cur below ≡ ps
            → length (candidates x cur below) ≤ b
            → ((expand x recording deeper cur below st).0 ≢ exhausted)
              × ((expand x recording deeper cur below st).1.budget ≤ st.budget + b * (1 + m))
        by_candidates [] e l =
            rw (e, expand)
              (λ u. cc, ground (arith, add_branch-budget (rev_onto (cur ∷ below) []) _ st))
        by_candidates (p ∷ ps) e l =
            let within : length (p ∷ ps) * (1 + m) ≤ b * (1 + m) = grind (arith, ap length e) in
            rw (e, expand)
              (let (a, c) = try_parents-Fits m deeper cur below (p ∷ ps) st pos d (omega arith) in
                (a, omega arith))

    visit-Fits :
        (m : ℕ) (deeper : Option (Explore E)) (cur : String) (below : List String) (st : Explored E)
        → 1 ≤ m
        → DeeperFits m deeper
        → Fits (1 + b * (1 + m)) st (visit x recording deeper cur below st)
    unfolding visit
    visit-Fits m deeper cur below st pos d =
        spend-Fits (b * (1 + m)) st
          (λ st'.
            if str_mem cur x.anchors
            then at_anchor x recording cur below st'
            else expand x recording deeper cur below st')
          λ st' room.
            ground (arith, at_anchor-Fits cur below st', expand-Fits m deeper cur below st' pos d)

    cost-pos : (d : ℕ) → 1 ≤ dfs_cost b d
    unfolding dfs_cost
    cost-pos zero = omega arith
    cost-pos (suc d) = omega arith

    pub dfs-Fits :
        (d : ℕ) (cur : String) (below : List String) (st : Explored E)
        → Fits (dfs_cost b (suc d)) st (dfs x recording (suc d) cur below st)
    unfolding dfs dfs_cost
    dfs-Fits zero cur below st = visit-Fits 1 none cur below st (omega arith) tt
    dfs-Fits (suc d) cur below st =
        visit-Fits (dfs_cost b (suc d)) (some (dfs x recording (suc d))) cur below st
          (cost-pos (suc d)) (dfs-Fits d)
