-- ===== src/Graph/Search.antt =====
-- `_spend`, `_dfs` and `search` of app/graph.py. A path is kept as its last certificate `cur` and
-- the ones before it, `below`, the nearest first: `path_fps` is `rev_onto (cur ∷ below) []`. The
-- exception of an exceeded budget is the outcome `exhausted`, which ends the search.
use ab_b1b34dfe_mgf1_ocsp_bu.Prelude.{
  ℕ, zero, suc, ◌+◌, String, List, [], ◌∷◌, ◌++◌, Option, none, some, Bool, true, false, not, ltb,
  if◌then◌else◌, str_mem,
}
use ab_b1b34dfe_mgf1_ocsp_bu.Graph.{Explorer, Failure, Branch, Explored, rev_onto, candidates}
use ab_b1b34dfe_mgf1_ocsp_bu.Graph.Checks.{leaf_prechecks, edge_checks, terminal_checks}

-- what `_dfs` returns or raises: a path, `None`, or `ResourceExhausted`
pub data Outcome : Type 0 where
  found : List String → Outcome
  nothing : Outcome
  exhausted : Outcome

pub data SearchResult : Type 0 where
  path_found : List String → SearchResult
  -- `exploration_complete` and `branches` of the rejection proof
  rejected : Bool → List Branch → SearchResult
  out_of_budget : SearchResult

module _ {E : Type 0} where
  -- go on where the outcome so far is `None`
  abbrev pub next :
      Outcome × Explored E → (Explored E → Outcome × Explored E) → Outcome × Explored E
  next (found path, st) k = (found path, st)
  next (nothing, st) k = k st
  next (exhausted, st) k = (exhausted, st)

  abbrev pub add_branch : Bool → List String → Failure → Explored E → Explored E
  add_branch false path f st = st
  add_branch true path f st = record st {
    branches = st.branches ++ record { path = path; failure = f } ∷ [];
  }

  abbrev pub set_cutoff : Bool → Explored E → Explored E
  set_cutoff b st = record st { cutoff = b }

  -- the rejection proof
  abbrev pub proof_of : Outcome × Explored E → SearchResult × Explored E
  proof_of (exhausted, st) = (out_of_budget, st)
  proof_of (_, st) = (rejected (not st.cutoff) st.branches, st)

-- an exploration from a certificate and the ones before it
abbrev pub Explore : Type 0 → Type 0
Explore E = String → List String → Explored E → Outcome × Explored E

module _ {E : Type 0} (x : Explorer E) where
  open x use {anchors, anchor_reachable, max_branches, max_path_len, get_cert}

  unfoldable pub spend : Explored E → (Explored E → Outcome × Explored E) → Outcome × Explored E
  spend st k =
      let st' = record st { budget = st.budget + 1 } in
      if ltb max_branches (st.budget + 1) then (exhausted, st') else k st'

  module _ (recording : Bool) where
    -- the terminal rules at a trust anchor
    unfoldable pub at_anchor : Explore E
    at_anchor cur below st = elim (terminal_checks x cur (rev_onto (cur ∷ below) [])) [
      | none ↦ (found (rev_onto (cur ∷ below) []), st)
      | some f ↦ (nothing, add_branch recording (rev_onto (cur ∷ below) []) f st)
    ]

    -- Past the rules of the extension with `p`. `deeper` is the recursive call with one level
    -- less, and `none` where `depth_left <= 1`.
    unfoldable pub descend : Option (Explore E) → String → List String → Explore E
    unfolding at_anchor spend
    descend deeper cur below p path st =
        if str_mem p anchors
        then spend st (at_anchor p path)
        else if str_mem p anchor_reachable
        then elim deeper [ none ↦ (nothing, set_cutoff true st) | some go ↦ go p path st ]
        else (
          nothing,
          add_branch recording (rev_onto (p ∷ path) [])
              (record { certificate = p; rule = "NO_TRUSTED_ANCHOR"; code = "NO_TRUSTED_ANCHOR" })
              st,
        )

    abbrev pub after_checks :
        Option (Explore E)
        → String
        → List String
        → String
        → Option Failure × Explored E
        → Outcome × Explored E
    after_checks deeper cur below p (none, st) = descend deeper cur below p (cur ∷ below) st
    after_checks deeper cur below p (some f, st) =
        (nothing, add_branch recording (rev_onto (p ∷ cur ∷ below) []) f st)

    -- the body of the loop for the parent `p`
    unfoldable pub try_parent :
        Option (Explore E) → String → List String → String → Explored E → Outcome × Explored E
    unfolding descend
    try_parent deeper cur below p st = spend st λ st.
        let st' = record st { touched = p ∷ st.touched } in
        after_checks deeper cur below p
          (edge_checks x (get_cert cur) (get_cert p) (rev_onto (cur ∷ below) []) st')

    unfoldable pub try_parents :
        Option (Explore E) → String → List String → List String → Explored E → Outcome × Explored E
    unfolding try_parent
    try_parents deeper cur below [] st = (nothing, st)
    try_parents deeper cur below (p ∷ ps) st =
        next (try_parent deeper cur below p st) (try_parents deeper cur below ps)

    unfoldable pub expand : Option (Explore E) → Explore E
    unfolding try_parents
    expand deeper cur below st = elim (candidates x cur below) [
      | [] ↦ (
        nothing,
        add_branch recording (rev_onto (cur ∷ below) [])
            (record { certificate = cur; rule = "NO_ISSUER"; code = "NO_ISSUER" }) st,
      )
      | p ∷ ps ↦ try_parents deeper cur below (p ∷ ps) st
    ]

    unfoldable pub visit : Option (Explore E) → Explore E
    unfolding spend at_anchor expand
    visit deeper cur below st =
        spend st
          λ st. if str_mem cur anchors then at_anchor cur below st else expand deeper cur below st

    abbrev pub if_deeper : ℕ → Explore E → Option (Explore E)
    if_deeper zero go = none
    if_deeper (suc d) go = some go

    -- `_dfs` with `depth_left`. The loop's call for an anchor, which is made at any depth, is
    -- `spend` and `at_anchor`, and needs no level.
    unfoldable pub dfs : ℕ → Explore E
    unfolding visit
    dfs zero = visit none
    dfs (suc d) = visit (if_deeper d (dfs d))

  -- the loop of iterative deepening, with the rounds left
  unfoldable pub deepen : ℕ → ℕ → String → Explored E → Outcome × Explored E
  unfolding dfs
  deepen zero depth leaf st = (nothing, st)
  deepen (suc rounds) depth leaf st = next (dfs false depth leaf [] (set_cutoff false st)) λ st'.
      let again = deepen rounds (suc depth) leaf st' in if st'.cutoff then again else (nothing, st')

  -- full exploration with proof recording, where no path was found
  abbrev pub conclude : String → Outcome × Explored E → SearchResult × Explored E
  conclude leaf (found path, st) = (path_found path, st)
  conclude leaf (exhausted, st) = (out_of_budget, st)
  conclude leaf (nothing, st) =
      proof_of (dfs true max_path_len leaf [] (record st { branches = [] }))

  unfoldable pub search : String → Explored E → SearchResult × Explored E
  unfolding deepen dfs leaf_prechecks
  search leaf st =
      let st' = record st { touched = leaf ∷ st.touched } in
      elim (leaf_prechecks x (get_cert leaf)) [
        | some f ↦ (rejected true (record { path = leaf ∷ []; failure = f } ∷ []), st')
        | none ↦ conclude leaf (deepen max_path_len 1 leaf st')
      ]
