-- ===== src/Graph/Budget.antt =====
-- The exploration budget of app/graph.py: how many steps a search can take.
use ab_b1b34dfe_mgf1_ocsp_bu.Prelude.{
  ℕ, zero, suc, ◌+◌, ◌≤◌, ◌<◌, String, List, [], ◌∷◌, true, false, refl, ◌≢◌, inl, inr, arith,
  Option-cases, length, if◌then◌else◌,
}
use ab_b1b34dfe_mgf1_ocsp_bu.Graph.{Explorer, Explored, candidates}
use ab_b1b34dfe_mgf1_ocsp_bu.Graph.Checks.{leaf_prechecks}
use ab_b1b34dfe_mgf1_ocsp_bu.Graph.Search.{
  Outcome, found, nothing, exhausted, out_of_budget, next, set_cutoff, dfs, deepen, proof_of,
  conclude, search,
}
use ab_b1b34dfe_mgf1_ocsp_bu.Graph.Fits.{dfs_cost, Fits, dfs-Fits}

-- the steps of the rounds of iterative deepening from depth `d` on
unfoldable pub deepen_cost : ℕ → ℕ → ℕ → ℕ
deepen_cost b zero d = 0
deepen_cost b (suc rounds) d = dfs_cost b d + deepen_cost b rounds (suc d)

module _ {E : Type 0} (x : Explorer E) (b : ℕ)
    (few : (cur : String) (below : List String) → length (candidates x cur below) ≤ b) where
  deepen-Fits :
      (rounds d : ℕ) (leaf : String) (st : Explored E)
      → Fits x false (deepen_cost b rounds (suc d)) st (deepen x rounds (suc d) leaf st)
  unfolding deepen deepen_cost
  deepen-Fits zero d leaf st room = (λ u. cc, omega arith)
  deepen-Fits (suc rounds) d leaf st room =
      after (dfs x false (suc d) leaf [] (set_cutoff false st))
        (dfs-Fits x false b few d leaf [] (set_cutoff false st) (omega arith))
        (deepen-Fits rounds (suc d) leaf)
    where
      after :
          (r : Outcome × Explored E)
          → (r.0 ≢ exhausted) × (r.1.budget ≤ st.budget + dfs_cost b (suc d))
          → ((st' : Explored E)
              → Fits x false
                  (deepen_cost b rounds (suc (suc d)))
                  st'
                  (deepen x rounds (suc (suc d)) leaf st'))
          → ((next r (λ st'.
                let again = deepen x rounds (suc (suc d)) leaf st' in
                if st'.cutoff then again else (nothing, st'))).0
              ≢ exhausted)
            × ((next r (λ st'.
                  let again = deepen x rounds (suc (suc d)) leaf st' in
                  if st'.cutoff then again else (nothing, st'))).1.budget
                ≤ st.budget + (dfs_cost b (suc d) + deepen_cost b rounds (suc (suc d))))
      after (exhausted, st') h ih = absurd (h.0 refl)
      after (found path, st') h ih = (h.0, omega arith)
      after (nothing, st') h ih = ground (arith, ih st')

  -- the steps of a whole search: the rounds of deepening and the exploration for the proof
  abbrev pub search_cost : ℕ
  search_cost = deepen_cost b x.max_path_len 1 + dfs_cost b x.max_path_len

  dfs-Fits_pos :
      (d : ℕ) (leaf : String) (st : Explored E)
      → 0 < d
      → Fits x true (dfs_cost b d) st (dfs x true d leaf [] st)
  dfs-Fits_pos zero leaf st pos = absurd (omega arith)
  dfs-Fits_pos (suc d) leaf st pos = dfs-Fits x true b few d leaf [] st

  proof_of-ne : (r : Outcome × Explored E) → r.0 ≢ exhausted → (proof_of r).0 ≢ out_of_budget
  proof_of-ne (exhausted, st) h = absurd (h refl)
  proof_of-ne (found path, st) h = λ u. cc
  proof_of-ne (nothing, st) h = λ u. cc

  conclude-ne :
      (leaf : String) (r : Outcome × Explored E)
      → 0 < x.max_path_len
      → r.0 ≢ exhausted
      → r.1.budget + dfs_cost b x.max_path_len ≤ x.max_branches
      → (conclude x leaf r).0 ≢ out_of_budget
  conclude-ne leaf (exhausted, st) pos h room = absurd (h refl)
  conclude-ne leaf (found path, st) pos h room = λ u. cc
  conclude-ne leaf (nothing, st) pos h room =
      let st' = record st { branches = [] } in
      proof_of-ne (dfs x true x.max_path_len leaf [] st')
        (dfs-Fits_pos x.max_path_len leaf st' pos room).0

  -- Where no certificate has more than `b` issuer candidates outside its path, the depth limit is
  -- positive and the budget left is at least `search_cost`, a search does not end with
  -- `ResourceExhausted`.
  pub search-ne-out_of_budget :
      (leaf : String) (st : Explored E)
      → 0 < x.max_path_len
      → st.budget + search_cost ≤ x.max_branches
      → (search x leaf st).0 ≢ out_of_budget
  unfolding search
  search-ne-out_of_budget leaf st pos room =
      elim (Option-cases (leaf_prechecks x (x.get_cert leaf))) [
        | inr (f, e) ↦ rw (e, search) (λ u. cc)
        | inl e ↦
            let st' = record st { touched = leaf ∷ st.touched } in
            let (h, k) = deepen-Fits x.max_path_len 0 leaf st' (omega arith) in
            rw (e, search)
              (conclude-ne leaf (deepen x x.max_path_len 1 leaf st') pos h (omega arith))
      ]
