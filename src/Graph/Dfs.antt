-- ===== src/Graph/Dfs.antt =====
-- `_dfs` of app/graph.py answers for all routes within its depth.
use ab_b1b34dfe_mgf1_ocsp_bu.Prelude.{
  ℕ, zero, suc, ◌<◌, String, List, [], ◌∷◌, Option, none, some, Bool, refl, inl, inr, arith,
  Bool-cases, str_mem, if◌then◌else◌,
}
use ab_b1b34dfe_mgf1_ocsp_bu.Graph.{Explorer, Explored}
use ab_b1b34dfe_mgf1_ocsp_bu.Graph.Search.{Explore, at_anchor, expand, visit, dfs}
use ab_b1b34dfe_mgf1_ocsp_bu.Graph.Route.{IsRoute}
use ab_b1b34dfe_mgf1_ocsp_bu.Graph.Cache.{IsLawful, IsSound}
use ab_b1b34dfe_mgf1_ocsp_bu.Graph.Answer.{Holds, spend-Holds, at_anchor-Holds, DeeperHolds}
use ab_b1b34dfe_mgf1_ocsp_bu.Graph.Parents.{expand-Holds}

pub visit-Holds :
    {E : Type 0} (x : Explorer E) (Ok : E → Type 0) (answer : String → String → String)
    (recording : Bool)
    → IsLawful x Ok answer
    → (n : ℕ) (deeper : Option (Explore E)) (cur : String) (below : List String) (st : Explored E)
    → DeeperHolds x Ok answer recording n deeper
    → IsSound x Ok st
    → Holds x Ok
        (IsRoute x answer cur below)
        (cur ∷ below)
        (suc n)
        st.cutoff
        (visit x recording deeper cur below st)
unfolding visit
visit-Holds x Ok answer recording law n deeper cur below st d s =
    spend-Holds x Ok (IsRoute x answer cur below) (cur ∷ below) (suc n) st
      (λ st'.
        if str_mem cur x.anchors
        then at_anchor x recording cur below st'
        else expand x recording deeper cur below st')
      s
      λ st' s'. elim (Bool-cases (str_mem cur x.anchors)) [
        | inl anchor ↦
            rw anchor (at_anchor-Holds x Ok answer recording (suc n) cur below st' anchor s')
        | inr not_anchor ↦
            rw not_anchor
              (expand-Holds x Ok answer recording cur below law n deeper st' d not_anchor s')
      ]

-- `_dfs` with a depth of n + 1 answers for the routes of at most n + 1 further certificates.
pub dfs-Holds :
    {E : Type 0} (x : Explorer E) (Ok : E → Type 0) (answer : String → String → String)
    (recording : Bool)
    → IsLawful x Ok answer
    → (n : ℕ) (cur : String) (below : List String) (st : Explored E) → IsSound x Ok st
    → Holds x Ok
        (IsRoute x answer cur below)
        (cur ∷ below)
        (suc n)
        st.cutoff
        (dfs x recording (suc n) cur below st)
unfolding dfs
dfs-Holds x Ok answer recording law zero cur below st s =
    visit-Holds x Ok answer recording law zero none cur below st refl s
dfs-Holds x Ok answer recording law (suc n) cur below st s =
    visit-Holds x Ok answer recording law (suc n) (some (dfs x recording (suc n))) cur below st
      (dfs-Holds x Ok answer recording law n) s

pub dfs-Holds_pos :
    {E : Type 0} (x : Explorer E) (Ok : E → Type 0) (answer : String → String → String)
    (recording : Bool)
    → IsLawful x Ok answer
    → (d : ℕ) → 0 < d
    → (cur : String) (st : Explored E) → IsSound x Ok st
    → Holds x Ok (IsRoute x answer cur []) (cur ∷ []) d st.cutoff (dfs x recording d cur [] st)
dfs-Holds_pos x Ok answer recording law zero h cur st s = absurd (omega arith)
dfs-Holds_pos x Ok answer recording law (suc d) h cur st s =
    dfs-Holds x Ok answer recording law d cur [] st s
