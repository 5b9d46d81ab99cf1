-- ===== src/Graph/Candidates.antt =====
-- The issuer candidates of app/graph.py: how many a certificate has.
use ab_b1b34dfe_mgf1_ocsp_bu.Prelude.{
  suc, ◌≤◌, String, List, [], ◌∷◌, Bool, not, ◌≡◌, refl, arith, length, str_mem, select, insert_by,
  sort_by, str_le,
}
use ab_b1b34dfe_mgf1_ocsp_bu.Graph.{Explorer, candidates, parents_of, edge_key_matches}

length-select : {A : Type 0} (p : A → Bool) (xs : List A) → length (select p xs) ≤ length xs
length-select p [] = omega arith
length-select p (y ∷ ys) = ground (arith, length-select p ys)

length-insert_by :
    {A : Type 0} (le : A → A → Bool) (y : A) (ys : List A)
    → length (insert_by le y ys) ≡ suc (length ys)
length-insert_by le y [] = refl
length-insert_by le y (z ∷ zs) = ground (arith, length-insert_by le y zs)

length-sort_by : {A : Type 0} (le : A → A → Bool) (xs : List A) → length (sort_by le xs) ≡ length xs
length-sort_by le [] = refl
length-sort_by le (y ∷ ys) =
    omega (arith, length-insert_by le y (sort_by le ys), length-sort_by le ys)

-- a certificate has no more candidates than there are certificates of its issuer's name
pub length-candidates :
    {E : Type 0} (x : Explorer E) (cur : String) (below : List String)
    → length (candidates x cur below) ≤ length (x.by_subject (x.get_cert cur).issuer_hex)
unfolding candidates parents_of
length-candidates x cur below =
    let named = x.by_subject (x.get_cert cur).issuer_hex in
    let linked = select (edge_key_matches x (x.get_cert cur).fingerprint) named in
    omega (
      arith,
      length-select (λ fp. not (str_mem fp (cur ∷ below))) (sort_by str_le linked),
      length-sort_by str_le linked,
      length-select (edge_key_matches x (x.get_cert cur).fingerprint) named,
    )
