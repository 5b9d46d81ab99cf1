-- ===== src/Adjudicate/Pushed.antt =====
-- The push of children in `_compute_anchor_reachable` of app/graph.py.
use ab_b1b34dfe_mgf1_ocsp_bu.Prelude.{
  String, List, [], ◌∷◌, true, false, str_mem_iff, In, Bool-cases, ◌≡◌, sym, subst, inl, inr, ◌⊎◌,
  arith,
}
use ab_b1b34dfe_mgf1_ocsp_bu.Adjudicate.{
  Entry, fps_where, issuer_is, subject_of, key_matches, push_children,
}
use ab_b1b34dfe_mgf1_ocsp_bu.Adjudicate.Reachable.{takes, push-skip, push-take}

module _ (active : List Entry) where
  -- a certificate among the issuer candidates of which is `parent`
  abbrev pub IsChild : String → String → Type 0
  IsChild parent child =
      In child (fps_where (issuer_is (subject_of active parent)) active)
      × (key_matches active child parent ≡ true)

  -- what a push of children does
  pub record Pushed (parent : String) (children : List String) (p q : List String × List String)
      : Type 0 where
    pub stack_stays : (c : String) → In c p.0 → In c q.0
    pub reached_stays : (c : String) → In c p.1 → In c q.1
    pub taken : (c : String) → In c children → key_matches active c parent ≡ true → In c q.1
    pub new_stacked : (c : String) → In c q.1 → In c p.1 ⊎ In c q.0
    pub stack_reached : (c : String) → In c q.0 → In c p.0 ⊎ In c q.1
    pub new_child :
        (c : String) → In c q.1 → In c p.1 ⊎ (In c children × (key_matches active c parent ≡ true))

  skipped :
      (parent child : String) (reachable : List String)
      → takes active parent child reachable ≡ false
      → key_matches active child parent ≡ true
      → In child reachable
  skipped parent child reachable e k = (str_mem_iff child reachable).0 (ground arith)

  taking :
      (parent child : String) (reachable : List String)
      → takes active parent child reachable ≡ true
      → key_matches active child parent ≡ true
  taking parent child reachable e = ground arith

  pub push_children-Pushed :
      (parent : String) (children stack reachable : List String)
      → Pushed parent children
          (stack, reachable)
          (push_children active parent children (stack, reachable))
  unfolding push_children
  push_children-Pushed parent [] stack reachable = record {
    stack_stays = λ c m. m;
    reached_stays = λ c m. m;
    taken = λ c m k. absurd m;
    new_stacked = λ c m. inl m;
    stack_reached = λ c m. inl m;
    new_child = λ c m. inl m;
  }
  push_children-Pushed parent (child ∷ children) stack reachable =
      elim (Bool-cases (takes active parent child reachable)) [
        | inr e ↦
            let ih = push_children-Pushed parent children stack reachable in
            subst (Pushed parent (child ∷ children) (stack, reachable))
              (sym (push-skip active parent child children stack reachable e))
              (record {
                stack_stays = ih.stack_stays;
                reached_stays = ih.reached_stays;
                taken = λ c m k. elim m [
                  | inl p ↦ ih.reached_stays c (
                      subst (λ d. In d reachable) (sym p)
                        (skipped parent child reachable e
                          (subst (λ d. key_matches active d parent ≡ true) p k)))
                  | inr n ↦ ih.taken c n k
                ];
                new_stacked = ih.new_stacked;
                stack_reached = ih.stack_reached;
                new_child =
                    λ c m. elim (ih.new_child c m) [ inl n ↦ inl n | inr (n, k) ↦ inr (inr n, k) ];
              })
        | inl e ↦
            let ih = push_children-Pushed parent children (child ∷ stack) (child ∷ reachable) in
            subst (Pushed parent (child ∷ children) (stack, reachable))
              (sym (push-take active parent child children stack reachable e))
              (record {
                stack_stays = λ c m. ih.stack_stays c (inr m);
                reached_stays = λ c m. ih.reached_stays c (inr m);
                taken =
                    λ c m k. elim m [ inl p ↦ ih.reached_stays c (inl p) | inr n ↦ ih.taken c n k ];
                new_stacked = λ c m. elim (ih.new_stacked c m) [
                  | inl (inl p) ↦ inr (ih.stack_stays c (inl p))
                  | inl (inr n) ↦ inl n
                  | inr n ↦ inr n
                ];
                stack_reached = λ c m. elim (ih.stack_reached c m) [
                  | inl (inl p) ↦ inr (ih.reached_stays c (inl p))
                  | inl (inr n) ↦ inl n
                  | inr n ↦ inr n
                ];
                new_child = λ c m. elim (ih.new_child c m) [
                  | inl (inl p) ↦ inr (
                    inl p,
                    subst (λ d. key_matches active d parent ≡ true) (sym p)
                        (taking parent child reachable e),
                  )
                  | inl (inr n) ↦ inl n
                  | inr (n, k) ↦ inr (inr n, k)
                ];
              })
      ]
