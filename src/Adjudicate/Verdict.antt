-- ===== src/Adjudicate/Verdict.antt =====
-- The engine of app/adjudicate.py: its loop ends, a verdict is reproduced from the objects that it
-- rests on, and a VALID verdict is justified.
use ab_b1b34dfe_mgf1_ocsp_bu.Prelude.{
  ℕ, zero, suc, ◌≤◌, ◌<◌, List, [], ◌∷◌, Option, none, some, Bool, true, false, ◌||◌, if◌then◌else◌,
  str_eq, find, select, all, length, Bool-cases, Option-cases, ◌≡◌, ◌≢◌, refl, sym, ap, ◌∙◌, subst,
  inl, inr, arith,
}
use ab_b1b34dfe_mgf1_ocsp_bu.Graph.{Explored}
use ab_b1b34dfe_mgf1_ocsp_bu.Graph.Search.{SearchResult, path_found, rejected, out_of_budget}
use ab_b1b34dfe_mgf1_ocsp_bu.Revocation.{EvalState}
use ab_b1b34dfe_mgf1_ocsp_bu.Adjudicate.{Entry, Input, World, entry_of, is_cert}
use ab_b1b34dfe_mgf1_ocsp_bu.Adjudicate.Engine.{
  Verdict, answered, leaf_not_found, unsettled, is_touched, explore_once, conclude, settle,
  run_engine, gives_up, found_leaf,
}

-- leaving something out makes a list shorter
length-select : {A : Type 0} (p : A → Bool) (xs : List A) → length (select p xs) ≤ length xs
length-select p [] = omega arith
length-select p (x ∷ xs) = ground (arith, length-select p xs)

length-select_lt :
    {A : Type 0} (p : A → Bool) (xs : List A) → all p xs ≡ false → length (select p xs) < length xs
length-select_lt p [] h = absurd (cc)
length-select_lt p (x ∷ xs) h = elim (Bool-cases (p x)) [
  | inl e ↦ rw e (omega (arith, length-select_lt p xs (sym (rw e refl) ∙ h)))
  | inr e ↦ rw e (omega (arith, length-select p xs))
]

-- what is found and kept is found among what is kept
find-select :
    {A : Type 0} (p q : A → Bool) (xs : List A)
    → ((x : A) → p x ≡ true → q x ≡ true)
    → find p (select q xs) ≡ find p xs
find-select p q [] h = refl
find-select p q (x ∷ xs) h = ground (arith, h x, find-select p q xs h)

module _ (w : World) (inp : Input) where
  abbrev pub done : List Entry → Bool
  done active =
      let (result, st) = explore_once w inp active in
      gives_up w inp result || all (is_touched w inp st) active

  abbrev rest_of : List Entry → List Entry
  rest_of active = select (is_touched w inp (explore_once w inp active).1) active

  settle-step :
      (fuel : ℕ) (active : List Entry)
      → settle w inp (suc fuel) active ≡ (
          if done active
          then conclude w inp active (explore_once w inp active)
          else settle w inp fuel (rest_of active))
  unfolding settle
  settle-step fuel active = refl

  conclude-ne-unsettled :
      (active : List Entry) (r : SearchResult × Explored EvalState)
      → conclude w inp active r ≢ unsettled
  unfolding conclude
  conclude-ne-unsettled active (path_found path, st) h = cc
  conclude-ne-unsettled active (rejected complete branches, st) h = cc
  conclude-ne-unsettled active (out_of_budget, st) h = cc

  not_all : (b c : Bool) → b || c ≡ false → c ≡ false
  not_all true c h = absurd (cc)
  not_all false c h = h

  shorter :
      (active : List Entry) {fuel : ℕ}
      → done active ≡ false
      → length active < suc fuel
      → length (rest_of active) < fuel
  shorter active e l =
      let less =
        length-select_lt (is_touched w inp (explore_once w inp active).1) active
          (not_all (gives_up w inp (explore_once w inp active).0) _ e) in
      omega arith

  settle-ne-unsettled :
      (fuel : ℕ) (active : List Entry) → length active < fuel → settle w inp fuel active ≢ unsettled
  settle-ne-unsettled zero active l h = absurd (omega arith)
  settle-ne-unsettled (suc fuel) active l h = elim (Bool-cases (done active)) [
    | inl e ↦
        conclude-ne-unsettled active (explore_once w inp active)
          (sym (settle-step fuel active ∙ rw e refl) ∙ h)
    | inr e ↦
        settle-ne-unsettled fuel (rest_of active) (shorter active e l)
          (sym (settle-step fuel active ∙ rw e refl) ∙ h)
  ]

  conclude-active :
      (active : List Entry) (r : SearchResult × Explored EvalState) {v : Verdict} {a : List Entry}
      → conclude w inp active r ≡ answered v a
      → active ≡ a
  unfolding conclude
  conclude-active active (path_found path, st) h = cc
  conclude-active active (rejected complete branches, st) h = cc
  conclude-active active (out_of_budget, st) h = absurd (cc)

  -- The loop ends: as each round but the last leaves out an object, one round for each object and one
  -- more is enough, and no run is left unsettled.
  pub run_engine-ne-unsettled : (objects : List Entry) → run_engine w inp objects ≢ unsettled
  unfolding run_engine
  run_engine-ne-unsettled objects = by_leaf (entry_of objects inp.leaf_fingerprint)
    where
      by_type :
          (t : Bool)
          → (if t then settle w inp (suc (length objects)) objects else leaf_not_found) ≢ unsettled
      by_type true h = settle-ne-unsettled (suc (length objects)) objects (omega arith) h
      by_type false h = cc

      by_leaf : (o : Option Entry) → found_leaf w inp objects o ≢ unsettled
      by_leaf none h = cc
      by_leaf (some e) h = by_type (is_cert e.meta) h

  -- what the loop ends with
  pub settle-inv :
      (fuel : ℕ) (objects : List Entry) {v : Verdict} {active : List Entry}
      → settle w inp fuel objects ≡ answered v active
      → (done active ≡ true)
        × (conclude w inp active (explore_once w inp active) ≡ answered v active)
        × (entry_of active inp.leaf_fingerprint ≡ entry_of objects inp.leaf_fingerprint)
  unfolding entry_of settle
  settle-inv zero objects h = absurd (cc)
  settle-inv (suc fuel) objects {v} {active} h = elim (Bool-cases (done objects)) [
    | inl e ↦
        let k : conclude w inp objects (explore_once w inp objects) ≡ answered v active =
          sym (settle-step fuel objects ∙ rw e refl) ∙ h in
        let same = conclude-active objects (explore_once w inp objects) k in
        subst
          (λ a.
            (done a ≡ true)
            × (conclude w inp a (explore_once w inp a) ≡ answered v active)
            × (entry_of a inp.leaf_fingerprint ≡ entry_of objects inp.leaf_fingerprint))
          same (e, k, refl)
    | inr e ↦
        let (d, k, leaf) =
          settle-inv fuel (rest_of objects) (sym (settle-step fuel objects ∙ rw e refl) ∙ h) in
        (d, k, leaf ∙ leaf_stays (explore_once w inp objects).1)
  ]
    where
      leaf_stays :
          (st : Explored EvalState)
          → find
              (λ (e : Entry). str_eq e.fingerprint inp.leaf_fingerprint)
              (select (is_touched w inp st) objects)
            ≡ find (λ (e : Entry). str_eq e.fingerprint inp.leaf_fingerprint) objects
      leaf_stays st =
          find-select (λ (e : Entry). str_eq e.fingerprint inp.leaf_fingerprint)
            (is_touched w inp st) objects (λ e h. rw h refl)

  pub run-inv :
      (objects : List Entry) {v : Verdict} {active : List Entry}
      → run_engine w inp objects ≡ answered v active
      → (e : Entry) × (entry_of objects inp.leaf_fingerprint ≡ some e)
        × (is_cert e.meta ≡ true)
        × (settle w inp (suc (length objects)) objects ≡ answered v active)
  unfolding run_engine
  run-inv objects {v} {active} h = elim (Option-cases (entry_of objects inp.leaf_fingerprint)) [
    | inl n ↦
        let k : found_leaf w inp objects none ≡ answered v active =
          ap (found_leaf w inp objects) (sym n) ∙ h in
        absurd (cc)
    | inr (e, f) ↦ elim (Bool-cases (is_cert e.meta)) [
      | inl t ↦ (e, f, t, sym (ap (found_leaf w inp objects) f ∙ rw t refl) ∙ h)
      | inr t ↦
          let k : leaf_not_found ≡ answered v active =
            sym (ap (found_leaf w inp objects) f ∙ rw t refl) ∙ h in
          absurd (cc)
    ]
  ]

  -- A verdict is reproduced from the objects that it rests on: the engine, given only those with the
  -- same input, answers the same verdict with all its parts, and rests on the same objects.
  pub run_engine-Reproduces :
      (objects : List Entry) {v : Verdict} {active : List Entry}
      → run_engine w inp objects ≡ answered v active
      → run_engine w inp active ≡ answered v active
  unfolding run_engine
  run_engine-Reproduces objects {v} {active} h =
      let (e, f, t, k) = run-inv objects h in
      let (d, c, leaf) = settle-inv (suc (length objects)) objects k in
      ap (found_leaf w inp active) (leaf ∙ f) ∙ rw t (settle-step (length active) active ∙ rw d c)
