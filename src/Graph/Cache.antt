-- ===== src/Graph/Cache.antt =====
-- The signature cache and the evaluator's state do not show in what the rules answer.
use ab_b1b34dfe_mgf1_ocsp_bu.Prelude.{
  String, List, [], ◌∷◌, Option, some, Bool, true, false, ◌≡◌, refl, arith, eq_iff, inl, inr,
  Bool-cases, str_eq, ◌&&◌,
}
use ab_b1b34dfe_mgf1_ocsp_bu.Cert.{CertInfo}
use ab_b1b34dfe_mgf1_ocsp_bu.Graph.{Explorer, Explored, Failure}
use ab_b1b34dfe_mgf1_ocsp_bu.Graph.Checks.{
  cached, signature_ok, verify_edge_signature, edge_checks, check_revocation, revocation_failure,
}
use ab_b1b34dfe_mgf1_ocsp_bu.Graph.Route.{edge_failure}

-- What the explorer asks of its evaluator and of `get_cert`: states that `Ok` holds of answer
-- `status` by the function `answer` and lead to such states, and a certificate carries the
-- fingerprint that it is fetched by.
pub record IsLawful {E : Type 0} (x : Explorer E) (Ok : E → Type 0)
    (answer : String → String → String) : Type 0 where
  pub answers :
      (a b : String) (e : E)
      → Ok e
      → ((x.status (x.get_cert a) (x.get_cert b) e).0 ≡ answer a b)
        × Ok (x.status (x.get_cert a) (x.get_cert b) e).1
  pub named : (fp : String) → (x.get_cert fp).fingerprint ≡ fp

module _ {E : Type 0} (x : Explorer E) (Ok : E → Type 0) where
  open x use {get_cert}

  -- every cached edge holds what the verification gives
  abbrev pub CacheHolds : List (String × String × Bool) → Type 0
  CacheHolds [] = Unit
  CacheHolds ((a, b, v) ∷ rest) = (v ≡ signature_ok x (get_cert a) (get_cert b)) × CacheHolds rest

  pub record IsSound (st : Explored E) : Type 0 where
    pub rev_ok : Ok st.rev
    pub cache : CacheHolds st.sig_cache

  cached-holds :
      (a b : String) (cache : List (String × String × Bool)) (v : Bool)
      → CacheHolds cache
      → cached a b cache ≡ some v
      → v ≡ signature_ok x (get_cert a) (get_cert b)
  unfolding cached
  cached-holds a b [] v h e = cc
  cached-holds a b ((c, d, w) ∷ rest) v h e = elim (Bool-cases (str_eq a c && str_eq b d)) [
    | inl hit ↦ rw ((eq_iff a c).0 (ground arith), (eq_iff b d).0 (ground arith)) (ground arith)
    | inr miss ↦ cached-holds a b rest v h.1 (ground arith)
  ]

  module _ (named : (fp : String) → (get_cert fp).fingerprint ≡ fp) where
    verify_edge-agrees :
        (a b : String) (st : Explored E)
        → IsSound st
        → ((verify_edge_signature x (get_cert a) (get_cert b) st).0
            ≡ signature_ok x (get_cert a) (get_cert b))
          × IsSound (verify_edge_signature x (get_cert a) (get_cert b) st).1
    unfolding verify_edge_signature
    verify_edge-agrees a b st h = ground (
      arith,
      named a,
      named b,
      cached-holds a b st.sig_cache true h.cache,
      cached-holds a b st.sig_cache false h.cache,
    )

  verify_edge-cutoff :
      (c d : CertInfo) (st : Explored E) → (verify_edge_signature x c d st).1.cutoff ≡ st.cutoff
  unfolding verify_edge_signature
  verify_edge-cutoff c d st = ground arith

-- The rules of an extension answer by `edge_failure`, whatever is cached.
pub record IsChecked {E : Type 0} (x : Explorer E) (Ok : E → Type 0) (f : Option Failure)
    (st : Explored E) (r : Option Failure × Explored E) : Type 0 where
  pub agrees : r.0 ≡ f
  pub sound : IsSound x Ok r.1
  pub cutoff_kept : r.1.cutoff ≡ st.cutoff

module _ {E : Type 0} (x : Explorer E) (Ok : E → Type 0) (answer : String → String → String)
    (law : IsLawful x Ok answer) where
  open x use {get_cert}

  check_revocation-IsChecked :
      (a b : String) (st : Explored E)
      → IsSound x Ok st
      → IsChecked x Ok
          (revocation_failure x (get_cert a) (answer a b))
          st
          (check_revocation x (get_cert a) (get_cert b) st)
  unfolding check_revocation
  check_revocation-IsChecked a b st h =
      let (same, kept) = law.answers a b st.rev h.rev_ok in
      record {
        agrees = rw same;
        sound = record { rev_ok = kept; cache = h.cache };
        cutoff_kept = refl;
      }

  pub edge_checks-IsChecked :
      (a b : String) (path : List String) (st : Explored E)
      → IsSound x Ok st
      → IsChecked x Ok
          (edge_failure x answer a b path)
          st
          (edge_checks x (get_cert a) (get_cert b) path st)
  unfolding edge_checks edge_failure
  edge_checks-IsChecked a b path st h = ground (
    arith,
    verify_edge-agrees x Ok law.named a b st h,
    verify_edge-cutoff x Ok (get_cert a) (get_cert b) st,
    check_revocation-IsChecked a b (verify_edge_signature x (get_cert a) (get_cert b) st).1,
  )
