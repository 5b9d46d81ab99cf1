-- ===== src/Names/Extended.antt =====
-- The subtrees that `check_name_constraints` of app/pki.py accumulates, and what they are to each
-- certificate of a path.
use ab_b1b34dfe_mgf1_ocsp_bu.Prelude.{
  List, [], ◌∷◌, ◌++◌, Option, none, some, flat_map, append-nil, append_assoc, ◌≡◌, refl, sym, ap,
  ◌∙◌,
}
use ab_b1b34dfe_mgf1_ocsp_bu.Cert.{Text, NameConstraints, CertInfo}
use ab_b1b34dfe_mgf1_ocsp_bu.Names.{
  dns_name_matches, uri_name_matches, dir_name_matches, nothing_yet, extend_subtrees,
  extend_constraints,
}
use ab_b1b34dfe_mgf1_ocsp_bu.Names.Kinds.{IsKept}

-- the subtrees of one kind that a list of certificates names
abbrev pub subtrees_of : {N : Type 0} → (NameConstraints → List N) → List CertInfo → List N
subtrees_of kind = flat_map (λ (c : CertInfo). elim c.nc [ none ↦ [] | some nc ↦ kind nc ])

-- what has been accumulated below the certificates `above`
abbrev pub extend_all : NameConstraints → List CertInfo → NameConstraints
extend_all acc [] = acc
extend_all acc (c ∷ cs) = extend_all (extend_constraints acc c.nc) cs

-- A certificate keeps the constraints of the certificates `above` it, the anchor not among them.
pub record KeepsNames (hostname : Text → Option Text) (above : List CertInfo) (c : CertInfo)
    : Type 0 where
  pub dns :
      IsKept dns_name_matches c.san_dns
        (subtrees_of (λ nc. nc.permitted.dns) above)
        (subtrees_of (λ nc. nc.excluded.dns) above)
  pub uri :
      IsKept
        (uri_name_matches hostname)
        c.san_uri
        (subtrees_of (λ nc. nc.permitted.uri) above)
        (subtrees_of (λ nc. nc.excluded.uri) above)
  pub dir :
      IsKept dir_name_matches
        (c.subject_rdns ∷ c.san_dir)
        (subtrees_of (λ nc. nc.permitted.dir) above)
        (subtrees_of (λ nc. nc.excluded.dir) above)

module _ {N : Type 0} (kind : NameConstraints → List N)
    (absent : (a : NameConstraints) → kind (extend_constraints a none) ≡ kind a)
    (present : (a nc : NameConstraints)
      → kind (extend_constraints a (some nc)) ≡ kind a ++ kind nc) where
  by_nc :
      (a : NameConstraints) (o : Option NameConstraints)
      → kind (extend_constraints a o) ≡ kind a ++ elim o [ none ↦ [] | some nc ↦ kind nc ]
  by_nc a none = absent a ∙ sym (append-nil (kind a))
  by_nc a (some nc) = present a nc

  extend_constraints_lem :
      (above : List CertInfo) (acc : NameConstraints)
      → kind (extend_all acc above) ≡ kind acc ++ subtrees_of kind above
  extend_constraints_lem [] acc = sym (append-nil (kind acc))
  extend_constraints_lem (c ∷ cs) acc =
      extend_constraints_lem cs (extend_constraints acc c.nc)
      ∙ ap (λ t. t ++ subtrees_of kind cs) (by_nc acc c.nc)
      ∙ append_assoc (kind acc) (elim c.nc [ none ↦ [] | some nc ↦ kind nc ]) (subtrees_of kind cs)

pub permitted_dns_lem :
    (above : List CertInfo)
    → (extend_all nothing_yet above).permitted.dns ≡ subtrees_of (λ nc. nc.permitted.dns) above
unfolding extend_constraints extend_subtrees
permitted_dns_lem above =
    extend_constraints_lem (λ nc. nc.permitted.dns) (λ a. refl) (λ a nc. refl) above nothing_yet

pub excluded_dns_lem :
    (above : List CertInfo)
    → (extend_all nothing_yet above).excluded.dns ≡ subtrees_of (λ nc. nc.excluded.dns) above
unfolding extend_constraints extend_subtrees
excluded_dns_lem above =
    extend_constraints_lem (λ nc. nc.excluded.dns) (λ a. refl) (λ a nc. refl) above nothing_yet

pub permitted_uri_lem :
    (above : List CertInfo)
    → (extend_all nothing_yet above).permitted.uri ≡ subtrees_of (λ nc. nc.permitted.uri) above
unfolding extend_constraints extend_subtrees
permitted_uri_lem above =
    extend_constraints_lem (λ nc. nc.permitted.uri) (λ a. refl) (λ a nc. refl) above nothing_yet

pub excluded_uri_lem :
    (above : List CertInfo)
    → (extend_all nothing_yet above).excluded.uri ≡ subtrees_of (λ nc. nc.excluded.uri) above
unfolding extend_constraints extend_subtrees
excluded_uri_lem above =
    extend_constraints_lem (λ nc. nc.excluded.uri) (λ a. refl) (λ a nc. refl) above nothing_yet

pub permitted_dir_lem :
    (above : List CertInfo)
    → (extend_all nothing_yet above).permitted.dir ≡ subtrees_of (λ nc. nc.permitted.dir) above
unfolding extend_constraints extend_subtrees
permitted_dir_lem above =
    extend_constraints_lem (λ nc. nc.permitted.dir) (λ a. refl) (λ a nc. refl) above nothing_yet

pub excluded_dir_lem :
    (above : List CertInfo)
    → (extend_all nothing_yet above).excluded.dir ≡ subtrees_of (λ nc. nc.excluded.dir) above
unfolding extend_constraints extend_subtrees
excluded_dir_lem above =
    extend_constraints_lem (λ nc. nc.excluded.dir) (λ a. refl) (λ a nc. refl) above nothing_yet
