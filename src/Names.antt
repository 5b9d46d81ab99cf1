-- ===== src/Names.antt =====
-- Name constraints of app/pki.py: the matchers and `check_name_constraints`.
pub mod Kinds
pub mod Extended
pub mod Meaning
mod Tests
use ab_b1b34dfe_mgf1_ocsp_bu.Prelude.{
  ℕ, ◌+◌, String, List, [], ◌∷◌, ◌++◌, Option, none, some, Bool, true, false, not, ◌&&◌, ◌||◌, ◌==◌,
  leb, if◌then◌else◌, any, all, map, reverse, drop,
}
use ab_b1b34dfe_mgf1_ocsp_bu.Cert.{
  Text, text_eq, Rdns, rdn_eq, Subtrees, NameConstraints, CertInfo, RuleFailure,
}

-- `lower` on one character. Names are IA5 texts, so only A..Z change.
unfoldable pub lower_char : ℕ → ℕ
lower_char c = if leb b'A' c && leb c b'Z' then c + 32 else c

unfoldable pub lower : Text → Text
lower = map lower_char

-- `rstrip(".")`: a dot is dropped where nothing but dots follows it
unfoldable pub rstrip_dots : Text → Text
rstrip_dots [] = []
rstrip_dots (c ∷ s) = elim (rstrip_dots s) [
  | [] ↦ if c == b'.' then [] else c ∷ []
  | d ∷ r ↦ c ∷ d ∷ r
]

-- `name.endswith(suffix)`
unfoldable pub ends_with : Text → Text → Bool
ends_with [] suffix = text_eq [] suffix
ends_with (c ∷ s) suffix = text_eq (c ∷ s) suffix || ends_with s suffix

unfoldable pub dns_name_matches : Text → Text → Bool
unfolding lower rstrip_dots ends_with lower_char
dns_name_matches name constraint =
    let n = lower (rstrip_dots name) in
    let c = lower (rstrip_dots constraint) in text_eq n c || ends_with n (b'.' ∷ c)

-- `hostname` stands for `urlsplit(uri).hostname` of the standard library: `none` where the split
-- raises or the URI has no host.
unfoldable pub uri_host : (Text → Option Text) → Text → Option Text
unfolding lower lower_char
uri_host hostname uri = elim (hostname uri) [
  | none ↦ none
  | some [] ↦ none
  | some (c ∷ host) ↦ some (lower (c ∷ host))
]

unfoldable pub host_matches : Text → Text → Bool
unfolding ends_with
host_matches host [] = text_eq host []
host_matches host (c ∷ rest) =
    if c == b'.'
    then ends_with host (c ∷ rest) && not (text_eq host rest)
    else text_eq host (c ∷ rest)

unfoldable pub uri_name_matches : (Text → Option Text) → Text → Text → Bool
unfolding uri_host host_matches lower lower_char
uri_name_matches hostname uri constraint = elim (uri_host hostname uri) [
  | none ↦ false
  | some host ↦ host_matches host (lower constraint)
]

-- the constraint's RDN sequence is a prefix of the name's
unfoldable pub dir_name_matches : Rdns → Rdns → Bool
dir_name_matches name [] = true
dir_name_matches [] (r ∷ rs) = false
dir_name_matches (n ∷ ns) (r ∷ rs) = rdn_eq n r && dir_name_matches ns rs

abbrev pub no_subtrees : Subtrees
no_subtrees = record { dns = []; uri = []; dir = [] }

-- the accumulators `acc_p` and `acc_e`
abbrev pub nothing_yet : NameConstraints
nothing_yet = record { permitted = no_subtrees; excluded = no_subtrees }

unfoldable pub extend_subtrees : Subtrees → Subtrees → Subtrees
extend_subtrees a b = record { dns = a.dns ++ b.dns; uri = a.uri ++ b.uri; dir = a.dir ++ b.dir }

unfoldable pub extend_constraints : NameConstraints → Option NameConstraints → NameConstraints
unfolding extend_subtrees
extend_constraints acc none = acc
extend_constraints acc (some nc) = record {
  permitted = extend_subtrees acc.permitted nc.permitted;
  excluded = extend_subtrees acc.excluded nc.excluded;
}

-- `per_cert`: each certificate from the one below the anchor down to the leaf, with what the
-- certificates between it and the anchor have accumulated
unfoldable pub accumulate : NameConstraints → List CertInfo → List (CertInfo × NameConstraints)
unfolding extend_constraints
accumulate acc [] = []
accumulate acc (c ∷ below) = (c, acc) ∷ accumulate (extend_constraints acc c.nc) below

-- the checks of one kind of name
unfoldable pub check_kind : {N : Type 0} → (N → N → Bool) → List N → List N → List N → Option String
check_kind matches names permitted excluded =
    if any (λ n. any (matches n) excluded) names
    then some "NAME_CONSTRAINT_EXCLUDED"
    else elim permitted [
      | [] ↦ none
      | p ∷ ps ↦
          if all (λ n. any (matches n) (p ∷ ps)) names
          then none
          else some "NAME_CONSTRAINT_NOT_PERMITTED"
    ]

abbrev pub or_else : {A : Type 0} → Option A → Option A → Option A
or_else (some a) b = some a
or_else none b = b

module _ (hostname : Text → Option Text) where
  unfoldable pub check_cert : CertInfo → NameConstraints → Option String
  unfolding check_kind
  check_cert c acc =
      or_else (check_kind dns_name_matches c.san_dns acc.permitted.dns acc.excluded.dns) (
        or_else
          (check_kind (uri_name_matches hostname) c.san_uri acc.permitted.uri acc.excluded.uri)
          (check_kind dir_name_matches (c.subject_rdns ∷ c.san_dir) acc.permitted.dir
            acc.excluded.dir))

  unfoldable pub first_failure : List (CertInfo × NameConstraints) → Option RuleFailure
  unfolding check_cert
  first_failure [] = none
  first_failure ((c, acc) ∷ rest) = elim (check_cert c acc) [
    | some code ↦ some (record { code = code; certificate = c.fingerprint })
    | none ↦ first_failure rest
  ]

  -- `path` is leaf-first; the anchor, its last element, is not looked at. `none` is a pass.
  unfoldable pub check_name_constraints : List CertInfo → Option RuleFailure
  unfolding first_failure accumulate
  check_name_constraints path = first_failure (accumulate nothing_yet (drop 1 (reverse path)))
