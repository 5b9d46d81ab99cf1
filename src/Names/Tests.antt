-- ===== src/Names/Tests.antt =====
-- The theorems about name constraints at a path of three certificates.
use ab_b1b34dfe_mgf1_ocsp_bu.Prelude.{
  List, [], ◌∷◌, ◌++◌, none, some, ◌≡◌, ◌↔◌, refl, drop, reverse, Option,
}
use ab_b1b34dfe_mgf1_ocsp_bu.Cert.{Text, CertInfo}
use ab_b1b34dfe_mgf1_ocsp_bu.Samples.{cert}
use ab_b1b34dfe_mgf1_ocsp_bu.Names.{dns_name_matches, check_name_constraints}
use ab_b1b34dfe_mgf1_ocsp_bu.Names.Extended.{KeepsNames}
use ab_b1b34dfe_mgf1_ocsp_bu.Names.Meaning.{check_name_constraints_iff}

abbrev a_test : Text
a_test = b'a' ∷ b'.' ∷ b't' ∷ []

abbrev t_only : Text
t_only = b't' ∷ []

-- the issuer permits DNS names below "t"
abbrev mid : CertInfo
mid = record (cert "mid" "top") {
  nc = some (record {
    permitted = record { dns = t_only ∷ []; uri = []; dir = [] };
    excluded = record { dns = []; uri = []; dir = [] };
  });
}

abbrev leaf : CertInfo
leaf = record (cert "leaf" "mid") { san_dns = a_test ∷ [] }

abbrev path : List CertInfo
path = leaf ∷ mid ∷ cert "top" "top" ∷ []

abbrev no_host : Text → Option Text
no_host uri = none

check_name_constraints_iff_example : (check_name_constraints no_host path ≡ none) ↔ (
    (above below : List CertInfo) (c : CertInfo)
    → drop 1 (reverse path) ≡ above ++ c ∷ below
    → KeepsNames no_host above c)
check_name_constraints_iff_example = check_name_constraints_iff no_host path

path-passes : check_name_constraints no_host path ≡ none
unfolding check_name_constraints dns_name_matches
path-passes = refl
