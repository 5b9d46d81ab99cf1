-- ===== src/Policy.antt =====
-- `evaluate_policies` of app/pki.py. A valid_policy_set is a list without repetitions, `none` is
-- the NULL tree, and the order of such a list is never looked at: the result is sorted.
pub mod Pending
pub mod Accepted
mod Tests
use mathlib.Core.Bool.{Bool}
use ab_b1b34dfe_mgf1_ocsp_bu.Prelude.{
  ℕ, suc, String, List, [], ◌∷◌, Option, none, some, true, false, not, ◌&&◌, ◌||◌, if◌then◌else◌,
  all, select, str_eq, str_mem, str_le, sort_by,
}
use ab_b1b34dfe_mgf1_ocsp_bu.Prelude.Int.{ℤ, pos, negsuc, sub_ℕ, min_ℤ}
use ab_b1b34dfe_mgf1_ocsp_bu.Cert.{CertInfo, RuleFailure}

abbrev pub any_policy_oid : String
any_policy_oid = "2.5.29.32.0"

abbrev pub any_policy : String
any_policy = "anyPolicy"

-- the three counters of `pending_at`
pub data Counter : Type 0 where
  require_explicit inhibit_mapping inhibit_any : Counter

-- the constraint of one certificate for a counter
unfoldable pub constraint_of : Counter → CertInfo → Option ℕ
constraint_of require_explicit c = elim c.policy_constraints [
  | none ↦ none
  | some pc ↦ pc.require_explicit
]
constraint_of inhibit_mapping c = elim c.policy_constraints [
  | none ↦ none
  | some pc ↦ pc.inhibit_mapping
]
constraint_of inhibit_any c = c.inhibit_any_policy

unfoldable pub keep_min : Option ℤ → ℤ → Option ℤ
keep_min none v = some v
keep_min (some best) v = some (min_ℤ best v)

-- The loop of `pending_at` over the certificates above position `idx`, nearest first, without the
-- anchor: `dist` is `p - idx`, and `best` the minimum so far.
unfoldable pub pending_from : Counter → ℕ → Option ℤ → List CertInfo → Option ℤ
unfolding constraint_of keep_min
pending_from kind dist best [] = best
pending_from kind dist best (c ∷ above) =
    pending_from kind (suc dist)
      (elim (constraint_of kind c) [ none ↦ best | some k ↦ keep_min best (sub_ℕ k dist) ]) above

unfoldable pub pending_at : Counter → List CertInfo → Option ℤ
unfolding pending_from
pending_at kind above = pending_from kind 1 none above

-- `(v or 1) > 0`: Python's `or` takes 1 for a missing value and for 0
unfoldable pub positive_or_one : Option ℤ → Bool
positive_or_one none = true
positive_or_one (some (pos n)) = true
positive_or_one (some (negsuc n)) = false

-- `set.add`
unfoldable pub set_add : String → List String → List String
set_add x s = if str_mem x s then s else x ∷ s

unfoldable pub set_union : List String → List String → List String
unfolding set_add
set_union [] t = t
set_union (x ∷ s) t = set_add x (set_union s t)

-- `mapped_issuer_policies.get(p, [])`
unfoldable pub issuer_policies : List (String × String) → String → List String
issuer_policies [] p = []
issuer_policies ((ip, sp) ∷ rest) p =
    if str_eq sp p then ip ∷ issuer_policies rest p else issuer_policies rest p

unfoldable pub maps_any : List (String × String) → Bool
maps_any [] = false
maps_any ((ip, sp) ∷ rest) = (str_eq ip any_policy_oid || str_eq sp any_policy_oid) || maps_any rest

-- the open set: each policy of the certificate and what it is mapped from
unfoldable pub add_all : List (String × String) → List String → List String → List String
unfolding set_union set_add issuer_policies
add_all mappings [] acc = acc
add_all mappings (p ∷ oids) acc =
    set_union (issuer_policies mappings p) (set_add p (add_all mappings oids acc))

-- the closed set: the same, where the policy is still valid
unfoldable pub add_valid :
    List String → List (String × String) → List String → List String → List String
unfolding set_union set_add issuer_policies
add_valid valid mappings [] acc = acc
add_valid valid mappings (p ∷ oids) acc =
    set_union (select (λ ip. str_mem ip valid) (issuer_policies mappings p)) (
      let rest = add_valid valid mappings oids acc in
      if str_mem p valid then set_add p rest else rest)

-- `new_valid if new_valid else None`
abbrev pub or_null : List String → Option (List String)
or_null [] = none
or_null (p ∷ s) = some (p ∷ s)

-- the new set for a certificate that asserts `cert_policies`
unfoldable pub narrow_set : Bool → List (String × String) → List String → List String → List String
unfolding add_all add_valid set_union
narrow_set any_allowed mappings cert_policies valid =
    let has_any = str_mem any_policy_oid cert_policies && any_allowed in
    let oids = select (λ p. not (str_eq p any_policy_oid)) cert_policies in
    if str_mem any_policy valid
    then add_all mappings oids (if has_any then any_policy ∷ [] else [])
    else add_valid valid mappings oids (if has_any then valid else [])

pub data Narrowed : Type 0 where
  valid_set : Option (List String) → Narrowed
  mapping_any : String → Narrowed

-- `path[idx + 1].policy_mappings`, or nothing below the anchor, and the name of that certificate
abbrev pub parent_mappings : List CertInfo → List (String × String)
parent_mappings [] = []
parent_mappings (p ∷ above) = p.policy_mappings

abbrev pub parent_name : List CertInfo → String
parent_name [] = ""
parent_name (p ∷ above) = p.fingerprint

unfoldable pub narrow_valid :
    Bool → List (String × String) → CertInfo → Option (List String) → Option (List String)
unfolding narrow_set
narrow_valid any_allowed mappings c none = none
narrow_valid any_allowed mappings c (some valid) = elim c.policies [
  | none ↦ none
  | some cert_policies ↦ or_null (narrow_set any_allowed mappings cert_policies valid)
]

-- the body of the main loop for the certificate `c` below `above`
unfoldable pub narrow_step : CertInfo → List CertInfo → Narrowed → Narrowed
unfolding pending_at positive_or_one maps_any narrow_valid
narrow_step c above (mapping_any fp) = mapping_any fp
narrow_step c above (valid_set valid) =
    let allowed = positive_or_one (pending_at inhibit_mapping above) in
    let any_allowed = positive_or_one (pending_at inhibit_any above) in
    let mappings = if allowed then parent_mappings above else [] in
    if maps_any mappings
    then mapping_any (parent_name above)
    else valid_set (narrow_valid any_allowed mappings c valid)

-- The main loop, from the certificate below the anchor down: `certs` is the path without its
-- anchor, leaf-first, so the recursive call handles the certificates above.
unfoldable pub narrow : List CertInfo → Narrowed
unfolding narrow_step
narrow [] = valid_set (some (any_policy ∷ []))
narrow (c ∷ above) = narrow_step c above (narrow above)

pub data PolicyResult : Type 0 where
  pass : List String → PolicyResult
  fail : RuleFailure → PolicyResult

abbrev pub fail_with : String → String → PolicyResult
fail_with code fp = fail (record { code = code; certificate = fp })

-- `valid == {ANY_POLICY}` for a set that is not empty
unfoldable pub only_any : List String → Bool
only_any = all (λ p. str_eq p any_policy)

unfoldable pub initial_or_any : List String → List String
initial_or_any [] = any_policy ∷ []
initial_or_any (p ∷ ps) = p ∷ ps

unfoldable pub is_specific : List String → Bool
is_specific initial = not (str_mem any_policy initial) && not (str_mem any_policy_oid initial)

-- the final acceptance, with `explicit_required` and the leaf's fingerprint
unfoldable pub accept : Bool → List String → String → Option (List String) → PolicyResult
unfolding is_specific only_any
accept explicit initial leaf none =
    if explicit
    then fail_with "POLICY_TREE_EMPTY" leaf
    else if is_specific initial
    then fail_with "POLICY_INITIAL_SET_MISMATCH" leaf
    else pass []
accept explicit initial leaf (some valid) =
    if only_any valid
    then (if explicit
        then fail_with "POLICY_EXPLICIT_REQUIRED" leaf
        else pass (if is_specific initial then sort_by str_le initial else any_policy ∷ []))
    else if is_specific initial
    then (if str_mem any_policy valid
        then pass (sort_by str_le initial)
        else elim (select (λ p. str_mem p initial) valid) [
          | [] ↦ fail_with "POLICY_INITIAL_SET_MISMATCH" leaf
          | p ∷ ps ↦ pass (sort_by str_le (p ∷ ps))
        ])
    else pass (sort_by str_le valid)

abbrev pub leaf_name : List CertInfo → String
leaf_name [] = ""
leaf_name (c ∷ above) = c.fingerprint

abbrev pub above_leaf : List CertInfo → List CertInfo
above_leaf [] = []
above_leaf (c ∷ above) = above

-- `path[:n]`: the path without its anchor
unfoldable pub but_last : {A : Type 0} → List A → List A
but_last [] = []
but_last (x ∷ []) = []
but_last (x ∷ y ∷ ys) = x ∷ but_last (y ∷ ys)

-- the certificates above position 0, the anchor left out
unfoldable pub evaluate_below : List CertInfo → String → List String → PolicyResult
unfolding narrow accept initial_or_any pending_at positive_or_one
evaluate_below certs leaf initial_policy_set = elim (narrow certs) [
  | mapping_any fp ↦ fail_with "POLICY_MAPPING_ANY" fp
  | valid_set valid ↦
      accept (not (positive_or_one (pending_at require_explicit (above_leaf certs))))
        (initial_or_any initial_policy_set) leaf valid
]

unfoldable pub evaluate_policies : List CertInfo → List String → PolicyResult
unfolding evaluate_below but_last
evaluate_policies path initial_policy_set =
    evaluate_below (but_last path) (leaf_name path) initial_policy_set
