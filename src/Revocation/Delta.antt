-- ===== src/Revocation/Delta.antt =====
-- Delta CRLs of app/revocation.py: which complete CRLs a delta fits, and the merged entries.
use Prim.Native.String.{◌++◌ as str_append}
use ab_b1b34dfe_mgf1_ocsp_bu.Prelude.{
  ℕ, String, List, [], ◌∷◌, Option, none, some, Bool, true, false, ◌&&◌, not, if◌then◌else◌, leb,
  ◌==◌, str_eq, str_le, opt_str_eq, map, select, sort_by, ◌≡◌, refl, subst, ==_iff, arith, inl, inr,
  Bool-cases,
}
use ab_b1b34dfe_mgf1_ocsp_bu.Prelude.Dict.{lookup, insert, remove, lookup-insert, lookup-remove}
use ab_b1b34dfe_mgf1_ocsp_bu.Revocation.{CrlInfo, Entry, Entries, View, Content}

abbrev pub remove_from_crl : String
remove_from_crl = "removeFromCRL"

unfoldable pub is_removal : Option String → Bool
is_removal none = false
is_removal (some reason) = str_eq reason remove_from_crl

-- `merged.pop(serial, None)` or `merged[serial] = ...` for one entry of the delta
unfoldable pub apply_entry : ℕ → Entry → Entries → Entries
unfolding is_removal
apply_entry serial (time, reason) merged =
    if is_removal reason
    then remove ◌==◌ serial merged
    else insert ◌==◌ serial (time, reason) merged

-- the entries of the delta in their order, over those of the base
unfoldable pub merge_entries : Entries → Entries → Entries
unfolding apply_entry
merge_entries merged [] = merged
merge_entries merged ((serial, entry) ∷ delta) =
    merge_entries (apply_entry serial entry merged) delta

-- the base's number is the delta's BaseCRLNumber
unfoldable pub base_number_ok : Option ℕ → Option ℕ → Bool
base_number_ok none delta_base = false
base_number_ok (some n) none = false
base_number_ok (some n) (some k) = k == n

-- `not (delta.crl_number is not None and delta.crl_number <= base.crl_number)`
unfoldable pub number_ok : Option ℕ → Option ℕ → Bool
number_ok none delta_number = true
number_ok (some n) none = true
number_ok (some n) (some k) = not (leb k n)

unfoldable pub compatible : CrlInfo → CrlInfo → Bool
unfolding base_number_ok number_ok
compatible delta base =
    str_eq base.issuer_hex delta.issuer_hex
    && (opt_str_eq base.aki_keyid delta.aki_keyid
        && (opt_str_eq base.idp_der_hex delta.idp_der_hex
            && (base_number_ok base.crl_number delta.base_crl_number
                && number_ok base.crl_number delta.crl_number)))

-- `c.fingerprint` is the `fp` by which the CRL was fetched.
unfoldable pub complete_view : CrlInfo → View
complete_view c = record {
  view_id = str_append "crl:" c.fingerprint;
  content = Content.crl c.entries;
  as_of = c.this_update;
  next_update = c.next_update;
  evidence = c.fingerprint ∷ [];
}

unfoldable pub merged_view : CrlInfo → CrlInfo → View
unfolding merge_entries
merged_view delta base = record {
  view_id = str_append "crl:" (str_append base.fingerprint (str_append "+" delta.fingerprint));
  content = Content.crl (merge_entries base.entries delta.entries);
  as_of = delta.this_update;
  next_update = delta.next_update;
  evidence = base.fingerprint ∷ delta.fingerprint ∷ [];
}

unfoldable pub by_fingerprint : CrlInfo → CrlInfo → Bool
by_fingerprint a b = str_le a.fingerprint b.fingerprint

-- one view for each compatible base, in the order of their fingerprints
unfoldable pub delta_views : List CrlInfo → CrlInfo → List View
unfolding compatible merged_view by_fingerprint
delta_views completes delta =
    map (merged_view delta) (sort_by by_fingerprint (select (compatible delta) completes))

-- no serial number is listed twice
abbrev pub IsDict : Entries → Type 0
IsDict [] = Unit
IsDict ((serial, entry) ∷ rest) = (lookup ◌==◌ serial rest ≡ none) × IsDict rest

-- What the merged view says of a serial number: the delta's word, where it has one, and else the
-- base's; an entry that removes leaves none.
abbrev pub merged_answer : Option Entry → Option Entry → Option Entry
merged_answer base none = base
merged_answer base (some (time, reason)) = if is_removal reason then none else some (time, reason)

lookup-apply_entry :
    (serial j : ℕ) (entry : Entry) (merged : Entries)
    → lookup ◌==◌ j (apply_entry serial entry merged)
      ≡ (if serial == j then merged_answer none (some entry) else lookup ◌==◌ j merged)
unfolding apply_entry
lookup-apply_entry serial j (time, reason) merged = ground (
  arith,
  lookup-insert ◌==◌ ==_iff serial j (time, reason) merged,
  lookup-remove ◌==◌ ==_iff serial j merged,
)

-- The merged entries, from a delta with each serial number once, answer every serial number by the
-- delta where it lists it, a `removeFromCRL` entry giving none, and by the base where it does not.
pub lookup-merge_entries :
    (base delta : Entries) (j : ℕ)
    → IsDict delta
    → lookup ◌==◌ j (merge_entries base delta)
      ≡ merged_answer (lookup ◌==◌ j base) (lookup ◌==◌ j delta)
unfolding merge_entries
lookup-merge_entries base [] j d = refl
lookup-merge_entries base ((serial, entry) ∷ delta) j d = elim (Bool-cases (serial == j)) [
  | inl same ↦ ground (
    arith,
    lookup-merge_entries (apply_entry serial entry base) delta j d.1,
    lookup-apply_entry serial j entry base,
    subst (λ k. lookup ◌==◌ k delta ≡ none) ((==_iff serial j).0 same) d.0,
  )
  | inr differ ↦ ground (
    arith,
    lookup-merge_entries (apply_entry serial entry base) delta j d.1,
    lookup-apply_entry serial j entry base,
  )
]
