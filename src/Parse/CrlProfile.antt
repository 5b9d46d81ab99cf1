-- ===== src/Parse/CrlProfile.antt =====
-- What a CRL without findings is like, for `parse_crl` of app/revocation.py.
use ab_b1b34dfe_mgf1_ocsp_bu.Prelude.{
  ℕ, String, List, [], ◌∷◌, ◌++◌, Option, none, some, Bool, true, false, not, ◌&&◌, In, ◌==◌,
  ==_iff, ◌≡◌, ◌≢◌, refl, ap, sym, subst, ◌∙◌, arith, flat_map,
}
use ab_b1b34dfe_mgf1_ocsp_bu.Prelude.Dict.{lookup, insert, lookup-insert}
use ab_b1b34dfe_mgf1_ocsp_bu.Cert.{Bytes, Finding}
use ab_b1b34dfe_mgf1_ocsp_bu.Der.CrlEntries.{iter_crl_entries}
use ab_b1b34dfe_mgf1_ocsp_bu.Revocation.{CrlInfo, Entries}
use ab_b1b34dfe_mgf1_ocsp_bu.Revocation.Delta.{is_removal}
use ab_b1b34dfe_mgf1_ocsp_bu.Api.{ok, or_raise, unexpected}
use ab_b1b34dfe_mgf1_ocsp_bu.Api.Steps.{>>=-eq-ok}
use ab_b1b34dfe_mgf1_ocsp_bu.Parse.{
  DistributionPoint, CrlExtension, X509Crl, Package, flag, fingerprint_or,
}
use ab_b1b34dfe_mgf1_ocsp_bu.Parse.Findings.{
  append-eq-nil, flag-eq-nil, unsupported_signature-eq-nil,
}
use ab_b1b34dfe_mgf1_ocsp_bu.Parse.Crl.{
  CrlHead, crl_findings, crl_field, crl_head, crl_entries, entry_reason, extensions_of, is_some,
  crl_descriptor, new_head, crl_info, parse_crl, narrows, is_point_name,
}

crl_field-unsupported :
    (e : CrlExtension) (h : CrlHead) → (crl_field e h).unsupported ≡ h.unsupported
crl_field-unsupported (CrlExtension.authority_key keyid has_issuer) h = refl
crl_field-unsupported (CrlExtension.crl_number n) h = refl
crl_field-unsupported (CrlExtension.delta_indicator n) h = refl
crl_field-unsupported (CrlExtension.distribution_point p) h = refl
crl_field-unsupported (CrlExtension.other oid) h = refl

-- without findings at the end there were none before, and none on any extension
crl_head-clean :
    (h : CrlHead) (es : List (Bool × CrlExtension))
    → (crl_head h es).unsupported ≡ []
    → (h.unsupported ≡ [])
      × ((critical : Bool) (e : CrlExtension) → In (critical, e) es → crl_findings critical e ≡ [])
unfolding crl_head
crl_head-clean h [] k = (k, λ critical e m. absurd m)
crl_head-clean h ((c, x) ∷ es) k =
    let (none_yet, later) =
      crl_head-clean (crl_field x (record h { unsupported = h.unsupported ++ crl_findings c x })) es
        k in
    let (before, here) = append-eq-nil h.unsupported (crl_findings c x) (
      sym (crl_field-unsupported x (record h { unsupported = h.unsupported ++ crl_findings c x }))
      ∙ none_yet) in
    (before, λ critical e m. ground (arith, later critical e))

-- where a `removeFromCRL` entry is listed, the CRL is a delta
abbrev RemovalsInDelta : Bool → Entries → Type 0
RemovalsInDelta is_delta entries =
    (serial date : ℕ) (reason : Option String)
    → lookup ◌==◌ serial entries ≡ some (date, reason)
    → is_removal reason ≡ true
    → is_delta ≡ true

crl_entries-nil :
    (is_delta : Bool) (raw : List (ℕ × ℕ × Option Bytes)) (entries : Entries) (found : List Finding)
    {r : Entries × List Finding}
    → crl_entries is_delta entries found raw ≡ ok r
    → r.1 ≡ []
    → found ≡ []
unfolding crl_entries
crl_entries-nil is_delta [] entries found h e = ground arith
crl_entries-nil is_delta ((serial, date, tlv) ∷ rest) entries found h e =
    let (es, e₁, h₁) = >>=-eq-ok (or_raise (extensions_of tlv) unexpected) _ h in
    (append-eq-nil found _ (crl_entries-nil is_delta rest _ _ h₁ e)).0

insert-RemovalsInDelta :
    (is_delta : Bool) (entries : Entries) (serial date : ℕ) (reason : Option String)
    → (is_removal reason && not is_delta) ≡ false
    → RemovalsInDelta is_delta entries
    → RemovalsInDelta is_delta (insert ◌==◌ serial (date, reason) entries)
insert-RemovalsInDelta is_delta entries serial date reason h keep k date' reason' at removal =
    ground (arith, lookup-insert ◌==◌ ==_iff serial k (date, reason) entries, keep k date' reason')

crl_entries-RemovalsInDelta :
    (is_delta : Bool) (raw : List (ℕ × ℕ × Option Bytes)) (entries : Entries) (found : List Finding)
    {r : Entries × List Finding}
    → RemovalsInDelta is_delta entries
    → crl_entries is_delta entries found raw ≡ ok r
    → r.1 ≡ []
    → RemovalsInDelta is_delta r.0
unfolding crl_entries
crl_entries-RemovalsInDelta is_delta [] entries found keep h e =
    subst (RemovalsInDelta is_delta) (ground arith) keep
crl_entries-RemovalsInDelta is_delta ((serial, date, tlv) ∷ rest) entries found keep h e =
    let (es, e₁, h₁) = >>=-eq-ok (or_raise (extensions_of tlv) unexpected) _ h in
    let none_here = (append-eq-nil found _ (crl_entries-nil is_delta rest _ _ h₁ e)).1 in
    let no_flag = (append-eq-nil (entry_reason none es).1 _ none_here).1 in
    crl_entries-RemovalsInDelta is_delta rest _ _
      (insert-RemovalsInDelta is_delta entries serial date (entry_reason none es).0
        (flag-eq-nil _ _ no_flag) keep)
      h₁ e

-- what a CRL without findings must be like
pub record IsProfiledCrl (extensions : List (Bool × CrlExtension)) (info : CrlInfo) : Type 0 where
  pub signed : info.sig_alg ≢ none
  pub no_critical : (oid : String) → ¬ In (true, CrlExtension.other oid) extensions
  pub no_issuer :
      (critical : Bool) (keyid : Option String)
      → ¬ In (critical, CrlExtension.authority_key keyid true) extensions
  pub not_narrowed :
      (critical : Bool) (p : DistributionPoint)
      → In (critical, CrlExtension.distribution_point p) extensions
      → (p.only_user ≡ false)
        × (p.only_ca ≡ false)
        × (p.only_attribute ≡ false)
        × (p.some_reasons ≡ false)
        × (p.indirect ≡ false)
        × (p.relative_name ≡ false)
  pub numbered : info.is_delta ≡ true → info.crl_number ≢ none
  pub removals : RemovalsInDelta info.is_delta info.entries

crl_findings-critical : (oid : String) → crl_findings true (CrlExtension.other oid) ≢ []
unfolding crl_findings
crl_findings-critical oid e = cc

crl_findings-issuer :
    (critical : Bool) (keyid : Option String)
    → crl_findings critical (CrlExtension.authority_key keyid true) ≢ []
unfolding crl_findings
crl_findings-issuer critical keyid e = cc

crl_findings-narrowed :
    (critical : Bool) (p : DistributionPoint)
    → crl_findings critical (CrlExtension.distribution_point p) ≡ []
    → (p.only_user ≡ false)
      × (p.only_ca ≡ false)
      × (p.only_attribute ≡ false)
      × (p.some_reasons ≡ false)
      × (p.indirect ≡ false)
      × (p.relative_name ≡ false)
unfolding crl_findings
crl_findings-narrowed critical p e =
    let (scope, rest) = append-eq-nil (flag (narrows p) "UNSUPPORTED_IDP_SCOPE") _ e in
    let (names, relative) =
      append-eq-nil
        (flat_map (λ n. flag (not (is_point_name n)) "UNSUPPORTED_IDP_NAME") p.full_name) _ rest in
    let wide = flag-eq-nil (narrows p) _ scope in
    let absolute = flag-eq-nil p.relative_name _ relative in ground arith

is_some-numbered :
    (base number : Option ℕ)
    → (is_some base && not (is_some number)) ≡ false
    → is_some base ≡ true
    → number ≢ none
is_some-numbered none number h e = absurd (cc)
is_some-numbered (some b) none h e = absurd (cc)
is_some-numbered (some b) (some n) h e = λ k. cc

parse_crl-eq-ok :
    (lib : Package) (der : Bytes) (fingerprint : Option String) (crl : X509Crl)
    (extensions : List (Bool × CrlExtension)) (info : CrlInfo)
    → lib.load_crl der ≡ some crl
    → crl.extensions ≡ some extensions
    → parse_crl lib der fingerprint ≡ ok info
    → (let head = crl_head (new_head lib crl) extensions in
        (raw : List (ℕ × ℕ × Option Bytes)) × (r : Entries × List Finding) × (crl_entries
            (is_some head.base_crl_number)
            []
            head.unsupported
            raw
          ≡ ok r)
        × (info ≡ crl_info lib (fingerprint_or fingerprint (lib.sha256_hex der)) crl head r))
unfolding parse_crl
parse_crl-eq-ok lib der fingerprint crl extensions info loaded listed h =
    let head = crl_head (new_head lib crl) extensions in
    let h' = rw (loaded, listed) at h in
    let (raw, e₁, h₁) =
      >>=-eq-ok (or_raise (iter_crl_entries lib.strptime lib.year lib.with_year der) unexpected) _
        h' in
    let (r, e₂, h₂) =
      >>=-eq-ok (crl_entries (is_some head.base_crl_number) [] head.unsupported raw) _ h₁ in
    (raw, r, e₂, ground arith)

crl_info-IsProfiledCrl :
    (lib : Package) (fp : String) (crl : X509Crl) (extensions : List (Bool × CrlExtension))
    (raw : List (ℕ × ℕ × Option Bytes)) (r : Entries × List Finding)
    → (let head = crl_head (new_head lib crl) extensions in
        crl_entries (is_some head.base_crl_number) [] head.unsupported raw ≡ ok r
        → (crl_info lib fp crl head r).unsupported ≡ []
        → IsProfiledCrl extensions (crl_info lib fp crl head r))
crl_info-IsProfiledCrl lib fp crl extensions raw (entries, found) e clean =
    let head = crl_head (new_head lib crl) extensions in
    let (none_found, no_flag) = append-eq-nil found _ clean in
    let before =
      crl_entries-nil (is_some head.base_crl_number) raw [] head.unsupported e none_found in
    let (signature_ok, no_findings) = crl_head-clean (new_head lib crl) extensions before in
    record {
      signed = unsupported_signature-eq-nil (crl_descriptor lib crl) signature_ok;
      no_critical = λ oid m. crl_findings-critical oid (no_findings true _ m);
      no_issuer = λ critical keyid m. crl_findings-issuer critical keyid (no_findings critical _ m);
      not_narrowed = λ critical p m. crl_findings-narrowed critical p (no_findings critical _ m);
      numbered = is_some-numbered head.base_crl_number head.crl_number (flag-eq-nil _ _ no_flag);
      removals =
          crl_entries-RemovalsInDelta (is_some head.base_crl_number) raw [] head.unsupported
            (λ serial date reason at removal. absurd (ground arith)) e none_found;
    }

-- A CRL that parses without findings has a supported signature algorithm, no critical extension beyond
-- the supported ones, no authority key with an issuer or serial number, and a distribution point, if
-- any, that narrows nothing and has no relative name; if it is a delta it has a number, and only if it is
-- one does it list a `removeFromCRL` entry.
pub parse_crl-IsProfiledCrl :
    (lib : Package) (der : Bytes) (fingerprint : Option String) (crl : X509Crl)
    (extensions : List (Bool × CrlExtension)) (info : CrlInfo)
    → lib.load_crl der ≡ some crl
    → crl.extensions ≡ some extensions
    → parse_crl lib der fingerprint ≡ ok info
    → info.unsupported ≡ []
    → IsProfiledCrl extensions info
parse_crl-IsProfiledCrl lib der fingerprint crl extensions info loaded listed h clean =
    let (raw, r, e, same) =
      parse_crl-eq-ok lib der fingerprint crl extensions info loaded listed h in
    subst (IsProfiledCrl extensions) (sym same) (
      crl_info-IsProfiledCrl lib (fingerprint_or fingerprint (lib.sha256_hex der)) crl extensions
        raw r e (ap (λ i. i.unsupported) (sym same) ∙ clean))
