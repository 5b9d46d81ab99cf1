-- ===== src/Revocation/Told.antt =====
-- What a view of app/revocation.py tells of a serial number: of a CRL's entries the first for it, of a
-- response its status.
use ab_b1b34dfe_mgf1_ocsp_bu.Prelude.{
  ℕ, String, [], ◌∷◌, ◌++◌, Option, none, some, ◌==◌, ◌≡◌, ◌≢◌, ◌↔◌, refl, sym, ap, arith,
  Bool-cases, Option-cases, In, inl, inr, ◌∙◌,
}
use ab_b1b34dfe_mgf1_ocsp_bu.Prelude.Dict.{lookup}
use ab_b1b34dfe_mgf1_ocsp_bu.Revocation.{good, revoked, unknown, Content, Entries}
use ab_b1b34dfe_mgf1_ocsp_bu.Revocation.Evaluate.{not_known, revoked_at, finding}

-- the first entry for a serial number
pub record IsEntry (serial t : ℕ) (r : Option String) (entries : Entries) : Type 0 where
  pub before : Entries
  pub after : Entries
  pub is_split : entries ≡ before ++ (serial, (t, r)) ∷ after
  pub is_first : (e : ℕ × (ℕ × Option String)) → In e before → e.0 ≢ serial

-- the view tells that the serial number is revoked from `t` on, for the reason `r`
abbrev pub IsRevoked : ℕ → ℕ → Option String → Content → Type 0
IsRevoked serial t r (Content.crl entries) = IsEntry serial t r entries
IsRevoked serial t r (Content.ocsp status time reason) =
    (status ≡ revoked) × (time ≡ some t) × (reason ≡ r)

-- the view does not know the certificate
abbrev pub IsUnknown : Content → Type 0
IsUnknown (Content.crl entries) = ⊥
IsUnknown (Content.ocsp status time reason) = status ≡ unknown

IsEntry-lookup :
    (serial t : ℕ) (r : Option String) (entries : Entries)
    → lookup ◌==◌ serial entries ≡ some (t, r)
    → IsEntry serial t r entries
IsEntry-lookup serial t r [] h = absurd (cc)
IsEntry-lookup serial t r ((s, a) ∷ rest) h = elim (Bool-cases (s == serial)) [
  | inl e ↦ record {
    before = [];
    after = rest;
    is_split = let k : s ≡ serial = ground arith in let l : a ≡ (t, r) = ground arith in cc;
    is_first = λ x m. absurd m;
  }
  | inr e ↦
      let k = IsEntry-lookup serial t r rest (ground arith) in
      record {
        before = (s, a) ∷ k.before;
        after = k.after;
        is_split = ap (λ es. (s, a) ∷ es) k.is_split;
        is_first = λ x m. elim m [
          | inl p ↦ λ q.
              let l : s ≡ serial = sym (ap (λ (y : ℕ × (ℕ × Option String)). y.0) p) ∙ q in
              absurd (ground arith)
          | inr n ↦ k.is_first x n
        ];
      }
]

lookup-first :
    (serial t : ℕ) (r : Option String) (before after : Entries)
    → ((e : ℕ × (ℕ × Option String)) → In e before → e.0 ≢ serial)
    → lookup ◌==◌ serial (before ++ (serial, (t, r)) ∷ after) ≡ some (t, r)
lookup-first serial t r [] after h = ground arith
lookup-first serial t r ((s, a) ∷ before) after h =
    let k = h (s, a) (inl refl) in
    let ih = lookup-first serial t r before after (λ e m. h e (inr m)) in ground arith

lookup-IsEntry :
    (serial t : ℕ) (r : Option String) (entries : Entries)
    → IsEntry serial t r entries
    → lookup ◌==◌ serial entries ≡ some (t, r)
lookup-IsEntry serial t r entries k =
    ap (lookup ◌==◌ serial) k.is_split ∙ lookup-first serial t r k.before k.after k.is_first

pub finding-IsRevoked :
    (serial t : ℕ) (r : Option String) (content : Content)
    → (finding serial content ≡ revoked_at t r) ↔ IsRevoked serial t r content
unfolding finding
finding-IsRevoked serial t r (Content.crl entries) = (
  λ h. IsEntry-lookup serial t r entries (elim (Option-cases (lookup ◌==◌ serial entries)) [
    | inl e ↦ absurd (ground arith)
    | inr ((a, b), e) ↦ ground arith
  ]),
  λ k. let e = lookup-IsEntry serial t r entries k in rw (e, finding) refl,
)
finding-IsRevoked serial t r (Content.ocsp good time reason) =
    (λ h. absurd (cc), λ k. absurd (let l = k.0 in cc))
finding-IsRevoked serial t r (Content.ocsp unknown time reason) =
    (λ h. absurd (cc), λ k. absurd (let l = k.0 in cc))
finding-IsRevoked serial t r (Content.ocsp revoked none reason) =
    (λ h. absurd (cc), λ k. absurd (let l = k.1 in cc))
finding-IsRevoked serial t r (Content.ocsp revoked (some a) reason) =
    (λ h. (refl, ground arith, ground arith), λ (p, q, e). ground arith)

pub finding-IsUnknown :
    (serial : ℕ) (content : Content) → (finding serial content ≡ not_known) ↔ IsUnknown content
unfolding finding
finding-IsUnknown serial (Content.crl entries) = (
  λ h. elim (Option-cases (lookup ◌==◌ serial entries)) [
    | inl e ↦ absurd (ground arith)
    | inr ((a, b), e) ↦ absurd (ground arith)
  ],
  λ k. absurd k,
)
finding-IsUnknown serial (Content.ocsp good time reason) = (λ h. absurd (cc), λ k. absurd (cc))
finding-IsUnknown serial (Content.ocsp unknown time reason) = (λ h. refl, λ k. refl)
finding-IsUnknown serial (Content.ocsp revoked none reason) = (λ h. absurd (cc), λ k. absurd (cc))
finding-IsUnknown serial (Content.ocsp revoked (some a) reason) =
    (λ h. absurd (cc), λ k. absurd (cc))
