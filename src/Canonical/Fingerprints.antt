-- ===== src/Canonical/Fingerprints.antt =====
-- The texts that `is_fingerprint` of app/canonical.py accepts.
use ab_b1b34dfe_mgf1_ocsp_bu.Prelude.{
  ℕ, List, [], ◌∷◌, ◌++◌, ◌&&◌, true, ◌≡◌, ◌↔◌, ◌⊎◌, refl, sym, ap, subst, inl, inr, arith,
  Bool-cases, In, length, all, ◌==◌,
}
use ab_b1b34dfe_mgf1_ocsp_bu.Cert.{Text}
use ab_b1b34dfe_mgf1_ocsp_bu.Canonical.Times.{strip_newline, is_fingerprint_text, is_hex}

-- the characters that a fingerprint is written with
abbrev pub hex_digits : List ℕ
hex_digits =
    b'0' ∷ b'1' ∷ b'2' ∷ b'3' ∷ b'4' ∷ b'5' ∷ b'6' ∷ b'7' ∷ b'8' ∷ b'9' ∷ b'a' ∷ b'b' ∷ b'c' ∷ b'd'
    ∷ b'e' ∷ b'f' ∷ []

is_hex_iff : (c : ℕ) → (is_hex c ≡ true) ↔ In c hex_digits
is_hex_iff c = ground arith

all-is_hex : (s : Text) → (all is_hex s ≡ true) ↔ ((c : ℕ) → In c s → In c hex_digits)
all-is_hex [] = (λ h c m. absurd m, λ h. refl)
all-is_hex (d ∷ s) = (
  λ h c m. elim m [
    | inl e ↦ subst (λ t. In t hex_digits) (sym e) ((is_hex_iff d).0 (ground arith))
    | inr n ↦ (all-is_hex s).0 (ground arith) c n
  ],
  λ h.
      let first = (is_hex_iff d).1 (h d (inl refl)) in
      let rest = (all-is_hex s).1 (λ c m. h c (inr m)) in ground arith,
)

strip_newline-append : (s : Text) → strip_newline (s ++ 10 ∷ []) ≡ s
unfolding strip_newline
strip_newline-append [] = refl
strip_newline-append (c ∷ []) = refl
strip_newline-append (c ∷ d ∷ s) = ap (λ t. c ∷ t) (strip_newline-append (d ∷ s))

strip_newline-cases : (s : Text) → (s ≡ strip_newline s) ⊎ (s ≡ strip_newline s ++ 10 ∷ [])
unfolding strip_newline
strip_newline-cases [] = inl refl
strip_newline-cases (c ∷ []) = elim (Bool-cases (c == 10)) [
  | inl e ↦ inr (rw e (ground arith))
  | inr e ↦ inl (rw e refl)
]
strip_newline-cases (c ∷ d ∷ s) = elim (strip_newline-cases (d ∷ s)) [
  | inl e ↦ inl (ap (λ t. c ∷ t) e)
  | inr e ↦ inr (ap (λ t. c ∷ t) e)
]

strip_newline-hex : (s : Text) → all is_hex s ≡ true → strip_newline s ≡ s
unfolding strip_newline
strip_newline-hex [] h = refl
strip_newline-hex (c ∷ []) h = ground arith
strip_newline-hex (c ∷ d ∷ s) h = ap (λ t. c ∷ t) (strip_newline-hex (d ∷ s) (ground arith))

-- 64 characters, each of them a lower-case hexadecimal digit
abbrev pub IsDigest : Text → Type 0
IsDigest t = (length t ≡ 64) × ((c : ℕ) → In c t → In c hex_digits)

-- A text passes for a fingerprint exactly when it is 64 lower-case hexadecimal digits, or is those
-- with one newline after them.
pub is_fingerprint_text_iff :
    (s : Text)
    → (is_fingerprint_text s ≡ true) ↔ (IsDigest s ⊎ ((t : Text) × (s ≡ t ++ 10 ∷ []) × IsDigest t))
unfolding is_fingerprint_text
is_fingerprint_text_iff s = (to, from)
  where
    to :
        (length (strip_newline s) == 64) && all is_hex (strip_newline s) ≡ true
        → IsDigest s ⊎ ((t : Text) × (s ≡ t ++ 10 ∷ []) × IsDigest t)
    to h =
        let digest : IsDigest (strip_newline s) =
          (ground arith, (all-is_hex (strip_newline s)).0 (ground arith)) in
        elim (strip_newline-cases s) [
          | inl e ↦ inl (subst IsDigest (sym e) digest)
          | inr e ↦ inr (strip_newline s, e, digest)
        ]

    passes :
        (t : Text)
        → strip_newline s ≡ t
        → IsDigest t
        → (length (strip_newline s) == 64) && all is_hex (strip_newline s) ≡ true
    passes t e (l, h) = let hex = (all-is_hex t).1 h in rw e (ground arith)

    from :
        IsDigest s ⊎ ((t : Text) × (s ≡ t ++ 10 ∷ []) × IsDigest t)
        → (length (strip_newline s) == 64) && all is_hex (strip_newline s) ≡ true
    from (inl d) = passes s (strip_newline-hex s ((all-is_hex s).1 d.1)) d
    from (inr (t, e, d)) = passes t (rw e (strip_newline-append t)) d
