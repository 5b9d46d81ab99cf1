-- ===== src/Canonical/Tests.antt =====
-- Texts of app/canonical.py.
use ab_b1b34dfe_mgf1_ocsp_bu.Prelude.{
  [], ◌∷◌, true, false, ◌≡◌, refl, arith, eq_iff, ℕ, zero, suc, ◌++◌, ◌↔◌, ◌⊎◌,
}
use ab_b1b34dfe_mgf1_ocsp_bu.Cert.{Text}
use ab_b1b34dfe_mgf1_ocsp_bu.Canonical.{bool, obj, field, end, dump}
use ab_b1b34dfe_mgf1_ocsp_bu.Canonical.Strings.{escape_text-prefix}
use ab_b1b34dfe_mgf1_ocsp_bu.Canonical.Times.{is_fingerprint_text}
use ab_b1b34dfe_mgf1_ocsp_bu.Canonical.Fingerprints.{IsDigest, is_fingerprint_text_iff}
use ab_b1b34dfe_mgf1_ocsp_bu.Canonical.Order.{swap, dump-Reordered}

-- a quote, a newline and a control character
abbrev sample : Text
sample = 34 ∷ 10 ∷ 1 ∷ b'a' ∷ []

escape_text-prefix_example : (sample ≡ sample) × (◌≡◌ {A = Text} (b',' ∷ []) (b',' ∷ []))
escape_text-prefix_example = escape_text-prefix sample sample (b',' ∷ []) (b',' ∷ []) refl

dump-Reordered_example :
    dump (obj (field "b" (bool true) (field "a" (bool false) end)))
    ≡ dump (obj (field "a" (bool false) (field "b" (bool true) end)))
dump-Reordered_example =
    dump-Reordered
      (swap "b" "a" (bool true) (bool false) end (λ e. absurd (ground (arith, eq_iff "b" "a"))))

-- the fields come out in the order of their keys
dump_sorts :
    dump (obj (field "b" (bool true) (field "a" (bool false) end)))
    ≡ dump (obj (field "a" (bool false) (field "b" (bool true) end)))
unfolding dump
dump_sorts = refl

-- 64 zeros
abbrev zeros : ℕ → Text
zeros zero = []
zeros (suc n) = 48 ∷ zeros n

is_fingerprint_text_iff_example : (is_fingerprint_text (zeros 64 ++ 10 ∷ []) ≡ true) ↔ (
    IsDigest (zeros 64 ++ 10 ∷ [])
    ⊎ ((t : Text) × (zeros 64 ++ 10 ∷ [] ≡ t ++ 10 ∷ []) × IsDigest t))
is_fingerprint_text_iff_example = is_fingerprint_text_iff (zeros 64 ++ 10 ∷ [])

accepts_newline : is_fingerprint_text (zeros 64 ++ 10 ∷ []) ≡ true
unfolding is_fingerprint_text
accepts_newline = refl

-- 63 digits, an upper-case digit, and two newlines
rejects_others :
    (is_fingerprint_text (zeros 63) ≡ false)
    × (is_fingerprint_text (b'A' ∷ zeros 63) ≡ false)
    × (is_fingerprint_text (zeros 64 ++ 10 ∷ 10 ∷ []) ≡ false)
unfolding is_fingerprint_text
rejects_others = (refl, refl, refl)
