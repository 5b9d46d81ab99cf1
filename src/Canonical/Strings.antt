-- ===== src/Canonical/Strings.antt =====
-- The text of a JSON string in app/canonical.py reads back: no two strings have one text, and none is
-- the beginning of another's.
use ab_b1b34dfe_mgf1_ocsp_bu.Prelude.{
  ℕ, ◌+◌, ◌*◌, ◌-◌, ◌/◌, ◌%◌, ◌<◌, [], ◌∷◌, ◌++◌, Option, none, some, if◌then◌else◌, ltb, ◌==◌, ◌≡◌,
  refl, sym, ap, ◌∙◌, arith, append_assoc,
}
use ab_b1b34dfe_mgf1_ocsp_bu.Cert.{Text}
use ab_b1b34dfe_mgf1_ocsp_bu.Canonical.{
  escape_char, escape_chars, escape_text, short_escape, unicode_escape, hex_digit,
}

-- a reader of JSON strings, by the grammar of RFC 8259 for the escapes that are written

abbrev hex_value : ℕ → ℕ
hex_value c = if ltb c 58 then c - 48 else c - 87

-- the character of a letter after the backslash
abbrev unescaped : ℕ → ℕ
unescaped e =
    if e == b'b'
    then 8
    else if e == b'f'
    then 12
    else if e == b'n'
    then 10
    else if e == b'r'
    then 13
    else if e == b't'
    then 9
    else e

-- the character after `\u` with its four digits
abbrev read_unicode : Text → Option (ℕ × Text)
read_unicode (a ∷ b ∷ c ∷ d ∷ s) =
    some (((hex_value a * 16 + hex_value b) * 16 + hex_value c) * 16 + hex_value d, s)
read_unicode _ = none

abbrev read_escape : Text → Option (ℕ × Text)
read_escape [] = none
read_escape (e ∷ s) = if e == b'u' then read_unicode s else some (unescaped e, s)

-- the next character, or `none` at the closing quote
abbrev read_char : Text → Option (ℕ × Text)
read_char [] = none
read_char (c ∷ s) = if c == 34 then none else if c == 92 then read_escape s else some (c, s)

hex_value-hex_digit : (d : ℕ) → d < 16 → hex_value (hex_digit d) ≡ d
unfolding hex_digit
hex_value-hex_digit d h = ground arith

read_unicode_lem : (c : ℕ) (s : Text) → c < 32 → read_char (unicode_escape c ++ s) ≡ some (c, s)
unfolding unicode_escape
read_unicode_lem c s h =
    let high : hex_value (hex_digit (c / 16)) ≡ c / 16 =
      hex_value-hex_digit (c / 16) (omega arith) in
    let low : hex_value (hex_digit (c % 16)) ≡ c % 16 =
      hex_value-hex_digit (c % 16) (omega arith) in
    let value : (0 + hex_value (hex_digit (c / 16))) * 16 + hex_value (hex_digit (c % 16)) ≡ c =
      rw (high, low) (omega arith) in
    ap (λ v. some (v, s)) value

read_char-escape_char : (c : ℕ) (s : Text) → read_char (escape_char c ++ s) ≡ some (c, s)
unfolding escape_char short_escape
read_char-escape_char c s = ground (arith, read_unicode_lem c s)

read_char-quote : (s : Text) → read_char (34 ∷ s) ≡ none
read_char-quote s = refl

some_pair :
    {c d : ℕ} {s t : Text}
    → ◌≡◌ {A = Option (ℕ × Text)} (some (c, s)) (some (d, t))
    → (c ≡ d) × (s ≡ t)
some_pair h = (cc, cc)

escape_chars-prefix :
    (s t r u : Text) → escape_chars s ++ 34 ∷ r ≡ escape_chars t ++ 34 ∷ u → (s ≡ t) × (r ≡ u)
unfolding escape_chars
escape_chars-prefix [] [] r u h = (refl, cc)
escape_chars-prefix [] (d ∷ t) r u h =
    let q : ◌≡◌ {A = Option (ℕ × Text)} none (some (d, escape_chars t ++ 34 ∷ u)) =
      ap read_char (h ∙ append_assoc (escape_char d) (escape_chars t) (34 ∷ u))
      ∙ read_char-escape_char d (escape_chars t ++ 34 ∷ u) in
    absurd (cc)
escape_chars-prefix (c ∷ s) [] r u h =
    let q : ◌≡◌ {A = Option (ℕ × Text)} none (some (c, escape_chars s ++ 34 ∷ r)) =
      ap read_char (sym h ∙ append_assoc (escape_char c) (escape_chars s) (34 ∷ r))
      ∙ read_char-escape_char c (escape_chars s ++ 34 ∷ r) in
    absurd (cc)
escape_chars-prefix (c ∷ s) (d ∷ t) r u h =
    let q =
      sym (read_char-escape_char c (escape_chars s ++ 34 ∷ r))
      ∙ ap read_char (
          sym (append_assoc (escape_char c) (escape_chars s) (34 ∷ r))
          ∙ h
          ∙ append_assoc (escape_char d) (escape_chars t) (34 ∷ u))
      ∙ read_char-escape_char d (escape_chars t ++ 34 ∷ u) in
    let (head, tail) = some_pair q in
    let (same, rest) = escape_chars-prefix s t r u tail in (rw (head, same) refl, rest)

-- The canonical text of a string determines the string and where it ends: if two strings' texts, with
-- any texts after them, are equal, then so are the strings, and the texts after them.
pub escape_text-prefix :
    (s t r u : Text) → escape_text s ++ r ≡ escape_text t ++ u → (s ≡ t) × (r ≡ u)
unfolding escape_text
escape_text-prefix s t r u h =
    let k : (escape_chars s ++ 34 ∷ []) ++ r ≡ (escape_chars t ++ 34 ∷ []) ++ u = cc in
    escape_chars-prefix s t r u (
      sym (append_assoc (escape_chars s) (34 ∷ []) r)
      ∙ k
      ∙ append_assoc (escape_chars t) (34 ∷ []) u)
