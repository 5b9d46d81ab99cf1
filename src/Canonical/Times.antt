-- ===== src/Canonical/Times.antt =====
-- `parse_time`, `canon_time` and `is_fingerprint` of app/canonical.py. `digit_of` is the value of a
-- character that `\d` matches, `datetime` the standard library's constructor followed by
-- `astimezone(utc)`, and `strftime` the text of a time up to its seconds.
use ab_b1b34dfe_mgf1_ocsp_bu.Prelude.{
  ℕ, zero, suc, ◌+◌, ◌*◌, ◌/◌, ◌%◌, List, [], ◌∷◌, ◌++◌, Option, none, some, Bool, true, false,
  ◌&&◌, ◌||◌, if◌then◌else◌, ltb, leb, ◌==◌, all, length, take,
}
use ab_b1b34dfe_mgf1_ocsp_bu.Prelude.Int.{ℤ, pos, negsuc}
use ab_b1b34dfe_mgf1_ocsp_bu.Cert.{Text}
use ab_b1b34dfe_mgf1_ocsp_bu.Canonical.{Json, null, bool, int, str, arr, obj, codes}

-- A time in microseconds, a ValueError, or the OverflowError of `astimezone`.
pub data Parsed : Type 0 where
  parsed : ℕ → Parsed
  invalid overflow : Parsed

-- the calendar of the standard library: year to second, microsecond, offset in minutes
pub record Calendar : Type 0 where
  pub digit_of : ℕ → Option ℕ
  pub datetime : List ℕ → ℕ → ℤ → Parsed
  pub strftime : ℕ → Text

-- `$` also matches before a newline at the end
unfoldable pub strip_newline : Text → Text
strip_newline [] = []
strip_newline (c ∷ []) = if c == 10 then [] else c ∷ []
strip_newline (c ∷ d ∷ s) = c ∷ strip_newline (d ∷ s)

-- the number of minutes of an offset, with its sign
abbrev pub signed : Bool → ℕ → ℤ
signed true n = pos n
signed false zero = pos 0
signed false (suc n) = negsuc n

module _ (cal : Calendar) where
  open cal use {digit_of, datetime, strftime}

  -- `n` digits after the number `acc`, and the rest of the text
  unfoldable pub read_digits : ℕ → ℕ → Text → Option (ℕ × Text)
  read_digits zero acc s = some (acc, s)
  read_digits (suc n) acc [] = none
  read_digits (suc n) acc (c ∷ s) = elim (digit_of c) [
    | none ↦ none
    | some d ↦ read_digits n (acc * 10 + d) s
  ]

  -- a number of digits after a character
  unfoldable pub read_after : ℕ → ℕ → Text → Option (ℕ × Text)
  unfolding read_digits
  read_after c n [] = none
  read_after c n (d ∷ s) = if d == c then read_digits n 0 s else none

  -- the digits up to a character that is none
  unfoldable pub span_digits : Text → List ℕ × Text
  span_digits [] = ([], [])
  span_digits (c ∷ s) = elim (digit_of c) [
    | none ↦ ([], c ∷ s)
    | some d ↦ let (ds, rest) = span_digits s in (d ∷ ds, rest)
  ]

  abbrev pub number : ℕ → List ℕ → ℕ
  number acc [] = acc
  number acc (d ∷ ds) = number (acc * 10 + d) ds

  -- the fraction's first six digits
  unfoldable pub micro_of : List ℕ → ℕ
  micro_of ds = number 0 (take 6 (ds ++ 0 ∷ 0 ∷ 0 ∷ 0 ∷ 0 ∷ 0 ∷ []))

  -- `(\.\d+)?`
  unfoldable pub read_fraction : Text → Option (ℕ × Text)
  unfolding span_digits micro_of
  read_fraction [] = some (0, [])
  read_fraction (c ∷ s) =
      if c == b'.'
      then (let (ds, rest) = span_digits s in
          elim ds [ [] ↦ none | d ∷ more ↦ some (micro_of (d ∷ more), rest) ])
      else some (0, c ∷ s)

  abbrev pub minutes_after : Bool → Option (ℕ × Text) → Option ℤ
  minutes_after sign none = none
  minutes_after sign (some (hours, s)) = elim (read_after b':' 2 s) [
    | none ↦ none
    | some (minutes, []) ↦
        if ltb 23 hours || ltb 59 minutes then none else some (signed sign (hours * 60 + minutes))
    | some (minutes, c ∷ rest) ↦ none
  ]

  -- `(Z|[+-]\d{2}:\d{2})`, at the end
  unfoldable pub read_offset : Text → Option ℤ
  unfolding read_digits read_after
  read_offset [] = none
  read_offset (c ∷ s) =
      if c == b'Z'
      then elim s [ [] ↦ some (pos 0) | d ∷ r ↦ none ]
      else if c == b'+'
      then minutes_after true (read_digits 2 0 s)
      else if c == b'-'
      then minutes_after false (read_digits 2 0 s)
      else none

  -- the numbers after their separators, each of two digits
  unfoldable pub read_fields : List ℕ → Text → Option (List ℕ × Text)
  unfolding read_after
  read_fields [] s = some ([], s)
  read_fields (c ∷ cs) s = elim (read_after c 2 s) [
    | none ↦ none
    | some (n, rest) ↦ elim (read_fields cs rest) [
      | none ↦ none
      | some (ns, rest') ↦ some (n ∷ ns, rest')
    ]
  ]

  -- the match of `_RFC3339_RE` and the test of the offset
  unfoldable pub match_time : Text → Option (List ℕ × ℕ × ℤ)
  unfolding read_digits read_fields read_fraction read_offset
  match_time s = elim (read_digits 4 0 s) [
    | none ↦ none
    | some (year, s₁) ↦ elim (read_fields (b'-' ∷ b'-' ∷ b'T' ∷ b':' ∷ b':' ∷ []) s₁) [
      | none ↦ none
      | some (ns, s₂) ↦ elim (read_fraction s₂) [
        | none ↦ none
        | some (micro, s₃) ↦ elim (read_offset s₃) [
          | none ↦ none
          | some offset ↦ some (year ∷ ns, micro, offset)
        ]
      ]
    ]
  ]

  unfoldable pub parse_text : Text → Parsed
  unfolding match_time strip_newline
  parse_text s = elim (match_time (strip_newline s)) [
    | none ↦ invalid
    | some (ns, micro, offset) ↦ datetime ns micro offset
  ]

  -- a value that is not a text is a ValueError
  unfoldable pub parse_time : Json → Parsed
  unfolding parse_text codes
  parse_time null = invalid
  parse_time (bool b) = invalid
  parse_time (int n) = invalid
  parse_time (str s) = parse_text (codes s)
  parse_time (arr xs) = invalid
  parse_time (obj fs) = invalid

  -- six digits of a number below 1000000
  abbrev pub six_digits : ℕ → Text
  six_digits n =
      (48 + n / 100000 % 10)
      ∷ (48 + n / 10000 % 10)
      ∷ (48 + n / 1000 % 10)
      ∷ (48 + n / 100 % 10)
      ∷ (48 + n / 10 % 10)
      ∷ (48 + n % 10)
      ∷ []

  -- `rstrip("0")`
  unfoldable pub rstrip_zeros : Text → Text
  rstrip_zeros [] = []
  rstrip_zeros (c ∷ s) = elim (rstrip_zeros s) [
    | [] ↦ if c == 48 then [] else c ∷ []
    | d ∷ r ↦ c ∷ d ∷ r
  ]

  -- a time in UTC, in microseconds
  unfoldable pub canon_time : ℕ → Text
  unfolding rstrip_zeros
  canon_time t =
      strftime t
      ++ ((if t % 1000000 == 0 then [] else rstrip_zeros (b'.' ∷ six_digits (t % 1000000)))
          ++ b'Z' ∷ [])

abbrev pub is_hex : ℕ → Bool
is_hex c = (leb 48 c && leb c 57) || (leb b'a' c && leb c b'f')

-- 64 digits of lower case, and perhaps a newline
unfoldable pub is_fingerprint_text : Text → Bool
unfolding strip_newline
is_fingerprint_text s = let t = strip_newline s in length t == 64 && all is_hex t

unfoldable pub is_fingerprint : Json → Bool
unfolding is_fingerprint_text codes
is_fingerprint null = false
is_fingerprint (bool b) = false
is_fingerprint (int n) = false
is_fingerprint (str s) = is_fingerprint_text (codes s)
is_fingerprint (arr xs) = false
is_fingerprint (obj fs) = false
