-- ===== src/Canonical/RoundTrip.antt =====
-- `parse_time` of app/canonical.py on what `canon_time` renders. `IsCalendar` is what is relied on of
-- the standard library's `datetime`, for the times from `first` up to `limit`: a year has four digits
-- in `strftime` up to 9999, and from 1000 on, but not on every platform before.
use ab_b1b34dfe_mgf1_ocsp_bu.Prelude.{
  ℕ, zero, suc, ◌+◌, ◌/◌, ◌%◌, ◌≤◌, ◌<◌, List, [], ◌∷◌, ◌++◌, none, some, if◌then◌else◌, ◌==◌, take,
  length, Bool-cases, inl, inr, ◌≡◌, ◌≢◌, refl, ap, subst, ◌∙◌, arith,
}
use ab_b1b34dfe_mgf1_ocsp_bu.Prelude.Int.{ℤ, pos}
use ab_b1b34dfe_mgf1_ocsp_bu.Cert.{Text}
use ab_b1b34dfe_mgf1_ocsp_bu.Canonical.Times.{
  parsed, Calendar, strip_newline, read_digits, read_after, span_digits, number, micro_of,
  read_fraction, read_offset, read_fields, match_time, parse_text, six_digits, rstrip_zeros,
  canon_time,
}

abbrev pub digit : ℕ → ℕ
digit d = 48 + d % 10

abbrev pub four : ℕ → Text → Text
four n s = digit (n / 1000) ∷ digit (n / 100) ∷ digit (n / 10) ∷ digit n ∷ s

abbrev pub two : ℕ → Text → Text
two n s = digit (n / 10) ∷ digit n ∷ s

pub record Date : Type 0 where
  pub year : ℕ
  pub month : ℕ
  pub day : ℕ
  pub hour : ℕ
  pub minute : ℕ
  pub second : ℕ

-- `%Y-%m-%dT%H:%M:%S`, before a rest
abbrev after_year : Date → Text → Text
after_year d s =
    b'-'
    ∷ two d.month
        (b'-' ∷ two d.day (b'T' ∷ two d.hour (b':' ∷ two d.minute (b':' ∷ two d.second s))))

abbrev pub stamp : Date → Text → Text
stamp d s = four d.year (after_year d s)

pub record IsCalendar (cal : Calendar) : Type 0 where
  pub first : ℕ
  pub limit : ℕ
  pub date : ℕ → Date
  pub digit_lem : (d : ℕ) → d < 10 → cal.digit_of (48 + d) ≡ some d
  pub digit_zulu : cal.digit_of b'Z' ≡ none
  pub year_small : (t : ℕ) → (date t).year < 10000
  pub month_small : (t : ℕ) → (date t).month < 100
  pub day_small : (t : ℕ) → (date t).day < 100
  pub hour_small : (t : ℕ) → (date t).hour < 100
  pub minute_small : (t : ℕ) → (date t).minute < 100
  pub second_small : (t : ℕ) → (date t).second < 100
  pub strftime_lem : (t : ℕ) → first ≤ t → t < limit → cal.strftime t ≡ stamp (date t) []
  pub datetime_lem :
      (t : ℕ)
      → first ≤ t
      → t < limit
      → cal.datetime
          ((date t).year
            ∷ (date t).month
            ∷ (date t).day
            ∷ (date t).hour
            ∷ (date t).minute
            ∷ (date t).second
            ∷ [])
          (t % 1000000)
          (pos 0)
        ≡ parsed t

-- the times that the calendar is known for
abbrev pub InRange : {cal : Calendar} → IsCalendar cal → ℕ → Type 0
InRange laws t = (laws.first ≤ t) × (t < laws.limit)

strip_newline-zulu : (s : Text) → strip_newline (s ++ b'Z' ∷ []) ≡ s ++ b'Z' ∷ []
unfolding strip_newline
strip_newline-zulu [] = refl
strip_newline-zulu (c ∷ []) = refl
strip_newline-zulu (c ∷ d ∷ s) = ap (λ t. c ∷ t) (strip_newline-zulu (d ∷ s))

module _ (cal : Calendar) (laws : IsCalendar cal) where
  read_digits-two : (n : ℕ) (s : Text) → n < 100 → read_digits cal 2 0 (two n s) ≡ some (n, s)
  unfolding read_digits
  read_digits-two n s h =
      rw (laws.digit_lem (n / 10 % 10) (omega arith), laws.digit_lem (n % 10) (omega arith))
        (ap (λ m. some (m, s)) (omega arith))

  read_digits-four : (n : ℕ) (s : Text) → n < 10000 → read_digits cal 4 0 (four n s) ≡ some (n, s)
  unfolding read_digits
  read_digits-four n s h =
      rw
        (
          laws.digit_lem (n / 1000 % 10) (omega arith),
          laws.digit_lem (n / 100 % 10) (omega arith),
          laws.digit_lem (n / 10 % 10) (omega arith),
          laws.digit_lem (n % 10) (omega arith),
        )
        (ap (λ m. some (m, s)) (omega arith))

-- the digits of a fraction without the zeros at their end
abbrev strip : List ℕ → List ℕ
strip [] = []
strip (d ∷ ds) = elim (strip ds) [ [] ↦ if d == 0 then [] else d ∷ [] | e ∷ r ↦ d ∷ e ∷ r ]

abbrev zeros : ℕ → List ℕ
zeros zero = []
zeros (suc k) = 0 ∷ zeros k

abbrev chars : List ℕ → Text
chars [] = []
chars (d ∷ ds) = (48 + d) ∷ chars ds

abbrev AllDigits : List ℕ → Type 0
AllDigits [] = Unit
AllDigits (d ∷ ds) = (d < 10) × AllDigits ds

take-strip : (ds : List ℕ) (k : ℕ) → length ds ≤ k → take (length ds) (strip ds ++ zeros k) ≡ ds
take-strip [] k h = refl
take-strip (d ∷ ds) zero h = absurd (omega arith)
take-strip (d ∷ ds) (suc k) h = ground (arith, take-strip ds k, take-strip ds (suc k))

strip-AllDigits : (ds : List ℕ) → AllDigits ds → AllDigits (strip ds)
strip-AllDigits [] h = tt
strip-AllDigits (d ∷ ds) h = ground (arith, strip-AllDigits ds h.1)

module _ (cal : Calendar) (laws : IsCalendar cal) where
  rstrip_zeros-chars : (ds : List ℕ) → rstrip_zeros cal (chars ds) ≡ chars (strip ds)
  unfolding rstrip_zeros
  rstrip_zeros-chars [] = refl
  rstrip_zeros-chars (d ∷ ds) = ground (arith, rstrip_zeros-chars ds)

  span_digits-chars :
      (ds : List ℕ) → AllDigits ds → span_digits cal (chars ds ++ b'Z' ∷ []) ≡ (ds, b'Z' ∷ [])
  unfolding span_digits
  span_digits-chars [] h = rw laws.digit_zulu refl
  span_digits-chars (d ∷ ds) h = rw (laws.digit_lem d h.0, span_digits-chars ds h.1) refl

  micro_of-strip : (ds : List ℕ) → length ds ≡ 6 → micro_of cal (strip ds) ≡ number cal 0 ds
  unfolding micro_of
  micro_of-strip ds h =
      ap (number cal 0)
        (subst (λ n. take n (strip ds ++ zeros 6) ≡ ds) h (take-strip ds 6 (omega arith)))

  rstrip_zeros-dot : (s : Text) → rstrip_zeros cal (b'.' ∷ s) ≡ b'.' ∷ rstrip_zeros cal s
  unfolding rstrip_zeros
  rstrip_zeros-dot s = ground arith

  abbrev six : ℕ → List ℕ
  six m =
      (m / 100000 % 10)
      ∷ (m / 10000 % 10)
      ∷ (m / 1000 % 10)
      ∷ (m / 100 % 10)
      ∷ (m / 10 % 10)
      ∷ (m % 10)
      ∷ []

  strip-ne-nil : (m : ℕ) → m < 1000000 → m ≢ 0 → strip (six m) ≢ []
  strip-ne-nil m h ne e =
      let none_left : take 6 (strip (six m) ++ zeros 6) ≡ six m =
        take-strip (six m) 6 (omega arith) in
      ne (ground (arith, rw e at none_left))

  read_fraction-digits :
      (ds : List ℕ)
      → AllDigits ds
      → ds ≢ []
      → read_fraction cal (b'.' ∷ (chars ds ++ b'Z' ∷ [])) ≡ some (micro_of cal ds, b'Z' ∷ [])
  unfolding read_fraction
  read_fraction-digits [] h ne = absurd (ne refl)
  read_fraction-digits (d ∷ ds) h ne = ground (arith, span_digits-chars (d ∷ ds) h)

  abbrev fraction : ℕ → Text
  fraction m = if m == 0 then [] else rstrip_zeros cal (b'.' ∷ six_digits cal m)

  read_fraction-canon :
      (m : ℕ) → m < 1000000 → read_fraction cal (fraction m ++ b'Z' ∷ []) ≡ some (m, b'Z' ∷ [])
  read_fraction-canon m h = elim (Bool-cases (m == 0)) [
    | inl e ↦ rw e (unfold read_fraction in ap (λ k. some (k, b'Z' ∷ [])) (ground arith))
    | inr e ↦
        rw (e, rstrip_zeros-dot (chars (six m)), rstrip_zeros-chars (six m))
          (read_fraction-digits (strip (six m)) (strip-AllDigits (six m) (omega arith))
              (strip-ne-nil m h (ground arith))
            ∙ ap (λ k. some (k, b'Z' ∷ [])) (micro_of-strip (six m) refl ∙ omega arith))
  ]

  read_fields-cons :
      (c n : ℕ) (cs ns : List ℕ) (s r : Text)
      → n < 100
      → read_fields cal cs s ≡ some (ns, r)
      → read_fields cal (c ∷ cs) (c ∷ two n s) ≡ some (n ∷ ns, r)
  unfolding read_fields read_after
  read_fields-cons c n cs ns s r h e = ground (arith, read_digits-two cal laws n s h, e)

  abbrev marks : List ℕ
  marks = b'-' ∷ b'-' ∷ b'T' ∷ b':' ∷ b':' ∷ []

  read_fields-nil : (s : Text) → read_fields cal [] s ≡ some ([], s)
  unfolding read_fields
  read_fields-nil s = refl

  read_fields-stamp :
      (t : ℕ) (s : Text)
      → (let d = laws.date t in
          read_fields cal marks (after_year d s)
          ≡ some (d.month ∷ d.day ∷ d.hour ∷ d.minute ∷ d.second ∷ [], s))
  read_fields-stamp t s = read_fields-cons b'-' _ _ _ _ _ (laws.month_small t) (
      read_fields-cons b'-' _ _ _ _ _ (laws.day_small t) (
        read_fields-cons b'T' _ _ _ _ _ (laws.hour_small t) (
          read_fields-cons b':' _ _ _ _ _ (laws.minute_small t)
            (read_fields-cons b':' _ _ _ _ _ (laws.second_small t) (read_fields-nil s)))))

  canon_time-stamp :
      (t : ℕ)
      → InRange laws t
      → canon_time cal t ≡ stamp (laws.date t) (fraction (t % 1000000) ++ b'Z' ∷ [])
  unfolding canon_time
  canon_time-stamp t h = rw (laws.strftime_lem t h.0 h.1) refl

  match_time-stamp :
      (t m : ℕ)
      → m < 1000000
      → (let d = laws.date t in
          match_time cal (stamp d (fraction m ++ b'Z' ∷ []))
          ≡ some (d.year ∷ d.month ∷ d.day ∷ d.hour ∷ d.minute ∷ d.second ∷ [], m, pos 0))
  unfolding match_time read_offset
  match_time-stamp t m h = ground (
    arith,
    read_digits-four cal laws (laws.date t).year
        (after_year (laws.date t) (fraction m ++ b'Z' ∷ [])) (laws.year_small t),
    read_fields-stamp t (fraction m ++ b'Z' ∷ []),
    read_fraction-canon m h,
  )

  parse_text-match :
      (s : Text) (ns : List ℕ) (micro : ℕ) (offset : ℤ)
      → strip_newline s ≡ s
      → match_time cal s ≡ some (ns, micro, offset)
      → parse_text cal s ≡ cal.datetime ns micro offset
  unfolding parse_text
  parse_text-match s ns micro offset e h = rw (parse_text, e, h) refl

  -- What `canon_time` renders is read back as the same time, for times that the calendar is known for.
  pub parse_text-canon_time :
      (t : ℕ) → InRange laws t → parse_text cal (canon_time cal t) ≡ parsed t
  parse_text-canon_time t h =
      ap (parse_text cal) (canon_time-stamp t h)
      ∙ parse_text-match _ _ _ _ (strip_newline-zulu (stamp (laws.date t) (fraction (t % 1000000))))
          (match_time-stamp t (t % 1000000) (omega arith))
      ∙ laws.datetime_lem t h.0 h.1
