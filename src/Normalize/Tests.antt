-- ===== src/Normalize/Tests.antt =====
-- Runs of `validate_input` of app/adjudicate.py, with a calendar whose months and days count to 100.
use Prim.Native.Char.{char, IsScalar}
use ab_b1b34dfe_mgf1_ocsp_bu.Prelude.{
  ℕ, zero, suc, ◌+◌, ◌*◌, ◌/◌, ◌%◌, ◌<◌, String, List, [], ◌∷◌, ◌++◌, Option, none, some, true,
  false, if◌then◌else◌, ltb, leb, ◌&&◌, ◌-◌, ◌==◌, ◌≡◌, ◌∙◌, refl, ap, arith, Bool-cases,
  Option-cases, inl, inr,
}
use ab_b1b34dfe_mgf1_ocsp_bu.Prelude.Int.{ℤ, pos}
use ab_b1b34dfe_mgf1_ocsp_bu.Cert.{Text, Bytes}
use ab_b1b34dfe_mgf1_ocsp_bu.Canonical.{
  Json, int, str, arr, obj, Fields, field, end, nil, cons, codes,
}
use ab_b1b34dfe_mgf1_ocsp_bu.Canonical.Times.{
  Calendar, Parsed, parsed, invalid, parse_time, canon_time, six_digits, rstrip_zeros, match_time,
  strip_newline, parse_text,
}
use ab_b1b34dfe_mgf1_ocsp_bu.Canonical.RoundTrip.{
  Date, stamp, IsCalendar, InRange, parse_text-canon_time,
}
use ab_b1b34dfe_mgf1_ocsp_bu.Api.{ok, err, Host, validation, unexpected}
use ab_b1b34dfe_mgf1_ocsp_bu.Parse.Samples.{lib}
use ab_b1b34dfe_mgf1_ocsp_bu.Normalize.{Normalized, input_json, validate_input}
use ab_b1b34dfe_mgf1_ocsp_bu.Normalize.Normal.{IsNormal}
use ab_b1b34dfe_mgf1_ocsp_bu.Normalize.Idempotent.{validate_input-idempotent}

abbrev date : ℕ → Date
date t = record {
  year = t / 10000000000000000 % 10000;
  month = t / 100000000000000 % 100;
  day = t / 1000000000000 % 100;
  hour = t / 10000000000 % 100;
  minute = t / 100000000 % 100;
  second = t / 1000000 % 100;
}

abbrev capped : ℕ → Parsed
capped t = if ltb t 100000000000000000000 then parsed t else invalid

abbrev join_date : List ℕ → ℕ → ℤ → Parsed
join_date (y ∷ mo ∷ d ∷ h ∷ mi ∷ s ∷ []) micro offset =
    capped ((((((y * 100 + mo) * 100 + d) * 100 + h) * 100 + mi) * 100 + s) * 1000000 + micro)
join_date _ micro offset = invalid

abbrev calendar : Calendar
calendar = record {
  digit_of = λ c. if leb 48 c && leb c 57 then some (c - 48) else none;
  datetime = join_date;
  strftime = λ t. stamp (date t) [];
}

digit_of_lem : (d : ℕ) → d < 10 → calendar.digit_of (48 + d) ≡ some d
digit_of_lem d h = ground arith

join_date_lem :
    (t : ℕ)
    → t < 100000000000000000000
    → join_date
        ((date t).year
          ∷ (date t).month
          ∷ (date t).day
          ∷ (date t).hour
          ∷ (date t).minute
          ∷ (date t).second
          ∷ [])
        (t % 1000000)
        (pos 0)
      ≡ parsed t
join_date_lem t h = ground arith

abbrev calendar_laws : IsCalendar calendar
calendar_laws = record {
  first = 0;
  limit = 100000000000000000000;
  date = date;
  digit_lem = digit_of_lem;
  digit_zulu = refl;
  year_small = λ t. omega arith;
  month_small = λ t. omega arith;
  day_small = λ t. omega arith;
  hour_small = λ t. omega arith;
  minute_small = λ t. omega arith;
  second_small = λ t. omega arith;
  strftime_lem = λ t h k. refl;
  datetime_lem = λ t h k. join_date_lem t k;
}

-- a text of ASCII characters

abbrev IsAscii : Text → Type 0
IsAscii [] = Unit
IsAscii (c ∷ s) = (c < 128) × IsAscii s

IsScalar-ascii : (n : ℕ) → n < 128 → IsScalar n
IsScalar-ascii n h = ground arith

abbrev text_of : Text → String
text_of [] = String.[]
text_of (c ∷ s) = String.◌∷◌ (char (c % 128) (IsScalar-ascii (c % 128) (omega arith))) (text_of s)

codes-text_of : (s : Text) → IsAscii s → codes (text_of s) ≡ s
unfolding codes
codes-text_of [] h = refl
codes-text_of (c ∷ s) h = rw (codes-text_of s h.1) (ap (λ d. d ∷ s) (omega arith))

rstrip_zeros-IsAscii : (s : Text) → IsAscii s → IsAscii (rstrip_zeros calendar s)
unfolding rstrip_zeros
rstrip_zeros-IsAscii [] h = tt
rstrip_zeros-IsAscii (c ∷ s) h = ground (arith, rstrip_zeros-IsAscii s h.1)

IsAscii-append : (s t : Text) → IsAscii s → IsAscii t → IsAscii (s ++ t)
IsAscii-append [] t h k = k
IsAscii-append (c ∷ s) t h k = (h.0, IsAscii-append s t h.1 k)

canon_time-IsAscii : (t : ℕ) → IsAscii (canon_time calendar t)
unfolding canon_time
canon_time-IsAscii t = IsAscii-append (stamp (date t) []) _ (omega arith) (
    IsAscii-append _ (b'Z' ∷ [])
      (elim (Bool-cases (t % 1000000 == 0)) [
        | inl e ↦ rw e tt
        | inr e ↦
            rw e (rstrip_zeros-IsAscii (b'.' ∷ six_digits calendar (t % 1000000)) (omega arith))
      ])
      (omega arith))

text_law : (t : ℕ) → codes (text_of (canon_time calendar t)) ≡ canon_time calendar t
text_law t = codes-text_of (canon_time calendar t) (canon_time-IsAscii t)

join_date-lt :
    (ns : List ℕ) (micro : ℕ) (offset : ℤ) (t : ℕ)
    → join_date ns micro offset ≡ parsed t
    → t < 100000000000000000000
join_date-lt (y ∷ mo ∷ d ∷ h ∷ mi ∷ s ∷ []) micro offset t e = ground arith
join_date-lt [] micro offset t e = absurd (cc)
join_date-lt _ micro offset t e = absurd (cc)

parse_time-lt : (v : Json) (t : ℕ) → parse_time calendar v ≡ parsed t → t < 100000000000000000000
unfolding parse_time parse_text
parse_time-lt (str s) t h = elim (Option-cases (match_time calendar (strip_newline (codes s)))) [
  | inl e ↦ absurd (let k = rw (parse_text, e) at h in cc)
  | inr ((ns, micro, offset), e) ↦ join_date-lt ns micro offset t (rw (parse_text, e) at h)
]
parse_time-lt v t h = absurd (cc)

-- an encoding of bytes: each as so many ones and a dot

abbrev ones : ℕ → String → String
ones zero s = String.◌∷◌ "." s
ones (suc n) s = String.◌∷◌ "1" (ones n s)

abbrev encode : Bytes → String
encode [] = String.[]
encode (n ∷ ns) = ones n (encode ns)

abbrev cons_byte : ℕ → Option Bytes → Option Bytes
cons_byte n none = none
cons_byte n (some bytes) = some (n ∷ bytes)

abbrev decode : ℕ → Text → Option Bytes
decode n [] = some []
decode n (c ∷ s) = elim (c == b'.') [ true ↦ cons_byte n (decode 0 s) | false ↦ decode (suc n) s ]

decode-ones :
    (n k : ℕ) (s : String) → decode k (codes (ones n s)) ≡ cons_byte (k + n) (decode 0 (codes s))
unfolding codes
decode-ones zero k s = ap (λ m. cons_byte m (decode 0 (codes s))) (omega arith)
decode-ones (suc n) k s =
    decode-ones n (suc k) s ∙ ap (λ m. cons_byte m (decode 0 (codes s))) (omega arith)

decode-encode : (bytes : Bytes) → decode 0 (codes (encode bytes)) ≡ some bytes
unfolding codes
decode-encode [] = refl
decode-encode (n ∷ ns) =
    decode-ones n 0 (encode ns) ∙ rw (decode-encode ns) (ap (λ m. some (m ∷ ns)) (omega arith))

-- the hashes and the parser are not called

abbrev host : Host
host = record {
  sha256_text = λ t. "";
  sha256_bytes = λ d. "";
  b64d = λ s. decode 0 (codes s);
  text_of = text_of;
  parse_json = λ t. none;
  calendar = calendar;
  x509 = lib;
}

abbrev fp_a : String
fp_a = "aaaaaaaaaaaaaaaaaaaaaaaaaaaaaaaaaaaaaaaaaaaaaaaaaaaaaaaaaaaaaaaa"

abbrev fp_b : String
fp_b = "bbbbbbbbbbbbbbbbbbbbbbbbbbbbbbbbbbbbbbbbbbbbbbbbbbbbbbbbbbbbbbbb"

abbrev sample : String → Json → Fields
sample signed_at policies = field "artifact_digest" (str fp_a) (
    field "signature" (str "11.") (
      field "signature_algorithm" (str "ed25519") (
        field "signed_at" (str signed_at) (
          field "knowledge_cutoff" (str "2026-01-01T00:00:00Z") (
            field "leaf_fingerprint" (str fp_b) (
              field "trust_anchors" (arr (cons (str fp_b) (cons (str fp_a) (cons (str fp_b) nil))))
                (field "initial_policy_set" policies end)))))))

-- a fraction with zeros at its end, anchors out of order, and no policies
abbrev given : Fields
given = sample "2025-06-01T12:30:00.2500Z" (arr nil)

abbrev normal : Normalized
normal = record {
  artifact_digest = fp_a;
  signature = "11.";
  signature_algorithm = "ed25519";
  signed_at = "2025-06-01T12:30:00.25Z";
  knowledge_cutoff = "2026-01-01T00:00:00Z";
  leaf_fingerprint = fp_b;
  initial_policy_set = "anyPolicy" ∷ [];
  trust_anchors = fp_a ∷ fp_b ∷ [];
}

validates : validate_input host encode (obj given) ≡ ok (input_json normal)
unfolding validate_input
validates = refl

-- an unpadded second arc, and the missing dot
rejects_policies :
    (validate_input host encode (obj (sample "2025-06-01T12:30:00Z" (arr (cons (str "1.02") nil))))
      ≡ err validation)
    × (validate_input host encode (obj (sample "2025-06-01T12:30:00Z" (arr (cons (str "12") nil))))
        ≡ err validation)
unfolding validate_input
rejects_policies = (refl, refl)

-- a number among the policies raises TypeError
policy_number :
    validate_input host encode (obj (sample "2025-06-01T12:30:00Z" (arr (cons (int (pos 5)) nil))))
    ≡ err unexpected
unfolding validate_input
policy_number = refl

validate_input-idempotent_example :
    (n : Normalized) × IsNormal host encode (InRange calendar_laws) n
    × (input_json normal ≡ input_json n)
    × (validate_input host encode (input_json normal) ≡ ok (input_json normal))
validate_input-idempotent_example =
    validate_input-idempotent host encode decode-encode calendar_laws text_law given
      (λ name v t e h. (omega arith, parse_time-lt v t h)) (input_json normal) validates

parse_text-canon_time_example :
    parse_text calendar (canon_time calendar 20250601123000250000) ≡ parsed 20250601123000250000
parse_text-canon_time_example =
    parse_text-canon_time calendar calendar_laws 20250601123000250000 (omega arith)
