-- ===== src/Der/Tlv.antt =====
-- Encoding a TLV and reading it back, for `encode_tlv` and `read_tlv` of app/derutil.py.
use ab_b1b34dfe_mgf1_ocsp_bu.Prelude.{
  ℕ, suc, zero, ◌+◌, ◌-◌, ◌*◌, ◌/◌, ◌%◌, ◌≤◌, ◌<◌, [], ◌∷◌, ◌++◌, append_assoc, some, true, false,
  ltb, leb, le→leb, ==_iff, ◌==◌, length, length-append, take, ◌≡◌, ◌≢◌, refl, ap, ◌∙◌, arith,
  Bool-cases, inl, inr,
}
use ab_b1b34dfe_mgf1_ocsp_bu.Cert.{Bytes}
use ab_b1b34dfe_mgf1_ocsp_bu.Der.{
  to_bytes, from_bytes, content_at, long_form, read_length, read_tlv, encode_tlv, length_bytes,
  slice,
}

from_bytes-to_bytes :
    (fuel n : ℕ) (acc : Bytes) → n ≤ fuel → from_bytes 0 (to_bytes fuel n acc) ≡ from_bytes n acc
unfolding to_bytes from_bytes
from_bytes-to_bytes zero n acc h = let e : n ≡ 0 = omega arith in rw e refl
from_bytes-to_bytes (suc fuel) n acc h = elim (Bool-cases (n == 0)) [
  | inl z ↦ let e : n ≡ 0 = (==_iff n 0).0 z in rw (z, e) refl
  | inr nz ↦
      let l : n / 256 ≤ fuel = ground arith in
      let q : (n / 256) * 256 + n % 256 ≡ n = omega arith in
      rw nz (from_bytes-to_bytes fuel (n / 256) (n % 256 ∷ acc) l ∙ ap (λ t. from_bytes t acc) q)
]

from_bytes-nil : (n : ℕ) → from_bytes n [] ≡ n
unfolding from_bytes
from_bytes-nil n = refl

take-length : (b c : Bytes) → take (length b) (b ++ c) ≡ b
take-length [] c = refl
take-length (x ∷ b) c = ap (λ t. x ∷ t) (take-length b c)

length-to_bytes : (fuel n : ℕ) (acc : Bytes) → length acc ≤ length (to_bytes fuel n acc)
unfolding to_bytes
length-to_bytes zero n acc = omega arith
length-to_bytes (suc fuel) n acc = elim (Bool-cases (n == 0)) [
  | inl z ↦ rw z (omega arith)
  | inr nz ↦ rw nz (omega (arith, length-to_bytes fuel (n / 256) (n % 256 ∷ acc)))
]

-- the length of a long form is not 0
to_bytes-long : (n : ℕ) → ltb n 128 ≡ false → 1 ≤ length (to_bytes n n [])
unfolding to_bytes
to_bytes-long zero h = absurd (cc)
to_bytes-long (suc n) h =
    let e : (suc n == 0) ≡ false = ground arith in
    rw e (omega (arith, length-to_bytes n (suc n / 256) (suc n % 256 ∷ [])))

content_at_lem :
    (bytes : Bytes) (tag start n : ℕ)
    → start + n ≤ length bytes
    → content_at bytes tag start n ≡ some (tag, start, start + n)
content_at_lem bytes tag start n h = ground arith

-- the long form, after a tag and the length's first byte
long_form_lem :
    (tag head n : ℕ) (b rest : Bytes)
    → b ≡ to_bytes n n []
    → 1 ≤ length b
    → n ≤ length rest
    → long_form (tag ∷ head ∷ (b ++ rest)) tag 2 (length b)
      ≡ some (tag, 2 + length b, 2 + length b + n)
long_form_lem tag head n b rest e l m =
    let s : slice (tag ∷ head ∷ (b ++ rest)) 2 (2 + length b) ≡ b =
      let q : 2 + length b - 2 ≡ length b = omega arith in rw q (take-length b rest) in
    let f : from_bytes 0 (slice (tag ∷ head ∷ (b ++ rest)) 2 (2 + length b)) ≡ n =
      ap (from_bytes 0) (s ∙ e) ∙ from_bytes-to_bytes n n [] (omega arith) ∙ from_bytes-nil n in
    rw f (ground (arith, length-append b rest))

read_tlv-tag :
    (tag : ℕ) (bs : Bytes) → tag % 32 ≢ 31 → read_tlv (tag ∷ bs) 0 ≡ read_length (tag ∷ bs) tag 1
unfolding read_tlv
read_tlv-tag tag bs h = ground arith

read_length-short :
    (tag n : ℕ) (bs : Bytes)
    → n < 128
    → n ≤ length bs
    → read_length (tag ∷ n ∷ bs) tag 1 ≡ some (tag, 2, 2 + n)
unfolding read_length
read_length-short tag n bs h k = ground arith

read_length-long :
    (tag n : ℕ) (bs : Bytes)
    → n < 128
    → read_length (tag ∷ (128 + n) ∷ bs) tag 1 ≡ long_form (tag ∷ (128 + n) ∷ bs) tag 2 n
unfolding read_length
read_length-long tag n bs h =
    let e : leb 128 (128 + n) ≡ true = le→leb 128 (128 + n) (omega arith) in
    let f : (128 + n) % 128 ≡ n = omega arith in rw (e, f) refl

-- the bytes of a length, and how reading it goes on
read_length-length_bytes :
    (tag n : ℕ) (rest : Bytes)
    → n ≤ length rest
    → length (length_bytes n) ≤ 128
    → read_length (tag ∷ (length_bytes n ++ rest)) tag 1
      ≡ some (tag, 1 + length (length_bytes n), 1 + length (length_bytes n) + n)
unfolding length_bytes
read_length-length_bytes tag n rest h k = elim (Bool-cases (ltb n 128)) [
  | inl short ↦ rw short (read_length-short tag n rest (ground arith) h)
  | inr long ↦
      let b = to_bytes n n [] in
      let m : length b < 128 = ground arith in
      let q : 1 + suc (length b) ≡ 2 + length b = omega arith in
      rw (long, q)
        (read_length-long tag (length b) (b ++ rest) m
          ∙ long_form_lem tag (128 + length b) n b rest refl (to_bytes-long n long) h)
]

-- A TLV that is encoded, with any bytes after it, reads back as its tag with the bounds of its
-- contents; the tag is not a multi-byte one, and the length takes fewer than 128 bytes.
pub read_tlv-encode_tlv :
    (tag : ℕ) (content rest : Bytes)
    → tag % 32 ≢ 31
    → length (length_bytes (length content)) ≤ 128
    → read_tlv (encode_tlv tag content ++ rest) 0
      ≡ some (
        tag,
        1 + length (length_bytes (length content)),
        1 + length (length_bytes (length content)) + length content,
      )
unfolding encode_tlv
read_tlv-encode_tlv tag content rest t h =
    let n = length content in
    let l : n ≤ length (content ++ rest) = omega (arith, length-append content rest) in
    ap (λ b. read_tlv (tag ∷ b) 0) (append_assoc (length_bytes n) content rest)
    ∙ read_tlv-tag tag (length_bytes n ++ (content ++ rest)) t
    ∙ read_length-length_bytes tag n (content ++ rest) l h
