-- ===== src/Der/Bounds.antt =====
-- Where the reader of app/derutil.py stops: a TLV lies inside its bytes, and its contents start after
-- the tag and the length.
use ab_b1b34dfe_mgf1_ocsp_bu.Prelude.{
  ℕ, ◌+◌, ◌%◌, ◌≤◌, ◌<◌, some, leb, length, get_elem?, ◌≡◌, arith, Bool-cases, Option-cases, inl,
  inr,
}
use ab_b1b34dfe_mgf1_ocsp_bu.Cert.{Bytes}
use ab_b1b34dfe_mgf1_ocsp_bu.Der.{
  Tlv, content_at, long_form, read_length, read_tlv, slice, from_bytes,
}

-- the bounds of what is read from `pos` on
abbrev pub IsInside : Bytes → ℕ → Tlv → Type 0
IsInside bytes pos (tag, start, end) = (pos < start) × (start ≤ end) × (end ≤ length bytes)

content_at-IsInside :
    (bytes : Bytes) (tag start n pos : ℕ) (r : Tlv)
    → pos < start
    → content_at bytes tag start n ≡ some r
    → IsInside bytes pos r
content_at-IsInside bytes tag start n pos (t, a, b) l h = ground arith

long_form-IsInside :
    (bytes : Bytes) (tag pos n : ℕ) (r : Tlv)
    → long_form bytes tag pos n ≡ some r
    → IsInside bytes pos r
long_form-IsInside bytes tag pos n (t, a, b) h =
    content_at-IsInside bytes tag (pos + n) (from_bytes 0 (slice bytes pos (pos + n))) pos (t, a, b)
      (ground arith) (ground arith)

read_length-IsInside :
    (bytes : Bytes) (tag pos : ℕ) (r : Tlv)
    → read_length bytes tag pos ≡ some r
    → IsInside bytes pos r
unfolding read_length
read_length-IsInside bytes tag pos (t, a, b) h = elim (Option-cases (get_elem? bytes pos)) [
  | inl e ↦ absurd (ground arith)
  | inr (n, e) ↦ elim (Bool-cases (leb 128 n)) [
    | inl long ↦
        let k = long_form-IsInside bytes tag (pos + 1) (n % 128) (t, a, b) (ground arith) in
        (omega arith, k.1, k.2)
    | inr short ↦
        content_at-IsInside bytes tag (pos + 1) n pos (t, a, b) (omega arith) (ground arith)
  ]
]

-- A TLV that is read at `pos` has its contents at least two bytes further on and ends inside the
-- bytes.
pub read_tlv-IsInside :
    (bytes : Bytes) (pos : ℕ) (r : Tlv) → read_tlv bytes pos ≡ some r → IsInside bytes (pos + 1) r
unfolding read_tlv
read_tlv-IsInside bytes pos r h = elim (Option-cases (get_elem? bytes pos)) [
  | inl e ↦ absurd (ground arith)
  | inr (tag, e) ↦ read_length-IsInside bytes tag (pos + 1) r (ground arith)
]
