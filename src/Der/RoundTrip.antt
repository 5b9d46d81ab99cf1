-- ===== src/Der/RoundTrip.antt =====
-- Encoding and decoding of app/derutil.py cancel: lengths, TLVs and the arcs of object identifiers.
use ab_b1b34dfe_mgf1_ocsp_bu.Prelude.{
  ℕ, suc, zero, ◌+◌, ◌*◌, ◌/◌, ◌%◌, ◌≤◌, ◌<◌, [], ◌∷◌, ◌++◌, some, true, false, leb, le→leb, ==_iff,
  ◌==◌, length, ◌≡◌, refl, ◌∙◌, arith, Bool-cases, inl, inr,
}
use ab_b1b34dfe_mgf1_ocsp_bu.Cert.{Bytes}
use ab_b1b34dfe_mgf1_ocsp_bu.Der.{read_base128, push_arc, arc_bytes}

-- a byte with the continuation bit
read_base128-continued :
    (acc n pos : ℕ) (bs : Bytes)
    → read_base128 acc pos ((128 + n % 128) ∷ bs) ≡ read_base128 (acc * 128 + n % 128) (pos + 1) bs
unfolding read_base128
read_base128-continued acc n pos bs =
    let e : leb 128 (128 + n % 128) ≡ true = le→leb 128 (128 + n % 128) (omega arith) in
    let f : (128 + n % 128) % 128 ≡ n % 128 = omega arith in rw (e, f) refl

-- the last byte
read_base128-last :
    (acc n pos : ℕ) (bs : Bytes)
    → read_base128 acc pos ((n % 128) ∷ bs) ≡ some (acc * 128 + n % 128, pos + 1, bs)
unfolding read_base128
read_base128-last acc n pos bs =
    let l : n % 128 < 128 = omega arith in
    let e : leb 128 (n % 128) ≡ false = ground arith in rw e refl

-- the bytes above the last one, read before the bytes `acc`, give the number
read-push_arc :
    (fuel n pos : ℕ) (acc rest : Bytes)
    → n ≤ fuel
    → (k : ℕ) × (read_base128 0 pos (push_arc fuel n acc ++ rest)
        ≡ read_base128 n (pos + k) (acc ++ rest))
      × (length (push_arc fuel n acc) ≡ k + length acc)
unfolding push_arc
read-push_arc zero n pos acc rest h =
    let e : n ≡ 0 = omega arith in
    let f : pos + 0 ≡ pos = omega arith in (0, rw (e, f) refl, omega arith)
read-push_arc (suc fuel) n pos acc rest h = elim (Bool-cases (n == 0)) [
  | inl z ↦
      let e : n ≡ 0 = (==_iff n 0).0 z in
      let f : pos + 0 ≡ pos = omega arith in (0, rw (z, e, f) refl, rw z (omega arith))
  | inr nz ↦
      let l : n / 128 ≤ fuel = ground arith in
      let (k, r, m) = read-push_arc fuel (n / 128) pos ((128 + n % 128) ∷ acc) rest l in
      let q : (n / 128) * 128 + n % 128 ≡ n = omega arith in
      let a : pos + k + 1 ≡ pos + suc k = omega arith in
      (
        suc k,
        rw nz (r ∙ read_base128-continued (n / 128) n (pos + k) (acc ++ rest) ∙ rw (q, a) refl),
        rw nz (omega (arith, m)),
      )
]

-- An arc that is encoded, with any bytes after it, decodes to its number, and the position is that
-- after its bytes.
pub read_base128-arc_bytes :
    (n pos : ℕ) (rest : Bytes)
    → read_base128 0 pos (arc_bytes n ++ rest) ≡ some (n, pos + length (arc_bytes n), rest)
unfolding arc_bytes
read_base128-arc_bytes n pos rest =
    let (k, r, m) = read-push_arc n (n / 128) pos (n % 128 ∷ []) rest (omega arith) in
    let q : (n / 128) * 128 + n % 128 ≡ n = omega arith in
    let a : pos + k + 1 ≡ pos + length (push_arc n (n / 128) (n % 128 ∷ [])) = omega (arith, m) in
    r ∙ read_base128-last (n / 128) n (pos + k) rest ∙ rw (q, a) refl
