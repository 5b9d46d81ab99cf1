-- ===== src/Der/Oid.antt =====
-- Encoding an object identifier and reading it back, for `oid_to_der` and `der_to_oid` of
-- app/derutil.py.
use ab_b1b34dfe_mgf1_ocsp_bu.Prelude.{
  ℕ, suc, zero, ◌+◌, ◌-◌, ◌*◌, ◌/◌, ◌%◌, ◌≤◌, ◌<◌, List, [], ◌∷◌, ◌++◌, append_assoc, Option, none,
  some, true, false, ltb, ◌==◌, length, length-append, drop, ◌≡◌, refl, ap, sym, ◌∙◌, arith,
  Bool-cases, inl, inr, subst, ◌⊎◌,
}
use ab_b1b34dfe_mgf1_ocsp_bu.Cert.{Bytes}
use ab_b1b34dfe_mgf1_ocsp_bu.Der.{
  ◌>>=◌, arc_bytes, arcs_bytes, push_arc, read_base128, read_arcs, expect, first_arcs, der_to_oid,
  oid_content, encode_tlv, read_tlv, length_bytes,
}
use ab_b1b34dfe_mgf1_ocsp_bu.Der.RoundTrip.{read_base128-arc_bytes}
use ab_b1b34dfe_mgf1_ocsp_bu.Der.Tlv.{read_tlv-encode_tlv}

length-push_arc : (fuel n : ℕ) (acc : Bytes) → length acc ≤ length (push_arc fuel n acc)
unfolding push_arc
length-push_arc zero n acc = omega arith
length-push_arc (suc fuel) n acc = elim (Bool-cases (n == 0)) [
  | inl z ↦ rw z (omega arith)
  | inr nz ↦ rw nz (omega (arith, length-push_arc fuel (n / 128) ((128 + n % 128) ∷ acc)))
]

length-arc_bytes : (n : ℕ) → 1 ≤ length (arc_bytes n)
unfolding arc_bytes
length-arc_bytes n = omega (arith, length-push_arc n (n / 128) (n % 128 ∷ []))

read_base128-nil : (pos : ℕ) → read_base128 0 pos [] ≡ none
unfolding read_base128
read_base128-nil pos = refl

read_arcs-done :
    (fuel end pos : ℕ) (bs : Bytes) → ltb pos end ≡ false → read_arcs fuel end pos bs ≡ some []
unfolding read_arcs
read_arcs-done fuel end pos [] h = rw h refl
read_arcs-done zero end pos (b ∷ bs) h = rw h refl
read_arcs-done (suc fuel) end pos (b ∷ bs) h = rw h refl

abbrev with_arc : ℕ → Option (List ℕ) → Option (List ℕ)
with_arc n none = none
with_arc n (some arcs) = some (n ∷ arcs)

-- one round of the loop
read_arcs-step :
    (fuel end pos n next : ℕ) (bs rest : Bytes)
    → pos < end
    → read_base128 0 pos bs ≡ some (n, next, rest)
    → read_arcs (suc fuel) end pos bs ≡ with_arc n (read_arcs fuel end next rest)
unfolding read_arcs
read_arcs-step fuel end pos n next [] rest h e = absurd (ground (arith, read_base128-nil pos))
read_arcs-step fuel end pos n next (b ∷ bs) rest h e =
    let p : ltb pos end ≡ true = ground arith in rw (p, e) (bound (read_arcs fuel end next rest))
  where
    bound : (r : Option (List ℕ)) → (r >>= λ arcs. some (n ∷ arcs)) ≡ with_arc n r
    bound none = refl
    bound (some arcs) = refl

-- The loop reads the arcs back, with fuel for the bytes.
read_arcs-arcs_bytes :
    (arcs : List ℕ) (fuel pos end : ℕ) (rest : Bytes)
    → length (arcs_bytes arcs) ≤ fuel
    → end ≡ pos + length (arcs_bytes arcs)
    → read_arcs fuel end pos (arcs_bytes arcs ++ rest) ≡ some arcs
unfolding arcs_bytes
read_arcs-arcs_bytes [] fuel pos end rest h e = read_arcs-done fuel end pos rest (ground arith)
read_arcs-arcs_bytes (n ∷ arcs) zero pos end rest h e =
    absurd (omega (arith, length-append (arc_bytes n) (arcs_bytes arcs), length-arc_bytes n))
read_arcs-arcs_bytes (n ∷ arcs) (suc fuel) pos end rest h e =
    let l = length-append (arc_bytes n) (arcs_bytes arcs) in
    let m = length-arc_bytes n in
    let ih =
      read_arcs-arcs_bytes arcs fuel (pos + length (arc_bytes n)) end rest (omega (arith, l, m))
        (omega (arith, l, m)) in
    ap (read_arcs (suc fuel) end pos) (append_assoc (arc_bytes n) (arcs_bytes arcs) rest)
    ∙ read_arcs-step fuel end pos n (pos + length (arc_bytes n))
        (arc_bytes n ++ (arcs_bytes arcs ++ rest)) (arcs_bytes arcs ++ rest) (omega (arith, l, m))
        (read_base128-arc_bytes n pos (arcs_bytes arcs ++ rest))
    ∙ ap (with_arc n) ih

first_arcs_lem :
    (a b : ℕ) (arcs : List ℕ)
    → a ≤ 2
    → ((b ≤ 39) ⊎ (a ≡ 2))
    → first_arcs (40 * a + b) arcs ≡ a ∷ b ∷ arcs
first_arcs_lem zero b arcs h k = let e : 40 * 0 + b ≡ b = omega arith in rw e (ground arith)
first_arcs_lem (suc zero) b arcs h k =
    let e : 40 * 1 + b ≡ 40 + b = omega arith in
    let f : 40 + b - 40 ≡ b = omega arith in rw (e, f) (ground arith)
first_arcs_lem (suc (suc zero)) b arcs h k =
    let e : 40 * 2 + b ≡ 80 + b = omega arith in
    let f : 80 + b - 80 ≡ b = omega arith in rw (e, f) (ground arith)
first_arcs_lem (suc (suc (suc a))) b arcs h k = absurd (omega arith)

drop-length : (b c : Bytes) → drop (length b) (b ++ c) ≡ c
drop-length [] c = refl
drop-length (x ∷ b) c = drop-length b c

-- the contents stand behind the tag and the length
drop-encode_tlv :
    (content rest : Bytes)
    → drop (1 + length (length_bytes (length content))) (encode_tlv 6 content ++ rest)
      ≡ content ++ rest
unfolding encode_tlv
drop-encode_tlv content rest =
    let b = length_bytes (length content) in
    let q : 1 + length b ≡ suc (length b) = omega arith in
    rw q (ap (drop (length b)) (append_assoc b content rest) ∙ drop-length b (content ++ rest))

length-encode_tlv :
    (content : Bytes)
    → length (encode_tlv 6 content) ≡ 1 + length (length_bytes (length content)) + length content
unfolding encode_tlv
length-encode_tlv content = omega (arith, length-append (length_bytes (length content)) content)

-- the three readings of `der_to_oid`
der_to_oid_lem :
    (tlv : Bytes) (start end first pos : ℕ) (after : Bytes) (arcs : List ℕ)
    → read_tlv tlv 0 ≡ some (6, start, end)
    → read_base128 0 start (drop start tlv) ≡ some (first, pos, after)
    → read_arcs (length after) end pos after ≡ some arcs
    → der_to_oid tlv ≡ some (first_arcs first arcs, end)
unfolding der_to_oid expect
der_to_oid_lem tlv start end first pos after arcs a b c = rw (a, b, c) refl

arcs_bytes-cons : (x : ℕ) (arcs : List ℕ) → arcs_bytes (x ∷ arcs) ≡ arc_bytes x ++ arcs_bytes arcs
unfolding arcs_bytes
arcs_bytes-cons x arcs = refl

encoded :
    (x : ℕ) (arcs : List ℕ) (rest : Bytes)
    → length (length_bytes (length (arcs_bytes (x ∷ arcs)))) ≤ 128
    → der_to_oid (encode_tlv 6 (arcs_bytes (x ∷ arcs)) ++ rest)
      ≡ some (first_arcs x arcs, length (encode_tlv 6 (arcs_bytes (x ∷ arcs))))
encoded x arcs rest h =
    let content = arcs_bytes (x ∷ arcs) in
    let start = 1 + length (length_bytes (length content)) in
    let split : content ≡ arc_bytes x ++ arcs_bytes arcs = arcs_bytes-cons x arcs in
    let l = length-append (arc_bytes x) (arcs_bytes arcs) in
    let after = arcs_bytes arcs ++ rest in
    let two =
      ap (read_base128 0 start) (
        drop-encode_tlv content rest
        ∙ ap (λ t. t ++ rest) split
        ∙ append_assoc (arc_bytes x) (arcs_bytes arcs) rest)
      ∙ read_base128-arc_bytes x start after in
    let three =
      read_arcs-arcs_bytes arcs (length after) (start + length (arc_bytes x))
        (start + length content) rest (omega (arith, length-append (arcs_bytes arcs) rest))
        (omega (arith, l, ap length split)) in
    der_to_oid_lem (encode_tlv 6 content ++ rest) start (start + length content) x
      (start + length (arc_bytes x)) after arcs
      (read_tlv-encode_tlv 6 content rest (λ e. absurd (omega arith)) h) two three
    ∙ ap (λ t. some (first_arcs x arcs, t)) (sym (length-encode_tlv content))

-- An object identifier that is encoded, with any bytes after it, reads back as its arcs with the
-- position after it; its length takes fewer than 128 bytes.
pub der_to_oid-encode_tlv :
    (arcs : List ℕ) (content rest : Bytes)
    → oid_content arcs ≡ some content
    → length (length_bytes (length content)) ≤ 128
    → der_to_oid (encode_tlv 6 content ++ rest) ≡ some (arcs, length (encode_tlv 6 content))
unfolding oid_content
der_to_oid-encode_tlv [] content rest e h = absurd (cc)
der_to_oid-encode_tlv (a ∷ []) content rest e h = absurd (cc)
der_to_oid-encode_tlv (a ∷ b ∷ arcs) content rest e h =
    let c : content ≡ arcs_bytes ((40 * a + b) ∷ arcs) = ground arith in
    let k : length (length_bytes (length (arcs_bytes ((40 * a + b) ∷ arcs)))) ≤ 128 =
      subst (λ t. length (length_bytes (length t)) ≤ 128) c h in
    rw c (
      encoded (40 * a + b) arcs rest k
      ∙ ap (λ t. some (t, length (encode_tlv 6 (arcs_bytes ((40 * a + b) ∷ arcs)))))
          (first_arcs_lem a b arcs (ground arith) (ground arith)))
