-- ===== src/Der/Algorithms.antt =====
-- `extract_ocsp_signature_algorithm` and `pss_params_hash_name` of app/derutil.py.
use ab_b1b34dfe_mgf1_ocsp_bu.Prelude.{
  ℕ, zero, suc, ◌+◌, String, List, [], ◌∷◌, Option, none, some, Bool, true, false, ◌&&◌,
  if◌then◌else◌, ltb, ◌==◌, length, drop,
}
use ab_b1b34dfe_mgf1_ocsp_bu.Cert.{Bytes}
use ab_b1b34dfe_mgf1_ocsp_bu.Der.{◌>>=◌, slice, read_tlv, expect, skip, der_to_oid}

-- the position of the contents
unfoldable pub enter : Bytes → ℕ → Option ℕ
unfolding read_tlv
enter bytes pos = do (tag, start, end) ← read_tlv bytes pos; some start

-- the contents of the basic response in an OCSP response
unfoldable pub basic_response : Bytes → Option Bytes
unfolding read_tlv expect enter skip
basic_response der = do
  outer ← enter der 0
  after_status ← skip der outer
  (s, e) ← expect 160 der after_status
  inner ← enter der s
  after_type ← skip der inner
  (tag, start, end) ← read_tlv der after_type
  some (slice der start end)

-- the arcs of the signature algorithm, and its parameters where there are some
unfoldable pub extract_ocsp_signature_algorithm : Bytes → Option (List ℕ × Option Bytes)
unfolding basic_response expect enter skip der_to_oid
extract_ocsp_signature_algorithm der = do
  basic ← basic_response der
  start ← enter basic 0
  e4 ← skip basic start
  (as_start, ae) ← expect 48 basic e4
  let alg_tlv = slice basic e4 ae
  cs ← enter alg_tlv 0
  (oid, pos) ← der_to_oid (drop cs alg_tlv)
  some (oid, if ltb (cs + pos) (length alg_tlv) then some (drop (cs + pos) alg_tlv) else none)

abbrev pub arcs_eq : List ℕ → List ℕ → Bool
arcs_eq [] [] = true
arcs_eq (a ∷ as₁) (b ∷ bs) = a == b && arcs_eq as₁ bs
arcs_eq _ _ = false

abbrev pub sha2_arcs : ℕ → List ℕ
sha2_arcs n = 2 ∷ 16 ∷ 840 ∷ 1 ∷ 101 ∷ 3 ∷ 4 ∷ 2 ∷ n ∷ []

-- `_HASH_OIDS.get(oid)`
unfoldable pub hash_of : List ℕ → Option String
hash_of arcs =
    if arcs_eq arcs (sha2_arcs 1)
    then some "sha256"
    else if arcs_eq arcs (sha2_arcs 2)
    then some "sha384"
    else if arcs_eq arcs (sha2_arcs 3)
    then some "sha512"
    else if arcs_eq arcs (1 ∷ 3 ∷ 14 ∷ 3 ∷ 2 ∷ 26 ∷ [])
    then some "sha1"
    else none

-- the hash algorithm [0] of a parameter at `cs` that ends at `ce`
unfoldable pub named_hash : Bytes → ℕ → ℕ → Option (Option String)
unfolding enter der_to_oid hash_of
named_hash params cs ce = do
  start ← enter params cs
  (oid, next) ← der_to_oid (slice params start ce)
  some (hash_of oid)

-- the loop over the parameters, with fuel
unfoldable pub hash_from : ℕ → Bytes → ℕ → ℕ → Option (Option String)
unfolding read_tlv named_hash
hash_from zero params pos end = if ltb pos end then none else some none
hash_from (suc fuel) params pos end =
    if ltb pos end
    then (do
      (tag, cs, ce) ← read_tlv params pos
      if tag == 160 then named_hash params cs ce else hash_from fuel params ce end)
    else some none

-- `some none` where there are no parameters or none names a hash
unfoldable pub pss_params_hash_name : Bytes → Option (Option String)
unfolding read_tlv hash_from
pss_params_hash_name [] = some none
pss_params_hash_name (b ∷ params) = do
  (tag, start, end) ← read_tlv (b ∷ params) 0
  if tag == 48 then hash_from (length (b ∷ params)) (b ∷ params) start end else some none
