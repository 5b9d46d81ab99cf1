-- ===== src/Der.antt =====
-- The DER reader and encoder of app/derutil.py over lists of bytes. `none` stands for an exception.
-- The `cryptography` library does the rest of the parsing.
pub mod Bounds
pub mod RoundTrip
pub mod Tlv
pub mod Oid
pub mod CrlEntries
pub mod Algorithms
pub mod Fuel
mod Tests
use ab_b1b34dfe_mgf1_ocsp_bu.Prelude.{
  ℕ, zero, suc, ◌+◌, ◌-◌, ◌*◌, ◌/◌, ◌%◌, List, [], ◌∷◌, ◌++◌, reverse, Option, none, some, Bool,
  true, false, not, ◌||◌, ◌&&◌, if◌then◌else◌, ltb, leb, ◌==◌, length, get_elem?, take, drop,
}
use ab_b1b34dfe_mgf1_ocsp_bu.Cert.{Bytes}

infixl 20 ◌>>=◌ ◌>>◌
abbrev pub ◌>>=◌ : {A B : Type 0} → Option A → (A → Option B) → Option B
none >>= f = none
some a >>= f = f a

abbrev pub ◌>>◌ : {A B : Type 0} → Option A → Option B → Option B
none >> b = none
some a >> b = b

-- `data[first:last]`
abbrev pub slice : Bytes → ℕ → ℕ → Bytes
slice bytes first last = take (last - first) (drop first bytes)

-- a test that raises where it fails
abbrev pub require : Bool → Option (Unit {0})
require true = some tt
require false = none

-- `int.from_bytes(..., "big")` after the value `acc`
unfoldable pub from_bytes : ℕ → Bytes → ℕ
from_bytes acc [] = acc
from_bytes acc (b ∷ bs) = from_bytes (acc * 256 + b) bs

-- the tag and the bounds of the contents
abbrev pub Tlv : Type 0
Tlv = ℕ × ℕ × ℕ

abbrev pub content_at : Bytes → ℕ → ℕ → ℕ → Option Tlv
content_at bytes tag start n =
    if ltb (length bytes) (start + n) then none else some (tag, start, start + n)

-- the length in `n` bytes, from `pos` on
abbrev pub long_form : Bytes → ℕ → ℕ → ℕ → Option Tlv
long_form bytes tag pos n =
    if n == 0
    then none
    else if ltb (length bytes) (pos + n)
    then none
    else content_at bytes tag (pos + n) (from_bytes 0 (slice bytes pos (pos + n)))

-- `length & 0x80` is `128 ≤ n` for a byte
unfoldable pub read_length : Bytes → ℕ → ℕ → Option Tlv
unfolding from_bytes
read_length bytes tag pos = elim (get_elem? bytes pos) [
  | none ↦ none
  | some n ↦
      if leb 128 n
      then long_form bytes tag (pos + 1) (n % 128)
      else content_at bytes tag (pos + 1) n
]

unfoldable pub read_tlv : Bytes → ℕ → Option Tlv
unfolding read_length
read_tlv bytes pos = elim (get_elem? bytes pos) [
  | none ↦ none
  | some tag ↦ if tag % 32 == 31 then none else read_length bytes tag (pos + 1)
]

-- `n.to_bytes(...)` in as few bytes as hold it, before `acc`, with fuel
unfoldable pub to_bytes : ℕ → ℕ → Bytes → Bytes
to_bytes zero n acc = acc
to_bytes (suc fuel) n acc =
    let rest = to_bytes fuel (n / 256) (n % 256 ∷ acc) in if n == 0 then acc else rest

unfoldable pub length_bytes : ℕ → Bytes
unfolding to_bytes
length_bytes n = if ltb n 128 then n ∷ [] else let b = to_bytes n n [] in (128 + length b) ∷ b

unfoldable pub encode_tlv : ℕ → Bytes → Bytes
unfolding length_bytes
encode_tlv tag content = tag ∷ (length_bytes (length content) ++ content)

-- the contents of a TLV with the tag `tag`
unfoldable pub expect : ℕ → Bytes → ℕ → Option (ℕ × ℕ)
unfolding read_tlv
expect tag bytes pos = do
  (t, start, end) ← read_tlv bytes pos
  require (t == tag)
  some (start, end)

unfoldable pub skip : Bytes → ℕ → Option ℕ
unfolding read_tlv
skip bytes pos = do (t, start, end) ← read_tlv bytes pos; some end

unfoldable pub parse_reason_code : Bytes → Option ℕ
unfolding expect
parse_reason_code value = do
  (start, end) ← expect 10 value 0
  require (end - start == 1)
  get_elem? value start

-- `_read_base128` after the value `acc`, on the bytes from `pos` on: the value, the next position
-- and the bytes from there
unfoldable pub read_base128 : ℕ → ℕ → Bytes → Option (ℕ × ℕ × Bytes)
read_base128 acc pos [] = none
read_base128 acc pos (b ∷ bs) =
    let rest = read_base128 (acc * 128 + b % 128) (pos + 1) bs in
    if leb 128 b then rest else some (acc * 128 + b, pos + 1, bs)

-- the arcs from `pos` to `end`, with fuel
unfoldable pub read_arcs : ℕ → ℕ → ℕ → Bytes → Option (List ℕ)
unfolding read_base128
read_arcs fuel end pos [] = if ltb pos end then none else some []
read_arcs zero end pos (b ∷ bs) = if ltb pos end then none else some []
read_arcs (suc fuel) end pos (b ∷ bs) =
    if ltb pos end
    then (do
      (arc, pos', rest) ← read_base128 0 pos (b ∷ bs)
      arcs ← read_arcs fuel end pos' rest
      some (arc ∷ arcs))
    else some []

abbrev pub first_arcs : ℕ → List ℕ → List ℕ
first_arcs first arcs =
    if ltb first 40
    then 0 ∷ first ∷ arcs
    else if ltb first 80
    then 1 ∷ (first - 40) ∷ arcs
    else 2 ∷ (first - 80) ∷ arcs

-- the arcs, which the source joins by dots, and the next position
unfoldable pub der_to_oid : Bytes → Option (List ℕ × ℕ)
unfolding expect read_base128 read_arcs
der_to_oid tlv = do
  (start, end) ← expect 6 tlv 0
  (first, pos, rest) ← read_base128 0 start (drop start tlv)
  arcs ← read_arcs (length rest) end pos rest
  some (first_arcs first arcs, end)

-- the bytes of one arc above its last one, before `acc`, with fuel
unfoldable pub push_arc : ℕ → ℕ → Bytes → Bytes
push_arc zero n acc = acc
push_arc (suc fuel) n acc =
    let rest = push_arc fuel (n / 128) ((128 + n % 128) ∷ acc) in if n == 0 then acc else rest

unfoldable pub arc_bytes : ℕ → Bytes
unfolding push_arc
arc_bytes n = push_arc n (n / 128) (n % 128 ∷ [])

unfoldable pub arcs_bytes : List ℕ → Bytes
unfolding arc_bytes
arcs_bytes [] = []
arcs_bytes (a ∷ arcs) = arc_bytes a ++ arcs_bytes arcs

-- the contents of an object identifier
unfoldable pub oid_content : List ℕ → Option Bytes
unfolding arcs_bytes
oid_content [] = none
oid_content (a ∷ []) = none
oid_content (a ∷ b ∷ arcs) =
    if ltb 2 a || (ltb 39 b && ltb a 2) then none else some (arcs_bytes ((40 * a + b) ∷ arcs))

unfoldable pub oid_to_der : List ℕ → Option Bytes
unfolding oid_content encode_tlv
oid_to_der arcs = do content ← oid_content arcs; some (encode_tlv 6 content)

-- the loop of `parse_policy_mappings` from `pos` to `end`, with fuel
unfoldable pub mappings_from : ℕ → Bytes → ℕ → ℕ → Option (List (List ℕ × List ℕ))
unfolding expect der_to_oid
mappings_from zero value pos end = if ltb pos end then none else some []
mappings_from (suc fuel) value pos end =
    if ltb pos end
    then (do
      (es, ee) ← expect 48 value pos
      (issuer, p2) ← der_to_oid (slice value es ee)
      (subject, p3) ← der_to_oid (drop p2 (slice value es ee))
      require (p2 + p3 == length (slice value es ee))
      rest ← mappings_from fuel value ee end
      some ((issuer, subject) ∷ rest))
    else some []

unfoldable pub parse_policy_mappings : Bytes → Option (List (List ℕ × List ℕ))
unfolding expect mappings_from
parse_policy_mappings value = do
  (start, end) ← expect 48 value 0
  mappings_from (length value) value start end

-- an extension: its OID's contents, `critical` and its value
abbrev pub Extension : Type 0
Extension = Bytes × Bool × Bytes

-- the flag `critical` at `pos`, and the position after it
unfoldable pub read_critical : Bytes → ℕ → Option (Bool × ℕ)
unfolding read_tlv
read_critical tlv pos = do
  tag ← get_elem? tlv pos
  if tag == 1
      then (do (t, cs, ce) ← read_tlv tlv pos; flag ← get_elem? tlv cs; some (not (flag == 0), ce))
      else some (false, pos)

-- the loop of `iter_extensions`, with fuel; what it yields before an exception is left out
unfoldable pub extensions_from : ℕ → Bytes → ℕ → ℕ → Option (List Extension)
unfolding read_tlv expect read_critical
extensions_from zero tlv pos end = if ltb pos end then none else some []
extensions_from (suc fuel) tlv pos end =
    if ltb pos end
    then (do
      (t, es, ee) ← read_tlv tlv pos
      (os, oe) ← expect 6 tlv es
      (critical, vpos) ← read_critical tlv oe
      (vs, ve) ← expect 4 tlv vpos
      rest ← extensions_from fuel tlv ee end
      some ((slice tlv os oe, critical, slice tlv vs ve) ∷ rest))
    else some []

unfoldable pub iter_extensions : Bytes → Option (List Extension)
unfolding read_tlv extensions_from
iter_extensions tlv = do
  (t, start, end) ← read_tlv tlv 0
  extensions_from (length tlv) tlv start end
