-- ===== src/Der/Tests.antt =====
-- The theorems about the DER helpers at small TLVs.
use ab_b1b34dfe_mgf1_ocsp_bu.Prelude.{
  ℕ, String, Option, none, ◌+◌, [], ◌∷◌, ◌++◌, some, length, ◌≡◌, ◌≢◌, refl, arith,
}
use ab_b1b34dfe_mgf1_ocsp_bu.Cert.{Bytes}
use ab_b1b34dfe_mgf1_ocsp_bu.Der.{read_tlv, encode_tlv, length_bytes, oid_content, der_to_oid}
use ab_b1b34dfe_mgf1_ocsp_bu.Der.Bounds.{IsInside, read_tlv-IsInside}
use ab_b1b34dfe_mgf1_ocsp_bu.Der.CrlEntries.{yielded, out_of_fuel, entries_from}
use ab_b1b34dfe_mgf1_ocsp_bu.Der.Fuel.{entries_from-ne-out_of_fuel}
use ab_b1b34dfe_mgf1_ocsp_bu.Der.Tlv.{read_tlv-encode_tlv}
use ab_b1b34dfe_mgf1_ocsp_bu.Der.Oid.{der_to_oid-encode_tlv}

-- an INTEGER with two bytes, and one byte after it
abbrev number : Bytes
number = 2 ∷ 2 ∷ 1 ∷ 0 ∷ 7 ∷ []

read_tlv-IsInside_example : IsInside number (0 + 1) (2, 2, 4)
unfolding read_tlv
read_tlv-IsInside_example = read_tlv-IsInside number 0 (2, 2, 4) refl

read_tlv-encode_tlv_example :
    read_tlv (encode_tlv 2 (1 ∷ 0 ∷ []) ++ 7 ∷ []) 0
    ≡ some (2, 1 + length (length_bytes 2), 1 + length (length_bytes 2) + 2)
unfolding length_bytes
read_tlv-encode_tlv_example =
    read_tlv-encode_tlv 2 (1 ∷ 0 ∷ []) (7 ∷ []) (omega arith) (omega arith)

-- 1.2.840
abbrev member_body : Bytes
member_body = 42 ∷ 134 ∷ 72 ∷ []

der_to_oid-encode_tlv_example :
    der_to_oid (encode_tlv 6 member_body ++ 5 ∷ [])
    ≡ some (1 ∷ 2 ∷ 840 ∷ [], length (encode_tlv 6 member_body))
unfolding oid_content length_bytes
der_to_oid-encode_tlv_example =
    der_to_oid-encode_tlv (1 ∷ 2 ∷ 840 ∷ []) member_body (5 ∷ []) refl (omega arith)

-- a revoked serial number 5 with a UTCTime
abbrev one_entry : Bytes
one_entry =
    48 ∷ 18 ∷ 2 ∷ 1 ∷ 5 ∷ 23 ∷ 13 ∷ b'2' ∷ b'5' ∷ b'0' ∷ b'1' ∷ b'0' ∷ b'2' ∷ b'0' ∷ b'3' ∷ b'0'
    ∷ b'4' ∷ b'0' ∷ b'5' ∷ b'Z' ∷ []

-- a list of that entry
abbrev entry_list : Bytes
entry_list = 48 ∷ 20 ∷ one_entry

-- times by the length of their text
abbrev time_length : String → Bytes → Option ℕ
time_length format text = some (length text)

abbrev same_year : ℕ → ℕ
same_year t = t

abbrev to_year : ℕ → ℕ → Option ℕ
to_year y t = some t

one_entry-read :
    entries_from time_length same_year to_year 22 entry_list 2 22 ≡ yielded ((5, 12, none) ∷ [])
unfolding entries_from
one_entry-read = refl

entries_from-ne-out_of_fuel_example :
    entries_from time_length same_year to_year 22 entry_list 2 22 ≢ out_of_fuel
unfolding read_tlv
entries_from-ne-out_of_fuel_example =
    entries_from-ne-out_of_fuel time_length same_year to_year entry_list 0 48 2 22 refl
