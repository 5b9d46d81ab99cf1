-- ===== src/Der/CrlEntries.antt =====
-- `parse_der_time` and `iter_crl_entries` of app/derutil.py. `strptime` is that of the standard
-- library by its format, `year` and `with_year` read and replace the year of its result; `none`
-- stands for an exception.
use ab_b1b34dfe_mgf1_ocsp_bu.Prelude.{
  ℕ, zero, suc, ◌-◌, String, List, true, false, [], ◌∷◌, reverse, Option, none, some, ◌||◌,
  if◌then◌else◌, ltb, leb, ◌==◌, length, get_elem?, all,
}
use ab_b1b34dfe_mgf1_ocsp_bu.Cert.{Bytes}
use ab_b1b34dfe_mgf1_ocsp_bu.Der.{◌>>=◌, ◌>>◌, require, slice, from_bytes, read_tlv, expect, skip}

-- the text without its last character `Z`
abbrev pub without_zulu : Bytes → Option Bytes
without_zulu raw = elim (reverse raw) [
  | [] ↦ none
  | z ∷ text ↦ if z == b'Z' then some (reverse text) else none
]

-- what a loop with fuel ends with: a value, an exception, or neither
pub data Run (A : Type 0) : Type 0 where
  yielded : A → Run A
  raised out_of_fuel : Run A

abbrev pub add_entry : {A : Type 0} → A → Run (List A) → Run (List A)
add_entry entry (yielded entries) = yielded (entry ∷ entries)
add_entry entry raised = raised
add_entry entry out_of_fuel = out_of_fuel

abbrev pub result_of : {A : Type 0} → Run A → Option A
result_of (yielded value) = some value
result_of _ = none

module _ {T : Type 0} (strptime : String → Bytes → Option T) (year : T → ℕ)
    (with_year : ℕ → T → Option T) where
  unfoldable pub utc_time : Bytes → Option T
  utc_time text = do
    require (length text == 10 || length text == 12)
    dt ← strptime (if length text == 12 then "%y%m%d%H%M%S" else "%y%m%d%H%M") text
    with_year (if leb 2050 (year dt) then year dt - 100 else year dt) dt

  unfoldable pub time_of : ℕ → Bytes → Option T
  unfolding utc_time
  time_of tag text =
      if tag == 23
      then utc_time text
      else if tag == 24
      then strptime (if length text == 14 then "%Y%m%d%H%M%S" else "%Y%m%d%H%M") text
      else none

  -- the time and the next position
  unfoldable pub parse_der_time : Bytes → ℕ → Option (T × ℕ)
  unfolding read_tlv time_of
  parse_der_time der pos = do
    (tag, start, end) ← read_tlv der pos
    require (all (λ c. ltb c 128) (slice der start end))
    text ← without_zulu (slice der start end)
    dt ← time_of tag text
    some (dt, end)

  -- a serial number, the revocation date and the extensions' bytes
  abbrev pub RawEntry : Type 0
  RawEntry = ℕ × T × Option Bytes

  -- the extensions between `pos` and the entry's end
  unfoldable pub entry_extensions : Bytes → ℕ → ℕ → Option (Option Bytes)
  unfolding expect
  entry_extensions der pos eend =
      if ltb pos eend
      then (do (start, end) ← expect 48 der pos; some (some (slice der pos end)))
      else some none

  -- one entry at `pos`, and the position after it
  unfoldable pub read_entry : Bytes → ℕ → Option (RawEntry × ℕ)
  unfolding expect parse_der_time entry_extensions from_bytes
  read_entry der pos = do
    (estart, eend) ← expect 48 der pos
    (sstart, send) ← expect 2 der estart
    (date, epos) ← parse_der_time der send
    extensions ← entry_extensions der epos eend
    some ((from_bytes 0 (slice der sstart send), date, extensions), eend)

  -- The loop over the entries, with fuel; what it yields before an exception is left out.
  unfoldable pub entries_from : ℕ → Bytes → ℕ → ℕ → Run (List RawEntry)
  unfolding read_entry
  entries_from zero der pos end = if ltb pos end then out_of_fuel else yielded []
  entries_from (suc fuel) der pos end = elim (ltb pos end) [
    | true ↦ elim (read_entry der pos) [
      | none ↦ raised
      | some (entry, next) ↦ add_entry entry (entries_from fuel der next end)
    ]
    | false ↦ yielded []
  ]

  -- `pos` after a version, where there is one
  unfoldable pub skip_version : Bytes → ℕ → Option ℕ
  unfolding read_tlv
  skip_version der pos = do
    (tag, start, end) ← read_tlv der pos
    some (if tag == 2 then end else pos)

  -- the position after nextUpdate, where there is one
  unfoldable pub skip_next_update : Bytes → ℕ → Option ℕ
  unfolding parse_der_time
  skip_next_update der pos = do
    tag ← get_elem? der pos
    if tag == 23 || tag == 24 then (do (dt, next) ← parse_der_time der pos; some next) else some pos

  -- the entries at `pos`, if the list is there
  unfoldable pub revoked_at_pos : Bytes → ℕ → ℕ → Option (List RawEntry)
  unfolding read_tlv entries_from
  revoked_at_pos der pos tbs_end = if leb tbs_end pos then some [] else (do
    (tag, start, end) ← read_tlv der pos
    if tag == 48 then result_of (entries_from (length der) der start end) else some [])

  unfoldable pub iter_crl_entries : Bytes → Option (List RawEntry)
  unfolding expect skip skip_version parse_der_time skip_next_update revoked_at_pos
  iter_crl_entries der = do
    (tbs_start, crl_end) ← expect 48 der 0
    (tbs_content, tbs_end) ← expect 48 der tbs_start
    pos₁ ← skip_version der tbs_content
    pos₂ ← skip der pos₁
    pos₃ ← skip der pos₂
    (this_update, pos₄) ← parse_der_time der pos₃
    pos₅ ← skip_next_update der pos₄
    revoked_at_pos der pos₅ tbs_end
