-- ===== src/Der/Fuel.antt =====
-- The loop over CRL entries of app/derutil.py ends: every round moves on, so that fuel for the bytes
-- that are left is enough.
use ab_b1b34dfe_mgf1_ocsp_bu.Prelude.{
  ℕ, suc, zero, ◌-◌, ◌≤◌, ◌<◌, String, List, length, ◌≢◌, Option, none, some, false, ltb, ◌==◌, ◌≡◌,
  refl, arith, Bool-cases, Option-cases, inl, inr,
}
use ab_b1b34dfe_mgf1_ocsp_bu.Cert.{Bytes}
use ab_b1b34dfe_mgf1_ocsp_bu.Der.{◌>>=◌, read_tlv, expect}
use ab_b1b34dfe_mgf1_ocsp_bu.Der.Bounds.{read_tlv-IsInside}
use ab_b1b34dfe_mgf1_ocsp_bu.Der.CrlEntries.{
  Run, yielded, raised, out_of_fuel, add_entry, RawEntry, parse_der_time, entry_extensions,
  read_entry, entries_from,
}

bind-some :
    {A B : Type 0} (o : Option A) (f : A → Option B) (b : B)
    → (o >>= f) ≡ some b
    → (a : A) × (o ≡ some a) × (f a ≡ some b)
bind-some none f b h = absurd (cc)
bind-some (some a) f b h = (a, refl, h)

expect-end :
    (t : ℕ) (bytes : Bytes) (pos start end : ℕ) → expect t bytes pos ≡ some (start, end) → pos < end
unfolding expect
expect-end t bytes pos start end h = elim (Option-cases (read_tlv bytes pos)) [
  | inl e ↦ absurd (ground arith)
  | inr ((tag, s, f), e) ↦
      let k = read_tlv-IsInside bytes pos (tag, s, f) e in
      elim (Bool-cases (tag == t)) [ inl same ↦ ground arith | inr other ↦ absurd (ground arith) ]
]

module _ {T : Type 0} (strptime : String → Bytes → Option T) (year : T → ℕ)
    (with_year : ℕ → T → Option T) where
  read_entry-next :
      (der : Bytes) (pos next : ℕ) (entry : RawEntry strptime year with_year)
      → read_entry strptime year with_year der pos ≡ some (entry, next)
      → pos < next
  unfolding read_entry
  read_entry-next der pos next entry h =
      let ((estart, eend), a, h₁) = bind-some (expect 48 der pos) _ (entry, next) h in
      let ((sstart, send), b, h₂) = bind-some (expect 2 der estart) _ (entry, next) h₁ in
      let ((date, epos), c, h₃) =
        bind-some (parse_der_time strptime year with_year der send) _ (entry, next) h₂ in
      let (extensions, d, h₄) =
        bind-some (entry_extensions strptime year with_year der epos eend) _ (entry, next) h₃ in
      let l = expect-end 48 der pos estart eend a in ground arith

  add_entry-ne :
      {A : Type 0} (entry : A) (run : Run (List A))
      → run ≢ out_of_fuel
      → add_entry entry run ≢ out_of_fuel
  add_entry-ne entry (yielded entries) h = λ u. cc
  add_entry-ne entry raised h = λ u. cc
  add_entry-ne entry out_of_fuel h = absurd (h refl)

  entries_from-ends :
      (fuel : ℕ) (der : Bytes) (pos end : ℕ)
      → end - pos ≤ fuel
      → entries_from strptime year with_year fuel der pos end ≢ out_of_fuel
  unfolding entries_from
  entries_from-ends zero der pos end h =
      let done : ltb pos end ≡ false = ground arith in rw (done, entries_from) (λ u. cc)
  entries_from-ends (suc fuel) der pos end h = elim (Bool-cases (ltb pos end)) [
    | inr e ↦ rw (e, entries_from) (λ u. cc)
    | inl e ↦ elim (Option-cases (read_entry strptime year with_year der pos)) [
      | inl miss ↦ rw (e, miss, entries_from) (λ u. cc)
      | inr ((entry, next), found) ↦
          let l = read_entry-next der pos next entry found in
          rw (e, found, entries_from)
            (add_entry-ne entry _ (entries_from-ends fuel der next end (ground arith)))
    ]
  ]

  -- The loop over the entries of a CRL ends, with its entries or with an exception, at the fuel that it
  -- is given: the number of bytes, where the entries are the contents of a TLV that is read from them.
  pub entries_from-ne-out_of_fuel :
      (der : Bytes) (pos tag start end : ℕ)
      → read_tlv der pos ≡ some (tag, start, end)
      → entries_from strptime year with_year (length der) der start end ≢ out_of_fuel
  entries_from-ne-out_of_fuel der pos tag start end h =
      let (a, b, c) = read_tlv-IsInside der pos (tag, start, end) h in
      entries_from-ends (length der) der start end (omega arith)
