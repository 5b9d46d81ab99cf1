-- ===== src/Canonical.antt =====
-- app/canonical.py: JSON values and their canonical text. A text is the list of its code points. An
-- object keeps its fields in the order in which they were put in, each key once.
pub mod Times
pub mod Strings
pub mod Order
pub mod Fingerprints
pub mod RoundTrip
pub mod Equality
mod Tests
use Prim.Native.Char.{code}
use ab_b1b34dfe_mgf1_ocsp_bu.Prelude.{
  ℕ, zero, suc, ◌+◌, ◌/◌, ◌%◌, String, List, [], ◌∷◌, ◌++◌, Option, none, some, Bool, true, false,
  ◌&&◌, ◌||◌, if◌then◌else◌, ltb, leb, ◌==◌, str_eq, str_le, sort_by,
}
use ab_b1b34dfe_mgf1_ocsp_bu.Prelude.Int.{ℤ, pos, negsuc}
use ab_b1b34dfe_mgf1_ocsp_bu.Cert.{Text}

mutual
  pub data Json : Type 0 where
    null : Json
    bool : Bool → Json
    int : ℤ → Json
    str : String → Json
    arr : Items → Json
    obj : Fields → Json

  pub data Items : Type 0 where
    nil : Items
    cons : Json → Items → Items

  pub data Fields : Type 0 where
    end : Fields
    field : String → Json → Fields → Fields

-- the code points of a text
unfoldable pub codes : String → Text
codes String.[] = []
codes (String.◌∷◌ c s) = code c ∷ codes s

-- `obj.get(key)`
unfoldable pub field_of : String → Fields → Option Json
field_of key end = none
field_of key (field k v rest) = if str_eq k key then some v else field_of key rest

unfoldable pub hex_digit : ℕ → ℕ
hex_digit d = if ltb d 10 then 48 + d else 87 + d

-- `"\\u%04x"` of a character below 32
unfoldable pub unicode_escape : ℕ → Text
unfolding hex_digit
unicode_escape c = b'\\' ∷ b'u' ∷ 48 ∷ 48 ∷ hex_digit (c / 16) ∷ hex_digit (c % 16) ∷ []

-- `_SHORT_ESCAPES.get(ch)`: the letter after the backslash
unfoldable pub short_escape : ℕ → Option ℕ
short_escape c =
    if c == 34
    then some 34
    else if c == 92
    then some 92
    else if c == 8
    then some b'b'
    else if c == 12
    then some b'f'
    else if c == 10
    then some b'n'
    else if c == 13
    then some b'r'
    else if c == 9
    then some b't'
    else none

unfoldable pub escape_char : ℕ → Text
unfolding short_escape unicode_escape
escape_char c = elim (short_escape c) [
  | some e ↦ b'\\' ∷ e ∷ []
  | none ↦ if ltb c 32 then unicode_escape c else c ∷ []
]

unfoldable pub escape_chars : Text → Text
unfolding escape_char
escape_chars [] = []
escape_chars (c ∷ s) = escape_char c ++ escape_chars s

-- `_escape_string`
unfoldable pub escape_text : Text → Text
unfolding escape_chars
escape_text s = 34 ∷ (escape_chars s ++ 34 ∷ [])

-- the digits of a number before `acc`, with fuel
unfoldable pub digits_onto : ℕ → ℕ → Text → Text
digits_onto zero n acc = acc
digits_onto (suc fuel) n acc =
    let rest = digits_onto fuel (n / 10) ((48 + n % 10) ∷ acc) in if n == 0 then acc else rest

-- `str(n)`
unfoldable pub decimal : ℕ → Text
unfolding digits_onto
decimal n = digits_onto n (n / 10) ((48 + n % 10) ∷ [])

unfoldable pub decimal_ℤ : ℤ → Text
unfolding decimal
decimal_ℤ (pos n) = decimal n
decimal_ℤ (negsuc n) = b'-' ∷ decimal (suc n)

-- an object's fields, each with its key and the text `"key":value`
abbrev pub Shown : Type 0
Shown = String × Text

unfoldable pub shown_le : Shown → Shown → Bool
shown_le a b = str_le a.0 b.0

-- the texts with a comma before each
unfoldable pub with_commas : List Shown → Text
with_commas [] = []
with_commas ((k, t) ∷ rest) = b',' ∷ (t ++ with_commas rest)

-- the texts with commas between them
unfoldable pub join : List Shown → Text
unfolding with_commas
join [] = []
join ((k, t) ∷ rest) = t ++ with_commas rest

-- `_dump`
unfoldable mutual
  unfolding codes escape_text decimal_ℤ shown_le join

  pub dump : Json → Text
  dump null = b'n' ∷ b'u' ∷ b'l' ∷ b'l' ∷ []
  dump (bool true) = b't' ∷ b'r' ∷ b'u' ∷ b'e' ∷ []
  dump (bool false) = b'f' ∷ b'a' ∷ b'l' ∷ b's' ∷ b'e' ∷ []
  dump (int n) = decimal_ℤ n
  dump (str s) = escape_text (codes s)
  dump (arr xs) = b'[' ∷ (dump_items xs ++ b']' ∷ [])
  dump (obj fs) = b'{' ∷ (join (sort_by shown_le (dump_fields fs)) ++ b'}' ∷ [])

  pub dump_items : Items → Text
  dump_items nil = []
  dump_items (cons x xs) = dump x ++ dump_rest xs

  -- each item after a comma
  pub dump_rest : Items → Text
  dump_rest nil = []
  dump_rest (cons x xs) = b',' ∷ (dump x ++ dump_rest xs)

  pub dump_fields : Fields → List Shown
  dump_fields end = []
  dump_fields (field k v fs) = (k, escape_text (codes k) ++ b':' ∷ dump v) ∷ dump_fields fs

-- `_no_surrogates`: whether it raises nothing
unfoldable pub clean_text : Text → Bool
clean_text [] = true
clean_text (c ∷ s) = (ltb c 55296 || ltb 57343 c) && clean_text s

unfoldable mutual
  unfolding codes clean_text

  pub clean : Json → Bool
  clean null = true
  clean (bool b) = true
  clean (int n) = true
  clean (str s) = clean_text (codes s)
  clean (arr xs) = clean_items xs
  clean (obj fs) = clean_fields fs

  pub clean_items : Items → Bool
  clean_items nil = true
  clean_items (cons x xs) = clean x && clean_items xs

  pub clean_fields : Fields → Bool
  clean_fields end = true
  clean_fields (field k v fs) = clean_text (codes k) && (clean v && clean_fields fs)

-- `_no_duplicates`
unfoldable pub distinct_keys : Fields → Bool
unfolding field_of
distinct_keys end = true
distinct_keys (field k v rest) =
    elim (field_of k rest) [ none ↦ true | some w ↦ false ] && distinct_keys rest

unfoldable mutual
  unfolding distinct_keys

  pub unique : Json → Bool
  unique null = true
  unique (bool b) = true
  unique (int n) = true
  unique (str s) = true
  unique (arr xs) = unique_items xs
  unique (obj fs) = distinct_keys fs && unique_fields fs

  pub unique_items : Items → Bool
  unique_items nil = true
  unique_items (cons x xs) = unique x && unique_items xs

  pub unique_fields : Fields → Bool
  unique_fields end = true
  unique_fields (field k v fs) = unique v && unique_fields fs

-- `parse` is `json.loads` of the standard library, with floats and constants refused: `none` is an
-- error of it, and the fields come in their order in the text, repeated keys kept.
unfoldable pub loads : (Text → Option Json) → Text → Option Json
unfolding unique clean
loads parse text = elim (parse text) [
  | none ↦ none
  | some value ↦ if unique value && clean value then some value else none
]
