-- ===== src/Normalize.antt =====
-- `validate_input` of app/adjudicate.py: the checks of an adjudication's input and its normal form.
pub mod Normal
pub mod Accepted
pub mod Idempotent
mod Tests
use ab_b1b34dfe_mgf1_ocsp_bu.Prelude.{
  ℕ, zero, suc, String, List, [], ◌∷◌, Option, none, some, Bool, true, false, not, ◌&&◌, ◌||◌,
  if◌then◌else◌, leb, ◌==◌, str_eq, str_mem, length, sorted_set,
}
use ab_b1b34dfe_mgf1_ocsp_bu.Prelude.Int.{ℤ, pos, negsuc}
use ab_b1b34dfe_mgf1_ocsp_bu.Cert.{Text, Bytes}
use ab_b1b34dfe_mgf1_ocsp_bu.Canonical.{
  Json, null, bool, int, str, arr, obj, Items, nil, cons, Fields, end, field, field_of, codes,
}
use ab_b1b34dfe_mgf1_ocsp_bu.Canonical.Times.{
  Parsed, parsed, invalid, overflow, parse_time, canon_time, strip_newline, is_fingerprint,
}
use ab_b1b34dfe_mgf1_ocsp_bu.Api.{
  Result, ok, err, ◌>>=◌, ◌>>◌, raise_if, or_raise, Failure, api_error, unexpected, validation,
  Host, object_fields, string_value, list_of, items_of, fields_of,
}
use ab_b1b34dfe_mgf1_ocsp_bu.Api.Objects.{canonical_or}

-- where a run of `_OID_RE` stands: before an arc, after the arc 0, or in an arc of other digits
pub data Place : Type 0 where
  at_arc after_zero in_number : Place

-- `profile.ARTIFACT_SIGNATURE_ALGORITHMS`
abbrev pub artifact_algorithms : List String
artifact_algorithms = "rsa-pss-sha256" ∷ "ecdsa-p256-sha256" ∷ "ed25519" ∷ []

-- the texts of a list
abbrev pub strs : List String → List Json
strs [] = []
strs (s ∷ ss) = str s ∷ strs ss

-- whether `p or ""` is the empty text, for a value that is no text
abbrev pub is_falsy : Json → Bool
is_falsy null = true
is_falsy (bool b) = not b
is_falsy (int (pos n)) = n == 0
is_falsy (int (negsuc n)) = false
is_falsy (str s) = str_eq s ""
is_falsy (arr nil) = true
is_falsy (arr (cons x xs)) = false
is_falsy (obj end) = true
is_falsy (obj (field k v fs)) = false

-- `need`
unfoldable pub need : String → Fields → Result Json
unfolding field_of
need name fs = or_raise (field_of name fs) validation

-- a value that must be a fingerprint
unfoldable pub fingerprint_of : Json → Result String
unfolding is_fingerprint
fingerprint_of (str s) = if is_fingerprint (str s) then ok s else err validation
fingerprint_of _ = err validation

-- the elements of `trust_anchors`
unfoldable pub fingerprints_of : List Json → Result (List String)
unfolding fingerprint_of
fingerprints_of [] = ok []
fingerprints_of (x ∷ xs) = do s ← fingerprint_of x; rest ← fingerprints_of xs; ok (s ∷ rest)

abbrev pub some_items : Json → Result (List Json)
some_items (arr (cons x xs)) = ok (x ∷ list_of xs)
some_items _ = err validation

abbrev pub algorithm_of : Json → Result String
algorithm_of (str s) =
    if str_mem s artifact_algorithms then ok s else err (api_error "UNSUPPORTED" 422)
algorithm_of _ = err (api_error "UNSUPPORTED" 422)

-- `raw.get("initial_policy_set", ["anyPolicy"])`, which must be a list
abbrev pub policy_items : Option Json → Result (List Json)
policy_items none = ok (str "anyPolicy" ∷ [])
policy_items (some (arr xs)) = ok (list_of xs)
policy_items (some _) = err validation

abbrev pub or_any : List String → List String
or_any [] = "anyPolicy" ∷ []
or_any (p ∷ ps) = p ∷ ps

-- what `validate_input` answers, before it is a JSON object
pub record Normalized : Type 0 where
  pub artifact_digest : String
  pub signature : String
  pub signature_algorithm : String
  pub signed_at : String
  pub knowledge_cutoff : String
  pub leaf_fingerprint : String
  pub initial_policy_set : List String
  pub trust_anchors : List String

abbrev pub input_json : Normalized → Json
input_json n = obj (
    fields_of (
      ("artifact_digest", str n.artifact_digest)
      ∷ ("signature", str n.signature)
      ∷ ("signature_algorithm", str n.signature_algorithm)
      ∷ ("signed_at", str n.signed_at)
      ∷ ("knowledge_cutoff", str n.knowledge_cutoff)
      ∷ ("leaf_fingerprint", str n.leaf_fingerprint)
      ∷ ("initial_policy_set", arr (items_of (strs n.initial_policy_set)))
      ∷ ("trust_anchors", arr (items_of (strs n.trust_anchors)))
      ∷ []))

module _ (host : Host) (b64e : Bytes → String) where
  open host use {b64d, calendar}

  -- the place after a character, and whether the character was a dot; `\d` is any decimal digit
  unfoldable pub oid_next : Place → ℕ → Option (Bool × Place)
  oid_next at_arc c =
      if c == b'0'
      then some (false, after_zero)
      else if leb b'1' c && leb c b'9'
      then some (false, in_number)
      else none
  oid_next after_zero c = if c == b'.' then some (true, at_arc) else none
  oid_next in_number c =
      if c == b'.'
      then some (true, at_arc)
      else elim (calendar.digit_of c) [ none ↦ none | some d ↦ some (false, in_number) ]

  unfoldable pub oid_from : Bool → Place → Text → Bool
  unfolding oid_next
  oid_from dotted at_arc [] = false
  oid_from dotted after_zero [] = dotted
  oid_from dotted in_number [] = dotted
  oid_from dotted place (c ∷ s) = elim (oid_next place c) [
    | none ↦ false
    | some (dot, next) ↦ oid_from (dotted || dot) next s
  ]

  -- the match of `_OID_RE`
  unfoldable pub is_oid_text : Text → Bool
  unfolding oid_from strip_newline
  is_oid_text s = oid_from false at_arc (strip_newline s)

  -- an element of `initial_policy_set`
  unfoldable pub policy_of : Json → Result String
  unfolding is_oid_text codes
  policy_of (str s) = if str_eq s "anyPolicy" || is_oid_text (codes s) then ok s else err validation
  policy_of value = err (if is_falsy value then validation else unexpected)

  unfoldable pub policies_of : List Json → Result (List String)
  unfolding policy_of
  policies_of [] = ok []
  policies_of (x ∷ xs) = do p ← policy_of x; ps ← policies_of xs; ok (p ∷ ps)

  -- a text of base64 that stands for some bytes, in canonical form
  unfoldable pub signature_of : Json → Result String
  signature_of value = do
    text ← string_value (some value)
    bytes ← or_raise (b64d text) validation
    raise_if (length bytes == 0) validation
    ok (b64e bytes)

  abbrev pub time_of : Json → Result String
  time_of value = canonical_or host validation (parse_time calendar value)

  unfoldable pub normalize : Fields → Result Normalized
  unfolding need fingerprint_of signature_of parse_time canon_time fingerprints_of policies_of
      field_of
  normalize fs = do
    artifact_digest ← need "artifact_digest" fs >>= fingerprint_of
    signature ← need "signature" fs >>= signature_of
    signature_algorithm ← need "signature_algorithm" fs >>= algorithm_of
    signed_at ← need "signed_at" fs >>= time_of
    knowledge_cutoff ← need "knowledge_cutoff" fs >>= time_of
    leaf_fingerprint ← need "leaf_fingerprint" fs >>= fingerprint_of
    anchors ← need "trust_anchors" fs >>= some_items >>= fingerprints_of
    initial ← policy_items (field_of "initial_policy_set" fs) >>= policies_of
    ok (record {
      artifact_digest = artifact_digest;
      signature = signature;
      signature_algorithm = signature_algorithm;
      signed_at = signed_at;
      knowledge_cutoff = knowledge_cutoff;
      leaf_fingerprint = leaf_fingerprint;
      initial_policy_set = or_any (sorted_set initial);
      trust_anchors = sorted_set anchors;
    })

  unfoldable pub validate_input : Json → Result Json
  unfolding normalize
  validate_input raw = do fs ← object_fields raw; n ← normalize fs; ok (input_json n)
