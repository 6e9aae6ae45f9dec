-- ===== src/Crypto/Reading.antt =====
-- `CryptoOperation.from_mapping` of android_assessor/crypto_analysis.py: an observation is read into
-- an operation, or refused.
use android_appsec_assessor.Prelude.{
  ℕ, ◌<>◌, String, Bool, false, not, ◌&&◌, ◌||◌, Option, none, some, List, [], ◌∷◌, all, any,
  length, get_elem?, leb, ◌==◌, if◌then◌else◌,
}
use android_appsec_assessor.Prelude.Int.{pos}
use android_appsec_assessor.Prelude.Text.{codes, char_count, is_empty, split_slash}
use android_appsec_assessor.Prelude.Case.{casefold, ascii_upper}
use android_appsec_assessor.Errors.{Result, ok, err, fault, value_error, require, ◌>>=◌, ◌>>◌}
use android_appsec_assessor.Json.{
  Value, null, bool, num, str, arr, Items, nil, cons, Fields, end, field, get, get_or, Conversions,
  to_str,
}
use android_appsec_assessor.Scope.{is_in}
use android_appsec_assessor.Validation.{is_letter, is_ascii_digit, is_hex}
use android_appsec_assessor.Crypto.{CryptoKeyOrigin, CryptoOperation, key_origin_of}

abbrev pub forbidden : List String
forbidden =
    "key" ∷ "key_material" ∷ "raw_key" ∷ "iv" ∷ "raw_iv" ∷ "plaintext" ∷ "raw_plaintext"
    ∷ "password" ∷ "raw_password" ∷ "ciphertext" ∷ []

-- `names & set(value)` is not empty
unfoldable pub has_key : List String → Fields → Bool
has_key names end = false
has_key names (field k v fs) = is_in k names || has_key names fs

abbrev pub purposes : List String
purposes =
    "encrypt" ∷ "decrypt" ∷ "wrap" ∷ "unwrap" ∷ "digest" ∷ "sign" ∷ "verify" ∷ "derive" ∷ "unknown"
    ∷ []

-- `purpose in _PURPOSES`
unfoldable pub is_purpose : String → Bool
is_purpose s = is_in s purposes

abbrev pub operation_kinds : List String
operation_kinds = "cipher" ∷ "digest" ∷ "mac" ∷ "pbe" ∷ "random" ∷ "unknown" ∷ []

unfoldable pub is_operation_kind : String → Bool
is_operation_kind s = is_in s operation_kinds

abbrev pub iv_sources : List String
iv_sources = "random" ∷ "weak_random" ∷ "constant" ∷ "derived" ∷ "unknown" ∷ "none" ∷ []

unfoldable pub is_iv_source : String → Bool
is_iv_source s = is_in s iv_sources

-- `[A-Za-z0-9._-]`
abbrev name_char : ℕ → Bool
name_char c = is_letter c || is_ascii_digit c || c == b'.' || c == b'_' || c == b'-'

-- `[A-Za-z0-9._:-]{1,128}`
unfoldable pub is_operation_id : String → Bool
is_operation_id s =
    leb 1 (char_count s) && leb (char_count s) 128 && all (λ c. name_char c || c == b':') (codes s)

-- `_TRANSFORMATION`: one to three names with `/` between them
unfoldable pub is_transformation : String → Bool
is_transformation s =
    leb (length (split_slash s)) 3
    && all (λ part. not (is_empty part) && all name_char (codes part)) (split_slash s)

-- `_HASH`
unfoldable pub is_hash : String → Bool
is_hash s = char_count s == 64 && all is_hex (codes s)

unfoldable pub optional_hash : String → Value → Result (Option String)
optional_hash name null = ok none
optional_hash name (str s) =
    if is_hash s then ok (some s) else err (fault value_error ("Crypto " <> name <> " is invalid."))
optional_hash name _ = err (fault value_error ("Crypto " <> name <> " is invalid."))

-- A number in a range, `None` where there is no value.
unfoldable pub optional_int : ℕ → ℕ → String → Value → Result (Option ℕ)
optional_int minimum maximum message null = ok none
optional_int minimum maximum message (num (pos n)) =
    if leb minimum n && leb n maximum then ok (some n) else err (fault value_error message)
optional_int minimum maximum message _ = err (fault value_error message)

abbrev pub optional_non_negative_int : String → ℕ → Fields → Result (Option ℕ)
optional_non_negative_int name maximum fs =
    optional_int 0 maximum ("Crypto " <> name <> " is invalid.") (get name fs)

unfoldable pub boolean : Value → Result Bool
boolean (bool b) = ok b
boolean _ = err (fault value_error "Crypto executed/canary fields must be boolean.")

unfoldable pub optional_bool : Value → Result (Option Bool)
optional_bool null = ok none
optional_bool (bool b) = ok (some b)
optional_bool _ = err (fault value_error "Crypto iv_zero is invalid.")

unfoldable pub is_call : String → Bool
is_call s =
    leb 1 (char_count s)
    && leb (char_count s) 160
    && not (any (λ c. c == 13 || c == 10 || c == 0) (codes s))

-- The items of a call sequence, `none` where one is refused.
unfoldable pub calls_of : Items → Option (List String)
calls_of nil = some []
calls_of (cons (str s) vs) = elim (calls_of vs) [
  | none ↦ none
  | some ss ↦ if is_call s then some (s ∷ ss) else none
]
calls_of (cons _ vs) = none

unfoldable pub call_sequence_of : Value → Result (List String)
call_sequence_of (arr vs) = elim (calls_of vs) [
  | none ↦ err (fault value_error "Crypto call sequence is invalid.")
  | some ss ↦
      if leb (length ss) 64
      then ok ss
      else err (fault value_error "Crypto call sequence is invalid.")
]
call_sequence_of _ = err (fault value_error "Crypto call sequence is invalid.")

unfoldable pub accepted_origin : String → Result CryptoKeyOrigin
unfolding key_origin_of
accepted_origin s = elim (key_origin_of s) [
  | none ↦ err (fault value_error "Crypto key origin is invalid.")
  | some origin ↦ ok origin
]

-- `parts[0]` of a text that is split
abbrev pub first_part : List String → String
first_part [] = ""
first_part (part ∷ parts) = part

module _ (conv : Conversions) (source environment : String) where
  -- `CryptoOperation.from_mapping`
  unfoldable pub from_mapping : Fields → Result CryptoOperation
  from_mapping value = do
    require (not (has_key forbidden value)) value_error
        "Crypto observation contains forbidden raw material fields."
    let operation_id = to_str conv (get_or "operation_id" (str "") value)
    require (is_operation_id operation_id) value_error "Crypto operation ID is invalid."
    let transformation = to_str conv (get_or "transformation" (str "") value)
    require (is_transformation transformation) value_error "Crypto transformation is invalid."
    let parts = split_slash (ascii_upper transformation)
    let purpose = casefold (to_str conv (get_or "purpose" (str "unknown") value))
    require (is_purpose purpose) value_error "Crypto purpose is invalid."
    let operation_kind = casefold (to_str conv (get_or "operation_kind" (str "cipher") value))
    require (is_operation_kind operation_kind) value_error "Crypto operation kind is invalid."
    executed ← boolean (get "executed" value)
    canary_match ← boolean (get "canary_match" value)
    key_length ← optional_int 1 16384 "Crypto key length is invalid." (get "key_length_bits" value)
    key_hash ← optional_hash "key_sha256" (get "key_sha256" value)
    iv_hash ← optional_hash "iv_sha256" (get "iv_sha256" value)
    let iv_source = to_str conv (get_or "iv_source" (str "unknown") value)
    require (is_iv_source iv_source) value_error "Crypto IV source is invalid."
    key_origin ← accepted_origin (to_str conv (get_or "key_origin" (str "unknown") value))
    iv_length ← optional_non_negative_int "iv_length" 65536 value
    iv_zero ← optional_bool (get "iv_zero" value)
    salt_length ← optional_non_negative_int "salt_length" 65536 value
    iteration_count ← optional_non_negative_int "iteration_count" 2147483647 value
    call_sequence ← call_sequence_of (get_or "call_sequence" (arr nil) value)
    ok (record {
      operation_id = operation_id;
      transformation = transformation;
      algorithm = first_part parts;
      mode = get_elem? parts 1;
      padding = get_elem? parts 2;
      purpose = purpose;
      executed = executed;
      key_length_bits = key_length;
      key_sha256 = key_hash;
      iv_sha256 = iv_hash;
      iv_source = iv_source;
      key_origin = key_origin;
      canary_match = canary_match;
      source = source;
      environment = environment;
      operation_kind = operation_kind;
      iv_length = iv_length;
      iv_zero = iv_zero;
      salt_length = salt_length;
      iteration_count = iteration_count;
      call_sequence = call_sequence;
    })
