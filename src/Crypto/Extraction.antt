-- ===== src/Crypto/Extraction.antt =====
-- `load_crypto_fixture` and `operations_from_frida_events` of android_assessor/crypto_analysis.py: the
-- operations of a fixture, and those of the crypto events of a Frida session with the errors of the
-- events that are refused.
use android_appsec_assessor.Prelude.{
  ℕ, ◌+◌, ◌<>◌, String, Bool, true, false, not, Option, none, some, List, [], ◌∷◌, ◌=ₛ◌,
  if◌then◌else◌,
}
use android_appsec_assessor.Prelude.Text.{strip, is_empty, decimal}
use android_appsec_assessor.Errors.{Result, ok, err, fault, value_error, require, ◌>>=◌, ◌>>◌}
use android_appsec_assessor.Json.{
  Value, null, bool, str, arr, obj, Items, nil, cons, Fields, end, field, get, truthy, Conversions,
}
use android_appsec_assessor.Crypto.{CryptoOperation}
use android_appsec_assessor.Crypto.Reading.{from_mapping}

-- The fields of a `FridaEvent` that are read.
pub record CryptoEvent : Type 0 where
  pub category : String
  pub method : String
  pub arguments_redacted : Items
  pub canary_match : Bool

pub record CryptoExtractionResult : Type 0 where
  pub operations : List CryptoOperation
  pub errors : List String

-- `supported_methods`: the kind and the purpose of a method
unfoldable pub supported_method : String → Option (String × String)
supported_method method =
    if method =ₛ "cipher.do_final"
    then some ("cipher", "unknown")
    else if method =ₛ "digest.digest"
    then some ("digest", "digest")
    else if method =ₛ "mac.do_final"
    then some ("mac", "sign")
    else if method =ₛ "pbe.key_spec"
    then some ("pbe", "derive")
    else none

-- `payload.setdefault(name, value)`
unfoldable pub set_default : String → Value → Fields → Fields
set_default k v end = field k v end
set_default k v (field j w fs) =
    let rest = field j w (set_default k v fs) in if j =ₛ k then field j w fs else rest

-- `payload[name] = value`
unfoldable pub put_field : String → Value → Fields → Fields
put_field k v end = field k v end
put_field k v (field j w fs) =
    let rest = field j w (put_field k v fs) in if j =ₛ k then field j v fs else rest

unfoldable pub is_redacted : Value → Bool
is_redacted (str s) = s =ₛ "<redacted>"
is_redacted _ = false

-- A digest that the observer redacted counts as missing.
unfoldable pub without_redacted : String → Fields → Fields
unfolding put_field is_redacted
without_redacted name payload =
    if is_redacted (get name payload) then put_field name null payload else payload

-- `payload.get("transformation") or payload.get("algorithm")`
unfoldable pub named_transformation : Fields → Value
named_transformation payload =
    if truthy (get "transformation" payload)
    then get "transformation" payload
    else get "algorithm" payload

-- A text that is not blank.
unfoldable pub usable_text : Value → Option String
usable_text (str s) = if is_empty (strip s) then none else some s
usable_text _ = none

unfoldable pub completed : ℕ → CryptoEvent → String × String → String → Fields → Fields
unfolding set_default put_field without_redacted
completed index event (operation_kind, purpose) transformation payload =
    let named =
      set_default "operation_id" (str ("runtime-" <> decimal index <> "-" <> event.method))
        payload in
    let described = set_default "purpose" (str purpose) (
      set_default "operation_kind" (str operation_kind)
        (set_default "transformation" (str transformation) named)) in
    let executed = set_default "executed" (bool true) described in
    let sourced = set_default "key_origin" (str "unknown") (
      set_default "iv_source" (str (if operation_kind =ₛ "cipher" then "unknown" else "none"))
        executed) in
    let called = set_default "call_sequence" (arr (cons (str event.method) nil)) sourced in
    let marked = put_field "canary_match" (bool event.canary_match) called in
    without_redacted "iv_sha256" (without_redacted "key_sha256" marked)

abbrev with_operation : CryptoOperation → CryptoExtractionResult → CryptoExtractionResult
with_operation operation r = record r { operations = operation ∷ r.operations }

abbrev with_error : ℕ → String → CryptoExtractionResult → CryptoExtractionResult
with_error index message r = record r {
  errors = ("event " <> decimal index <> ": " <> message) ∷ r.errors;
}

module _ (conv : Conversions) (source environment : String) where
  -- What an event with metadata adds.
  unfoldable pub extract :
      ℕ → CryptoEvent → String × String → Fields → CryptoExtractionResult → CryptoExtractionResult
  unfolding usable_text named_transformation completed from_mapping
  extract index event kind payload rest = elim (usable_text (named_transformation payload)) [
    | none ↦ with_error index "crypto transformation is missing" rest
    | some transformation ↦
        elim (from_mapping conv source environment
          (completed index event kind transformation payload)) [
            | ok operation ↦ with_operation operation rest
            | err e ↦ with_error index e.message rest
          ]
  ]

  unfoldable pub extract_first :
      ℕ → CryptoEvent → String × String → Items → CryptoExtractionResult → CryptoExtractionResult
  unfolding extract
  extract_first index event kind (cons (obj payload) _) rest = extract index event kind payload rest
  extract_first index event kind _ rest = with_error index "crypto metadata is missing" rest

  -- The loop body for one event.
  unfoldable pub extract_event : ℕ → CryptoEvent → CryptoExtractionResult → CryptoExtractionResult
  unfolding extract_first supported_method
  extract_event index event rest =
      if not (event.category =ₛ "crypto") then rest else elim (supported_method event.method) [
        | none ↦ rest
        | some kind ↦ extract_first index event kind event.arguments_redacted rest
      ]

  unfoldable pub operations_from : ℕ → List CryptoEvent → CryptoExtractionResult
  unfolding extract_event
  operations_from index [] = record { operations = []; errors = [] }
  operations_from index (event ∷ events) =
      extract_event index event (operations_from (index + 1) events)

  unfoldable pub operations_from_frida_events : List CryptoEvent → CryptoExtractionResult
  unfolding operations_from
  operations_from_frida_events events = operations_from 1 events

-- `all(isinstance(item, Mapping) for item in operations)`, with the mappings
unfoldable pub mappings_of : Items → Option (List Fields)
mappings_of nil = some []
mappings_of (cons (obj fs) vs) = elim (mappings_of vs) [ none ↦ none | some ms ↦ some (fs ∷ ms) ]
mappings_of (cons _ vs) = none

unfoldable pub fixture_operations : Conversions → List Fields → Result (List CryptoOperation)
fixture_operations conv [] = ok []
fixture_operations conv (item ∷ items) = do
  operation ← from_mapping conv "fixture" "simulated" item
  operations ← fixture_operations conv items
  ok (operation ∷ operations)

abbrev is_text : String → Value → Bool
is_text s (str t) = t =ₛ s
is_text s _ = false

unfoldable pub fixture_items : Value → Result (List Fields)
unfolding mappings_of
fixture_items (arr vs) = elim (mappings_of vs) [
  | none ↦ err (fault value_error "Every crypto fixture operation must be an object.")
  | some items ↦ ok items
]
fixture_items _ = err (fault value_error "Crypto fixture operations must be a list.")

unfoldable pub load_crypto_fixture : Conversions → Fields → Result (List CryptoOperation)
unfolding fixture_items fixture_operations
load_crypto_fixture conv payload = do
  require (is_text "fixture" (get "source" payload)) value_error
      "Crypto fixture requires fixture/simulated provenance."
  require (is_text "simulated" (get "environment" payload)) value_error
      "Crypto fixture requires fixture/simulated provenance."
  items ← fixture_items (get "operations" payload)
  fixture_operations conv items
