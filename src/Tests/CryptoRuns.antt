-- ===== src/Tests/CryptoRuns.antt =====
-- Runs of the analysis of crypto operations, and the witnesses of its properties.
use android_appsec_assessor.Prelude.{
  String, true, false, ◌≡◌, refl, none, some, List, [], ◌∷◌, any, map, All,
}
use android_appsec_assessor.Prelude.Int.{pos}
use android_appsec_assessor.Errors.{Result, ok}
use android_appsec_assessor.Json.{
  null, bool, num, str, obj, nil, cons, Fields, end, field, Conversions, to_str, truthy, get_or,
}
use android_appsec_assessor.Prelude.Text.{strip, decimal}
use android_appsec_assessor.Crypto.{CryptoKeyOrigin, CryptoOperation, default_policy}
use android_appsec_assessor.Crypto.Reading.{
  from_mapping, is_purpose, is_operation_kind, is_iv_source, is_operation_id, is_transformation,
  has_key, boolean, optional_int, optional_hash, accepted_origin, optional_bool, call_sequence_of,
  calls_of, is_call,
}
use android_appsec_assessor.Crypto.Conditions.{Operations, reuses_iv}
use android_appsec_assessor.Crypto.Rules.{CryptoRuleResult, rule}
use android_appsec_assessor.Crypto.Analysis.{analyze, report}
use android_appsec_assessor.Crypto.Extraction.{CryptoEvent, operations_from_frida_events}
use android_appsec_assessor.Crypto.Accepted.{IsAccepted, from_mapping-IsAccepted}
use android_appsec_assessor.Crypto.Grounded.{IsGrounded, analyze-AllGrounded}
use android_appsec_assessor.Crypto.Passing.{Passes, is_pass, analyze-Passes}
use android_appsec_assessor.Crypto.Reuse.{reused_with, All-reuses_iv}
use android_appsec_assessor.Prelude.Case.{casefold, ascii_upper, sorted_set, before}

abbrev conv : Conversions
conv = record { repr = λ v. "?"; parse = λ s. none }

abbrev observation : Fields
observation = field "operation_id" (str "op:1") (
    field "transformation" (str "AES/gcm/NoPadding") (
      field "purpose" (str "Encrypt") (
        field "executed" (bool true) (
          field "canary_match" (bool false)
            (field "key_length_bits" (num (pos 256)) (field "iv_source" (str "random") end))))))

abbrev strong : CryptoOperation
strong = record {
  operation_id = "op:1";
  transformation = "AES/gcm/NoPadding";
  algorithm = "AES";
  mode = some "GCM";
  padding = some "NOPADDING";
  purpose = "encrypt";
  executed = true;
  key_length_bits = some 256;
  key_sha256 = none;
  iv_sha256 = none;
  iv_source = "random";
  key_origin = CryptoKeyOrigin.unknown;
  canary_match = false;
  source = "session";
  environment = "device";
  operation_kind = "cipher";
  iv_length = none;
  iv_zero = none;
  salt_length = none;
  iteration_count = none;
  call_sequence = [];
}

read_observation : from_mapping conv "session" "device" observation ≡ ok strong
unfolding from_mapping has_key is_operation_id is_transformation is_purpose is_operation_kind
    is_iv_source boolean optional_int optional_hash accepted_origin optional_bool call_sequence_of
    calls_of casefold ascii_upper to_str get_or
read_observation = refl

from_mapping-IsAccepted_example : IsAccepted "session" "device" observation strong
from_mapping-IsAccepted_example =
    from_mapping-IsAccepted conv "session" "device" observation {op = strong} read_observation

-- The key and vector of two encryptions by DES in ECB mode.
abbrev weak : String → CryptoOperation
weak id = record strong {
  operation_id = id;
  algorithm = "DES";
  mode = some "ECB";
  key_length_bits = some 56;
  key_sha256 = some "k";
  iv_sha256 = some "v";
}

abbrev rule_ids : Result (List CryptoRuleResult) → List String
rule_ids (ok results) = map (λ (r : CryptoRuleResult). r.rule_id) results
rule_ids _ = []

weak_results :
    rule_ids (analyze default_policy (weak "a" ∷ strong ∷ weak "b" ∷ []))
    ≡ "CRYPTO-WEAK-ALGORITHM" ∷ "CRYPTO-ECB" ∷ "CRYPTO-SHORT-KEY" ∷ "CRYPTO-REUSED-IV" ∷ []
unfolding analyze rule sorted_set before
weak_results = refl

abbrev mixed : Operations
mixed = weak "a" ∷ strong ∷ weak "b" ∷ []

abbrev mixed_results : List CryptoRuleResult
mixed_results = report default_policy mixed mixed

mixed_run : analyze default_policy mixed ≡ ok mixed_results
unfolding analyze
mixed_run = refl

analyze-AllGrounded_example : All (IsGrounded mixed) mixed_results
analyze-AllGrounded_example =
    analyze-AllGrounded default_policy mixed {results = mixed_results} mixed_run

strong_run :
    analyze default_policy (strong ∷ []) ≡ ok (report default_policy (strong ∷ []) (strong ∷ []))
unfolding analyze
strong_run = refl

strong_passes :
    any
      (λ (r : CryptoRuleResult). is_pass r.status)
      (report default_policy (strong ∷ []) (strong ∷ []))
    ≡ true
unfolding report rule
strong_passes = refl

analyze-Passes_example : Passes default_policy (strong ∷ [])
analyze-Passes_example =
    analyze-Passes default_policy (strong ∷ [])
      {results = report default_policy (strong ∷ []) (strong ∷ [])} strong_run strong_passes

All-reuses_iv_example : All (λ a. reuses_iv mixed a ≡ any (reused_with a) mixed) mixed
All-reuses_iv_example = All-reuses_iv mixed

-- A transformation that is `null` hides the algorithm that stands beside it.
abbrev unnamed_cipher : CryptoEvent
unnamed_cipher = record {
  category = "crypto";
  method = "cipher.do_final";
  arguments_redacted =
      cons (obj (field "transformation" null (field "algorithm" (str "DES") end))) nil;
  canary_match = false;
}

abbrev algorithms : List CryptoOperation → List String
algorithms items = map (λ (item : CryptoOperation). item.algorithm) items

null_transformation :
    algorithms
      (operations_from_frida_events conv "session" "device" (unnamed_cipher ∷ [])).operations
    ≡ "NONE" ∷ []
unfolding operations_from_frida_events has_key is_operation_id is_transformation is_purpose
    is_operation_kind is_iv_source boolean optional_int optional_hash accepted_origin optional_bool
    call_sequence_of calls_of casefold ascii_upper to_str is_call truthy get_or strip decimal
null_transformation = refl
