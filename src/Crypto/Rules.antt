-- ===== src/Crypto/Rules.antt =====
-- The rules of android_assessor/crypto_analysis.py: one definition for each, which yields a result or
-- none.
use android_appsec_assessor.Prelude.{
  ℕ, String, Bool, true, not, ◌&&◌, Option, none, some, List, [], ◌∷◌, ◌++◌, all, map, length,
  filter, ltb, ◌=ₛ◌, if◌then◌else◌,
}
use android_appsec_assessor.Prelude.Int.{pos}
use android_appsec_assessor.Prelude.Text.{is_empty}
use android_appsec_assessor.Prelude.Case.{before, sorted_set}
use android_appsec_assessor.Json.{Value, bool, num, str, arr, obj, Fields, end, field, of_list}
use android_appsec_assessor.Findings.{
  FindingStatus, pass, potential, confirmed, inconclusive, is_confirmed,
}
use android_appsec_assessor.Crypto.{CryptoPolicy, CryptoOperation}
use android_appsec_assessor.Crypto.Conditions.{
  Operations, is_weak_random, uses_weak_algorithm, uses_weak_digest, has_random_iv,
  uses_weak_random, uses_ecb, has_short_key, has_static_iv, has_zero_iv, has_low_iterations,
  has_static_key, is_incomplete, Pair, pair_before, iv_pair, pair_operations, reuses_iv, by_id,
}

pub record CryptoRuleResult : Type 0 where
  pub rule_id : String
  pub title : String
  pub status : FindingStatus
  pub confidence : String
  pub validation_type : String
  pub operation_ids : List String
  pub details : Fields
  pub finding_eligible : Bool
  pub physical_validation_status : String

-- `item.source == "fixture" and item.environment == "simulated"`
unfoldable pub is_fixture : CryptoOperation → Bool
is_fixture item = (item.source =ₛ "fixture") && (item.environment =ₛ "simulated")

-- `_result`
unfoldable pub result_of :
    String → String → FindingStatus → Operations → Fields → Operations → CryptoRuleResult
unfolding is_fixture is_confirmed
result_of rule_id title status matched details all_operations = record {
  rule_id = rule_id;
  title = title;
  status = status;
  confidence = if is_confirmed status then "high" else "medium";
  validation_type = "instrumented_validation";
  operation_ids = map (λ (item : CryptoOperation). item.operation_id) matched;
  details = details;
  finding_eligible = not (all is_fixture all_operations);
  physical_validation_status = "UNVERIFIED";
}

abbrev texts : List String → Value
texts ss = arr (of_list (map str ss))

abbrev numbers : List ℕ → Value
numbers ns = arr (of_list (map (λ n. num (pos n)) ns))

-- The values of the options that have one.
unfoldable pub present {ℓ} : {A : Type ℓ} → List (Option A) → List A
present [] = []
present (none ∷ os) = present os
present (some a ∷ os) = a ∷ present os

-- `{f(item) for item in items}`, sorted; of the optional texts those that are not empty.
abbrev text_set : (CryptoOperation → String) → Operations → Value
text_set f items = texts (sorted_set before (map f items))

abbrev present_texts : (CryptoOperation → Option String) → Operations → Value
present_texts f items =
    texts (sorted_set before (filter (λ s. not (is_empty s)) (present (map f items))))

-- Those that are not zero.
abbrev positive_numbers : (CryptoOperation → Option ℕ) → Operations → Value
positive_numbers f items = numbers (sorted_set ltb (filter (ltb 0) (present (map f items))))

abbrev present_numbers : (CryptoOperation → Option ℕ) → Operations → Value
present_numbers f items = numbers (sorted_set ltb (present (map f items)))

abbrev reuse_identifier : Operations → Pair → Value
reuse_identifier executed p = obj (
    field "key_sha256" (str p.0) (
      field "iv_sha256" (str p.1)
        (field "operation_count" (num (pos (length (pair_operations executed p)))) end)))

abbrev reused_pairs : Operations → List Pair
reused_pairs executed =
    sorted_set pair_before (present (map iv_pair (filter (reuses_iv executed) executed)))

-- `if matched: output.append(…)`
unfoldable pub when : Operations → CryptoRuleResult → List CryptoRuleResult
when [] result = []
when (item ∷ items) result = result ∷ []

-- What a rule reports: its identifier, title and status, the test of an operation, the details.
unfoldable pub rule :
    Operations
    → Operations
    → String
    → String
    → FindingStatus
    → (CryptoOperation → Bool)
    → (Operations → Fields)
    → List CryptoRuleResult
unfolding when result_of
rule values executed rule_id title status test details =
    let matched = filter test executed in
    when matched (result_of rule_id title status matched (details matched) values)

unfoldable pub random_uses : CryptoOperation → List String
unfolding has_random_iv is_weak_random
random_uses item =
    (if has_random_iv item then "initialization_vector" ∷ [] else [])
    ++ (if is_weak_random item.key_origin then "key_material" ∷ [] else [])

unfoldable pub all_uses : Operations → List String
unfolding random_uses
all_uses [] = []
all_uses (item ∷ items) = random_uses item ++ all_uses items

abbrev missing : List String → Fields
missing evidence = field "missing_evidence" (texts evidence) end

module _ (policy : CryptoPolicy) (values executed : Operations) where
  unfoldable pub algorithm_rules : List CryptoRuleResult
  unfolding uses_weak_algorithm uses_weak_digest uses_weak_random all_uses
  algorithm_rules =
      rule values executed "CRYPTO-WEAK-ALGORITHM" "Weak runtime crypto algorithm" confirmed
        (uses_weak_algorithm policy)
        (λ weak. field "algorithms" (text_set (λ item. item.algorithm) weak) end)
      ++ (rule values executed "CRYPTO-WEAK-DIGEST" "Weak digest or MAC observed at runtime"
            potential uses_weak_digest
            (λ weak.
              field "observed_algorithms" (text_set (λ item. item.algorithm) weak)
                (missing ("security-sensitive data or authentication context" ∷ [])))
          ++ rule values executed "CRYPTO-PREDICTABLE-RANDOM"
              "Weak random output used as runtime cryptographic material" confirmed uses_weak_random
              (λ weak. field "uses" (texts (sorted_set before (all_uses weak))) (missing [])))

  unfoldable pub key_rules : List CryptoRuleResult
  unfolding uses_ecb has_short_key has_static_iv has_zero_iv
  key_rules =
      rule values executed "CRYPTO-ECB" "ECB mode observed at runtime" confirmed uses_ecb
        (λ ecb. field "transformations" (text_set (λ item. item.transformation) ecb) end)
      ++ (rule values executed "CRYPTO-SHORT-KEY" "Runtime key length below policy" confirmed
            (has_short_key policy)
            (λ short.
              field "minimum_bits" (num (pos policy.minimum_symmetric_key_bits))
                (field "observed_bits" (positive_numbers (λ item. item.key_length_bits) short) end))
          ++ (rule values executed "CRYPTO-STATIC-IV" "Static IV source observed" confirmed
                has_static_iv
                (λ static. field "iv_hashes" (present_texts (λ item. item.iv_sha256) static) end)
              ++ rule values executed "CRYPTO-ZERO-IV" "All-zero IV observed at runtime" confirmed
                  has_zero_iv
                  (λ zeros.
                    field "iv_lengths" (present_numbers (λ item. item.iv_length) zeros)
                      (field "deterministic_zero_iv" (bool true) end))))

  unfoldable pub reuse_rules : List CryptoRuleResult
  unfolding when result_of reuses_iv by_id
  reuse_rules =
      let reused = by_id [] (filter (reuses_iv executed) executed) in
      when reused (
        result_of "CRYPTO-REUSED-IV" "IV reuse observed across encryption operations" confirmed
          reused
          (field "reuse_identifiers"
            (arr (of_list (map (reuse_identifier executed) (reused_pairs executed)))) end)
          values)

  unfoldable pub context_rules : List CryptoRuleResult
  unfolding has_low_iterations has_static_key is_incomplete
  context_rules =
      rule values executed "CRYPTO-LOW-PBE-ITERATIONS" "PBE iteration count below policy" potential
        (has_low_iterations policy)
        (λ low. field "minimum_iterations" (num (pos policy.minimum_pbe_iterations)) (
          field "observed_iterations" (present_numbers (λ item. item.iteration_count) low)
            (missing ("security-sensitive password derivation context" ∷ []))))
      ++ (rule values executed "CRYPTO-STATIC-KEY"
            "Potential static key material observed at runtime" potential has_static_key
            (λ static. field "key_hashes" (present_texts (λ item. item.key_sha256) static) end)
          ++ (rule values executed "CRYPTO-CANARY-BOUNDARY"
                "Controlled plaintext canary observed at crypto boundary" confirmed
                (λ item. item.canary_match) (λ canary. field "canary_match" (bool true) end)
              ++ rule values executed "CRYPTO-TRANSFORMATION-INCOMPLETE"
                  "Crypto transformation lacks mode or padding context" inconclusive is_incomplete
                  (λ incomplete.
                    field "transformations" (text_set (λ item. item.transformation) incomplete)
                      end)))

  unfoldable pub weaknesses : List CryptoRuleResult
  unfolding algorithm_rules key_rules reuse_rules context_rules
  weaknesses = algorithm_rules ++ (key_rules ++ (reuse_rules ++ context_rules))

  -- `if not output: output.append(…)`
  unfoldable pub or_pass : List CryptoRuleResult → List CryptoRuleResult
  unfolding result_of
  or_pass [] =
      result_of "CRYPTO-POLICY" "No configured crypto weakness observed" pass executed
        (field "executed_operation_count" (num (pos (length executed))) end) values
      ∷ []
  or_pass (result ∷ results) = result ∷ results
