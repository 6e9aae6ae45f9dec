-- ===== src/Crypto/Analysis.antt =====
-- `CryptoAnalyzer.analyze` of android_assessor/crypto_analysis.py: the results in the order of the
-- source.
use android_appsec_assessor.Prelude.{
  Bool, true, not, ◌&&◌, List, [], ◌∷◌, all, filter, ◌=ₛ◌, if◌then◌else◌,
}
use android_appsec_assessor.Errors.{Result, ok, value_error, require, ◌>>◌}
use android_appsec_assessor.Json.{str, end, field}
use android_appsec_assessor.Findings.{inconclusive}
use android_appsec_assessor.Crypto.{CryptoPolicy, CryptoOperation}
use android_appsec_assessor.Crypto.Conditions.{Operations}
use android_appsec_assessor.Crypto.Rules.{CryptoRuleResult, or_pass, result_of, weaknesses}

-- `(item.source == "fixture") == (item.environment == "simulated")`
unfoldable pub has_provenance : CryptoOperation → Bool
has_provenance item =
    if item.source =ₛ "fixture"
    then item.environment =ₛ "simulated"
    else not (item.environment =ₛ "simulated")

-- `len({(item.source, item.environment) for item in values}) <= 1`
unfoldable pub has_one_origin : Operations → Bool
has_one_origin [] = true
has_one_origin (first ∷ items) =
    all
      (λ (item : CryptoOperation).
        (item.source =ₛ first.source) && (item.environment =ₛ first.environment))
      items

unfoldable pub report : CryptoPolicy → Operations → Operations → List CryptoRuleResult
unfolding result_of weaknesses or_pass
report policy [] executed =
    result_of "CRYPTO-COVERAGE" "Crypto runtime coverage unavailable" inconclusive []
      (field "reason" (str "No normalized runtime crypto operation was observed.") end) []
    ∷ []
report policy (value ∷ values) [] =
    result_of "CRYPTO-COVERAGE" "Crypto runtime execution unavailable" inconclusive []
      (field "reason" (str "Normalized events did not prove a completed crypto operation.") end)
      (value ∷ values)
    ∷ []
report policy (value ∷ values) (item ∷ items) =
    or_pass policy (value ∷ values) (item ∷ items)
      (weaknesses policy (value ∷ values) (item ∷ items))

-- `CryptoAnalyzer.analyze`
unfoldable pub analyze : CryptoPolicy → Operations → Result (List CryptoRuleResult)
unfolding report has_provenance has_one_origin
analyze policy values = do
  require (all has_provenance values) value_error
      "Fixture crypto operations require simulated provenance."
  require (has_one_origin values) value_error
      "Crypto analysis cannot mix fixture and physical evidence."
  ok (report policy values (filter (λ (item : CryptoOperation). item.executed) values))
