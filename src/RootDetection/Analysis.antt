-- ===== src/RootDetection/Analysis.antt =====
-- `RootDetectionAnalyzer.analyze` of android_assessor/root_detection.py.
use android_appsec_assessor.Prelude.{
  String, Bool, true, false, not, ◌&&◌, Option, none, some, List, any, map, ◌=ₛ◌, if◌then◌else◌,
}
use android_appsec_assessor.Prelude.Case.{before, sorted_set}
use android_appsec_assessor.Errors.{Result, ok, value_error, require, ◌>>◌}
use android_appsec_assessor.Findings.{FindingStatus, pass, potential, inconclusive}
use android_appsec_assessor.RootDetection.{
  RootDetectionEvent, RootAppResponse, app_blocked, warning_only, no_observable_effect, Events,
  indicator_value, RootDetectionSummary, RootDetectionResult,
}

unfoldable pub is_blocked : RootAppResponse → Bool
is_blocked app_blocked = true
is_blocked _ = false

unfoldable pub is_warning : RootAppResponse → Bool
is_warning warning_only = true
is_warning _ = false

unfoldable pub has_no_effect : RootAppResponse → Bool
has_no_effect no_observable_effect = true
has_no_effect _ = false

-- `item.detected is True`
unfoldable pub was_detected : Option Bool → Bool
was_detected (some b) = b
was_detected none = false

-- `item.detected is False`
unfoldable pub was_missed : Option Bool → Bool
was_missed (some b) = not b
was_missed none = false

-- `len({(item.source, item.environment) for item in values}) > 1`: two of them differ.
unfoldable pub mixes_origins : Events → Bool
mixes_origins values =
    any
      (λ (a : RootDetectionEvent).
        any
          (λ (b : RootDetectionEvent).
            not ((a.source =ₛ b.source) && (a.environment =ₛ b.environment)))
          values)
      values

unfoldable pub summary_of : Events → RootDetectionSummary
unfolding was_detected is_blocked is_warning has_no_effect
summary_of values = record {
  root_check_present = any (λ (e : RootDetectionEvent). e.present) values;
  root_check_executed = any (λ (e : RootDetectionEvent). e.executed) values;
  root_detected = any (λ (e : RootDetectionEvent). was_detected e.detected) values;
  app_blocked = any (λ (e : RootDetectionEvent). is_blocked e.response) values;
  warning_only = any (λ (e : RootDetectionEvent). is_warning e.response) values;
  no_observable_effect = any (λ (e : RootDetectionEvent). has_no_effect e.response) values;
}

pub record Verdict : Type 0 where
  pub assessment : String
  pub status : FindingStatus
  pub confidence : String
  pub validation_type : String
  pub rationale : String

abbrev verdict : String → FindingStatus → String → String → String → Verdict
verdict a s c v r = record {
  assessment = a;
  status = s;
  confidence = c;
  validation_type = v;
  rationale = r;
}

-- The chain of conditions; `bypassed` says that a hook changed a check, `missed` that the executed
-- checks did not detect the expected root.
unfoldable pub verdict_of : RootDetectionSummary → Bool → Bool → Verdict
verdict_of s bypassed missed =
    if not s.root_check_present
    then verdict "root_check_not_observed" inconclusive "low" "instrumented_validation"
        "No static or runtime root-detection evidence was supplied."
    else if bypassed
    then verdict "security_control_bypassed_in_lab" potential "medium" "instrumented_validation"
        "A lab hook changed control behavior; this is not natural exploitability."
    else if not s.root_check_executed
    then verdict "root_check_present" pass "medium" "natural_validation"
        "A root check is present but runtime execution was not observed."
    else if s.root_detected && s.app_blocked
    then verdict "security_control_effective" pass "high" "instrumented_validation"
        "The executed check detected root and the app blocked access."
    else if s.root_detected && s.warning_only
    then verdict "security_control_warning" pass "high" "instrumented_validation"
        "The executed check detected root and displayed a warning."
    else if s.root_detected && s.no_observable_effect
    then verdict "security_control_no_effect" potential "high" "instrumented_validation"
        "The app detected root but no observable enforcement followed."
    else if missed
    then verdict "security_control_weak" potential "medium" "instrumented_validation"
        "Executed checks did not detect the simulated rooted condition."
    else verdict "root_check_inconclusive" inconclusive "low" "instrumented_validation"
        "Check execution was observed without a complete app response."

abbrev unlike_fixture : RootDetectionEvent → Bool
unlike_fixture e = not ((e.source =ₛ "fixture") && (e.environment =ₛ "simulated"))

-- `bool(values) and not simulated`: an event that is not a simulated fixture's.
unfoldable pub is_eligible_root : Events → Bool
is_eligible_root values = any unlike_fixture values

-- `expected_root_present and all(item.detected is False for item in values if item.executed)`
unfoldable pub all_missed : Bool → Events → Bool
unfolding was_missed
all_missed expected values =
    expected
    && not (any (λ (e : RootDetectionEvent). e.executed && not (was_missed e.detected)) values)

unfoldable pub root_verdict : Bool → Events → Verdict
unfolding summary_of verdict_of all_missed
root_verdict expected values =
    verdict_of (summary_of values) (any (λ (e : RootDetectionEvent). e.bypass_instrumented) values)
      (all_missed expected values)

abbrev pub indicators : Events → List String
indicators values =
    sorted_set before (map (λ (e : RootDetectionEvent). indicator_value e.indicator_type) values)

abbrev pub result_with :
    Verdict → RootDetectionSummary → List String → List String → Bool → RootDetectionResult
result_with v summary types ids eligible = record {
  assessment = v.assessment;
  finding_status = v.status;
  confidence = v.confidence;
  validation_type = v.validation_type;
  summary = summary;
  indicator_types = types;
  check_ids = ids;
  rationale = v.rationale;
  finding_eligible = eligible;
  physical_validation_status = "UNVERIFIED";
}

unfoldable pub result_of : Bool → Events → RootDetectionResult
unfolding summary_of root_verdict is_eligible_root
result_of expected values =
    result_with (root_verdict expected values) (summary_of values) (indicators values)
      (map (λ (e : RootDetectionEvent). e.check_id) values) (is_eligible_root values)

abbrev pub origins_message : String
origins_message = "Root-detection analysis cannot mix evidence environments."

-- `RootDetectionAnalyzer.analyze`
unfoldable pub analyze : Events → Bool → Result RootDetectionResult
unfolding mixes_origins result_of
analyze values expected_root_present = do
  require (not (mixes_origins values)) value_error origins_message
  ok (result_of expected_root_present values)
