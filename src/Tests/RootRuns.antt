-- ===== src/Tests/RootRuns.antt =====
-- Runs of the root-detection analysis, and the witness of its property.
use android_appsec_assessor.Prelude.{String, true, false, ◌≡◌, refl, none, some, [], ◌∷◌, arith}
use android_appsec_assessor.Errors.{Result, ok}
use android_appsec_assessor.RootDetection.{
  RootDetectionEvent, RootDetectionResult, su_file, app_blocked, unknown,
}
use android_appsec_assessor.RootDetection.Analysis.{analyze}
use android_appsec_assessor.RootDetection.Order.{SameEvents, without_ids, analyze-SameEvents}

abbrev check : String → RootDetectionEvent
check id = record {
  check_id = id;
  indicator_type = su_file;
  present = true;
  executed = true;
  detected = some true;
  response = app_blocked;
  bypass_instrumented = false;
  source = "session";
  environment = "device";
}

abbrev idle : RootDetectionEvent
idle = record (check "b") { detected = none; response = unknown }

abbrev assessment : Result RootDetectionResult → String
assessment (ok r) = r.assessment
assessment _ = ""

effective : assessment (analyze (check "a" ∷ idle ∷ []) true) ≡ "security_control_effective"
unfolding analyze
effective = refl

-- The detection and the refusal of the app may come from a check that did not run.
abbrev unexecuted : RootDetectionEvent
unexecuted = record (check "a") { executed = false }

mixed_checks : assessment (analyze (unexecuted ∷ idle ∷ []) true) ≡ "security_control_effective"
unfolding analyze
mixed_checks = refl

same : SameEvents (check "a" ∷ idle ∷ []) (idle ∷ check "a" ∷ idle ∷ [])
same q = ground arith

analyze-SameEvents_example :
    without_ids (analyze (check "a" ∷ idle ∷ []) true)
    ≡ without_ids (analyze (idle ∷ check "a" ∷ idle ∷ []) true)
analyze-SameEvents_example =
    analyze-SameEvents (check "a" ∷ idle ∷ []) (idle ∷ check "a" ∷ idle ∷ []) same true
