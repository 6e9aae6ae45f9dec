-- ===== src/Tests/ScopeRuns.antt =====
-- Runs of the scope's tests and of a validation, and the witnesses of their properties.
use android_appsec_assessor.Prelude.{◌≡◌, refl, true, false, [], ◌∷◌, none, some}
use android_appsec_assessor.Prelude.Text.{is_space, strip}
use android_appsec_assessor.Prelude.Int.{pos}
use android_appsec_assessor.Errors.{ok}
use android_appsec_assessor.Validation.{dotted_name, validate_serial, validate_package_name}
use android_appsec_assessor.Json.{Fields, end, field, num, lookup}
use android_appsec_assessor.Scope.{
  ScopeConfig, ScopeLimits, default_limits, positive_int, known_limits, limits_of, require_action,
  require_actions, require_device_package,
}
use android_appsec_assessor.Findings.{
  potential, confirmed, ValidationRecord, FindingRecord, Findings, set_validation,
}
use android_appsec_assessor.Findings.Validated.{AllAdvance, set_validation-AllAdvance}

abbrev scope : ScopeConfig
scope = record {
  devices = "emulator-5554" ∷ [];
  packages = "org.example.app" ∷ [];
  allowed_actions = "inspect" ∷ "traffic_capture" ∷ [];
  limits = default_limits;
  allow_read_only_outside_scope = false;
}

allowed : require_actions scope ("traffic_capture" ∷ "inspect" ∷ []) ≡ ok tt
unfolding require_actions require_action
allowed = refl

in_scope : require_device_package scope "emulator-5554" " org.example.app" (some "inspect") ≡ ok tt
unfolding require_device_package require_action validate_serial validate_package_name dotted_name
    strip is_space
in_scope = refl

abbrev raw_limits : Fields
raw_limits = field "command_timeout_seconds" (num (pos 300)) end

abbrev longest : ScopeLimits
longest = record default_limits { command_timeout_seconds = 300 }

longest_accepted : limits_of raw_limits ≡ ok longest
unfolding limits_of known_limits positive_int lookup
longest_accepted = refl

abbrev finding : FindingRecord
finding = record {
  finding_id = "F-1";
  rule_id = "R-1";
  title = "";
  category = "";
  description = "";
  severity = "high";
  confidence = "medium";
  status = potential;
  analysis_type = "static";
  root_required = false;
  root_used = false;
  frida_used = false;
  validation_supported = true;
  validation = none;
  evidence_ids = "E-1" ∷ [];
  remediation = "";
  mappings = end;
  details = end;
  created_at = "2026-01-01T12:00:00+00:00";
  updated_at = "2026-01-01T12:00:00+00:00";
}

abbrev validation : ValidationRecord
validation = record {
  status = confirmed;
  validation_type = "intent";
  validated_at = "2026-01-01T13:00:00+00:00";
  canary = none;
  summary = "";
  evidence_ids = "E-1" ∷ "E-2" ∷ [];
  candidate_key = none;
  candidate_context = none;
}

abbrev two_findings : Findings
two_findings = record finding { finding_id = "F-0" } ∷ finding ∷ []

set_validation-AllAdvance_example :
    AllAdvance "F-1" two_findings
      (set_validation "2026-01-01T13:00:00+00:00" "F-1" validation two_findings).1
set_validation-AllAdvance_example =
    set_validation-AllAdvance "2026-01-01T13:00:00+00:00" "F-1" validation two_findings
