-- ===== src/Tests/CorrelationRuns.antt =====
-- A scenario with one completed step and two observations, and the witness of the correlation.
use android_appsec_assessor.Prelude.{String, true, ◌≡◌, refl, Option, none, some, [], ◌∷◌, map}
use android_appsec_assessor.Prelude.Int.{pos}
use android_appsec_assessor.Json.{str, bool, num, arr, obj, nil, cons, Fields, end, field, get_or}
use android_appsec_assessor.Tls.Conditions.{equals}
use android_appsec_assessor.Correlation.{Moment, positive_pid, is_null, timestamp, is_safe_id}
use android_appsec_assessor.Correlation.Summary.{ScenarioContext}
use android_appsec_assessor.Correlation.Events.{
  Observations, RejectedEvent, ScenarioCorrelationResult, correlate_all, sort_events, add_outcome,
  correlate_event, correlate_fields, event_process, validate_observer,
}
use android_appsec_assessor.Correlation.Attribution.{resolve_step, event_fingerprint}

abbrev clock : String → Option Moment
clock s = some (record { instant = 5; aware = true; rendered = s })

abbrev step : Fields
step = field "step_id" (str "login") (
    field "status" (str "completed") (
      field "started_at" (str "2026-01-01T00:00:00Z")
        (field "ended_at" (str "2026-01-01T00:00:09Z") end)))

abbrev summary : Fields
summary = field "session_id" (str "s1") (
    field "scenario_id" (str "flow") (
      field "package" (str "org.example") (
        field "pid" (num (pos 42)) (
          field "scoped_backend_ids" (arr (cons (str "local") nil))
            (field "steps" (arr (cons (obj step) nil)) end)))))

abbrev observation : String → Fields
observation package_name = field "session_id" (str "s1") (
    field "package" (str package_name) (
      field "pid" (num (pos 42)) (
        field "timestamp" (str "2026-01-01T00:00:05Z") (
          field "evidence_id" (str "e1")
            (field "category" (str "crypto") (field "operation_completed" (bool true) end))))))

abbrev observations : Observations
observations = record {
  frida_events = obj (observation "org.example") ∷ obj (observation "org.other") ∷ [];
  traffic_events = [];
  logcat_events = [];
  storage_events = str "noise" ∷ [];
}

abbrev moment : Moment
moment = record { instant = 5; aware = true; rendered = "" }

abbrev context : ScenarioContext
context = record {
  session_id = "s1";
  scenario_id = "flow";
  package_name = "org.example";
  verified_pids = 42 ∷ [];
  process = none;
  canary_fingerprint = none;
  owned_fingerprints = [];
  scoped_backend_ids = "local" ∷ [];
  evidence_ids = [];
  steps =
      record {
        step_id = "login";
        started_at = record moment { rendered = "2026-01-01T00:00:00+00:00" };
        ended_at = record moment { rendered = "2026-01-01T00:00:09+00:00" };
        pid = some 42;
        process = none;
        activated_writes = [];
      }
      ∷ [];
}

abbrev result : ScenarioCorrelationResult
result =
    let found = correlate_all clock context observations in
    record found { events = sort_events found.events }

reasons :
    map (λ (e : RejectedEvent). e.rejection_reason) result.rejected
    ≡ "wrong_package" ∷ "event_not_mapping" ∷ []
unfolding correlate_all add_outcome correlate_event correlate_fields is_null get_or equals
    positive_pid timestamp resolve_step event_process is_safe_id event_fingerprint validate_observer
reasons = refl
