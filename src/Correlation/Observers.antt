-- ===== src/Correlation/Observers.antt =====
-- The checks that android_assessor/scenario_correlation.py makes of one observer, what it admits for
-- confirmation and the attributes that it keeps.
use android_appsec_assessor.Prelude.{
  ℕ, String, Bool, true, false, not, ◌&&◌, ◌||◌, Option, none, some, List, [], ◌∷◌, any, find_first,
  leb, ◌==◌, ◌=ₛ◌, if◌then◌else◌,
}
use android_appsec_assessor.Prelude.Text.{codes, char_count}
use android_appsec_assessor.Errors.{Result, err, ◌>>=◌, ◌>>◌}
use android_appsec_assessor.Json.{
  Value, bool, num, str, arr, obj, Items, nil, cons, Fields, end, field, get,
}
use android_appsec_assessor.Scope.{is_in}
use android_appsec_assessor.Tls.Conditions.{equals, is_exactly_true}
use android_appsec_assessor.Correlation.{Moment}
use android_appsec_assessor.Correlation.Summary.{StepWindow, ScenarioContext}
use android_appsec_assessor.Correlation.Attribution.{demand, in_set, is_step, rejected_with}

abbrev pub is_shown : Option String → Bool
is_shown none = false
is_shown (some f) = true

unfoldable pub has_items : Value → Bool
has_items (arr (cons v vs)) = true
has_items _ = false

unfoldable pub has_exact_owned_match : Fields → Bool
unfolding is_exactly_true has_items
has_exact_owned_match event =
    is_exactly_true (get "exact_owned_value_match" event)
    || has_items (get "owned_value_fingerprints" event)

unfoldable pub validate_traffic : ScenarioContext → Fields → Option String → Result (Unit {0})
unfolding equals has_exact_owned_match in_set is_exactly_true
validate_traffic context event fingerprint = do
  demand (equals (get "event" event) "request") "traffic_not_request"
  demand (is_shown fingerprint && has_exact_owned_match event) "traffic_missing_exact_owned_value"
  attributed ← in_set (get "attribution" event) ("scenario_owned_value" ∷ "validation_canary" ∷ [])
  demand attributed "traffic_without_owned_attribution"
  demand
      (equals (get "backend_scope" event) "scoped_local"
        || is_exactly_true (get "scope_allowed" event))
      "traffic_backend_not_scoped_local"
  declared ← in_set (get "backend_id" event) context.scoped_backend_ids
  demand declared "traffic_backend_not_declared"

unfoldable pub activated : Value → StepWindow → Bool
activated (str s) step = is_in s step.activated_writes
activated _ step = false

abbrev pub fits_pid : Option ℕ → ℕ → Bool
fits_pid none pid = true
fits_pid (some p) pid = p == pid

unfoldable pub validate_write : ScenarioContext → Fields → Moment → ℕ → Result (Unit {0})
unfolding activated
validate_write context event t pid =
    elim (find_first (is_step (get "activated_write_step_id" event)) context.steps) [
      | none ↦ err (rejected_with "storage_write_step_not_completed")
      | some step ↦
          demand (activated (get "write_activation" event) step) "storage_write_not_activated"
          >> (demand (fits_pid step.pid pid) "storage_write_wrong_pid"
              >> demand (leb step.ended_at.instant t.instant)
                  "storage_observed_before_write_completed")
    ]

unfoldable pub validate_storage :
    ScenarioContext → Fields → Moment → ℕ → Option String → Result (Unit {0})
unfolding has_exact_owned_match is_exactly_true validate_write
validate_storage context event t pid fingerprint = do
  demand (is_shown fingerprint && has_exact_owned_match event) "storage_missing_exact_owned_value"
  demand (is_exactly_true (get "package_owned" event)) "storage_not_package_owned"
  demand (is_exactly_true (get "plaintext" event)) "storage_not_plaintext"
  demand (is_exactly_true (get "baseline_delta" event)) "storage_without_baseline_delta"
  validate_write context event t pid

pub data Observer : Type 0 where
  frida traffic logcat storage : Observer

unfoldable pub observer_name : Observer → String
observer_name frida = "frida"
observer_name traffic = "traffic"
observer_name logcat = "logcat"
observer_name storage = "storage"

unfoldable pub executes : Items → Bool
unfolding is_exactly_true
executes nil = false
executes (cons (obj fs) vs) = is_exactly_true (get "executed" fs) || executes vs
executes (cons _ vs) = executes vs

abbrev executed_arguments : Value → Bool
executed_arguments (arr vs) = executes vs
executed_arguments _ = false

-- `_operation_completed` of a Frida event
unfoldable pub operation_completed : Fields → Bool
unfolding is_exactly_true equals executes
operation_completed event =
    is_exactly_true (get "operation_completed" event)
    || equals (get "category" event) "crypto" && executed_arguments (get "arguments_redacted" event)

unfoldable pub is_eligible : Observer → Fields → Option String → Bool
unfolding operation_completed has_exact_owned_match
is_eligible traffic event fingerprint = true
is_eligible storage event fingerprint = true
is_eligible logcat event fingerprint = is_shown fingerprint && has_exact_owned_match event
is_eligible frida event fingerprint = operation_completed event

-- `_confirmation_ineligibility_reason`
unfoldable pub ineligibility_reason : Observer → Fields → Option String → String
unfolding equals
ineligibility_reason logcat event fingerprint = "logcat_missing_exact_owned_value"
ineligibility_reason frida event fingerprint =
    if equals (get "category" event) "crypto"
    then "crypto_operation_not_completed"
    else if equals (get "category" event) "logging"
    then (if is_shown fingerprint
        then "logging_sink_not_confirmation_eligible"
        else "logging_event_missing_exact_canary_or_owned_value")
    else if equals (get "category" event) "storage"
    then "storage_sink_missing_activated_plaintext_write"
    else "frida_event_not_confirmation_eligible"
ineligibility_reason _ event fingerprint = "observer_not_confirmation_eligible"

-- `sorted(allowed)`
abbrev pub attribute_names : List String
attribute_names =
    "algorithm" ∷ "attribution" ∷ "backend_id" ∷ "backend_scope" ∷ "baseline_delta" ∷ "canary_match"
    ∷ "category" ∷ "cleartext" ∷ "event" ∷ "exact_owned_value_match" ∷ "hook_id" ∷ "method"
    ∷ "operation_completed" ∷ "operation_kind" ∷ "outcome" ∷ "package_owned" ∷ "plaintext"
    ∷ "scheme" ∷ "scope_allowed" ∷ "storage_area" ∷ "transformation" ∷ "url_scheme"
    ∷ "write_activation" ∷ []

unfoldable pub is_plain_attribute : Value → Bool
is_plain_attribute (bool b) = true
is_plain_attribute (num n) = true
is_plain_attribute (str s) = leb (char_count s) 256 && not (any (λ c. c == 13 || c == 10) (codes s))
is_plain_attribute _ = false

unfoldable pub attributes_of : List String → Fields → Fields
unfolding is_plain_attribute
attributes_of [] event = end
attributes_of (name ∷ names) event =
    let rest = attributes_of names event in
    if is_plain_attribute (get name event) then field name (get name event) rest else rest

-- `attributes[name] = value`
unfoldable pub put_attribute : String → Value → Fields → Fields
put_attribute k v end = field k v end
put_attribute k v (field j w fs) =
    let rest = field j w (put_attribute k v fs) in if j =ₛ k then field j v fs else rest

unfoldable pub is_frida : Observer → Bool
is_frida frida = true
is_frida _ = false

unfoldable pub safe_attributes : Fields → Observer → Fields
unfolding attributes_of put_attribute operation_completed is_frida
safe_attributes event observer =
    let attributes = attributes_of attribute_names event in
    if is_frida observer && operation_completed event
    then put_attribute "operation_completed" (bool true) attributes
    else attributes
