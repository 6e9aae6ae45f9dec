-- ===== src/Correlation/Events.antt =====
-- `_correlate_event` and `correlate_scenario_events` of android_assessor/scenario_correlation.py.
use android_appsec_assessor.Prelude.{
  ℕ, ◌+◌, ◌<>◌, String, Bool, true, false, not, ◌&&◌, ◌||◌, Option, none, some, List, [], ◌∷◌, ◌=ₛ◌,
  if◌then◌else◌,
}
use android_appsec_assessor.Prelude.Text.{is_empty}
use android_appsec_assessor.Prelude.Case.{before}
use android_appsec_assessor.Errors.{Result, ok, err, Error, ◌>>=◌, ◌>>◌}
use android_appsec_assessor.Json.{Value, null, str, obj, Fields, get, get_or, Conversions}
use android_appsec_assessor.Tls.Conditions.{equals}
use android_appsec_assessor.Correlation.{
  safe_id, positive_pid, validated_process, Moment, timestamp, is_null,
}
use android_appsec_assessor.Correlation.Summary.{ScenarioContext, has_pid, parse_summary}
use android_appsec_assessor.Correlation.Attribution.{
  demand, event_fingerprint, rejected_with, resolve_step,
}
use android_appsec_assessor.Correlation.Observers.{
  Observer, fits_pid, frida, has_exact_owned_match, ineligibility_reason, is_eligible, is_shown,
  logcat, observer_name, safe_attributes, storage, traffic, validate_storage, validate_traffic,
}

pub record CorrelatedEvent : Type 0 where
  pub session_id : String
  pub scenario_id : String
  pub step_id : String
  pub package_name : String
  pub process : String
  pub pid : ℕ
  pub timestamp : String
  pub observer : Observer
  pub canary_fingerprint : Option String
  pub evidence_id : String
  pub eligible_for_confirmation : Bool
  pub rejection_reason : Option String
  pub attributes : Fields

-- The text before a final `+00:00`.
unfoldable pub before_utc : String → Option String
before_utc String.[] = none
before_utc (String.◌∷◌ c s) = elim (String.◌∷◌ c s =ₛ "+00:00") [
  | true ↦ some ""
  | false ↦ elim (before_utc s) [ none ↦ none | some t ↦ some (String.◌∷◌ c t) ]
]

-- `_render_timestamp`
unfoldable pub render_timestamp : Moment → String
unfolding before_utc
render_timestamp t = elim (before_utc t.rendered) [ none ↦ t.rendered | some s ↦ s <> "Z" ]

unfoldable pub evidence_name : String → List (String × String) → Value
evidence_name name [] = null
evidence_name name ((k, v) ∷ rest) = if k =ₛ name then str v else evidence_name name rest

abbrev pub or_else_text : Option String → Option String → Option String
or_else_text (some s) other = some s
or_else_text none other = other

abbrev pub text_or : Option String → String → String
text_or (some s) d = s
text_or none d = d

abbrev is_expected_process : Option String → String → Bool
is_expected_process none process = true
is_expected_process (some s) process = process =ₛ s

unfoldable pub event_process : String → Value → Result String
unfolding validated_process
event_process package_name v = elim (validated_process package_name "event process" v) [
  | ok process ↦ ok process
  | err e ↦ err (rejected_with "wrong_process")
]

-- The checks of one observer.
unfoldable pub validate_observer :
    ScenarioContext → Observer → Fields → Moment → ℕ → Option String → Result (Unit {0})
unfolding validate_traffic validate_storage has_exact_owned_match
validate_observer context traffic event t pid fingerprint =
    validate_traffic context event fingerprint
validate_observer context storage event t pid fingerprint =
    validate_storage context event t pid fingerprint
validate_observer context logcat event t pid fingerprint =
    demand (not (is_shown fingerprint) || has_exact_owned_match event) "logcat_match_not_exact"
validate_observer context frida event t pid fingerprint = ok tt

module _ (parse : String → Option Moment) (context : ScenarioContext) (observer : Observer) where
  -- `_correlate_event` of a mapping
  unfoldable pub correlate_fields : Fields → Result CorrelatedEvent
  correlate_fields event = do
    demand
        (is_null (get "observer" event) || equals (get "observer" event) (observer_name observer))
        "observer_mismatch"
    demand (equals (get "session_id" event) context.session_id) "wrong_session"
    demand (equals (get_or "scenario_id" (str context.scenario_id) event) context.scenario_id)
        "wrong_scenario"
    demand (equals (get "package" event) context.package_name) "wrong_package"
    pid ← positive_pid "event pid" (get "pid" event)
    t ← timestamp parse "event timestamp" (get "timestamp" event)
    step ← resolve_step context event t
    demand (has_pid pid context.verified_pids) "wrong_pid"
    demand (fits_pid step.pid pid) "wrong_pid"
    let expected = or_else_text step.process context.process
    process ←
        event_process context.package_name
          (get_or "process" (str (text_or expected context.package_name)) event)
    demand (is_expected_process expected process) "wrong_process"
    evidence_id ←
        safe_id "evidence_id"
          (get_or "evidence_id" (evidence_name (observer_name observer) context.evidence_ids) event)
    fingerprint ← event_fingerprint context event
    validate_observer context observer event t pid fingerprint
    let eligible = is_eligible observer event fingerprint
    ok (record {
      session_id = context.session_id;
      scenario_id = context.scenario_id;
      step_id = step.step_id;
      package_name = context.package_name;
      process = process;
      pid = pid;
      timestamp = render_timestamp t;
      observer = observer;
      canary_fingerprint = fingerprint;
      evidence_id = evidence_id;
      eligible_for_confirmation = eligible;
      rejection_reason =
          if eligible then none else some (ineligibility_reason observer event fingerprint);
      attributes = safe_attributes event observer;
    })

  unfoldable pub correlate_event : Value → Result CorrelatedEvent
  correlate_event (obj event) = correlate_fields event
  correlate_event _ = err (rejected_with "event_not_mapping")

pub record RejectedEvent : Type 0 where
  pub observer : Observer
  pub event_index : ℕ
  pub rejection_reason : String

pub record ScenarioCorrelationResult : Type 0 where
  pub events : List CorrelatedEvent
  pub rejected : List RejectedEvent

abbrev with_event : CorrelatedEvent → ScenarioCorrelationResult → ScenarioCorrelationResult
with_event e r = record r { events = e ∷ r.events }

abbrev with_rejected : RejectedEvent → ScenarioCorrelationResult → ScenarioCorrelationResult
with_rejected e r = record r { rejected = e ∷ r.rejected }

-- `str(exc) or "invalid_event"`
abbrev pub reason_of : Error → String
reason_of e = if is_empty e.message then "invalid_event" else e.message

-- What one event adds: an accepted event, or the reason of its rejection.
unfoldable pub add_outcome :
    Observer → ℕ → Result CorrelatedEvent → ScenarioCorrelationResult → ScenarioCorrelationResult
add_outcome observer index (ok normalized) others = with_event normalized others
add_outcome observer index (err e) others =
    with_rejected
      (record { observer = observer; event_index = index; rejection_reason = reason_of e }) others

-- The loop over the events of one observer.
unfoldable pub correlate_from :
    (String → Option Moment)
    → ScenarioContext
    → Observer
    → ℕ
    → List Value
    → ScenarioCorrelationResult
    → ScenarioCorrelationResult
correlate_from parse context observer index [] rest = rest
correlate_from parse context observer index (event ∷ events) rest =
    add_outcome observer index (correlate_event parse context observer event)
      (correlate_from parse context observer (index + 1) events rest)

-- `key(a) < key(b)` of the final sort
unfoldable pub sorts_before : CorrelatedEvent → CorrelatedEvent → Bool
unfolding observer_name
sorts_before a b =
    before a.timestamp b.timestamp
    || (a.timestamp =ₛ b.timestamp) && before (observer_name a.observer) (observer_name b.observer)

-- A stable sort
unfoldable pub insert_event : CorrelatedEvent → List CorrelatedEvent → List CorrelatedEvent
unfolding sorts_before
insert_event e [] = e ∷ []
insert_event e (f ∷ fs) =
    let later = f ∷ insert_event e fs in if sorts_before f e then later else e ∷ f ∷ fs

unfoldable pub sort_events : List CorrelatedEvent → List CorrelatedEvent
unfolding insert_event
sort_events [] = []
sort_events (e ∷ es) = insert_event e (sort_events es)

-- The events of the four observers.
pub record Observations : Type 0 where
  pub frida_events : List Value
  pub traffic_events : List Value
  pub logcat_events : List Value
  pub storage_events : List Value

abbrev pub nothing_yet : ScenarioCorrelationResult
nothing_yet = record { events = []; rejected = [] }

unfoldable pub correlate_all :
    (String → Option Moment) → ScenarioContext → Observations → ScenarioCorrelationResult
unfolding correlate_from
correlate_all parse context o = correlate_from parse context frida 0 o.frida_events (
    correlate_from parse context traffic 0 o.traffic_events (
      correlate_from parse context logcat 0 o.logcat_events
        (correlate_from parse context storage 0 o.storage_events nothing_yet)))

-- `correlate_scenario_events`
unfoldable pub correlate_scenario_events :
    Conversions
    → (String → Option Moment)
    → Fields
    → Observations
    → Result ScenarioCorrelationResult
unfolding parse_summary correlate_all sort_events
correlate_scenario_events conv parse summary o = parse_summary conv parse summary >>= λ context.
    let r = correlate_all parse context o in ok (record r { events = sort_events r.events })
