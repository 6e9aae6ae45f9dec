-- ===== src/Correlation/Complete.antt =====
-- What a correlation as a whole returns: each observation once, and the accepted ones supported.
use android_appsec_assessor.Prelude.{ℕ, ◌+◌, String, ◌≡◌, Option, some, [], length, get_elem?, All}
use android_appsec_assessor.Json.{Value, arr, Items, Fields, get}
use android_appsec_assessor.Correlation.{Moment}
use android_appsec_assessor.Correlation.Summary.{ScenarioContext}
use android_appsec_assessor.Correlation.Observers.{Observer, traffic, logcat, storage}
use android_appsec_assessor.Correlation.Events.{
  correlate_event, correlate_from, correlate_all, Observations, sort_events,
  ScenarioCorrelationResult,
}
use android_appsec_assessor.Correlation.Accepted.{OwnsCanary}
use android_appsec_assessor.Correlation.Answered.{given_of, Answered}
use android_appsec_assessor.Correlation.Given.{IsGiven}
use android_appsec_assessor.Correlation.Steps.{IsCompleted}

abbrev outcomes : ScenarioCorrelationResult → ℕ
outcomes r = length r.events + length r.rejected

-- What a correlation owes its caller.
pub record IsCorrelation (parse : String → Option Moment) (summary : Fields)
    (context : ScenarioContext) (o : Observations) (r : ScenarioCorrelationResult) : Type 0 where
  pub items : Items
  pub steps_given : get "steps" summary ≡ arr items
  pub completed : All (IsCompleted parse items) context.steps
  pub supported : All (IsGiven parse context o) r.events
  pub answered :
      (observer : Observer) (index : ℕ) (v : Value)
      → get_elem? (given_of o observer) index ≡ some v
      → Answered r observer index (correlate_event parse context observer v)
  pub complete :
      length r.events + length r.rejected
      ≡ length o.frida_events
        + length o.traffic_events
        + length o.logcat_events
        + length o.storage_events

abbrev correlated :
    (String → Option Moment) → ScenarioContext → Observations → ScenarioCorrelationResult
correlated parse context o =
    let found = correlate_all parse context o in record found { events = sort_events found.events }

module _ (parse : String → Option Moment) (context : ScenarioContext) (owns : OwnsCanary context)
    (o : Observations) where
  abbrev of_storage : ScenarioCorrelationResult
  of_storage =
      correlate_from parse context storage 0 o.storage_events
        (record { events = []; rejected = [] })

  abbrev of_logcat : ScenarioCorrelationResult
  of_logcat = correlate_from parse context logcat 0 o.logcat_events of_storage

  abbrev of_traffic : ScenarioCorrelationResult
  of_traffic = correlate_from parse context traffic 0 o.traffic_events of_logcat
