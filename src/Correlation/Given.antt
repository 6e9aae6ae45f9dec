-- ===== src/Correlation/Given.antt =====
-- Each event that a correlation accepts (android_assessor/scenario_correlation.py) stands for one of
-- the observations that it was given.
use mathlib.Core.Path.{subst}
use android_appsec_assessor.Prelude.{
  ℕ, suc, ◌+◌, String, ◌≡◌, refl, sym, inl, inr, Option, some, List, [], ◌∷◌, get_elem?, arith, All,
  Bool-cases,
}
use android_appsec_assessor.Errors.{Result, ok, err}
use android_appsec_assessor.Json.{Value, null, bool, num, str, arr, obj, Fields}
use android_appsec_assessor.Correlation.{Moment}
use android_appsec_assessor.Correlation.Summary.{ScenarioContext}
use android_appsec_assessor.Correlation.Observers.{Observer}
use android_appsec_assessor.Correlation.Events.{
  CorrelatedEvent, correlate_event, add_outcome, correlate_from, Observations, sort_events,
  insert_event, sorts_before, ScenarioCorrelationResult,
}
use android_appsec_assessor.Correlation.Accepted.{OwnsCanary}
use android_appsec_assessor.Correlation.Answered.{given_of}
use android_appsec_assessor.Correlation.Supported.{
  IsSupported, same_observer, correlate_fields-IsSupported,
}

-- An accepted event and the observation of its observer that it stands for.
pub record IsGiven (parse : String → Option Moment) (context : ScenarioContext) (o : Observations)
    (e : CorrelatedEvent) : Type 0 where
  pub index : ℕ
  pub event : Fields
  pub given : get_elem? (given_of o e.observer) index ≡ some (obj event)
  pub supported : IsSupported parse context event e

module _ (parse : String → Option Moment) (context : ScenarioContext) (owns : OwnsCanary context)
    (o : Observations) where
  abbrev AllGiven : List CorrelatedEvent → Type 0
  AllGiven events = All (IsGiven parse context o) events

  correlate_event-IsGiven :
      (observer : Observer) (index : ℕ) (v : Value)
      → get_elem? (given_of o observer) index ≡ some v
      → (e : CorrelatedEvent) → correlate_event parse context observer v ≡ ok e
      → IsGiven parse context o e
  unfolding correlate_event
  correlate_event-IsGiven observer index (obj event) given e h = record {
    index = index;
    event = event;
    given =
        subst (λ x. get_elem? (given_of o x) index ≡ some (obj event))
          (sym (same_observer parse context observer event h)) given;
    supported = correlate_fields-IsSupported parse context observer event h owns;
  }
  correlate_event-IsGiven observer index null given e h = cc
  correlate_event-IsGiven observer index (bool b) given e h = cc
  correlate_event-IsGiven observer index (num n) given e h = cc
  correlate_event-IsGiven observer index (str s) given e h = cc
  correlate_event-IsGiven observer index (arr vs) given e h = cc

  add_outcome-AllGiven :
      (observer : Observer) (index : ℕ) (result : Result CorrelatedEvent)
      (others : ScenarioCorrelationResult)
      → ((e : CorrelatedEvent) → result ≡ ok e → IsGiven parse context o e)
      → AllGiven others.events
      → AllGiven (add_outcome observer index result others).events
  unfolding add_outcome
  add_outcome-AllGiven observer index (ok e) others each h = (each e refl, h)
  add_outcome-AllGiven observer index (err x) others each h = h

  -- The events from a place on of the observations of one observer.
  abbrev StandAt : Observer → ℕ → List Value → Type 0
  StandAt observer index events =
      (i : ℕ) (v : Value)
      → get_elem? events i ≡ some v
      → get_elem? (given_of o observer) (index + i) ≡ some v

  StandAt-next :
      (observer : Observer) (index : ℕ) (event : Value) (events : List Value)
      → StandAt observer index (event ∷ events)
      → StandAt observer (index + 1) events
  StandAt-next observer index event events at i v h =
      let further : index + suc i ≡ index + 1 + i = omega arith in
      subst (λ n. get_elem? (given_of o observer) n ≡ some v) further (at (suc i) v h)

  StandAt-here :
      (observer : Observer) (index : ℕ) (event : Value) (events : List Value)
      → StandAt observer index (event ∷ events)
      → get_elem? (given_of o observer) index ≡ some event
  StandAt-here observer index event events at =
      let here : index + 0 ≡ index = omega arith in
      subst (λ n. get_elem? (given_of o observer) n ≡ some event) here (at 0 event refl)

  pub correlate_from-AllGiven :
      (observer : Observer) (index : ℕ) (events : List Value) (rest : ScenarioCorrelationResult)
      → StandAt observer index events
      → AllGiven rest.events
      → AllGiven (correlate_from parse context observer index events rest).events
  unfolding correlate_from
  correlate_from-AllGiven observer index [] rest at h = h
  correlate_from-AllGiven observer index (event ∷ events) rest at h =
      add_outcome-AllGiven observer index (correlate_event parse context observer event) _
        (correlate_event-IsGiven observer index event (StandAt-here observer index event events at))
        (correlate_from-AllGiven observer (index + 1) events rest
          (StandAt-next observer index event events at) h)

  pub StandAt-all : (observer : Observer) → StandAt observer 0 (given_of o observer)
  StandAt-all observer i v h =
      let same : i ≡ 0 + i = omega arith in
      subst (λ n. get_elem? (given_of o observer) n ≡ some v) same h

  insert_event-AllGiven :
      (e : CorrelatedEvent) (es : List CorrelatedEvent)
      → IsGiven parse context o e
      → AllGiven es
      → AllGiven (insert_event e es)
  unfolding insert_event
  insert_event-AllGiven e [] s h = (s, tt)
  insert_event-AllGiven e (f ∷ fs) s h = elim (Bool-cases (sorts_before f e)) [
    | inl later ↦ rw later (h.0, insert_event-AllGiven e fs s h.1)
    | inr here ↦ rw here (s, h)
  ]

  pub sort_events-AllGiven : (es : List CorrelatedEvent) → AllGiven es → AllGiven (sort_events es)
  unfolding sort_events
  sort_events-AllGiven [] h = tt
  sort_events-AllGiven (e ∷ es) h =
      insert_event-AllGiven e (sort_events es) h.0 (sort_events-AllGiven es h.1)
