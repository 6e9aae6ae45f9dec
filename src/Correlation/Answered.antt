-- ===== src/Correlation/Answered.antt =====
-- The answer to each observation of a correlation (android_assessor/scenario_correlation.py): the
-- accepted event, or the rejection with the place of the observation.
use mathlib.Core.Path.{subst}
use android_appsec_assessor.Prelude.{
  ℕ, zero, suc, ◌+◌, String, ◌≡◌, refl, Listed, inl, inr, Option, some, List, [], ◌∷◌, get_elem?,
  arith, Bool-cases,
}
use android_appsec_assessor.Errors.{Error, Result, ok, err}
use android_appsec_assessor.Json.{Value}
use android_appsec_assessor.Correlation.{Moment}
use android_appsec_assessor.Correlation.Summary.{ScenarioContext}
use android_appsec_assessor.Correlation.Observers.{Observer, frida, traffic, logcat, storage}
use android_appsec_assessor.Correlation.Events.{
  CorrelatedEvent, RejectedEvent, reason_of, correlate_event, add_outcome, correlate_from,
  Observations, correlate_all, sort_events, insert_event, sorts_before, ScenarioCorrelationResult,
}

-- The observations of one observer.
abbrev pub given_of : Observations → Observer → List Value
given_of o frida = o.frida_events
given_of o traffic = o.traffic_events
given_of o logcat = o.logcat_events
given_of o storage = o.storage_events

abbrev pub rejection : Observer → ℕ → Error → RejectedEvent
rejection observer index e = record {
  observer = observer;
  event_index = index;
  rejection_reason = reason_of e;
}

-- What became of an observation is in the result: it is accepted or, at its place, rejected.
abbrev pub Answered : ScenarioCorrelationResult → Observer → ℕ → Result CorrelatedEvent → Type 0
Answered r observer index (ok e) = Listed e r.events
Answered r observer index (err x) = Listed (rejection observer index x) r.rejected

Answered-add_other :
    (r : ScenarioCorrelationResult) (observer : Observer) (index : ℕ)
    (outcome : Result CorrelatedEvent) (other : Observer) (place : ℕ)
    (another : Result CorrelatedEvent)
    → Answered r observer index outcome
    → Answered (add_outcome other place another r) observer index outcome
unfolding add_outcome
Answered-add_other r observer index (ok e) other place (ok f) h = inr h
Answered-add_other r observer index (ok e) other place (err y) h = h
Answered-add_other r observer index (err x) other place (ok f) h = h
Answered-add_other r observer index (err x) other place (err y) h = inr h

Answered-add_outcome :
    (r : ScenarioCorrelationResult) (observer : Observer) (index : ℕ)
    (outcome : Result CorrelatedEvent)
    → Answered (add_outcome observer index outcome r) observer index outcome
unfolding add_outcome
Answered-add_outcome r observer index (ok e) = inl refl
Answered-add_outcome r observer index (err x) = inl refl

Listed-insert_event :
    (x e : CorrelatedEvent) (es : List CorrelatedEvent)
    → Listed x (e ∷ es)
    → Listed x (insert_event e es)
unfolding insert_event
Listed-insert_event x e [] h = h
Listed-insert_event x e (f ∷ fs) h = elim (Bool-cases (sorts_before f e)) [
  | inr here ↦ rw here h
  | inl later ↦ rw later (elim h [
    | inl same ↦ inr (Listed-insert_event x e fs (inl same))
    | inr (inl same) ↦ inl same
    | inr (inr among) ↦ inr (Listed-insert_event x e fs (inr among))
  ])
]

Listed-sort_events :
    (x : CorrelatedEvent) (es : List CorrelatedEvent) → Listed x es → Listed x (sort_events es)
unfolding sort_events
Listed-sort_events x [] h = h
Listed-sort_events x (e ∷ es) (inl same) = Listed-insert_event x e (sort_events es) (inl same)
Listed-sort_events x (e ∷ es) (inr among) =
    Listed-insert_event x e (sort_events es) (inr (Listed-sort_events x es among))

pub Answered-sort_events :
    (r : ScenarioCorrelationResult) (observer : Observer) (index : ℕ)
    (outcome : Result CorrelatedEvent)
    → Answered r observer index outcome
    → Answered (record r { events = sort_events r.events }) observer index outcome
Answered-sort_events r observer index (ok e) h = Listed-sort_events e r.events h
Answered-sort_events r observer index (err x) h = h

module _ (parse : String → Option Moment) (context : ScenarioContext) where
  Answered-correlate_other :
      (other : Observer) (place : ℕ) (events : List Value) (rest : ScenarioCorrelationResult)
      (observer : Observer) (index : ℕ) (outcome : Result CorrelatedEvent)
      → Answered rest observer index outcome
      → Answered (correlate_from parse context other place events rest) observer index outcome
  unfolding correlate_from
  Answered-correlate_other other place [] rest observer index outcome h = h
  Answered-correlate_other other place (v ∷ vs) rest observer index outcome h =
      Answered-add_other _ observer index outcome other place _
        (Answered-correlate_other other (place + 1) vs rest observer index outcome h)

  Answered-correlate_from :
      (observer : Observer) (start : ℕ) (events : List Value) (rest : ScenarioCorrelationResult)
      (i : ℕ) (v : Value)
      → get_elem? events i ≡ some v
      → Answered
          (correlate_from parse context observer start events rest)
          observer
          (start + i)
          (correlate_event parse context observer v)
  unfolding correlate_from
  Answered-correlate_from observer start [] rest i v h = cc
  Answered-correlate_from observer start (w ∷ vs) rest zero v h =
      let same : w ≡ v = cc h in
      let here : start ≡ start + 0 = omega arith in
      let outcome = correlate_event parse context observer w in
      let r =
        add_outcome observer start outcome
          (correlate_from parse context observer (start + 1) vs rest) in
      subst (λ x. Answered r observer (start + 0) (correlate_event parse context observer x)) same
        (subst (λ n. Answered r observer n outcome) here
          (Answered-add_outcome _ observer start outcome))
  Answered-correlate_from observer start (w ∷ vs) rest (suc i) v h =
      let further : start + 1 + i ≡ start + suc i = omega arith in
      let outcome = correlate_event parse context observer v in
      Answered-add_other _ observer (start + suc i) outcome observer start _ (
        subst
          (λ n.
            Answered (correlate_from parse context observer (start + 1) vs rest) observer n outcome)
          further (Answered-correlate_from observer (start + 1) vs rest i v h))

  pub Answered-correlate_all :
      (o : Observations) (observer : Observer) (i : ℕ) (v : Value)
      → get_elem? (given_of o observer) i ≡ some v
      → Answered
          (correlate_all parse context o)
          observer
          i
          (correlate_event parse context observer v)
  unfolding correlate_all
  Answered-correlate_all o observer i v h = among observer h
    where
      first :
          (observer : Observer) (rest : ScenarioCorrelationResult)
          → get_elem? (given_of o observer) i ≡ some v
          → Answered
              (correlate_from parse context observer 0 (given_of o observer) rest)
              observer
              i
              (correlate_event parse context observer v)
      first observer rest h =
          let none_before : 0 + i ≡ i = omega arith in
          subst
            (λ n.
              Answered (correlate_from parse context observer 0 (given_of o observer) rest) observer
                n (correlate_event parse context observer v))
            none_before (Answered-correlate_from observer 0 (given_of o observer) rest i v h)

      among :
          (observer : Observer)
          → get_elem? (given_of o observer) i ≡ some v
          → Answered
              (correlate_all parse context o)
              observer
              i
              (correlate_event parse context observer v)
      among frida h = first frida _ h
      among traffic h =
          Answered-correlate_other frida 0 o.frida_events _ traffic i _ (first traffic _ h)
      among logcat h =
          Answered-correlate_other frida 0 o.frida_events _ logcat i _
            (Answered-correlate_other traffic 0 o.traffic_events _ logcat i _ (first logcat _ h))
      among storage h = Answered-correlate_other frida 0 o.frida_events _ storage i _ (
          Answered-correlate_other traffic 0 o.traffic_events _ storage i _
            (Answered-correlate_other logcat 0 o.logcat_events _ storage i _ (first storage _ h)))
