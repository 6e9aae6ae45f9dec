-- ===== src/Correlation/Supported.antt =====
-- An observation that the correlation accepts is supported by the completed scenario.
use mathlib.Core.Path.{subst}
use android_appsec_assessor.Prelude.{
  ℕ, String, true, ◌&&◌, ◌||◌, ◌≡◌, ◌∙◌, ap, inl, inr, Option, some, any, arith, eq_iff,
  Option-cases, Bool-cases, find_first, leb, Bool,
}
use android_appsec_assessor.Errors.{ok, Result-cases}
use android_appsec_assessor.Json.{Fields, get, Conversions}
use android_appsec_assessor.Scope.{is_in}
use android_appsec_assessor.Tls.Conditions.{equals, is_exactly_true}
use android_appsec_assessor.Correlation.{Moment, positive_pid, timestamp}
use android_appsec_assessor.Correlation.Summary.{
  StepWindow, ScenarioContext, has_pid, parse_summary,
}
use android_appsec_assessor.Correlation.Observers.{
  activated, validate_write, validate_traffic, validate_storage, Observer, frida, traffic, logcat,
  storage, is_frida, fits_pid, is_shown, has_exact_owned_match, is_eligible,
}
use android_appsec_assessor.Correlation.Events.{
  CorrelatedEvent, render_timestamp, validate_observer, correlate_fields,
}
use android_appsec_assessor.Correlation.Attribution.{
  is_step, in_set, resolve_step, event_fingerprint,
}
use android_appsec_assessor.Correlation.Accepted.{
  any-of_find_first, find_first-holds, is_support, resolve_step-any, OwnsCanary,
  event_fingerprint-owned, validate_observer-exact,
}

-- The write of a completed step that a stored value follows.
abbrev follows_write : Fields → Moment → ℕ → StepWindow → Bool
follows_write event t pid s =
    equals (get "activated_write_step_id" event) s.step_id
    && activated (get "write_activation" event) s
    && fits_pid s.pid pid
    && leb s.ended_at.instant t.instant

-- What each observer has to show besides.
unfoldable pub IsObserved : ScenarioContext → Observer → Fields → Moment → ℕ → Type 0
IsObserved context frida event t pid = Unit {0}
IsObserved context logcat event t pid = Unit {0}
IsObserved context traffic event t pid =
    (equals (get "event" event) "request" ≡ true)
    × (in_set (get "backend_id" event) context.scoped_backend_ids ≡ ok true)
    × ((equals (get "backend_scope" event) "scoped_local"
          || is_exactly_true (get "scope_allowed" event))
        ≡ true)
IsObserved context storage event t pid =
    (is_exactly_true (get "package_owned" event) ≡ true)
    × (is_exactly_true (get "plaintext" event) ≡ true)
    × (is_exactly_true (get "baseline_delta" event) ≡ true)
    × (any (follows_write event t pid) context.steps ≡ true)

-- An accepted event and what its observation has to show.
pub record IsSupported (parse : String → Option Moment) (context : ScenarioContext) (event : Fields)
    (e : CorrelatedEvent) : Type 0 where
  pub moment : Moment
  pub observed_at : timestamp parse "event timestamp" (get "timestamp" event) ≡ ok moment
  pub same_session : equals (get "session_id" event) context.session_id ≡ true
  pub same_package : equals (get "package" event) context.package_name ≡ true
  pub same_pid : positive_pid "event pid" (get "pid" event) ≡ ok e.pid
  pub same_time : e.timestamp ≡ render_timestamp moment
  pub verified : has_pid e.pid context.verified_pids ≡ true
  pub in_step : any (is_support e.step_id moment e.pid) context.steps ≡ true
  pub shown : event_fingerprint context event ≡ ok e.canary_fingerprint
  pub owned :
      (f : String) → e.canary_fingerprint ≡ some f → is_in f context.owned_fingerprints ≡ true
  pub observed : IsObserved context e.observer event moment e.pid
  pub exact :
      e.eligible_for_confirmation ≡ true
      → (is_frida e.observer || is_shown e.canary_fingerprint && has_exact_owned_match event) ≡ true

module _ (context : ScenarioContext) (event : Fields) (t : Moment) (pid : ℕ) where
  validate_write-any :
      validate_write context event t pid ≡ ok tt
      → any (follows_write event t pid) context.steps ≡ true
  unfolding validate_write
  validate_write-any h =
      let claimed = get "activated_write_step_id" event in
      elim (Option-cases (find_first (is_step claimed) context.steps)) [
        | inl missing ↦ absurd (ground (arith, missing, h))
        | inr (s, e) ↦
            any-of_find_first (is_step claimed) (follows_write event t pid) context.steps s e
              (ground (arith, e, h, find_first-holds (is_step claimed) context.steps s e))
      ]

  traffic_scoped :
      (fingerprint : Option String)
      → validate_traffic context event fingerprint ≡ ok tt
      → (equals (get "backend_scope" event) "scoped_local"
          || is_exactly_true (get "scope_allowed" event))
        ≡ true
  unfolding validate_traffic
  traffic_scoped fingerprint h =
      elim (Bool-cases (
        equals (get "backend_scope" event) "scoped_local"
        || is_exactly_true (get "scope_allowed" event))) [
          | inl holds ↦ holds
          | inr fails ↦ absurd (ground (arith, fails, h))
        ]

  traffic-IsObserved :
      (fingerprint : Option String)
      → validate_traffic context event fingerprint ≡ ok tt
      → IsObserved context traffic event t pid
  unfolding IsObserved validate_traffic
  traffic-IsObserved fingerprint h =
      elim (Result-cases (in_set (get "backend_id" event) context.scoped_backend_ids)) [
        | inl (declared, read) ↦
            (ground (arith, h), ground (arith, read, h), traffic_scoped fingerprint h)
        | inr (x, raised) ↦ absurd (ground (arith, raised, h))
      ]

  storage-IsObserved :
      (fingerprint : Option String)
      → validate_storage context event t pid fingerprint ≡ ok tt
      → IsObserved context storage event t pid
  unfolding IsObserved validate_storage
  storage-IsObserved fingerprint h = (
    ground (arith, h),
    ground (arith, h),
    ground (arith, h),
    validate_write-any (ground (arith, h)),
  )

  validate_observer-IsObserved :
      (fingerprint : Option String) (observer : Observer)
      → validate_observer context observer event t pid fingerprint ≡ ok tt
      → IsObserved context observer event t pid
  unfolding IsObserved validate_observer
  validate_observer-IsObserved fingerprint frida h = tt
  validate_observer-IsObserved fingerprint logcat h = tt
  validate_observer-IsObserved fingerprint traffic h = traffic-IsObserved fingerprint h
  validate_observer-IsObserved fingerprint storage h = storage-IsObserved fingerprint h

module _ (parse : String → Option Moment) (context : ScenarioContext) (observer : Observer)
    (event : Fields) {e : CorrelatedEvent}
    (accepted : correlate_fields parse context observer event ≡ ok e) where
  same_identity :
      (equals (get "session_id" event) context.session_id ≡ true)
      × (equals (get "package" event) context.package_name ≡ true)
  unfolding correlate_fields
  same_identity = ground arith

  pid_verified : has_pid e.pid context.verified_pids ≡ true
  unfolding correlate_fields
  pid_verified = ground arith

  pid_read : positive_pid "event pid" (get "pid" event) ≡ ok e.pid
  unfolding correlate_fields
  pid_read = ground arith

  pub same_observer : e.observer ≡ observer
  unfolding correlate_fields
  same_observer = ground arith

  moment_read : (t : Moment) × (timestamp parse "event timestamp" (get "timestamp" event) ≡ ok t)
  unfolding correlate_fields
  moment_read = elim (Result-cases (timestamp parse "event timestamp" (get "timestamp" event))) [
    | inl read ↦ read
    | inr (x, raised) ↦ absurd (ground (arith, raised))
  ]

  step_resolved :
      (t : Moment)
      → timestamp parse "event timestamp" (get "timestamp" event) ≡ ok t
      → (step : StepWindow) × (resolve_step context event t ≡ ok step)
        × (fits_pid step.pid e.pid ≡ true)
        × (step.step_id ≡ e.step_id)
  unfolding correlate_fields
  step_resolved t read = elim (Result-cases (resolve_step context event t)) [
    | inl (step, found) ↦
        (step, found, ground (arith, read, found, accepted), ground (arith, read, found, accepted))
    | inr (x, raised) ↦ absurd (ground (arith, read, raised, accepted))
  ]

  fingerprint_read : event_fingerprint context event ≡ ok e.canary_fingerprint
  unfolding correlate_fields
  fingerprint_read = ground arith

  observer_validated :
      (t : Moment)
      → timestamp parse "event timestamp" (get "timestamp" event) ≡ ok t
      → (validate_observer context e.observer event t e.pid e.canary_fingerprint ≡ ok tt)
        × (is_eligible e.observer event e.canary_fingerprint ≡ e.eligible_for_confirmation)
        × (e.timestamp ≡ render_timestamp t)
  unfolding correlate_fields
  observer_validated t read = ground arith

  pub correlate_fields-IsSupported : OwnsCanary context → IsSupported parse context event e
  correlate_fields-IsSupported owns =
      let (t, read) = moment_read in
      let (step, found, fits, same) = step_resolved t read in
      let (valid, eligible, rendered) = observer_validated t read in
      record {
        moment = t;
        observed_at = read;
        same_session = same_identity.0;
        same_package = same_identity.1;
        same_pid = pid_read;
        same_time = rendered;
        verified = pid_verified;
        in_step =
            subst (λ id. any (is_support id t e.pid) context.steps ≡ true) same
              (resolve_step-any context t e.pid step fits event found);
        shown = fingerprint_read;
        owned = λ f shown.
            event_fingerprint-owned context owns f event (fingerprint_read ∙ ap ok shown);
        observed =
            validate_observer-IsObserved context event t e.pid e.canary_fingerprint e.observer
              valid;
        exact = λ x.
            validate_observer-exact context e.observer event t e.pid e.canary_fingerprint valid
              (eligible ∙ x);
      }

pub parse_summary-OwnsCanary :
    (conv : Conversions) (parse : String → Option Moment) (summary : Fields)
    {context : ScenarioContext}
    → parse_summary conv parse summary ≡ ok context
    → OwnsCanary context
unfolding parse_summary
parse_summary-OwnsCanary conv parse summary {context} h c e = ground (arith, eq_iff c c)
