-- ===== src/Correlation/Accepted.antt =====
-- What holds of an observation that the correlation accepts.
use android_appsec_assessor.Prelude.{
  ℕ, String, Bool, true, ◌&&◌, ◌||◌, ◌≡◌, ◌∙◌, sym, refl, inl, inr, Option, none, some, List, [],
  ◌∷◌, all, any, filter, find_first, length, leb, ltb, ◌=ₛ◌, arith, eq_iff, Bool-cases,
  Option-cases, if◌then◌else◌,
}
use android_appsec_assessor.Prelude.Case.{before, sorted_set}
use android_appsec_assessor.Prelude.Sorted.{any-sorted_set}
use android_appsec_assessor.Errors.{ok, >>=-eq-ok}
use android_appsec_assessor.Json.{Value, Fields, get}
use android_appsec_assessor.Scope.{is_in}
use android_appsec_assessor.Correlation.{Moment, is_null}
use android_appsec_assessor.Correlation.Summary.{StepWindow, ScenarioContext}
use android_appsec_assessor.Correlation.Observers.{
  Observer, frida, traffic, logcat, storage, is_frida, fits_pid, is_shown, has_exact_owned_match,
  validate_traffic, validate_storage, is_eligible,
}
use android_appsec_assessor.Correlation.Attribution.{
  in_window, resolve_step, claimed_step, only_step, is_step, event_fingerprint, shown_fingerprints,
  is_some_in, first_text,
}
use android_appsec_assessor.Correlation.Events.{validate_observer}

module _ {ℓ} {A : Type ℓ} where
  pub any-of_find_first :
      (p q : A → Bool) (xs : List A) (x : A)
      → find_first p xs ≡ some x
      → q x ≡ true
      → any q xs ≡ true
  any-of_find_first p q [] x h k = cc
  any-of_find_first p q (y ∷ ys) x h k = elim (Bool-cases (p y)) [
    | inl first ↦ let same : y ≡ x = ground (arith, first, h) in rw (same, k)
    | inr later ↦ ground (arith, any-of_find_first p q ys x (ground (arith, later, h)) k)
  ]

  pub find_first-holds :
      (p : A → Bool) (xs : List A) (x : A) → find_first p xs ≡ some x → p x ≡ true
  find_first-holds p [] x h = cc
  find_first-holds p (y ∷ ys) x h = elim (Bool-cases (p y)) [
    | inl first ↦ let same : y ≡ x = ground (arith, first, h) in rw (← same) first
    | inr later ↦ find_first-holds p ys x (ground (arith, later, h))
  ]

  any-of_filter_first :
      (p q : A → Bool) (xs : List A) (x : A) (rest : List A)
      → filter p xs ≡ x ∷ rest
      → (p x ≡ true → q x ≡ true)
      → any q xs ≡ true
  any-of_filter_first p q [] x rest h k = cc
  any-of_filter_first p q (y ∷ ys) x rest h k = elim (Bool-cases (p y)) [
    | inl kept ↦
        let same : y ≡ x = ground (arith, kept, h) in
        let holds : q y ≡ true = rw same (k (rw (← same) kept)) in rw holds
    | inr dropped ↦ ground (arith, any-of_filter_first p q ys x rest (ground (arith, dropped, h)) k)
  ]

-- A step of a list with an identifier, in whose window the moment lies and whose process fits.
abbrev pub is_support : String → Moment → ℕ → StepWindow → Bool
is_support id t pid s =
    (s.step_id =ₛ id)
    && leb s.started_at.instant t.instant
    && leb t.instant s.ended_at.instant
    && fits_pid s.pid pid

module _ (context : ScenarioContext) (t : Moment) (pid : ℕ) (step : StepWindow)
    (fits : fits_pid step.pid pid ≡ true) where
  claimed_step-any :
      (claimed : Value)
      → claimed_step context claimed t ≡ ok step
      → any (is_support step.step_id t pid) context.steps ≡ true
  unfolding claimed_step in_window
  claimed_step-any claimed h = elim (Option-cases (find_first (is_step claimed) context.steps)) [
    | inl missing ↦ absurd (ground (arith, missing, h))
    | inr (found, e) ↦
        any-of_find_first (is_step claimed) (is_support step.step_id t pid) context.steps found e
          (ground (arith, e, h, eq_iff step.step_id step.step_id))
  ]

  only_step-any :
      (candidates : List StepWindow)
      → filter (in_window t) context.steps ≡ candidates
      → only_step candidates ≡ ok step
      → any (is_support step.step_id t pid) context.steps ≡ true
  unfolding only_step in_window
  only_step-any [] e h = cc
  only_step-any (s ∷ []) e h =
      any-of_filter_first (in_window t) (is_support step.step_id t pid) context.steps s [] e
        (λ k. ground (arith, k, h, eq_iff step.step_id step.step_id))
  only_step-any (s ∷ other ∷ steps) e h = cc

  pub resolve_step-any :
      (event : Fields)
      → resolve_step context event t ≡ ok step
      → any (is_support step.step_id t pid) context.steps ≡ true
  unfolding resolve_step
  resolve_step-any event h = elim (Bool-cases (is_null (get "step_id" event))) [
    | inl absent ↦ only_step-any _ refl (ground (arith, absent, h))
    | inr claimed ↦ claimed_step-any (get "step_id" event) (ground (arith, claimed, h))
  ]

all-any :
    (p : String → Bool) (s : String) (xs : List String)
    → all p xs ≡ true
    → is_in s xs ≡ true
    → p s ≡ true
all-any p s [] h m = cc
all-any p s (x ∷ xs) h m = elim (Bool-cases (x =ₛ s)) [
  | inl same ↦ rw (← ((eq_iff x s).0 same)) (ground arith)
  | inr other ↦ all-any p s xs (ground arith) (ground (arith, other, m))
]

first_text-is_in : (xs : List String) (s : String) → first_text xs ≡ some s → is_in s xs ≡ true
first_text-is_in [] s h = cc
first_text-is_in (x ∷ xs) s h = ground (arith, eq_iff x s)

is_some_in-eq :
    (o : Option String) (s : String) (names : List String)
    → is_some_in o names ≡ true
    → o ≡ some s
    → is_in s names ≡ true
is_some_in-eq none s names h e = cc
is_some_in-eq (some t) s names h e = let same : t ≡ s = cc e in rw (← same) h

-- The canary of a scenario is one of the values that it owns.
abbrev pub OwnsCanary : ScenarioContext → Type 0
OwnsCanary context =
    (c : String) → context.canary_fingerprint ≡ some c → is_in c context.owned_fingerprints ≡ true

module _ (context : ScenarioContext) (owns : OwnsCanary context) (f : String) where
  chosen-owned :
      (shown : List String)
      → all (λ g. is_in g context.owned_fingerprints) shown ≡ true
      → (if is_some_in context.canary_fingerprint shown
          then context.canary_fingerprint
          else first_text (sorted_set before shown))
        ≡ some f
      → is_in f context.owned_fingerprints ≡ true
  chosen-owned shown h e = elim (Bool-cases (is_some_in context.canary_fingerprint shown)) [
    | inl canary ↦ owns f (ground (arith, canary, e))
    | inr other ↦
        all-any (λ g. is_in g context.owned_fingerprints) f shown h
          (sym (any-sorted_set (λ y. y =ₛ f) shown)
            ∙ first_text-is_in (sorted_set before shown) f (ground (arith, other, e)))
  ]

  pub event_fingerprint-owned :
      (event : Fields)
      → event_fingerprint context event ≡ ok (some f)
      → is_in f context.owned_fingerprints ≡ true
  unfolding event_fingerprint
  event_fingerprint-owned event h =
      let (shown, _, h1) = >>=-eq-ok (shown_fingerprints event) _ h in
      elim (Bool-cases (ltb 0 (length shown))) [
        | inl many ↦ chosen-owned shown (ground (arith, many, h1)) (ground (arith, many, h1))
        | inr none_shown ↦ owns f (ground (arith, none_shown, h1))
      ]

pub validate_observer-exact :
    (context : ScenarioContext) (observer : Observer) (event : Fields) (t : Moment) (pid : ℕ)
    (fingerprint : Option String)
    → validate_observer context observer event t pid fingerprint ≡ ok tt
    → is_eligible observer event fingerprint ≡ true
    → (is_frida observer || is_shown fingerprint && has_exact_owned_match event) ≡ true
unfolding validate_observer validate_traffic validate_storage is_eligible is_frida
validate_observer-exact context frida event t pid fingerprint h e = refl
validate_observer-exact context traffic event t pid fingerprint h e = ground arith
validate_observer-exact context storage event t pid fingerprint h e = ground arith
validate_observer-exact context logcat event t pid fingerprint h e = e
