-- ===== src/Correlation/Attribution.antt =====
-- The step and the fingerprint of an observation in android_assessor/scenario_correlation.py. A test
-- for membership in a set raises on a list or a mapping; that error, too, rejects the event.
use android_appsec_assessor.Prelude.{
  String, Bool, false, not, ◌&&◌, Option, none, some, List, [], ◌∷◌, all, filter, length,
  find_first, leb, ltb, if◌then◌else◌,
}
use android_appsec_assessor.Prelude.Case.{before, sorted_set}
use android_appsec_assessor.Errors.{
  Result, ok, err, Error, fault, value_error, other_error, require, ◌>>=◌, ◌>>◌,
}
use android_appsec_assessor.Json.{Value, str, arr, obj, Items, nil, cons, Fields, get, get_or}
use android_appsec_assessor.Scope.{is_in}
use android_appsec_assessor.Tls.Conditions.{equals, is_exactly_true}
use android_appsec_assessor.Correlation.{
  optional_fingerprint, read_items, only_some, Moment, is_null,
}
use android_appsec_assessor.Correlation.Summary.{StepWindow, ScenarioContext}

abbrev pub rejected_with : String → Error
rejected_with reason = fault value_error reason

-- `if not test: raise _RejectedEvent(reason)`
abbrev pub demand : Bool → String → Result (Unit {0})
demand test reason = require test value_error reason

-- Hashing a value
unfoldable pub hashed : Value → Result (Unit {0})
hashed (arr vs) = err (fault other_error "unhashable type: 'list'")
hashed (obj fs) = err (fault other_error "unhashable type: 'dict'")
hashed _ = ok tt

-- `value in {…}`
unfoldable pub in_set : Value → List String → Result Bool
unfolding hashed
in_set (str s) names = ok (is_in s names)
in_set v names = hashed v >> ok false

unfoldable pub in_window : Moment → StepWindow → Bool
in_window t step = leb step.started_at.instant t.instant && leb t.instant step.ended_at.instant

abbrev pub is_step : Value → StepWindow → Bool
is_step v step = equals v step.step_id

unfoldable pub claimed_step : ScenarioContext → Value → Moment → Result StepWindow
unfolding in_window
claimed_step context claimed t = elim (find_first (is_step claimed) context.steps) [
  | none ↦ err (rejected_with "step_not_completed")
  | some step ↦ if in_window t step then ok step else err (rejected_with "outside_step_window")
]

-- The only window of a list of candidates.
unfoldable pub only_step : List StepWindow → Result StepWindow
only_step [] = err (rejected_with "outside_completed_step_window")
only_step (step ∷ []) = ok step
only_step (step ∷ other ∷ steps) = err (rejected_with "ambiguous_step_window")

unfoldable pub resolve_step : ScenarioContext → Fields → Moment → Result StepWindow
unfolding claimed_step only_step is_null
resolve_step context event t =
    if not (is_null (get "step_id" event))
    then claimed_step context (get "step_id" event) t
    else only_step (filter (in_window t) context.steps)

unfoldable pub hash_items : Items → Result (Unit {0})
unfolding hashed
hash_items nil = ok tt
hash_items (cons v vs) = let rest = hash_items vs in hashed v >> rest

unfoldable pub plural_items : Value → Result Items
plural_items (arr vs) = ok vs
plural_items _ = err (rejected_with "owned_value_fingerprints_not_sequence")

-- The fingerprints that an event shows.
unfoldable pub shown_fingerprints : Fields → Result (List String)
unfolding hashed plural_items hash_items optional_fingerprint read_items only_some
shown_fingerprints event = do
  hashed (get "canary_fingerprint" event)
  hashed (get "owned_value_fingerprint" event)
  plural ← plural_items (get_or "owned_value_fingerprints" (arr nil) event)
  hash_items plural
  found ←
      read_items (optional_fingerprint "event fingerprint")
        (cons (get "canary_fingerprint" event) (cons (get "owned_value_fingerprint" event) plural))
  ok (only_some found)

abbrev pub is_some_in : Option String → List String → Bool
is_some_in none names = false
is_some_in (some s) names = is_in s names

abbrev pub first_text : List String → Option String
first_text [] = none
first_text (s ∷ ss) = some s

unfoldable pub event_fingerprint : ScenarioContext → Fields → Result (Option String)
unfolding shown_fingerprints is_exactly_true
event_fingerprint context event = shown_fingerprints event >>= λ shown.
    if ltb 0 (length shown)
    then (demand (all (λ f. is_in f context.owned_fingerprints) shown) "unowned_value_fingerprint"
        >> ok (
            if is_some_in context.canary_fingerprint shown
            then context.canary_fingerprint
            else first_text (sorted_set before shown)))
    else if is_exactly_true (get "canary_match" event)
    then (elim context.canary_fingerprint [
      | none ↦ err (rejected_with "canary_match_without_owned_fingerprint")
      | some f ↦ ok (some f)
    ])
    else ok none
