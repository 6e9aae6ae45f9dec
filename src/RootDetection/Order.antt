-- ===== src/RootDetection/Order.antt =====
-- The verdict over root checks does not depend on the order of the events.
use mathlib.Core.Path.{fun_ext}
use android_appsec_assessor.Prelude.{
  Bool, true, false, not, ◌&&◌, ◌||◌, ◌≡◌, ◌∙◌, sym, refl, ap, List, [], ◌∷◌, any, map, ◌=ₛ◌,
}
use android_appsec_assessor.Prelude.Sorted.{sorted_set-ext}
use android_appsec_assessor.Errors.{Result, ok, err, value_error, require, ◌>>=◌}
use android_appsec_assessor.RootDetection.{
  RootDetectionEvent, Events, indicator_value, RootDetectionResult,
}
use android_appsec_assessor.RootDetection.Analysis.{
  was_detected, is_blocked, is_warning, has_no_effect, mixes_origins, summary_of, is_eligible_root,
  all_missed, result_of, analyze, root_verdict, verdict_of, result_with, indicators,
  origins_message,
}

-- Two lists hold the same events, in any order and number.
abbrev pub SameEvents : Events → Events → Type 0
SameEvents xs ys = (q : RootDetectionEvent → Bool) → any q xs ≡ any q ys

any-map {ℓ κ} :
    {A : Type ℓ} {B : Type κ} (q : B → Bool) (f : A → B) (xs : List A)
    → any q (map f xs) ≡ any (λ x. q (f x)) xs
any-map q f [] = refl
any-map q f (x ∷ xs) = ap (λ b. q (f x) || b) (any-map q f xs)

-- A result without the identifiers of the checks, which are listed in the order of the events.
abbrev pub without_ids : Result RootDetectionResult → Result RootDetectionResult
without_ids (ok r) = ok (record r { check_ids = [] })
without_ids (err e) = err e

module _ (xs ys : Events) (same : SameEvents xs ys) where
  same_indicators : indicators xs ≡ indicators ys
  same_indicators = sorted_set-ext _ _ (λ q.
      any-map q (λ (e : RootDetectionEvent). indicator_value e.indicator_type) xs
      ∙ (same (λ e. q (indicator_value e.indicator_type))
          ∙ sym (any-map q (λ (e : RootDetectionEvent). indicator_value e.indicator_type) ys)))

  same_summary : summary_of xs ≡ summary_of ys
  unfolding summary_of
  same_summary = λ i. record {
    root_check_present = same (λ e. e.present) i;
    root_check_executed = same (λ e. e.executed) i;
    root_detected = same (λ e. was_detected e.detected) i;
    app_blocked = same (λ e. is_blocked e.response) i;
    warning_only = same (λ e. is_warning e.response) i;
    no_observable_effect = same (λ e. has_no_effect e.response) i;
  }

  same_mixture : mixes_origins xs ≡ mixes_origins ys
  unfolding mixes_origins
  same_mixture =
      ap
        (λ (f : (RootDetectionEvent → Bool) → Bool).
          f (λ a. f (λ b. not ((a.source =ₛ b.source) && (a.environment =ₛ b.environment)))))
        (fun_ext same)

  same_eligible : is_eligible_root xs ≡ is_eligible_root ys
  unfolding is_eligible_root
  same_eligible = same _

  same_missed : (expected : Bool) → all_missed expected xs ≡ all_missed expected ys
  unfolding all_missed
  same_missed expected = ap (λ b. expected && not b) (same _)

  same_verdict : (expected : Bool) → root_verdict expected xs ≡ root_verdict expected ys
  unfolding root_verdict
  same_verdict expected = λ i.
      verdict_of (same_summary i) (same (λ e. e.bypass_instrumented) i) (same_missed expected i)

  same_result :
      (expected : Bool)
      → without_ids (ok (result_of expected xs)) ≡ without_ids (ok (result_of expected ys))
  unfolding result_of
  same_result expected = λ i. ok (
      result_with (same_verdict expected i) (same_summary i) (same_indicators i) []
        (same_eligible i))

  -- The analysis of root checks depends on which events were observed, and neither on their order nor
  -- on repetitions: two lists of the same events give the same error or the same assessment, status,
  -- summary, indicators and eligibility; only the list of the check identifiers follows the order.
  pub analyze-SameEvents :
      (expected : Bool) → without_ids (analyze xs expected) ≡ without_ids (analyze ys expected)
  unfolding analyze
  analyze-SameEvents expected =
      rw same_mixture
        (elim (mixes_origins ys)
          as (λ b.
            without_ids
              (require (not b) value_error origins_message >>= λ d. ok (result_of expected xs))
            ≡ without_ids
                (require (not b) value_error origins_message >>= λ d. ok (result_of expected ys))) [
                  | true ↦ refl
                  | false ↦ same_result expected
                ])
