-- ===== src/Correlation/Steps.antt =====
-- The steps that `_parse_summary` of android_assessor/scenario_correlation.py keeps.
use mathlib.Core.Path.{subst}
use android_appsec_assessor.Prelude.{
  ℕ, String, Bool, true, false, not, ◌||◌, ◌≡◌, refl, ◌⊎◌, inl, inr, Option, List, [], ◌∷◌, length,
  ltb, All, All-map, leb, arith, Bool-cases,
}
use android_appsec_assessor.Errors.{Result, ok, value_error, require, ◌>>=◌, ◌>>◌, >>=-eq-ok}
use android_appsec_assessor.Json.{
  Value, null, bool, num, str, arr, obj, Items, nil, cons, Fields, end, get, get_or, Conversions,
  to_str,
}
use android_appsec_assessor.Scope.{is_in}
use android_appsec_assessor.Tls.Conditions.{equals, is_exactly_true}
use android_appsec_assessor.Correlation.{
  Moment, evidence_ids_of, fingerprint_set, is_null, optional_fingerprint, pid_set, positive_pid,
  safe_id, safe_id_set, timestamp, validated_process,
}
use android_appsec_assessor.Correlation.Summary.{
  is_exactly_false, step_completed, StepWindow, ScenarioContext, read_step, read_steps, steps_items,
  parse_summary, scenario_package, optional_read, some_pid, or_some, single,
}

-- A mapping of a JSON array.
abbrev pub ListedItem : Fields → Items → Type 0
ListedItem step nil = ⊥
ListedItem step (cons v vs) = (v ≡ obj step) ⊎ ListedItem step vs

abbrev not_against : Value → Bool
not_against v = is_null v || equals v "completed"

-- A window and the completed step of the summary that it is read from.
pub record IsCompleted (parse : String → Option Moment) (items : Items) (window : StepWindow)
    : Type 0 where
  pub step : Fields
  pub listed : ListedItem step items
  pub not_denied : is_exactly_false (get "completed" step) ≡ false
  pub status : not_against (get "status" step) ≡ true
  pub outcome : not_against (get "outcome" step) ≡ true
  pub said :
      (is_exactly_true (get "completed" step)
        || equals (get "status" step) "completed"
        || equals (get "outcome" step) "completed")
      ≡ true
  pub named : safe_id "step_id" (get_or "step_id" (get "id" step) step) ≡ ok window.step_id
  pub started : timestamp parse "step started_at" (get "started_at" step) ≡ ok window.started_at
  pub ended :
      timestamp parse "step ended_at"
        (get_or "ended_at" (get_or "completed_at" (get "finished_at" step) step) step)
      ≡ ok window.ended_at
  pub ordered : leb window.started_at.instant window.ended_at.instant ≡ true

module _ (parse : String → Option Moment) (package_name : String) (verified : List ℕ)
    (default_pid : Option ℕ) (process : Option String) where
  abbrev one_step : Fields → Result StepWindow
  one_step = read_step parse package_name verified default_pid process

  abbrev all_steps : List String → Items → Result (List StepWindow)
  all_steps = read_steps parse package_name verified default_pid process

  step_read :
      (step : Fields) (window : StepWindow)
      → one_step step ≡ ok window
      → (safe_id "step_id" (get_or "step_id" (get "id" step) step) ≡ ok window.step_id)
        × (timestamp parse "step started_at" (get "started_at" step) ≡ ok window.started_at)
        × (timestamp parse "step ended_at"
              (get_or "ended_at" (get_or "completed_at" (get "finished_at" step) step) step)
            ≡ ok window.ended_at)
        × (leb window.started_at.instant window.ended_at.instant ≡ true)
  unfolding read_step
  step_read step window h = (ground arith, ground arith, ground arith, ground arith)

  read_step-IsCompleted :
      (step : Fields) (window : StepWindow) (items : Items)
      → ListedItem step items
      → step_completed step ≡ true
      → one_step step ≡ ok window
      → IsCompleted parse items window
  unfolding step_completed
  read_step-IsCompleted step window items listed completed h =
      let (named, started, ended, ordered) = step_read step window h in
      record {
        step = step;
        listed = listed;
        not_denied = ground (arith, completed);
        status = ground (arith, completed);
        outcome = ground (arith, completed);
        said = ground (arith, completed);
        named = named;
        started = started;
        ended = ended;
        ordered = ordered;
      }

  IsCompleted-later :
      (v : Value) (items : Items) (window : StepWindow)
      → IsCompleted parse items window
      → IsCompleted parse (cons v items) window
  IsCompleted-later v items window h = record {
    step = h.step;
    listed = inr h.listed;
    not_denied = h.not_denied;
    status = h.status;
    outcome = h.outcome;
    said = h.said;
    named = h.named;
    started = h.started;
    ended = h.ended;
    ordered = h.ordered;
  }

  later :
      (v : Value) (items : Items) (windows : List StepWindow)
      → All (IsCompleted parse items) windows
      → All (IsCompleted parse (cons v items)) windows
  later v items windows h =
      All-map (IsCompleted parse items) (IsCompleted parse (cons v items)) windows
        (IsCompleted-later v items) h

  -- What a completed step adds.
  completed_step :
      (seen : List String) (step : Fields) (vs : Items) {windows : List StepWindow}
      → step_completed step ≡ true
      → all_steps seen (cons (obj step) vs) ≡ ok windows
      → (id : String) × (window : StepWindow) × (more : List StepWindow) × (one_step step
          ≡ ok window)
        × (all_steps (id ∷ seen) vs ≡ ok more)
        × (window ∷ more ≡ windows)
  unfolding read_steps
  completed_step seen step vs {windows} done h =
      let whole : (safe_id "step_id" (get_or "step_id" (get "id" step) step) >>= λ id.
      (require (not (is_in id seen)) value_error "completed scenario step IDs must be unique"
        >> (one_step step >>= λ window. (all_steps (id ∷ seen) vs >>= λ more. ok (window ∷ more)))))
          ≡ ok windows =
        ground (arith, done, h) in
      let (id, _, h₁) =
        >>=-eq-ok (safe_id "step_id" (get_or "step_id" (get "id" step) step)) _ whole in
      let (_, _, h₂) =
        >>=-eq-ok
          (require (not (is_in id seen)) value_error "completed scenario step IDs must be unique") _
          h₁ in
      let (window, read, h₃) = >>=-eq-ok (one_step step) _ h₂ in
      let (more, rest, h₄) = >>=-eq-ok (all_steps (id ∷ seen) vs) _ h₃ in
      (id, window, more, read, rest, cc h₄)

  -- Every window that is kept is that of a completed step of the summary.
  pub read_steps-IsCompleted :
      (seen : List String) (items : Items) {windows : List StepWindow}
      → all_steps seen items ≡ ok windows
      → All (IsCompleted parse items) windows
  unfolding read_steps
  read_steps-IsCompleted seen nil {windows} h =
      let same : [] ≡ windows = cc h in subst (All (IsCompleted parse nil)) same tt
  read_steps-IsCompleted seen (cons (obj step) vs) h = elim (Bool-cases (step_completed step)) [
    | inl done ↦
        let (id, window, more, read, rest, same) = completed_step seen step vs done h in
        subst (All (IsCompleted parse (cons (obj step) vs))) same (
          read_step-IsCompleted step window (cons (obj step) vs) (inl refl) done read,
          later (obj step) vs more (read_steps-IsCompleted (id ∷ seen) vs rest),
        )
    | inr skipped ↦
        later (obj step) vs _ (read_steps-IsCompleted seen vs (ground (arith, skipped, h)))
  ]
  read_steps-IsCompleted seen (cons null vs) h = later null vs _ (read_steps-IsCompleted seen vs h)
  read_steps-IsCompleted seen (cons (bool b) vs) h =
      later (bool b) vs _ (read_steps-IsCompleted seen vs h)
  read_steps-IsCompleted seen (cons (num n) vs) h =
      later (num n) vs _ (read_steps-IsCompleted seen vs h)
  read_steps-IsCompleted seen (cons (str t) vs) h =
      later (str t) vs _ (read_steps-IsCompleted seen vs h)
  read_steps-IsCompleted seen (cons (arr us) vs) h =
      later (arr us) vs _ (read_steps-IsCompleted seen vs h)

steps_items-eq : (v : Value) {items : Items} → steps_items v ≡ ok items → v ≡ arr items
unfolding steps_items
steps_items-eq (arr vs) h = cc
steps_items-eq null h = cc
steps_items-eq (bool b) h = cc
steps_items-eq (num n) h = cc
steps_items-eq (str t) h = cc
steps_items-eq (obj fs) h = cc

same_steps : (c d : ScenarioContext) → ok c ≡ ok d → c.steps ≡ d.steps
same_steps c d h = cc

-- The steps of a summary that was read come from its list of steps.
pub parse_summary-IsCompleted :
    (conv : Conversions) (parse : String → Option Moment) (summary : Fields)
    {context : ScenarioContext}
    → parse_summary conv parse summary ≡ ok context
    → (items : Items) × (get "steps" summary ≡ arr items)
      × All (IsCompleted parse items) context.steps
unfolding parse_summary
parse_summary-IsCompleted conv parse summary {context} h =
    let (_, _, h₁) =
      >>=-eq-ok
        (require (is_null (get "outcome" summary) || equals (get "outcome" summary) "completed")
          value_error "scenario outcome is not completed")
        _ h in
    let (session_id, _, h₂) = >>=-eq-ok (safe_id "session_id" (get "session_id" summary)) _ h₁ in
    let (scenario_id, _, h₃) = >>=-eq-ok (safe_id "scenario_id" (get "scenario_id" summary)) _ h₂ in
    let (package_name, _, h₄) =
      >>=-eq-ok (scenario_package (to_str conv (get_or "package" (str "") summary))) _ h₃ in
    let (pids, _, h₅) =
      >>=-eq-ok (pid_set "verified_pids" (get_or "verified_pids" (arr nil) summary)) _ h₄ in
    let (explicit_pid, _, h₆) =
      >>=-eq-ok (optional_read (positive_pid "scenario pid") (get "pid" summary)) _ h₅ in
    let (_, _, h₇) =
      >>=-eq-ok
        (require (ltb 0 (length (some_pid explicit_pid pids))) value_error
          "scenario summary must contain a verified PID")
        _ h₆ in
    let (process, _, h₈) =
      >>=-eq-ok
        (optional_read (validated_process package_name "scenario process") (get "process" summary))
        _ h₇ in
    let (canary, _, h₉) =
      >>=-eq-ok (optional_fingerprint "canary_fingerprint" (get "canary_fingerprint" summary)) _
        h₈ in
    let (owned, _, h₁₀) =
      >>=-eq-ok
        (fingerprint_set "owned_value_fingerprints"
          (get_or "owned_value_fingerprints" (arr nil) summary))
        _ h₉ in
    let (backend_ids, _, h₁₁) =
      >>=-eq-ok (safe_id_set "scoped_backend_ids" (get_or "scoped_backend_ids" (arr nil) summary)) _
        h₁₀ in
    let (evidence, _, h₁₂) =
      >>=-eq-ok (evidence_ids_of (get_or "evidence_ids" (obj end) summary)) _ h₁₁ in
    let (items, listed, h₁₃) = >>=-eq-ok (steps_items (get "steps" summary)) _ h₁₂ in
    let verified = some_pid explicit_pid pids in
    let default_pid = or_some explicit_pid (single verified) in
    let (steps, read, h₁₄) =
      >>=-eq-ok (read_steps parse package_name verified default_pid process [] items) _ h₁₃ in
    let same : steps ≡ context.steps = same_steps _ context h₁₄ in
    (
      items,
      steps_items-eq (get "steps" summary) listed,
      subst (All (IsCompleted parse items)) same
          (read_steps-IsCompleted parse package_name verified default_pid process [] items read),
    )
