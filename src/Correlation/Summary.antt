-- ===== src/Correlation/Summary.antt =====
-- The completed steps and the summary of a scenario in android_assessor/scenario_correlation.py.
use android_appsec_assessor.Prelude.{
  ℕ, String, Bool, true, false, not, ◌&&◌, ◌||◌, Option, none, some, List, [], ◌∷◌, all, any,
  length, leb, ltb, ◌==◌, if◌then◌else◌,
}
use android_appsec_assessor.Prelude.Int.{pos}
use android_appsec_assessor.Errors.{Result, ok, err, fault, value_error, require, ◌>>=◌, ◌>>◌}
use android_appsec_assessor.Json.{
  Value, null, bool, num, str, arr, obj, Items, nil, cons, Fields, end, get, get_or, Conversions,
  to_str,
}
use android_appsec_assessor.Scope.{is_in}
use android_appsec_assessor.Tls.Conditions.{equals, is_exactly_true}
use android_appsec_assessor.Validation.{validate_package_name}
use android_appsec_assessor.Correlation.{
  Moment, evidence_ids_of, fingerprint_set, is_null, optional_fingerprint, pid_set, positive_pid,
  read_sequence, safe_id, safe_id_set, timestamp, validated_process,
}

-- `value is not None and value != "completed"`
abbrev not_completed : Value → Bool
not_completed v = not (is_null v) && not (equals v "completed")

unfoldable pub is_exactly_false : Value → Bool
is_exactly_false (bool false) = true
is_exactly_false _ = false

unfoldable pub step_completed : Fields → Bool
unfolding is_null is_exactly_false equals is_exactly_true
step_completed step =
    if is_exactly_false (get "completed" step)
    then false
    else if not_completed (get "status" step) || not_completed (get "outcome" step)
    then false
    else is_exactly_true (get "completed" step)
      || equals (get "status" step) "completed"
      || equals (get "outcome" step) "completed"

pub record StepWindow : Type 0 where
  pub step_id : String
  pub started_at : Moment
  pub ended_at : Moment
  pub pid : Option ℕ
  pub process : Option String
  pub activated_writes : List String

pub record ScenarioContext : Type 0 where
  pub session_id : String
  pub scenario_id : String
  pub package_name : String
  pub verified_pids : List ℕ
  pub process : Option String
  pub canary_fingerprint : Option String
  pub owned_fingerprints : List String
  pub scoped_backend_ids : List String
  pub evidence_ids : List (String × String)
  pub steps : List StepWindow

-- `read(value) if value is not None else None`
unfoldable pub optional_read {ℓ} : {A : Type ℓ} → (Value → Result A) → Value → Result (Option A)
optional_read read null = ok none
optional_read read v = read v >>= λ a. ok (some a)

abbrev pub has_pid : ℕ → List ℕ → Bool
has_pid p pids = any (λ q. q == p) pids

-- The only process of a set, if there is one.
unfoldable pub single : List ℕ → Option ℕ
single [] = none
single (p ∷ ps) = if all (λ q. q == p) ps then some p else none

abbrev pub or_some : Option ℕ → Option ℕ → Option ℕ
or_some (some a) other = some a
or_some none other = other

abbrev pub pid_value : Option ℕ → Value
pid_value none = null
pid_value (some n) = num (pos n)

abbrev pub text_value : Option String → Value
text_value none = null
text_value (some s) = str s

abbrev pub member_pid : Option ℕ → List ℕ → Bool
member_pid none pids = true
member_pid (some p) pids = has_pid p pids

module _ (parse : String → Option Moment) (package_name : String) (verified : List ℕ)
    (default_pid : Option ℕ) (process : Option String) where
  -- A completed step.
  unfoldable pub read_step : Fields → Result StepWindow
  unfolding safe_id timestamp optional_read positive_pid validated_process read_sequence
  read_step step = do
    step_id ← safe_id "step_id" (get_or "step_id" (get "id" step) step)
    started_at ← timestamp parse "step started_at" (get "started_at" step)
    ended_at ←
        timestamp parse "step ended_at"
          (get_or "ended_at" (get_or "completed_at" (get "finished_at" step) step) step)
    require (leb started_at.instant ended_at.instant) value_error
        "completed step window ends before it starts"
    pid ← optional_read (positive_pid "step pid") (get_or "pid" (pid_value default_pid) step)
    require (member_pid pid verified) value_error "step pid is not present in verified_pids"
    step_process ←
        optional_read (validated_process package_name "step process")
          (get_or "process" (text_value process) step)
    writes ← safe_id_set "activated_writes" (get_or "activated_writes" (arr nil) step)
    ok (record {
      step_id = step_id;
      started_at = started_at;
      ended_at = ended_at;
      pid = pid;
      process = step_process;
      activated_writes = writes;
    })

  -- The loop over the steps. The identifier of a step is tested for repetition before the rest of
  -- the step is read, as the source does.
  unfoldable pub read_steps : List String → Items → Result (List StepWindow)
  unfolding read_step step_completed safe_id
  read_steps seen nil = ok []
  read_steps seen (cons (obj step) vs) =
      let skipped = read_steps seen vs in
      let later = λ (id : String). read_steps (id ∷ seen) vs in
      if not (step_completed step)
      then skipped
      else (safe_id "step_id" (get_or "step_id" (get "id" step) step) >>= λ id.
          (require (not (is_in id seen)) value_error "completed scenario step IDs must be unique"
            >> (read_step step >>= λ window. (later id >>= λ more. ok (window ∷ more)))))
  read_steps seen (cons _ vs) = read_steps seen vs

unfoldable pub steps_items : Value → Result Items
steps_items (arr vs) = ok vs
steps_items _ = err (fault value_error "scenario steps must be a sequence")

unfoldable pub scenario_package : String → Result String
scenario_package s = elim (validate_package_name s) [
  | ok package_name ↦ ok package_name
  | err e ↦ err (fault value_error "scenario package is invalid")
]

abbrev pub some_pid : Option ℕ → List ℕ → List ℕ
some_pid none pids = pids
some_pid (some p) pids = p ∷ pids

abbrev some_text : Option String → List String → List String
some_text none ss = ss
some_text (some s) ss = s ∷ ss

-- `_parse_summary`
unfoldable pub parse_summary :
    Conversions → (String → Option Moment) → Fields → Result ScenarioContext
parse_summary conv parse summary = do
  require (is_null (get "outcome" summary) || equals (get "outcome" summary) "completed")
      value_error "scenario outcome is not completed"
  session_id ← safe_id "session_id" (get "session_id" summary)
  scenario_id ← safe_id "scenario_id" (get "scenario_id" summary)
  package_name ← scenario_package (to_str conv (get_or "package" (str "") summary))
  pids ← pid_set "verified_pids" (get_or "verified_pids" (arr nil) summary)
  explicit_pid ← optional_read (positive_pid "scenario pid") (get "pid" summary)
  let verified = some_pid explicit_pid pids
  require (ltb 0 (length verified)) value_error "scenario summary must contain a verified PID"
  let default_pid = or_some explicit_pid (single verified)
  process ←
      optional_read (validated_process package_name "scenario process") (get "process" summary)
  canary ← optional_fingerprint "canary_fingerprint" (get "canary_fingerprint" summary)
  owned ←
      fingerprint_set "owned_value_fingerprints"
        (get_or "owned_value_fingerprints" (arr nil) summary)
  backend_ids ← safe_id_set "scoped_backend_ids" (get_or "scoped_backend_ids" (arr nil) summary)
  evidence ← evidence_ids_of (get_or "evidence_ids" (obj end) summary)
  raw_steps ← steps_items (get "steps" summary)
  steps ← read_steps parse package_name verified default_pid process [] raw_steps
  ok (record {
    session_id = session_id;
    scenario_id = scenario_id;
    package_name = package_name;
    verified_pids = verified;
    process = process;
    canary_fingerprint = canary;
    owned_fingerprints = some_text canary owned;
    scoped_backend_ids = backend_ids;
    evidence_ids = evidence;
    steps = steps;
  })
