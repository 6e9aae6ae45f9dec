-- ===== src/Cleanup/Completion.antt =====
-- An expected error of one action does not end a run over the ledger: each action is reported, in
-- the order in which the actions were given.
use mathlib.Core.Path.{subst, sym, ap₂, ◌∙◌}
use android_appsec_assessor.Prelude.{
  Option-cases, Bool-cases, inl, inr, String, true, ◌≡◌, refl, ap, Option, none, some, List, [],
  ◌∷◌, map, if◌then◌else◌, All,
}
use android_appsec_assessor.Errors.{Error, Result, ok, err, is_conflict, is_expected}
use android_appsec_assessor.Exec.{
  caught, caught_handled, Outcome, Returns, continue-Outcome, continue-Returns,
}
use android_appsec_assessor.Validation.{validate_session_id}
use android_appsec_assessor.Session.{
  CleanupActionStatus, conflict, failed, CleanupAction, SessionRecord,
}
use android_appsec_assessor.Session.Repository.{find_session, update_cleanup_action}
use android_appsec_assessor.Session.Ledger.{Entry, entry, has_entry}
use android_appsec_assessor.Session.Evolution.{
  identity, identity?, Identity, update_cleanup_action_ok,
}
use android_appsec_assessor.Adb.Raises.{IsAdb}
use android_appsec_assessor.Adb.{require_authorized_device}
use android_appsec_assessor.Cleanup.{Platform, World, CleanupActionResult}
use android_appsec_assessor.Cleanup.Actions.{execute}
use android_appsec_assessor.Cleanup.Executor.{
  is_android, settle, on_error, try_action, attempt, run_action, run_actions,
}
use android_appsec_assessor.Cleanup.Containment.{Evolves-attempt, Evolves-run_action}

-- An error that the executor's handlers catch.
abbrev pub IsCaught : Error → Type 0
IsCaught e = is_expected e.kind ≡ true

-- The handlers of the actions raise only errors of the project, `OSError` and `ValueError`, and
-- the probe of the device only an `AdbError`.
pub record IsContained {D : Type 0} (p : Platform D) : Type 0 where
  pub executes :
      (r : SessionRecord) (a : CleanupAction) (d : D)
      → Outcome (λ _. Unit {0}) IsCaught (execute p r a d).0
  pub authorizes :
      (serial : String) (d : D)
      → Outcome (λ _. Unit {0}) IsAdb (require_authorized_device p.adb serial d).0

abbrev entries_of : Option Identity → List Entry
entries_of none = []
entries_of (some i) = i.entries

abbrev Reports : CleanupAction → CleanupActionResult → Type 0
Reports a v = v.action_id ≡ a.action_id

module _ {D : Type 0} (p : Platform D) (contained : IsContained p) (now : String)
    (r : SessionRecord) (valid : validate_session_id r.session_id ≡ ok r.session_id)
    (not_ready : Option String) where
  -- The session is stored with the ledger that the run was started from.
  abbrev pub IsAt : World D → Type 0
  IsAt w = identity? (find_session r.session_id w.repository.sessions) ≡ some (identity r)

  abbrev pub IsListed : CleanupAction → Type 0
  IsListed a = has_entry a.action_id (map entry r.cleanup_actions) ≡ true

  updates :
      (a : CleanupAction) (status : CleanupActionStatus) (failure : Option String) (w : World D)
      → IsAt w
      → IsListed a
      → (b : CleanupAction) × ((update_cleanup_action now r.session_id a.action_id status failure
            w.repository).0
          ≡ ok b)
  updates a status failure w here listed =
      elim (Option-cases (find_session r.session_id w.repository.sessions)) [
        | inl missing ↦ cc
        | inr (q, stored) ↦
            let same : map entry q.cleanup_actions ≡ map entry r.cleanup_actions =
              ap entries_of (rw stored at here) in
            update_cleanup_action_ok r.session_id valid now w.repository q stored a.action_id status
              failure (subst (λ es. has_entry a.action_id es ≡ true) (sym same) listed)
      ]

  try_action-Outcome :
      (a : CleanupAction) (w : World D)
      → IsAt w
      → IsListed a
      → Outcome (Reports a) IsCaught (try_action p now r a w).0
  unfolding try_action
  try_action-Outcome a w here listed =
      continue-Outcome (Reports a) IsCaught (execute p r a w.device).0 _ _
        (contained.executes r a w.device)
        λ status _. let (b, updated) = updates a status none w here listed in rw updated refl

  attempt-Outcome :
      (a : CleanupAction) (w : World D)
      → IsAt w
      → IsListed a
      → Outcome (Reports a) IsCaught (attempt p now r not_ready a w).0
  unfolding is_expected
  attempt-Outcome a w here listed =
      elim (Option-cases (if is_android a.action_type then not_ready else none)) [
        | inl e ↦ unfold attempt in rw (e, attempt) (try_action-Outcome a w here listed)
        | inr (m, e) ↦ unfold attempt in rw (e, attempt) refl
      ]

  settle-Returns :
      (a : CleanupAction) (status : CleanupActionStatus) (e : Error) (w : World D)
      → IsAt w
      → IsListed a
      → Returns (Reports a) (settle p now r a status e w).0
  settle-Returns a status e w here listed =
      let (b, updated) = updates a status (some (p.note e)) w here listed in rw updated refl

  -- An error that is caught leaves a report too.
  caught-Returns :
      (a : CleanupAction) (result : Result CleanupActionResult) (w : World D)
      → IsAt w
      → IsListed a
      → Outcome (Reports a) IsCaught result
      → Returns (Reports a) (caught result (on_error p now r a) w).0
  caught-Returns a (ok v) w here listed h = h
  caught-Returns a (err e) w here listed h = elim (Bool-cases (is_conflict e.kind)) [
    | inl c ↦
        rw (caught_handled e (on_error p now r a) {m = settle p now r a conflict e} w (rw c))
          (settle-Returns a conflict e w here listed)
    | inr c ↦
        rw (caught_handled e (on_error p now r a) {m = settle p now r a failed e} w (rw (c, h)))
          (settle-Returns a failed e w here listed)
  ]

  IsAt-run_action :
      (a : CleanupAction) (w : World D) → IsAt w → IsAt (run_action p now r not_ready a w).1
  IsAt-run_action a w here = (Evolves-run_action p now r valid not_ready a w).own ∙ here

  run_action-Returns :
      (a : CleanupAction) (w : World D)
      → IsAt w
      → IsListed a
      → Returns (Reports a) (run_action p now r not_ready a w).0
  unfolding run_action
  run_action-Returns a w here listed =
      caught-Returns a (attempt p now r not_ready a w).0 (attempt p now r not_ready a w).1
        ((Evolves-attempt p now r valid not_ready a w).own ∙ here) listed
        (attempt-Outcome a w here listed)

  -- From the stored session, a run over listed actions returns one report for each, in order.
  pub run_actions-Returns :
      (actions : List CleanupAction) (w : World D)
      → IsAt w
      → All IsListed actions
      → Returns
          (λ results. map (λ v. v.action_id) results ≡ map (λ a. a.action_id) actions)
          (run_actions p now r not_ready actions w).0
  unfolding run_actions
  run_actions-Returns [] w here listed = refl
  run_actions-Returns (a ∷ rest) w here listed =
      continue-Returns (Reports a) _ (run_action p now r not_ready a w).0 _ _
        (run_action-Returns a w here listed.0)
        λ v _ same.
          continue-Returns
            (λ results.
              map (λ (x : CleanupActionResult). x.action_id) results
              ≡ map (λ (x : CleanupAction). x.action_id) rest)
            _ (run_actions p now r not_ready rest (run_action p now r not_ready a w).1).0 _ _
            (run_actions-Returns rest _ (IsAt-run_action a w here) listed.1)
            λ results _ more. ap₂ ◌∷◌ same more
