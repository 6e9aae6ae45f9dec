-- ===== src/Cleanup/Executor.antt =====
-- `CleanupExecutor.cleanup` and `rollback_actions` (android_assessor/cleanup.py): the runs over a
-- session's ledger, newest action first, with an error of one action kept in its own entry.
use mathlib.Core.List.{reverse}
use android_appsec_assessor.Prelude.{
  String, Bool, true, false, not, ◌&&◌, Option, none, some, List, [], ◌∷◌, all, any, filter, length,
  ◌=ₛ◌, if◌then◌else◌,
}
use android_appsec_assessor.Prelude.Int.{pos}
use android_appsec_assessor.Prelude.Text.{is_empty}
use android_appsec_assessor.Errors.{
  Error, Result, ok, err, cleanup_error, is_conflict, is_adb_error, is_expected,
}
use android_appsec_assessor.Exec.{Exec, pure, raise, lift, caught, ◌>>=◌, ◌>>◌}
use android_appsec_assessor.Json.{null, bool, num, end, field}
use android_appsec_assessor.Adb.{require_authorized_device}
use android_appsec_assessor.Session.{
  SessionStatus, active, cleanup_required, cleaning, cleaned, cleanup_failed, CleanupActionType,
  stop_host_process, CleanupActionStatus, failed, conflict, CleanupAction, SessionRecord,
  is_settled, pending_cleanup, is_cleaned,
}
use android_appsec_assessor.Session.Repository.{
  Repository, load, set_status, update_cleanup_action, append_event,
}
use android_appsec_assessor.Cleanup.{Platform, World, CleanupActionResult}
use android_appsec_assessor.Cleanup.Actions.{execute}

-- `action_type in _ANDROID_ACTIONS`
unfoldable pub is_android : CleanupActionType → Bool
is_android stop_host_process = false
is_android _ = true

pub record CleanupResult : Type 0 where
  pub session_id : String
  pub success : Bool
  pub status : SessionStatus
  pub actions : List CleanupActionResult

abbrev action_result : CleanupAction → CleanupActionStatus → Option String → CleanupActionResult
action_result a s e = record {
  action_id = a.action_id;
  action_type = a.action_type;
  status = s;
  failure = e;
}

module _ {D : Type 0} where
  abbrev pub on_repository : {A : Type 0} → Exec Repository A → Exec (World D) A
  on_repository m w =
      let (r, repository') = m w.repository in (r, record w { repository = repository' })

  abbrev pub on_device : {A : Type 0} → Exec D A → Exec (World D) A
  on_device m w = let (r, device') = m w.device in (r, record w { device = device' })

-- The actions that are still to be done.
abbrev pub unsettled : List CleanupAction → List CleanupAction
unsettled = filter (λ a. not (is_settled a.status))

abbrev pub failure_text : Bool → Option String
failure_text true = none
failure_text false = some "One or more cleanup actions failed."

abbrev pub all_settled : SessionRecord → Bool
all_settled r = all (λ a. is_settled a.status) r.cleanup_actions

abbrev pub verdict_status : Bool → SessionStatus
verdict_status success = if success then cleaned else cleanup_failed

-- `action.action_id in action_ids`
abbrev pub is_selected : List String → CleanupAction → Bool
is_selected action_ids a = any (λ k. k =ₛ a.action_id) action_ids

module _ {D : Type 0} (p : Platform D) (now : String) where
  unfoldable pub try_action : SessionRecord → CleanupAction → Exec (World D) CleanupActionResult
  try_action r a = do
    status ← on_device (execute p r a)
    on_repository (update_cleanup_action now r.session_id a.action_id status none)
    pure (action_result a status none)

  -- The body of the `try`: what is executed, and the entry that it leaves in the ledger.
  unfoldable pub attempt :
      SessionRecord → Option String → CleanupAction → Exec (World D) CleanupActionResult
  attempt r not_ready a w = elim (if is_android a.action_type then not_ready else none) [
    | some message ↦ raise cleanup_error message w
    | none ↦ try_action r a w
  ]

  abbrev pub settle :
      SessionRecord
      → CleanupAction
      → CleanupActionStatus
      → Error
      → Exec (World D) CleanupActionResult
  settle r a status e = do
    on_repository (update_cleanup_action now r.session_id a.action_id status (some (p.note e)))
    pure (action_result a status (some (p.note e)))

  -- The two `except` clauses.
  abbrev pub on_error :
      SessionRecord → CleanupAction → Error → Option (Exec (World D) CleanupActionResult)
  on_error r a e =
      if is_conflict e.kind
      then some (settle r a conflict e)
      else if is_expected e.kind
      then some (settle r a failed e)
      else none

  unfoldable pub run_action :
      SessionRecord → Option String → CleanupAction → Exec (World D) CleanupActionResult
  run_action r not_ready a w =
      let (result, w') = attempt r not_ready a w in caught result (on_error r a) w'

  unfoldable pub run_actions :
      SessionRecord → Option String → List CleanupAction → Exec (World D) (List CleanupActionResult)
  run_actions r not_ready [] = pure []
  run_actions r not_ready (a ∷ rest) = do
    result ← run_action r not_ready a
    results ← run_actions r not_ready rest
    pure (result ∷ results)

  -- A text that is tested for truth.
  abbrev or_none : String → Option String
  or_none m = if is_empty m then none else some m

  -- `require_authorized_device`, whose `AdbError` becomes the reason that no action of the
  -- device is tried.
  unfoldable pub probe_authorized : String → Exec (World D) (Option String)
  probe_authorized serial w =
      let (r, w') = on_device (require_authorized_device p.adb serial) w in
      elim r [
        | ok _ ↦ (ok none, w')
        | err e ↦ if is_adb_error e.kind then (ok (or_none (p.note e)), w') else (err e, w')
      ]

  -- The probe is made only where an action of the device is to be tried.
  unfoldable pub probe_device : String → List CleanupAction → Exec (World D) (Option String)
  probe_device serial actions w =
      if any (λ a. is_android a.action_type) actions
      then probe_authorized serial w
      else (ok none, w)

  -- The verdict over the ledger that a cleanup leaves, and the status that is stored for it.
  unfoldable pub finish_cleanup : String → List CleanupActionResult → Exec (World D) CleanupResult
  finish_cleanup session_id results = do
    final ← on_repository (load session_id)
    let success = all_settled final
    on_repository
        (set_status now session_id (verdict_status success) (bool success) (failure_text success))
    pure (record {
      session_id = session_id;
      success = success;
      status = verdict_status success;
      actions = results;
    })

  -- The actions that are left of a ledger, newest first.
  unfoldable pub run_cleanup : SessionRecord → Exec (World D) CleanupResult
  run_cleanup initial = do
    on_repository (set_status now initial.session_id cleaning null none)
    not_ready ← probe_device initial.serial (unsettled initial.cleanup_actions)
    results ← run_actions initial not_ready (unsettled (reverse initial.cleanup_actions))
    finish_cleanup initial.session_id results

  -- The body of `cleanup` once the device lock is held.
  unfoldable pub cleanup_locked : String → Exec (World D) CleanupResult
  cleanup_locked session_id = do
    initial ← on_repository (load session_id)
    if is_cleaned initial.status && not (pending_cleanup initial)
        then pure (record {
          session_id = initial.session_id;
          success = true;
          status = cleaned;
          actions = [];
        })
        else run_cleanup initial

  -- `cleanup`; `acquire` is the outcome of entering the device lock.
  unfoldable pub cleanup : Result (Unit {0}) → String → Exec (World D) CleanupResult
  cleanup acquire session_id = do
    initial ← on_repository (load session_id)
    lift acquire
    cleanup_locked initial.session_id

  -- The last status that a rollback stores, from the ledger that it leaves.
  unfoldable pub finish_rollback : String → SessionRecord → Exec (World D) SessionRecord
  finish_rollback session_id latest =
      if pending_cleanup latest
      then on_repository (
          set_status now session_id cleanup_required (bool false)
            (some "Transactional rollback left pending cleanup work."))
      else on_repository (set_status now session_id active null none)

  -- The rollback of a session that was loaded.
  unfoldable pub roll_back : List String → SessionRecord → Exec (World D) CleanupResult
  roll_back action_ids initial = do
    let selected = unsettled (filter (is_selected action_ids) initial.cleanup_actions)
    not_ready ← probe_device initial.serial selected
    results ← run_actions initial not_ready (reverse selected)
    latest ← on_repository (load initial.session_id)
    let success =
        all (λ a. is_settled a.status) (filter (is_selected action_ids) latest.cleanup_actions)
    finish_rollback initial.session_id latest
    on_repository (
        append_event now initial.session_id "transaction_rollback"
          (field "success" (bool success) (field "action_count" (num (pos (length results))) end)))
    final ← on_repository (load initial.session_id)
    pure (record {
      session_id = initial.session_id;
      success = success;
      status = final.status;
      actions = results;
    })

  unfoldable pub rollback_actions : String → List String → Exec (World D) CleanupResult
  rollback_actions session_id action_ids = do
    initial ← on_repository (load session_id)
    roll_back action_ids initial
