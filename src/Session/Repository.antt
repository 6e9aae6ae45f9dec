-- ===== src/Session/Repository.antt =====
-- `SessionRepository` (android_assessor/session.py). The state is the results directory: the
-- session records by directory, the other directories with the error that loading them raises, and
-- the lines of the `events.jsonl` files. `now` is the clock's
-- reading as `isoformat` gives it; candidates for fresh identifiers are arguments.
use android_appsec_assessor.Prelude.{
  ◌+◌, ◌<>◌, String, Bool, not, ◌||◌, Option, none, some, List, [], ◌∷◌, ◌++◌, any, ◌=ₛ◌, ◌==◌,
  if◌then◌else◌,
}
use android_appsec_assessor.Prelude.Text.{codes, is_empty}
use android_appsec_assessor.Errors.{Error, ok, err, fault, session_error}
use android_appsec_assessor.Exec.{Exec, pure, raise, ensure, ◌>>=◌, ◌>>◌}
use android_appsec_assessor.Validation.{validate_session_id}
use android_appsec_assessor.Json.{Value, null, str, Fields, end, field, of_optional}
use android_appsec_assessor.Session.{
  SessionStatus, active, cleanup_required, CleanupActionType, CleanupActionStatus, pending,
  CleanupAction, SessionRecord, is_settled, is_cleaned,
}
use android_appsec_assessor.Session.Codec.{status_value, type_value, action_status_value}

pub record SessionEvent : Type 0 where
  pub timestamp : String
  pub session_id : String
  pub event : String
  pub details : Fields

-- A directory whose `session.json` is missing, cannot be read or does not decode, and what `load`
-- raises of it: `SessionError`, or what `SessionRecord.from_dict` lets through. A record is saved only
-- where one was loaded, or in a directory that did not exist.
pub record Damaged : Type 0 where
  pub directory : String
  pub failure : Error

pub record Repository : Type 0 where
  pub sessions : List SessionRecord
  pub damaged : List Damaged
  pub events : List SessionEvent

-- The record in the directory of an identifier.
unfoldable pub find_session : String → List SessionRecord → Option SessionRecord
find_session k [] = none
find_session k (r ∷ rs) = if r.session_id =ₛ k then some r else find_session k rs

-- Replacing `session.json` in the directory of the record, which is made where it is missing.
unfoldable pub put_session : SessionRecord → List SessionRecord → List SessionRecord
put_session r [] = r ∷ []
put_session r (q ∷ qs) = if q.session_id =ₛ r.session_id then r ∷ qs else q ∷ put_session r qs

-- What `load` raises of a directory without a record.
unfoldable pub load_failure : String → List Damaged → Error
load_failure k [] = fault session_error "JSON file not found"
load_failure k (d ∷ ds) = if d.directory =ₛ k then d.failure else load_failure k ds

unfoldable pub load : String → Exec Repository SessionRecord
load session_id s = elim (validate_session_id session_id) [
  | err e ↦ (err e, s)
  | ok k ↦ elim (find_session k s.sessions) [
    | none ↦ (err (load_failure k s.damaged), s)
    | some r ↦ (ok r, s)
  ]
]

-- `save`: the record goes to the directory of its own identifier.
unfoldable pub save : SessionRecord → Exec Repository (Unit {0})
save r s = elim (validate_session_id r.session_id) [
  | err e ↦ (err e, s)
  | ok k ↦ (ok tt, record s { sessions = put_session r s.sessions })
]

-- `any(character in event for character in "\r\n\x00")`
abbrev pub has_break : String → Bool
has_break s = any (λ c. c == 13 || c == 10 || c == 0) (codes s)

-- One more line of `events.jsonl`.
abbrev pub logged : String → String → String → Fields → Repository → Repository
logged now session_id event details s = record s {
  events =
      s.events
      ++ (record { timestamp = now; session_id = session_id; event = event; details = details }
          ∷ []);
}

unfoldable pub append_event : String → String → String → Fields → Exec Repository (Unit {0})
append_event now session_id event details s =
    if is_empty event || has_break event
    then (err (fault session_error "Session event name is invalid."), s)
    else elim (validate_session_id session_id) [
      | err e ↦ (err e, s)
      | ok k ↦ (ok tt, logged now session_id event details s)
    ]

unfoldable pub activate : String → String → Fields → Exec Repository SessionRecord
activate now session_id snapshot = do
  current ← load session_id
  let updated = record current {
    status = active;
    snapshot = snapshot;
    updated_at = now;
    last_error = none;
  }
  save updated
  append_event now session_id "session_activated" end
  pure updated

-- `replace(current, status=…, updated_at=…, cleanup_success=…, last_error=…)`
abbrev pub with_status :
    String → SessionStatus → Value → Option String → SessionRecord → SessionRecord
with_status now status cleanup_success last_error r = record r {
  status = status;
  updated_at = now;
  cleanup_success = cleanup_success;
  last_error = last_error;
}

unfoldable pub set_status :
    String → String → SessionStatus → Value → Option String → Exec Repository SessionRecord
set_status now session_id status cleanup_success last_error = do
  current ← load session_id
  save (with_status now status cleanup_success last_error current)
  append_event now session_id "session_status_changed"
      (field "status" (str (status_value status)) (field "error" (of_optional last_error) end))
  pure (with_status now status cleanup_success last_error current)

-- `fresh` is `uuid4().hex[:8]`.
abbrev pub new_action : String → CleanupActionType → Fields → CleanupAction
new_action fresh action_type payload = record {
  action_id = "cleanup-" <> fresh;
  action_type = action_type;
  payload = payload;
  status = pending;
  attempts = 0;
  last_error = none;
  completed_at = none;
}

unfoldable pub record_cleanup_action :
    String → String → String → CleanupActionType → Fields → Exec Repository CleanupAction
record_cleanup_action now fresh session_id action_type payload = do
  current ← load session_id
  ensure (not (is_cleaned current.status)) session_error
      "Cannot add cleanup work to a cleaned session."
  let action = new_action fresh action_type payload
  save (record current {
    status = cleanup_required;
    updated_at = now;
    cleanup_actions = current.cleanup_actions ++ (action ∷ []);
    cleanup_success = null;
  })
  append_event now session_id "cleanup_action_recorded" (
      field "action_id" (str action.action_id)
        (field "action_type" (str (type_value action_type)) end))
  pure action

-- The loop over the ledger: each action of the identifier is changed, and the last one is kept.
unfoldable pub update_matching :
    String
    → (CleanupAction → CleanupAction)
    → List CleanupAction
    → Option CleanupAction × List CleanupAction
update_matching action_id change [] = (none, [])
update_matching action_id change (a ∷ rest) =
    let (selected, updated) = update_matching action_id change rest in
    if a.action_id =ₛ action_id
    then (elim selected [ none ↦ some (change a) | some b ↦ some b ], change a ∷ updated)
    else (selected, a ∷ updated)

-- `replace(action, status=…, attempts=action.attempts + 1, …)`
abbrev pub attempted : String → CleanupActionStatus → Option String → CleanupAction → CleanupAction
attempted now status failure a = record a {
  status = status;
  attempts = a.attempts + 1;
  last_error = failure;
  completed_at = if is_settled status then some now else none;
}

-- The end of both updates: the changed ledger is stored, then the event.
unfoldable pub store_update :
    String
    → String
    → SessionRecord
    → String
    → Fields
    → Option CleanupAction × List CleanupAction
    → Exec Repository CleanupAction
store_update now session_id current event details (none, actions) =
    raise session_error "Cleanup action not found"
store_update now session_id current event details (some selected, actions) = do
  save (record current { cleanup_actions = actions; updated_at = now })
  append_event now session_id event details
  pure selected

unfoldable pub update_cleanup_action :
    String → String → String → CleanupActionStatus → Option String → Exec Repository CleanupAction
update_cleanup_action now session_id action_id status failure = do
  current ← load session_id
  store_update now session_id current "cleanup_action_updated"
      (field "action_id" (str action_id) (
        field "status" (str (action_status_value status))
          (field "error" (of_optional failure) end)))
      (update_matching action_id (attempted now status failure) current.cleanup_actions)

unfoldable pub update_cleanup_action_payload :
    String → String → String → Fields → Exec Repository CleanupAction
update_cleanup_action_payload now session_id action_id payload = do
  current ← load session_id
  store_update now session_id current "cleanup_action_payload_updated"
      (field "action_id" (str action_id) end)
      (update_matching action_id (λ a. record a { payload = payload }) current.cleanup_actions)
