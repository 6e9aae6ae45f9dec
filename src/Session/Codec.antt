-- ===== src/Session/Codec.antt =====
-- `to_dict` and `from_dict` of `CleanupAction` and `SessionRecord` (android_assessor/session.py),
-- and the names by which the enumerations are stored.
use android_appsec_assessor.Prelude.{
  String, Bool, false, not, Option, none, some, List, [], ◌∷◌, map, ◌=ₛ◌, ◌==◌, if◌then◌else◌,
}
use android_appsec_assessor.Prelude.Int.{pos, is_negative, to_nat}
use android_appsec_assessor.Prelude.Text.{char_count, codes}
use android_appsec_assessor.Errors.{
  Result, ok, err, fault, ◌>>=◌, ◌>>◌, require, session_error, other_error,
}
use android_appsec_assessor.Validation.{
  validate_session_id, validate_serial, validate_package_name, mask_serial, after,
}
use android_appsec_assessor.Json.{
  Value, bool, num, str, arr, obj, Items, Fields, end, field, lookup, get_or, get, of_optional,
  of_list, to_list, Conversions, to_str, to_int, optional_str,
}
use android_appsec_assessor.Session.{
  SessionStatus, initializing, active, cleanup_required, cleaning, cleaned, cleanup_failed, error,
  CleanupActionType, restore_proxy, remove_reverse, remove_remote_file, stop_remote_process,
  stop_host_process, CleanupActionStatus, pending, completed, failed, conflict, skipped,
  CleanupAction, SessionRecord, pending_cleanup,
}

-- `SessionStatus.value`
unfoldable pub status_value : SessionStatus → String
status_value initializing = "initializing"
status_value active = "active"
status_value cleanup_required = "cleanup_required"
status_value cleaning = "cleaning"
status_value cleaned = "cleaned"
status_value cleanup_failed = "cleanup_failed"
status_value error = "error"

-- `SessionStatus(text)`, `none` for a `ValueError`
unfoldable pub status_of : String → Option SessionStatus
status_of s =
    if s =ₛ "initializing"
    then some initializing
    else if s =ₛ "active"
    then some active
    else if s =ₛ "cleanup_required"
    then some cleanup_required
    else if s =ₛ "cleaning"
    then some cleaning
    else if s =ₛ "cleaned"
    then some cleaned
    else if s =ₛ "cleanup_failed"
    then some cleanup_failed
    else if s =ₛ "error"
    then some error
    else none

-- `CleanupActionType.value`
unfoldable pub type_value : CleanupActionType → String
type_value restore_proxy = "restore_proxy"
type_value remove_reverse = "remove_reverse"
type_value remove_remote_file = "remove_remote_file"
type_value stop_remote_process = "stop_remote_process"
type_value stop_host_process = "stop_host_process"

-- `CleanupActionType(text)`
unfoldable pub type_of : String → Option CleanupActionType
type_of s =
    if s =ₛ "restore_proxy"
    then some restore_proxy
    else if s =ₛ "remove_reverse"
    then some remove_reverse
    else if s =ₛ "remove_remote_file"
    then some remove_remote_file
    else if s =ₛ "stop_remote_process"
    then some stop_remote_process
    else if s =ₛ "stop_host_process"
    then some stop_host_process
    else none

-- `CleanupActionStatus.value`
unfoldable pub action_status_value : CleanupActionStatus → String
action_status_value pending = "pending"
action_status_value completed = "completed"
action_status_value failed = "failed"
action_status_value conflict = "conflict"
action_status_value skipped = "skipped"

-- `CleanupActionStatus(text)`
unfoldable pub action_status_of : String → Option CleanupActionStatus
action_status_of s =
    if s =ₛ "pending"
    then some pending
    else if s =ₛ "completed"
    then some completed
    else if s =ₛ "failed"
    then some failed
    else if s =ₛ "conflict"
    then some conflict
    else if s =ₛ "skipped"
    then some skipped
    else none

-- `CleanupAction.to_dict`
unfoldable pub action_to_dict : CleanupAction → Fields
action_to_dict a = field "action_id" (str a.action_id) (
    field "action_type" (str (type_value a.action_type)) (
      field "payload" (obj a.payload) (
        field "status" (str (action_status_value a.status)) (
          field "attempts" (num (pos a.attempts)) (
            field "last_error" (of_optional a.last_error)
              (field "completed_at" (of_optional a.completed_at) end))))))

-- The `KeyError`, `TypeError` or `ValueError` that the decoders turn into a `SessionError`.
abbrev or_invalid {ℓ} : {A : Type ℓ} → String → Option A → Result A
or_invalid m none = err (fault session_error m)
or_invalid m (some a) = ok a

abbrev invalid_action : String
invalid_action = "Invalid cleanup action"

abbrev invalid_record : String
invalid_record = "Invalid session record"

-- A value that must be a JSON object.
abbrev as_object : Value → Option Fields
as_object (obj fs) = some fs
as_object _ = none

-- A value that must be a JSON array.
abbrev as_array : Value → Option Items
as_array (arr vs) = some vs
as_array _ = none

-- The end of a subscript that no handler covers: the `KeyError` escapes.
abbrev or_key_error {ℓ} : {A : Type ℓ} → Option A → Result A
or_key_error none = err (fault other_error "KeyError")
or_key_error (some a) = ok a

unfoldable pub has_action_id_shape : String → Bool
unfolding after
has_action_id_shape s = elim (after (codes "cleanup-") (codes s)) [
  | none ↦ false
  | some _ ↦ char_count s == 16
]

module _ (conv : Conversions) where
  -- `CleanupAction.from_dict`
  unfoldable pub action_from_dict : Fields → Result CleanupAction
  action_from_dict fs = do
    id_value ← or_invalid invalid_action (lookup "action_id" fs)
    type_text ← or_invalid invalid_action (lookup "action_type" fs)
    action_type ← or_invalid invalid_action (type_of (to_str conv type_text))
    status ←
        or_invalid invalid_action
          (action_status_of (to_str conv (get_or "status" (str "pending") fs)))
    payload ← or_invalid invalid_action (as_object (get_or "payload" (obj end) fs))
    attempts ← or_invalid invalid_action (to_int conv (get_or "attempts" (num (pos 0)) fs))
    require (has_action_id_shape (to_str conv id_value)) session_error
        "Cleanup action ID has an invalid format."
    require (not (is_negative attempts)) session_error "Cleanup action attempts cannot be negative."
    ok (record {
      action_id = to_str conv id_value;
      action_type = action_type;
      payload = payload;
      status = status;
      attempts = to_nat attempts;
      last_error = optional_str conv (get "last_error" fs);
      completed_at = optional_str conv (get "completed_at" fs);
    })

  -- `tuple(CleanupAction.from_dict(item) for item in actions)`
  unfoldable pub actions_from : List Value → Result (List CleanupAction)
  actions_from [] = ok []
  actions_from (v ∷ vs) = do
    fs ← or_invalid invalid_action (as_object v)
    a ← action_from_dict fs
    rest ← actions_from vs
    ok (a ∷ rest)

  -- `SessionRecord.from_dict`
  unfoldable pub from_dict : Fields → Result SessionRecord
  from_dict fs = do
    id_value ← or_invalid invalid_record (lookup "session_id" fs)
    session_id ← validate_session_id (to_str conv id_value)
    serial_value ← or_invalid invalid_record (lookup "serial" fs)
    serial ← validate_serial (to_str conv serial_value)
    package_value ← or_invalid invalid_record (lookup "package" fs)
    package_name ← validate_package_name (to_str conv package_value)
    status_text ← or_invalid invalid_record (lookup "status" fs)
    status ← or_invalid invalid_record (status_of (to_str conv status_text))
    snapshot ← or_invalid invalid_record (as_object (get_or "snapshot" (obj end) fs))
    items ← or_invalid invalid_record (as_array (get_or "cleanup_actions" (arr Items.nil) fs))
    created_at ← or_key_error (lookup "created_at" fs)
    updated_at ← or_key_error (lookup "updated_at" fs)
    actions ← actions_from (to_list items)
    ok (record {
      session_id = session_id;
      created_at = to_str conv created_at;
      updated_at = to_str conv updated_at;
      status = status;
      serial = serial;
      package_name = package_name;
      snapshot = snapshot;
      cleanup_actions = actions;
      cleanup_success = get "cleanup_success" fs;
      last_error = optional_str conv (get "last_error" fs);
    })

-- `SessionRecord.to_dict`
unfoldable pub to_dict : SessionRecord → Fields
to_dict r = field "schema_version" (num (pos 1)) (
    field "session_id" (str r.session_id) (
      field "created_at" (str r.created_at) (
        field "updated_at" (str r.updated_at) (
          field "status" (str (status_value r.status)) (
            field "serial" (str r.serial) (
              field "serial_masked" (str (mask_serial r.serial)) (
                field "package" (str r.package_name) (
                  field "snapshot" (obj r.snapshot) (
                    field "cleanup_actions"
                      (arr (of_list (map (λ a. obj (action_to_dict a)) r.cleanup_actions)))
                      (field "pending_cleanup" (bool (pending_cleanup r)) (
                        field "cleanup_success" r.cleanup_success
                          (field "last_error" (of_optional r.last_error) end))))))))))))
