-- ===== src/Cleanup/Actions.antt =====
-- The handlers of the five cleanup actions (android_assessor/cleanup.py), each an action on the
-- device: `restore_owned_proxy`, `remove_owned_reverse`, `_remove_remote_file`,
-- `_stop_remote_process`, `_stop_host_process`, and the dispatch `_execute`.
mod Payload
unfoldable pub use Payload.*
use android_appsec_assessor.Prelude.{
  ℕ, zero, suc, ◌<>◌, String, Bool, true, false, not, ◌&&◌, ◌||◌, Option, none, some, [], ◌∷◌, any,
  find_first, ◌=ₛ◌, if◌then◌else◌,
}
use android_appsec_assessor.Prelude.Int.{ℤ}
use android_appsec_assessor.Prelude.Text.{is_empty, strip, decimal, rstrip_breaks}
use android_appsec_assessor.Errors.{
  Result, err, fault, cleanup_error, cleanup_conflict_error, is_cleanup_error,
}
use android_appsec_assessor.Exec.{Exec, pure, raise, lift, ensure, try_catch, ◌>>=◌, ◌>>◌}
use android_appsec_assessor.Validation.{validate_managed_remote_path, validate_reverse_endpoint}
use android_appsec_assessor.Json.{Value, str, obj, Fields, lookup, get, get_or, to_str, to_int}
use android_appsec_assessor.Adb.{
  ReverseMapping, CommandResult, is_zero, get_http_proxy, put_http_proxy, delete_http_proxy,
  list_reverse, remove_reverse, shell,
}
use android_appsec_assessor.Snapshot.{parse_proxy_snapshot}
use android_appsec_assessor.Session.{
  CleanupActionType, restore_proxy, remove_remote_file, stop_remote_process, stop_host_process,
  CleanupActionStatus, completed, skipped, CleanupAction, SessionRecord,
}
use android_appsec_assessor.Cleanup.{ProcessIdentity, RemoteProcessIdentity, Platform}

-- A call of `subprocess` that did not finish, or finished with an error.
abbrev pub has_failed : CommandResult → Bool
has_failed result = result.timed_out || not (is_zero result.exit_code)

module _ {D : Type 0} where
  -- `if not …: raise CleanupError(…)`
  unfoldable pub refuse_unless : Bool → String → Exec D (Unit {0})
  refuse_unless test m = ensure test cleanup_error m

module _ {D : Type 0} (p : Platform D) where
  unfoldable pub restore_owned_proxy : SessionRecord → Fields → Exec D CleanupActionStatus
  restore_owned_proxy r payload = do
    refuse_unless (not (is_refused (parse_proxy_snapshot p.conv r.snapshot)))
        "Refusing to modify the proxy because its original state was not captured"
    refuse_unless (is_owned payload) "Proxy cleanup action has no valid ownership marker."
    previous ← lift (
        or_cleanup_error "Owned proxy previous value is invalid."
          (text_or_none (get "previous_proxy" payload)))
    applied ← lift (
        or_cleanup_error "Owned proxy applied value is invalid."
          (text_of (get "applied_proxy" payload)))
    current ← get_http_proxy p.adb r.serial
    if same_setting current previous
        then pure skipped
        else if not (same_setting current (some applied))
        then raise cleanup_conflict_error
            "Current Android proxy no longer matches the value applied by this session."
        else elim previous [
          | none ↦ delete_http_proxy p.adb r.serial >>= λ _. pure completed
          | some value ↦ put_http_proxy p.adb r.serial value >>= λ _. pure completed
        ]

  unfoldable pub remove_owned_reverse : SessionRecord → Fields → Exec D CleanupActionStatus
  remove_owned_reverse r payload = do
    refuse_unless (is_owned payload) "ADB reverse cleanup action has no valid ownership marker."
    remote ←
        lift (validate_reverse_endpoint (to_str p.conv (get_or "reverse_remote" (str "") payload)))
    local ←
        lift (validate_reverse_endpoint (to_str p.conv (get_or "reverse_local" (str "") payload)))
    current ← list_reverse p.adb r.serial
    elim (find_first (λ (m : ReverseMapping). m.remote =ₛ remote) current) [
      | none ↦ pure skipped
      | some mapping ↦
          if not (mapping.local =ₛ local)
          then raise cleanup_conflict_error
              "ADB reverse endpoint now maps to a different local endpoint."
          else (remove_reverse p.adb r.serial remote >>= λ _. pure completed)
    ]

  unfoldable pub remove_owned_file : SessionRecord → Fields → Exec D CleanupActionStatus
  remove_owned_file r payload = do
    remote_path ←
        lift (validate_managed_remote_path (to_str p.conv (get_or "path" (str "") payload)))
    exists ← shell p.adb r.serial ("test" ∷ "-e" ∷ remote_path ∷ []) false
    if not (is_zero exists.exit_code) || exists.timed_out
        then pure skipped
        else (shell p.adb r.serial ("rm" ∷ "-f" ∷ "--" ∷ remote_path ∷ []) true >>= λ _.
            pure completed)

  -- `_remote_process_exists`
  unfoldable pub remote_process_exists : String → ℕ → Exec D Bool
  remote_process_exists serial pid = do
    result ←
        p.root_shell serial
          ("if [ -d /proc/" <> (decimal pid <> " ]; then echo EXISTS; else echo MISSING; fi")) false
    refuse_unless (not (has_failed result))
        "Could not verify whether the owned Android process exists."
    let marker = strip result.stdout
    if marker =ₛ "EXISTS"
        then pure true
        else if marker =ₛ "MISSING"
        then pure false
        else raise cleanup_error "Android process existence probe returned an invalid result."

  abbrev pub read_identity_field : String → String → Exec D String
  read_identity_field serial command = do
    result ← p.root_shell serial command false
    refuse_unless (not (has_failed result)) "Could not read Android process identity field."
    pure (rstrip_breaks result.stdout)

  -- `capture_remote_process_identity` of a path that was validated
  unfoldable pub capture_identity : String → ℕ → String → Exec D RemoteProcessIdentity
  capture_identity serial pid executable_path = do
    expected ← lift (validate_managed_remote_path executable_path)
    proc_exe ← read_identity_field serial ("readlink /proc/" <> (decimal pid <> "/exe"))
    stat ← read_identity_field serial ("cat /proc/" <> (decimal pid <> "/stat"))
    command_line ← read_identity_field serial ("cat /proc/" <> (decimal pid <> "/cmdline"))
    refuse_unless (proc_exe =ₛ expected && not (is_empty command_line))
        "Android process executable identity does not match."
    start_time ← lift (proc_start_time stat)
    pure (record {
      pid = pid;
      executable_path = expected;
      proc_exe = proc_exe;
      proc_start_time = start_time;
      command_line = command_line;
    })

  -- The end of one round: `none` goes on to the next.
  abbrev pub lost_or_gone : String → ℕ → String → String → Exec D (Option CleanupActionStatus)
  lost_or_gone serial pid executable_path start_time =
      try_catch
        (do
          current ← capture_identity serial pid executable_path
          pure (if current.proc_start_time =ₛ start_time then none else some completed))
        λ e.
          if is_cleanup_error e.kind
          then some (do
            exists ← remote_process_exists serial pid
            pure (if exists then none else some completed))
          else none

  -- The wait for a stopped process, one round for each poll before the deadline.
  unfoldable pub wait_stopped : ℕ → String → ℕ → String → String → Exec D CleanupActionStatus
  wait_stopped zero serial pid executable_path start_time =
      raise cleanup_error "Owned Android process did not stop within timeout."
  wait_stopped (suc rounds) serial pid executable_path start_time = do
    exists ← remote_process_exists serial pid
    elim exists [
      | false ↦ pure completed
      | true ↦ lost_or_gone serial pid executable_path start_time >>= λ outcome. elim outcome [
        | some status ↦ pure status
        | none ↦ wait_stopped rounds serial pid executable_path start_time
      ]
    ]

  -- What `_stop_remote_process` does to a process that exists.
  unfoldable pub stop_existing : SessionRecord → Fields → RemoteTarget → Exec D CleanupActionStatus
  stop_existing r payload target = do
    expected ← lift (expected_identity target.executable_path payload)
    actual ← capture_identity r.serial target.pid target.executable_path
    refuse_unless (is_same_process expected target.executable_path actual)
        "Refusing to stop reused or mismatched Android PID."
    p.root_shell r.serial ("kill " <> decimal target.pid) true
    wait_stopped p.rounds r.serial target.pid target.executable_path expected.start_time

  unfoldable pub stop_owned_remote_process : SessionRecord → Fields → Exec D CleanupActionStatus
  stop_owned_remote_process r payload = do
    target ← lift (remote_target p.conv p.is_isoformat r.session_id payload)
    exists ← remote_process_exists r.serial target.pid
    if exists then stop_existing r payload target else pure skipped

  -- `ProcessIdentity.from_dict`
  abbrev field_of : String → Fields → Result Value
  field_of k fs = or_cleanup_error "Invalid host process identity" (lookup k fs)

  abbrev pub number_of : String → Fields → Result ℤ
  number_of k fs = elim (lookup k fs) [
    | none ↦ err (fault cleanup_error "Invalid host process identity")
    | some v ↦ or_cleanup_error "Invalid host process identity" (to_int p.conv v)
  ]

  unfoldable pub process_identity_from_dict : Fields → Exec D ProcessIdentity
  process_identity_from_dict fs = do
    pid ← lift (number_of "pid" fs)
    executable ← lift (field_of "executable" fs)
    creation_filetime ← lift (number_of "creation_filetime" fs)
    positive_pid ←
        lift (or_cleanup_error "Host process identity contains invalid values." (positive pid))
    positive_time ← lift (
        or_cleanup_error "Host process identity contains invalid values."
          (positive creation_filetime))
    refuse_unless (p.is_absolute (to_str p.conv executable))
        "Host process identity contains invalid values."
    pure (record {
      pid = positive_pid;
      executable = to_str p.conv executable;
      creation_filetime = positive_time;
    })

  abbrev object_of : Value → Option Fields
  object_of (obj fs) = some fs
  object_of _ = none

  unfoldable pub stop_owned_host_process : Fields → Exec D CleanupActionStatus
  stop_owned_host_process payload = do
    names ← lift (
        or_cleanup_error "Host process cleanup is not on the allowlist."
          (host_roles (to_str p.conv (get_or "role" (str "") payload))))
    identity_value ← lift (
        or_cleanup_error "Host process cleanup is not on the allowlist."
          (object_of (get "identity" payload)))
    identity ← process_identity_from_dict identity_value
    name ← lift (p.managed_name identity.executable)
    refuse_unless (any (λ x. x =ₛ name) names)
        "Host process executable does not match its managed role."
    terminated ← p.terminate_owned identity
    pure (if terminated then completed else skipped)

  -- `_execute`
  unfoldable pub dispatch : CleanupActionType → SessionRecord → Fields → Exec D CleanupActionStatus
  dispatch restore_proxy r payload = restore_owned_proxy r payload
  dispatch CleanupActionType.remove_reverse r payload = remove_owned_reverse r payload
  dispatch remove_remote_file r payload = remove_owned_file r payload
  dispatch stop_remote_process r payload = stop_owned_remote_process r payload
  dispatch stop_host_process r payload = stop_owned_host_process payload

  abbrev pub execute : SessionRecord → CleanupAction → Exec D CleanupActionStatus
  execute r a = dispatch a.action_type r a.payload
