-- ===== src/Tests.antt =====
-- The concrete device, platform and sessions of the tests and witnesses: an emulator whose proxy
-- the session changed, and the ledger that says so.
mod BridgeRuns
mod InventoryRuns
mod CleanupRuns
mod SessionRuns
mod ScopeRuns
mod ProcessRuns
mod LockRuns
mod DexRuns
mod CryptoRuns
mod TlsRuns
mod RootRuns
mod ScanRuns
mod CorrelationRuns
mod RedactionRuns
use android_appsec_assessor.Prelude.{
  String, Bool, true, false, none, List, [], ◌∷◌, ◌=ₛ◌, any, if◌then◌else◌,
}
use android_appsec_assessor.Prelude.Int.{pos}
use android_appsec_assessor.Errors.{ok}
use android_appsec_assessor.Exec.{Exec}
use android_appsec_assessor.Json.{null, str, end, field, Conversions}
use android_appsec_assessor.Adb.{CommandResult, Executable}
use android_appsec_assessor.Session.{
  cleanup_required, restore_proxy, pending, CleanupAction, SessionRecord,
}
use android_appsec_assessor.Cleanup.{Platform, World}

abbrev pub success_of : String → CommandResult
success_of stdout = record { exit_code = pos 0; stdout = stdout; stderr = ""; timed_out = false }

abbrev has_word : String → List String → Bool
has_word w xs = any (λ x. x =ₛ w) xs

-- The state is the device's proxy setting.
abbrev pub run_command : List String → Exec String CommandResult
run_command arguments proxy =
    if has_word "devices" arguments
    then (ok (success_of "List of devices attached\nemulator-5554\tdevice\n"), proxy)
    else if has_word "get" arguments
    then (ok (success_of proxy), proxy)
    else if has_word "delete" arguments
    then (ok (success_of ""), "null")
    else (ok (success_of ""), proxy)

abbrev pub emulator : Executable String
emulator = record { run = run_command }

abbrev pub conversions : Conversions
conversions = record { repr = λ v. "?"; parse = λ s. none }

abbrev pub platform : Platform String
platform = record {
  adb = emulator;
  root_shell = λ serial command check d. (ok (success_of "MISSING"), d);
  terminate_owned = λ i d. (ok true, d);
  is_absolute = λ s. true;
  managed_name = λ s. ok "scrcpy.exe";
  is_isoformat = λ s. true;
  conv = conversions;
  note = λ e. e.message;
  rounds = 3;
}

abbrev pub proxy_action : CleanupAction
proxy_action = record {
  action_id = "cleanup-0a1b2c3d";
  action_type = restore_proxy;
  payload =
      field "ownership_state" (str "owned")
        (field "previous_proxy" null (field "applied_proxy" (str "127.0.0.1:8080") end));
  status = pending;
  attempts = 0;
  last_error = none;
  completed_at = none;
}

abbrev pub session_id : String
session_id = "20260101-120000-0a1b2c"

abbrev pub changed_session : SessionRecord
changed_session = record {
  session_id = session_id;
  created_at = "2026-01-01T12:00:00+00:00";
  updated_at = "2026-01-01T12:00:00+00:00";
  status = cleanup_required;
  serial = "emulator-5554";
  package_name = "org.example.app";
  snapshot = field "http_proxy_state" (str "CAPTURED_EMPTY") end;
  cleanup_actions = proxy_action ∷ [];
  cleanup_success = null;
  last_error = none;
}

abbrev pub changed_world : World String
changed_world = record {
  repository = record { sessions = changed_session ∷ []; damaged = []; events = [] };
  device = "127.0.0.1:8080";
}

abbrev pub now : String
now = "2026-01-01T13:00:00+00:00"
