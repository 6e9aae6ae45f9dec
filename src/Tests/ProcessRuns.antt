-- ===== src/Tests/ProcessRuns.antt =====
-- A run of the stop of a remote process, on a device whose state is whether the process exists.
use android_appsec_assessor.Prelude.{String, Bool, ◌≡◌, refl, true, false, ◌=ₛ◌, if◌then◌else◌}
use android_appsec_assessor.Prelude.Int.{pos}
use android_appsec_assessor.Prelude.Text.{
  is_space, strip, digit_value, is_digit, is_line_break, words, decimal, is_decimal, rstrip_breaks,
  after_last_paren,
}
use android_appsec_assessor.Errors.{ok}
use android_appsec_assessor.Exec.{Exec}
use android_appsec_assessor.Validation.{
  root_of, posix_path, as_posix, strictly_below, validate_managed_remote_path,
}
use android_appsec_assessor.Json.{Fields, end, field, str, num, lookup, get_or, to_str, to_int}
use android_appsec_assessor.Adb.{CommandResult, is_zero}
use android_appsec_assessor.Session.{completed}
use android_appsec_assessor.Cleanup.{Platform}
use android_appsec_assessor.Cleanup.Actions.{
  is_text, is_owned, proc_start_time, remote_target, expected_identity, is_same_process,
  refuse_unless, remote_process_exists, capture_identity, wait_stopped, stop_existing,
  stop_owned_remote_process,
}
use android_appsec_assessor.Cleanup.Safety.{IsStopped, stop_owned_remote_process-IsStopped}
use android_appsec_assessor.Tests.{success_of, conversions, session_id, changed_session}

abbrev server_path : String
server_path = "/data/local/tmp/android-security-lab/frida-server"

abbrev run_root : String → String → Bool → Exec Bool CommandResult
run_root serial command check alive =
    if command =ₛ "kill 42"
    then (ok (success_of ""), false)
    else if command =ₛ "readlink /proc/42/exe"
    then (ok (success_of server_path), alive)
    else if command =ₛ "cat /proc/42/stat"
    then (
      ok (success_of "42 (frida-server) S 1 42 42 0 -1 4194560 1 2 3 4 5 6 7 8 20 0 1 0 9001 1 2"),
      alive,
    )
    else if command =ₛ "cat /proc/42/cmdline"
    then (ok (success_of "frida-server"), alive)
    else (ok (success_of (if alive then "EXISTS" else "MISSING")), alive)

abbrev rooted : Platform Bool
rooted = record {
  adb = record { run = λ arguments alive. (ok (success_of ""), alive) };
  root_shell = run_root;
  terminate_owned = λ i alive. (ok true, alive);
  is_absolute = λ s. true;
  managed_name = λ s. ok "scrcpy.exe";
  is_isoformat = λ s. true;
  conv = conversions;
  note = λ e. e.message;
  rounds = 2;
}

abbrev server_payload : Fields
server_payload = field "pid" (num (pos 42)) (
    field "executable_path" (str server_path) (
      field "name" (str "frida-server") (
        field "ownership_state" (str "owned") (
          field "session_id" (str session_id) (
            field "started_at" (str "2026-01-01T12:30:00+00:00") (
              field "proc_exe" (str server_path) (
                field "proc_start_time" (str "9001")
                  (field "command_line" (str "frida-server") end))))))))

stopped :
    stop_owned_remote_process rooted changed_session server_payload true ≡ (ok completed, false)
unfolding stop_owned_remote_process remote_target is_text is_owned lookup get_or to_str to_int
    root_of posix_path as_posix strictly_below validate_managed_remote_path remote_process_exists
    refuse_unless is_zero strip is_space decimal stop_existing expected_identity is_decimal is_digit
    digit_value capture_identity proc_start_time after_last_paren words rstrip_breaks is_line_break
    is_same_process wait_stopped
stopped = refl

stop_owned_remote_process-IsStopped_example : IsStopped rooted changed_session server_payload true
stop_owned_remote_process-IsStopped_example =
    stop_owned_remote_process-IsStopped rooted changed_session server_payload true stopped
