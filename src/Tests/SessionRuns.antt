-- ===== src/Tests/SessionRuns.antt =====
-- Runs over the sessions directory and a device's snapshot, and the witnesses of their properties.
use android_appsec_assessor.Prelude.{◌≡◌, refl, false, [], ◌∷◌, none, some, String}
use android_appsec_assessor.Prelude.Text.{
  is_space, strip, digit_value, is_digit, is_line_break, lines, words, contains_text,
}
use android_appsec_assessor.Errors.{ok, err, fault, session_error, other_error, is_session_error}
use android_appsec_assessor.Validation.{
  matches, dotted_name, validate_session_id, validate_serial, validate_package_name, after,
}
use android_appsec_assessor.Validation.{
  root_of, posix_path, as_posix, strictly_below, validate_managed_remote_path,
}
use android_appsec_assessor.Validation.ManagedPath.{
  IsManaged, validate_managed_remote_path-IsManaged,
}
use android_appsec_assessor.Json.{end}
use android_appsec_assessor.Adb.{
  is_zero, validate_arguments, require_success, run_adb, run_for_device, shell, get_http_proxy,
  list_reverse, parse_reverse_list, mappings_of_lines,
}
use android_appsec_assessor.Snapshot.{
  captured_with_value, DeviceSnapshot, parse_proxy_snapshot, snapshot_to_dict, probe_frida,
  capture_device_snapshot,
}
use android_appsec_assessor.Snapshot.Restorable.{parse-capture_device_snapshot, reading_of}
use android_appsec_assessor.Session.{
  restore_proxy, active, SessionRecord, is_broken, is_cleaned, is_modifiable,
}
use android_appsec_assessor.Session.Codec.{has_action_id_shape, to_dict, from_dict}
use android_appsec_assessor.Session.RoundTrip.{IsStorable, from_dict-to_dict}
use android_appsec_assessor.Session.Repository.{
  Repository, load_failure, find_session, load, save, append_event, new_action,
  record_cleanup_action,
}
use android_appsec_assessor.Session.Listing.{
  directories, load_each, add_loaded, codes_lt, insert_newest, newest_first, list_sessions,
  allocate_id, new_record, initialize, blocks, check_slot, require_modifying_session_slot,
}
use android_appsec_assessor.Session.Newest.{IsListing, IsRaised, list_sessions-IsListing}
use android_appsec_assessor.Exec.{Outcome}
use android_appsec_assessor.Session.Slot.{IsGranted, require_modifying_session_slot-IsGranted}
use android_appsec_assessor.Session.Creation.{
  IsAdded, initialize-IsAdded, IsRecorded, record_cleanup_action-IsRecorded,
}
use android_appsec_assessor.Tests.{
  emulator, conversions, session_id, changed_session, changed_world, now,
}

abbrev directory : Repository
directory = changed_world.repository

abbrev new_id : String
new_id = "20260102-080000-ffffff"

-- `initialize`: the first candidate is taken, the second is free.
initialized :
    (initialize now (session_id ∷ new_id ∷ []) "emulator-5554" "org.example.app" directory).0
    ≡ ok (new_record now new_id "emulator-5554" "org.example.app")
unfolding initialize allocate_id validate_serial validate_package_name dotted_name strip is_space
    find_session validate_session_id matches is_digit digit_value save append_event
initialized = refl

initialize-IsAdded_example :
    IsAdded
      (new_record now new_id "emulator-5554" "org.example.app")
      directory
      (initialize now (session_id ∷ new_id ∷ []) "emulator-5554" "org.example.app" directory).1
initialize-IsAdded_example =
    initialize-IsAdded now (session_id ∷ new_id ∷ []) "emulator-5554" "org.example.app" directory
      λ i. (
        initialized i,
        (initialize now (session_id ∷ new_id ∷ []) "emulator-5554" "org.example.app" directory).1,
      )

recorded_action :
    (record_cleanup_action now "11223344" session_id restore_proxy end directory).0
    ≡ ok (new_action "11223344" restore_proxy end)
unfolding record_cleanup_action load find_session validate_session_id matches strip is_space
    is_digit digit_value save append_event is_cleaned
recorded_action = refl

record_cleanup_action-IsRecorded_example :
    IsRecorded session_id
      (new_action "11223344" restore_proxy end)
      directory
      (record_cleanup_action now "11223344" session_id restore_proxy end directory).1
record_cleanup_action-IsRecorded_example =
    record_cleanup_action-IsRecorded now "11223344" session_id restore_proxy end directory λ i. (
      recorded_action i,
      (record_cleanup_action now "11223344" session_id restore_proxy end directory).1,
    )

-- Beside the changed session, an active one of another device.
abbrev other_session : SessionRecord
other_session = record changed_session {
  session_id = new_id;
  serial = "emulator-5556";
  status = active;
  cleanup_actions = [];
}

abbrev two_sessions : Repository
two_sessions = record {
  sessions = changed_session ∷ other_session ∷ [];
  damaged =
      record {
        directory = "20260101-120000-ffffff";
        failure = fault session_error "Invalid session record";
      }
      ∷ [];
  events = [];
}

-- A directory whose failure is no `SessionError` ends the listing.
undated :
    (list_sessions (record two_sessions {
      damaged = record { directory = new_id; failure = fault other_error "created_at" } ∷ [];
      sessions = [];
    })).0
    ≡ err (fault other_error "created_at")
unfolding list_sessions load_each add_loaded is_session_error load_failure load find_session
    validate_session_id matches strip is_space is_digit digit_value
undated = refl

list_sessions-IsListing_example :
    Outcome
      (IsListing two_sessions)
      (IsRaised two_sessions (directories two_sessions))
      (list_sessions two_sessions).0
    × ((list_sessions two_sessions).1 ≡ two_sessions)
list_sessions-IsListing_example = list_sessions-IsListing two_sessions

granted : (require_modifying_session_slot "emulator-5556" new_id two_sessions).0 ≡ ok tt
unfolding require_modifying_session_slot check_slot blocks list_sessions newest_first insert_newest
    load_each add_loaded is_session_error load_failure codes_lt load find_session
    validate_session_id validate_serial matches strip is_space is_digit digit_value is_modifiable
    is_cleaned is_broken
granted = refl

require_modifying_session_slot-IsGranted_example : IsGranted "emulator-5556" new_id two_sessions
require_modifying_session_slot-IsGranted_example =
    require_modifying_session_slot-IsGranted "emulator-5556" new_id two_sessions
      λ i. (granted i, (require_modifying_session_slot "emulator-5556" new_id two_sessions).1)

changed_session-IsStorable : IsStorable changed_session
unfolding validate_session_id validate_serial validate_package_name dotted_name matches strip
    is_space is_digit digit_value has_action_id_shape
changed_session-IsStorable = record {
  session_id = refl;
  serial = refl;
  package_name = refl;
  error_text = tt;
  actions = (record { id_shape = refl; error_text = tt; completion_text = tt }, tt);
}

from_dict-to_dict_example : from_dict conversions (to_dict changed_session) ≡ ok changed_session
from_dict-to_dict_example = from_dict-to_dict conversions changed_session changed_session-IsStorable

abbrev taken : DeviceSnapshot
taken = record {
  captured_at = now;
  http_proxy = some "10.0.0.1:3128";
  http_proxy_state = captured_with_value;
  http_proxy_error = none;
  reverse_mappings = [];
  frida_server_running = some false;
  frida_process_names = [];
  target_package_installed = some false;
  errors = [];
}

captured :
    (capture_device_snapshot emulator
      (λ e. e.message)
      now
      "emulator-5554"
      "org.example.app"
      "10.0.0.1:3128").0
    ≡ ok taken
unfolding capture_device_snapshot validate_package_name dotted_name strip is_space get_http_proxy
    list_reverse probe_frida shell run_for_device run_adb validate_arguments validate_serial
    require_success is_zero parse_reverse_list mappings_of_lines lines words is_line_break
    contains_text after
captured = refl

parse-capture_device_snapshot_example :
    parse_proxy_snapshot conversions (snapshot_to_dict taken)
    ≡ reading_of (λ e. e.message) (get_http_proxy emulator "emulator-5554" "10.0.0.1:3128").0
parse-capture_device_snapshot_example =
    parse-capture_device_snapshot emulator (λ e. e.message) conversions now "emulator-5554"
      "org.example.app" "10.0.0.1:3128"
      λ i. (
        captured i,
        (capture_device_snapshot emulator (λ e. e.message) now "emulator-5554" "org.example.app"
            "10.0.0.1:3128").1,
      )

normalised :
    validate_managed_remote_path "/data//local/tmp/./android-security-lab/frida-server"
    ≡ ok "/data/local/tmp/android-security-lab/frida-server"
unfolding validate_managed_remote_path posix_path root_of as_posix strictly_below
normalised = refl

validate_managed_remote_path-IsManaged_example :
    IsManaged "/data/local/tmp/android-security-lab/frida-server"
validate_managed_remote_path-IsManaged_example =
    validate_managed_remote_path-IsManaged "/data//local/tmp/./android-security-lab/frida-server"
      normalised
