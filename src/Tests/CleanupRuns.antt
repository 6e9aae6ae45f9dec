-- ===== src/Tests/CleanupRuns.antt =====
-- Runs of the cleanup over the changed session, and the witnesses of its properties.
use android_appsec_assessor.Prelude.{arith, ◌⊎◌, ◌≡◌, refl, true, false, [], ◌∷◌, none}
use mathlib.Core.List.{reverse}
use android_appsec_assessor.Errors.{ok}
use android_appsec_assessor.Exec.{Returns}
use android_appsec_assessor.Session.Evolution.{Evolves}
use android_appsec_assessor.Session.Effects.{Loaded}
use android_appsec_assessor.Cleanup.Executor.{rollback_actions, unsettled}
use android_appsec_assessor.Cleanup.Verdict.{Agrees}
use android_appsec_assessor.Cleanup.Report.{cleanup-Agrees}
use android_appsec_assessor.Cleanup.Repeat.{cleanup_twice}
use android_appsec_assessor.Cleanup.Preservation.{cleanup-Evolves}
use android_appsec_assessor.Cleanup.RolledBack.{IsRolledBack, rollback_actions-IsRolledBack}
use android_appsec_assessor.Cleanup.Executor.{roll_back, finish_rollback}
use android_appsec_assessor.Session.{active}
use android_appsec_assessor.Cleanup.Rollback.{rollback_actions-Evolves}
use android_appsec_assessor.Cleanup.Raises.{RaisesCaught}
use android_appsec_assessor.Cleanup.Totality.{cleanup-Returns, ids, reported}
use android_appsec_assessor.Cleanup.Safety.{permits_restore, restore_owned_proxy_untouched}
use android_appsec_assessor.Adb.{
  is_zero, authorized, devices_of_lines, parse_adb_devices, validate_arguments, require_success,
  run_adb, run_for_device, shell, list_devices, find_device, require_authorized_device,
  get_http_proxy, delete_http_proxy,
}
use android_appsec_assessor.Cleanup.Actions.{
  is_text, is_owned, or_cleanup_error, refuse_unless, restore_owned_proxy, dispatch,
}
use android_appsec_assessor.Cleanup.Executor.{
  CleanupResult, is_android, try_action, attempt, run_action, run_actions, probe_authorized,
  probe_device, finish_cleanup, run_cleanup, cleanup_locked,
}
use android_appsec_assessor.Json.{lookup, get_or, to_str}
use android_appsec_assessor.Prelude.Text.{
  is_space, strip, digit_value, is_digit, is_line_break, lines, words,
}
use android_appsec_assessor.Session.{
  cleaned, restore_proxy, completed, is_settled, is_pending, pending_cleanup, is_cleaned,
}
use android_appsec_assessor.Session.Codec.{status_value, type_value, action_status_value}
use android_appsec_assessor.Session.Repository.{
  find_session, put_session, load, save, append_event, set_status, update_matching, store_update,
  update_cleanup_action,
}
use android_appsec_assessor.Snapshot.{
  proxy_state_of, parse_empty, parse_in_state, parse_proxy_snapshot,
}
use android_appsec_assessor.Validation.{matches, validate_session_id, after, validate_serial}
use android_appsec_assessor.Tests.{
  emulator, platform, session_id, changed_world, changed_session, proxy_action, now,
}

abbrev cleaned_result : CleanupResult
cleaned_result = record {
  session_id = session_id;
  success = true;
  status = cleaned;
  actions =
      record {
        action_id = "cleanup-0a1b2c3d";
        action_type = restore_proxy;
        status = completed;
        failure = none;
      }
      ∷ [];
}

session_id_valid : validate_session_id session_id ≡ ok session_id
unfolding validate_session_id matches is_space strip is_digit digit_value
session_id_valid = refl

cleanup_result : (cleanup_locked platform now session_id changed_world).0 ≡ ok cleaned_result
unfolding is_zero authorized devices_of_lines parse_adb_devices validate_arguments require_success
    run_adb run_for_device shell list_devices find_device require_authorized_device get_http_proxy
    delete_http_proxy is_text is_owned or_cleanup_error refuse_unless restore_owned_proxy dispatch
    is_android try_action attempt run_action run_actions probe_authorized probe_device
    finish_cleanup run_cleanup cleanup_locked lookup get_or to_str is_space strip digit_value
    is_digit is_line_break lines words is_settled is_pending pending_cleanup is_cleaned status_value
    type_value action_status_value find_session put_session load save append_event set_status
    update_matching store_update update_cleanup_action proxy_state_of parse_empty parse_in_state
    parse_proxy_snapshot matches validate_session_id after validate_serial
cleanup_result = refl

cleanup_device : (cleanup_locked platform now session_id changed_world).1.device ≡ "null"
unfolding is_zero authorized devices_of_lines parse_adb_devices validate_arguments require_success
    run_adb run_for_device shell list_devices find_device require_authorized_device get_http_proxy
    delete_http_proxy is_text is_owned or_cleanup_error refuse_unless restore_owned_proxy dispatch
    is_android try_action attempt run_action run_actions probe_authorized probe_device
    finish_cleanup run_cleanup cleanup_locked lookup get_or to_str is_space strip digit_value
    is_digit is_line_break lines words is_settled is_pending pending_cleanup is_cleaned status_value
    type_value action_status_value find_session put_session load save append_event set_status
    update_matching store_update update_cleanup_action proxy_state_of parse_empty parse_in_state
    parse_proxy_snapshot matches validate_session_id after validate_serial
cleanup_device = refl

cleanup_run :
    cleanup_locked platform now session_id changed_world
    ≡ (ok cleaned_result, (cleanup_locked platform now session_id changed_world).1)
cleanup_run i = (cleanup_result i, (cleanup_locked platform now session_id changed_world).1)

cleanup-Agrees_example :
    Agrees session_id cleaned_result (cleanup_locked platform now session_id changed_world).1
cleanup-Agrees_example =
    cleanup-Agrees platform now session_id changed_world session_id_valid cleanup_run

cleanup_twice_example :
    cleanup_locked platform "2026-01-01T14:00:00+00:00" session_id
      (cleanup_locked platform now session_id changed_world).1
    ≡ (
      ok (record { session_id = session_id; success = true; status = cleaned; actions = [] }),
      (cleanup_locked platform now session_id changed_world).1,
    )
cleanup_twice_example =
    cleanup_twice platform now session_id changed_world "2026-01-01T14:00:00+00:00" session_id_valid
      cleanup_run refl

cleanup-Evolves_example :
    Evolves session_id changed_world.repository
      (cleanup_locked platform now session_id changed_world).1.repository
cleanup-Evolves_example = cleanup-Evolves platform now session_id changed_world session_id_valid

rollback_actions-Evolves_example :
    Evolves session_id changed_world.repository
      (rollback_actions platform now session_id
        ("cleanup-0a1b2c3d" ∷ [])
        changed_world).1.repository
rollback_actions-Evolves_example =
    rollback_actions-Evolves platform now session_id ("cleanup-0a1b2c3d" ∷ []) changed_world
      session_id_valid

platform_raises : RaisesCaught platform
platform_raises = record {
  commands = record { run = λ arguments d. ground arith };
  roots = λ serial command check d. tt;
  terminates = λ i d. tt;
  manages = λ path. tt;
}

changed_session-Loaded : Loaded session_id changed_session changed_world.repository
unfolding find_session
changed_session-Loaded = record { key = session_id_valid; stored = refl }

cleanup-Returns_example :
    Returns
      (λ (result : CleanupResult).
        reported result.actions ≡ ids (unsettled (reverse changed_session.cleanup_actions)))
      (cleanup_locked platform now session_id changed_world).0
cleanup-Returns_example =
    cleanup-Returns platform platform_raises now session_id changed_session changed_world
      changed_session-Loaded

-- The proxy was changed by someone else.
foreign_proxy :
    permits_restore platform changed_session proxy_action.payload "10.0.0.1:3128" ≡ false
unfolding is_zero validate_arguments require_success run_adb run_for_device shell get_http_proxy
    is_text is_owned lookup get_or to_str is_space strip proxy_state_of parse_empty parse_in_state
    parse_proxy_snapshot matches after validate_serial
foreign_proxy = refl

restore_owned_proxy_untouched_example :
    ((restore_owned_proxy platform changed_session proxy_action.payload "10.0.0.1:3128").1
      ≡ "10.0.0.1:3128")
    ⊎ ((restore_owned_proxy platform changed_session proxy_action.payload "10.0.0.1:3128").1
        ≡ (get_http_proxy emulator "emulator-5554" "10.0.0.1:3128").1)
restore_owned_proxy_untouched_example =
    restore_owned_proxy_untouched platform changed_session proxy_action.payload "10.0.0.1:3128"
      foreign_proxy

abbrev rolled_back : CleanupResult
rolled_back = record cleaned_result { status = active }

rollback_result :
    (rollback_actions platform now session_id ("cleanup-0a1b2c3d" ∷ []) changed_world).0
    ≡ ok rolled_back
unfolding is_zero authorized devices_of_lines parse_adb_devices validate_arguments require_success
    run_adb run_for_device shell list_devices find_device require_authorized_device get_http_proxy
    delete_http_proxy is_text is_owned or_cleanup_error refuse_unless restore_owned_proxy dispatch
    is_android try_action attempt run_action run_actions probe_authorized probe_device
    rollback_actions roll_back finish_rollback lookup get_or to_str is_space strip digit_value
    is_digit is_line_break lines words is_settled is_pending pending_cleanup is_cleaned status_value
    type_value action_status_value find_session put_session load save append_event set_status
    update_matching store_update update_cleanup_action proxy_state_of parse_empty parse_in_state
    parse_proxy_snapshot matches validate_session_id after validate_serial
rollback_result = refl

rollback_actions-IsRolledBack_example :
    IsRolledBack session_id rolled_back
      (rollback_actions platform now session_id ("cleanup-0a1b2c3d" ∷ []) changed_world).1
rollback_actions-IsRolledBack_example =
    rollback_actions-IsRolledBack platform now session_id ("cleanup-0a1b2c3d" ∷ []) changed_world
      session_id_valid
      λ i. (
        rollback_result i,
        (rollback_actions platform now session_id ("cleanup-0a1b2c3d" ∷ []) changed_world).1,
      )
