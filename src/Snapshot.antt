-- ===== src/Snapshot.antt =====
-- android_assessor/snapshot.py: the read-only snapshot of a device, its stored form, and the
-- reading of a stored proxy state.
pub mod Restorable
use android_appsec_assessor.Prelude.{
  ◌<>◌, String, Bool, true, false, not, ◌&&◌, Option, none, some, List, [], ◌∷◌, ◌++◌, map, ◌=ₛ◌,
  if◌then◌else◌,
}
use android_appsec_assessor.Prelude.Int.{pos}
use android_appsec_assessor.Prelude.Text.{codes, is_empty, strip, contains_text}
use android_appsec_assessor.Errors.{Error, Result, ok, err, is_adb_error}
use android_appsec_assessor.Exec.{Exec, pure, lift, ◌>>=◌}
use android_appsec_assessor.Validation.{validate_package_name}
use android_appsec_assessor.Json.{
  Value, null, bool, num, str, arr, obj, Fields, end, field, get, Conversions, to_str, optional_str,
  of_optional, of_list,
}
use android_appsec_assessor.Adb.{
  CommandResult, ReverseMapping, Executable, is_zero, get_http_proxy, list_reverse, shell,
}

pub data ProxySnapshotState : Type 0 where
  captured_with_value captured_empty capture_failed : ProxySnapshotState

pub record DeviceSnapshot : Type 0 where
  pub captured_at : String
  pub http_proxy : Option String
  pub http_proxy_state : ProxySnapshotState
  pub http_proxy_error : Option String
  pub reverse_mappings : List ReverseMapping
  pub frida_server_running : Option Bool
  pub frida_process_names : List String
  pub target_package_installed : Option Bool
  pub errors : List String

-- `ProxySnapshotState.value`
unfoldable pub proxy_state_value : ProxySnapshotState → String
proxy_state_value captured_with_value = "CAPTURED_WITH_VALUE"
proxy_state_value captured_empty = "CAPTURED_EMPTY"
proxy_state_value capture_failed = "CAPTURE_FAILED"

-- `ProxySnapshotState(text)`
unfoldable pub proxy_state_of : String → Option ProxySnapshotState
proxy_state_of s =
    if s =ₛ "CAPTURED_WITH_VALUE"
    then some captured_with_value
    else if s =ₛ "CAPTURED_EMPTY"
    then some captured_empty
    else if s =ₛ "CAPTURE_FAILED"
    then some capture_failed
    else none

-- The triple that `parse_proxy_snapshot` returns.
pub record ProxyState : Type 0 where
  pub state : ProxySnapshotState
  pub proxy : Option String
  pub problem : Option String

abbrev pub proxy_state : ProxySnapshotState → Option String → Option String → ProxyState
proxy_state s v e = record { state = s; proxy = v; problem = e }

unfoldable pub parse_with_value : Value → ProxyState
parse_with_value (str s) =
    if is_empty s
    then proxy_state captured_with_value none (some "Captured proxy value is missing or invalid.")
    else proxy_state captured_with_value (some s) none
parse_with_value _ =
    proxy_state captured_with_value none (some "Captured proxy value is missing or invalid.")

unfoldable pub parse_empty : Value → ProxyState
parse_empty null = proxy_state captured_empty none none
parse_empty _ =
    proxy_state captured_empty none (some "Empty proxy snapshot contains an unexpected value.")

abbrev pub or_default : String → Option String → String
or_default d none = d
or_default d (some s) = if is_empty s then d else s

unfoldable pub parse_in_state : Conversions → Fields → ProxySnapshotState → ProxyState
parse_in_state conv snapshot captured_with_value = parse_with_value (get "http_proxy" snapshot)
parse_in_state conv snapshot captured_empty = parse_empty (get "http_proxy" snapshot)
parse_in_state conv snapshot capture_failed = proxy_state capture_failed none (
    some (
      or_default "Reading the original proxy setting failed."
        (optional_str conv (get "http_proxy_error" snapshot))))

abbrev is_null : Value → Bool
is_null null = true
is_null _ = false

unfoldable pub parse_proxy_snapshot : Conversions → Fields → ProxyState
parse_proxy_snapshot conv snapshot =
    if is_null (get "http_proxy_state" snapshot)
    then proxy_state capture_failed none
        (some "Proxy snapshot state is missing; refusing to infer the original value.")
    else elim (proxy_state_of (to_str conv (get "http_proxy_state" snapshot))) [
      | none ↦ proxy_state capture_failed none (some "Proxy snapshot state is invalid.")
      | some state ↦ parse_in_state conv snapshot state
    ]

abbrev of_optional_bool : Option Bool → Value
of_optional_bool none = null
of_optional_bool (some b) = bool b

-- `DeviceSnapshot.to_dict`
unfoldable pub snapshot_to_dict : DeviceSnapshot → Fields
snapshot_to_dict s = field "schema_version" (num (pos 2)) (
    field "captured_at" (str s.captured_at) (
      field "http_proxy" (of_optional s.http_proxy) (
        field "http_proxy_state" (str (proxy_state_value s.http_proxy_state)) (
          field "http_proxy_error" (of_optional s.http_proxy_error) (
            field "reverse_mappings"
              (arr (
                of_list (
                  map
                    (λ (m : ReverseMapping).
                      obj (field "remote" (str m.remote) (field "local" (str m.local) end)))
                    s.reverse_mappings)))
              (field "frida_server_running" (of_optional_bool s.frida_server_running) (
                field "frida_process_names" (arr (of_list (map str s.frida_process_names))) (
                  field "target_package_installed" (of_optional_bool s.target_package_installed)
                    (field "errors" (arr (of_list (map str s.errors))) end)))))))))

-- `try: m except AdbError as exc`, with the error as a value.
abbrev pub try_adb : {A D : Type 0} → Exec D A → Exec D (Result A)
try_adb m d =
    let (r, d') = m d in
    elim r [
      | ok a ↦ (ok (ok a), d')
      | err e ↦ if is_adb_error e.kind then (ok (err e), d') else (err e, d')
    ]

-- What the Frida block leaves: the names found, and the error that ended it.
pub record FridaProbe : Type 0 where
  pub names : List String
  pub failure : Option Error

-- `note` is `redact_text(str(exc))[:300]`.
module _ {D : Type 0} (adb : Executable D) (note : Error → String) where
  abbrev has_output : CommandResult → Bool
  has_output result =
      not result.timed_out && is_zero result.exit_code && not (is_empty (strip result.stdout))

  -- The loop over the process names; a failing probe ends it and keeps the names found.
  unfoldable pub probe_frida : String → List String → List String → Exec D FridaProbe
  probe_frida serial names [] = pure (record { names = names; failure = none })
  probe_frida serial names (name ∷ more) = do
    result ← try_adb (shell adb serial ("pidof" ∷ name ∷ []) false)
    elim result [
      | err e ↦ pure (record { names = names; failure = some e })
      | ok r ↦ probe_frida serial (if has_output r then names ++ (name ∷ []) else names) more
    ]

  abbrev prefixed : String → Result (Unit {0}) → List String
  prefixed label (ok _) = []
  prefixed label (err e) = (label <> note e) ∷ []

  abbrev outcome : {A : Type 0} → Result A → Result (Unit {0})
  outcome (ok a) = ok tt
  outcome (err e) = err e

  abbrev pub captured_state : Result (Option String) → ProxySnapshotState
  captured_state (ok (some v)) = captured_with_value
  captured_state (ok none) = captured_empty
  captured_state (err e) = capture_failed

  abbrev pub captured_proxy : Result (Option String) → Option String
  captured_proxy (ok v) = v
  captured_proxy (err e) = none

  abbrev pub capture_problem : Result (Option String) → Option String
  capture_problem (ok v) = none
  capture_problem (err e) = some (note e)

  abbrev captured_mappings : Result (List ReverseMapping) → List ReverseMapping
  captured_mappings (ok ms) = ms
  captured_mappings (err e) = []

  abbrev frida_running : FridaProbe → Option Bool
  frida_running p = elim p.failure [
    | some e ↦ none
    | none ↦ some (elim p.names [ [] ↦ false | n ∷ ns ↦ true ])
  ]

  abbrev frida_outcome : FridaProbe → Result (Unit {0})
  frida_outcome p = elim p.failure [ some e ↦ err e | none ↦ ok tt ]

  abbrev installed : Result CommandResult → Option Bool
  installed (err e) = none
  installed (ok r) =
      some (
        not r.timed_out && is_zero r.exit_code && contains_text (codes "package:") (codes r.stdout))

  unfoldable pub capture_device_snapshot : String → String → String → Exec D DeviceSnapshot
  capture_device_snapshot now serial name = do
    target ← lift (validate_package_name name)
    proxy ← try_adb (get_http_proxy adb serial)
    mappings ← try_adb (list_reverse adb serial)
    frida ← probe_frida serial [] ("frida-server" ∷ "re.frida.server" ∷ [])
    package_result ← try_adb (shell adb serial ("pm" ∷ "path" ∷ target ∷ []) false)
    pure (record {
      captured_at = now;
      http_proxy = captured_proxy proxy;
      http_proxy_state = captured_state proxy;
      http_proxy_error = capture_problem proxy;
      reverse_mappings = captured_mappings mappings;
      frida_server_running = frida_running frida;
      frida_process_names = frida.names;
      target_package_installed = installed package_result;
      errors =
          prefixed "http_proxy: " (outcome proxy)
          ++ (prefixed "adb_reverse: " (outcome mappings)
              ++ (prefixed "frida_server: " (frida_outcome frida)
                  ++ prefixed "target_package: " (outcome package_result)));
    })
