-- ===== src/Cleanup/Actions/Payload.antt =====
-- What the handlers of the cleanup actions check of a payload (android_assessor/cleanup.py), before
-- and beside what they ask the device.
use android_appsec_assessor.Prelude.{
  ℕ, zero, suc, String, Bool, true, false, not, ◌&&◌, ◌||◌, Option, none, some, List, [], ◌∷◌, any,
  get_elem?, ◌=ₛ◌, if◌then◌else◌,
}
use android_appsec_assessor.Prelude.Int.{ℤ, pos, negsuc}
use android_appsec_assessor.Prelude.Text.{is_empty, is_decimal, words, after_last_paren}
use android_appsec_assessor.Errors.{Result, ok, err, fault, cleanup_error}
use android_appsec_assessor.Validation.{validate_managed_remote_path}
use android_appsec_assessor.Json.{
  Value, null, str, num, Fields, get, get_or, to_str, to_int, Conversions,
}
use android_appsec_assessor.Snapshot.{capture_failed, ProxyState}
use android_appsec_assessor.Cleanup.{RemoteProcessIdentity}

-- `value == text`
unfoldable pub is_text : String → Value → Bool
is_text s (str t) = t =ₛ s
is_text s _ = false

-- `payload.get("ownership_state") == _OWNED`
unfoldable pub is_owned : Fields → Bool
is_owned payload = is_text "owned" (get "ownership_state" payload)

-- The previous proxy of a payload: `None` or a text, anything else is an error.
abbrev pub text_or_none : Value → Option (Option String)
text_or_none null = some none
text_or_none (str s) = some (some s)
text_or_none _ = none

-- A text that is not empty.
abbrev pub text_of : Value → Option String
text_of (str s) = if is_empty s then none else some s
text_of _ = none

abbrev pub same_setting : Option String → Option String → Bool
same_setting none none = true
same_setting (some a) (some b) = a =ₛ b
same_setting _ _ = false

abbrev pub is_refused : ProxyState → Bool
is_refused p =
    elim p.state [ capture_failed ↦ true | _ ↦ false ]
    || elim p.problem [ none ↦ false | some m ↦ not (is_empty m) ]

unfoldable pub or_cleanup_error {ℓ} : {A : Type ℓ} → String → Option A → Result A
or_cleanup_error m none = err (fault cleanup_error m)
or_cleanup_error m (some a) = ok a

abbrev remote_process_names : List String
remote_process_names = "frida-server" ∷ "re.frida.server" ∷ []

-- `_HOST_ROLES.get(role)`
unfoldable pub host_roles : String → Option (List String)
host_roles role =
    if role =ₛ "scrcpy"
    then some ("scrcpy.exe" ∷ [])
    else if role =ₛ "mitmproxy"
    then some ("mitmdump.exe" ∷ "mitmproxy.exe" ∷ "mitmweb.exe" ∷ [])
    else if role =ₛ "frida-client"
    then some ("frida.exe" ∷ "frida-ps.exe" ∷ "frida-trace.exe" ∷ [])
    else none

-- A positive integer, as a natural number.
abbrev pub positive : ℤ → Option ℕ
positive (pos zero) = none
positive (pos (suc n)) = some (suc n)
positive (negsuc n) = none

-- `_proc_start_time`
unfoldable pub proc_start_time : String → Result String
proc_start_time value = elim (after_last_paren value) [
  | none ↦ err (fault cleanup_error "Android process stat is malformed.")
  | some rest ↦ elim (get_elem? (words rest) 19) [
    | none ↦ err (fault cleanup_error "Android process start time is unavailable.")
    | some t ↦
        if is_decimal t
        then ok t
        else err (fault cleanup_error "Android process start time is unavailable.")
  ]
]

-- What `_stop_remote_process` has checked of a payload before it asks the device.
pub record RemoteTarget : Type 0 where
  pub pid : ℕ
  pub executable_path : String

-- The identity that the payload records.
pub record ExpectedIdentity : Type 0 where
  pub start_time : String
  pub command_line : String

unfoldable pub remote_target : Conversions → (String → Bool) → String → Fields → Result RemoteTarget
remote_target conv is_isoformat session_id payload =
    elim (to_int conv (get_or "pid" (num (pos 0)) payload)) [
      | none ↦ err (fault cleanup_error "Remote process PID is invalid.")
      | some n ↦
          elim (validate_managed_remote_path
            (to_str conv (get_or "executable_path" (str "") payload))) [
              | err e ↦ err e
              | ok path ↦ elim (positive n) [
                | none ↦ err (fault cleanup_error "Remote process cleanup is not on the allowlist.")
                | some pid ↦
                    if not (
                      any (λ x. x =ₛ to_str conv (get_or "name" (str "") payload))
                        remote_process_names)
                    then err (fault cleanup_error "Remote process cleanup is not on the allowlist.")
                    else if not (is_owned payload)
                    then err (
                        fault cleanup_error "Remote process cleanup has no valid ownership marker.")
                    else if not (is_text session_id (get "session_id" payload))
                    then err
                        (fault cleanup_error "Remote process ownership belongs to another session.")
                    else elim (get "started_at" payload) [
                      | str s ↦
                          if is_isoformat s
                          then ok (record { pid = pid; executable_path = path })
                          else err
                              (fault cleanup_error "Remote process start timestamp is invalid.")
                      | _ ↦ err (fault cleanup_error "Remote process start timestamp is missing.")
                    ]
              ]
            ]
    ]

unfoldable pub expected_identity : String → Fields → Result ExpectedIdentity
expected_identity executable_path payload =
    if is_text executable_path (get "proc_exe" payload)
    then elim (text_of (get "proc_start_time" payload)) [
      | none ↦ err (fault cleanup_error "Remote process identity ledger is incomplete.")
      | some t ↦
          if is_decimal t
          then elim (text_of (get "command_line" payload)) [
            | none ↦ err (fault cleanup_error "Remote process identity ledger is incomplete.")
            | some c ↦ ok (record { start_time = t; command_line = c })
          ]
          else err (fault cleanup_error "Remote process identity ledger is incomplete.")
    ]
    else err (fault cleanup_error "Remote process identity ledger is incomplete.")

-- The identity comparison before `kill`.
unfoldable pub is_same_process : ExpectedIdentity → String → RemoteProcessIdentity → Bool
is_same_process expected executable_path actual =
    actual.proc_exe =ₛ executable_path
    && actual.proc_start_time =ₛ expected.start_time
    && actual.command_line =ₛ expected.command_line
