-- ===== src/Adb.antt =====
-- android_assessor/adb.py: the parsers of ADB's output, and the client's operations over the `adb`
-- executable, which is a parameter: it takes the arguments and may raise, and the device that it
-- talks to is an unknown state. Timeouts, logging and masking of arguments are not modelled.
pub mod Raises
use android_appsec_assessor.Prelude.{
  String, Bool, true, false, not, ◌&&◌, ◌||◌, Option, none, some, List, [], ◌∷◌, any, all,
  find_first, ◌=ₛ◌, ◌==◌, if◌then◌else◌,
}
use android_appsec_assessor.Prelude.Int.{ℤ, pos, negsuc}
use android_appsec_assessor.Prelude.Text.{codes, is_empty, is_digit, strip, lines, words}
use android_appsec_assessor.Errors.{
  Result, ok, err, fault, adb_error, adb_timeout_error, external_command_error, ErrorKind,
  command_timeout_error,
}
use android_appsec_assessor.Exec.{Exec, pure, raise, lift, ◌>>=◌, ◌>>◌, try_catch}
use android_appsec_assessor.Validation.{validate_serial, validate_reverse_endpoint, after}

pub record CommandResult : Type 0 where
  pub exit_code : ℤ
  pub stdout : String
  pub stderr : String
  pub timed_out : Bool

pub record AdbDevice : Type 0 where
  pub serial : String
  pub state : String

pub record ReverseMapping : Type 0 where
  pub remote : String
  pub local : String

-- `run` is `run_command([executable, *arguments], check=False)`.
pub record Executable (D : Type 0) : Type 0 where
  pub run : List String → Exec D CommandResult

unfoldable pub is_zero : ℤ → Bool
is_zero (pos n) = n == 0
is_zero (negsuc n) = false

-- `device.authorized`
unfoldable pub authorized : AdbDevice → Bool
authorized d = d.state =ₛ "device"

-- One line of `adb devices -l`; the descriptive fields are not kept.
abbrev device_of_words : List String → Option AdbDevice
device_of_words (serial ∷ state ∷ rest) = some (record {
  serial = serial;
  state =
      (if state =ₛ "no" && elim rest [ [] ↦ false | word ∷ more ↦ word =ₛ "permissions" ]
        then "no_permissions"
        else state);
})
device_of_words _ = none

abbrev is_header : String → Bool
is_header line =
    is_empty line
    || elim (after (codes "List of devices") (codes line)) [ some _ ↦ true | none ↦ false ]
    || elim (after (codes "*") (codes line)) [ some _ ↦ true | none ↦ false ]

unfoldable pub devices_of_lines : List String → List AdbDevice
devices_of_lines [] = []
devices_of_lines (raw_line ∷ more) =
    let devices = devices_of_lines more in
    let line = strip raw_line in
    if is_header line
    then devices
    else elim (device_of_words (words line)) [ none ↦ devices | some d ↦ d ∷ devices ]

unfoldable pub parse_adb_devices : String → List AdbDevice
parse_adb_devices output = devices_of_lines (lines output)

-- `^host-\d+$`
unfoldable pub is_transport_label : String → Bool
is_transport_label s = elim (after (codes "host-") (codes s)) [
  | none ↦ false
  | some [] ↦ false
  | some (c ∷ cs) ↦ all is_digit (c ∷ cs)
]

abbrev mapping_of_words : String → List String → Option ReverseMapping
mapping_of_words serial (a ∷ b ∷ []) = some (record { remote = a; local = b })
mapping_of_words serial (a ∷ b ∷ c ∷ []) =
    if not (a =ₛ serial) && not (is_transport_label a)
    then none
    else some (record { remote = b; local = c })
mapping_of_words serial _ = none

unfoldable pub mappings_of_lines : String → List String → List ReverseMapping
mappings_of_lines serial [] = []
mappings_of_lines serial (line ∷ more) =
    let mappings = mappings_of_lines serial more in
    elim (mapping_of_words serial (words line)) [ none ↦ mappings | some m ↦ m ∷ mappings ]

unfoldable pub parse_reverse_list : String → String → List ReverseMapping
parse_reverse_list output serial = mappings_of_lines serial (lines output)

-- `_validate_arguments`
abbrev has_bad_character : String → Bool
has_bad_character s = any (λ c. c == 0 || c == 13 || c == 10) (codes s)

unfoldable pub validate_arguments : List String → Result (List String)
validate_arguments arguments =
    if any has_bad_character arguments
    then err (fault adb_error "ADB arguments may not contain NUL or newline characters.")
    else ok arguments

-- `isinstance(exc, ExternalCommandError)`
abbrev pub is_command_error : ErrorKind → Bool
is_command_error external_command_error = true
is_command_error command_timeout_error = true
is_command_error _ = false

unfoldable pub require_success : CommandResult → Result CommandResult
require_success result =
    if result.timed_out
    then err (fault adb_timeout_error "ADB timed out.")
    else if is_zero result.exit_code
    then ok result
    else err (fault adb_error "ADB failed.")

module _ {D : Type 0} (adb : Executable D) where
  -- `_run`
  unfoldable pub run_adb : List String → Exec D CommandResult
  run_adb arguments = do
    normalized ← lift (validate_arguments arguments)
    try_catch (adb.run normalized) λ e.
        if is_command_error e.kind then some (raise adb_error "Could not execute ADB") else none

  abbrev pub checked : Bool → CommandResult → Result CommandResult
  checked true result = require_success result
  checked false result = ok result

  unfoldable pub run_for_device : String → List String → Bool → Exec D CommandResult
  run_for_device serial arguments check = do
    selected ← lift (validate_serial serial)
    normalized ← lift (validate_arguments arguments)
    result ← run_adb ("-s" ∷ selected ∷ normalized)
    lift (checked check result)

  unfoldable pub shell : String → List String → Bool → Exec D CommandResult
  shell serial arguments check = do
    normalized ← lift (validate_arguments arguments)
    run_for_device serial ("shell" ∷ normalized) check

  unfoldable pub list_devices : Exec D (List AdbDevice)
  list_devices = do
    result ← run_adb ("devices" ∷ "-l" ∷ [])
    checked_result ← lift (require_success result)
    pure (parse_adb_devices checked_result.stdout)

  unfoldable pub find_device : String → Exec D (Option AdbDevice)
  find_device serial = do
    selected ← lift (validate_serial serial)
    devices ← list_devices
    pure (find_first (λ d. d.serial =ₛ selected) devices)

  abbrev pub require_ready : Option AdbDevice → Result AdbDevice
  require_ready none = err (fault adb_error "ADB device is no longer connected")
  require_ready (some d) =
      if authorized d then ok d else err (fault adb_error "ADB device is not ready")

  unfoldable pub require_authorized_device : String → Exec D AdbDevice
  require_authorized_device serial = do
    selected ← lift (validate_serial serial)
    device ← find_device selected
    lift (require_ready device)

  -- The reads and writes of the one setting that the program manages, `global` `http_proxy`.
  unfoldable pub get_http_proxy : String → Exec D (Option String)
  get_http_proxy serial = do
    result ← shell serial ("settings" ∷ "get" ∷ "global" ∷ "http_proxy" ∷ []) true
    let value = strip result.stdout
    pure (if is_empty value || value =ₛ "null" then none else some value)

  unfoldable pub put_http_proxy : String → String → Exec D (Unit {0})
  put_http_proxy serial value = do
    shell serial ("settings" ∷ "put" ∷ "global" ∷ "http_proxy" ∷ value ∷ []) true
    pure tt

  unfoldable pub delete_http_proxy : String → Exec D (Unit {0})
  delete_http_proxy serial = do
    shell serial ("settings" ∷ "delete" ∷ "global" ∷ "http_proxy" ∷ []) true
    pure tt

  unfoldable pub list_reverse : String → Exec D (List ReverseMapping)
  list_reverse serial = do
    result ← run_for_device serial ("reverse" ∷ "--list" ∷ []) true
    selected ← lift (validate_serial serial)
    pure (parse_reverse_list result.stdout selected)

  unfoldable pub add_reverse : String → String → String → Exec D (Unit {0})
  add_reverse serial remote local = do
    remote_endpoint ← lift (validate_reverse_endpoint remote)
    local_endpoint ← lift (validate_reverse_endpoint local)
    run_for_device serial ("reverse" ∷ remote_endpoint ∷ local_endpoint ∷ []) true
    pure tt

  unfoldable pub remove_reverse : String → String → Exec D (Unit {0})
  remove_reverse serial remote = do
    endpoint ← lift (validate_reverse_endpoint remote)
    run_for_device serial ("reverse" ∷ "--remove" ∷ endpoint ∷ []) true
    pure tt
