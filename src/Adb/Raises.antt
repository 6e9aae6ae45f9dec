-- ===== src/Adb/Raises.antt =====
-- Which errors the operations of the client raise, where the executable raises only the two
-- classes of a failed command: an `AdbError`, or the error of a rejected argument.
use android_appsec_assessor.Prelude.{
  String, Bool, true, false, ◌≡◌, refl, List, [], ◌∷◌, arith, Option, none, some, if◌then◌else◌,
}
use android_appsec_assessor.Errors.{Error, Result, ok, err, is_adb_error, is_expected, adb_error}
use android_appsec_assessor.Exec.{Outcome, continue-Outcome, caught, caught_handled, raise}
use android_appsec_assessor.Validation.{validate_serial}
use android_appsec_assessor.Adb.{
  CommandResult, AdbDevice, Executable, is_command_error, validate_arguments, require_success,
  run_adb, checked, run_for_device, shell, list_devices, find_device, require_ready,
  require_authorized_device, get_http_proxy, put_http_proxy, delete_http_proxy, list_reverse,
}

abbrev pub IsAdb : Error → Type 0
IsAdb e = is_adb_error e.kind ≡ true

abbrev pub Done {ℓ} : {A : Type ℓ} → A → Type 0
Done a = Unit

-- The executable raises `ExternalCommandError` or its subclass.
pub record RaisesCommandErrors {D : Type 0} (adb : Executable D) : Type 0 where
  pub run :
      (arguments : List String) (d : D)
      → Outcome Done (λ (e : Error). is_command_error e.kind ≡ true) (adb.run arguments d).0

validate_serial-Outcome : (s : String) → Outcome Done IsAdb (validate_serial s)
unfolding validate_serial is_adb_error
validate_serial-Outcome s = ground arith

validate_arguments-Outcome : (xs : List String) → Outcome Done IsAdb (validate_arguments xs)
unfolding validate_arguments is_adb_error
validate_arguments-Outcome xs = ground arith

checked-Outcome :
    {D : Type 0} (adb : Executable D) (check : Bool) (r : CommandResult)
    → Outcome Done IsAdb (checked adb check r)
unfolding require_success is_adb_error
checked-Outcome adb true r = ground arith
checked-Outcome adb false r = tt

module _ {D : Type 0} (adb : Executable D) (raises : RaisesCommandErrors adb) where
  caught_run :
      (r : Result CommandResult) (d : D)
      → Outcome Done (λ (e : Error). is_command_error e.kind ≡ true) r
      → Outcome Done IsAdb
          (caught r
            (λ e.
              if is_command_error e.kind
              then some (raise adb_error "Could not execute ADB")
              else none)
            d).0
  unfolding is_adb_error
  caught_run (ok a) d h = tt
  caught_run (err e) d h =
      rw
        (caught_handled {S = D} {A = CommandResult} e
          (λ (x : Error).
            if is_command_error x.kind
            then some (raise {S = D} {A = CommandResult} adb_error "Could not execute ADB")
            else none)
          {m = raise {S = D} {A = CommandResult} adb_error "Could not execute ADB"} d (rw h))
        refl

  run_adb-Outcome : (xs : List String) (d : D) → Outcome Done IsAdb (run_adb adb xs d).0
  unfolding run_adb
  run_adb-Outcome xs d =
      continue-Outcome Done IsAdb (validate_arguments xs) _ d (validate_arguments-Outcome xs)
        λ normalized _. caught_run (adb.run normalized d).0 _ (raises.run normalized d)

  pub run_for_device-Outcome :
      (serial : String) (xs : List String) (check : Bool) (d : D)
      → Outcome Done IsAdb (run_for_device adb serial xs check d).0
  unfolding run_for_device
  run_for_device-Outcome serial xs check d =
      continue-Outcome Done IsAdb (validate_serial serial) _ d (validate_serial-Outcome serial)
        λ selected _.
          continue-Outcome Done IsAdb (validate_arguments xs) _ d (validate_arguments-Outcome xs)
            λ normalized _.
              continue-Outcome Done IsAdb (run_adb adb ("-s" ∷ selected ∷ normalized) d).0 _ _
                (run_adb-Outcome ("-s" ∷ selected ∷ normalized) d)
                λ result _. checked-Outcome adb check result

  pub shell-Outcome :
      (serial : String) (xs : List String) (check : Bool) (d : D)
      → Outcome Done IsAdb (shell adb serial xs check d).0
  unfolding shell
  shell-Outcome serial xs check d =
      continue-Outcome Done IsAdb (validate_arguments xs) _ d (validate_arguments-Outcome xs)
        λ normalized _. run_for_device-Outcome serial ("shell" ∷ normalized) check d

  list_devices-Outcome : (d : D) → Outcome Done IsAdb (list_devices adb d).0
  unfolding list_devices
  list_devices-Outcome d =
      continue-Outcome Done IsAdb (run_adb adb ("devices" ∷ "-l" ∷ []) d).0 _ _
        (run_adb-Outcome ("devices" ∷ "-l" ∷ []) d)
        λ result _.
          continue-Outcome Done IsAdb (require_success result) _ _ (checked-Outcome adb true result)
            λ listed _. tt

  require_ready-Outcome : (o : Option AdbDevice) → Outcome Done IsAdb (require_ready adb o)
  unfolding is_adb_error
  require_ready-Outcome o = ground arith

  -- The probe of a device raises nothing but an `AdbError`.
  pub require_authorized_device-Outcome :
      (serial : String) (d : D) → Outcome Done IsAdb (require_authorized_device adb serial d).0
  unfolding require_authorized_device find_device
  require_authorized_device-Outcome serial d =
      continue-Outcome Done IsAdb (validate_serial serial) _ d (validate_serial-Outcome serial)
        λ selected _.
          continue-Outcome Done IsAdb (find_device adb selected d).0 _ _
            (continue-Outcome Done IsAdb (validate_serial selected) _ d
              (validate_serial-Outcome selected)
              λ again _.
                continue-Outcome Done IsAdb (list_devices adb d).0 _ _ (list_devices-Outcome d)
                  λ devices _. tt)
            λ device _. require_ready-Outcome device

  pub get_http_proxy-Outcome :
      (serial : String) (d : D) → Outcome Done IsAdb (get_http_proxy adb serial d).0
  unfolding get_http_proxy
  get_http_proxy-Outcome serial d =
      continue-Outcome Done IsAdb (shell adb serial _ true d).0 _ _ (shell-Outcome serial _ true d)
        λ result _. tt

  pub put_http_proxy-Outcome :
      (serial value : String) (d : D) → Outcome Done IsAdb (put_http_proxy adb serial value d).0
  unfolding put_http_proxy
  put_http_proxy-Outcome serial value d =
      continue-Outcome Done IsAdb (shell adb serial _ true d).0 _ _ (shell-Outcome serial _ true d)
        λ result _. tt

  pub delete_http_proxy-Outcome :
      (serial : String) (d : D) → Outcome Done IsAdb (delete_http_proxy adb serial d).0
  unfolding delete_http_proxy
  delete_http_proxy-Outcome serial d =
      continue-Outcome Done IsAdb (shell adb serial _ true d).0 _ _ (shell-Outcome serial _ true d)
        λ result _. tt

  pub list_reverse-Outcome :
      (serial : String) (d : D) → Outcome Done IsAdb (list_reverse adb serial d).0
  unfolding list_reverse
  list_reverse-Outcome serial d =
      continue-Outcome Done IsAdb (run_for_device adb serial _ true d).0 _ _
        (run_for_device-Outcome serial _ true d)
        λ result _.
          continue-Outcome Done IsAdb (validate_serial serial) _ _ (validate_serial-Outcome serial)
            λ selected _. tt

-- An `AdbError` is caught by every handler of the executor.
pub Outcome-expected {ℓ} :
    {A : Type ℓ} (r : Result A)
    → Outcome Done IsAdb r
    → Outcome Done (λ e. is_expected e.kind ≡ true) r
unfolding is_adb_error is_expected
Outcome-expected (ok a) h = tt
Outcome-expected (err e) h = ground arith
