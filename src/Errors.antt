-- ===== src/Errors.antt =====
-- android_assessor/errors.py, and the way the modelled code raises: a pure function that may raise
-- returns a `Result`; a method that mutates and may raise is an action of `Exec S A`, whose state
-- comes back beside the error too.
use android_appsec_assessor.Prelude.{
  String, Bool, true, false, ◌≡◌, refl, ◌⊎◌, inl, inr, Option, none, some,
}

-- The classes of errors.py, and the built-in ones that the handlers name.
pub data ErrorKind : Type 0 where
  assessor_error configuration_error external_command_error command_timeout_error : ErrorKind
  adb_error adb_timeout_error device_selection_error capability_error : ErrorKind
  session_error device_busy_error cleanup_error cleanup_conflict_error : ErrorKind
  proxy_error frida_error apk_inspection_error environment_check_error scope_error : ErrorKind
  os_error value_error dex_format_error other_error : ErrorKind

-- The base class of a class of errors.py, `none` where it is no longer one of the project's; the
-- `DexFormatError` of static_apk_analysis.py is a `ValueError`.
unfoldable pub base : ErrorKind → Option ErrorKind
base assessor_error = none
base os_error = none
base value_error = none
base dex_format_error = some value_error
base other_error = none
base command_timeout_error = some external_command_error
base adb_timeout_error = some adb_error
base device_selection_error = some adb_error
base device_busy_error = some session_error
base cleanup_error = some session_error
base cleanup_conflict_error = some cleanup_error
base _ = some assessor_error

pub record Error : Type 0 where
  pub kind : ErrorKind
  pub message : String

-- `isinstance(exc, CleanupConflictError)`
unfoldable pub is_conflict : ErrorKind → Bool
is_conflict cleanup_conflict_error = true
is_conflict _ = false

-- `isinstance(exc, SessionError)`
unfoldable pub is_session_error : ErrorKind → Bool
is_session_error session_error = true
is_session_error device_busy_error = true
is_session_error cleanup_error = true
is_session_error cleanup_conflict_error = true
is_session_error _ = false

-- `isinstance(exc, CleanupError)`
unfoldable pub is_cleanup_error : ErrorKind → Bool
is_cleanup_error cleanup_error = true
is_cleanup_error cleanup_conflict_error = true
is_cleanup_error _ = false

-- `isinstance(exc, AdbError)`
unfoldable pub is_adb_error : ErrorKind → Bool
is_adb_error adb_error = true
is_adb_error adb_timeout_error = true
is_adb_error device_selection_error = true
is_adb_error _ = false

-- `isinstance(exc, (AndroidAssessorError, OSError, ValueError))`
unfoldable pub is_expected : ErrorKind → Bool
is_expected other_error = false
is_expected _ = true

pub data Result {ℓ} (A : Type ℓ) : Type ℓ where
  ok : A → Result A
  err : Error → Result A

abbrev pub fault : ErrorKind → String → Error
fault k m = record { kind = k; message = m }

-- A raise ends a chain.
infixl 10 ◌>>=◌ ◌>>◌
abbrev pub ◌>>=◌ {ℓ κ} : {X : Type ℓ} {Y : Type κ} → Result X → (X → Result Y) → Result Y
err e >>= next = err e
ok x >>= next = next x

abbrev pub ◌>>◌ {ℓ} : {Y : Type ℓ} → Result (Unit {0}) → Result Y → Result Y
first >> next = first >>= λ done. next

-- `if not test: raise`
abbrev pub require : Bool → ErrorKind → String → Result (Unit {0})
require true k m = ok tt
require false k m = err (fault k m)

-- Inversion of a successful chain.
pub >>=-eq-ok {ℓ κ} :
    {X : Type ℓ} {Y : Type κ} (first : Result X) (next : X → Result Y) {y : Y}
    → (first >>= next) ≡ ok y
    → (x : X) × (first ≡ ok x) × (next x ≡ ok y)
>>=-eq-ok (err e) next raised = cc
>>=-eq-ok (ok x) next returned = (x, refl, returned)

pub Result-cases {ℓ} :
    {A : Type ℓ} (r : Result A) → ((a : A) × (r ≡ ok a)) ⊎ ((e : Error) × (r ≡ err e))
Result-cases (ok a) = inl (a, refl)
Result-cases (err e) = inr (e, refl)
