-- ===== src/Scope.antt =====
-- android_assessor/scope.py: the allowlist of devices, packages and actions, denied by default, and
-- the reading of its lists and limits. The host names of the allowlist are not modelled.
pub mod Allowed
use android_appsec_assessor.Prelude.{
  ℕ, String, Bool, true, not, ◌&&◌, Option, none, some, List, [], ◌∷◌, any, leb, ◌=ₛ◌,
  if◌then◌else◌,
}
use android_appsec_assessor.Prelude.Int.{pos}
use android_appsec_assessor.Errors.{
  Result, ok, err, fault, scope_error, configuration_error, require, ◌>>=◌, ◌>>◌,
}
use android_appsec_assessor.Validation.{validate_serial, validate_package_name}
use android_appsec_assessor.Json.{
  Value, null, num, str, arr, obj, Items, nil, cons, Fields, end, field, lookup,
}

pub record ScopeLimits : Type 0 where
  pub max_validation_requests : ℕ
  pub command_timeout_seconds : ℕ
  pub max_evidence_size_mb : ℕ

abbrev pub default_limits : ScopeLimits
default_limits = record {
  max_validation_requests = 10;
  command_timeout_seconds = 30;
  max_evidence_size_mb = 50;
}

-- The sets as lists.
pub record ScopeConfig : Type 0 where
  pub devices : List String
  pub packages : List String
  pub allowed_actions : List String
  pub limits : ScopeLimits
  pub allow_read_only_outside_scope : Bool

-- `text in values`
abbrev pub is_in : String → List String → Bool
is_in s xs = any (λ x. x =ₛ s) xs

-- `_ALLOWED_ACTIONS`
abbrev pub supported_actions : List String
supported_actions =
    "inspect" ∷ "root_storage_read" ∷ "frida_observe" ∷ "traffic_capture" ∷ "autonomous_exploration"
    ∷ "controlled_validation" ∷ []

unfoldable pub positive_int : ℕ → Value → Result ℕ
positive_int maximum (num (pos n)) =
    if leb 1 n && leb n maximum
    then ok n
    else err (fault configuration_error "A scope limit must be an integer in its range.")
positive_int maximum _ =
    err (fault configuration_error "A scope limit must be an integer in its range.")

-- The items of a list of texts, `none` where one is not a text.
unfoldable pub texts_of : Items → Option (List String)
texts_of nil = some []
texts_of (cons (str s) vs) = elim (texts_of vs) [ none ↦ none | some ss ↦ some (s ∷ ss) ]
texts_of (cons _ vs) = none

unfoldable pub string_list : Value → Result (List String)
string_list null = ok []
string_list (arr vs) = elim (texts_of vs) [
  | none ↦ err (fault configuration_error "A scope list must be a list of strings.")
  | some ss ↦ ok ss
]
string_list _ = err (fault configuration_error "A scope list must be a list of strings.")

-- `set(raw_limits) - {…}` is empty
unfoldable pub known_limits : Fields → Bool
known_limits end = true
known_limits (field k v fs) =
    is_in k ("max_validation_requests" ∷ "command_timeout_seconds" ∷ "max_evidence_size_mb" ∷ [])
    && known_limits fs

abbrev pub limit : String → ℕ → Fields → Value
limit k d fs = elim (lookup k fs) [ none ↦ num (pos d) | some v ↦ v ]

-- The limits of `load_scope`, from the mapping under `limits`.
unfoldable pub limits_of : Fields → Result ScopeLimits
limits_of raw = do
  require (known_limits raw) configuration_error "scope.limits contains unsupported keys"
  requests ← positive_int 1000 (limit "max_validation_requests" 10 raw)
  timeout ← positive_int 300 (limit "command_timeout_seconds" 30 raw)
  size ← positive_int 1024 (limit "max_evidence_size_mb" 50 raw)
  ok (record {
    max_validation_requests = requests;
    command_timeout_seconds = timeout;
    max_evidence_size_mb = size;
  })

-- `payload.get("limits", {})`: a missing value, `None` and a mapping are accepted.
unfoldable pub read_limits : Option Value → Result ScopeLimits
read_limits none = limits_of end
read_limits (some null) = limits_of end
read_limits (some (obj fs)) = limits_of fs
read_limits (some _) = err (fault configuration_error "scope.limits must be a mapping.")

unfoldable pub require_action : ScopeConfig → String → Result (Unit {0})
require_action scope action =
    if not (is_in action supported_actions)
    then err (fault scope_error "Unsupported scoped action.")
    else if not (is_in action scope.allowed_actions)
    then err (fault scope_error "Action is not allowed by config/scope.yaml.")
    else ok tt

unfoldable pub require_actions : ScopeConfig → List String → Result (Unit {0})
require_actions scope [] = ok tt
require_actions scope (action ∷ actions) =
    let rest = require_actions scope actions in require_action scope action >> rest

abbrev pub optional_action : ScopeConfig → Option String → Result (Unit {0})
optional_action scope none = ok tt
optional_action scope (some action) = require_action scope action

unfoldable pub require_device_package :
    ScopeConfig → String → String → Option String → Result (Unit {0})
require_device_package scope serial package_name action = do
  selected ← validate_serial serial
  target ← validate_package_name package_name
  require (is_in selected scope.devices) scope_error "Device is outside config/scope.yaml."
  require (is_in target scope.packages) scope_error "Package is outside config/scope.yaml."
  optional_action scope action

unfoldable pub require_inspection : ScopeConfig → String → String → Result (Unit {0})
require_inspection scope serial package_name = do
  require_action scope "inspect"
  if scope.allow_read_only_outside_scope
      then (validate_serial serial >>= λ _. (validate_package_name package_name >>= λ _. ok tt))
      else require_device_package scope serial package_name none
