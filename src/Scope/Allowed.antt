-- ===== src/Scope/Allowed.antt =====
-- What an allowed request is in scope of, and the bounds of the limits.
use mathlib.Core.Path.{subst}
use android_appsec_assessor.Prelude.{
  ℕ, String, true, ◌≡◌, Option, none, some, List, [], ◌∷◌, arith, ◌≤◌, All,
}
use android_appsec_assessor.Errors.{Result, ok, >>=-eq-ok, require, configuration_error}
use android_appsec_assessor.Validation.{validate_serial, validate_package_name}
use android_appsec_assessor.Json.{Value, Fields}
use android_appsec_assessor.Scope.{
  ScopeConfig, ScopeLimits, is_in, supported_actions, positive_int, limits_of, require_action,
  require_actions, require_device_package, optional_action, limit, known_limits,
}

-- The action is a supported one that the allowlist names.
abbrev pub IsAllowed : ScopeConfig → String → Type 0
IsAllowed scope action =
    (is_in action supported_actions ≡ true) × (is_in action scope.allowed_actions ≡ true)

require_action-IsAllowed :
    (scope : ScopeConfig) (action : String)
    → require_action scope action ≡ ok tt
    → IsAllowed scope action
unfolding require_action
require_action-IsAllowed scope action h = (ground arith, ground arith)

-- `require_actions` returns only where each of the actions is supported and allowed.
pub require_actions-IsAllowed :
    (scope : ScopeConfig) (actions : List String)
    → require_actions scope actions ≡ ok tt
    → All (IsAllowed scope) actions
unfolding require_actions
require_actions-IsAllowed scope [] h = tt
require_actions-IsAllowed scope (action ∷ actions) h =
    let (u, first, rest) =
      >>=-eq-ok (require_action scope action) (λ _. require_actions scope actions) h in
    (require_action-IsAllowed scope action first, require_actions-IsAllowed scope actions rest)

-- The device and the package, as validated, that a request is in scope of.
pub record IsInScope (scope : ScopeConfig) (serial package_name : String) : Type 0 where
  pub selected : String
  pub target : String
  pub valid_serial : validate_serial serial ≡ ok selected
  pub valid_package : validate_package_name package_name ≡ ok target
  pub known_device : is_in selected scope.devices ≡ true
  pub known_package : is_in target scope.packages ≡ true

-- An action is allowed where one was asked for.
abbrev pub OptionallyAllowed : ScopeConfig → Option String → Type 0
OptionallyAllowed scope none = Unit
OptionallyAllowed scope (some action) = IsAllowed scope action

optional_action_allowed :
    (scope : ScopeConfig) (action : Option String)
    → optional_action scope action ≡ ok tt
    → OptionallyAllowed scope action
optional_action_allowed scope none h = tt
optional_action_allowed scope (some action) h = require_action-IsAllowed scope action h

-- `require_device_package` returns only where the device and the package are on the allowlist,
-- and the action too where one was asked for.
pub require_device_package-IsInScope :
    (scope : ScopeConfig) (serial package_name : String) (action : Option String)
    → require_device_package scope serial package_name action ≡ ok tt
    → IsInScope scope serial package_name × OptionallyAllowed scope action
unfolding require_device_package
require_device_package-IsInScope scope serial package_name action h =
    let (selected, valid, h₁) = >>=-eq-ok (validate_serial serial) _ h in
    let (target, named, h₂) = >>=-eq-ok (validate_package_name package_name) _ h₁ in
    (
      record {
        selected = selected;
        target = target;
        valid_serial = valid;
        valid_package = named;
        known_device = ground arith;
        known_package = ground arith;
      },
      optional_action_allowed scope action (ground arith),
    )

same_limits : {a b : ScopeLimits} → ◌≡◌ {A = Result ScopeLimits} (ok a) (ok b) → a ≡ b
same_limits h = cc

positive_int_bounds :
    (maximum : ℕ) (v : Value) {n : ℕ} → positive_int maximum v ≡ ok n → (1 ≤ n) × (n ≤ maximum)
unfolding positive_int
positive_int_bounds maximum v h = ground arith

pub record IsBounded (l : ScopeLimits) : Type 0 where
  pub requests : (1 ≤ l.max_validation_requests) × (l.max_validation_requests ≤ 1000)
  pub timeout : (1 ≤ l.command_timeout_seconds) × (l.command_timeout_seconds ≤ 300)
  pub size : (1 ≤ l.max_evidence_size_mb) × (l.max_evidence_size_mb ≤ 1024)

-- The limits that `limits_of` accepts are positive and within their maxima.
pub limits_of-IsBounded : (raw : Fields) {l : ScopeLimits} → limits_of raw ≡ ok l → IsBounded l
unfolding limits_of
limits_of-IsBounded raw {l} h =
    let (u, known, h₁) =
      >>=-eq-ok
        (require (known_limits raw) configuration_error "scope.limits contains unsupported keys") _
        h in
    let (a, first, h₂) =
      >>=-eq-ok (positive_int 1000 (limit "max_validation_requests" 10 raw)) _ h₁ in
    let (b, second, h₃) =
      >>=-eq-ok (positive_int 300 (limit "command_timeout_seconds" 30 raw)) _ h₂ in
    let (c, third, h₄) = >>=-eq-ok (positive_int 1024 (limit "max_evidence_size_mb" 50 raw)) _ h₃ in
    let bounds : IsBounded (record {
      max_validation_requests = a;
      command_timeout_seconds = b;
      max_evidence_size_mb = c;
    }) =
      record {
        requests = positive_int_bounds 1000 _ first;
        timeout = positive_int_bounds 300 _ second;
        size = positive_int_bounds 1024 _ third;
      } in
    subst IsBounded (same_limits h₄) bounds
