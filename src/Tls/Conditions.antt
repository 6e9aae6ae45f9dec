-- ===== src/Tls/Conditions.antt =====
-- The tests that android_assessor/tls_analysis.py makes of one event. `x in {…}` raises on a list or a
-- mapping, and so does an iteration over what is no sequence; both are `other_error` here.
use android_appsec_assessor.Prelude.{
  ℕ, String, Bool, true, false, not, ◌&&◌, ◌||◌, Option, none, some, List, [], ◌∷◌, ◌++◌, any,
  filter, length, ◌=ₛ◌, if◌then◌else◌,
}
use android_appsec_assessor.Prelude.Text.{codes, strip, starts}
use android_appsec_assessor.Prelude.Case.{casefold}
use android_appsec_assessor.Errors.{Result, ok, err, fault, other_error, ◌>>=◌}
use android_appsec_assessor.Json.{Value, bool, str, arr, obj, Items, nil, cons, Fields, get, get_or}
use android_appsec_assessor.Scope.{is_in}

abbrev pub tls_class_keys : List String
tls_class_keys =
    "class_name" ∷ "implementation_class" ∷ "implementation_class_name" ∷ "trust_manager_class"
    ∷ "verifier_class" ∷ "hostname_verifier_class" ∷ []

abbrev pub platform_prefixes : List String
platform_prefixes =
    "javax.net.ssl." ∷ "com.android.org.conscrypt." ∷ "org.conscrypt." ∷ "sun.security.ssl." ∷ []

abbrev pub platform_verifiers : List String
platform_verifiers =
    "com.android.okhttp.internal.tls.okhostnameverifier"
    ∷ "com.squareup.okhttp.internal.tls.okhostnameverifier"
    ∷ "okhttp3.internal.tls.okhostnameverifier" ∷ []

abbrev pub unknown_classes : List String
unknown_classes = "" ∷ "unknown" ∷ "<unknown>" ∷ "object" ∷ []

-- The first of the keys that holds a text, and its normalized text.
unfoldable pub class_name : List String → Fields → Option String
class_name [] metadata = none
class_name (key ∷ keys) metadata = elim (get key metadata) [
  | str s ↦ some (casefold (strip s))
  | _ ↦ class_name keys metadata
]

unfoldable pub is_exactly_true : Value → Bool
is_exactly_true (bool true) = true
is_exactly_true _ = false

unfoldable pub metadata_marks_custom : Fields → String → Bool
unfolding class_name is_exactly_true
metadata_marks_custom metadata marker =
    if not (is_exactly_true (get marker metadata))
    then false
    else elim (class_name tls_class_keys metadata) [
      | none ↦ true
      | some name ↦
          if is_in name unknown_classes
          then false
          else if any (λ prefix. starts (codes prefix) (codes name)) platform_prefixes
          then false
          else not (is_in name platform_verifiers)
    ]

-- `value == text`
unfoldable pub equals : Value → String → Bool
equals (str s) t = s =ₛ t
equals _ t = false

-- `value in {…}`
unfoldable pub member : Value → List String → Result Bool
member (str s) names = ok (is_in s names)
member (arr vs) names = err (fault other_error "unhashable type")
member (obj fs) names = err (fault other_error "unhashable type")
member _ names = ok false

-- `test and rest`
abbrev pub and_then : Bool → Result Bool → Result Bool
and_then true rest = rest
and_then false rest = ok false

-- `[item for item in items if test(item)]`
unfoldable pub filter_checked {ℓ} : {A : Type ℓ} → (A → Result Bool) → List A → Result (List A)
filter_checked test [] = ok []
filter_checked test (x ∷ xs) =
    let rest = filter_checked test xs in
    test x >>= λ kept. (rest >>= λ ys. ok (if kept then x ∷ ys else ys))

-- `any(test(item) for item in items)`
unfoldable pub any_checked {ℓ} : {A : Type ℓ} → (A → Result Bool) → List A → Result Bool
any_checked test [] = ok false
any_checked test (x ∷ xs) =
    let rest = any_checked test xs in test x >>= λ found. if found then ok true else rest

unfoldable pub is_https_request : Fields → Bool
unfolding equals
is_https_request item = equals (get "event" item) "request" && equals (get "scheme" item) "https"

unfoldable pub is_target_request : Fields → Result Bool
unfolding is_https_request member
is_target_request item =
    and_then (is_https_request item)
      (member (get "attribution" item) ("target" ∷ "validation_canary" ∷ []))

unfoldable pub is_canary_request : Fields → Bool
unfolding is_https_request equals
is_canary_request item =
    is_https_request item && equals (get "attribution" item) "validation_canary"

unfoldable pub is_unattributed : Fields → Bool
unfolding is_https_request equals
is_unattributed item =
    is_https_request item && equals (get_or "attribution" (str "unattributed") item) "unattributed"

unfoldable pub is_rejection : Fields → Bool
unfolding equals
is_rejection item =
    equals (get "event" item) "tls_error"
    && equals (get "attribution" item) "validation_canary"
    && equals (get "error_kind" item) "certificate_rejected"

unfoldable pub is_network_error : Fields → Result Bool
unfolding member
is_network_error item = member (get "event" item) ("network_error" ∷ "tls_error" ∷ []) >>= λ failed.
    and_then failed (
      member (get "error_kind" item) ("network" ∷ "unknown" ∷ []) >>= λ general.
      and_then general (member (get "attribution" item) ("target" ∷ "validation_canary" ∷ [])))

unfoldable pub is_trust_manager : Fields → Result Bool
unfolding member equals
is_trust_manager item =
    member (get "method" item) ("tls.check_server_trusted" ∷ "tls.trust_manager_observed" ∷ [])
    >>= λ called. ok (called || equals (get "event" item) "trust_manager_observed")

unfoldable pub is_ssl_proceed : Fields → Bool
unfolding equals
is_ssl_proceed item =
    equals (get "category" item) "webview" && equals (get "method" item) "webview.ssl_error_proceed"

-- The mappings among the items of a list.
unfoldable pub mappings : Items → List Fields
mappings nil = []
mappings (cons (obj fs) vs) = fs ∷ mappings vs
mappings (cons _ vs) = mappings vs

-- The mappings that an iteration over a value meets: a text yields its characters, a mapping its keys.
unfoldable pub iterate : Value → Result (List Fields)
unfolding mappings
iterate (arr vs) = ok (mappings vs)
iterate (str s) = ok []
iterate (obj fs) = ok []
iterate _ = err (fault other_error "object is not iterable")

abbrev arguments_of : Fields → Result (List Fields)
arguments_of item = iterate (get_or "arguments_redacted" (arr nil) item)

-- `metadata`, all arguments that are mappings
unfoldable pub metadata_of : List Fields → Result (List Fields)
unfolding iterate
metadata_of [] = ok []
metadata_of (item ∷ items) =
    let rest = metadata_of items in
    arguments_of item >>= λ first. (rest >>= λ more. ok (first ++ more))

-- A call of `method` with an argument that has the decision and is marked as custom; where the
-- arguments cannot be iterated, `metadata_of` has raised.
unfoldable pub decided : String → String → String → Fields → Bool
unfolding equals iterate metadata_marks_custom
decided method decision marker item =
    equals (get "category" item) "tls"
    && equals (get "method" item) method
    && (elim (arguments_of item) [
      | ok arguments ↦
          any
            (λ argument.
              equals (get "decision" argument) decision && metadata_marks_custom argument marker)
            arguments
      | err e ↦ false
    ])

-- `sum(test(item) for item in items)`
abbrev pub count_of : (Fields → Bool) → List Fields → ℕ
count_of test items = length (filter test items)
