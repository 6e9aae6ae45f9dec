-- ===== src/Correlation.antt =====
-- android_assessor/scenario_correlation.py: the correlation of the windows of a completed scenario
-- with observations. This file reads the summary of a scenario; the events are in
-- Correlation/Events. `datetime.fromisoformat` is a parameter, which gives the instant of a text,
-- whether it has a time zone, and its `isoformat`.
pub mod Summary
pub mod Steps
pub mod Attribution
pub mod Observers
pub mod Events
pub mod Accepted
pub mod Supported
pub mod Answered
pub mod Given
pub mod Complete
use Prim.Native.Char.{code}
use android_appsec_assessor.Prelude.{
  ℕ, ◌<>◌, String, Bool, true, false, not, ◌&&◌, ◌||◌, Option, none, some, List, [], ◌∷◌, all,
  length, leb, ltb, ◌==◌, ◌=ₛ◌, if◌then◌else◌,
}
use android_appsec_assessor.Prelude.Int.{pos}
use android_appsec_assessor.Prelude.Text.{codes, char_count, starts}
use android_appsec_assessor.Errors.{Result, ok, err, Error, fault, value_error, ◌>>=◌, ◌>>◌}
use android_appsec_assessor.Json.{
  Value, null, num, str, arr, obj, Items, nil, cons, Fields, end, field,
}
use android_appsec_assessor.Scope.{is_in}
use android_appsec_assessor.Validation.{is_letter, is_ascii_digit, is_hex, after}

abbrev pub invalid : String → String → Error
invalid name problem = fault value_error (name <> problem)

-- `[A-Za-z0-9._:-]{1,256}`
unfoldable pub is_safe_id : String → Bool
is_safe_id s =
    leb 1 (char_count s)
    && leb (char_count s) 256
    && all
        (λ c. is_letter c || is_ascii_digit c || c == b'.' || c == b'_' || c == b':' || c == b'-')
        (codes s)

unfoldable pub safe_id : String → Value → Result String
safe_id name (str s) = if is_safe_id s then ok s else err (invalid name " is invalid")
safe_id name _ = err (invalid name " is invalid")

abbrev is_hex64 : List ℕ → Bool
is_hex64 cs = length cs == 64 && all is_hex cs

abbrev hex_after : String → String → Bool
hex_after prefix s = elim (after (codes prefix) (codes s)) [ none ↦ false | some cs ↦ is_hex64 cs ]

-- `_FINGERPRINT`
unfoldable pub is_fingerprint : String → Bool
unfolding after
is_fingerprint s = is_hex64 (codes s) || hex_after "sha256:" s || hex_after "hmac-sha256:" s

unfoldable pub optional_fingerprint : String → Value → Result (Option String)
optional_fingerprint name null = ok none
optional_fingerprint name (str s) =
    if is_fingerprint s then ok (some s) else err (invalid name " is invalid")
optional_fingerprint name _ = err (invalid name " is invalid")

unfoldable pub positive_pid : String → Value → Result ℕ
positive_pid name (num (pos n)) =
    if ltb 0 n then ok n else err (invalid name " must be a positive integer")
positive_pid name _ = err (invalid name " must be a positive integer")

-- `{read(item) for item in value}`
unfoldable pub read_items {ℓ} : {A : Type ℓ} → (Value → Result A) → Items → Result (List A)
read_items read nil = ok []
read_items read (cons v vs) =
    let rest = read_items read vs in read v >>= λ a. (rest >>= λ more. ok (a ∷ more))

unfoldable pub read_sequence {ℓ} :
    {A : Type ℓ} → String → (Value → Result A) → Value → Result (List A)
unfolding read_items
read_sequence name read (arr vs) = read_items read vs
read_sequence name read _ = err (invalid name " must be a sequence")

abbrev pub pid_set : String → Value → Result (List ℕ)
pid_set name v = read_sequence name (positive_pid name) v

abbrev pub safe_id_set : String → Value → Result (List String)
safe_id_set name v = read_sequence name (safe_id name) v

unfoldable pub only_some {ℓ} : {A : Type ℓ} → List (Option A) → List A
only_some [] = []
only_some (none ∷ os) = only_some os
only_some (some a ∷ os) = a ∷ only_some os

unfoldable pub fingerprint_set : String → Value → Result (List String)
unfolding read_sequence only_some
fingerprint_set name v =
    read_sequence name (optional_fingerprint name) v >>= λ found. ok (only_some found)

abbrev pub observers : List String
observers = "frida" ∷ "traffic" ∷ "logcat" ∷ "storage" ∷ []

unfoldable pub read_evidence : Fields → Result (List (String × String))
unfolding safe_id
read_evidence end = ok []
read_evidence (field observer v fs) =
    let rest = read_evidence fs in
    if not (is_in observer observers)
    then err (fault value_error "evidence_ids contains an unsupported observer")
    else (safe_id "evidence_id" v >>= λ id. (rest >>= λ more. ok ((observer, id) ∷ more)))

unfoldable pub evidence_ids_of : Value → Result (List (String × String))
unfolding read_evidence
evidence_ids_of (obj fs) = read_evidence fs
evidence_ids_of _ = err (fault value_error "evidence_ids must be a mapping")

unfoldable pub validated_process : String → String → Value → Result String
unfolding safe_id
validated_process package_name name v = safe_id name v >>= λ process.
    if process =ₛ package_name || starts (codes (package_name <> ":")) (codes process)
    then ok process
    else err (invalid name " is outside the target package")

-- What `datetime.fromisoformat` and `isoformat` give for a text.
pub record Moment : Type 0 where
  pub instant : ℕ
  pub aware : Bool
  pub rendered : String

-- `value.replace("Z", "+00:00")`
unfoldable pub replace_z : String → String
replace_z String.[] = ""
replace_z (String.◌∷◌ c s) = (if code c == b'Z' then "+00:00" else String.◌∷◌ c "") <> replace_z s

unfoldable pub timestamp : (String → Option Moment) → String → Value → Result Moment
unfolding replace_z
timestamp parse name (str s) = elim (parse (replace_z s)) [
  | none ↦ err (invalid name " is invalid")
  | some moment ↦ if moment.aware then ok moment else err (invalid name " must include a timezone")
]
timestamp parse name _ = err (invalid name " must be a timezone-aware string")

unfoldable pub is_null : Value → Bool
is_null null = true
is_null _ = false
