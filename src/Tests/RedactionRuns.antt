-- ===== src/Tests/RedactionRuns.antt =====
-- Runs of the redaction, and the witnesses of its properties.
use android_appsec_assessor.Prelude.{
  String, true, false, ◌≡◌, refl, none, some, [], ◌∷◌, if◌then◌else◌,
}
use android_appsec_assessor.Prelude.Pattern.{Class}
use android_appsec_assessor.Json.{Value, str, obj, Fields, end, field, lookup}
use android_appsec_assessor.Redaction.{redacted, is_sensitive_name, redact_text}
use android_appsec_assessor.Redaction.Structure.{
  redact_data, redact_report_data, redact_fields, redact_arguments, is_identifier,
}
use android_appsec_assessor.Redaction.Hiding.{
  mask, hidden_in_report, redact_data-hides, redact_report_data-hides, lookup-redact_fields,
}
use android_appsec_assessor.Redaction.Arguments.{Hides, redact_arguments-Hides}

abbrev no_word : Class
no_word c = false

authorization :
    redact_text no_word "Authorization: Bearer abc.def, user=1"
    ≡ "Authorization: <redacted>, user=1"
unfolding redact_text
authorization = refl

query : redact_text no_word "a=1&api_token=xyz&b=2" ≡ "a=1&api_token=<redacted>&b=2"
unfolding redact_text
query = refl

address :
    redact_text no_word "mail to jo.doe@example.org or +44 (20) 7946-0958"
    ≡ "mail to <redacted> or <redacted>"
unfolding redact_text
address = refl

short_number : redact_text no_word "port 8080, id 12345678" ≡ "port 8080, id 12345678"
unfolding redact_text
short_number = refl

names : (is_sensitive_name "X-Api-Key" ≡ true) × (is_sensitive_name "monkey" ≡ false)
unfolding is_sensitive_name
names = (refl, refl)

arguments :
    redact_arguments no_word ("login" ∷ "--token" ∷ "abc" ∷ "user-pw1" ∷ []) ("pw1" ∷ [])
    ≡ "login" ∷ "--token" ∷ "<redacted>" ∷ "user-<redacted>" ∷ []
unfolding redact_arguments redact_text is_sensitive_name
arguments = refl

redact_arguments-Hides_example :
    Hides
      ("pw1" ∷ [])
      ("login" ∷ "--token" ∷ "abc" ∷ [])
      (redact_arguments no_word ("login" ∷ "--token" ∷ "abc" ∷ []) ("pw1" ∷ []))
redact_arguments-Hides_example =
    redact_arguments-Hides no_word ("pw1" ∷ []) ("login" ∷ "--token" ∷ "abc" ∷ [])

-- Two records that differ in a password only.
abbrev account : String → Value
account password =
    obj (field "user" (str "jo") (field "login" (obj (field "password" (str password) end)) end))

hidden_alike : mask hidden_in_report (account "one") ≡ mask hidden_in_report (account "two")
unfolding mask hidden_in_report is_sensitive_name is_identifier
hidden_alike = refl

redact_report_data-hides_example :
    redact_report_data no_word (account "one") none
    ≡ redact_report_data no_word (account "two") none
redact_report_data-hides_example =
    redact_report_data-hides no_word (account "one") (account "two") hidden_alike

sensitive_alike : mask is_sensitive_name (account "one") ≡ mask is_sensitive_name (account "two")
unfolding mask is_sensitive_name
sensitive_alike = refl

redact_data-hides_example :
    redact_data no_word (account "one") ≡ redact_data no_word (account "two")
redact_data-hides_example =
    redact_data-hides no_word (account "one") (account "two") sensitive_alike

abbrev login : Fields
login = field "user" (str "jo") (field "password" (str "one") end)

lookup-redact_fields_example :
    lookup "password" (redact_fields no_word login) ≡ (elim (lookup "password" login) [
      | none ↦ none
      | some v ↦ some (if is_sensitive_name "password" then str redacted else redact_data no_word v)
    ])
lookup-redact_fields_example = lookup-redact_fields no_word "password" login
