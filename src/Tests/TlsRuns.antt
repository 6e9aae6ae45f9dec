-- ===== src/Tests/TlsRuns.antt =====
-- Runs of the analysis of TLS events, and the witnesses of its properties.
use android_appsec_assessor.Prelude.{String, true, false, ◌≡◌, refl, List, [], ◌∷◌, any, All}
use android_appsec_assessor.Errors.{ok}
use android_appsec_assessor.Findings.{is_confirmed, unique_from}
use android_appsec_assessor.Json.{
  str, bool, arr, obj, nil, cons, Fields, end, field, get_or, to_str,
}
use android_appsec_assessor.Tls.{TlsAnalysisResult, TlsEvidence, analyze}
use android_appsec_assessor.Tls.Events.{from_events}
use android_appsec_assessor.Tls.Totality.{
  PlainTraffic, PlainFrida, hashable, iterable, from_events-Returns,
}
use android_appsec_assessor.Tls.Confirmed.{answers, from_events-confirmed}
use android_appsec_assessor.Prelude.Case.{casefold}
use android_appsec_assessor.Prelude.Text.{contains_text, strip}
use android_appsec_assessor.Tests.{conversions}

abbrev event : String → Fields
event kind = field "event" (str kind) (
    field "scheme" (str "https")
      (field "flow_id" (str "flow-1") (field "attribution" (str "validation_canary") end)))

abbrev traffic : List Fields
traffic = event "request" ∷ event "response" ∷ []

abbrev hook : Fields
hook = field "category" (str "tls") (
    field "method" (str "tls.check_server_trusted") (
      field "arguments_redacted"
        (arr (
          cons
            (obj (
              field "custom_trust_manager" (bool true) (
                field "class_name" (str "org.example.TrustAll")
                  (field "decision" (str "returned") end))))
            nil))
        end))

plain : All PlainTraffic traffic
unfolding hashable get_or
plain = (
  record { event = refl; attribution = refl; error_kind = refl },
  (record { event = refl; attribution = refl; error_kind = refl }, tt),
)

called : All PlainFrida (hook ∷ [])
unfolding hashable iterable get_or
called = (record { method = refl; arguments = refl }, tt)

from_events-Returns_example :
    (result : TlsAnalysisResult) × (from_events conversions traffic (hook ∷ []) "session" "device"
      ≡ ok result)
from_events-Returns_example =
    from_events-Returns conversions traffic (hook ∷ []) "session" "device" plain called refl

abbrev evidence : TlsEvidence
evidence = record {
  target_request_count = 1;
  canary_request_count = 1;
  canary_response_count = 1;
  unattributed_request_count = 0;
  explicit_certificate_rejection = false;
  pinning_observed = false;
  trust_manager_observed = true;
  custom_trust_manager_observed = true;
  custom_hostname_verifier_observed = false;
  webview_ssl_proceed_observed = false;
  network_error_observed = false;
  trust_manager_accept_observed = true;
  trust_manager_reject_observed = false;
  hostname_verifier_accept_observed = false;
  hostname_verifier_reject_observed = false;
  source = "session";
  environment = "device";
}

run : from_events conversions traffic (hook ∷ []) "session" "device" ≡ ok (analyze evidence)
unfolding from_events get_or to_str casefold unique_from contains_text strip
run = refl

from_events-confirmed_example :
    is_confirmed (analyze evidence).finding_status ≡ any (answers conversions traffic) traffic
from_events-confirmed_example =
    from_events-confirmed conversions traffic (hook ∷ []) "session" "device"
      {result = analyze evidence} run
