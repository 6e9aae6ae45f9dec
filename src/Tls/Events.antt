-- ===== src/Tls/Events.antt =====
-- `TlsBehaviorAnalyzer.from_events` of android_assessor/tls_analysis.py: the evidence that the events
-- of the traffic and of Frida give.
use android_appsec_assessor.Prelude.{String, Bool, ◌&&◌, ◌||◌, List, [], any, map, filter, length}
use android_appsec_assessor.Prelude.Text.{codes, contains_text}
use android_appsec_assessor.Prelude.Case.{casefold}
use android_appsec_assessor.Errors.{Result, ok, ◌>>=◌}
use android_appsec_assessor.Json.{str, Fields, get, get_or, Conversions, to_str}
use android_appsec_assessor.Scope.{is_in}
use android_appsec_assessor.Findings.{unique_from}
use android_appsec_assessor.Tls.{TlsEvidence, checked_evidence, TlsAnalysisResult, analyze}
use android_appsec_assessor.Tls.Conditions.{
  any_checked, count_of, decided, equals, filter_checked, is_canary_request, is_network_error,
  is_rejection, is_ssl_proceed, is_target_request, is_trust_manager, is_unattributed,
  metadata_marks_custom, metadata_of,
}

module _ (conv : Conversions) where
  abbrev pub flow_id : Fields → String
  flow_id item = to_str conv (get "flow_id" item)

  -- The set of the flows of events.
  abbrev pub flows : List Fields → List String
  flows items = unique_from [] (map flow_id items)

  unfoldable pub is_pinning : Fields → Bool
  unfolding equals
  is_pinning item =
      equals (get "category" item) "tls"
      && (equals (get "method" item) "pinning.observed"
          || contains_text (codes "pinning")
              (codes (casefold (to_str conv (get_or "hook_id" (str "") item)))))

  unfoldable pub is_canary_response : List String → Fields → Bool
  unfolding equals
  is_canary_response canary_requests item =
      equals (get "event" item) "response"
      && is_in (flow_id item) canary_requests
      && equals (get "attribution" item) "validation_canary"

  unfoldable pub evidence_of : List Fields → List Fields → String → String → Result TlsEvidence
  unfolding filter_checked any_checked is_target_request is_canary_request is_canary_response
      is_unattributed is_rejection is_network_error is_pinning is_trust_manager metadata_of
      metadata_marks_custom is_ssl_proceed decided
  evidence_of traffic frida source environment = do
    targets ← filter_checked is_target_request traffic
    let canary_requests = flows (filter is_canary_request traffic)
    let canary_responses = flows (filter (is_canary_response canary_requests) traffic)
    network_error ← any_checked is_network_error traffic
    trust_manager ← any_checked is_trust_manager frida
    metadata ← metadata_of frida
    checked_evidence (record {
      target_request_count = length (flows targets);
      canary_request_count = length canary_requests;
      canary_response_count = length canary_responses;
      unattributed_request_count = count_of is_unattributed traffic;
      explicit_certificate_rejection = any is_rejection traffic;
      pinning_observed = any is_pinning frida;
      trust_manager_observed = trust_manager;
      custom_trust_manager_observed =
          any (λ item. metadata_marks_custom item "custom_trust_manager") metadata;
      custom_hostname_verifier_observed =
          any (λ item. metadata_marks_custom item "custom_hostname_verifier") metadata;
      webview_ssl_proceed_observed = any is_ssl_proceed frida;
      network_error_observed = network_error;
      trust_manager_accept_observed =
          any (decided "tls.check_server_trusted" "returned" "custom_trust_manager") frida;
      trust_manager_reject_observed =
          any (decided "tls.check_server_trusted" "threw" "custom_trust_manager") frida;
      hostname_verifier_accept_observed =
          any (decided "tls.hostname_verify" "accepted" "custom_hostname_verifier") frida;
      hostname_verifier_reject_observed =
          any (decided "tls.hostname_verify" "rejected" "custom_hostname_verifier") frida;
      source = source;
      environment = environment;
    })

  -- `TlsBehaviorAnalyzer.from_events`
  unfoldable pub from_events :
      List Fields → List Fields → String → String → Result TlsAnalysisResult
  unfolding evidence_of checked_evidence
  from_events traffic frida source environment =
      evidence_of traffic frida source environment >>= λ evidence. ok (analyze evidence)
