-- ===== src/Tls/Confirmed.antt =====
-- Where an analysis of events confirms an interception.
use android_appsec_assessor.Prelude.{
  String, Bool, true, ◌&&◌, ◌≡◌, ◌∙◌, sym, ap, refl, List, [], ◌∷◌, any, map, filter, length, arith,
  ◌=ₛ◌, ltb,
}
use android_appsec_assessor.Errors.{ok, >>=-eq-ok}
use android_appsec_assessor.Findings.{is_confirmed, unique_from}
use android_appsec_assessor.Json.{Fields, get, Conversions}
use android_appsec_assessor.Tls.{TlsEvidence, TlsAnalysisResult, analyze, checked_evidence}
use android_appsec_assessor.Tls.Attributed.{is_in-flows}
use android_appsec_assessor.Tls.Conditions.{is_canary_request, equals}
use android_appsec_assessor.Tls.Events.{
  is_canary_response, flows, flow_id, evidence_of, from_events,
}

analyze-confirmed :
    (e : TlsEvidence) → is_confirmed (analyze e).finding_status ≡ ltb 0 e.canary_response_count
unfolding analyze is_confirmed
analyze-confirmed e = ground arith

has_some : (xs : List String) → ltb 0 (length (unique_from [] xs)) ≡ any (λ x. true) xs
unfolding unique_from
has_some [] = refl
has_some (x ∷ xs) = ground arith

-- A response of the validation canary in the flow of one of its HTTPS requests.
unfoldable pub answers : Conversions → List Fields → Fields → Bool
answers conv traffic item =
    equals (get "event" item) "response"
    && equals (get "attribution" item) "validation_canary"
    && any (λ request. is_canary_request request && (flow_id conv request =ₛ flow_id conv item))
        traffic

module _ (conv : Conversions) (traffic : List Fields) where
  answers-eq :
      (item : Fields)
      → is_canary_response conv (flows conv (filter is_canary_request traffic)) item
        ≡ answers conv traffic item
  unfolding answers is_canary_response
  answers-eq item = ground (arith, is_in-flows conv is_canary_request (flow_id conv item) traffic)

  any-answers :
      (items : List Fields)
      → any
          (λ x. true)
          (map (flow_id conv) (
            filter (is_canary_response conv (flows conv (filter is_canary_request traffic))) items))
        ≡ any (answers conv traffic) items
  any-answers [] = refl
  any-answers (item ∷ items) = ground (arith, answers-eq item, any-answers items)

  abbrev answered : List String
  answered =
      map (flow_id conv)
        (filter (is_canary_response conv (flows conv (filter is_canary_request traffic))) traffic)

  response_count :
      (frida : List Fields) (source environment : String) {e : TlsEvidence}
      → evidence_of conv traffic frida source environment ≡ ok e
      → e.canary_response_count ≡ length (unique_from [] answered)
  unfolding evidence_of checked_evidence
  response_count frida source environment {e} h = ground arith

  -- The analysis of the events of a session confirms that TLS was intercepted exactly when the
  -- traffic holds a response of the validation canary in the flow of one of its HTTPS requests.
  pub from_events-confirmed :
      (frida : List Fields) (source environment : String) {result : TlsAnalysisResult}
      → from_events conv traffic frida source environment ≡ ok result
      → is_confirmed result.finding_status ≡ any (answers conv traffic) traffic
  unfolding from_events
  from_events-confirmed frida source environment {result} h =
      let (e, he, hr) = >>=-eq-ok (evidence_of conv traffic frida source environment) _ h in
      let same : analyze e ≡ result = cc hr in
      ap (λ (r : TlsAnalysisResult). is_confirmed r.finding_status) (sym same)
      ∙ (analyze-confirmed e
          ∙ (ap (ltb 0) (response_count frida source environment he)
              ∙ (has_some answered ∙ any-answers traffic)))
