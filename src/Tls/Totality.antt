-- ===== src/Tls/Totality.antt =====
-- Every step of `from_events` returns on plain events, and the evidence passes its checks.
use mathlib.Core.Path.{subst}
use android_appsec_assessor.Prelude.{
  ◌≤◌, String, Bool, true, false, ◌&&◌, ◌||◌, ◌≡◌, ◌∙◌, sym, refl, List, [], ◌∷◌, ◌++◌, map, filter,
  length, All, arith, eq_iff, ◌=ₛ◌, if◌then◌else◌, le→leb,
}
use android_appsec_assessor.Errors.{Result, ok, ◌>>=◌}
use android_appsec_assessor.Json.{
  Value, null, bool, num, str, arr, obj, nil, Fields, get, get_or, Conversions,
}
use android_appsec_assessor.Scope.{is_in}
use android_appsec_assessor.Findings.Validated.{is_in-unique_from}
use android_appsec_assessor.Tls.{TlsAnalysisResult, checked_evidence, same_bool}
use android_appsec_assessor.Tls.Counting.{length-unique_le}
use android_appsec_assessor.Tls.Conditions.{
  filter_checked, any_checked, is_canary_request, is_target_request, is_https_request,
  is_network_error, is_trust_manager, metadata_of, iterate, member, mappings, and_then, equals,
}
use android_appsec_assessor.Tls.Events.{
  is_canary_response, flows, flow_id, evidence_of, from_events,
}
use android_appsec_assessor.Tls.Attributed.{
  any-elim, is_in-map-filter, filter_checked-keeps, canary_request-target,
}

-- `value in {…}` does not raise.
unfoldable pub hashable : Value → Bool
hashable (arr vs) = false
hashable (obj fs) = false
hashable _ = true

-- `for x in value` does not raise.
unfoldable pub iterable : Value → Bool
iterable (arr vs) = true
iterable (str s) = true
iterable (obj fs) = true
iterable _ = false

pub record PlainTraffic (item : Fields) : Type 0 where
  pub event : hashable (get "event" item) ≡ true
  pub attribution : hashable (get "attribution" item) ≡ true
  pub error_kind : hashable (get "error_kind" item) ≡ true

pub record PlainFrida (item : Fields) : Type 0 where
  pub method : hashable (get "method" item) ≡ true
  pub arguments : iterable (get_or "arguments_redacted" (arr nil) item) ≡ true

abbrev IsOk {ℓ} : {A : Type ℓ} → Result A → Type ℓ
IsOk {A = A} r = (a : A) × (r ≡ ok a)

member-IsOk : (v : Value) (names : List String) → hashable v ≡ true → IsOk (member v names)
unfolding member hashable
member-IsOk null names h = (false, refl)
member-IsOk (bool b) names h = (false, refl)
member-IsOk (num n) names h = (false, refl)
member-IsOk (str s) names h = (is_in s names, refl)
member-IsOk (arr vs) names h = cc
member-IsOk (obj fs) names h = cc

iterate-IsOk : (v : Value) → iterable v ≡ true → IsOk (iterate v)
unfolding iterate iterable
iterate-IsOk null h = cc
iterate-IsOk (bool b) h = cc
iterate-IsOk (num n) h = cc
iterate-IsOk (str s) h = ([], refl)
iterate-IsOk (arr vs) h = (mappings vs, refl)
iterate-IsOk (obj fs) h = ([], refl)

and_then-IsOk : (b : Bool) (rest : Result Bool) → IsOk rest → IsOk (and_then b rest)
and_then-IsOk true rest h = h
and_then-IsOk false rest h = (false, refl)

>>=-IsOk {ℓ κ} :
    {A : Type ℓ} {B : Type κ} (r : Result A) (f : A → Result B)
    → IsOk r
    → ((a : A) → IsOk (f a))
    → IsOk (r >>= f)
>>=-IsOk r f (a, e) next = rw e (next a)

filter_checked-IsOk :
    (test : Fields → Result Bool) (items : List Fields)
    → All (λ item. IsOk (test item)) items
    → IsOk (filter_checked test items)
unfolding filter_checked
filter_checked-IsOk test [] h = ([], refl)
filter_checked-IsOk test (item ∷ items) h = >>=-IsOk (test item) _ h.0 (λ kept.
    >>=-IsOk (filter_checked test items) _ (filter_checked-IsOk test items h.1)
      (λ ys. (if kept then item ∷ ys else ys, refl)))

any_checked-IsOk :
    (test : Fields → Result Bool) (items : List Fields)
    → All (λ item. IsOk (test item)) items
    → IsOk (any_checked test items)
unfolding any_checked
any_checked-IsOk test [] h = (false, refl)
any_checked-IsOk test (item ∷ items) h = >>=-IsOk (test item) _ h.0 (λ found.
    elim found as (λ b. IsOk (if b then ok true else any_checked test items)) [
      | true ↦ (true, refl)
      | false ↦ any_checked-IsOk test items h.1
    ])

metadata_of-IsOk : (items : List Fields) → All PlainFrida items → IsOk (metadata_of items)
unfolding metadata_of
metadata_of-IsOk [] h = ([], refl)
metadata_of-IsOk (item ∷ items) h =
    >>=-IsOk (iterate (get_or "arguments_redacted" (arr nil) item)) _ (iterate-IsOk _ h.0.arguments)
      (λ first.
        >>=-IsOk (metadata_of items) _ (metadata_of-IsOk items h.1) (λ more. (first ++ more, refl)))

targets-IsOk :
    (items : List Fields)
    → All PlainTraffic items
    → All (λ item. IsOk (is_target_request item)) items
unfolding is_target_request
targets-IsOk [] h = tt
targets-IsOk (item ∷ items) h = (
  and_then-IsOk (is_https_request item) _ (member-IsOk _ _ h.0.attribution),
  targets-IsOk items h.1,
)

errors-IsOk :
    (items : List Fields)
    → All PlainTraffic items
    → All (λ item. IsOk (is_network_error item)) items
unfolding is_network_error
errors-IsOk [] h = tt
errors-IsOk (item ∷ items) h = (
  >>=-IsOk (member (get "event" item) ("network_error" ∷ "tls_error" ∷ [])) _
      (member-IsOk _ _ h.0.event)
      (λ failed. and_then-IsOk failed _ (
        >>=-IsOk (member (get "error_kind" item) ("network" ∷ "unknown" ∷ [])) _
          (member-IsOk _ _ h.0.error_kind)
          (λ general. and_then-IsOk general _ (member-IsOk _ _ h.0.attribution)))),
  errors-IsOk items h.1,
)

managers-IsOk :
    (items : List Fields) → All PlainFrida items → All (λ item. IsOk (is_trust_manager item)) items
unfolding is_trust_manager
managers-IsOk [] h = tt
managers-IsOk (item ∷ items) h = (
  >>=-IsOk
      (member (get "method" item) ("tls.check_server_trusted" ∷ "tls.trust_manager_observed" ∷ []))
      _ (member-IsOk _ _ h.0.method)
      (λ called. (called || equals (get "event" item) "trust_manager_observed", refl)),
  managers-IsOk items h.1,
)

module _ (conv : Conversions) (traffic : List Fields) where
  abbrev requests : List String
  requests = flows conv (filter is_canary_request traffic)

  abbrev responses : List String
  responses = flows conv (filter (is_canary_response conv requests) traffic)

  requests_le :
      (targets : List Fields)
      → filter_checked is_target_request traffic ≡ ok targets
      → length requests ≤ length (flows conv targets)
  requests_le targets h =
      length-unique_le (map (flow_id conv) (filter is_canary_request traffic))
        (map (flow_id conv) targets)
        (λ s m.
          filter_checked-keeps conv is_target_request is_canary_request s traffic targets
            (λ item c. canary_request-target item c) h m)

  response-request :
      (s : String) (canaries : List String) (item : Fields)
      → (is_canary_response conv canaries item && (flow_id conv item =ₛ s)) ≡ true
      → is_in s canaries ≡ true
  unfolding is_canary_response
  response-request s canaries item h =
      subst (λ t. is_in t canaries ≡ true) ((eq_iff (flow_id conv item) s).0 (ground arith))
        (ground arith)

  responses_le : length responses ≤ length requests
  responses_le =
      length-unique_le (map (flow_id conv) (filter (is_canary_response conv requests) traffic))
        (map (flow_id conv) (filter is_canary_request traffic))
        (λ s m.
          sym (is_in-unique_from s [] (map (flow_id conv) (filter is_canary_request traffic)))
          ∙ any-elim (λ item. is_canary_response conv requests item && (flow_id conv item =ₛ s))
              (is_in s requests) traffic (λ item h. response-request s requests item h)
              (sym (is_in-map-filter conv (is_canary_response conv requests) s traffic) ∙ m))

  -- On events whose fields can be tested and iterated, and with a provenance that fits, `from_events`
  -- returns a result: the numbers of flows that it counts always pass the checks of the evidence, so
  -- that none of its errors is raised.
  pub from_events-Returns :
      (frida : List Fields) (source environment : String)
      → All PlainTraffic traffic
      → All PlainFrida frida
      → same_bool (source =ₛ "fixture") (environment =ₛ "simulated") ≡ true
      → (result : TlsAnalysisResult) × (from_events conv traffic frida source environment
          ≡ ok result)
  unfolding from_events evidence_of checked_evidence
  from_events-Returns frida source environment plain called fits =
      let (targets, et) =
        filter_checked-IsOk is_target_request traffic (targets-IsOk traffic plain) in
      let (failed, ef) = any_checked-IsOk is_network_error traffic (errors-IsOk traffic plain) in
      let (managed, em) = any_checked-IsOk is_trust_manager frida (managers-IsOk frida called) in
      let (metadata, ed) = metadata_of-IsOk frida called in
      let first = le→leb _ _ responses_le in
      let second = le→leb _ _ (requests_le targets et) in
      rw (et, ef, em, ed, first, second, fits) (_, refl)
