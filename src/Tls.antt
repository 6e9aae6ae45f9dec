-- ===== src/Tls.antt =====
-- android_assessor/tls_analysis.py: the evidence of TLS interception, its checks, and the state and
-- verdict that the analyzer gives it. The reading of traffic and Frida events is in Tls/Events;
-- `load_tls_fixture`, which passes the fields of a mapping as keyword arguments, is not modelled.
pub mod Conditions
pub mod Events
pub mod Counting
pub mod Attributed
pub mod Totality
pub mod Confirmed
use android_appsec_assessor.Prelude.{
  ℕ, String, Bool, true, false, not, ◌&&◌, ◌||◌, ◌=ₛ◌, ◌==◌, leb, ltb, if◌then◌else◌,
}
use android_appsec_assessor.Errors.{Result, ok, value_error, require, ◌>>=◌, ◌>>◌}
use android_appsec_assessor.Findings.{FindingStatus, pass, potential, confirmed, inconclusive}

pub data TlsBehaviorState : Type 0 where
  mitm_accepted mitm_rejected pinning_observed trust_manager_observed : TlsBehaviorState
  custom_trust_configured no_traffic network_error unattributed_traffic : TlsBehaviorState
  inconclusive_state : TlsBehaviorState

pub record TlsEvidence : Type 0 where
  pub target_request_count : ℕ
  pub canary_request_count : ℕ
  pub canary_response_count : ℕ
  pub unattributed_request_count : ℕ
  pub explicit_certificate_rejection : Bool
  pub pinning_observed : Bool
  pub trust_manager_observed : Bool
  pub custom_trust_manager_observed : Bool
  pub custom_hostname_verifier_observed : Bool
  pub webview_ssl_proceed_observed : Bool
  pub network_error_observed : Bool
  pub trust_manager_accept_observed : Bool
  pub trust_manager_reject_observed : Bool
  pub hostname_verifier_accept_observed : Bool
  pub hostname_verifier_reject_observed : Bool
  pub source : String
  pub environment : String

-- `a == b` of two truth values
abbrev pub same_bool : Bool → Bool → Bool
same_bool true b = b
same_bool false b = not b

-- `TlsEvidence.__post_init__`; the counters are natural numbers here.
unfoldable pub checked_evidence : TlsEvidence → Result TlsEvidence
checked_evidence e = do
  require (leb e.canary_response_count e.canary_request_count) value_error
      "TLS canary responses cannot exceed canary requests."
  require (leb e.canary_request_count e.target_request_count) value_error
      "TLS canary requests cannot exceed target requests."
  require (same_bool (e.source =ₛ "fixture") (e.environment =ₛ "simulated")) value_error
      "TLS fixture evidence requires simulated provenance."
  ok e

pub record TlsAnalysisResult : Type 0 where
  pub state : TlsBehaviorState
  pub finding_status : FindingStatus
  pub confidence : String
  pub validation_type : String
  pub rationale : String
  pub evidence : TlsEvidence
  pub finding_eligible : Bool
  pub physical_validation_status : String

-- State, status, confidence and rationale.
pub record Outcome : Type 0 where
  pub state : TlsBehaviorState
  pub status : FindingStatus
  pub confidence : String
  pub rationale : String

abbrev outcome : TlsBehaviorState → FindingStatus → String → String → Outcome
outcome s f c r = record { state = s; status = f; confidence = c; rationale = r }

unfoldable pub custom_trust : Bool → Bool → Outcome
custom_trust accepted rejected =
    outcome custom_trust_configured (if accepted || not rejected then potential else inconclusive)
      "medium"
      (if accepted
        then "A custom trust component accepted a runtime verification call, but no controlled invalid certificate or hostname was attributed."
        else if rejected
        then "The observed custom trust component rejected its runtime verification call; permissive certificate or hostname behavior was not shown."
        else "A custom trust component was installed at runtime, but permissive certificate or hostname behavior was not deterministically proven.")

-- The chain of conditions of `TlsBehaviorAnalyzer.analyze`
unfoldable pub outcome_of : TlsEvidence → Outcome
unfolding custom_trust
outcome_of e =
    if ltb 0 e.canary_response_count
    then outcome mitm_accepted confirmed "high"
        "A uniquely attributed validation canary completed through MITM."
    else if ltb 0 e.canary_request_count && e.explicit_certificate_rejection
    then outcome mitm_rejected pass "high"
        "An explicit certificate rejection followed a target canary attempt."
    else if ltb 0 e.canary_request_count && e.pinning_observed
    then outcome pinning_observed inconclusive "medium"
        "A certificate-pinning method ran for the target attempt, but no explicit accept or reject outcome was attributed."
    else if e.custom_trust_manager_observed || e.custom_hostname_verifier_observed
    then custom_trust (e.trust_manager_accept_observed || e.hostname_verifier_accept_observed)
        (e.trust_manager_reject_observed || e.hostname_verifier_reject_observed)
    else if e.target_request_count == 0 && ltb 0 e.unattributed_request_count
    then outcome unattributed_traffic inconclusive "high"
        "Only traffic without target attribution was captured."
    else if e.target_request_count == 0 && e.network_error_observed
    then outcome network_error inconclusive "low"
        "A network error occurred without a target-attributed TLS outcome."
    else if e.target_request_count == 0
    then outcome no_traffic inconclusive "high" "The target produced no attributed traffic."
    else if e.network_error_observed
    then outcome network_error inconclusive "low"
        "A generic network error cannot establish pinning or trust behavior."
    else if e.trust_manager_observed
    then outcome trust_manager_observed inconclusive "medium"
        "TrustManager execution alone does not establish MITM acceptance."
    else outcome inconclusive_state inconclusive "low"
        "Target traffic lacked a uniquely attributed certificate outcome."

-- `TlsBehaviorAnalyzer.analyze`
unfoldable pub analyze : TlsEvidence → TlsAnalysisResult
unfolding outcome_of
analyze e =
    let result = outcome_of e in
    record {
      state = result.state;
      finding_status = result.status;
      confidence = result.confidence;
      validation_type =
          if e.pinning_observed || e.trust_manager_observed
          then "instrumented_validation"
          else "adb_assisted_validation";
      rationale = result.rationale;
      evidence = e;
      finding_eligible = not ((e.source =ₛ "fixture") && (e.environment =ₛ "simulated"));
      physical_validation_status = "UNVERIFIED";
    }
