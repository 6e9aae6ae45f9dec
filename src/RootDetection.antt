-- ===== src/RootDetection.antt =====
-- android_assessor/root_detection.py: the events of root checks, their reading from mappings, Frida
-- events and fixtures, and the verdict over them.
pub mod Analysis
pub mod Order
use android_appsec_assessor.Prelude.{
  ℕ, ◌+◌, ◌<>◌, String, Bool, true, false, not, ◌&&◌, Option, none, some, List, [], ◌∷◌, ◌=ₛ◌,
  if◌then◌else◌,
}
use android_appsec_assessor.Prelude.Text.{decimal}
use android_appsec_assessor.Errors.{Result, ok, err, fault, value_error, require, ◌>>=◌, ◌>>◌}
use android_appsec_assessor.Json.{
  Value, null, bool, str, arr, obj, Items, cons, Fields, end, field, get, get_or, truthy,
  Conversions, to_str,
}
use android_appsec_assessor.Findings.{FindingStatus}
use android_appsec_assessor.Crypto.Reading.{is_operation_id}
use android_appsec_assessor.Crypto.Extraction.{CryptoEvent, mappings_of}
use android_appsec_assessor.Tls.{same_bool}
use android_appsec_assessor.Tls.Conditions.{equals}

pub data RootIndicatorType : Type 0 where
  su_file root_manager_package build_tags system_property mount_state : RootIndicatorType
  executable_lookup native_check other : RootIndicatorType

unfoldable pub indicator_value : RootIndicatorType → String
indicator_value su_file = "su_file"
indicator_value root_manager_package = "root_manager_package"
indicator_value build_tags = "build_tags"
indicator_value system_property = "system_property"
indicator_value mount_state = "mount_state"
indicator_value executable_lookup = "executable_lookup"
indicator_value native_check = "native_check"
indicator_value other = "other"

unfoldable pub indicator_of : String → Option RootIndicatorType
indicator_of s =
    if s =ₛ "su_file"
    then some su_file
    else if s =ₛ "root_manager_package"
    then some root_manager_package
    else if s =ₛ "build_tags"
    then some build_tags
    else if s =ₛ "system_property"
    then some system_property
    else if s =ₛ "mount_state"
    then some mount_state
    else if s =ₛ "executable_lookup"
    then some executable_lookup
    else if s =ₛ "native_check"
    then some native_check
    else if s =ₛ "other"
    then some other
    else none

pub data RootAppResponse : Type 0 where
  app_blocked warning_only no_observable_effect unknown : RootAppResponse

unfoldable pub response_of : String → Option RootAppResponse
response_of s =
    if s =ₛ "app_blocked"
    then some app_blocked
    else if s =ₛ "warning_only"
    then some warning_only
    else if s =ₛ "no_observable_effect"
    then some no_observable_effect
    else if s =ₛ "unknown"
    then some unknown
    else none

pub record RootDetectionEvent : Type 0 where
  pub check_id : String
  pub indicator_type : RootIndicatorType
  pub present : Bool
  pub executed : Bool
  pub detected : Option Bool
  pub response : RootAppResponse
  pub bypass_instrumented : Bool
  pub source : String
  pub environment : String

abbrev pub Events : Type 0
Events = List RootDetectionEvent

unfoldable pub indicator_and_response :
    String → String → Result (RootIndicatorType × RootAppResponse)
unfolding indicator_of response_of
indicator_and_response i r = elim (indicator_of i) [
  | none ↦ err (fault value_error "Root detection indicator or response is invalid.")
  | some indicator ↦ elim (response_of r) [
    | none ↦ err (fault value_error "Root detection indicator or response is invalid.")
    | some response ↦ ok (indicator, response)
  ]
]

unfoldable pub flag : String → Value → Result Bool
flag message (bool b) = ok b
flag message _ = err (fault value_error message)

unfoldable pub optional_flag : Value → Result (Option Bool)
optional_flag null = ok none
optional_flag (bool b) = ok (some b)
optional_flag _ = err (fault value_error "Root check detected field must be boolean or null.")

module _ (conv : Conversions) (source environment : String) where
  -- `RootDetectionEvent.from_mapping`
  unfoldable pub event_from_mapping : Fields → Result RootDetectionEvent
  unfolding indicator_and_response flag optional_flag
  event_from_mapping value = do
    let check_id = to_str conv (get_or "check_id" (str "") value)
    require (is_operation_id check_id) value_error "Root detection check ID is invalid."
    (indicator, response) ←
        indicator_and_response (to_str conv (get_or "indicator_type" (str "other") value))
          (to_str conv (get_or "response" (str "unknown") value))
    present ← flag "Root check present/executed fields must be boolean." (get "present" value)
    executed ← flag "Root check present/executed fields must be boolean." (get "executed" value)
    detected ← optional_flag (get "detected" value)
    bypassed ←
        flag "Root bypass field must be boolean." (get_or "bypass_instrumented" (bool false) value)
    require (not (bypassed && not executed)) value_error
        "An unexecuted root check cannot be instrumented as bypassed."
    require (same_bool (source =ₛ "fixture") (environment =ₛ "simulated")) value_error
        "Root-detection fixture requires simulated provenance."
    ok (record {
      check_id = check_id;
      indicator_type = indicator;
      present = present;
      executed = executed;
      detected = detected;
      response = response;
      bypass_instrumented = bypassed;
      source = source;
      environment = environment;
    })

  -- `arguments[0]` if it is a mapping, else an empty one
  unfoldable pub first_mapping : Items → Fields
  first_mapping (cons (obj fs) _) = fs
  first_mapping _ = end

  unfoldable pub root_payload : ℕ → Fields → Fields
  unfolding to_str
  root_payload index metadata =
      let check_id =
        if truthy (get "check_id" metadata)
        then to_str conv (get "check_id" metadata)
        else "frida-root-" <> decimal index in
      field "check_id" (str check_id) (
        field "indicator_type" (str (to_str conv (get_or "indicator_type" (str "other") metadata)))
          (field "present" (bool true) (
            field "executed" (bool true) (
              field "detected" (get "detected" metadata) (
                field "response" (str (to_str conv (get_or "response" (str "unknown") metadata))) (
                  field "bypass_instrumented"
                    (bool (truthy (get_or "bypass_instrumented" (bool false) metadata))) end))))))

  -- The loop of `root_events_from_frida`; the fields that it reads are those of a crypto event.
  unfoldable pub root_events_from : ℕ → List CryptoEvent → Result Events
  unfolding event_from_mapping root_payload first_mapping
  root_events_from index [] = ok []
  root_events_from index (event ∷ events) =
      let rest = root_events_from (index + 1) events in
      if not (event.category =ₛ "root_detection")
      then rest
      else (event_from_mapping (root_payload index (first_mapping event.arguments_redacted))
          >>= λ first. (rest >>= λ others. ok (first ∷ others)))

  unfoldable pub root_events_from_frida : List CryptoEvent → Result Events
  unfolding root_events_from
  root_events_from_frida events = root_events_from 1 events

  unfoldable pub events_of : List Fields → Result Events
  unfolding event_from_mapping
  events_of [] = ok []
  events_of (item ∷ items) =
      let rest = events_of items in
      event_from_mapping item >>= λ first. (rest >>= λ others. ok (first ∷ others))

unfoldable pub scenario_items : String → Value → Result Items
scenario_items scenario (obj scenarios) = elim (get scenario scenarios) [
  | arr values ↦ ok values
  | _ ↦ err (fault value_error ("Unknown root-detection fixture scenario: " <> scenario))
]
scenario_items scenario _ =
    err (fault value_error ("Unknown root-detection fixture scenario: " <> scenario))

unfoldable pub load_root_detection_fixture : Conversions → Fields → String → Result Events
unfolding scenario_items mappings_of events_of
load_root_detection_fixture conv payload scenario = do
  require
      (equals (get "source" payload) "fixture" && equals (get "environment" payload) "simulated")
      value_error "Root-detection fixture requires fixture/simulated provenance."
  values ← scenario_items scenario (get "scenarios" payload)
  elim (mappings_of values) [
    | none ↦ err (fault value_error "Root-detection fixture events must be objects.")
    | some items ↦ events_of conv "fixture" "simulated" items
  ]

pub record RootDetectionSummary : Type 0 where
  pub root_check_present : Bool
  pub root_check_executed : Bool
  pub root_detected : Bool
  pub app_blocked : Bool
  pub warning_only : Bool
  pub no_observable_effect : Bool

pub record RootDetectionResult : Type 0 where
  pub assessment : String
  pub finding_status : FindingStatus
  pub confidence : String
  pub validation_type : String
  pub summary : RootDetectionSummary
  pub indicator_types : List String
  pub check_ids : List String
  pub rationale : String
  pub finding_eligible : Bool
  pub physical_validation_status : String
