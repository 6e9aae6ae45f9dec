-- ===== src/Dex/Signals.antt =====
-- What the calls of a method show: the records and the helpers of `_behavior_signals_for_method` in
-- android_assessor/static_apk_analysis.py.
use android_appsec_assessor.Prelude.{
  ℕ, String, Bool, ◌&&◌, Option, none, some, List, [], ◌∷◌, ◌++◌, any, ◌=ₛ◌, get_elem?,
  if◌then◌else◌,
}
use android_appsec_assessor.Prelude.Int.{ℤ}
use android_appsec_assessor.Prelude.Text.{codes}
use android_appsec_assessor.Dex.Registers.{Text}
use android_appsec_assessor.Dex.Texts.{same_text}
use android_appsec_assessor.Dex.Algorithms.{Argument, constant_text, Arguments}

pub record DexBehaviorSignal : Type 0 where
  pub rule_id : String
  pub confidence : String
  pub caller_class_descriptor : Text
  pub caller_method_name : Text
  pub caller_prototype : Text
  pub indicators : List String

-- A rule that was detected, with its confidence and its indicators.
pub record Detected : Type 0 where
  pub rule_id : String
  pub confidence : String
  pub indicators : List String

abbrev pub higher : String → String → String
higher old confidence = if (old =ₛ "medium") && (confidence =ₛ "high") then "high" else old

-- `record`: a dict by rule
unfoldable pub record_rule : String → String → List String → List Detected → List Detected
record_rule rule_id confidence indicators [] =
    record { rule_id = rule_id; confidence = confidence; indicators = indicators } ∷ []
record_rule rule_id confidence indicators (d ∷ detected) =
    let rest = d ∷ record_rule rule_id confidence indicators detected in
    if d.rule_id =ₛ rule_id
    then record d {
      confidence = higher d.confidence confidence;
      indicators = d.indicators ++ indicators;
    }
      ∷ detected
    else rest

-- The variables of the loop over the calls.
pub record Observed : Type 0 where
  pub detected : List Detected
  pub random_material_generations : List ℤ
  pub correlated_crypto_material : List String
  pub javascript_enabled : Bool
  pub javascript_bridge : Bool
  pub remote_web_content : List String

abbrev pub note : String → String → List String → Observed → Observed
note rule_id confidence indicators s = record s {
  detected = record_rule rule_id confidence indicators s.detected;
}

abbrev pub is_text : String → Text → Bool
is_text s t = same_text (codes s) t

abbrev pub is_any_text : List String → Text → Bool
is_any_text names t = any (λ s. is_text s t) names

-- The argument at an index, where it is a text.
unfoldable pub text_at : ℕ → Arguments → Option Text
text_at index arguments = elim (get_elem? arguments index) [
  | some (some (constant_text t)) ↦ some t
  | _ ↦ none
]

unfoldable pub argument_at : ℕ → Arguments → Option Argument
argument_at index arguments = elim (get_elem? arguments index) [
  | some argument ↦ argument
  | none ↦ none
]
