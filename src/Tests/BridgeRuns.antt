-- ===== src/Tests/BridgeRuns.antt =====
-- A method that opens a web view to remote scripts, and the witness of its property.
use android_appsec_assessor.Prelude.{
  ℕ, ◌≡◌, refl, String, Option, none, some, List, [], ◌∷◌, if◌then◌else◌,
}
use android_appsec_assessor.Prelude.Int.{pos}
use android_appsec_assessor.Prelude.{true, any, ◌↔◌}
use android_appsec_assessor.Dex.Detection.{is_bridge_signal}
use android_appsec_assessor.Prelude.Text.{codes, starts}
use android_appsec_assessor.Errors.{Result, ok}
use android_appsec_assessor.Dex.Registers.{
  Text, DexConstant, number, string_index, DexMethodReference, DexInvocation,
}
use android_appsec_assessor.Dex.Tables.{Texts}
use android_appsec_assessor.Dex.Signals.{DexBehaviorSignal}
use android_appsec_assessor.Dex.Behavior.{
  behavior_signals, observe_calls, constant_values, observe_content, observe_after, observe_before,
}
use android_appsec_assessor.Prelude.Case.{sorted_set, before}
use android_appsec_assessor.Dex.Reported.{IsExposed, behavior_signals-IsExposed}

abbrev reference : String → String → String → DexMethodReference
reference c m p = record { class_descriptor = codes c; method_name = codes m; prototype = codes p }

abbrev call : String → String → String → List (Option DexConstant) → DexInvocation
call c m p arguments = record {
  reference = reference c m p;
  arguments = arguments;
  argument_generations = [];
  invoke_kind = "virtual";
}

abbrev calls : List DexInvocation
calls =
    call "Landroid/webkit/WebSettings;" "setJavaScriptEnabled" "(Z)V"
      (none ∷ some (number (pos 1)) ∷ [])
    ∷ call "Landroid/webkit/WebView;" "addJavascriptInterface"
        "(Ljava/lang/Object;Ljava/lang/String;)V" (none ∷ none ∷ none ∷ [])
    ∷ call "Landroid/webkit/WebView;" "loadUrl" "(Ljava/lang/String;)V"
        (none ∷ some (string_index 0) ∷ [])
    ∷ []

abbrev strings : Texts
strings = some (codes "http://a.b/") ∷ []

-- A scheme is seen where it is `http`.
unfoldable http_scheme : Text → Result String
unfolding starts
http_scheme t = ok (if starts (codes "http://") t then "http" else "")

abbrev same : ℕ → Text
same c = c ∷ []

abbrev opened : DexMethodReference
opened = reference "La/B;" "open" "()V"

abbrev signal : String → List String → DexBehaviorSignal
signal rule indicators = record {
  rule_id = rule;
  confidence = "high";
  caller_class_descriptor = opened.class_descriptor;
  caller_method_name = opened.method_name;
  caller_prototype = opened.prototype;
  indicators = indicators;
}

abbrev reported : List DexBehaviorSignal
reported =
    signal "WEBVIEW-JS-BRIDGE-REMOTE" (
      "remote_scheme:http" ∷ "webview:javascript_enabled" ∷ "webview:javascript_interface"
      ∷ "webview:remote_constant_content" ∷ [])
    ∷ signal "WEBVIEW-UNSAFE-SETTINGS"
        ("constant_value:true" ∷ "unsafe_web_setting:javascript_enabled" ∷ [])
    ∷ []

bridge_reported : behavior_signals same http_scheme 10000 opened calls strings ≡ ok reported
unfolding behavior_signals http_scheme observe_calls constant_values observe_content observe_after
    observe_before sorted_set before
bridge_reported = refl

behavior_signals-IsExposed_example :
    (any is_bridge_signal reported ≡ true) ↔ IsExposed http_scheme strings calls
behavior_signals-IsExposed_example =
    behavior_signals-IsExposed same http_scheme 10000 strings opened calls reported bridge_reported
