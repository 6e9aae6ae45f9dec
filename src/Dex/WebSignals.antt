-- ===== src/Dex/WebSignals.antt =====
-- The rules of web views in `_behavior_signals_for_method` of android_assessor/static_apk_analysis.py,
-- but for the one that reads a URL.
use android_appsec_assessor.Prelude.{
  String, ◌<>◌, Bool, true, ◌&&◌, ◌||◌, Option, none, some, [], ◌∷◌, ◌=ₛ◌, if◌then◌else◌,
}
use android_appsec_assessor.Dex.Registers.{Text, DexInvocation}
use android_appsec_assessor.Dex.Texts.{same_text}
use android_appsec_assessor.Dex.Algorithms.{Argument, Arguments, is_int}
use android_appsec_assessor.Dex.Signals.{Observed, argument_at, is_text, note, record_rule}

-- `unsafe_true.get(method_name)`
unfoldable pub unsafe_setting : Text → Option String
unfolding same_text
unsafe_setting name =
    if is_text "setAllowContentAccess" name
    then some "content_access"
    else if is_text "setAllowFileAccess" name
    then some "file_access"
    else if is_text "setAllowFileAccessFromFileURLs" name
    then some "file_url_access"
    else if is_text "setAllowUniversalAccessFromFileURLs" name
    then some "universal_file_url_access"
    else if is_text "setGeolocationEnabled" name
    then some "geolocation"
    else if is_text "setJavaScriptCanOpenWindowsAutomatically" name
    then some "javascript_windows"
    else if is_text "setJavaScriptEnabled" name
    then some "javascript_enabled"
    else none

abbrev pub unsafe_settings : String → String → Observed → Observed
unsafe_settings setting value s =
    note "WEBVIEW-UNSAFE-SETTINGS" "high"
      (("unsafe_web_setting:" <> setting) ∷ ("constant_value:" <> value) ∷ []) s

unfoldable pub observe_enabled : Text → Option Argument → Observed → Observed
unfolding unsafe_setting is_int record_rule same_text
observe_enabled method_name value s = elim (unsafe_setting method_name) [
  | none ↦ s
  | some setting ↦
      if is_int 1 value
      then record (unsafe_settings setting "true" s) {
        javascript_enabled = s.javascript_enabled || is_text "setJavaScriptEnabled" method_name;
      }
      else s
]

abbrev pub noted_if : Bool → String → String → Observed → Observed
noted_if test setting value s = if test then unsafe_settings setting value s else s

unfoldable pub observe_web_settings : DexInvocation → Arguments → Observed → Observed
unfolding observe_enabled argument_at is_int record_rule same_text
observe_web_settings i arguments s =
    let name = i.reference.method_name in
    let value = argument_at 1 arguments in
    if is_text "Landroid/webkit/WebSettings;" i.reference.class_descriptor
      && (i.invoke_kind =ₛ "virtual")
    then noted_if (is_text "setSafeBrowsingEnabled" name && is_int 0 value) "safe_browsing_disabled"
        "false"
        (noted_if (is_text "setMixedContentMode" name && is_int 0 value) "mixed_content"
          "always_allow" (observe_enabled name value s))
    else s

unfoldable pub observe_bridge : DexInvocation → Observed → Observed
unfolding same_text
observe_bridge i s =
    if is_text "Landroid/webkit/WebView;" i.reference.class_descriptor
      && is_text "addJavascriptInterface" i.reference.method_name
      && (i.invoke_kind =ₛ "virtual")
      && is_text "(Ljava/lang/Object;Ljava/lang/String;)V" i.reference.prototype
    then record s { javascript_bridge = true }
    else s

unfoldable pub observe_ssl_error : DexInvocation → Observed → Observed
unfolding same_text record_rule
observe_ssl_error i s =
    if is_text "Landroid/webkit/SslErrorHandler;" i.reference.class_descriptor
      && is_text "proceed" i.reference.method_name
      && is_text "()V" i.reference.prototype
      && (i.invoke_kind =ₛ "virtual")
    then note "WEBVIEW-SSL-ERROR-PROCEED" "high" ("ssl_error_action:proceed" ∷ []) s
    else s
