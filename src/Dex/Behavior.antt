-- ===== src/Dex/Behavior.antt =====
-- The signals of a method and `_parse_dex_behavior` of android_assessor/static_apk_analysis.py.
use android_appsec_assessor.Prelude.{
  ℕ, ◌+◌, String, ◌<>◌, Bool, true, false, ◌&&◌, Option, none, some, List, [], ◌∷◌, ◌++◌, any, map,
  length, ltb, leb, ◌=ₛ◌, if◌then◌else◌,
}
use android_appsec_assessor.Prelude.Case.{before, sorted_set}
use android_appsec_assessor.Errors.{Result, ok, ◌>>=◌}
use android_appsec_assessor.Scope.{is_in}
use android_appsec_assessor.Dex.Registers.{
  Text, DexConstant, DexMethodReference, DexInvocation, Scanned,
}
use android_appsec_assessor.Dex.Policy.{StaticApkPolicy}
use android_appsec_assessor.Dex.Texts.{same_text}
use android_appsec_assessor.Dex.Tables.{Texts}
use android_appsec_assessor.Dex.Algorithms.{Arguments, constant_value, strip_text}
use android_appsec_assessor.Dex.Signals.{
  DexBehaviorSignal, Detected, record_rule, Observed, is_text, is_any_text, text_at,
}
use android_appsec_assessor.Dex.CryptoSignals.{
  observe_cipher, observe_digest, observe_iterations, observe_random, observe_material,
}
use android_appsec_assessor.Dex.WebSignals.{observe_web_settings, observe_bridge, observe_ssl_error}
use android_appsec_assessor.Dex.CodeSignals.{
  observe_dynamic_code, observe_deserialization, observe_storage,
}

unfoldable pub constant_values : Texts → List (Option DexConstant) → Result Arguments
unfolding constant_value
constant_values strings [] = ok []
constant_values strings (c ∷ cs) =
    let rest = constant_values strings cs in
    constant_value strings c >>= λ value. (rest >>= λ values. ok (value ∷ values))

-- A detected rule in the list sorted by rule.
unfoldable pub insert_rule : Detected → List Detected → List Detected
insert_rule d [] = d ∷ []
insert_rule d (e ∷ es) =
    let later = e ∷ insert_rule d es in if before e.rule_id d.rule_id then later else d ∷ e ∷ es

unfoldable pub sort_rules : List Detected → List Detected
unfolding insert_rule
sort_rules [] = []
sort_rules (d ∷ ds) = insert_rule d (sort_rules ds)

-- The signal of a detected rule.
unfoldable pub signal_of : DexMethodReference → Detected → DexBehaviorSignal
signal_of caller d = record {
  rule_id = d.rule_id;
  confidence = d.confidence;
  caller_class_descriptor = caller.class_descriptor;
  caller_method_name = caller.method_name;
  caller_prototype = caller.prototype;
  indicators = sorted_set before d.indicators;
}

-- The rules that correlate several calls.
unfoldable pub correlate_calls : Observed → List Detected
unfolding record_rule
correlate_calls s =
    let material =
      map (λ m. "crypto_material:" <> m) (sorted_set before s.correlated_crypto_material) in
    let schemes = map (λ m. "remote_scheme:" <> m) (sorted_set before s.remote_web_content) in
    let random =
      if ltb 0 (length material)
      then record_rule "CRYPTO-PREDICTABLE-RANDOM" "medium"
          ("random_api:java_util_random_next_bytes" ∷ "correlation:same_register" ∷ material)
          s.detected
      else s.detected in
    if s.javascript_enabled && s.javascript_bridge && ltb 0 (length schemes)
    then record_rule "WEBVIEW-JS-BRIDGE-REMOTE" "high"
        ("webview:javascript_enabled" ∷ "webview:javascript_interface"
          ∷ "webview:remote_constant_content" ∷ schemes)
        random
    else random

abbrev pub nothing_observed : Observed
nothing_observed = record {
  detected = [];
  random_material_generations = [];
  correlated_crypto_material = [];
  javascript_enabled = false;
  javascript_bridge = false;
  remote_web_content = [];
}

module _ (upper_beyond : ℕ → Text) (url_scheme : Text → Result String)
    (min_pbe_iterations : ℕ) where
  -- `_is_remote_url` of the argument of a call that loads a page
  unfoldable pub observe_content : DexInvocation → Arguments → Observed → Result Observed
  unfolding same_text text_at strip_text
  observe_content i arguments s = elim (text_at 1 arguments) [
    | none ↦ ok s
    | some url ↦
        if is_text "Landroid/webkit/WebView;" i.reference.class_descriptor
          && is_any_text ("loadUrl" ∷ "loadDataWithBaseURL" ∷ []) i.reference.method_name
          && (i.invoke_kind =ₛ "virtual")
        then (url_scheme (strip_text url) >>= λ scheme. ok (
            if is_in scheme ("http" ∷ "https" ∷ "ws" ∷ "wss" ∷ [])
            then record s { remote_web_content = scheme ∷ s.remote_web_content }
            else s))
        else ok s
  ]

  -- The rules before the one that reads a URL, and those after it.
  unfoldable pub observe_before : DexInvocation → Arguments → Observed → Observed
  unfolding observe_cipher observe_digest observe_iterations observe_random observe_material
      observe_web_settings observe_bridge
  observe_before i arguments s = observe_bridge i (
      observe_web_settings i arguments (
        observe_material i (
          observe_random i (
            observe_iterations min_pbe_iterations i arguments (
              observe_digest upper_beyond i arguments
                (observe_cipher upper_beyond i arguments s))))))

  unfoldable pub observe_after : DexInvocation → Arguments → Observed → Observed
  unfolding observe_ssl_error observe_dynamic_code observe_deserialization observe_storage
  observe_after i arguments s =
      observe_storage i arguments
        (observe_deserialization i (observe_dynamic_code i (observe_ssl_error i s)))

  -- The loop over the calls of a method.
  unfoldable pub observe_calls : Texts → List DexInvocation → Observed → Result Observed
  observe_calls strings [] s = ok s
  observe_calls strings (i ∷ calls) s =
      let next = λ (s' : Observed). observe_calls strings calls s' in
      constant_values strings i.arguments >>= λ arguments.
      (observe_content i arguments (observe_before i arguments s) >>= λ s'.
      next (observe_after i arguments s'))

  -- `_behavior_signals_for_method`
  unfoldable pub behavior_signals :
      DexMethodReference → List DexInvocation → Texts → Result (List DexBehaviorSignal)
  unfolding correlate_calls sort_rules signal_of
  behavior_signals caller calls strings = observe_calls strings calls nothing_observed >>= λ s.
      ok (map (signal_of caller) (sort_rules (correlate_calls s)))

-- The variables of `_parse_dex_behavior` and its metrics.
pub record Behavior : Type 0 where
  pub limitations : List String
  pub methods_scanned : ℕ
  pub code_units_scanned : ℕ
  pub invocations_scanned : ℕ
  pub encoded_methods_seen : ℕ
  pub encoded_members_seen : ℕ
  pub signals : List DexBehaviorSignal

unfoldable pub limit : String → Behavior → Behavior
limit name b =
    if is_in name b.limitations then b else record b { limitations = b.limitations ++ (name ∷ []) }

abbrev pub limit_if : Bool → String → Behavior → Behavior
limit_if test name b = if test then limit name b else b

unfoldable pub same_indicators : List String → List String → Bool
same_indicators [] [] = true
same_indicators (x ∷ xs) (y ∷ ys) = (x =ₛ y) && same_indicators xs ys
same_indicators _ _ = false

-- The equality of the keys of two signals; the confidence is no part of a key.
unfoldable pub same_signal : DexBehaviorSignal → DexBehaviorSignal → Bool
unfolding same_text same_indicators
same_signal a b =
    (a.rule_id =ₛ b.rule_id)
    && same_text a.caller_class_descriptor b.caller_class_descriptor
    && same_text a.caller_method_name b.caller_method_name
    && same_text a.caller_prototype b.caller_prototype
    && same_indicators a.indicators b.indicators

module _ (limits : StaticApkPolicy) where
  unfoldable pub add_signal : DexBehaviorSignal → Behavior → Behavior
  unfolding same_signal limit
  add_signal signal b =
      if any (same_signal signal) b.signals
      then b
      else if leb limits.max_static_behavior_candidates (length b.signals)
      then limit "static_behavior_candidates" b
      else record b { signals = b.signals ++ (signal ∷ []) }

  unfoldable pub add_signals : List DexBehaviorSignal → Behavior → Behavior
  unfolding add_signal
  add_signals [] b = b
  add_signals (signal ∷ signals) b = add_signals signals (add_signal signal b)

  -- What a scan adds to the metrics.
  unfoldable pub add_scan : Scanned → Behavior → Behavior
  unfolding limit
  add_scan r b = limit_if r.limited "dex_invocations" (
      limit_if r.unsupported "dex_behavior_unsupported_opcode" (record b {
        methods_scanned = b.methods_scanned + 1;
        code_units_scanned = b.code_units_scanned + r.offset;
        invocations_scanned = b.invocations_scanned + length r.invocations;
      }))
