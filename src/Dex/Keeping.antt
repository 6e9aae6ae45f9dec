-- ===== src/Dex/Keeping.antt =====
-- What the rules of web views, and all the rules of one call, keep.
use android_appsec_assessor.Prelude.{
  ℕ, ◌≡◌, refl, inl, inr, String, Bool, true, ◌&&◌, ◌||◌, Option, Option-cases,
}
use android_appsec_assessor.Dex.Registers.{Text, DexInvocation}
use android_appsec_assessor.Dex.Algorithms.{Argument, Arguments, is_int}
use android_appsec_assessor.Dex.Signals.{Observed, is_text, argument_at}
use android_appsec_assessor.Dex.WebSignals.{
  unsafe_setting, observe_enabled, observe_web_settings, observe_bridge, noted_if, unsafe_settings,
}
use android_appsec_assessor.Errors.{Result}
use android_appsec_assessor.Dex.Behavior.{observe_before, observe_after}
use android_appsec_assessor.Dex.Bridges.{
  sets_web, adds_bridge, IsKept, Holds-if, Holds-note, Holds-cipher, Holds-digest, Holds-iterations,
  Holds-random, Holds-observe_material, Holds-ssl_error, Holds-dynamic_code, Holds-deserialization,
  Holds-storage,
}

module _ (P : Observed → Type 0) (kept : IsKept P) where
  abbrev Holds : Observed → Type 0
  Holds s = P s

  Holds-noted_if :
      (test : Bool) (setting value : String) (s : Observed)
      → Holds s
      → Holds (noted_if test setting value s)
  Holds-noted_if test setting value s h = search (Holds-if P kept, Holds-note P kept)

  -- What turning scripts on keeps.
  abbrev pub KeepsScripts : Bool → Type 0
  KeepsScripts on =
      (s : Observed)
      → Holds s
      → Holds (record s { javascript_enabled = s.javascript_enabled || on })

  Holds-enabled :
      (name : Text) (value : Option Argument) (s : Observed)
      → (is_int 1 value ≡ true → KeepsScripts (is_text "setJavaScriptEnabled" name))
      → Holds s
      → Holds (observe_enabled name value s)
  unfolding observe_enabled
  Holds-enabled name value s turned h = elim (Option-cases (unsafe_setting name)) [
    | inl e ↦ rw (e, observe_enabled) h
    | inr (setting, e) ↦
        rw (e, observe_enabled)
          (Holds-if P kept (is_int 1 value) _ _
            (λ one.
              turned one (unsafe_settings setting "true" s) (Holds-note P kept _ _ _ s refl h))
            (λ f. h))
  ]

  pub Holds-web_settings :
      (i : DexInvocation) (arguments : Arguments) (s : Observed)
      → (sets_web i ≡ true
          → is_int 1 (argument_at 1 arguments) ≡ true
          → KeepsScripts (is_text "setJavaScriptEnabled" i.reference.method_name))
      → Holds s
      → Holds (observe_web_settings i arguments s)
  unfolding observe_web_settings
  Holds-web_settings i arguments s turned h =
      Holds-if P kept (sets_web i) _ _
        (λ e.
          let name = i.reference.method_name in
          let value = argument_at 1 arguments in
          Holds-noted_if (is_text "setSafeBrowsingEnabled" name && is_int 0 value)
            "safe_browsing_disabled" "false" _
            (Holds-noted_if (is_text "setMixedContentMode" name && is_int 0 value) "mixed_content"
              "always_allow" _ (Holds-enabled name value s (turned e) h)))
        (λ e. h)

  pub Holds-bridge :
      (i : DexInvocation) (s : Observed)
      → (adds_bridge i ≡ true → Holds (record s { javascript_bridge = true }))
      → Holds s
      → Holds (observe_bridge i s)
  unfolding observe_bridge adds_bridge
  Holds-bridge i s added h = Holds-if P kept (adds_bridge i) _ _ added (λ e. h)

  module _ (upper_beyond : ℕ → Text) (url_scheme : Text → Result String) (minimum : ℕ) where
    pub observe_before-Holds :
        (i : DexInvocation) (arguments : Arguments) (s : Observed)
        → (sets_web i ≡ true
            → is_int 1 (argument_at 1 arguments) ≡ true
            → KeepsScripts (is_text "setJavaScriptEnabled" i.reference.method_name))
        → ((t : Observed)
            → adds_bridge i ≡ true
            → Holds t
            → Holds (record t { javascript_bridge = true }))
        → Holds s
        → Holds (observe_before upper_beyond url_scheme minimum i arguments s)
    unfolding observe_before
    observe_before-Holds i arguments s turned added h =
        let random = Holds-random P kept i _ (
          Holds-iterations P kept minimum i arguments _ (
            Holds-digest P kept upper_beyond i arguments _
              (Holds-cipher P kept upper_beyond i arguments s h))) in
        let web =
          Holds-web_settings i arguments _ turned (Holds-observe_material P kept i _ random) in
        Holds-bridge i _ (λ e. added _ e web) web

    pub observe_after-Holds :
        (i : DexInvocation) (arguments : Arguments) (s : Observed)
        → Holds s
        → Holds (observe_after upper_beyond url_scheme minimum i arguments s)
    unfolding observe_after
    observe_after-Holds i arguments s h = Holds-storage P kept i arguments _ (
        Holds-deserialization P kept i _
          (Holds-dynamic_code P kept i _ (Holds-ssl_error P kept i s h)))
