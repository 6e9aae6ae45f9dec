-- ===== src/Dex/Scripts.antt =====
-- The rules of web views notice a call that enables scripts and one that adds a bridge.
use android_appsec_assessor.Prelude.{
  ◌≡◌, refl, sym, String, Bool, true, false, ◌&&◌, ◌||◌, Option, [], ◌∷◌, arith, if◌then◌else◌,
}
use android_appsec_assessor.Prelude.Text.{codes}
use android_appsec_assessor.Dex.Texts.{same_text}
use android_appsec_assessor.Dex.Registers.{Text, DexInvocation}
use android_appsec_assessor.Dex.Algorithms.{Argument, Arguments, is_int}
use android_appsec_assessor.Dex.Signals.{Observed, is_text, argument_at}
use android_appsec_assessor.Dex.WebSignals.{
  unsafe_setting, noted_if, observe_enabled, observe_web_settings, observe_bridge,
}
use android_appsec_assessor.Dex.Bridges.{sets_web, enables_scripts, adds_bridge}
use android_appsec_assessor.Dex.Lasting.{IsBridged, IsEnabled}

same_text-eq : (t u : Text) → same_text t u ≡ true → t ≡ u
unfolding same_text
same_text-eq [] [] h = refl
same_text-eq [] (d ∷ u) h = absurd (ground (arith, h))
same_text-eq (c ∷ t) [] h = absurd (ground (arith, h))
same_text-eq (c ∷ t) (d ∷ u) h =
    let first : c ≡ d = ground (arith, h) in
    let rest : t ≡ u = same_text-eq t u (ground (arith, h)) in cc

or_true : (b : Bool) → (b || true) ≡ true
or_true true = refl
or_true false = refl

and_left : (a b : Bool) → (a && b) ≡ true → a ≡ true
and_left true b h = refl
and_left false b h = h

and_right : (a b : Bool) → (a && b) ≡ true → b ≡ true
and_right true b h = h
and_right false b h = absurd (ground (arith, h))

observe_enabled-literal :
    (value : Option Argument) (s : Observed)
    → is_int 1 value ≡ true
    → IsEnabled (observe_enabled (codes "setJavaScriptEnabled") value s)
unfolding observe_enabled unsafe_setting same_text
observe_enabled-literal value s one = rw one (or_true s.javascript_enabled)

observe_enabled-IsEnabled :
    (name : Text) (value : Option Argument) (s : Observed)
    → is_text "setJavaScriptEnabled" name ≡ true
    → is_int 1 value ≡ true
    → IsEnabled (observe_enabled name value s)
observe_enabled-IsEnabled name value s on one =
    let same : codes "setJavaScriptEnabled" ≡ name = same_text-eq _ name on in
    rw (sym same) (observe_enabled-literal value s one)

noted_if-IsEnabled :
    (test : Bool) (setting value : String) (s : Observed)
    → IsEnabled s
    → IsEnabled (noted_if test setting value s)
noted_if-IsEnabled true setting value s h = h
noted_if-IsEnabled false setting value s h = h

pub web_settings-IsEnabled :
    (i : DexInvocation) (arguments : Arguments) (s : Observed)
    → enables_scripts i arguments ≡ true
    → IsEnabled (observe_web_settings i arguments s)
unfolding observe_web_settings enables_scripts
web_settings-IsEnabled i arguments s e =
    let name = i.reference.method_name in
    let value = argument_at 1 arguments in
    let on = is_text "setJavaScriptEnabled" name in
    let called : (sets_web i && on) ≡ true = and_left (sets_web i && on) (is_int 1 value) e in
    let web : sets_web i ≡ true = and_left (sets_web i) on called in
    let inner : IsEnabled (observe_enabled name value s) =
      observe_enabled-IsEnabled name value s (and_right (sets_web i) on called)
        (and_right (sets_web i && on) (is_int 1 value) e) in
    let enabled = observe_enabled name value s in
    let is_mixed = is_text "setMixedContentMode" name && is_int 0 value in
    let mixed = noted_if is_mixed "mixed_content" "always_allow" enabled in
    rw (web, observe_web_settings)
      (noted_if-IsEnabled (is_text "setSafeBrowsingEnabled" name && is_int 0 value)
        "safe_browsing_disabled" "false" mixed
        (noted_if-IsEnabled is_mixed "mixed_content" "always_allow" enabled inner))

bridged_if-IsEnabled :
    (test : Bool) (s : Observed)
    → IsEnabled s
    → IsEnabled (if test then record s { javascript_bridge = true } else s)
bridged_if-IsEnabled true s h = h
bridged_if-IsEnabled false s h = h

pub bridge-IsEnabled :
    (i : DexInvocation) (s : Observed) → IsEnabled s → IsEnabled (observe_bridge i s)
unfolding observe_bridge adds_bridge
bridge-IsEnabled i s h = bridged_if-IsEnabled (adds_bridge i) s h

pub bridge-IsBridged :
    (i : DexInvocation) (s : Observed) → adds_bridge i ≡ true → IsBridged (observe_bridge i s)
unfolding observe_bridge adds_bridge
bridge-IsBridged i s e = ground (arith, e)
