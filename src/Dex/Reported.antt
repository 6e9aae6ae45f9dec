-- ===== src/Dex/Reported.antt =====
-- The report of a script bridge that remote pages reach, as the calls of the method have it.
use android_appsec_assessor.Prelude.{
  ℕ, ◌≡◌, refl, ◌∙◌, sym, ◌↔◌, String, true, List, [], ◌∷◌, any, All, arith,
}
use android_appsec_assessor.Errors.{Result, ok}
use android_appsec_assessor.Dex.Registers.{Text, DexInvocation, DexMethodReference}
use android_appsec_assessor.Dex.Tables.{Texts}
use android_appsec_assessor.Dex.Signals.{DexBehaviorSignal}
use android_appsec_assessor.Dex.Behavior.{
  observe_calls, correlate_calls, sort_rules, behavior_signals, nothing_observed,
}
use android_appsec_assessor.Dex.Ends.{Ends, returned, Ends-bind, Ends-ok}
use android_appsec_assessor.Dex.Bridges.{has_bridge_rule, enables_scripts, adds_bridge}
use android_appsec_assessor.Dex.Lasting.{
  IsEnabled, IsBridged, IsLoaded, IsEnabled-IsLasting, IsBridged-IsLasting, IsLoaded-IsLasting,
}
use android_appsec_assessor.Dex.Noticed.{
  observe_calls-notice, scripts-notice, bridge-notice, page-notice,
}
use android_appsec_assessor.Dex.Exposure.{
  Ends-eq, Whatever, with_arguments, loads_remote, Founded, Shows, observe_calls-Founded,
}
use android_appsec_assessor.Dex.Detection.{
  any-signal_of, any-sort_rules, correlate_calls-Founded, correlate_calls_complete,
  is_bridge_signal,
}

-- The calls of a method that its report rests on.
pub record IsExposed (url_scheme : Text → Result String) (strings : Texts)
    (calls : List DexInvocation) : Type 0 where
  pub scripts : any (with_arguments strings enables_scripts) calls ≡ true
  pub bridge : any adds_bridge calls ≡ true
  pub page : any (with_arguments strings (loads_remote url_scheme)) calls ≡ true

-- What holds of a result that has returned.
of_result : {A : Type 0} {P : A → Type 0} (a : A) → Ends Whatever P (ok a) → P a
of_result _ (returned a h) = h

module _ (upper_beyond : ℕ → Text) (url_scheme : Text → Result String) (minimum : ℕ)
    (strings : Texts) where
  All-Shows :
      (IsEnabled IsBridged IsLoaded : Type 0) (calls : List DexInvocation)
      → (any (with_arguments strings enables_scripts) calls ≡ true → IsEnabled)
      → (any adds_bridge calls ≡ true → IsBridged)
      → (any (with_arguments strings (loads_remote url_scheme)) calls ≡ true → IsLoaded)
      → All (Shows upper_beyond url_scheme minimum strings IsEnabled IsBridged IsLoaded) calls
  All-Shows IsEnabled IsBridged IsLoaded [] f g k = tt
  All-Shows IsEnabled IsBridged IsLoaded (i ∷ calls) f g k = (
    record {
      scripts = λ e. f (ground (arith, e));
      bridge = λ e. g (ground (arith, e));
      page = λ e. k (ground (arith, e));
    },
    All-Shows IsEnabled IsBridged IsLoaded calls (λ e. f (ground (arith, e)))
        (λ e. g (ground (arith, e))) (λ e. k (ground (arith, e))),
  )

  -- What a list of signals says.
  abbrev IsTrue : List DexInvocation → List DexBehaviorSignal → Type 0
  IsTrue calls signals = any is_bridge_signal signals ≡ true → IsExposed url_scheme strings calls

  behavior_signals-IsTrue :
      (caller : DexMethodReference) (calls : List DexInvocation)
      → Ends Whatever
          (IsTrue calls)
          (behavior_signals upper_beyond url_scheme minimum caller calls strings)
  unfolding behavior_signals
  behavior_signals-IsTrue caller calls =
      let scripts = any (with_arguments strings enables_scripts) calls ≡ true in
      let bridge = any adds_bridge calls ≡ true in
      let page = any (with_arguments strings (loads_remote url_scheme)) calls ≡ true in
      let founded = Founded upper_beyond url_scheme minimum strings scripts bridge page in
      Ends-bind founded (IsTrue calls)
        (observe_calls upper_beyond url_scheme minimum strings calls nothing_observed) _
        (observe_calls-Founded upper_beyond url_scheme minimum strings scripts bridge page calls
          nothing_observed (All-Shows scripts bridge page calls (λ e. e) (λ e. e) (λ e. e))
          (record {
            enabled = λ e. absurd (ground (arith, e));
            bridged = λ e. absurd (ground (arith, e));
            loaded = λ scheme rest e. absurd (ground (arith, e));
            undetected = refl;
          }))
        (λ s h. Ends-ok (IsTrue calls) _ (λ e.
          let detected : any has_bridge_rule (correlate_calls s) ≡ true =
            sym (any-sort_rules (correlate_calls s))
            ∙ sym (any-signal_of caller (sort_rules (correlate_calls s)))
            ∙ e in
          let (a, b, c) = correlate_calls-Founded scripts bridge page s h detected in
          record { scripts = a; bridge = b; page = c }))

  -- A list of signals that lacks none for the bridge.
  abbrev IsComplete : List DexInvocation → List DexBehaviorSignal → Type 0
  IsComplete calls signals =
      IsExposed url_scheme strings calls → any is_bridge_signal signals ≡ true

  behavior_signals-IsComplete :
      (caller : DexMethodReference) (calls : List DexInvocation)
      → Ends Whatever
          (IsComplete calls)
          (behavior_signals upper_beyond url_scheme minimum caller calls strings)
  unfolding behavior_signals
  behavior_signals-IsComplete caller calls =
      let result = observe_calls upper_beyond url_scheme minimum strings calls nothing_observed in
      Ends-bind (λ s. result ≡ ok s) (IsComplete calls) result _ (Ends-eq result)
        (λ s known. Ends-ok (IsComplete calls) _ (λ exposed.
          let scripts =
            observe_calls-notice upper_beyond url_scheme minimum strings IsEnabled
              IsEnabled-IsLasting _ (scripts-notice upper_beyond url_scheme minimum strings) calls
              nothing_observed exposed.scripts in
          let bridge =
            observe_calls-notice upper_beyond url_scheme minimum strings IsBridged
              IsBridged-IsLasting _ (bridge-notice upper_beyond url_scheme minimum strings) calls
              nothing_observed exposed.bridge in
          let page =
            observe_calls-notice upper_beyond url_scheme minimum strings IsLoaded IsLoaded-IsLasting
              _ (page-notice upper_beyond url_scheme minimum strings) calls nothing_observed
              exposed.page in
          let detected =
            correlate_calls_complete s (of_result s (rw known at scripts))
              (of_result s (rw known at bridge)) (of_result s (rw known at page)) in
          any-signal_of caller (sort_rules (correlate_calls s))
          ∙ any-sort_rules (correlate_calls s)
          ∙ detected))

  -- The signals of a method have one of the rule `WEBVIEW-JS-BRIDGE-REMOTE` exactly when the method makes
  -- the three calls that the rule stands for, in whichever order and among whichever others: it enables
  -- scripts with a constant, adds a script interface to a web view, and loads a constant URL whose
  -- scheme, as `urlsplit` answers, is a remote one.
  pub behavior_signals-IsExposed :
      (caller : DexMethodReference) (calls : List DexInvocation) (signals : List DexBehaviorSignal)
      → behavior_signals upper_beyond url_scheme minimum caller calls strings ≡ ok signals
      → ((any is_bridge_signal signals ≡ true) ↔ IsExposed url_scheme strings calls)
  behavior_signals-IsExposed caller calls signals e =
      let sound = behavior_signals-IsTrue caller calls in
      let complete = behavior_signals-IsComplete caller calls in
      (of_result signals (rw e at sound), of_result signals (rw e at complete))
