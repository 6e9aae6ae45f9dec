-- ===== src/Dex/Noticed.antt =====
-- Each of the three calls of a script bridge is noticed, wherever it stands among the calls.
use android_appsec_assessor.Prelude.{
  ℕ, ◌≡◌, inl, inr, String, Bool, true, ◌&&◌, List, [], ◌∷◌, any, ◌=ₛ◌, arith, Bool-cases,
  Option-cases,
}
use android_appsec_assessor.Errors.{Result, ok, ◌>>=◌}
use android_appsec_assessor.Scope.{is_in}
use android_appsec_assessor.Dex.Registers.{Text, DexInvocation}
use android_appsec_assessor.Dex.Tables.{Texts}
use android_appsec_assessor.Dex.Algorithms.{Arguments, strip_text}
use android_appsec_assessor.Dex.Signals.{Observed, is_text, is_any_text, text_at}
use android_appsec_assessor.Dex.CryptoSignals.{
  observe_cipher, observe_digest, observe_iterations, observe_random, observe_material,
}
use android_appsec_assessor.Dex.WebSignals.{observe_web_settings}
use android_appsec_assessor.Dex.Behavior.{
  constant_values, observe_content, observe_before, observe_after, observe_calls,
}
use android_appsec_assessor.Dex.Ends.{Ends, Ends-bind, Ends-if, Ends-ok}
use android_appsec_assessor.Dex.Bridges.{enables_scripts, adds_bridge}
use android_appsec_assessor.Dex.Keeping.{observe_before-Holds, observe_after-Holds}
use android_appsec_assessor.Dex.Exposure.{
  remote_schemes, Whatever, Ends-eq, with_arguments, is_remote, loads_remote, observe_content-Holds,
}
use android_appsec_assessor.Dex.Lasting.{
  IsBridged, IsBridged-IsLasting, IsEnabled, IsEnabled-IsLasting, IsLasting, IsLoaded,
  IsLoaded-IsLasting, end_of-two,
}
use android_appsec_assessor.Dex.Scripts.{bridge-IsBridged, bridge-IsEnabled, web_settings-IsEnabled}

module _ (upper_beyond : ℕ → Text) (url_scheme : Text → Result String) (minimum : ℕ)
    (strings : Texts) where
  -- The loop's body for one call.
  unfoldable pub observe_call : DexInvocation → Observed → Result Observed
  observe_call i s = constant_values strings i.arguments >>= λ arguments.
      (observe_content upper_beyond url_scheme minimum i arguments
          (observe_before upper_beyond url_scheme minimum i arguments s)
        >>= λ s'. ok (observe_after upper_beyond url_scheme minimum i arguments s'))

  observe_calls-cons :
      (i : DexInvocation) (calls : List DexInvocation) (s : Observed)
      → observe_calls upper_beyond url_scheme minimum strings (i ∷ calls) s ≡ (
          observe_call i s >>= λ s'. observe_calls upper_beyond url_scheme minimum strings calls s')
  unfolding observe_calls observe_call
  observe_calls-cons i calls s =
      end_of-two (constant_values strings i.arguments)
        (λ arguments.
          observe_content upper_beyond url_scheme minimum i arguments
            (observe_before upper_beyond url_scheme minimum i arguments s))
        (λ arguments s'. observe_after upper_beyond url_scheme minimum i arguments s')
        (λ s'. observe_calls upper_beyond url_scheme minimum strings calls s')

  module _ (P : Observed → Type 0) (lasting : IsLasting P) where
    before-Lasts :
        (i : DexInvocation) (arguments : Arguments) (s : Observed)
        → P s
        → P (observe_before upper_beyond url_scheme minimum i arguments s)
    before-Lasts i arguments s h =
        observe_before-Holds P lasting.kept upper_beyond url_scheme minimum i arguments s
          (λ web one t g. lasting.turned _ t g) (λ t e g. lasting.added t g) h

    content-Lasts :
        (i : DexInvocation) (arguments : Arguments) (s : Observed)
        → P s
        → Ends Whatever P (observe_content upper_beyond url_scheme minimum i arguments s)
    content-Lasts i arguments s h =
        observe_content-Holds P lasting.kept upper_beyond url_scheme minimum i arguments s
          (λ scheme loads. lasting.opened scheme s h) h

    observe_call-Lasts :
        (i : DexInvocation) (s : Observed) → P s → Ends Whatever P (observe_call i s)
    unfolding observe_call
    observe_call-Lasts i s h =
        Ends-bind (λ arguments. constant_values strings i.arguments ≡ ok arguments) P
          (constant_values strings i.arguments) _ (Ends-eq (constant_values strings i.arguments))
          (λ arguments known.
            Ends-bind P P
              (observe_content upper_beyond url_scheme minimum i arguments
                (observe_before upper_beyond url_scheme minimum i arguments s))
              _ (content-Lasts i arguments _ (before-Lasts i arguments s h))
              (λ s' g. Ends-ok P _ (
                observe_after-Holds P lasting.kept upper_beyond url_scheme minimum i arguments s'
                  g)))

    observe_calls-Lasts :
        (calls : List DexInvocation) (s : Observed)
        → P s
        → Ends Whatever P (observe_calls upper_beyond url_scheme minimum strings calls s)
    unfolding observe_calls
    observe_calls-Lasts [] s h = Ends-ok P s h
    observe_calls-Lasts (i ∷ calls) s h = rw (observe_calls-cons i calls s) (
        Ends-bind P P (observe_call i s) _ (observe_call-Lasts i s h)
          (λ s' g. observe_calls-Lasts calls s' g))

    -- A call that shows the property is noticed, wherever it stands.
    pub observe_calls-notice :
        (test : DexInvocation → Bool)
        → ((i : DexInvocation) (s : Observed) → test i ≡ true → Ends Whatever P (observe_call i s))
        → (calls : List DexInvocation) (s : Observed) → any test calls ≡ true
        → Ends Whatever P (observe_calls upper_beyond url_scheme minimum strings calls s)
    observe_calls-notice test notices [] s e = absurd (ground (arith, e))
    observe_calls-notice test notices (i ∷ calls) s e =
        rw (observe_calls-cons i calls s) (elim (Bool-cases (test i)) [
          | inl shows ↦
              Ends-bind P P (observe_call i s) _ (notices i s shows)
                (λ s' g. observe_calls-Lasts calls s' g)
          | inr other ↦
              Ends-bind (λ s'. observe_call i s ≡ ok s') P (observe_call i s) _
                (Ends-eq (observe_call i s))
                (λ s' g. observe_calls-notice test notices calls s' (ground (arith, e, other)))
        ])

  -- What was seen before the rules of web views.
  abbrev calls_before : DexInvocation → Arguments → Observed → Observed
  calls_before i arguments s = observe_material i (
      observe_random i (
        observe_iterations minimum i arguments
          (observe_digest upper_beyond i arguments (observe_cipher upper_beyond i arguments s))))

  before-IsEnabled :
      (i : DexInvocation) (arguments : Arguments) (s : Observed)
      → enables_scripts i arguments ≡ true
      → IsEnabled (observe_before upper_beyond url_scheme minimum i arguments s)
  unfolding observe_before
  before-IsEnabled i arguments s e =
      let t = calls_before i arguments s in
      bridge-IsEnabled i (observe_web_settings i arguments t)
        (web_settings-IsEnabled i arguments t e)

  before-IsBridged :
      (i : DexInvocation) (arguments : Arguments) (s : Observed)
      → adds_bridge i ≡ true
      → IsBridged (observe_before upper_beyond url_scheme minimum i arguments s)
  unfolding observe_before
  before-IsBridged i arguments s e =
      bridge-IsBridged i (observe_web_settings i arguments (calls_before i arguments s)) e

  content-IsLoaded :
      (i : DexInvocation) (arguments : Arguments) (s : Observed)
      → loads_remote url_scheme i arguments ≡ true
      → Ends Whatever IsLoaded (observe_content upper_beyond url_scheme minimum i arguments s)
  unfolding observe_content loads_remote is_remote
  content-IsLoaded i arguments s e = elim (Option-cases (text_at 1 arguments)) [
    | inl f ↦ absurd (ground (arith, e, f))
    | inr (url, f) ↦
        rw (f, observe_content)
          (Ends-if IsLoaded
            (is_text "Landroid/webkit/WebView;" i.reference.class_descriptor
              && is_any_text ("loadUrl" ∷ "loadDataWithBaseURL" ∷ []) i.reference.method_name
              && (i.invoke_kind =ₛ "virtual"))
            _ _
            (λ g.
              Ends-bind (λ scheme. url_scheme (strip_text url) ≡ ok scheme) IsLoaded
                (url_scheme (strip_text url)) _ (Ends-eq (url_scheme (strip_text url)))
                (λ scheme known.
                  let remote : is_in scheme remote_schemes ≡ true =
                    ground (arith, e, f, g, known) in
                  Ends-ok IsLoaded _ (rw remote (omega arith))))
            (λ g. absurd (ground (arith, e, f, g))))
  ]

  pub scripts-notice :
      (i : DexInvocation) (s : Observed)
      → with_arguments strings enables_scripts i ≡ true
      → Ends Whatever IsEnabled (observe_call i s)
  unfolding observe_call with_arguments
  scripts-notice i s e =
      Ends-bind (λ arguments. constant_values strings i.arguments ≡ ok arguments) IsEnabled
        (constant_values strings i.arguments) _ (Ends-eq (constant_values strings i.arguments))
        (λ arguments known.
          let enables : enables_scripts i arguments ≡ true = ground (arith, e, known) in
          Ends-bind IsEnabled IsEnabled
            (observe_content upper_beyond url_scheme minimum i arguments
              (observe_before upper_beyond url_scheme minimum i arguments s))
            _
            (content-Lasts IsEnabled IsEnabled-IsLasting i arguments _
              (before-IsEnabled i arguments s enables))
            (λ s' g. Ends-ok IsEnabled _ (
              observe_after-Holds IsEnabled IsEnabled-IsLasting.kept upper_beyond url_scheme minimum
                i arguments s' g)))

  pub bridge-notice :
      (i : DexInvocation) (s : Observed)
      → adds_bridge i ≡ true
      → Ends Whatever IsBridged (observe_call i s)
  unfolding observe_call
  bridge-notice i s e =
      Ends-bind (λ arguments. constant_values strings i.arguments ≡ ok arguments) IsBridged
        (constant_values strings i.arguments) _ (Ends-eq (constant_values strings i.arguments))
        (λ arguments known.
          Ends-bind IsBridged IsBridged
            (observe_content upper_beyond url_scheme minimum i arguments
              (observe_before upper_beyond url_scheme minimum i arguments s))
            _
            (content-Lasts IsBridged IsBridged-IsLasting i arguments _
              (before-IsBridged i arguments s e))
            (λ s' g. Ends-ok IsBridged _ (
              observe_after-Holds IsBridged IsBridged-IsLasting.kept upper_beyond url_scheme minimum
                i arguments s' g)))

  pub page-notice :
      (i : DexInvocation) (s : Observed)
      → with_arguments strings (loads_remote url_scheme) i ≡ true
      → Ends Whatever IsLoaded (observe_call i s)
  unfolding observe_call with_arguments
  page-notice i s e =
      Ends-bind (λ arguments. constant_values strings i.arguments ≡ ok arguments) IsLoaded
        (constant_values strings i.arguments) _ (Ends-eq (constant_values strings i.arguments))
        (λ arguments known.
          let loads : loads_remote url_scheme i arguments ≡ true = ground (arith, e, known) in
          Ends-bind IsLoaded IsLoaded
            (observe_content upper_beyond url_scheme minimum i arguments
              (observe_before upper_beyond url_scheme minimum i arguments s))
            _ (content-IsLoaded i arguments _ loads)
            (λ s' g. Ends-ok IsLoaded _ (
              observe_after-Holds IsLoaded IsLoaded-IsLasting.kept upper_beyond url_scheme minimum i
                arguments s' g)))
