-- ===== src/Dex/Exposure.antt =====
-- A method that is reported for a script bridge that remote pages reach makes the calls that expose it.
use android_appsec_assessor.Prelude.{
  ℕ, ◌≡◌, refl, inl, inr, String, Bool, true, false, ◌&&◌, none, some, List, [], ◌∷◌, All, ◌=ₛ◌,
  arith, Option-cases,
}
use android_appsec_assessor.Errors.{ErrorKind, Result, ok, err}
use android_appsec_assessor.Scope.{is_in}
use android_appsec_assessor.Dex.Registers.{Text, DexInvocation}
use android_appsec_assessor.Dex.Tables.{Texts}
use android_appsec_assessor.Dex.Algorithms.{Arguments, strip_text}
use android_appsec_assessor.Dex.Signals.{Observed, is_text, is_any_text, text_at}
use android_appsec_assessor.Dex.Behavior.{
  constant_values, observe_content, observe_before, observe_calls,
}
use android_appsec_assessor.Dex.Ends.{Ends, returned, raised, Ends-bind, Ends-if, Ends-ok}
use android_appsec_assessor.Dex.Bridges.{
  bridge_rule, has_bridge_rule, enables_scripts, adds_bridge, IsKept, Holds-if,
}
use android_appsec_assessor.Dex.Keeping.{observe_before-Holds, observe_after-Holds}
use android_appsec_assessor.Dex.Signals.{record_rule}
use android_appsec_assessor.Prelude.{◌=ₛ◌, any, Bool-cases, inl, inr}
use android_appsec_assessor.Dex.Signals.{Detected}

-- What was seen of scripts, bridges and pages is true of the calls, and the rule is not detected yet.
pub record IsFounded (Enabled Bridged Loaded : Type 0) (s : Observed) : Type 0 where
  pub enabled : s.javascript_enabled ≡ true → Enabled
  pub bridged : s.javascript_bridge ≡ true → Bridged
  pub loaded :
      (scheme : String) (rest : List String) → s.remote_web_content ≡ scheme ∷ rest → Loaded
  pub undetected : any has_bridge_rule s.detected ≡ false

pub any-record_rule :
    (rule confidence : String) (indicators : List String) (detected : List Detected)
    → (rule =ₛ bridge_rule) ≡ false
    → any has_bridge_rule detected ≡ false
    → any has_bridge_rule (record_rule rule confidence indicators detected) ≡ false
unfolding record_rule
any-record_rule rule confidence indicators [] other h = ground (arith, other)
any-record_rule rule confidence indicators (d ∷ detected) other h =
    elim (Bool-cases (d.rule_id =ₛ rule)) [
      | inl same ↦ ground (arith, same, h)
      | inr new ↦
          let rest =
            any-record_rule rule confidence indicators detected other (ground (arith, h)) in
          ground (arith, new, h, rest)
    ]

IsFounded-IsKept : (Enabled Bridged Loaded : Type 0) → IsKept (IsFounded Enabled Bridged Loaded)
IsFounded-IsKept Enabled Bridged Loaded = record {
  noted = λ rule confidence indicators s other h. record {
    enabled = h.enabled;
    bridged = h.bridged;
    loaded = h.loaded;
    undetected = any-record_rule rule confidence indicators s.detected other h.undetected;
  };
  filled = λ generations s h. record {
    enabled = h.enabled;
    bridged = h.bridged;
    loaded = h.loaded;
    undetected = h.undetected;
  };
  correlated = λ material s h. record {
    enabled = h.enabled;
    bridged = h.bridged;
    loaded = h.loaded;
    undetected = h.undetected;
  };
}

-- Whatever a result is, where it returns.
abbrev pub Whatever : ErrorKind → Type 0
Whatever k = Unit

pub Ends-eq : {A : Type 0} (r : Result A) → Ends Whatever (λ a. r ≡ ok a) r
Ends-eq (ok a) = returned a refl
Ends-eq (err e) = raised e tt

-- A test of a call and its constant arguments.
unfoldable pub with_arguments : Texts → (DexInvocation → Arguments → Bool) → DexInvocation → Bool
with_arguments strings test i = elim (constant_values strings i.arguments) as (λ x. Bool) [
  | ok arguments ↦ test i arguments
  | err e ↦ false
]

abbrev pub remote_schemes : List String
remote_schemes = "http" ∷ "https" ∷ "ws" ∷ "wss" ∷ []

unfoldable pub is_remote : (Text → Result String) → Text → Bool
is_remote url_scheme url = elim (url_scheme (strip_text url)) as (λ x. Bool) [
  | ok scheme ↦ is_in scheme remote_schemes
  | err e ↦ false
]

-- A call of `WebView.loadUrl` or `loadDataWithBaseURL` with a constant remote URL.
unfoldable pub loads_remote : (Text → Result String) → DexInvocation → Arguments → Bool
loads_remote url_scheme i arguments = elim (text_at 1 arguments) [
  | none ↦ false
  | some url ↦
      is_text "Landroid/webkit/WebView;" i.reference.class_descriptor
      && is_any_text ("loadUrl" ∷ "loadDataWithBaseURL" ∷ []) i.reference.method_name
      && (i.invoke_kind =ₛ "virtual")
      && is_remote url_scheme url
]

-- What loading a page keeps.
module _ (P : Observed → Type 0) (kept : IsKept P) (upper_beyond : ℕ → Text)
    (url_scheme : Text → Result String) (minimum : ℕ) where
  pub observe_content-Holds :
      (i : DexInvocation) (arguments : Arguments) (s : Observed)
      → ((scheme : String)
          → loads_remote url_scheme i arguments ≡ true
          → P (record s { remote_web_content = scheme ∷ s.remote_web_content }))
      → P s
      → Ends Whatever P (observe_content upper_beyond url_scheme minimum i arguments s)
  unfolding observe_content loads_remote is_remote
  observe_content-Holds i arguments s page h = elim (Option-cases (text_at 1 arguments)) [
    | inl e ↦ rw (e, observe_content) (Ends-ok P s h)
    | inr (url, e) ↦
        rw (e, observe_content)
          (Ends-if P
            (is_text "Landroid/webkit/WebView;" i.reference.class_descriptor
              && is_any_text ("loadUrl" ∷ "loadDataWithBaseURL" ∷ []) i.reference.method_name
              && (i.invoke_kind =ₛ "virtual"))
            _ _
            (λ f.
              Ends-bind (λ scheme. url_scheme (strip_text url) ≡ ok scheme) P
                (url_scheme (strip_text url)) _ (Ends-eq (url_scheme (strip_text url)))
                (λ scheme known. Ends-ok P _ (
                  Holds-if P kept (is_in scheme remote_schemes) _ _
                    (λ remote. page scheme (ground (arith, e, f, known, remote))) (λ g. h))))
            (λ f. Ends-ok P s h))
  ]

module _ (upper_beyond : ℕ → Text) (url_scheme : Text → Result String) (minimum : ℕ)
    (strings : Texts) (Enabled Bridged Loaded : Type 0) where
  abbrev pub Founded : Observed → Type 0
  Founded s = IsFounded Enabled Bridged Loaded s

  -- What a call shows.
  pub record Shows (i : DexInvocation) : Type 0 where
    pub scripts : with_arguments strings enables_scripts i ≡ true → Enabled
    pub bridge : adds_bridge i ≡ true → Bridged
    pub page : with_arguments strings (loads_remote url_scheme) i ≡ true → Loaded

  with_arguments-ok :
      (test : DexInvocation → Arguments → Bool) (i : DexInvocation) (arguments : Arguments)
      → constant_values strings i.arguments ≡ ok arguments
      → test i arguments ≡ true
      → with_arguments strings test i ≡ true
  unfolding with_arguments
  with_arguments-ok test i arguments e h = rw (e, with_arguments) h

  pub observe_calls-Founded :
      (calls : List DexInvocation) (s : Observed)
      → All Shows calls
      → Founded s
      → Ends Whatever Founded (observe_calls upper_beyond url_scheme minimum strings calls s)
  unfolding observe_calls enables_scripts
  observe_calls-Founded [] s shown h = Ends-ok Founded s h
  observe_calls-Founded (i ∷ calls) s (shows, shown) h =
      Ends-bind (λ arguments. constant_values strings i.arguments ≡ ok arguments) Founded
        (constant_values strings i.arguments) _ (Ends-eq (constant_values strings i.arguments))
        (λ arguments known.
          let scripts : enables_scripts i arguments ≡ true → Enabled =
            λ e. shows.scripts (with_arguments-ok enables_scripts i arguments known e) in
          let page : loads_remote url_scheme i arguments ≡ true → Loaded =
            λ e. shows.page (with_arguments-ok (loads_remote url_scheme) i arguments known e) in
          let kept = IsFounded-IsKept Enabled Bridged Loaded in
          let before =
            observe_before-Holds Founded kept upper_beyond url_scheme minimum i arguments s
              (λ web one t g. record {
                enabled = λ e. elim (Bool-cases t.javascript_enabled) [
                  | inl earlier ↦ g.enabled earlier
                  | inr off ↦ scripts (ground (arith, e, off, web, one))
                ];
                bridged = g.bridged;
                loaded = g.loaded;
                undetected = g.undetected;
              })
              (λ t added g. record {
                enabled = g.enabled;
                bridged = λ e. shows.bridge added;
                loaded = g.loaded;
                undetected = g.undetected;
              })
              h in
          Ends-bind Founded Founded
            (observe_content upper_beyond url_scheme minimum i arguments
              (observe_before upper_beyond url_scheme minimum i arguments s))
            _
            (observe_content-Holds Founded kept upper_beyond url_scheme minimum i arguments _
              (λ scheme loads. record {
                enabled = before.enabled;
                bridged = before.bridged;
                loaded = λ x xs g. page loads;
                undetected = before.undetected;
              })
              before)
            (λ s' g.
              observe_calls-Founded calls _ shown (
                observe_after-Holds Founded kept upper_beyond url_scheme minimum i arguments s' g)))
