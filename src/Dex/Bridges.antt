-- ===== src/Dex/Bridges.antt =====
-- What a method must call for the signal of a script bridge that remote pages reach.
use android_appsec_assessor.Prelude.{
  ℕ, ◌≡◌, refl, inl, inr, String, Bool, true, false, ◌&&◌, List, get_elem?, ◌=ₛ◌, Option-cases,
  if◌then◌else◌,
}
use android_appsec_assessor.Prelude.Int.{ℤ}
use android_appsec_assessor.Dex.Registers.{Text, DexInvocation}
use android_appsec_assessor.Dex.Algorithms.{
  constant_text, after_slash, upper, Arguments, is_int, constant_int, weak_cipher_family,
  weak_digest_family,
}
use android_appsec_assessor.Dex.Signals.{Detected, Observed, note, is_text, text_at, argument_at}
use android_appsec_assessor.Dex.CryptoSignals.{
  without_blanks, note_mode, note_weak_cipher, observe_cipher, observe_digest, observe_iterations,
  observe_random, observe_material, material_input,
}
use android_appsec_assessor.Dex.WebSignals.{observe_ssl_error}
use android_appsec_assessor.Dex.CodeSignals.{
  dynamic_operation, observe_dynamic_code, observe_deserialization, storage_method, observe_storage,
  world_mode,
}

abbrev pub bridge_rule : String
bridge_rule = "WEBVIEW-JS-BRIDGE-REMOTE"

abbrev pub has_bridge_rule : Detected → Bool
has_bridge_rule d = d.rule_id =ₛ bridge_rule

-- A call of a method of `WebSettings`.
abbrev pub sets_web : DexInvocation → Bool
sets_web i =
    is_text "Landroid/webkit/WebSettings;" i.reference.class_descriptor
    && (i.invoke_kind =ₛ "virtual")

-- A call of `WebSettings.setJavaScriptEnabled(true)` with the constant arguments of the call.
unfoldable pub enables_scripts : DexInvocation → Arguments → Bool
enables_scripts i arguments =
    sets_web i
    && is_text "setJavaScriptEnabled" i.reference.method_name
    && is_int 1 (argument_at 1 arguments)

-- A call of `WebView.addJavascriptInterface`.
unfoldable pub adds_bridge : DexInvocation → Bool
adds_bridge i =
    is_text "Landroid/webkit/WebView;" i.reference.class_descriptor
    && is_text "addJavascriptInterface" i.reference.method_name
    && (i.invoke_kind =ₛ "virtual")
    && is_text "(Ljava/lang/Object;Ljava/lang/String;)V" i.reference.prototype

-- A property of what was seen that the rules but for the bridge's leave as it is.
pub record IsKept (P : Observed → Type 0) : Type 0 where
  pub noted :
      (rule confidence : String) (indicators : List String) (s : Observed)
      → (rule =ₛ bridge_rule) ≡ false
      → P s
      → P (note rule confidence indicators s)
  pub filled :
      (generations : List ℤ) (s : Observed)
      → P s
      → P (record s { random_material_generations = generations })
  pub correlated :
      (material : List String) (s : Observed)
      → P s
      → P (record s { correlated_crypto_material = material })

module _ (P : Observed → Type 0) (kept : IsKept P) where
  abbrev Holds : Observed → Type 0
  Holds s = P s

  pub Holds-note :
      (rule confidence : String) (indicators : List String) (s : Observed)
      → (rule =ₛ bridge_rule) ≡ false
      → Holds s
      → Holds (note rule confidence indicators s)
  Holds-note rule confidence indicators s other h = kept.noted rule confidence indicators s other h

  pub Holds-if :
      (test : Bool) (s t : Observed)
      → (test ≡ true → Holds s)
      → (test ≡ false → Holds t)
      → Holds (if test then s else t)
  Holds-if true s t h k = h refl
  Holds-if false s t h k = k refl

  pub Holds-ssl_error : (i : DexInvocation) (s : Observed) → Holds s → Holds (observe_ssl_error i s)
  unfolding observe_ssl_error
  Holds-ssl_error i s h = search (Holds-if, Holds-note)

  pub Holds-deserialization :
      (i : DexInvocation) (s : Observed) → Holds s → Holds (observe_deserialization i s)
  unfolding observe_deserialization
  Holds-deserialization i s h = search (Holds-if, Holds-note)

  pub Holds-dynamic_code :
      (i : DexInvocation) (s : Observed) → Holds s → Holds (observe_dynamic_code i s)
  unfolding observe_dynamic_code
  Holds-dynamic_code i s h = elim (Option-cases (dynamic_operation i)) [
    | inl e ↦ rw (e, observe_dynamic_code) h
    | inr (operation, e) ↦ rw (e, observe_dynamic_code) (Holds-note _ _ _ s refl h)
  ]

  pub Holds-iterations :
      (minimum : ℕ) (i : DexInvocation) (arguments : Arguments) (s : Observed)
      → Holds s
      → Holds (observe_iterations minimum i arguments s)
  unfolding observe_iterations
  Holds-iterations minimum i arguments s h = search (Holds-if, Holds-note)

  Holds-material :
      (generations : List ℤ) (s : Observed)
      → Holds s
      → Holds (record s { random_material_generations = generations })
  Holds-material generations s h = kept.filled generations s h

  Holds-correlated :
      (material : List String) (s : Observed)
      → Holds s
      → Holds (record s { correlated_crypto_material = material })
  Holds-correlated material s h = kept.correlated material s h

  pub Holds-random : (i : DexInvocation) (s : Observed) → Holds s → Holds (observe_random i s)
  unfolding observe_random
  Holds-random i s h = elim (Option-cases (get_elem? i.argument_generations 1)) [
    | inl e ↦ rw (e, observe_random) h
    | inr (g, e) ↦ rw (e, observe_random) (search (Holds-if, Holds-material))
  ]

  pub Holds-observe_material :
      (i : DexInvocation) (s : Observed) → Holds s → Holds (observe_material i s)
  unfolding observe_material
  Holds-observe_material i s h = elim (Option-cases (material_input i.reference.class_descriptor)) [
    | inl e ↦ rw (e, observe_material) h
    | inr ((register_index, name), e) ↦
        rw (e, observe_material) (search (Holds-if, Holds-correlated))
  ]

  Holds-world_mode :
      (test : Bool) (rule mode method : String) (s : Observed)
      → (rule =ₛ bridge_rule) ≡ false
      → Holds s
      → Holds (world_mode test rule mode method s)
  Holds-world_mode test rule mode method s other h = search (Holds-if, Holds-note)

  pub Holds-storage :
      (i : DexInvocation) (arguments : Arguments) (s : Observed)
      → Holds s
      → Holds (observe_storage i arguments s)
  unfolding observe_storage
  Holds-storage i arguments s h = elim (Option-cases (storage_method i)) [
    | inl e ↦ rw (e, observe_storage) h
    | inr (m, e) ↦ elim (Option-cases (argument_at 2 arguments)) [
      | inl f ↦ rw (e, f, observe_storage) h
      | inr (constant_text t, f) ↦ rw (e, f, observe_storage) h
      | inr (constant_int n, f) ↦ rw (e, f, observe_storage) (search (Holds-if, Holds-world_mode))
    ]
  ]

  module _ (upper_beyond : ℕ → Text) where
    Holds-weak_cipher :
        (t : Text) (s : Observed) → Holds s → Holds (note_weak_cipher upper_beyond t s)
    unfolding note_weak_cipher
    Holds-weak_cipher t s h = elim (Option-cases (weak_cipher_family upper_beyond t)) [
      | inl e ↦ rw (e, note_weak_cipher) h
      | inr (family, e) ↦ rw (e, note_weak_cipher) (Holds-note _ _ _ s refl h)
    ]

    Holds-mode : (t : Text) (s : Observed) → Holds s → Holds (note_mode upper_beyond t s)
    unfolding note_mode
    Holds-mode t s h = elim (Option-cases (after_slash (without_blanks (upper upper_beyond t)))) [
      | inl e ↦ rw (e, note_mode) (search (Holds-if, Holds-note))
      | inr (rest, e) ↦ rw (e, note_mode) (search (Holds-if, Holds-note))
    ]

    pub Holds-cipher :
        (i : DexInvocation) (arguments : Arguments) (s : Observed)
        → Holds s
        → Holds (observe_cipher upper_beyond i arguments s)
    unfolding observe_cipher
    Holds-cipher i arguments s h = elim (Option-cases (text_at 0 arguments)) [
      | inl e ↦ rw (e, observe_cipher) h
      | inr (t, e) ↦ rw (e, observe_cipher) (search (Holds-if, Holds-mode, Holds-weak_cipher))
    ]

    pub Holds-digest :
        (i : DexInvocation) (arguments : Arguments) (s : Observed)
        → Holds s
        → Holds (observe_digest upper_beyond i arguments s)
    unfolding observe_digest
    Holds-digest i arguments s h = elim (Option-cases (text_at 0 arguments)) [
      | inl e ↦ rw (e, observe_digest) h
      | inr (t, e) ↦ elim (Option-cases (weak_digest_family upper_beyond t)) [
        | inl f ↦ rw (e, f, observe_digest) h
        | inr (family, f) ↦ rw (e, f, observe_digest) (search (Holds-if, Holds-note))
      ]
    ]
