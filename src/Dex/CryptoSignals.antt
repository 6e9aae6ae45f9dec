-- ===== src/Dex/CryptoSignals.antt =====
-- The rules of cryptography in `_behavior_signals_for_method` of android_assessor/static_apk_analysis.py.
-- `str.upper` beyond ASCII is a parameter.
use android_appsec_assessor.Prelude.{
  ℕ, String, ◌<>◌, Bool, false, ◌&&◌, Option, none, some, List, [], ◌∷◌, any, ◌==◌, ◌=ₛ◌, get_elem?,
  if◌then◌else◌,
}
use android_appsec_assessor.Prelude.Int.{ℤ, pos, negsuc}
use android_appsec_assessor.Prelude.Text.{codes, starts, decimal}
use android_appsec_assessor.Scope.{is_in}
use android_appsec_assessor.Dex.Registers.{Text, DexInvocation}
use android_appsec_assessor.Dex.Texts.{same_text}
use android_appsec_assessor.Dex.Algorithms.{
  Argument, Arguments, after_slash, before_slash, lower_letters_digits, upper, algorithm_family,
  weak_cipher_family, weak_digest_family, is_int_below,
}
use android_appsec_assessor.Dex.Signals.{
  Observed, argument_at, is_any_text, is_text, note, record_rule, text_at,
}

abbrev pub provider_default_families : List String
provider_default_families =
    "AES" ∷ "ARIA" ∷ "BLOWFISH" ∷ "CAMELLIA" ∷ "CAST5" ∷ "DES" ∷ "DESEDE" ∷ "IDEA" ∷ "RC2" ∷ "SEED"
    ∷ "TRIPLEDES" ∷ []

unfoldable pub without_blanks : Text → Text
without_blanks [] = []
without_blanks (c ∷ cs) = let rest = without_blanks cs in if c == 32 then rest else c ∷ rest

module _ (upper_beyond : ℕ → Text) where
  -- The mode of a transformation: `parts[1] == "ECB"`.
  unfoldable pub names_ecb : Option Text → Bool
  unfolding before_slash same_text
  names_ecb none = false
  names_ecb (some rest) = is_text "ECB" (before_slash rest)

  unfoldable pub cipher_family_indicator : Text → String
  unfolding lower_letters_digits algorithm_family
  cipher_family_indicator transformation =
      "cipher_family:"
      <> lower_letters_digits (codes (algorithm_family upper_beyond transformation))

  unfoldable pub note_mode : Text → Observed → Observed
  unfolding upper without_blanks after_slash names_ecb cipher_family_indicator record_rule
      algorithm_family
  note_mode transformation s =
      let modes = after_slash (without_blanks (upper upper_beyond transformation)) in
      let family = algorithm_family upper_beyond transformation in
      if names_ecb modes
      then note "CRYPTO-ECB" "high"
          ("cipher_mode:ecb" ∷ cipher_family_indicator transformation ∷ []) s
      else elim modes [
        | some rest ↦ s
        | none ↦
            if is_in family provider_default_families
            then note "CRYPTO-ECB" "medium"
                ("cipher_mode:provider_default" ∷ cipher_family_indicator transformation ∷ []) s
            else s
      ]

  unfoldable pub note_weak_cipher : Text → Observed → Observed
  unfolding weak_cipher_family record_rule
  note_weak_cipher transformation s = elim (weak_cipher_family upper_beyond transformation) [
    | none ↦ s
    | some family ↦ note "CRYPTO-WEAK-ALGORITHM" "high" (("weak_cipher_family:" <> family) ∷ []) s
  ]

  unfoldable pub is_cipher_call : DexInvocation → Bool
  unfolding same_text starts
  is_cipher_call i =
      is_text "Ljavax/crypto/Cipher;" i.reference.class_descriptor
      && is_text "getInstance" i.reference.method_name
      && (i.invoke_kind =ₛ "static")
      && starts (codes "(Ljava/lang/String;") i.reference.prototype

  unfoldable pub observe_cipher : DexInvocation → Arguments → Observed → Observed
  unfolding is_cipher_call text_at note_mode note_weak_cipher
  observe_cipher i arguments s = elim (text_at 0 arguments) [
    | none ↦ s
    | some transformation ↦
        if is_cipher_call i then note_weak_cipher transformation (note_mode transformation s) else s
  ]

  abbrev pub primitive_of : Text → String
  primitive_of class_name =
      if is_text "Ljava/security/MessageDigest;" class_name
      then "primitive:message_digest"
      else "primitive:mac"

  unfoldable pub is_digest_call : DexInvocation → Bool
  unfolding same_text
  is_digest_call i =
      is_any_text ("Ljava/security/MessageDigest;" ∷ "Ljavax/crypto/Mac;" ∷ [])
        i.reference.class_descriptor
      && is_text "getInstance" i.reference.method_name
      && (i.invoke_kind =ₛ "static")

  unfoldable pub observe_digest : DexInvocation → Arguments → Observed → Observed
  unfolding is_digest_call text_at weak_digest_family record_rule same_text
  observe_digest i arguments s = elim (text_at 0 arguments) [
    | none ↦ s
    | some name ↦ elim (weak_digest_family upper_beyond name) [
      | none ↦ s
      | some family ↦
          if is_digest_call i
          then note "CRYPTO-WEAK-DIGEST" "high"
              (("weak_digest_family:" <> family) ∷ primitive_of i.reference.class_descriptor ∷ []) s
          else s
    ]
  ]

-- The iteration count among the arguments of a call.
unfoldable pub iteration_of : DexInvocation → Arguments → Option Argument
unfolding same_text argument_at
iteration_of i arguments =
    let r = i.reference in
    let creates = is_text "<init>" r.method_name && (i.invoke_kind =ₛ "direct") in
    if is_text "Ljavax/crypto/spec/PBEParameterSpec;" r.class_descriptor
      && creates
      && is_any_text ("([BI)V" ∷ "([BILjava/security/spec/AlgorithmParameterSpec;)V" ∷ [])
          r.prototype
    then argument_at 2 arguments
    else if is_text "Ljavax/crypto/spec/PBEKeySpec;" r.class_descriptor
        && creates
        && is_any_text ("([C[BI)V" ∷ "([C[BII)V" ∷ []) r.prototype
    then argument_at 3 arguments
    else none

unfoldable pub observe_iterations : ℕ → DexInvocation → Arguments → Observed → Observed
unfolding iteration_of is_int_below record_rule
observe_iterations min_pbe_iterations i arguments s =
    if is_int_below min_pbe_iterations (iteration_of i arguments)
    then note "CRYPTO-LOW-PBE-ITERATIONS" "high"
        ("pbe_iterations:below_policy"
          ∷ ("policy_min_iterations:" <> decimal min_pbe_iterations)
          ∷ [])
        s
    else s

-- The generations that `Random.nextBytes` filled.
unfoldable pub observe_random : DexInvocation → Observed → Observed
unfolding same_text
observe_random i s = elim (get_elem? i.argument_generations 1) [
  | none ↦ s
  | some g ↦
      if is_text "Ljava/util/Random;" i.reference.class_descriptor
        && is_text "nextBytes" i.reference.method_name
        && (i.invoke_kind =ₛ "virtual")
      then record s { random_material_generations = g ∷ s.random_material_generations }
      else s
]

-- `crypto_material_inputs.get(class_name)`
unfoldable pub material_input : Text → Option (ℕ × String)
unfolding same_text
material_input class_name =
    if is_text "Ljavax/crypto/spec/SecretKeySpec;" class_name
    then some (1, "secret_key")
    else if is_text "Ljavax/crypto/spec/IvParameterSpec;" class_name
    then some (1, "initialization_vector")
    else if is_text "Ljavax/crypto/spec/PBEKeySpec;" class_name
    then some (2, "pbe_salt")
    else if is_text "Ljavax/crypto/spec/PBEParameterSpec;" class_name
    then some (1, "pbe_salt")
    else none

unfoldable pub same_int : ℤ → ℤ → Bool
same_int (pos m) (pos n) = m == n
same_int (negsuc m) (negsuc n) = m == n
same_int _ _ = false

abbrev pub is_random : Option ℤ → List ℤ → Bool
is_random none generations = false
is_random (some g) generations = any (same_int g) generations

unfoldable pub observe_material : DexInvocation → Observed → Observed
unfolding material_input same_int
observe_material i s = elim (material_input i.reference.class_descriptor) [
  | none ↦ s
  | some (register_index, name) ↦
      if (i.invoke_kind =ₛ "direct")
        && is_random (get_elem? i.argument_generations register_index) s.random_material_generations
      then record s { correlated_crypto_material = name ∷ s.correlated_crypto_material }
      else s
]
