-- ===== src/Dex/CodeSignals.antt =====
-- The rules of dynamic code, deserialization and storage in `_behavior_signals_for_method` of
-- android_assessor/static_apk_analysis.py.
use android_appsec_assessor.Prelude.{
  String, ◌<>◌, Bool, not, ◌&&◌, ◌||◌, Option, none, some, [], ◌∷◌, ◌=ₛ◌, if◌then◌else◌,
}
use android_appsec_assessor.Dex.Registers.{DexInvocation}
use android_appsec_assessor.Dex.Texts.{same_text}
use android_appsec_assessor.Dex.Algorithms.{constant_int, Arguments, has_bit_0, has_bit_1}
use android_appsec_assessor.Dex.Signals.{
  Observed, argument_at, is_any_text, is_text, note, record_rule,
}

-- The name of the operation of a call of `dynamic_methods`, and its confidence.
unfoldable pub dynamic_operation : DexInvocation → Option (String × String)
unfolding same_text
dynamic_operation i =
    let name = i.reference.method_name in
    let class_name = i.reference.class_descriptor in
    let is_loader =
      is_any_text ("Ldalvik/system/DexClassLoader;" ∷ "Ldalvik/system/InMemoryDexClassLoader;" ∷ [])
        class_name in
    let is_dex_file = is_text "Ldalvik/system/DexFile;" class_name in
    if is_loader && is_text "<init>" name && (i.invoke_kind =ₛ "direct")
    then some ("init", "high")
    else if is_dex_file && is_text "loadDex" name && (i.invoke_kind =ₛ "static")
    then some ("loaddex", "high")
    else if (is_loader || is_dex_file) && is_text "loadClass" name && (i.invoke_kind =ₛ "virtual")
    then some ("loadclass", "medium")
    else none

unfoldable pub observe_dynamic_code : DexInvocation → Observed → Observed
unfolding dynamic_operation record_rule
observe_dynamic_code i s = elim (dynamic_operation i) [
  | none ↦ s
  | some (operation, confidence) ↦
      note "ASL-STATIC-DYNAMIC-CODE" confidence
        ("dynamic_code_api:actual_invoke" ∷ ("dynamic_code_operation:" <> operation) ∷ []) s
]

unfoldable pub observe_deserialization : DexInvocation → Observed → Observed
unfolding same_text record_rule
observe_deserialization i s =
    if is_text "Ljava/io/ObjectInputStream;" i.reference.class_descriptor
      && is_text "readObject" i.reference.method_name
      && is_text "()Ljava/lang/Object;" i.reference.prototype
      && (i.invoke_kind =ₛ "virtual")
    then note "ASL-STATIC-DESERIALIZATION" "medium"
        ("deserialization_api:object_input_stream_read_object" ∷ []) s
    else s

-- The storage method whose mode is its third argument.
unfoldable pub storage_method : DexInvocation → Option String
unfolding same_text
storage_method i =
    let name = i.reference.method_name in
    if not (
      is_any_text ("Landroid/content/Context;" ∷ "Landroid/content/ContextWrapper;" ∷ [])
        i.reference.class_descriptor)
    then none
    else if is_text "openFileOutput" name
    then some "openFileOutput"
    else if is_text "getSharedPreferences" name
    then some "getSharedPreferences"
    else if is_text "openOrCreateDatabase" name
    then some "openOrCreateDatabase"
    else none

abbrev pub world_mode : Bool → String → String → String → Observed → Observed
world_mode test rule_id mode method_name s =
    if test
    then note rule_id "high" (("storage_mode:" <> mode) ∷ ("storage_api:" <> method_name) ∷ []) s
    else s

unfoldable pub observe_storage : DexInvocation → Arguments → Observed → Observed
unfolding storage_method argument_at has_bit_0 has_bit_1 record_rule
observe_storage i arguments s = elim (storage_method i) [
  | none ↦ s
  | some method_name ↦ elim (argument_at 2 arguments) [
    | some (constant_int mode) ↦
        if i.invoke_kind =ₛ "virtual"
        then world_mode (has_bit_1 mode) "STORAGE-WORLD-WRITABLE" "world_writable" method_name
            (world_mode (has_bit_0 mode) "STORAGE-WORLD-READABLE" "world_readable" method_name s)
        else s
    | _ ↦ s
  ]
]
