-- ===== src/Tests/InventoryRuns.antt =====
-- A run of the parser of DEX files, and the witness of its property.
use android_appsec_assessor.Prelude.{ℕ, ◌≡◌, refl, some, String, List, [], ◌∷◌, false}
use android_appsec_assessor.Prelude.Text.{codes}
use android_appsec_assessor.Errors.{Result, ok, dex_format_error}
use android_appsec_assessor.Dex.{validate_table, uleb_from, read_uleb128, code_units}
use android_appsec_assessor.Dex.CodeItem.{
  uint16_at, uint32, units_of, bytes_from, tries_fit, scan_units, scan_dex_invocations,
}
use android_appsec_assessor.Dex.Texts.{read_dex_string}
use android_appsec_assessor.Dex.Tables.{
  cached_string, add_string, read_strings, type_of, read_types,
}
use android_appsec_assessor.Dex.Prototypes.{
  add_parameter, read_parameters, parameter_list, cached_parameters, count_bytes, add_prototype,
  new_prototype, read_prototype, read_prototypes,
}
use android_appsec_assessor.Dex.MethodTable.{read_method_reference, read_method_references}
use android_appsec_assessor.Dex.Behavior.{
  constant_values, observe_content, observe_before, observe_after, observe_calls, behavior_signals,
  add_signals, add_scan,
}
use android_appsec_assessor.Dex.Classes.{
  member_counts, skip_fields, read_encoded_method, scan_within, scan_code, scan_method,
  visit_method, visit_methods, visit_members, visit_class, visit_classes, parse_dex_behavior,
}
use android_appsec_assessor.Dex.Inventory.{
  check_header, read_tables, known, metrics_of, method_table, inventory_of, read_inventory,
  parse_dex_inventory,
}
use android_appsec_assessor.Dex.Instructions.{unit, opcode_width, instruction_width}
use android_appsec_assessor.Dex.Registers.{effect_of, apply_effect}
use android_appsec_assessor.Dex.Scan.{invoke, load_constant, move, apply_instruction, scan}
use android_appsec_assessor.Dex.Registers.{Text, DexMethodReference}
use android_appsec_assessor.Dex.Signals.{DexBehaviorSignal}
use android_appsec_assessor.Dex.Inventory.{DexInventory}
use android_appsec_assessor.Dex.Ends.{Ends, returned}
use android_appsec_assessor.Dex.Parsed.{IsInventory, parse_dex_inventory-IsInventory}
use android_appsec_assessor.Dex.Cached.{IsEach, read_strings-IsEach}
use android_appsec_assessor.Dex.Raises.{Owes}
use android_appsec_assessor.Dex.Policy.{StaticApkPolicy, static_apk_policy}
use android_appsec_assessor.Dex.Inventory.{Tables, no_strings}
use android_appsec_assessor.Dex.Tables.{Texts, StringsRead}
use android_appsec_assessor.Prelude.{length, ◌+◌}
use android_appsec_assessor.Dex.Texts.{DexString}
use android_appsec_assessor.Dex.Behavior.{Behavior}
use android_appsec_assessor.Prelude.Case.{sorted_set, before}

-- A class `a.B` whose method `run` calls `Cipher.getInstance("DES")`.
abbrev file : List ℕ
file =
    100 ∷ 101 ∷ 120 ∷ 10 ∷ 48 ∷ 51 ∷ 53 ∷ 0 ∷ 0 ∷ 0 ∷ 0 ∷ 0 ∷ 0 ∷ 0 ∷ 0 ∷ 0 ∷ 0 ∷ 0 ∷ 0 ∷ 0 ∷ 0 ∷ 0
    ∷ 0 ∷ 0 ∷ 0 ∷ 0 ∷ 0 ∷ 0 ∷ 0 ∷ 0 ∷ 0 ∷ 0 ∷ 106 ∷ 1 ∷ 0 ∷ 0 ∷ 112 ∷ 0 ∷ 0 ∷ 0 ∷ 120 ∷ 86 ∷ 52 ∷ 18
    ∷ 0 ∷ 0 ∷ 0 ∷ 0 ∷ 0 ∷ 0 ∷ 0 ∷ 0 ∷ 0 ∷ 0 ∷ 0 ∷ 0 ∷ 9 ∷ 0 ∷ 0 ∷ 0 ∷ 112 ∷ 0 ∷ 0 ∷ 0 ∷ 4 ∷ 0 ∷ 0
    ∷ 0 ∷ 148 ∷ 0 ∷ 0 ∷ 0 ∷ 2 ∷ 0 ∷ 0 ∷ 0 ∷ 164 ∷ 0 ∷ 0 ∷ 0 ∷ 0 ∷ 0 ∷ 0 ∷ 0 ∷ 0 ∷ 0 ∷ 0 ∷ 0 ∷ 2 ∷ 0
    ∷ 0 ∷ 0 ∷ 188 ∷ 0 ∷ 0 ∷ 0 ∷ 1 ∷ 0 ∷ 0 ∷ 0 ∷ 204 ∷ 0 ∷ 0 ∷ 0 ∷ 0 ∷ 0 ∷ 0 ∷ 0 ∷ 0 ∷ 0 ∷ 0 ∷ 0 ∷ 24
    ∷ 1 ∷ 0 ∷ 0 ∷ 27 ∷ 1 ∷ 0 ∷ 0 ∷ 32 ∷ 1 ∷ 0 ∷ 0 ∷ 35 ∷ 1 ∷ 0 ∷ 0 ∷ 42 ∷ 1 ∷ 0 ∷ 0 ∷ 62 ∷ 1 ∷ 0 ∷ 0
    ∷ 85 ∷ 1 ∷ 0 ∷ 0 ∷ 88 ∷ 1 ∷ 0 ∷ 0 ∷ 101 ∷ 1 ∷ 0 ∷ 0 ∷ 3 ∷ 0 ∷ 0 ∷ 0 ∷ 4 ∷ 0 ∷ 0 ∷ 0 ∷ 5 ∷ 0 ∷ 0
    ∷ 0 ∷ 6 ∷ 0 ∷ 0 ∷ 0 ∷ 2 ∷ 0 ∷ 0 ∷ 0 ∷ 2 ∷ 0 ∷ 0 ∷ 0 ∷ 236 ∷ 0 ∷ 0 ∷ 0 ∷ 2 ∷ 0 ∷ 0 ∷ 0 ∷ 3 ∷ 0
    ∷ 0 ∷ 0 ∷ 0 ∷ 0 ∷ 0 ∷ 0 ∷ 2 ∷ 0 ∷ 0 ∷ 0 ∷ 7 ∷ 0 ∷ 0 ∷ 0 ∷ 0 ∷ 0 ∷ 1 ∷ 0 ∷ 8 ∷ 0 ∷ 0 ∷ 0 ∷ 0 ∷ 0
    ∷ 0 ∷ 0 ∷ 1 ∷ 0 ∷ 0 ∷ 0 ∷ 3 ∷ 0 ∷ 0 ∷ 0 ∷ 0 ∷ 0 ∷ 0 ∷ 0 ∷ 0 ∷ 0 ∷ 0 ∷ 0 ∷ 0 ∷ 0 ∷ 0 ∷ 0 ∷ 16 ∷ 1
    ∷ 0 ∷ 0 ∷ 0 ∷ 0 ∷ 0 ∷ 0 ∷ 1 ∷ 0 ∷ 0 ∷ 0 ∷ 1 ∷ 0 ∷ 0 ∷ 0 ∷ 2 ∷ 0 ∷ 0 ∷ 0 ∷ 1 ∷ 0 ∷ 0 ∷ 0 ∷ 0 ∷ 0
    ∷ 0 ∷ 0 ∷ 6 ∷ 0 ∷ 0 ∷ 0 ∷ 26 ∷ 0 ∷ 1 ∷ 0 ∷ 113 ∷ 16 ∷ 0 ∷ 0 ∷ 0 ∷ 0 ∷ 14 ∷ 0 ∷ 0 ∷ 0 ∷ 1 ∷ 0 ∷ 1
    ∷ 9 ∷ 244 ∷ 1 ∷ 1 ∷ 65 ∷ 0 ∷ 3 ∷ 68 ∷ 69 ∷ 83 ∷ 0 ∷ 1 ∷ 76 ∷ 0 ∷ 5 ∷ 76 ∷ 97 ∷ 47 ∷ 66 ∷ 59 ∷ 0
    ∷ 18 ∷ 76 ∷ 106 ∷ 97 ∷ 118 ∷ 97 ∷ 47 ∷ 108 ∷ 97 ∷ 110 ∷ 103 ∷ 47 ∷ 83 ∷ 116 ∷ 114 ∷ 105 ∷ 110
    ∷ 103 ∷ 59 ∷ 0 ∷ 21 ∷ 76 ∷ 106 ∷ 97 ∷ 118 ∷ 97 ∷ 120 ∷ 47 ∷ 99 ∷ 114 ∷ 121 ∷ 112 ∷ 116 ∷ 111
    ∷ 47 ∷ 67 ∷ 105 ∷ 112 ∷ 104 ∷ 101 ∷ 114 ∷ 59 ∷ 0 ∷ 1 ∷ 86 ∷ 0 ∷ 11 ∷ 103 ∷ 101 ∷ 116 ∷ 73 ∷ 110
    ∷ 115 ∷ 116 ∷ 97 ∷ 110 ∷ 99 ∷ 101 ∷ 0 ∷ 3 ∷ 114 ∷ 117 ∷ 110 ∷ 0 ∷ []

-- The scheme of every text is empty, and no character beyond ASCII has an upper case.
abbrev no_scheme : Text → Result String
no_scheme t = ok ""

abbrev as_it_is : ℕ → Text
as_it_is c = c ∷ []

abbrev get_instance : DexMethodReference
get_instance = record {
  class_descriptor = codes "Ljavax/crypto/Cipher;";
  method_name = codes "getInstance";
  prototype = codes "(Ljava/lang/String;)Ljavax/crypto/Cipher;";
}

abbrev run : DexMethodReference
run = record {
  class_descriptor = codes "La/B;";
  method_name = codes "run";
  prototype = codes "()V";
}

abbrev signal : String → String → List String → DexBehaviorSignal
signal rule confidence indicators = record {
  rule_id = rule;
  confidence = confidence;
  caller_class_descriptor = run.class_descriptor;
  caller_method_name = run.method_name;
  caller_prototype = run.prototype;
  indicators = indicators;
}

abbrev inventory : DexInventory
inventory = record {
  strings =
      some (codes "A")
      ∷ some (codes "DES")
      ∷ some (codes "L")
      ∷ some (codes "La/B;")
      ∷ some (codes "Ljava/lang/String;")
      ∷ some (codes "Ljavax/crypto/Cipher;")
      ∷ some (codes "V")
      ∷ some (codes "getInstance")
      ∷ some (codes "run")
      ∷ [];
  method_references = get_instance ∷ run ∷ [];
  oversized_strings = 0;
  oversized_string_regions = [];
  behavior_signals =
      signal "CRYPTO-ECB" "medium" ("cipher_family:des" ∷ "cipher_mode:provider_default" ∷ [])
      ∷ signal "CRYPTO-WEAK-ALGORITHM" "high" ("weak_cipher_family:des" ∷ [])
      ∷ [];
  behavior_limitations = [];
  behavior_metrics =
      ("dex_behavior_code_units_scanned", 6)
      ∷ ("dex_behavior_invocations_scanned", 1)
      ∷ ("dex_behavior_methods_scanned", 1)
      ∷ ("dex_class_defs_seen", 1)
      ∷ [];
}

abbrev p : StaticApkPolicy
p = static_apk_policy

header_fits : check_header file p ≡ ok tt
unfolding uint16_at uint32 check_header unit
header_fits = refl

abbrev tables : Tables
tables = record {
  string_ids = (9, 112);
  type_ids = (4, 148);
  proto_ids = (2, 164);
  method_ids = (2, 188);
}

tables_read : read_tables file p ≡ ok tables
unfolding validate_table uint16_at uint32 read_tables unit
tables_read = refl

abbrev entry : ℕ → String → ℕ × DexString
entry offset t = (
  offset,
  record {
    value = some (codes t);
    is_oversized = false;
    work_bytes = length (codes t);
    data_start = offset + 1;
  },
)

abbrev strings_found : StringsRead
strings_found = record {
  strings = inventory.strings;
  string_cache =
      (entry 357 "run")
      ∷ (entry 344 "getInstance")
      ∷ (entry 341 "V")
      ∷ (entry 318 "Ljavax/crypto/Cipher;")
      ∷ (entry 298 "Ljava/lang/String;")
      ∷ (entry 291 "La/B;")
      ∷ (entry 288 "L")
      ∷ (entry 283 "DES")
      ∷ (entry 280 "A")
      ∷ [];
  string_work_bytes = 64;
  oversized = 0;
  oversized_regions = [];
  oversized_offsets = [];
}

strings_read : read_strings file p 112 9 0 no_strings ≡ ok strings_found
unfolding uleb_from read_uleb128 code_units uint16_at uint32 bytes_from read_dex_string
    cached_string add_string read_strings move
strings_read = refl

abbrev types : Texts
types =
    some (codes "La/B;")
    ∷ some (codes "Ljava/lang/String;")
    ∷ some (codes "Ljavax/crypto/Cipher;")
    ∷ some (codes "V")
    ∷ []

methods_read :
    method_table as_it_is no_scheme p file tables strings_found
    ≡ ok (types, some get_instance ∷ some run ∷ [])
unfolding uint32 type_of read_types add_parameter read_parameters parameter_list cached_parameters
    count_bytes add_prototype new_prototype read_prototype read_prototypes read_method_reference
    read_method_references method_table unit
methods_read = refl

abbrev behavior : Behavior
behavior = record {
  limitations = [];
  methods_scanned = 1;
  code_units_scanned = 6;
  invocations_scanned = 1;
  encoded_methods_seen = 1;
  encoded_members_seen = 1;
  signals = inventory.behavior_signals;
}

behavior_parsed :
    parse_dex_behavior as_it_is no_scheme file p inventory.strings types
      (some get_instance ∷ some run ∷ [])
    ≡ ok (1, behavior)
unfolding validate_table uleb_from read_uleb128 uint16_at uint32 units_of bytes_from tries_fit
    scan_units scan_dex_invocations constant_values observe_content observe_before observe_after
    observe_calls behavior_signals add_signals add_scan member_counts skip_fields
    read_encoded_method scan_within scan_code scan_method visit_method visit_methods visit_members
    visit_class visit_classes parse_dex_behavior opcode_width instruction_width effect_of
    apply_effect invoke load_constant apply_instruction scan sorted_set before
behavior_parsed = refl

parsed : parse_dex_inventory as_it_is no_scheme p file ≡ ok inventory
unfolding parse_dex_inventory read_inventory inventory_of metrics_of known
parsed = rw (header_fits, tables_read, strings_read, methods_read, behavior_parsed) refl

parse_dex_inventory-IsInventory_example :
    Ends (λ k. k ≡ dex_format_error) (IsInventory p) (parse_dex_inventory as_it_is no_scheme p file)
parse_dex_inventory-IsInventory_example =
    parse_dex_inventory-IsInventory (λ k. k ≡ dex_format_error) refl as_it_is no_scheme p file
      (λ t. returned "" tt)

read_strings-IsEach_example : Owes (IsEach file p 112 9) (read_strings file p 112 9 0 no_strings)
read_strings-IsEach_example = read_strings-IsEach file p 112 9
