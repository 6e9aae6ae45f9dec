-- ===== src/Dex/Inventory.antt =====
-- `parse_dex_inventory` of android_assessor/static_apk_analysis.py.
use android_appsec_assessor.Prelude.{
  ℕ, ◌+◌, String, Bool, false, not, ◌&&◌, none, some, List, [], ◌∷◌, length, take, leb, ◌==◌,
}
use android_appsec_assessor.Errors.{Result, ok, dex_format_error, require, ◌>>=◌, ◌>>◌}
use android_appsec_assessor.Validation.{is_ascii_digit, matches}
use android_appsec_assessor.Dex.{validate_table}
use android_appsec_assessor.Dex.Registers.{Text, DexMethodReference}
use android_appsec_assessor.Dex.CodeItem.{uint32}
use android_appsec_assessor.Dex.Policy.{StaticApkPolicy}
use android_appsec_assessor.Dex.Tables.{Texts, StringsRead, read_strings, read_types}
use android_appsec_assessor.Dex.Prototypes.{PrototypesRead, read_prototypes}
use android_appsec_assessor.Dex.MethodTable.{Methods, read_method_references}
use android_appsec_assessor.Dex.Signals.{DexBehaviorSignal}
use android_appsec_assessor.Dex.Behavior.{Behavior}
use android_appsec_assessor.Dex.Classes.{parse_dex_behavior}

pub record DexInventory : Type 0 where
  pub strings : Texts
  pub method_references : List DexMethodReference
  pub oversized_strings : ℕ
  pub oversized_string_regions : List (ℕ × ℕ)
  pub behavior_signals : List DexBehaviorSignal
  pub behavior_limitations : List String
  pub behavior_metrics : List (String × ℕ)

abbrev is_byte : ℕ → ℕ → Bool
is_byte b c = c == b

-- `_DEX_MAGIC`
unfoldable pub has_magic : List ℕ → Bool
unfolding matches
has_magic file =
    matches
      (is_byte b'd'
        ∷ is_byte b'e'
        ∷ is_byte b'x'
        ∷ is_byte 10
        ∷ is_ascii_digit
        ∷ is_ascii_digit
        ∷ is_ascii_digit
        ∷ is_byte 0
        ∷ [])
      (take 8 file)

-- A table of the header: its size and its offset.
abbrev pub Table : Type 0
Table = ℕ × ℕ

unfoldable pub read_table : List ℕ → ℕ → Result Table
read_table file position =
    uint32 file position >>= λ size. (uint32 file (position + 4) >>= λ offset. ok (size, offset))

pub record Tables : Type 0 where
  pub string_ids : Table
  pub type_ids : Table
  pub proto_ids : Table
  pub method_ids : Table

-- The tests of the header.
unfoldable pub check_header : List ℕ → StaticApkPolicy → Result (Unit {0})
unfolding has_magic
check_header file limits =
    require (leb 112 (length file) && leb (length file) limits.max_dex_bytes) dex_format_error
      "DEX size is outside the configured bounds."
    >> (require (has_magic file) dex_format_error "DEX magic is invalid or unsupported."
        >> (uint32 file 0x20 >>= λ file_size.
            (uint32 file 0x24 >>= λ header_size.
            (uint32 file 0x28 >>= λ endian_tag.
            (require (file_size == length file && header_size == 112) dex_format_error
                "DEX header size metadata is inconsistent."
              >> (require (not (endian_tag == 0x78563412)) dex_format_error
                    "Reverse-endian DEX files are unsupported."
                  >> require (endian_tag == 0x12345678) dex_format_error
                      "DEX endian tag is invalid."))))))

-- The four tables, read before they are validated.
unfoldable pub read_tables : List ℕ → StaticApkPolicy → Result Tables
unfolding read_table
read_tables file limits = read_table file 0x38 >>= λ s.
    (read_table file 0x40 >>= λ t.
    (read_table file 0x48 >>= λ p.
    (read_table file 0x58 >>= λ m.
    (validate_table file s.0 s.1 4 limits.max_dex_strings
      >> (validate_table file t.0 t.1 4 limits.max_dex_strings
          >> (validate_table file p.0 p.1 12 limits.max_method_references
              >> (validate_table file m.0 m.1 8 limits.max_method_references
                  >> ok (record {
                    string_ids = s;
                    type_ids = t;
                    proto_ids = p;
                    method_ids = m;
                  }))))))))

abbrev pub no_strings : StringsRead
no_strings = record {
  strings = [];
  string_cache = [];
  string_work_bytes = 0;
  oversized = 0;
  oversized_regions = [];
  oversized_offsets = [];
}

-- The cache knows the empty parameter list.
abbrev pub no_prototypes : PrototypesRead
no_prototypes = record {
  prototypes = [];
  parameter_cache = (0, record { parameters = []; unresolved = false }) ∷ [];
  prototype_cache = [];
  decoded_parameter_references = 0;
  prototype_bytes = 0;
}

unfoldable pub known : Methods → List DexMethodReference
known [] = []
known (none ∷ methods) = known methods
known (some reference ∷ methods) = reference ∷ known methods

-- `tuple(sorted(metrics.items()))`
unfoldable pub metrics_of : ℕ → Behavior → List (String × ℕ)
metrics_of class_count b =
    ("dex_behavior_code_units_scanned", b.code_units_scanned)
    ∷ ("dex_behavior_invocations_scanned", b.invocations_scanned)
    ∷ ("dex_behavior_methods_scanned", b.methods_scanned)
    ∷ ("dex_class_defs_seen", class_count)
    ∷ []

module _ (upper_beyond : ℕ → Text) (url_scheme : Text → Result String) (limits : StaticApkPolicy)
    (file : List ℕ) where
  -- The method table, from the other tables.
  unfoldable pub method_table : Tables → StringsRead → Result (Texts × Methods)
  method_table t s =
      read_types file limits t.string_ids.0 s.strings t.type_ids.1 t.type_ids.0 0 [] >>= λ types.
      (read_prototypes file limits t.string_ids.0 t.type_ids.0 types t.proto_ids.1 t.proto_ids.0 0
          no_prototypes
        >>= λ p.
            (read_method_references file t.string_ids.0 t.type_ids.0 t.proto_ids.0 s.strings types
                p.prototypes t.method_ids.1 t.method_ids.0 0 []
              >>= λ methods. ok (types, methods)))

  unfoldable pub inventory_of : StringsRead → Methods → ℕ × Behavior → DexInventory
  unfolding known metrics_of
  inventory_of s methods b = record {
    strings = s.strings;
    method_references = known methods;
    oversized_strings = s.oversized;
    oversized_string_regions = s.oversized_regions;
    behavior_signals = b.1.signals;
    behavior_limitations = b.1.limitations;
    behavior_metrics = metrics_of b.0 b.1;
  }

  unfoldable pub read_inventory : Tables → Result DexInventory
  unfolding inventory_of
  read_inventory t = read_strings file limits t.string_ids.1 t.string_ids.0 0 no_strings >>= λ s.
      (method_table t s >>= λ read.
      (parse_dex_behavior upper_beyond url_scheme file limits s.strings read.0 read.1 >>= λ b.
      ok (inventory_of s read.1 b)))

  -- `parse_dex_inventory`
  unfoldable pub parse_dex_inventory : Result DexInventory
  parse_dex_inventory =
      check_header file limits >> (read_tables file limits >>= λ t. read_inventory t)
