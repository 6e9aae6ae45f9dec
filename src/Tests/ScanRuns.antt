-- ===== src/Tests/ScanRuns.antt =====
-- A scan of the code of a method, and the witness of its property.
use android_appsec_assessor.Prelude.{ℕ, zero, suc, false, ◌≡◌, refl, some, List, [], ◌∷◌, ◌++◌}
use android_appsec_assessor.Prelude.Text.{codes}
use android_appsec_assessor.Prelude.Int.{pos, negsuc}
use android_appsec_assessor.Errors.{ok, err, fault, dex_format_error}
use android_appsec_assessor.Dex.Instructions.{
  unit, is_one_of, minus, sign_extend, opcode_width, instruction_width, invoke_registers,
}
use android_appsec_assessor.Dex.Registers.{
  DexMethodReference, string_index, register_value, pop, define_each, effect_of, invoke_kind_of,
  Code, validate_register, register_generation, define_register, load_literal, load_string,
  apply_effect,
}
use android_appsec_assessor.Dex.Scan.{
  record_invocation, invoke, load_constant, apply_instruction, scan_from, scan,
}
use android_appsec_assessor.Dex.Raises.{Owes}
use android_appsec_assessor.Dex.CodeItem.{
  uint16_at, uint32, units_of, bytes_from, tries_fit, scan_units, scan_dex_invocations,
}
use android_appsec_assessor.Dex.Totality.{IsScanOf, scan_dex_invocations-IsScanOf}

abbrev get_instance : DexMethodReference
get_instance = record {
  class_descriptor = codes "Ljavax/crypto/Cipher;";
  method_name = codes "getInstance";
  prototype = codes "(Ljava/lang/String;)Ljavax/crypto/Cipher;";
}

-- `const-string v0, 1`, `invoke-static {v0}, 0`, `return-void`
abbrev login : Code
login = record {
  insns = 0x001A ∷ 1 ∷ 0x1071 ∷ 0 ∷ 0 ∷ 0x000E ∷ [];
  registers_size = 2;
  string_count = 4;
  method_table = some get_instance ∷ [];
  invocation_budget = 8;
}

one_call :
    scan login
    ≡ ok (record {
      invocations =
          record {
            reference = get_instance;
            arguments = some (string_index 1) ∷ [];
            argument_generations = pos 1 ∷ [];
            invoke_kind = "static";
          }
          ∷ [];
      offset = 6;
      unsupported = false;
      limited = false;
    })
unfolding scan scan_from unit instruction_width opcode_width is_one_of apply_instruction
    load_constant load_string load_literal define_register validate_register define_each pop invoke
    invoke_registers record_invocation register_value register_generation invoke_kind_of effect_of
    apply_effect
one_call = refl

-- A file that ends in the code item of `login`, behind a header of zeros.
zeros : ℕ → List ℕ
zeros zero = []
zeros (suc n) = 0 ∷ zeros n

abbrev file : List ℕ
file =
    zeros 112
    ++ (2 ∷ 0 ∷ 0 ∷ 0 ∷ 1 ∷ 0 ∷ 0 ∷ 0 ∷ 0 ∷ 0 ∷ 0 ∷ 0 ∷ 6 ∷ 0 ∷ 0 ∷ 0 ∷ 0x1A ∷ 0 ∷ 1 ∷ 0 ∷ 0x71
        ∷ 0x10 ∷ 0 ∷ 0 ∷ 0 ∷ 0 ∷ 0x0E ∷ 0 ∷ [])

read_back : scan_dex_invocations file (some get_instance ∷ []) 4 8 112 ≡ scan login
unfolding zeros scan_dex_invocations uint16_at uint32 scan_units tries_fit units_of bytes_from unit
    scan
read_back = refl

scan_dex_invocations-IsScanOf_example :
    Owes
      (IsScanOf file (some get_instance ∷ []) 4 8 112)
      (scan_dex_invocations file (some get_instance ∷ []) 4 8 112)
scan_dex_invocations-IsScanOf_example =
    scan_dex_invocations-IsScanOf file (some get_instance ∷ []) 4 8 112

truncated :
    scan (record login { insns = 0x001A ∷ [] })
    ≡ err (fault dex_format_error "DEX instruction is truncated.")
unfolding scan scan_from unit instruction_width opcode_width is_one_of
truncated = refl

minus_one : sign_extend 0xFFFF 16 ≡ negsuc 0
unfolding sign_extend minus
minus_one = refl

most_positive : sign_extend 7 4 ≡ pos 7
unfolding sign_extend minus
most_positive = refl
