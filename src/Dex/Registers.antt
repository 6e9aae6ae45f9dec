-- ===== src/Dex/Registers.antt =====
-- What the scan of a method in android_assessor/static_apk_analysis.py knows of its registers: the
-- variables of `_scan_dex_invocations` and the functions inside it.
use android_appsec_assessor.Prelude.{
  ℕ, zero, suc, ◌+◌, ◌*◌, ◌/◌, ◌%◌, Bool, ◌||◌, String, Option, none, some, List, [], ◌∷◌, ltb, leb,
  ◌==◌, if◌then◌else◌,
}
use android_appsec_assessor.Prelude.Int.{ℤ, pos, negsuc}
use android_appsec_assessor.Errors.{Result, ok, dex_format_error, require, ◌>>=◌, ◌>>◌}
use android_appsec_assessor.Dex.{is_between}
use android_appsec_assessor.Dex.Instructions.{is_one_of}

-- A text of a DEX file by its code points, among which there may be surrogates.
abbrev pub Text : Type 0
Text = List ℕ

pub record DexMethodReference : Type 0 where
  pub class_descriptor : Text
  pub method_name : Text
  pub prototype : Text

-- `_DexConstant`: the texts are looked up by the caller.
pub data DexConstant : Type 0 where
  text : Text → DexConstant
  number : ℤ → DexConstant
  string_index : ℕ → DexConstant

pub record DexInvocation : Type 0 where
  pub reference : DexMethodReference
  pub arguments : List (Option DexConstant)
  pub argument_generations : List ℤ
  pub invoke_kind : String

-- A dict by register.
abbrev pub Registers : Type 0 → Type 0
Registers A = List (ℕ × A)

unfoldable pub register_value : {A : Type 0} → ℕ → Registers A → Option A
register_value r [] = none
register_value r ((k, v) ∷ entries) =
    let rest = register_value r entries in if k == r then some v else rest

unfoldable pub pop : {A : Type 0} → ℕ → Registers A → Registers A
pop r [] = []
pop r ((k, v) ∷ entries) = let rest = pop r entries in if k == r then rest else (k, v) ∷ rest

abbrev pub put : {A : Type 0} → ℕ → A → Registers A → Registers A
put r v entries = (r, v) ∷ pop r entries

-- The variables of the loop but `offset`.
pub record ScanState : Type 0 where
  pub constants : Registers DexConstant
  pub register_generations : Registers ℤ
  pub next_generation : ℕ
  pub flow_epoch : ℕ
  pub invocations : List DexInvocation

-- What the scan returns.
pub record Scanned : Type 0 where
  pub invocations : List DexInvocation
  pub offset : ℕ
  pub unsupported : Bool
  pub limited : Bool

abbrev pub put_constant : ℕ → DexConstant → ScanState → ScanState
put_constant r c s = record s { constants = put r c s.constants }

-- The body of the loop of `define_register`, once for each register.
unfoldable pub define_each : ℕ → ℕ → ScanState → ScanState
unfolding pop
define_each register zero s = s
define_each register (suc width) s = define_each (register + 1) width (record s {
  constants = pop register s.constants;
  register_generations = put register (pos s.next_generation) s.register_generations;
  next_generation = s.next_generation + 1;
})

unfoldable pub clear_flow_state : ScanState → ScanState
clear_flow_state s = record s {
  constants = [];
  register_generations = [];
  flow_epoch = s.flow_epoch + 1;
}

-- What an instruction does besides, where it only defines registers.
pub data Effect : Type 0 where
  defines : ℕ → ℕ → Effect
  clears : Effect
  nothing : Effect

abbrev pub two_if : Bool → ℕ
two_if wide = if wide then 2 else 1

-- The branches from `opcode in {0x0A, 0x0C, 0x0D}` on: the register and the width that are defined.
unfoldable pub effect_of : ℕ → ℕ → Effect
unfolding is_one_of
effect_of first opcode =
    let high = first / 256 in
    let nibble = first / 256 % 16 in
    if is_one_of (0x0A ∷ 0x0C ∷ 0x0D ∷ []) opcode
    then defines high 1
    else if opcode == 0x0B
    then defines high 2
    else if is_one_of (0x27 ∷ 0x28 ∷ 0x29 ∷ 0x2A ∷ 0x2B ∷ 0x2C ∷ []) opcode
        || is_between 0x32 0x3D opcode
    then clears
    else if is_one_of (0x21 ∷ 0x23 ∷ 0x20 ∷ []) opcode
    then defines nibble 1
    else if is_between 0x52 0x58 opcode
    then defines nibble (two_if (opcode == 0x53))
    else if is_one_of (0x1C ∷ 0x1F ∷ 0x22 ∷ 0xFE ∷ 0xFF ∷ []) opcode
    then defines high 1
    else if is_between 0x2D 0x31 opcode
    then defines high 1
    else if is_between 0x44 0x4A opcode
    then defines high (two_if (opcode == 0x45))
    else if is_between 0x60 0x66 opcode
    then defines high (two_if (opcode == 0x61))
    else if is_between 0x7B 0x8F opcode
    then defines nibble (
        two_if
          (is_one_of (0x7D ∷ 0x7E ∷ 0x80 ∷ 0x81 ∷ 0x83 ∷ 0x86 ∷ 0x88 ∷ 0x89 ∷ 0x8B ∷ []) opcode))
    else if is_between 0x90 0xAF opcode
    then defines high (two_if (is_between 0x9B 0xA5 opcode || is_between 0xAB 0xAF opcode))
    else if is_between 0xB0 0xCF opcode
    then defines nibble (two_if (is_between 0xBB 0xC5 opcode || is_between 0xCB 0xCF opcode))
    else if is_between 0xD0 0xD7 opcode
    then defines nibble 1
    else if is_between 0xD8 0xE2 opcode
    then defines high 1
    else nothing

-- `{0x6E: "virtual", …}[opcode]`
unfoldable pub invoke_kind_of : ℕ → String
unfolding is_one_of
invoke_kind_of opcode =
    if is_one_of (0x6E ∷ 0x74 ∷ []) opcode
    then "virtual"
    else if is_one_of (0x6F ∷ 0x75 ∷ []) opcode
    then "super"
    else if is_one_of (0x70 ∷ 0x76 ∷ []) opcode
    then "direct"
    else if is_one_of (0x71 ∷ 0x77 ∷ []) opcode
    then "static"
    else "interface"

abbrev pub is_invoke : ℕ → Bool
is_invoke opcode = is_between 0x6E 0x72 opcode || is_between 0x74 0x78 opcode

abbrev pub is_load : ℕ → Bool
is_load opcode = is_between 0x12 0x1B opcode

abbrev pub is_move : ℕ → Bool
is_move opcode = is_between 0x01 0x09 opcode

abbrev pub returned : ScanState → ℕ → Bool → Bool → Scanned
returned s offset unsupported limited = record {
  invocations = s.invocations;
  offset = offset;
  unsupported = unsupported;
  limited = limited;
}

-- The code of a method beside the tables that its instructions index.
pub record Code : Type 0 where
  pub insns : List ℕ
  pub registers_size : ℕ
  pub string_count : ℕ
  pub method_table : List (Option DexMethodReference)
  pub invocation_budget : ℕ

module _ (code : Code) where
  unfoldable pub validate_register : ℕ → ℕ → Result (Unit {0})
  validate_register register width =
      require (leb (register + width) code.registers_size) dex_format_error
        "DEX instruction references an invalid register."

  -- The generation of a register; the caller has validated the register.
  unfoldable pub register_generation : ScanState → ℕ → ℤ
  unfolding register_value
  register_generation s register = elim (register_value register s.register_generations) [
    | none ↦ negsuc (s.flow_epoch * 0x10000 + register)
    | some g ↦ g
  ]

  unfoldable pub define_register : ℕ → ℕ → ScanState → Result ScanState
  unfolding validate_register define_each
  define_register register width s =
      validate_register register width >> ok (define_each register width s)

  unfoldable pub copy_register : ℕ → ℕ → ScanState → Result ScanState
  unfolding validate_register register_generation register_value pop
  copy_register destination source s =
      validate_register destination 1
      >> (validate_register source 1
          >> (let constants =
                elim (register_value source s.constants) as (λ x. Registers DexConstant) [
                  | none ↦ pop destination s.constants
                  | some c ↦ put destination c s.constants
                ] in
              ok (record s {
                constants = constants;
                register_generations =
                    put destination (register_generation s source) s.register_generations;
              })))

  unfoldable pub load_literal : ℕ → DexConstant → ScanState → Result ScanState
  unfolding define_register
  load_literal register c s = define_register register 1 s >>= λ s'. ok (put_constant register c s')

  -- The wide moves: the source is validated, the destination defined.
  unfoldable pub move_wide : ℕ → ℕ → ScanState → Result ScanState
  unfolding validate_register define_register
  move_wide destination source s = validate_register source 2 >> define_register destination 2 s

  unfoldable pub load_string : ℕ → ℕ → ScanState → Result ScanState
  unfolding load_literal
  load_string register index s =
      require (ltb index code.string_count) dex_format_error
        "DEX const-string references an invalid string index."
      >> load_literal register (string_index index) s

  unfoldable pub apply_effect : Effect → ScanState → Result ScanState
  unfolding define_register clear_flow_state
  apply_effect (defines register width) s = define_register register width s
  apply_effect clears s = ok (clear_flow_state s)
  apply_effect nothing s = ok s
