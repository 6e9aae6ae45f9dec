-- ===== src/Dex/Scan.antt =====
-- `_scan_dex_invocations` of android_assessor/static_apk_analysis.py over the units of a method: what
-- is known of its registers, and the calls that it makes.
use android_appsec_assessor.Prelude.{
  ℕ, zero, suc, ◌+◌, ◌*◌, ◌/◌, ◌%◌, true, false, not, ◌||◌, Option, none, some, List, [], ◌∷◌, ◌++◌,
  any, map, length, get_elem?, ltb, leb, ◌==◌, if◌then◌else◌,
}
use android_appsec_assessor.Errors.{
  Result, ok, err, fault, dex_format_error, other_error, require, ◌>>=◌, ◌>>◌,
}
use android_appsec_assessor.Dex.{is_between}
use android_appsec_assessor.Dex.Instructions.{
  unit, is_one_of, sign_extend, instruction_width, invoke_registers,
}
use android_appsec_assessor.Dex.Registers.{
  Code, DexMethodReference, ScanState, Scanned, apply_effect, copy_register, define_register,
  effect_of, invoke_kind_of, is_invoke, is_load, is_move, load_literal, load_string, move_wide,
  number, put_constant, register_generation, register_value, returned,
}

module _ (code : Code) where
  -- A call of a method; `none` where the budget is spent.
  unfoldable pub record_invocation :
      Option DexMethodReference → List ℕ → ℕ → ScanState → Option ScanState
  unfolding register_value register_generation invoke_kind_of
  record_invocation none registers opcode s = some s
  record_invocation (some reference) registers opcode s =
      if leb code.invocation_budget (length s.invocations)
      then none
      else some (record s {
        invocations =
            s.invocations
            ++ (record {
              reference = reference;
              arguments = map (λ r. register_value r s.constants) registers;
              argument_generations = map (register_generation code s) registers;
              invoke_kind = invoke_kind_of opcode;
            }
                ∷ []);
      })

  unfoldable pub invoke : ℕ → ℕ → ScanState → Result (Option ScanState)
  unfolding invoke_registers unit record_invocation
  invoke first offset s = invoke_registers code.insns offset first >>= λ registers.
      (require (not (any (λ r. leb code.registers_size r) registers)) dex_format_error
          "DEX invoke references an invalid register."
        >> (unit code.insns (offset + 1) >>= λ method_index.
            elim (get_elem? code.method_table method_index) [
              | none ↦ err (fault dex_format_error "DEX invoke references an invalid method index.")
              | some reference ↦ ok (record_invocation reference registers (first % 256) s)
            ]))

  -- The branches that load a constant.
  unfoldable pub load_constant : ℕ → ℕ → ℕ → ScanState → Result ScanState
  unfolding unit load_literal load_string sign_extend define_register
  load_constant opcode first offset s =
      let destination = first / 256 in
      if opcode == 0x12
      then load_literal code (first / 256 % 16) (number (sign_extend (first / 4096) 4)) s
      else if opcode == 0x13
      then (define_register code destination 1 s >>= λ s'.
          (unit code.insns (offset + 1) >>= λ u.
          ok (put_constant destination (number (sign_extend u 16)) s')))
      else if opcode == 0x14
      then (unit code.insns (offset + 1) >>= λ low.
          (unit code.insns (offset + 2) >>= λ high.
          load_literal code destination (number (sign_extend (low + high * 65536) 32)) s))
      else if opcode == 0x15
      then (unit code.insns (offset + 1) >>= λ high.
          load_literal code destination (number (sign_extend (high * 65536) 32)) s)
      else if is_between 0x16 0x19 opcode
      then define_register code destination 2 s
      else if opcode == 0x1A
      then (unit code.insns (offset + 1) >>= λ index. load_string code destination index s)
      else (unit code.insns (offset + 1) >>= λ low.
          (unit code.insns (offset + 2) >>= λ high.
          load_string code destination (low + high * 65536) s))

  -- The branches that move a register.
  unfoldable pub move : ℕ → ℕ → ℕ → ScanState → Result ScanState
  unfolding is_one_of unit copy_register move_wide
  move opcode first offset s =
      let nibble = first / 256 % 16 in
      let high = first / 4096 % 16 in
      if is_one_of (0x01 ∷ 0x07 ∷ []) opcode
      then copy_register code nibble high s
      else if opcode == 0x04
      then move_wide code nibble high s
      else if is_one_of (0x02 ∷ 0x08 ∷ []) opcode
      then (unit code.insns (offset + 1) >>= λ source. copy_register code (first / 256) source s)
      else if opcode == 0x05
      then (unit code.insns (offset + 1) >>= λ source. move_wide code (first / 256) source s)
      else if is_one_of (0x03 ∷ 0x09 ∷ []) opcode
      then (unit code.insns (offset + 1) >>= λ destination.
          (unit code.insns (offset + 2) >>= λ source. copy_register code destination source s))
      else (unit code.insns (offset + 2) >>= λ source.
          (unit code.insns (offset + 1) >>= λ destination. move_wide code destination source s))

  -- The branches on the opcode; `none` is the `break` of a call beyond the budget.
  unfoldable pub apply_instruction : ℕ → ℕ → ScanState → Result (Option ScanState)
  apply_instruction first offset s =
      let opcode = first % 256 in
      if is_load opcode
      then (load_constant opcode first offset s >>= λ s'. ok (some s'))
      else if is_move opcode
      then (move opcode first offset s >>= λ s'. ok (some s'))
      else if is_invoke opcode
      then invoke first offset s
      else (apply_effect code (effect_of first opcode) s >>= λ s'. ok (some s'))

  -- The loop, on fuel.
  unfoldable pub scan_from : ℕ → ℕ → ScanState → Result Scanned
  scan_from zero offset s =
      if leb (length code.insns) offset
      then ok (returned s offset false false)
      else err (fault other_error "out of fuel")
  scan_from (suc fuel) offset s =
      if leb (length code.insns) offset
      then ok (returned s offset false false)
      else (unit code.insns offset >>= λ first.
          (instruction_width code.insns offset first >>= λ read. elim read [
            | none ↦ ok (returned s offset true false)
            | some width ↦
                if ltb width 1 || ltb (length code.insns) (offset + width)
                then err (fault dex_format_error "DEX instruction is truncated.")
                else (apply_instruction first offset s >>= λ done. elim done [
                  | none ↦ ok (returned s offset false true)
                  | some s' ↦ scan_from fuel (offset + width) s'
                ])
          ]))

  unfoldable pub scan : Result Scanned
  unfolding scan_from
  scan = scan_from (length code.insns) 0 (record {
    constants = [];
    register_generations = [];
    next_generation = 1;
    flow_epoch = 0;
    invocations = [];
  })
