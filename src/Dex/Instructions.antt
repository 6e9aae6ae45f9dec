-- ===== src/Dex/Instructions.antt =====
-- The instructions of a method in android_assessor/static_apk_analysis.py: their widths, the registers
-- of a call and sign extension. The code is the list of its 16-bit units; a unit that is read outside
-- of it raises `IndexError`, which is an `other_error` here.
use android_appsec_assessor.Prelude.{
  ℕ, zero, suc, ◌+◌, ◌*◌, ◌-◌, ◌/◌, ◌%◌, ◌^◌, Bool, not, ◌||◌, Option, none, some, List, [], ◌∷◌,
  any, length, get_elem?, take, ltb, leb, ◌==◌, if◌then◌else◌,
}
use android_appsec_assessor.Prelude.Int.{ℤ, pos, negsuc}
use android_appsec_assessor.Errors.{Result, ok, err, fault, dex_format_error, other_error, ◌>>=◌}
use android_appsec_assessor.Dex.{is_between}

-- `insns[index]`
unfoldable pub unit : List ℕ → ℕ → Result ℕ
unit insns index = elim (get_elem? insns index) [
  | none ↦ err (fault other_error "index out of bounds on dimension 1")
  | some u ↦ ok u
]

-- `n in names`
unfoldable pub is_one_of : List ℕ → ℕ → Bool
is_one_of codes n = any (λ k. k == n) codes

-- `(value ^ sign) - sign` for the bit `sign = 1 << (bits - 1)`, which flips it.
unfoldable pub minus : ℕ → ℕ → ℤ
minus a b = if leb b a then pos (a - b) else negsuc (b - a - 1)

unfoldable pub sign_extend : ℕ → ℕ → ℤ
unfolding minus
sign_extend value bits =
    let sign = 2 ^ (bits - 1) in
    minus (if value / sign % 2 == 0 then value + sign else value - sign) sign

unfoldable pub payload_width : List ℕ → ℕ → ℕ → Result (Option ℕ)
unfolding unit is_one_of
payload_width insns offset signature =
    let remaining = length insns - offset in
    if signature == 0x0100
    then (if ltb remaining 2
        then err (fault dex_format_error "DEX packed-switch payload is truncated.")
        else (unit insns (offset + 1) >>= λ size. ok (some (4 + size * 2))))
    else if signature == 0x0200
    then (if ltb remaining 2
        then err (fault dex_format_error "DEX sparse-switch payload is truncated.")
        else (unit insns (offset + 1) >>= λ size. ok (some (2 + size * 4))))
    else if signature == 0x0300
    then (if ltb remaining 4
        then err (fault dex_format_error "DEX array-data payload is truncated.")
        else (unit insns (offset + 1) >>= λ element_width.
            (unit insns (offset + 2) >>= λ low.
            (unit insns (offset + 3) >>= λ high.
            if not (is_one_of (1 ∷ 2 ∷ 4 ∷ 8 ∷ []) element_width)
            then err (fault dex_format_error "DEX array-data element width is invalid.")
            else ok (some (4 + (element_width * (low + high * 65536) + 1) / 2))))))
    else ok none

-- The widths of the opcodes but 0, which stands for `nop` and for the payloads.
unfoldable pub opcode_width : ℕ → Option ℕ
unfolding is_one_of
opcode_width opcode =
    if is_one_of
        (0x02 ∷ 0x05 ∷ 0x08 ∷ 0x13 ∷ 0x15 ∷ 0x16 ∷ 0x19 ∷ 0x1A ∷ 0x1C ∷ 0x1F ∷ 0x20 ∷ 0x22 ∷ 0x23
          ∷ 0x29 ∷ 0xFE ∷ 0xFF ∷ [])
        opcode
      || is_between 0x2D 0x6D opcode
      || is_between 0x90 0xAF opcode
      || is_between 0xD0 0xE2 opcode
    then some 2
    else if is_one_of
        (0x03 ∷ 0x06 ∷ 0x09 ∷ 0x14 ∷ 0x17 ∷ 0x1B ∷ 0x24 ∷ 0x25 ∷ 0x26 ∷ 0x2A ∷ 0x2B ∷ 0x2C ∷ 0x6E
          ∷ 0x6F ∷ 0x70 ∷ 0x71 ∷ 0x72 ∷ 0x74 ∷ 0x75 ∷ 0x76 ∷ 0x77 ∷ 0x78 ∷ 0xFC ∷ 0xFD ∷ [])
        opcode
    then some 3
    else if is_one_of (0xFA ∷ 0xFB ∷ []) opcode
    then some 4
    else if opcode == 0x18
    then some 5
    else if is_between 0x01 0x12 opcode
        || is_between 0x1D 0x1E opcode
        || is_one_of (0x21 ∷ 0x27 ∷ 0x28 ∷ []) opcode
        || is_between 0x7B 0x8F opcode
        || is_between 0xB0 0xCF opcode
    then some 1
    else none

-- `_dex_instruction_width` at a unit that was read
unfoldable pub instruction_width : List ℕ → ℕ → ℕ → Result (Option ℕ)
instruction_width insns offset first =
    if first % 256 == 0
    then (if first == 0 then ok (some 1) else payload_width insns offset first)
    else ok (opcode_width (first % 256))

-- `range(start, start + count)`
unfoldable pub registers_from : ℕ → ℕ → List ℕ
registers_from start zero = []
registers_from start (suc count) = start ∷ registers_from (start + 1) count

-- `_invoke_registers` at a unit that was read
unfoldable pub invoke_registers : List ℕ → ℕ → ℕ → Result (List ℕ)
unfolding unit registers_from
invoke_registers insns offset first =
    if is_between 0x6E 0x72 (first % 256)
    then (let count = first / 4096 % 16 in
        if ltb 5 count
        then err (fault dex_format_error "DEX invoke argument count is invalid.")
        else (unit insns (offset + 2) >>= λ packed. ok (
            take count (
              packed % 16
              ∷ packed / 16 % 16
              ∷ packed / 256 % 16
              ∷ packed / 4096 % 16
              ∷ first / 256 % 16
              ∷ []))))
    else (unit insns (offset + 2) >>= λ start. ok (registers_from start (first / 256 % 256)))
