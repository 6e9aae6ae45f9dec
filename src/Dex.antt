-- ===== src/Dex.antt =====
-- android_assessor/static_apk_analysis.py: the decoding of the numbers, the bounds of tables and the code
-- units that a DEX file is made of. A file is the list of its bytes. The modules below hold the rest of
-- `parse_dex_inventory`, and the proofs about it.
pub mod Numbers
pub mod Strings
pub mod Instructions
pub mod Registers
pub mod Scan
pub mod Raises
pub mod Steps
pub mod Scanned
pub mod CodeItem
pub mod Units
pub mod Totality
pub mod Policy
pub mod Texts
pub mod Tables
pub mod Prototypes
pub mod MethodTable
pub mod Algorithms
pub mod Signals
pub mod CryptoSignals
pub mod WebSignals
pub mod CodeSignals
pub mod Behavior
pub mod Classes
pub mod Inventory
pub mod Reads
pub mod TablesRead
pub mod Cached
pub mod PrototypesRead
pub mod MethodsRead
pub mod Grounded
pub mod Bridges
pub mod Keeping
pub mod Exposure
pub mod Lasting
pub mod Scripts
pub mod Noticed
pub mod Detection
pub mod Reported
pub mod Ends
pub mod Budgets
pub mod Scans
pub mod Visits
pub mod HeaderRead
pub mod Parsed
use android_appsec_assessor.Prelude.{
  ℕ, zero, suc, ◌+◌, ◌*◌, ◌%◌, ◌^◌, Bool, not, ◌&&◌, ◌||◌, none, some, List, [], ◌∷◌, length,
  get_elem?, ltb, leb, ◌==◌, if◌then◌else◌,
}
use android_appsec_assessor.Errors.{Result, ok, err, fault, dex_format_error}

-- A number and the offset behind it.
pub record Decoded : Type 0 where
  pub value : ℕ
  pub offset : ℕ

-- `_validate_table`.
unfoldable pub validate_table : List ℕ → ℕ → ℕ → ℕ → ℕ → Result (Unit {0})
validate_table bytes size offset item_size maximum =
    if ltb maximum size
    then err (fault dex_format_error "DEX table count exceeds the configured limit.")
    else if size == 0
    then (if not (offset == 0)
        then err (fault dex_format_error "Empty DEX table has a nonzero offset.")
        else ok tt)
    else if ltb offset 112
        || not (offset % 4 == 0)
        || ltb (length bytes) (offset + size * item_size)
    then err (fault dex_format_error "DEX table is outside the file bounds.")
    else ok tt

-- The loop of `_read_uleb128`, from a round on. The new digit lies above the old ones, so that `|=`
-- is a sum; `value & 0x80` is zero for a byte below 128.
unfoldable pub uleb_from : ℕ → List ℕ → ℕ → ℕ → ℕ → Result Decoded
uleb_from zero bytes offset index decoded =
    err (fault dex_format_error "DEX ULEB128 value is malformed.")
uleb_from (suc rounds) bytes offset index decoded = elim (get_elem? bytes (offset + index)) [
  | none ↦ err (fault dex_format_error "DEX ULEB128 value is truncated.")
  | some value ↦
      let more =
        uleb_from rounds bytes offset (suc index) (decoded + value % 128 * 2 ^ (index * 7)) in
      if ltb value 128
      then (if index == 4 && ltb 15 value
          then err (fault dex_format_error "DEX ULEB128 value overflows 32 bits.")
          else ok (record {
            value = decoded + value % 128 * 2 ^ (index * 7);
            offset = offset + index + 1;
          }))
      else more
]

-- `_read_uleb128`
unfoldable pub read_uleb128 : List ℕ → ℕ → Result Decoded
read_uleb128 bytes offset = uleb_from 5 bytes offset 0 0

abbrev pub is_between : ℕ → ℕ → ℕ → Bool
is_between low high n = leb low n && leb n high

-- `byte & 0xC0 == 0x80`
abbrev pub is_continuation : ℕ → Bool
is_continuation b = is_between 128 191 b

abbrev pub and_then : ℕ → Result (List ℕ) → Result (List ℕ)
and_then unit (ok units) = ok (unit ∷ units)
and_then unit (err e) = err e

abbrev pub unit_of_two : ℕ → ℕ → ℕ
unit_of_two first second = first % 32 * 64 + second % 64

abbrev pub unit_of_three : ℕ → ℕ → ℕ → ℕ
unit_of_three first second third = first % 16 * 4096 + second % 64 * 64 + third % 64

-- The two longer forms of a code unit, each before what follows it.
unfoldable pub two_bytes : ℕ → ℕ → Result (List ℕ) → Result (List ℕ)
two_bytes first second rest =
    if not (is_continuation second)
    then err (fault dex_format_error "DEX string contains malformed MUTF-8.")
    else if ltb (unit_of_two first second) 128 && not (unit_of_two first second == 0)
    then err (fault dex_format_error "DEX string contains overlong MUTF-8.")
    else and_then (unit_of_two first second) rest

unfoldable pub three_bytes : ℕ → ℕ → ℕ → Result (List ℕ) → Result (List ℕ)
three_bytes first second third rest =
    if not (is_continuation second) || not (is_continuation third)
    then err (fault dex_format_error "DEX string contains malformed MUTF-8.")
    else if ltb (unit_of_three first second third) 2048
    then err (fault dex_format_error "DEX string contains overlong MUTF-8.")
    else and_then (unit_of_three first second third) rest

abbrev pub unsupported : Result (List ℕ)
unsupported = err (fault dex_format_error "DEX string contains unsupported MUTF-8.")

-- The loop of `_read_dex_string` over the bytes before the terminator.
unfoldable pub code_units : List ℕ → Result (List ℕ)
code_units [] = ok []
code_units (a ∷ []) = if is_between 1 127 a then ok (a ∷ []) else unsupported
code_units (a ∷ b ∷ []) =
    let rest = code_units (b ∷ []) in
    if is_between 1 127 a
    then and_then a rest
    else if is_between 192 223 a
    then two_bytes a b (ok [])
    else unsupported
code_units (a ∷ b ∷ c ∷ more) =
    let after_one = code_units (b ∷ c ∷ more) in
    let after_two = code_units (c ∷ more) in
    let after_three = code_units more in
    if is_between 1 127 a
    then and_then a after_one
    else if is_between 192 223 a
    then two_bytes a b after_two
    else if is_between 224 239 a
    then three_bytes a b c after_three
    else unsupported
