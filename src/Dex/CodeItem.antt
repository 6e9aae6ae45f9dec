-- ===== src/Dex/CodeItem.antt =====
-- The head of `_scan_dex_invocations` of android_assessor/static_apk_analysis.py: it reads the code item
-- of a method from the bytes of a file. A byte that is read outside of the file raises
-- `struct.error`, which is an `other_error` here.
use android_appsec_assessor.Prelude.{
  ℕ, zero, suc, ◌+◌, ◌*◌, ◌%◌, Bool, not, ◌||◌, Option, List, [], ◌∷◌, length, take, ltb, ◌==◌,
  if◌then◌else◌,
}
use android_appsec_assessor.Errors.{Result, ok, err, fault, dex_format_error, require, ◌>>=◌, ◌>>◌}
use android_appsec_assessor.Dex.Instructions.{unit}
use android_appsec_assessor.Dex.Registers.{DexMethodReference, Scanned}
use android_appsec_assessor.Dex.Scan.{scan}

-- A number of `struct.unpack_from` in a file that is checked to hold it.
unfoldable pub uint16_at : List ℕ → ℕ → Result ℕ
uint16_at file offset =
    unit file offset >>= λ low. (unit file (offset + 1) >>= λ high. ok (low + high * 256))

-- `_uint32`
unfoldable pub uint32 : List ℕ → ℕ → Result ℕ
uint32 file offset =
    if ltb (length file) (offset + 4)
    then err (fault dex_format_error "DEX integer is outside the file bounds.")
    else (uint16_at file offset >>= λ low.
        (uint16_at file (offset + 2) >>= λ high. ok (low + high * 65536)))

-- `memoryview(data)[…].cast("H")`
unfoldable pub units_of : List ℕ → List ℕ
units_of [] = []
units_of (low ∷ []) = []
units_of (low ∷ high ∷ bytes) = (low + high * 256) ∷ units_of bytes

unfoldable pub bytes_from : ℕ → List ℕ → List ℕ
bytes_from zero bytes = bytes
bytes_from (suc n) [] = []
bytes_from (suc n) (b ∷ bytes) = bytes_from n bytes

abbrev pub is_odd : ℕ → Bool
is_odd n = n % 2 == 1

-- The table of the exception handlers lies in the file, too.
unfoldable pub tries_fit : List ℕ → ℕ → ℕ → ℕ → Bool
tries_fit file insns_end insns_size tries_size =
    tries_size == 0
    || not (ltb (length file) (insns_end + (if is_odd insns_size then 2 else 0) + tries_size * 8))

module _ (file : List ℕ) (method_table : List (Option DexMethodReference))
    (string_count invocation_budget : ℕ) where
  -- The scan of the units behind the head, once its numbers are read.
  unfoldable pub scan_units : ℕ → ℕ → ℕ → ℕ → Result Scanned
  scan_units code_offset registers_size tries_size insns_size =
      let insns_offset = code_offset + 16 in
      let insns_end = insns_offset + insns_size * 2 in
      require (not (ltb (length file) insns_end)) dex_format_error
        "DEX code instructions are truncated."
      >> (require (tries_fit file insns_end insns_size tries_size) dex_format_error
            "DEX code exception table is truncated."
          >> scan (record {
            insns = units_of (take (insns_size * 2) (bytes_from insns_offset file));
            registers_size = registers_size;
            string_count = string_count;
            method_table = method_table;
            invocation_budget = invocation_budget;
          }))

  -- `_scan_dex_invocations`
  unfoldable pub scan_dex_invocations : ℕ → Result Scanned
  scan_dex_invocations code_offset =
      if ltb code_offset 112 || not (code_offset % 4 == 0) || ltb (length file) (code_offset + 16)
      then err (fault dex_format_error "DEX code item is outside the file bounds.")
      else (uint16_at file code_offset >>= λ registers_size.
          (uint16_at file (code_offset + 6) >>= λ tries_size.
          (uint32 file (code_offset + 12) >>= λ insns_size.
          scan_units code_offset registers_size tries_size insns_size)))
