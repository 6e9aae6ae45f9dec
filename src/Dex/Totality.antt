-- ===== src/Dex/Totality.antt =====
-- The scan of a code item ends and raises nothing but `DexFormatError`, whatever the file holds.
use android_appsec_assessor.Prelude.{
  ℕ, ◌+◌, ◌*◌, ◌%◌, ◌≤◌, ◌<◌, ◌≡◌, not, ◌||◌, Option, List, length, take, ltb, ◌==◌, arith,
}
use android_appsec_assessor.Dex.Registers.{DexMethodReference, Code, Scanned}
use android_appsec_assessor.Dex.Scan.{scan}
use android_appsec_assessor.Dex.Instructions.{unit}
use android_appsec_assessor.Dex.Units.{length-cast_units, unit-cast_units}
use android_appsec_assessor.Errors.{ok}
use android_appsec_assessor.Dex.CodeItem.{
  uint16_at, uint32, units_of, bytes_from, tries_fit, scan_units, scan_dex_invocations,
}
use android_appsec_assessor.Dex.Raises.{
  Owes, Owes-bind, Owes-if, Owes-require, Owes-ok, Owes-err, Owes-unit, Owes-both, Owes-eq,
}
use android_appsec_assessor.Dex.Scanned.{IsScanned, scan-IsScanned}

abbrev pub Anything : ℕ → Type 0
Anything n = Unit {0}

pub uint16_at-Owes :
    (file : List ℕ) (offset : ℕ) → offset + 2 ≤ length file → Owes Anything (uint16_at file offset)
unfolding uint16_at
uint16_at-Owes file offset h = Owes-unit Anything file offset _ (omega (arith, h)) (λ low.
    Owes-unit Anything file (offset + 1) _ (omega (arith, h)) (λ high. Owes-ok Anything _ tt))

pub uint32-Owes : (file : List ℕ) (offset : ℕ) → Owes Anything (uint32 file offset)
unfolding uint32
uint32-Owes file offset =
    Owes-if Anything (ltb (length file) (offset + 4)) _ _ (λ e. Owes-err Anything _)
      (λ e.
        Owes-bind Anything Anything (uint16_at file offset) _
          (uint16_at-Owes file offset (ground (arith, e)))
          (λ low l.
            Owes-bind Anything Anything (uint16_at file (offset + 2)) _
              (uint16_at-Owes file (offset + 2) (ground (arith, e)))
              (λ high r. Owes-ok Anything _ tt)))

module _ (file : List ℕ) (method_table : List (Option DexMethodReference))
    (string_count invocation_budget code_offset : ℕ) where
  abbrev code_of : List ℕ → ℕ → Code
  code_of insns registers_size = record {
    insns = insns;
    registers_size = registers_size;
    string_count = string_count;
    method_table = method_table;
    invocation_budget = invocation_budget;
  }

  -- The code item of a method, and that the result is the scan of its units.
  pub record IsScanOf (r : Scanned) : Type 0 where
    pub registers_size : ℕ
    pub registers_read : uint16_at file code_offset ≡ ok registers_size
    pub insns_size : ℕ
    pub size_read : uint32 file (code_offset + 12) ≡ ok insns_size
    pub in_file : code_offset + 16 + insns_size * 2 ≤ length file
    pub insns : List ℕ
    pub declared : length insns ≡ insns_size
    pub units : (i : ℕ) → i < insns_size → unit insns i ≡ uint16_at file (code_offset + 16 + i * 2)
    pub result : scan (code_of insns registers_size) ≡ ok r
    pub scanned : IsScanned (code_of insns registers_size) r

  scan_units-Owes :
      (registers_size tries_size insns_size : ℕ)
      → uint16_at file code_offset ≡ ok registers_size
      → uint32 file (code_offset + 12) ≡ ok insns_size
      → Owes IsScanOf (
          scan_units file method_table string_count invocation_budget code_offset registers_size
            tries_size insns_size)
  unfolding scan_units
  scan_units-Owes registers_size tries_size insns_size registers_read size_read =
      Owes-require IsScanOf (not (ltb (length file) (code_offset + 16 + insns_size * 2))) _ _ (λ e.
        Owes-require IsScanOf
          (tries_fit file (code_offset + 16 + insns_size * 2) insns_size tries_size) _ _
          (λ f.
            let fits : code_offset + 16 + insns_size * 2 ≤ length file = ground (arith, e) in
            let insns = units_of (take (insns_size * 2) (bytes_from (code_offset + 16) file)) in
            let code = code_of insns registers_size in
            let of_code = scan-IsScanned code in
            Owes-both (IsScanned code) IsScanOf (scan code) of_code (λ r result scanned. record {
              registers_size = registers_size;
              registers_read = registers_read;
              insns_size = insns_size;
              size_read = size_read;
              in_file = fits;
              insns = insns;
              declared = length-cast_units file (code_offset + 16) insns_size fits;
              units = unit-cast_units file (code_offset + 16) insns_size fits;
              result = result;
              scanned = scanned;
            })))

  -- The scan of the code item of a method, whatever the file holds and wherever the item is, ends and
  -- reads no byte outside of the file: it returns, or raises `DexFormatError`. What it returns is the
  -- result of `scan` on the code of the item: its register count is the number at the start of the
  -- item, its length the number at byte 12, its unit i the 16-bit number at byte 16 + 2 * i of the
  -- item, all of them in the file, and its tables and its budget those given. It ends in that code,
  -- and at its end where no instruction was unsupported and the budget was not spent; it has no more
  -- calls than the budget, and as many where it says that the budget was spent.
  pub scan_dex_invocations-IsScanOf :
      Owes IsScanOf
        (scan_dex_invocations file method_table string_count invocation_budget code_offset)
  unfolding scan_dex_invocations
  scan_dex_invocations-IsScanOf =
      Owes-if IsScanOf
        (ltb code_offset 112 || not (code_offset % 4 == 0) || ltb (length file) (code_offset + 16))
        _ _ (λ e. Owes-err IsScanOf _)
        (λ e.
          let head : code_offset + 16 ≤ length file = ground (arith, e) in
          Owes-bind (λ n. uint16_at file code_offset ≡ ok n) IsScanOf (uint16_at file code_offset) _
            (Owes-eq Anything _ (uint16_at-Owes file code_offset (omega (arith, head))))
            (λ registers_size a.
              Owes-bind Anything IsScanOf (uint16_at file (code_offset + 6)) _
                (uint16_at-Owes file (code_offset + 6) (omega (arith, head)))
                (λ tries_size b.
                  Owes-bind (λ n. uint32 file (code_offset + 12) ≡ ok n) IsScanOf
                    (uint32 file (code_offset + 12)) _
                    (Owes-eq Anything _ (uint32-Owes file (code_offset + 12)))
                    (λ insns_size read.
                      scan_units-Owes registers_size tries_size insns_size a read))))
