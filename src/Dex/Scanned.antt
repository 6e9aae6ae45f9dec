-- ===== src/Dex/Scanned.antt =====
-- What the scan of a method's units returns, and that it raises nothing but `DexFormatError`.
use android_appsec_assessor.Prelude.{
  ℕ, zero, suc, ◌+◌, ◌-◌, ◌%◌, ◌≤◌, ◌<◌, ◌≡◌, refl, Bool, true, false, not, ◌||◌, inl, inr, Option,
  none, some, List, [], ◌∷◌, length, ltb, leb, ◌==◌, arith, Option-cases, if◌then◌else◌,
}
use android_appsec_assessor.Errors.{Result, ok, err, fault, dex_format_error, ◌>>=◌}
use android_appsec_assessor.Dex.Instructions.{
  is_one_of, payload_width, opcode_width, instruction_width,
}
use android_appsec_assessor.Dex.Registers.{Code, ScanState, Scanned, returned}
use android_appsec_assessor.Dex.Scan.{apply_instruction, scan_from, scan}
use android_appsec_assessor.Dex.Raises.{
  Owes, Owes-bind, Owes-if, Owes-ok, Owes-err, Owes-unit, reads, load_reads, move_reads,
  reads-bound, IsBounded,
}
use android_appsec_assessor.Dex.Steps.{IsStep, apply_instruction-Owes}

-- The width of an instruction covers what its branch reads.
abbrev Covers : ℕ → Option ℕ → Type 0
Covers first none = Unit {0}
Covers first (some w) = 1 ≤ w → reads (first % 256) ≤ w

payload_reads : (first : ℕ) → first % 256 ≡ 0 → reads (first % 256) ≡ 1
unfolding reads load_reads move_reads
payload_reads first payload = rw payload refl

payload_width-Covers :
    (insns : List ℕ) (offset first : ℕ)
    → offset < length insns
    → first % 256 ≡ 0
    → Owes (Covers first) (payload_width insns offset first)
unfolding payload_width
payload_width-Covers insns offset first inside payload =
    let split = Owes-if (Covers first) in
    let read = Owes-unit (Covers first) insns in
    let wide =
      λ (w : ℕ). Owes-ok (Covers first) (some w) (λ one. rw (payload_reads first payload) one) in
    split (first == 0x0100) _ _
      (λ e.
        split (ltb (length insns - offset) 2) _ _ (λ f. Owes-err (Covers first) _)
          (λ f. read (offset + 1) _ (ground arith) (λ size. wide _)))
      (λ e1.
        split (first == 0x0200) _ _
          (λ e.
            split (ltb (length insns - offset) 2) _ _ (λ f. Owes-err (Covers first) _)
              (λ f. read (offset + 1) _ (ground arith) (λ size. wide _)))
          (λ e2.
            split (first == 0x0300) _ _
              (λ e.
                split (ltb (length insns - offset) 4) _ _ (λ f. Owes-err (Covers first) _)
                  (λ f. read (offset + 1) _ (ground arith) (λ element_width.
                    read (offset + 2) _ (ground arith) (λ low.
                      read (offset + 3) _ (ground arith) (λ high.
                        split (not (is_one_of (1 ∷ 2 ∷ 4 ∷ 8 ∷ []) element_width)) _ _
                          (λ g. Owes-err (Covers first) _) (λ g. wide _))))))
              (λ e3. Owes-ok (Covers first) none tt)))

instruction_width-Covers :
    (insns : List ℕ) (offset first : ℕ)
    → offset < length insns
    → Owes (Covers first) (instruction_width insns offset first)
unfolding instruction_width
instruction_width-Covers insns offset first inside =
    Owes-if (Covers first) (first % 256 == 0) _ _
      (λ e.
        Owes-if (Covers first) (first == 0) _ _
          (λ f.
            Owes-ok (Covers first) (some 1)
              (λ one. rw (payload_reads first (ground (arith, e))) one))
          (λ f. payload_width-Covers insns offset first inside (ground arith)))
      (λ e.
        Owes-ok (Covers first) (opcode_width (first % 256))
          (elim (Option-cases (opcode_width (first % 256))) [
            | inl missing ↦ rw missing tt
            | inr (w, found) ↦ rw found (λ one. reads-bound (first % 256) w (omega arith) found)
          ]))

-- What a scan that returns tells.
pub record IsScanned (code : Code) (r : Scanned) : Type 0 where
  pub inside : r.offset ≤ length code.insns
  pub bounded : length r.invocations ≤ code.invocation_budget
  pub complete : r.unsupported ≡ false → r.limited ≡ false → r.offset ≡ length code.insns
  pub spent : r.limited ≡ true → length r.invocations ≡ code.invocation_budget

-- A scan that ends at an offset, with the two flags.
returned-IsScanned :
    (code : Code) (s : ScanState) (offset : ℕ) (unsupported limited : Bool)
    → IsBounded code s
    → offset ≤ length code.insns
    → (unsupported ≡ false → limited ≡ false → length code.insns ≤ offset)
    → (limited ≡ true → length s.invocations ≡ code.invocation_budget)
    → Owes (IsScanned code) (ok (returned s offset unsupported limited))
returned-IsScanned code s offset unsupported limited h o finished full =
    Owes-ok (IsScanned code) _ (record {
      inside = o;
      bounded = h;
      complete = λ a b. let reached = finished a b in omega arith;
      spent = full;
    })

module _ (code : Code) (fuel offset : ℕ) (s : ScanState) (h : IsBounded code s)
    (inside : offset < length code.insns)
    (again : (next : ℕ) (s' : ScanState)
      → IsBounded code s'
      → offset < next
      → next ≤ length code.insns
      → Owes (IsScanned code) (scan_from code fuel next s')) where
  after_step :
      (width : ℕ) (done : Option ScanState)
      → 1 ≤ width
      → offset + width ≤ length code.insns
      → IsStep code 0 0 s h done
      → Owes (IsScanned code) (elim done as (λ x. Result Scanned) [
        | none ↦ ok (returned s offset false true)
        | some s' ↦ scan_from code fuel (offset + width) s'
      ])
  after_step width none one fits spent =
      returned-IsScanned code s offset false true h (omega arith) (λ a b. absurd cc) (λ l. spent)
  after_step width (some s') one fits bounded =
      again (offset + width) s' bounded (omega arith) (omega arith)

  after_width :
      (first : ℕ) (width : Option ℕ)
      → Covers first width
      → Owes (IsScanned code) (elim width as (λ x. Result Scanned) [
        | none ↦ ok (returned s offset true false)
        | some w ↦
            if ltb w 1 || ltb (length code.insns) (offset + w)
            then err (fault dex_format_error "DEX instruction is truncated.")
            else (apply_instruction code first offset s >>= λ done.
                elim done as (λ x. Result Scanned) [
                  | none ↦ ok (returned s offset false true)
                  | some s' ↦ scan_from code fuel (offset + w) s'
                ])
      ])
  after_width first none covers =
      returned-IsScanned code s offset true false h (omega arith) (λ a b. absurd cc)
        (λ l. absurd cc)
  after_width first (some w) covers =
      Owes-if (IsScanned code) (ltb w 1 || ltb (length code.insns) (offset + w)) _ _
        (λ e. Owes-err (IsScanned code) _)
        (λ e.
          let one : 1 ≤ w = ground (arith, e) in
          let fits : offset + w ≤ length code.insns = ground (arith, e) in
          let read = covers one in
          Owes-bind (IsStep code first offset s h) (IsScanned code)
            (apply_instruction code first offset s) _
            (apply_instruction-Owes code first offset s h (omega (arith, read, fits)))
            (λ done left. after_step w done one fits left))

scan_from-Owes :
    (code : Code) (fuel offset : ℕ) (s : ScanState)
    → IsBounded code s
    → offset ≤ length code.insns
    → length code.insns ≤ offset + fuel
    → Owes (IsScanned code) (scan_from code fuel offset s)
unfolding scan_from
scan_from-Owes code zero offset s h o enough =
    Owes-if (IsScanned code) (leb (length code.insns) offset) _ _
      (λ e.
        returned-IsScanned code s offset false false h o (λ a b. ground (arith, e))
          (λ l. absurd cc))
      (λ e. absurd (ground (arith, e)))
scan_from-Owes code (suc fuel) offset s h o enough =
    Owes-if (IsScanned code) (leb (length code.insns) offset) _ _
      (λ e.
        returned-IsScanned code s offset false false h o (λ a b. ground (arith, e))
          (λ l. absurd cc))
      (λ e.
        let inside : offset < length code.insns = ground (arith, e) in
        Owes-unit (IsScanned code) code.insns offset _ inside (λ first.
          Owes-bind (Covers first) (IsScanned code) (instruction_width code.insns offset first) _
            (instruction_width-Covers code.insns offset first inside)
            (λ width covers.
              after_width code fuel offset s h inside
                (λ next s' h' more fits. scan_from-Owes code fuel next s' h' fits (omega arith))
                first width covers)))

-- The scan of any code ends, and never reads a unit outside of it.
pub scan-IsScanned : (code : Code) → Owes (IsScanned code) (scan code)
unfolding scan
scan-IsScanned code =
    scan_from-Owes code (length code.insns) 0 _ (ground arith) (omega arith) (omega arith)
