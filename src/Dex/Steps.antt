-- ===== src/Dex/Steps.antt =====
-- What a step of the scan leaves: the branches of the loop raise nothing but `DexFormatError`.
use android_appsec_assessor.Prelude.{
  ℕ, ◌+◌, ◌/◌, ◌%◌, ◌≤◌, ◌<◌, ◌≡◌, not, inl, inr, Option, none, some, List, [], ◌∷◌, ◌++◌, any,
  length, length-append, get_elem?, ltb, leb, ◌==◌, arith, Bool-cases, Option-cases,
}
use android_appsec_assessor.Errors.{Result, ok, ◌>>=◌}
use android_appsec_assessor.Dex.{is_between}
use android_appsec_assessor.Dex.Instructions.{is_one_of, invoke_registers}
use android_appsec_assessor.Dex.Registers.{
  DexMethodReference, Code, ScanState, define_register, effect_of, is_invoke, is_load, is_move,
}
use android_appsec_assessor.Dex.Scan.{
  record_invocation, invoke, load_constant, move, apply_instruction,
}
use android_appsec_assessor.Dex.Raises.{
  Owes, Owes-bind, Owes-if, Owes-require, Owes-ok, Owes-err, Owes-unit, reads, load_reads,
  move_reads, IsBounded, define_register-Owes, copy_register-Owes, load_literal-Owes,
  move_wide-Owes, load_string-Owes, apply_effect-Owes,
}

one_more : {A : Type 0} (xs : List A) (x : A) (n : ℕ) → length xs < n → length (xs ++ (x ∷ [])) ≤ n
one_more xs x n h = omega (arith, length-append xs (x ∷ []), h)

module _ (code : Code) (first offset : ℕ) (s : ScanState) (h : IsBounded code s) where
  load_constant-Owes :
      (opcode : ℕ)
      → offset + load_reads opcode ≤ length code.insns
      → Owes (IsBounded code) (load_constant code opcode first offset s)
  unfolding load_constant load_reads
  load_constant-Owes opcode r =
      let split = Owes-if (IsBounded code) in
      let read = Owes-unit (IsBounded code) code.insns in
      split (opcode == 0x12) _ _ (λ e. load_literal-Owes code _ _ s h)
        (λ e1.
          split (opcode == 0x13) _ _
            (λ e.
              Owes-bind (IsBounded code) (IsBounded code) (define_register code _ 1 s) _
                (define_register-Owes code _ 1 s h)
                (λ s' h'. read (offset + 1) _ (ground arith) (λ u. Owes-ok (IsBounded code) _ h')))
            (λ e2.
              split (opcode == 0x14) _ _
                (λ e. read (offset + 1) _ (ground arith) (λ low.
                  read (offset + 2) _ (ground arith) (λ high. load_literal-Owes code _ _ s h)))
                (λ e3.
                  split (opcode == 0x15) _ _
                    (λ e.
                      read (offset + 1) _ (ground arith) (λ high. load_literal-Owes code _ _ s h))
                    (λ e4.
                      split (is_between 0x16 0x19 opcode) _ _
                        (λ e. define_register-Owes code _ 2 s h)
                        (λ e5.
                          split (opcode == 0x1A) _ _
                            (λ e.
                              read (offset + 1) _ (ground arith)
                                (λ index. load_string-Owes code _ _ s h))
                            (λ e6. read (offset + 1) _ (ground arith) (λ low.
                              read (offset + 2) _ (ground arith)
                                (λ high. load_string-Owes code _ _ s h))))))))

  move-Owes :
      (opcode : ℕ)
      → offset + move_reads opcode ≤ length code.insns
      → Owes (IsBounded code) (move code opcode first offset s)
  unfolding move move_reads
  move-Owes opcode r =
      let split = Owes-if (IsBounded code) in
      let read = Owes-unit (IsBounded code) code.insns in
      split (is_one_of (0x01 ∷ 0x07 ∷ []) opcode) _ _ (λ e. copy_register-Owes code _ _ s h)
        (λ e1.
          split (opcode == 0x04) _ _ (λ e. move_wide-Owes code _ _ s h)
            (λ e2.
              split (is_one_of (0x02 ∷ 0x08 ∷ []) opcode) _ _
                (λ e.
                  read (offset + 1) _ (ground arith) (λ source. copy_register-Owes code _ _ s h))
                (λ e3.
                  split (opcode == 0x05) _ _
                    (λ e.
                      read (offset + 1) _ (ground arith) (λ source. move_wide-Owes code _ _ s h))
                    (λ e4.
                      split (is_one_of (0x03 ∷ 0x09 ∷ []) opcode) _ _
                        (λ e. read (offset + 1) _ (ground arith) (λ destination.
                          read (offset + 2) _ (ground arith)
                            (λ source. copy_register-Owes code _ _ s h)))
                        (λ e5. read (offset + 2) _ (ground arith) (λ source.
                          read (offset + 1) _ (ground arith)
                            (λ destination. move_wide-Owes code _ _ s h)))))))

  -- What a step leaves: the budget is spent, or the calls stay within it.
  abbrev pub IsStep : Option ScanState → Type 0
  IsStep none = length s.invocations ≡ code.invocation_budget
  IsStep (some s') = IsBounded code s'

  record_invocation-IsStep :
      (reference : Option DexMethodReference) (registers : List ℕ) (opcode : ℕ)
      → IsStep (record_invocation code reference registers opcode s)
  unfolding record_invocation
  record_invocation-IsStep none registers opcode = h
  record_invocation-IsStep (some reference) registers opcode =
      elim (Bool-cases (leb code.invocation_budget (length s.invocations))) [
        | inl spent ↦ rw spent (ground (arith, spent, h))
        | inr more ↦
            rw more (one_more s.invocations _ code.invocation_budget (ground (arith, more)))
      ]

  invoke_registers-Owes :
      {B : Type 0} (Q : B → Type 0) (next : List ℕ → Result B)
      → offset + 3 ≤ length code.insns
      → ((registers : List ℕ) → Owes Q (next registers))
      → Owes Q (invoke_registers code.insns offset first >>= next)
  unfolding invoke_registers
  invoke_registers-Owes Q next r k =
      let any_list = λ (registers : List ℕ). Unit {0} in
      Owes-bind any_list Q (invoke_registers code.insns offset first) next
        (Owes-if any_list (is_between 0x6E 0x72 (first % 256)) _ _
          (λ e.
            Owes-if any_list (ltb 5 (first / 4096 % 16)) _ _ (λ f. Owes-err any_list _)
              (λ f.
                Owes-unit any_list code.insns (offset + 2) _ (omega arith)
                  (λ packed. Owes-ok any_list _ tt)))
          (λ e.
            Owes-unit any_list code.insns (offset + 2) _ (omega arith)
              (λ start. Owes-ok any_list _ tt)))
        (λ registers done. k registers)

  invoke-Owes : offset + 3 ≤ length code.insns → Owes IsStep (invoke code first offset s)
  unfolding invoke
  invoke-Owes r = invoke_registers-Owes IsStep _ r (λ registers.
      Owes-require IsStep (not (any (λ r. leb code.registers_size r) registers)) _ _ (λ valid.
        Owes-unit IsStep code.insns (offset + 1) _ (omega arith) (λ method_index.
          elim (Option-cases (get_elem? code.method_table method_index)) [
            | inl missing ↦ rw missing (Owes-err IsStep _)
            | inr (reference, found) ↦
                rw found (Owes-ok IsStep _ (record_invocation-IsStep reference registers _))
          ])))

  pub apply_instruction-Owes :
      offset + reads (first % 256) ≤ length code.insns
      → Owes IsStep (apply_instruction code first offset s)
  unfolding apply_instruction reads
  apply_instruction-Owes r =
      let split = Owes-if IsStep in
      let go = λ (result : Result ScanState) (o : Owes (IsBounded code) result).
        Owes-bind (IsBounded code) IsStep result (λ s'. ok (some s')) o
          (λ s' h'. Owes-ok IsStep (some s') h') in
      split (is_load (first % 256)) _ _
        (λ e. go _ (load_constant-Owes (first % 256) (ground arith)))
        (λ e1.
          split (is_move (first % 256)) _ _ (λ e. go _ (move-Owes (first % 256) (ground arith)))
            (λ e2.
              split (is_invoke (first % 256)) _ _ (λ e. invoke-Owes (ground arith))
                (λ e3. go _ (apply_effect-Owes code (effect_of first (first % 256)) s h))))
