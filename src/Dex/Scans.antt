-- ===== src/Dex/Scans.antt =====
-- The scan of a method keeps the limits of the policy, and raises nothing but `DexFormatError` and
-- what `urlsplit` raises.
use android_appsec_assessor.Prelude.{
  ℕ, zero, suc, ◌+◌, ◌≤◌, ◌<◌, ◌≡◌, String, Option, none, some, List, length, ltb, leb, ◌==◌, arith,
}
use android_appsec_assessor.Errors.{ErrorKind, Result, ok, dex_format_error}
use android_appsec_assessor.Dex.{read_uleb128}
use android_appsec_assessor.Dex.Registers.{Text, DexMethodReference}
use android_appsec_assessor.Dex.CodeItem.{uint32, scan_dex_invocations}
use android_appsec_assessor.Dex.Policy.{StaticApkPolicy}
use android_appsec_assessor.Dex.Tables.{Texts}
use android_appsec_assessor.Dex.MethodTable.{Methods}
use android_appsec_assessor.Dex.Behavior.{Behavior, add_scan, behavior_signals}
use android_appsec_assessor.Dex.Classes.{
  MemberCounts, EncodedMethod, member_counts, skip_fields, read_encoded_method,
  remaining_code_units, remaining_invocations, with_method, scan_within, scan_code, scan_method,
}
use android_appsec_assessor.Dex.Raises.{Owes, Owes-eq, Owes-ok}
use android_appsec_assessor.Prelude.{All, All-map}
use android_appsec_assessor.Dex.Inventory.{known}
use android_appsec_assessor.Dex.Grounded.{IsRow, IsSignalOf, IsSignalAmong, IsRow-IsSignalAmong}
use android_appsec_assessor.Dex.Ends.{Ends, Ends-bind, Ends-ok, Ends-if, Ends-after, Ends-require}
use android_appsec_assessor.Dex.Totality.{
  IsScanOf, scan_dex_invocations-IsScanOf, uint32-Owes, Anything,
}
use android_appsec_assessor.Dex.Reads.{Some, Owes-then, read_uleb128-Owes}
use android_appsec_assessor.Dex.Budgets.{
  IsWithin, IsWithin-limit, IsWithin-add_signals, IsWithin-add_scan, Answers, behavior_signals-Ends,
}

module _ (file : List ℕ) where
  pub member_counts-Owes : (offset : ℕ) → Owes (Some MemberCounts) (member_counts file offset)
  unfolding member_counts
  member_counts-Owes offset =
      let done = Some MemberCounts in
      Owes-then done (read_uleb128 file offset) _ (read_uleb128-Owes file offset) (λ a.
        Owes-then done (read_uleb128 file a.offset) _ (read_uleb128-Owes file _) (λ b.
          Owes-then done (read_uleb128 file b.offset) _ (read_uleb128-Owes file _) (λ c.
            Owes-then done (read_uleb128 file c.offset) _ (read_uleb128-Owes file _)
              (λ d. Owes-ok done _ tt))))

  pub skip_fields-Owes : (count cursor : ℕ) → Owes (Some ℕ) (skip_fields file count cursor)
  unfolding skip_fields
  skip_fields-Owes zero cursor = Owes-ok (Some ℕ) cursor tt
  skip_fields-Owes (suc count) cursor =
      Owes-then (Some ℕ) (read_uleb128 file cursor) _ (read_uleb128-Owes file cursor) (λ a.
        Owes-then (Some ℕ) (read_uleb128 file a.offset) _ (read_uleb128-Owes file _)
          (λ b. skip_fields-Owes count b.offset))

  pub read_encoded_method-Owes :
      (cursor : ℕ) → Owes (Some EncodedMethod) (read_encoded_method file cursor)
  unfolding read_encoded_method
  read_encoded_method-Owes cursor =
      let done = Some EncodedMethod in
      Owes-then done (read_uleb128 file cursor) _ (read_uleb128-Owes file cursor) (λ a.
        Owes-then done (read_uleb128 file a.offset) _ (read_uleb128-Owes file _) (λ b.
          Owes-then done (read_uleb128 file b.offset) _ (read_uleb128-Owes file _)
            (λ c. Owes-ok done _ tt)))

module _ (Raised : ErrorKind → Type 0) (refused : Raised dex_format_error) (upper_beyond : ℕ → Text)
    (url_scheme : Text → Result String) (answers : Answers Raised url_scheme) (file : List ℕ)
    (limits : StaticApkPolicy) (strings types : Texts) (method_table : Methods) where
  scan_within-Ends :
      (caller : DexMethodReference) (code_offset insns_size : ℕ) (b : Behavior)
      → IsRow method_table (some caller)
      → IsWithin limits (known method_table) b
      → b.methods_scanned < b.encoded_methods_seen
      → uint32 file (code_offset + 12) ≡ ok insns_size
      → insns_size ≤ remaining_code_units limits b
      → Ends Raised (IsWithin limits (known method_table)) (
          scan_within upper_beyond url_scheme file limits strings types method_table caller
            code_offset b)
  unfolding scan_within
  scan_within-Ends caller code_offset insns_size b row h fewer read room =
      let budget = remaining_invocations limits b in
      let of = IsScanOf file method_table (length strings) budget code_offset in
      Ends-after refused of (IsWithin limits (known method_table))
        (scan_dex_invocations file method_table (length strings) budget code_offset) _
        (scan_dex_invocations-IsScanOf file method_table (length strings) budget code_offset)
        (λ r s.
          let size_read = s.size_read in
          let same_size : s.insns_size ≡ insns_size = cc (size_read, read) in
          let units : b.code_units_scanned + r.offset ≤ limits.max_dex_code_units =
            omega (arith, s.scanned.inside, s.declared, same_size, room, h.units) in
          let calls : b.invocations_scanned + length r.invocations ≤ limits.max_dex_invocations =
            omega (arith, s.scanned.bounded, h.calls) in
          Ends-bind (All (IsSignalOf caller)) (IsWithin limits (known method_table))
            (behavior_signals upper_beyond url_scheme limits.min_pbe_iterations caller r.invocations
              strings)
            _
            (behavior_signals-Ends Raised refused upper_beyond url_scheme limits.min_pbe_iterations
              answers caller r.invocations strings)
            (λ signals of_caller.
              let among =
                All-map (IsSignalOf caller) (IsSignalAmong (known method_table)) signals
                  (λ x of_x. IsRow-IsSignalAmong method_table caller x row of_x) of_caller in
              Ends-ok (IsWithin limits (known method_table)) _ (
                IsWithin-add_signals limits (known method_table) signals (add_scan limits r b) among
                  (IsWithin-add_scan limits (known method_table) r b h units calls fewer))))

  scan_code-Ends :
      (caller : DexMethodReference) (code_offset : ℕ) (b : Behavior)
      → IsRow method_table (some caller)
      → IsWithin limits (known method_table) b
      → b.methods_scanned < b.encoded_methods_seen
      → Ends Raised (IsWithin limits (known method_table)) (
          scan_code upper_beyond url_scheme file limits strings types method_table caller
            code_offset b)
  unfolding scan_code
  scan_code-Ends caller code_offset b row h fewer =
      Ends-require refused (IsWithin limits (known method_table))
        (leb (code_offset + 16) (length file)) _ _
        (λ e.
          Ends-after refused (λ n. uint32 file (code_offset + 12) ≡ ok n)
            (IsWithin limits (known method_table)) (uint32 file (code_offset + 12)) _
            (Owes-eq Anything _ (uint32-Owes file (code_offset + 12)))
            (λ insns_size read.
              Ends-if (IsWithin limits (known method_table))
                (ltb (remaining_code_units limits b) insns_size) _ _
                (λ f.
                  Ends-ok (IsWithin limits (known method_table)) _
                    (IsWithin-limit limits (known method_table) _ b h))
                (λ f.
                  Ends-if (IsWithin limits (known method_table))
                    (leb limits.max_dex_invocations b.invocations_scanned) _ _
                    (λ g.
                      Ends-ok (IsWithin limits (known method_table)) _
                        (IsWithin-limit limits (known method_table) _ b h))
                    (λ g.
                      scan_within-Ends caller code_offset insns_size b row h fewer read
                        (ground (arith, f))))))

  IsWithin-with_method :
      (b : Behavior)
      → IsWithin limits (known method_table) b
      → b.encoded_methods_seen < limits.max_dex_encoded_methods
      → IsWithin limits (known method_table) (with_method b)
  IsWithin-with_method b h more = record {
    units = h.units;
    calls = h.calls;
    scanned = omega (arith, h.scanned);
    methods = omega (arith, more);
    signals = h.signals;
    distinct = h.distinct;
    callers = h.callers;
  }

  pub scan_method-Ends :
      (caller : Option DexMethodReference) (code_offset : ℕ) (b : Behavior)
      → IsRow method_table caller
      → IsWithin limits (known method_table) b
      → Ends Raised (IsWithin limits (known method_table)) (
          scan_method upper_beyond url_scheme file limits strings types method_table caller
            code_offset b)
  unfolding scan_method
  scan_method-Ends none code_offset b row h = Ends-ok (IsWithin limits (known method_table)) b h
  scan_method-Ends (some caller) code_offset b row h =
      Ends-if (IsWithin limits (known method_table)) (code_offset == 0) _ _
        (λ e. Ends-ok (IsWithin limits (known method_table)) b h)
        (λ e.
          Ends-if (IsWithin limits (known method_table))
            (leb limits.max_dex_encoded_methods b.encoded_methods_seen) _ _
            (λ f.
              Ends-ok (IsWithin limits (known method_table)) _
                (IsWithin-limit limits (known method_table) _ b h))
            (λ f.
              scan_code-Ends caller code_offset (with_method b) row
                (IsWithin-with_method b h (ground (arith, f))) (omega (arith, h.scanned))))
