-- ===== src/Dex/Visits.antt =====
-- The loops over the classes of a DEX file and their methods keep the limits of the policy.
use android_appsec_assessor.Prelude.{
  ℕ, zero, suc, ◌+◌, ◌*◌, String, ◌||◌, Option, List, length, ltb, leb, ◌==◌, arith,
}
use android_appsec_assessor.Errors.{ErrorKind, Result, dex_format_error}
use android_appsec_assessor.Dex.Registers.{Text}
use android_appsec_assessor.Dex.CodeItem.{uint32}
use android_appsec_assessor.Dex.Policy.{StaticApkPolicy}
use android_appsec_assessor.Dex.Tables.{Texts}
use android_appsec_assessor.Dex.MethodTable.{Methods}
use android_appsec_assessor.Dex.Behavior.{Behavior}
use android_appsec_assessor.Dex.Classes.{
  MemberCounts, is_owner, is_class, member_counts, skip_fields, read_encoded_method, visit_method,
  visit_methods, visit_members, visit_class, visit_classes,
}
use android_appsec_assessor.Dex.Inventory.{known}
use android_appsec_assessor.Dex.Ends.{
  Ends, Ends-bind, Ends-ok, Ends-if, Ends-item, Ends-read, Ends-require, Ends-err,
}
use android_appsec_assessor.Dex.Totality.{uint32-Owes}
use android_appsec_assessor.Dex.Budgets.{IsWithin, IsWithin-limit, Answers}
use android_appsec_assessor.Dex.Scans.{
  member_counts-Owes, read_encoded_method-Owes, scan_method-Ends, skip_fields-Owes,
}

module _ (Raised : ErrorKind → Type 0) (refused : Raised dex_format_error) (upper_beyond : ℕ → Text)
    (url_scheme : Text → Result String) (answers : Answers Raised url_scheme) (file : List ℕ)
    (limits : StaticApkPolicy) (strings types : Texts) (method_table : Methods) where
  visit_method-Ends :
      (class_descriptor : Option Text) (method_index code_offset : ℕ) (b : Behavior)
      → IsWithin limits (known method_table) b
      → Ends Raised (IsWithin limits (known method_table)) (
          visit_method upper_beyond url_scheme file limits strings types method_table
            class_descriptor method_index code_offset b)
  unfolding visit_method
  visit_method-Ends class_descriptor method_index code_offset b h =
      let done = IsWithin limits (known method_table) in
      Ends-require refused done (ltb method_index (length method_table)) _ _ (λ e.
        Ends-item done method_table method_index _ (ground (arith, e)) (λ caller listed.
          Ends-require refused done (is_owner class_descriptor caller) _ _ (λ f.
            scan_method-Ends Raised refused upper_beyond url_scheme answers file limits strings
              types method_table caller code_offset b
              (record { index = method_index; listed = listed }) h)))

  -- A cursor, and what is within the limits.
  abbrev IsVisited : ℕ × Behavior → Type 0
  IsVisited visited = IsWithin limits (known method_table) visited.1

  visit_methods-Ends :
      (class_descriptor : Option Text) (count method_index cursor : ℕ) (b : Behavior)
      → IsWithin limits (known method_table) b
      → Ends Raised IsVisited (
          visit_methods upper_beyond url_scheme file limits strings types method_table
            class_descriptor count method_index cursor b)
  unfolding visit_methods
  visit_methods-Ends class_descriptor zero method_index cursor b h = Ends-ok IsVisited (cursor, b) h
  visit_methods-Ends class_descriptor (suc count) method_index cursor b h =
      Ends-read refused IsVisited (read_encoded_method file cursor) _
        (read_encoded_method-Owes file cursor)
        (λ m.
          Ends-bind (IsWithin limits (known method_table)) IsVisited
            (visit_method upper_beyond url_scheme file limits strings types method_table
              class_descriptor (method_index + m.method_index_diff) m.code_offset b)
            _ (visit_method-Ends class_descriptor _ m.code_offset b h)
            (λ b' h'. visit_methods-Ends class_descriptor count _ m.cursor b' h'))

  visit_members-Ends :
      (class_descriptor : Option Text) (counts : MemberCounts) (b : Behavior)
      → IsWithin limits (known method_table) b
      → Ends Raised (IsWithin limits (known method_table)) (
          visit_members upper_beyond url_scheme file limits strings types method_table
            class_descriptor counts b)
  unfolding visit_members
  visit_members-Ends class_descriptor counts b h =
      let done = IsWithin limits (known method_table) in
      let members =
        counts.static_fields + counts.instance_fields + counts.direct_methods
        + counts.virtual_methods in
      let visit = λ (count cursor : ℕ) (b' : Behavior).
        visit_methods upper_beyond url_scheme file limits strings types method_table
          class_descriptor count 0 cursor b' in
      Ends-if done
        (ltb limits.max_dex_encoded_methods members
          || ltb limits.max_dex_encoded_methods (b.encoded_members_seen + members))
        _ _ (λ e. Ends-ok done _ (IsWithin-limit limits (known method_table) _ b h))
        (λ e.
          Ends-read refused done
            (skip_fields file (counts.static_fields + counts.instance_fields) counts.cursor) _
            (skip_fields-Owes file _ counts.cursor)
            (λ cursor.
              Ends-bind IsVisited done
                (visit counts.direct_methods cursor
                  (record b { encoded_members_seen = b.encoded_members_seen + members }))
                _
                (visit_methods-Ends class_descriptor counts.direct_methods 0 cursor _ (record {
                  units = h.units;
                  calls = h.calls;
                  scanned = h.scanned;
                  methods = h.methods;
                  signals = h.signals;
                  distinct = h.distinct;
                  callers = h.callers;
                }))
                (λ direct g.
                  Ends-bind IsVisited done (visit counts.virtual_methods direct.0 direct.1) _
                    (visit_methods-Ends class_descriptor counts.virtual_methods 0 direct.0 direct.1
                      g)
                    (λ virtual k. Ends-ok done virtual.1 k))))

  visit_class-Ends :
      (class_base : ℕ) (b : Behavior)
      → IsWithin limits (known method_table) b
      → Ends Raised
          (IsWithin limits (known method_table))
          (visit_class upper_beyond url_scheme file limits strings types method_table class_base b)
  unfolding visit_class
  visit_class-Ends class_base b h =
      let done = IsWithin limits (known method_table) in
      Ends-read refused done (uint32 file class_base) _ (uint32-Owes file class_base)
        (λ class_index.
          Ends-read refused done (uint32 file (class_base + 24)) _ (uint32-Owes file _)
            (λ class_data_offset.
              Ends-require refused done (ltb class_index (length types)) _ _ (λ e.
                Ends-item done types class_index _ (ground (arith, e)) (λ class_descriptor listed.
                  Ends-require refused done (is_class class_descriptor) _ _ (λ f.
                    Ends-if done (class_data_offset == 0) _ _ (λ g. Ends-ok done b h)
                      (λ g.
                        Ends-if done
                          (ltb class_data_offset 112 || leb (length file) class_data_offset) _ _
                          (λ k. Ends-err refused done _)
                          (λ k.
                            Ends-read refused done (member_counts file class_data_offset) _
                              (member_counts-Owes file class_data_offset)
                              (λ counts. visit_members-Ends class_descriptor counts b h))))))))

  pub visit_classes-Ends :
      (class_offset count position : ℕ) (b : Behavior)
      → IsWithin limits (known method_table) b
      → Ends Raised (IsWithin limits (known method_table)) (
          visit_classes upper_beyond url_scheme file limits strings types method_table class_offset
            count position b)
  unfolding visit_classes
  visit_classes-Ends class_offset zero position b h =
      Ends-ok (IsWithin limits (known method_table)) b h
  visit_classes-Ends class_offset (suc count) position b h =
      Ends-bind (IsWithin limits (known method_table)) (IsWithin limits (known method_table))
        (visit_class upper_beyond url_scheme file limits strings types method_table
          (class_offset + position * 32) b)
        _ (visit_class-Ends _ b h)
        (λ b' h'. visit_classes-Ends class_offset count (position + 1) b' h')
