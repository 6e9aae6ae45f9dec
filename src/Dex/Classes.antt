-- ===== src/Dex/Classes.antt =====
-- The loops of `_parse_dex_behavior` in android_assessor/static_apk_analysis.py over the classes of a DEX
-- file and their methods. `url_scheme` and `upper_beyond` are the parameters of Dex/Signals.
use android_appsec_assessor.Prelude.{
  ℕ, zero, suc, ◌+◌, ◌-◌, ◌*◌, min, String, Bool, true, ◌||◌, Option, none, some, List, [], length,
  ltb, leb, ◌==◌, if◌then◌else◌,
}
use android_appsec_assessor.Errors.{Result, ok, err, fault, dex_format_error, require, ◌>>=◌, ◌>>◌}
use android_appsec_assessor.Dex.{read_uleb128, validate_table}
use android_appsec_assessor.Dex.Registers.{Text, DexMethodReference}
use android_appsec_assessor.Dex.CodeItem.{uint32, scan_dex_invocations}
use android_appsec_assessor.Dex.Policy.{StaticApkPolicy}
use android_appsec_assessor.Dex.Texts.{same_text, is_class_descriptor}
use android_appsec_assessor.Dex.Tables.{Texts, item}
use android_appsec_assessor.Dex.MethodTable.{Methods}
use android_appsec_assessor.Dex.Behavior.{
  Behavior, limit, limit_if, behavior_signals, add_signals, add_scan,
}

-- The four numbers at the head of the data of a class, and the offset behind them.
pub record MemberCounts : Type 0 where
  pub static_fields : ℕ
  pub instance_fields : ℕ
  pub direct_methods : ℕ
  pub virtual_methods : ℕ
  pub cursor : ℕ

-- An encoded method: the difference of its index, the offset of its code, and the offset behind it.
pub record EncodedMethod : Type 0 where
  pub method_index_diff : ℕ
  pub code_offset : ℕ
  pub cursor : ℕ

-- A class is a class of the file's own methods, where both are known.
unfoldable pub is_owner : Option Text → Option DexMethodReference → Bool
unfolding same_text
is_owner (some class_descriptor) (some caller) = same_text caller.class_descriptor class_descriptor
is_owner _ _ = true

unfoldable pub is_class : Option Text → Bool
unfolding is_class_descriptor
is_class none = true
is_class (some descriptor) = is_class_descriptor descriptor

module _ (file : List ℕ) where
  unfoldable pub member_counts : ℕ → Result MemberCounts
  member_counts offset = read_uleb128 file offset >>= λ a.
      (read_uleb128 file a.offset >>= λ b.
      (read_uleb128 file b.offset >>= λ c.
      (read_uleb128 file c.offset >>= λ d. ok (record {
        static_fields = a.value;
        instance_fields = b.value;
        direct_methods = c.value;
        virtual_methods = d.value;
        cursor = d.offset;
      }))))

  -- The offset behind a number of fields.
  unfoldable pub skip_fields : ℕ → ℕ → Result ℕ
  skip_fields zero cursor = ok cursor
  skip_fields (suc count) cursor =
      let next = λ (cursor' : ℕ). skip_fields count cursor' in
      read_uleb128 file cursor >>= λ index_diff.
      (read_uleb128 file index_diff.offset >>= λ access_flags. next access_flags.offset)

  unfoldable pub read_encoded_method : ℕ → Result EncodedMethod
  read_encoded_method cursor = read_uleb128 file cursor >>= λ index_diff.
      (read_uleb128 file index_diff.offset >>= λ access_flags.
      (read_uleb128 file access_flags.offset >>= λ code. ok (record {
        method_index_diff = index_diff.value;
        code_offset = code.value;
        cursor = code.offset;
      })))

-- The budgets of the analysis are spent one after the other.
abbrev pub remaining_code_units : StaticApkPolicy → Behavior → ℕ
remaining_code_units limits b = limits.max_dex_code_units - b.code_units_scanned

abbrev pub remaining_invocations : StaticApkPolicy → Behavior → ℕ
remaining_invocations limits b = limits.max_dex_invocations - b.invocations_scanned

abbrev pub with_method : Behavior → Behavior
with_method b = record b { encoded_methods_seen = b.encoded_methods_seen + 1 }

abbrev pub nothing_scanned : Behavior
nothing_scanned = record {
  limitations = [];
  methods_scanned = 0;
  code_units_scanned = 0;
  invocations_scanned = 0;
  encoded_methods_seen = 0;
  encoded_members_seen = 0;
  signals = [];
}

module _ (upper_beyond : ℕ → Text) (url_scheme : Text → Result String) (file : List ℕ)
    (limits : StaticApkPolicy) (strings types : Texts) (method_table : Methods) where
  -- The scan of a method within the budgets, and its signals.
  unfoldable pub scan_within : DexMethodReference → ℕ → Behavior → Result Behavior
  scan_within caller code_offset b =
      scan_dex_invocations file method_table (length strings) (remaining_invocations limits b)
        code_offset
      >>= λ r.
          (behavior_signals upper_beyond url_scheme limits.min_pbe_iterations caller r.invocations
              strings
            >>= λ signals. ok (add_signals limits signals (add_scan limits r b)))

  unfoldable pub scan_code : DexMethodReference → ℕ → Behavior → Result Behavior
  unfolding limit
  scan_code caller code_offset b =
      require (leb (code_offset + 16) (length file)) dex_format_error
        "DEX code item is outside the file bounds."
      >> (uint32 file (code_offset + 12) >>= λ insns_size.
          if ltb (remaining_code_units limits b) insns_size
          then ok (limit "dex_code_units" b)
          else if leb limits.max_dex_invocations b.invocations_scanned
          then ok (limit "dex_invocations" b)
          else scan_within caller code_offset b)

  unfoldable pub scan_method : Option DexMethodReference → ℕ → Behavior → Result Behavior
  unfolding limit
  scan_method none code_offset b = ok b
  scan_method (some caller) code_offset b =
      if code_offset == 0
      then ok b
      else if leb limits.max_dex_encoded_methods b.encoded_methods_seen
      then ok (limit "dex_encoded_methods" b)
      else scan_code caller code_offset (with_method b)

  -- The method of an index, of the class whose data is read.
  unfoldable pub visit_method : Option Text → ℕ → ℕ → Behavior → Result Behavior
  unfolding item is_owner
  visit_method class_descriptor method_index code_offset b =
      require (ltb method_index (length method_table)) dex_format_error
        "DEX encoded method has an invalid method index."
      >> (item method_table method_index >>= λ caller.
          (require (is_owner class_descriptor caller) dex_format_error
              "DEX encoded method belongs to the wrong class."
            >> scan_method caller code_offset b))

  -- The loop over a list of methods: the first index is absolute, which is relative to zero.
  unfoldable pub visit_methods : Option Text → ℕ → ℕ → ℕ → Behavior → Result (ℕ × Behavior)
  visit_methods class_descriptor zero method_index cursor b = ok (cursor, b)
  visit_methods class_descriptor (suc count) method_index cursor b =
      let next = λ (index cursor' : ℕ) (b' : Behavior).
        visit_methods class_descriptor count index cursor' b' in
      read_encoded_method file cursor >>= λ m.
      (visit_method class_descriptor (method_index + m.method_index_diff) m.code_offset b >>= λ b'.
      next (method_index + m.method_index_diff) m.cursor b')

  abbrev pub members_of : MemberCounts → ℕ
  members_of counts =
      counts.static_fields + counts.instance_fields + counts.direct_methods + counts.virtual_methods

  -- The members of a class, unless they are beyond the limit.
  unfoldable pub visit_members : Option Text → MemberCounts → Behavior → Result Behavior
  unfolding limit
  visit_members class_descriptor counts b =
      if ltb limits.max_dex_encoded_methods (members_of counts)
        || ltb limits.max_dex_encoded_methods (b.encoded_members_seen + members_of counts)
      then ok (limit "dex_encoded_methods" b)
      else (skip_fields file (counts.static_fields + counts.instance_fields) counts.cursor
          >>= λ cursor.
              (visit_methods class_descriptor counts.direct_methods 0 cursor
                  (record b { encoded_members_seen = b.encoded_members_seen + members_of counts })
                >>= λ direct.
                    (visit_methods class_descriptor counts.virtual_methods 0 direct.0 direct.1
                      >>= λ virtual. ok virtual.1)))

  unfoldable pub visit_class : ℕ → Behavior → Result Behavior
  unfolding item is_class
  visit_class class_base b = uint32 file class_base >>= λ class_index.
      (uint32 file (class_base + 24) >>= λ class_data_offset.
      (require (ltb class_index (length types)) dex_format_error
          "DEX class definition has an invalid type index."
        >> (item types class_index >>= λ class_descriptor.
            (require (is_class class_descriptor) dex_format_error
                "DEX class definition descriptor is malformed."
              >> (if class_data_offset == 0
                  then ok b
                  else if ltb class_data_offset 112 || leb (length file) class_data_offset
                  then err (fault dex_format_error "DEX class data is outside the file bounds.")
                  else (member_counts file class_data_offset >>= λ counts.
                      visit_members class_descriptor counts b))))))

  unfoldable pub visit_classes : ℕ → ℕ → ℕ → Behavior → Result Behavior
  visit_classes class_offset zero position b = ok b
  visit_classes class_offset (suc count) position b =
      let next = λ (b' : Behavior). visit_classes class_offset count (position + 1) b' in
      visit_class (class_offset + position * 32) b >>= next

  -- `_parse_dex_behavior`, with the number of the classes
  unfoldable pub parse_dex_behavior : Result (ℕ × Behavior)
  unfolding limit
  parse_dex_behavior = uint32 file 0x60 >>= λ class_count.
      (uint32 file 0x64 >>= λ class_offset.
      (validate_table file class_count class_offset 32 limits.max_dex_strings
        >> (visit_classes class_offset (min class_count limits.max_dex_class_defs) 0 (
              limit_if (ltb limits.max_dex_class_defs class_count) "dex_class_defs" nothing_scanned)
            >>= λ b. ok (class_count, b))))
