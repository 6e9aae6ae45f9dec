-- ===== src/Dex/Parsed.antt =====
-- The whole of a DEX file is parsed within the limits of the policy, whatever the file holds.
use android_appsec_assessor.Prelude.{
  ℕ, ◌+◌, min, ◌≤◌, ◌≡◌, refl, String, none, some, List, [], ◌∷◌, length, ltb, arith,
}
use android_appsec_assessor.Errors.{ErrorKind, Result, dex_format_error}
use android_appsec_assessor.Dex.{validate_table}
use android_appsec_assessor.Dex.Registers.{Text, DexMethodReference}
use android_appsec_assessor.Dex.CodeItem.{uint32}
use android_appsec_assessor.Dex.Policy.{StaticApkPolicy}
use android_appsec_assessor.Dex.Tables.{Texts, StringsRead}
use android_appsec_assessor.Dex.MethodTable.{Methods}
use android_appsec_assessor.Dex.Behavior.{Behavior, limit_if}
use android_appsec_assessor.Dex.Classes.{visit_classes, nothing_scanned, parse_dex_behavior}
use android_appsec_assessor.Dex.Inventory.{
  DexInventory, Tables, check_header, read_tables, no_strings, no_prototypes, known, metrics_of,
  method_table, inventory_of, read_inventory, parse_dex_inventory,
}
use android_appsec_assessor.Dex.Raises.{Owes, Owes-bind, Owes-ok}
use android_appsec_assessor.Dex.Ends.{Ends, Ends-bind, Ends-ok, Ends-after, Ends-read}
use android_appsec_assessor.Dex.Totality.{uint32-Owes}
use android_appsec_assessor.Dex.TablesRead.{read_strings-Owes, read_types-Owes}
use android_appsec_assessor.Dex.PrototypesRead.{read_prototypes-Owes}
use android_appsec_assessor.Dex.MethodsRead.{LongMethods, read_method_references-Owes}
use android_appsec_assessor.Dex.Budgets.{IsWithin, IsWithin-limit_if, Answers}
use android_appsec_assessor.Dex.Visits.{visit_classes-Ends}
use android_appsec_assessor.Dex.HeaderRead.{
  IsTable, IsTables, check_header-Owes, read_tables-Owes, validate_table-Owes,
}

length-known : (methods : Methods) → length (known methods) ≤ length methods
unfolding known
length-known [] = omega arith
length-known (none ∷ methods) = omega (arith, length-known methods)
length-known (some reference ∷ methods) = omega (arith, length-known methods)

-- An inventory within the limits of a policy. The metrics and the signals are those of an analysis of
-- the methods that is within them.
pub record IsInventory (limits : StaticApkPolicy) (inventory : DexInventory) : Type 0 where
  pub strings : length inventory.strings ≤ limits.max_dex_strings
  pub references : length inventory.method_references ≤ limits.max_method_references
  pub class_count : ℕ
  pub behavior : Behavior
  pub within : IsWithin limits inventory.method_references behavior
  pub signals : inventory.behavior_signals ≡ behavior.signals
  pub metrics : inventory.behavior_metrics ≡ metrics_of class_count behavior

module _ (upper_beyond : ℕ → Text) (url_scheme : Text → Result String) (limits : StaticApkPolicy)
    (file : List ℕ) where
  -- As many methods as the header says.
  abbrev IsMethodTable : Tables → Texts × Methods → Type 0
  IsMethodTable t read = LongMethods t.method_ids.0 read.1

  method_table-Owes :
      (t : Tables) (s : StringsRead)
      → IsTables file limits t
      → length s.strings ≡ t.string_ids.0
      → Owes (IsMethodTable t) (method_table upper_beyond url_scheme limits file t s)
  unfolding method_table
  method_table-Owes t s h grown =
      let done = IsMethodTable t in
      Owes-bind (λ types. length types ≡ 0 + t.type_ids.0) done _ _
        (read_types-Owes file limits t.string_ids.0 s.strings t.type_ids.1 t.type_ids.0 0 0 [] grown
          refl)
        (λ types long_types.
          let typed : length types ≡ t.type_ids.0 = omega (arith, long_types) in
          Owes-bind (λ p. length p.prototypes ≡ 0 + t.proto_ids.0) done _ _
            (read_prototypes-Owes file limits t.string_ids.0 t.type_ids.0 types typed t.proto_ids.1
              t.proto_ids.0 0 0 no_prototypes refl)
            (λ p long.
              Owes-bind (λ methods. length methods ≡ 0 + t.method_ids.0) done _ _
                (read_method_references-Owes file t.string_ids.0 t.type_ids.0 t.proto_ids.0
                  s.strings types p.prototypes grown typed (omega (arith, long)) t.method_ids.1
                  t.method_ids.0 0 0 [] (omega (arith, h.methods_inside)) refl)
                (λ methods all. Owes-ok done (types, methods) (omega (arith, all)))))

module _ (Raised : ErrorKind → Type 0) (refused : Raised dex_format_error) (upper_beyond : ℕ → Text)
    (url_scheme : Text → Result String) (limits : StaticApkPolicy) (file : List ℕ)
    (answers : Answers Raised url_scheme) where
  -- The number of the classes, and what the analysis has found.
  abbrev IsAnalysed : Methods → ℕ × Behavior → Type 0
  IsAnalysed methods found = IsWithin limits (known methods) found.1

  nothing_scanned-IsWithin :
      (references : List DexMethodReference) → IsWithin limits references nothing_scanned
  nothing_scanned-IsWithin references = record {
    units = omega arith;
    calls = omega arith;
    scanned = omega arith;
    methods = omega arith;
    signals = omega arith;
    distinct = tt;
    callers = tt;
  }

  parse_dex_behavior-Ends :
      (strings types : Texts) (methods : Methods)
      → Ends Raised
          (IsAnalysed methods)
          (parse_dex_behavior upper_beyond url_scheme file limits strings types methods)
  unfolding parse_dex_behavior
  parse_dex_behavior-Ends strings types methods =
      let done = IsAnalysed methods in
      Ends-read refused done (uint32 file 0x60) _ (uint32-Owes file _) (λ class_count.
        Ends-read refused done (uint32 file 0x64) _ (uint32-Owes file _) (λ class_offset.
          Ends-after refused
            (λ (u : Unit {0}). IsTable file class_count class_offset 32 limits.max_dex_strings) done
            (validate_table file class_count class_offset 32 limits.max_dex_strings) _
            (validate_table-Owes file _ _ _ _)
            (λ u valid.
              Ends-bind (IsWithin limits (known methods)) done
                (visit_classes upper_beyond url_scheme file limits strings types methods
                  class_offset (min class_count limits.max_dex_class_defs) 0
                  (limit_if (ltb limits.max_dex_class_defs class_count) "dex_class_defs"
                    nothing_scanned))
                _
                (visit_classes-Ends Raised refused upper_beyond url_scheme answers file limits
                  strings types methods class_offset _ 0 _
                  (IsWithin-limit_if limits (known methods) _ "dex_class_defs" _
                    (nothing_scanned-IsWithin (known methods))))
                (λ b h. Ends-ok done (class_count, b) h))))

  read_inventory-Ends :
      (t : Tables)
      → IsTables file limits t
      → Ends Raised (IsInventory limits) (read_inventory upper_beyond url_scheme limits file t)
  unfolding read_inventory inventory_of
  read_inventory-Ends t h =
      Ends-after refused (λ s. length s.strings ≡ 0 + t.string_ids.0) (IsInventory limits) _ _
        (read_strings-Owes file limits t.string_ids.1 t.string_ids.0 0 0 no_strings refl)
        (λ s grown.
          Ends-after refused (IsMethodTable upper_beyond url_scheme limits file t)
            (IsInventory limits) _ _
            (method_table-Owes upper_beyond url_scheme limits file t s h (omega (arith, grown)))
            (λ read all.
              Ends-bind (IsAnalysed read.1) (IsInventory limits) _ _
                (parse_dex_behavior-Ends s.strings read.0 read.1)
                (λ b within. Ends-ok (IsInventory limits) _ (record {
                  strings = omega (arith, grown, h.few_strings);
                  references = omega (arith, length-known read.1, all, h.few_methods);
                  class_count = b.0;
                  behavior = b.1;
                  within = within;
                  signals = refl;
                  metrics = refl;
                }))))

  -- Where `urlsplit` raises only errors of a class, to which `DexFormatError` belongs, every file is
  -- parsed, or an error of that class is raised, whatever the bytes of the file are: the parser ends,
  -- and no index goes beyond a table or the file. The inventory that it returns keeps the limits of the
  -- policy: it has no more strings, method references and signals than they allow; the analysis of the
  -- methods, whose numbers the metrics are, has spent no more code units and calls, and has scanned no
  -- more methods than they allow. Each of its signals names one of its method references as the caller,
  -- and no signal has the rule, the caller and the indicators of another.
  pub parse_dex_inventory-IsInventory :
      Ends Raised (IsInventory limits) (parse_dex_inventory upper_beyond url_scheme limits file)
  unfolding parse_dex_inventory
  parse_dex_inventory-IsInventory =
      Ends-read refused (IsInventory limits) (check_header file limits) _
        (check_header-Owes file limits)
        (λ u.
          Ends-after refused (IsTables file limits) (IsInventory limits) (read_tables file limits) _
            (read_tables-Owes file limits) (λ t h. read_inventory-Ends t h))
