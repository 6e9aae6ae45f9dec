-- ===== src/Dex/MethodTable.antt =====
-- The method table of a DEX file: the last loop of `parse_dex_inventory` in
-- android_assessor/static_apk_analysis.py.
use android_appsec_assessor.Prelude.{
  ℕ, zero, suc, ◌+◌, ◌*◌, ◌&&◌, Option, none, some, List, [], ◌∷◌, ◌++◌, length, ltb, leb,
}
use android_appsec_assessor.Errors.{Result, ok, dex_format_error, require, ◌>>=◌, ◌>>◌}
use android_appsec_assessor.Dex.Registers.{Text, DexMethodReference}
use android_appsec_assessor.Dex.CodeItem.{uint16_at}
use android_appsec_assessor.Dex.Texts.{is_reference_descriptor}
use android_appsec_assessor.Dex.Tables.{Texts, item}

-- A row of the method table.
abbrev pub Methods : Type 0
Methods = List (Option DexMethodReference)

unfoldable pub method_of :
    Option Text → Option Text → Option Text → Result (Option DexMethodReference)
unfolding is_reference_descriptor
method_of (some class_descriptor) (some method_name) (some prototype) =
    require (is_reference_descriptor class_descriptor) dex_format_error
      "DEX method class descriptor is malformed."
    >> (require (ltb 0 (length method_name) && leb (length method_name) 200) dex_format_error
          "DEX method name is malformed."
        >> ok (
            some (record {
              class_descriptor = class_descriptor;
              method_name = method_name;
              prototype = prototype;
            })))
method_of _ _ _ = ok none

module _ (file : List ℕ) (string_count type_count proto_count : ℕ)
    (strings types prototypes : Texts) where
  unfoldable pub read_method_reference : ℕ → Result (Option DexMethodReference)
  unfolding uint16_at item method_of
  read_method_reference base = uint16_at file base >>= λ class_index.
      (uint16_at file (base + 2) >>= λ proto_index.
      (uint16_at file (base + 4) >>= λ low.
      (uint16_at file (base + 6) >>= λ high.
      let name_index = low + high * 65536 in
      require
        (ltb class_index type_count && ltb proto_index proto_count && ltb name_index string_count)
        dex_format_error "DEX method-id references an invalid index."
      >> (item types class_index >>= λ class_descriptor.
          (item strings name_index >>= λ method_name.
          (item prototypes proto_index >>= λ prototype.
          method_of class_descriptor method_name prototype))))))

  unfoldable pub read_method_references : ℕ → ℕ → ℕ → Methods → Result Methods
  read_method_references method_offset zero index methods = ok methods
  read_method_references method_offset (suc count) index methods =
      let next =
        λ (methods' : Methods). read_method_references method_offset count (index + 1) methods' in
      read_method_reference (method_offset + index * 8) >>= λ reference.
      next (methods ++ (reference ∷ []))
