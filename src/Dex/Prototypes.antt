-- ===== src/Dex/Prototypes.antt =====
-- The prototypes of a DEX file: the third loop of `parse_dex_inventory` in
-- android_assessor/static_apk_analysis.py.
use android_appsec_assessor.Prelude.{
  ℕ, zero, suc, ◌+◌, ◌*◌, ◌%◌, Bool, true, false, not, ◌&&◌, ◌||◌, Option, none, some, List, [],
  ◌∷◌, ◌++◌, length, ltb, leb, ◌==◌, if◌then◌else◌,
}
use android_appsec_assessor.Prelude.Text.{codes}
use android_appsec_assessor.Errors.{Result, ok, err, fault, dex_format_error, require, ◌>>=◌, ◌>>◌}
use android_appsec_assessor.Dex.Registers.{Text, register_value}
use android_appsec_assessor.Dex.CodeItem.{uint16_at, uint32}
use android_appsec_assessor.Dex.Policy.{StaticApkPolicy}
use android_appsec_assessor.Dex.Texts.{same_text}
use android_appsec_assessor.Dex.Tables.{Texts, item}

-- The parameters that were read, and whether one of them has no text.
pub record Parameters : Type 0 where
  pub parameters : List Text
  pub unresolved : Bool

-- The variables of the loop over the prototypes.
pub record PrototypesRead : Type 0 where
  pub prototypes : Texts
  pub parameter_cache : List (ℕ × Parameters)
  pub prototype_cache : List ((ℕ × ℕ) × Option Text)
  pub decoded_parameter_references : ℕ
  pub prototype_bytes : ℕ

unfoldable pub concat : List Text → Text
concat [] = []
concat (t ∷ ts) = t ++ concat ts

-- `None if unresolved_parameters or return_type is None else f"({…}){return_type}"`
unfoldable pub prototype_of : Parameters → Option Text → Option Text
unfolding concat
prototype_of p none = none
prototype_of p (some return_type) =
    if p.unresolved
    then none
    else some (codes "(" ++ (concat p.parameters ++ (codes ")" ++ return_type)))

unfoldable pub cached_prototype : ℕ × ℕ → List ((ℕ × ℕ) × Option Text) → Option (Option Text)
cached_prototype key [] = none
cached_prototype key ((k, v) ∷ cache) =
    let rest = cached_prototype key cache in if k.0 == key.0 && k.1 == key.1 then some v else rest

module _ (file : List ℕ) (limits : StaticApkPolicy) (string_count type_count : ℕ)
    (types : Texts) where
  unfoldable pub add_parameter : ℕ → Parameters → Result Parameters
  unfolding item same_text
  add_parameter type_index p =
      require (ltb type_index type_count) dex_format_error
        "DEX proto parameter has an invalid type index."
      >> (item types type_index >>= λ value. elim value [
        | none ↦ ok (record p { unresolved = true })
        | some text ↦
            require (not (same_text (codes "V") text)) dex_format_error
              "DEX proto parameter may not have void type."
            >> ok (record p { parameters = p.parameters ++ (text ∷ []) })
      ])

  unfoldable pub read_parameters : ℕ → ℕ → ℕ → Parameters → Result Parameters
  read_parameters parameters_offset zero position p = ok p
  read_parameters parameters_offset (suc count) position p =
      let next = λ (p' : Parameters). read_parameters parameters_offset count (position + 1) p' in
      uint16_at file (parameters_offset + 4 + position * 2) >>= λ type_index.
      (add_parameter type_index p >>= next)

  -- The parameter list of an offset that is not cached, with the number of its parameters.
  unfoldable pub parameter_list : ℕ → ℕ → Result (ℕ × Parameters)
  parameter_list decoded parameters_offset =
      if ltb parameters_offset 112
        || not (parameters_offset % 4 == 0)
        || ltb (length file) (parameters_offset + 4)
      then err (fault dex_format_error "DEX proto parameter list is outside file bounds.")
      else (uint32 file parameters_offset >>= λ count.
          (require (leb count limits.max_method_references) dex_format_error
              "DEX proto parameter count exceeds the limit."
            >> (require (leb (decoded + count) limits.max_dex_parameter_references) dex_format_error
                  "DEX aggregate parameter decode work exceeds the configured limit."
                >> (require (leb (parameters_offset + 4 + count * 2) (length file)) dex_format_error
                      "DEX proto parameter list is truncated."
                    >> (read_parameters parameters_offset count 0
                          (record { parameters = []; unresolved = false })
                        >>= λ p. ok (count, p))))))

  unfoldable pub cached_parameters : ℕ → PrototypesRead → Result (Parameters × PrototypesRead)
  unfolding register_value
  cached_parameters parameters_offset s =
      elim (register_value parameters_offset s.parameter_cache) [
        | some cached ↦ ok (cached, s)
        | none ↦ parameter_list s.decoded_parameter_references parameters_offset >>= λ read. ok (
          read.1,
          record s {
            decoded_parameter_references = s.decoded_parameter_references + read.0;
            parameter_cache = (parameters_offset, read.1) ∷ s.parameter_cache;
          },
        )
      ]

  -- The work of a prototype that has a text.
  unfoldable pub count_bytes : Option Text → PrototypesRead → Result PrototypesRead
  count_bytes none s = ok s
  count_bytes (some prototype) s =
      let bytes = s.prototype_bytes + length prototype in
      require (leb bytes limits.max_dex_prototype_bytes) dex_format_error
        "DEX aggregate prototype decode work exceeds the configured limit."
      >> ok (record s { prototype_bytes = bytes })

  unfoldable pub add_prototype : ℕ × ℕ → Option Text → PrototypesRead → Result PrototypesRead
  add_prototype key prototype s = count_bytes prototype s >>= λ s'. ok (record s' {
    prototype_cache = (key, prototype) ∷ s'.prototype_cache;
    prototypes = s'.prototypes ++ (prototype ∷ []);
  })

  unfoldable pub new_prototype : ℕ → ℕ → PrototypesRead → Result PrototypesRead
  unfolding item prototype_of
  new_prototype return_index parameters_offset s =
      cached_parameters parameters_offset s >>= λ found.
      (item types return_index >>= λ return_type.
      add_prototype (return_index, parameters_offset) (prototype_of found.0 return_type) found.1)

  unfoldable pub read_prototype : ℕ → PrototypesRead → Result PrototypesRead
  unfolding cached_prototype
  read_prototype base s = uint32 file base >>= λ shorty_index.
      (uint32 file (base + 4) >>= λ return_index.
      (uint32 file (base + 8) >>= λ parameters_offset.
      (require (ltb shorty_index string_count && ltb return_index type_count) dex_format_error
          "DEX proto-id references an invalid index."
        >> (elim (cached_prototype (return_index, parameters_offset) s.prototype_cache) [
          | some prototype ↦ ok (record s { prototypes = s.prototypes ++ (prototype ∷ []) })
          | none ↦ new_prototype return_index parameters_offset s
        ]))))

  unfoldable pub read_prototypes : ℕ → ℕ → ℕ → PrototypesRead → Result PrototypesRead
  read_prototypes proto_offset zero index s = ok s
  read_prototypes proto_offset (suc count) index s =
      let next = λ (s' : PrototypesRead). read_prototypes proto_offset count (index + 1) s' in
      read_prototype (proto_offset + index * 12) s >>= next
