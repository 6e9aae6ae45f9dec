-- ===== src/Dex/PrototypesRead.antt =====
-- The prototypes of a DEX file are read, or `DexFormatError` is raised.
use android_appsec_assessor.Prelude.{
  ℕ, zero, suc, ◌+◌, ◌*◌, ◌%◌, ◌≤◌, ◌<◌, ◌≡◌, inl, inr, true, false, not, ◌&&◌, ◌||◌, Option, none,
  some, List, [], ◌∷◌, ◌++◌, length, ltb, leb, ◌==◌, arith, Option-cases,
}
use android_appsec_assessor.Prelude.Text.{codes}
use android_appsec_assessor.Errors.{Result, ok, dex_format_error, require, ◌>>◌}
use android_appsec_assessor.Dex.Registers.{Text, register_value}
use android_appsec_assessor.Dex.CodeItem.{uint16_at, uint32}
use android_appsec_assessor.Dex.Policy.{StaticApkPolicy}
use android_appsec_assessor.Dex.Texts.{same_text}
use android_appsec_assessor.Dex.Tables.{Texts}
use android_appsec_assessor.Dex.Prototypes.{
  Parameters, PrototypesRead, prototype_of, cached_prototype, add_parameter, read_parameters,
  parameter_list, cached_parameters, count_bytes, add_prototype, new_prototype, read_prototype,
  read_prototypes,
}
use android_appsec_assessor.Dex.Raises.{
  Owes, Owes-bind, Owes-map, Owes-if, Owes-require, Owes-ok, Owes-err,
}
use android_appsec_assessor.Dex.Totality.{uint16_at-Owes, uint32-Owes}
use android_appsec_assessor.Dex.Reads.{Some, Owes-then, Owes-item}
use android_appsec_assessor.Dex.TablesRead.{length_grown}

added_parameter-Owes :
    (p : Parameters) (value : Option Text)
    → Owes (Some Parameters) (elim value as (λ x. Result Parameters) [
      | none ↦ ok (record p { unresolved = true })
      | some text ↦
          require
            (not (same_text (codes "V") text))
            dex_format_error
            "DEX proto parameter may not have void type."
          >> ok (record p { parameters = p.parameters ++ (text ∷ []) })
    ])
added_parameter-Owes p none = Owes-ok (Some Parameters) _ tt
added_parameter-Owes p (some text) =
    Owes-require (Some Parameters) (not (same_text (codes "V") text)) _ _
      (λ e. Owes-ok (Some Parameters) _ tt)

module _ (file : List ℕ) (limits : StaticApkPolicy) (string_count type_count : ℕ) (types : Texts)
    (typed : length types ≡ type_count) where
  add_parameter-Owes :
      (type_index : ℕ) (p : Parameters)
      → Owes
          (Some Parameters)
          (add_parameter file limits string_count type_count types type_index p)
  unfolding add_parameter
  add_parameter-Owes type_index p =
      Owes-require (Some Parameters) (ltb type_index type_count) _ _ (λ e.
        Owes-item (Some Parameters) types type_index _ (ground (arith, e, typed))
          (λ value. added_parameter-Owes p value))

  read_parameters-Owes :
      (offset count position : ℕ) (p : Parameters)
      → offset + 4 + (position + count) * 2 ≤ length file
      → Owes
          (Some Parameters)
          (read_parameters file limits string_count type_count types offset count position p)
  unfolding read_parameters
  read_parameters-Owes offset zero position p inside = Owes-ok (Some Parameters) p tt
  read_parameters-Owes offset (suc count) position p inside =
      Owes-then (Some Parameters) (uint16_at file (offset + 4 + position * 2)) _
        (uint16_at-Owes file _ (omega (arith, inside)))
        (λ type_index.
          Owes-then (Some Parameters)
            (add_parameter file limits string_count type_count types type_index p) _
            (add_parameter-Owes type_index p)
            (λ p'. read_parameters-Owes offset count (position + 1) p' (omega (arith, inside))))

  parameter_list-Owes :
      (decoded offset : ℕ)
      → Owes
          (Some (ℕ × Parameters))
          (parameter_list file limits string_count type_count types decoded offset)
  unfolding parameter_list
  parameter_list-Owes decoded offset =
      let done = Some (ℕ × Parameters) in
      Owes-if done (ltb offset 112 || not (offset % 4 == 0) || ltb (length file) (offset + 4)) _ _
        (λ e. Owes-err done _)
        (λ e. Owes-then done (uint32 file offset) _ (uint32-Owes file offset) (λ count.
          Owes-require done (leb count limits.max_method_references) _ _ (λ a.
            Owes-require done (leb (decoded + count) limits.max_dex_parameter_references) _ _ (λ b.
              Owes-require done (leb (offset + 4 + count * 2) (length file)) _ _ (λ c.
                Owes-then done
                  (read_parameters file limits string_count type_count types offset count 0
                    (record { parameters = []; unresolved = false }))
                  _ (read_parameters-Owes offset count 0 _ (ground (arith, c)))
                  (λ p. Owes-ok done _ tt))))))

  abbrev pub Long : ℕ → PrototypesRead → Type 0
  Long n s = length s.prototypes ≡ n

  abbrev LongFound : ℕ → Parameters × PrototypesRead → Type 0
  LongFound n found = length found.1.prototypes ≡ n

  cached_parameters-Owes :
      (offset n : ℕ) (s : PrototypesRead)
      → Long n s
      → Owes (LongFound n) (cached_parameters file limits string_count type_count types offset s)
  unfolding cached_parameters
  cached_parameters-Owes offset n s h =
      elim (Option-cases (register_value offset s.parameter_cache)) [
        | inr (cached, e) ↦ rw (e, cached_parameters) (Owes-ok (LongFound n) _ h)
        | inl e ↦
            rw (e, cached_parameters)
              (Owes-then (LongFound n)
                (parameter_list file limits string_count type_count types
                  s.decoded_parameter_references offset)
                _ (parameter_list-Owes s.decoded_parameter_references offset)
                (λ read. Owes-ok (LongFound n) _ h))
      ]

  count_bytes-Owes :
      (prototype : Option Text) (n : ℕ) (s : PrototypesRead)
      → Long n s
      → Owes (Long n) (count_bytes file limits string_count type_count types prototype s)
  unfolding count_bytes
  count_bytes-Owes none n s h = Owes-ok (Long n) s h
  count_bytes-Owes (some prototype) n s h =
      Owes-require (Long n)
        (leb (s.prototype_bytes + length prototype) limits.max_dex_prototype_bytes) _ _
        (λ e. Owes-ok (Long n) _ h)

  new_prototype-Owes :
      (return_index offset n : ℕ) (s : PrototypesRead)
      → return_index < type_count
      → Long n s
      → Owes
          (Long (suc n))
          (new_prototype file limits string_count type_count types return_index offset s)
  unfolding new_prototype add_prototype
  new_prototype-Owes return_index offset n s known h =
      Owes-bind (LongFound n) (Long (suc n))
        (cached_parameters file limits string_count type_count types offset s) _
        (cached_parameters-Owes offset n s h)
        (λ found g.
          Owes-item (Long (suc n)) types return_index _ (omega (arith, known, typed))
            (λ return_type.
              Owes-bind (Long n) (Long (suc n))
                (count_bytes file limits string_count type_count types
                  (prototype_of found.0 return_type) found.1)
                _ (count_bytes-Owes (prototype_of found.0 return_type) n found.1 g)
                (λ s' h'. Owes-ok (Long (suc n)) _ (length_grown s'.prototypes _ n h'))))

  from_cache-Owes :
      (return_index offset n : ℕ) (s : PrototypesRead)
      → return_index < type_count
      → Long n s
      → (cached : Option (Option Text))
      → Owes (Long (suc n)) (elim cached as (λ x. Result PrototypesRead) [
        | some prototype ↦ ok (record s { prototypes = s.prototypes ++ (prototype ∷ []) })
        | none ↦ new_prototype file limits string_count type_count types return_index offset s
      ])
  from_cache-Owes return_index offset n s known h none =
      new_prototype-Owes return_index offset n s known h
  from_cache-Owes return_index offset n s known h (some prototype) =
      Owes-ok (Long (suc n)) _ (length_grown s.prototypes prototype n h)

  read_prototype-Owes :
      (base n : ℕ) (s : PrototypesRead)
      → Long n s
      → Owes (Long (suc n)) (read_prototype file limits string_count type_count types base s)
  unfolding read_prototype
  read_prototype-Owes base n s h =
      let done = Long (suc n) in
      Owes-then done (uint32 file base) _ (uint32-Owes file base) (λ shorty_index.
        Owes-then done (uint32 file (base + 4)) _ (uint32-Owes file _) (λ return_index.
          Owes-then done (uint32 file (base + 8)) _ (uint32-Owes file _) (λ offset.
            Owes-require done (ltb shorty_index string_count && ltb return_index type_count) _ _
              (λ e.
                from_cache-Owes return_index offset n s (ground (arith, e)) h
                  (cached_prototype (return_index, offset) s.prototype_cache)))))

  pub read_prototypes-Owes :
      (proto_offset count index n : ℕ) (s : PrototypesRead)
      → Long n s
      → Owes
          (Long (n + count))
          (read_prototypes file limits string_count type_count types proto_offset count index s)
  unfolding read_prototypes
  read_prototypes-Owes proto_offset zero index n s h = Owes-ok (Long (n + 0)) s (omega (arith, h))
  read_prototypes-Owes proto_offset (suc count) index n s h =
      Owes-bind (Long (suc n)) (Long (n + suc count))
        (read_prototype file limits string_count type_count types (proto_offset + index * 12) s) _
        (read_prototype-Owes (proto_offset + index * 12) n s h)
        (λ s' g.
          Owes-map (Long (suc n + count)) (Long (n + suc count)) _
            (read_prototypes-Owes proto_offset count (index + 1) (suc n) s' g)
            (λ t h'. omega (arith, h')))
