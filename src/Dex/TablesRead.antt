-- ===== src/Dex/TablesRead.antt =====
-- The strings and the types of a DEX file are read, or `DexFormatError` is raised; a table has as many
-- entries as it says, so that no index goes beyond a list.
use android_appsec_assessor.Prelude.{
  ℕ, zero, suc, ◌+◌, ◌*◌, ◌≡◌, inl, inr, true, Option, none, some, List, [], ◌∷◌, ◌++◌, length,
  length-append, ltb, leb, arith, Option-cases,
}
use android_appsec_assessor.Errors.{Result, ok, dex_format_error, require, ◌>>◌}
use android_appsec_assessor.Dex.Registers.{Text, register_value}
use android_appsec_assessor.Dex.CodeItem.{uint32}
use android_appsec_assessor.Dex.Policy.{StaticApkPolicy}
use android_appsec_assessor.Dex.Texts.{DexString, read_dex_string, is_type_descriptor}
use android_appsec_assessor.Dex.Tables.{
  Texts, StringsRead, cached_string, add_string, read_strings, type_of, read_types,
}
use android_appsec_assessor.Dex.Raises.{Owes, Owes-bind, Owes-map, Owes-require, Owes-ok}
use android_appsec_assessor.Dex.Totality.{uint32-Owes}
use android_appsec_assessor.Dex.Reads.{Owes-item, Owes-then, Some, read_dex_string-Owes}

pub length_grown :
    {A : Type 0} (xs : List A) (x : A) (n : ℕ) → length xs ≡ n → length (xs ++ (x ∷ [])) ≡ suc n
length_grown xs x n h = omega (arith, length-append xs (x ∷ []), h)

checked_type-Owes :
    (descriptor : Option Text)
    → Owes (Some (Option Text)) (elim descriptor as (λ x. Result (Option Text)) [
      | none ↦ ok none
      | some text ↦
          require
            (is_type_descriptor true text)
            dex_format_error
            "DEX type-id descriptor is malformed."
          >> ok (some text)
    ])
checked_type-Owes none = Owes-ok (Some (Option Text)) _ tt
checked_type-Owes (some text) =
    Owes-require (Some (Option Text)) (is_type_descriptor true text) _ _
      (λ e. Owes-ok (Some (Option Text)) _ tt)

-- The strings, one more with each round.
module _ (file : List ℕ) (limits : StaticApkPolicy) where
  abbrev pub Grown : ℕ → StringsRead → Type 0
  Grown n s = length s.strings ≡ n

  abbrev Found : ℕ → DexString × StringsRead → Type 0
  Found n found = length found.1.strings ≡ n

  cached_string-Owes :
      (data_offset n : ℕ) (s : StringsRead)
      → Grown n s
      → Owes (Found n) (cached_string file limits data_offset s)
  unfolding cached_string
  cached_string-Owes data_offset n s h =
      elim (Option-cases (register_value data_offset s.string_cache)) [
        | inr (cached, e) ↦ rw (e, cached_string) (Owes-ok (Found n) _ h)
        | inl e ↦
            rw (e, cached_string)
              (Owes-then (Found n) (read_dex_string file data_offset limits.max_string_bytes) _
                (read_dex_string-Owes file data_offset limits.max_string_bytes)
                (λ cached.
                  Owes-require (Found n)
                    (leb (s.string_work_bytes + cached.work_bytes) limits.max_dex_string_work_bytes)
                    _ _ (λ w. Owes-ok (Found n) _ h)))
      ]

  pub read_strings-Owes :
      (string_offset count index n : ℕ) (s : StringsRead)
      → Grown n s
      → Owes (Grown (n + count)) (read_strings file limits string_offset count index s)
  unfolding read_strings add_string
  read_strings-Owes string_offset zero index n s h = Owes-ok (Grown (n + 0)) s (omega (arith, h))
  read_strings-Owes string_offset (suc count) index n s h =
      Owes-then (Grown (n + suc count)) (uint32 file (string_offset + index * 4)) _
        (uint32-Owes file _)
        (λ data_offset.
          Owes-bind (Found n) (Grown (n + suc count)) (cached_string file limits data_offset s) _
            (cached_string-Owes data_offset n s h)
            (λ found g.
              let grown = length_grown found.1.strings found.0.value n g in
              let rest =
                read_strings-Owes string_offset count (index + 1) (suc n)
                  (add_string file limits index data_offset found.0 found.1) grown in
              Owes-map (Grown (suc n + count)) (Grown (n + suc count)) _ rest
                (λ s' h'. omega (arith, h'))))

  abbrev pub LongTexts : ℕ → Texts → Type 0
  LongTexts n types = length types ≡ n

  type_of-Owes :
      (string_count : ℕ) (strings : Texts) (string_index : ℕ)
      → length strings ≡ string_count
      → Owes (Some (Option Text)) (type_of file limits string_count strings string_index)
  unfolding type_of
  type_of-Owes string_count strings string_index h =
      Owes-require (Some (Option Text)) (ltb string_index string_count) _ _ (λ e.
        Owes-item (Some (Option Text)) strings string_index _ (ground (arith, e, h))
          (λ descriptor. checked_type-Owes descriptor))

  pub read_types-Owes :
      (string_count : ℕ) (strings : Texts) (type_offset count index n : ℕ) (types : Texts)
      → length strings ≡ string_count
      → LongTexts n types
      → Owes
          (LongTexts (n + count))
          (read_types file limits string_count strings type_offset count index types)
  unfolding read_types
  read_types-Owes string_count strings type_offset zero index n types c h =
      Owes-ok (LongTexts (n + 0)) types (omega (arith, h))
  read_types-Owes string_count strings type_offset (suc count) index n types c h =
      Owes-then (LongTexts (n + suc count)) (uint32 file (type_offset + index * 4)) _
        (uint32-Owes file _)
        (λ string_index.
          Owes-then (LongTexts (n + suc count))
            (type_of file limits string_count strings string_index) _
            (type_of-Owes string_count strings string_index c)
            (λ descriptor.
              let rest =
                read_types-Owes string_count strings type_offset count (index + 1) (suc n)
                  (types ++ (descriptor ∷ [])) c (length_grown types descriptor n h) in
              Owes-map (LongTexts (suc n + count)) (LongTexts (n + suc count)) _ rest
                (λ t h'. omega (arith, h'))))
