-- ===== src/Dex/Tables.antt =====
-- The strings and the types of a DEX file: the first loops of `parse_dex_inventory` in
-- android_assessor/static_apk_analysis.py.
use android_appsec_assessor.Prelude.{
  ℕ, zero, suc, ◌+◌, ◌*◌, true, not, ◌&&◌, Option, none, some, List, [], ◌∷◌, ◌++◌, any, get_elem?,
  ltb, leb, ◌==◌, if◌then◌else◌,
}
use android_appsec_assessor.Errors.{
  Result, ok, err, fault, dex_format_error, other_error, require, ◌>>=◌, ◌>>◌,
}
use android_appsec_assessor.Dex.Registers.{Text, register_value}
use android_appsec_assessor.Dex.CodeItem.{uint32}
use android_appsec_assessor.Dex.Policy.{StaticApkPolicy}
use android_appsec_assessor.Dex.Texts.{DexString, read_dex_string, is_type_descriptor}

abbrev pub Texts : Type 0
Texts = List (Option Text)

-- `items[index]`
unfoldable pub item {ℓ} : {A : Type ℓ} → List A → ℕ → Result A
item items index = elim (get_elem? items index) [
  | none ↦ err (fault other_error "list index out of range")
  | some a ↦ ok a
]

-- The variables of the loop over the strings.
pub record StringsRead : Type 0 where
  pub strings : Texts
  pub string_cache : List (ℕ × DexString)
  pub string_work_bytes : ℕ
  pub oversized : ℕ
  pub oversized_regions : List (ℕ × ℕ)
  pub oversized_offsets : List ℕ

module _ (file : List ℕ) (limits : StaticApkPolicy) where
  -- The cached string of an offset, or the string that is read there.
  unfoldable pub cached_string : ℕ → StringsRead → Result (DexString × StringsRead)
  unfolding register_value
  cached_string data_offset s = elim (register_value data_offset s.string_cache) [
    | some cached ↦ ok (cached, s)
    | none ↦ read_dex_string file data_offset limits.max_string_bytes >>= λ cached.
        let work = s.string_work_bytes + cached.work_bytes in
        require (leb work limits.max_dex_string_work_bytes) dex_format_error
          "DEX string decode work exceeds the configured limit."
        >> ok (
          cached,
          record s {
            string_work_bytes = work;
            string_cache = (data_offset, cached) ∷ s.string_cache;
          },
        )
  ]

  -- What a string adds.
  unfoldable pub add_string : ℕ → ℕ → DexString → StringsRead → StringsRead
  add_string index data_offset cached s =
      let fresh = cached.is_oversized && not (any (λ o. o == data_offset) s.oversized_offsets) in
      record s {
        strings = s.strings ++ (cached.value ∷ []);
        oversized = s.oversized + (if cached.is_oversized then 1 else 0);
        oversized_regions =
            if fresh
            then s.oversized_regions ++ ((index, cached.data_start) ∷ [])
            else s.oversized_regions;
        oversized_offsets =
            if fresh then data_offset ∷ s.oversized_offsets else s.oversized_offsets;
      }

  -- The strings from an index on.
  unfoldable pub read_strings : ℕ → ℕ → ℕ → StringsRead → Result StringsRead
  read_strings string_offset zero index s = ok s
  read_strings string_offset (suc count) index s =
      let next = λ (s' : StringsRead). read_strings string_offset count (index + 1) s' in
      uint32 file (string_offset + index * 4) >>= λ data_offset.
      (cached_string data_offset s >>= λ found. next (add_string index data_offset found.0 found.1))

  unfoldable pub type_of : ℕ → Texts → ℕ → Result (Option Text)
  unfolding item
  type_of string_count strings string_index =
      require (ltb string_index string_count) dex_format_error
        "DEX type-id references an invalid string index."
      >> (item strings string_index >>= λ descriptor. elim descriptor [
        | none ↦ ok none
        | some text ↦
            require (is_type_descriptor true text) dex_format_error
              "DEX type-id descriptor is malformed."
            >> ok (some text)
      ])

  unfoldable pub read_types : ℕ → Texts → ℕ → ℕ → ℕ → Texts → Result Texts
  read_types string_count strings type_offset zero index types = ok types
  read_types string_count strings type_offset (suc count) index types =
      let next =
        λ (types' : Texts). read_types string_count strings type_offset count (index + 1) types' in
      uint32 file (type_offset + index * 4) >>= λ string_index.
      (type_of string_count strings string_index >>= λ descriptor.
      next (types ++ (descriptor ∷ [])))
