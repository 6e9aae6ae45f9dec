-- ===== src/Dex/Cached.antt =====
-- The cache of the strings of a DEX file is not seen: each string is decoded as it would be without
-- the cache.
use android_appsec_assessor.Prelude.{
  ℕ, zero, suc, ◌+◌, ◌*◌, ◌≡◌, refl, ◌∙◌, sym, inl, inr, Option, some, List, [], ◌∷◌, ◌++◌, map,
  leb, ◌==◌, arith, Option-cases, Bool-cases, if◌then◌else◌,
}
use mathlib.Core.List.{append-nil, append_assoc}
use android_appsec_assessor.Errors.{Result, ok, ◌>>=◌}
use android_appsec_assessor.Dex.Registers.{register_value, Text}
use android_appsec_assessor.Dex.CodeItem.{uint32}
use android_appsec_assessor.Dex.Policy.{StaticApkPolicy}
use android_appsec_assessor.Dex.Texts.{DexString, read_dex_string}
use android_appsec_assessor.Dex.Tables.{StringsRead, cached_string, add_string, read_strings}
use android_appsec_assessor.Dex.Inventory.{no_strings}
use android_appsec_assessor.Dex.Raises.{Owes, Owes-bind, Owes-map, Owes-eq, Owes-require, Owes-ok}
use android_appsec_assessor.Dex.Totality.{uint32-Owes, Anything}
use android_appsec_assessor.Dex.Reads.{Some, read_dex_string-Owes}

abbrev pub value_of : DexString → Option Text
value_of d = d.value

unfoldable pub oversized_among : List DexString → ℕ
oversized_among [] = 0
oversized_among (d ∷ ds) = (if d.is_oversized then 1 else 0) + oversized_among ds

module _ (file : List ℕ) (limits : StaticApkPolicy) (string_offset : ℕ) where
  -- The strings from an index on, each decoded for itself.
  unfoldable pub decode_each : ℕ → ℕ → Result (List DexString)
  decode_each zero index = ok []
  decode_each (suc count) index =
      let rest = decode_each count (index + 1) in
      uint32 file (string_offset + index * 4) >>= λ data_offset.
      (read_dex_string file data_offset limits.max_string_bytes >>= λ d.
      (rest >>= λ ds. ok (d ∷ ds)))

  -- A cache holds what is read at its offsets.
  IsCache : List (ℕ × DexString) → Type 0
  IsCache cache =
      (k : ℕ) (d : DexString)
      → register_value k cache ≡ some d
      → read_dex_string file k limits.max_string_bytes ≡ ok d

  record IsFound (data_offset : ℕ) (s : StringsRead) (found : DexString × StringsRead)
      : Type 0 where
    decoded : read_dex_string file data_offset limits.max_string_bytes ≡ ok found.0
    cache : IsCache found.1.string_cache
    same_strings : found.1.strings ≡ s.strings
    same_oversized : found.1.oversized ≡ s.oversized

  IsCache-put :
      (data_offset : ℕ) (d : DexString) (cache : List (ℕ × DexString))
      → IsCache cache
      → read_dex_string file data_offset limits.max_string_bytes ≡ ok d
      → IsCache ((data_offset, d) ∷ cache)
  unfolding IsCache register_value
  IsCache-put data_offset d cache h read k d' e = elim (Bool-cases (data_offset == k)) [
    | inl same ↦ ground (arith, e, same, read)
    | inr other ↦ h k d' (ground (arith, e, other))
  ]

  cached_string-IsFound :
      (data_offset : ℕ) (s : StringsRead)
      → IsCache s.string_cache
      → Owes (IsFound data_offset s) (cached_string file limits data_offset s)
  unfolding cached_string IsCache
  cached_string-IsFound data_offset s h =
      elim (Option-cases (register_value data_offset s.string_cache)) [
        | inr (d, e) ↦
            rw (e, cached_string)
              (Owes-ok (IsFound data_offset s) (d, s)
                (record {
                  decoded = h data_offset d e;
                  cache = h;
                  same_strings = refl;
                  same_oversized = refl;
                }))
        | inl e ↦
            rw (e, cached_string)
              (Owes-bind (λ d. read_dex_string file data_offset limits.max_string_bytes ≡ ok d)
                (IsFound data_offset s) (read_dex_string file data_offset limits.max_string_bytes) _
                (Owes-eq (Some DexString) _
                  (read_dex_string-Owes file data_offset limits.max_string_bytes))
                (λ d read.
                  Owes-require (IsFound data_offset s)
                    (leb (s.string_work_bytes + d.work_bytes) limits.max_dex_string_work_bytes) _ _
                    (λ f. Owes-ok (IsFound data_offset s) _ (record {
                      decoded = read;
                      cache = IsCache-put data_offset d s.string_cache h read;
                      same_strings = refl;
                      same_oversized = refl;
                    }))))
      ]

  -- The strings read from an index on, after those that were read before.
  record IsDecoded (count index : ℕ) (s s' : StringsRead) : Type 0 where
    each : List DexString
    decoded : decode_each count index ≡ ok each
    strings : s'.strings ≡ s.strings ++ map value_of each
    oversized : s'.oversized ≡ s.oversized + oversized_among each

  read_strings-IsDecodedFrom :
      (count index : ℕ) (s : StringsRead)
      → IsCache s.string_cache
      → Owes (IsDecoded count index s) (read_strings file limits string_offset count index s)
  unfolding read_strings add_string decode_each oversized_among IsCache
  read_strings-IsDecodedFrom zero index s h = Owes-ok (IsDecoded zero index s) s (record {
    each = [];
    decoded = refl;
    strings = sym (append-nil s.strings);
    oversized = omega arith;
  })
  read_strings-IsDecodedFrom (suc count) index s h =
      let done = IsDecoded (suc count) index s in
      Owes-bind (λ n. uint32 file (string_offset + index * 4) ≡ ok n) done
        (uint32 file (string_offset + index * 4)) _ (Owes-eq Anything _ (uint32-Owes file _))
        (λ data_offset at.
          Owes-bind (IsFound data_offset s) done (cached_string file limits data_offset s) _
            (cached_string-IsFound data_offset s h)
            (λ found f.
              Owes-map
                (IsDecoded count (index + 1)
                  (add_string file limits index data_offset found.0 found.1))
                done _
                (read_strings-IsDecodedFrom count (index + 1)
                  (add_string file limits index data_offset found.0 found.1) f.cache)
                (λ s' g. record {
                  each = found.0 ∷ g.each;
                  decoded = rw (at, f.decoded, g.decoded, ◌>>=◌) refl;
                  strings =
                      g.strings
                      ∙ rw (f.same_strings)
                          (append_assoc s.strings (found.0.value ∷ []) (map value_of g.each));
                  oversized = ground (arith, g.oversized, f.same_oversized);
                })))

  -- The strings that were read from the first index on, and how many of them are oversized.
  pub record IsEach (count : ℕ) (s : StringsRead) : Type 0 where
    pub each : List DexString
    pub decoded : decode_each count 0 ≡ ok each
    pub strings : s.strings ≡ map value_of each
    pub oversized : s.oversized ≡ oversized_among each

  -- The strings of a DEX file are read, or `DexFormatError` is raised, whatever the file holds and
  -- wherever the table is. What is read with the cache, at whichever offsets the table repeats, are the
  -- texts of the strings that are decoded one for one without it, in the order of the table, and as
  -- many count as oversized as are.
  pub read_strings-IsEach :
      (count : ℕ) → Owes (IsEach count) (read_strings file limits string_offset count 0 no_strings)
  unfolding IsCache register_value
  read_strings-IsEach count =
      Owes-map (IsDecoded count 0 no_strings) (IsEach count) _
        (read_strings-IsDecodedFrom count 0 no_strings (λ k d e. absurd (ground (arith, e))))
        (λ s g. record {
          each = g.each;
          decoded = g.decoded;
          strings = g.strings;
          oversized = omega (arith, g.oversized);
        })
