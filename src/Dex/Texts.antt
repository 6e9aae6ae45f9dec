-- ===== src/Dex/Texts.antt =====
-- The texts of a DEX file in android_assessor/static_apk_analysis.py: `_read_dex_string` and the tests
-- of descriptors.
use android_appsec_assessor.Prelude.{
  ℕ, suc, ◌+◌, ◌-◌, ◌*◌, min, Bool, true, false, not, ◌&&◌, ◌||◌, Option, none, some, List, [], ◌∷◌,
  any, length, take, ltb, leb, ◌==◌, if◌then◌else◌,
}
use android_appsec_assessor.Prelude.Text.{codes}
use android_appsec_assessor.Errors.{Result, ok, err, fault, dex_format_error, require, ◌>>=◌, ◌>>◌}
use android_appsec_assessor.Validation.{is_letter, is_ascii_digit}
use android_appsec_assessor.Dex.{is_between, read_uleb128, code_units}
use android_appsec_assessor.Dex.Registers.{Text}
use android_appsec_assessor.Dex.CodeItem.{bytes_from}

unfoldable pub same_text : Text → Text → Bool
same_text [] [] = true
same_text (c ∷ cs) (d ∷ ds) = c == d && same_text cs ds
same_text _ _ = false

-- What `_read_dex_string` returns: the text, whether it is oversized, the bytes read, its start.
pub record DexString : Type 0 where
  pub value : Option Text
  pub is_oversized : Bool
  pub work_bytes : ℕ
  pub data_start : ℕ

-- The bytes before the first zero, `none` where there is no zero.
unfoldable pub before_zero : List ℕ → Option (List ℕ)
before_zero [] = none
before_zero (b ∷ bytes) = elim (b == 0) [
  | true ↦ some []
  | false ↦ elim (before_zero bytes) [ none ↦ none | some raw ↦ some (b ∷ raw) ]
]

-- `bytes.decode("utf-16-le", errors="surrogatepass")`: a pair of surrogates is one character, a lone
-- surrogate stays.
unfoldable pub utf16 : List ℕ → Text
utf16 [] = []
utf16 (u ∷ []) = u ∷ []
utf16 (u ∷ v ∷ units) =
    let pair = (65536 + (u - 0xD800) * 1024 + (v - 0xDC00)) ∷ utf16 units in
    let single = u ∷ utf16 (v ∷ units) in
    if is_between 0xD800 0xDBFF u && is_between 0xDC00 0xDFFF v then pair else single

-- The text between its start and the terminator.
unfoldable pub decoded_string : List ℕ → ℕ → ℕ → Result DexString
unfolding utf16
decoded_string raw declared_length start = code_units raw >>= λ units.
    (require (length units == declared_length) dex_format_error
        "DEX string length metadata is inconsistent."
      >> ok (record {
        value = some (utf16 units);
        is_oversized = false;
        work_bytes = length raw;
        data_start = start;
      }))

-- `_read_dex_string`
unfoldable pub read_dex_string : List ℕ → ℕ → ℕ → Result DexString
unfolding decoded_string before_zero
read_dex_string file offset max_string_bytes =
    if ltb offset 112 || leb (length file) offset
    then err (fault dex_format_error "DEX string data offset is outside the file bounds.")
    else (read_uleb128 file offset >>= λ declared.
        let start = declared.offset in
        let search_end = min (length file) (start + max_string_bytes + 1) in
        elim (before_zero (take (search_end - start) (bytes_from start file))) [
          | none ↦ ok (record {
            value = none;
            is_oversized = true;
            work_bytes = search_end - start;
            data_start = start;
          })
          | some raw ↦ decoded_string raw declared.value start
        ])

-- `L[0-9A-Za-z_$/-]+;`, after the `L`; `seen` says that a character of the class was read.
unfoldable pub class_rest : Bool → Text → Bool
class_rest seen [] = false
class_rest seen (c ∷ []) = seen && c == b';'
class_rest seen (c ∷ d ∷ cs) =
    (is_letter c || is_ascii_digit c || c == b'_' || c == b'$' || c == b'/' || c == b'-')
    && class_rest true (d ∷ cs)

-- `_is_class_descriptor`
unfoldable pub is_class_descriptor : Text → Bool
unfolding class_rest
is_class_descriptor [] = false
is_class_descriptor (c ∷ cs) = leb (length (c ∷ cs)) 1000 && (c == b'L' && class_rest false cs)

unfoldable pub is_primitive : Text → Bool
unfolding same_text
is_primitive value = any (λ c. same_text (c ∷ []) value) (codes "ZBSCIJFD")

unfoldable pub dimensions_of : Text → ℕ
dimensions_of [] = 0
dimensions_of (c ∷ cs) = let more = suc (dimensions_of cs) in if c == b'[' then more else 0

-- A type that is no array.
abbrev pub is_element : Text → Bool
is_element value = is_primitive value || is_class_descriptor value

-- `_is_type_descriptor`; below its dimensions an array is no array and not void.
unfoldable pub is_type_descriptor : Bool → Text → Bool
unfolding same_text is_primitive dimensions_of is_class_descriptor
is_type_descriptor allow_void value =
    let dimensions = dimensions_of value in
    if allow_void && same_text (codes "V") value || is_primitive value
    then true
    else if not (dimensions == 0)
    then leb dimensions 255 && is_element (bytes_from dimensions value)
    else is_class_descriptor value

-- `_is_reference_descriptor`
unfoldable pub is_reference_descriptor : Text → Bool
unfolding is_class_descriptor is_type_descriptor
is_reference_descriptor value =
    is_class_descriptor value || not (dimensions_of value == 0) && is_type_descriptor false value
