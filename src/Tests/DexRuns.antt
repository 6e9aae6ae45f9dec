-- ===== src/Tests/DexRuns.antt =====
-- The decoding of small DEX parts, and the witnesses of its properties.
use android_appsec_assessor.Prelude.{
  ℕ, zero, suc, ◌+◌, ◌<◌, ◌≡◌, refl, List, [], ◌∷◌, ◌++◌, length, arith,
}
use android_appsec_assessor.Errors.{ok}
use android_appsec_assessor.Dex.{
  uleb_from, read_uleb128, validate_table, code_units, two_bytes, three_bytes,
}
use android_appsec_assessor.Dex.Numbers.{
  IsRead, uleb128, uleb128_digits, read_uleb128-IsRead, read_uleb128-uleb128,
}
use android_appsec_assessor.Dex.Strings.{mutf8, code_units-mutf8}

abbrev file : List ℕ
file = 7 ∷ 229 ∷ 142 ∷ 38 ∷ 9 ∷ []

number : read_uleb128 file 1 ≡ ok (record { value = 624485; offset = 4 })
unfolding read_uleb128 uleb_from
number = refl

read_uleb128-IsRead_example : IsRead file 1 (record { value = 624485; offset = 4 })
read_uleb128-IsRead_example = read_uleb128-IsRead file 1 number

written_bytes : uleb128 624485 ≡ 229 ∷ 142 ∷ 38 ∷ []
unfolding uleb128_digits
written_bytes = refl

fits : 624485 < 4294967296
fits = omega arith

read_uleb128-uleb128_example :
    read_uleb128 ((7 ∷ []) ++ (uleb128 624485 ++ (9 ∷ []))) (length {A = ℕ} (7 ∷ []))
    ≡ ok (record { value = 624485; offset = length {A = ℕ} (7 ∷ []) + length (uleb128 624485) })
read_uleb128-uleb128_example = read_uleb128-uleb128 (7 ∷ []) (9 ∷ []) 624485 fits

abbrev zeros : ℕ → List ℕ
zeros zero = []
zeros (suc n) = 0 ∷ zeros n

abbrev padded : List ℕ
padded = zeros 128

table : validate_table padded 2 112 8 65536 ≡ ok tt
unfolding validate_table
table = refl

text : code_units (65 ∷ 195 ∷ 169 ∷ 226 ∷ 130 ∷ 172 ∷ []) ≡ ok (65 ∷ 233 ∷ 8364 ∷ [])
unfolding code_units two_bytes three_bytes
text = refl

code_units-mutf8_example : code_units (mutf8 (65 ∷ 233 ∷ 8364 ∷ [])) ≡ ok (65 ∷ 233 ∷ 8364 ∷ [])
code_units-mutf8_example =
    code_units-mutf8 (65 ∷ 233 ∷ 8364 ∷ []) (omega arith, (omega arith, (omega arith, tt)))
