-- ===== src/Dex/Strings.antt =====
-- The round trip of the texts of a DEX file.
use android_appsec_assessor.Prelude.{
  ℕ, ◌+◌, ◌/◌, ◌%◌, ◌≤◌, ◌<◌, ◌≡◌, refl, ap, ◌∙◌, true, false, not, ◌&&◌, List, [], ◌∷◌, ◌++◌, All,
  arith, ltb, ◌==◌, Bool-cases, inl, inr, if◌then◌else◌,
}
use android_appsec_assessor.Errors.{Result, ok}
use android_appsec_assessor.Dex.{
  is_between, is_continuation, and_then, unit_of_two, unit_of_three, two_bytes, three_bytes,
  code_units,
}

-- The form of a code unit in modified UTF-8, from the DEX format's definition: zero has two bytes.
abbrev pub mutf8_unit : ℕ → List ℕ
mutf8_unit u =
    if is_between 1 127 u
    then u ∷ []
    else if ltb u 2048
    then (192 + u / 64) ∷ (128 + u % 64) ∷ []
    else (224 + u / 4096) ∷ (128 + u / 64 % 64) ∷ (128 + u % 64) ∷ []

unfoldable pub mutf8 : List ℕ → List ℕ
mutf8 [] = []
mutf8 (u ∷ us) = mutf8_unit u ++ mutf8 us

-- What a byte sequence of each form decodes to, whatever follows it.
one :
    (a : ℕ) (rest : List ℕ)
    → is_between 1 127 a ≡ true
    → code_units (a ∷ rest) ≡ and_then a (code_units rest)
unfolding code_units
one a [] h = rw h
one a (b ∷ []) h = rw h
one a (b ∷ c ∷ more) h = rw h

two :
    (a b : ℕ) (rest : List ℕ)
    → is_between 1 127 a ≡ false
    → is_between 192 223 a ≡ true
    → code_units (a ∷ b ∷ rest) ≡ two_bytes a b (code_units rest)
unfolding code_units
two a b [] h k = rw (h, k)
two a b (c ∷ more) h k = rw (h, k)

three :
    (a b c : ℕ) (rest : List ℕ)
    → is_between 1 127 a ≡ false
    → is_between 192 223 a ≡ false
    → is_between 224 239 a ≡ true
    → code_units (a ∷ b ∷ c ∷ rest) ≡ three_bytes a b c (code_units rest)
unfolding code_units
three a b c rest h k l = rw (h, k, l)

accepted_two :
    (u : ℕ) (rest : Result (List ℕ))
    → is_between 1 127 u ≡ false
    → u < 2048
    → two_bytes (192 + u / 64) (128 + u % 64) rest ≡ and_then u rest
unfolding two_bytes
accepted_two u rest e f =
    let same : unit_of_two (192 + u / 64) (128 + u % 64) ≡ u = omega arith in
    let follows : is_continuation (128 + u % 64) ≡ true = ground arith in
    let long : (ltb u 128 && not (u == 0)) ≡ false = ground arith in rw (follows, same, long)

accepted_three :
    (u : ℕ) (rest : Result (List ℕ))
    → 2048 ≤ u
    → u < 65536
    → three_bytes (224 + u / 4096) (128 + u / 64 % 64) (128 + u % 64) rest ≡ and_then u rest
unfolding three_bytes
accepted_three u rest e f =
    let same : unit_of_three (224 + u / 4096) (128 + u / 64 % 64) (128 + u % 64) ≡ u =
      omega arith in
    let follows : is_continuation (128 + u / 64 % 64) ≡ true = ground arith in
    let ends : is_continuation (128 + u % 64) ≡ true = ground arith in
    let long : ltb u 2048 ≡ false = ground arith in rw (follows, ends, same, long)

decode_unit :
    (u : ℕ) (rest : List ℕ)
    → u < 65536
    → code_units (mutf8_unit u ++ rest) ≡ and_then u (code_units rest)
decode_unit u rest h = elim (Bool-cases (is_between 1 127 u)) [
  | inl e ↦ rw e (one u rest e)
  | inr e ↦ elim (Bool-cases (ltb u 2048)) [
    | inl f ↦
        rw (e, f)
          (two (192 + u / 64) (128 + u % 64) rest (ground arith) (ground arith)
            ∙ accepted_two u (code_units rest) e (ground arith))
    | inr f ↦
        rw (e, f)
          (three (224 + u / 4096) (128 + u / 64 % 64) (128 + u % 64) rest (ground arith)
              (ground arith) (ground arith)
            ∙ accepted_three u (code_units rest) (ground arith) h)
  ]
]

-- A text of 16-bit code units that is written in modified UTF-8 is read back unit by unit.
pub code_units-mutf8 :
    (units : List ℕ) → All (λ u. u < 65536) units → code_units (mutf8 units) ≡ ok units
unfolding mutf8 code_units
code_units-mutf8 [] h = refl
code_units-mutf8 (u ∷ us) (first, rest) =
    decode_unit u (mutf8 us) first ∙ ap (λ r. and_then u r) (code_units-mutf8 us rest)
