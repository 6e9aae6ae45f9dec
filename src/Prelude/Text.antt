-- ===== src/Prelude/Text.antt =====
-- Python's `str` by its code points: the character classes that `str.strip` and `\d` use
-- (Unicode 14, the version of CPython 3.11), `strip`, `split("/")` and `"/".join`.
use Prim.Native.Nat.{ℕ, zero, suc, ◌+◌, ◌-◌, ◌*◌, ◌/◌, ◌%◌}
use Prim.Native.Char.{code}
use Prim.Native.String.{String, ◌++◌ as ◌<>◌}
use mathlib.Core.Bool.{Bool, true, false, ◌&&◌, ◌||◌}
use mathlib.Core.Option.{Option, none, some}
use mathlib.Core.List.{List, [], ◌∷◌}
use android_appsec_assessor.Prelude.Lists.{all, get_elem?}
use android_appsec_assessor.Prelude.Tests.{ltb, leb, ◌==◌, if◌then◌else◌}

abbrev pub codes : String → List ℕ
codes String.[] = []
codes (String.◌∷◌ c s) = code c ∷ codes s

-- `len(value)`
abbrev pub char_count : String → ℕ
char_count String.[] = 0
char_count (String.◌∷◌ c s) = suc (char_count s)

-- `not value`
abbrev pub is_empty : String → Bool
is_empty String.[] = true
is_empty (String.◌∷◌ c s) = false

abbrev pub in_range : ℕ → ℕ → ℕ → Bool
in_range lo hi c = leb lo c && leb c hi

-- `str.isspace` of one character
unfoldable pub is_space : ℕ → Bool
is_space c =
    in_range 9 13 c
    || in_range 28 32 c
    || c == 133
    || c == 160
    || c == 5760
    || in_range 8192 8202 c
    || in_range 8232 8233 c
    || c == 8239
    || c == 8287
    || c == 12288

abbrev pub lstrip : String → String
lstrip String.[] = ""
lstrip (String.◌∷◌ c s) = if is_space (code c) then lstrip s else String.◌∷◌ c s

abbrev pub rstrip : String → String
rstrip String.[] = ""
rstrip (String.◌∷◌ c s) =
    let rest = rstrip s in if is_empty rest && is_space (code c) then "" else String.◌∷◌ c rest

-- `value.strip()`
unfoldable pub strip : String → String
unfolding is_space
strip s = rstrip (lstrip s)

-- The first code point of each run of ten decimal digits.
abbrev decimal_zeros : List ℕ
decimal_zeros =
    48 ∷ 1632 ∷ 1776 ∷ 1984 ∷ 2406 ∷ 2534 ∷ 2662 ∷ 2790 ∷ 2918 ∷ 3046 ∷ 3174 ∷ 3302 ∷ 3430 ∷ 3558
    ∷ 3664 ∷ 3792 ∷ 3872 ∷ 4160 ∷ 4240 ∷ 6112 ∷ 6160 ∷ 6470 ∷ 6608 ∷ 6784 ∷ 6800 ∷ 6992 ∷ 7088
    ∷ 7232 ∷ 7248 ∷ 42528 ∷ 43216 ∷ 43264 ∷ 43472 ∷ 43504 ∷ 43600 ∷ 44016 ∷ 65296 ∷ 66720 ∷ 68912
    ∷ 69734 ∷ 69872 ∷ 69942 ∷ 70096 ∷ 70384 ∷ 70736 ∷ 70864 ∷ 71248 ∷ 71360 ∷ 71472 ∷ 71904 ∷ 72016
    ∷ 72784 ∷ 73040 ∷ 73120 ∷ 92768 ∷ 92864 ∷ 93008 ∷ 120782 ∷ 120792 ∷ 120802 ∷ 120812 ∷ 120822
    ∷ 123200 ∷ 123632 ∷ 125264 ∷ 130032 ∷ []

digit_from : List ℕ → ℕ → Option ℕ
digit_from [] c = none
digit_from (z ∷ zs) c =
    let rest = digit_from zs c in if in_range z (z + 9) c then some (c - z) else rest

-- The value of a decimal digit; `none` for a character that `\d` does not match.
unfoldable pub digit_value : ℕ → Option ℕ
unfolding digit_from
digit_value c = digit_from decimal_zeros c

unfoldable pub is_digit : ℕ → Bool
unfolding digit_value
is_digit c = elim (digit_value c) [ some _ ↦ true | none ↦ false ]

-- `int` of a text of decimal digits
unfoldable pub digits_value : ℕ → List ℕ → ℕ
unfolding digit_value
digits_value n [] = n
digits_value n (c ∷ cs) = digits_value (elim (digit_value c) [ some d ↦ n * 10 + d | none ↦ n ]) cs

-- `value.split("/")`, the part read so far first
abbrev pub split_from : String → String → List String
split_from part String.[] = part ∷ []
split_from part (String.◌∷◌ c s) =
    let rest = split_from "" s in
    let more = split_from (part <> String.◌∷◌ c "") s in
    if code c == b'/' then part ∷ rest else more

abbrev pub split_slash : String → List String
split_slash s = split_from "" s

-- `"/".join(parts)`
abbrev pub join_slash : List String → String
join_slash [] = ""
join_slash (p ∷ []) = p
join_slash (p ∷ q ∷ ps) = p <> "/" <> join_slash (q ∷ ps)

-- The characters at which `str.splitlines` ends a line.
unfoldable pub is_line_break : ℕ → Bool
is_line_break c = in_range 10 13 c || in_range 28 30 c || c == 133 || in_range 8232 8233 c

abbrev lines_from : String → String → List String
lines_from part String.[] = if is_empty part then [] else part ∷ []
lines_from part (String.◌∷◌ c s) =
    let rest = lines_from "" s in
    let more = lines_from (part <> String.◌∷◌ c "") s in
    if is_line_break (code c) then part ∷ rest else more

abbrev without_return : String → String
without_return String.[] = ""
without_return (String.◌∷◌ c s) =
    let rest = without_return s in if code c == 13 then rest else String.◌∷◌ c rest

-- `output.replace("\r", "").splitlines()`
unfoldable pub lines : String → List String
unfolding is_line_break
lines s = lines_from "" (without_return s)

abbrev words_from : String → String → List String
words_from part String.[] = if is_empty part then [] else part ∷ []
words_from part (String.◌∷◌ c s) =
    let rest = words_from "" s in
    let more = words_from (part <> String.◌∷◌ c "") s in
    if is_space (code c) then (if is_empty part then rest else part ∷ rest) else more

-- `line.split()`
unfoldable pub words : String → List String
unfolding is_space
words s = words_from "" s

abbrev digit_text : ℕ → String
digit_text d =
    elim (get_elem? {A = String} ("0" ∷ "1" ∷ "2" ∷ "3" ∷ "4" ∷ "5" ∷ "6" ∷ "7" ∷ "8" ∷ "9" ∷ [])
      d) [ none ↦ "" | some t ↦ t ]

-- `str(n)` of a natural number; the fuel is one more than the number.
decimal_from : ℕ → ℕ → String
decimal_from zero n = ""
decimal_from (suc fuel) n = elim (ltb n 10) [
  | true ↦ digit_text n
  | false ↦ decimal_from fuel (n / 10) <> digit_text (n % 10)
]

unfoldable pub decimal : ℕ → String
unfolding decimal_from
decimal n = decimal_from (suc n) n

-- `value.isdecimal()`
unfoldable pub is_decimal : String → Bool
unfolding is_digit
is_decimal s = if is_empty s then false else all is_digit (codes s)

-- `value.rstrip("\r\n")`
unfoldable pub rstrip_breaks : String → String
rstrip_breaks String.[] = ""
rstrip_breaks (String.◌∷◌ c s) =
    let rest = rstrip_breaks s in
    if is_empty rest && (code c == 13 || code c == 10) then "" else String.◌∷◌ c rest

-- `value[value.rfind(")") + 1 :]`, `none` where there is no parenthesis
unfoldable pub after_last_paren : String → Option String
after_last_paren String.[] = none
after_last_paren (String.◌∷◌ c s) = elim (after_last_paren s) [
  | some rest ↦ some rest
  | none ↦ if code c == b')' then some s else none
]

-- `value.startswith(part)`, over code points
unfoldable pub starts : List ℕ → List ℕ → Bool
starts [] cs = true
starts (p ∷ ps) [] = false
starts (p ∷ ps) (c ∷ cs) = p == c && starts ps cs

-- `part in value`, over code points
unfoldable pub contains_text : List ℕ → List ℕ → Bool
unfolding starts
contains_text part [] = starts part []
contains_text part (c ∷ cs) = starts part (c ∷ cs) || contains_text part cs
