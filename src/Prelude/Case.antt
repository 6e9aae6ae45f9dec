-- ===== src/Prelude/Case.antt =====
-- Python's `str.casefold` and `str.upper`, and the order of texts by code points with the sorted
-- set of texts that it gives.
use Prim.Native.Nat.{ℕ, zero, suc, ◌-◌}
use Prim.Native.Char.{Char, code}
use Prim.Native.String.{String, ◌++◌ as ◌<>◌}
use mathlib.Core.Bool.{Bool, true, false, ◌&&◌, ◌||◌}
use mathlib.Core.List.{List, [], ◌∷◌}
use android_appsec_assessor.Prelude.Tests.{ltb, ◌==◌, if◌then◌else◌}
use android_appsec_assessor.Prelude.Text.{codes, in_range}

abbrev pub one : Char → String
one c = String.◌∷◌ c ""

-- The text of the character at a position.
abbrev pub at : String → ℕ → String
at String.[] n = ""
at (String.◌∷◌ c s) zero = one c
at (String.◌∷◌ c s) (suc n) = at s n

-- What folds to a text with an ASCII letter: the capitals, and beyond ASCII the sharp s, the dotted
-- capital i, the long s, the Kelvin sign and the Latin ligatures. Each other character either stays or folds to a text
-- in which a character beyond ASCII stands beside each letter; it is kept here.
unfoldable pub fold_char : Char → String
fold_char c =
    let n = code c in
    if in_range b'A' b'Z' n
    then at "abcdefghijklmnopqrstuvwxyz" (n - b'A')
    else if n == 223 || n == 7838
    then "ss"
    else if n == 304
    then "i̇"
    else if n == 383
    then "s"
    else if n == 8490
    then "k"
    else if n == 64256
    then "ff"
    else if n == 64257
    then "fi"
    else if n == 64258
    then "fl"
    else if n == 64259
    then "ffi"
    else if n == 64260
    then "ffl"
    else if n == 64261 || n == 64262
    then "st"
    else one c

-- `value.casefold()`, exact where the result is compared with ASCII texts.
unfoldable pub casefold : String → String
unfolding fold_char
casefold String.[] = ""
casefold (String.◌∷◌ c s) = fold_char c <> casefold s

unfoldable pub upper_char : Char → String
upper_char c =
    if in_range b'a' b'z' (code c) then at "ABCDEFGHIJKLMNOPQRSTUVWXYZ" (code c - b'a') else one c

-- `value.upper()` of an ASCII text
unfoldable pub ascii_upper : String → String
unfolding upper_char
ascii_upper String.[] = ""
ascii_upper (String.◌∷◌ c s) = upper_char c <> ascii_upper s

-- `a < b` of two texts by their code points
unfoldable pub codes_before : List ℕ → List ℕ → Bool
codes_before [] [] = false
codes_before [] (d ∷ ds) = true
codes_before (c ∷ cs) [] = false
codes_before (c ∷ cs) (d ∷ ds) = ltb c d || c == d && codes_before cs ds

unfoldable pub before : String → String → Bool
unfolding codes_before
before a b = codes_before (codes a) (codes b)

-- Insertion into a sorted list without repetitions, by an order.
unfoldable pub insert_sorted {ℓ} : {A : Type ℓ} → (A → A → Bool) → A → List A → List A
insert_sorted lt x [] = x ∷ []
insert_sorted lt x (y ∷ ys) =
    let rest = y ∷ insert_sorted lt x ys in
    if lt x y then x ∷ y ∷ ys else if lt y x then rest else y ∷ ys

-- `sorted({…})`
unfoldable pub sorted_set {ℓ} : {A : Type ℓ} → (A → A → Bool) → List A → List A
unfolding insert_sorted
sorted_set lt [] = []
sorted_set lt (x ∷ xs) = insert_sorted lt x (sorted_set lt xs)
