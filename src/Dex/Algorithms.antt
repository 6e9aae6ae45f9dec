-- ===== src/Dex/Algorithms.antt =====
-- The constants of calls and the names of algorithms in android_assessor/static_apk_analysis.py.
-- `str.upper` of a character beyond ASCII is a parameter, the Unicode data of the interpreter.
use Prim.Native.Nat.{ℕ, ◌-◌, ◌/◌, ◌%◌}
use android_appsec_assessor.Prelude.{
  String, ◌<>◌, Bool, true, false, ◌&&◌, Option, none, some, List, [], ◌∷◌, ◌++◌, any, ltb, ◌==◌,
  ◌=ₛ◌, get_elem?, if◌then◌else◌,
}
use android_appsec_assessor.Prelude.Int.{ℤ, pos, negsuc}
use android_appsec_assessor.Prelude.Text.{codes, is_space, in_range, starts, contains_text}
use android_appsec_assessor.Prelude.Case.{at}
use android_appsec_assessor.Errors.{Result, ok, err, fault, dex_format_error}
use android_appsec_assessor.Scope.{is_in}
use android_appsec_assessor.Dex.Registers.{Text, DexConstant, text, number, string_index}
use android_appsec_assessor.Dex.Tables.{Texts}

-- A constant argument of a call.
pub data Argument : Type 0 where
  constant_text : Text → Argument
  constant_int : ℤ → Argument

abbrev pub Arguments : Type 0
Arguments = List (Option Argument)

abbrev text_argument : Option Text → Option Argument
text_argument none = none
text_argument (some t) = some (constant_text t)

-- `_constant_value`
unfoldable pub constant_value : Texts → Option DexConstant → Result (Option Argument)
constant_value strings none = ok none
constant_value strings (some (text t)) = ok (some (constant_text t))
constant_value strings (some (number n)) = ok (some (constant_int n))
constant_value strings (some (string_index index)) = elim (get_elem? strings index) [
  | none ↦ err (fault dex_format_error "DEX const-string references an invalid string index.")
  | some value ↦ ok (text_argument value)
]

unfoldable pub lstrip_text : Text → Text
lstrip_text [] = []
lstrip_text (c ∷ cs) = let rest = lstrip_text cs in if is_space c then rest else c ∷ cs

abbrev is_nil : Text → Bool
is_nil [] = true
is_nil (c ∷ cs) = false

unfoldable pub rstrip_text : Text → Text
rstrip_text [] = []
rstrip_text (c ∷ cs) =
    let rest = rstrip_text cs in if is_nil rest && is_space c then [] else c ∷ rest

-- `value.strip()`
unfoldable pub strip_text : Text → Text
unfolding lstrip_text rstrip_text is_space
strip_text t = rstrip_text (lstrip_text t)

-- `value.split("/", 1)[0]`
unfoldable pub before_slash : Text → Text
before_slash [] = []
before_slash (c ∷ cs) = let more = c ∷ before_slash cs in if c == b'/' then [] else more

-- What stands behind the first slash, `none` where there is none.
unfoldable pub after_slash : Text → Option Text
after_slash [] = none
after_slash (c ∷ cs) = let more = after_slash cs in if c == b'/' then some cs else more

-- `re.sub(r"[^A-Z0-9]", "", value)`
unfoldable pub letters_digits_of : Text → String
letters_digits_of [] = ""
letters_digits_of (c ∷ cs) =
    let rest = letters_digits_of cs in
    if in_range b'A' b'Z' c
    then at "ABCDEFGHIJKLMNOPQRSTUVWXYZ" (c - b'A') <> rest
    else if in_range b'0' b'9' c
    then at "0123456789" (c - b'0') <> rest
    else rest

-- The same in small letters
unfoldable pub lower_letters_digits : List ℕ → String
lower_letters_digits [] = ""
lower_letters_digits (c ∷ cs) =
    let rest = lower_letters_digits cs in
    if in_range b'A' b'Z' c
    then at "abcdefghijklmnopqrstuvwxyz" (c - b'A') <> rest
    else if in_range b'0' b'9' c
    then at "0123456789" (c - b'0') <> rest
    else rest

module _ (upper_beyond : ℕ → Text) where
  -- `value.upper()`
  unfoldable pub upper : Text → Text
  upper [] = []
  upper (c ∷ cs) =
      (if in_range b'a' b'z' c then (c - 32) ∷ [] else if ltb c 128 then c ∷ [] else upper_beyond c)
      ++ upper cs

  -- `_algorithm_family`
  unfoldable pub algorithm_family : Text → String
  unfolding upper strip_text before_slash letters_digits_of
  algorithm_family value = letters_digits_of (before_slash (strip_text (upper value)))

  abbrev pub family_of_alias : String → Option String
  family_of_alias family =
      if family =ₛ "DES"
      then some "des"
      else if is_in family ("DESEDE" ∷ "3DES" ∷ "TRIPLEDES" ∷ [])
      then some "triple_des"
      else if family =ₛ "RC2"
      then some "rc2"
      else if is_in family ("RC4" ∷ "ARC4" ∷ "ARCFOUR" ∷ [])
      then some "rc4"
      else if family =ₛ "BLOWFISH"
      then some "blowfish"
      else none

  abbrev pub is_legacy_pbe : String → Bool
  is_legacy_pbe family =
      starts (codes "PBEWITH") (codes family)
      && any (λ marker. contains_text (codes marker) (codes family))
          ("MD5" ∷ "SHA1" ∷ "DES" ∷ "RC2" ∷ "RC4" ∷ [])

  -- `_weak_cipher_family`
  unfoldable pub weak_cipher_family : Text → Option String
  unfolding algorithm_family starts contains_text
  weak_cipher_family value = elim (family_of_alias (algorithm_family value)) [
    | some family ↦ some family
    | none ↦ if is_legacy_pbe (algorithm_family value) then some "legacy_pbe" else none
  ]

  -- `_weak_digest_family`
  unfoldable pub weak_digest_family : Text → Option String
  unfolding upper strip_text letters_digits_of
  weak_digest_family value =
      let family = letters_digits_of (strip_text (upper value)) in
      if is_in family ("MD2" ∷ "MD4" ∷ "MD5" ∷ "HMACMD5" ∷ [])
      then some "md5_family"
      else if is_in family ("SHA" ∷ "SHA1" ∷ "HMACSHA1" ∷ [])
      then some "sha1_family"
      else none

-- The bits of a mode, as `&` reads them in two's complement.
unfoldable pub has_bit_0 : ℤ → Bool
has_bit_0 (pos n) = n % 2 == 1
has_bit_0 (negsuc n) = n % 2 == 0

unfoldable pub has_bit_1 : ℤ → Bool
has_bit_1 (pos n) = n / 2 % 2 == 1
has_bit_1 (negsuc n) = n / 2 % 2 == 0

unfoldable pub is_int : ℕ → Option Argument → Bool
is_int n (some (constant_int (pos m))) = m == n
is_int n _ = false

-- `isinstance(iteration, int) and iteration < bound`
unfoldable pub is_int_below : ℕ → Option Argument → Bool
is_int_below bound (some (constant_int (pos m))) = ltb m bound
is_int_below bound (some (constant_int (negsuc m))) = true
is_int_below bound _ = false
