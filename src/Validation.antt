-- ===== src/Validation.antt =====
-- android_assessor/validation.py, and `validate_serial` of android_assessor/adb.py: values that
-- cross process or filesystem boundaries. A regular expression is a test over code points.
pub mod Idempotence
pub mod ManagedPath
use android_appsec_assessor.Prelude.{
  ℕ, zero, suc, ◌-◌, min, ◌<>◌, String, Bool, true, false, not, ◌&&◌, ◌||◌, Option, none, some,
  List, [], ◌∷◌, all, any, length, ltb, leb, ◌==◌, ◌=ₛ◌, if◌then◌else◌, filter,
}
use android_appsec_assessor.Prelude.Text.{
  codes, char_count, is_empty, in_range, strip, is_digit, digits_value, split_slash, join_slash,
}
use android_appsec_assessor.Errors.{Result, ok, err, fault, session_error, adb_error}

abbrev pub is_letter : ℕ → Bool
is_letter c = in_range b'A' b'Z' c || in_range b'a' b'z' c

abbrev pub is_ascii_digit : ℕ → Bool
is_ascii_digit c = in_range b'0' b'9' c

-- `[A-Za-z0-9_]`
abbrev is_word : ℕ → Bool
is_word c = is_letter c || is_ascii_digit c || c == b'_'

-- `[a-f0-9]`
abbrev pub is_hex : ℕ → Bool
is_hex c = in_range b'a' b'f' c || is_ascii_digit c

-- One class for each character, from the first to the last.
unfoldable pub matches : List (ℕ → Bool) → List ℕ → Bool
matches [] [] = true
matches (p ∷ ps) (c ∷ cs) = p c && matches ps cs
matches _ _ = false

abbrev times : ℕ → (ℕ → Bool) → List (ℕ → Bool) → List (ℕ → Bool)
times zero p rest = rest
times (suc n) p rest = p ∷ times n p rest

-- A dotted name: a letter opens each part, `follows` takes the other characters of a part.
-- `opens` says that a part begins at the next character, `dotted` that a dot was read.
unfoldable pub dotted_name : (Bool → ℕ → Bool) → Bool → Bool → List ℕ → Bool
dotted_name follows opens dotted [] = not opens && dotted
dotted_name follows opens dotted (c ∷ cs) =
    let is_dot = c == b'.' in
    (if opens then is_letter c else (is_dot || follows dotted c))
    && dotted_name follows (not opens && is_dot) (dotted || not opens && is_dot) cs

unfoldable pub validate_package_name : String → Result String
validate_package_name name =
    let value = strip name in
    if ltb 255 (char_count value) || not (dotted_name (λ _. is_word) true false (codes value))
    then err (fault session_error "Invalid Android package name")
    else ok value

abbrev session_pattern : List (ℕ → Bool)
session_pattern =
    times 8 is_digit ((λ c. c == b'-') ∷ times 6 is_digit ((λ c. c == b'-') ∷ times 6 is_hex []))

unfoldable pub validate_session_id : String → Result String
validate_session_id session_id =
    let value = strip session_id in
    if matches session_pattern (codes value)
    then ok value
    else err (fault session_error "Session ID has an invalid format.")

abbrev canary_pattern : List (ℕ → Bool)
canary_pattern =
    times 8 is_digit (
      (λ c. c == b'T')
      ∷ times 6 is_digit ((λ c. c == b'Z') ∷ (λ c. c == b'_') ∷ times 12 is_hex []))

-- The code points after a given opening.
unfoldable pub after : List ℕ → List ℕ → Option (List ℕ)
after [] cs = some cs
after (p ∷ ps) [] = none
after (p ∷ ps) (c ∷ cs) = let rest = after ps cs in if p == c then rest else none

unfoldable pub validate_session_canary : String → Result String
validate_session_canary canary =
    let value = strip canary in
    elim (after (codes "THESIS_CANARY_") (codes value)) [
      | none ↦ err (fault session_error "Session canary has an invalid format.")
      | some cs ↦
          if matches canary_pattern cs
          then ok value
          else err (fault session_error "Session canary has an invalid format.")
    ]

-- The port of `^tcp:(\d{1,5})$`, `none` where the pattern does not match.
unfoldable pub reverse_port : String → Option ℕ
reverse_port value = elim (after (codes "tcp:") (codes value)) [
  | none ↦ none
  | some ds ↦
      if leb 1 (length ds) && leb (length ds) 5 && all is_digit ds
      then some (digits_value 0 ds)
      else none
]

unfoldable pub validate_reverse_endpoint : String → Result String
validate_reverse_endpoint endpoint = elim (reverse_port (strip endpoint)) [
  | none ↦ err (fault session_error "Unsupported ADB reverse endpoint")
  | some port ↦
      if leb 1 port && leb port 65535
      then ok (strip endpoint)
      else err (fault session_error "Unsupported ADB reverse endpoint")
]

unfoldable pub validate_component_name : String → Result String
validate_component_name component =
    let value = strip component in
    if ltb 512 (char_count value)
      || not (dotted_name (λ dotted c. is_word c || dotted && c == b'$') true false (codes value))
    then err (fault session_error "Invalid Android component name")
    else ok value

-- `PurePosixPath`: the root and the parts, without empty parts and `.`.
pub data Root : Type 0 where
  relative slash double_slash : Root

pub record PosixPath : Type 0 where
  pub root : Root
  pub parts : List String

-- The pieces between slashes: exactly two slashes at the front are a root of their own.
unfoldable pub root_of : List String → Root
root_of (p ∷ q ∷ r ∷ s ∷ ps) =
    if is_empty p
    then (if is_empty q && not (is_empty r) then double_slash else slash)
    else relative
root_of (p ∷ q ∷ r ∷ []) =
    if is_empty p then (if is_empty q then double_slash else slash) else relative
root_of (p ∷ q ∷ []) = if is_empty p then slash else relative
root_of _ = relative

unfoldable pub posix_path : String → PosixPath
posix_path path = record {
  root = root_of (split_slash path);
  parts = filter (λ p. not (is_empty p) && not (p =ₛ ".")) (split_slash path);
}

abbrev root_text : Root → String
root_text relative = ""
root_text slash = "/"
root_text double_slash = "//"

-- `path.as_posix()` of a path that has parts
unfoldable pub as_posix : PosixPath → String
as_posix p = root_text p.root <> join_slash p.parts

abbrev is_absolute : PosixPath → Bool
is_absolute p = elim p.root [ relative ↦ false | _ ↦ true ]

abbrev pub remote_temp_parts : List String
remote_temp_parts = "data" ∷ "local" ∷ "tmp" ∷ "android-security-lab" ∷ []

-- `_REMOTE_TEMP_PREFIX in value.parents`, from the parts of both
unfoldable pub strictly_below : List String → List String → Bool
strictly_below [] [] = false
strictly_below [] (p ∷ ps) = true
strictly_below (q ∷ qs) [] = false
strictly_below (q ∷ qs) (p ∷ ps) = q =ₛ p && strictly_below qs ps

abbrev is_slash : Root → Bool
is_slash slash = true
is_slash _ = false

unfoldable pub validate_managed_remote_path : String → Result String
validate_managed_remote_path path =
    let value = posix_path path in
    if not (is_absolute value) || any (λ p. p =ₛ "..") value.parts
    then err (fault session_error "Managed Android path must be absolute and traversal-free.")
    else if not (is_slash value.root && strictly_below remote_temp_parts value.parts)
    then err (
        fault session_error
          "Cleanup may only remove files below /data/local/tmp/android-security-lab/.")
    else ok (as_posix value)

unfoldable pub validate_serial : String → Result String
validate_serial serial =
    if all
        (λ c. is_letter c || is_ascii_digit c || c == b'.' || c == b'_' || c == b':' || c == b'-')
        (codes serial)
      && leb 1 (char_count serial)
      && leb (char_count serial) 128
    then ok serial
    else err (fault adb_error "Device serial contains unsupported characters.")

abbrev take_chars : ℕ → String → String
take_chars zero s = ""
take_chars (suc n) String.[] = ""
take_chars (suc n) (String.◌∷◌ c s) = String.◌∷◌ c (take_chars n s)

abbrev drop_chars : ℕ → String → String
drop_chars zero s = s
drop_chars (suc n) String.[] = ""
drop_chars (suc n) (String.◌∷◌ c s) = drop_chars n s

abbrev stars : ℕ → String
stars zero = ""
stars (suc n) = "*" <> stars n

-- `mask_serial` of android_assessor/adb.py
unfoldable pub mask_serial : String → String
mask_serial serial =
    let size = char_count serial in
    let visible = min 2 (size - 4) in
    if leb size 4
    then stars size
    else (take_chars visible serial <> (stars (size - visible - 4) <> drop_chars (size - 4) serial))
