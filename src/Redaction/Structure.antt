-- ===== src/Redaction/Structure.antt =====
-- The redaction of structured data, headers and command arguments in android_assessor/redaction.py.
-- Texts are redacted by `redact_text`, whose `\w` beyond ASCII is the parameter.
use Prim.Native.Char.{code}
use android_appsec_assessor.Prelude.{
  ℕ, zero, suc, String, ◌<>◌, Bool, true, false, not, ◌&&◌, ◌||◌, Option, none, some, List, [], ◌∷◌,
  any, filter, leb, ◌==◌, ◌=ₛ◌, if◌then◌else◌,
}
use android_appsec_assessor.Prelude.Text.{codes, char_count, is_empty, starts}
use android_appsec_assessor.Prelude.Case.{one}
use android_appsec_assessor.Prelude.Pattern.{Class, take_text}
use android_appsec_assessor.Json.{
  Value, null, bool, num, str, arr, obj, Items, nil, cons, Fields, end, field,
}
use android_appsec_assessor.Scope.{is_in}
use android_appsec_assessor.Redaction.{
  redacted, is_sensitive_name, is_sensitive_header_name, redact_text,
}

-- The text after the first characters.
unfoldable pub drop_text : ℕ → String → String
drop_text zero s = s
drop_text (suc n) String.[] = ""
drop_text (suc n) (String.◌∷◌ x s) = drop_text n s

-- `value.replace(secret, "<redacted>")` for a secret that is not empty; the fuel is the length of the
-- text.
unfoldable pub replace_from : ℕ → String → String → String
unfolding drop_text starts
replace_from zero secret s = s
replace_from (suc fuel) secret String.[] = ""
replace_from (suc fuel) secret (String.◌∷◌ x s) =
    elim (starts (codes secret) (codes (String.◌∷◌ x s))) [
      | true ↦ redacted <> replace_from fuel secret (drop_text (char_count secret) (String.◌∷◌ x s))
      | false ↦ one x <> replace_from fuel secret s
    ]

unfoldable pub replace_secret : String → String → String
unfolding replace_from
replace_secret secret s = replace_from (char_count s) secret s

-- `sorted(values, key=len, reverse=True)`; equal lengths keep their order.
unfoldable pub insert_by_length : String → List String → List String
insert_by_length x [] = x ∷ []
insert_by_length x (y ∷ ys) =
    let rest = y ∷ insert_by_length x ys in
    if leb (char_count y) (char_count x) then x ∷ y ∷ ys else rest

unfoldable pub longest_first : List String → List String
unfolding insert_by_length
longest_first [] = []
longest_first (x ∷ xs) = insert_by_length x (longest_first xs)

unfoldable pub replace_all : List String → String → String
unfolding replace_secret
replace_all [] s = s
replace_all (secret ∷ secrets) s = replace_all secrets (replace_secret secret s)

abbrev pub not_empty : List String → List String
not_empty values = filter (λ s. not (is_empty s)) values

abbrev pub report_identifier_keys : List String
report_identifier_keys =
    "session" ∷ "session_id" ∷ "finding_id" ∷ "evidence_id" ∷ "related_findings" ∷ "validation_type"
    ∷ "root_used_in_session" ∷ "frida_used_in_session" ∷ []

unfoldable pub is_identifier : String → Bool
is_identifier name = is_in name report_identifier_keys

-- `_key in _REPORT_IDENTIFIER_KEYS`
unfoldable pub under_identifier : Option String → Bool
unfolding is_identifier
under_identifier none = false
under_identifier (some key) = is_identifier key

-- `argument.lstrip("-")`
unfoldable pub without_dashes : String → String
without_dashes String.[] = ""
without_dashes (String.◌∷◌ x s) =
    let rest = without_dashes s in if code x == b'-' then rest else String.◌∷◌ x s

unfoldable pub has_equals : String → Bool
has_equals s = any (λ c. c == b'=') (codes s)

-- A flag whose value is the next argument and is sensitive.
unfoldable pub hides_next : String → Bool
unfolding without_dashes has_equals
hides_next argument =
    starts (codes "-") (codes argument)
    && is_sensitive_name (without_dashes argument)
    && not (has_equals argument)

module _ (word_beyond : Class) where
  unfoldable pub redact_text_with_values : String → List String → String
  unfolding replace_all longest_first
  redact_text_with_values value sensitive_values =
      redact_text word_beyond (replace_all (longest_first (not_empty sensitive_values)) value)

  unfoldable mutual
    pub redact_data : Value → Value
    redact_data (str s) = str (redact_text word_beyond s)
    redact_data (obj fs) = obj (redact_fields fs)
    redact_data (arr vs) = arr (redact_items vs)
    redact_data null = null
    redact_data (bool b) = bool b
    redact_data (num n) = num n

    pub redact_fields : Fields → Fields
    redact_fields end = end
    redact_fields (field key item fs) =
        let kept = redact_data item in
        field key (if is_sensitive_name key then str redacted else kept) (redact_fields fs)

    pub redact_items : Items → Items
    redact_items nil = nil
    redact_items (cons v vs) = cons (redact_data v) (redact_items vs)

  unfoldable mutual
    pub redact_report_data : Value → Option String → Value
    redact_report_data (str s) key =
        if under_identifier key then str s else str (redact_text word_beyond s)
    redact_report_data (obj fs) key = obj (redact_report_fields fs)
    redact_report_data (arr vs) key = arr (redact_report_items vs key)
    redact_report_data null key = null
    redact_report_data (bool b) key = bool b
    redact_report_data (num n) key = num n

    pub redact_report_fields : Fields → Fields
    redact_report_fields end = end
    redact_report_fields (field name item fs) =
        let kept = redact_report_data item (some name) in
        field name
          (if not (is_identifier name) && is_sensitive_name name then str redacted else kept)
          (redact_report_fields fs)

    pub redact_report_items : Items → Option String → Items
    redact_report_items nil key = nil
    redact_report_items (cons v vs) key =
        cons (redact_report_data v key) (redact_report_items vs key)

  -- The loop of `redact_arguments`; `next` says that the last argument was a sensitive flag.
  unfoldable pub redact_from : List String → Bool → List String → List String
  unfolding redact_text_with_values hides_next
  redact_from sensitive_values next [] = []
  redact_from sensitive_values next (argument ∷ arguments) =
      let hide = is_in argument (not_empty sensitive_values) || next in
      (if hide then redacted else redact_text_with_values argument sensitive_values)
      ∷ redact_from sensitive_values (not hide && hides_next argument) arguments

  unfoldable pub redact_arguments : List String → List String → List String
  unfolding redact_from
  redact_arguments arguments sensitive_values = redact_from sensitive_values false arguments

  -- The dict of `redact_headers`: a later header of a name takes the place of an earlier one.
  unfoldable pub put_header : String → String → List (String × String) → List (String × String)
  put_header name value [] = (name, value) ∷ []
  put_header name value ((k, v) ∷ headers) =
      let rest = (k, v) ∷ put_header name value headers in
      if k =ₛ name then (k, value) ∷ headers else rest

  unfoldable pub redact_headers :
      List (String × String) → List (String × String) → List (String × String)
  unfolding put_header
  redact_headers output [] = output
  redact_headers output ((name, value) ∷ headers) =
      redact_headers
        (put_header name
          (if is_sensitive_header_name name
            then redacted
            else take_text 1000 (redact_text word_beyond value))
          output)
        headers
