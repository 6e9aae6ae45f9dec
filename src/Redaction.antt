-- ===== src/Redaction.antt =====
-- android_assessor/redaction.py: the names that count as sensitive and the redaction of texts. The
-- redaction of structured data and of arguments is in Redaction/Structure. `redact_url`,
-- `sensitive_query_names` and `sensitive_field_names` are not modelled.
pub mod Structure
pub mod Hiding
pub mod Arguments
use android_appsec_assessor.Prelude.{
  ℕ, String, ◌<>◌, Bool, not, ◌&&◌, ◌||◌, none, List, [], ◌∷◌, any, filter, length, leb, ltb, ◌==◌,
  if◌then◌else◌,
}
use android_appsec_assessor.Prelude.Text.{codes, is_space, is_digit, strip, contains_text}
use android_appsec_assessor.Prelude.Case.{casefold}
use android_appsec_assessor.Prelude.Pattern.{
  Class, Place, Matcher, char_of, ◌&◌, alt, nothing, word_of, either_case, optional, at_least,
  at_most, word, one_of, not_after, not_before, boundary, start, finish, prefix_group, key_group,
  value_group, found, take_text, sub,
}
use android_appsec_assessor.Scope.{is_in}
use android_appsec_assessor.Validation.{is_letter, is_ascii_digit}

abbrev pub redacted : String
redacted = "<redacted>"

abbrev pub sensitive_keys : List String
sensitive_keys =
    "authorization" ∷ "proxy-authorization" ∷ "cookie" ∷ "set-cookie" ∷ "password" ∷ "passwd"
    ∷ "secret" ∷ "credential" ∷ "credentials" ∷ "token" ∷ "access_token" ∷ "refresh_token"
    ∷ "api_key" ∷ "apikey" ∷ "session" ∷ "session_id" ∷ []

abbrev pub sensitive_words : List String
sensitive_words =
    "authorization" ∷ "auth" ∷ "bearer" ∷ "token" ∷ "key" ∷ "secret" ∷ "credential" ∷ "password"
    ∷ "passwd" ∷ "cookie" ∷ "session" ∷ []

abbrev separator : Class
separator c = c == b'-' || c == b'_' || c == b'.'

-- `_SENSITIVE_NAME_PATTERN`
unfoldable pub sensitive_name_pattern : Matcher
unfolding alt start finish char_of one_of
sensitive_name_pattern =
    alt start (char_of separator) & (one_of sensitive_words & alt finish (char_of separator))

unfoldable pub is_sensitive_name : String → Bool
unfolding sensitive_name_pattern found casefold strip
is_sensitive_name value =
    let normalized = casefold (strip value) in
    is_in normalized sensitive_keys || found sensitive_name_pattern none normalized

unfoldable pub is_sensitive_header_name : String → Bool
unfolding casefold strip contains_text
is_sensitive_header_name value =
    let normalized = codes (casefold (strip value)) in
    any (λ fragment. contains_text (codes fragment) normalized) sensitive_words

abbrev is_char : ℕ → Class
is_char d c = c == d

abbrev other_than : Class → Class
other_than p c = not (p c)

abbrev quote_or_none : Matcher
quote_or_none = optional (char_of (λ c. c == b'"' || c == 39))

abbrev spaces : Matcher
spaces = at_least 0 is_space

-- `\s*[:=]\s*`
abbrev assigns : Matcher
assigns = spaces & (char_of (λ c. c == b':' || c == b'=') & spaces)

-- Letters as `[A-Za-z]` reads them under `re.IGNORECASE`.
abbrev any_letter : Class
any_letter c = is_letter c || c == 304 || c == 305 || c == 383 || c == 8490

abbrev quoted : ℕ → Matcher
quoted q =
    char_of (is_char q)
    & (at_least 0 (other_than (λ c. c == q || c == 13 || c == 10)) & char_of (is_char q))

-- The `value` group of the assignments
abbrev assigned : Matcher
assigned = value_group (
    alt (quoted b'"') (
      alt (quoted 39) (
        at_least 1 (
          other_than (λ c.
            is_space c
            || c == b','
            || c == b';'
            || c == b'&'
            || c == b'#'
            || c == b'}'
            || c == b']')))))

module _ (word_beyond : Class) where
  -- `\w`; beyond ASCII it is the parameter.
  abbrev is_word : Class
  is_word c = if ltb c 128 then is_letter c || is_ascii_digit c || c == b'_' else word_beyond c

  abbrev edge : Matcher
  edge = boundary is_word

  unfoldable pub auth_pattern : Matcher
  auth_pattern =
      edge
      & (prefix_group (word "authorization" & assigns)
          & (optional (word "bearer" & at_least 1 is_space)
              & at_least 1 (other_than (λ c. is_space c || c == b',' || c == b';'))))

  abbrev token_char : Class
  token_char c =
      any_letter c
      || is_ascii_digit c
      || c == b'.'
      || c == b'_'
      || c == b'~'
      || c == b'+'
      || c == b'/'
      || c == b'='
      || c == b'-'

  unfoldable pub bearer_pattern : Matcher
  bearer_pattern =
      edge & (prefix_group (word "bearer" & at_least 1 is_space) & at_least 1 token_char)

  unfoldable pub cookie_pattern : Matcher
  cookie_pattern =
      edge
      & (prefix_group (optional (word "set-") & (word "cookie" & assigns))
          & at_least 1 (other_than (λ c. c == 13 || c == 10)))

  abbrev base64_part : Matcher
  base64_part = at_least 6 (λ c. is_letter c || is_ascii_digit c || c == b'_' || c == b'-')

  abbrev dot : Matcher
  dot = char_of (is_char b'.')

  unfoldable pub jwt_pattern : Matcher
  jwt_pattern =
      edge
      & (char_of (is_char b'e')
          & (char_of (is_char b'y')
              & (char_of (is_char b'J')
                  & (base64_part & (dot & (base64_part & (dot & (base64_part & edge))))))))

  abbrev name_char : Class
  name_char c = is_ascii_digit c || c == b'_' || c == b'.' || c == b'-'

  unfoldable pub secret_assignment_pattern : Matcher
  secret_assignment_pattern =
      prefix_group (
        quote_or_none
        & (at_least 0 (λ c. any_letter c || name_char c)
            & (one_of sensitive_words
                & (at_least 0 (λ c. any_letter c || name_char c) & (quote_or_none & assigns)))))
      & assigned

  unfoldable pub assignment_pattern : Matcher
  assignment_pattern =
      prefix_group (
        quote_or_none
        & (key_group (char_of is_letter & at_most 80 (λ c. is_letter c || name_char c))
            & (quote_or_none & assigns)))
      & assigned

  unfoldable pub email_pattern : Matcher
  email_pattern =
      edge
      & (at_least 1 (λ c. any_letter c || name_char c || c == b'%' || c == b'+')
          & (char_of (is_char b'@')
              & (at_least 1 (λ c. any_letter c || is_ascii_digit c || c == b'.' || c == b'-')
                  & (dot & (at_least 2 any_letter & edge)))))

  unfoldable pub phone_pattern : Matcher
  phone_pattern =
      not_after (λ c. is_word c || c == b'.')
      & (optional (char_of (is_char b'+'))
          & (char_of is_digit
              & (at_least 7 (λ c. is_digit c || c == 32 || c == b'(' || c == b')' || c == b'-')
                  & (char_of is_digit & not_before (λ c. is_word c || c == b'.')))))

  -- `\1<redacted>`
  abbrev keep_prefix : String → Place → String
  keep_prefix text p = p.prefix <> redacted

  -- The replacement of an assignment keeps the quotes of its value.
  unfoldable pub redact_assigned : String → Place → String
  redact_assigned text p =
      let quote = take_text 1 p.value in
      if is_in quote ("'" ∷ "\"" ∷ [])
      then p.prefix <> quote <> redacted <> quote
      else p.prefix <> redacted

  unfoldable pub redact_assignment : String → Place → String
  unfolding redact_assigned is_sensitive_name
  redact_assignment text p = if not (is_sensitive_name p.key) then text else redact_assigned text p

  unfoldable pub redact_phone : String → Place → String
  redact_phone text p =
      let digits = length (filter is_digit (codes text)) in
      if leb 9 digits && leb digits 15 then redacted else text

  unfoldable pub redact_text : String → String
  unfolding sub auth_pattern bearer_pattern cookie_pattern jwt_pattern secret_assignment_pattern
      assignment_pattern email_pattern phone_pattern redact_assignment redact_phone boundary
      at_least at_most nothing not_after not_before is_digit is_space either_case word_of one_of
      char_of alt
  redact_text value =
      let without_auth = sub auth_pattern keep_prefix value in
      let without_bearer = sub bearer_pattern keep_prefix without_auth in
      let without_cookie = sub cookie_pattern keep_prefix without_bearer in
      let without_jwt = sub jwt_pattern (λ text p. redacted) without_cookie in
      let without_secrets = sub secret_assignment_pattern redact_assigned without_jwt in
      let without_assignments = sub assignment_pattern redact_assignment without_secrets in
      let without_email = sub email_pattern (λ text p. redacted) without_assignments in
      sub phone_pattern redact_phone without_email
