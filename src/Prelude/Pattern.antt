-- ===== src/Prelude/Pattern.antt =====
-- The part of Python's `re` that the patterns of the repository use, as matchers that backtrack: a
-- matcher takes the place where it stands and what follows it. Repetition is greedy and of one class
-- of characters. What `\w` matches beyond ASCII is a parameter, the Unicode data of the interpreter.
use Prim.Native.Nat.{ℕ, zero, suc, ◌-◌}
use Prim.Native.Char.{code}
use Prim.Native.String.{String, ◌++◌ as ◌<>◌}
use mathlib.Core.Bool.{Bool, true, false, not, ◌&&◌, ◌||◌}
use mathlib.Core.Option.{Option, none, some}
use mathlib.Core.List.{List, [], ◌∷◌}
use android_appsec_assessor.Prelude.Tests.{◌==◌, if◌then◌else◌}
use android_appsec_assessor.Prelude.Text.{codes, char_count, in_range, is_empty}
use android_appsec_assessor.Prelude.Case.{one}

abbrev pub Class : Type 0
Class = ℕ → Bool

-- A place in a text with the groups that were read.
pub record Place : Type 0 where
  pub previous : Option ℕ
  pub rest : String
  pub prefix : String
  pub key : String
  pub value : String

abbrev pub Match : Type 0
Match = Option Place

abbrev pub Matcher : Type 0
Matcher = Place → (Place → Match) → Match

-- The first of two results.
abbrev pub or_else : Match → Match → Match
or_else (some p) other = some p
or_else none other = other

abbrev step : Class → String → Place → (Place → Match) → Match
step c String.[] p next = none
step c (String.◌∷◌ x s) p next =
    if c (code x) then next (record p { previous = some (code x); rest = s }) else none

-- One character of a class.
unfoldable pub char_of : Class → Matcher
char_of c p next = step c p.rest p next

infixr 45 ◌&◌
-- One matcher, then another.
abbrev pub ◌&◌ : Matcher → Matcher → Matcher
◌&◌ a b p next = a p (λ q. b q next)

-- `a|b`
unfoldable pub alt : Matcher → Matcher → Matcher
alt a b p next = or_else (a p next) (b p next)

unfoldable pub nothing : Matcher
nothing p next = next p

-- `(?:a)?`
abbrev pub optional : Matcher → Matcher
optional a = alt a nothing

unfoldable pub repeat : ℕ → ℕ → Class → Place → (Place → Match) → Match
unfolding char_of
repeat zero minimum c p next = if minimum == 0 then next p else none
repeat (suc fuel) minimum c p next =
    let more = char_of c p (λ q. repeat fuel (minimum - 1) c q next) in
    or_else more (if minimum == 0 then next p else none)

-- `[…]{minimum,}`
unfoldable pub at_least : ℕ → Class → Matcher
unfolding repeat
at_least minimum c p next = repeat (char_count p.rest) minimum c p next

-- `[…]{0,maximum}`
unfoldable pub at_most : ℕ → Class → Matcher
unfolding repeat
at_most maximum c p next = repeat maximum 0 c p next

unfoldable pub word_of : (ℕ → Class) → List ℕ → Matcher
unfolding char_of
word_of as_class [] p next = next p
word_of as_class (c ∷ cs) p next = char_of (as_class c) p (λ q. word_of as_class cs q next)

-- A letter in either case, as `re.IGNORECASE` reads it.
unfoldable pub either_case : ℕ → Class
either_case l c =
    c == l
    || in_range b'a' b'z' l && c == l - 32
    || l == b'i' && (c == 304 || c == 305)
    || l == b's' && c == 383
    || l == b'k' && c == 8490

-- A word of small letters and signs, in either case.
abbrev pub word : String → Matcher
word s = word_of either_case (codes s)

unfoldable pub one_of : List String → Matcher
unfolding word_of either_case
one_of [] p next = none
one_of (s ∷ ss) p next = let others = one_of ss p next in or_else (word s p next) others

abbrev char_is : Class → Option ℕ → Bool
char_is c none = false
char_is c (some x) = c x

abbrev first_code : String → Option ℕ
first_code String.[] = none
first_code (String.◌∷◌ x s) = some (code x)

-- `(?<![…])`
unfoldable pub not_after : Class → Matcher
not_after c p next = if char_is c p.previous then none else next p

-- `(?![…])`
unfoldable pub not_before : Class → Matcher
not_before c p next = if char_is c (first_code p.rest) then none else next p

-- `\b`
unfoldable pub boundary : Class → Matcher
boundary w p next =
    let a = char_is w p.previous in
    let b = char_is w (first_code p.rest) in if (if a then not b else b) then next p else none

-- `^` and `$` of a text that holds no line break
unfoldable pub start : Matcher
start p next = elim p.previous [ none ↦ next p | some c ↦ none ]

unfoldable pub finish : Matcher
finish p next = if is_empty p.rest then next p else none

-- The first characters of a text.
abbrev pub take_text : ℕ → String → String
take_text zero s = ""
take_text (suc n) String.[] = ""
take_text (suc n) (String.◌∷◌ x s) = one x <> take_text n s

-- What was read from one place to another.
abbrev pub between : Place → Place → String
between p q = take_text (char_count p.rest - char_count q.rest) p.rest

abbrev pub prefix_group : Matcher → Matcher
prefix_group a p next = a p (λ q. next (record q { prefix = between p q }))

abbrev pub key_group : Matcher → Matcher
key_group a p next = a p (λ q. next (record q { key = between p q }))

abbrev pub value_group : Matcher → Matcher
value_group a p next = a p (λ q. next (record q { value = between p q }))

abbrev pub place : Option ℕ → String → Place
place previous rest = record { previous = previous; rest = rest; prefix = ""; key = ""; value = "" }

-- `pattern.search(text) is not None`, from a place on
unfoldable pub found : Matcher → Option ℕ → String → Bool
found a previous String.[] = elim (a (place previous "") some) [ some q ↦ true | none ↦ false ]
found a previous (String.◌∷◌ x s) = elim (a (place previous (String.◌∷◌ x s)) some) [
  | some q ↦ true
  | none ↦ found a (some (code x)) s
]

-- `pattern.sub(replacement, text)` for a pattern that matches no empty text: the replacement sees
-- the text of the match and its groups. The fuel is the length of the text.
unfoldable pub sub_from : ℕ → Matcher → (String → Place → String) → Option ℕ → String → String
sub_from zero a replacement previous s = s
sub_from (suc fuel) a replacement previous String.[] = ""
sub_from (suc fuel) a replacement previous (String.◌∷◌ x s) =
    elim (a (place previous (String.◌∷◌ x s)) some) [
      | none ↦ one x <> sub_from fuel a replacement (some (code x)) s
      | some q ↦
          replacement (between (place previous (String.◌∷◌ x s)) q) q
          <> sub_from fuel a replacement q.previous q.rest
    ]

unfoldable pub sub : Matcher → (String → Place → String) → String → String
unfolding sub_from
sub a replacement s = sub_from (char_count s) a replacement none s
