-- ===== src/Redaction/Arguments.antt =====
-- Which arguments of a command `redact_arguments` hides.
use android_appsec_assessor.Prelude.{
  ℕ, zero, suc, String, Bool, true, false, not, ◌&&◌, ◌||◌, ◌≡◌, ◌⊎◌, inl, inr, refl, ap, some,
  List, [], ◌∷◌, length, get_elem?, arith, Bool-cases,
}
use android_appsec_assessor.Prelude.Text.{codes, starts}
use android_appsec_assessor.Prelude.Pattern.{Class}
use android_appsec_assessor.Scope.{is_in}
use android_appsec_assessor.Redaction.{redacted, is_sensitive_name}
use android_appsec_assessor.Redaction.Structure.{
  not_empty, without_dashes, has_equals, hides_next, redact_from, redact_arguments,
}

-- A flag, with one dash or more, whose name is sensitive and that carries no value itself.
pub record IsSensitiveFlag (flag : String) : Type 0 where
  pub dashed : starts (codes "-") (codes flag) ≡ true
  pub sensitive : is_sensitive_name (without_dashes flag) ≡ true
  pub no_value : has_equals flag ≡ false

pub record Hides (secrets arguments output : List String) : Type 0 where
  pub same_length : length output ≡ length arguments
  pub secret_hidden :
      (i : ℕ) (argument : String)
      → get_elem? arguments i ≡ some argument
      → is_in argument (not_empty secrets) ≡ true
      → get_elem? output i ≡ some redacted
  pub value_hidden :
      (i : ℕ) (flag argument : String)
      → get_elem? arguments i ≡ some flag
      → get_elem? arguments (suc i) ≡ some argument
      → IsSensitiveFlag flag
      → (get_elem? output i ≡ some redacted) ⊎ (get_elem? output (suc i) ≡ some redacted)

IsSensitiveFlag-hides : (flag : String) → IsSensitiveFlag flag → hides_next flag ≡ true
unfolding hides_next
IsSensitiveFlag-hides flag f = ground arith

module _ (word_beyond : Class) (secrets : List String) where
  abbrev hides : Bool → String → Bool
  hides next argument = is_in argument (not_empty secrets) || next

  abbrev after : Bool → String → Bool
  after next argument = not (hides next argument) && hides_next argument

  length-redact_from :
      (next : Bool) (arguments : List String)
      → length (redact_from word_beyond secrets next arguments) ≡ length arguments
  unfolding redact_from
  length-redact_from next [] = refl
  length-redact_from next (argument ∷ arguments) =
      ap suc (length-redact_from (after next argument) arguments)

  hidden_first :
      (next : Bool) (argument : String) (arguments : List String)
      → hides next argument ≡ true
      → get_elem? (redact_from word_beyond secrets next (argument ∷ arguments)) 0 ≡ some redacted
  unfolding redact_from
  hidden_first next argument arguments h = rw h

  redact_from-secret :
      (next : Bool) (arguments : List String) (i : ℕ) (argument : String)
      → get_elem? arguments i ≡ some argument
      → is_in argument (not_empty secrets) ≡ true
      → get_elem? (redact_from word_beyond secrets next arguments) i ≡ some redacted
  unfolding redact_from
  redact_from-secret next [] i argument e m = cc
  redact_from-secret next (first ∷ arguments) zero argument e m =
      let same : first ≡ argument = cc e in hidden_first next first arguments (rw (same, m))
  redact_from-secret next (first ∷ arguments) (suc i) argument e m =
      redact_from-secret (after next first) arguments i argument e m

  redact_from-value :
      (next : Bool) (arguments : List String) (i : ℕ) (flag argument : String)
      → get_elem? arguments i ≡ some flag
      → get_elem? arguments (suc i) ≡ some argument
      → hides_next flag ≡ true
      → (get_elem? (redact_from word_beyond secrets next arguments) i ≡ some redacted)
        ⊎ (get_elem? (redact_from word_beyond secrets next arguments) (suc i) ≡ some redacted)
  unfolding redact_from
  redact_from-value next [] i flag argument e e' f = cc
  redact_from-value next (first ∷ []) zero flag argument e e' f = cc
  redact_from-value next (first ∷ second ∷ arguments) zero flag argument e e' f =
      let same : first ≡ flag = cc e in
      elim (Bool-cases (hides next first)) [
        | inl h ↦ inl (hidden_first next first (second ∷ arguments) h)
        | inr h ↦
            let set : after next first ≡ true = rw (h, same, f) in
            inr (hidden_first (after next first) second arguments (ground (arith, set)))
      ]
  redact_from-value next (first ∷ arguments) (suc i) flag argument e e' f =
      redact_from-value (after next first) arguments i flag argument e e' f

  -- `redact_arguments` keeps the number of arguments and puts the marker in place of every argument
  -- that is a sensitive value; after a sensitive flag that carries no value itself, it hides the next
  -- argument, unless it has hidden the flag.
  pub redact_arguments-Hides :
      (arguments : List String)
      → Hides secrets arguments (redact_arguments word_beyond arguments secrets)
  unfolding redact_arguments
  redact_arguments-Hides arguments = record {
    same_length = length-redact_from false arguments;
    secret_hidden = redact_from-secret false arguments;
    value_hidden = λ i flag argument e e' f.
        redact_from-value false arguments i flag argument e e' (IsSensitiveFlag-hides flag f);
  }
