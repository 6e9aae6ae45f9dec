-- ===== src/Redaction/Hiding.antt =====
-- What stands under a sensitive key does not show in redacted data.
use android_appsec_assessor.Prelude.{
  String, Bool, not, ◌&&◌, ◌≡◌, ◌∙◌, sym, refl, ap, Option, none, some, arith, eq_iff,
  if◌then◌else◌,
}
use android_appsec_assessor.Prelude.Pattern.{Class}
use android_appsec_assessor.Json.{
  Value, null, bool, num, str, arr, obj, Items, nil, cons, Fields, end, field, lookup,
}
use android_appsec_assessor.Redaction.{redacted, is_sensitive_name}
use android_appsec_assessor.Redaction.Structure.{
  redact_data, redact_fields, redact_items, redact_report_data, redact_report_fields,
  redact_report_items, is_identifier,
}

-- A value with `null` in place of all that stands under a key with the property.
unfoldable mutual
  pub mask : (String → Bool) → Value → Value
  mask hidden (obj fs) = obj (mask_fields hidden fs)
  mask hidden (arr vs) = arr (mask_items hidden vs)
  mask hidden (str s) = str s
  mask hidden null = null
  mask hidden (bool b) = bool b
  mask hidden (num n) = num n

  pub mask_fields : (String → Bool) → Fields → Fields
  mask_fields hidden end = end
  mask_fields hidden (field k v fs) =
      let kept = mask hidden v in field k (if hidden k then null else kept) (mask_fields hidden fs)

  pub mask_items : (String → Bool) → Items → Items
  mask_items hidden nil = nil
  mask_items hidden (cons v vs) = cons (mask hidden v) (mask_items hidden vs)

-- The names under which a report keeps no value.
unfoldable pub hidden_in_report : String → Bool
hidden_in_report name = not (is_identifier name) && is_sensitive_name name

module _ (word_beyond : Class) where
  mutual
    unfolding redact_data redact_fields redact_items mask mask_fields mask_items

    redact_data-mask :
        (v : Value) → redact_data word_beyond (mask is_sensitive_name v) ≡ redact_data word_beyond v
    redact_data-mask (obj fs) = ap obj (redact_fields-mask fs)
    redact_data-mask (arr vs) = ap arr (redact_items-mask vs)
    redact_data-mask (str s) = refl
    redact_data-mask null = refl
    redact_data-mask (bool b) = refl
    redact_data-mask (num n) = refl

    redact_fields-mask :
        (fs : Fields)
        → redact_fields word_beyond (mask_fields is_sensitive_name fs)
          ≡ redact_fields word_beyond fs
    redact_fields-mask end = refl
    redact_fields-mask (field k v fs) = ground (arith, redact_data-mask v, redact_fields-mask fs)

    redact_items-mask :
        (vs : Items)
        → redact_items word_beyond (mask_items is_sensitive_name vs) ≡ redact_items word_beyond vs
    redact_items-mask nil = refl
    redact_items-mask (cons v vs) = cc (redact_data-mask v, redact_items-mask vs)

  mutual
    unfolding redact_report_data redact_report_fields redact_report_items mask mask_fields
        mask_items hidden_in_report

    redact_report_data-mask :
        (v : Value) (key : Option String)
        → redact_report_data word_beyond (mask hidden_in_report v) key
          ≡ redact_report_data word_beyond v key
    redact_report_data-mask (obj fs) key = ap obj (redact_report_fields-mask fs)
    redact_report_data-mask (arr vs) key = ap arr (redact_report_items-mask vs key)
    redact_report_data-mask (str s) key = refl
    redact_report_data-mask null key = refl
    redact_report_data-mask (bool b) key = refl
    redact_report_data-mask (num n) key = refl

    redact_report_fields-mask :
        (fs : Fields)
        → redact_report_fields word_beyond (mask_fields hidden_in_report fs)
          ≡ redact_report_fields word_beyond fs
    redact_report_fields-mask end = refl
    redact_report_fields-mask (field k v fs) =
        ground (arith, redact_report_data-mask v (some k), redact_report_fields-mask fs)

    redact_report_items-mask :
        (vs : Items) (key : Option String)
        → redact_report_items word_beyond (mask_items hidden_in_report vs) key
          ≡ redact_report_items word_beyond vs key
    redact_report_items-mask nil key = refl
    redact_report_items-mask (cons v vs) key =
        cc (redact_report_data-mask v key, redact_report_items-mask vs key)

  -- Redacted data does not depend on what stands under a sensitive key, at any depth: two values
  -- that agree everywhere else are redacted to the same value.
  pub redact_data-hides :
      (v w : Value)
      → mask is_sensitive_name v ≡ mask is_sensitive_name w
      → redact_data word_beyond v ≡ redact_data word_beyond w
  redact_data-hides v w same =
      sym (redact_data-mask v) ∙ (ap (redact_data word_beyond) same ∙ redact_data-mask w)

  -- The data of a report does not depend on what stands, at any depth, under a sensitive key that is
  -- not one of the report's identifiers: two values that agree everywhere else give the same report.
  pub redact_report_data-hides :
      (v w : Value)
      → mask hidden_in_report v ≡ mask hidden_in_report w
      → redact_report_data word_beyond v none ≡ redact_report_data word_beyond w none
  redact_report_data-hides v w same =
      sym (redact_report_data-mask v none)
      ∙ (ap (λ u. redact_report_data word_beyond u none) same ∙ redact_report_data-mask w none)

  -- Redaction keeps the keys of a mapping: it looks up nothing where there was nothing, the marker
  -- under a sensitive key, and the redacted value under any other.
  pub lookup-redact_fields :
      (k : String) (fs : Fields)
      → lookup k (redact_fields word_beyond fs) ≡ (elim (lookup k fs) [
        | none ↦ none
        | some v ↦ some (if is_sensitive_name k then str redacted else redact_data word_beyond v)
      ])
  unfolding lookup redact_fields
  lookup-redact_fields k end = refl
  lookup-redact_fields k (field j v fs) = ground (arith, eq_iff j k, lookup-redact_fields k fs)
