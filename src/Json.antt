-- ===== src/Json.antt =====
-- The JSON values that the records are stored as, and Python's readings of one: `dict.get`,
-- `bool`, and the conversions `str` and `int`.
use android_appsec_assessor.Prelude.{
  ◌≡◌, refl, ap, String, Bool, true, false, Option, none, some, List, [], ◌∷◌, ◌==◌, ◌=ₛ◌,
  if◌then◌else◌,
}
use android_appsec_assessor.Prelude.Int.{ℤ, pos, negsuc}
use android_appsec_assessor.Prelude.Text.{is_empty}

mutual
  pub data Value : Type 0 where
    null : Value
    bool : Bool → Value
    num : ℤ → Value
    str : String → Value
    obj : Fields → Value
    arr : Items → Value

  pub data Items : Type 0 where
    nil : Items
    cons : Value → Items → Items

  pub data Fields : Type 0 where
    end : Fields
    field : String → Value → Fields → Fields

-- `value[key]` where it may be missing; a decoder that reads a key twice keeps the first here.
unfoldable pub lookup : String → Fields → Option Value
lookup k end = none
lookup k (field j v fs) = if j =ₛ k then some v else lookup k fs

-- `value.get(key, default)`
unfoldable pub get_or : String → Value → Fields → Value
unfolding lookup
get_or k d fs = elim (lookup k fs) [ none ↦ d | some v ↦ v ]

-- `value.get(key)`
abbrev pub get : String → Fields → Value
get k fs = get_or k null fs

-- `bool(value)`
unfoldable pub truthy : Value → Bool
truthy null = false
truthy (bool b) = b
truthy (num (pos n)) = if n == 0 then false else true
truthy (num (negsuc n)) = true
truthy (str s) = if is_empty s then false else true
truthy (arr nil) = false
truthy (arr (cons v vs)) = true
truthy (obj end) = false
truthy (obj (field k v fs)) = true

-- What the built-in conversions do on the values that the records do not store in the place:
-- `repr` is `str(value)` of what is not a text, `parse` is `int(text)`.
pub record Conversions : Type 0 where
  pub repr : Value → String
  pub parse : String → Option ℤ

module _ (conv : Conversions) where
  -- `str(value)`
  unfoldable pub to_str : Value → String
  to_str (str s) = s
  to_str null = "None"
  to_str v = conv.repr v

  -- `int(value)`; `none` where it raises `TypeError` or `ValueError`
  unfoldable pub to_int : Value → Option ℤ
  to_int (num n) = some n
  to_int (bool true) = some (pos 1)
  to_int (bool false) = some (pos 0)
  to_int (str s) = conv.parse s
  to_int _ = none

  -- `str(value) if value else None`
  unfoldable pub optional_str : Value → Option String
  unfolding to_str truthy
  optional_str v = if truthy v then some (to_str v) else none

-- An optional text as it is stored.
abbrev pub of_optional : Option String → Value
of_optional none = null
of_optional (some s) = str s

abbrev pub of_list : List Value → Items
of_list [] = nil
of_list (v ∷ vs) = cons v (of_list vs)

abbrev pub to_list : Items → List Value
to_list nil = []
to_list (cons v vs) = v ∷ to_list vs

pub to_list-of_list : (vs : List Value) → to_list (of_list vs) ≡ vs
to_list-of_list [] = refl
to_list-of_list (v ∷ vs) = ap (λ ws. v ∷ ws) (to_list-of_list vs)
