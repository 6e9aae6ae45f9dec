-- ===== src/Tls/Attributed.antt =====
-- What `from_events` returns: a result for every pair of event lists, confirmed exactly where a
-- response of the validation canary answers one of its requests.
use mathlib.Core.Path.{subst}
use android_appsec_assessor.Prelude.{
  String, Bool, true, ◌&&◌, ◌≡◌, ◌∙◌, ap, refl, List, [], ◌∷◌, any, map, filter, arith, eq_iff,
  ◌=ₛ◌, if◌then◌else◌,
}
use android_appsec_assessor.Errors.{Result, ok, >>=-eq-ok}
use android_appsec_assessor.Json.{Value, null, bool, num, str, arr, obj, Fields, get, Conversions}
use android_appsec_assessor.Scope.{is_in}
use android_appsec_assessor.Findings.Validated.{is_in-unique_from}
use android_appsec_assessor.Tls.Conditions.{
  filter_checked, is_canary_request, is_target_request, member, equals,
}
use android_appsec_assessor.Tls.Events.{flows, flow_id}

pub any-elim {ℓ} :
    {A : Type ℓ} (p : A → Bool) (b : Bool) (xs : List A)
    → ((x : A) → p x ≡ true → b ≡ true)
    → any p xs ≡ true
    → b ≡ true
any-elim p b [] each h = cc
any-elim p b (x ∷ xs) each h = ground (arith, each x, any-elim p b xs each)

-- The flows of the events that pass a test.
module _ (conv : Conversions) where
  pub is_in-map-filter :
      (p : Fields → Bool) (s : String) (items : List Fields)
      → is_in s (map (flow_id conv) (filter p items))
        ≡ any (λ item. p item && (flow_id conv item =ₛ s)) items
  is_in-map-filter p s [] = refl
  is_in-map-filter p s (item ∷ items) = ground (arith, is_in-map-filter p s items)

  pub is_in-flows :
      (p : Fields → Bool) (s : String) (items : List Fields)
      → is_in s (flows conv (filter p items))
        ≡ any (λ item. p item && (flow_id conv item =ₛ s)) items
  is_in-flows p s items =
      is_in-unique_from s [] (map (flow_id conv) (filter p items)) ∙ is_in-map-filter p s items

  pub filter_checked-keeps :
      (test : Fields → Result Bool) (p : Fields → Bool) (s : String) (items kept : List Fields)
      → ((item : Fields) → p item ≡ true → test item ≡ ok true)
      → filter_checked test items ≡ ok kept
      → is_in s (map (flow_id conv) (filter p items)) ≡ true
      → is_in s (map (flow_id conv) kept) ≡ true
  unfolding filter_checked
  filter_checked-keeps test p s [] kept passes h m = cc
  filter_checked-keeps test p s (item ∷ items) kept passes h m =
      let (b, tested, h1) = >>=-eq-ok (test item) _ h in
      let (more, filtered, h2) = >>=-eq-ok (filter_checked test items) _ h1 in
      let rest = filter_checked-keeps test p s items more passes filtered in
      let same : (if b then item ∷ more else more) ≡ kept = cc h2 in
      subst (λ xs. is_in s (map (flow_id conv) xs) ≡ true) same
        (ground (arith, passes item, tested, rest))

member-of_equals :
    (v : Value) (s : String) (names : List String)
    → equals v s ≡ true
    → is_in s names ≡ true
    → member v names ≡ ok true
unfolding member equals
member-of_equals (str t) s names e m = rw ((eq_iff t s).0 e) (ap ok m)
member-of_equals null s names e m = cc
member-of_equals (bool b) s names e m = cc
member-of_equals (num n) s names e m = cc
member-of_equals (arr vs) s names e m = cc
member-of_equals (obj fs) s names e m = cc

pub canary_request-target :
    (item : Fields) → is_canary_request item ≡ true → is_target_request item ≡ ok true
unfolding is_canary_request is_target_request
canary_request-target item h = ground (
  arith,
  member-of_equals (get "attribution" item) "validation_canary"
      ("target" ∷ "validation_canary" ∷ []) (ground arith) refl,
)
