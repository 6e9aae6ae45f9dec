-- ===== src/Crypto/Reuse.antt =====
-- Encryptions that share key and initialization vector: the grouping by them tells such a pair apart
-- from one operation.
use android_appsec_assessor.Prelude.{
  ◌<◌, Option-cases, none, sym, inl, inr, not, Bool, any, ◌=ₛ◌, ◌&&◌, ap, String, true, false, ◌≡◌,
  ◌∙◌, refl, some, List, [], ◌∷◌, map, filter, All, All-map, arith, eq_iff, length, leb,
}
use android_appsec_assessor.Prelude.Case.{before, sorted_set}
use android_appsec_assessor.Prelude.Sorted.{
  any-sorted_set, sorted_set-IsAscending, leb-length_ascending,
}
use android_appsec_assessor.Scope.{is_in}
use android_appsec_assessor.Crypto.{CryptoOperation}
use android_appsec_assessor.Crypto.Conditions.{
  Operations, reuses_iv, by_id, put_operation, Pair, has_pair, pair_operations, iv_pair,
}

-- Two encryptions under one key and one initialization vector.
pub record SharesPair (a b : CryptoOperation) : Type 0 where
  pub first_kind : a.operation_kind ≡ "cipher"
  pub second_kind : b.operation_kind ≡ "cipher"
  pub first_purpose : a.purpose ≡ "encrypt"
  pub second_purpose : b.purpose ≡ "encrypt"
  pub key : String
  pub vector : String
  pub first_key : a.key_sha256 ≡ some key
  pub second_key : b.key_sha256 ≡ some key
  pub first_vector : a.iv_sha256 ≡ some vector
  pub second_vector : b.iv_sha256 ≡ some vector

length-put_operation :
    (item : CryptoOperation) (items : Operations) → 0 < length (put_operation item items)
unfolding put_operation
length-put_operation item [] = omega arith
length-put_operation item (old ∷ items) = ground arith

length-by_id : (found items : Operations) → 0 < length found → 0 < length (by_id found items)
unfolding by_id
length-by_id found [] h = h
length-by_id found (item ∷ items) h =
    length-by_id (put_operation item found) items (length-put_operation item found)

pub by_id-eq-nil : (items : Operations) → by_id [] items ≡ [] → items ≡ []
unfolding by_id
by_id-eq-nil [] h = refl
by_id-eq-nil (item ∷ items) h = absurd (
    ground (
      arith,
      length-by_id (put_operation item []) items (length-put_operation item []),
      ap length h,
    ))

pub ids_with : Pair → Operations → List String
ids_with p items = map (λ (item : CryptoOperation). item.operation_id) (filter (has_pair p) items)

-- The identifier of each operation with a pair is among those of the pair.
abbrev pub IsListed : Operations → CryptoOperation → Type 0
IsListed items a = (p : Pair) → has_pair p a ≡ true → is_in a.operation_id (ids_with p items) ≡ true

ids_with-cons :
    (p : Pair) (s : String) (item : CryptoOperation) (items : Operations)
    → is_in s (ids_with p items) ≡ true
    → is_in s (ids_with p (item ∷ items)) ≡ true
unfolding ids_with
ids_with-cons p s item items h = ground arith

pub All-IsListed : (items : Operations) → All (IsListed items) items
unfolding ids_with
All-IsListed [] = tt
All-IsListed (item ∷ items) = (
  λ p h. ground (arith, eq_iff item.operation_id item.operation_id),
  All-map (IsListed items) (IsListed (item ∷ items)) items
      (λ a listed p h. ids_with-cons p a.operation_id item items (listed p h)) (All-IsListed items),
)

short_list :
    (xs : List String) (s t : String)
    → leb 2 (length xs) ≡ false
    → is_in s xs ≡ true
    → is_in t xs ≡ true
    → s ≡ t
short_list [] s t short h k = cc
short_list (x ∷ []) s t short h k = ground (arith, eq_iff x s, eq_iff x t)
short_list (x ∷ y ∷ ys) s t short h k = absurd (ground arith)

iv_pair-eq_some :
    (a : CryptoOperation) (k v : String)
    → a.operation_kind ≡ "cipher"
    → a.purpose ≡ "encrypt"
    → a.key_sha256 ≡ some k
    → a.iv_sha256 ≡ some v
    → iv_pair a ≡ some (k, v)
unfolding iv_pair
iv_pair-eq_some a k v kind purpose key vector =
    ground (arith, eq_iff a.operation_kind "cipher", eq_iff a.purpose "encrypt")

has_pair-of_iv_pair : (a : CryptoOperation) (p : Pair) → iv_pair a ≡ some p → has_pair p a ≡ true
unfolding has_pair
has_pair-of_iv_pair a p h = ground (arith, h, eq_iff p.0 p.0, eq_iff p.1 p.1)

few_operations :
    (executed : Operations) (a : CryptoOperation) (p : Pair)
    → iv_pair a ≡ some p
    → reuses_iv executed a ≡ false
    → leb 2 (length (pair_operations executed p)) ≡ false
unfolding reuses_iv
few_operations executed a p e fresh = ground (arith, e, fresh)

pub SharesPair-same_id :
    (executed : Operations) (a b : CryptoOperation)
    → reuses_iv executed a ≡ false
    → IsListed executed a
    → IsListed executed b
    → SharesPair a b
    → a.operation_id ≡ b.operation_id
unfolding ids_with pair_operations
SharesPair-same_id executed a b fresh la lb shared =
    let p : Pair = (shared.key, shared.vector) in
    let ea =
      iv_pair-eq_some a shared.key shared.vector shared.first_kind shared.first_purpose
        shared.first_key shared.first_vector in
    let eb =
      iv_pair-eq_some b shared.key shared.vector shared.second_kind shared.second_purpose
        shared.second_key shared.second_vector in
    short_list (pair_operations executed p) a.operation_id b.operation_id
      (few_operations executed a p ea fresh)
      (any-sorted_set (λ y. y =ₛ a.operation_id) (ids_with p executed)
        ∙ la p (has_pair-of_iv_pair a p ea))
      (any-sorted_set (λ y. y =ₛ b.operation_id) (ids_with p executed)
        ∙ lb p (has_pair-of_iv_pair b p eb))

-- The pairwise description of reuse: another operation, told by its identifier, shows the pair.
unfoldable pub reused_with : CryptoOperation → CryptoOperation → Bool
reused_with a b = elim (iv_pair a) [
  | none ↦ false
  | some p ↦ has_pair p b && not (b.operation_id =ₛ a.operation_id)
]

any-ids_with :
    (q : String → Bool) (p : Pair) (items : Operations)
    → any q (ids_with p items)
      ≡ any (λ (b : CryptoOperation). has_pair p b && q b.operation_id) items
unfolding ids_with
any-ids_with q p [] = refl
any-ids_with q p (item ∷ items) = ground (arith, any-ids_with q p items)

any-false {ℓ} : {A : Type ℓ} (xs : List A) → any (λ x. false) xs ≡ false
any-false [] = refl
any-false (x ∷ xs) = any-false xs

-- The members of a pair besides a given one, counted and by comparison.
another-in_pair :
    (executed : Operations) (p : Pair) (s : String)
    → is_in s (ids_with p executed) ≡ true
    → leb 2 (length (pair_operations executed p))
      ≡ any (λ (b : CryptoOperation). has_pair p b && not (b.operation_id =ₛ s)) executed
unfolding pair_operations ids_with
another-in_pair executed p s listed =
    let ids = ids_with p executed in
    leb-length_ascending (sorted_set before ids) s (sorted_set-IsAscending ids)
      (any-sorted_set (λ y. y =ₛ s) ids ∙ listed)
    ∙ (any-sorted_set (λ y. not (y =ₛ s)) ids ∙ any-ids_with (λ y. not (y =ₛ s)) p executed)

reuses_iv-listed :
    (executed : Operations) (a : CryptoOperation)
    → IsListed executed a
    → reuses_iv executed a ≡ any (reused_with a) executed
unfolding reuses_iv reused_with
reuses_iv-listed executed a listed = elim (Option-cases (iv_pair a)) [
  | inl missing ↦ rw (missing, reuses_iv, reused_with) (sym (any-false executed))
  | inr (p, e) ↦
      rw (e, reuses_iv, reused_with)
        (another-in_pair executed p a.operation_id (listed p (has_pair-of_iv_pair a p e)))
]

-- The test of reuse, which the code makes by sets of identifiers for each pair of key and
-- initialization vector, agrees on each executed operation with the comparison of the operation
-- with every other: it holds exactly when another operation, by its identifier, is an encryption
-- with the same key and initialization vector.
pub All-reuses_iv :
    (executed : Operations)
    → All (λ a. reuses_iv executed a ≡ any (reused_with a) executed) executed
All-reuses_iv executed =
    All-map (IsListed executed) (λ a. reuses_iv executed a ≡ any (reused_with a) executed) executed
      (λ a listed. reuses_iv-listed executed a listed) (All-IsListed executed)
