-- ===== src/Crypto/Conditions.antt =====
-- The conditions of the rules of android_assessor/crypto_analysis.py on an executed operation, and
-- the grouping of encryptions by key and initialization vector.
use android_appsec_assessor.Prelude.{
  ℕ, String, Bool, true, false, not, ◌&&◌, ◌||◌, Option, none, some, List, [], ◌∷◌, map, length,
  filter, leb, ltb, ◌=ₛ◌, if◌then◌else◌,
}
use android_appsec_assessor.Prelude.Text.{in_range}
use android_appsec_assessor.Prelude.Case.{before, sorted_set}
use android_appsec_assessor.Scope.{is_in}
use Prim.Native.Char.{code}
use android_appsec_assessor.Crypto.{
  CryptoKeyOrigin, static_runtime, weak_random, CryptoPolicy, CryptoOperation,
}

abbrev pub Operations : Type 0
Operations = List CryptoOperation

abbrev pub symmetric_algorithms : List String
symmetric_algorithms =
    "AES" ∷ "DES" ∷ "3DES" ∷ "DESEDE" ∷ "RC4" ∷ "BLOWFISH" ∷ "TWOFISH" ∷ "CAMELLIA" ∷ []

abbrev pub weak_digest_algorithms : List String
weak_digest_algorithms = "MD5" ∷ "SHA1" ∷ "HMACSHA1" ∷ []

-- `re.sub(r"[^A-Z0-9]", "", text)`
unfoldable pub letters_digits : String → String
letters_digits String.[] = ""
letters_digits (String.◌∷◌ c s) =
    let rest = letters_digits s in
    if in_range b'A' b'Z' (code c) || in_range b'0' b'9' (code c) then String.◌∷◌ c rest else rest

unfoldable pub is_weak_random : CryptoKeyOrigin → Bool
is_weak_random weak_random = true
is_weak_random _ = false

unfoldable pub is_static_runtime : CryptoKeyOrigin → Bool
is_static_runtime static_runtime = true
is_static_runtime _ = false

-- `option is not None and option < bound`
unfoldable pub is_below : ℕ → Option ℕ → Bool
is_below bound none = false
is_below bound (some n) = ltb n bound

-- `option is True`
unfoldable pub is_true : Option Bool → Bool
is_true (some true) = true
is_true _ = false

unfoldable pub is_missing {ℓ} : {A : Type ℓ} → Option A → Bool
is_missing none = true
is_missing (some a) = false

-- The conditions of the rules on an executed operation.
unfoldable pub uses_weak_algorithm : CryptoPolicy → CryptoOperation → Bool
uses_weak_algorithm policy item = is_in item.algorithm policy.weak_algorithms

unfoldable pub uses_weak_digest : CryptoOperation → Bool
uses_weak_digest item =
    is_in item.operation_kind ("digest" ∷ "mac" ∷ [])
    && is_in (letters_digits item.algorithm) weak_digest_algorithms

unfoldable pub has_random_iv : CryptoOperation → Bool
has_random_iv item = (item.iv_source =ₛ "weak_random") && (item.purpose =ₛ "encrypt")

unfoldable pub uses_weak_random : CryptoOperation → Bool
unfolding is_weak_random has_random_iv
uses_weak_random item =
    (item.operation_kind =ₛ "cipher") && (has_random_iv item || is_weak_random item.key_origin)

unfoldable pub has_mode : String → Option String → Bool
has_mode mode none = false
has_mode mode (some m) = m =ₛ mode

unfoldable pub uses_ecb : CryptoOperation → Bool
unfolding has_mode
uses_ecb item = is_in item.algorithm symmetric_algorithms && has_mode "ECB" item.mode

unfoldable pub has_short_key : CryptoPolicy → CryptoOperation → Bool
unfolding is_below
has_short_key policy item =
    is_in item.algorithm symmetric_algorithms
    && is_below policy.minimum_symmetric_key_bits item.key_length_bits

unfoldable pub has_static_iv : CryptoOperation → Bool
unfolding is_true
has_static_iv item =
    (item.purpose =ₛ "encrypt") && (item.iv_source =ₛ "constant") && not (is_true item.iv_zero)

-- `item.operation_kind == "cipher" and item.purpose == "encrypt"`
unfoldable pub is_encryption : CryptoOperation → Bool
is_encryption item = (item.operation_kind =ₛ "cipher") && (item.purpose =ₛ "encrypt")

unfoldable pub has_zero_iv : CryptoOperation → Bool
unfolding is_true is_encryption
has_zero_iv item = is_encryption item && is_true item.iv_zero

unfoldable pub has_low_iterations : CryptoPolicy → CryptoOperation → Bool
unfolding is_below
has_low_iterations policy item =
    (item.operation_kind =ₛ "pbe") && is_below policy.minimum_pbe_iterations item.iteration_count

unfoldable pub has_static_key : CryptoOperation → Bool
unfolding is_static_runtime
has_static_key item = is_static_runtime item.key_origin

unfoldable pub is_incomplete : CryptoOperation → Bool
unfolding is_missing
is_incomplete item =
    (item.operation_kind =ₛ "cipher") && (is_missing item.mode || is_missing item.padding)

-- The key and the initialization vector of an encryption that shows both.
abbrev pub Pair : Type 0
Pair = String × String

unfoldable pub iv_pair : CryptoOperation → Option Pair
unfolding is_encryption
iv_pair item =
    if is_encryption item
    then (elim item.key_sha256 [
      | none ↦ none
      | some k ↦ elim item.iv_sha256 [ none ↦ none | some v ↦ some (k, v) ]
    ])
    else none

abbrev pub same_pair : Pair → Pair → Bool
same_pair p q = (p.0 =ₛ q.0) && (p.1 =ₛ q.1)

abbrev pub pair_before : Pair → Pair → Bool
pair_before p q = before p.0 q.0 || (p.0 =ₛ q.0) && before p.1 q.1

unfoldable pub has_pair : Pair → CryptoOperation → Bool
unfolding iv_pair
has_pair p item = elim (iv_pair item) [ none ↦ false | some q ↦ same_pair p q ]

-- `iv_operations[pair]`: the identifiers of the encryptions with a pair
unfoldable pub pair_operations : Operations → Pair → List String
unfolding has_pair
pair_operations executed p =
    sorted_set before
      (map (λ (item : CryptoOperation). item.operation_id) (filter (has_pair p) executed))

-- Membership of the operation's pair in `reused_pairs`
unfoldable pub reuses_iv : Operations → CryptoOperation → Bool
unfolding pair_operations iv_pair
reuses_iv executed item = elim (iv_pair item) [
  | none ↦ false
  | some p ↦ leb 2 (length (pair_operations executed p))
]

-- A dict by identifier: a later operation takes the place of an earlier one.
unfoldable pub put_operation : CryptoOperation → Operations → Operations
put_operation item [] = item ∷ []
put_operation item (old ∷ items) =
    let rest = old ∷ put_operation item items in
    if old.operation_id =ₛ item.operation_id then item ∷ items else rest

unfoldable pub by_id : Operations → Operations → Operations
unfolding put_operation
by_id found [] = found
by_id found (item ∷ items) = by_id (put_operation item found) items
