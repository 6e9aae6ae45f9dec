-- ===== src/Crypto/Strength.antt =====
-- An operation in which no configured weakness shows, and the conditions of the rules that say so.
use android_appsec_assessor.Prelude.{
  ℕ, ◌≤◌, true, false, ◌≡◌, ◌≢◌, none, some, [], ◌∷◌, arith, eq_iff,
}
use android_appsec_assessor.Scope.{is_in}
use android_appsec_assessor.Crypto.{CryptoPolicy, CryptoOperation, static_runtime, weak_random}
use android_appsec_assessor.Crypto.Conditions.{
  symmetric_algorithms, weak_digest_algorithms, letters_digits, uses_weak_algorithm,
  uses_weak_digest, uses_weak_random, uses_ecb, has_short_key, has_static_iv, has_zero_iv,
  has_low_iterations, has_static_key, is_incomplete,
}

-- An operation in which no configured weakness shows.
pub record IsStrong (policy : CryptoPolicy) (item : CryptoOperation) : Type 0 where
  pub algorithm_allowed : is_in item.algorithm policy.weak_algorithms ≡ false
  pub digest_allowed :
      is_in item.operation_kind ("digest" ∷ "mac" ∷ []) ≡ true
      → is_in (letters_digits item.algorithm) weak_digest_algorithms ≡ false
  pub key_random : item.operation_kind ≡ "cipher" → item.key_origin ≢ weak_random
  pub iv_random :
      item.operation_kind ≡ "cipher" → item.purpose ≡ "encrypt" → item.iv_source ≢ "weak_random"
  pub no_ecb : is_in item.algorithm symmetric_algorithms ≡ true → item.mode ≢ some "ECB"
  pub key_long :
      (n : ℕ)
      → is_in item.algorithm symmetric_algorithms ≡ true
      → item.key_length_bits ≡ some n
      → policy.minimum_symmetric_key_bits ≤ n
  pub iv_varies : item.purpose ≡ "encrypt" → item.iv_source ≡ "constant" → item.iv_zero ≡ some true
  pub iv_not_zero :
      item.operation_kind ≡ "cipher" → item.purpose ≡ "encrypt" → item.iv_zero ≢ some true
  pub iterations_many :
      (n : ℕ)
      → item.operation_kind ≡ "pbe"
      → item.iteration_count ≡ some n
      → policy.minimum_pbe_iterations ≤ n
  pub key_changes : item.key_origin ≢ static_runtime
  pub no_canary : item.canary_match ≡ false
  pub mode_known : item.operation_kind ≡ "cipher" → item.mode ≢ none
  pub padding_known : item.operation_kind ≡ "cipher" → item.padding ≢ none

-- The conditions of the rules fail on an operation.
pub record NoWeakness (policy : CryptoPolicy) (item : CryptoOperation) : Type 0 where
  pub algorithm : uses_weak_algorithm policy item ≡ false
  pub digest : uses_weak_digest item ≡ false
  pub random : uses_weak_random item ≡ false
  pub ecb : uses_ecb item ≡ false
  pub short : has_short_key policy item ≡ false
  pub static_iv : has_static_iv item ≡ false
  pub zero_iv : has_zero_iv item ≡ false
  pub low : has_low_iterations policy item ≡ false
  pub static_key : has_static_key item ≡ false
  pub canary : item.canary_match ≡ false
  pub incomplete : is_incomplete item ≡ false

pub NoWeakness-IsStrong :
    (policy : CryptoPolicy) (item : CryptoOperation) → NoWeakness policy item → IsStrong policy item
unfolding uses_weak_algorithm uses_weak_digest uses_weak_random uses_ecb has_short_key has_static_iv
    has_zero_iv has_low_iterations has_static_key is_incomplete
NoWeakness-IsStrong policy item w =
    let cipher = eq_iff item.operation_kind "cipher" in
    let encrypt = eq_iff item.purpose "encrypt" in
    record {
      algorithm_allowed = w.algorithm;
      digest_allowed = λ d. ground (arith, w.digest);
      key_random = λ k o. ground (arith, w.random, cipher);
      iv_random =
          λ k p s. ground (arith, w.random, cipher, encrypt, eq_iff item.iv_source "weak_random");
      no_ecb = λ s m. ground (arith, w.ecb, eq_iff "ECB" "ECB");
      key_long = λ n s k. ground (arith, w.short);
      iv_varies = λ p s. ground (arith, w.static_iv, encrypt, eq_iff item.iv_source "constant");
      iv_not_zero = λ k p z. ground (arith, w.zero_iv, cipher, encrypt);
      iterations_many = λ n k c. ground (arith, w.low, eq_iff item.operation_kind "pbe");
      key_changes = λ o. ground (arith, w.static_key);
      no_canary = w.canary;
      mode_known = λ k m. ground (arith, w.incomplete, cipher);
      padding_known = λ k m. ground (arith, w.incomplete, cipher);
    }
