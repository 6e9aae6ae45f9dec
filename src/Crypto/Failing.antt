-- ===== src/Crypto/Failing.antt =====
-- What holds of the executed operations where no rule of the analysis reports anything.
use android_appsec_assessor.Prelude.{
  String, Bool, false, ◌≡◌, refl, [], ◌∷◌, filter, All, All-of_filter, append-eq-nil,
}
use android_appsec_assessor.Findings.{FindingStatus}
use android_appsec_assessor.Json.{Fields}
use android_appsec_assessor.Crypto.{CryptoPolicy, CryptoOperation}
use android_appsec_assessor.Crypto.Conditions.{
  Operations, uses_weak_algorithm, uses_weak_digest, uses_weak_random, uses_ecb, has_short_key,
  has_static_iv, has_zero_iv, has_low_iterations, has_static_key, is_incomplete, reuses_iv, by_id,
}
use android_appsec_assessor.Crypto.Rules.{
  CryptoRuleResult, rule, when, algorithm_rules, key_rules, reuse_rules, context_rules, weaknesses,
}
use android_appsec_assessor.Crypto.Strength.{NoWeakness}
use android_appsec_assessor.Crypto.Reuse.{by_id-eq-nil}

module _ (values executed : Operations) where
  when-eq-nil :
      (matched : Operations) (result : CryptoRuleResult) → when matched result ≡ [] → matched ≡ []
  unfolding when
  when-eq-nil [] result h = refl
  when-eq-nil (item ∷ items) result h = cc

  -- A rule that reports nothing fails on each executed operation.
  rule-fails :
      (rule_id title : String) (status : FindingStatus) (test : CryptoOperation → Bool)
      (details : Operations → Fields)
      → rule values executed rule_id title status test details ≡ []
      → All (λ item. test item ≡ false) executed
  unfolding rule
  rule-fails rule_id title status test details h =
      All-of_filter test executed (when-eq-nil (filter test executed) _ h)

Fails : (CryptoOperation → Bool) → Operations → Type 0
Fails test items = All (λ item. test item ≡ false) items

-- What fails on each operation of a list, condition by condition.
record AllFail (policy : CryptoPolicy) (fresh : CryptoOperation → Bool) (items : Operations)
    : Type 0 where
  algorithm : Fails (uses_weak_algorithm policy) items
  digest : Fails uses_weak_digest items
  random : Fails uses_weak_random items
  ecb : Fails uses_ecb items
  short : Fails (has_short_key policy) items
  static_iv : Fails has_static_iv items
  zero_iv : Fails has_zero_iv items
  reuse : Fails fresh items
  low : Fails (has_low_iterations policy) items
  static_key : Fails has_static_key items
  canary : Fails (λ item. item.canary_match) items
  incomplete : Fails is_incomplete items

AllFail-NoWeakness :
    (policy : CryptoPolicy) (fresh : CryptoOperation → Bool) (items : Operations)
    → AllFail policy fresh items
    → All (λ item. NoWeakness policy item × (fresh item ≡ false)) items
unfolding Fails
AllFail-NoWeakness policy fresh [] f = tt
AllFail-NoWeakness policy fresh (item ∷ items) f = (
  (
    record {
      algorithm = f.algorithm.0;
      digest = f.digest.0;
      random = f.random.0;
      ecb = f.ecb.0;
      short = f.short.0;
      static_iv = f.static_iv.0;
      zero_iv = f.zero_iv.0;
      low = f.low.0;
      static_key = f.static_key.0;
      canary = f.canary.0;
      incomplete = f.incomplete.0;
    },
    f.reuse.0,
  ),
  AllFail-NoWeakness policy fresh items (record {
    algorithm = f.algorithm.1;
    digest = f.digest.1;
    random = f.random.1;
    ecb = f.ecb.1;
    short = f.short.1;
    static_iv = f.static_iv.1;
    zero_iv = f.zero_iv.1;
    reuse = f.reuse.1;
    low = f.low.1;
    static_key = f.static_key.1;
    canary = f.canary.1;
    incomplete = f.incomplete.1;
  }),
)

-- Where no rule reports anything, each condition fails on each executed operation.
pub weaknesses-fail :
    (policy : CryptoPolicy) (values executed : Operations)
    → weaknesses policy values executed ≡ []
    → All (λ item. NoWeakness policy item × (reuses_iv executed item ≡ false)) executed
unfolding weaknesses algorithm_rules key_rules reuse_rules context_rules Fails
weaknesses-fail policy values executed h =
    let (a, h1) = append-eq-nil (algorithm_rules policy values executed) _ h in
    let (k, h2) = append-eq-nil (key_rules policy values executed) _ h1 in
    let (r, c) = append-eq-nil (reuse_rules policy values executed) _ h2 in
    let (a1, a') = append-eq-nil _ _ a in
    let (a2, a3) = append-eq-nil _ _ a' in
    let (k1, k') = append-eq-nil _ _ k in
    let (k2, k'') = append-eq-nil _ _ k' in
    let (k3, k4) = append-eq-nil _ _ k'' in
    let (c1, c') = append-eq-nil _ _ c in
    let (c2, c'') = append-eq-nil _ _ c' in
    let (c3, c4) = append-eq-nil _ _ c'' in
    AllFail-NoWeakness policy (reuses_iv executed) executed (record {
      algorithm = rule-fails values executed _ _ _ _ _ a1;
      digest = rule-fails values executed _ _ _ _ _ a2;
      random = rule-fails values executed _ _ _ _ _ a3;
      ecb = rule-fails values executed _ _ _ _ _ k1;
      short = rule-fails values executed _ _ _ _ _ k2;
      static_iv = rule-fails values executed _ _ _ _ _ k3;
      zero_iv = rule-fails values executed _ _ _ _ _ k4;
      reuse = All-of_filter (reuses_iv executed) executed (
          by_id-eq-nil (filter (reuses_iv executed) executed)
            (when-eq-nil values executed (by_id [] (filter (reuses_iv executed) executed)) _ r));
      low = rule-fails values executed _ _ _ _ _ c1;
      static_key = rule-fails values executed _ _ _ _ _ c2;
      canary = rule-fails values executed _ _ _ _ _ c3;
      incomplete = rule-fails values executed _ _ _ _ _ c4;
    })
