-- ===== src/Crypto/Passing.antt =====
-- What an analysis that passes says about every operation that was executed.
use mathlib.Core.Path.{subst}
use android_appsec_assessor.Prelude.{
  String, Bool, true, false, ◌≡◌, refl, sym, List, [], ◌∷◌, all, any, filter, All, All-append,
  All-map, All-and, any-of_filter, arith,
}
use android_appsec_assessor.Errors.{ok, require, value_error, >>=-eq-ok}
use android_appsec_assessor.Findings.{FindingStatus, pass}
use android_appsec_assessor.Json.{Fields}
use android_appsec_assessor.Crypto.{CryptoPolicy, CryptoOperation}
use android_appsec_assessor.Crypto.Conditions.{Operations, reuses_iv}
use android_appsec_assessor.Crypto.Rules.{
  CryptoRuleResult, result_of, rule, when, algorithm_rules, key_rules, reuse_rules, context_rules,
  weaknesses, or_pass,
}
use android_appsec_assessor.Crypto.Analysis.{report, analyze, has_provenance, has_one_origin}
use android_appsec_assessor.Crypto.Strength.{IsStrong, NoWeakness, NoWeakness-IsStrong}
use android_appsec_assessor.Crypto.Reuse.{SharesPair, IsListed, All-IsListed, SharesPair-same_id}
use android_appsec_assessor.Crypto.Failing.{weaknesses-fail}

abbrev pub is_pass : FindingStatus → Bool
is_pass pass = true
is_pass _ = false

abbrev NonePass : List CryptoRuleResult → Type 0
NonePass results = All (λ (r : CryptoRuleResult). is_pass r.status ≡ false) results

module _ (values executed : Operations) where
  when-NonePass :
      (matched : Operations) (result : CryptoRuleResult)
      → is_pass result.status ≡ false
      → NonePass (when matched result)
  unfolding when
  when-NonePass [] result h = tt
  when-NonePass (item ∷ items) result h = (h, tt)

  rule-NonePass :
      (rule_id title : String) (status : FindingStatus) (test : CryptoOperation → Bool)
      (details : Operations → Fields)
      → is_pass status ≡ false
      → NonePass (rule values executed rule_id title status test details)
  unfolding rule result_of
  rule-NonePass rule_id title status test details h = when-NonePass (filter test executed) _ h

module _ (policy : CryptoPolicy) (values executed : Operations) where
  algorithm_rules-NonePass : NonePass (algorithm_rules policy values executed)
  unfolding algorithm_rules
  algorithm_rules-NonePass = search (rule-NonePass, All-append)

  key_rules-NonePass : NonePass (key_rules policy values executed)
  unfolding key_rules
  key_rules-NonePass = search (rule-NonePass, All-append)

  context_rules-NonePass : NonePass (context_rules policy values executed)
  unfolding context_rules
  context_rules-NonePass = search (rule-NonePass, All-append)

  weaknesses-NonePass : NonePass (weaknesses policy values executed)
  unfolding weaknesses reuse_rules
  weaknesses-NonePass = All-append _ _ _ algorithm_rules-NonePass (
      All-append _ _ _ key_rules-NonePass
        (All-append _ _ _ (when-NonePass values executed _ _ refl) context_rules-NonePass))

NonePass-any :
    (results : List CryptoRuleResult)
    → NonePass results
    → any (λ (r : CryptoRuleResult). is_pass r.status) results ≡ false
NonePass-any [] h = refl
NonePass-any (r ∷ rs) h = ground (arith, h.0, NonePass-any rs h.1)

or_pass-any :
    (policy : CryptoPolicy) (values executed : Operations) (results : List CryptoRuleResult)
    → NonePass results
    → any (λ (r : CryptoRuleResult). is_pass r.status) (or_pass policy values executed results)
      ≡ true
    → results ≡ []
unfolding or_pass
or_pass-any policy values executed [] none_pass h = refl
or_pass-any policy values executed (r ∷ rs) none_pass h =
    absurd (ground (arith, NonePass-any (r ∷ rs) none_pass))

-- An operation shares no key and initialization vector with another operation of the list.
abbrev pub SharesNone : Operations → CryptoOperation → Type 0
SharesNone items a = All (λ b. SharesPair a b → a.operation_id ≡ b.operation_id) items

abbrev pub executed_of : Operations → Operations
executed_of values = filter (λ (item : CryptoOperation). item.executed) values

-- What an analysis that passes means.
pub record Passes (policy : CryptoPolicy) (values : Operations) : Type 0 where
  pub observed : any (λ (item : CryptoOperation). item.executed) values ≡ true
  pub strong : All (IsStrong policy) (executed_of values)
  pub fresh : All (SharesNone (executed_of values)) (executed_of values)

abbrev Outcome : CryptoPolicy → Operations → CryptoOperation → Type 0
Outcome policy items item = NoWeakness policy item × (reuses_iv items item ≡ false)

All-SharesNone :
    (policy : CryptoPolicy) (items : Operations)
    → All (Outcome policy items) items
    → All (SharesNone items) items
All-SharesNone policy items h =
    All-map (λ a. Outcome policy items a × IsListed items a) (SharesNone items) items
      (λ a p.
        All-map (IsListed items) (λ b. SharesPair a b → a.operation_id ≡ b.operation_id) items
          (λ b listed shared. SharesPair-same_id items a b p.0.1 p.1 listed shared)
          (All-IsListed items))
      (All-and (Outcome policy items) (IsListed items) items h (All-IsListed items))

report-Passes :
    (policy : CryptoPolicy) (values executed : Operations)
    → executed ≡ executed_of values
    → any (λ (r : CryptoRuleResult). is_pass r.status) (report policy values executed) ≡ true
    → Passes policy values
unfolding report result_of
report-Passes policy [] executed same h = cc
report-Passes policy (value ∷ values) [] same h = cc
report-Passes policy (value ∷ values) (item ∷ items) same h =
    let outcomes = weaknesses-fail policy (value ∷ values) (item ∷ items) (
      or_pass-any policy (value ∷ values) (item ∷ items) _
        (weaknesses-NonePass policy (value ∷ values) (item ∷ items)) h) in
    record {
      observed = any-of_filter (λ (x : CryptoOperation). x.executed) (value ∷ values) (sym same);
      strong = subst (All (IsStrong policy)) same (
          All-map (Outcome policy (item ∷ items)) (IsStrong policy) (item ∷ items)
            (λ x p. NoWeakness-IsStrong policy x p.0) outcomes);
      fresh =
          subst (λ xs. All (SharesNone xs) xs) same (All-SharesNone policy (item ∷ items) outcomes);
    }

-- A crypto analysis with a result that passes observed an executed operation, and each executed
-- operation is reported without a weakness: its algorithm is not one of the policy's weak ones, and
-- the digest of a digest or mac no weak digest; no key is reported to be static, and no key of a
-- cipher to come from a weak random source; a symmetric algorithm does not run in ECB mode, and its
-- key length, where one is reported, reaches the policy's bound, as the iteration count of a password
-- based derivation does, where one is reported; no initialization vector of a cipher that encrypts
-- is reported to be zero or to come from a weak random source, and one of any encryption that is
-- reported to be constant is reported to be zero; no canary matched; the mode and the padding of a
-- cipher are known. Of two encryptions that share key and initialization vector the identifiers are
-- the same. Nothing is said of a key, a length, a count or a vector that is not reported.
pub analyze-Passes :
    (policy : CryptoPolicy) (values : Operations) {results : List CryptoRuleResult}
    → analyze policy values ≡ ok results
    → any (λ (r : CryptoRuleResult). is_pass r.status) results ≡ true
    → Passes policy values
unfolding analyze
analyze-Passes policy values h passes =
    let (_, _, h1) = >>=-eq-ok (require (all has_provenance values) value_error _) _ h in
    let (_, _, h2) = >>=-eq-ok (require (has_one_origin values) value_error _) _ h1 in
    report-Passes policy values _ refl (ground (arith, h2, passes))
