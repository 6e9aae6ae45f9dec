-- ===== src/Crypto/Grounded.antt =====
-- What the results of an analysis say about the operations that were observed.
use mathlib.Core.Path.{subst}
use android_appsec_assessor.Prelude.{
  String, Bool, true, false, not, ◌&&◌, ◌≡◌, refl, List, [], ◌∷◌, all, any, map, filter, All,
  All-append, All-filter, arith, eq_iff, ◌=ₛ◌, Bool-cases, inl, inr,
}
use android_appsec_assessor.Errors.{ok, require, value_error, >>=-eq-ok}
use android_appsec_assessor.Findings.{FindingStatus, is_confirmed}
use android_appsec_assessor.Json.{Fields}
use android_appsec_assessor.Crypto.{CryptoPolicy, CryptoOperation}
use android_appsec_assessor.Crypto.Conditions.{Operations, reuses_iv, by_id, put_operation}
use android_appsec_assessor.Crypto.Rules.{
  CryptoRuleResult, is_fixture, result_of, rule, when, algorithm_rules, key_rules, reuse_rules,
  context_rules, weaknesses, or_pass,
}
use android_appsec_assessor.Crypto.Analysis.{report, analyze, has_provenance, has_one_origin}

-- An executed operation of a list has the identifier.
abbrev pub executed_id : Operations → String → Bool
executed_id values s =
    any (λ (item : CryptoOperation). item.executed && (item.operation_id =ₛ s)) values

-- What a result may say: its operations were executed, a confirmed one names an operation, and
-- it counts as a finding exactly when not all operations come from a fixture.
pub record IsGrounded (values : Operations) (r : CryptoRuleResult) : Type 0 where
  pub named : All (λ s. executed_id values s ≡ true) r.operation_ids
  pub supported : is_confirmed r.status ≡ true → any (λ (s : String). true) r.operation_ids ≡ true
  pub eligible : r.finding_eligible ≡ not (all is_fixture values)

abbrev AllExecuted : Operations → Operations → Type 0
AllExecuted values items =
    All (λ (item : CryptoOperation). executed_id values item.operation_id ≡ true) items

-- The executed operations of a list that lies in `values`.
filter-AllExecuted :
    (values items : Operations)
    → ((s : String) → executed_id items s ≡ true → executed_id values s ≡ true)
    → AllExecuted values (filter (λ (item : CryptoOperation). item.executed) items)
filter-AllExecuted values [] inside = tt
filter-AllExecuted values (item ∷ items) inside =
    let rest = filter-AllExecuted values items (λ s h. inside s (ground arith)) in
    elim (Bool-cases item.executed) [
      | inl run ↦ rw run (
        inside item.operation_id (ground (arith, eq_iff item.operation_id item.operation_id)),
        rest,
      )
      | inr idle ↦ rw idle rest
    ]

named-AllExecuted :
    (values items : Operations)
    → AllExecuted values items
    → All
        (λ s. executed_id values s ≡ true)
        (map (λ (item : CryptoOperation). item.operation_id) items)
named-AllExecuted values [] h = tt
named-AllExecuted values (item ∷ items) h = (h.0, named-AllExecuted values items h.1)

when-AllGrounded :
    (values matched : Operations) (rule_id title : String) (status : FindingStatus)
    (details : Fields)
    → AllExecuted values matched
    → All (IsGrounded values) (when matched (result_of rule_id title status matched details values))
unfolding when result_of
when-AllGrounded values [] rule_id title status details h = tt
when-AllGrounded values (item ∷ items) rule_id title status details h = (
  record {
    named = named-AllExecuted values (item ∷ items) h;
    supported = λ c. refl;
    eligible = refl;
  },
  tt,
)

rule-AllGrounded :
    (values executed : Operations) (rule_id title : String) (status : FindingStatus)
    (test : CryptoOperation → Bool) (details : Operations → Fields)
    → AllExecuted values executed
    → All (IsGrounded values) (rule values executed rule_id title status test details)
unfolding rule
rule-AllGrounded values executed rule_id title status test details h =
    when-AllGrounded values (filter test executed) rule_id title status
      (details (filter test executed)) (All-filter _ test executed h)

put_operation-AllExecuted :
    (values : Operations) (item : CryptoOperation) (items : Operations)
    → executed_id values item.operation_id ≡ true
    → AllExecuted values items
    → AllExecuted values (put_operation item items)
unfolding put_operation
put_operation-AllExecuted values item [] first h = (first, tt)
put_operation-AllExecuted values item (old ∷ items) first h =
    elim (Bool-cases (old.operation_id =ₛ item.operation_id)) [
      | inl same ↦ rw same (first, h.1)
      | inr other ↦ rw other (h.0, put_operation-AllExecuted values item items first h.1)
    ]

by_id-AllExecuted :
    (values found items : Operations)
    → AllExecuted values found
    → AllExecuted values items
    → AllExecuted values (by_id found items)
unfolding by_id
by_id-AllExecuted values found [] f h = f
by_id-AllExecuted values found (item ∷ items) f h =
    by_id-AllExecuted values (put_operation item found) items
      (put_operation-AllExecuted values item found h.0 f) h.1

module _ (policy : CryptoPolicy) (values executed : Operations)
    (h : AllExecuted values executed) where
  algorithm_rules-AllGrounded : All (IsGrounded values) (algorithm_rules policy values executed)
  unfolding algorithm_rules
  algorithm_rules-AllGrounded = search (rule-AllGrounded, All-append, h)

  key_rules-AllGrounded : All (IsGrounded values) (key_rules policy values executed)
  unfolding key_rules
  key_rules-AllGrounded = search (rule-AllGrounded, All-append, h)

  reuse_rules-AllGrounded : All (IsGrounded values) (reuse_rules policy values executed)
  unfolding reuse_rules
  reuse_rules-AllGrounded =
      when-AllGrounded values (by_id [] (filter (reuses_iv executed) executed)) _ _ _ _
        (by_id-AllExecuted values [] _ tt (All-filter _ (reuses_iv executed) executed h))

  context_rules-AllGrounded : All (IsGrounded values) (context_rules policy values executed)
  unfolding context_rules
  context_rules-AllGrounded = search (rule-AllGrounded, All-append, h)

  weaknesses-AllGrounded : All (IsGrounded values) (weaknesses policy values executed)
  unfolding weaknesses
  weaknesses-AllGrounded = All-append _ _ _ algorithm_rules-AllGrounded (
      All-append _ _ _ key_rules-AllGrounded
        (All-append _ _ _ reuse_rules-AllGrounded context_rules-AllGrounded))

  or_pass-AllGrounded :
      (results : List CryptoRuleResult)
      → All (IsGrounded values) results
      → All (IsGrounded values) (or_pass policy values executed results)
  unfolding or_pass result_of is_confirmed
  or_pass-AllGrounded [] none_left = (
    record { named = named-AllExecuted values executed h; supported = λ c. cc; eligible = refl },
    tt,
  )
  or_pass-AllGrounded (result ∷ results) grounded = grounded

report-AllGrounded :
    (policy : CryptoPolicy) (values executed : Operations)
    → AllExecuted values executed
    → All (IsGrounded values) (report policy values executed)
unfolding report result_of is_confirmed
report-AllGrounded policy [] executed h =
    (record { named = tt; supported = λ c. cc; eligible = refl }, tt)
report-AllGrounded policy (value ∷ values) [] h =
    (record { named = tt; supported = λ c. cc; eligible = refl }, tt)
report-AllGrounded policy (value ∷ values) (item ∷ items) h =
    or_pass-AllGrounded policy (value ∷ values) (item ∷ items) h _
      (weaknesses-AllGrounded policy (value ∷ values) (item ∷ items) h)

require_ok :
    (test : Bool) (message : String) → require test value_error message ≡ ok tt → test ≡ true
require_ok true message h = refl
require_ok false message h = cc

-- In a crypto analysis that returns, each result names only operations that were executed, a
-- confirmed result names at least one, and a result counts as a finding exactly when not all
-- observed operations are those of a simulated fixture.
pub analyze-AllGrounded :
    (policy : CryptoPolicy) (values : Operations) {results : List CryptoRuleResult}
    → analyze policy values ≡ ok results
    → All (IsGrounded values) results
unfolding analyze
analyze-AllGrounded policy values h =
    let (_, _, h1) = >>=-eq-ok (require (all has_provenance values) value_error _) _ h in
    let (_, _, h2) = >>=-eq-ok (require (has_one_origin values) value_error _) _ h1 in
    subst (All (IsGrounded values)) (cc h2)
      (report-AllGrounded policy values _ (filter-AllExecuted values values (λ s e. e)))
