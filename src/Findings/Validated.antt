-- ===== src/Findings/Validated.antt =====
-- What the recording of a validation keeps of a session's findings, and what it adds.
use android_appsec_assessor.Prelude.{
  String, Bool, true, false, ◌≡◌, refl, List, [], ◌∷◌, ◌++◌, arith, any, ◌=ₛ◌, eq_iff, ◌||◌, inl,
  inr, Bool-cases, Option-cases,
}
use android_appsec_assessor.Findings.{
  ValidationRecord, FindingRecord, Findings, is_confirmed, unique_from, validated, update_findings,
  set_validation,
}

-- `text in values`
abbrev pub is_in : String → List String → Bool
is_in s xs = any (λ y. y =ₛ s) xs

-- Removing repetitions keeps every text, except those that were kept before.
pub is_in-unique_from :
    (s : String) (seen xs : List String)
    → (is_in s seen || is_in s (unique_from seen xs)) ≡ (is_in s seen || is_in s xs)
unfolding unique_from
is_in-unique_from s seen [] = refl
is_in-unique_from s seen (x ∷ xs) =
    ground (arith, eq_iff x s, is_in-unique_from s seen xs, is_in-unique_from s (x ∷ seen) xs)

-- How a finding may change.
pub record Advances (finding_id : String) (before after : FindingRecord) : Type 0 where
  pub same_id : after.finding_id ≡ before.finding_id
  pub same_rule : after.rule_id ≡ before.rule_id
  pub other : (before.finding_id =ₛ finding_id) ≡ false → after ≡ before
  pub stays_confirmed : is_confirmed before.status ≡ true → is_confirmed after.status ≡ true
  pub keeps_evidence :
      (s : String) → is_in s before.evidence_ids ≡ true → is_in s after.evidence_ids ≡ true

pub data AllAdvance (finding_id : String) : Findings → Findings → Type 0 where
  none_left : AllAdvance finding_id [] []
  advance :
      {f g : FindingRecord} {fs gs : Findings}
      → Advances finding_id f g
      → AllAdvance finding_id fs gs
      → AllAdvance finding_id (f ∷ fs) (g ∷ gs)

any-append : (s : String) (xs ys : List String) → is_in s (xs ++ ys) ≡ (is_in s xs || is_in s ys)
any-append s [] ys = refl
any-append s (x ∷ xs) ys = ground (arith, any-append s xs ys)

Advances-validated :
    (now k : String) (v : ValidationRecord) (f : FindingRecord)
    → (f.finding_id =ₛ k) ≡ true
    → Advances k f (validated now v f)
unfolding validated is_confirmed
Advances-validated now k v f e = record {
  same_id = refl;
  same_rule = refl;
  other = λ o. cc (o, e);
  stays_confirmed = λ c. ground arith;
  keeps_evidence = λ s h. ground (
    arith,
    any-append s f.evidence_ids v.evidence_ids,
    is_in-unique_from s [] (f.evidence_ids ++ v.evidence_ids),
    h,
  );
}

Advances-refl : (k : String) (f : FindingRecord) → Advances k f f
Advances-refl k f = record {
  same_id = refl;
  same_rule = refl;
  other = λ _. refl;
  stays_confirmed = λ c. c;
  keeps_evidence = λ s h. h;
}

update_findings_advance :
    (now k : String) (v : ValidationRecord) (fs : Findings)
    → AllAdvance k fs (update_findings now k v fs).1
unfolding update_findings
update_findings_advance now k v [] = none_left
update_findings_advance now k v (f ∷ fs) = elim (Bool-cases (f.finding_id =ₛ k)) [
  | inl e ↦ rw e (advance (Advances-validated now k v f e) (update_findings_advance now k v fs))
  | inr e ↦ rw e (advance (Advances-refl k f) (update_findings_advance now k v fs))
]

AllAdvance-refl : (k : String) (fs : Findings) → AllAdvance k fs fs
AllAdvance-refl k [] = none_left
AllAdvance-refl k (f ∷ fs) = advance (Advances-refl k f) (AllAdvance-refl k fs)

-- Whether it returns or raises, `set_validation` keeps the findings in their order; it changes
-- only those of the given identifier, whose confirmation and evidence are never taken back.
pub set_validation-AllAdvance :
    (now finding_id : String) (v : ValidationRecord) (fs : Findings)
    → AllAdvance finding_id fs (set_validation now finding_id v fs).1
unfolding set_validation
set_validation-AllAdvance now k v fs = elim (Option-cases (update_findings now k v fs).0) [
  | inl e ↦ rw e (AllAdvance-refl k fs)
  | inr (g, e) ↦ rw e (update_findings_advance now k v fs)
]
