-- ===== src/Findings.antt =====
-- android_assessor/findings.py: the findings of a session and the result of a validation that is
-- recorded on one. The stored form of a finding is not modelled; `Findings` is a session's file,
-- read and written whole.
pub mod Validated
use android_appsec_assessor.Prelude.{
  String, Bool, true, false, not, Option, none, some, List, [], ◌∷◌, ◌++◌, any, find_first, ◌=ₛ◌,
  if◌then◌else◌,
}
use android_appsec_assessor.Errors.{session_error}
use android_appsec_assessor.Exec.{Exec, pure, raise, gets, modify, ◌>>=◌, ◌>>◌}
use android_appsec_assessor.Json.{Fields}

pub data FindingStatus : Type 0 where
  pass potential confirmed inconclusive skipped error : FindingStatus

pub record ValidationRecord : Type 0 where
  pub status : FindingStatus
  pub validation_type : String
  pub validated_at : String
  pub canary : Option String
  pub summary : String
  pub evidence_ids : List String
  pub candidate_key : Option String
  pub candidate_context : Option Fields

pub record FindingRecord : Type 0 where
  pub finding_id : String
  pub rule_id : String
  pub title : String
  pub category : String
  pub description : String
  pub severity : String
  pub confidence : String
  pub status : FindingStatus
  pub analysis_type : String
  pub root_required : Bool
  pub root_used : Bool
  pub frida_used : Bool
  pub validation_supported : Bool
  pub validation : Option ValidationRecord
  pub evidence_ids : List String
  pub remediation : String
  pub mappings : Fields
  pub details : Fields
  pub created_at : String
  pub updated_at : String

abbrev pub Findings : Type 0
Findings = List FindingRecord

unfoldable pub is_confirmed : FindingStatus → Bool
is_confirmed confirmed = true
is_confirmed _ = false

-- `tuple(dict.fromkeys(values))`: the first of equal texts stays. `seen` is what was kept.
unfoldable pub unique_from : List String → List String → List String
unique_from seen [] = []
unique_from seen (x ∷ xs) =
    let rest = unique_from seen xs in
    let more = unique_from (x ∷ seen) xs in if any (λ y. y =ₛ x) seen then rest else x ∷ more

-- The `replace` of the loop of `set_validation`.
unfoldable pub validated : String → ValidationRecord → FindingRecord → FindingRecord
validated now validation finding = record finding {
  status = if is_confirmed validation.status then confirmed else finding.status;
  validation = some validation;
  evidence_ids = unique_from [] (finding.evidence_ids ++ validation.evidence_ids);
  updated_at = now;
}

-- The loop of `set_validation`: what was updated last, and the list that is saved.
unfoldable pub update_findings :
    String → String → ValidationRecord → Findings → Option FindingRecord × Findings
update_findings now finding_id validation [] = (none, [])
update_findings now finding_id validation (finding ∷ findings) =
    let (updated, output) = update_findings now finding_id validation findings in
    if finding.finding_id =ₛ finding_id
    then (
      elim updated [ none ↦ some (validated now validation finding) | some later ↦ some later ],
      validated now validation finding ∷ output,
    )
    else (updated, finding ∷ output)

abbrev save_updated : Option FindingRecord × Findings → Exec Findings FindingRecord
save_updated (none, output) = raise session_error "Finding does not exist"
save_updated (some updated, output) = modify (λ _. output) >>= λ _. pure updated

unfoldable pub set_validation : String → String → ValidationRecord → Exec Findings FindingRecord
set_validation now finding_id validation = do
  findings ← gets (λ findings. findings)
  save_updated (update_findings now finding_id validation findings)

abbrev found : Option FindingRecord → Exec Findings FindingRecord
found none = raise session_error "Finding does not exist"
found (some finding) = pure finding

-- `FindingRepository.get`
unfoldable pub get_finding : String → Exec Findings FindingRecord
get_finding finding_id findings =
    found (find_first (λ (f : FindingRecord). f.finding_id =ₛ finding_id) findings) findings
