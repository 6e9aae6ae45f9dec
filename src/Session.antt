-- ===== src/Session.antt =====
-- The data of android_assessor/session.py: the session record and its cleanup ledger.
-- `Codec` is the JSON form of a record, `Repository` the operations that change one.
pub mod Codec
pub mod RoundTrip
pub mod Repository
pub mod Listing
pub mod Effects
pub mod Ledger
pub mod Evolution
pub mod Slot
pub mod Newest
pub mod Creation
use android_appsec_assessor.Prelude.{
  ℕ, String, Bool, true, false, not, Option, List, any, ◌≡◌, refl,
}
use android_appsec_assessor.Json.{Value, Fields}

pub data SessionStatus : Type 0 where
  initializing active cleanup_required cleaning cleaned cleanup_failed error : SessionStatus

pub data CleanupActionType : Type 0 where
  restore_proxy remove_reverse remove_remote_file stop_remote_process : CleanupActionType
  stop_host_process : CleanupActionType

pub data CleanupActionStatus : Type 0 where
  pending completed failed conflict skipped : CleanupActionStatus

pub record CleanupAction : Type 0 where
  pub action_id : String
  pub action_type : CleanupActionType
  pub payload : Fields
  pub status : CleanupActionStatus
  pub attempts : ℕ
  pub last_error : Option String
  pub completed_at : Option String

pub record SessionRecord : Type 0 where
  pub session_id : String
  pub created_at : String
  pub updated_at : String
  pub status : SessionStatus
  pub serial : String
  pub package_name : String
  pub snapshot : Fields
  pub cleanup_actions : List CleanupAction
  pub cleanup_success : Value
  pub last_error : Option String

-- `status in {COMPLETED, SKIPPED}`
unfoldable pub is_settled : CleanupActionStatus → Bool
is_settled completed = true
is_settled skipped = true
is_settled _ = false

-- `status in {PENDING, FAILED, CONFLICT}`
unfoldable pub is_pending : CleanupActionStatus → Bool
is_pending pending = true
is_pending failed = true
is_pending conflict = true
is_pending _ = false

-- `status in {FAILED, CONFLICT}`
unfoldable pub is_broken : CleanupActionStatus → Bool
is_broken failed = true
is_broken conflict = true
is_broken _ = false

-- The property `pending_cleanup`.
unfoldable pub pending_cleanup : SessionRecord → Bool
unfolding is_pending
pending_cleanup record_value = any (λ a. is_pending a.status) record_value.cleanup_actions

-- `status is CLEANED`
unfoldable pub is_cleaned : SessionStatus → Bool
is_cleaned cleaned = true
is_cleaned _ = false

-- `status in {ACTIVE, CLEANUP_REQUIRED}`
unfoldable pub is_modifiable : SessionStatus → Bool
is_modifiable active = true
is_modifiable cleanup_required = true
is_modifiable _ = false

-- `status not in {CLEANED, ERROR}`
unfoldable pub is_unfinished : SessionStatus → Bool
is_unfinished cleaned = false
is_unfinished error = false
is_unfinished _ = true

-- The two sets of statuses that the code tests are complements.
pub is_pending-eq-not-is_settled : (s : CleanupActionStatus) → is_pending s ≡ not (is_settled s)
unfolding is_pending is_settled
is_pending-eq-not-is_settled pending = refl
is_pending-eq-not-is_settled _ = refl
