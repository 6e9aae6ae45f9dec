-- ===== src/Cleanup.antt =====
-- android_assessor/cleanup.py: the cleanup of what a session's ledger records.
-- `World` is the state, `Platform` what the executor is given; `Actions` has the handlers of the
-- five action types, `Executor` the runs over a ledger. The other children are proofs.
pub mod Actions
pub mod Executor
pub mod Containment
pub mod Completion
pub mod Verdict
pub mod Report
pub mod Repeat
pub mod Preservation
pub mod Totality
pub mod Raises
pub mod Contained
pub mod Safety
pub mod Rollback
pub mod RolledBack
use android_appsec_assessor.Prelude.{ℕ, String, Bool, Option}
use android_appsec_assessor.Errors.{Error, Result}
use android_appsec_assessor.Exec.{Exec}
use android_appsec_assessor.Json.{Conversions}
use android_appsec_assessor.Adb.{CommandResult, Executable}
use android_appsec_assessor.Session.{CleanupActionType, CleanupActionStatus}
use android_appsec_assessor.Session.Repository.{Repository}

-- `ProcessIdentity` of android_assessor/host_process.py
pub record ProcessIdentity : Type 0 where
  pub pid : ℕ
  pub executable : String
  pub creation_filetime : ℕ

pub record RemoteProcessIdentity : Type 0 where
  pub pid : ℕ
  pub executable_path : String
  pub proc_exe : String
  pub proc_start_time : String
  pub command_line : String

-- What the executor calls and does not implement: the `adb` executable, `root_shell` (its
-- arguments are the serial, the command and `check`), `terminate_owned`, the file system's and
-- `datetime`'s answers about a text, the built-in conversions, and `redact_text(str(exc))[:500]`.
pub record Platform (D : Type 0) : Type 0 where
  pub adb : Executable D
  pub root_shell : String → String → Bool → Exec D CommandResult
  pub terminate_owned : ProcessIdentity → Exec D Bool
  pub is_absolute : String → Bool
  -- the name, in lower case, of the resolved path; an error where it leaves the project
  pub managed_name : String → Result String
  pub is_isoformat : String → Bool
  pub conv : Conversions
  pub note : Error → String
  -- how many rounds of the wait for a stopped process fit before its deadline
  pub rounds : ℕ

pub record World (D : Type 0) : Type 0 where
  pub repository : Repository
  pub device : D

pub record CleanupActionResult : Type 0 where
  pub action_id : String
  pub action_type : CleanupActionType
  pub status : CleanupActionStatus
  pub failure : Option String
