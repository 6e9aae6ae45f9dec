-- ===== src/Cleanup/Contained.antt =====
-- The handlers that stop a process raise only errors that the executor catches; with the other
-- handlers, an executor whose platform raises only such errors is contained.
use android_appsec_assessor.Prelude.{
  String, Bool, true, false, refl, arith, Option, none, some, ℕ, zero, suc, if◌then◌else◌,
  Bool-cases, inl, inr,
}
use android_appsec_assessor.Errors.{
  Error, Result, Result-cases, ok, err, is_expected, is_cleanup_error,
}
use android_appsec_assessor.Exec.{Exec, Outcome, OnSome, continue-Outcome, caught, pure, ◌>>=◌}
use android_appsec_assessor.Validation.{validate_managed_remote_path}
use android_appsec_assessor.Json.{Conversions, Fields, str, get_or, to_str}
use android_appsec_assessor.Session.{
  SessionRecord, restore_proxy, remove_reverse, remove_remote_file, stop_remote_process,
  stop_host_process, CleanupActionType, CleanupActionStatus, completed,
}
use android_appsec_assessor.Adb.Raises.{Done, require_authorized_device-Outcome}
use android_appsec_assessor.Cleanup.{Platform}
use android_appsec_assessor.Cleanup.Actions.{
  dispatch, proc_start_time, remote_process_exists, read_identity_field, capture_identity,
  lost_or_gone, wait_stopped, stop_existing, stop_owned_remote_process, remote_target,
  expected_identity, RemoteTarget, process_identity_from_dict, stop_owned_host_process, number_of,
  or_cleanup_error,
}
use android_appsec_assessor.Cleanup.Completion.{IsCaught, IsContained}
use android_appsec_assessor.Cleanup.Raises.{
  RaisesCaught, refuse_unless-IsCaught, or_cleanup_error-IsCaught, managed_path-IsCaught,
  branch-IsCaught, restore-IsCaught, reverse-IsCaught, file-IsCaught,
}

start_time-IsCaught : (s : String) → Outcome Done IsCaught (proc_start_time s)
unfolding proc_start_time is_expected
start_time-IsCaught s = ground arith

target-IsCaught :
    (conv : Conversions) (iso : String → Bool) (k : String) (payload : Fields)
    → Outcome Done IsCaught (remote_target conv iso k payload)
unfolding remote_target is_expected
target-IsCaught conv iso k payload =
    elim (Result-cases
      (validate_managed_remote_path (to_str conv (get_or "executable_path" (str "") payload)))) [
        | inl (path, e) ↦ ground (arith, e)
        | inr (x, e) ↦
            let h : IsCaught x =
              rw e at
                (managed_path-IsCaught (to_str conv (get_or "executable_path" (str "") payload))) in
            ground (arith, e, h)
      ]

expected-IsCaught :
    (path : String) (payload : Fields) → Outcome Done IsCaught (expected_identity path payload)
unfolding expected_identity is_expected
expected-IsCaught path payload = ground arith

number-IsCaught :
    {D : Type 0} (p : Platform D) (k : String) (fs : Fields)
    → Outcome Done IsCaught (number_of p k fs)
unfolding or_cleanup_error is_expected
number-IsCaught p k fs = ground arith

module _ {D : Type 0} (p : Platform D) (raises : RaisesCaught p) where
  exists_IsCaught :
      (serial : String) (pid : ℕ) (d : D)
      → Outcome Done IsCaught (remote_process_exists p serial pid d).0
  unfolding remote_process_exists is_expected
  exists_IsCaught serial pid d =
      continue-Outcome Done IsCaught _ _ _ (raises.roots serial _ false d) λ result _.
        continue-Outcome Done IsCaught _ _ _ (refuse_unless-IsCaught _ _ _) λ u _. ground arith

  field-IsCaught :
      (serial command : String) (d : D)
      → Outcome Done IsCaught (read_identity_field p serial command d).0
  field-IsCaught serial command d =
      continue-Outcome Done IsCaught _ _ _ (raises.roots serial command false d)
        λ result _. continue-Outcome Done IsCaught _ _ _ (refuse_unless-IsCaught _ _ _) λ u _. tt

  capture-IsCaught :
      (serial : String) (pid : ℕ) (path : String) (d : D)
      → Outcome Done IsCaught (capture_identity p serial pid path d).0
  unfolding capture_identity
  capture-IsCaught serial pid path d =
      continue-Outcome Done IsCaught _ _ _ (managed_path-IsCaught path) λ expected _.
        continue-Outcome Done IsCaught _ _ _ (field-IsCaught serial _ _) λ proc_exe _.
          continue-Outcome Done IsCaught _ _ _ (field-IsCaught serial _ _) λ stat _.
            continue-Outcome Done IsCaught _ _ _ (field-IsCaught serial _ _) λ command_line _.
              continue-Outcome Done IsCaught _ _ _ (refuse_unless-IsCaught _ _ _)
                λ u _. continue-Outcome Done IsCaught _ _ _ (start_time-IsCaught _) λ t _. tt

  handled-IsCaught :
      {A : Type 0} (e : Error) (o : Option (Exec D A)) (d : D)
      → IsCaught e
      → OnSome (λ (m : Exec D A). Outcome Done IsCaught (m d).0) o
      → Outcome Done IsCaught (elim o as (λ _. Result A × D) [ none ↦ (err e, d) | some m ↦ m d ]).0
  handled-IsCaught e none d h k = h
  handled-IsCaught e (some m) d h k = k

  caught-caught :
      {A : Type 0} (r : Result A) (h : Error → Option (Exec D A)) (d : D)
      → Outcome Done IsCaught r
      → ((e : Error) → OnSome (λ (m : Exec D A). Outcome Done IsCaught (m d).0) (h e))
      → Outcome Done IsCaught (caught r h d).0
  caught-caught (ok a) h d c k = tt
  caught-caught (err e) h d c k = handled-IsCaught e (h e) d c (k e)

  -- What the round does where the identity could not be read.
  gone-IsCaught :
      (serial : String) (pid : ℕ) (e : Error) (d : D)
      → OnSome
          (λ (m : Exec D (Option CleanupActionStatus)). Outcome Done IsCaught (m d).0)
          (if is_cleanup_error e.kind
            then some (do
              exists ← remote_process_exists p serial pid
              pure (if exists then none else some completed))
            else none)
  gone-IsCaught serial pid e d = elim (Bool-cases (is_cleanup_error e.kind)) [
    | inl c ↦ rw c (continue-Outcome Done IsCaught _ _ _ (exists_IsCaught serial pid d) λ b _. tt)
    | inr c ↦ rw c tt
  ]

  lost-IsCaught :
      (serial : String) (pid : ℕ) (path t : String) (d : D)
      → Outcome Done IsCaught (lost_or_gone p serial pid path t d).0
  lost-IsCaught serial pid path t d =
      caught-caught _ _ _
        (continue-Outcome Done IsCaught _ _ _ (capture-IsCaught serial pid path d) λ current _. tt)
        λ e. gone-IsCaught serial pid e _

  -- The rest of a round, before the next one.
  next-IsCaught :
      (outcome : Option CleanupActionStatus) (next : Exec D CleanupActionStatus) (d : D)
      → Outcome Done IsCaught (next d).0
      → Outcome Done IsCaught
          (elim outcome as (λ _. Exec D CleanupActionStatus) [
            | none ↦ next
            | some status ↦ pure status
          ]
            d).0
  next-IsCaught none next d h = h
  next-IsCaught (some status) next d h = tt

  round-IsCaught :
      (serial : String) (pid : ℕ) (path t : String) (next : Exec D CleanupActionStatus)
      → (exists : Bool) (d : D) → ((d' : D) → Outcome Done IsCaught (next d').0)
      → Outcome Done IsCaught
          (elim exists as (λ _. Exec D CleanupActionStatus) [
            | false ↦ pure completed
            | true ↦ lost_or_gone p serial pid path t >>= λ outcome.
                elim outcome as (λ _. Exec D CleanupActionStatus) [
                  | none ↦ next
                  | some status ↦ pure status
                ]
          ]
            d).0
  round-IsCaught serial pid path t next false d h = tt
  round-IsCaught serial pid path t next true d h =
      continue-Outcome Done IsCaught _ _ _ (lost-IsCaught serial pid path t d)
        λ outcome _. next-IsCaught outcome next _ (h _)

  wait-IsCaught :
      (rounds : ℕ) (serial : String) (pid : ℕ) (path t : String) (d : D)
      → Outcome Done IsCaught (wait_stopped p rounds serial pid path t d).0
  unfolding wait_stopped is_expected
  wait-IsCaught zero serial pid path t d = refl
  wait-IsCaught (suc n) serial pid path t d =
      continue-Outcome Done IsCaught _ _ _ (exists_IsCaught serial pid d) λ exists _.
        round-IsCaught serial pid path t (wait_stopped p n serial pid path t) exists _
          (wait-IsCaught n serial pid path t)

  stop_existing-IsCaught :
      (r : SessionRecord) (payload : Fields) (target : RemoteTarget) (d : D)
      → Outcome Done IsCaught (stop_existing p r payload target d).0
  unfolding stop_existing
  stop_existing-IsCaught r payload target d =
      continue-Outcome Done IsCaught _ _ _ (expected-IsCaught target.executable_path payload)
        λ expected _.
          continue-Outcome Done IsCaught _ _ _
            (capture-IsCaught r.serial target.pid target.executable_path _)
            λ actual _. continue-Outcome Done IsCaught _ _ _ (refuse_unless-IsCaught _ _ _) λ u _.
              continue-Outcome Done IsCaught _ _ _ (raises.roots r.serial _ true _) λ v _.
                wait-IsCaught p.rounds r.serial target.pid target.executable_path
                  expected.start_time _

  remote_process-IsCaught :
      (r : SessionRecord) (payload : Fields) (d : D)
      → Outcome Done IsCaught (stop_owned_remote_process p r payload d).0
  unfolding stop_owned_remote_process
  remote_process-IsCaught r payload d =
      continue-Outcome Done IsCaught _ _ _
        (target-IsCaught p.conv p.is_isoformat r.session_id payload)
        λ target _.
          continue-Outcome Done IsCaught _ _ _ (exists_IsCaught r.serial target.pid _)
            λ exists _. branch-IsCaught exists _ _ _ (stop_existing-IsCaught r payload target _) tt

  identity-IsCaught :
      (fs : Fields) (d : D) → Outcome Done IsCaught (process_identity_from_dict p fs d).0
  unfolding process_identity_from_dict
  identity-IsCaught fs d =
      continue-Outcome Done IsCaught _ _ _ (number-IsCaught p "pid" fs) λ pid _.
        continue-Outcome Done IsCaught _ _ _ (or_cleanup_error-IsCaught _ _) λ executable _.
          continue-Outcome Done IsCaught _ _ _ (number-IsCaught p "creation_filetime" fs) λ time _.
            continue-Outcome Done IsCaught _ _ _ (or_cleanup_error-IsCaught _ _) λ pid' _.
              continue-Outcome Done IsCaught _ _ _ (or_cleanup_error-IsCaught _ _) λ time' _.
                continue-Outcome Done IsCaught _ _ _ (refuse_unless-IsCaught _ _ _) λ u _. tt

  host_process-IsCaught :
      (payload : Fields) (d : D) → Outcome Done IsCaught (stop_owned_host_process p payload d).0
  unfolding stop_owned_host_process
  host_process-IsCaught payload d =
      continue-Outcome Done IsCaught _ _ _ (or_cleanup_error-IsCaught _ _) λ names _.
        continue-Outcome Done IsCaught _ _ _ (or_cleanup_error-IsCaught _ _) λ fs _.
          continue-Outcome Done IsCaught _ _ _ (identity-IsCaught fs _) λ identity _.
            continue-Outcome Done IsCaught _ _ _ (raises.manages identity.executable) λ name _.
              continue-Outcome Done IsCaught _ _ _ (refuse_unless-IsCaught _ _ _)
                λ u _. continue-Outcome Done IsCaught _ _ _ (raises.terminates identity _) λ b _. tt

  dispatch-IsCaught :
      (t : CleanupActionType) (r : SessionRecord) (payload : Fields) (d : D)
      → Outcome Done IsCaught (dispatch p t r payload d).0
  unfolding dispatch
  dispatch-IsCaught restore_proxy r payload d = restore-IsCaught p raises r payload d
  dispatch-IsCaught remove_reverse r payload d = reverse-IsCaught p raises r payload d
  dispatch-IsCaught remove_remote_file r payload d = file-IsCaught p raises r payload d
  dispatch-IsCaught stop_remote_process r payload d = remote_process-IsCaught r payload d
  dispatch-IsCaught stop_host_process r payload d = host_process-IsCaught payload d

  -- The five handlers and the probe of the device raise nothing that the executor does not catch.
  pub RaisesCaught-IsContained : IsContained p
  RaisesCaught-IsContained = record {
    executes = λ r a d. dispatch-IsCaught a.action_type r a.payload d;
    authorizes = require_authorized_device-Outcome p.adb raises.commands;
  }
