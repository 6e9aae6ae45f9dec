-- ===== src/Cleanup/Raises.antt =====
-- The handlers of the actions raise only errors that the executor catches, where what the platform
-- is made of raises only such errors.
use android_appsec_assessor.Prelude.{
  String, Bool, true, false, not, refl, arith, Option, none, some, ◌=ₛ◌, ◌||◌, if◌then◌else◌,
}
use android_appsec_assessor.Errors.{is_expected, cleanup_conflict_error}
use android_appsec_assessor.Exec.{Exec, Outcome, continue-Outcome, pure, raise, ◌>>=◌}
use android_appsec_assessor.Validation.{validate_managed_remote_path, validate_reverse_endpoint}
use android_appsec_assessor.Json.{Fields}
use android_appsec_assessor.Session.{SessionRecord, CleanupActionStatus, completed, skipped}
use android_appsec_assessor.Adb
use android_appsec_assessor.Adb.{ReverseMapping, is_zero, delete_http_proxy, put_http_proxy}
use android_appsec_assessor.Adb.Raises.{
  Done, RaisesCommandErrors, Outcome-expected, shell-Outcome, get_http_proxy-Outcome,
  put_http_proxy-Outcome, delete_http_proxy-Outcome, list_reverse-Outcome, run_for_device-Outcome,
}
use android_appsec_assessor.Cleanup.{Platform, ProcessIdentity}
use android_appsec_assessor.Cleanup.Actions.{
  restore_owned_proxy, remove_owned_reverse, remove_owned_file, or_cleanup_error, refuse_unless,
  same_setting,
}
use android_appsec_assessor.Cleanup.Completion.{IsCaught}

pub record RaisesCaught {D : Type 0} (p : Platform D) : Type 0 where
  pub commands : RaisesCommandErrors p.adb
  pub roots :
      (serial command : String) (check : Bool) (d : D)
      → Outcome Done IsCaught (p.root_shell serial command check d).0
  pub terminates : (i : ProcessIdentity) (d : D) → Outcome Done IsCaught (p.terminate_owned i d).0
  pub manages : (path : String) → Outcome Done IsCaught (p.managed_name path)

pub refuse_unless-IsCaught :
    {D : Type 0} (b : Bool) (m : String) (d : D) → Outcome Done IsCaught (refuse_unless b m d).0
unfolding refuse_unless is_expected
refuse_unless-IsCaught true m d = tt
refuse_unless-IsCaught false m d = refl

pub or_cleanup_error-IsCaught :
    {A : Type 0} (m : String) (o : Option A) → Outcome Done IsCaught (or_cleanup_error m o)
unfolding is_expected or_cleanup_error
or_cleanup_error-IsCaught m none = refl
or_cleanup_error-IsCaught m (some a) = tt

pub managed_path-IsCaught : (s : String) → Outcome Done IsCaught (validate_managed_remote_path s)
unfolding validate_managed_remote_path is_expected
managed_path-IsCaught s = ground arith

endpoint-IsCaught : (s : String) → Outcome Done IsCaught (validate_reverse_endpoint s)
unfolding validate_reverse_endpoint is_expected
endpoint-IsCaught s = ground arith

pub branch-IsCaught :
    {S A : Type 0} (b : Bool) (m n : Exec S A) (s : S)
    → Outcome Done IsCaught (m s).0
    → Outcome Done IsCaught (n s).0
    → Outcome Done IsCaught ((if b then m else n) s).0
branch-IsCaught true m n s h k = h
branch-IsCaught false m n s h k = k

module _ {D : Type 0} (p : Platform D) (raises : RaisesCaught p) where
  remove_reverse-IsCaught :
      (serial remote : String) (d : D)
      → Outcome Done IsCaught (Adb.remove_reverse p.adb serial remote d).0
  unfolding Adb.remove_reverse
  remove_reverse-IsCaught serial remote d =
      continue-Outcome Done IsCaught _ _ _ (endpoint-IsCaught remote) λ endpoint _.
        continue-Outcome Done IsCaught _ _ _
          (Outcome-expected _ (run_for_device-Outcome p.adb raises.commands serial _ true _))
          λ result _. tt

  -- What `restore_owned_proxy` writes back.
  restored-IsCaught :
      (r : SessionRecord) (previous : Option String) (d : D)
      → Outcome Done IsCaught
          (elim previous as (λ _. Exec D CleanupActionStatus) [
            | none ↦ delete_http_proxy p.adb r.serial >>= λ _. pure completed
            | some value ↦ put_http_proxy p.adb r.serial value >>= λ _. pure completed
          ]
            d).0
  restored-IsCaught r none d =
      continue-Outcome Done IsCaught _ _ _
        (Outcome-expected _ (delete_http_proxy-Outcome p.adb raises.commands r.serial _)) λ u _. tt
  restored-IsCaught r (some value) d =
      continue-Outcome Done IsCaught _ _ _
        (Outcome-expected _ (put_http_proxy-Outcome p.adb raises.commands r.serial value _))
        λ u _. tt

  removed-IsCaught :
      (r : SessionRecord) (remote local : String) (found : Option ReverseMapping) (d : D)
      → Outcome Done IsCaught
          (elim found as (λ _. Exec D CleanupActionStatus) [
            | none ↦ pure skipped
            | some mapping ↦
                if not (mapping.local =ₛ local)
                then raise cleanup_conflict_error
                    "ADB reverse endpoint now maps to a different local endpoint."
                else (Adb.remove_reverse p.adb r.serial remote >>= λ _. pure completed)
          ]
            d).0
  unfolding is_expected
  removed-IsCaught r remote local none d = tt
  removed-IsCaught r remote local (some mapping) d =
      branch-IsCaught (not (mapping.local =ₛ local)) _ _ _ refl
        (continue-Outcome Done IsCaught _ _ _ (remove_reverse-IsCaught r.serial remote d) λ u _. tt)

  pub restore-IsCaught :
      (r : SessionRecord) (payload : Fields) (d : D)
      → Outcome Done IsCaught (restore_owned_proxy p r payload d).0
  unfolding restore_owned_proxy is_expected
  restore-IsCaught r payload d =
      continue-Outcome Done IsCaught _ _ _ (refuse_unless-IsCaught _ _ d) λ u _.
        continue-Outcome Done IsCaught _ _ _ (refuse_unless-IsCaught _ _ _) λ v _.
          continue-Outcome Done IsCaught _ _ _ (or_cleanup_error-IsCaught _ _) λ previous _.
            continue-Outcome Done IsCaught _ _ _ (or_cleanup_error-IsCaught _ _) λ applied _.
              continue-Outcome Done IsCaught _ _ _
                (Outcome-expected _ (get_http_proxy-Outcome p.adb raises.commands r.serial _))
                λ current _. branch-IsCaught (same_setting current previous) _ _ _ tt (
                  branch-IsCaught (not (same_setting current (some applied))) _ _ _ refl
                    (restored-IsCaught r previous _))

  pub reverse-IsCaught :
      (r : SessionRecord) (payload : Fields) (d : D)
      → Outcome Done IsCaught (remove_owned_reverse p r payload d).0
  unfolding remove_owned_reverse is_expected
  reverse-IsCaught r payload d =
      continue-Outcome Done IsCaught _ _ _ (refuse_unless-IsCaught _ _ d) λ u _.
        continue-Outcome Done IsCaught _ _ _ (endpoint-IsCaught _) λ remote _.
          continue-Outcome Done IsCaught _ _ _ (endpoint-IsCaught _) λ local _.
            continue-Outcome Done IsCaught _ _ _
              (Outcome-expected _ (list_reverse-Outcome p.adb raises.commands r.serial _))
              λ current _. removed-IsCaught r remote local _ _

  pub file-IsCaught :
      (r : SessionRecord) (payload : Fields) (d : D)
      → Outcome Done IsCaught (remove_owned_file p r payload d).0
  unfolding remove_owned_file
  file-IsCaught r payload d =
      continue-Outcome Done IsCaught _ _ _ (managed_path-IsCaught _) λ path _.
        continue-Outcome Done IsCaught _ _ _
          (Outcome-expected _ (shell-Outcome p.adb raises.commands r.serial _ false _))
          λ exists _.
            branch-IsCaught (not (is_zero exists.exit_code) || exists.timed_out) _ _ _ tt (
              continue-Outcome Done IsCaught _ _ _
                (Outcome-expected _ (shell-Outcome p.adb raises.commands r.serial _ true _))
                λ result _. tt)
