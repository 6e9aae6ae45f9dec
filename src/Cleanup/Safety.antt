-- ===== src/Cleanup/Safety.antt =====
-- What the handlers do not touch: a setting or a process that the session does not own.
use android_appsec_assessor.Prelude.{
  String, Bool, true, false, not, ◌&&◌, ◌≡◌, ◌⊎◌, arith, Option, some, if◌then◌else◌,
}
use android_appsec_assessor.Errors.{Result, ok}
use android_appsec_assessor.Exec.{Exec, pure, continue-eq-ok}
use android_appsec_assessor.Json.{Fields, get}
use android_appsec_assessor.Session.{CleanupActionStatus, completed, skipped, SessionRecord}
use android_appsec_assessor.Adb.{get_http_proxy}
use android_appsec_assessor.Snapshot.{parse_proxy_snapshot}
use android_appsec_assessor.Cleanup.{Platform, RemoteProcessIdentity}
use android_appsec_assessor.Cleanup.Actions.{
  is_owned, is_text, is_refused, text_of, same_setting, restore_owned_proxy, refuse_unless,
  or_cleanup_error, ExpectedIdentity, expected_identity, RemoteTarget, remote_target,
  is_same_process, capture_identity, remote_process_exists, stop_existing,
  stop_owned_remote_process,
}

-- The proxy that was read is the one that the payload says was applied.
abbrev pub is_applied : Result (Option String) → Option String → Bool
is_applied (ok current) (some applied) = same_setting current (some applied)
is_applied _ _ = false

module _ {D : Type 0} (p : Platform D) where
  -- The condition under which a proxy may be written back.
  abbrev pub permits_restore : SessionRecord → Fields → D → Bool
  permits_restore r payload d =
      not (is_refused (parse_proxy_snapshot p.conv r.snapshot))
      && is_owned payload
      && is_applied (get_http_proxy p.adb r.serial d).0 (text_of (get "applied_proxy" payload))

  -- Unless the original proxy was captured, the payload is marked as owned and the current proxy
  -- is the applied one, `restore_owned_proxy` leaves the device as it was, or as reading its
  -- proxy left it.
  pub restore_owned_proxy_untouched :
      (r : SessionRecord) (payload : Fields) (d : D)
      → permits_restore r payload d ≡ false
      → ((restore_owned_proxy p r payload d).1 ≡ d)
        ⊎ ((restore_owned_proxy p r payload d).1 ≡ (get_http_proxy p.adb r.serial d).1)
  unfolding restore_owned_proxy refuse_unless or_cleanup_error
  restore_owned_proxy_untouched r payload d h = ground arith

  -- What is known where a remote process was stopped.
  pub record IsStopped (r : SessionRecord) (payload : Fields) (d : D) : Type 0 where
    pub owned : is_owned payload ≡ true
    pub same_session : is_text r.session_id (get "session_id" payload) ≡ true
    pub target : RemoteTarget
    pub targeted : remote_target p.conv p.is_isoformat r.session_id payload ≡ ok target
    pub expected : ExpectedIdentity
    pub recorded : expected_identity target.executable_path payload ≡ ok expected
    pub actual : RemoteProcessIdentity
    pub captured :
        (capture_identity p r.serial target.pid target.executable_path
          (remote_process_exists p r.serial target.pid d).1).0
        ≡ ok actual
    pub same_process : is_same_process expected target.executable_path actual ≡ true

  owned_target :
      (r : SessionRecord) (payload : Fields) {target : RemoteTarget}
      → remote_target p.conv p.is_isoformat r.session_id payload ≡ ok target
      → (is_owned payload ≡ true) × (is_text r.session_id (get "session_id" payload) ≡ true)
  unfolding remote_target
  owned_target r payload h = (ground arith, ground arith)

  stopped_existing :
      (r : SessionRecord) (payload : Fields) (target : RemoteTarget) (d : D)
      → {status : CleanupActionStatus} {d' : D}
      → stop_existing p r payload target d ≡ (ok status, d')
      → (expected : ExpectedIdentity) × (actual : RemoteProcessIdentity) × (expected_identity
            target.executable_path payload
          ≡ ok expected)
        × ((capture_identity p r.serial target.pid target.executable_path d).0 ≡ ok actual)
        × (is_same_process expected target.executable_path actual ≡ true)
  unfolding stop_existing refuse_unless
  stopped_existing r payload target d h =
      let (expected, recorded, h₁) =
        continue-eq-ok (expected_identity target.executable_path payload) _ d h in
      let (actual, captured, h₂) =
        continue-eq-ok (capture_identity p r.serial target.pid target.executable_path d).0 _ _ h₁ in
      (expected, actual, recorded, captured, ground arith)

  -- A process that does not exist is skipped.
  existed :
      (exists : Bool) (m : Exec D CleanupActionStatus) (d : D) {d' : D}
      → (if exists then m else pure skipped) d ≡ (ok completed, d')
      → m d ≡ (ok completed, d')
  existed true m d h = h
  existed false m d h = cc

  -- `stop_owned_remote_process` reports `completed` only if the payload is marked as owned, names
  -- the session, and records the identity (executable, start time, command line) that the device
  -- gave for the process just before.
  pub stop_owned_remote_process-IsStopped :
      (r : SessionRecord) (payload : Fields) (d : D) {d' : D}
      → stop_owned_remote_process p r payload d ≡ (ok completed, d')
      → IsStopped r payload d
  unfolding stop_owned_remote_process
  stop_owned_remote_process-IsStopped r payload d h =
      let (target, targeted, h₁) =
        continue-eq-ok (remote_target p.conv p.is_isoformat r.session_id payload) _ d h in
      let (exists, found, h₂) =
        continue-eq-ok (remote_process_exists p r.serial target.pid d).0 _ _ h₁ in
      let (expected, actual, recorded, captured, same) =
        stopped_existing r payload target _ (existed exists _ _ h₂) in
      record {
        owned = (owned_target r payload targeted).0;
        same_session = (owned_target r payload targeted).1;
        target = target;
        targeted = targeted;
        expected = expected;
        recorded = recorded;
        actual = actual;
        captured = captured;
        same_process = same;
      }
