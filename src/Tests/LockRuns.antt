-- ===== src/Tests/LockRuns.antt =====
-- A thread that enters a lock again within itself, and another thread that is refused.
use android_appsec_assessor.Prelude.{
  ℕ, String, true, false, ◌≡◌, refl, Option, [], ◌∷◌, some, none, ◌↔◌, ◌≢◌, arith,
}
use android_appsec_assessor.Errors.{Error, ok, err, fault, session_error}
use android_appsec_assessor.FileLock.{
  FileLock, enter, try_lock, put_depth, put_grant, put_thread, System, state_of, after_call,
  entered, initial, Reachable, start, next,
}
use android_appsec_assessor.DeviceLock
use android_appsec_assessor.DeviceLock.{
  DeviceLock, DeviceLockState, put_at, is_reentry, finish_enter, entered_first,
}
use android_appsec_assessor.DeviceLock.Balance.{
  IsSound, SameLocks, enter-IsSound, exit-enter-SameLocks, enter_failed-SameLocks,
}
use android_appsec_assessor.FileLock.Exclusion.{
  Holds, count, Reachable-excludes, Reachable-releases,
}

abbrev outer : FileLock
outer = record { key = "state.lock"; handle = true; acquired = true; reentrant = false }

abbrev inner : FileLock
inner = record { key = "state.lock"; handle = false; acquired = true; reentrant = true }

abbrev once : System
once = after_call 1 (outer ∷ []) (enter 1 "state.lock" (state_of 1 initial)).1 initial

abbrev twice : System
twice =
    after_call 1 (inner ∷ (once.threads 1).blocks) (enter 1 "state.lock" (state_of 1 once)).1 once

twice-Reachable : Reachable twice
unfolding enter try_lock put_depth put_grant put_thread
twice-Reachable =
    next (next start (entered 1 "state.lock" outer refl)) (entered 1 "state.lock" inner refl)

inside : Holds 1 "state.lock" twice
unfolding put_thread
inside = ground arith

refused :
    (enter 2 "state.lock" (state_of 2 twice)).0
    ≡ err (fault session_error "Session state is busy; retry the operation.")
unfolding enter try_lock put_depth put_grant put_thread
refused = refl

one_ne_two : ◌≢◌ {A = ℕ} 1 2
one_ne_two = ground arith

Reachable-excludes_example : count "state.lock" (twice.threads 2).blocks ≡ 0
Reachable-excludes_example = Reachable-excludes "state.lock" 1 2 twice-Reachable inside one_ne_two

Reachable-releases_example : (twice.grants "state.lock" ≡ some 1) ↔ Holds 1 "state.lock" twice
Reachable-releases_example = Reachable-releases "state.lock" 1 twice-Reachable

-- A device that this thread holds for a session.
abbrev key : String
key = "device.lock"

abbrev mine : Option String
mine = some "20260101-120000-0a1b2c"

abbrev device_lock : DeviceLock
device_lock = record {
  serial = "emulator-5554";
  operation = "cleanup";
  session_id = mine;
  owner = "0a";
  key = key;
  handle = false;
  acquired = false;
  reentrant = false;
}

abbrev unlocked : DeviceLockState
unlocked = record { held = λ k. none; granted = λ k. false; metadata = λ k. none }

unlocked-IsSound : IsSound unlocked
unlocked-IsSound = record { deep = λ k e. cc; locked = λ k e. cc }

lock_entered : (DeviceLock.enter (ok tt) device_lock unlocked).0 ≡ ok (entered_first device_lock)
unfolding DeviceLock.enter finish_enter put_at is_reentry
lock_entered = refl

exit-enter-SameLocks_example :
    SameLocks unlocked (
      DeviceLock.exit (entered_first device_lock) (DeviceLock.enter (ok tt) device_lock unlocked).1)
exit-enter-SameLocks_example =
    exit-enter-SameLocks (ok tt) device_lock unlocked unlocked-IsSound refl
      λ i. (lock_entered i, (DeviceLock.enter (ok tt) device_lock unlocked).1)

abbrev disk_full : Error
disk_full = fault session_error "No space left on device"

lock_failed : (DeviceLock.enter (err disk_full) device_lock unlocked).0 ≡ err disk_full
unfolding DeviceLock.enter finish_enter put_at is_reentry
lock_failed = refl

enter_failed-SameLocks_example :
    SameLocks unlocked (DeviceLock.enter (err disk_full) device_lock unlocked).1
enter_failed-SameLocks_example =
    enter_failed-SameLocks (err disk_full) device_lock unlocked unlocked-IsSound refl
      λ i. (lock_failed i, (DeviceLock.enter (err disk_full) device_lock unlocked).1)

enter-IsSound_example : IsSound (DeviceLock.enter (ok tt) device_lock unlocked).1
enter-IsSound_example = enter-IsSound (ok tt) device_lock unlocked unlocked-IsSound refl
