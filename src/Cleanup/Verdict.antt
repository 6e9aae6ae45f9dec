-- ===== src/Cleanup/Verdict.antt =====
-- The verdict of a cleanup: what `finish_cleanup` stores and reports, over a stored session.
use mathlib.Core.Path.{subst, subst₂}
use android_appsec_assessor.Prelude.{String, Bool, true, false, not, ◌≡◌, refl, ap, some, List}
use android_appsec_assessor.Errors.{Result, ok}
use android_appsec_assessor.Validation.{validate_session_id}
use android_appsec_assessor.Json.{bool}
use android_appsec_assessor.Session.{SessionRecord, pending_cleanup, is_cleaned}
use android_appsec_assessor.Session.Repository.{
  Repository, find_session, put_session, set_status, with_status,
}
use android_appsec_assessor.Session.Ledger.{settled-eq-not-pending}
use android_appsec_assessor.Session.Effects.{
  Loaded, load_stored, set_status_lem, find_session-put_self, session_id-find_session,
}
use android_appsec_assessor.Cleanup.{Platform, World, CleanupActionResult}
use android_appsec_assessor.Cleanup.Executor.{
  CleanupResult, all_settled, verdict_status, failure_text, finish_cleanup,
}

-- The stored record agrees with the result: same session, same status, success exactly when nothing of the
-- ledger is pending, and the status `cleaned` exactly on success.
pub record Agrees {D : Type 0} (k : String) (result : CleanupResult) (w : World D) : Type 0 where
  pub stored_record : SessionRecord
  pub stored : find_session k w.repository.sessions ≡ some stored_record
  pub same_session : result.session_id ≡ k
  pub same_status : stored_record.status ≡ result.status
  pub success_iff : result.success ≡ not (pending_cleanup stored_record)
  pub cleaned_iff : is_cleaned stored_record.status ≡ result.success

module _ {D : Type 0} (p : Platform D) (now : String) where
  Loaded-at :
      (k : String) {r : SessionRecord} {s : Repository}
      → validate_session_id k ≡ ok k
      → Loaded k r s
      → find_session k s.sessions ≡ some r
  Loaded-at k {r} {s} valid l =
      let same : r.session_id ≡ k = cc (valid, l.key) in
      subst (λ j. find_session j s.sessions ≡ some r) same l.stored

  -- Over a stored session the end of a cleanup returns, with the verdict over its ledger.
  module _ (k : String) (valid : validate_session_id k ≡ ok k) (results : List CleanupActionResult)
      (w : World D) (final : SessionRecord)
      (found : find_session k w.repository.sessions ≡ some final) where
    abbrev success : Bool
    success = all_settled final

    abbrev stored_status : SessionRecord
    stored_status =
        with_status now (verdict_status success) (bool success) (failure_text success) final

    set_lem :
        ((set_status now k
            (verdict_status success)
            (bool success)
            (failure_text success)
            w.repository).0
          ≡ ok stored_status)
        × ((set_status now k
              (verdict_status success)
              (bool success)
              (failure_text success)
              w.repository).1.sessions
            ≡ put_session stored_status w.repository.sessions)
    set_lem =
        set_status_lem k final w.repository valid found now (verdict_status success) (bool success)
          (failure_text success)

    pub finish_cleanup_lem :
        (finish_cleanup p now k results w).0
        ≡ ok (record {
          session_id = k;
          success = success;
          status = verdict_status success;
          actions = results;
        })
    unfolding finish_cleanup
    finish_cleanup_lem = rw (load_stored k final w.repository valid found) (rw set_lem.0)

    sessions-finish_cleanup :
        (finish_cleanup p now k results w).1.repository.sessions
        ≡ put_session stored_status w.repository.sessions
    unfolding finish_cleanup
    sessions-finish_cleanup =
        rw (load_stored k final w.repository valid found) (rw set_lem.0 set_lem.1)

    cleaned-verdict_status : (b : Bool) → is_cleaned (verdict_status b) ≡ b
    unfolding is_cleaned
    cleaned-verdict_status true = refl
    cleaned-verdict_status false = refl

    Agrees-finish_cleanup :
        Agrees k
          (record {
            session_id = k;
            success = success;
            status = verdict_status success;
            actions = results;
          })
          (finish_cleanup p now k results w).1
    unfolding pending_cleanup
    Agrees-finish_cleanup = record {
      stored_record = stored_status;
      stored = rw sessions-finish_cleanup (
          find_session-put_self k stored_status w.repository.sessions
            (session_id-find_session k w.repository.sessions found));
      same_session = refl;
      same_status = refl;
      success_iff = settled-eq-not-pending final.cleanup_actions;
      cleaned_iff = cleaned-verdict_status success;
    }

  pub Agrees-returned :
      (k : String)
      → validate_session_id k ≡ ok k
      → (results : List CleanupActionResult) (w : World D) (final : SessionRecord)
      → find_session k w.repository.sessions ≡ some final
      → {result : CleanupResult} {w' : World D} → finish_cleanup p now k results w ≡ (ok result, w')
      → Agrees k result w'
  Agrees-returned k valid results w final found {result} {w'} h =
      let success : Bool = all_settled final in
      let verdict : CleanupResult = record {
        session_id = k;
        success = success;
        status = verdict_status success;
        actions = results;
      } in
      let same : verdict ≡ result = cc (
        finish_cleanup_lem k valid results w final found,
        ap (λ (x : Result CleanupResult × World D). x.0) h,
      ) in
      subst₂ (λ x y. Agrees k x y) same (ap (λ (x : Result CleanupResult × World D). x.1) h)
        (Agrees-finish_cleanup k valid results w final found)
