-- ===== src/Cleanup/Repeat.antt =====
-- Cleaning up twice is cleaning up once.
use android_appsec_assessor.Prelude.{arith, ap, String, true, ◌≡◌, ◌∙◌, some, []}
use android_appsec_assessor.Errors.{ok}
use android_appsec_assessor.Validation.{validate_session_id}
use android_appsec_assessor.Session.{SessionRecord, cleaned}
use android_appsec_assessor.Session.Repository.{find_session}
use android_appsec_assessor.Session.Effects.{load_found, session_id-find_session}
use android_appsec_assessor.Cleanup.{Platform, World}
use android_appsec_assessor.Cleanup.Executor.{CleanupResult, cleanup_locked}
use android_appsec_assessor.Cleanup.Verdict.{Agrees}
use android_appsec_assessor.Cleanup.Report.{
  cleanup-Agrees, cleanup_locked_lem, at_rest, nothing_to_do,
}

module _ {D : Type 0} (p : Platform D) (now : String) where
  cleanup_at_rest :
      (session_id k : String) (w : World D) (r : SessionRecord)
      → validate_session_id session_id ≡ ok k
      → find_session k w.repository.sessions ≡ some r
      → at_rest r ≡ true
      → cleanup_locked p now session_id w
        ≡ (ok (record { session_id = k; success = true; status = cleaned; actions = [] }), w)
  cleanup_at_rest session_id k w r valid here rest =
      cleanup_locked_lem p now session_id w r (load_found session_id k r w.repository valid here)
      ∙ rw rest (
          ap (λ j. (ok (nothing_to_do j), w))
            (session_id-find_session k w.repository.sessions here))

module _ {D : Type 0} (p : Platform D) (now : String) where
  -- For an accepted session identifier, a cleanup after a successful one finds nothing to do, at
  -- any later time: it reports success with no action, asks the device nothing, and leaves
  -- repository and device as they are.
  pub cleanup_twice :
      (session_id : String) (w : World D) {k : String} {result : CleanupResult} {w' : World D}
      (later : String)
      → validate_session_id session_id ≡ ok k
      → cleanup_locked p now session_id w ≡ (ok result, w')
      → result.success ≡ true
      → cleanup_locked p later session_id w'
        ≡ (ok (record { session_id = k; success = true; status = cleaned; actions = [] }), w')
  cleanup_twice session_id w {k} {result} {w'} later valid h success =
      let agrees : Agrees k result w' = cleanup-Agrees p now session_id w valid h in
      let rest : at_rest agrees.stored_record ≡ true =
        ground (arith, agrees.cleaned_iff, agrees.success_iff) in
      cleanup_at_rest p later session_id k w' agrees.stored_record valid agrees.stored rest
