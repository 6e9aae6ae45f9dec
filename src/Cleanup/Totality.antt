-- ===== src/Cleanup/Totality.antt =====
-- A cleanup of a stored session ends, with one report for each action that was left.
use mathlib.Core.List.{reverse}
use android_appsec_assessor.Prelude.{
  none, some, String, true, false, ◌≡◌, ap, Bool-cases, inl, inr, List, [], ◌∷◌, map, arith, sym,
  ◌∙◌, if◌then◌else◌, any, All, All-map, All-filter, All-reverse, filter-eq-nil, All-of-any, not,
  eq_iff,
}
use android_appsec_assessor.Errors.{ok, Result-cases, is_adb_error}
use android_appsec_assessor.Exec.{Returns, continue-Returns}
use android_appsec_assessor.Validation.{validate_session_id}
use android_appsec_assessor.Validation.Idempotence.{validate_session_id_again}
use android_appsec_assessor.Json.{null}
use android_appsec_assessor.Adb.{require_authorized_device}
use android_appsec_assessor.Session.{
  SessionRecord, CleanupAction, cleaning, is_settled, is_pending, pending_cleanup, is_cleaned,
  is_pending-eq-not-is_settled,
}
use android_appsec_assessor.Session.Repository.{find_session}
use android_appsec_assessor.Session.Ledger.{entry, has_entry}
use android_appsec_assessor.Session.Effects.{Loaded, load_lem, set_status_lem}
use android_appsec_assessor.Cleanup.{Platform, World, CleanupActionResult}
use android_appsec_assessor.Cleanup.Executor.{
  CleanupResult, run_cleanup, cleanup_locked, unsettled, probe_device, probe_authorized, is_android,
}
use android_appsec_assessor.Session.Evolution.{identity?}
use android_appsec_assessor.Cleanup.Raises.{RaisesCaught}
use android_appsec_assessor.Cleanup.Contained.{RaisesCaught-IsContained}
use android_appsec_assessor.Cleanup.Completion.{IsContained, run_actions-Returns}
use android_appsec_assessor.Cleanup.Verdict.{finish_cleanup_lem}
use android_appsec_assessor.Cleanup.Report.{
  cleanup_locked_lem, Evolves-probed, stored-ran, probed, ran, at_rest, nothing_to_do,
}

-- Each action of a ledger is listed in it.
All-listed :
    (actions : List CleanupAction)
    → All (λ (a : CleanupAction). has_entry a.action_id (map entry actions) ≡ true) actions
All-listed [] = tt
All-listed (a ∷ rest) = (
  ground (arith, eq_iff a.action_id a.action_id),
  All-map _ _ rest
      (λ (b : CleanupAction) (h : has_entry b.action_id (map entry rest) ≡ true). ground arith)
      (All-listed rest),
)

-- Where nothing is pending nothing is left to do.
unsettled-eq-nil :
    (r : SessionRecord) → pending_cleanup r ≡ false → unsettled (reverse r.cleanup_actions) ≡ []
unfolding pending_cleanup
unsettled-eq-nil r h =
    filter-eq-nil (λ (a : CleanupAction). not (is_settled a.status)) (reverse r.cleanup_actions)
      (All-reverse _ r.cleanup_actions (
        All-map _ _ r.cleanup_actions
          (λ (a : CleanupAction) (e : is_pending a.status ≡ false).
            sym (is_pending-eq-not-is_settled a.status) ∙ e)
          (All-of-any (λ (a : CleanupAction). is_pending a.status) r.cleanup_actions h)))

abbrev pub ids : List CleanupAction → List String
ids = map (λ (a : CleanupAction). a.action_id)

abbrev pub reported : List CleanupActionResult → List String
reported = map (λ (v : CleanupActionResult). v.action_id)

module _ {D : Type 0} (p : Platform D) (raises : RaisesCaught p) (now : String) where
  contained : IsContained p
  contained = RaisesCaught-IsContained p raises

  probe_authorized-Returns :
      (serial : String) (w : World D) → Returns (λ _. Unit {0}) (probe_authorized p now serial w).0
  unfolding probe_authorized
  probe_authorized-Returns serial w =
      elim (Result-cases (require_authorized_device p.adb serial w.device).0) [
        | inl (d, e) ↦ rw (e, probe_authorized) tt
        | inr (x, e) ↦
            let adb : is_adb_error x.kind ≡ true = rw e at (contained.authorizes serial w.device) in
            rw (e, probe_authorized) (rw (adb, probe_authorized) tt)
      ]

  probe_device-Returns :
      (serial : String) (actions : List CleanupAction) (w : World D)
      → Returns (λ _. Unit {0}) (probe_device p now serial actions w).0
  probe_device-Returns serial actions w =
      elim (Bool-cases (any (λ a. is_android a.action_type) actions)) [
        | inl e ↦ unfold probe_device in rw (e, probe_device) (probe_authorized-Returns serial w)
        | inr e ↦ unfold probe_device in rw (e, probe_device) tt
      ]

  module _ (r : SessionRecord) (valid : validate_session_id r.session_id ≡ ok r.session_id)
      (w : World D) (here : find_session r.session_id w.repository.sessions ≡ some r) where
    run_cleanup-Returns :
        Returns
          (λ (result : CleanupResult).
            reported result.actions ≡ ids (unsettled (reverse r.cleanup_actions)))
          (run_cleanup p now r w).0
    unfolding run_cleanup
    run_cleanup-Returns =
        rw (set_status_lem r.session_id r w.repository valid here now cleaning null none).0 (
          continue-Returns (λ _. Unit {0}) _ (probed p now r valid w).0 _ _
            (probe_device-Returns r.serial (unsettled r.cleanup_actions) _)
            λ not_ready _ _.
              continue-Returns
                (λ results. reported results ≡ ids (unsettled (reverse r.cleanup_actions))) _
                (ran p now r valid w not_ready).0 _ _
                (run_actions-Returns p contained now r valid not_ready
                  (unsettled (reverse r.cleanup_actions)) (probed p now r valid w).1
                  ((Evolves-probed p now r valid w).own ∙ ap identity? here)
                  (All-filter _ _ (reverse r.cleanup_actions)
                    (All-reverse _ r.cleanup_actions (All-listed r.cleanup_actions))))
                λ results _ same.
                  let (final, found) = stored-ran p now r valid w here not_ready in
                  rw
                    (finish_cleanup_lem p now r.session_id valid results
                      (ran p now r valid w not_ready).1 final found)
                    same)

    Returns-either :
        Returns
          (λ (result : CleanupResult).
            reported result.actions ≡ ids (unsettled (reverse r.cleanup_actions)))
          (if at_rest r then (ok (nothing_to_do r.session_id), w) else run_cleanup p now r w).0
    unfolding is_cleaned
    Returns-either = elim (Bool-cases (at_rest r)) [
      | inl e ↦ rw e (sym (ap ids (unsettled-eq-nil r (ground arith))))
      | inr e ↦ rw e run_cleanup-Returns
    ]

  -- Where the platform raises only errors that the executor catches, the cleanup of a stored
  -- session returns: no error of an action ends it. Its result has one report for each action of
  -- the ledger that was not settled, the newest first.
  pub cleanup-Returns :
      (session_id : String) (r : SessionRecord) (w : World D)
      → Loaded session_id r w.repository
      → Returns
          (λ (result : CleanupResult).
            reported result.actions ≡ ids (unsettled (reverse r.cleanup_actions)))
          (cleanup_locked p now session_id w).0
  cleanup-Returns session_id r w l =
      rw (cleanup_locked_lem p now session_id w r (load_lem session_id w.repository l))
        (Returns-either r (validate_session_id_again session_id l.key) w l.stored)
