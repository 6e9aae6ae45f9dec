-- ===== src/Cleanup/Preservation.antt =====
-- What no cleanup changes: the other sessions, and the entries of its own ledger.
use mathlib.Core.Path.{subst}
use android_appsec_assessor.Prelude.{none, String, ◌≡◌, Bool-cases, inl, inr, List, if◌then◌else◌}
use android_appsec_assessor.Errors.{ok, Result-cases}
use android_appsec_assessor.Exec.{continue_keeps}
use android_appsec_assessor.Validation.{validate_session_id}
use android_appsec_assessor.Validation.Idempotence.{validate_session_id_again}
use android_appsec_assessor.Json.{null, bool}
use android_appsec_assessor.Session.{SessionRecord, cleaning}
use android_appsec_assessor.Session.Repository.{Repository, load, set_status}
use android_appsec_assessor.Session.Evolution.{
  Evolves, Evolves-refl, Evolves-trans, Evolves-set_status,
}
use android_appsec_assessor.Session.Effects.{load_inv, load_frame}
use android_appsec_assessor.Cleanup.{Platform, World, CleanupActionResult}
use android_appsec_assessor.Cleanup.Executor.{
  finish_cleanup, run_cleanup, cleanup_locked, all_settled, verdict_status, failure_text,
}
use android_appsec_assessor.Cleanup.Report.{
  cleanup_locked_lem, Evolves-probed, Evolves-ran, probed, ran, at_rest, nothing_to_do,
}

module _ {D : Type 0} (p : Platform D) (now : String) where
  Evolves-finish_cleanup :
      (k : String) (results : List CleanupActionResult) (s : Repository) (w : World D)
      → validate_session_id k ≡ ok k
      → Evolves k s w.repository
      → Evolves k s (finish_cleanup p now k results w).1.repository
  unfolding finish_cleanup
  Evolves-finish_cleanup k results s w valid before = rw load_frame (
      continue_keeps (λ (w' : World D). Evolves k s w'.repository) (load k w.repository).0 _ w
        before
        λ final _.
          let success = all_settled final in
          let t = Evolves-trans before (
            Evolves-set_status k valid now w.repository (verdict_status success) (bool success)
              (failure_text success)) in
          continue_keeps (λ (w' : World D). Evolves k s w'.repository)
            (set_status now k (verdict_status success) (bool success) (failure_text success)
              w.repository).0
            _ _ t λ u _. t)

  module _ (initial : SessionRecord)
      (valid : validate_session_id initial.session_id ≡ ok initial.session_id) (w : World D) where
    Evolves-run_cleanup :
        Evolves initial.session_id w.repository (run_cleanup p now initial w).1.repository
    unfolding run_cleanup
    Evolves-run_cleanup =
        continue_keeps (λ (w' : World D). Evolves initial.session_id w.repository w'.repository)
          (set_status now initial.session_id cleaning null none w.repository).0 _ _
          (Evolves-set_status initial.session_id valid now w.repository cleaning null none)
          λ u _.
            continue_keeps (λ (w' : World D). Evolves initial.session_id w.repository w'.repository)
              (probed p now initial valid w).0 _ _ (Evolves-probed p now initial valid w)
              λ not_ready _.
                continue_keeps
                  (λ (w' : World D). Evolves initial.session_id w.repository w'.repository)
                  (ran p now initial valid w not_ready).0 _ _
                  (Evolves-ran p now initial valid w not_ready)
                  λ results _.
                    Evolves-finish_cleanup initial.session_id results w.repository _ valid
                      (Evolves-ran p now initial valid w not_ready)

    Evolves-either :
        Evolves initial.session_id w.repository
          (if at_rest initial
            then (ok (nothing_to_do initial.session_id), w)
            else run_cleanup p now initial w).1.repository
    Evolves-either = elim (Bool-cases (at_rest initial)) [
      | inl e ↦ rw e (Evolves-refl _ _)
      | inr e ↦ rw e Evolves-run_cleanup
    ]

  -- For an accepted session identifier, whether it returns or raises, and whatever the device does,
  -- a cleanup leaves every other session as it was, and of its own session the identifiers and the
  -- entries of the ledger: none is lost, added, reordered, or given another type or payload.
  pub cleanup-Evolves :
      (session_id : String) (w : World D) {k : String}
      → validate_session_id session_id ≡ ok k
      → Evolves k w.repository (cleanup_locked p now session_id w).1.repository
  cleanup-Evolves session_id w {k} valid = elim (Result-cases (load session_id w.repository).0) [
    | inr (e, bad) ↦ unfold cleanup_locked in rw bad (rw load_frame (Evolves-refl k w.repository))
    | inl (initial, good) ↦
        let loaded : load session_id w.repository ≡ (ok initial, w.repository) =
          λ i. (good i, load_frame session_id w.repository i) in
        let (l, _) = load_inv session_id w.repository loaded in
        let same : initial.session_id ≡ k = cc (valid, l.key) in
        subst (λ j. Evolves j w.repository (cleanup_locked p now session_id w).1.repository) same
          (rw (cleanup_locked_lem p now session_id w initial loaded)
            (Evolves-either initial (validate_session_id_again session_id l.key) w))
  ]
