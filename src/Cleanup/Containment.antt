-- ===== src/Cleanup/Containment.antt =====
-- A run over a ledger keeps what every update keeps, and an expected error of one action ends
-- neither the run nor the ledger's record of it.
use android_appsec_assessor.Prelude.{
  Option-cases, Bool-cases, inl, inr, String, ◌≡◌, Option, none, some, List, [], ◌∷◌, if◌then◌else◌,
}
use android_appsec_assessor.Errors.{Error, ok, is_conflict, is_expected}
use android_appsec_assessor.Exec.{OnSome, continue_keeps, caught_keeps}
use android_appsec_assessor.Validation.{validate_session_id}
use android_appsec_assessor.Session.{
  CleanupActionStatus, conflict, failed, CleanupAction, SessionRecord,
}
use android_appsec_assessor.Session.Repository.{Repository, update_cleanup_action}
use android_appsec_assessor.Session.Evolution.{
  Evolves, Evolves-refl, Evolves-trans, Evolves-update_cleanup_action,
}
use android_appsec_assessor.Cleanup.{Platform, World}
use android_appsec_assessor.Cleanup.Actions.{execute}
use android_appsec_assessor.Cleanup.Executor.{
  is_android, settle, on_error, try_action, attempt, run_action, run_actions,
}

module _ {D : Type 0} (p : Platform D) (now : String) (r : SessionRecord)
    (valid : validate_session_id r.session_id ≡ ok r.session_id) (not_ready : Option String) where
  -- The repository after one action, returned or raised.
  Evolves-try_action :
      (a : CleanupAction) (w : World D)
      → Evolves r.session_id w.repository (try_action p now r a w).1.repository
  unfolding try_action
  Evolves-try_action a w =
      continue_keeps (λ (w' : World D). Evolves r.session_id w.repository w'.repository)
        (execute p r a w.device).0 _ _ (Evolves-refl _ _)
        λ status e.
          continue_keeps (λ (w' : World D). Evolves r.session_id w.repository w'.repository)
            (update_cleanup_action now r.session_id a.action_id status none w.repository).0 _ _
            (Evolves-update_cleanup_action r.session_id valid now w.repository a.action_id status
              none)
            λ b e'.
              Evolves-update_cleanup_action r.session_id valid now w.repository a.action_id status
                none

  pub Evolves-attempt :
      (a : CleanupAction) (w : World D)
      → Evolves r.session_id w.repository (attempt p now r not_ready a w).1.repository
  unfolding attempt
  Evolves-attempt a w = elim (Option-cases (if is_android a.action_type then not_ready else none)) [
    | inl e ↦ rw (e, attempt) (Evolves-try_action a w)
    | inr (m, e) ↦ rw (e, attempt) (Evolves-refl r.session_id w.repository)
  ]

  -- Either handler settles the action by one update.
  Evolves-settle :
      (a : CleanupAction) (status : CleanupActionStatus) (e : Error) (w : World D)
      → Evolves r.session_id w.repository (settle p now r a status e w).1.repository
  Evolves-settle a status e w =
      continue_keeps (λ (w' : World D). Evolves r.session_id w.repository w'.repository)
        (update_cleanup_action now r.session_id a.action_id status (some (p.note e)) w.repository).0
        _ _
        (Evolves-update_cleanup_action r.session_id valid now w.repository a.action_id status
          (some (p.note e)))
        λ b e'.
          Evolves-update_cleanup_action r.session_id valid now w.repository a.action_id status
            (some (p.note e))

  Evolves-on_error :
      (a : CleanupAction) (e : Error) (s : Repository) (w : World D)
      → Evolves r.session_id s w.repository
      → OnSome (λ m. Evolves r.session_id s (m w).1.repository) (on_error p now r a e)
  Evolves-on_error a e s w t = elim (Bool-cases (is_conflict e.kind)) [
    | inl c ↦ rw c (Evolves-trans t (Evolves-settle a conflict e w))
    | inr c ↦ rw c (elim (Bool-cases (is_expected e.kind)) [
      | inl x ↦ rw x (Evolves-trans t (Evolves-settle a failed e w))
      | inr x ↦ rw x tt
    ])
  ]

  pub Evolves-run_action :
      (a : CleanupAction) (w : World D)
      → Evolves r.session_id w.repository (run_action p now r not_ready a w).1.repository
  unfolding run_action
  Evolves-run_action a w =
      caught_keeps (λ (w' : World D). Evolves r.session_id w.repository w'.repository)
        (attempt p now r not_ready a w).0 (on_error p now r a) (attempt p now r not_ready a w).1
        (Evolves-attempt a w)
        λ e _.
          Evolves-on_error a e w.repository (attempt p now r not_ready a w).1 (Evolves-attempt a w)

  pub Evolves-run_actions :
      (actions : List CleanupAction) (w : World D)
      → Evolves r.session_id w.repository (run_actions p now r not_ready actions w).1.repository
  unfolding run_actions
  Evolves-run_actions [] w = Evolves-refl r.session_id w.repository
  Evolves-run_actions (a ∷ rest) w =
      continue_keeps (λ (w' : World D). Evolves r.session_id w.repository w'.repository)
        (run_action p now r not_ready a w).0 _ _ (Evolves-run_action a w)
        λ result e.
          continue_keeps (λ (w' : World D). Evolves r.session_id w.repository w'.repository)
            (run_actions p now r not_ready rest (run_action p now r not_ready a w).1).0 _ _
            (Evolves-trans (Evolves-run_action a w) (Evolves-run_actions rest _))
            λ results e'. Evolves-trans (Evolves-run_action a w) (Evolves-run_actions rest _)
