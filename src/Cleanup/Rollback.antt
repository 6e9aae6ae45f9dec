-- ===== src/Cleanup/Rollback.antt =====
-- What a rollback keeps, whether it returns or raises.
use mathlib.Core.List.{reverse}
use mathlib.Core.Path.{subst}
use android_appsec_assessor.Prelude.{
  String, ◌≡◌, List, arith, Bool-cases, inl, inr, filter, refl, none, some, false,
}
use android_appsec_assessor.Errors.{ok, Result-cases}
use android_appsec_assessor.Exec.{Exec, ◌>>=◌, continue_keeps}
use android_appsec_assessor.Validation.{validate_session_id}
use android_appsec_assessor.Validation.Idempotence.{validate_session_id_again}
use android_appsec_assessor.Json.{null, bool, Fields}
use android_appsec_assessor.Session.{
  SessionRecord, active, cleanup_required, pending_cleanup, CleanupAction,
}
use android_appsec_assessor.Session.Repository.{Repository, load, append_event}
use android_appsec_assessor.Session.Evolution.{
  Evolves, Evolves-refl, Evolves-trans, Evolves-set_status,
}
use android_appsec_assessor.Session.Effects.{load_inv, load_frame}
use android_appsec_assessor.Cleanup.{Platform, World}
use android_appsec_assessor.Cleanup.Executor.{
  on_repository, finish_rollback, roll_back, rollback_actions, run_actions, probe_device, unsettled,
  is_selected,
}
use android_appsec_assessor.Cleanup.Containment.{Evolves-run_actions}
use android_appsec_assessor.Cleanup.Report.{repository-probe_device}

-- An event leaves the stored sessions.
pub sessions-append_event :
    (now k event : String) (details : Fields) (s : Repository)
    → (append_event now k event details s).1.sessions ≡ s.sessions
unfolding append_event
sessions-append_event now k event details s = ground arith

Evolves-append_event :
    (now k event : String) (details : Fields) (s : Repository)
    → Evolves k s (append_event now k event details s).1
Evolves-append_event now k event details s = record {
  others = λ j h. rw sessions-append_event refl;
  own = rw sessions-append_event refl;
}

module _ {D : Type 0} (p : Platform D) (now : String) where
  Evolves-finish_rollback :
      (k : String) (latest : SessionRecord) (w : World D)
      → validate_session_id k ≡ ok k
      → Evolves k w.repository (finish_rollback p now k latest w).1.repository
  unfolding finish_rollback
  Evolves-finish_rollback k latest w valid = elim (Bool-cases (pending_cleanup latest)) [
    | inl e ↦ rw e (
        Evolves-set_status k valid now w.repository cleanup_required (bool false)
          (some "Transactional rollback left pending cleanup work."))
    | inr e ↦ rw e (Evolves-set_status k valid now w.repository active null none)
  ]

  module _ (action_ids : List String) (initial : SessionRecord)
      (valid : validate_session_id initial.session_id ≡ ok initial.session_id) (w : World D) where
    abbrev k : String
    k = initial.session_id

    abbrev Keeps : World D → Type 0
    Keeps w' = Evolves k w.repository w'.repository

    abbrev selected : List CleanupAction
    selected = unsettled (filter (is_selected action_ids) initial.cleanup_actions)

    -- One call after another.
    Keeps-bind :
        {A B : Type 0} (m : Exec (World D) A) (f : A → Exec (World D) B) (w₁ : World D)
        → Keeps w₁
        → Evolves k w₁.repository (m w₁).1.repository
        → ((a : A) (w₂ : World D) → Keeps w₂ → Keeps (f a w₂).1)
        → Keeps ((m >>= f) w₁).1
    Keeps-bind m f w₁ before step next =
        let t : Keeps (m w₁).1 = Evolves-trans before step in
        continue_keeps Keeps (m w₁).0 f (m w₁).1 t λ a _. next a (m w₁).1 t

    Evolves-load : (w₁ : World D) → Evolves k w₁.repository (on_repository (load k) w₁).1.repository
    Evolves-load w₁ = rw load_frame (Evolves-refl k w₁.repository)

    Evolves-probe :
        (w₁ : World D)
        → Evolves k w₁.repository (probe_device p now initial.serial selected w₁).1.repository
    Evolves-probe w₁ = rw repository-probe_device (Evolves-refl k w₁.repository)

    Keeps-rolled : (w₁ : World D) → Keeps w₁ → Keeps (roll_back p now action_ids initial w₁).1
    unfolding roll_back
    Keeps-rolled w₁ before =
        Keeps-bind (probe_device p now initial.serial selected) _ w₁ before (Evolves-probe w₁)
          λ not_ready w₂ h₂.
            Keeps-bind (run_actions p now initial not_ready (reverse selected)) _ w₂ h₂
              (Evolves-run_actions p now initial valid not_ready (reverse selected) w₂)
              λ results w₃ h₃.
                Keeps-bind (on_repository (load k)) _ w₃ h₃ (Evolves-load w₃) λ latest w₄ h₄.
                  Keeps-bind (finish_rollback p now k latest) _ w₄ h₄
                    (Evolves-finish_rollback k latest w₄ valid)
                    λ u w₅ h₅.
                      Keeps-bind (on_repository (append_event now k "transaction_rollback" _)) _ w₅
                        h₅ (Evolves-append_event now k "transaction_rollback" _ w₅.repository)
                        λ v w₆ h₆.
                          Keeps-bind (on_repository (load k)) _ w₆ h₆ (Evolves-load w₆)
                            λ final w₇ h₇. h₇

  -- For an accepted session identifier, whether it returns or raises, and whatever the device does,
  -- a rollback leaves every other session as it was, and of its own session the identifiers and the
  -- entries of the ledger: none is lost, added, reordered, or given another type or payload.
  pub rollback_actions-Evolves :
      (session_id : String) (action_ids : List String) (w : World D) {k : String}
      → validate_session_id session_id ≡ ok k
      → Evolves k w.repository (rollback_actions p now session_id action_ids w).1.repository
  unfolding rollback_actions
  rollback_actions-Evolves session_id action_ids w {k} valid =
      elim (Result-cases (load session_id w.repository).0) [
        | inr (e, bad) ↦ rw bad (rw load_frame (Evolves-refl k w.repository))
        | inl (initial, good) ↦
            let loaded : load session_id w.repository ≡ (ok initial, w.repository) =
              λ i. (good i, load_frame session_id w.repository i) in
            let (l, _) = load_inv session_id w.repository loaded in
            let same : initial.session_id ≡ k = cc (valid, l.key) in
            subst
              (λ j.
                Evolves j w.repository
                  (rollback_actions p now session_id action_ids w).1.repository)
              same
              (rw good (
                rw load_frame (
                  Keeps-rolled action_ids initial (validate_session_id_again session_id l.key) w w
                    (Evolves-refl _ _))))
      ]
