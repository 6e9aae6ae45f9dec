-- ===== src/Cleanup/RolledBack.antt =====
-- The status that a rollback stores and reports.
use mathlib.Core.List.{reverse}
use mathlib.Core.Path.{subst}
use android_appsec_assessor.Prelude.{
  String, Bool, ◌≡◌, ap, sym, ◌∙◌, List, arith, Bool-cases, inl, inr, false, filter, none, some,
  if◌then◌else◌,
}
use android_appsec_assessor.Errors.{Result, ok}
use android_appsec_assessor.Exec.{Exec, pure, ◌>>=◌, continue-eq-ok}
use android_appsec_assessor.Validation.{validate_session_id}
use android_appsec_assessor.Validation.Idempotence.{validate_session_id_again}
use android_appsec_assessor.Json.{null, bool, Fields}
use android_appsec_assessor.Session.{SessionRecord, active, cleanup_required, pending_cleanup}
use android_appsec_assessor.Session.Repository.{
  Repository, find_session, put_session, load, with_status, append_event,
}
use android_appsec_assessor.Session.Effects.{
  load_inv, load_frame, set_status_lem, find_session-put_self, session_id-find_session,
}
use android_appsec_assessor.Cleanup.{Platform, World, CleanupActionResult}
use android_appsec_assessor.Cleanup.Executor.{
  CleanupResult, on_repository, finish_rollback, roll_back, rollback_actions, run_actions,
  probe_device, unsettled, is_selected,
}
use android_appsec_assessor.Cleanup.Rollback.{sessions-append_event}

returned :
    {D : Type 0} {a b : CleanupResult} {w w' : World D}
    → ◌≡◌ {A = Result CleanupResult × World D} (ok a, w) (ok b, w')
    → b ≡ a
returned h = cc

some_inj : {a b : SessionRecord} → some a ≡ some b → a ≡ b
some_inj h = cc

-- The stored record agrees with the result of a rollback.
pub record IsRolledBack {D : Type 0} (k : String) (result : CleanupResult) (w : World D)
    : Type 0 where
  pub stored_record : SessionRecord
  pub stored : find_session k w.repository.sessions ≡ some stored_record
  pub same_status : result.status ≡ stored_record.status
  pub decided :
      stored_record.status ≡ (if pending_cleanup stored_record then cleanup_required else active)

module _ {D : Type 0} (p : Platform D) (now k : String) (valid : validate_session_id k ≡ ok k) where
  -- The record with the last status of a rollback.
  abbrev rolled : SessionRecord → SessionRecord
  rolled latest =
      if pending_cleanup latest
      then with_status now cleanup_required (bool false)
          (some "Transactional rollback left pending cleanup work.") latest
      else with_status now active null none latest

  rolled_status :
      (latest : SessionRecord)
      → (rolled latest).status
        ≡ (if pending_cleanup (rolled latest) then cleanup_required else active)
  unfolding pending_cleanup
  rolled_status latest = ground arith

  rolled_id : (latest : SessionRecord) → (rolled latest).session_id ≡ latest.session_id
  rolled_id latest = ground arith

  module _ (latest : SessionRecord) (w : World D)
      (here : find_session k w.repository.sessions ≡ some latest) where
    sessions-finish_rollback :
        (finish_rollback p now k latest w).1.repository.sessions
        ≡ put_session (rolled latest) w.repository.sessions
    unfolding finish_rollback
    sessions-finish_rollback = elim (Bool-cases (pending_cleanup latest)) [
      | inl e ↦
          rw e
            (set_status_lem k latest w.repository valid here now cleanup_required (bool false)
              (some "Transactional rollback left pending cleanup work.")).1
      | inr e ↦ rw e (set_status_lem k latest w.repository valid here now active null none).1
    ]

    rolled_stored :
        (details : Fields)
        → find_session k
            (append_event now k "transaction_rollback" details
              (finish_rollback p now k latest w).1.repository).1.sessions
          ≡ some (rolled latest)
    rolled_stored details = rw sessions-append_event (
        rw sessions-finish_rollback (
          find_session-put_self k (rolled latest) w.repository.sessions
            (rolled_id latest ∙ session_id-find_session k w.repository.sessions here)))

  -- A record that was loaded is the stored one.
  found_here :
      (s : Repository) {r : SessionRecord}
      → (load k s).0 ≡ ok r
      → find_session k s.sessions ≡ some r
  found_here s {r} h =
      let loaded : load k s ≡ (ok r, s) = λ i. (h i, load_frame k s i) in
      let (l, _) = load_inv k s loaded in
      subst (λ j. find_session j s.sessions ≡ some r) (cc (valid, l.key)) l.stored

  -- The end of a rollback from the record that its actions left.
  abbrev ending :
      Bool → List CleanupActionResult → Fields → SessionRecord → Exec (World D) CleanupResult
  ending success results details latest = finish_rollback p now k latest >>= λ u.
      (on_repository (append_event now k "transaction_rollback" details) >>= λ v.
      (on_repository (load k) >>= λ final.
      pure
        (record { session_id = k; success = success; status = final.status; actions = results })))

  ending-IsRolledBack :
      (success : Bool) (results : List CleanupActionResult) (details : Fields)
      (latest : SessionRecord) (w : World D)
      → {result : CleanupResult} {w' : World D} → find_session k w.repository.sessions ≡ some latest
      → ending success results details latest w ≡ (ok result, w')
      → IsRolledBack k result w'
  ending-IsRolledBack success results details latest w {result} {w'} here h =
      let (u, a₁, h₁) = continue-eq-ok (finish_rollback p now k latest w).0 _ _ h in
      let s₁ : Repository = (finish_rollback p now k latest w).1.repository in
      let (v, a₂, h₂) =
        continue-eq-ok (append_event now k "transaction_rollback" details s₁).0 _ _ h₁ in
      let s₂ : Repository = (append_event now k "transaction_rollback" details s₁).1 in
      let (final, a₃, h₃) = continue-eq-ok (load k s₂).0 _ _ h₂ in
      let at_end : find_session k s₂.sessions ≡ some (rolled latest) =
        rolled_stored latest w here details in
      let same : final ≡ rolled latest = some_inj (sym (found_here s₂ a₃) ∙ at_end) in
      record {
        stored_record = rolled latest;
        stored =
            subst (λ (x : World D). find_session k x.repository.sessions ≡ some (rolled latest))
              (ap (λ (x : Result CleanupResult × World D). x.1) h₃) (rw load_frame at_end);
        same_status =
            ap (λ (x : CleanupResult). x.status) (returned h₃)
            ∙ ap (λ (x : SessionRecord). x.status) same;
        decided = rolled_status latest;
      }

module _ {D : Type 0} (p : Platform D) (now : String) where
  roll_back-IsRolledBack :
      (action_ids : List String) (initial : SessionRecord)
      → validate_session_id initial.session_id ≡ ok initial.session_id
      → (w : World D) {result : CleanupResult} {w' : World D}
      → roll_back p now action_ids initial w ≡ (ok result, w')
      → IsRolledBack initial.session_id result w'
  unfolding roll_back
  roll_back-IsRolledBack action_ids initial valid w h =
      let k = initial.session_id in
      let selected = unsettled (filter (is_selected action_ids) initial.cleanup_actions) in
      let (not_ready, a₁, h₁) =
        continue-eq-ok (probe_device p now initial.serial selected w).0 _ _ h in
      let w₁ : World D = (probe_device p now initial.serial selected w).1 in
      let (results, a₂, h₂) =
        continue-eq-ok (run_actions p now initial not_ready (reverse selected) w₁).0 _ _ h₁ in
      let w₂ : World D = (run_actions p now initial not_ready (reverse selected) w₁).1 in
      let (latest, a₃, h₃) = continue-eq-ok (load k w₂.repository).0 _ _ h₂ in
      let w₃ : World D = (on_repository (load k) w₂).1 in
      ending-IsRolledBack p now k valid _ results _ latest w₃
        (rw load_frame (found_here p now k valid w₂.repository a₃)) h₃

  -- For an accepted session identifier, a rollback that returns has stored the status that it
  -- reports: `cleanup_required` where an action of the stored ledger is pending, and `active` where
  -- none is.
  pub rollback_actions-IsRolledBack :
      (session_id : String) (action_ids : List String) (w : World D) {k : String}
      → {result : CleanupResult} {w' : World D} → validate_session_id session_id ≡ ok k
      → rollback_actions p now session_id action_ids w ≡ (ok result, w')
      → IsRolledBack k result w'
  unfolding rollback_actions
  rollback_actions-IsRolledBack session_id action_ids w {k} {result} {w'} valid h =
      let (initial, good, h₁) = continue-eq-ok (load session_id w.repository).0 _ _ h in
      let (l, _) =
        load_inv session_id w.repository (λ i. (good i, load_frame session_id w.repository i)) in
      let same : initial.session_id ≡ k = cc (valid, l.key) in
      subst (λ j. IsRolledBack j result w') same
        (roll_back-IsRolledBack action_ids initial (validate_session_id_again session_id l.key) _
          h₁)
