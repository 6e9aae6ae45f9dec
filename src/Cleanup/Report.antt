-- ===== src/Cleanup/Report.antt =====
-- What `cleanup` reports is what it stores: its verdict, its status, and a ledger with no action
-- left behind a success.
use mathlib.Core.Path.{subst, subst₂}
use mathlib.Core.List.{reverse}
use android_appsec_assessor.Prelude.{
  String, Bool, true, not, ◌&&◌, ◌≡◌, refl, ap, sym, ◌∙◌, Option, none, some, List, [], arith,
  if◌then◌else◌, Bool-cases, inl, inr,
}
use android_appsec_assessor.Errors.{Result, ok}
use android_appsec_assessor.Exec.{continue-eq-ok}
use android_appsec_assessor.Validation.{validate_session_id}
use android_appsec_assessor.Validation.Idempotence.{validate_session_id_again}
use android_appsec_assessor.Json.{null}
use android_appsec_assessor.Session.{
  cleaning, cleaned, CleanupAction, SessionRecord, pending_cleanup, is_cleaned,
}
use android_appsec_assessor.Session.Repository.{find_session, load, set_status}
use android_appsec_assessor.Session.Effects.{load_inv, load_frame}
use android_appsec_assessor.Session.Evolution.{
  Evolves, Evolves-trans, Evolves-set_status, Identity, identity?,
}
use android_appsec_assessor.Cleanup.Containment.{Evolves-run_actions}
use android_appsec_assessor.Cleanup.Verdict.{Agrees, Agrees-returned}
use android_appsec_assessor.Cleanup.{Platform, World, CleanupActionResult}
use android_appsec_assessor.Cleanup.Executor.{
  CleanupResult, unsettled, probe_device, probe_authorized, run_actions, run_cleanup,
  cleanup_locked,
}

stored-of_identity :
    (o : Option SessionRecord) {i : Identity}
    → identity? o ≡ some i
    → (r : SessionRecord) × (o ≡ some r)
stored-of_identity none h = cc
stored-of_identity (some r) h = (r, refl)

-- The session is cleaned and nothing is pending.
abbrev pub at_rest : SessionRecord → Bool
at_rest r = is_cleaned r.status && not (pending_cleanup r)

abbrev pub nothing_to_do : String → CleanupResult
nothing_to_do k = record { session_id = k; success = true; status = cleaned; actions = [] }

module _ {D : Type 0} (p : Platform D) (now : String) where
  pub repository-probe_device :
      (serial : String) (actions : List CleanupAction) (w : World D)
      → (probe_device p now serial actions w).1.repository ≡ w.repository
  unfolding probe_device probe_authorized
  repository-probe_device serial actions w = ground arith

  module _ (initial : SessionRecord)
      (valid : validate_session_id initial.session_id ≡ ok initial.session_id) (w : World D) where
    -- The world after the status `cleaning` and the probe of the device.
    abbrev pub probed : Result (Option String) × World D
    probed = probe_device p now initial.serial (unsettled initial.cleanup_actions) (record w {
      repository = (set_status now initial.session_id cleaning null none w.repository).1;
    })

    pub Evolves-probed : Evolves initial.session_id w.repository probed.1.repository
    Evolves-probed =
        rw repository-probe_device
          (Evolves-set_status initial.session_id valid now w.repository cleaning null none)

    abbrev pub ran : Option String → Result (List CleanupActionResult) × World D
    ran not_ready =
        run_actions p now initial not_ready (unsettled (reverse initial.cleanup_actions)) probed.1

    pub Evolves-ran :
        (not_ready : Option String)
        → Evolves initial.session_id w.repository (ran not_ready).1.repository
    Evolves-ran not_ready =
        Evolves-trans Evolves-probed (Evolves-run_actions p now initial valid not_ready _ _)

    -- The session is still stored where the verdict is taken.
    pub stored-ran :
        find_session initial.session_id w.repository.sessions ≡ some initial
        → (not_ready : Option String)
        → (final : SessionRecord) × (find_session initial.session_id
              (ran not_ready).1.repository.sessions
            ≡ some final)
    stored-ran here not_ready =
        stored-of_identity (find_session initial.session_id (ran not_ready).1.repository.sessions)
          ((Evolves-ran not_ready).own ∙ ap identity? here)

    Agrees-run_cleanup :
        {result : CleanupResult} {w' : World D}
        → find_session initial.session_id w.repository.sessions ≡ some initial
        → run_cleanup p now initial w ≡ (ok result, w')
        → Agrees initial.session_id result w'
    unfolding run_cleanup
    Agrees-run_cleanup {result} {w'} here h =
        let (u, set, h₁) =
          continue-eq-ok (set_status now initial.session_id cleaning null none w.repository).0 _ _
            h in
        let (not_ready, probe, h₂) = continue-eq-ok probed.0 _ _ h₁ in
        let (results, run, h₃) = continue-eq-ok (ran not_ready).0 _ _ h₂ in
        let (final, found) = stored-ran here not_ready in
        Agrees-returned p now initial.session_id valid results (ran not_ready).1 final found h₃

  -- Nothing pending and the status `cleaned` is agreement with a success.
  Agrees-at_rest :
      (r : SessionRecord) (w : World D)
      → find_session r.session_id w.repository.sessions ≡ some r
      → (is_cleaned r.status && not (pending_cleanup r)) ≡ true
      → Agrees r.session_id (nothing_to_do r.session_id) w
  unfolding is_cleaned
  Agrees-at_rest r w here rest = record {
    stored_record = r;
    stored = here;
    same_session = refl;
    same_status = ground arith;
    success_iff = ground arith;
    cleaned_iff = ground arith;
  }

  pub cleanup_locked_lem :
      (session_id : String) (w : World D) (initial : SessionRecord)
      → load session_id w.repository ≡ (ok initial, w.repository)
      → cleanup_locked p now session_id w ≡ (
          if at_rest initial
          then (ok (nothing_to_do initial.session_id), w)
          else run_cleanup p now initial w)
  unfolding cleanup_locked
  cleanup_locked_lem session_id w initial loaded =
      rw loaded (elim (Bool-cases (at_rest initial)) [ inl e ↦ rw e | inr e ↦ rw e ])

  cleanup_locked_loads :
      (session_id : String) (w : World D) {result : CleanupResult} {w' : World D}
      → cleanup_locked p now session_id w ≡ (ok result, w')
      → (initial : SessionRecord) × (load session_id w.repository ≡ (ok initial, w.repository))
  unfolding cleanup_locked
  cleanup_locked_loads session_id w h =
      let (initial, loaded, _) = continue-eq-ok (load session_id w.repository).0 _ _ h in
      (initial, λ i. (loaded i, load_frame session_id w.repository i))

  Agrees-cases :
      (initial : SessionRecord) (w : World D)
      → validate_session_id initial.session_id ≡ ok initial.session_id
      → find_session initial.session_id w.repository.sessions ≡ some initial
      → {result : CleanupResult} {w' : World D}
      → (if at_rest initial
          then (ok (nothing_to_do initial.session_id), w)
          else run_cleanup p now initial w)
        ≡ (ok result, w')
      → Agrees initial.session_id result w'
  Agrees-cases initial w valid here {result} {w'} h = elim (Bool-cases (at_rest initial)) [
    | inl e ↦
        let q : ◌≡◌ {A = Result CleanupResult × World D} (ok (nothing_to_do initial.session_id), w)
            (ok result, w') =
          rw e at h in
        let same : nothing_to_do initial.session_id ≡ result =
          cc (ap (λ (x : Result CleanupResult × World D). x.0) q) in
        subst₂ (λ x y. Agrees initial.session_id x y) same
          (ap (λ (x : Result CleanupResult × World D). x.1) q) (Agrees-at_rest initial w here e)
    | inr e ↦ Agrees-run_cleanup initial valid w here (rw e at h)
  ]

  -- For an accepted session identifier, whatever the device does and whatever the ledger holds, a
  -- cleanup that returns names the session and has stored, for it, the status that it reports:
  -- `cleaned` exactly where it reports success, and it reports success exactly where no action of
  -- the stored ledger is pending.
  pub cleanup-Agrees :
      (session_id : String) (w : World D) {k : String} {result : CleanupResult} {w' : World D}
      → validate_session_id session_id ≡ ok k
      → cleanup_locked p now session_id w ≡ (ok result, w')
      → Agrees k result w'
  cleanup-Agrees session_id w {k} {result} {w'} valid h =
      let (initial, loaded) = cleanup_locked_loads session_id w h in
      let (l, _) = load_inv session_id w.repository loaded in
      let same : initial.session_id ≡ k = cc (valid, l.key) in
      subst (λ j. Agrees j result w') same
        (Agrees-cases initial w (validate_session_id_again session_id l.key) l.stored
          (sym (cleanup_locked_lem session_id w initial loaded) ∙ h))
