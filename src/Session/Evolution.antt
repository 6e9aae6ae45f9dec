-- ===== src/Session/Evolution.antt =====
-- How a session's record may change: its identity and the entries of its ledger stay, and the
-- other sessions stay as they were.
use android_appsec_assessor.Prelude.{
  String, true, false, ◌≡◌, refl, ◌∙◌, Option, none, some, List, map, arith, ◌=ₛ◌, eq_iff, inl, inr,
  Option-cases, ap,
}
use android_appsec_assessor.Errors.{ok}
use android_appsec_assessor.Validation.{validate_session_id}
use android_appsec_assessor.Json.{Value}
use android_appsec_assessor.Session.{
  SessionStatus, CleanupActionStatus, CleanupAction, SessionRecord,
}
use android_appsec_assessor.Session.Repository.{
  Repository, put_session, find_session, set_status, update_cleanup_action, update_matching,
  attempted, with_status,
}
use android_appsec_assessor.Session.Ledger.{
  Entry, entry, has_entry, entries-update_matching, update_matching-ne-none,
}
use android_appsec_assessor.Session.Effects.{
  find_session-put_session, session_id-find_session, set_status_lem, load_missing,
  update_cleanup_action_lem, update_cleanup_action_missing,
}

pub record Identity : Type 0 where
  pub session_id : String
  pub serial : String
  pub package_name : String
  pub entries : List Entry

abbrev pub identity : SessionRecord → Identity
identity r = record {
  session_id = r.session_id;
  serial = r.serial;
  package_name = r.package_name;
  entries = map entry r.cleanup_actions;
}

abbrev pub identity? : Option SessionRecord → Option Identity
identity? none = none
identity? (some r) = some (identity r)

pub record Evolves (k : String) (s s' : Repository) : Type 0 where
  pub others :
      (j : String) → (k =ₛ j) ≡ false → find_session j s'.sessions ≡ find_session j s.sessions
  pub own : identity? (find_session k s'.sessions) ≡ identity? (find_session k s.sessions)

pub Evolves-refl : (k : String) (s : Repository) → Evolves k s s
Evolves-refl k s = record { others = λ j h. refl; own = refl }

pub Evolves-trans :
    {k : String} {s t u : Repository} → Evolves k s t → Evolves k t u → Evolves k s u
Evolves-trans a b = record { others = λ j h. b.others j h ∙ a.others j h; own = b.own ∙ a.own }

-- Storing a record of the same identity.
Evolves-put :
    (k : String) (r f : SessionRecord) (s s' : Repository)
    → find_session k s.sessions ≡ some r
    → identity f ≡ identity r
    → s'.sessions ≡ put_session f s.sessions
    → Evolves k s s'
Evolves-put k r f s s' stored same put =
    let key : f.session_id ≡ k =
      ap (λ (i : Identity). i.session_id) same ∙ session_id-find_session k s.sessions stored in
    record {
      others = λ j h. rw put (ground (arith, find_session-put_session j f s.sessions, key));
      own =
          rw put
            (ground (arith, find_session-put_session k f s.sessions, key, eq_iff f.session_id k));
    }

module _ (k : String) (valid : validate_session_id k ≡ ok k) (now : String) (s : Repository) where
  -- Setting a status, whether it returns or raises.
  pub Evolves-set_status :
      (status : SessionStatus) (success : Value) (failure : Option String)
      → Evolves k s (set_status now k status success failure s).1
  Evolves-set_status status success failure = elim (Option-cases (find_session k s.sessions)) [
    | inl missing ↦ unfold set_status in rw (load_missing k s valid missing) (Evolves-refl k s)
    | inr (r, stored) ↦
        Evolves-put k r (with_status now status success failure r) s _ stored refl
          (set_status_lem k r s valid stored now status success failure).1
  ]

  -- Where the record is stored, an update stores a ledger with the same entries, or nothing.
  module _ (r : SessionRecord) (stored : find_session k s.sessions ≡ some r) (action_id : String)
      (status : CleanupActionStatus) (failure : Option String) where
    abbrev updated : Option CleanupAction × List CleanupAction
    updated = update_matching action_id (attempted now status failure) r.cleanup_actions

    same_entries : map entry updated.1 ≡ map entry r.cleanup_actions
    same_entries =
        entries-update_matching action_id (attempted now status failure) (λ a. refl)
          r.cleanup_actions

    Evolves-update_stored : Evolves k s (update_cleanup_action now k action_id status failure s).1
    Evolves-update_stored = elim (Option-cases updated.0) [
      | inl absent ↦
          rw
            (update_cleanup_action_missing k r s valid stored now action_id status failure updated.1
              (λ i. (absent i, updated.1)))
            (Evolves-refl k s)
      | inr (b, found) ↦
          Evolves-put k r (record r { cleanup_actions = updated.1; updated_at = now }) s _ stored
            (λ i. record {
              session_id = r.session_id;
              serial = r.serial;
              package_name = r.package_name;
              entries = same_entries i;
            })
            (update_cleanup_action_lem k r s valid stored now action_id status failure b updated.1
              (λ i. (found i, updated.1))).1
    ]

    -- The update of an action that the ledger has does not raise.
    pub update_cleanup_action_ok :
        has_entry action_id (map entry r.cleanup_actions) ≡ true
        → (b : CleanupAction) × ((update_cleanup_action now k action_id status failure s).0 ≡ ok b)
    update_cleanup_action_ok h = elim (Option-cases updated.0) [
      | inl absent ↦ absurd (
          update_matching-ne-none action_id (attempted now status failure) r.cleanup_actions h
            absent)
      | inr (b, found) ↦ (
        b,
        (update_cleanup_action_lem k r s valid stored now action_id status failure b updated.1
            (λ i. (found i, updated.1))).0,
      )
    ]

  -- Updating an action, whether it returns or raises.
  pub Evolves-update_cleanup_action :
      (action_id : String) (status : CleanupActionStatus) (failure : Option String)
      → Evolves k s (update_cleanup_action now k action_id status failure s).1
  Evolves-update_cleanup_action action_id status failure =
      elim (Option-cases (find_session k s.sessions)) [
        | inl missing ↦
            unfold update_cleanup_action in rw (load_missing k s valid missing) (Evolves-refl k s)
        | inr (r, stored) ↦ Evolves-update_stored r stored action_id status failure
      ]
