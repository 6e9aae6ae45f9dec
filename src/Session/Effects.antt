-- ===== src/Session/Effects.antt =====
-- What the operations of the repository leave in the directory of each session.
use mathlib.Core.Path.{subst, sym}
use android_appsec_assessor.Prelude.{
  Option, none, false, ◌||◌, inl, inr, String, ◌≡◌, refl, some, List, [], ◌∷◌, arith, ◌=ₛ◌, eq_iff,
  if◌then◌else◌,
}
use android_appsec_assessor.Prelude.Text.{is_empty}
use android_appsec_assessor.Errors.{ok, err, fault, session_error, Result-cases}
use android_appsec_assessor.Validation.{validate_session_id}
use android_appsec_assessor.Json.{Value, Fields}
use android_appsec_assessor.Session.{
  SessionStatus, SessionRecord, CleanupAction, CleanupActionStatus,
}
use android_appsec_assessor.Session.Repository.{
  Repository, find_session, put_session, load_failure, load, save, set_status, append_event,
  with_status, logged, has_break, update_matching, attempted, update_cleanup_action, store_update,
}

-- A stored record is found under its own identifier, every other one where it was.
pub find_session-put_session :
    (j : String) (r : SessionRecord) (qs : List SessionRecord)
    → find_session j (put_session r qs) ≡ (if r.session_id =ₛ j then some r else find_session j qs)
unfolding find_session put_session
find_session-put_session j r [] = refl
find_session-put_session j r (q ∷ qs) = ground (
  arith,
  eq_iff q.session_id r.session_id,
  eq_iff q.session_id j,
  eq_iff r.session_id j,
  find_session-put_session j r qs,
)

pub find_session-put_self :
    (k : String) (r : SessionRecord) (qs : List SessionRecord)
    → r.session_id ≡ k
    → find_session k (put_session r qs) ≡ some r
find_session-put_self k r qs e =
    ground (arith, find_session-put_session k r qs, eq_iff r.session_id k)

-- What a call that returned says of the record that it loaded.
pub record Loaded (session_id : String) (r : SessionRecord) (s : Repository) : Type 0 where
  pub key : validate_session_id session_id ≡ ok r.session_id
  pub stored : find_session r.session_id s.sessions ≡ some r

pub session_id-find_session :
    (k : String) (rs : List SessionRecord) {r : SessionRecord}
    → find_session k rs ≡ some r
    → r.session_id ≡ k
unfolding find_session
session_id-find_session k [] h = cc
session_id-find_session k (q ∷ qs) {r} h = ground (
  arith,
  eq_iff q.session_id k,
  λ (e : find_session k qs ≡ some r). session_id-find_session k qs e,
)

module _ (session_id : String) (s : Repository) where
  -- A successful `load` changes nothing and returns what the directory holds.
  pub load_inv :
      {r : SessionRecord} {s' : Repository}
      → load session_id s ≡ (ok r, s')
      → Loaded session_id r s × (s' ≡ s)
  unfolding load
  load_inv {r} {s'} h = elim (Result-cases (validate_session_id session_id)) [
    | inr (e, bad) ↦ ground arith
    | inl (k, good) ↦
        let found : find_session k s.sessions ≡ some r = ground arith in
        let same : r.session_id ≡ k = session_id-find_session k s.sessions found in
        (record { key = cc; stored = cc }, ground arith)
  ]

  pub load_lem : {r : SessionRecord} → Loaded session_id r s → load session_id s ≡ (ok r, s)
  unfolding load
  load_lem h = ground (arith, h.key, h.stored)

  pub load_missing :
      {k : String}
      → validate_session_id session_id ≡ ok k
      → find_session k s.sessions ≡ none
      → load session_id s ≡ (err (load_failure k s.damaged), s)
  unfolding load
  load_missing v h = ground (arith, v, h)

  -- `load` never changes the directory.
  pub load_frame : (load session_id s).1 ≡ s
  unfolding load
  load_frame = ground arith

pub save_lem :
    (r : SessionRecord) (s : Repository)
    → validate_session_id r.session_id ≡ ok r.session_id
    → save r s ≡ (ok tt, record s { sessions = put_session r s.sessions })
unfolding save
save_lem r s h = ground (arith, h)

pub append_event_lem :
    (now k event : String) (details : Fields) (s : Repository)
    → (is_empty event || has_break event) ≡ false
    → validate_session_id k ≡ ok k
    → append_event now k event details s ≡ (ok tt, logged now k event details s)
unfolding append_event
append_event_lem now k event details s name valid = ground (arith, name, valid)

pub load_found :
    (session_id k : String) (r : SessionRecord) (s : Repository)
    → validate_session_id session_id ≡ ok k
    → find_session k s.sessions ≡ some r
    → load session_id s ≡ (ok r, s)
unfolding load
load_found session_id k r s valid stored = ground (arith, valid, stored)

-- The operations at the identifier under which a record is stored.
module _ (k : String) (r : SessionRecord) (s : Repository) (valid : validate_session_id k ≡ ok k)
    (stored : find_session k s.sessions ≡ some r) where
  pub load_stored : load k s ≡ (ok r, s)
  unfolding load
  load_stored = ground (arith, valid, stored)

  pub valid_stored : validate_session_id r.session_id ≡ ok r.session_id
  valid_stored =
      subst (λ j. validate_session_id j ≡ ok j) (sym (session_id-find_session k s.sessions stored))
        valid

module _ (k : String) (r : SessionRecord) (s : Repository) (valid : validate_session_id k ≡ ok k)
    (stored : find_session k s.sessions ≡ some r) (now : String) where
  -- `set_status` stores the new status and returns the stored record.
  pub set_status_lem :
      (status : SessionStatus) (success : Value) (failure : Option String)
      → ((set_status now k status success failure s).0
          ≡ ok (with_status now status success failure r))
        × ((set_status now k status success failure s).1.sessions
            ≡ put_session (with_status now status success failure r) s.sessions)
  unfolding set_status
  set_status_lem status success failure =
      rw
        (
          load_stored k r s valid stored,
          save_lem (with_status now status success failure r) s (valid_stored k r s valid stored),
          append_event_lem now k "session_status_changed" _ _ refl valid,
        )
        (refl, refl)

  -- `update_cleanup_action` of an action in the ledger stores the changed ledger.
  pub update_cleanup_action_lem :
      (action_id : String) (status : CleanupActionStatus) (failure : Option String)
      (selected : CleanupAction) (actions : List CleanupAction)
      → update_matching action_id (attempted now status failure) r.cleanup_actions
        ≡ (some selected, actions)
      → ((update_cleanup_action now k action_id status failure s).0 ≡ ok selected)
        × ((update_cleanup_action now k action_id status failure s).1.sessions
            ≡ put_session (record r { cleanup_actions = actions; updated_at = now }) s.sessions)
  unfolding update_cleanup_action store_update
  update_cleanup_action_lem action_id status failure selected actions e =
      rw (load_stored k r s valid stored, e)
        (rw
          (
            save_lem (record r { cleanup_actions = actions; updated_at = now }) s
                (valid_stored k r s valid stored),
            append_event_lem now k "cleanup_action_updated" _ _ refl valid,
          )
          (refl, refl))

  -- An identifier that the ledger lacks is an error, and nothing is stored.
  pub update_cleanup_action_missing :
      (action_id : String) (status : CleanupActionStatus) (failure : Option String)
      (actions : List CleanupAction)
      → update_matching action_id (attempted now status failure) r.cleanup_actions ≡ (none, actions)
      → update_cleanup_action now k action_id status failure s
        ≡ (err (fault session_error "Cleanup action not found"), s)
  unfolding update_cleanup_action store_update
  update_cleanup_action_missing action_id status failure actions e =
      rw (load_stored k r s valid stored, e)
