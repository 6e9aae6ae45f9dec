-- ===== src/Session/Creation.antt =====
-- What `initialize` and `record_cleanup_action` add to the sessions directory.
use android_appsec_assessor.Prelude.{
  String, Bool, true, false, not, ◌≡◌, refl, List, [], ◌∷◌, ◌++◌, arith, some, none, ◌=ₛ◌, ap, take,
  any, find_first,
}
use android_appsec_assessor.Errors.{ErrorKind, ok, session_error}
use android_appsec_assessor.Exec.{pure, continue-eq-ok, ensure, ◌>>◌}
use android_appsec_assessor.Validation.{validate_serial, validate_session_id, validate_package_name}
use android_appsec_assessor.Json.{end, Fields, null}
use android_appsec_assessor.Session.{
  SessionRecord, CleanupAction, CleanupActionType, is_cleaned, pending_cleanup, is_pending,
  cleanup_required,
}
use android_appsec_assessor.Session.Repository.{
  Repository, find_session, load, new_action, record_cleanup_action, put_session, save,
  append_event,
}
use android_appsec_assessor.Session.Effects.{
  Loaded, load_inv, load_frame, find_session-put_session, find_session-put_self,
}
use android_appsec_assessor.Session.Listing.{allocate_id, new_record, initialize}

-- The sessions directory after a new session: it was not there before, and the others stay.
pub record IsAdded (r : SessionRecord) (s s' : Repository) : Type 0 where
  pub absent : find_session r.session_id s.sessions ≡ none
  pub no_directory : any (λ d. d.directory =ₛ r.session_id) s.damaged ≡ false
  pub stored : find_session r.session_id s'.sessions ≡ some r
  pub others :
      (j : String)
      → (r.session_id =ₛ j) ≡ false
      → find_session j s'.sessions ≡ find_session j s.sessions

find_first_lem :
    (p : String → Bool) (cs : List String) {c : String} → find_first p cs ≡ some c → p c ≡ true
find_first_lem p [] h = cc
find_first_lem p (x ∷ xs) {c} h =
    ground (arith, λ (e : find_first p xs ≡ some c). find_first_lem p xs e)

abbrev is_free : Repository → String → Bool
is_free s c = elim (find_session c s.sessions) [
  | none ↦ not (any (λ d. d.directory =ₛ c) s.damaged)
  | some _ ↦ false
]

is_free_lem :
    (s : Repository) (c : String)
    → is_free s c ≡ true
    → (find_session c s.sessions ≡ none) × (any (λ d. d.directory =ₛ c) s.damaged ≡ false)
is_free_lem s c h = (ground arith, ground arith)

allocate_id_lem :
    (candidates : List String) (s : Repository) {c : String} {s' : Repository}
    → allocate_id candidates s ≡ (ok c, s')
    → ((find_session c s.sessions ≡ none) × (any (λ d. d.directory =ₛ c) s.damaged ≡ false))
      × (s' ≡ s)
unfolding allocate_id
allocate_id_lem candidates s {c} {s'} h =
    let found : find_first (is_free s) (take 20 candidates) ≡ some c = ground arith in
    (is_free_lem s c (find_first_lem (is_free s) (take 20 candidates) found), ground arith)

-- What saving a record and logging an event leaves, where both return.
added :
    (now event : String) (r : SessionRecord) (s : Repository) {q : SessionRecord} {s' : Repository}
    → (save r >> (append_event now r.session_id event end >> pure r)) s ≡ (ok q, s')
    → (q ≡ r) × (s'.sessions ≡ put_session r s.sessions)
unfolding save append_event
added now event r s {q} {s'} h = (ground arith, ground arith)

-- A session that `initialize` returns is new: no session and no other directory of its identifier was
-- there before, it is stored afterwards, and every other session is as it was.
pub initialize-IsAdded :
    (now : String) (candidates : List String) (serial name : String) (s : Repository)
    → {r : SessionRecord} {s' : Repository} → initialize now candidates serial name s ≡ (ok r, s')
    → IsAdded r s s'
unfolding initialize
initialize-IsAdded now candidates serial name s {r} {s'} h =
    let (selected, device, h₁) = continue-eq-ok (validate_serial serial) _ s h in
    let (target, app, h₂) = continue-eq-ok (validate_package_name name) _ s h₁ in
    let (allocated, free, h₃) = continue-eq-ok (allocate_id candidates s).0 _ _ h₂ in
    let (k, valid, h₄) = continue-eq-ok (validate_session_id allocated) _ _ h₃ in
    let (unused, same_state) =
      allocate_id_lem candidates s {s' = (allocate_id candidates s).1}
        (λ i. (free i, (allocate_id candidates s).1)) in
    let new : SessionRecord = new_record now allocated selected target in
    let (same, stored) = added now "session_initialized" new (allocate_id candidates s).1 h₄ in
    let key : r.session_id ≡ allocated = ap (λ (x : SessionRecord). x.session_id) same in
    let here : s'.sessions ≡ put_session new s.sessions =
      cc (stored, ap (λ (x : Repository). put_session new x.sessions) same_state) in
    record {
      absent = rw key unused.0;
      no_directory = rw key unused.1;
      stored = rw (here, same) (find_session-put_self allocated new s.sessions refl);
      others = λ j e. rw here (ground (arith, find_session-put_session j new s.sessions, key));
    }

-- The sessions directory after a new action: its session was not cleaned, the ledger has the
-- action at its end, pending, and the other sessions stay.
pub record IsRecorded (session_id : String) (a : CleanupAction) (s s' : Repository) : Type 0 where
  pub before : SessionRecord
  pub loaded : Loaded session_id before s
  pub not_cleaned : is_cleaned before.status ≡ false
  pub after : SessionRecord
  pub stored : find_session before.session_id s'.sessions ≡ some after
  pub appended : after.cleanup_actions ≡ before.cleanup_actions ++ (a ∷ [])
  pub unfinished : pending_cleanup after ≡ true
  pub others :
      (j : String)
      → (before.session_id =ₛ j) ≡ false
      → find_session j s'.sessions ≡ find_session j s.sessions

recorded :
    (now event : String) (details : Fields) (k : String) (r : SessionRecord) (a : CleanupAction)
    (s : Repository) {q : CleanupAction} {s' : Repository}
    → (save r >> (append_event now k event details >> pure a)) s ≡ (ok q, s')
    → (q ≡ a) × (s'.sessions ≡ put_session r s.sessions)
unfolding save append_event
recorded now event details k r a s {q} {s'} h = (ground arith, ground arith)

ensure_inv :
    {S : Type 0} (b : Bool) (k : ErrorKind) (m : String) (d : S) {u : Unit {0}}
    → (ensure b k m d).0 ≡ ok u
    → (b ≡ true) × ((ensure b k m d).1 ≡ d)
ensure_inv true k m d h = (refl, refl)
ensure_inv false k m d h = cc

pending-snoc :
    (bs : List CleanupAction) (a : CleanupAction)
    → is_pending a.status ≡ true
    → any (λ (x : CleanupAction). is_pending x.status) (bs ++ (a ∷ [])) ≡ true
pending-snoc [] a h = ground arith
pending-snoc (x ∷ xs) a h = ground (arith, pending-snoc xs a h)

-- A cleanup action that `record_cleanup_action` returns was added at the end of the ledger of a
-- session that was not cleaned, which then has work pending; the other sessions stay.
pub record_cleanup_action-IsRecorded :
    (now fresh session_id : String) (action_type : CleanupActionType) (payload : Fields)
    → (s : Repository) {a : CleanupAction} {s' : Repository}
    → record_cleanup_action now fresh session_id action_type payload s ≡ (ok a, s')
    → IsRecorded session_id a s s'
unfolding record_cleanup_action pending_cleanup is_pending
record_cleanup_action-IsRecorded now fresh session_id action_type payload s {a} {s'} h =
    let (before, found, h₁) = continue-eq-ok (load session_id s).0 _ _ h in
    let loaded : load session_id s ≡ (ok before, s) = λ i. (found i, load_frame session_id s i) in
    let (l, _) = load_inv session_id s loaded in
    let (u, guarded, h₂) =
      continue-eq-ok
        (ensure (not (is_cleaned before.status)) session_error
          "Cannot add cleanup work to a cleaned session." (load session_id s).1).0
        _ _ h₁ in
    let action : CleanupAction = new_action fresh action_type payload in
    let after : SessionRecord = record before {
      status = cleanup_required;
      updated_at = now;
      cleanup_actions = before.cleanup_actions ++ (action ∷ []);
      cleanup_success = null;
    } in
    let (open?, kept) =
      ensure_inv (not (is_cleaned before.status)) session_error
        "Cannot add cleanup work to a cleaned session." (load session_id s).1 guarded in
    let (same, put) = recorded now _ _ session_id after action _ h₂ in
    let here : s'.sessions ≡ put_session after s.sessions = cc (
      put,
      ap (λ (x : Repository). put_session after x.sessions) kept,
      ap (λ (x : Repository). put_session after x.sessions) (load_frame session_id s),
    ) in
    record {
      before = before;
      loaded = l;
      not_cleaned = ground (arith, open?);
      after = after;
      stored = rw here (find_session-put_self before.session_id after s.sessions refl);
      appended = rw same refl;
      unfinished = pending-snoc before.cleanup_actions action refl;
      others = λ j e. rw here (ground (arith, find_session-put_session j after s.sessions));
    }
