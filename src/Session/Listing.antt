-- ===== src/Session/Listing.antt =====
-- The operations of `SessionRepository` that look at every session (android_assessor/session.py):
-- `list`, `unfinished`, `_allocate_id`, `initialize` and `require_modifying_session_slot`.
use android_appsec_assessor.Prelude.{
  String, Bool, true, false, not, ◌&&◌, ◌||◌, none, some, List, [], ◌∷◌, ◌++◌, any, map, filter,
  take, find_first, ℕ, ltb, ◌=ₛ◌, ◌==◌, if◌then◌else◌,
}
use android_appsec_assessor.Prelude.Text.{codes}
use android_appsec_assessor.Errors.{
  Result, ok, err, session_error, device_busy_error, is_session_error,
}
use android_appsec_assessor.Exec.{Exec, pure, raise, lift, gets, ensure, ◌>>=◌, ◌>>◌}
use android_appsec_assessor.Validation.{validate_session_id, validate_serial, validate_package_name}
use android_appsec_assessor.Json.{null, end}
use android_appsec_assessor.Session.{
  initializing, SessionRecord, is_broken, pending_cleanup, is_cleaned, is_modifiable, is_unfinished,
}
use android_appsec_assessor.Session.Repository.{Repository, find_session, load, save, append_event}

-- `<` of Python texts
unfoldable pub codes_lt : List ℕ → List ℕ → Bool
codes_lt xs [] = false
codes_lt [] (y ∷ ys) = true
codes_lt (x ∷ xs) (y ∷ ys) = ltb x y || x == y && codes_lt xs ys

unfoldable pub insert_newest : SessionRecord → List SessionRecord → List SessionRecord
insert_newest r [] = r ∷ []
insert_newest r (q ∷ qs) =
    let rest = insert_newest r qs in
    if codes_lt (codes r.created_at) (codes q.created_at) then q ∷ rest else r ∷ q ∷ qs

-- `sorted(records, key=lambda record: record.created_at, reverse=True)`, which is stable
unfoldable pub newest_first : List SessionRecord → List SessionRecord
newest_first [] = []
newest_first (r ∷ rs) = insert_newest r (newest_first rs)

-- `results_dir.iterdir()`
abbrev pub directories : Repository → List String
directories s = map (λ r. r.session_id) s.sessions ++ map (λ d. d.directory) s.damaged

-- One turn of the loop of `list`: a `SessionError` skips the directory, any other error ends it.
unfoldable pub add_loaded :
    Result SessionRecord → Result (List SessionRecord) → Result (List SessionRecord)
add_loaded (ok r) rest = elim rest [ ok rs ↦ ok (r ∷ rs) | err e ↦ err e ]
add_loaded (err e) rest = if is_session_error e.kind then rest else err e

unfoldable pub load_each : Repository → List String → Result (List SessionRecord)
load_each s [] = ok []
load_each s (d ∷ ds) = add_loaded (load d s).0 (load_each s ds)

-- `list`
unfoldable pub list_sessions : Exec Repository (List SessionRecord)
list_sessions = do
  s ← gets (λ s. s)
  records ← lift (load_each s (directories s))
  pure (newest_first records)

unfoldable pub unfinished : Exec Repository (List SessionRecord)
unfinished = do records ← list_sessions; pure (filter (λ r. is_unfinished r.status) records)

-- The loop of `_allocate_id` over its twenty candidates.
unfoldable pub allocate_id : List String → Exec Repository String
allocate_id candidates s =
    elim (find_first
      (λ c. elim (find_session c s.sessions) [
        | none ↦ not (any (λ d. d.directory =ₛ c) s.damaged)
        | some _ ↦ false
      ])
      (take 20 candidates)) [
        | none ↦ raise session_error "Could not allocate a unique session ID." s
        | some c ↦ pure c s
      ]

-- The record that a session starts with.
abbrev pub new_record : String → String → String → String → SessionRecord
new_record now session_id serial package_name = record {
  session_id = session_id;
  created_at = now;
  updated_at = now;
  status = initializing;
  serial = serial;
  package_name = package_name;
  snapshot = end;
  cleanup_actions = [];
  cleanup_success = null;
  last_error = none;
}

unfoldable pub initialize : String → List String → String → String → Exec Repository SessionRecord
initialize now candidates serial name = do
  selected ← lift (validate_serial serial)
  target ← lift (validate_package_name name)
  allocated ← allocate_id candidates
  session_id ← lift (validate_session_id allocated)
  save (new_record now allocated selected target)
  append_event now allocated "session_initialized" end
  pure (new_record now allocated selected target)

-- What the loop of `require_modifying_session_slot` raises for one record of the device.
unfoldable pub blocks : String → SessionRecord → Bool
blocks current_id r =
    if r.session_id =ₛ current_id
    then any (λ a. is_broken a.status) r.cleanup_actions
    else pending_cleanup r

unfoldable pub check_slot : String → String → List SessionRecord → Exec Repository (Unit {0})
check_slot serial current_id [] = pure tt
check_slot serial current_id (r ∷ rs) =
    let rest = check_slot serial current_id rs in
    if not (r.serial =ₛ serial) || is_cleaned r.status
    then rest
    else if blocks current_id r
    then raise device_busy_error "Device has unfinished modifying resources."
    else rest

unfoldable pub require_modifying_session_slot : String → String → Exec Repository (Unit {0})
require_modifying_session_slot serial session_id = do
  selected ← lift (validate_serial serial)
  current_id ← lift (validate_session_id session_id)
  current ← load current_id
  ensure (current.serial =ₛ selected) session_error
      "Session device does not match the modifying operation."
  ensure (is_modifiable current.status) session_error
      "Modifying operations require an active session."
  records ← list_sessions
  check_slot selected current_id records
