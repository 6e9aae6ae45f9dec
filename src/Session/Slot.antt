-- ===== src/Session/Slot.antt =====
-- What the checks over every session grant: the slot of a device.
use mathlib.Core.Path.{subst}
use android_appsec_assessor.Prelude.{
  String, true, false, ◌≡◌, refl, ap, some, List, [], ◌∷◌, ◌++◌, All, any, map, arith, ◌=ₛ◌, eq_iff,
  Bool-cases, inl, inr, sym,
}
use android_appsec_assessor.Prelude.Text.{codes}
use android_appsec_assessor.Errors.{Result, ok, err, session_error, Result-cases}
use android_appsec_assessor.Exec.{ensure, ◌>>=◌, ◌>>◌, continue-eq-ok}
use android_appsec_assessor.Validation.{validate_serial, validate_session_id}
use android_appsec_assessor.Scope.{is_in}
use android_appsec_assessor.Validation.Idempotence.{validate_session_id_again}
use android_appsec_assessor.Session.{
  SessionRecord, is_modifiable, is_cleaned, is_broken, pending_cleanup,
}
use android_appsec_assessor.Session.Repository.{Repository, find_session, load}
use android_appsec_assessor.Session.Effects.{Loaded, load_inv, load_lem, load_frame}
use android_appsec_assessor.Session.Listing.{
  directories, add_loaded, load_each, insert_newest, newest_first, list_sessions, codes_lt, blocks,
  check_slot, require_modifying_session_slot,
}

-- The record does not stand in the way of work on the device by the session `current_id`: unless
-- it is cleaned or of another device, nothing of it is pending, and where it is that session
-- itself, nothing failed or conflicts.
pub record IsFree (serial current_id : String) (r : SessionRecord) : Type 0 where
  pub not_pending :
      (r.serial =ₛ serial) ≡ true
      → is_cleaned r.status ≡ false
      → (r.session_id =ₛ current_id) ≡ false
      → pending_cleanup r ≡ false
  pub not_broken :
      (r.serial =ₛ serial) ≡ true
      → is_cleaned r.status ≡ false
      → (r.session_id =ₛ current_id) ≡ true
      → any (λ a. is_broken a.status) r.cleanup_actions ≡ false

All-insert_newest :
    (P : SessionRecord → Type 0) (r : SessionRecord) (rs : List SessionRecord)
    → All P (insert_newest r rs)
    → P r × All P rs
unfolding insert_newest
All-insert_newest P r [] h = h
All-insert_newest P r (q ∷ qs) h =
    elim (Bool-cases (codes_lt (codes r.created_at) (codes q.created_at))) [
      | inl e ↦
          let h' : P q × All P (insert_newest r qs) = rw e at h in
          let (first, rest) = All-insert_newest P r qs h'.1 in (first, (h'.0, rest))
      | inr e ↦ rw e at h
    ]

pub All-newest_first :
    (P : SessionRecord → Type 0) (rs : List SessionRecord) → All P (newest_first rs) → All P rs
unfolding newest_first
All-newest_first P [] h = h
All-newest_first P (r ∷ rs) h =
    let (first, rest) = All-insert_newest P r (newest_first rs) h in
    (first, All-newest_first P rs rest)

check_slot_lem :
    (serial current_id : String) (rs : List SessionRecord) (s : Repository) {s' : Repository}
    → check_slot serial current_id rs s ≡ (ok tt, s')
    → All (IsFree serial current_id) rs
unfolding check_slot blocks
check_slot_lem serial current_id [] s h = tt
check_slot_lem serial current_id (r ∷ rs) s {s'} h =
    let rest : check_slot serial current_id rs s ≡ (ok tt, s') → All (IsFree serial current_id) rs =
      λ e. check_slot_lem serial current_id rs s e in
    (
      record { not_pending = λ a b c. ground arith; not_broken = λ a b c. ground arith },
      rest (ground arith),
    )

-- What a session that may modify its device is known to be.
pub record IsGranted (serial session_id : String) (s : Repository) : Type 0 where
  pub current : SessionRecord
  pub loaded : Loaded session_id current s
  pub same_device : (current.serial =ₛ serial) ≡ true
  pub modifiable : is_modifiable current.status ≡ true
  pub free :
      (name : String) (r : SessionRecord)
      → load name s ≡ (ok r, s)
      → IsFree serial current.session_id r

validate_serial_same : (serial : String) {k : String} → validate_serial serial ≡ ok k → k ≡ serial
unfolding validate_serial
validate_serial_same serial h = ground arith

-- A directory that loads is in the list.
module _ (P : SessionRecord → Type 0) where
  All-add_loaded :
      (found : Result SessionRecord) (rest : Result (List SessionRecord)) {rs : List SessionRecord}
      → add_loaded found rest ≡ ok rs
      → All P rs
      → (qs : List SessionRecord) × (rest ≡ ok qs)
        × All P qs
        × ((r : SessionRecord) → found ≡ ok r → P r)
  unfolding add_loaded
  All-add_loaded (ok r) (ok qs) {rs} h all =
      let same : r ∷ qs ≡ rs = cc h in
      let (first, others) = subst (All P) (sym same) all in
      (qs, refl, others, λ q e. let same : r ≡ q = cc e in subst P same first)
  All-add_loaded (ok r) (err e) h all = cc
  All-add_loaded (err e) rest {rs} h all = (rs, ground arith, all, λ q e. cc)

  pub All-load_each :
      (s : Repository) (ds : List String) {rs : List SessionRecord}
      → load_each s ds ≡ ok rs
      → All P rs
      → (d : String) (r : SessionRecord) → is_in d ds ≡ true
      → (load d s).0 ≡ ok r
      → P r
  unfolding load_each
  All-load_each s [] h all d r listed loaded = cc
  All-load_each s (x ∷ xs) h all d r listed loaded =
      let (qs, rest, others, first) = All-add_loaded (load x s).0 (load_each s xs) h all in
      elim (Bool-cases (x =ₛ d)) [
        | inl here ↦
            let same : x ≡ d = (eq_iff x d).0 here in
            first r (subst (λ y. (load y s).0 ≡ ok r) (sym same) loaded)
        | inr later ↦ All-load_each s xs rest others d r (ground (arith, later, listed)) loaded
      ]

pub find_session-is_in :
    (k : String) (rs : List SessionRecord) (others : List String) {r : SessionRecord}
    → find_session k rs ≡ some r
    → is_in k (map (λ r. r.session_id) rs ++ others) ≡ true
unfolding find_session
find_session-is_in k [] others h = cc
find_session-is_in k (q ∷ qs) others {r} h =
    let rest : find_session k qs ≡ some r → is_in k (map (λ r. r.session_id) qs ++ others) ≡ true =
      λ e. find_session-is_in k qs others {r = r} e in
    elim (Bool-cases (q.session_id =ₛ k)) [
      | inl here ↦ ground (arith, here)
      | inr later ↦ ground (arith, later, rest (ground (arith, later, h)))
    ]

listed_and_checked :
    (serial k : String) (s : Repository) {s' : Repository}
    → (list_sessions >>= λ records. check_slot serial k records) s ≡ (ok tt, s')
    → (records : List SessionRecord) × (load_each s (directories s) ≡ ok records)
      × (check_slot serial k (newest_first records) s ≡ (ok tt, s'))
unfolding list_sessions
listed_and_checked serial k s {s'} h = elim (Result-cases (load_each s (directories s))) [
  | inl (records, read) ↦ (records, read, ground (arith, read, h))
  | inr (e, raised) ↦ absurd (ground (arith, raised, h))
]

listed-IsFree :
    (serial k : String) (s : Repository) {s' : Repository}
    → (list_sessions >>= λ records. check_slot serial k records) s ≡ (ok tt, s')
    → (name : String) (r : SessionRecord) → load name s ≡ (ok r, s)
    → IsFree serial k r
listed-IsFree serial k s {s'} h name r loaded =
    let (records, all_loaded, h₁) = listed_and_checked serial k s h in
    let (l, _) = load_inv name s loaded in
    let again : validate_session_id r.session_id ≡ ok r.session_id =
      validate_session_id_again name l.key in
    All-load_each (IsFree serial k) s (directories s) all_loaded
      (All-newest_first (IsFree serial k) records
        (check_slot_lem serial k (newest_first records) s h₁))
      r.session_id r
      (find_session-is_in r.session_id s.sessions (map (λ d. d.directory) s.damaged) l.stored)
      (ap (λ p. p.0) (load_lem r.session_id s (record { key = again; stored = l.stored })))

slot_checked :
    (serial k : String) (current : SessionRecord) (s : Repository) {s' : Repository}
    → (ensure
            (current.serial =ₛ serial)
            session_error
            "Session device does not match the modifying operation."
          >> (ensure
                (is_modifiable current.status)
                session_error
                "Modifying operations require an active session."
              >> (list_sessions >>= λ records. check_slot serial k records)))
        s
      ≡ (ok tt, s')
    → ((current.serial =ₛ serial) ≡ true)
      × (is_modifiable current.status ≡ true)
      × ((list_sessions >>= λ records. check_slot serial k records) s ≡ (ok tt, s'))
slot_checked serial k current s {s'} h = (ground arith, ground arith, ground arith)

-- Where a session is granted the slot of a device, it is a session of that device whose status
-- allows modifying work and which is cleaned or has no failed or conflicting action, and every
-- other session of the device that loads is cleaned or has no action pending. Nothing is said of the
-- sessions that do not load, which `list` passes over where that raises a `SessionError`.
pub require_modifying_session_slot-IsGranted :
    (serial session_id : String) (s : Repository) {s' : Repository}
    → require_modifying_session_slot serial session_id s ≡ (ok tt, s')
    → IsGranted serial session_id s
unfolding require_modifying_session_slot
require_modifying_session_slot-IsGranted serial session_id s {s'} h =
    let (selected, valid, h₁) = continue-eq-ok (validate_serial serial) _ s h in
    let (k, known, h₂) = continue-eq-ok (validate_session_id session_id) _ s h₁ in
    let (current, found, h₃) = continue-eq-ok (load k s).0 _ _ h₂ in
    let loaded : load k s ≡ (ok current, s) = λ i. (found i, load_frame k s i) in
    let (l, _) = load_inv k s loaded in
    let own : current.session_id ≡ k = cc (validate_session_id_again session_id known, l.key) in
    let same : selected ≡ serial = validate_serial_same serial valid in
    let (device, active, listed) = slot_checked selected k current (load k s).1 h₃ in
    let still : (list_sessions >>= λ records. check_slot selected k records) s ≡ (ok tt, s') =
      subst (λ x. (list_sessions >>= λ records. check_slot selected k records) x ≡ (ok tt, s'))
        (load_frame k s) listed in
    record {
      current = current;
      loaded = record { key = cc (known, own); stored = l.stored };
      same_device = subst (λ x. (current.serial =ₛ x) ≡ true) same device;
      modifiable = active;
      free = λ name r each.
          subst (λ x. IsFree x current.session_id r) same
            (subst (λ x. IsFree selected x r) (sym own)
              (listed-IsFree selected k s still name r each));
    }
