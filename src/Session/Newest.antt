-- ===== src/Session/Newest.antt =====
-- What `SessionRepository.list` of android_assessor/session.py returns.
use mathlib.Core.Path.{subst}
use android_appsec_assessor.Prelude.{
  ℕ, String, true, false, ◌≡◌, refl, ap, sym, inl, inr, List, [], ◌∷◌, All, Listed, All-Listed, map,
  arith, eq_iff, ◌=ₛ◌, Bool-cases,
}
use android_appsec_assessor.Prelude.Text.{codes}
use android_appsec_assessor.Errors.{Error, Result, ok, err, is_session_error}
use android_appsec_assessor.Exec.{Outcome, pure, continue}
use android_appsec_assessor.Scope.{is_in}
use android_appsec_assessor.Validation.Idempotence.{validate_session_id_again}
use android_appsec_assessor.Session.{SessionRecord}
use android_appsec_assessor.Session.Repository.{Repository, load}
use android_appsec_assessor.Session.Effects.{Loaded, load_inv, load_lem, load_frame}
use android_appsec_assessor.Session.Listing.{
  codes_lt, insert_newest, newest_first, directories, add_loaded, load_each, list_sessions,
}
use android_appsec_assessor.Session.Slot.{All-newest_first, All-load_each, find_session-is_in}

-- One record was not made before the other.
abbrev NotBefore : SessionRecord → SessionRecord → Type 0
NotBefore r q = codes_lt (codes r.created_at) (codes q.created_at) ≡ false

-- No record was made before the next one.
abbrev pub IsNewestFirst : List SessionRecord → Type 0
IsNewestFirst [] = Unit {0}
IsNewestFirst (r ∷ []) = Unit {0}
IsNewestFirst (r ∷ q ∷ rs) = NotBefore r q × IsNewestFirst (q ∷ rs)

codes_lt-asym : (xs ys : List ℕ) → codes_lt xs ys ≡ true → codes_lt ys xs ≡ false
unfolding codes_lt
codes_lt-asym xs [] h = cc
codes_lt-asym [] (y ∷ ys) h = refl
codes_lt-asym (x ∷ xs) (y ∷ ys) h =
    ground (arith, λ (e : codes_lt xs ys ≡ true). codes_lt-asym xs ys e)

insert_after :
    (q r : SessionRecord) (qs : List SessionRecord)
    → NotBefore q r
    → IsNewestFirst (q ∷ qs)
    → IsNewestFirst (insert_newest r qs)
    → IsNewestFirst (q ∷ insert_newest r qs)
unfolding insert_newest
insert_after q r [] first h k = (first, k)
insert_after q r (p ∷ ps) first h k =
    elim (Bool-cases (codes_lt (codes r.created_at) (codes p.created_at))) [
      | inl later ↦ rw later (h.0, rw later at k)
      | inr here ↦ rw here (first, rw here at k)
    ]

IsNewestFirst-rest :
    (q : SessionRecord) (qs : List SessionRecord) → IsNewestFirst (q ∷ qs) → IsNewestFirst qs
IsNewestFirst-rest q [] h = tt
IsNewestFirst-rest q (p ∷ ps) h = h.1

IsNewestFirst-insert_newest :
    (r : SessionRecord) (qs : List SessionRecord)
    → IsNewestFirst qs
    → IsNewestFirst (insert_newest r qs)
unfolding insert_newest
IsNewestFirst-insert_newest r [] h = tt
IsNewestFirst-insert_newest r (q ∷ qs) h =
    let further = IsNewestFirst-insert_newest r qs (IsNewestFirst-rest q qs h) in
    elim (Bool-cases (codes_lt (codes r.created_at) (codes q.created_at))) [
      | inl later ↦
          let first = codes_lt-asym (codes r.created_at) (codes q.created_at) later in
          rw later (insert_after q r qs first h further)
      | inr here ↦ rw here (here, h)
    ]

newest_first-IsNewestFirst : (rs : List SessionRecord) → IsNewestFirst (newest_first rs)
unfolding newest_first
newest_first-IsNewestFirst [] = tt
newest_first-IsNewestFirst (r ∷ rs) =
    IsNewestFirst-insert_newest r (newest_first rs) (newest_first-IsNewestFirst rs)

module _ (P : SessionRecord → Type 0) where
  insert_newest-All :
      (r : SessionRecord) (qs : List SessionRecord) → P r → All P qs → All P (insert_newest r qs)
  unfolding insert_newest
  insert_newest-All r [] p h = (p, tt)
  insert_newest-All r (q ∷ qs) p h =
      elim (Bool-cases (codes_lt (codes r.created_at) (codes q.created_at))) [
        | inl later ↦ rw later (h.0, insert_newest-All r qs p h.1)
        | inr here ↦ rw here (p, h)
      ]

  newest_first-All : (rs : List SessionRecord) → All P rs → All P (newest_first rs)
  unfolding newest_first
  newest_first-All [] h = tt
  newest_first-All (r ∷ rs) h = insert_newest-All r (newest_first rs) h.0 (newest_first-All rs h.1)

-- A list of the sessions: newest first, each record loads, each record that loads is in it, and what
-- does not load raised a `SessionError`.
pub record IsListing (s : Repository) (records : List SessionRecord) : Type 0 where
  pub newest : IsNewestFirst records
  pub loads : All (λ r. load r.session_id s ≡ (ok r, s)) records
  pub complete : (name : String) (r : SessionRecord) → load name s ≡ (ok r, s) → Listed r records
  pub skipped :
      (name : String) (e : Error)
      → is_in name (directories s) ≡ true
      → (load name s).0 ≡ err e
      → is_session_error e.kind ≡ true

-- A directory that raises another error.
pub record IsRaised (s : Repository) (ds : List String) (e : Error) : Type 0 where
  pub name : String
  pub listed : is_in name ds ≡ true
  pub raised : (load name s).0 ≡ err e
  pub other : is_session_error e.kind ≡ false

module _ (s : Repository) where
  load-again :
      (name : String) (r : SessionRecord) → (load name s).0 ≡ ok r → Loaded r.session_id r s
  load-again name r h =
      let loaded : load name s ≡ (ok r, s) = λ i. (h i, load_frame name s i) in
      let (l, _) = load_inv name s loaded in
      record { key = validate_session_id_again name l.key; stored = l.stored }

  here :
      (d : String) (ds : List String) (x : Error)
      → (load d s).0 ≡ err x
      → is_session_error x.kind ≡ false
      → IsRaised s (d ∷ ds) x
  here d ds x h ends = record {
    name = d;
    listed = ground (arith, eq_iff d d);
    raised = h;
    other = ends;
  }

  abbrev Loads : SessionRecord → Type 0
  Loads r = load r.session_id s ≡ (ok r, s)

  abbrev Skipped : List String → Type 0
  Skipped ds =
      (name : String) (e : Error)
      → is_in name ds ≡ true
      → (load name s).0 ≡ err e
      → is_session_error e.kind ≡ true

  abbrev Read : List String → List SessionRecord → Type 0
  Read ds rs = All Loads rs × Skipped ds

  Skipped-more :
      (d : String) (ds : List String)
      → ((e : Error) → (load d s).0 ≡ err e → is_session_error e.kind ≡ true)
      → Skipped ds
      → Skipped (d ∷ ds)
  Skipped-more d ds first rest name e listed raised = elim (Bool-cases (d =ₛ name)) [
    | inl here ↦
        let same : d ≡ name = (eq_iff d name).0 here in
        first e (subst (λ x. (load x s).0 ≡ err e) (sym same) raised)
    | inr later ↦ rest name e (ground (arith, later, listed)) raised
  ]

  IsRaised-more :
      (d : String) (ds : List String) (e : Error) → IsRaised s ds e → IsRaised s (d ∷ ds) e
  IsRaised-more d ds e h = record {
    name = h.name;
    listed = ground (arith, h.listed);
    raised = h.raised;
    other = h.other;
  }

  add_loaded-Outcome :
      (d : String) (ds : List String) (found : Result SessionRecord)
      (rest : Result (List SessionRecord))
      → (load d s).0 ≡ found
      → Outcome (Read ds) (IsRaised s ds) rest
      → Outcome (Read (d ∷ ds)) (IsRaised s (d ∷ ds)) (add_loaded found rest)
  unfolding add_loaded
  add_loaded-Outcome d ds (ok r) (ok rs) h k = (
    (load_lem r.session_id s (load-again d r h), k.0),
    Skipped-more d ds (λ e raised. absurd (cc (h, raised))) k.1,
  )
  add_loaded-Outcome d ds (ok r) (err e) h k = IsRaised-more d ds e k
  add_loaded-Outcome d ds (err x) (ok rs) h k = elim (Bool-cases (is_session_error x.kind)) [
    | inl skips ↦ rw skips (
      k.0,
      Skipped-more d ds
          (λ e raised.
            let same : x ≡ e = cc (h, raised) in
            subst (λ (y : Error). is_session_error y.kind ≡ true) same skips)
          k.1,
    )
    | inr ends ↦ rw ends (here d ds x h ends)
  ]
  add_loaded-Outcome d ds (err x) (err e) h k = elim (Bool-cases (is_session_error x.kind)) [
    | inl skips ↦ rw skips (IsRaised-more d ds e k)
    | inr ends ↦ rw ends (here d ds x h ends)
  ]

  load_each-Outcome : (ds : List String) → Outcome (Read ds) (IsRaised s ds) (load_each s ds)
  unfolding load_each
  load_each-Outcome [] = (tt, λ name e listed raised. absurd (cc listed))
  load_each-Outcome (d ∷ ds) =
      add_loaded-Outcome d ds (load d s).0 (load_each s ds) refl (load_each-Outcome ds)

  load_each-Listed :
      {rs : List SessionRecord}
      → load_each s (directories s) ≡ ok rs
      → (name : String) (r : SessionRecord) → load name s ≡ (ok r, s)
      → Listed r (newest_first rs)
  load_each-Listed {rs} h name r loaded =
      let l = load-again name r (ap (λ p. p.0) loaded) in
      let among =
        All-newest_first (λ q. Listed q (newest_first rs)) rs
          (All-Listed (λ q. Listed q (newest_first rs)) (newest_first rs) (λ q listed. listed)) in
      All-load_each (λ q. Listed q (newest_first rs)) s (directories s) h among r.session_id r
        (find_session-is_in r.session_id s.sessions (map (λ d. d.directory) s.damaged) l.stored)
        (ap (λ p. p.0) (load_lem r.session_id s l))

IsListing-found :
    (s : Repository) (found : Result (List SessionRecord))
    → load_each s (directories s) ≡ found
    → Outcome (Read s (directories s)) (IsRaised s (directories s)) found
    → Outcome
        (IsListing s)
        (IsRaised s (directories s))
        (continue {S = Repository} found (λ records. pure (newest_first records)) s).0
      × ((continue {S = Repository} found (λ records. pure (newest_first records)) s).1 ≡ s)
IsListing-found s (ok rs) read h = (
  record {
    newest = newest_first-IsNewestFirst rs;
    loads = newest_first-All (Loads s) rs h.0;
    complete = load_each-Listed s read;
    skipped = h.1;
  },
  refl,
)
IsListing-found s (err e) read h = (h, refl)

-- The sessions directory is listed newest first, with each session that loads and no other record,
-- where whatever does not load raises a `SessionError`; and where a directory raises another error,
-- the listing raises an error of such a directory. The directory is not changed.
pub list_sessions-IsListing :
    (s : Repository)
    → Outcome (IsListing s) (IsRaised s (directories s)) (list_sessions s).0
      × ((list_sessions s).1 ≡ s)
unfolding list_sessions
list_sessions-IsListing s =
    IsListing-found s (load_each s (directories s)) refl (load_each-Outcome s (directories s))
