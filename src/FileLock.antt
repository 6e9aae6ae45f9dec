-- ===== src/FileLock.antt =====
-- android_assessor/file_lock.py: the re-entrant lock that guards the files of a session, between
-- the threads of all processes. A system has the locks that the operating system granted, by file,
-- and of each thread the dictionary of its `threading.local` and the `with` blocks that it is in,
-- the innermost first. A step is one thread's entry to or exit from a block; waiting changes
-- nothing, so an entry is its last attempt.
pub mod Exclusion
use android_appsec_assessor.Prelude.{
  ℕ, suc, ◌-◌, String, Bool, true, false, Option, none, some, List, [], ◌∷◌, ltb, leb, ◌=ₛ◌, ◌==◌,
  ◌≡◌, if◌then◌else◌,
}
use android_appsec_assessor.Errors.{session_error, Result, ok}
use android_appsec_assessor.Exec.{Exec, raise}

-- `handle` is whether the file is open.
pub record FileLock : Type 0 where
  pub key : String
  pub handle : Bool
  pub acquired : Bool
  pub reentrant : Bool

-- What an entry and an exit of one thread read and write: the depths under `held`, with 0 for a
-- missing key, and the locks of the operating system, each with the thread that took it.
pub record LockState : Type 0 where
  pub held : String → ℕ
  pub granted : String → Option ℕ

unfoldable pub put_depth : String → ℕ → (String → ℕ) → String → ℕ
put_depth key depth held k = if k =ₛ key then depth else held k

unfoldable pub put_grant : String → Option ℕ → (String → Option ℕ) → String → Option ℕ
put_grant key grant granted k = if k =ₛ key then grant else granted k

-- `_try_lock` of an open file: `flock` with `LOCK_EX | LOCK_NB` grants a file that no one holds.
unfoldable pub try_lock : ℕ → String → LockState → Bool × LockState
try_lock thread key s = elim (s.granted key) [
  | some other ↦ (false, s)
  | none ↦ (true, record s { granted = put_grant key (some thread) s.granted })
]

abbrev pub taken : String → Bool × LockState → Result FileLock × LockState
taken key (true, s) = (
  ok (record { key = key; handle = true; acquired = true; reentrant = false }),
  record s { held = put_depth key 1 s.held },
)
taken key (false, s) = raise session_error "Session state is busy; retry the operation." s

-- `__enter__`
unfoldable pub enter : ℕ → String → Exec LockState FileLock
enter thread key s =
    if ltb 0 (s.held key)
    then (
      ok (record { key = key; handle = false; acquired = true; reentrant = true }),
      record s { held = put_depth key (suc (s.held key)) s.held },
    )
    else taken key (try_lock thread key s)

-- `__exit__`
unfoldable pub exit : FileLock → LockState → LockState
exit l s =
    if l.reentrant
    then record s {
      held = put_depth l.key (if leb (s.held l.key) 1 then 0 else s.held l.key - 1) s.held;
    }
    else record s {
      held = put_depth l.key 0 s.held;
      granted =
          (if l.handle
            then (if l.acquired then put_grant l.key none s.granted else s.granted)
            else s.granted);
    }

pub record Thread : Type 0 where
  pub depths : String → ℕ
  pub blocks : List FileLock

pub record System : Type 0 where
  pub threads : ℕ → Thread
  pub grants : String → Option ℕ

abbrev pub state_of : ℕ → System → LockState
state_of t s = record { held = (s.threads t).depths; granted = s.grants }

unfoldable pub put_thread : ℕ → Thread → (ℕ → Thread) → ℕ → Thread
put_thread t thread threads u = if u == t then thread else threads u

-- The system after a call of one thread, with the blocks that the thread is in then.
abbrev pub after_call : ℕ → List FileLock → LockState → System → System
after_call t blocks l s = record {
  threads = put_thread t (record { depths = l.held; blocks = blocks }) s.threads;
  grants = l.granted;
}

pub data Step : System → System → Type 0 where
  entered :
      {s : System} (t : ℕ) (key : String) (l : FileLock)
      → (enter t key (state_of t s)).0 ≡ ok l
      → Step s (after_call t (l ∷ (s.threads t).blocks) (enter t key (state_of t s)).1 s)
  left :
      {s : System} (t : ℕ) (l : FileLock) (rest : List FileLock)
      → (s.threads t).blocks ≡ l ∷ rest
      → Step s (after_call t rest (exit l (state_of t s)) s)

abbrev pub initial : System
initial = record { threads = λ t. record { depths = λ k. 0; blocks = [] }; grants = λ k. none }

pub data Reachable : System → Type 0 where
  start : Reachable initial
  next : {s s' : System} → Reachable s → Step s s' → Reachable s'
