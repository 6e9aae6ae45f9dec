-- ===== src/DeviceLock.antt =====
-- android_assessor/device_lock.py: the lock that serialises modifying work per device. A state has
-- the dictionary of one thread's `threading.local`, whether the operating system granted the lock
-- of a file to anyone, and the metadata files. Waiting changes nothing, so an entry is its last
-- attempt. Opening the lock's file is taken to succeed, and a metadata file can be read.
pub mod Balance
use android_appsec_assessor.Prelude.{
  ℕ, suc, ◌-◌, String, Bool, true, false, not, ◌&&◌, ◌||◌, Option, none, some, any, ltb, leb, ◌=ₛ◌,
  ◌==◌, if◌then◌else◌,
}
use android_appsec_assessor.Prelude.Text.{codes, char_count, is_empty, strip}
use android_appsec_assessor.Errors.{
  device_busy_error, value_error, Result, ok, err, ◌>>=◌, ◌>>◌, require,
}
use android_appsec_assessor.Exec.{Exec, raise}
use android_appsec_assessor.Validation.{validate_serial, validate_session_id, mask_serial}

-- `handle` is whether the file is open; `key` stands for the paths that are made from it.
pub record DeviceLock : Type 0 where
  pub serial : String
  pub operation : String
  pub session_id : Option String
  pub owner : String
  pub key : String
  pub handle : Bool
  pub acquired : Bool
  pub reentrant : Bool

pub record HeldDevice : Type 0 where
  pub depth : ℕ
  pub session_id : Option String

pub record Metadata : Type 0 where
  pub owner : String
  pub serial_masked : String
  pub session_id : Option String
  pub operation : String

pub record DeviceLockState : Type 0 where
  pub held : String → Option HeldDevice
  pub granted : String → Bool
  pub metadata : String → Option Metadata

unfoldable pub put_at {ℓ} : {A : Type ℓ} → String → A → (String → A) → String → A
put_at key a f k = if k =ₛ key then a else f k

-- `any(character in operation for character in "\r\n\x00")`
abbrev has_break : String → Bool
has_break s = any (λ c. c == 13 || c == 10 || c == 0) (codes s)

-- A text that is tested for truth.
abbrev valid_session : Option String → Result (Option String)
valid_session none = ok none
valid_session (some s) =
    if is_empty s then ok none else (validate_session_id s >>= λ k. ok (some k))

-- `__init__`; `path_of` is the lock's path from the digest of the serial, `owner` is `uuid4().hex`.
unfoldable pub new_lock :
    (String → String) → String → String → String → Option String → Result DeviceLock
new_lock path_of owner serial operation session_id = do
  require
      (not (is_empty (strip operation) || ltb 100 (char_count operation) || has_break operation))
      value_error "Device-lock operation is invalid."
  selected ← validate_serial serial
  session ← valid_session session_id
  ok (record {
    serial = selected;
    operation = strip operation;
    session_id = session;
    owner = owner;
    key = path_of selected;
    handle = false;
    acquired = false;
    reentrant = false;
  })

-- The thread holds the lock for a session, and it is the session of this lock.
unfoldable pub is_reentry : Option String → Option HeldDevice → Bool
is_reentry session none = false
is_reentry none (some h) = false
is_reentry (some s) (some h) = elim h.session_id [ none ↦ false | some t ↦ s =ₛ t ]

abbrev depth_of : Option HeldDevice → ℕ
depth_of none = 0
depth_of (some h) = h.depth

abbrev session_of : Option HeldDevice → Option String
session_of none = none
session_of (some h) = h.session_id

abbrev pub entered_again : DeviceLock → DeviceLock
entered_again l = record l { acquired = true; reentrant = true }

abbrev pub entered_first : DeviceLock → DeviceLock
entered_first l = record l { handle = true; acquired = true }

abbrev own_metadata : DeviceLock → Metadata
own_metadata l = record {
  owner = l.owner;
  serial_masked = mask_serial l.serial;
  session_id = l.session_id;
  operation = l.operation;
}

-- The metadata file is removed where it names this lock as the owner.
unfoldable pub without_own : DeviceLock → Option Metadata → Option Metadata
without_own l none = none
without_own l (some m) = if m.owner =ₛ l.owner then none else some m

-- `__exit__`
unfoldable pub exit : DeviceLock → DeviceLockState → DeviceLockState
exit l s =
    if l.reentrant
    then record s {
      held =
          put_at l.key
            (if leb (depth_of (s.held l.key)) 1
              then none
              else some (record {
                depth = depth_of (s.held l.key) - 1;
                session_id = session_of (s.held l.key);
              }))
            s.held;
    }
    else record s {
      held = put_at l.key none s.held;
      metadata = put_at l.key (without_own l (s.metadata l.key)) s.metadata;
      granted = (if l.handle && l.acquired then put_at l.key false s.granted else s.granted);
    }

-- The end of an entry whose lock was granted; `written` is the outcome of `write_json_atomic`.
unfoldable pub finish_enter : Result (Unit {0}) → DeviceLock → Exec DeviceLockState DeviceLock
finish_enter (err e) l s = (err e, exit l s)
finish_enter (ok u) l s = (
  ok l,
  record s {
    metadata = put_at l.key (some (own_metadata l)) s.metadata;
    held = put_at l.key (some (record { depth = 1; session_id = l.session_id })) s.held;
  },
)

-- `__enter__`
unfoldable pub enter : Result (Unit {0}) → DeviceLock → Exec DeviceLockState DeviceLock
enter written l s =
    if is_reentry l.session_id (s.held l.key)
    then (
      ok (entered_again l),
      record s {
        held =
            put_at l.key
              (some (record {
                depth = suc (depth_of (s.held l.key));
                session_id = session_of (s.held l.key);
              }))
              s.held;
      },
    )
    else if s.granted l.key
    then raise device_busy_error "Device is busy." s
    else finish_enter written (entered_first l) (record s { granted = put_at l.key true s.granted })
