-- ===== src/Validation/Idempotence.antt =====
-- A session identifier that `validate_session_id` of android_assessor/validation.py returned names the
-- same directory when it is validated again.
use Prim.Native.Char.{code}
use android_appsec_assessor.Prelude.{ap, String, Bool, true, not, ◌≡◌, refl, arith}
use android_appsec_assessor.Prelude.Text.{is_space, strip, lstrip, rstrip}
use android_appsec_assessor.Errors.{ok, ◌>>=◌}
use android_appsec_assessor.Validation.{validate_session_id}

-- No space in front.
abbrev is_trimmed : String → Bool
is_trimmed String.[] = true
is_trimmed (String.◌∷◌ c s) = not (is_space (code c))

lstrip-is_trimmed : (s : String) → is_trimmed (lstrip s) ≡ true
lstrip-is_trimmed String.[] = refl
lstrip-is_trimmed (String.◌∷◌ c s) = ground (arith, lstrip-is_trimmed s)

lstrip_of_trimmed : (s : String) → is_trimmed s ≡ true → lstrip s ≡ s
lstrip_of_trimmed String.[] h = refl
lstrip_of_trimmed (String.◌∷◌ c s) h = ground arith

rstrip-is_trimmed : (s : String) → is_trimmed s ≡ true → is_trimmed (rstrip s) ≡ true
rstrip-is_trimmed String.[] h = refl
rstrip-is_trimmed (String.◌∷◌ c s) h = ground arith

rstrip_idem : (s : String) → rstrip (rstrip s) ≡ rstrip s
rstrip_idem String.[] = refl
rstrip_idem (String.◌∷◌ c s) = ground (arith, rstrip_idem s)

pub strip_idem : (s : String) → strip (strip s) ≡ strip s
unfolding strip
strip_idem s =
    rw (lstrip_of_trimmed (rstrip (lstrip s)) (rstrip-is_trimmed (lstrip s) (lstrip-is_trimmed s)))
      (rstrip_idem (lstrip s))

module _ (s : String) where
  validate_session_id_idem : (validate_session_id s >>= validate_session_id) ≡ validate_session_id s
  unfolding validate_session_id
  validate_session_id_idem = ground (arith, strip_idem s)

-- An accepted session identifier is accepted again.
pub validate_session_id_again :
    (s : String) {v : String} → validate_session_id s ≡ ok v → validate_session_id v ≡ ok v
validate_session_id_again s h =
    cc (validate_session_id_idem s, h, ap (λ r. r >>= validate_session_id) h)
