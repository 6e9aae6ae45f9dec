-- ===== src/Session/RoundTrip.antt =====
-- What `to_dict` writes, `from_dict` reads back: the session file loses nothing of a record.
use android_appsec_assessor.Prelude.{
  String, false, true, ◌≡◌, refl, Option, none, some, List, [], ◌∷◌, map, All,
}
use android_appsec_assessor.Prelude.Text.{is_empty}
use android_appsec_assessor.Errors.{ok}
use android_appsec_assessor.Validation.{validate_session_id, validate_serial, validate_package_name}
use android_appsec_assessor.Json.{
  obj, lookup, get_or, of_optional, to_list-of_list, Conversions, to_str, to_int, optional_str,
}
use android_appsec_assessor.Session.{
  SessionStatus, initializing, CleanupActionType, restore_proxy, CleanupActionStatus, pending,
  CleanupAction, SessionRecord,
}
use android_appsec_assessor.Session.Codec.{
  status_value, status_of, type_value, type_of, action_status_value, action_status_of,
  action_to_dict, has_action_id_shape, action_from_dict, actions_from, from_dict, to_dict,
}

status_of-status_value : (s : SessionStatus) → status_of (status_value s) ≡ some s
unfolding status_of status_value
status_of-status_value initializing = refl
status_of-status_value _ = refl

type_of-type_value : (t : CleanupActionType) → type_of (type_value t) ≡ some t
unfolding type_of type_value
type_of-type_value restore_proxy = refl
type_of-type_value _ = refl

action_status_of-action_status_value :
    (s : CleanupActionStatus) → action_status_of (action_status_value s) ≡ some s
unfolding action_status_of action_status_value
action_status_of-action_status_value pending = refl
action_status_of-action_status_value _ = refl

-- An empty text would be read back as no text.
abbrev pub IsStorableText : Option String → Type 0
IsStorableText none = Unit
IsStorableText (some s) = is_empty s ≡ false

pub record IsStorableAction (a : CleanupAction) : Type 0 where
  pub id_shape : has_action_id_shape a.action_id ≡ true
  pub error_text : IsStorableText a.last_error
  pub completion_text : IsStorableText a.completed_at

pub record IsStorable (r : SessionRecord) : Type 0 where
  pub session_id : validate_session_id r.session_id ≡ ok r.session_id
  pub serial : validate_serial r.serial ≡ ok r.serial
  pub package_name : validate_package_name r.package_name ≡ ok r.package_name
  pub error_text : IsStorableText r.last_error
  pub actions : All IsStorableAction r.cleanup_actions

module _ (conv : Conversions) where
  optional_str-of_optional :
      (o : Option String) → IsStorableText o → optional_str conv (of_optional o) ≡ o
  unfolding optional_str
  optional_str-of_optional none h = refl
  optional_str-of_optional (some s) h = rw h

  action_from_dict-action_to_dict :
      (a : CleanupAction) → IsStorableAction a → action_from_dict conv (action_to_dict a) ≡ ok a
  unfolding action_from_dict action_to_dict lookup get_or to_str to_int
  action_from_dict-action_to_dict a h = rw (
    type_of-type_value a.action_type,
    action_status_of-action_status_value a.status,
    h.id_shape,
    optional_str-of_optional a.last_error h.error_text,
    optional_str-of_optional a.completed_at h.completion_text,
  )

  actions_from-map :
      (actions : List CleanupAction)
      → All IsStorableAction actions
      → actions_from conv (map (λ a. obj (action_to_dict a)) actions) ≡ ok actions
  unfolding actions_from
  actions_from-map [] h = refl
  actions_from-map (a ∷ rest) h =
      rw (action_from_dict-action_to_dict a h.0, actions_from-map rest h.1)

  -- A record with valid identifiers, well-formed action identifiers and no empty optional text is
  -- read back from its stored form unchanged, ledger included.
  pub from_dict-to_dict : (r : SessionRecord) → IsStorable r → from_dict conv (to_dict r) ≡ ok r
  unfolding from_dict to_dict lookup get_or to_str
  from_dict-to_dict r h = rw (
    h.session_id,
    h.serial,
    h.package_name,
    status_of-status_value r.status,
    to_list-of_list,
    actions_from-map r.cleanup_actions h.actions,
    optional_str-of_optional r.last_error h.error_text,
  )
