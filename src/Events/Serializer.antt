-- ===== src/Events/Serializer.antt =====
-- app/core/domain/events/serializer.py, with the fields that the event classes declare.
pub mod RoundTrip
use hexagonal_auth_service.Base.{
  ℕ, Option, none, some, List, [], ◌∷◌, ◌++◌, Text, codes, text_eq, if◌then◌else◌,
}
use hexagonal_auth_service.Errors.{key_error, validation_error, type_error, value_error}
use hexagonal_auth_service.Exec.{Exec, pure, raise, or_raise, ◌>>=◌}
use hexagonal_auth_service.Events.{
  Event, Payload, user_created, user_activated, user_deactivated, user_email_verified,
  user_password_changed, user_password_recovered, user_email_verification_requested,
  user_password_recover_requested, refresh_token_created, refresh_token_revoked,
  refresh_token_reuse_detected, suspicious_refresh_token_revocation,
}
use hexagonal_auth_service.Utils.{utc_now}
use hexagonal_auth_service.Env.{
  Env, Value, null, text, scalar, container, object, not_object, not_json,
}

abbrev Doc : Type 0
Doc = List (Text × Value)

-- `type(event).__name__`
unfoldable pub type_name : Payload → Text
type_name (user_created _ _) = codes "UserCreated"
type_name (user_activated _) = codes "UserActivated"
type_name (user_deactivated _) = codes "UserDeactivated"
type_name (user_email_verified _ _) = codes "UserEmailVerified"
type_name (user_password_changed _) = codes "UserPasswordChanged"
type_name (user_password_recovered _) = codes "UserPasswordRecovered"
type_name (user_email_verification_requested _ _ _) = codes "UserEmailVerificationRequested"
type_name (user_password_recover_requested _ _ _) = codes "UserPasswordRecoverRequested"
type_name (refresh_token_created _ _ _ _ _) = codes "RefreshTokenCreated"
type_name (refresh_token_revoked _ _) = codes "RefreshTokenRevoked"
type_name (refresh_token_reuse_detected _ _ _ _ _) = codes "RefreshTokenReuseDetected"
type_name (suspicious_refresh_token_revocation _ _ _ _ _) = codes "SuspiciousRefreshTokenRevocation"

-- `str | None` in JSON
unfoldable pub optional : Option Text → Value
optional none = null
optional (some t) = text t

-- `dict.get`: a later entry of the same key counts
unfoldable pub lookup : Text → Doc → Option Value
lookup k [] = none
lookup k ((j, v) ∷ d) = elim (lookup k d) [
  | some u ↦ some u
  | none ↦ if text_eq j k then some v else none
]

-- `data.pop(k)`, what is left
unfoldable pub without : Text → Doc → Doc
without k [] = []
without k ((j, v) ∷ d) = let rest = without k d in if text_eq j k then rest else (j, v) ∷ rest

abbrev type_key : Text
type_key = codes "__type__"

-- the classes of `_REGISTRY`
pub data Class : Type 0 where
  created activated deactivated verified changed recovered token_created token_revoked : Class

unfoldable pub class_name : Class → Text
class_name created = codes "UserCreated"
class_name activated = codes "UserActivated"
class_name deactivated = codes "UserDeactivated"
class_name verified = codes "UserEmailVerified"
class_name changed = codes "UserPasswordChanged"
class_name recovered = codes "UserPasswordRecovered"
class_name token_created = codes "RefreshTokenCreated"
class_name token_revoked = codes "RefreshTokenRevoked"

abbrev classes : List Class
classes =
    created ∷ activated ∷ deactivated ∷ verified ∷ changed ∷ recovered ∷ token_created
    ∷ token_revoked ∷ []

unfoldable pub find_class : Text → List Class → Option Class
unfolding class_name
find_class name [] = none
find_class name (c ∷ cs) = if text_eq (class_name c) name then some c else find_class name cs

-- `_REGISTRY[name]`
unfoldable pub registry : Text → Option Class
unfolding find_class
registry name = find_class name classes

unfoldable pub as_text : Option Value → Option Text
as_text (some (text t)) = some t
as_text _ = none

-- a field `str | None = None`
unfoldable pub as_optional : Option Value → Option (Option Text)
as_optional none = some none
as_optional (some null) = some none
as_optional (some (text t)) = some (some t)
as_optional (some scalar) = none
as_optional (some container) = none

module _ ⦃env : Env⦄ where
  unfoldable pub payload_fields : Payload → Doc
  unfolding optional
  payload_fields (user_created u e) =
      (codes "user_id", text (env.uuid_text u)) ∷ (codes "email", text e) ∷ []
  payload_fields (user_activated u) = (codes "user_id", text (env.uuid_text u)) ∷ []
  payload_fields (user_deactivated u) = (codes "user_id", text (env.uuid_text u)) ∷ []
  payload_fields (user_email_verified u e) =
      (codes "user_id", text (env.uuid_text u)) ∷ (codes "email", text e) ∷ []
  payload_fields (user_password_changed u) = (codes "user_id", text (env.uuid_text u)) ∷ []
  payload_fields (user_password_recovered u) = (codes "user_id", text (env.uuid_text u)) ∷ []
  payload_fields (user_email_verification_requested u e t) =
      (codes "user_id", text (env.uuid_text u))
      ∷ (codes "email", text e)
      ∷ (codes "token", text t)
      ∷ []
  payload_fields (user_password_recover_requested u e t) =
      (codes "user_id", text (env.uuid_text u))
      ∷ (codes "email", text e)
      ∷ (codes "token", text t)
      ∷ []
  payload_fields (refresh_token_created u t ip agent place) =
      (codes "user_id", text (env.uuid_text u))
      ∷ (codes "token_id", text (env.uuid_text t))
      ∷ (codes "client_ip", optional ip)
      ∷ (codes "user_agent", optional agent)
      ∷ (codes "location", optional place)
      ∷ []
  payload_fields (refresh_token_revoked u t) =
      (codes "user_id", text (env.uuid_text u)) ∷ (codes "token_id", text (env.uuid_text t)) ∷ []
  payload_fields (refresh_token_reuse_detected u t ip agent place) =
      (codes "user_id", text (env.uuid_text u))
      ∷ (codes "token_id", text (env.uuid_text t))
      ∷ (codes "client_ip", optional ip)
      ∷ (codes "user_agent", optional agent)
      ∷ (codes "location", optional place)
      ∷ []
  payload_fields (suspicious_refresh_token_revocation u t ip agent place) =
      (codes "user_id", text (env.uuid_text u))
      ∷ (codes "token_id", text (env.uuid_text t))
      ∷ (codes "client_ip", optional ip)
      ∷ (codes "user_agent", optional agent)
      ∷ (codes "location", optional place)
      ∷ []

  -- `event.model_dump(mode="json")`
  unfoldable pub model_dump : Event → Doc
  unfolding payload_fields
  model_dump e = (codes "timestamp", text (env.time_text e.timestamp)) ∷ payload_fields e.payload

  unfoldable pub serialize : Event → Text
  unfolding model_dump type_name
  serialize e = env.dumps (model_dump e ++ (type_key, text (type_name e.payload)) ∷ [])

  unfoldable pub read_uuid : Text → Doc → Exec ℕ ℕ
  unfolding lookup
  read_uuid k d = elim (lookup k d) [
    | none ↦ raise validation_error
    | some v ↦ or_raise (env.validate_uuid v) validation_error
  ]

  unfoldable pub read_text : Text → Doc → Exec ℕ Text
  unfolding lookup as_text
  read_text k d = or_raise (as_text (lookup k d)) validation_error

  unfoldable pub read_optional : Text → Doc → Exec ℕ (Option Text)
  unfolding lookup as_optional
  read_optional k d = or_raise (as_optional (lookup k d)) validation_error

  -- the field `timestamp`, with its default factory
  unfoldable pub read_time : Doc → Exec ℕ ℕ
  unfolding lookup utc_now
  read_time d = elim (lookup (codes "timestamp") d) [
    | none ↦ utc_now
    | some v ↦ or_raise (env.validate_time v) validation_error
  ]

  -- the other fields of a class
  unfoldable pub read_payload : Class → Doc → Exec ℕ Payload
  unfolding read_uuid read_text read_optional
  read_payload created d = do
    u ← read_uuid (codes "user_id") d
    e ← read_text (codes "email") d
    pure (user_created u e)
  read_payload activated d = do u ← read_uuid (codes "user_id") d; pure (user_activated u)
  read_payload deactivated d = do u ← read_uuid (codes "user_id") d; pure (user_deactivated u)
  read_payload verified d = do
    u ← read_uuid (codes "user_id") d
    e ← read_text (codes "email") d
    pure (user_email_verified u e)
  read_payload changed d = do u ← read_uuid (codes "user_id") d; pure (user_password_changed u)
  read_payload recovered d = do u ← read_uuid (codes "user_id") d; pure (user_password_recovered u)
  read_payload token_created d = do
    u ← read_uuid (codes "user_id") d
    t ← read_uuid (codes "token_id") d
    ip ← read_optional (codes "client_ip") d
    agent ← read_optional (codes "user_agent") d
    place ← read_optional (codes "location") d
    pure (refresh_token_created u t ip agent place)
  read_payload token_revoked d = do
    u ← read_uuid (codes "user_id") d
    t ← read_uuid (codes "token_id") d
    pure (refresh_token_revoked u t)

  -- `cls.model_validate(data)`
  unfoldable pub model_validate : Class → Doc → Exec ℕ Event
  unfolding read_time read_payload
  model_validate c d = do
    timestamp ← read_time d
    payload ← read_payload c d
    pure (record { timestamp = timestamp; payload = payload })

  -- `data.pop("__type__")` gave this value, which is no name unless it is a text; a list or a dict is
  -- no key at all
  unfoldable pub validate_as : Value → Doc → Exec ℕ Event
  unfolding registry model_validate
  validate_as (text name) d = do c ← or_raise (registry name) key_error; model_validate c d
  validate_as null d = raise key_error
  validate_as scalar d = raise key_error
  validate_as container d = raise type_error

  -- `pop` of what is no dict raises `TypeError` or `AttributeError`, which are one error here
  unfoldable pub deserialize : Text → Exec ℕ Event
  unfolding lookup without validate_as
  deserialize raw = elim (env.loads raw) [
    | not_json ↦ raise value_error
    | not_object ↦ raise type_error
    | object d ↦ do v ← or_raise (lookup type_key d) key_error; validate_as v (without type_key d)
  ]
