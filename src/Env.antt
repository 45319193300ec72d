-- ===== src/Env.antt =====
-- What the service calls and does not implement: the operating system, bcrypt, hashlib, PyJWT, JSON,
-- Redis, the Unicode tables, the constraint checks of PostgreSQL, Python's `uuid` and `ipaddress`, the settings.
-- Each is a group of functions; a theorem that relies on their behaviour names it as a hypothesis.
use hexagonal_auth_service.Base.{ℕ, Bool, Option, List, Text}
use hexagonal_auth_service.Schema.{Database}

-- The answers of `datetime.now`, `uuid4`, `token_urlsafe` and `gensalt`, by the number of the call.
-- Times and durations are in microseconds. A UUID is its number.
pub record System : Type 0 where
  pub clock : ℕ → ℕ
  pub uuid : ℕ → ℕ
  pub token_urlsafe : ℕ → ℕ → Text
  pub gensalt : ℕ → Text

-- bcrypt and hashlib. `none` where bcrypt raises `ValueError`: a password of over 72 bytes, say.
pub record Crypto : Type 0 where
  pub hashpw : Text → Text → Option Text
  pub checkpw : Text → Text → Option Bool
  pub sha256_hex : Text → Text

-- `str.lower` and `str.upper`, `str(uuid)` and `UUID(text)`, `strftime` of a time with
-- '%Y-%m-%d %H:%M:%S', and `str` of an integer
pub record Strings : Type 0 where
  pub lower : Text → Text
  pub upper : Text → Text
  pub uuid_text : ℕ → Text
  pub parse_uuid : Text → Option ℕ
  pub strftime : ℕ → Text
  pub int_text : ℕ → Text

-- `ipaddress.ip_address`: the address with its packed bytes; `none` is `ValueError`
pub data IpAddress : Type 0 where
  ipv4 ipv6 : List ℕ → IpAddress

-- What the issuer puts into an access token.
pub record Claims : Type 0 where
  pub sub : Text
  pub iat : ℕ
  pub exp : ℕ
  pub kind : Text

-- What `jwt.decode` does: a payload with or without "sub", `ExpiredSignatureError`, or another
-- `InvalidTokenError`.
pub data Decoded : Type 0 where
  payload : Option Text → Decoded
  expired invalid : Decoded

-- PyJWT under the secret and the algorithm of the settings. `decode` is given the time of the call.
pub record Jwt : Type 0 where
  pub encode : Claims → Text
  pub decode : Text → ℕ → Decoded

-- A value in a JSON document: the events hold texts and nulls. A document that is read may hold
-- numbers and booleans (`scalar`) and lists and dicts (`container`).
pub data Value : Type 0 where
  null : Value
  text : Text → Value
  scalar container : Value

-- What `json.loads` gives: a dict in insertion order, another value, or `JSONDecodeError`.
pub data Loaded : Type 0 where
  object : List (Text × Value) → Loaded
  not_object not_json : Loaded

-- `json`; pydantic's text form of a `datetime`, and its validation of `datetime` and `UUID` fields
pub record Json : Type 0 where
  pub dumps : List (Text × Value) → Text
  pub loads : Text → Loaded
  pub time_text : ℕ → Text
  pub validate_time : Value → Option ℕ
  pub validate_uuid : Value → Option ℕ

-- The Redis commands on the one list that the service keeps; the indices here are never negative.
pub record Redis : Type 0 where
  pub rpush : List Text → Text → List Text
  pub llen : List Text → ℕ
  pub lrange : List Text → ℕ → ℕ → List Text

-- app/core/ports/config.py
pub record Config : Type 0 where
  pub email_token_len : ℕ
  pub email_token_exp : ℕ
  pub access_token_exp : ℕ
  pub refresh_token_len : ℕ
  pub refresh_token_exp : ℕ
  pub password_recover_token_len : ℕ
  pub password_recover_token_exp : ℕ

pub record Env : Type 0 where
  pub system : System
  pub open system use *
  pub crypto : Crypto
  pub open crypto use *
  pub strings : Strings
  pub open strings use *
  pub jwt : Jwt
  pub open jwt use *
  pub json : Json
  pub open json use *
  pub redis : Redis
  pub open redis use *
  pub config : Config
  pub open config use *
  pub ip_address : Text → Option IpAddress
  -- whether PostgreSQL accepts the tables under the constraints that the models declare
  pub admits : Database → Bool
