-- ===== src/Tests/Demo.antt =====
-- A concrete environment: counting clock, counting UUIDs, tokens that hold the number of their call, and
-- reversible stand-ins for the hashes.
use hexagonal_auth_service.Base.{
  ℕ, zero, suc, ◌+◌, ◌-◌, Bool, true, ◌&&◌, Option, none, some, List, [], ◌∷◌, ◌++◌, map, Text,
  codes, text_eq, count, ltb, leb, length, take, drop, if◌then◌else◌,
}
use hexagonal_auth_service.AccessToken.RoundTrip.{whole_seconds}
use hexagonal_auth_service.Schema.{Database, UserRow, OneTimeTokenRow, RefreshTokenRow}
use hexagonal_auth_service.World.{World}
use hexagonal_auth_service.Env.{
  Env, System, Crypto, Json, Redis, Config, IpAddress, ipv4, Decoded, payload, expired, invalid,
  Value, null, text, scalar, container, object,
}

abbrev lower_ascii : ℕ → ℕ
lower_ascii c = if leb 65 c && leb c 90 then c + 32 else c

abbrev upper_ascii : ℕ → ℕ
upper_ascii c = if leb 97 c && leb c 122 then c - 32 else c

abbrev read_uuid : Text → Option ℕ
read_uuid (n ∷ []) = some n
read_uuid _ = none

abbrev read_ip : Text → Option IpAddress
read_ip (a ∷ b ∷ c ∷ d ∷ []) = some (ipv4 (a ∷ b ∷ c ∷ d ∷ []))
read_ip _ = none

abbrev read_jwt : Text → ℕ → Decoded
read_jwt (iat ∷ exp ∷ sub) now =
    if ltb now (whole_seconds iat)
    then invalid
    else if ltb now (whole_seconds exp)
    then payload (some sub)
    else expired
read_jwt _ now = invalid

abbrev pub demo_config : Config
demo_config = record {
  email_token_len = 32;
  email_token_exp = 720;
  access_token_exp = 15;
  refresh_token_len = 32;
  refresh_token_exp = 1000;
  password_recover_token_len = 32;
  password_recover_token_exp = 15;
}

abbrev pub demo_system : System
demo_system = record {
  clock = λ n. n;
  uuid = λ n. 100 + n;
  token_urlsafe = λ n len. n ∷ len ∷ [];
  gensalt = λ n. n ∷ [];
}

abbrev pub demo_crypto : Crypto
demo_crypto = record {
  hashpw = λ p salt. some (35 ∷ p);
  checkpw = λ p h. some (text_eq (35 ∷ p) h);
  sha256_hex = λ t. 36 ∷ t;
}

-- Documents as texts: each entry begins with 0 and its key, a character `c` is `c + 5`, and 1 to 4 begin
-- the value. They are read from the right; the state is the text under way, its value and the entries.
abbrev Reading : Type 0
Reading = Text × Value × List (Text × Value)

abbrev pub write_value : Value → Text
write_value (text t) = 1 ∷ map (λ c. suc (suc (suc (suc (suc c))))) t
write_value null = 2 ∷ []
write_value scalar = 3 ∷ []
write_value container = 4 ∷ []

abbrev pub demo_dumps : List (Text × Value) → Text
demo_dumps [] = []
demo_dumps ((k, v) ∷ d) =
    0 ∷ (map (λ c. suc (suc (suc (suc (suc c))))) k ++ (write_value v ++ demo_dumps d))

abbrev pub read_code : ℕ → Reading → Reading
read_code zero (t, v, d) = ([], null, (t, v) ∷ d)
read_code (suc zero) (t, v, d) = ([], text t, d)
read_code (suc (suc zero)) (t, v, d) = ([], null, d)
read_code (suc (suc (suc zero))) (t, v, d) = ([], scalar, d)
read_code (suc (suc (suc (suc zero)))) (t, v, d) = ([], container, d)
read_code (suc (suc (suc (suc (suc c))))) (t, v, d) = (c ∷ t, v, d)

abbrev pub read_doc : Text → Reading
read_doc [] = ([], null, [])
read_doc (c ∷ s) = read_code c (read_doc s)

abbrev read_time : Value → Option ℕ
read_time (text (n ∷ [])) = some n
read_time _ = none

abbrev pub demo_json : Json
demo_json = record {
  dumps = demo_dumps;
  loads = λ s. object (read_doc s).2;
  time_text = λ n. n ∷ [];
  validate_time = read_time;
  validate_uuid = read_time;
}

abbrev pub demo_redis : Redis
demo_redis = record {
  rpush = λ l x. l ++ x ∷ [];
  llen = length;
  lrange = λ l a b. take (suc b - a) (drop a l);
}

-- no text occurs twice
abbrev distinct : List Text → Bool
distinct [] = true
distinct (t ∷ ts) = leb (count (text_eq t) ts) 0 && distinct ts

-- the constraints of the demonstration: no address and no hash of a token occurs twice
abbrev unique_columns : Database → Bool
unique_columns db =
    distinct (map (λ (u : UserRow). u.email) db.users)
    && distinct (map (λ (r : OneTimeTokenRow). r.token_hash) db.one_time_tokens)
    && distinct (map (λ (r : RefreshTokenRow). r.token_hash) db.refresh_tokens)

instance abbrev pub demo : Env
demo = record {
  system = demo_system;
  crypto = demo_crypto;
  strings = record {
    lower = map lower_ascii;
    upper = map upper_ascii;
    uuid_text = λ n. n ∷ [];
    parse_uuid = read_uuid;
    strftime = λ n. n ∷ [];
    int_text = λ n. n ∷ [];
  };
  jwt = record { encode = λ c. c.iat ∷ c.exp ∷ c.sub; decode = read_jwt };
  json = demo_json;
  redis = demo_redis;
  config = demo_config;
  ip_address = read_ip;
  admits = unique_columns;
}

-- one verified user, with a live refresh token whose string is the text 7
abbrev pub ann : UserRow
ann = record {
  id = 1;
  email = codes "ann@example.com";
  is_email_verified = true;
  password_hash = 35 ∷ codes "secret-word";
  active = true;
  created_at = 0;
  version = 1;
}

abbrev pub session : RefreshTokenRow
session = record {
  id = 2;
  token_hash = 36 ∷ 7 ∷ [];
  user_id = 1;
  expires_at = 1000;
  version = 1;
  revoked_at = none;
  replaced_by_id = none;
  created_at = 0;
}

abbrev pub start : World
start = record {
  calls = 10;
  db = record { users = ann ∷ []; one_time_tokens = []; refresh_tokens = session ∷ [] };
  audit = [];
  notifications = [];
}
