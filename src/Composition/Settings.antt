-- ===== src/Composition/Settings.antt =====
-- app/config/settings.py and app/adapters/outbound/config.py. How pydantic reads the environment is
-- left out; the numbers are not negative. Durations are in microseconds, as in the rest.
pub mod Url
use hexagonal_auth_service.Base.{ℕ, ◌*◌, Bool, false, ◌∷◌, ◌++◌, Text, codes}
use hexagonal_auth_service.Env.{Env, Config}

pub record Settings : Type 0 where
  pub postgres_db : Text
  pub postgres_user : Text
  pub postgres_password : Text
  pub postgres_host : Text
  pub postgres_port : ℕ
  pub postgres_echo : Bool
  pub trust_proxy : Bool
  pub email_token_length : ℕ
  pub email_token_expiry_minutes : ℕ
  pub jwt_secret : Text
  pub jwt_algorithm : Text
  pub access_token_expire_minutes : ℕ
  pub refresh_token_length : ℕ
  pub refresh_token_expiry_hours : ℕ
  pub password_recover_token_length : ℕ
  pub password_recover_token_expiry_minutes : ℕ
  pub redis_url : Text
  pub logging_level : Text

-- the settings where only those without a default are given
unfoldable pub default_settings : (db user password host : Text) (port : ℕ) → Settings
default_settings db user password host port = record {
  postgres_db = db;
  postgres_user = user;
  postgres_password = password;
  postgres_host = host;
  postgres_port = port;
  postgres_echo = false;
  trust_proxy = false;
  email_token_length = 32;
  email_token_expiry_minutes = 720;
  jwt_secret = codes "super_secret";
  jwt_algorithm = codes "HS256";
  access_token_expire_minutes = 15;
  refresh_token_length = 32;
  refresh_token_expiry_hours = 336;
  password_recover_token_length = 32;
  password_recover_token_expiry_minutes = 15;
  redis_url = codes "redis://localhost:6379/0";
  logging_level = codes "INFO";
}

-- `timedelta(minutes=n)`
abbrev pub minutes : ℕ → ℕ
minutes n = n * 60000000

-- `timedelta(hours=n)`
abbrev pub hours : ℕ → ℕ
hours n = n * 3600000000

unfoldable pub email_token_expiry : Settings → ℕ
email_token_expiry settings = minutes settings.email_token_expiry_minutes

unfoldable pub access_token_expiry : Settings → ℕ
access_token_expiry settings = minutes settings.access_token_expire_minutes

unfoldable pub refresh_token_expiry : Settings → ℕ
refresh_token_expiry settings = hours settings.refresh_token_expiry_hours

unfoldable pub password_recover_token_expiry : Settings → ℕ
password_recover_token_expiry settings = minutes settings.password_recover_token_expiry_minutes

-- the methods of `Config`
unfoldable pub config_of : Settings → Config
unfolding email_token_expiry access_token_expiry refresh_token_expiry password_recover_token_expiry
config_of settings = record {
  email_token_len = settings.email_token_length;
  email_token_exp = email_token_expiry settings;
  access_token_exp = access_token_expiry settings;
  refresh_token_len = settings.refresh_token_length;
  refresh_token_exp = refresh_token_expiry settings;
  password_recover_token_len = settings.password_recover_token_length;
  password_recover_token_exp = password_recover_token_expiry settings;
}

abbrev pub colon : ℕ
colon = b':'

abbrev pub at_sign : ℕ
at_sign = b'@'

abbrev pub slash : ℕ
slash = b'/'

module _ ⦃env : Env⦄ where
  -- "user:password@host:port/db"
  unfoldable pub location_part : Settings → Text
  location_part settings =
      settings.postgres_user
      ++ colon
        ∷ (settings.postgres_password
            ++ at_sign
              ∷ (settings.postgres_host
                  ++ colon ∷ (env.int_text settings.postgres_port ++ slash ∷ settings.postgres_db)))

  unfoldable pub database_url : Settings → Text
  unfolding location_part
  database_url settings = codes "postgresql+asyncpg://" ++ location_part settings

  unfoldable pub database_url_sync : Settings → Text
  unfolding location_part
  database_url_sync settings = codes "postgresql+psycopg2://" ++ location_part settings
