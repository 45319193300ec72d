-- ===== src/Utils.antt =====
-- app/core/utils: the clock, random values and hashes. The state is the number of calls so far.
use hexagonal_auth_service.Base.{ℕ, suc, Bool, Text}
use hexagonal_auth_service.Errors.{value_error}
use hexagonal_auth_service.Exec.{Exec, ok, or_raise, ◌>>=◌}
use hexagonal_auth_service.Env.{Env}

module _ ⦃env : Env⦄ where
  unfoldable pub utc_now : Exec ℕ ℕ
  utc_now n = (ok (env.clock n), suc n)

  unfoldable pub uuid4 : Exec ℕ ℕ
  uuid4 n = (ok (env.uuid n), suc n)

  unfoldable pub generate_token : ℕ → Exec ℕ Text
  generate_token length n = (ok (env.token_urlsafe n length), suc n)

  unfoldable pub hash_token : Text → Text
  hash_token token = env.sha256_hex token

  unfoldable pub gensalt : Exec ℕ Text
  gensalt n = (ok (env.gensalt n), suc n)

  unfoldable pub hash_password : Text → Exec ℕ Text
  unfolding gensalt
  hash_password password = do salt ← gensalt; or_raise (env.hashpw password salt) value_error

  unfoldable pub verify_password : Text → Text → Exec ℕ Bool
  verify_password password hashed = or_raise (env.checkpw password hashed) value_error
