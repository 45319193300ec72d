-- ===== src/AccessToken.antt =====
-- app/adapters/outbound/access_token: the issuer and the verifier of access tokens. The claims hold the
-- times as the issuer gives them to PyJWT; that PyJWT cuts them to whole seconds is its own work.
pub mod RoundTrip
use hexagonal_auth_service.Base.{ℕ, ◌+◌, none, some, Text, codes}
use hexagonal_auth_service.Errors.{invalid_access_token, access_token_expired}
use hexagonal_auth_service.Exec.{Exec, Result, ok, err, pure, lift, ◌>>=◌}
use hexagonal_auth_service.Env.{Env, Decoded, payload, expired, invalid}
use hexagonal_auth_service.Utils.{utc_now}

module _ ⦃env : Env⦄ where
  unfoldable pub issue : ℕ → ℕ → Exec ℕ Text
  unfolding utc_now
  issue user_id expiry = do
    now ← utc_now
    pure (
        env.encode (record {
          sub = env.uuid_text user_id;
          iat = now;
          exp = now + expiry;
          kind = codes "access";
        }))

  -- `UUID(payload["sub"])`; the claim "type" is not looked at
  unfoldable pub subject : Decoded → Result ℕ
  subject expired = err (access_token_expired (codes "Access token expired"))
  subject invalid = err (invalid_access_token (codes "Invalid access token"))
  subject (payload none) = err (invalid_access_token (codes "Invalid access token"))
  subject (payload (some sub)) = elim (env.parse_uuid sub) [
    | none ↦ err (invalid_access_token (codes "Invalid access token"))
    | some id ↦ ok id
  ]

  -- PyJWT compares "exp" with the time of the call
  unfoldable pub verify : Text → Exec ℕ ℕ
  unfolding utc_now subject
  verify token = do now ← utc_now; lift (subject (env.decode token now))
