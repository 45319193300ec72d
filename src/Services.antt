-- ===== src/Services.antt =====
-- app/core/domain/services: the services that touch two objects. The state is the object given.
use hexagonal_auth_service.Base.{ℕ, Text, none}
use hexagonal_auth_service.Exec.{Exec, pure, ◌>>=◌, ◌>>◌}
use hexagonal_auth_service.Env.{Env}
use hexagonal_auth_service.Live.{Live, outside, this}
use hexagonal_auth_service.User.{User}
use hexagonal_auth_service.User
use hexagonal_auth_service.OneTimeToken.{
  OneTimeToken, OneTimeTokenPurpose, verify_email, recover_password,
}
use hexagonal_auth_service.OneTimeToken
use hexagonal_auth_service.RefreshToken.{RefreshToken}
use hexagonal_auth_service.RefreshToken
use hexagonal_auth_service.AccessToken.{issue}

module _ ⦃env : Env⦄ where
  -- `EmailVerificationService.request_verification`
  unfoldable pub request_verification : ℕ → ℕ → Exec (Live User) (OneTimeToken × Text)
  request_verification token_length token_expiry = do
    user ← this
    (token, token_string) ←
        outside (OneTimeToken.create user.id token_length token_expiry verify_email)
    User.request_email_verification token_string
    pure (token, token_string)

  -- `PasswordRecoverService.request_password_recover`
  unfoldable pub request_password_recover : ℕ → ℕ → Exec (Live User) (OneTimeToken × Text)
  request_password_recover token_length token_expiry = do
    user ← this
    (token, token_string) ←
        outside (OneTimeToken.create user.id token_length token_expiry recover_password)
    User.request_password_recover token_string
    pure (token, token_string)

  -- `RefreshTokenRotationService.rotate`, on the old token. The new one gets no client metadata.
  unfoldable pub rotate : ℕ → ℕ → ℕ → Exec (Live RefreshToken) (RefreshToken × Text × Text)
  rotate refresh_token_length refresh_token_expiry access_token_expiry = do
    old_token ← this
    (new_rt, new_rt_str) ← outside (
        RefreshToken.create old_token.user_id refresh_token_length refresh_token_expiry none none
          none)
    RefreshToken.mark_as_replaced_by new_rt.id
    access_token ← outside (issue new_rt.user_id access_token_expiry)
    pure (new_rt, new_rt_str, access_token)
