-- ===== src/Cases/Login.antt =====
-- cases/user/login.py
pub mod Success
pub mod Grant
pub mod Access
use hexagonal_auth_service.Base.{List, ◌++◌, codes}
use hexagonal_auth_service.Errors.{user_not_found}
use hexagonal_auth_service.Exec.{Exec, pure, or_raise, ◌>>=◌, ◌>>◌}
use hexagonal_auth_service.Env.{Env}
use hexagonal_auth_service.Events.{Event}
use hexagonal_auth_service.World.{World, draw, call, transaction}
use hexagonal_auth_service.User
use hexagonal_auth_service.RefreshToken
use hexagonal_auth_service.AccessToken.{issue}
use hexagonal_auth_service.Persistence.Users
use hexagonal_auth_service.Persistence.RefreshTokens
use hexagonal_auth_service.EventBus.Publisher.{publish}
use hexagonal_auth_service.Cases.Inputs.{LoginUserInputDto, TokenPairDto}

module _ ⦃env : Env⦄ where
  -- the block under `async with self.tx`
  unfoldable pub login_user : LoginUserInputDto → Exec World (TokenPairDto × List Event)
  login_user input = do
    found ← Users.get_by_email input.email
    user ← or_raise found (user_not_found (codes "User does not exist"))
    (_, user₁) ← call (User.assert_can_login input.password) user
    access_token ← draw (issue user₁.id env.access_token_exp)
    (refresh_token, refresh_token_str) ← draw (
        RefreshToken.create user₁.id env.refresh_token_len env.refresh_token_exp input.location
          input.client_ip input.user_agent)
    (user_events, user₂) ← call User.pull_domain_events user₁
    (token_events, refresh_token₁) ← call RefreshToken.pull_domain_events refresh_token
    Users.save user₂
    RefreshTokens.save refresh_token₁
    pure (
      record { access_token = access_token; refresh_token = refresh_token_str },
      user_events ++ token_events,
    )

  unfoldable pub execute : LoginUserInputDto → Exec World TokenPairDto
  unfolding login_user transaction
  execute input = do
    (response_data, events) ← transaction (login_user input)
    publish events
    pure response_data
