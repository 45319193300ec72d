-- ===== src/Cases/RecoverRequest.antt =====
-- cases/user/password_recover_request.py
pub mod Grant
use hexagonal_auth_service.Base.{List, codes}
use hexagonal_auth_service.Errors.{user_not_found}
use hexagonal_auth_service.Exec.{Exec, pure, or_raise, ◌>>=◌, ◌>>◌}
use hexagonal_auth_service.Env.{Env}
use hexagonal_auth_service.Events.{Event}
use hexagonal_auth_service.World.{World, call, transaction}
use hexagonal_auth_service.User
use hexagonal_auth_service.Services.{request_password_recover}
use hexagonal_auth_service.Persistence.Users
use hexagonal_auth_service.Persistence.OneTimeTokens
use hexagonal_auth_service.EventBus.Publisher.{publish}
use hexagonal_auth_service.Cases.Inputs.{PasswordRecoverRequestInputDto}

module _ ⦃env : Env⦄ where
  -- the block under `async with self.tx`
  unfoldable pub request_recover : PasswordRecoverRequestInputDto → Exec World (List Event)
  request_recover input = do
    found ← Users.get_by_email input.email
    user ← or_raise found (user_not_found (codes "User not found"))
    ((ott, _), user₁) ←
        call
          (request_password_recover env.password_recover_token_len env.password_recover_token_exp)
          user
    (events, user₂) ← call User.pull_domain_events user₁
    Users.save user₂
    OneTimeTokens.save ott
    pure events

  unfoldable pub execute : PasswordRecoverRequestInputDto → Exec World (Unit {0})
  unfolding request_recover transaction
  execute input = do events ← transaction (request_recover input); publish events
