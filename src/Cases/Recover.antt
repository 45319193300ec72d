-- ===== src/Cases/Recover.antt =====
-- cases/user/password_recover.py
pub mod Success
pub mod Once
pub mod Grant
use hexagonal_auth_service.Base.{List, codes}
use hexagonal_auth_service.Errors.{one_time_token_not_found, user_not_found}
use hexagonal_auth_service.Exec.{Exec, pure, or_raise, ◌>>=◌, ◌>>◌}
use hexagonal_auth_service.Env.{Env}
use hexagonal_auth_service.Events.{Event}
use hexagonal_auth_service.World.{World, call, transaction}
use hexagonal_auth_service.User
use hexagonal_auth_service.OneTimeToken
use hexagonal_auth_service.Persistence.Users
use hexagonal_auth_service.Persistence.OneTimeTokens
use hexagonal_auth_service.EventBus.Publisher.{publish}
use hexagonal_auth_service.Cases.Inputs.{PasswordRecoverInputDto}

module _ ⦃env : Env⦄ where
  -- the block under `async with self.tx`
  unfoldable pub recover_password : PasswordRecoverInputDto → Exec World (List Event)
  recover_password input = do
    found ← OneTimeTokens.get_by_string input.password_recover_token
    ott ← or_raise found (one_time_token_not_found (codes "Password recover token not found"))
    owner ← Users.get_by_id ott.user_id
    user ← or_raise owner (user_not_found (codes "User not found"))
    (_, user₁) ← call (User.recover_password input.password) user
    (_, ott₁) ← call (OneTimeToken.use_token OneTimeToken.recover_password) ott
    (events, user₂) ← call User.pull_domain_events user₁
    Users.save user₂
    OneTimeTokens.save ott₁
    pure events

  unfoldable pub execute : PasswordRecoverInputDto → Exec World (Unit {0})
  unfolding recover_password transaction
  execute input = do events ← transaction (recover_password input); publish events
