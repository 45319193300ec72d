-- ===== src/Cases/VerifyEmail.antt =====
-- cases/user/verify_email.py
pub mod Success
pub mod Once
pub mod Grant
use hexagonal_auth_service.Base.{List, codes}
use hexagonal_auth_service.Errors.{one_time_token_not_found, user_not_found}
use hexagonal_auth_service.Exec.{Exec, pure, or_raise, ◌>>=◌, ◌>>◌}
use hexagonal_auth_service.Env.{Env}
use hexagonal_auth_service.Events.{Event}
use hexagonal_auth_service.World.{World, call, transaction}
use hexagonal_auth_service.User
use hexagonal_auth_service.OneTimeToken
use hexagonal_auth_service.Persistence.Users
use hexagonal_auth_service.Persistence.OneTimeTokens
use hexagonal_auth_service.EventBus.Publisher.{publish}
use hexagonal_auth_service.Cases.Inputs.{VerifyEmailInputDto}

module _ ⦃env : Env⦄ where
  -- the block under `async with self.tx`
  unfoldable pub verify_user : VerifyEmailInputDto → Exec World (List Event)
  verify_user input = do
    found ← OneTimeTokens.get_by_string input.one_time_token
    ott ← or_raise found (one_time_token_not_found (codes "Invalid token"))
    owner ← Users.get_by_id ott.user_id
    user ← or_raise owner (user_not_found (codes "User not found"))
    (_, ott₁) ← call (OneTimeToken.use_token OneTimeToken.verify_email) ott
    (_, user₁) ← call User.verify_email user
    (events, user₂) ← call User.pull_domain_events user₁
    Users.save user₂
    OneTimeTokens.save ott₁
    pure events

  unfoldable pub execute : VerifyEmailInputDto → Exec World (Unit {0})
  unfolding verify_user transaction
  execute input = do events ← transaction (verify_user input); publish events
