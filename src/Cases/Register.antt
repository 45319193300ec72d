-- ===== src/Cases/Register.antt =====
-- cases/user/register.py
pub mod Success
pub mod Grant
pub mod OtherCase
pub mod Again
use hexagonal_auth_service.Base.{Bool, false, Option, none, some, List, codes}
use hexagonal_auth_service.Errors.{user_already_exists}
use hexagonal_auth_service.Exec.{Exec, pure, raise_if, ◌>>=◌, ◌>>◌}
use hexagonal_auth_service.Env.{Env}
use hexagonal_auth_service.Events.{Event}
use hexagonal_auth_service.World.{World, draw, call, transaction}
use hexagonal_auth_service.User
use hexagonal_auth_service.User.{User}
use hexagonal_auth_service.Services.{request_verification}
use hexagonal_auth_service.Persistence.Users
use hexagonal_auth_service.Persistence.OneTimeTokens
use hexagonal_auth_service.EventBus.Publisher.{publish}
use hexagonal_auth_service.Cases.Inputs.{RegisterUserInputDto}

-- `user and user.is_email_verified`
unfoldable pub is_verified : Option User → Bool
is_verified none = false
is_verified (some user) = user.is_email_verified

module _ ⦃env : Env⦄ where
  -- `user or User.create(data.email, data.password)`
  unfoldable pub or_create : Option User → RegisterUserInputDto → Exec World User
  or_create none input = draw (User.create input.email input.password)
  or_create (some user) input = pure user

  -- the block under `async with self.tx`
  unfoldable pub register_user : RegisterUserInputDto → Exec World (List Event)
  unfolding is_verified or_create
  register_user input = do
    found ← Users.get_by_email input.email
    raise_if (is_verified found) (user_already_exists (codes "User already exists"))
    user ← or_create found input
    ((ott, _), user₁) ← call (request_verification env.email_token_len env.email_token_exp) user
    (events, user₂) ← call User.pull_domain_events user₁
    Users.save user₂
    OneTimeTokens.save ott
    pure events

  unfoldable pub execute : RegisterUserInputDto → Exec World (Unit {0})
  unfolding register_user transaction
  execute input = do events ← transaction (register_user input); publish events
