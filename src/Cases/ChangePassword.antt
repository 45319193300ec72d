-- ===== src/Cases/ChangePassword.antt =====
-- cases/user/change_password.py
pub mod Success
pub mod Grant
use hexagonal_auth_service.Base.{List, codes}
use hexagonal_auth_service.Errors.{user_not_found}
use hexagonal_auth_service.Exec.{Exec, pure, or_raise, ◌>>=◌, ◌>>◌}
use hexagonal_auth_service.Env.{Env}
use hexagonal_auth_service.Events.{Event}
use hexagonal_auth_service.World.{World, draw, call, transaction}
use hexagonal_auth_service.User
use hexagonal_auth_service.AccessToken.{verify}
use hexagonal_auth_service.Persistence.Users
use hexagonal_auth_service.EventBus.Publisher.{publish}
use hexagonal_auth_service.Cases.Inputs.{ChangePasswordInputDto}

module _ ⦃env : Env⦄ where
  -- the block under `async with self.tx`
  unfoldable pub change_password : ChangePasswordInputDto → Exec World (List Event)
  change_password input = do
    user_id ← draw (verify input.access_token)
    found ← Users.get_by_id user_id
    user ← or_raise found (user_not_found (codes "User not found"))
    (_, user₁) ← call (User.change_password input.old_password input.new_password) user
    (events, user₂) ← call User.pull_domain_events user₁
    Users.save user₂
    pure events

  unfoldable pub execute : ChangePasswordInputDto → Exec World (Unit {0})
  unfolding change_password transaction
  execute input = do events ← transaction (change_password input); publish events
