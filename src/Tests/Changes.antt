-- ===== src/Tests/Changes.antt =====
-- A change of a password, and the login that follows it.
use hexagonal_auth_service.Base.{◌≡◌, refl, none, [], ◌∷◌, codes, text_eq, strip, is_space}
use hexagonal_auth_service.Exec.{ok}
use hexagonal_auth_service.Utils
use hexagonal_auth_service.Utils.{hash_token}
use hexagonal_auth_service.Validators.Password.{validate_password, validate_hash_password}
use hexagonal_auth_service.User
use hexagonal_auth_service.RefreshToken
use hexagonal_auth_service.AccessToken.{issue, verify}
use hexagonal_auth_service.World.{World, transaction}
use hexagonal_auth_service.Persistence.Users
use hexagonal_auth_service.Persistence.RefreshTokens
use hexagonal_auth_service.EventBus.Publisher.{publish}
use hexagonal_auth_service.Cases.Inputs.{ChangePasswordInputDto, LoginUserInputDto, TokenPairDto}
use hexagonal_auth_service.Cases.Rows.{owners}
use hexagonal_auth_service.Cases.Login
use hexagonal_auth_service.Cases.ChangePassword
use hexagonal_auth_service.Cases.ChangePassword.Success.{bearer}
use hexagonal_auth_service.Cases.ChangePassword.Grant.{IsChange, execute-IsChange, changed_password}
use hexagonal_auth_service.Tests.Users.{demo-IsHashing}
use hexagonal_auth_service.Tests.Demo.{demo, start, ann}

abbrev wish : ChangePasswordInputDto
wish = record {
  access_token = 0 ∷ 1000000 ∷ 1 ∷ [];
  old_password = codes "secret-word";
  new_password = codes " other-word";
}

abbrev members : World
members = record start {
  db = record { users = ann ∷ []; one_time_tokens = []; refresh_tokens = [] };
}

abbrev changed : World
changed = (ChangePassword.execute wish members).1

changes : ChangePassword.execute wish members ≡ (ok tt, changed)
unfolding ChangePassword.execute ChangePassword.change_password transaction verify Users.get_by_id
    User.change_password Utils.verify_password User.pull_domain_events Users.save publish text_eq
    codes validate_password validate_hash_password strip is_space
changes = refl

execute-IsChange_example : IsChange wish members changed
execute-IsChange_example = execute-IsChange wish members changes

abbrev credentials : LoginUserInputDto
credentials = record {
  email = codes "ann@example.com";
  password = codes "other-word";
  client_ip = none;
  user_agent = none;
  location = none;
}

abbrev granted_pair : TokenPairDto
granted_pair = (record { access_token = 13 ∷ 28 ∷ 1 ∷ []; refresh_token = 14 ∷ 32 ∷ [] })

logs_in :
    Login.execute credentials changed ≡ (ok granted_pair, (Login.execute credentials changed).1)
unfolding ChangePassword.execute ChangePassword.change_password transaction verify Users.get_by_id
    User.change_password Utils.verify_password User.pull_domain_events Users.save publish text_eq
    codes validate_password validate_hash_password strip is_space Login.execute Login.login_user
    Users.get_by_email User.assert_can_login issue RefreshToken.create
    RefreshToken.pull_domain_events RefreshTokens.save hash_token
logs_in = refl

owned : owners 1 members ≡ ann ∷ []
owned = refl

borne : bearer wish members ≡ ok 1
unfolding verify
borne = refl

changed_password_example : codes "other-word" ≡ strip (codes " other-word")
changed_password_example =
    changed_password demo-IsHashing wish credentials members 1 ann borne owned changes refl logs_in
